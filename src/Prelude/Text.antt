-- ===== src/Prelude/Text.antt =====
-- Texts compared whole, and a Python `dict` with text keys in insertion order.
use Prim.Native.String.{String}
use text.Mathlib.Text.{◌==◌}
use text.Mathlib.TextEquality.{eq_iff}
use mathlib.Core.Path.{◌≡◌, refl}
use mathlib.Core.Bool.{Bool, false, ◌||◌}
use mathlib.Core.List.{List, [], ◌∷◌}
use mathlib.Core.Option.{Option, none, some}
use native.Mathlib.Omega.{arith}
use mathlib.Core.Logic.{inl, inr}
use trading_ai_alpha_agent.Prelude.Tests.{if◌then◌else◌, Bool-cases}

abbrev pub eqb : String → String → Bool
eqb s t = s == t

abbrev pub Dict {ℓ} : Type ℓ → Type ℓ
Dict V = List (String × V)

-- `bool(text)`
abbrev pub is_empty : String → Bool
is_empty s = eqb s ""

-- `key in items`
abbrev pub contains : String → List String → Bool
contains k [] = false
contains k (x ∷ xs) = eqb x k || contains k xs

module _ {ℓ} {V : Type ℓ} where
  unfoldable pub lookup : String → Dict V → Option V
  lookup k [] = none
  lookup k ((j, v) ∷ d) = if eqb j k then some v else lookup k d

  -- `d[k] = v`
  unfoldable pub insert : String → V → Dict V → Dict V
  insert k v [] = (k, v) ∷ []
  insert k v ((j, w) ∷ d) = if eqb j k then (j, v) ∷ d else (j, w) ∷ insert k v d

  -- `d.pop(k, None)`
  unfoldable pub erase : String → Dict V → Dict V
  erase k [] = []
  erase k ((j, w) ∷ d) = if eqb j k then d else (j, w) ∷ erase k d

  -- `d.setdefault(k, v)`
  unfoldable pub set_default : String → V → Dict V → Dict V
  unfolding lookup insert
  set_default k v d = elim (lookup k d) [ none ↦ insert k v d | some _ ↦ d ]

  pub lookup-insert :
      (k j : String) (v : V) (d : Dict V)
      → lookup j (insert k v d) ≡ (if eqb k j then some v else lookup j d)
  unfolding lookup insert
  lookup-insert k j v [] = refl
  lookup-insert k j v ((i, w) ∷ d) =
      ground (arith, eq_iff k j, eq_iff i k, eq_iff i j, lookup-insert k j v d)

  pub lookup-insert_self : (k : String) (v : V) (d : Dict V) → lookup k (insert k v d) ≡ some v
  lookup-insert_self k v d = ground (arith, lookup-insert k k v d, eq_iff k k)

  -- No key stands twice.
  abbrev pub Distinct : Dict V → Type ℓ
  Distinct [] = Unit
  Distinct ((k, v) ∷ d) = (lookup k d ≡ none) × Distinct d

  lookup-erase-none : (k j : String) (d : Dict V) → lookup j d ≡ none → lookup j (erase k d) ≡ none
  unfolding lookup erase
  lookup-erase-none k j [] h = refl
  lookup-erase-none k j ((i, w) ∷ d) h = ground (arith, lookup-erase-none k j d)

  pub lookup-erase :
      (k j : String) (d : Dict V)
      → Distinct d
      → lookup j (erase k d) ≡ (if eqb k j then none else lookup j d)
  unfolding lookup erase
  lookup-erase k j [] h = ground arith
  lookup-erase k j ((i, w) ∷ d) (h, distinct) =
      ground (arith, eq_iff k j, eq_iff i k, eq_iff i j, lookup-erase k j d distinct, h)

  pub insert-Distinct : (k : String) (v : V) (d : Dict V) → Distinct d → Distinct (insert k v d)
  unfolding lookup insert
  insert-Distinct k v [] h = (refl, tt)
  insert-Distinct k v ((i, w) ∷ d) (h, distinct) = elim (Bool-cases (eqb i k)) [
    | inl same ↦ rw same (h, distinct)
    | inr other ↦ rw other (
      (ground (arith, lookup-insert k i v d, eq_iff k i, eq_iff i k)),
      insert-Distinct k v d distinct,
    )
  ]

  pub erase-Distinct : (k : String) (d : Dict V) → Distinct d → Distinct (erase k d)
  unfolding erase
  erase-Distinct k [] h = tt
  erase-Distinct k ((i, w) ∷ d) (h, distinct) = elim (Bool-cases (eqb i k)) [
    | inl same ↦ rw same distinct
    | inr other ↦ rw other (lookup-erase-none k i d h, erase-Distinct k d distinct)
  ]
