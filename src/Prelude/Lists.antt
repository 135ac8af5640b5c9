-- ===== src/Prelude/Lists.antt =====
-- Lists counted by native numbers, lists of optional entries, and a predicate on every entry.
use Prim.Native.Nat.{ℕ, suc, ◌+◌}
use mathlib.Core.Path.{◌≡◌, refl}
use mathlib.Core.Bool.{Bool, true, false}
use mathlib.Core.List.{List, [], ◌∷◌, ◌++◌}
use mathlib.Core.Option.{Option, none, some}
use native.Mathlib.Omega.{arith}
use trading_ai_alpha_agent.Prelude.Tests.{if◌then◌else◌}

module _ {ℓ} {A : Type ℓ} where
  abbrev pub length : List A → ℕ
  length [] = 0
  length (x ∷ xs) = suc (length xs)

  pub length-append : (xs ys : List A) → length (xs ++ ys) ≡ length xs + length ys
  length-append [] ys = omega arith
  length-append (x ∷ xs) ys = omega (arith, length-append xs ys)

  abbrev pub All {κ} : (A → Type κ) → List A → Type κ
  All P [] = Unit
  All P (x ∷ xs) = P x × All P xs

  -- `len([x for x in xs if test(x)])`
  abbrev pub count_if : (A → Bool) → List A → ℕ
  count_if test [] = 0
  count_if test (x ∷ xs) = let rest = count_if test xs in if test x then suc rest else rest

  -- `if value: reasons.append(value)`
  abbrev pub to_list : Option A → List A
  to_list none = []
  to_list (some a) = a ∷ []

  -- A row of statements `if test: reasons.append(value)`.
  abbrev pub raised : List (Bool × A) → List A
  raised [] = []
  raised ((test, a) ∷ checks) = let rest = raised checks in if test then a ∷ rest else rest

  abbrev pub NoneRaised : List (Bool × A) → Type 0
  NoneRaised [] = Unit
  NoneRaised ((test, a) ∷ checks) = (test ≡ false) × NoneRaised checks

  pub raised-eq-nil : (checks : List (Bool × A)) → raised checks ≡ [] → NoneRaised checks
  raised-eq-nil [] h = tt
  raised-eq-nil ((true, a) ∷ checks) h = cc
  raised-eq-nil ((false, a) ∷ checks) h = (refl, raised-eq-nil checks h)

  pub NoneRaised-raised : (checks : List (Bool × A)) → NoneRaised checks → raised checks ≡ []
  NoneRaised-raised [] h = refl
  NoneRaised-raised ((true, a) ∷ checks) h = cc
  NoneRaised-raised ((false, a) ∷ checks) h = NoneRaised-raised checks h.1

  pub append-eq-nil : (xs ys : List A) → (xs ++ ys) ≡ [] → (xs ≡ []) × (ys ≡ [])
  append-eq-nil [] ys h = (refl, h)
  append-eq-nil (x ∷ xs) ys h = cc

  pub nil-append-nil : (xs ys : List A) → xs ≡ [] → ys ≡ [] → (xs ++ ys) ≡ []
  nil-append-nil xs ys p q = cc

  pub to_list-eq-nil : (o : Option A) → to_list o ≡ [] → o ≡ none
  to_list-eq-nil none h = refl
  to_list-eq-nil (some a) h = cc
