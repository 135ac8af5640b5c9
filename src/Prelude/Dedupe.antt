-- ===== src/Prelude/Dedupe.antt =====
-- `list(dict.fromkeys(reasons))`: no duplicates, the same members, and empty only if nothing came.
use text.Mathlib.TextEquality.{eq_iff}
use Prim.Native.String.{String}
use mathlib.Core.Path.{◌≡◌, refl}
use mathlib.Core.Logic.{◌≢◌, inl, inr}
use mathlib.Core.Bool.{true, false, ◌||◌}
use mathlib.Core.List.{List, [], ◌∷◌, ◌++◌}
use native.Mathlib.Omega.{arith}
use trading_ai_alpha_agent.Prelude.Tests.{if◌then◌else◌, Bool-cases}
use trading_ai_alpha_agent.Prelude.Text.{eqb, contains}

-- `dict.fromkeys(reasons)`: each key at its first place, after the keys `seen` so far
unfoldable pub from_keys : List String → List String → List String
from_keys seen [] = seen
from_keys seen (x ∷ xs) = from_keys (if contains x seen then seen else seen ++ (x ∷ [])) xs

-- No text stands twice.
abbrev pub IsDistinct : List String → Type 0
IsDistinct [] = Unit
IsDistinct (x ∷ xs) = (contains x xs ≡ false) × IsDistinct xs

pub contains-append :
    (k : String) (xs ys : List String) → contains k (xs ++ ys) ≡ (contains k xs || contains k ys)
contains-append k [] ys = refl
contains-append k (x ∷ xs) ys = ground (arith, contains-append k xs ys)

eqb_comm : (s t : String) → eqb s t ≡ eqb t s
eqb_comm s t = ground (arith, eq_iff s t, eq_iff t s)

IsDistinct-append_one :
    (xs : List String) (x : String)
    → contains x xs ≡ false
    → IsDistinct xs
    → IsDistinct (xs ++ (x ∷ []))
IsDistinct-append_one [] x h d = (refl, tt)
IsDistinct-append_one (y ∷ ys) x h d =
    ground (arith, contains-append y ys (x ∷ []), IsDistinct-append_one ys x, eqb_comm x y)

pub from_keys-IsDistinct :
    (seen xs : List String) → IsDistinct seen → IsDistinct (from_keys seen xs)
unfolding from_keys
from_keys-IsDistinct seen [] d = d
from_keys-IsDistinct seen (x ∷ xs) d = elim (Bool-cases (contains x seen)) [
  | inl old ↦ rw old (from_keys-IsDistinct seen xs d)
  | inr new ↦
      rw new (from_keys-IsDistinct (seen ++ (x ∷ [])) xs (IsDistinct-append_one seen x new d))
]

-- A text is among the keys exactly when it was seen or comes.
pub contains-from_keys :
    (k : String) (seen xs : List String)
    → contains k (from_keys seen xs) ≡ (contains k seen || contains k xs)
unfolding from_keys
contains-from_keys k seen [] = ground arith
contains-from_keys k seen (x ∷ xs) = elim (Bool-cases (contains x seen)) [
  | inl old ↦ rw old (ground (arith, contains-from_keys k seen xs, eq_iff x k, old))
  | inr new ↦
      rw new (
        ground (arith, contains-from_keys k (seen ++ (x ∷ [])) xs, contains-append k seen (x ∷ [])))
]

from_keys_keeps : (x : String) (seen xs : List String) → from_keys (x ∷ seen) xs ≢ []
unfolding from_keys
from_keys_keeps x seen [] = ground arith
from_keys_keeps x seen (y ∷ xs) = elim (Bool-cases (contains y (x ∷ seen))) [
  | inl old ↦ rw old (from_keys_keeps x seen xs)
  | inr new ↦ rw new (from_keys_keeps x (seen ++ (y ∷ [])) xs)
]

pub from_keys-eq-nil : (xs : List String) → from_keys [] xs ≡ [] → xs ≡ []
unfolding from_keys
from_keys-eq-nil [] h = refl
from_keys-eq-nil (x ∷ xs) h = absurd (from_keys_keeps x [] xs h)

pub contains_left :
    (k : String) (xs ys : List String) → contains k xs ≡ true → contains k (xs ++ ys) ≡ true
contains_left k xs ys h = ground (arith, contains-append k xs ys)
