-- ===== src/Prelude/Result.antt =====
-- Python's exceptions as values: the classes that the modelled code raises, with their messages.
use Prim.Native.String.{String}
use mathlib.Core.Path.{◌≡◌, refl}
use mathlib.Core.Logic.{◌⊎◌, inl, inr}
use mathlib.Core.Bool.{Bool, true, false}

-- `not_finite_error` stands for what `math.floor` raises at an infinity or a NaN, and
-- `type_error` for arithmetic on `None`.
pub data Error : Type 0 where
  zero_division_error not_finite_error type_error : Error
  value_error : String → Error
  fail_closed_error : String → Error
  risk_rejected_error : String → Error
  order_idempotency_error : String → Error
  -- an exception of a class that the repository does not define
  foreign_error : String → String → Error

-- What a call comes to: the value that it returns, or the exception that it raises.
pub data Result {κ} (V : Type κ) : Type κ where
  err : Error → Result V
  ok : V → Result V

infixl 5 ◌>>=◌
abbrev pub ◌>>=◌ {κ ι} : {V : Type κ} {W : Type ι} → Result V → (V → Result W) → Result W
err raised >>= next = err raised
ok value >>= next = next value

-- `if test: raise error`
abbrev pub raise_if : Bool → Error → Result (Unit {0})
raise_if true e = err e
raise_if false e = ok tt

-- the statements after a call whose value is not used
infixl 5 ◌>>◌
abbrev pub ◌>>◌ {κ} : {W : Type κ} → Result (Unit {0}) → Result W → Result W
call >> next = call >>= λ done. next

-- A chain that returns went through its first call.
pub >>=-eq-ok {κ ι} :
    {V : Type κ} {W : Type ι} (first : Result V) (next : V → Result W) {w : W}
    → (first >>= next) ≡ ok w
    → (v : V) × (first ≡ ok v) × (next v ≡ ok w)
>>=-eq-ok (err raised) next h = cc
>>=-eq-ok (ok v) next h = (v, refl, h)

pub Result-cases {ℓ} :
    {A : Type ℓ} (r : Result A) → ((a : A) × (r ≡ ok a)) ⊎ ((e : Error) × (r ≡ err e))
Result-cases (ok a) = inl (a, refl)
Result-cases (err e) = inr (e, refl)

pub ok-injective {ℓ} : {A : Type ℓ} {a b : A} → ◌≡◌ {A = Result A} (ok a) (ok b) → a ≡ b
ok-injective h = cc
