-- ===== src/Prelude/Float.antt =====
-- Python's `float`: its operations are a parameter of the model, since they are not code of the
-- repository. `floor` is `math.floor`, `truncate` is `int` and `floor_quotient` the integer
-- of `x // y`, which raise at an infinity or a NaN (`none`).
use Prim.Native.Nat.{ℕ}
use mathlib.Core.Bool.{Bool}
use mathlib.Core.Option.{Option, none, some}
use trading_ai_alpha_agent.Prelude.Tests.{if◌then◌else◌}
use trading_ai_alpha_agent.Prelude.Int.{ℤ, pos}
use trading_ai_alpha_agent.Prelude.Result.{Result, ok, err, zero_division_error, not_finite_error}

-- `decimal m k` is the literal m / 10^k.
pub record Float (R : Type 0) : Type 0 where
  pub of_ℤ : ℤ → R
  pub decimal : ℤ → ℕ → R
  pub add : R → R → R
  pub sub : R → R → R
  pub mul : R → R → R
  pub quotient : R → R → R
  pub negate : R → R
  pub less : R → R → Bool
  pub less_eq : R → R → Bool
  pub equal : R → R → Bool
  pub floor : R → Option ℤ
  pub truncate : R → Option ℤ
  pub floor_quotient : R → R → Option ℤ
  pub round : R → ℕ → R

infixl 65 ◌+◌ ◌-◌
infixl 70 ◌*◌
infix 50 ◌<?◌ ◌≤?◌ ◌=?◌
module _ {R : Type 0} ⦃f : Float R⦄ where
  abbrev pub ◌+◌ : R → R → R
  ◌+◌ = f.add

  abbrev pub ◌-◌ : R → R → R
  ◌-◌ = f.sub

  abbrev pub ◌*◌ : R → R → R
  ◌*◌ = f.mul

  abbrev pub negate : R → R
  negate = f.negate

  abbrev pub ◌<?◌ : R → R → Bool
  ◌<?◌ = f.less

  abbrev pub ◌≤?◌ : R → R → Bool
  ◌≤?◌ = f.less_eq

  abbrev pub ◌=?◌ : R → R → Bool
  ◌=?◌ = f.equal

  abbrev pub of_ℤ : ℤ → R
  of_ℤ = f.of_ℤ

  abbrev pub of_ℕ : ℕ → R
  of_ℕ n = f.of_ℤ (pos n)

  abbrev pub decimal : ℤ → ℕ → R
  decimal = f.decimal

  -- `x / y` raises at a zero `y`.
  abbrev pub div : R → R → Result R
  div x y = if f.equal y (f.of_ℤ (pos 0)) then err zero_division_error else ok (f.quotient x y)

  abbrev pub floor : R → Result ℤ
  floor x = elim (f.floor x) [ none ↦ err not_finite_error | some n ↦ ok n ]

  -- `int(x)`
  abbrev pub truncate : R → Result ℤ
  truncate x = elim (f.truncate x) [ none ↦ err not_finite_error | some n ↦ ok n ]

  -- `int(x // y)`, for a `y` that is not zero
  abbrev pub floor_quotient : R → R → Result ℤ
  floor_quotient x y = elim (f.floor_quotient x y) [ none ↦ err not_finite_error | some n ↦ ok n ]

  -- `round(x, digits)`
  abbrev pub round : R → ℕ → R
  round = f.round

  -- Python's `min`, `max` and `abs`.
  abbrev pub min : R → R → R
  min x y = if f.less y x then y else x

  abbrev pub max : R → R → R
  max x y = if f.less x y then y else x

  abbrev pub abs : R → R
  abs x = if f.less x (f.of_ℤ (pos 0)) then f.negate x else x
