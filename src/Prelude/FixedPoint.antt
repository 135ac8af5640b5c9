-- ===== src/Prelude/FixedPoint.antt =====
-- A concrete `Float` for tests and witnesses: an integer x stands for x / 10^6.
use Prim.Native.Nat.{ℕ, ◌-◌, ◌/◌, ◌^◌}
use mathlib.Core.Option.{some}
use trading_ai_alpha_agent.Prelude.Int.{
  ℤ, pos, negsuc, ◌+ℤ◌, ◌-ℤ◌, ◌*ℤ◌, ltb_ℤ, leb_ℤ, eqb_ℤ, floor_div,
}
use trading_ai_alpha_agent.Prelude.Float.{Float}

abbrev pub Micros : Type 0
Micros = ℤ

abbrev scale : ℤ
scale = pos 1_000_000

abbrev pub quotient : ℤ → ℤ → ℤ
quotient a (pos b) = floor_div (a *ℤ scale) b
quotient a (negsuc b) = floor_div (pos 0 -ℤ a *ℤ scale) (Prim.Native.Nat.suc b)

abbrev floor_ratio : ℤ → ℤ → ℤ
floor_ratio a (pos b) = floor_div a b
floor_ratio a (negsuc b) = floor_div (pos 0 -ℤ a) (Prim.Native.Nat.suc b)

abbrev truncate : ℤ → ℤ
truncate (pos n) = pos (n / 1_000_000)
truncate (negsuc n) = pos 0 -ℤ pos (Prim.Native.Nat.suc n / 1_000_000)

-- halves go up
abbrev round : ℤ → ℕ → ℤ
round a digits = let unit = 10 ^ (6 - digits) in floor_div (a +ℤ pos (unit / 2)) unit *ℤ pos unit

instance abbrev pub fixed_point : Float Micros
fixed_point = record {
  of_ℤ = λ n. n *ℤ scale;
  decimal = λ m k. floor_div (m *ℤ scale) (10 ^ k);
  add = ◌+ℤ◌;
  sub = ◌-ℤ◌;
  mul = λ a b. floor_div (a *ℤ b) 1_000_000;
  quotient = quotient;
  negate = λ a. pos 0 -ℤ a;
  less = ltb_ℤ;
  less_eq = leb_ℤ;
  equal = eqb_ℤ;
  truncate = λ a. some (truncate a);
  floor_quotient = λ a b. some (floor_ratio a b);
  round = round;
  floor = λ a. some (floor_div a 1_000_000);
}
