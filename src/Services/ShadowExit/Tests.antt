-- ===== src/Services/ShadowExit/Tests.antt =====
-- Instances of the theorem on the exits of the shadow observations.
use trading_ai_alpha_agent.Prelude.{String, true, false, some, ◌≡◌, refl, if◌then◌else◌, arith}
use trading_ai_alpha_agent.Prelude.Int.{pos, ◌*ℤ◌, ◌-ℤ◌}
use trading_ai_alpha_agent.Prelude.Text.{eqb}
use trading_ai_alpha_agent.Prelude.Result.{Error, Result, ok, err}
use trading_ai_alpha_agent.Prelude.FixedPoint.{Micros, fixed_point}
use trading_ai_alpha_agent.Risk.Engine.Tests.Data.{rupees, micros}
use trading_ai_alpha_agent.Schemas.Json.{Json, Fields}
use trading_ai_alpha_agent.Services.ShadowExit.{
  ShadowObservation, ExitSettings, ShadowExitDecision, ReadFloat, evaluate_observation,
  profit_booking_triggered,
}
use trading_ai_alpha_agent.Services.ShadowExit.Total.{
  IsComparison, IsRun, evaluate_observation-IsRun,
}

-- two numbers that `float` reads
abbrev reads : ReadFloat Micros
reads (Json.number n) =
    if eqb n "95"
    then ok (rupees 95)
    else if eqb n "110"
    then ok (rupees 110)
    else err (Error.value_error n)
reads _ = err Error.type_error

abbrev exit_settings : ExitSettings Micros
exit_settings = record {
  intraday_exit_profit_lock_pct = micros 700_000;
  intraday_exit_loss_watch_pct = micros 500_000;
  intraday_profit_booking_enabled = true;
  intraday_profit_booking_target_progress_pct = micros 450_000;
  intraday_profit_booking_min_pnl_inr = rupees 250;
  intraday_profit_booking_min_pnl_pct = micros 3_000;
}

-- a hundred shares bought at 100, with a stop at 95 and a target at 110, and the price at 106
abbrev observation : ShadowObservation Micros
observation = record {
  entry_price = some (rupees 100);
  current_price = some (rupees 106);
  hypothetical_quantity = some (pos 100);
  hypothetical_notional_inr = some (rupees 10_600);
  hypothetical_pnl_inr = some (rupees 600);
  metadata_json = some (
      Json.object (
        Fields.field "assessment"
          (Json.object (
            Fields.field "stop_loss" (Json.number "95")
              (Fields.field "take_profit" (Json.number "110") Fields.end)))
          Fields.end));
}

abbrev action_of : Result (ShadowExitDecision Micros) → String
action_of (ok d) = d.action
action_of (err e) = ""

books_profit :
    action_of (evaluate_observation reads exit_settings observation) ≡ "EXIT_PROFIT_BOOKING"
unfolding evaluate_observation profit_booking_triggered ◌*ℤ◌ ◌-ℤ◌
books_profit = refl

fixed_point-IsComparison : IsComparison fixed_point
fixed_point-IsComparison = record {
  le_of_eq = λ x y h. eq_le x y h;
  ne_of_lt = λ x y h. lt_ne x y h;
}
  where
    eq_le : (x y : Micros) → fixed_point.equal x y ≡ true → fixed_point.less_eq x y ≡ true
    eq_le x y h = ground arith

    lt_ne : (x y : Micros) → fixed_point.less x y ≡ true → fixed_point.equal y x ≡ false
    lt_ne x y h = ground arith

evaluate_observation-IsRun_example :
    IsRun fixed_point-IsComparison reads exit_settings observation
      (evaluate_observation reads exit_settings observation)
evaluate_observation-IsRun_example =
    evaluate_observation-IsRun fixed_point-IsComparison reads exit_settings observation

-- a stop loss out of the range of a float
abbrev overflowing : ReadFloat Micros
overflowing _ = err (Error.foreign_error "OverflowError" "int too large to convert to float")

overflow_escapes :
    evaluate_observation overflowing exit_settings observation
    ≡ err (Error.foreign_error "OverflowError" "int too large to convert to float")
unfolding evaluate_observation
overflow_escapes = refl
