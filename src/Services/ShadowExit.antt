-- ===== src/Services/ShadowExit.antt =====
-- app/services/shadow_exit_service.py: what is to be learned of an open shadow observation. `float`
-- of a value of the metadata is an argument, since it is Python's.
use trading_ai_alpha_agent.Prelude.{
  String, Bool, true, false, not, ◌&&◌, ◌||◌, List, [], ◌∷◌, Option, none, some, if◌then◌else◌,
}
use trading_ai_alpha_agent.Prelude.Int.{ℤ, pos, leb_ℤ}
use trading_ai_alpha_agent.Prelude.Text.{eqb}
use trading_ai_alpha_agent.Prelude.Result.{Error, Result, ok, err, ◌>>=◌}
use trading_ai_alpha_agent.Prelude.Float.{Float, ◌-◌, ◌<?◌, ◌≤?◌, of_ℕ, div, max}
use trading_ai_alpha_agent.Schemas.Json.{Json, Fields}
use trading_ai_alpha_agent.Intraday.Regime.{truthy}
use trading_ai_alpha_agent.Intraday.Exits.{first_of}
pub mod Answers
pub mod Total
pub mod Tests

-- `ShadowObservation`: the columns that the service reads. One that was never set is none.
pub record ShadowObservation (R : Type 0) : Type 0 where
  pub entry_price : Option R
  pub current_price : Option R
  pub hypothetical_quantity : Option ℤ
  pub hypothetical_notional_inr : Option R
  pub hypothetical_pnl_inr : Option R
  pub metadata_json : Option Json

-- The fields of `Settings` that the service reads.
pub record ExitSettings (R : Type 0) : Type 0 where
  pub intraday_exit_profit_lock_pct : R
  pub intraday_exit_loss_watch_pct : R
  pub intraday_profit_booking_enabled : Bool
  pub intraday_profit_booking_target_progress_pct : R
  pub intraday_profit_booking_min_pnl_inr : R
  pub intraday_profit_booking_min_pnl_pct : R

pub record ShadowExitDecision (R : Type 0) : Type 0 where
  pub action : String
  pub label : String
  pub urgency : String
  pub reason : String
  pub progress_to_target : Option R
  pub progress_to_stop : Option R
  pub reentry_plan : String
  pub shadow_only : Bool
  pub no_order_placement : Bool

-- `float(value)`, or the exception that it raises
abbrev pub ReadFloat : Type 0 → Type 0
ReadFloat R = Json → Result R

-- `except (TypeError, ValueError)`
abbrev pub is_unreadable : Error → Bool
is_unreadable Error.type_error = true
is_unreadable (Error.value_error message) = true
is_unreadable _ = false

-- `fields.get(key)`
abbrev pub get_field : String → Fields → Option Json
get_field key Fields.end = none
get_field key (Fields.field name value fields) =
    let rest = get_field key fields in if eqb name key then some value else rest

abbrev dict_or_empty : Option Json → Fields
dict_or_empty (some (Json.object fields)) = fields
dict_or_empty _ = Fields.end

-- `ShadowExitService._assessment`
abbrev pub assessment_of : {R : Type 0} → ShadowObservation R → Fields
assessment_of o = dict_or_empty (get_field "assessment" (dict_or_empty o.metadata_json))

abbrev default_plan : String
default_plan = "Wait for a fresh qualified setup before considering the same stock again."

module _ {R : Type 0} ⦃f : Float R⦄ where
  abbrev pub none_if_unreadable : Result R → Result (Option R)
  none_if_unreadable (ok x) = ok (some x)
  none_if_unreadable (err e) = if is_unreadable e then ok none else err e

  abbrev pub float_or_none : ReadFloat R → Option Json → Result (Option R)
  float_or_none reads none = ok none
  float_or_none reads (some Json.null) = ok none
  float_or_none reads (some (Json.text t)) =
      if eqb t "" then ok none else none_if_unreadable (reads (Json.text t))
  float_or_none reads (some value) = none_if_unreadable (reads value)

  abbrev pub safe_ratio : R → R → Result (Option R)
  safe_ratio x y = if y ≤? of_ℕ 0 then ok none else (div x y >>= λ ratio. ok (some ratio))

  -- `float(value or 0)`
  abbrev pub or_zero : Option R → R
  or_zero x = elim (truthy x) [ none ↦ of_ℕ 0 | some y ↦ y ]

  -- `int(value or 0)`
  abbrev pub quantity_of : ShadowObservation R → ℤ
  quantity_of o = elim o.hypothetical_quantity [ none ↦ pos 0 | some n ↦ n ]

  -- `progress is not None and progress >= least`
  abbrev reaches : Option R → R → Bool
  reaches none least = false
  reaches (some progress) least = least ≤? progress

  -- `ShadowExitService._profit_booking_triggered`
  unfoldable pub profit_booking_triggered : ExitSettings R → R → R → Option R → Bool
  profit_booking_triggered s pnl pnl_pct to_target =
      if not s.intraday_profit_booking_enabled
      then false
      else if pnl ≤? of_ℕ 0
      then false
      else (s.intraday_profit_booking_min_pnl_inr ≤? pnl
          || s.intraday_profit_booking_min_pnl_pct ≤? pnl_pct)
        && reaches to_target s.intraday_profit_booking_target_progress_pct

  -- `current_pnl / current_notional if current_notional > 0 else 0.0`
  abbrev pub pnl_pct_of : R → R → Result R
  pnl_pct_of pnl notional = if of_ℕ 0 <? notional then div pnl notional else ok (of_ℕ 0)

  -- `ShadowExitService._decision`
  abbrev explain :
      String → String → String → String → String → Option R → Option R → ShadowExitDecision R
  explain action label urgency reason plan to_target to_stop = record {
    action = action;
    label = label;
    urgency = urgency;
    reason = reason;
    progress_to_target = to_target;
    progress_to_stop = to_stop;
    reentry_plan = plan;
    shadow_only = true;
    no_order_placement = true;
  }

  abbrev pub missing_price : ShadowExitDecision R
  missing_price =
      explain "NO_EXIT_LEVELS" "Missing price" "WAIT"
        "Entry/current price is missing, so this row is not useful for exit learning." default_plan
        none none

  abbrev pub missing_size : ShadowExitDecision R
  missing_size =
      explain "NO_POSITION_SIZE" "No shadow size" "WAIT"
        "The shadow budget is too small for a whole-share test at this price."
        "Increase only the research budget if desired; never infer a live trade from a zero-size row."
        none none

  abbrev pub missing_levels : ShadowExitDecision R
  missing_levels =
      explain "NO_EXIT_LEVELS" "No trade" "WAIT"
        "Stop loss or profit target is missing, so the idea must stay non-tradable." default_plan
        none none

  module _ (s : ExitSettings R) (entry current : R) (to_target to_stop : Option R) where
    -- the answers on a position that no level and no booking of its profit closes
    abbrev pub watches : List (Bool × ShadowExitDecision R)
    watches =
        (
          reaches to_target s.intraday_exit_profit_lock_pct,
          explain "LOCK_PROFIT_OR_TRAIL" "Protect profit" "MEDIUM"
              "The idea has covered most of the path to target; the bot should learn whether a trailing exit works better."
              "If exited early, wait for a cleaner re-entry near support/VWAP with a new stop."
              to_target to_stop,
        )
        ∷ (
          reaches to_stop s.intraday_exit_loss_watch_pct,
          explain "WATCH_STOP_CLOSELY" "Near stop" "MEDIUM"
              "The idea is moving toward stop-loss; avoid adding size and learn if earlier exits reduce damage."
              "Only re-enter after the original weakness is invalidated by a new high-quality signal."
              to_target to_stop,
        )
        ∷ (
          entry <? current,
          explain "HOLD_WINNER" "Hold winner" "LOW"
              "The idea is positive but has not reached the profit-protection zone yet."
              "No re-entry needed while the shadow idea remains open and valid." to_target to_stop,
        )
        ∷ (
          current <? entry,
          explain "HOLD_WITH_STOP" "Small loss" "LOW" "The idea is down but still above stop-loss."
              "Do not average down. Wait for either stop, recovery, or a fresh setup." to_target
              to_stop,
        )
        ∷ []

    abbrev pub wait_for_move : ShadowExitDecision R
    wait_for_move =
        explain "WAIT_FOR_MOVE" "Flat" "LOW"
          "The idea has not moved enough to learn an exit outcome yet."
          "Keep observing until price approaches target, stop, or time exit." to_target to_stop

    abbrev pub watched : ShadowExitDecision R
    watched = elim (first_of watches) [ none ↦ wait_for_move | some d ↦ d ]

    abbrev pub at_levels : R → R → R → R → ShadowExitDecision R
    at_levels stop target pnl pnl_pct =
        if current ≤? stop
        then explain "EXIT_STOP_LOSS" "Cut loss" "HIGH"
            "Current price has touched or crossed the stop-loss level."
            "Do not average down. Reconsider only after a fresh signal with price reclaiming the setup and a new stop-loss."
            to_target to_stop
        else if target ≤? current
        then explain "EXIT_TAKE_PROFIT" "Take profit" "HIGH"
            "Current price has touched or crossed the profit target."
            "After profit-taking, wait for a fresh pullback/reclaim setup. Do not chase the same stock at a worse reward/risk."
            to_target to_stop
        else if profit_booking_triggered s pnl pnl_pct to_target
        then explain "EXIT_PROFIT_BOOKING" "Book profit" "HIGH"
            "The idea has reached the configured profit-booking zone before target. For shadow learning, record an exit instead of letting a good gain fade."
            "After booking profit, wait for a fresh pullback/reclaim setup. Do not immediately chase the same stock at a worse price."
            to_target to_stop
        else watched

  -- the progress of the price, and the answer
  abbrev pub weigh_levels :
      ExitSettings R → ShadowObservation R → R → R → Result (ShadowExitDecision R)
  weigh_levels s o stop target =
      let entry = or_zero o.entry_price in
      let current = or_zero o.current_price in
      let pnl = or_zero o.hypothetical_pnl_inr in
      do
        to_target ← safe_ratio (current - entry) (max (target - entry) (of_ℕ 0))
        to_stop ← safe_ratio (entry - current) (max (entry - stop) (of_ℕ 0))
        pnl_pct ← pnl_pct_of pnl (or_zero o.hypothetical_notional_inr)
        ok (at_levels s entry current to_target to_stop stop target pnl pnl_pct)

  abbrev pub with_levels :
      ExitSettings R → ShadowObservation R → Option R → Option R → Result (ShadowExitDecision R)
  with_levels s o (some stop) (some target) =
      if stop ≤? of_ℕ 0 || target ≤? of_ℕ 0 then ok missing_levels else weigh_levels s o stop target
  with_levels s o (some stop) none = ok missing_levels
  with_levels s o none target = ok missing_levels

  abbrev pub with_price :
      ExitSettings R → ShadowObservation R → Option R → Option R → Result (ShadowExitDecision R)
  with_price s o stop target =
      if or_zero o.entry_price ≤? of_ℕ 0 || or_zero o.current_price ≤? of_ℕ 0
      then ok missing_price
      else if leb_ℤ (quantity_of o) (pos 0)
      then ok missing_size
      else with_levels s o stop target

  unfoldable pub evaluate_observation :
      ReadFloat R → ExitSettings R → ShadowObservation R → Result (ShadowExitDecision R)
  evaluate_observation reads s o = do
    stop ← float_or_none reads (get_field "stop_loss" (assessment_of o))
    target ← float_or_none reads (get_field "take_profit" (assessment_of o))
    with_price s o stop target
