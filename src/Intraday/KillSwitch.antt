-- ===== src/Intraday/KillSwitch.antt =====
-- app/intraday/kill_switch.py: the switch that stops the shadow pipeline until it is reset.
use trading_ai_alpha_agent.Prelude.{
  String, Bool, true, false, not, List, [], ◌∷◌, ◌++◌, Option, none, some, raised,
}
use trading_ai_alpha_agent.Prelude.Int.{ℤ, pos, leb_ℤ, ltb_ℤ}
use trading_ai_alpha_agent.Prelude.Dedupe.{from_keys}
use trading_ai_alpha_agent.Prelude.Float.{Float, ◌<?◌, ◌≤?◌, of_ℕ}
use trading_ai_alpha_agent.Intraday.Config.{IntradayShadowConfig}
use trading_ai_alpha_agent.Intraday.Models.{DataQualityReport}
use trading_ai_alpha_agent.Intraday.Quality.{none_of}
use trading_ai_alpha_agent.Intraday.Universe.{quality_reasons_of}
use trading_ai_alpha_agent.Intraday.RiskManager.{ShadowRiskState, loss_floor}

pub record ShadowKillSwitchState : Type 0 where
  pub triggered : Bool
  pub reasons : List String
  pub manual_reset_required : Bool

-- `ShadowKillSwitchState()`, and the state after `reset`
abbrev pub reset_switch : ShadowKillSwitchState
reset_switch = record { triggered = false; reasons = []; manual_reset_required = true }

-- the arguments of `evaluate`
pub record SwitchInputs (R : Type 0) : Type 0 where
  pub risk_state : ShadowRiskState R
  pub data_quality : Option (DataQualityReport R)
  pub rejected_signal_count : ℤ
  pub api_latency_ms : Option R

abbrev pub reported : {R : Type 0} → Option (DataQualityReport R) → List String
reported none = []
reported (some q) = quality_reasons_of q

module _ {R : Type 0} ⦃f : Float R⦄ where
  abbrev too_slow : Option R → Bool
  too_slow none = false
  too_slow (some latency) = of_ℕ 2_000 <? latency

  abbrev pub loss_checks : IntradayShadowConfig R → ShadowRiskState R → List (Bool × String)
  loss_checks config state =
      (
        state.daily_realized_pnl ≤? loss_floor config config.max_daily_loss_percent,
        "daily_loss_limit_hit",
      )
      ∷ (
        state.weekly_realized_pnl ≤? loss_floor config config.max_weekly_loss_percent,
        "weekly_loss_limit_hit",
      )
      ∷ (
        leb_ℤ (pos config.max_consecutive_losses) state.consecutive_losses,
        "max_consecutive_losses_hit",
      )
      ∷ []

  -- what `evaluate` adds to the reasons that it has
  unfoldable pub new_reasons : IntradayShadowConfig R → SwitchInputs R → List String
  new_reasons config i =
      raised (loss_checks config i.risk_state)
      ++ (reported i.data_quality
          ++ raised (
              (ltb_ℤ (pos 50) i.rejected_signal_count, "too_many_rejected_signals")
              ∷ (too_slow i.api_latency_ms, "api_latency_too_high")
              ∷ []))

  -- `KillSwitchManager.evaluate`: the new state, which is also what it returns
  unfoldable pub evaluate_switch :
      IntradayShadowConfig R → SwitchInputs R → ShadowKillSwitchState → ShadowKillSwitchState
  unfolding new_reasons from_keys
  evaluate_switch config i state =
      let deduped = from_keys [] (state.reasons ++ new_reasons config i) in
      record { triggered = not (none_of deduped); reasons = deduped; manual_reset_required = true }
