-- ===== src/Agentic/Agents/Trade.antt =====
-- `SignalCriticAgent`, `RiskAuditorAgent` and `ExecutionSimulationAgent`: reviews of a signal, of its
-- approval and of its order.
use trading_ai_alpha_agent.Prelude.{
  String, Bool, true, false, ◌&&◌, ◌||◌, List, [], ◌∷◌, ◌++◌, Option, none, some, raised,
  if◌then◌else◌,
}
use trading_ai_alpha_agent.Prelude.Int.{ℤ, pos, leb_ℤ}
use trading_ai_alpha_agent.Prelude.Text.{eqb}
use trading_ai_alpha_agent.Prelude.Result.{Result, ok, ◌>>=◌}
use trading_ai_alpha_agent.Prelude.Float.{
  Float, ◌-◌, ◌*◌, ◌<?◌, ◌≤?◌, ◌=?◌, of_ℕ, decimal, div, abs,
}
use trading_ai_alpha_agent.Intraday.Quality.{none_of}
use trading_ai_alpha_agent.Intraday.Regime.{truthy}
use trading_ai_alpha_agent.Intraday.Scoring.{holds_text}
use trading_ai_alpha_agent.Agentic.Models.{
  AgentSeverity, is_high, max_severity, AgentVerdict, AgentRecommendation, AgentOutput,
}
use trading_ai_alpha_agent.Agentic.Agents.Context.{reasons_or}

-- the fields of `SignalCriticInput` that the agent reads; `last_close` as `_float` reads it
pub record SignalCriticInput (R : Type 0) : Type 0 where
  pub signal_id : String
  pub direction : String
  pub market_regime : String
  pub entry_price : R
  pub stop_loss : R
  pub risk_reward_ratio : R
  pub last_close : Option R
  pub trades_taken_today : ℤ

pub record SignalCritique (R : Type 0) : Type 0 where
  pub signal_id : String
  pub risk_multiplier_suggestion : R

-- the fields of `RiskAuditorInput` that the agent reads
pub record RiskAuditorInput (R : Type 0) : Type 0 where
  pub capital : R
  pub quantity : ℤ
  pub stop_distance : R
  pub risk_amount : R
  pub risk_reward_ratio : R
  pub max_trades_per_day : ℤ
  pub trades_taken_today : ℤ

pub record RiskAudit : Type 0 where
  pub risk_violations : List String

-- the fields of `ExecutionSimulationInput` that the agent reads
pub record ExecutionReviewInput (R : Type 0) : Type 0 where
  pub expected_entry : R
  pub simulated_fill : Option R
  pub fill_status : String

pub record ExecutionReview (R : Type 0) : Type 0 where
  pub execution_quality_score : R

abbrev pub critic_severity : List String → List String → AgentSeverity
critic_severity grave minor =
    let first = if none_of grave then AgentSeverity.low else AgentSeverity.high in
    if none_of minor then first else max_severity first AgentSeverity.medium

abbrev critic_verdict : AgentSeverity → AgentVerdict
critic_verdict AgentSeverity.high = AgentVerdict.reject
critic_verdict AgentSeverity.medium = AgentVerdict.warn
critic_verdict AgentSeverity.low = AgentVerdict.approve

abbrev critic_action : AgentSeverity → AgentRecommendation
critic_action AgentSeverity.high = AgentRecommendation.block
critic_action AgentSeverity.medium = AgentRecommendation.reduce_confidence
critic_action AgentSeverity.low = AgentRecommendation.allow

abbrev execution_action : Bool → Bool → AgentRecommendation
execution_action missed true = AgentRecommendation.increase_slippage_model
execution_action true false = AgentRecommendation.mark_missed
execution_action false false = AgentRecommendation.allow

module _ {R : Type 0} ⦃f : Float R⦄ where
  -- the findings of the critic that are of high severity
  abbrev pub grave_checks : SignalCriticInput R → List (Bool × String)
  grave_checks i =
      (i.risk_reward_ratio <? decimal (pos 15) 1, "risk_reward_too_low")
      ∷ ((i.stop_loss ≤? of_ℕ 0) || (i.stop_loss =? i.entry_price), "invalid_stop_loss")
      ∷ (
        eqb i.direction "LONG" && holds_text "BEARISH" i.market_regime,
        "long_signal_against_bearish_regime",
      )
      ∷ (
        eqb i.direction "SHORT" && holds_text "BULLISH" i.market_regime,
        "short_signal_against_bullish_regime",
      )
      ∷ []

  -- `last_close and abs(entry - last_close) / entry > 0.01`
  abbrev pub far_from : R → Option R → Result Bool
  far_from entry none = ok false
  far_from entry (some close) = do
    distance ← div (abs (entry - close)) entry
    ok (decimal (pos 1) 2 <? distance)

  abbrev pub critic_output :
      SignalCriticInput R → List String → List String → AgentOutput R (SignalCritique R)
  critic_output i grave minor =
      let severity = critic_severity grave minor in
      let reasons = grave ++ minor in
      record {
        agent_name = "SignalCriticAgent";
        verdict = critic_verdict severity;
        severity = severity;
        confidence = if none_of reasons then decimal (pos 72) 2 else decimal (pos 82) 2;
        reason_codes = reasons_or "signal_context_acceptable" reasons;
        recommended_action = critic_action severity;
        details = record {
          signal_id = i.signal_id;
          risk_multiplier_suggestion = if is_high severity then of_ℕ 0 else of_ℕ 1;
        };
      }

  -- `SignalCriticAgent._deterministic_review`
  unfoldable pub critique_signal : SignalCriticInput R → Result (AgentOutput R (SignalCritique R))
  unfolding holds_text max_severity is_high
  critique_signal i = do
    far ← far_from i.entry_price (truthy i.last_close)
    ok (
        critic_output i (raised (grave_checks i)) (
          raised (
            (far, "entry_far_from_latest_candle_close")
            ∷ (leb_ℤ (pos 3) i.trades_taken_today, "trade_count_near_daily_limit")
            ∷ [])))

  abbrev pub audit_checks : RiskAuditorInput R → List (Bool × String)
  audit_checks i =
      (leb_ℤ i.quantity (pos 0), "quantity_not_positive")
      ∷ (i.stop_distance ≤? of_ℕ 0, "stop_distance_invalid")
      ∷ (i.risk_reward_ratio <? decimal (pos 15) 1, "risk_reward_below_policy")
      ∷ (leb_ℤ i.max_trades_per_day i.trades_taken_today, "daily_trade_limit_reached")
      ∷ (i.capital * decimal (pos 5) 3 <? i.risk_amount, "risk_amount_above_hard_shadow_cap")
      ∷ []

  abbrev pub audit_output : List String → AgentOutput R RiskAudit
  audit_output violations =
      let clear = none_of violations in
      record {
        agent_name = "RiskAuditorAgent";
        verdict = if clear then AgentVerdict.approve else AgentVerdict.reject;
        severity = if clear then AgentSeverity.low else AgentSeverity.high;
        confidence = decimal (pos 9) 1;
        reason_codes = reasons_or "risk_manager_output_acceptable" violations;
        recommended_action = if clear then AgentRecommendation.allow else AgentRecommendation.block;
        details = record { risk_violations = violations };
      }

  -- `RiskAuditorAgent._deterministic_review`
  unfoldable pub audit_risk : RiskAuditorInput R → AgentOutput R RiskAudit
  audit_risk i = audit_output (raised (audit_checks i))

  abbrev slipped : R → Option R → Bool
  slipped expected none = false
  slipped expected (some fill) =
      (of_ℕ 0 <? expected) && (decimal (pos 25) 4 <? f.quotient (abs (fill - expected)) expected)

  abbrev execution_output : Bool → Bool → AgentOutput R (ExecutionReview R)
  execution_output missed slipped_far =
      let reasons =
        raised ((missed, "missed_entry") ∷ (slipped_far, "high_simulated_slippage") ∷ []) in
      let fair = none_of reasons in
      record {
        agent_name = "ExecutionSimulationAgent";
        verdict = if fair then AgentVerdict.approve else AgentVerdict.warn;
        severity = if fair then AgentSeverity.low else AgentSeverity.medium;
        confidence = decimal (pos 75) 2;
        reason_codes = reasons_or "execution_simulation_reasonable" reasons;
        recommended_action = execution_action missed slipped_far;
        details = record { execution_quality_score = if fair then of_ℕ 1 else decimal (pos 7) 1 };
      }

  -- `ExecutionSimulationAgent._deterministic_review`
  unfoldable pub review_fill : ExecutionReviewInput R → AgentOutput R (ExecutionReview R)
  review_fill i =
      execution_output (eqb i.fill_status "MISSED") (slipped i.expected_entry i.simulated_fill)
