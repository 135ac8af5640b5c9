-- ===== src/Agentic/Orchestrator/Reviews.antt =====
-- The reviews of `AgenticOrchestrator`, but for the review of a day's report. Each takes the time, in
-- milliseconds, that its agent takes.
use trading_ai_alpha_agent.Prelude.{
  String, true, List, [], ◌∷◌, ◌++◌, Option, none, some, if◌then◌else◌,
}
use trading_ai_alpha_agent.Prelude.Int.{pos}
use trading_ai_alpha_agent.Prelude.Text.{eqb}
use trading_ai_alpha_agent.Prelude.Result.{ok}
use trading_ai_alpha_agent.Prelude.Float.{Float, ◌-◌, decimal, min, abs}
use trading_ai_alpha_agent.Core.Config.{Settings}
use trading_ai_alpha_agent.Schemas.Json.{Json, Fields}
use trading_ai_alpha_agent.Intraday.Config.{IntradayShadowConfig}
use trading_ai_alpha_agent.Intraday.Models.{
  direction_value, regime_value, fill_value, Candle, MarketDataSnapshot, ScoredSignal, RiskApproval,
  ShadowOrder,
}
use trading_ai_alpha_agent.Intraday.Regime.{RegimeResult}
use trading_ai_alpha_agent.Intraday.RiskManager.{ShadowRiskState}
use trading_ai_alpha_agent.Intraday.Reviewer.{Reviewer}
use trading_ai_alpha_agent.Agentic.Config.{AgenticConfig}
use trading_ai_alpha_agent.Agentic.Models.{is_mark_missed, AgenticReviewResult, granted, judged}
use trading_ai_alpha_agent.Agentic.Review.{Library, no_subject, given, Reviewed, review}
use trading_ai_alpha_agent.Agentic.Agents.Context.{RegimeReview, review_of_regime}
use trading_ai_alpha_agent.Agentic.Agents.Trade.{
  SignalCriticInput, RiskAuditorInput, SignalCritique, RiskAudit, ExecutionReview, critique_signal,
  audit_risk, review_fill,
}
use trading_ai_alpha_agent.Agentic.Agents.Research.{validate_backtest}
use trading_ai_alpha_agent.Agentic.Orchestrator.Outcome.{result_from_record}

-- `to_float` is Python's `float` of a value, or `None` where it raises.
pub record AgenticOrchestrator (R : Type 0) : Type 1 where
  pub settings : Settings R
  pub config : AgenticConfig
  pub library : Library R
  pub to_float : Json → Option R

-- `fields.get(name)`
abbrev get_field : String → Fields → Option Json
get_field name Fields.end = none
get_field name (Fields.field key value rest) =
    let found = get_field name rest in if eqb key name then some value else found

abbrev read_field : {R : Type 0} → (Json → Option R) → String → Fields → Option R
read_field to_float name fields = elim (get_field name fields) [
  | none ↦ none
  | some value ↦ to_float value
]

-- the last price and the average of `snapshot.raw or {...}`
abbrev prices_seen :
    {R : Type 0} → (Json → Option R) → MarketDataSnapshot R → Fields → Option R × Option R
prices_seen to_float s Fields.end = (some s.last_price, s.vwap)
prices_seen to_float s (Fields.field key value rest) =
    let raw = Fields.field key value rest in
    (read_field to_float "last_price" raw, read_field to_float "vwap" raw)

abbrev close_of : {R : Type 0} → Option (Candle R) → Option R
close_of none = none
close_of (some candle) = some candle.close

module _ {R : Type 0} ⦃f : Float R⦄ where
  abbrev pub less_confident : AgenticReviewResult R → AgenticReviewResult R
  less_confident result = record result {
    confidence_multiplier = min result.confidence_multiplier (decimal (pos 8) 1);
  }

  abbrev pub warned : List String → AgenticReviewResult R → AgenticReviewResult R
  warned more result = record result { warnings = result.warnings ++ more }

  abbrev pub of_regime_review : Reviewed R RegimeReview → AgenticReviewResult R
  of_regime_review (none, r) = result_from_record r
  of_regime_review (some o, r) =
      let result = result_from_record r in
      if o.details.agrees_with_regime then result else less_confident result

  abbrev pub of_critique : Reviewed R (SignalCritique R) → AgenticReviewResult R
  of_critique (none, r) = result_from_record r
  of_critique (some o, r) =
      let result = result_from_record r in
      record result {
        risk_multiplier = min result.risk_multiplier o.details.risk_multiplier_suggestion;
      }

  abbrev pub of_audit : Reviewed R RiskAudit → AgenticReviewResult R
  of_audit (none, r) = result_from_record r
  of_audit (some o, r) = warned o.details.risk_violations (result_from_record r)

  abbrev pub of_execution_review : Reviewed R (ExecutionReview R) → AgenticReviewResult R
  of_execution_review (none, r) = result_from_record r
  of_execution_review (some o, r) =
      let result = result_from_record r in
      if is_mark_missed o.recommended_action
      then warned ("execution_agent_marked_missed_entry" ∷ []) result
      else result

  -- `if not self.config.enabled: return AgenticReviewResult()`
  abbrev pub if_enabled : AgenticConfig → AgenticReviewResult R → AgenticReviewResult R
  if_enabled config result = if config.enabled then result else granted [] []

  -- `AgenticOrchestrator.review_regime`
  unfoldable pub review_regime :
      AgenticOrchestrator R → R → MarketDataSnapshot R → RegimeResult R → AgenticReviewResult R
  unfolding regime_value review_of_regime review result_from_record
  review_regime o elapsed s regime =
      let (price, vwap) = prices_seen o.to_float s s.raw in
      if_enabled o.config (
        of_regime_review (
          review o.library o.config "RegimeReviewAgent" no_subject elapsed (
            ok (
              review_of_regime (record {
                deterministic_regime = regime_value regime.regime;
                last_price = price;
                vwap = vwap;
              })))))

  -- the input of the critic
  unfoldable pub critic_input : ScoredSignal R → ShadowRiskState R → SignalCriticInput R
  unfolding direction_value regime_value
  critic_input scored state =
      let s = scored.signal in
      record {
        signal_id = s.signal_id;
        direction = direction_value s.direction;
        market_regime = regime_value s.regime_at_signal;
        entry_price = s.entry_price;
        stop_loss = s.stop_loss;
        risk_reward_ratio = s.risk_reward_ratio;
        last_close = close_of s.candle_snapshot;
        trades_taken_today = state.trades_today;
      }

  -- the input of the auditor
  abbrev pub audit_input :
      ScoredSignal R
      → RiskApproval R
      → ShadowRiskState R
      → IntradayShadowConfig R
      → RiskAuditorInput R
  audit_input scored approval state config =
      let s = scored.signal in
      record {
        capital = config.capital;
        quantity = approval.quantity;
        stop_distance = abs (s.entry_price - s.stop_loss);
        risk_amount = approval.risk_amount;
        risk_reward_ratio = s.risk_reward_ratio;
        max_trades_per_day = pos config.max_trades_per_day;
        trades_taken_today = state.trades_today;
      }

  -- `AgenticOrchestrator.review_signal`
  unfoldable pub review_signal :
      AgenticOrchestrator R → R → ScoredSignal R → ShadowRiskState R → AgenticReviewResult R
  unfolding critic_input critique_signal review result_from_record
  review_signal o elapsed scored state =
      let s = scored.signal in
      if_enabled o.config (
        of_critique (
          review o.library o.config "SignalCriticAgent"
            (record {
              signal_id = given s.signal_id;
              trade_id = none;
              strategy = given s.strategy_name;
            })
            elapsed (critique_signal (critic_input scored state))))

  -- `AgenticOrchestrator.review_risk`
  unfoldable pub review_risk :
      AgenticOrchestrator R
      → R
      → ScoredSignal R
      → RiskApproval R
      → ShadowRiskState R
      → IntradayShadowConfig R
      → AgenticReviewResult R
  unfolding audit_risk review result_from_record
  review_risk o elapsed scored approval state config =
      let s = scored.signal in
      if_enabled o.config (
        of_audit (
          review o.library o.config "RiskAuditorAgent"
            (record {
              signal_id = given s.signal_id;
              trade_id = none;
              strategy = given s.strategy_name;
            })
            elapsed (ok (audit_risk (audit_input scored approval state config)))))

  -- `AgenticOrchestrator.review_execution`
  unfoldable pub review_execution :
      AgenticOrchestrator R
      → R
      → ScoredSignal R
      → ShadowOrder R
      → MarketDataSnapshot R
      → AgenticReviewResult R
  unfolding fill_value review_fill review result_from_record is_mark_missed
  review_execution o elapsed scored order s = if_enabled o.config (
      of_execution_review (
        review o.library o.config "ExecutionSimulationAgent"
          (record {
            signal_id = given scored.signal.signal_id;
            trade_id = given order.shadow_order_id;
            strategy = none;
          })
          elapsed
          (ok (
            review_fill (record {
              expected_entry = order.expected_entry;
              simulated_fill = order.simulated_fill;
              fill_status = fill_value order.fill_status;
            })))))

  -- `AgenticOrchestrator.validate_strategy_change`
  unfoldable pub validate_strategy_change : AgenticOrchestrator R → R → AgenticReviewResult R
  unfolding validate_backtest review result_from_record
  validate_strategy_change o elapsed =
      if o.config.enabled
      then (let (output, r) =
            review o.library o.config "BacktestValidationAgent" no_subject elapsed
              (ok validate_backtest) in
          result_from_record r)
      else judged true ("agentic_review_disabled" ∷ []) []

  -- the orchestrator as the reviewer of the pipeline
  abbrev pub reviewer_of : AgenticOrchestrator R → Reviewer R
  reviewer_of o = record {
    is_enabled = o.config.enabled;
    on_regime = review_regime o;
    on_signal = review_signal o;
    on_risk = review_risk o;
    on_execution = review_execution o;
  }
