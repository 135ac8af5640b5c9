-- ===== src/Agentic/Orchestrator/PreMarket.antt =====
-- `AgenticOrchestrator.pre_market_review`: the reviews before any snapshot.
use trading_ai_alpha_agent.Prelude.{
  String, true, false, List, [], ◌∷◌, ◌++◌, none, some, if◌then◌else◌,
}
use trading_ai_alpha_agent.Prelude.Result.{ok}
use trading_ai_alpha_agent.Prelude.Float.{Float}
use trading_ai_alpha_agent.Core.Config.{Settings}
use trading_ai_alpha_agent.Agentic.Models.{
  is_high, AgentDecisionRecord, AgenticReviewResult, granted,
}
use trading_ai_alpha_agent.Agentic.Review.{no_subject, Reviewed, review}
use trading_ai_alpha_agent.Agentic.Agents.Context.{
  MarketContext, SafetyPosture, ComplianceSafety, review_context, review_safety,
}
use trading_ai_alpha_agent.Agentic.Agents.Research.{DriftDetection, detect_drift}
use trading_ai_alpha_agent.Agentic.Orchestrator.Outcome.{reasons_given, record_blocks}
use trading_ai_alpha_agent.Agentic.Orchestrator.Reviews.{
  AgenticOrchestrator, less_confident, warned, if_enabled,
}

module _ {R : Type 0} ⦃f : Float R⦄ where
  abbrev blocked_with : List String → AgenticReviewResult R → AgenticReviewResult R
  blocked_with more result = record result {
    allowed = false;
    block = true;
    warnings = result.warnings ++ more;
  }

  abbrev recorded : AgentDecisionRecord R → AgenticReviewResult R → AgenticReviewResult R
  recorded r result = record result { records = result.records ++ (r ∷ []) }

  abbrev after_safety : Reviewed R ComplianceSafety → AgenticReviewResult R → AgenticReviewResult R
  after_safety (output, r) result =
      if record_blocks r
      then blocked_with (reasons_given ("compliance_block" ∷ []) r.parsed_reasons)
          (recorded r result)
      else recorded r result

  abbrev after_context :
      Reviewed R (MarketContext R) → AgenticReviewResult R → AgenticReviewResult R
  after_context (none, r) result = recorded r result
  after_context (some o, r) result =
      if is_high o.severity
      then blocked_with o.reason_codes (recorded r result)
      else recorded r result

  abbrev after_drift : Reviewed R DriftDetection → AgenticReviewResult R → AgenticReviewResult R
  after_drift (none, r) result = recorded r result
  after_drift (some o, r) result =
      if o.details.drift_detected
      then warned o.reason_codes (less_confident (recorded r result))
      else recorded r result

  abbrev posture_of : Settings R → SafetyPosture
  posture_of s = record {
    trading_mode = s.trading_mode;
    live_trading_enabled = s.live_trading_enabled;
    live_orders_enabled = s.live_orders_enabled;
    kill_switch = s.kill_switch;
  }

  -- `AgenticOrchestrator.pre_market_review`, with the times of its three reviews
  unfoldable pub pre_market_review : AgenticOrchestrator R → R → R → R → AgenticReviewResult R
  unfolding review review_safety review_context detect_drift record_blocks is_high
  pre_market_review o t1 t2 t3 =
      let safety =
        review o.library o.config "ComplianceSafetyAgent" no_subject t1
          (ok (review_safety (posture_of o.settings))) in
      let context =
        review o.library o.config "MarketContextAgent" no_subject t2
          (ok (review_context (record { india_vix = none; breadth = none }))) in
      let drift =
        review o.library o.config "DriftDetectionAgent" no_subject t3 (ok (detect_drift [])) in
      if_enabled o.config
        (after_drift drift (after_context context (after_safety safety (granted [] []))))
