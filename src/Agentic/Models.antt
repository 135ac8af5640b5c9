-- ===== src/Agentic/Models.antt =====
-- app/agentic/models.py: what an agent says, the record of it, and the result of a review. Of an
-- output and of a record, the texts that no code reads (the explanation, the tags, the prompt,
-- the hashes, the raw output and the id) are left out.
use trading_ai_alpha_agent.Prelude.{String, ℕ, Bool, true, false, List, Option, leb, if◌then◌else◌}
use trading_ai_alpha_agent.Prelude.Float.{Float, of_ℕ}

pub data AgentSeverity : Type 0 where
  low medium high : AgentSeverity

unfoldable pub severity_value : AgentSeverity → String
severity_value AgentSeverity.low = "LOW"
severity_value AgentSeverity.medium = "MEDIUM"
severity_value AgentSeverity.high = "HIGH"

unfoldable pub is_medium : AgentSeverity → Bool
is_medium AgentSeverity.medium = true
is_medium _ = false

unfoldable pub is_high : AgentSeverity → Bool
is_high AgentSeverity.high = true
is_high _ = false

-- the order of `max_severity`
abbrev pub severity_order : AgentSeverity → ℕ
severity_order AgentSeverity.low = 1
severity_order AgentSeverity.medium = 2
severity_order AgentSeverity.high = 3

unfoldable pub max_severity : AgentSeverity → AgentSeverity → AgentSeverity
max_severity left right = if leb (severity_order right) (severity_order left) then left else right

pub data AgentVerdict : Type 0 where
  approve warn reject insufficient_data : AgentVerdict

unfoldable pub verdict_value : AgentVerdict → String
verdict_value AgentVerdict.approve = "APPROVE"
verdict_value AgentVerdict.warn = "WARN"
verdict_value AgentVerdict.reject = "REJECT"
verdict_value AgentVerdict.insufficient_data = "INSUFFICIENT_DATA"

pub data AgentRecommendation : Type 0 where
  allow reduce_confidence block wait_for_pullback reduce_size : AgentRecommendation
  review_only mark_missed require_backtest : AgentRecommendation
  disable_strategy_temporarily increase_slippage_model : AgentRecommendation

unfoldable pub recommendation_value : AgentRecommendation → String
recommendation_value AgentRecommendation.allow = "ALLOW"
recommendation_value AgentRecommendation.reduce_confidence = "REDUCE_CONFIDENCE"
recommendation_value AgentRecommendation.block = "BLOCK"
recommendation_value AgentRecommendation.wait_for_pullback = "WAIT_FOR_PULLBACK"
recommendation_value AgentRecommendation.reduce_size = "REDUCE_SIZE"
recommendation_value AgentRecommendation.review_only = "REVIEW_ONLY"
recommendation_value AgentRecommendation.mark_missed = "MARK_MISSED"
recommendation_value AgentRecommendation.require_backtest = "REQUIRE_BACKTEST"
recommendation_value AgentRecommendation.disable_strategy_temporarily =
    "DISABLE_STRATEGY_TEMPORARILY"
recommendation_value AgentRecommendation.increase_slippage_model = "INCREASE_SLIPPAGE_MODEL"

unfoldable pub is_mark_missed : AgentRecommendation → Bool
is_mark_missed AgentRecommendation.mark_missed = true
is_mark_missed _ = false

pub data AgentDecisionStatus : Type 0 where
  valid invalid timed_out failed : AgentDecisionStatus

unfoldable pub decision_holds : AgentDecisionStatus → Bool
decision_holds AgentDecisionStatus.valid = true
decision_holds _ = false

-- `AgentBaseOutput`, with the fields `E` that an agent adds
pub record AgentOutput (R E : Type 0) : Type 0 where
  pub agent_name : String
  pub verdict : AgentVerdict
  pub severity : AgentSeverity
  pub confidence : R
  pub reason_codes : List String
  pub recommended_action : AgentRecommendation
  pub details : E

-- `parsed_reasons` is the list under "reasonCodes" of `parsed_output`.
pub record AgentDecisionRecord (R : Type 0) : Type 0 where
  pub agent_name : String
  pub parsed_reasons : Option (List String)
  pub schema_validation_status : AgentDecisionStatus
  pub confidence : R
  pub severity : AgentSeverity
  pub recommendation : String
  pub final_action_taken : String
  pub related_signal_id : Option String
  pub related_trade_id : Option String
  pub related_strategy : Option String
  pub error : Option String

pub record AgenticReviewResult (R : Type 0) : Type 0 where
  pub allowed : Bool
  pub block : Bool
  pub confidence_multiplier : R
  pub risk_multiplier : R
  pub warnings : List String
  pub records : List (AgentDecisionRecord R)

module _ {R : Type 0} ⦃f : Float R⦄ where
  -- `AgenticReviewResult(warnings=warnings, records=records)`
  abbrev pub granted : List String → List (AgentDecisionRecord R) → AgenticReviewResult R
  granted warnings records = record {
    allowed = true;
    block = false;
    confidence_multiplier = of_ℕ 1;
    risk_multiplier = of_ℕ 1;
    warnings = warnings;
    records = records;
  }

  -- with `allowed=not block, block=block`
  abbrev pub judged : Bool → List String → List (AgentDecisionRecord R) → AgenticReviewResult R
  judged true warnings records = record (granted warnings records) { allowed = false; block = true }
  judged false warnings records = granted warnings records
