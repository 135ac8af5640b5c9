-- ===== src/Agentic/Review.antt =====
-- `BaseReviewAgent.review` (app/agentic/agents.py): a deterministic review, written out and read again,
-- and the record of it. Every record that is returned has been appended to the journal.
use trading_ai_alpha_agent.Prelude.{
  String, Bool, true, false, ◌||◌, Option, none, some, if◌then◌else◌,
}
use trading_ai_alpha_agent.Prelude.Text.{eqb, is_empty}
use trading_ai_alpha_agent.Prelude.Result.{Error, Result, ok, err, value_error, foreign_error}
use trading_ai_alpha_agent.Prelude.Float.{Float, ◌<?◌, of_ℕ}
use trading_ai_alpha_agent.Agentic.Config.{AgenticConfig}
use trading_ai_alpha_agent.Agentic.Models.{
  AgentSeverity, severity_value, verdict_value, recommendation_value, AgentDecisionStatus,
  AgentOutput, AgentDecisionRecord, AgenticReviewResult,
}
use trading_ai_alpha_agent.Agentic.Policy.{AgentClaim, apply_policy}

-- What the agents use of other libraries: pydantic, which writes an output out and reads it again, and
-- the text that `str` gives for an exception.
pub record Library (R : Type 0) : Type 1 where
  pub reread : {E : Type 0} → AgentOutput R E → Result (AgentOutput R E)
  pub describe : Error → String

-- What an agent is asked about: `_first_value` over the keys of its input.
pub record Subject : Type 0 where
  pub signal_id : Option String
  pub trade_id : Option String
  pub strategy : Option String

abbrev pub no_subject : Subject
no_subject = record { signal_id = none; trade_id = none; strategy = none }

-- `if value: return str(value)`
abbrev pub given : String → Option String
given text = if is_empty text then none else some text

-- the classes of the first `except`: `ValueError` and those derived from it
abbrev pub is_value_error : Error → Bool
is_value_error (value_error message) = true
is_value_error (foreign_error class message) =
    eqb class "ValidationError" || eqb class "JSONDecodeError"
is_value_error _ = false

abbrev pub status_of : Error → AgentDecisionStatus
status_of e = if is_value_error e then AgentDecisionStatus.invalid else AgentDecisionStatus.failed

-- what `review` returns: the output that was read, if any, and the record
abbrev pub Reviewed : Type 0 → Type 0 → Type 0
Reviewed R E = Option (AgentOutput R E) × AgentDecisionRecord R

module _ {R : Type 0} ⦃f : Float R⦄ where
  -- `_record` with a status, an error, and the defaults
  abbrev pub failure_record :
      String → Subject → AgentDecisionStatus → String → AgentDecisionRecord R
  failure_record name subject status error = record {
    agent_name = name;
    parsed_reasons = none;
    schema_validation_status = status;
    confidence = of_ℕ 0;
    severity = AgentSeverity.low;
    recommendation = "";
    final_action_taken = "NONE";
    related_signal_id = subject.signal_id;
    related_trade_id = subject.trade_id;
    related_strategy = subject.strategy;
    error = some error;
  }

  abbrev pub claim_of : {E : Type 0} → AgentOutput R E → AgentClaim
  claim_of o = record {
    verdict = verdict_value o.verdict;
    severity = severity_value o.severity;
    recommendation = recommendation_value o.recommended_action;
    reason_codes = o.reason_codes;
    is_valid = true;
  }

  abbrev action_of : AgenticReviewResult R → String
  action_of policy = if policy.block then "BLOCK" else "ALLOW_OR_WARN"

  abbrev pub valid_record :
      {E : Type 0} → AgenticConfig → Subject → AgentOutput R E → AgentDecisionRecord R
  valid_record config subject o = record {
    agent_name = o.agent_name;
    parsed_reasons = some o.reason_codes;
    schema_validation_status = AgentDecisionStatus.valid;
    confidence = o.confidence;
    severity = o.severity;
    recommendation = recommendation_value o.recommended_action;
    final_action_taken = action_of (apply_policy config (claim_of o));
    related_signal_id = subject.signal_id;
    related_trade_id = subject.trade_id;
    related_strategy = subject.strategy;
    error = none;
  }

  -- the two `except` clauses
  abbrev pub excepted : (E : Type 0) → Library R → String → Subject → Error → Reviewed R E
  excepted E lib name subject e = (none, failure_record name subject (status_of e) (lib.describe e))

  -- after `model_validate_json`
  abbrev pub after_reading :
      {E : Type 0}
      → Library R
      → AgenticConfig
      → String
      → Subject
      → Result (AgentOutput R E)
      → Reviewed R E
  after_reading lib config name subject (err e) = excepted _ lib name subject e
  after_reading lib config name subject (ok parsed) =
      (some parsed, valid_record config subject parsed)

  -- `BaseReviewAgent.review`, with the time that the review took, in milliseconds
  unfoldable pub review :
      {E : Type 0}
      → Library R
      → AgenticConfig
      → String
      → Subject
      → R
      → Result (AgentOutput R E)
      → Reviewed R E
  unfolding apply_policy verdict_value severity_value recommendation_value
  review lib config name subject elapsed_ms (err e) = excepted _ lib name subject e
  review lib config name subject elapsed_ms (ok o) =
      if of_ℕ config.agent_timeout_ms <? elapsed_ms
      then (none, failure_record name subject AgentDecisionStatus.timed_out "agent_timeout")
      else after_reading lib config name subject (lib.reread o)
