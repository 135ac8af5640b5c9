-- ===== src/Agentic/Orchestrator/Outcome.antt =====
-- `_result_from_record` and `_record_blocks`.
use trading_ai_alpha_agent.Prelude.{
  String, Bool, true, ◌||◌, List, [], ◌∷◌, Option, none, some, if◌then◌else◌,
}
use trading_ai_alpha_agent.Prelude.Int.{pos}
use trading_ai_alpha_agent.Prelude.Text.{eqb, is_empty}
use trading_ai_alpha_agent.Prelude.Float.{Float, decimal}
use trading_ai_alpha_agent.Agentic.Models.{
  is_high, is_medium, decision_holds, AgentDecisionRecord, AgenticReviewResult, judged,
}

-- `parsed_output.get("reasonCodes", default)`
abbrev pub reasons_given : List String → Option (List String) → List String
reasons_given default none = default
reasons_given default (some reasons) = reasons

-- `record.error or "agent_decision_invalid"`
abbrev pub error_given : Option String → String
error_given none = "agent_decision_invalid"
error_given (some error) = if is_empty error then "agent_decision_invalid" else error

-- `_record_blocks`
unfoldable pub record_blocks : {R : Type 0} → AgentDecisionRecord R → Bool
unfolding is_high
record_blocks r = eqb r.final_action_taken "BLOCK" || is_high r.severity

module _ {R : Type 0} ⦃f : Float R⦄ where
  abbrev pub softened : AgentDecisionRecord R → AgenticReviewResult R → AgenticReviewResult R
  softened r result =
      if is_medium r.severity
      then record result { confidence_multiplier = decimal (pos 8) 1 }
      else result

  -- `_result_from_record`
  unfoldable pub result_from_record : AgentDecisionRecord R → AgenticReviewResult R
  unfolding record_blocks
  result_from_record r =
      if decision_holds r.schema_validation_status
      then softened r (judged (record_blocks r) (reasons_given [] r.parsed_reasons) (r ∷ []))
      else judged true (error_given r.error ∷ []) (r ∷ [])
