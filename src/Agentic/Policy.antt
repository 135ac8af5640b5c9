-- ===== src/Agentic/Policy.antt =====
-- app/agentic/policy.py: what a recommendation of an agent may come to.
use trading_ai_alpha_agent.Prelude.{
  String, Bool, true, not, ◌&&◌, ◌||◌, List, [], ◌∷◌, Option, none, some, if◌then◌else◌,
}
use trading_ai_alpha_agent.Prelude.Int.{pos}
use trading_ai_alpha_agent.Prelude.Text.{eqb, contains}
use trading_ai_alpha_agent.Prelude.Float.{Float, of_ℕ, decimal}
use trading_ai_alpha_agent.Paper.Symbols.{upper}
use trading_ai_alpha_agent.Agentic.Config.{AgenticConfig}
use trading_ai_alpha_agent.Agentic.Models.{AgenticReviewResult, granted, judged}

abbrev pub forbidden_recommendations : List String
forbidden_recommendations =
    "FORCE_TRADE" ∷ "INCREASE_SIZE" ∷ "INCREASE_RISK" ∷ "ENABLE_LIVE_TRADING"
    ∷ "CHANGE_STRATEGY_LIVE" ∷ "DELETE_LOGS" ∷ "MODIFY_JOURNAL" ∷ []

-- the tests of `validate_recommendation` on the normalized text: the error, or `none` for `True`
abbrev pub policy_error : AgenticConfig → String → Option String
policy_error config text =
    if contains text forbidden_recommendations
    then some "forbidden_agent_recommendation"
    else if eqb text "BLOCK" && not config.agent_can_block_trade
    then some "agent_block_not_allowed"
    else if eqb text "REDUCE_CONFIDENCE" && not config.agent_can_reduce_confidence
    then some "agent_reduce_confidence_not_allowed"
    else if eqb text "REDUCE_SIZE" && not config.agent_can_recommend_risk_reduction
    then some "agent_risk_reduction_not_allowed"
    else none

-- `AgentAuthorityPolicy.validate_recommendation`
unfoldable pub validate_recommendation : AgenticConfig → String → Option String
unfolding upper
validate_recommendation config recommendation = policy_error config (upper recommendation)

-- the arguments of `apply`
pub record AgentClaim : Type 0 where
  pub verdict : String
  pub severity : String
  pub recommendation : String
  pub reason_codes : List String
  pub is_valid : Bool

module _ {R : Type 0} ⦃f : Float R⦄ where
  abbrev pub reduced : AgentClaim → AgenticReviewResult R
  reduced c = record (granted c.reason_codes []) {
    confidence_multiplier = decimal (pos 8) 1;
    risk_multiplier = if eqb c.recommendation "REDUCE_SIZE" then decimal (pos 75) 2 else of_ℕ 1;
  }

  -- the returns after the recommendation is found to be allowed
  abbrev pub weigh : AgentClaim → AgenticReviewResult R
  weigh c =
      if eqb c.severity "HIGH" || (eqb c.verdict "REJECT" || eqb c.recommendation "BLOCK")
      then judged true c.reason_codes []
      else if eqb c.severity "MEDIUM"
      then reduced c
      else granted c.reason_codes []

  -- the returns where the output is valid
  abbrev pub rule_on : AgenticConfig → AgentClaim → Option String → AgenticReviewResult R
  rule_on config c (some error) = judged config.strict_mode (error ∷ []) []
  rule_on config c none = weigh c

  -- `AgentAuthorityPolicy.apply`
  unfoldable pub apply_policy : AgenticConfig → AgentClaim → AgenticReviewResult R
  unfolding validate_recommendation
  apply_policy config c =
      if c.is_valid
      then rule_on config c (validate_recommendation config c.recommendation)
      else judged (config.strict_mode && eqb config.fallback_policy "FAIL_SAFE_BLOCK")
          ("agent_output_invalid" ∷ []) []
