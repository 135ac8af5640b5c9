-- ===== src/Agentic/Config.antt =====
-- app/agentic/config.py: what the agents are allowed to do.
use trading_ai_alpha_agent.Prelude.{String, ℕ, Bool}
use trading_ai_alpha_agent.Core.Config.{Settings}

pub record AgenticConfig : Type 0 where
  pub enabled : Bool
  pub strict_mode : Bool
  pub agent_can_block_trade : Bool
  pub agent_can_reduce_confidence : Bool
  pub agent_can_recommend_risk_reduction : Bool
  pub agent_can_force_trade : Bool
  pub agent_can_increase_risk : Bool
  pub agent_can_change_strategy_live : Bool
  pub agent_timeout_ms : ℕ
  pub max_retries : ℕ
  pub fallback_policy : String

-- `AgenticConfig.from_settings`
unfoldable pub agentic_config_from_settings : {R : Type 0} → Settings R → AgenticConfig
agentic_config_from_settings s = record {
  enabled = s.agentic_review_enabled;
  strict_mode = s.agentic_strict_mode;
  agent_can_block_trade = s.agent_can_block_trade;
  agent_can_reduce_confidence = s.agent_can_reduce_confidence;
  agent_can_recommend_risk_reduction = s.agent_can_recommend_risk_reduction;
  agent_can_force_trade = s.agent_can_force_trade;
  agent_can_increase_risk = s.agent_can_increase_risk;
  agent_can_change_strategy_live = s.agent_can_change_strategy_live;
  agent_timeout_ms = s.agent_timeout_ms;
  max_retries = s.agent_max_retries;
  fallback_policy = s.agent_fallback_policy;
}
