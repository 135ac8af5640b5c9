-- ===== src/Schemas/Risk.antt =====
-- app/schemas/risk.py: the limits of the risk engine and its decision.
use trading_ai_alpha_agent.Prelude.{String, ℕ, Bool, true, false, List, Option}
use trading_ai_alpha_agent.Prelude.Int.{ℤ, pos}
use trading_ai_alpha_agent.Prelude.Text.{Dict}
use trading_ai_alpha_agent.Prelude.Float.{Float, decimal}
use trading_ai_alpha_agent.Core.Enums.{RiskDecisionType}
use trading_ai_alpha_agent.Core.Config.{Settings}

pub record RiskConfig (R : Type 0) : Type 0 where
  pub max_risk_per_trade_pct : R
  pub max_daily_loss_pct : R
  pub max_weekly_loss_pct : R
  pub max_monthly_drawdown_pct : R
  pub max_total_drawdown_pct : R
  pub max_single_stock_position_pct : R
  pub max_single_etf_position_pct : R
  pub max_sector_exposure_pct : R
  pub max_total_equity_exposure_pct : R
  pub max_india_exposure_pct : R
  pub max_us_exposure_pct : R
  pub max_open_positions_total : ℕ
  pub max_open_positions_india : ℕ
  pub max_open_positions_us : ℕ
  pub min_reward_risk_ratio : R
  pub max_slippage_pct : R

-- `RiskConfig.from_settings`: the last two limits keep their defaults.
unfoldable pub config_from_settings : {R : Type 0} ⦃f : Float R⦄ → Settings R → RiskConfig R
config_from_settings s = record {
  max_risk_per_trade_pct = s.max_risk_per_trade_pct;
  max_daily_loss_pct = s.max_daily_loss_pct;
  max_weekly_loss_pct = s.max_weekly_loss_pct;
  max_monthly_drawdown_pct = s.max_monthly_drawdown_pct;
  max_total_drawdown_pct = s.max_total_drawdown_pct;
  max_single_stock_position_pct = s.max_single_stock_position_pct;
  max_single_etf_position_pct = s.max_single_etf_position_pct;
  max_sector_exposure_pct = s.max_sector_exposure_pct;
  max_total_equity_exposure_pct = s.max_total_equity_exposure_pct;
  max_india_exposure_pct = s.max_india_exposure_pct;
  max_us_exposure_pct = s.max_us_exposure_pct;
  max_open_positions_total = s.max_open_positions_total;
  max_open_positions_india = s.max_open_positions_india;
  max_open_positions_us = s.max_open_positions_us;
  min_reward_risk_ratio = decimal (pos 10) 1;
  max_slippage_pct = decimal (pos 25) 4;
}

-- The values of `risk_metrics: dict[str, float | int | str | bool]`.
pub data Metric (R : Type 0) : Type 0 where
  number : R → Metric R
  integer : ℤ → Metric R
  text : String → Metric R
  flag : Bool → Metric R

pub record RiskDecision (R : Type 0) : Type 0 where
  pub id : String
  pub signal_id : Option String
  pub decision : RiskDecisionType
  pub approved_quantity : ℤ
  pub approved_capital : R
  pub approved_risk : R
  pub rejection_reasons : List String
  pub required_actions : List String
  pub risk_metrics : Dict (Metric R)

-- `decision in {APPROVED, REDUCE_SIZE}`
unfoldable pub admits_execution : RiskDecisionType → Bool
admits_execution RiskDecisionType.approved = true
admits_execution RiskDecisionType.reduce_size = true
admits_execution _ = false

-- `RiskDecision.is_approved_for_execution`
unfoldable pub is_approved_for_execution : {R : Type 0} → RiskDecision R → Bool
unfolding admits_execution
is_approved_for_execution d = admits_execution d.decision
