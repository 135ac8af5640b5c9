-- ===== src/Schemas/Trading.antt =====
-- app/schemas/{signal,position,portfolio}.py: what a strategy proposes and what is held.
use trading_ai_alpha_agent.Prelude.{String, ℕ, List, Option}
use trading_ai_alpha_agent.Prelude.Text.{Dict}
use trading_ai_alpha_agent.Core.Enums.{Market, AssetClass, TradeAction}

pub record TradeCandidate (R : Type 0) : Type 0 where
  pub market : Market
  pub symbol : String
  pub instrument_id : String
  pub asset_class : AssetClass
  pub action : TradeAction
  pub strategy_name : String
  pub confidence : R
  pub entry_price : R
  pub stop_loss : Option R
  pub take_profit : Option R
  pub expected_risk : R
  pub expected_reward : R
  pub reward_risk_ratio : R
  pub reasons : List String
  pub risk_flags : List String
  pub data_sources : List String

-- `quantity` is at least 0 by the schema.
pub record OpenPosition (R : Type 0) : Type 0 where
  pub market : Market
  pub symbol : String
  pub asset_class : AssetClass
  pub quantity : ℕ
  pub average_price : R
  pub market_value_inr : R
  pub sector : Option String

pub record PortfolioSnapshot (R : Type 0) : Type 0 where
  pub total_value_inr : R
  pub cash_inr : R
  pub equity_exposure_inr : R
  pub india_exposure_inr : R
  pub us_exposure_inr : R
  pub daily_pnl_inr : R
  pub weekly_pnl_inr : R
  pub monthly_drawdown_pct : R
  pub total_drawdown_pct : R
  pub positions : List (OpenPosition R)
  pub exposures_by_sector : Dict R
  pub exposures_by_strategy : Dict R
