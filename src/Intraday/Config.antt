-- ===== src/Intraday/Config.antt =====
-- app/intraday/config.py: the limits of the shadow pipeline.
use trading_ai_alpha_agent.Prelude.{String, ℕ, Bool, false}
use trading_ai_alpha_agent.Core.Config.{Settings}

pub record IntradayShadowConfig (R : Type 0) : Type 0 where
  pub capital : R
  pub risk_per_trade_percent : R
  pub max_daily_loss_percent : R
  pub max_weekly_loss_percent : R
  pub max_open_positions : ℕ
  pub max_trades_per_day : ℕ
  pub max_consecutive_losses : ℕ
  pub min_reward_to_risk : R
  pub allow_averaging_down : Bool
  pub allow_martingale : Bool
  pub allow_shorts : Bool
  pub allow_sideways_trades : Bool
  pub allow_high_volatility_trades : Bool
  pub min_signal_score : ℕ
  pub watch_score : ℕ
  pub max_spread_pct : R
  pub max_data_age_seconds : ℕ
  pub max_entry_move_pct : R
  pub slippage_bps : R
  pub latency_ms : ℕ
  pub no_new_trade_after : String
  pub force_close_time : String
  pub readiness_min_sessions : ℕ
  pub readiness_min_trades : ℕ
  pub readiness_profit_factor : R
  pub readiness_max_drawdown_pct : R

-- `IntradayShadowConfig.from_settings`
unfoldable pub shadow_config_from_settings : {R : Type 0} → Settings R → IntradayShadowConfig R
shadow_config_from_settings s = record {
  capital = s.intraday_shadow_capital_inr;
  risk_per_trade_percent = s.intraday_shadow_risk_per_trade_pct;
  max_daily_loss_percent = s.intraday_shadow_max_daily_loss_pct;
  max_weekly_loss_percent = s.intraday_shadow_max_weekly_loss_pct;
  max_open_positions = s.intraday_shadow_max_open_positions;
  max_trades_per_day = s.intraday_shadow_max_trades_per_day;
  max_consecutive_losses = s.intraday_shadow_max_consecutive_losses;
  min_reward_to_risk = s.intraday_shadow_min_reward_risk;
  allow_averaging_down = false;
  allow_martingale = false;
  allow_shorts = s.intraday_shadow_allow_shorts;
  allow_sideways_trades = s.intraday_shadow_allow_sideways_trades;
  allow_high_volatility_trades = s.intraday_shadow_allow_high_volatility_trades;
  min_signal_score = s.intraday_shadow_min_signal_score;
  watch_score = s.intraday_shadow_watch_score;
  max_spread_pct = s.intraday_shadow_max_spread_pct;
  max_data_age_seconds = s.intraday_shadow_max_data_age_seconds;
  max_entry_move_pct = s.intraday_shadow_max_entry_move_pct;
  slippage_bps = s.intraday_shadow_slippage_bps;
  latency_ms = s.intraday_shadow_latency_ms;
  no_new_trade_after = s.intraday_shadow_no_new_trade_after;
  force_close_time = s.intraday_shadow_force_close_time;
  readiness_min_sessions = s.intraday_shadow_live_readiness_min_sessions;
  readiness_min_trades = s.intraday_shadow_live_readiness_min_trades;
  readiness_profit_factor = s.intraday_shadow_live_readiness_profit_factor;
  readiness_max_drawdown_pct = s.intraday_shadow_live_readiness_max_drawdown_pct;
}
