-- ===== src/Risk/Engine/Tests/Data.antt =====
-- Concrete settings, and a purchase that `RiskEngine.evaluate` approves.
use trading_ai_alpha_agent.Prelude.{ℕ, true, false, [], ◌∷◌, none, some}
use trading_ai_alpha_agent.Prelude.Int.{pos, negsuc}
use trading_ai_alpha_agent.Prelude.FixedPoint.{Micros, fixed_point}
use trading_ai_alpha_agent.Core.Enums.{
  TradingMode, Market, AssetClass, TradeAction, ProviderType, ProviderStatus, AuthStatus,
  AccountStatus, FreshnessStatus, MarketCalendarState,
}
use trading_ai_alpha_agent.Core.Config.{Settings}
use trading_ai_alpha_agent.Schemas.Trading.{TradeCandidate, PortfolioSnapshot}
use trading_ai_alpha_agent.Risk.Engine.Inputs.{Inputs, ProviderArgument}

abbrev pub micros : ℕ → Micros
micros n = pos n

abbrev pub rupees : ℕ → Micros
rupees n = pos (Prim.Native.Nat.◌*◌ n 1_000_000)

-- The defaults of `Settings`, but for a live mode with the kill switch off.
abbrev pub settings : Settings Micros
settings = record {
  trading_mode = TradingMode.live_autonomous;
  live_trading_enabled = true;
  live_orders_enabled = true;
  kill_switch = false;
  agent_can_force_trade = false;
  agent_can_increase_risk = false;
  agent_can_change_strategy_live = false;
  real_provider_required = true;
  broker_reconciliation_required = true;
  risk_engine_required = true;
  allow_dummy_broker = false;
  allow_mock_broker = false;
  allow_fake_market_data = false;
  allow_fake_order_fills = false;
  allow_margin = false;
  allow_short_selling = false;
  allow_options = false;
  allow_derivatives = false;
  allow_crypto = false;
  allow_leveraged_etfs = false;
  max_risk_per_trade_pct = micros 5_000;
  max_daily_loss_pct = micros 12_500;
  max_weekly_loss_pct = micros 40_000;
  max_monthly_drawdown_pct = micros 80_000;
  max_total_drawdown_pct = micros 100_000;
  max_single_stock_position_pct = micros 75_000;
  max_single_etf_position_pct = micros 150_000;
  max_sector_exposure_pct = micros 250_000;
  max_total_equity_exposure_pct = micros 800_000;
  max_india_exposure_pct = micros 700_000;
  max_us_exposure_pct = micros 700_000;
  max_open_positions_total = 15;
  max_open_positions_india = 8;
  max_open_positions_us = 8;
  live_market_quality_checks_required = true;
  micro_live_market_quality_checks_required = false;
  min_live_intraday_volume = 50_000;
  min_live_average_daily_volume = 100_000;
  min_live_average_daily_notional_inr = rupees 25_000_000;
  max_live_bid_ask_spread_pct = micros 5_000;
  max_live_estimated_slippage_pct = micros 2_500;
  agentic_review_enabled = true;
  agentic_strict_mode = true;
  agent_can_block_trade = true;
  agent_can_reduce_confidence = true;
  agent_can_recommend_risk_reduction = true;
  agent_timeout_ms = 1_500;
  agent_max_retries = 0;
  agent_fallback_policy = "FAIL_SAFE_BLOCK";
  intraday_shadow_capital_inr = rupees 500_000;
  intraday_shadow_risk_per_trade_pct = micros 2_500;
  intraday_shadow_max_daily_loss_pct = micros 10_000;
  intraday_shadow_max_weekly_loss_pct = micros 30_000;
  intraday_shadow_max_open_positions = 2;
  intraday_shadow_max_trades_per_day = 3;
  intraday_shadow_max_consecutive_losses = 3;
  intraday_shadow_min_reward_risk = micros 1_500_000;
  intraday_shadow_allow_shorts = false;
  intraday_shadow_allow_sideways_trades = false;
  intraday_shadow_allow_high_volatility_trades = false;
  intraday_shadow_min_signal_score = 70;
  intraday_shadow_watch_score = 60;
  intraday_shadow_max_spread_pct = micros 3_000;
  intraday_shadow_max_data_age_seconds = 90;
  intraday_shadow_max_entry_move_pct = micros 2_500;
  intraday_shadow_slippage_bps = rupees 5;
  intraday_shadow_latency_ms = 250;
  intraday_shadow_no_new_trade_after = "15:00";
  intraday_shadow_force_close_time = "15:20";
  intraday_shadow_live_readiness_min_sessions = 30;
  intraday_shadow_live_readiness_min_trades = 100;
  intraday_shadow_live_readiness_profit_factor = micros 1_300_000;
  intraday_shadow_live_readiness_max_drawdown_pct = micros 80_000;
}

abbrev pub candidate : TradeCandidate Micros
candidate = record {
  market = Market.us;
  symbol = "MSFT";
  instrument_id = "1";
  asset_class = AssetClass.equity;
  action = TradeAction.buy;
  strategy_name = "test";
  confidence = micros 800_000;
  entry_price = rupees 100;
  stop_loss = some (rupees 95);
  take_profit = some (rupees 120);
  expected_risk = rupees 5;
  expected_reward = rupees 20;
  reward_risk_ratio = rupees 4;
  reasons = [];
  risk_flags = [];
  data_sources = [];
}

abbrev pub portfolio : PortfolioSnapshot Micros
portfolio = record {
  total_value_inr = rupees 500_000;
  cash_inr = rupees 100_000;
  equity_exposure_inr = rupees 0;
  india_exposure_inr = rupees 0;
  us_exposure_inr = rupees 0;
  daily_pnl_inr = negsuc 999_999_999;
  weekly_pnl_inr = rupees 0;
  monthly_drawdown_pct = rupees 0;
  total_drawdown_pct = rupees 0;
  positions = [];
  exposures_by_sector = [];
  exposures_by_strategy = [];
}

abbrev pub buy_inputs : Inputs Micros
buy_inputs = record {
  settings = settings;
  candidate = candidate;
  portfolio = portfolio;
  broker_health = some (record {
    broker_name = "ALPACA";
    market = Market.us;
    auth_status = AuthStatus.valid;
    account_status = AccountStatus.active;
    trading_enabled = true;
    buying_power = rupees 0;
    cash = rupees 0;
    positions_reconciled = true;
    last_checked_at = 0;
    rejection_reasons = [];
  });
  provider_health = ProviderArgument.one (record {
    provider_name = "ALPACA_DATA";
    provider_type = ProviderType.market_data;
    market = Market.us;
    status = ProviderStatus.ok;
    last_success_at = none;
    last_error = "";
    freshness_status = FreshnessStatus.fresh;
  });
  market_calendar =
      some (record { market = Market.us; state = MarketCalendarState.open_session; reason = "" });
  risk_config = none;
  fx_status = some (record {
    base_currency = "USD";
    quote_currency = "INR";
    rate = some (rupees 80);
    freshness_status = FreshnessStatus.fresh;
    last_success_at = some 1_000_000;
    source = "";
    stale_after_minutes = 60;
  });
  compliance_status = none;
  system_state = none;
  signal_id = none;
  quote_metrics = some (
      ("volume", some (rupees 60_000))
      ∷ ("average_daily_volume", some (rupees 200_000))
      ∷ ("spread_bps", some (rupees 10))
      ∷ []);
  decision_id = "d1";
  now = 2_000_000;
}
