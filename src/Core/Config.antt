-- ===== src/Core/Config.antt =====
-- app/core/config.py: the settings that the modelled parts read, and the check of the live mode.
-- Settings that only other parts read (credentials, addresses, training) are left out.
use trading_ai_alpha_agent.Prelude.{
  String, ℕ, Bool, true, false, not, List, [], ◌∷◌, ◌++◌, map, raised, raised-eq-nil, ◌≡◌, arith,
}
use Prim.Native.String.{◌++◌ as text_append}
use trading_ai_alpha_agent.Core.Enums.{TradingMode, is_live_capable}

pub record Settings (R : Type 0) : Type 0 where
  pub trading_mode : TradingMode
  pub live_trading_enabled : Bool
  pub live_orders_enabled : Bool
  pub kill_switch : Bool
  pub agent_can_force_trade : Bool
  pub agent_can_increase_risk : Bool
  pub agent_can_change_strategy_live : Bool
  pub real_provider_required : Bool
  pub broker_reconciliation_required : Bool
  pub risk_engine_required : Bool
  pub allow_dummy_broker : Bool
  pub allow_mock_broker : Bool
  pub allow_fake_market_data : Bool
  pub allow_fake_order_fills : Bool
  pub allow_margin : Bool
  pub allow_short_selling : Bool
  pub allow_options : Bool
  pub allow_derivatives : Bool
  pub allow_crypto : Bool
  pub allow_leveraged_etfs : Bool
  pub max_risk_per_trade_pct : R
  pub max_daily_loss_pct : R
  pub max_weekly_loss_pct : R
  pub max_monthly_drawdown_pct : R
  pub max_total_drawdown_pct : R
  pub max_single_stock_position_pct : R
  pub max_single_etf_position_pct : R
  pub max_sector_exposure_pct : R
  pub max_total_equity_exposure_pct : R
  pub max_india_exposure_pct : R
  pub max_us_exposure_pct : R
  pub max_open_positions_total : ℕ
  pub max_open_positions_india : ℕ
  pub max_open_positions_us : ℕ
  pub live_market_quality_checks_required : Bool
  pub micro_live_market_quality_checks_required : Bool
  pub min_live_intraday_volume : ℕ
  pub min_live_average_daily_volume : ℕ
  pub min_live_average_daily_notional_inr : R
  pub max_live_bid_ask_spread_pct : R
  pub max_live_estimated_slippage_pct : R
  pub agentic_review_enabled : Bool
  pub agentic_strict_mode : Bool
  pub agent_can_block_trade : Bool
  pub agent_can_reduce_confidence : Bool
  pub agent_can_recommend_risk_reduction : Bool
  pub agent_timeout_ms : ℕ
  pub agent_max_retries : ℕ
  pub agent_fallback_policy : String
  pub intraday_shadow_capital_inr : R
  pub intraday_shadow_risk_per_trade_pct : R
  pub intraday_shadow_max_daily_loss_pct : R
  pub intraday_shadow_max_weekly_loss_pct : R
  pub intraday_shadow_max_open_positions : ℕ
  pub intraday_shadow_max_trades_per_day : ℕ
  pub intraday_shadow_max_consecutive_losses : ℕ
  pub intraday_shadow_min_reward_risk : R
  pub intraday_shadow_allow_shorts : Bool
  pub intraday_shadow_allow_sideways_trades : Bool
  pub intraday_shadow_allow_high_volatility_trades : Bool
  pub intraday_shadow_min_signal_score : ℕ
  pub intraday_shadow_watch_score : ℕ
  pub intraday_shadow_max_spread_pct : R
  pub intraday_shadow_max_data_age_seconds : ℕ
  pub intraday_shadow_max_entry_move_pct : R
  pub intraday_shadow_slippage_bps : R
  pub intraday_shadow_latency_ms : ℕ
  pub intraday_shadow_no_new_trade_after : String
  pub intraday_shadow_force_close_time : String
  pub intraday_shadow_live_readiness_min_sessions : ℕ
  pub intraday_shadow_live_readiness_min_trades : ℕ
  pub intraday_shadow_live_readiness_profit_factor : R
  pub intraday_shadow_live_readiness_max_drawdown_pct : R

-- `f"{name}_true" for name, enabled in flags.items() if enabled`
unfoldable pub enabled_errors : List (String × Bool) → List String
enabled_errors flags = raised (map (λ e. (e.1, text_append e.0 "_true")) flags)

module _ {R : Type 0} (s : Settings R) where
  -- `blocked_flags`, built alike in `live_mode_safety_errors` and in `RiskEngine.evaluate`
  abbrev pub blocked_flags : List (String × Bool)
  blocked_flags =
      ("allow_dummy_broker", s.allow_dummy_broker)
      ∷ ("allow_mock_broker", s.allow_mock_broker)
      ∷ ("allow_fake_market_data", s.allow_fake_market_data)
      ∷ ("allow_fake_order_fills", s.allow_fake_order_fills)
      ∷ ("allow_margin", s.allow_margin)
      ∷ ("allow_short_selling", s.allow_short_selling)
      ∷ ("allow_options", s.allow_options)
      ∷ ("allow_derivatives", s.allow_derivatives)
      ∷ ("allow_crypto", s.allow_crypto)
      ∷ ("allow_leveraged_etfs", s.allow_leveraged_etfs)
      ∷ []

  -- the three safeguards that both functions require
  abbrev pub required_flags : List (Bool × String)
  required_flags =
      (not s.real_provider_required, "real_provider_required_false")
      ∷ (not s.broker_reconciliation_required, "broker_reconciliation_required_false")
      ∷ (not s.risk_engine_required, "risk_engine_required_false")
      ∷ []

  unfoldable pub live_mode_safety_errors : List String
  unfolding enabled_errors
  live_mode_safety_errors =
      raised (
        (not (is_live_capable s.trading_mode), "trading_mode_is_not_live_capable")
        ∷ (not s.live_trading_enabled, "live_trading_enabled_false")
        ∷ (not s.live_orders_enabled, "live_orders_enabled_false")
        ∷ (s.kill_switch, "kill_switch_enabled")
        ∷ (s.agent_can_force_trade, "agent_can_force_trade_true")
        ∷ (s.agent_can_increase_risk, "agent_can_increase_risk_true")
        ∷ (s.agent_can_change_strategy_live, "agent_can_change_strategy_live_true")
        ∷ required_flags)
      ++ enabled_errors blocked_flags

  -- The configured safeguards of a live mode: what must be required is, and nothing that is
  -- forbidden is allowed.
  pub record IsGuarded : Type 0 where
    pub provider : s.real_provider_required ≡ true
    pub reconciliation : s.broker_reconciliation_required ≡ true
    pub engine : s.risk_engine_required ≡ true
    pub dummy_broker : s.allow_dummy_broker ≡ false
    pub mock_broker : s.allow_mock_broker ≡ false
    pub fake_data : s.allow_fake_market_data ≡ false
    pub fake_fills : s.allow_fake_order_fills ≡ false
    pub margin : s.allow_margin ≡ false
    pub short_selling : s.allow_short_selling ≡ false
    pub options : s.allow_options ≡ false
    pub derivatives : s.allow_derivatives ≡ false
    pub crypto : s.allow_crypto ≡ false
    pub leveraged_etfs : s.allow_leveraged_etfs ≡ false

  pub IsGuarded_of_empty :
      raised required_flags ≡ [] → enabled_errors blocked_flags ≡ [] → IsGuarded
  unfolding enabled_errors
  IsGuarded_of_empty h k = ground (
    arith,
    raised-eq-nil required_flags h,
    raised-eq-nil (map (λ (e : String × Bool). (e.1, text_append e.0 "_true")) blocked_flags) k,
  )
