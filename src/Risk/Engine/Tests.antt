-- ===== src/Risk/Engine/Tests.antt =====
-- `RiskEngine.evaluate` on concrete inputs.
pub mod Data
use trading_ai_alpha_agent.Prelude.Dedupe.{from_keys}
use trading_ai_alpha_agent.Prelude.{ℕ, true, false, [], ◌∷◌, none, some, ◌≡◌, refl, arith}
use trading_ai_alpha_agent.Prelude.Int.{pos, negsuc, floor_div, ◌+ℤ◌, ◌-ℤ◌, ◌*ℤ◌, min_ℤ, max_ℤ}
use trading_ai_alpha_agent.Prelude.Result.{Result, ok, err, type_error}
use trading_ai_alpha_agent.Prelude.Text.{lookup, insert, set_default, contains}
use trading_ai_alpha_agent.Prelude.FixedPoint.{Micros, fixed_point}
use trading_ai_alpha_agent.Core.Enums.{
  TradingMode, Market, AssetClass, TradeAction, ProviderType, ProviderStatus, AuthStatus,
  AccountStatus, FreshnessStatus, MarketCalendarState, RiskDecisionType, mode_value,
  is_live_capable, is_live_autonomous, is_micro_live, market_eq, is_india, is_us, is_etf, is_buy,
  is_sell, is_missing_credentials, is_valid, is_active, is_missing_status,
}
use trading_ai_alpha_agent.Core.Config.{Settings, enabled_errors}
use trading_ai_alpha_agent.Schemas.Status.{
  FxRateStatus, provider_is_healthy_for_live, is_fresh, is_open,
}
use trading_ai_alpha_agent.Schemas.Trading.{TradeCandidate, PortfolioSnapshot}
use trading_ai_alpha_agent.Schemas.Risk.{RiskDecision, Metric, config_from_settings}
use trading_ai_alpha_agent.Risk.KillSwitch.{state_from_settings}
use trading_ai_alpha_agent.Risk.Freshness.{provider_freshness_reasons, fx_rejection_reason}
use trading_ai_alpha_agent.Risk.Limits.{
  drawdown_reasons, exposure_reasons, stop_loss_rejection_reason, reward_risk_rejection_reason,
  existing_long_quantity, long_only_rejection_reason,
}
use trading_ai_alpha_agent.Risk.Quality.{
  has_flag, metric, notional_inr, liquidity_rejection_reason, spread_pct, slippage_rejection_reason,
}
use trading_ai_alpha_agent.Risk.Sizing.{calculate_quantity_by_risk, quantity_caps, cap_quantity}
use trading_ai_alpha_agent.Risk.Engine.Inputs.{Inputs, ProviderArgument}
use trading_ai_alpha_agent.Risk.Engine.Reasons.{
  require_quote_metrics, live_reasons, compliance_reasons, state_reasons, quality_reasons,
}
use trading_ai_alpha_agent.Risk.Engine.Sized.{size, size_with_stop}
use trading_ai_alpha_agent.Risk.Engine.Evaluate.{
  evaluate, assess, asks_no_trade, all_reasons, conclude,
}
use trading_ai_alpha_agent.Risk.Engine.Assessed.{Assessed}
use trading_ai_alpha_agent.Risk.Engine.Gates.{IsCleared}
use trading_ai_alpha_agent.Risk.Engine.Approval.{IsCapped, approval-IsCleared, approval-IsCapped}
use trading_ai_alpha_agent.Risk.Engine.Limits.{IsWithinLimits, approval-IsWithinLimits}
use trading_ai_alpha_agent.Risk.Engine.Outcome.{
  IsOutcome, evaluate-IsOutcome, kill_switch_rejects, missing_rate_raises,
}
use trading_ai_alpha_agent.Risk.Engine.Total.{
  EqualIsOrdered, ReturnsOrOverflows, evaluate-ReturnsOrOverflows,
}
use trading_ai_alpha_agent.Risk.Engine.Tests.Data.{
  micros, rupees, settings, candidate, portfolio, buy_inputs,
}

-- 7.5 % of 500,000 buys 4 shares at 8,000 rupees, fewer than the risk, the cash and the market
-- allow.
abbrev pub buy_decision : RiskDecision Micros
buy_decision = record {
  id = "d1";
  signal_id = none;
  decision = RiskDecisionType.approved;
  approved_quantity = pos 4;
  approved_capital = rupees 32_000;
  approved_risk = rupees 1_600;
  rejection_reasons = [];
  required_actions = [];
  risk_metrics =
      ("trading_mode", Metric.text "LIVE_AUTONOMOUS")
      ∷ ("shadow_or_backtest", Metric.flag false)
      ∷ ("quote_metrics_required", Metric.flag true)
      ∷ ("quote_metrics_present", Metric.flag true)
      ∷ ("fx_rate_used", Metric.number (rupees 80))
      ∷ ("quantity_by_risk", Metric.integer (pos 6))
      ∷ ("quantity_by_position_cap", Metric.integer (pos 4))
      ∷ ("quantity_by_cash", Metric.integer (pos 12))
      ∷ ("quantity_by_market_exposure", Metric.integer (pos 43))
      ∷ ("entry_price_inr", Metric.number (rupees 8_000))
      ∷ [];
}

-- The engine with all that it computes with.
run : Inputs Micros → Result (RiskDecision Micros)
unfolding evaluate assess asks_no_trade from_keys all_reasons conclude size size_with_stop
    state_reasons quality_reasons live_reasons compliance_reasons require_quote_metrics
    calculate_quantity_by_risk cap_quantity quantity_caps has_flag metric notional_inr
    liquidity_rejection_reason spread_pct slippage_rejection_reason drawdown_reasons
    exposure_reasons stop_loss_rejection_reason reward_risk_rejection_reason existing_long_quantity
    long_only_rejection_reason provider_freshness_reasons fx_rejection_reason state_from_settings
    config_from_settings provider_is_healthy_for_live is_fresh is_open enabled_errors mode_value
    is_live_capable is_live_autonomous is_micro_live market_eq is_india is_us is_etf is_buy is_sell
    is_missing_credentials is_valid is_active is_missing_status lookup insert set_default ◌+ℤ◌ ◌-ℤ◌
    ◌*ℤ◌ min_ℤ max_ℤ
run i = evaluate i

pub buy_run : evaluate buy_inputs ≡ ok buy_decision
unfolding run
buy_run = refl

approval-IsCleared_example : IsCleared buy_inputs
approval-IsCleared_example = approval-IsCleared buy_inputs buy_run refl

approval-IsCapped_example : IsCapped buy_inputs (pos 4)
approval-IsCapped_example = approval-IsCapped buy_inputs buy_run refl

approval-IsWithinLimits_example : IsWithinLimits buy_inputs (rupees 32_000)
unfolding is_buy
approval-IsWithinLimits_example = approval-IsWithinLimits buy_inputs buy_run refl

evaluate-IsOutcome_example : IsOutcome buy_decision
evaluate-IsOutcome_example = evaluate-IsOutcome buy_inputs buy_run

fixed_point-EqualIsOrdered : EqualIsOrdered fixed_point
fixed_point-EqualIsOrdered x y h = ground arith

evaluate-ReturnsOrOverflows_example : ReturnsOrOverflows fixed_point (evaluate buy_inputs)
unfolding run
evaluate-ReturnsOrOverflows_example =
    evaluate-ReturnsOrOverflows fixed_point-EqualIsOrdered buy_inputs {rate = rupees 80} refl refl
      refl

-- The same order with the kill switch on.
abbrev switched_inputs : Inputs Micros
switched_inputs = record buy_inputs { settings = record settings { kill_switch = true } }

abbrev switched_decision : RiskDecision Micros
switched_decision = record buy_decision {
  decision = RiskDecisionType.rejected;
  approved_quantity = pos 0;
  approved_capital = pos 0;
  approved_risk = pos 0;
  rejection_reasons = "kill_switch_enabled" ∷ [];
  required_actions = "resolve_risk_rejections" ∷ [];
}

switched_run : evaluate switched_inputs ≡ ok switched_decision
unfolding run
switched_run = refl

kill_switch_rejects_example :
    (switched_decision.decision ≡ RiskDecisionType.rejected)
    × (contains "kill_switch_enabled" switched_decision.rejection_reasons ≡ true)
unfolding state_from_settings asks_no_trade
kill_switch_rejects_example = kill_switch_rejects switched_inputs refl refl switched_run

-- A status of the exchange rate that holds none.
abbrev no_rate : FxRateStatus Micros
no_rate = record {
  base_currency = "USD";
  quote_currency = "INR";
  rate = none;
  freshness_status = FreshnessStatus.missing;
  last_success_at = none;
  source = "";
  stale_after_minutes = 60;
}

missing_rate_raises_example :
    evaluate (record buy_inputs { fx_status = some no_rate }) ≡ err type_error
unfolding asks_no_trade ◌*ℤ◌
missing_rate_raises_example =
    missing_rate_raises (record buy_inputs { fx_status = some no_rate }) no_rate (rupees 95) refl
      refl refl refl refl refl
