-- ===== src/Risk/Engine/Reasons.antt =====
-- The reasons that `evaluate` collects before it sizes the trade, one function for each block.
use trading_ai_alpha_agent.Prelude.{
  String, ℕ, ltb, leb, Bool, not, ◌&&◌, ◌||◌, List, [], ◌∷◌, ◌++◌, Option, none, some, raised,
  to_list, count_if, if◌then◌else◌,
}
use trading_ai_alpha_agent.Prelude.Float.{Float}
use trading_ai_alpha_agent.Core.Enums.{
  market_eq, is_india, is_us, is_buy, is_live_capable, is_live_autonomous, is_micro_live,
  is_missing_credentials, is_valid, is_active,
}
use trading_ai_alpha_agent.Core.Config.{enabled_errors, blocked_flags, required_flags}
use trading_ai_alpha_agent.Schemas.Status.{
  BrokerHealth, MarketCalendarStatus, is_open, ComplianceStatus, approved,
}
use trading_ai_alpha_agent.Schemas.Trading.{OpenPosition}
use trading_ai_alpha_agent.Risk.Freshness.{provider_freshness_reasons, fx_rejection_reason}
use trading_ai_alpha_agent.Risk.Limits.{stop_loss_rejection_reason, reward_risk_rejection_reason}
use trading_ai_alpha_agent.Risk.Quality.{liquidity_rejection_reason, slippage_rejection_reason}
use trading_ai_alpha_agent.Risk.Engine.Inputs.{Inputs, state_of, config_of, quotes_of, providers_of}

module _ {R : Type 0} where
  unfoldable pub require_quote_metrics : Inputs R → Bool
  require_quote_metrics i =
      (is_live_autonomous (state_of i).trading_mode
        && i.settings.live_market_quality_checks_required)
      || (is_micro_live (state_of i).trading_mode
          && i.settings.micro_live_market_quality_checks_required)

  abbrev pub is_live : Inputs R → Bool
  is_live i = is_live_capable (state_of i).trading_mode

  abbrev pub switch_checks : Inputs R → List (Bool × String)
  switch_checks i =
      ((state_of i).kill_switch, "kill_switch_enabled")
      ∷ (is_live i && not (state_of i).live_trading_enabled, "live_trading_enabled_false")
      ∷ []

  unfoldable pub live_reasons : Inputs R → List String
  live_reasons i =
      if is_live i
      then raised (required_flags i.settings) ++ enabled_errors (blocked_flags i.settings)
      else []

  abbrev pub india_reasons : Inputs R → Option ComplianceStatus → List String
  india_reasons i none = "india_compliance_status_missing" ∷ []
  india_reasons i (some c) =
      if not (market_eq c.market i.candidate.market)
      then "india_compliance_market_mismatch" ∷ []
      else if not (approved c)
      then "india_compliance_not_approved" ∷ c.rejection_reasons
      else []

  unfoldable pub compliance_reasons : Inputs R → List String
  compliance_reasons i =
      if is_india i.candidate.market && is_live i then india_reasons i i.compliance_status else []

  abbrev pub broker_checks : Inputs R → BrokerHealth R → List (Bool × String)
  broker_checks i b =
      (not (market_eq b.market i.candidate.market), "broker_market_mismatch")
      ∷ (is_missing_credentials b.auth_status, "broker_credentials_missing")
      ∷ (
        not (is_missing_credentials b.auth_status) && not (is_valid b.auth_status),
        "broker_session_invalid",
      )
      ∷ (not (is_active b.account_status), "broker_account_not_active")
      ∷ (not b.trading_enabled, "broker_trading_disabled")
      ∷ (not b.positions_reconciled, "portfolio_reconciliation_required")
      ∷ []

  abbrev pub broker_reasons : Inputs R → Option (BrokerHealth R) → List String
  broker_reasons i none = "broker_health_missing" ∷ []
  broker_reasons i (some b) = raised (broker_checks i b)

  abbrev pub calendar_reasons : Inputs R → Option MarketCalendarStatus → List String
  calendar_reasons i none = "market_calendar_status_missing" ∷ []
  calendar_reasons i (some c) =
      if not (market_eq c.market i.candidate.market)
      then "market_calendar_market_mismatch" ∷ []
      else if not (is_open c)
      then "market_closed" ∷ []
      else []

  -- `position.quantity > 0`
  abbrev pub is_held : OpenPosition R → Bool
  is_held p = ltb 0 p.quantity

  abbrev pub open_total : Inputs R → ℕ
  open_total i = count_if is_held i.portfolio.positions

  abbrev pub open_in_market : Inputs R → ℕ
  open_in_market i =
      count_if (λ p. is_held p && market_eq p.market i.candidate.market) i.portfolio.positions

module _ {R : Type 0} ⦃f : Float R⦄ where
  abbrev pub position_checks : Inputs R → List (Bool × String)
  position_checks i =
      (
        is_buy i.candidate.action && leb (config_of i).max_open_positions_total (open_total i),
        "max_open_positions_total_exceeded",
      )
      ∷ (
        is_buy i.candidate.action
            && (is_india i.candidate.market
                && leb (config_of i).max_open_positions_india (open_in_market i)),
        "max_open_positions_india_exceeded",
      )
      ∷ (
        is_buy i.candidate.action
            && (is_us i.candidate.market
                && leb (config_of i).max_open_positions_us (open_in_market i)),
        "max_open_positions_us_exceeded",
      )
      ∷ []

  -- what is collected up to the stop loss
  unfoldable pub state_reasons : Inputs R → List String
  state_reasons i =
      raised (switch_checks i)
      ++ (live_reasons i
          ++ (compliance_reasons i
              ++ (broker_reasons i i.broker_health
                  ++ (provider_freshness_reasons (providers_of i.provider_health)
                        (some i.candidate.market)
                      ++ (calendar_reasons i i.market_calendar
                          ++ (to_list (fx_rejection_reason i.now i.candidate.market i.fx_status)
                              ++ to_list (stop_loss_rejection_reason i.candidate)))))))

  -- what is collected between the drawdown and the sizing
  unfoldable pub quality_reasons : Inputs R → List String
  quality_reasons i =
      to_list
        (liquidity_rejection_reason i.candidate i.settings (quotes_of i) (require_quote_metrics i))
      ++ (to_list (
            slippage_rejection_reason i.candidate i.settings (quotes_of i)
              (require_quote_metrics i))
          ++ (to_list (reward_risk_rejection_reason i.candidate (config_of i).min_reward_risk_ratio)
              ++ raised (position_checks i)))
