-- ===== src/Risk/Engine/Evaluate.antt =====
-- `RiskEngine.evaluate`: the reasons in the order of the source, and the decision.
use trading_ai_alpha_agent.Prelude.{
  String, Bool, true, false, not, ◌&&◌, List, [], ◌∷◌, ◌++◌, Option, none, some, raised,
  if◌then◌else◌,
}
use trading_ai_alpha_agent.Prelude.Int.{pos, leb_ℤ}
use trading_ai_alpha_agent.Prelude.Text.{Dict}
use trading_ai_alpha_agent.Prelude.Dedupe.{from_keys}
use trading_ai_alpha_agent.Prelude.Result.{Result, ok, ◌>>=◌}
use trading_ai_alpha_agent.Prelude.Float.{Float, ◌≤?◌, of_ℕ}
use trading_ai_alpha_agent.Core.Enums.{
  TradeAction, RiskDecisionType, is_live_capable, mode_value, is_buy,
}
use trading_ai_alpha_agent.Schemas.Risk.{RiskDecision, Metric}
use trading_ai_alpha_agent.Risk.Limits.{drawdown_reasons, stop_loss_rejection_reason}
use trading_ai_alpha_agent.Risk.Engine.Inputs.{Inputs, state_of, config_of}
use trading_ai_alpha_agent.Risk.Engine.Reasons.{
  require_quote_metrics, state_reasons, quality_reasons,
}
use trading_ai_alpha_agent.Risk.Engine.Sized.{Sized, size}

-- `candidate.action in {TradeAction.HOLD, TradeAction.NO_TRADE}`
unfoldable pub asks_no_trade : TradeAction → Bool
asks_no_trade TradeAction.hold = true
asks_no_trade TradeAction.no_trade = true
asks_no_trade _ = false

abbrev is_present {ℓ} : {A : Type ℓ} → Option A → Bool
is_present none = false
is_present (some a) = true

module _ {R : Type 0} where
  abbrev initial_metrics : Inputs R → Dict (Metric R)
  initial_metrics i =
      ("trading_mode", Metric.text (mode_value (state_of i).trading_mode))
      ∷ ("shadow_or_backtest", Metric.flag (not (is_live_capable (state_of i).trading_mode)))
      ∷ ("quote_metrics_required", Metric.flag (require_quote_metrics i))
      ∷ ("quote_metrics_present", Metric.flag (is_present i.quote_metrics))
      ∷ []

module _ {R : Type 0} ⦃f : Float R⦄ where
  abbrev pub final_checks : Inputs R → Sized R → List (Bool × String)
  final_checks i sized =
      (is_buy i.candidate.action && (i.portfolio.cash_inr ≤? of_ℕ 0), "cash_unavailable")
      ∷ (
        leb_ℤ sized.quantity (pos 0) && not (is_present (stop_loss_rejection_reason i.candidate)),
        "position_size_zero",
      )
      ∷ []

  -- all the reasons, in the order in which they are appended
  unfoldable pub all_reasons : Inputs R → List String → Sized R → List String
  all_reasons i drawdown sized =
      state_reasons i
      ++ (drawdown ++ (quality_reasons i ++ (sized.reasons ++ raised (final_checks i sized))))

  unfoldable pub no_trade_decision : Inputs R → RiskDecision R
  no_trade_decision i = record {
    id = i.decision_id;
    signal_id = i.signal_id;
    decision = RiskDecisionType.no_trade;
    approved_quantity = pos 0;
    approved_capital = of_ℕ 0;
    approved_risk = of_ℕ 0;
    rejection_reasons = [];
    required_actions = "no_trade_requested" ∷ [];
    risk_metrics = [];
  }

  -- the decision from the reasons without duplicates
  unfoldable pub conclude : Inputs R → Sized R → List String → RiskDecision R
  conclude i sized [] = record {
    id = i.decision_id;
    signal_id = i.signal_id;
    decision = RiskDecisionType.approved;
    approved_quantity = sized.quantity;
    approved_capital = sized.capital;
    approved_risk = sized.risk;
    rejection_reasons = [];
    required_actions = [];
    risk_metrics = initial_metrics i ++ sized.metrics;
  }
  conclude i sized (reason ∷ reasons) = record {
    id = i.decision_id;
    signal_id = i.signal_id;
    decision = RiskDecisionType.rejected;
    approved_quantity = pos 0;
    approved_capital = of_ℕ 0;
    approved_risk = of_ℕ 0;
    rejection_reasons = reason ∷ reasons;
    required_actions = "resolve_risk_rejections" ∷ [];
    risk_metrics = initial_metrics i ++ sized.metrics;
  }

  -- `evaluate` past the request for no trade
  unfoldable pub assess : Inputs R → Result (RiskDecision R)
  assess i = do
    drawdown ← drawdown_reasons i.portfolio (config_of i)
    sized ← size i i.candidate.stop_loss
    ok (conclude i sized (from_keys [] (all_reasons i drawdown sized)))

  unfoldable pub evaluate : Inputs R → Result (RiskDecision R)
  unfolding assess
  evaluate i =
      let assessed = assess i in
      if asks_no_trade i.candidate.action then ok (no_trade_decision i) else assessed
