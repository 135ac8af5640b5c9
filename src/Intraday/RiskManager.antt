-- ===== src/Intraday/RiskManager.antt =====
-- app/intraday/risk_manager.py: whether and how much of a signal may be traded.
use Prim.Native.String.{◌++◌ as text_append}
use trading_ai_alpha_agent.Prelude.{
  String, ℕ, Bool, true, false, not, ◌&&◌, List, [], ◌∷◌, ◌++◌, Option, none, some, raised,
  count_if, leb, ◌==◌, if◌then◌else◌,
}
use trading_ai_alpha_agent.Prelude.Int.{ℤ, pos, leb_ℤ}
use trading_ai_alpha_agent.Prelude.Dedupe.{from_keys}
use trading_ai_alpha_agent.Prelude.Text.{Dict}
use trading_ai_alpha_agent.Prelude.Result.{Result, ok, ◌>>=◌}
use trading_ai_alpha_agent.Prelude.Float.{
  Float, ◌-◌, ◌*◌, ◌<?◌, ◌≤?◌, of_ℕ, of_ℤ, negate, abs, floor_quotient,
}
use trading_ai_alpha_agent.Intraday.Config.{IntradayShadowConfig}
use trading_ai_alpha_agent.Intraday.Models.{
  is_short, MarketRegime, regime_index, is_sideways, is_high_volatility, decision_value,
  decision_is_valid, position_is_open, MetricValue, DataQualityReport, Signal, ScoredSignal,
  RiskApproval, VirtualPosition,
}
use trading_ai_alpha_agent.Intraday.Quality.{too_wide}
use trading_ai_alpha_agent.Intraday.Universe.{quality_reasons_of}

pub record ShadowRiskState (R : Type 0) : Type 0 where
  pub daily_realized_pnl : R
  pub weekly_realized_pnl : R
  pub trades_today : ℤ
  pub consecutive_losses : ℤ
  pub open_positions : List (VirtualPosition R)

-- `current_regime is not None and current_regime != signal.regime_at_signal`
abbrev pub regime_changed : Option MarketRegime → MarketRegime → Bool
regime_changed none regime = false
regime_changed (some current) regime = not (regime_index current == regime_index regime)

abbrev pub open_count : {R : Type 0} → ShadowRiskState R → ℕ
open_count state = count_if (λ p. position_is_open p.status) state.open_positions

-- the arguments of `approve`
pub record RiskQuestion (R : Type 0) : Type 0 where
  pub scored : ScoredSignal R
  pub data_quality : DataQualityReport R
  pub state : ShadowRiskState R
  pub current_regime : Option MarketRegime

module _ {R : Type 0} ⦃f : Float R⦄ where
  -- `-capital * percent`, the realized result at which a limit is reached
  abbrev pub loss_floor : IntradayShadowConfig R → R → R
  loss_floor config percent = negate config.capital * percent

  abbrev pub stop_distance : Signal R → R
  stop_distance s = abs (s.entry_price - s.stop_loss)

  abbrev pub signal_checks : IntradayShadowConfig R → Signal R → List (Bool × String)
  signal_checks config s =
      (s.stop_loss ≤? of_ℕ 0, "stop_loss_missing")
      ∷ (stop_distance s ≤? of_ℕ 0, "stop_distance_invalid")
      ∷ (s.risk_reward_ratio <? config.min_reward_to_risk, "reward_risk_below_threshold")
      ∷ (too_wide config s.market_snapshot.spread_pct, "spread_too_wide")
      ∷ []

  abbrev pub account_checks : IntradayShadowConfig R → ShadowRiskState R → List (Bool × String)
  account_checks config state =
      (
        state.daily_realized_pnl ≤? loss_floor config config.max_daily_loss_percent,
        "daily_loss_limit_reached",
      )
      ∷ (
        state.weekly_realized_pnl ≤? loss_floor config config.max_weekly_loss_percent,
        "weekly_loss_limit_reached",
      )
      ∷ (leb_ℤ (pos config.max_trades_per_day) state.trades_today, "max_trades_per_day_reached")
      ∷ (
        leb_ℤ (pos config.max_consecutive_losses) state.consecutive_losses,
        "max_consecutive_losses_reached",
      )
      ∷ (leb config.max_open_positions (open_count state), "max_open_positions_reached")
      ∷ []

  abbrev pub regime_checks :
      IntradayShadowConfig R → Signal R → Option MarketRegime → List (Bool × String)
  regime_checks config s current =
      (is_short s.direction && not config.allow_shorts, "shorts_disabled")
      ∷ (regime_changed current s.regime_at_signal, "market_regime_changed")
      ∷ (
        is_sideways s.regime_at_signal && not config.allow_sideways_trades,
        "sideways_regime_blocked",
      )
      ∷ (
        is_high_volatility s.regime_at_signal && not config.allow_high_volatility_trades,
        "high_volatility_blocked",
      )
      ∷ []

  abbrev pub approval_reasons : IntradayShadowConfig R → RiskQuestion R → ℤ → List String
  approval_reasons config q quantity =
      let scored = q.scored in
      raised (
        (
          not (decision_is_valid scored.decision),
          text_append "signal_not_valid:" (decision_value scored.decision),
        )
        ∷ [])
      ++ (quality_reasons_of q.data_quality
          ++ (raised (signal_checks config scored.signal)
              ++ (raised (account_checks config q.state)
                  ++ (raised (regime_checks config scored.signal q.current_regime)
                      ++ raised ((leb_ℤ quantity (pos 0), "quantity_zero") ∷ [])))))

  abbrev pub allowed_risk : IntradayShadowConfig R → R
  allowed_risk config = config.capital * config.risk_per_trade_percent

  -- `int(allowed_risk // stop_distance) if stop_distance > 0 else 0`
  abbrev pub quantity_by_risk : IntradayShadowConfig R → Signal R → Result ℤ
  quantity_by_risk config s =
      if of_ℕ 0 <? stop_distance s
      then floor_quotient (allowed_risk config) (stop_distance s)
      else ok (pos 0)

  abbrev approval_metrics : IntradayShadowConfig R → RiskQuestion R → ℤ → Dict (MetricValue R)
  approval_metrics config q quantity =
      let s = q.scored.signal in
      ("allowed_risk_amount", MetricValue.number (allowed_risk config))
      ∷ ("stop_distance", MetricValue.number (stop_distance s))
      ∷ ("reward_risk", MetricValue.number s.risk_reward_ratio)
      ∷ ("quantity_by_risk", MetricValue.count quantity)
      ∷ ("capital_required", MetricValue.number (of_ℤ quantity * s.entry_price))
      ∷ ("daily_realized_pnl", MetricValue.number q.state.daily_realized_pnl)
      ∷ ("trades_today", MetricValue.count q.state.trades_today)
      ∷ ("consecutive_losses", MetricValue.count q.state.consecutive_losses)
      ∷ []

  -- the two returns
  abbrev pub conclude_approval :
      IntradayShadowConfig R → RiskQuestion R → ℤ → List String → RiskApproval R
  conclude_approval config q quantity [] =
      let s = q.scored.signal in
      record {
        approved = true;
        quantity = quantity;
        risk_amount = of_ℤ quantity * stop_distance s;
        capital_required = of_ℤ quantity * s.entry_price;
        rejection_reasons = [];
        metrics = approval_metrics config q quantity;
      }
  conclude_approval config q quantity (r ∷ rs) = record {
    approved = false;
    quantity = pos 0;
    risk_amount = of_ℕ 0;
    capital_required = of_ℕ 0;
    rejection_reasons = r ∷ rs;
    metrics = approval_metrics config q quantity;
  }

  -- `RiskManager.approve`
  unfoldable pub approve : IntradayShadowConfig R → RiskQuestion R → Result (RiskApproval R)
  unfolding from_keys
  approve config q = do
    quantity ← quantity_by_risk config q.scored.signal
    ok (conclude_approval config q quantity (from_keys [] (approval_reasons config q quantity)))
