-- ===== src/Intraday/Pipeline/Process.antt =====
-- `process_snapshot`: the blocks before the loop, and the loop.
use trading_ai_alpha_agent.Prelude.{
  String, ℕ, false, not, ◌||◌, List, [], ◌∷◌, ◌++◌, Option, none, some, map, if◌then◌else◌,
}
use trading_ai_alpha_agent.Prelude.Int.{pos}
use trading_ai_alpha_agent.Prelude.Text.{Dict}
use trading_ai_alpha_agent.Prelude.Result.{Result, ok, err}
use trading_ai_alpha_agent.Prelude.Float.{Float, of_ℕ}
use trading_ai_alpha_agent.Intraday.Config.{IntradayShadowConfig}
use trading_ai_alpha_agent.Intraday.Models.{MarketDataSnapshot, DataQualityReport}
use trading_ai_alpha_agent.Intraday.Quality.{check_quality}
use trading_ai_alpha_agent.Intraday.Universe.{UniverseDecision, check_universe}
use trading_ai_alpha_agent.Intraday.Regime.{RegimeResult, classify}
use trading_ai_alpha_agent.Intraday.RiskManager.{ShadowRiskState}
use trading_ai_alpha_agent.Intraday.KillSwitch.{
  ShadowKillSwitchState, SwitchInputs, evaluate_switch,
}
use trading_ai_alpha_agent.Intraday.Positions.{Positions}
use trading_ai_alpha_agent.Intraday.Reviewer.{Reviewer}
use trading_ai_alpha_agent.Intraday.Strategies.{
  vwap_trend_long, vwap_trend_short, opening_range_breakout,
}
use trading_ai_alpha_agent.Intraday.Pipeline.State.{
  join_semicolon, PipelineState, PipelineResult, Run, Strategy, Draws, journalled, merged,
  block_entry,
}
use trading_ai_alpha_agent.Intraday.Pipeline.Steps.{
  Context, Handled, done, and_then, handle_strategy,
}

-- the attributes of `IntradayShadowPipeline` that do not change; `symbols` are those that the
-- universe's filter allows
pub record Pipeline (R : Type 0) : Type 0 where
  pub config : IntradayShadowConfig R
  pub reviewer : Reviewer R
  pub symbols : List String

-- one call: the arguments, the moment of the quality's check, the time of the regime's review,
-- and each strategy with what is drawn while it is handled
pub record SnapshotCall (R : Type 0) : Type 0 where
  pub snapshot : MarketDataSnapshot R
  pub risk_state : Option (ShadowRiskState R)
  pub now : ℕ
  pub regime_ms : R
  pub strategies : List (Strategy R × Draws R)

abbrev values_of : {A : Type 0} → Dict A → List A
values_of d = map (λ entry. entry.1) d

-- what the calls before the first test give
pub record Assessed (R : Type 0) : Type 0 where
  pub risk_state : ShadowRiskState R
  pub quality : DataQualityReport R
  pub regime : RegimeResult R
  pub universe : UniverseDecision
  pub kill_switch : ShadowKillSwitchState

-- `for strategy in self.strategies`
unfoldable pub each_strategy :
    {R : Type 0} ⦃f : Float R⦄ → Context R → List (Strategy R × Draws R) → Run R → Handled R
unfolding handle_strategy
each_strategy c [] run = done run
each_strategy c ((strategy, d) ∷ rest) run =
    and_then (handle_strategy c strategy d run) (λ next. each_strategy c rest next)

module _ {R : Type 0} ⦃f : Float R⦄ where
  -- `[VWAPTrendLongStrategy(), VWAPTrendShortStrategy(), OpeningRangeBreakoutStrategy()]`
  abbrev pub default_strategies : List (Strategy R)
  default_strategies = vwap_trend_long ∷ vwap_trend_short ∷ opening_range_breakout false ∷ []

  -- `risk_state or ShadowRiskState(open_positions=list(self.positions.positions.values()))`
  abbrev pub state_at : Option (ShadowRiskState R) → Positions R → ShadowRiskState R
  state_at (some state) positions = state
  state_at none positions = record {
    daily_realized_pnl = of_ℕ 0;
    weekly_realized_pnl = of_ℕ 0;
    trades_today = pos 0;
    consecutive_losses = pos 0;
    open_positions = values_of positions;
  }

  -- `evaluate(risk_state=state, data_quality=quality)`
  abbrev pub asked_of_switch : ShadowRiskState R → DataQualityReport R → SwitchInputs R
  asked_of_switch state quality = record {
    risk_state = state;
    data_quality = some quality;
    rejected_signal_count = pos 0;
    api_latency_ms = none;
  }

  unfoldable pub assess_snapshot : Pipeline R → SnapshotCall R → PipelineState R → Assessed R
  unfolding check_quality classify evaluate_switch check_universe
  assess_snapshot p call st =
      let state = state_at call.risk_state st.positions in
      let quality = check_quality p.config call.snapshot call.now in
      record {
        risk_state = state;
        quality = quality;
        regime = classify p.config call.snapshot;
        kill_switch = evaluate_switch p.config (asked_of_switch state quality) st.kill_switch;
        universe = check_universe p.config p.symbols call.snapshot quality;
      }

  abbrev pub started : Pipeline R → SnapshotCall R → PipelineState R → Assessed R → Run R
  started p call st a = record {
    state = record st { kill_switch = a.kill_switch };
    result = record {
      symbol = call.snapshot.symbol;
      quality = a.quality;
      regime = a.regime;
      universe = a.universe;
      kill_switch = a.kill_switch;
      signals = [];
      orders = [];
      positions = [];
      agentic_enabled = p.reviewer.is_enabled;
      agentic_warnings = [];
      agentic_decisions = [];
    };
  }

  abbrev pub blocked_run : SnapshotCall R → Assessed R → String → String → Run R → Handled R
  blocked_run call a event reason run =
      done (journalled (block_entry call.snapshot a.regime a.quality event reason) run)

  abbrev pub context_of : Pipeline R → SnapshotCall R → Assessed R → Context R
  context_of p call a = record {
    config = p.config;
    reviewer = p.reviewer;
    snapshot = call.snapshot;
    risk_state = a.risk_state;
    quality = a.quality;
    regime = a.regime;
  }

  -- from the review of the regime on
  unfoldable pub review_and_trade : Pipeline R → SnapshotCall R → Assessed R → Run R → Handled R
  unfolding join_semicolon each_strategy
  review_and_trade p call a run =
      let review = p.reviewer.on_regime call.regime_ms call.snapshot a.regime in
      let reviewed = merged review run in
      if review.block
      then blocked_run call a "AGENTIC_REGIME_BLOCK" (join_semicolon review.warnings) reviewed
      else each_strategy (context_of p call a) call.strategies reviewed

  abbrev pub blocked_by_switch : SnapshotCall R → Assessed R → Run R → Handled R
  blocked_by_switch call a run =
      blocked_run call a "DATA_OR_UNIVERSE_BLOCK"
        (join_semicolon (a.kill_switch.reasons ++ a.universe.reasons)) run

  -- from the first test on
  abbrev pub run_assessed : Pipeline R → SnapshotCall R → Assessed R → Run R → Handled R
  run_assessed p call a run =
      if a.kill_switch.triggered || not a.universe.allowed
      then blocked_by_switch call a run
      else review_and_trade p call a run

  unfoldable pub run_snapshot : Pipeline R → SnapshotCall R → PipelineState R → Handled R
  unfolding assess_snapshot join_semicolon review_and_trade
  run_snapshot p call st =
      let a = assess_snapshot p call st in run_assessed p call a (started p call st a)

  abbrev pub concluded : Handled R → Result (PipelineResult R) × PipelineState R
  concluded (err e, run) = (err e, run.state)
  concluded (ok value, run) = (ok run.result, run.state)

  -- `IntradayShadowPipeline.process_snapshot`: what it returns or raises, and the state that it leaves
  unfoldable pub process_snapshot :
      Pipeline R → SnapshotCall R → PipelineState R → Result (PipelineResult R) × PipelineState R
  unfolding run_snapshot
  process_snapshot p call st = concluded (run_snapshot p call st)

  -- one snapshot after another, as `run_india_once` goes through the symbols
  unfoldable pub process_snapshots :
      Pipeline R → List (SnapshotCall R) → PipelineState R → PipelineState R
  unfolding process_snapshot
  process_snapshots p [] st = st
  process_snapshots p (call ∷ calls) st = process_snapshots p calls (process_snapshot p call st).1
