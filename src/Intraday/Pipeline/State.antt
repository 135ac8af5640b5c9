-- ===== src/Intraday/Pipeline/State.antt =====
-- What the pipeline keeps and returns: the positions, the journal (`JournalEntry` of
-- app/intraday/models.py) and the switch; the dictionary `result`, whose fixed entries
-- `orders_placed: 0` and `shadow_only: True` are left out.
use Prim.Native.String.{◌++◌ as text_append}
use trading_ai_alpha_agent.Prelude.{String, ℕ, Bool, List, [], ◌∷◌, ◌++◌, Option, none, some, map}
use trading_ai_alpha_agent.Prelude.Int.{ℤ}
use trading_ai_alpha_agent.Prelude.Text.{Dict}
use trading_ai_alpha_agent.Intraday.Models.{
  Direction, MarketRegime, MarketDataSnapshot, FillStatus, SignalDecision, DataQualityReport,
  MetricValue, SignalMarket, Candle, SignalDraft, ScoredSignal, ShadowOrder,
}
use trading_ai_alpha_agent.Intraday.Regime.{RegimeResult}
use trading_ai_alpha_agent.Intraday.Universe.{UniverseDecision}
use trading_ai_alpha_agent.Intraday.KillSwitch.{ShadowKillSwitchState}
use trading_ai_alpha_agent.Intraday.Positions.{Positions}
use trading_ai_alpha_agent.Agentic.Models.{
  AgentSeverity, AgentDecisionStatus, AgentDecisionRecord, AgenticReviewResult,
}

-- `";".join(texts)`
unfoldable pub join_semicolon : List String → String
join_semicolon [] = ""
join_semicolon (t ∷ []) = t
join_semicolon (t ∷ u ∷ us) = text_append t (text_append ";" (join_semicolon (u ∷ us)))

-- the two dictionaries that an entry has under `market_snapshot`
pub data JournalMarket (R : Type 0) : Type 0 where
  of_quality : MarketRegime → Dict (MetricValue R) → JournalMarket R
  of_signal : SignalMarket R → JournalMarket R

-- `JournalEntry`, without the fields that only an exit would set
pub record JournalEntry (R : Type 0) : Type 0 where
  pub timestamp : ℕ
  pub event_type : String
  pub symbol : String
  pub direction : Option Direction
  pub strategy : String
  pub regime : Option MarketRegime
  pub signal_score : Option ℤ
  pub reason_codes : List String
  pub rejection_reason : Option String
  pub entry_price : Option R
  pub stop_loss : Option R
  pub target : Option R
  pub quantity : Option ℤ
  pub risk_amount : Option R
  pub risk_reward : Option R
  pub simulated_fill_price : Option R
  pub slippage : Option R
  pub market_snapshot : JournalMarket R
  pub candle_snapshot : Option (Candle R)

pub record PipelineState (R : Type 0) : Type 0 where
  pub positions : Positions R
  pub journal : List (JournalEntry R)
  pub kill_switch : ShadowKillSwitchState

pub record SignalRow : Type 0 where
  pub signal_id : String
  pub strategy : String
  pub direction : Direction
  pub score : ℤ
  pub decision : SignalDecision
  pub reasons : List String
  pub agentic_warnings : List String

pub record OrderRow (R : Type 0) : Type 0 where
  pub shadow_order_id : String
  pub fill_status : FillStatus
  pub simulated_fill : Option R
  pub rejection_reason : Option String

pub record DecisionRow : Type 0 where
  pub agent : String
  pub status : AgentDecisionStatus
  pub severity : AgentSeverity
  pub recommendation : String
  pub final_action : String
  pub related_signal_id : Option String

pub record PipelineResult (R : Type 0) : Type 0 where
  pub symbol : String
  pub quality : DataQualityReport R
  pub regime : RegimeResult R
  pub universe : UniverseDecision
  pub kill_switch : ShadowKillSwitchState
  pub signals : List SignalRow
  pub orders : List (OrderRow R)
  pub positions : List (String × String)
  pub agentic_enabled : Bool
  pub agentic_warnings : List String
  pub agentic_decisions : List DecisionRow

-- the pipeline's state, and the dictionary as it stands
pub record Run (R : Type 0) : Type 0 where
  pub state : PipelineState R
  pub result : PipelineResult R

-- what a strategy is: `generate`, without the draw of the signal's id
abbrev pub Strategy : Type 0 → Type 0
Strategy R = MarketDataSnapshot R → RegimeResult R → Option (SignalDraft R)

-- what is drawn or measured while one strategy is handled: the ids, the moment of the order, and the
-- times of the three reviews
pub record Draws (R : Type 0) : Type 0 where
  pub signal_id : String
  pub order_id : String
  pub position_id : String
  pub order_moment : ℕ
  pub critic_ms : R
  pub audit_ms : R
  pub execution_ms : R

module _ {R : Type 0} where
  -- `self._journal(entry)`
  abbrev pub journalled : JournalEntry R → Run R → Run R
  journalled entry run = record run {
    state = record run.state { journal = run.state.journal ++ (entry ∷ []) };
  }

  abbrev decision_row : AgentDecisionRecord R → DecisionRow
  decision_row r = record {
    agent = r.agent_name;
    status = r.schema_validation_status;
    severity = r.severity;
    recommendation = r.recommendation;
    final_action = r.final_action_taken;
    related_signal_id = r.related_signal_id;
  }

  -- `_merge_agentic_result`
  abbrev pub merged : AgenticReviewResult R → Run R → Run R
  merged review run = record run {
    result = record run.result {
      agentic_warnings = run.result.agentic_warnings ++ review.warnings;
      agentic_decisions = run.result.agentic_decisions ++ map decision_row review.records;
    };
  }

  abbrev pub with_signal_row : SignalRow → Run R → Run R
  with_signal_row row run = record run {
    result = record run.result { signals = run.result.signals ++ (row ∷ []) };
  }

  abbrev order_row : ShadowOrder R → OrderRow R
  order_row order = record {
    shadow_order_id = order.shadow_order_id;
    fill_status = order.fill_status;
    simulated_fill = order.simulated_fill;
    rejection_reason = order.rejection_reason;
  }

  abbrev pub with_order_row : ShadowOrder R → Run R → Run R
  with_order_row order run = record run {
    result = record run.result { orders = run.result.orders ++ (order_row order ∷ []) };
  }

  -- the entry of a block before any strategy is asked
  abbrev pub block_entry :
      MarketDataSnapshot R → RegimeResult R → DataQualityReport R → String → String → JournalEntry R
  block_entry s regime quality event reason = record {
    timestamp = s.timestamp;
    event_type = event;
    symbol = s.symbol;
    direction = none;
    strategy = "";
    regime = none;
    signal_score = none;
    reason_codes = [];
    rejection_reason = some reason;
    entry_price = none;
    stop_loss = none;
    target = none;
    quantity = none;
    risk_amount = none;
    risk_reward = none;
    simulated_fill_price = none;
    slippage = none;
    market_snapshot = JournalMarket.of_quality regime.regime quality.metrics;
    candle_snapshot = none;
  }

  -- the fields that every entry about a signal has
  abbrev pub signal_entry : ScoredSignal R → String → JournalEntry R
  signal_entry scored event =
      let s = scored.signal in
      record {
        timestamp = s.timestamp;
        event_type = event;
        symbol = s.symbol;
        direction = some s.direction;
        strategy = s.strategy_name;
        regime = some s.regime_at_signal;
        signal_score = some scored.score;
        reason_codes = scored.reasons;
        rejection_reason = none;
        entry_price = some s.entry_price;
        stop_loss = some s.stop_loss;
        target = some s.target_price;
        quantity = none;
        risk_amount = none;
        risk_reward = some s.risk_reward_ratio;
        simulated_fill_price = none;
        slippage = none;
        market_snapshot = JournalMarket.of_signal s.market_snapshot;
        candle_snapshot = s.candle_snapshot;
      }
