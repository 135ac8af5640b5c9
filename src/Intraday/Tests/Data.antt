-- ===== src/Intraday/Tests/Data.antt =====
-- A rising market in one share, with the pipeline's default settings and its three strategies.
use Prim.Native.Char.{code}
use Prim.Native.Nat.{◌+◌ as plus, ◌*◌ as times, ◌-◌ as minus}
use trading_ai_alpha_agent.Prelude.{
  String, ℕ, true, false, ◌&&◌, List, [], ◌∷◌, Option, none, some, leb, if◌then◌else◌,
}
use trading_ai_alpha_agent.Prelude.Int.{ℤ, pos}
use trading_ai_alpha_agent.Prelude.Result.{ok}
use trading_ai_alpha_agent.Prelude.FixedPoint.{Micros, fixed_point}
use trading_ai_alpha_agent.Core.Enums.{Market}
use trading_ai_alpha_agent.Schemas.Json.{Fields}
use trading_ai_alpha_agent.Risk.Engine.Tests.Data.{rupees, micros, settings}
use trading_ai_alpha_agent.Intraday.Config.{IntradayShadowConfig, shadow_config_from_settings}
use trading_ai_alpha_agent.Intraday.Clock.{ReadInt}
use trading_ai_alpha_agent.Intraday.Models.{
  Direction, MarketRegime, SignalDecision, Candle, MarketDataSnapshot, Signal, ScoredSignal,
  RiskApproval, VirtualPosition,
}
use trading_ai_alpha_agent.Intraday.Universe.{nifty_50_symbols}
use trading_ai_alpha_agent.Intraday.RiskManager.{ShadowRiskState, RiskQuestion, conclude_approval}
use trading_ai_alpha_agent.Intraday.ShadowExecution.{filled_order}
use trading_ai_alpha_agent.Intraday.Positions.{Positions, opened_virtual_position}
use trading_ai_alpha_agent.Intraday.KillSwitch.{reset_switch}
use trading_ai_alpha_agent.Intraday.Pipeline.State.{PipelineState, Run, Strategy, Draws}
use trading_ai_alpha_agent.Intraday.Pipeline.Steps.{Context}
use trading_ai_alpha_agent.Intraday.Pipeline.Process.{
  Pipeline, SnapshotCall, default_strategies, assess_snapshot, context_of, started,
}
use trading_ai_alpha_agent.Agentic.Config.{agentic_config_from_settings}
use trading_ai_alpha_agent.Agentic.Review.{Library}
use trading_ai_alpha_agent.Agentic.Orchestrator.Reviews.{AgenticOrchestrator, reviewer_of}

-- `int` of a text of digits
abbrev digits : ℕ → String → Option ℤ
digits n String.[] = some (pos n)
digits n (String.◌∷◌ c s) =
    let rest = digits (plus (times n 10) (minus (code c) 48)) s in
    if leb 48 (code c) && leb (code c) 57 then rest else none

abbrev pub read_digits : ReadInt
read_digits = digits 0

abbrev pub config : IntradayShadowConfig Micros
config = shadow_config_from_settings settings

-- 8:20 of a day
abbrev pub moment : ℕ
moment = 1_699_950_000_000_000

abbrev candle : ℕ → ℕ → ℕ → Candle Micros
candle minutes price volume = record {
  timestamp = minus moment (times minutes 60_000_000);
  open_price = rupees price;
  high = pos (plus (times price 1_000_000) 300_000);
  low = pos (minus (times price 1_000_000) 300_000);
  close = rupees price;
  volume = rupees volume;
}

abbrev pub rising_market : MarketDataSnapshot Micros
rising_market = record {
  market = Market.india;
  symbol = "RELIANCE";
  timestamp = moment;
  utc_offset = 0;
  last_price = rupees 1_000;
  vwap = some (rupees 996);
  volume = rupees 50_000;
  previous_day_high = none;
  previous_day_low = none;
  opening_range_high_15m = none;
  opening_range_low_15m = none;
  opening_range_high_30m = none;
  opening_range_low_30m = none;
  atr = none;
  bid = some (micros 999_900_000);
  ask = some (micros 1_000_100_000);
  candles_1m = candle 3 996 100 ∷ candle 2 997 100 ∷ candle 1 998 100 ∷ candle 0 1_000 200 ∷ [];
  candles_3m = candle 0 1_000 500 ∷ [];
  candles_5m = candle 0 1_000 700 ∷ [];
  index_trend = some (micros 5_000);
  sector_trend = some (micros 5_000);
  market_breadth = none;
  gap_pct = none;
  feed_connected = true;
  source = "test";
  raw = Fields.end;
}

abbrev pub library : Library Micros
library = record { reread = λ o. ok o; describe = λ e. "error" }

abbrev pub orchestrator : AgenticOrchestrator Micros
orchestrator = record {
  settings = settings;
  config = agentic_config_from_settings settings;
  library = library;
  to_float = λ value. none;
}

abbrev pub pipeline : Pipeline Micros
pipeline = record {
  config = config;
  reviewer = reviewer_of orchestrator;
  symbols = nifty_50_symbols;
}

abbrev pub draws : Draws Micros
draws = record {
  signal_id = "signal";
  order_id = "order";
  position_id = "position";
  order_moment = moment;
  critic_ms = rupees 10;
  audit_ms = rupees 10;
  execution_ms = rupees 10;
}

abbrev with_draws : List (Strategy Micros) → List (Strategy Micros × Draws Micros)
with_draws [] = []
with_draws (s ∷ ss) = (s, draws) ∷ with_draws ss

abbrev pub call_at : MarketDataSnapshot Micros → SnapshotCall Micros
call_at s = record {
  snapshot = s;
  risk_state = none;
  now = moment;
  regime_ms = rupees 10;
  strategies = with_draws default_strategies;
}

abbrev pub call : SnapshotCall Micros
call = call_at rising_market

-- a feed that is not connected
abbrev pub dead_call : SnapshotCall Micros
dead_call = call_at (record rising_market { feed_connected = false })

abbrev pub empty_state : PipelineState Micros
empty_state = record { positions = []; journal = []; kill_switch = reset_switch }

abbrev pub halted_state : PipelineState Micros
halted_state = record {
  positions = [];
  journal = [];
  kill_switch = record {
    triggered = true;
    reasons = "daily_loss_limit_hit" ∷ [];
    manual_reset_required = true;
  };
}

abbrev pub context : Context Micros
context = context_of pipeline call (assess_snapshot pipeline call empty_state)

abbrev pub first_run : Run Micros
first_run = started pipeline call empty_state (assess_snapshot pipeline call empty_state)

-- a long signal of that market, with a stop at 990 and a target at 1020
abbrev pub signal : Signal Micros
signal = record {
  signal_id = "signal";
  symbol = "RELIANCE";
  market = Market.india;
  direction = Direction.long;
  strategy_name = "VWAP_TREND_LONG";
  regime_at_signal = MarketRegime.strong_bullish;
  entry_price = rupees 1_000;
  stop_loss = rupees 990;
  target_price = rupees 1_020;
  risk_reward_ratio = rupees 2;
  confidence_score = micros 720_000;
  reason_codes = "price_above_vwap" ∷ "volume_confirmation" ∷ [];
  invalidation_rules = [];
  timestamp = moment;
  candle_snapshot = none;
  market_snapshot = record {
    market = Market.india;
    symbol = "RELIANCE";
    last_price = rupees 1_000;
    vwap = some (rupees 996);
    volume = rupees 50_000;
    regime = MarketRegime.strong_bullish;
    regime_reasons = "sector_up" ∷ [];
    spread_pct = some (micros 200);
  };
}

abbrev pub scored_of : Signal Micros → ScoredSignal Micros
scored_of s = record {
  signal = s;
  score = pos 85;
  decision = SignalDecision.valid;
  reasons = "score_valid" ∷ [];
  component_scores = [];
}

abbrev pub no_trades : ShadowRiskState Micros
no_trades = record {
  daily_realized_pnl = rupees 0;
  weekly_realized_pnl = rupees 0;
  trades_today = pos 0;
  consecutive_losses = pos 0;
  open_positions = [];
}

abbrev pub question : RiskQuestion Micros
question = record {
  scored = scored_of signal;
  data_quality = record { is_ok = true; reasons = []; metrics = [] };
  state = no_trades;
  current_regime = some MarketRegime.strong_bullish;
}

-- 0.25 % of the capital over a stop 10 away: 125 shares
abbrev pub approval : RiskApproval Micros
approval = conclude_approval config question (pos 125) []

abbrev pub position : VirtualPosition Micros
position =
    opened_virtual_position "position" signal
      (filled_order config "order" moment signal (pos 125) rising_market) (rupees 1_000)

abbrev pub book : Positions Micros
book = ("position", position) ∷ []
