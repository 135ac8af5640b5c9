-- ===== src/Intraday/Models.antt =====
-- app/intraday/models.py: snapshots, signals, approvals, shadow orders and virtual positions.
mod Enums
use trading_ai_alpha_agent.Prelude.{
  String, ℕ, Bool, true, false, List, Option, none, some, if◌then◌else◌,
}
use trading_ai_alpha_agent.Prelude.Int.{ℤ}
use trading_ai_alpha_agent.Prelude.Text.{Dict}
use trading_ai_alpha_agent.Prelude.Float.{Float, ◌-◌, ◌≤?◌, ◌<?◌, of_ℕ, max, abs}
use trading_ai_alpha_agent.Core.Enums.{Market}
use trading_ai_alpha_agent.Schemas.Json.{Fields}
use trading_ai_alpha_agent.Paper.Symbols.{upper}
unfoldable pub use Enums.*

pub record Candle (R : Type 0) : Type 0 where
  pub timestamp : ℕ
  pub open_price : R
  pub high : R
  pub low : R
  pub close : R
  pub volume : R

pub record MarketDataSnapshot (R : Type 0) : Type 0 where
  pub market : Market
  pub symbol : String
  -- the moment of `timestamp`, and the offset from UTC of the zone that it carries
  pub timestamp : ℕ
  pub utc_offset : ℕ
  pub last_price : R
  pub vwap : Option R
  pub volume : R
  pub previous_day_high : Option R
  pub previous_day_low : Option R
  pub opening_range_high_15m : Option R
  pub opening_range_low_15m : Option R
  pub opening_range_high_30m : Option R
  pub opening_range_low_30m : Option R
  pub atr : Option R
  pub bid : Option R
  pub ask : Option R
  pub candles_1m : List (Candle R)
  pub candles_3m : List (Candle R)
  pub candles_5m : List (Candle R)
  pub index_trend : Option R
  pub sector_trend : Option R
  pub market_breadth : Option R
  pub gap_pct : Option R
  pub feed_connected : Bool
  pub source : String
  pub raw : Fields

-- a value of a dictionary of metrics: a number, a count, a flag, or `None`
pub data MetricValue (R : Type 0) : Type 0 where
  number : R → MetricValue R
  count : ℤ → MetricValue R
  flag : Bool → MetricValue R
  missing : MetricValue R

abbrev pub metric_or_missing : {R : Type 0} → Option R → MetricValue R
metric_or_missing none = MetricValue.missing
metric_or_missing (some x) = MetricValue.number x

pub record DataQualityReport (R : Type 0) : Type 0 where
  pub is_ok : Bool
  pub reasons : List String
  pub metrics : Dict (MetricValue R)

-- the dictionary that `_market_snapshot` of the strategies builds
pub record SignalMarket (R : Type 0) : Type 0 where
  pub market : Market
  pub symbol : String
  pub last_price : R
  pub vwap : Option R
  pub volume : R
  pub regime : MarketRegime
  pub regime_reasons : List String
  pub spread_pct : Option R

pub record Signal (R : Type 0) : Type 0 where
  pub signal_id : String
  pub symbol : String
  pub market : Market
  pub direction : Direction
  pub strategy_name : String
  pub regime_at_signal : MarketRegime
  pub entry_price : R
  pub stop_loss : R
  pub target_price : R
  pub risk_reward_ratio : R
  pub confidence_score : R
  pub reason_codes : List String
  pub invalidation_rules : List String
  pub timestamp : ℕ
  pub candle_snapshot : Option (Candle R)
  pub market_snapshot : SignalMarket R

pub record ScoredSignal (R : Type 0) : Type 0 where
  pub signal : Signal R
  pub score : ℤ
  pub decision : SignalDecision
  pub reasons : List String
  pub component_scores : Dict ℕ

pub record RiskApproval (R : Type 0) : Type 0 where
  pub approved : Bool
  pub quantity : ℤ
  pub risk_amount : R
  pub capital_required : R
  pub rejection_reasons : List String
  pub metrics : Dict (MetricValue R)

pub record ShadowOrder (R : Type 0) : Type 0 where
  pub shadow_order_id : String
  pub signal_id : String
  pub symbol : String
  pub direction : Direction
  pub expected_entry : R
  pub simulated_fill : Option R
  pub quantity : ℤ
  pub slippage : R
  pub spread : R
  pub latency_ms : ℕ
  pub fill_status : FillStatus
  pub rejection_reason : Option String
  pub timestamp : ℕ

pub record VirtualPosition (R : Type 0) : Type 0 where
  pub position_id : String
  pub symbol : String
  pub market : Market
  pub direction : Direction
  pub strategy : String
  pub regime_at_entry : MarketRegime
  pub entry_price : R
  pub stop_loss : R
  pub target_price : R
  pub quantity : ℤ
  pub risk_amount : R
  pub status : VirtualPositionStatus
  pub entry_reason : List String
  pub opened_at : ℕ
  pub current_price : R
  pub current_pnl : R
  pub gross_pnl : R
  pub net_pnl : R
  pub charges : R
  pub max_favorable_excursion : R
  pub max_adverse_excursion : R
  pub exit_reason : Option String
  pub closed_at : Option ℕ

-- what `Signal.create` is given
pub record SignalDraft (R : Type 0) : Type 0 where
  pub symbol : String
  pub market : Market
  pub direction : Direction
  pub strategy_name : String
  pub regime_at_signal : MarketRegime
  pub entry_price : R
  pub stop_loss : R
  pub target_price : R
  pub confidence_score : R
  pub reason_codes : List String
  pub invalidation_rules : List String
  pub candle_snapshot : Option (Candle R)
  pub market_snapshot : SignalMarket R
  pub timestamp : ℕ

module _ {R : Type 0} ⦃f : Float R⦄ where
  abbrev spread_of : Option R → Option R → R → Option R
  spread_of none ask last = none
  spread_of (some bid) none last = none
  spread_of (some bid) (some ask) last =
      if last ≤? of_ℕ 0 then none else some (f.quotient (max (ask - bid) (of_ℕ 0)) last)

  -- `MarketDataSnapshot.spread_pct`
  unfoldable pub snapshot_spread_pct : MarketDataSnapshot R → Option R
  snapshot_spread_pct s = spread_of s.bid s.ask s.last_price

  -- `reward / risk if risk > 0 else 0.0`
  abbrev pub ratio_of : R → R → R
  ratio_of reward risk = if of_ℕ 0 <? risk then f.quotient reward risk else of_ℕ 0

  -- `Signal.create`
  unfoldable pub create_signal : String → SignalDraft R → Signal R
  unfolding upper
  create_signal id d = record {
    signal_id = id;
    symbol = upper d.symbol;
    market = d.market;
    direction = d.direction;
    strategy_name = d.strategy_name;
    regime_at_signal = d.regime_at_signal;
    entry_price = d.entry_price;
    stop_loss = d.stop_loss;
    target_price = d.target_price;
    risk_reward_ratio =
        ratio_of (abs (d.target_price - d.entry_price)) (abs (d.entry_price - d.stop_loss));
    confidence_score = d.confidence_score;
    reason_codes = d.reason_codes;
    invalidation_rules = d.invalidation_rules;
    timestamp = d.timestamp;
    candle_snapshot = d.candle_snapshot;
    market_snapshot = d.market_snapshot;
  }
