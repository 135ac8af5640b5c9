-- ===== src/Intraday/Models/Enums.antt =====
-- The enumerations of app/intraday/models.py, with the tests that the code makes on them.
use trading_ai_alpha_agent.Prelude.{String, ℕ, Bool, true, false}

pub data Direction : Type 0 where
  long short : Direction

unfoldable pub direction_value : Direction → String
direction_value Direction.long = "LONG"
direction_value Direction.short = "SHORT"

unfoldable pub is_long : Direction → Bool
is_long Direction.long = true
is_long Direction.short = false

unfoldable pub is_short : Direction → Bool
is_short Direction.long = false
is_short Direction.short = true

pub data MarketRegime : Type 0 where
  strong_bullish weak_bullish strong_bearish weak_bearish : MarketRegime
  sideways high_volatility low_liquidity no_trade : MarketRegime

unfoldable pub regime_value : MarketRegime → String
regime_value MarketRegime.strong_bullish = "STRONG_BULLISH"
regime_value MarketRegime.weak_bullish = "WEAK_BULLISH"
regime_value MarketRegime.strong_bearish = "STRONG_BEARISH"
regime_value MarketRegime.weak_bearish = "WEAK_BEARISH"
regime_value MarketRegime.sideways = "SIDEWAYS"
regime_value MarketRegime.high_volatility = "HIGH_VOLATILITY"
regime_value MarketRegime.low_liquidity = "LOW_LIQUIDITY"
regime_value MarketRegime.no_trade = "NO_TRADE"

-- the place of a regime in the enumeration
unfoldable pub regime_index : MarketRegime → ℕ
regime_index MarketRegime.strong_bullish = 0
regime_index MarketRegime.weak_bullish = 1
regime_index MarketRegime.strong_bearish = 2
regime_index MarketRegime.weak_bearish = 3
regime_index MarketRegime.sideways = 4
regime_index MarketRegime.high_volatility = 5
regime_index MarketRegime.low_liquidity = 6
regime_index MarketRegime.no_trade = 7

-- `regime in {STRONG_BULLISH, WEAK_BULLISH}`
unfoldable pub is_bullish : MarketRegime → Bool
is_bullish MarketRegime.strong_bullish = true
is_bullish MarketRegime.weak_bullish = true
is_bullish _ = false

-- `regime in {STRONG_BEARISH, WEAK_BEARISH}`
unfoldable pub is_bearish : MarketRegime → Bool
is_bearish MarketRegime.strong_bearish = true
is_bearish MarketRegime.weak_bearish = true
is_bearish _ = false

unfoldable pub is_sideways : MarketRegime → Bool
is_sideways MarketRegime.sideways = true
is_sideways _ = false

unfoldable pub is_high_volatility : MarketRegime → Bool
is_high_volatility MarketRegime.high_volatility = true
is_high_volatility _ = false

pub data SignalDecision : Type 0 where
  valid watch_only rejected : SignalDecision

unfoldable pub decision_value : SignalDecision → String
decision_value SignalDecision.valid = "VALID"
decision_value SignalDecision.watch_only = "WATCH_ONLY"
decision_value SignalDecision.rejected = "REJECTED"

unfoldable pub decision_is_valid : SignalDecision → Bool
decision_is_valid SignalDecision.valid = true
decision_is_valid _ = false

pub data FillStatus : Type 0 where
  filled partial_fill missed rejected : FillStatus

unfoldable pub fill_value : FillStatus → String
fill_value FillStatus.filled = "FILLED"
fill_value FillStatus.partial_fill = "PARTIAL_FILL"
fill_value FillStatus.missed = "MISSED"
fill_value FillStatus.rejected = "REJECTED"

unfoldable pub is_filled : FillStatus → Bool
is_filled FillStatus.filled = true
is_filled _ = false

unfoldable pub is_missed : FillStatus → Bool
is_missed FillStatus.missed = true
is_missed _ = false

pub data VirtualPositionStatus : Type 0 where
  pending_entry opened partial_exit exited stopped_out : VirtualPositionStatus
  target_hit force_closed invalidated : VirtualPositionStatus

unfoldable pub position_is_open : VirtualPositionStatus → Bool
position_is_open VirtualPositionStatus.opened = true
position_is_open _ = false
