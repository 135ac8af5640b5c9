-- ===== src/Intraday/Strategies.antt =====
-- app/intraday/strategies.py: the strategies that propose a signal for a snapshot.
use trading_ai_alpha_agent.Prelude.{
  String, Bool, false, not, ◌&&◌, ◌||◌, List, [], ◌∷◌, Option, none, some, ltb, if◌then◌else◌,
}
use trading_ai_alpha_agent.Prelude.Int.{pos, negsuc}
use trading_ai_alpha_agent.Prelude.Float.{
  Float, ◌+◌, ◌-◌, ◌*◌, ◌<?◌, ◌≤?◌, of_ℕ, decimal, min, max, abs, round,
}
use trading_ai_alpha_agent.Intraday.Clock.{time_of_day}
use trading_ai_alpha_agent.Intraday.Models.{
  Direction, is_bullish, is_bearish, is_sideways, Candle, MarketDataSnapshot, SignalMarket,
  SignalDraft, snapshot_spread_pct,
}
use trading_ai_alpha_agent.Intraday.Regime.{RegimeResult, truthy}

abbrev onto : {A : Type 0} → List A → List A → List A
onto [] ys = ys
onto (x ∷ xs) ys = onto xs (x ∷ ys)

-- the candles, the latest first
abbrev pub newest : {A : Type 0} → List A → List A
newest xs = onto xs []

abbrev first : {A : Type 0} → List A → Option A
first [] = none
first (x ∷ xs) = some x

-- `if snapshot.vwap is None: return None`
abbrev pub at_average : {A B : Type 0} → (A → Option B) → Option A → Option B
at_average next none = none
at_average next (some vwap) = next vwap

module _ {R : Type 0} ⦃f : Float R⦄ where
  -- `a` is the earliest of the three
  abbrev rises : Candle R → Candle R → Candle R → Bool
  rises a b c = (a.high ≤? b.high) && ((b.high ≤? c.high) && ((a.low ≤? b.low) && (b.low ≤? c.low)))

  abbrev falls : Candle R → Candle R → Candle R → Bool
  falls a b c = (b.high ≤? a.high) && ((c.high ≤? b.high) && ((b.low ≤? a.low) && (c.low ≤? b.low)))

  abbrev of_latest_three : (Candle R → Candle R → Candle R → Bool) → List (Candle R) → Bool
  of_latest_three test (c ∷ b ∷ a ∷ older) = test a b c
  of_latest_three test _ = false

  -- `_higher_high_higher_low` and `_lower_high_lower_low`
  unfoldable pub higher_high_higher_low : List (Candle R) → Bool
  higher_high_higher_low candles = of_latest_three rises (newest candles)

  unfoldable pub lower_high_lower_low : List (Candle R) → Bool
  lower_high_lower_low candles = of_latest_three falls (newest candles)

  abbrev confirms : List (Candle R) → Bool
  confirms (d ∷ c ∷ b ∷ a ∷ older) =
      let baseline = f.quotient (of_ℕ 0 + a.volume + b.volume + c.volume) (of_ℕ 3) in
      if of_ℕ 0 <? baseline then baseline * decimal (pos 11) 1 ≤? d.volume else false
  confirms _ = false

  -- `_volume_confirmation`
  unfoldable pub volume_confirmation : List (Candle R) → Bool
  volume_confirmation candles = confirms (newest candles)

  -- `_near_level`
  unfoldable pub near_level : R → R → R → Bool
  near_level price level max_pct =
      if (price ≤? of_ℕ 0) || (level ≤? of_ℕ 0)
      then false
      else f.quotient (abs (price - level)) price ≤? max_pct

  -- `_market_snapshot`
  unfoldable pub market_of : MarketDataSnapshot R → RegimeResult R → SignalMarket R
  unfolding snapshot_spread_pct
  market_of s regime = record {
    market = s.market;
    symbol = s.symbol;
    last_price = s.last_price;
    vwap = s.vwap;
    volume = s.volume;
    regime = regime.regime;
    regime_reasons = regime.reasons;
    spread_pct = snapshot_spread_pct s;
  }

  -- The signal at the last price that a strategy gives, a stop being chosen: the target stands twice
  -- as far away on the other side. There is none where the stop is not on its side of the price.
  abbrev pub reach : Direction → R → R → R
  reach Direction.long price stop = price - stop
  reach Direction.short price stop = stop - price

  abbrev pub target_of : Direction → R → R → R
  target_of Direction.long price risk = price + risk * of_ℕ 2
  target_of Direction.short price risk = price - risk * of_ℕ 2

  abbrev pub draft_of :
      Direction
      → String
      → R
      → List String
      → List String
      → MarketDataSnapshot R
      → RegimeResult R
      → R
      → Option (SignalDraft R)
  draft_of direction name confidence reasons rules s regime stop =
      let risk = reach direction s.last_price stop in
      if risk ≤? of_ℕ 0
      then none
      else some (record {
        symbol = s.symbol;
        market = s.market;
        direction = direction;
        strategy_name = name;
        regime_at_signal = regime.regime;
        entry_price = s.last_price;
        stop_loss = round stop 2;
        target_price = round (target_of direction s.last_price risk) 2;
        confidence_score = confidence;
        reason_codes = reasons;
        invalidation_rules = rules;
        candle_snapshot = first (newest s.candles_1m);
        market_snapshot = market_of s regime;
        timestamp = s.timestamp;
      })

  -- `trend is not None and trend < -0.001`, and `> 0.001`
  abbrev trend_falls : Option R → Bool
  trend_falls none = false
  trend_falls (some x) = x <? decimal (negsuc 0) 3

  abbrev trend_rises : Option R → Bool
  trend_rises none = false
  trend_rises (some x) = decimal (pos 1) 3 <? x

  -- the low and the high of `candles_1m[-2]`, or the average
  abbrev low_before : R → List (Candle R) → R
  low_before vwap (latest ∷ c ∷ older) = c.low
  low_before vwap _ = vwap

  abbrev high_before : R → List (Candle R) → R
  high_before vwap (latest ∷ c ∷ older) = c.high
  high_before vwap _ = vwap

  abbrev pub long_near : R → MarketDataSnapshot R → RegimeResult R → Option (SignalDraft R)
  long_near vwap s regime =
      if (s.last_price ≤? vwap)
        || (trend_falls s.sector_trend
            || (not (higher_high_higher_low s.candles_1m)
                || (not (volume_confirmation s.candles_1m)
                    || not (near_level s.last_price vwap (decimal (pos 8) 3)))))
      then none
      else draft_of Direction.long "VWAP_TREND_LONG" (decimal (pos 72) 2)
          ("bullish_regime" ∷ "price_above_vwap" ∷ "higher_high_higher_low" ∷ "volume_confirmation"
            ∷ "pullback_near_vwap" ∷ [])
          ("price_closes_below_vwap" ∷ "regime_turns_bearish" ∷ []) s regime
          (min vwap (low_before vwap (newest s.candles_1m)))

  -- `VWAPTrendLongStrategy.generate`
  unfoldable pub vwap_trend_long : MarketDataSnapshot R → RegimeResult R → Option (SignalDraft R)
  unfolding higher_high_higher_low volume_confirmation near_level market_of
  vwap_trend_long s regime =
      if is_bullish regime.regime then at_average (λ vwap. long_near vwap s regime) s.vwap else none

  abbrev pub short_near : R → MarketDataSnapshot R → RegimeResult R → Option (SignalDraft R)
  short_near vwap s regime =
      if (vwap ≤? s.last_price)
        || (trend_rises s.sector_trend
            || (not (lower_high_lower_low s.candles_1m)
                || (not (volume_confirmation s.candles_1m)
                    || not (near_level s.last_price vwap (decimal (pos 8) 3)))))
      then none
      else draft_of Direction.short "VWAP_TREND_SHORT" (decimal (pos 70) 2)
          ("bearish_regime" ∷ "price_below_vwap" ∷ "lower_high_lower_low" ∷ "volume_confirmation"
            ∷ "pullback_failure_near_vwap" ∷ [])
          ("price_closes_above_vwap" ∷ "regime_turns_bullish" ∷ []) s regime
          (max vwap (high_before vwap (newest s.candles_1m)))

  -- `VWAPTrendShortStrategy.generate`
  unfoldable pub vwap_trend_short : MarketDataSnapshot R → RegimeResult R → Option (SignalDraft R)
  unfolding lower_high_lower_low volume_confirmation near_level market_of
  vwap_trend_short s regime =
      if is_bearish regime.regime
      then at_average (λ vwap. short_near vwap s regime) s.vwap
      else none

  -- `level and price > level`, and with `<`
  abbrev breaks_above : R → Option R → Bool
  breaks_above price level = elim (truthy level) [ none ↦ false | some x ↦ x <? price ]

  abbrev breaks_below : R → Option R → Bool
  breaks_below price level = elim (truthy level) [ none ↦ false | some x ↦ price <? x ]

  -- `level or vwap or last_price`
  abbrev stop_at : Option R → MarketDataSnapshot R → R
  stop_at level s = elim (truthy level) [
    | some x ↦ x
    | none ↦ elim (truthy s.vwap) [ some x ↦ x | none ↦ s.last_price ]
  ]

  abbrev pub breaks_out : MarketDataSnapshot R → RegimeResult R → Bool
  breaks_out s regime =
      breaks_above s.last_price s.opening_range_high_15m
      && (is_bullish regime.regime && volume_confirmation s.candles_1m)

  abbrev pub breaks_down : MarketDataSnapshot R → RegimeResult R → Bool
  breaks_down s regime =
      breaks_below s.last_price s.opening_range_low_15m
      && (is_bearish regime.regime && volume_confirmation s.candles_1m)

  abbrev pub breakout_draft : MarketDataSnapshot R → RegimeResult R → Option (SignalDraft R)
  breakout_draft s regime =
      draft_of Direction.long "OPENING_RANGE_BREAKOUT_BREAKDOWN" (decimal (pos 73) 2)
        ("opening_range_breakout" ∷ "bullish_regime" ∷ "volume_confirmation" ∷ [])
        ("falls_back_inside_opening_range" ∷ []) s regime (stop_at s.opening_range_low_15m s)

  abbrev pub breakdown_draft : MarketDataSnapshot R → RegimeResult R → Option (SignalDraft R)
  breakdown_draft s regime =
      draft_of Direction.short "OPENING_RANGE_BREAKOUT_BREAKDOWN" (decimal (pos 73) 2)
        ("opening_range_breakdown" ∷ "bearish_regime" ∷ "volume_confirmation" ∷ [])
        ("reclaims_opening_range" ∷ []) s regime (stop_at s.opening_range_high_15m s)

  abbrev pub breakout : MarketDataSnapshot R → RegimeResult R → Option (SignalDraft R)
  breakout s regime =
      if breaks_out s regime
      then breakout_draft s regime
      else if breaks_down s regime
      then breakdown_draft s regime
      else none

  -- `OpeningRangeBreakoutStrategy.generate`: 9:20 is 33,600 seconds into the day.
  unfoldable pub opening_range_breakout :
      Bool → MarketDataSnapshot R → RegimeResult R → Option (SignalDraft R)
  unfolding volume_confirmation market_of
  opening_range_breakout allow_first_five_minutes s regime =
      if not allow_first_five_minutes
        && ltb (time_of_day (record { moment = s.timestamp; utc_offset = s.utc_offset }))
            33_600_000_000
      then none
      else if is_sideways regime.regime
      then none
      else breakout s regime
