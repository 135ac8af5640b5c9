-- ===== src/Intraday/Quality.antt =====
-- app/intraday/market_data.py: the monitor of the data's quality, and the ranges, the average and the
-- true range of candles. The builder, which reads a provider's payload, is not modelled.
use Prim.Native.Nat.{◌*◌ as times, ◌-◌ as minus}
use trading_ai_alpha_agent.Prelude.{
  String, ℕ, suc, Bool, true, false, not, ◌||◌, ◌&&◌, List, [], ◌∷◌, Option, none, some, map,
  raised, length, ltb, leb, if◌then◌else◌,
}
use trading_ai_alpha_agent.Prelude.Int.{pos, sub_ℕ}
use trading_ai_alpha_agent.Prelude.Dedupe.{from_keys}
use trading_ai_alpha_agent.Prelude.Float.{Float, ◌+◌, ◌*◌, ◌<?◌, ◌≤?◌, of_ℕ, of_ℤ, min, max}
use trading_ai_alpha_agent.Intraday.Config.{IntradayShadowConfig}
use trading_ai_alpha_agent.Intraday.Models.{
  Candle, MarketDataSnapshot, MetricValue, metric_or_missing, DataQualityReport,
  snapshot_spread_pct,
}

abbrev pub none_of : {A : Type 0} → List A → Bool
none_of [] = true
none_of (x ∷ xs) = false

abbrev pub take : {A : Type 0} → ℕ → List A → List A
take n [] = []
take Prim.Native.Nat.zero (x ∷ xs) = []
take (suc n) (x ∷ xs) = x ∷ take n xs

module _ {R : Type 0} where
  -- `sorted(candles, key=lambda candle: candle.timestamp)`, which is stable
  insert_candle : Candle R → List (Candle R) → List (Candle R)
  insert_candle c [] = c ∷ []
  insert_candle c (d ∷ ds) =
      let rest = insert_candle c ds in if leb c.timestamp d.timestamp then c ∷ d ∷ ds else d ∷ rest

  sorted_candles : List (Candle R) → List (Candle R)
  unfolding insert_candle
  sorted_candles [] = []
  sorted_candles (c ∷ cs) = insert_candle c (sorted_candles cs)

  -- more than `expected_seconds * 1.5` between neighbours, in microseconds
  has_gap : ℕ → List (Candle R) → Bool
  has_gap expected [] = false
  has_gap expected (c ∷ []) = false
  has_gap expected (c ∷ d ∷ ds) =
      let rest = has_gap expected (d ∷ ds) in
      ltb (times expected 3_000_000) (times (minus d.timestamp c.timestamp) 2) || rest

  -- `_has_missing_candles`
  unfoldable pub has_missing_candles : ℕ → List (Candle R) → Bool
  unfolding sorted_candles has_gap
  has_missing_candles expected candles = has_gap expected (sorted_candles candles)

module _ {R : Type 0} ⦃f : Float R⦄ where
  abbrev pub too_wide : IntradayShadowConfig R → Option R → Bool
  too_wide config none = false
  too_wide config (some spread) = config.max_spread_pct <? spread

  abbrev pub crossed : Option R → Option R → Bool
  crossed (some bid) (some ask) = ask <? bid
  crossed none ask = false
  crossed (some bid) none = false

  abbrev pub age_seconds : MarketDataSnapshot R → ℕ → R
  age_seconds s now = f.quotient (of_ℤ (sub_ℕ now s.timestamp)) (of_ℕ 1_000_000)

  abbrev pub quality_checks :
      IntradayShadowConfig R → MarketDataSnapshot R → ℕ → List (Bool × String)
  quality_checks config s now =
      (of_ℕ config.max_data_age_seconds <? age_seconds s now, "stale_data")
      ∷ (s.last_price ≤? of_ℕ 0, "abnormal_price")
      ∷ (s.volume ≤? of_ℕ 0, "abnormal_volume")
      ∷ (not s.feed_connected, "feed_disconnected")
      ∷ (not (none_of s.candles_1m) && has_missing_candles 60 s.candles_1m, "missing_1m_candle")
      ∷ (none_of s.candles_1m, "missing_1m_candles")
      ∷ (none_of s.candles_3m, "missing_3m_candles")
      ∷ (none_of s.candles_5m, "missing_5m_candles")
      ∷ (too_wide config (snapshot_spread_pct s), "spread_too_wide")
      ∷ (crossed s.bid s.ask, "invalid_bid_ask")
      ∷ []

  -- `DataQualityMonitor.check`
  unfoldable pub check_quality :
      IntradayShadowConfig R → MarketDataSnapshot R → ℕ → DataQualityReport R
  unfolding from_keys snapshot_spread_pct
  check_quality config s now =
      let reasons = raised (quality_checks config s now) in
      record {
        is_ok = none_of reasons;
        reasons = from_keys [] reasons;
        metrics =
            ("last_price", MetricValue.number s.last_price)
            ∷ ("volume", MetricValue.number s.volume)
            ∷ ("spread_pct", metric_or_missing (snapshot_spread_pct s))
            ∷ ("feed_connected", MetricValue.flag s.feed_connected)
            ∷ ("candles_1m", MetricValue.count (pos (length s.candles_1m)))
            ∷ ("candles_3m", MetricValue.count (pos (length s.candles_3m)))
            ∷ ("candles_5m", MetricValue.count (pos (length s.candles_5m)))
            ∷ ("age_seconds", MetricValue.number (age_seconds s now))
            ∷ [];
      }

  abbrev sum_from : R → List R → R
  sum_from total [] = total
  sum_from total (x ∷ xs) = sum_from (total + x) xs

  abbrev sum_of : List R → R
  sum_of xs = sum_from (of_ℕ 0) xs

  abbrev typical : Candle R → R
  typical c = f.quotient (c.high + c.low + c.close) (of_ℕ 3)

  -- `calculate_vwap`
  unfoldable pub calculate_vwap : List (Candle R) → Option R
  calculate_vwap candles =
      let total = sum_of (map (λ c. c.volume) candles) in
      if of_ℕ 0 <? total
      then some (f.quotient (sum_of (map (λ c. typical c * c.volume) candles)) total)
      else none

  abbrev max_from : R → List R → R
  max_from best [] = best
  max_from best (x ∷ xs) = max_from (max best x) xs

  abbrev min_from : R → List R → R
  min_from best [] = best
  min_from best (x ∷ xs) = min_from (min best x) xs

  -- `max(values, default=None)`, of the first candles
  abbrev highest : List R → Option R
  highest [] = none
  highest (x ∷ xs) = some (max_from x xs)

  abbrev lowest : List R → Option R
  lowest [] = none
  lowest (x ∷ xs) = some (min_from x xs)

  -- `_range_high`
  unfoldable pub range_high : List (Candle R) → ℕ → Option R
  range_high candles count = highest (map (λ c. c.high) (take count candles))

  -- `_range_low`
  unfoldable pub range_low : List (Candle R) → ℕ → Option R
  range_low candles count = lowest (map (λ c. c.low) (take count candles))
