-- ===== src/Intraday/Regime.antt =====
-- app/intraday/regime.py: the regime of the market, from the votes of trends and levels.
use trading_ai_alpha_agent.Prelude.{
  String, ℕ, Bool, false, not, ◌&&◌, List, [], ◌∷◌, ◌++◌, Option, none, some, map, count_if, ltb,
  leb, ◌==◌, if◌then◌else◌,
}
use trading_ai_alpha_agent.Prelude.Int.{pos}
use trading_ai_alpha_agent.Prelude.Text.{Dict}
use trading_ai_alpha_agent.Prelude.Float.{Float, ◌<?◌, ◌≤?◌, ◌=?◌, of_ℕ, decimal, negate}
use trading_ai_alpha_agent.Intraday.Config.{IntradayShadowConfig}
use trading_ai_alpha_agent.Intraday.Models.{
  Direction, is_long, is_short, MarketRegime, MarketDataSnapshot, MetricValue, metric_or_missing,
  snapshot_spread_pct,
}
use trading_ai_alpha_agent.Intraday.Quality.{too_wide}

pub record RegimeResult (R : Type 0) : Type 0 where
  pub regime : MarketRegime
  pub reasons : List String
  pub metrics : Dict (MetricValue R)

-- a vote for a rising or for a falling market, with its reason
abbrev pub Vote : Type 0
Vote = Direction × String

abbrev pub bullish_votes : List Vote → ℕ
bullish_votes votes = count_if (λ v. is_long v.0) votes

abbrev pub bearish_votes : List Vote → ℕ
bearish_votes votes = count_if (λ v. is_short v.0) votes

-- `reasons or ["mixed_market"]`
abbrev or_mixed : List String → List String
or_mixed [] = "mixed_market" ∷ []
or_mixed (r ∷ rs) = r ∷ rs

-- the last five returns of `classify`
abbrev pub regime_of : List Vote → MarketRegime
regime_of votes =
    if leb 3 (bullish_votes votes) && (bearish_votes votes == 0)
    then MarketRegime.strong_bullish
    else if leb 3 (bearish_votes votes) && (bullish_votes votes == 0)
    then MarketRegime.strong_bearish
    else if ltb (bearish_votes votes) (bullish_votes votes)
    then MarketRegime.weak_bullish
    else if ltb (bullish_votes votes) (bearish_votes votes)
    then MarketRegime.weak_bearish
    else MarketRegime.sideways

abbrev reasons_of : List Vote → List String
reasons_of votes =
    let reasons = map (λ v. v.1) votes in
    if bullish_votes votes == bearish_votes votes then or_mixed reasons else reasons

module _ {R : Type 0} ⦃f : Float R⦄ where
  -- the value of an optional number that is true in Python: there, and not zero
  abbrev pub truthy : Option R → Option R
  truthy none = none
  truthy (some x) = if x =? of_ℕ 0 then none else some x

  abbrev pub vote_beyond : R → R → R → String → String → List Vote
  vote_beyond x up down high low =
      if up <? x
      then (Direction.long, high) ∷ []
      else if x <? down
      then (Direction.short, low) ∷ []
      else []

  -- `if trend is not None: if trend > limit: ... elif trend < -limit: ...`
  abbrev pub trend_votes : Option R → R → String → String → List Vote
  trend_votes none limit high low = []
  trend_votes (some trend) limit high low = vote_beyond trend limit (negate limit) high low

  abbrev pub level_votes : Option R → R → List Vote
  level_votes none last = []
  level_votes (some vwap) last = vote_beyond last vwap vwap "price_above_vwap" "price_below_vwap"

  abbrev above_range : Option R → R → List Vote
  above_range none last = []
  above_range (some high) last =
      if high <? last then (Direction.long, "above_opening_range") ∷ [] else []

  abbrev below_range : Option R → R → List Vote
  below_range none last = []
  below_range (some low) last =
      if last <? low then (Direction.short, "below_opening_range") ∷ [] else []

  abbrev pub votes_of : MarketDataSnapshot R → List Vote
  votes_of s =
      trend_votes s.index_trend (decimal (pos 2) 3) "index_up" "index_down"
      ++ (trend_votes s.sector_trend (decimal (pos 1) 3) "sector_up" "sector_down"
          ++ (level_votes s.vwap s.last_price
              ++ (above_range (truthy s.opening_range_high_15m) s.last_price
                  ++ (below_range (truthy s.opening_range_low_15m) s.last_price
                      ++ trend_votes s.gap_pct (decimal (pos 4) 3) "gap_up" "gap_down"))))

  abbrev ratio_if : Option R → Option R → Option R
  ratio_if (some atr) (some last) = some (f.quotient atr last)
  ratio_if (some atr) none = none
  ratio_if none last = none

  -- `(snapshot.atr / snapshot.last_price) if snapshot.atr and snapshot.last_price else None`
  abbrev pub atr_pct : MarketDataSnapshot R → Option R
  atr_pct s = ratio_if (truthy s.atr) (truthy (some s.last_price))

  abbrev above_level : Option R → R → Bool
  above_level none last = false
  above_level (some vwap) last = vwap <? last

  abbrev below_level : Option R → R → Bool
  below_level none last = false
  below_level (some vwap) last = last <? vwap

  abbrev initial_metrics : MarketDataSnapshot R → Dict (MetricValue R)
  initial_metrics s =
      ("index_trend", metric_or_missing s.index_trend)
      ∷ ("sector_trend", metric_or_missing s.sector_trend)
      ∷ ("market_breadth", metric_or_missing s.market_breadth)
      ∷ ("gap_pct", metric_or_missing s.gap_pct)
      ∷ ("atr_pct", metric_or_missing (atr_pct s))
      ∷ ("volume", MetricValue.number s.volume)
      ∷ ("above_vwap", MetricValue.flag (above_level s.vwap s.last_price))
      ∷ ("below_vwap", MetricValue.flag (below_level s.vwap s.last_price))
      ∷ []

  abbrev vote_metrics : List Vote → Dict (MetricValue R)
  vote_metrics votes =
      ("bullish_votes", MetricValue.count (pos (bullish_votes votes)))
      ∷ ("bearish_votes", MetricValue.count (pos (bearish_votes votes)))
      ∷ []

  abbrev pub panics : IntradayShadowConfig R → Option R → Bool
  panics config none = false
  panics config (some pct) = (decimal (pos 25) 3 <? pct) && not config.allow_high_volatility_trades

  -- `MarketRegimeClassifier.classify`
  unfoldable pub classify : IntradayShadowConfig R → MarketDataSnapshot R → RegimeResult R
  unfolding snapshot_spread_pct is_long is_short
  classify config s =
      if s.volume ≤? of_ℕ 0
      then record {
        regime = MarketRegime.low_liquidity;
        reasons = "volume_missing" ∷ [];
        metrics = initial_metrics s;
      }
      else if too_wide config (snapshot_spread_pct s)
      then record {
        regime = MarketRegime.low_liquidity;
        reasons = "spread_too_wide" ∷ [];
        metrics = initial_metrics s;
      }
      else if panics config (atr_pct s)
      then record {
        regime = MarketRegime.high_volatility;
        reasons = "atr_panic_zone" ∷ [];
        metrics = initial_metrics s;
      }
      else record {
        regime = regime_of (votes_of s);
        reasons = reasons_of (votes_of s);
        metrics = initial_metrics s ++ vote_metrics (votes_of s);
      }
