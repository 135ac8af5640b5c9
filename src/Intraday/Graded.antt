-- ===== src/Intraday/Graded.antt =====
-- The bounds of a score, and what it may decide.
use trading_ai_alpha_agent.Prelude.{ℕ, Bool, if◌then◌else◌, true, false, ◌≡◌, ◌≤◌, refl, arith}
use trading_ai_alpha_agent.Prelude.Int.{ℤ, pos, ◌-ℤ◌, ◌≤ℤ◌, leb_ℤ, min_ℤ-le, -ℤ_parts}
use trading_ai_alpha_agent.Prelude.Text.{contains}
use trading_ai_alpha_agent.Prelude.Float.{Float, ◌≤?◌}
use trading_ai_alpha_agent.Intraday.Config.{IntradayShadowConfig}
use trading_ai_alpha_agent.Intraday.Models.{Direction, MarketRegime, SignalDecision, Signal}
use trading_ai_alpha_agent.Intraday.Scoring.{
  any_holds, spread_ok, structure_confirmed, points, regime_points, is_barred, cut_below, decide,
  total_of, components_of, sideways_barred, score_value, score_signal,
}

points_le : (n : ℕ) (b : Bool) → points n b ≤ n
points_le n true = omega arith
points_le n false = omega arith

sector_le : (b : Bool) → (if b then 15 else 8) ≤ 15
sector_le true = omega arith
sector_le false = omega arith

regime_points_le : (d : Direction) (r : MarketRegime) → regime_points d r ≤ 25
regime_points_le Direction.long r = points_le 25 _
regime_points_le Direction.short r = points_le 25 _

cut_below_le : (b : Bool) (watch : ℕ) (score : ℤ) → cut_below b watch score ≤ℤ score
cut_below_le b watch score = ground (arith, (min_ℤ-le score (pos watch -ℤ pos 1)).0)

two_cuts :
    (b c : Bool) (watch n : ℕ) → n ≤ 100 → cut_below b watch (cut_below c watch (pos n)) ≤ℤ pos 100
two_cuts b c watch n h =
    omega (arith, cut_below_le b watch (cut_below c watch (pos n)), cut_below_le c watch (pos n))

cut_below_watch : (watch : ℕ) (score : ℤ) → leb_ℤ (pos watch) (cut_below true watch score) ≡ false
cut_below_watch watch score =
    ground (arith, (min_ℤ-le score (pos watch -ℤ pos 1)).1, -ℤ_parts (pos watch) (pos 1))

leb_ℤ-false :
    (low high : ℕ) (score : ℤ)
    → low ≤ high
    → leb_ℤ (pos low) score ≡ false
    → leb_ℤ (pos high) score ≡ false
leb_ℤ-false low high score h k = ground arith

module _ {R : Type 0} ⦃f : Float R⦄ where
  total_of-components_of :
      (config : IntradayShadowConfig R) (s : Signal R) → total_of (components_of config s) ≤ 100
  unfolding components_of
  total_of-components_of config s = omega (
    arith,
    regime_points_le s.direction s.regime_at_signal,
    points_le 15 (any_holds "vwap" s.reason_codes),
    sector_le (any_holds "sector" s.market_snapshot.regime_reasons),
    points_le 15 (contains "volume_confirmation" s.reason_codes),
    points_le 15 (structure_confirmed s.reason_codes),
    points_le 10 (config.min_reward_to_risk ≤? s.risk_reward_ratio),
    points_le 5 (spread_ok s.market_snapshot.spread_pct),
  )

  -- A score is at most 100.
  pub score_signal_le :
      (config : IntradayShadowConfig R) (s : Signal R) → (score_signal config s).score ≤ℤ pos 100
  unfolding score_signal score_value
  score_signal_le config s =
      two_cuts (is_barred s.regime_at_signal) (sideways_barred config s.regime_at_signal)
        config.watch_score (total_of (components_of config s)) (total_of-components_of config s)

  -- A signal of a regime of high volatility, low liquidity or no trade is rejected, whatever its
  -- points are, where the score to watch is at most the score to trade.
  pub barred_rejected :
      (config : IntradayShadowConfig R) (s : Signal R)
      → config.watch_score ≤ config.min_signal_score
      → is_barred s.regime_at_signal ≡ true
      → (score_signal config s).decision ≡ SignalDecision.rejected
  unfolding score_signal score_value decide
  barred_rejected config s h barred =
      let low : leb_ℤ (pos config.watch_score) (score_value config s) ≡ false =
        rw barred (cut_below_watch config.watch_score _) in
      let lower = leb_ℤ-false config.watch_score config.min_signal_score _ h low in
      rw (lower, low) refl
