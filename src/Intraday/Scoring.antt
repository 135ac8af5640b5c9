-- ===== src/Intraday/Scoring.antt =====
-- app/intraday/scoring.py: the score of a signal and the decision on it.
use Prim.Native.Nat.{◌+◌ as plus}
use text.Mathlib.Text.{find?}
use trading_ai_alpha_agent.Prelude.{
  String, ℕ, Bool, true, false, not, ◌&&◌, ◌||◌, List, [], ◌∷◌, ◌++◌, Option, none, some, raised,
  if◌then◌else◌,
}
use trading_ai_alpha_agent.Prelude.Int.{ℤ, pos, ◌-ℤ◌, leb_ℤ, min_ℤ}
use trading_ai_alpha_agent.Prelude.Dedupe.{from_keys}
use trading_ai_alpha_agent.Prelude.Text.{Dict, contains}
use trading_ai_alpha_agent.Prelude.Float.{Float, ◌<?◌, ◌≤?◌, decimal}
use trading_ai_alpha_agent.Intraday.Config.{IntradayShadowConfig}
use trading_ai_alpha_agent.Intraday.Models.{
  Direction, MarketRegime, is_bullish, is_bearish, is_sideways, SignalDecision, Signal,
  ScoredSignal,
}

-- `needle in text`
abbrev found : Option ℕ → Bool
found none = false
found (some at) = true

unfoldable pub holds_text : String → String → Bool
holds_text needle t = found (find? t needle)

-- `any(needle in reason for reason in reasons)`
unfoldable pub any_holds : String → List String → Bool
unfolding holds_text
any_holds needle [] = false
any_holds needle (r ∷ rs) = holds_text needle r || any_holds needle rs

abbrev pub points : ℕ → Bool → ℕ
points n true = n
points n false = 0

abbrev pub regime_points : Direction → MarketRegime → ℕ
regime_points Direction.long regime = points 25 (is_bullish regime)
regime_points Direction.short regime = points 25 (is_bearish regime)

-- the regimes that a signal is rejected in whatever the settings
abbrev pub is_barred : MarketRegime → Bool
is_barred MarketRegime.high_volatility = true
is_barred MarketRegime.low_liquidity = true
is_barred MarketRegime.no_trade = true
is_barred _ = false

abbrev barred_reasons : MarketRegime → List String
barred_reasons MarketRegime.high_volatility = "high_volatility_reject" ∷ []
barred_reasons MarketRegime.low_liquidity = "low_liquidity_reject" ∷ []
barred_reasons MarketRegime.no_trade = "no_trade_reject" ∷ []
barred_reasons _ = []

-- `min(score, watch_score - 1)`, if the test holds
abbrev pub cut_below : Bool → ℕ → ℤ → ℤ
cut_below test watch score = if test then min_ℤ score (pos watch -ℤ pos 1) else score

-- The decision on a score, in `score` and where the pipeline lowers a score.
unfoldable pub decide : {R : Type 0} → IntradayShadowConfig R → ℤ → SignalDecision
decide config score =
    if leb_ℤ (pos config.min_signal_score) score
    then SignalDecision.valid
    else if leb_ℤ (pos config.watch_score) score
    then SignalDecision.watch_only
    else SignalDecision.rejected

abbrev decision_reason : SignalDecision → String
decision_reason SignalDecision.valid = "score_valid"
decision_reason SignalDecision.watch_only = "score_watch_only"
decision_reason SignalDecision.rejected = "score_rejected"

abbrev pub total_of : Dict ℕ → ℕ
total_of [] = 0
total_of ((name, n) ∷ components) = plus n (total_of components)

abbrev pub structure_confirmed : List String → Bool
structure_confirmed reasons =
    contains "higher_high_higher_low" reasons
    || contains "lower_high_lower_low" reasons
    || contains "opening_range_breakout" reasons
    || contains "opening_range_breakdown" reasons

module _ {R : Type 0} ⦃f : Float R⦄ where
  abbrev pub spread_ok : Option R → Bool
  spread_ok none = true
  spread_ok (some spread) = spread ≤? decimal (pos 3) 3

  unfoldable pub components_of : IntradayShadowConfig R → Signal R → Dict ℕ
  unfolding any_holds
  components_of config s =
      ("regime_alignment", regime_points s.direction s.regime_at_signal)
      ∷ ("vwap_alignment", points 15 (any_holds "vwap" s.reason_codes))
      ∷ ("sector_strength", if any_holds "sector" s.market_snapshot.regime_reasons then 15 else 8)
      ∷ ("volume_confirmation", points 15 (contains "volume_confirmation" s.reason_codes))
      ∷ ("price_structure", points 15 (structure_confirmed s.reason_codes))
      ∷ ("risk_reward_quality", points 10 (config.min_reward_to_risk ≤? s.risk_reward_ratio))
      ∷ ("liquidity_spread_quality", points 5 (spread_ok s.market_snapshot.spread_pct))
      ∷ []

  abbrev pub sideways_barred : IntradayShadowConfig R → MarketRegime → Bool
  sideways_barred config regime = is_sideways regime && not config.allow_sideways_trades

  -- `score` after both cuts
  unfoldable pub score_value : IntradayShadowConfig R → Signal R → ℤ
  unfolding components_of
  score_value config s = cut_below (is_barred s.regime_at_signal) config.watch_score (
      cut_below (sideways_barred config s.regime_at_signal) config.watch_score
        (pos (total_of (components_of config s))))

  abbrev score_reasons : IntradayShadowConfig R → Signal R → ℤ → List String
  score_reasons config s score =
      raised ((sideways_barred config s.regime_at_signal, "sideways_regime_reject") ∷ [])
      ++ (barred_reasons s.regime_at_signal
          ++ (raised (
                (s.risk_reward_ratio <? config.min_reward_to_risk, "risk_reward_below_threshold")
                ∷ [])
              ++ (decision_reason (decide config score) ∷ s.reason_codes)))

  -- `SignalScoringEngine.score`
  unfoldable pub score_signal : IntradayShadowConfig R → Signal R → ScoredSignal R
  unfolding decide score_value components_of from_keys
  score_signal config s = record {
    signal = s;
    score = score_value config s;
    decision = decide config (score_value config s);
    reasons = from_keys [] (score_reasons config s (score_value config s));
    component_scores = components_of config s;
  }
