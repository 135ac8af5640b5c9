-- ===== src/Intraday/Votes.antt =====
-- The regime treats rising and falling markets alike.
use trading_ai_alpha_agent.Prelude.{
  ℕ, suc, ◌&&◌, List, [], ◌∷◌, map, ltb, leb, ◌==◌, if◌then◌else◌, ◌≡◌, refl, ap, arith,
}
use trading_ai_alpha_agent.Intraday.Models.{Direction, is_long, is_short, MarketRegime}
use trading_ai_alpha_agent.Intraday.Regime.{Vote, bullish_votes, bearish_votes, regime_of}

abbrev pub opposite : Direction → Direction
opposite Direction.long = Direction.short
opposite Direction.short = Direction.long

-- the regime of the same strength in the other direction
abbrev pub mirrored : MarketRegime → MarketRegime
mirrored MarketRegime.strong_bullish = MarketRegime.strong_bearish
mirrored MarketRegime.weak_bullish = MarketRegime.weak_bearish
mirrored MarketRegime.strong_bearish = MarketRegime.strong_bullish
mirrored MarketRegime.weak_bearish = MarketRegime.weak_bullish
mirrored regime = regime

abbrev pub reversed : List Vote → List Vote
reversed votes = map (λ v. (opposite v.0, v.1)) votes

bullish_votes-reversed : (votes : List Vote) → bullish_votes (reversed votes) ≡ bearish_votes votes
unfolding is_long is_short
bullish_votes-reversed [] = refl
bullish_votes-reversed ((Direction.long, r) ∷ votes) = bullish_votes-reversed votes
bullish_votes-reversed ((Direction.short, r) ∷ votes) = ap suc (bullish_votes-reversed votes)

bearish_votes-reversed : (votes : List Vote) → bearish_votes (reversed votes) ≡ bullish_votes votes
unfolding is_long is_short
bearish_votes-reversed [] = refl
bearish_votes-reversed ((Direction.short, r) ∷ votes) = bearish_votes-reversed votes
bearish_votes-reversed ((Direction.long, r) ∷ votes) = ap suc (bearish_votes-reversed votes)

-- the regime of two counts
abbrev by_counts : ℕ → ℕ → MarketRegime
by_counts up down =
    if leb 3 up && (down == 0)
    then MarketRegime.strong_bullish
    else if leb 3 down && (up == 0)
    then MarketRegime.strong_bearish
    else if ltb down up
    then MarketRegime.weak_bullish
    else if ltb up down
    then MarketRegime.weak_bearish
    else MarketRegime.sideways

by_counts-mirrored : (up down : ℕ) → by_counts down up ≡ mirrored (by_counts up down)
by_counts-mirrored up down = ground arith

-- With every vote reversed, the regime is the mirrored one: neither direction is preferred.
pub regime_of-reversed :
    (votes : List Vote) → regime_of (reversed votes) ≡ mirrored (regime_of votes)
regime_of-reversed votes =
    rw (bullish_votes-reversed votes, bearish_votes-reversed votes)
      (by_counts-mirrored (bullish_votes votes) (bearish_votes votes))
