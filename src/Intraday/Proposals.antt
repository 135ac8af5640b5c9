-- ===== src/Intraday/Proposals.antt =====
-- The signals of the three strategies are aligned with the regime.
use trading_ai_alpha_agent.Prelude.{
  String, Bool, true, false, ◌&&◌, List, Option, none, some, All, if◌then◌else◌, ◌≡◌, ◌⊎◌, inl, inr,
  refl, subst, arith,
}
use trading_ai_alpha_agent.Prelude.Float.{Float, ◌≤?◌, of_ℕ}
use trading_ai_alpha_agent.Intraday.Models.{
  Direction, is_bullish, is_bearish, MarketDataSnapshot, SignalDraft,
}
use trading_ai_alpha_agent.Intraday.Regime.{RegimeResult}
use trading_ai_alpha_agent.Intraday.Strategies.{
  at_average, draft_of, reach, long_near, short_near, breaks_out, breaks_down, breakout_draft,
  breakdown_draft, breakout, vwap_trend_long, vwap_trend_short, opening_range_breakout,
}
use trading_ai_alpha_agent.Intraday.Pipeline.Process.{default_strategies}

some-eq : {A : Type 0} {a b : A} → ◌≡◌ {A = Option A} (some a) (some b) → a ≡ b
some-eq h = cc

at_average-some :
    {A B : Type 0} (next : A → Option B) (o : Option A) (b : B)
    → at_average next o ≡ some b
    → (a : A) × (next a ≡ some b)
at_average-some next none b h = cc
at_average-some next (some a) b h = (a, h)

if-else :
    {A : Type 0} (b : Bool) (o u : Option A) (a : A)
    → (if b then o else u) ≡ some a
    → ((b ≡ true) × (o ≡ some a)) ⊎ (u ≡ some a)
if-else true o u a h = inl (refl, h)
if-else false o u a h = inr h

both_right : (a b c : Bool) → (a && (b && c)) ≡ true → b ≡ true
both_right a b c h = ground arith

if-some :
    {A : Type 0} (b : Bool) (o : Option A) (a : A) → (if b then none else o) ≡ some a → o ≡ some a
if-some true o a h = cc
if-some false o a h = h

if-then :
    {A : Type 0} (b : Bool) (o : Option A) (a : A)
    → (if b then o else none) ≡ some a
    → (b ≡ true) × (o ≡ some a)
if-then true o a h = (refl, h)
if-then false o a h = cc

module _ {R : Type 0} ⦃f : Float R⦄ where
  -- A draft at the last price and in the regime of its snapshot, for a rising regime if it is long
  -- and for a falling one if it is short.
  pub record IsAligned (s : MarketDataSnapshot R) (regime : RegimeResult R) (d : SignalDraft R)
      : Type 0 where
    pub entry : d.entry_price ≡ s.last_price
    pub regime_kept : d.regime_at_signal ≡ regime.regime
    pub side :
        ((d.direction ≡ Direction.long) × (is_bullish d.regime_at_signal ≡ true))
        ⊎ ((d.direction ≡ Direction.short) × (is_bearish d.regime_at_signal ≡ true))

  draft_of-long :
      (name : String) (confidence : R) (reasons rules : List String) (s : MarketDataSnapshot R)
      (regime : RegimeResult R) (stop : R) (d : SignalDraft R)
      → is_bullish regime.regime ≡ true
      → draft_of Direction.long name confidence reasons rules s regime stop ≡ some d
      → IsAligned s regime d
  draft_of-long name confidence reasons rules s regime stop d bullish h =
      let e = some-eq (if-some (reach Direction.long s.last_price stop ≤? of_ℕ 0) _ d h) in
      subst (IsAligned s regime) e
        (record { entry = refl; regime_kept = refl; side = inl (refl, bullish) })

  draft_of-short :
      (name : String) (confidence : R) (reasons rules : List String) (s : MarketDataSnapshot R)
      (regime : RegimeResult R) (stop : R) (d : SignalDraft R)
      → is_bearish regime.regime ≡ true
      → draft_of Direction.short name confidence reasons rules s regime stop ≡ some d
      → IsAligned s regime d
  draft_of-short name confidence reasons rules s regime stop d bearish h =
      let e = some-eq (if-some (reach Direction.short s.last_price stop ≤? of_ℕ 0) _ d h) in
      subst (IsAligned s regime) e
        (record { entry = refl; regime_kept = refl; side = inr (refl, bearish) })

  vwap_trend_long-IsAligned :
      (s : MarketDataSnapshot R) (regime : RegimeResult R) (d : SignalDraft R)
      → vwap_trend_long s regime ≡ some d
      → IsAligned s regime d
  unfolding vwap_trend_long
  vwap_trend_long-IsAligned s regime d h =
      let (bullish, k) = if-then (is_bullish regime.regime) _ d h in
      let (vwap, near) = at_average-some (λ vwap. long_near vwap s regime) s.vwap d k in
      draft_of-long _ _ _ _ s regime _ d bullish (if-some _ _ d near)

  vwap_trend_short-IsAligned :
      (s : MarketDataSnapshot R) (regime : RegimeResult R) (d : SignalDraft R)
      → vwap_trend_short s regime ≡ some d
      → IsAligned s regime d
  unfolding vwap_trend_short
  vwap_trend_short-IsAligned s regime d h =
      let (bearish, k) = if-then (is_bearish regime.regime) _ d h in
      let (vwap, near) = at_average-some (λ vwap. short_near vwap s regime) s.vwap d k in
      draft_of-short _ _ _ _ s regime _ d bearish (if-some _ _ d near)

  breakout-IsAligned :
      (s : MarketDataSnapshot R) (regime : RegimeResult R) (d : SignalDraft R)
      → breakout s regime ≡ some d
      → IsAligned s regime d
  breakout-IsAligned s regime d h =
      elim (if-else (breaks_out s regime) (breakout_draft s regime) _ d h) [
        | inl (up, drafted) ↦ draft_of-long _ _ _ _ s regime _ d (both_right _ _ _ up) drafted
        | inr rest ↦
            let (down, drafted) =
              if-then (breaks_down s regime) (breakdown_draft s regime) d rest in
            draft_of-short _ _ _ _ s regime _ d (both_right _ _ _ down) drafted
      ]

  opening_range_breakout-IsAligned :
      (s : MarketDataSnapshot R) (regime : RegimeResult R) (d : SignalDraft R)
      → opening_range_breakout false s regime ≡ some d
      → IsAligned s regime d
  unfolding opening_range_breakout
  opening_range_breakout-IsAligned s regime d h =
      breakout-IsAligned s regime d (if-some _ _ d (if-some _ _ d h))

  -- Every signal of the pipeline's three strategies stands at the last price, long in a rising
  -- regime or short in a falling one.
  pub default_strategies-IsAligned :
      (s : MarketDataSnapshot R) (regime : RegimeResult R)
      → All
          (λ strategy. (d : SignalDraft R) → strategy s regime ≡ some d → IsAligned s regime d)
          default_strategies
  default_strategies-IsAligned s regime = (
    vwap_trend_long-IsAligned s regime,
    (vwap_trend_short-IsAligned s regime, (opening_range_breakout-IsAligned s regime, tt)),
  )
