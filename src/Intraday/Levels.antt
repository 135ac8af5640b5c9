-- ===== src/Intraday/Levels.antt =====
-- What it means that the exit manager holds a position.
use trading_ai_alpha_agent.Prelude.{
  ℕ, Bool, true, false, List, [], ◌∷◌, Option, none, some, All, NoneRaised, leb, if◌then◌else◌, ◌≡◌,
  ◌<◌, inl, inr, refl, ap, subst, sym, ◌∙◌, arith, Option-cases,
}
use mathlib.Core.Bool.{false≢true}
use trading_ai_alpha_agent.Prelude.Result.{ok, >>=-eq-ok, ok-injective}
use trading_ai_alpha_agent.Prelude.Float.{Float, ◌≤?◌}
use trading_ai_alpha_agent.Intraday.Config.{IntradayShadowConfig}
use trading_ai_alpha_agent.Intraday.Clock.{DateTime, time_of_day, ReadInt, parse_time}
use trading_ai_alpha_agent.Intraday.Models.{
  Direction, MarketRegime, is_bullish, is_bearish, MarketDataSnapshot, VirtualPosition,
}
use trading_ai_alpha_agent.Intraday.Exits.{
  ExitDecision, leave, stay, first_of, below_vwap, above_vwap, price_exits, checked_at,
  close_of_day, evaluate_virtual_exit,
}

leb-false : (a b : ℕ) → leb a b ≡ false → b < a
leb-false a b h = ground arith

first_of-none : {A : Type 0} (tests : List (Bool × A)) → first_of tests ≡ none → NoneRaised tests
first_of-none [] h = tt
first_of-none ((true, a) ∷ tests) h = cc
first_of-none ((false, a) ∷ tests) h = (refl, first_of-none tests h)

pub first_of-All :
    {A : Type 0} (P : A → Type 0) (tests : List (Bool × A)) (a : A)
    → All (λ test. P test.1) tests
    → first_of tests ≡ some a
    → P a
first_of-All P [] a all h = cc
first_of-All P ((true, b) ∷ tests) a (here, rest) h = let e : b ≡ a = cc in subst P e here
first_of-All P ((false, b) ∷ tests) a (here, rest) h = first_of-All P tests a rest h

module _ {R : Type 0} ⦃f : Float R⦄ where
  -- The price is on neither level and on its side of the average, and the regime is not opposed.
  pub data IsBetween (p : VirtualPosition R) (s : MarketDataSnapshot R) (regime : MarketRegime)
      : Type 0 where
    long_between :
        p.direction ≡ Direction.long
        → (s.last_price ≤? p.stop_loss) ≡ false
        → (p.target_price ≤? s.last_price) ≡ false
        → below_vwap s.last_price s.vwap ≡ false
        → is_bearish regime ≡ false
        → IsBetween p s regime
    short_between :
        p.direction ≡ Direction.short
        → (p.stop_loss ≤? s.last_price) ≡ false
        → (s.last_price ≤? p.target_price) ≡ false
        → above_vwap s.last_price s.vwap ≡ false
        → is_bullish regime ≡ false
        → IsBetween p s regime

  pub record IsHeld (int_of : ReadInt) (config : IntradayShadowConfig R) (p : VirtualPosition R)
      (s : MarketDataSnapshot R) (regime : MarketRegime) (moment : DateTime) : Type 0 where
    pub between : IsBetween p s regime
    pub closing : ℕ
    pub closing_lem : parse_time int_of config.force_close_time ≡ ok closing
    pub early : time_of_day moment < closing

  abbrev Leaves : ExitDecision R → Type 0
  Leaves d = d.should_exit ≡ true

  price_exits-Leaves :
      (direction : Direction) (p : VirtualPosition R) (s : MarketDataSnapshot R)
      (regime : MarketRegime)
      → All (λ test. Leaves test.1) (price_exits direction p s regime)
  price_exits-Leaves Direction.long p s regime = (refl, (refl, (refl, (refl, tt))))
  price_exits-Leaves Direction.short p s regime = (refl, (refl, (refl, (refl, tt))))

  price_exits-IsBetween :
      (direction : Direction) (p : VirtualPosition R) (s : MarketDataSnapshot R)
      (regime : MarketRegime)
      → p.direction ≡ direction
      → NoneRaised (price_exits direction p s regime)
      → IsBetween p s regime
  price_exits-IsBetween Direction.long p s regime e h =
      IsBetween.long_between e h.0 h.1.0 h.1.1.0 h.1.1.1.0
  price_exits-IsBetween Direction.short p s regime e h =
      IsBetween.short_between e h.0 h.1.0 h.1.1.0 h.1.1.1.0

  leave_or_stay :
      (late : Bool) (price : R) (d : ExitDecision R)
      → (if late then leave "END_OF_DAY" price else stay) ≡ d
      → d.should_exit ≡ false
      → late ≡ false
  leave_or_stay true price d h out =
      absurd (false≢true (sym out ∙ sym (ap (λ (x : ExitDecision R). x.should_exit) h)))
  leave_or_stay false price d h out = refl

  close_of_day_held :
      (int_of : ReadInt) (config : IntradayShadowConfig R) (s : MarketDataSnapshot R)
      (moment : DateTime) (d : ExitDecision R)
      → close_of_day int_of config s moment ≡ ok d
      → d.should_exit ≡ false
      → (closing : ℕ) × (parse_time int_of config.force_close_time ≡ ok closing)
        × (time_of_day moment < closing)
  close_of_day_held int_of config s moment d h out =
      let (closing, e, h1) = >>=-eq-ok (parse_time int_of config.force_close_time) _ h in
      let early : leb closing (time_of_day moment) ≡ false =
        leave_or_stay (leb closing (time_of_day moment)) s.last_price d (ok-injective h1) out in
      (closing, e, leb-false closing (time_of_day moment) early)

  -- A position that the manager does not leave has its price between its levels and on its side of
  -- the average, and its regime not opposed; and the wall clock of the moment that is checked, in
  -- the zone which that moment carries, is before the `force_close_time` of the settings, read as
  -- hours and minutes of no zone.
  pub evaluate_virtual_exit-IsHeld :
      (int_of : ReadInt) (config : IntradayShadowConfig R) (p : VirtualPosition R)
      (s : MarketDataSnapshot R) (regime : MarketRegime) (now : Option DateTime)
      (d : ExitDecision R)
      → evaluate_virtual_exit int_of config p s regime now ≡ ok d
      → d.should_exit ≡ false
      → IsHeld int_of config p s regime (checked_at now s)
  unfolding evaluate_virtual_exit
  evaluate_virtual_exit-IsHeld int_of config p s regime now d h out =
      elim (Option-cases (first_of (price_exits p.direction p s regime))) [
        | inl kept ↦
            let (closing, e, early) =
              close_of_day_held int_of config s (checked_at now s) d (rw kept at h) out in
            record {
              between =
                  price_exits-IsBetween p.direction p s regime refl
                    (first_of-none (price_exits p.direction p s regime) kept);
              closing = closing;
              closing_lem = e;
              early = early;
            }
        | inr (a, left) ↦
            let leaves : Leaves a =
              first_of-All Leaves (price_exits p.direction p s regime) a
                (price_exits-Leaves p.direction p s regime) left in
            let same : a ≡ d = ok-injective (rw left at h) in
            absurd (false≢true (sym out ∙ subst Leaves same leaves))
      ]
