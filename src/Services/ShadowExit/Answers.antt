-- ===== src/Services/ShadowExit/Answers.antt =====
-- What the answers on a shadow observation mean.
use trading_ai_alpha_agent.Prelude.{
  String, Bool, true, false, ◌||◌, Option, some, ◌≡◌, inl, inr, refl, Bool-cases, Option-cases,
}
use mathlib.Core.Bool.{false≢true}
use trading_ai_alpha_agent.Prelude.Int.{pos, leb_ℤ}
use trading_ai_alpha_agent.Prelude.Text.{eqb}
use trading_ai_alpha_agent.Prelude.Result.{ok}
use trading_ai_alpha_agent.Prelude.Float.{Float, ◌≤?◌, of_ℕ}
use trading_ai_alpha_agent.Intraday.Exits.{first_of}
use trading_ai_alpha_agent.Intraday.Levels.{first_of-All}
use trading_ai_alpha_agent.Services.ShadowExit.{
  ShadowObservation, ExitSettings, ShadowExitDecision, ReadFloat, get_field, assessment_of,
  float_or_none, or_zero, quantity_of, profit_booking_triggered, watches, watched, at_levels,
}

-- the urgencies of an answer that leaves the position open
abbrev pub is_patient : String → Bool
is_patient urgency = eqb urgency "LOW" || eqb urgency "MEDIUM"

module _ {R : Type 0} ⦃f : Float R⦄ where
  -- An observation with its prices, its size and both levels.
  pub record IsTradable (reads : ReadFloat R) (o : ShadowObservation R) (stop target : R)
      : Type 0 where
    pub entry : (or_zero o.entry_price ≤? of_ℕ 0) ≡ false
    pub current : (or_zero o.current_price ≤? of_ℕ 0) ≡ false
    pub quantity : leb_ℤ (quantity_of o) (pos 0) ≡ false
    pub stop_lem : float_or_none reads (get_field "stop_loss" (assessment_of o)) ≡ ok (some stop)
    pub target_lem :
        float_or_none reads (get_field "take_profit" (assessment_of o)) ≡ ok (some target)
    pub stop_positive : (stop ≤? of_ℕ 0) ≡ false
    pub target_positive : (target ≤? of_ℕ 0) ≡ false

  -- The price has touched neither level.
  pub record IsInside (o : ShadowObservation R) (stop target : R) : Type 0 where
    pub above : (or_zero o.current_price ≤? stop) ≡ false
    pub below : (target ≤? or_zero o.current_price) ≡ false

  -- What an answer says of the observation.
  pub data IsAnswer (reads : ReadFloat R) (s : ExitSettings R) (o : ShadowObservation R)
      (d : ShadowExitDecision R) : Type 0 where
    waits :
        ((stop target : R) → ¬ IsTradable reads o stop target)
        → d.urgency ≡ "WAIT"
        → IsAnswer reads s o d
    stopped :
        (stop target : R)
        → IsTradable reads o stop target
        → (or_zero o.current_price ≤? stop) ≡ true
        → d.action ≡ "EXIT_STOP_LOSS"
        → IsAnswer reads s o d
    taken :
        (stop target : R)
        → IsTradable reads o stop target
        → (or_zero o.current_price ≤? stop) ≡ false
        → (target ≤? or_zero o.current_price) ≡ true
        → d.action ≡ "EXIT_TAKE_PROFIT"
        → IsAnswer reads s o d
    booked :
        (stop target : R)
        → IsTradable reads o stop target
        → IsInside o stop target
        → s.intraday_profit_booking_enabled ≡ true
        → (or_zero o.hypothetical_pnl_inr ≤? of_ℕ 0) ≡ false
        → d.action ≡ "EXIT_PROFIT_BOOKING"
        → IsAnswer reads s o d
    kept :
        (stop target : R)
        → IsTradable reads o stop target
        → IsInside o stop target
        → is_patient d.urgency ≡ true
        → IsAnswer reads s o d

  watched-urgency :
      (s : ExitSettings R) (entry current : R) (to_target to_stop : Option R)
      → is_patient (watched s entry current to_target to_stop).urgency ≡ true
  watched-urgency s entry current to_target to_stop =
      elim (Option-cases (first_of (watches s entry current to_target to_stop))) [
        | inl idle ↦ rw (watched, idle) refl
        | inr (d, e) ↦
            rw (watched, e)
              (first_of-All (λ d. is_patient d.urgency ≡ true)
                (watches s entry current to_target to_stop) d (refl, (refl, (refl, (refl, tt)))) e)
      ]

  booking_lem :
      (s : ExitSettings R) (pnl pnl_pct : R) (to_target : Option R)
      → profit_booking_triggered s pnl pnl_pct to_target ≡ true
      → (s.intraday_profit_booking_enabled ≡ true) × ((pnl ≤? of_ℕ 0) ≡ false)
  unfolding profit_booking_triggered
  booking_lem s pnl pnl_pct to_target h = elim (Bool-cases s.intraday_profit_booking_enabled) [
    | inr off ↦ absurd (false≢true (rw off at h))
    | inl on ↦ elim (Bool-cases (pnl ≤? of_ℕ 0)) [
      | inl loss ↦ absurd (false≢true (rw (on, loss) at h))
      | inr gain ↦ (on, gain)
    ]
  ]

  module _ (reads : ReadFloat R) (s : ExitSettings R) (o : ShadowObservation R) where
    pub at_levels-IsAnswer :
        (stop target pnl_pct : R) (to_target to_stop : Option R)
        → IsTradable reads o stop target
        → IsAnswer reads s o (
            at_levels s
              (or_zero o.entry_price)
              (or_zero o.current_price)
              to_target
              to_stop
              stop
              target
              (or_zero o.hypothetical_pnl_inr)
              pnl_pct)
    at_levels-IsAnswer stop target pnl_pct to_target to_stop t =
        let current = or_zero o.current_price in
        let pnl = or_zero o.hypothetical_pnl_inr in
        elim (Bool-cases (current ≤? stop)) [
          | inl low ↦ IsAnswer.stopped stop target t low (rw low refl)
          | inr above ↦ elim (Bool-cases (target ≤? current)) [
            | inl high ↦ IsAnswer.taken stop target t above high (rw (above, high) refl)
            | inr below ↦ elim (Bool-cases (profit_booking_triggered s pnl pnl_pct to_target)) [
              | inl b ↦
                  let (on, gain) = booking_lem s pnl pnl_pct to_target b in
                  IsAnswer.booked stop target t (record { above = above; below = below }) on gain
                    (rw (above, below, b) refl)
              | inr idle ↦
                  IsAnswer.kept stop target t (record { above = above; below = below })
                    (rw (above, below, idle)
                      (watched-urgency s (or_zero o.entry_price) current to_target to_stop))
            ]
          ]
        ]
