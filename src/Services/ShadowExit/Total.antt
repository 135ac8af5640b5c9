-- ===== src/Services/ShadowExit/Total.antt =====
-- What a call of the service comes to.
use trading_ai_alpha_agent.Prelude.{
  String, true, false, Option, none, some, ◌≡◌, ◌⊎◌, inl, inr, refl, sym, ◌∙◌, Bool-cases, arith,
}
use mathlib.Core.Bool.{false≢true}
use trading_ai_alpha_agent.Prelude.Int.{pos, leb_ℤ}
use trading_ai_alpha_agent.Prelude.Text.{eqb}
use trading_ai_alpha_agent.Prelude.Result.{Error, Result, ok, err, Result-cases}
use trading_ai_alpha_agent.Prelude.Float.{Float, ◌-◌, ◌<?◌, ◌≤?◌, ◌=?◌, of_ℕ, div, max}
use trading_ai_alpha_agent.Schemas.Json.{Json}
use trading_ai_alpha_agent.Services.ShadowExit.{
  ShadowObservation, ExitSettings, ShadowExitDecision, ReadFloat, is_unreadable, get_field,
  assessment_of, float_or_none, none_if_unreadable, safe_ratio, or_zero, quantity_of, pnl_pct_of,
  missing_price, missing_size, missing_levels, weigh_levels, with_levels, with_price,
  evaluate_observation,
}
use trading_ai_alpha_agent.Services.ShadowExit.Answers.{IsTradable, IsAnswer, at_levels-IsAnswer}

-- Documented behaviour of `float`, the NaN included: equal numbers are ordered, and of two numbers
-- one of which is less they are not equal.
pub record IsComparison {R : Type 0} (f : Float R) : Type 0 where
  pub le_of_eq : (x y : R) → f.equal x y ≡ true → f.less_eq x y ≡ true
  pub ne_of_lt : (x y : R) → f.less x y ≡ true → f.equal y x ≡ false

module _ {R : Type 0} ⦃f : Float R⦄ (comparison : IsComparison f) (reads : ReadFloat R)
    (s : ExitSettings R) (o : ShadowObservation R) where
  div-Returns : (x y : R) → (y =? of_ℕ 0) ≡ false → (z : R) × (div x y ≡ ok z)
  div-Returns x y h = (f.quotient x y, rw h refl)

  safe_ratio-Returns : (x y : R) → (ratio : Option R) × (safe_ratio x y ≡ ok ratio)
  safe_ratio-Returns x y = elim (Bool-cases (y ≤? of_ℕ 0)) [
    | inl small ↦ (none, rw small refl)
    | inr large ↦
        let nonzero : (y =? of_ℕ 0) ≡ false = ground (arith, comparison.le_of_eq y (of_ℕ 0)) in
        let (z, e) = div-Returns x y nonzero in (some z, rw (large, e) refl)
  ]

  pnl_pct_of-Returns : (pnl notional : R) → (pct : R) × (pnl_pct_of pnl notional ≡ ok pct)
  pnl_pct_of-Returns pnl notional = elim (Bool-cases (of_ℕ 0 <? notional)) [
    | inr small ↦ (of_ℕ 0, rw small refl)
    | inl large ↦
        let (z, e) = div-Returns pnl notional (comparison.ne_of_lt (of_ℕ 0) notional large) in
        (z, rw (large, e) refl)
  ]

  -- An answer, and what it means.
  abbrev Answers : Result (ShadowExitDecision R) → Type 0
  Answers r = (d : ShadowExitDecision R) × (r ≡ ok d) × IsAnswer reads s o d

  weigh_levels-Answers :
      (stop target : R) → IsTradable reads o stop target → Answers (weigh_levels s o stop target)
  weigh_levels-Answers stop target t =
      let entry = or_zero o.entry_price in
      let current = or_zero o.current_price in
      let (to_target, e) = safe_ratio-Returns (current - entry) (max (target - entry) (of_ℕ 0)) in
      let (to_stop, e1) = safe_ratio-Returns (entry - current) (max (entry - stop) (of_ℕ 0)) in
      let (pct, e2) =
        pnl_pct_of-Returns (or_zero o.hypothetical_pnl_inr) (or_zero o.hypothetical_notional_inr) in
      (_, rw (e, e1, e2) refl, at_levels-IsAnswer reads s o stop target pct to_target to_stop t)

  with_levels-Answers :
      (stop target : Option R)
      → (or_zero o.entry_price ≤? of_ℕ 0) ≡ false
      → (or_zero o.current_price ≤? of_ℕ 0) ≡ false
      → leb_ℤ (quantity_of o) (pos 0) ≡ false
      → float_or_none reads (get_field "stop_loss" (assessment_of o)) ≡ ok stop
      → float_or_none reads (get_field "take_profit" (assessment_of o)) ≡ ok target
      → Answers (with_levels s o stop target)
  with_levels-Answers none target entry current quantity h k = (
    missing_levels,
    refl,
    IsAnswer.waits (λ x y t. let clash : ok (some x) ≡ ok none = sym t.stop_lem ∙ h in cc) refl,
  )
  with_levels-Answers (some stop) none entry current quantity h k = (
    missing_levels,
    refl,
    IsAnswer.waits (λ x y t. let clash : ok (some y) ≡ ok none = sym t.target_lem ∙ k in cc) refl,
  )
  with_levels-Answers (some stop) (some target) entry current quantity h k =
      elim (Bool-cases (stop ≤? of_ℕ 0)) [
        | inl low ↦ (
          missing_levels,
          rw low refl,
          IsAnswer.waits
              (λ x y t.
                let e : ok (some x) ≡ ok (some stop) = sym t.stop_lem ∙ h in
                let same : x ≡ stop = cc in false≢true (sym t.stop_positive ∙ rw same low))
              refl,
        )
        | inr above ↦ elim (Bool-cases (target ≤? of_ℕ 0)) [
          | inl low ↦ (
            missing_levels,
            rw (above, low) refl,
            IsAnswer.waits
                (λ x y t.
                  let e : ok (some y) ≡ ok (some target) = sym t.target_lem ∙ k in
                  let same : y ≡ target = cc in false≢true (sym t.target_positive ∙ rw same low))
                refl,
          )
          | inr positive ↦
              let (d, e, answer) = weigh_levels-Answers stop target (record {
                entry = entry;
                current = current;
                quantity = quantity;
                stop_lem = h;
                target_lem = k;
                stop_positive = above;
                target_positive = positive;
              }) in
              (d, rw (above, positive) e, answer)
        ]
      ]

  with_price-Answers :
      (stop target : Option R)
      → float_or_none reads (get_field "stop_loss" (assessment_of o)) ≡ ok stop
      → float_or_none reads (get_field "take_profit" (assessment_of o)) ≡ ok target
      → Answers (with_price s o stop target)
  with_price-Answers stop target h k = elim (Bool-cases (or_zero o.entry_price ≤? of_ℕ 0)) [
    | inl low ↦
        (missing_price, rw low refl, IsAnswer.waits (λ x y t. false≢true (sym t.entry ∙ low)) refl)
    | inr entry ↦ elim (Bool-cases (or_zero o.current_price ≤? of_ℕ 0)) [
      | inl low ↦ (
        missing_price,
        rw (entry, low) refl,
        IsAnswer.waits (λ x y t. false≢true (sym t.current ∙ low)) refl,
      )
      | inr current ↦ elim (Bool-cases (leb_ℤ (quantity_of o) (pos 0))) [
        | inl none_held ↦ (
          missing_size,
          rw (entry, current, none_held) refl,
          IsAnswer.waits (λ x y t. false≢true (sym t.quantity ∙ none_held)) refl,
        )
        | inr quantity ↦
            let (d, e, answer) = with_levels-Answers stop target entry current quantity h k in
            (d, rw (entry, current, quantity) e, answer)
      ]
    ]
  ]

  -- An exception that the reading of a value does not catch.
  abbrev Escapes : Json → Error → Type 0
  Escapes value e = (reads value ≡ err e) × (is_unreadable e ≡ false)

  none_if_unreadable-cases :
      (value : Json)
      → ((x : Option R) × (none_if_unreadable (reads value) ≡ ok x))
        ⊎ ((e : Error) × Escapes value e × (none_if_unreadable (reads value) ≡ err e))
  none_if_unreadable-cases value = elim (Result-cases (reads value)) [
    | inl (x, e) ↦ inl (some x, rw e refl)
    | inr (raised, e) ↦ elim (Bool-cases (is_unreadable raised)) [
      | inl unread ↦ inl (none, rw (e, unread) refl)
      | inr other ↦ inr (raised, (e, other), rw (e, other) refl)
    ]
  ]

  abbrev FloatOrNoneCases : Option Json → Type 0
  FloatOrNoneCases value =
      ((x : Option R) × (float_or_none reads value ≡ ok x))
      ⊎ ((v : Json) × (e : Error) × (value ≡ some v)
          × Escapes v e
          × (float_or_none reads value ≡ err e))

  of_cases :
      (v : Json)
      → float_or_none reads (some v) ≡ none_if_unreadable (reads v)
      → FloatOrNoneCases (some v)
  of_cases v h = elim (none_if_unreadable-cases v) [
    | inl (x, e) ↦ inl (x, h ∙ e)
    | inr (e, escapes, q) ↦ inr (v, e, refl, escapes, h ∙ q)
  ]

  float_or_none-cases : (value : Option Json) → FloatOrNoneCases value
  float_or_none-cases none = inl (none, refl)
  float_or_none-cases (some Json.null) = inl (none, refl)
  float_or_none-cases (some (Json.text t)) = elim (Bool-cases (eqb t "")) [
    | inl empty ↦ inl (none, rw empty refl)
    | inr other ↦ of_cases (Json.text t) (rw other refl)
  ]
  float_or_none-cases (some (Json.boolean b)) = of_cases (Json.boolean b) refl
  float_or_none-cases (some (Json.number n)) = of_cases (Json.number n) refl
  float_or_none-cases (some (Json.array items)) = of_cases (Json.array items) refl
  float_or_none-cases (some (Json.object fields)) = of_cases (Json.object fields) refl

  -- What a call comes to: an answer that means what it says, or the exception that `float` raised at
  -- one of the two levels and the service does not catch.
  pub data IsRun (r : Result (ShadowExitDecision R)) : Type 0 where
    answered : (d : ShadowExitDecision R) → r ≡ ok d → IsAnswer reads s o d → IsRun r
    raised :
        (key : String) (value : Json) (e : Error)
        → (key ≡ "stop_loss") ⊎ (key ≡ "take_profit")
        → get_field key (assessment_of o) ≡ some value
        → reads value ≡ err e
        → is_unreadable e ≡ false
        → r ≡ err e
        → IsRun r

  -- The service answers an observation, or raises what `float` raises at its stop loss or its target
  -- if that is neither a TypeError nor a ValueError, and nothing else, where comparisons are as
  -- documented. The answer is to wait if the prices, the size or a level are missing; to leave at
  -- the stop or at the target where the price has touched it; to book the profit only where that is
  -- enabled and there is one; and is else one of those that leave the position open, with the
  -- price on neither level.
  pub evaluate_observation-IsRun : IsRun (evaluate_observation reads s o)
  unfolding evaluate_observation
  evaluate_observation-IsRun =
      let stop_json = get_field "stop_loss" (assessment_of o) in
      let target_json = get_field "take_profit" (assessment_of o) in
      elim (float_or_none-cases stop_json) [
        | inr (v, e, here, escapes, q) ↦
            IsRun.raised "stop_loss" v e (inl refl) here escapes.0 escapes.1 (rw q refl)
        | inl (stop, h) ↦ elim (float_or_none-cases target_json) [
          | inr (v, e, here, escapes, q) ↦
              IsRun.raised "take_profit" v e (inr refl) here escapes.0 escapes.1 (rw (h, q) refl)
          | inl (target, k) ↦
              let (d, e, answer) = with_price-Answers stop target h k in
              IsRun.answered d (rw (h, k) e) answer
        ]
      ]
