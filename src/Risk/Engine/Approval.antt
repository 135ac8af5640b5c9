-- ===== src/Risk/Engine/Approval.antt =====
-- What an approval of `RiskEngine.evaluate` guarantees.
use trading_ai_alpha_agent.Prelude.Result.{ok-injective}
use trading_ai_alpha_agent.Prelude.{
  false, ◌&&◌, [], none, some, raised, raised-eq-nil, ◌≡◌, ◌⊎◌, inl, inr, refl, ap, sym, ◌∙◌, subst,
  arith, Bool-cases,
}
use trading_ai_alpha_agent.Prelude.Int.{
  ℤ, pos, ◌≤ℤ◌, min_ℤ, max_ℤ, min_ℤ-le, max_ℤ-zero, ≤ℤ_refl, ≤ℤ_trans,
}
use trading_ai_alpha_agent.Prelude.Result.{ok, >>=-eq-ok}
use trading_ai_alpha_agent.Prelude.Float.{Float, ◌*◌, ◌≤?◌, of_ℕ}
use trading_ai_alpha_agent.Core.Enums.{RiskDecisionType, is_buy, is_sell}
use trading_ai_alpha_agent.Schemas.Risk.{RiskDecision}
use trading_ai_alpha_agent.Risk.Limits.{stop_loss_rejection_reason, existing_long_quantity}
use trading_ai_alpha_agent.Risk.Sizing.{
  Caps, quantity_caps, cap_quantity, calculate_quantity_by_risk, capped_quantity,
}
use trading_ai_alpha_agent.Risk.Engine.Inputs.{Inputs, config_of}
use trading_ai_alpha_agent.Risk.Engine.Sized.{
  Sized, size, size_with_stop, rate_used, held_quantity, sized_reasons,
}
use trading_ai_alpha_agent.Risk.Engine.Evaluate.{evaluate, final_checks}
use trading_ai_alpha_agent.Risk.Engine.Gates.{IsCleared, state_reasons-IsCleared}
use trading_ai_alpha_agent.Risk.Engine.Assessed.{evaluate-Approved}

positive_zero : ¬ (pos 1 ≤ℤ pos 0)
positive_zero h = omega arith

positive_max : (a : ℤ) → pos 1 ≤ℤ max_ℤ a (pos 0) → max_ℤ a (pos 0) ≡ a
positive_max a h = elim (max_ℤ-zero a) [
  | inl same ↦ same
  | inr cut ↦ absurd (positive_zero (rw cut at h))
]

capped_quantity-le :
    {R : Type 0} (caps : Caps R)
    → pos 1 ≤ℤ capped_quantity caps
    → let q = capped_quantity caps in
      (q ≤ℤ caps.quantity_by_risk)
      × (q ≤ℤ caps.quantity_by_position_cap)
      × (q ≤ℤ caps.quantity_by_cash)
      × (q ≤ℤ caps.quantity_by_market_exposure)
capped_quantity-le caps h =
    let ab = min_ℤ caps.quantity_by_risk caps.quantity_by_position_cap in
    let abc = min_ℤ ab caps.quantity_by_cash in
    let abcd = min_ℤ abc caps.quantity_by_market_exposure in
    let e : capped_quantity caps ≡ abcd = positive_max abcd h in
    rw e (
      omega (
        arith,
        min_ℤ-le caps.quantity_by_risk caps.quantity_by_position_cap,
        min_ℤ-le ab caps.quantity_by_cash,
        min_ℤ-le abc caps.quantity_by_market_exposure,
      ))

module _ {R : Type 0} ⦃f : Float R⦄ where
  -- When the engine approves, the kill switch was off, a live mode had the settings it requires and
  -- none that it forbids, a live Indian trade had approved compliance, the broker and the providers
  -- were ready, the market was open, the exchange rate was fresh and the stop loss was set.
  pub approval-IsCleared :
      (i : Inputs R) {d : RiskDecision R}
      → evaluate i ≡ ok d
      → d.decision ≡ RiskDecisionType.approved
      → IsCleared i
  approval-IsCleared i h a =
      let w = evaluate-Approved i h a in (state_reasons-IsCleared i w.traded w.state).0

  -- What the sizing gave, when a stop loss is set.
  pub record IsSized (i : Inputs R) (stop : R) (sized : Sized R) : Type 0 where
    pub rate : R
    pub by_risk : ℤ
    pub caps : Caps R
    pub rate_lem : rate_used i.candidate.market i.fx_status ≡ ok rate
    pub by_risk_lem :
        calculate_quantity_by_risk i.portfolio.total_value_inr
          (i.candidate.entry_price * rate)
          (stop * rate)
          (config_of i).max_risk_per_trade_pct
        ≡ ok by_risk
    pub caps_lem :
        quantity_caps i.candidate i.portfolio
          (config_of i)
          by_risk
          (some (i.candidate.entry_price * rate))
        ≡ ok caps
    pub quantity_lem : sized.quantity ≡ held_quantity i (capped_quantity caps)
    pub reasons_lem : sized.reasons ≡ sized_reasons i sized.quantity sized.capital

  pub size-IsSized :
      (i : Inputs R) (stop : R) {sized : Sized R}
      → size i (some stop) ≡ ok sized
      → IsSized i stop sized
  unfolding size size_with_stop cap_quantity
  size-IsSized i stop h =
      let (rate, e, h1) = >>=-eq-ok (rate_used i.candidate.market i.fx_status) _ h in
      let (by_risk, e1, h2) =
        >>=-eq-ok
          (calculate_quantity_by_risk i.portfolio.total_value_inr (i.candidate.entry_price * rate)
            (stop * rate) (config_of i).max_risk_per_trade_pct)
          _ h1 in
      let (capped, e2, h3) =
        >>=-eq-ok
          (cap_quantity i.candidate i.portfolio (config_of i) by_risk
            (some (i.candidate.entry_price * rate)))
          _ h2 in
      let (caps, e3, h4) =
        >>=-eq-ok
          (quantity_caps i.candidate i.portfolio (config_of i) by_risk
            (some (i.candidate.entry_price * rate)))
          _ e2 in
      record {
        rate = rate;
        by_risk = by_risk;
        caps = caps;
        rate_lem = e;
        by_risk_lem = e1;
        caps_lem = e3;
        quantity_lem =
            sym (ap (λ s. s.quantity) (ok-injective h3))
            ∙ sym (ap (λ c. held_quantity i c.0) (ok-injective h4));
        reasons_lem =
            subst (λ s. s.reasons ≡ sized_reasons i s.quantity s.capital) (ok-injective h3) refl;
      }

  -- A quantity within each of the caps, for a trade with a stop loss.
  pub record IsCapped (i : Inputs R) (quantity : ℤ) : Type 0 where
    pub rate : R
    pub stop : R
    pub by_risk : ℤ
    pub caps : Caps R
    pub rate_lem : rate_used i.candidate.market i.fx_status ≡ ok rate
    pub stop_lem : i.candidate.stop_loss ≡ some stop
    pub by_risk_lem :
        calculate_quantity_by_risk i.portfolio.total_value_inr
          (i.candidate.entry_price * rate)
          (stop * rate)
          (config_of i).max_risk_per_trade_pct
        ≡ ok by_risk
    pub caps_lem :
        quantity_caps i.candidate i.portfolio
          (config_of i)
          by_risk
          (some (i.candidate.entry_price * rate))
        ≡ ok caps
    pub positive : pos 1 ≤ℤ quantity
    pub le_risk : quantity ≤ℤ caps.quantity_by_risk
    pub le_position_cap : quantity ≤ℤ caps.quantity_by_position_cap
    pub le_cash : quantity ≤ℤ caps.quantity_by_cash
    pub le_market : quantity ≤ℤ caps.quantity_by_market_exposure
    pub le_held :
        (is_sell i.candidate.action ≡ false)
        ⊎ (quantity ≤ℤ pos (existing_long_quantity i.candidate i.portfolio.positions))

  -- The cut to what is held, and the caps, bound a quantity that is at least 1.
  held_quantity-le :
      (i : Inputs R) (q : ℤ)
      → (held_quantity i q ≤ℤ q)
        × ((is_sell i.candidate.action ≡ false)
            ⊎ (held_quantity i q ≤ℤ pos (existing_long_quantity i.candidate i.portfolio.positions)))
  held_quantity-le i q = elim (Bool-cases (is_sell i.candidate.action)) [
    | inl sell ↦
        let (p, r) = min_ℤ-le q (pos (existing_long_quantity i.candidate i.portfolio.positions)) in
        rw sell (p, inr r)
    | inr other ↦ rw other (≤ℤ_refl q, inl refl)
  ]

  quantity_positive :
      (i : Inputs R) (sized : Sized R)
      → stop_loss_rejection_reason i.candidate ≡ none
      → raised (final_checks i sized) ≡ []
      → (pos 1 ≤ℤ sized.quantity)
        × ((is_buy i.candidate.action && (i.portfolio.cash_inr ≤? of_ℕ 0)) ≡ false)
  quantity_positive i sized s h =
      let (cash, zero_size) = raised-eq-nil (final_checks i sized) h in (ground arith, cash)

  size-IsCapped :
      (i : Inputs R) (stop : R) (sized : Sized R)
      → i.candidate.stop_loss ≡ some stop
      → pos 1 ≤ℤ sized.quantity
      → IsSized i stop sized
      → IsCapped i sized.quantity
  size-IsCapped i stop sized e p s =
      let (le, held) = held_quantity-le i (capped_quantity s.caps) in
      let positive : pos 1 ≤ℤ capped_quantity s.caps =
        ≤ℤ_trans (pos 1) sized.quantity (capped_quantity s.caps) p (rw s.quantity_lem le) in
      let (risk, position_cap, cash, market) = capped_quantity-le s.caps positive in
      let up = λ (c : ℤ) (h : capped_quantity s.caps ≤ℤ c).
        ≤ℤ_trans (held_quantity i (capped_quantity s.caps)) (capped_quantity s.caps) c le h in
      record {
        rate = s.rate;
        stop = stop;
        by_risk = s.by_risk;
        caps = s.caps;
        rate_lem = s.rate_lem;
        stop_lem = e;
        by_risk_lem = s.by_risk_lem;
        caps_lem = s.caps_lem;
        positive = p;
        le_risk = rw s.quantity_lem (up s.caps.quantity_by_risk risk);
        le_position_cap = rw s.quantity_lem (up s.caps.quantity_by_position_cap position_cap);
        le_cash = rw s.quantity_lem (up s.caps.quantity_by_cash cash);
        le_market = rw s.quantity_lem (up s.caps.quantity_by_market_exposure market);
        le_held = rw s.quantity_lem held;
      }

  -- An approved quantity is at least 1 and within the caps by risk, by position, by cash and by market
  -- exposure, and a sale is within what is held.
  pub approval-IsCapped :
      (i : Inputs R) {d : RiskDecision R}
      → evaluate i ≡ ok d
      → d.decision ≡ RiskDecisionType.approved
      → IsCapped i d.approved_quantity
  approval-IsCapped i h a =
      let w = evaluate-Approved i h a in
      let (stop, e, _) = (approval-IsCleared i h a).stop in
      let sized = size-IsSized i stop (rw (ap (size i) (sym e)) w.assessed.sized_lem) in
      let positive =
        (quantity_positive i w.assessed.sized (state_reasons-IsCleared i w.traded w.state).1
          w.last).0 in
      rw w.quantity (size-IsCapped i stop w.assessed.sized e positive sized)
