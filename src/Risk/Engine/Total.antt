-- ===== src/Risk/Engine/Total.antt =====
-- What `RiskEngine.evaluate` comes to: what its divisions and its use of the exchange rate need, and
-- the exception of `math.floor`.
use trading_ai_alpha_agent.Prelude.{
  true, false, Option, none, some, ◌≡◌, refl, arith, Bool-cases, inl, inr, Option-cases,
}
use trading_ai_alpha_agent.Prelude.Int.{ℤ, pos, max_ℤ}
use trading_ai_alpha_agent.Prelude.Result.{Result, ok, err, not_finite_error, ◌>>=◌}
use trading_ai_alpha_agent.Prelude.Float.{Float, ◌*◌, ◌-◌, ◌=?◌, ◌≤?◌, of_ℕ, abs, min}
use trading_ai_alpha_agent.Core.Enums.{is_buy}
use trading_ai_alpha_agent.Schemas.Trading.{TradeCandidate, PortfolioSnapshot}
use trading_ai_alpha_agent.Schemas.Risk.{RiskConfig}
use trading_ai_alpha_agent.Risk.Limits.{drawdown_reasons, loss_pct}
use trading_ai_alpha_agent.Risk.Quality.{or_else}
use trading_ai_alpha_agent.Risk.Sizing.{
  floor_ratio, calculate_quantity_by_risk, quantity_caps, cap_quantity, by_cash, max_position_pct,
  available_market_exposure, capped_quantity, metrics_of,
}
use trading_ai_alpha_agent.Risk.Engine.Inputs.{Inputs, config_of}
use trading_ai_alpha_agent.Risk.Engine.Sized.{size, size_with_stop, rate_used}
use trading_ai_alpha_agent.Risk.Engine.Evaluate.{evaluate, assess, asks_no_trade, no_trade_decision}

-- Documented behaviour of the comparisons of floats, the NaN included.
abbrev pub EqualIsOrdered : {R : Type 0} → Float R → Type 0
EqualIsOrdered {R = R} f = (x y : R) → f.equal x y ≡ true → f.less_eq x y ≡ true

-- A call that returns, or that raises at the floor of a quotient which is an infinity or a NaN.
pub data ReturnsOrOverflows {ℓ} {R : Type 0} (f : Float R) {A : Type ℓ} (r : Result A)
    : Type ℓ where
  returns : (a : A) → r ≡ ok a → ReturnsOrOverflows f r
  overflows :
      (x y : R)
      → f.equal y (f.of_ℤ (pos 0)) ≡ false
      → f.floor (f.quotient x y) ≡ none
      → r ≡ err not_finite_error
      → ReturnsOrOverflows f r

-- A chain does if its first step does, and the rest does from any value.
bind-Returns {ℓ κ} :
    {R : Type 0} {f : Float R} {A : Type ℓ} {B : Type κ} (m : Result A) (k : A → Result B)
    → ReturnsOrOverflows f m
    → ((a : A) → ReturnsOrOverflows f (k a))
    → ReturnsOrOverflows f (m >>= k)
bind-Returns m k (ReturnsOrOverflows.overflows x y nonzero none_found e) h =
    ReturnsOrOverflows.overflows x y nonzero none_found (rw e refl)
bind-Returns m k (ReturnsOrOverflows.returns a e) h = rw e (h a)

module _ {R : Type 0} ⦃f : Float R⦄ (ordered : EqualIsOrdered f) where
  abbrev Returns {ℓ} : {A : Type ℓ} → Result A → Type ℓ
  Returns r = ReturnsOrOverflows f r

  floor_ratio-Returns : (x y : R) → (y =? of_ℕ 0) ≡ false → Returns (floor_ratio x y)
  floor_ratio-Returns x y h = elim (Option-cases (f.floor (f.quotient x y))) [
    | inl infinite ↦ ReturnsOrOverflows.overflows x y h infinite (ground arith)
    | inr (n, e) ↦ ReturnsOrOverflows.returns n (ground arith)
  ]

  not_equal : (x y : R) → (x ≤? y) ≡ false → (x =? y) ≡ false
  not_equal x y h = ground (arith, ordered x y)

  calculate_quantity_by_risk-Returns :
      (value entry stop pct : R) → Returns (calculate_quantity_by_risk value entry stop pct)
  unfolding calculate_quantity_by_risk
  calculate_quantity_by_risk-Returns value entry stop pct =
      let unit = abs (entry - stop) in
      elim (Bool-cases (unit ≤? of_ℕ 0)) [
        | inl small ↦ ReturnsOrOverflows.returns (pos 0) (rw small refl)
        | inr large ↦ rw large (
            bind-Returns (floor_ratio (value * pct) unit) (λ n. ok (max_ℤ n (pos 0)))
              (floor_ratio-Returns (value * pct) unit (not_equal unit (of_ℕ 0) large))
              (λ n. ReturnsOrOverflows.returns (max_ℤ n (pos 0)) refl))
      ]

  price_nonzero : (x d : R) → (d =? of_ℕ 0) ≡ false → (or_else (some x) d =? of_ℕ 0) ≡ false
  price_nonzero x d h = ground arith

  by_cash-Returns :
      (c : TradeCandidate R) (p : PortfolioSnapshot R) (by_risk : ℤ) (price : R)
      → (price =? of_ℕ 0) ≡ false
      → Returns (by_cash c p by_risk price)
  by_cash-Returns c p by_risk price h = elim (Bool-cases (is_buy c.action)) [
    | inl buy ↦ rw buy (floor_ratio-Returns p.cash_inr price h)
    | inr other ↦ ReturnsOrOverflows.returns by_risk (rw other refl)
  ]

  cap_quantity-Returns :
      (c : TradeCandidate R) (p : PortfolioSnapshot R) (config : RiskConfig R) (by_risk : ℤ)
      (entry : R)
      → (c.entry_price =? of_ℕ 0) ≡ false
      → Returns (cap_quantity c p config by_risk (some entry))
  unfolding cap_quantity quantity_caps
  cap_quantity-Returns c p config by_risk entry h =
      let price = or_else (some entry) c.entry_price in
      let nonzero = price_nonzero entry c.entry_price h in
      let by_position = p.total_value_inr * max_position_pct c config in
      let by_exposure = available_market_exposure c p config in
      bind-Returns (quantity_caps c p config by_risk (some entry))
        (λ caps. ok (capped_quantity caps, metrics_of caps))
        (bind-Returns (floor_ratio by_position price) _
          (floor_ratio-Returns by_position price nonzero)
          (λ position_cap.
            bind-Returns (by_cash c p by_risk price) _ (by_cash-Returns c p by_risk price nonzero)
              (λ cash.
                bind-Returns (floor_ratio by_exposure price) _
                  (floor_ratio-Returns by_exposure price nonzero)
                  (λ exposure.
                    ReturnsOrOverflows.returns
                      (record {
                        quantity_by_risk = by_risk;
                        quantity_by_position_cap = position_cap;
                        quantity_by_cash = cash;
                        quantity_by_market_exposure = exposure;
                        entry_price_inr = price;
                      })
                      refl))))
        (λ caps. ReturnsOrOverflows.returns (capped_quantity caps, metrics_of caps) refl)

  size-Returns :
      (i : Inputs R) (stop : Option R) {rate : R}
      → (i.candidate.entry_price =? of_ℕ 0) ≡ false
      → rate_used i.candidate.market i.fx_status ≡ ok rate
      → Returns (size i stop)
  unfolding size size_with_stop
  size-Returns i none h e = ReturnsOrOverflows.returns _ refl
  size-Returns i (some stop) {rate} h e = rw e (
      bind-Returns
        (calculate_quantity_by_risk i.portfolio.total_value_inr (i.candidate.entry_price * rate)
          (stop * rate) (config_of i).max_risk_per_trade_pct)
        _ (calculate_quantity_by_risk-Returns _ _ _ _)
        (λ by_risk.
          bind-Returns
            (cap_quantity i.candidate i.portfolio (config_of i) by_risk
              (some (i.candidate.entry_price * rate)))
            _ (cap_quantity-Returns _ _ _ by_risk _ h)
            (λ capped. ReturnsOrOverflows.returns _ refl)))

  loss_pct-Returns :
      (pnl : R) (p : PortfolioSnapshot R)
      → (p.total_value_inr =? of_ℕ 0) ≡ false
      → Returns (loss_pct pnl p)
  loss_pct-Returns pnl p h =
      ReturnsOrOverflows.returns (f.quotient (abs (min pnl (of_ℕ 0))) p.total_value_inr) (rw h refl)

  drawdown-Returns :
      (i : Inputs R)
      → (i.portfolio.total_value_inr =? of_ℕ 0) ≡ false
      → Returns (drawdown_reasons i.portfolio (config_of i))
  unfolding drawdown_reasons
  drawdown-Returns i h =
      bind-Returns (loss_pct i.portfolio.daily_pnl_inr i.portfolio) _
        (loss_pct-Returns i.portfolio.daily_pnl_inr i.portfolio h)
        (λ daily.
          bind-Returns (loss_pct i.portfolio.weekly_pnl_inr i.portfolio) _
            (loss_pct-Returns i.portfolio.weekly_pnl_inr i.portfolio h)
            (λ weekly. ReturnsOrOverflows.returns _ refl))

  pub evaluate-ReturnsOrOverflows :
      (i : Inputs R) {rate : R}
      → (i.portfolio.total_value_inr =? of_ℕ 0) ≡ false
      → (i.candidate.entry_price =? of_ℕ 0) ≡ false
      → rate_used i.candidate.market i.fx_status ≡ ok rate
      → ReturnsOrOverflows f (evaluate i)
  unfolding evaluate assess
  evaluate-ReturnsOrOverflows i total entry rate =
      elim (Bool-cases (asks_no_trade i.candidate.action)) [
        | inl idle ↦ ReturnsOrOverflows.returns (no_trade_decision i) (rw idle refl)
        | inr trade ↦ rw trade (
            bind-Returns (drawdown_reasons i.portfolio (config_of i)) _ (drawdown-Returns i total)
              (λ drawdown.
                bind-Returns (size i i.candidate.stop_loss) _
                  (size-Returns i i.candidate.stop_loss entry rate)
                  (λ sized. ReturnsOrOverflows.returns _ refl)))
      ]
