-- ===== src/Risk/Engine/Sized.antt =====
-- The sizing block of `evaluate`: the quantity, its capital and its risk, and what these violate.
use trading_ai_alpha_agent.Prelude.{
  String, List, [], ◌∷◌, ◌++◌, Option, none, some, to_list, if◌then◌else◌,
}
use trading_ai_alpha_agent.Prelude.Int.{ℤ, pos, min_ℤ}
use trading_ai_alpha_agent.Prelude.Text.{Dict}
use trading_ai_alpha_agent.Prelude.Result.{Result, ok, err, type_error, ◌>>=◌}
use trading_ai_alpha_agent.Prelude.Float.{Float, ◌-◌, ◌*◌, of_ℤ, of_ℕ, decimal, abs}
use trading_ai_alpha_agent.Core.Enums.{Market, is_us, is_buy, is_sell}
use trading_ai_alpha_agent.Schemas.Status.{FxRateStatus}
use trading_ai_alpha_agent.Schemas.Risk.{Metric}
use trading_ai_alpha_agent.Risk.Limits.{
  existing_long_quantity, long_only_rejection_reason, exposure_reasons,
}
use trading_ai_alpha_agent.Risk.Sizing.{calculate_quantity_by_risk, cap_quantity}
use trading_ai_alpha_agent.Risk.Engine.Inputs.{Inputs, config_of}

pub record Sized (R : Type 0) : Type 0 where
  pub quantity : ℤ
  pub capital : R
  pub risk : R
  pub reasons : List String
  pub metrics : Dict (Metric R)

module _ {R : Type 0} ⦃f : Float R⦄ where
  -- `fx_status.rate if candidate.market == Market.US and fx_status else 1.0`, which is multiplied:
  -- a rate of `None` raises
  abbrev pub rate_used : Market → Option (FxRateStatus R) → Result R
  rate_used m none = ok (decimal (pos 10) 1)
  rate_used m (some s) =
      if is_us m
      then elim s.rate [ none ↦ err type_error | some rate ↦ ok rate ]
      else ok (decimal (pos 10) 1)

  -- the quantity after the cut to what is held
  abbrev pub held_quantity : Inputs R → ℤ → ℤ
  held_quantity i quantity =
      if is_sell i.candidate.action
      then min_ℤ quantity (pos (existing_long_quantity i.candidate i.portfolio.positions))
      else quantity

  abbrev pub sized_reasons : Inputs R → ℤ → R → List String
  sized_reasons i quantity capital =
      to_list (long_only_rejection_reason i.candidate quantity i.portfolio.positions)
      ++ exposure_reasons i.candidate.market i.portfolio (config_of i)
          (if is_buy i.candidate.action then capital else of_ℕ 0) none

  unfoldable pub size_with_stop : Inputs R → R → Result (Sized R)
  size_with_stop i stop = do
    rate ← rate_used i.candidate.market i.fx_status
    let entry_inr = i.candidate.entry_price * rate
    let stop_inr = stop * rate
    by_risk ←
        calculate_quantity_by_risk i.portfolio.total_value_inr entry_inr stop_inr
          (config_of i).max_risk_per_trade_pct
    capped ← cap_quantity i.candidate i.portfolio (config_of i) by_risk (some entry_inr)
    let quantity = held_quantity i capped.0
    let capital = of_ℤ quantity * entry_inr
    ok (record {
      quantity = quantity;
      capital = capital;
      risk = of_ℤ quantity * abs (entry_inr - stop_inr);
      reasons = sized_reasons i quantity capital;
      metrics = ("fx_rate_used", Metric.number rate) ∷ capped.1;
    })

  unfoldable pub size_without_stop : Sized R
  size_without_stop = record {
    quantity = pos 0;
    capital = of_ℕ 0;
    risk = of_ℕ 0;
    reasons = [];
    metrics = ("quantity_by_risk", Metric.integer (pos 0)) ∷ [];
  }

  unfoldable pub size : Inputs R → Option R → Result (Sized R)
  size i none = ok size_without_stop
  size i (some stop) = size_with_stop i stop
