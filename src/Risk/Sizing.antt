-- ===== src/Risk/Sizing.antt =====
-- app/risk/position_sizing.py: how many units a trade may have, by its risk and by each cap.
use trading_ai_alpha_agent.Prelude.{[], ◌∷◌, Option, if◌then◌else◌}
use trading_ai_alpha_agent.Prelude.Int.{ℤ, pos, min_ℤ, max_ℤ}
use trading_ai_alpha_agent.Prelude.Text.{Dict}
use trading_ai_alpha_agent.Prelude.Result.{Result, ok, ◌>>=◌}
use trading_ai_alpha_agent.Prelude.Float.{Float, ◌-◌, ◌*◌, ◌≤?◌, of_ℕ, div, floor, max, abs}
use trading_ai_alpha_agent.Core.Enums.{is_etf, is_buy}
use trading_ai_alpha_agent.Schemas.Trading.{TradeCandidate, PortfolioSnapshot}
use trading_ai_alpha_agent.Schemas.Risk.{RiskConfig, Metric}
use trading_ai_alpha_agent.Risk.Limits.{market_exposure, market_exposure_pct}
use trading_ai_alpha_agent.Risk.Quality.{or_else}

-- the metrics that `cap_quantity` returns beside the quantity
pub record Caps (R : Type 0) : Type 0 where
  pub quantity_by_risk : ℤ
  pub quantity_by_position_cap : ℤ
  pub quantity_by_cash : ℤ
  pub quantity_by_market_exposure : ℤ
  pub entry_price_inr : R

abbrev pub metrics_of : {R : Type 0} → Caps R → Dict (Metric R)
metrics_of caps =
    ("quantity_by_risk", Metric.integer caps.quantity_by_risk)
    ∷ ("quantity_by_position_cap", Metric.integer caps.quantity_by_position_cap)
    ∷ ("quantity_by_cash", Metric.integer caps.quantity_by_cash)
    ∷ ("quantity_by_market_exposure", Metric.integer caps.quantity_by_market_exposure)
    ∷ ("entry_price_inr", Metric.number caps.entry_price_inr)
    ∷ []

-- `max(min(...), 0)`
abbrev pub capped_quantity : {R : Type 0} → Caps R → ℤ
capped_quantity caps =
    max_ℤ
      (min_ℤ
        (min_ℤ (min_ℤ caps.quantity_by_risk caps.quantity_by_position_cap) caps.quantity_by_cash)
        caps.quantity_by_market_exposure)
      (pos 0)

module _ {R : Type 0} ⦃f : Float R⦄ where
  -- `floor(x / y)`
  abbrev pub floor_ratio : R → R → Result ℤ
  floor_ratio x y = do floor (← div x y)

  unfoldable pub calculate_quantity_by_risk : R → R → R → R → Result ℤ
  calculate_quantity_by_risk value entry stop pct =
      let per_unit_risk = abs (entry - stop) in
      if per_unit_risk ≤? of_ℕ 0
      then ok (pos 0)
      else do quantity ← floor_ratio (value * pct) per_unit_risk; ok (max_ℤ quantity (pos 0))

  abbrev pub max_position_pct : TradeCandidate R → RiskConfig R → R
  max_position_pct c config =
      if is_etf c.asset_class
      then config.max_single_etf_position_pct
      else config.max_single_stock_position_pct

  -- both branches of the exposure that the market still has room for
  abbrev pub available_market_exposure : TradeCandidate R → PortfolioSnapshot R → RiskConfig R → R
  available_market_exposure c p config =
      max (p.total_value_inr * market_exposure_pct c.market config - market_exposure c.market p)
        (of_ℕ 0)

  abbrev pub by_cash : TradeCandidate R → PortfolioSnapshot R → ℤ → R → Result ℤ
  by_cash c p by_risk price = if is_buy c.action then floor_ratio p.cash_inr price else ok by_risk

  unfoldable pub quantity_caps :
      TradeCandidate R → PortfolioSnapshot R → RiskConfig R → ℤ → Option R → Result (Caps R)
  quantity_caps c p config by_risk entry = do
    let price = or_else entry c.entry_price
    position_cap ← floor_ratio (p.total_value_inr * max_position_pct c config) price
    cash ← by_cash c p by_risk price
    exposure ← floor_ratio (available_market_exposure c p config) price
    ok (record {
      quantity_by_risk = by_risk;
      quantity_by_position_cap = position_cap;
      quantity_by_cash = cash;
      quantity_by_market_exposure = exposure;
      entry_price_inr = price;
    })

  unfoldable pub cap_quantity :
      TradeCandidate R
      → PortfolioSnapshot R
      → RiskConfig R
      → ℤ
      → Option R
      → Result (ℤ × Dict (Metric R))
  unfolding quantity_caps
  cap_quantity c p config by_risk entry = do
    caps ← quantity_caps c p config by_risk entry
    ok (capped_quantity caps, metrics_of caps)
