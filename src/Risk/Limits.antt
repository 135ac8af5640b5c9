-- ===== src/Risk/Limits.antt =====
-- app/risk/{drawdown,exposure,rules,long_only}.py: losses, exposures, the stop loss and the rule
-- that only what is held can be sold.
use trading_ai_alpha_agent.Prelude.{
  String, ℕ, Bool, true, false, not, ◌&&◌, ◌||◌, List, [], ◌∷◌, Option, none, some, raised,
  if◌then◌else◌,
}
use trading_ai_alpha_agent.Prelude.Int.{ℤ, pos, leb_ℤ, ltb_ℤ}
use trading_ai_alpha_agent.Prelude.Text.{eqb, is_empty, lookup}
use trading_ai_alpha_agent.Prelude.Result.{Result, ok, ◌>>=◌}
use trading_ai_alpha_agent.Prelude.Float.{Float, ◌+◌, ◌*◌, ◌<?◌, ◌=?◌, of_ℕ, div, min, abs}
use trading_ai_alpha_agent.Core.Enums.{Market, market_eq, is_india, is_buy, is_sell}
use trading_ai_alpha_agent.Schemas.Trading.{TradeCandidate, OpenPosition, PortfolioSnapshot}
use trading_ai_alpha_agent.Schemas.Risk.{RiskConfig}

module _ {R : Type 0} ⦃f : Float R⦄ where
  -- the loss as a share of the portfolio's value
  abbrev pub loss_pct : R → PortfolioSnapshot R → Result R
  loss_pct pnl portfolio = div (abs (min pnl (of_ℕ 0))) portfolio.total_value_inr

  abbrev pub drawdown_checks : PortfolioSnapshot R → RiskConfig R → R → R → List (Bool × String)
  drawdown_checks portfolio config daily weekly =
      (config.max_daily_loss_pct <? daily, "daily_loss_limit_exceeded")
      ∷ (config.max_weekly_loss_pct <? weekly, "weekly_loss_limit_exceeded")
      ∷ (
        config.max_monthly_drawdown_pct <? portfolio.monthly_drawdown_pct,
        "monthly_drawdown_limit_exceeded",
      )
      ∷ (
        config.max_total_drawdown_pct <? portfolio.total_drawdown_pct,
        "total_drawdown_limit_exceeded",
      )
      ∷ []

  unfoldable pub drawdown_reasons : PortfolioSnapshot R → RiskConfig R → Result (List String)
  drawdown_reasons portfolio config = do
    daily ← loss_pct portfolio.daily_pnl_inr portfolio
    weekly ← loss_pct portfolio.weekly_pnl_inr portfolio
    ok (raised (drawdown_checks portfolio config daily weekly))

  -- `if sector:` and the check under it
  abbrev sector_over : Option String → PortfolioSnapshot R → RiskConfig R → R → Bool
  sector_over none portfolio config value = false
  sector_over (some sector) portfolio config value =
      if is_empty sector
      then false
      else portfolio.total_value_inr * config.max_sector_exposure_pct
        <? elim (lookup sector portfolio.exposures_by_sector) [ none ↦ of_ℕ 0 | some v ↦ v ] + value

  abbrev pub market_exposure : Market → PortfolioSnapshot R → R
  market_exposure Market.india p = p.india_exposure_inr
  market_exposure Market.us p = p.us_exposure_inr

  abbrev pub market_exposure_pct : Market → RiskConfig R → R
  market_exposure_pct Market.india c = c.max_india_exposure_pct
  market_exposure_pct Market.us c = c.max_us_exposure_pct

  abbrev pub exposure_checks :
      Market → PortfolioSnapshot R → RiskConfig R → R → Option String → List (Bool × String)
  exposure_checks market portfolio config value sector =
      (
        portfolio.total_value_inr * config.max_total_equity_exposure_pct
            <? portfolio.equity_exposure_inr + value,
        "total_equity_exposure_limit_exceeded",
      )
      ∷ (
        portfolio.total_value_inr * market_exposure_pct market config
            <? market_exposure market portfolio + value,
        if is_india market then "india_exposure_limit_exceeded" else "us_exposure_limit_exceeded",
      )
      ∷ (sector_over sector portfolio config value, "sector_exposure_limit_exceeded")
      ∷ []

  unfoldable pub exposure_reasons :
      Market → PortfolioSnapshot R → RiskConfig R → R → Option String → List String
  exposure_reasons market portfolio config value sector =
      raised (exposure_checks market portfolio config value sector)

  abbrev pub equals_entry : Option R → R → Bool
  equals_entry none entry = false
  equals_entry (some stop) entry = stop =? entry

  abbrev pub is_missing : Option R → Bool
  is_missing none = true
  is_missing (some stop) = false

  unfoldable pub stop_loss_rejection_reason : TradeCandidate R → Option String
  stop_loss_rejection_reason c =
      if (is_buy c.action || is_sell c.action) && is_missing c.stop_loss
      then some "stop_loss_required"
      else if equals_entry c.stop_loss c.entry_price
      then some "stop_loss_equals_entry_price"
      else none

  unfoldable pub reward_risk_rejection_reason : TradeCandidate R → R → Option String
  reward_risk_rejection_reason c minimum =
      if c.reward_risk_ratio <? minimum then some "reward_risk_ratio_below_minimum" else none

module _ {R : Type 0} where
  -- `position.market == candidate.market and position.symbol == candidate.symbol`
  abbrev pub is_of : TradeCandidate R → OpenPosition R → Bool
  is_of c p = market_eq p.market c.market && eqb p.symbol c.symbol

  -- The schema keeps a position's quantity at 0 or more, so `max(quantity, 0)` is the quantity.
  unfoldable pub existing_long_quantity : TradeCandidate R → List (OpenPosition R) → ℕ
  existing_long_quantity c [] = 0
  existing_long_quantity c (p ∷ ps) =
      let rest = existing_long_quantity c ps in if is_of c p then p.quantity else rest

  unfoldable pub long_only_rejection_reason :
      TradeCandidate R → ℤ → List (OpenPosition R) → Option String
  long_only_rejection_reason c requested positions =
      let available = pos (existing_long_quantity c positions) in
      if not (is_sell c.action)
      then none
      else if leb_ℤ available (pos 0)
      then some "sell_without_existing_long_position"
      else if ltb_ℤ available requested
      then some "sell_quantity_exceeds_existing_long_position"
      else none
