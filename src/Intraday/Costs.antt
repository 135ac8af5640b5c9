-- ===== src/Intraday/Costs.antt =====
-- app/intraday/costs.py: the charges of a round trip, for shadow reporting.
use trading_ai_alpha_agent.Prelude.Int.{pos}
use trading_ai_alpha_agent.Prelude.Float.{Float, ◌+◌, ◌*◌, of_ℕ, decimal, min, round}

pub record CostBreakdown (R : Type 0) : Type 0 where
  pub brokerage : R
  pub stt : R
  pub exchange_charges : R
  pub gst : R
  pub stamp_duty : R
  pub sebi_charges : R
  pub slippage_cost : R

module _ {R : Type 0} ⦃f : Float R⦄ where
  -- `CostBreakdown.total`
  unfoldable pub total_cost : CostBreakdown R → R
  total_cost c =
      c.brokerage + c.stt + c.exchange_charges + c.gst + c.stamp_duty + c.sebi_charges
      + c.slippage_cost

  abbrev brokerage_of : R → R → R
  brokerage_of buy_value sell_value =
      min (of_ℕ 20) (decimal (pos 3) 4 * buy_value) + min (of_ℕ 20) (decimal (pos 3) 4 * sell_value)

  -- `CostModel.calculate`
  unfoldable pub calculate_costs : R → R → R → CostBreakdown R
  calculate_costs buy_value sell_value slippage_cost =
      let turnover = buy_value + sell_value in
      let brokerage = brokerage_of buy_value sell_value in
      let exchange_charges = decimal (pos 325) 7 * turnover in
      let sebi_charges = decimal (pos 1) 6 * turnover in
      record {
        brokerage = round brokerage 4;
        stt = round (decimal (pos 25) 5 * sell_value) 4;
        exchange_charges = round exchange_charges 4;
        gst = round (decimal (pos 18) 2 * (brokerage + exchange_charges + sebi_charges)) 4;
        stamp_duty = round (decimal (pos 3) 5 * buy_value) 4;
        sebi_charges = round sebi_charges 4;
        slippage_cost = round slippage_cost 4;
      }
