-- ===== src/Intraday/ShadowExecution.antt =====
-- app/intraday/shadow_execution.py: the simulated fill of an approved signal.
use trading_ai_alpha_agent.Prelude.{String, ℕ, Bool, not, ◌||◌, Option, none, some, if◌then◌else◌}
use trading_ai_alpha_agent.Prelude.Int.{ℤ, pos, leb_ℤ}
use trading_ai_alpha_agent.Prelude.Result.{Result, ok, ◌>>=◌}
use trading_ai_alpha_agent.Prelude.Float.{Float, ◌+◌, ◌-◌, ◌*◌, ◌<?◌, of_ℕ, div, max, abs, round}
use trading_ai_alpha_agent.Intraday.Config.{IntradayShadowConfig}
use trading_ai_alpha_agent.Intraday.Models.{
  Direction, FillStatus, MarketDataSnapshot, RiskApproval, ShadowOrder, Signal,
}
use trading_ai_alpha_agent.Intraday.Regime.{truthy}

module _ {R : Type 0} ⦃f : Float R⦄ where
  -- the order of a signal that is not filled; the id and the moment are drawn
  abbrev pub unfilled :
      IntradayShadowConfig R → String → ℕ → Signal R → ℤ → FillStatus → String → ShadowOrder R
  unfilled config id now signal quantity status reason = record {
    shadow_order_id = id;
    signal_id = signal.signal_id;
    symbol = signal.symbol;
    direction = signal.direction;
    expected_entry = signal.entry_price;
    simulated_fill = none;
    quantity = quantity;
    slippage = of_ℕ 0;
    spread = of_ℕ 0;
    latency_ms = config.latency_ms;
    fill_status = status;
    rejection_reason = some reason;
    timestamp = now;
  }

  -- `value or default`
  abbrev or_else : Option R → R → R
  or_else value default = elim (truthy value) [ none ↦ default | some x ↦ x ]

  abbrev pub spread_at : Signal R → MarketDataSnapshot R → R
  spread_at signal s =
      max (or_else s.ask signal.entry_price - or_else s.bid signal.entry_price) (of_ℕ 0)

  abbrev pub slippage_at : IntradayShadowConfig R → Signal R → R
  slippage_at config signal = f.quotient (signal.entry_price * config.slippage_bps) (of_ℕ 10_000)

  -- an entry is filled on the worse side of its price
  abbrev pub fill_price : Direction → R → R → R → R
  fill_price Direction.long entry slippage spread = entry + slippage + f.quotient spread (of_ℕ 2)
  fill_price Direction.short entry slippage spread = entry - slippage - f.quotient spread (of_ℕ 2)

  abbrev pub filled_order :
      IntradayShadowConfig R → String → ℕ → Signal R → ℤ → MarketDataSnapshot R → ShadowOrder R
  filled_order config id now signal quantity s =
      let slippage = slippage_at config signal in
      let spread = spread_at signal s in
      record {
        shadow_order_id = id;
        signal_id = signal.signal_id;
        symbol = signal.symbol;
        direction = signal.direction;
        expected_entry = signal.entry_price;
        simulated_fill =
            some (round (fill_price signal.direction signal.entry_price slippage spread) 4);
        quantity = quantity;
        slippage = round slippage 4;
        spread = round spread 4;
        latency_ms = config.latency_ms;
        fill_status = FillStatus.filled;
        rejection_reason = none;
        timestamp = now;
      }

  -- the branches after the approval: a missed entry or a fill
  abbrev pub enter_or_miss :
      IntradayShadowConfig R → String → ℕ → Signal R → ℤ → MarketDataSnapshot R → R → ShadowOrder R
  enter_or_miss config id now signal quantity s move_pct =
      if config.max_entry_move_pct <? move_pct
      then unfilled config id now signal quantity FillStatus.missed "price_moved_too_far"
      else filled_order config id now signal quantity s

  -- `not approval.approved or approval.quantity <= 0`
  abbrev pub is_refused : RiskApproval R → Bool
  is_refused approval = not approval.approved || leb_ℤ approval.quantity (pos 0)

  -- `ShadowExecutionSimulator.simulate`, with the drawn id and the moment
  unfoldable pub simulate :
      IntradayShadowConfig R
      → String
      → ℕ
      → Signal R
      → RiskApproval R
      → MarketDataSnapshot R
      → Result (ShadowOrder R)
  simulate config id now signal approval s =
      if is_refused approval
      then ok (unfilled config id now signal (pos 0) FillStatus.rejected "risk_not_approved")
      else (div (abs (s.last_price - signal.entry_price)) signal.entry_price >>= λ move_pct.
          ok (enter_or_miss config id now signal approval.quantity s move_pct))
