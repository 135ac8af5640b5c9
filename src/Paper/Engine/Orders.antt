-- ===== src/Paper/Engine/Orders.antt =====
-- `submit_order`, with `_open_position` and `_close_position`. The exceptions of the cost model are
-- raised before the first write, so a call that raises leaves the engine as it was.
use trading_ai_alpha_agent.Prelude.{String, true, Option, none, some, if◌then◌else◌, not}
use trading_ai_alpha_agent.Prelude.Int.{ℤ, pos, ◌+ℤ◌, ◌-ℤ◌, leb_ℤ, ltb_ℤ}
use trading_ai_alpha_agent.Prelude.Text.{Dict, lookup, insert, erase}
use trading_ai_alpha_agent.Prelude.Result.{Result, ok, err, type_error, ◌>>=◌}
use trading_ai_alpha_agent.Prelude.Float.{Float, ◌+◌, ◌-◌, ◌*◌, ◌<?◌, of_ℕ, of_ℤ, negate}
use trading_ai_alpha_agent.Core.Enums.{OrderSide, market_eq}
use trading_ai_alpha_agent.Paper.Models.{
  PaperTradeStatus, PaperExitReason, PaperBlockReason, CostModel, PaperOrderRequest, PaperPosition,
  PaperTradeJournalEntry, PaperExecutionResult, execution_price, transaction_cost, basis_of,
}
use trading_ai_alpha_agent.Paper.Engine.State.{
  PaperTradingEngine, NormalizedRequest, date, at_day, entry_block_reason, append_entry, blocked,
}

-- the engine after a call, with what the call returns
abbrev pub Answer : Type 0 → Type 0
Answer R = PaperTradingEngine R × PaperExecutionResult R

-- the price of an execution, its value and its costs
pub record Fill (R : Type 0) : Type 0 where
  pub price : R
  pub gross : R
  pub costs : R

-- `position.quantity = remaining_quantity`, or `None` when nothing remains
abbrev pub remaining : {R : Type 0} → PaperPosition R → ℤ → Option (PaperPosition R)
remaining p left = if leb_ℤ left (pos 0) then none else some (record p { quantity = left })

abbrev pub write_position :
    {R : Type 0}
    → String
    → Option (PaperPosition R)
    → Dict (PaperPosition R)
    → Dict (PaperPosition R)
write_position s none d = erase s d
write_position s (some p) d = insert s p d

module _ {R : Type 0} ⦃f : Float R⦄ where
  -- the lines of both sides that ask the cost model
  abbrev pub fill_of : CostModel R → OrderSide → PaperOrderRequest R → Result (Fill R)
  fill_of c side r = do
    price ← execution_price c side r.reference_price
    let gross = price * of_ℤ r.quantity
    costs ← transaction_cost c gross
    ok (record { price = price; gross = gross; costs = costs })

  abbrev pub cash_needed : Fill R → R
  cash_needed x = x.gross + x.costs

  abbrev pub proceeds : Fill R → R
  proceeds x = x.gross - x.costs

  -- `float(stop_loss)`; a request without one is blocked before, so no write precedes the exception
  abbrev required : Option R → Result R
  required none = err type_error
  required (some stop) = ok stop

  abbrev pub opened_position : NormalizedRequest R → Fill R → R → PaperPosition R
  opened_position n x stop =
      let r = n.request in
      record {
        symbol = r.symbol;
        market = r.market;
        quantity = r.quantity;
        average_entry_price = x.price;
        entry_cost_per_unit = f.quotient x.costs (of_ℤ r.quantity);
        stop_loss = stop;
        take_profit = r.take_profit;
        opened_at = n.submitted_at;
        metadata = r.metadata;
      }

  abbrev pub opened_entry : String → NormalizedRequest R → Fill R → PaperTradeJournalEntry R
  opened_entry id n x =
      let r = n.request in
      record {
        id = id;
        timestamp = n.submitted_at;
        symbol = r.symbol;
        market = r.market;
        side = OrderSide.buy;
        quantity = r.quantity;
        requested_price = r.reference_price;
        execution_price = x.price;
        gross_value = x.gross;
        costs = x.costs;
        cash_change = negate (cash_needed x);
        status = PaperTradeStatus.opened;
        realized_pnl = of_ℕ 0;
        exit_reason = PaperExitReason.not_an_exit;
        block_reason = none;
        message = "research_entry_opened";
        metadata = r.metadata;
      }

  -- the writes of an entry
  unfoldable pub entered :
      String → NormalizedRequest R → Fill R → R → PaperTradingEngine R → Answer R
  unfolding insert
  entered id n x stop e =
      let day = date n.submitted_at in
      let position = opened_position n x stop in
      let j = opened_entry id n x in
      let e' = record e {
        cash = e.cash - cash_needed x;
        total_costs = e.total_costs + x.costs;
        positions = insert n.request.symbol position e.positions;
        daily_entry_count = at_day day (e.daily_entry_count day +ℤ pos 1) e.daily_entry_count;
      } in
      (append_entry j e', record { accepted = true; journal_entry = j; position = some position })

  abbrev pub enter :
      String → NormalizedRequest R → Fill R → PaperTradingEngine R → Result (Answer R)
  enter id n x e =
      if e.cash - cash_needed x <? e.risk_limits.min_cash_buffer
      then ok (blocked id n PaperBlockReason.insufficient_cash none e)
      else do stop ← required n.request.stop_loss; ok (entered id n x stop e)

  -- `_open_position`
  unfoldable pub open_position :
      String → NormalizedRequest R → PaperTradingEngine R → Result (Answer R)
  unfolding entry_block_reason blocked entered execution_price transaction_cost
  open_position id n e = elim (entry_block_reason n e) [
    | some reason ↦ ok (blocked id n reason none e)
    | none ↦ do x ← fill_of e.cost_model OrderSide.buy n.request; enter id n x e
  ]

  abbrev pub realized : PaperPosition R → NormalizedRequest R → Fill R → R
  realized p n x = x.gross - x.costs - basis_of p n.request.quantity

  abbrev pub closed_entry :
      String
      → PaperPosition R
      → NormalizedRequest R
      → PaperExitReason
      → Fill R
      → PaperTradeJournalEntry R
  closed_entry id p n reason x =
      let r = n.request in
      record {
        id = id;
        timestamp = n.submitted_at;
        symbol = r.symbol;
        market = r.market;
        side = OrderSide.sell;
        quantity = r.quantity;
        requested_price = r.reference_price;
        execution_price = x.price;
        gross_value = x.gross;
        costs = x.costs;
        cash_change = proceeds x;
        status = PaperTradeStatus.closed;
        realized_pnl = realized p n x;
        exit_reason = reason;
        block_reason = none;
        message = "research_position_closed";
        metadata = r.metadata;
      }

  -- the writes of an exit
  unfoldable pub exited :
      String
      → PaperPosition R
      → NormalizedRequest R
      → PaperExitReason
      → Fill R
      → PaperTradingEngine R
      → Answer R
  unfolding insert erase
  exited id p n reason x e =
      let day = date n.submitted_at in
      let pnl = realized p n x in
      let left = remaining p (p.quantity -ℤ n.request.quantity) in
      let j = closed_entry id p n reason x in
      let e' = record e {
        cash = e.cash + proceeds x;
        realized_pnl = e.realized_pnl + pnl;
        total_costs = e.total_costs + x.costs;
        daily_realized_pnl = at_day day (e.daily_realized_pnl day + pnl) e.daily_realized_pnl;
        positions = write_position n.request.symbol left e.positions;
      } in
      (append_entry j e', record { accepted = true; journal_entry = j; position = left })

  abbrev pub exit_from :
      String
      → PaperPosition R
      → NormalizedRequest R
      → PaperExitReason
      → PaperTradingEngine R
      → Result (Answer R)
  exit_from id p n reason e =
      let r = n.request in
      if not (market_eq p.market r.market)
      then ok (blocked id n PaperBlockReason.invalid_request (some "market_mismatch") e)
      else if leb_ℤ r.quantity (pos 0)
      then ok (blocked id n PaperBlockReason.invalid_request (some "quantity_must_be_positive") e)
      else if ltb_ℤ p.quantity r.quantity
      then ok (blocked id n PaperBlockReason.short_selling_disabled none e)
      else do x ← fill_of e.cost_model OrderSide.sell r; ok (exited id p n reason x e)

  -- `_close_position`
  unfoldable pub close_position :
      String → NormalizedRequest R → PaperExitReason → PaperTradingEngine R → Result (Answer R)
  unfolding lookup blocked exited execution_price transaction_cost market_eq
  close_position id n reason e = elim (lookup n.request.symbol e.positions) [
    | none ↦ ok (blocked id n PaperBlockReason.invalid_request (some "position_not_open") e)
    | some p ↦ exit_from id p n reason e
  ]
