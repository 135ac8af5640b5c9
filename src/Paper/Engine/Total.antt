-- ===== src/Paper/Engine/Total.antt =====
-- When `submit_order` returns: its exceptions are those of the cost model.
use trading_ai_alpha_agent.Prelude.{
  String, Bool, true, false, not, ◌≡◌, refl, Bool-cases, Option-cases, inl, inr, arith,
  if◌then◌else◌,
}
use trading_ai_alpha_agent.Prelude.Int.{pos, leb_ℤ, ltb_ℤ}
use trading_ai_alpha_agent.Prelude.Text.{lookup}
use trading_ai_alpha_agent.Prelude.Result.{Result, ok}
use trading_ai_alpha_agent.Prelude.Float.{Float, ◌-◌, ◌*◌, ◌<?◌, ◌≤?◌, of_ℕ, of_ℤ}
use trading_ai_alpha_agent.Core.Enums.{OrderSide, market_eq}
use trading_ai_alpha_agent.Paper.Models.{
  CostModel, PaperExitReason, PaperOrderRequest, PaperPosition, slipped, execution_price,
  transaction_cost,
}
use trading_ai_alpha_agent.Paper.Engine.State.{
  PaperTradingEngine, NormalizedRequest, entry_block_reason, bad_stop,
}
use trading_ai_alpha_agent.Paper.Engine.Orders.{
  Answer, Fill, fill_of, cash_needed, enter, open_position, exit_from, close_position,
}
use trading_ai_alpha_agent.Paper.Engine.Account.{normalized, by_side, submit_order}
use trading_ai_alpha_agent.Paper.Engine.Limits.{unblocked-IsSafeEntry}

module _ {R : Type 0} ⦃f : Float R⦄ where
  -- The answer is there.
  abbrev Answers : Result (Answer R) → Type 0
  Answers m = (answer : Answer R) × (m ≡ ok answer)

  Answers-if :
      (b : Bool) {m k : Result (Answer R)} → Answers m → Answers k → Answers (if b then m else k)
  Answers-if true h k = h
  Answers-if false h k = k

  -- What the order is worth at the price of its execution.
  abbrev pub gross_of : CostModel R → OrderSide → PaperOrderRequest R → R
  gross_of c side r = slipped c side r.reference_price * of_ℤ r.quantity

  fill_total :
      (c : CostModel R) (side : OrderSide) (r : PaperOrderRequest R)
      → (r.reference_price ≤? of_ℕ 0) ≡ false
      → (gross_of c side r <? of_ℕ 0) ≡ false
      → (x : Fill R) × (fill_of c side r ≡ ok x)
  unfolding execution_price transaction_cost
  fill_total c side r price gross = rw price (rw gross (_, refl))

  enter_total :
      (id : String) (n : NormalizedRequest R) (x : Fill R) (e : PaperTradingEngine R)
      → bad_stop n.request.stop_loss n.request.reference_price ≡ false
      → Answers (enter id n x e)
  enter_total id n x e stop =
      elim (Bool-cases (e.cash - cash_needed x <? e.risk_limits.min_cash_buffer)) [
        | inl short ↦ rw short (_, refl)
        | inr funded ↦ elim (Option-cases n.request.stop_loss) [
          | inl missing ↦ absurd (ground arith)
          | inr (level, given) ↦ rw funded (rw given (_, refl))
        ]
      ]

  open_position_total :
      (id : String) (n : NormalizedRequest R) (e : PaperTradingEngine R) {x : Fill R}
      → fill_of e.cost_model OrderSide.buy n.request ≡ ok x
      → Answers (open_position id n e)
  unfolding open_position
  open_position_total id n e {x} filled = elim (Option-cases (entry_block_reason n e)) [
    | inl free ↦
        let (answer, entered) =
          enter_total id n x e (unblocked-IsSafeEntry n e free).stop_below_price in
        (answer, rw (open_position, free) (rw filled entered))
    | inr (reason, blocks) ↦ rw (open_position, blocks) (_, refl)
  ]

  exit_from_total :
      (id : String) (p : PaperPosition R) (n : NormalizedRequest R) (reason : PaperExitReason)
      (e : PaperTradingEngine R) {x : Fill R}
      → fill_of e.cost_model OrderSide.sell n.request ≡ ok x
      → Answers (exit_from id p n reason e)
  exit_from_total id p n reason e filled = rw filled (
      Answers-if (not (market_eq p.market n.request.market)) (_, refl)
        (Answers-if (leb_ℤ n.request.quantity (pos 0)) (_, refl)
          (Answers-if (ltb_ℤ p.quantity n.request.quantity) (_, refl) (_, refl))))

  close_position_total :
      (id : String) (n : NormalizedRequest R) (reason : PaperExitReason) (e : PaperTradingEngine R)
      {x : Fill R}
      → fill_of e.cost_model OrderSide.sell n.request ≡ ok x
      → Answers (close_position id n reason e)
  unfolding close_position
  close_position_total id n reason e filled =
      elim (Option-cases (lookup n.request.symbol e.positions)) [
        | inl missing ↦ rw (close_position, missing) (_, refl)
        | inr (p, found) ↦
            let (answer, h) = exit_from_total id p n reason e filled in
            (answer, rw (close_position, found) h)
      ]

  by_side_total :
      (id : String) (side : OrderSide) (n : NormalizedRequest R) (reason : PaperExitReason)
      (e : PaperTradingEngine R) {x : Fill R}
      → fill_of e.cost_model side n.request ≡ ok x
      → Answers (by_side id side n reason e)
  unfolding by_side
  by_side_total id OrderSide.buy n reason e filled = open_position_total id n e filled
  by_side_total id OrderSide.sell n reason e filled = close_position_total id n reason e filled

  pub submit_order_total :
      (id : String) (r : PaperOrderRequest R) (reason : PaperExitReason) (e : PaperTradingEngine R)
      → (r.reference_price ≤? of_ℕ 0) ≡ false
      → (gross_of e.cost_model r.side r <? of_ℕ 0) ≡ false
      → (answer : Answer R) × (submit_order id r reason e ≡ ok answer)
  unfolding submit_order normalized
  submit_order_total id r reason e price gross =
      by_side_total id r.side (normalized r) reason e
        (fill_total e.cost_model r.side r price gross).1
