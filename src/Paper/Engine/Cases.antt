-- ===== src/Paper/Engine/Cases.antt =====
-- What `submit_order` does: it blocks the request, enters a position or leaves one.
use trading_ai_alpha_agent.Prelude.{
  String, Bool, true, false, Option, none, some, ◌≡◌, ◌≢◌, refl, subst, inl, inr, Bool-cases,
  Option-cases, arith,
}
use trading_ai_alpha_agent.Prelude.Int.{pos, ◌≤ℤ◌, leb_ℤ, ltb_ℤ}
use trading_ai_alpha_agent.Prelude.Text.{lookup}
use trading_ai_alpha_agent.Prelude.Result.{Result, ok, err, Error, value_error, >>=-eq-ok}
use trading_ai_alpha_agent.Prelude.Float.{Float, ◌-◌, ◌<?◌, ◌≤?◌, of_ℕ}
use trading_ai_alpha_agent.Core.Enums.{OrderSide, market_eq}
use trading_ai_alpha_agent.Paper.Models.{
  PaperExitReason, PaperBlockReason, CostModel, PaperRiskLimits, PaperOrderRequest, PaperPosition,
  make_cost_model, make_risk_limits,
}
use trading_ai_alpha_agent.Paper.Engine.State.{
  PaperTradingEngine, NormalizedRequest, new_engine, make_engine, entry_block_reason, blocked,
}
use trading_ai_alpha_agent.Paper.Engine.Orders.{
  Answer, Fill, fill_of, cash_needed, entered, enter, open_position, exited, exit_from,
  close_position,
}
use trading_ai_alpha_agent.Paper.Engine.Account.{normalized, by_side, submit_order}

ok_eq : {A : Type 0} {a b : A} {r : Result A} → r ≡ ok a → r ≡ ok b → b ≡ a
ok_eq h k = cc

err-ok : {A : Type 0} {x : Error} {a : A} → err x ≢ ok a
err-ok h = cc

module _ {R : Type 0} ⦃f : Float R⦄ where
  -- What the engine has checked when it enters a position.
  pub record MayEnter (n : NormalizedRequest R) (x : Fill R) (e : PaperTradingEngine R)
      : Type 0 where
    pub unblocked : entry_block_reason n e ≡ none
    pub is_filled : fill_of e.cost_model OrderSide.buy n.request ≡ ok x
    pub is_funded : (e.cash - cash_needed x <? e.risk_limits.min_cash_buffer) ≡ false

  -- What it has checked when it leaves a position.
  pub record MayExit (p : PaperPosition R) (n : NormalizedRequest R) (x : Fill R)
      (e : PaperTradingEngine R) : Type 0 where
    pub is_open : lookup n.request.symbol e.positions ≡ some p
    pub same_market : market_eq p.market n.request.market ≡ true
    pub is_positive : pos 1 ≤ℤ n.request.quantity
    pub is_held : n.request.quantity ≤ℤ p.quantity
    pub is_filled : fill_of e.cost_model OrderSide.sell n.request ≡ ok x

  -- The answers that a request can have.
  pub data IsAnswer (id : String) (n : NormalizedRequest R) (e : PaperTradingEngine R)
      (answer : Answer R) : Type 0 where
    refused :
        (reason : PaperBlockReason) (message : Option String)
        → answer ≡ blocked id n reason message e
        → IsAnswer id n e answer
    bought :
        (x : Fill R) (stop : R)
        → n.request.side ≡ OrderSide.buy
        → MayEnter n x e
        → answer ≡ entered id n x stop e
        → IsAnswer id n e answer
    sold :
        (p : PaperPosition R) (reason : PaperExitReason) (x : Fill R)
        → n.request.side ≡ OrderSide.sell
        → MayExit p n x e
        → answer ≡ exited id p n reason x e
        → IsAnswer id n e answer

  enter-IsAnswer :
      (id : String) (n : NormalizedRequest R) (x : Fill R) (e : PaperTradingEngine R)
      {answer : Answer R}
      → n.request.side ≡ OrderSide.buy
      → entry_block_reason n e ≡ none
      → fill_of e.cost_model OrderSide.buy n.request ≡ ok x
      → enter id n x e ≡ ok answer
      → IsAnswer id n e answer
  enter-IsAnswer id n x e side free filled h =
      elim (Bool-cases (e.cash - cash_needed x <? e.risk_limits.min_cash_buffer)) [
        | inl short ↦ refused PaperBlockReason.insufficient_cash none (ok_eq (rw short refl) h)
        | inr funded ↦ elim (Option-cases n.request.stop_loss) [
          | inl missing ↦ absurd (ground arith)
          | inr (stop, given) ↦
              bought x stop side
                (record { unblocked = free; is_filled = filled; is_funded = funded })
                (ok_eq (rw funded (rw given refl)) h)
        ]
      ]

  open_position-IsAnswer :
      (id : String) (n : NormalizedRequest R) (e : PaperTradingEngine R) {answer : Answer R}
      → n.request.side ≡ OrderSide.buy
      → open_position id n e ≡ ok answer
      → IsAnswer id n e answer
  unfolding open_position
  open_position-IsAnswer id n e {answer} side h = elim (Option-cases (entry_block_reason n e)) [
    | inl free ↦
        let (x, filled, entering) =
          >>=-eq-ok (fill_of e.cost_model OrderSide.buy n.request) (λ x. enter id n x e)
            (subst (λ r. r ≡ ok answer) (rw (open_position, free) refl) h) in
        enter-IsAnswer id n x e side free filled entering
    | inr (reason, blocks) ↦ refused reason none (ok_eq (rw (open_position, blocks) refl) h)
  ]

  exit_from-IsAnswer :
      (id : String) (p : PaperPosition R) (n : NormalizedRequest R) (reason : PaperExitReason)
      (e : PaperTradingEngine R) {answer : Answer R}
      → n.request.side ≡ OrderSide.sell
      → lookup n.request.symbol e.positions ≡ some p
      → exit_from id p n reason e ≡ ok answer
      → IsAnswer id n e answer
  exit_from-IsAnswer id p n reason e {answer} side found h =
      elim (Bool-cases (market_eq p.market n.request.market)) [
        | inr other ↦
            refused PaperBlockReason.invalid_request (some "market_mismatch")
              (ok_eq (rw other refl) h)
        | inl same ↦ elim (Bool-cases (leb_ℤ n.request.quantity (pos 0))) [
          | inl empty ↦
              refused PaperBlockReason.invalid_request (some "quantity_must_be_positive")
                (ok_eq (rw same (rw empty refl)) h)
          | inr positive ↦ elim (Bool-cases (ltb_ℤ p.quantity n.request.quantity)) [
            | inl short ↦
                refused PaperBlockReason.short_selling_disabled none
                  (ok_eq (rw same (rw positive (rw short refl))) h)
            | inr covered ↦
                let (x, filled, rest) =
                  >>=-eq-ok (fill_of e.cost_model OrderSide.sell n.request)
                    (λ x. ok (exited id p n reason x e))
                    (subst (λ r. r ≡ ok answer) (rw same (rw positive (rw covered refl))) h) in
                sold p reason x side
                  (record {
                    is_open = found;
                    same_market = same;
                    is_positive = ground arith;
                    is_held = ground arith;
                    is_filled = filled;
                  })
                  (ok_eq refl rest)
          ]
        ]
      ]

  close_position-IsAnswer :
      (id : String) (n : NormalizedRequest R) (reason : PaperExitReason) (e : PaperTradingEngine R)
      {answer : Answer R}
      → n.request.side ≡ OrderSide.sell
      → close_position id n reason e ≡ ok answer
      → IsAnswer id n e answer
  unfolding close_position
  close_position-IsAnswer id n reason e {answer} side h =
      elim (Option-cases (lookup n.request.symbol e.positions)) [
        | inl missing ↦
            refused PaperBlockReason.invalid_request (some "position_not_open")
              (ok_eq (rw (close_position, missing) refl) h)
        | inr (p, found) ↦
            exit_from-IsAnswer id p n reason e side found
              (subst (λ r. r ≡ ok answer) (rw (close_position, found) refl) h)
      ]

  by_side-IsAnswer :
      (id : String) (side : OrderSide) (n : NormalizedRequest R) (reason : PaperExitReason)
      (e : PaperTradingEngine R) {answer : Answer R}
      → n.request.side ≡ side
      → by_side id side n reason e ≡ ok answer
      → IsAnswer id n e answer
  unfolding by_side
  by_side-IsAnswer id OrderSide.buy n reason e side h = open_position-IsAnswer id n e side h
  by_side-IsAnswer id OrderSide.sell n reason e side h =
      close_position-IsAnswer id n reason e side h

  -- Every request that the engine answers is blocked, enters a position or leaves one, with the
  -- checks of that case made on the engine before the call.
  pub submit_order-IsAnswer :
      (id : String) (r : PaperOrderRequest R) (reason : PaperExitReason) (e : PaperTradingEngine R)
      {answer : Answer R}
      → submit_order id r reason e ≡ ok answer
      → IsAnswer id (normalized r) e answer
  unfolding submit_order normalized
  submit_order-IsAnswer id r reason e h = by_side-IsAnswer id r.side (normalized r) reason e refl h

  -- The engines that a program can come to hold: a new one, with a cost model and limits that their
  -- constructors accept, and an engine after an order.
  pub data IsReachable : PaperTradingEngine R → Type 0 where
    started :
        (cash : R) (c : CostModel R) (l : PaperRiskLimits R) (short : Bool)
        {e : PaperTradingEngine R}
        → make_cost_model c ≡ ok c
        → make_risk_limits l ≡ ok l
        → make_engine cash c l short ≡ ok e
        → IsReachable e
    ordered :
        (id : String) (r : PaperOrderRequest R) (reason : PaperExitReason)
        (e : PaperTradingEngine R) (answer : Answer R)
        → IsReachable e
        → submit_order id r reason e ≡ ok answer
        → IsReachable answer.0

  pub make_engine-eq :
      (cash : R) (c : CostModel R) (l : PaperRiskLimits R) (short : Bool) {e : PaperTradingEngine R}
      → make_engine cash c l short ≡ ok e
      → e ≡ new_engine cash c l short
  unfolding make_engine
  make_engine-eq cash c l short {e} h = elim (Bool-cases (cash ≤? of_ℕ 0)) [
    | inl poor ↦ absurd (
        err-ok {x = value_error "starting_cash_must_be_positive"}
          (subst (λ r. r ≡ ok e) (rw (make_engine, poor) refl) h))
    | inr funded ↦ ok_eq (rw (make_engine, funded) refl) h
  ]
