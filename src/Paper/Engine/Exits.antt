-- ===== src/Paper/Engine/Exits.antt =====
-- Refused requests, sales, and the exits that `evaluate_exit` makes at a stop loss.
use text.Mathlib.TextEquality.{eq_iff}
use trading_ai_alpha_agent.Prelude.{
  String, true, false, none, some, ◌≡◌, refl, sym, ◌∙◌, subst, arith,
}
use trading_ai_alpha_agent.Prelude.Int.{ℤ, pos, ◌≤ℤ◌, ◌-ℤ◌, leb_ℤ, ltb_ℤ, int_laws}
use trading_ai_alpha_agent.Prelude.Text.{lookup, lookup-erase}
use trading_ai_alpha_agent.Prelude.Result.{ok}
use trading_ai_alpha_agent.Prelude.Float.{Float, ◌≤?◌}
use trading_ai_alpha_agent.Core.Enums.{Market, OrderSide, market_eq}
use trading_ai_alpha_agent.Schemas.Json.{Fields}
use trading_ai_alpha_agent.Paper.Symbols.{normalize_symbol, Timestamp}
use trading_ai_alpha_agent.Paper.Models.{PaperExitReason, PaperOrderRequest, PaperPosition}
use trading_ai_alpha_agent.Paper.Engine.State.{
  PaperTradingEngine, NormalizedRequest, append_entry, blocked,
}
use trading_ai_alpha_agent.Paper.Engine.Orders.{
  Answer, Fill, fill_of, entered, exited, close_position, remaining,
}
use trading_ai_alpha_agent.Paper.Engine.Account.{
  normalized, by_side, submit_order, exit_request, exit_check, exit_if_hit, evaluate_exit,
}
use trading_ai_alpha_agent.Paper.Engine.Cases.{
  IsAnswer, refused, bought, sold, submit_order-IsAnswer, IsReachable,
}
use trading_ai_alpha_agent.Paper.Engine.Positions.{IsTracked, IsKept, positions-IsTracked}

same_market : (m : Market) → market_eq m m ≡ true
unfolding market_eq
same_market Market.india = refl
same_market Market.us = refl

nothing_left : (q : ℤ) → leb_ℤ (q -ℤ q) (pos 0) ≡ true
nothing_left q = grind int_laws

module _ {R : Type 0} ⦃f : Float R⦄ where
  answer_refused :
      {id : String} {n : NormalizedRequest R} (e : PaperTradingEngine R) {answer : Answer R}
      → IsAnswer id n e answer
      → answer.1.accepted ≡ false
      → answer.0 ≡ append_entry answer.1.journal_entry e
  unfolding blocked entered exited
  answer_refused e (refused reason message same) h = rw same refl
  answer_refused e (bought x stop side may same) h = absurd (ground arith)
  answer_refused e (sold p reason x side may same) h = absurd (ground arith)

  -- A request that is not accepted changes nothing but the journal, which has the returned entry
  -- added at its end.
  pub refused_keeps_account :
      (id : String) (r : PaperOrderRequest R) (reason : PaperExitReason) (e : PaperTradingEngine R)
      (answer : Answer R)
      → submit_order id r reason e ≡ ok answer
      → answer.1.accepted ≡ false
      → answer.0 ≡ append_entry answer.1.journal_entry e
  refused_keeps_account id r reason e answer done =
      answer_refused e (submit_order-IsAnswer id r reason e done)

  -- the sale of a whole position
  whole_exit :
      (id : String) (p : PaperPosition R) (price : R) (t : Timestamp) (metadata : Fields)
      (reason : PaperExitReason) (e : PaperTradingEngine R) (x : Fill R)
      → normalize_symbol p.symbol ≡ p.symbol
      → lookup p.symbol e.positions ≡ some p
      → pos 1 ≤ℤ p.quantity
      → fill_of e.cost_model OrderSide.sell (exit_request p price t metadata) ≡ ok x
      → submit_order id (exit_request p price t metadata) reason e
        ≡ ok (exited id p (normalized (exit_request p price t metadata)) reason x e)
  unfolding submit_order by_side normalized close_position
  whole_exit id p price t metadata reason e x normal found positive filled =
      let some_units : leb_ℤ p.quantity (pos 0) ≡ false = ground arith in
      let enough : ltb_ℤ p.quantity p.quantity ≡ false = ground arith in
      let at_symbol : lookup (normalize_symbol p.symbol) e.positions ≡ some p = rw normal found in
      rw (submit_order, by_side, close_position, at_symbol)
        (rw (same_market p.market) (rw some_units (rw enough (rw filled refl))))

  -- What the answer of an exit at the stop loss is.
  pub record IsStopped (p : PaperPosition R) (answer : Answer R) : Type 0 where
    pub is_accepted : answer.1.accepted ≡ true
    pub is_stop_loss : answer.1.journal_entry.exit_reason ≡ PaperExitReason.stop_loss
    pub sold_all : answer.1.journal_entry.quantity ≡ p.quantity
    pub position_gone : answer.1.position ≡ none
    pub not_held : lookup p.symbol answer.0.positions ≡ none

  exited-IsStopped :
      (id : String) (p : PaperPosition R) (n : NormalizedRequest R) (x : Fill R)
      (e : PaperTradingEngine R)
      → IsTracked e
      → n.request.symbol ≡ p.symbol
      → n.request.quantity ≡ p.quantity
      → IsStopped p (exited id p n PaperExitReason.stop_loss x e)
  unfolding exited
  exited-IsStopped id p n x e h symbol units =
      let gone : remaining p (p.quantity -ℤ n.request.quantity) ≡ none =
        rw units (rw (nothing_left p.quantity) refl) in
      record {
        is_accepted = refl;
        is_stop_loss = refl;
        sold_all = units;
        position_gone = gone;
        not_held = rw gone (
            rw symbol (
              lookup-erase p.symbol p.symbol e.positions h.distinct
              ∙ ground (arith, eq_iff p.symbol p.symbol)));
      }

  -- If the market's low reaches the stop loss of an open position of a reachable engine, whose
  -- symbol is in normal form, and the cost model prices the sale, the whole position is sold as
  -- a stop loss, whatever the high and the target, and the symbol is no longer held.
  pub stop_loss_sells_all :
      (id symbol : String) (t : Timestamp) (low high : R) (e : PaperTradingEngine R)
      (p : PaperPosition R) (x : Fill R)
      → IsReachable e
      → normalize_symbol p.symbol ≡ p.symbol
      → lookup (normalize_symbol symbol) e.positions ≡ some p
      → (low ≤? p.stop_loss) ≡ true
      → fill_of e.cost_model OrderSide.sell (exit_request p p.stop_loss t (exit_check "stop_loss"))
        ≡ ok x
      → (answer : Answer R) × (evaluate_exit id symbol p.market t low high e ≡ ok (some answer))
        × IsStopped p answer
  unfolding evaluate_exit exit_if_hit normalized
  stop_loss_sells_all id symbol t low high e p x reached normal found low_hit filled =
      let tracked = positions-IsTracked e reached in
      let (symbol_eq, positive) : IsKept (normalize_symbol symbol) (some p) =
        subst (IsKept (normalize_symbol symbol)) found (tracked.kept (normalize_symbol symbol)) in
      let here : lookup p.symbol e.positions ≡ some p =
        subst (λ s. lookup s e.positions ≡ some p) (sym symbol_eq) found in
      (
        exited id p (normalized (exit_request p p.stop_loss t (exit_check "stop_loss")))
            PaperExitReason.stop_loss x e,
        rw (evaluate_exit, found)
            (rw (same_market p.market) (
              rw (exit_if_hit, low_hit)
                (rw
                  (whole_exit id p p.stop_loss t (exit_check "stop_loss") PaperExitReason.stop_loss
                    e x normal here positive filled)
                  refl))),
        exited-IsStopped id p (normalized (exit_request p p.stop_loss t (exit_check "stop_loss"))) x
            e tracked normal refl,
      )
