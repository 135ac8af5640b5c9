-- ===== src/Paper/Engine/Journal.antt =====
-- The journal accounts for the engine's cash, costs and realized profit.
use trading_ai_alpha_agent.Prelude.{String, List, [], ◌∷◌, ◌++◌, Option, ◌≡◌, refl, sym, ◌∙◌}
use trading_ai_alpha_agent.Prelude.Float.{Float, ◌+◌, ◌-◌, of_ℕ, negate}
use trading_ai_alpha_agent.Paper.Models.{
  PaperExitReason, PaperBlockReason, PaperPosition, PaperTradeJournalEntry,
}
use trading_ai_alpha_agent.Paper.Engine.State.{PaperTradingEngine, NormalizedRequest, blocked}
use trading_ai_alpha_agent.Paper.Engine.Orders.{Answer, Fill, entered, exited}
use trading_ai_alpha_agent.Paper.Engine.Cases.{
  IsAnswer, refused, bought, sold, submit_order-IsAnswer, make_engine-eq, IsReachable, started,
  ordered,
}

-- What the accounts need of the arithmetic; IEEE numbers have both, up to the sign of zero.
pub record IsAdditive (R : Type 0) ⦃f : Float R⦄ : Type 0 where
  pub sub-negate : (x y : R) → x - y ≡ x + negate y
  pub add_zero : (x : R) → x + of_ℕ 0 ≡ x

module _ {R : Type 0} ⦃f : Float R⦄ where
  -- a balance after entries are added to it, in their order
  abbrev pub balance : (PaperTradeJournalEntry R → R) → R → List (PaperTradeJournalEntry R) → R
  balance amount start [] = start
  balance amount start (j ∷ journal) = balance amount (start + amount j) journal

  balance-append :
      (amount : PaperTradeJournalEntry R → R) (start : R)
      (journal : List (PaperTradeJournalEntry R)) (j : PaperTradeJournalEntry R) {total : R}
      → balance amount start journal ≡ total
      → balance amount start (journal ++ (j ∷ [])) ≡ total + amount j
  balance-append amount start [] j h = rw h refl
  balance-append amount start (i ∷ journal) j h =
      balance-append amount (start + amount i) journal j h

  -- The journal, replayed from the start, gives the totals that the engine keeps.
  pub record IsReconciled (e : PaperTradingEngine R) : Type 0 where
    pub cash_agrees : balance (λ j. j.cash_change) e.starting_cash e.journal ≡ e.cash
    pub costs_agree : balance (λ j. j.costs) (of_ℕ 0) e.journal ≡ e.total_costs
    pub pnl_agrees : balance (λ j. j.realized_pnl) (of_ℕ 0) e.journal ≡ e.realized_pnl

  blocked-IsReconciled :
      (laws : IsAdditive R) (id : String) (n : NormalizedRequest R) (reason : PaperBlockReason)
      (message : Option String) (e : PaperTradingEngine R)
      → IsReconciled e
      → IsReconciled (blocked id n reason message e).0
  unfolding blocked
  blocked-IsReconciled laws id n reason message e h = record {
    cash_agrees = balance-append _ e.starting_cash e.journal _ h.cash_agrees ∙ laws.add_zero e.cash;
    costs_agree = balance-append _ (of_ℕ 0) e.journal _ h.costs_agree ∙ laws.add_zero e.total_costs;
    pnl_agrees = balance-append _ (of_ℕ 0) e.journal _ h.pnl_agrees ∙ laws.add_zero e.realized_pnl;
  }

  entered-IsReconciled :
      (laws : IsAdditive R) (id : String) (n : NormalizedRequest R) (x : Fill R) (stop : R)
      (e : PaperTradingEngine R)
      → IsReconciled e
      → IsReconciled (entered id n x stop e).0
  unfolding entered
  entered-IsReconciled laws id n x stop e h = record {
    cash_agrees =
        balance-append _ e.starting_cash e.journal _ h.cash_agrees ∙ sym (laws.sub-negate e.cash _);
    costs_agree = balance-append _ (of_ℕ 0) e.journal _ h.costs_agree;
    pnl_agrees = balance-append _ (of_ℕ 0) e.journal _ h.pnl_agrees ∙ laws.add_zero e.realized_pnl;
  }

  exited-IsReconciled :
      (id : String) (p : PaperPosition R) (n : NormalizedRequest R) (reason : PaperExitReason)
      (x : Fill R) (e : PaperTradingEngine R)
      → IsReconciled e
      → IsReconciled (exited id p n reason x e).0
  unfolding exited
  exited-IsReconciled id p n reason x e h = record {
    cash_agrees = balance-append _ e.starting_cash e.journal _ h.cash_agrees;
    costs_agree = balance-append _ (of_ℕ 0) e.journal _ h.costs_agree;
    pnl_agrees = balance-append _ (of_ℕ 0) e.journal _ h.pnl_agrees;
  }

  answer-IsReconciled :
      (laws : IsAdditive R) {id : String} {n : NormalizedRequest R} (e : PaperTradingEngine R)
      {answer : Answer R}
      → IsAnswer id n e answer
      → IsReconciled e
      → IsReconciled answer.0
  answer-IsReconciled laws {id} {n} e (refused reason message same) h =
      rw same (blocked-IsReconciled laws id n reason message e h)
  answer-IsReconciled laws {id} {n} e (bought x stop side may same) h =
      rw same (entered-IsReconciled laws id n x stop e h)
  answer-IsReconciled laws {id} {n} e (sold p reason x side may same) h =
      rw same (exited-IsReconciled id p n reason x e h)

  -- In every reachable engine the cash is the starting cash with every cash change of the journal
  -- added in order, the total costs are the sum of the journal's costs, and the realized profit is
  -- the sum of the journal's, if x - y is x + (-y) and x + 0 is x.
  pub journal_reconciles :
      (laws : IsAdditive R) (e : PaperTradingEngine R) → IsReachable e → IsReconciled e
  journal_reconciles laws e (started cash c l short costs limits made) =
      rw (make_engine-eq cash c l short made)
        (record { cash_agrees = refl; costs_agree = refl; pnl_agrees = refl })
  journal_reconciles laws _ (ordered id r reason before answer past done) =
      answer-IsReconciled laws before (submit_order-IsAnswer id r reason before done)
        (journal_reconciles laws before past)
