-- ===== src/Paper/Engine/Positions.antt =====
-- The open positions: how many units are held, and what the journal says of them.
use text.Mathlib.TextEquality.{eq_iff}
use trading_ai_alpha_agent.Prelude.{
  String, Bool, true, false, List, [], ◌∷◌, ◌++◌, Option, none, some, ◌≡◌, refl, sym, ◌∙◌, subst,
  Bool-cases, inl, inr, arith, if◌then◌else◌,
}
use trading_ai_alpha_agent.Prelude.Int.{ℤ, pos, ◌≤ℤ◌, ◌+ℤ◌, ◌-ℤ◌, leb_ℤ, int_laws}
use trading_ai_alpha_agent.Prelude.Text.{
  Dict, lookup, lookup-insert, lookup-erase, Distinct, insert-Distinct, erase-Distinct, eqb,
}
use trading_ai_alpha_agent.Prelude.Float.{Float}
use trading_ai_alpha_agent.Paper.Models.{
  PaperTradeStatus, PaperExitReason, PaperBlockReason, PaperPosition, PaperTradeJournalEntry,
}
use trading_ai_alpha_agent.Paper.Engine.State.{
  PaperTradingEngine, NormalizedRequest, blocked_entry, blocked,
}
use trading_ai_alpha_agent.Paper.Engine.Orders.{
  Answer, Fill, opened_position, opened_entry, entered, closed_entry, exited, remaining,
  write_position,
}
use trading_ai_alpha_agent.Paper.Engine.Account.{held}
use trading_ai_alpha_agent.Paper.Engine.Cases.{
  MayExit, IsAnswer, refused, bought, sold, submit_order-IsAnswer, make_engine-eq, IsReachable,
  started, ordered,
}
use trading_ai_alpha_agent.Paper.Engine.Limits.{IsSafeEntry, unblocked-IsSafeEntry}

-- the units that an entry of the journal adds to a holding
abbrev pub signed : PaperTradeStatus → ℤ → ℤ
signed PaperTradeStatus.opened quantity = quantity
signed PaperTradeStatus.closed quantity = pos 0 -ℤ quantity
signed PaperTradeStatus.blocked quantity = pos 0

plus_zero : (a : ℤ) → a +ℤ pos 0 ≡ a
plus_zero a = grind int_laws

no_change : (a : ℤ) (b : Bool) → a +ℤ (if b then pos 0 else pos 0) ≡ a
no_change a true = plus_zero a
no_change a false = plus_zero a

opened_units : (q : ℤ) → q ≡ pos 0 +ℤ q
opened_units q = grind int_laws

closed_units : (a q : ℤ) → a -ℤ q ≡ a +ℤ (pos 0 -ℤ q)
closed_units a q = grind int_laws

module _ {R : Type 0} where
  abbrev pub change : String → PaperTradeJournalEntry R → ℤ
  change s j = if eqb j.symbol s then signed j.status j.quantity else pos 0

  -- the units of a symbol that the journal opened, less those that it closed
  abbrev pub net_units : String → ℤ → List (PaperTradeJournalEntry R) → ℤ
  net_units s start [] = start
  net_units s start (j ∷ journal) = net_units s (start +ℤ change s j) journal

  net_units-append :
      (s : String) (start : ℤ) (journal : List (PaperTradeJournalEntry R))
      (j : PaperTradeJournalEntry R) {total : ℤ}
      → net_units s start journal ≡ total
      → net_units s start (journal ++ (j ∷ [])) ≡ total +ℤ change s j
  net_units-append s start [] j h = rw h refl
  net_units-append s start (i ∷ journal) j h = net_units-append s (start +ℤ change s i) journal j h

  -- A position that is kept holds at least one unit, of the symbol it is kept under.
  abbrev pub IsKept : String → Option (PaperPosition R) → Type 0
  IsKept s none = Unit
  IsKept s (some p) = (p.symbol ≡ s) × (pos 1 ≤ℤ p.quantity)

  -- The positions stand under their symbols, each once, and hold what the journal says.
  pub record IsTracked (e : PaperTradingEngine R) : Type 0 where
    pub distinct : Distinct e.positions
    pub kept : (s : String) → IsKept s (lookup s e.positions)
    pub units_agree : (s : String) → held (lookup s e.positions) ≡ net_units s (pos 0) e.journal

  lookup-write :
      (k s : String) (o : Option (PaperPosition R)) (d : Dict (PaperPosition R))
      → Distinct d
      → lookup s (write_position k o d) ≡ (if eqb k s then o else lookup s d)
  lookup-write k s none d h = lookup-erase k s d h
  lookup-write k s (some p) d h = lookup-insert k s p d

  write-Distinct :
      (k : String) (o : Option (PaperPosition R)) (d : Dict (PaperPosition R))
      → Distinct d
      → Distinct (write_position k o d)
  write-Distinct k none d h = erase-Distinct k d h
  write-Distinct k (some p) d h = insert-Distinct k p d h

  -- Writing one position keeps the others as they were.
  written-IsKept :
      (k s : String) (o old : Option (PaperPosition R))
      → IsKept k o
      → IsKept s old
      → IsKept s (if eqb k s then o else old)
  written-IsKept k s o old new h = elim (Bool-cases (eqb k s)) [
    | inl same ↦ rw same (subst (λ t. IsKept t o) ((eq_iff k s).0 same) new)
    | inr other ↦ rw other h
  ]

  remaining-IsKept :
      (s : String) (p : PaperPosition R) (left : ℤ)
      → IsKept s (some p)
      → IsKept s (remaining p left)
  remaining-IsKept s p left (symbol, held) = elim (Bool-cases (leb_ℤ left (pos 0))) [
    | inl empty ↦ rw empty tt
    | inr rest ↦ rw rest (symbol, ground arith)
  ]

  -- A sale of at most the units held leaves the others.
  remaining-held :
      (p : PaperPosition R) (q : ℤ)
      → q ≤ℤ p.quantity
      → held (remaining p (p.quantity -ℤ q)) ≡ p.quantity -ℤ q
  remaining-held p q h = elim (Bool-cases (leb_ℤ (p.quantity -ℤ q) (pos 0))) [
    | inl empty ↦ rw empty (grind int_laws)
    | inr rest ↦ rw rest refl
  ]

  written_units :
      (k s : String) (o : Option (PaperPosition R)) (get : String → Option (PaperPosition R))
      (q : ℤ)
      → held o ≡ held (get k) +ℤ q
      → held (if eqb k s then o else get s) ≡ held (get s) +ℤ (if eqb k s then q else pos 0)
  written_units k s o get q h = elim (Bool-cases (eqb k s)) [
    | inl same ↦ rw same (subst (λ t. held o ≡ held (get t) +ℤ q) ((eq_iff k s).0 same) h)
    | inr other ↦ rw other (sym (plus_zero (held (get s))))
  ]

module _ {R : Type 0} ⦃f : Float R⦄ where
  blocked-IsTracked :
      (id : String) (n : NormalizedRequest R) (reason : PaperBlockReason) (message : Option String)
      (e : PaperTradingEngine R)
      → IsTracked e
      → IsTracked (blocked id n reason message e).0
  unfolding blocked
  blocked-IsTracked id n reason message e h = record {
    distinct = h.distinct;
    kept = h.kept;
    units_agree = λ s. sym (
        net_units-append s (pos 0) e.journal (blocked_entry id n reason message)
          (sym (h.units_agree s))
        ∙ no_change (held (lookup s e.positions)) (eqb n.request.symbol s));
  }

  -- One position is written, and the entry of the journal changes its units by as many.
  written-IsTracked :
      (e : PaperTradingEngine R) (e' : PaperTradingEngine R) (k : String)
      (o : Option (PaperPosition R)) (j : PaperTradeJournalEntry R)
      → e'.positions ≡ write_position k o e.positions
      → e'.journal ≡ e.journal ++ (j ∷ [])
      → j.symbol ≡ k
      → IsKept k o
      → held o ≡ held (lookup k e.positions) +ℤ signed j.status j.quantity
      → IsTracked e
      → IsTracked e'
  written-IsTracked e e' k o j positions journal symbol new units h = record {
    distinct = rw positions (write-Distinct k o e.positions h.distinct);
    kept = λ s. rw positions (
        rw (lookup-write k s o e.positions h.distinct)
          (written-IsKept k s o (lookup s e.positions) new (h.kept s)));
    units_agree = λ s. rw positions (
        rw journal (
          rw (lookup-write k s o e.positions h.distinct) (
            written_units k s o (λ t. lookup t e.positions) (signed j.status j.quantity) units
            ∙ sym (
                rw (sym symbol)
                  (net_units-append s (pos 0) e.journal j (sym (h.units_agree s)))))));
  }

  entered-IsTracked :
      (id : String) (n : NormalizedRequest R) (x : Fill R) (stop : R) (e : PaperTradingEngine R)
      → IsSafeEntry n e
      → IsTracked e
      → IsTracked (entered id n x stop e).0
  unfolding entered
  entered-IsTracked id n x stop e safe h =
      written-IsTracked e _ n.request.symbol (some (opened_position n x stop)) (opened_entry id n x)
        refl refl refl (refl, safe.positive_quantity)
        (rw safe.not_open (opened_units n.request.quantity)) h

  exited-IsTracked :
      (id : String) (p : PaperPosition R) (n : NormalizedRequest R) (reason : PaperExitReason)
      (x : Fill R) (e : PaperTradingEngine R)
      → MayExit p n x e
      → IsTracked e
      → IsTracked (exited id p n reason x e).0
  unfolding exited
  exited-IsTracked id p n reason x e may h =
      written-IsTracked e _ n.request.symbol (remaining p (p.quantity -ℤ n.request.quantity))
        (closed_entry id p n reason x) refl refl refl
        (remaining-IsKept n.request.symbol p (p.quantity -ℤ n.request.quantity)
          (subst (IsKept n.request.symbol) may.is_open (h.kept n.request.symbol)))
        (remaining-held p n.request.quantity may.is_held
          ∙ rw may.is_open (closed_units p.quantity n.request.quantity))
        h

  answer-IsTracked :
      {id : String} {n : NormalizedRequest R} (e : PaperTradingEngine R) {answer : Answer R}
      → IsAnswer id n e answer
      → IsTracked e
      → IsTracked answer.0
  answer-IsTracked {id} {n} e (refused reason message same) h =
      rw same (blocked-IsTracked id n reason message e h)
  answer-IsTracked {id} {n} e (bought x stop side may same) h =
      rw same (entered-IsTracked id n x stop e (unblocked-IsSafeEntry n e may.unblocked) h)
  answer-IsTracked {id} {n} e (sold p reason x side may same) h =
      rw same (exited-IsTracked id p n reason x e may h)

  -- In a reachable engine each open position stands once, under its symbol, with at least one unit,
  -- and a symbol's units are those that the journal opened less those that it closed: no sale ever
  -- makes a holding negative.
  pub positions-IsTracked : (e : PaperTradingEngine R) → IsReachable e → IsTracked e
  unfolding lookup
  positions-IsTracked e (started cash c l short costs limits made) =
      rw (make_engine-eq cash c l short made)
        (record { distinct = tt; kept = λ s. tt; units_agree = λ s. refl })
  positions-IsTracked _ (ordered id r reason before answer past done) =
      answer-IsTracked before (submit_order-IsAnswer id r reason before done)
        (positions-IsTracked before past)
