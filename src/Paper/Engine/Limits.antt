-- ===== src/Paper/Engine/Limits.antt =====
-- The limits on entries: what an accepted entry was checked for, and the entries of a day.
use trading_ai_alpha_agent.Prelude.{
  String, ℕ, suc, Bool, true, false, ◌&&◌, ◌==◌, List, [], ◌∷◌, ◌++◌, Option, none, ◌≡◌, refl, sym,
  ap, ◌∙◌, subst, Bool-cases, inl, inr, arith, count_if, if◌then◌else◌,
}
use trading_ai_alpha_agent.Prelude.Int.{ℤ, pos, ◌≤ℤ◌, ◌+ℤ◌, leb_ℤ, int_laws}
use trading_ai_alpha_agent.Prelude.Text.{lookup}
use trading_ai_alpha_agent.Prelude.Result.{ok}
use trading_ai_alpha_agent.Prelude.Float.{Float, ◌<?◌, ◌≤?◌, of_ℕ, negate}
use trading_ai_alpha_agent.Core.Enums.{OrderSide}
use trading_ai_alpha_agent.Paper.Models.{
  PaperTradeStatus, PaperExitReason, PaperBlockReason, PaperRiskLimits, PaperOrderRequest,
  PaperPosition, PaperTradeJournalEntry, make_risk_limits,
}
use trading_ai_alpha_agent.Paper.Engine.State.{
  PaperTradingEngine, NormalizedRequest, date, at_day, bad_stop, entry_block_reason, blocked_entry,
  blocked,
}
use trading_ai_alpha_agent.Paper.Engine.Orders.{
  Answer, Fill, opened_entry, entered, closed_entry, exited,
}
use trading_ai_alpha_agent.Paper.Engine.Account.{normalized, submit_order}
use trading_ai_alpha_agent.Paper.Engine.Cases.{
  IsAnswer, refused, bought, sold, submit_order-IsAnswer, make_engine-eq, IsReachable, started,
  ordered,
}

abbrev is_opened : PaperTradeStatus → Bool
is_opened PaperTradeStatus.opened = true
is_opened _ = false

next_count :
    (t : ℕ) (day : ℕ) (g : ℕ → ℤ) (n : ℕ)
    → g day ≡ pos n
    → at_day t (g t +ℤ pos 1) g day ≡ pos (if t == day then suc n else n)
next_count t day g n h = elim (Bool-cases (t == day)) [
  | inl same ↦ let here : t ≡ day = ground arith in rw same (rw here (rw h (grind int_laws)))
  | inr other ↦ rw other h
]

next_bounded :
    (t : ℕ) (day : ℕ) (g : ℕ → ℤ) (n : ℕ) (limit : ℤ)
    → g day ≡ pos n
    → leb_ℤ limit (g t) ≡ false
    → pos n ≤ℤ limit
    → pos (if t == day then suc n else n) ≤ℤ limit
next_bounded t day g n limit h below bounded = elim (Bool-cases (t == day)) [
  | inl same ↦
      let here : t ≡ day = ground arith in
      let free : leb_ℤ limit (pos n) ≡ false =
        subst (λ k. leb_ℤ limit k ≡ false) (ap g here ∙ h) below in
      rw same (ground arith)
  | inr other ↦ rw other bounded
]

module _ {R : Type 0} ⦃f : Float R⦄ where
  -- the journal's entry is a position entered on that day
  abbrev pub is_entry_on : ℕ → PaperTradeJournalEntry R → Bool
  is_entry_on day j = is_opened j.status && (date j.timestamp == day)

  abbrev pub entries_on : ℕ → List (PaperTradeJournalEntry R) → ℕ
  entries_on day journal = count_if (is_entry_on day) journal

  -- What holds when `_entry_block_reason` finds nothing.
  pub record IsSafeEntry (n : NormalizedRequest R) (e : PaperTradingEngine R) : Type 0 where
    pub positive_quantity : pos 1 ≤ℤ n.request.quantity
    pub positive_price : (n.request.reference_price ≤? of_ℕ 0) ≡ false
    pub stop_below_price : bad_stop n.request.stop_loss n.request.reference_price ≡ false
    pub not_open : lookup n.request.symbol e.positions ≡ none
    pub below_count :
        leb_ℤ e.risk_limits.max_trades_per_day (e.daily_entry_count (date n.submitted_at)) ≡ false
    pub above_loss :
        (e.daily_realized_pnl (date n.submitted_at) ≤? negate e.risk_limits.max_daily_loss) ≡ false

  pub unblocked-IsSafeEntry :
      (n : NormalizedRequest R) (e : PaperTradingEngine R)
      → entry_block_reason n e ≡ none
      → IsSafeEntry n e
  unfolding entry_block_reason
  unblocked-IsSafeEntry n e h = record {
    positive_quantity = ground arith;
    positive_price = ground arith;
    stop_below_price = ground arith;
    not_open = ground arith;
    below_count = ground arith;
    above_loss = ground arith;
  }

  count-append :
      (test : PaperTradeJournalEntry R → Bool) (journal : List (PaperTradeJournalEntry R))
      (j : PaperTradeJournalEntry R)
      → count_if test (journal ++ (j ∷ []))
        ≡ (if test j then suc (count_if test journal) else count_if test journal)
  count-append test [] j = refl
  count-append test (i ∷ journal) j = ground (arith, count-append test journal j)

  -- The engine's counts are those of its journal, and none is above the limit.
  record IsCounted (e : PaperTradingEngine R) : Type 0 where
    counts_agree : (day : ℕ) → e.daily_entry_count day ≡ pos (entries_on day e.journal)
    is_bounded : (day : ℕ) → pos (entries_on day e.journal) ≤ℤ e.risk_limits.max_trades_per_day

  -- an entry that opens no position
  uncounted :
      (e : PaperTradingEngine R) (j : PaperTradeJournalEntry R) (day : ℕ)
      → is_opened j.status ≡ false
      → entries_on day (e.journal ++ (j ∷ [])) ≡ entries_on day e.journal
  uncounted e j day h = count-append (is_entry_on day) e.journal j ∙ rw h refl

  blocked-IsCounted :
      (id : String) (n : NormalizedRequest R) (reason : PaperBlockReason) (message : Option String)
      (e : PaperTradingEngine R)
      → IsCounted e
      → IsCounted (blocked id n reason message e).0
  unfolding blocked
  blocked-IsCounted id n reason message e h = record {
    counts_agree =
        λ day. rw (uncounted e (blocked_entry id n reason message) day refl) (h.counts_agree day);
    is_bounded =
        λ day. rw (uncounted e (blocked_entry id n reason message) day refl) (h.is_bounded day);
  }

  exited-IsCounted :
      (id : String) (p : PaperPosition R) (n : NormalizedRequest R) (reason : PaperExitReason)
      (x : Fill R) (e : PaperTradingEngine R)
      → IsCounted e
      → IsCounted (exited id p n reason x e).0
  unfolding exited
  exited-IsCounted id p n reason x e h = record {
    counts_agree =
        λ day. rw (uncounted e (closed_entry id p n reason x) day refl) (h.counts_agree day);
    is_bounded = λ day. rw (uncounted e (closed_entry id p n reason x) day refl) (h.is_bounded day);
  }

  -- The entry's day has one more entry, and the other days have as many as before.
  counted :
      (e : PaperTradingEngine R) (j : PaperTradeJournalEntry R) (day : ℕ)
      → is_opened j.status ≡ true
      → entries_on day (e.journal ++ (j ∷ [])) ≡ (
          if date j.timestamp == day
          then suc (entries_on day e.journal)
          else entries_on day e.journal)
  counted e j day h = count-append (is_entry_on day) e.journal j ∙ rw h refl

  entered-IsCounted :
      (id : String) (n : NormalizedRequest R) (x : Fill R) (stop : R) (e : PaperTradingEngine R)
      → IsSafeEntry n e
      → IsCounted e
      → IsCounted (entered id n x stop e).0
  unfolding entered
  entered-IsCounted id n x stop e safe h = record {
    counts_agree = λ day.
        rw (counted e (opened_entry id n x) day refl)
          (next_count (date n.submitted_at) day e.daily_entry_count _ (h.counts_agree day));
    is_bounded = λ day. rw (counted e (opened_entry id n x) day refl) (
        next_bounded (date n.submitted_at) day e.daily_entry_count _
          e.risk_limits.max_trades_per_day (h.counts_agree day) safe.below_count
          (h.is_bounded day));
  }

  answer-IsCounted :
      {id : String} {n : NormalizedRequest R} (e : PaperTradingEngine R) {answer : Answer R}
      → IsAnswer id n e answer
      → IsCounted e
      → IsCounted answer.0
  answer-IsCounted {id} {n} e (refused reason message same) h =
      rw same (blocked-IsCounted id n reason message e h)
  answer-IsCounted {id} {n} e (bought x stop side may same) h =
      rw same (entered-IsCounted id n x stop e (unblocked-IsSafeEntry n e may.unblocked) h)
  answer-IsCounted {id} {n} e (sold p reason x side may same) h =
      rw same (exited-IsCounted id p n reason x e h)

  limits_positive :
      (l : PaperRiskLimits R) → make_risk_limits l ≡ ok l → pos 0 ≤ℤ l.max_trades_per_day
  unfolding make_risk_limits
  limits_positive l h = ground arith

  reachable-IsCounted : (e : PaperTradingEngine R) → IsReachable e → IsCounted e
  reachable-IsCounted e (started cash c l short costs limits made) =
      rw (make_engine-eq cash c l short made)
        (record { counts_agree = λ day. refl; is_bounded = λ day. limits_positive l limits })
  reachable-IsCounted _ (ordered id r reason before answer past done) =
      answer-IsCounted before (submit_order-IsAnswer id r reason before done)
        (reachable-IsCounted before past)

  -- In the journal of a reachable engine, no day has more entries into positions than
  -- `max_trades_per_day`.
  pub entries_bounded :
      (e : PaperTradingEngine R)
      → IsReachable e
      → (day : ℕ) → pos (entries_on day e.journal) ≤ℤ e.risk_limits.max_trades_per_day
  entries_bounded e reached day = (reachable-IsCounted e reached).is_bounded day

  -- What an answer to a buy order promises, when it is accepted: the checks on the request were met
  -- by the engine before it, and the cash that is left is not below the buffer.
  abbrev pub IsAcceptedEntry : PaperOrderRequest R → PaperTradingEngine R → Answer R → Type 0
  IsAcceptedEntry r e answer =
      IsSafeEntry (normalized r) e × ((answer.0.cash <? e.risk_limits.min_cash_buffer) ≡ false)

  answer-IsAcceptedEntry :
      {id : String} (r : PaperOrderRequest R) (e : PaperTradingEngine R) {answer : Answer R}
      → IsAnswer id (normalized r) e answer
      → r.side ≡ OrderSide.buy
      → answer.1.accepted ≡ true
      → IsAcceptedEntry r e answer
  unfolding blocked entered exited normalized
  answer-IsAcceptedEntry r e (refused reason message same) side h = absurd (ground arith)
  answer-IsAcceptedEntry {id} r e {answer} (bought x stop side' may same) side h = (
    unblocked-IsSafeEntry (normalized r) e may.unblocked,
    subst (λ cash. (cash <? e.risk_limits.min_cash_buffer) ≡ false) (ap (λ a. a.0.cash) (sym same))
        may.is_funded,
  )
  answer-IsAcceptedEntry r e (sold p reason x side' may same) side h = absurd (ground arith)

  -- An accepted buy order has a positive quantity and price and a stop below the price; before it
  -- the symbol was not held, the day's entries were below the limit and its realized profit was above
  -- the negative of the largest loss; after it the cash is not below the buffer.
  pub submit_order-IsAcceptedEntry :
      (id : String) (r : PaperOrderRequest R) (reason : PaperExitReason) (e : PaperTradingEngine R)
      (answer : Answer R)
      → submit_order id r reason e ≡ ok answer
      → r.side ≡ OrderSide.buy
      → answer.1.accepted ≡ true
      → IsAcceptedEntry r e answer
  submit_order-IsAcceptedEntry id r reason e answer done =
      answer-IsAcceptedEntry r e (submit_order-IsAnswer id r reason e done)
