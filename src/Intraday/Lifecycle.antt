-- ===== src/Intraday/Lifecycle.antt =====
-- From an order to a position, and to its close.
use trading_ai_alpha_agent.Prelude.{
  String, ℕ, Bool, true, false, ◌||◌, some, if_false, ◌≡◌, refl, ◌∙◌, arith,
}
use trading_ai_alpha_agent.Prelude.Int.{pos, leb_ℤ}
use trading_ai_alpha_agent.Prelude.Text.{eqb, lookup, lookup-insert, lookup-insert_self}
use trading_ai_alpha_agent.Prelude.Result.{Result, ok}
use trading_ai_alpha_agent.Prelude.Float.{Float, ◌-◌, ◌=?◌, ◌<?◌, of_ℕ, abs, round}
use trading_ai_alpha_agent.Intraday.Models.{
  RiskApproval, ScoredSignal, ShadowOrder, VirtualPosition, position_is_open, is_filled,
}
use trading_ai_alpha_agent.Intraday.ShadowExecution.{
  is_refused, simulate, filled_order, fill_price, slippage_at, spread_at,
}
use trading_ai_alpha_agent.Intraday.Positions.{
  Positions, status_after, open_virtual_position, opened_virtual_position, closed,
  close_virtual_position,
}
use trading_ai_alpha_agent.Intraday.Pipeline.State.{Run, Draws}
use trading_ai_alpha_agent.Intraday.Pipeline.Steps.{Context, finish, execute_signal}

-- whatever the reason, the position is no longer open
status_after-closed : (reason : String) → position_is_open (status_after reason) ≡ false
unfolding status_after position_is_open
status_after-closed reason = ground arith

or_right : (a b : Bool) → (a || b) ≡ false → b ≡ false
or_right a b h = ground arith

module _ {R : Type 0} ⦃f : Float R⦄ where
  -- What a close does to the position under an id and to the book.
  pub record IsClosed (id : String) (reason : String) (book after : Positions R)
      (result : Result (VirtualPosition R)) : Type 0 where
    pub position : VirtualPosition R
    pub returned : result ≡ ok position
    pub stored : lookup id after ≡ some position
    pub not_open : position_is_open position.status ≡ false
    pub reason_kept : position.exit_reason ≡ some reason
    pub net : position.net_pnl ≡ position.gross_pnl - position.charges
    pub others : (j : String) → eqb id j ≡ false → lookup j after ≡ lookup j book

  -- A close of a position of the book returns and stores it, no longer open, with the reason and
  -- with the charges taken from its result, and leaves every other position.
  pub close_virtual_position-IsClosed :
      (id : String) (price : R) (reason : String) (moment : ℕ) (book : Positions R)
      (p : VirtualPosition R)
      → lookup id book ≡ some p
      → IsClosed id reason book
          (close_virtual_position id price reason moment book).1
          (close_virtual_position id price reason moment book).0
  unfolding close_virtual_position
  close_virtual_position-IsClosed id price reason moment book p h = rw h (record {
    position = closed p price reason moment;
    returned = refl;
    stored = lookup-insert_self id _ book;
    not_open = status_after-closed reason;
    reason_kept = refl;
    net = refl;
    others = λ j other. lookup-insert id j _ book ∙ if_false _ _ _ other;
  })

  -- An approval that stands and a price that has not moved too far.
  pub record IsReady (c : Context R) (scored : ScoredSignal R) (approval : RiskApproval R)
      : Type 0 where
    pub not_refused : is_refused approval ≡ false
    pub entry : (scored.signal.entry_price =? of_ℕ 0) ≡ false
    pub near :
        (c.config.max_entry_move_pct
          <? f.quotient
              (abs (c.snapshot.last_price - scored.signal.entry_price))
              scored.signal.entry_price)
        ≡ false

  order_of : Context R → Draws R → ScoredSignal R → RiskApproval R → ShadowOrder R
  order_of c d scored approval =
      filled_order c.config d.order_id d.order_moment scored.signal approval.quantity c.snapshot

  simulate_fills :
      (c : Context R) (d : Draws R) (scored : ScoredSignal R) (approval : RiskApproval R)
      → IsReady c scored approval
      → simulate c.config d.order_id d.order_moment scored.signal approval c.snapshot
        ≡ ok (order_of c d scored approval)
  unfolding simulate order_of
  simulate_fills c d scored approval ready = rw (ready.not_refused, ready.entry, ready.near) refl

  opened_of : Context R → Draws R → ScoredSignal R → RiskApproval R → VirtualPosition R
  opened_of c d scored approval =
      let s = scored.signal in
      opened_virtual_position d.position_id s (order_of c d scored approval) (
        round
          (fill_price s.direction s.entry_price (slippage_at c.config s) (spread_at s c.snapshot))
          4)

  finish_opens :
      (c : Context R) (d : Draws R) (scored : ScoredSignal R) (approval : RiskApproval R)
      (run : Run R)
      → leb_ℤ approval.quantity (pos 0) ≡ false
      → lookup d.position_id
          (finish c d scored approval (order_of c d scored approval) run).state.positions
        ≡ some (opened_of c d scored approval)
  unfolding finish open_virtual_position is_filled order_of opened_of
  finish_opens c d scored approval run positive =
      rw positive (lookup-insert_self d.position_id _ run.state.positions)

  -- Execution comes about: an approval that stands, on a price that has not moved too far, opens a
  -- position of the approved quantity under the drawn id, whatever the reviewer says of the fill.
  pub execute_signal_opens :
      (c : Context R) (d : Draws R) (scored : ScoredSignal R) (approval : RiskApproval R)
      (run : Run R)
      → IsReady c scored approval
      → (p : VirtualPosition R) × (lookup d.position_id
            (execute_signal c d scored approval run).1.state.positions
          ≡ some p)
        × (position_is_open p.status ≡ true)
        × (p.quantity ≡ approval.quantity)
  unfolding execute_signal position_is_open order_of opened_of
  execute_signal_opens c d scored approval run ready =
      let positive : leb_ℤ approval.quantity (pos 0) ≡ false = or_right _ _ ready.not_refused in
      (
        opened_of c d scored approval,
        rw (simulate_fills c d scored approval ready) (finish_opens c d scored approval _ positive),
        refl,
        refl,
      )
