-- ===== src/Intraday/Book.antt =====
-- Every position that the pipeline opens comes from an approved signal.
use trading_ai_alpha_agent.Prelude.{
  String, Bool, true, false, not, ◌||◌, ◌&&◌, List, [], ◌∷◌, Option, none, some, All, ◌≡◌, inl, inr,
  refl, sym, subst, arith, Bool-cases, Option-cases, if◌then◌else◌,
}
use trading_ai_alpha_agent.Prelude.Int.{pos, ◌≤ℤ◌}
use trading_ai_alpha_agent.Prelude.Text.{Dict, eqb, insert}
use trading_ai_alpha_agent.Prelude.Result.{Result, ok, err}
use trading_ai_alpha_agent.Prelude.Float.{Float, ◌≤?◌, of_ℕ}
use trading_ai_alpha_agent.Intraday.Config.{IntradayShadowConfig}
use trading_ai_alpha_agent.Intraday.Models.{
  is_short, is_sideways, is_high_volatility, decision_is_valid, SignalDraft, create_signal,
  ScoredSignal, RiskApproval, ShadowOrder, VirtualPosition,
}
use trading_ai_alpha_agent.Intraday.RiskManager.{approve}
use trading_ai_alpha_agent.Intraday.Halts.{concluded_state}
use trading_ai_alpha_agent.Intraday.Approved.{IsFit, IsWithinAccount, approve-IsFit}
use trading_ai_alpha_agent.Intraday.ShadowExecution.{simulate}
use trading_ai_alpha_agent.Intraday.Positions.{
  Positions, open_virtual_position, usable_fill, opened_virtual_position,
}
use trading_ai_alpha_agent.Agentic.Models.{AgenticReviewResult}
use trading_ai_alpha_agent.Intraday.Scoring.{score_signal}
use trading_ai_alpha_agent.Intraday.Pipeline.State.{PipelineState, Run, Strategy, Draws, merged}
use trading_ai_alpha_agent.Intraday.Pipeline.Steps.{
  Context, Handled, attempt, and_then, question_of, adjust, finish, execute_signal, audit_approval,
  decide_signal, handle_signal, handle_draft, handle_strategy,
}
use trading_ai_alpha_agent.Intraday.Pipeline.Process.{
  Pipeline, SnapshotCall, context_of, assess_snapshot, started, each_strategy, review_and_trade,
  run_snapshot, process_snapshot, process_snapshots,
}

insert-All :
    {V : Type 0} (P : V → Type 0) (k : String) (v : V) (d : Dict V)
    → P v
    → All (λ entry. P entry.1) d
    → All (λ entry. P entry.1) (insert k v d)
unfolding insert
insert-All P k v [] h all = (h, tt)
insert-All P k v ((j, w) ∷ d) h (here, rest) = elim (Bool-cases (eqb j k)) [
  | inl same ↦ rw same (h, rest)
  | inr other ↦ rw other (here, insert-All P k v d h rest)
]

module _ {R : Type 0} ⦃f : Float R⦄ where
  -- A position of at least one share, with a stop, in a direction and a regime that the settings allow.
  pub record IsSound (config : IntradayShadowConfig R) (p : VirtualPosition R) : Type 0 where
    pub quantity : pos 1 ≤ℤ p.quantity
    pub stop : (p.stop_loss ≤? of_ℕ 0) ≡ false
    pub shorts : (is_short p.direction && not config.allow_shorts) ≡ false
    pub sideways : (is_sideways p.regime_at_entry && not config.allow_sideways_trades) ≡ false
    pub volatility :
        (is_high_volatility p.regime_at_entry && not config.allow_high_volatility_trades) ≡ false

  abbrev pub IsSoundBook : IntradayShadowConfig R → Positions R → Type 0
  IsSoundBook config positions = All (λ entry. IsSound config entry.1) positions

  -- an approved signal
  abbrev Approved : Context R → ScoredSignal R → RiskApproval R → Type 0
  Approved c scored approval =
      IsFit c.config (question_of c scored) approval
      × IsWithinAccount c.config (question_of c scored)

  usable_fill-positive :
      (order : ShadowOrder R) (fill : R) → usable_fill order ≡ some fill → pos 1 ≤ℤ order.quantity
  usable_fill-positive order fill h = ground (arith, h)

  opened-IsSound :
      (c : Context R) (d : String) (scored : ScoredSignal R) (approval : RiskApproval R)
      (order : ShadowOrder R) (fill : R)
      → Approved c scored approval
      → usable_fill order ≡ some fill
      → IsSound c.config (opened_virtual_position d scored.signal order fill)
  opened-IsSound c d scored approval order fill (fit, within) h = record {
    quantity = usable_fill-positive order fill h;
    stop = fit.stop;
    shorts = within.shorts;
    sideways = within.sideways;
    volatility = within.volatility;
  }

  finish-IsSoundBook :
      (c : Context R) (d : Draws R) (scored : ScoredSignal R) (approval : RiskApproval R)
      (order : ShadowOrder R) (run : Run R)
      → Approved c scored approval
      → IsSoundBook c.config run.state.positions
      → IsSoundBook c.config (finish c d scored approval order run).state.positions
  unfolding finish open_virtual_position
  finish-IsSoundBook c d scored approval order run ready book =
      elim (Option-cases (usable_fill order)) [
        | inl unfilled ↦ rw unfilled book
        | inr (fill, e) ↦ rw e (
            insert-All (IsSound c.config) d.position_id _ run.state.positions
              (opened-IsSound c d.position_id scored approval order fill ready e) book)
      ]

  attempt-IsSoundBook :
      {A : Type 0} (config : IntradayShadowConfig R) (r : Result A) (run : Run R)
      (next : A → Handled R)
      → IsSoundBook config run.state.positions
      → ((a : A) → r ≡ ok a → IsSoundBook config (next a).1.state.positions)
      → IsSoundBook config (attempt r run next).1.state.positions
  attempt-IsSoundBook config (err e) run next h k = h
  attempt-IsSoundBook config (ok a) run next h k = k a refl

  and_then-IsSoundBook :
      (config : IntradayShadowConfig R) (h : Handled R) (next : Run R → Handled R)
      → IsSoundBook config h.1.state.positions
      → ((run : Run R)
          → IsSoundBook config run.state.positions
          → IsSoundBook config (next run).1.state.positions)
      → IsSoundBook config (and_then h next).1.state.positions
  and_then-IsSoundBook config (err e, run) next h k = h
  and_then-IsSoundBook config (ok v, run) next h k = k run h

  if-IsSoundBook :
      (config : IntradayShadowConfig R) (b : Bool) (x y : Handled R)
      → (b ≡ true → IsSoundBook config x.1.state.positions)
      → (b ≡ false → IsSoundBook config y.1.state.positions)
      → IsSoundBook config (if b then x else y).1.state.positions
  if-IsSoundBook config true x y h k = h refl
  if-IsSoundBook config false x y h k = k refl

  execute_signal-IsSoundBook :
      (c : Context R) (d : Draws R) (scored : ScoredSignal R) (approval : RiskApproval R)
      (run : Run R)
      → Approved c scored approval
      → IsSoundBook c.config run.state.positions
      → IsSoundBook c.config (execute_signal c d scored approval run).1.state.positions
  unfolding execute_signal
  execute_signal-IsSoundBook c d scored approval run ready book =
      attempt-IsSoundBook c.config
        (simulate c.config d.order_id d.order_moment scored.signal approval c.snapshot) _ _ book
        (λ order e. finish-IsSoundBook c d scored approval order _ ready book)

  audit_approval-IsSoundBook :
      (c : Context R) (d : Draws R) (scored : ScoredSignal R) (approval : RiskApproval R)
      (run : Run R)
      → approve c.config (question_of c scored) ≡ ok approval
      → IsSoundBook c.config run.state.positions
      → IsSoundBook c.config (audit_approval c d scored approval run).1.state.positions
  unfolding audit_approval
  audit_approval-IsSoundBook c d scored approval run e book =
      if-IsSoundBook c.config approval.approved _ _
        (λ approved.
          if-IsSoundBook c.config
            (c.reviewer.on_risk d.audit_ms scored approval c.risk_state c.config).block _ _
            (λ blocked. book)
            (λ passed.
              execute_signal-IsSoundBook c d scored approval _
                (approve-IsFit c.config (question_of c scored) approval e approved) book))
        (λ refused. book)

  decide_signal-IsSoundBook :
      (c : Context R) (d : Draws R) (review : AgenticReviewResult R) (scored : ScoredSignal R)
      (run : Run R)
      → IsSoundBook c.config run.state.positions
      → IsSoundBook c.config (decide_signal c d review scored run).1.state.positions
  unfolding decide_signal
  decide_signal-IsSoundBook c d review scored run book =
      if-IsSoundBook c.config review.block _ _ (λ blocked. book)
        (λ passed.
          if-IsSoundBook c.config (decision_is_valid scored.decision) _ _
            (λ valid.
              attempt-IsSoundBook c.config (approve c.config (question_of c scored)) _ _ book
                (λ approval e. audit_approval-IsSoundBook c d scored approval _ e book))
            (λ invalid. book))

  handle_draft-IsSoundBook :
      (c : Context R) (d : Draws R) (run : Run R) (draft : Option (SignalDraft R))
      → IsSoundBook c.config run.state.positions
      → IsSoundBook c.config (handle_draft c d run draft).1.state.positions
  unfolding handle_signal
  handle_draft-IsSoundBook c d run none book = book
  handle_draft-IsSoundBook c d run (some draft) book =
      let scored = score_signal c.config (create_signal d.signal_id draft) in
      let review = c.reviewer.on_signal d.critic_ms scored c.risk_state in
      attempt-IsSoundBook c.config (adjust c.config scored review) _ _ book
        (λ adjusted h. decide_signal-IsSoundBook c d review adjusted _ book)

  handle_strategy-IsSoundBook :
      (c : Context R) (strategy : Strategy R) (d : Draws R) (run : Run R)
      → IsSoundBook c.config run.state.positions
      → IsSoundBook c.config (handle_strategy c strategy d run).1.state.positions
  unfolding handle_strategy
  handle_strategy-IsSoundBook c strategy d run book =
      handle_draft-IsSoundBook c d run (strategy c.snapshot c.regime) book

  each_strategy-IsSoundBook :
      (c : Context R) (strategies : List (Strategy R × Draws R)) (run : Run R)
      → IsSoundBook c.config run.state.positions
      → IsSoundBook c.config (each_strategy c strategies run).1.state.positions
  unfolding each_strategy
  each_strategy-IsSoundBook c [] run book = book
  each_strategy-IsSoundBook c ((strategy, d) ∷ rest) run book =
      and_then-IsSoundBook c.config (handle_strategy c strategy d run) _
        (handle_strategy-IsSoundBook c strategy d run book) (each_strategy-IsSoundBook c rest)

  run_snapshot-IsSoundBook :
      (p : Pipeline R) (call : SnapshotCall R) (st : PipelineState R)
      → IsSoundBook p.config st.positions
      → IsSoundBook p.config (run_snapshot p call st).1.state.positions
  unfolding run_snapshot review_and_trade
  run_snapshot-IsSoundBook p call st book =
      let a = assess_snapshot p call st in
      let review = p.reviewer.on_regime call.regime_ms call.snapshot a.regime in
      if-IsSoundBook p.config (a.kill_switch.triggered || not a.universe.allowed) _ _
        (λ stopped. book)
        (λ open_to_trade.
          if-IsSoundBook p.config review.block _ _ (λ blocked. book)
            (λ passed.
              each_strategy-IsSoundBook (context_of p call a) call.strategies
                (merged review (started p call st a)) book))

  -- Whatever the snapshots, the strategies, the reviewer and the exceptions, every position of the
  -- book is for at least one share, has a stop, and is in a direction and a regime that the
  -- settings allow.
  pub process_snapshots-IsSoundBook :
      (p : Pipeline R) (calls : List (SnapshotCall R)) (st : PipelineState R)
      → IsSoundBook p.config st.positions
      → IsSoundBook p.config (process_snapshots p calls st).positions
  unfolding process_snapshots process_snapshot
  process_snapshots-IsSoundBook p [] st book = book
  process_snapshots-IsSoundBook p (call ∷ calls) st book = process_snapshots-IsSoundBook p calls _ (
      subst (λ s. IsSoundBook p.config s.positions) (sym (concluded_state (run_snapshot p call st)))
        (run_snapshot-IsSoundBook p call st book))
