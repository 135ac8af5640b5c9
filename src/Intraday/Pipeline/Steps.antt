-- ===== src/Intraday/Pipeline/Steps.antt =====
-- The body of the loop over the strategies in `process_snapshot`.
use Prim.Native.String.{◌++◌ as text_append}
use trading_ai_alpha_agent.Prelude.{String, [], ◌∷◌, ◌++◌, Option, none, some, if◌then◌else◌}
use trading_ai_alpha_agent.Prelude.Result.{Result, ok, err, ◌>>=◌}
use trading_ai_alpha_agent.Prelude.Float.{Float, ◌*◌, ◌<?◌, of_ℕ, of_ℤ, truncate}
use trading_ai_alpha_agent.Intraday.Config.{IntradayShadowConfig}
use trading_ai_alpha_agent.Intraday.Models.{
  decision_value, decision_is_valid, is_filled, MarketDataSnapshot, DataQualityReport, Signal,
  ScoredSignal, RiskApproval, ShadowOrder, VirtualPosition, SignalDraft, create_signal,
}
use trading_ai_alpha_agent.Intraday.Regime.{RegimeResult}
use trading_ai_alpha_agent.Intraday.Scoring.{decide, score_signal}
use trading_ai_alpha_agent.Intraday.RiskManager.{ShadowRiskState, RiskQuestion, approve}
use trading_ai_alpha_agent.Intraday.ShadowExecution.{simulate}
use trading_ai_alpha_agent.Intraday.Positions.{Positions, open_virtual_position}
use trading_ai_alpha_agent.Intraday.Reviewer.{Reviewer}
use trading_ai_alpha_agent.Agentic.Models.{AgenticReviewResult}
use trading_ai_alpha_agent.Intraday.Pipeline.State.{
  join_semicolon, JournalEntry, Run, SignalRow, Strategy, Draws, journalled, merged,
  with_signal_row, with_order_row, signal_entry,
}

-- what the loop reads
pub record Context (R : Type 0) : Type 0 where
  pub config : IntradayShadowConfig R
  pub reviewer : Reviewer R
  pub snapshot : MarketDataSnapshot R
  pub risk_state : ShadowRiskState R
  pub quality : DataQualityReport R
  pub regime : RegimeResult R

-- how the handling of a strategy ends, and the run as it stands then
abbrev pub Handled : Type 0 → Type 0
Handled R = Result (Unit {0}) × Run R

module _ {R : Type 0} where
  abbrev pub done : Run R → Handled R
  done run = (ok tt, run)

  -- a call that may raise, and what follows it
  abbrev pub attempt : {A : Type 0} → Result A → Run R → (A → Handled R) → Handled R
  attempt (err e) run next = (err e, run)
  attempt (ok a) run next = next a

  abbrev pub and_then : Handled R → (Run R → Handled R) → Handled R
  and_then (err e, run) next = (err e, run)
  and_then (ok value, run) next = next run

  abbrev pub rejected_signal : ScoredSignal R → String → Run R → Handled R
  rejected_signal scored reason run = done (
      journalled (record (signal_entry scored "SIGNAL_REJECTED") { rejection_reason = some reason })
        run)

  -- a rejection after the approval was asked for
  abbrev pub rejected_at_risk : ScoredSignal R → RiskApproval R → String → Run R → Handled R
  rejected_at_risk scored approval reason run = done (
      journalled
        (record (signal_entry scored "SIGNAL_REJECTED") {
          rejection_reason = some reason;
          risk_amount = some approval.risk_amount;
        })
        run)

  abbrev accepted_entry : ScoredSignal R → RiskApproval R → JournalEntry R
  accepted_entry scored approval = record (signal_entry scored "SIGNAL_ACCEPTED") {
    quantity = some approval.quantity;
    risk_amount = some approval.risk_amount;
  }

  abbrev order_event : ShadowOrder R → String
  order_event order =
      if is_filled order.fill_status then "SHADOW_ORDER_FILLED" else "SHADOW_ORDER_REJECTED"

  abbrev order_entry : ScoredSignal R → RiskApproval R → ShadowOrder R → JournalEntry R
  order_entry scored approval order = record (signal_entry scored (order_event order)) {
    timestamp = order.timestamp;
    symbol = order.symbol;
    direction = some order.direction;
    rejection_reason = order.rejection_reason;
    quantity = some order.quantity;
    risk_amount = some approval.risk_amount;
    simulated_fill_price = order.simulated_fill;
    slippage = some order.slippage;
  }

  abbrev pub with_position : Option (VirtualPosition R) × Positions R → Run R → Run R
  with_position (none, positions) run = record run {
    state = record run.state { positions = positions };
  }
  with_position (some p, positions) run = record run {
    state = record run.state { positions = positions };
    result = record run.result {
      positions = run.result.positions ++ ((p.position_id, p.symbol) ∷ []);
    };
  }

  abbrev pub signal_row : ScoredSignal R → AgenticReviewResult R → SignalRow
  signal_row scored review = record {
    signal_id = scored.signal.signal_id;
    strategy = scored.signal.strategy_name;
    direction = scored.signal.direction;
    score = scored.score;
    decision = scored.decision;
    reasons = scored.reasons;
    agentic_warnings = review.warnings;
  }

module _ {R : Type 0} ⦃f : Float R⦄ where
  -- a score that the reviewer lowers
  unfoldable pub adjust :
      IntradayShadowConfig R → ScoredSignal R → AgenticReviewResult R → Result (ScoredSignal R)
  unfolding decide
  adjust config scored review =
      if review.confidence_multiplier <? of_ℕ 1
      then (truncate (of_ℤ scored.score * review.confidence_multiplier) >>= λ adjusted_score.
          ok (record {
            signal = scored.signal;
            score = adjusted_score;
            decision = decide config adjusted_score;
            reasons = scored.reasons ++ ("agentic_confidence_reduction" ∷ []);
            component_scores = scored.component_scores;
          }))
      else ok scored

  -- after `simulate`
  unfoldable pub finish :
      Context R → Draws R → ScoredSignal R → RiskApproval R → ShadowOrder R → Run R → Run R
  unfolding open_virtual_position
  finish c d scored approval order run =
      let review = c.reviewer.on_execution d.execution_ms scored order c.snapshot in
      let listed =
        journalled (order_entry scored approval order) (with_order_row order (merged review run)) in
      with_position (open_virtual_position d.position_id scored.signal order listed.state.positions)
        listed

  -- after the review of an approval that stands
  unfoldable pub execute_signal :
      Context R → Draws R → ScoredSignal R → RiskApproval R → Run R → Handled R
  unfolding simulate finish
  execute_signal c d scored approval run =
      let accepted = journalled (accepted_entry scored approval) run in
      attempt (simulate c.config d.order_id d.order_moment scored.signal approval c.snapshot)
        accepted (λ order. done (finish c d scored approval order accepted))

  -- after `approve`
  unfoldable pub audit_approval :
      Context R → Draws R → ScoredSignal R → RiskApproval R → Run R → Handled R
  unfolding join_semicolon execute_signal
  audit_approval c d scored approval run =
      if approval.approved
      then (let review = c.reviewer.on_risk d.audit_ms scored approval c.risk_state c.config in
          let reviewed = merged review run in
          if review.block
          then rejected_at_risk scored approval
              (text_append "agentic_risk_block:" (join_semicolon review.warnings)) reviewed
          else execute_signal c d scored approval reviewed)
      else rejected_at_risk scored approval (join_semicolon approval.rejection_reasons) run

  -- the arguments of `approve`
  abbrev pub question_of : Context R → ScoredSignal R → RiskQuestion R
  question_of c scored = record {
    scored = scored;
    data_quality = c.quality;
    state = c.risk_state;
    current_regime = some c.regime.regime;
  }

  -- after the score stands
  unfoldable pub decide_signal :
      Context R → Draws R → AgenticReviewResult R → ScoredSignal R → Run R → Handled R
  unfolding join_semicolon approve audit_approval
  decide_signal c d review scored run =
      let listed = with_signal_row (signal_row scored review) run in
      if review.block
      then rejected_signal scored (text_append "agentic_block:" (join_semicolon review.warnings))
          listed
      else if decision_is_valid scored.decision
      then attempt (approve c.config (question_of c scored)) listed
          (λ approval. audit_approval c d scored approval listed)
      else rejected_signal scored (decision_value scored.decision) listed

  unfoldable pub handle_signal : Context R → Draws R → Signal R → Run R → Handled R
  unfolding score_signal adjust decide_signal
  handle_signal c d signal run =
      let scored = score_signal c.config signal in
      let review = c.reviewer.on_signal d.critic_ms scored c.risk_state in
      let reviewed = merged review run in
      attempt (adjust c.config scored review) reviewed
        (λ adjusted. decide_signal c d review adjusted reviewed)

  abbrev pub handle_draft : Context R → Draws R → Run R → Option (SignalDraft R) → Handled R
  handle_draft c d run none = done run
  handle_draft c d run (some draft) = handle_signal c d (create_signal d.signal_id draft) run

  -- the body of the loop
  unfoldable pub handle_strategy : Context R → Strategy R → Draws R → Run R → Handled R
  unfolding create_signal handle_signal
  handle_strategy c strategy d run = handle_draft c d run (strategy c.snapshot c.regime)
