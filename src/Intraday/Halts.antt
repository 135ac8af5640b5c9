-- ===== src/Intraday/Halts.antt =====
-- The shadow switch latches: once it has a reason, no later snapshot opens a position.
use trading_ai_alpha_agent.Prelude.{
  String, ℕ, true, false, not, ◌||◌, List, [], ◌∷◌, ◌++◌, some, map, raised, append-eq-nil, ◌≡◌,
  ◌≢◌, refl, ap, sym, subst, if_true, ◌∙◌,
}
use trading_ai_alpha_agent.Prelude.Dedupe.{from_keys, from_keys-eq-nil}
use trading_ai_alpha_agent.Prelude.Result.{ok, err}
use trading_ai_alpha_agent.Prelude.Float.{Float}
use trading_ai_alpha_agent.Intraday.Config.{IntradayShadowConfig}
use trading_ai_alpha_agent.Intraday.Models.{DataQualityReport, MarketDataSnapshot}
use trading_ai_alpha_agent.Intraday.Quality.{none_of, quality_checks, check_quality}
use trading_ai_alpha_agent.Intraday.KillSwitch.{
  ShadowKillSwitchState, SwitchInputs, reported, loss_checks, new_reasons, evaluate_switch,
}
use trading_ai_alpha_agent.Intraday.Pipeline.State.{PipelineState}
use trading_ai_alpha_agent.Intraday.Pipeline.Steps.{Handled}
use trading_ai_alpha_agent.Intraday.Pipeline.Process.{
  Pipeline, SnapshotCall, state_at, asked_of_switch, assess_snapshot, started, blocked_by_switch,
  review_and_trade, run_snapshot, concluded, process_snapshot, process_snapshots,
}

-- A switch that has a reason, and is triggered.
pub record IsTriggered (s : ShadowKillSwitchState) : Type 0 where
  pub some_reason : s.reasons ≢ []
  pub on : s.triggered ≡ true

none_of_other : (xs : List String) → xs ≢ [] → not (none_of xs) ≡ true
none_of_other [] h = absurd (h refl)
none_of_other (x ∷ xs) h = refl

none_of-false : (xs : List String) → none_of xs ≡ false → xs ≢ []
none_of-false [] h e = cc
none_of-false (x ∷ xs) h e = cc

map-nil : (g : String → String) (xs : List String) → map g xs ≡ [] → xs ≡ []
map-nil g [] h = refl
map-nil g (x ∷ xs) h = cc

module _ {R : Type 0} ⦃f : Float R⦄ where
  evaluate_switch-IsTriggered :
      (config : IntradayShadowConfig R) (i : SwitchInputs R) (s : ShadowKillSwitchState)
      → (s.reasons ++ new_reasons config i) ≢ []
      → IsTriggered (evaluate_switch config i s)
  unfolding evaluate_switch
  evaluate_switch-IsTriggered config i s h =
      let kept : from_keys [] (s.reasons ++ new_reasons config i) ≢ [] =
        λ e. h (from_keys-eq-nil _ e) in
      record { some_reason = kept; on = none_of_other _ kept }

  -- The switch latches: a reason that it has keeps it triggered, whatever the inputs are.
  pub evaluate_switch_latches :
      (config : IntradayShadowConfig R) (i : SwitchInputs R) (s : ShadowKillSwitchState)
      → s.reasons ≢ []
      → IsTriggered (evaluate_switch config i s)
  evaluate_switch_latches config i s h =
      evaluate_switch-IsTriggered config i s
        (λ e. h (append-eq-nil s.reasons (new_reasons config i) e).0)

  pub concluded_state : (h : Handled R) → (concluded h).1 ≡ h.1.state
  concluded_state (err e, run) = refl
  concluded_state (ok v, run) = refl

  -- the state after a snapshot that a triggered switch stops
  stopped_state :
      (p : Pipeline R) (call : SnapshotCall R) (st : PipelineState R)
      → (assess_snapshot p call st).kill_switch.triggered ≡ true
      → let a = assess_snapshot p call st in
        (process_snapshot p call st).1 ≡ (blocked_by_switch call a (started p call st a)).1.state
  unfolding process_snapshot run_snapshot
  stopped_state p call st h =
      let a = assess_snapshot p call st in
      let run = started p call st a in
      let tested : (a.kill_switch.triggered || not a.universe.allowed) ≡ true =
        ap (λ on. on || not a.universe.allowed) h in
      concluded_state (run_snapshot p call st)
      ∙ ap (λ (handled : Handled R). handled.1.state)
          (if_true (a.kill_switch.triggered || not a.universe.allowed)
            (blocked_by_switch call a run) (review_and_trade p call a run) tested)

  -- A snapshot that a triggered switch meets opens no position, and the switch stays triggered.
  process_snapshot_stops :
      (p : Pipeline R) (call : SnapshotCall R) (st : PipelineState R)
      → IsTriggered (assess_snapshot p call st).kill_switch
      → ((process_snapshot p call st).1.positions ≡ st.positions)
        × IsTriggered (process_snapshot p call st).1.kill_switch
  process_snapshot_stops p call st h =
      let e = stopped_state p call st h.on in
      (
        ap (λ (s : PipelineState R). s.positions) e,
        subst (λ (s : PipelineState R). IsTriggered s.kill_switch) (sym e) h,
      )

  assess_snapshot_latches :
      (p : Pipeline R) (call : SnapshotCall R) (st : PipelineState R)
      → st.kill_switch.reasons ≢ []
      → IsTriggered (assess_snapshot p call st).kill_switch
  unfolding assess_snapshot
  assess_snapshot_latches p call st h =
      evaluate_switch_latches p.config
        (asked_of_switch (state_at call.risk_state st.positions)
          (check_quality p.config call.snapshot call.now))
        st.kill_switch h

  -- Once the switch has a reason, no sequence of snapshots opens a position or clears the switch.
  pub process_snapshots_halted :
      (p : Pipeline R) (calls : List (SnapshotCall R)) (st : PipelineState R)
      → st.kill_switch.reasons ≢ []
      → ((process_snapshots p calls st).positions ≡ st.positions)
        × ((process_snapshots p calls st).kill_switch.reasons ≢ [])
  unfolding process_snapshots
  process_snapshots_halted p [] st h = (refl, h)
  process_snapshots_halted p (call ∷ calls) st h =
      let (same, on) = process_snapshot_stops p call st (assess_snapshot_latches p call st h) in
      let (kept, reasons) =
        process_snapshots_halted p calls (process_snapshot p call st).1 on.some_reason in
      (kept ∙ same, reasons)

  bad_data_reported :
      (config : IntradayShadowConfig R) (i : SwitchInputs R) (q : DataQualityReport R)
      → i.data_quality ≡ some q
      → q.is_ok ≡ false
      → q.reasons ≢ []
      → new_reasons config i ≢ []
  unfolding new_reasons
  bad_data_reported config i q e bad some_reason h =
      let k = (append-eq-nil (raised (loss_checks config i.risk_state)) _ h).1 in
      let reported_nil = (append-eq-nil (reported i.data_quality) _ k).0 in
      some_reason (map-nil _ q.reasons (rw (e, bad) at reported_nil))

  check_quality_reasons :
      (config : IntradayShadowConfig R) (s : MarketDataSnapshot R) (now : ℕ)
      → (check_quality config s now).is_ok ≡ false
      → (check_quality config s now).reasons ≢ []
  unfolding check_quality
  check_quality_reasons config s now bad e =
      none_of-false (raised (quality_checks config s now)) bad
        (from_keys-eq-nil (raised (quality_checks config s now)) e)

  -- A snapshot whose data are bad halts the pipeline: neither it nor any later snapshot, of
  -- whatever symbol, opens a position.
  pub bad_data_halts :
      (p : Pipeline R) (call : SnapshotCall R) (calls : List (SnapshotCall R))
      (st : PipelineState R)
      → (check_quality p.config call.snapshot call.now).is_ok ≡ false
      → (process_snapshots p (call ∷ calls) st).positions ≡ st.positions
  unfolding process_snapshots assess_snapshot
  bad_data_halts p call calls st bad =
      let quality = check_quality p.config call.snapshot call.now in
      let inputs = asked_of_switch (state_at call.risk_state st.positions) quality in
      let found =
        bad_data_reported p.config inputs quality refl bad
          (check_quality_reasons p.config call.snapshot call.now bad) in
      let on : IsTriggered (assess_snapshot p call st).kill_switch =
        evaluate_switch-IsTriggered p.config inputs st.kill_switch
          (λ e. found (append-eq-nil st.kill_switch.reasons (new_reasons p.config inputs) e).1) in
      let (same, stays) = process_snapshot_stops p call st on in
      (process_snapshots_halted p calls (process_snapshot p call st).1 stays.some_reason).0 ∙ same
