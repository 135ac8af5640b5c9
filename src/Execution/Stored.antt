-- ===== src/Execution/Stored.antt =====
-- What `execute` returns is what the store holds, so that a later call with the key returns it again.
use text.Mathlib.TextPositions.{eq_refl}
use trading_ai_alpha_agent.Prelude.{
  String, none, some, ◌≡◌, refl, ap, ◌∙◌, subst, inl, inr, Option-cases,
}
use trading_ai_alpha_agent.Prelude.Result.{Error, ok, err, foreign_error, Result-cases}
use trading_ai_alpha_agent.Core.Enums.{OrderStatus, ReconciliationState}
use trading_ai_alpha_agent.Schemas.Order.{OrderRecord, new_order_record}
use trading_ai_alpha_agent.Execution.Broker.{BrokerExecutionContext, issue_context, Reply}
use trading_ai_alpha_agent.Execution.Store.{IsStore}
use trading_ai_alpha_agent.Execution.Agent.{
  Call, Environment, Outcome, validate_pre_trade, reconcile, upsert_then, settle, place, submit,
  execute, reconciled_record, failed_record, placed_record,
}
use trading_ai_alpha_agent.Execution.Agent.Equations.{
  upsert_then_written, upsert_then_failed, submit_refused, submit_unissued, submit_placed,
  execute_refused, execute_known, execute_new,
}
use trading_ai_alpha_agent.Execution.Permission.{unit_cases}

module _ {R S W : Type 0} (env : Environment R S W) (laws : IsStore env.store) where
  -- If the outcome is a record, the store holds it under the key of the call.
  abbrev IsStored : Call R → Outcome R S W → Type 0
  IsStored c (ok r, (s, w)) = env.store.get c.intent.idempotency_key s ≡ some r
  IsStored c (err e, st) = Unit

  written-get :
      (k : String) (r : OrderRecord R) (s : S) {s' : S}
      → env.store.upsert k r s ≡ ok s'
      → env.store.get k s' ≡ some r
  written-get k r s h = laws.upsert-get k r s h k ∙ rw (eq_refl k)

  settle-IsStored :
      (c : Call R) (r : OrderRecord R) (reply : Reply) (s : S) (w : W)
      → IsStored c (settle env c r reply (s, w))
  unfolding settle
  settle-IsStored c r (Reply.raised class message) s w = tt
  settle-IsStored c r (Reply.returned result) s w =
      let settled = reconciled_record r result in
      elim (Result-cases (env.store.upsert c.intent.idempotency_key settled s)) [
        | inl (s', e) ↦
            rw (upsert_then_written env c s w settled (ok settled) e)
              (written-get c.intent.idempotency_key settled s e)
        | inr (e, refused) ↦ rw (upsert_then_failed env c s w settled (ok settled) refused) tt
      ]

  failed-IsStored :
      (c : Call R) (r : OrderRecord R) (e : Error) (s : S) (w : W)
      → IsStored c (upsert_then env c r (err e) (s, w))
  failed-IsStored c r e s w = elim (Result-cases (env.store.upsert c.intent.idempotency_key r s)) [
    | inl (s', written) ↦ rw (upsert_then_written env c s w r (err e) written) tt
    | inr (e', refused) ↦ rw (upsert_then_failed env c s w r (err e) refused) tt
  ]

  place-IsStored :
      (c : Call R) (r : OrderRecord R) (reply : Reply) (s : S) (w : W)
      → IsStored c (place env c r reply (s, w))
  unfolding place
  place-IsStored c r (Reply.raised class message) s w =
      failed-IsStored c (failed_record r class message) (foreign_error class message) s w
  place-IsStored c r (Reply.returned result) s w =
      let after = reconcile env result.broker_order_id w in
      settle-IsStored c (placed_record r result) after.0 s after.1

  submit-IsStored : (c : Call R) (s : S) (w : W) → IsStored c (submit env c (s, w))
  submit-IsStored c s w =
      let fresh = new_order_record c.record_id c.intent in
      elim (Result-cases (env.store.reserve c.intent.idempotency_key fresh s)) [
        | inr (e, refused) ↦ rw (submit_refused env c s w refused) tt
        | inl (s', e) ↦
            elim (Result-cases (issue_context env.token c.now c.execution_id c.intent)) [
              | inr (e', none_issued) ↦ rw (submit_unissued env c s w e none_issued) tt
              | inl (permit, issued) ↦
                  let (reply, w') = env.broker.place_order c.intent (some permit) w in
                  rw (submit_placed env c s w e issued) (place-IsStored c fresh reply s' w')
            ]
      ]

  execute-IsStored : (c : Call R) (s : S) (w : W) → IsStored c (execute env c (s, w))
  execute-IsStored c s w = elim (unit_cases (validate_pre_trade env.live_orders_enabled c)) [
    | inr (e, refused) ↦ rw (execute_refused env c s w refused) tt
    | inl passed ↦ elim (Option-cases (env.store.get c.intent.idempotency_key s)) [
      | inl free ↦ rw (execute_new env c s w passed free) (submit-IsStored c s w)
      | inr (r, known) ↦ rw (execute_known env c s w passed known) known
    ]
  ]

  pub retry_returns_stored :
      (c retry : Call R) (s : S) (w : W) {r : OrderRecord R} {s' : S} {w' : W}
      → execute env c (s, w) ≡ (ok r, (s', w'))
      → retry.intent.idempotency_key ≡ c.intent.idempotency_key
      → validate_pre_trade env.live_orders_enabled retry ≡ ok tt
      → (later : W) → execute env retry (s', later) ≡ (ok r, (s', later))
  retry_returns_stored c retry s w {r} {s'} {w'} h same passed later =
      let stored : env.store.get c.intent.idempotency_key s' ≡ some r =
        subst (IsStored c) h (execute-IsStored c s w) in
      execute_known env retry s' later passed (rw same stored)

  -- If a new, permitted order is reserved and the broker raises, the caller gets that exception,
  -- and where the last write went through, the store holds the order as unknown and as blocking
  -- duplicates.
  pub failed_order_blocks :
      (c : Call R) (s : S) (w : W) {class message : String} {w' : W} {s' s'' : S}
      {permit : BrokerExecutionContext}
      → validate_pre_trade env.live_orders_enabled c ≡ ok tt
      → env.store.get c.intent.idempotency_key s ≡ none
      → env.store.reserve c.intent.idempotency_key (new_order_record c.record_id c.intent) s ≡ ok s'
      → issue_context env.token c.now c.execution_id c.intent ≡ ok permit
      → env.broker.place_order c.intent (some permit) w ≡ (Reply.raised class message, w')
      → env.store.upsert c.intent.idempotency_key
          (failed_record (new_order_record c.record_id c.intent) class message)
          s'
        ≡ ok s''
      → (execute env c (s, w) ≡ (err (foreign_error class message), (s'', w')))
        × ((r : OrderRecord R) × (env.store.get c.intent.idempotency_key s'' ≡ some r)
            × (r.status ≡ OrderStatus.unknown_requires_reconciliation)
            × (r.reconciliation_state ≡ ReconciliationState.blocking_duplicates))
  unfolding failed_record place
  failed_order_blocks c s w {class} {message} {w'} {s'} passed free reserved issued raised written =
      let fresh = new_order_record c.record_id c.intent in
      let failed = failed_record fresh class message in
      (
        execute_new env c s w passed free
            ∙ (submit_placed env c s w reserved issued
                ∙ (ap (λ (a : Reply × W). place env c fresh a.0 (s', a.1)) raised
                    ∙ upsert_then_written env c s' w' failed (err (foreign_error class message))
                        written)),
        (failed, written-get c.intent.idempotency_key failed s' written, refl, refl),
      )
