-- ===== src/Execution/Agent/Equations.antt =====
-- `execute` by the answers of the store and of the issuer of permits.
use trading_ai_alpha_agent.Prelude.{none, some, ◌≡◌}
use trading_ai_alpha_agent.Prelude.Result.{Error, Result, ok, err}
use trading_ai_alpha_agent.Schemas.Order.{OrderRecord, new_order_record}
use trading_ai_alpha_agent.Execution.Broker.{BrokerExecutionContext, issue_context}
use trading_ai_alpha_agent.Execution.Agent.Steps.{
  Call, Environment, validate_pre_trade, upsert_then, place, submit, execute,
}

module _ {R S W : Type 0} (env : Environment R S W) (c : Call R) (s : S) (w : W) where
  pub upsert_then_written :
      (r : OrderRecord R) (answer : Result (OrderRecord R)) {s' : S}
      → env.store.upsert c.intent.idempotency_key r s ≡ ok s'
      → upsert_then env c r answer (s, w) ≡ (answer, (s', w))
  upsert_then_written r answer h = rw (h, upsert_then)

  pub upsert_then_failed :
      (r : OrderRecord R) (answer : Result (OrderRecord R)) {e : Error}
      → env.store.upsert c.intent.idempotency_key r s ≡ err e
      → upsert_then env c r answer (s, w) ≡ (err e, (s, w))
  upsert_then_failed r answer h = rw (h, upsert_then)

  pub submit_refused :
      {e : Error}
      → env.store.reserve c.intent.idempotency_key (new_order_record c.record_id c.intent) s ≡ err e
      → submit env c (s, w) ≡ (err e, (s, w))
  unfolding submit
  submit_refused h = rw (h, submit)

  pub submit_unissued :
      {s' : S} {e : Error}
      → env.store.reserve c.intent.idempotency_key (new_order_record c.record_id c.intent) s ≡ ok s'
      → issue_context env.token c.now c.execution_id c.intent ≡ err e
      → submit env c (s, w) ≡ (err e, (s', w))
  unfolding submit
  submit_unissued h k = rw (h, k, submit)

  pub submit_placed :
      {s' : S} {permit : BrokerExecutionContext}
      → env.store.reserve c.intent.idempotency_key (new_order_record c.record_id c.intent) s ≡ ok s'
      → issue_context env.token c.now c.execution_id c.intent ≡ ok permit
      → let (reply, w') = env.broker.place_order c.intent (some permit) w in
        submit env c (s, w) ≡ place env c (new_order_record c.record_id c.intent) reply (s', w')
  unfolding submit
  submit_placed h k = rw (h, k, submit)

  pub execute_refused :
      {e : Error}
      → validate_pre_trade env.live_orders_enabled c ≡ err e
      → execute env c (s, w) ≡ (err e, (s, w))
  unfolding execute
  execute_refused h = rw (h, execute)

  pub execute_known :
      {r : OrderRecord R}
      → validate_pre_trade env.live_orders_enabled c ≡ ok tt
      → env.store.get c.intent.idempotency_key s ≡ some r
      → execute env c (s, w) ≡ (ok r, (s, w))
  unfolding execute
  execute_known h k = rw (h, k, execute)

  pub execute_new :
      validate_pre_trade env.live_orders_enabled c ≡ ok tt
      → env.store.get c.intent.idempotency_key s ≡ none
      → execute env c (s, w) ≡ submit env c (s, w)
  unfolding execute
  execute_new h k = rw (h, k, execute)
