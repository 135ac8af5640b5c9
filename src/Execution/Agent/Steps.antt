-- ===== src/Execution/Agent/Steps.antt =====
-- `ExecutionAgent.execute`, step by step.
use trading_ai_alpha_agent.Prelude.{
  String, ℕ, Bool, true, false, not, List, [], ◌∷◌, Option, none, some, if◌then◌else◌,
}
use trading_ai_alpha_agent.Prelude.Text.{eqb, is_empty}
use trading_ai_alpha_agent.Prelude.Result.{
  Error, Result, ok, err, risk_rejected_error, foreign_error, raise_if, ◌>>◌,
}
use trading_ai_alpha_agent.Core.Enums.{
  market_eq, is_india, is_live_capable, OrderStatus, is_unknown_order, ReconciliationState,
}
use trading_ai_alpha_agent.Schemas.Json.{Json, field, end}
use trading_ai_alpha_agent.Schemas.Status.{
  BrokerHealth, broker_is_healthy_for_live, ComplianceStatus, approved,
}
use trading_ai_alpha_agent.Schemas.Order.{OrderIntent, OrderRecord, new_order_record}
use trading_ai_alpha_agent.Schemas.Risk.{RiskDecision, is_approved_for_execution}
use trading_ai_alpha_agent.Risk.KillSwitch.{SystemStateSnapshot}
use trading_ai_alpha_agent.Execution.Broker.{
  is_blank, issue_context, BrokerOrderResult, Reply, Broker,
}
use trading_ai_alpha_agent.Execution.Store.{Store}

-- The arguments of `execute`, with the state of the system resolved, and what the call draws: the
-- identifiers of the record and of the permit, and the time.
pub record Call (R : Type 0) : Type 0 where
  pub intent : OrderIntent R
  pub risk_decision : RiskDecision R
  pub broker_health : BrokerHealth R
  pub compliance_status : Option ComplianceStatus
  pub system_state : SystemStateSnapshot
  pub record_id : String
  pub execution_id : String
  pub now : ℕ

-- What an agent is built with: the setting that it reads, its store, the broker, and the token of
-- the process.
pub record Environment (R S W : Type 0) : Type 0 where
  pub live_orders_enabled : Bool
  pub store : Store R S
  pub broker : Broker R W
  pub token : String

abbrev pub State : Type 0 → Type 0 → Type 0
State S W = S × W

abbrev pub Outcome : Type 0 → Type 0 → Type 0 → Type 0
Outcome R S W = Result (OrderRecord R) × State S W

abbrev pub ok_at : {R S W : Type 0} → State S W → OrderRecord R → Outcome R S W
ok_at st r = (ok r, st)

abbrev pub err_at : {R S W : Type 0} → State S W → Error → Outcome R S W
err_at st e = (err e, st)

-- `intent.risk_decision_id != risk_decision.id`
abbrev pub is_other : Option String → String → Bool
is_other none id = true
is_other (some s) id = not (eqb s id)

abbrev pub not_approved : Option ComplianceStatus → Bool
not_approved none = true
not_approved (some s) = not (approved s)

module _ {R : Type 0} where
  abbrev pub other_market : Option ComplianceStatus → OrderIntent R → Bool
  other_market none i = false
  other_market (some s) i = not (market_eq s.market i.market)

  unfoldable pub validate_india : Call R → Result (Unit {0})
  validate_india c = do
    raise_if (not_approved c.compliance_status)
        (risk_rejected_error "india_compliance_not_approved")
    raise_if (other_market c.compliance_status c.intent)
        (risk_rejected_error "india_compliance_market_mismatch")

  -- `_validate_pre_trade`
  unfoldable pub validate_pre_trade : Bool → Call R → Result (Unit {0})
  unfolding validate_india
  validate_pre_trade live_orders_enabled c = do
    raise_if (is_blank c.intent.risk_decision_id) (risk_rejected_error "risk_decision_id_required")
    raise_if (is_other c.intent.risk_decision_id c.risk_decision.id)
        (risk_rejected_error "risk_decision_id_mismatch")
    raise_if (not (is_approved_for_execution c.risk_decision))
        (risk_rejected_error "risk_decision_not_approved")
    raise_if (not (is_live_capable c.system_state.trading_mode))
        (risk_rejected_error "trading_mode_not_live_capable")
    raise_if (not c.system_state.live_trading_enabled)
        (risk_rejected_error "live_trading_enabled_false")
    raise_if (not live_orders_enabled) (risk_rejected_error "live_orders_enabled_false")
    raise_if c.system_state.kill_switch (risk_rejected_error "kill_switch_enabled")
    raise_if (not (market_eq c.broker_health.market c.intent.market))
        (risk_rejected_error "broker_market_mismatch")
    raise_if (not (broker_is_healthy_for_live c.broker_health))
        (risk_rejected_error "broker_health_not_live_ready")
    if is_india c.intent.market then validate_india c else ok tt
    raise_if (is_empty c.intent.idempotency_key) (risk_rejected_error "idempotency_key_required")

  -- the record after `place_order` raised
  unfoldable pub failed_record : OrderRecord R → String → String → OrderRecord R
  failed_record r class message = record r {
    status = OrderStatus.unknown_requires_reconciliation;
    reconciliation_state = ReconciliationState.blocking_duplicates;
    broker_response =
        field "error" (Json.text message)
          (field "error_type" (Json.text class) (field "stage" (Json.text "place_order") end));
  }

  -- the record after `place_order` returned
  unfoldable pub placed_record : OrderRecord R → BrokerOrderResult → OrderRecord R
  placed_record r result = record r {
    status = result.status;
    broker_order_id = result.broker_order_id;
    broker_response = result.raw_response;
  }

  -- the record after the reconciliation
  unfoldable pub reconciled_record : OrderRecord R → BrokerOrderResult → OrderRecord R
  reconciled_record r result = record r {
    status = result.status;
    final_reconciliation = result.raw_response;
    reconciliation_state =
        if is_unknown_order result.status
        then ReconciliationState.blocking_duplicates
        else ReconciliationState.reconciled;
  }

module _ {R S W : Type 0} (env : Environment R S W) where
  -- `OrderReconciler.reconcile`
  unfoldable pub reconcile : Option String → W → Reply × W
  reconcile none w = (
    Reply.returned (record {
      broker_order_id = none;
      status = OrderStatus.unknown_requires_reconciliation;
      raw_response = end;
    }),
    w,
  )
  reconcile (some id) w =
      if is_empty id
      then (
        Reply.returned (record {
          broker_order_id = none;
          status = OrderStatus.unknown_requires_reconciliation;
          raw_response = end;
        }),
        w,
      )
      else env.broker.reconcile_order id w

  -- the last write, and the answer `r` or the exception `e` that goes on
  abbrev pub upsert_then :
      Call R → OrderRecord R → Result (OrderRecord R) → State S W → Outcome R S W
  upsert_then c r answer (s, w) = elim (env.store.upsert c.intent.idempotency_key r s) [
    | err e ↦ err_at (s, w) e
    | ok s' ↦ (answer, (s', w))
  ]

  -- from the reply of the reconciliation on; its exceptions are not caught
  unfoldable pub settle : Call R → OrderRecord R → Reply → State S W → Outcome R S W
  settle c r (Reply.raised class message) st = err_at st (foreign_error class message)
  settle c r (Reply.returned result) st =
      let settled = reconciled_record r result in upsert_then c settled (ok settled) st

  -- from the reply of `place_order` on
  unfoldable pub place : Call R → OrderRecord R → Reply → State S W → Outcome R S W
  unfolding reconcile settle
  place c r (Reply.raised class message) st =
      upsert_then c (failed_record r class message) (err (foreign_error class message)) st
  place c r (Reply.returned result) (s, w) =
      let (reply, w') = reconcile result.broker_order_id w in
      settle c (placed_record r result) reply (s, w')

  -- past the lookup of the key: reserve it, mint the permit and place the order
  unfoldable pub submit : Call R → State S W → Outcome R S W
  unfolding place
  submit c (s, w) =
      let fresh = new_order_record c.record_id c.intent in
      elim (env.store.reserve c.intent.idempotency_key fresh s) [
        | err e ↦ err_at (s, w) e
        | ok s' ↦ elim (issue_context env.token c.now c.execution_id c.intent) [
          | err e ↦ err_at (s', w) e
          | ok permit ↦
              let (reply, w') = env.broker.place_order c.intent (some permit) w in
              place c fresh reply (s', w')
        ]
      ]

  unfoldable pub execute : Call R → State S W → Outcome R S W
  unfolding submit
  execute c (s, w) = elim (validate_pre_trade env.live_orders_enabled c) [
    | err e ↦ err_at (s, w) e
    | ok _ ↦ elim (env.store.get c.intent.idempotency_key s) [
      | some existing ↦ ok_at (s, w) existing
      | none ↦ submit c (s, w)
    ]
  ]

  -- a sequence of calls, one after the other, and the state after them
  unfoldable pub execute_all : List (Call R) → State S W → State S W
  execute_all [] st = st
  execute_all (c ∷ cs) st = execute_all cs (execute c st).1
