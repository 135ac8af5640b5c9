-- ===== src/Execution/Tests.antt =====
-- `ExecutionAgent` on a concrete store and a broker that counts its calls.
use Prim.Native.Nat.{◌+◌}
use trading_ai_alpha_agent.Prelude.{
  String, ℕ, suc, ◌≤◌, Bool, true, false, [], ◌∷◌, Option, none, some, ◌≡◌, refl, ◌⊎◌, arith,
}
use trading_ai_alpha_agent.Prelude.Int.{pos}
use trading_ai_alpha_agent.Prelude.Text.{Dict, lookup, insert}
use trading_ai_alpha_agent.Prelude.Result.{Error, Result, ok, err, foreign_error}
use trading_ai_alpha_agent.Core.Enums.{
  TradingMode, Market, AuthStatus, AccountStatus, BrokerName, OrderSide, OrderType, OrderStatus,
  ReconciliationState, RiskDecisionType, is_live_capable, market_eq, is_india, is_unknown_order,
}
use trading_ai_alpha_agent.Schemas.Json.{end}
use trading_ai_alpha_agent.Schemas.Status.{broker_is_healthy_for_live}
use trading_ai_alpha_agent.Schemas.Order.{OrderIntent, OrderRecord, new_order_record}
use trading_ai_alpha_agent.Schemas.Risk.{is_approved_for_execution}
use trading_ai_alpha_agent.Execution.Broker.{
  BrokerExecutionContext, issue_context, validate_execution_context, broker_value, Matches, Reply,
  Broker, BrokerOrderResult, issued_permit_admits, accepted_permit-Matches,
}
use trading_ai_alpha_agent.Execution.Store.{
  memory_store, memory_store-IsStore, memory_exists, memory_reserve, memory_upsert, Payloads,
  Tables, database_reserve, database_upsert,
}
use trading_ai_alpha_agent.Execution.Store.Durable.{Writes, Leads, IsKept, Writes-IsKept}
use trading_ai_alpha_agent.Execution.Agent.{
  State, Call, Environment, validate_pre_trade, submit, place, settle, reconcile, execute,
  execute_all, failed_record, placed_record, reconciled_record,
}
use trading_ai_alpha_agent.Execution.Permission.{IsPermitted, execute-IsPermitted}
use trading_ai_alpha_agent.Execution.Idempotency.{logged_env, times, placed_at_most_once}
use trading_ai_alpha_agent.Execution.Stored.{retry_returns_stored, failed_order_blocks}

-- Prices are whole numbers here: nothing computes with them.
abbrev Store : Type 0
Store = Dict (OrderRecord ℕ)

abbrev filled : Option String → BrokerOrderResult
filled id = record { broker_order_id = id; status = OrderStatus.filled; raw_response = end }

-- The world counts the orders; the broker raises at an order for no unit.
abbrev counting_broker : Broker ℕ ℕ
counting_broker = record {
  place_order = λ i permit w. (
    elim i.quantity [
      | Prim.Native.Nat.zero ↦ Reply.raised "TimeoutError" "timed out"
      | suc n ↦ Reply.returned (filled (some "b1"))
    ],
    w + 1,
  );
  reconcile_order = λ id w. (Reply.returned (filled (some id)), w);
}

abbrev environment : Environment ℕ Store ℕ
environment = record {
  live_orders_enabled = true;
  store = memory_store ℕ;
  broker = counting_broker;
  token = "t";
}

abbrev intent : ℕ → OrderIntent ℕ
intent quantity = record {
  market = Market.us;
  broker = BrokerName.alpaca;
  symbol = "MSFT";
  side = OrderSide.buy;
  quantity = quantity;
  order_type = OrderType.market;
  limit_price = none;
  stop_loss = some 95;
  strategy_id = none;
  signal_id = none;
  risk_decision_id = some "d1";
  idempotency_key = "k1";
}

abbrev call : ℕ → Call ℕ
call quantity = record {
  intent = intent quantity;
  risk_decision = record {
    id = "d1";
    signal_id = none;
    decision = RiskDecisionType.approved;
    approved_quantity = pos 4;
    approved_capital = 0;
    approved_risk = 0;
    rejection_reasons = [];
    required_actions = [];
    risk_metrics = [];
  };
  broker_health = record {
    broker_name = "ALPACA";
    market = Market.us;
    auth_status = AuthStatus.valid;
    account_status = AccountStatus.active;
    trading_enabled = true;
    buying_power = 0;
    cash = 0;
    positions_reconciled = true;
    last_checked_at = 0;
    rejection_reasons = [];
  };
  compliance_status = none;
  system_state = record {
    trading_mode = TradingMode.micro_live_autonomous;
    live_trading_enabled = true;
    kill_switch = false;
    compliance_status = "";
  };
  record_id = "r1";
  execution_id = "e1";
  now = 0;
}

-- The agent with all that it computes with.
run : Call ℕ → State Store ℕ → Result (OrderRecord ℕ) × State Store ℕ
unfolding execute submit place settle reconcile validate_pre_trade issue_context new_order_record
    reconciled_record placed_record failed_record memory_exists memory_reserve memory_upsert lookup
    insert is_live_capable market_eq is_india is_unknown_order broker_is_healthy_for_live
    is_approved_for_execution
run = execute environment

abbrev record_of : OrderRecord ℕ
record_of = record {
  id = "r1";
  intent = intent 4;
  status = OrderStatus.filled;
  reconciliation_state = ReconciliationState.reconciled;
  broker_order_id = some "b1";
  broker_response = end;
  final_reconciliation = end;
}

first_run : execute environment (call 4) ([], 0) ≡ (ok record_of, (("k1", record_of) ∷ [], 1))
unfolding run
first_run = refl

retry_returns_stored_example :
    execute environment (call 0) (("k1", record_of) ∷ [], 7)
    ≡ (ok record_of, (("k1", record_of) ∷ [], 7))
unfolding run
retry_returns_stored_example =
    retry_returns_stored environment (memory_store-IsStore ℕ) (call 4) (call 0) [] 0 first_run refl
      refl 7

placed_at_most_once_example :
    let log =
      (execute_all (logged_env environment) (call 0 ∷ call 4 ∷ call 4 ∷ []) ([], ([], 0))).1.0 in
    (times "k1" log ≤ 1) × ((lookup {V = OrderRecord ℕ} "k1" [] ≡ none) ⊎ (times "k1" log ≡ 0))
placed_at_most_once_example =
    placed_at_most_once environment (memory_store-IsStore ℕ) (call 0 ∷ call 4 ∷ call 4 ∷ []) [] 0
      "k1"

execute-IsPermitted_example :
    IsPermitted true (call 4)
    ⊎ ((e : Error) × (execute environment (call 4) ([], 0) ≡ (err e, ([], 0))))
execute-IsPermitted_example = execute-IsPermitted environment (call 4) ([], 0)

abbrev failed : OrderRecord ℕ
unfolding failed_record new_order_record
failed = failed_record (new_order_record "r1" (intent 0)) "TimeoutError" "timed out"

failed_order_blocks_example :
    (execute environment (call 0) ([], 0)
      ≡ (err (foreign_error "TimeoutError" "timed out"), (("k1", failed) ∷ [], 1)))
    × ((r : OrderRecord ℕ) × (lookup "k1" (("k1", failed) ∷ []) ≡ some r)
        × (r.status ≡ OrderStatus.unknown_requires_reconciliation)
        × (r.reconciliation_state ≡ ReconciliationState.blocking_duplicates))
unfolding run
failed_order_blocks_example =
    failed_order_blocks environment (memory_store-IsStore ℕ) (call 0) [] 0 refl refl refl refl refl
      refl

abbrev permit : BrokerExecutionContext
permit = record {
  execution_id = "e1";
  idempotency_key = "k1";
  risk_decision_id = "d1";
  broker = BrokerName.alpaca;
  market = Market.us;
  issued_at = 0;
  expires_at = 30_000_000;
  issuer_token = "t";
}

issued_permit_admits_example :
    validate_execution_context "t" 5 (intent 4) (some permit) "ALPACA" ≡ ok tt
unfolding issue_context broker_value
issued_permit_admits_example =
    issued_permit_admits "t" 0 5 "e1" (intent 4) {c = permit} refl (omega arith)

accepted_permit-Matches_example : Matches permit (intent 4) 5
unfolding validate_execution_context broker_value market_eq
accepted_permit-Matches_example =
    accepted_permit-Matches "t" 5 (intent 4) permit "ALPACA" issued_permit_admits_example

-- A pydantic that writes the key and the id of a record, and reads a record with those.
abbrev payloads : Payloads ℕ (String × String)
payloads = record {
  dump = λ r. ok (r.intent.idempotency_key, r.id);
  column = λ p. p;
  is_empty = λ p. false;
  validate = λ p. ok (new_order_record p.1 (intent 4));
}

abbrev links_hold : OrderRecord ℕ → Bool
links_hold r = true

abbrev refuses : OrderRecord ℕ → String × String → Option Error
refuses r p = none

abbrev no_rows : Tables ℕ (String × String)
no_rows = record { orders = []; keys = [] }

abbrev first_record : OrderRecord ℕ
first_record = new_order_record "r1" (intent 4)

abbrev tables_of : Result (Tables ℕ (String × String)) → Tables ℕ (String × String)
tables_of (ok t) = t
tables_of (err e) = no_rows

abbrev reserved : Tables ℕ (String × String)
reserved = tables_of (database_reserve payloads links_hold refuses "k" first_record no_rows)

abbrev updated : Tables ℕ (String × String)
updated = tables_of (database_upsert payloads links_hold refuses "k" first_record reserved)

reserve_returns :
    database_reserve payloads links_hold refuses "k" first_record no_rows ≡ ok reserved
unfolding database_reserve lookup new_order_record
reserve_returns = refl

upsert_returns : database_upsert payloads links_hold refuses "k" first_record reserved ≡ ok updated
unfolding database_reserve database_upsert lookup insert new_order_record
upsert_returns = refl

Writes-IsKept_example : IsKept payloads links_hold refuses "k" first_record no_rows reserved updated
Writes-IsKept_example =
    Writes-IsKept payloads links_hold refuses "k" first_record no_rows reserved
      (Writes.reserves reserve_returns)
      (Leads.step "k" first_record Leads.here (Writes.upserts upsert_returns))
