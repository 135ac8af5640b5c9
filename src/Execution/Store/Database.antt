-- ===== src/Execution/Store/Database.antt =====
-- `OrderIdempotencyStore` on the tables of app/db/models/order.py. A table is kept in the order of
-- insertion, by its unique key, and a write is one transaction. Reads are answered. What is not code
-- of the repository is a parameter: pydantic and the column of the payload are `Payloads`;
-- `links_hold` says whether the rows that an order refers to exist, which the database checks; and
-- `refuses` is what a transaction raises that is no IntegrityError, such as a value that a column
-- cannot hold or a lost connection.
use trading_ai_alpha_agent.Prelude.{
  String, ℕ, Bool, true, false, not, ◌||◌, [], ◌∷◌, Option, none, some, if◌then◌else◌,
}
use trading_ai_alpha_agent.Prelude.Text.{eqb, Dict, lookup, insert}
use trading_ai_alpha_agent.Prelude.Result.{Error, Result, ok, err, ◌>>=◌, order_idempotency_error}
use trading_ai_alpha_agent.Core.Enums.{
  Market, BrokerName, OrderSide, OrderType, OrderStatus, ReconciliationState,
}
use trading_ai_alpha_agent.Schemas.Json.{Fields}
use trading_ai_alpha_agent.Schemas.Order.{OrderRecord}

-- `Order`
pub record Order (R : Type 0) : Type 0 where
  pub id : String
  pub broker_order_id : Option String
  pub idempotency_key : String
  pub market : Market
  pub broker : BrokerName
  pub symbol : String
  pub side : OrderSide
  pub quantity : ℕ
  pub order_type : OrderType
  pub limit_price : Option R
  pub stop_loss : Option R
  pub strategy_id : Option String
  pub signal_id : Option String
  pub risk_decision_id : Option String
  pub status : OrderStatus
  pub reconciliation_state : ReconciliationState
  pub broker_response : Fields
  pub final_reconciliation : Fields

-- The payloads of the type `P`, in JSON: `record.model_dump(mode="json")`, what the JSONB column gives
-- back of it, `not payload` and `OrderRecord.model_validate`.
pub record Payloads (R P : Type 0) : Type 0 where
  pub dump : OrderRecord R → Result P
  pub column : P → P
  pub is_empty : P → Bool
  pub validate : P → Result (OrderRecord R)

-- `OrderIdempotencyRecord`
pub record OrderIdempotencyRecord (P : Type 0) : Type 0 where
  pub idempotency_key : String
  pub order_record_id : Option String
  pub broker_order_id : Option String
  pub status : OrderStatus
  pub reconciliation_state : ReconciliationState
  pub blocks_duplicates : Bool
  pub payload : P

pub record Tables (R P : Type 0) : Type 0 where
  pub orders : Dict (Order R)
  pub keys : Dict (OrderIdempotencyRecord P)

abbrev pub is_found {ℓ} : {A : Type ℓ} → Option A → Bool
is_found none = false
is_found (some a) = true

abbrev pub already_exists {ℓ} : {A : Type ℓ} → Result A
already_exists = err (order_idempotency_error "order_idempotency_key_already_exists")

module _ {R : Type 0} where
  -- `_order_from_record`
  unfoldable pub order_from_record : OrderRecord R → Order R
  order_from_record r = record {
    id = r.id;
    broker_order_id = r.broker_order_id;
    idempotency_key = r.intent.idempotency_key;
    market = r.intent.market;
    broker = r.intent.broker;
    symbol = r.intent.symbol;
    side = r.intent.side;
    quantity = r.intent.quantity;
    order_type = r.intent.order_type;
    limit_price = r.intent.limit_price;
    stop_loss = r.intent.stop_loss;
    strategy_id = r.intent.strategy_id;
    signal_id = r.intent.signal_id;
    risk_decision_id = r.intent.risk_decision_id;
    status = r.status;
    reconciliation_state = r.reconciliation_state;
    broker_response = r.broker_response;
    final_reconciliation = r.final_reconciliation;
  }

  -- `_apply_order_record`
  unfoldable pub apply_order_record : OrderRecord R → Order R → Order R
  apply_order_record r o = record o {
    broker_order_id = r.broker_order_id;
    status = r.status;
    reconciliation_state = r.reconciliation_state;
    broker_response = r.broker_response;
    final_reconciliation = r.final_reconciliation;
  }

  -- whether an order has the key, which is unique among the orders
  abbrev pub has_key : String → Dict (Order R) → Bool
  has_key k [] = false
  has_key k ((id, o) ∷ orders) = eqb o.idempotency_key k || has_key k orders

module _ {R P : Type 0} (payloads : Payloads R P) where
  -- the row that both writes end with
  abbrev pub key_row : String → OrderRecord R → P → OrderIdempotencyRecord P
  key_row k r p = record {
    idempotency_key = k;
    order_record_id = some r.id;
    broker_order_id = r.broker_order_id;
    status = r.status;
    reconciliation_state = r.reconciliation_state;
    blocks_duplicates = true;
    payload = payloads.column p;
  }

  -- `_payload_to_order_record`
  unfoldable pub payload_to_order_record : P → Result (Option (OrderRecord R))
  payload_to_order_record p =
      if payloads.is_empty p then ok none else (payloads.validate p >>= λ r. ok (some r))

  unfoldable pub database_get : String → Tables R P → Result (Option (OrderRecord R))
  database_get k t = elim (lookup k t.keys) [
    | none ↦ ok none
    | some row ↦ payload_to_order_record row.payload
  ]

  module _ (links_hold : OrderRecord R → Bool) (refuses : OrderRecord R → P → Option Error) where
    -- the end of a transaction that adds a new order
    abbrev pub commit_order : String → OrderRecord R → P → Bool → Tables R P → Result (Tables R P)
    commit_order k r p clashes t = elim (refuses r p) [
      | some e ↦ err e
      | none ↦
          if not (links_hold r) || (has_key r.intent.idempotency_key t.orders || clashes)
          then already_exists
          else ok (record {
            orders = insert r.id (order_from_record r) t.orders;
            keys = insert k (key_row k r p) t.keys;
          })
    ]

    unfoldable pub database_reserve : String → OrderRecord R → Tables R P → Result (Tables R P)
    unfolding order_from_record
    database_reserve k r t = do
      p ← payloads.dump r
      commit_order k r p (is_found (lookup r.id t.orders) || is_found (lookup k t.keys)) t

    -- the end of a transaction that changes the order `o`
    abbrev pub commit_change :
        String → OrderRecord R → P → Order R → Tables R P → Result (Tables R P)
    commit_change k r p o t = elim (refuses r p) [
      | some e ↦ err e
      | none ↦ ok (record {
        orders = insert r.id (apply_order_record r o) t.orders;
        keys = insert k (key_row k r p) t.keys;
      })
    ]

    unfoldable pub database_upsert : String → OrderRecord R → Tables R P → Result (Tables R P)
    unfolding order_from_record apply_order_record
    database_upsert k r t = do
      p ← payloads.dump r
      elim (lookup r.id t.orders) [
        | none ↦ commit_order k r p false t
        | some o ↦ commit_change k r p o t
      ]
