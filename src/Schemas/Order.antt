-- ===== src/Schemas/Order.antt =====
-- app/schemas/order.py: the intent to order and the record of what became of it.
use trading_ai_alpha_agent.Prelude.{String, ℕ, Option, none}
use trading_ai_alpha_agent.Core.Enums.{
  Market, BrokerName, OrderSide, OrderType, OrderStatus, ReconciliationState,
}
use trading_ai_alpha_agent.Schemas.Json.{Fields, end}

pub record OrderIntent (R : Type 0) : Type 0 where
  pub market : Market
  pub broker : BrokerName
  pub symbol : String
  pub side : OrderSide
  pub quantity : ℕ
  pub order_type : OrderType
  pub limit_price : Option R
  pub stop_loss : Option R
  pub strategy_id : Option String
  pub signal_id : Option String
  pub risk_decision_id : Option String
  pub idempotency_key : String

pub record OrderRecord (R : Type 0) : Type 0 where
  pub id : String
  pub intent : OrderIntent R
  pub status : OrderStatus
  pub reconciliation_state : ReconciliationState
  pub broker_order_id : Option String
  pub broker_response : Fields
  pub final_reconciliation : Fields

-- `OrderRecord(intent=intent)`, with the defaults and the identifier that `new_id` draws
unfoldable pub new_order_record : {R : Type 0} → String → OrderIntent R → OrderRecord R
new_order_record id intent = record {
  id = id;
  intent = intent;
  status = OrderStatus.created;
  reconciliation_state = ReconciliationState.required;
  broker_order_id = none;
  broker_response = end;
  final_reconciliation = end;
}
