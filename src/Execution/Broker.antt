-- ===== src/Execution/Broker.antt =====
-- app/brokers/base.py: the permit that an order needs, and what the agent calls of a broker.
-- The adapters talk to services, so a broker is a parameter: its calls take and return the state
-- `W` of the world outside.
mod Context
pub use Context.{
  BrokerExecutionContext, is_blank, Matches, issued_permit_admits, accepted_permit-Matches,
}
unfoldable pub use Context.{broker_value, validate_for, issue_context, validate_execution_context}
use trading_ai_alpha_agent.Prelude.{String, Option}
use trading_ai_alpha_agent.Core.Enums.{OrderStatus}
use trading_ai_alpha_agent.Schemas.Json.{Fields}
use trading_ai_alpha_agent.Schemas.Order.{OrderIntent}

pub record BrokerOrderResult : Type 0 where
  pub broker_order_id : Option String
  pub status : OrderStatus
  pub raw_response : Fields

-- A call that returned, or an exception by its class and its text.
pub data Reply : Type 0 where
  returned : BrokerOrderResult → Reply
  raised : String → String → Reply

-- `place_order` and `reconcile_order` of `BaseBroker`
pub record Broker (R W : Type 0) : Type 0 where
  pub place_order : OrderIntent R → Option BrokerExecutionContext → W → Reply × W
  pub reconcile_order : String → W → Reply × W
