-- ===== src/Pipeline/Tests.antt =====
-- An approved purchase, given to an agent whose broker fills every order.
use trading_ai_alpha_agent.Prelude.{ℕ, true, false, [], none, some, ◌≡◌, ◌⊎◌}
use trading_ai_alpha_agent.Prelude.Text.{Dict}
use trading_ai_alpha_agent.Prelude.Result.{Error, err}
use trading_ai_alpha_agent.Prelude.FixedPoint.{Micros, fixed_point}
use trading_ai_alpha_agent.Core.Enums.{
  TradingMode, Market, AuthStatus, AccountStatus, BrokerName, OrderSide, OrderType, OrderStatus,
}
use trading_ai_alpha_agent.Schemas.Json.{end}
use trading_ai_alpha_agent.Schemas.Order.{OrderRecord}
use trading_ai_alpha_agent.Execution.Broker.{Broker, Reply}
use trading_ai_alpha_agent.Execution.Store.{memory_store}
use trading_ai_alpha_agent.Execution.Agent.{Call, Environment, execute}
use trading_ai_alpha_agent.Risk.Engine.Tests.Data.{rupees, buy_inputs}
use trading_ai_alpha_agent.Risk.Engine.Tests.{buy_decision, buy_run}
use trading_ai_alpha_agent.Pipeline.{IsVetted, execute-IsVetted}

abbrev filling_broker : Broker Micros ℕ
filling_broker = record {
  place_order = λ i permit w. (
    Reply.returned
        (record { broker_order_id = some "b1"; status = OrderStatus.filled; raw_response = end }),
    w,
  );
  reconcile_order = λ id w. (
    Reply.returned
        (record { broker_order_id = some id; status = OrderStatus.filled; raw_response = end }),
    w,
  );
}

abbrev environment : Environment Micros (Dict (OrderRecord Micros)) ℕ
environment = record {
  live_orders_enabled = true;
  store = memory_store Micros;
  broker = filling_broker;
  token = "t";
}

abbrev call : Call Micros
call = record {
  intent = record {
    market = Market.us;
    broker = BrokerName.alpaca;
    symbol = "MSFT";
    side = OrderSide.buy;
    quantity = 4;
    order_type = OrderType.market;
    limit_price = none;
    stop_loss = some (rupees 95);
    strategy_id = none;
    signal_id = none;
    risk_decision_id = some "d1";
    idempotency_key = "k1";
  };
  risk_decision = buy_decision;
  broker_health = record {
    broker_name = "ALPACA";
    market = Market.us;
    auth_status = AuthStatus.valid;
    account_status = AccountStatus.active;
    trading_enabled = true;
    buying_power = rupees 0;
    cash = rupees 0;
    positions_reconciled = true;
    last_checked_at = 0;
    rejection_reasons = [];
  };
  compliance_status = none;
  system_state = record {
    trading_mode = TradingMode.live_autonomous;
    live_trading_enabled = true;
    kill_switch = false;
    compliance_status = "";
  };
  record_id = "r1";
  execution_id = "x1";
  now = 2_000_000;
}

execute-IsVetted_example :
    IsVetted true buy_inputs call
    ⊎ ((e : Error) × (execute environment call ([], 0) ≡ (err e, ([], 0))))
execute-IsVetted_example = execute-IsVetted environment buy_inputs call ([], 0) buy_run
