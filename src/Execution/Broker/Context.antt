-- ===== src/Execution/Broker/Context.antt =====
-- `BrokerExecutionContext`: minted for one intent by the agent, and checked by the adapter before it
-- places the order. Times are counts of microseconds.
use Prim.Native.Nat.{◌+◌, ◌*◌}
use text.Mathlib.TextPositions.{eq_refl}
use text.Mathlib.TextEquality.{eq_iff}
use trading_ai_alpha_agent.Prelude.{
  String, ℕ, Bool, true, false, not, ◌≤◌, Option, none, some, ◌≡◌, refl, arith, ltb, if◌then◌else◌,
}
use trading_ai_alpha_agent.Prelude.Text.{eqb, is_empty}
use trading_ai_alpha_agent.Prelude.Result.{Result, ok, err, fail_closed_error, raise_if, ◌>>◌}
use trading_ai_alpha_agent.Core.Enums.{Market, market_eq, BrokerName}
use trading_ai_alpha_agent.Schemas.Order.{OrderIntent}

pub record BrokerExecutionContext : Type 0 where
  pub execution_id : String
  pub idempotency_key : String
  pub risk_decision_id : String
  pub broker : BrokerName
  pub market : Market
  pub issued_at : ℕ
  pub expires_at : ℕ
  pub issuer_token : String

-- `_enum_value` of a broker's name
unfoldable pub broker_value : BrokerName → String
broker_value BrokerName.zerodha = "ZERODHA"
broker_value BrokerName.alpaca = "ALPACA"

-- `not text`, for a text that may be `None`
abbrev pub is_blank : Option String → Bool
is_blank none = true
is_blank (some s) = is_empty s

-- `text != other`, where the second may be `None`
abbrev differs : String → Option String → Bool
differs s none = true
differs s (some t) = not (eqb s t)

-- `validate_for`, with the token of the process and the time that `datetime.now` gives
unfoldable pub validate_for :
    {R : Type 0} → String → ℕ → BrokerExecutionContext → OrderIntent R → String → Result (Unit {0})
validate_for token now c i broker_name = do
  raise_if (not (eqb c.issuer_token token)) (fail_closed_error "invalid_broker_execution_context")
  raise_if (ltb c.expires_at now) (fail_closed_error "broker_execution_context_expired")
  raise_if (not (eqb c.idempotency_key i.idempotency_key))
      (fail_closed_error "broker_execution_context_idempotency_mismatch")
  raise_if (differs c.risk_decision_id i.risk_decision_id)
      (fail_closed_error "broker_execution_context_risk_decision_mismatch")
  raise_if (not (eqb (broker_value c.broker) (broker_value i.broker)))
      (fail_closed_error "broker_execution_context_broker_mismatch")
  raise_if (not (eqb (broker_value c.broker) broker_name))
      (fail_closed_error "broker_execution_context_adapter_mismatch")
  raise_if (not (market_eq c.market i.market))
      (fail_closed_error "broker_execution_context_market_mismatch")

-- `_issue_broker_execution_context` with its thirty seconds, the identifier that it draws, the token
-- and the time
unfoldable pub issue_context :
    {R : Type 0} → String → ℕ → String → OrderIntent R → Result BrokerExecutionContext
issue_context token now execution_id i = elim i.risk_decision_id [
  | none ↦ err (fail_closed_error "broker_execution_context_requires_risk_decision")
  | some decision ↦
      if is_empty decision
      then err (fail_closed_error "broker_execution_context_requires_risk_decision")
      else ok (record {
        execution_id = execution_id;
        idempotency_key = i.idempotency_key;
        risk_decision_id = decision;
        broker = i.broker;
        market = i.market;
        issued_at = now;
        expires_at = now + 30 * 1_000_000;
        issuer_token = token;
      })
]

-- `BaseBroker._validate_execution_context`
unfoldable pub validate_execution_context :
    {R : Type 0}
    → String
    → ℕ
    → OrderIntent R
    → Option BrokerExecutionContext
    → String
    → Result (Unit {0})
unfolding validate_for
validate_execution_context token now i none name =
    err (fail_closed_error "broker_execution_context_required")
validate_execution_context token now i (some c) name = validate_for token now c i name

market_eq_refl : (m : Market) → market_eq m m ≡ true
unfolding market_eq
market_eq_refl m = ground arith

-- A permit admits the intent that it was issued for, at the adapter of that intent's broker, until
-- its thirty seconds have passed.
pub issued_permit_admits :
    {R : Type 0} (token : String) (now later : ℕ) (execution_id : String) (i : OrderIntent R)
    {c : BrokerExecutionContext}
    → issue_context token now execution_id i ≡ ok c
    → later ≤ now + 30_000_000
    → validate_execution_context token later i (some c) (broker_value i.broker) ≡ ok tt
unfolding issue_context validate_execution_context validate_for
issued_permit_admits token now later execution_id i {c} h t = ground (
  arith,
  eq_refl token,
  eq_refl i.idempotency_key,
  eq_refl c.risk_decision_id,
  eq_refl (broker_value i.broker),
  market_eq_refl i.market,
)

same_text : (s : String) (t : Option String) → differs s t ≡ false → t ≡ some s
same_text s none h = cc
same_text s (some t) h = ground (arith, eq_iff s t)

same_broker_value : (a b : BrokerName) → not (eqb (broker_value a) (broker_value b)) ≡ false → a ≡ b
unfolding broker_value
same_broker_value BrokerName.zerodha BrokerName.zerodha h = refl
same_broker_value BrokerName.zerodha BrokerName.alpaca h = cc
same_broker_value BrokerName.alpaca BrokerName.zerodha h = cc
same_broker_value BrokerName.alpaca BrokerName.alpaca h = refl

same_market_eq : (m n : Market) → not (market_eq m n) ≡ false → m ≡ n
unfolding market_eq
same_market_eq m n h = ground arith

-- What a permit that an adapter accepts guarantees.
pub record Matches {R : Type 0} (c : BrokerExecutionContext) (i : OrderIntent R) (now : ℕ)
    : Type 0 where
  pub same_key : c.idempotency_key ≡ i.idempotency_key
  pub same_decision : i.risk_decision_id ≡ some c.risk_decision_id
  pub same_broker : c.broker ≡ i.broker
  pub same_market : c.market ≡ i.market
  pub in_time : now ≤ c.expires_at

-- A permit that an adapter accepts has the idempotency key, the risk decision, the broker and the
-- market of the intent, and has not expired.
pub accepted_permit-Matches :
    {R : Type 0} (token : String) (now : ℕ) (i : OrderIntent R) (c : BrokerExecutionContext)
    (name : String)
    → validate_execution_context token now i (some c) name ≡ ok tt
    → Matches c i now
unfolding validate_execution_context validate_for
accepted_permit-Matches token now i c name h = record {
  same_key = ground (arith, eq_iff c.idempotency_key i.idempotency_key);
  same_decision = same_text c.risk_decision_id i.risk_decision_id (ground arith);
  same_broker = same_broker_value c.broker i.broker (ground arith);
  same_market = same_market_eq c.market i.market (ground arith);
  in_time = ground arith;
}
