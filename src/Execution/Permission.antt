-- ===== src/Execution/Permission.antt =====
-- What `ExecutionAgent` requires before it touches the store or the broker.
use text.Mathlib.TextEquality.{eq_iff}
use trading_ai_alpha_agent.Prelude.{
  String, Bool, true, false, not, Option, none, some, ◌≡◌, refl, ◌⊎◌, inl, inr, arith, Bool-cases,
  if◌then◌else◌,
}
use trading_ai_alpha_agent.Prelude.Text.{is_empty}
use trading_ai_alpha_agent.Prelude.Result.{Error, Result, ok, err, raise_if, ◌>>=◌}
use trading_ai_alpha_agent.Core.Enums.{Market, market_eq, is_india, is_live_capable}
use trading_ai_alpha_agent.Schemas.Status.{broker_is_healthy_for_live, ComplianceStatus, approved}
use trading_ai_alpha_agent.Schemas.Order.{OrderIntent}
use trading_ai_alpha_agent.Schemas.Risk.{is_approved_for_execution}
use trading_ai_alpha_agent.Execution.Agent.{
  State, Call, Environment, is_other, not_approved, other_market, validate_india,
  validate_pre_trade, execute,
}

abbrev pub IndiaPermitted : {R : Type 0} → Call R → Type 0
IndiaPermitted c =
    (is_india c.intent.market ≡ false)
    ⊎ ((s : ComplianceStatus) × (c.compliance_status ≡ some s)
        × (approved s ≡ true)
        × (s.market ≡ c.intent.market))

-- A call that may place an order: it rests on the very decision that approved it, in a live mode
-- with live orders on and the kill switch off, at a healthy broker of the same market.
pub record IsPermitted {R : Type 0} (live_orders_enabled : Bool) (c : Call R) : Type 0 where
  pub decision : c.intent.risk_decision_id ≡ some c.risk_decision.id
  pub approval : is_approved_for_execution c.risk_decision ≡ true
  pub live_mode : is_live_capable c.system_state.trading_mode ≡ true
  pub live_trading : c.system_state.live_trading_enabled ≡ true
  pub live_orders : live_orders_enabled ≡ true
  pub switch_off : c.system_state.kill_switch ≡ false
  pub market : c.broker_health.market ≡ c.intent.market
  pub health : broker_is_healthy_for_live c.broker_health ≡ true
  pub india : IndiaPermitted c
  pub key : is_empty c.intent.idempotency_key ≡ false

-- A guard that is passed did not fire.
raise_if-ok :
    {A : Type 0} (b : Bool) (e : Error) (k : Result A) {a : A}
    → (raise_if b e >>= λ _. k) ≡ ok a
    → (b ≡ false) × (k ≡ ok a)
raise_if-ok true e k h = cc
raise_if-ok false e k h = (refl, h)

pub unit_cases : (r : Result (Unit {0})) → (r ≡ ok tt) ⊎ ((e : Error) × (r ≡ err e))
unit_cases (ok u) = inl refl
unit_cases (err e) = inr (e, refl)

same_decision : (o : Option String) (id : String) → is_other o id ≡ false → o ≡ some id
same_decision none id h = cc
same_decision (some s) id h = ground (arith, eq_iff s id)

same_market : (m n : Market) → not (market_eq m n) ≡ false → m ≡ n
unfolding market_eq
same_market m n h = ground arith

not-false : (b : Bool) → not b ≡ false → b ≡ true
not-false b h = ground arith

module _ {R : Type 0} where
  india_of :
      (o : Option ComplianceStatus) (i : OrderIntent R)
      → not_approved o ≡ false
      → other_market o i ≡ false
      → (s : ComplianceStatus) × (o ≡ some s) × (approved s ≡ true) × (s.market ≡ i.market)
  india_of none i h k = cc
  india_of (some s) i h k = (s, refl, not-false (approved s) h, same_market s.market i.market k)

  india_permitted :
      (c : Call R)
      → (if is_india c.intent.market then validate_india c else ok tt) ≡ ok tt
      → IndiaPermitted c
  unfolding validate_india
  india_permitted c h = elim (Bool-cases (is_india c.intent.market)) [
    | inr other ↦ inl other
    | inl india ↦
        let checked : validate_india c ≡ ok tt = rw india at h in
        let (approval, rest) = raise_if-ok (not_approved c.compliance_status) _ _ checked in
        inr (india_of c.compliance_status c.intent approval (ground arith))
  ]

  -- the checks of `validate_pre_trade`, one by one
  abbrev Checked : Bool → Call R → Type 0
  Checked live_orders_enabled c =
      (is_other c.intent.risk_decision_id c.risk_decision.id ≡ false)
      × (not (is_approved_for_execution c.risk_decision) ≡ false)
      × (not (is_live_capable c.system_state.trading_mode) ≡ false)
      × (not c.system_state.live_trading_enabled ≡ false)
      × (not live_orders_enabled ≡ false)
      × (c.system_state.kill_switch ≡ false)
      × (not (market_eq c.broker_health.market c.intent.market) ≡ false)
      × (not (broker_is_healthy_for_live c.broker_health) ≡ false)
      × ((if is_india c.intent.market then validate_india c else ok tt) ≡ ok tt)
      × (is_empty c.intent.idempotency_key ≡ false)

  validate_pre_trade-Checked :
      (live_orders_enabled : Bool) (c : Call R)
      → validate_pre_trade live_orders_enabled c ≡ ok tt
      → Checked live_orders_enabled c
  unfolding validate_pre_trade
  validate_pre_trade-Checked live_orders_enabled c h = ground arith

  pub validate_pre_trade-IsPermitted :
      (live_orders_enabled : Bool) (c : Call R)
      → validate_pre_trade live_orders_enabled c ≡ ok tt
      → IsPermitted live_orders_enabled c
  validate_pre_trade-IsPermitted live_orders_enabled c h =
      let (id, approval, mode, live, orders, switch, market, health, india, key) =
        validate_pre_trade-Checked live_orders_enabled c h in
      record {
        decision = same_decision c.intent.risk_decision_id c.risk_decision.id id;
        approval = not-false (is_approved_for_execution c.risk_decision) approval;
        live_mode = not-false (is_live_capable c.system_state.trading_mode) mode;
        live_trading = not-false c.system_state.live_trading_enabled live;
        live_orders = not-false live_orders_enabled orders;
        switch_off = switch;
        market = same_market c.broker_health.market c.intent.market market;
        health = not-false (broker_is_healthy_for_live c.broker_health) health;
        india = india_permitted c india;
        key = key;
      }

module _ {R S W : Type 0} (env : Environment R S W) where
  -- A call is permitted, or it raises and leaves the store and the broker as they were.
  pub execute-IsPermitted :
      (c : Call R) (st : State S W)
      → IsPermitted env.live_orders_enabled c ⊎ ((e : Error) × (execute env c st ≡ (err e, st)))
  unfolding execute
  execute-IsPermitted c (s, w) = elim (unit_cases (validate_pre_trade env.live_orders_enabled c)) [
    | inl passed ↦ inl (validate_pre_trade-IsPermitted env.live_orders_enabled c passed)
    | inr (e, refused) ↦ inr (e, rw (refused, execute))
  ]
