-- ===== src/Pipeline.antt =====
-- The risk engine of app/risk/risk_engine.py in front of the agent of app/execution/order_manager.py.
mod Tests
use trading_ai_alpha_agent.Prelude.{
  Bool, true, false, ◌≡◌, sym, ap, ◌∙◌, ◌⊎◌, inl, inr, subst, arith,
}
use trading_ai_alpha_agent.Prelude.Result.{Error, ok, err}
use trading_ai_alpha_agent.Prelude.Float.{Float}
use trading_ai_alpha_agent.Core.Enums.{RiskDecisionType}
use trading_ai_alpha_agent.Schemas.Risk.{RiskDecision, is_approved_for_execution, admits_execution}
use trading_ai_alpha_agent.Risk.Engine.{evaluate}
use trading_ai_alpha_agent.Risk.Engine.Inputs.{Inputs}
use trading_ai_alpha_agent.Risk.Engine.Gates.{IsCleared}
use trading_ai_alpha_agent.Risk.Engine.Approval.{IsCapped, approval-IsCleared, approval-IsCapped}
use trading_ai_alpha_agent.Risk.Engine.Outcome.{IsOutcome, evaluate-IsOutcome}
use trading_ai_alpha_agent.Execution.Agent.{State, Call, Environment, execute}
use trading_ai_alpha_agent.Execution.Permission.{IsPermitted, execute-IsPermitted}

module _ {R : Type 0} ⦃f : Float R⦄ where
  -- What stands behind a call that goes on to the store and the broker.
  pub record IsVetted (live_orders_enabled : Bool) (i : Inputs R) (c : Call R) : Type 0 where
    pub permitted : IsPermitted live_orders_enabled c
    pub cleared : IsCleared i
    pub capped : IsCapped i c.risk_decision.approved_quantity

  -- Of the engine's decisions only an approval admits an execution.
  admitted_approved :
      {d : RiskDecision R}
      → IsOutcome d
      → is_approved_for_execution d ≡ true
      → d.decision ≡ RiskDecisionType.approved
  unfolding is_approved_for_execution admits_execution
  admitted_approved (IsOutcome.no_trade a q r) h = absurd (cc (ap admits_execution a, h))
  admitted_approved (IsOutcome.rejected a q c risk r u) h = absurd (cc (ap admits_execution a, h))
  admitted_approved (IsOutcome.approved a r q) h = a

  -- A call with a decision of the risk engine raises and changes nothing, or it is permitted, the
  -- engine had cleared every gate, and the quantity that it approved is within every cap.
  pub execute-IsVetted :
      {S W : Type 0} (env : Environment R S W) (i : Inputs R) (c : Call R) (st : State S W)
      → evaluate i ≡ ok c.risk_decision
      → IsVetted env.live_orders_enabled i c ⊎ ((e : Error) × (execute env c st ≡ (err e, st)))
  execute-IsVetted env i c st h = elim (execute-IsPermitted env c st) [
    | inl permitted ↦
        let approved = admitted_approved (evaluate-IsOutcome i h) permitted.approval in
        inl (record {
          permitted = permitted;
          cleared = approval-IsCleared i h approved;
          capped = approval-IsCapped i h approved;
        })
    | inr refused ↦ inr refused
  ]
