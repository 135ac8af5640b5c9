-- ===== src/Agentic/Vetoes/Audited.antt =====
-- The auditor of risk: an approval beyond its limits.
use trading_ai_alpha_agent.Prelude.{
  true, false, [], none, some, raised, raised-eq-nil, ◌≡◌, inl, inr, refl, sym, ◌∙◌, arith,
}
use mathlib.Core.Bool.{false≢true}
use trading_ai_alpha_agent.Prelude.Int.{pos, ◌≤ℤ◌, leb_ℤ}
use trading_ai_alpha_agent.Prelude.Float.{Float, ◌-◌, ◌*◌, ◌<?◌, ◌≤?◌, of_ℕ, decimal, abs}
use trading_ai_alpha_agent.Intraday.Config.{IntradayShadowConfig}
use trading_ai_alpha_agent.Intraday.Models.{ScoredSignal, RiskApproval}
use trading_ai_alpha_agent.Intraday.RiskManager.{ShadowRiskState}
use trading_ai_alpha_agent.Agentic.Models.{is_high}
use trading_ai_alpha_agent.Agentic.Review.{Reviewed}
use trading_ai_alpha_agent.Agentic.Agents.Trade.{audit_risk, audit_checks, audit_output, RiskAudit}
use trading_ai_alpha_agent.Agentic.Orchestrator.Outcome.{result_from_record}
use trading_ai_alpha_agent.Agentic.Orchestrator.Reviews.{
  AgenticOrchestrator, audit_input, of_audit, review_risk,
}
use trading_ai_alpha_agent.Agentic.Vetoes.{ReadsBack, List-cases, high_blocks, if_enabled-block}

module _ {R : Type 0} ⦃f : Float R⦄ where
  -- What the auditor checks of an approval. A comparison that is false is stated as the code makes it.
  pub record IsAudited (scored : ScoredSignal R) (approval : RiskApproval R)
      (state : ShadowRiskState R) (config : IntradayShadowConfig R) : Type 0 where
    pub quantity : pos 1 ≤ℤ approval.quantity
    pub distance : (abs (scored.signal.entry_price - scored.signal.stop_loss) ≤? of_ℕ 0) ≡ false
    pub reward : (scored.signal.risk_reward_ratio <? decimal (pos 15) 1) ≡ false
    pub trades : leb_ℤ (pos config.max_trades_per_day) state.trades_today ≡ false
    pub risk : (config.capital * decimal (pos 5) 3 <? approval.risk_amount) ≡ false

  audit_checks-IsAudited :
      (scored : ScoredSignal R) (approval : RiskApproval R) (state : ShadowRiskState R)
      (config : IntradayShadowConfig R)
      → raised (audit_checks (audit_input scored approval state config)) ≡ []
      → IsAudited scored approval state config
  audit_checks-IsAudited scored approval state config h =
      let h1 = raised-eq-nil (audit_checks (audit_input scored approval state config)) h in
      record {
        quantity = ground (arith, h1.0);
        distance = h1.1.0;
        reward = h1.1.1.0;
        trades = h1.1.1.1.0;
        risk = h1.1.1.1.1.0;
      }

  of_audit_block :
      (reviewed : Reviewed R RiskAudit)
      → (of_audit reviewed).block ≡ (result_from_record reviewed.1).block
  of_audit_block (none, r) = refl
  of_audit_block (some o, r) = refl

  -- The auditor: an approval that the agents, being enabled, do not block is for at least one share
  -- and within the limits on the distance of the stop, the reward, the trades and the risk.
  pub review_risk-IsAudited :
      (o : AgenticOrchestrator R) (elapsed : R) (scored : ScoredSignal R)
      (approval : RiskApproval R) (state : ShadowRiskState R) (config : IntradayShadowConfig R)
      → ReadsBack o.library
      → o.config.enabled ≡ true
      → (review_risk o elapsed scored approval state config).block ≡ false
      → IsAudited scored approval state config
  unfolding review_risk audit_risk is_high
  review_risk-IsAudited o elapsed scored approval state config back enabled h =
      let violations = raised (audit_checks (audit_input scored approval state config)) in
      elim (List-cases violations) [
        | inl none_found ↦ audit_checks-IsAudited scored approval state config none_found
        | inr (x, xs, e) ↦
            let severe : is_high (audit_output {R = R} violations).severity ≡ true = rw e refl in
            let blocks =
              if_enabled-block o.config _ enabled
              ∙ (of_audit_block _
                  ∙ high_blocks o.library o.config "RiskAuditorAgent" _ elapsed
                      (audit_output violations) back severe) in
            absurd (false≢true (sym h ∙ blocks))
      ]
