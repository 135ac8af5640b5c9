-- ===== src/Agentic/FailClosed.antt =====
-- What the agents can do to a decision of the pipeline: every result of a review only blocks or
-- reduces, and one made of the record of a review without output blocks.
use trading_ai_alpha_agent.Prelude.{
  String, Bool, true, false, not, ◌||◌, ◌&&◌, List, [], ◌∷◌, Option, none, some, ◌≡◌, ◌⊎◌, inl, inr,
  refl, Bool-cases, if◌then◌else◌,
}
use trading_ai_alpha_agent.Prelude.Int.{pos}
use trading_ai_alpha_agent.Prelude.Text.{eqb, contains}
use trading_ai_alpha_agent.Prelude.Result.{Error, Result, ok, err, Result-cases}
use trading_ai_alpha_agent.Prelude.Float.{Float, ◌<?◌, of_ℕ, decimal}
use trading_ai_alpha_agent.Paper.Symbols.{upper}
use trading_ai_alpha_agent.Intraday.Config.{IntradayShadowConfig}
use trading_ai_alpha_agent.Intraday.Models.{
  MarketDataSnapshot, ScoredSignal, RiskApproval, ShadowOrder,
}
use trading_ai_alpha_agent.Intraday.Regime.{RegimeResult}
use trading_ai_alpha_agent.Intraday.RiskManager.{ShadowRiskState}
use trading_ai_alpha_agent.Intraday.Reviewer.{Reviewer}
use trading_ai_alpha_agent.Agentic.Config.{AgenticConfig}
use trading_ai_alpha_agent.Agentic.Models.{
  AgentDecisionStatus, AgentOutput, AgentDecisionRecord, AgenticReviewResult, decision_holds,
  is_medium, is_mark_missed, judged,
}
use trading_ai_alpha_agent.Agentic.Policy.{
  AgentClaim, reduced, weigh, rule_on, apply_policy, validate_recommendation,
  forbidden_recommendations,
}
use trading_ai_alpha_agent.Agentic.Review.{
  Library, Subject, Reviewed, is_value_error, status_of, failure_record, valid_record, review,
}
use trading_ai_alpha_agent.Agentic.Agents.Context.{RegimeReview}
use trading_ai_alpha_agent.Agentic.Agents.Trade.{SignalCritique, RiskAudit, ExecutionReview}
use trading_ai_alpha_agent.Agentic.Orchestrator.Outcome.{
  reasons_given, error_given, record_blocks, softened, result_from_record,
}
use trading_ai_alpha_agent.Agentic.Orchestrator.Reviews.{
  AgenticOrchestrator, less_confident, of_regime_review, of_critique, of_audit, of_execution_review,
  review_regime, review_signal, review_risk, review_execution, reviewer_of,
}

pub decision_holds-status_of : (e : Error) → decision_holds (status_of e) ≡ false
unfolding decision_holds
decision_holds-status_of e = elim (Bool-cases (is_value_error e)) [
  | inl value ↦ rw value refl
  | inr other ↦ rw other refl
]

module _ {R : Type 0} ⦃f : Float R⦄ where
  -- A result that allows what it does not block, and leaves the confidence or lowers it to 0.8.
  pub record IsCautious (result : AgenticReviewResult R) : Type 0 where
    pub allows : result.allowed ≡ not result.block
    pub lowers :
        (result.confidence_multiplier ≡ of_ℕ 1) ⊎ (result.confidence_multiplier ≡ decimal (pos 8) 1)

  judged-IsCautious :
      (b : Bool) (warnings : List String) (records : List (AgentDecisionRecord R))
      → IsCautious (judged b warnings records)
  judged-IsCautious true warnings records = record { allows = refl; lowers = inl refl }
  judged-IsCautious false warnings records = record { allows = refl; lowers = inl refl }

  if-IsCautious :
      (b : Bool) {x y : AgenticReviewResult R}
      → IsCautious x
      → IsCautious y
      → IsCautious (if b then x else y)
  if-IsCautious true h k = h
  if-IsCautious false h k = k

  reduced-IsCautious : (c : AgentClaim) → IsCautious (reduced c)
  reduced-IsCautious c = record { allows = refl; lowers = inr refl }

  weigh-IsCautious : (c : AgentClaim) → IsCautious (weigh c)
  weigh-IsCautious c =
      if-IsCautious
        (eqb c.severity "HIGH" || (eqb c.verdict "REJECT" || eqb c.recommendation "BLOCK"))
        (judged-IsCautious true c.reason_codes [])
        (if-IsCautious (eqb c.severity "MEDIUM") (reduced-IsCautious c)
          (judged-IsCautious false c.reason_codes []))

  rule_on-IsCautious :
      (config : AgenticConfig) (c : AgentClaim) (error : Option String)
      → IsCautious (rule_on config c error)
  rule_on-IsCautious config c (some error) = judged-IsCautious config.strict_mode (error ∷ []) []
  rule_on-IsCautious config c none = weigh-IsCautious c

  -- The policy, whatever an agent claims, only blocks or reduces.
  pub apply_policy-IsCautious :
      (config : AgenticConfig) (c : AgentClaim) → IsCautious (apply_policy config c)
  unfolding apply_policy
  apply_policy-IsCautious config c =
      if-IsCautious c.is_valid
        (rule_on-IsCautious config c (validate_recommendation config c.recommendation))
        (judged-IsCautious (config.strict_mode && eqb config.fallback_policy "FAIL_SAFE_BLOCK")
          ("agent_output_invalid" ∷ []) [])

  -- A forbidden recommendation is never acted on: the strict mode blocks it, and else it only warns.
  pub apply_policy_forbidden :
      (config : AgenticConfig) (c : AgentClaim)
      → c.is_valid ≡ true
      → contains (upper c.recommendation) forbidden_recommendations ≡ true
      → apply_policy {R = R} config c
        ≡ judged config.strict_mode ("forbidden_agent_recommendation" ∷ []) []
  unfolding apply_policy validate_recommendation
  apply_policy_forbidden config c h k = rw (h, k) refl

  softened-IsCautious :
      (r : AgentDecisionRecord R) (result : AgenticReviewResult R)
      → IsCautious result
      → IsCautious (softened r result)
  softened-IsCautious r result h =
      if-IsCautious (is_medium r.severity) (record { allows = h.allows; lowers = inr refl }) h

  pub result_from_record-IsCautious :
      (r : AgentDecisionRecord R) → IsCautious (result_from_record r)
  unfolding result_from_record
  result_from_record-IsCautious r =
      if-IsCautious (decision_holds r.schema_validation_status)
        (softened-IsCautious r
          (judged (record_blocks r) (reasons_given [] r.parsed_reasons) (r ∷ []))
          (judged-IsCautious (record_blocks r) (reasons_given [] r.parsed_reasons) (r ∷ [])))
        (judged-IsCautious true (error_given r.error ∷ []) (r ∷ []))

  -- What a review comes to: a record of a failure, or the output that was read.
  pub data IsReview {E : Type 0} (lib : Library R) (config : AgenticConfig) (name : String)
      (subject : Subject) (made : Result (AgentOutput R E)) (reviewed : Reviewed R E) : Type 0 where
    failed :
        (status : AgentDecisionStatus) (error : String)
        → decision_holds status ≡ false
        → reviewed ≡ (none, failure_record name subject status error)
        → IsReview lib config name subject made reviewed
    read :
        (o p : AgentOutput R E)
        → made ≡ ok o
        → lib.reread o ≡ ok p
        → reviewed ≡ (some p, valid_record config subject p)
        → IsReview lib config name subject made reviewed

  pub review-IsReview :
      {E : Type 0} (lib : Library R) (config : AgenticConfig) (name : String) (subject : Subject)
      (elapsed : R) (made : Result (AgentOutput R E))
      → IsReview lib config name subject made (review lib config name subject elapsed made)
  unfolding review decision_holds
  review-IsReview lib config name subject elapsed (err e) =
      IsReview.failed (status_of e) (lib.describe e) (decision_holds-status_of e) refl
  review-IsReview lib config name subject elapsed (ok o) =
      elim (Bool-cases (of_ℕ config.agent_timeout_ms <? elapsed)) [
        | inl late ↦
            IsReview.failed AgentDecisionStatus.timed_out "agent_timeout" refl (rw late refl)
        | inr timely ↦ elim (Result-cases (lib.reread o)) [
          | inl (p, e) ↦ IsReview.read o p refl e (rw (timely, e) refl)
          | inr (e, q) ↦
              IsReview.failed (status_of e) (lib.describe e) (decision_holds-status_of e)
                (rw (timely, q) refl)
        ]
      ]

  pub invalid_record_blocks :
      (r : AgentDecisionRecord R)
      → decision_holds r.schema_validation_status ≡ false
      → (result_from_record r).block ≡ true
  unfolding result_from_record
  invalid_record_blocks r h = rw h refl

  -- The record of a review that yields no output, since it took too long or raised, makes a result
  -- that blocks where the result is made by `_result_from_record`. The review before the market does
  -- not make it so.
  pub result_from_record-review :
      {E : Type 0} (lib : Library R) (config : AgenticConfig) (name : String) (subject : Subject)
      (elapsed : R) (made : Result (AgentOutput R E))
      → (review lib config name subject elapsed made).0 ≡ none
      → (result_from_record (review lib config name subject elapsed made).1).block ≡ true
  result_from_record-review lib config name subject elapsed made h =
      elim (review-IsReview lib config name subject elapsed made) [
        | IsReview.failed status error bad e ↦
            rw e (invalid_record_blocks (failure_record name subject status error) bad)
        | IsReview.read o p m q e ↦ let k : some p ≡ none = rw e at h in cc
      ]

  lowered-IsCautious :
      (result : AgenticReviewResult R) → IsCautious result → IsCautious (less_confident result)
  lowered-IsCautious result h = record {
    allows = h.allows;
    lowers = elim (Bool-cases (decimal (pos 8) 1 <? result.confidence_multiplier)) [
      | inl lower ↦ inr (rw lower refl)
      | inr kept ↦ rw kept h.lowers
    ];
  }

  of_regime_review-IsCautious :
      (reviewed : Reviewed R RegimeReview) → IsCautious (of_regime_review reviewed)
  of_regime_review-IsCautious (none, r) = result_from_record-IsCautious r
  of_regime_review-IsCautious (some o, r) =
      let h = result_from_record-IsCautious r in
      if-IsCautious o.details.agrees_with_regime h (lowered-IsCautious _ h)

  of_critique-IsCautious :
      (reviewed : Reviewed R (SignalCritique R)) → IsCautious (of_critique reviewed)
  of_critique-IsCautious (none, r) = result_from_record-IsCautious r
  of_critique-IsCautious (some o, r) =
      let h = result_from_record-IsCautious r in record { allows = h.allows; lowers = h.lowers }

  of_audit-IsCautious : (reviewed : Reviewed R RiskAudit) → IsCautious (of_audit reviewed)
  of_audit-IsCautious (none, r) = result_from_record-IsCautious r
  of_audit-IsCautious (some o, r) =
      let h = result_from_record-IsCautious r in record { allows = h.allows; lowers = h.lowers }

  of_execution_review-IsCautious :
      (reviewed : Reviewed R (ExecutionReview R)) → IsCautious (of_execution_review reviewed)
  of_execution_review-IsCautious (none, r) = result_from_record-IsCautious r
  of_execution_review-IsCautious (some o, r) =
      let h = result_from_record-IsCautious r in
      if-IsCautious (is_mark_missed o.recommended_action)
        (record { allows = h.allows; lowers = h.lowers }) h

  -- A reviewer whose every answer is cautious.
  pub record IsCautiousReviewer (reviewer : Reviewer R) : Type 0 where
    pub regime :
        (ms : R) (s : MarketDataSnapshot R) (regime : RegimeResult R)
        → IsCautious (reviewer.on_regime ms s regime)
    pub signal :
        (ms : R) (scored : ScoredSignal R) (state : ShadowRiskState R)
        → IsCautious (reviewer.on_signal ms scored state)
    pub risk :
        (ms : R) (scored : ScoredSignal R) (approval : RiskApproval R) (state : ShadowRiskState R)
        (config : IntradayShadowConfig R)
        → IsCautious (reviewer.on_risk ms scored approval state config)
    pub execution :
        (ms : R) (scored : ScoredSignal R) (order : ShadowOrder R) (s : MarketDataSnapshot R)
        → IsCautious (reviewer.on_execution ms scored order s)

  -- Every answer of the orchestrator to the pipeline allows exactly what it does not block, and
  -- leaves the confidence in a signal or lowers it to 0.8, whatever its settings and its library.
  pub reviewer_of-IsCautiousReviewer :
      (o : AgenticOrchestrator R) → IsCautiousReviewer (reviewer_of o)
  unfolding review_regime review_signal review_risk review_execution
  reviewer_of-IsCautiousReviewer o = record {
    regime = λ ms s regime.
        if-IsCautious o.config.enabled (of_regime_review-IsCautious _)
          (judged-IsCautious false [] []);
    signal = λ ms scored state.
        if-IsCautious o.config.enabled (of_critique-IsCautious _) (judged-IsCautious false [] []);
    risk = λ ms scored approval state config.
        if-IsCautious o.config.enabled (of_audit-IsCautious _) (judged-IsCautious false [] []);
    execution = λ ms scored order s.
        if-IsCautious o.config.enabled (of_execution_review-IsCautious _)
          (judged-IsCautious false [] []);
  }
