-- ===== src/Agentic/Vetoes.antt =====
-- What the agents refuse, and what blocks in a review. The library is one that reads back what it has
-- written, or raises.
pub mod Against
pub mod Audited
pub mod Late
use trading_ai_alpha_agent.Prelude.Result.{ok-injective}
use trading_ai_alpha_agent.Prelude.{
  String, Bool, true, false, ◌&&◌, List, [], ◌∷◌, none, some, raised, raised-eq-nil, NoneRaised,
  ◌≡◌, ◌⊎◌, inl, inr, refl, sym, ◌∙◌, Bool-cases, arith,
}
use mathlib.Core.Bool.{false≢true}
use trading_ai_alpha_agent.Prelude.Text.{eqb}
use trading_ai_alpha_agent.Prelude.Int.{pos, ◌≤ℤ◌, leb_ℤ}
use trading_ai_alpha_agent.Prelude.Result.{Error, Result, ok, err, Result-cases}
use trading_ai_alpha_agent.Prelude.Float.{Float, ◌-◌, ◌*◌, ◌<?◌, ◌≤?◌, of_ℕ, decimal, abs}
use trading_ai_alpha_agent.Intraday.Config.{IntradayShadowConfig}
use trading_ai_alpha_agent.Intraday.Models.{
  direction_value, regime_value, Direction, MarketRegime, is_bullish, is_bearish, Signal,
  ScoredSignal, RiskApproval,
}
use trading_ai_alpha_agent.Intraday.Quality.{none_of}
use trading_ai_alpha_agent.Intraday.RiskManager.{ShadowRiskState}
use trading_ai_alpha_agent.Intraday.Regime.{truthy}
use trading_ai_alpha_agent.Intraday.Scoring.{holds_text}
use trading_ai_alpha_agent.Agentic.Config.{AgenticConfig}
use trading_ai_alpha_agent.Agentic.Models.{
  AgentOutput, AgenticReviewResult, decision_holds, is_high, max_severity,
}
use trading_ai_alpha_agent.Agentic.Review.{
  Library, Subject, failure_record, valid_record, Reviewed, review,
}
use trading_ai_alpha_agent.Agentic.FailClosed.{IsReview, review-IsReview, invalid_record_blocks}
use trading_ai_alpha_agent.Agentic.Agents.Trade.{
  SignalCriticInput, critique_signal, grave_checks, critic_severity, SignalCritique, far_from,
  audit_risk, audit_checks, audit_output, RiskAudit,
}
use trading_ai_alpha_agent.Agentic.Agents.Research.{validate_backtest}
use trading_ai_alpha_agent.Agentic.Orchestrator.Outcome.{record_blocks, result_from_record}
use trading_ai_alpha_agent.Agentic.Orchestrator.Reviews.{
  AgenticOrchestrator, if_enabled, of_critique, critic_input, audit_input, of_audit, review_signal,
  review_risk, validate_strategy_change,
}

pub List-cases :
    {A : Type 0} (xs : List A) → (xs ≡ []) ⊎ ((x : A) × (ys : List A) × (xs ≡ (x ∷ ys)))
List-cases [] = inl refl
List-cases (x ∷ xs) = inr (x, xs, refl)

module _ {R : Type 0} ⦃f : Float R⦄ where
  -- What the documents of pydantic say of a text that it wrote: it reads the same output from it,
  -- or raises.
  abbrev pub ReadsBack : Library R → Type 1
  ReadsBack lib = (E : Type 0) (o p : AgentOutput R E) → lib.reread o ≡ ok p → p ≡ o

  valid_record_blocks :
      {E : Type 0} (config : AgenticConfig) (subject : Subject) (o : AgentOutput R E)
      → is_high o.severity ≡ true
      → (result_from_record (valid_record config subject o)).block ≡ true
  unfolding result_from_record decision_holds record_blocks
  valid_record_blocks config subject o high = ground (arith, high)

  -- A review of high severity blocks, whether its output is read or not.
  pub high_blocks :
      {E : Type 0} (lib : Library R) (config : AgenticConfig) (name : String) (subject : Subject)
      (elapsed : R) (o : AgentOutput R E)
      → ReadsBack lib
      → is_high o.severity ≡ true
      → (result_from_record (review lib config name subject elapsed (ok o)).1).block ≡ true
  high_blocks {E} lib config name subject elapsed o back high =
      elim (review-IsReview lib config name subject elapsed (ok o)) [
        | IsReview.failed status error bad e ↦
            rw e (invalid_record_blocks (failure_record name subject status error) bad)
        | IsReview.read made p m q e ↦
            rw e (
              valid_record_blocks config subject p
                (rw (back E made p q, sym (ok-injective m)) high))
      ]

  -- A change of a strategy is refused, whether the agents are enabled or not.
  pub validate_strategy_change_refuses :
      (o : AgenticOrchestrator R) (elapsed : R)
      → ReadsBack o.library
      → (validate_strategy_change o elapsed).block ≡ true
  unfolding validate_strategy_change validate_backtest is_high
  validate_strategy_change_refuses o elapsed back = elim (Bool-cases o.config.enabled) [
    | inl enabled ↦ rw enabled (high_blocks o.library o.config _ _ elapsed _ back refl)
    | inr disabled ↦ rw disabled refl
  ]

  -- A review that raises blocks.
  pub raised_blocks :
      {E : Type 0} (lib : Library R) (config : AgenticConfig) (name : String) (subject : Subject)
      (elapsed : R) (made : Result (AgentOutput R E)) (e : Error)
      → made ≡ err e
      → (result_from_record (review lib config name subject elapsed made).1).block ≡ true
  raised_blocks lib config name subject elapsed made e h =
      elim (review-IsReview lib config name subject elapsed made) [
        | IsReview.failed status error bad q ↦
            rw q (invalid_record_blocks (failure_record name subject status error) bad)
        | IsReview.read o p m k q ↦ let clash : err e ≡ ok o = sym h ∙ m in cc
      ]

  pub if_enabled-block :
      (config : AgenticConfig) (result : AgenticReviewResult R)
      → config.enabled ≡ true
      → (if_enabled config result).block ≡ result.block
  if_enabled-block config result h = rw h refl
