-- ===== src/Agentic/Vetoes/Late.antt =====
-- The reviews of a signal, from the regime to the fill, when they take too long.
use trading_ai_alpha_agent.Prelude.{true, ◌≡◌, refl, ◌∙◌}
use trading_ai_alpha_agent.Prelude.Result.{Result, ok, err}
use trading_ai_alpha_agent.Prelude.Float.{Float, ◌<?◌, of_ℕ}
use trading_ai_alpha_agent.Intraday.Config.{IntradayShadowConfig}
use trading_ai_alpha_agent.Intraday.Models.{
  MarketDataSnapshot, ScoredSignal, RiskApproval, ShadowOrder,
}
use trading_ai_alpha_agent.Intraday.Regime.{RegimeResult}
use trading_ai_alpha_agent.Intraday.RiskManager.{ShadowRiskState}
use trading_ai_alpha_agent.Intraday.Reviewer.{Reviewer}
use trading_ai_alpha_agent.Agentic.Config.{AgenticConfig}
use trading_ai_alpha_agent.Agentic.Models.{decision_holds, AgentOutput}
use trading_ai_alpha_agent.Agentic.Review.{Library, Subject, status_of, failure_record, review}
use trading_ai_alpha_agent.Agentic.FailClosed.{invalid_record_blocks, decision_holds-status_of}
use trading_ai_alpha_agent.Agentic.Agents.Trade.{SignalCritique, critique_signal}
use trading_ai_alpha_agent.Agentic.Orchestrator.Outcome.{result_from_record}
use trading_ai_alpha_agent.Agentic.Orchestrator.Reviews.{
  AgenticOrchestrator, critic_input, of_critique, review_regime, review_signal, review_risk,
  review_execution, reviewer_of,
}
use trading_ai_alpha_agent.Agentic.Vetoes.{if_enabled-block}

module _ {R : Type 0} ⦃f : Float R⦄ where
  late_critique_blocks :
      (lib : Library R) (config : AgenticConfig) (subject : Subject) (elapsed : R)
      (made : Result (AgentOutput R (SignalCritique R)))
      → (of_ℕ config.agent_timeout_ms <? elapsed) ≡ true
      → (of_critique (review lib config "SignalCriticAgent" subject elapsed made)).block ≡ true
  unfolding review result_from_record decision_holds
  late_critique_blocks lib config subject elapsed (err e) late =
      invalid_record_blocks
        (failure_record "SignalCriticAgent" subject (status_of e) (lib.describe e))
        (decision_holds-status_of e)
  late_critique_blocks lib config subject elapsed (ok o) late = rw late refl

  -- A reviewer whose every answer after so long a time blocks.
  pub record IsBlocking (reviewer : Reviewer R) (elapsed : R) : Type 0 where
    pub regime :
        (s : MarketDataSnapshot R) (regime : RegimeResult R)
        → (reviewer.on_regime elapsed s regime).block ≡ true
    pub signal :
        (scored : ScoredSignal R) (state : ShadowRiskState R)
        → (reviewer.on_signal elapsed scored state).block ≡ true
    pub risk :
        (scored : ScoredSignal R) (approval : RiskApproval R) (state : ShadowRiskState R)
        (config : IntradayShadowConfig R)
        → (reviewer.on_risk elapsed scored approval state config).block ≡ true
    pub execution :
        (scored : ScoredSignal R) (order : ShadowOrder R) (s : MarketDataSnapshot R)
        → (reviewer.on_execution elapsed scored order s).block ≡ true

  -- Where the agents are enabled, each of the four reviews that the pipeline asks for blocks if it
  -- takes longer than the timeout, whatever it reviews and whatever it finds.
  pub reviewer_of-IsBlocking :
      (o : AgenticOrchestrator R) (elapsed : R)
      → o.config.enabled ≡ true
      → (of_ℕ o.config.agent_timeout_ms <? elapsed) ≡ true
      → IsBlocking (reviewer_of o) elapsed
  unfolding review_regime review_signal review_risk review_execution review result_from_record
      decision_holds
  reviewer_of-IsBlocking o elapsed enabled late = record {
    regime = λ s regime. rw (enabled, late) refl;
    signal = λ scored state.
        if_enabled-block o.config _ enabled
        ∙ late_critique_blocks o.library o.config _ elapsed
            (critique_signal (critic_input scored state)) late;
    risk = λ scored approval state config. rw (enabled, late) refl;
    execution = λ scored order s. rw (enabled, late) refl;
  }
