-- ===== src/Agentic/Vetoes/Against.antt =====
-- The critic of signals: a signal against the regime.
use trading_ai_alpha_agent.Prelude.{
  String, Bool, true, false, ◌&&◌, List, [], ◌∷◌, none, some, raised, raised-eq-nil, NoneRaised,
  ◌≡◌, inl, inr, refl, sym, ◌∙◌,
}
use mathlib.Core.Bool.{false≢true}
use trading_ai_alpha_agent.Prelude.Text.{eqb}
use trading_ai_alpha_agent.Prelude.Result.{err, Result-cases}
use trading_ai_alpha_agent.Prelude.Float.{Float}
use trading_ai_alpha_agent.Intraday.Models.{
  direction_value, regime_value, Direction, MarketRegime, is_bullish, is_bearish, Signal,
  ScoredSignal,
}
use trading_ai_alpha_agent.Intraday.Quality.{none_of}
use trading_ai_alpha_agent.Intraday.RiskManager.{ShadowRiskState}
use trading_ai_alpha_agent.Intraday.Regime.{truthy}
use trading_ai_alpha_agent.Intraday.Scoring.{holds_text}
use trading_ai_alpha_agent.Agentic.Config.{AgenticConfig}
use trading_ai_alpha_agent.Agentic.Models.{is_high, max_severity}
use trading_ai_alpha_agent.Agentic.Review.{Library, Subject, Reviewed, review}
use trading_ai_alpha_agent.Agentic.Agents.Trade.{
  SignalCriticInput, critique_signal, grave_checks, critic_severity, SignalCritique, far_from,
}
use trading_ai_alpha_agent.Agentic.Orchestrator.Outcome.{result_from_record}
use trading_ai_alpha_agent.Agentic.Orchestrator.Reviews.{
  AgenticOrchestrator, of_critique, critic_input, review_signal,
}
use trading_ai_alpha_agent.Agentic.Vetoes.{
  ReadsBack, List-cases, high_blocks, raised_blocks, if_enabled-block,
}

critic_severity-high :
    (grave minor : List String)
    → none_of grave ≡ false
    → is_high (critic_severity grave minor) ≡ true
unfolding is_high max_severity
critic_severity-high [] minor h = cc
critic_severity-high (g ∷ gs) [] h = refl
critic_severity-high (g ∷ gs) (m ∷ ms) h = refl

-- A regime that rises is named bullish, one that falls is named bearish.
bearish_named :
    (regime : MarketRegime)
    → is_bearish regime ≡ true
    → holds_text "BEARISH" (regime_value regime) ≡ true
unfolding is_bearish regime_value holds_text
bearish_named MarketRegime.strong_bearish h = refl
bearish_named MarketRegime.weak_bearish h = refl
bearish_named _ h = cc

bullish_named :
    (regime : MarketRegime)
    → is_bullish regime ≡ true
    → holds_text "BULLISH" (regime_value regime) ≡ true
unfolding is_bullish regime_value holds_text
bullish_named MarketRegime.strong_bullish h = refl
bullish_named MarketRegime.weak_bullish h = refl
bullish_named _ h = cc

none_of-raised :
    (checks : List (Bool × String)) → ¬ NoneRaised checks → none_of (raised checks) ≡ false
none_of-raised checks h = elim (List-cases (raised checks)) [
  | inl e ↦ absurd (h (raised-eq-nil checks e))
  | inr (x, xs, e) ↦ rw e refl
]

module _ {R : Type 0} ⦃f : Float R⦄ where
  -- A criticism that is grave, or that raises, blocks.
  critique_blocks :
      (lib : Library R) (config : AgenticConfig) (subject : Subject) (elapsed : R)
      (i : SignalCriticInput R)
      → ReadsBack lib
      → none_of (raised (grave_checks i)) ≡ false
      → (result_from_record
          (review lib config "SignalCriticAgent" subject elapsed (critique_signal i)).1).block
        ≡ true
  unfolding critique_signal
  critique_blocks lib config subject elapsed i back grave =
      elim (Result-cases (far_from i.entry_price (truthy i.last_close))) [
        | inl (far, e) ↦ rw e (
            high_blocks lib config "SignalCriticAgent" subject elapsed _ back
              (critic_severity-high (raised (grave_checks i)) _ grave))
        | inr (x, e) ↦
            rw e (raised_blocks lib config "SignalCriticAgent" subject elapsed (err x) x refl)
      ]

  of_critique_block :
      (reviewed : Reviewed R (SignalCritique R))
      → (of_critique reviewed).block ≡ (result_from_record reviewed.1).block
  of_critique_block (none, r) = refl
  of_critique_block (some o, r) = refl

  -- A signal whose direction is against its regime.
  pub data IsAgainst (s : Signal R) : Type 0 where
    long_falling : s.direction ≡ Direction.long → is_bearish s.regime_at_signal ≡ true → IsAgainst s
    short_rising :
        s.direction ≡ Direction.short → is_bullish s.regime_at_signal ≡ true → IsAgainst s

  grave_of_against :
      (scored : ScoredSignal R) (state : ShadowRiskState R)
      → IsAgainst scored.signal
      → none_of (raised (grave_checks (critic_input scored state))) ≡ false
  unfolding critic_input direction_value
  grave_of_against scored state (IsAgainst.long_falling d b) =
      let named : (eqb (direction_value scored.signal.direction) "LONG"
            && holds_text "BEARISH" (regime_value scored.signal.regime_at_signal))
          ≡ true =
        rw (d, bearish_named scored.signal.regime_at_signal b) refl in
      none_of-raised (grave_checks (critic_input scored state))
        (λ none_raised. false≢true (sym none_raised.1.1.0 ∙ named))
  grave_of_against scored state (IsAgainst.short_rising d b) =
      let named : (eqb (direction_value scored.signal.direction) "SHORT"
            && holds_text "BULLISH" (regime_value scored.signal.regime_at_signal))
          ≡ true =
        rw (d, bullish_named scored.signal.regime_at_signal b) refl in
      none_of-raised (grave_checks (critic_input scored state))
        (λ none_raised. false≢true (sym none_raised.1.1.1.0 ∙ named))

  -- Where the agents are enabled, a signal against its regime is blocked, whatever its prices,
  -- its candle and the time of the review are.
  pub review_signal_against_regime :
      (o : AgenticOrchestrator R) (elapsed : R) (scored : ScoredSignal R)
      (state : ShadowRiskState R)
      → ReadsBack o.library
      → o.config.enabled ≡ true
      → IsAgainst scored.signal
      → (review_signal o elapsed scored state).block ≡ true
  unfolding review_signal
  review_signal_against_regime o elapsed scored state back enabled against =
      if_enabled-block o.config _ enabled
      ∙ (of_critique_block _
          ∙ critique_blocks o.library o.config _ elapsed (critic_input scored state) back
              (grave_of_against scored state against))
