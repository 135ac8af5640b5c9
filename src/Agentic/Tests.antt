-- ===== src/Agentic/Tests.antt =====
-- Instances of the theorems on the agents.
use trading_ai_alpha_agent.Intraday.Config.{shadow_config_from_settings}
use trading_ai_alpha_agent.Agentic.Models.{decision_holds, is_medium}
use trading_ai_alpha_agent.Prelude.Int.{◌*ℤ◌, ◌-ℤ◌}
use trading_ai_alpha_agent.Prelude.{true, ◌≡◌, refl, sym}
use trading_ai_alpha_agent.Prelude.Result.{ok, ok-injective}
use trading_ai_alpha_agent.Prelude.FixedPoint.{fixed_point}
use trading_ai_alpha_agent.Risk.Engine.Tests.Data.{rupees, settings}
use trading_ai_alpha_agent.Intraday.Models.{MarketRegime, is_bearish}
use trading_ai_alpha_agent.Intraday.Tests.Data.{
  config, library, orchestrator, signal, scored_of, no_trades, approval,
}
use trading_ai_alpha_agent.Agentic.Config.{agentic_config_from_settings}
use trading_ai_alpha_agent.Agentic.Review.{no_subject, review}
use trading_ai_alpha_agent.Agentic.Agents.Research.{validate_backtest}
use trading_ai_alpha_agent.Agentic.Orchestrator.Outcome.{result_from_record}
use trading_ai_alpha_agent.Agentic.Orchestrator.Reviews.{
  reviewer_of, review_signal, review_risk, validate_strategy_change,
}
use trading_ai_alpha_agent.Agentic.FailClosed.{
  IsCautiousReviewer, reviewer_of-IsCautiousReviewer, result_from_record-review,
}
use trading_ai_alpha_agent.Agentic.Vetoes.{ReadsBack, validate_strategy_change_refuses}
use trading_ai_alpha_agent.Agentic.Vetoes.Against.{IsAgainst, review_signal_against_regime}
use trading_ai_alpha_agent.Agentic.Vetoes.Late.{IsBlocking, reviewer_of-IsBlocking}
use trading_ai_alpha_agent.Agentic.Vetoes.Audited.{IsAudited, review_risk-IsAudited}

library-ReadsBack : ReadsBack library
library-ReadsBack E o p h = sym (ok-injective h)

reviewer_of-IsCautiousReviewer_example : IsCautiousReviewer (reviewer_of orchestrator)
reviewer_of-IsCautiousReviewer_example = reviewer_of-IsCautiousReviewer orchestrator

-- reviews that take nine seconds, where they may take one and a half
reviewer_of-IsBlocking_example : IsBlocking (reviewer_of orchestrator) (rupees 9_000)
unfolding agentic_config_from_settings ◌*ℤ◌
reviewer_of-IsBlocking_example = reviewer_of-IsBlocking orchestrator (rupees 9_000) refl refl

result_from_record-review_example :
    (result_from_record
      (review library
        (agentic_config_from_settings settings)
        "BacktestValidationAgent"
        no_subject
        (rupees 9_000)
        (ok validate_backtest)).1).block
    ≡ true
unfolding review agentic_config_from_settings ◌*ℤ◌
result_from_record-review_example =
    result_from_record-review library (agentic_config_from_settings settings)
      "BacktestValidationAgent" no_subject (rupees 9_000) (ok validate_backtest) refl

review_signal_against_regime_example :
    (review_signal orchestrator
      (rupees 10)
      (scored_of (record signal { regime_at_signal = MarketRegime.weak_bearish }))
      no_trades).block
    ≡ true
unfolding agentic_config_from_settings is_bearish
review_signal_against_regime_example =
    review_signal_against_regime orchestrator (rupees 10)
      (scored_of (record signal { regime_at_signal = MarketRegime.weak_bearish })) no_trades
      library-ReadsBack refl (IsAgainst.long_falling refl refl)

review_risk-IsAudited_example : IsAudited (scored_of signal) approval no_trades config
unfolding agentic_config_from_settings review_risk ◌*ℤ◌ decision_holds is_medium ◌-ℤ◌
    shadow_config_from_settings
review_risk-IsAudited_example =
    review_risk-IsAudited orchestrator (rupees 10) (scored_of signal) approval no_trades config
      library-ReadsBack refl refl

validate_strategy_change_refuses_example :
    (validate_strategy_change orchestrator (rupees 10)).block ≡ true
validate_strategy_change_refuses_example =
    validate_strategy_change_refuses orchestrator (rupees 10) library-ReadsBack
