-- ===== src/Intraday/Reviewer.antt =====
-- What the pipeline asks of its reviewer, `self.agentic`. Each question comes with the time, in
-- milliseconds, that the review of it takes.
use trading_ai_alpha_agent.Prelude.{Bool}
use trading_ai_alpha_agent.Intraday.Config.{IntradayShadowConfig}
use trading_ai_alpha_agent.Intraday.Models.{
  MarketDataSnapshot, RiskApproval, ScoredSignal, ShadowOrder,
}
use trading_ai_alpha_agent.Intraday.Regime.{RegimeResult}
use trading_ai_alpha_agent.Intraday.RiskManager.{ShadowRiskState}
use trading_ai_alpha_agent.Agentic.Models.{AgenticReviewResult}

pub record Reviewer (R : Type 0) : Type 0 where
  pub is_enabled : Bool
  pub on_regime : R → MarketDataSnapshot R → RegimeResult R → AgenticReviewResult R
  pub on_signal : R → ScoredSignal R → ShadowRiskState R → AgenticReviewResult R
  pub on_risk :
      R
      → ScoredSignal R
      → RiskApproval R
      → ShadowRiskState R
      → IntradayShadowConfig R
      → AgenticReviewResult R
  pub on_execution :
      R → ScoredSignal R → ShadowOrder R → MarketDataSnapshot R → AgenticReviewResult R
