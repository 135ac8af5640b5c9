-- ===== src/Agentic/Agents/Research.antt =====
-- `PostTradeReviewAgent`, `BacktestValidationAgent`, `DriftDetectionAgent` and `StrategyImprovementAgent`:
-- reviews of what has been traded and of changes to a strategy.
use trading_ai_alpha_agent.Prelude.{
  String, Bool, true, false, not, ◌&&◌, List, [], ◌∷◌, count_if, ltb, if◌then◌else◌,
}
use trading_ai_alpha_agent.Prelude.Int.{pos}
use trading_ai_alpha_agent.Prelude.Float.{Float, ◌<?◌, of_ℕ, decimal}
use trading_ai_alpha_agent.Intraday.Quality.{none_of, take}
use trading_ai_alpha_agent.Intraday.Strategies.{newest}
use trading_ai_alpha_agent.Agentic.Models.{
  AgentSeverity, AgentVerdict, AgentRecommendation, AgentOutput,
}

pub data TradeQuality : Type 0 where
  good_trade_good_outcome good_trade_bad_outcome : TradeQuality
  bad_trade_good_outcome bad_trade_bad_outcome : TradeQuality

-- the fields of `PostTradeReviewInput` that the agent reads
pub record PostTradeReviewInput (R : Type 0) : Type 0 where
  pub trade_id : String
  pub stop_loss : R
  pub net_pnl : R
  pub rules_followed : Bool

pub record PostTradeReviewOutput (R : Type 0) : Type 0 where
  pub agent_name : String
  pub trade_id : String
  pub trade_quality : TradeQuality
  pub mistakes : List String
  pub what_worked : List String
  pub what_failed : List String
  pub recommendations : List String
  pub should_affect_strategy : Bool
  pub requires_backtest : Bool
  pub confidence : R

pub record BacktestValidation : Type 0 where
  pub promotion_allowed : Bool
  pub required_tests : List String

pub record DriftDetection : Type 0 where
  pub drift_detected : Bool
  pub windows_checked : List String

pub record StrategyRecommendation : Type 0 where
  pub description : String
  pub expected_impact : String
  pub evidence : List String
  pub risk_level : AgentSeverity
  pub requires_backtest : Bool

abbrev pub trade_quality_of : Bool → Bool → TradeQuality
trade_quality_of true true = TradeQuality.good_trade_good_outcome
trade_quality_of true false = TradeQuality.good_trade_bad_outcome
trade_quality_of false true = TradeQuality.bad_trade_good_outcome
trade_quality_of false false = TradeQuality.bad_trade_bad_outcome

module _ {R : Type 0} ⦃f : Float R⦄ where
  abbrev post_trade_output : PostTradeReviewInput R → Bool → Bool → PostTradeReviewOutput R
  post_trade_output i good_process profitable = record {
    agent_name = "PostTradeReviewAgent";
    trade_id = i.trade_id;
    trade_quality = trade_quality_of good_process profitable;
    mistakes = if good_process then [] else "rules_not_followed" ∷ [];
    what_worked = if good_process then "positive_process" ∷ [] else [];
    what_failed = if profitable then [] else "trade_lost_money_after_costs" ∷ [];
    recommendations = "review_in_backtest_before_strategy_change" ∷ [];
    should_affect_strategy = not good_process;
    requires_backtest = true;
    confidence = decimal (pos 75) 2;
  }

  -- `PostTradeReviewAgent._deterministic_review`
  unfoldable pub review_trade : PostTradeReviewInput R → PostTradeReviewOutput R
  review_trade i =
      post_trade_output i (i.rules_followed && (of_ℕ 0 <? i.stop_loss)) (of_ℕ 0 <? i.net_pnl)

  -- `BacktestValidationAgent._deterministic_review`, which reads nothing of its payload
  unfoldable pub validate_backtest : AgentOutput R BacktestValidation
  validate_backtest = record {
    agent_name = "BacktestValidationAgent";
    verdict = AgentVerdict.reject;
    severity = AgentSeverity.high;
    confidence = decimal (pos 95) 2;
    reason_codes = "backtest_not_run" ∷ "walk_forward_not_run" ∷ "cost_sensitivity_not_run" ∷ [];
    recommended_action = AgentRecommendation.require_backtest;
    details = record {
      promotion_allowed = false;
      required_tests =
          "historical_backtest" ∷ "out_of_sample_test" ∷ "walk_forward_test" ∷ "cost_adjusted_test"
          ∷ "slippage_sensitivity" ∷ [];
    };
  }

  abbrev drift_output : Bool → Bool → AgentOutput R DriftDetection
  drift_output drift no_rows = record {
    agent_name = "DriftDetectionAgent";
    verdict = if drift then AgentVerdict.warn else AgentVerdict.approve;
    severity = if drift then AgentSeverity.medium else AgentSeverity.low;
    confidence = if no_rows then decimal (pos 25) 2 else decimal (pos 6) 1;
    reason_codes =
        if drift then "rolling_loss_cluster" ∷ [] else "insufficient_or_no_drift_detected" ∷ [];
    recommended_action =
        if drift
        then AgentRecommendation.disable_strategy_temporarily
        else AgentRecommendation.allow;
    details = record {
      drift_detected = drift;
      windows_checked =
          "last_20_trades" ∷ "last_50_trades" ∷ "last_100_trades" ∷ "last_5_sessions"
          ∷ "last_10_sessions" ∷ [];
    };
  }

  -- `DriftDetectionAgent._deterministic_review`, on the results under "net_pnl" of the rows under "trades"
  unfoldable pub detect_drift : List R → AgentOutput R DriftDetection
  detect_drift results =
      drift_output (ltb 12 (count_if (λ pnl. pnl <? of_ℕ 0) (take 20 (newest results))))
        (none_of results)

  -- `StrategyImprovementAgent._deterministic_review`, which reads nothing of its payload
  unfoldable pub improve_strategy : AgentOutput R (List StrategyRecommendation)
  improve_strategy = record {
    agent_name = "StrategyImprovementAgent";
    verdict = AgentVerdict.warn;
    severity = AgentSeverity.low;
    confidence = decimal (pos 7) 1;
    reason_codes = "strategy_changes_require_backtest" ∷ [];
    recommended_action = AgentRecommendation.require_backtest;
    details =
        record {
          description = "Keep collecting shadow samples before changing live strategy thresholds.";
          expected_impact = "reduces_overfitting_risk";
          evidence = "live_readiness_blocked" ∷ "insufficient_shadow_sessions" ∷ [];
          risk_level = AgentSeverity.low;
          requires_backtest = true;
        }
        ∷ [];
  }
