-- ===== src/Intraday/Readiness.antt =====
-- app/intraday/readiness.py: whether the shadow results would allow live trading.
use trading_ai_alpha_agent.Prelude.{String, Bool, false, not, List, [], ◌∷◌, raised, if◌then◌else◌}
use trading_ai_alpha_agent.Prelude.Int.{ℤ, pos, ltb_ℤ, eqb_ℤ}
use trading_ai_alpha_agent.Prelude.Float.{Float, ◌<?◌, ◌≤?◌, of_ℕ}
use trading_ai_alpha_agent.Intraday.Config.{IntradayShadowConfig}
use trading_ai_alpha_agent.Intraday.Quality.{none_of}

-- the arguments of `evaluate`
pub record ReadinessQuestion (R : Type 0) : Type 0 where
  pub shadow_sessions : ℤ
  pub valid_trades : ℤ
  pub expectancy : R
  pub profit_factor : R
  pub max_drawdown_pct : R
  pub unresolved_execution_bugs : ℤ
  pub data_quality_issues : ℤ
  pub overfitting_warning : Bool
  pub manual_approval : Bool

-- the dictionary that `evaluate` returns
pub record ReadinessReport (R : Type 0) : Type 0 where
  pub live_readiness_status : String
  pub reasons : List String
  pub question : ReadinessQuestion R
  pub live_orders_enabled : Bool

module _ {R : Type 0} ⦃f : Float R⦄ where
  abbrev pub readiness_checks : IntradayShadowConfig R → ReadinessQuestion R → List (Bool × String)
  readiness_checks config q =
      (
        ltb_ℤ q.shadow_sessions (pos config.readiness_min_sessions),
        "minimum_30_shadow_sessions_not_met",
      )
      ∷ (
        ltb_ℤ q.valid_trades (pos config.readiness_min_trades),
        "minimum_100_valid_shadow_trades_not_met",
      )
      ∷ (q.expectancy ≤? of_ℕ 0, "net_expectancy_not_positive_after_costs")
      ∷ (q.profit_factor <? config.readiness_profit_factor, "profit_factor_below_threshold")
      ∷ (config.readiness_max_drawdown_pct <? q.max_drawdown_pct, "drawdown_above_threshold")
      ∷ (not (eqb_ℤ q.unresolved_execution_bugs (pos 0)), "unresolved_execution_simulation_bugs")
      ∷ (not (eqb_ℤ q.data_quality_issues (pos 0)), "unresolved_data_quality_issues")
      ∷ (q.overfitting_warning, "overfitting_warning_active")
      ∷ (not q.manual_approval, "manual_approval_missing")
      ∷ []

  -- `LiveReadinessEvaluator.evaluate`
  unfoldable pub evaluate_readiness :
      IntradayShadowConfig R → ReadinessQuestion R → ReadinessReport R
  evaluate_readiness config q =
      let reasons = raised (readiness_checks config q) in
      record {
        live_readiness_status = if none_of reasons then "ALLOWED" else "BLOCKED";
        reasons = reasons;
        question = q;
        live_orders_enabled = false;
      }
