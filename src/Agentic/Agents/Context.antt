-- ===== src/Agentic/Agents/Context.antt =====
-- `MarketContextAgent`, `RegimeReviewAgent` and `ComplianceSafetyAgent`: reviews of the market and of the
-- settings, before any signal.
use trading_ai_alpha_agent.Prelude.{
  String, Bool, true, false, not, ◌&&◌, List, [], ◌∷◌, ◌++◌, Option, none, some, raised,
  if◌then◌else◌,
}
use trading_ai_alpha_agent.Prelude.Int.{pos}
use trading_ai_alpha_agent.Prelude.Text.{eqb}
use trading_ai_alpha_agent.Prelude.Float.{Float, ◌<?◌, ◌≤?◌, of_ℕ, decimal}
use trading_ai_alpha_agent.Core.Enums.{TradingMode, mode_value}
use trading_ai_alpha_agent.Intraday.Quality.{none_of}
use trading_ai_alpha_agent.Intraday.Regime.{truthy}
use trading_ai_alpha_agent.Intraday.Scoring.{holds_text}
use trading_ai_alpha_agent.Agentic.Models.{
  AgentSeverity, AgentVerdict, AgentRecommendation, AgentOutput,
}

-- `reasons or [default]`
abbrev pub reasons_or : String → List String → List String
reasons_or default [] = default ∷ []
reasons_or default (r ∷ rs) = r ∷ rs

pub data MarketBias : Type 0 where
  bullish bearish neutral uncertain : MarketBias

pub data VolatilityState : Type 0 where
  low normal high panic : VolatilityState

pub data TradeBias : Type 0 where
  long_only short_only both_allowed no_trade : TradeBias

-- the fields of `MarketContextInput` that the agent reads
pub record MarketContextInput (R : Type 0) : Type 0 where
  pub india_vix : Option R
  pub breadth : Option R

pub record MarketContext (R : Type 0) : Type 0 where
  pub market_bias : MarketBias
  pub volatility_state : VolatilityState
  pub recommended_trade_bias : TradeBias
  pub risk_multiplier_suggestion : R
  pub key_warnings : List String

-- the fields of `RegimeReviewInput` that the agent reads, the prices as `_float` reads them
pub record RegimeReviewInput (R : Type 0) : Type 0 where
  pub deterministic_regime : String
  pub last_price : Option R
  pub vwap : Option R

pub record RegimeReview : Type 0 where
  pub agrees_with_regime : Bool
  pub suggested_regime : String

-- the payload that `pre_market_review` gives to the compliance agent
pub record SafetyPosture : Type 0 where
  pub trading_mode : TradingMode
  pub live_trading_enabled : Bool
  pub live_orders_enabled : Bool
  pub kill_switch : Bool

pub record ComplianceSafety : Type 0 where
  pub safety_violations : List String

abbrev is_panic : VolatilityState → Bool
is_panic VolatilityState.panic = true
is_panic _ = false

abbrev pub safety_checks : SafetyPosture → List (Bool × String)
safety_checks p =
    (p.live_orders_enabled, "live_orders_not_disabled")
    ∷ (p.live_trading_enabled, "live_trading_not_disabled")
    ∷ (not p.kill_switch, "kill_switch_not_enabled")
    ∷ (
      not (eqb (mode_value p.trading_mode) "SHADOW_LIVE")
          && not (eqb (mode_value p.trading_mode) "SHADOW_LIVE_REAL_DATA"),
      "unexpected_trading_mode",
    )
    ∷ []

module _ {R : Type 0} ⦃f : Float R⦄ where
  abbrev bias_of : Option R → MarketBias × List String
  bias_of none = (MarketBias.uncertain, [])
  bias_of (some breadth) =
      if decimal (pos 6) 1 ≤? breadth
      then (MarketBias.bullish, "positive_breadth" ∷ [])
      else if breadth ≤? decimal (pos 4) 1
      then (MarketBias.bearish, "negative_breadth" ∷ [])
      else (MarketBias.uncertain, [])

  abbrev volatility_of : Option R → VolatilityState × List String
  volatility_of none = (VolatilityState.normal, [])
  volatility_of (some vix) =
      if of_ℕ 22 ≤? vix
      then (VolatilityState.panic, "india_vix_panic" ∷ [])
      else if of_ℕ 17 ≤? vix
      then (VolatilityState.high, "india_vix_high" ∷ [])
      else (VolatilityState.normal, [])

  abbrev context_output :
      MarketBias → VolatilityState → List String → AgentOutput R (MarketContext R)
  context_output bias volatility reasons =
      let panics = is_panic volatility in
      record {
        agent_name = "MarketContextAgent";
        verdict = if none_of reasons then AgentVerdict.insufficient_data else AgentVerdict.warn;
        severity = if panics then AgentSeverity.high else AgentSeverity.low;
        confidence = if none_of reasons then decimal (pos 25) 2 else decimal (pos 65) 2;
        reason_codes = reasons_or "insufficient_market_context" reasons;
        recommended_action =
            if panics then AgentRecommendation.block else AgentRecommendation.allow;
        details = record {
          market_bias = bias;
          volatility_state = volatility;
          recommended_trade_bias = if panics then TradeBias.no_trade else TradeBias.both_allowed;
          risk_multiplier_suggestion = if panics then of_ℕ 0 else of_ℕ 1;
          key_warnings = reasons;
        };
      }

  -- `MarketContextAgent._deterministic_review`
  unfoldable pub review_context : MarketContextInput R → AgentOutput R (MarketContext R)
  review_context i =
      let (bias, of_breadth) = bias_of i.breadth in
      let (volatility, of_vix) = volatility_of i.india_vix in
      context_output bias volatility (of_breadth ++ of_vix)

  abbrev vwap_reasons : String → Option R → Option R → List String
  vwap_reasons regime (some price) (some vwap) = raised (
      (
        (vwap <? price) && holds_text "BEARISH" regime,
        "price_above_vwap_disagrees_with_bearish_regime",
      )
      ∷ (
        (price <? vwap) && holds_text "BULLISH" regime,
        "price_below_vwap_disagrees_with_bullish_regime",
      )
      ∷ [])
  vwap_reasons regime (some price) none = []
  vwap_reasons regime none vwap = []

  abbrev both_there : Option R → Option R → Bool
  both_there (some price) (some vwap) = true
  both_there (some price) none = false
  both_there none vwap = false

  abbrev regime_output : RegimeReviewInput R → List String → AgentOutput R RegimeReview
  regime_output i reasons =
      let agrees = none_of reasons in
      record {
        agent_name = "RegimeReviewAgent";
        verdict = if agrees then AgentVerdict.approve else AgentVerdict.warn;
        severity = if agrees then AgentSeverity.low else AgentSeverity.medium;
        confidence =
            if both_there (truthy i.last_price) (truthy i.vwap)
            then decimal (pos 7) 1
            else decimal (pos 3) 1;
        reason_codes = reasons_or "regime_review_clear" reasons;
        recommended_action =
            if agrees then AgentRecommendation.allow else AgentRecommendation.reduce_confidence;
        details = record {
          agrees_with_regime = agrees;
          suggested_regime = if agrees then i.deterministic_regime else "SIDEWAYS";
        };
      }

  -- `RegimeReviewAgent._deterministic_review`
  unfoldable pub review_of_regime : RegimeReviewInput R → AgentOutput R RegimeReview
  unfolding holds_text
  review_of_regime i =
      regime_output i (vwap_reasons i.deterministic_regime (truthy i.last_price) (truthy i.vwap))

  abbrev safety_output : List String → AgentOutput R ComplianceSafety
  safety_output violations =
      let safe = none_of violations in
      record {
        agent_name = "ComplianceSafetyAgent";
        verdict = if safe then AgentVerdict.approve else AgentVerdict.reject;
        severity = if safe then AgentSeverity.low else AgentSeverity.high;
        confidence = decimal (pos 95) 2;
        reason_codes = reasons_or "shadow_safety_posture_confirmed" violations;
        recommended_action = if safe then AgentRecommendation.allow else AgentRecommendation.block;
        details = record { safety_violations = violations };
      }

  -- `ComplianceSafetyAgent._deterministic_review`
  unfoldable pub review_safety : SafetyPosture → AgentOutput R ComplianceSafety
  unfolding mode_value
  review_safety p = safety_output (raised (safety_checks p))
