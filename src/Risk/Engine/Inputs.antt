-- ===== src/Risk/Engine/Inputs.antt =====
-- The engine's settings and the arguments of `RiskEngine.evaluate`, with their defaults resolved.
-- `decision_id` is what `new_id` draws, and `now` what `utc_now` gives.
use trading_ai_alpha_agent.Prelude.{String, ℕ, Bool, true, List, [], ◌∷◌, Option, none, some}
use trading_ai_alpha_agent.Prelude.Text.{set_default}
use trading_ai_alpha_agent.Prelude.Float.{Float}
use trading_ai_alpha_agent.Core.Enums.{is_us}
use trading_ai_alpha_agent.Core.Config.{Settings}
use trading_ai_alpha_agent.Schemas.Status.{
  BrokerHealth, ProviderHealth, FxRateStatus, MarketCalendarStatus, ComplianceStatus,
}
use trading_ai_alpha_agent.Schemas.Trading.{TradeCandidate, PortfolioSnapshot}
use trading_ai_alpha_agent.Schemas.Risk.{RiskConfig, config_from_settings}
use trading_ai_alpha_agent.Risk.KillSwitch.{SystemStateSnapshot, state_from_settings}
use trading_ai_alpha_agent.Risk.Quality.{QuoteMetrics}

-- `ProviderHealth | list[ProviderHealth] | None`
pub data ProviderArgument : Type 0 where
  not_given : ProviderArgument
  one : ProviderHealth → ProviderArgument
  many : List ProviderHealth → ProviderArgument

abbrev pub providers_of : ProviderArgument → List ProviderHealth
providers_of ProviderArgument.not_given = []
providers_of (ProviderArgument.one p) = p ∷ []
providers_of (ProviderArgument.many ps) = ps

pub record Inputs (R : Type 0) : Type 0 where
  pub settings : Settings R
  pub candidate : TradeCandidate R
  pub portfolio : PortfolioSnapshot R
  pub broker_health : Option (BrokerHealth R)
  pub provider_health : ProviderArgument
  pub market_calendar : Option MarketCalendarStatus
  pub risk_config : Option (RiskConfig R)
  pub fx_status : Option (FxRateStatus R)
  pub compliance_status : Option ComplianceStatus
  pub system_state : Option SystemStateSnapshot
  pub signal_id : Option String
  pub quote_metrics : Option (QuoteMetrics R)
  pub decision_id : String
  pub now : ℕ

abbrev or_default {ℓ} : {A : Type ℓ} → Option A → A → A
or_default none d = d
or_default (some a) d = a

abbrev pub state_of : {R : Type 0} → Inputs R → SystemStateSnapshot
state_of i = or_default i.system_state (state_from_settings i.settings)

abbrev pub config_of : {R : Type 0} ⦃f : Float R⦄ → Inputs R → RiskConfig R
config_of i = or_default i.risk_config (config_from_settings i.settings)

abbrev with_rate : {R : Type 0} → Bool → Option (FxRateStatus R) → QuoteMetrics R → QuoteMetrics R
with_rate true (some s) quotes = set_default "fx_rate" s.rate quotes
with_rate _ _ quotes = quotes

-- `normalized_quote_metrics`
abbrev pub quotes_of : {R : Type 0} → Inputs R → Option (QuoteMetrics R)
quotes_of i = elim i.quote_metrics [
  | none ↦ none
  | some quotes ↦ some (with_rate (is_us i.candidate.market) i.fx_status quotes)
]
