-- ===== src/Schemas/Status.antt =====
-- app/schemas/{broker,provider,fx}.py and the status records of schemas/risk.py.
-- A time is a count of microseconds since a fixed origin.
use Prim.Native.Nat.{◌+◌, ◌*◌}
use trading_ai_alpha_agent.Prelude.{
  String, ℕ, Bool, true, false, not, ◌&&◌, List, Option, none, some, leb, if◌then◌else◌,
}
use trading_ai_alpha_agent.Prelude.Text.{is_empty}
use trading_ai_alpha_agent.Core.Enums.{
  Market, AuthStatus, AccountStatus, ProviderType, ProviderStatus, FreshnessStatus,
  MarketCalendarState, ComplianceApprovalStatus, is_valid, is_active, is_ok, is_fresh_status,
  is_open_state, is_approved_status,
}

pub record BrokerHealth (R : Type 0) : Type 0 where
  pub broker_name : String
  pub market : Market
  pub auth_status : AuthStatus
  pub account_status : AccountStatus
  pub trading_enabled : Bool
  pub buying_power : R
  pub cash : R
  pub positions_reconciled : Bool
  pub last_checked_at : ℕ
  pub rejection_reasons : List String

-- `BrokerHealth.is_healthy_for_live`
unfoldable pub broker_is_healthy_for_live : {R : Type 0} → BrokerHealth R → Bool
unfolding is_valid is_active
broker_is_healthy_for_live b =
    is_valid b.auth_status
    && (is_active b.account_status && (b.trading_enabled && b.positions_reconciled))

pub record ProviderHealth : Type 0 where
  pub provider_name : String
  pub provider_type : ProviderType
  pub market : Market
  pub status : ProviderStatus
  pub last_success_at : Option ℕ
  pub last_error : String
  pub freshness_status : FreshnessStatus

-- `ProviderHealth.is_healthy_for_live`
unfoldable pub provider_is_healthy_for_live : ProviderHealth → Bool
unfolding is_ok is_fresh_status
provider_is_healthy_for_live p = is_ok p.status && is_fresh_status p.freshness_status

pub record FxRateStatus (R : Type 0) : Type 0 where
  pub base_currency : String
  pub quote_currency : String
  pub rate : Option R
  pub freshness_status : FreshnessStatus
  pub last_success_at : Option ℕ
  pub source : String
  pub stale_after_minutes : ℕ

-- `age_seconds <= stale_after_minutes * 60`, at the time `now` that `utc_now` gives
abbrev pub is_young : ℕ → Option ℕ → ℕ → Bool
is_young now none minutes = false
is_young now (some last) minutes = leb now (last + minutes * 60_000_000)

abbrev pub is_known : {R : Type 0} → Option R → Bool
is_known none = false
is_known (some r) = true

-- `FxRateStatus.is_fresh`
unfoldable pub is_fresh : {R : Type 0} → ℕ → FxRateStatus R → Bool
unfolding is_fresh_status
is_fresh now s =
    if not (is_fresh_status s.freshness_status)
    then false
    else is_known s.rate && is_young now s.last_success_at s.stale_after_minutes

pub record MarketCalendarStatus : Type 0 where
  pub market : Market
  pub state : MarketCalendarState
  pub reason : String

-- `MarketCalendarStatus.is_open`
unfoldable pub is_open : MarketCalendarStatus → Bool
unfolding is_open_state
is_open c = is_open_state c.state

pub record ComplianceStatus : Type 0 where
  pub market : Market
  pub broker : String
  pub algo_compliance_required : Bool
  pub algo_id : String
  pub strategy_registration_status : ComplianceApprovalStatus
  pub broker_approval_status : ComplianceApprovalStatus
  pub exchange_algo_identifier : String
  pub order_tag : String
  pub unique_order_identifier : String
  pub can_place_live_orders : Bool
  pub rejection_reasons : List String

-- `ComplianceStatus.approved`
unfoldable pub approved : ComplianceStatus → Bool
unfolding is_approved_status
approved c =
    if not c.algo_compliance_required
    then c.can_place_live_orders
    else is_approved_status c.strategy_registration_status
      && (is_approved_status c.broker_approval_status
          && (not (is_empty c.exchange_algo_identifier) && c.can_place_live_orders))
