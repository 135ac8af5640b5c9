-- ===== src/Risk/Freshness.antt =====
-- app/risk/data_freshness.py: the checks of the data providers and of the exchange rate.
use Prim.Native.String.{◌++◌ as text_append}
use trading_ai_alpha_agent.Prelude.{
  String, ℕ, Bool, false, not, ◌||◌, List, [], ◌∷◌, ◌++◌, Option, none, some, raised, if◌then◌else◌,
}
use trading_ai_alpha_agent.Core.Enums.{Market, market_eq, is_us, is_missing_status}
use trading_ai_alpha_agent.Schemas.Status.{
  ProviderHealth, provider_is_healthy_for_live, FxRateStatus, is_fresh, is_known,
}

-- `expected_market is not None and provider.market != expected_market`
abbrev differs : Market → Option Market → Bool
differs m none = false
differs m (some expected) = not (market_eq m expected)

-- the body of the loop, for one provider
abbrev pub provider_checks : Option Market → ProviderHealth → List (Bool × String)
provider_checks expected p =
    (differs p.market expected, text_append "provider_market_mismatch:" p.provider_name)
    ∷ (not (provider_is_healthy_for_live p), text_append "provider_unhealthy:" p.provider_name)
    ∷ []

abbrev pub each_provider : Option Market → List ProviderHealth → List String
each_provider expected [] = []
each_provider expected (p ∷ ps) = raised (provider_checks expected p) ++ each_provider expected ps

unfoldable pub provider_freshness_reasons : List ProviderHealth → Option Market → List String
provider_freshness_reasons [] expected = "market_data_provider_missing" ∷ []
provider_freshness_reasons (p ∷ ps) expected = each_provider expected (p ∷ ps)

unfoldable pub fx_rejection_reason :
    {R : Type 0} → ℕ → Market → Option (FxRateStatus R) → Option String
fx_rejection_reason now m none = if is_us m then some "usd_inr_fx_missing" else none
fx_rejection_reason now m (some s) =
    if not (is_us m)
    then none
    else if is_missing_status s.freshness_status || not (is_known s.rate)
    then some "usd_inr_fx_missing"
    else if not (is_fresh now s)
    then some "usd_inr_fx_stale"
    else none
