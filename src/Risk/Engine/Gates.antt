-- ===== src/Risk/Engine/Gates.antt =====
-- What holds of a state in which no block of `evaluate` finds a reason to reject. Each record is
-- stated on the inputs, without the functions that collect the reasons.
use trading_ai_alpha_agent.Prelude.{
  ℕ, true, false, not, ◌&&◌, ◌||◌, List, [], ◌∷◌, Option, none, some, raised, raised-eq-nil,
  append-eq-nil, to_list-eq-nil, All, to_list, ◌≡◌, ◌≢◌, ◌⊎◌, inl, inr, refl, arith, Bool-cases,
}
use trading_ai_alpha_agent.Prelude.Float.{Float, ◌=?◌}
use trading_ai_alpha_agent.Core.Enums.{
  Market, market_eq, is_india, is_us, TradeAction, is_buy, is_sell,
}
use trading_ai_alpha_agent.Core.Config.{IsGuarded, IsGuarded_of_empty}
use trading_ai_alpha_agent.Schemas.Status.{
  BrokerHealth, broker_is_healthy_for_live, ProviderHealth, provider_is_healthy_for_live,
  FxRateStatus, is_fresh, is_known, MarketCalendarStatus, is_open, ComplianceStatus, approved,
}
use trading_ai_alpha_agent.Schemas.Trading.{TradeCandidate}
use trading_ai_alpha_agent.Risk.Freshness.{
  provider_freshness_reasons, each_provider, provider_checks, fx_rejection_reason,
}
use trading_ai_alpha_agent.Risk.Limits.{stop_loss_rejection_reason, equals_entry, is_missing}
use trading_ai_alpha_agent.Risk.Engine.Inputs.{Inputs, state_of, providers_of}
use trading_ai_alpha_agent.Risk.Engine.Reasons.{
  is_live, switch_checks, live_reasons, compliance_reasons, india_reasons, broker_checks,
  broker_reasons, calendar_reasons, state_reasons,
}

market_eq→≡ : (m n : Market) → not (market_eq m n) ≡ false → m ≡ n
unfolding market_eq
market_eq→≡ m n h = ground arith

module _ {R : Type 0} (i : Inputs R) where
  abbrev pub LiveGuarded : Type 0
  LiveGuarded =
      (is_live i ≡ false) ⊎ (((state_of i).live_trading_enabled ≡ true) × IsGuarded i.settings)

  abbrev pub IndiaCompliant : Type 0
  IndiaCompliant =
      ((is_india i.candidate.market && is_live i) ≡ false)
      ⊎ ((c : ComplianceStatus) × (i.compliance_status ≡ some c)
          × (c.market ≡ i.candidate.market)
          × (approved c ≡ true))

  abbrev pub BrokerReady : Type 0
  BrokerReady =
      (b : BrokerHealth R) × (i.broker_health ≡ some b)
      × (b.market ≡ i.candidate.market)
      × (broker_is_healthy_for_live b ≡ true)

  abbrev pub ProvidersReady : Type 0
  ProvidersReady =
      (providers_of i.provider_health ≢ [])
      × All (λ p. (p.market ≡ i.candidate.market) × (provider_is_healthy_for_live p ≡ true))
          (providers_of i.provider_health)

  abbrev pub MarketOpen : Type 0
  MarketOpen =
      (c : MarketCalendarStatus) × (i.market_calendar ≡ some c)
      × (c.market ≡ i.candidate.market)
      × (is_open c ≡ true)

  abbrev pub RateFresh : Type 0
  RateFresh =
      (i.candidate.market ≡ Market.india)
      ⊎ ((s : FxRateStatus R) × (i.fx_status ≡ some s)
          × (is_known s.rate ≡ true)
          × (is_fresh i.now s ≡ true))

  live_guarded :
      raised (switch_checks i) ≡ []
      → live_reasons i ≡ []
      → ((state_of i).kill_switch ≡ false) × LiveGuarded
  unfolding live_reasons
  live_guarded h k =
      let (off, enabled) = raised-eq-nil (switch_checks i) h in
      (
        off,
        elim (Bool-cases (is_live i)) [
          | inr shadow ↦ inl shadow
          | inl live ↦
              let (required, blocked) = append-eq-nil _ _ (rw live at k) in
              inr (ground arith, IsGuarded_of_empty i.settings required blocked)
        ],
      )

  india_reasons_ok :
      (o : Option ComplianceStatus)
      → india_reasons i o ≡ []
      → (c : ComplianceStatus) × (o ≡ some c)
        × (c.market ≡ i.candidate.market)
        × (approved c ≡ true)
  india_reasons_ok none h = cc
  india_reasons_ok (some c) h =
      (c, refl, market_eq→≡ c.market i.candidate.market (ground arith), ground arith)

  india_compliant : compliance_reasons i ≡ [] → IndiaCompliant
  unfolding compliance_reasons
  india_compliant h = elim (Bool-cases (is_india i.candidate.market && is_live i)) [
    | inr other ↦ inl other
    | inl india ↦ inr (india_reasons_ok i.compliance_status (rw india at h))
  ]

  broker_ready :
      (o : Option (BrokerHealth R))
      → broker_reasons i o ≡ []
      → (b : BrokerHealth R) × (o ≡ some b)
        × (b.market ≡ i.candidate.market)
        × (broker_is_healthy_for_live b ≡ true)
  unfolding broker_is_healthy_for_live
  broker_ready none h = cc
  broker_ready (some b) h =
      let checked = raised-eq-nil (broker_checks i b) h in
      (b, refl, market_eq→≡ b.market i.candidate.market checked.0, ground arith)

  market_open :
      (o : Option MarketCalendarStatus)
      → calendar_reasons i o ≡ []
      → (c : MarketCalendarStatus) × (o ≡ some c)
        × (c.market ≡ i.candidate.market)
        × (is_open c ≡ true)
  market_open none h = cc
  market_open (some c) h =
      (c, refl, market_eq→≡ c.market i.candidate.market (ground arith), ground arith)

rate_fresh :
    {R : Type 0} (now : ℕ) (m : Market) (o : Option (FxRateStatus R))
    → to_list (fx_rejection_reason now m o) ≡ []
    → (m ≡ Market.india)
      ⊎ ((s : FxRateStatus R) × (o ≡ some s) × (is_known s.rate ≡ true) × (is_fresh now s ≡ true))
unfolding fx_rejection_reason is_us
rate_fresh now Market.india o h = inl refl
rate_fresh now Market.us none h = cc
rate_fresh now Market.us (some s) h = inr (s, refl, ground arith, ground arith)

each_provider-All :
    (m : Market) (ps : List ProviderHealth)
    → each_provider (some m) ps ≡ []
    → All (λ p. (p.market ≡ m) × (provider_is_healthy_for_live p ≡ true)) ps
each_provider-All m [] h = tt
each_provider-All m (p ∷ ps) h =
    let (first, rest) = append-eq-nil _ _ h in
    let checked = raised-eq-nil (provider_checks (some m) p) first in
    ((market_eq→≡ p.market m checked.0, ground arith), each_provider-All m ps rest)

providers_ready :
    (m : Market) (ps : List ProviderHealth)
    → provider_freshness_reasons ps (some m) ≡ []
    → (ps ≢ []) × All (λ p. (p.market ≡ m) × (provider_is_healthy_for_live p ≡ true)) ps
unfolding provider_freshness_reasons
providers_ready m [] h = cc
providers_ready m (p ∷ ps) h = (ground arith, each_provider-All m (p ∷ ps) h)

module _ {R : Type 0} ⦃f : Float R⦄ where
  abbrev pub StopSet : TradeCandidate R → Type 0
  StopSet c = (stop : R) × (c.stop_loss ≡ some stop) × ((stop =? c.entry_price) ≡ false)

  stop_set_of :
      (action : TradeAction) (stop : Option R) (entry : R)
      → (is_buy action || is_sell action) ≡ true
      → ((is_buy action || is_sell action) && is_missing stop) ≡ false
      → equals_entry stop entry ≡ false
      → (s : R) × (stop ≡ some s) × ((s =? entry) ≡ false)
  stop_set_of action none entry t h k = ground arith
  stop_set_of action (some s) entry t h k = (s, refl, k)

  -- A trade that is asked for, not held back and not refused for its stop loss, has one.
  stop_set :
      (c : TradeCandidate R)
      → (is_buy c.action || is_sell c.action) ≡ true
      → to_list (stop_loss_rejection_reason c) ≡ []
      → StopSet c
  unfolding stop_loss_rejection_reason
  stop_set c t h = stop_set_of c.action c.stop_loss c.entry_price t (ground arith) (ground arith)

  -- Every gate in front of the sizing is open.
  pub record IsCleared (i : Inputs R) : Type 0 where
    pub switch_off : (state_of i).kill_switch ≡ false
    pub live : LiveGuarded i
    pub india : IndiaCompliant i
    pub broker : BrokerReady i
    pub providers : ProvidersReady i
    pub market : MarketOpen i
    pub rate : RateFresh i
    pub stop : StopSet i.candidate

  pub state_reasons-IsCleared :
      (i : Inputs R)
      → (is_buy i.candidate.action || is_sell i.candidate.action) ≡ true
      → state_reasons i ≡ []
      → IsCleared i × (stop_loss_rejection_reason i.candidate ≡ none)
  unfolding state_reasons
  state_reasons-IsCleared i t h0 =
      let (switch, h1) = append-eq-nil _ _ h0 in
      let (live, h2) = append-eq-nil _ _ h1 in
      let (india, h3) = append-eq-nil _ _ h2 in
      let (broker, h4) = append-eq-nil _ _ h3 in
      let (providers, h5) = append-eq-nil _ _ h4 in
      let (calendar, h6) = append-eq-nil _ _ h5 in
      let (rate, stop) = append-eq-nil _ _ h6 in
      let guarded = live_guarded i switch live in
      (
        record {
          switch_off = guarded.0;
          live = guarded.1;
          india = india_compliant i india;
          broker = broker_ready i i.broker_health broker;
          providers = providers_ready i.candidate.market (providers_of i.provider_health) providers;
          market = market_open i i.market_calendar calendar;
          rate = rate_fresh i.now i.candidate.market i.fx_status rate;
          stop = stop_set i.candidate t stop;
        },
        to_list-eq-nil _ stop,
      )
