-- ===== src/Intraday/Approved.antt =====
-- What an approval of the risk manager guarantees, and what its refusal is.
use Prim.Native.String.{◌++◌ as text_append}
use trading_ai_alpha_agent.Prelude.{
  String, Bool, true, false, not, ◌&&◌, List, [], ◌∷◌, raised, raised-eq-nil, append-eq-nil, ◌≡◌,
  refl, ap, sym, subst, ◌∙◌, arith, ◌<◌,
}
use trading_ai_alpha_agent.Prelude.Int.{ℤ, pos, ◌≤ℤ◌, leb_ℤ}
use trading_ai_alpha_agent.Prelude.Dedupe.{from_keys, from_keys-eq-nil}
use trading_ai_alpha_agent.Prelude.Result.{ok, >>=-eq-ok, ok-injective}
use trading_ai_alpha_agent.Prelude.Float.{Float, ◌*◌, ◌<?◌, ◌≤?◌, of_ℕ, of_ℤ}
use trading_ai_alpha_agent.Intraday.Config.{IntradayShadowConfig}
use trading_ai_alpha_agent.Intraday.Models.{
  is_short, is_sideways, is_high_volatility, decision_value, decision_is_valid, RiskApproval,
}
use trading_ai_alpha_agent.Intraday.Quality.{too_wide}
use trading_ai_alpha_agent.Intraday.Universe.{quality_reasons_of}
use trading_ai_alpha_agent.Intraday.RiskManager.{
  RiskQuestion, loss_floor, stop_distance, open_count, regime_changed, signal_checks,
  account_checks, regime_checks, approval_reasons, quantity_by_risk, conclude_approval, approve,
}

not-false : (b : Bool) → not b ≡ false → b ≡ true
not-false true h = refl
not-false false h = cc

module _ {R : Type 0} ⦃f : Float R⦄ where
  -- The signal, its data and its size, on the inputs. A comparison that is false is stated as the
  -- code makes it, since a float may be NaN.
  pub record IsFit (config : IntradayShadowConfig R) (q : RiskQuestion R) (a : RiskApproval R)
      : Type 0 where
    pub decision : decision_is_valid q.scored.decision ≡ true
    pub good_data : quality_reasons_of q.data_quality ≡ []
    pub stop : (q.scored.signal.stop_loss ≤? of_ℕ 0) ≡ false
    pub distance : (stop_distance q.scored.signal ≤? of_ℕ 0) ≡ false
    pub reward : (q.scored.signal.risk_reward_ratio <? config.min_reward_to_risk) ≡ false
    pub spread : too_wide config q.scored.signal.market_snapshot.spread_pct ≡ false
    pub sized : quantity_by_risk config q.scored.signal ≡ ok a.quantity
    pub quantity : pos 1 ≤ℤ a.quantity
    pub risk : a.risk_amount ≡ of_ℤ a.quantity * stop_distance q.scored.signal

  -- The limits of the account and of the regime, on the inputs.
  pub record IsWithinAccount (config : IntradayShadowConfig R) (q : RiskQuestion R) : Type 0 where
    pub daily :
        (q.state.daily_realized_pnl ≤? loss_floor config config.max_daily_loss_percent) ≡ false
    pub weekly :
        (q.state.weekly_realized_pnl ≤? loss_floor config config.max_weekly_loss_percent) ≡ false
    pub trades : leb_ℤ (pos config.max_trades_per_day) q.state.trades_today ≡ false
    pub losses : leb_ℤ (pos config.max_consecutive_losses) q.state.consecutive_losses ≡ false
    pub positions : open_count q.state < config.max_open_positions
    pub shorts : (is_short q.scored.signal.direction && not config.allow_shorts) ≡ false
    pub regime : regime_changed q.current_regime q.scored.signal.regime_at_signal ≡ false
    pub sideways :
        (is_sideways q.scored.signal.regime_at_signal && not config.allow_sideways_trades) ≡ false
    pub volatility :
        (is_high_volatility q.scored.signal.regime_at_signal
          && not config.allow_high_volatility_trades)
        ≡ false

  conclude_approval-eq-nil :
      (config : IntradayShadowConfig R) (q : RiskQuestion R) (n : ℤ) (reasons : List String)
      → (conclude_approval config q n reasons).approved ≡ true
      → reasons ≡ []
  conclude_approval-eq-nil config q n [] h = refl
  conclude_approval-eq-nil config q n (r ∷ rs) h = cc

  -- the quantity, and the absence of every reason
  record IsUnopposed (config : IntradayShadowConfig R) (q : RiskQuestion R) (a : RiskApproval R)
      : Type 0 where
    pub size : ℤ
    pub size_lem : quantity_by_risk config q.scored.signal ≡ ok size
    pub unopposed : approval_reasons config q size ≡ []
    pub concluded : conclude_approval config q size [] ≡ a

  approve-IsUnopposed :
      (config : IntradayShadowConfig R) (q : RiskQuestion R) (a : RiskApproval R)
      → approve config q ≡ ok a
      → a.approved ≡ true
      → IsUnopposed config q a
  unfolding approve
  approve-IsUnopposed config q a h k =
      let (n, e, h1) = >>=-eq-ok (quantity_by_risk config q.scored.signal) _ h in
      let reasons = from_keys [] (approval_reasons config q n) in
      let concluded : conclude_approval config q n reasons ≡ a = ok-injective h1 in
      let empty =
        conclude_approval-eq-nil config q n reasons (ap (λ b. b.approved) concluded ∙ k) in
      record {
        size = n;
        size_lem = e;
        unopposed = from_keys-eq-nil (approval_reasons config q n) empty;
        concluded = ap (conclude_approval config q n) (sym empty) ∙ concluded;
      }

  -- An approval is given only to a valid signal on good data, with a stop on its side, enough
  -- reward and a narrow spread, for the quantity that its risk allows, at least one share; and only
  -- within the limits of the account and of the regime.
  pub approve-IsFit :
      (config : IntradayShadowConfig R) (q : RiskQuestion R) (a : RiskApproval R)
      → approve config q ≡ ok a
      → a.approved ≡ true
      → IsFit config q a × IsWithinAccount config q
  approve-IsFit config q a h k =
      let u = approve-IsUnopposed config q a h k in
      let (valid, h1) = append-eq-nil _ _ u.unopposed in
      let (good, h2) = append-eq-nil (quality_reasons_of q.data_quality) _ h1 in
      let (signal, h3) = append-eq-nil (raised (signal_checks config q.scored.signal)) _ h2 in
      let (account, h4) = append-eq-nil (raised (account_checks config q.state)) _ h3 in
      let (regime, size) =
        append-eq-nil (raised (regime_checks config q.scored.signal q.current_regime)) _ h4 in
      let s = raised-eq-nil (signal_checks config q.scored.signal) signal in
      let t = raised-eq-nil (account_checks config q.state) account in
      let r = raised-eq-nil (regime_checks config q.scored.signal q.current_regime) regime in
      let refused =
        raised-eq-nil
          ((
            not (decision_is_valid q.scored.decision),
            text_append "signal_not_valid:" (decision_value q.scored.decision),
          )
            ∷ [])
          valid in
      let positive : leb_ℤ u.size (pos 0) ≡ false =
        (raised-eq-nil ((leb_ℤ u.size (pos 0), "quantity_zero") ∷ []) size).0 in
      (
        record {
          decision = not-false (decision_is_valid q.scored.decision) refused.0;
          good_data = good;
          stop = s.0;
          distance = s.1.0;
          reward = s.1.1.0;
          spread = s.1.1.1.0;
          sized = u.size_lem ∙ ap (λ b. ok b.quantity) u.concluded;
          quantity = subst (λ b. pos 1 ≤ℤ b.quantity) u.concluded (ground (arith, positive));
          risk =
              subst (λ b. b.risk_amount ≡ of_ℤ b.quantity * stop_distance q.scored.signal)
                u.concluded refl;
        },
        record {
          daily = t.0;
          weekly = t.1.0;
          trades = t.1.1.0;
          losses = t.1.1.1.0;
          positions = ground (arith, t.1.1.1.1.0);
          shorts = r.0;
          regime = r.1.0;
          sideways = r.1.1.0;
          volatility = r.1.1.1.0;
        },
      )
