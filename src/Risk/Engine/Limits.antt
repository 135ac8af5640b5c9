-- ===== src/Risk/Engine/Limits.antt =====
-- What an approval of `RiskEngine.evaluate` guarantees of the portfolio's limits.
use trading_ai_alpha_agent.Prelude.Result.{ok-injective}
use trading_ai_alpha_agent.Prelude.{
  Bool, true, false, ◌&&◌, [], none, raised, raised-eq-nil, NoneRaised, append-eq-nil, to_list, ◌≡◌,
  ◌⊎◌, inl, inr, refl, ap, sym, ◌∙◌, arith, if◌then◌else◌, ◌<◌,
}
use trading_ai_alpha_agent.Prelude.Result.{ok, >>=-eq-ok}
use trading_ai_alpha_agent.Prelude.Float.{Float, ◌+◌, ◌*◌, ◌<?◌, ◌≤?◌, of_ℕ}
use trading_ai_alpha_agent.Core.Enums.{Market, RiskDecisionType, is_buy, is_us, is_india}
use trading_ai_alpha_agent.Schemas.Risk.{RiskDecision}
use trading_ai_alpha_agent.Risk.Limits.{
  reward_risk_rejection_reason, drawdown_reasons, drawdown_checks, loss_pct, exposure_reasons,
  exposure_checks, market_exposure, market_exposure_pct, long_only_rejection_reason,
}
use trading_ai_alpha_agent.Risk.Engine.Inputs.{Inputs, config_of}
use trading_ai_alpha_agent.Risk.Engine.Reasons.{quality_reasons, position_checks}
use trading_ai_alpha_agent.Risk.Engine.Sized.{Sized, size, sized_reasons}
use trading_ai_alpha_agent.Risk.Engine.Evaluate.{evaluate, final_checks}
use trading_ai_alpha_agent.Risk.Engine.Assessed.{evaluate-Approved}
use trading_ai_alpha_agent.Risk.Engine.Approval.{approval-IsCleared, size-IsSized}
use trading_ai_alpha_agent.Schemas.Risk.{RiskConfig}
use trading_ai_alpha_agent.Prelude.{ℕ, leb}
use trading_ai_alpha_agent.Schemas.Trading.{TradeCandidate}
use trading_ai_alpha_agent.Risk.Engine.Reasons.{require_quote_metrics}
use trading_ai_alpha_agent.Risk.Engine.Inputs.{quotes_of}
use trading_ai_alpha_agent.Risk.Quality.{liquidity_rejection_reason, slippage_rejection_reason}
use trading_ai_alpha_agent.Risk.Engine.Reasons.{open_total, open_in_market}

abbrev pub max_open_in_market : {R : Type 0} → Market → RiskConfig R → ℕ
max_open_in_market Market.india config = config.max_open_positions_india
max_open_in_market Market.us config = config.max_open_positions_us

cash_left :
    (buy : Bool) (spent : Bool) {A : Type 0}
    → (buy && spent) ≡ false
    → (buy ≡ false) ⊎ A
    → (buy ≡ false) ⊎ (A × (spent ≡ false))
cash_left false spent h k = inl refl
cash_left true spent h (inl e) = cc
cash_left true spent h (inr a) = inr (a, h)

module _ {R : Type 0} ⦃f : Float R⦄ where
  -- The limits on losses, exposures and positions, for an order of the given value. A comparison
  -- that is false is stated as the code makes it, since a float may be NaN.
  pub record IsWithinLimits (i : Inputs R) (value : R) : Type 0 where
    pub daily : R
    pub weekly : R
    pub daily_lem : loss_pct i.portfolio.daily_pnl_inr i.portfolio ≡ ok daily
    pub weekly_lem : loss_pct i.portfolio.weekly_pnl_inr i.portfolio ≡ ok weekly
    pub daily_loss : ((config_of i).max_daily_loss_pct <? daily) ≡ false
    pub weekly_loss : ((config_of i).max_weekly_loss_pct <? weekly) ≡ false
    pub monthly_drawdown :
        ((config_of i).max_monthly_drawdown_pct <? i.portfolio.monthly_drawdown_pct) ≡ false
    pub total_drawdown :
        ((config_of i).max_total_drawdown_pct <? i.portfolio.total_drawdown_pct) ≡ false
    pub equity :
        (i.portfolio.total_value_inr * (config_of i).max_total_equity_exposure_pct
          <? i.portfolio.equity_exposure_inr + value)
        ≡ false
    pub market :
        (i.portfolio.total_value_inr * market_exposure_pct i.candidate.market (config_of i)
          <? market_exposure i.candidate.market i.portfolio + value)
        ≡ false
    pub reward : (i.candidate.reward_risk_ratio <? (config_of i).min_reward_risk_ratio) ≡ false
    pub entry :
        (is_buy i.candidate.action ≡ false)
        ⊎ (((open_total i < (config_of i).max_open_positions_total)
              × (open_in_market i < max_open_in_market i.candidate.market (config_of i)))
            × ((i.portfolio.cash_inr ≤? of_ℕ 0) ≡ false))

  record DrawdownWithin (i : Inputs R) : Type 0 where
    pub daily : R
    pub weekly : R
    pub daily_lem : loss_pct i.portfolio.daily_pnl_inr i.portfolio ≡ ok daily
    pub weekly_lem : loss_pct i.portfolio.weekly_pnl_inr i.portfolio ≡ ok weekly
    pub checks : NoneRaised (drawdown_checks i.portfolio (config_of i) daily weekly)

  drawdown_within :
      (i : Inputs R) → drawdown_reasons i.portfolio (config_of i) ≡ ok [] → DrawdownWithin i
  unfolding drawdown_reasons
  drawdown_within i h =
      let (daily, e, h1) = >>=-eq-ok (loss_pct i.portfolio.daily_pnl_inr i.portfolio) _ h in
      let (weekly, e1, h2) = >>=-eq-ok (loss_pct i.portfolio.weekly_pnl_inr i.portfolio) _ h1 in
      record {
        daily = daily;
        weekly = weekly;
        daily_lem = e;
        weekly_lem = e1;
        checks =
            raised-eq-nil (drawdown_checks i.portfolio (config_of i) daily weekly)
              (ok-injective h2);
      }

  -- the three checks of the open positions, one by one
  entry_limits_of :
      (buy : Bool) (m : Market) (config : RiskConfig R) (total in_market : ℕ)
      → (buy && leb config.max_open_positions_total total) ≡ false
      → (buy && (is_india m && leb config.max_open_positions_india in_market)) ≡ false
      → (buy && (is_us m && leb config.max_open_positions_us in_market)) ≡ false
      → (buy ≡ false)
        ⊎ ((total < config.max_open_positions_total) × (in_market < max_open_in_market m config))
  unfolding is_india is_us
  entry_limits_of false m config total in_market h k l = inl refl
  entry_limits_of true Market.india config total in_market h k l = inr (ground arith, ground arith)
  entry_limits_of true Market.us config total in_market h k l = inr (ground arith, ground arith)

  sized_exposure :
      (i : Inputs R) (sized : Sized R)
      → sized.reasons ≡ sized_reasons i sized.quantity sized.capital
      → sized.reasons ≡ []
      → NoneRaised (
          exposure_checks i.candidate.market i.portfolio
            (config_of i)
            (if is_buy i.candidate.action then sized.capital else of_ℕ 0)
            none)
  unfolding exposure_reasons
  sized_exposure i sized e h =
      let value = if is_buy i.candidate.action then sized.capital else of_ℕ 0 in
      raised-eq-nil (exposure_checks i.candidate.market i.portfolio (config_of i) value none)
        (append-eq-nil
          (to_list (long_only_rejection_reason i.candidate sized.quantity i.portfolio.positions)) _
          (sym e ∙ h)).1

  reward_kept :
      (c : TradeCandidate R) (minimum : R)
      → to_list (reward_risk_rejection_reason c minimum) ≡ []
      → (c.reward_risk_ratio <? minimum) ≡ false
  unfolding reward_risk_rejection_reason
  reward_kept c minimum h = ground arith

  quality_limits :
      (i : Inputs R)
      → quality_reasons i ≡ []
      → ((i.candidate.reward_risk_ratio <? (config_of i).min_reward_risk_ratio) ≡ false)
        × (raised (position_checks i) ≡ [])
  unfolding quality_reasons
  quality_limits i h =
      let required = require_quote_metrics i in
      let h1 =
        (append-eq-nil
          (to_list (liquidity_rejection_reason i.candidate i.settings (quotes_of i) required)) _
          h).1 in
      let h2 =
        (append-eq-nil
          (to_list (slippage_rejection_reason i.candidate i.settings (quotes_of i) required)) _
          h1).1 in
      let h3 =
        append-eq-nil
          (to_list (reward_risk_rejection_reason i.candidate (config_of i).min_reward_risk_ratio)) _
          h2 in
      (reward_kept i.candidate (config_of i).min_reward_risk_ratio h3.0, h3.1)

  -- When the engine approves, the losses and drawdowns, the exposures after the order, the reward
  -- against the risk, the number of positions and the cash are within their limits, at the value of
  -- the order: the approved capital of a buy.
  pub approval-IsWithinLimits :
      (i : Inputs R) {d : RiskDecision R}
      → evaluate i ≡ ok d
      → d.decision ≡ RiskDecisionType.approved
      → IsWithinLimits i (if is_buy i.candidate.action then d.approved_capital else of_ℕ 0)
  approval-IsWithinLimits i h a =
      let w = evaluate-Approved i h a in
      let (stop, e, _) = (approval-IsCleared i h a).stop in
      let s =
        size-IsSized i stop {sized = w.assessed.sized}
          (rw (ap (size i) (sym e)) w.assessed.sized_lem) in
      let exposure = sized_exposure i w.assessed.sized s.reasons_lem w.sized in
      let dd = drawdown_within i (w.assessed.drawdown_lem ∙ ap ok w.drawdown) in
      let (reward, positions) = quality_limits i w.quality in
      let checks = raised-eq-nil (position_checks i) positions in
      let last = raised-eq-nil (final_checks i w.assessed.sized) w.last in
      rw w.capital (record {
        daily = dd.daily;
        weekly = dd.weekly;
        daily_lem = dd.daily_lem;
        weekly_lem = dd.weekly_lem;
        daily_loss = dd.checks.0;
        weekly_loss = dd.checks.1.0;
        monthly_drawdown = dd.checks.1.1.0;
        total_drawdown = dd.checks.1.1.1.0;
        equity = exposure.0;
        market = exposure.1.0;
        reward = reward;
        entry = cash_left (is_buy i.candidate.action) (i.portfolio.cash_inr ≤? of_ℕ 0) last.0 (
            entry_limits_of (is_buy i.candidate.action) i.candidate.market (config_of i)
              (open_total i) (open_in_market i) checks.0 checks.1.0 checks.1.1.0);
      })
