-- ===== src/Risk/Engine/Outcome.antt =====
-- What `RiskEngine.evaluate` answers when it does not approve, and when it answers at all.
use trading_ai_alpha_agent.Prelude.Result.{ok-injective}
use trading_ai_alpha_agent.Prelude.{
  String, true, false, List, [], ◌∷◌, ◌++◌, none, some, raised, ◌≡◌, ◌≢◌, inl, inr, refl, ap, sym,
  ◌∙◌, subst, Bool-cases,
}
use mathlib.Core.Bool.{false≢true}
use trading_ai_alpha_agent.Prelude.Int.{pos}
use trading_ai_alpha_agent.Prelude.Text.{contains}
use trading_ai_alpha_agent.Prelude.Result.{ok, err, type_error}
use trading_ai_alpha_agent.Prelude.Float.{Float, ◌=?◌, of_ℕ}
use trading_ai_alpha_agent.Core.Enums.{Market, RiskDecisionType, is_us}
use trading_ai_alpha_agent.Schemas.Status.{FxRateStatus}
use trading_ai_alpha_agent.Schemas.Risk.{RiskDecision}
use trading_ai_alpha_agent.Risk.Limits.{drawdown_reasons}
use trading_ai_alpha_agent.Risk.Engine.Inputs.{Inputs, state_of}
use trading_ai_alpha_agent.Risk.Engine.Reasons.{state_reasons, quality_reasons}
use trading_ai_alpha_agent.Risk.Engine.Sized.{Sized, size, size_with_stop}
use trading_ai_alpha_agent.Risk.Engine.Evaluate.{
  evaluate, asks_no_trade, all_reasons, conclude, no_trade_decision, final_checks,
}
use trading_ai_alpha_agent.Prelude.Dedupe.{
  from_keys, IsDistinct, from_keys-IsDistinct, contains-from_keys, contains_left,
}
use trading_ai_alpha_agent.Risk.Engine.Assessed.{Assessed, evaluate-Assessed}

module _ {R : Type 0} ⦃f : Float R⦄ where
  -- A decision that is one of these, and consistent in itself.
  pub data IsOutcome (d : RiskDecision R) : Type 0 where
    no_trade :
        d.decision ≡ RiskDecisionType.no_trade
        → d.approved_quantity ≡ pos 0
        → d.rejection_reasons ≡ []
        → IsOutcome d
    rejected :
        d.decision ≡ RiskDecisionType.rejected
        → d.approved_quantity ≡ pos 0
        → d.approved_capital ≡ of_ℕ 0
        → d.approved_risk ≡ of_ℕ 0
        → d.rejection_reasons ≢ []
        → IsDistinct d.rejection_reasons
        → IsOutcome d
    approved :
        d.decision ≡ RiskDecisionType.approved
        → d.rejection_reasons ≡ []
        → d.required_actions ≡ []
        → IsOutcome d

  conclude-IsOutcome :
      (i : Inputs R) (sized : Sized R) (reasons : List String)
      → IsDistinct reasons
      → IsOutcome (conclude i sized reasons)
  unfolding conclude
  conclude-IsOutcome i sized [] h = IsOutcome.approved refl refl refl
  conclude-IsOutcome i sized (x ∷ xs) h = IsOutcome.rejected refl refl refl refl (λ e. cc) h

  -- Every decision is no trade, a rejection that approves nothing and gives reasons without
  -- duplicates, or an approval with no reason; the engine never answers REDUCE_SIZE.
  pub evaluate-IsOutcome : (i : Inputs R) {d : RiskDecision R} → evaluate i ≡ ok d → IsOutcome d
  unfolding evaluate no_trade_decision
  evaluate-IsOutcome i {d} h = elim (Bool-cases (asks_no_trade i.candidate.action)) [
    | inl idle ↦ subst IsOutcome (ok-injective (rw idle at h)) (IsOutcome.no_trade refl refl refl)
    | inr trade ↦
        let s = evaluate-Assessed i trade h in
        subst IsOutcome s.concluded (
          conclude-IsOutcome i s.sized (from_keys [] (all_reasons i s.drawdown s.sized))
            (from_keys-IsDistinct [] (all_reasons i s.drawdown s.sized) tt))
  ]

  conclude_reasons :
      (i : Inputs R) (sized : Sized R) (reasons : List String)
      → (conclude i sized reasons).rejection_reasons ≡ reasons
  unfolding conclude
  conclude_reasons i sized [] = refl
  conclude_reasons i sized (x ∷ xs) = refl

  -- The reasons of a decision are those that were collected, when a trade was asked for.
  reasons_reported :
      (i : Inputs R) {d : RiskDecision R} (k : String)
      → asks_no_trade i.candidate.action ≡ false
      → evaluate i ≡ ok d
      → (s : Assessed i d) × (contains k d.rejection_reasons
          ≡ contains k (all_reasons i s.drawdown s.sized))
  reasons_reported i k t h =
      let s = evaluate-Assessed i t h in
      let reasons = all_reasons i s.drawdown s.sized in
      (
        s,
        ap (λ d. contains k d.rejection_reasons) (sym s.concluded)
            ∙ (ap (contains k) (conclude_reasons i s.sized (from_keys [] reasons))
                ∙ contains-from_keys k [] reasons),
      )

  rejected_of_reason :
      {d : RiskDecision R} (k : String)
      → IsOutcome d
      → contains k d.rejection_reasons ≡ true
      → d.decision ≡ RiskDecisionType.rejected
  rejected_of_reason k (IsOutcome.no_trade a q r) h =
      absurd (false≢true (sym (ap (contains k) r) ∙ h))
  rejected_of_reason k (IsOutcome.rejected a q c risk r u) h = a
  rejected_of_reason k (IsOutcome.approved a r q) h =
      absurd (false≢true (sym (ap (contains k) r) ∙ h))

  kill_switch_first :
      (i : Inputs R)
      → (state_of i).kill_switch ≡ true
      → contains "kill_switch_enabled" (state_reasons i) ≡ true
  unfolding state_reasons
  kill_switch_first i h = rw h refl

  -- With the kill switch on, a decision on a requested trade is a rejection that names the switch.
  pub kill_switch_rejects :
      (i : Inputs R) {d : RiskDecision R}
      → (state_of i).kill_switch ≡ true
      → asks_no_trade i.candidate.action ≡ false
      → evaluate i ≡ ok d
      → (d.decision ≡ RiskDecisionType.rejected)
        × (contains "kill_switch_enabled" d.rejection_reasons ≡ true)
  unfolding all_reasons
  kill_switch_rejects i {d} on t h =
      let (s, e) = reasons_reported i "kill_switch_enabled" t h in
      let named : contains "kill_switch_enabled" d.rejection_reasons ≡ true =
        e
        ∙ contains_left "kill_switch_enabled" (state_reasons i)
            (s.drawdown
              ++ (quality_reasons i ++ (s.sized.reasons ++ raised (final_checks i s.sized))))
            (kill_switch_first i on) in
      (rejected_of_reason "kill_switch_enabled" (evaluate-IsOutcome i h) named, named)

  -- An American trade with a stop loss, against a status of the exchange rate that holds no rate,
  -- is not rejected: the sizing raises.
  pub missing_rate_raises :
      (i : Inputs R) (s : FxRateStatus R) (stop : R)
      → asks_no_trade i.candidate.action ≡ false
      → i.candidate.market ≡ Market.us
      → i.fx_status ≡ some s
      → s.rate ≡ none
      → i.candidate.stop_loss ≡ some stop
      → (i.portfolio.total_value_inr =? of_ℕ 0) ≡ false
      → evaluate i ≡ err type_error
  unfolding evaluate drawdown_reasons size size_with_stop is_us
  missing_rate_raises i s stop t us fx rate e total = rw (t, total, e, us, fx, rate)
