-- ===== src/Risk/Engine/Assessed.antt =====
-- How a decision of `RiskEngine.evaluate` came about: inversions of a run that returned.
use trading_ai_alpha_agent.Prelude.{
  String, true, false, ◌||◌, List, [], ◌∷◌, raised, append-eq-nil, ◌≡◌, refl, ap, sym, ◌∙◌, arith,
}
use trading_ai_alpha_agent.Prelude.Result.{ok-injective, ok, >>=-eq-ok}
use trading_ai_alpha_agent.Prelude.Float.{Float}
use trading_ai_alpha_agent.Core.Enums.{TradeAction, RiskDecisionType, is_buy, is_sell}
use trading_ai_alpha_agent.Schemas.Risk.{RiskDecision}
use trading_ai_alpha_agent.Risk.Limits.{drawdown_reasons}
use trading_ai_alpha_agent.Risk.Engine.Inputs.{Inputs, config_of}
use trading_ai_alpha_agent.Risk.Engine.Reasons.{state_reasons, quality_reasons}
use trading_ai_alpha_agent.Risk.Engine.Sized.{Sized, size}
use trading_ai_alpha_agent.Risk.Engine.Evaluate.{
  evaluate, assess, asks_no_trade, all_reasons, conclude, no_trade_decision, final_checks,
}
use trading_ai_alpha_agent.Prelude.Dedupe.{from_keys, from_keys-eq-nil}

asks_trade :
    (action : TradeAction) → asks_no_trade action ≡ false → (is_buy action || is_sell action) ≡ true
unfolding asks_no_trade is_buy is_sell
asks_trade a h = ground arith

module _ {R : Type 0} ⦃f : Float R⦄ where
  -- How a decision came about, when a trade was asked for.
  pub record Assessed (i : Inputs R) (d : RiskDecision R) : Type 0 where
    pub drawdown : List String
    pub sized : Sized R
    pub drawdown_lem : drawdown_reasons i.portfolio (config_of i) ≡ ok drawdown
    pub sized_lem : size i i.candidate.stop_loss ≡ ok sized
    pub concluded : conclude i sized (from_keys [] (all_reasons i drawdown sized)) ≡ d

  assess-Assessed : (i : Inputs R) {d : RiskDecision R} → assess i ≡ ok d → Assessed i d
  unfolding assess
  assess-Assessed i h =
      let (drawdown, e, h1) = >>=-eq-ok (drawdown_reasons i.portfolio (config_of i)) _ h in
      let (sized, e1, h2) = >>=-eq-ok (size i i.candidate.stop_loss) _ h1 in
      record {
        drawdown = drawdown;
        sized = sized;
        drawdown_lem = e;
        sized_lem = e1;
        concluded = ok-injective h2;
      }

  pub evaluate-Assessed :
      (i : Inputs R) {d : RiskDecision R}
      → asks_no_trade i.candidate.action ≡ false
      → evaluate i ≡ ok d
      → Assessed i d
  unfolding evaluate
  evaluate-Assessed i t h = assess-Assessed i (ground arith)

  conclude-approved :
      (i : Inputs R) (sized : Sized R) (reasons : List String)
      → (conclude i sized reasons).decision ≡ RiskDecisionType.approved
      → (reasons ≡ [])
        × ((conclude i sized reasons).approved_quantity ≡ sized.quantity)
        × ((conclude i sized reasons).approved_capital ≡ sized.capital)
  unfolding conclude
  conclude-approved i sized [] h = (refl, refl, refl)
  conclude-approved i sized (x ∷ xs) h = cc

  -- An approval was not asked to hold, and rests on no reason at all.
  pub record Approved (i : Inputs R) (d : RiskDecision R) : Type 0 where
    pub assessed : Assessed i d
    pub traded : (is_buy i.candidate.action || is_sell i.candidate.action) ≡ true
    pub quantity : d.approved_quantity ≡ assessed.sized.quantity
    pub capital : d.approved_capital ≡ assessed.sized.capital
    pub state : state_reasons i ≡ []
    pub drawdown : assessed.drawdown ≡ []
    pub quality : quality_reasons i ≡ []
    pub sized : assessed.sized.reasons ≡ []
    pub last : raised (final_checks i assessed.sized) ≡ []

  no_trade_ne_approved :
      (i : Inputs R) {d : RiskDecision R}
      → evaluate i ≡ ok d
      → d.decision ≡ RiskDecisionType.approved
      → asks_no_trade i.candidate.action ≡ false
  unfolding evaluate no_trade_decision
  no_trade_ne_approved i h a = ground arith

  pub evaluate-Approved :
      (i : Inputs R) {d : RiskDecision R}
      → evaluate i ≡ ok d
      → d.decision ≡ RiskDecisionType.approved
      → Approved i d
  unfolding all_reasons
  evaluate-Approved i {d} h a =
      let t = no_trade_ne_approved i h a in
      let s = evaluate-Assessed i t h in
      let (empty, quantity, capital) =
        conclude-approved i s.sized (from_keys [] (all_reasons i s.drawdown s.sized))
          (ap (λ r. r.decision) s.concluded ∙ a) in
      let (state, h1) = append-eq-nil _ _ (from_keys-eq-nil _ empty) in
      let (drawdown, h2) = append-eq-nil _ _ h1 in
      let (quality, h3) = append-eq-nil _ _ h2 in
      let (sized, last) = append-eq-nil _ _ h3 in
      record {
        assessed = s;
        traded = asks_trade i.candidate.action t;
        quantity = sym (ap (λ r. r.approved_quantity) s.concluded) ∙ quantity;
        capital = sym (ap (λ r. r.approved_capital) s.concluded) ∙ capital;
        state = state;
        drawdown = drawdown;
        quality = quality;
        sized = sized;
        last = last;
      }
