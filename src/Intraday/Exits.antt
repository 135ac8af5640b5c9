-- ===== src/Intraday/Exits.antt =====
-- app/intraday/exit_manager.py: when an open position is to be left, and why.
use trading_ai_alpha_agent.Prelude.{
  String, Bool, true, false, List, [], ◌∷◌, Option, none, some, leb, if◌then◌else◌,
}
use trading_ai_alpha_agent.Prelude.Result.{Result, ok, ◌>>=◌}
use trading_ai_alpha_agent.Prelude.Float.{Float, ◌<?◌, ◌≤?◌}
use trading_ai_alpha_agent.Intraday.Config.{IntradayShadowConfig}
use trading_ai_alpha_agent.Intraday.Clock.{DateTime, time_of_day, ReadInt, parse_time}
use trading_ai_alpha_agent.Intraday.Models.{
  Direction, MarketRegime, is_bullish, is_bearish, MarketDataSnapshot, VirtualPosition,
}

pub record ExitDecision (R : Type 0) : Type 0 where
  pub should_exit : Bool
  pub reason : String
  pub exit_price : Option R

-- `ExitDecision(True, reason, price)`
abbrev pub leave : {R : Type 0} → String → R → ExitDecision R
leave reason price = record { should_exit = true; reason = reason; exit_price = some price }

-- `ExitDecision(False)`
abbrev pub stay : {R : Type 0} → ExitDecision R
stay = record { should_exit = false; reason = ""; exit_price = none }

-- a row of statements `if test: return value`
abbrev pub first_of : {A : Type 0} → List (Bool × A) → Option A
first_of [] = none
first_of ((test, a) ∷ tests) = let rest = first_of tests in if test then some a else rest

module _ {R : Type 0} ⦃f : Float R⦄ where
  -- `vwap is not None and price < vwap`, and with `>`
  abbrev pub below_vwap : R → Option R → Bool
  below_vwap price none = false
  below_vwap price (some vwap) = price <? vwap

  abbrev pub above_vwap : R → Option R → Bool
  above_vwap price none = false
  above_vwap price (some vwap) = vwap <? price

  abbrev pub price_exits :
      Direction
      → VirtualPosition R
      → MarketDataSnapshot R
      → MarketRegime
      → List (Bool × ExitDecision R)
  price_exits Direction.long p s regime =
      (s.last_price ≤? p.stop_loss, leave "STOP_LOSS" p.stop_loss)
      ∷ (p.target_price ≤? s.last_price, leave "TARGET_HIT" p.target_price)
      ∷ (below_vwap s.last_price s.vwap, leave "VWAP_BREAK" s.last_price)
      ∷ (is_bearish regime, leave "REGIME_CHANGE" s.last_price)
      ∷ []
  price_exits Direction.short p s regime =
      (p.stop_loss ≤? s.last_price, leave "STOP_LOSS" p.stop_loss)
      ∷ (s.last_price ≤? p.target_price, leave "TARGET_HIT" p.target_price)
      ∷ (above_vwap s.last_price s.vwap, leave "VWAP_BREAK" s.last_price)
      ∷ (is_bullish regime, leave "REGIME_CHANGE" s.last_price)
      ∷ []

  -- `now or snapshot.timestamp`
  abbrev pub checked_at : Option DateTime → MarketDataSnapshot R → DateTime
  checked_at none s = record { moment = s.timestamp; utc_offset = s.utc_offset }
  checked_at (some now) s = now

  -- the last two returns, where no price or regime asks for an exit
  abbrev pub close_of_day :
      ReadInt → IntradayShadowConfig R → MarketDataSnapshot R → DateTime → Result (ExitDecision R)
  close_of_day int_of config s moment = do
    closing ← parse_time int_of config.force_close_time
    ok (if leb closing (time_of_day moment) then leave "END_OF_DAY" s.last_price else stay)

  abbrev pub exit_or : Result (ExitDecision R) → Option (ExitDecision R) → Result (ExitDecision R)
  exit_or late none = late
  exit_or late (some decision) = ok decision

  -- `ExitManager.evaluate`
  unfoldable pub evaluate_virtual_exit :
      ReadInt
      → IntradayShadowConfig R
      → VirtualPosition R
      → MarketDataSnapshot R
      → MarketRegime
      → Option DateTime
      → Result (ExitDecision R)
  evaluate_virtual_exit int_of config p s regime now =
      exit_or (close_of_day int_of config s (checked_at now s))
        (first_of (price_exits p.direction p s regime))
