-- ===== src/Intraday/Universe.antt =====
-- app/intraday/universe.py: which snapshots may be traded at all.
use Prim.Native.String.{◌++◌ as text_append}
use trading_ai_alpha_agent.Prelude.{
  String, Bool, false, not, List, [], ◌∷◌, ◌++◌, Option, none, some, map, raised, if◌then◌else◌,
}
use trading_ai_alpha_agent.Prelude.Dedupe.{from_keys}
use trading_ai_alpha_agent.Prelude.Text.{contains}
use trading_ai_alpha_agent.Prelude.Int.{pos}
use trading_ai_alpha_agent.Prelude.Float.{Float, ◌<?◌, ◌≤?◌, of_ℕ, decimal, abs}
use trading_ai_alpha_agent.Paper.Symbols.{upper}
use trading_ai_alpha_agent.Intraday.Config.{IntradayShadowConfig}
use trading_ai_alpha_agent.Intraday.Models.{
  MarketDataSnapshot, DataQualityReport, snapshot_spread_pct,
}
use trading_ai_alpha_agent.Intraday.Quality.{none_of, too_wide}

abbrev pub nifty_50_symbols : List String
nifty_50_symbols =
    "ADANIENT" ∷ "ADANIPORTS" ∷ "APOLLOHOSP" ∷ "ASIANPAINT" ∷ "AXISBANK" ∷ "BAJAJ-AUTO"
    ∷ "BAJFINANCE" ∷ "BAJAJFINSV" ∷ "BEL" ∷ "BHARTIARTL" ∷ "CIPLA" ∷ "COALINDIA" ∷ "DRREDDY"
    ∷ "EICHERMOT" ∷ "ETERNAL" ∷ "GRASIM" ∷ "HCLTECH" ∷ "HDFCBANK" ∷ "HDFCLIFE" ∷ "HEROMOTOCO"
    ∷ "HINDALCO" ∷ "HINDUNILVR" ∷ "ICICIBANK" ∷ "INDUSINDBK" ∷ "INFY" ∷ "ITC" ∷ "JIOFIN"
    ∷ "JSWSTEEL" ∷ "KOTAKBANK" ∷ "LT" ∷ "M&M" ∷ "MARUTI" ∷ "NESTLEIND" ∷ "NTPC" ∷ "ONGC"
    ∷ "POWERGRID" ∷ "RELIANCE" ∷ "SBILIFE" ∷ "SBIN" ∷ "SHRIRAMFIN" ∷ "SUNPHARMA" ∷ "TATACONSUM"
    ∷ "TATAMOTORS" ∷ "TATASTEEL" ∷ "TCS" ∷ "TECHM" ∷ "TITAN" ∷ "TRENT" ∷ "ULTRACEMCO" ∷ "WIPRO" ∷ []

pub record UniverseDecision : Type 0 where
  pub allowed : Bool
  pub reasons : List String

-- `f"data_quality:{reason}" for reason in reasons`, unless the data are good
abbrev pub quality_reasons_of : {R : Type 0} → DataQualityReport R → List String
quality_reasons_of q =
    if not q.is_ok then map (λ reason. text_append "data_quality:" reason) q.reasons else []

module _ {R : Type 0} ⦃f : Float R⦄ where
  abbrev abnormal_gap : Option R → Bool
  abnormal_gap none = false
  abnormal_gap (some gap) = decimal (pos 5) 2 <? abs gap

  abbrev pub market_checks : IntradayShadowConfig R → MarketDataSnapshot R → List (Bool × String)
  market_checks config s =
      (s.volume ≤? of_ℕ 0, "low_volume")
      ∷ (too_wide config (snapshot_spread_pct s), "wide_spread")
      ∷ (abnormal_gap s.gap_pct, "abnormal_gap")
      ∷ (s.last_price ≤? of_ℕ 0, "invalid_price")
      ∷ []

  abbrev pub universe_reasons :
      IntradayShadowConfig R
      → List String
      → MarketDataSnapshot R
      → DataQualityReport R
      → List String
  universe_reasons config symbols s q =
      raised ((not (contains (upper s.symbol) symbols), "symbol_not_in_nifty_liquid_universe") ∷ [])
      ++ (quality_reasons_of q ++ raised (market_checks config s))

  -- `UniverseFilter.check`
  unfoldable pub check_universe :
      IntradayShadowConfig R
      → List String
      → MarketDataSnapshot R
      → DataQualityReport R
      → UniverseDecision
  unfolding from_keys
  check_universe config symbols s q =
      let reasons = universe_reasons config symbols s q in
      record { allowed = none_of reasons; reasons = from_keys [] reasons }
