-- ===== src/Risk/Quality.antt =====
-- app/risk/{liquidity,slippage}.py: the checks of volume, notional and spread against the quote
-- metrics, a mapping from names to numbers or `None`.
use Prim.Native.Nat.{◌+◌ as add}
use Prim.Native.Char.{code}
use trading_ai_alpha_agent.Prelude.{
  String, ℕ, Bool, true, false, ◌&&◌, ◌||◌, List, [], ◌∷◌, Option, none, some, leb, ◌==◌,
  if◌then◌else◌,
}
use trading_ai_alpha_agent.Prelude.Text.{Dict, lookup}
use trading_ai_alpha_agent.Prelude.Float.{Float, ◌+◌, ◌-◌, ◌*◌, ◌<?◌, ◌≤?◌, ◌=?◌, of_ℕ}
use trading_ai_alpha_agent.Core.Enums.{is_us}
use trading_ai_alpha_agent.Core.Config.{Settings}
use trading_ai_alpha_agent.Schemas.Trading.{TradeCandidate}

-- `str.lower`, on the ASCII letters: the only ones that can yield the texts compared here.
abbrev pub lower : ℕ → ℕ
lower c = if leb b'A' c && leb c b'Z' then add c 32 else c

-- `flag.lower() == word`, for a word in lower case
abbrev pub lower_is : String → String → Bool
lower_is String.[] String.[] = true
lower_is (String.◌∷◌ c s) (String.◌∷◌ d w) = (lower (code c) == code d) && lower_is s w
lower_is _ _ = false

-- `word in {flag.lower() for flag in flags}`
unfoldable pub has_flag : String → List String → Bool
has_flag word [] = false
has_flag word (x ∷ flags) = lower_is x word || has_flag word flags

abbrev pub QuoteMetrics : Type 0 → Type 0
QuoteMetrics R = Dict (Option R)

-- `x is None`, `return missing if required else None`
abbrev pub missing_if : Bool → String → Option String
missing_if required reason = if required then some reason else none

module _ {R : Type 0} ⦃f : Float R⦄ where
  -- `_metric`, which both files define alike
  unfoldable pub metric : QuoteMetrics R → List String → Option R
  unfolding lookup
  metric quotes [] = none
  metric quotes (key ∷ keys) =
      let rest = metric quotes keys in
      elim (lookup key quotes) [
        | none ↦ rest
        | some none ↦ rest
        | some (some value) ↦ if value <? of_ℕ 0 then none else some value
      ]

  -- `value or default`
  abbrev pub or_else : Option R → R → R
  or_else none d = d
  or_else (some x) d = if x =? of_ℕ 0 then d else x

  -- the second half of `_notional_inr`, once the average volume is known
  abbrev pub estimated_notional : TradeCandidate R → QuoteMetrics R → R → Option R
  estimated_notional c quotes volume =
      let price =
        or_else (metric quotes ("last_price" ∷ "close" ∷ "mid_price" ∷ [])) c.entry_price in
      let fx_rate =
        if is_us c.market
        then or_else (metric quotes ("fx_rate" ∷ "usd_inr" ∷ [])) (of_ℕ 0)
        else of_ℕ 1 in
      if (price ≤? of_ℕ 0) || (fx_rate ≤? of_ℕ 0) then none else some (price * volume * fx_rate)

  unfoldable pub notional_inr : TradeCandidate R → QuoteMetrics R → Option R → Option R
  notional_inr c quotes average =
      elim (metric quotes
        ("average_daily_notional_inr" ∷ "avg_daily_notional_inr" ∷ "notional_inr" ∷ [])) [
          | some configured ↦ some configured
          | none ↦ elim average [ none ↦ none | some volume ↦ estimated_notional c quotes volume ]
        ]

  -- `value is not None and value < limit`
  abbrev pub is_below : Option R → R → Bool
  is_below none limit = false
  is_below (some value) limit = value <? limit

  -- `value is not None and value > limit`
  abbrev pub is_above : Option R → R → Bool
  is_above none limit = false
  is_above (some value) limit = limit <? value

  abbrev pub is_none : Option R → Bool
  is_none none = true
  is_none (some value) = false

  -- the last two checks of `liquidity_rejection_reason`
  abbrev pub notional_reason : Settings R → Option R → Bool → Option String
  notional_reason s none required = missing_if required "liquidity_notional_missing"
  notional_reason s (some notional) required =
      if notional <? s.min_live_average_daily_notional_inr
      then some "average_daily_notional_too_low"
      else none

  unfoldable pub liquidity_rejection_reason :
      TradeCandidate R → Settings R → Option (QuoteMetrics R) → Bool → Option String
  liquidity_rejection_reason c s none required =
      if has_flag "illiquid" c.risk_flags
      then some "liquidity_check_failed"
      else missing_if required "liquidity_metrics_missing"
  liquidity_rejection_reason c s (some quotes) required =
      let intraday = metric quotes ("volume" ∷ "intraday_volume" ∷ []) in
      let average = metric quotes ("average_daily_volume" ∷ "avg_daily_volume" ∷ []) in
      if has_flag "illiquid" c.risk_flags
      then some "liquidity_check_failed"
      else if is_none intraday && is_none average
      then missing_if required "liquidity_volume_missing"
      else if is_below intraday (of_ℕ s.min_live_intraday_volume)
      then some "intraday_volume_too_low"
      else if is_below average (of_ℕ s.min_live_average_daily_volume)
      then some "average_daily_volume_too_low"
      else notional_reason s (notional_inr c quotes average) required

  -- `_spread_pct` once a bid and an ask are known; the two divisors are positive, so neither
  -- division raises
  abbrev pub quoted_spread : Option R → Option R → Option R
  quoted_spread (some bid) (some ask) =
      let mid = f.quotient (bid + ask) (of_ℕ 2) in
      if (bid ≤? of_ℕ 0) || (ask ≤? of_ℕ 0) || (ask <? bid)
      then none
      else if mid ≤? of_ℕ 0
      then none
      else some (f.quotient (ask - bid) mid)
  quoted_spread _ _ = none

  unfoldable pub spread_pct : QuoteMetrics R → Option R
  spread_pct quotes = elim (metric quotes ("spread_pct" ∷ "bid_ask_spread_pct" ∷ [])) [
    | some configured ↦ some configured
    | none ↦ elim (metric quotes ("spread_bps" ∷ "bid_ask_spread_bps" ∷ [])) [
      | some bps ↦ some (f.quotient bps (of_ℕ 10_000))
      | none ↦
          quoted_spread (metric quotes ("bid" ∷ "best_bid" ∷ []))
            (metric quotes ("ask" ∷ "best_ask" ∷ []))
    ]
  ]

  abbrev pub spread_reason : Settings R → Option R → Option R → Bool → Option String
  spread_reason s none slippage required = missing_if required "bid_ask_spread_missing"
  spread_reason s (some spread) slippage required =
      if s.max_live_bid_ask_spread_pct <? spread
      then some "bid_ask_spread_too_wide"
      else if is_above slippage s.max_live_estimated_slippage_pct
      then some "estimated_slippage_too_high"
      else none

  unfoldable pub slippage_rejection_reason :
      TradeCandidate R → Settings R → Option (QuoteMetrics R) → Bool → Option String
  slippage_rejection_reason c s none required =
      if has_flag "high_slippage" c.risk_flags
      then some "slippage_check_failed"
      else missing_if required "slippage_metrics_missing"
  slippage_rejection_reason c s (some quotes) required =
      if has_flag "high_slippage" c.risk_flags
      then some "slippage_check_failed"
      else spread_reason s (spread_pct quotes)
          (metric quotes ("estimated_slippage_pct" ∷ "expected_slippage_pct" ∷ "slippage_pct" ∷ []))
          required
