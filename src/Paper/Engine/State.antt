-- ===== src/Paper/Engine/State.antt =====
-- `PaperTradingEngine`: its attributes, `__init__`, `_entry_block_reason` and `_blocked`. An engine
-- is passed from call to call, and the identifier of a journal entry is an argument.
use Prim.Native.Nat.{◌/◌}
use trading_ai_alpha_agent.Prelude.{
  String, ℕ, Bool, true, false, ◌||◌, List, [], ◌∷◌, ◌++◌, Option, none, some, ◌==◌, if◌then◌else◌,
}
use trading_ai_alpha_agent.Prelude.Int.{ℤ, pos, leb_ℤ, max_ℤ}
use trading_ai_alpha_agent.Prelude.Text.{Dict, lookup}
use trading_ai_alpha_agent.Prelude.Result.{Result, ok, value_error, raise_if, ◌>>◌}
use trading_ai_alpha_agent.Prelude.Float.{Float, ◌≤?◌, of_ℕ, negate, max}
use trading_ai_alpha_agent.Paper.Models.{
  PaperTradeStatus, PaperExitReason, PaperBlockReason, reason_text, CostModel, PaperRiskLimits,
  PaperOrderRequest, PaperPosition, PaperTradeJournalEntry, PaperExecutionResult,
}

pub record PaperTradingEngine (R : Type 0) : Type 0 where
  pub starting_cash : R
  pub cash : R
  pub cost_model : CostModel R
  pub risk_limits : PaperRiskLimits R
  pub allow_short_selling : Bool
  pub positions : Dict (PaperPosition R)
  pub journal : List (PaperTradeJournalEntry R)
  pub realized_pnl : R
  pub total_costs : R
  pub daily_entry_count : ℕ → ℤ
  pub daily_realized_pnl : ℕ → R

-- A request with its time normalized: `_open_position` and `_close_position` read this one.
pub record NormalizedRequest (R : Type 0) : Type 0 where
  pub request : PaperOrderRequest R
  pub submitted_at : ℕ

-- `timestamp.date()`, of an instant in UTC counted in microseconds: the number of the day
abbrev pub date : ℕ → ℕ
date t = t / 86_400_000_000

-- `counts[day] = value`, where an absent day has a default
abbrev pub at_day : {A : Type 0} → ℕ → A → (ℕ → A) → ℕ → A
at_day day a g d = if day == d then a else g d

abbrev is_some : {A : Type 0} → Option A → Bool
is_some none = false
is_some (some a) = true

abbrev message_or : Option String → PaperBlockReason → String
message_or none reason = reason_text reason
message_or (some message) reason = message

module _ {R : Type 0} ⦃f : Float R⦄ where
  -- the attributes that `__init__` sets
  abbrev pub new_engine : R → CostModel R → PaperRiskLimits R → Bool → PaperTradingEngine R
  new_engine starting_cash costs limits short = record {
    starting_cash = starting_cash;
    cash = starting_cash;
    cost_model = costs;
    risk_limits = limits;
    allow_short_selling = short;
    positions = [];
    journal = [];
    realized_pnl = of_ℕ 0;
    total_costs = of_ℕ 0;
    daily_entry_count = λ _. pos 0;
    daily_realized_pnl = λ _. of_ℕ 0;
  }

  -- `PaperTradingEngine(...)`
  unfoldable pub make_engine :
      R → CostModel R → PaperRiskLimits R → Bool → Result (PaperTradingEngine R)
  make_engine starting_cash costs limits short = do
    raise_if (starting_cash ≤? of_ℕ 0) (value_error "starting_cash_must_be_positive")
    ok (new_engine starting_cash costs limits short)

  -- `stop_loss is None`, or a stop that is not below the price
  abbrev pub bad_stop : Option R → R → Bool
  bad_stop none price = true
  bad_stop (some stop) price = price ≤? stop

  -- `_entry_block_reason`
  unfoldable pub entry_block_reason :
      NormalizedRequest R → PaperTradingEngine R → Option PaperBlockReason
  unfolding lookup
  entry_block_reason n e =
      let r = n.request in
      let day = date n.submitted_at in
      if leb_ℤ r.quantity (pos 0) || (r.reference_price ≤? of_ℕ 0)
      then some PaperBlockReason.invalid_request
      else if bad_stop r.stop_loss r.reference_price
      then some PaperBlockReason.invalid_request
      else if is_some (lookup r.symbol e.positions)
      then some PaperBlockReason.position_already_open
      else if leb_ℤ e.risk_limits.max_trades_per_day (e.daily_entry_count day)
      then some PaperBlockReason.max_trades_per_day
      else if e.daily_realized_pnl day ≤? negate e.risk_limits.max_daily_loss
      then some PaperBlockReason.daily_loss_limit
      else none

  abbrev pub append_entry : PaperTradeJournalEntry R → PaperTradingEngine R → PaperTradingEngine R
  append_entry j e = record e { journal = e.journal ++ (j ∷ []) }

  abbrev pub blocked_entry :
      String → NormalizedRequest R → PaperBlockReason → Option String → PaperTradeJournalEntry R
  blocked_entry id n reason message =
      let r = n.request in
      record {
        id = id;
        timestamp = n.submitted_at;
        symbol = r.symbol;
        market = r.market;
        side = r.side;
        quantity = max_ℤ r.quantity (pos 0);
        requested_price = max r.reference_price (of_ℕ 0);
        execution_price = of_ℕ 0;
        gross_value = of_ℕ 0;
        costs = of_ℕ 0;
        cash_change = of_ℕ 0;
        status = PaperTradeStatus.blocked;
        realized_pnl = of_ℕ 0;
        exit_reason = PaperExitReason.not_an_exit;
        block_reason = some reason;
        message = message_or message reason;
        metadata = r.metadata;
      }

  -- `_blocked`
  unfoldable pub blocked :
      String
      → NormalizedRequest R
      → PaperBlockReason
      → Option String
      → PaperTradingEngine R
      → PaperTradingEngine R × PaperExecutionResult R
  blocked id n reason message e =
      let j = blocked_entry id n reason message in
      (append_entry j e, record { accepted = false; journal_entry = j; position = none })
