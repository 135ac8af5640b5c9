-- ===== src/Paper/Models.antt =====
-- app/paper/models.py: costs, limits, requests, positions and the journal.
use trading_ai_alpha_agent.Prelude.{String, ℕ, Bool, List, Option}
use trading_ai_alpha_agent.Prelude.Int.{ℤ, pos, leb_ℤ}
use trading_ai_alpha_agent.Prelude.Result.{Result, ok, value_error, raise_if, ◌>>◌}
use trading_ai_alpha_agent.Prelude.Float.{Float, ◌+◌, ◌-◌, ◌*◌, ◌<?◌, ◌≤?◌, of_ℕ, of_ℤ}
use trading_ai_alpha_agent.Core.Enums.{Market, OrderSide}
use trading_ai_alpha_agent.Schemas.Json.{Fields}
use trading_ai_alpha_agent.Paper.Symbols.{Timestamp}

pub data PaperTradeStatus : Type 0 where
  opened closed blocked : PaperTradeStatus

pub data PaperExitReason : Type 0 where
  not_an_exit stop_loss profit_target manual_research_exit end_of_backtest : PaperExitReason

pub data PaperBlockReason : Type 0 where
  daily_loss_limit insufficient_cash invalid_request max_trades_per_day : PaperBlockReason
  position_already_open short_selling_disabled : PaperBlockReason

-- `reason.value.lower()`
unfoldable pub reason_text : PaperBlockReason → String
reason_text PaperBlockReason.daily_loss_limit = "daily_loss_limit"
reason_text PaperBlockReason.insufficient_cash = "insufficient_cash"
reason_text PaperBlockReason.invalid_request = "invalid_request"
reason_text PaperBlockReason.max_trades_per_day = "max_trades_per_day"
reason_text PaperBlockReason.position_already_open = "position_already_open"
reason_text PaperBlockReason.short_selling_disabled = "short_selling_disabled"

pub record CostModel (R : Type 0) : Type 0 where
  pub brokerage_pct : R
  pub brokerage_flat : R
  pub taxes_pct : R
  pub slippage_bps : R

pub record PaperRiskLimits (R : Type 0) : Type 0 where
  pub max_trades_per_day : ℤ
  pub max_daily_loss : R
  pub min_cash_buffer : R

pub record PaperOrderRequest (R : Type 0) : Type 0 where
  pub symbol : String
  pub market : Market
  pub side : OrderSide
  pub quantity : ℤ
  pub reference_price : R
  pub submitted_at : Timestamp
  pub stop_loss : Option R
  pub take_profit : Option R
  pub metadata : Fields

pub record PaperPosition (R : Type 0) : Type 0 where
  pub symbol : String
  pub market : Market
  pub quantity : ℤ
  pub average_entry_price : R
  pub entry_cost_per_unit : R
  pub stop_loss : R
  pub take_profit : Option R
  pub opened_at : ℕ
  pub metadata : Fields

pub record PaperTradeJournalEntry (R : Type 0) : Type 0 where
  pub id : String
  pub timestamp : ℕ
  pub symbol : String
  pub market : Market
  pub side : OrderSide
  pub quantity : ℤ
  pub requested_price : R
  pub execution_price : R
  pub gross_value : R
  pub costs : R
  pub cash_change : R
  pub status : PaperTradeStatus
  pub realized_pnl : R
  pub exit_reason : PaperExitReason
  pub block_reason : Option PaperBlockReason
  pub message : String
  pub metadata : Fields

pub record PaperExecutionResult (R : Type 0) : Type 0 where
  pub accepted : Bool
  pub journal_entry : PaperTradeJournalEntry R
  pub position : Option (PaperPosition R)

pub record PaperAccountSnapshot (R : Type 0) : Type 0 where
  pub timestamp : ℕ
  pub cash : R
  pub equity : R
  pub realized_pnl : R
  pub unrealized_pnl : R
  pub total_costs : R
  pub open_positions : List (PaperPosition R)

module _ {R : Type 0} ⦃f : Float R⦄ where
  -- `CostModel(...)`, whose `__post_init__` refuses negative rates
  unfoldable pub make_cost_model : CostModel R → Result (CostModel R)
  make_cost_model c = do
    raise_if (c.brokerage_pct <? of_ℕ 0) (value_error "brokerage_pct_must_be_non_negative")
    raise_if (c.brokerage_flat <? of_ℕ 0) (value_error "brokerage_flat_must_be_non_negative")
    raise_if (c.taxes_pct <? of_ℕ 0) (value_error "taxes_pct_must_be_non_negative")
    raise_if (c.slippage_bps <? of_ℕ 0) (value_error "slippage_bps_must_be_non_negative")
    ok c

  -- `PaperRiskLimits(...)`
  unfoldable pub make_risk_limits : PaperRiskLimits R → Result (PaperRiskLimits R)
  make_risk_limits l = do
    raise_if (leb_ℤ l.max_trades_per_day (pos 0))
        (value_error "max_trades_per_day_must_be_positive")
    raise_if (l.max_daily_loss ≤? of_ℕ 0) (value_error "max_daily_loss_must_be_positive")
    raise_if (l.min_cash_buffer <? of_ℕ 0) (value_error "min_cash_buffer_must_be_non_negative")
    ok l

  abbrev pub slipped : CostModel R → OrderSide → R → R
  slipped c OrderSide.buy price = price * (of_ℕ 1 + f.quotient c.slippage_bps (of_ℕ 10_000))
  slipped c OrderSide.sell price = price * (of_ℕ 1 - f.quotient c.slippage_bps (of_ℕ 10_000))

  -- `CostModel.execution_price`
  unfoldable pub execution_price : CostModel R → OrderSide → R → Result R
  execution_price c side price = do
    raise_if (price ≤? of_ℕ 0) (value_error "reference_price_must_be_positive")
    ok (slipped c side price)

  -- `CostModel.transaction_cost`
  unfoldable pub transaction_cost : CostModel R → R → Result R
  transaction_cost c gross = do
    raise_if (gross <? of_ℕ 0) (value_error "gross_value_must_be_non_negative")
    ok (gross * (c.brokerage_pct + c.taxes_pct) + c.brokerage_flat)

  -- `PaperPosition.entry_basis`, for a number of the units
  abbrev pub basis_of : PaperPosition R → ℤ → R
  basis_of p quantity = (p.average_entry_price + p.entry_cost_per_unit) * of_ℤ quantity

  unfoldable pub entry_basis : PaperPosition R → R
  entry_basis p = basis_of p p.quantity
