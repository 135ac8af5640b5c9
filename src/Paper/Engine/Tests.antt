-- ===== src/Paper/Engine/Tests.antt =====
-- The paper engine on concrete orders.
use trading_ai_alpha_agent.Prelude.{ℕ, false, none, some, ◌≡◌, refl}
use trading_ai_alpha_agent.Prelude.Int.{pos, ◌+ℤ◌, ◌-ℤ◌, ◌*ℤ◌, ◌≤ℤ◌, max_ℤ, int_laws}
use trading_ai_alpha_agent.Prelude.Text.{lookup, insert, erase}
use trading_ai_alpha_agent.Prelude.Result.{Result, ok, err}
use trading_ai_alpha_agent.Prelude.FixedPoint.{Micros, fixed_point}
use trading_ai_alpha_agent.Core.Enums.{Market, OrderSide, market_eq}
use trading_ai_alpha_agent.Schemas.Json.{end}
use trading_ai_alpha_agent.Paper.Symbols.{
  upper, strip, normalize_symbol, Timestamp, normalize_timestamp,
}
use trading_ai_alpha_agent.Paper.Models.{
  PaperExitReason, PaperBlockReason, CostModel, PaperRiskLimits, PaperOrderRequest, PaperPosition,
  make_cost_model, make_risk_limits, reason_text, execution_price, transaction_cost,
}
use trading_ai_alpha_agent.Paper.Engine.State.{
  PaperTradingEngine, new_engine, make_engine, entry_block_reason, append_entry, blocked,
}
use trading_ai_alpha_agent.Paper.Engine.Orders.{
  Answer, Fill, entered, open_position, exited, close_position,
}
use trading_ai_alpha_agent.Paper.Engine.Account.{
  instant, normalized, by_side, submit_order, evaluate_exit,
}
use trading_ai_alpha_agent.Paper.Engine.Cases.{IsReachable, started, ordered}
use trading_ai_alpha_agent.Paper.Engine.Journal.{IsAdditive, IsReconciled, journal_reconciles}
use trading_ai_alpha_agent.Paper.Engine.Limits.{
  entries_on, entries_bounded, IsAcceptedEntry, submit_order-IsAcceptedEntry,
}
use trading_ai_alpha_agent.Paper.Engine.Positions.{IsTracked, positions-IsTracked}
use trading_ai_alpha_agent.Paper.Engine.Exits.{
  refused_keeps_account, IsStopped, stop_loss_sells_all,
}
use trading_ai_alpha_agent.Paper.Engine.Total.{submit_order_total}

abbrev costs : CostModel Micros
costs = record {
  brokerage_pct = pos 300;
  brokerage_flat = pos 0;
  taxes_pct = pos 200;
  slippage_bps = pos 5_000_000;
}

abbrev limits : PaperRiskLimits Micros
limits = record {
  max_trades_per_day = pos 5;
  max_daily_loss = pos 5_000_000_000;
  min_cash_buffer = pos 0;
}

abbrev start : PaperTradingEngine Micros
start = new_engine (pos 100_000_000_000) costs limits false

abbrev order : OrderSide → ℕ → PaperOrderRequest Micros
order side quantity = record {
  symbol = " tcs ";
  market = Market.india;
  side = side;
  quantity = pos quantity;
  reference_price = pos 1_000_000_000;
  submitted_at = Timestamp.aware 1_700_000_000_000_000;
  stop_loss = some (pos 950_000_000);
  take_profit = some (pos 1_100_000_000);
  metadata = end;
}

abbrev answer_or : Result (Answer Micros) → Answer Micros → Answer Micros
answer_or (ok answer) other = answer
answer_or (err e) other = other

abbrev call : PaperOrderRequest Micros → PaperTradingEngine Micros → Answer Micros
unfolding submit_order blocked normalized
call r e =
    answer_or (submit_order "j" r PaperExitReason.not_an_exit e)
      (blocked "none" (normalized r) PaperBlockReason.invalid_request none e)

abbrev bought : Answer Micros
unfolding call
bought = call (order OrderSide.buy 10) start

abbrev sold : Answer Micros
unfolding call bought
sold = call (order OrderSide.sell 4) bought.0

abbrev refused : Answer Micros
unfolding call bought
refused = call (order OrderSide.sell 11) bought.0

test_buy : submit_order "j" (order OrderSide.buy 10) PaperExitReason.not_an_exit start ≡ ok bought
unfolding call bought sold refused submit_order by_side normalized instant normalize_timestamp
    normalize_symbol upper strip open_position close_position entry_block_reason blocked entered
    exited lookup insert erase execution_price transaction_cost market_eq ◌+ℤ◌ ◌-ℤ◌ ◌*ℤ◌ max_ℤ
    reason_text
test_buy = refl

test_sell : submit_order "j" (order OrderSide.sell 4) PaperExitReason.not_an_exit bought.0 ≡ ok sold
unfolding call bought sold refused submit_order by_side normalized instant normalize_timestamp
    normalize_symbol upper strip open_position close_position entry_block_reason blocked entered
    exited lookup insert erase execution_price transaction_cost market_eq ◌+ℤ◌ ◌-ℤ◌ ◌*ℤ◌ max_ℤ
    reason_text
test_sell = refl

-- More than is held is refused.
test_refused :
    submit_order "j" (order OrderSide.sell 11) PaperExitReason.not_an_exit bought.0 ≡ ok refused
unfolding call bought sold refused submit_order by_side normalized instant normalize_timestamp
    normalize_symbol upper strip open_position close_position entry_block_reason blocked entered
    exited lookup insert erase execution_price transaction_cost market_eq ◌+ℤ◌ ◌-ℤ◌ ◌*ℤ◌ max_ℤ
    reason_text
test_refused = refl

start_reached : IsReachable start
unfolding make_engine make_cost_model make_risk_limits ◌*ℤ◌
start_reached = started (pos 100_000_000_000) costs limits false refl refl refl

bought_reached : IsReachable bought.0
bought_reached =
    ordered "j" (order OrderSide.buy 10) PaperExitReason.not_an_exit start bought start_reached
      test_buy

sold_reached : IsReachable sold.0
sold_reached =
    ordered "j" (order OrderSide.sell 4) PaperExitReason.not_an_exit bought.0 sold bought_reached
      test_sell

micros-IsAdditive : IsAdditive Micros
unfolding ◌*ℤ◌
micros-IsAdditive = record { sub-negate = λ x y. grind int_laws; add_zero = λ x. grind int_laws }

journal_reconciles_example : IsReconciled sold.0
journal_reconciles_example = journal_reconciles micros-IsAdditive sold.0 sold_reached

positions-IsTracked_example : IsTracked sold.0
positions-IsTracked_example = positions-IsTracked sold.0 sold_reached

entries_bounded_example :
    pos (entries_on 19_675 sold.0.journal) ≤ℤ sold.0.risk_limits.max_trades_per_day
entries_bounded_example = entries_bounded sold.0 sold_reached 19_675

submit_order-IsAcceptedEntry_example : IsAcceptedEntry (order OrderSide.buy 10) start bought
unfolding call bought sold refused submit_order by_side normalized instant normalize_timestamp
    normalize_symbol upper strip open_position close_position entry_block_reason blocked entered
    exited lookup insert erase execution_price transaction_cost market_eq ◌+ℤ◌ ◌-ℤ◌ ◌*ℤ◌ max_ℤ
    reason_text
submit_order-IsAcceptedEntry_example =
    submit_order-IsAcceptedEntry "j" (order OrderSide.buy 10) PaperExitReason.not_an_exit start
      bought test_buy refl refl

refused_keeps_account_example : refused.0 ≡ append_entry refused.1.journal_entry bought.0
unfolding call bought sold refused submit_order by_side normalized instant normalize_timestamp
    normalize_symbol upper strip open_position close_position entry_block_reason blocked entered
    exited lookup insert erase execution_price transaction_cost market_eq ◌+ℤ◌ ◌-ℤ◌ ◌*ℤ◌ max_ℤ
    reason_text
refused_keeps_account_example =
    refused_keeps_account "j" (order OrderSide.sell 11) PaperExitReason.not_an_exit bought.0 refused
      test_refused refl

submit_order_total_example :
    (answer : Answer Micros) × (submit_order "j"
        (order OrderSide.sell 4)
        PaperExitReason.not_an_exit
        bought.0
      ≡ ok answer)
unfolding bought call submit_order by_side normalized instant normalize_timestamp normalize_symbol
    upper strip open_position close_position entry_block_reason blocked entered exited lookup insert
    erase execution_price transaction_cost market_eq ◌+ℤ◌ ◌-ℤ◌ ◌*ℤ◌ max_ℤ reason_text
submit_order_total_example =
    submit_order_total "j" (order OrderSide.sell 4) PaperExitReason.not_an_exit bought.0 refl refl

abbrev position : PaperPosition Micros
position = record {
  symbol = "TCS";
  market = Market.india;
  quantity = pos 10;
  average_entry_price = pos 1_000_500_000;
  entry_cost_per_unit = pos 500_250;
  stop_loss = pos 950_000_000;
  take_profit = some (pos 1_100_000_000);
  opened_at = 1_700_000_000_000_000;
  metadata = end;
}

abbrev fill : Fill Micros
fill = record { price = pos 949_525_000; gross = pos 9_495_250_000; costs = pos 4_747_625 }

stop_loss_sells_all_example :
    (answer : Answer Micros) × (evaluate_exit "k" " tcs " Market.india
        (Timestamp.naive 1_700_000_100_000_000)
        (pos 940_000_000)
        (pos 1_200_000_000)
        bought.0
      ≡ ok (some answer))
    × IsStopped position answer
unfolding call bought sold refused submit_order by_side normalized instant normalize_timestamp
    normalize_symbol upper strip open_position close_position entry_block_reason blocked entered
    exited lookup insert erase execution_price transaction_cost market_eq ◌+ℤ◌ ◌-ℤ◌ ◌*ℤ◌ max_ℤ
    reason_text
stop_loss_sells_all_example =
    stop_loss_sells_all "k" " tcs " (Timestamp.naive 1_700_000_100_000_000) (pos 940_000_000)
      (pos 1_200_000_000) bought.0 position fill bought_reached refl refl refl refl
