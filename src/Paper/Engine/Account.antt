-- ===== src/Paper/Engine/Account.antt =====
-- The engine's public calls: `submit_order`, `evaluate_exit`, `close_open_position`, `snapshot` and
-- `trade_journal`.
use trading_ai_alpha_agent.Prelude.{
  String, ℕ, not, List, [], ◌∷◌, Option, none, some, map, if◌then◌else◌,
}
use trading_ai_alpha_agent.Prelude.Int.{ℤ, pos}
use trading_ai_alpha_agent.Prelude.Text.{Dict, lookup, insert}
use trading_ai_alpha_agent.Prelude.Result.{Result, ok, ◌>>=◌}
use trading_ai_alpha_agent.Prelude.Float.{Float, ◌+◌, ◌-◌, ◌*◌, ◌≤?◌, of_ℕ, of_ℤ}
use trading_ai_alpha_agent.Core.Enums.{Market, OrderSide, market_eq}
use trading_ai_alpha_agent.Schemas.Json.{Json, Fields, field, end}
use trading_ai_alpha_agent.Paper.Symbols.{upper, normalize_symbol, Timestamp, normalize_timestamp}
use trading_ai_alpha_agent.Paper.Models.{
  PaperExitReason, CostModel, PaperOrderRequest, PaperPosition, PaperTradeJournalEntry,
  PaperAccountSnapshot, execution_price, transaction_cost, entry_basis,
}
use trading_ai_alpha_agent.Paper.Engine.State.{PaperTradingEngine, NormalizedRequest}
use trading_ai_alpha_agent.Paper.Engine.Orders.{Answer, open_position, close_position}

-- a given time needs no clock
unfoldable pub instant : Timestamp → ℕ
unfolding normalize_timestamp
instant t = normalize_timestamp 0 (some t)

abbrev pub exit_check : String → Fields
exit_check which = field "exit_check" (Json.text which) end

abbrev pub held : {R : Type 0} → Option (PaperPosition R) → ℤ
held none = pos 0
held (some p) = p.quantity

module _ {R : Type 0} ⦃f : Float R⦄ where
  unfoldable pub normalized : PaperOrderRequest R → NormalizedRequest R
  unfolding normalize_symbol instant
  normalized r = record {
    request = record r { symbol = normalize_symbol r.symbol };
    submitted_at = instant r.submitted_at;
  }

  unfoldable pub by_side :
      String
      → OrderSide
      → NormalizedRequest R
      → PaperExitReason
      → PaperTradingEngine R
      → Result (Answer R)
  unfolding open_position close_position
  by_side id OrderSide.buy n reason e = open_position id n e
  by_side id OrderSide.sell n reason e = close_position id n reason e

  unfoldable pub submit_order :
      String → PaperOrderRequest R → PaperExitReason → PaperTradingEngine R → Result (Answer R)
  unfolding by_side normalized
  submit_order id r reason e = by_side id r.side (normalized r) reason e

  -- the request that sells a whole position at a price
  abbrev pub exit_request : PaperPosition R → R → Timestamp → Fields → PaperOrderRequest R
  exit_request p price t metadata = record {
    symbol = p.symbol;
    market = p.market;
    side = OrderSide.sell;
    quantity = p.quantity;
    reference_price = price;
    submitted_at = t;
    stop_loss = none;
    take_profit = none;
    metadata = metadata;
  }

  -- `position.take_profit is not None and high >= position.take_profit`
  abbrev pub target_hit : Option R → R → Option R
  target_hit none high = none
  target_hit (some target) high = if target ≤? high then some target else none

  abbrev pub returned : Result (Answer R) → Result (Option (Answer R))
  returned r = do answer ← r; ok (some answer)

  unfoldable pub exit_if_hit :
      String
      → PaperPosition R
      → Timestamp
      → R
      → R
      → PaperTradingEngine R
      → Result (Option (Answer R))
  unfolding submit_order
  exit_if_hit id p t low high e =
      if low ≤? p.stop_loss
      then returned (
          submit_order id (exit_request p p.stop_loss t (exit_check "stop_loss"))
            PaperExitReason.stop_loss e)
      else elim (target_hit p.take_profit high) [
        | none ↦ ok none
        | some target ↦ returned (
            submit_order id (exit_request p target t (exit_check "profit_target"))
              PaperExitReason.profit_target e)
      ]

  -- `none` is the returned `None`, which leaves the engine as it was
  unfoldable pub evaluate_exit :
      String
      → String
      → Market
      → Timestamp
      → R
      → R
      → PaperTradingEngine R
      → Result (Option (Answer R))
  unfolding lookup normalize_symbol market_eq exit_if_hit
  evaluate_exit id symbol market t low high e =
      elim (lookup (normalize_symbol symbol) e.positions) [
        | none ↦ ok none
        | some p ↦
            if not (market_eq p.market market) then ok none else exit_if_hit id p t low high e
      ]

  unfoldable pub close_open_position :
      String
      → String
      → Market
      → R
      → Timestamp
      → PaperExitReason
      → PaperTradingEngine R
      → Result (Answer R)
  unfolding lookup normalize_symbol submit_order
  close_open_position id symbol market price t reason e =
      submit_order id
        (record {
          symbol = symbol;
          market = market;
          side = OrderSide.sell;
          quantity = held (lookup (normalize_symbol symbol) e.positions);
          reference_price = price;
          submitted_at = t;
          stop_loss = none;
          take_profit = none;
          metadata = end;
        })
        reason e

  -- `{key.upper(): value for key, value in marks.items()}`, onto the keys already there
  unfoldable pub upper_keys : Dict R → Dict R → Dict R
  unfolding insert upper
  upper_keys [] d = d
  upper_keys ((k, v) ∷ marks) d = upper_keys marks (insert (upper k) v d)

  abbrev pub or_average : Option R → PaperPosition R → R
  or_average none p = p.average_entry_price
  or_average (some mark) p = mark

  -- the loop of `snapshot`, with what its sums have reached: liquidation value and entry basis
  unfoldable pub valued : CostModel R → Dict R → Dict (PaperPosition R) → R × R → Result (R × R)
  unfolding lookup execution_price transaction_cost entry_basis
  valued c marks [] sums = ok sums
  valued c marks ((symbol, p) ∷ positions) sums = do
    sell_price ← execution_price c OrderSide.sell (or_average (lookup symbol marks) p)
    let gross = sell_price * of_ℤ p.quantity
    cost ← transaction_cost c gross
    valued c marks positions (sums.0 + (gross - cost), sums.1 + entry_basis p)

  -- without marks, an empty dictionary
  unfoldable pub snapshot :
      Timestamp → Dict R → PaperTradingEngine R → Result (PaperAccountSnapshot R)
  unfolding instant upper_keys valued
  snapshot t marks e = do
    sums ← valued e.cost_model (upper_keys marks []) e.positions (of_ℕ 0, of_ℕ 0)
    ok (record {
      timestamp = instant t;
      cash = e.cash;
      equity = e.cash + sums.0;
      realized_pnl = e.realized_pnl;
      unrealized_pnl = sums.0 - sums.1;
      total_costs = e.total_costs;
      open_positions = map (λ entry. entry.1) e.positions;
    })

  unfoldable pub trade_journal : PaperTradingEngine R → List (PaperTradeJournalEntry R)
  trade_journal e = e.journal
