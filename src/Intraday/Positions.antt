-- ===== src/Intraday/Positions.antt =====
-- app/intraday/positions.py: the virtual positions of the shadow pipeline, a dictionary by their ids.
use trading_ai_alpha_agent.Prelude.{String, ℕ, not, ◌||◌, Option, none, some, if◌then◌else◌}
use trading_ai_alpha_agent.Prelude.Int.{ℤ, pos, leb_ℤ}
use trading_ai_alpha_agent.Prelude.Text.{Dict, eqb, lookup, insert}
use trading_ai_alpha_agent.Prelude.Result.{Result, ok, err, foreign_error}
use trading_ai_alpha_agent.Prelude.Float.{Float, ◌-◌, ◌*◌, of_ℕ, of_ℤ, min, max, abs}
use trading_ai_alpha_agent.Intraday.Costs.{total_cost, calculate_costs}
use trading_ai_alpha_agent.Intraday.Models.{
  Direction, is_filled, MarketDataSnapshot, ShadowOrder, Signal, VirtualPosition,
  VirtualPositionStatus,
}

-- `VirtualPositionManager.positions`
abbrev pub Positions : Type 0 → Type 0
Positions R = Dict (VirtualPosition R)

-- the status that `close_position` gives for its reason
unfoldable pub status_after : String → VirtualPositionStatus
status_after reason =
    if eqb reason "STOP_LOSS"
    then VirtualPositionStatus.stopped_out
    else if eqb reason "TARGET_HIT"
    then VirtualPositionStatus.target_hit
    else if eqb reason "END_OF_DAY"
    then VirtualPositionStatus.force_closed
    else if eqb reason "INVALIDATED"
    then VirtualPositionStatus.invalidated
    else VirtualPositionStatus.exited

module _ {R : Type 0} ⦃f : Float R⦄ where
  -- the position that `open_position` makes of a filled order
  abbrev pub opened_virtual_position : String → Signal R → ShadowOrder R → R → VirtualPosition R
  opened_virtual_position id signal order fill = record {
    position_id = id;
    symbol = signal.symbol;
    market = signal.market;
    direction = signal.direction;
    strategy = signal.strategy_name;
    regime_at_entry = signal.regime_at_signal;
    entry_price = fill;
    stop_loss = signal.stop_loss;
    target_price = signal.target_price;
    quantity = order.quantity;
    risk_amount = abs (fill - signal.stop_loss) * of_ℤ order.quantity;
    status = VirtualPositionStatus.opened;
    entry_reason = signal.reason_codes;
    opened_at = order.timestamp;
    current_price = fill;
    current_pnl = of_ℕ 0;
    gross_pnl = of_ℕ 0;
    net_pnl = of_ℕ 0;
    charges = of_ℕ 0;
    max_favorable_excursion = of_ℕ 0;
    max_adverse_excursion = of_ℕ 0;
    exit_reason = none;
    closed_at = none;
  }

  -- `fill_status != FILLED or simulated_fill is None or quantity <= 0`, and the fill otherwise
  abbrev pub usable_fill : ShadowOrder R → Option R
  usable_fill order =
      if not (is_filled order.fill_status) || leb_ℤ order.quantity (pos 0)
      then none
      else order.simulated_fill

  abbrev opened_with :
      String
      → Signal R
      → ShadowOrder R
      → Positions R
      → Option R
      → Option (VirtualPosition R) × Positions R
  opened_with id signal order positions none = (none, positions)
  opened_with id signal order positions (some fill) =
      let position = opened_virtual_position id signal order fill in
      (some position, insert id position positions)

  -- `VirtualPositionManager.open_position`, with the drawn id
  unfoldable pub open_virtual_position :
      String → Signal R → ShadowOrder R → Positions R → Option (VirtualPosition R) × Positions R
  unfolding insert
  open_virtual_position id signal order positions =
      opened_with id signal order positions (usable_fill order)

  abbrev pub gross_of_direction : Direction → R → R → ℤ → R
  gross_of_direction Direction.long entry price quantity = (price - entry) * of_ℤ quantity
  gross_of_direction Direction.short entry price quantity = (entry - price) * of_ℤ quantity

  -- the charges of a round trip from the entry to a price, the slippage being given
  abbrev pub charges_of : Direction → R → R → ℤ → R → R
  charges_of Direction.long entry price quantity slippage =
      total_cost (calculate_costs (entry * of_ℤ quantity) (price * of_ℤ quantity) slippage)
  charges_of Direction.short entry price quantity slippage =
      total_cost (calculate_costs (price * of_ℤ quantity) (entry * of_ℤ quantity) slippage)

  -- the assignments that `update_mark` and `close_position` share
  abbrev priced : VirtualPosition R → R → R → VirtualPosition R
  priced p price slippage =
      let gross = gross_of_direction p.direction p.entry_price price p.quantity in
      let charges = charges_of p.direction p.entry_price price p.quantity slippage in
      record p {
        current_price = price;
        gross_pnl = gross;
        charges = charges;
        net_pnl = gross - charges;
        current_pnl = gross - charges;
      }

  abbrev pub marked : VirtualPosition R → R → VirtualPosition R
  marked p price =
      let gross = gross_of_direction p.direction p.entry_price price p.quantity in
      let q = priced p price (abs (price - p.entry_price) * of_ℕ 0) in
      record q {
        max_favorable_excursion = max p.max_favorable_excursion gross;
        max_adverse_excursion = min p.max_adverse_excursion gross;
      }

  abbrev pub closed : VirtualPosition R → R → String → ℕ → VirtualPosition R
  closed p price reason moment =
      let q = priced p price (of_ℕ 0) in
      record q { exit_reason = some reason; closed_at = some moment; status = status_after reason }

  -- the position under an id, changed in place, from what stands under the id
  abbrev changed :
      String
      → (VirtualPosition R → VirtualPosition R)
      → Positions R
      → Option (VirtualPosition R)
      → Result (VirtualPosition R) × Positions R
  changed id change positions none = (err (foreign_error "KeyError" id), positions)
  changed id change positions (some p) = (ok (change p), insert id (change p) positions)

  -- `VirtualPositionManager.update_mark`
  unfoldable pub update_mark :
      String → MarketDataSnapshot R → Positions R → Result (VirtualPosition R) × Positions R
  unfolding total_cost calculate_costs lookup insert
  update_mark id s positions =
      changed id (λ p. marked p s.last_price) positions (lookup id positions)

  -- `VirtualPositionManager.close_position`, at the given or the current moment
  unfoldable pub close_virtual_position :
      String → R → String → ℕ → Positions R → Result (VirtualPosition R) × Positions R
  unfolding total_cost calculate_costs status_after lookup insert
  close_virtual_position id price reason moment positions =
      changed id (λ p. closed p price reason moment) positions (lookup id positions)
