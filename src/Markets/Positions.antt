-- ===== src/Markets/Positions.antt =====
-- Positions: `_apply_buy_to_position`, `_apply_sell_to_position` (markets/services/fill_service.py)
-- and `MarketPosition.clean` (markets/models.py).
pub mod Trades
use leagueos_backend.Prelude.{
  ℕ, ◌+◌, ◌-◌, ◌*◌, ◌^◌, Bool, true, false, not, ◌&&◌, ◌||◌, Option, none, some, List, [], ◌∷◌, map,
  ltb, leb, ◌==◌, if◌then◌else◌, find, select, Result, ok, err, require,
}
use leagueos_backend.Prelude.Int.{ℤ, pos, negsuc, sub_ℕ, ◌+ℤ◌, ◌-ℤ◌, pos_part, neg_part}
use leagueos_backend.Markets.Model.{
  one, Position, Fill, PositionExit, Order, Exchange, Error, invalid_position,
}
use leagueos_backend.Markets.Money.{half_up, half_up_signed, notional}
use leagueos_backend.Markets.Orders.{outcome_belongs, get_order}

-- The position of a user in an outcome of a market.
unfoldable pub get_position : ℕ → ℕ → ℕ → Exchange → Option Position
get_position user market outcome x =
    find (λ p. (p.user == user) && (p.market == market) && (p.outcome == outcome)) x.positions

-- `MarketPosition(user, market, outcome)` with zeros
unfoldable pub empty_position : ℕ → ℕ → ℕ → Exchange → Position
empty_position user market outcome x = record {
  id = x.next_id;
  user = user;
  market = market;
  outcome = outcome;
  quantity = 0;
  reserved_quantity = 0;
  average_entry_price = 0;
  total_cost = 0;
  realized_pnl = pos 0;
}

unfoldable pub apply_buy_to_position : Position → ℕ → ℕ → Position
unfolding half_up notional
apply_buy_to_position p quantity price =
    let new_quantity = p.quantity + quantity in
    let new_cost = p.total_cost + notional quantity price in
    record p {
      quantity = new_quantity;
      total_cost = new_cost;
      average_entry_price = half_up (new_cost * one) new_quantity;
    }

-- The cost that a sale takes out of the position.
unfoldable pub released_cost : Position → ℕ → ℕ
unfolding half_up
released_cost p quantity = half_up (p.total_cost * quantity) p.quantity

unfoldable pub apply_sell_to_position : Position → ℕ → ℕ → Position
unfolding half_up notional released_cost
apply_sell_to_position p quantity price =
    let released = released_cost p quantity in
    let realized_change = sub_ℕ (notional quantity price) released in
    let remaining_quantity = p.quantity - quantity in
    let remaining_cost = p.total_cost - released in
    let sold = record p {
      quantity = remaining_quantity;
      reserved_quantity = p.reserved_quantity - quantity;
      realized_pnl = p.realized_pnl +ℤ realized_change;
    } in
    if remaining_quantity == 0
    then record sold { total_cost = 0; average_entry_price = 0 }
    else record sold {
      total_cost = remaining_cost;
      average_entry_price = half_up (remaining_cost * one) remaining_quantity;
    }

-- `position.full_clean()`: the columns' digits and `clean`.
unfoldable pub clean_position : Position → Exchange → Result Error (Unit {0})
clean_position p x =
    require
      (outcome_belongs p.outcome p.market x
        && leb p.reserved_quantity p.quantity
        && ltb p.quantity (10 ^ 18)
        && ltb p.average_entry_price one
        && ltb p.total_cost (10 ^ 20)
        && ltb (pos_part p.realized_pnl) (10 ^ 20)
        && ltb (neg_part p.realized_pnl) (10 ^ 20))
      invalid_position

-- `position.save(...)`, an insertion for a new row
unfoldable pub save_position : Position → List Position → List Position
save_position p = map (λ x. if x.id == p.id then p else x)
