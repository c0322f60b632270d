-- ===== src/Markets/Orders.antt =====
-- Orders: what a fill does to an order (`_apply_fill_to_order`, markets/services/fill_service.py),
-- `MarketOrder.clean` (markets/models.py), and reading and saving the rows.
pub mod Filling
use leagueos_backend.Prelude.{
  ℕ, ◌+◌, ◌-◌, ◌*◌, ◌^◌, Bool, true, false, not, ◌&&◌, ◌||◌, Option, none, some, List, ◌∷◌, map,
  ltb, leb, ◌==◌, if◌then◌else◌, find, Result, ok, err, ◌>>=◌, ◌>>◌, raise_if, require, option_eq,
}
use leagueos_backend.Markets.Model.{
  one, Market, Outcome, Side, buy, sell, OrderStatus, open_order, partially_filled, filled,
  TimeInForce, gtd, Order, Exchange, Error, invalid_order,
}
use leagueos_backend.Markets.Money.{half_up, reservation}

unfoldable pub get_order : ℕ → Exchange → Option Order
get_order id x = find (λ o. o.id == id) x.orders

unfoldable pub get_outcome : ℕ → Exchange → Option Outcome
get_outcome id x = find (λ o. o.id == id) x.outcomes

unfoldable pub get_market : ℕ → Exchange → Option Market
get_market id x = find (λ m. m.id == id) x.markets

unfoldable pub save_order : Order → List Order → List Order
save_order o = map (λ x. if x.id == o.id then o else x)

unfoldable pub side_eq : Side → Side → Bool
side_eq buy buy = true
side_eq sell sell = true
side_eq _ _ = false

-- FILLABLE_STATUSES
unfoldable pub is_fillable_status : OrderStatus → Bool
is_fillable_status open_order = true
is_fillable_status partially_filled = true
is_fillable_status _ = false

unfoldable pub is_gtd : TimeInForce → Bool
is_gtd gtd = true
is_gtd _ = false

unfoldable pub is_expired_status : OrderStatus → Bool
is_expired_status OrderStatus.expired = true
is_expired_status _ = false

unfoldable pub remaining : Order → ℕ
remaining o = o.quantity - o.filled_quantity

-- `order.average_fill_price or Decimal("0.00000")`
unfoldable pub previous_average : Order → ℕ
previous_average o = elim o.average_fill_price [ none ↦ 0 | some a ↦ a ]

unfoldable pub apply_fill_to_order : Order → ℕ → ℕ → Order
unfolding half_up previous_average
apply_fill_to_order o quantity price =
    let new_quantity = o.filled_quantity + quantity in
    let weighted_total = o.filled_quantity * previous_average o + quantity * price in
    record o {
      filled_quantity = new_quantity;
      average_fill_price = some (half_up weighted_total new_quantity);
      status = if new_quantity == o.quantity then filled else partially_filled;
    }

-- The outcome belongs to the market.
unfoldable pub outcome_belongs : ℕ → ℕ → Exchange → Bool
outcome_belongs outcome market x = elim (get_outcome outcome x) [
  | none ↦ false
  | some o ↦ o.market == market
]

-- A price strictly between 0 and 1.
unfoldable pub is_price : ℕ → Bool
is_price p = ltb 0 p && ltb p one

-- The expiry of a stored order: set just for GTD, and no later than the market's close.
unfoldable pub expiry_ok : Order → Exchange → Bool
unfolding is_gtd
expiry_ok o x = elim o.expires_at [
  | none ↦ not (is_gtd o.time_in_force)
  | some t ↦ is_gtd o.time_in_force && (elim (get_market o.market x) [
    | none ↦ true
    | some m ↦ elim m.closes_at [ none ↦ true | some c ↦ leb t c ]
  ])
]

-- `order.full_clean()` of an order that is stored already.
unfoldable pub clean_order : Order → Exchange → Result Error (Unit {0})
unfolding is_price
clean_order o x =
    require
      (outcome_belongs o.outcome o.market x
        && ltb 0 o.quantity
        && is_price o.limit_price
        && leb o.filled_quantity o.quantity
        && (elim o.average_fill_price [ none ↦ true | some a ↦ is_price a ])
        && expiry_ok o x
        && (if is_expired_status o.status
            then not (option_eq o.expired_at none)
            else option_eq o.expired_at none))
      invalid_order

-- The funds that the remaining quantity of a buy order must hold in reserve.
unfoldable pub reserved_for : Order → ℕ
reserved_for o = reservation (remaining o) o.limit_price o.maximum_fee_bps
