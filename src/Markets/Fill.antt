-- ===== src/Markets/Fill.antt =====
-- MarketFillService (markets/services/fill_service.py): the execution of one fill between a buy and
-- a sell order. The call is one atomic transaction: an error leaves the exchange as it was.
-- `uuid5` is the standard library's derivation of a UUID; `now` is `timezone.now()` in seconds.
pub mod Settling
use leagueos_backend.Prelude.{
  ℕ, ◌+◌, ◌-◌, ◌*◌, ◌^◌, Bool, true, false, not, ◌&&◌, ◌||◌, Option, none, some, List, ◌∷◌, ltb,
  leb, ◌==◌, if◌then◌else◌, find, Result, ok, err, ◌>>=◌, ◌>>◌, require, raise_if, or_raise,
}
use leagueos_backend.Prelude.Int.{pos}
use leagueos_backend.Wallets.Model as Bank
use leagueos_backend.Wallets.Normalize.{units}
use leagueos_backend.Wallets.Service.{Request, credit, release, reserve, consume_reserved}
use leagueos_backend.Markets.Model.{
  one, Side, buy, sell, Order, Position, Fill, FeeSchedule, maker, taker, FeeType, Exchange, Label,
  buyer_reserved_consumption, buyer_price_improvement_release, buyer_reservation_rounding_top_up,
  seller_proceeds_credit, Error, wallet, reference_reused, same_order, missing_order, wrong_side,
  not_fillable, wrong_market, wrong_outcome, self_trade, quantity_not_positive, quantity_too_large,
  price_out_of_range, price_beyond_limit, unknown_maker, unknown_taker, same_role, no_position,
  position_too_small, reserved_position_too_small, invalid_fill,
}
use leagueos_backend.Markets.Money.{notional, calculate_fee, reservation}
use leagueos_backend.Markets.Fees.{Rates, rates, record_fee}
use leagueos_backend.Markets.Orders.{
  get_order, save_order, side_eq, is_fillable_status, remaining, apply_fill_to_order,
  outcome_belongs, is_price, clean_order,
}
use leagueos_backend.Markets.Positions.{
  get_position, empty_position, apply_buy_to_position, apply_sell_to_position, clean_position,
  save_position,
}
use leagueos_backend.Markets.Exits.{record_exit}

-- The arguments of `execute_fill`.
pub record Execution : Type 0 where
  pub execution_reference : ℕ
  pub buy_order_id : ℕ
  pub sell_order_id : ℕ
  pub maker_order_id : ℕ
  pub taker_order_id : ℕ
  pub quantity : ℕ
  pub price : ℕ

unfoldable pub get_existing_fill : ℕ → Exchange → Option Fill
get_existing_fill reference x = find (λ f. f.execution_reference == reference) x.fills

unfoldable pub require_matching_replay : Fill → Execution → Result Error (Unit {0})
require_matching_replay f r =
    require
      ((f.buy_order == r.buy_order_id)
        && (f.sell_order == r.sell_order_id)
        && (f.maker_order == r.maker_order_id)
        && (f.taker_order == r.taker_order_id)
        && (f.quantity == r.quantity)
        && (f.price == r.price))
      reference_reused

-- A fill under the reference is returned, if it is the same; else the call goes on.
unfoldable pub replay_or :
    Execution → Exchange → Result Error (Fill × Exchange) → Result Error (Fill × Exchange)
replay_or r x next = elim (get_existing_fill r.execution_reference x) [
  | some f ↦ require_matching_replay f r >> ok (f, x)
  | none ↦ next
]

unfoldable pub get_locked_orders : Execution → Exchange → Result Error (Order × Order)
get_locked_orders r x = do
  raise_if (r.buy_order_id == r.sell_order_id) same_order
  b ← or_raise (get_order r.buy_order_id x) missing_order
  s ← or_raise (get_order r.sell_order_id x) missing_order
  ok (b, s)

-- The six checks between the locks and the roles, in the order of the code.
unfoldable pub require_order_sides : Order → Order → Result Error (Unit {0})
require_order_sides b s = require (side_eq b.side buy && side_eq s.side sell) wrong_side

unfoldable pub require_fillable_orders : Order → Order → Result Error (Unit {0})
require_fillable_orders b s =
    require (is_fillable_status b.status && is_fillable_status s.status) not_fillable

unfoldable pub require_matching_contract : Order → Order → Result Error (Unit {0})
require_matching_contract b s = do
  require (b.market == s.market) wrong_market
  require (b.outcome == s.outcome) wrong_outcome

unfoldable pub require_distinct_users : Order → Order → Result Error (Unit {0})
require_distinct_users b s = raise_if (b.user == s.user) self_trade

unfoldable pub require_valid_quantity : ℕ → Order → Order → Result Error (Unit {0})
require_valid_quantity quantity b s = do
  require (ltb 0 quantity) quantity_not_positive
  raise_if (ltb (remaining b) quantity || ltb (remaining s) quantity) quantity_too_large

unfoldable pub require_valid_execution_price : ℕ → Order → Order → Result Error (Unit {0})
require_valid_execution_price price b s = do
  require (is_price price) price_out_of_range
  raise_if (ltb b.limit_price price || ltb price s.limit_price) price_beyond_limit

-- The maker and the taker among the two orders.
unfoldable pub order_by_id : ℕ → Order → Order → Option Order
order_by_id id b s = if id == s.id then some s else if id == b.id then some b else none

unfoldable pub resolve_order_roles : Execution → Order → Order → Result Error (Order × Order)
resolve_order_roles r b s = do
  m ← or_raise (order_by_id r.maker_order_id b s) unknown_maker
  t ← or_raise (order_by_id r.taker_order_id b s) unknown_taker
  raise_if (r.maker_order_id == r.taker_order_id) same_role
  ok (m, t)

-- The buyer's position, with `true` if it has no row yet, and the seller's.
unfoldable pub get_locked_positions :
    Order → Order → Exchange → Result Error (Position × Bool × Position)
get_locked_positions b s x = do
  seller ← or_raise (get_position s.user b.market b.outcome x) no_position
  elim (get_position b.user b.market b.outcome x) [
    | some buyer ↦ ok (buyer, false, seller)
    | none ↦ ok (empty_position b.user b.market b.outcome x, true, seller)
  ]

unfoldable pub require_sufficient_seller_position : Position → ℕ → Result Error (Unit {0})
require_sufficient_seller_position p quantity = do
  raise_if (ltb p.quantity quantity) position_too_small
  raise_if (ltb p.reserved_quantity quantity) reserved_position_too_small

-- `fill.full_clean()`
unfoldable pub clean_fill : Fill → Order → Order → Exchange → Result Error (Unit {0})
clean_fill f b s x =
    require
      (side_eq b.side buy
        && side_eq s.side sell
        && (b.market == f.market)
        && (s.market == f.market)
        && (b.outcome == f.outcome)
        && (s.outcome == f.outcome)
        && outcome_belongs f.outcome f.market x
        && ((f.maker_order == f.buy_order) || (f.maker_order == f.sell_order))
        && ((f.taker_order == f.buy_order) || (f.taker_order == f.sell_order))
        && not (f.maker_order == f.taker_order)
        && not (b.user == s.user)
        && ltb 0 f.quantity
        && ltb f.quantity (10 ^ 18)
        && is_price f.price)
      invalid_fill

-- What the buyer pays, and what of the reservation goes back or must be added.
pub record Settlement : Type 0 where
  pub actual_cost : ℕ
  pub price_improvement_release : ℕ
  pub reservation_rounding_top_up : ℕ

unfoldable pub calculate_buy_wallet_settlement : Order → ℕ → ℕ → ℕ → Settlement
calculate_buy_wallet_settlement b quantity price actual_fee =
    let remaining_before = remaining b in
    let remaining_after = remaining_before - quantity in
    let reservation_before = reservation remaining_before b.limit_price b.maximum_fee_bps in
    let reservation_after = reservation remaining_after b.limit_price b.maximum_fee_bps in
    let reservation_reduction = reservation_before - reservation_after in
    let actual_cost = notional quantity price + actual_fee in
    record {
      actual_cost = actual_cost;
      price_improvement_release = reservation_reduction - actual_cost;
      reservation_rounding_top_up = actual_cost - reservation_reduction;
    }
