-- ===== src/Markets/Execute/Planning.antt =====
-- What the plan of a fill has checked and computed.
use leagueos_backend.Prelude.{
  ℕ, ◌+◌, ◌-◌, ◌≤◌, ◌<◌, ◌≡◌, ◌≢◌, Bool, true, arith, ok, >>=-eq-ok, ok-injective, subst, refl,
}
use leagueos_backend.Markets.Model.{one, buy, sell, Order, Position, Exchange}
use leagueos_backend.Markets.Money.{notional, calculate_fee}
use leagueos_backend.Markets.Orders.{
  side_eq, is_fillable_status, remaining, apply_fill_to_order, is_price,
}
use leagueos_backend.Markets.Positions.{apply_buy_to_position, apply_sell_to_position}
use leagueos_backend.Markets.Positions.Trades.{apply_sell_to_position_balance}
use leagueos_backend.Markets.Fill.{
  Execution, require_order_sides, require_fillable_orders, require_matching_contract,
  require_distinct_users, require_valid_quantity, require_valid_execution_price,
  require_sufficient_seller_position, get_locked_positions, calculate_buy_wallet_settlement,
  resolve_order_roles, order_by_id,
}
use leagueos_backend.Markets.Execute.{
  Plan, check_orders, plan_fill, plan_of, clean_plan, rate_for, new_fill,
}

-- The conditions under which two orders may trade.
pub record MayTrade (r : Execution) (b s : Order) : Type 0 where
  pub buys : side_eq b.side buy ≡ true
  pub sells : side_eq s.side sell ≡ true
  pub buy_open : is_fillable_status b.status ≡ true
  pub sell_open : is_fillable_status s.status ≡ true
  pub market : b.market ≡ s.market
  pub outcome : b.outcome ≡ s.outcome
  pub users : b.user ≢ s.user
  pub positive : 0 < r.quantity
  pub buy_fits : r.quantity ≤ remaining b
  pub sell_fits : r.quantity ≤ remaining s
  pub price_pos : 0 < r.price
  pub price_lt : r.price < one
  pub within_buy : r.price ≤ b.limit_price
  pub within_sell : s.limit_price ≤ r.price

-- The six checks pass only for orders that may trade.
pub check_orders-MayTrade :
    (r : Execution) (b s : Order) → check_orders r b s ≡ ok tt → MayTrade r b s
unfolding check_orders require_order_sides require_fillable_orders require_matching_contract
    require_distinct_users require_valid_quantity require_valid_execution_price is_price
check_orders-MayTrade r b s h = ground arith

-- What stands in a plan, over the positions that were read.
pub record IsPlanned (r : Execution) (b s : Order) (p : Plan) (buyer seller : Position)
    : Type 0 where
  pub trade : MayTrade r b s
  pub held : r.quantity ≤ seller.quantity
  pub reserved : r.quantity ≤ seller.reserved_quantity
  pub reference : p.fill.execution_reference ≡ r.execution_reference
  pub buy_id : p.fill.buy_order ≡ b.id
  pub sell_id : p.fill.sell_order ≡ s.id
  pub maker_id : p.fill.maker_order ≡ r.maker_order_id
  pub taker_id : p.fill.taker_order ≡ r.taker_order_id
  pub quantity : p.fill.quantity ≡ r.quantity
  pub price : p.fill.price ≡ r.price
  pub buyer_row : p.buyer ≡ apply_buy_to_position buyer r.quantity r.price
  pub seller_row : p.seller ≡ apply_sell_to_position seller r.quantity r.price
  pub buy_row : p.buy_order ≡ apply_fill_to_order b r.quantity r.price
  pub sell_row : p.sell_order ≡ apply_fill_to_order s r.quantity r.price
  pub gross : p.gross ≡ notional r.quantity r.price
  pub settlement :
      p.settlement
      ≡ calculate_buy_wallet_settlement b r.quantity r.price
          (calculate_fee p.gross (rate_for p.rates p.buy_role))
  pub proceeds : p.proceeds ≡ p.gross - calculate_fee p.gross (rate_for p.rates p.sell_role)

resolve_order_roles-ids :
    (r : Execution) (b s : Order) {m t : Order}
    → resolve_order_roles r b s ≡ ok (m, t)
    → (m.id ≡ r.maker_order_id) × (t.id ≡ r.taker_order_id)
unfolding resolve_order_roles order_by_id
resolve_order_roles-ids r b s h = ground arith

plan_of-IsPlanned :
    (r : Execution) (b s m t : Order) (buyer seller : Position) (new : Bool) (now : ℕ)
    (x : Exchange)
    → (m.id ≡ r.maker_order_id) × (t.id ≡ r.taker_order_id)
    → MayTrade r b s
    → require_sufficient_seller_position seller r.quantity ≡ ok tt
    → IsPlanned r b s (plan_of r b s m t buyer new seller now x) buyer seller
unfolding plan_of new_fill require_sufficient_seller_position
plan_of-IsPlanned r b s m t buyer seller new now x ids trade enough = record {
  trade = trade;
  held = ground arith;
  reserved = ground arith;
  reference = refl;
  buy_id = refl;
  sell_id = refl;
  maker_id = ids.0;
  taker_id = ids.1;
  quantity = refl;
  price = refl;
  buyer_row = refl;
  seller_row = refl;
  buy_row = refl;
  sell_row = refl;
  gross = refl;
  settlement = refl;
  proceeds = refl;
}

pub plan_fill-IsPlanned :
    (r : Execution) (b s : Order) (now : ℕ) (x : Exchange) {p : Plan}
    → plan_fill r b s now x ≡ ok p
    → (buyer : Position) × (seller : Position) × (new : Bool) × (get_locked_positions b s x
        ≡ ok (buyer, new, seller))
      × IsPlanned r b s p buyer seller
unfolding plan_fill
plan_fill-IsPlanned r b s now x {p} h =
    let (v, checked, h₁) = >>=-eq-ok (check_orders r b s) _ h in
    let ((m, t), roles, h₂) = >>=-eq-ok (resolve_order_roles r b s) _ h₁ in
    let ((buyer, new, seller), read, h₃) = >>=-eq-ok (get_locked_positions b s x) _ h₂ in
    let (u, enough, h₄) = >>=-eq-ok (require_sufficient_seller_position seller r.quantity) _ h₃ in
    let q = plan_of r b s m t buyer new seller now x in
    let (y, clean, h₅) = >>=-eq-ok (clean_plan q b s x) _ h₄ in
    (
      buyer,
      seller,
      new,
      read,
      subst (λ (k : Plan). IsPlanned r b s k buyer seller) (ok-injective h₅)
          (plan_of-IsPlanned r b s m t buyer seller new now x (resolve_order_roles-ids r b s roles)
            (check_orders-MayTrade r b s checked) enough),
    )

-- A fill moves shares from the seller to the buyer and makes none.
pub plan_fill-shares :
    (r : Execution) (b s : Order) (now : ℕ) (x : Exchange) {p : Plan}
    → plan_fill r b s now x ≡ ok p
    → (buyer : Position) × (seller : Position) × (new : Bool) × (get_locked_positions b s x
        ≡ ok (buyer, new, seller))
      × (p.buyer.quantity ≡ buyer.quantity + r.quantity)
      × (p.seller.quantity + r.quantity ≡ seller.quantity)
unfolding apply_buy_to_position
plan_fill-shares r b s now x h =
    let (buyer, seller, new, read, k) = plan_fill-IsPlanned r b s now x h in
    let sold =
      apply_sell_to_position_balance seller r.quantity r.price k.trade.positive k.held k.reserved in
    (buyer, seller, new, read, rw k.buyer_row, rw k.seller_row sold.0)
