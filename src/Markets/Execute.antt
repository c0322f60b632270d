-- ===== src/Markets/Execute.antt =====
-- `execute_fill` (MarketFillService, markets/services/fill_service.py): the checks and the new rows
-- of a fill are its plan, and the commit saves them, moves the money and records the fees. The
-- notification that is scheduled after the commit changes no table.
pub mod Planning
pub mod Committing
pub mod Outcomes
pub mod Banking
use leagueos_backend.Prelude.{
  ℕ, ◌+◌, ◌-◌, Bool, true, false, Option, none, some, List, ◌∷◌, ltb, ◌==◌, if◌then◌else◌, Result,
  ok, err, ◌>>=◌, ◌>>◌,
}
use leagueos_backend.Prelude.Int.{pos}
use leagueos_backend.Wallets.Model as Bank
use leagueos_backend.Wallets.Normalize.{units}
use leagueos_backend.Wallets.Service.{Request, credit, release, reserve, consume_reserved}
use leagueos_backend.Markets.Model.{
  Order, Position, Fill, FeeSchedule, FeeType, Exchange, Label, buyer_reserved_consumption,
  buyer_price_improvement_release, buyer_reservation_rounding_top_up, seller_proceeds_credit, Error,
  wallet,
}
use leagueos_backend.Markets.Money.{notional, calculate_fee}
use leagueos_backend.Markets.Fees.{Rates, FeeCharge, rates, record_fee}
use leagueos_backend.Markets.Orders.{save_order, apply_fill_to_order, clean_order}
use leagueos_backend.Markets.Positions.{
  apply_buy_to_position, apply_sell_to_position, clean_position, save_position,
}
use leagueos_backend.Markets.Exits.{record_exit}
use leagueos_backend.Markets.Fill.{
  Execution, replay_or, get_locked_orders, require_order_sides, require_fillable_orders,
  require_matching_contract, require_distinct_users, require_valid_quantity,
  require_valid_execution_price, resolve_order_roles, get_locked_positions,
  require_sufficient_seller_position, clean_fill, Settlement, calculate_buy_wallet_settlement,
}

-- The rows and the amounts of a fill that has passed its checks.
pub record Plan : Type 0 where
  pub fill : Fill
  pub buy_order : Order
  pub sell_order : Order
  pub buyer : Position
  pub buyer_is_new : Bool
  pub seller : Position
  pub settlement : Settlement
  pub gross : ℕ
  pub proceeds : ℕ
  pub schedule : Option FeeSchedule
  pub rates : Rates
  pub buy_role : FeeType
  pub sell_role : FeeType

-- `"maker" if maker_order.id == order.id else "taker"`
unfoldable pub role : Order → Order → FeeType
role m o = if m.id == o.id then FeeType.maker else FeeType.taker

-- `fee_rates[role]`
unfoldable pub rate_for : Rates → FeeType → ℕ
rate_for r FeeType.maker = r.maker
rate_for r FeeType.taker = r.taker
rate_for r FeeType.settlement = r.settlement
rate_for r FeeType.refund = r.refund

unfoldable pub new_fill : Execution → Order → Order → Order → Order → ℕ → Exchange → Fill
new_fill r b s m t now x = record {
  id = x.next_id + 1;
  execution_reference = r.execution_reference;
  market = b.market;
  outcome = b.outcome;
  buy_order = b.id;
  sell_order = s.id;
  maker_order = m.id;
  taker_order = t.id;
  quantity = r.quantity;
  price = r.price;
  created_at = now;
}

-- The checks of the two orders alone.
unfoldable pub check_orders : Execution → Order → Order → Result Error (Unit {0})
check_orders r b s = do
  require_order_sides b s
  require_fillable_orders b s
  require_matching_contract b s
  require_distinct_users b s
  require_valid_quantity r.quantity b s
  require_valid_execution_price r.price b s

-- The new rows and the amounts, from the roles and the positions.
unfoldable pub plan_of :
    Execution → Order → Order → Order → Order → Position → Bool → Position → ℕ → Exchange → Plan
plan_of r b s m t buyer is_new seller now x =
    let (schedule, fee_rates) = rates b.market now x in
    let gross = notional r.quantity r.price in
    let buyer_fee = calculate_fee gross (rate_for fee_rates (role m b)) in
    let seller_fee = calculate_fee gross (rate_for fee_rates (role m s)) in
    record {
      fill = new_fill r b s m t now x;
      buy_order = apply_fill_to_order b r.quantity r.price;
      sell_order = apply_fill_to_order s r.quantity r.price;
      buyer = apply_buy_to_position buyer r.quantity r.price;
      buyer_is_new = is_new;
      seller = apply_sell_to_position seller r.quantity r.price;
      settlement = calculate_buy_wallet_settlement b r.quantity r.price buyer_fee;
      gross = gross;
      proceeds = gross - seller_fee;
      schedule = schedule;
      rates = fee_rates;
      buy_role = role m b;
      sell_role = role m s;
    }

-- The `full_clean()` of the fill, over the orders as they were, and of the changed rows.
unfoldable pub clean_plan : Plan → Order → Order → Exchange → Result Error (Unit {0})
clean_plan p b s x = do
  clean_fill p.fill b s x
  clean_order p.buy_order x
  clean_order p.sell_order x
  clean_position p.buyer x
  clean_position p.seller x

-- From the order checks to the last `full_clean()`.
unfoldable pub plan_fill : Execution → Order → Order → ℕ → Exchange → Result Error Plan
plan_fill r b s now x = do
  check_orders r b s
  (m, t) ← resolve_order_roles r b s
  (buyer, is_new, seller) ← get_locked_positions b s x
  require_sufficient_seller_position seller r.quantity
  let p = plan_of r b s m t buyer is_new seller now x
  clean_plan p b s x
  ok p

-- The saves of the orders, the seller's and the buyer's position and the fill, and the exit of a
-- seller who has sold everything.
unfoldable pub store_rows : Plan → Exchange → Exchange
store_rows p x =
    let sellers = save_position p.seller x.positions in
    let positions = if p.buyer_is_new then p.buyer ∷ sellers else save_position p.buyer sellers in
    let stored = record x {
      orders = save_order p.sell_order (save_order p.buy_order x.orders);
      positions = positions;
      fills = p.fill ∷ x.fills;
      next_id = x.next_id + 2;
    } in
    if p.seller.quantity == 0 then (record_exit p.seller p.fill stored).1 else stored

-- The market currency.
abbrev pub market_currency : Bank.Text
market_currency = Bank.codes "UGX"

-- The wallet call of a fill for a user.
unfoldable pub fill_request : Fill → Order → ℕ → ℕ → Request
fill_request f o amount reference = record {
  user = o.user;
  currency = market_currency;
  amount = units (pos amount);
  idempotency_reference = some reference;
  context = record {
    market = some f.market;
    order = some o.id;
    fill = some f.id;
    transaction = none;
  };
  counterparty_account = none;
}

-- A wallet operation of the bank, its error passed on.
unfoldable pub bank_call :
    (Request → Bank.Database → Result Bank.Error (Bank.LedgerEntry × Bank.Database))
    → Request
    → Bank.Database
    → Result Error Bank.Database
bank_call operation r bank = elim (operation r bank) [
  | ok (entry, bank') ↦ ok bank'
  | err e ↦ err (wallet e)
]

-- `if amount > 0: operation(...)`
unfoldable pub bank_call_if_positive :
    (Request → Bank.Database → Result Bank.Error (Bank.LedgerEntry × Bank.Database))
    → (ℕ → Request)
    → ℕ
    → Bank.Database
    → Result Error Bank.Database
unfolding bank_call
bank_call_if_positive operation r amount bank =
    if ltb 0 amount then bank_call operation (r amount) bank else ok bank

-- The fee entry of one side of the fill.
unfoldable pub fee_charge : Plan → Order → FeeType → FeeCharge
fee_charge p o kind = record {
  parent = p.fill.id;
  market = p.fill.market;
  participant = o.user;
  fee_type = kind;
  rate_bps = rate_for p.rates kind;
  gross = p.gross;
  order = some o.id;
  fill = some p.fill.id;
  schedule = p.schedule;
}

module _ (uuid5 : ℕ → Label → ℕ) where
  unfoldable pub settle_buy_wallet :
      Fill → Order → Settlement → Bank.Database → Result Error Bank.Database
  settle_buy_wallet f b s bank = do
    bank₁ ←
        bank_call_if_positive consume_reserved
          (λ n. fill_request f b n (uuid5 f.id buyer_reserved_consumption)) s.actual_cost bank
    bank₂ ←
        bank_call_if_positive release
          (λ n. fill_request f b n (uuid5 f.id buyer_price_improvement_release))
          s.price_improvement_release bank₁
    bank_call_if_positive reserve
        (λ n. fill_request f b n (uuid5 f.id buyer_reservation_rounding_top_up))
        s.reservation_rounding_top_up bank₂

  -- `credit` is called also for proceeds of zero, which it refuses.
  unfoldable pub credit_seller_wallet :
      Fill → Order → ℕ → Bank.Database → Result Error Bank.Database
  credit_seller_wallet f s proceeds bank =
      bank_call credit (fill_request f s proceeds (uuid5 f.id seller_proceeds_credit)) bank

  unfoldable pub commit_fill : Plan → Exchange → Result Error (Fill × Exchange)
  commit_fill p x = do
    let stored = store_rows p x
    bank₁ ← settle_buy_wallet p.fill p.buy_order p.settlement stored.bank
    bank₂ ← credit_seller_wallet p.fill p.sell_order p.proceeds bank₁
    (buy_entry, x₁) ←
        record_fee uuid5 (fee_charge p p.buy_order p.buy_role) (record stored { bank = bank₂ })
    (sell_entry, x₂) ← record_fee uuid5 (fee_charge p p.sell_order p.sell_role) x₁
    ok (p.fill, x₂)

  unfoldable pub execute_fill : Execution → ℕ → Exchange → Result Error (Fill × Exchange)
  execute_fill r now x =
      replay_or r x do
        (b, s) ← get_locked_orders r x
        replay_or r x do p ← plan_fill r b s now x; commit_fill p x
