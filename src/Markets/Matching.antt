-- ===== src/Markets/Matching.antt =====
-- MarketMatchingService (markets/services/matching_service.py): the makers of an order in the order
-- of price and time, and the loop that fills against them. What `match_order` does after its loop,
-- the complementary matching of buy orders, is not part of this file.
pub mod Priority
pub mod Runs
pub mod Tests
use leagueos_backend.Prelude.{
  ℕ, ◌+◌, ◌-◌, Bool, true, false, not, ◌&&◌, ◌||◌, Option, none, some, List, [], ◌∷◌, ltb, leb,
  ◌==◌, if◌then◌else◌, min, select, Result, ok, err, ◌>>=◌, or_raise,
}
use leagueos_backend.Markets.Model.{
  one, Market, MarketStatus, open_market, Outcome, OutcomeSide, yes_side, no_side, Side, buy, sell,
  Order, Fill, Exchange, Label, execution, Error, missing_order, TimeInForce, fok,
}
use leagueos_backend.Markets.Orders.{
  get_order, get_market, get_outcome, side_eq, is_fillable_status, is_gtd, remaining,
}
use leagueos_backend.Markets.Fill.{Execution}
use leagueos_backend.Markets.Execute.{execute_fill}

-- GTD, with an expiry that has passed
unfoldable pub is_lapsed : ℕ → Order → Bool
is_lapsed now o =
    is_gtd o.time_in_force && (elim o.expires_at [ none ↦ false | some t ↦ leb t now ])

unfoldable pub is_fillable : ℕ → Order → Bool
is_fillable now o = is_fillable_status o.status && ltb 0 (remaining o) && not (is_lapsed now o)

-- The price of the maker is within the taker's limit.
unfoldable pub is_within : Order → Order → Bool
is_within taker maker =
    if side_eq taker.side buy
    then leb maker.limit_price taker.limit_price
    else leb taker.limit_price maker.limit_price

unfoldable pub is_eligible_maker : ℕ → Order → Order → Bool
is_eligible_maker now taker maker =
    is_fillable now maker
    && (maker.market == taker.market)
    && (maker.outcome == taker.outcome)
    && not (maker.user == taker.user)
    && not (side_eq maker.side taker.side)
    && is_within taker maker

-- The key `(±limit_price, created_at, id)`: `a` stands before `b`.
unfoldable pub is_better_price : Order → Order → Order → Bool
is_better_price taker a b =
    if side_eq taker.side sell
    then ltb b.limit_price a.limit_price
    else ltb a.limit_price b.limit_price

unfoldable pub is_older : Order → Order → Bool
is_older a b = ltb a.created_at b.created_at || ((a.created_at == b.created_at) && leb a.id b.id)

unfoldable pub has_priority : Order → Order → Order → Bool
has_priority taker a b =
    is_better_price taker a b || ((a.limit_price == b.limit_price) && is_older a b)

-- `sorted(eligible, key=...)`
unfoldable pub insert_maker : Order → Order → List Order → List Order
insert_maker taker o [] = o ∷ []
insert_maker taker o (p ∷ ps) =
    let rest = insert_maker taker o ps in if has_priority taker o p then o ∷ p ∷ ps else p ∷ rest

unfoldable pub sort_makers : Order → List Order → List Order
sort_makers taker [] = []
sort_makers taker (o ∷ os) = insert_maker taker o (sort_makers taker os)

-- `_candidate_ids` and `_lock_and_prioritize_makers`
unfoldable pub prioritize_makers : ℕ → Order → Exchange → List Order
prioritize_makers now taker x =
    sort_makers taker
      (select (λ o. is_eligible_maker now taker o && not (o.id == taker.id)) x.orders)

unfoldable pub total_remaining : List Order → ℕ
total_remaining [] = 0
total_remaining (o ∷ os) = remaining o + total_remaining os

unfoldable pub is_side : OutcomeSide → OutcomeSide → Bool
is_side yes_side yes_side = true
is_side no_side no_side = true
is_side _ _ = false

-- `outcome__side=opposite` for an order of the taker's market
unfoldable pub is_opposite : Order → Exchange → Order → Bool
is_opposite taker x o = elim (get_outcome taker.outcome x) [
  | none ↦ false
  | some a ↦ elim (get_outcome o.outcome x) [ none ↦ false | some b ↦ not (is_side a.side b.side) ]
]

-- The buy orders of the other outcome that could complete a FOK buy order.
unfoldable pub complementary_quantity : Order → Exchange → ℕ
complementary_quantity taker x = total_remaining (
    select
      (λ o.
        (o.market == taker.market)
        && is_opposite taker x o
        && side_eq o.side buy
        && is_fillable_status o.status
        && leb one (o.limit_price + taker.limit_price)
        && ltb o.filled_quantity o.quantity
        && not (o.user == taker.user)
        && not (o.id == taker.id))
      x.orders)

unfoldable pub is_fok : TimeInForce → Bool
is_fok fok = true
is_fok _ = false

-- A FOK order that the book cannot fill is left alone.
unfoldable pub can_start : Order → List Order → Exchange → Bool
can_start taker makers x =
    if is_fok taker.time_in_force
    then leb (remaining taker) (
        total_remaining makers
        + (if side_eq taker.side buy then complementary_quantity taker x else 0))
    else true

-- The market is open and closes later.
unfoldable pub is_trading : ℕ → Order → Exchange → Bool
is_trading now taker x = elim (get_market taker.market x) [
  | none ↦ false
  | some m ↦ is_open m.status && (elim m.closes_at [ none ↦ false | some t ↦ ltb now t ])
]
  where
    is_open : MarketStatus → Bool
    is_open open_market = true
    is_open _ = false

-- The arguments of the fill of the taker against a maker.
unfoldable pub execution_of : (ℕ → Label → ℕ) → Order → Order → Execution
execution_of uuid5 taker maker = record {
  execution_reference =
      uuid5 taker.id (execution maker.id taker.filled_quantity maker.filled_quantity);
  buy_order_id = if side_eq taker.side buy then taker.id else maker.id;
  sell_order_id = if side_eq taker.side sell then taker.id else maker.id;
  maker_order_id = maker.id;
  taker_order_id = taker.id;
  quantity = min (remaining taker) (remaining maker);
  price = maker.limit_price;
}

module _ (uuid5 : ℕ → Label → ℕ) (now : ℕ) where
  -- The loop over the makers: the taker is read again after each fill.
  unfoldable pub match_makers : ℕ → List Order → Exchange → Result Error (List Fill × Exchange)
  match_makers id [] x = ok ([], x)
  match_makers id (maker ∷ makers) x = do
    taker ← or_raise (get_order id x) missing_order
    (if is_fillable now taker
        then (if is_eligible_maker now taker maker
            then (execute_fill uuid5 (execution_of uuid5 taker maker) now x >>= λ (f, x').
                match_makers id makers x' >>= λ (fs, x''). ok (f ∷ fs, x''))
            else match_makers id makers x)
        else ok ([], x))

  -- `match_order` up to the end of its loop.
  unfoldable pub match_book : ℕ → Exchange → Result Error (List Fill × Exchange)
  match_book id x = do
    taker ← or_raise (get_order id x) missing_order
    let makers = prioritize_makers now taker x
    (if is_fillable now taker && is_trading now taker x && can_start taker makers x
        then match_makers id makers x
        else ok ([], x))
