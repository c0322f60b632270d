-- ===== src/Markets/Complements.antt =====
-- ComplementaryBuyMatchingService (markets/services/complementary_matching_service.py): two buy
-- orders, one for each outcome of a market, whose limits add up to at least 1 are filled together.
-- New shares of both outcomes are issued, and their collateral is locked
-- (`lock_complementary_collateral`, markets/services/liquidity_service.py). `match` is one atomic
-- transaction; `match_order` (markets/services/matching_service.py) calls it after its own loop.
pub mod Loops
pub mod Banking
pub mod Pools
pub mod Collateral
pub mod Prices
pub mod Tests
use leagueos_backend.Prelude.{
  ℕ, ◌+◌, ◌-◌, Bool, true, false, not, ◌&&◌, ◌||◌, Option, none, some, List, [], ◌∷◌, map, ltb, leb,
  ◌==◌, if◌then◌else◌, min, select, find, any, sort_by, Result, ok, err, ◌>>=◌, ◌>>◌, require,
  raise_if, or_raise,
}
use leagueos_backend.Wallets.Model as Bank
use leagueos_backend.Wallets.Service.{release, reserve, consume_reserved}
use leagueos_backend.Markets.Model.{
  one, Side, buy, yes_side, Order, Position, Fill, FeeSchedule, FeeType, FeeEntry, CollateralPool,
  active, CompleteSetIssuance, complementary_buys, CollateralEntry, complementary_buy_lock,
  Exchange, Label, collateral_lock, complement, role_consume, role_improvement, role_topup, Error,
  missing_order, invalid_issuance, invalid_collateral_entry,
}
use leagueos_backend.Markets.Money.{notional, calculate_fee}
use leagueos_backend.Markets.Fees.{Rates, rates, record_fee}
use leagueos_backend.Markets.Orders.{
  get_order, get_outcome, save_order, side_eq, is_fillable_status, remaining, apply_fill_to_order,
  clean_order,
}
use leagueos_backend.Markets.Positions.{
  get_position, empty_position, apply_buy_to_position, clean_position, save_position,
}
use leagueos_backend.Markets.Fill.{Settlement, calculate_buy_wallet_settlement}
use leagueos_backend.Markets.Execute.{rate_for, bank_call_if_positive}
use leagueos_backend.Markets.Cancellation.{order_request}
use leagueos_backend.Markets.Matching.{
  is_fillable, is_side, is_opposite, is_older, prioritize_makers, can_start, is_trading,
  match_makers,
}

-- The open buy orders of other users for the other outcome, the oldest first.
unfoldable pub is_candidate : Order → Exchange → Order → Bool
is_candidate taker x o =
    (o.market == taker.market)
    && is_opposite taker x o
    && side_eq o.side buy
    && is_fillable_status o.status
    && ltb o.filled_quantity o.quantity
    && not (o.user == taker.user)
    && not (o.id == taker.id)

unfoldable pub candidates : Order → Exchange → List Order
candidates taker x = sort_by is_older (select (is_candidate taker x) x.orders)

unfoldable pub is_yes_order : Order → Exchange → Bool
is_yes_order o x = elim (get_outcome o.outcome x) [
  | none ↦ false
  | some outcome ↦ is_side outcome.side yes_side
]

unfoldable pub complement_price : Order → ℕ
complement_price maker = one - maker.limit_price

-- What is left for the taker to pay lies between 0 and 1 and within its limit.
unfoldable pub is_affordable : Order → Order → Bool
is_affordable taker maker =
    ltb 0 (complement_price maker)
    && ltb (complement_price maker) one
    && leb (complement_price maker) taker.limit_price

unfoldable pub new_issuance : Order → Order → ℕ → ℕ → Exchange → CompleteSetIssuance
new_issuance taker maker quantity reference x =
    let maker_is_yes = is_yes_order maker x in
    record {
      id = x.next_id;
      market = taker.market;
      issuance_type = complementary_buys;
      quantity = quantity;
      collateral_amount = quantity;
      yes_execution_price = if maker_is_yes then maker.limit_price else complement_price maker;
      no_execution_price = if maker_is_yes then complement_price maker else maker.limit_price;
      yes_order = some (if maker_is_yes then maker.id else taker.id);
      no_order = some (if maker_is_yes then taker.id else maker.id);
      idempotency_reference = reference;
    }

-- `issuance.full_clean()`
unfoldable pub clean_issuance : CompleteSetIssuance → Result Error (Unit {0})
clean_issuance i =
    require
      (ltb 0 i.quantity
        && (i.collateral_amount == i.quantity)
        && (i.yes_execution_price + i.no_execution_price == one))
      invalid_issuance

unfoldable pub insert_issuance : CompleteSetIssuance → Exchange → Exchange
insert_issuance i x = record x { issuances = i ∷ x.issuances; next_id = x.next_id + 1 }

unfoldable pub get_issuance : ℕ → Exchange → Option CompleteSetIssuance
get_issuance reference x = find (λ i. i.idempotency_reference == reference) x.issuances

-- `MarketPosition.objects.get_or_create(...)`
unfoldable pub get_or_create_position : Order → Exchange → Position × Exchange
get_or_create_position o x = elim (get_position o.user o.market o.outcome x) [
  | some p ↦ (p, x)
  | none ↦
      (let p = empty_position o.user o.market o.outcome x in
        (p, record x { positions = p ∷ x.positions; next_id = x.next_id + 1 }))
]

-- `MarketCollateralPool.objects.get_or_create(market=market)`
unfoldable pub get_pool : ℕ → Exchange → Option CollateralPool
get_pool market x = find (λ p. p.market == market) x.pools

abbrev pub new_pool : ℕ → CollateralPool
new_pool market = record {
  market = market;
  locked_collateral = 0;
  settled_collateral = 0;
  released_collateral = 0;
  status = active;
}

unfoldable pub get_or_create_pool : ℕ → Exchange → CollateralPool × Exchange
get_or_create_pool market x = elim (get_pool market x) [
  | some p ↦ (p, x)
  | none ↦ (new_pool market, record x { pools = new_pool market ∷ x.pools })
]

unfoldable pub save_pool : CollateralPool → List CollateralPool → List CollateralPool
save_pool p = map (λ q. if q.market == p.market then p else q)

-- A row that repeats a reference is refused by the table.
unfoldable pub insert_collateral_entry : CollateralEntry → Exchange → Result Error Exchange
insert_collateral_entry e x = do
  raise_if (any (λ f. f.idempotency_reference == e.idempotency_reference) x.collateral_entries)
      invalid_collateral_entry
  require (ltb 0 e.amount) invalid_collateral_entry
  ok (record x { collateral_entries = e ∷ x.collateral_entries })

-- One of the two orders of an issuance, with its price and its role.
pub record Leg : Type 0 where
  pub order : Order
  pub price : ℕ
  pub role : FeeType

-- The new rows of a leg, and what its buyer pays.
unfoldable pub leg_settlement : Leg → ℕ → Rates → Settlement
leg_settlement l quantity fee_rates =
    let gross = notional quantity l.price in
    calculate_buy_wallet_settlement l.order quantity l.price
      (calculate_fee gross (rate_for fee_rates l.role))

unfoldable pub store_leg : Leg → ℕ → Exchange → Result Error Exchange
store_leg l quantity x = do
  let (p, x₁) = get_or_create_position l.order x
  let o' = apply_fill_to_order l.order quantity l.price
  let p' = apply_buy_to_position p quantity l.price
  clean_order o' x₁
  clean_position p' x₁
  ok (record x₁ { orders = save_order o' x₁.orders; positions = save_position p' x₁.positions })

module _ (uuid5 : ℕ → Label → ℕ) where
  unfoldable pub pay_leg :
      CompleteSetIssuance → Leg → Settlement → Bank.Database → Result Error Bank.Database
  pay_leg i l s bank = do
    bank₁ ←
        bank_call_if_positive consume_reserved
          (λ n. order_request l.order n (uuid5 i.id (role_consume l.role))) s.actual_cost bank
    bank₂ ←
        bank_call_if_positive release
          (λ n. order_request l.order n (uuid5 i.id (role_improvement l.role)))
          s.price_improvement_release bank₁
    bank_call_if_positive reserve (λ n. order_request l.order n (uuid5 i.id (role_topup l.role)))
        s.reservation_rounding_top_up bank₂

  -- The body of the loop over the two orders.
  unfoldable pub fill_leg :
      CompleteSetIssuance → Option FeeSchedule → Rates → Leg → Exchange → Result Error Exchange
  fill_leg i schedule fee_rates l x = do
    let s = leg_settlement l i.quantity fee_rates
    x₁ ← store_leg l i.quantity x
    bank ← pay_leg i l s x₁.bank
    (entry, x₂) ←
        record_fee uuid5
          (record {
            parent = i.id;
            market = l.order.market;
            participant = l.order.user;
            fee_type = l.role;
            rate_bps = rate_for fee_rates l.role;
            gross = notional i.quantity l.price;
            order = some l.order.id;
            fill = none;
            schedule = schedule;
          })
          (record x₁ { bank = bank })
    ok x₂

  -- `lock_complementary_collateral` of the issuance's quantity
  unfoldable pub lock_complementary_collateral :
      CompleteSetIssuance → Exchange → Result Error Exchange
  lock_complementary_collateral i x = do
    let (pool, x₁) = get_or_create_pool i.market x
    let pool' = record pool { locked_collateral = pool.locked_collateral + i.quantity }
    insert_collateral_entry
        (record {
          market = i.market;
          entry_type = complementary_buy_lock;
          amount = i.quantity;
          idempotency_reference = uuid5 i.id collateral_lock;
          actor = none;
          issuance = some i.id;
        })
        (record x₁ { pools = save_pool pool' x₁.pools })

  module _ (now : ℕ) where
    -- A new issuance: its row, the maker's and the taker's leg, and the collateral.
    unfoldable pub issue :
        Order → Order → ℕ → ℕ → Exchange → Result Error (CompleteSetIssuance × Exchange)
    issue taker maker quantity reference x = do
      let i = new_issuance taker maker quantity reference x
      clean_issuance i
      let (schedule, fee_rates) = rates taker.market now x
      x₁ ←
          fill_leg i schedule fee_rates
            (record { order = maker; price = maker.limit_price; role = FeeType.maker })
            (insert_issuance i x)
      x₂ ←
          fill_leg i schedule fee_rates
            (record { order = taker; price = complement_price maker; role = FeeType.taker }) x₁
      x₃ ← lock_complementary_collateral i x₂
      ok (i, x₃)

    unfoldable pub complement_reference : Order → Order → ℕ
    complement_reference taker maker =
        uuid5 taker.id (complement maker.id taker.filled_quantity maker.filled_quantity)

    -- An issuance under the reference is returned, else there is a new one.
    unfoldable pub issue_once :
        Order → Order → ℕ → Exchange → Result Error (CompleteSetIssuance × Exchange)
    issue_once taker maker quantity x =
        let reference = complement_reference taker maker in
        elim (get_issuance reference x) [
          | some i ↦ ok (i, x)
          | none ↦ issue taker maker quantity reference x
        ]

    -- The loop over the candidates: the taker is read again after each issuance.
    unfoldable pub match_candidates :
        ℕ → List ℕ → Exchange → Result Error (List CompleteSetIssuance × Exchange)
    match_candidates id [] x = ok ([], x)
    match_candidates id (candidate ∷ ids) x = do
      taker ← or_raise (get_order id x) missing_order
      (if is_fillable_status taker.status
          then (or_raise (get_order candidate x) missing_order >>= λ maker.
              let quantity = min (remaining taker) (remaining maker) in
              if is_affordable taker maker && ltb 0 quantity
              then (issue_once taker maker quantity x >>= λ (i, x').
                  match_candidates id ids x' >>= λ (rest, x''). ok (i ∷ rest, x''))
              else match_candidates id ids x)
          else ok ([], x))

    -- `ComplementaryBuyMatchingService.match`
    unfoldable pub match_complements :
        ℕ → Exchange → Result Error (List CompleteSetIssuance × Exchange)
    match_complements id x = do
      taker ← or_raise (get_order id x) missing_order
      (if side_eq taker.side buy && is_fillable_status taker.status
          then match_candidates id (map (λ o. o.id) (candidates taker x)) x
          else ok ([], x))

    -- What follows the loop of `match_order`.
    unfoldable pub complete_match : ℕ → List Fill → Exchange → Result Error (List Fill × Exchange)
    complete_match id fills x = do
      taker ← or_raise (get_order id x) missing_order
      (if is_fillable now taker && side_eq taker.side buy
          then (match_complements id x >>= λ (is, x'). ok (fills, x'))
          else ok (fills, x))

    unfoldable pub match_order : ℕ → Exchange → Result Error (List Fill × Exchange)
    match_order id x = do
      taker ← or_raise (get_order id x) missing_order
      let makers = prioritize_makers now taker x
      (if is_fillable now taker && is_trading now taker x && can_start taker makers x
          then (match_makers uuid5 now id makers x >>= λ (fills, x'). complete_match id fills x')
          else ok ([], x))
