-- ===== src/Markets/Tests.antt =====
-- A concrete fill, and the theorems at it.
use leagueos_backend.Prelude.{
  ℕ, ◌+◌, ◌*◌, ◌≤◌, ◌≡◌, ◌↔◌, refl, List, Bool, true, false, some, none, [], ◌∷◌, ok, err, Result,
  arith, find,
}
use leagueos_backend.Prelude.Int.{pos, ◌+ℤ◌, sub_ℕ}
use leagueos_backend.Wallets.Model as Bank
use leagueos_backend.Markets.Model.{
  Subject, MarketScope, Market, Outcome, open_market, yes_side, no_side, opening, treasury_debit,
  buy, sell, Order, open_order, filled, gtc, Position, Fill, Exchange, Label, Error, FeeType, maker,
  taker, settlement, refund, fee, execution, buyer_reserved_consumption,
  buyer_price_improvement_release, buyer_reservation_rounding_top_up, seller_proceeds_credit,
  cancellation_release, expiry_release, collateral_lock, collateral_settlement, payout, complement,
  role_consume, role_improvement, role_topup, FeeSchedule, ScheduleStatus,
}
use leagueos_backend.Markets.Money.{
  half_up, notional, calculate_fee, reservation, calculate_buy_commitment,
}
use leagueos_backend.Markets.Orders.{
  get_order, remaining, reserved_for, is_fillable_status, apply_fill_to_order,
}
use leagueos_backend.Markets.Orders.Filling.{IsValid, apply_fill_to_order-IsValid}
use leagueos_backend.Markets.Positions.{released_cost, apply_sell_to_position, empty_position}
use leagueos_backend.Markets.Positions.Trades.{apply_sell_to_position_balance}
use leagueos_backend.Markets.Fill.{
  Execution, get_existing_fill, get_locked_positions, calculate_buy_wallet_settlement,
}
use leagueos_backend.Markets.Fill.Settling.{settlement_balance, top_up-le}
use leagueos_backend.Markets.Execute.{Plan, plan_of, plan_fill, execute_fill}
use leagueos_backend.Markets.Execute.Planning.{MayTrade, plan_fill-shares}
use leagueos_backend.Markets.Execute.Outcomes.{
  execute_fill-MayTrade, execute_fill-replay, execute_fill-dust,
}
use leagueos_backend.Wallets.Normalize.{units}
use leagueos_backend.Wallets.Transition.{credit_available, reserve_available}
use leagueos_backend.Wallets.Ledger.{IsConsistent}
use leagueos_backend.Wallets.Service.{Request}
use leagueos_backend.Wallets.History.{Command, operate, atomic, run, run_all}
use leagueos_backend.Wallets.History.Invariant.{run_all-IsConsistent}
use leagueos_backend.Markets.Execute.Banking.{execute_fill-IsConsistent}

abbrev fee_code : FeeType → ℕ
fee_code maker = 0
fee_code taker = 1
fee_code settlement = 2
fee_code refund = 3

-- A derivation of keys that gives different keys to the names used here.
abbrev pub derive_key : ℕ → Label → ℕ
derive_key n buyer_reserved_consumption = 1000 + 10 * n
derive_key n buyer_price_improvement_release = 1001 + 10 * n
derive_key n buyer_reservation_rounding_top_up = 1002 + 10 * n
derive_key n seller_proceeds_credit = 1003 + 10 * n
derive_key n (fee kind user) = 1004 + fee_code kind + 10 * n
derive_key n (execution b s k) = 1009 + 10 * n
derive_key n cancellation_release = 1000 + 10 * n
derive_key n expiry_release = 1001 + 10 * n
derive_key n (opening m) = 2005 + 10 * m
derive_key n treasury_debit = 2004 + 10 * n
derive_key n collateral_lock = 2008 + 10 * n
derive_key n collateral_settlement = 2007 + 10 * n
derive_key n (payout m p o) = 2006 + 10 * p
derive_key n (complement m a b) = 2009 + 10 * n
derive_key n (role_consume kind) = 1000 + fee_code kind + 10 * n
derive_key n (role_improvement kind) = 1002 + fee_code kind + 10 * n
derive_key n (role_topup kind) = 1008 + fee_code kind + 10 * n

-- The buyer's reserved funds and the seller's, as the wallet service has made them.
abbrev empty_bank : Bank.Database
empty_bank = record {
  wallets = [];
  entries = [];
  transactions = [];
  withdrawals = [];
  audit = [];
  providers = [];
  deposit_intents = [];
  next_id = 10;
}

abbrev pub funds : ℕ → ℕ → ℕ → Request
funds user amount reference = record {
  user = user;
  currency = Bank.codes "UGX";
  amount = units (pos amount);
  idempotency_reference = some reference;
  context = record { market = none; order = none; fill = none; transaction = none };
  counterparty_account = none;
}

abbrev opening_calls : List Command
opening_calls =
    operate credit_available true (funds 1 61_200 501)
    ∷ operate reserve_available false (funds 1 61_200 502)
    ∷ operate credit_available true (funds 2 500 503)
    ∷ []

-- No call of the opening derives a key.
abbrev pub no_key : ℕ → Bank.Label → ℕ
no_key n l = 0

abbrev pub bank : Bank.Database
bank = run_all no_key opening_calls empty_bank

pub bank-IsConsistent : IsConsistent bank
bank-IsConsistent =
    run_all-IsConsistent no_key opening_calls empty_bank
      (record { chained = tt; balanced = tt; owned = tt })

-- Ten shares at 0.60, with a fee of at most 2 per cent.
abbrev pub buy_order : Order
buy_order = record {
  id = 3;
  user = 1;
  market = 1;
  outcome = 2;
  side = buy;
  quantity = 100_000;
  limit_price = 60_000;
  filled_quantity = 0;
  average_fill_price = none;
  status = open_order;
  time_in_force = gtc;
  expires_at = none;
  expired_at = none;
  maximum_fee_bps = 200;
  created_at = 1;
}

abbrev pub sell_order : Order
sell_order = record buy_order {
  id = 4;
  user = 2;
  side = sell;
  quantity = 40_000;
  limit_price = 40_000;
  maximum_fee_bps = 0;
}

-- The seller holds four shares, which cost 0.30 each.
abbrev pub seller_position : Position
seller_position = record {
  id = 5;
  user = 2;
  market = 1;
  outcome = 2;
  quantity = 40_000;
  reserved_quantity = 40_000;
  average_entry_price = 30_000;
  total_cost = 12_000;
  realized_pnl = pos 0;
}

abbrev pub schedule : FeeSchedule
schedule = record {
  id = 6;
  market = none;
  version = 1;
  status = ScheduleStatus.active;
  maker_fee_bps = 0;
  taker_fee_bps = 100;
  settlement_fee_bps = 0;
  refund_fee_bps = 0;
  effective_at = 0;
  created_by = 8;
  activated_by = some 9;
  activated_at = some 0;
  retired_by = none;
  retired_at = none;
}

abbrev pub football : Subject
football = record {
  scope_type = MarketScope.custom;
  custom_subject = Bank.codes "final";
  sport = some 1;
  category = 1;
  template = none;
  event_group = none;
  sporting_event = none;
  competition = none;
  participant = none;
}

abbrev pub market_row : Market
market_row = record {
  id = 1;
  status = open_market;
  opens_at = some 1;
  closes_at = some 1_000;
  settles_by = none;
  subject = football;
  rules = Bank.codes "rules";
  resolution_source = Bank.codes "source";
  resolution_criteria = Bank.codes "criteria";
  approved_by = none;
  approved_at = none;
  approval_notes = [];
  resolved_by = none;
  resolved_at = none;
  resolution_notes = [];
  resolution_evidence = [];
  winning_outcome = none;
}

abbrev pub yes_outcome : Outcome
yes_outcome = record {
  id = 2;
  market = 1;
  side = yes_side;
  position = 1;
  opening_price = some 60_000;
}

abbrev pub no_outcome : Outcome
no_outcome = record {
  id = 7;
  market = 1;
  side = no_side;
  position = 2;
  opening_price = some 40_000;
}

abbrev pub exchange : Exchange
exchange = record {
  bank = bank;
  markets = market_row ∷ [];
  outcomes = yes_outcome ∷ [];
  orders = buy_order ∷ sell_order ∷ [];
  positions = seller_position ∷ [];
  fills = [];
  schedules = schedule ∷ [];
  fee_entries = [];
  exits = [];
  expiries = [];
  cleanups = [];
  close_cancellations = [];
  pools = [];
  issuances = [];
  collateral_entries = [];
  provisional_results = [];
  disputes = [];
  decisions = [];
  settlements = [];
  position_settlements = [];
  void_refunds = [];
  liquidity_providers = [];
  liquidity_configurations = [];
  transitions = [];
  next_id = 20;
}

-- All four shares at 0.50, the sell order resting.
abbrev trade : Execution
trade = record {
  execution_reference = 77;
  buy_order_id = 3;
  sell_order_id = 4;
  maker_order_id = 4;
  taker_order_id = 3;
  quantity = 40_000;
  price = 50_000;
}

-- What a call returns, and the exchange it leaves.
abbrev made : Fill → Result Error (Fill × Exchange) → Fill
made f (ok (g, x)) = g
made f (err e) = f

abbrev left : Exchange → Result Error (Fill × Exchange) → Exchange
left x (ok (f, y)) = y
left x (err e) = x

-- A fill that no call returns.
abbrev no_fill : Fill
no_fill = record {
  id = 0;
  execution_reference = 0;
  market = 0;
  outcome = 0;
  buy_order = 0;
  sell_order = 0;
  maker_order = 0;
  taker_order = 0;
  quantity = 0;
  price = 0;
  created_at = 0;
}

abbrev new_row : Fill
new_row = made no_fill (execute_fill derive_key trade 5 exchange)

abbrev after_trade : Exchange
after_trade = left exchange (execute_fill derive_key trade 5 exchange)

trade_made : execute_fill derive_key trade 5 exchange ≡ ok (new_row, after_trade)
unfolding atomic run run_all half_up leagueos_backend.Markets.Money.ceiling
    leagueos_backend.Markets.Money.negate leagueos_backend.Markets.Money.half_up_signed notional
    calculate_fee reservation calculate_buy_commitment leagueos_backend.Markets.Fees.is_active
    leagueos_backend.Markets.Fees.is_draft leagueos_backend.Markets.Fees.comes_first
    leagueos_backend.Markets.Fees.first_schedule leagueos_backend.Markets.Fees.effective_schedule
    leagueos_backend.Markets.Fees.rates_of leagueos_backend.Markets.Fees.rates
    leagueos_backend.Markets.Fees.maximum_order_fee leagueos_backend.Markets.Fees.clean_schedule
    leagueos_backend.Markets.Fees.save_schedule leagueos_backend.Markets.Fees.latest_version
    leagueos_backend.Markets.Fees.fee_type_eq leagueos_backend.Markets.Fees.schedule_id
    leagueos_backend.Markets.Fees.schedule_version leagueos_backend.Markets.Fees.fee_entry
    leagueos_backend.Markets.Fees.fee_entry_eq leagueos_backend.Markets.Fees.clean_fee_entry
    leagueos_backend.Markets.Fees.find_fee_entry leagueos_backend.Markets.Fees.record_fee get_order
    leagueos_backend.Markets.Orders.get_outcome leagueos_backend.Markets.Orders.get_market
    leagueos_backend.Markets.Orders.save_order leagueos_backend.Markets.Orders.side_eq
    is_fillable_status leagueos_backend.Markets.Orders.is_gtd
    leagueos_backend.Markets.Orders.is_expired_status remaining
    leagueos_backend.Markets.Orders.previous_average apply_fill_to_order
    leagueos_backend.Markets.Orders.outcome_belongs leagueos_backend.Markets.Orders.is_price
    leagueos_backend.Markets.Orders.expiry_ok leagueos_backend.Markets.Orders.clean_order
    reserved_for leagueos_backend.Markets.Positions.get_position empty_position
    leagueos_backend.Markets.Positions.apply_buy_to_position released_cost apply_sell_to_position
    leagueos_backend.Markets.Positions.clean_position
    leagueos_backend.Markets.Positions.save_position leagueos_backend.Markets.Exits.is_order_of
    leagueos_backend.Markets.Exits.count_fill leagueos_backend.Markets.Exits.count_fills
    leagueos_backend.Markets.Exits.total_realized leagueos_backend.Markets.Exits.cycle_fills
    leagueos_backend.Markets.Exits.exit_of leagueos_backend.Markets.Exits.record_exit
    get_existing_fill leagueos_backend.Markets.Fill.require_matching_replay
    leagueos_backend.Markets.Fill.replay_or leagueos_backend.Markets.Fill.get_locked_orders
    leagueos_backend.Markets.Fill.require_order_sides
    leagueos_backend.Markets.Fill.require_fillable_orders
    leagueos_backend.Markets.Fill.require_matching_contract
    leagueos_backend.Markets.Fill.require_distinct_users
    leagueos_backend.Markets.Fill.require_valid_quantity
    leagueos_backend.Markets.Fill.require_valid_execution_price
    leagueos_backend.Markets.Fill.order_by_id leagueos_backend.Markets.Fill.resolve_order_roles
    get_locked_positions leagueos_backend.Markets.Fill.require_sufficient_seller_position
    leagueos_backend.Markets.Fill.clean_fill calculate_buy_wallet_settlement
    leagueos_backend.Markets.Execute.role leagueos_backend.Markets.Execute.rate_for
    leagueos_backend.Markets.Execute.new_fill leagueos_backend.Markets.Execute.check_orders plan_of
    leagueos_backend.Markets.Execute.clean_plan plan_fill
    leagueos_backend.Markets.Execute.store_rows leagueos_backend.Markets.Execute.fill_request
    leagueos_backend.Markets.Execute.bank_call
    leagueos_backend.Markets.Execute.bank_call_if_positive
    leagueos_backend.Markets.Execute.fee_charge leagueos_backend.Markets.Execute.settle_buy_wallet
    leagueos_backend.Markets.Execute.credit_seller_wallet
    leagueos_backend.Markets.Execute.commit_fill execute_fill
    leagueos_backend.Wallets.Normalize.is_space leagueos_backend.Wallets.Normalize.drop_spaces
    leagueos_backend.Wallets.Normalize.strip leagueos_backend.Wallets.Normalize.upper
    leagueos_backend.Wallets.Normalize.is_alpha
    leagueos_backend.Wallets.Normalize.normalize_currency
    leagueos_backend.Wallets.Normalize.normalize_amount
    leagueos_backend.Wallets.Normalize.normalize_reference
    leagueos_backend.Wallets.Normalize.normalize_text
    leagueos_backend.Wallets.Transition.calculate_transition
    leagueos_backend.Wallets.Transition.credit_account
    leagueos_backend.Wallets.Transition.is_internal leagueos_backend.Wallets.Transition.is_credit
    leagueos_backend.Wallets.Transition.is_internal_entry
    leagueos_backend.Wallets.Transition.entry_type_eq leagueos_backend.Wallets.Transition.account_eq
    leagueos_backend.Wallets.Transition.entry_matches_operation
    leagueos_backend.Wallets.Execute.get_existing_entry
    leagueos_backend.Wallets.Execute.get_locked_wallet leagueos_backend.Wallets.Execute.get_wallet
    leagueos_backend.Wallets.Execute.same_context leagueos_backend.Wallets.Execute.replay_matches
    leagueos_backend.Wallets.Execute.require_matching_replay
    leagueos_backend.Wallets.Execute.replay_or leagueos_backend.Wallets.Execute.save_wallet
    leagueos_backend.Wallets.Execute.new_wallet leagueos_backend.Wallets.Execute.insert_wallet
    leagueos_backend.Wallets.Execute.obtain_wallet leagueos_backend.Wallets.Execute.clean_wallet
    leagueos_backend.Wallets.Execute.clean_entry leagueos_backend.Wallets.Execute.post
    leagueos_backend.Wallets.Execute.after_lock leagueos_backend.Wallets.Execute.perform
    leagueos_backend.Wallets.Service.execute leagueos_backend.Wallets.Service.credit
    leagueos_backend.Wallets.Service.reserve leagueos_backend.Wallets.Service.release
    leagueos_backend.Wallets.Service.debit_available
    leagueos_backend.Wallets.Service.consume_reserved find leagueos_backend.Prelude.select
    leagueos_backend.Prelude.option_eq leagueos_backend.Prelude.text_eq ◌+ℤ◌
    leagueos_backend.Prelude.Int.◌-ℤ◌
trade_made = refl

execute_fill-MayTrade_example :
    (b : Order) × (s : Order) × (get_order 3 exchange ≡ some b)
    × (get_order 4 exchange ≡ some s)
    × MayTrade trade b s
    × (after_trade.fills ≡ new_row ∷ exchange.fills)
unfolding get_existing_fill find
execute_fill-MayTrade_example =
    execute_fill-MayTrade derive_key trade 5 exchange new_row after_trade refl trade_made

execute_fill-replay_example :
    execute_fill derive_key trade 9 after_trade ≡ ok (new_row, after_trade)
execute_fill-replay_example =
    execute_fill-replay derive_key trade 5 exchange new_row after_trade 9 trade_made

execute_fill-IsConsistent_example : IsConsistent after_trade.bank
execute_fill-IsConsistent_example =
    execute_fill-IsConsistent derive_key trade 5 exchange new_row after_trade bank-IsConsistent
      trade_made

-- A ten-thousandth of a share at 0.40.
abbrev dust : Execution
dust = record trade { quantity = 1; price = 40_000 }

execute_fill-dust_example : ¬ (execute_fill derive_key dust 5 exchange ≡ ok (new_row, after_trade))
unfolding get_existing_fill find notional half_up
execute_fill-dust_example =
    execute_fill-dust derive_key dust 5 exchange new_row after_trade refl refl

settlement_balance_example :
    let s =
      calculate_buy_wallet_settlement buy_order 40_000 50_000
        (calculate_fee (notional 40_000 50_000) 100) in
    s.actual_cost
      + s.price_improvement_release
      + reserved_for (apply_fill_to_order buy_order 40_000 50_000)
    ≡ reserved_for buy_order + s.reservation_rounding_top_up
unfolding remaining
settlement_balance_example = settlement_balance buy_order 40_000 50_000 100 (omega arith)

top_up-le_example :
    let s =
      calculate_buy_wallet_settlement buy_order 40_000 60_000
        (calculate_fee (notional 40_000 60_000) 200) in
    s.reservation_rounding_top_up ≤ 2
unfolding remaining
top_up-le_example =
    top_up-le buy_order 40_000 60_000 200 (omega arith) (omega arith) (omega arith) (omega arith)

buy_order-IsValid : IsValid buy_order
unfolding is_fillable_status
buy_order-IsValid = record {
  positive = omega arith;
  within = omega arith;
  average = refl;
  fillable = λ h. omega arith;
}

apply_fill_to_order-IsValid_example :
    let o' = apply_fill_to_order buy_order 40_000 50_000 in
    IsValid o'
    × (remaining o' + 40_000 ≡ remaining buy_order)
    × ((o'.status ≡ filled) ↔ (remaining o' ≡ 0))
unfolding remaining
apply_fill_to_order-IsValid_example =
    apply_fill_to_order-IsValid buy_order 40_000 50_000 buy_order-IsValid (omega arith)
      (omega arith) (omega arith) (omega arith)

apply_sell_to_position_balance_example :
    let p' = apply_sell_to_position seller_position 10_000 50_000 in
    (p'.quantity + 10_000 ≡ 40_000)
    × (p'.reserved_quantity + 10_000 ≡ 40_000)
    × (p'.total_cost + released_cost seller_position 10_000 ≡ 12_000)
    × (p'.realized_pnl
        ≡ pos 0 +ℤ sub_ℕ (notional 10_000 50_000) (released_cost seller_position 10_000))
apply_sell_to_position_balance_example =
    apply_sell_to_position_balance seller_position 10_000 50_000 (omega arith) (omega arith)
      (omega arith)

-- The plan of the trade.
abbrev trade_plan : Plan
trade_plan =
    plan_of trade buy_order sell_order sell_order buy_order (empty_position 1 1 2 exchange) true
      seller_position 5 exchange

plan_made : plan_fill trade buy_order sell_order 5 exchange ≡ ok trade_plan
unfolding half_up leagueos_backend.Markets.Money.ceiling leagueos_backend.Markets.Money.negate
    leagueos_backend.Markets.Money.half_up_signed notional calculate_fee reservation
    calculate_buy_commitment leagueos_backend.Markets.Fees.is_active
    leagueos_backend.Markets.Fees.is_draft leagueos_backend.Markets.Fees.comes_first
    leagueos_backend.Markets.Fees.first_schedule leagueos_backend.Markets.Fees.effective_schedule
    leagueos_backend.Markets.Fees.rates_of leagueos_backend.Markets.Fees.rates
    leagueos_backend.Markets.Fees.maximum_order_fee leagueos_backend.Markets.Fees.clean_schedule
    leagueos_backend.Markets.Fees.save_schedule leagueos_backend.Markets.Fees.latest_version
    leagueos_backend.Markets.Fees.fee_type_eq leagueos_backend.Markets.Fees.schedule_id
    leagueos_backend.Markets.Fees.schedule_version leagueos_backend.Markets.Fees.fee_entry
    leagueos_backend.Markets.Fees.fee_entry_eq leagueos_backend.Markets.Fees.clean_fee_entry
    leagueos_backend.Markets.Fees.find_fee_entry leagueos_backend.Markets.Fees.record_fee get_order
    leagueos_backend.Markets.Orders.get_outcome leagueos_backend.Markets.Orders.get_market
    leagueos_backend.Markets.Orders.save_order leagueos_backend.Markets.Orders.side_eq
    is_fillable_status leagueos_backend.Markets.Orders.is_gtd
    leagueos_backend.Markets.Orders.is_expired_status remaining
    leagueos_backend.Markets.Orders.previous_average apply_fill_to_order
    leagueos_backend.Markets.Orders.outcome_belongs leagueos_backend.Markets.Orders.is_price
    leagueos_backend.Markets.Orders.expiry_ok leagueos_backend.Markets.Orders.clean_order
    reserved_for leagueos_backend.Markets.Positions.get_position empty_position
    leagueos_backend.Markets.Positions.apply_buy_to_position released_cost apply_sell_to_position
    leagueos_backend.Markets.Positions.clean_position
    leagueos_backend.Markets.Positions.save_position leagueos_backend.Markets.Exits.is_order_of
    leagueos_backend.Markets.Exits.count_fill leagueos_backend.Markets.Exits.count_fills
    leagueos_backend.Markets.Exits.total_realized leagueos_backend.Markets.Exits.cycle_fills
    leagueos_backend.Markets.Exits.exit_of leagueos_backend.Markets.Exits.record_exit
    get_existing_fill leagueos_backend.Markets.Fill.require_matching_replay
    leagueos_backend.Markets.Fill.replay_or leagueos_backend.Markets.Fill.get_locked_orders
    leagueos_backend.Markets.Fill.require_order_sides
    leagueos_backend.Markets.Fill.require_fillable_orders
    leagueos_backend.Markets.Fill.require_matching_contract
    leagueos_backend.Markets.Fill.require_distinct_users
    leagueos_backend.Markets.Fill.require_valid_quantity
    leagueos_backend.Markets.Fill.require_valid_execution_price
    leagueos_backend.Markets.Fill.order_by_id leagueos_backend.Markets.Fill.resolve_order_roles
    get_locked_positions leagueos_backend.Markets.Fill.require_sufficient_seller_position
    leagueos_backend.Markets.Fill.clean_fill calculate_buy_wallet_settlement
    leagueos_backend.Markets.Execute.role leagueos_backend.Markets.Execute.rate_for
    leagueos_backend.Markets.Execute.new_fill leagueos_backend.Markets.Execute.check_orders plan_of
    leagueos_backend.Markets.Execute.clean_plan plan_fill
    leagueos_backend.Markets.Execute.store_rows leagueos_backend.Markets.Execute.fill_request
    leagueos_backend.Markets.Execute.bank_call
    leagueos_backend.Markets.Execute.bank_call_if_positive
    leagueos_backend.Markets.Execute.fee_charge leagueos_backend.Markets.Execute.settle_buy_wallet
    leagueos_backend.Markets.Execute.credit_seller_wallet
    leagueos_backend.Markets.Execute.commit_fill find leagueos_backend.Prelude.select
    leagueos_backend.Prelude.option_eq leagueos_backend.Prelude.text_eq ◌+ℤ◌
    leagueos_backend.Prelude.Int.◌-ℤ◌
plan_made = refl

plan_fill-shares_example :
    (buyer : Position) × (seller : Position) × (new : Bool) × (get_locked_positions buy_order
        sell_order exchange
      ≡ ok (buyer, new, seller))
    × (trade_plan.buyer.quantity ≡ buyer.quantity + 40_000)
    × (trade_plan.seller.quantity + 40_000 ≡ seller.quantity)
plan_fill-shares_example = plan_fill-shares trade buy_order sell_order 5 exchange plan_made
