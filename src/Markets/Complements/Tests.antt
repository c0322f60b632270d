-- ===== src/Markets/Complements/Tests.antt =====
-- A concrete issue to two buyers, and the theorems at it.
use leagueos_backend.Prelude.{
  ℕ, ◌+◌, ◌≤◌, ◌≡◌, refl, Bool, true, false, List, [], ◌∷◌, some, none, ok, err, Result, arith,
}
use leagueos_backend.Wallets.Model as Bank
use leagueos_backend.Wallets.Transition.{credit_available, reserve_available}
use leagueos_backend.Wallets.Ledger.{IsConsistent}
use leagueos_backend.Wallets.History.{Command, operate, run_all}
use leagueos_backend.Wallets.History.Invariant.{run_all-IsConsistent}
use leagueos_backend.Markets.Model.{Order, Fill, Exchange, Error}
use leagueos_backend.Markets.Money.{notional, calculate_fee}
use leagueos_backend.Markets.Fees.{Rates}
use leagueos_backend.Markets.Complements.{leg_settlement, match_order}
use leagueos_backend.Markets.Complements.Banking.{match_order-IsConsistent}
use leagueos_backend.Markets.Complements.Pools.{locked, issued}
use leagueos_backend.Markets.Complements.Collateral.{match_order-locked}
use leagueos_backend.Markets.Complements.Prices.{maker_leg, taker_leg, leg_settlement-covers}
use leagueos_backend.Markets.Tests.{
  derive_key, exchange, yes_outcome, no_outcome, buy_order, funds, no_key, bank, bank-IsConsistent,
}

-- A second buyer, with funds for four shares of the other outcome at 0.45.
abbrev more_funds : List Command
more_funds =
    operate credit_available true (funds 2 18_360 504)
    ∷ operate reserve_available false (funds 2 18_360 505)
    ∷ []

abbrev two_buyers : Bank.Database
two_buyers = run_all no_key more_funds bank

two_buyers-IsConsistent : IsConsistent two_buyers
two_buyers-IsConsistent = run_all-IsConsistent no_key more_funds bank bank-IsConsistent

abbrev no_order : Order
no_order = record buy_order {
  id = 4;
  user = 2;
  outcome = 7;
  quantity = 40_000;
  limit_price = 45_000;
}

abbrev book : Exchange
book = record exchange {
  bank = two_buyers;
  outcomes = yes_outcome ∷ no_outcome ∷ [];
  orders = buy_order ∷ no_order ∷ [];
  positions = [];
}

abbrev value_of {ℓ} : {A : Type ℓ} → A → Result Error A → A
value_of a (ok b) = b
value_of a (err e) = a

abbrev after_match : List Fill × Exchange
after_match = value_of ([], book) (match_order derive_key 5 3 book)

order_matched : match_order derive_key 5 3 book ≡ ok (after_match.0, after_match.1)
unfolding leagueos_backend.Prelude.find leagueos_backend.Prelude.select leagueos_backend.Prelude.any
    leagueos_backend.Prelude.option_eq leagueos_backend.Prelude.text_eq
    leagueos_backend.Prelude.take leagueos_backend.Prelude.total leagueos_backend.Prelude.insert_by
    leagueos_backend.Prelude.sort_by leagueos_backend.Wallets.Normalize.is_space
    leagueos_backend.Wallets.Normalize.drop_spaces leagueos_backend.Wallets.Normalize.strip
    leagueos_backend.Wallets.Normalize.upper leagueos_backend.Wallets.Normalize.is_alpha
    leagueos_backend.Wallets.Normalize.normalize_currency
    leagueos_backend.Wallets.Normalize.normalize_amount
    leagueos_backend.Wallets.Normalize.normalize_reference
    leagueos_backend.Wallets.Normalize.normalize_text
    leagueos_backend.Wallets.Transition.calculate_transition
    leagueos_backend.Wallets.Transition.credit_account
    leagueos_backend.Wallets.Transition.is_internal leagueos_backend.Wallets.Transition.is_credit
    leagueos_backend.Wallets.Transition.is_internal_entry
    leagueos_backend.Wallets.Transition.entry_type_eq leagueos_backend.Wallets.Transition.account_eq
    leagueos_backend.Wallets.Transition.entry_matches_operation
    leagueos_backend.Wallets.Execute.get_existing_entry
    leagueos_backend.Wallets.Execute.get_locked_wallet leagueos_backend.Wallets.Execute.get_wallet
    leagueos_backend.Wallets.Execute.same_context leagueos_backend.Wallets.Execute.replay_matches
    leagueos_backend.Wallets.Execute.require_matching_replay
    leagueos_backend.Wallets.Execute.replay_or leagueos_backend.Wallets.Execute.save_wallet
    leagueos_backend.Wallets.Execute.new_wallet leagueos_backend.Wallets.Execute.insert_wallet
    leagueos_backend.Wallets.Execute.obtain_wallet leagueos_backend.Wallets.Execute.clean_wallet
    leagueos_backend.Wallets.Execute.clean_entry leagueos_backend.Wallets.Execute.post
    leagueos_backend.Wallets.Execute.after_lock leagueos_backend.Wallets.Execute.perform
    leagueos_backend.Wallets.Service.execute leagueos_backend.Wallets.Service.credit
    leagueos_backend.Wallets.Service.reserve leagueos_backend.Wallets.Service.release
    leagueos_backend.Wallets.Service.debit_available
    leagueos_backend.Wallets.Service.consume_reserved leagueos_backend.Wallets.History.atomic
    leagueos_backend.Wallets.History.run leagueos_backend.Wallets.History.run_all
    leagueos_backend.Markets.Money.half_up leagueos_backend.Markets.Money.ceiling
    leagueos_backend.Markets.Money.negate leagueos_backend.Markets.Money.half_up_signed
    leagueos_backend.Markets.Money.notional leagueos_backend.Markets.Money.calculate_fee
    leagueos_backend.Markets.Money.reservation
    leagueos_backend.Markets.Money.calculate_buy_commitment leagueos_backend.Markets.Fees.is_active
    leagueos_backend.Markets.Fees.is_draft leagueos_backend.Markets.Fees.comes_first
    leagueos_backend.Markets.Fees.first_schedule leagueos_backend.Markets.Fees.effective_schedule
    leagueos_backend.Markets.Fees.rates_of leagueos_backend.Markets.Fees.rates
    leagueos_backend.Markets.Fees.maximum_order_fee leagueos_backend.Markets.Fees.preview_of
    leagueos_backend.Markets.Fees.clean_schedule leagueos_backend.Markets.Fees.save_schedule
    leagueos_backend.Markets.Fees.latest_version leagueos_backend.Markets.Fees.create_draft
    leagueos_backend.Markets.Fees.activate leagueos_backend.Markets.Fees.retire
    leagueos_backend.Markets.Fees.fee_type_eq leagueos_backend.Markets.Fees.schedule_id
    leagueos_backend.Markets.Fees.schedule_version leagueos_backend.Markets.Fees.fee_entry
    leagueos_backend.Markets.Fees.fee_entry_eq leagueos_backend.Markets.Fees.clean_fee_entry
    leagueos_backend.Markets.Fees.find_fee_entry leagueos_backend.Markets.Fees.record_fee
    leagueos_backend.Markets.Orders.get_order leagueos_backend.Markets.Orders.get_outcome
    leagueos_backend.Markets.Orders.get_market leagueos_backend.Markets.Orders.save_order
    leagueos_backend.Markets.Orders.side_eq leagueos_backend.Markets.Orders.is_fillable_status
    leagueos_backend.Markets.Orders.is_gtd leagueos_backend.Markets.Orders.is_expired_status
    leagueos_backend.Markets.Orders.remaining leagueos_backend.Markets.Orders.previous_average
    leagueos_backend.Markets.Orders.apply_fill_to_order
    leagueos_backend.Markets.Orders.outcome_belongs leagueos_backend.Markets.Orders.is_price
    leagueos_backend.Markets.Orders.expiry_ok leagueos_backend.Markets.Orders.clean_order
    leagueos_backend.Markets.Orders.reserved_for leagueos_backend.Markets.Positions.get_position
    leagueos_backend.Markets.Positions.empty_position
    leagueos_backend.Markets.Positions.apply_buy_to_position
    leagueos_backend.Markets.Positions.released_cost
    leagueos_backend.Markets.Positions.apply_sell_to_position
    leagueos_backend.Markets.Positions.clean_position
    leagueos_backend.Markets.Positions.save_position leagueos_backend.Markets.Exits.is_order_of
    leagueos_backend.Markets.Exits.count_fill leagueos_backend.Markets.Exits.count_fills
    leagueos_backend.Markets.Exits.total_realized leagueos_backend.Markets.Exits.cycle_fills
    leagueos_backend.Markets.Exits.exit_of leagueos_backend.Markets.Exits.record_exit
    leagueos_backend.Markets.Fill.get_existing_fill
    leagueos_backend.Markets.Fill.require_matching_replay leagueos_backend.Markets.Fill.replay_or
    leagueos_backend.Markets.Fill.get_locked_orders
    leagueos_backend.Markets.Fill.require_order_sides
    leagueos_backend.Markets.Fill.require_fillable_orders
    leagueos_backend.Markets.Fill.require_matching_contract
    leagueos_backend.Markets.Fill.require_distinct_users
    leagueos_backend.Markets.Fill.require_valid_quantity
    leagueos_backend.Markets.Fill.require_valid_execution_price
    leagueos_backend.Markets.Fill.order_by_id leagueos_backend.Markets.Fill.resolve_order_roles
    leagueos_backend.Markets.Fill.get_locked_positions
    leagueos_backend.Markets.Fill.require_sufficient_seller_position
    leagueos_backend.Markets.Fill.clean_fill
    leagueos_backend.Markets.Fill.calculate_buy_wallet_settlement
    leagueos_backend.Markets.Execute.role leagueos_backend.Markets.Execute.rate_for
    leagueos_backend.Markets.Execute.new_fill leagueos_backend.Markets.Execute.check_orders
    leagueos_backend.Markets.Execute.plan_of leagueos_backend.Markets.Execute.clean_plan
    leagueos_backend.Markets.Execute.plan_fill leagueos_backend.Markets.Execute.store_rows
    leagueos_backend.Markets.Execute.fill_request leagueos_backend.Markets.Execute.bank_call
    leagueos_backend.Markets.Execute.bank_call_if_positive
    leagueos_backend.Markets.Execute.fee_charge leagueos_backend.Markets.Execute.settle_buy_wallet
    leagueos_backend.Markets.Execute.credit_seller_wallet
    leagueos_backend.Markets.Execute.commit_fill leagueos_backend.Markets.Execute.execute_fill
    leagueos_backend.Markets.Cancellation.order_request
    leagueos_backend.Markets.Cancellation.release_funds
    leagueos_backend.Markets.Cancellation.unreserve
    leagueos_backend.Markets.Cancellation.released_shares
    leagueos_backend.Markets.Cancellation.release_shares
    leagueos_backend.Markets.Cancellation.require_cancellable_order
    leagueos_backend.Markets.Cancellation.release_cancelled
    leagueos_backend.Markets.Cancellation.cancel_locked_order
    leagueos_backend.Markets.Cancellation.cancel_order leagueos_backend.Markets.Matching.is_lapsed
    leagueos_backend.Markets.Matching.is_fillable leagueos_backend.Markets.Matching.is_within
    leagueos_backend.Markets.Matching.is_eligible_maker
    leagueos_backend.Markets.Matching.is_better_price leagueos_backend.Markets.Matching.is_older
    leagueos_backend.Markets.Matching.has_priority leagueos_backend.Markets.Matching.insert_maker
    leagueos_backend.Markets.Matching.sort_makers
    leagueos_backend.Markets.Matching.prioritize_makers
    leagueos_backend.Markets.Matching.total_remaining leagueos_backend.Markets.Matching.is_side
    leagueos_backend.Markets.Matching.is_opposite
    leagueos_backend.Markets.Matching.complementary_quantity
    leagueos_backend.Markets.Matching.is_fok leagueos_backend.Markets.Matching.can_start
    leagueos_backend.Markets.Matching.is_trading leagueos_backend.Markets.Matching.execution_of
    leagueos_backend.Markets.Matching.match_makers leagueos_backend.Markets.Matching.match_book
    leagueos_backend.Markets.Complements.is_candidate
    leagueos_backend.Markets.Complements.candidates
    leagueos_backend.Markets.Complements.is_yes_order
    leagueos_backend.Markets.Complements.complement_price
    leagueos_backend.Markets.Complements.is_affordable
    leagueos_backend.Markets.Complements.new_issuance
    leagueos_backend.Markets.Complements.clean_issuance
    leagueos_backend.Markets.Complements.insert_issuance
    leagueos_backend.Markets.Complements.get_issuance
    leagueos_backend.Markets.Complements.get_or_create_position
    leagueos_backend.Markets.Complements.get_pool
    leagueos_backend.Markets.Complements.get_or_create_pool
    leagueos_backend.Markets.Complements.save_pool
    leagueos_backend.Markets.Complements.insert_collateral_entry
    leagueos_backend.Markets.Complements.leg_settlement
    leagueos_backend.Markets.Complements.store_leg leagueos_backend.Markets.Complements.pay_leg
    leagueos_backend.Markets.Complements.fill_leg
    leagueos_backend.Markets.Complements.lock_complementary_collateral
    leagueos_backend.Markets.Complements.issue
    leagueos_backend.Markets.Complements.complement_reference
    leagueos_backend.Markets.Complements.issue_once
    leagueos_backend.Markets.Complements.match_candidates
    leagueos_backend.Markets.Complements.match_complements
    leagueos_backend.Markets.Complements.complete_match
    leagueos_backend.Markets.Complements.match_order
order_matched = refl

four_issued : issued 1 after_match.1 ≡ 40_000
unfolding issued leagueos_backend.Prelude.find leagueos_backend.Prelude.select
    leagueos_backend.Prelude.any leagueos_backend.Prelude.option_eq leagueos_backend.Prelude.text_eq
    leagueos_backend.Prelude.take leagueos_backend.Prelude.total leagueos_backend.Prelude.insert_by
    leagueos_backend.Prelude.sort_by leagueos_backend.Wallets.Normalize.is_space
    leagueos_backend.Wallets.Normalize.drop_spaces leagueos_backend.Wallets.Normalize.strip
    leagueos_backend.Wallets.Normalize.upper leagueos_backend.Wallets.Normalize.is_alpha
    leagueos_backend.Wallets.Normalize.normalize_currency
    leagueos_backend.Wallets.Normalize.normalize_amount
    leagueos_backend.Wallets.Normalize.normalize_reference
    leagueos_backend.Wallets.Normalize.normalize_text
    leagueos_backend.Wallets.Transition.calculate_transition
    leagueos_backend.Wallets.Transition.credit_account
    leagueos_backend.Wallets.Transition.is_internal leagueos_backend.Wallets.Transition.is_credit
    leagueos_backend.Wallets.Transition.is_internal_entry
    leagueos_backend.Wallets.Transition.entry_type_eq leagueos_backend.Wallets.Transition.account_eq
    leagueos_backend.Wallets.Transition.entry_matches_operation
    leagueos_backend.Wallets.Execute.get_existing_entry
    leagueos_backend.Wallets.Execute.get_locked_wallet leagueos_backend.Wallets.Execute.get_wallet
    leagueos_backend.Wallets.Execute.same_context leagueos_backend.Wallets.Execute.replay_matches
    leagueos_backend.Wallets.Execute.require_matching_replay
    leagueos_backend.Wallets.Execute.replay_or leagueos_backend.Wallets.Execute.save_wallet
    leagueos_backend.Wallets.Execute.new_wallet leagueos_backend.Wallets.Execute.insert_wallet
    leagueos_backend.Wallets.Execute.obtain_wallet leagueos_backend.Wallets.Execute.clean_wallet
    leagueos_backend.Wallets.Execute.clean_entry leagueos_backend.Wallets.Execute.post
    leagueos_backend.Wallets.Execute.after_lock leagueos_backend.Wallets.Execute.perform
    leagueos_backend.Wallets.Service.execute leagueos_backend.Wallets.Service.credit
    leagueos_backend.Wallets.Service.reserve leagueos_backend.Wallets.Service.release
    leagueos_backend.Wallets.Service.debit_available
    leagueos_backend.Wallets.Service.consume_reserved leagueos_backend.Wallets.History.atomic
    leagueos_backend.Wallets.History.run leagueos_backend.Wallets.History.run_all
    leagueos_backend.Markets.Money.half_up leagueos_backend.Markets.Money.ceiling
    leagueos_backend.Markets.Money.negate leagueos_backend.Markets.Money.half_up_signed
    leagueos_backend.Markets.Money.notional leagueos_backend.Markets.Money.calculate_fee
    leagueos_backend.Markets.Money.reservation
    leagueos_backend.Markets.Money.calculate_buy_commitment leagueos_backend.Markets.Fees.is_active
    leagueos_backend.Markets.Fees.is_draft leagueos_backend.Markets.Fees.comes_first
    leagueos_backend.Markets.Fees.first_schedule leagueos_backend.Markets.Fees.effective_schedule
    leagueos_backend.Markets.Fees.rates_of leagueos_backend.Markets.Fees.rates
    leagueos_backend.Markets.Fees.maximum_order_fee leagueos_backend.Markets.Fees.preview_of
    leagueos_backend.Markets.Fees.clean_schedule leagueos_backend.Markets.Fees.save_schedule
    leagueos_backend.Markets.Fees.latest_version leagueos_backend.Markets.Fees.create_draft
    leagueos_backend.Markets.Fees.activate leagueos_backend.Markets.Fees.retire
    leagueos_backend.Markets.Fees.fee_type_eq leagueos_backend.Markets.Fees.schedule_id
    leagueos_backend.Markets.Fees.schedule_version leagueos_backend.Markets.Fees.fee_entry
    leagueos_backend.Markets.Fees.fee_entry_eq leagueos_backend.Markets.Fees.clean_fee_entry
    leagueos_backend.Markets.Fees.find_fee_entry leagueos_backend.Markets.Fees.record_fee
    leagueos_backend.Markets.Orders.get_order leagueos_backend.Markets.Orders.get_outcome
    leagueos_backend.Markets.Orders.get_market leagueos_backend.Markets.Orders.save_order
    leagueos_backend.Markets.Orders.side_eq leagueos_backend.Markets.Orders.is_fillable_status
    leagueos_backend.Markets.Orders.is_gtd leagueos_backend.Markets.Orders.is_expired_status
    leagueos_backend.Markets.Orders.remaining leagueos_backend.Markets.Orders.previous_average
    leagueos_backend.Markets.Orders.apply_fill_to_order
    leagueos_backend.Markets.Orders.outcome_belongs leagueos_backend.Markets.Orders.is_price
    leagueos_backend.Markets.Orders.expiry_ok leagueos_backend.Markets.Orders.clean_order
    leagueos_backend.Markets.Orders.reserved_for leagueos_backend.Markets.Positions.get_position
    leagueos_backend.Markets.Positions.empty_position
    leagueos_backend.Markets.Positions.apply_buy_to_position
    leagueos_backend.Markets.Positions.released_cost
    leagueos_backend.Markets.Positions.apply_sell_to_position
    leagueos_backend.Markets.Positions.clean_position
    leagueos_backend.Markets.Positions.save_position leagueos_backend.Markets.Exits.is_order_of
    leagueos_backend.Markets.Exits.count_fill leagueos_backend.Markets.Exits.count_fills
    leagueos_backend.Markets.Exits.total_realized leagueos_backend.Markets.Exits.cycle_fills
    leagueos_backend.Markets.Exits.exit_of leagueos_backend.Markets.Exits.record_exit
    leagueos_backend.Markets.Fill.get_existing_fill
    leagueos_backend.Markets.Fill.require_matching_replay leagueos_backend.Markets.Fill.replay_or
    leagueos_backend.Markets.Fill.get_locked_orders
    leagueos_backend.Markets.Fill.require_order_sides
    leagueos_backend.Markets.Fill.require_fillable_orders
    leagueos_backend.Markets.Fill.require_matching_contract
    leagueos_backend.Markets.Fill.require_distinct_users
    leagueos_backend.Markets.Fill.require_valid_quantity
    leagueos_backend.Markets.Fill.require_valid_execution_price
    leagueos_backend.Markets.Fill.order_by_id leagueos_backend.Markets.Fill.resolve_order_roles
    leagueos_backend.Markets.Fill.get_locked_positions
    leagueos_backend.Markets.Fill.require_sufficient_seller_position
    leagueos_backend.Markets.Fill.clean_fill
    leagueos_backend.Markets.Fill.calculate_buy_wallet_settlement
    leagueos_backend.Markets.Execute.role leagueos_backend.Markets.Execute.rate_for
    leagueos_backend.Markets.Execute.new_fill leagueos_backend.Markets.Execute.check_orders
    leagueos_backend.Markets.Execute.plan_of leagueos_backend.Markets.Execute.clean_plan
    leagueos_backend.Markets.Execute.plan_fill leagueos_backend.Markets.Execute.store_rows
    leagueos_backend.Markets.Execute.fill_request leagueos_backend.Markets.Execute.bank_call
    leagueos_backend.Markets.Execute.bank_call_if_positive
    leagueos_backend.Markets.Execute.fee_charge leagueos_backend.Markets.Execute.settle_buy_wallet
    leagueos_backend.Markets.Execute.credit_seller_wallet
    leagueos_backend.Markets.Execute.commit_fill leagueos_backend.Markets.Execute.execute_fill
    leagueos_backend.Markets.Cancellation.order_request
    leagueos_backend.Markets.Cancellation.release_funds
    leagueos_backend.Markets.Cancellation.unreserve
    leagueos_backend.Markets.Cancellation.released_shares
    leagueos_backend.Markets.Cancellation.release_shares
    leagueos_backend.Markets.Cancellation.require_cancellable_order
    leagueos_backend.Markets.Cancellation.release_cancelled
    leagueos_backend.Markets.Cancellation.cancel_locked_order
    leagueos_backend.Markets.Cancellation.cancel_order leagueos_backend.Markets.Matching.is_lapsed
    leagueos_backend.Markets.Matching.is_fillable leagueos_backend.Markets.Matching.is_within
    leagueos_backend.Markets.Matching.is_eligible_maker
    leagueos_backend.Markets.Matching.is_better_price leagueos_backend.Markets.Matching.is_older
    leagueos_backend.Markets.Matching.has_priority leagueos_backend.Markets.Matching.insert_maker
    leagueos_backend.Markets.Matching.sort_makers
    leagueos_backend.Markets.Matching.prioritize_makers
    leagueos_backend.Markets.Matching.total_remaining leagueos_backend.Markets.Matching.is_side
    leagueos_backend.Markets.Matching.is_opposite
    leagueos_backend.Markets.Matching.complementary_quantity
    leagueos_backend.Markets.Matching.is_fok leagueos_backend.Markets.Matching.can_start
    leagueos_backend.Markets.Matching.is_trading leagueos_backend.Markets.Matching.execution_of
    leagueos_backend.Markets.Matching.match_makers leagueos_backend.Markets.Matching.match_book
    leagueos_backend.Markets.Complements.is_candidate
    leagueos_backend.Markets.Complements.candidates
    leagueos_backend.Markets.Complements.is_yes_order
    leagueos_backend.Markets.Complements.complement_price
    leagueos_backend.Markets.Complements.is_affordable
    leagueos_backend.Markets.Complements.new_issuance
    leagueos_backend.Markets.Complements.clean_issuance
    leagueos_backend.Markets.Complements.insert_issuance
    leagueos_backend.Markets.Complements.get_issuance
    leagueos_backend.Markets.Complements.get_or_create_position
    leagueos_backend.Markets.Complements.get_pool
    leagueos_backend.Markets.Complements.get_or_create_pool
    leagueos_backend.Markets.Complements.save_pool
    leagueos_backend.Markets.Complements.insert_collateral_entry
    leagueos_backend.Markets.Complements.leg_settlement
    leagueos_backend.Markets.Complements.store_leg leagueos_backend.Markets.Complements.pay_leg
    leagueos_backend.Markets.Complements.fill_leg
    leagueos_backend.Markets.Complements.lock_complementary_collateral
    leagueos_backend.Markets.Complements.issue
    leagueos_backend.Markets.Complements.complement_reference
    leagueos_backend.Markets.Complements.issue_once
    leagueos_backend.Markets.Complements.match_candidates
    leagueos_backend.Markets.Complements.match_complements
    leagueos_backend.Markets.Complements.complete_match
    leagueos_backend.Markets.Complements.match_order
four_issued = refl

match_order-IsConsistent_example : IsConsistent after_match.1.bank
match_order-IsConsistent_example =
    match_order-IsConsistent derive_key 5 3 book after_match.0 after_match.1 two_buyers-IsConsistent
      order_matched

match_order-locked_example :
    locked 1 after_match.1 + issued 1 book ≡ locked 1 book + issued 1 after_match.1
match_order-locked_example =
    match_order-locked derive_key 5 3 1 book after_match.0 after_match.1 order_matched

abbrev two_rates : Rates
two_rates = record { maker = 0; taker = 100; settlement = 0; refund = 0 }

leg_settlement-covers_example :
    let m = leg_settlement (maker_leg no_order) 40_000 two_rates in
    let t = leg_settlement (taker_leg buy_order no_order) 40_000 two_rates in
    let fees =
      calculate_fee (notional 40_000 45_000) 0 + calculate_fee (notional 40_000 55_000) 100 in
    (40_000 + fees ≤ m.actual_cost + t.actual_cost)
    × (m.actual_cost + t.actual_cost ≤ 40_000 + fees + 1)
leg_settlement-covers_example =
    leg_settlement-covers buy_order no_order 40_000 two_rates (omega arith)
