-- ===== src/Markets/Matching/Tests.antt =====
-- A concrete run of the matching loop, and the theorems at it.
use leagueos_backend.Prelude.{
  ℕ, ◌≡◌, refl, List, [], ◌∷◌, Bool, true, not, ◌&&◌, ◌==◌, ok, err, Result, All, total, select,
  arith, if◌then◌else◌,
}
use leagueos_backend.Markets.Model.{Order, Fill, Exchange, Error, buy}
use leagueos_backend.Markets.Orders.{side_eq}
use leagueos_backend.Markets.Execute.{check_orders}
use leagueos_backend.Markets.Matching.{
  is_lapsed, is_fillable, is_within, is_eligible_maker, is_better_price, is_older, has_priority,
  insert_maker, sort_makers, prioritize_makers, total_remaining, is_side, is_opposite,
  complementary_quantity, is_fok, can_start, is_trading, execution_of, match_makers, match_book,
}
use leagueos_backend.Markets.Matching.Priority.{IsSorted, prioritize_makers-IsSorted}
use leagueos_backend.Markets.Matching.Runs.{check_orders-execution_of}
use leagueos_backend.Markets.Tests.{derive_key, exchange, buy_order, sell_order}
use leagueos_backend.Wallets.History.{atomic, run, run_all}
use leagueos_backend.Markets.Money.{
  half_up, notional, calculate_fee, reservation, calculate_buy_commitment,
}
use leagueos_backend.Markets.Orders.{
  get_order, is_fillable_status, remaining, apply_fill_to_order, reserved_for,
}
use leagueos_backend.Markets.Positions.{empty_position, released_cost, apply_sell_to_position}
use leagueos_backend.Markets.Fill.{
  get_existing_fill, get_locked_positions, calculate_buy_wallet_settlement,
}
use leagueos_backend.Markets.Execute.{plan_of, plan_fill, execute_fill}
use leagueos_backend.Prelude.{find}
use leagueos_backend.Prelude.Int.{◌+ℤ◌}

-- What the call returns, and the exchange it leaves.
abbrev matched : Result Error (List Fill × Exchange) → List Fill × Exchange
matched (ok r) = r
matched (err e) = ([], exchange)

abbrev new_fills : List Fill
new_fills = (matched (match_book derive_key 5 3 exchange)).0

abbrev after_match : Exchange
after_match = (matched (match_book derive_key 5 3 exchange)).1

match_made : match_book derive_key 5 3 exchange ≡ ok (new_fills, after_match)
unfolding atomic run run_all half_up leagueos_backend.Markets.Money.ceiling
    leagueos_backend.Markets.Money.negate leagueos_backend.Markets.Money.half_up_signed notional
    calculate_fee reservation calculate_buy_commitment leagueos_backend.Markets.Fees.is_active
    leagueos_backend.Markets.Fees.is_draft leagueos_backend.Markets.Fees.comes_first
    leagueos_backend.Markets.Fees.first_schedule leagueos_backend.Markets.Fees.effective_schedule
    leagueos_backend.Markets.Fees.rates_of leagueos_backend.Markets.Fees.rates
    leagueos_backend.Markets.Fees.maximum_order_fee leagueos_backend.Markets.Fees.clean_schedule
    leagueos_backend.Markets.Fees.save_schedule leagueos_backend.Markets.Fees.latest_version
    leagueos_backend.Markets.Fees.fee_type_eq leagueos_backend.Markets.Fees.schedule_id
    leagueos_backend.Markets.Fees.schedule_version leagueos_backend.Markets.Fees.fee_entry
    leagueos_backend.Markets.Fees.fee_entry_eq leagueos_backend.Markets.Fees.clean_fee_entry
    leagueos_backend.Markets.Fees.find_fee_entry leagueos_backend.Markets.Fees.record_fee get_order
    leagueos_backend.Markets.Orders.get_outcome leagueos_backend.Markets.Orders.get_market
    leagueos_backend.Markets.Orders.save_order leagueos_backend.Markets.Orders.side_eq
    is_fillable_status leagueos_backend.Markets.Orders.is_gtd
    leagueos_backend.Markets.Orders.is_expired_status remaining
    leagueos_backend.Markets.Orders.previous_average apply_fill_to_order
    leagueos_backend.Markets.Orders.outcome_belongs leagueos_backend.Markets.Orders.is_price
    leagueos_backend.Markets.Orders.expiry_ok leagueos_backend.Markets.Orders.clean_order
    reserved_for leagueos_backend.Markets.Positions.get_position empty_position
    leagueos_backend.Markets.Positions.apply_buy_to_position released_cost apply_sell_to_position
    leagueos_backend.Markets.Positions.clean_position
    leagueos_backend.Markets.Positions.save_position leagueos_backend.Markets.Exits.is_order_of
    leagueos_backend.Markets.Exits.count_fill leagueos_backend.Markets.Exits.count_fills
    leagueos_backend.Markets.Exits.total_realized leagueos_backend.Markets.Exits.cycle_fills
    leagueos_backend.Markets.Exits.exit_of leagueos_backend.Markets.Exits.record_exit
    get_existing_fill leagueos_backend.Markets.Fill.require_matching_replay
    leagueos_backend.Markets.Fill.replay_or leagueos_backend.Markets.Fill.get_locked_orders
    leagueos_backend.Markets.Fill.require_order_sides
    leagueos_backend.Markets.Fill.require_fillable_orders
    leagueos_backend.Markets.Fill.require_matching_contract
    leagueos_backend.Markets.Fill.require_distinct_users
    leagueos_backend.Markets.Fill.require_valid_quantity
    leagueos_backend.Markets.Fill.require_valid_execution_price
    leagueos_backend.Markets.Fill.order_by_id leagueos_backend.Markets.Fill.resolve_order_roles
    get_locked_positions leagueos_backend.Markets.Fill.require_sufficient_seller_position
    leagueos_backend.Markets.Fill.clean_fill calculate_buy_wallet_settlement
    leagueos_backend.Markets.Execute.role leagueos_backend.Markets.Execute.rate_for
    leagueos_backend.Markets.Execute.new_fill leagueos_backend.Markets.Execute.check_orders plan_of
    leagueos_backend.Markets.Execute.clean_plan plan_fill
    leagueos_backend.Markets.Execute.store_rows leagueos_backend.Markets.Execute.fill_request
    leagueos_backend.Markets.Execute.bank_call
    leagueos_backend.Markets.Execute.bank_call_if_positive
    leagueos_backend.Markets.Execute.fee_charge leagueos_backend.Markets.Execute.settle_buy_wallet
    leagueos_backend.Markets.Execute.credit_seller_wallet
    leagueos_backend.Markets.Execute.commit_fill execute_fill
    leagueos_backend.Wallets.Normalize.is_space leagueos_backend.Wallets.Normalize.drop_spaces
    leagueos_backend.Wallets.Normalize.strip leagueos_backend.Wallets.Normalize.upper
    leagueos_backend.Wallets.Normalize.is_alpha
    leagueos_backend.Wallets.Normalize.normalize_currency
    leagueos_backend.Wallets.Normalize.normalize_amount
    leagueos_backend.Wallets.Normalize.normalize_reference
    leagueos_backend.Wallets.Normalize.normalize_text
    leagueos_backend.Wallets.Transition.calculate_transition
    leagueos_backend.Wallets.Transition.credit_account
    leagueos_backend.Wallets.Transition.is_internal leagueos_backend.Wallets.Transition.is_credit
    leagueos_backend.Wallets.Transition.is_internal_entry
    leagueos_backend.Wallets.Transition.entry_type_eq leagueos_backend.Wallets.Transition.account_eq
    leagueos_backend.Wallets.Transition.entry_matches_operation
    leagueos_backend.Wallets.Execute.get_existing_entry
    leagueos_backend.Wallets.Execute.get_locked_wallet leagueos_backend.Wallets.Execute.get_wallet
    leagueos_backend.Wallets.Execute.same_context leagueos_backend.Wallets.Execute.replay_matches
    leagueos_backend.Wallets.Execute.require_matching_replay
    leagueos_backend.Wallets.Execute.replay_or leagueos_backend.Wallets.Execute.save_wallet
    leagueos_backend.Wallets.Execute.new_wallet leagueos_backend.Wallets.Execute.insert_wallet
    leagueos_backend.Wallets.Execute.obtain_wallet leagueos_backend.Wallets.Execute.clean_wallet
    leagueos_backend.Wallets.Execute.clean_entry leagueos_backend.Wallets.Execute.post
    leagueos_backend.Wallets.Execute.after_lock leagueos_backend.Wallets.Execute.perform
    leagueos_backend.Wallets.Service.execute leagueos_backend.Wallets.Service.credit
    leagueos_backend.Wallets.Service.reserve leagueos_backend.Wallets.Service.release
    leagueos_backend.Wallets.Service.debit_available
    leagueos_backend.Wallets.Service.consume_reserved find leagueos_backend.Prelude.select
    leagueos_backend.Prelude.option_eq leagueos_backend.Prelude.text_eq ◌+ℤ◌
    leagueos_backend.Prelude.Int.◌-ℤ◌ is_lapsed is_fillable is_within is_eligible_maker
    is_better_price is_older has_priority insert_maker sort_makers prioritize_makers total_remaining
    is_side is_opposite complementary_quantity is_fok can_start is_trading execution_of match_makers
    match_book
match_made = refl

-- A cheaper maker that came later, and one at the same price that came first.
abbrev cheaper : Order
cheaper = record sell_order { id = 11; limit_price = 35_000; created_at = 4 }

abbrev earlier : Order
earlier = record sell_order { id = 12; created_at = 0 }

abbrev crowded : Exchange
crowded = record exchange { orders = buy_order ∷ sell_order ∷ cheaper ∷ earlier ∷ [] }

makers_in_order : prioritize_makers 5 buy_order crowded ≡ cheaper ∷ earlier ∷ sell_order ∷ []
unfolding is_lapsed is_fillable is_within is_eligible_maker is_better_price is_older has_priority
    insert_maker sort_makers prioritize_makers leagueos_backend.Prelude.select side_eq remaining
    is_fillable_status leagueos_backend.Markets.Orders.is_gtd
makers_in_order = refl

prioritize_makers-IsSorted_example :
    IsSorted buy (prioritize_makers 5 buy_order crowded)
    × All
        (λ o. is_eligible_maker 5 buy_order o && not (o.id == buy_order.id) ≡ true)
        (prioritize_makers 5 buy_order crowded)
    × (total remaining (prioritize_makers 5 buy_order crowded)
        ≡ total remaining (
            select
              (λ o. is_eligible_maker 5 buy_order o && not (o.id == buy_order.id))
              crowded.orders))
prioritize_makers-IsSorted_example = prioritize_makers-IsSorted 5 buy_order crowded remaining

check_orders-execution_of_example :
    check_orders
      (execution_of derive_key buy_order sell_order)
      (if side_eq buy_order.side buy then buy_order else sell_order)
      (if side_eq buy_order.side buy then sell_order else buy_order)
    ≡ ok tt
unfolding is_fillable is_fillable_status remaining is_lapsed leagueos_backend.Markets.Orders.is_gtd
    is_eligible_maker is_within side_eq
check_orders-execution_of_example =
    check_orders-execution_of derive_key 5 buy_order sell_order refl refl (omega arith)
      (omega arith)
