-- ===== src/Markets/Lifecycle/Tests.antt =====
-- A market that is opened with liquidity and closed, and the theorems at it.
use leagueos_backend.Prelude.{
  ℕ, ◌≡◌, refl, true, false, List, [], ◌∷◌, some, none, ok, err, Result, any,
}
use leagueos_backend.Wallets.Model as Bank
use leagueos_backend.Wallets.Ledger.{IsConsistent}
use leagueos_backend.Markets.Model.{
  approved, closed, platform_treasury, configured, Market, LiquidityProvider,
  LiquidityConfiguration, Exchange, Error,
}
use leagueos_backend.Markets.CloseCleanup.{is_outstanding}
use leagueos_backend.Markets.Lifecycle.{Actor, open_for_trading, close_market}
use leagueos_backend.Markets.Lifecycle.Graph.{IsMove}
use leagueos_backend.Markets.Lifecycle.Steps.{
  Step, was_closed, opened, Step-IsMove, Step-IsConsistent, Step-is_ended, close_market-cleared,
}
use leagueos_backend.Markets.Tests.{
  derive_key, exchange, market_row, yes_outcome, no_outcome, bank-IsConsistent,
}

abbrev manager : Actor
manager = record { id = 9; email = Bank.codes "a@b" }

-- An approved market whose treasury offers four shares of each outcome.
abbrev treasury : LiquidityProvider
treasury = record {
  id = 1;
  provider_type = platform_treasury;
  user = 2;
  is_active = true;
  created_at = 0;
}

abbrev opening_terms : LiquidityConfiguration
opening_terms = record {
  market = 1;
  source = platform_treasury;
  initial_liquidity_ugx = 400;
  opening_spread_bps = 100;
  status = configured;
  configured_by = 8;
  configured_at = 0;
  activated_at = none;
  provider = none;
}

abbrev prepared : Exchange
prepared = record exchange {
  markets = record market_row { status = approved } ∷ [];
  outcomes = yes_outcome ∷ no_outcome ∷ [];
  orders = [];
  positions = [];
  liquidity_providers = treasury ∷ [];
  liquidity_configurations = opening_terms ∷ [];
}

abbrev value_of {ℓ} : {A : Type ℓ} → A → Result Error A → A
value_of a (ok b) = b
value_of a (err e) = a

abbrev reason : List ℕ
reason = Bank.codes " on time "

abbrev trading : Market × Exchange
trading =
    value_of (market_row, prepared)
      (open_for_trading derive_key 88 true 1 manager reason 500 prepared)

market_opened :
    open_for_trading derive_key 88 true 1 manager reason 500 prepared ≡ ok (trading.0, trading.1)
unfolding leagueos_backend.Prelude.find leagueos_backend.Prelude.select leagueos_backend.Prelude.any
    leagueos_backend.Prelude.option_eq leagueos_backend.Prelude.text_eq
    leagueos_backend.Prelude.take leagueos_backend.Prelude.total leagueos_backend.Prelude.insert_by
    leagueos_backend.Prelude.sort_by leagueos_backend.Wallets.Normalize.is_space
    leagueos_backend.Wallets.Normalize.drop_spaces leagueos_backend.Wallets.Normalize.strip
    leagueos_backend.Wallets.Normalize.upper leagueos_backend.Wallets.Normalize.is_alpha
    leagueos_backend.Wallets.Normalize.normalize_currency
    leagueos_backend.Wallets.Normalize.normalize_amount
    leagueos_backend.Wallets.Normalize.normalize_reference
    leagueos_backend.Wallets.Normalize.normalize_text
    leagueos_backend.Wallets.Transition.calculate_transition
    leagueos_backend.Wallets.Transition.credit_account
    leagueos_backend.Wallets.Transition.is_internal leagueos_backend.Wallets.Transition.is_credit
    leagueos_backend.Wallets.Transition.is_internal_entry
    leagueos_backend.Wallets.Transition.entry_type_eq leagueos_backend.Wallets.Transition.account_eq
    leagueos_backend.Wallets.Transition.entry_matches_operation
    leagueos_backend.Wallets.Execute.get_existing_entry
    leagueos_backend.Wallets.Execute.get_locked_wallet leagueos_backend.Wallets.Execute.get_wallet
    leagueos_backend.Wallets.Execute.same_context leagueos_backend.Wallets.Execute.replay_matches
    leagueos_backend.Wallets.Execute.require_matching_replay
    leagueos_backend.Wallets.Execute.replay_or leagueos_backend.Wallets.Execute.save_wallet
    leagueos_backend.Wallets.Execute.new_wallet leagueos_backend.Wallets.Execute.insert_wallet
    leagueos_backend.Wallets.Execute.obtain_wallet leagueos_backend.Wallets.Execute.clean_wallet
    leagueos_backend.Wallets.Execute.clean_entry leagueos_backend.Wallets.Execute.post
    leagueos_backend.Wallets.Execute.after_lock leagueos_backend.Wallets.Execute.perform
    leagueos_backend.Wallets.Service.execute leagueos_backend.Wallets.Service.credit
    leagueos_backend.Wallets.Service.reserve leagueos_backend.Wallets.Service.release
    leagueos_backend.Wallets.Service.debit_available
    leagueos_backend.Wallets.Service.consume_reserved
    leagueos_backend.Wallets.Balances.get_or_create_wallet
    leagueos_backend.Wallets.Balances.require_positive
    leagueos_backend.Wallets.Balances.save_balances leagueos_backend.Wallets.Balances.reserve_funds
    leagueos_backend.Wallets.Balances.release_funds
    leagueos_backend.Wallets.Balances.debit_reserved_funds
    leagueos_backend.Wallets.Rows.get_transaction leagueos_backend.Wallets.Rows.get_withdrawal
    leagueos_backend.Wallets.Rows.reference_eq leagueos_backend.Wallets.Rows.find_reference
    leagueos_backend.Wallets.Rows.save_transaction leagueos_backend.Wallets.Rows.save_withdrawal
    leagueos_backend.Wallets.Rows.audit leagueos_backend.Wallets.Rows.request_key
    leagueos_backend.Wallets.History.atomic leagueos_backend.Wallets.History.run
    leagueos_backend.Wallets.History.run_all leagueos_backend.Markets.Money.half_up
    leagueos_backend.Markets.Money.ceiling leagueos_backend.Markets.Money.negate
    leagueos_backend.Markets.Money.half_up_signed leagueos_backend.Markets.Money.notional
    leagueos_backend.Markets.Money.calculate_fee leagueos_backend.Markets.Money.reservation
    leagueos_backend.Markets.Money.calculate_buy_commitment leagueos_backend.Markets.Fees.is_active
    leagueos_backend.Markets.Fees.is_draft leagueos_backend.Markets.Fees.comes_first
    leagueos_backend.Markets.Fees.first_schedule leagueos_backend.Markets.Fees.effective_schedule
    leagueos_backend.Markets.Fees.rates_of leagueos_backend.Markets.Fees.rates
    leagueos_backend.Markets.Fees.maximum_order_fee leagueos_backend.Markets.Fees.preview_of
    leagueos_backend.Markets.Fees.clean_schedule leagueos_backend.Markets.Fees.save_schedule
    leagueos_backend.Markets.Fees.latest_version leagueos_backend.Markets.Fees.create_draft
    leagueos_backend.Markets.Fees.activate leagueos_backend.Markets.Fees.retire
    leagueos_backend.Markets.Fees.fee_type_eq leagueos_backend.Markets.Fees.schedule_id
    leagueos_backend.Markets.Fees.schedule_version leagueos_backend.Markets.Fees.fee_entry
    leagueos_backend.Markets.Fees.fee_entry_eq leagueos_backend.Markets.Fees.clean_fee_entry
    leagueos_backend.Markets.Fees.find_fee_entry leagueos_backend.Markets.Fees.record_fee
    leagueos_backend.Markets.Orders.get_order leagueos_backend.Markets.Orders.get_outcome
    leagueos_backend.Markets.Orders.get_market leagueos_backend.Markets.Orders.save_order
    leagueos_backend.Markets.Orders.side_eq leagueos_backend.Markets.Orders.is_fillable_status
    leagueos_backend.Markets.Orders.is_gtd leagueos_backend.Markets.Orders.is_expired_status
    leagueos_backend.Markets.Orders.remaining leagueos_backend.Markets.Orders.previous_average
    leagueos_backend.Markets.Orders.apply_fill_to_order
    leagueos_backend.Markets.Orders.outcome_belongs leagueos_backend.Markets.Orders.is_price
    leagueos_backend.Markets.Orders.expiry_ok leagueos_backend.Markets.Orders.clean_order
    leagueos_backend.Markets.Orders.reserved_for leagueos_backend.Markets.Positions.get_position
    leagueos_backend.Markets.Positions.empty_position
    leagueos_backend.Markets.Positions.apply_buy_to_position
    leagueos_backend.Markets.Positions.released_cost
    leagueos_backend.Markets.Positions.apply_sell_to_position
    leagueos_backend.Markets.Positions.clean_position
    leagueos_backend.Markets.Positions.save_position leagueos_backend.Markets.Execute.role
    leagueos_backend.Markets.Execute.rate_for leagueos_backend.Markets.Execute.new_fill
    leagueos_backend.Markets.Execute.check_orders leagueos_backend.Markets.Execute.plan_of
    leagueos_backend.Markets.Execute.clean_plan leagueos_backend.Markets.Execute.plan_fill
    leagueos_backend.Markets.Execute.store_rows leagueos_backend.Markets.Execute.fill_request
    leagueos_backend.Markets.Execute.bank_call
    leagueos_backend.Markets.Execute.bank_call_if_positive
    leagueos_backend.Markets.Execute.fee_charge leagueos_backend.Markets.Execute.settle_buy_wallet
    leagueos_backend.Markets.Execute.credit_seller_wallet
    leagueos_backend.Markets.Execute.commit_fill leagueos_backend.Markets.Execute.execute_fill
    leagueos_backend.Markets.Cancellation.order_request
    leagueos_backend.Markets.Cancellation.release_funds
    leagueos_backend.Markets.Cancellation.unreserve
    leagueos_backend.Markets.Cancellation.released_shares
    leagueos_backend.Markets.Cancellation.release_shares
    leagueos_backend.Markets.Cancellation.require_cancellable_order
    leagueos_backend.Markets.Cancellation.release_cancelled
    leagueos_backend.Markets.Cancellation.cancel_locked_order
    leagueos_backend.Markets.Cancellation.cancel_order leagueos_backend.Markets.Expiry.is_admin
    leagueos_backend.Markets.Expiry.is_empty leagueos_backend.Markets.Expiry.is_absent
    leagueos_backend.Markets.Expiry.validate_request
    leagueos_backend.Markets.Expiry.require_due_order
    leagueos_backend.Markets.Expiry.release_due_shares leagueos_backend.Markets.Expiry.expiry_audit
    leagueos_backend.Markets.Expiry.clean_audit leagueos_backend.Markets.Expiry.get_expiry
    leagueos_backend.Markets.Expiry.system_expiry leagueos_backend.Markets.Expiry.is_due
    leagueos_backend.Markets.Expiry.release_due leagueos_backend.Markets.Expiry.expire_locked_order
    leagueos_backend.Markets.Expiry.expire_order leagueos_backend.Markets.Expiry.expire_all
    leagueos_backend.Markets.Expiry.expiry_time leagueos_backend.Markets.Expiry.is_earlier
    leagueos_backend.Markets.Expiry.due_ids leagueos_backend.Markets.Expiry.expire_due_orders
    leagueos_backend.Markets.Matching.is_lapsed leagueos_backend.Markets.Matching.is_fillable
    leagueos_backend.Markets.Matching.is_within leagueos_backend.Markets.Matching.is_eligible_maker
    leagueos_backend.Markets.Matching.is_better_price leagueos_backend.Markets.Matching.is_older
    leagueos_backend.Markets.Matching.has_priority leagueos_backend.Markets.Matching.insert_maker
    leagueos_backend.Markets.Matching.sort_makers
    leagueos_backend.Markets.Matching.prioritize_makers
    leagueos_backend.Markets.Matching.total_remaining leagueos_backend.Markets.Matching.is_side
    leagueos_backend.Markets.Matching.is_opposite
    leagueos_backend.Markets.Matching.complementary_quantity
    leagueos_backend.Markets.Matching.is_fok leagueos_backend.Markets.Matching.can_start
    leagueos_backend.Markets.Matching.is_trading leagueos_backend.Markets.Matching.execution_of
    leagueos_backend.Markets.Matching.match_makers leagueos_backend.Markets.Matching.match_book
    leagueos_backend.Markets.CloseCleanup.is_outstanding
    leagueos_backend.Markets.CloseCleanup.outstanding_orders
    leagueos_backend.Markets.CloseCleanup.count_cancellation
    leagueos_backend.Markets.CloseCleanup.cancellation_of
    leagueos_backend.Markets.CloseCleanup.cleanup_of
    leagueos_backend.Markets.CloseCleanup.store_cancellations
    leagueos_backend.Markets.CloseCleanup.cancel_all
    leagueos_backend.Markets.CloseCleanup.cleanup_locked_market
    leagueos_backend.Markets.Complements.is_candidate
    leagueos_backend.Markets.Complements.candidates
    leagueos_backend.Markets.Complements.is_yes_order
    leagueos_backend.Markets.Complements.complement_price
    leagueos_backend.Markets.Complements.is_affordable
    leagueos_backend.Markets.Complements.new_issuance
    leagueos_backend.Markets.Complements.clean_issuance
    leagueos_backend.Markets.Complements.insert_issuance
    leagueos_backend.Markets.Complements.get_issuance
    leagueos_backend.Markets.Complements.get_or_create_position
    leagueos_backend.Markets.Complements.get_pool
    leagueos_backend.Markets.Complements.get_or_create_pool
    leagueos_backend.Markets.Complements.save_pool
    leagueos_backend.Markets.Complements.insert_collateral_entry
    leagueos_backend.Markets.Complements.leg_settlement
    leagueos_backend.Markets.Complements.store_leg leagueos_backend.Markets.Complements.pay_leg
    leagueos_backend.Markets.Complements.fill_leg
    leagueos_backend.Markets.Complements.lock_complementary_collateral
    leagueos_backend.Markets.Complements.issue
    leagueos_backend.Markets.Complements.complement_reference
    leagueos_backend.Markets.Complements.issue_once
    leagueos_backend.Markets.Complements.match_candidates
    leagueos_backend.Markets.Complements.match_complements
    leagueos_backend.Markets.Complements.complete_match
    leagueos_backend.Markets.Complements.match_order
    leagueos_backend.Markets.Liquidity.get_configuration
    leagueos_backend.Markets.Liquidity.is_editable
    leagueos_backend.Markets.Liquidity.put_configuration
    leagueos_backend.Markets.Liquidity.configure leagueos_backend.Markets.Liquidity.outcome_of
    leagueos_backend.Markets.Liquidity.priced_outcome leagueos_backend.Markets.Liquidity.is_treasury
    leagueos_backend.Markets.Liquidity.find_provider leagueos_backend.Markets.Liquidity.get_provider
    leagueos_backend.Markets.Liquidity.treasury_request
    leagueos_backend.Markets.Liquidity.opening_issuance leagueos_backend.Markets.Liquidity.ask_price
    leagueos_backend.Markets.Liquidity.provider_position
    leagueos_backend.Markets.Liquidity.provider_order leagueos_backend.Markets.Liquidity.is_none
    leagueos_backend.Markets.Liquidity.offer leagueos_backend.Markets.Liquidity.lock_treasury
    leagueos_backend.Markets.Liquidity.activate
    leagueos_backend.Markets.Liquidity.activate_opening_liquidity
    leagueos_backend.Markets.Lifecycle.status_number leagueos_backend.Markets.Lifecycle.is_status
    leagueos_backend.Markets.Lifecycle.scope_number leagueos_backend.Markets.Lifecycle.is_scope
    leagueos_backend.Markets.Lifecycle.has_sport leagueos_backend.Markets.Lifecycle.event_id
    leagueos_backend.Markets.Lifecycle.event_ok leagueos_backend.Markets.Lifecycle.event_group_ok
    leagueos_backend.Markets.Lifecycle.template_ok leagueos_backend.Markets.Lifecycle.subject_ok
    leagueos_backend.Markets.Lifecycle.is_public leagueos_backend.Markets.Lifecycle.subject_verified
    leagueos_backend.Markets.Lifecycle.window_ok leagueos_backend.Markets.Lifecycle.winner_ok
    leagueos_backend.Markets.Lifecycle.terminal_ok leagueos_backend.Markets.Lifecycle.clean_market
    leagueos_backend.Markets.Lifecycle.is_outcome_at
    leagueos_backend.Markets.Lifecycle.has_complete_outcomes
    leagueos_backend.Markets.Lifecycle.clean_notes
    leagueos_backend.Markets.Lifecycle.validate_active_window
    leagueos_backend.Markets.Lifecycle.save_market
    leagueos_backend.Markets.Lifecycle.clean_transition
    leagueos_backend.Markets.Lifecycle.transition_of
    leagueos_backend.Markets.Lifecycle.apply_transition
    leagueos_backend.Markets.Lifecycle.begin_transition
    leagueos_backend.Markets.Lifecycle.unapproved leagueos_backend.Markets.Lifecycle.submit_market
    leagueos_backend.Markets.Lifecycle.approve_market
    leagueos_backend.Markets.Lifecycle.reject_market
    leagueos_backend.Markets.Lifecycle.revert_market_to_draft
    leagueos_backend.Markets.Lifecycle.suspend_market
    leagueos_backend.Markets.Lifecycle.reopen_market
    leagueos_backend.Markets.Lifecycle.open_for_trading
    leagueos_backend.Markets.Lifecycle.close_market
market_opened = refl

abbrev ended : Market × Exchange
ended = value_of (market_row, exchange) (close_market derive_key true 1 manager reason exchange)

market_closed : close_market derive_key true 1 manager reason exchange ≡ ok (ended.0, ended.1)
unfolding leagueos_backend.Prelude.find leagueos_backend.Prelude.select leagueos_backend.Prelude.any
    leagueos_backend.Prelude.option_eq leagueos_backend.Prelude.text_eq
    leagueos_backend.Prelude.take leagueos_backend.Prelude.total leagueos_backend.Prelude.insert_by
    leagueos_backend.Prelude.sort_by leagueos_backend.Wallets.Normalize.is_space
    leagueos_backend.Wallets.Normalize.drop_spaces leagueos_backend.Wallets.Normalize.strip
    leagueos_backend.Wallets.Normalize.upper leagueos_backend.Wallets.Normalize.is_alpha
    leagueos_backend.Wallets.Normalize.normalize_currency
    leagueos_backend.Wallets.Normalize.normalize_amount
    leagueos_backend.Wallets.Normalize.normalize_reference
    leagueos_backend.Wallets.Normalize.normalize_text
    leagueos_backend.Wallets.Transition.calculate_transition
    leagueos_backend.Wallets.Transition.credit_account
    leagueos_backend.Wallets.Transition.is_internal leagueos_backend.Wallets.Transition.is_credit
    leagueos_backend.Wallets.Transition.is_internal_entry
    leagueos_backend.Wallets.Transition.entry_type_eq leagueos_backend.Wallets.Transition.account_eq
    leagueos_backend.Wallets.Transition.entry_matches_operation
    leagueos_backend.Wallets.Execute.get_existing_entry
    leagueos_backend.Wallets.Execute.get_locked_wallet leagueos_backend.Wallets.Execute.get_wallet
    leagueos_backend.Wallets.Execute.same_context leagueos_backend.Wallets.Execute.replay_matches
    leagueos_backend.Wallets.Execute.require_matching_replay
    leagueos_backend.Wallets.Execute.replay_or leagueos_backend.Wallets.Execute.save_wallet
    leagueos_backend.Wallets.Execute.new_wallet leagueos_backend.Wallets.Execute.insert_wallet
    leagueos_backend.Wallets.Execute.obtain_wallet leagueos_backend.Wallets.Execute.clean_wallet
    leagueos_backend.Wallets.Execute.clean_entry leagueos_backend.Wallets.Execute.post
    leagueos_backend.Wallets.Execute.after_lock leagueos_backend.Wallets.Execute.perform
    leagueos_backend.Wallets.Service.execute leagueos_backend.Wallets.Service.credit
    leagueos_backend.Wallets.Service.reserve leagueos_backend.Wallets.Service.release
    leagueos_backend.Wallets.Service.debit_available
    leagueos_backend.Wallets.Service.consume_reserved
    leagueos_backend.Wallets.Balances.get_or_create_wallet
    leagueos_backend.Wallets.Balances.require_positive
    leagueos_backend.Wallets.Balances.save_balances leagueos_backend.Wallets.Balances.reserve_funds
    leagueos_backend.Wallets.Balances.release_funds
    leagueos_backend.Wallets.Balances.debit_reserved_funds
    leagueos_backend.Wallets.Rows.get_transaction leagueos_backend.Wallets.Rows.get_withdrawal
    leagueos_backend.Wallets.Rows.reference_eq leagueos_backend.Wallets.Rows.find_reference
    leagueos_backend.Wallets.Rows.save_transaction leagueos_backend.Wallets.Rows.save_withdrawal
    leagueos_backend.Wallets.Rows.audit leagueos_backend.Wallets.Rows.request_key
    leagueos_backend.Wallets.History.atomic leagueos_backend.Wallets.History.run
    leagueos_backend.Wallets.History.run_all leagueos_backend.Markets.Money.half_up
    leagueos_backend.Markets.Money.ceiling leagueos_backend.Markets.Money.negate
    leagueos_backend.Markets.Money.half_up_signed leagueos_backend.Markets.Money.notional
    leagueos_backend.Markets.Money.calculate_fee leagueos_backend.Markets.Money.reservation
    leagueos_backend.Markets.Money.calculate_buy_commitment leagueos_backend.Markets.Fees.is_active
    leagueos_backend.Markets.Fees.is_draft leagueos_backend.Markets.Fees.comes_first
    leagueos_backend.Markets.Fees.first_schedule leagueos_backend.Markets.Fees.effective_schedule
    leagueos_backend.Markets.Fees.rates_of leagueos_backend.Markets.Fees.rates
    leagueos_backend.Markets.Fees.maximum_order_fee leagueos_backend.Markets.Fees.preview_of
    leagueos_backend.Markets.Fees.clean_schedule leagueos_backend.Markets.Fees.save_schedule
    leagueos_backend.Markets.Fees.latest_version leagueos_backend.Markets.Fees.create_draft
    leagueos_backend.Markets.Fees.activate leagueos_backend.Markets.Fees.retire
    leagueos_backend.Markets.Fees.fee_type_eq leagueos_backend.Markets.Fees.schedule_id
    leagueos_backend.Markets.Fees.schedule_version leagueos_backend.Markets.Fees.fee_entry
    leagueos_backend.Markets.Fees.fee_entry_eq leagueos_backend.Markets.Fees.clean_fee_entry
    leagueos_backend.Markets.Fees.find_fee_entry leagueos_backend.Markets.Fees.record_fee
    leagueos_backend.Markets.Orders.get_order leagueos_backend.Markets.Orders.get_outcome
    leagueos_backend.Markets.Orders.get_market leagueos_backend.Markets.Orders.save_order
    leagueos_backend.Markets.Orders.side_eq leagueos_backend.Markets.Orders.is_fillable_status
    leagueos_backend.Markets.Orders.is_gtd leagueos_backend.Markets.Orders.is_expired_status
    leagueos_backend.Markets.Orders.remaining leagueos_backend.Markets.Orders.previous_average
    leagueos_backend.Markets.Orders.apply_fill_to_order
    leagueos_backend.Markets.Orders.outcome_belongs leagueos_backend.Markets.Orders.is_price
    leagueos_backend.Markets.Orders.expiry_ok leagueos_backend.Markets.Orders.clean_order
    leagueos_backend.Markets.Orders.reserved_for leagueos_backend.Markets.Positions.get_position
    leagueos_backend.Markets.Positions.empty_position
    leagueos_backend.Markets.Positions.apply_buy_to_position
    leagueos_backend.Markets.Positions.released_cost
    leagueos_backend.Markets.Positions.apply_sell_to_position
    leagueos_backend.Markets.Positions.clean_position
    leagueos_backend.Markets.Positions.save_position leagueos_backend.Markets.Execute.role
    leagueos_backend.Markets.Execute.rate_for leagueos_backend.Markets.Execute.new_fill
    leagueos_backend.Markets.Execute.check_orders leagueos_backend.Markets.Execute.plan_of
    leagueos_backend.Markets.Execute.clean_plan leagueos_backend.Markets.Execute.plan_fill
    leagueos_backend.Markets.Execute.store_rows leagueos_backend.Markets.Execute.fill_request
    leagueos_backend.Markets.Execute.bank_call
    leagueos_backend.Markets.Execute.bank_call_if_positive
    leagueos_backend.Markets.Execute.fee_charge leagueos_backend.Markets.Execute.settle_buy_wallet
    leagueos_backend.Markets.Execute.credit_seller_wallet
    leagueos_backend.Markets.Execute.commit_fill leagueos_backend.Markets.Execute.execute_fill
    leagueos_backend.Markets.Cancellation.order_request
    leagueos_backend.Markets.Cancellation.release_funds
    leagueos_backend.Markets.Cancellation.unreserve
    leagueos_backend.Markets.Cancellation.released_shares
    leagueos_backend.Markets.Cancellation.release_shares
    leagueos_backend.Markets.Cancellation.require_cancellable_order
    leagueos_backend.Markets.Cancellation.release_cancelled
    leagueos_backend.Markets.Cancellation.cancel_locked_order
    leagueos_backend.Markets.Cancellation.cancel_order leagueos_backend.Markets.Expiry.is_admin
    leagueos_backend.Markets.Expiry.is_empty leagueos_backend.Markets.Expiry.is_absent
    leagueos_backend.Markets.Expiry.validate_request
    leagueos_backend.Markets.Expiry.require_due_order
    leagueos_backend.Markets.Expiry.release_due_shares leagueos_backend.Markets.Expiry.expiry_audit
    leagueos_backend.Markets.Expiry.clean_audit leagueos_backend.Markets.Expiry.get_expiry
    leagueos_backend.Markets.Expiry.system_expiry leagueos_backend.Markets.Expiry.is_due
    leagueos_backend.Markets.Expiry.release_due leagueos_backend.Markets.Expiry.expire_locked_order
    leagueos_backend.Markets.Expiry.expire_order leagueos_backend.Markets.Expiry.expire_all
    leagueos_backend.Markets.Expiry.expiry_time leagueos_backend.Markets.Expiry.is_earlier
    leagueos_backend.Markets.Expiry.due_ids leagueos_backend.Markets.Expiry.expire_due_orders
    leagueos_backend.Markets.Matching.is_lapsed leagueos_backend.Markets.Matching.is_fillable
    leagueos_backend.Markets.Matching.is_within leagueos_backend.Markets.Matching.is_eligible_maker
    leagueos_backend.Markets.Matching.is_better_price leagueos_backend.Markets.Matching.is_older
    leagueos_backend.Markets.Matching.has_priority leagueos_backend.Markets.Matching.insert_maker
    leagueos_backend.Markets.Matching.sort_makers
    leagueos_backend.Markets.Matching.prioritize_makers
    leagueos_backend.Markets.Matching.total_remaining leagueos_backend.Markets.Matching.is_side
    leagueos_backend.Markets.Matching.is_opposite
    leagueos_backend.Markets.Matching.complementary_quantity
    leagueos_backend.Markets.Matching.is_fok leagueos_backend.Markets.Matching.can_start
    leagueos_backend.Markets.Matching.is_trading leagueos_backend.Markets.Matching.execution_of
    leagueos_backend.Markets.Matching.match_makers leagueos_backend.Markets.Matching.match_book
    leagueos_backend.Markets.CloseCleanup.is_outstanding
    leagueos_backend.Markets.CloseCleanup.outstanding_orders
    leagueos_backend.Markets.CloseCleanup.count_cancellation
    leagueos_backend.Markets.CloseCleanup.cancellation_of
    leagueos_backend.Markets.CloseCleanup.cleanup_of
    leagueos_backend.Markets.CloseCleanup.store_cancellations
    leagueos_backend.Markets.CloseCleanup.cancel_all
    leagueos_backend.Markets.CloseCleanup.cleanup_locked_market
    leagueos_backend.Markets.Complements.is_candidate
    leagueos_backend.Markets.Complements.candidates
    leagueos_backend.Markets.Complements.is_yes_order
    leagueos_backend.Markets.Complements.complement_price
    leagueos_backend.Markets.Complements.is_affordable
    leagueos_backend.Markets.Complements.new_issuance
    leagueos_backend.Markets.Complements.clean_issuance
    leagueos_backend.Markets.Complements.insert_issuance
    leagueos_backend.Markets.Complements.get_issuance
    leagueos_backend.Markets.Complements.get_or_create_position
    leagueos_backend.Markets.Complements.get_pool
    leagueos_backend.Markets.Complements.get_or_create_pool
    leagueos_backend.Markets.Complements.save_pool
    leagueos_backend.Markets.Complements.insert_collateral_entry
    leagueos_backend.Markets.Complements.leg_settlement
    leagueos_backend.Markets.Complements.store_leg leagueos_backend.Markets.Complements.pay_leg
    leagueos_backend.Markets.Complements.fill_leg
    leagueos_backend.Markets.Complements.lock_complementary_collateral
    leagueos_backend.Markets.Complements.issue
    leagueos_backend.Markets.Complements.complement_reference
    leagueos_backend.Markets.Complements.issue_once
    leagueos_backend.Markets.Complements.match_candidates
    leagueos_backend.Markets.Complements.match_complements
    leagueos_backend.Markets.Complements.complete_match
    leagueos_backend.Markets.Complements.match_order
    leagueos_backend.Markets.Liquidity.get_configuration
    leagueos_backend.Markets.Liquidity.is_editable
    leagueos_backend.Markets.Liquidity.put_configuration
    leagueos_backend.Markets.Liquidity.configure leagueos_backend.Markets.Liquidity.outcome_of
    leagueos_backend.Markets.Liquidity.priced_outcome leagueos_backend.Markets.Liquidity.is_treasury
    leagueos_backend.Markets.Liquidity.find_provider leagueos_backend.Markets.Liquidity.get_provider
    leagueos_backend.Markets.Liquidity.treasury_request
    leagueos_backend.Markets.Liquidity.opening_issuance leagueos_backend.Markets.Liquidity.ask_price
    leagueos_backend.Markets.Liquidity.provider_position
    leagueos_backend.Markets.Liquidity.provider_order leagueos_backend.Markets.Liquidity.is_none
    leagueos_backend.Markets.Liquidity.offer leagueos_backend.Markets.Liquidity.lock_treasury
    leagueos_backend.Markets.Liquidity.activate
    leagueos_backend.Markets.Liquidity.activate_opening_liquidity
    leagueos_backend.Markets.Lifecycle.status_number leagueos_backend.Markets.Lifecycle.is_status
    leagueos_backend.Markets.Lifecycle.scope_number leagueos_backend.Markets.Lifecycle.is_scope
    leagueos_backend.Markets.Lifecycle.has_sport leagueos_backend.Markets.Lifecycle.event_id
    leagueos_backend.Markets.Lifecycle.event_ok leagueos_backend.Markets.Lifecycle.event_group_ok
    leagueos_backend.Markets.Lifecycle.template_ok leagueos_backend.Markets.Lifecycle.subject_ok
    leagueos_backend.Markets.Lifecycle.is_public leagueos_backend.Markets.Lifecycle.subject_verified
    leagueos_backend.Markets.Lifecycle.window_ok leagueos_backend.Markets.Lifecycle.winner_ok
    leagueos_backend.Markets.Lifecycle.terminal_ok leagueos_backend.Markets.Lifecycle.clean_market
    leagueos_backend.Markets.Lifecycle.is_outcome_at
    leagueos_backend.Markets.Lifecycle.has_complete_outcomes
    leagueos_backend.Markets.Lifecycle.clean_notes
    leagueos_backend.Markets.Lifecycle.validate_active_window
    leagueos_backend.Markets.Lifecycle.save_market
    leagueos_backend.Markets.Lifecycle.clean_transition
    leagueos_backend.Markets.Lifecycle.transition_of
    leagueos_backend.Markets.Lifecycle.apply_transition
    leagueos_backend.Markets.Lifecycle.begin_transition
    leagueos_backend.Markets.Lifecycle.unapproved leagueos_backend.Markets.Lifecycle.submit_market
    leagueos_backend.Markets.Lifecycle.approve_market
    leagueos_backend.Markets.Lifecycle.reject_market
    leagueos_backend.Markets.Lifecycle.revert_market_to_draft
    leagueos_backend.Markets.Lifecycle.suspend_market
    leagueos_backend.Markets.Lifecycle.reopen_market
    leagueos_backend.Markets.Lifecycle.open_for_trading
    leagueos_backend.Markets.Lifecycle.close_market
market_closed = refl

Step-IsMove_example : IsMove 1 manager reason exchange ended.0 ended.1
Step-IsMove_example =
    Step-IsMove derive_key 1 manager reason exchange ended.0 ended.1 (was_closed true market_closed)

Step-IsConsistent_example : IsConsistent trading.1.bank
Step-IsConsistent_example =
    Step-IsConsistent derive_key 1 manager reason prepared trading.0 trading.1
      (opened 88 true 500 market_opened) bank-IsConsistent

close_market-cleared_example : any (is_outstanding 1) ended.1.orders ≡ false
close_market-cleared_example =
    close_market-cleared derive_key true 1 manager reason exchange ended.0 ended.1 market_closed

abbrev finished : Exchange
finished = record exchange { markets = record market_row { status = closed } ∷ [] }

Step-is_ended_example : ¬ Step derive_key 1 manager reason finished trading.0 trading.1
unfolding leagueos_backend.Markets.Orders.get_market leagueos_backend.Prelude.find
Step-is_ended_example =
    Step-is_ended derive_key 1 manager reason finished (record market_row { status = closed })
      trading.0 trading.1 refl refl
