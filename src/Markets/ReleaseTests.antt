-- ===== src/Markets/ReleaseTests.antt =====
-- Concrete cancellations, expiries and a close cleanup, and the theorems at them.
use leagueos_backend.Prelude.{
  ℕ, ◌-◌, ◌≤◌, ◌≡◌, refl, Bool, true, false, List, [], ◌∷◌, some, none, ok, err, Result, any,
  select, total, length, arith, if◌then◌else◌, map, ◌+◌,
}
use leagueos_backend.Wallets.Model as Bank
use leagueos_backend.Wallets.Model.{LedgerEntry, User}
use leagueos_backend.Wallets.Ledger.{IsConsistent}
use leagueos_backend.Markets.Model.{
  buy, Order, cancelled, OrderStatus, gtd, Position, Exchange, Error, OrderExpiryAudit,
  CloseCleanup, admin, system,
}
use leagueos_backend.Markets.Orders.{get_order, side_eq, remaining, reserved_for, save_order}
use leagueos_backend.Markets.Positions.{get_position, save_position}
use leagueos_backend.Markets.Cancellation.{Released, cancel_locked_order, cancel_order}
use leagueos_backend.Markets.Cancellation.Releasing.{IsRelease}
use leagueos_backend.Markets.Cancellation.Final.{
  cancel_locked_order-buy, cancel_locked_order-sell, cancel_order-once,
}
use leagueos_backend.Markets.CloseCleanup.{is_outstanding, cleanup_locked_market}
use leagueos_backend.Markets.CloseCleanup.Totals.{
  buys, sells, buy_reservation, sell_reservation, cleanup_locked_market-totals,
}
use leagueos_backend.Markets.Expiry.{Expiry, is_due, expire_order, expire_due_orders}
use leagueos_backend.Markets.Expiry.Audits.{
  expire_order-IsConsistent, expire_order-replay, expire_order-due,
}
use leagueos_backend.Markets.Expiry.Runs.{expire_due_orders-IsConsistent}
use leagueos_backend.Markets.Tests.{derive_key, exchange, buy_order, sell_order, bank-IsConsistent}

-- What a call returns, or the value given.
abbrev value_of {ℓ} : {A : Type ℓ} → A → Result Error A → A
value_of a (ok b) = b
value_of a (err e) = a

abbrev nothing : Released
nothing = record { wallet_amount = 0; position_quantity = 0; wallet_entry = none }

abbrev buy_release : Released × Exchange
buy_release = value_of (nothing, exchange) (cancel_locked_order derive_key buy_order exchange)

buy_cancelled :
    cancel_locked_order derive_key buy_order exchange ≡ ok (buy_release.0, buy_release.1)
unfolding leagueos_backend.Prelude.find leagueos_backend.Prelude.select leagueos_backend.Prelude.any
    leagueos_backend.Prelude.option_eq leagueos_backend.Prelude.text_eq
    leagueos_backend.Prelude.take leagueos_backend.Prelude.total leagueos_backend.Prelude.insert_by
    leagueos_backend.Prelude.sort_by leagueos_backend.Wallets.Normalize.is_space
    leagueos_backend.Wallets.Normalize.drop_spaces leagueos_backend.Wallets.Normalize.strip
    leagueos_backend.Wallets.Normalize.upper leagueos_backend.Wallets.Normalize.is_alpha
    leagueos_backend.Wallets.Normalize.normalize_currency
    leagueos_backend.Wallets.Normalize.normalize_amount
    leagueos_backend.Wallets.Normalize.normalize_reference
    leagueos_backend.Wallets.Normalize.normalize_text
    leagueos_backend.Wallets.Transition.calculate_transition
    leagueos_backend.Wallets.Transition.credit_account
    leagueos_backend.Wallets.Transition.is_internal leagueos_backend.Wallets.Transition.is_credit
    leagueos_backend.Wallets.Transition.is_internal_entry
    leagueos_backend.Wallets.Transition.entry_type_eq leagueos_backend.Wallets.Transition.account_eq
    leagueos_backend.Wallets.Transition.entry_matches_operation
    leagueos_backend.Wallets.Execute.get_existing_entry
    leagueos_backend.Wallets.Execute.get_locked_wallet leagueos_backend.Wallets.Execute.get_wallet
    leagueos_backend.Wallets.Execute.same_context leagueos_backend.Wallets.Execute.replay_matches
    leagueos_backend.Wallets.Execute.require_matching_replay
    leagueos_backend.Wallets.Execute.replay_or leagueos_backend.Wallets.Execute.save_wallet
    leagueos_backend.Wallets.Execute.new_wallet leagueos_backend.Wallets.Execute.insert_wallet
    leagueos_backend.Wallets.Execute.obtain_wallet leagueos_backend.Wallets.Execute.clean_wallet
    leagueos_backend.Wallets.Execute.clean_entry leagueos_backend.Wallets.Execute.post
    leagueos_backend.Wallets.Execute.after_lock leagueos_backend.Wallets.Execute.perform
    leagueos_backend.Wallets.Service.execute leagueos_backend.Wallets.Service.credit
    leagueos_backend.Wallets.Service.reserve leagueos_backend.Wallets.Service.release
    leagueos_backend.Wallets.Service.debit_available
    leagueos_backend.Wallets.Service.consume_reserved leagueos_backend.Wallets.History.atomic
    leagueos_backend.Wallets.History.run leagueos_backend.Wallets.History.run_all
    leagueos_backend.Markets.Money.half_up leagueos_backend.Markets.Money.ceiling
    leagueos_backend.Markets.Money.negate leagueos_backend.Markets.Money.half_up_signed
    leagueos_backend.Markets.Money.notional leagueos_backend.Markets.Money.calculate_fee
    leagueos_backend.Markets.Money.reservation
    leagueos_backend.Markets.Money.calculate_buy_commitment
    leagueos_backend.Markets.Orders.get_order leagueos_backend.Markets.Orders.get_outcome
    leagueos_backend.Markets.Orders.get_market leagueos_backend.Markets.Orders.save_order
    leagueos_backend.Markets.Orders.side_eq leagueos_backend.Markets.Orders.is_fillable_status
    leagueos_backend.Markets.Orders.is_gtd leagueos_backend.Markets.Orders.is_expired_status
    leagueos_backend.Markets.Orders.remaining leagueos_backend.Markets.Orders.previous_average
    leagueos_backend.Markets.Orders.apply_fill_to_order
    leagueos_backend.Markets.Orders.outcome_belongs leagueos_backend.Markets.Orders.is_price
    leagueos_backend.Markets.Orders.expiry_ok leagueos_backend.Markets.Orders.clean_order
    leagueos_backend.Markets.Orders.reserved_for leagueos_backend.Markets.Positions.get_position
    leagueos_backend.Markets.Positions.empty_position
    leagueos_backend.Markets.Positions.apply_buy_to_position
    leagueos_backend.Markets.Positions.released_cost
    leagueos_backend.Markets.Positions.apply_sell_to_position
    leagueos_backend.Markets.Positions.clean_position
    leagueos_backend.Markets.Positions.save_position
    leagueos_backend.Markets.Cancellation.order_request
    leagueos_backend.Markets.Cancellation.release_funds
    leagueos_backend.Markets.Cancellation.unreserve
    leagueos_backend.Markets.Cancellation.released_shares
    leagueos_backend.Markets.Cancellation.release_shares
    leagueos_backend.Markets.Cancellation.require_cancellable_order
    leagueos_backend.Markets.Cancellation.release_cancelled
    leagueos_backend.Markets.Cancellation.cancel_locked_order
    leagueos_backend.Markets.Cancellation.cancel_order leagueos_backend.Markets.Expiry.is_admin
    leagueos_backend.Markets.Expiry.is_empty leagueos_backend.Markets.Expiry.is_absent
    leagueos_backend.Markets.Expiry.validate_request
    leagueos_backend.Markets.Expiry.require_due_order
    leagueos_backend.Markets.Expiry.release_due_shares leagueos_backend.Markets.Expiry.expiry_audit
    leagueos_backend.Markets.Expiry.clean_audit leagueos_backend.Markets.Expiry.get_expiry
    leagueos_backend.Markets.Expiry.system_expiry leagueos_backend.Markets.Expiry.is_due
    leagueos_backend.Markets.Expiry.release_due leagueos_backend.Markets.Expiry.expire_locked_order
    leagueos_backend.Markets.Expiry.expire_order leagueos_backend.Markets.Expiry.expire_all
    leagueos_backend.Markets.Expiry.expiry_time leagueos_backend.Markets.Expiry.is_earlier
    leagueos_backend.Markets.Expiry.due_ids leagueos_backend.Markets.Expiry.expire_due_orders
    leagueos_backend.Markets.CloseCleanup.is_outstanding
    leagueos_backend.Markets.CloseCleanup.outstanding_orders
    leagueos_backend.Markets.CloseCleanup.count_cancellation
    leagueos_backend.Markets.CloseCleanup.cancellation_of
    leagueos_backend.Markets.CloseCleanup.cleanup_of
    leagueos_backend.Markets.CloseCleanup.store_cancellations
    leagueos_backend.Markets.CloseCleanup.cancel_all
    leagueos_backend.Markets.CloseCleanup.cleanup_locked_market
buy_cancelled = refl

abbrev sell_release : Released × Exchange
sell_release = value_of (nothing, exchange) (cancel_locked_order derive_key sell_order exchange)

sell_cancelled :
    cancel_locked_order derive_key sell_order exchange ≡ ok (sell_release.0, sell_release.1)
unfolding leagueos_backend.Prelude.find leagueos_backend.Prelude.select leagueos_backend.Prelude.any
    leagueos_backend.Prelude.option_eq leagueos_backend.Prelude.text_eq
    leagueos_backend.Prelude.take leagueos_backend.Prelude.total leagueos_backend.Prelude.insert_by
    leagueos_backend.Prelude.sort_by leagueos_backend.Wallets.Normalize.is_space
    leagueos_backend.Wallets.Normalize.drop_spaces leagueos_backend.Wallets.Normalize.strip
    leagueos_backend.Wallets.Normalize.upper leagueos_backend.Wallets.Normalize.is_alpha
    leagueos_backend.Wallets.Normalize.normalize_currency
    leagueos_backend.Wallets.Normalize.normalize_amount
    leagueos_backend.Wallets.Normalize.normalize_reference
    leagueos_backend.Wallets.Normalize.normalize_text
    leagueos_backend.Wallets.Transition.calculate_transition
    leagueos_backend.Wallets.Transition.credit_account
    leagueos_backend.Wallets.Transition.is_internal leagueos_backend.Wallets.Transition.is_credit
    leagueos_backend.Wallets.Transition.is_internal_entry
    leagueos_backend.Wallets.Transition.entry_type_eq leagueos_backend.Wallets.Transition.account_eq
    leagueos_backend.Wallets.Transition.entry_matches_operation
    leagueos_backend.Wallets.Execute.get_existing_entry
    leagueos_backend.Wallets.Execute.get_locked_wallet leagueos_backend.Wallets.Execute.get_wallet
    leagueos_backend.Wallets.Execute.same_context leagueos_backend.Wallets.Execute.replay_matches
    leagueos_backend.Wallets.Execute.require_matching_replay
    leagueos_backend.Wallets.Execute.replay_or leagueos_backend.Wallets.Execute.save_wallet
    leagueos_backend.Wallets.Execute.new_wallet leagueos_backend.Wallets.Execute.insert_wallet
    leagueos_backend.Wallets.Execute.obtain_wallet leagueos_backend.Wallets.Execute.clean_wallet
    leagueos_backend.Wallets.Execute.clean_entry leagueos_backend.Wallets.Execute.post
    leagueos_backend.Wallets.Execute.after_lock leagueos_backend.Wallets.Execute.perform
    leagueos_backend.Wallets.Service.execute leagueos_backend.Wallets.Service.credit
    leagueos_backend.Wallets.Service.reserve leagueos_backend.Wallets.Service.release
    leagueos_backend.Wallets.Service.debit_available
    leagueos_backend.Wallets.Service.consume_reserved leagueos_backend.Wallets.History.atomic
    leagueos_backend.Wallets.History.run leagueos_backend.Wallets.History.run_all
    leagueos_backend.Markets.Money.half_up leagueos_backend.Markets.Money.ceiling
    leagueos_backend.Markets.Money.negate leagueos_backend.Markets.Money.half_up_signed
    leagueos_backend.Markets.Money.notional leagueos_backend.Markets.Money.calculate_fee
    leagueos_backend.Markets.Money.reservation
    leagueos_backend.Markets.Money.calculate_buy_commitment
    leagueos_backend.Markets.Orders.get_order leagueos_backend.Markets.Orders.get_outcome
    leagueos_backend.Markets.Orders.get_market leagueos_backend.Markets.Orders.save_order
    leagueos_backend.Markets.Orders.side_eq leagueos_backend.Markets.Orders.is_fillable_status
    leagueos_backend.Markets.Orders.is_gtd leagueos_backend.Markets.Orders.is_expired_status
    leagueos_backend.Markets.Orders.remaining leagueos_backend.Markets.Orders.previous_average
    leagueos_backend.Markets.Orders.apply_fill_to_order
    leagueos_backend.Markets.Orders.outcome_belongs leagueos_backend.Markets.Orders.is_price
    leagueos_backend.Markets.Orders.expiry_ok leagueos_backend.Markets.Orders.clean_order
    leagueos_backend.Markets.Orders.reserved_for leagueos_backend.Markets.Positions.get_position
    leagueos_backend.Markets.Positions.empty_position
    leagueos_backend.Markets.Positions.apply_buy_to_position
    leagueos_backend.Markets.Positions.released_cost
    leagueos_backend.Markets.Positions.apply_sell_to_position
    leagueos_backend.Markets.Positions.clean_position
    leagueos_backend.Markets.Positions.save_position
    leagueos_backend.Markets.Cancellation.order_request
    leagueos_backend.Markets.Cancellation.release_funds
    leagueos_backend.Markets.Cancellation.unreserve
    leagueos_backend.Markets.Cancellation.released_shares
    leagueos_backend.Markets.Cancellation.release_shares
    leagueos_backend.Markets.Cancellation.require_cancellable_order
    leagueos_backend.Markets.Cancellation.release_cancelled
    leagueos_backend.Markets.Cancellation.cancel_locked_order
    leagueos_backend.Markets.Cancellation.cancel_order leagueos_backend.Markets.Expiry.is_admin
    leagueos_backend.Markets.Expiry.is_empty leagueos_backend.Markets.Expiry.is_absent
    leagueos_backend.Markets.Expiry.validate_request
    leagueos_backend.Markets.Expiry.require_due_order
    leagueos_backend.Markets.Expiry.release_due_shares leagueos_backend.Markets.Expiry.expiry_audit
    leagueos_backend.Markets.Expiry.clean_audit leagueos_backend.Markets.Expiry.get_expiry
    leagueos_backend.Markets.Expiry.system_expiry leagueos_backend.Markets.Expiry.is_due
    leagueos_backend.Markets.Expiry.release_due leagueos_backend.Markets.Expiry.expire_locked_order
    leagueos_backend.Markets.Expiry.expire_order leagueos_backend.Markets.Expiry.expire_all
    leagueos_backend.Markets.Expiry.expiry_time leagueos_backend.Markets.Expiry.is_earlier
    leagueos_backend.Markets.Expiry.due_ids leagueos_backend.Markets.Expiry.expire_due_orders
    leagueos_backend.Markets.CloseCleanup.is_outstanding
    leagueos_backend.Markets.CloseCleanup.outstanding_orders
    leagueos_backend.Markets.CloseCleanup.count_cancellation
    leagueos_backend.Markets.CloseCleanup.cancellation_of
    leagueos_backend.Markets.CloseCleanup.cleanup_of
    leagueos_backend.Markets.CloseCleanup.store_cancellations
    leagueos_backend.Markets.CloseCleanup.cancel_all
    leagueos_backend.Markets.CloseCleanup.cleanup_locked_market
sell_cancelled = refl

cancel_locked_order-buy_example :
    (e : LedgerEntry) × (buy_release.1.bank.entries ≡ e ∷ exchange.bank.entries)
    × IsRelease buy_order e
    × (buy_release.0.wallet_amount ≡ reserved_for buy_order)
    × (buy_release.0.position_quantity ≡ 0)
unfolding leagueos_backend.Prelude.find leagueos_backend.Prelude.select leagueos_backend.Prelude.any
    leagueos_backend.Prelude.option_eq leagueos_backend.Prelude.text_eq
    leagueos_backend.Prelude.take leagueos_backend.Prelude.total leagueos_backend.Prelude.insert_by
    leagueos_backend.Prelude.sort_by leagueos_backend.Wallets.Normalize.is_space
    leagueos_backend.Wallets.Normalize.drop_spaces leagueos_backend.Wallets.Normalize.strip
    leagueos_backend.Wallets.Normalize.upper leagueos_backend.Wallets.Normalize.is_alpha
    leagueos_backend.Wallets.Normalize.normalize_currency
    leagueos_backend.Wallets.Normalize.normalize_amount
    leagueos_backend.Wallets.Normalize.normalize_reference
    leagueos_backend.Wallets.Normalize.normalize_text
    leagueos_backend.Wallets.Transition.calculate_transition
    leagueos_backend.Wallets.Transition.credit_account
    leagueos_backend.Wallets.Transition.is_internal leagueos_backend.Wallets.Transition.is_credit
    leagueos_backend.Wallets.Transition.is_internal_entry
    leagueos_backend.Wallets.Transition.entry_type_eq leagueos_backend.Wallets.Transition.account_eq
    leagueos_backend.Wallets.Transition.entry_matches_operation
    leagueos_backend.Wallets.Execute.get_existing_entry
    leagueos_backend.Wallets.Execute.get_locked_wallet leagueos_backend.Wallets.Execute.get_wallet
    leagueos_backend.Wallets.Execute.same_context leagueos_backend.Wallets.Execute.replay_matches
    leagueos_backend.Wallets.Execute.require_matching_replay
    leagueos_backend.Wallets.Execute.replay_or leagueos_backend.Wallets.Execute.save_wallet
    leagueos_backend.Wallets.Execute.new_wallet leagueos_backend.Wallets.Execute.insert_wallet
    leagueos_backend.Wallets.Execute.obtain_wallet leagueos_backend.Wallets.Execute.clean_wallet
    leagueos_backend.Wallets.Execute.clean_entry leagueos_backend.Wallets.Execute.post
    leagueos_backend.Wallets.Execute.after_lock leagueos_backend.Wallets.Execute.perform
    leagueos_backend.Wallets.Service.execute leagueos_backend.Wallets.Service.credit
    leagueos_backend.Wallets.Service.reserve leagueos_backend.Wallets.Service.release
    leagueos_backend.Wallets.Service.debit_available
    leagueos_backend.Wallets.Service.consume_reserved leagueos_backend.Wallets.History.atomic
    leagueos_backend.Wallets.History.run leagueos_backend.Wallets.History.run_all
    leagueos_backend.Markets.Money.half_up leagueos_backend.Markets.Money.ceiling
    leagueos_backend.Markets.Money.negate leagueos_backend.Markets.Money.half_up_signed
    leagueos_backend.Markets.Money.notional leagueos_backend.Markets.Money.calculate_fee
    leagueos_backend.Markets.Money.reservation
    leagueos_backend.Markets.Money.calculate_buy_commitment
    leagueos_backend.Markets.Orders.get_order leagueos_backend.Markets.Orders.get_outcome
    leagueos_backend.Markets.Orders.get_market leagueos_backend.Markets.Orders.save_order
    leagueos_backend.Markets.Orders.side_eq leagueos_backend.Markets.Orders.is_fillable_status
    leagueos_backend.Markets.Orders.is_gtd leagueos_backend.Markets.Orders.is_expired_status
    leagueos_backend.Markets.Orders.remaining leagueos_backend.Markets.Orders.previous_average
    leagueos_backend.Markets.Orders.apply_fill_to_order
    leagueos_backend.Markets.Orders.outcome_belongs leagueos_backend.Markets.Orders.is_price
    leagueos_backend.Markets.Orders.expiry_ok leagueos_backend.Markets.Orders.clean_order
    leagueos_backend.Markets.Orders.reserved_for leagueos_backend.Markets.Positions.get_position
    leagueos_backend.Markets.Positions.empty_position
    leagueos_backend.Markets.Positions.apply_buy_to_position
    leagueos_backend.Markets.Positions.released_cost
    leagueos_backend.Markets.Positions.apply_sell_to_position
    leagueos_backend.Markets.Positions.clean_position
    leagueos_backend.Markets.Positions.save_position
    leagueos_backend.Markets.Cancellation.order_request
    leagueos_backend.Markets.Cancellation.release_funds
    leagueos_backend.Markets.Cancellation.unreserve
    leagueos_backend.Markets.Cancellation.released_shares
    leagueos_backend.Markets.Cancellation.release_shares
    leagueos_backend.Markets.Cancellation.require_cancellable_order
    leagueos_backend.Markets.Cancellation.release_cancelled
    leagueos_backend.Markets.Cancellation.cancel_locked_order
    leagueos_backend.Markets.Cancellation.cancel_order leagueos_backend.Markets.Expiry.is_admin
    leagueos_backend.Markets.Expiry.is_empty leagueos_backend.Markets.Expiry.is_absent
    leagueos_backend.Markets.Expiry.validate_request
    leagueos_backend.Markets.Expiry.require_due_order
    leagueos_backend.Markets.Expiry.release_due_shares leagueos_backend.Markets.Expiry.expiry_audit
    leagueos_backend.Markets.Expiry.clean_audit leagueos_backend.Markets.Expiry.get_expiry
    leagueos_backend.Markets.Expiry.system_expiry leagueos_backend.Markets.Expiry.is_due
    leagueos_backend.Markets.Expiry.release_due leagueos_backend.Markets.Expiry.expire_locked_order
    leagueos_backend.Markets.Expiry.expire_order leagueos_backend.Markets.Expiry.expire_all
    leagueos_backend.Markets.Expiry.expiry_time leagueos_backend.Markets.Expiry.is_earlier
    leagueos_backend.Markets.Expiry.due_ids leagueos_backend.Markets.Expiry.expire_due_orders
    leagueos_backend.Markets.CloseCleanup.is_outstanding
    leagueos_backend.Markets.CloseCleanup.outstanding_orders
    leagueos_backend.Markets.CloseCleanup.count_cancellation
    leagueos_backend.Markets.CloseCleanup.cancellation_of
    leagueos_backend.Markets.CloseCleanup.cleanup_of
    leagueos_backend.Markets.CloseCleanup.store_cancellations
    leagueos_backend.Markets.CloseCleanup.cancel_all
    leagueos_backend.Markets.CloseCleanup.cleanup_locked_market
cancel_locked_order-buy_example =
    cancel_locked_order-buy derive_key buy_order exchange buy_release.0 buy_release.1 buy_cancelled
      refl refl

cancel_locked_order-sell_example :
    (p : Position) × (get_position 2 1 2 exchange ≡ some p)
    × (remaining sell_order ≤ p.reserved_quantity)
    × (sell_release.1.positions
        ≡ save_position
            (record p { reserved_quantity = p.reserved_quantity - remaining sell_order })
            exchange.positions)
    × (sell_release.0.position_quantity ≡ remaining sell_order)
    × (sell_release.1.bank ≡ exchange.bank)
cancel_locked_order-sell_example =
    cancel_locked_order-sell derive_key sell_order exchange sell_release.0 sell_release.1
      sell_cancelled refl

abbrev buyer : User
buyer = record { id = 1; is_active = true; is_verified = true }

owner_cancelled : cancel_order derive_key buyer true 3 exchange ≡ ok (buy_release.0, buy_release.1)
unfolding leagueos_backend.Prelude.find leagueos_backend.Prelude.select leagueos_backend.Prelude.any
    leagueos_backend.Prelude.option_eq leagueos_backend.Prelude.text_eq
    leagueos_backend.Prelude.take leagueos_backend.Prelude.total leagueos_backend.Prelude.insert_by
    leagueos_backend.Prelude.sort_by leagueos_backend.Wallets.Normalize.is_space
    leagueos_backend.Wallets.Normalize.drop_spaces leagueos_backend.Wallets.Normalize.strip
    leagueos_backend.Wallets.Normalize.upper leagueos_backend.Wallets.Normalize.is_alpha
    leagueos_backend.Wallets.Normalize.normalize_currency
    leagueos_backend.Wallets.Normalize.normalize_amount
    leagueos_backend.Wallets.Normalize.normalize_reference
    leagueos_backend.Wallets.Normalize.normalize_text
    leagueos_backend.Wallets.Transition.calculate_transition
    leagueos_backend.Wallets.Transition.credit_account
    leagueos_backend.Wallets.Transition.is_internal leagueos_backend.Wallets.Transition.is_credit
    leagueos_backend.Wallets.Transition.is_internal_entry
    leagueos_backend.Wallets.Transition.entry_type_eq leagueos_backend.Wallets.Transition.account_eq
    leagueos_backend.Wallets.Transition.entry_matches_operation
    leagueos_backend.Wallets.Execute.get_existing_entry
    leagueos_backend.Wallets.Execute.get_locked_wallet leagueos_backend.Wallets.Execute.get_wallet
    leagueos_backend.Wallets.Execute.same_context leagueos_backend.Wallets.Execute.replay_matches
    leagueos_backend.Wallets.Execute.require_matching_replay
    leagueos_backend.Wallets.Execute.replay_or leagueos_backend.Wallets.Execute.save_wallet
    leagueos_backend.Wallets.Execute.new_wallet leagueos_backend.Wallets.Execute.insert_wallet
    leagueos_backend.Wallets.Execute.obtain_wallet leagueos_backend.Wallets.Execute.clean_wallet
    leagueos_backend.Wallets.Execute.clean_entry leagueos_backend.Wallets.Execute.post
    leagueos_backend.Wallets.Execute.after_lock leagueos_backend.Wallets.Execute.perform
    leagueos_backend.Wallets.Service.execute leagueos_backend.Wallets.Service.credit
    leagueos_backend.Wallets.Service.reserve leagueos_backend.Wallets.Service.release
    leagueos_backend.Wallets.Service.debit_available
    leagueos_backend.Wallets.Service.consume_reserved leagueos_backend.Wallets.History.atomic
    leagueos_backend.Wallets.History.run leagueos_backend.Wallets.History.run_all
    leagueos_backend.Markets.Money.half_up leagueos_backend.Markets.Money.ceiling
    leagueos_backend.Markets.Money.negate leagueos_backend.Markets.Money.half_up_signed
    leagueos_backend.Markets.Money.notional leagueos_backend.Markets.Money.calculate_fee
    leagueos_backend.Markets.Money.reservation
    leagueos_backend.Markets.Money.calculate_buy_commitment
    leagueos_backend.Markets.Orders.get_order leagueos_backend.Markets.Orders.get_outcome
    leagueos_backend.Markets.Orders.get_market leagueos_backend.Markets.Orders.save_order
    leagueos_backend.Markets.Orders.side_eq leagueos_backend.Markets.Orders.is_fillable_status
    leagueos_backend.Markets.Orders.is_gtd leagueos_backend.Markets.Orders.is_expired_status
    leagueos_backend.Markets.Orders.remaining leagueos_backend.Markets.Orders.previous_average
    leagueos_backend.Markets.Orders.apply_fill_to_order
    leagueos_backend.Markets.Orders.outcome_belongs leagueos_backend.Markets.Orders.is_price
    leagueos_backend.Markets.Orders.expiry_ok leagueos_backend.Markets.Orders.clean_order
    leagueos_backend.Markets.Orders.reserved_for leagueos_backend.Markets.Positions.get_position
    leagueos_backend.Markets.Positions.empty_position
    leagueos_backend.Markets.Positions.apply_buy_to_position
    leagueos_backend.Markets.Positions.released_cost
    leagueos_backend.Markets.Positions.apply_sell_to_position
    leagueos_backend.Markets.Positions.clean_position
    leagueos_backend.Markets.Positions.save_position
    leagueos_backend.Markets.Cancellation.order_request
    leagueos_backend.Markets.Cancellation.release_funds
    leagueos_backend.Markets.Cancellation.unreserve
    leagueos_backend.Markets.Cancellation.released_shares
    leagueos_backend.Markets.Cancellation.release_shares
    leagueos_backend.Markets.Cancellation.require_cancellable_order
    leagueos_backend.Markets.Cancellation.release_cancelled
    leagueos_backend.Markets.Cancellation.cancel_locked_order
    leagueos_backend.Markets.Cancellation.cancel_order leagueos_backend.Markets.Expiry.is_admin
    leagueos_backend.Markets.Expiry.is_empty leagueos_backend.Markets.Expiry.is_absent
    leagueos_backend.Markets.Expiry.validate_request
    leagueos_backend.Markets.Expiry.require_due_order
    leagueos_backend.Markets.Expiry.release_due_shares leagueos_backend.Markets.Expiry.expiry_audit
    leagueos_backend.Markets.Expiry.clean_audit leagueos_backend.Markets.Expiry.get_expiry
    leagueos_backend.Markets.Expiry.system_expiry leagueos_backend.Markets.Expiry.is_due
    leagueos_backend.Markets.Expiry.release_due leagueos_backend.Markets.Expiry.expire_locked_order
    leagueos_backend.Markets.Expiry.expire_order leagueos_backend.Markets.Expiry.expire_all
    leagueos_backend.Markets.Expiry.expiry_time leagueos_backend.Markets.Expiry.is_earlier
    leagueos_backend.Markets.Expiry.due_ids leagueos_backend.Markets.Expiry.expire_due_orders
    leagueos_backend.Markets.CloseCleanup.is_outstanding
    leagueos_backend.Markets.CloseCleanup.outstanding_orders
    leagueos_backend.Markets.CloseCleanup.count_cancellation
    leagueos_backend.Markets.CloseCleanup.cancellation_of
    leagueos_backend.Markets.CloseCleanup.cleanup_of
    leagueos_backend.Markets.CloseCleanup.store_cancellations
    leagueos_backend.Markets.CloseCleanup.cancel_all
    leagueos_backend.Markets.CloseCleanup.cleanup_locked_market
owner_cancelled = refl

cancel_order-once_example :
    ¬ (cancel_order derive_key buyer true 3 buy_release.1 ≡ ok (buy_release.0, exchange))
cancel_order-once_example =
    cancel_order-once derive_key buyer buyer true true 3 exchange buy_release.0 buy_release.1
      (buy_release.0, exchange) owner_cancelled

-- The cleanup of the market, which has both orders.
abbrev no_cleanup : CloseCleanup
no_cleanup = record {
  id = 0;
  market = 0;
  total_cancelled_order_count = 0;
  cancelled_buy_order_count = 0;
  cancelled_sell_order_count = 0;
  total_released_buy_reservation_amount = 0;
  total_released_sell_reservation_quantity = 0;
  executed_by = 0;
}

abbrev cleaned : CloseCleanup × Exchange
cleaned = value_of (no_cleanup, exchange) (cleanup_locked_market derive_key 1 7 exchange)

market_cleaned : cleanup_locked_market derive_key 1 7 exchange ≡ ok (cleaned.0, cleaned.1)
unfolding leagueos_backend.Prelude.find leagueos_backend.Prelude.select leagueos_backend.Prelude.any
    leagueos_backend.Prelude.option_eq leagueos_backend.Prelude.text_eq
    leagueos_backend.Prelude.take leagueos_backend.Prelude.total leagueos_backend.Prelude.insert_by
    leagueos_backend.Prelude.sort_by leagueos_backend.Wallets.Normalize.is_space
    leagueos_backend.Wallets.Normalize.drop_spaces leagueos_backend.Wallets.Normalize.strip
    leagueos_backend.Wallets.Normalize.upper leagueos_backend.Wallets.Normalize.is_alpha
    leagueos_backend.Wallets.Normalize.normalize_currency
    leagueos_backend.Wallets.Normalize.normalize_amount
    leagueos_backend.Wallets.Normalize.normalize_reference
    leagueos_backend.Wallets.Normalize.normalize_text
    leagueos_backend.Wallets.Transition.calculate_transition
    leagueos_backend.Wallets.Transition.credit_account
    leagueos_backend.Wallets.Transition.is_internal leagueos_backend.Wallets.Transition.is_credit
    leagueos_backend.Wallets.Transition.is_internal_entry
    leagueos_backend.Wallets.Transition.entry_type_eq leagueos_backend.Wallets.Transition.account_eq
    leagueos_backend.Wallets.Transition.entry_matches_operation
    leagueos_backend.Wallets.Execute.get_existing_entry
    leagueos_backend.Wallets.Execute.get_locked_wallet leagueos_backend.Wallets.Execute.get_wallet
    leagueos_backend.Wallets.Execute.same_context leagueos_backend.Wallets.Execute.replay_matches
    leagueos_backend.Wallets.Execute.require_matching_replay
    leagueos_backend.Wallets.Execute.replay_or leagueos_backend.Wallets.Execute.save_wallet
    leagueos_backend.Wallets.Execute.new_wallet leagueos_backend.Wallets.Execute.insert_wallet
    leagueos_backend.Wallets.Execute.obtain_wallet leagueos_backend.Wallets.Execute.clean_wallet
    leagueos_backend.Wallets.Execute.clean_entry leagueos_backend.Wallets.Execute.post
    leagueos_backend.Wallets.Execute.after_lock leagueos_backend.Wallets.Execute.perform
    leagueos_backend.Wallets.Service.execute leagueos_backend.Wallets.Service.credit
    leagueos_backend.Wallets.Service.reserve leagueos_backend.Wallets.Service.release
    leagueos_backend.Wallets.Service.debit_available
    leagueos_backend.Wallets.Service.consume_reserved leagueos_backend.Wallets.History.atomic
    leagueos_backend.Wallets.History.run leagueos_backend.Wallets.History.run_all
    leagueos_backend.Markets.Money.half_up leagueos_backend.Markets.Money.ceiling
    leagueos_backend.Markets.Money.negate leagueos_backend.Markets.Money.half_up_signed
    leagueos_backend.Markets.Money.notional leagueos_backend.Markets.Money.calculate_fee
    leagueos_backend.Markets.Money.reservation
    leagueos_backend.Markets.Money.calculate_buy_commitment
    leagueos_backend.Markets.Orders.get_order leagueos_backend.Markets.Orders.get_outcome
    leagueos_backend.Markets.Orders.get_market leagueos_backend.Markets.Orders.save_order
    leagueos_backend.Markets.Orders.side_eq leagueos_backend.Markets.Orders.is_fillable_status
    leagueos_backend.Markets.Orders.is_gtd leagueos_backend.Markets.Orders.is_expired_status
    leagueos_backend.Markets.Orders.remaining leagueos_backend.Markets.Orders.previous_average
    leagueos_backend.Markets.Orders.apply_fill_to_order
    leagueos_backend.Markets.Orders.outcome_belongs leagueos_backend.Markets.Orders.is_price
    leagueos_backend.Markets.Orders.expiry_ok leagueos_backend.Markets.Orders.clean_order
    leagueos_backend.Markets.Orders.reserved_for leagueos_backend.Markets.Positions.get_position
    leagueos_backend.Markets.Positions.empty_position
    leagueos_backend.Markets.Positions.apply_buy_to_position
    leagueos_backend.Markets.Positions.released_cost
    leagueos_backend.Markets.Positions.apply_sell_to_position
    leagueos_backend.Markets.Positions.clean_position
    leagueos_backend.Markets.Positions.save_position
    leagueos_backend.Markets.Cancellation.order_request
    leagueos_backend.Markets.Cancellation.release_funds
    leagueos_backend.Markets.Cancellation.unreserve
    leagueos_backend.Markets.Cancellation.released_shares
    leagueos_backend.Markets.Cancellation.release_shares
    leagueos_backend.Markets.Cancellation.require_cancellable_order
    leagueos_backend.Markets.Cancellation.release_cancelled
    leagueos_backend.Markets.Cancellation.cancel_locked_order
    leagueos_backend.Markets.Cancellation.cancel_order leagueos_backend.Markets.Expiry.is_admin
    leagueos_backend.Markets.Expiry.is_empty leagueos_backend.Markets.Expiry.is_absent
    leagueos_backend.Markets.Expiry.validate_request
    leagueos_backend.Markets.Expiry.require_due_order
    leagueos_backend.Markets.Expiry.release_due_shares leagueos_backend.Markets.Expiry.expiry_audit
    leagueos_backend.Markets.Expiry.clean_audit leagueos_backend.Markets.Expiry.get_expiry
    leagueos_backend.Markets.Expiry.system_expiry leagueos_backend.Markets.Expiry.is_due
    leagueos_backend.Markets.Expiry.release_due leagueos_backend.Markets.Expiry.expire_locked_order
    leagueos_backend.Markets.Expiry.expire_order leagueos_backend.Markets.Expiry.expire_all
    leagueos_backend.Markets.Expiry.expiry_time leagueos_backend.Markets.Expiry.is_earlier
    leagueos_backend.Markets.Expiry.due_ids leagueos_backend.Markets.Expiry.expire_due_orders
    leagueos_backend.Markets.CloseCleanup.is_outstanding
    leagueos_backend.Markets.CloseCleanup.outstanding_orders
    leagueos_backend.Markets.CloseCleanup.count_cancellation
    leagueos_backend.Markets.CloseCleanup.cancellation_of
    leagueos_backend.Markets.CloseCleanup.cleanup_of
    leagueos_backend.Markets.CloseCleanup.store_cancellations
    leagueos_backend.Markets.CloseCleanup.cancel_all
    leagueos_backend.Markets.CloseCleanup.cleanup_locked_market
market_cleaned = refl

cleanup_locked_market-totals_example :
    let os = select (is_outstanding 1) exchange.orders in
    (cleaned.0.total_cancelled_order_count ≡ length os)
    × (cleaned.0.cancelled_buy_order_count ≡ total buys os)
    × (cleaned.0.cancelled_sell_order_count ≡ total sells os)
    × (cleaned.0.total_released_buy_reservation_amount ≡ total buy_reservation os)
    × (cleaned.0.total_released_sell_reservation_quantity ≡ total sell_reservation os)
cleanup_locked_market-totals_example =
    cleanup_locked_market-totals derive_key 1 7 exchange cleaned.0 cleaned.1 market_cleaned

-- The same orders, good until 900.
abbrev dated_order : Order
dated_order = record buy_order { time_in_force = gtd; expires_at = some 900 }

abbrev dated : Exchange
dated = record exchange {
  orders = dated_order ∷ record sell_order { time_in_force = gtd; expires_at = some 800 } ∷ [];
}

abbrev overdue : Expiry
overdue = record { order_id = 3; source = some system; reason = Bank.codes " late "; actor = none }

abbrev no_audit : OrderExpiryAudit
no_audit = record {
  market_order = 0;
  source = system;
  previous_status = cancelled;
  expired_quantity = 0;
  released_wallet_reservation_amount = 0;
  released_position_reservation_quantity = 0;
  wallet_release_ledger_entry = none;
  actor = none;
  reason = [];
  expired_at = 0;
}

abbrev expired : OrderExpiryAudit × Exchange
expired = value_of (no_audit, dated) (expire_order derive_key 900 overdue dated)

order_expired : expire_order derive_key 900 overdue dated ≡ ok (expired.0, expired.1)
unfolding leagueos_backend.Prelude.find leagueos_backend.Prelude.select leagueos_backend.Prelude.any
    leagueos_backend.Prelude.option_eq leagueos_backend.Prelude.text_eq
    leagueos_backend.Prelude.take leagueos_backend.Prelude.total leagueos_backend.Prelude.insert_by
    leagueos_backend.Prelude.sort_by leagueos_backend.Wallets.Normalize.is_space
    leagueos_backend.Wallets.Normalize.drop_spaces leagueos_backend.Wallets.Normalize.strip
    leagueos_backend.Wallets.Normalize.upper leagueos_backend.Wallets.Normalize.is_alpha
    leagueos_backend.Wallets.Normalize.normalize_currency
    leagueos_backend.Wallets.Normalize.normalize_amount
    leagueos_backend.Wallets.Normalize.normalize_reference
    leagueos_backend.Wallets.Normalize.normalize_text
    leagueos_backend.Wallets.Transition.calculate_transition
    leagueos_backend.Wallets.Transition.credit_account
    leagueos_backend.Wallets.Transition.is_internal leagueos_backend.Wallets.Transition.is_credit
    leagueos_backend.Wallets.Transition.is_internal_entry
    leagueos_backend.Wallets.Transition.entry_type_eq leagueos_backend.Wallets.Transition.account_eq
    leagueos_backend.Wallets.Transition.entry_matches_operation
    leagueos_backend.Wallets.Execute.get_existing_entry
    leagueos_backend.Wallets.Execute.get_locked_wallet leagueos_backend.Wallets.Execute.get_wallet
    leagueos_backend.Wallets.Execute.same_context leagueos_backend.Wallets.Execute.replay_matches
    leagueos_backend.Wallets.Execute.require_matching_replay
    leagueos_backend.Wallets.Execute.replay_or leagueos_backend.Wallets.Execute.save_wallet
    leagueos_backend.Wallets.Execute.new_wallet leagueos_backend.Wallets.Execute.insert_wallet
    leagueos_backend.Wallets.Execute.obtain_wallet leagueos_backend.Wallets.Execute.clean_wallet
    leagueos_backend.Wallets.Execute.clean_entry leagueos_backend.Wallets.Execute.post
    leagueos_backend.Wallets.Execute.after_lock leagueos_backend.Wallets.Execute.perform
    leagueos_backend.Wallets.Service.execute leagueos_backend.Wallets.Service.credit
    leagueos_backend.Wallets.Service.reserve leagueos_backend.Wallets.Service.release
    leagueos_backend.Wallets.Service.debit_available
    leagueos_backend.Wallets.Service.consume_reserved leagueos_backend.Wallets.History.atomic
    leagueos_backend.Wallets.History.run leagueos_backend.Wallets.History.run_all
    leagueos_backend.Markets.Money.half_up leagueos_backend.Markets.Money.ceiling
    leagueos_backend.Markets.Money.negate leagueos_backend.Markets.Money.half_up_signed
    leagueos_backend.Markets.Money.notional leagueos_backend.Markets.Money.calculate_fee
    leagueos_backend.Markets.Money.reservation
    leagueos_backend.Markets.Money.calculate_buy_commitment
    leagueos_backend.Markets.Orders.get_order leagueos_backend.Markets.Orders.get_outcome
    leagueos_backend.Markets.Orders.get_market leagueos_backend.Markets.Orders.save_order
    leagueos_backend.Markets.Orders.side_eq leagueos_backend.Markets.Orders.is_fillable_status
    leagueos_backend.Markets.Orders.is_gtd leagueos_backend.Markets.Orders.is_expired_status
    leagueos_backend.Markets.Orders.remaining leagueos_backend.Markets.Orders.previous_average
    leagueos_backend.Markets.Orders.apply_fill_to_order
    leagueos_backend.Markets.Orders.outcome_belongs leagueos_backend.Markets.Orders.is_price
    leagueos_backend.Markets.Orders.expiry_ok leagueos_backend.Markets.Orders.clean_order
    leagueos_backend.Markets.Orders.reserved_for leagueos_backend.Markets.Positions.get_position
    leagueos_backend.Markets.Positions.empty_position
    leagueos_backend.Markets.Positions.apply_buy_to_position
    leagueos_backend.Markets.Positions.released_cost
    leagueos_backend.Markets.Positions.apply_sell_to_position
    leagueos_backend.Markets.Positions.clean_position
    leagueos_backend.Markets.Positions.save_position
    leagueos_backend.Markets.Cancellation.order_request
    leagueos_backend.Markets.Cancellation.release_funds
    leagueos_backend.Markets.Cancellation.unreserve
    leagueos_backend.Markets.Cancellation.released_shares
    leagueos_backend.Markets.Cancellation.release_shares
    leagueos_backend.Markets.Cancellation.require_cancellable_order
    leagueos_backend.Markets.Cancellation.release_cancelled
    leagueos_backend.Markets.Cancellation.cancel_locked_order
    leagueos_backend.Markets.Cancellation.cancel_order leagueos_backend.Markets.Expiry.is_admin
    leagueos_backend.Markets.Expiry.is_empty leagueos_backend.Markets.Expiry.is_absent
    leagueos_backend.Markets.Expiry.validate_request
    leagueos_backend.Markets.Expiry.require_due_order
    leagueos_backend.Markets.Expiry.release_due_shares leagueos_backend.Markets.Expiry.expiry_audit
    leagueos_backend.Markets.Expiry.clean_audit leagueos_backend.Markets.Expiry.get_expiry
    leagueos_backend.Markets.Expiry.system_expiry leagueos_backend.Markets.Expiry.is_due
    leagueos_backend.Markets.Expiry.release_due leagueos_backend.Markets.Expiry.expire_locked_order
    leagueos_backend.Markets.Expiry.expire_order leagueos_backend.Markets.Expiry.expire_all
    leagueos_backend.Markets.Expiry.expiry_time leagueos_backend.Markets.Expiry.is_earlier
    leagueos_backend.Markets.Expiry.due_ids leagueos_backend.Markets.Expiry.expire_due_orders
    leagueos_backend.Markets.CloseCleanup.is_outstanding
    leagueos_backend.Markets.CloseCleanup.outstanding_orders
    leagueos_backend.Markets.CloseCleanup.count_cancellation
    leagueos_backend.Markets.CloseCleanup.cancellation_of
    leagueos_backend.Markets.CloseCleanup.cleanup_of
    leagueos_backend.Markets.CloseCleanup.store_cancellations
    leagueos_backend.Markets.CloseCleanup.cancel_all
    leagueos_backend.Markets.CloseCleanup.cleanup_locked_market
order_expired = refl

expire_order-IsConsistent_example : IsConsistent expired.1.bank
expire_order-IsConsistent_example =
    expire_order-IsConsistent derive_key 900 overdue dated expired.0 expired.1 order_expired
      bank-IsConsistent

abbrev by_admin : Expiry
by_admin = record { order_id = 3; source = some admin; reason = []; actor = some 9 }

expire_order-replay_example :
    expire_order derive_key 950 by_admin expired.1 ≡ ok (expired.0, expired.1)
expire_order-replay_example =
    expire_order-replay derive_key 900 overdue dated expired.0 expired.1 order_expired by_admin 950
      refl

expire_order-due_example :
    (o : Order) × (get_order 3 dated ≡ some o)
    × (is_due 900 o ≡ true)
    × (get_order 3 expired.1
        ≡ some (record o { status = OrderStatus.expired; expired_at = some 900 }))
    × (expired.0.expired_quantity ≡ remaining o)
    × (expired.0.released_wallet_reservation_amount
        ≡ (if side_eq o.side buy then reserved_for o else 0))
    × (expired.0.released_position_reservation_quantity
        ≡ (if side_eq o.side buy then 0 else remaining o))
unfolding leagueos_backend.Prelude.find leagueos_backend.Prelude.select leagueos_backend.Prelude.any
    leagueos_backend.Prelude.option_eq leagueos_backend.Prelude.text_eq
    leagueos_backend.Prelude.take leagueos_backend.Prelude.total leagueos_backend.Prelude.insert_by
    leagueos_backend.Prelude.sort_by leagueos_backend.Wallets.Normalize.is_space
    leagueos_backend.Wallets.Normalize.drop_spaces leagueos_backend.Wallets.Normalize.strip
    leagueos_backend.Wallets.Normalize.upper leagueos_backend.Wallets.Normalize.is_alpha
    leagueos_backend.Wallets.Normalize.normalize_currency
    leagueos_backend.Wallets.Normalize.normalize_amount
    leagueos_backend.Wallets.Normalize.normalize_reference
    leagueos_backend.Wallets.Normalize.normalize_text
    leagueos_backend.Wallets.Transition.calculate_transition
    leagueos_backend.Wallets.Transition.credit_account
    leagueos_backend.Wallets.Transition.is_internal leagueos_backend.Wallets.Transition.is_credit
    leagueos_backend.Wallets.Transition.is_internal_entry
    leagueos_backend.Wallets.Transition.entry_type_eq leagueos_backend.Wallets.Transition.account_eq
    leagueos_backend.Wallets.Transition.entry_matches_operation
    leagueos_backend.Wallets.Execute.get_existing_entry
    leagueos_backend.Wallets.Execute.get_locked_wallet leagueos_backend.Wallets.Execute.get_wallet
    leagueos_backend.Wallets.Execute.same_context leagueos_backend.Wallets.Execute.replay_matches
    leagueos_backend.Wallets.Execute.require_matching_replay
    leagueos_backend.Wallets.Execute.replay_or leagueos_backend.Wallets.Execute.save_wallet
    leagueos_backend.Wallets.Execute.new_wallet leagueos_backend.Wallets.Execute.insert_wallet
    leagueos_backend.Wallets.Execute.obtain_wallet leagueos_backend.Wallets.Execute.clean_wallet
    leagueos_backend.Wallets.Execute.clean_entry leagueos_backend.Wallets.Execute.post
    leagueos_backend.Wallets.Execute.after_lock leagueos_backend.Wallets.Execute.perform
    leagueos_backend.Wallets.Service.execute leagueos_backend.Wallets.Service.credit
    leagueos_backend.Wallets.Service.reserve leagueos_backend.Wallets.Service.release
    leagueos_backend.Wallets.Service.debit_available
    leagueos_backend.Wallets.Service.consume_reserved leagueos_backend.Wallets.History.atomic
    leagueos_backend.Wallets.History.run leagueos_backend.Wallets.History.run_all
    leagueos_backend.Markets.Money.half_up leagueos_backend.Markets.Money.ceiling
    leagueos_backend.Markets.Money.negate leagueos_backend.Markets.Money.half_up_signed
    leagueos_backend.Markets.Money.notional leagueos_backend.Markets.Money.calculate_fee
    leagueos_backend.Markets.Money.reservation
    leagueos_backend.Markets.Money.calculate_buy_commitment
    leagueos_backend.Markets.Orders.get_order leagueos_backend.Markets.Orders.get_outcome
    leagueos_backend.Markets.Orders.get_market leagueos_backend.Markets.Orders.save_order
    leagueos_backend.Markets.Orders.side_eq leagueos_backend.Markets.Orders.is_fillable_status
    leagueos_backend.Markets.Orders.is_gtd leagueos_backend.Markets.Orders.is_expired_status
    leagueos_backend.Markets.Orders.remaining leagueos_backend.Markets.Orders.previous_average
    leagueos_backend.Markets.Orders.apply_fill_to_order
    leagueos_backend.Markets.Orders.outcome_belongs leagueos_backend.Markets.Orders.is_price
    leagueos_backend.Markets.Orders.expiry_ok leagueos_backend.Markets.Orders.clean_order
    leagueos_backend.Markets.Orders.reserved_for leagueos_backend.Markets.Positions.get_position
    leagueos_backend.Markets.Positions.empty_position
    leagueos_backend.Markets.Positions.apply_buy_to_position
    leagueos_backend.Markets.Positions.released_cost
    leagueos_backend.Markets.Positions.apply_sell_to_position
    leagueos_backend.Markets.Positions.clean_position
    leagueos_backend.Markets.Positions.save_position
    leagueos_backend.Markets.Cancellation.order_request
    leagueos_backend.Markets.Cancellation.release_funds
    leagueos_backend.Markets.Cancellation.unreserve
    leagueos_backend.Markets.Cancellation.released_shares
    leagueos_backend.Markets.Cancellation.release_shares
    leagueos_backend.Markets.Cancellation.require_cancellable_order
    leagueos_backend.Markets.Cancellation.release_cancelled
    leagueos_backend.Markets.Cancellation.cancel_locked_order
    leagueos_backend.Markets.Cancellation.cancel_order leagueos_backend.Markets.Expiry.is_admin
    leagueos_backend.Markets.Expiry.is_empty leagueos_backend.Markets.Expiry.is_absent
    leagueos_backend.Markets.Expiry.validate_request
    leagueos_backend.Markets.Expiry.require_due_order
    leagueos_backend.Markets.Expiry.release_due_shares leagueos_backend.Markets.Expiry.expiry_audit
    leagueos_backend.Markets.Expiry.clean_audit leagueos_backend.Markets.Expiry.get_expiry
    leagueos_backend.Markets.Expiry.system_expiry leagueos_backend.Markets.Expiry.is_due
    leagueos_backend.Markets.Expiry.release_due leagueos_backend.Markets.Expiry.expire_locked_order
    leagueos_backend.Markets.Expiry.expire_order leagueos_backend.Markets.Expiry.expire_all
    leagueos_backend.Markets.Expiry.expiry_time leagueos_backend.Markets.Expiry.is_earlier
    leagueos_backend.Markets.Expiry.due_ids leagueos_backend.Markets.Expiry.expire_due_orders
    leagueos_backend.Markets.CloseCleanup.is_outstanding
    leagueos_backend.Markets.CloseCleanup.outstanding_orders
    leagueos_backend.Markets.CloseCleanup.count_cancellation
    leagueos_backend.Markets.CloseCleanup.cancellation_of
    leagueos_backend.Markets.CloseCleanup.cleanup_of
    leagueos_backend.Markets.CloseCleanup.store_cancellations
    leagueos_backend.Markets.CloseCleanup.cancel_all
    leagueos_backend.Markets.CloseCleanup.cleanup_locked_market
expire_order-due_example =
    expire_order-due derive_key 900 overdue dated expired.0 expired.1 order_expired refl

-- The sell order is the first to expire.
due_in_order :
    value_of [] (expire_due_orders derive_key 900 5 dated).0
    ≡ value_of [] (expire_due_orders derive_key 900 2 dated).0
unfolding leagueos_backend.Prelude.find leagueos_backend.Prelude.select leagueos_backend.Prelude.any
    leagueos_backend.Prelude.option_eq leagueos_backend.Prelude.text_eq
    leagueos_backend.Prelude.take leagueos_backend.Prelude.total leagueos_backend.Prelude.insert_by
    leagueos_backend.Prelude.sort_by leagueos_backend.Wallets.Normalize.is_space
    leagueos_backend.Wallets.Normalize.drop_spaces leagueos_backend.Wallets.Normalize.strip
    leagueos_backend.Wallets.Normalize.upper leagueos_backend.Wallets.Normalize.is_alpha
    leagueos_backend.Wallets.Normalize.normalize_currency
    leagueos_backend.Wallets.Normalize.normalize_amount
    leagueos_backend.Wallets.Normalize.normalize_reference
    leagueos_backend.Wallets.Normalize.normalize_text
    leagueos_backend.Wallets.Transition.calculate_transition
    leagueos_backend.Wallets.Transition.credit_account
    leagueos_backend.Wallets.Transition.is_internal leagueos_backend.Wallets.Transition.is_credit
    leagueos_backend.Wallets.Transition.is_internal_entry
    leagueos_backend.Wallets.Transition.entry_type_eq leagueos_backend.Wallets.Transition.account_eq
    leagueos_backend.Wallets.Transition.entry_matches_operation
    leagueos_backend.Wallets.Execute.get_existing_entry
    leagueos_backend.Wallets.Execute.get_locked_wallet leagueos_backend.Wallets.Execute.get_wallet
    leagueos_backend.Wallets.Execute.same_context leagueos_backend.Wallets.Execute.replay_matches
    leagueos_backend.Wallets.Execute.require_matching_replay
    leagueos_backend.Wallets.Execute.replay_or leagueos_backend.Wallets.Execute.save_wallet
    leagueos_backend.Wallets.Execute.new_wallet leagueos_backend.Wallets.Execute.insert_wallet
    leagueos_backend.Wallets.Execute.obtain_wallet leagueos_backend.Wallets.Execute.clean_wallet
    leagueos_backend.Wallets.Execute.clean_entry leagueos_backend.Wallets.Execute.post
    leagueos_backend.Wallets.Execute.after_lock leagueos_backend.Wallets.Execute.perform
    leagueos_backend.Wallets.Service.execute leagueos_backend.Wallets.Service.credit
    leagueos_backend.Wallets.Service.reserve leagueos_backend.Wallets.Service.release
    leagueos_backend.Wallets.Service.debit_available
    leagueos_backend.Wallets.Service.consume_reserved leagueos_backend.Wallets.History.atomic
    leagueos_backend.Wallets.History.run leagueos_backend.Wallets.History.run_all
    leagueos_backend.Markets.Money.half_up leagueos_backend.Markets.Money.ceiling
    leagueos_backend.Markets.Money.negate leagueos_backend.Markets.Money.half_up_signed
    leagueos_backend.Markets.Money.notional leagueos_backend.Markets.Money.calculate_fee
    leagueos_backend.Markets.Money.reservation
    leagueos_backend.Markets.Money.calculate_buy_commitment
    leagueos_backend.Markets.Orders.get_order leagueos_backend.Markets.Orders.get_outcome
    leagueos_backend.Markets.Orders.get_market leagueos_backend.Markets.Orders.save_order
    leagueos_backend.Markets.Orders.side_eq leagueos_backend.Markets.Orders.is_fillable_status
    leagueos_backend.Markets.Orders.is_gtd leagueos_backend.Markets.Orders.is_expired_status
    leagueos_backend.Markets.Orders.remaining leagueos_backend.Markets.Orders.previous_average
    leagueos_backend.Markets.Orders.apply_fill_to_order
    leagueos_backend.Markets.Orders.outcome_belongs leagueos_backend.Markets.Orders.is_price
    leagueos_backend.Markets.Orders.expiry_ok leagueos_backend.Markets.Orders.clean_order
    leagueos_backend.Markets.Orders.reserved_for leagueos_backend.Markets.Positions.get_position
    leagueos_backend.Markets.Positions.empty_position
    leagueos_backend.Markets.Positions.apply_buy_to_position
    leagueos_backend.Markets.Positions.released_cost
    leagueos_backend.Markets.Positions.apply_sell_to_position
    leagueos_backend.Markets.Positions.clean_position
    leagueos_backend.Markets.Positions.save_position
    leagueos_backend.Markets.Cancellation.order_request
    leagueos_backend.Markets.Cancellation.release_funds
    leagueos_backend.Markets.Cancellation.unreserve
    leagueos_backend.Markets.Cancellation.released_shares
    leagueos_backend.Markets.Cancellation.release_shares
    leagueos_backend.Markets.Cancellation.require_cancellable_order
    leagueos_backend.Markets.Cancellation.release_cancelled
    leagueos_backend.Markets.Cancellation.cancel_locked_order
    leagueos_backend.Markets.Cancellation.cancel_order leagueos_backend.Markets.Expiry.is_admin
    leagueos_backend.Markets.Expiry.is_empty leagueos_backend.Markets.Expiry.is_absent
    leagueos_backend.Markets.Expiry.validate_request
    leagueos_backend.Markets.Expiry.require_due_order
    leagueos_backend.Markets.Expiry.release_due_shares leagueos_backend.Markets.Expiry.expiry_audit
    leagueos_backend.Markets.Expiry.clean_audit leagueos_backend.Markets.Expiry.get_expiry
    leagueos_backend.Markets.Expiry.system_expiry leagueos_backend.Markets.Expiry.is_due
    leagueos_backend.Markets.Expiry.release_due leagueos_backend.Markets.Expiry.expire_locked_order
    leagueos_backend.Markets.Expiry.expire_order leagueos_backend.Markets.Expiry.expire_all
    leagueos_backend.Markets.Expiry.expiry_time leagueos_backend.Markets.Expiry.is_earlier
    leagueos_backend.Markets.Expiry.due_ids leagueos_backend.Markets.Expiry.expire_due_orders
    leagueos_backend.Markets.CloseCleanup.is_outstanding
    leagueos_backend.Markets.CloseCleanup.outstanding_orders
    leagueos_backend.Markets.CloseCleanup.count_cancellation
    leagueos_backend.Markets.CloseCleanup.cancellation_of
    leagueos_backend.Markets.CloseCleanup.cleanup_of
    leagueos_backend.Markets.CloseCleanup.store_cancellations
    leagueos_backend.Markets.CloseCleanup.cancel_all
    leagueos_backend.Markets.CloseCleanup.cleanup_locked_market
due_in_order = refl

expire_due_orders-IsConsistent_example :
    IsConsistent (expire_due_orders derive_key 900 1 dated).1.bank
expire_due_orders-IsConsistent_example =
    expire_due_orders-IsConsistent derive_key 900 1 dated bank-IsConsistent
