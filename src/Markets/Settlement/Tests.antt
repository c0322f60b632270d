-- ===== src/Markets/Settlement/Tests.antt =====
-- A concrete settlement, and the theorems at it.
use leagueos_backend.Prelude.{
  ◌+◌, ◌≡◌, refl, true, false, List, [], ◌∷◌, some, none, ok, err, Result, any, total, arith,
}
use leagueos_backend.Markets.Model.{
  confirm, resolved, Market, Position, active, MarketSettlement, Exchange, Error,
}
use leagueos_backend.Markets.Orders.{get_market, outcome_belongs}
use leagueos_backend.Markets.Fees.{Rates}
use leagueos_backend.Markets.CloseCleanup.{is_outstanding}
use leagueos_backend.Markets.Complements.{get_pool}
use leagueos_backend.Markets.Settlement.{
  position_payout, market_settlement_of, pool_covers, require_dispute_window_closed,
  require_no_open_disputes, settle_market,
}
use leagueos_backend.Markets.Settlement.Amounts.{market_settlement_of-totals}
use leagueos_backend.Markets.Settlement.Guards.{IsSettleable}
use leagueos_backend.Markets.Settlement.Settled.{settle_market-once, settle_market-guarded}
use leagueos_backend.Markets.Settlement.Flat.{holds_shares, settle_market-flat}
use leagueos_backend.Markets.Tests.{
  derive_key, exchange, market_row, yes_outcome, no_outcome, seller_position, schedule,
}

-- Four winning shares of user 2, three losing shares of user 3; a dispute that was decided.
abbrev winning : Position
winning = record seller_position { reserved_quantity = 0 }

abbrev losing : Position
losing = record seller_position {
  id = 6;
  user = 3;
  outcome = 7;
  quantity = 30_000;
  reserved_quantity = 0;
}

abbrev finished : Exchange
finished = record exchange {
  markets =
      record market_row { status = resolved; settles_by = some 1_500; winning_outcome = some 2 }
      ∷ [];
  provisional_results =
      record { id = 30; market = 1; dispute_deadline = 1_800; is_accelerated = false } ∷ [];
  disputes = record { id = 31; provisional_result = 30 } ∷ [];
  decisions = record { provisional_result = 30; decision_type = confirm } ∷ [];
  outcomes = yes_outcome ∷ no_outcome ∷ [];
  orders = [];
  positions = losing ∷ winning ∷ [];
  schedules = record schedule { settlement_fee_bps = 100 } ∷ [];
  pools =
      record {
        market = 1;
        locked_collateral = 50_000;
        settled_collateral = 0;
        released_collateral = 0;
        status = active;
      }
      ∷ [];
}

abbrev no_settlement : MarketSettlement
no_settlement = record {
  id = 0;
  market = 0;
  winning_outcome = 0;
  payout_per_unit = 0;
  total_position_count = 0;
  winning_position_count = 0;
  losing_position_count = 0;
  total_winning_quantity = 0;
  total_payout_amount = 0;
  executed_by = 0;
}

abbrev value_of {ℓ} : {A : Type ℓ} → A → Result Error A → A
value_of a (ok b) = b
value_of a (err e) = a

abbrev paid : MarketSettlement × Exchange
paid = value_of (no_settlement, finished) (settle_market derive_key 88 2_000 true 1 9 finished)

market_settled : settle_market derive_key 88 2_000 true 1 9 finished ≡ ok (paid.0, paid.1)
unfolding leagueos_backend.Prelude.find leagueos_backend.Prelude.select leagueos_backend.Prelude.any
    leagueos_backend.Prelude.option_eq leagueos_backend.Prelude.text_eq
    leagueos_backend.Prelude.take leagueos_backend.Prelude.total leagueos_backend.Prelude.insert_by
    leagueos_backend.Prelude.sort_by leagueos_backend.Wallets.Normalize.is_space
    leagueos_backend.Wallets.Normalize.drop_spaces leagueos_backend.Wallets.Normalize.strip
    leagueos_backend.Wallets.Normalize.upper leagueos_backend.Wallets.Normalize.is_alpha
    leagueos_backend.Wallets.Normalize.normalize_currency
    leagueos_backend.Wallets.Normalize.normalize_amount
    leagueos_backend.Wallets.Normalize.normalize_reference
    leagueos_backend.Wallets.Normalize.normalize_text
    leagueos_backend.Wallets.Transition.calculate_transition
    leagueos_backend.Wallets.Transition.credit_account
    leagueos_backend.Wallets.Transition.is_internal leagueos_backend.Wallets.Transition.is_credit
    leagueos_backend.Wallets.Transition.is_internal_entry
    leagueos_backend.Wallets.Transition.entry_type_eq leagueos_backend.Wallets.Transition.account_eq
    leagueos_backend.Wallets.Transition.entry_matches_operation
    leagueos_backend.Wallets.Execute.get_existing_entry
    leagueos_backend.Wallets.Execute.get_locked_wallet leagueos_backend.Wallets.Execute.get_wallet
    leagueos_backend.Wallets.Execute.same_context leagueos_backend.Wallets.Execute.replay_matches
    leagueos_backend.Wallets.Execute.require_matching_replay
    leagueos_backend.Wallets.Execute.replay_or leagueos_backend.Wallets.Execute.save_wallet
    leagueos_backend.Wallets.Execute.new_wallet leagueos_backend.Wallets.Execute.insert_wallet
    leagueos_backend.Wallets.Execute.obtain_wallet leagueos_backend.Wallets.Execute.clean_wallet
    leagueos_backend.Wallets.Execute.clean_entry leagueos_backend.Wallets.Execute.post
    leagueos_backend.Wallets.Execute.after_lock leagueos_backend.Wallets.Execute.perform
    leagueos_backend.Wallets.Service.execute leagueos_backend.Wallets.Service.credit
    leagueos_backend.Wallets.Service.reserve leagueos_backend.Wallets.Service.release
    leagueos_backend.Wallets.Service.debit_available
    leagueos_backend.Wallets.Service.consume_reserved
    leagueos_backend.Wallets.Balances.get_or_create_wallet
    leagueos_backend.Wallets.Balances.require_positive
    leagueos_backend.Wallets.Balances.save_balances leagueos_backend.Wallets.Balances.reserve_funds
    leagueos_backend.Wallets.Balances.release_funds
    leagueos_backend.Wallets.Balances.debit_reserved_funds
    leagueos_backend.Wallets.Rows.get_transaction leagueos_backend.Wallets.Rows.get_withdrawal
    leagueos_backend.Wallets.Rows.reference_eq leagueos_backend.Wallets.Rows.find_reference
    leagueos_backend.Wallets.Rows.save_transaction leagueos_backend.Wallets.Rows.save_withdrawal
    leagueos_backend.Wallets.Rows.audit leagueos_backend.Wallets.Rows.request_key
    leagueos_backend.Wallets.History.atomic leagueos_backend.Wallets.History.run
    leagueos_backend.Wallets.History.run_all leagueos_backend.Markets.Money.half_up
    leagueos_backend.Markets.Money.ceiling leagueos_backend.Markets.Money.negate
    leagueos_backend.Markets.Money.half_up_signed leagueos_backend.Markets.Money.notional
    leagueos_backend.Markets.Money.calculate_fee leagueos_backend.Markets.Money.reservation
    leagueos_backend.Markets.Money.calculate_buy_commitment leagueos_backend.Markets.Fees.is_active
    leagueos_backend.Markets.Fees.is_draft leagueos_backend.Markets.Fees.comes_first
    leagueos_backend.Markets.Fees.first_schedule leagueos_backend.Markets.Fees.effective_schedule
    leagueos_backend.Markets.Fees.rates_of leagueos_backend.Markets.Fees.rates
    leagueos_backend.Markets.Fees.maximum_order_fee leagueos_backend.Markets.Fees.preview_of
    leagueos_backend.Markets.Fees.clean_schedule leagueos_backend.Markets.Fees.save_schedule
    leagueos_backend.Markets.Fees.latest_version leagueos_backend.Markets.Fees.create_draft
    leagueos_backend.Markets.Fees.activate leagueos_backend.Markets.Fees.retire
    leagueos_backend.Markets.Fees.fee_type_eq leagueos_backend.Markets.Fees.schedule_id
    leagueos_backend.Markets.Fees.schedule_version leagueos_backend.Markets.Fees.fee_entry
    leagueos_backend.Markets.Fees.fee_entry_eq leagueos_backend.Markets.Fees.clean_fee_entry
    leagueos_backend.Markets.Fees.find_fee_entry leagueos_backend.Markets.Fees.record_fee
    leagueos_backend.Markets.Orders.get_order leagueos_backend.Markets.Orders.get_outcome
    leagueos_backend.Markets.Orders.get_market leagueos_backend.Markets.Orders.save_order
    leagueos_backend.Markets.Orders.side_eq leagueos_backend.Markets.Orders.is_fillable_status
    leagueos_backend.Markets.Orders.is_gtd leagueos_backend.Markets.Orders.is_expired_status
    leagueos_backend.Markets.Orders.remaining leagueos_backend.Markets.Orders.previous_average
    leagueos_backend.Markets.Orders.apply_fill_to_order
    leagueos_backend.Markets.Orders.outcome_belongs leagueos_backend.Markets.Orders.is_price
    leagueos_backend.Markets.Orders.expiry_ok leagueos_backend.Markets.Orders.clean_order
    leagueos_backend.Markets.Orders.reserved_for leagueos_backend.Markets.Positions.get_position
    leagueos_backend.Markets.Positions.empty_position
    leagueos_backend.Markets.Positions.apply_buy_to_position
    leagueos_backend.Markets.Positions.released_cost
    leagueos_backend.Markets.Positions.apply_sell_to_position
    leagueos_backend.Markets.Positions.clean_position
    leagueos_backend.Markets.Positions.save_position
    leagueos_backend.Markets.CloseCleanup.is_outstanding
    leagueos_backend.Markets.CloseCleanup.outstanding_orders
    leagueos_backend.Markets.CloseCleanup.count_cancellation
    leagueos_backend.Markets.CloseCleanup.cancellation_of
    leagueos_backend.Markets.CloseCleanup.cleanup_of
    leagueos_backend.Markets.CloseCleanup.store_cancellations
    leagueos_backend.Markets.CloseCleanup.cancel_all
    leagueos_backend.Markets.CloseCleanup.cleanup_locked_market
    leagueos_backend.Markets.Complements.is_candidate
    leagueos_backend.Markets.Complements.candidates
    leagueos_backend.Markets.Complements.is_yes_order
    leagueos_backend.Markets.Complements.complement_price
    leagueos_backend.Markets.Complements.is_affordable
    leagueos_backend.Markets.Complements.new_issuance
    leagueos_backend.Markets.Complements.clean_issuance
    leagueos_backend.Markets.Complements.insert_issuance
    leagueos_backend.Markets.Complements.get_issuance
    leagueos_backend.Markets.Complements.get_or_create_position
    leagueos_backend.Markets.Complements.get_pool
    leagueos_backend.Markets.Complements.get_or_create_pool
    leagueos_backend.Markets.Complements.save_pool
    leagueos_backend.Markets.Complements.insert_collateral_entry
    leagueos_backend.Markets.Complements.leg_settlement
    leagueos_backend.Markets.Complements.store_leg leagueos_backend.Markets.Complements.pay_leg
    leagueos_backend.Markets.Complements.fill_leg
    leagueos_backend.Markets.Complements.lock_complementary_collateral
    leagueos_backend.Markets.Complements.issue
    leagueos_backend.Markets.Complements.complement_reference
    leagueos_backend.Markets.Complements.issue_once
    leagueos_backend.Markets.Complements.match_candidates
    leagueos_backend.Markets.Complements.match_complements
    leagueos_backend.Markets.Complements.complete_match
    leagueos_backend.Markets.Complements.match_order leagueos_backend.Markets.Settlement.payout_of
    leagueos_backend.Markets.Settlement.is_resolved
    leagueos_backend.Markets.Settlement.require_settleable_market
    leagueos_backend.Markets.Settlement.get_provisional_result
    leagueos_backend.Markets.Settlement.require_dispute_window_closed
    leagueos_backend.Markets.Settlement.is_final
    leagueos_backend.Markets.Settlement.require_no_open_disputes
    leagueos_backend.Markets.Settlement.lock_positions
    leagueos_backend.Markets.Settlement.is_positive leagueos_backend.Markets.Settlement.is_winner
    leagueos_backend.Markets.Settlement.position_payout
    leagueos_backend.Markets.Settlement.payout_transaction
    leagueos_backend.Markets.Settlement.insert_transaction
    leagueos_backend.Markets.Settlement.payout_request leagueos_backend.Markets.Settlement.pay_out
    leagueos_backend.Markets.Settlement.pay_position
    leagueos_backend.Markets.Settlement.position_settlement_of
    leagueos_backend.Markets.Settlement.insert_position_settlement
    leagueos_backend.Markets.Settlement.flatten
    leagueos_backend.Markets.Settlement.market_settlement_of
    leagueos_backend.Markets.Settlement.pool_covers
    leagueos_backend.Markets.Settlement.get_settlement
    leagueos_backend.Markets.Settlement.record_payout_fee
    leagueos_backend.Markets.Settlement.settle_position
    leagueos_backend.Markets.Settlement.settle_positions
    leagueos_backend.Markets.Settlement.settle_pool
    leagueos_backend.Markets.Settlement.check_settlement
    leagueos_backend.Markets.Settlement.settle_new leagueos_backend.Markets.Settlement.settle_market
market_settled = refl

four_paid : paid.0.total_payout_amount ≡ 40_000
unfolding leagueos_backend.Prelude.find leagueos_backend.Prelude.select leagueos_backend.Prelude.any
    leagueos_backend.Prelude.option_eq leagueos_backend.Prelude.text_eq
    leagueos_backend.Prelude.take leagueos_backend.Prelude.total leagueos_backend.Prelude.insert_by
    leagueos_backend.Prelude.sort_by leagueos_backend.Wallets.Normalize.is_space
    leagueos_backend.Wallets.Normalize.drop_spaces leagueos_backend.Wallets.Normalize.strip
    leagueos_backend.Wallets.Normalize.upper leagueos_backend.Wallets.Normalize.is_alpha
    leagueos_backend.Wallets.Normalize.normalize_currency
    leagueos_backend.Wallets.Normalize.normalize_amount
    leagueos_backend.Wallets.Normalize.normalize_reference
    leagueos_backend.Wallets.Normalize.normalize_text
    leagueos_backend.Wallets.Transition.calculate_transition
    leagueos_backend.Wallets.Transition.credit_account
    leagueos_backend.Wallets.Transition.is_internal leagueos_backend.Wallets.Transition.is_credit
    leagueos_backend.Wallets.Transition.is_internal_entry
    leagueos_backend.Wallets.Transition.entry_type_eq leagueos_backend.Wallets.Transition.account_eq
    leagueos_backend.Wallets.Transition.entry_matches_operation
    leagueos_backend.Wallets.Execute.get_existing_entry
    leagueos_backend.Wallets.Execute.get_locked_wallet leagueos_backend.Wallets.Execute.get_wallet
    leagueos_backend.Wallets.Execute.same_context leagueos_backend.Wallets.Execute.replay_matches
    leagueos_backend.Wallets.Execute.require_matching_replay
    leagueos_backend.Wallets.Execute.replay_or leagueos_backend.Wallets.Execute.save_wallet
    leagueos_backend.Wallets.Execute.new_wallet leagueos_backend.Wallets.Execute.insert_wallet
    leagueos_backend.Wallets.Execute.obtain_wallet leagueos_backend.Wallets.Execute.clean_wallet
    leagueos_backend.Wallets.Execute.clean_entry leagueos_backend.Wallets.Execute.post
    leagueos_backend.Wallets.Execute.after_lock leagueos_backend.Wallets.Execute.perform
    leagueos_backend.Wallets.Service.execute leagueos_backend.Wallets.Service.credit
    leagueos_backend.Wallets.Service.reserve leagueos_backend.Wallets.Service.release
    leagueos_backend.Wallets.Service.debit_available
    leagueos_backend.Wallets.Service.consume_reserved
    leagueos_backend.Wallets.Balances.get_or_create_wallet
    leagueos_backend.Wallets.Balances.require_positive
    leagueos_backend.Wallets.Balances.save_balances leagueos_backend.Wallets.Balances.reserve_funds
    leagueos_backend.Wallets.Balances.release_funds
    leagueos_backend.Wallets.Balances.debit_reserved_funds
    leagueos_backend.Wallets.Rows.get_transaction leagueos_backend.Wallets.Rows.get_withdrawal
    leagueos_backend.Wallets.Rows.reference_eq leagueos_backend.Wallets.Rows.find_reference
    leagueos_backend.Wallets.Rows.save_transaction leagueos_backend.Wallets.Rows.save_withdrawal
    leagueos_backend.Wallets.Rows.audit leagueos_backend.Wallets.Rows.request_key
    leagueos_backend.Wallets.History.atomic leagueos_backend.Wallets.History.run
    leagueos_backend.Wallets.History.run_all leagueos_backend.Markets.Money.half_up
    leagueos_backend.Markets.Money.ceiling leagueos_backend.Markets.Money.negate
    leagueos_backend.Markets.Money.half_up_signed leagueos_backend.Markets.Money.notional
    leagueos_backend.Markets.Money.calculate_fee leagueos_backend.Markets.Money.reservation
    leagueos_backend.Markets.Money.calculate_buy_commitment leagueos_backend.Markets.Fees.is_active
    leagueos_backend.Markets.Fees.is_draft leagueos_backend.Markets.Fees.comes_first
    leagueos_backend.Markets.Fees.first_schedule leagueos_backend.Markets.Fees.effective_schedule
    leagueos_backend.Markets.Fees.rates_of leagueos_backend.Markets.Fees.rates
    leagueos_backend.Markets.Fees.maximum_order_fee leagueos_backend.Markets.Fees.preview_of
    leagueos_backend.Markets.Fees.clean_schedule leagueos_backend.Markets.Fees.save_schedule
    leagueos_backend.Markets.Fees.latest_version leagueos_backend.Markets.Fees.create_draft
    leagueos_backend.Markets.Fees.activate leagueos_backend.Markets.Fees.retire
    leagueos_backend.Markets.Fees.fee_type_eq leagueos_backend.Markets.Fees.schedule_id
    leagueos_backend.Markets.Fees.schedule_version leagueos_backend.Markets.Fees.fee_entry
    leagueos_backend.Markets.Fees.fee_entry_eq leagueos_backend.Markets.Fees.clean_fee_entry
    leagueos_backend.Markets.Fees.find_fee_entry leagueos_backend.Markets.Fees.record_fee
    leagueos_backend.Markets.Orders.get_order leagueos_backend.Markets.Orders.get_outcome
    leagueos_backend.Markets.Orders.get_market leagueos_backend.Markets.Orders.save_order
    leagueos_backend.Markets.Orders.side_eq leagueos_backend.Markets.Orders.is_fillable_status
    leagueos_backend.Markets.Orders.is_gtd leagueos_backend.Markets.Orders.is_expired_status
    leagueos_backend.Markets.Orders.remaining leagueos_backend.Markets.Orders.previous_average
    leagueos_backend.Markets.Orders.apply_fill_to_order
    leagueos_backend.Markets.Orders.outcome_belongs leagueos_backend.Markets.Orders.is_price
    leagueos_backend.Markets.Orders.expiry_ok leagueos_backend.Markets.Orders.clean_order
    leagueos_backend.Markets.Orders.reserved_for leagueos_backend.Markets.Positions.get_position
    leagueos_backend.Markets.Positions.empty_position
    leagueos_backend.Markets.Positions.apply_buy_to_position
    leagueos_backend.Markets.Positions.released_cost
    leagueos_backend.Markets.Positions.apply_sell_to_position
    leagueos_backend.Markets.Positions.clean_position
    leagueos_backend.Markets.Positions.save_position
    leagueos_backend.Markets.CloseCleanup.is_outstanding
    leagueos_backend.Markets.CloseCleanup.outstanding_orders
    leagueos_backend.Markets.CloseCleanup.count_cancellation
    leagueos_backend.Markets.CloseCleanup.cancellation_of
    leagueos_backend.Markets.CloseCleanup.cleanup_of
    leagueos_backend.Markets.CloseCleanup.store_cancellations
    leagueos_backend.Markets.CloseCleanup.cancel_all
    leagueos_backend.Markets.CloseCleanup.cleanup_locked_market
    leagueos_backend.Markets.Complements.is_candidate
    leagueos_backend.Markets.Complements.candidates
    leagueos_backend.Markets.Complements.is_yes_order
    leagueos_backend.Markets.Complements.complement_price
    leagueos_backend.Markets.Complements.is_affordable
    leagueos_backend.Markets.Complements.new_issuance
    leagueos_backend.Markets.Complements.clean_issuance
    leagueos_backend.Markets.Complements.insert_issuance
    leagueos_backend.Markets.Complements.get_issuance
    leagueos_backend.Markets.Complements.get_or_create_position
    leagueos_backend.Markets.Complements.get_pool
    leagueos_backend.Markets.Complements.get_or_create_pool
    leagueos_backend.Markets.Complements.save_pool
    leagueos_backend.Markets.Complements.insert_collateral_entry
    leagueos_backend.Markets.Complements.leg_settlement
    leagueos_backend.Markets.Complements.store_leg leagueos_backend.Markets.Complements.pay_leg
    leagueos_backend.Markets.Complements.fill_leg
    leagueos_backend.Markets.Complements.lock_complementary_collateral
    leagueos_backend.Markets.Complements.issue
    leagueos_backend.Markets.Complements.complement_reference
    leagueos_backend.Markets.Complements.issue_once
    leagueos_backend.Markets.Complements.match_candidates
    leagueos_backend.Markets.Complements.match_complements
    leagueos_backend.Markets.Complements.complete_match
    leagueos_backend.Markets.Complements.match_order leagueos_backend.Markets.Settlement.payout_of
    leagueos_backend.Markets.Settlement.is_resolved
    leagueos_backend.Markets.Settlement.require_settleable_market
    leagueos_backend.Markets.Settlement.get_provisional_result
    leagueos_backend.Markets.Settlement.require_dispute_window_closed
    leagueos_backend.Markets.Settlement.is_final
    leagueos_backend.Markets.Settlement.require_no_open_disputes
    leagueos_backend.Markets.Settlement.lock_positions
    leagueos_backend.Markets.Settlement.is_positive leagueos_backend.Markets.Settlement.is_winner
    leagueos_backend.Markets.Settlement.position_payout
    leagueos_backend.Markets.Settlement.payout_transaction
    leagueos_backend.Markets.Settlement.insert_transaction
    leagueos_backend.Markets.Settlement.payout_request leagueos_backend.Markets.Settlement.pay_out
    leagueos_backend.Markets.Settlement.pay_position
    leagueos_backend.Markets.Settlement.position_settlement_of
    leagueos_backend.Markets.Settlement.insert_position_settlement
    leagueos_backend.Markets.Settlement.flatten
    leagueos_backend.Markets.Settlement.market_settlement_of
    leagueos_backend.Markets.Settlement.pool_covers
    leagueos_backend.Markets.Settlement.get_settlement
    leagueos_backend.Markets.Settlement.record_payout_fee
    leagueos_backend.Markets.Settlement.settle_position
    leagueos_backend.Markets.Settlement.settle_positions
    leagueos_backend.Markets.Settlement.settle_pool
    leagueos_backend.Markets.Settlement.check_settlement
    leagueos_backend.Markets.Settlement.settle_new leagueos_backend.Markets.Settlement.settle_market
four_paid = refl

settle_market-once_example : settle_market derive_key 88 3_000 true 1 8 paid.1 ≡ ok (paid.0, paid.1)
settle_market-once_example =
    settle_market-once derive_key 88 2_000 true 1 9 finished paid.0 paid.1 market_settled 3_000 8

settle_market-guarded_example :
    (m : Market) × (get_market 1 finished ≡ some m)
    × IsSettleable m paid.0.winning_outcome 2_000 finished
    × (pool_covers (get_pool m.id finished) paid.0.total_payout_amount ≡ true)
unfolding leagueos_backend.Markets.Settlement.get_settlement leagueos_backend.Prelude.find
settle_market-guarded_example =
    settle_market-guarded derive_key 88 2_000 true 1 9 finished paid.0 paid.1 market_settled refl

settle_market-flat_example : any (holds_shares 1) paid.1.positions ≡ false
unfolding leagueos_backend.Markets.Settlement.get_settlement leagueos_backend.Prelude.find
settle_market-flat_example =
    settle_market-flat derive_key 88 2_000 true 1 9 finished paid.0 paid.1 refl market_settled

abbrev one_per_cent : Rates
one_per_cent = record { maker = 0; taker = 0; settlement = 100; refund = 0 }

market_settlement_of-totals_example :
    let s = market_settlement_of 20 1 2 (losing ∷ winning ∷ []) 9 in
    (s.total_payout_amount
      ≡ total (λ p. (position_payout 2 one_per_cent p).amount) (losing ∷ winning ∷ []))
    × (s.total_payout_amount
        ≡ total
            (λ p. (position_payout 2 one_per_cent p).net + (position_payout 2 one_per_cent p).fee)
            (losing ∷ winning ∷ []))
    × (s.total_payout_amount ≡ s.total_winning_quantity)
    × (s.winning_position_count + s.losing_position_count ≡ s.total_position_count)
market_settlement_of-totals_example =
    market_settlement_of-totals 20 1 2 9 one_per_cent (losing ∷ winning ∷ []) (omega arith)
