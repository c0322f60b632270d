-- ===== src/Wallets/Tests.antt =====
-- Concrete runs of the wallet service, and the theorems at them.
use leagueos_backend.Prelude.{
  map, ℕ, ◌+◌, ◌*◌, ◌≡◌, ◌≢◌, refl, true, false, some, none, [], ◌∷◌, List, ok, err, Result, find,
  text_eq, option_eq, All, arith,
}
use leagueos_backend.Prelude.Int.{pos}
use leagueos_backend.Wallets.Model.{
  codes, Database, Label, withdrawal_reserve, withdrawal_reject_release, withdrawal_complete_debit,
  withdrawal_fail_release, wallet_spend_debit, User, LedgerContext, LedgerEntry, Error, uuid,
  EntryType, user_wallet, provider_payable, Wallet, active, WalletTransaction, wdr, TransactionType,
  TransactionStatus, WithdrawalRequest, WithdrawalStatus, approved, flagged, manual,
  insufficient_available,
}
use leagueos_backend.Wallets.Normalize.{
  units, normalize_currency, normalize_amount, normalize_reference, strip, upper, is_alpha,
  is_space, drop_spaces,
}
use leagueos_backend.Wallets.Transition.{
  account, Operation, credit_available, reserve_available, debit_available, calculate_transition,
  credit_account, is_internal, is_internal_entry, is_credit, account_eq, entry_matches_operation,
  entry_type_eq,
}
use leagueos_backend.Wallets.Execute.{
  Call, perform, replay_or, get_existing_entry, after_lock, obtain_wallet, get_locked_wallet,
  new_wallet, insert_wallet, post, clean_wallet, clean_entry, save_wallet, get_wallet,
  require_matching_replay, replay_matches, same_context,
}
use leagueos_backend.Wallets.Execute.Outcome.{
  entry_of, posted, perform-succeeds, perform-insufficient_available,
}
use leagueos_backend.Wallets.Execute.Reuse.{perform-reuse}
use leagueos_backend.Wallets.Execute.Frame.{perform-others}
use leagueos_backend.Wallets.Balances.{require_positive, save_balances, reserve_funds}
use leagueos_backend.Wallets.Balances.Unrecorded.{reserve_funds-unrecorded}
use leagueos_backend.Wallets.Ledger.{IsConsistent, snapshot}
use leagueos_backend.Wallets.Service.{Request, execute}
use leagueos_backend.Wallets.Service.Laws.{execute-replay}
use leagueos_backend.Wallets.Rows.{get_withdrawal}
use leagueos_backend.Wallets.Risk.{
  Settings, evaluate, risk_reasons, decide_on, append_if, is_active_wallet, is_other, is_recent,
  is_failed, total_amount, day, week, has_known_destination,
}
use leagueos_backend.Wallets.Risk.Approval.{prior, evaluate-approved}
use leagueos_backend.Prelude.{◌≤◌, ◌&&◌, not, length, select, any}
use leagueos_backend.Wallets.History.{
  run, Command, operate, request, spend, approve, reject, process, complete, fail, obtain, intend,
  run_all, atomic,
}
use leagueos_backend.Wallets.History.Invariant.{run_all-IsConsistent}
use leagueos_backend.Wallets.History.Totals.{IsAccounted, run_all-IsAccounted}
use leagueos_backend.Wallets.History.Lifecycle.{Evolves, is_closed, run_all-Evolves, run_all-closed}

abbrev empty : Database
empty = record {
  wallets = [];
  entries = [];
  transactions = [];
  withdrawals = [];
  audit = [];
  providers = [];
  deposit_intents = [];
  next_id = 10;
}

-- A derivation of keys that gives different keys to the names of one key.
abbrev derive : ℕ → Label → ℕ
derive n withdrawal_reserve = 1000 + 10 * n
derive n withdrawal_reject_release = 1001 + 10 * n
derive n withdrawal_complete_debit = 1002 + 10 * n
derive n withdrawal_fail_release = 1003 + 10 * n
derive n wallet_spend_debit = 1004 + 10 * n

abbrev no_context : LedgerContext
no_context = record { market = none; order = none; fill = none; transaction = none }

abbrev alice : User
alice = record { id = 1; is_active = true; is_verified = true }

-- Five UGX for Alice.
abbrev deposit : Request
deposit = record {
  user = 1;
  currency = codes " ugx";
  amount = units (pos 50_000);
  idempotency_reference = some 7;
  context = no_context;
  counterparty_account = none;
}

abbrev manual_only : Settings
manual_only = record {
  enabled = false;
  max_single = 0;
  max_24h = 0;
  max_24h_count = 0;
  max_7d = 0;
  require_known_destination = true;
}

-- A deposit, a withdrawal that is paid out, one that is rejected, and a purchase.
abbrev month : List Command
month =
    operate credit_available true deposit
    ∷ request manual_only alice (units (pos 20_000)) (codes "UGX") (some (codes "bank")) (uuid 3)
        100
    ∷ approve 12 (some alice) 101
    ∷ process 12 (some alice)
    ∷ complete 12 (some alice) (codes "PAID-1") 102
    ∷ request manual_only alice (units (pos 10_000)) (codes "UGX") (some (codes "bank")) (uuid 4)
        103
    ∷ reject 14 (some alice) (codes "no")
    ∷ spend alice (units (pos 5_000)) (codes "UGX") (codes "shirt") (uuid 5) 104
    ∷ obtain 3 (codes "ugx")
    ∷ intend alice (codes "MTN") (units (pos 5_000)) (codes "UGX") (uuid 6) 105
    ∷ []

-- What a call returns, and the database it leaves.
abbrev returned {ℓ} : {A : Type ℓ} → A → Result Error (A × Database) → A
returned a (ok (b, db)) = b
returned a (err e) = a

-- An entry that no call returns.
abbrev no_entry : LedgerEntry
no_entry = record {
  wallet = 0;
  entry_type = EntryType.credit;
  debit_account = user_wallet;
  credit_account = user_wallet;
  amount = 0;
  currency = [];
  available_balance_before = 0;
  available_balance_after = 0;
  reserved_balance_before = 0;
  reserved_balance_after = 0;
  idempotency_reference = 0;
  context = no_context;
}

abbrev deposit_entry : LedgerEntry
deposit_entry = returned no_entry (execute credit_available true deposit empty)

abbrev after_deposit : Database
after_deposit = atomic (execute credit_available true deposit empty) empty

deposit_made : execute credit_available true deposit empty ≡ ok (deposit_entry, after_deposit)
unfolding atomic execute normalize_currency normalize_amount normalize_reference strip upper
    is_alpha is_space drop_spaces perform replay_or get_existing_entry after_lock obtain_wallet
    get_locked_wallet find new_wallet insert_wallet post calculate_transition clean_wallet
    clean_entry credit_account is_internal_entry is_credit account_eq save_wallet
deposit_made = refl

empty-IsConsistent : IsConsistent empty
empty-IsConsistent = record { chained = tt; balanced = tt; owned = tt }

execute-replay_example :
    execute credit_available true deposit after_deposit ≡ ok (deposit_entry, after_deposit)
execute-replay_example = execute-replay credit_available true deposit empty deposit_made

run_all-IsConsistent_example : IsConsistent (run_all derive month empty)
run_all-IsConsistent_example = run_all-IsConsistent derive month empty empty-IsConsistent

run_all-IsAccounted_example :
    All (IsAccounted (run_all derive month empty)) (run_all derive month empty).wallets
run_all-IsAccounted_example = run_all-IsAccounted derive month empty empty-IsConsistent

-- Alice's wallet with an approved withdrawal, and Bob's wallet.
abbrev alice_wallet : Wallet
alice_wallet = record {
  id = 10;
  user = 1;
  currency = codes "UGX";
  available_balance = 30_000;
  reserved_balance = 20_000;
  status = active;
}

abbrev bob_wallet : Wallet
bob_wallet = record {
  id = 20;
  user = 2;
  currency = codes "UGX";
  available_balance = 4_000;
  reserved_balance = 0;
  status = active;
}

abbrev transaction_11 : WalletTransaction
transaction_11 = record {
  id = 11;
  wallet = 10;
  reference = wdr 3;
  transaction_type = TransactionType.withdrawal;
  amount = 20_000;
  currency = codes "UGX";
  status = TransactionStatus.pending;
  provider_reference = [];
  description = [];
  completed_at = none;
}

abbrev withdrawal_12 : WithdrawalStatus → WithdrawalRequest
withdrawal_12 status = record {
  id = 12;
  wallet = 10;
  amount = 20_000;
  destination = codes "bank";
  status = status;
  risk_status = flagged;
  transaction = some 11;
  approved_by = some 1;
  approved_at = some 101;
  rejection_reason = [];
  failure_reason = [];
  approval_mode = manual;
  risk_reasons = [];
  created_at = 100;
}

abbrev office : WithdrawalStatus → Database
office status = record empty {
  wallets = alice_wallet ∷ bob_wallet ∷ [];
  transactions = transaction_11 ∷ [];
  withdrawals = withdrawal_12 status ∷ [];
  next_id = 30;
}

abbrev late_calls : List Command
late_calls =
    process 12 (some alice)
    ∷ fail 12 (some alice) (codes "late")
    ∷ complete 12 (some alice) (codes "PAID-1") 102
    ∷ request manual_only alice (units (pos 5_000)) (codes "UGX") (some (codes "bank")) (uuid 4) 103
    ∷ []

run_all-Evolves_example :
    (w' : WithdrawalRequest) × (get_withdrawal 12 (run_all derive late_calls (office approved))
      ≡ some w')
    × Evolves (withdrawal_12 approved) w'
unfolding get_withdrawal find
run_all-Evolves_example = run_all-Evolves derive 12 late_calls (office approved) refl (omega arith)

run_all-closed_example :
    get_withdrawal 12 (run_all derive late_calls (office WithdrawalStatus.completed))
    ≡ some (withdrawal_12 WithdrawalStatus.completed)
unfolding get_withdrawal find is_closed
run_all-closed_example =
    run_all-closed derive 12 late_calls (office WithdrawalStatus.completed) refl (omega arith) refl

-- An operation on Alice's wallet.
abbrev call : Operation → ℕ → Call
call operation amount = record {
  user = 1;
  currency = codes "UGX";
  amount = amount;
  reference = 77;
  operation = operation;
  create_wallet = false;
  context = no_context;
  counterparty = none;
}

abbrev reserve_entry : LedgerEntry
reserve_entry = returned no_entry (perform (call reserve_available 6_000) (office approved))

abbrev after_reserve : Database
after_reserve = atomic (perform (call reserve_available 6_000) (office approved)) (office approved)

reserve_made :
    perform (call reserve_available 6_000) (office approved) ≡ ok (reserve_entry, after_reserve)
unfolding atomic perform replay_or get_existing_entry after_lock obtain_wallet get_locked_wallet
    find post calculate_transition clean_wallet clean_entry credit_account is_internal_entry
    is_credit account_eq save_wallet text_eq
reserve_made = refl

-- The same call, which may now make the wallet.
abbrev again : Call
again = record (call reserve_available 6_000) { create_wallet = true }

reserve_again : perform again after_reserve ≡ ok (reserve_entry, after_reserve)
unfolding atomic perform replay_or get_existing_entry after_lock obtain_wallet get_locked_wallet
    find post calculate_transition clean_wallet clean_entry credit_account is_internal_entry
    is_credit account_eq save_wallet require_matching_replay replay_matches get_wallet
    entry_matches_operation entry_type_eq same_context is_internal text_eq option_eq
reserve_again = refl

perform-reuse_example :
    (reserve_entry ≡ reserve_entry)
    × (after_reserve ≡ after_reserve)
    × (again.user ≡ (call reserve_available 6_000).user)
    × (again.amount ≡ (call reserve_available 6_000).amount)
    × (entry_matches_operation reserve_entry reserve_available ≡ true)
perform-reuse_example =
    perform-reuse (call reserve_available 6_000) again (office approved) refl reserve_made
      reserve_again

-- A purchase from the wallet that is credited to the payment provider.
abbrev paid_out : Call
paid_out = record (call debit_available 6_000) { counterparty = some (account provider_payable) }

perform-succeeds_example :
    (perform paid_out (office approved)
      ≡ ok (
        entry_of paid_out provider_payable alice_wallet,
        posted paid_out provider_payable alice_wallet (office approved),
      ))
    × (get_wallet 10 (posted paid_out provider_payable alice_wallet (office approved))
        ≡ some (record alice_wallet { available_balance = 24_000 }))
unfolding get_existing_entry get_locked_wallet find text_eq
perform-succeeds_example =
    perform-succeeds paid_out (office approved) alice_wallet refl refl provider_payable refl
      (omega arith) (omega arith) (omega arith) (omega arith) (omega arith)

perform-insufficient_available_example :
    perform (call debit_available 31_000) (office approved) ≡ err insufficient_available
unfolding get_existing_entry get_locked_wallet find text_eq
perform-insufficient_available_example =
    perform-insufficient_available (call debit_available 31_000) (office approved) alice_wallet refl
      refl (omega arith)

twenty-ne-ten : 20 ≢ reserve_entry.wallet
unfolding atomic perform replay_or get_existing_entry after_lock obtain_wallet get_locked_wallet
    find post calculate_transition clean_wallet clean_entry credit_account is_internal_entry
    is_credit account_eq save_wallet text_eq
twenty-ne-ten = λ q. absurd (omega (arith, q))

perform-others_example : get_wallet 20 after_reserve ≡ some bob_wallet
unfolding get_wallet find
perform-others_example =
    perform-others (call reserve_available 6_000) (office approved) 20 reserve_made twenty-ne-ten
      refl

abbrev generous : Settings
generous = record {
  enabled = true;
  max_single = 30_000;
  max_24h = 30_000;
  max_24h_count = 3;
  max_7d = 60_000;
  require_known_destination = false;
}

approved_by_policy :
    (evaluate generous 200 alice alice_wallet
      (withdrawal_12 approved)
      (office approved)).auto_approve
    ≡ true
unfolding evaluate risk_reasons decide_on append_if is_active_wallet is_other is_recent is_failed
    total_amount select any get_wallet find
approved_by_policy = refl

evaluate-approved_example :
    let w = withdrawal_12 approved in
    let db = office approved in
    (generous.enabled ≡ true)
    × (alice.is_active ≡ true)
    × (alice.is_verified ≡ true)
    × (is_active_wallet active ≡ true)
    × (20_000 ≤ 30_000)
    × (length (prior day 200 1 w db) + 1 ≤ 3)
    × (total_amount (prior day 200 1 w db) + 20_000 ≤ 30_000)
    × (total_amount (prior week 200 1 w db) + 20_000 ≤ 60_000)
    × (false && not (has_known_destination 1 w db) ≡ false)
    × (any (λ x. is_other 1 w db x && is_failed x.status && is_recent 200 week x) db.withdrawals
        ≡ false)
evaluate-approved_example =
    evaluate-approved generous 200 alice alice_wallet (withdrawal_12 approved) (office approved)
      approved_by_policy

-- The deposited funds, half of them reserved without an entry.
abbrev unrecorded : Database
unrecorded = record after_deposit {
  wallets =
      map (λ (w : Wallet). record w { available_balance = 25_000; reserved_balance = 25_000 })
        after_deposit.wallets;
}

funds_reserved : reserve_funds 10 (pos 25_000) after_deposit ≡ ok unrecorded
unfolding reserve_funds require_positive save_balances atomic execute normalize_currency
    normalize_amount normalize_reference strip upper is_alpha is_space drop_spaces perform replay_or
    get_existing_entry after_lock obtain_wallet get_locked_wallet find new_wallet insert_wallet post
    calculate_transition clean_wallet clean_entry credit_account is_internal_entry is_credit
    account_eq save_wallet get_wallet
funds_reserved = refl

after_deposit-IsConsistent : IsConsistent after_deposit
unfolding atomic run_all run execute
after_deposit-IsConsistent =
    run_all-IsConsistent derive (operate credit_available true deposit ∷ []) empty
      empty-IsConsistent

reserve_funds-unrecorded_example :
    (unrecorded.entries ≡ after_deposit.entries)
    × (w : Wallet) × (get_wallet 10 unrecorded ≡ some w)
    × (snapshot w.id unrecorded.entries ≢ (w.available_balance, w.reserved_balance))
    × (¬ IsConsistent unrecorded)
reserve_funds-unrecorded_example =
    reserve_funds-unrecorded 10 (pos 25_000) after_deposit unrecorded after_deposit-IsConsistent
      funds_reserved
