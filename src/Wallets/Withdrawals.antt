-- ===== src/Wallets/Withdrawals.antt =====
-- The life of a withdrawal (WalletService in wallets/services/wallet_service.py): approval,
-- rejection, processing, completion and failure. Each is one atomic call.
pub mod Machine
pub mod Consistency
use leagueos_backend.Prelude.{
  ℕ, Bool, true, false, Option, none, some, List, ◌∷◌, ◌==◌, text_eq, Result, ok, err, ◌>>=◌, ◌>>◌,
  require, or_raise, find, ◌&&◌,
}
use leagueos_backend.Prelude.Int.{pos}
use leagueos_backend.Wallets.Model.{
  Text, Wallet, provider_payable, TransactionStatus, WalletTransaction, WithdrawalStatus,
  pending_approval, approved, rejected, processing, WithdrawalRequest, manual, User,
  withdrawal_approved, withdrawal_rejected, withdrawal_processing, withdrawal_completed,
  withdrawal_failed, Database, Error, inactive_actor, reason_required, payout_reference_required,
  withdrawal_not_found, no_transaction, transaction_mismatch, different_reason,
  different_payout_reference, wrong_status, no_wallet, Label, withdrawal_reject_release,
  withdrawal_complete_debit, withdrawal_fail_release,
}
use leagueos_backend.Wallets.Normalize.{units, normalize_text}
use leagueos_backend.Wallets.Transition.{Counterparty, account}
use leagueos_backend.Wallets.Execute.{get_wallet}
use leagueos_backend.Wallets.Service.{Request, release, consume_reserved}
use leagueos_backend.Wallets.Rows.{
  get_transaction, get_withdrawal, save_transaction, save_withdrawal, audit,
}
use leagueos_backend.Wallets.Requests.{of_transaction}

-- `_require_withdrawal_actor`
unfoldable pub require_actor : Option User → Result Error User
require_actor none = err inactive_actor
require_actor (some actor) = require actor.is_active inactive_actor >> ok actor

-- A withdrawal with its transaction and its wallet.
pub record Locked : Type 0 where
  pub withdrawal : WithdrawalRequest
  pub transaction : WalletTransaction
  pub wallet : Wallet

-- `_get_locked_withdrawal`; the foreign keys of a stored row always have their rows.
unfoldable pub get_locked_withdrawal : ℕ → Database → Result Error Locked
get_locked_withdrawal id db = do
  w ← or_raise (get_withdrawal id db) withdrawal_not_found
  transaction_id ← or_raise w.transaction no_transaction
  t ← or_raise (get_transaction transaction_id db) no_transaction
  require (t.wallet == w.wallet) transaction_mismatch
  wallet ← or_raise (get_wallet w.wallet db) no_wallet
  ok (record { withdrawal = w; transaction = t; wallet = wallet })

-- The withdrawal and its transaction are saved.
unfoldable pub save_both : WithdrawalRequest → WalletTransaction → Database → Database
save_both w t db = record db {
  withdrawals = save_withdrawal w db.withdrawals;
  transactions = save_transaction t db.transactions;
}

unfoldable pub save_one : WithdrawalRequest → Database → Database
save_one w db = record db { withdrawals = save_withdrawal w db.withdrawals }

-- The ledger call for the withdrawal's amount on its wallet.
unfoldable pub settlement : Locked → ℕ → Option Counterparty → Request
settlement l reference counterparty = record {
  user = l.wallet.user;
  currency = l.wallet.currency;
  amount = units (pos l.withdrawal.amount);
  idempotency_reference = some reference;
  context = of_transaction l.transaction.id;
  counterparty_account = counterparty;
}

unfoldable pub approve_withdrawal :
    ℕ → Option User → ℕ → Database → Result Error (WithdrawalRequest × Database)
approve_withdrawal id user now db = do
  actor ← require_actor user
  l ← get_locked_withdrawal id db
  let w = l.withdrawal
  let w' = record w {
    status = approved;
    approval_mode = manual;
    approved_by = some actor.id;
    approved_at = some now;
  }
  elim w.status [
    | approved ↦ ok (w, db)
    | pending_approval ↦ ok (w', audit (some actor.id) withdrawal_approved w.id (save_one w' db))
    | _ ↦ err wrong_status
  ]

unfoldable pub mark_withdrawal_processing :
    ℕ → Option User → Database → Result Error (WithdrawalRequest × Database)
mark_withdrawal_processing id user db = do
  actor ← require_actor user
  l ← get_locked_withdrawal id db
  let w = l.withdrawal
  let w' = record w { status = processing }
  elim w.status [
    | processing ↦ ok (w, db)
    | approved ↦ ok (w', audit (some actor.id) withdrawal_processing w.id (save_one w' db))
    | _ ↦ err wrong_status
  ]

module _ (uuid5 : ℕ → Label → ℕ) where
  -- The reserved funds go back, and the rows are closed as rejected.
  unfoldable pub reject_pending :
      Locked → User → Text → Database → Result Error (WithdrawalRequest × Database)
  reject_pending l actor reason db = do
    (entry, db') ← release (settlement l (uuid5 l.withdrawal.id withdrawal_reject_release) none) db
    let t' = record (l.transaction) { status = TransactionStatus.cancelled }
    let w' = record (l.withdrawal) { status = rejected; rejection_reason = reason }
    ok (w', audit (some actor.id) withdrawal_rejected w'.id (save_both w' t' db'))

  unfoldable pub reject_withdrawal :
      ℕ → Option User → Text → Database → Result Error (WithdrawalRequest × Database)
  reject_withdrawal id user raw_reason db = do
    actor ← require_actor user
    reason ← normalize_text raw_reason reason_required
    l ← get_locked_withdrawal id db
    elim (l.withdrawal).status [
      | rejected ↦
          require (text_eq l.withdrawal.rejection_reason reason) different_reason
          >> ok (l.withdrawal, db)
      | pending_approval ↦ reject_pending l actor reason db
      | _ ↦ err wrong_status
    ]

  -- The reserved funds leave the wallet, and the rows are closed as completed.
  unfoldable pub complete_processing :
      Locked → User → Text → ℕ → Database → Result Error (WithdrawalRequest × Database)
  complete_processing l actor reference now db = do
    (entry, db') ←
        consume_reserved
          (settlement l (uuid5 l.withdrawal.id withdrawal_complete_debit)
            (some (account provider_payable)))
          db
    let t' = record (l.transaction) {
      status = TransactionStatus.completed;
      provider_reference = reference;
      completed_at = some now;
    }
    let w' = record (l.withdrawal) { status = WithdrawalStatus.completed }
    ok (w', audit (some actor.id) withdrawal_completed w'.id (save_both w' t' db'))

  unfoldable pub complete_withdrawal :
      ℕ → Option User → Text → ℕ → Database → Result Error (WithdrawalRequest × Database)
  complete_withdrawal id user raw_reference now db = do
    actor ← require_actor user
    reference ← normalize_text raw_reference payout_reference_required
    l ← get_locked_withdrawal id db
    elim (l.withdrawal).status [
      | WithdrawalStatus.completed ↦
          require (text_eq l.transaction.provider_reference reference) different_payout_reference
          >> ok (l.withdrawal, db)
      | processing ↦ complete_processing l actor reference now db
      | _ ↦ err wrong_status
    ]

  -- The reserved funds go back, and the rows are closed as failed.
  unfoldable pub fail_open :
      Locked → User → Text → Database → Result Error (WithdrawalRequest × Database)
  fail_open l actor reason db = do
    (entry, db') ← release (settlement l (uuid5 l.withdrawal.id withdrawal_fail_release) none) db
    let t' = record (l.transaction) { status = TransactionStatus.failed }
    let w' = record (l.withdrawal) { status = WithdrawalStatus.failed; failure_reason = reason }
    ok (w', audit (some actor.id) withdrawal_failed w'.id (save_both w' t' db'))

  unfoldable pub fail_withdrawal :
      ℕ → Option User → Text → Database → Result Error (WithdrawalRequest × Database)
  fail_withdrawal id user raw_reason db = do
    actor ← require_actor user
    reason ← normalize_text raw_reason reason_required
    l ← get_locked_withdrawal id db
    elim (l.withdrawal).status [
      | WithdrawalStatus.failed ↦
          require (text_eq l.withdrawal.failure_reason reason) different_reason
          >> ok (l.withdrawal, db)
      | approved ↦ fail_open l actor reason db
      | processing ↦ fail_open l actor reason db
      | _ ↦ err wrong_status
    ]

-- `get_withdrawal_request`: the user's own withdrawal.
unfoldable pub get_withdrawal_request : User → ℕ → Database → Option WithdrawalRequest
get_withdrawal_request user id db = find (λ w. (w.id == id) && owns w.wallet) db.withdrawals
  where
    owns : ℕ → Bool
    owns wallet = elim (get_wallet wallet db) [ none ↦ false | some x ↦ x.user == user.id ]
