-- ===== src/Wallets/Requests.antt =====
-- `create_withdrawal_request` and `spend_available_balance` of WalletService
-- (wallets/services/wallet_service.py). `uuid5` is the standard library's derivation of a UUID from
-- a UUID and a name; `now` is `timezone.now()` in seconds.
pub mod Cases
pub mod Consistency
use leagueos_backend.Prelude.{
  ℕ, ◌+◌, ◌*◌, Bool, true, false, ◌&&◌, Option, none, some, List, [], ◌∷◌, ltb, ◌==◌, if◌then◌else◌,
  length, text_eq, find, Result, ok, err, ◌>>=◌, ◌>>◌, require, raise_if, or_raise,
}
use leagueos_backend.Prelude.Int.{pos}
use leagueos_backend.Wallets.Model.{
  Text, codes, Wallet, revenue, LedgerContext, TransactionType, TransactionStatus,
  TransactionReference, wdr, spend, WalletTransaction, WithdrawalRequest, WithdrawalStatus,
  pending_approval, not_checked, ApprovalMode, automatic, User, withdrawal_requested,
  withdrawal_approved, PaymentProvider, DepositIntent, IntentStatus, Database, Error,
  invalid_reference, inactive_user, unverified_user, no_destination, no_wallet, inactive_wallet,
  incomplete_operation, reference_reused, insufficient_available, invalid_provider, invalid_key,
  Label, withdrawal_reserve, wallet_spend_debit, RawKey, absent, malformed, uuid,
}
use leagueos_backend.Wallets.Normalize.{
  RawAmount, units, normalize_currency, normalize_amount, strip, upper,
}
use leagueos_backend.Wallets.Transition.{account}
use leagueos_backend.Wallets.Execute.{get_locked_wallet, get_wallet}
use leagueos_backend.Wallets.Service.{Request, reserve, debit_available}
use leagueos_backend.Wallets.Rows.{find_reference, save_withdrawal, audit, request_key}
use leagueos_backend.Wallets.Risk.{Settings, Decision, is_active_wallet, evaluate}

-- The ledger context of a call for a transaction alone.
abbrev pub of_transaction : ℕ → LedgerContext
of_transaction t = record { market = none; order = none; fill = none; transaction = some t }

unfoldable pub is_withdrawal_type : TransactionType → Bool
is_withdrawal_type TransactionType.withdrawal = true
is_withdrawal_type _ = false

unfoldable pub is_adjustment : TransactionType → Bool
is_adjustment TransactionType.adjustment = true
is_adjustment _ = false

-- `existing_transaction.withdrawal_request`
unfoldable pub withdrawal_of : WalletTransaction → Database → Option WithdrawalRequest
withdrawal_of t db =
    find (λ w. elim w.transaction [ none ↦ false | some id ↦ id == t.id ]) db.withdrawals

-- The owner and the currency of a row's wallet.
unfoldable pub wallet_matches : ℕ → User → Text → Database → Bool
wallet_matches wallet user currency db = elim (get_wallet wallet db) [
  | none ↦ false
  | some w ↦ (w.user == user.id) && text_eq w.currency currency
]

-- A repeated request: the withdrawal made before, if all of it agrees.
unfoldable pub existing_withdrawal :
    WalletTransaction → User → Text → ℕ → Text → Database → Result Error WithdrawalRequest
existing_withdrawal t user currency amount destination db = do
  existing ← or_raise (withdrawal_of t db) incomplete_operation
  require
      (wallet_matches existing.wallet user currency db
        && (existing.amount == amount)
        && text_eq existing.destination destination
        && is_withdrawal_type t.transaction_type)
      reference_reused
  ok existing

-- The pending rows of a new withdrawal.
unfoldable pub new_transaction : Wallet → ℕ → ℕ → Text → Database → WalletTransaction
new_transaction wallet key amount currency db = record {
  id = db.next_id;
  wallet = wallet.id;
  reference = wdr key;
  transaction_type = TransactionType.withdrawal;
  amount = amount;
  currency = currency;
  status = TransactionStatus.pending;
  provider_reference = [];
  description = codes "Wallet withdrawal request";
  completed_at = none;
}

unfoldable pub new_withdrawal : Wallet → ℕ → Text → ℕ → Database → WithdrawalRequest
new_withdrawal wallet amount destination now db = record {
  id = db.next_id + 1;
  wallet = wallet.id;
  amount = amount;
  destination = destination;
  status = pending_approval;
  risk_status = not_checked;
  transaction = some db.next_id;
  approved_by = none;
  approved_at = none;
  rejection_reason = [];
  failure_reason = [];
  approval_mode = ApprovalMode.pending;
  risk_reasons = [];
  created_at = now;
}

unfoldable pub insert_withdrawal : WalletTransaction → WithdrawalRequest → Database → Database
insert_withdrawal t w db = record db {
  transactions = t ∷ db.transactions;
  withdrawals = w ∷ db.withdrawals;
  next_id = db.next_id + 2;
}

-- The withdrawal after the risk decision.
unfoldable pub decided : Decision → ℕ → WithdrawalRequest → WithdrawalRequest
decided d now w =
    let w' = record w { risk_status = d.risk_status; risk_reasons = d.reasons } in
    if d.auto_approve
    then record w' {
      status = WithdrawalStatus.approved;
      approval_mode = automatic;
      approved_at = some now;
    }
    else w'

-- The audit rows of a new withdrawal.
unfoldable pub audit_request : Decision → User → WithdrawalRequest → Database → Database
audit_request d user w db =
    let requested = audit (some user.id) withdrawal_requested w.id db in
    if d.auto_approve then audit none withdrawal_approved w.id requested else requested

-- `normalized_description or "Wallet purchase"`
unfoldable pub described : Text → Text
described [] = codes "Wallet purchase"
described (c ∷ s) = c ∷ s

unfoldable pub spend_transaction : Wallet → ℕ → ℕ → Text → Text → ℕ → Database → WalletTransaction
spend_transaction wallet key amount currency description now db = record {
  id = db.next_id;
  wallet = wallet.id;
  reference = spend key;
  transaction_type = TransactionType.adjustment;
  amount = amount;
  currency = currency;
  status = TransactionStatus.completed;
  provider_reference = [];
  description = description;
  completed_at = some now;
}

module _ (uuid5 : ℕ → Label → ℕ) where
  -- The rows are made, the funds are reserved, and the risk policy decides.
  unfoldable pub open_withdrawal :
      Settings
      → User
      → Wallet
      → ℕ
      → ℕ
      → Text
      → Text
      → ℕ
      → Database
      → Result Error (WithdrawalRequest × Database)
  open_withdrawal s user wallet key amount currency destination now db = do
    let t = new_transaction wallet key amount currency db
    let w = new_withdrawal wallet amount destination now db
    (entry, db') ←
        reserve
          (record {
            user = user.id;
            currency = currency;
            amount = units (pos amount);
            idempotency_reference = some (uuid5 key withdrawal_reserve);
            context = of_transaction t.id;
            counterparty_account = none;
          })
          (insert_withdrawal t w db)
    let d = evaluate s now user wallet w db'
    let w' = decided d now w
    ok (
      w',
      audit_request d user w' (record db' { withdrawals = save_withdrawal w' db'.withdrawals }),
    )

  unfoldable pub create_withdrawal_request :
      Settings
      → User
      → RawAmount
      → Text
      → Option Text
      → RawKey
      → ℕ
      → Database
      → Result Error (WithdrawalRequest × Database)
  create_withdrawal_request s user raw_amount raw_currency destination raw_key now db = do
    require user.is_active inactive_user
    require user.is_verified unverified_user
    currency ← normalize_currency raw_currency
    amount ← normalize_amount raw_amount
    target ← or_raise destination no_destination
    (key, db') ← or_raise (request_key raw_key db) invalid_key
    wallet ← or_raise (get_locked_wallet user.id currency db') no_wallet
    require (is_active_wallet wallet.status) inactive_wallet
    elim (find_reference (wdr key) db') [
      | some t ↦ existing_withdrawal t user currency amount target db' >>= λ w. ok (w, db')
      | none ↦
          raise_if (ltb wallet.available_balance amount) insufficient_available
          >> open_withdrawal s user wallet key amount currency target now db'
    ]

  -- The row of a purchase is made and the funds are debited.
  unfoldable pub open_spend :
      User
      → Wallet
      → ℕ
      → ℕ
      → Text
      → Text
      → ℕ
      → Database
      → Result Error (WalletTransaction × Database)
  open_spend user wallet key amount currency description now db = do
    let t = spend_transaction wallet key amount currency (described (strip description)) now db
    (entry, db') ←
        debit_available
          (record {
            user = user.id;
            currency = currency;
            amount = units (pos amount);
            idempotency_reference = some (uuid5 key wallet_spend_debit);
            context = of_transaction t.id;
            counterparty_account = some (account revenue);
          })
          (record db { transactions = t ∷ db.transactions; next_id = db.next_id + 1 })
    ok (t, db')

  unfoldable pub spend_available_balance :
      User
      → RawAmount
      → Text
      → Text
      → RawKey
      → ℕ
      → Database
      → Result Error (WalletTransaction × Database)
  spend_available_balance user raw_amount raw_currency description raw_key now db = do
    require user.is_active inactive_user
    currency ← normalize_currency raw_currency
    amount ← normalize_amount raw_amount
    (key, db') ← or_raise (request_key raw_key db) invalid_key
    wallet ← or_raise (get_locked_wallet user.id currency db') no_wallet
    require (is_active_wallet wallet.status) inactive_wallet
    elim (find_reference (spend key) db') [
      | some t ↦
          require
            (wallet_matches t.wallet user currency db'
              && (t.amount == amount)
              && is_adjustment t.transaction_type)
            reference_reused
          >> ok (t, db')
      | none ↦ open_spend user wallet key amount currency description now db'
    ]
