-- ===== src/Wallets/Rows.antt =====
-- Reading and saving the rows of transactions and withdrawals.
use leagueos_backend.Prelude.{
  ℕ, ◌+◌, Bool, false, Option, none, some, List, ◌∷◌, map, ◌==◌, if◌then◌else◌, find,
}
use leagueos_backend.Wallets.Model.{
  WalletTransaction, TransactionReference, plain, wdr, spend, WithdrawalRequest, AuditAction,
  Database, RawKey, absent, malformed, uuid,
}

unfoldable pub get_transaction : ℕ → Database → Option WalletTransaction
get_transaction id db = find (λ t. t.id == id) db.transactions

unfoldable pub get_withdrawal : ℕ → Database → Option WithdrawalRequest
get_withdrawal id db = find (λ w. w.id == id) db.withdrawals

unfoldable pub reference_eq : TransactionReference → TransactionReference → Bool
reference_eq (plain a) (plain b) = a == b
reference_eq (wdr a) (wdr b) = a == b
reference_eq (spend a) (spend b) = a == b
reference_eq _ _ = false

unfoldable pub find_reference : TransactionReference → Database → Option WalletTransaction
find_reference r db = find (λ t. reference_eq t.reference r) db.transactions

unfoldable pub save_transaction :
    WalletTransaction → List WalletTransaction → List WalletTransaction
save_transaction t = map (λ x. if x.id == t.id then t else x)

unfoldable pub save_withdrawal : WithdrawalRequest → List WithdrawalRequest → List WithdrawalRequest
save_withdrawal w = map (λ x. if x.id == w.id then w else x)

-- `AuditLog.objects.create(...)`
unfoldable pub audit : Option ℕ → AuditAction → ℕ → Database → Database
audit user action related db = record db {
  audit = record { user = user; action = action; related_object_id = related } ∷ db.audit;
}

-- The request key: the given UUID, or a new one.
unfoldable pub request_key : RawKey → Database → Option (ℕ × Database)
request_key absent db = some (db.next_id, record db { next_id = db.next_id + 1 })
request_key malformed db = none
request_key (uuid k) db = some (k, db)
