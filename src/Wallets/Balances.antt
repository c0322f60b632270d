-- ===== src/Wallets/Balances.antt =====
-- `get_or_create_wallet` and the operations of WalletService that move a wallet's balances without a
-- ledger entry: `reserve_funds`, `release_funds` and `debit_reserved_funds`
-- (wallets/services/wallet_service.py).
pub mod Unrecorded
use leagueos_backend.Prelude.{
  ℕ, ◌+◌, ◌-◌, Option, none, some, List, ltb, leb, ◌||◌, Result, ok, err, ◌>>=◌, ◌>>◌, require,
  raise_if, or_raise,
}
use leagueos_backend.Prelude.Int.{ℤ, pos, negsuc}
use leagueos_backend.Wallets.Model.{
  Text, Wallet, Database, Error, amount_not_positive, no_wallet, insufficient_available,
  insufficient_reserved,
}
use leagueos_backend.Wallets.Normalize.{upper}
use leagueos_backend.Wallets.Execute.{
  get_locked_wallet, get_wallet, new_wallet, insert_wallet, save_wallet, clean_wallet,
}

unfoldable pub get_or_create_wallet : ℕ → Text → Database → Wallet × Database
get_or_create_wallet user currency db = elim (get_locked_wallet user (upper currency) db) [
  | some w ↦ (w, db)
  | none ↦ (let w = new_wallet user (upper currency) db in (w, insert_wallet w db))
]

-- `if amount <= 0: raise ValidationError("Amount must be positive.")`
unfoldable pub require_positive : ℤ → Result Error ℕ
require_positive (negsuc n) = err amount_not_positive
require_positive (pos n) = require (ltb 0 n) amount_not_positive >> ok n

-- The save of a wallet whose balances fit their columns.
unfoldable pub save_balances : Wallet → Database → Result Error Database
save_balances w db = do clean_wallet w; ok (record db { wallets = save_wallet w db.wallets })

unfoldable pub reserve_funds : ℕ → ℤ → Database → Result Error Database
reserve_funds wallet raw db = do
  amount ← require_positive raw
  w ← or_raise (get_wallet wallet db) no_wallet
  raise_if (ltb w.available_balance amount) insufficient_available
  save_balances
      (record w {
        available_balance = w.available_balance - amount;
        reserved_balance = w.reserved_balance + amount;
      })
      db

unfoldable pub release_funds : ℕ → ℤ → Database → Result Error Database
release_funds wallet raw db = do
  amount ← require_positive raw
  w ← or_raise (get_wallet wallet db) no_wallet
  raise_if (ltb w.reserved_balance amount) insufficient_reserved
  save_balances
      (record w {
        reserved_balance = w.reserved_balance - amount;
        available_balance = w.available_balance + amount;
      })
      db

unfoldable pub debit_reserved_funds : ℕ → ℤ → Database → Result Error Database
debit_reserved_funds wallet raw db = do
  amount ← require_positive raw
  w ← or_raise (get_wallet wallet db) no_wallet
  raise_if (ltb w.reserved_balance amount) insufficient_reserved
  save_balances (record w { reserved_balance = w.reserved_balance - amount }) db
