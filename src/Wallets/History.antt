-- ===== src/Wallets/History.antt =====
-- Histories of the wallet service: calls in any order, where a call that raises is rolled back. The
-- calls are all that change the database, but for `reserve_funds`, `release_funds` and
-- `debit_reserved_funds` (Wallets/Balances), which move balances without a ledger entry and which no
-- other code of the repository calls.
pub mod Invariant
pub mod Next
pub mod Lifecycle
pub mod Totals
use leagueos_backend.Prelude.{ℕ, Bool, Option, List, [], ◌∷◌, Result, ok, err}
use leagueos_backend.Wallets.Model.{Text, User, Database, Error, Label, RawKey}
use leagueos_backend.Wallets.Normalize.{RawAmount}
use leagueos_backend.Wallets.Transition.{Operation}
use leagueos_backend.Wallets.Service.{Request, execute}
use leagueos_backend.Wallets.Risk.{Settings}
use leagueos_backend.Wallets.Balances.{get_or_create_wallet}
use leagueos_backend.Wallets.Deposits.{create_deposit_intent}
use leagueos_backend.Wallets.Requests.{create_withdrawal_request, spend_available_balance}
use leagueos_backend.Wallets.Withdrawals.{
  approve_withdrawal, reject_withdrawal, mark_withdrawal_processing, complete_withdrawal,
  fail_withdrawal,
}

-- A call of the service with its arguments; a last number in a call with a clock is the time.
pub data Command : Type 0 where
  operate : Operation → Bool → Request → Command
  request : Settings → User → RawAmount → Text → Option Text → RawKey → ℕ → Command
  spend : User → RawAmount → Text → Text → RawKey → ℕ → Command
  approve : ℕ → Option User → ℕ → Command
  reject : ℕ → Option User → Text → Command
  process : ℕ → Option User → Command
  complete : ℕ → Option User → Text → ℕ → Command
  fail : ℕ → Option User → Text → Command
  obtain : ℕ → Text → Command
  intend : User → Text → RawAmount → Text → RawKey → ℕ → Command

-- `transaction.atomic`: the database after the call, the old one if the call raised.
unfoldable pub atomic {ℓ} : {A : Type ℓ} → Result Error (A × Database) → Database → Database
atomic (ok (a, db')) db = db'
atomic (err e) db = db

module _ (uuid5 : ℕ → Label → ℕ) where
  unfoldable pub run : Command → Database → Database
  unfolding atomic
  run (operate op create r) db = atomic (execute op create r db) db
  run (request s u a c d k now) db = atomic (create_withdrawal_request uuid5 s u a c d k now db) db
  run (spend u a c d k now) db = atomic (spend_available_balance uuid5 u a c d k now db) db
  run (approve id u now) db = atomic (approve_withdrawal id u now db) db
  run (reject id u reason) db = atomic (reject_withdrawal uuid5 id u reason db) db
  run (process id u) db = atomic (mark_withdrawal_processing id u db) db
  run (complete id u reference now) db = atomic (complete_withdrawal uuid5 id u reference now db) db
  run (fail id u reason) db = atomic (fail_withdrawal uuid5 id u reason db) db
  run (obtain user c) db = (get_or_create_wallet user c db).1
  run (intend u provider a c k now) db = atomic (create_deposit_intent u provider a c k now db) db

  unfoldable pub run_all : List Command → Database → Database
  run_all [] db = db
  run_all (c ∷ cs) db = run_all cs (run c db)
