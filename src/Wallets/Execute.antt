-- ===== src/Wallets/Execute.antt =====
-- `_execute` and the five operations over it (WalletService in wallets/services/wallet_service.py).
-- A call is `transaction.atomic`: an error leaves the database as it was. The row locks make the
-- calls on one user's wallets run one after another, and each call here is one such run.
pub mod Posted
pub mod Wallets
pub mod Replay
pub mod Outcome
pub mod Reuse
pub mod Frame
use leagueos_backend.Prelude.{
  ℕ, ◌+◌, Bool, true, false, ◌&&◌, ◌||◌, Option, none, some, List, [], ◌∷◌, map, ltb, leb, ◌==◌,
  if◌then◌else◌, option_eq, text_eq, find, Result, ok, err, ◌>>=◌, ◌>>◌, require, raise_if,
}
use leagueos_backend.Wallets.Model.{
  Text, Wallet, active, LedgerEntry, LedgerContext, AccountType, user_wallet, Database, Error,
  money_limit, reference_reused, no_wallet, same_account, balance_too_large, amount_too_large,
}
use leagueos_backend.Wallets.Normalize.{
  RawAmount, normalize_currency, normalize_amount, normalize_reference,
}
use leagueos_backend.Wallets.Transition.{
  Operation, credit_available, reserve_available, release_reserved, debit_available,
  consume_reserved, Counterparty, calculate_transition, credit_account, is_internal, is_credit,
  is_internal_entry, account_eq, entry_matches_operation,
}

-- A call with its arguments normalised.
pub record Call : Type 0 where
  pub user : ℕ
  pub currency : Text
  pub amount : ℕ
  pub reference : ℕ
  pub operation : Operation
  pub create_wallet : Bool
  pub context : LedgerContext
  pub counterparty : Option Counterparty

unfoldable pub get_existing_entry : ℕ → Database → Option LedgerEntry
get_existing_entry reference db = find (λ e. e.idempotency_reference == reference) db.entries

-- `user=user, currency=currency`
abbrev pub is_owned : ℕ → Text → Wallet → Bool
is_owned user currency w = (w.user == user) && text_eq w.currency currency

unfoldable pub get_locked_wallet : ℕ → Text → Database → Option Wallet
get_locked_wallet user currency db = find (is_owned user currency) db.wallets

-- A foreign key's row.
unfoldable pub get_wallet : ℕ → Database → Option Wallet
get_wallet id db = find (λ w. w.id == id) db.wallets

unfoldable pub same_context : LedgerContext → LedgerContext → Bool
same_context a b =
    option_eq a.market b.market
    && option_eq a.order b.order
    && option_eq a.fill b.fill
    && option_eq a.transaction b.transaction

-- The conjunction that `_require_matching_replay` tests, given the expected credit account.
unfoldable pub replay_matches : LedgerEntry → Wallet → Call → AccountType → Bool
replay_matches entry w c expected =
    (w.user == c.user)
    && text_eq w.currency c.currency
    && (entry.amount == c.amount)
    && entry_matches_operation entry c.operation
    && same_context entry.context c.context
    && account_eq entry.credit_account expected

unfoldable pub require_matching_replay : LedgerEntry → Call → Database → Result Error (Unit {0})
require_matching_replay entry c db = do
  expected ← credit_account (is_internal c.operation) (is_credit c.operation) c.counterparty
  elim (get_wallet entry.wallet db) [
    | none ↦ err reference_reused
    | some w ↦ require (replay_matches entry w c expected) reference_reused
  ]

-- `existing = _get_existing_entry(reference)`: a replay returns it, else the call goes on.
unfoldable pub replay_or :
    Call → Database → Result Error (LedgerEntry × Database) → Result Error (LedgerEntry × Database)
replay_or c db next = elim (get_existing_entry c.reference db) [
  | some entry ↦ require_matching_replay entry c db >> ok (entry, db)
  | none ↦ next
]

-- `wallet.save(...)`
unfoldable pub save_wallet : Wallet → List Wallet → List Wallet
save_wallet w = map (λ x. if x.id == w.id then w else x)

-- `Wallet(user=user, currency=currency)`
unfoldable pub new_wallet : ℕ → Text → Database → Wallet
new_wallet user currency db = record {
  id = db.next_id;
  user = user;
  currency = currency;
  available_balance = 0;
  reserved_balance = 0;
  status = active;
}

-- `wallet.save(force_insert=True)`
unfoldable pub insert_wallet : Wallet → Database → Database
insert_wallet w db = record db { wallets = w ∷ db.wallets; next_id = db.next_id + 1 }

-- The wallet of the call, made when the call may make it.
unfoldable pub obtain_wallet : Call → Database → Result Error (Wallet × Database)
obtain_wallet c db = elim (get_locked_wallet c.user c.currency db) [
  | some w ↦ ok (w, db)
  | none ↦
      if c.create_wallet
      then (let w = new_wallet c.user c.currency db in ok (w, insert_wallet w db))
      else err no_wallet
]

-- `wallet.full_clean()`: the balances fit their columns.
unfoldable pub clean_wallet : Wallet → Result Error (Unit {0})
clean_wallet w =
    raise_if (leb money_limit w.available_balance || leb money_limit w.reserved_balance)
      balance_too_large

-- `entry.full_clean(...)`
unfoldable pub clean_entry : LedgerEntry → Result Error (Unit {0})
clean_entry e = do
  raise_if (leb money_limit e.amount) amount_too_large
  raise_if (account_eq e.debit_account e.credit_account && not_internal) same_account
  where
    not_internal : Bool
    not_internal = if is_internal_entry e.entry_type then false else true

-- The balances move, the wallet is saved and the entry is appended.
unfoldable pub post : Call → Wallet → Database → Result Error (LedgerEntry × Database)
post c w db = do
  (available, reserved, entry_type) ←
      calculate_transition c.operation c.amount w.available_balance w.reserved_balance
  let w' = record w { available_balance = available; reserved_balance = reserved }
  clean_wallet w'
  account ← credit_account (is_internal_entry entry_type) (is_credit c.operation) c.counterparty
  let entry : LedgerEntry = record {
    wallet = w.id;
    entry_type = entry_type;
    debit_account = user_wallet;
    credit_account = account;
    amount = c.amount;
    currency = c.currency;
    available_balance_before = w.available_balance;
    available_balance_after = available;
    reserved_balance_before = w.reserved_balance;
    reserved_balance_after = reserved;
    idempotency_reference = c.reference;
    context = c.context;
  }
  clean_entry entry
  ok (entry, record db { wallets = save_wallet w' db.wallets; entries = entry ∷ db.entries })

-- What follows `_lock_user`.
unfoldable pub after_lock : Call → Database → Result Error (LedgerEntry × Database)
after_lock c db = replay_or c db do (w, db') ← obtain_wallet c db; replay_or c db' (post c w db')

unfoldable pub perform : Call → Database → Result Error (LedgerEntry × Database)
perform c db = replay_or c db (after_lock c db)
