-- ===== src/Wallets/Execute/Outcome.antt =====
-- When an operation under a new reference succeeds, and how it is refused.
use leagueos_backend.Prelude.{
  ℕ, ◌+◌, ◌-◌, ◌<◌, ◌≤◌, ◌≡◌, ◌∙◌, Option, none, some, ◌∷◌, arith, ok, err, refl,
}
use leagueos_backend.Wallets.Model.{
  EntryType, AccountType, user_wallet, provider_payable, revenue, Wallet, LedgerEntry, Database,
  insufficient_available, insufficient_reserved, money_limit,
}
use leagueos_backend.Wallets.Transition.{
  Counterparty, account, unknown_account, Operation, credit_available, reserve_available,
  release_reserved, debit_available, consume_reserved, calculate_transition, credit_account,
  is_internal_entry, is_credit, account_eq,
}
use leagueos_backend.Wallets.Execute.{
  Call, perform, post, save_wallet, get_existing_entry, get_locked_wallet, get_wallet,
  obtain_wallet, clean_wallet, clean_entry,
}
use leagueos_backend.Wallets.Execute.Wallets.{old, IsObtained-saved}
use leagueos_backend.Wallets.Execute.Replay.{perform-new, replay_or-new}

-- What an operation takes from each balance, and what it brings to each.
abbrev pub takes_available : Operation → ℕ → ℕ
takes_available reserve_available n = n
takes_available debit_available n = n
takes_available _ n = 0

abbrev pub takes_reserved : Operation → ℕ → ℕ
takes_reserved release_reserved n = n
takes_reserved consume_reserved n = n
takes_reserved _ n = 0

abbrev pub brings_available : Operation → ℕ → ℕ
brings_available credit_available n = n
brings_available release_reserved n = n
brings_available _ n = 0

abbrev pub brings_reserved : Operation → ℕ → ℕ
brings_reserved reserve_available n = n
brings_reserved _ n = 0

-- The type of the entry.
abbrev pub entry_type_of : Operation → EntryType
entry_type_of credit_available = EntryType.credit
entry_type_of reserve_available = EntryType.reserve
entry_type_of release_reserved = EntryType.release
entry_type_of _ = EntryType.debit

-- The credit account of a credit or a debit: the account that is given, which is known and not the
-- user's own, or the default one.
abbrev pub given_account : AccountType → Option Counterparty → Option AccountType
given_account default none = some default
given_account default (some (account user_wallet)) = none
given_account default (some (account a)) = some a
given_account default (some unknown_account) = none

-- A reservation and a release stay inside the user's wallet, whatever account is given.
abbrev pub account_of : Operation → Option Counterparty → Option AccountType
account_of credit_available given = given_account provider_payable given
account_of reserve_available given = some user_wallet
account_of release_reserved given = some user_wallet
account_of _ given = given_account revenue given

abbrev pub moved : Operation → ℕ → Wallet → Wallet
moved op n w = record w {
  available_balance = w.available_balance + brings_available op n - takes_available op n;
  reserved_balance = w.reserved_balance + brings_reserved op n - takes_reserved op n;
}

abbrev pub entry_of : Call → AccountType → Wallet → LedgerEntry
entry_of c a w = record {
  wallet = w.id;
  entry_type = entry_type_of c.operation;
  debit_account = user_wallet;
  credit_account = a;
  amount = c.amount;
  currency = c.currency;
  available_balance_before = w.available_balance;
  available_balance_after = (moved c.operation c.amount w).available_balance;
  reserved_balance_before = w.reserved_balance;
  reserved_balance_after = (moved c.operation c.amount w).reserved_balance;
  idempotency_reference = c.reference;
  context = c.context;
}

-- The database after the operation.
abbrev pub posted : Call → AccountType → Wallet → Database → Database
posted c a w db = record db {
  wallets = save_wallet (moved c.operation c.amount w) db.wallets;
  entries = entry_of c a w ∷ db.entries;
}

post-moves :
    (c : Call) (db : Database) (w : Wallet) (a : AccountType)
    → account_of c.operation c.counterparty ≡ some a
    → c.amount < money_limit
    → takes_available c.operation c.amount ≤ w.available_balance
    → takes_reserved c.operation c.amount ≤ w.reserved_balance
    → w.available_balance + brings_available c.operation c.amount < money_limit
    → w.reserved_balance + brings_reserved c.operation c.amount < money_limit
    → post c w db ≡ ok (entry_of c a w, posted c a w db)
unfolding post calculate_transition credit_account is_internal_entry is_credit clean_wallet
    clean_entry account_eq
post-moves c db w a cp l m n f g = ground arith

module _ (c : Call) (db : Database) (w : Wallet) (new : get_existing_entry c.reference db ≡ none)
    (row : get_locked_wallet c.user c.currency db ≡ some w) where
  perform-post : perform c db ≡ post c w db
  unfolding obtain_wallet
  perform-post = perform-new c db new ∙ rw (row, obtain_wallet) (replay_or-new c db _ new)

  -- An operation under a new reference that takes more from the available balance than there is is
  -- refused.
  pub perform-insufficient_available :
      w.available_balance < takes_available c.operation c.amount
      → perform c db ≡ err insufficient_available
  unfolding post calculate_transition
  perform-insufficient_available short = perform-post ∙ ground arith

  -- An operation under a new reference that takes more from the reserved balance than there is is
  -- refused.
  pub perform-insufficient_reserved :
      w.reserved_balance < takes_reserved c.operation c.amount
      → perform c db ≡ err insufficient_reserved
  unfolding post calculate_transition
  perform-insufficient_reserved short = perform-post ∙ ground arith

  -- An operation on a stored wallet, under a new reference, with an account that may be credited,
  -- with the funds that it takes and with room in the columns, succeeds: it returns the entry with the
  -- balances before and after, its amount, its accounts, its reference and its context, appends it to
  -- the ledger and saves the wallet, whose balances move by exactly the amount, and nothing else
  -- changes.
  pub perform-succeeds :
      (a : AccountType)
      → account_of c.operation c.counterparty ≡ some a
      → c.amount < money_limit
      → takes_available c.operation c.amount ≤ w.available_balance
      → takes_reserved c.operation c.amount ≤ w.reserved_balance
      → w.available_balance + brings_available c.operation c.amount < money_limit
      → w.reserved_balance + brings_reserved c.operation c.amount < money_limit
      → (perform c db ≡ ok (entry_of c a w, posted c a w db))
        × (get_wallet w.id (posted c a w db) ≡ some (moved c.operation c.amount w))
  unfolding get_wallet
  perform-succeeds a cp l m n f g = (
    perform-post ∙ post-moves c db w a cp l m n f g,
    IsObtained-saved c db (moved c.operation c.amount w) refl (old row refl),
  )
