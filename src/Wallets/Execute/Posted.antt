-- ===== src/Wallets/Execute/Posted.antt =====
-- What a successful `post` has written.
use leagueos_backend.Prelude.{◌<◌, ◌≡◌, true, ◌∷◌, arith, ok}
use leagueos_backend.Wallets.Model.{Wallet, LedgerEntry, Database, money_limit}
use leagueos_backend.Wallets.Transition.{
  calculate_transition, credit_account, is_internal, is_internal_entry, is_credit,
  entry_matches_operation,
}
use leagueos_backend.Wallets.Execute.{Call, post, save_wallet, clean_wallet, clean_entry}

pub record IsPosted (c : Call) (w : Wallet) (db : Database) (e : LedgerEntry) (db' : Database)
    : Type 0 where
  pub wallet : e.wallet ≡ w.id
  pub amount : e.amount ≡ c.amount
  pub reference : e.idempotency_reference ≡ c.reference
  pub context : e.context ≡ c.context
  pub available_before : e.available_balance_before ≡ w.available_balance
  pub reserved_before : e.reserved_balance_before ≡ w.reserved_balance
  pub matches : entry_matches_operation e c.operation ≡ true
  pub available_fits : e.available_balance_after < money_limit
  pub reserved_fits : e.reserved_balance_after < money_limit
  pub account :
      credit_account (is_internal c.operation) (is_credit c.operation) c.counterparty
      ≡ ok e.credit_account
  pub database : db' ≡ record db {
    wallets =
        save_wallet
          (record w {
            available_balance = e.available_balance_after;
            reserved_balance = e.reserved_balance_after;
          })
          db.wallets;
    entries = e ∷ db.entries;
  }

pub post-IsPosted :
    (c : Call) (w : Wallet) (db : Database) {e : LedgerEntry} {db' : Database}
    → post c w db ≡ ok (e, db')
    → IsPosted c w db e db'
unfolding post clean_wallet clean_entry calculate_transition is_internal_entry is_internal
    entry_matches_operation
post-IsPosted c w db h = ground arith
