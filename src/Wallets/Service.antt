-- ===== src/Wallets/Service.antt =====
-- The public operations of WalletService (wallets/services/wallet_service.py) on raw arguments:
-- `credit`, `reserve`, `release`, `debit_available` and `consume_reserved`.
pub mod Laws
pub mod Posting
use leagueos_backend.Prelude.{ℕ, Bool, true, false, Option, Result, ◌>>=◌}
use leagueos_backend.Wallets.Model.{Text, LedgerEntry, LedgerContext, Database, Error}
use leagueos_backend.Wallets.Normalize.{
  RawAmount, normalize_currency, normalize_amount, normalize_reference,
}
use leagueos_backend.Wallets.Transition.{
  Operation, credit_available, reserve_available, release_reserved, Counterparty,
}
use leagueos_backend.Wallets.Execute.{perform}

pub record Request : Type 0 where
  pub user : ℕ
  pub currency : Text
  pub amount : RawAmount
  pub idempotency_reference : Option ℕ
  pub context : LedgerContext
  pub counterparty_account : Option Counterparty

unfoldable pub execute :
    Operation → Bool → Request → Database → Result Error (LedgerEntry × Database)
execute operation create_wallet r db = do
  currency ← normalize_currency r.currency
  amount ← normalize_amount r.amount
  reference ← normalize_reference r.idempotency_reference
  perform
      (record {
        user = r.user;
        currency = currency;
        amount = amount;
        reference = reference;
        operation = operation;
        create_wallet = create_wallet;
        context = r.context;
        counterparty = r.counterparty_account;
      })
      db

unfoldable pub credit : Request → Database → Result Error (LedgerEntry × Database)
credit = execute credit_available true

unfoldable pub reserve : Request → Database → Result Error (LedgerEntry × Database)
reserve = execute reserve_available false

unfoldable pub release : Request → Database → Result Error (LedgerEntry × Database)
release = execute release_reserved false

unfoldable pub debit_available : Request → Database → Result Error (LedgerEntry × Database)
debit_available = execute Operation.debit_available false

unfoldable pub consume_reserved : Request → Database → Result Error (LedgerEntry × Database)
consume_reserved = execute Operation.consume_reserved false
