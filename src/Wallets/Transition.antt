-- ===== src/Wallets/Transition.antt =====
-- `_calculate_transition`, the choice of the credit account and `_entry_matches_operation`
-- (wallets/services/wallet_service.py).
use leagueos_backend.Prelude.{
  ℕ, ◌+◌, ◌-◌, Bool, true, false, ◌&&◌, Option, none, some, ltb, ◌==◌, Result, ok, err, ◌>>◌,
  raise_if,
}
use leagueos_backend.Wallets.Model.{
  EntryType, AccountType, user_wallet, provider_payable, revenue, LedgerEntry, Error,
  insufficient_available, insufficient_reserved, unsupported_account,
}

pub data Operation : Type 0 where
  credit_available reserve_available release_reserved debit_available consume_reserved : Operation

-- The balances after the operation, available and reserved, and the type of its entry.
unfoldable pub calculate_transition : Operation → ℕ → ℕ → ℕ → Result Error (ℕ × ℕ × EntryType)
calculate_transition credit_available amount available reserved =
    ok (available + amount, reserved, EntryType.credit)
calculate_transition reserve_available amount available reserved =
    raise_if (ltb available amount) insufficient_available
    >> ok (available - amount, reserved + amount, EntryType.reserve)
calculate_transition release_reserved amount available reserved =
    raise_if (ltb reserved amount) insufficient_reserved
    >> ok (available + amount, reserved - amount, EntryType.release)
calculate_transition debit_available amount available reserved =
    raise_if (ltb available amount) insufficient_available
    >> ok (available - amount, reserved, EntryType.debit)
calculate_transition consume_reserved amount available reserved =
    raise_if (ltb reserved amount) insufficient_reserved
    >> ok (available, reserved - amount, EntryType.debit)

-- A counterparty account as the caller spells it.
pub data Counterparty : Type 0 where
  account : AccountType → Counterparty
  unknown_account : Counterparty

unfoldable pub credit_account : Bool → Bool → Option Counterparty → Result Error AccountType
credit_account true is_credit counterparty = ok user_wallet
credit_account false is_credit (some (account a)) = ok a
credit_account false is_credit (some unknown_account) = err unsupported_account
credit_account false true none = ok provider_payable
credit_account false false none = ok revenue

-- `operation in (RESERVE, RELEASE)`
unfoldable pub is_internal : Operation → Bool
is_internal reserve_available = true
is_internal release_reserved = true
is_internal _ = false

-- `operation == OPERATION_CREDIT`
unfoldable pub is_credit : Operation → Bool
is_credit credit_available = true
is_credit _ = false

-- `entry_type in (RESERVE, RELEASE)`
unfoldable pub is_internal_entry : EntryType → Bool
is_internal_entry EntryType.reserve = true
is_internal_entry EntryType.release = true
is_internal_entry _ = false

unfoldable pub entry_type_eq : EntryType → EntryType → Bool
entry_type_eq EntryType.credit EntryType.credit = true
entry_type_eq EntryType.debit EntryType.debit = true
entry_type_eq EntryType.reserve EntryType.reserve = true
entry_type_eq EntryType.release EntryType.release = true
entry_type_eq _ _ = false

unfoldable pub account_eq : AccountType → AccountType → Bool
account_eq user_wallet user_wallet = true
account_eq provider_payable provider_payable = true
account_eq revenue revenue = true
account_eq _ _ = false

-- The snapshots of the entry differ as the operation demands. Python compares signed decimals, so
-- `after == before - amount` is written `after + amount == before`.
unfoldable pub entry_matches_operation : LedgerEntry → Operation → Bool
unfolding entry_type_eq
entry_matches_operation e credit_available =
    entry_type_eq e.entry_type EntryType.credit
    && (e.available_balance_after == e.available_balance_before + e.amount)
    && (e.reserved_balance_after == e.reserved_balance_before)
entry_matches_operation e reserve_available =
    entry_type_eq e.entry_type EntryType.reserve
    && (e.available_balance_after + e.amount == e.available_balance_before)
    && (e.reserved_balance_after == e.reserved_balance_before + e.amount)
entry_matches_operation e release_reserved =
    entry_type_eq e.entry_type EntryType.release
    && (e.available_balance_after == e.available_balance_before + e.amount)
    && (e.reserved_balance_after + e.amount == e.reserved_balance_before)
entry_matches_operation e debit_available =
    entry_type_eq e.entry_type EntryType.debit
    && (e.available_balance_after + e.amount == e.available_balance_before)
    && (e.reserved_balance_after == e.reserved_balance_before)
entry_matches_operation e consume_reserved =
    entry_type_eq e.entry_type EntryType.debit
    && (e.available_balance_after == e.available_balance_before)
    && (e.reserved_balance_after + e.amount == e.reserved_balance_before)
