-- ===== src/Wallets/Model.antt =====
-- The rows of the wallet tables (wallets/models.py) and the database that the service reads and
-- writes. Money is counted in units of 0.0001, the four decimal places of every money column.
-- Primary keys and other UUIDs are numbers; a list holds the newest row first.
use Prim.Native.Char.{code}
use Prim.Native.String.{String}
use leagueos_backend.Prelude.{[], ◌∷◌, ℕ, ◌^◌, Bool, Option, List}

-- A text is the list of its character codes.
abbrev pub Text : Type 0
Text = List ℕ

-- The text of a quoted constant.
abbrev pub codes : String → Text
codes String.[] = []
codes (String.◌∷◌ c s) = code c ∷ codes s

pub data WalletStatus : Type 0 where
  active suspended closed : WalletStatus

pub record Wallet : Type 0 where
  pub id : ℕ
  pub user : ℕ
  pub currency : Text
  pub available_balance : ℕ
  pub reserved_balance : ℕ
  pub status : WalletStatus

pub data EntryType : Type 0 where
  credit debit reserve release : EntryType

pub data AccountType : Type 0 where
  user_wallet provider_payable revenue : AccountType

-- The optional market rows and the transaction that an entry refers to.
pub record LedgerContext : Type 0 where
  pub market : Option ℕ
  pub order : Option ℕ
  pub fill : Option ℕ
  pub transaction : Option ℕ

pub record LedgerEntry : Type 0 where
  pub wallet : ℕ
  pub entry_type : EntryType
  pub debit_account : AccountType
  pub credit_account : AccountType
  pub amount : ℕ
  pub currency : Text
  pub available_balance_before : ℕ
  pub available_balance_after : ℕ
  pub reserved_balance_before : ℕ
  pub reserved_balance_after : ℕ
  pub idempotency_reference : ℕ
  pub context : LedgerContext

pub data TransactionType : Type 0 where
  deposit withdrawal adjustment settlement_payout void_refund : TransactionType

pub data TransactionStatus : Type 0 where
  pending completed failed cancelled : TransactionStatus

-- A transaction's reference is the text of a UUID, or a prefix and its hex digits.
pub data TransactionReference : Type 0 where
  plain wdr spend : ℕ → TransactionReference

pub record WalletTransaction : Type 0 where
  pub id : ℕ
  pub wallet : ℕ
  pub reference : TransactionReference
  pub transaction_type : TransactionType
  pub amount : ℕ
  pub currency : Text
  pub status : TransactionStatus
  pub provider_reference : Text
  pub description : Text
  pub completed_at : Option ℕ

-- Of a provider its key, code and activity.
pub record PaymentProvider : Type 0 where
  pub id : ℕ
  pub code : Text
  pub is_active : Bool

pub data IntentStatus : Type 0 where
  pending completed failed expired : IntentStatus

pub record DepositIntent : Type 0 where
  pub id : ℕ
  pub user : ℕ
  pub provider : ℕ
  pub amount : ℕ
  pub currency : Text
  pub status : IntentStatus
  pub idempotency_key : ℕ
  pub expires_at : ℕ

pub data WithdrawalStatus : Type 0 where
  pending_approval approved rejected processing completed failed : WithdrawalStatus

pub data RiskStatus : Type 0 where
  not_checked passed flagged failed : RiskStatus

pub data ApprovalMode : Type 0 where
  pending automatic manual : ApprovalMode

pub data RiskReason : Type 0 where
  account_inactive identity_not_verified wallet_not_active : RiskReason
  amount_above_auto_approval_limit withdrawal_count_24h_limit : RiskReason
  withdrawal_value_24h_limit withdrawal_value_7d_limit : RiskReason
  new_withdrawal_destination recent_failed_withdrawal : RiskReason

-- A destination is the canonical JSON text of the dictionary.
pub record WithdrawalRequest : Type 0 where
  pub id : ℕ
  pub wallet : ℕ
  pub amount : ℕ
  pub destination : Text
  pub status : WithdrawalStatus
  pub risk_status : RiskStatus
  pub transaction : Option ℕ
  pub approved_by : Option ℕ
  pub approved_at : Option ℕ
  pub rejection_reason : Text
  pub failure_reason : Text
  pub approval_mode : ApprovalMode
  pub risk_reasons : List RiskReason
  pub created_at : ℕ

-- What the service reads of a user.
pub record User : Type 0 where
  pub id : ℕ
  pub is_active : Bool
  pub is_verified : Bool

pub data AuditAction : Type 0 where
  withdrawal_requested withdrawal_approved withdrawal_rejected : AuditAction
  withdrawal_processing withdrawal_completed withdrawal_failed : AuditAction

pub record AuditLog : Type 0 where
  pub user : Option ℕ
  pub action : AuditAction
  pub related_object_id : ℕ

-- `next_id` is the next primary key: a UUID that no row has yet.
pub record Database : Type 0 where
  pub wallets : List Wallet
  pub entries : List LedgerEntry
  pub transactions : List WalletTransaction
  pub withdrawals : List WithdrawalRequest
  pub audit : List AuditLog
  pub providers : List PaymentProvider
  pub deposit_intents : List DepositIntent
  pub next_id : ℕ

-- `max_digits=16, decimal_places=4`: a stored amount is below 10 ^ 12, which is 10 ^ 16 units.
abbrev pub money_limit : ℕ
money_limit = 10 ^ 16

pub data Error : Type 0 where
  invalid_currency invalid_amount amount_not_positive invalid_reference : Error
  reference_reused no_wallet insufficient_available insufficient_reserved : Error
  unsupported_account same_account balance_too_large amount_too_large : Error
  inactive_user unverified_user no_destination inactive_wallet incomplete_operation : Error
  inactive_actor reason_required payout_reference_required withdrawal_not_found : Error
  no_transaction transaction_mismatch different_reason different_payout_reference : Error
  wrong_status invalid_provider invalid_key duplicate_reference : Error

-- The names under which `uuid5` derives the references of the wallet entries.
pub data Label : Type 0 where
  withdrawal_reserve withdrawal_reject_release withdrawal_complete_debit : Label
  withdrawal_fail_release wallet_spend_debit : Label

-- An idempotency key as the caller gives it: `None`, a UUID, or anything else.
pub data RawKey : Type 0 where
  absent malformed : RawKey
  uuid : ℕ → RawKey
