-- ===== src/Wallets/Deposits.antt =====
-- `create_deposit_intent` and `get_deposit_intent` of WalletService
-- (wallets/services/wallet_service.py). `process_deposit_callback` is a stub that does nothing.
pub mod Keeping
use leagueos_backend.Prelude.{
  ℕ, ◌+◌, ◌*◌, Bool, ◌&&◌, Option, none, some, ◌∷◌, ◌==◌, text_eq, find, Result, ok, err, ◌>>=◌,
  ◌>>◌, require, or_raise,
}
use leagueos_backend.Wallets.Model.{
  Text, User, PaymentProvider, DepositIntent, IntentStatus, Database, Error, reference_reused,
  invalid_provider, RawKey, absent, malformed, uuid, invalid_reference,
}
use leagueos_backend.Wallets.Normalize.{
  RawAmount, normalize_currency, normalize_amount, strip, upper,
}

unfoldable pub get_provider : Text → Database → Option PaymentProvider
get_provider code db = find (λ p. text_eq p.code code && p.is_active) db.providers

unfoldable pub get_intent_by_key : ℕ → Database → Option DepositIntent
get_intent_by_key key db = find (λ i. i.idempotency_key == key) db.deposit_intents

-- `DepositIntent.objects.create(...)`; the intent expires after two hours.
unfoldable pub create_intent :
    User → PaymentProvider → ℕ → Text → ℕ → ℕ → Database → DepositIntent × Database
create_intent user provider amount currency key now db =
    let intent : DepositIntent = record {
      id = db.next_id;
      user = user.id;
      provider = provider.id;
      amount = amount;
      currency = currency;
      status = IntentStatus.pending;
      idempotency_key = key;
      expires_at = now + 2 * 60 * 60;
    } in
    (intent, record db { deposit_intents = intent ∷ db.deposit_intents; next_id = db.next_id + 1 })

unfoldable pub intent_matches : DepositIntent → User → PaymentProvider → ℕ → Text → Bool
intent_matches i user provider amount currency =
    (i.user == user.id)
    && (i.provider == provider.id)
    && (i.amount == amount)
    && text_eq i.currency currency

-- With a key that has an intent, the intent if all of it agrees; else a new one.
unfoldable pub keyed_intent :
    User → PaymentProvider → ℕ → Text → ℕ → ℕ → Database → Result Error (DepositIntent × Database)
keyed_intent user provider amount currency key now db = elim (get_intent_by_key key db) [
  | some i ↦ require (intent_matches i user provider amount currency) reference_reused >> ok (i, db)
  | none ↦ ok (create_intent user provider amount currency key now db)
]

-- Without a key the model's default makes a new UUID.
unfoldable pub intent_for_key :
    User
    → PaymentProvider
    → ℕ
    → Text
    → RawKey
    → ℕ
    → Database
    → Result Error (DepositIntent × Database)
intent_for_key user provider amount currency absent now db = ok (
    create_intent user provider amount currency db.next_id now
      (record db { next_id = db.next_id + 1 }))
intent_for_key user provider amount currency malformed now db = err invalid_reference
intent_for_key user provider amount currency (uuid key) now db =
    keyed_intent user provider amount currency key now db

unfoldable pub create_deposit_intent :
    User → Text → RawAmount → Text → RawKey → ℕ → Database → Result Error (DepositIntent × Database)
create_deposit_intent user provider_code raw_amount raw_currency key now db = do
  provider ← or_raise (get_provider (upper (strip provider_code)) db) invalid_provider
  amount ← normalize_amount raw_amount
  currency ← normalize_currency raw_currency
  intent_for_key user provider amount currency key now db

unfoldable pub get_deposit_intent : User → ℕ → Database → Option DepositIntent
get_deposit_intent user id db = find (λ i. (i.id == id) && (i.user == user.id)) db.deposit_intents
