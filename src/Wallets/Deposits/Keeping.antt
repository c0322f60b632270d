-- ===== src/Wallets/Deposits/Keeping.antt =====
-- What a deposit intent and a new wallet leave as it was (wallets/services/wallet_service.py).
use leagueos_backend.Prelude.{ℕ, ◌≤◌, ◌≡◌, arith, ok, >>=-eq-ok, or_raise}
use leagueos_backend.Wallets.Model.{
  Text, User, PaymentProvider, DepositIntent, Database, RawKey, absent, malformed, uuid,
}
use leagueos_backend.Wallets.Normalize.{
  RawAmount, normalize_amount, normalize_currency, strip, upper,
}
use leagueos_backend.Wallets.Execute.{insert_wallet}
use leagueos_backend.Wallets.Balances.{get_or_create_wallet}
use leagueos_backend.Wallets.Deposits.{
  get_provider, create_intent, keyed_intent, intent_for_key, create_deposit_intent,
}

-- The tables of the money are as before, and no key is used again.
pub record IsKept (db db' : Database) : Type 0 where
  pub wallets : db'.wallets ≡ db.wallets
  pub entries : db'.entries ≡ db.entries
  pub withdrawals : db'.withdrawals ≡ db.withdrawals
  pub keys : db.next_id ≤ db'.next_id

keyed_intent-IsKept :
    (user : User) (provider : PaymentProvider) (amount : ℕ) (currency : Text) (key now : ℕ)
    (db : Database) {i : DepositIntent} {db' : Database}
    → keyed_intent user provider amount currency key now db ≡ ok (i, db')
    → IsKept db db'
unfolding keyed_intent create_intent
keyed_intent-IsKept user provider amount currency key now db {i} {db'} h = ground arith

intent_for_key-IsKept :
    (user : User) (provider : PaymentProvider) (amount : ℕ) (currency : Text) (key : RawKey)
    (now : ℕ) (db : Database) {i : DepositIntent} {db' : Database}
    → intent_for_key user provider amount currency key now db ≡ ok (i, db')
    → IsKept db db'
unfolding intent_for_key create_intent
intent_for_key-IsKept user provider amount currency absent now db h = ground arith
intent_for_key-IsKept user provider amount currency malformed now db h = absurd (cc)
intent_for_key-IsKept user provider amount currency (uuid key) now db h =
    keyed_intent-IsKept user provider amount currency key now db h

pub create_deposit_intent-IsKept :
    (user : User) (code : Text) (raw_amount : RawAmount) (raw_currency : Text) (key : RawKey)
    (now : ℕ) (db : Database) {i : DepositIntent} {db' : Database}
    → create_deposit_intent user code raw_amount raw_currency key now db ≡ ok (i, db')
    → IsKept db db'
unfolding create_deposit_intent
create_deposit_intent-IsKept user code raw_amount raw_currency key now db h =
    let (p, _, h₁) = >>=-eq-ok (or_raise (get_provider (upper (strip code)) db) _) _ h in
    let (n, _, h₂) = >>=-eq-ok (normalize_amount raw_amount) _ h₁ in
    let (c, _, h₃) = >>=-eq-ok (normalize_currency raw_currency) _ h₂ in
    intent_for_key-IsKept user p n c key now db h₃

pub get_or_create_wallet-kept :
    (user : ℕ) (currency : Text) (db : Database)
    → ((get_or_create_wallet user currency db).1.withdrawals ≡ db.withdrawals)
      × (db.next_id ≤ (get_or_create_wallet user currency db).1.next_id)
unfolding get_or_create_wallet insert_wallet
get_or_create_wallet-kept user currency db = ground arith
