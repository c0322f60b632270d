-- ===== src/Wallets/Requests/Consistency.antt =====
-- The ledger's invariant over withdrawal requests and purchases (wallets/services/wallet_service.py).
use leagueos_backend.Prelude.{
  ℕ, ◌≡◌, refl, sym, subst, arith, ok, >>=-eq-ok, Option, inl, inr, or_raise,
}
use leagueos_backend.Wallets.Model.{
  Text, Wallet, WithdrawalRequest, WalletTransaction, User, Database, Label, RawKey, invalid_key,
}
use leagueos_backend.Wallets.Normalize.{RawAmount}
use leagueos_backend.Wallets.Ledger.{IsConsistent}
use leagueos_backend.Wallets.Service.{reserve, debit_available}
use leagueos_backend.Wallets.Service.Laws.{execute-IsConsistent}
use leagueos_backend.Wallets.Rows.{audit, request_key}
use leagueos_backend.Wallets.Risk.{Settings}
use leagueos_backend.Wallets.Requests.{
  insert_withdrawal, audit_request, open_withdrawal, open_spend, create_withdrawal_request,
  spend_available_balance,
}
use leagueos_backend.Wallets.Requests.Cases.{
  create_withdrawal_request_cases, spend_available_balance_cases,
}
use leagueos_backend.Wallets.Withdrawals.Consistency.{IsConsistent-congr}

request_key-IsConsistent :
    (k : RawKey) (db : Database) {key : ℕ} {db' : Database}
    → IsConsistent db
    → or_raise (request_key k db) invalid_key ≡ ok (key, db')
    → IsConsistent db'
unfolding request_key
request_key-IsConsistent k db {key} {db'} c h = IsConsistent-congr db db' (ground arith) c

module _ (uuid5 : ℕ → Label → ℕ) where
  open_withdrawal-IsConsistent :
      (s : Settings) (user : User) (wallet : Wallet) (key amount : ℕ) (currency destination : Text)
      (now : ℕ) (db : Database) {w : WithdrawalRequest} {db' : Database}
      → IsConsistent db
      → open_withdrawal uuid5 s user wallet key amount currency destination now db ≡ ok (w, db')
      → IsConsistent db'
  unfolding open_withdrawal reserve audit_request audit insert_withdrawal
  open_withdrawal-IsConsistent s user wallet key amount currency destination now db {w} {db'} k h =
      let ((e, d), h₁, h₂) = >>=-eq-ok (reserve _ _) _ h in
      IsConsistent-congr d db' (ground arith) (
        execute-IsConsistent _ _ _ _
          (IsConsistent-congr db _ (record { wallets = refl; entries = refl; keys = omega arith })
            k)
          h₁)

  open_spend-IsConsistent :
      (user : User) (wallet : Wallet) (key amount : ℕ) (currency description : Text) (now : ℕ)
      (db : Database) {t : WalletTransaction} {db' : Database}
      → IsConsistent db
      → open_spend uuid5 user wallet key amount currency description now db ≡ ok (t, db')
      → IsConsistent db'
  unfolding open_spend debit_available
  open_spend-IsConsistent user wallet key amount currency description now db {t} {db'} k h =
      let ((e, d), h₁, h₂) = >>=-eq-ok (debit_available _ _) _ h in
      IsConsistent-congr d db' (ground arith) (
        execute-IsConsistent _ _ _ _
          (IsConsistent-congr db _ (record { wallets = refl; entries = refl; keys = omega arith })
            k)
          h₁)

  pub create_withdrawal_request-IsConsistent :
      (s : Settings) (user : User) (raw_amount : RawAmount) (raw_currency : Text)
      (destination : Option Text) (raw_key : RawKey) (now : ℕ) (db : Database)
      {w : WithdrawalRequest} {db' : Database}
      → IsConsistent db
      → create_withdrawal_request uuid5 s user raw_amount raw_currency destination raw_key now db
        ≡ ok (w, db')
      → IsConsistent db'
  create_withdrawal_request-IsConsistent s user raw_amount raw_currency destination raw_key now db k
        h =
      let (d, key, given, cases) =
        create_withdrawal_request_cases uuid5 user raw_amount raw_currency raw_key now db s
          destination h in
      let k' = request_key-IsConsistent raw_key db k given in
      elim cases [
        | inl found ↦ subst IsConsistent (sym found) k'
        | inr (o, made) ↦
            open_withdrawal-IsConsistent s user o.wallet o.key o.amount o.currency o.text now d k'
              made
      ]

  pub spend_available_balance-IsConsistent :
      (user : User) (raw_amount : RawAmount) (raw_currency description : Text) (raw_key : RawKey)
      (now : ℕ) (db : Database) {t : WalletTransaction} {db' : Database}
      → IsConsistent db
      → spend_available_balance uuid5 user raw_amount raw_currency description raw_key now db
        ≡ ok (t, db')
      → IsConsistent db'
  spend_available_balance-IsConsistent user raw_amount raw_currency description raw_key now db k h =
      let (d, key, given, cases) =
        spend_available_balance_cases uuid5 user raw_amount raw_currency raw_key now db description
          h in
      let k' = request_key-IsConsistent raw_key db k given in
      elim cases [
        | inl found ↦ subst IsConsistent (sym found) k'
        | inr (o, made) ↦
            open_spend-IsConsistent user o.wallet o.key o.amount o.currency o.text now d k' made
      ]
