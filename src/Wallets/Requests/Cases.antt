-- ===== src/Wallets/Requests/Cases.antt =====
-- What a successful withdrawal request or purchase has done: found the rows of an earlier call, or
-- made new ones.
use leagueos_backend.Prelude.{ℕ, ◌≡◌, ◌⊎◌, arith, Option, ok, >>=-eq-ok, or_raise, require}
use leagueos_backend.Wallets.Model.{
  Text, Wallet, WithdrawalRequest, WalletTransaction, User, Database, Label, RawKey, invalid_key,
  no_wallet, inactive_user, no_destination, unverified_user,
}
use leagueos_backend.Wallets.Normalize.{RawAmount, normalize_currency, normalize_amount}
use leagueos_backend.Wallets.Execute.{get_locked_wallet}
use leagueos_backend.Wallets.Rows.{request_key}
use leagueos_backend.Wallets.Risk.{Settings}
use leagueos_backend.Wallets.Requests.{
  open_withdrawal, create_withdrawal_request, open_spend, spend_available_balance,
}

-- The arguments of the call that made the rows.
pub record Opened : Type 0 where
  pub wallet : Wallet
  pub key : ℕ
  pub amount : ℕ
  pub currency : Text
  pub text : Text

module _ (uuid5 : ℕ → Label → ℕ) (user : User) (raw_amount : RawAmount) (raw_currency : Text)
    (raw_key : RawKey) (now : ℕ) (db : Database) {db' : Database} where
  pub create_withdrawal_request_cases :
      (s : Settings) (destination : Option Text) {w : WithdrawalRequest}
      → create_withdrawal_request uuid5 s user raw_amount raw_currency destination raw_key now db
        ≡ ok (w, db')
      → (d : Database) × (key : ℕ) × (or_raise (request_key raw_key db) invalid_key ≡ ok (key, d))
        × ((db' ≡ d)
            ⊎ ((o : Opened) × (open_withdrawal uuid5 s user o.wallet o.key o.amount o.currency
                    o.text now d
                  ≡ ok (w, db'))))
  unfolding create_withdrawal_request
  create_withdrawal_request_cases s destination {w} h =
      let (u₁, g₁, g₂) = >>=-eq-ok (require user.is_active inactive_user) _ h in
      let (u₂, g₃, g₄) = >>=-eq-ok (require user.is_verified unverified_user) _ g₂ in
      let (currency, h₁, h₂) = >>=-eq-ok (normalize_currency raw_currency) _ g₄ in
      let (amount, h₃, h₄) = >>=-eq-ok (normalize_amount raw_amount) _ h₂ in
      let (target, h₅, h₆) = >>=-eq-ok (or_raise destination no_destination) _ h₄ in
      let ((key, d), h₇, h₈) = >>=-eq-ok (or_raise (request_key raw_key db) invalid_key) _ h₆ in
      let (wallet, h₉, h₁₀) =
        >>=-eq-ok (or_raise (get_locked_wallet user.id currency d) no_wallet) _ h₈ in
      let o : Opened = record {
        wallet = wallet;
        key = key;
        amount = amount;
        currency = currency;
        text = target;
      } in
      let opened : open_withdrawal uuid5 s user wallet key amount currency target now d
            ≡ ok (w, db')
          → (o : Opened) × (open_withdrawal uuid5 s user o.wallet o.key o.amount o.currency o.text
                now d
              ≡ ok (w, db')) =
        λ q. (o, q) in
      (d, key, h₇, ground (arith, opened))

  pub spend_available_balance_cases :
      (description : Text) {t : WalletTransaction}
      → spend_available_balance uuid5 user raw_amount raw_currency description raw_key now db
        ≡ ok (t, db')
      → (d : Database) × (key : ℕ) × (or_raise (request_key raw_key db) invalid_key ≡ ok (key, d))
        × ((db' ≡ d)
            ⊎ ((o : Opened) × (open_spend uuid5 user o.wallet o.key o.amount o.currency o.text now d
                  ≡ ok (t, db'))))
  unfolding spend_available_balance
  spend_available_balance_cases description {t} h =
      let (u₁, g₁, g₂) = >>=-eq-ok (require user.is_active inactive_user) _ h in
      let (currency, h₁, h₂) = >>=-eq-ok (normalize_currency raw_currency) _ g₂ in
      let (amount, h₃, h₄) = >>=-eq-ok (normalize_amount raw_amount) _ h₂ in
      let ((key, d), h₇, h₈) = >>=-eq-ok (or_raise (request_key raw_key db) invalid_key) _ h₄ in
      let (wallet, h₉, h₁₀) =
        >>=-eq-ok (or_raise (get_locked_wallet user.id currency d) no_wallet) _ h₈ in
      let o : Opened = record {
        wallet = wallet;
        key = key;
        amount = amount;
        currency = currency;
        text = description;
      } in
      let opened : open_spend uuid5 user wallet key amount currency description now d ≡ ok (t, db')
          → (o : Opened) × (open_spend uuid5 user o.wallet o.key o.amount o.currency o.text now d
              ≡ ok (t, db')) =
        λ q. (o, q) in
      (d, key, h₇, ground (arith, opened))
