-- ===== src/Wallets/Execute/Wallets.antt =====
-- Finding and saving wallet rows.
use leagueos_backend.Prelude.{
  ℕ, ◌≡◌, Bool, true, some, List, [], ◌∷◌, arith, ◌==◌, find, ==_refl, Bool-cases, inl, inr, ok,
  text_eq, text_eq_refl, find-holds, find-head, ap, ◌∙◌, none, &&-eq-true, Option-cases,
}
use leagueos_backend.Wallets.Model.{Text, Wallet, Database}
use leagueos_backend.Wallets.Execute.{
  Call, save_wallet, obtain_wallet, new_wallet, is_owned, insert_wallet, get_locked_wallet,
}

-- A saved row is found by its key.
pub find-save_wallet :
    (p : Wallet → Bool) (w w' : Wallet) (ws : List Wallet)
    → find p ws ≡ some w
    → w'.id ≡ w.id
    → find (λ x. x.id == w.id) (save_wallet w' ws) ≡ some w'
unfolding find save_wallet
find-save_wallet p w w' [] h q = absurd (cc)
find-save_wallet p w w' (x ∷ ws) h q = ground (arith, find-save_wallet p w w' ws)

-- The wallet of a call is an old row, or a new one at the head of the table.
pub data IsObtained (c : Call) (db : Database) (w : Wallet) (db' : Database) : Type 0 where
  old : get_locked_wallet c.user c.currency db ≡ some w → db' ≡ db → IsObtained c db w db'
  fresh :
      get_locked_wallet c.user c.currency db ≡ none
      → c.create_wallet ≡ true
      → w ≡ new_wallet c.user c.currency db
      → db' ≡ insert_wallet w db
      → IsObtained c db w db'

pub obtain_wallet-IsObtained :
    (c : Call) (db : Database) {w : Wallet} {db' : Database}
    → obtain_wallet c db ≡ ok (w, db')
    → IsObtained c db w db'
unfolding obtain_wallet
obtain_wallet-IsObtained c db {w} h = elim (Option-cases (get_locked_wallet c.user c.currency db)) [
  | inl e ↦ elim (Bool-cases c.create_wallet) [
    | inl t ↦ fresh e t (ground arith) (ground arith)
    | inr f ↦ absurd (ground arith)
  ]
  | inr (x, e) ↦ old (ground arith) (ground arith)
]

pub get_locked_wallet-holds :
    (user : ℕ) (currency : Text) (db : Database) {w : Wallet}
    → get_locked_wallet user currency db ≡ some w
    → ((w.user == user) ≡ true) × (text_eq w.currency currency ≡ true)
unfolding get_locked_wallet
get_locked_wallet-holds user currency db {w} h = &&-eq-true _ _ (find-holds _ db.wallets w h)

module _ (c : Call) (db : Database) {w : Wallet} {db' : Database} where
  -- The obtained wallet is the user's, in the call's currency, and no entry is written.
  pub IsObtained-owner :
      IsObtained c db w db'
      → ((w.user == c.user) ≡ true)
        × (text_eq w.currency c.currency ≡ true)
        × (db'.entries ≡ db.entries)
  unfolding new_wallet insert_wallet
  IsObtained-owner (old e q) =
      let (u, t) = get_locked_wallet-holds c.user c.currency db e in
      (u, t, ap (λ (d : Database). d.entries) q)
  IsObtained-owner (fresh e t n q) = ground (arith, text_eq_refl c.currency)

  -- After it is saved, it is found by its key.
  pub IsObtained-saved :
      (w' : Wallet)
      → w'.id ≡ w.id
      → IsObtained c db w db'
      → find (λ x. x.id == w.id) (save_wallet w' db'.wallets) ≡ some w'
  unfolding get_locked_wallet insert_wallet
  IsObtained-saved w' q (old e same) =
      find-save_wallet (is_owned c.user c.currency) w w' db'.wallets
        (ap (λ (d : Database). find (is_owned c.user c.currency) d.wallets) same ∙ e) q
  IsObtained-saved w' q (fresh e t n same) =
      find-save_wallet (λ x. x.id == w.id) w w' db'.wallets
        (ap (λ (d : Database). find (λ x. x.id == w.id) d.wallets) same
          ∙ find-head _ w db.wallets (==_refl w.id))
        q
