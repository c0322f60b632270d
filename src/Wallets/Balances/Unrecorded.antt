-- ===== src/Wallets/Balances/Unrecorded.antt =====
-- The balances that move without a ledger entry (wallets/services/wallet_service.py).
use leagueos_backend.Prelude.{
  ℕ, ◌+◌, ◌-◌, ◌<◌, ◌≤◌, ◌==◌, ◌∙◌, ◌≡◌, refl, sym, ap, arith, some, Option-cases, inl, inr, ltb,
  ok, >>=-eq-ok, ok-injective, or_raise, raise_if, find-All, find, find-holds, ==_sound, subst, ◌≢◌,
}
use leagueos_backend.Prelude.Int.{ℤ}
use leagueos_backend.Wallets.Model.{Text, Wallet, Database, no_wallet, insufficient_available}
use leagueos_backend.Wallets.Normalize.{upper}
use leagueos_backend.Wallets.Execute.{get_wallet, get_locked_wallet, save_wallet, clean_wallet}
use leagueos_backend.Wallets.Execute.Wallets.{find-save_wallet}
use leagueos_backend.Wallets.Ledger.{snapshot, IsBalanced, IsConsistent}
use leagueos_backend.Wallets.Ledger.Invariant.{insert-IsConsistent}
use leagueos_backend.Wallets.Balances.{
  get_or_create_wallet, require_positive, save_balances, reserve_funds,
}

-- Finding or making a wallet keeps a consistent ledger consistent.
pub get_or_create_wallet-IsConsistent :
    (user : ℕ) (currency : Text) (db : Database)
    → IsConsistent db
    → IsConsistent (get_or_create_wallet user currency db).1
unfolding get_or_create_wallet
get_or_create_wallet-IsConsistent user currency db k =
    elim (Option-cases (get_locked_wallet user (upper currency) db)) [
      | inl new ↦ rw (new, get_or_create_wallet) (insert-IsConsistent user (upper currency) db k)
      | inr (w, old) ↦ rw (old, get_or_create_wallet) k
    ]

-- What a successful `reserve_funds` has saved.
record IsReserved (wallet : ℕ) (raw : ℤ) (db db' : Database) : Type 0 where
  row : Wallet
  amount : ℕ
  found : get_wallet wallet db ≡ some row
  positive : 0 < amount
  within : amount ≤ row.available_balance
  saved : db' ≡ record db {
    wallets =
        save_wallet
          (record row {
            available_balance = row.available_balance - amount;
            reserved_balance = row.reserved_balance + amount;
          })
          db.wallets;
  }

reserve_funds-IsReserved :
    (wallet : ℕ) (raw : ℤ) (db : Database) {db' : Database}
    → reserve_funds wallet raw db ≡ ok db'
    → IsReserved wallet raw db db'
unfolding reserve_funds save_balances require_positive
reserve_funds-IsReserved wallet raw db h =
    let (n, p, h₁) = >>=-eq-ok (require_positive raw) _ h in
    let (w, read, h₂) = >>=-eq-ok (or_raise (get_wallet wallet db) no_wallet) _ h₁ in
    let (u, q, h₃) = >>=-eq-ok (raise_if (ltb w.available_balance n) insufficient_available) _ h₂ in
    let (v, clean, h₄) = >>=-eq-ok (clean_wallet _) _ h₃ in
    record {
      row = w;
      amount = n;
      found = ground (arith, read);
      positive = ground (arith, p);
      within = ground (arith, q);
      saved = sym (ok-injective h₄);
    }

-- `reserve_funds` writes no ledger entry: wherever it succeeds on a consistent ledger, the entries are
-- the same as before, the wallet's row no longer carries the balances that its newest entry left, and
-- so the ledger is not consistent any more.
pub reserve_funds-unrecorded :
    (wallet : ℕ) (raw : ℤ) (db db' : Database)
    → IsConsistent db
    → reserve_funds wallet raw db ≡ ok db'
    → (db'.entries ≡ db.entries)
      × (w : Wallet) × (get_wallet wallet db' ≡ some w)
      × (snapshot w.id db'.entries ≢ (w.available_balance, w.reserved_balance))
      × (¬ IsConsistent db')
unfolding get_wallet
reserve_funds-unrecorded wallet raw db db' k h =
    let d = reserve_funds-IsReserved wallet raw db h in
    let w' : Wallet = record d.row {
      available_balance = d.row.available_balance - d.amount;
      reserved_balance = d.row.reserved_balance + d.amount;
    } in
    let before = find-All (IsBalanced db) (λ w. w.id == wallet) db.wallets k.balanced d.found in
    let id = ==_sound d.row.id wallet (find-holds _ db.wallets d.row d.found) in
    let rows = find-save_wallet (λ w. w.id == wallet) d.row w' db.wallets d.found refl in
    let entries = ap (λ (y : Database). y.entries) d.saved in
    let now = ap (λ (y : Database). find (λ w. w.id == d.row.id) y.wallets) d.saved ∙ rows in
    let differs : snapshot d.row.id db'.entries ≢ (w'.available_balance, w'.reserved_balance) = λ q.
      let same = sym before.balances ∙ sym (ap (snapshot d.row.id) entries) ∙ q in
      let reserved : d.row.reserved_balance ≡ d.row.reserved_balance + d.amount =
        ap (λ (r : ℕ × ℕ). r.1) same in
      let positive = d.positive in absurd (omega arith) in
    (
      entries,
      w',
      subst (λ i. get_wallet i db' ≡ some w') id now,
      differs,
      λ k'.
          differs
            (find-All (IsBalanced db') (λ w. w.id == d.row.id) db'.wallets k'.balanced
              now).balances,
    )
