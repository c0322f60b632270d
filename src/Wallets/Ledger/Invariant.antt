-- ===== src/Wallets/Ledger/Invariant.antt =====
-- The ledger's invariant over one wallet operation (`_execute`, wallets/services/wallet_service.py).
use leagueos_backend.Prelude.{
  ℕ, ◌<◌, ◌≡◌, refl, if◌then◌else◌, ◌∙◌, none, List, [], ◌∷◌, arith, ◌==◌, ok, find-All, All,
  All-map, Bool-cases, inl, inr,
}
use leagueos_backend.Wallets.Model.{Text, Wallet, LedgerEntry, Database}
use leagueos_backend.Wallets.Execute.{
  Call, perform, save_wallet, new_wallet, insert_wallet, get_locked_wallet, is_owned,
  get_existing_entry,
}
use leagueos_backend.Wallets.Execute.Posted.{IsPosted}
use leagueos_backend.Wallets.Execute.Wallets.{IsObtained, old, fresh, IsObtained-owner}
use leagueos_backend.Wallets.Execute.Replay.{
  Performed, replayed, posted, perform-Performed, existing-congr,
}
use leagueos_backend.Wallets.Ledger.{snapshot, IsLink, IsBalanced, IsConsistent}

snapshot-unknown :
    (n : ℕ) (es : List LedgerEntry) → All (λ e. e.wallet < n) es → snapshot n es ≡ (0, 0)
unfolding snapshot
snapshot-unknown n [] h = refl
snapshot-unknown n (e ∷ es) (p, h) = ground (arith, snapshot-unknown n es h)

module _ (user : ℕ) (currency : Text) (db : Database) (k : IsConsistent db) where
  IsBalanced-insert :
      (w : Wallet) → IsBalanced db w → IsBalanced (insert_wallet (new_wallet user currency db) db) w
  unfolding insert_wallet
  IsBalanced-insert w b = ground arith

  IsBalanced-new :
      IsBalanced (insert_wallet (new_wallet user currency db) db) (new_wallet user currency db)
  unfolding insert_wallet new_wallet
  IsBalanced-new = record {
    balances = snapshot-unknown db.next_id db.entries k.owned;
    available_fits = omega arith;
    reserved_fits = omega arith;
    known = omega arith;
  }

  -- A new wallet, with no money, keeps the ledger consistent.
  pub insert-IsConsistent : IsConsistent (insert_wallet (new_wallet user currency db) db)
  unfolding insert_wallet
  insert-IsConsistent = record {
    chained = k.chained;
    balanced = (IsBalanced-new, All-map IsBalanced-insert db.wallets k.balanced);
    owned = All-map (λ e h. omega arith) db.entries k.owned;
  }

module _ (c : Call) (db : Database) (k : IsConsistent db) where
  IsObtained-IsConsistent :
      {w : Wallet} {db₁ : Database} → IsObtained c db w db₁ → IsConsistent db₁ × IsBalanced db₁ w
  unfolding get_locked_wallet
  IsObtained-IsConsistent (old e q) =
      rw q (k, find-All (IsBalanced db) (is_owned c.user c.currency) db.wallets k.balanced e)
  IsObtained-IsConsistent (fresh e t n q) =
      rw (q, n) (insert-IsConsistent c.user c.currency db k, IsBalanced-new c.user c.currency db k)

-- The row and the database that `post` writes.
abbrev saved : Wallet → LedgerEntry → Wallet
saved w e = record w {
  available_balance = e.available_balance_after;
  reserved_balance = e.reserved_balance_after;
}

abbrev appended : Wallet → LedgerEntry → Database → Database
appended w e db = record db {
  wallets = save_wallet (saved w e) db.wallets;
  entries = e ∷ db.entries;
}

-- The entry of a call with a positive amount and a new reference prolongs the chain.
module _ (c : Call) (w : Wallet) (db : Database) (e : LedgerEntry) (db' : Database)
    (k : IsConsistent db) (b : IsBalanced db w) (p : IsPosted c w db e db') where
  posted-IsBalanced :
      (x : Wallet)
      → IsBalanced db x
      → IsBalanced (appended w e db) (if x.id == w.id then saved w e else x)
  unfolding snapshot
  posted-IsBalanced x h = elim (Bool-cases (x.id == w.id)) [
    | inl same ↦ rw same (ground arith)
    | inr other ↦ rw other (ground arith)
  ]

  save-IsBalanced :
      (ws : List Wallet)
      → All (IsBalanced db) ws
      → All (IsBalanced (appended w e db)) (save_wallet (saved w e) ws)
  unfolding save_wallet
  save-IsBalanced [] h = tt
  save-IsBalanced (x ∷ ws) (h, hs) = (posted-IsBalanced x h, save-IsBalanced ws hs)

  posted-IsLink : 0 < c.amount → get_existing_entry c.reference db ≡ none → IsLink e db.entries
  unfolding get_existing_entry
  posted-IsLink positive new = record {
    operation = c.operation;
    goes_on = rw (p.wallet, b.balances, p.available_before, p.reserved_before);
    matches = p.matches;
    positive = omega arith;
    new_reference = rw p.reference new;
  }

  posted-IsConsistent : 0 < c.amount → get_existing_entry c.reference db ≡ none → IsConsistent db'
  posted-IsConsistent positive new = rw p.database (record {
    chained = (posted-IsLink positive new, k.chained);
    balanced = save-IsBalanced db.wallets k.balanced;
    owned = (omega arith, k.owned);
  })

-- A successful wallet operation of a positive amount keeps the ledger consistent.
pub perform-IsConsistent :
    (c : Call) (db : Database) {e : LedgerEntry} {db' : Database}
    → IsConsistent db
    → 0 < c.amount
    → perform c db ≡ ok (e, db')
    → IsConsistent db'
perform-IsConsistent c db {e} {db'} k positive h = go (perform-Performed c db h)
  where
    go : Performed c db e db' → IsConsistent db'
    go (replayed was checked same) = rw same k
    go (posted w db₁ new o p) =
        let (k₁, b) = IsObtained-IsConsistent c db k o in
        let same = (IsObtained-owner c db o).2 in
        posted-IsConsistent c w db₁ e db' k₁ b p positive
          (existing-congr c.reference db db₁ same ∙ new)
