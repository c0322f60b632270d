-- ===== src/Wallets/Execute/Frame.antt =====
-- What a wallet operation leaves alone.
use leagueos_backend.Prelude.{
  ℕ, ◌≤◌, ◌≡◌, ◌≢◌, refl, ◌∙◌, sym, some, List, [], ◌∷◌, arith, ◌==◌, ok, find,
}
use leagueos_backend.Wallets.Model.{Wallet, LedgerEntry, Database}
use leagueos_backend.Wallets.Execute.{Call, perform, save_wallet, insert_wallet, get_wallet}
use leagueos_backend.Wallets.Execute.Wallets.{IsObtained, old, fresh}
use leagueos_backend.Wallets.Execute.Replay.{Performed, replayed, posted, perform-Performed}

-- The tables that no wallet operation writes; keys may be used up.
pub record IsFrame (db db' : Database) : Type 0 where
  pub transactions : db'.transactions ≡ db.transactions
  pub withdrawals : db'.withdrawals ≡ db.withdrawals
  pub audit : db'.audit ≡ db.audit
  pub providers : db'.providers ≡ db.providers
  pub deposit_intents : db'.deposit_intents ≡ db.deposit_intents
  pub keys : db.next_id ≤ db'.next_id

IsObtained-IsFrame :
    (c : Call) (db : Database) {w : Wallet} {db₁ : Database}
    → IsObtained c db w db₁
    → IsFrame db db₁
unfolding insert_wallet
IsObtained-IsFrame c db (old e q) = ground arith
IsObtained-IsFrame c db (fresh e t n q) = ground arith

pub perform-IsFrame :
    (c : Call) (db : Database) {e : LedgerEntry} {db' : Database}
    → perform c db ≡ ok (e, db')
    → IsFrame db db'
perform-IsFrame c db {e} {db'} h = go (perform-Performed c db h)
  where
    go : Performed c db e db' → IsFrame db db'
    go (replayed was checked same) = ground arith
    go (posted w db₁ new o p) = ground (arith, IsObtained-IsFrame c db o, p.database)

find-save_ne :
    (id : ℕ) (w : Wallet) (ws : List Wallet)
    → w.id ≢ id
    → find (λ x. x.id == id) (save_wallet w ws) ≡ find (λ x. x.id == id) ws
unfolding find save_wallet
find-save_ne id w [] h = refl
find-save_ne id w (x ∷ ws) h = ground (arith, find-save_ne id w ws h)

IsObtained-others :
    (c : Call) (db : Database) (id : ℕ) {w : Wallet} {db₁ : Database}
    → IsObtained c db w db₁
    → w.id ≢ id
    → get_wallet id db₁ ≡ get_wallet id db
unfolding get_wallet insert_wallet find
IsObtained-others c db id (old e q) ne = ground arith
IsObtained-others c db id (fresh e t n q) ne = ground arith

-- A wallet operation that succeeds leaves every wallet but that of its entry as it was.
pub perform-others :
    (c : Call) (db : Database) {e : LedgerEntry} {db' : Database} (id : ℕ) {x : Wallet}
    → perform c db ≡ ok (e, db')
    → id ≢ e.wallet
    → get_wallet id db ≡ some x
    → get_wallet id db' ≡ some x
unfolding get_wallet
perform-others c db {e} {db'} id {x} h ne was = go (perform-Performed c db h)
  where
    go : Performed c db e db' → get_wallet id db' ≡ some x
    go (replayed r checked same) = rw same was
    go (posted w db₁ new o p) = rw p.database (
        find-save_ne id _ db₁.wallets (λ q. ne (sym q ∙ sym p.wallet))
        ∙ IsObtained-others c db id o (λ q. ne (sym q ∙ sym p.wallet))
        ∙ was)
