-- ===== src/Wallets/Execute/Reuse.antt =====
-- Two successful calls under one reference (`_execute`, wallets/services/wallet_service.py).
use leagueos_backend.Prelude.{
  ◌≡◌, true, none, some, arith, ok, >>=-eq-ok, ◌∙◌, sym, Option-cases, inl, inr,
}
use leagueos_backend.Wallets.Model.{LedgerEntry, Database, Wallet}
use leagueos_backend.Wallets.Transition.{entry_matches_operation}
use leagueos_backend.Wallets.Execute.{
  Call, perform, get_existing_entry, require_matching_replay, replay_matches, get_wallet,
}
use leagueos_backend.Wallets.Execute.Replay.{
  Performed, replayed, posted, perform-Performed, perform-replay, posted-exists, replay_or-old,
}

-- A success leaves its entry under its reference.
perform-exists :
    (c : Call) (db : Database) {e : LedgerEntry} {db' : Database}
    → Performed c db e db'
    → get_existing_entry c.reference db' ≡ some e
perform-exists c db (replayed was checked same) = rw same was
perform-exists c db (posted w db₁ new o p) = posted-exists c db p

-- A replay agrees with its entry in the amount, in the direction and in the wallet's owner.
replay-agrees :
    (e : LedgerEntry) (c : Call) (db : Database) (w : Wallet)
    → get_wallet e.wallet db ≡ some w
    → require_matching_replay e c db ≡ ok tt
    → (w.user ≡ c.user) × (e.amount ≡ c.amount) × (entry_matches_operation e c.operation ≡ true)
unfolding require_matching_replay replay_matches
replay-agrees e c db w row h = ground arith

no-wallet-no-replay :
    (e : LedgerEntry) (c : Call) (db : Database)
    → get_wallet e.wallet db ≡ none
    → ¬ (require_matching_replay e c db ≡ ok tt)
unfolding require_matching_replay
no-wallet-no-replay e c db row h = ground arith

-- A success under a used reference is a replay.
perform-old :
    (c : Call) (db : Database) {x e : LedgerEntry} {db' : Database}
    → get_existing_entry c.reference db ≡ some x
    → perform c db ≡ ok (e, db')
    → (require_matching_replay x c db ≡ ok tt) × (e ≡ x) × (db' ≡ db)
unfolding perform
perform-old c db {x} was h =
    let (t, checked, rest) =
      >>=-eq-ok (require_matching_replay x c db) _ (sym (replay_or-old c db _ x was) ∙ h) in
    ground arith

-- A replay's entry has a wallet, and the call agrees with it.
replay-owner :
    (e : LedgerEntry) (c c' : Call) (db : Database)
    → require_matching_replay e c db ≡ ok tt
    → require_matching_replay e c' db ≡ ok tt
    → (c'.user ≡ c.user) × (c'.amount ≡ c.amount) × (entry_matches_operation e c'.operation ≡ true)
replay-owner e c c' db h h' = elim (Option-cases (get_wallet e.wallet db)) [
  | inl lost ↦ absurd (no-wallet-no-replay e c db lost h)
  | inr (w, row) ↦ ground (arith, replay-agrees e c db w row h, replay-agrees e c' db w row h')
]

-- A call that succeeds under a reference already used by a successful call returns that call's
-- entry, leaves the database as it was, and has its user, its amount and an operation that the
-- entry's balances bear out.
pub perform-reuse :
    (c c' : Call) (db : Database) {e e' : LedgerEntry} {db' db'' : Database}
    → c'.reference ≡ c.reference
    → perform c db ≡ ok (e, db')
    → perform c' db' ≡ ok (e', db'')
    → (e' ≡ e)
      × (db'' ≡ db')
      × (c'.user ≡ c.user)
      × (c'.amount ≡ c.amount)
      × (entry_matches_operation e c'.operation ≡ true)
perform-reuse c c' db {e} {e'} {db'} {db''} r h h' =
    let was : get_existing_entry c'.reference db' ≡ some e =
      rw r (perform-exists c db (perform-Performed c db h)) in
    let (t, q, q₁) = perform-old c' db' was h' in
    let (s, q', q₂) =
      perform-old c db' (perform-exists c db (perform-Performed c db h)) (perform-replay c db h) in
    ground (arith, replay-owner e c c' db' s t)
