-- ===== src/Wallets/Execute/Replay.antt =====
-- Idempotency of the wallet operations: how a successful call ended, and what a repeated call does.
use leagueos_backend.Prelude.{
  ℕ, ◌≡◌, refl, ap, ◌∙◌, true, none, some, arith, ok, Result, sym, subst, ◌>>=◌, ◌>>◌, ◌==◌, find,
  find-head, ==_refl, Option-cases, inl, inr, option_eq_refl, >>=-eq-ok,
}
use leagueos_backend.Wallets.Model.{
  Error, Wallet, LedgerEntry, Database, AccountType, LedgerContext, user_wallet, provider_payable,
  revenue,
}
use leagueos_backend.Wallets.Transition.{account_eq}
use leagueos_backend.Wallets.Execute.{
  Call, perform, after_lock, replay_or, get_existing_entry, require_matching_replay, replay_matches,
  get_wallet, obtain_wallet, post, same_context,
}
use leagueos_backend.Wallets.Execute.Posted.{IsPosted, post-IsPosted}
use leagueos_backend.Wallets.Execute.Wallets.{
  IsObtained, IsObtained-owner, IsObtained-saved, obtain_wallet-IsObtained,
}

-- A successful call has replayed an entry, or has posted one under a new reference.
pub data Performed (c : Call) (db : Database) (e : LedgerEntry) (db' : Database) : Type 0 where
  replayed :
      get_existing_entry c.reference db ≡ some e
      → require_matching_replay e c db ≡ ok tt
      → db' ≡ db
      → Performed c db e db'
  posted :
      (w : Wallet) (db₁ : Database)
      → get_existing_entry c.reference db ≡ none
      → IsObtained c db w db₁
      → IsPosted c w db₁ e db'
      → Performed c db e db'

account_eq_refl : (a : AccountType) → account_eq a a ≡ true
unfolding account_eq
account_eq_refl user_wallet = refl
account_eq_refl provider_payable = refl
account_eq_refl revenue = refl

same_context_refl : (k : LedgerContext) → same_context k k ≡ true
unfolding same_context
same_context_refl k = rw (option_eq_refl, option_eq_refl, option_eq_refl, option_eq_refl)

-- The reading of the entries alone decides whether a call is a replay.
pub existing-congr :
    (r : ℕ) (d d' : Database)
    → d'.entries ≡ d.entries
    → get_existing_entry r d' ≡ get_existing_entry r d
unfolding get_existing_entry
existing-congr r d d' h = ap (find (λ e. e.idempotency_reference == r)) h

pub replay_or-new :
    (c : Call) (db : Database) (next : Result Error (LedgerEntry × Database))
    → get_existing_entry c.reference db ≡ none
    → replay_or c db next ≡ next
unfolding replay_or
replay_or-new c db next h = ground arith

pub replay_or-old :
    (c : Call) (db : Database) (next : Result Error (LedgerEntry × Database)) (x : LedgerEntry)
    → get_existing_entry c.reference db ≡ some x
    → replay_or c db next ≡ (require_matching_replay x c db >> ok (x, db))
unfolding replay_or
replay_or-old c db next x h = ground arith

pub perform-new :
    (c : Call) (db : Database)
    → get_existing_entry c.reference db ≡ none
    → perform c db
      ≡ (obtain_wallet c db >>= λ (wd : Wallet × Database). replay_or c wd.1 (post c wd.0 wd.1))
unfolding perform after_lock
perform-new c db h = replay_or-new c db _ h ∙ replay_or-new c db _ h

pub perform-Performed :
    (c : Call) (db : Database) {e : LedgerEntry} {db' : Database}
    → perform c db ≡ ok (e, db')
    → Performed c db e db'
unfolding perform
perform-Performed c db {e} {db'} h = elim (Option-cases (get_existing_entry c.reference db)) [
  | inl new ↦
      let ((w, db₁), got, rest) =
        >>=-eq-ok (obtain_wallet c db) _ (sym (perform-new c db new) ∙ h) in
      let obtained = obtain_wallet-IsObtained c db got in
      let same = (IsObtained-owner c db obtained).2 in
      posted w db₁ new obtained (
        post-IsPosted c w db₁
          (sym (replay_or-new c db₁ _ (existing-congr c.reference db db₁ same ∙ new)) ∙ rest))
  | inr (x, old) ↦
      let (t, checked, rest) =
        >>=-eq-ok (require_matching_replay x c db) _ (sym (replay_or-old c db _ x old) ∙ h) in
      replayed (old ∙ ap some (ground arith)) (ground arith) (ground arith)
]

-- The wallet of an entry that was just posted.
pub posted-row :
    (c : Call) (db : Database) {w : Wallet} {db₁ : Database} {e : LedgerEntry} {db' : Database}
    → IsObtained c db w db₁
    → IsPosted c w db₁ e db'
    → get_wallet e.wallet db'
      ≡ some (record w {
        available_balance = e.available_balance_after;
        reserved_balance = e.reserved_balance_after;
      })
unfolding get_wallet
posted-row c db {w} {db₁} {e} {db'} o p = rw (p.database, p.wallet) (IsObtained-saved c db _ refl o)

-- An entry that was just posted passes the replay test.
pub posted-matches :
    (c : Call) (db : Database) {w : Wallet} {db₁ : Database} {e : LedgerEntry} {db' : Database}
    → IsObtained c db w db₁
    → IsPosted c w db₁ e db'
    → require_matching_replay e c db' ≡ ok tt
unfolding require_matching_replay replay_matches
posted-matches c db {w} {db₁} {e} {db'} o p =
    let (user, currency, same) = IsObtained-owner c db o in
    let context : same_context e.context c.context ≡ true =
      subst (λ k. same_context k c.context ≡ true) (sym p.context) (same_context_refl c.context) in
    rw (p.account, posted-row c db o p)
      (ground (arith, user, currency, context, account_eq_refl e.credit_account))

pub posted-exists :
    (c : Call) (db : Database) {w : Wallet} {db₁ : Database} {e : LedgerEntry} {db' : Database}
    → IsPosted c w db₁ e db'
    → get_existing_entry c.reference db' ≡ some e
unfolding get_existing_entry
posted-exists c db {e = e} p =
    rw p.database (find-head _ e _ (rw p.reference (==_refl c.reference)))

-- A successful call that is made again, with the same arguments, returns the same entry and
-- changes nothing.
pub perform-replay :
    (c : Call) (db : Database) {e : LedgerEntry} {db' : Database}
    → perform c db ≡ ok (e, db')
    → perform c db' ≡ ok (e, db')
unfolding perform
perform-replay c db {e} {db'} h = go (perform-Performed c db h)
  where
    go : Performed c db e db' → perform c db' ≡ ok (e, db')
    go (replayed old checked same) = rw same (rw same at h)
    go (posted w db₁ new o p) =
        replay_or-old c db' _ e (posted-exists c db p) ∙ rw (posted-matches c db o p)
