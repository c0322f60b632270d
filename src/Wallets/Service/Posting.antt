-- ===== src/Wallets/Service/Posting.antt =====
-- The entry that a wallet operation writes under a new reference
-- (wallets/services/wallet_service.py).
use leagueos_backend.Prelude.{
  ℕ, ◌≡◌, sym, ◌∙◌, ap, Bool, true, none, some, ◌∷◌, arith, ok, >>=-eq-ok,
}
use leagueos_backend.Prelude.Int.{pos}
use leagueos_backend.Wallets.Model.{LedgerEntry, Database}
use leagueos_backend.Wallets.Normalize.{
  units, normalize_currency, normalize_amount, normalize_reference,
}
use leagueos_backend.Wallets.Transition.{Operation, entry_matches_operation}
use leagueos_backend.Wallets.Execute.{Call, perform, get_existing_entry}
use leagueos_backend.Wallets.Execute.Wallets.{IsObtained-owner}
use leagueos_backend.Wallets.Execute.Replay.{Performed, replayed, posted, perform-Performed}
use leagueos_backend.Wallets.Service.{Request, execute}

pub record IsEntryOf (op : Operation) (n reference : ℕ) (db : Database) (e : LedgerEntry)
    (db' : Database) : Type 0 where
  pub amount : e.amount ≡ n
  pub reference_used : e.idempotency_reference ≡ reference
  pub matches : entry_matches_operation e op ≡ true
  pub appended : db'.entries ≡ e ∷ db.entries

perform-IsEntryOf :
    (c : Call) (db : Database) {e : LedgerEntry} {db' : Database}
    → get_existing_entry c.reference db ≡ none
    → perform c db ≡ ok (e, db')
    → IsEntryOf c.operation c.amount c.reference db e db'
perform-IsEntryOf c db {e} {db'} new h = go (perform-Performed c db h)
  where
    go : Performed c db e db' → IsEntryOf c.operation c.amount c.reference db e db'
    go (replayed was checked same) = absurd (cc)
    go (posted w db₁ fresh o p) = record {
      amount = p.amount;
      reference_used = p.reference;
      matches = p.matches;
      appended =
          ap (λ (d : Database). d.entries) p.database
          ∙ ap (λ es. e ∷ es) (IsObtained-owner c db o).2;
    }

-- A request of n units under a reference that is not used yet.
pub execute-IsEntryOf :
    (op : Operation) (create : Bool) (r : Request) (n reference : ℕ) (db : Database)
    {e : LedgerEntry} {db' : Database}
    → r.amount ≡ units (pos n)
    → r.idempotency_reference ≡ some reference
    → get_existing_entry reference db ≡ none
    → execute op create r db ≡ ok (e, db')
    → IsEntryOf op n reference db e db'
unfolding execute normalize_amount normalize_reference
execute-IsEntryOf op create r n reference db {e} {db'} amount used new h =
    let (currency, p, h₁) = >>=-eq-ok (normalize_currency r.currency) _ h in
    let (m, q, h₂) = >>=-eq-ok (normalize_amount r.amount) _ h₁ in
    let (u, s, h₃) = >>=-eq-ok (normalize_reference r.idempotency_reference) _ h₂ in
    let same_amount : m ≡ n = ground (arith, amount) in
    let same_reference : u ≡ reference = ground (arith, used) in
    rw (sym same_amount, sym same_reference) (perform-IsEntryOf _ db (rw same_reference new) h₃)
