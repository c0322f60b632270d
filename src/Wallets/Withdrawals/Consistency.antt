-- ===== src/Wallets/Withdrawals/Consistency.antt =====
-- The ledger's invariant over the calls on withdrawals (wallets/services/wallet_service.py).
use leagueos_backend.Prelude.{
  ℕ, ◌≤◌, ◌<◌, ◌≡◌, sym, subst, Option, List, [], ◌∷◌, arith, ok, All, >>=-eq-ok,
}
use leagueos_backend.Wallets.Model.{
  Text, Wallet, WithdrawalRequest, LedgerEntry, User, Database, Label, reason_required,
  payout_reference_required,
}
use leagueos_backend.Wallets.Normalize.{normalize_text}
use leagueos_backend.Wallets.Ledger.{IsBalanced, IsChained, IsConsistent}
use leagueos_backend.Wallets.Service.{release, consume_reserved}
use leagueos_backend.Wallets.Service.Laws.{execute-IsConsistent}
use leagueos_backend.Wallets.Rows.{audit}
use leagueos_backend.Wallets.Withdrawals.{
  Locked, save_both, save_one, approve_withdrawal, mark_withdrawal_processing, reject_pending,
  reject_withdrawal, complete_processing, complete_withdrawal, fail_open, fail_withdrawal,
  require_actor, get_locked_withdrawal,
}

-- What the ledger's invariant reads of a database; keys may be used up.
pub record SameLedger (db db' : Database) : Type 0 where
  pub wallets : db'.wallets ≡ db.wallets
  pub entries : db'.entries ≡ db.entries
  pub keys : db.next_id ≤ db'.next_id

-- A wallet stays balanced.
IsBalanced-congr :
    (db db' : Database) (w : Wallet) → SameLedger db db' → IsBalanced db w → IsBalanced db' w
IsBalanced-congr db db' w same b = record {
  balances = rw same.entries b.balances;
  available_fits = b.available_fits;
  reserved_fits = b.reserved_fits;
  known = omega arith;
}

All-IsBalanced-congr :
    (db db' : Database) (ws : List Wallet)
    → SameLedger db db'
    → All (IsBalanced db) ws
    → All (IsBalanced db') ws
All-IsBalanced-congr db db' [] same h = tt
All-IsBalanced-congr db db' (w ∷ ws) same (h, hs) =
    (IsBalanced-congr db db' w same h, All-IsBalanced-congr db db' ws same hs)

owned_congr :
    (m n : ℕ) (es : List LedgerEntry)
    → m ≤ n
    → All (λ e. e.wallet < m) es
    → All (λ e. e.wallet < n) es
owned_congr m n [] h p = tt
owned_congr m n (e ∷ es) h (p, ps) = (omega arith, owned_congr m n es h ps)

pub IsConsistent-congr :
    (db db' : Database) → SameLedger db db' → IsConsistent db → IsConsistent db'
IsConsistent-congr db db' same k = record {
  chained = subst IsChained (sym same.entries) k.chained;
  balanced =
      subst (All (IsBalanced db')) (sym same.wallets)
        (All-IsBalanced-congr db db' db.wallets same k.balanced);
  owned =
      subst (All (λ e. e.wallet < db'.next_id)) (sym same.entries)
        (owned_congr db.next_id db'.next_id db.entries same.keys k.owned);
}

-- The three calls that also move money.
module _ (uuid5 : ℕ → Label → ℕ) (l : Locked) (actor : User) (db : Database)
    {w' : WithdrawalRequest} {db' : Database} (k : IsConsistent db) where
  reject_pending-IsConsistent :
      (reason : Text) → reject_pending uuid5 l actor reason db ≡ ok (w', db') → IsConsistent db'
  unfolding reject_pending release audit save_both
  reject_pending-IsConsistent reason h =
      let ((e, d), h₁, h₂) = >>=-eq-ok (release _ db) _ h in
      IsConsistent-congr d db' (ground arith) (execute-IsConsistent _ _ _ db k h₁)

  complete_processing-IsConsistent :
      (reference : Text) (now : ℕ)
      → complete_processing uuid5 l actor reference now db ≡ ok (w', db')
      → IsConsistent db'
  unfolding complete_processing consume_reserved audit save_both
  complete_processing-IsConsistent reference now h =
      let ((e, d), h₁, h₂) = >>=-eq-ok (consume_reserved _ db) _ h in
      IsConsistent-congr d db' (ground arith) (execute-IsConsistent _ _ _ db k h₁)

  fail_open-IsConsistent :
      (reason : Text) → fail_open uuid5 l actor reason db ≡ ok (w', db') → IsConsistent db'
  unfolding fail_open release audit save_both
  fail_open-IsConsistent reason h =
      let ((e, d), h₁, h₂) = >>=-eq-ok (release _ db) _ h in
      IsConsistent-congr d db' (ground arith) (execute-IsConsistent _ _ _ db k h₁)

module _ (id : ℕ) (user : Option User) (db : Database) {w' : WithdrawalRequest} {db' : Database}
    (k : IsConsistent db) where
  pub approve_withdrawal-IsConsistent :
      (now : ℕ) → approve_withdrawal id user now db ≡ ok (w', db') → IsConsistent db'
  unfolding approve_withdrawal audit save_one
  approve_withdrawal-IsConsistent now h =
      let (actor, h₁, h₂) = >>=-eq-ok (require_actor user) _ h in
      let (l, h₃, h₄) = >>=-eq-ok (get_locked_withdrawal id db) _ h₂ in
      IsConsistent-congr db db' (ground arith) k

  pub mark_withdrawal_processing-IsConsistent :
      mark_withdrawal_processing id user db ≡ ok (w', db') → IsConsistent db'
  unfolding mark_withdrawal_processing audit save_one
  mark_withdrawal_processing-IsConsistent h =
      let (actor, h₁, h₂) = >>=-eq-ok (require_actor user) _ h in
      let (l, h₃, h₄) = >>=-eq-ok (get_locked_withdrawal id db) _ h₂ in
      IsConsistent-congr db db' (ground arith) k

  pub reject_withdrawal-IsConsistent :
      (uuid5 : ℕ → Label → ℕ) (reason : Text)
      → reject_withdrawal uuid5 id user reason db ≡ ok (w', db')
      → IsConsistent db'
  unfolding reject_withdrawal
  reject_withdrawal-IsConsistent uuid5 raw h =
      let (actor, h₁, h₂) = >>=-eq-ok (require_actor user) _ h in
      let (reason, h₃, h₄) = >>=-eq-ok (normalize_text raw reason_required) _ h₂ in
      let (l, h₅, h₆) = >>=-eq-ok (get_locked_withdrawal id db) _ h₄ in
      ground (arith, k, reject_pending-IsConsistent uuid5 l actor db {w' = w'} {db' = db'} k reason)

  pub complete_withdrawal-IsConsistent :
      (uuid5 : ℕ → Label → ℕ) (reference : Text) (now : ℕ)
      → complete_withdrawal uuid5 id user reference now db ≡ ok (w', db')
      → IsConsistent db'
  unfolding complete_withdrawal
  complete_withdrawal-IsConsistent uuid5 raw now h =
      let (actor, h₁, h₂) = >>=-eq-ok (require_actor user) _ h in
      let (reference, h₃, h₄) = >>=-eq-ok (normalize_text raw payout_reference_required) _ h₂ in
      let (l, h₅, h₆) = >>=-eq-ok (get_locked_withdrawal id db) _ h₄ in
      ground (
        arith,
        k,
        complete_processing-IsConsistent uuid5 l actor db {w' = w'} {db' = db'} k reference now,
      )

  pub fail_withdrawal-IsConsistent :
      (uuid5 : ℕ → Label → ℕ) (reason : Text)
      → fail_withdrawal uuid5 id user reason db ≡ ok (w', db')
      → IsConsistent db'
  unfolding fail_withdrawal
  fail_withdrawal-IsConsistent uuid5 raw h =
      let (actor, h₁, h₂) = >>=-eq-ok (require_actor user) _ h in
      let (reason, h₃, h₄) = >>=-eq-ok (normalize_text raw reason_required) _ h₂ in
      let (l, h₅, h₆) = >>=-eq-ok (get_locked_withdrawal id db) _ h₄ in
      ground (arith, k, fail_open-IsConsistent uuid5 l actor db {w' = w'} {db' = db'} k reason)
