-- ===== src/Wallets/Withdrawals/Machine.antt =====
-- The moves of a withdrawal's status (wallets/services/wallet_service.py).
use leagueos_backend.Prelude.{
  ℕ, ◌≤◌, ◌≡◌, true, false, Bool, some, Option, ◌⊎◌, List, [], ◌∷◌, arith, ◌==◌, ok, find,
  >>=-eq-ok, find-holds, ==_sound,
}
use leagueos_backend.Wallets.Model.{
  Text, WithdrawalStatus, pending_approval, approved, rejected, processing, WithdrawalRequest,
  Database, User, Label, reason_required, payout_reference_required,
}
use leagueos_backend.Wallets.Rows.{get_withdrawal, save_withdrawal, audit}
use leagueos_backend.Wallets.Execute.{get_wallet}
use leagueos_backend.Wallets.Service.{release, consume_reserved}
use leagueos_backend.Wallets.Service.Laws.{execute-IsFrame}
use leagueos_backend.Wallets.Normalize.{normalize_text}
use leagueos_backend.Wallets.Withdrawals.{
  Locked, require_actor, get_locked_withdrawal, save_both, save_one, approve_withdrawal,
  mark_withdrawal_processing, reject_pending, reject_withdrawal, complete_processing,
  complete_withdrawal, fail_open, fail_withdrawal,
}

-- The moves that the calls make.
unfoldable pub may_move : WithdrawalStatus → WithdrawalStatus → Bool
may_move pending_approval approved = true
may_move pending_approval rejected = true
may_move approved processing = true
may_move processing WithdrawalStatus.completed = true
may_move approved WithdrawalStatus.failed = true
may_move processing WithdrawalStatus.failed = true
may_move _ _ = false

pub find-save_withdrawal :
    (id : ℕ) (w w' : WithdrawalRequest) (ws : List WithdrawalRequest)
    → find (λ x. x.id == id) ws ≡ some w
    → w'.id ≡ id
    → find (λ x. x.id == id) (save_withdrawal w' ws) ≡ some w'
unfolding find save_withdrawal
find-save_withdrawal id w w' [] h q = absurd (cc)
find-save_withdrawal id w w' (x ∷ ws) h q = ground (arith, find-save_withdrawal id w w' ws)

-- The rows that `get_locked_withdrawal` has read.
pub record IsLocked (id : ℕ) (db : Database) (l : Locked) : Type 0 where
  pub found : get_withdrawal id db ≡ some l.withdrawal
  pub owner : get_wallet l.withdrawal.wallet db ≡ some l.wallet
  pub transaction_wallet : l.transaction.wallet ≡ l.withdrawal.wallet

pub get_locked_withdrawal-IsLocked :
    (id : ℕ) (db : Database) {l : Locked} → get_locked_withdrawal id db ≡ ok l → IsLocked id db l
unfolding get_locked_withdrawal
get_locked_withdrawal-IsLocked id db {l} h = ground arith

pub get_withdrawal-id :
    (id : ℕ) (db : Database) {w : WithdrawalRequest} → get_withdrawal id db ≡ some w → w.id ≡ id
unfolding get_withdrawal
get_withdrawal-id id db {w} h = ==_sound w.id id (find-holds _ db.withdrawals w h)

-- What a call makes of the withdrawal that it has read: nothing, or one move that keeps its key,
-- its amount and its wallet and is saved.
abbrev pub Changed : WithdrawalRequest → Database → WithdrawalRequest → Database → Type 0
Changed w db w' db' =
    ((w' ≡ w) × (db' ≡ db))
    ⊎ ((may_move w.status w'.status ≡ true)
        × (w'.id ≡ w.id)
        × (w'.amount ≡ w.amount)
        × (w'.wallet ≡ w.wallet)
        × (db.next_id ≤ db'.next_id)
        × (db'.withdrawals ≡ save_withdrawal w' db.withdrawals))

-- The same for the withdrawal under a key.
abbrev pub Touched : ℕ → Database → WithdrawalRequest → Database → Type 0
Touched id db w' db' =
    (w : WithdrawalRequest) × (get_withdrawal id db ≡ some w) × Changed w db w' db'

-- The three calls that also move money.
module _ (uuid5 : ℕ → Label → ℕ) (l : Locked) (actor : User) (db : Database)
    {w' : WithdrawalRequest} {db' : Database} where
  reject_pending-Changed :
      (reason : Text)
      → l.withdrawal.status ≡ pending_approval
      → reject_pending uuid5 l actor reason db ≡ ok (w', db')
      → Changed l.withdrawal db w' db'
  unfolding reject_pending release audit save_both may_move
  reject_pending-Changed reason s h =
      let ((e, d), h₁, h₂) = >>=-eq-ok (release _ db) _ h in
      let f = execute-IsFrame _ _ _ db h₁ in ground (arith, f.withdrawals, f.keys)

  complete_processing-Changed :
      (reference : Text) (now : ℕ)
      → l.withdrawal.status ≡ processing
      → complete_processing uuid5 l actor reference now db ≡ ok (w', db')
      → Changed l.withdrawal db w' db'
  unfolding complete_processing consume_reserved audit save_both may_move
  complete_processing-Changed reference now s h =
      let ((e, d), h₁, h₂) = >>=-eq-ok (consume_reserved _ db) _ h in
      let f = execute-IsFrame _ _ _ db h₁ in ground (arith, f.withdrawals, f.keys)

  fail_open-Changed :
      (reason : Text)
      → (l.withdrawal.status ≡ approved) ⊎ (l.withdrawal.status ≡ processing)
      → fail_open uuid5 l actor reason db ≡ ok (w', db')
      → Changed l.withdrawal db w' db'
  unfolding fail_open release audit save_both may_move
  fail_open-Changed reason s h =
      let ((e, d), h₁, h₂) = >>=-eq-ok (release _ db) _ h in
      let f = execute-IsFrame _ _ _ db h₁ in ground (arith, f.withdrawals, f.keys)

module _ (id : ℕ) (user : Option User) (db : Database) {w' : WithdrawalRequest}
    {db' : Database} where
  pub approve_withdrawal-Touched :
      (now : ℕ) → approve_withdrawal id user now db ≡ ok (w', db') → Touched id db w' db'
  unfolding approve_withdrawal audit save_one may_move
  approve_withdrawal-Touched now h =
      let (actor, h₁, h₂) = >>=-eq-ok (require_actor user) _ h in
      let (l, h₃, h₄) = >>=-eq-ok (get_locked_withdrawal id db) _ h₂ in
      (l.withdrawal, (get_locked_withdrawal-IsLocked id db h₃).found, ground arith)

  pub mark_withdrawal_processing-Touched :
      mark_withdrawal_processing id user db ≡ ok (w', db') → Touched id db w' db'
  unfolding mark_withdrawal_processing audit save_one may_move
  mark_withdrawal_processing-Touched h =
      let (actor, h₁, h₂) = >>=-eq-ok (require_actor user) _ h in
      let (l, h₃, h₄) = >>=-eq-ok (get_locked_withdrawal id db) _ h₂ in
      (l.withdrawal, (get_locked_withdrawal-IsLocked id db h₃).found, ground arith)

  pub reject_withdrawal-Touched :
      (uuid5 : ℕ → Label → ℕ) (reason : Text)
      → reject_withdrawal uuid5 id user reason db ≡ ok (w', db')
      → Touched id db w' db'
  unfolding reject_withdrawal
  reject_withdrawal-Touched uuid5 raw h =
      let (actor, h₁, h₂) = >>=-eq-ok (require_actor user) _ h in
      let (reason, h₃, h₄) = >>=-eq-ok (normalize_text raw reason_required) _ h₂ in
      let (l, h₅, h₆) = >>=-eq-ok (get_locked_withdrawal id db) _ h₄ in
      (
        l.withdrawal,
        (get_locked_withdrawal-IsLocked id db h₅).found,
        ground (arith, reject_pending-Changed uuid5 l actor db {w' = w'} {db' = db'} reason),
      )

  pub complete_withdrawal-Touched :
      (uuid5 : ℕ → Label → ℕ) (reference : Text) (now : ℕ)
      → complete_withdrawal uuid5 id user reference now db ≡ ok (w', db')
      → Touched id db w' db'
  unfolding complete_withdrawal
  complete_withdrawal-Touched uuid5 raw now h =
      let (actor, h₁, h₂) = >>=-eq-ok (require_actor user) _ h in
      let (reference, h₃, h₄) = >>=-eq-ok (normalize_text raw payout_reference_required) _ h₂ in
      let (l, h₅, h₆) = >>=-eq-ok (get_locked_withdrawal id db) _ h₄ in
      (
        l.withdrawal,
        (get_locked_withdrawal-IsLocked id db h₅).found,
        ground (
          arith,
          complete_processing-Changed uuid5 l actor db {w' = w'} {db' = db'} reference now,
        ),
      )

  pub fail_withdrawal-Touched :
      (uuid5 : ℕ → Label → ℕ) (reason : Text)
      → fail_withdrawal uuid5 id user reason db ≡ ok (w', db')
      → Touched id db w' db'
  unfolding fail_withdrawal
  fail_withdrawal-Touched uuid5 raw h =
      let (actor, h₁, h₂) = >>=-eq-ok (require_actor user) _ h in
      let (reason, h₃, h₄) = >>=-eq-ok (normalize_text raw reason_required) _ h₂ in
      let (l, h₅, h₆) = >>=-eq-ok (get_locked_withdrawal id db) _ h₄ in
      (
        l.withdrawal,
        (get_locked_withdrawal-IsLocked id db h₅).found,
        ground (arith, fail_open-Changed uuid5 l actor db {w' = w'} {db' = db'} reason),
      )
