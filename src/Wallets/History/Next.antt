-- ===== src/Wallets/History/Next.antt =====
-- What one call makes of one withdrawal, whichever call it is.
use leagueos_backend.Prelude.{
  ℕ, ◌+◌, ◌<◌, ◌≤◌, ◌≡◌, ◌≢◌, refl, sym, ◌∙◌, ap, ◌⊎◌, inl, inr, arith, true, some, Option, ok,
  List, [], ◌∷◌, ◌==◌, find, some-injective, Bool-cases, ==_sound, ==_refl, >>=-eq-ok, or_raise,
  subst,
}
use leagueos_backend.Wallets.Model.{
  Text, Wallet, WithdrawalRequest, User, Database, Label, RawKey, WalletTransaction, invalid_key,
}
use leagueos_backend.Wallets.Normalize.{RawAmount}
use leagueos_backend.Wallets.Risk.{Settings}
use leagueos_backend.Wallets.Service.{execute, reserve, debit_available}
use leagueos_backend.Wallets.Service.Laws.{execute-IsFrame}
use leagueos_backend.Wallets.Rows.{get_withdrawal, save_withdrawal, request_key, audit}
use leagueos_backend.Wallets.Requests.{
  insert_withdrawal, new_withdrawal, audit_request, decided, open_withdrawal, open_spend,
  create_withdrawal_request, spend_available_balance,
}
use leagueos_backend.Wallets.Requests.Cases.{
  create_withdrawal_request_cases, spend_available_balance_cases,
}
use leagueos_backend.Wallets.Deposits.{create_deposit_intent}
use leagueos_backend.Wallets.Deposits.Keeping.{
  create_deposit_intent-IsKept, get_or_create_wallet-kept,
}
use leagueos_backend.Wallets.Withdrawals.{
  approve_withdrawal, reject_withdrawal, mark_withdrawal_processing, complete_withdrawal,
  fail_withdrawal,
}
use leagueos_backend.Wallets.Withdrawals.Machine.{
  may_move, Changed, Touched, find-save_withdrawal, get_withdrawal-id, approve_withdrawal-Touched,
  mark_withdrawal_processing-Touched, reject_withdrawal-Touched, complete_withdrawal-Touched,
  fail_withdrawal-Touched,
}
use leagueos_backend.Wallets.History.{
  Command, operate, request, spend, approve, reject, process, complete, fail, obtain, intend, run,
}
use leagueos_backend.Wallets.History.Invariant.{atomic-keeps}

find-save_ne :
    (id : ℕ) (w : WithdrawalRequest) (ws : List WithdrawalRequest)
    → w.id ≢ id
    → find (λ x. x.id == id) (save_withdrawal w ws) ≡ find (λ x. x.id == id) ws
unfolding find save_withdrawal
find-save_ne id w [] h = refl
find-save_ne id w (x ∷ ws) h = ground (arith, find-save_ne id w ws h)

-- A stored withdrawal stays as it is or makes one move.
abbrev pub Moves : WithdrawalRequest → WithdrawalRequest → Type 0
Moves w w' =
    (w' ≡ w)
    ⊎ ((may_move w.status w'.status ≡ true) × (w'.amount ≡ w.amount) × (w'.wallet ≡ w.wallet))

-- What has become of the withdrawal under a key after a call.
pub record Next (id : ℕ) (w : WithdrawalRequest) (db db' : Database) : Type 0 where
  pub row : WithdrawalRequest
  pub found : get_withdrawal id db' ≡ some row
  pub moves : Moves w row
  pub keys : db.next_id ≤ db'.next_id

module _ (id : ℕ) (w : WithdrawalRequest) (db : Database) (h : get_withdrawal id db ≡ some w) where
  Next-kept :
      (db' : Database)
      → db'.withdrawals ≡ db.withdrawals
      → db.next_id ≤ db'.next_id
      → Next id w db db'
  unfolding get_withdrawal
  Next-kept db' same keys = record {
    row = w;
    found = ap (find _) same ∙ h;
    moves = inl refl;
    keys = keys;
  }

  Changed-Next : (w' : WithdrawalRequest) (db' : Database) → Changed w db w' db' → Next id w db db'
  unfolding get_withdrawal
  Changed-Next w' db' (inl (q, kept)) =
      Next-kept db' (ap (λ (d : Database). d.withdrawals) kept) (ground (arith, kept))
  Changed-Next w' db' (inr (move, kid, amount, wallet, keys, saved)) = record {
    row = w';
    found =
        ap (find _) saved
        ∙ find-save_withdrawal id w w' db.withdrawals h (kid ∙ get_withdrawal-id id db h);
    moves = inr (move, amount, wallet);
    keys = keys;
  }

  -- A change of another withdrawal.
  Changed-other :
      (x w' : WithdrawalRequest) (db' : Database)
      → x.id ≢ id
      → Changed x db w' db'
      → Next id w db db'
  unfolding get_withdrawal
  Changed-other x w' db' ne (inl (q, kept)) =
      Next-kept db' (ap (λ (d : Database). d.withdrawals) kept) (ground (arith, kept))
  Changed-other x w' db' ne (inr (move, kid, amount, wallet, keys, saved)) = record {
    row = w;
    found = ap (find _) saved ∙ find-save_ne id w' db.withdrawals (λ q. ne (sym kid ∙ q)) ∙ h;
    moves = inl refl;
    keys = keys;
  }

  Touched-Next :
      (key : ℕ) (w' : WithdrawalRequest) (db' : Database) → Touched key db w' db' → Next id w db db'
  Touched-Next key w' db' (x, read, c) = elim (Bool-cases (key == id)) [
    | inl here ↦
        let found = subst (λ i. get_withdrawal i db ≡ some x) (==_sound key id here) read in
        let same = some-injective _ _ (sym found ∙ h) in
        Changed-Next w' db' (subst (λ y. Changed y db w' db') same c)
    | inr other ↦
        let x_id = get_withdrawal-id key db read in
        Changed-other x w' db' (λ q. cc (other, x_id, q, ==_refl id)) c
  ]

module _ (uuid5 : ℕ → Label → ℕ) (id : ℕ) (w : WithdrawalRequest) where
  request_key-kept :
      (k : RawKey) (db : Database) {key : ℕ} {d : Database}
      → or_raise (request_key k db) invalid_key ≡ ok (key, d)
      → (d.withdrawals ≡ db.withdrawals) × (db.next_id ≤ d.next_id)
  unfolding request_key
  request_key-kept k db {key} {d} h = ground arith

  -- A new withdrawal has a new key.
  open_withdrawal-Next :
      (s : Settings) (user : User) (wallet : Wallet) (key amount : ℕ) (currency destination : Text)
      (now : ℕ) (db : Database) {x : WithdrawalRequest} {db' : Database}
      → get_withdrawal id db ≡ some w
      → id < db.next_id
      → open_withdrawal uuid5 s user wallet key amount currency destination now db ≡ ok (x, db')
      → Next id w db db'
  unfolding open_withdrawal reserve audit_request audit insert_withdrawal get_withdrawal decided
      new_withdrawal find
  open_withdrawal-Next s user wallet key amount currency destination now db {x} {db'} found old h =
      let ((e, d), h₁, h₂) = >>=-eq-ok (reserve _ _) _ h in
      let f = execute-IsFrame _ _ _ _ h₁ in
      let saved : db'.withdrawals ≡ save_withdrawal x d.withdrawals = ground arith in
      let fresh : x.id ≡ db.next_id + 1 = ground arith in
      let bound : d.next_id ≤ db'.next_id = ground arith in
      record {
        row = w;
        found =
            ap (find _) saved
            ∙ find-save_ne id x d.withdrawals (λ q. absurd (omega (arith, fresh, q)))
            ∙ ap (find _) f.withdrawals
            ∙ ground arith;
        moves = inl refl;
        keys = omega (arith, f.keys);
      }

  create_withdrawal_request-Next :
      (s : Settings) (user : User) (raw_amount : RawAmount) (raw_currency : Text)
      (destination : Option Text) (raw_key : RawKey) (now : ℕ) (db : Database)
      {x : WithdrawalRequest} {db' : Database}
      → get_withdrawal id db ≡ some w
      → id < db.next_id
      → create_withdrawal_request uuid5 s user raw_amount raw_currency destination raw_key now db
        ≡ ok (x, db')
      → Next id w db db'
  unfolding get_withdrawal
  create_withdrawal_request-Next s user raw_amount raw_currency destination raw_key now db found old
        h =
      let (d, key, given, cases) =
        create_withdrawal_request_cases uuid5 user raw_amount raw_currency raw_key now db s
          destination h in
      let (same, keys) = request_key-kept raw_key db given in
      elim cases [
        | inl q ↦ subst (Next id w db) (sym q) (Next-kept id w db found d same keys)
        | inr (o, made) ↦
            let n =
              open_withdrawal-Next s user o.wallet o.key o.amount o.currency o.text now d
                (ap (find _) same ∙ found) (omega arith) made in
            record { row = n.row; found = n.found; moves = n.moves; keys = omega (arith, n.keys) }
      ]

  open_spend-kept :
      (user : User) (wallet : Wallet) (key amount : ℕ) (currency description : Text) (now : ℕ)
      (db : Database) {t : WalletTransaction} {db' : Database}
      → open_spend uuid5 user wallet key amount currency description now db ≡ ok (t, db')
      → (db'.withdrawals ≡ db.withdrawals) × (db.next_id ≤ db'.next_id)
  unfolding open_spend debit_available
  open_spend-kept user wallet key amount currency description now db {t} {db'} h =
      let ((e, d), h₁, h₂) = >>=-eq-ok (debit_available _ _) _ h in
      let f = execute-IsFrame _ _ _ _ h₁ in ground (arith, f.withdrawals, f.keys)

  spend_available_balance-Next :
      (user : User) (raw_amount : RawAmount) (raw_currency description : Text) (raw_key : RawKey)
      (now : ℕ) (db : Database) {t : WalletTransaction} {db' : Database}
      → get_withdrawal id db ≡ some w
      → spend_available_balance uuid5 user raw_amount raw_currency description raw_key now db
        ≡ ok (t, db')
      → Next id w db db'
  spend_available_balance-Next user raw_amount raw_currency description raw_key now db {t} {db'}
        found h =
      let (d, key, given, cases) =
        spend_available_balance_cases uuid5 user raw_amount raw_currency raw_key now db description
          h in
      let (same, keys) = request_key-kept raw_key db given in
      elim cases [
        | inl q ↦ subst (Next id w db) (sym q) (Next-kept id w db found d same keys)
        | inr (o, made) ↦
            let (same', keys') =
              open_spend-kept user o.wallet o.key o.amount o.currency o.text now d made in
            Next-kept id w db found db' (same' ∙ same) (omega arith)
      ]

  pub run-Next :
      (c : Command) (db : Database)
      → get_withdrawal id db ≡ some w
      → id < db.next_id
      → Next id w db (run uuid5 c db)
  unfolding run
  run-Next c db found old = go c
    where
      kept : Next id w db db
      kept = record { row = w; found = found; moves = inl refl; keys = omega arith }

      go : (c : Command) → Next id w db (run uuid5 c db)
      go (operate op create r) =
          atomic-keeps (Next id w db) (execute op create r db) db kept (λ a d h.
            let f = execute-IsFrame op create r db h in
            Next-kept id w db found d f.withdrawals f.keys)
      go (request s u a c t k now) =
          atomic-keeps (Next id w db) (create_withdrawal_request uuid5 s u a c t k now db) db kept
            (λ x d. create_withdrawal_request-Next s u a c t k now db found old)
      go (spend u a c t k now) =
          atomic-keeps (Next id w db) (spend_available_balance uuid5 u a c t k now db) db kept
            (λ x d. spend_available_balance-Next u a c t k now db found)
      go (approve key u now) =
          atomic-keeps (Next id w db) (approve_withdrawal key u now db) db kept (λ x d h.
            Touched-Next id w db found key x d (approve_withdrawal-Touched key u db now h))
      go (reject key u reason) =
          atomic-keeps (Next id w db) (reject_withdrawal uuid5 key u reason db) db kept (λ x d h.
            Touched-Next id w db found key x d (reject_withdrawal-Touched key u db uuid5 reason h))
      go (process key u) =
          atomic-keeps (Next id w db) (mark_withdrawal_processing key u db) db kept (λ x d h.
            Touched-Next id w db found key x d (mark_withdrawal_processing-Touched key u db h))
      go (complete key u reference now) =
          atomic-keeps (Next id w db) (complete_withdrawal uuid5 key u reference now db) db kept
            (λ x d h.
              Touched-Next id w db found key x d
                (complete_withdrawal-Touched key u db uuid5 reference now h))
      go (obtain user c) =
          let (same, keys) = get_or_create_wallet-kept user c db in
          Next-kept id w db found _ same keys
      go (intend u provider a c k now) =
          atomic-keeps (Next id w db) (create_deposit_intent u provider a c k now db) db kept
            (λ i d h.
              let same = create_deposit_intent-IsKept u provider a c k now db h in
              Next-kept id w db found d same.withdrawals same.keys)
      go (fail key u reason) =
          atomic-keeps (Next id w db) (fail_withdrawal uuid5 key u reason db) db kept (λ x d h.
            Touched-Next id w db found key x d (fail_withdrawal-Touched key u db uuid5 reason h))
