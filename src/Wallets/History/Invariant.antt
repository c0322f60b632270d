-- ===== src/Wallets/History/Invariant.antt =====
-- The ledger's invariant over histories of the wallet service.
use leagueos_backend.Prelude.{ℕ, ◌≡◌, refl, Result, ok, err, List, [], ◌∷◌}
use leagueos_backend.Wallets.Model.{Database, Error, Label}
use leagueos_backend.Wallets.Ledger.{IsConsistent}
use leagueos_backend.Wallets.Service.{execute}
use leagueos_backend.Wallets.Service.Laws.{execute-IsConsistent}
use leagueos_backend.Wallets.Balances.Unrecorded.{get_or_create_wallet-IsConsistent}
use leagueos_backend.Wallets.Deposits.{create_deposit_intent}
use leagueos_backend.Wallets.Deposits.Keeping.{create_deposit_intent-IsKept}
use leagueos_backend.Wallets.Requests.{create_withdrawal_request, spend_available_balance}
use leagueos_backend.Wallets.Requests.Consistency.{
  create_withdrawal_request-IsConsistent, spend_available_balance-IsConsistent,
}
use leagueos_backend.Wallets.Withdrawals.{
  approve_withdrawal, reject_withdrawal, mark_withdrawal_processing, complete_withdrawal,
  fail_withdrawal,
}
use leagueos_backend.Wallets.Withdrawals.Consistency.{
  IsConsistent-congr, approve_withdrawal-IsConsistent, mark_withdrawal_processing-IsConsistent,
  reject_withdrawal-IsConsistent, complete_withdrawal-IsConsistent, fail_withdrawal-IsConsistent,
}
use leagueos_backend.Wallets.History.{
  Command, operate, request, spend, approve, reject, process, complete, fail, obtain, intend,
  atomic, run, run_all,
}

-- What every successful result keeps is kept by the rolled-back call.
pub atomic-keeps {ℓ κ} :
    {A : Type ℓ} (P : Database → Type κ) (r : Result Error (A × Database)) (db : Database)
    → P db
    → ((a : A) (d : Database) → r ≡ ok (a, d) → P d)
    → P (atomic r db)
unfolding atomic
atomic-keeps P (ok (a, d)) db p f = f a d refl
atomic-keeps P (err e) db p f = p

module _ (uuid5 : ℕ → Label → ℕ) where
  pub run-IsConsistent :
      (c : Command) (db : Database) → IsConsistent db → IsConsistent (run uuid5 c db)
  unfolding run
  run-IsConsistent (operate op create r) db k =
      atomic-keeps IsConsistent (execute op create r db) db k
        (λ a d. execute-IsConsistent op create r db k)
  run-IsConsistent (request s u a c t x now) db k =
      atomic-keeps IsConsistent (create_withdrawal_request uuid5 s u a c t x now db) db k
        (λ w d. create_withdrawal_request-IsConsistent uuid5 s u a c t x now db k)
  run-IsConsistent (spend u a c t x now) db k =
      atomic-keeps IsConsistent (spend_available_balance uuid5 u a c t x now db) db k
        (λ w d. spend_available_balance-IsConsistent uuid5 u a c t x now db k)
  run-IsConsistent (approve id u now) db k =
      atomic-keeps IsConsistent (approve_withdrawal id u now db) db k
        (λ w d. approve_withdrawal-IsConsistent id u db k now)
  run-IsConsistent (reject id u reason) db k =
      atomic-keeps IsConsistent (reject_withdrawal uuid5 id u reason db) db k
        (λ w d. reject_withdrawal-IsConsistent id u db k uuid5 reason)
  run-IsConsistent (process id u) db k =
      atomic-keeps IsConsistent (mark_withdrawal_processing id u db) db k
        (λ w d. mark_withdrawal_processing-IsConsistent id u db k)
  run-IsConsistent (complete id u reference now) db k =
      atomic-keeps IsConsistent (complete_withdrawal uuid5 id u reference now db) db k
        (λ w d. complete_withdrawal-IsConsistent id u db k uuid5 reference now)
  run-IsConsistent (fail id u reason) db k =
      atomic-keeps IsConsistent (fail_withdrawal uuid5 id u reason db) db k
        (λ w d. fail_withdrawal-IsConsistent id u db k uuid5 reason)
  run-IsConsistent (obtain user c) db k = get_or_create_wallet-IsConsistent user c db k
  run-IsConsistent (intend u provider a c x now) db k =
      atomic-keeps IsConsistent (create_deposit_intent u provider a c x now db) db k (λ i d h.
        let kept = create_deposit_intent-IsKept u provider a c x now db h in
        IsConsistent-congr db d
          (record { wallets = kept.wallets; entries = kept.entries; keys = kept.keys }) k)

  -- Any history of the calls that a command stands for, which are all of the service but the three
  -- that write no ledger entry (`reserve_funds`, `release_funds` and `debit_reserved_funds`), keeps a
  -- consistent ledger consistent: the entries of a wallet form a chain of balances under distinct
  -- references, and its row carries the balances of the newest one, which fit the columns.
  pub run_all-IsConsistent :
      (cs : List Command) (db : Database) → IsConsistent db → IsConsistent (run_all uuid5 cs db)
  unfolding run_all
  run_all-IsConsistent [] db k = k
  run_all-IsConsistent (c ∷ cs) db k =
      run_all-IsConsistent cs (run uuid5 c db) (run-IsConsistent c db k)
