-- ===== src/Wallets/History/Totals.antt =====
-- The money of the wallets over histories of the wallet service.
use leagueos_backend.Prelude.{ℕ, ◌+◌, ◌≡◌, arith, List, [], ◌∷◌, All}
use leagueos_backend.Wallets.Model.{Wallet, Database, Label}
use leagueos_backend.Wallets.Ledger.{
  IsConsistent, IsBalanced, credited, debited, snapshot-eq-credited,
}
use leagueos_backend.Wallets.History.{Command, run_all}
use leagueos_backend.Wallets.History.Invariant.{run_all-IsConsistent}

-- What a wallet holds and what was debited from it is what was credited to it.
abbrev pub IsAccounted : Database → Wallet → Type 0
IsAccounted db w =
    w.available_balance + w.reserved_balance + debited w.id db.entries ≡ credited w.id db.entries

IsBalanced-IsAccounted :
    (db : Database) (w : Wallet) → IsConsistent db → IsBalanced db w → IsAccounted db w
IsBalanced-IsAccounted db w k b =
    ground (arith, b.balances, snapshot-eq-credited w.id db.entries k.chained)

pub IsConsistent-IsAccounted :
    (db : Database) (ws : List Wallet)
    → IsConsistent db
    → All (IsBalanced db) ws
    → All (IsAccounted db) ws
IsConsistent-IsAccounted db [] k h = tt
IsConsistent-IsAccounted db (w ∷ ws) k (b, bs) =
    (IsBalanced-IsAccounted db w k b, IsConsistent-IsAccounted db ws k bs)

-- After any history of the calls that a command stands for, on a consistent database, the available
-- and the reserved balance of every wallet and the debits in its ledger add up to the credits in its
-- ledger. The calls are the ledger operations, the requests, purchases and withdrawals with all their
-- decisions, the wallets and the deposit intents that are made, not the three operations that write no
-- entry (`reserve_funds`, `release_funds` and `debit_reserved_funds`).
pub run_all-IsAccounted :
    (uuid5 : ℕ → Label → ℕ) (cs : List Command) (db : Database)
    → IsConsistent db
    → All (IsAccounted (run_all uuid5 cs db)) (run_all uuid5 cs db).wallets
run_all-IsAccounted uuid5 cs db k =
    let k' = run_all-IsConsistent uuid5 cs db k in IsConsistent-IsAccounted _ _ k' k'.balanced
