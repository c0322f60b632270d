-- ===== src/Wallets/Ledger.antt =====
-- The ledger as the history of the wallets: every entry goes on from the balances that the wallet's
-- entry before it left, and the balances of a wallet are those that its newest entry left.
pub mod Invariant
use leagueos_backend.Prelude.{
  ℕ, ◌+◌, ◌<◌, ◌≡◌, refl, ap, true, none, some, List, [], ◌∷◌, arith, ◌==◌, if◌then◌else◌, find,
  All,
}
use leagueos_backend.Wallets.Model.{EntryType, Wallet, LedgerEntry, Database, money_limit}
use leagueos_backend.Wallets.Transition.{Operation, entry_matches_operation}

-- The available and the reserved balance after the newest entry of a wallet.
unfoldable pub snapshot : ℕ → List LedgerEntry → ℕ × ℕ
snapshot id [] = (0, 0)
snapshot id (e ∷ es) =
    if e.wallet == id then (e.available_balance_after, e.reserved_balance_after) else snapshot id es

pub record IsLink (e : LedgerEntry) (es : List LedgerEntry) : Type 0 where
  pub operation : Operation
  pub goes_on : snapshot e.wallet es ≡ (e.available_balance_before, e.reserved_balance_before)
  pub matches : entry_matches_operation e operation ≡ true
  pub positive : 0 < e.amount
  pub new_reference : find (λ x. x.idempotency_reference == e.idempotency_reference) es ≡ none

abbrev pub IsChained : List LedgerEntry → Type 0
IsChained [] = Unit
IsChained (e ∷ es) = IsLink e es × IsChained es

-- The wallet row carries the balances of its newest entry, which fit the columns.
pub record IsBalanced (db : Database) (w : Wallet) : Type 0 where
  pub balances : snapshot w.id db.entries ≡ (w.available_balance, w.reserved_balance)
  pub available_fits : w.available_balance < money_limit
  pub reserved_fits : w.reserved_balance < money_limit
  pub known : w.id < db.next_id

pub record IsConsistent (db : Database) : Type 0 where
  pub chained : IsChained db.entries
  pub balanced : All (IsBalanced db) db.wallets
  pub owned : All (λ e. e.wallet < db.next_id) db.entries

-- What the entries of a wallet have brought in and taken out.
unfoldable pub credited : ℕ → List LedgerEntry → ℕ
credited id [] = 0
credited id (e ∷ es) =
    (if e.wallet == id then elim e.entry_type [ EntryType.credit ↦ e.amount | _ ↦ 0 ] else 0)
    + credited id es

unfoldable pub debited : ℕ → List LedgerEntry → ℕ
debited id [] = 0
debited id (e ∷ es) =
    (if e.wallet == id then elim e.entry_type [ EntryType.debit ↦ e.amount | _ ↦ 0 ] else 0)
    + debited id es

-- What a wallet holds is what its entries credited less what they debited: a reservation and a
-- release move money inside the wallet.
pub snapshot-eq-credited :
    (id : ℕ) (es : List LedgerEntry)
    → IsChained es
    → (snapshot id es).0 + (snapshot id es).1 + debited id es ≡ credited id es
unfolding snapshot credited debited entry_matches_operation
snapshot-eq-credited id [] h = refl
snapshot-eq-credited id (e ∷ es) (l, h) =
    ground (arith, l.goes_on, l.matches, snapshot-eq-credited id es h)
