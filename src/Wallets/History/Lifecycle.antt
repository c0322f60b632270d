-- ===== src/Wallets/History/Lifecycle.antt =====
-- The life of one withdrawal over histories of the wallet service.
use leagueos_backend.Prelude.{
  ℕ, ◌<◌, ◌≡◌, refl, subst, inl, inr, arith, Bool, true, false, some, List, [], ◌∷◌,
}
use leagueos_backend.Wallets.Model.{WithdrawalRequest, WithdrawalStatus, rejected, Database, Label}
use leagueos_backend.Wallets.Rows.{get_withdrawal}
use leagueos_backend.Wallets.Withdrawals.Machine.{may_move}
use leagueos_backend.Wallets.History.{Command, run, run_all}
use leagueos_backend.Wallets.History.Next.{Moves, run-Next}

-- The rows that follow a row: each has the status that a move gives, the same amount and wallet.
pub data Evolves : WithdrawalRequest → WithdrawalRequest → Type 0 where
  stays : {w : WithdrawalRequest} → Evolves w w
  moves :
      {w w' w'' : WithdrawalRequest}
      → may_move w.status w'.status ≡ true
      → w'.amount ≡ w.amount
      → w'.wallet ≡ w.wallet
      → Evolves w' w''
      → Evolves w w''

Moves-Evolves : {w w' w'' : WithdrawalRequest} → Moves w w' → Evolves w' w'' → Evolves w w''
Moves-Evolves {w'' = w''} (inl same) e = subst (λ x. Evolves x w'') same e
Moves-Evolves (inr (move, amount, wallet)) e = moves move amount wallet e

-- A rejected, completed or failed withdrawal is closed.
unfoldable pub is_closed : WithdrawalStatus → Bool
is_closed rejected = true
is_closed WithdrawalStatus.completed = true
is_closed WithdrawalStatus.failed = true
is_closed _ = false

closed-moves : (s t : WithdrawalStatus) → is_closed s ≡ true → may_move s t ≡ false
unfolding is_closed may_move
closed-moves s t h = ground arith

Evolves-closed : {w w' : WithdrawalRequest} → Evolves w w' → is_closed w.status ≡ true → w' ≡ w
Evolves-closed stays h = refl
Evolves-closed {w} (moves {w' = w'} move amount wallet e) h =
    cc (move, closed-moves w.status w'.status h)

module _ (uuid5 : ℕ → Label → ℕ) (id : ℕ) where
  -- Over any history of the calls that a command stands for a stored withdrawal stays in the table,
  -- and it comes by its row by allowed moves of its status, with its amount and its wallet kept.
  pub run_all-Evolves :
      (cs : List Command) (db : Database) {w : WithdrawalRequest}
      → get_withdrawal id db ≡ some w
      → id < db.next_id
      → (w' : WithdrawalRequest) × (get_withdrawal id (run_all uuid5 cs db) ≡ some w')
        × Evolves w w'
  unfolding run_all
  run_all-Evolves [] db {w} found old = (w, found, stays)
  run_all-Evolves (c ∷ cs) db {w} found old =
      let n = run-Next uuid5 id w c db found old in
      let (w', found', e) = run_all-Evolves cs (run uuid5 c db) n.found (omega (arith, n.keys)) in
      (w', found', Moves-Evolves n.moves e)

  -- A withdrawal that is rejected, completed or failed keeps its row over any history of the
  -- calls that a command stands for.
  pub run_all-closed :
      (cs : List Command) (db : Database) {w : WithdrawalRequest}
      → get_withdrawal id db ≡ some w
      → id < db.next_id
      → is_closed w.status ≡ true
      → get_withdrawal id (run_all uuid5 cs db) ≡ some w
  run_all-closed cs db {w} found old closed =
      let (w', found', e) = run_all-Evolves cs db found old in
      subst (λ x. get_withdrawal id (run_all uuid5 cs db) ≡ some x) (Evolves-closed e closed) found'
