-- ===== src/Wallets/Service/Laws.antt =====
-- What the five public wallet operations keep and promise, on raw arguments.
use leagueos_backend.Prelude.{ℕ, ◌<◌, ◌≡◌, ◌∙◌, Bool, arith, ok, >>=-eq-ok}
use leagueos_backend.Wallets.Model.{LedgerEntry, Database}
use leagueos_backend.Wallets.Normalize.{
  RawAmount, normalize_currency, normalize_amount, normalize_reference,
}
use leagueos_backend.Wallets.Transition.{Operation}
use leagueos_backend.Wallets.Execute.{Call, perform}
use leagueos_backend.Wallets.Execute.Replay.{perform-replay}
use leagueos_backend.Wallets.Execute.Frame.{IsFrame, perform-IsFrame}
use leagueos_backend.Wallets.Ledger.{IsConsistent}
use leagueos_backend.Wallets.Ledger.Invariant.{perform-IsConsistent}
use leagueos_backend.Wallets.Service.{Request, execute}

normalize_amount_pos : (a : RawAmount) {n : ℕ} → normalize_amount a ≡ ok n → 0 < n
unfolding normalize_amount
normalize_amount_pos a h = ground arith

-- A successful request is a call of its normalised arguments, whose amount is positive.
module _ (operation : Operation) (create_wallet : Bool) (r : Request) (db : Database)
    {e : LedgerEntry} {db' : Database} where
  execute-perform :
      execute operation create_wallet r db ≡ ok (e, db')
      → (c : Call) × (0 < c.amount)
        × (perform c db ≡ ok (e, db'))
        × ((d : Database) → execute operation create_wallet r d ≡ perform c d)
  unfolding execute
  execute-perform h =
      let (currency, p, h₁) = >>=-eq-ok (normalize_currency r.currency) _ h in
      let (amount, q, h₂) = >>=-eq-ok (normalize_amount r.amount) _ h₁ in
      let (reference, s, h₃) = >>=-eq-ok (normalize_reference r.idempotency_reference) _ h₂ in
      (_, normalize_amount_pos r.amount q, h₃, λ d. rw (p, q, s))

  -- A wallet operation keeps the ledger consistent.
  pub execute-IsConsistent :
      IsConsistent db → execute operation create_wallet r db ≡ ok (e, db') → IsConsistent db'
  execute-IsConsistent k h =
      let (c, positive, p, same) = execute-perform h in perform-IsConsistent c db k positive p

  -- A request that succeeded and is sent again returns the same entry and changes nothing.
  pub execute-replay :
      execute operation create_wallet r db ≡ ok (e, db')
      → execute operation create_wallet r db' ≡ ok (e, db')
  execute-replay h =
      let (c, positive, p, same) = execute-perform h in same db' ∙ perform-replay c db p

  -- A wallet operation writes wallets and entries only.
  pub execute-IsFrame : execute operation create_wallet r db ≡ ok (e, db') → IsFrame db db'
  execute-IsFrame h = let (c, positive, p, same) = execute-perform h in perform-IsFrame c db p
