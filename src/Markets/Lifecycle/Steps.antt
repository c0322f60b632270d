-- ===== src/Markets/Lifecycle/Steps.antt =====
-- The life cycle as a step relation (markets/services/lifecycle_service.py): one constructor for each
-- operation of MarketLifecycleService.
use leagueos_backend.Prelude.{
  ℕ, ◌≡◌, refl, sym, ap, ◌∙◌, subst, Bool, true, false, some, some-injective, any, ok, >>=-eq-ok,
}
use leagueos_backend.Wallets.Model as Bank
use leagueos_backend.Wallets.Ledger.{IsConsistent}
use leagueos_backend.Markets.Model.{
  Market, MarketStatus, closed, resolved, voided, TransitionAction, close, Exchange, Label,
}
use leagueos_backend.Markets.Orders.{get_market}
use leagueos_backend.Markets.CloseCleanup.{is_outstanding, cleanup_locked_market}
use leagueos_backend.Markets.CloseCleanup.Cleared.{cleanup_locked_market-cleared}
use leagueos_backend.Markets.Lifecycle.{
  Actor, begin_transition, submit_market, approve_market, reject_market, revert_market_to_draft,
  suspend_market, reopen_market, open_for_trading, close_market,
}
use leagueos_backend.Markets.Lifecycle.Graph.{
  Move, submitting, submitting_again, approving, rejecting, reverting, opening_trade, suspending,
  reopening, closing_open, closing_suspended, IsMove, get_market-id, begin_transition-IsBegun,
  apply_transition-IsApplied,
}
use leagueos_backend.Markets.Lifecycle.Moves.{
  IsStep, submit_market-IsStep, approve_market-IsStep, reject_market-IsStep,
  revert_market_to_draft-IsStep, suspend_market-IsStep, reopen_market-IsStep,
  open_for_trading-IsStep, close_market-IsStep,
}

-- A successful call of the service on the market of key `id`.
pub data Step (uuid5 : ℕ → Label → ℕ) (id : ℕ) (actor : Actor) (notes : Bank.Text) (x : Exchange)
    (m' : Market) (x' : Exchange) : Type 0 where
  submitted :
      (may : Bool)
      → submit_market may id actor notes x ≡ ok (m', x')
      → Step uuid5 id actor notes x m' x'
  was_approved :
      (may : Bool) (now : ℕ)
      → approve_market may id actor notes now x ≡ ok (m', x')
      → Step uuid5 id actor notes x m' x'
  was_rejected :
      (may : Bool)
      → reject_market may id actor notes x ≡ ok (m', x')
      → Step uuid5 id actor notes x m' x'
  reverted :
      (may : Bool)
      → revert_market_to_draft may id actor notes x ≡ ok (m', x')
      → Step uuid5 id actor notes x m' x'
  opened :
      (opening_namespace : ℕ) (may : Bool) (now : ℕ)
      → open_for_trading uuid5 opening_namespace may id actor notes now x ≡ ok (m', x')
      → Step uuid5 id actor notes x m' x'
  was_suspended :
      (may : Bool)
      → suspend_market may id actor notes x ≡ ok (m', x')
      → Step uuid5 id actor notes x m' x'
  reopened :
      (may : Bool) (now : ℕ)
      → reopen_market may id actor notes now x ≡ ok (m', x')
      → Step uuid5 id actor notes x m' x'
  was_closed :
      (may : Bool)
      → close_market uuid5 may id actor notes x ≡ ok (m', x')
      → Step uuid5 id actor notes x m' x'

module _ (uuid5 : ℕ → Label → ℕ) (id : ℕ) (actor : Actor) (notes : Bank.Text) (x : Exchange)
    (m' : Market) (x' : Exchange) where
  Step-IsStep : Step uuid5 id actor notes x m' x' → IsStep id actor notes x m' x'
  Step-IsStep (submitted may h) = submit_market-IsStep may id actor notes x h
  Step-IsStep (was_approved may now h) = approve_market-IsStep may id actor notes x now h
  Step-IsStep (was_rejected may h) = reject_market-IsStep may id actor notes x h
  Step-IsStep (reverted may h) = revert_market_to_draft-IsStep may id actor notes x h
  Step-IsStep (opened opening_namespace may now h) =
      open_for_trading-IsStep may id actor notes x uuid5 opening_namespace now h
  Step-IsStep (was_suspended may h) = suspend_market-IsStep may id actor notes x h
  Step-IsStep (reopened may now h) = reopen_market-IsStep may id actor notes x now h
  Step-IsStep (was_closed may h) = close_market-IsStep may id actor notes x uuid5 h

  -- Every successful operation of the life cycle, by an actor with some notes, moves the market along
  -- one of the moves (draft or rejected to pending approval, pending approval to approved or rejected,
  -- approved to draft or open, open to suspended, suspended to open, open or suspended to closed). The
  -- market is then stored in its new status, no row of another market changes, and the history of
  -- transitions grows by just one row, with the action, both statuses, the actor and the stripped notes.
  pub Step-IsMove : Step uuid5 id actor notes x m' x' → IsMove id actor notes x m' x'
  Step-IsMove step = (Step-IsStep step).moved

  -- Every successful operation of the life cycle, the opening with its liquidity and the close with
  -- its cleanup included, keeps a consistent wallet ledger consistent.
  pub Step-IsConsistent :
      Step uuid5 id actor notes x m' x' → IsConsistent x.bank → IsConsistent x'.bank
  Step-IsConsistent step = (Step-IsStep step).ledger

-- The statuses after the close.
abbrev pub is_ended : MarketStatus → Bool
is_ended closed = true
is_ended resolved = true
is_ended voided = true
is_ended _ = false

Move-is_ended :
    {action : TransitionAction} {from to : MarketStatus}
    → Move action from to
    → is_ended from ≡ false
Move-is_ended submitting = refl
Move-is_ended submitting_again = refl
Move-is_ended approving = refl
Move-is_ended rejecting = refl
Move-is_ended reverting = refl
Move-is_ended opening_trade = refl
Move-is_ended suspending = refl
Move-is_ended reopening = refl
Move-is_ended closing_open = refl
Move-is_ended closing_suspended = refl

module _ (uuid5 : ℕ → Label → ℕ) (id : ℕ) (actor : Actor) (notes : Bank.Text) (x : Exchange)
    (m : Market) (m' : Market) (x' : Exchange) where
  -- No operation of the life cycle succeeds on a market that is closed, resolved or voided: it cannot
  -- be opened again.
  pub Step-is_ended :
      get_market id x ≡ some m → is_ended m.status ≡ true → ¬ Step uuid5 id actor notes x m' x'
  Step-is_ended read final step =
      let move = Step-IsMove uuid5 id actor notes x m' x' step in
      let same = some-injective _ _ (sym read ∙ move.read) in
      let moving = Move-is_ended move.move in
      let open_ended = subst (λ (n : Market). is_ended n.status ≡ false) (sym same) moving in
      absurd (cc)

module _ (uuid5 : ℕ → Label → ℕ) (may : Bool) (id : ℕ) (actor : Actor) (notes : Bank.Text)
    (x : Exchange) (m' : Market) (x' : Exchange)
    (h : close_market uuid5 may id actor notes x ≡ ok (m', x')) where
  -- After the close of a market none of its orders is open or partially filled.
  pub close_market-cleared : any (is_outstanding id) x'.orders ≡ false
  unfolding close_market
  close_market-cleared =
      let ((m, cleaned), h₁, k) = >>=-eq-ok (begin_transition may id _ notes x) _ h in
      let ((cleanup, y), h₂, k₂) = >>=-eq-ok (cleanup_locked_market uuid5 m.id actor.id x) _ k in
      let b = begin_transition-IsBegun may id _ notes x h₁ in
      let a = apply_transition-IsApplied m actor close closed cleaned y k₂ in
      let kept = ap (λ (w : Exchange). w.orders) a.left in
      let done = cleanup_locked_market-cleared uuid5 m.id actor.id x cleanup y h₂ in
      rw (kept, sym (get_market-id id x b.read)) done
