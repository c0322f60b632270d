-- ===== src/Markets/Cancellation/Final.antt =====
-- Cancelled orders (markets/services/participation_service.py).
use leagueos_backend.Prelude.{
  ℕ, ◌-◌, ◌≤◌, ◌≡◌, refl, sym, ap, ◌∙◌, subst, arith, Bool, true, ◌==◌, ==_refl, ==_sound,
  if◌then◌else◌, find, find-holds, Bool-cases, inl, inr, none, some, some-injective, List, [], ◌∷◌,
  ok, >>=-eq-ok, ok-injective, or_raise, require,
}
use leagueos_backend.Wallets.Model as Bank
use leagueos_backend.Wallets.Model.{LedgerEntry}
use leagueos_backend.Wallets.Execute.{get_existing_entry}
use leagueos_backend.Markets.Frame.{IsKept, IsKept-trans, outside, outside-IsKept}
use leagueos_backend.Markets.Model.{
  Side, buy, sell, Order, cancelled, Position, Exchange, Label, cancellation_release,
}
use leagueos_backend.Markets.Orders.{
  get_order, save_order, side_eq, is_fillable_status, remaining, reserved_for, clean_order,
}
use leagueos_backend.Markets.Positions.{get_position, save_position}
use leagueos_backend.Markets.Cancellation.{
  Released, released_shares, release_funds, release_shares, release_cancelled,
  require_cancellable_order, cancel_locked_order, cancel_order,
}
use leagueos_backend.Markets.Cancellation.Releasing.{
  IsRelease, IsFundsRelease, release_funds-IsFundsRelease, IsFundsRelease-IsConsistent,
  IsFundsRelease-IsRelease, IsSharesRelease, release_shares-IsSharesRelease,
}

-- A saved order is found by its key.
pub find-save_order :
    (o : Order) (os : List Order) {old : Order}
    → find (λ q. q.id == o.id) os ≡ some old
    → find (λ q. q.id == o.id) (save_order o os) ≡ some o
unfolding find save_order
find-save_order o [] h = cc
find-save_order o (q ∷ os) h = elim (Bool-cases (q.id == o.id)) [
  | inl same ↦ rw (same, ==_refl o.id)
  | inr other ↦ rw (other, other) (find-save_order o os (rw other at h))
]

pub get_order-id : (id : ℕ) (x : Exchange) {o : Order} → get_order id x ≡ some o → o.id ≡ id
unfolding get_order
get_order-id id x {o} read = ==_sound o.id id (find-holds _ x.orders o read)

-- What a release leaves of the exchange: the orders, the audits, the markets and the ledger's invariant.
pub record IsReleaseFrame (x x' : Exchange) : Type 0 where
  pub orders : x'.orders ≡ x.orders
  pub expiries : x'.expiries ≡ x.expiries
  pub cleanups : x'.cleanups ≡ x.cleanups
  pub kept : IsKept x x'

pub IsFundsRelease-frame :
    (reference : ℕ) (o : Order) (x : Exchange) {r : Released} {x' : Exchange}
    → IsFundsRelease reference o x r x'
    → IsReleaseFrame x x'
IsFundsRelease-frame reference o x d = record {
  orders = ap (λ (y : Exchange). y.orders) d.frame;
  expiries = ap (λ (y : Exchange). y.expiries) d.frame;
  cleanups = ap (λ (y : Exchange). y.cleanups) d.frame;
  kept = record {
    markets = ap (λ (y : Exchange). y.markets) d.frame;
    transitions = ap (λ (y : Exchange). y.transitions) d.frame;
    ledger = IsFundsRelease-IsConsistent reference o x d;
  };
}

pub IsSharesRelease-frame :
    (o : Order) (x : Exchange) {r : Released} {x' : Exchange}
    → IsSharesRelease o x r x'
    → IsReleaseFrame x x'
IsSharesRelease-frame o x d = record {
  orders = ap (λ (y : Exchange). y.orders) d.frame;
  expiries = ap (λ (y : Exchange). y.expiries) d.frame;
  cleanups = ap (λ (y : Exchange). y.cleanups) d.frame;
  kept = outside-IsKept (ap outside d.frame);
}

module _ (uuid5 : ℕ → Label → ℕ) where
  release_cancelled-buy :
      (o : Order) (x : Exchange)
      → o.side ≡ buy
      → release_cancelled uuid5 o x ≡ release_funds (uuid5 o.id cancellation_release) o x
  unfolding release_cancelled
  release_cancelled-buy o x bought =
      ap
        (λ (s : Side). elim s [
          | buy ↦ release_funds (uuid5 o.id cancellation_release) o x
          | sell ↦ release_shares o x
        ])
        bought

  release_cancelled-sell :
      (o : Order) (x : Exchange) → o.side ≡ sell → release_cancelled uuid5 o x ≡ release_shares o x
  unfolding release_cancelled
  release_cancelled-sell o x sold =
      ap
        (λ (s : Side). elim s [
          | buy ↦ release_funds (uuid5 o.id cancellation_release) o x
          | sell ↦ release_shares o x
        ])
        sold

  release_cancelled-frame :
      (o : Order) (x : Exchange) {r : Released} {x' : Exchange}
      → release_cancelled uuid5 o x ≡ ok (r, x')
      → IsReleaseFrame x x'
  release_cancelled-frame o x {r} {x'} h = go o.side refl
    where
      go : (s : Side) → o.side ≡ s → IsReleaseFrame x x'
      go buy q =
          IsFundsRelease-frame _ o x
            (release_funds-IsFundsRelease _ o x (sym (release_cancelled-buy o x q) ∙ h))
      go sell q =
          IsSharesRelease-frame o x
            (release_shares-IsSharesRelease o x (sym (release_cancelled-sell o x q) ∙ h))

  -- A cancellation releases, saves the cancelled row and changes no other.
  pub record IsCancelled (o : Order) (x : Exchange) (r : Released) (x' : Exchange) : Type 0 where
    pub was_active : is_fillable_status o.status ≡ true
    pub middle : Exchange
    pub released : release_cancelled uuid5 o x ≡ ok (r, middle)
    pub saved :
        x' ≡ record middle { orders = save_order (record o { status = cancelled }) middle.orders }

  pub cancel_locked_order-IsCancelled :
      (o : Order) (x : Exchange) {r : Released} {x' : Exchange}
      → cancel_locked_order uuid5 o x ≡ ok (r, x')
      → IsCancelled o x r x'
  unfolding cancel_locked_order require_cancellable_order
  cancel_locked_order-IsCancelled o x {r} {x'} h =
      let (u, active, h₁) = >>=-eq-ok (require (is_fillable_status o.status) _) _ h in
      let ((r₁, y), released, h₂) = >>=-eq-ok (release_cancelled uuid5 o x) _ h₁ in
      let (v, clean, h₃) = >>=-eq-ok (clean_order _ y) _ h₂ in
      let done = ok-injective h₃ in
      let same = ap (λ (z : Released × Exchange). z.0) done in
      record {
        was_active = ground (arith, active);
        middle = y;
        released = subst (λ r'. release_cancelled uuid5 o x ≡ ok (r', y)) same released;
        saved = sym (ap (λ (z : Released × Exchange). z.1) done);
      }

  module _ (o : Order) (x : Exchange) (r : Released) (x' : Exchange)
      (h : cancel_locked_order uuid5 o x ≡ ok (r, x')) where
    -- A cancellation keeps the markets and a consistent wallet ledger.
    pub cancel_locked_order-IsKept : IsKept x x'
    cancel_locked_order-IsKept =
        let d = cancel_locked_order-IsCancelled o x h in
        IsKept-trans (release_cancelled-frame o x d.released).kept
          (outside-IsKept (ap outside d.saved))

    -- The rows of the orders after a cancellation.
    pub cancel_locked_order-orders :
        x'.orders ≡ save_order (record o { status = cancelled }) x.orders
    cancel_locked_order-orders =
        let d = cancel_locked_order-IsCancelled o x h in
        ap (λ (y : Exchange). y.orders) d.saved
        ∙ ap (save_order (record o { status = cancelled }))
            (release_cancelled-frame o x d.released).orders

    cancel_locked_order-row :
        get_order o.id x ≡ some o → get_order o.id x' ≡ some (record o { status = cancelled })
    unfolding get_order
    cancel_locked_order-row read =
        ap (find (λ q. q.id == o.id)) cancel_locked_order-orders
        ∙ find-save_order (record o { status = cancelled }) x.orders read

    -- The cancellation of a buy order, under a reference that the ledger does not have yet, writes
    -- one entry, which moves just what the order's remaining quantity reserves from the reserved to
    -- the available balance.
    pub cancel_locked_order-buy :
        o.side ≡ buy
        → get_existing_entry (uuid5 o.id cancellation_release) x.bank ≡ none
        → (e : LedgerEntry) × (x'.bank.entries ≡ e ∷ x.bank.entries)
          × IsRelease o e
          × (r.wallet_amount ≡ reserved_for o)
          × (r.position_quantity ≡ 0)
    cancel_locked_order-buy bought new =
        let d = cancel_locked_order-IsCancelled o x h in
        let f =
          release_funds-IsFundsRelease (uuid5 o.id cancellation_release) o x
            (sym (release_cancelled-buy o x bought) ∙ d.released) in
        let (appended, release) = IsFundsRelease-IsRelease _ o x f new in
        (
          f.entry,
          ap (λ (y : Exchange). y.bank.entries) d.saved ∙ appended,
          release,
          f.amount,
          f.shares,
        )

    -- The cancellation of a sell order takes its remaining quantity off what the seller's position
    -- reserves, which was at least as much, and leaves the bank as it was.
    pub cancel_locked_order-sell :
        o.side ≡ sell
        → (p : Position) × (get_position o.user o.market o.outcome x ≡ some p)
          × (remaining o ≤ p.reserved_quantity)
          × (x'.positions
              ≡ save_position
                  (record p { reserved_quantity = p.reserved_quantity - remaining o })
                  x.positions)
          × (r.position_quantity ≡ remaining o)
          × (x'.bank ≡ x.bank)
    unfolding released_shares
    cancel_locked_order-sell sold =
        let d = cancel_locked_order-IsCancelled o x h in
        let f =
          release_shares-IsSharesRelease o x (sym (release_cancelled-sell o x sold) ∙ d.released) in
        (
          f.position,
          f.held,
          f.enough,
          ap (λ (y : Exchange). y.positions) d.saved ∙ ap (λ (y : Exchange). y.positions) f.frame,
          ap (λ (y : Released). y.position_quantity) f.released,
          ap (λ (y : Exchange). y.bank) d.saved ∙ ap (λ (y : Exchange). y.bank) f.frame,
        )

    -- What is reported as released.
    pub cancel_locked_order-amounts :
        (r.wallet_amount ≡ (if side_eq o.side buy then reserved_for o else 0))
        × (r.position_quantity ≡ (if side_eq o.side buy then 0 else remaining o))
    unfolding side_eq released_shares
    cancel_locked_order-amounts = go o.side refl
      where
        go :
            (s : Side)
            → o.side ≡ s
            → (r.wallet_amount ≡ (if side_eq s buy then reserved_for o else 0))
              × (r.position_quantity ≡ (if side_eq s buy then 0 else remaining o))
        go buy q =
            let d = cancel_locked_order-IsCancelled o x h in
            let f =
              release_funds-IsFundsRelease _ o x (sym (release_cancelled-buy o x q) ∙ d.released) in
            (f.amount, f.shares)
        go sell q =
            let d = cancel_locked_order-IsCancelled o x h in
            let f =
              release_shares-IsSharesRelease o x
                (sym (release_cancelled-sell o x q) ∙ d.released) in
            (
              ap (λ (y : Released). y.wallet_amount) f.released,
              ap (λ (y : Released). y.position_quantity) f.released,
            )

  cancel_order-locked :
      (user : Bank.User) (permission : Bool) (id : ℕ) (x : Exchange) {r : Released × Exchange}
      → cancel_order uuid5 user permission id x ≡ ok r
      → (o : Order) × (get_order id x ≡ some o)
        × (cancel_locked_order uuid5 o x ≡ ok r)
        × (is_fillable_status o.status ≡ true)
        × (o.user ≡ user.id)
  unfolding cancel_order require_cancellable_order
  cancel_order-locked user permission id x h =
      let (a, p, h₁) = >>=-eq-ok (require permission _) _ h in
      let (b, q, h₂) = >>=-eq-ok (require user.is_verified _) _ h₁ in
      let (o, read, h₃) = >>=-eq-ok (or_raise (get_order id x) _) _ h₂ in
      let (c, owned, h₄) = >>=-eq-ok (require (o.user == user.id) _) _ h₃ in
      let (e, active, h₅) = >>=-eq-ok (require (is_fillable_status o.status) _) _ h₄ in
      (o, ground (arith, read), h₅, ground (arith, active), ground (arith, owned))

  -- An order that was cancelled cannot be cancelled again, by any user.
  pub cancel_order-once :
      (user again : Bank.User) (may may_again : Bool) (id : ℕ) (x : Exchange) (r : Released)
      (x' : Exchange) (r' : Released × Exchange)
      → cancel_order uuid5 user may id x ≡ ok (r, x')
      → ¬ (cancel_order uuid5 again may_again id x' ≡ ok r')
  unfolding get_order is_fillable_status
  cancel_order-once user again may may_again id x r x' r' h h' =
      let (o, read, locked, active, owned) = cancel_order-locked user may id x h in
      let (o', read', locked', active', owned') = cancel_order-locked again may_again id x' h' in
      let same : o.id ≡ id = get_order-id id x read in
      let read_by_id = subst (λ n. get_order n x ≡ some o) (sym same) read in
      let gone : Order = record o { status = cancelled } in
      let left =
        subst (λ n. get_order n x' ≡ some gone) same
          (cancel_locked_order-row o x r x' locked read_by_id) in
      let row = some-injective _ _ (sym left ∙ read') in
      let never : is_fillable_status cancelled ≡ true =
        subst (λ (q : Order). is_fillable_status q.status ≡ true) (sym row) active' in
      cc
