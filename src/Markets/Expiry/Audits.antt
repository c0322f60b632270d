-- ===== src/Markets/Expiry/Audits.antt =====
-- What an expiry leaves behind (markets/services/order_expiry_service.py).
use mathlib.Core.Option.{none-ne-some}
use leagueos_backend.Prelude.{
  ℕ, ◌≡◌, ◌⊎◌, sym, ap, ◌∙◌, subst, arith, true, ltb, ◌==◌, ==_refl, find, find-head, Option-cases,
  inl, inr, none, some, if◌then◌else◌, ◌∷◌, ok, >>=-eq-ok, ok-injective, or_raise, require,
}
use leagueos_backend.Wallets.Model as Bank
use leagueos_backend.Wallets.Ledger.{IsConsistent}
use leagueos_backend.Markets.Model.{
  Side, buy, sell, Order, OrderStatus, OrderExpiryAudit, ExpirySource, Exchange, Label,
  expiry_release,
}
use leagueos_backend.Markets.Orders.{
  get_order, save_order, side_eq, remaining, reserved_for, clean_order,
}
use leagueos_backend.Markets.Cancellation.{Released, release_funds, release_shares, released_shares}
use leagueos_backend.Markets.Cancellation.Releasing.{
  release_funds-IsFundsRelease, release_shares-IsSharesRelease,
}
use leagueos_backend.Markets.Cancellation.Final.{
  find-save_order, get_order-id, IsReleaseFrame, IsFundsRelease-frame, IsSharesRelease-frame,
}
use leagueos_backend.Markets.Expiry.{
  Expiry, validate_request, require_due_order, release_due_shares, expiry_audit, clean_audit,
  get_expiry, release_due, expire_locked_order, expire_order, is_due,
}

-- The check before the release of shares only refuses.
release_due_shares-release_shares :
    (o : Order) (x : Exchange) {r : Released × Exchange}
    → release_due_shares o x ≡ ok r
    → release_shares o x ≡ ok r
unfolding release_due_shares release_shares
release_due_shares-release_shares o x h = ground arith

expire_order-found :
    (uuid5 : ℕ → Label → ℕ) (now : ℕ) (r : Expiry) (x : Exchange) (o : Order) {a : OrderExpiryAudit}
    → get_order r.order_id x ≡ some o
    → get_expiry o.id x ≡ some a
    → expire_order uuid5 now r x ≡ ok (a, x)
unfolding expire_order
expire_order-found uuid5 now r x o read was = ground (arith, read, was)

-- The checks of an expiry that goes on.
due_of :
    (o : Order) (r : Expiry) (now : ℕ) {v : ExpirySource × Bank.Text}
    → validate_request o r ≡ ok v
    → require_due_order o now ≡ ok tt
    → is_due now o ≡ true
unfolding validate_request require_due_order is_due
due_of o r now valid due = ground arith

module _ (uuid5 : ℕ → Label → ℕ) (now : ℕ) where
  release_due-amounts :
      (o : Order) (x : Exchange) {r : Released} {x' : Exchange}
      → release_due uuid5 now o x ≡ ok (r, x')
      → (r.wallet_amount ≡ (if side_eq o.side buy then reserved_for o else 0))
        × (r.position_quantity ≡ (if side_eq o.side buy then 0 else remaining o))
  unfolding release_due side_eq released_shares
  release_due-amounts o x {r} {x'} h = go o.side h
    where
      go :
          (s : Side)
          → elim s [
            | buy ↦ release_funds (uuid5 o.id expiry_release) o x
            | sell ↦ release_due_shares o x
          ]
            ≡ ok (r, x')
          → (r.wallet_amount ≡ (if side_eq s buy then reserved_for o else 0))
            × (r.position_quantity ≡ (if side_eq s buy then 0 else remaining o))
      go buy q =
          let f = release_funds-IsFundsRelease (uuid5 o.id expiry_release) o x q in
          (f.amount, f.shares)
      go sell q =
          let f = release_shares-IsSharesRelease o x (release_due_shares-release_shares o x q) in
          (
            ap (λ (y : Released). y.wallet_amount) f.released,
            ap (λ (y : Released). y.position_quantity) f.released,
          )

  release_due-frame :
      (o : Order) (x : Exchange) {r : Released} {x' : Exchange}
      → release_due uuid5 now o x ≡ ok (r, x')
      → IsReleaseFrame x x'
  unfolding release_due
  release_due-frame o x {r} {x'} h = go o.side h
    where
      go :
          (s : Side)
          → elim s [
            | buy ↦ release_funds (uuid5 o.id expiry_release) o x
            | sell ↦ release_due_shares o x
          ]
            ≡ ok (r, x')
          → IsReleaseFrame x x'
      go buy q =
          IsFundsRelease-frame (uuid5 o.id expiry_release) o x
            (release_funds-IsFundsRelease _ o x q)
      go sell q =
          IsSharesRelease-frame o x
            (release_shares-IsSharesRelease o x (release_due_shares-release_shares o x q))

  -- An expiry that writes an audit: the order was due, and its row is closed.
  pub record IsExpired (o : Order) (r : Expiry) (x : Exchange) (a : OrderExpiryAudit)
      (x' : Exchange) : Type 0 where
    pub source : ExpirySource
    pub reason : Bank.Text
    pub released : Released
    pub middle : Exchange
    pub valid : validate_request o r ≡ ok (source, reason)
    pub due : require_due_order o now ≡ ok tt
    pub release : release_due uuid5 now o x ≡ ok (released, middle)
    pub audit : a ≡ expiry_audit o source reason r.actor released now
    pub saved : x' ≡ record middle {
      orders =
          save_order
            (record o { status = OrderStatus.expired; expired_at = some now })
            middle.orders;
      expiries = expiry_audit o source reason r.actor released now ∷ middle.expiries;
    }

  pub expire_locked_order-IsExpired :
      (o : Order) (r : Expiry) (x : Exchange) {a : OrderExpiryAudit} {x' : Exchange}
      → expire_locked_order uuid5 now o r x ≡ ok (a, x')
      → IsExpired o r x a x'
  unfolding expire_locked_order
  expire_locked_order-IsExpired o r x {a} {x'} h =
      let ((source, reason), valid, h₁) = >>=-eq-ok (validate_request o r) _ h in
      let (u, due, h₂) = >>=-eq-ok (require_due_order o now) _ h₁ in
      let (v, rest, h₃) = >>=-eq-ok (require (ltb 0 (remaining o)) _) _ h₂ in
      let ((released, y), release, h₄) = >>=-eq-ok (release_due uuid5 now o x) _ h₃ in
      let (w, clean, h₅) = >>=-eq-ok (clean_order _ y) _ h₄ in
      let (z, checked, h₆) =
        >>=-eq-ok (clean_audit (expiry_audit o source reason r.actor released now)) _ h₅ in
      let done = ok-injective h₆ in
      record {
        source = source;
        reason = reason;
        released = released;
        middle = y;
        valid = valid;
        due = due;
        release = release;
        audit = sym (ap (λ (t : OrderExpiryAudit × Exchange). t.0) done);
        saved = sym (ap (λ (t : OrderExpiryAudit × Exchange). t.1) done);
      }

  expire_order-cases :
      (r : Expiry) (x : Exchange) {a : OrderExpiryAudit} {x' : Exchange}
      → expire_order uuid5 now r x ≡ ok (a, x')
      → (o : Order) × (get_order r.order_id x ≡ some o)
        × (((get_expiry o.id x ≡ some a) × (x' ≡ x))
            ⊎ ((get_expiry o.id x ≡ none) × IsExpired o r x a x'))
  unfolding expire_order
  expire_order-cases r x {a} {x'} h =
      let (o, read, h₁) = >>=-eq-ok (or_raise (get_order r.order_id x) _) _ h in
      (
        o,
        ground (arith, read),
        elim (Option-cases (get_expiry o.id x)) [
          | inl new ↦ inr (new, expire_locked_order-IsExpired o r x (rw new at h₁))
          | inr (b, old) ↦
              let done = ok-injective (rw old at h₁) in
              inl (
                old ∙ ap some (ap (λ (t : OrderExpiryAudit × Exchange). t.0) done),
                sym (ap (λ (t : OrderExpiryAudit × Exchange). t.1) done),
              )
        ],
      )

  module _ (r : Expiry) (x : Exchange) (a : OrderExpiryAudit) (x' : Exchange)
      (h : expire_order uuid5 now r x ≡ ok (a, x')) where
    -- An expiry keeps a consistent wallet ledger consistent.
    pub expire_order-IsConsistent : IsConsistent x.bank → IsConsistent x'.bank
    expire_order-IsConsistent k = elim (expire_order-cases r x h).2 [
      | inl (old, same) ↦ subst (λ (y : Exchange). IsConsistent y.bank) (sym same) k
      | inr (new, d) ↦
          subst IsConsistent (sym (ap (λ (y : Exchange). y.bank) d.saved))
            ((release_due-frame _ x d.release).kept.ledger k)
    ]

    -- The row of the order after an expiry that wrote an audit.
    expire_order-row :
        (o : Order)
        → get_order r.order_id x ≡ some o
        → IsExpired o r x a x'
        → get_order r.order_id x'
          ≡ some (record o { status = OrderStatus.expired; expired_at = some now })
    unfolding get_order
    expire_order-row o read d =
        let same = get_order-id r.order_id x read in
        let gone : Order = record o { status = OrderStatus.expired; expired_at = some now } in
        let rows =
          ap (λ (y : Exchange). y.orders) d.saved
          ∙ ap (save_order gone) (release_due-frame o x d.release).orders in
        subst (λ n. find (λ q. q.id == n) x'.orders ≡ some gone) same
          (ap (find (λ q. q.id == o.id)) rows
            ∙ find-save_order gone x.orders
                (subst (λ n. find (λ q. q.id == n) x.orders ≡ some o) (sym same) read))

    -- An expiry that is asked for again, at any later time, with any source and reason, returns the
    -- same audit and changes nothing.
    pub expire_order-replay :
        (again : Expiry) (later : ℕ)
        → again.order_id ≡ r.order_id
        → expire_order uuid5 later again x' ≡ ok (a, x')
    unfolding get_expiry expiry_audit
    expire_order-replay again later same =
        let (o, read, rest) = expire_order-cases r x h in
        elim rest [
          | inl (old, unchanged) ↦
              expire_order-found uuid5 later again x' o (rw (unchanged, same) read)
                (rw unchanged old)
          | inr (new, d) ↦
              let audits = ap (λ (y : Exchange). get_expiry o.id y) d.saved in
              let head =
                find-head (λ (b : OrderExpiryAudit). b.market_order == o.id)
                  (expiry_audit o d.source d.reason r.actor d.released now) d.middle.expiries
                  (==_refl o.id) in
              let gone : Order = record o { status = OrderStatus.expired; expired_at = some now } in
              expire_order-found uuid5 later again x' gone (rw same (expire_order-row o read d))
                (audits ∙ head ∙ ap some (sym d.audit))
        ]

    -- An expiry that writes an audit is of a GTD order, open or partially filled, whose deadline has
    -- passed; the order is then expired at the time of the call, and the audit names its remaining
    -- quantity and, for a buy order, what that quantity reserved.
    pub expire_order-due :
        get_expiry r.order_id x ≡ none
        → (o : Order) × (get_order r.order_id x ≡ some o)
          × (is_due now o ≡ true)
          × (get_order r.order_id x'
              ≡ some (record o { status = OrderStatus.expired; expired_at = some now }))
          × (a.expired_quantity ≡ remaining o)
          × (a.released_wallet_reservation_amount
              ≡ (if side_eq o.side buy then reserved_for o else 0))
          × (a.released_position_reservation_quantity
              ≡ (if side_eq o.side buy then 0 else remaining o))
    unfolding expiry_audit
    expire_order-due new =
        let (o, read, rest) = expire_order-cases r x h in
        elim rest [
          | inl (old, unchanged) ↦
              let same = get_order-id r.order_id x read in
              absurd (none-ne-some _ (sym new ∙ subst (λ n. get_expiry n x ≡ some a) same old))
          | inr (fresh, d) ↦
              let amounts = release_due-amounts o x d.release in
              (
                o,
                read,
                due_of o r now d.valid d.due,
                expire_order-row o read d,
                ap (λ (b : OrderExpiryAudit). b.expired_quantity) d.audit,
                ap (λ (b : OrderExpiryAudit). b.released_wallet_reservation_amount) d.audit
                    ∙ amounts.0,
                ap (λ (b : OrderExpiryAudit). b.released_position_reservation_quantity) d.audit
                    ∙ amounts.1,
              )
        ]
