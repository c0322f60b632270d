-- ===== src/Markets/CloseCleanup/Cleared.antt =====
-- The orders of a market after its close cleanup (markets/services/close_cleanup_service.py).
use leagueos_backend.Prelude.{
  ℕ, ◌≡◌, refl, ap, sym, ◌∙◌, subst, arith, Bool, false, leb, ◌==◌, any, select, any-sort_by, List,
  [], ◌∷◌, ok, >>=-eq-ok, ok-injective, raise_if,
}
use leagueos_backend.Prelude.Sweeps.{any-select, Covers, Covers-listed, Covers-save, Covers-none}
use leagueos_backend.Markets.Frame.{IsKept, IsKept-refl, IsKept-trans, outside, outside-IsKept}
use leagueos_backend.Markets.Model.{Order, cancelled, CloseCleanup, Exchange, Label}
use leagueos_backend.Markets.Orders.{save_order, is_fillable_status}
use leagueos_backend.Markets.Cancellation.{Released, cancel_locked_order}
use leagueos_backend.Markets.Cancellation.Final.{
  cancel_locked_order-orders, cancel_locked_order-IsKept,
}
use leagueos_backend.Markets.CloseCleanup.{
  Counters, no_counts, count_cancellation, is_outstanding, outstanding_orders, cancel_all,
  cleanup_locked_market,
}

abbrev order_key : Order → ℕ
order_key o = o.id

outstanding_orders-cover :
    (market : ℕ) (x : Exchange)
    → Covers order_key (is_outstanding market) (outstanding_orders market x) x.orders
unfolding outstanding_orders
outstanding_orders-cover market x = Covers-listed order_key (is_outstanding market) _ x.orders (λ k.
    let p : Order → Bool = λ o. o.id == k in
    let le : Order → Order → Bool = λ a b. leb a.id b.id in
    any-sort_by le p (select (is_outstanding market) x.orders)
    ∙ any-select (is_outstanding market) p x.orders)

module _ (uuid5 : ℕ → Label → ℕ) (market : ℕ) where
  cancel_all-Covers :
      (os : List Order) (c : Counters) (x : Exchange) {rs : List (Order × Released)} {c' : Counters}
      {x' : Exchange}
      → Covers order_key (is_outstanding market) os x.orders
      → cancel_all uuid5 os c x ≡ ok (rs, c', x')
      → any (is_outstanding market) x'.orders ≡ false
  unfolding cancel_all save_order is_outstanding is_fillable_status
  cancel_all-Covers [] c x h q =
      subst
        (λ (y : List (Order × Released) × Counters × Exchange).
          any (is_outstanding market) y.2.orders ≡ false)
        (ok-injective q) (Covers-none order_key (is_outstanding market) x.orders h)
  cancel_all-Covers (o ∷ os) c x h q =
      let ((r, y), first, q₁) = >>=-eq-ok (cancel_locked_order uuid5 o x) _ q in
      let ((rs, c', z), rest, q₂) =
        >>=-eq-ok (cancel_all uuid5 os (count_cancellation o r c) y) _ q₁ in
      let h' =
        subst (Covers order_key (is_outstanding market) os)
          (sym (cancel_locked_order-orders uuid5 o x r y first))
          (Covers-save order_key (is_outstanding market) o (record o { status = cancelled }) os
            x.orders refl (ground arith) h) in
      subst
        (λ (w : List (Order × Released) × Counters × Exchange).
          any (is_outstanding market) w.2.orders ≡ false)
        (ok-injective q₂) (cancel_all-Covers os _ y h' rest)

  cancel_all-IsKept :
      (os : List Order) (c : Counters) (x : Exchange) {rs : List (Order × Released)} {c' : Counters}
      {x' : Exchange}
      → cancel_all uuid5 os c x ≡ ok (rs, c', x')
      → IsKept x x'
  unfolding cancel_all
  cancel_all-IsKept [] c x q =
      subst (λ (y : List (Order × Released) × Counters × Exchange). IsKept x y.2) (ok-injective q)
        (IsKept-refl {x = x})
  cancel_all-IsKept (o ∷ os) c x q =
      let ((r, y), first, q₁) = >>=-eq-ok (cancel_locked_order uuid5 o x) _ q in
      let ((rs, c', z), rest, q₂) =
        >>=-eq-ok (cancel_all uuid5 os (count_cancellation o r c) y) _ q₁ in
      let k =
        IsKept-trans (cancel_locked_order-IsKept uuid5 o x r y first)
          (cancel_all-IsKept os _ y rest) in
      subst (λ (w : List (Order × Released) × Counters × Exchange). IsKept x w.2) (ok-injective q₂)
        k

  module _ (actor : ℕ) (x : Exchange) (cleanup : CloseCleanup) (x' : Exchange)
      (h : cleanup_locked_market uuid5 market actor x ≡ ok (cleanup, x')) where
    -- After the cleanup of a market none of its orders is open or partially filled.
    pub cleanup_locked_market-cleared : any (is_outstanding market) x'.orders ≡ false
    unfolding cleanup_locked_market outstanding_orders
    cleanup_locked_market-cleared =
        let (u, new, h₁) =
          >>=-eq-ok (raise_if (any (λ (c : CloseCleanup). c.market == market) x.cleanups) _) _ h in
        let ((rs, c, y), all, h₂) =
          >>=-eq-ok (cancel_all uuid5 (outstanding_orders market x) no_counts x) _ h₁ in
        subst (λ (w : CloseCleanup × Exchange). any (is_outstanding market) w.1.orders ≡ false)
          (ok-injective h₂)
          (cancel_all-Covers (outstanding_orders market x) no_counts x
            (outstanding_orders-cover market x) all)

    -- The cleanup of a market keeps the markets and a consistent wallet ledger.
    pub cleanup_locked_market-IsKept : IsKept x x'
    unfolding cleanup_locked_market
    cleanup_locked_market-IsKept =
        let (u, new, h₁) =
          >>=-eq-ok (raise_if (any (λ (c : CloseCleanup). c.market == market) x.cleanups) _) _ h in
        let ((rs, c, y), all, h₂) =
          >>=-eq-ok (cancel_all uuid5 (outstanding_orders market x) no_counts x) _ h₁ in
        let done = ok-injective h₂ in
        IsKept-trans (cancel_all-IsKept _ no_counts x all)
          (outside-IsKept (sym (ap (λ (w : CloseCleanup × Exchange). outside w.1) done)))
