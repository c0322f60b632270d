-- ===== src/Markets/CloseCleanup/Totals.antt =====
-- The totals of a close cleanup (markets/services/close_cleanup_service.py).
use leagueos_backend.Prelude.{
  ℕ, ◌+◌, ◌≡◌, sym, ap, ◌∙◌, subst, arith, Bool, leb, ◌==◌, any, select, total, length,
  total-sort_by, length-sort_by, if◌then◌else◌, List, [], ◌∷◌, ok, >>=-eq-ok, ok-injective,
  raise_if,
}
use leagueos_backend.Markets.Model.{buy, Order, CloseCleanup, Exchange, Label}
use leagueos_backend.Markets.Orders.{side_eq, remaining, reserved_for}
use leagueos_backend.Markets.Cancellation.{Released, cancel_locked_order}
use leagueos_backend.Markets.Cancellation.Final.{cancel_locked_order-amounts}
use leagueos_backend.Markets.CloseCleanup.{
  Counters, no_counts, count_cancellation, is_outstanding, outstanding_orders, cancel_all,
  cleanup_of, cleanup_locked_market,
}

-- What an order counts for.
abbrev pub buys : Order → ℕ
buys o = if side_eq o.side buy then 1 else 0

abbrev pub sells : Order → ℕ
sells o = if side_eq o.side buy then 0 else 1

abbrev pub buy_reservation : Order → ℕ
buy_reservation o = if side_eq o.side buy then reserved_for o else 0

abbrev pub sell_reservation : Order → ℕ
sell_reservation o = if side_eq o.side buy then 0 else remaining o

from_none : {a b c : ℕ} → a ≡ 0 + b → b ≡ c → a ≡ c
from_none p q = omega arith

-- The counters after the loop, from what they were.
record IsCount (os : List Order) (c c' : Counters) : Type 0 where
  buy_count : c'.buy_count ≡ c.buy_count + total buys os
  sell_count : c'.sell_count ≡ c.sell_count + total sells os
  released_buy : c'.released_buy ≡ c.released_buy + total buy_reservation os
  released_sell : c'.released_sell ≡ c.released_sell + total sell_reservation os

module _ (uuid5 : ℕ → Label → ℕ) where
  cancel_all-IsCount :
      (os : List Order) (c : Counters) (x : Exchange) {rs : List (Order × Released)} {c' : Counters}
      {x' : Exchange}
      → cancel_all uuid5 os c x ≡ ok (rs, c', x')
      → IsCount os c c'
  unfolding cancel_all total count_cancellation
  cancel_all-IsCount [] c x q =
      subst (λ (y : List (Order × Released) × Counters × Exchange). IsCount [] c y.1)
        (ok-injective q)
        (record {
          buy_count = omega arith;
          sell_count = omega arith;
          released_buy = omega arith;
          released_sell = omega arith;
        })
  cancel_all-IsCount (o ∷ os) c x q =
      let ((r, y), first, q₁) = >>=-eq-ok (cancel_locked_order uuid5 o x) _ q in
      let ((rs, c', z), rest, q₂) =
        >>=-eq-ok (cancel_all uuid5 os (count_cancellation o r c) y) _ q₁ in
      let a = cancel_locked_order-amounts uuid5 o x r y first in
      let d = cancel_all-IsCount os (count_cancellation o r c) y rest in
      subst (λ (w : List (Order × Released) × Counters × Exchange). IsCount (o ∷ os) c w.1)
        (ok-injective q₂)
        (record {
          buy_count = ground (arith, d.buy_count);
          sell_count = ground (arith, d.sell_count);
          released_buy = ground (arith, d.released_buy, a);
          released_sell = ground (arith, d.released_sell, a);
        })

  -- The cleanup of a market counts every outstanding buy and sell order of the market once, and its
  -- released totals are the sums of what those orders reserved.
  pub cleanup_locked_market-totals :
      (market actor : ℕ) (x : Exchange) (cleanup : CloseCleanup) (x' : Exchange)
      → cleanup_locked_market uuid5 market actor x ≡ ok (cleanup, x')
      → let os = select (is_outstanding market) x.orders in
        (cleanup.total_cancelled_order_count ≡ length os)
        × (cleanup.cancelled_buy_order_count ≡ total buys os)
        × (cleanup.cancelled_sell_order_count ≡ total sells os)
        × (cleanup.total_released_buy_reservation_amount ≡ total buy_reservation os)
        × (cleanup.total_released_sell_reservation_quantity ≡ total sell_reservation os)
  unfolding cleanup_locked_market outstanding_orders cleanup_of
  cleanup_locked_market-totals market actor x cleanup x' h =
      let (u, new, h₁) =
        >>=-eq-ok (raise_if (any (λ (c : CloseCleanup). c.market == market) x.cleanups) _) _ h in
      let ((rs, c, y), all, h₂) =
        >>=-eq-ok (cancel_all uuid5 (outstanding_orders market x) no_counts x) _ h₁ in
      let d = cancel_all-IsCount (outstanding_orders market x) no_counts x all in
      let le : Order → Order → Bool = λ a b. leb a.id b.id in
      let os = select (is_outstanding market) x.orders in
      let row = sym (ap (λ (w : CloseCleanup × Exchange). w.0) (ok-injective h₂)) in
      (
        ap (λ (w : CloseCleanup). w.total_cancelled_order_count) row ∙ length-sort_by le os,
        ap (λ (w : CloseCleanup). w.cancelled_buy_order_count) row
            ∙ from_none d.buy_count (total-sort_by le buys os),
        ap (λ (w : CloseCleanup). w.cancelled_sell_order_count) row
            ∙ from_none d.sell_count (total-sort_by le sells os),
        ap (λ (w : CloseCleanup). w.total_released_buy_reservation_amount) row
            ∙ from_none d.released_buy (total-sort_by le buy_reservation os),
        ap (λ (w : CloseCleanup). w.total_released_sell_reservation_quantity) row
            ∙ from_none d.released_sell (total-sort_by le sell_reservation os),
      )
