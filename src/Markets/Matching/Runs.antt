-- ===== src/Markets/Matching/Runs.antt =====
-- The matching loop (markets/services/matching_service.py) and the exchange.
use leagueos_backend.Prelude.{
  ℕ, ◌<◌, ◌≡◌, subst, true, Bool-cases, inl, inr, List, [], ◌∷◌, arith, ok, >>=-eq-ok, ok-injective,
  or_raise, if◌then◌else◌, ◌&&◌,
}
use leagueos_backend.Wallets.Ledger.{IsConsistent}
use leagueos_backend.Markets.Model.{one, buy, Order, Fill, Exchange, Label, missing_order}
use leagueos_backend.Markets.Orders.{get_order, side_eq, is_price}
use leagueos_backend.Markets.Fill.{
  Execution, require_order_sides, require_fillable_orders, require_matching_contract,
  require_distinct_users, require_valid_quantity, require_valid_execution_price,
}
use leagueos_backend.Markets.Execute.{execute_fill, check_orders}
use leagueos_backend.Markets.Execute.Banking.{execute_fill-IsConsistent}
use leagueos_backend.Markets.Matching.{
  is_fillable, is_within, is_eligible_maker, execution_of, match_makers, match_book,
  prioritize_makers, is_trading, can_start,
}

-- The fill that the loop asks for, between an order that can be filled and an eligible maker with a
-- price between 0 and 1, passes all the checks of the two orders.
pub check_orders-execution_of :
    (uuid5 : ℕ → Label → ℕ) (now : ℕ) (taker maker : Order)
    → is_fillable now taker ≡ true
    → is_eligible_maker now taker maker ≡ true
    → 0 < maker.limit_price
    → maker.limit_price < one
    → check_orders
        (execution_of uuid5 taker maker)
        (if side_eq taker.side buy then taker else maker)
        (if side_eq taker.side buy then maker else taker)
      ≡ ok tt
unfolding check_orders require_order_sides require_fillable_orders require_matching_contract
    require_distinct_users require_valid_quantity require_valid_execution_price is_price is_fillable
    is_eligible_maker is_within execution_of side_eq
check_orders-execution_of uuid5 now taker maker h k low high = ground arith

module _ {κ} (uuid5 : ℕ → Label → ℕ) (now id : ℕ) (P : Exchange → Type κ)
    (keep : (r : Execution) (x : Exchange) (f : Fill) (x' : Exchange)
      → P x
      → execute_fill uuid5 r now x ≡ ok (f, x')
      → P x') where
  -- What every fill keeps, the loop keeps.
  pub match_makers-keeps :
      (makers : List Order) (x : Exchange) {fs : List Fill} {x' : Exchange}
      → P x
      → match_makers uuid5 now id makers x ≡ ok (fs, x')
      → P x'
  unfolding match_makers
  match_makers-keeps [] x k h = subst (λ (y : List Fill × Exchange). P y.1) (ok-injective h) k
  match_makers-keeps (maker ∷ makers) x {fs} {x'} k h =
      let (taker, read, h₁) = >>=-eq-ok (or_raise (get_order id x) missing_order) _ h in
      elim (Bool-cases (is_fillable now taker)) [
        | inr full ↦ subst (λ (y : List Fill × Exchange). P y.1) (ok-injective (rw full at h₁)) k
        | inl open_taker ↦ elim (Bool-cases (is_eligible_maker now taker maker)) [
          | inr skipped ↦ match_makers-keeps makers x k (rw (open_taker, skipped) at h₁)
          | inl eligible ↦
              let ((f, y), filled, h₂) =
                >>=-eq-ok (execute_fill uuid5 (execution_of uuid5 taker maker) now x) _
                  (rw (open_taker, eligible) at h₁) in
              let ((gs, z), rest, h₃) = >>=-eq-ok (match_makers uuid5 now id makers y) _ h₂ in
              subst (λ (y : List Fill × Exchange). P y.1) (ok-injective h₃)
                (match_makers-keeps makers y (keep _ x f y k filled) rest)
        ]
      ]

module _ (uuid5 : ℕ → Label → ℕ) (now id : ℕ) where
  -- Matching an order against the book keeps a consistent wallet ledger consistent.
  pub match_book-IsConsistent :
      (x : Exchange) (fs : List Fill) (x' : Exchange)
      → IsConsistent x.bank
      → match_book uuid5 now id x ≡ ok (fs, x')
      → IsConsistent x'.bank
  unfolding match_book
  match_book-IsConsistent x fs x' k h =
      let (taker, read, h₁) = >>=-eq-ok (or_raise (get_order id x) missing_order) _ h in
      let makers = prioritize_makers now taker x in
      elim (Bool-cases
        (is_fillable now taker && is_trading now taker x && can_start taker makers x)) [
          | inl start ↦
              match_makers-keeps uuid5 now id (λ y. IsConsistent y.bank)
                (λ r y f z. execute_fill-IsConsistent uuid5 r now y f z) makers x k (rw start at h₁)
          | inr stop ↦
              subst (λ (y : List Fill × Exchange). IsConsistent y.1.bank)
                (ok-injective (rw stop at h₁)) k
        ]
