-- ===== src/Markets/Expiry/Runs.antt =====
-- The run over the due orders (markets/services/order_expiry_service.py).
use leagueos_backend.Prelude.{
  ℕ, ◌≡◌, refl, Result, ok, err, List, [], ◌∷◌, ltb, ◌||◌, Bool-cases, inl, inr,
}
use leagueos_backend.Wallets.Ledger.{IsConsistent}
use leagueos_backend.Markets.Model.{OrderExpiryAudit, Exchange, Label, Error}
use leagueos_backend.Markets.Expiry.{
  system_expiry, expire_order, expire_all, due_ids, expire_due_orders,
}
use leagueos_backend.Markets.Expiry.Audits.{expire_order-IsConsistent}

module _ (uuid5 : ℕ → Label → ℕ) (now : ℕ) where
  expire_all-IsConsistent :
      (ids : List ℕ) (x : Exchange)
      → IsConsistent x.bank
      → IsConsistent (expire_all uuid5 now ids x).1.bank
  unfolding expire_all
  expire_all-IsConsistent [] x k = k
  expire_all-IsConsistent (id ∷ ids) x k =
      go (expire_order uuid5 now (system_expiry id) x) refl
        (λ y later. expire_all-IsConsistent ids y later)
    where
      go :
          (m : Result Error (OrderExpiryAudit × Exchange))
          → expire_order uuid5 now (system_expiry id) x ≡ m
          → ((y : Exchange)
              → IsConsistent y.bank
              → IsConsistent (expire_all uuid5 now ids y).1.bank)
          → IsConsistent (expire_all uuid5 now (id ∷ ids) x).1.bank
      go (err e) q later = rw (q, expire_all) k
      go (ok (a, y)) q later =
          rw (q, expire_all) (later y (expire_order-IsConsistent uuid5 now _ x a y q k))

  -- A run over the due orders keeps a consistent wallet ledger consistent, also when one of the
  -- orders raises an error and the run stops there.
  pub expire_due_orders-IsConsistent :
      (limit : ℕ) (x : Exchange)
      → IsConsistent x.bank
      → IsConsistent (expire_due_orders uuid5 now limit x).1.bank
  unfolding expire_due_orders
  expire_due_orders-IsConsistent limit x k = elim (Bool-cases (ltb limit 1 || ltb 1_000 limit)) [
    | inl refused ↦ rw refused k
    | inr allowed ↦ rw allowed (expire_all-IsConsistent (due_ids now limit x) x k)
  ]
