-- ===== src/Markets/Positions/Trades.antt =====
-- What purchases and sales keep of a position.
use native.Mathlib.Nat.{mul-le-mul, le_refl}
use leagueos_backend.Prelude.{ℕ, ◌+◌, ◌-◌, ◌*◌, ◌≤◌, ◌<◌, ◌≡◌, arith}
use leagueos_backend.Prelude.Int.{◌+ℤ◌, sub_ℕ}
use leagueos_backend.Markets.Model.{Position}
use leagueos_backend.Markets.Money.{half_up, notional}
use leagueos_backend.Markets.Money.Rounding.{half_up_bounds}
use leagueos_backend.Markets.Positions.{released_cost, apply_sell_to_position}

-- A sale of the whole position releases its whole cost.
half_up_exact : (c d : ℕ) → 0 < d → half_up (c * d) d ≡ c
half_up_exact c d h =
    let (low, high) = half_up_bounds c c (c * d) d h (le_refl _) (le_refl _) in omega arith

module _ (p : Position) (quantity price : ℕ) (positive : 0 < quantity)
    (held : quantity ≤ p.quantity) where
  -- A sale never releases more cost than the position carries.
  pub released_cost-le : released_cost p quantity ≤ p.total_cost
  unfolding released_cost
  released_cost-le =
      let scaled = mul-le-mul (le_refl p.total_cost) held in
      (half_up_bounds 0 p.total_cost _ p.quantity (omega arith) (omega arith) scaled).1

  released_cost-whole : quantity ≡ p.quantity → released_cost p quantity ≡ p.total_cost
  unfolding released_cost
  released_cost-whole e = rw e (half_up_exact p.total_cost p.quantity (omega arith))

  -- A sale of a quantity that is held and reserved takes it from both, splits the cost into the
  -- part released and the part that stays, and books the proceeds less the released part as profit.
  pub apply_sell_to_position_balance :
      quantity ≤ p.reserved_quantity
      → let p' = apply_sell_to_position p quantity price in
        (p'.quantity + quantity ≡ p.quantity)
        × (p'.reserved_quantity + quantity ≡ p.reserved_quantity)
        × (p'.total_cost + released_cost p quantity ≡ p.total_cost)
        × (p'.realized_pnl
            ≡ p.realized_pnl +ℤ sub_ℕ (notional quantity price) (released_cost p quantity))
  unfolding apply_sell_to_position
  apply_sell_to_position_balance reserved =
      let less = released_cost-le in
      let whole : p.quantity - quantity ≡ 0 → released_cost p quantity ≡ p.total_cost =
        λ z. released_cost-whole (omega arith) in
      ground arith
