-- ===== src/Markets/Fill/Settling.antt =====
-- The settlement of a buyer's reservation.
use native.Mathlib.Nat.{mul-le-mul, le_refl}
use leagueos_backend.Prelude.{ℕ, ◌+◌, ◌-◌, ◌*◌, ◌≤◌, ◌<◌, ◌≡◌, arith, subst, sym}
use leagueos_backend.Markets.Model.{Order}
use leagueos_backend.Markets.Money.{half_up, ceiling, notional, calculate_fee, reservation}
use leagueos_backend.Markets.Orders.{remaining, reserved_for, apply_fill_to_order}
use leagueos_backend.Markets.Fill.{calculate_buy_wallet_settlement}

-- More to buy never needs a smaller reservation.
pub reservation_mono : (r q limit bps : ℕ) → reservation r limit bps ≤ reservation (r + q) limit bps
unfolding reservation ceiling
reservation_mono r q limit bps = omega arith

notional_le : (q price : ℕ) → 100_000 * notional q price ≤ q * price + 50_000
unfolding notional half_up
notional_le q price = omega arith

calculate_fee_le : (g bps : ℕ) → 10_000 * calculate_fee g bps ≤ g * bps + 5000
unfolding calculate_fee half_up
calculate_fee_le g bps = omega arith

sum_le : {a b : ℕ} → a ≤ b → 10_000 + a ≤ 10_000 + b
sum_le h = omega arith

reservation_le :
    (r q limit bps : ℕ)
    → q * limit * (10_000 + bps) + 1_000_000_000 * reservation r limit bps
      < 1_000_000_000 * reservation (r + q) limit bps + 1_000_000_000
unfolding reservation ceiling
reservation_le r q limit bps = omega arith

-- In units of 10 ^ -13, what the buyer pays is at most the price and the fee, and 1.5 units of
-- 0.0001 for the two roundings.
actual_cost-le :
    (q price limit bps max_bps : ℕ)
    → price ≤ limit
    → bps ≤ max_bps
    → bps ≤ 10_000
    → 1_000_000_000 * (notional q price + calculate_fee (notional q price) bps)
      ≤ q * limit * (10_000 + max_bps) + 1_500_000_000
actual_cost-le q price limit bps max_bps hp hb hc =
    let g = notional_le q price in
    let f = calculate_fee_le (notional q price) bps in
    let gross = mul-le-mul g (le_refl bps) in
    let ceiling = mul-le-mul (mul-le-mul (le_refl q) hp) (sum_le hb) in omega arith

module _ (b : Order) (q price bps : ℕ) (fits : q ≤ remaining b) where
  -- What the buyer pays and gets back is what the reservation loses and what is added to it: the
  -- order's reserved funds stay those that its remaining quantity needs.
  pub settlement_balance :
      let s = calculate_buy_wallet_settlement b q price (calculate_fee (notional q price) bps) in
      s.actual_cost + s.price_improvement_release + reserved_for (apply_fill_to_order b q price)
      ≡ reserved_for b + s.reservation_rounding_top_up
  unfolding calculate_buy_wallet_settlement reserved_for apply_fill_to_order remaining
  settlement_balance =
      let r : ℕ = b.quantity - b.filled_quantity - q in
      let whole : b.quantity - b.filled_quantity ≡ r + q = omega arith in
      let rest : b.quantity - (b.filled_quantity + q) ≡ r = omega arith in
      let less =
        subst
          (λ n.
            reservation r b.limit_price b.maximum_fee_bps
            ≤ reservation n b.limit_price b.maximum_fee_bps)
          (sym whole) (reservation_mono r q b.limit_price b.maximum_fee_bps) in
      rw rest (omega arith)

  -- At a price within the order's limit, and a fee within its maximum, the reservation covers the
  -- fill up to rounding: at most two units of 0.0001 are added to it.
  pub top_up-le :
      price ≤ b.limit_price
      → bps ≤ b.maximum_fee_bps
      → bps ≤ 10_000
      → let s = calculate_buy_wallet_settlement b q price (calculate_fee (notional q price) bps) in
        s.reservation_rounding_top_up ≤ 2
  unfolding calculate_buy_wallet_settlement
  top_up-le hp hb hc =
      let r : ℕ = remaining b - q in
      let whole : remaining b ≡ r + q = omega arith in
      omega (
        arith,
        actual_cost-le q price b.limit_price bps b.maximum_fee_bps hp hb hc,
        subst
            (λ n.
              q * b.limit_price * (10_000 + b.maximum_fee_bps)
                + 1_000_000_000 * reservation r b.limit_price b.maximum_fee_bps
              < 1_000_000_000 * reservation n b.limit_price b.maximum_fee_bps + 1_000_000_000)
            (sym whole) (reservation_le r q b.limit_price b.maximum_fee_bps),
      )
