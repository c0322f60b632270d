-- ===== src/Markets/Money/Rounding.antt =====
-- Bounds of the roundings, and of the amounts that are computed with them.
use leagueos_backend.Prelude.{ℕ, ◌+◌, ◌*◌, ◌≤◌, ◌<◌, ◌≡◌, arith, ap}
use native.Mathlib.Nat.{mul-le-mul, le_refl}
use native.Mathlib.Decide.{dec_le}
use leagueos_backend.Markets.Money.{
  half_up, ceiling, calculate_fee, reservation, calculate_buy_commitment,
}

-- The rounded quotient is within half a unit of the quotient, a tie going up.
pub half_up_nearest :
    (n d : ℕ)
    → 0 < d
    → (2 * d * half_up n d ≤ 2 * n + d) × (2 * n + d < 2 * d * half_up n d + 2 * d)
unfolding half_up
half_up_nearest n d h = grind arith

-- A quotient between two whole numbers is rounded to one between them.
pub half_up_bounds :
    (lo hi n d : ℕ) → 0 < d → lo * d ≤ n → n ≤ hi * d → (lo ≤ half_up n d) × (half_up n d ≤ hi)
half_up_bounds lo hi n d h p q =
    let (low, high) = half_up_nearest n d h in
    (
      elim (dec_le lo (half_up n d)) [ yes k ↦ k | no k ↦ absurd (below k low high) ],
      elim (dec_le (half_up n d) hi) [ yes k ↦ k | no k ↦ absurd (above k low high) ],
    )
  where
    below :
        ¬ (lo ≤ half_up n d)
        → (2 * d * half_up n d ≤ 2 * n + d)
        → (2 * n + d < 2 * d * half_up n d + 2 * d)
        → ⊥
    below k low high =
        let less : half_up n d + 1 ≤ lo = omega arith in
        let scaled = mul-le-mul (le_refl d) less in omega arith

    above :
        ¬ (half_up n d ≤ hi)
        → (2 * d * half_up n d ≤ 2 * n + d)
        → (2 * n + d < 2 * d * half_up n d + 2 * d)
        → ⊥
    above k low high =
        let more : hi + 1 ≤ half_up n d = omega arith in
        let scaled = mul-le-mul (le_refl d) more in omega arith

-- A fee of at most 10000 basis points is at most its amount.
pub calculate_fee-le :
    (amount rate_bps : ℕ) → rate_bps ≤ 10_000 → calculate_fee amount rate_bps ≤ amount
unfolding calculate_fee half_up
calculate_fee-le amount rate_bps h = let scaled = mul-le-mul (le_refl amount) h in omega arith

-- The commitment of a new buy order is the reservation for its whole quantity.
pub calculate_buy_commitment-eq-reservation :
    (quantity limit_price maximum_fee_bps : ℕ)
    → calculate_buy_commitment quantity limit_price maximum_fee_bps
      ≡ reservation quantity limit_price maximum_fee_bps
unfolding calculate_buy_commitment reservation
calculate_buy_commitment-eq-reservation q p b =
    ap (λ (n : ℕ). ceiling n 1_000_000_000) (omega arith)

pub ceiling_nearest : (n d : ℕ) → 0 < d → (n ≤ d * ceiling n d) × (d * ceiling n d < n + d)
unfolding ceiling
ceiling_nearest n d h = grind arith
