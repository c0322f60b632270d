-- ===== src/Markets/Money.antt =====
-- Decimal rounding: `quantize` with ROUND_HALF_UP and ROUND_CEILING, and the amounts that the
-- services round. Every decimal is exact until it is quantized: the operands fit their columns, so
-- the products have fewer than the 28 digits of the default context, and a quotient is rounded to
-- 28 digits well before two decimals of its kind can be confused.
pub mod Rounding
use leagueos_backend.Prelude.{ℕ, zero, suc, ◌+◌, ◌-◌, ◌*◌, ◌/◌, ◌≤◌, ◌<◌, ◌≡◌, arith}
use leagueos_backend.Prelude.Int.{ℤ, pos, negsuc}

-- n / d rounded to a whole number, a tie going up.
unfoldable pub half_up : ℕ → ℕ → ℕ
half_up n d = (2 * n + d) / (2 * d)

-- n / d rounded up.
unfoldable pub ceiling : ℕ → ℕ → ℕ
ceiling n d = (n + d - 1) / d

unfoldable pub negate : ℕ → ℤ
negate zero = pos 0
negate (suc k) = negsuc k

-- A signed n / d, a tie going away from zero.
unfoldable pub half_up_signed : ℤ → ℕ → ℤ
unfolding half_up negate
half_up_signed (pos n) d = pos (half_up n d)
half_up_signed (negsuc n) d = negate (half_up (n + 1) d)

-- `_quantize_money(quantity * price)`
unfoldable pub notional : ℕ → ℕ → ℕ
unfolding half_up
notional quantity price = half_up (quantity * price) 100_000

-- `calculate_fee`
unfoldable pub calculate_fee : ℕ → ℕ → ℕ
unfolding half_up
calculate_fee amount rate_bps = half_up (amount * rate_bps) 10_000

-- `_quantize_reservation(remaining * limit_price * (1 + maximum_fee_bps / 10000))`
unfoldable pub reservation : ℕ → ℕ → ℕ → ℕ
unfolding ceiling
reservation remaining limit_price maximum_fee_bps =
    ceiling (remaining * limit_price * (10_000 + maximum_fee_bps)) 1_000_000_000

-- `calculate_buy_commitment`
unfoldable pub calculate_buy_commitment : ℕ → ℕ → ℕ → ℕ
unfolding ceiling
calculate_buy_commitment quantity limit_price maximum_fee_bps =
    let value = quantity * limit_price in
    ceiling (value * 10_000 + value * maximum_fee_bps) 1_000_000_000
