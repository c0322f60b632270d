-- ===== src/Markets/Complements/Prices.antt =====
-- What the two buyers of an issue pay (markets/services/complementary_matching_service.py).
use leagueos_backend.Prelude.{ℕ, ◌+◌, ◌-◌, ◌*◌, ◌≤◌, ◌≡◌, arith, ap}
use native.Mathlib.Nat.{mul-add}
use leagueos_backend.Markets.Model.{one, Order, FeeType}
use leagueos_backend.Markets.Money.{notional, calculate_fee}
use leagueos_backend.Markets.Money.Rounding.{half_up_nearest}
use leagueos_backend.Markets.Fees.{Rates}
use leagueos_backend.Markets.Fill.{calculate_buy_wallet_settlement}
use leagueos_backend.Markets.Execute.{rate_for}
use leagueos_backend.Markets.Complements.{Leg, leg_settlement, complement_price}

-- The values at a price and at the rest of 1 add up to the quantity, up to one unit of rounding.
pub notional_complement :
    (quantity price : ℕ)
    → price ≤ one
    → (quantity ≤ notional quantity price + notional quantity (one - price))
      × (notional quantity price + notional quantity (one - price) ≤ quantity + 1)
unfolding notional
notional_complement quantity price h =
    let (a, b) = half_up_nearest (quantity * price) 100_000 (omega arith) in
    let (c, d) = half_up_nearest (quantity * (one - price)) 100_000 (omega arith) in
    let split = mul-add quantity price (one - price) in
    let rest : price + (one - price) ≡ one = omega arith in
    let whole : quantity * (price + (one - price)) ≡ quantity * one = ap (λ n. quantity * n) rest in
    (omega arith, omega arith)

abbrev pub maker_leg : Order → Leg
maker_leg maker = record { order = maker; price = maker.limit_price; role = FeeType.maker }

abbrev pub taker_leg : Order → Order → Leg
taker_leg taker maker = record {
  order = taker;
  price = complement_price maker;
  role = FeeType.taker;
}

-- The two buyers of an issue, at a maker's price of at most 1, pay together, with their fees, at
-- least its quantity, which is its collateral, and at most one unit of 0.0001 more beside the fees.
pub leg_settlement-covers :
    (taker maker : Order) (quantity : ℕ) (r : Rates)
    → maker.limit_price ≤ one
    → let m = leg_settlement (maker_leg maker) quantity r in
      let t = leg_settlement (taker_leg taker maker) quantity r in
      let fees =
        calculate_fee (notional quantity maker.limit_price) r.maker
        + calculate_fee (notional quantity (one - maker.limit_price)) r.taker in
      (quantity + fees ≤ m.actual_cost + t.actual_cost)
      × (m.actual_cost + t.actual_cost ≤ quantity + fees + 1)
unfolding leg_settlement calculate_buy_wallet_settlement rate_for complement_price
leg_settlement-covers taker maker quantity r h =
    let (low, high) = notional_complement quantity maker.limit_price h in (omega arith, omega arith)
