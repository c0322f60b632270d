-- ===== src/Markets/Orders/Filling.antt =====
-- What a fill keeps of an order.
use native.Mathlib.Nat.{mul-le-mul, le_refl}
use leagueos_backend.Prelude.{ℕ, ◌+◌, ◌*◌, ◌≤◌, ◌<◌, ◌≡◌, ◌↔◌, true, Option, none, some, arith}
use leagueos_backend.Markets.Model.{one, filled, Order}
use leagueos_backend.Markets.Money.Rounding.{half_up_bounds}
use leagueos_backend.Markets.Orders.{
  is_fillable_status, remaining, previous_average, apply_fill_to_order,
}

-- An order without fills has no average price, and one with fills a price between 0 and 1.
abbrev pub HasAverage : ℕ → Option ℕ → Type 0
HasAverage n none = n ≡ 0
HasAverage n (some a) = (0 < a) × (a < one)

pub record IsValid (o : Order) : Type 0 where
  pub positive : 0 < o.quantity
  pub within : o.filled_quantity ≤ o.quantity
  pub average : HasAverage o.filled_quantity o.average_fill_price
  pub fillable : is_fillable_status o.status ≡ true → o.filled_quantity < o.quantity

-- The weighted total lies between the total quantity at the lowest and at the highest price.
weighted_bounds :
    (n q price : ℕ) (a : Option ℕ)
    → HasAverage n a
    → 0 < price
    → price < one
    → let w = n * (elim a [ none ↦ 0 | some p ↦ p ]) + q * price in
      (1 * (n + q) ≤ w) × (w ≤ 99_999 * (n + q))
weighted_bounds n q price none h p1 p2 =
    let low = mul-le-mul (le_refl q) p1 in
    let high : q * price ≤ q * 99_999 = mul-le-mul (le_refl q) (omega arith) in rw h (omega arith)
weighted_bounds n q price (some a) (a1, a2) p1 p2 =
    let low = mul-le-mul (le_refl q) p1 in
    let high : q * price ≤ q * 99_999 = mul-le-mul (le_refl q) (omega arith) in
    let low' = mul-le-mul (le_refl n) a1 in
    let high' : n * a ≤ n * 99_999 = mul-le-mul (le_refl n) (omega arith) in omega arith

module _ (o : Order) (quantity price : ℕ) (v : IsValid o) (positive : 0 < quantity)
    (fits : quantity ≤ remaining o) (low : 0 < price) (high : price < one) where
  -- A fill of a positive quantity within the remaining one, at a price between 0 and 1, keeps a
  -- valid order valid, takes its quantity off the
  -- remaining one, and closes the order exactly when nothing remains.
  pub apply_fill_to_order-IsValid :
      let o' = apply_fill_to_order o quantity price in
      IsValid o'
      × (remaining o' + quantity ≡ remaining o)
      × ((o'.status ≡ filled) ↔ (remaining o' ≡ 0))
  unfolding apply_fill_to_order remaining previous_average is_fillable_status
  apply_fill_to_order-IsValid =
      let n = o.filled_quantity in
      let (w1, w2) = weighted_bounds n quantity price o.average_fill_price v.average low high in
      let (a1, a2) = half_up_bounds 1 99_999 _ (n + quantity) (omega arith) w1 w2 in
      (
        record {
          positive = v.positive;
          within = omega arith;
          average = (a1, omega arith);
          fillable = ground arith;
        },
        omega arith,
        (ground arith, ground arith),
      )
