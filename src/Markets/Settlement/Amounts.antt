-- ===== src/Markets/Settlement/Amounts.antt =====
-- The amounts of a settlement (markets/services/settlement_service.py).
use leagueos_backend.Prelude.{
  ℕ, ◌+◌, ◌≤◌, ◌≡◌, refl, sym, ◌∙◌, arith, Bool, if◌then◌else◌, select, total, total-congr, List,
  [], ◌∷◌, length,
}
use leagueos_backend.Markets.Model.{Position}
use leagueos_backend.Markets.Money.{half_up}
use leagueos_backend.Markets.Money.Rounding.{calculate_fee-le}
use leagueos_backend.Markets.Fees.{Rates}
use leagueos_backend.Markets.Settlement.{
  payout_of, is_winner, position_payout, market_settlement_of,
}

-- A unit of a share pays one unit of money.
pub payout_of-same : (quantity : ℕ) → payout_of quantity ≡ quantity
unfolding payout_of half_up
payout_of-same quantity = omega arith

amounts_total :
    (winner : ℕ) (r : Rates) (ps : List Position)
    → total (λ p. (position_payout winner r p).amount) ps
      ≡ total (λ (p : Position). p.quantity) (select (is_winner winner) ps)
unfolding total select position_payout
amounts_total winner r [] = refl
amounts_total winner r (p ∷ ps) =
    let rest = amounts_total winner r ps in let here = payout_of-same p.quantity in ground arith

length-select : (f : Position → Bool) (ps : List Position) → length (select f ps) ≤ length ps
unfolding select
length-select f [] = omega arith
length-select f (p ∷ ps) = ground (arith, length-select f ps)

position_payout_split :
    (winner : ℕ) (r : Rates) (p : Position)
    → r.settlement ≤ 10_000
    → (position_payout winner r p).amount
      ≡ (position_payout winner r p).net + (position_payout winner r p).fee
unfolding position_payout
position_payout_split winner r p h =
    let amount = if is_winner winner p then payout_of p.quantity else 0 in
    let within = calculate_fee-le amount r.settlement h in omega arith

-- The totals of a settlement are the sums over its positions: the payout is what the positions are
-- paid, fees included, and the winning and the losing positions are all of them. At a settlement
-- fee of at most 10000 basis points, what a position is credited and its fee make up its payout.
pub market_settlement_of-totals :
    (id market winner actor : ℕ) (r : Rates) (ps : List Position)
    → r.settlement ≤ 10_000
    → let s = market_settlement_of id market winner ps actor in
      (s.total_payout_amount ≡ total (λ p. (position_payout winner r p).amount) ps)
      × (s.total_payout_amount
          ≡ total (λ p. (position_payout winner r p).net + (position_payout winner r p).fee) ps)
      × (s.total_payout_amount ≡ s.total_winning_quantity)
      × (s.winning_position_count + s.losing_position_count ≡ s.total_position_count)
unfolding market_settlement_of
market_settlement_of-totals id market winner actor r ps h =
    let quantity = total (λ (p : Position). p.quantity) (select (is_winner winner) ps) in
    let same = payout_of-same quantity in
    let sums = amounts_total winner r ps in
    let few = length-select (is_winner winner) ps in
    (
      same ∙ sym sums,
      same ∙ sym sums ∙ total-congr _ _ (λ p. position_payout_split winner r p h) ps,
      same,
      omega arith,
    )
