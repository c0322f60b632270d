-- ===== src/Markets/Matching/Priority.antt =====
-- The order of the makers of `match_order` (markets/services/matching_service.py).
use leagueos_backend.Prelude.{
  ℕ, ◌+◌, ◌<◌, ◌≤◌, ◌≡◌, ◌⊎◌, refl, ap, ◌∙◌, ltb, total, All-map, Bool, true, false, not, ◌&&◌,
  Bool-cases, inl, inr, List, [], ◌∷◌, All, select, arith, ◌==◌,
}
use leagueos_backend.Markets.Model.{Side, buy, sell, Order, Exchange}
use leagueos_backend.Markets.Orders.{side_eq}
use leagueos_backend.Markets.Matching.{
  is_better_price, is_older, has_priority, insert_maker, sort_makers, is_eligible_maker,
  prioritize_makers,
}

-- The better of two prices for the taker: a seller wants the higher one, a buyer the lower one.
abbrev pub BetterPrice : Side → ℕ → ℕ → Type 0
BetterPrice sell a b = b < a
BetterPrice buy a b = a < b

abbrev pub IsOlder : Order → Order → Type 0
IsOlder a b = (a.created_at < b.created_at) ⊎ ((a.created_at ≡ b.created_at) × (a.id ≤ b.id))

-- Price before time.
abbrev pub Precedes : Side → Order → Order → Type 0
Precedes side a b =
    BetterPrice side a.limit_price b.limit_price ⊎ ((a.limit_price ≡ b.limit_price) × IsOlder a b)

abbrev pub IsSorted : Side → List Order → Type 0
IsSorted side [] = Unit
IsSorted side (o ∷ os) = All (Precedes side o) os × IsSorted side os

-- Every maker has the code's priority over those behind it.
abbrev HasPriorities : Order → List Order → Type 0
HasPriorities taker [] = Unit
HasPriorities taker (o ∷ os) = All (λ p. has_priority taker o p ≡ true) os × HasPriorities taker os

is_older-IsOlder : (a b : Order) → is_older a b ≡ true → IsOlder a b
unfolding is_older
is_older-IsOlder a b h = elim (Bool-cases (ltb a.created_at b.created_at)) [
  | inl before ↦ inl (ground arith)
  | inr same ↦ inr (ground arith, ground arith)
]

is_better_price-BetterPrice :
    (taker : Order) (side : Side) (a b : Order)
    → taker.side ≡ side
    → is_better_price taker a b ≡ true
    → BetterPrice side a.limit_price b.limit_price
unfolding is_better_price side_eq
is_better_price-BetterPrice taker sell a b q h = ground (arith, q)
is_better_price-BetterPrice taker buy a b q h = ground (arith, q)

has_priority-Precedes :
    (taker a b : Order) → has_priority taker a b ≡ true → Precedes taker.side a b
unfolding has_priority
has_priority-Precedes taker a b h = elim (Bool-cases (is_better_price taker a b)) [
  | inl better ↦ inl (is_better_price-BetterPrice taker taker.side a b refl better)
  | inr even ↦ inr (ground arith, is_older-IsOlder a b (ground arith))
]

HasPriorities-IsSorted :
    (taker : Order) (os : List Order) → HasPriorities taker os → IsSorted taker.side os
HasPriorities-IsSorted taker [] h = tt
HasPriorities-IsSorted taker (o ∷ os) (ps, h) =
    (All-map (has_priority-Precedes taker o) os ps, HasPriorities-IsSorted taker os h)

module _ (taker : Order) where
  has_priority_trans :
      (a b c : Order)
      → has_priority taker a b ≡ true
      → has_priority taker b c ≡ true
      → has_priority taker a c ≡ true
  unfolding has_priority is_better_price is_older
  has_priority_trans a b c p q = elim (Bool-cases (side_eq taker.side sell)) [
    | inl s ↦ ground arith
    | inr s ↦ ground arith
  ]

  has_priority_total :
      (a b : Order) → has_priority taker a b ≡ false → has_priority taker b a ≡ true
  unfolding has_priority is_better_price is_older
  has_priority_total a b p = elim (Bool-cases (side_eq taker.side sell)) [
    | inl s ↦ ground arith
    | inr s ↦ ground arith
  ]

  All-trans :
      (a b : Order) (os : List Order)
      → has_priority taker a b ≡ true
      → All (λ p. has_priority taker b p ≡ true) os
      → All (λ p. has_priority taker a p ≡ true) os
  All-trans a b [] h ps = tt
  All-trans a b (o ∷ os) h (p, ps) = (has_priority_trans a b o h p, All-trans a b os h ps)

  insert_maker-All {κ} :
      (P : Order → Type κ) (o : Order) (os : List Order)
      → P o
      → All P os
      → All P (insert_maker taker o os)
  unfolding insert_maker
  insert_maker-All P o [] h ps = (h, tt)
  insert_maker-All P o (p ∷ os) h (q, ps) = elim (Bool-cases (has_priority taker o p)) [
    | inl first ↦ rw first (h, (q, ps))
    | inr later ↦ rw later (q, insert_maker-All P o os h ps)
  ]

  insert_maker-HasPriorities :
      (o : Order) (os : List Order)
      → HasPriorities taker os
      → HasPriorities taker (insert_maker taker o os)
  unfolding insert_maker
  insert_maker-HasPriorities o [] s = (tt, tt)
  insert_maker-HasPriorities o (p ∷ os) (ps, s) = elim (Bool-cases (has_priority taker o p)) [
    | inl first ↦ rw first ((first, All-trans o p os first ps), (ps, s))
    | inr later ↦ rw later (
      insert_maker-All (λ q. has_priority taker p q ≡ true) o os (has_priority_total o p later) ps,
      insert_maker-HasPriorities o os s,
    )
  ]

  sort_makers-HasPriorities : (os : List Order) → HasPriorities taker (sort_makers taker os)
  unfolding sort_makers
  sort_makers-HasPriorities [] = tt
  sort_makers-HasPriorities (o ∷ os) =
      insert_maker-HasPriorities o (sort_makers taker os) (sort_makers-HasPriorities os)

  sort_makers-All {κ} :
      (P : Order → Type κ) (os : List Order) → All P os → All P (sort_makers taker os)
  unfolding sort_makers
  sort_makers-All P [] ps = tt
  sort_makers-All P (o ∷ os) (p, ps) =
      insert_maker-All P o (sort_makers taker os) p (sort_makers-All P os ps)

  total-insert_maker :
      (f : Order → ℕ) (o : Order) (os : List Order)
      → total f (insert_maker taker o os) ≡ f o + total f os
  unfolding insert_maker total
  total-insert_maker f o [] = refl
  total-insert_maker f o (p ∷ os) = ground (arith, total-insert_maker f o os)

  total-sort_makers :
      (f : Order → ℕ) (os : List Order) → total f (sort_makers taker os) ≡ total f os
  unfolding sort_makers total
  total-sort_makers f [] = refl
  total-sort_makers f (o ∷ os) =
      total-insert_maker f o (sort_makers taker os) ∙ ap (λ n. f o + n) (total-sort_makers f os)

select-All {ℓ} : {A : Type ℓ} (p : A → Bool) (xs : List A) → All (λ x. p x ≡ true) (select p xs)
unfolding select
select-All p [] = tt
select-All p (x ∷ xs) = elim (Bool-cases (p x)) [
  | inl kept ↦ rw kept (kept, select-All p xs)
  | inr left ↦ rw left (select-All p xs)
]

-- The makers that the loop visits are sorted by price and then by time: of two of them the first has
-- the better price for the taker, the higher one for a seller and the lower one for a buyer, or the
-- same price and the earlier creation, or the same of both and the smaller key. All of them are
-- eligible and not the taker, and every such order of the table is visited as often as it is stored,
-- so that any sum over them is the same.
pub prioritize_makers-IsSorted :
    (now : ℕ) (taker : Order) (x : Exchange) (f : Order → ℕ)
    → IsSorted taker.side (prioritize_makers now taker x)
      × All
          (λ o. is_eligible_maker now taker o && not (o.id == taker.id) ≡ true)
          (prioritize_makers now taker x)
      × (total f (prioritize_makers now taker x)
          ≡ total f
              (select (λ o. is_eligible_maker now taker o && not (o.id == taker.id)) x.orders))
unfolding prioritize_makers
prioritize_makers-IsSorted now taker x f =
    let eligible = select (λ o. is_eligible_maker now taker o && not (o.id == taker.id)) x.orders in
    (
      HasPriorities-IsSorted taker _ (sort_makers-HasPriorities taker eligible),
      sort_makers-All taker _ eligible (select-All _ x.orders),
      total-sort_makers taker f eligible,
    )
