-- ===== src/Prelude/Sorting.antt =====
-- `queryset.order_by(...)[:limit]`: sorting by insertion and prefixes, and sums over rows.
use Prim.Native.Nat.{ℕ, zero, suc, ◌+◌}
use mathlib.Core.Path.{◌≡◌, refl, ap, ◌∙◌}
use mathlib.Core.Bool.{Bool}
use mathlib.Core.List.{List, [], ◌∷◌}
use native.Mathlib.Omega.{arith}
use leagueos_backend.Prelude.Tests.{if◌then◌else◌}
use leagueos_backend.Prelude.Lists.{any, length}

module _ {ℓ} {A : Type ℓ} where
  unfoldable pub take : ℕ → List A → List A
  take zero xs = []
  take (suc n) [] = []
  take (suc n) (x ∷ xs) = x ∷ take n xs

  -- The sum of a column.
  unfoldable pub total : (A → ℕ) → List A → ℕ
  total f [] = 0
  total f (x ∷ xs) = f x + total f xs

  pub total-congr : (f g : A → ℕ) → ((a : A) → f a ≡ g a) → (xs : List A) → total f xs ≡ total g xs
  unfolding total
  total-congr f g same [] = refl
  total-congr f g same (x ∷ xs) = ground (arith, same x, total-congr f g same xs)

  unfoldable pub insert_by : (A → A → Bool) → A → List A → List A
  insert_by le a [] = a ∷ []
  insert_by le a (b ∷ bs) = let rest = insert_by le a bs in if le a b then a ∷ b ∷ bs else b ∷ rest

  unfoldable pub sort_by : (A → A → Bool) → List A → List A
  sort_by le [] = []
  sort_by le (a ∷ rest) = insert_by le a (sort_by le rest)

  module _ (le : A → A → Bool) where
    total-insert_by :
        (f : A → ℕ) (a : A) (xs : List A) → total f (insert_by le a xs) ≡ f a + total f xs
    unfolding total insert_by
    total-insert_by f a [] = refl
    total-insert_by f a (x ∷ xs) = ground (arith, total-insert_by f a xs)

    -- Sorting keeps a sum.
    pub total-sort_by : (f : A → ℕ) (xs : List A) → total f (sort_by le xs) ≡ total f xs
    unfolding total sort_by
    total-sort_by f [] = refl
    total-sort_by f (x ∷ xs) =
        total-insert_by f x (sort_by le xs) ∙ ap (λ n. f x + n) (total-sort_by f xs)

    length-insert_by : (a : A) (xs : List A) → length (insert_by le a xs) ≡ suc (length xs)
    unfolding insert_by
    length-insert_by a [] = refl
    length-insert_by a (x ∷ xs) = ground (arith, length-insert_by a xs)

    pub length-sort_by : (xs : List A) → length (sort_by le xs) ≡ length xs
    unfolding sort_by
    length-sort_by [] = refl
    length-sort_by (x ∷ xs) =
        length-insert_by x (sort_by le xs) ∙ ap (λ n. suc n) (length-sort_by xs)

    any-insert_by :
        (p : A → Bool) (a : A) (xs : List A) → any p (insert_by le a xs) ≡ any p (a ∷ xs)
    unfolding any insert_by
    any-insert_by p a [] = refl
    any-insert_by p a (x ∷ xs) = ground (arith, any-insert_by p a xs)

    -- Sorting keeps the rows.
    pub any-sort_by : (p : A → Bool) (xs : List A) → any p (sort_by le xs) ≡ any p xs
    unfolding any sort_by
    any-sort_by p [] = refl
    any-sort_by p (x ∷ xs) = ground (arith, any-insert_by p x (sort_by le xs), any-sort_by p xs)
