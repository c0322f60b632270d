-- ===== src/Prelude/Lists.antt =====
-- Tables as lists of rows: search, and quantified rows.
use Prim.Native.Nat.{ℕ, suc}
use mathlib.Core.Path.{◌≡◌, subst}
use mathlib.Core.Bool.{Bool, true, false}
use mathlib.Core.Logic.{inl, inr}
use mathlib.Core.Option.{Option, none, some, none-ne-some, some-injective}
use mathlib.Core.List.{List, [], ◌∷◌}
use native.Mathlib.Omega.{arith}
use leagueos_backend.Prelude.Tests.{if◌then◌else◌, Bool-cases}

module _ {ℓ} {A : Type ℓ} where
  abbrev pub length : List A → ℕ
  length [] = 0
  length (x ∷ xs) = suc (length xs)

  -- `queryset.filter(p).first()`
  unfoldable pub find : (A → Bool) → List A → Option A
  find p [] = none
  find p (x ∷ xs) = if p x then some x else find p xs

  -- `queryset.filter(p)`
  unfoldable pub select : (A → Bool) → List A → List A
  select p [] = []
  select p (x ∷ xs) = if p x then x ∷ select p xs else select p xs

  -- `queryset.filter(p).exists()`
  unfoldable pub any : (A → Bool) → List A → Bool
  any p [] = false
  any p (x ∷ xs) = if p x then true else any p xs

  abbrev pub All {κ} : (A → Type κ) → List A → Type κ
  All P [] = Unit
  All P (x ∷ xs) = P x × All P xs

  pub find-holds : (p : A → Bool) (xs : List A) (a : A) → find p xs ≡ some a → p a ≡ true
  unfolding find
  find-holds p [] a h = cc
  find-holds p (x ∷ xs) a h = ground (arith, find-holds p xs a)

  pub find-head : (p : A → Bool) (x : A) (xs : List A) → p x ≡ true → find p (x ∷ xs) ≡ some x
  unfolding find
  find-head p x xs h = rw h

  -- An item of a list.
  pub data Among (a : A) : List A → Type ℓ where
    at_head : (xs : List A) → Among a (a ∷ xs)
    in_tail : (x : A) (xs : List A) → Among a xs → Among a (x ∷ xs)

  pub All-map {κ κ'} :
      {P : A → Type κ} {Q : A → Type κ'}
      → ((a : A) → P a → Q a)
      → (xs : List A) → All P xs
      → All Q xs
  All-map f [] ps = tt
  All-map f (x ∷ xs) (p, ps) = (f x p, All-map f xs ps)

  pub any-none : (p : A → Bool) (xs : List A) → any p xs ≡ false → All (λ a. p a ≡ false) xs
  unfolding any
  any-none p [] h = tt
  any-none p (x ∷ xs) h = elim (Bool-cases (p x)) [
    | inl here ↦ absurd (ground (arith, here))
    | inr other ↦ (other, any-none p xs (rw other at h))
  ]

  pub any-Among :
      (p : A → Bool) (xs : List A) → any p xs ≡ true → (a : A) × Among a xs × (p a ≡ true)
  unfolding any
  any-Among p [] h = absurd (cc)
  any-Among p (x ∷ xs) h = elim (Bool-cases (p x)) [
    | inl here ↦ (x, at_head xs, here)
    | inr other ↦
        let (a, among, holds) = any-Among p xs (rw other at h) in (a, in_tail x xs among, holds)
  ]

  pub find-All {κ} :
      (P : A → Type κ) (p : A → Bool) (xs : List A) {a : A} → All P xs → find p xs ≡ some a → P a
  unfolding find
  find-All P p [] all h = absurd (none-ne-some _ h)
  find-All P p (x ∷ xs) {a} all h = elim (Bool-cases (p x)) [
    | inl here ↦ subst P (some-injective _ _ (rw here at h)) all.0
    | inr later ↦ find-All P p xs all.1 (rw later at h)
  ]

  pub select-keep :
      (p : A → Bool) (x : A) (xs : List A) → p x ≡ true → select p (x ∷ xs) ≡ x ∷ select p xs
  unfolding select
  select-keep p x xs h = rw h

  pub select-drop :
      (p : A → Bool) (x : A) (xs : List A) → p x ≡ false → select p (x ∷ xs) ≡ select p xs
  unfolding select
  select-drop p x xs h = rw h
