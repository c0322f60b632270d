-- ===== src/Prelude/Sweeps.antt =====
-- A sweep over a table: the rows of a kind are listed, and each of them is saved as a row that is not
-- of the kind. What is swept in the end is shown by the rows that are still listed.
use Prim.Native.Nat.{ℕ}
use mathlib.Core.Path.{◌≡◌, refl, ◌∙◌}
use mathlib.Core.Bool.{Bool, true, false, ◌&&◌}
use mathlib.Core.Logic.{inl, inr}
use mathlib.Core.List.{List, [], ◌∷◌, map}
use native.Mathlib.Omega.{arith}
use leagueos_backend.Prelude.Tests.{if◌then◌else◌, ◌==◌, ==_refl, Bool-cases}
use leagueos_backend.Prelude.Lists.{any, select, All}

module _ {ℓ} {A : Type ℓ} where
  -- A row of a selection is a row that is selected.
  pub any-select : (p f : A → Bool) (xs : List A) → any f (select p xs) ≡ any (λ a. p a && f a) xs
  unfolding any select
  any-select p f [] = refl
  any-select p f (x ∷ xs) = elim (Bool-cases (p x)) [
    | inl kept ↦ rw (kept, select, any) (ground (arith, any-select p f xs))
    | inr dropped ↦ rw (dropped, select, any) (any-select p f xs)
  ]

  pub any-congr : (f g : A → Bool) → ((a : A) → f a ≡ g a) → (xs : List A) → any f xs ≡ any g xs
  unfolding any
  any-congr f g same [] = refl
  any-congr f g same (x ∷ xs) = ground (arith, same x, any-congr f g same xs)

module _ {ℓ} {A : Type ℓ} (key : A → ℕ) (bad : A → Bool) where
  abbrev pub has_key : ℕ → List A → Bool
  has_key k os = any (λ o. key o == k) os

  -- Every row of the kind is listed.
  abbrev pub Covers : List A → List A → Type 0
  Covers os rows = All (λ q. bad q ≡ true → has_key (key q) os ≡ true) rows

  -- The rows of the kind with a key.
  abbrev pub has_bad_key : ℕ → List A → Bool
  has_bad_key k rows = any (λ o. bad o && (key o == k)) rows

  has_bad_key_self :
      (rows all : List A)
      → ((q : A) → has_bad_key (key q) rows ≡ true → has_bad_key (key q) all ≡ true)
      → All (λ q. bad q ≡ true → has_bad_key (key q) all ≡ true) rows
  unfolding any
  has_bad_key_self [] all grow = tt
  has_bad_key_self (q ∷ rows) all grow = (
    (λ h. grow q (ground (arith, h, ==_refl (key q)))),
    has_bad_key_self rows all (λ p h. grow p (ground (arith, h))),
  )

  All-map :
      (os all rows : List A)
      → ((k : ℕ) → has_key k os ≡ has_bad_key k all)
      → All (λ q. bad q ≡ true → has_bad_key (key q) all ≡ true) rows
      → Covers os rows
  All-map os all [] same h = tt
  All-map os all (q ∷ rows) same (h, hs) = ((λ p. same (key q) ∙ h p), All-map os all rows same hs)

  -- A list with the keys of all the rows of the kind covers them.
  pub Covers-listed :
      (os rows : List A) → ((k : ℕ) → has_key k os ≡ has_bad_key k rows) → Covers os rows
  Covers-listed os rows same = All-map os rows rows same (has_bad_key_self rows rows (λ q h. h))

  -- The saving of a row under the key of the first listed row takes it off the list.
  pub Covers-save :
      (o o' : A) (os rows : List A)
      → key o' ≡ key o
      → bad o' ≡ false
      → Covers (o ∷ os) rows
      → Covers os (map (λ q. if key q == key o' then o' else q) rows)
  unfolding any
  Covers-save o o' os [] same good h = tt
  Covers-save o o' os (q ∷ rows) same good (h, hs) = elim (Bool-cases (key q == key o')) [
    | inl here ↦ rw here ((λ p. absurd (cc)), Covers-save o o' os rows same good hs)
    | inr other ↦
        rw other ((λ p. ground (arith, h p, other, same)), Covers-save o o' os rows same good hs)
  ]

  pub Covers-none : (rows : List A) → Covers [] rows → any bad rows ≡ false
  unfolding any
  Covers-none [] h = refl
  Covers-none (q ∷ rows) (h, hs) = elim (Bool-cases (bad q)) [
    | inl still ↦ absurd (ground (arith, h still))
    | inr other ↦ rw (other, any) (Covers-none rows hs)
  ]
