-- ===== src/Markets/Complements/Pools.antt =====
-- The collateral pools as a table: finding, making and raising a market's pool
-- (`lock_complementary_collateral`, markets/services/liquidity_service.py).
use leagueos_backend.Prelude.{
  ℕ, ◌+◌, ◌≡◌, refl, sym, ap, ◌∙◌, subst, arith, false, Bool-cases, Option-cases, inl, inr, Option,
  none, some, List, [], ◌∷◌, find, find-head, total, ◌==◌, ==_refl, ==_sound, if◌then◌else◌,
  find-holds,
}
use leagueos_backend.Markets.Model.{CollateralPool, Exchange}
use leagueos_backend.Markets.Complements.{get_pool, new_pool, get_or_create_pool, save_pool}

-- The collateral that a market's pool has locked, and the quantity of the complete sets issued.
abbrev pub locked_in : Option CollateralPool → ℕ
locked_in none = 0
locked_in (some p) = p.locked_collateral

unfoldable pub locked : ℕ → Exchange → ℕ
locked market x = locked_in (get_pool market x)

unfoldable pub issued : ℕ → Exchange → ℕ
issued market x = total (λ i. if i.market == market then i.quantity else 0) x.issuances

find-save_pool :
    (p : CollateralPool) (ps : List CollateralPool) {old : CollateralPool}
    → find (λ q. q.market == p.market) ps ≡ some old
    → find (λ q. q.market == p.market) (save_pool p ps) ≡ some p
unfolding find save_pool
find-save_pool p [] h = cc
find-save_pool p (q ∷ ps) h = elim (Bool-cases (q.market == p.market)) [
  | inl same ↦ rw (same, ==_refl p.market)
  | inr other ↦ rw (other, other) (find-save_pool p ps (rw other at h))
]

find-save_pool-other :
    (m : ℕ) (p : CollateralPool) (ps : List CollateralPool)
    → (p.market == m) ≡ false
    → find (λ q. q.market == m) (save_pool p ps) ≡ find (λ q. q.market == m) ps
unfolding find save_pool
find-save_pool-other m p [] other = refl
find-save_pool-other m p (q ∷ ps) other = ground (arith, find-save_pool-other m p ps other)

abbrev pub raised : CollateralPool → ℕ → CollateralPool
raised p n = record p { locked_collateral = p.locked_collateral + n }

abbrev pub with_raised : CollateralPool → ℕ → Exchange → Exchange
with_raised p n x = record x { pools = save_pool (raised p n) x.pools }

locked-own :
    (p : CollateralPool) (n : ℕ) (x : Exchange)
    → get_pool p.market x ≡ some p
    → locked p.market (with_raised p n x) ≡ locked p.market x + n
unfolding locked get_pool
locked-own p n x found =
    ap locked_in (find-save_pool (raised p n) x.pools found) ∙ ap (λ o. locked_in o + n) (sym found)

pub locked-save_pool :
    (m : ℕ) (p : CollateralPool) (n : ℕ) (x : Exchange)
    → get_pool p.market x ≡ some p
    → locked m (with_raised p n x) ≡ locked m x + (if p.market == m then n else 0)
unfolding locked get_pool
locked-save_pool m p n x found = elim (Bool-cases (p.market == m)) [
  | inl same ↦ rw same (
      subst (λ k. locked k (with_raised p n x) ≡ locked k x + n) (==_sound p.market m same)
        (locked-own p n x found))
  | inr other ↦
      let unchanged = ap locked_in (find-save_pool-other m (raised p n) x.pools other) in
      rw other (omega arith)
]

-- The pool of a market that has one, or a new one.
pub record IsPool (market : ℕ) (x : Exchange) (p : CollateralPool) (x' : Exchange) : Type 0 where
  pub of_market : p.market ≡ market
  pub found : get_pool p.market x' ≡ some p
  pub unchanged : (m : ℕ) → locked m x' ≡ locked m x
  pub issuances : x'.issuances ≡ x.issuances

new_pool-locked :
    (p : CollateralPool) (m : ℕ) (x : Exchange)
    → p.locked_collateral ≡ 0
    → get_pool p.market x ≡ none
    → locked m (record x { pools = p ∷ x.pools }) ≡ locked m x
unfolding locked get_pool find
new_pool-locked p m x zero_locked new = elim (Bool-cases (p.market == m)) [
  | inl same ↦
      let none_there =
        subst (λ k. find (λ (q : CollateralPool). q.market == k) x.pools ≡ none)
          (==_sound p.market m same) new in
      rw (same, none_there) zero_locked
  | inr other ↦ rw other refl
]

get_or_create_pool-old :
    (market : ℕ) (x : Exchange) {p : CollateralPool}
    → get_pool market x ≡ some p
    → get_or_create_pool market x ≡ (p, x)
unfolding get_or_create_pool
get_or_create_pool-old market x old = rw (old, get_or_create_pool) refl

get_or_create_pool-new :
    (market : ℕ) (x : Exchange)
    → get_pool market x ≡ none
    → get_or_create_pool market x
      ≡ (new_pool market, record x { pools = new_pool market ∷ x.pools })
unfolding get_or_create_pool
get_or_create_pool-new market x new = rw (new, get_or_create_pool) refl

pub get_or_create_pool-IsPool :
    (market : ℕ) (x : Exchange)
    → IsPool market x (get_or_create_pool market x).0 (get_or_create_pool market x).1
unfolding get_pool
get_or_create_pool-IsPool market x = elim (Option-cases (get_pool market x)) [
  | inl new ↦
      let made : IsPool market x (new_pool market)
          (record x { pools = new_pool market ∷ x.pools }) =
        record {
          of_market = refl;
          found =
              find-head (λ (q : CollateralPool). q.market == market) (new_pool market) x.pools
                (==_refl market);
          unchanged = λ m. new_pool-locked (new_pool market) m x refl new;
          issuances = refl;
        } in
      subst (λ (y : CollateralPool × Exchange). IsPool market x y.0 y.1)
        (sym (get_or_create_pool-new market x new)) made
  | inr (p, old) ↦
      let same = ==_sound p.market market (find-holds _ x.pools p old) in
      let kept : IsPool market x p x = record {
        of_market = same;
        found = subst (λ k. get_pool k x ≡ some p) (sym same) old;
        unchanged = λ m. refl;
        issuances = refl;
      } in
      subst (λ (y : CollateralPool × Exchange). IsPool market x y.0 y.1)
        (sym (get_or_create_pool-old market x old)) kept
]
