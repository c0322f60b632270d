-- ===== src/Markets/Complements/Loops.antt =====
-- The loops of matching (markets/services/matching_service.py and
-- complementary_matching_service.py) and what each of their steps keeps.
use leagueos_backend.Prelude.{
  ℕ, ◌≡◌, subst, Bool-cases, inl, inr, Option-cases, List, [], ◌∷◌, ok, ◌&&◌, ltb, min, >>=-eq-ok,
  ok-injective, or_raise,
}
use leagueos_backend.Markets.Model.{
  Order, Fill, CompleteSetIssuance, Exchange, Label, missing_order, buy,
}
use leagueos_backend.Markets.Orders.{get_order, is_fillable_status, remaining, side_eq}
use leagueos_backend.Markets.Fill.{Execution}
use leagueos_backend.Markets.Execute.{execute_fill}
use leagueos_backend.Markets.Matching.{
  is_fillable, is_trading, can_start, prioritize_makers, match_makers,
}
use leagueos_backend.Markets.Matching.Runs.{match_makers-keeps}
use leagueos_backend.Markets.Complements.{
  issue, get_issuance, issue_once, complement_reference, is_affordable, match_candidates,
  match_complements, complete_match, match_order,
}

module _ {κ} (uuid5 : ℕ → Label → ℕ) (now : ℕ) (P : Exchange → Type κ)
    (fills_keep : (r : Execution) (x : Exchange) (f : Fill) (x' : Exchange)
      → P x
      → execute_fill uuid5 r now x ≡ ok (f, x')
      → P x')
    (issues_keep : (taker maker : Order) (quantity reference : ℕ) (x : Exchange)
        (i : CompleteSetIssuance) (x' : Exchange)
      → P x
      → issue uuid5 now taker maker quantity reference x ≡ ok (i, x')
      → P x') where
  issue_once-keeps :
      (taker maker : Order) (quantity : ℕ) (x : Exchange) {i : CompleteSetIssuance} {x' : Exchange}
      → P x
      → issue_once uuid5 now taker maker quantity x ≡ ok (i, x')
      → P x'
  unfolding issue_once
  issue_once-keeps taker maker quantity x k h =
      elim (Option-cases (get_issuance (complement_reference uuid5 now taker maker) x)) [
        | inl new ↦ issues_keep taker maker quantity _ x _ _ k (rw (new, issue_once) at h)
        | inr (i, old) ↦
            subst (λ (y : CompleteSetIssuance × Exchange). P y.1)
              (ok-injective (rw (old, issue_once) at h)) k
      ]

  match_candidates-keeps :
      (id : ℕ) (ids : List ℕ) (x : Exchange) {is : List CompleteSetIssuance} {x' : Exchange}
      → P x
      → match_candidates uuid5 now id ids x ≡ ok (is, x')
      → P x'
  unfolding match_candidates
  match_candidates-keeps id [] x k h =
      subst (λ (y : List CompleteSetIssuance × Exchange). P y.1) (ok-injective h) k
  match_candidates-keeps id (c ∷ ids) x k h =
      let (taker, read, h₁) = >>=-eq-ok (or_raise (get_order id x) missing_order) _ h in
      elim (Bool-cases (is_fillable_status taker.status)) [
        | inr full ↦
            subst (λ (y : List CompleteSetIssuance × Exchange). P y.1)
              (ok-injective (rw full at h₁)) k
        | inl active ↦
            let (maker, found, h₂) =
              >>=-eq-ok (or_raise (get_order c x) missing_order) _ (rw active at h₁) in
            let quantity = min (remaining taker) (remaining maker) in
            elim (Bool-cases (is_affordable taker maker && ltb 0 quantity)) [
              | inr skipped ↦ match_candidates-keeps id ids x k (rw skipped at h₂)
              | inl taken ↦
                  let ((i, y), issued, h₃) =
                    >>=-eq-ok (issue_once uuid5 now taker maker quantity x) _ (rw taken at h₂) in
                  let ((rest, z), later, h₄) =
                    >>=-eq-ok (match_candidates uuid5 now id ids y) _ h₃ in
                  let k' = issue_once-keeps taker maker quantity x {x' = y} k issued in
                  subst (λ (w : List CompleteSetIssuance × Exchange). P w.1) (ok-injective h₄)
                    (match_candidates-keeps id ids y k' later)
            ]
      ]

  match_complements-keeps :
      (id : ℕ) (x : Exchange) {is : List CompleteSetIssuance} {x' : Exchange}
      → P x
      → match_complements uuid5 now id x ≡ ok (is, x')
      → P x'
  unfolding match_complements
  match_complements-keeps id x k h =
      let (taker, read, h₁) = >>=-eq-ok (or_raise (get_order id x) missing_order) _ h in
      elim (Bool-cases (side_eq taker.side buy && is_fillable_status taker.status)) [
        | inl start ↦ match_candidates-keeps id _ x k (rw start at h₁)
        | inr stop ↦
            subst (λ (y : List CompleteSetIssuance × Exchange). P y.1)
              (ok-injective (rw stop at h₁)) k
      ]

  complete_match-keeps :
      (id : ℕ) (fs : List Fill) (x : Exchange) {gs : List Fill} {x' : Exchange}
      → P x
      → complete_match uuid5 now id fs x ≡ ok (gs, x')
      → P x'
  unfolding complete_match
  complete_match-keeps id fs x k h =
      let (taker, read, h₁) = >>=-eq-ok (or_raise (get_order id x) missing_order) _ h in
      elim (Bool-cases (is_fillable now taker && side_eq taker.side buy)) [
        | inl start ↦
            let ((is, y), issued, h₂) =
              >>=-eq-ok (match_complements uuid5 now id x) _ (rw start at h₁) in
            subst (λ (y : List Fill × Exchange). P y.1) (ok-injective h₂)
              (match_complements-keeps id x k issued)
        | inr stop ↦ subst (λ (y : List Fill × Exchange). P y.1) (ok-injective (rw stop at h₁)) k
      ]

  -- What every fill and every issue keeps, matching an order keeps.
  pub match_order-keeps :
      (id : ℕ) (x : Exchange) {fs : List Fill} {x' : Exchange}
      → P x
      → match_order uuid5 now id x ≡ ok (fs, x')
      → P x'
  unfolding match_order
  match_order-keeps id x k h =
      let (taker, read, h₁) = >>=-eq-ok (or_raise (get_order id x) missing_order) _ h in
      let makers = prioritize_makers now taker x in
      elim (Bool-cases
        (is_fillable now taker && is_trading now taker x && can_start taker makers x)) [
          | inl start ↦
              let ((fs, y), filled, h₂) =
                >>=-eq-ok (match_makers uuid5 now id makers x) _ (rw start at h₁) in
              let k' = match_makers-keeps uuid5 now id P fills_keep makers x k filled in
              complete_match-keeps id fs y k' h₂
          | inr stop ↦ subst (λ (y : List Fill × Exchange). P y.1) (ok-injective (rw stop at h₁)) k
        ]
