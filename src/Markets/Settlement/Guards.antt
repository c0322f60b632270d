-- ===== src/Markets/Settlement/Guards.antt =====
-- What the checks of a settlement demand (markets/services/settlement_service.py, with
-- provisional_result_service.py and result_dispute_service.py beside it).
use leagueos_backend.Prelude.{
  ℕ, ◌≤◌, ◌≡◌, ◌≢◌, ◌⊎◌, inl, inr, refl, subst, arith, Bool, true, false, not, ◌&&◌, ◌==◌, ==_sound,
  ltb, Bool-cases, Option, none, some, All, All-map, Among, any, any-Among, any-none, ok, >>=-eq-ok,
  or_raise, require, raise_if,
}
use leagueos_backend.Markets.Model.{
  Market, MarketStatus, resolved, ProvisionalResult, ResultDispute, DisputeDecision, DecisionType,
  extend_review, VoidRefund, Position, Exchange, Label,
}
use leagueos_backend.Markets.Orders.{outcome_belongs}
use leagueos_backend.Markets.CloseCleanup.{is_outstanding}
use leagueos_backend.Markets.Settlement.{
  is_resolved, is_final, lock_positions, get_provisional_result, require_settleable_market,
  require_dispute_window_closed, require_no_open_disputes, check_settlement,
}

-- A time, where there is one, that has come.
abbrev pub Reached : Option ℕ → ℕ → Type 0
Reached none now = Unit
Reached (some t) now = t ≤ now

-- A dispute of the result was decided: not by an extension of the review.
pub record IsDecided (r : ProvisionalResult) (x : Exchange) : Type 0 where
  pub decision : DisputeDecision
  pub stored : Among decision x.decisions
  pub of_result : decision.provisional_result ≡ r.id
  pub final : decision.decision_type ≢ extend_review

-- A provisional result, where there is one, whose window for disputes is over, and that was either
-- not disputed or decided.
abbrev pub IsReviewed : Option ProvisionalResult → ℕ → Exchange → Type 0
IsReviewed none now x = Unit
IsReviewed (some r) now x =
    ((r.dispute_deadline ≤ now) ⊎ (r.is_accelerated ≡ true))
    × (All (λ (d : ResultDispute). d.provisional_result ≢ r.id) x.disputes ⊎ IsDecided r x)

-- All that a settlement of the market on an outcome demands.
pub record IsSettleable (m : Market) (winner now : ℕ) (x : Exchange) : Type 0 where
  pub status : m.status ≡ resolved
  pub confirmed : m.winning_outcome ≡ some winner
  pub belongs : outcome_belongs winner m.id x ≡ true
  pub reached : Reached m.settles_by now
  pub reviewed : IsReviewed (get_provisional_result m.id x) now x
  pub not_refunded : All (λ (v : VoidRefund). v.market ≢ m.id) x.void_refunds
  pub no_orders : any (is_outstanding m.id) x.orders ≡ false
  pub unreserved : All (λ (p : Position). p.reserved_quantity ≡ 0) (lock_positions m.id x)

is_resolved-resolved : (status : MarketStatus) → is_resolved status ≡ true → status ≡ resolved
unfolding is_resolved
is_resolved-resolved status h = ground arith

is_final-ne : (t : DecisionType) → is_final t ≡ true → t ≢ extend_review
unfolding is_final
is_final-ne t h q = absurd (cc)

==_ne : (a b : ℕ) → (a == b) ≡ false → a ≢ b
==_ne a b h q = absurd (ground arith)

Reached-raise :
    (t : Option ℕ) (now : ℕ)
    → (elim t [ none ↦ false | some t ↦ ltb now t ]) ≡ false
    → Reached t now
Reached-raise none now h = tt
Reached-raise (some t) now h = ground arith

ltb_zero : (n : ℕ) → ltb 0 n ≡ false → n ≡ 0
ltb_zero n h = ground arith

raise_if-ok {ℓ} : {E : Type ℓ} (b : Bool) (e : E) {u : Unit {0}} → raise_if b e ≡ ok u → b ≡ false
raise_if-ok true e h = absurd (cc)
raise_if-ok false e h = refl

module _ (now : ℕ) (x : Exchange) where
  window :
      (r : ProvisionalResult)
      → (ltb now r.dispute_deadline && not r.is_accelerated) ≡ false
      → (r.dispute_deadline ≤ now) ⊎ (r.is_accelerated ≡ true)
  window r h = elim (Bool-cases r.is_accelerated) [
    | inl yes_there ↦ inr yes_there
    | inr not_there ↦ inl (ground arith)
  ]

  undisputed :
      (r : ProvisionalResult)
      → (any (λ (d : ResultDispute). d.provisional_result == r.id) x.disputes
          && not (
              any
                (λ (d : DisputeDecision).
                  (d.provisional_result == r.id) && is_final d.decision_type)
                x.decisions))
        ≡ false
      → All (λ (d : ResultDispute). d.provisional_result ≢ r.id) x.disputes ⊎ IsDecided r x
  undisputed r h =
      elim (Bool-cases (any (λ (d : ResultDispute). d.provisional_result == r.id) x.disputes)) [
        | inr none_there ↦ inl (
            All-map (λ (d : ResultDispute). ==_ne d.provisional_result r.id) x.disputes
              (any-none _ x.disputes none_there))
        | inl disputed ↦
            let (d, stored, found) =
              any-Among
                (λ (d : DisputeDecision).
                  (d.provisional_result == r.id) && is_final d.decision_type)
                x.decisions (ground (arith, disputed)) in
            inr (record {
              decision = d;
              stored = stored;
              of_result = ==_sound d.provisional_result r.id (ground (arith, found));
              final = is_final-ne d.decision_type (ground (arith, found));
            })
      ]

  require_dispute_window_closed-IsReviewed :
      (market : ℕ)
      → require_dispute_window_closed market now x ≡ ok tt
      → require_no_open_disputes market x ≡ ok tt
      → IsReviewed (get_provisional_result market x) now x
  unfolding require_dispute_window_closed require_no_open_disputes
  require_dispute_window_closed-IsReviewed market h k = go (get_provisional_result market x) refl
    where
      go : (r : Option ProvisionalResult) → get_provisional_result market x ≡ r → IsReviewed r now x
      go none q = tt
      go (some r) q = (
        window r (raise_if-ok _ _ (rw (require_dispute_window_closed, q) at h)),
        undisputed r (raise_if-ok _ _ (rw (require_no_open_disputes, q) at k)),
      )

  require_settleable_market-guards :
      (m : Market) {winner : ℕ}
      → require_settleable_market m now x ≡ ok winner
      → (m.status ≡ resolved)
        × (m.winning_outcome ≡ some winner)
        × (outcome_belongs winner m.id x ≡ true)
        × Reached m.settles_by now
  unfolding require_settleable_market
  require_settleable_market-guards m {winner} h =
      let (_, c₁, h₁) = >>=-eq-ok (require (is_resolved m.status) _) _ h in
      let (w, c₂, h₂) = >>=-eq-ok (or_raise m.winning_outcome _) _ h₁ in
      let (_, c₃, h₃) = >>=-eq-ok (require (outcome_belongs w m.id x) _) _ h₂ in
      let (_, c₄, h₄) =
        >>=-eq-ok (raise_if (elim m.settles_by [ none ↦ false | some t ↦ ltb now t ]) _) _ h₃ in
      let same : w ≡ winner = ground (arith, h₄) in
      (
        is_resolved-resolved m.status (ground (arith, c₁)),
        ground (arith, c₂, same),
        ground (arith, c₃, same),
        Reached-raise m.settles_by now (raise_if-ok _ _ c₄),
      )

module _ (uuid5 : ℕ → Label → ℕ) (namespace now : ℕ) where
  -- The checks of a settlement pass only for what may be settled.
  pub check_settlement-IsSettleable :
      (m : Market) (x : Exchange) {winner : ℕ}
      → check_settlement uuid5 namespace now m x ≡ ok winner
      → IsSettleable m winner now x
  unfolding check_settlement
  check_settlement-IsSettleable m x {winner} h =
      let (_, c₁, h₁) =
        >>=-eq-ok (raise_if (any (λ (r : VoidRefund). r.market == m.id) x.void_refunds) _) _ h in
      let (w, c₂, h₂) = >>=-eq-ok (require_settleable_market m now x) _ h₁ in
      let (_, c₃, h₃) = >>=-eq-ok (require_dispute_window_closed m.id now x) _ h₂ in
      let (_, c₄, h₄) = >>=-eq-ok (require_no_open_disputes m.id x) _ h₃ in
      let (_, c₅, h₅) = >>=-eq-ok (raise_if (any (is_outstanding m.id) x.orders) _) _ h₄ in
      let (_, c₆, h₆) =
        >>=-eq-ok
          (raise_if (any (λ (p : Position). ltb 0 p.reserved_quantity) (lock_positions m.id x)) _) _
          h₅ in
      let same : w ≡ winner = ground (arith, h₆) in
      let (status, confirmed, belongs, reached) =
        require_settleable_market-guards now x m
          (subst (λ n. require_settleable_market m now x ≡ ok n) same c₂) in
      record {
        status = status;
        confirmed = confirmed;
        belongs = belongs;
        reached = reached;
        reviewed = require_dispute_window_closed-IsReviewed now x m.id c₃ c₄;
        not_refunded =
            All-map (λ (v : VoidRefund). ==_ne v.market m.id) x.void_refunds
              (any-none _ x.void_refunds (raise_if-ok _ _ c₁));
        no_orders = raise_if-ok _ _ c₅;
        unreserved =
            All-map (λ (p : Position). ltb_zero p.reserved_quantity) (lock_positions m.id x)
              (any-none _ (lock_positions m.id x) (raise_if-ok _ _ c₆));
      }
