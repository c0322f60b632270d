-- ===== src/Markets/Complements/Collateral.antt =====
-- The collateral of the shares that matching issues (markets/services/liquidity_service.py and
-- complementary_matching_service.py).
use leagueos_backend.Prelude.{
  ℕ, ◌+◌, ◌≡◌, refl, sym, ap, ◌∙◌, subst, arith, Option-cases, inl, inr, Option, List, ok, find,
  total, ◌==◌, if◌then◌else◌, >>=-eq-ok, ok-injective,
}
use leagueos_backend.Markets.Model.{
  Order, Fill, FeeSchedule, FeeEntry, CollateralPool, CompleteSetIssuance, Exchange, Label,
}
use leagueos_backend.Markets.Fees.{Rates, FeeCharge, record_fee}
use leagueos_backend.Markets.Exits.{record_exit}
use leagueos_backend.Markets.Fill.{Execution, get_existing_fill, require_matching_replay}
use leagueos_backend.Markets.Execute.{
  Plan, store_rows, settle_buy_wallet, credit_seller_wallet, commit_fill, execute_fill, fee_charge,
}
use leagueos_backend.Markets.Execute.Outcomes.{execute_fill-IsExecuted, replay_or-old}
use leagueos_backend.Markets.Complements.{
  Leg, leg_settlement, store_leg, get_or_create_position, pay_leg, fill_leg, get_pool,
  get_or_create_pool, insert_collateral_entry, lock_complementary_collateral, insert_issuance,
  new_issuance, clean_issuance, issue, match_order,
}
use leagueos_backend.Markets.Complements.Pools.{
  locked_in, locked, issued, with_raised, locked-save_pool, get_or_create_pool-IsPool,
}
use leagueos_backend.Markets.Complements.Loops.{match_order-keeps}

-- The tables of collateral are the same.
record IsCollateralFrame (x x' : Exchange) : Type 0 where
  pools : x'.pools ≡ x.pools
  issuances : x'.issuances ≡ x.issuances

store_rows-frame : (p : Plan) (x : Exchange) → IsCollateralFrame x (store_rows p x)
unfolding store_rows record_exit
store_rows-frame p x = record { pools = ground arith; issuances = ground arith }

module _ (uuid5 : ℕ → Label → ℕ) where
  record_fee-frame :
      (c : FeeCharge) (x : Exchange) {e : FeeEntry} {x' : Exchange}
      → record_fee uuid5 c x ≡ ok (e, x')
      → IsCollateralFrame x x'
  unfolding record_fee
  record_fee-frame c x h = record { pools = ground arith; issuances = ground arith }

  fill_leg-frame :
      (i : CompleteSetIssuance) (schedule : Option FeeSchedule) (r : Rates) (l : Leg) (x : Exchange)
      {x' : Exchange}
      → fill_leg uuid5 i schedule r l x ≡ ok x'
      → IsCollateralFrame x x'
  unfolding fill_leg store_leg get_or_create_position
  fill_leg-frame i schedule r l x h =
      let s = leg_settlement l i.quantity r in
      let (x₁, stored, h₁) = >>=-eq-ok (store_leg l i.quantity x) _ h in
      let (b, paid, h₂) = >>=-eq-ok (pay_leg uuid5 i l s x₁.bank) _ h₁ in
      let ((e, x₂), fee, h₃) = >>=-eq-ok (record_fee uuid5 _ (record x₁ { bank = b })) _ h₂ in
      let f = record_fee-frame _ (record x₁ { bank = b }) fee in
      let done = ok-injective h₃ in
      record {
        pools = sym (ap (λ (y : Exchange). y.pools) done) ∙ f.pools ∙ ground arith;
        issuances = sym (ap (λ (y : Exchange). y.issuances) done) ∙ f.issuances ∙ ground arith;
      }

insert_issuance-locked :
    (m : ℕ) (i : CompleteSetIssuance) (x : Exchange) → locked m (insert_issuance i x) ≡ locked m x
unfolding insert_issuance locked get_pool
insert_issuance-locked m i x = refl

module _ (uuid5 : ℕ → Label → ℕ) where
  lock-saved :
      (i : CompleteSetIssuance) (x : Exchange) {x' : Exchange}
      → lock_complementary_collateral uuid5 i x ≡ ok x'
      → let (p, y) = get_or_create_pool i.market x in
        IsCollateralFrame (with_raised p i.quantity y) x'
  unfolding lock_complementary_collateral insert_collateral_entry
  lock-saved i x h = record { pools = ground arith; issuances = ground arith }

  locked-frame : (m : ℕ) (x x' : Exchange) → IsCollateralFrame x x' → locked m x' ≡ locked m x
  unfolding locked get_pool
  locked-frame m x x' f =
      ap (λ ps. locked_in (find (λ (q : CollateralPool). q.market == m) ps)) f.pools

  issued-frame : (m : ℕ) (x x' : Exchange) → x'.issuances ≡ x.issuances → issued m x' ≡ issued m x
  unfolding issued
  issued-frame m x x' same =
      ap (total (λ (i : CompleteSetIssuance). if i.market == m then i.quantity else 0)) same

  lock-locked :
      (m : ℕ) (i : CompleteSetIssuance) (x : Exchange) {x' : Exchange}
      → lock_complementary_collateral uuid5 i x ≡ ok x'
      → (locked m x' ≡ locked m x + (if i.market == m then i.quantity else 0))
        × (issued m x' ≡ issued m x)
  lock-locked m i x {x'} h =
      let (p, y) = get_or_create_pool i.market x in
      let d = get_or_create_pool-IsPool i.market x in
      let f = lock-saved i x h in
      let raise = locked-save_pool m p i.quantity y d.found in
      (
        locked-frame m (with_raised p i.quantity y) x' f
            ∙ subst
                (λ k.
                  locked m (with_raised p i.quantity y)
                  ≡ locked m y + (if k == m then i.quantity else 0))
                d.of_market raise
            ∙ ap (λ n. n + (if i.market == m then i.quantity else 0)) (d.unchanged m),
        issued-frame m x x' (f.issuances ∙ d.issuances),
      )

  -- Since an exchange, as much was locked for a market as was issued in it.
  abbrev IsBacked : ℕ → Exchange → Exchange → Type 0
  IsBacked m start x = locked m x + issued m start ≡ locked m start + issued m x

  issued-insert :
      (m : ℕ) (i : CompleteSetIssuance) (x : Exchange)
      → issued m (insert_issuance i x) ≡ (if i.market == m then i.quantity else 0) + issued m x
  unfolding issued insert_issuance total
  issued-insert m i x = refl

  issue-IsBacked :
      (now m : ℕ) (start : Exchange) (taker maker : Order) (quantity reference : ℕ) (x : Exchange)
      (i : CompleteSetIssuance) (x' : Exchange)
      → IsBacked m start x
      → issue uuid5 now taker maker quantity reference x ≡ ok (i, x')
      → IsBacked m start x'
  unfolding issue
  issue-IsBacked now m start taker maker quantity reference x i' x' k h =
      let i = new_issuance taker maker quantity reference x in
      let (u, clean, h₁) = >>=-eq-ok (clean_issuance i) _ h in
      let (x₁, first, h₂) = >>=-eq-ok (fill_leg uuid5 i _ _ _ (insert_issuance i x)) _ h₁ in
      let (x₂, second, h₃) = >>=-eq-ok (fill_leg uuid5 i _ _ _ x₁) _ h₂ in
      let (x₃, locked_now, h₄) = >>=-eq-ok (lock_complementary_collateral uuid5 i x₂) _ h₃ in
      let f₁ = fill_leg-frame uuid5 i _ _ _ (insert_issuance i x) first in
      let f₂ = fill_leg-frame uuid5 i _ _ _ x₁ second in
      let (raised_by, kept) = lock-locked m i x₂ locked_now in
      let l₁ = locked-frame m (insert_issuance i x) x₁ f₁ in
      let l₂ = locked-frame m x₁ x₂ f₂ in
      let i₁ = issued-frame m (insert_issuance i x) x₁ f₁.issuances in
      let i₂ = issued-frame m x₁ x₂ f₂.issuances in
      let i₀ = issued-insert m i x in
      let l₀ : locked m (insert_issuance i x) ≡ locked m x = insert_issuance-locked m i x in
      subst (λ (y : CompleteSetIssuance × Exchange). IsBacked m start y.1) (ok-injective h₄)
        (omega arith)

  commit_fill-frame :
      (p : Plan) (x : Exchange) {f : Fill} {x' : Exchange}
      → commit_fill uuid5 p x ≡ ok (f, x')
      → IsCollateralFrame x x'
  unfolding commit_fill
  commit_fill-frame p x h =
      let stored = store_rows p x in
      let (b₁, settled, h₁) =
        >>=-eq-ok (settle_buy_wallet uuid5 p.fill p.buy_order p.settlement stored.bank) _ h in
      let (b₂, credited, h₂) =
        >>=-eq-ok (credit_seller_wallet uuid5 p.fill p.sell_order p.proceeds b₁) _ h₁ in
      let ((e, x₁), fee, h₃) =
        >>=-eq-ok
          (record_fee uuid5 (fee_charge p p.buy_order p.buy_role) (record stored { bank = b₂ })) _
          h₂ in
      let ((e', x₂), fee', h₄) =
        >>=-eq-ok (record_fee uuid5 (fee_charge p p.sell_order p.sell_role) x₁) _ h₃ in
      let f₀ = store_rows-frame p x in
      let f₁ = record_fee-frame uuid5 _ (record stored { bank = b₂ }) fee in
      let f₂ = record_fee-frame uuid5 _ x₁ fee' in
      let done = ok-injective h₄ in
      record {
        pools = sym (ap (λ (y : Fill × Exchange). y.1.pools) done) ∙ f₂.pools ∙ f₁.pools ∙ f₀.pools;
        issuances =
            sym (ap (λ (y : Fill × Exchange). y.1.issuances) done)
            ∙ f₂.issuances
            ∙ f₁.issuances
            ∙ f₀.issuances;
      }

  execute_fill-frame :
      (r : Execution) (now : ℕ) (x : Exchange) (f : Fill) (x' : Exchange)
      → execute_fill uuid5 r now x ≡ ok (f, x')
      → IsCollateralFrame x x'
  unfolding execute_fill
  execute_fill-frame r now x f x' h =
      elim (Option-cases (get_existing_fill r.execution_reference x)) [
        | inl new ↦
            commit_fill-frame _ x (execute_fill-IsExecuted uuid5 r now x f x' new h).committed
        | inr (g, was) ↦
            let (v, checked, done) =
              >>=-eq-ok (require_matching_replay g r) _ (sym (replay_or-old r x _ g was) ∙ h) in
            let same = sym (ap (λ (y : Fill × Exchange). y.1) (ok-injective done)) in
            record {
              pools = ap (λ (y : Exchange). y.pools) same;
              issuances = ap (λ (y : Exchange). y.issuances) same;
            }
      ]

  execute_fill-IsBacked :
      (now m : ℕ) (start : Exchange) (r : Execution) (x : Exchange) (f : Fill) (x' : Exchange)
      → IsBacked m start x
      → execute_fill uuid5 r now x ≡ ok (f, x')
      → IsBacked m start x'
  execute_fill-IsBacked now m start r x f x' k h =
      let d = execute_fill-frame r now x f x' h in
      let l = locked-frame m x x' d in let i = issued-frame m x x' d.issuances in omega arith

  -- Matching an order locks, in every market, exactly as much collateral as it issues complete sets.
  pub match_order-locked :
      (now id m : ℕ) (x : Exchange) (fs : List Fill) (x' : Exchange)
      → match_order uuid5 now id x ≡ ok (fs, x')
      → locked m x' + issued m x ≡ locked m x + issued m x'
  match_order-locked now id m x fs x' h =
      match_order-keeps uuid5 now (IsBacked m x) (execute_fill-IsBacked now m x)
        (issue-IsBacked now m x) id x (refl) h
