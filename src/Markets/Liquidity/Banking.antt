-- ===== src/Markets/Liquidity/Banking.antt =====
-- The wallet ledger over the opening liquidity (markets/services/liquidity_service.py).
use leagueos_backend.Prelude.{
  refl, ℕ, ◌≡◌, ◌∙◌, subst, arith, ◌==◌, ◌+◌, Bool-cases, inl, inr, false, Result, ok, Option,
  require, Option-cases, >>=-eq-ok, ok-injective,
}
use leagueos_backend.Markets.Frame.{IsKept, IsKept-refl, IsKept-trans, outside, outside-IsKept}
use leagueos_backend.Wallets.Service.{debit_available}
use leagueos_backend.Wallets.Service.Laws.{execute-IsConsistent}
use leagueos_backend.Wallets.Transition.{Operation}
use leagueos_backend.Markets.Model.{
  one, Outcome, LiquidityProvider, LiquidityConfiguration, CompleteSetIssuance, CollateralEntry,
  yes_side, no_side, Exchange, Label, Error, opening, treasury_debit,
}
use leagueos_backend.Markets.Cancellation.{from_bank}
use leagueos_backend.Markets.Cancellation.Releasing.{from_bank-ok}
use leagueos_backend.Markets.Complements.{
  get_or_create_pool, insert_issuance, insert_collateral_entry, clean_issuance, get_issuance,
}
use leagueos_backend.Markets.Liquidity.{
  get_configuration, priced_outcome, get_provider, treasury_request, lock_treasury,
  put_configuration, offer, activate, activate_opening_liquidity,
}

offer-outside :
    (p : LiquidityProvider) (c : LiquidityConfiguration) (o : Outcome) (opening_price now : ℕ)
    (x : Exchange) {x' : Exchange}
    → offer p c o opening_price now x ≡ ok x'
    → outside x' ≡ outside x
unfolding offer
offer-outside p c o opening_price now x h = ground arith

get_or_create_pool-outside :
    (market : ℕ) (x : Exchange) → outside (get_or_create_pool market x).1 ≡ outside x
unfolding get_or_create_pool
get_or_create_pool-outside market x = ground arith

put_configuration-outside :
    (c : LiquidityConfiguration) (x : Exchange) → outside (put_configuration c x) ≡ outside x
unfolding put_configuration
put_configuration-outside c x = ground arith

insert_collateral_entry-outside :
    (e : CollateralEntry) (x : Exchange) {x' : Exchange}
    → insert_collateral_entry e x ≡ ok x'
    → outside x' ≡ outside x
unfolding insert_collateral_entry
insert_collateral_entry-outside e x h = ground arith

module _ (uuid5 : ℕ → Label → ℕ) (opening_namespace now : ℕ) where
  lock_treasury-IsKept :
      (p : LiquidityProvider) (c : LiquidityConfiguration) (actor yes_price no_price reference : ℕ)
      (x : Exchange) {i : CompleteSetIssuance} {x' : Exchange}
      → lock_treasury uuid5 opening_namespace now p c actor yes_price no_price reference x
        ≡ ok (i, x')
      → IsKept x x'
  unfolding lock_treasury debit_available insert_issuance
  lock_treasury-IsKept p c actor yes_price no_price reference x {i} {x'} h =
      let r =
        treasury_request p c.market c.initial_liquidity_ugx (uuid5 reference treasury_debit) in
      let ((e, b), paid, h₁) = >>=-eq-ok (from_bank (debit_available r x.bank)) _ h in
      let made = get_or_create_pool-outside c.market (record x { bank = b }) in
      let (_, _, h₂) = >>=-eq-ok (clean_issuance _) _ h₁ in
      let (x₃, stored, h₃) = >>=-eq-ok (insert_collateral_entry _ _) _ h₂ in
      let same = insert_collateral_entry-outside _ _ stored in
      let debited : IsKept x (record x { bank = b }) = record {
        markets = refl;
        transitions = refl;
        ledger = λ k.
            execute-IsConsistent Operation.debit_available false r x.bank k (from_bank-ok _ paid);
      } in
      subst (λ (w : CompleteSetIssuance × Exchange). IsKept x w.1) (ok-injective h₃)
        (IsKept-trans debited (outside-IsKept (same ∙ made)))

  activate-IsKept :
      (c : LiquidityConfiguration) (actor reference : ℕ) (x : Exchange) {i : CompleteSetIssuance}
      {x' : Exchange}
      → activate uuid5 opening_namespace now c actor reference x ≡ ok (i, x')
      → IsKept x x'
  unfolding activate
  activate-IsKept c actor reference x h =
      let ((y, yes_price), _, h₁) = >>=-eq-ok (priced_outcome c.market yes_side x) _ h in
      let ((n, no_price), _, h₂) = >>=-eq-ok (priced_outcome c.market no_side x) _ h₁ in
      let (_, _, h₃) = >>=-eq-ok (require (yes_price + no_price == one) _) _ h₂ in
      let (p, _, h₄) = >>=-eq-ok (get_provider c x) _ h₃ in
      let ((i, x₁), locked, h₅) =
        >>=-eq-ok
          (lock_treasury uuid5 opening_namespace now p c actor yes_price no_price reference x) _
          h₄ in
      let (x₂, first, h₆) = >>=-eq-ok (offer p c y yes_price now x₁) _ h₅ in
      let (x₃, second, h₇) = >>=-eq-ok (offer p c n no_price now x₂) _ h₆ in
      let k₁ = lock_treasury-IsKept p c actor yes_price no_price reference x locked in
      let k₂ =
        IsKept-trans k₁
          (outside-IsKept {x = x₁} {x' = x₂} (offer-outside p c y yes_price now x₁ first)) in
      let k₃ =
        IsKept-trans k₂
          (outside-IsKept {x = x₂} {x' = x₃} (offer-outside p c n no_price now x₂ second)) in
      subst (λ (w : CompleteSetIssuance × Exchange). IsKept x w.1) (ok-injective h₇)
        (IsKept-trans k₃ (outside-IsKept (put_configuration-outside _ x₃)))

  -- The opening liquidity keeps the markets and a consistent wallet ledger.
  pub activate_opening_liquidity-IsKept :
      (market actor : ℕ) (x : Exchange) (i : Option CompleteSetIssuance) (x' : Exchange)
      → activate_opening_liquidity uuid5 opening_namespace now market actor x ≡ ok (i, x')
      → IsKept x x'
  unfolding activate_opening_liquidity
  activate_opening_liquidity-IsKept market actor x i x' h =
      let same : (j : Option CompleteSetIssuance)
          → Path (Result Error (Option CompleteSetIssuance × Exchange)) (ok (j, x)) (ok (i, x'))
          → IsKept x x' =
        λ j q.
          subst (λ (w : Option CompleteSetIssuance × Exchange). IsKept x w.1) (ok-injective q)
            (IsKept-refl {x = x}) in
      elim (Option-cases (get_configuration market x)) [
        | inl none_there ↦ same _ (rw (activate_opening_liquidity, none_there) at h)
        | inr (c, there) ↦
            (let reference = uuid5 opening_namespace (opening market) in
              let h₁ = rw (activate_opening_liquidity, there) at h in
              elim (Bool-cases (c.initial_liquidity_ugx == 0)) [
                | inl zero ↦ same _ (rw zero at h₁)
                | inr positive ↦ elim (Option-cases (get_issuance reference x)) [
                  | inr (old, stored) ↦ same _ (rw (positive, stored) at h₁)
                  | inl new ↦
                      (let h₂ = rw (positive, new) at h₁ in
                        let ((j, y), made, h₃) =
                          >>=-eq-ok (activate uuid5 opening_namespace now c actor reference x) _
                            h₂ in
                        subst (λ (w : Option CompleteSetIssuance × Exchange). IsKept x w.1)
                          (ok-injective h₃) (activate-IsKept c actor reference x made))
                ]
              ])
      ]
