-- ===== src/Markets/Complements/Banking.antt =====
-- The wallet ledger over complementary matching (markets/services/complementary_matching_service.py).
use leagueos_backend.Prelude.{ℕ, ◌≡◌, sym, subst, arith, Option, List, ok, >>=-eq-ok, ok-injective}
use leagueos_backend.Wallets.Model as Bank
use leagueos_backend.Wallets.Ledger.{IsConsistent}
use leagueos_backend.Wallets.Service.{release, reserve, consume_reserved}
use leagueos_backend.Markets.Model.{Order, Fill, FeeSchedule, CompleteSetIssuance, Exchange, Label}
use leagueos_backend.Markets.Fees.{Rates, record_fee}
use leagueos_backend.Markets.Fill.{Settlement}
use leagueos_backend.Markets.Execute.{bank_call_if_positive}
use leagueos_backend.Markets.Execute.Banking.{
  bank_call_if_positive-IsConsistent, record_fee-bank, execute_fill-IsConsistent,
}
use leagueos_backend.Markets.Complements.Loops.{match_order-keeps}
use leagueos_backend.Markets.Complements.{
  Leg, leg_settlement, store_leg, get_or_create_position, pay_leg, fill_leg, get_or_create_pool,
  insert_collateral_entry, lock_complementary_collateral, insert_issuance, new_issuance,
  clean_issuance, issue, match_order,
}

store_leg-bank :
    (l : Leg) (quantity : ℕ) (x : Exchange) {x' : Exchange}
    → store_leg l quantity x ≡ ok x'
    → x'.bank ≡ x.bank
unfolding store_leg get_or_create_position
store_leg-bank l quantity x h = ground arith

module _ (uuid5 : ℕ → Label → ℕ) where
  pay_leg-IsConsistent :
      (i : CompleteSetIssuance) (l : Leg) (s : Settlement) (bank : Bank.Database)
      {bank' : Bank.Database}
      → IsConsistent bank
      → pay_leg uuid5 i l s bank ≡ ok bank'
      → IsConsistent bank'
  unfolding pay_leg consume_reserved release reserve
  pay_leg-IsConsistent i l s bank k h =
      let (b₁, h₁, g₁) =
        >>=-eq-ok (bank_call_if_positive consume_reserved _ s.actual_cost bank) _ h in
      let (b₂, h₂, h₃) =
        >>=-eq-ok (bank_call_if_positive release _ s.price_improvement_release b₁) _ g₁ in
      let k₁ = bank_call_if_positive-IsConsistent _ _ k _ _ h₁ in
      let k₂ = bank_call_if_positive-IsConsistent _ _ k₁ _ _ h₂ in
      bank_call_if_positive-IsConsistent _ _ k₂ _ _ h₃

  fill_leg-IsConsistent :
      (i : CompleteSetIssuance) (schedule : Option FeeSchedule) (r : Rates) (l : Leg) (x : Exchange)
      {x' : Exchange}
      → IsConsistent x.bank
      → fill_leg uuid5 i schedule r l x ≡ ok x'
      → IsConsistent x'.bank
  unfolding fill_leg
  fill_leg-IsConsistent i schedule r l x k h =
      let s = leg_settlement l i.quantity r in
      let (x₁, stored, h₁) = >>=-eq-ok (store_leg l i.quantity x) _ h in
      let (b, paid, h₂) = >>=-eq-ok (pay_leg uuid5 i l s x₁.bank) _ h₁ in
      let ((e, x₂), fee, h₃) = >>=-eq-ok (record_fee uuid5 _ (record x₁ { bank = b })) _ h₂ in
      let k₁ = subst IsConsistent (sym (store_leg-bank l i.quantity x stored)) k in
      let k₂ = pay_leg-IsConsistent i l s x₁.bank k₁ paid in
      subst (λ (y : Exchange). IsConsistent y.bank) (ok-injective h₃)
        (subst IsConsistent (sym (record_fee-bank uuid5 _ _ fee)) k₂)

  lock_complementary_collateral-bank :
      (i : CompleteSetIssuance) (x : Exchange) {x' : Exchange}
      → lock_complementary_collateral uuid5 i x ≡ ok x'
      → x'.bank ≡ x.bank
  unfolding lock_complementary_collateral insert_collateral_entry get_or_create_pool
  lock_complementary_collateral-bank i x h = ground arith

  module _ (now : ℕ) where
    issue-IsConsistent :
        (taker maker : Order) (quantity reference : ℕ) (x : Exchange) {i : CompleteSetIssuance}
        {x' : Exchange}
        → IsConsistent x.bank
        → issue uuid5 now taker maker quantity reference x ≡ ok (i, x')
        → IsConsistent x'.bank
    unfolding issue insert_issuance
    issue-IsConsistent taker maker quantity reference x k h =
        let i = new_issuance taker maker quantity reference x in
        let (u, clean, h₁) = >>=-eq-ok (clean_issuance i) _ h in
        let (x₁, first, h₂) = >>=-eq-ok (fill_leg uuid5 i _ _ _ (insert_issuance i x)) _ h₁ in
        let (x₂, second, h₃) = >>=-eq-ok (fill_leg uuid5 i _ _ _ x₁) _ h₂ in
        let (x₃, locked, h₄) = >>=-eq-ok (lock_complementary_collateral uuid5 i x₂) _ h₃ in
        let k₁ = fill_leg-IsConsistent i _ _ _ (insert_issuance i x) k first in
        let k₂ = fill_leg-IsConsistent i _ _ _ x₁ k₁ second in
        subst (λ (y : CompleteSetIssuance × Exchange). IsConsistent y.1.bank) (ok-injective h₄)
          (subst IsConsistent (sym (lock_complementary_collateral-bank i x₂ locked)) k₂)

    -- Matching an order keeps a consistent wallet ledger consistent: the fills against sell orders
    -- and the issues to pairs of buy orders.
    pub match_order-IsConsistent :
        (id : ℕ) (x : Exchange) (fs : List Fill) (x' : Exchange)
        → IsConsistent x.bank
        → match_order uuid5 now id x ≡ ok (fs, x')
        → IsConsistent x'.bank
    match_order-IsConsistent id x fs x' k h =
        match_order-keeps uuid5 now (λ y. IsConsistent y.bank)
          (λ r y f z. execute_fill-IsConsistent uuid5 r now y f z)
          (λ taker maker quantity reference y i z.
            issue-IsConsistent taker maker quantity reference y)
          id x k h
