-- ===== src/Markets/Settlement/Steps.antt =====
-- What the settlement of a position writes (markets/services/settlement_service.py).
use leagueos_backend.Prelude.{
  ℕ, ◌≡◌, refl, sym, ap, ◌∙◌, subst, arith, true, Bool-cases, inl, inr, ltb, Option, List, [], ◌∷◌,
  ok, >>=-eq-ok, ok-injective,
}
use leagueos_backend.Wallets.Model as Bank
use leagueos_backend.Wallets.Transition.{credit_available}
use leagueos_backend.Wallets.Ledger.{IsConsistent}
use leagueos_backend.Wallets.Service.{credit}
use leagueos_backend.Wallets.Service.Laws.{execute-IsConsistent}
use leagueos_backend.Wallets.Balances.{get_or_create_wallet}
use leagueos_backend.Wallets.Balances.Unrecorded.{get_or_create_wallet-IsConsistent}
use leagueos_backend.Wallets.Withdrawals.Consistency.{IsConsistent-congr}
use leagueos_backend.Markets.Model.{
  Position, FeeSchedule, CollateralPool, MarketSettlement, PositionSettlement, Exchange, Label,
}
use leagueos_backend.Markets.Fees.{Rates, rates, record_fee}
use leagueos_backend.Markets.Positions.{save_position}
use leagueos_backend.Markets.Execute.{market_currency}
use leagueos_backend.Markets.Cancellation.{from_bank}
use leagueos_backend.Markets.Cancellation.Releasing.{from_bank-ok}
use leagueos_backend.Markets.Complements.{insert_collateral_entry}
use leagueos_backend.Markets.Settlement.{
  Payout, position_payout, payout_transaction, insert_transaction, pay_out, pay_position,
  position_settlement_of, insert_position_settlement, flatten, record_payout_fee, settle_position,
  settle_positions, settle_pool,
}

pay_out-IsConsistent :
    (p : Position) (net reference now : ℕ) (bank : Bank.Database) {e : Bank.LedgerEntry}
    {bank' : Bank.Database}
    → IsConsistent bank
    → pay_out p net reference now bank ≡ ok (e, bank')
    → IsConsistent bank'
unfolding pay_out insert_transaction credit
pay_out-IsConsistent p net reference now bank {e} {bank'} k h =
    let (w, bank₁) = get_or_create_wallet p.user market_currency bank in
    let k₁ = get_or_create_wallet-IsConsistent p.user market_currency bank k in
    let (bank₂, inserted, h₁) =
      >>=-eq-ok (insert_transaction (payout_transaction w reference net now bank₁) bank₁) _ h in
    let k₂ = IsConsistent-congr bank₁ bank₂ (ground arith) k₁ in
    execute-IsConsistent credit_available true _ bank₂ k₂ h₁

-- What a step of the settlement leaves: the rows that it does not write, and the ledger.
pub record IsSettlementFrame (x x' : Exchange) : Type 0 where
  pub markets : x'.markets ≡ x.markets
  pub settlements : x'.settlements ≡ x.settlements
  pub ledger : IsConsistent x.bank → IsConsistent x'.bank

pay_position-frame :
    (p : Position) (net reference now : ℕ) (x : Exchange) {entry : Option ℕ} {x' : Exchange}
    → pay_position p net reference now x ≡ ok (entry, x')
    → IsSettlementFrame x x' × (x'.positions ≡ x.positions)
unfolding pay_position
pay_position-frame p net reference now x {entry} {x'} h = elim (Bool-cases (ltb 0 net)) [
  | inl paid ↦
      let ((e, bank), h₁, h₂) =
        >>=-eq-ok (from_bank (pay_out p net reference now x.bank)) _ (rw paid at h) in
      let done = sym (ap (λ (y : Option ℕ × Exchange). y.1) (ok-injective h₂)) in
      let frame : IsSettlementFrame x x' = record {
        markets = ap (λ (y : Exchange). y.markets) done;
        settlements = ap (λ (y : Exchange). y.settlements) done;
        ledger = λ k.
            subst IsConsistent (sym (ap (λ (y : Exchange). y.bank) done))
              (pay_out-IsConsistent p net reference now x.bank k (from_bank-ok _ h₁));
      } in
      (frame, ap (λ (y : Exchange). y.positions) done)
  | inr nothing ↦
      let done = sym (ap (λ (y : Option ℕ × Exchange). y.1) (ok-injective (rw nothing at h))) in
      let frame : IsSettlementFrame x x' = record {
        markets = ap (λ (y : Exchange). y.markets) done;
        settlements = ap (λ (y : Exchange). y.settlements) done;
        ledger = λ k. subst IsConsistent (sym (ap (λ (y : Exchange). y.bank) done)) k;
      } in
      (frame, ap (λ (y : Exchange). y.positions) done)
]

module _ (uuid5 : ℕ → Label → ℕ) (namespace now : ℕ) where
  record_payout_fee-tables :
      (schedule : Option FeeSchedule) (r : Rates) (a : Payout) (p : Position) (x : Exchange)
      {x' : Exchange}
      → record_payout_fee uuid5 namespace now schedule r a p x ≡ ok x'
      → (x'.markets ≡ x.markets)
        × (x'.settlements ≡ x.settlements)
        × (x'.bank ≡ x.bank)
        × (x'.positions ≡ x.positions)
  unfolding record_payout_fee record_fee
  record_payout_fee-tables schedule r a p x h =
      (ground arith, ground arith, ground arith, ground arith)

  insert_position_settlement-tables :
      (s : PositionSettlement) (x : Exchange) {x' : Exchange}
      → insert_position_settlement s x ≡ ok x'
      → (x'.markets ≡ x.markets)
        × (x'.settlements ≡ x.settlements)
        × (x'.bank ≡ x.bank)
        × (x'.positions ≡ x.positions)
  unfolding insert_position_settlement
  insert_position_settlement-tables s x h = (ground arith, ground arith, ground arith, ground arith)

  -- A settled position is flat, and the other positions stay.
  pub settle_position-frame :
      (id winner : ℕ) (p : Position) (x : Exchange) {x' : Exchange}
      → settle_position uuid5 namespace now id winner p x ≡ ok x'
      → IsSettlementFrame x x'
        × ((a : Payout) × (x'.positions ≡ save_position (flatten a p) x.positions))
  unfolding settle_position
  settle_position-frame id winner p x {x'} h =
      let (schedule, r) = rates p.market now x in
      let a = position_payout winner r p in
      let ((entry, x₁), paid, h₁) = >>=-eq-ok (pay_position p a.net _ now x) _ h in
      let (x₂, charged, h₂) =
        >>=-eq-ok (record_payout_fee uuid5 namespace now schedule r a p x₁) _ h₁ in
      let (x₃, recorded, h₃) =
        >>=-eq-ok (insert_position_settlement (position_settlement_of id winner a entry p) x₂) _
          h₂ in
      let (f, rows) = pay_position-frame p a.net _ now x paid in
      let (m₂, s₂, b₂, p₂) = record_payout_fee-tables schedule r a p x₁ charged in
      let (m₃, s₃, b₃, p₃) = insert_position_settlement-tables _ x₂ recorded in
      let done = sym (ok-injective h₃) in
      let frame : IsSettlementFrame x x' = record {
        markets = ap (λ (y : Exchange). y.markets) done ∙ m₃ ∙ m₂ ∙ f.markets;
        settlements = ap (λ (y : Exchange). y.settlements) done ∙ s₃ ∙ s₂ ∙ f.settlements;
        ledger = λ k.
            subst IsConsistent (sym (ap (λ (y : Exchange). y.bank) done ∙ b₃ ∙ b₂)) (f.ledger k);
      } in
      (
        frame,
        (
          a,
          ap (λ (y : Exchange). y.positions) done
              ∙ ap (save_position (flatten a p)) (p₃ ∙ p₂ ∙ rows),
        ),
      )

  pub settle_positions-frame :
      (id winner : ℕ) (ps : List Position) (x : Exchange) {x' : Exchange}
      → settle_positions uuid5 namespace now id winner ps x ≡ ok x'
      → IsSettlementFrame x x'
  unfolding settle_positions
  settle_positions-frame id winner [] x h =
      subst (IsSettlementFrame x) (ok-injective h)
        (record { markets = refl; settlements = refl; ledger = λ k. k })
  settle_positions-frame id winner (p ∷ ps) x {x'} h =
      let (y, first, h₁) = >>=-eq-ok (settle_position uuid5 namespace now id winner p x) _ h in
      let (f, rows) = settle_position-frame id winner p x first in
      let g = settle_positions-frame id winner ps y h₁ in
      record {
        markets = g.markets ∙ f.markets;
        settlements = g.settlements ∙ f.settlements;
        ledger = λ k. g.ledger (f.ledger k);
      }

  pub settle_pool-frame :
      (pool : Option CollateralPool) (s : MarketSettlement) (x : Exchange) {x' : Exchange}
      → settle_pool uuid5 namespace now pool s x ≡ ok x'
      → IsSettlementFrame x x' × (x'.positions ≡ x.positions)
  unfolding settle_pool insert_collateral_entry
  settle_pool-frame pool s x {x'} h =
      let bank : x'.bank ≡ x.bank = ground arith in
      let frame : IsSettlementFrame x x' = record {
        markets = ground arith;
        settlements = ground arith;
        ledger = λ k. subst IsConsistent (sym bank) k;
      } in
      (frame, ground arith)
