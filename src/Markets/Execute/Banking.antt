-- ===== src/Markets/Execute/Banking.antt =====
-- The wallet ledger over a fill (markets/services/fill_service.py).
use leagueos_backend.Prelude.{
  ℕ, ◌≡◌, refl, sym, ◌∙◌, subst, arith, Bool, Bool-cases, ltb, inl, inr, Option-cases, Result, ok,
  err, >>=-eq-ok, ok-injective,
}
use leagueos_backend.Wallets.Model as Bank
use leagueos_backend.Wallets.Transition.{Operation}
use leagueos_backend.Wallets.Ledger.{IsConsistent}
use leagueos_backend.Wallets.Service.{Request, execute, credit, release, reserve, consume_reserved}
use leagueos_backend.Wallets.Service.Laws.{execute-IsConsistent}
use leagueos_backend.Markets.Model.{Order, Fill, FeeEntry, Exchange, Label}
use leagueos_backend.Markets.Fees.{FeeCharge, record_fee}
use leagueos_backend.Markets.Exits.{record_exit}
use leagueos_backend.Markets.Fill.{
  Execution, get_existing_fill, require_matching_replay, Settlement,
}
use leagueos_backend.Markets.Execute.{
  Plan, bank_call, bank_call_if_positive, settle_buy_wallet, credit_seller_wallet, store_rows,
  commit_fill, execute_fill, fee_charge,
}
use leagueos_backend.Markets.Execute.Outcomes.{execute_fill-IsExecuted, replay_or-old}

module _ (op : Operation) (create : Bool) {bank bank' : Bank.Database} (k : IsConsistent bank) where
  pub bank_call-IsConsistent :
      (r : Request) → bank_call (execute op create) r bank ≡ ok bank' → IsConsistent bank'
  unfolding bank_call
  bank_call-IsConsistent r h = go (execute op create r bank) refl h
    where
      go :
          (m : Result Bank.Error (Bank.LedgerEntry × Bank.Database))
          → execute op create r bank ≡ m
          → bank_call (λ r' b. m) r bank ≡ ok bank'
          → IsConsistent bank'
      go (ok (e, b)) q h =
          subst IsConsistent (ok-injective h) (execute-IsConsistent op create r bank k q)
      go (err e) q h = absurd (cc)

  pub bank_call_if_positive-IsConsistent :
      (r : ℕ → Request) (n : ℕ)
      → bank_call_if_positive (execute op create) r n bank ≡ ok bank'
      → IsConsistent bank'
  unfolding bank_call_if_positive
  bank_call_if_positive-IsConsistent r n h = elim (Bool-cases (ltb 0 n)) [
    | inl some_money ↦ bank_call-IsConsistent (r n) (rw some_money at h)
    | inr nothing ↦ subst IsConsistent (ok-injective (rw nothing at h)) k
  ]

module _ (uuid5 : ℕ → Label → ℕ) where
  settle_buy_wallet-IsConsistent :
      (f : Fill) (b : Order) (s : Settlement) (bank : Bank.Database) {bank' : Bank.Database}
      → IsConsistent bank
      → settle_buy_wallet uuid5 f b s bank ≡ ok bank'
      → IsConsistent bank'
  unfolding settle_buy_wallet consume_reserved release reserve
  settle_buy_wallet-IsConsistent f b s bank k h =
      let (b₁, h₁, g₁) =
        >>=-eq-ok (bank_call_if_positive consume_reserved _ s.actual_cost bank) _ h in
      let (b₂, h₂, h₃) =
        >>=-eq-ok (bank_call_if_positive release _ s.price_improvement_release b₁) _ g₁ in
      let k₁ = bank_call_if_positive-IsConsistent _ _ k _ _ h₁ in
      let k₂ = bank_call_if_positive-IsConsistent _ _ k₁ _ _ h₂ in
      bank_call_if_positive-IsConsistent _ _ k₂ _ _ h₃

  pub record_fee-bank :
      (c : FeeCharge) (x : Exchange) {e : FeeEntry} {x' : Exchange}
      → record_fee uuid5 c x ≡ ok (e, x')
      → x'.bank ≡ x.bank
  unfolding record_fee
  record_fee-bank c x h = ground arith

  store_rows-bank : (p : Plan) (x : Exchange) → (store_rows p x).bank ≡ x.bank
  unfolding store_rows record_exit
  store_rows-bank p x = ground arith

  commit_fill-IsConsistent :
      (p : Plan) (x : Exchange) {f : Fill} {x' : Exchange}
      → IsConsistent x.bank
      → commit_fill uuid5 p x ≡ ok (f, x')
      → IsConsistent x'.bank
  unfolding commit_fill credit_seller_wallet credit
  commit_fill-IsConsistent p x {f} {x'} k h =
      let k₀ = subst IsConsistent (sym (store_rows-bank p x)) k in
      let (bank₁, settled, h₁) =
        >>=-eq-ok (settle_buy_wallet uuid5 p.fill p.buy_order p.settlement (store_rows p x).bank) _
          h in
      let k₁ = settle_buy_wallet-IsConsistent _ _ _ _ k₀ settled in
      let (bank₂, credited, h₂) =
        >>=-eq-ok (credit_seller_wallet uuid5 p.fill p.sell_order p.proceeds bank₁) _ h₁ in
      let k₂ = bank_call-IsConsistent _ _ k₁ _ credited in
      let ((e, x₁), fee, h₃) =
        >>=-eq-ok
          (record_fee uuid5 (fee_charge p p.buy_order p.buy_role)
            (record (store_rows p x) { bank = bank₂ }))
          _ h₂ in
      let ((e', x₂), fee', h₄) =
        >>=-eq-ok (record_fee uuid5 (fee_charge p p.sell_order p.sell_role) x₁) _ h₃ in
      let same = record_fee-bank _ x₁ fee' ∙ record_fee-bank _ _ fee in
      let done = ok-injective h₄ in
      subst (λ (y : Fill × Exchange). IsConsistent y.1.bank) done (subst IsConsistent (sym same) k₂)

  -- A fill that succeeds keeps a consistent wallet ledger consistent.
  pub execute_fill-IsConsistent :
      (r : Execution) (now : ℕ) (x : Exchange) (f : Fill) (x' : Exchange)
      → IsConsistent x.bank
      → execute_fill uuid5 r now x ≡ ok (f, x')
      → IsConsistent x'.bank
  unfolding execute_fill
  execute_fill-IsConsistent r now x f x' k h =
      elim (Option-cases (get_existing_fill r.execution_reference x)) [
        | inl new ↦
            let d = execute_fill-IsExecuted uuid5 r now x f x' new h in
            commit_fill-IsConsistent d.plan x k d.committed
        | inr (g, was) ↦
            let (v, checked, done) =
              >>=-eq-ok (require_matching_replay g r) _ (sym (replay_or-old r x _ g was) ∙ h) in
            subst (λ (y : Fill × Exchange). IsConsistent y.1.bank) (ok-injective done) k
      ]
