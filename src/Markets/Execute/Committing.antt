-- ===== src/Markets/Execute/Committing.antt =====
-- What a committed fill has written, and when a fill cannot be committed.
use leagueos_backend.Prelude.{ℕ, ◌≡◌, sym, ◌∙◌, ap, ◌∷◌, arith, ok, >>=-eq-ok, ok-injective}
use leagueos_backend.Wallets.Model as Bank
use leagueos_backend.Wallets.Normalize.{normalize_amount, normalize_currency}
use leagueos_backend.Wallets.Service.{execute, credit}
use leagueos_backend.Markets.Model.{Order, Fill, FeeEntry, Exchange, Label}
use leagueos_backend.Markets.Fees.{FeeCharge, record_fee}
use leagueos_backend.Markets.Exits.{record_exit}
use leagueos_backend.Markets.Execute.{
  Plan, store_rows, bank_call, settle_buy_wallet, credit_seller_wallet, fill_request, fee_charge,
  commit_fill,
}

store_rows-fills : (p : Plan) (x : Exchange) → (store_rows p x).fills ≡ p.fill ∷ x.fills
unfolding store_rows record_exit
store_rows-fills p x = ground arith

module _ (uuid5 : ℕ → Label → ℕ) where
  record_fee-fills :
      (c : FeeCharge) (x : Exchange) {e : FeeEntry} {x' : Exchange}
      → record_fee uuid5 c x ≡ ok (e, x')
      → x'.fills ≡ x.fills
  unfolding record_fee
  record_fee-fills c x h = ground arith

  pub commit_fill-fills :
      (p : Plan) (x : Exchange) {f : Fill} {x' : Exchange}
      → commit_fill uuid5 p x ≡ ok (f, x')
      → (f ≡ p.fill) × (x'.fills ≡ p.fill ∷ x.fills)
  unfolding commit_fill
  commit_fill-fills p x {f} {x'} h =
      let (bank₁, settled, h₁) =
        >>=-eq-ok (settle_buy_wallet uuid5 p.fill p.buy_order p.settlement (store_rows p x).bank) _
          h in
      let (bank₂, credited, h₂) =
        >>=-eq-ok (credit_seller_wallet uuid5 p.fill p.sell_order p.proceeds bank₁) _ h₁ in
      let ((e, x₁), fee, h₃) =
        >>=-eq-ok
          (record_fee uuid5 (fee_charge p p.buy_order p.buy_role)
            (record (store_rows p x) { bank = bank₂ }))
          _ h₂ in
      let ((e', x₂), fee', h₄) =
        >>=-eq-ok (record_fee uuid5 (fee_charge p p.sell_order p.sell_role) x₁) _ h₃ in
      let done = ok-injective h₄ in
      let same = record_fee-fills _ x₁ fee' ∙ record_fee-fills _ _ fee ∙ store_rows-fills p x in
      (
        sym (ap (λ (y : Fill × Exchange). y.0) done),
        sym (ap (λ (y : Fill × Exchange). y.1.fills) done) ∙ same,
      )

  -- The wallet service refuses a credit of nothing, so proceeds of zero stop the commit.
  pub credit_seller_wallet-zero :
      (f : Fill) (s : Order) (bank : Bank.Database)
      → (bank' : Bank.Database) → ¬ (credit_seller_wallet uuid5 f s 0 bank ≡ ok bank')
  unfolding credit_seller_wallet bank_call credit execute normalize_currency normalize_amount
      fill_request
  credit_seller_wallet-zero f s bank bank' h = cc
