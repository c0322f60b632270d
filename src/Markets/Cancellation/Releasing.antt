-- ===== src/Markets/Cancellation/Releasing.antt =====
-- What the release of an order's reservation moves (markets/services/participation_service.py).
use leagueos_backend.Prelude.{
  ℕ, ◌+◌, ◌-◌, ◌≤◌, ◌≡◌, refl, sym, ap, ◌∙◌, subst, arith, false, leb, none, some, ◌∷◌, Result, ok,
  err, >>=-eq-ok, ok-injective, or_raise, require,
}
use leagueos_backend.Wallets.Model as Bank
use leagueos_backend.Wallets.Model.{EntryType, LedgerEntry}
use leagueos_backend.Wallets.Transition.{release_reserved, entry_matches_operation, entry_type_eq}
use leagueos_backend.Wallets.Execute.{get_existing_entry}
use leagueos_backend.Wallets.Ledger.{IsConsistent}
use leagueos_backend.Wallets.Service.{release}
use leagueos_backend.Wallets.Service.Laws.{execute-IsConsistent}
use leagueos_backend.Wallets.Service.Posting.{execute-IsEntryOf}
use leagueos_backend.Markets.Model.{Order, Position, Exchange, no_position}
use leagueos_backend.Markets.Money.{calculate_buy_commitment}
use leagueos_backend.Markets.Money.Rounding.{calculate_buy_commitment-eq-reservation}
use leagueos_backend.Markets.Orders.{remaining, reserved_for}
use leagueos_backend.Markets.Positions.{get_position, save_position, clean_position}
use leagueos_backend.Markets.Cancellation.{
  Released, from_bank, order_request, release_funds, unreserve, release_shares, released_shares,
}

pub from_bank-ok {ℓ} :
    {A : Type ℓ} (m : Result Bank.Error A) {a : A} → from_bank m ≡ ok a → m ≡ ok a
from_bank-ok (ok b) h = cc
from_bank-ok (err e) h = absurd (cc)

-- The entry that a release of an order's funds has written.
pub record IsRelease (o : Order) (e : LedgerEntry) : Type 0 where
  pub kind : e.entry_type ≡ EntryType.release
  pub amount : e.amount ≡ reserved_for o
  pub reserved : e.reserved_balance_after + reserved_for o ≡ e.reserved_balance_before
  pub available : e.available_balance_after ≡ e.available_balance_before + reserved_for o

-- The call of the wallet service in a release of funds, and what becomes of its result.
pub record IsFundsRelease (reference : ℕ) (o : Order) (x : Exchange) (r : Released) (x' : Exchange)
    : Type 0 where
  pub entry : LedgerEntry
  pub called : release (order_request o (reserved_for o) reference) x.bank ≡ ok (entry, x'.bank)
  pub amount : r.wallet_amount ≡ reserved_for o
  pub shares : r.position_quantity ≡ 0
  pub reference_of : r.wallet_entry ≡ some entry.idempotency_reference
  pub frame : x' ≡ record x { bank = x'.bank }

module _ (reference : ℕ) (o : Order) (x : Exchange) {r : Released} {x' : Exchange} where
  pub release_funds-IsFundsRelease :
      release_funds reference o x ≡ ok (r, x') → IsFundsRelease reference o x r x'
  unfolding release_funds reserved_for
  release_funds-IsFundsRelease h =
      let amount = calculate_buy_commitment (remaining o) o.limit_price o.maximum_fee_bps in
      let same =
        calculate_buy_commitment-eq-reservation (remaining o) o.limit_price o.maximum_fee_bps in
      let ((e, b), h₁, h₂) =
        >>=-eq-ok (from_bank (release (order_request o _ reference) x.bank)) _ h in
      let done = ok-injective h₂ in
      let released = sym (ap (λ (y : Released × Exchange). y.0) done) in
      let left = sym (ap (λ (y : Released × Exchange). y.1) done) in
      let call = from_bank-ok _ h₁ in
      record {
        entry = e;
        called =
            subst (λ n. release (order_request o n reference) x.bank ≡ ok (e, x'.bank)) same
              (subst (λ d. release (order_request o amount reference) x.bank ≡ ok (e, d))
                (sym (ap (λ (y : Exchange). y.bank) left)) call);
        amount = ap (λ (y : Released). y.wallet_amount) released ∙ same;
        shares = ap (λ (y : Released). y.position_quantity) released;
        reference_of = ap (λ (y : Released). y.wallet_entry) released;
        frame = left ∙ ap (λ d. record x { bank = d }) (sym (ap (λ (y : Exchange). y.bank) left));
      }

  module _ (d : IsFundsRelease reference o x r x') where
    pub IsFundsRelease-IsConsistent : IsConsistent x.bank → IsConsistent x'.bank
    unfolding release
    IsFundsRelease-IsConsistent k = execute-IsConsistent release_reserved false _ x.bank k d.called

    pub IsFundsRelease-IsRelease :
        get_existing_entry reference x.bank ≡ none
        → (x'.bank.entries ≡ d.entry ∷ x.bank.entries) × IsRelease o d.entry
    unfolding release order_request entry_matches_operation entry_type_eq
    IsFundsRelease-IsRelease new =
        let p =
          execute-IsEntryOf release_reserved false _ (reserved_for o) reference x.bank refl refl new
            d.called in
        let written : IsRelease o d.entry = record {
          kind = ground (arith, p.amount, p.matches);
          amount = p.amount;
          reserved = ground (arith, p.amount, p.matches);
          available = ground (arith, p.amount, p.matches);
        } in
        (p.appended, written)

-- A release of shares.
pub record IsSharesRelease (o : Order) (x : Exchange) (r : Released) (x' : Exchange) : Type 0 where
  pub position : Position
  pub held : get_position o.user o.market o.outcome x ≡ some position
  pub enough : remaining o ≤ position.reserved_quantity
  pub released : r ≡ released_shares o
  pub frame : x' ≡ record x {
    positions =
        save_position
          (record position { reserved_quantity = position.reserved_quantity - remaining o })
          x.positions;
  }

pub release_shares-IsSharesRelease :
    (o : Order) (x : Exchange) {r : Released} {x' : Exchange}
    → release_shares o x ≡ ok (r, x')
    → IsSharesRelease o x r x'
unfolding release_shares unreserve
release_shares-IsSharesRelease o x {r} {x'} h =
    let (p, held, h₁) =
      >>=-eq-ok (or_raise (get_position o.user o.market o.outcome x) no_position) _ h in
    let (y, done, h₂) = >>=-eq-ok (unreserve p (remaining o) x) _ h₁ in
    let (u, enough, h₃) = >>=-eq-ok (require (leb (remaining o) p.reserved_quantity) _) _ done in
    let (v, clean, h₄) = >>=-eq-ok (clean_position _ x) _ h₃ in
    record {
      position = p;
      held = ground (arith, held);
      enough = ground (arith, enough);
      released = sym (ap (λ (z : Released × Exchange). z.0) (ok-injective h₂));
      frame = sym (ap (λ (z : Released × Exchange). z.1) (ok-injective h₂)) ∙ sym (ok-injective h₄);
    }
