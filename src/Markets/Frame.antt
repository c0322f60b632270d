-- ===== src/Markets/Frame.antt =====
-- The part of the exchange that the life cycle of a market stands on (markets/models.py), and the
-- steps that leave it alone.
use leagueos_backend.Prelude.{◌≡◌, refl, sym, ap, ◌∙◌, subst, List}
use leagueos_backend.Wallets.Model as Bank
use leagueos_backend.Wallets.Ledger.{IsConsistent}
use leagueos_backend.Markets.Model.{Market, StatusTransition, Exchange}

-- The markets and their history are as before, and a consistent wallet ledger stays consistent.
pub record IsKept (x x' : Exchange) : Type 0 where
  pub markets : x'.markets ≡ x.markets
  pub transitions : x'.transitions ≡ x.transitions
  pub ledger : IsConsistent x.bank → IsConsistent x'.bank

abbrev pub outside : Exchange → Bank.Database × List Market × List StatusTransition
outside x = (x.bank, x.markets, x.transitions)

pub outside-IsKept : {x x' : Exchange} → outside x' ≡ outside x → IsKept x x'
outside-IsKept {x} {x'} same = record {
  markets = ap (λ (t : Bank.Database × List Market × List StatusTransition). t.1) same;
  transitions = ap (λ (t : Bank.Database × List Market × List StatusTransition). t.2) same;
  ledger =
      subst IsConsistent
        (sym (ap (λ (t : Bank.Database × List Market × List StatusTransition). t.0) same));
}

pub IsKept-refl : {x : Exchange} → IsKept x x
IsKept-refl {x} = outside-IsKept {x = x} {x' = x} refl

pub IsKept-trans : {x y z : Exchange} → IsKept x y → IsKept y z → IsKept x z
IsKept-trans k l = record {
  markets = l.markets ∙ k.markets;
  transitions = l.transitions ∙ k.transitions;
  ledger = λ c. l.ledger (k.ledger c);
}
