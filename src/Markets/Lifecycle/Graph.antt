-- ===== src/Markets/Lifecycle/Graph.antt =====
-- The moves of a market's life cycle and what one leaves behind (markets/services/lifecycle_service.py).
use leagueos_backend.Prelude.{
  arith, ==_refl, not, select, find, Bool-cases, inl, inr, [], ℕ, ◌≡◌, refl, sym, ap, ◌∙◌, subst,
  Bool, true, false, ◌==◌, ==_sound, find-holds, none, some, List, ◌∷◌, ok, >>=-eq-ok, ok-injective,
  or_raise, require, if◌then◌else◌,
}
use leagueos_backend.Wallets.Model as Bank
use leagueos_backend.Wallets.Normalize.{strip}
use leagueos_backend.Markets.Model.{
  Market, MarketStatus, draft, pending_approval, approved, open_market, suspended, closed, resolved,
  voided, rejected, TransitionAction, submit, approve, reject, revert_to_draft, open_action,
  suspend, reopen, close, Exchange,
}
use leagueos_backend.Markets.Orders.{get_market}
use leagueos_backend.Markets.Lifecycle.{
  status_number, is_status, Actor, clean_notes, save_market, clean_market, clean_transition,
  transition_of, apply_transition, begin_transition,
}

-- The statuses that an action leads between.
pub data Move : TransitionAction → MarketStatus → MarketStatus → Type 0 where
  submitting : Move submit draft pending_approval
  submitting_again : Move submit rejected pending_approval
  approving : Move approve pending_approval approved
  rejecting : Move reject pending_approval rejected
  reverting : Move revert_to_draft approved draft
  opening_trade : Move open_action approved open_market
  suspending : Move suspend open_market suspended
  reopening : Move reopen suspended open_market
  closing_open : Move close open_market closed
  closing_suspended : Move close suspended closed

abbrev status_of : ℕ → MarketStatus
status_of n =
    if n == 0
    then draft
    else if n == 1
    then pending_approval
    else if n == 2
    then approved
    else if n == 3
    then open_market
    else if n == 4
    then suspended
    else if n == 5
    then closed
    else if n == 6
    then resolved
    else if n == 7
    then voided
    else rejected

status_of-status_number : (s : MarketStatus) → status_of (status_number s) ≡ s
unfolding status_number
status_of-status_number draft = refl
status_of-status_number pending_approval = refl
status_of-status_number approved = refl
status_of-status_number open_market = refl
status_of-status_number suspended = refl
status_of-status_number closed = refl
status_of-status_number resolved = refl
status_of-status_number voided = refl
status_of-status_number rejected = refl

pub is_status_sound : (a b : MarketStatus) → is_status a b ≡ true → a ≡ b
unfolding is_status
is_status_sound a b h =
    sym (status_of-status_number a)
    ∙ ap status_of (==_sound (status_number a) (status_number b) h)
    ∙ status_of-status_number b

-- The row of the market under the key, as a table knows it, and all the other rows.
abbrev pub others : ℕ → List Market → List Market
others id = select (λ (n : Market). not (n.id == id))

-- A market's row moved by an action: it was read in a status that the action leaves and is stored in
-- the status that the action leads to, no other market's row changed, and one row was added to the
-- history, with the action, both statuses, the actor and the notes, which are stripped when they are
-- checked and when they are saved.
pub record IsMove (id : ℕ) (actor : Actor) (notes : Bank.Text) (x : Exchange) (m' : Market)
    (x' : Exchange) : Type 0 where
  pub before : Market
  pub action : TransitionAction
  pub read : get_market id x ≡ some before
  pub move : Move action before.status m'.status
  pub stored : get_market id x' ≡ some m'
  pub unmoved : others id x'.markets ≡ others id x.markets
  pub recorded :
      x'.transitions
      ≡ record {
        market = id;
        action = action;
        from_status = before.status;
        to_status = m'.status;
        actor = actor.id;
        actor_email = actor.email;
        notes = strip (strip notes);
      }
        ∷ x.transitions

find-save_market :
    (m : Market) (ms : List Market) {old : Market}
    → find (λ (n : Market). n.id == m.id) ms ≡ some old
    → find (λ (n : Market). n.id == m.id) (save_market m ms) ≡ some m
unfolding find save_market
find-save_market m [] h = absurd (cc)
find-save_market m (n ∷ ms) h = elim (Bool-cases (n.id == m.id)) [
  | inl same ↦ rw (same, ==_refl m.id)
  | inr other ↦ rw (other, other) (find-save_market m ms (rw other at h))
]

-- A saved row is found by its key.
pub get_market-save_market :
    (id : ℕ) (m : Market) (x : Exchange) {old : Market}
    → m.id ≡ id
    → get_market id x ≡ some old
    → find (λ (n : Market). n.id == id) (save_market m x.markets) ≡ some m
unfolding get_market
get_market-save_market id m x {old} key read =
    subst (λ i. find (λ (n : Market). n.id == i) (save_market m x.markets) ≡ some m) key
      (find-save_market m x.markets
        (subst (λ i. find (λ (n : Market). n.id == i) x.markets ≡ some old) (sym key) read))

pub others-save_market :
    (m : Market) (ms : List Market) → others m.id (save_market m ms) ≡ others m.id ms
unfolding select save_market
others-save_market m [] = refl
others-save_market m (n ∷ ms) = elim (Bool-cases (n.id == m.id)) [
  | inl same ↦ rw (same, ==_refl m.id) (others-save_market m ms)
  | inr other ↦ rw (other, other) (ap (λ ns. n ∷ ns) (others-save_market m ms))
]

pub get_market-id : (id : ℕ) (x : Exchange) {m : Market} → get_market id x ≡ some m → m.id ≡ id
unfolding get_market
get_market-id id x {m} read = ==_sound m.id id (find-holds _ x.markets m read)

pub record IsBegun (id : ℕ) (allowed : MarketStatus → Bool) (notes : Bank.Text) (x : Exchange)
    (m : Market) (cleaned : Bank.Text) : Type 0 where
  pub read : get_market id x ≡ some m
  pub status : allowed m.status ≡ true
  pub stripped : cleaned ≡ strip notes

or_raise-ok {ℓ ℓ'} :
    {A : Type ℓ} {E : Type ℓ'} (m : _) (e : E) {a : A} → or_raise m e ≡ ok a → m ≡ some a
or_raise-ok (some b) e h = cc
or_raise-ok none e h = absurd (cc)

require-ok {ℓ} : {E : Type ℓ} (b : Bool) (e : E) {u : Unit {0}} → require b e ≡ ok u → b ≡ true
require-ok true e h = refl
require-ok false e h = absurd (cc)

clean_notes-strip : (notes : Bank.Text) {c : Bank.Text} → clean_notes notes ≡ ok c → c ≡ strip notes
unfolding clean_notes
clean_notes-strip notes h = ground arith

pub begin_transition-IsBegun :
    (may : Bool) (id : ℕ) (allowed : MarketStatus → Bool) (notes : Bank.Text) (x : Exchange)
    {m : Market} {cleaned : Bank.Text}
    → begin_transition may id allowed notes x ≡ ok (m, cleaned)
    → IsBegun id allowed notes x m cleaned
unfolding begin_transition
begin_transition-IsBegun may id allowed notes x {m} h =
    let (_, h₁, k₁) = >>=-eq-ok (require may _) _ h in
    let (n, h₂, k₂) = >>=-eq-ok (or_raise (get_market id x) _) _ k₁ in
    let (_, h₃, k₃) = >>=-eq-ok (require (allowed n.status) _) _ k₂ in
    let (c, h₄, k₄) = >>=-eq-ok (clean_notes notes) _ k₃ in
    subst (λ (p : Market × Bank.Text). IsBegun id allowed notes x p.0 p.1) (ok-injective k₄)
      (record {
        read = or_raise-ok _ _ h₂;
        status = require-ok _ _ h₃;
        stripped = clean_notes-strip notes h₄;
      })

pub record IsApplied (m : Market) (actor : Actor) (action : TransitionAction) (to : MarketStatus)
    (notes : Bank.Text) (x : Exchange) (m' : Market) (x' : Exchange) : Type 0 where
  pub row : m' ≡ record m { status = to }
  pub clean : clean_market m' x ≡ ok tt
  pub left : x' ≡ record x {
    markets = save_market m' x.markets;
    transitions = transition_of m actor action to notes ∷ x.transitions;
  }

pub apply_transition-IsApplied :
    (m : Market) (actor : Actor) (action : TransitionAction) (to : MarketStatus) (notes : Bank.Text)
    (x : Exchange) {m' : Market} {x' : Exchange}
    → apply_transition m actor action to notes x ≡ ok (m', x')
    → IsApplied m actor action to notes x m' x'
unfolding apply_transition
apply_transition-IsApplied m actor action to notes x {m'} {x'} h =
    let n = record m { status = to } in
    let (u, h₁, k₁) = >>=-eq-ok (clean_market n x) _ h in
    let (_, h₂, k₂) = >>=-eq-ok (clean_transition _) _ k₁ in
    let same = ok-injective k₂ in
    subst (λ (p : Market × Exchange). IsApplied m actor action to notes x p.0 p.1) same
      (record { row = refl; clean = h₁; left = refl })
