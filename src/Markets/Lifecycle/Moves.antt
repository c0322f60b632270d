-- ===== src/Markets/Lifecycle/Moves.antt =====
-- The operations of MarketLifecycleService (markets/services/lifecycle_service.py) as moves.
use leagueos_backend.Prelude.{
  find, ◌==◌, ℕ, ◌≡◌, refl, sym, ap, ◌∙◌, subst, Bool, true, ◌||◌, Bool-cases, inl, inr, some, [],
  ok, >>=-eq-ok, raise_if, require,
}
use leagueos_backend.Wallets.Model as Bank
use leagueos_backend.Wallets.Normalize.{strip}
use leagueos_backend.Markets.Expiry.{is_empty}
use leagueos_backend.Wallets.Ledger.{IsConsistent}
use leagueos_backend.Markets.Model.{
  Market, MarketStatus, draft, pending_approval, approved, open_market, suspended, closed, rejected,
  TransitionAction, submit, approve, reject, revert_to_draft, open_action, suspend, reopen, close,
  Exchange, Label,
}
use leagueos_backend.Markets.CloseCleanup.{cleanup_locked_market}
use leagueos_backend.Markets.CloseCleanup.Cleared.{cleanup_locked_market-IsKept}
use leagueos_backend.Markets.Liquidity.Banking.{activate_opening_liquidity-IsKept}
use leagueos_backend.Markets.Liquidity.{activate_opening_liquidity}
use leagueos_backend.Markets.Frame.{IsKept, IsKept-refl}
use leagueos_backend.Markets.Orders.{get_market}
use leagueos_backend.Markets.Lifecycle.{
  save_market, is_status, Actor, has_complete_outcomes, validate_active_window, transition_of,
  begin_transition, unapproved, submit_market, approve_market, reject_market,
  revert_market_to_draft, suspend_market, reopen_market, open_for_trading, close_market,
}
use leagueos_backend.Markets.Lifecycle.Graph.{
  Move, submitting, submitting_again, approving, rejecting, reverting, opening_trade, suspending,
  reopening, closing_open, closing_suspended, is_status_sound, others, IsMove,
  get_market-save_market, others-save_market, get_market-id, IsBegun, begin_transition-IsBegun,
  IsApplied, apply_transition-IsApplied,
}

-- An action that leaves one status moves a market that the guard let through.
from_status :
    {action : TransitionAction} {from to : MarketStatus} (s : MarketStatus)
    → Move action from to
    → is_status s from ≡ true
    → Move action s to
from_status {action} {from} {to} s move h =
    subst (λ r. Move action r to) (sym (is_status_sound s from h)) move

from_either :
    {action : TransitionAction} {from from' to : MarketStatus} (s : MarketStatus)
    → Move action from to
    → Move action from' to
    → (is_status s from || is_status s from') ≡ true
    → Move action s to
from_either {action} {from} {from'} {to} s move move' h = elim (Bool-cases (is_status s from)) [
  | inl same ↦ from_status s move same
  | inr other ↦ from_status s move' (rw other at h)
]

-- A move, and what it does to the wallet ledger.
pub record IsStep (id : ℕ) (actor : Actor) (notes : Bank.Text) (x : Exchange) (m' : Market)
    (x' : Exchange) : Type 0 where
  pub moved : IsMove id actor notes x m' x'
  pub ledger : IsConsistent x.bank → IsConsistent x'.bank

-- The move of an operation that reads the row `m`, changes other fields to `n` and applies.
begun_then_applied :
    {id : ℕ} {allowed : MarketStatus → Bool} {x y : Exchange} {m n m' : Market} {x' : Exchange}
    {actor : Actor} {action : TransitionAction} {to : MarketStatus} {notes cleaned : Bank.Text}
    → IsBegun id allowed notes x m cleaned
    → n.id ≡ m.id
    → n.status ≡ m.status
    → Move action m.status to
    → IsApplied n actor action to cleaned y m' x'
    → IsKept x y
    → IsStep id actor notes x m' x'
unfolding transition_of get_market
begun_then_applied {id} {allowed} {x} {y} {m} {n} {m'} {x'} {actor} {action} {to} {notes} {cleaned}
      b same_id same_status move a kept =
    let moved = ap (λ (w : Market). w.status) a.row in
    let bank = ap (λ (w : Exchange). w.bank) a.left in
    let old = same_id ∙ get_market-id id x b.read in
    let key = ap (λ (w : Market). w.id) a.row ∙ old in
    let saved = ap (λ (w : Exchange). w.markets) a.left ∙ ap (save_market m') kept.markets in
    record {
      moved = record {
        before = m;
        action = action;
        read = b.read;
        move = subst (λ s. Move action m.status s) (sym moved) move;
        stored =
            ap (find (λ (w : Market). w.id == id)) saved
            ∙ get_market-save_market id m' x key b.read;
        unmoved =
            ap (others id) saved
            ∙ subst (λ i. others i (save_market m' x.markets) ≡ others i x.markets) key
                (others-save_market m' x.markets);
        recorded =
            ap (λ (w : Exchange). w.transitions) a.left
            ∙ (rw (same_status, moved, old, b.stripped, kept.transitions));
      };
      ledger = λ k. subst IsConsistent (sym bank) (kept.ledger k);
    }

-- One of the texts that a submitted market has is empty.
abbrev lacks_text : Market → Bool
lacks_text m =
    is_empty (strip m.resolution_source)
    || is_empty (strip m.resolution_criteria)
    || is_empty (strip m.rules)

module _ (may : Bool) (id : ℕ) (actor : Actor) (notes : Bank.Text) (x : Exchange) {m' : Market}
    {x' : Exchange} where
  pub suspend_market-IsStep :
      suspend_market may id actor notes x ≡ ok (m', x') → IsStep id actor notes x m' x'
  unfolding suspend_market
  suspend_market-IsStep h =
      let ((m, cleaned), h₁, k) = >>=-eq-ok (begin_transition may id _ notes x) _ h in
      let b = begin_transition-IsBegun may id _ notes x h₁ in
      begun_then_applied b refl refl (from_status m.status suspending b.status)
        (apply_transition-IsApplied m actor suspend suspended cleaned x k) (IsKept-refl {x = x})

  pub submit_market-IsStep :
      submit_market may id actor notes x ≡ ok (m', x') → IsStep id actor notes x m' x'
  unfolding submit_market unapproved
  submit_market-IsStep h =
      let ((m, cleaned), h₁, k₁) = >>=-eq-ok (begin_transition may id _ notes x) _ h in
      let (_, h₂, k₂) = >>=-eq-ok (raise_if (lacks_text m) _) _ k₁ in
      let (_, h₃, k) = >>=-eq-ok (require (has_complete_outcomes m.id x) _) _ k₂ in
      let b = begin_transition-IsBegun may id _ notes x h₁ in
      begun_then_applied b refl refl (from_either m.status submitting submitting_again b.status)
        (apply_transition-IsApplied (unapproved m []) actor submit pending_approval cleaned x k)
        (IsKept-refl {x = x})

  pub reject_market-IsStep :
      reject_market may id actor notes x ≡ ok (m', x') → IsStep id actor notes x m' x'
  unfolding reject_market unapproved
  reject_market-IsStep h =
      let ((m, cleaned), h₁, k) = >>=-eq-ok (begin_transition may id _ notes x) _ h in
      let b = begin_transition-IsBegun may id _ notes x h₁ in
      begun_then_applied b refl refl (from_status m.status rejecting b.status)
        (apply_transition-IsApplied (unapproved m cleaned) actor reject rejected cleaned x k)
        (IsKept-refl {x = x})

  pub revert_market_to_draft-IsStep :
      revert_market_to_draft may id actor notes x ≡ ok (m', x') → IsStep id actor notes x m' x'
  unfolding revert_market_to_draft unapproved
  revert_market_to_draft-IsStep h =
      let ((m, cleaned), h₁, k) = >>=-eq-ok (begin_transition may id _ notes x) _ h in
      let b = begin_transition-IsBegun may id _ notes x h₁ in
      begun_then_applied b refl refl (from_status m.status reverting b.status)
        (apply_transition-IsApplied (unapproved m cleaned) actor revert_to_draft draft cleaned x k)
        (IsKept-refl {x = x})

  module _ (now : ℕ) where
    pub approve_market-IsStep :
        approve_market may id actor notes now x ≡ ok (m', x') → IsStep id actor notes x m' x'
    unfolding approve_market
    approve_market-IsStep h =
        let ((m, cleaned), h₁, k) = >>=-eq-ok (begin_transition may id _ notes x) _ h in
        let b = begin_transition-IsBegun may id _ notes x h₁ in
        begun_then_applied b refl refl (from_status m.status approving b.status)
          (apply_transition-IsApplied
            (record m {
              approved_by = some actor.id;
              approved_at = some now;
              approval_notes = cleaned;
            })
            actor approve approved cleaned x k)
          (IsKept-refl {x = x})

    pub reopen_market-IsStep :
        reopen_market may id actor notes now x ≡ ok (m', x') → IsStep id actor notes x m' x'
    unfolding reopen_market
    reopen_market-IsStep h =
        let ((m, cleaned), h₁, k) = >>=-eq-ok (begin_transition may id _ notes x) _ h in
        let (_, h₂, k₂) = >>=-eq-ok (validate_active_window m now) _ k in
        let b = begin_transition-IsBegun may id _ notes x h₁ in
        begun_then_applied b refl refl (from_status m.status reopening b.status)
          (apply_transition-IsApplied m actor reopen open_market cleaned x k₂) (IsKept-refl {x = x})

  module _ (uuid5 : ℕ → Label → ℕ) where
    pub close_market-IsStep :
        close_market uuid5 may id actor notes x ≡ ok (m', x') → IsStep id actor notes x m' x'
    unfolding close_market
    close_market-IsStep h =
        let ((m, cleaned), h₁, k) = >>=-eq-ok (begin_transition may id _ notes x) _ h in
        let ((_, x₂), h₂, k₂) = >>=-eq-ok (cleanup_locked_market uuid5 m.id actor.id x) _ k in
        let b = begin_transition-IsBegun may id _ notes x h₁ in
        begun_then_applied b refl refl
          (from_either m.status closing_open closing_suspended b.status)
          (apply_transition-IsApplied m actor close closed cleaned x₂ k₂)
          (cleanup_locked_market-IsKept uuid5 m.id actor.id x _ x₂ h₂)

    pub open_for_trading-IsStep :
        (opening_namespace now : ℕ)
        → open_for_trading uuid5 opening_namespace may id actor notes now x ≡ ok (m', x')
        → IsStep id actor notes x m' x'
    unfolding open_for_trading
    open_for_trading-IsStep opening_namespace now h =
        let ((m, cleaned), h₁, k) = >>=-eq-ok (begin_transition may id _ notes x) _ h in
        let (_, h₂, k₂) = >>=-eq-ok (validate_active_window m now) _ k in
        let (_, h₃, k₃) = >>=-eq-ok (require (has_complete_outcomes m.id x) _) _ k₂ in
        let ((_, x₂), h₄, k₄) =
          >>=-eq-ok (activate_opening_liquidity uuid5 opening_namespace now m.id actor.id x) _ k₃ in
        let b = begin_transition-IsBegun may id _ notes x h₁ in
        begun_then_applied b refl refl (from_status m.status opening_trade b.status)
          (apply_transition-IsApplied m actor open_action open_market cleaned x₂ k₄)
          (activate_opening_liquidity-IsKept uuid5 opening_namespace now m.id actor.id x _ x₂ h₄)
