-- ===== src/Markets/Settlement/Flat.antt =====
-- The positions of a settled market (markets/services/settlement_service.py).
use mathlib.Core.Option.{none-ne-some}
use leagueos_backend.Prelude.{
  ℕ, ◌≡◌, refl, sym, ap, ◌∙◌, subst, arith, Bool, false, ◌&&◌, ◌==◌, ==_sound, ltb, leb, any,
  select, find-holds, sort_by, any-sort_by, inl, inr, none, some, List, [], ◌∷◌, ok, >>=-eq-ok,
  ok-injective,
}
use leagueos_backend.Prelude.Sweeps.{
  any-select, any-congr, Covers, Covers-listed, Covers-save, Covers-none,
}
use leagueos_backend.Markets.Model.{Position, MarketSettlement, Exchange, Label}
use leagueos_backend.Markets.Orders.{get_market}
use leagueos_backend.Markets.Positions.{save_position}
use leagueos_backend.Markets.Settlement.{
  flatten, is_positive, lock_positions, settle_positions, settle_position, get_settlement,
  settle_market,
}
use leagueos_backend.Markets.Settlement.Steps.{settle_position-frame, settle_pool-frame}
use leagueos_backend.Markets.Settlement.Settled.{settle_market-cases}

abbrev position_key : Position → ℕ
position_key p = p.id

-- A position of the market with shares.
abbrev pub holds_shares : ℕ → Position → Bool
holds_shares market p = (p.market == market) && ltb 0 p.quantity

locked-holders :
    (market : ℕ) (x : Exchange)
    → Covers position_key
        (holds_shares market)
        (select is_positive (lock_positions market x))
        x.positions
unfolding lock_positions is_positive
locked-holders market x = Covers-listed position_key (holds_shares market) _ x.positions (λ k.
    let p : Position → Bool = λ o. o.id == k in
    let le : Position → Position → Bool = λ a b. leb a.id b.id in
    let held = select (λ (o : Position). o.market == market) x.positions in
    any-select is_positive p (sort_by le held)
    ∙ any-sort_by le (λ o. is_positive o && p o) held
    ∙ any-select (λ (o : Position). o.market == market) (λ o. is_positive o && p o) x.positions
    ∙ any-congr _ _ (λ o. ground arith) x.positions)

module _ (uuid5 : ℕ → Label → ℕ) (namespace now : ℕ) where
  settle_positions-flat :
      (market id winner : ℕ) (ps : List Position) (x : Exchange) {x' : Exchange}
      → Covers position_key (holds_shares market) ps x.positions
      → settle_positions uuid5 namespace now id winner ps x ≡ ok x'
      → any (holds_shares market) x'.positions ≡ false
  unfolding settle_positions flatten save_position
  settle_positions-flat market id winner [] x c h =
      subst (λ (y : Exchange). any (holds_shares market) y.positions ≡ false) (ok-injective h)
        (Covers-none position_key (holds_shares market) x.positions c)
  settle_positions-flat market id winner (p ∷ ps) x c h =
      let (y, first, h₁) = >>=-eq-ok (settle_position uuid5 namespace now id winner p x) _ h in
      let (f, (a, rows)) = settle_position-frame uuid5 namespace now id winner p x first in
      let c' =
        Covers-save position_key (holds_shares market) p (flatten a p) ps x.positions refl
          (ground arith) c in
      settle_positions-flat market id winner ps y
        (subst (Covers position_key (holds_shares market) ps) (sym rows) c') h₁

  -- After the settlement of a market that had none, no position in the market has shares.
  pub settle_market-flat :
      (permission : Bool) (id actor : ℕ) (x : Exchange) (s : MarketSettlement) (x' : Exchange)
      → get_settlement id x ≡ none
      → settle_market uuid5 namespace now permission id actor x ≡ ok (s, x')
      → any (holds_shares id) x'.positions ≡ false
  unfolding get_market
  settle_market-flat permission id actor x s x' unsettled h =
      let (m, read, rest) = settle_market-cases uuid5 namespace now permission id actor x h in
      let key = ==_sound m.id id (find-holds _ x.markets m read) in
      elim rest [
        | inl (old, same) ↦
            absurd
              (none-ne-some _ (sym unsettled ∙ subst (λ n. get_settlement n x ≡ some s) key old))
        | inr (new, d) ↦
            let (f, rows) = settle_pool-frame uuid5 namespace now _ _ _ d.pool_settled in
            let flat =
              settle_positions-flat m.id s.id d.winner _ _ (locked-holders m.id x)
                d.positions_settled in
            subst (λ n. any (holds_shares n) x'.positions ≡ false) key
              (ap (any (holds_shares m.id)) rows ∙ flat)
      ]
