-- ===== src/Markets/Settlement/Settled.antt =====
-- A settled market (markets/services/settlement_service.py).
use mathlib.Core.Option.{none-ne-some}
use leagueos_backend.Prelude.{
  ℕ, ◌+◌, ◌≡◌, ◌⊎◌, refl, sym, ap, ◌∙◌, subst, arith, Bool, true, inl, inr, ◌==◌, ==_refl, ==_sound,
  Option-cases, find, find-head, find-holds, none, some, ◌∷◌, select, ok, >>=-eq-ok, ok-injective,
  or_raise, require,
}
use leagueos_backend.Wallets.Ledger.{IsConsistent}
use leagueos_backend.Markets.Model.{Market, MarketSettlement, Exchange, Label}
use leagueos_backend.Markets.Orders.{get_market}
use leagueos_backend.Markets.Complements.{get_pool}
use leagueos_backend.Markets.Settlement.{
  is_positive, lock_positions, market_settlement_of, pool_covers, settle_positions, settle_pool,
  check_settlement, settle_new, get_settlement, settle_market,
}
use leagueos_backend.Markets.Settlement.Guards.{IsSettleable, check_settlement-IsSettleable}
use leagueos_backend.Markets.Settlement.Steps.{settle_positions-frame, settle_pool-frame}

module _ (uuid5 : ℕ → Label → ℕ) (namespace now : ℕ) where
  -- The new settlement of a market: its checks, its positions and its pool.
  pub record IsSettled (m : Market) (actor : ℕ) (x : Exchange) (s : MarketSettlement)
      (x' : Exchange) : Type 0 where
    pub winner : ℕ
    pub middle : Exchange
    pub checked : check_settlement uuid5 namespace now m x ≡ ok winner
    pub row :
        s
        ≡ market_settlement_of x.next_id m.id winner
            (select is_positive (lock_positions m.id x))
            actor
    pub covered : pool_covers (get_pool m.id x) s.total_payout_amount ≡ true
    pub positions_settled :
        settle_positions uuid5 namespace now s.id winner
          (select is_positive (lock_positions m.id x))
          (record x { settlements = s ∷ x.settlements; next_id = x.next_id + 1 })
        ≡ ok middle
    pub pool_settled : settle_pool uuid5 namespace now (get_pool m.id x) s middle ≡ ok x'

  settle_new-IsSettled :
      (m : Market) (actor : ℕ) (x : Exchange) {s : MarketSettlement} {x' : Exchange}
      → settle_new uuid5 namespace now m actor x ≡ ok (s, x')
      → IsSettled m actor x s x'
  unfolding settle_new
  settle_new-IsSettled m actor x {s} {x'} h =
      let (winner, checked, h₁) = >>=-eq-ok (check_settlement uuid5 namespace now m x) _ h in
      let ps = select is_positive (lock_positions m.id x) in
      let s₀ = market_settlement_of x.next_id m.id winner ps actor in
      let (u, covered, h₂) =
        >>=-eq-ok (require (pool_covers (get_pool m.id x) s₀.total_payout_amount) _) _ h₁ in
      let start : Exchange = record x {
        settlements = s₀ ∷ x.settlements;
        next_id = x.next_id + 1;
      } in
      let (x₁, paid, h₃) =
        >>=-eq-ok (settle_positions uuid5 namespace now s₀.id winner ps start) _ h₂ in
      let (x₂, pooled, h₄) =
        >>=-eq-ok (settle_pool uuid5 namespace now (get_pool m.id x) s₀ x₁) _ h₃ in
      let made : IsSettled m actor x s₀ x₂ = record {
        winner = winner;
        middle = x₁;
        checked = checked;
        row = refl;
        covered = ground (arith, covered);
        positions_settled = paid;
        pool_settled = pooled;
      } in
      subst (λ (y : MarketSettlement × Exchange). IsSettled m actor x y.0 y.1) (ok-injective h₄)
        made

  pub settle_market-cases :
      (permission : Bool) (id actor : ℕ) (x : Exchange) {s : MarketSettlement} {x' : Exchange}
      → settle_market uuid5 namespace now permission id actor x ≡ ok (s, x')
      → (m : Market) × (get_market id x ≡ some m)
        × (((get_settlement m.id x ≡ some s) × (x' ≡ x))
            ⊎ ((get_settlement m.id x ≡ none) × IsSettled m actor x s x'))
  unfolding settle_market
  settle_market-cases permission id actor x {s} {x'} h =
      let (u, may, h₁) = >>=-eq-ok (require permission _) _ h in
      let (m, read, h₂) = >>=-eq-ok (or_raise (get_market id x) _) _ h₁ in
      (
        m,
        ground (arith, read),
        elim (Option-cases (get_settlement m.id x)) [
          | inl new ↦ inr (new, settle_new-IsSettled m actor x (rw new at h₂))
          | inr (t, old) ↦
              let done = ok-injective (rw old at h₂) in
              inl (
                old ∙ ap some (ap (λ (y : MarketSettlement × Exchange). y.0) done),
                sym (ap (λ (y : MarketSettlement × Exchange). y.1) done),
              )
        ],
      )

  settled-frame :
      (m : Market) (actor : ℕ) (x : Exchange) {s : MarketSettlement} {x' : Exchange}
      → IsSettled m actor x s x'
      → (x'.markets ≡ x.markets)
        × (x'.settlements ≡ s ∷ x.settlements)
        × (IsConsistent x.bank → IsConsistent x'.bank)
  settled-frame m actor x d =
      let f = settle_positions-frame uuid5 namespace now _ _ _ _ d.positions_settled in
      let (g, same) = settle_pool-frame uuid5 namespace now _ _ _ d.pool_settled in
      (g.markets ∙ f.markets, g.settlements ∙ f.settlements, λ k. g.ledger (f.ledger k))

  module _ (permission : Bool) (id actor : ℕ) (x : Exchange) (s : MarketSettlement) (x' : Exchange)
      (h : settle_market uuid5 namespace now permission id actor x ≡ ok (s, x')) where
    -- A settlement keeps a consistent wallet ledger consistent.
    pub settle_market-IsConsistent : IsConsistent x.bank → IsConsistent x'.bank
    settle_market-IsConsistent k = elim (settle_market-cases permission id actor x h).2 [
      | inl (old, same) ↦ subst (λ (y : Exchange). IsConsistent y.bank) (sym same) k
      | inr (new, d) ↦ (settled-frame _ actor x d).2 k
    ]

    -- A market is settled once: asked again by anybody who may settle, at any later time, the same
    -- settlement is returned and nothing changes.
    pub settle_market-once :
        (later another : ℕ) → settle_market uuid5 namespace later true id another x' ≡ ok (s, x')
    unfolding settle_market get_market get_settlement market_settlement_of
    settle_market-once later another =
        let (m, read, rest) = settle_market-cases permission id actor x h in
        elim rest [
          | inl (old, same) ↦ rw same (ground (arith, read, old))
          | inr (new, d) ↦
              let (markets, rows, ledger) = settled-frame m actor x d in
              let of_market = ap (λ (t : MarketSettlement). t.market) d.row in
              let found =
                find-head (λ (t : MarketSettlement). t.market == m.id) s x.settlements
                  (subst (λ n. (n == m.id) ≡ true) (sym of_market) (==_refl m.id)) in
              let still = ap (find (λ (n : Market). n.id == id)) markets ∙ read in
              let stored = ap (find (λ (t : MarketSettlement). t.market == m.id)) rows ∙ found in
              ground (arith, still, stored)
        ]

    -- A new settlement is of a resolved market, at the outcome that was confirmed, which is one of
    -- the market's, at the market's settlement time or later. If the market has a provisional result,
    -- its deadline for disputes has passed or was accelerated, and it has no dispute or a decision
    -- other than an extension of the review. The market was not refunded, none of its orders is open
    -- or partially filled, none of its positions has reserved shares, and the pool, if there is one,
    -- covers the payout.
    pub settle_market-guarded :
        get_settlement id x ≡ none
        → (m : Market) × (get_market id x ≡ some m)
          × IsSettleable m s.winning_outcome now x
          × (pool_covers (get_pool m.id x) s.total_payout_amount ≡ true)
    unfolding get_market market_settlement_of
    settle_market-guarded unsettled =
        let (m, read, rest) = settle_market-cases permission id actor x h in
        elim rest [
          | inl (old, same) ↦
              let key = ==_sound m.id id (find-holds _ x.markets m read) in
              absurd
                (none-ne-some _ (sym unsettled ∙ subst (λ n. get_settlement n x ≡ some s) key old))
          | inr (new, d) ↦
              let won = sym (ap (λ (t : MarketSettlement). t.winning_outcome) d.row) in
              let may = check_settlement-IsSettleable uuid5 namespace now m x d.checked in
              (m, read, subst (λ n. IsSettleable m n now x) won may, d.covered)
        ]
