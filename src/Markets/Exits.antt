-- ===== src/Markets/Exits.antt =====
-- `record_exit` (markets/services/position_lifecycle_service.py): the snapshot of a trading cycle
-- when a sale has emptied the position. Fills and exits are stored newest first.
use mathlib.Core.List.{reverse}
use leagueos_backend.Prelude.{
  ℕ, ◌+◌, ◌*◌, Bool, true, false, ◌&&◌, ◌||◌, Option, none, some, List, [], ◌∷◌, ltb, ◌==◌,
  if◌then◌else◌, find, select,
}
use leagueos_backend.Prelude.Int.{ℤ, pos, ◌+ℤ◌, ◌-ℤ◌, pos_part, neg_part, sub_ℕ}
use leagueos_backend.Markets.Model.{Position, Fill, PositionExit, Exchange}
use leagueos_backend.Markets.Money.{half_up, half_up_signed}
use leagueos_backend.Markets.Orders.{get_order}

-- `order__user=user` of a fill's order
unfoldable pub is_order_of : ℕ → ℕ → Exchange → Bool
is_order_of user order x = elim (get_order order x) [ none ↦ false | some o ↦ o.user == user ]

-- The totals over the cycle's fills.
pub record Cycle : Type 0 where
  pub acquired : ℕ
  pub exited : ℕ
  pub proceeds : ℕ
  pub opened_at : ℕ

-- The body of the loop over the fills, the oldest first.
unfoldable pub count_fill : ℕ → Exchange → Cycle → Fill → Cycle
count_fill user x c f =
    let bought =
      if is_order_of user f.buy_order x
      then record c {
        acquired = c.acquired + f.quantity;
        opened_at = if c.acquired == 0 then f.created_at else c.opened_at;
      }
      else c in
    if is_order_of user f.sell_order x
    then record bought {
      exited = bought.exited + f.quantity;
      proceeds = bought.proceeds + f.quantity * f.price;
    }
    else bought

unfoldable pub count_fills : ℕ → Exchange → Cycle → List Fill → Cycle
count_fills user x c [] = c
count_fills user x c (f ∷ fs) = count_fills user x (count_fill user x c f) fs

unfoldable pub total_realized : List PositionExit → ℤ
total_realized [] = pos 0
total_realized (e ∷ es) = e.realized_pnl +ℤ total_realized es

-- The fills of the user in the market's outcome, since the exit before.
unfoldable pub cycle_fills : Position → Option PositionExit → Exchange → List Fill
cycle_fills p previous x = reverse (
    select
      (λ f.
        (f.market == p.market)
        && (f.outcome == p.outcome)
        && (is_order_of p.user f.buy_order x || is_order_of p.user f.sell_order x)
        && (elim previous [ none ↦ true | some e ↦ ltb e.exited_at f.created_at ]))
      x.fills)

-- The exit of a position at its closing fill, from the cycle's totals. The cost basis is the
-- proceeds, in units of 10 ^ -9, less the realized profit, rounded to units of 0.0001.
unfoldable pub exit_of : Position → Fill → Cycle → ℤ → PositionExit
exit_of p f c realized = record {
  position = p.id;
  closing_fill = f.id;
  opened_at = c.opened_at;
  exited_at = f.created_at;
  acquired_quantity = if c.acquired == 0 then c.exited else c.acquired;
  exited_quantity = c.exited;
  cost_basis =
      half_up_signed
        (sub_ℕ (c.proceeds + neg_part realized * 100_000) (pos_part realized * 100_000)) 100_000;
  realized_proceeds = half_up c.proceeds 100_000;
  realized_pnl = realized;
}

unfoldable pub record_exit : Position → Fill → Exchange → PositionExit × Exchange
record_exit p f x = elim (find (λ e. e.closing_fill == f.id) x.exits) [
  | some e ↦ (e, x)
  | none ↦
      (let mine = select (λ (e : PositionExit). e.position == p.id) x.exits in
        let previous = find (λ (e : PositionExit). e.position == p.id) x.exits in
        let start : Cycle = record {
          acquired = 0;
          exited = 0;
          proceeds = 0;
          opened_at = f.created_at;
        } in
        let c = count_fills p.user x start (cycle_fills p previous x) in
        let e = exit_of p f c (p.realized_pnl -ℤ total_realized mine) in
        (e, record x { exits = e ∷ x.exits }))
]
