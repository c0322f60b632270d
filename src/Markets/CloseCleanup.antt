-- ===== src/Markets/CloseCleanup.antt =====
-- MarketCloseCleanupService (markets/services/close_cleanup_service.py): when a market closes, its
-- open orders are cancelled and their releases are summed up. The call runs inside the transaction
-- that closes the market.
pub mod Cleared
pub mod Totals
use leagueos_backend.Prelude.{
  ℕ, ◌+◌, Bool, true, false, ◌&&◌, Option, none, some, List, [], ◌∷◌, leb, ◌==◌, if◌then◌else◌, any,
  select, map, ◌++◌, length, sort_by, Result, ok, err, ◌>>=◌, ◌>>◌, raise_if,
}
use leagueos_backend.Markets.Model.{
  Side, buy, Order, CloseCleanup, CloseOrderCancellation, Exchange, Label, Error,
  already_cleaned_up,
}
use leagueos_backend.Markets.Orders.{is_fillable_status, remaining, side_eq}
use leagueos_backend.Markets.Cancellation.{Released, cancel_locked_order}

unfoldable pub is_outstanding : ℕ → Order → Bool
is_outstanding market o = (o.market == market) && is_fillable_status o.status

-- The market's open and partially filled orders, by key.
unfoldable pub outstanding_orders : ℕ → Exchange → List Order
outstanding_orders market x =
    sort_by (λ a b. leb a.id b.id) (select (is_outstanding market) x.orders)

-- The counters of the loop.
pub record Counters : Type 0 where
  pub buy_count : ℕ
  pub sell_count : ℕ
  pub released_buy : ℕ
  pub released_sell : ℕ

unfoldable pub count_cancellation : Order → Released → Counters → Counters
count_cancellation o r c =
    if side_eq o.side buy
    then record c { buy_count = c.buy_count + 1; released_buy = c.released_buy + r.wallet_amount }
    else record c {
      sell_count = c.sell_count + 1;
      released_sell = c.released_sell + r.position_quantity;
    }

unfoldable pub cancellation_of : ℕ → Order → Released → CloseOrderCancellation
cancellation_of cleanup o r = record {
  market_close_cleanup = cleanup;
  market_order = o.id;
  order_side = o.side;
  remaining_quantity_cancelled = remaining o;
  released_wallet_reservation_amount = r.wallet_amount;
  released_position_reservation_quantity = r.position_quantity;
  wallet_release_ledger_entry = r.wallet_entry;
}

abbrev pub no_counts : Counters
no_counts = record { buy_count = 0; sell_count = 0; released_buy = 0; released_sell = 0 }

-- The cleanup's row, and the rows of its cancellations, newest first.
unfoldable pub cleanup_of : ℕ → ℕ → ℕ → Counters → ℕ → CloseCleanup
cleanup_of id market actor c total = record {
  id = id;
  market = market;
  total_cancelled_order_count = total;
  cancelled_buy_order_count = c.buy_count;
  cancelled_sell_order_count = c.sell_count;
  total_released_buy_reservation_amount = c.released_buy;
  total_released_sell_reservation_quantity = c.released_sell;
  executed_by = actor;
}

unfoldable pub store_cancellations :
    ℕ → List (Order × Released) → List CloseOrderCancellation → List CloseOrderCancellation
store_cancellations cleanup [] cs = cs
store_cancellations cleanup ((o, r) ∷ rs) cs =
    store_cancellations cleanup rs (cancellation_of cleanup o r ∷ cs)

module _ (uuid5 : ℕ → Label → ℕ) where
  -- The loop over the orders: the results are in the order of the calls.
  unfoldable pub cancel_all :
      List Order
      → Counters
      → Exchange
      → Result Error (List (Order × Released) × Counters × Exchange)
  cancel_all [] c x = ok ([], c, x)
  cancel_all (o ∷ os) c x = do
    (r, x') ← cancel_locked_order uuid5 o x
    (rs, c', x'') ← cancel_all os (count_cancellation o r c) x'
    ok ((o, r) ∷ rs, c', x'')

  unfoldable pub cleanup_locked_market : ℕ → ℕ → Exchange → Result Error (CloseCleanup × Exchange)
  cleanup_locked_market market actor x = do
    raise_if (any (λ c. c.market == market) x.cleanups) already_cleaned_up
    let orders = outstanding_orders market x
    (results, c, x') ← cancel_all orders no_counts x
    let cleanup = cleanup_of x'.next_id market actor c (length orders)
    ok (
      cleanup,
      record x' {
        cleanups = cleanup ∷ x'.cleanups;
        close_cancellations = store_cancellations cleanup.id results x'.close_cancellations;
        next_id = x'.next_id + 1;
      },
    )
