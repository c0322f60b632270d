-- ===== src/Markets/Expiry.antt =====
-- MarketOrderExpiryService (markets/services/order_expiry_service.py): the expiry of orders that are
-- good until a date. `expire_order` is one atomic transaction; `expire_due_orders` is not, so an
-- error in it leaves the expiries before it in place.
pub mod Audits
pub mod Runs
use leagueos_backend.Prelude.{
  ℕ, zero, suc, ◌-◌, Bool, true, false, not, ◌&&◌, ◌||◌, Option, none, some, List, [], ◌∷◌, map,
  ltb, leb, ◌==◌, if◌then◌else◌, find, select, Result, ok, err, ◌>>=◌, ◌>>◌, require, raise_if,
  or_raise, sort_by, take,
}
use leagueos_backend.Wallets.Model as Bank
use leagueos_backend.Wallets.Normalize.{strip}
use leagueos_backend.Markets.Model.{
  Side, buy, sell, Order, OrderStatus, OrderExpiryAudit, ExpirySource, system, admin, Exchange,
  Label, expiry_release, Error, missing_order, no_position, reserved_position_too_small,
  invalid_limit, invalid_source, reason_required, actor_required, not_gtd, not_expirable, no_expiry,
  not_due, nothing_to_expire, invalid_expiry_audit,
}
use leagueos_backend.Markets.Orders.{
  get_order, save_order, is_fillable_status, is_gtd, remaining, clean_order,
}
use leagueos_backend.Markets.Positions.{get_position}
use leagueos_backend.Markets.Cancellation.{Released, release_funds, unreserve, released_shares}

-- The arguments of `expire_order`; a source that is not one of the choices is none.
pub record Expiry : Type 0 where
  pub order_id : ℕ
  pub source : Option ExpirySource
  pub reason : Bank.Text
  pub actor : Option ℕ

unfoldable pub is_admin : ExpirySource → Bool
is_admin admin = true
is_admin system = false

unfoldable pub is_empty : Bank.Text → Bool
is_empty [] = true
is_empty (c ∷ cs) = false

unfoldable pub is_absent : Option ℕ → Bool
is_absent none = true
is_absent (some n) = false

-- `_validate_request`: of the errors that the code collects, the first is the outcome.
unfoldable pub validate_request : Order → Expiry → Result Error (ExpirySource × Bank.Text)
validate_request o r = do
  source ← or_raise r.source invalid_source
  let reason = strip r.reason
  raise_if (is_empty reason) reason_required
  raise_if (is_admin source && is_absent r.actor) actor_required
  require (is_gtd o.time_in_force) not_gtd
  require (is_fillable_status o.status) not_expirable
  ok (source, reason)

unfoldable pub require_due_order : Order → ℕ → Result Error (Unit {0})
require_due_order o now = do t ← or_raise o.expires_at no_expiry; raise_if (ltb now t) not_due

-- The check of the reserved quantity before it is reduced.
unfoldable pub release_due_shares : Order → Exchange → Result Error (Released × Exchange)
release_due_shares o x = do
  p ← or_raise (get_position o.user o.market o.outcome x) no_position
  raise_if (ltb p.reserved_quantity (remaining o)) reserved_position_too_small
  x' ← unreserve p (remaining o) x
  ok (released_shares o, x')

unfoldable pub expiry_audit :
    Order → ExpirySource → Bank.Text → Option ℕ → Released → ℕ → OrderExpiryAudit
expiry_audit o source reason actor r now = record {
  market_order = o.id;
  source = source;
  previous_status = o.status;
  expired_quantity = remaining o;
  released_wallet_reservation_amount = r.wallet_amount;
  released_position_reservation_quantity = r.position_quantity;
  wallet_release_ledger_entry = r.wallet_entry;
  actor = actor;
  reason = reason;
  expired_at = now;
}

-- `audit.full_clean()`
unfoldable pub clean_audit : OrderExpiryAudit → Result Error (Unit {0})
clean_audit a = require (not (is_empty a.reason) && ltb 0 a.expired_quantity) invalid_expiry_audit

unfoldable pub get_expiry : ℕ → Exchange → Option OrderExpiryAudit
get_expiry order x = find (λ a. a.market_order == order) x.expiries

-- The call of the list comprehension for one order.
unfoldable pub system_expiry : ℕ → Expiry
system_expiry id = record {
  order_id = id;
  source = some system;
  reason = Bank.codes "GTD order deadline elapsed.";
  actor = none;
}

-- `.filter(time_in_force=GTD, status__in=..., expires_at__lte=now)`
unfoldable pub is_due : ℕ → Order → Bool
is_due now o =
    is_gtd o.time_in_force
    && is_fillable_status o.status
    && (elim o.expires_at [ none ↦ false | some t ↦ leb t now ])

module _ (uuid5 : ℕ → Label → ℕ) (now : ℕ) where
  unfoldable pub release_due : Order → Exchange → Result Error (Released × Exchange)
  release_due o x = elim o.side [
    | buy ↦ release_funds (uuid5 o.id expiry_release) o x
    | sell ↦ release_due_shares o x
  ]

  -- `expire_order` for an order without an audit.
  unfoldable pub expire_locked_order :
      Order → Expiry → Exchange → Result Error (OrderExpiryAudit × Exchange)
  expire_locked_order o r x = do
    (source, reason) ← validate_request o r
    require_due_order o now
    require (ltb 0 (remaining o)) nothing_to_expire
    (released, x') ← release_due o x
    let o' = record o { status = OrderStatus.expired; expired_at = some now }
    clean_order o' x'
    let a = expiry_audit o source reason r.actor released now
    clean_audit a
    ok (a, record x' { orders = save_order o' x'.orders; expiries = a ∷ x'.expiries })

  unfoldable pub expire_order : Expiry → Exchange → Result Error (OrderExpiryAudit × Exchange)
  expire_order r x = do
    o ← or_raise (get_order r.order_id x) missing_order
    elim (get_expiry o.id x) [ some a ↦ ok (a, x) | none ↦ expire_locked_order o r x ]

  -- The exchange after the calls, whether they all returned or one of them raised.
  unfoldable pub expire_all : List ℕ → Exchange → Result Error (List OrderExpiryAudit) × Exchange
  expire_all [] x = (ok [], x)
  expire_all (id ∷ ids) x = elim (expire_order (system_expiry id) x) [
    | err e ↦ (err e, x)
    | ok (a, x') ↦
        (let (audits, x'') = expire_all ids x' in (audits >>= (λ rest. ok (a ∷ rest)), x''))
  ]

-- `.order_by("expires_at", "created_at", "id")`: `a` is not after `b`.
unfoldable pub expiry_time : Order → ℕ
expiry_time o = elim o.expires_at [ none ↦ 0 | some t ↦ t ]

unfoldable pub is_earlier : Order → Order → Bool
is_earlier a b =
    ltb (expiry_time a) (expiry_time b)
    || ((expiry_time a == expiry_time b)
        && (ltb a.created_at b.created_at || ((a.created_at == b.created_at) && leb a.id b.id)))

unfoldable pub due_ids : ℕ → ℕ → Exchange → List ℕ
due_ids now limit x =
    map (λ o. o.id) (take limit (sort_by is_earlier (select (is_due now) x.orders)))

unfoldable pub expire_due_orders :
    (ℕ → Label → ℕ) → ℕ → ℕ → Exchange → Result Error (List OrderExpiryAudit) × Exchange
expire_due_orders uuid5 now limit x =
    if ltb limit 1 || ltb 1_000 limit
    then (err invalid_limit, x)
    else expire_all uuid5 now (due_ids now limit x) x
