-- ===== src/Markets/Cancellation.antt =====
-- The release of what an order reserves, and the cancellation of orders (`cancel_locked_order` and
-- `cancel_order` of MarketParticipationService, markets/services/participation_service.py). The
-- notifications after a cancellation change no table of the model.
pub mod Releasing
pub mod Final
use leagueos_backend.Prelude.{
  ℕ, ◌-◌, Bool, true, false, Option, none, some, leb, ◌==◌, Result, ok, err, ◌>>=◌, ◌>>◌, require,
  or_raise,
}
use leagueos_backend.Prelude.Int.{pos}
use leagueos_backend.Wallets.Model as Bank
use leagueos_backend.Wallets.Normalize.{units}
use leagueos_backend.Wallets.Service.{Request, release}
use leagueos_backend.Markets.Model.{
  Side, buy, sell, Order, cancelled, Position, Exchange, Label, cancellation_release, Error, wallet,
  missing_order, no_position, invalid_position, no_permission, user_not_verified, not_order_owner,
  not_cancellable,
}
use leagueos_backend.Markets.Money.{calculate_buy_commitment}
use leagueos_backend.Markets.Orders.{
  get_order, save_order, is_fillable_status, remaining, clean_order,
}
use leagueos_backend.Markets.Positions.{get_position, clean_position, save_position}
use leagueos_backend.Markets.Execute.{market_currency}

-- An error of the wallet service goes on to the caller.
abbrev pub from_bank {ℓ} : {A : Type ℓ} → Result Bank.Error A → Result Error A
from_bank (ok a) = ok a
from_bank (err e) = err (wallet e)

-- A wallet call for an order.
unfoldable pub order_request : Order → ℕ → ℕ → Request
order_request o amount reference = record {
  user = o.user;
  currency = market_currency;
  amount = units (pos amount);
  idempotency_reference = some reference;
  context = record { market = some o.market; order = some o.id; fill = none; transaction = none };
  counterparty_account = none;
}

-- What the release of a reservation gives back, with the reference of its wallet entry.
pub record Released : Type 0 where
  pub wallet_amount : ℕ
  pub position_quantity : ℕ
  pub wallet_entry : Option ℕ

-- The release of the remaining quantity of a buy order.
unfoldable pub release_funds : ℕ → Order → Exchange → Result Error (Released × Exchange)
release_funds reference o x = do
  let amount = calculate_buy_commitment (remaining o) o.limit_price o.maximum_fee_bps
  (entry, bank) ← from_bank (release (order_request o amount reference) x.bank)
  ok (
    record {
      wallet_amount = amount;
      position_quantity = 0;
      wallet_entry = some entry.idempotency_reference;
    },
    record x { bank = bank },
  )

-- `position.reserved_quantity -= quantity`, which `full_clean` refuses below zero.
unfoldable pub unreserve : Position → ℕ → Exchange → Result Error Exchange
unreserve p quantity x = do
  require (leb quantity p.reserved_quantity) invalid_position
  let p' = record p { reserved_quantity = p.reserved_quantity - quantity }
  clean_position p' x
  ok (record x { positions = save_position p' x.positions })

unfoldable pub released_shares : Order → Released
released_shares o = record {
  wallet_amount = 0;
  position_quantity = remaining o;
  wallet_entry = none;
}

unfoldable pub release_shares : Order → Exchange → Result Error (Released × Exchange)
release_shares o x = do
  p ← or_raise (get_position o.user o.market o.outcome x) no_position
  x' ← unreserve p (remaining o) x
  ok (released_shares o, x')

unfoldable pub require_cancellable_order : Order → Result Error (Unit {0})
require_cancellable_order o = require (is_fillable_status o.status) not_cancellable

module _ (uuid5 : ℕ → Label → ℕ) where
  unfoldable pub release_cancelled : Order → Exchange → Result Error (Released × Exchange)
  release_cancelled o x = elim o.side [
    | buy ↦ release_funds (uuid5 o.id cancellation_release) o x
    | sell ↦ release_shares o x
  ]

  -- `cancel_locked_order` on the row that the caller has locked.
  unfoldable pub cancel_locked_order : Order → Exchange → Result Error (Released × Exchange)
  cancel_locked_order o x = do
    require_cancellable_order o
    (released, x') ← release_cancelled o x
    let o' = record o { status = cancelled }
    clean_order o' x'
    ok (released, record x' { orders = save_order o' x'.orders })

  unfoldable pub cancel_order : Bank.User → Bool → ℕ → Exchange → Result Error (Released × Exchange)
  cancel_order user has_permission id x = do
    require has_permission no_permission
    require user.is_verified user_not_verified
    o ← or_raise (get_order id x) missing_order
    require (o.user == user.id) not_order_owner
    require_cancellable_order o
    cancel_locked_order o x
