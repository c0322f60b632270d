-- ===== src/Markets/Liquidity.antt =====
-- The opening liquidity of a market (MarketLiquidityService, markets/services/liquidity_service.py):
-- its configuration, and its activation, which buys complete sets for the provider and offers them
-- for sale. `activate_opening_liquidity` runs inside the transaction that opens the market.
pub mod Banking
use leagueos_backend.Prelude.{
  ℕ, ◌+◌, ◌*◌, Bool, true, false, not, ◌&&◌, ◌||◌, Option, none, some, List, [], ◌∷◌, map, ltb, leb,
  ◌==◌, if◌then◌else◌, max, find, select, any, sort_by, Result, ok, err, ◌>>=◌, ◌>>◌, require,
  raise_if, or_raise,
}
use leagueos_backend.Wallets.Model as Bank
use leagueos_backend.Wallets.Normalize.{units}
use leagueos_backend.Wallets.Service.{Request, debit_available}
use leagueos_backend.Markets.Model.{
  one, Market, MarketStatus, draft, rejected, Outcome, OutcomeSide, yes_side, no_side, sell, Order,
  open_order, gtc, Position, CollateralEntry, treasury_lock, CompleteSetIssuance, platform_opening,
  LiquidityProvider, ProviderType, platform_treasury, LiquidityConfiguration, ConfigurationStatus,
  configured, Exchange, Label, opening, treasury_debit, collateral_lock, Error, market_not_found,
  status_not_allowed, invalid_configuration, opening_prices_required, opening_prices_sum,
  provider_required, invalid_ask_price, invalid_position,
}
use leagueos_backend.Markets.Money.{notional}
use leagueos_backend.Markets.Fees.{rates}
use leagueos_backend.Markets.Orders.{get_market, clean_order}
use leagueos_backend.Markets.Positions.{get_position, clean_position}
use leagueos_backend.Prelude.Int.{pos}
use leagueos_backend.Markets.Execute.{market_currency}
use leagueos_backend.Markets.Cancellation.{from_bank}
use leagueos_backend.Markets.Complements.{
  get_issuance, clean_issuance, insert_issuance, get_or_create_pool, save_pool,
  insert_collateral_entry,
}
use leagueos_backend.Markets.Matching.{is_side}

unfoldable pub get_configuration : ℕ → Exchange → Option LiquidityConfiguration
get_configuration market x = find (λ c. c.market == market) x.liquidity_configurations

-- A market that may still be edited.
unfoldable pub is_editable : MarketStatus → Bool
is_editable draft = true
is_editable rejected = true
is_editable _ = false

-- `update_or_create(market=market, defaults=values)`
unfoldable pub put_configuration : LiquidityConfiguration → Exchange → Exchange
put_configuration c x = elim (get_configuration c.market x) [
  | none ↦ record x { liquidity_configurations = c ∷ x.liquidity_configurations }
  | some old ↦ record x {
    liquidity_configurations =
        map (λ d. if d.market == c.market then c else d) x.liquidity_configurations;
  }
]

-- The activation time of a configuration that is already there is kept.
unfoldable pub configure :
    ℕ
    → ℕ
    → ℕ
    → ProviderType
    → ℕ
    → Option ℕ
    → ℕ
    → Exchange
    → Result Error (LiquidityConfiguration × Exchange)
configure market actor initial source spread provider now x = do
  m ← or_raise (get_market market x) market_not_found
  require (is_editable m.status) status_not_allowed
  let c : LiquidityConfiguration = record {
    market = m.id;
    source = source;
    initial_liquidity_ugx = initial;
    opening_spread_bps = spread;
    status = configured;
    configured_by = actor;
    configured_at = now;
    activated_at = elim (get_configuration m.id x) [ none ↦ none | some d ↦ d.activated_at ];
    provider = provider;
  }
  raise_if (ltb 5_000 spread) invalid_configuration
  ok (c, put_configuration c x)

unfoldable pub outcome_of : ℕ → OutcomeSide → Exchange → Option Outcome
outcome_of market side x = find (λ o. (o.market == market) && is_side o.side side) x.outcomes

-- An outcome with its opening price.
unfoldable pub priced_outcome : ℕ → OutcomeSide → Exchange → Result Error (Outcome × ℕ)
priced_outcome market side x = do
  o ← or_raise (outcome_of market side x) opening_prices_required
  price ← or_raise o.opening_price opening_prices_required
  ok (o, price)

unfoldable pub is_treasury : ProviderType → Bool
is_treasury platform_treasury = true
is_treasury _ = false

-- The configured provider, or the first active treasury.
unfoldable pub find_provider : LiquidityConfiguration → Exchange → Option LiquidityProvider
find_provider c x = elim c.provider [
  | some id ↦ find (λ p. p.id == id) x.liquidity_providers
  | none ↦
      find (λ p. true)
        (sort_by (λ p q. leb p.created_at q.created_at)
          (select (λ p. is_treasury p.provider_type && p.is_active) x.liquidity_providers))
]

unfoldable pub get_provider : LiquidityConfiguration → Exchange → Result Error LiquidityProvider
get_provider c x = do
  p ← or_raise (find_provider c x) provider_required
  require p.is_active provider_required
  ok p

unfoldable pub treasury_request : LiquidityProvider → ℕ → ℕ → ℕ → Request
treasury_request p market quantity reference = record {
  user = p.user;
  currency = market_currency;
  amount = units (pos quantity);
  idempotency_reference = some reference;
  context = record { market = some market; order = none; fill = none; transaction = none };
  counterparty_account = none;
}

unfoldable pub opening_issuance : ℕ → ℕ → ℕ → ℕ → ℕ → Exchange → CompleteSetIssuance
opening_issuance market quantity yes_price no_price reference x = record {
  id = x.next_id;
  market = market;
  issuance_type = platform_opening;
  quantity = quantity;
  collateral_amount = quantity;
  yes_execution_price = yes_price;
  no_execution_price = no_price;
  yes_order = none;
  no_order = none;
  idempotency_reference = reference;
}

-- The opening price and half of the spread. `bps / 20000` is five units of 0.00001 for each point.
unfoldable pub ask_price : ℕ → ℕ → ℕ
ask_price opening_price spread = opening_price + 5 * spread

unfoldable pub provider_position : LiquidityProvider → ℕ → Outcome → ℕ → ℕ → Exchange → Position
provider_position p market o price quantity x = record {
  id = x.next_id;
  user = p.user;
  market = market;
  outcome = o.id;
  quantity = quantity;
  reserved_quantity = quantity;
  average_entry_price = price;
  total_cost = notional quantity price;
  realized_pnl = pos 0;
}

unfoldable pub provider_order : LiquidityProvider → ℕ → Outcome → ℕ → ℕ → ℕ → ℕ → Exchange → Order
provider_order p market o price quantity maximum_fee now x = record {
  id = x.next_id + 1;
  user = p.user;
  market = market;
  outcome = o.id;
  side = sell;
  quantity = quantity;
  limit_price = price;
  filled_quantity = 0;
  average_fill_price = none;
  status = open_order;
  time_in_force = gtc;
  expires_at = none;
  expired_at = none;
  maximum_fee_bps = maximum_fee;
  created_at = now;
}

unfoldable pub is_none : Option Position → Bool
is_none none = true
is_none (some p) = false

-- The body of the loop over the outcomes, a new position for each: the provider's shares and the order that sells them.
unfoldable pub offer :
    LiquidityProvider → LiquidityConfiguration → Outcome → ℕ → ℕ → Exchange → Result Error Exchange
offer p c o opening_price now x = do
  let price = ask_price opening_price c.opening_spread_bps
  let quantity = c.initial_liquidity_ugx
  raise_if ((price == 0) || leb one price) invalid_ask_price
  let position = provider_position p c.market o opening_price quantity x
  raise_if (not (is_none (get_position p.user c.market o.id x))) invalid_position
  clean_position position x
  let (schedule, r) = rates c.market now x
  let order = provider_order p c.market o price quantity (max r.maker r.taker) now x
  clean_order order x
  ok (record x {
    positions = position ∷ x.positions;
    orders = order ∷ x.orders;
    next_id = x.next_id + 2;
  })

module _ (uuid5 : ℕ → Label → ℕ) (opening_namespace now : ℕ) where
  -- The money of the treasury becomes collateral, with the issue of the sets that it backs.
  unfoldable pub lock_treasury :
      LiquidityProvider
      → LiquidityConfiguration
      → ℕ
      → ℕ
      → ℕ
      → ℕ
      → Exchange
      → Result Error (CompleteSetIssuance × Exchange)
  lock_treasury p c actor yes_price no_price reference x = do
    let quantity = c.initial_liquidity_ugx
    (entry, bank) ← from_bank (
        debit_available (treasury_request p c.market quantity (uuid5 reference treasury_debit))
          x.bank)
    let (pool, x₁) = get_or_create_pool c.market (record x { bank = bank })
    let pool' = record pool { locked_collateral = pool.locked_collateral + quantity }
    let x₂ = record x₁ { pools = save_pool pool' x₁.pools }
    let i = opening_issuance c.market quantity yes_price no_price reference x₂
    clean_issuance i
    x₃ ←
        insert_collateral_entry
          (record {
            market = c.market;
            entry_type = treasury_lock;
            amount = quantity;
            idempotency_reference = uuid5 reference collateral_lock;
            actor = some actor;
            issuance = some i.id;
          })
          (insert_issuance i x₂)
    ok (i, x₃)

  -- The activation of a configuration with liquidity that was not activated yet.
  unfoldable pub activate :
      LiquidityConfiguration → ℕ → ℕ → Exchange → Result Error (CompleteSetIssuance × Exchange)
  activate c actor reference x = do
    (yes_outcome, yes_price) ← priced_outcome c.market yes_side x
    (no_outcome, no_price) ← priced_outcome c.market no_side x
    require (yes_price + no_price == one) opening_prices_sum
    p ← get_provider c x
    (i, x₁) ← lock_treasury p c actor yes_price no_price reference x
    x₂ ← offer p c yes_outcome yes_price now x₁
    x₃ ← offer p c no_outcome no_price now x₂
    ok (
      i,
      put_configuration
          (record c {
            provider = some p.id;
            status = ConfigurationStatus.active;
            activated_at = some now;
          })
          x₃,
    )

  unfoldable pub activate_opening_liquidity :
      ℕ → ℕ → Exchange → Result Error (Option CompleteSetIssuance × Exchange)
  activate_opening_liquidity market actor x = elim (get_configuration market x) [
    | none ↦ ok (none, x)
    | some c ↦
        (let reference = uuid5 opening_namespace (opening market) in
          if c.initial_liquidity_ugx == 0 then ok (none, x) else elim (get_issuance reference x) [
            | some i ↦ ok (some i, x)
            | none ↦ activate c actor reference x >>= λ (i, x'). ok (some i, x')
          ])
  ]
