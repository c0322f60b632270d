-- ===== src/Markets/Settlement.antt =====
-- MarketSettlementService (markets/services/settlement_service.py): the payout of a resolved market.
-- `settle_market` is one atomic transaction. The two checks of the dispute process are
-- `require_dispute_window_closed` (markets/services/provisional_result_service.py) and
-- `require_no_open_disputes` (markets/services/result_dispute_service.py). Of the errors that
-- `settleability_errors` collects, the first is the outcome.
pub mod Amounts
pub mod Guards
pub mod Steps
pub mod Settled
pub mod Flat
pub mod Tests
use leagueos_backend.Prelude.{
  ℕ, ◌+◌, ◌-◌, ◌*◌, Bool, true, false, not, ◌&&◌, ◌||◌, Option, none, some, List, [], ◌∷◌, ltb, leb,
  ◌==◌, if◌then◌else◌, find, select, any, total, length, sort_by, Result, ok, err, ◌>>=◌, ◌>>◌,
  require, raise_if, or_raise,
}
use leagueos_backend.Prelude.Int.{pos, sub_ℕ, ◌+ℤ◌}
use leagueos_backend.Wallets.Model as Bank
use leagueos_backend.Wallets.Model.{
  WalletTransaction, settlement_payout, Wallet, plain, duplicate_reference,
}
use leagueos_backend.Wallets.Normalize.{units}
use leagueos_backend.Wallets.Rows.{find_reference}
use leagueos_backend.Wallets.Service.{Request, credit}
use leagueos_backend.Wallets.Balances.{get_or_create_wallet}
use leagueos_backend.Markets.Model.{
  Market, MarketStatus, resolved, Position, FeeSchedule, FeeType, settlement, CollateralPool,
  settled, CollateralEntry, CollateralEntryType, ProvisionalResult, DecisionType, extend_review,
  MarketSettlement, PositionSettlement, Exchange, Label, collateral_settlement, payout, Error,
  wallet, no_permission, market_not_found, already_refunded, not_resolved, no_winning_outcome,
  invalid_winning_outcome, settles_later, dispute_window_open, disputes_open,
  commitments_outstanding, collateral_insufficient, already_settled,
}
use leagueos_backend.Markets.Money.{half_up, calculate_fee}
use leagueos_backend.Markets.Fees.{Rates, rates, record_fee}
use leagueos_backend.Markets.Orders.{get_market, outcome_belongs}
use leagueos_backend.Markets.Positions.{save_position}
use leagueos_backend.Markets.Execute.{market_currency}
use leagueos_backend.Markets.Cancellation.{from_bank}
use leagueos_backend.Markets.CloseCleanup.{is_outstanding}
use leagueos_backend.Markets.Complements.{get_pool, save_pool, insert_collateral_entry}

-- PAYOUT_PER_UNIT, 1.0000
abbrev pub payout_per_unit : ℕ
payout_per_unit = 10_000

-- `_money(quantity * PAYOUT_PER_UNIT)`
unfoldable pub payout_of : ℕ → ℕ
unfolding half_up
payout_of quantity = half_up (quantity * payout_per_unit) 10_000

unfoldable pub is_resolved : MarketStatus → Bool
is_resolved resolved = true
is_resolved _ = false

-- `_require_settleable_market`: the winning outcome of a market that can be settled.
unfoldable pub require_settleable_market : Market → ℕ → Exchange → Result Error ℕ
require_settleable_market m now x = do
  require (is_resolved m.status) not_resolved
  winner ← or_raise m.winning_outcome no_winning_outcome
  require (outcome_belongs winner m.id x) invalid_winning_outcome
  raise_if (elim m.settles_by [ none ↦ false | some t ↦ ltb now t ]) settles_later
  ok winner

unfoldable pub get_provisional_result : ℕ → Exchange → Option ProvisionalResult
get_provisional_result market x = find (λ r. r.market == market) x.provisional_results

unfoldable pub require_dispute_window_closed : ℕ → ℕ → Exchange → Result Error (Unit {0})
require_dispute_window_closed market now x = elim (get_provisional_result market x) [
  | none ↦ ok tt
  | some r ↦ raise_if (ltb now r.dispute_deadline && not r.is_accelerated) dispute_window_open
]

-- CONFIRM, CORRECT or VOID
unfoldable pub is_final : DecisionType → Bool
is_final extend_review = false
is_final _ = true

unfoldable pub require_no_open_disputes : ℕ → Exchange → Result Error (Unit {0})
require_no_open_disputes market x = elim (get_provisional_result market x) [
  | none ↦ ok tt
  | some r ↦
      raise_if
        (any (λ d. d.provisional_result == r.id) x.disputes
          && not
              (any (λ d. (d.provisional_result == r.id) && is_final d.decision_type) x.decisions))
        disputes_open
]

-- `_lock_positions`, by key
unfoldable pub lock_positions : ℕ → Exchange → List Position
lock_positions market x =
    sort_by (λ a b. leb a.id b.id) (select (λ p. p.market == market) x.positions)

unfoldable pub is_positive : Position → Bool
is_positive p = ltb 0 p.quantity

unfoldable pub is_winner : ℕ → Position → Bool
is_winner winner p = p.outcome == winner

-- The amounts of one position.
pub record Payout : Type 0 where
  pub amount : ℕ
  pub fee : ℕ
  pub net : ℕ

unfoldable pub position_payout : ℕ → Rates → Position → Payout
position_payout winner r p =
    let amount = if is_winner winner p then payout_of p.quantity else 0 in
    let fee = calculate_fee amount r.settlement in
    record { amount = amount; fee = fee; net = amount - fee }

-- The wallet transaction of a payout, whose reference the table holds once. The question of the
-- market, which ends the description, is left out.
unfoldable pub payout_transaction : Wallet → ℕ → ℕ → ℕ → Bank.Database → WalletTransaction
payout_transaction w reference net now bank = record {
  id = bank.next_id;
  wallet = w.id;
  reference = plain reference;
  transaction_type = settlement_payout;
  amount = net;
  currency = market_currency;
  status = Bank.TransactionStatus.completed;
  provider_reference = [];
  description = Bank.codes "Market settlement payout";
  completed_at = some now;
}

unfoldable pub insert_transaction :
    WalletTransaction → Bank.Database → Result Bank.Error Bank.Database
insert_transaction t bank = elim (find_reference t.reference bank) [
  | some old ↦ err duplicate_reference
  | none ↦ ok (record bank { transactions = t ∷ bank.transactions; next_id = bank.next_id + 1 })
]

unfoldable pub payout_request : Position → ℕ → ℕ → ℕ → Request
payout_request p net reference transaction = record {
  user = p.user;
  currency = market_currency;
  amount = units (pos net);
  idempotency_reference = some reference;
  context = record {
    market = some p.market;
    order = none;
    fill = none;
    transaction = some transaction;
  };
  counterparty_account = none;
}

-- The wallet, the transaction and the credit of a payout.
unfoldable pub pay_out :
    Position → ℕ → ℕ → ℕ → Bank.Database → Result Bank.Error (Bank.LedgerEntry × Bank.Database)
pay_out p net reference now bank = do
  let (w, bank₁) = get_or_create_wallet p.user market_currency bank
  let t = payout_transaction w reference net now bank₁
  bank₂ ← insert_transaction t bank₁
  credit (payout_request p net reference t.id) bank₂

-- `if net_payout > 0`: the reference of the ledger entry, if there is one.
unfoldable pub pay_position : Position → ℕ → ℕ → ℕ → Exchange → Result Error (Option ℕ × Exchange)
pay_position p net reference now x =
    if ltb 0 net
    then (from_bank (pay_out p net reference now x.bank) >>= λ (entry, bank).
        ok (some entry.idempotency_reference, record x { bank = bank }))
    else ok (none, x)

unfoldable pub position_settlement_of : ℕ → ℕ → Payout → Option ℕ → Position → PositionSettlement
position_settlement_of settlement_id winner a entry p = record {
  market_settlement = settlement_id;
  market_position = p.id;
  participant = p.user;
  outcome = p.outcome;
  was_winner = is_winner winner p;
  settled_quantity = p.quantity;
  payout_per_unit = payout_per_unit;
  payout_amount = a.amount;
  payout_fee_amount = a.fee;
  net_payout_amount = a.net;
  cost_basis = p.total_cost;
  realized_pnl_delta = sub_ℕ a.amount p.total_cost;
  wallet_ledger_entry = entry;
}

-- A position has one settlement record at most.
unfoldable pub insert_position_settlement : PositionSettlement → Exchange → Result Error Exchange
insert_position_settlement s x = do
  raise_if (any (λ r. r.market_position == s.market_position) x.position_settlements)
      already_settled
  ok (record x { position_settlements = s ∷ x.position_settlements })

-- The position after its settlement.
unfoldable pub flatten : Payout → Position → Position
flatten a p = record p {
  quantity = 0;
  reserved_quantity = 0;
  average_entry_price = 0;
  total_cost = 0;
  realized_pnl = p.realized_pnl +ℤ sub_ℕ a.amount p.total_cost;
}

unfoldable pub market_settlement_of : ℕ → ℕ → ℕ → List Position → ℕ → MarketSettlement
market_settlement_of id market winner ps actor =
    let winners = select (is_winner winner) ps in
    let quantity = total (λ (p : Position). p.quantity) winners in
    record {
      id = id;
      market = market;
      winning_outcome = winner;
      payout_per_unit = payout_per_unit;
      total_position_count = length ps;
      winning_position_count = length winners;
      losing_position_count = length ps - length winners;
      total_winning_quantity = quantity;
      total_payout_amount = payout_of quantity;
      executed_by = actor;
    }

unfoldable pub pool_covers : Option CollateralPool → ℕ → Bool
pool_covers none n = true
pool_covers (some pool) n = leb n pool.locked_collateral

unfoldable pub get_settlement : ℕ → Exchange → Option MarketSettlement
get_settlement market x = find (λ s. s.market == market) x.settlements

module _ (uuid5 : ℕ → Label → ℕ) (payout_namespace now : ℕ) where
  -- `if payout_amount > 0: record_fee(...)`
  unfoldable pub record_payout_fee :
      Option FeeSchedule → Rates → Payout → Position → Exchange → Result Error Exchange
  record_payout_fee schedule r a p x =
      if ltb 0 a.amount
      then (record_fee uuid5
            (record {
              parent = p.id;
              market = p.market;
              participant = p.user;
              fee_type = settlement;
              rate_bps = r.settlement;
              gross = a.amount;
              order = none;
              fill = none;
              schedule = schedule;
            })
            x
          >>= λ (entry, x'). ok x')
      else ok x

  unfoldable pub settle_position : ℕ → ℕ → Position → Exchange → Result Error Exchange
  settle_position settlement_id winner p x = do
    let (schedule, r) = rates p.market now x
    let a = position_payout winner r p
    (entry, x₁) ← pay_position p a.net (uuid5 payout_namespace (payout p.market p.id winner)) now x
    x₂ ← record_payout_fee schedule r a p x₁
    x₃ ← insert_position_settlement (position_settlement_of settlement_id winner a entry p) x₂
    ok (record x₃ { positions = save_position (flatten a p) x₃.positions })

  unfoldable pub settle_positions : ℕ → ℕ → List Position → Exchange → Result Error Exchange
  settle_positions settlement_id winner [] x = ok x
  settle_positions settlement_id winner (p ∷ ps) x =
      settle_position settlement_id winner p x >>= settle_positions settlement_id winner ps

  -- The collateral that a payout takes from the pool.
  unfoldable pub settle_pool :
      Option CollateralPool → MarketSettlement → Exchange → Result Error Exchange
  settle_pool none s x = ok x
  settle_pool (some pool) s x =
      if ltb 0 s.total_payout_amount
      then insert_collateral_entry
          (record {
            market = s.market;
            entry_type = CollateralEntryType.settlement_payout;
            amount = s.total_payout_amount;
            idempotency_reference = uuid5 s.id collateral_settlement;
            actor = some s.executed_by;
            issuance = none;
          })
          (record x {
            pools =
                save_pool
                  (record pool {
                    locked_collateral = pool.locked_collateral - s.total_payout_amount;
                    settled_collateral = pool.settled_collateral + s.total_payout_amount;
                    status = settled;
                  })
                  x.pools;
          })
      else ok x

  -- The checks before anything is written, with the winning outcome.
  unfoldable pub check_settlement : Market → Exchange → Result Error ℕ
  check_settlement m x = do
    raise_if (any (λ r. r.market == m.id) x.void_refunds) already_refunded
    winner ← require_settleable_market m now x
    require_dispute_window_closed m.id now x
    require_no_open_disputes m.id x
    raise_if (any (is_outstanding m.id) x.orders) commitments_outstanding
    raise_if (any (λ p. ltb 0 p.reserved_quantity) (lock_positions m.id x)) commitments_outstanding
    ok winner

  -- A settlement of a market that has none yet.
  unfoldable pub settle_new : Market → ℕ → Exchange → Result Error (MarketSettlement × Exchange)
  settle_new m actor x = do
    winner ← check_settlement m x
    let ps = select is_positive (lock_positions m.id x)
    let s = market_settlement_of x.next_id m.id winner ps actor
    let pool = get_pool m.id x
    require (pool_covers pool s.total_payout_amount) collateral_insufficient
    x₁ ←
        settle_positions s.id winner ps
          (record x { settlements = s ∷ x.settlements; next_id = x.next_id + 1 })
    x₂ ← settle_pool pool s x₁
    ok (s, x₂)

  unfoldable pub settle_market :
      Bool → ℕ → ℕ → Exchange → Result Error (MarketSettlement × Exchange)
  settle_market has_permission id actor x = do
    require has_permission no_permission
    m ← or_raise (get_market id x) market_not_found
    elim (get_settlement m.id x) [ some s ↦ ok (s, x) | none ↦ settle_new m actor x ]
