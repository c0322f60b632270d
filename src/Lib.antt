-- ===== src/Lib.antt =====
-- The money and the fills of the League OS backend: the wallet ledger, withdrawals and purchases
-- (wallets/), and the execution of fills between market orders with its fees (markets/).
--
-- The parts and how they interact. A market fill is one atomic call of MarketFillService.execute_fill:
-- it checks two orders, moves shares between two positions, stores the fill, and calls WalletService
-- for the buyer's and the seller's money and MarketFeeService for the fee entries. MarketMatchingService
-- makes such fills for an order and then issues new shares to pairs of buyers, whose collateral it
-- locks. Cancellation, expiry and the cleanup at a market's close release what an order holds in
-- reserve, and a settlement pays the holders of the winning outcome out of the collateral. A withdrawal
-- reserves money through WalletService.reserve, passes the risk policy, and is approved, rejected,
-- processed, completed or failed by a member of staff; the last steps release or consume the
-- reservation. Every movement of money, but for three operations that nothing calls, is one run of
-- WalletService._execute, which appends one ledger entry under a reference that is used once.
--
-- The files and the code.
-- - Wallets/Model: the rows of wallets/models.py. Wallets/Normalize, Wallets/Transition and
--   Wallets/Execute: `_normalize_*`, `_calculate_transition`, `_entry_matches_operation`,
--   `_require_matching_replay` and `_execute` of wallets/services/wallet_service.py; `perform` is
--   `_execute` on normalised arguments, and `execute` in Wallets/Service on raw ones, with `credit`,
--   `reserve`, `release`, `debit_available` and `consume_reserved` over it.
-- - Wallets/Requests, Wallets/Deposits, Wallets/Withdrawals: the methods of the same names of
--   WalletService, over the table access of Wallets/Rows. Wallets/Risk: WithdrawalRiskService
--   (wallets/services/withdrawal_risk_service.py) with its settings (config/settings.py).
-- - Wallets/History: a call as a command, and a history as a list of calls in any order; a call that
--   raises is rolled back. A command is any call that changes the database but `reserve_funds`,
--   `release_funds` and `debit_reserved_funds` (Wallets/Balances), which no code of the repository
--   calls. Wallets/Ledger: the ledger as the history of the wallets.
-- - Markets/Model: the rows of markets/models.py. Markets/Money: the roundings of `_quantize_money`,
--   `_quantize_reservation`, `calculate_fee` and `calculate_buy_commitment`
--   (markets/services/order_financials.py). Markets/Orders and Markets/Positions:
--   `_apply_fill_to_order`, `_apply_buy_to_position`, `_apply_sell_to_position` and the `clean`
--   methods. Markets/Fill: the checks and the settlement of MarketFillService
--   (markets/services/fill_service.py). Markets/Execute: `execute_fill`, as the plan of a fill and
--   its commit. Markets/Fees: MarketFeeService (markets/services/fee_service.py). Markets/Exits:
--   `record_exit` (markets/services/position_lifecycle_service.py). Markets/Matching:
--   MarketMatchingService (markets/services/matching_service.py), the choice of the makers and the
--   loop of `match_order`.
-- - Markets/Complements: ComplementaryBuyMatchingService
--   (markets/services/complementary_matching_service.py) with `lock_complementary_collateral`
--   (markets/services/liquidity_service.py), and `match_order` as a whole. Markets/Cancellation:
--   `cancel_locked_order` and `cancel_order` (markets/services/participation_service.py).
--   Markets/Expiry: MarketOrderExpiryService (markets/services/order_expiry_service.py).
--   Markets/CloseCleanup: MarketCloseCleanupService (markets/services/close_cleanup_service.py).
--   Markets/Settlement: MarketSettlementService (markets/services/settlement_service.py) with the
--   two checks of the dispute process that it calls. Markets/Settlement/Guards says what its checks
--   demand in terms of the rows. Wallets/Balances: `get_or_create_wallet` and the operations of
--   WalletService that write no ledger entry. Markets/Liquidity: `configure` and
--   `activate_opening_liquidity` of MarketLiquidityService (markets/services/liquidity_service.py).
--   Markets/Lifecycle: MarketLifecycleService (markets/services/lifecycle_service.py) with
--   `Market.clean` and `MarketStatusTransition.clean`; Markets/Lifecycle/Graph has the moves between
--   the statuses, and Markets/Lifecycle/Steps the operations as a step relation.
-- - Prelude: the library names, Boolean tests, lists as tables, the outcome of an atomic call,
--   signed amounts, sorting, and sweeps over a table. Wallets/Tests, Markets/Tests,
--   Markets/ReleaseTests and the files Tests below Markets/Matching, Markets/Complements,
--   Markets/Settlement and Markets/Lifecycle: concrete runs. The other files hold proofs and are
--   named for what they prove.
--
-- Bounds and conventions. Money and quantities are natural numbers of units of 0.0001 and prices of
-- 0.00001, the decimal places of their columns; `max_digits=16` is the bound 10 ^ 16 on a balance. A
-- wallet amount with more decimals than its column is outside the model. Decimal arithmetic is taken
-- as exact until it is quantized. Python's context rounds to 28 digits: the products of a quantity
-- and a price stay within them, but the product of the cost and the quantity in `released_cost` can
-- be longer at the largest values that its columns hold, and there the model differs from the code.
-- Texts are ASCII codes. Primary keys and UUIDs are numbers; a new one is `next_id`, which no row
-- has yet. Tables are lists with the newest row first, and saving replaces the row with the same
-- key. `uuid5` is a parameter, and no theorem asks anything of it: that its values differ is only
-- needed for a call not to be refused. The row locks of the code make the calls on the same rows run
-- one after another, so a call is one step and interleavings are orders of calls. Every loop is over
-- a stored list, so nothing needs fuel. `expire_due_orders` is no transaction: an error in it leaves
-- the expiries before it.
--
-- Not modelled: serializers, views and notifications, which change none of these tables; unique
-- constraints that the locks already enforce; the audit rows' metadata and time stamps of updates;
-- the question of a market in the description of its payouts; Pesapal and the other payment clients;
-- order placement with its guards, refunds of voided markets, resolution, proposals and disputes,
-- which call the modelled services or stand beside them; the remaining applications of the
-- repository.
pub mod Prelude
pub mod Wallets
pub mod Markets
