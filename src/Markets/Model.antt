-- ===== src/Markets/Model.antt =====
-- The rows of the market tables (markets/models.py) that fills and matching read and write.
-- Quantities and money are in units of 0.0001 and prices in units of 0.00001, the decimal places of
-- their columns. Primary keys and other UUIDs are numbers, times are seconds, and a list holds the
-- newest row first.
use leagueos_backend.Prelude.{ℕ, Bool, Option, List}
use leagueos_backend.Prelude.Int.{ℤ}
use leagueos_backend.Wallets.Model as Bank

-- The price 1.00000.
abbrev pub one : ℕ
one = 100_000

pub data MarketStatus : Type 0 where
  draft pending_approval approved open_market suspended closed resolved voided rejected :
      MarketStatus

pub data MarketScope : Type 0 where
  event competition participant custom : MarketScope

-- What `Market.clean` reads of the rows that a market names.
pub record TemplateRow : Type 0 where
  pub category : ℕ
  pub scope_type : MarketScope
  pub sport : Option ℕ

pub record EventGroupRow : Type 0 where
  pub sporting_event : Option ℕ
  pub is_sporting : Bool

pub record SportingEventRow : Type 0 where
  pub id : ℕ
  pub sport : ℕ
  pub competition : Option ℕ
  pub is_verified : Bool

pub record CompetitionRow : Type 0 where
  pub id : ℕ
  pub sport : ℕ
  pub is_verified : Bool

pub record ParticipantRow : Type 0 where
  pub sport : ℕ
  pub is_verified : Bool

-- What a market is about.
pub record Subject : Type 0 where
  pub scope_type : MarketScope
  pub custom_subject : Bank.Text
  pub sport : Option ℕ
  pub category : ℕ
  pub template : Option TemplateRow
  pub event_group : Option EventGroupRow
  pub sporting_event : Option SportingEventRow
  pub competition : Option CompetitionRow
  pub participant : Option ParticipantRow

pub record Market : Type 0 where
  pub id : ℕ
  pub status : MarketStatus
  pub opens_at : Option ℕ
  pub closes_at : Option ℕ
  pub settles_by : Option ℕ
  pub subject : Subject
  pub rules : Bank.Text
  pub resolution_source : Bank.Text
  pub resolution_criteria : Bank.Text
  pub approved_by : Option ℕ
  pub approved_at : Option ℕ
  pub approval_notes : Bank.Text
  pub resolved_by : Option ℕ
  pub resolved_at : Option ℕ
  pub resolution_notes : Bank.Text
  pub resolution_evidence : Bank.Text
  pub winning_outcome : Option ℕ

pub data OutcomeSide : Type 0 where
  yes_side no_side : OutcomeSide

pub record Outcome : Type 0 where
  pub id : ℕ
  pub market : ℕ
  pub side : OutcomeSide
  pub position : ℕ
  pub opening_price : Option ℕ

pub data Side : Type 0 where
  buy sell : Side

pub data OrderStatus : Type 0 where
  pending open_order partially_filled filled cancelled expired rejected : OrderStatus

pub data TimeInForce : Type 0 where
  gtc gtd ioc fok : TimeInForce

pub record Order : Type 0 where
  pub id : ℕ
  pub user : ℕ
  pub market : ℕ
  pub outcome : ℕ
  pub side : Side
  pub quantity : ℕ
  pub limit_price : ℕ
  pub filled_quantity : ℕ
  pub average_fill_price : Option ℕ
  pub status : OrderStatus
  pub time_in_force : TimeInForce
  pub expires_at : Option ℕ
  pub expired_at : Option ℕ
  pub maximum_fee_bps : ℕ
  pub created_at : ℕ

pub record Position : Type 0 where
  pub id : ℕ
  pub user : ℕ
  pub market : ℕ
  pub outcome : ℕ
  pub quantity : ℕ
  pub reserved_quantity : ℕ
  pub average_entry_price : ℕ
  pub total_cost : ℕ
  pub realized_pnl : ℤ

pub record Fill : Type 0 where
  pub id : ℕ
  pub execution_reference : ℕ
  pub market : ℕ
  pub outcome : ℕ
  pub buy_order : ℕ
  pub sell_order : ℕ
  pub maker_order : ℕ
  pub taker_order : ℕ
  pub quantity : ℕ
  pub price : ℕ
  pub created_at : ℕ

pub data ScheduleStatus : Type 0 where
  draft active retired : ScheduleStatus

pub record FeeSchedule : Type 0 where
  pub id : ℕ
  pub market : Option ℕ
  pub version : ℕ
  pub status : ScheduleStatus
  pub maker_fee_bps : ℕ
  pub taker_fee_bps : ℕ
  pub settlement_fee_bps : ℕ
  pub refund_fee_bps : ℕ
  pub effective_at : ℕ
  pub created_by : ℕ
  pub activated_by : Option ℕ
  pub activated_at : Option ℕ
  pub retired_by : Option ℕ
  pub retired_at : Option ℕ

pub data FeeType : Type 0 where
  maker taker settlement refund : FeeType

pub record FeeEntry : Type 0 where
  pub idempotency_reference : ℕ
  pub schedule : Option ℕ
  pub schedule_version : ℕ
  pub market : ℕ
  pub participant : ℕ
  pub fill : Option ℕ
  pub order : Option ℕ
  pub fee_type : FeeType
  pub rate_bps : ℕ
  pub gross_amount : ℕ
  pub fee_amount : ℕ
  pub net_amount : ℕ

pub record PositionExit : Type 0 where
  pub position : ℕ
  pub closing_fill : ℕ
  pub opened_at : ℕ
  pub exited_at : ℕ
  pub acquired_quantity : ℕ
  pub exited_quantity : ℕ
  pub cost_basis : ℤ
  pub realized_proceeds : ℕ
  pub realized_pnl : ℤ

pub data ExpirySource : Type 0 where
  system admin : ExpirySource

-- The audit row of an expiry. A wallet entry is named by its reference.
pub record OrderExpiryAudit : Type 0 where
  pub market_order : ℕ
  pub source : ExpirySource
  pub previous_status : OrderStatus
  pub expired_quantity : ℕ
  pub released_wallet_reservation_amount : ℕ
  pub released_position_reservation_quantity : ℕ
  pub wallet_release_ledger_entry : Option ℕ
  pub actor : Option ℕ
  pub reason : Bank.Text
  pub expired_at : ℕ

pub record CloseCleanup : Type 0 where
  pub id : ℕ
  pub market : ℕ
  pub total_cancelled_order_count : ℕ
  pub cancelled_buy_order_count : ℕ
  pub cancelled_sell_order_count : ℕ
  pub total_released_buy_reservation_amount : ℕ
  pub total_released_sell_reservation_quantity : ℕ
  pub executed_by : ℕ

pub record CloseOrderCancellation : Type 0 where
  pub market_close_cleanup : ℕ
  pub market_order : ℕ
  pub order_side : Side
  pub remaining_quantity_cancelled : ℕ
  pub released_wallet_reservation_amount : ℕ
  pub released_position_reservation_quantity : ℕ
  pub wallet_release_ledger_entry : Option ℕ

pub data PoolStatus : Type 0 where
  active settled released : PoolStatus

pub record CollateralPool : Type 0 where
  pub market : ℕ
  pub locked_collateral : ℕ
  pub settled_collateral : ℕ
  pub released_collateral : ℕ
  pub status : PoolStatus

pub data IssuanceType : Type 0 where
  platform_opening complementary_buys : IssuanceType

pub record CompleteSetIssuance : Type 0 where
  pub id : ℕ
  pub market : ℕ
  pub issuance_type : IssuanceType
  pub quantity : ℕ
  pub collateral_amount : ℕ
  pub yes_execution_price : ℕ
  pub no_execution_price : ℕ
  pub yes_order : Option ℕ
  pub no_order : Option ℕ
  pub idempotency_reference : ℕ

pub data CollateralEntryType : Type 0 where
  treasury_lock complementary_buy_lock settlement_payout void_release : CollateralEntryType
  treasury_release : CollateralEntryType

pub record CollateralEntry : Type 0 where
  pub market : ℕ
  pub entry_type : CollateralEntryType
  pub amount : ℕ
  pub idempotency_reference : ℕ
  pub actor : Option ℕ
  pub issuance : Option ℕ

-- Of a provisional result what settlement reads; `is_accelerated` says that it has a
-- `development_acceleration`.
pub record ProvisionalResult : Type 0 where
  pub id : ℕ
  pub market : ℕ
  pub dispute_deadline : ℕ
  pub is_accelerated : Bool

pub record ResultDispute : Type 0 where
  pub id : ℕ
  pub provisional_result : ℕ

pub data DecisionType : Type 0 where
  confirm correct void extend_review : DecisionType

pub record DisputeDecision : Type 0 where
  pub provisional_result : ℕ
  pub decision_type : DecisionType

pub record MarketSettlement : Type 0 where
  pub id : ℕ
  pub market : ℕ
  pub winning_outcome : ℕ
  pub payout_per_unit : ℕ
  pub total_position_count : ℕ
  pub winning_position_count : ℕ
  pub losing_position_count : ℕ
  pub total_winning_quantity : ℕ
  pub total_payout_amount : ℕ
  pub executed_by : ℕ

pub record PositionSettlement : Type 0 where
  pub market_settlement : ℕ
  pub market_position : ℕ
  pub participant : ℕ
  pub outcome : ℕ
  pub was_winner : Bool
  pub settled_quantity : ℕ
  pub payout_per_unit : ℕ
  pub payout_amount : ℕ
  pub payout_fee_amount : ℕ
  pub net_payout_amount : ℕ
  pub cost_basis : ℕ
  pub realized_pnl_delta : ℤ
  pub wallet_ledger_entry : Option ℕ

-- Of the refund of a voided market its key and its market.
pub record VoidRefund : Type 0 where
  pub id : ℕ
  pub market : ℕ

pub data ProviderType : Type 0 where
  platform_treasury external_market_maker : ProviderType

pub record LiquidityProvider : Type 0 where
  pub id : ℕ
  pub provider_type : ProviderType
  pub user : ℕ
  pub is_active : Bool
  pub created_at : ℕ

pub data ConfigurationStatus : Type 0 where
  unconfigured configured active exhausted closed : ConfigurationStatus

pub record LiquidityConfiguration : Type 0 where
  pub market : ℕ
  pub source : ProviderType
  pub initial_liquidity_ugx : ℕ
  pub opening_spread_bps : ℕ
  pub status : ConfigurationStatus
  pub configured_by : ℕ
  pub configured_at : ℕ
  pub activated_at : Option ℕ
  pub provider : Option ℕ

pub data TransitionAction : Type 0 where
  submit approve reject revert_to_draft open_action suspend reopen close : TransitionAction
  resolve void_action : TransitionAction

pub record StatusTransition : Type 0 where
  pub market : ℕ
  pub action : TransitionAction
  pub from_status : MarketStatus
  pub to_status : MarketStatus
  pub actor : ℕ
  pub actor_email : Bank.Text
  pub notes : Bank.Text

-- The market tables beside the wallet database. `next_id` is a UUID that no market row has yet.
pub record Exchange : Type 0 where
  pub bank : Bank.Database
  pub markets : List Market
  pub outcomes : List Outcome
  pub orders : List Order
  pub positions : List Position
  pub fills : List Fill
  pub schedules : List FeeSchedule
  pub fee_entries : List FeeEntry
  pub exits : List PositionExit
  pub expiries : List OrderExpiryAudit
  pub cleanups : List CloseCleanup
  pub close_cancellations : List CloseOrderCancellation
  pub pools : List CollateralPool
  pub issuances : List CompleteSetIssuance
  pub collateral_entries : List CollateralEntry
  pub provisional_results : List ProvisionalResult
  pub disputes : List ResultDispute
  pub decisions : List DisputeDecision
  pub settlements : List MarketSettlement
  pub position_settlements : List PositionSettlement
  pub void_refunds : List VoidRefund
  pub liquidity_providers : List LiquidityProvider
  pub liquidity_configurations : List LiquidityConfiguration
  pub transitions : List StatusTransition
  pub next_id : ℕ

-- The names under which `uuid5` derives references.
pub data Label : Type 0 where
  buyer_reserved_consumption buyer_price_improvement_release : Label
  buyer_reservation_rounding_top_up seller_proceeds_credit : Label
  cancellation_release expiry_release collateral_lock collateral_settlement : Label
  payout : ℕ → ℕ → ℕ → Label
  opening : ℕ → Label
  treasury_debit : Label
  complement : ℕ → ℕ → ℕ → Label
  role_consume role_improvement role_topup : FeeType → Label
  fee : FeeType → ℕ → Label
  execution : ℕ → ℕ → ℕ → Label

pub data Error : Type 0 where
  wallet : Bank.Error → Error
  reference_reused same_order missing_order wrong_side not_fillable wrong_market : Error
  wrong_outcome self_trade quantity_not_positive quantity_too_large price_out_of_range : Error
  price_beyond_limit unknown_maker unknown_taker same_role no_position : Error
  position_too_small reserved_position_too_small invalid_fill invalid_order : Error
  invalid_position fee_reference_reused invalid_fee_entry not_draft own_schedule : Error
  active_conflict not_active invalid_schedule schedule_not_found no_permission : Error
  user_not_verified not_order_owner not_cancellable invalid_limit invalid_source : Error
  reason_required actor_required not_gtd not_expirable no_expiry not_due nothing_to_expire : Error
  invalid_expiry_audit already_cleaned_up invalid_issuance invalid_collateral_entry : Error
  market_not_found already_refunded not_resolved no_winning_outcome invalid_winning_outcome : Error
  settles_later dispute_window_open disputes_open commitments_outstanding : Error
  collateral_insufficient already_settled invalid_market status_not_allowed : Error
  notes_required incomplete_market incomplete_outcomes outside_window invalid_transition : Error
  invalid_configuration opening_prices_required opening_prices_sum provider_required : Error
  invalid_ask_price : Error
