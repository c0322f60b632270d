-- ===== src/Markets/Fees.antt =====
-- MarketFeeService (markets/services/fee_service.py): the schedule in force, its rates, the fee
-- entries and the life of a schedule. `uuid5` is the standard library's derivation of a UUID.
use leagueos_backend.Prelude.{
  ℕ, ◌+◌, ◌-◌, Bool, true, false, ◌&&◌, ◌||◌, Option, none, some, List, [], ◌∷◌, map, ltb, leb,
  ◌==◌, if◌then◌else◌, option_eq, find, select, any, max, Result, ok, ◌>>=◌, ◌>>◌, require,
  raise_if, or_raise,
}
use leagueos_backend.Markets.Model.{
  ScheduleStatus, draft, active, retired, FeeSchedule, FeeType, maker, taker, settlement, refund,
  FeeEntry, Exchange, Label, fee, Error, fee_reference_reused, invalid_fee_entry, not_draft,
  own_schedule, active_conflict, not_active, invalid_schedule, schedule_not_found, no_permission,
}
use leagueos_backend.Markets.Money.{calculate_fee, notional}

pub record Rates : Type 0 where
  pub maker : ℕ
  pub taker : ℕ
  pub settlement : ℕ
  pub refund : ℕ

unfoldable pub is_active : ScheduleStatus → Bool
is_active active = true
is_active _ = false

unfoldable pub is_draft : ScheduleStatus → Bool
is_draft draft = true
is_draft _ = false

-- `a` stands before `b` under `order_by("-effective_at", "-version", "-id")`.
unfoldable pub comes_first : FeeSchedule → FeeSchedule → Bool
comes_first a b =
    ltb b.effective_at a.effective_at
    || ((a.effective_at == b.effective_at)
        && (ltb b.version a.version || ((a.version == b.version) && ltb b.id a.id)))

-- `.order_by(...).first()`
unfoldable pub first_schedule : List FeeSchedule → Option FeeSchedule
first_schedule [] = none
first_schedule (s ∷ rest) = elim (first_schedule rest) [
  | none ↦ some s
  | some t ↦ if comes_first t s then some t else some s
]

unfoldable pub effective_schedule : ℕ → ℕ → Exchange → Option FeeSchedule
effective_schedule market at x =
    let base = select (λ s. is_active s.status && leb s.effective_at at) x.schedules in
    elim (first_schedule (select (λ s. option_eq s.market (some market)) base)) [
      | some s ↦ some s
      | none ↦ first_schedule (select (λ s. option_eq s.market none) base)
    ]

unfoldable pub rates_of : Option FeeSchedule → Rates
rates_of none = record { maker = 0; taker = 0; settlement = 0; refund = 0 }
rates_of (some s) = record {
  maker = s.maker_fee_bps;
  taker = s.taker_fee_bps;
  settlement = s.settlement_fee_bps;
  refund = s.refund_fee_bps;
}

unfoldable pub rates : ℕ → ℕ → Exchange → Option FeeSchedule × Rates
rates market at x = let s = effective_schedule market at x in (s, rates_of s)

unfoldable pub maximum_order_fee : ℕ → ℕ → ℕ → Exchange → ℕ
maximum_order_fee market at notional x =
    let r = (rates market at x).1 in calculate_fee notional (max r.maker r.taker)

-- What `preview` estimates for an order, for its side BUY or SELL.
pub record Preview : Type 0 where
  pub notional : ℕ
  pub maximum_buyer_reservation : ℕ
  pub maker_fee : ℕ
  pub taker_fee : ℕ
  pub effective_fee_bps : ℕ
  pub fee : ℕ

-- `preview` quantizes with the context's rounding, half to even, where the fills round half up.
unfoldable pub preview_of : Rates → ℕ → Preview
preview_of r value =
    let maker_fee = calculate_fee value r.maker in
    let taker_fee = calculate_fee value r.taker in
    record {
      notional = value;
      maximum_buyer_reservation = value + max maker_fee taker_fee;
      maker_fee = maker_fee;
      taker_fee = taker_fee;
      effective_fee_bps = max r.maker r.taker;
      fee = max maker_fee taker_fee;
    }

-- The rates stay within `MAX_RATE_BPS`, and an active schedule names who activated it.
unfoldable pub clean_schedule : FeeSchedule → Result Error (Unit {0})
clean_schedule s = do
  raise_if
      (ltb 1000 s.maker_fee_bps
        || ltb 1000 s.taker_fee_bps
        || ltb 1000 s.settlement_fee_bps
        || ltb 1000 s.refund_fee_bps)
      invalid_schedule
  raise_if (is_active s.status && (option_eq s.activated_by none || option_eq s.activated_at none))
      invalid_schedule

unfoldable pub save_schedule : FeeSchedule → List FeeSchedule → List FeeSchedule
save_schedule s = map (λ x. if x.id == s.id then s else x)

unfoldable pub latest_version : List FeeSchedule → ℕ
latest_version [] = 0
latest_version (s ∷ rest) = max s.version (latest_version rest)

-- The argument `permitted` is `PermissionService.has_permission` for the actor.
unfoldable pub create_draft :
    Bool → ℕ → Option ℕ → ℕ → Rates → Exchange → Result Error (FeeSchedule × Exchange)
create_draft permitted actor market effective_at r x = do
  require permitted no_permission
  let s : FeeSchedule = record {
    id = x.next_id;
    market = market;
    version = latest_version (select (λ s. option_eq s.market market) x.schedules) + 1;
    status = draft;
    maker_fee_bps = r.maker;
    taker_fee_bps = r.taker;
    settlement_fee_bps = r.settlement;
    refund_fee_bps = r.refund;
    effective_at = effective_at;
    created_by = actor;
    activated_by = none;
    activated_at = none;
    retired_by = none;
    retired_at = none;
  }
  clean_schedule s
  ok (s, record x { schedules = s ∷ x.schedules; next_id = x.next_id + 1 })

unfoldable pub activate : Bool → ℕ → ℕ → ℕ → Exchange → Result Error (FeeSchedule × Exchange)
activate permitted id actor now x = do
  require permitted no_permission
  s ← or_raise (find (λ s. s.id == id) x.schedules) schedule_not_found
  require (is_draft s.status) not_draft
  raise_if (s.created_by == actor) own_schedule
  raise_if (any (λ t. option_eq t.market s.market && is_active t.status) x.schedules)
      active_conflict
  let s' = record s { status = active; activated_by = some actor; activated_at = some now }
  clean_schedule s'
  ok (s', record x { schedules = save_schedule s' x.schedules })

unfoldable pub retire : Bool → ℕ → ℕ → ℕ → Exchange → Result Error (FeeSchedule × Exchange)
retire permitted id actor now x = do
  require permitted no_permission
  s ← or_raise (find (λ s. s.id == id) x.schedules) schedule_not_found
  require (is_active s.status) not_active
  raise_if (s.created_by == actor) own_schedule
  let s' = record s { status = retired; retired_by = some actor; retired_at = some now }
  ok (s', record x { schedules = save_schedule s' x.schedules })

unfoldable pub fee_type_eq : FeeType → FeeType → Bool
fee_type_eq maker maker = true
fee_type_eq taker taker = true
fee_type_eq settlement settlement = true
fee_type_eq refund refund = true
fee_type_eq _ _ = false

-- The arguments of `record_fee`.
pub record FeeCharge : Type 0 where
  pub parent : ℕ
  pub market : ℕ
  pub participant : ℕ
  pub fee_type : FeeType
  pub rate_bps : ℕ
  pub gross : ℕ
  pub order : Option ℕ
  pub fill : Option ℕ
  pub schedule : Option FeeSchedule

unfoldable pub schedule_id : Option FeeSchedule → Option ℕ
schedule_id none = none
schedule_id (some s) = some s.id

unfoldable pub schedule_version : Option FeeSchedule → ℕ
schedule_version none = 0
schedule_version (some s) = s.version

-- The entry of a charge. The net amount is `gross - fee`, which `clean_fee_entry` keeps from 0 up.
unfoldable pub fee_entry : FeeCharge → ℕ → FeeEntry
fee_entry c reference =
    let fee = calculate_fee c.gross c.rate_bps in
    record {
      idempotency_reference = reference;
      schedule = schedule_id c.schedule;
      schedule_version = schedule_version c.schedule;
      market = c.market;
      participant = c.participant;
      fill = c.fill;
      order = c.order;
      fee_type = c.fee_type;
      rate_bps = c.rate_bps;
      gross_amount = c.gross;
      fee_amount = fee;
      net_amount = c.gross - fee;
    }

unfoldable pub fee_entry_eq : FeeEntry → FeeEntry → Bool
unfolding fee_type_eq
fee_entry_eq a b =
    option_eq a.schedule b.schedule
    && (a.schedule_version == b.schedule_version)
    && (a.market == b.market)
    && (a.participant == b.participant)
    && option_eq a.fill b.fill
    && option_eq a.order b.order
    && fee_type_eq a.fee_type b.fee_type
    && (a.rate_bps == b.rate_bps)
    && (a.gross_amount == b.gross_amount)
    && (a.fee_amount == b.fee_amount)
    && (a.net_amount == b.net_amount)

-- The constraints of the row, which `full_clean` validates.
unfoldable pub clean_fee_entry : FeeEntry → Result Error (Unit {0})
clean_fee_entry e =
    raise_if (ltb 1000 e.rate_bps || ltb e.gross_amount e.fee_amount) invalid_fee_entry

unfoldable pub find_fee_entry : ℕ → Exchange → Option FeeEntry
find_fee_entry reference x = find (λ e. e.idempotency_reference == reference) x.fee_entries

module _ (uuid5 : ℕ → Label → ℕ) where
  unfoldable pub record_fee : FeeCharge → Exchange → Result Error (FeeEntry × Exchange)
  record_fee c x =
      let reference = uuid5 c.parent (fee c.fee_type c.participant) in
      let entry = fee_entry c reference in
      elim (find_fee_entry reference x) [
        | some old ↦ require (fee_entry_eq old entry) fee_reference_reused >> ok (old, x)
        | none ↦
            clean_fee_entry entry >> ok (entry, record x { fee_entries = entry ∷ x.fee_entries })
      ]
