-- ===== src/Markets/Lifecycle.antt =====
-- MarketLifecycleService (markets/services/lifecycle_service.py): the statuses of a market up to its
-- close, `Market.clean` and `MarketStatusTransition.clean` (markets/models.py). Every operation is one
-- atomic transaction. The alerts and notices of a transition change no table of the model. Of the
-- errors that a check collects, the first is the outcome.
pub mod Graph
pub mod Moves
pub mod Steps
pub mod Tests
use leagueos_backend.Prelude.{
  ℕ, ◌+◌, Bool, true, false, not, ◌&&◌, ◌||◌, Option, none, some, List, [], ◌∷◌, map, ltb, leb,
  ◌==◌, if◌then◌else◌, option_eq, length, select, any, Result, ok, err, ◌>>=◌, ◌>>◌, require,
  raise_if, or_raise,
}
use leagueos_backend.Wallets.Model as Bank
use leagueos_backend.Wallets.Normalize.{strip}
use leagueos_backend.Markets.Model.{
  MarketScope, event, participant, custom, Subject, Market, MarketStatus, draft, pending_approval,
  approved, open_market, suspended, closed, resolved, voided, rejected, Outcome, OutcomeSide,
  yes_side, no_side, TransitionAction, submit, approve, reject, revert_to_draft, open_action,
  suspend, reopen, close, StatusTransition, Exchange, Label, Error, no_permission, market_not_found,
  invalid_market, status_not_allowed, notes_required, incomplete_market, incomplete_outcomes,
  outside_window, invalid_transition,
}
use leagueos_backend.Markets.Orders.{get_market, outcome_belongs}
use leagueos_backend.Markets.Matching.{is_side}
use leagueos_backend.Markets.Expiry.{is_empty}
use leagueos_backend.Markets.CloseCleanup.{cleanup_locked_market}
use leagueos_backend.Markets.Liquidity.{activate_opening_liquidity}

-- A status as a number, for the comparisons of the code.
unfoldable pub status_number : MarketStatus → ℕ
status_number draft = 0
status_number pending_approval = 1
status_number approved = 2
status_number open_market = 3
status_number suspended = 4
status_number closed = 5
status_number resolved = 6
status_number voided = 7
status_number rejected = 8

unfoldable pub is_status : MarketStatus → MarketStatus → Bool
is_status a b = status_number a == status_number b

unfoldable pub scope_number : MarketScope → ℕ
scope_number event = 0
scope_number MarketScope.competition = 1
scope_number participant = 2
scope_number custom = 3

unfoldable pub is_scope : MarketScope → MarketScope → Bool
is_scope a b = scope_number a == scope_number b

-- A row's sport is the market's.
unfoldable pub has_sport : ℕ → Subject → Bool
has_sport sport s = option_eq (some sport) s.sport

unfoldable pub event_id : Subject → Option ℕ
event_id s = elim s.sporting_event [ none ↦ none | some e ↦ some e.id ]

unfoldable pub event_ok : Subject → Bool
event_ok s = elim s.sporting_event [
  | none ↦ true
  | some e ↦
      has_sport e.sport s
      && (elim s.competition [ none ↦ true | some c ↦ option_eq e.competition (some c.id) ])
]

unfoldable pub event_group_ok : Subject → Bool
event_group_ok s = elim s.event_group [
  | none ↦ true
  | some g ↦
      (option_eq g.sporting_event none || option_eq g.sporting_event (event_id s))
      && (option_eq (event_id s) none || g.is_sporting)
]

unfoldable pub template_ok : Subject → Bool
template_ok s = elim s.template [
  | none ↦ true
  | some t ↦
      (t.category == s.category)
      && is_scope t.scope_type s.scope_type
      && (option_eq t.sport none || option_eq t.sport s.sport)
]

-- The rows that a market names fit together.
unfoldable pub subject_ok : Subject → Bool
subject_ok s =
    not (is_scope s.scope_type custom && is_empty (strip s.custom_subject))
    && event_ok s
    && event_group_ok s
    && (elim s.competition [ none ↦ true | some c ↦ has_sport c.sport s ])
    && (elim s.participant [ none ↦ true | some p ↦ has_sport p.sport s ])
    && template_ok s

unfoldable pub is_public : MarketStatus → Bool
is_public draft = false
is_public rejected = false
is_public _ = true

-- What a public market is about is verified.
unfoldable pub subject_verified : Subject → Bool
subject_verified s =
    (elim s.sporting_event [ none ↦ true | some e ↦ e.is_verified ])
    && (elim s.competition [ none ↦ true | some c ↦ c.is_verified ])
    && (elim s.participant [
      | none ↦ true
      | some p ↦ not (is_scope s.scope_type participant) || p.is_verified
    ])

unfoldable pub window_ok : Market → Bool
window_ok m = elim m.closes_at [
  | none ↦ true
  | some c ↦
      (elim m.opens_at [ none ↦ true | some o ↦ ltb o c ])
      && (elim m.settles_by [ none ↦ true | some t ↦ leb c t ])
]

-- Only a resolved market has a winning outcome, which is one of its own.
unfoldable pub winner_ok : Market → Exchange → Bool
winner_ok m x = elim m.winning_outcome [
  | none ↦ not (is_status m.status resolved)
  | some w ↦ outcome_belongs w m.id x && is_status m.status resolved
]

unfoldable pub terminal_ok : Market → Bool
terminal_ok m =
    if is_status m.status resolved || is_status m.status voided
    then not (option_eq m.resolved_by none)
      && not (option_eq m.resolved_at none)
      && not (is_empty (strip m.resolution_notes))
      && not (is_empty (strip m.resolution_evidence))
    else true

-- `market.full_clean()`
unfoldable pub clean_market : Market → Exchange → Result Error (Unit {0})
clean_market m x =
    require
      (window_ok m
        && subject_ok m.subject
        && (not (is_public m.status) || subject_verified m.subject)
        && winner_ok m x
        && terminal_ok m)
      invalid_market

-- `has_complete_outcomes`: the sides and positions are YES at 1 and NO at 2, and nothing else.
unfoldable pub is_outcome_at : OutcomeSide → ℕ → Outcome → Bool
is_outcome_at side position o = is_side o.side side && (o.position == position)

unfoldable pub has_complete_outcomes : ℕ → Exchange → Bool
has_complete_outcomes market x =
    let outcomes = select (λ (o : Outcome). o.market == market) x.outcomes in
    any (is_outcome_at yes_side 1) outcomes
    && any (is_outcome_at no_side 2) outcomes
    && not (any (λ o. not (is_outcome_at yes_side 1 o || is_outcome_at no_side 2 o)) outcomes)

pub record Actor : Type 0 where
  pub id : ℕ
  pub email : Bank.Text

unfoldable pub clean_notes : Bank.Text → Result Error Bank.Text
clean_notes notes =
    let stripped = strip notes in raise_if (is_empty stripped) notes_required >> ok stripped

unfoldable pub validate_active_window : Market → ℕ → Result Error (Unit {0})
validate_active_window m now =
    require
      ((elim m.opens_at [ none ↦ false | some t ↦ leb t now ])
        && (elim m.closes_at [ none ↦ false | some t ↦ ltb now t ]))
      outside_window

unfoldable pub save_market : Market → List Market → List Market
save_market m = map (λ x. if x.id == m.id then m else x)

-- `transition.full_clean()`
unfoldable pub clean_transition : StatusTransition → Result Error (Unit {0})
clean_transition t =
    require
      (not (is_status t.from_status t.to_status)
        && not (is_empty (strip t.actor_email))
        && not (is_empty (strip t.notes)))
      invalid_transition

unfoldable pub transition_of :
    Market → Actor → TransitionAction → MarketStatus → Bank.Text → StatusTransition
transition_of m actor action to notes = record {
  market = m.id;
  action = action;
  from_status = m.status;
  to_status = to;
  actor = actor.id;
  actor_email = actor.email;
  notes = strip notes;
}

-- `_apply_transition` of a market whose other fields are updated already.
unfoldable pub apply_transition :
    Market
    → Actor
    → TransitionAction
    → MarketStatus
    → Bank.Text
    → Exchange
    → Result Error (Market × Exchange)
apply_transition m actor action to notes x = do
  let m' = record m { status = to }
  clean_market m' x
  let t = transition_of m actor action to notes
  clean_transition t
  ok (m', record x { markets = save_market m' x.markets; transitions = t ∷ x.transitions })

-- The permission, the row, its status and the notes.
unfoldable pub begin_transition :
    Bool → ℕ → (MarketStatus → Bool) → Bank.Text → Exchange → Result Error (Market × Bank.Text)
begin_transition has_permission id allowed notes x = do
  require has_permission no_permission
  m ← or_raise (get_market id x) market_not_found
  require (allowed m.status) status_not_allowed
  cleaned ← clean_notes notes
  ok (m, cleaned)

unfoldable pub unapproved : Market → Bank.Text → Market
unapproved m notes = record m { approved_by = none; approved_at = none; approval_notes = notes }

unfoldable pub submit_market :
    Bool → ℕ → Actor → Bank.Text → Exchange → Result Error (Market × Exchange)
submit_market may id actor notes x = do
  (m, cleaned) ← begin_transition may id (λ s. is_status s draft || is_status s rejected) notes x
  raise_if
      (is_empty (strip m.resolution_source)
        || is_empty (strip m.resolution_criteria)
        || is_empty (strip m.rules))
      incomplete_market
  require (has_complete_outcomes m.id x) incomplete_outcomes
  apply_transition (unapproved m []) actor submit pending_approval cleaned x

unfoldable pub approve_market :
    Bool → ℕ → Actor → Bank.Text → ℕ → Exchange → Result Error (Market × Exchange)
approve_market may id actor notes now x = do
  (m, cleaned) ← begin_transition may id (λ s. is_status s pending_approval) notes x
  apply_transition
      (record m { approved_by = some actor.id; approved_at = some now; approval_notes = cleaned })
      actor approve approved cleaned x

unfoldable pub reject_market :
    Bool → ℕ → Actor → Bank.Text → Exchange → Result Error (Market × Exchange)
reject_market may id actor notes x = do
  (m, cleaned) ← begin_transition may id (λ s. is_status s pending_approval) notes x
  apply_transition (unapproved m cleaned) actor reject rejected cleaned x

unfoldable pub revert_market_to_draft :
    Bool → ℕ → Actor → Bank.Text → Exchange → Result Error (Market × Exchange)
revert_market_to_draft may id actor notes x = do
  (m, cleaned) ← begin_transition may id (λ s. is_status s approved) notes x
  apply_transition (unapproved m cleaned) actor revert_to_draft draft cleaned x

unfoldable pub suspend_market :
    Bool → ℕ → Actor → Bank.Text → Exchange → Result Error (Market × Exchange)
suspend_market may id actor notes x = do
  (m, cleaned) ← begin_transition may id (λ s. is_status s open_market) notes x
  apply_transition m actor suspend suspended cleaned x

unfoldable pub reopen_market :
    Bool → ℕ → Actor → Bank.Text → ℕ → Exchange → Result Error (Market × Exchange)
reopen_market may id actor notes now x = do
  (m, cleaned) ← begin_transition may id (λ s. is_status s suspended) notes x
  validate_active_window m now
  apply_transition m actor reopen open_market cleaned x

module _ (uuid5 : ℕ → Label → ℕ) where
  unfoldable pub open_for_trading :
      ℕ → Bool → ℕ → Actor → Bank.Text → ℕ → Exchange → Result Error (Market × Exchange)
  open_for_trading opening_namespace may id actor notes now x = do
    (m, cleaned) ← begin_transition may id (λ s. is_status s approved) notes x
    validate_active_window m now
    require (has_complete_outcomes m.id x) incomplete_outcomes
    (issuance, x') ← activate_opening_liquidity uuid5 opening_namespace now m.id actor.id x
    apply_transition m actor open_action open_market cleaned x'

  unfoldable pub close_market :
      Bool → ℕ → Actor → Bank.Text → Exchange → Result Error (Market × Exchange)
  close_market may id actor notes x = do
    (m, cleaned) ←
        begin_transition may id (λ s. is_status s open_market || is_status s suspended) notes x
    (cleanup, x') ← cleanup_locked_market uuid5 m.id actor.id x
    apply_transition m actor close closed cleaned x'
