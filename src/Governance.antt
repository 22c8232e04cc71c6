-- ===== src/Governance.antt =====
-- The governance log: `GovernanceEvent`, `GovernanceEventType` and `GovernanceLog` of
-- qxfx0-types/src/governance.rs, and the persist stage of qxfx0-pipeline/src/stages.rs.
pub mod Replay
pub mod Trim
use qx_fx0rust.Base.{
  filter, ◌==◌, ℕ, suc, ◌+◌, ◌-◌, Bool, true, false, ◌&&◌, not, Option, none, some, if◌then◌else◌,
  List, [], ◌∷◌, ◌++◌, ltb, length, drop, filter, is_empty, any,
}
use qx_fx0rust.Base.Decimal.{decimal}
use qx_fx0rust.Base.Text.{codes, Text, codes}
use qx_fx0rust.Moves.{CanonicalMoveFamily, IllocutionaryForce}

-- `GuardStatus` of qxfx0-types/src/system_state.rs
pub data GuardStatus : Type 0 where
  invariant_ok : GuardStatus
  invariant_warn : Text → GuardStatus
  invariant_block : Text → GuardStatus
  blocked : Text → GuardStatus
  allowed : GuardStatus
  unavailable : Text → GuardStatus

-- `GovernanceEventType`
pub data GovernanceEventType : Type 0 where
  turn_completed guard_blocked guard_warning : GovernanceEventType
  commitment_revised commitment_contradicted : GovernanceEventType
  graph_enriched : ℕ → GovernanceEventType

-- `GovernanceEvent`
pub record GovernanceEvent : Type 0 where
  pub turn : ℕ
  pub event_type : GovernanceEventType
  pub family : CanonicalMoveFamily
  pub guard_status : GuardStatus
  pub timestamp : Text

-- `GovernanceLog`: its `events`, oldest first.
abbrev pub GovernanceLog : Type 0
GovernanceLog = List GovernanceEvent

-- `append`
unfoldable pub append : GovernanceLog → GovernanceEvent → GovernanceLog
append log event = log ++ event ∷ []

-- `trim`: `drain(0..excess)` when the log is longer than `cap`.
unfoldable pub trim : GovernanceLog → ℕ → GovernanceLog
trim log cap = if ltb cap (length log) then drop (length log - cap) log else log

-- `recent`: the slice from `len.saturating_sub(n)`.
unfoldable pub recent : GovernanceLog → ℕ → GovernanceLog
recent log n = drop (length log - n) log

-- `std::mem::discriminant`: the variant, its payload ignored.
unfoldable pub discriminant : GovernanceEventType → ℕ
discriminant turn_completed = 0
discriminant guard_blocked = 1
discriminant guard_warning = 2
discriminant commitment_revised = 3
discriminant commitment_contradicted = 4
discriminant (graph_enriched n) = 5

-- `count_by_type`
unfoldable pub count_by_type : GovernanceLog → GovernanceEventType → ℕ
count_by_type log event_type =
    length (filter (λ e. discriminant e.event_type == discriminant event_type) log)

-- `matches!(event_type, GuardBlocked)`
unfoldable pub is_guard_blocked : GovernanceEventType → Bool
is_guard_blocked guard_blocked = true
is_guard_blocked other = false

-- `matches!(guard_status, InvariantBlock(_) | Blocked(_))`
unfoldable pub is_block_status : GuardStatus → Bool
is_block_status (invariant_block reason) = true
is_block_status (blocked reason) = true
is_block_status other = false

-- `matches!(guard_status, InvariantWarn(_))`
unfoldable pub is_warn_status : GuardStatus → Bool
is_warn_status (invariant_warn reason) = true
is_warn_status other = false

-- `has_blocks`
unfoldable pub has_blocks : GovernanceLog → Bool
has_blocks = any (λ e. is_guard_blocked e.event_type)

-- What `replay_check` reports; the source formats these as messages.
pub data ReplayViolation : Type 0 where
  turn_regression : ℕ → ℕ → ℕ → ReplayViolation
  non_block_status : ℕ → ReplayViolation

-- The messages of one round of the loop: event `i`, with the event before it if there is one.
unfoldable pub check_turn : ℕ → Option GovernanceEvent → GovernanceEvent → List ReplayViolation
check_turn i none event = []
check_turn i (some previous) event =
    if ltb event.turn previous.turn then turn_regression i event.turn previous.turn ∷ [] else []

unfoldable pub check_status : ℕ → GovernanceEvent → List ReplayViolation
check_status i event =
    if is_guard_blocked event.event_type && not (is_block_status event.guard_status)
    then non_block_status i ∷ []
    else []

unfoldable pub replay_from : ℕ → Option GovernanceEvent → GovernanceLog → List ReplayViolation
replay_from i previous [] = []
replay_from i previous (event ∷ events) =
    check_turn i previous event ++ (check_status i event ++ replay_from (suc i) (some event) events)

-- `replay_check`
unfoldable pub replay_check : GovernanceLog → List ReplayViolation
replay_check log = replay_from 0 none log

-- `TurnDecision` of qxfx0-types/src/system_state.rs. The legitimacy is a float that no operation
-- here reads; its type is a parameter.
pub record TurnDecision (F : Type 0) : Type 0 where
  pub family : CanonicalMoveFamily
  pub force : IllocutionaryForce
  pub guard_status : GuardStatus
  pub legitimacy : F

-- The event type that `persist_stage` chooses.
unfoldable pub persisted_type : Bool → Bool → GovernanceEventType
persisted_type was_blocked warned =
    if was_blocked then guard_blocked else if warned then guard_warning else turn_completed

-- The status of the last decision, `InvariantOk` if there is none.
unfoldable pub decision_status : {F : Type 0} → Option (TurnDecision F) → GuardStatus
decision_status none = invariant_ok
decision_status (some d) = d.guard_status

-- The event that `persist_stage` writes. With no decision there
-- is no warning, and the status `InvariantOk` is none.
unfoldable pub persisted_event :
    {F : Type 0} → ℕ → Option (TurnDecision F) → Bool → CanonicalMoveFamily → GovernanceEvent
persisted_event turn_count decision was_blocked family =
    let status = decision_status decision in
    record {
      turn = turn_count + 1;
      event_type = persisted_type was_blocked (is_warn_status status);
      family = family;
      guard_status = status;
      timestamp = codes "turn-" ++ decimal (turn_count + 1);
    }

-- `persist_stage` on the log of the state.
unfoldable pub persist_stage :
    {F : Type 0}
    → ℕ
    → Option (TurnDecision F)
    → Bool
    → CanonicalMoveFamily
    → GovernanceLog
    → GovernanceLog
persist_stage turn_count decision was_blocked family log =
    trim (append log (persisted_event turn_count decision was_blocked family)) 10000
