-- ===== src/Stance.antt =====
-- The stance provenance of qxfx0-types/src/stance.rs: topics, observations, the bounded history,
-- and the detection of a temporal contradiction; and the explicit recording of a decision in
-- qxfx0-pipeline/src/lib.rs.
pub mod Key
pub mod Read
pub mod Provenance
pub mod Contradiction
use mathlib.Core.List.{reverse, map}
use qx_fx0rust.Base.{
  ℕ, ◌<◌, Bool, true, false, ◌&&◌, ◌||◌, not, Option, none, some, if◌then◌else◌, List, [], ◌∷◌,
  ◌++◌, ltb, max, length, any, find, Result, ok, err, ◌>>=◌, ◌>>◌, fail_if,
}
use qx_fx0rust.Base.Text.{Text, codes, text_eq, is_blank, has_control}
use qx_fx0rust.Base.Decimal.{decimal}
use qx_fx0rust.Base.Ring.{pop_excess}

-- `STANCE_PROVENANCE_VERSION`
abbrev pub stance_provenance_version : ℕ
stance_provenance_version = 1

-- `StanceTopic`, which the code makes only by `new_topic`.
pub record StanceTopic : Type 0 where
  pub as_str : Text

-- `StanceTopicError`
pub data StanceTopicError : Type 0 where
  empty too_long contains_control : StanceTopicError

-- `StanceTopic::new`, also behind `try_from`.
unfoldable pub new_topic : Text → Result StanceTopicError StanceTopic
new_topic value = do
  fail_if (is_blank value) empty
  fail_if (ltb 128 (length value)) too_long
  fail_if (has_control value) contains_control
  ok (record { as_str = value })

-- `StancePolarity`
pub data StancePolarity : Type 0 where
  affirmed rejected : StancePolarity

-- `StancePolarity::as_str`
unfoldable pub polarity_str : StancePolarity → Text
polarity_str affirmed = codes "affirmed"
polarity_str rejected = codes "rejected"

-- `==` on `StancePolarity`
unfoldable pub polarity_eq : StancePolarity → StancePolarity → Bool
polarity_eq affirmed affirmed = true
polarity_eq rejected rejected = true
polarity_eq p q = false

-- `SystemStanceDecision`
pub record SystemStanceDecision : Type 0 where
  pub topic : StanceTopic
  pub polarity : StancePolarity

-- `StanceSource`
pub data StanceSource : Type 0 where
  system_decision user_input external_reference : StanceSource

-- `StanceSource::is_system_decision`
unfoldable pub is_system_decision : StanceSource → Bool
is_system_decision system_decision = true
is_system_decision other = false

-- `StanceSource::as_str`
unfoldable pub source_str : StanceSource → Text
source_str system_decision = codes "system_decision"
source_str user_input = codes "user_input"
source_str external_reference = codes "external_reference"

-- `StanceObservation`
pub record StanceObservation : Type 0 where
  pub turn : ℕ
  pub topic : StanceTopic
  pub polarity : StancePolarity
  pub source : StanceSource

-- `StanceObservation::idempotency_key`
unfoldable pub idempotency_key : StanceObservation → Text
idempotency_key o =
    codes "turn:"
    ++ (decimal o.turn
        ++ (codes ":topic:"
            ++ (o.topic.as_str
                ++ (codes ":polarity:"
                    ++ (polarity_str o.polarity ++ (codes ":source:" ++ source_str o.source))))))

-- `StanceRecordOutcome`
pub data StanceRecordOutcome : Type 0 where
  recorded no_state_transition : StanceRecordOutcome

-- `BoundedStanceProvenance`
pub record BoundedStanceProvenance : Type 0 where
  pub version : ℕ
  pub capacity : ℕ
  pub observations : List StanceObservation

-- `BoundedStanceProvenance::new`
unfoldable pub new_provenance : ℕ → BoundedStanceProvenance
new_provenance capacity = record {
  version = stance_provenance_version;
  capacity = max capacity 1;
  observations = [];
}

-- An observation as it is stored, with the topic as a text.
pub record StoredObservation : Type 0 where
  pub turn : ℕ
  pub topic : Text
  pub polarity : StancePolarity
  pub source : StanceSource

-- `BoundedStanceProvenanceWire`, as it is stored.
pub record BoundedStanceProvenanceWire : Type 0 where
  pub version : ℕ
  pub capacity : ℕ
  pub observations : List StoredObservation

-- Why a stored history is refused: a topic that `StanceTopic::try_from` refuses, or the version
-- that the message names.
pub data ReadError : Type 0 where
  bad_topic : StanceTopicError → ReadError
  unsupported_version : ℕ → ReadError

abbrev pub with_topic :
    StoredObservation → Result StanceTopicError StanceTopic → Result ReadError StanceObservation
with_topic o (err e) = err (bad_topic e)
with_topic o (ok t) =
    ok (record { turn = o.turn; topic = t; polarity = o.polarity; source = o.source })

-- `StanceObservation::deserialize`, which reads the topic by `StanceTopic::try_from`.
unfoldable pub read_observation : StoredObservation → Result ReadError StanceObservation
read_observation o = with_topic o (new_topic o.topic)

-- The observations of `BoundedStanceProvenanceWire::deserialize`: the first error ends it.
unfoldable pub read_observations :
    List StoredObservation → Result ReadError (List StanceObservation)
read_observations [] = ok []
read_observations (o ∷ os) = do
  first ← read_observation o
  rest ← read_observations os
  ok (first ∷ rest)

-- `Deserialize for BoundedStanceProvenance`: the wire form is read first, with its topics; then a
-- version from the future is refused, and the history is cut to the capacity.
unfoldable pub from_wire : BoundedStanceProvenanceWire → Result ReadError BoundedStanceProvenance
from_wire wire = do
  observations ← read_observations wire.observations
  fail_if (ltb stance_provenance_version wire.version) (unsupported_version wire.version)
  ok (record {
    version = wire.version;
    capacity = max wire.capacity 1;
    observations = pop_excess (max wire.capacity 1) observations;
  })

-- `Serialize for StanceObservation`, with `String::from` for the topic.
abbrev pub stored : StanceObservation → StoredObservation
stored o = record {
  turn = o.turn;
  topic = o.topic.as_str;
  polarity = o.polarity;
  source = o.source;
}

-- `Serialize for BoundedStanceProvenance`
unfoldable pub to_wire : BoundedStanceProvenance → BoundedStanceProvenanceWire
to_wire s = record {
  version = s.version;
  capacity = s.capacity;
  observations = map stored s.observations;
}

-- `BoundedStanceProvenance::record`
unfoldable pub record_stance :
    BoundedStanceProvenance → StanceObservation → BoundedStanceProvenance × StanceRecordOutcome
record_stance s observation =
    let key = idempotency_key observation in
    if any (λ x. text_eq (idempotency_key x) key) s.observations
    then (s, no_state_transition)
    else (
      record s { observations = pop_excess s.capacity (s.observations ++ observation ∷ []) },
      recorded,
    )

-- `TemporalStanceContradiction`
pub record TemporalStanceContradiction : Type 0 where
  pub current : StanceObservation
  pub historical : StanceObservation

-- The test of `detect_temporal_contradiction` on one past observation.
unfoldable pub contradicts : StanceObservation → StanceObservation → Bool
contradicts current h =
    is_system_decision h.source
    && (ltb h.turn current.turn
        && (text_eq h.topic.as_str current.topic.as_str
            && not (polarity_eq h.polarity current.polarity)))

abbrev pub with_historical :
    StanceObservation → Option StanceObservation → Option TemporalStanceContradiction
with_historical current none = none
with_historical current (some h) = some (record { current = current; historical = h })

-- `detect_temporal_contradiction`: the newest past observation that contradicts the current one.
unfoldable pub detect_temporal_contradiction :
    BoundedStanceProvenance → StanceObservation → Option TemporalStanceContradiction
detect_temporal_contradiction provenance current =
    if not (is_system_decision current.source)
    then none
    else with_historical current (find (contradicts current) (reverse provenance.observations))

-- `record_explicit_stance_decision_if_allowed` of qxfx0-pipeline/src/lib.rs, over the parts of the
-- output and the state that it reads: `blocked`, `last_topic`, `turn_count` and the provenance.
unfoldable pub record_explicit_stance_decision_if_allowed :
    Bool
    → Option Text
    → ℕ
    → BoundedStanceProvenance
    → SystemStanceDecision
    → BoundedStanceProvenance × Option StanceRecordOutcome
record_explicit_stance_decision_if_allowed blocked last_topic turn_count provenance decision =
    let here : Bool = elim last_topic [ none ↦ false | some t ↦ text_eq t decision.topic.as_str ] in
    if blocked || not here
    then (provenance, none)
    else let (provenance', outcome) = record_stance provenance (record {
      turn = turn_count;
      topic = decision.topic;
      polarity = decision.polarity;
      source = system_decision;
    }) in
      (provenance', some outcome)
