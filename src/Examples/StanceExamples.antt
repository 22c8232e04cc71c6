-- ===== src/Examples/StanceExamples.antt =====
-- The stance history at concrete observations.
use mathlib.Core.List.{map}
use qx_fx0rust.Base.{
  ◌⊎◌, ◌≢◌, ◌<◌, ◌≤◌, ◌-◌, none, max, drop, All, length, err, ℕ, ◌≡◌, refl, ◌↔◌, false, some, [],
  ◌∷◌, arith, ok,
}
use qx_fx0rust.Base.Text.{Text, codes, text_eq, trim}
use qx_fx0rust.Base.Ring.{pop_excess}
use qx_fx0rust.Stance.{
  stance_provenance_version, StoredObservation, BoundedStanceProvenanceWire, StanceTopicError,
  empty, bad_topic, unsupported_version, new_topic, read_observation, read_observations,
  StanceObservation, StancePolarity, affirmed, rejected, system_decision, BoundedStanceProvenance,
  TemporalStanceContradiction, SystemStanceDecision, idempotency_key, record_stance, from_wire,
  detect_temporal_contradiction, contradicts, is_system_decision, polarity_eq,
  record_explicit_stance_decision_if_allowed,
}
use qx_fx0rust.Stance.Read.{IsTopic, FirstRefused, observation_of}
use qx_fx0rust.Stance.Key.{idempotency_key-injective}
use qx_fx0rust.Stance.Provenance.{
  IsBounded, record_stance-IsBounded, from_wire-bounded, record_explicit-allowed,
}
use qx_fx0rust.Stance.Contradiction.{Contradicts, Newest, detect_temporal_contradiction-Newest}

abbrev on_freedom : ℕ → StancePolarity → StanceObservation
on_freedom n p = record {
  turn = n;
  topic = record { as_str = codes "freedom" };
  polarity = p;
  source = system_decision;
}

abbrev past : BoundedStanceProvenance
past = record { version = 1; capacity = 1; observations = on_freedom 1 rejected ∷ [] }

past-IsBounded : IsBounded past
past-IsBounded = record { room = omega arith; bounded = omega arith; distinct = (tt, tt) }

abbrev contradiction : TemporalStanceContradiction
contradiction = record { current = on_freedom 4 affirmed; historical = on_freedom 1 rejected }

detected : detect_temporal_contradiction past (on_freedom 4 affirmed) ≡ some contradiction
unfolding detect_temporal_contradiction contradicts is_system_decision polarity_eq text_eq
detected = refl

idempotency_key-injective_example :
    (idempotency_key (on_freedom 1 rejected) ≡ idempotency_key (on_freedom 4 rejected))
    ↔ (on_freedom 1 rejected ≡ on_freedom 4 rejected)
idempotency_key-injective_example =
    idempotency_key-injective (on_freedom 1 rejected) (on_freedom 4 rejected)

record_stance-IsBounded_example : IsBounded (record_stance past (on_freedom 4 affirmed)).0
record_stance-IsBounded_example =
    (record_stance-IsBounded past (on_freedom 4 affirmed) past-IsBounded).0

-- A stored history with more observations than its capacity, and one with a blank topic.
abbrev on_topic : ℕ → Text → StoredObservation
on_topic n t = record { turn = n; topic = t; polarity = rejected; source = system_decision }

abbrev stored_past : BoundedStanceProvenanceWire
stored_past = record {
  version = 1;
  capacity = 0;
  observations = on_topic 1 (codes "duty") ∷ on_topic 2 (codes "freedom") ∷ [];
}

read_past : from_wire stored_past ≡ ok (record past { observations = on_freedom 2 rejected ∷ [] })
unfolding from_wire read_observations read_observation new_topic trim pop_excess
read_past = refl

abbrev stored_blank : BoundedStanceProvenanceWire
stored_blank = record stored_past { version = 2; observations = on_topic 1 (codes "  ") ∷ [] }

read_blank : from_wire stored_blank ≡ err (bad_topic empty)
unfolding from_wire read_observations read_observation new_topic trim
read_blank = refl

from_wire-bounded_example :
    ((e : StanceTopicError) × (from_wire stored_past ≡ err (bad_topic e))
      × FirstRefused e stored_past.observations)
    ⊎ (All (λ o. IsTopic o.topic) stored_past.observations
        × (stance_provenance_version < stored_past.version)
        × (from_wire stored_past ≡ err (unsupported_version stored_past.version)))
    ⊎ (All (λ o. IsTopic o.topic) stored_past.observations
        × (stored_past.version ≤ stance_provenance_version)
        × (s : BoundedStanceProvenance) × (from_wire stored_past ≡ ok s)
        × (s.version ≡ stored_past.version)
        × (s.capacity ≡ max stored_past.capacity 1)
        × (length s.observations ≤ s.capacity)
        × (s.observations
            ≡ drop
                (length stored_past.observations - s.capacity)
                (map observation_of stored_past.observations)))
from_wire-bounded_example = from_wire-bounded stored_past

abbrev decision : SystemStanceDecision
decision = record { topic = record { as_str = codes "freedom" }; polarity = affirmed }

record_explicit-allowed_example :
    IsBounded
      (record_explicit_stance_decision_if_allowed false (some (codes "freedom")) 4 past decision).0
record_explicit-allowed_example =
    (record_explicit-allowed false (some (codes "freedom")) 4 past decision past-IsBounded).0

detect_temporal_contradiction-Newest_example :
    (((on_freedom 4 affirmed).source ≢ system_decision)
      × (detect_temporal_contradiction past (on_freedom 4 affirmed) ≡ none))
    ⊎ (((on_freedom 4 affirmed).source ≡ system_decision)
        × (detect_temporal_contradiction past (on_freedom 4 affirmed) ≡ none)
        × All (λ x. ¬ Contradicts (on_freedom 4 affirmed) x) past.observations)
    ⊎ ((h : StanceObservation) × ((on_freedom 4 affirmed).source ≡ system_decision)
        × (detect_temporal_contradiction past (on_freedom 4 affirmed)
            ≡ some (record { current = on_freedom 4 affirmed; historical = h }))
        × Contradicts (on_freedom 4 affirmed) h
        × Newest past.observations (on_freedom 4 affirmed) h)
detect_temporal_contradiction-Newest_example =
    detect_temporal_contradiction-Newest past (on_freedom 4 affirmed)
