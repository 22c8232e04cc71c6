-- ===== src/Stance/Provenance.antt =====
-- The bounded stance history of qxfx0-types/src/stance.rs as a set of distinct observations.
use mathlib.Core.Bool.{false≢true}
use mathlib.Core.List.{map}
use qx_fx0rust.Base.{
  ltb, Option, ℕ, ◌+◌, ◌-◌, ◌≤◌, ◌<◌, ◌≡◌, ◌≢◌, refl, sym, ap, ◌∙◌, ◌↔◌, ◌⊎◌, inl, inr, Bool, true,
  false, Option, none, some, List, [], ◌∷◌, ◌++◌, arith, length, length-map, drop, any, In, All,
  max, ok, err, Bool-cases,
}
use qx_fx0rust.Base.Text.{Text, text_eq, text_eq_iff}
use qx_fx0rust.Base.Ring.{
  pop_excess, pop_excess-drop, length-pop_excess, pop_excess-of_le, Distinct, push-drop,
  push-Distinct,
}
use qx_fx0rust.Stance.{
  recorded, StanceObservation, BoundedStanceProvenance, no_state_transition, idempotency_key,
  stance_provenance_version, new_provenance, BoundedStanceProvenanceWire, StanceTopicError,
  bad_topic, unsupported_version, from_wire, to_wire, record_stance, SystemStanceDecision,
  system_decision, record_explicit_stance_decision_if_allowed,
}
use qx_fx0rust.Stance.Read.{
  IsTopic, FirstRefused, observation_of, read_observations_lem, topics_read,
}
use qx_fx0rust.Stance.Key.{idempotency_key-injective}

-- A history of at most `capacity` distinct observations, for at least one.
pub record IsBounded (s : BoundedStanceProvenance) : Type 0 where
  pub room : 1 ≤ s.capacity
  pub bounded : length s.observations ≤ s.capacity
  pub distinct : Distinct s.observations

-- Whether an observation is recorded already, as the code tests it.
abbrev is_known : StanceObservation → List StanceObservation → Bool
is_known o = any (λ x. text_eq (idempotency_key x) (idempotency_key o))

key_test :
    (a b : StanceObservation) → (text_eq (idempotency_key a) (idempotency_key b) ≡ true) ↔ (a ≡ b)
key_test a b = (
  λ e.
      (idempotency_key-injective a b).0 ((text_eq_iff (idempotency_key a) (idempotency_key b)).0 e),
  λ e. (text_eq_iff (idempotency_key a) (idempotency_key b)).1 (ap idempotency_key e),
)

-- The test by keys is membership.
is_known_iff :
    (o : StanceObservation) (os : List StanceObservation) → (is_known o os ≡ true) ↔ In o os
is_known_iff o [] = (λ e. cc, λ m. absurd m)
is_known_iff o (x ∷ os) = ground (arith, key_test x o, is_known_iff o os)

-- A new history is bounded, at any requested capacity.
pub new_provenance-IsBounded : (capacity : ℕ) → IsBounded (new_provenance capacity)
unfolding new_provenance
new_provenance-IsBounded capacity = record {
  room = omega arith;
  bounded = omega arith;
  distinct = tt;
}

abbrev push : BoundedStanceProvenance → StanceObservation → BoundedStanceProvenance
push s o = record s { observations = pop_excess s.capacity (s.observations ++ o ∷ []) }

push-IsBounded :
    (s : BoundedStanceProvenance) (o : StanceObservation)
    → IsBounded s
    → ¬ In o s.observations
    → IsBounded (push s o)
push-IsBounded s o v new = record {
  room = v.room;
  bounded = omega (arith, length-pop_excess s.capacity (s.observations ++ o ∷ []));
  distinct = push-Distinct s.capacity s.observations o v.distinct new;
}

-- Recording keeps a history bounded and distinct. An observation that the history holds changes
-- nothing; any other is reported as recorded and becomes the newest entry, and of the older ones
-- the oldest goes exactly if the history was full.
pub record_stance-IsBounded :
    (s : BoundedStanceProvenance) (o : StanceObservation)
    → IsBounded s
    → IsBounded (record_stance s o).0
      × ((In o s.observations × (record_stance s o ≡ (s, no_state_transition)))
          ⊎ ((¬ In o s.observations)
              × ((record_stance s o).1 ≡ recorded)
              × ((record_stance s o).0.observations
                  ≡ drop (length s.observations + 1 - s.capacity) (s.observations ++ o ∷ []))))
unfolding record_stance
record_stance-IsBounded s o v = elim (Bool-cases (is_known o s.observations)) [
  | inl known ↦ rw known (v, inl ((is_known_iff o s.observations).0 known, refl))
  | inr fresh ↦
      let new : ¬ In o s.observations =
        λ m. false≢true (sym fresh ∙ (is_known_iff o s.observations).1 m) in
      rw fresh (push-IsBounded s o v new, inr (new, refl, push-drop s.capacity s.observations o))
]

-- What is read of a stored history whose topics are topics and whose version is known.
abbrev pub read_history : BoundedStanceProvenanceWire → BoundedStanceProvenance
read_history wire = record {
  version = wire.version;
  capacity = max wire.capacity 1;
  observations = pop_excess (max wire.capacity 1) (map observation_of wire.observations);
}

-- Reading a stored history refuses, first, exactly the histories with a topic that is blank, longer
-- than 128 characters or with a control character, for the first such topic and in this order of
-- reasons; and then exactly the versions above the current one. What it accepts has the version of
-- the stored history, its capacity or that of one where it was zero, and of its observations the
-- newest that are within that capacity.
pub from_wire-bounded :
    (wire : BoundedStanceProvenanceWire)
    → ((e : StanceTopicError) × (from_wire wire ≡ err (bad_topic e))
        × FirstRefused e wire.observations)
      ⊎ (All (λ o. IsTopic o.topic) wire.observations
          × (stance_provenance_version < wire.version)
          × (from_wire wire ≡ err (unsupported_version wire.version)))
      ⊎ (All (λ o. IsTopic o.topic) wire.observations
          × (wire.version ≤ stance_provenance_version)
          × (s : BoundedStanceProvenance) × (from_wire wire ≡ ok s)
          × (s.version ≡ wire.version)
          × (s.capacity ≡ max wire.capacity 1)
          × (length s.observations ≤ s.capacity)
          × (s.observations
              ≡ drop
                  (length wire.observations - s.capacity)
                  (map observation_of wire.observations)))
unfolding from_wire
from_wire-bounded wire = elim (read_observations_lem wire.observations) [
  | inl (e, refused, why) ↦ inl (e, rw refused refl, why)
  | inr (read, topics) ↦ elim (Bool-cases (ltb stance_provenance_version wire.version)) [
    | inl above ↦ inr (inl (topics, ground arith, rw (read, above) refl))
    | inr known ↦ inr (
        inr (
          topics,
          ground arith,
          read_history wire,
          rw (read, known) refl,
          refl,
          refl,
          omega (
            arith,
            length-pop_excess (max wire.capacity 1) (map observation_of wire.observations),
          ),
          pop_excess-drop (max wire.capacity 1) (map observation_of wire.observations)
              ∙ ap
                  (λ (n : ℕ). drop (n - max wire.capacity 1) (map observation_of wire.observations))
                  (length-map observation_of wire.observations),
        ))
  ]
]

-- A bounded history of a known version, whose topics are topics, is read back as it was written.
from_wire-roundtrip :
    (s : BoundedStanceProvenance)
    → IsBounded s
    → s.version ≤ stance_provenance_version
    → All (λ o. IsTopic o.topic.as_str) s.observations
    → from_wire (to_wire s) ≡ ok s
unfolding from_wire to_wire
from_wire-roundtrip s v known topics =
    let room = v.room in
    let bounded = v.bounded in
    let current : ltb stance_provenance_version s.version ≡ false = ground arith in
    let same : max s.capacity 1 ≡ s.capacity = omega arith in
    rw
      (
        topics_read s.observations topics,
        current,
        same,
        pop_excess-of_le s.capacity s.observations bounded,
      )
      refl

-- An explicit decision is recorded exactly if the turn is not blocked and its topic is that of
-- the turn; then what is recorded is a system decision of this turn, and otherwise the history is
-- as it was. The history stays bounded on every branch.
pub record_explicit-allowed :
    (was_blocked : Bool) (last_topic : Option Text) (turn_count : ℕ) (s : BoundedStanceProvenance)
    (d : SystemStanceDecision)
    → IsBounded s
    → let r = record_explicit_stance_decision_if_allowed was_blocked last_topic turn_count s d in
      let o : StanceObservation = record {
        turn = turn_count;
        topic = d.topic;
        polarity = d.polarity;
        source = system_decision;
      } in
      IsBounded r.0
      × ((r ≡ ((record_stance s o).0, some (record_stance s o).1))
            × (was_blocked ≡ false)
            × (last_topic ≡ some d.topic.as_str)
          ⊎ (r ≡ (s, none)) × ((was_blocked ≡ true) ⊎ (last_topic ≢ some d.topic.as_str)))
unfolding record_explicit_stance_decision_if_allowed
record_explicit-allowed true last_topic turn_count s d v = (v, inr (refl, inl refl))
record_explicit-allowed false none turn_count s d v = (v, inr (refl, inr (λ e. cc)))
record_explicit-allowed false (some t) turn_count s d v =
    elim (Bool-cases (text_eq t d.topic.as_str)) [
      | inl here ↦ rw here (
        (record_stance-IsBounded s _ v).0,
        inl (refl, refl, ap some ((text_eq_iff t d.topic.as_str).0 here)),
      )
      | inr elsewhere ↦ rw elsewhere (
        v,
        inr (
          refl,
          inr (λ e.
              let same : t ≡ d.topic.as_str = cc in
              false≢true (sym elsewhere ∙ (text_eq_iff t d.topic.as_str).1 same)),
        ),
      )
    ]
