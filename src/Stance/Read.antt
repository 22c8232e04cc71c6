-- ===== src/Stance/Read.antt =====
-- The reading of stored observations, of qxfx0-types/src/stance.rs: the texts that are topics, and
-- the first that is not.
use mathlib.Core.List.{map}
use qx_fx0rust.Base.{
  ◌<◌, ◌≤◌, ◌≡◌, ◌⊎◌, inl, inr, refl, true, false, Bool-cases, List, [], ◌∷◌, arith, length, ltb,
  ok, err, All,
}
use qx_fx0rust.Base.Text.{Text, is_blank, has_control}
use qx_fx0rust.Stance.{
  StanceTopicError, empty, too_long, contains_control, new_topic, StanceObservation,
  StoredObservation, stored, bad_topic, read_observation, read_observations,
}

-- A text that is a topic: not blank, of at most 128 characters, and without a control character.
abbrev pub IsTopic : Text → Type 0
IsTopic value = (is_blank value ≡ false) × (length value ≤ 128) × (has_control value ≡ false)

-- The first of these that a text fails.
abbrev pub Refuses : StanceTopicError → Text → Type 0
Refuses empty value = is_blank value ≡ true
Refuses too_long value = (is_blank value ≡ false) × (128 < length value)
Refuses contains_control value =
    (is_blank value ≡ false) × (length value ≤ 128) × (has_control value ≡ true)

-- Observations whose first topic that is none is refused for this reason.
abbrev pub FirstRefused : StanceTopicError → List StoredObservation → Type 0
FirstRefused e [] = ⊥
FirstRefused e (o ∷ os) = Refuses e o.topic ⊎ (IsTopic o.topic × FirstRefused e os)

-- A stored observation as it is read, where its topic is one.
abbrev pub observation_of : StoredObservation → StanceObservation
observation_of o = record {
  turn = o.turn;
  topic = record { as_str = o.topic };
  polarity = o.polarity;
  source = o.source;
}

new_topic_lem :
    (value : Text)
    → ((e : StanceTopicError) × (new_topic value ≡ err e) × Refuses e value)
      ⊎ ((new_topic value ≡ ok (record { as_str = value })) × IsTopic value)
unfolding new_topic
new_topic_lem value = elim (Bool-cases (is_blank value)) [
  | inl blank ↦ inl (empty, rw blank refl, blank)
  | inr filled ↦ elim (Bool-cases (ltb 128 (length value))) [
    | inl long ↦ inl (too_long, rw (filled, long) refl, (filled, ground arith))
    | inr short ↦ elim (Bool-cases (has_control value)) [
      | inl control ↦
          inl (contains_control, rw (filled, short, control) refl, (filled, ground arith, control))
      | inr clean ↦ inr (rw (filled, short, clean) refl, (filled, ground arith, clean))
    ]
  ]
]

read_observation_lem :
    (o : StoredObservation)
    → ((e : StanceTopicError) × (read_observation o ≡ err (bad_topic e)) × Refuses e o.topic)
      ⊎ ((read_observation o ≡ ok (observation_of o)) × IsTopic o.topic)
unfolding read_observation
read_observation_lem o = elim (new_topic_lem o.topic) [
  | inl (e, refused, why) ↦ inl (e, rw refused refl, why)
  | inr (accepted, is) ↦ inr (rw accepted refl, is)
]

-- The observations are read as they are stored if all their topics are topics, and otherwise the
-- first that is none is the error.
pub read_observations_lem :
    (os : List StoredObservation)
    → ((e : StanceTopicError) × (read_observations os ≡ err (bad_topic e)) × FirstRefused e os)
      ⊎ ((read_observations os ≡ ok (map observation_of os)) × All (λ o. IsTopic o.topic) os)
unfolding read_observations
read_observations_lem [] = inr (refl, tt)
read_observations_lem (o ∷ os) = elim (read_observation_lem o) [
  | inl (e, refused, why) ↦ inl (e, rw refused refl, inl why)
  | inr (first, is) ↦ elim (read_observations_lem os) [
    | inl (e, refused, why) ↦ inl (e, rw (first, refused) refl, inr (is, why))
    | inr (rest, are) ↦ inr (rw (first, rest) refl, (is, are))
  ]
]

topic_accepted : (value : Text) → IsTopic value → new_topic value ≡ ok (record { as_str = value })
unfolding new_topic
topic_accepted value h =
    let short : ltb 128 (length value) ≡ false = ground (arith, h.1) in rw (h.0, short, h.2) refl

pub topics_read :
    (os : List StanceObservation)
    → All (λ o. IsTopic o.topic.as_str) os
    → read_observations (map stored os) ≡ ok os
unfolding read_observations read_observation
topics_read [] h = refl
topics_read (o ∷ os) h = rw (topic_accepted o.topic.as_str h.0, topics_read os h.1) refl
