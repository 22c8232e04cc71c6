-- ===== src/Perspective/Pack.antt =====
-- The validation of a perspective against the curated facts, its first loop: what
-- `validate_perspective_against_pack` of qxfx0-self/src/fact_perspective.rs asks of the opinions.
-- The pack set is read for its registry only.
use qx_fx0rust.Base.{
  ℕ, Bool, true, false, not, ◌&&◌, List, [], ◌∷◌, ◌++◌, ◌==◌, any, Result, ok, err,
}
use qx_fx0rust.Base.Text.{Text, text_eq}
use qx_fx0rust.Base.Order.{text_ord}
use qx_fx0rust.Perspective.Facts.{FactRecord, FactRegistry, FactRegistryError, select}
use qx_fx0rust.Perspective.{
  BeliefPolarity, affirmed, qualified, opposed, FactSet, Opinions, PerspectiveViolation,
  counters_fact, follows_fact,
}

-- What is reported; the source formats messages.
pub data PackViolation : Type 0 where
  of_state : PerspectiveViolation → PackViolation
  primary_of_other_topic invalid_primary fact_of_other_topic invalid_fact : Text → PackViolation
  affirmed_despite qualified_without opposed_polarity zero_revision : Text → PackViolation
  zero_turn without_opinion breaks_history : ℕ → PackViolation
  turns_not_monotonic : PackViolation
  cites_other_topic cites_invalid not_establishment : ℕ → PackViolation
  not_qualification not_reinforcement : ℕ → PackViolation
  no_episode revision_precedes polarity_differs : Text → PackViolation

abbrev pub flag : Bool → PackViolation → List PackViolation
flag true v = v ∷ []
flag false v = []

abbrev pub of_states : List PerspectiveViolation → List PackViolation
of_states [] = []
of_states (v ∷ vs) = of_state v ∷ of_states vs

-- `Ok(fact) if &fact.subject == topic`, or the other two arms
abbrev pub check_subject :
    Text → PackViolation → PackViolation → Result FactRegistryError FactRecord → List PackViolation
check_subject topic other invalid (ok fact) = flag (not (text_eq fact.subject topic)) other
check_subject topic other invalid (err e) = invalid ∷ []

-- Whether a selected fact about the topic passes a test.
abbrev pub is_fact_with : Text → (FactRecord → Bool) → Result FactRegistryError FactRecord → Bool
is_fact_with topic test (ok fact) = text_eq fact.subject topic && test fact
is_fact_with topic test (err e) = false

abbrev pub counters_primary : Text → FactRecord → Bool
counters_primary primary fact = any (counters_fact primary) fact.conditions

abbrev pub follows_primary : Text → FactRecord → Bool
follows_primary primary fact = any (follows_fact primary) fact.conditions

-- The loop over the grounding: what it reports.
unfoldable pub check_facts : FactRegistry → Text → FactSet → List PackViolation
check_facts facts topic [] = []
check_facts facts topic ((id, u) ∷ grounding) =
    check_subject topic (fact_of_other_topic id) (invalid_fact topic) (select facts id)
    ++ check_facts facts topic grounding

-- The same loop: `has_counterpoint`
abbrev pub any_counterpoint : FactRegistry → Text → Text → FactSet → Bool
any_counterpoint facts topic primary =
    any (λ e. is_fact_with topic (counters_primary primary) (select facts e.0))

-- The `match` on the polarity.
abbrev pub check_polarity : Text → BeliefPolarity → Bool → List PackViolation
check_polarity topic affirmed counterpoint = flag counterpoint (affirmed_despite topic)
check_polarity topic qualified counterpoint = flag (not counterpoint) (qualified_without topic)
check_polarity topic opposed counterpoint = opposed_polarity topic ∷ []

-- The first loop over the opinions.
unfoldable pub check_authority : FactRegistry → Opinions → List PackViolation
check_authority facts [] = []
check_authority facts ((topic, o) ∷ os) =
    let primary = select facts o.primary_fact in
    check_subject topic (primary_of_other_topic o.primary_fact) (invalid_primary topic) primary
    ++ (check_facts facts topic o.grounding_facts
        ++ (check_polarity topic o.polarity
              (any_counterpoint facts topic o.primary_fact o.grounding_facts)
            ++ (flag (is_fact_with topic (λ _. true) primary && (o.revision_seq == 0))
                  (zero_revision topic)
                ++ check_authority facts os)))
