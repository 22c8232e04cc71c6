-- ===== src/Perspective/History.antt =====
-- The validation of a perspective against the curated facts, continued: the episodes in order, and
-- `validate_perspective_against_pack` of qxfx0-self/src/fact_perspective.rs as a whole.
use qx_fx0rust.Base.{
  ℕ, ◌+◌, Bool, true, false, not, ◌||◌, Option, none, some, List, [], ◌∷◌, ◌++◌, if◌then◌else◌, ltb,
  ◌==◌, any, is_some,
}
use qx_fx0rust.Base.Text.{Text, text_eq}
use qx_fx0rust.Base.Order.{text_ord}
use qx_fx0rust.Base.OrdMap.{get, insert}
use qx_fx0rust.Perspective.Facts.{FactRecord, FactRegistry, select}
use qx_fx0rust.Perspective.{
  BeliefPolarity, affirmed, qualified, opposed, OpinionCore, Opinions, PerspectiveRevisionReason,
  established_from_curated_fact, qualified_by_curated_counterpoint,
  reinforced_by_curated_consequence, PerspectiveEpisode, PerspectiveState, validate_perspective,
}
use qx_fx0rust.Perspective.Pack.{
  PackViolation, zero_turn, without_opinion, breaks_history, turns_not_monotonic, cites_other_topic,
  cites_invalid, not_establishment, not_qualification, not_reinforcement, no_episode,
  revision_precedes, polarity_differs, flag, of_states, check_subject, is_fact_with,
  counters_primary, follows_primary, check_authority,
}

-- What the loop over the episodes carries.
pub record History : Type 0 where
  pub topic_polarity : List (Text × BeliefPolarity)
  pub topic_episode_count : List (Text × ℕ)
  pub previous_turn : Option ℕ

abbrev pub belief_eq : BeliefPolarity → BeliefPolarity → Bool
belief_eq affirmed affirmed = true
belief_eq qualified qualified = true
belief_eq opposed opposed = true
belief_eq _ _ = false

abbrev pub is_belief : Option BeliefPolarity → BeliefPolarity → Bool
is_belief none q = false
is_belief (some p) q = belief_eq p q

-- `expected_previous.is_some() && episode.previous_polarity != expected_previous`
abbrev pub breaks : Option BeliefPolarity → Option BeliefPolarity → Bool
breaks none previous = false
breaks (some p) previous = not (is_belief previous p)

-- `previous_turn.is_some_and(|turn| episode.turn_seq < turn)`
abbrev pub is_before : ℕ → Option ℕ → Bool
is_before turn none = false
is_before turn (some previous) = ltb turn previous

-- The loop over the cited facts: what it reports, and with a test, its three flags.
abbrev pub check_cited : FactRegistry → PerspectiveEpisode → List Text → List PackViolation
check_cited facts e [] = []
check_cited facts e (id ∷ cited) =
    check_subject e.topic (cites_other_topic e.id) (cites_invalid e.id) (select facts id)
    ++ check_cited facts e cited

abbrev pub any_cited : FactRegistry → PerspectiveEpisode → (Text → FactRecord → Bool) → Bool
any_cited facts e test = any (λ id. is_fact_with e.topic (test id) (select facts id)) e.cited_facts

-- The `match` on the reason, with the flags for the primary fact, a counterpoint and a consequence.
abbrev pub check_reason :
    PerspectiveRevisionReason → PerspectiveEpisode → Bool → Bool → Bool → List PackViolation
check_reason established_from_curated_fact e has_primary has_counter has_consequence =
    flag
      (is_some e.previous_polarity
        || (not (belief_eq e.resulting_polarity affirmed) || not has_primary))
      (not_establishment e.id)
check_reason qualified_by_curated_counterpoint e has_primary has_counter has_consequence =
    flag
      (not (is_some e.previous_polarity)
        || (not (belief_eq e.resulting_polarity qualified) || (not has_primary || not has_counter)))
      (not_qualification e.id)
check_reason reinforced_by_curated_consequence e has_primary has_counter has_consequence =
    flag
      (not (is_belief e.previous_polarity e.resulting_polarity)
        || (not has_primary || not has_consequence))
      (not_reinforcement e.id)

-- What follows the look-up of the opinion on an episode's topic.
abbrev pub check_transition :
    FactRegistry → History → PerspectiveEpisode → Option OpinionCore → List PackViolation
check_transition facts h e none = without_opinion e.id ∷ []
check_transition facts h e (some o) =
    flag (breaks (get e.topic h.topic_polarity) e.previous_polarity) (breaks_history e.id)
    ++ (check_cited facts e e.cited_facts
        ++ check_reason e.reason e (any_cited facts e (λ id _. text_eq id o.primary_fact))
            (any_cited facts e (λ _. counters_primary o.primary_fact))
            (any_cited facts e (λ _. follows_primary o.primary_fact)))

-- `unwrap_or(0)`, and `or_default` on a count
abbrev pub or_zero : Option ℕ → ℕ
or_zero none = 0
or_zero (some n) = n

-- The maps after an episode; without an opinion the loop continues before it writes them. A count
-- is at most the number of episodes, which are in memory, so that it does not overflow.
abbrev pub record_transition : History → PerspectiveEpisode → Option OpinionCore → History
record_transition h e none = record h { previous_turn = some e.turn_seq }
record_transition h e (some o) = record {
  topic_polarity = insert e.topic e.resulting_polarity h.topic_polarity;
  topic_episode_count =
      insert e.topic (or_zero (get e.topic h.topic_episode_count) + 1) h.topic_episode_count;
  previous_turn = some e.turn_seq;
}

-- The loop over the episodes: what it reports, and what it carries to the end.
unfoldable pub check_history :
    FactRegistry → Opinions → History → List PerspectiveEpisode → List PackViolation
check_history facts os h [] = []
check_history facts os h (e ∷ es) =
    let opinion = get e.topic os in
    flag (e.turn_seq == 0) (zero_turn e.id)
    ++ (flag (is_before e.turn_seq h.previous_turn) turns_not_monotonic
        ++ (check_transition facts h e opinion
            ++ check_history facts os (record_transition h e opinion) es))

unfoldable pub history_after : Opinions → History → List PerspectiveEpisode → History
history_after os h [] = h
history_after os h (e ∷ es) = history_after os (record_transition h e (get e.topic os)) es

-- `topic_polarity.get(topic)` differs
abbrev pub is_other_belief : Option BeliefPolarity → BeliefPolarity → Bool
is_other_belief none q = false
is_other_belief (some p) q = not (belief_eq p q)

-- The episodes on a topic: none, or more than there are revisions.
abbrev pub check_count : Text → ℕ → ℕ → List PackViolation
check_count topic revisions count =
    if count == 0
    then no_episode topic ∷ []
    else flag (ltb revisions count) (revision_precedes topic)

-- The last loop over the opinions.
unfoldable pub check_latest : History → Opinions → List PackViolation
check_latest h [] = []
check_latest h ((topic, o) ∷ os) =
    check_count topic o.revision_seq (or_zero (get topic h.topic_episode_count))
    ++ (flag (is_other_belief (get topic h.topic_polarity) o.polarity) (polarity_differs topic)
        ++ check_latest h os)

abbrev pub no_history : History
no_history = record { topic_polarity = []; topic_episode_count = []; previous_turn = none }

-- `validate_perspective_against_pack`
unfoldable pub validate_perspective_against_pack :
    PerspectiveState → FactRegistry → List PackViolation
validate_perspective_against_pack s facts =
    of_states (validate_perspective s)
    ++ (check_authority facts s.opinions
        ++ (check_history facts s.opinions no_history s.episodes
            ++ check_latest (history_after s.opinions no_history s.episodes) s.opinions))
