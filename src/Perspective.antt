-- ===== src/Perspective.antt =====
-- The perspective of a session: the types and `PerspectiveState::validate` of
-- qxfx0-types/src/perspective.rs, the operators of qxfx0-self/src/fact_perspective.rs, and the
-- facts of qxfx0-semantic/src/fact_model.rs that they select.
pub mod Facts
pub mod Load
pub mod Loads
pub mod Loaded
pub mod Validate
pub mod Integrate
pub mod Revise
pub mod Keeps
pub mod Sound
pub mod Argued
pub mod Render
pub mod Shown
pub mod Pack
pub mod History
pub mod Renderable
pub mod Latest
use qx_fx0rust.Base.{
  ℕ, ◌+◌, ◌-◌, ◌^◌, min, max, Bool, true, false, not, ◌&&◌, ◌||◌, Option, none, some, List, [], ◌∷◌,
  ◌++◌, if◌then◌else◌, ltb, leb, ◌==◌, length, drop, any, is_empty, Result, ok, err, ◌>>=◌, ◌>>◌,
  fail_if,
}
use qx_fx0rust.Base.Text.{Text, text_eq}
use qx_fx0rust.Base.Order.{text_ord}
use qx_fx0rust.Base.OrdMap.{get, contains_key, insert}
use qx_fx0rust.Perspective.Facts.{
  FactRecord, FactRegistry, FactRegistryError, FactCondition, counters, follows_from, select,
}

-- `BeliefPolarity`
pub data BeliefPolarity : Type 0 where
  affirmed qualified opposed : BeliefPolarity

-- A `BTreeSet` of fact ids: a map to nothing.
abbrev pub FactSet : Type 0
FactSet = List (Text × Unit {0})

-- `OpinionCore`
pub record OpinionCore : Type 0 where
  pub topic : Text
  pub primary_fact : Text
  pub polarity : BeliefPolarity
  pub grounding_facts : FactSet
  pub confidence_basis_points : ℕ
  pub revision_seq : ℕ

-- `PerspectiveRevisionReason`
pub data PerspectiveRevisionReason : Type 0 where
  established_from_curated_fact qualified_by_curated_counterpoint : PerspectiveRevisionReason
  reinforced_by_curated_consequence : PerspectiveRevisionReason

-- `PerspectiveEpisode`
pub record PerspectiveEpisode : Type 0 where
  pub id : ℕ
  pub turn_seq : ℕ
  pub topic : Text
  pub previous_polarity : Option BeliefPolarity
  pub resulting_polarity : BeliefPolarity
  pub cited_facts : List Text
  pub reason : PerspectiveRevisionReason

-- `PerspectiveState`
abbrev pub Opinions : Type 0
Opinions = List (Text × OpinionCore)

pub record PerspectiveState : Type 0 where
  pub opinions : Opinions
  pub episodes : List PerspectiveEpisode
  pub next_episode_id : ℕ

abbrev pub max_perspective_opinions : ℕ
max_perspective_opinions = 1024

abbrev pub max_perspective_episodes : ℕ
max_perspective_episodes = 2048

-- What `PerspectiveState::validate` reports; the source formats messages.
pub data PerspectiveViolation : Type 0 where
  too_many_opinions too_many_episodes ids_not_increasing : PerspectiveViolation
  topic_differs : Text → Text → PerspectiveViolation
  lacks_grounding confidence_exceeds : Text → PerspectiveViolation
  no_cited_fact : ℕ → PerspectiveViolation
  not_below_next : ℕ → ℕ → PerspectiveViolation

abbrev pub report : Bool → PerspectiveViolation → List PerspectiveViolation
report true v = v ∷ []
report false v = []

unfoldable pub check_opinions : Opinions → List PerspectiveViolation
check_opinions [] = []
check_opinions ((topic, o) ∷ os) =
    report (not (text_eq topic o.topic)) (topic_differs topic o.topic)
    ++ (report (is_empty o.grounding_facts || not (contains_key o.primary_fact o.grounding_facts))
          (lacks_grounding topic)
        ++ (report (ltb 10000 o.confidence_basis_points) (confidence_exceeds topic)
            ++ check_opinions os))

-- `previous_id.is_some_and(|previous| id <= previous)`
abbrev pub is_not_above : Option ℕ → ℕ → Bool
is_not_above none id = false
is_not_above (some previous) id = leb id previous

unfoldable pub check_episodes : ℕ → Option ℕ → List PerspectiveEpisode → List PerspectiveViolation
check_episodes next previous [] = []
check_episodes next previous (e ∷ es) =
    report (is_empty e.cited_facts) (no_cited_fact e.id)
    ++ (report (leb next e.id) (not_below_next e.id next)
        ++ (report (is_not_above previous e.id) ids_not_increasing
            ++ check_episodes next (some e.id) es))

-- `PerspectiveState::validate`
unfoldable pub validate_perspective : PerspectiveState → List PerspectiveViolation
validate_perspective s =
    report (ltb max_perspective_opinions (length s.opinions)) too_many_opinions
    ++ (report (ltb max_perspective_episodes (length s.episodes)) too_many_episodes
        ++ (check_opinions s.opinions ++ check_episodes s.next_episode_id none s.episodes))

-- `ClaimRole` of qxfx0-semantic/src/response_plan.rs
pub data ClaimRole : Type 0 where
  thesis support counterpoint consequence dialogue_act : ClaimRole

-- The errors of the operators; the source formats them as messages.
pub data PerspectiveError : Type 0 where
  dialogue_act_as_evidence spans_multiple_subjects : PerspectiveError
  registry : FactRegistryError → PerspectiveError
  opinion_capacity_reached revision_overflow episode_id_overflow : PerspectiveError
  primary_fact_conflict : Text → Text → Text → PerspectiveError
  no_established_thesis : Text → PerspectiveError
  does_not_cite_primary : Text → Text → PerspectiveError

abbrev pub Revised : Type 0 → Type 0
Revised A = Result PerspectiveError A

-- `checked_add(1)` on a `usize`
abbrev pub checked_next : PerspectiveError → ℕ → Revised ℕ
checked_next e n = if leb (2 ^ 64) (n + 1) then err e else ok (n + 1)

-- `append_episode`: the oldest episodes go where there are too many.
unfoldable pub append_episode :
    PerspectiveState
    → ℕ
    → Text
    → Option BeliefPolarity
    → BeliefPolarity
    → List Text
    → PerspectiveRevisionReason
    → Revised PerspectiveState
append_episode s turn topic previous resulting cited reason = do
  next ← checked_next episode_id_overflow s.next_episode_id
  let episodes : List PerspectiveEpisode =
      s.episodes
      ++ record {
        id = s.next_episode_id;
        turn_seq = turn;
        topic = topic;
        previous_polarity = previous;
        resulting_polarity = resulting;
        cited_facts = cited;
        reason = reason;
      }
        ∷ []
  ok (record s {
    next_episode_id = next;
    episodes = drop (length episodes - max_perspective_episodes) episodes;
  })

abbrev pub counters_fact : Text → FactCondition → Bool
counters_fact target (counters fact) = text_eq fact target
counters_fact target (follows_from fact) = false

abbrev pub follows_fact : Text → FactCondition → Bool
follows_fact target (counters fact) = false
follows_fact target (follows_from fact) = text_eq fact target

-- `Ok(true)` with the state of an appended episode.
abbrev pub changed : Revised PerspectiveState → Revised (PerspectiveState × Bool)
changed (ok s) = ok (s, true)
changed (err e) = err e

-- `establish_opinion`, by the opinion that there is.
abbrev pub establish_by :
    PerspectiveState → ℕ → FactRecord → Option OpinionCore → Revised (PerspectiveState × Bool)
establish_by s turn fact (some existing) =
    if text_eq existing.primary_fact fact.id
    then ok (s, false)
    else err (primary_fact_conflict fact.subject existing.primary_fact fact.id)
establish_by s turn fact none =
    let opinion : OpinionCore = record {
      topic = fact.subject;
      primary_fact = fact.id;
      polarity = affirmed;
      grounding_facts = (fact.id, tt) ∷ [];
      confidence_basis_points = fact.confidence_basis_points;
      revision_seq = 1;
    } in
    changed (
      append_episode (record s { opinions = insert fact.subject opinion s.opinions }) turn
        fact.subject none affirmed (fact.id ∷ []) established_from_curated_fact)

unfoldable pub establish_opinion :
    PerspectiveState → ℕ → FactRecord → Revised (PerspectiveState × Bool)
establish_opinion s turn fact = establish_by s turn fact (get fact.subject s.opinions)

-- `qualify_opinion`, by the opinion that there is.
abbrev pub qualify_by :
    PerspectiveState → ℕ → FactRecord → Option OpinionCore → Revised (PerspectiveState × Bool)
qualify_by s turn fact none = err (no_established_thesis fact.id)
qualify_by s turn fact (some opinion) =
    if not (any (counters_fact opinion.primary_fact) fact.conditions)
    then err (does_not_cite_primary fact.id opinion.primary_fact)
    else if contains_key fact.id opinion.grounding_facts
    then ok (s, false)
    else (do
      seq ← checked_next revision_overflow opinion.revision_seq
      let revised : OpinionCore = record opinion {
        grounding_facts = insert fact.id tt opinion.grounding_facts;
        polarity = qualified;
        confidence_basis_points = min opinion.confidence_basis_points fact.confidence_basis_points;
        revision_seq = seq;
      }
      changed (
          append_episode (record s { opinions = insert fact.subject revised s.opinions }) turn
            fact.subject (some opinion.polarity) qualified (opinion.primary_fact ∷ fact.id ∷ [])
            qualified_by_curated_counterpoint))

unfoldable pub qualify_opinion :
    PerspectiveState → ℕ → FactRecord → Revised (PerspectiveState × Bool)
qualify_opinion s turn fact = qualify_by s turn fact (get fact.subject s.opinions)

-- `reinforce_opinion`, by the opinion that there is.
abbrev pub reinforce_by :
    PerspectiveState → ℕ → FactRecord → Option OpinionCore → Revised (PerspectiveState × Bool)
reinforce_by s turn fact none = err (no_established_thesis fact.id)
reinforce_by s turn fact (some opinion) =
    if not (any (follows_fact opinion.primary_fact) fact.conditions)
    then err (does_not_cite_primary fact.id opinion.primary_fact)
    else if contains_key fact.id opinion.grounding_facts
    then ok (s, false)
    else (do
      seq ← checked_next revision_overflow opinion.revision_seq
      let revised : OpinionCore = record opinion {
        grounding_facts = insert fact.id tt opinion.grounding_facts;
        confidence_basis_points = max opinion.confidence_basis_points fact.confidence_basis_points;
        revision_seq = seq;
      }
      changed (
          append_episode (record s { opinions = insert fact.subject revised s.opinions }) turn
            fact.subject (some opinion.polarity) opinion.polarity
            (opinion.primary_fact ∷ fact.id ∷ []) reinforced_by_curated_consequence))

unfoldable pub reinforce_opinion :
    PerspectiveState → ℕ → FactRecord → Revised (PerspectiveState × Bool)
reinforce_opinion s turn fact = reinforce_by s turn fact (get fact.subject s.opinions)
