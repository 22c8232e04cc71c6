-- ===== src/Perspective/Argued.antt =====
-- A thesis with its counterpoint makes a qualified opinion in qxfx0-self/src/fact_perspective.rs.
use qx_fx0rust.Base.{◌-◌, ◌++◌, drop, length, ℕ, ◌+◌, min, Option, none, some, List, [], ◌∷◌}
use qx_fx0rust.Base.Text.{Text}
use qx_fx0rust.Base.Order.{text_ord}
use qx_fx0rust.Base.OrdMap.{insert}
use qx_fx0rust.Perspective.Facts.{FactRecord}
use qx_fx0rust.Perspective.{
  PerspectiveEpisode, max_perspective_episodes, BeliefPolarity, affirmed, qualified, OpinionCore,
  PerspectiveState, PerspectiveRevisionReason, established_from_curated_fact,
  qualified_by_curated_counterpoint,
}

-- The state with one episode more.
abbrev pub appended :
    PerspectiveState
    → ℕ
    → Text
    → Option BeliefPolarity
    → BeliefPolarity
    → List Text
    → PerspectiveRevisionReason
    → PerspectiveState
appended s turn topic previous resulting cited reason =
    let episodes : List PerspectiveEpisode =
      s.episodes
      ++ record {
        id = s.next_episode_id;
        turn_seq = turn;
        topic = topic;
        previous_polarity = previous;
        resulting_polarity = resulting;
        cited_facts = cited;
        reason = reason;
      }
        ∷ [] in
    record s {
      next_episode_id = s.next_episode_id + 1;
      episodes = drop (length episodes - max_perspective_episodes) episodes;
    }

-- The opinion that a thesis establishes.
abbrev pub first_opinion : FactRecord → OpinionCore
first_opinion f = record {
  topic = f.subject;
  primary_fact = f.id;
  polarity = affirmed;
  grounding_facts = (f.id, tt) ∷ [];
  confidence_basis_points = f.confidence_basis_points;
  revision_seq = 1;
}

-- And what a counterpoint makes of it.
abbrev pub second_opinion : FactRecord → FactRecord → OpinionCore
second_opinion f g = record (first_opinion f) {
  polarity = qualified;
  grounding_facts = insert g.id tt ((f.id, tt) ∷ []);
  confidence_basis_points = min f.confidence_basis_points g.confidence_basis_points;
  revision_seq = 2;
}

abbrev established : PerspectiveState → ℕ → FactRecord → PerspectiveState
established s turn f =
    appended (record s { opinions = insert f.subject (first_opinion f) s.opinions }) turn f.subject
      none affirmed (f.id ∷ []) established_from_curated_fact

abbrev qualified_state : PerspectiveState → ℕ → FactRecord → FactRecord → PerspectiveState
qualified_state s turn f g =
    appended (record s { opinions = insert g.subject (second_opinion f g) s.opinions }) turn
      g.subject (some affirmed) qualified (f.id ∷ g.id ∷ []) qualified_by_curated_counterpoint

-- The episode of the thesis, and that of its counterpoint.
abbrev pub thesis_episode : PerspectiveState → ℕ → FactRecord → PerspectiveEpisode
thesis_episode s turn f = record {
  id = s.next_episode_id;
  turn_seq = turn;
  topic = f.subject;
  previous_polarity = none;
  resulting_polarity = affirmed;
  cited_facts = f.id ∷ [];
  reason = established_from_curated_fact;
}

abbrev pub counterpoint_episode :
    PerspectiveState → ℕ → FactRecord → FactRecord → PerspectiveEpisode
counterpoint_episode s turn f g = record {
  id = s.next_episode_id + 1;
  turn_seq = turn;
  topic = g.subject;
  previous_polarity = some affirmed;
  resulting_polarity = qualified;
  cited_facts = f.id ∷ g.id ∷ [];
  reason = qualified_by_curated_counterpoint;
}
