-- ===== src/Examples/PerspectiveExamples.antt =====
-- The perspective of a session at concrete curated facts.
use qx_fx0rust.Base.{ℕ, ◌≤◌, ◌≡◌, ◌≢◌, refl, ◌↔◌, true, none, some, List, [], ◌∷◌, arith, ok}
use qx_fx0rust.Base.Text.{Text, codes, text_eq, trim, trim_start}
use qx_fx0rust.Base.Order.{text_ord, text_lt}
use qx_fx0rust.Base.OrdMap.{get, contains_key, insert, IsSorted}
use qx_fx0rust.Perspective.Facts.{
  FactRecord, FactRegistry, FactCondition, counters, interpretive_claim, curated, select,
}
use qx_fx0rust.Perspective.{
  PerspectiveState, affirmed, thesis, validate_perspective, established_from_curated_fact,
  check_opinions, check_episodes, append_episode, establish_opinion,
}
use qx_fx0rust.Perspective.Validate.{IsSound, validate_perspective-IsSound}
use qx_fx0rust.Perspective.Integrate.{
  select_claims, apply_claim, apply_claims, integrate_curated_claims, PerspectiveUpdate,
}
use qx_fx0rust.Perspective.Sound.{integrate_curated_claims-IsKept}
use qx_fx0rust.Perspective.Argued.{first_opinion, second_opinion, appended}
use qx_fx0rust.Perspective.Render.{
  PerspectiveRenderStance, render_neutral, resolve_render_stance, render_qualified, check_grounding,
  stance_of,
}
use qx_fx0rust.Perspective.Shown.{resolve_render_stance-ok, Shows, IsAbout}
use qx_fx0rust.Perspective.Pack.{check_authority, check_facts}
use qx_fx0rust.Perspective.History.{
  validate_perspective_against_pack, check_history, history_after, check_latest,
}
use qx_fx0rust.Perspective.Load.{
  LoadedRegistry, load, load_records, validate_shape, load_bindings, check_conditions,
  check_dependencies,
}
use qx_fx0rust.Perspective.Loaded.{load-integrate-IsKept}
use qx_fx0rust.Perspective.Renderable.{validated-renderable}
use qx_fx0rust.Perspective.Latest.{validated-latest, count_on, latest}

abbrev fact : Text → List FactCondition → ℕ → FactRecord
fact id conditions confidence = record {
  id = id;
  subject = codes "freedom";
  relation = codes "RelRequires";
  object = codes "choice";
  kind = interpretive_claim;
  conditions = conditions;
  confidence_basis_points = confidence;
  source_pack = codes "core";
  source_ref = codes "1";
  valid_from = none;
  valid_to = none;
  status = curated;
}

abbrev choice : FactRecord
choice = fact (codes "f1") [] 8000

abbrev limits : FactRecord
limits = fact (codes "f2") (counters (codes "f1") ∷ []) 6000

abbrev facts : FactRegistry
facts = (codes "f1", choice) ∷ (codes "f2", limits) ∷ []

abbrev blank : PerspectiveState
blank = record { opinions = []; episodes = []; next_episode_id = 0 }

blank_validates : validate_perspective blank ≡ []
unfolding validate_perspective check_opinions check_episodes
blank_validates = refl

validate_perspective-IsSound_example : (validate_perspective blank ≡ []) ↔ IsSound blank
validate_perspective-IsSound_example = validate_perspective-IsSound blank

abbrev contested_view : PerspectiveState
contested_view = record blank { opinions = (codes "freedom", second_opinion choice limits) ∷ [] }

abbrev held_view : PerspectiveState
held_view =
    appended (record blank { opinions = (codes "freedom", first_opinion choice) ∷ [] }) 1
      (codes "freedom") none affirmed (codes "f1" ∷ []) established_from_curated_fact

abbrev update : PerspectiveUpdate
update = record { topic = some (codes "freedom"); opinion_changed = true; episodes_added = 1 }

integrates :
    integrate_curated_claims blank 1 ((thesis, codes "f1") ∷ []) facts ≡ ok (held_view, update)
unfolding integrate_curated_claims select_claims select get text_eq apply_claims apply_claim
    establish_opinion append_episode insert contains_key
integrates = refl

integrate_curated_claims-IsKept_example :
    (validate_perspective held_view ≡ []) × IsSorted text_ord held_view.opinions
integrate_curated_claims-IsKept_example =
    integrate_curated_claims-IsKept blank held_view 1 ((thesis, codes "f1") ∷ []) facts update
      (omega arith, (omega arith, tt)) tt blank_validates integrates

resolve_render_stance-ok_example :
    (resolve_render_stance contested_view (codes "freedom") (codes "f1") facts
      ≡ ok render_qualified)
    ↔ (IsAbout facts (codes "freedom") (codes "f1")
        × Shows facts
            (codes "freedom")
            (codes "f1")
            (get (codes "freedom") contested_view.opinions)
            render_qualified)
resolve_render_stance-ok_example =
    resolve_render_stance-ok contested_view (codes "freedom") (codes "f1") facts render_qualified

contested_view_shows :
    resolve_render_stance contested_view (codes "freedom") (codes "f1") facts ≡ ok render_qualified
unfolding resolve_render_stance check_grounding stance_of select get text_eq contains_key insert
    qx_fx0rust.Base.Order.text_lt
contested_view_shows = refl

held_view_validated : validate_perspective_against_pack held_view facts ≡ []
unfolding validate_perspective_against_pack validate_perspective check_opinions check_episodes
    check_authority check_facts check_history history_after check_latest select get text_eq
    contains_key insert qx_fx0rust.Base.Order.text_lt
held_view_validated = refl

held_view_found : get (codes "freedom") held_view.opinions ≡ some (first_opinion choice)
unfolding get text_eq
held_view_found = refl

validated-renderable_example :
    (r : PerspectiveRenderStance) × (resolve_render_stance held_view
        (codes "freedom")
        (codes "f1")
        facts
      ≡ ok r)
    × (r ≢ render_neutral)
validated-renderable_example =
    validated-renderable held_view facts (codes "freedom") (first_opinion choice)
      held_view_validated held_view_found

validated-latest_example :
    (1 ≤ count_on (codes "freedom") held_view.episodes)
    × (count_on (codes "freedom") held_view.episodes ≤ 1)
    × (latest (codes "freedom") none held_view.episodes ≡ some affirmed)
validated-latest_example =
    validated-latest held_view facts (codes "freedom") (first_opinion choice) held_view_validated
      held_view_found

-- The grounding is not selected from an empty registry.
held_view_unknown : check_authority [] held_view.opinions ≢ []
unfolding check_authority check_facts select get
held_view_unknown h = absurd (cc)

abbrev pack : LoadedRegistry
pack = record { records = facts; predicate_facts = (codes "requires", codes "f1") ∷ [] }

abbrev known_concepts : List Text
known_concepts = codes "freedom" ∷ codes "choice" ∷ []

abbrev typed_relations : List Text
typed_relations = codes "RelRequires" ∷ []

loads :
    load (limits ∷ choice ∷ []) ((codes "requires", codes "f1") ∷ []) known_concepts typed_relations
    ≡ ok pack
unfolding load load_records validate_shape load_bindings check_conditions check_dependencies text_eq
    insert contains_key trim trim_start text_lt
loads = refl

load-integrate-IsKept_example :
    (validate_perspective held_view ≡ []) × IsSorted text_ord held_view.opinions
load-integrate-IsKept_example =
    load-integrate-IsKept (limits ∷ choice ∷ []) ((codes "requires", codes "f1") ∷ [])
      known_concepts typed_relations pack blank held_view 1 ((thesis, codes "f1") ∷ []) update loads
      tt blank_validates integrates
