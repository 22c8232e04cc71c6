-- ===== src/Perspective/Render.antt =====
-- The stance that a renderer may show: `resolve_render_stance` of
-- qxfx0-self/src/fact_perspective.rs.
use qx_fx0rust.Base.{
  Bool, true, false, not, ◌||◌, Option, none, some, [], ◌∷◌, any, Result, ok, err, ◌>>=◌, ◌>>◌,
  fail_if,
}
use qx_fx0rust.Base.Text.{Text, text_eq}
use qx_fx0rust.Base.Order.{text_ord}
use qx_fx0rust.Base.OrdMap.{get, contains_key}
use qx_fx0rust.Perspective.Facts.{FactRecord, FactRegistry, FactRegistryError, select}
use qx_fx0rust.Perspective.{
  BeliefPolarity, affirmed, qualified, opposed, FactSet, OpinionCore, PerspectiveState,
  counters_fact,
}

-- `PerspectiveRenderStance`
pub data PerspectiveRenderStance : Type 0 where
  render_neutral render_affirmed render_qualified : PerspectiveRenderStance

-- The errors; the source formats them as messages.
pub data RenderError : Type 0 where
  registry_error : FactRegistryError → RenderError
  thesis_not_about_topic key_differs primary_differs omits_thesis : RenderError
  grounding_not_about_topic : Text → RenderError
  affirmed_despite_counterpoint qualified_without_counterpoint unsupported_opposed : RenderError

abbrev pub Resolved : Type 0 → Type 0
Resolved A = Result RenderError A

abbrev pub or_registry_error : Result FactRegistryError FactRecord → Resolved FactRecord
or_registry_error (ok fact) = ok fact
or_registry_error (err e) = err (registry_error e)

-- The loop over the grounding, with `has_curated_counterpoint`.
unfoldable pub check_grounding : FactRegistry → Text → Text → FactSet → Bool → Resolved Bool
check_grounding facts topic thesis [] has_counterpoint = ok has_counterpoint
check_grounding facts topic thesis ((id, u) ∷ grounding) has_counterpoint = do
  fact ← or_registry_error (select facts id)
  fail_if (not (text_eq fact.subject topic)) (grounding_not_about_topic id)
  check_grounding facts topic thesis grounding
      (has_counterpoint || any (counters_fact thesis) fact.conditions)

-- The `match` on the polarity.
unfoldable pub stance_of : BeliefPolarity → Bool → Resolved PerspectiveRenderStance
stance_of affirmed false = ok render_affirmed
stance_of affirmed true = err affirmed_despite_counterpoint
stance_of qualified true = ok render_qualified
stance_of qualified false = err qualified_without_counterpoint
stance_of opposed has_counterpoint = err unsupported_opposed

-- What follows the look-up of the opinion.
abbrev pub resolve_by :
    FactRegistry → Text → Text → Option OpinionCore → Resolved PerspectiveRenderStance
resolve_by facts topic thesis none = ok render_neutral
resolve_by facts topic thesis (some opinion) = do
  fail_if (not (text_eq opinion.topic topic)) key_differs
  fail_if (not (text_eq opinion.primary_fact thesis)) primary_differs
  fail_if (not (contains_key thesis opinion.grounding_facts)) omits_thesis
  has_counterpoint ← check_grounding facts topic thesis opinion.grounding_facts false
  stance_of opinion.polarity has_counterpoint

-- `resolve_render_stance`
unfoldable pub resolve_render_stance :
    PerspectiveState → Text → Text → FactRegistry → Resolved PerspectiveRenderStance
resolve_render_stance s topic thesis facts = do
  fact ← or_registry_error (select facts thesis)
  fail_if (not (text_eq fact.subject topic)) thesis_not_about_topic
  resolve_by facts topic thesis (get topic s.opinions)
