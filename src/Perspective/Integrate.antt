-- ===== src/Perspective/Integrate.antt =====
-- `integrate_curated_claims` of qxfx0-self/src/fact_perspective.rs.
use qx_fx0rust.Base.{
  ℕ, suc, Bool, true, false, not, ◌&&◌, Option, none, some, List, [], ◌∷◌, leb, ltb, length, Result,
  ok, err, ◌>>=◌, ◌>>◌, fail_if, if◌then◌else◌,
}
use qx_fx0rust.Base.Text.{Text, text_eq}
use qx_fx0rust.Base.Order.{text_ord}
use qx_fx0rust.Base.OrdMap.{contains_key}
use qx_fx0rust.Perspective.Facts.{FactRecord, FactRegistry, FactRegistryError, select}
use qx_fx0rust.Perspective.{
  PerspectiveState, ClaimRole, thesis, support, counterpoint, consequence, dialogue_act,
  dialogue_act_as_evidence, spans_multiple_subjects, registry, opinion_capacity_reached, Revised,
  max_perspective_opinions, establish_opinion, qualify_opinion, reinforce_opinion,
}

abbrev pub is_dialogue_act : ClaimRole → Bool
is_dialogue_act dialogue_act = true
is_dialogue_act other = false

abbrev pub as_registry_error : Result FactRegistryError FactRecord → Revised FactRecord
as_registry_error (ok fact) = ok fact
as_registry_error (err e) = err (registry e)

-- Whether a fact is of another subject than the facts before it.
abbrev pub is_other_subject : Option Text → FactRecord → Bool
is_other_subject none fact = false
is_other_subject (some expected) fact = not (text_eq expected fact.subject)

-- The loop that selects the facts of the claims, all of one subject. The result has that subject
-- first; with no claims it is the one passed in.
unfoldable pub select_claims :
    FactRegistry
    → Option Text
    → List (ClaimRole × Text)
    → Revised (Option Text × List (ClaimRole × FactRecord))
select_claims facts topic [] = ok (topic, [])
select_claims facts topic ((role, fact_id) ∷ claims) = do
  fail_if (is_dialogue_act role) dialogue_act_as_evidence
  fact ← as_registry_error (select facts fact_id)
  fail_if (is_other_subject topic fact) spans_multiple_subjects
  rest ← select_claims facts (some fact.subject) claims
  ok (rest.0, (role, fact) ∷ rest.1)

-- The `match` on the role. Dialogue acts are rejected before, so that the last clause is not met.
unfoldable pub apply_claim :
    ℕ → ClaimRole → FactRecord → PerspectiveState → Revised (PerspectiveState × Bool)
apply_claim turn thesis fact s = establish_opinion s turn fact
apply_claim turn counterpoint fact s = qualify_opinion s turn fact
apply_claim turn consequence fact s = reinforce_opinion s turn fact
apply_claim turn support fact s = reinforce_opinion s turn fact
apply_claim turn dialogue_act fact s = err dialogue_act_as_evidence

-- The loop that applies the selected facts, with the number of episodes that it adds.
unfoldable pub apply_claims :
    ℕ → List (ClaimRole × FactRecord) → PerspectiveState → ℕ → Revised (PerspectiveState × ℕ)
apply_claims turn [] s added = ok (s, added)
apply_claims turn ((role, fact) ∷ selected) s added = do
  r ← apply_claim turn role fact s
  apply_claims turn selected r.0 (if r.1 then suc added else added)

-- `PerspectiveUpdate`
pub record PerspectiveUpdate : Type 0 where
  pub topic : Option Text
  pub opinion_changed : Bool
  pub episodes_added : ℕ

-- Whether the subject is new to a full state.
abbrev pub is_full_for : PerspectiveState → Option Text → Bool
is_full_for s none = false
is_full_for s (some topic) =
    not (contains_key topic s.opinions) && leb max_perspective_opinions (length s.opinions)

-- `integrate_curated_claims`
unfoldable pub integrate_curated_claims :
    PerspectiveState
    → ℕ
    → List (ClaimRole × Text)
    → FactRegistry
    → Revised (PerspectiveState × PerspectiveUpdate)
integrate_curated_claims s turn [] facts =
    ok (s, record { topic = none; opinion_changed = false; episodes_added = 0 })
integrate_curated_claims s turn (claim ∷ claims) facts = do
  selected ← select_claims facts none (claim ∷ claims)
  fail_if (is_full_for s selected.0) opinion_capacity_reached
  next ← apply_claims turn selected.1 s 0
  ok (
    next.0,
    record { topic = selected.0; opinion_changed = ltb 0 next.1; episodes_added = next.1 },
  )
