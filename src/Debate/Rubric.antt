-- ===== src/Debate/Rubric.antt =====
-- The rubric that the observation of qxfx0-pipeline/src/debate.rs makes is within its bounds.
use qx_fx0rust.Base.{
  ℕ, ◌≤◌, ◌≡◌, refl, inl, inr, Bool, true, false, not, ◌&&◌, some, List, [], ◌∷◌, length, All,
  is_empty, is_some, filter_map, ok, arith, Option-cases, ◌==◌, all, subst,
}
use qx_fx0rust.Base.Text.{Text}
use qx_fx0rust.Base.Distinct.{Distinct}
use qx_fx0rust.Moves.{CanonicalMoveFamily}
use qx_fx0rust.Plan.{PlannedClaim}
use qx_fx0rust.Debate.{
  ArgumentEdgeKind, supports, counters, entails, ArgumentEdge, DebateEvidenceRef, route_family,
  plan_outcome, claim_clarity, evidence_grounding, counterargument_coverage, consequence_coverage,
  RubricDimension, RubricAssessment, Valid, score_of,
}
use qx_fx0rust.Debate.Structure.{dimensions, Known, IsEdge, IsEvidence, IsAssessment}
use qx_fx0rust.Debate.Observe.{
  fact_of_claim, clarity_evidence, counters_of, consequences_of, if_counters, if_entails,
  or_else_one, full_if, assessment, rubric_of, route_family_label,
}
use qx_fx0rust.Debate.Projection.{some-injective, length-filter_map, filter_map-All}

if_counters-IsEvidence :
    (ids : List Text) (kind : ArgumentEdgeKind) (id : Text) (v : DebateEvidenceRef)
    → Known ids id
    → if_counters kind id ≡ some v
    → IsEvidence ids v
if_counters-IsEvidence ids counters id v h s = subst (IsEvidence ids) (some-injective s) h
if_counters-IsEvidence ids supports id v h s = absurd (cc)
if_counters-IsEvidence ids entails id v h s = absurd (cc)

if_entails-IsEvidence :
    (ids : List Text) (kind : ArgumentEdgeKind) (id : Text) (v : DebateEvidenceRef)
    → Known ids id
    → if_entails kind id ≡ some v
    → IsEvidence ids v
if_entails-IsEvidence ids entails id v h s = subst (IsEvidence ids) (some-injective s) h
if_entails-IsEvidence ids supports id v h s = absurd (cc)
if_entails-IsEvidence ids counters id v h s = absurd (cc)

facts-IsEvidence :
    (ids : List Text) (claims : List PlannedClaim)
    → All (IsEvidence ids) (filter_map fact_of_claim claims)
facts-IsEvidence ids [] = tt
facts-IsEvidence ids (c ∷ claims) = elim (Option-cases c.fact_id) [
  | inl e ↦ rw e (facts-IsEvidence ids claims)
  | inr (id, e) ↦ rw e (tt, facts-IsEvidence ids claims)
]

-- Some evidence, and not too much of it.
abbrev IsSupport : List Text → ℕ → List DebateEvidenceRef → Type 0
IsSupport ids n evidence =
    (length evidence ≤ n) × (is_empty evidence ≡ false) × All (IsEvidence ids) evidence

or_else_one-IsSupport :
    (ids : List Text) (evidence : List DebateEvidenceRef) (e : DebateEvidenceRef)
    → length evidence ≤ 32
    → All (IsEvidence ids) evidence
    → IsEvidence ids e
    → IsSupport ids 32 (or_else_one evidence e)
or_else_one-IsSupport ids [] e h a k = (omega arith, refl, (k, tt))
or_else_one-IsSupport ids (x ∷ xs) e h a k = (h, refl, a)

clarity-IsSupport :
    (ids : List Text) (claims : List PlannedClaim) (kind : Text)
    → All (λ c. Known ids c.id) claims
    → IsSupport ids 32 (clarity_evidence claims (plan_outcome kind))
clarity-IsSupport ids [] kind a = (omega arith, refl, (tt, tt))
clarity-IsSupport ids (c ∷ claims) kind a = (omega arith, refl, (a.0, (tt, tt)))

full_if-le : (b : Bool) → full_if b ≤ 10000
full_if-le true = omega arith
full_if-le false = omega arith

assessment-full :
    (d : RubricDimension) (b : Bool) (evidence : List DebateEvidenceRef)
    → assessment d (full_if b) evidence
      ≡ ok (record { dimension = d; score = full_if b; evidence = evidence })
unfolding score_of
assessment-full d true evidence = refl
assessment-full d false evidence = refl

-- The rubric of few claims and edges that are well formed.
abbrev pub MadeRubric : List Text → Valid (List RubricAssessment) → Type 0
MadeRubric ids r =
    (rubric : List RubricAssessment) × (r ≡ ok rubric)
    × (length rubric ≤ 4)
    × All (IsAssessment ids) rubric
    × Distinct ◌==◌ (dimensions rubric)

grounding-IsSupport :
    (ids : List Text) (claims : List PlannedClaim) (kind : Text)
    → length claims ≤ 3
    → IsSupport ids 32 (or_else_one (filter_map fact_of_claim claims) (plan_outcome kind))
grounding-IsSupport ids claims kind few =
    or_else_one-IsSupport ids (filter_map fact_of_claim claims) (plan_outcome kind)
      (omega (arith, length-filter_map fact_of_claim claims)) (facts-IsEvidence ids claims) tt

counters-IsSupport :
    (ids : List Text) (edges : List ArgumentEdge) (family : CanonicalMoveFamily)
    → length edges ≤ 3
    → All (IsEdge ids) edges
    → IsSupport ids 32
        (or_else_one (filter_map counters_of edges) (route_family (route_family_label family)))
counters-IsSupport ids edges family few proper =
    or_else_one-IsSupport ids (filter_map counters_of edges)
      (route_family (route_family_label family))
      (omega (arith, length-filter_map counters_of edges))
      (filter_map-All (IsEdge ids) (IsEvidence ids) counters_of
        (λ e v p s. if_counters-IsEvidence ids e.kind e.from v p.0 s) edges proper)
      tt

consequences-IsSupport :
    (ids : List Text) (edges : List ArgumentEdge) (kind : Text)
    → length edges ≤ 3
    → All (IsEdge ids) edges
    → IsSupport ids 32 (or_else_one (filter_map consequences_of edges) (plan_outcome kind))
consequences-IsSupport ids edges kind few proper =
    or_else_one-IsSupport ids (filter_map consequences_of edges) (plan_outcome kind)
      (omega (arith, length-filter_map consequences_of edges))
      (filter_map-All (IsEdge ids) (IsEvidence ids) consequences_of
        (λ e v p s. if_entails-IsEvidence ids e.kind e.to v p.1 s) edges proper)
      tt

-- An assessment with the full score or with none.
abbrev scored : RubricDimension → Bool → List DebateEvidenceRef → RubricAssessment
scored dimension holds evidence = record {
  dimension = dimension;
  score = full_if holds;
  evidence = evidence;
}

pub rubric_of-ok :
    (ids : List Text) (family : CanonicalMoveFamily) (kind : Text) (claims : List PlannedClaim)
    (edges : List ArgumentEdge)
    → length claims ≤ 3
    → length edges ≤ 3
    → All (λ c. Known ids c.id) claims
    → All (IsEdge ids) edges
    → MadeRubric ids (rubric_of family kind claims edges)
unfolding rubric_of
rubric_of-ok ids family kind claims edges hc he known proper =
    let counter_evidence = filter_map counters_of edges in
    let consequence_evidence = filter_map consequences_of edges in
    let clear = not (is_empty claims) in
    let grounded = all (λ c. is_some c.fact_id) claims && clear in
    let countered = not (is_empty counter_evidence) in
    let followed = not (is_empty consequence_evidence) in
    let clarity = clarity_evidence claims (plan_outcome kind) in
    let grounding = or_else_one (filter_map fact_of_claim claims) (plan_outcome kind) in
    let counterarguments =
      or_else_one counter_evidence (route_family (route_family_label family)) in
    let consequences = or_else_one consequence_evidence (plan_outcome kind) in
    let s1 = clarity-IsSupport ids claims kind known in
    let s2 = grounding-IsSupport ids claims kind hc in
    let s3 = counters-IsSupport ids edges family he proper in
    let s4 = consequences-IsSupport ids edges kind he proper in
    (
      scored claim_clarity clear clarity
          ∷ scored evidence_grounding grounded grounding
          ∷ scored counterargument_coverage countered counterarguments
          ∷ scored consequence_coverage followed consequences
          ∷ [],
      rw
          (
            assessment-full claim_clarity clear clarity,
            assessment-full evidence_grounding grounded grounding,
            assessment-full counterargument_coverage countered counterarguments,
            assessment-full consequence_coverage followed consequences,
          )
          refl,
      omega arith,
      (
        (s1.0, full_if-le clear, s1.1, s1.2),
        (
          (s2.0, full_if-le grounded, s2.1, s2.2),
          ((s3.0, full_if-le countered, s3.1, s3.2), ((s4.0, full_if-le followed, s4.1, s4.2), tt)),
        ),
      ),
      (refl, (refl, (refl, (refl, tt)))),
    )
