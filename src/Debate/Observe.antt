-- ===== src/Debate/Observe.antt =====
-- The observation of a planned turn: qxfx0-pipeline/src/debate.rs.
use qx_fx0rust.Base.{
  ℕ, ◌+◌, ◌%◌, ◌^◌, Bool, true, false, not, ◌&&◌, ◌||◌, Option, none, some, List, [], ◌∷◌,
  if◌then◌else◌, all, is_empty, is_some, filter_map, ok, ◌>>=◌, map,
}
use qx_fx0rust.Base.Text.{Text, codes, text_eq}
use qx_fx0rust.Moves.{
  PropositionMode, challenge, CanonicalMoveFamily, cm_define, cm_distinguish, cm_ground, cm_reflect,
  cm_describe, cm_purpose, cm_hypothesis, cm_repair, cm_contact, cm_connect, cm_confront, cm_deepen,
  cm_next_step, cm_clarify, cm_anchor,
}
use qx_fx0rust.Perspective.{ClaimRole, thesis, support, counterpoint, consequence, dialogue_act}
use qx_fx0rust.Plan.{
  PlanSubject, topic, dialogue, external, FallbackSubject, known_topic, unresolved_topic,
  fallback_dialogue, PlannedClaim, iter, PlanOutcome, ready, fallback,
}
use qx_fx0rust.Debate.{
  DebateMove, move_define, move_assert, move_challenge, move_distinguish, move_ground, move_counter,
  move_infer_consequence, move_clarify, move_reflect, move_connect, move_contact, system,
  ArgumentNodeKind, node_thesis, node_support, node_counterpoint, node_consequence,
  node_dialogue_act, ArgumentNode, ArgumentEdgeKind, supports, counters, entails, ArgumentEdge,
  PositionPolarity, proposed, supported, qualified_position, LedgerEntry, DebateEvidenceRef, fact,
  argument_node, route_family, plan_outcome, RubricDimension, claim_clarity, evidence_grounding,
  counterargument_coverage, consequence_coverage, RubricAssessment, DebateObservationReceipt, Valid,
  score_of,
}
use qx_fx0rust.Debate.Digest.{new_receipt}

-- `node_kind`
abbrev pub node_kind : ClaimRole → ArgumentNodeKind
node_kind thesis = node_thesis
node_kind support = node_support
node_kind counterpoint = node_counterpoint
node_kind consequence = node_consequence
node_kind dialogue_act = node_dialogue_act

-- `route_family_label`
abbrev pub route_family_label : CanonicalMoveFamily → Text
route_family_label cm_define = codes "cm_define"
route_family_label cm_distinguish = codes "cm_distinguish"
route_family_label cm_ground = codes "cm_ground"
route_family_label cm_reflect = codes "cm_reflect"
route_family_label cm_describe = codes "cm_describe"
route_family_label cm_purpose = codes "cm_purpose"
route_family_label cm_hypothesis = codes "cm_hypothesis"
route_family_label cm_repair = codes "cm_repair"
route_family_label cm_contact = codes "cm_contact"
route_family_label cm_connect = codes "cm_connect"
route_family_label cm_confront = codes "cm_confront"
route_family_label cm_deepen = codes "cm_deepen"
route_family_label cm_next_step = codes "cm_next_step"
route_family_label cm_clarify = codes "cm_clarify"
route_family_label cm_anchor = codes "cm_anchor"

abbrev pub is_challenge_mode : PropositionMode → Bool
is_challenge_mode challenge = true
is_challenge_mode other = false

abbrev pub move_of_family : CanonicalMoveFamily → DebateMove
move_of_family cm_define = move_define
move_of_family cm_distinguish = move_distinguish
move_of_family cm_ground = move_ground
move_of_family cm_anchor = move_ground
move_of_family cm_reflect = move_reflect
move_of_family cm_deepen = move_reflect
move_of_family cm_contact = move_contact
move_of_family cm_connect = move_connect
move_of_family cm_confront = move_counter
move_of_family cm_clarify = move_clarify
move_of_family cm_repair = move_clarify
move_of_family cm_next_step = move_infer_consequence
move_of_family cm_describe = move_assert
move_of_family cm_purpose = move_assert
move_of_family cm_hypothesis = move_assert

-- `debate_move`
abbrev pub debate_move : PropositionMode → CanonicalMoveFamily → Bool → DebateMove
debate_move mode family is_challenge =
    if is_challenge || is_challenge_mode mode then move_challenge else move_of_family family

abbrev pub ready_topic : PlanSubject → Text
ready_topic (topic id) = id
ready_topic (dialogue d) = codes "dialogue"
ready_topic (external e) = codes "external_subject"

abbrev pub fallback_topic : Option FallbackSubject → Text
fallback_topic none = codes "no_topic"
fallback_topic (some (known_topic id)) = codes "known_topic"
fallback_topic (some (unresolved_topic t)) = codes "unresolved_topic"
fallback_topic (some (fallback_dialogue d)) = codes "dialogue"

-- The topic of the outcome, `kind().as_str()`, and the claims, of which a fallback has none.
abbrev pub topic_of : PlanOutcome → Text
topic_of (ready p) = ready_topic p.subject
topic_of (fallback f) = fallback_topic f.subject

abbrev pub kind_label : PlanOutcome → Text
kind_label (ready p) = codes "ready"
kind_label (fallback f) = codes "fallback"

abbrev pub claims_of : PlanOutcome → List PlannedClaim
claims_of (ready p) = iter p.claims
claims_of (fallback f) = []

abbrev pub is_thesis : ClaimRole → Bool
is_thesis thesis = true
is_thesis other = false

abbrev pub thesis_of : List PlannedClaim → Option Text
thesis_of [] = none
thesis_of (c ∷ claims) = if is_thesis c.role then some c.id else thesis_of claims

-- What the loop over the claims makes of one of them.
abbrev pub polarity_for : ClaimRole → PositionPolarity
polarity_for thesis = proposed
polarity_for dialogue_act = proposed
polarity_for support = supported
polarity_for consequence = supported
polarity_for counterpoint = qualified_position

abbrev pub edge_kind_for : ClaimRole → Option ArgumentEdgeKind
edge_kind_for counterpoint = some counters
edge_kind_for consequence = some entails
edge_kind_for support = some supports
edge_kind_for thesis = none
edge_kind_for dialogue_act = none

abbrev pub edge_by : Text → Text → Option ArgumentEdgeKind → Option ArgumentEdge
edge_by thesis_id node_id none = none
edge_by thesis_id node_id (some entails) =
    some (record { from = thesis_id; to = node_id; kind = entails })
edge_by thesis_id node_id (some kind) =
    some (record { from = node_id; to = thesis_id; kind = kind })

abbrev pub edge_of : Option Text → PlannedClaim → Option ArgumentEdge
edge_of none c = none
edge_of (some thesis_id) c =
    if text_eq thesis_id c.id then none else edge_by thesis_id c.id (edge_kind_for c.role)

abbrev pub node_of : PlannedClaim → ArgumentNode
node_of c = record { id = c.id; kind = node_kind c.role; participant = system; fact_id = c.fact_id }

abbrev pub fact_of_claim : PlannedClaim → Option DebateEvidenceRef
fact_of_claim c = elim c.fact_id [ none ↦ none | some id ↦ some (fact id) ]

abbrev pub ledger_of : ℕ → List PlannedClaim → List LedgerEntry
ledger_of sequence [] = []
ledger_of sequence (c ∷ claims) =
    record {
      sequence = sequence % 2 ^ 16;
      participant = system;
      node_id = c.id;
      polarity = polarity_for c.role;
    }
    ∷ ledger_of (sequence + 1) claims

-- The evidence of the four dimensions.
abbrev pub clarity_evidence : List PlannedClaim → DebateEvidenceRef → List DebateEvidenceRef
clarity_evidence [] outcome = outcome ∷ []
clarity_evidence (c ∷ claims) outcome = argument_node c.id ∷ outcome ∷ []

abbrev pub if_counters : ArgumentEdgeKind → Text → Option DebateEvidenceRef
if_counters counters from_id = some (argument_node from_id)
if_counters supports from_id = none
if_counters entails from_id = none

abbrev pub counters_of : ArgumentEdge → Option DebateEvidenceRef
counters_of e = if_counters e.kind e.from

abbrev pub if_entails : ArgumentEdgeKind → Text → Option DebateEvidenceRef
if_entails entails to_id = some (argument_node to_id)
if_entails supports to_id = none
if_entails counters to_id = none

abbrev pub consequences_of : ArgumentEdge → Option DebateEvidenceRef
consequences_of e = if_entails e.kind e.to

abbrev pub or_else_one : List DebateEvidenceRef → DebateEvidenceRef → List DebateEvidenceRef
or_else_one [] e = e ∷ []
or_else_one (x ∷ xs) e = x ∷ xs

-- `if … { 10_000 } else { 0 }`
abbrev pub full_if : Bool → ℕ
full_if b = if b then 10000 else 0

-- `assessment`
abbrev pub assessment : RubricDimension → ℕ → List DebateEvidenceRef → Valid RubricAssessment
assessment dimension score evidence = do
  basis_points ← score_of score
  ok (record { dimension = dimension; score = basis_points; evidence = evidence })

-- The four assessments, by the claims and the edges between them.
unfoldable pub rubric_of :
    CanonicalMoveFamily
    → Text
    → List PlannedClaim
    → List ArgumentEdge
    → Valid (List RubricAssessment)
rubric_of family kind claims edges =
    let counter_evidence = filter_map counters_of edges in
    let consequence_evidence = filter_map consequences_of edges in
    do
      clarity ←
          assessment claim_clarity (full_if (not (is_empty claims)))
            (clarity_evidence claims (plan_outcome kind))
      grounding ←
          assessment evidence_grounding
            (full_if (all (λ c. is_some c.fact_id) claims && not (is_empty claims)))
            (or_else_one (filter_map fact_of_claim claims) (plan_outcome kind))
      counterarguments ←
          assessment counterargument_coverage (full_if (not (is_empty counter_evidence)))
            (or_else_one counter_evidence (route_family (route_family_label family)))
      consequences ←
          assessment consequence_coverage (full_if (not (is_empty consequence_evidence)))
            (or_else_one consequence_evidence (plan_outcome kind))
      ok (clarity ∷ grounding ∷ counterarguments ∷ consequences ∷ [])

-- `observe`
unfoldable pub observe :
    (List ℕ → List ℕ)
    → PropositionMode
    → CanonicalMoveFamily
    → Bool
    → PlanOutcome
    → Valid DebateObservationReceipt
observe sha256 mode family is_challenge outcome =
    let claims = claims_of outcome in
    let edges = filter_map (edge_of (thesis_of claims)) claims in
    do
      rubric ← rubric_of family (kind_label outcome) claims edges
      new_receipt sha256 (topic_of outcome) (debate_move mode family is_challenge)
          (map node_of claims) edges (ledger_of 0 claims) rubric
