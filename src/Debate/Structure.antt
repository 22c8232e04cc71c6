-- ===== src/Debate/Structure.antt =====
-- What the structure checks of qxfx0-types/src/debate.rs accept.
use qx_fx0rust.Base.{
  ℕ, ◌+◌, ◌≤◌, ◌≡◌, ◌↔◌, true, false, List, [], ◌∷◌, ◌==◌, length, All, is_empty, ok, arith,
  guard_iff, step_iff, both_iff, limit_iff, version_iff,
}
use qx_fx0rust.Base.Text.{Text, text_eq, text_eq_comm}
use qx_fx0rust.Base.Distinct.{
  contains, fresh, Distinct, fresh-Distinct, insert_all, contains-insert_all,
}
use qx_fx0rust.Debate.{
  ArgumentNode, ArgumentEdge, LedgerEntry, DebateEvidenceRef, fact, argument_node, route_family,
  plan_outcome, RubricAssessment, DebateObservationReceipt, debate_observation_version, max_nodes,
  max_edges, max_ledger_entries, max_rubric_entries, max_evidence_per_assessment, max_score,
  is_invalid_id, check_nodes, check_edges, check_ledger, is_unknown, check_evidence, dimension_byte,
  check_rubric, check_parts, validate_structure,
}

abbrev pub node_ids : List ArgumentNode → List Text
node_ids [] = []
node_ids (n ∷ nodes) = n.id ∷ node_ids nodes

abbrev pub dimensions : List RubricAssessment → List ℕ
dimensions [] = []
dimensions (a ∷ rubric) = dimension_byte a.dimension ∷ dimensions rubric

-- A name is among the ids.
abbrev pub Known : List Text → Text → Type 0
Known ids id = contains text_eq ids id ≡ true

-- An edge leads from one node of the debate to another.
abbrev pub IsEdge : List Text → ArgumentEdge → Type 0
IsEdge ids e = Known ids e.from × Known ids e.to × (text_eq e.from e.to ≡ false)

-- The ledger is numbered from `index` on and is about nodes of the debate.
abbrev pub IsNumbered : List Text → ℕ → List LedgerEntry → Type 0
IsNumbered ids index [] = Unit {0}
IsNumbered ids index (e ∷ ledger) =
    (e.sequence ≡ index) × Known ids e.node_id × IsNumbered ids (index + 1) ledger

abbrev pub IsEvidence : List Text → DebateEvidenceRef → Type 0
IsEvidence ids (argument_node id) = Known ids id
IsEvidence ids (fact id) = Unit {0}
IsEvidence ids (route_family id) = Unit {0}
IsEvidence ids (plan_outcome id) = Unit {0}

-- A score within bounds, with at least one piece of evidence and at most 32.
abbrev pub IsAssessment : List Text → RubricAssessment → Type 0
IsAssessment ids a =
    (length a.evidence ≤ max_evidence_per_assessment)
    × (a.score ≤ max_score)
    × (is_empty a.evidence ≡ false)
    × All (IsEvidence ids) a.evidence

-- Proper nodes, none twice, and edges, a ledger and a rubric about them.
pub record IsRecorded (r : DebateObservationReceipt) : Type 0 where
  pub nodes : All (λ n. is_invalid_id n.id ≡ false) r.nodes
  pub distinct : Distinct text_eq (node_ids r.nodes)
  pub edges : All (IsEdge (node_ids r.nodes)) r.edges
  pub ledger : IsNumbered (node_ids r.nodes) 0 r.ledger
  pub rubric : All (IsAssessment (node_ids r.nodes)) r.rubric
  pub dimensions_once : Distinct ◌==◌ (dimensions r.rubric)

-- The receipts that the structure checks are to accept.
pub record IsDebate (r : DebateObservationReceipt) : Type 0 where
  pub version : r.version ≡ debate_observation_version
  pub named : is_invalid_id r.topic_id ≡ false
  pub few_nodes : length r.nodes ≤ max_nodes
  pub few_edges : length r.edges ≤ max_edges
  pub short_ledger : length r.ledger ≤ max_ledger_entries
  pub short_rubric : length r.rubric ≤ max_rubric_entries
  pub recorded : IsRecorded r

==_comm : (a b : ℕ) → (a == b) ≡ (b == a)
==_comm a b = ground arith

check_nodes-ok :
    (seen : List Text) (nodes : List ArgumentNode) (ids : List Text)
    → (check_nodes seen nodes ≡ ok ids) ↔ (
        (All (λ n. is_invalid_id n.id ≡ false) nodes × (fresh text_eq seen (node_ids nodes) ≡ true))
        × (ids ≡ insert_all text_eq seen (node_ids nodes)))
unfolding check_nodes
check_nodes-ok seen [] ids = ground arith
check_nodes-ok seen (n ∷ nodes) ids = ground (arith, check_nodes-ok (n.id ∷ seen) nodes ids)

-- The checks ask the set that the first loop filled, and the statements the nodes themselves.
module _ (ids : List Text) where
  abbrev all_ids : List Text
  all_ids = insert_all text_eq [] ids

  check_edges-ok :
      (edges : List ArgumentEdge) → (check_edges all_ids edges ≡ ok tt) ↔ All (IsEdge ids) edges
  unfolding check_edges
  check_edges-ok [] = ground arith
  check_edges-ok (e ∷ edges) = ground (
    arith,
    check_edges-ok edges,
    contains-insert_all text_eq [] ids e.from,
    contains-insert_all text_eq [] ids e.to,
  )

  check_ledger-ok :
      (index : ℕ) (ledger : List LedgerEntry)
      → (check_ledger all_ids index ledger ≡ ok tt) ↔ IsNumbered ids index ledger
  unfolding check_ledger
  check_ledger-ok index [] = ground arith
  check_ledger-ok index (e ∷ ledger) =
      ground
        (arith, check_ledger-ok (index + 1) ledger, contains-insert_all text_eq [] ids e.node_id)

  known_iff : (e : DebateEvidenceRef) → (is_unknown all_ids e ≡ false) ↔ IsEvidence ids e
  known_iff (argument_node id) = ground (arith, contains-insert_all text_eq [] ids id)
  known_iff (fact id) = ground arith
  known_iff (route_family id) = ground arith
  known_iff (plan_outcome id) = ground arith

  check_evidence-ok :
      (evidence : List DebateEvidenceRef)
      → (check_evidence all_ids evidence ≡ ok tt) ↔ All (IsEvidence ids) evidence
  unfolding check_evidence
  check_evidence-ok [] = ground arith
  check_evidence-ok (e ∷ evidence) = ground (arith, check_evidence-ok evidence, known_iff e)

  check_rubric-ok :
      (seen : List ℕ) (rubric : List RubricAssessment)
      → (check_rubric all_ids seen rubric ≡ ok tt)
        ↔ (All (IsAssessment ids) rubric × (fresh ◌==◌ seen (dimensions rubric) ≡ true))
  unfolding check_rubric
  check_rubric-ok seen [] = ground arith
  check_rubric-ok seen (a ∷ rubric) = ground (
    arith,
    check_evidence-ok a.evidence,
    check_rubric-ok (dimension_byte a.dimension ∷ seen) rubric,
  )

check_parts-IsRecorded : (r : DebateObservationReceipt) → (check_parts r ≡ ok tt) ↔ IsRecorded r
check_parts-IsRecorded r =
    let ids = node_ids r.nodes in
    let distinct = fresh-Distinct text_eq text_eq_comm ids in
    let once = fresh-Distinct ◌==◌ ==_comm (dimensions r.rubric) in
    let rubric = check_rubric-ok ids [] r.rubric in
    let ledger =
      both_iff (IsNumbered ids 0 r.ledger) _ (check_ledger (all_ids ids) 0 r.ledger) _ tt
        (check_ledger-ok ids 0 r.ledger) rubric in
    let edges =
      both_iff (All (IsEdge ids) r.edges) _ (check_edges (all_ids ids) r.edges) _ tt
        (check_edges-ok ids r.edges) ledger in
    let whole =
      step_iff (All (λ n. is_invalid_id n.id ≡ false) r.nodes × (fresh text_eq [] ids ≡ true)) _
        (check_nodes [] r.nodes) _ (all_ids ids) tt (check_nodes-ok [] r.nodes) edges in
    (
      λ h.
          let w = whole.0 h in
          record {
            nodes = w.0.0;
            distinct = distinct.0 w.0.1;
            edges = w.1.0;
            ledger = w.1.1.0;
            rubric = w.1.1.1.0;
            dimensions_once = once.0 w.1.1.1.1;
          },
      λ d. whole.1 (
        (d.nodes, distinct.1 d.distinct),
        (d.edges, (d.ledger, (d.rubric, once.1 d.dimensions_once))),
      ),
    )

-- The structure of a receipt is accepted exactly if its version is known, its topic has a proper id,
-- it is within the bounds, its nodes have proper ids of which none comes twice, its edges lead from
-- one node to another, its ledger is numbered from 0 and about nodes, and its assessments score at
-- most 10000 on at least one and at most 32 pieces of evidence, about nodes where they cite one, each
-- dimension at most once.
pub validate_structure-IsDebate :
    (r : DebateObservationReceipt) → (validate_structure r ≡ ok tt) ↔ IsDebate r
unfolding validate_structure
validate_structure-IsDebate r =
    let parts = check_parts-IsRecorded r in
    let rubric = limit_iff (length r.rubric) max_rubric_entries _ _ _ tt parts in
    let ledger = limit_iff (length r.ledger) max_ledger_entries _ _ _ tt rubric in
    let edges = limit_iff (length r.edges) max_edges _ _ _ tt ledger in
    let nodes = limit_iff (length r.nodes) max_nodes _ _ _ tt edges in
    let named =
      guard_iff (is_invalid_id r.topic_id ≡ false) _ (is_invalid_id r.topic_id) _ _ tt
        (λ h. h, λ h. h) nodes in
    let whole = version_iff r.version debate_observation_version _ _ _ tt named in
    (
      λ h.
          let w = whole.0 h in
          let bounds = w.1.1 in
          record {
            version = w.0;
            named = w.1.0;
            few_nodes = bounds.0;
            few_edges = bounds.1.0;
            short_ledger = bounds.1.1.0;
            short_rubric = bounds.1.1.1.0;
            recorded = bounds.1.1.1.1;
          },
      λ d. whole.1 (
        d.version,
        (d.named, (d.few_nodes, (d.few_edges, (d.short_ledger, (d.short_rubric, d.recorded))))),
      ),
    )
