-- ===== src/Debate.antt =====
-- Observation of a debate: the receipts of qxfx0-types/src/debate.rs, and their structure checks.
pub mod Structure
pub mod Digest
pub mod Tamper
pub mod Observe
pub mod Projection
pub mod Rubric
pub mod Observed
use qx_fx0rust.Base.{
  ℕ, suc, ◌+◌, Bool, true, false, not, ◌&&◌, ◌||◌, Option, none, some, List, [], ◌∷◌, ltb, ◌==◌,
  length, any, is_empty, Result, ok, err, ◌>>=◌, ◌>>◌, fail_if,
}
use qx_fx0rust.Base.Text.{Text, codes, text_eq, is_blank, has_control, byte_len}
use qx_fx0rust.Base.Distinct.{contains}

-- `DebateMove`
pub data DebateMove : Type 0 where
  move_define move_assert move_challenge move_distinguish move_ground move_counter : DebateMove
  move_infer_consequence move_clarify move_reflect move_connect : DebateMove
  move_contact move_other : DebateMove

-- `DebateParticipant`
pub data DebateParticipant : Type 0 where
  user system : DebateParticipant

-- `ArgumentNodeKind` and `ArgumentNode`
pub data ArgumentNodeKind : Type 0 where
  node_thesis node_support node_counterpoint node_consequence node_dialogue_act : ArgumentNodeKind

pub record ArgumentNode : Type 0 where
  pub id : Text
  pub kind : ArgumentNodeKind
  pub participant : DebateParticipant
  pub fact_id : Option Text

-- `ArgumentEdgeKind` and `ArgumentEdge`
pub data ArgumentEdgeKind : Type 0 where
  supports counters entails : ArgumentEdgeKind

pub record ArgumentEdge : Type 0 where
  pub from : Text
  pub to : Text
  pub kind : ArgumentEdgeKind

-- `PositionPolarity` and `LedgerEntry`
pub data PositionPolarity : Type 0 where
  proposed supported opposed_position qualified_position : PositionPolarity

pub record LedgerEntry : Type 0 where
  pub sequence : ℕ
  pub participant : DebateParticipant
  pub node_id : Text
  pub polarity : PositionPolarity

-- `DebateEvidenceRef`
pub data DebateEvidenceRef : Type 0 where
  fact argument_node route_family plan_outcome : Text → DebateEvidenceRef

-- `RubricDimension` and `RubricAssessment`; a `RubricScore` is its basis points.
pub data RubricDimension : Type 0 where
  claim_clarity evidence_grounding : RubricDimension
  counterargument_coverage consequence_coverage : RubricDimension

pub record RubricAssessment : Type 0 where
  pub dimension : RubricDimension
  pub score : ℕ
  pub evidence : List DebateEvidenceRef

-- `DebateObservationReceipt`
pub record DebateObservationReceipt : Type 0 where
  pub version : ℕ
  pub topic_id : Text
  pub move_type : DebateMove
  pub nodes : List ArgumentNode
  pub edges : List ArgumentEdge
  pub ledger : List LedgerEntry
  pub rubric : List RubricAssessment
  pub digest : List ℕ

-- `DebateValidationError`; the source's static names are their code points.
pub data DebateValidationError : Type 0 where
  unsupported_version rubric_score_out_of_range : ℕ → DebateValidationError
  invalid_id bound_exceeded duplicate_node self_edge : Text → DebateValidationError
  unknown_node_reference invalid_ledger rubric_without_evidence : DebateValidationError
  duplicate_rubric_dimension digest_mismatch : DebateValidationError

abbrev pub Valid : Type 0 → Type 0
Valid A = Result DebateValidationError A

abbrev pub debate_observation_version : ℕ
debate_observation_version = 1

abbrev pub max_id_bytes : ℕ
max_id_bytes = 256

abbrev pub max_nodes : ℕ
max_nodes = 16

abbrev pub max_edges : ℕ
max_edges = 32

abbrev pub max_ledger_entries : ℕ
max_ledger_entries = 16

abbrev pub max_rubric_entries : ℕ
max_rubric_entries = 4

abbrev pub max_evidence_per_assessment : ℕ
max_evidence_per_assessment = 32

abbrev pub max_score : ℕ
max_score = 10000

-- `RubricScore::from_basis_points`
unfoldable pub score_of : ℕ → Valid ℕ
score_of value = do fail_if (ltb max_score value) (rubric_score_out_of_range value); ok value

-- `validate_id`
unfoldable pub is_invalid_id : Text → Bool
is_invalid_id value = is_blank value || (ltb max_id_bytes (byte_len value) || has_control value)

abbrev pub validate_id : Text → Text → Valid (Unit {0})
validate_id field value = fail_if (is_invalid_id value) (invalid_id field)

-- The loops of `validate_structure`: over the nodes, with the ids seen; over the edges; over the
-- ledger, with the index; over the rubric, with the dimensions seen, and over its evidence.
unfoldable pub check_nodes : List Text → List ArgumentNode → Valid (List Text)
check_nodes node_ids [] = ok node_ids
check_nodes node_ids (n ∷ nodes) = do
  validate_id (codes "node.id") n.id
  fail_if (contains text_eq node_ids n.id) (duplicate_node n.id)
  check_nodes (n.id ∷ node_ids) nodes

unfoldable pub check_edges : List Text → List ArgumentEdge → Valid (Unit {0})
check_edges node_ids [] = ok tt
check_edges node_ids (e ∷ edges) = do
  fail_if (not (contains text_eq node_ids e.from) || not (contains text_eq node_ids e.to))
      unknown_node_reference
  fail_if (text_eq e.from e.to) (self_edge e.from)
  check_edges node_ids edges

unfoldable pub check_ledger : List Text → ℕ → List LedgerEntry → Valid (Unit {0})
check_ledger node_ids index [] = ok tt
check_ledger node_ids index (e ∷ ledger) = do
  fail_if (not (e.sequence == index) || not (contains text_eq node_ids e.node_id)) invalid_ledger
  check_ledger node_ids (index + 1) ledger

abbrev pub is_unknown : List Text → DebateEvidenceRef → Bool
is_unknown node_ids (argument_node id) = not (contains text_eq node_ids id)
is_unknown node_ids (fact id) = false
is_unknown node_ids (route_family id) = false
is_unknown node_ids (plan_outcome id) = false

unfoldable pub check_evidence : List Text → List DebateEvidenceRef → Valid (Unit {0})
check_evidence node_ids [] = ok tt
check_evidence node_ids (e ∷ evidence) = do
  fail_if (is_unknown node_ids e) unknown_node_reference
  check_evidence node_ids evidence

-- `as u8` on a dimension
abbrev pub dimension_byte : RubricDimension → ℕ
dimension_byte claim_clarity = 0
dimension_byte evidence_grounding = 1
dimension_byte counterargument_coverage = 2
dimension_byte consequence_coverage = 3

unfoldable pub check_rubric : List Text → List ℕ → List RubricAssessment → Valid (Unit {0})
check_rubric node_ids dimensions [] = ok tt
check_rubric node_ids dimensions (a ∷ rubric) = do
  fail_if (ltb max_evidence_per_assessment (length a.evidence))
      (bound_exceeded (codes "rubric.evidence"))
  fail_if (ltb max_score a.score) (rubric_score_out_of_range a.score)
  fail_if (is_empty a.evidence) rubric_without_evidence
  fail_if (contains ◌==◌ dimensions (dimension_byte a.dimension)) duplicate_rubric_dimension
  check_evidence node_ids a.evidence
  check_rubric node_ids (dimension_byte a.dimension ∷ dimensions) rubric

-- The loops of `validate_structure`, one after the other.
abbrev pub check_parts : DebateObservationReceipt → Valid (Unit {0})
check_parts r = do
  node_ids ← check_nodes [] r.nodes
  check_edges node_ids r.edges
  check_ledger node_ids 0 r.ledger
  check_rubric node_ids [] r.rubric

-- `DebateObservationReceipt::validate_structure`
unfoldable pub validate_structure : DebateObservationReceipt → Valid (Unit {0})
validate_structure r = do
  fail_if (not (r.version == debate_observation_version)) (unsupported_version r.version)
  validate_id (codes "topic_id") r.topic_id
  fail_if (ltb max_nodes (length r.nodes)) (bound_exceeded (codes "nodes"))
  fail_if (ltb max_edges (length r.edges)) (bound_exceeded (codes "edges"))
  fail_if (ltb max_ledger_entries (length r.ledger)) (bound_exceeded (codes "ledger"))
  fail_if (ltb max_rubric_entries (length r.rubric)) (bound_exceeded (codes "rubric"))
  check_parts r
