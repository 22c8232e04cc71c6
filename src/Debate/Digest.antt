-- ===== src/Debate/Digest.antt =====
-- The digest of a debate receipt: `calculate_digest`, `new` and `validate` of
-- qxfx0-types/src/debate.rs. The hash is a parameter.
use qx_fx0rust.Base.{ℕ, zero, suc, not, List, [], ◌∷◌, ◌++◌, ok, ◌>>◌, fail_if}
use qx_fx0rust.Base.Text.{Text, codes, text_eq}
use qx_fx0rust.Base.Encoding.{Writer, put_u16, put_text, put_list, put_option}
use qx_fx0rust.Debate.{
  DebateMove, move_define, move_assert, move_challenge, move_distinguish, move_ground, move_counter,
  move_infer_consequence, move_clarify, move_reflect, move_connect, move_contact, move_other,
  DebateParticipant, user, system, ArgumentNodeKind, node_thesis, node_support, node_counterpoint,
  node_consequence, node_dialogue_act, ArgumentNode, ArgumentEdgeKind, supports, counters, entails,
  ArgumentEdge, PositionPolarity, proposed, supported, opposed_position, qualified_position,
  LedgerEntry, DebateEvidenceRef, fact, argument_node, route_family, plan_outcome, RubricAssessment,
  DebateObservationReceipt, Valid, dimension_byte, validate_structure, debate_observation_version,
  digest_mismatch,
}

-- `RECEIPT_DOMAIN`, with its final zero byte
abbrev pub receipt_domain : List ℕ
receipt_domain = codes "qxfx0.debate-observation.v1" ++ 0 ∷ []

-- `as u8` on the enumerations
abbrev pub move_byte : DebateMove → ℕ
move_byte move_define = 0
move_byte move_assert = 1
move_byte move_challenge = 2
move_byte move_distinguish = 3
move_byte move_ground = 4
move_byte move_counter = 5
move_byte move_infer_consequence = 6
move_byte move_clarify = 7
move_byte move_reflect = 8
move_byte move_connect = 9
move_byte move_contact = 10
move_byte move_other = 11

abbrev pub participant_byte : DebateParticipant → ℕ
participant_byte user = 0
participant_byte system = 1

abbrev pub node_kind_byte : ArgumentNodeKind → ℕ
node_kind_byte node_thesis = 0
node_kind_byte node_support = 1
node_kind_byte node_counterpoint = 2
node_kind_byte node_consequence = 3
node_kind_byte node_dialogue_act = 4

abbrev pub edge_kind_byte : ArgumentEdgeKind → ℕ
edge_kind_byte supports = 0
edge_kind_byte counters = 1
edge_kind_byte entails = 2

abbrev pub polarity_of_byte : PositionPolarity → ℕ
polarity_of_byte proposed = 0
polarity_of_byte supported = 1
polarity_of_byte opposed_position = 2
polarity_of_byte qualified_position = 3

-- The bytes that `calculate_digest` hashes, element by element. A score goes out as its high and
-- its low byte, which are those of `to_be_bytes`.
abbrev pub put_node : Writer ArgumentNode
put_node n rest =
    put_text n.id (
      node_kind_byte n.kind ∷ (participant_byte n.participant ∷ put_option put_text n.fact_id rest))

abbrev pub put_edge : Writer ArgumentEdge
put_edge e rest = put_text e.from (put_text e.to (edge_kind_byte e.kind ∷ rest))

abbrev pub put_entry : Writer LedgerEntry
put_entry e rest =
    put_u16 e.sequence
      (participant_byte e.participant ∷ (polarity_of_byte e.polarity ∷ put_text e.node_id rest))

abbrev pub put_evidence : Writer DebateEvidenceRef
put_evidence (fact id) rest = 1 ∷ put_text id rest
put_evidence (argument_node id) rest = 2 ∷ put_text id rest
put_evidence (route_family id) rest = 3 ∷ put_text id rest
put_evidence (plan_outcome id) rest = 4 ∷ put_text id rest

abbrev pub put_assessment : Writer RubricAssessment
put_assessment a rest =
    dimension_byte a.dimension ∷ put_u16 a.score (put_list put_evidence a.evidence rest)

unfoldable pub preimage : DebateObservationReceipt → List ℕ
preimage r =
    receipt_domain
    ++ (r.version
        ∷ (move_byte r.move_type
            ∷ put_text r.topic_id (
                put_list put_node r.nodes (
                  put_list put_edge r.edges
                    (put_list put_entry r.ledger (put_list put_assessment r.rubric []))))))

unfoldable pub calculate_digest : (List ℕ → List ℕ) → DebateObservationReceipt → List ℕ
calculate_digest sha256 r = sha256 (preimage r)

-- `[0; 32]`
abbrev pub zero_bytes : ℕ → List ℕ
zero_bytes zero = []
zero_bytes (suc n) = 0 ∷ zero_bytes n

-- `DebateObservationReceipt::new`
unfoldable pub new_receipt :
    (List ℕ → List ℕ)
    → Text
    → DebateMove
    → List ArgumentNode
    → List ArgumentEdge
    → List LedgerEntry
    → List RubricAssessment
    → Valid DebateObservationReceipt
new_receipt sha256 topic_id move_type nodes edges ledger rubric =
    let receipt : DebateObservationReceipt = record {
      version = debate_observation_version;
      topic_id = topic_id;
      move_type = move_type;
      nodes = nodes;
      edges = edges;
      ledger = ledger;
      rubric = rubric;
      digest = zero_bytes 32;
    } in
    do validate_structure receipt; ok (record receipt { digest = calculate_digest sha256 receipt })

-- `DebateObservationReceipt::validate`
unfoldable pub validate_receipt : (List ℕ → List ℕ) → DebateObservationReceipt → Valid (Unit {0})
validate_receipt sha256 r = do
  validate_structure r
  fail_if (not (text_eq r.digest (calculate_digest sha256 r))) digest_mismatch
  ok tt
