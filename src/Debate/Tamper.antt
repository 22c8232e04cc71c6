-- ===== src/Debate/Tamper.antt =====
-- The digest of qxfx0-types/src/debate.rs covers all of a receipt, and `new` and `validate` agree.
use qx_fx0rust.Base.{ℕ, ◌^◌, ◌<◌, ◌≡◌, refl, sym, ap, ◌↔◌, List, [], ◌∷◌, length, All, ok, arith}
use qx_fx0rust.Base.Encoding.{
  Splits, put_text, FitsU64, AllSome, put_u16-Splits, put_text-Splits, put_list-Splits,
  put_option-Splits,
}
use qx_fx0rust.Debate.{
  DebateValidationError, DebateMove, DebateParticipant, ArgumentNodeKind, ArgumentNode,
  ArgumentEdgeKind, ArgumentEdge, PositionPolarity, LedgerEntry, DebateEvidenceRef, fact,
  argument_node, route_family, plan_outcome, RubricDimension, RubricAssessment,
  DebateObservationReceipt, dimension_byte, validate_structure, debate_observation_version,
  digest_mismatch,
}
use qx_fx0rust.Debate.Digest.{
  receipt_domain, move_byte, participant_byte, node_kind_byte, edge_kind_byte, polarity_of_byte,
  put_node, put_edge, put_entry, put_evidence, put_assessment, preimage, calculate_digest,
  zero_bytes, new_receipt, validate_receipt,
}
use qx_fx0rust.Base.Bytes.{append-split}
use qx_fx0rust.Base.Sealing.{Sealing, is_sealed-sealed}
use qx_fx0rust.Debate.Structure.{validate_structure-IsDebate}

-- What the types of the code say of a receipt: 16-bit numbers, and lengths of 64 bits.
abbrev pub TypedNode : ArgumentNode → Type 0
TypedNode n = FitsU64 n.id × AllSome FitsU64 n.fact_id

abbrev pub TypedEdge : ArgumentEdge → Type 0
TypedEdge e = FitsU64 e.from × FitsU64 e.to

abbrev pub TypedEntry : LedgerEntry → Type 0
TypedEntry e = (e.sequence < 2 ^ 16) × FitsU64 e.node_id

abbrev pub TypedEvidence : DebateEvidenceRef → Type 0
TypedEvidence (fact id) = FitsU64 id
TypedEvidence (argument_node id) = FitsU64 id
TypedEvidence (route_family id) = FitsU64 id
TypedEvidence (plan_outcome id) = FitsU64 id

abbrev pub TypedAssessment : RubricAssessment → Type 0
TypedAssessment a =
    (a.score < 2 ^ 16) × ((length a.evidence < 2 ^ 64) × All TypedEvidence a.evidence)

pub record IsTypedReceipt (r : DebateObservationReceipt) : Type 0 where
  pub topic : FitsU64 r.topic_id
  pub nodes : (length r.nodes < 2 ^ 64) × All TypedNode r.nodes
  pub edges : (length r.edges < 2 ^ 64) × All TypedEdge r.edges
  pub ledger : (length r.ledger < 2 ^ 64) × All TypedEntry r.ledger
  pub rubric : (length r.rubric < 2 ^ 64) × All TypedAssessment r.rubric

move-split :
    (m n : DebateMove) (s t : List ℕ) → move_byte m ∷ s ≡ move_byte n ∷ t → (m ≡ n) × (s ≡ t)
move-split m n s t e = ground arith

participant-split :
    (m n : DebateParticipant) (s t : List ℕ)
    → participant_byte m ∷ s ≡ participant_byte n ∷ t
    → (m ≡ n) × (s ≡ t)
participant-split m n s t e = ground arith

node_kind-split :
    (m n : ArgumentNodeKind) (s t : List ℕ)
    → node_kind_byte m ∷ s ≡ node_kind_byte n ∷ t
    → (m ≡ n) × (s ≡ t)
node_kind-split m n s t e = ground arith

edge_kind-split :
    (m n : ArgumentEdgeKind) (s t : List ℕ)
    → edge_kind_byte m ∷ s ≡ edge_kind_byte n ∷ t
    → (m ≡ n) × (s ≡ t)
edge_kind-split m n s t e = ground arith

polarity-split :
    (m n : PositionPolarity) (s t : List ℕ)
    → polarity_of_byte m ∷ s ≡ polarity_of_byte n ∷ t
    → (m ≡ n) × (s ≡ t)
polarity-split m n s t e = ground arith

dimension-split :
    (m n : RubricDimension) (s t : List ℕ)
    → dimension_byte m ∷ s ≡ dimension_byte n ∷ t
    → (m ≡ n) × (s ≡ t)
dimension-split m n s t e = ground arith

put_node-Splits : Splits TypedNode put_node
put_node-Splits x y s t hx hy e =
    let a = put_text-Splits x.id y.id _ _ hx.0 hy.0 e in
    let b = node_kind-split x.kind y.kind _ _ a.1 in
    let c = participant-split x.participant y.participant _ _ b.1 in
    let d =
      put_option-Splits FitsU64 put_text put_text-Splits x.fact_id y.fact_id s t hx.1 hy.1 c.1 in
    (rw (a.0, b.0, c.0, d.0) refl, d.1)

put_edge-Splits : Splits TypedEdge put_edge
put_edge-Splits x y s t hx hy e =
    let a = put_text-Splits x.from y.from _ _ hx.0 hy.0 e in
    let b = put_text-Splits x.to y.to _ _ hx.1 hy.1 a.1 in
    let c = edge_kind-split x.kind y.kind s t b.1 in (rw (a.0, b.0, c.0) refl, c.1)

put_entry-Splits : Splits TypedEntry put_entry
put_entry-Splits x y s t hx hy e =
    let a = put_u16-Splits x.sequence y.sequence _ _ hx.0 hy.0 e in
    let b = participant-split x.participant y.participant _ _ a.1 in
    let c = polarity-split x.polarity y.polarity _ _ b.1 in
    let d = put_text-Splits x.node_id y.node_id s t hx.1 hy.1 c.1 in
    (rw (a.0, b.0, c.0, d.0) refl, d.1)

put_evidence-Splits : Splits TypedEvidence put_evidence
put_evidence-Splits (fact x) (fact y) s t hx hy e =
    let a = put_text-Splits x y s t hx hy (cc) in (ap fact a.0, a.1)
put_evidence-Splits (argument_node x) (argument_node y) s t hx hy e =
    let a = put_text-Splits x y s t hx hy (cc) in (ap argument_node a.0, a.1)
put_evidence-Splits (route_family x) (route_family y) s t hx hy e =
    let a = put_text-Splits x y s t hx hy (cc) in (ap route_family a.0, a.1)
put_evidence-Splits (plan_outcome x) (plan_outcome y) s t hx hy e =
    let a = put_text-Splits x y s t hx hy (cc) in (ap plan_outcome a.0, a.1)
put_evidence-Splits x y s t hx hy e = ground arith

put_assessment-Splits : Splits TypedAssessment put_assessment
put_assessment-Splits x y s t hx hy e =
    let a = dimension-split x.dimension y.dimension _ _ e in
    let b = put_u16-Splits x.score y.score _ _ hx.0 hy.0 a.1 in
    let c =
      put_list-Splits TypedEvidence put_evidence put_evidence-Splits x.evidence y.evidence s t hx.1
        hy.1 b.1 in
    (rw (a.0, b.0, c.0) refl, c.1)

-- Two receipts are hashed from the same bytes exactly if they agree in all but their digest: no
-- field can be changed, moved or dropped without changing what is hashed.
pub preimage-injective :
    (r q : DebateObservationReceipt)
    → IsTypedReceipt r
    → IsTypedReceipt q
    → (preimage r ≡ preimage q) ↔ (record r { digest = q.digest } ≡ q)
unfolding preimage
preimage-injective r q tr tq = (
  λ e.
      let body = append-split receipt_domain receipt_domain _ _ refl e in
      let version : r.version ≡ q.version = cc in
      let after = (append-split (r.version ∷ []) (q.version ∷ []) _ _ refl body.1).1 in
      let move = move-split r.move_type q.move_type _ _ after in
      let topic = put_text-Splits r.topic_id q.topic_id _ _ tr.topic tq.topic move.1 in
      let nodes =
        put_list-Splits TypedNode put_node put_node-Splits r.nodes q.nodes _ _ tr.nodes tq.nodes
          topic.1 in
      let edges =
        put_list-Splits TypedEdge put_edge put_edge-Splits r.edges q.edges _ _ tr.edges tq.edges
          nodes.1 in
      let ledger =
        put_list-Splits TypedEntry put_entry put_entry-Splits r.ledger q.ledger _ _ tr.ledger
          tq.ledger edges.1 in
      let rubric =
        put_list-Splits TypedAssessment put_assessment put_assessment-Splits r.rubric q.rubric [] []
          tr.rubric tq.rubric ledger.1 in
      rw (version, move.0, topic.0, nodes.0, edges.0, ledger.0, rubric.0) refl,
  λ e. ap preimage e,
)

-- The structure checks and the hash do not read the digest.
same_structure :
    (d : List ℕ) (r : DebateObservationReceipt)
    → validate_structure (record r { digest = d }) ≡ validate_structure r
unfolding validate_structure
same_structure d r = refl

same_hash :
    (sha256 : List ℕ → List ℕ) (d : List ℕ) (r : DebateObservationReceipt)
    → calculate_digest sha256 (record r { digest = d }) ≡ calculate_digest sha256 r
unfolding calculate_digest preimage
same_hash sha256 d r = refl

abbrev debate_sealing : (List ℕ → List ℕ) → Sealing DebateValidationError DebateObservationReceipt
debate_sealing sha256 = record {
  check = validate_structure;
  hash = calculate_digest sha256;
  digest = λ r. r.digest;
  seal = λ d r. record r { digest = d };
  check-seal = same_structure;
  hash-seal = same_hash sha256;
  seal-seal = λ d c r. refl;
  digest-seal = λ d r. refl;
  seal-digest = λ r. refl;
}

-- The receipt before its digest is filled in.
abbrev bare : DebateObservationReceipt → DebateObservationReceipt
bare r = record r { version = debate_observation_version; digest = zero_bytes 32 }

bare_of :
    (r : DebateObservationReceipt)
    → r.version ≡ debate_observation_version
    → bare r ≡ record r { digest = zero_bytes 32 }
bare_of r v = rw v refl

-- A receipt validates exactly if it is the one that `new` makes of its fields.
pub validate_receipt-new :
    (sha256 : List ℕ → List ℕ) (r : DebateObservationReceipt)
    → (validate_receipt sha256 r ≡ ok tt)
      ↔ (new_receipt sha256 r.topic_id r.move_type r.nodes r.edges r.ledger r.rubric ≡ ok r)
unfolding validate_receipt new_receipt
validate_receipt-new sha256 r =
    is_sealed-sealed (debate_sealing sha256) digest_mismatch (zero_bytes 32) (bare r) r
      (λ h. bare_of r (((validate_structure-IsDebate r).0 h).version))
      (λ e. bare_of r (sym (ap (λ (q : DebateObservationReceipt). q.version) e)))
