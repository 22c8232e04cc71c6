-- ===== src/Debate/Observed.antt =====
-- The observation of qxfx0-pipeline/src/debate.rs never fails on a plan that was admitted.
use qx_fx0rust.Base.{
  ℕ, ◌≤◌, ◌≡◌, refl, Bool, false, Option, none, some, List, length, length-map, All, filter_map, ok,
  map, arith,
}
use qx_fx0rust.Base.Text.{text_eq, trim, trim_start, byte_len}
use qx_fx0rust.Base.Distinct.{Distinct}
use qx_fx0rust.Moves.{PropositionMode, CanonicalMoveFamily}
use qx_fx0rust.Plan.{
  iter, FallbackSubject, known_topic, unresolved_topic, fallback_dialogue, PlanOutcome, ready,
  fallback,
}
use qx_fx0rust.Plan.Admit.{IsAdmitted, ids_of}
use qx_fx0rust.Debate.{DebateObservationReceipt, is_invalid_id}
use qx_fx0rust.Debate.Structure.{node_ids, Known, IsEdge, IsDebate, validate_structure-IsDebate}
use qx_fx0rust.Debate.Digest.{new_receipt, validate_receipt, zero_bytes, calculate_digest}
use qx_fx0rust.Debate.Tamper.{validate_receipt-new}
use qx_fx0rust.Debate.Observe.{
  debate_move, topic_of, kind_label, claims_of, thesis_of, edge_of, node_of, ledger_of, observe,
  fallback_topic, ready_topic,
}
use qx_fx0rust.Debate.Projection.{
  length-filter_map, filter_map-All, node_ids-map, named_nodes, claims-Known, thesis-Known,
  edge_of-IsEdge, ledger-IsNumbered, length-ledger_of,
}
use qx_fx0rust.Debate.Rubric.{rubric_of-ok}

-- A ready plan that is admitted, of which the topic and the claims have ids that a receipt takes; a
-- fallback is observed as it is.
abbrev pub Observable : PlanOutcome → Type 0
Observable (ready p) =
    IsAdmitted p
    × (is_invalid_id (ready_topic p.subject) ≡ false)
    × All (λ c. is_invalid_id c.id ≡ false) (iter p.claims)
Observable (fallback f) = Unit

record Observed (outcome : PlanOutcome) : Type 0 where
  few : length (claims_of outcome) ≤ 3
  named : is_invalid_id (topic_of outcome) ≡ false
  ids : All (λ c. is_invalid_id c.id ≡ false) (claims_of outcome)
  distinct : Distinct text_eq (ids_of (claims_of outcome))

fallback_topic-named : (o : Option FallbackSubject) → is_invalid_id (fallback_topic o) ≡ false
unfolding is_invalid_id trim trim_start byte_len
fallback_topic-named none = refl
fallback_topic-named (some (known_topic id)) = refl
fallback_topic-named (some (unresolved_topic t)) = refl
fallback_topic-named (some (fallback_dialogue d)) = refl

Observable-Observed : (outcome : PlanOutcome) → Observable outcome → Observed outcome
Observable-Observed (ready p) h = record {
  few = h.0.few_claims;
  named = h.1;
  ids = h.2;
  distinct = h.0.distinct;
}
Observable-Observed (fallback f) h = record {
  few = omega arith;
  named = fallback_topic-named f.subject;
  ids = tt;
  distinct = tt;
}

-- A plan that was admitted, with ids that a receipt takes, or a fallback, is observed: the result is
-- a receipt that validates, with a node for each claim of the plan, in order.
pub observe-validates :
    (sha256 : List ℕ → List ℕ) (mode : PropositionMode) (family : CanonicalMoveFamily)
    (is_challenge : Bool) (outcome : PlanOutcome)
    → Observable outcome
    → (r : DebateObservationReceipt) × (observe sha256 mode family is_challenge outcome ≡ ok r)
      × (validate_receipt sha256 r ≡ ok tt)
      × (node_ids r.nodes ≡ ids_of (claims_of outcome))
unfolding observe new_receipt
observe-validates sha256 mode family is_challenge outcome h =
    let o = Observable-Observed outcome h in
    let claims = claims_of outcome in
    let ids = ids_of claims in
    let known = claims-Known claims in
    let edges = filter_map (edge_of (thesis_of claims)) claims in
    let few_edges : length edges ≤ 3 =
      omega (arith, length-filter_map (edge_of (thesis_of claims)) claims, o.few) in
    let proper =
      filter_map-All (λ c. Known ids c.id) (IsEdge ids) (edge_of (thesis_of claims))
        (λ c e k s. edge_of-IsEdge ids (thesis_of claims) c e (thesis-Known claims) k s) claims
        known in
    let (rubric, made, few, assessed, once) =
      rubric_of-ok ids family (kind_label outcome) claims edges o.few few_edges known proper in
    let receipt : DebateObservationReceipt = record {
      version = 1;
      topic_id = topic_of outcome;
      move_type = debate_move mode family is_challenge;
      nodes = map node_of claims;
      edges = edges;
      ledger = ledger_of 0 claims;
      rubric = rubric;
      digest = zero_bytes 32;
    } in
    let same = node_ids-map claims in
    let debate : IsDebate receipt = record {
      version = refl;
      named = o.named;
      few_nodes = omega (arith, length-map node_of claims, o.few);
      few_edges = omega (arith, few_edges);
      short_ledger = omega (arith, length-ledger_of 0 claims, o.few);
      short_rubric = few;
      recorded = record {
        nodes = named_nodes claims o.ids;
        distinct = rw same o.distinct;
        edges = rw same proper;
        ledger = rw same (ledger-IsNumbered ids 0 claims (omega (arith, o.few)) known);
        rubric = rw same assessed;
        dimensions_once = once;
      };
    } in
    let valid = (validate_structure-IsDebate receipt).1 debate in
    let result = record receipt { digest = calculate_digest sha256 receipt } in
    let built : new_receipt sha256 (topic_of outcome) (debate_move mode family is_challenge)
          (map node_of claims) edges (ledger_of 0 claims) rubric
        ≡ ok result =
      rw valid refl in
    (result, rw made built, (validate_receipt-new sha256 result).1 built, same)
