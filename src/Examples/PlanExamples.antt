-- ===== src/Examples/PlanExamples.antt =====
-- Response plans and their observation at a concrete topic.
use qx_fx0rust.Base.{ℕ, ◌≡◌, refl, ◌↔◌, subst, true, false, none, some, List, [], ◌∷◌, arith, ok}
use qx_fx0rust.Base.Text.{Text, codes, text_eq, trim, trim_start, byte_len}
use qx_fx0rust.Base.Order.{text_ord}
use qx_fx0rust.Base.OrdMap.{get}
use qx_fx0rust.Moves.{define, cm_define}
use qx_fx0rust.Perspective.Facts.{FactRecord, FactRegistry, interpretive_claim, curated, select}
use qx_fx0rust.Plan.{canonical_predicate, ReadyResponsePlan, ready, validate_plan}
use qx_fx0rust.Plan.Admit.{IsAdmitted, ids_of, validate_plan-IsAdmitted}
use qx_fx0rust.Plan.Build.{
  AdmittedStatement, ArguedTopic, ArguedTopicRegistry, goal_for_mode, build_outcome,
}
use qx_fx0rust.Plan.Argued.{IsCurated, argued_plan, argued_plan-IsAdmitted}
use qx_fx0rust.Plan.Checked.{Served, expects_ready, build_outcome-Served}
use qx_fx0rust.Debate.{DebateObservationReceipt, is_invalid_id, validate_structure}
use qx_fx0rust.Debate.Structure.{node_ids, IsDebate, validate_structure-IsDebate}
use qx_fx0rust.Debate.Digest.{preimage, new_receipt, validate_receipt, zero_bytes}
use qx_fx0rust.Debate.Tamper.{IsTypedReceipt, preimage-injective, validate_receipt-new}
use qx_fx0rust.Debate.Observe.{observe, claims_of}
use qx_fx0rust.Debate.Observed.{Observable, observe-validates}
use qx_fx0rust.Debate.{
  move_define, system, node_thesis, node_counterpoint, counters, argument_node, proposed,
  qualified_position, evidence_grounding,
}

abbrev fact : Text → FactRecord
fact id = record {
  id = id;
  subject = codes "freedom";
  relation = codes "RelRequires";
  object = codes "choice";
  kind = interpretive_claim;
  conditions = [];
  confidence_basis_points = 9000;
  source_pack = codes "core";
  source_ref = codes "1";
  valid_from = none;
  valid_to = none;
  status = curated;
}

abbrev facts : FactRegistry
facts = (codes "f1", fact (codes "f1")) ∷ (codes "f2", fact (codes "f2")) ∷ []

abbrev statement : Text → Text → AdmittedStatement
statement ref id = record { predicate_ref = ref; fact_id = id; surface = codes "s" }

abbrev freedom : ArguedTopic
freedom = record {
  topic_id = codes "freedom";
  primary_predicate_ref = codes "p1";
  primary_proposition =
      canonical_predicate (codes "freedom") (codes "RelRequires") (codes "choice");
  thesis_statement = statement (codes "p1") (codes "f1");
  counterpoint_statement = statement (codes "p1.counterpoint") (codes "f2");
  consequence_statement = none;
  evidence_record = 1;
}

abbrev registry : ArguedTopicRegistry
registry = record { topics = (codes "freedom", freedom) ∷ []; facts = facts }

freedom-IsCurated : IsCurated facts freedom
unfolding select get text_eq trim trim_start
freedom-IsCurated = record {
  named = refl;
  thesis_ok = (refl, fact (codes "f1"), refl);
  counterpoint_ok = (refl, fact (codes "f2"), refl);
  consequence_ok = λ s e. absurd (cc);
}

registered :
    (t : ArguedTopic) → get (codes "freedom") registry.topics ≡ some t → IsCurated registry.facts t
unfolding get text_eq
registered t e = let same : freedom ≡ t = cc in subst (IsCurated facts) same freedom-IsCurated

build_outcome-Served_example :
    Served facts
      (goal_for_mode define)
      (expects_ready define (codes "freedom") true registry)
      (build_outcome (ok registry) define (codes "freedom") true)
build_outcome-Served_example =
    build_outcome-Served registry define (codes "freedom") true registered

abbrev plan : ReadyResponsePlan
plan = argued_plan (goal_for_mode define) freedom none

validate_plan-IsAdmitted_example : (validate_plan plan ≡ ok tt) ↔ IsAdmitted plan
validate_plan-IsAdmitted_example = validate_plan-IsAdmitted plan

plan-Observable : Observable (ready plan)
unfolding is_invalid_id trim trim_start byte_len
plan-Observable = (
  argued_plan-IsAdmitted facts (goal_for_mode define) freedom none freedom-IsCurated
      (λ s e. absurd (cc)),
  refl,
  (refl, (refl, tt)),
)

-- The hash of the examples keeps the bytes as they are.
abbrev as_it_is : List ℕ → List ℕ
as_it_is bytes = bytes

observe-validates_example :
    (r : DebateObservationReceipt) × (observe as_it_is define cm_define false (ready plan) ≡ ok r)
    × (validate_receipt as_it_is r ≡ ok tt)
    × (node_ids r.nodes ≡ ids_of (claims_of (ready plan)))
observe-validates_example =
    observe-validates as_it_is define cm_define false (ready plan) plan-Observable

abbrev receipt : DebateObservationReceipt
receipt = record {
  version = 1;
  topic_id = codes "freedom";
  move_type = move_define;
  nodes =
      record {
        id = codes "a";
        kind = node_thesis;
        participant = system;
        fact_id = some (codes "f1");
      }
      ∷ record { id = codes "b"; kind = node_counterpoint; participant = system; fact_id = none }
      ∷ [];
  edges = record { from = codes "b"; to = codes "a"; kind = counters } ∷ [];
  ledger =
      record { sequence = 0; participant = system; node_id = codes "a"; polarity = proposed }
      ∷ record {
        sequence = 1;
        participant = system;
        node_id = codes "b";
        polarity = qualified_position;
      }
      ∷ [];
  rubric =
      record {
        dimension = evidence_grounding;
        score = 10000;
        evidence = argument_node (codes "a") ∷ [];
      }
      ∷ [];
  digest = zero_bytes 32;
}

validate_structure-IsDebate_example : (validate_structure receipt ≡ ok tt) ↔ IsDebate receipt
validate_structure-IsDebate_example = validate_structure-IsDebate receipt

validate_receipt-new_example : (validate_receipt as_it_is receipt ≡ ok tt) ↔ (
    new_receipt as_it_is receipt.topic_id receipt.move_type receipt.nodes receipt.edges
      receipt.ledger receipt.rubric
    ≡ ok receipt)
validate_receipt-new_example = validate_receipt-new as_it_is receipt

receipt-IsTypedReceipt : IsTypedReceipt receipt
unfolding byte_len
receipt-IsTypedReceipt = record {
  topic = omega arith;
  nodes = (omega arith, ((omega arith, omega arith), ((omega arith, tt), tt)));
  edges = (omega arith, ((omega arith, omega arith), tt));
  ledger = (omega arith, ((omega arith, omega arith), ((omega arith, omega arith), tt)));
  rubric = (omega arith, ((omega arith, (omega arith, (omega arith, tt))), tt));
}

preimage-injective_example :
    (preimage receipt ≡ preimage receipt) ↔ (record receipt { digest = receipt.digest } ≡ receipt)
preimage-injective_example =
    preimage-injective receipt receipt receipt-IsTypedReceipt receipt-IsTypedReceipt
