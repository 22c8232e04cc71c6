-- ===== src/Plan/Build.antt =====
-- The response planner: qxfx0-pipeline/src/shadow_plan.rs, with the admitted topics of
-- qxfx0-semantic/src/argued_topics.rs that it reads.
use qx_fx0rust.Base.{ℕ, Bool, true, false, Option, none, some, List, [], ◌∷◌, ◌++◌, ok, ◌>>=◌, ◌>>◌}
use qx_fx0rust.Base.Text.{Text, codes, is_blank}
use qx_fx0rust.Base.Order.{text_ord}
use qx_fx0rust.Base.OrdMap.{get}
use qx_fx0rust.Moves.{
  PropositionMode, define, assert, challenge, connect, reflect, greeting, purpose, world_cause,
}
use qx_fx0rust.Perspective.Facts.{FactRegistry, select}
use qx_fx0rust.Perspective.{ClaimRole, thesis, counterpoint, consequence, dialogue_act}
use qx_fx0rust.Plan.{
  ResponseGoal, content_v1, with_contact, ExternalSubject, ExternalSubjectKind, entity, phenomenon,
  PlanSubject, topic, dialogue, external, FallbackSubject, unresolved_topic, known_topic,
  NonEmptyVec, one, push, ClaimEvidence, curated_evidence, system_contract, user_input,
  SemanticProposition, counters_predicate, follows_predicate, act_of_dialogue, external_reference,
  PlannedClaim, no_relation, by_counterpoint, SentenceBudget, one_sentence, two_sentences,
  three_sentences, DialogueObligation, check_agreement, continue_contact, DerivationRule,
  selected_admitted_predicate, added_counterpoint, added_consequence, applied_dialogue_contract,
  grounded_external_reference, DerivationStep, ReadyResponsePlan, Planned, try_new,
  from_basis_points, new_plan, validate_with_facts, as_planned, FallbackReason, no_topic_provided,
  unknown_topic, no_admissible_predicate, RecoveryEvidence, input_subject_empty, topic_lookup,
  predicate_selection, enabled_trace, PlanOutcome, ready, fallback,
}

-- `AdmittedStatement`
pub record AdmittedStatement : Type 0 where
  pub predicate_ref : Text
  pub fact_id : Text
  pub surface : Text

-- `ArguedTopic`
pub record ArguedTopic : Type 0 where
  pub topic_id : Text
  pub primary_predicate_ref : Text
  pub primary_proposition : SemanticProposition
  pub thesis_statement : AdmittedStatement
  pub counterpoint_statement : AdmittedStatement
  pub consequence_statement : Option AdmittedStatement
  pub evidence_record : ℕ

-- `ArguedTopicRegistry`, as far as the planner reads it: the topics and the facts.
pub record ArguedTopicRegistry : Type 0 where
  pub topics : List (Text × ArguedTopic)
  pub facts : FactRegistry

-- `goal_for_mode`
unfoldable pub goal_for_mode : PropositionMode → ResponseGoal
goal_for_mode define = ResponseGoal.define
goal_for_mode assert = ResponseGoal.generate_thesis
goal_for_mode challenge = ResponseGoal.challenge
goal_for_mode connect = ResponseGoal.compare
goal_for_mode reflect = ResponseGoal.reflect
goal_for_mode greeting = ResponseGoal.contact
goal_for_mode purpose = ResponseGoal.explain
goal_for_mode world_cause = ResponseGoal.hypothesize

-- `fallback_plan`
unfoldable pub fallback_plan :
    ResponseGoal → Option FallbackSubject → FallbackReason → RecoveryEvidence → PlanOutcome
fallback_plan goal subject cause evidence = fallback (record {
  version = content_v1;
  goal = goal;
  subject = subject;
  recovery = enabled_trace cause evidence;
})

-- `build_contract_plan`
unfoldable pub build_contract_plan :
    ResponseGoal
    → PlanSubject
    → SemanticProposition
    → Text
    → ClaimEvidence
    → DerivationRule
    → Option DialogueObligation
    → Planned PlanOutcome
build_contract_plan goal subject proposition predicate_id evidence rule obligation = do
  predicate_ref ← try_new predicate_id
  claim_id ← try_new (predicate_id ++ codes ".claim")
  confidence ← from_basis_points 10000
  plan ←
      new_plan goal subject
        (one (record {
          id = claim_id;
          role = dialogue_act;
          fact_id = none;
          proposition = proposition;
          predicate_refs = one predicate_ref;
          evidence = evidence;
          confidence = confidence;
        }))
        (record { relation = no_relation; sentence_budget = one_sentence }) obligation
        (record { claim_id = claim_id; predicate_refs = one predicate_ref; rule = rule } ∷ [])
  ok (ready plan)

-- The statements of a topic, in order.
abbrev pub statements : ArguedTopic → List AdmittedStatement
statements t =
    t.thesis_statement
    ∷ t.counterpoint_statement
    ∷ (elim t.consequence_statement [ none ↦ [] | some s ↦ s ∷ [] ])

-- The loop that selects the facts of the statements.
unfoldable pub select_all : FactRegistry → List AdmittedStatement → Planned (Unit {0})
select_all facts [] = ok tt
select_all facts (s ∷ ss) = do fact ← as_planned (select facts s.fact_id); select_all facts ss

-- A claim that is no dialogue act, with the step that derives it.
abbrev pub curated_claim :
    Text
    → ClaimRole
    → AdmittedStatement
    → SemanticProposition
    → NonEmptyVec Text
    → ℕ
    → ℕ
    → PlannedClaim
curated_claim id role statement proposition refs evidence_record confidence = record {
  id = id;
  role = role;
  fact_id = some statement.fact_id;
  proposition = proposition;
  predicate_refs = refs;
  evidence = curated_evidence evidence_record;
  confidence = confidence;
}

abbrev pub step_of : Text → NonEmptyVec Text → DerivationRule → DerivationStep
step_of id refs rule = record { claim_id = id; predicate_refs = refs; rule = rule }

-- The references of a claim that answers the thesis: its own, and the primary one.
abbrev pub refs_of : ArguedTopic → AdmittedStatement → NonEmptyVec Text
refs_of t s = push (one s.predicate_ref) t.primary_predicate_ref

-- The claims, the sentence budget and the steps, with a consequence if there is one.
pub record Argued : Type 0 where
  pub claims : NonEmptyVec PlannedClaim
  pub sentence_budget : SentenceBudget
  pub derivation : List DerivationStep

abbrev pub with_consequence :
    ArguedTopic
    → NonEmptyVec PlannedClaim
    → List DerivationStep
    → Option AdmittedStatement
    → Planned Argued
with_consequence t claims derivation none =
    ok (record { claims = claims; sentence_budget = two_sentences; derivation = derivation })
with_consequence t claims derivation (some s) = do
  consequence_id ← try_new (t.primary_predicate_ref ++ codes ".consequence")
  confidence ← from_basis_points 9000
  ok (record {
    claims = push claims (
        curated_claim consequence_id consequence s
          (follows_predicate s.predicate_ref t.primary_predicate_ref) (refs_of t s)
          t.evidence_record confidence);
    sentence_budget = three_sentences;
    derivation = derivation ++ step_of consequence_id (refs_of t s) added_consequence ∷ [];
  })

-- `build_argued_plan`
unfoldable pub build_argued_plan :
    ResponseGoal → ArguedTopic → FactRegistry → Planned ReadyResponsePlan
build_argued_plan goal t facts = do
  select_all facts (statements t)
  thesis_id ← try_new (t.primary_predicate_ref ++ codes ".thesis")
  confidence ← from_basis_points 9500
  counter_id ← try_new (t.primary_predicate_ref ++ codes ".counterpoint")
  counter_confidence ← from_basis_points 9000
  argued ←
      with_consequence t
        (push
          (one (
            curated_claim thesis_id thesis t.thesis_statement t.primary_proposition
              (one t.primary_predicate_ref) t.evidence_record confidence))
          (curated_claim counter_id counterpoint t.counterpoint_statement
            (counters_predicate t.counterpoint_statement.predicate_ref t.primary_predicate_ref)
            (refs_of t t.counterpoint_statement) t.evidence_record counter_confidence))
        (step_of thesis_id (one t.primary_predicate_ref) selected_admitted_predicate
          ∷ step_of counter_id (refs_of t t.counterpoint_statement) added_counterpoint
          ∷ [])
        t.consequence_statement
  plan ←
      new_plan goal (topic t.topic_id) argued.claims
        (record { relation = by_counterpoint; sentence_budget = argued.sentence_budget })
        (some (check_agreement thesis_id)) argued.derivation
  validate_with_facts plan facts
  ok plan

-- A topic that the graph knows enough of: argued if the registry admits it.
abbrev pub plan_known :
    ResponseGoal → Text → FactRegistry → Option ArguedTopic → Planned PlanOutcome
plan_known goal subject facts (some t) = do plan ← build_argued_plan goal t facts; ok (ready plan)
plan_known goal subject facts none = ok (
    fallback_plan goal (some (known_topic subject)) no_admissible_predicate (predicate_selection 0))

-- The fallback of the last arm.
abbrev pub plan_unknown : ResponseGoal → Text → Bool → PlanOutcome
plan_unknown goal subject true = fallback_plan goal none no_topic_provided input_subject_empty
plan_unknown goal subject false =
    fallback_plan goal (some (unresolved_topic subject)) unknown_topic (topic_lookup subject false)

-- A plan about something outside: for a purpose or a cause of the world with a subject.
abbrev pub plan_external : ResponseGoal → Text → ExternalSubjectKind → Text → Planned PlanOutcome
plan_external goal subject kind predicate_id =
    let about : ExternalSubject = record { kind = kind; label = subject } in
    build_contract_plan goal (external about) (external_reference about) predicate_id user_input
      grounded_external_reference none

-- The `match` on the mode.
abbrev pub plan_by_mode : PropositionMode → Text → Bool → Planned PlanOutcome
plan_by_mode greeting subject blank =
    build_contract_plan (goal_for_mode greeting) (dialogue with_contact)
      (act_of_dialogue with_contact) (codes "system.dialogue.contact") system_contract
      applied_dialogue_contract (some continue_contact)
plan_by_mode purpose subject false =
    plan_external (goal_for_mode purpose) subject entity (codes "system.external.purpose")
plan_by_mode world_cause subject false =
    plan_external (goal_for_mode world_cause) subject phenomenon
      (codes "system.external.world_cause")
plan_by_mode mode subject blank = ok (plan_unknown (goal_for_mode mode) subject blank)

-- `build_outcome`, with what `argued_topic_registry` answers
unfoldable pub build_outcome :
    Planned ArguedTopicRegistry → PropositionMode → Text → Bool → Planned PlanOutcome
build_outcome argued_topic_registry mode subject true = do
  registry ← argued_topic_registry
  plan_known (goal_for_mode mode) subject registry.facts (get subject registry.topics)
build_outcome argued_topic_registry mode subject false =
    plan_by_mode mode subject (is_blank subject)
