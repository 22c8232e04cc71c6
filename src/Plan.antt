-- ===== src/Plan.antt =====
-- Response plans: qxfx0-semantic/src/response_plan.rs. What a turn is to say, before any text: a
-- ready plan with its claims, or a fallback with the evidence for it.
pub mod Admit
pub mod Build
pub mod Argued
pub mod Checked
use qx_fx0rust.Base.{
  ℕ, suc, ◌+◌, Bool, true, false, not, ◌&&◌, Option, none, some, List, [], ◌∷◌, ltb, length, any,
  is_some, Result, ok, err, ◌>>=◌, ◌>>◌, fail_if, map, ◌++◌,
}
use qx_fx0rust.Base.Text.{Text, text_eq, is_blank}
use qx_fx0rust.Base.Distinct.{contains}
use qx_fx0rust.Perspective.Facts.{FactRecord, FactRegistry, FactRegistryError, select}
use qx_fx0rust.Perspective.{ClaimRole, dialogue_act}

-- `PlanVersion`
pub data PlanVersion : Type 0 where
  shadow_v1 content_v1 : PlanVersion

-- `ResponseGoal`
pub data ResponseGoal : Type 0 where
  generate_thesis explain define compare reflect : ResponseGoal
  clarify repair challenge hypothesize contact : ResponseGoal

-- `DialogueSubject`
pub data DialogueSubject : Type 0 where
  with_contact : DialogueSubject

-- `ExternalSubjectKind` and `ExternalSubject`
pub data ExternalSubjectKind : Type 0 where
  entity phenomenon : ExternalSubjectKind

pub record ExternalSubject : Type 0 where
  pub kind : ExternalSubjectKind
  pub label : Text

-- `PlanSubject`; an `AtomId` is the text in it.
pub data PlanSubject : Type 0 where
  topic : Text → PlanSubject
  dialogue : DialogueSubject → PlanSubject
  external : ExternalSubject → PlanSubject

-- `FallbackSubject`
pub data FallbackSubject : Type 0 where
  unresolved_topic known_topic : Text → FallbackSubject
  fallback_dialogue : DialogueSubject → FallbackSubject

-- `NonEmptyVec`
pub record NonEmptyVec (A : Type 0) : Type 0 where
  pub first : A
  pub additional : List A

module _ {A : Type 0} where
  abbrev pub one : A → NonEmptyVec A
  one a = record { first = a; additional = [] }

  abbrev pub push : NonEmptyVec A → A → NonEmptyVec A
  push v a = record v { additional = v.additional ++ a ∷ [] }

  -- `iter`
  abbrev pub iter : NonEmptyVec A → List A
  iter v = v.first ∷ v.additional

-- `EvidenceProvenance`, `EvidenceArtifact` and `ClaimEvidence`
pub data EvidenceProvenance : Type 0 where
  curated_release_corpus from_system_contract from_user_input : EvidenceProvenance

pub data EvidenceArtifact : Type 0 where
  haskell_release_corpus_v1 pipeline_contract_v1 current_turn : EvidenceArtifact

pub record ClaimEvidence : Type 0 where
  pub provenance : EvidenceProvenance
  pub artifact : EvidenceArtifact
  pub record_number : Option ℕ

-- `ClaimEvidence::curated`, `system_contract` and `user_input`
abbrev pub curated_evidence : ℕ → ClaimEvidence
curated_evidence n = record {
  provenance = curated_release_corpus;
  artifact = haskell_release_corpus_v1;
  record_number = some n;
}

abbrev pub system_contract : ClaimEvidence
system_contract = record {
  provenance = from_system_contract;
  artifact = pipeline_contract_v1;
  record_number = none;
}

abbrev pub user_input : ClaimEvidence
user_input = record { provenance = from_user_input; artifact = current_turn; record_number = none }

-- `SemanticProposition`; a `SemanticId` and a `PredicateRef` are the texts in them.
pub data SemanticProposition : Type 0 where
  canonical_predicate : Text → Text → Text → SemanticProposition
  counters_predicate follows_predicate : Text → Text → SemanticProposition
  act_of_dialogue : DialogueSubject → SemanticProposition
  external_reference : ExternalSubject → SemanticProposition

-- `PlannedClaim`; a `ClaimId` is the text in it, a `Confidence` its basis points.
pub record PlannedClaim : Type 0 where
  pub id : Text
  pub role : ClaimRole
  pub fact_id : Option Text
  pub proposition : SemanticProposition
  pub predicate_refs : NonEmptyVec Text
  pub evidence : ClaimEvidence
  pub confidence : ℕ

-- `DiscourseRelation`, `SentenceBudget` and `DiscoursePlan`
pub data DiscourseRelation : Type 0 where
  no_relation elaboration contrast by_consequence by_counterpoint : DiscourseRelation

pub data SentenceBudget : Type 0 where
  one_sentence two_sentences three_sentences : SentenceBudget

pub record DiscoursePlan : Type 0 where
  pub relation : DiscourseRelation
  pub sentence_budget : SentenceBudget

-- `DialogueObligation`
pub data DialogueObligation : Type 0 where
  check_agreement : Text → DialogueObligation
  continue_contact : DialogueObligation

-- `DerivationRule` and `DerivationStep`
pub data DerivationRule : Type 0 where
  selected_admitted_predicate added_counterpoint added_consequence : DerivationRule
  applied_dialogue_contract grounded_external_reference : DerivationRule

pub record DerivationStep : Type 0 where
  pub claim_id : Text
  pub predicate_refs : NonEmptyVec Text
  pub rule : DerivationRule

-- `ReadyResponsePlan`
pub record ReadyResponsePlan : Type 0 where
  pub version : PlanVersion
  pub goal : ResponseGoal
  pub subject : PlanSubject
  pub claims : NonEmptyVec PlannedClaim
  pub discourse : DiscoursePlan
  pub obligation : Option DialogueObligation
  pub derivation : List DerivationStep

-- The errors; the source formats them as messages.
pub data PlanError : Type 0 where
  empty_id too_many_claims empty_claim_id too_many_steps : PlanError
  foreign_derivation foreign_obligation : PlanError
  empty_predicate confidence_exceeds without_fact with_fact duplicate_claim : Text → PlanError
  confidence_out_of_range : ℕ → PlanError
  of_registry : FactRegistryError → PlanError

abbrev pub Planned : Type 0 → Type 0
Planned A = Result PlanError A

-- `try_new` of `ClaimId` and of `PredicateRef`
unfoldable pub try_new : Text → Planned Text
try_new value = do fail_if (is_blank value) empty_id; ok value

-- `Confidence::from_basis_points`, with `MAX_BASIS_POINTS`
abbrev pub max_basis_points : ℕ
max_basis_points = 10000

unfoldable pub from_basis_points : ℕ → Planned ℕ
from_basis_points value = do
  fail_if (ltb max_basis_points value) (confidence_out_of_range value)
  ok value

abbrev pub is_dialogue : ClaimRole → Bool
is_dialogue dialogue_act = true
is_dialogue other = false

-- The loop over the claims of `validate`, with the ids that it has seen.
unfoldable pub check_claims : List Text → List PlannedClaim → Planned (List Text)
check_claims claim_ids [] = ok claim_ids
check_claims claim_ids (c ∷ claims) = do
  fail_if (is_blank c.id) empty_claim_id
  fail_if (any is_blank (iter c.predicate_refs)) (empty_predicate c.id)
  fail_if (ltb max_basis_points c.confidence) (confidence_exceeds c.id)
  fail_if (not (is_dialogue c.role) && not (is_some c.fact_id)) (without_fact c.id)
  fail_if (is_dialogue c.role && is_some c.fact_id) (with_fact c.id)
  fail_if (contains text_eq claim_ids c.id) (duplicate_claim c.id)
  check_claims (c.id ∷ claim_ids) claims

abbrev pub is_foreign_obligation : List Text → Option DialogueObligation → Bool
is_foreign_obligation claim_ids (some (check_agreement id)) = not (contains text_eq claim_ids id)
is_foreign_obligation claim_ids (some continue_contact) = false
is_foreign_obligation claim_ids none = false

-- `ReadyResponsePlan::validate`
unfoldable pub validate_plan : ReadyResponsePlan → Planned (Unit {0})
validate_plan p = do
  fail_if (ltb 3 (length (iter p.claims))) too_many_claims
  claim_ids ← check_claims [] (iter p.claims)
  fail_if (ltb 8 (length p.derivation)) too_many_steps
  fail_if (any (λ step. not (contains text_eq claim_ids step.claim_id)) p.derivation)
      foreign_derivation
  fail_if (is_foreign_obligation claim_ids p.obligation) foreign_obligation
  ok tt

-- `ReadyResponsePlan::new`
unfoldable pub new_plan :
    ResponseGoal
    → PlanSubject
    → NonEmptyVec PlannedClaim
    → DiscoursePlan
    → Option DialogueObligation
    → List DerivationStep
    → Planned ReadyResponsePlan
new_plan goal subject claims discourse obligation derivation =
    let plan : ReadyResponsePlan = record {
      version = content_v1;
      goal = goal;
      subject = subject;
      claims = claims;
      discourse = discourse;
      obligation = obligation;
      derivation = derivation;
    } in
    do validate_plan plan; ok plan

abbrev pub as_planned : {A : Type 0} → Result FactRegistryError A → Planned A
as_planned (ok a) = ok a
as_planned (err e) = err (of_registry e)

abbrev pub required : PlannedClaim → Planned Text
required c = elim c.fact_id [ none ↦ err (without_fact c.id) | some id ↦ ok id ]

-- The loop of `validate_with_facts`
unfoldable pub check_facts_of : FactRegistry → List PlannedClaim → Planned (Unit {0})
check_facts_of facts [] = ok tt
check_facts_of facts (c ∷ claims) =
    let rest = check_facts_of facts claims in
    elim (is_dialogue c.role) [
      | true ↦ rest
      | false ↦ do fact_id ← required c; fact ← as_planned (select facts fact_id); rest
    ]

-- `ReadyResponsePlan::validate_with_facts`
unfoldable pub validate_with_facts : ReadyResponsePlan → FactRegistry → Planned (Unit {0})
validate_with_facts p facts = do validate_plan p; check_facts_of facts (iter p.claims)

-- `FallbackReason`, `RecoveryPolicy` and `RecoveryStrategy`
pub data FallbackReason : Type 0 where
  no_topic_provided unknown_topic no_admissible_predicate morphology_failure : FallbackReason
  quality_rejection semantic_conflict persistence_recovery : FallbackReason

pub data RecoveryPolicy : Type 0 where
  enabled disabled : RecoveryPolicy

pub data RecoveryStrategy : Type 0 where
  ask_clarification bounded_non_argued_response retry_morphology : RecoveryStrategy
  reject_surface resolve_semantic_conflict restore_snapshot : RecoveryStrategy

unfoldable pub default_strategy : FallbackReason → RecoveryStrategy
default_strategy no_topic_provided = ask_clarification
default_strategy unknown_topic = ask_clarification
default_strategy no_admissible_predicate = bounded_non_argued_response
default_strategy morphology_failure = retry_morphology
default_strategy quality_rejection = reject_surface
default_strategy semantic_conflict = resolve_semantic_conflict
default_strategy persistence_recovery = restore_snapshot

-- `QualityGatePhase` and `RecoveryEvidence`
pub data QualityGatePhase : Type 0 where
  input post_render_safety content_quality : QualityGatePhase

pub data RecoveryEvidence : Type 0 where
  input_subject_empty : RecoveryEvidence
  topic_lookup : Text → Bool → RecoveryEvidence
  predicate_selection : ℕ → RecoveryEvidence
  quality_gate : QualityGatePhase → Text → RecoveryEvidence
  conflict_evidence : Text → RecoveryEvidence
  morphology_evidence persistence_evidence : Text → Text → RecoveryEvidence

-- `RecoveryTrace`; a `RecoveryEvidenceSet` is a `NonEmptyVec` under another name.
pub record RecoveryTrace : Type 0 where
  pub policy : RecoveryPolicy
  pub cause : FallbackReason
  pub strategy : RecoveryStrategy
  pub evidence : NonEmptyVec RecoveryEvidence

-- `RecoveryTrace::enabled`
unfoldable pub enabled_trace : FallbackReason → RecoveryEvidence → RecoveryTrace
enabled_trace cause evidence = record {
  policy = enabled;
  cause = cause;
  strategy = default_strategy cause;
  evidence = one evidence;
}

-- `FallbackPlan`
pub record FallbackPlan : Type 0 where
  pub version : PlanVersion
  pub goal : ResponseGoal
  pub subject : Option FallbackSubject
  pub recovery : RecoveryTrace

-- `PlanOutcome`, at ready response plans
pub data PlanOutcome : Type 0 where
  ready : ReadyResponsePlan → PlanOutcome
  fallback : FallbackPlan → PlanOutcome
