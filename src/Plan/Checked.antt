-- ===== src/Plan/Checked.antt =====
-- The planner of qxfx0-pipeline/src/shadow_plan.rs always answers, and what it answers is admitted.
use qx_fx0rust.Base.{
  Option-cases, inl, inr, ◌≡◌, refl, Bool, true, false, not, Option, none, some, [], ◌∷◌, ◌++◌,
  is_some, ok, arith,
}
use qx_fx0rust.Base.Text.{Text, codes, text_eq_refl, is_blank, trim, trim_start}
use qx_fx0rust.Base.Blank.{is_blank-append}
use qx_fx0rust.Base.Order.{text_ord}
use qx_fx0rust.Base.OrdMap.{get}
use qx_fx0rust.Moves.{
  PropositionMode, define, assert, challenge, connect, reflect, greeting, purpose, world_cause,
}
use qx_fx0rust.Perspective.Facts.{FactRegistry}
use qx_fx0rust.Perspective.{dialogue_act}
use qx_fx0rust.Plan.{
  ResponseGoal, content_v1, PlanSubject, topic, iter, one, ReadyResponsePlan, Planned,
  from_basis_points, new_plan, validate_plan, check_facts_of, validate_with_facts, PlanOutcome,
  ready, fallback, SemanticProposition, ClaimEvidence, DerivationRule, DialogueObligation,
  no_relation, one_sentence, default_strategy, enabled_trace, known_topic, no_admissible_predicate,
  predicate_selection, dialogue, with_contact, act_of_dialogue, system_contract,
  applied_dialogue_contract, continue_contact, external, external_reference, user_input,
  grounded_external_reference, entity, phenomenon, ExternalSubjectKind, ExternalSubject,
}
use qx_fx0rust.Plan.Admit.{Obliges, IsAdmitted, validate_plan-IsAdmitted}
use qx_fx0rust.Plan.Build.{
  AdmittedStatement, ArguedTopic, ArguedTopicRegistry, goal_for_mode, fallback_plan,
  build_contract_plan, statements, select_all, step_of, with_consequence, build_argued_plan,
  plan_known, plan_unknown, plan_external, plan_by_mode, build_outcome,
}
use qx_fx0rust.Plan.Argued.{
  IsStatement, IsCurated, try_new-named, thesis_id, counter_id, consequence_id, thesis_id-named,
  counter_id-named, consequence_id-named, argued_of, argued_plan, argued_plan-IsAdmitted,
}

select_all-ok :
    (facts : FactRegistry) (t : ArguedTopic)
    → IsCurated facts t
    → select_all facts (statements t) ≡ ok tt
unfolding select_all
select_all-ok facts t k = elim (Option-cases t.consequence_statement) [
  | inl no_consequence ↦ rw (no_consequence, k.thesis_ok.2, k.counterpoint_ok.2) refl
  | inr (s, e) ↦ rw (e, k.thesis_ok.2, k.counterpoint_ok.2, (k.consequence_ok s e).2) refl
]

with_consequence-ok :
    (t : ArguedTopic) (o : Option AdmittedStatement)
    → with_consequence t (argued_of t none).claims (argued_of t none).derivation o
      ≡ ok (argued_of t o)
unfolding from_basis_points
with_consequence-ok t none = refl
with_consequence-ok t (some s) = rw (try_new-named (consequence_id t) (consequence_id-named t)) refl

cited_facts :
    (facts : FactRegistry) (goal : ResponseGoal) (t : ArguedTopic) (o : Option AdmittedStatement)
    → IsCurated facts t
    → ((s : AdmittedStatement) → o ≡ some s → IsStatement facts s)
    → check_facts_of facts (iter (argued_plan goal t o).claims) ≡ ok tt
unfolding check_facts_of
cited_facts facts goal t none k h = rw (k.thesis_ok.2, k.counterpoint_ok.2) refl
cited_facts facts goal t (some s) k h = rw (k.thesis_ok.2, k.counterpoint_ok.2, (h s refl).2) refl

new-argued :
    (facts : FactRegistry) (goal : ResponseGoal) (t : ArguedTopic)
    → IsCurated facts t
    → validate_plan (argued_plan goal t t.consequence_statement) ≡ ok tt
new-argued facts goal t k =
    (validate_plan-IsAdmitted (argued_plan goal t t.consequence_statement)).1
      (argued_plan-IsAdmitted facts goal t t.consequence_statement k k.consequence_ok)

validate_with_facts-argued :
    (facts : FactRegistry) (goal : ResponseGoal) (t : ArguedTopic)
    → IsCurated facts t
    → validate_with_facts (argued_plan goal t t.consequence_statement) facts ≡ ok tt
unfolding validate_with_facts
validate_with_facts-argued facts goal t k =
    rw (new-argued facts goal t k)
      (cited_facts facts goal t t.consequence_statement k k.consequence_ok)

new_plan-argued :
    (facts : FactRegistry) (goal : ResponseGoal) (t : ArguedTopic)
    → IsCurated facts t
    → let p = argued_plan goal t t.consequence_statement in
      new_plan goal (topic t.topic_id) p.claims p.discourse p.obligation p.derivation ≡ ok p
unfolding new_plan
new_plan-argued facts goal t k = rw (new-argued facts goal t k) refl

build_argued_plan-ok :
    (facts : FactRegistry) (goal : ResponseGoal) (t : ArguedTopic)
    → IsCurated facts t
    → build_argued_plan goal t facts ≡ ok (argued_plan goal t t.consequence_statement)
unfolding build_argued_plan from_basis_points
build_argued_plan-ok facts goal t k =
    rw
      (
        select_all-ok facts t k,
        try_new-named (thesis_id t) (thesis_id-named t),
        try_new-named (counter_id t) (counter_id-named t),
        with_consequence-ok t t.consequence_statement,
        new_plan-argued facts goal t k,
        validate_with_facts-argued facts goal t k,
      )
      refl

abbrev contract_plan :
    ResponseGoal
    → PlanSubject
    → SemanticProposition
    → Text
    → ClaimEvidence
    → DerivationRule
    → Option DialogueObligation
    → ReadyResponsePlan
contract_plan goal subject proposition predicate_id evidence rule obligation = record {
  version = content_v1;
  goal = goal;
  subject = subject;
  claims = one (record {
    id = predicate_id ++ codes ".claim";
    role = dialogue_act;
    fact_id = none;
    proposition = proposition;
    predicate_refs = one predicate_id;
    evidence = evidence;
    confidence = 10000;
  });
  discourse = record { relation = no_relation; sentence_budget = one_sentence };
  obligation = obligation;
  derivation = step_of (predicate_id ++ codes ".claim") (one predicate_id) rule ∷ [];
}

-- Whether the plan is to be a ready one.
abbrev pub expects_ready : PropositionMode → Text → Bool → ArguedTopicRegistry → Bool
expects_ready mode subject true registry = is_some (get subject registry.topics)
expects_ready greeting subject false registry = true
expects_ready purpose subject false registry = not (is_blank subject)
expects_ready world_cause subject false registry = not (is_blank subject)
expects_ready mode subject false registry = false

-- An outcome of the kind that is expected, for the goal, and sound: a ready plan validates against
-- the facts, and a fallback has the strategy of its cause.
abbrev pub Serves : FactRegistry → ResponseGoal → Bool → PlanOutcome → Type 0
Serves facts goal expected (ready p) =
    (expected ≡ true) × (p.goal ≡ goal) × (validate_with_facts p facts ≡ ok tt)
Serves facts goal expected (fallback f) =
    (expected ≡ false) × (f.goal ≡ goal) × (f.recovery.strategy ≡ default_strategy f.recovery.cause)

abbrev pub Served : FactRegistry → ResponseGoal → Bool → Planned PlanOutcome → Type 0
Served facts goal expected r = (o : PlanOutcome) × (r ≡ ok o) × Serves facts goal expected o

contract-Served :
    (facts : FactRegistry) (goal : ResponseGoal) (subject : PlanSubject)
    (proposition : SemanticProposition) (predicate_id : Text) (evidence : ClaimEvidence)
    (rule : DerivationRule) (o : Option DialogueObligation)
    → is_blank predicate_id ≡ false
    → Obliges ((predicate_id ++ codes ".claim") ∷ []) o
    → Served facts goal true
        (build_contract_plan goal subject proposition predicate_id evidence rule o)
unfolding build_contract_plan from_basis_points new_plan validate_with_facts check_facts_of trim
    trim_start
contract-Served facts goal subject proposition predicate_id evidence rule o named obliged =
    let p = contract_plan goal subject proposition predicate_id evidence rule o in
    let id = predicate_id ++ codes ".claim" in
    let id_named : is_blank id ≡ false = is_blank-append predicate_id (codes ".claim") refl in
    let admitted : IsAdmitted p = record {
      few_claims = omega arith;
      claims = (
        record {
          named = id_named;
          predicates = (named, tt);
          confident = omega arith;
          cites = refl;
        },
        tt,
      );
      distinct = (refl, tt);
      few_steps = omega arith;
      derived = (ground (arith, text_eq_refl id), tt);
      obliged = obliged;
    } in
    let valid = (validate_plan-IsAdmitted p).1 admitted in
    (
      ready p,
      rw (try_new-named predicate_id named, try_new-named id id_named, valid) refl,
      (refl, refl, rw valid refl),
    )

unknown-Served :
    (facts : FactRegistry) (goal : ResponseGoal) (subject : Text) (blank : Bool)
    → Served facts goal false (ok (plan_unknown goal subject blank))
unfolding fallback_plan enabled_trace
unknown-Served facts goal subject true = (plan_unknown goal subject true, refl, (refl, refl, refl))
unknown-Served facts goal subject false =
    (plan_unknown goal subject false, refl, (refl, refl, refl))

external-Served :
    (facts : FactRegistry) (goal : ResponseGoal) (subject : Text) (kind : ExternalSubjectKind)
    (predicate_id : Text)
    → is_blank predicate_id ≡ false
    → Served facts goal true (plan_external goal subject kind predicate_id)
external-Served facts goal subject kind predicate_id named =
    let about : ExternalSubject = record { kind = kind; label = subject } in
    contract-Served facts goal (external about) (external_reference about) predicate_id user_input
      grounded_external_reference none named tt

purpose-Served :
    (facts : FactRegistry) (subject : Text) (blank : Bool)
    → Served facts (goal_for_mode purpose) (not blank) (plan_by_mode purpose subject blank)
unfolding trim trim_start
purpose-Served facts subject true = unknown-Served facts (goal_for_mode purpose) subject true
purpose-Served facts subject false =
    external-Served facts (goal_for_mode purpose) subject entity (codes "system.external.purpose")
      refl

world_cause-Served :
    (facts : FactRegistry) (subject : Text) (blank : Bool)
    → Served facts (goal_for_mode world_cause) (not blank) (plan_by_mode world_cause subject blank)
unfolding trim trim_start
world_cause-Served facts subject true =
    unknown-Served facts (goal_for_mode world_cause) subject true
world_cause-Served facts subject false =
    external-Served facts (goal_for_mode world_cause) subject phenomenon
      (codes "system.external.world_cause") refl

greeting-Served :
    (facts : FactRegistry) (subject : Text) (blank : Bool)
    → Served facts (goal_for_mode greeting) true (plan_by_mode greeting subject blank)
unfolding trim trim_start
greeting-Served facts subject blank =
    contract-Served facts (goal_for_mode greeting) (dialogue with_contact)
      (act_of_dialogue with_contact) (codes "system.dialogue.contact") system_contract
      applied_dialogue_contract (some continue_contact) refl tt

by_mode-Served :
    (registry : ArguedTopicRegistry) (mode : PropositionMode) (subject : Text)
    → Served registry.facts
        (goal_for_mode mode)
        (expects_ready mode subject false registry)
        (plan_by_mode mode subject (is_blank subject))
by_mode-Served r greeting subject = greeting-Served r.facts subject (is_blank subject)
by_mode-Served r purpose subject = purpose-Served r.facts subject (is_blank subject)
by_mode-Served r world_cause subject = world_cause-Served r.facts subject (is_blank subject)
by_mode-Served r define subject =
    unknown-Served r.facts (goal_for_mode define) subject (is_blank subject)
by_mode-Served r assert subject =
    unknown-Served r.facts (goal_for_mode assert) subject (is_blank subject)
by_mode-Served r challenge subject =
    unknown-Served r.facts (goal_for_mode challenge) subject (is_blank subject)
by_mode-Served r connect subject =
    unknown-Served r.facts (goal_for_mode connect) subject (is_blank subject)
by_mode-Served r reflect subject =
    unknown-Served r.facts (goal_for_mode reflect) subject (is_blank subject)

known-Served :
    (facts : FactRegistry) (goal : ResponseGoal) (subject : Text) (o : Option ArguedTopic)
    → ((t : ArguedTopic) → o ≡ some t → IsCurated facts t)
    → Served facts goal (is_some o) (plan_known goal subject facts o)
unfolding fallback_plan enabled_trace
known-Served facts goal subject none k = (
  fallback_plan goal (some (known_topic subject)) no_admissible_predicate (predicate_selection 0),
  refl,
  (refl, refl, refl),
)
known-Served facts goal subject (some t) k = (
  ready (argued_plan goal t t.consequence_statement),
  rw (build_argued_plan-ok facts goal t (k t refl)) refl,
  (refl, refl, validate_with_facts-argued facts goal t (k t refl)),
)

-- Over a registry of curated topics the planner always answers, for the goal of the mode. The answer
-- is a ready plan, which validates against the facts, exactly if the topic is known enough and
-- admitted, or, for a topic that is not, if the mode is a greeting or asks for the purpose or the
-- cause of a subject that is not blank; otherwise it is a fallback with the strategy of its cause.
pub build_outcome-Served :
    (registry : ArguedTopicRegistry) (mode : PropositionMode) (subject : Text) (has_enough : Bool)
    → ((t : ArguedTopic) → get subject registry.topics ≡ some t → IsCurated registry.facts t)
    → Served registry.facts
        (goal_for_mode mode)
        (expects_ready mode subject has_enough registry)
        (build_outcome (ok registry) mode subject has_enough)
unfolding build_outcome
build_outcome-Served r mode subject true k =
    known-Served r.facts (goal_for_mode mode) subject (get subject r.topics) k
build_outcome-Served r mode subject false k = by_mode-Served r mode subject
