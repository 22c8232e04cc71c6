-- ===== src/Argument/Parse.antt =====
-- The reading of an argument off a text: `parse` and `build_receipt` of
-- qxfx0-pipeline/src/user_argument.rs, and the constructors of qxfx0-types/src/user_argument.rs that
-- they call. Lowercasing and the hash are parameters.
use qx_fx0rust.Base.{
  ℕ, ◌+◌, if◌then◌else◌, Option, none, some, List, [], ◌∷◌, ◌++◌, ok, ◌>>=◌, ◌>>◌,
}
use qx_fx0rust.Base.Text.{Text, codes, text_eq, trim}
use qx_fx0rust.Base.Decimal.{decimal}
use qx_fx0rust.Argument.{
  ParserRuleId, ArgumentPredicate, ArgumentSubject, subject_topic, unresolved_subject,
  external_subject, ArgumentObject, object_topic, evidence, definition,
  NormalizedArgumentProposition, UserArgumentNodeData, UserArgumentNode, claim, premise, conclusion,
  qualifier, counterclaim, ArgumentRelation, ParseOmissionReason, ParseOmission, Accepted, check_id,
  validate_rule, validate_confidence, validate_proposition, validate_node,
  validate_argument_relation, validate_omission,
}
use qx_fx0rust.Argument.Receipt.{UserArgumentParseReceipt}
use qx_fx0rust.Argument.Digest.{new_argument}
use qx_fx0rust.Argument.Spec.{
  NodeKind, as_claim, as_premise, as_conclusion, as_qualifier, as_counterclaim, SubjectSpec,
  about_topic, about_unresolved, about_external, ObjectSpec, to_nothing, to_topic, to_evidence,
  to_definition, NodeSpec, RelationSpec, RuleSpec,
}
use qx_fx0rust.Argument.Rules.{reviewed_rules, unmatched_rule}

-- A constructor that runs the check of what it makes.
abbrev pub checked : {A : Type 0} → (A → Accepted (Unit {0})) → A → Accepted A
checked check a = check a >> ok a

-- `try_new` of the ids, of `ParserRuleId` and of `ParseConfidence`
abbrev pub new_id : Text → Text → Accepted Text
new_id field value = checked (check_id field) value

abbrev pub new_rule : Text → ℕ → Accepted ParserRuleId
new_rule id version = checked validate_rule (record { id = id; version = version })

abbrev pub new_confidence : ℕ → Accepted ℕ
new_confidence value = checked validate_confidence value

-- `NormalizedArgumentProposition::new`
abbrev pub new_proposition :
    ArgumentSubject
    → ArgumentPredicate
    → Option ArgumentObject
    → Accepted NormalizedArgumentProposition
new_proposition subject predicate object =
    checked validate_proposition
      (record { subject = subject; predicate = predicate; object = object })

-- `RULE_VERSION`
abbrev pub rule_version : ℕ
rule_version = 1

-- `build_subject` and `build_object`
abbrev pub build_subject : SubjectSpec → Accepted ArgumentSubject
build_subject (about_topic topic) = do
  id ← new_id (codes "proposition.canonical_topic_id") topic
  ok (subject_topic id)
build_subject about_unresolved = ok unresolved_subject
build_subject about_external = ok external_subject

abbrev pub build_object : ObjectSpec → Accepted (Option ArgumentObject)
build_object to_nothing = ok none
build_object (to_topic topic) = do
  id ← new_id (codes "proposition.canonical_topic_id") topic
  ok (some (object_topic id))
build_object to_evidence = ok (some evidence)
build_object to_definition = ok (some definition)

-- The wrapper of a node by its kind.
abbrev pub wrapped : NodeKind → UserArgumentNodeData → UserArgumentNode
wrapped as_claim d = claim d
wrapped as_premise d = premise d
wrapped as_conclusion d = conclusion d
wrapped as_qualifier d = qualifier d
wrapped as_counterclaim d = counterclaim d

-- `build_node`, with `UserArgumentNodeData::new`
unfoldable pub build_node : ParserRuleId → NodeSpec → Accepted UserArgumentNode
build_node rule spec = do
  subject ← build_subject spec.subject
  object ← build_object spec.object
  proposition ← new_proposition subject spec.predicate object
  id ← new_id (codes "node.id") spec.id
  confidence ← new_confidence spec.confidence
  data_of_node ← checked validate_node (record {
    id = id;
    proposition = proposition;
    source = spec.source;
    polarity = spec.polarity;
    confidence = confidence;
    parser_rule = rule;
    span_digest = none;
  })
  ok (wrapped spec.kind data_of_node)

-- The closure over the relations of a rule, with `ArgumentRelation::new`: under the text of an id,
-- and under the one that the place in the rule gives.
abbrev pub named_relation : Text → ParserRuleId → RelationSpec → Accepted ArgumentRelation
named_relation name rule spec = do
  id ← new_id (codes "relation.id") name
  from_id ← new_id (codes "node.id") spec.from
  to_id ← new_id (codes "node.id") spec.to
  confidence ← new_confidence spec.confidence
  checked validate_argument_relation (record {
    id = id;
    from = from_id;
    to = to_id;
    kind = spec.kind;
    confidence = confidence;
    parser_rule = rule;
  })

unfoldable pub build_relation : Text → ParserRuleId → ℕ → RelationSpec → Accepted ArgumentRelation
build_relation rule_id rule index spec =
    named_relation (rule_id ++ (codes ".relation." ++ decimal index)) rule spec

-- `ParseOmission::new`
unfoldable pub new_omission : ParserRuleId → ParseOmissionReason → Accepted ParseOmission
new_omission rule reason =
    checked validate_omission (record { reason = reason; parser_rule = some rule })

-- `.map(…).collect::<Result<Vec<_>, _>>()`, by the position in the list.
abbrev pub collect : {A B : Type 0} → (ℕ → A → Accepted B) → ℕ → List A → Accepted (List B)
collect f index [] = ok []
collect f index (x ∷ xs) = do y ← f index x; ys ← collect f (index + 1) xs; ok (y ∷ ys)

-- `build_receipt`
unfoldable pub build_receipt : (List ℕ → List ℕ) → RuleSpec → Accepted UserArgumentParseReceipt
build_receipt sha256 spec = do
  rule ← new_rule spec.id rule_version
  nodes ← collect (λ index node. build_node rule node) 0 spec.nodes
  relations ← collect (build_relation spec.id rule) 0 spec.relations
  omissions ← collect (λ index reason. new_omission rule reason) 0 spec.omissions
  new_argument sha256 spec.disposition nodes relations omissions

-- `reviewed_rule`: the first arm whose formulation is the text.
abbrev pub rule_among : Text → List (Text × RuleSpec) → Option RuleSpec
rule_among input [] = none
rule_among input (r ∷ rules) = if text_eq input r.0 then some r.1 else rule_among input rules

abbrev pub reviewed_rule : Text → Option RuleSpec
reviewed_rule input = rule_among input reviewed_rules

-- `unwrap_or`
abbrev pub rule_or : RuleSpec → Option RuleSpec → RuleSpec
rule_or default none = default
rule_or default (some r) = r

abbrev pub rule_for : Text → RuleSpec
rule_for input = rule_or unmatched_rule (reviewed_rule input)

-- `parse`
unfoldable pub parse_argument :
    (List ℕ → List ℕ) → (Text → Text) → Text → Accepted UserArgumentParseReceipt
parse_argument sha256 to_lowercase raw_text =
    build_receipt sha256 (rule_for (to_lowercase (trim raw_text)))
