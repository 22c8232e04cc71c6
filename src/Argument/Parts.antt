-- ===== src/Argument/Parts.antt =====
-- What the checks on the parts of a user's argument accept, in qxfx0-types/src/user_argument.rs.
use qx_fx0rust.Base.{◌≤◌, ◌≡◌, refl, ◌↔◌, false, Option, none, some, ◌==◌, all, ok, arith}
use qx_fx0rust.Base.Text.{Text, text_eq}
use qx_fx0rust.Argument.{
  ParserRuleId, ArgumentSubject, subject_topic, unresolved_subject, external_subject,
  subject_dialogue, no_topic, ArgumentObject, object_topic, object_fact, unresolved_object,
  external_object, evidence, definition, ArgumentSpanDigest, UserArgumentNodeData, ArgumentRelation,
  Accepted, confidence_limit, is_bad_id, validate_rule, validate_subject, validate_object,
  validate_some, validate_proposition, validate_span, validate_node, validate_argument_relation,
}

-- An id that is not empty, not too long, and free of control, space and format characters.
abbrev pub IsId : Text → Type 0
IsId t = is_bad_id t ≡ false

abbrev pub IsRule : ParserRuleId → Type 0
IsRule r = IsId r.id × (1 ≤ r.version)

abbrev pub IsSubject : ArgumentSubject → Type 0
IsSubject (subject_topic id) = IsId id
IsSubject other = Unit {0}

abbrev pub IsObject : ArgumentObject → Type 0
IsObject (object_topic id) = IsId id
IsObject (object_fact id) = IsId id
IsObject other = Unit {0}

abbrev pub IfSome : {A : Type 0} → (A → Type 0) → Option A → Type 0
IfSome P none = Unit {0}
IfSome P (some a) = P a

-- A span digest that some byte of shows to be filled in.
abbrev pub IsFilled : ArgumentSpanDigest → Type 0
IsFilled d = all (λ b. b == 0) d.digest ≡ false

pub record IsNode (n : UserArgumentNodeData) : Type 0 where
  pub named : IsId n.id
  pub subject : IsSubject n.proposition.subject
  pub object : IfSome IsObject n.proposition.object
  pub confident : n.confidence ≤ confidence_limit
  pub ruled : IsRule n.parser_rule
  pub spanned : IfSome IsFilled n.span_digest

pub record IsRelation (r : ArgumentRelation) : Type 0 where
  pub named : IsId r.id
  pub from_id : IsId r.from
  pub to_id : IsId r.to
  pub confident : r.confidence ≤ confidence_limit
  pub ruled : IsRule r.parser_rule
  pub proper : text_eq r.from r.to ≡ false

pub validate_rule_iff : (r : ParserRuleId) → (validate_rule r ≡ ok tt) ↔ IsRule r
unfolding validate_rule
validate_rule_iff r = ground arith

pub validate_subject_iff : (s : ArgumentSubject) → (validate_subject s ≡ ok tt) ↔ IsSubject s
unfolding validate_subject
validate_subject_iff (subject_topic id) = ground arith
validate_subject_iff unresolved_subject = ground arith
validate_subject_iff external_subject = ground arith
validate_subject_iff subject_dialogue = ground arith
validate_subject_iff no_topic = ground arith

pub validate_object_iff : (s : ArgumentObject) → (validate_object s ≡ ok tt) ↔ IsObject s
unfolding validate_object
validate_object_iff (object_topic id) = ground arith
validate_object_iff (object_fact id) = ground arith
validate_object_iff unresolved_object = ground arith
validate_object_iff external_object = ground arith
validate_object_iff evidence = ground arith
validate_object_iff definition = ground arith

pub validate_some_iff :
    {A : Type 0} (f : A → Accepted (Unit {0})) (P : A → Type 0) (o : Option A)
    → ((a : A) → (f a ≡ ok tt) ↔ P a)
    → (validate_some f o ≡ ok tt) ↔ IfSome P o
validate_some_iff f P none h = (λ _. tt, λ _. refl)
validate_some_iff f P (some a) h = h a

pub validate_span_iff : (d : ArgumentSpanDigest) → (validate_span d ≡ ok tt) ↔ IsFilled d
unfolding validate_span
validate_span_iff d = ground arith

pub validate_node_iff : (n : UserArgumentNodeData) → (validate_node n ≡ ok tt) ↔ IsNode n
unfolding validate_node validate_proposition
validate_node_iff n =
    let subject = validate_subject_iff n.proposition.subject in
    let object =
      validate_some_iff validate_object IsObject n.proposition.object validate_object_iff in
    let spanned = validate_some_iff validate_span IsFilled n.span_digest validate_span_iff in
    ground (arith, subject, object, spanned, validate_rule_iff n.parser_rule)

pub validate_argument_relation_iff :
    (r : ArgumentRelation) → (validate_argument_relation r ≡ ok tt) ↔ IsRelation r
unfolding validate_argument_relation
validate_argument_relation_iff r = ground (arith, validate_rule_iff r.parser_rule)
