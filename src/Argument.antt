-- ===== src/Argument.antt =====
-- Observation of a user's argument: the parse receipts of qxfx0-types/src/user_argument.rs, and what
-- is asked of their parts. An id type over a string is the text in it.
pub mod Receipt
pub mod Parts
pub mod Structure
pub mod Digest
pub mod Bytes
pub mod Tamper
pub mod Spec
pub mod Rules
pub mod Parse
pub mod Follows
pub mod Parsed
use qx_fx0rust.Base.{
  ℕ, suc, ◌+◌, Bool, true, false, not, ◌&&◌, ◌||◌, Option, none, some, List, [], ◌∷◌, ltb, leb,
  ◌==◌, length, all, any, is_empty, Result, ok, err, ◌>>=◌, ◌>>◌, fail_if,
}
use qx_fx0rust.Base.Text.{Text, codes, text_eq, is_control, is_whitespace, byte_len}

-- `ParserRuleId`
pub record ParserRuleId : Type 0 where
  pub id : Text
  pub version : ℕ

-- `ArgumentSourceClass`, `ArgumentPolarity` and `ArgumentPredicate`
pub data ArgumentSourceClass : Type 0 where
  direct quoted reported hypothetical unknown_source : ArgumentSourceClass

pub data ArgumentPolarity : Type 0 where
  affirmed negated unknown_polarity : ArgumentPolarity

pub data ArgumentPredicate : Type 0 where
  is_a defines has_property causes enables prevents requires permits : ArgumentPredicate
  prohibits values justifies follows_from contradicts needs_evidence : ArgumentPredicate
  needs_definition : ArgumentPredicate

-- `ArgumentSubject` and `ArgumentObject`
pub data ArgumentSubject : Type 0 where
  subject_topic : Text → ArgumentSubject
  unresolved_subject external_subject subject_dialogue no_topic : ArgumentSubject

pub data ArgumentObject : Type 0 where
  object_topic object_fact : Text → ArgumentObject
  unresolved_object external_object evidence definition : ArgumentObject

-- `NormalizedArgumentProposition`
pub record NormalizedArgumentProposition : Type 0 where
  pub subject : ArgumentSubject
  pub predicate : ArgumentPredicate
  pub object : Option ArgumentObject

-- `ArgumentSpanDigestScope` and `ArgumentSpanDigest`
pub data ArgumentSpanDigestScope : Type 0 where
  reviewed_gold service_keyed : ArgumentSpanDigestScope

pub record ArgumentSpanDigest : Type 0 where
  pub scope : ArgumentSpanDigestScope
  pub digest : List ℕ

-- `UserArgumentNodeData`; a `ParseConfidence` is its basis points.
pub record UserArgumentNodeData : Type 0 where
  pub id : Text
  pub proposition : NormalizedArgumentProposition
  pub source : ArgumentSourceClass
  pub polarity : ArgumentPolarity
  pub confidence : ℕ
  pub parser_rule : ParserRuleId
  pub span_digest : Option ArgumentSpanDigest

-- `UserArgumentNode`; its wrappers only keep the kinds apart.
pub data UserArgumentNode : Type 0 where
  claim premise conclusion qualifier counterclaim : UserArgumentNodeData → UserArgumentNode

-- `ArgumentRelationKind` and `ArgumentRelation`
pub data ArgumentRelationKind : Type 0 where
  supports attacks qualifies rebuts undercuts entails : ArgumentRelationKind
  contradicts_node requests_evidence requests_definition : ArgumentRelationKind

pub record ArgumentRelation : Type 0 where
  pub id : Text
  pub from : Text
  pub to : Text
  pub kind : ArgumentRelationKind
  pub confidence : ℕ
  pub parser_rule : ParserRuleId

-- `ParseDisposition`, `ParseOmissionReason` and `ParseOmission`
pub data ParseDisposition : Type 0 where
  parsed partial abstained : ParseDisposition

pub data ParseOmissionReason : Type 0 where
  ambiguous_attachment unresolved_proposition quoted_position_ambiguity : ParseOmissionReason
  unsupported_relation negation_ambiguity insufficient_evidence : ParseOmissionReason

pub record ParseOmission : Type 0 where
  pub reason : ParseOmissionReason
  pub parser_rule : Option ParserRuleId

-- `UserArgumentValidationError`; the source's static names are their code points.
pub data UserArgumentValidationError : Type 0 where
  unsupported_version confidence_out_of_range : ℕ → UserArgumentValidationError
  invalid_id bound_exceeded : Text → UserArgumentValidationError
  duplicate_node duplicate_relation self_relation : Text → UserArgumentValidationError
  invalid_disposition : ParseDisposition → UserArgumentValidationError
  invalid_parser_rule_version invalid_span_digest : UserArgumentValidationError
  duplicate_relation_tuple unknown_node_reference digest_mismatch : UserArgumentValidationError

abbrev pub Accepted : Type 0 → Type 0
Accepted A = Result UserArgumentValidationError A

-- `MAX_ID_BYTES`, and `ParseConfidence::MAX_BASIS_POINTS`
abbrev pub id_bytes_limit : ℕ
id_bytes_limit = 256

abbrev pub confidence_limit : ℕ
confidence_limit = 10000

-- `is_disallowed_id_char`: control, space and format characters
abbrev pub between : ℕ → ℕ → ℕ → Bool
between low high c = leb low c && leb c high

unfoldable pub is_disallowed_id_char : ℕ → Bool
is_disallowed_id_char c =
    is_control c
    || (is_whitespace c
        || ((c == 0x00ad)
            || (between 0x0600 0x0605 c
                || ((c == 0x061c)
                    || ((c == 0x06dd)
                        || ((c == 0x070f)
                            || (between 0x0890 0x0891 c
                                || ((c == 0x08e2)
                                    || ((c == 0x180e)
                                        || (between 0x200b 0x200f c
                                            || (between 0x202a 0x202e c
                                                || (between 0x2060 0x206f c
                                                    || ((c == 0xfeff)
                                                        || (between 0xfff9 0xfffb c
                                                            || ((c == 0x110bd)
                                                            || ((c == 0x110cd)
                                                            || (between 0x13430 0x1343f c
                                                            || (between 0x1bca0 0x1bca3 c
                                                            || (between 0x1d173 0x1d17a c
                                                            || ((c == 0xe0001)
                                                            || between 0xe0020 0xe007f
                                                            c))))))))))))))))))))

-- `validate_id`
unfoldable pub is_bad_id : Text → Bool
is_bad_id value =
    is_empty value || (ltb id_bytes_limit (byte_len value) || any is_disallowed_id_char value)

abbrev pub check_id : Text → Text → Accepted (Unit {0})
check_id field value = fail_if (is_bad_id value) (invalid_id field)

-- `ParserRuleId::validate`
unfoldable pub validate_rule : ParserRuleId → Accepted (Unit {0})
validate_rule r = do
  check_id (codes "parser_rule.id") r.id
  fail_if (r.version == 0) invalid_parser_rule_version

-- `ParseConfidence::validate`
abbrev pub validate_confidence : ℕ → Accepted (Unit {0})
validate_confidence n = fail_if (ltb confidence_limit n) (confidence_out_of_range n)

-- `validate_subject` and `validate_object`
unfoldable pub validate_subject : ArgumentSubject → Accepted (Unit {0})
validate_subject (subject_topic id) = check_id (codes "proposition.canonical_topic_id") id
validate_subject other = ok tt

unfoldable pub validate_object : ArgumentObject → Accepted (Unit {0})
validate_object (object_topic id) = check_id (codes "proposition.canonical_topic_id") id
validate_object (object_fact id) = check_id (codes "proposition.fact_id") id
validate_object other = ok tt

-- `if let Some(…) { ….validate()?; }`
abbrev pub validate_some : {A : Type 0} → (A → Accepted (Unit {0})) → Option A → Accepted (Unit {0})
validate_some f none = ok tt
validate_some f (some a) = f a

-- `NormalizedArgumentProposition::validate`
unfoldable pub validate_proposition : NormalizedArgumentProposition → Accepted (Unit {0})
validate_proposition p = do validate_subject p.subject; validate_some validate_object p.object

-- `ArgumentSpanDigest::validate`
unfoldable pub validate_span : ArgumentSpanDigest → Accepted (Unit {0})
validate_span d = fail_if (all (λ b. b == 0) d.digest) invalid_span_digest

-- `UserArgumentNodeData::validate`
unfoldable pub validate_node : UserArgumentNodeData → Accepted (Unit {0})
validate_node n = do
  check_id (codes "node.id") n.id
  validate_proposition n.proposition
  validate_confidence n.confidence
  validate_rule n.parser_rule
  validate_some validate_span n.span_digest

-- `ArgumentRelation::validate`
unfoldable pub validate_argument_relation : ArgumentRelation → Accepted (Unit {0})
validate_argument_relation r = do
  check_id (codes "relation.id") r.id
  check_id (codes "node.id") r.from
  check_id (codes "node.id") r.to
  validate_confidence r.confidence
  validate_rule r.parser_rule
  fail_if (text_eq r.from r.to) (self_relation r.from)

-- `ParseOmission::validate`
unfoldable pub validate_omission : ParseOmission → Accepted (Unit {0})
validate_omission o = validate_some validate_rule o.parser_rule

-- `UserArgumentNode::data` and `kind_tag`
abbrev pub node_data : UserArgumentNode → UserArgumentNodeData
node_data (claim d) = d
node_data (premise d) = d
node_data (conclusion d) = d
node_data (qualifier d) = d
node_data (counterclaim d) = d

abbrev pub kind_tag : UserArgumentNode → ℕ
kind_tag (claim d) = 1
kind_tag (premise d) = 2
kind_tag (conclusion d) = 3
kind_tag (qualifier d) = 4
kind_tag (counterclaim d) = 5
