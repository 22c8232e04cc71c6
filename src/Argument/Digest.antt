-- ===== src/Argument/Digest.antt =====
-- The digest of a parse receipt: `calculate_digest`, `new` and `validate` of
-- qxfx0-types/src/user_argument.rs. The hash is a parameter.
use qx_fx0rust.Base.{ℕ, not, List, [], ◌∷◌, ◌++◌, ok, ◌>>◌, fail_if}
use qx_fx0rust.Base.Text.{codes, text_eq}
use qx_fx0rust.Base.Encoding.{Writer, put_u16, put_text, put_list, put_option}
use qx_fx0rust.Argument.{
  ParserRuleId, ArgumentSourceClass, direct, quoted, reported, hypothetical, unknown_source,
  ArgumentPolarity, affirmed, negated, unknown_polarity, ArgumentPredicate, is_a, defines,
  has_property, causes, enables, prevents, requires, permits, prohibits, values, justifies,
  follows_from, contradicts, needs_evidence, needs_definition, ArgumentSubject, subject_topic,
  unresolved_subject, external_subject, subject_dialogue, no_topic, ArgumentObject, object_topic,
  object_fact, unresolved_object, external_object, evidence, definition,
  NormalizedArgumentProposition, ArgumentSpanDigestScope, reviewed_gold, service_keyed,
  ArgumentSpanDigest, UserArgumentNodeData, UserArgumentNode, ArgumentRelation, ParseDisposition,
  parsed, partial, abstained, ParseOmissionReason, ambiguous_attachment, unresolved_proposition,
  quoted_position_ambiguity, unsupported_relation, negation_ambiguity, insufficient_evidence,
  ParseOmission, Accepted, digest_mismatch, node_data, kind_tag,
}
use qx_fx0rust.Argument.Receipt.{
  UserArgumentParseReceipt, user_argument_parse_version, relation_kind_byte, validate_argument,
}
use qx_fx0rust.Debate.Digest.{zero_bytes}

-- `RECEIPT_DOMAIN`, with its final zero byte
abbrev pub argument_domain : List ℕ
argument_domain = codes "qxfx0.user-argument-parse.v1" ++ 0 ∷ []

-- `as u8` on the enumerations
abbrev pub source_byte : ArgumentSourceClass → ℕ
source_byte direct = 0
source_byte quoted = 1
source_byte reported = 2
source_byte hypothetical = 3
source_byte unknown_source = 4

abbrev pub argument_polarity_byte : ArgumentPolarity → ℕ
argument_polarity_byte affirmed = 0
argument_polarity_byte negated = 1
argument_polarity_byte unknown_polarity = 2

abbrev pub predicate_byte : ArgumentPredicate → ℕ
predicate_byte is_a = 0
predicate_byte defines = 1
predicate_byte has_property = 2
predicate_byte causes = 3
predicate_byte enables = 4
predicate_byte prevents = 5
predicate_byte requires = 6
predicate_byte permits = 7
predicate_byte prohibits = 8
predicate_byte values = 9
predicate_byte justifies = 10
predicate_byte follows_from = 11
predicate_byte contradicts = 12
predicate_byte needs_evidence = 13
predicate_byte needs_definition = 14

abbrev pub scope_byte : ArgumentSpanDigestScope → ℕ
scope_byte reviewed_gold = 0
scope_byte service_keyed = 1

abbrev pub disposition_byte : ParseDisposition → ℕ
disposition_byte parsed = 0
disposition_byte partial = 1
disposition_byte abstained = 2

abbrev pub omission_reason_byte : ParseOmissionReason → ℕ
omission_reason_byte ambiguous_attachment = 0
omission_reason_byte unresolved_proposition = 1
omission_reason_byte quoted_position_ambiguity = 2
omission_reason_byte unsupported_relation = 3
omission_reason_byte negation_ambiguity = 4
omission_reason_byte insufficient_evidence = 5

-- `hash_parser_rule`
abbrev pub put_rule : Writer ParserRuleId
put_rule r rest = put_text r.id (put_u16 r.version rest)

-- `hash_subject`, `hash_object` and `hash_proposition`
abbrev pub put_subject : Writer ArgumentSubject
put_subject (subject_topic id) rest = 1 ∷ put_text id rest
put_subject unresolved_subject rest = 2 ∷ rest
put_subject external_subject rest = 3 ∷ rest
put_subject subject_dialogue rest = 4 ∷ rest
put_subject no_topic rest = 5 ∷ rest

abbrev pub put_object : Writer ArgumentObject
put_object (object_topic id) rest = 1 ∷ put_text id rest
put_object (object_fact id) rest = 2 ∷ put_text id rest
put_object unresolved_object rest = 3 ∷ rest
put_object external_object rest = 4 ∷ rest
put_object evidence rest = 5 ∷ rest
put_object definition rest = 6 ∷ rest

abbrev pub put_proposition : Writer NormalizedArgumentProposition
put_proposition p rest =
    put_subject p.subject (predicate_byte p.predicate ∷ put_option put_object p.object rest)

-- `hash_node`, and before it the tag of the node's kind
abbrev pub put_span : Writer ArgumentSpanDigest
put_span d rest = scope_byte d.scope ∷ (d.digest ++ rest)

abbrev pub put_node_data : Writer UserArgumentNodeData
put_node_data n rest = put_text n.id (
    put_proposition n.proposition (
      source_byte n.source
      ∷ (argument_polarity_byte n.polarity
          ∷ put_u16 n.confidence
              (put_rule n.parser_rule (put_option put_span n.span_digest rest)))))

abbrev pub put_argument_node : Writer UserArgumentNode
put_argument_node n rest = kind_tag n ∷ put_node_data (node_data n) rest

abbrev pub put_relation : Writer ArgumentRelation
put_relation r rest = put_text r.id (
    put_text r.from (
      put_text r.to
        (relation_kind_byte r.kind ∷ put_u16 r.confidence (put_rule r.parser_rule rest))))

abbrev pub put_omission : Writer ParseOmission
put_omission o rest = omission_reason_byte o.reason ∷ put_option put_rule o.parser_rule rest

-- The bytes that `UserArgumentParseReceipt::calculate_digest` hashes.
unfoldable pub argument_preimage : UserArgumentParseReceipt → List ℕ
argument_preimage r =
    argument_domain
    ++ (r.version
        ∷ (disposition_byte r.disposition
            ∷ put_list put_argument_node r.nodes
                (put_list put_relation r.relations (put_list put_omission r.omissions []))))

unfoldable pub argument_digest : (List ℕ → List ℕ) → UserArgumentParseReceipt → List ℕ
argument_digest sha256 r = sha256 (argument_preimage r)

-- `UserArgumentParseReceipt::new`
unfoldable pub new_argument :
    (List ℕ → List ℕ)
    → ParseDisposition
    → List UserArgumentNode
    → List ArgumentRelation
    → List ParseOmission
    → Accepted UserArgumentParseReceipt
new_argument sha256 disposition nodes relations omissions =
    let receipt : UserArgumentParseReceipt = record {
      version = user_argument_parse_version;
      disposition = disposition;
      nodes = nodes;
      relations = relations;
      omissions = omissions;
      digest = zero_bytes 32;
    } in
    do validate_argument receipt; ok (record receipt { digest = argument_digest sha256 receipt })

-- `UserArgumentParseReceipt::validate`
unfoldable pub validate_argument_receipt :
    (List ℕ → List ℕ) → UserArgumentParseReceipt → Accepted (Unit {0})
validate_argument_receipt sha256 r = do
  validate_argument r
  fail_if (not (text_eq r.digest (argument_digest sha256 r))) digest_mismatch
  ok tt
