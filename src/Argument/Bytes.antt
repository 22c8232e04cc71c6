-- ===== src/Argument/Bytes.antt =====
-- What the parts of a parse receipt are written as can be read back, for those that the types of
-- qxfx0-types/src/user_argument.rs allow.
use qx_fx0rust.Base.{ℕ, ◌^◌, ◌<◌, ◌≡◌, refl, sym, ap, ◌∙◌, List, [], ◌∷◌, length, All, arith}
use qx_fx0rust.Base.Bytes.{append-split}
use qx_fx0rust.Base.Encoding.{
  Splits, FitsU64, AllSome, put_u16-Splits, put_text-Splits, put_option-Splits,
}
use qx_fx0rust.Argument.{
  ParserRuleId, ArgumentSourceClass, ArgumentPolarity, ArgumentPredicate, ArgumentSubject,
  subject_topic, ArgumentObject, object_topic, object_fact, NormalizedArgumentProposition,
  ArgumentSpanDigestScope, ArgumentSpanDigest, UserArgumentNodeData, UserArgumentNode,
  ArgumentRelationKind, ArgumentRelation, ParseDisposition, ParseOmissionReason, ParseOmission,
  node_data, kind_tag,
}
use qx_fx0rust.Argument.Receipt.{UserArgumentParseReceipt, relation_kind_byte}
use qx_fx0rust.Argument.Digest.{
  source_byte, argument_polarity_byte, predicate_byte, scope_byte, disposition_byte,
  omission_reason_byte, put_rule, put_subject, put_object, put_proposition, put_span, put_node_data,
  put_argument_node, put_relation, put_omission,
}

-- What the types of the source guarantee: texts and lists are shorter than 2 ^ 64, an `u16` is below
-- 2 ^ 16, a span digest has 32 bytes.
abbrev pub TypedRule : ParserRuleId → Type 0
TypedRule r = FitsU64 r.id × (r.version < 2 ^ 16)

abbrev pub TypedSubject : ArgumentSubject → Type 0
TypedSubject (subject_topic id) = FitsU64 id
TypedSubject other = Unit {0}

abbrev pub TypedObject : ArgumentObject → Type 0
TypedObject (object_topic id) = FitsU64 id
TypedObject (object_fact id) = FitsU64 id
TypedObject other = Unit {0}

abbrev pub TypedProposition : NormalizedArgumentProposition → Type 0
TypedProposition p = TypedSubject p.subject × AllSome TypedObject p.object

abbrev pub TypedSpan : ArgumentSpanDigest → Type 0
TypedSpan d = length d.digest ≡ 32

pub record IsTypedNode (n : UserArgumentNodeData) : Type 0 where
  pub id : FitsU64 n.id
  pub proposition : TypedProposition n.proposition
  pub confidence : n.confidence < 2 ^ 16
  pub rule : TypedRule n.parser_rule
  pub span : AllSome TypedSpan n.span_digest

pub record IsTypedRelation (r : ArgumentRelation) : Type 0 where
  pub id : FitsU64 r.id
  pub from_id : FitsU64 r.from
  pub to_id : FitsU64 r.to
  pub confidence : r.confidence < 2 ^ 16
  pub rule : TypedRule r.parser_rule

abbrev pub TypedOmission : ParseOmission → Type 0
TypedOmission o = AllSome TypedRule o.parser_rule

pub record IsTypedArgument (r : UserArgumentParseReceipt) : Type 0 where
  pub nodes : (length r.nodes < 2 ^ 64) × All (λ n. IsTypedNode (node_data n)) r.nodes
  pub relations : (length r.relations < 2 ^ 64) × All IsTypedRelation r.relations
  pub omissions : (length r.omissions < 2 ^ 64) × All TypedOmission r.omissions

-- A byte of an enumeration in front tells which it was.
source-split :
    (m n : ArgumentSourceClass) (s t : List ℕ)
    → source_byte m ∷ s ≡ source_byte n ∷ t
    → (m ≡ n) × (s ≡ t)
source-split m n s t e = ground arith

polarity-split :
    (m n : ArgumentPolarity) (s t : List ℕ)
    → argument_polarity_byte m ∷ s ≡ argument_polarity_byte n ∷ t
    → (m ≡ n) × (s ≡ t)
polarity-split m n s t e = ground arith

predicate-split :
    (m n : ArgumentPredicate) (s t : List ℕ)
    → predicate_byte m ∷ s ≡ predicate_byte n ∷ t
    → (m ≡ n) × (s ≡ t)
predicate-split m n s t e = ground arith

scope-split :
    (m n : ArgumentSpanDigestScope) (s t : List ℕ)
    → scope_byte m ∷ s ≡ scope_byte n ∷ t
    → (m ≡ n) × (s ≡ t)
scope-split m n s t e = ground arith

relation_kind-split :
    (m n : ArgumentRelationKind) (s t : List ℕ)
    → relation_kind_byte m ∷ s ≡ relation_kind_byte n ∷ t
    → (m ≡ n) × (s ≡ t)
relation_kind-split m n s t e = ground arith

pub disposition-split :
    (m n : ParseDisposition) (s t : List ℕ)
    → disposition_byte m ∷ s ≡ disposition_byte n ∷ t
    → (m ≡ n) × (s ≡ t)
disposition-split m n s t e = ground arith

reason-split :
    (m n : ParseOmissionReason) (s t : List ℕ)
    → omission_reason_byte m ∷ s ≡ omission_reason_byte n ∷ t
    → (m ≡ n) × (s ≡ t)
reason-split m n s t e = ground arith

put_rule-Splits : Splits TypedRule put_rule
put_rule-Splits x y s t hx hy e =
    let a = put_text-Splits x.id y.id _ _ hx.0 hy.0 e in
    let b = put_u16-Splits x.version y.version s t hx.1 hy.1 a.1 in (rw (a.0, b.0) refl, b.1)

put_subject-Splits : Splits TypedSubject put_subject
put_subject-Splits (subject_topic x) (subject_topic y) s t hx hy e =
    let a = put_text-Splits x y s t hx hy (cc) in (ap subject_topic a.0, a.1)
put_subject-Splits x y s t hx hy e = ground arith

put_object-Splits : Splits TypedObject put_object
put_object-Splits (object_topic x) (object_topic y) s t hx hy e =
    let a = put_text-Splits x y s t hx hy (cc) in (ap object_topic a.0, a.1)
put_object-Splits (object_fact x) (object_fact y) s t hx hy e =
    let a = put_text-Splits x y s t hx hy (cc) in (ap object_fact a.0, a.1)
put_object-Splits x y s t hx hy e = ground arith

put_proposition-Splits : Splits TypedProposition put_proposition
put_proposition-Splits x y s t hx hy e =
    let a = put_subject-Splits x.subject y.subject _ _ hx.0 hy.0 e in
    let b = predicate-split x.predicate y.predicate _ _ a.1 in
    let c =
      put_option-Splits TypedObject put_object put_object-Splits x.object y.object s t hx.1 hy.1
        b.1 in
    (rw (a.0, b.0, c.0) refl, c.1)

put_span-Splits : Splits TypedSpan put_span
put_span-Splits x y s t hx hy e =
    let a = scope-split x.scope y.scope _ _ e in
    let b = append-split x.digest y.digest s t (hx ∙ sym hy) a.1 in (rw (a.0, b.0) refl, b.1)

put_node_data-Splits : Splits IsTypedNode put_node_data
put_node_data-Splits x y s t hx hy e =
    let a = put_text-Splits x.id y.id _ _ hx.id hy.id e in
    let b =
      put_proposition-Splits x.proposition y.proposition _ _ hx.proposition hy.proposition a.1 in
    let c = source-split x.source y.source _ _ b.1 in
    let d = polarity-split x.polarity y.polarity _ _ c.1 in
    let f = put_u16-Splits x.confidence y.confidence _ _ hx.confidence hy.confidence d.1 in
    let g = put_rule-Splits x.parser_rule y.parser_rule _ _ hx.rule hy.rule f.1 in
    let h =
      put_option-Splits TypedSpan put_span put_span-Splits x.span_digest y.span_digest s t hx.span
        hy.span g.1 in
    (rw (a.0, b.0, c.0, d.0, f.0, g.0, h.0) refl, h.1)

kind_and_data :
    (x y : UserArgumentNode) → kind_tag x ≡ kind_tag y → node_data x ≡ node_data y → x ≡ y
kind_and_data x y h k = ground arith

pub put_argument_node-Splits : Splits (λ n. IsTypedNode (node_data n)) put_argument_node
put_argument_node-Splits x y s t hx hy e =
    let tag : kind_tag x ≡ kind_tag y = cc in
    let a =
      put_node_data-Splits (node_data x) (node_data y) s t hx hy
        (append-split (kind_tag x ∷ []) (kind_tag y ∷ []) _ _ refl e).1 in
    (kind_and_data x y tag a.0, a.1)

pub put_relation-Splits : Splits IsTypedRelation put_relation
put_relation-Splits x y s t hx hy e =
    let a = put_text-Splits x.id y.id _ _ hx.id hy.id e in
    let b = put_text-Splits x.from y.from _ _ hx.from_id hy.from_id a.1 in
    let c = put_text-Splits x.to y.to _ _ hx.to_id hy.to_id b.1 in
    let d = relation_kind-split x.kind y.kind _ _ c.1 in
    let f = put_u16-Splits x.confidence y.confidence _ _ hx.confidence hy.confidence d.1 in
    let g = put_rule-Splits x.parser_rule y.parser_rule s t hx.rule hy.rule f.1 in
    (rw (a.0, b.0, c.0, d.0, f.0, g.0) refl, g.1)

pub put_omission-Splits : Splits TypedOmission put_omission
put_omission-Splits x y s t hx hy e =
    let a = reason-split x.reason y.reason _ _ e in
    let b =
      put_option-Splits TypedRule put_rule put_rule-Splits x.parser_rule y.parser_rule s t hx hy
        a.1 in
    (rw (a.0, b.0) refl, b.1)
