-- ===== src/Argument/Follows.antt =====
-- What is built from a rule is what the rule describes: `build_receipt` of
-- qxfx0-pipeline/src/user_argument.rs.
use qx_fx0rust.Base.{
  ℕ, ◌+◌, ◌≡◌, refl, sym, ap, subst, ◌∙◌, bind_ok, Option, none, some, ◌++◌, List, [], ◌∷◌, ok,
  arith,
}
use qx_fx0rust.Base.Text.{Text, codes}
use qx_fx0rust.Base.Decimal.{decimal}
use qx_fx0rust.Argument.{
  ArgumentSubject, subject_topic, unresolved_subject, external_subject, ArgumentObject,
  object_topic, evidence, definition, UserArgumentNodeData, NormalizedArgumentProposition, check_id,
  validate_confidence, UserArgumentNode, ArgumentRelation, ParseDisposition, ParseOmissionReason,
  ParseOmission, ParserRuleId, Accepted, node_data, validate_rule, validate_proposition,
  validate_node,
}
use qx_fx0rust.Argument.Receipt.{UserArgumentParseReceipt, validate_argument}
use qx_fx0rust.Argument.Spec.{
  NodeKind, SubjectSpec, about_topic, about_unresolved, about_external, ObjectSpec, to_nothing,
  to_topic, to_evidence, to_definition, NodeSpec, RelationSpec, RuleSpec,
}
use qx_fx0rust.Argument.Parse.{
  checked, new_id, new_rule, new_proposition, new_confidence, build_subject, build_object,
  rule_version, wrapped, named_relation, build_node, build_relation, new_omission, build_receipt,
  collect,
}
use qx_fx0rust.Argument.Tamper.{validate_argument_receipt-new}
use qx_fx0rust.Argument.Digest.{new_argument, validate_argument_receipt}

-- Two lists of one length, related place by place, with the place.
abbrev pub Pairwise : {A B : Type 0} → (ℕ → A → B → Type 0) → ℕ → List A → List B → Type 0
Pairwise R index [] [] = Unit {0}
Pairwise R index [] (y ∷ ys) = ⊥
Pairwise R index (x ∷ xs) [] = ⊥
Pairwise R index (x ∷ xs) (y ∷ ys) = R index x y × Pairwise R (index + 1) xs ys

abbrev pub rule_of : RuleSpec → ParserRuleId
rule_of spec = record { id = spec.id; version = rule_version }

-- What a proposition is about, as a rule describes it.
abbrev pub subject_of : SubjectSpec → ArgumentSubject
subject_of (about_topic topic) = subject_topic topic
subject_of about_unresolved = unresolved_subject
subject_of about_external = external_subject

abbrev pub object_of : ObjectSpec → Option ArgumentObject
object_of to_nothing = none
object_of (to_topic topic) = some (object_topic topic)
object_of to_evidence = some evidence
object_of to_definition = some definition

-- A node as a rule describes it, with no digest of the text that it was read off.
pub record ReadsNode (rule : ParserRuleId) (spec : NodeSpec) (node : UserArgumentNode)
    : Type 0 where
  pub kind : node ≡ wrapped spec.kind (node_data node)
  pub id : (node_data node).id ≡ spec.id
  pub subject : (node_data node).proposition.subject ≡ subject_of spec.subject
  pub predicate : (node_data node).proposition.predicate ≡ spec.predicate
  pub object : (node_data node).proposition.object ≡ object_of spec.object
  pub source : (node_data node).source ≡ spec.source
  pub polarity : (node_data node).polarity ≡ spec.polarity
  pub confidence : (node_data node).confidence ≡ spec.confidence
  pub ruled : (node_data node).parser_rule ≡ rule
  pub unspanned : (node_data node).span_digest ≡ none

-- A relation as a rule describes it at its place, which numbers its id.
abbrev pub ReadsRelation : RuleSpec → ℕ → RelationSpec → ArgumentRelation → Type 0
ReadsRelation rule index spec relation =
    (relation.id ≡ rule.id ++ (codes ".relation." ++ decimal index))
    × (relation.from ≡ spec.from)
    × (relation.to ≡ spec.to)
    × (relation.kind ≡ spec.kind)
    × (relation.confidence ≡ spec.confidence)
    × (relation.parser_rule ≡ rule_of rule)

abbrev pub ReadsOmission : ParserRuleId → ParseOmissionReason → ParseOmission → Type 0
ReadsOmission rule reason omission = (omission.reason ≡ reason) × (omission.parser_rule ≡ some rule)

-- An argument as a rule describes it, part by part.
pub record Follows (spec : RuleSpec) (r : UserArgumentParseReceipt) : Type 0 where
  pub disposition : r.disposition ≡ spec.disposition
  pub nodes : Pairwise (λ i. ReadsNode (rule_of spec)) 0 spec.nodes r.nodes
  pub relations : Pairwise (ReadsRelation spec) 0 spec.relations r.relations
  pub omissions : Pairwise (λ i. ReadsOmission (rule_of spec)) 0 spec.omissions r.omissions

ok-injective : {A : Type 0} (a b : A) (r : Accepted A) → r ≡ ok a → r ≡ ok b → a ≡ b
ok-injective a b r e h = cc

checked_ok :
    {A : Type 0} (check : A → Accepted (Unit {0})) (a b : A) → checked check a ≡ ok b → a ≡ b
checked_ok check a b e = let (u, h, e1) = bind_ok (check a) _ b e in ok-injective a b (ok a) refl e1

collect-Pairwise :
    {A B : Type 0} (R : ℕ → A → B → Type 0) (f : ℕ → A → Accepted B) (index : ℕ) (xs : List A)
    (ys : List B)
    → ((i : ℕ) (x : A) (y : B) → f i x ≡ ok y → R i x y)
    → collect f index xs ≡ ok ys
    → Pairwise R index xs ys
collect-Pairwise R f index [] [] each e = tt
collect-Pairwise R f index [] (y ∷ ys) each e = absurd (cc)
collect-Pairwise R f index (x ∷ xs) ys each e =
    let (y, first, e1) = bind_ok (f index x) _ ys e in
    let (rest, others, e2) = bind_ok (collect f (index + 1) xs) _ ys e1 in
    subst (Pairwise R index (x ∷ xs)) (ok-injective (y ∷ rest) ys (ok (y ∷ rest)) refl e2)
      (each index x y first, collect-Pairwise R f (index + 1) xs rest each others)

build_subject_lem :
    (spec : SubjectSpec) (subject : ArgumentSubject)
    → build_subject spec ≡ ok subject
    → subject ≡ subject_of spec
build_subject_lem (about_topic topic) subject e = ground arith
build_subject_lem about_unresolved subject e = cc
build_subject_lem about_external subject e = cc

build_object_lem :
    (spec : ObjectSpec) (object : Option ArgumentObject)
    → build_object spec ≡ ok object
    → object ≡ object_of spec
build_object_lem to_nothing object e = cc
build_object_lem (to_topic topic) object e = ground arith
build_object_lem to_evidence object e = cc
build_object_lem to_definition object e = cc

node_data-wrapped : (k : NodeKind) (d : UserArgumentNodeData) → node_data (wrapped k d) ≡ d
node_data-wrapped k d = ground arith

build_node-ReadsNode :
    (rule : ParserRuleId) (spec : NodeSpec) (node : UserArgumentNode)
    → build_node rule spec ≡ ok node
    → ReadsNode rule spec node
unfolding build_node
build_node-ReadsNode rule spec node e =
    let (subject, h1, e1) = bind_ok (build_subject spec.subject) _ node e in
    let (object, h2, e2) = bind_ok (build_object spec.object) _ node e1 in
    let (proposition, h3, e3) = bind_ok (new_proposition subject spec.predicate object) _ node e2 in
    let (id, h4, e4) = bind_ok (new_id (codes "node.id") spec.id) _ node e3 in
    let (confidence, h5, e5) = bind_ok (new_confidence spec.confidence) _ node e4 in
    let (d, h6, e6) = bind_ok (checked validate_node _) _ node e5 in
    let made = ok-injective (wrapped spec.kind d) node (ok (wrapped spec.kind d)) refl e6 in
    let whole =
      ap node_data (sym made)
      ∙ node_data-wrapped spec.kind d
      ∙ sym (checked_ok validate_node _ d h6) in
    let stated =
      ap (λ (n : UserArgumentNodeData). n.proposition) whole
      ∙ sym (checked_ok validate_proposition _ proposition h3) in
    record {
      kind =
          sym made
          ∙ ap (wrapped spec.kind) (sym (node_data-wrapped spec.kind d) ∙ ap node_data made);
      id =
          ap (λ (n : UserArgumentNodeData). n.id) whole
          ∙ sym (checked_ok (check_id (codes "node.id")) spec.id id h4);
      subject =
          ap (λ (p : NormalizedArgumentProposition). p.subject) stated
          ∙ build_subject_lem spec.subject subject h1;
      predicate = ap (λ (p : NormalizedArgumentProposition). p.predicate) stated;
      object =
          ap (λ (p : NormalizedArgumentProposition). p.object) stated
          ∙ build_object_lem spec.object object h2;
      source = ap (λ (n : UserArgumentNodeData). n.source) whole;
      polarity = ap (λ (n : UserArgumentNodeData). n.polarity) whole;
      confidence =
          ap (λ (n : UserArgumentNodeData). n.confidence) whole
          ∙ sym (checked_ok validate_confidence spec.confidence confidence h5);
      ruled = ap (λ (n : UserArgumentNodeData). n.parser_rule) whole;
      unspanned = ap (λ (n : UserArgumentNodeData). n.span_digest) whole;
    }

-- Under an id that is made already, the text of which is of no matter.
read_relation :
    (name : Text) (rule : ParserRuleId) (spec : RelationSpec) (relation : ArgumentRelation)
    → named_relation name rule spec ≡ ok relation
    → (relation.id ≡ name)
      × (relation.from ≡ spec.from)
      × (relation.to ≡ spec.to)
      × (relation.kind ≡ spec.kind)
      × (relation.confidence ≡ spec.confidence)
      × (relation.parser_rule ≡ rule)
read_relation name rule spec relation e = ground arith

build_relation-ReadsRelation :
    (rule : RuleSpec) (index : ℕ) (spec : RelationSpec) (relation : ArgumentRelation)
    → build_relation rule.id (rule_of rule) index spec ≡ ok relation
    → ReadsRelation rule index spec relation
unfolding build_relation
build_relation-ReadsRelation rule index spec relation e =
    let id = rule.id ++ (codes ".relation." ++ decimal index) in
    read_relation id (rule_of rule) spec relation e

new_omission-ReadsOmission :
    (rule : ParserRuleId) (reason : ParseOmissionReason) (omission : ParseOmission)
    → new_omission rule reason ≡ ok omission
    → ReadsOmission rule reason omission
unfolding new_omission
new_omission-ReadsOmission rule reason omission e = ground arith

new_argument-fields :
    (sha256 : List ℕ → List ℕ) (d : ParseDisposition) (nodes : List UserArgumentNode)
    (relations : List ArgumentRelation) (omissions : List ParseOmission)
    (r : UserArgumentParseReceipt)
    → new_argument sha256 d nodes relations omissions ≡ ok r
    → (r.disposition ≡ d)
      × (r.nodes ≡ nodes)
      × (r.relations ≡ relations)
      × (r.omissions ≡ omissions)
unfolding new_argument
new_argument-fields sha256 d nodes relations omissions r e =
    let (u, h, e1) = bind_ok (validate_argument _) _ r e in
    let same = ok-injective _ r (ok _) refl e1 in
    (
      sym (ap (λ (q : UserArgumentParseReceipt). q.disposition) same),
      sym (ap (λ (q : UserArgumentParseReceipt). q.nodes) same),
      sym (ap (λ (q : UserArgumentParseReceipt). q.relations) same),
      sym (ap (λ (q : UserArgumentParseReceipt). q.omissions) same),
    )

-- What `new` makes of its arguments validates.
new_argument-validates :
    (sha256 : List ℕ → List ℕ) (d : ParseDisposition) (nodes : List UserArgumentNode)
    (relations : List ArgumentRelation) (omissions : List ParseOmission)
    (r : UserArgumentParseReceipt)
    → new_argument sha256 d nodes relations omissions ≡ ok r
    → validate_argument_receipt sha256 r ≡ ok tt
new_argument-validates sha256 d nodes relations omissions r e =
    let fields = new_argument-fields sha256 d nodes relations omissions r e in
    (validate_argument_receipt-new sha256 r).1 (cc (e, fields.0, fields.1, fields.2, fields.3))

parts-Follows :
    (spec : RuleSpec) (rule : ParserRuleId) (nodes : List UserArgumentNode)
    (relations : List ArgumentRelation) (omissions : List ParseOmission)
    (r : UserArgumentParseReceipt)
    → rule ≡ rule_of spec
    → collect (λ index node. build_node rule node) 0 spec.nodes ≡ ok nodes
    → collect (build_relation spec.id rule) 0 spec.relations ≡ ok relations
    → collect (λ index reason. new_omission rule reason) 0 spec.omissions ≡ ok omissions
    → (r.disposition ≡ spec.disposition)
      × (r.nodes ≡ nodes)
      × (r.relations ≡ relations)
      × (r.omissions ≡ omissions)
    → Follows spec r
parts-Follows spec rule nodes relations omissions r named h2 h3 h4 fields =
    let own = rule_of spec in
    record {
      disposition = fields.0;
      nodes = rw fields.1 (
          collect-Pairwise (λ i. ReadsNode own) (λ index node. build_node own node) 0 spec.nodes
            nodes (λ i x y. build_node-ReadsNode own x y) (rw named at h2));
      relations = rw fields.2 (
          collect-Pairwise (ReadsRelation spec) (build_relation spec.id own) 0 spec.relations
            relations (build_relation-ReadsRelation spec) (rw named at h3));
      omissions = rw fields.3 (
          collect-Pairwise (λ i. ReadsOmission own) (λ index reason. new_omission own reason) 0
            spec.omissions omissions (λ i x y. new_omission-ReadsOmission own x y)
            (rw named at h4));
    }

-- What is built follows the rule and validates.
pub build_receipt-Follows :
    (sha256 : List ℕ → List ℕ) (spec : RuleSpec) (r : UserArgumentParseReceipt)
    → build_receipt sha256 spec ≡ ok r
    → (validate_argument_receipt sha256 r ≡ ok tt) × Follows spec r
unfolding build_receipt
build_receipt-Follows sha256 spec r e =
    let (rule, h1, e1) = bind_ok (new_rule spec.id rule_version) _ r e in
    let (nodes, h2, e2) = bind_ok (collect _ 0 spec.nodes) _ r e1 in
    let (relations, h3, e3) = bind_ok (collect _ 0 spec.relations) _ r e2 in
    let (omissions, h4, e4) = bind_ok (collect _ 0 spec.omissions) _ r e3 in
    (
      new_argument-validates sha256 spec.disposition nodes relations omissions r e4,
      parts-Follows spec rule nodes relations omissions r
          (sym (checked_ok validate_rule (rule_of spec) rule h1)) h2 h3 h4
          (new_argument-fields sha256 spec.disposition nodes relations omissions r e4),
    )
