-- ===== src/Argument/Spec.antt =====
-- How the rules of qxfx0-pipeline/src/user_argument.rs describe the argument that they read.
use qx_fx0rust.Base.{ℕ, List}
use qx_fx0rust.Base.Text.{Text}
use qx_fx0rust.Argument.{
  ArgumentSourceClass, ArgumentPolarity, ArgumentPredicate, ArgumentRelationKind, ParseDisposition,
  ParseOmissionReason,
}

-- `NodeKind`, `SubjectSpec` and `ObjectSpec`
pub data NodeKind : Type 0 where
  as_claim as_premise as_conclusion as_qualifier as_counterclaim : NodeKind

pub data SubjectSpec : Type 0 where
  about_topic : Text → SubjectSpec
  about_unresolved about_external : SubjectSpec

pub data ObjectSpec : Type 0 where
  to_nothing : ObjectSpec
  to_topic : Text → ObjectSpec
  to_evidence to_definition : ObjectSpec

-- `NodeSpec`, `RelationSpec` and `RuleSpec`
pub record NodeSpec : Type 0 where
  pub id : Text
  pub kind : NodeKind
  pub subject : SubjectSpec
  pub predicate : ArgumentPredicate
  pub object : ObjectSpec
  pub source : ArgumentSourceClass
  pub polarity : ArgumentPolarity
  pub confidence : ℕ

pub record RelationSpec : Type 0 where
  pub from : Text
  pub to : Text
  pub kind : ArgumentRelationKind
  pub confidence : ℕ

pub record RuleSpec : Type 0 where
  pub id : Text
  pub disposition : ParseDisposition
  pub nodes : List NodeSpec
  pub relations : List RelationSpec
  pub omissions : List ParseOmissionReason

-- A row of the tables, in the order of the fields.
abbrev pub node_spec :
    Text
    → NodeKind
    → SubjectSpec
    → ArgumentPredicate
    → ObjectSpec
    → ArgumentSourceClass
    → ArgumentPolarity
    → ℕ
    → NodeSpec
node_spec id kind subject predicate object source polarity confidence = record {
  id = id;
  kind = kind;
  subject = subject;
  predicate = predicate;
  object = object;
  source = source;
  polarity = polarity;
  confidence = confidence;
}

abbrev pub relation_spec : Text → Text → ArgumentRelationKind → ℕ → RelationSpec
relation_spec from to kind confidence = record {
  from = from;
  to = to;
  kind = kind;
  confidence = confidence;
}

abbrev pub rule_spec :
    Text
    → ParseDisposition
    → List NodeSpec
    → List RelationSpec
    → List ParseOmissionReason
    → RuleSpec
rule_spec id disposition nodes relations omissions = record {
  id = id;
  disposition = disposition;
  nodes = nodes;
  relations = relations;
  omissions = omissions;
}
