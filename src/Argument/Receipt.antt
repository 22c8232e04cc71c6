-- ===== src/Argument/Receipt.antt =====
-- The parse receipts of qxfx0-types/src/user_argument.rs and their structure checks.
use qx_fx0rust.Base.{
  ℕ, Bool, not, ◌&&◌, ◌||◌, List, [], ◌∷◌, ◌++◌, ltb, ◌==◌, length, filter_map, map, ok, ◌>>=◌,
  ◌>>◌, fail_if,
}
use qx_fx0rust.Base.Text.{Text, codes, text_eq}
use qx_fx0rust.Base.Distinct.{contains, to_set}
use qx_fx0rust.Argument.{
  ParserRuleId, UserArgumentNode, ArgumentRelationKind, supports, attacks, qualifies, rebuts,
  undercuts, entails, contradicts_node, requests_evidence, requests_definition, ArgumentRelation,
  ParseDisposition, parsed, partial, abstained, ParseOmission, unsupported_version, bound_exceeded,
  duplicate_node, duplicate_relation, invalid_disposition, duplicate_relation_tuple,
  unknown_node_reference, Accepted, validate_node, validate_argument_relation, validate_omission,
  node_data,
}

-- `UserArgumentParseReceipt`
pub record UserArgumentParseReceipt : Type 0 where
  pub version : ℕ
  pub disposition : ParseDisposition
  pub nodes : List UserArgumentNode
  pub relations : List ArgumentRelation
  pub omissions : List ParseOmission
  pub digest : List ℕ

-- `USER_ARGUMENT_PARSE_VERSION`, `MAX_NODES`, `MAX_RELATIONS`, `MAX_OMISSIONS` and
-- `MAX_TYPED_EVIDENCE_ITEMS`
abbrev pub user_argument_parse_version : ℕ
user_argument_parse_version = 1

abbrev pub nodes_limit : ℕ
nodes_limit = 16

abbrev pub relations_limit : ℕ
relations_limit = 32

abbrev pub omissions_limit : ℕ
omissions_limit = 16

abbrev pub max_typed_evidence_items : ℕ
max_typed_evidence_items = 32

-- `==` on parser rules, on relation kinds and on the tuples of relations
abbrev pub rule_eq : ParserRuleId → ParserRuleId → Bool
rule_eq a b = text_eq a.id b.id && (a.version == b.version)

abbrev pub relation_kind_byte : ArgumentRelationKind → ℕ
relation_kind_byte supports = 0
relation_kind_byte attacks = 1
relation_kind_byte qualifies = 2
relation_kind_byte rebuts = 3
relation_kind_byte undercuts = 4
relation_kind_byte entails = 5
relation_kind_byte contradicts_node = 6
relation_kind_byte requests_evidence = 7
relation_kind_byte requests_definition = 8

abbrev pub Tuple : Type 0
Tuple = Text × Text × ℕ

abbrev pub tuple_of : ArgumentRelation → Tuple
tuple_of r = (r.from, r.to, relation_kind_byte r.kind)

abbrev pub tuple_eq : Tuple → Tuple → Bool
tuple_eq a b = text_eq a.0 b.0 && (text_eq a.1 b.1 && (a.2 == b.2))

-- The parser rules that nodes, relations and omissions refer to.
abbrev pub rules_of : UserArgumentParseReceipt → List ParserRuleId
rules_of r =
    map (λ n. (node_data n).parser_rule) r.nodes
    ++ (map (λ x. x.parser_rule) r.relations ++ filter_map (λ o. o.parser_rule) r.omissions)

-- `evidence_items`
abbrev pub evidence_items : UserArgumentParseReceipt → List ParserRuleId
evidence_items r = to_set rule_eq [] (rules_of r)

-- `validate_disposition`
abbrev pub is_consistent : ParseDisposition → ℕ → ℕ → ℕ → Bool
is_consistent parsed nodes relations omissions = ltb 0 nodes && (omissions == 0)
is_consistent partial nodes relations omissions = ltb 0 nodes && ltb 0 omissions
is_consistent abstained nodes relations omissions =
    (nodes == 0) && ((relations == 0) && ltb 0 omissions)

abbrev pub validate_disposition : ParseDisposition → ℕ → ℕ → ℕ → Accepted (Unit {0})
validate_disposition d nodes relations omissions =
    fail_if (not (is_consistent d nodes relations omissions)) (invalid_disposition d)

-- The loops of `validate_structure`, with the ids and the tuples seen.
unfoldable pub check_argument_nodes : List Text → List UserArgumentNode → Accepted (List Text)
check_argument_nodes node_ids [] = ok node_ids
check_argument_nodes node_ids (n ∷ nodes) = do
  validate_node (node_data n)
  fail_if (contains text_eq node_ids (node_data n).id) (duplicate_node (node_data n).id)
  check_argument_nodes ((node_data n).id ∷ node_ids) nodes

unfoldable pub check_argument_relations :
    List Text → List Text → List Tuple → List ArgumentRelation → Accepted (Unit {0})
check_argument_relations node_ids relation_ids tuples [] = ok tt
check_argument_relations node_ids relation_ids tuples (r ∷ relations) = do
  validate_argument_relation r
  fail_if (contains text_eq relation_ids r.id) (duplicate_relation r.id)
  fail_if (not (contains text_eq node_ids r.from) || not (contains text_eq node_ids r.to))
      unknown_node_reference
  fail_if (contains tuple_eq tuples (tuple_of r)) duplicate_relation_tuple
  check_argument_relations node_ids (r.id ∷ relation_ids) (tuple_of r ∷ tuples) relations

unfoldable pub check_omissions : List ParseOmission → Accepted (Unit {0})
check_omissions [] = ok tt
check_omissions (o ∷ omissions) = do validate_omission o; check_omissions omissions

abbrev pub check_argument_parts : UserArgumentParseReceipt → Accepted (Unit {0})
check_argument_parts r = do
  node_ids ← check_argument_nodes [] r.nodes
  check_argument_relations node_ids [] [] r.relations
  check_omissions r.omissions

-- `UserArgumentParseReceipt::validate_structure`
unfoldable pub validate_argument : UserArgumentParseReceipt → Accepted (Unit {0})
validate_argument r = do
  fail_if (not (r.version == user_argument_parse_version)) (unsupported_version r.version)
  fail_if (ltb nodes_limit (length r.nodes)) (bound_exceeded (codes "nodes"))
  fail_if (ltb relations_limit (length r.relations)) (bound_exceeded (codes "relations"))
  fail_if (ltb omissions_limit (length r.omissions)) (bound_exceeded (codes "omissions"))
  fail_if (ltb max_typed_evidence_items (length (evidence_items r)))
      (bound_exceeded (codes "typed_evidence"))
  validate_disposition r.disposition (length r.nodes) (length r.relations) (length r.omissions)
  check_argument_parts r
