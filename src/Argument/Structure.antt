-- ===== src/Argument/Structure.antt =====
-- What the checks of qxfx0-types/src/user_argument.rs accept.
use qx_fx0rust.Base.{
  ℕ, ◌≤◌, ◌≡◌, ◌↔◌, true, false, not, List, [], ◌∷◌, length, All, ok, arith, guard_iff, step_iff,
  both_iff, limit_iff, version_iff,
}
use qx_fx0rust.Base.Text.{Text, text_eq, text_eq_comm}
use qx_fx0rust.Base.Distinct.{
  contains, fresh, Distinct, fresh-Distinct, insert_all, contains-insert_all,
}
use qx_fx0rust.Argument.{
  UserArgumentNode, ArgumentRelation, ParseDisposition, parsed, partial, abstained, ParseOmission,
  validate_rule, validate_node, validate_omission, node_data,
}
use qx_fx0rust.Argument.Parts.{
  IsRule, IfSome, IsNode, IsRelation, validate_rule_iff, validate_some_iff, validate_node_iff,
  validate_argument_relation_iff,
}
use qx_fx0rust.Argument.Receipt.{
  UserArgumentParseReceipt, user_argument_parse_version, nodes_limit, relations_limit,
  omissions_limit, max_typed_evidence_items, Tuple, tuple_of, tuple_eq, evidence_items,
  is_consistent, check_argument_nodes, check_argument_relations, check_omissions,
  check_argument_parts, validate_argument,
}

abbrev pub argument_ids : List UserArgumentNode → List Text
argument_ids [] = []
argument_ids (n ∷ nodes) = (node_data n).id ∷ argument_ids nodes

abbrev pub relation_ids : List ArgumentRelation → List Text
relation_ids [] = []
relation_ids (r ∷ relations) = r.id ∷ relation_ids relations

abbrev pub relation_tuples : List ArgumentRelation → List Tuple
relation_tuples [] = []
relation_tuples (r ∷ relations) = tuple_of r ∷ relation_tuples relations

-- A relation between two nodes of the argument.
abbrev pub Relates : List Text → ArgumentRelation → Type 0
Relates ids r =
    IsRelation r × (contains text_eq ids r.from ≡ true) × (contains text_eq ids r.to ≡ true)

-- A parse says that it is whole, in part, or none, and its nodes and omissions bear that out.
abbrev pub Disposed : ParseDisposition → ℕ → ℕ → ℕ → Type 0
Disposed parsed nodes relations omissions = (1 ≤ nodes) × (omissions ≡ 0)
Disposed partial nodes relations omissions = (1 ≤ nodes) × (1 ≤ omissions)
Disposed abstained nodes relations omissions = (nodes ≡ 0) × (relations ≡ 0) × (1 ≤ omissions)

-- Proper parts, of which none comes twice, with relations between the nodes.
pub record IsLinked (r : UserArgumentParseReceipt) : Type 0 where
  pub nodes : All (λ n. IsNode (node_data n)) r.nodes
  pub distinct : Distinct text_eq (argument_ids r.nodes)
  pub relations : All (Relates (argument_ids r.nodes)) r.relations
  pub relations_distinct : Distinct text_eq (relation_ids r.relations)
  pub tuples_distinct : Distinct tuple_eq (relation_tuples r.relations)
  pub omissions : All (λ o. IfSome IsRule o.parser_rule) r.omissions

-- The receipts that the structure checks are to accept.
pub record IsArgument (r : UserArgumentParseReceipt) : Type 0 where
  pub version : r.version ≡ user_argument_parse_version
  pub few_nodes : length r.nodes ≤ nodes_limit
  pub few_relations : length r.relations ≤ relations_limit
  pub few_omissions : length r.omissions ≤ omissions_limit
  pub few_rules : length (evidence_items r) ≤ max_typed_evidence_items
  pub disposed : Disposed r.disposition (length r.nodes) (length r.relations) (length r.omissions)
  pub linked : IsLinked r

is_consistent-Disposed :
    (d : ParseDisposition) (n m k : ℕ) → (not (is_consistent d n m k) ≡ false) ↔ Disposed d n m k
is_consistent-Disposed parsed n m k = ground arith
is_consistent-Disposed partial n m k = ground arith
is_consistent-Disposed abstained n m k = ground arith

tuple_eq_comm : (a b : Tuple) → tuple_eq a b ≡ tuple_eq b a
tuple_eq_comm a b = ground (arith, text_eq_comm a.0 b.0, text_eq_comm a.1 b.1)

nodes-ok :
    (seen : List Text) (nodes : List UserArgumentNode) (ids : List Text)
    → (check_argument_nodes seen nodes ≡ ok ids) ↔ (
        (All (λ n. IsNode (node_data n)) nodes × (fresh text_eq seen (argument_ids nodes) ≡ true))
        × (ids ≡ insert_all text_eq seen (argument_ids nodes)))
unfolding check_argument_nodes
nodes-ok seen [] ids = ground arith
nodes-ok seen (n ∷ nodes) ids =
    let valid = validate_node_iff (node_data n) in
    let rest = nodes-ok ((node_data n).id ∷ seen) nodes ids in
    let tail =
      guard_iff (contains text_eq seen (node_data n).id ≡ false) _
        (contains text_eq seen (node_data n).id) _ _ ids (λ h. h, λ h. h) rest in
    let whole = both_iff (IsNode (node_data n)) _ (validate_node (node_data n)) _ ids valid tail in
    (
      λ h. let w = whole.0 h in (((w.0, w.1.1.0.0), ground (arith, w.1.0, w.1.1.0.1)), w.1.1.1),
      λ h. whole.1 (h.0.0.0, (ground (arith, h.0.1), ((h.0.0.1, ground (arith, h.0.1)), h.1))),
    )

relations-ok :
    (ids seen : List Text) (tuples : List Tuple) (relations : List ArgumentRelation)
    → (check_argument_relations (insert_all text_eq [] ids) seen tuples relations ≡ ok tt) ↔ (
        All (Relates ids) relations
        × (fresh text_eq seen (relation_ids relations) ≡ true)
        × (fresh tuple_eq tuples (relation_tuples relations) ≡ true))
unfolding check_argument_relations
relations-ok ids seen tuples [] = ground arith
relations-ok ids seen tuples (r ∷ relations) = ground (
  arith,
  validate_argument_relation_iff r,
  relations-ok ids (r.id ∷ seen) (tuple_of r ∷ tuples) relations,
  contains-insert_all text_eq [] ids r.from,
  contains-insert_all text_eq [] ids r.to,
)

omissions-ok :
    (omissions : List ParseOmission)
    → (check_omissions omissions ≡ ok tt) ↔ All (λ o. IfSome IsRule o.parser_rule) omissions
unfolding check_omissions validate_omission
omissions-ok [] = ground arith
omissions-ok (o ∷ omissions) =
    both_iff (IfSome IsRule o.parser_rule) (All (λ o. IfSome IsRule o.parser_rule) omissions)
      (validate_omission o) (check_omissions omissions) tt
      (validate_some_iff validate_rule IsRule o.parser_rule validate_rule_iff)
      (omissions-ok omissions)

check_argument_parts-IsLinked :
    (r : UserArgumentParseReceipt) → (check_argument_parts r ≡ ok tt) ↔ IsLinked r
check_argument_parts-IsLinked r =
    let ids = argument_ids r.nodes in
    let distinct = fresh-Distinct text_eq text_eq_comm ids in
    let once = fresh-Distinct text_eq text_eq_comm (relation_ids r.relations) in
    let tuples = fresh-Distinct tuple_eq tuple_eq_comm (relation_tuples r.relations) in
    let relations =
      both_iff
        (All (Relates ids) r.relations
          × (fresh text_eq [] (relation_ids r.relations) ≡ true)
          × (fresh tuple_eq [] (relation_tuples r.relations) ≡ true))
        _ (check_argument_relations (insert_all text_eq [] ids) [] [] r.relations) _ tt
        (relations-ok ids [] [] r.relations) (omissions-ok r.omissions) in
    let whole =
      step_iff (All (λ n. IsNode (node_data n)) r.nodes × (fresh text_eq [] ids ≡ true)) _
        (check_argument_nodes [] r.nodes) _ (insert_all text_eq [] ids) tt (nodes-ok [] r.nodes)
        relations in
    (
      λ h.
          let w = whole.0 h in
          let links = w.1.0 in
          record {
            nodes = w.0.0;
            distinct = distinct.0 w.0.1;
            relations = links.0;
            relations_distinct = once.0 links.1;
            tuples_distinct = tuples.0 links.2;
            omissions = w.1.1;
          },
      λ d. whole.1 (
        (d.nodes, distinct.1 d.distinct),
        ((d.relations, once.1 d.relations_distinct, tuples.1 d.tuples_distinct), d.omissions),
      ),
    )

pub validate_argument-IsArgument :
    (r : UserArgumentParseReceipt) → (validate_argument r ≡ ok tt) ↔ IsArgument r
unfolding validate_argument
validate_argument-IsArgument r =
    let n = length r.nodes in
    let m = length r.relations in
    let k = length r.omissions in
    let parts = check_argument_parts-IsLinked r in
    let disposed =
      guard_iff (Disposed r.disposition n m k) _ (not (is_consistent r.disposition n m k)) _ _ tt
        (is_consistent-Disposed r.disposition n m k) parts in
    let rules = limit_iff (length (evidence_items r)) max_typed_evidence_items _ _ _ tt disposed in
    let omissions = limit_iff k omissions_limit _ _ _ tt rules in
    let relations = limit_iff m relations_limit _ _ _ tt omissions in
    let nodes = limit_iff n nodes_limit _ _ _ tt relations in
    let whole = version_iff r.version user_argument_parse_version _ _ _ tt nodes in
    (
      λ h.
          let w = whole.0 h in
          let rest = w.1.1.1.1 in
          record {
            version = w.0;
            few_nodes = w.1.0;
            few_relations = w.1.1.0;
            few_omissions = w.1.1.1.0;
            few_rules = rest.0;
            disposed = rest.1.0;
            linked = rest.1.1;
          },
      λ d. whole.1 (
        d.version,
        (d.few_nodes, (d.few_relations, (d.few_omissions, (d.few_rules, (d.disposed, d.linked))))),
      ),
    )
