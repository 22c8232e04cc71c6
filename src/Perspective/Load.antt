-- ===== src/Perspective/Load.antt =====
-- The loading of a registry of curated facts, and the other selections from it, of
-- qxfx0-semantic/src/fact_model.rs. What the registry is loaded against are the ids of the known
-- concepts and the names of the typed relations.
use qx_fx0rust.Base.{
  ℕ, Bool, false, not, ◌||◌, Option, none, some, List, [], ◌∷◌, ltb, Result, ok, err, ◌>>=◌, ◌>>◌,
  fail_if,
}
use qx_fx0rust.Base.Text.{Text, text_eq, is_blank}
use qx_fx0rust.Base.Order.{text_ord}
use qx_fx0rust.Base.OrdMap.{get, insert, contains_key}
use qx_fx0rust.Base.Distinct.{contains}
use qx_fx0rust.Perspective.Facts.{
  FactCondition, counters, follows_from, FactRecord, FactRegistry, FactRegistryError, unknown_fact,
  not_curated, outside_validity_window, missing_provenance, duplicate_fact_id, unknown_concept,
  unknown_relation, empty_fact_id, confidence_exceeded, duplicate_binding, unbound_predicate,
  is_curated, select,
}

abbrev pub Loaded : Type 0 → Type 0
Loaded A = Result FactRegistryError A

-- `FactRegistry` with its bindings
pub record LoadedRegistry : Type 0 where
  pub records : FactRegistry
  pub predicate_facts : List (Text × Text)

-- `FactRecord::validate_shape`
abbrev pub fact_confidence_limit : ℕ
fact_confidence_limit = 10000

unfoldable pub validate_shape : FactRecord → Loaded (Unit {0})
validate_shape r = do
  fail_if (is_blank r.id) empty_fact_id
  fail_if (is_blank r.source_pack || is_blank r.source_ref) (missing_provenance r.id)
  fail_if (ltb fact_confidence_limit r.confidence_basis_points) (confidence_exceeded r.id)

-- The loop over the subject and the object of a record.
abbrev pub check_concepts : List Text → Text → List Text → Loaded (Unit {0})
check_concepts known id [] = ok tt
check_concepts known id (c ∷ concepts) = do
  fail_if (not (contains text_eq known c)) (unknown_concept id c)
  check_concepts known id concepts

-- The loops of `FactRegistry::load`: over the records, over the bindings, and over the conditions
-- of what was inserted.
unfoldable pub load_records :
    List Text → List Text → FactRegistry → List FactRecord → Loaded FactRegistry
load_records known relations registry [] = ok registry
load_records known relations registry (r ∷ records) = do
  validate_shape r
  fail_if (contains_key r.id registry) (duplicate_fact_id r.id)
  check_concepts known r.id (r.subject ∷ r.object ∷ [])
  fail_if (not (contains text_eq relations r.relation)) (unknown_relation r.id r.relation)
  load_records known relations (insert r.id r registry) records

unfoldable pub load_bindings :
    FactRegistry → List (Text × Text) → List (Text × Text) → Loaded (List (Text × Text))
load_bindings registry bound [] = ok bound
load_bindings registry bound ((predicate_ref, fact_id) ∷ bindings) = do
  fail_if (not (contains_key fact_id registry)) (unknown_fact fact_id)
  fail_if (contains_key predicate_ref bound) (duplicate_binding predicate_ref)
  load_bindings registry (insert predicate_ref fact_id bound) bindings

abbrev pub condition_fact : FactCondition → Text
condition_fact (counters id) = id
condition_fact (follows_from id) = id

unfoldable pub check_conditions : FactRegistry → List FactCondition → Loaded (Unit {0})
check_conditions registry [] = ok tt
check_conditions registry (c ∷ conditions) = do
  fail_if (not (contains_key (condition_fact c) registry)) (unknown_fact (condition_fact c))
  check_conditions registry conditions

unfoldable pub check_dependencies : FactRegistry → FactRegistry → Loaded (Unit {0})
check_dependencies registry [] = ok tt
check_dependencies registry ((id, r) ∷ records) = do
  check_conditions registry r.conditions
  check_dependencies registry records

-- `FactRegistry::load`
unfoldable pub load :
    List FactRecord → List (Text × Text) → List Text → List Text → Loaded LoadedRegistry
load records predicate_facts known relations = do
  registry ← load_records known relations [] records
  bound ← load_bindings registry [] predicate_facts
  check_dependencies registry registry
  ok (record { records = registry; predicate_facts = bound })

-- `FactRegistry::select_at`, by the record that there is.
abbrev pub is_outside : FactRecord → Text → Bool
is_outside r as_of =
    (elim r.valid_from [ none ↦ false | some from ↦ text_ord.lt as_of from ])
    || (elim r.valid_to [ none ↦ false | some to ↦ not (text_ord.lt as_of to) ])

abbrev pub select_record_at : Text → Text → Option FactRecord → Loaded FactRecord
select_record_at fact_id as_of none = err (unknown_fact fact_id)
select_record_at fact_id as_of (some r) = do
  fail_if (not (is_curated r.status)) (not_curated r.id)
  fail_if (is_outside r as_of) (outside_validity_window fact_id)
  ok r

unfoldable pub select_at : LoadedRegistry → Text → Text → Loaded FactRecord
select_at registry fact_id as_of = select_record_at fact_id as_of (get fact_id registry.records)

-- `FactRegistry::select_by_predicate`
unfoldable pub select_by_predicate : LoadedRegistry → Text → Loaded FactRecord
select_by_predicate registry predicate_ref = elim (get predicate_ref registry.predicate_facts) [
  | none ↦ err (unbound_predicate predicate_ref)
  | some fact_id ↦ select registry.records fact_id
]
