-- ===== src/Perspective/Facts.antt =====
-- The curated facts of qxfx0-semantic/src/fact_model.rs and their selection.
use qx_fx0rust.Base.{
  ℕ, Bool, true, false, ◌||◌, not, Option, none, some, List, Result, ok, err, is_some, fail_if,
  ◌>>◌,
}
use qx_fx0rust.Base.Text.{Text}
use qx_fx0rust.Base.Order.{text_ord}
use qx_fx0rust.Base.OrdMap.{get}

-- `FactKind`
pub data FactKind : Type 0 where
  definition interpretive_claim empirical_claim normative_claim hypothesis : FactKind

-- `FactStatus`
pub data FactStatus : Type 0 where
  curated deprecated retracted draft : FactStatus

-- `FactCondition`; a `FactId` is the text in it.
pub data FactCondition : Type 0 where
  counters follows_from : Text → FactCondition

-- `FactRecord`
pub record FactRecord : Type 0 where
  pub id : Text
  pub subject : Text
  pub relation : Text
  pub object : Text
  pub kind : FactKind
  pub conditions : List FactCondition
  pub confidence_basis_points : ℕ
  pub source_pack : Text
  pub source_ref : Text
  pub valid_from : Option Text
  pub valid_to : Option Text
  pub status : FactStatus

-- The records of a `FactRegistry`, by id; its bindings of predicates stand in Load.
abbrev pub FactRegistry : Type 0
FactRegistry = List (Text × FactRecord)

-- `FactRegistryError`; a message of `Validation` is a case of its own.
pub data FactRegistryError : Type 0 where
  unknown_fact not_curated temporal_validity_required : Text → FactRegistryError
  outside_validity_window missing_provenance duplicate_fact_id : Text → FactRegistryError
  unknown_concept unknown_relation : Text → Text → FactRegistryError
  empty_fact_id : FactRegistryError
  confidence_exceeded duplicate_binding unbound_predicate : Text → FactRegistryError

abbrev pub is_curated : FactStatus → Bool
is_curated curated = true
is_curated other = false

-- `FactRegistry::select` with `select_curated`, by the record that there is.
abbrev select_record : Text → Option FactRecord → Result FactRegistryError FactRecord
select_record fact_id none = err (unknown_fact fact_id)
select_record fact_id (some r) = do
  fail_if (is_some r.valid_from || is_some r.valid_to) (temporal_validity_required fact_id)
  fail_if (not (is_curated r.status)) (not_curated r.id)
  ok r

unfoldable pub select : FactRegistry → Text → Result FactRegistryError FactRecord
select facts fact_id = select_record fact_id (get fact_id facts)
