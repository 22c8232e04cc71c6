-- ===== src/Graph.antt =====
-- The semantic graph of qxfx0-types/src/atom.rs: atoms, typed edges, and the two indexes that are
-- derived from the edges.
pub mod Relations
pub mod Index
pub mod Validate
use qx_fx0rust.Base.{
  ℕ, suc, Bool, true, false, ◌&&◌, ◌||◌, not, Option, none, some, List, [], ◌∷◌, ◌++◌,
  if◌then◌else◌, length, get_elem?, filter_map, is_empty, ◌==◌, Result, ok, err,
}
use qx_fx0rust.Base.Text.{Text, text_eq, is_blank}
use qx_fx0rust.Base.Order.{text_ord}
use qx_fx0rust.Base.OrdMap.{get, contains_key, entry_push, or_default}
use qx_fx0rust.Graph.Relations.{RelationType}

-- `AtomCategory`
pub data AtomCategory : Type 0 where
  cat_topic cat_concept cat_property cat_object : AtomCategory

-- `Atom`; an `AtomId` is the text in it.
pub record Atom : Type 0 where
  pub id : Text
  pub display : Text
  pub category : AtomCategory

-- `RelationSource`
pub data RelationSource : Type 0 where
  seed_from_predicate curated promoted_substrate : RelationSource
  substrate_extracted_raw llm_discovered : RelationSource

-- `ObjectCase`
pub data ObjectCase : Type 0 where
  case_nominative case_genitive case_dative : ObjectCase
  case_accusative case_instrumental case_prepositional : ObjectCase

-- `Relation`
pub record Relation : Type 0 where
  pub from : Text
  pub to : Text
  pub rel_type : RelationType
  pub object_case : ObjectCase
  pub object_text : Text
  pub verb_override : Option Text
  pub ru_original : Text
  pub en_original : Text
  pub source : RelationSource
  pub topic : Text
  pub rationale : Option Text
  pub counter : Option Text
  pub synthesis : Option Text

-- An index: the positions of edges, by atom.
abbrev pub EdgeIndex : Type 0
EdgeIndex = List (Text × List ℕ)

-- `AtomGraph`
pub record AtomGraph : Type 0 where
  pub atoms : List (Text × Atom)
  pub edges : List Relation
  pub edges_from : EdgeIndex
  pub edges_to : EdgeIndex

-- `AtomGraph::new`
abbrev pub empty_graph : AtomGraph
empty_graph = record { atoms = []; edges = []; edges_from = []; edges_to = [] }

abbrev pub edges_at : List Relation → Option (List ℕ) → List Relation
edges_at edges none = []
edges_at edges (some indices) = filter_map (λ i. get_elem? edges i) indices

-- `relations_from` and `relations_to`
unfoldable pub relations_from : AtomGraph → Text → List Relation
relations_from g atom = edges_at g.edges (get atom g.edges_from)

unfoldable pub relations_to : AtomGraph → Text → List Relation
relations_to g atom = edges_at g.edges (get atom g.edges_to)

-- `add_relation`
unfoldable pub add_relation : AtomGraph → Relation → AtomGraph
add_relation g rel =
    let idx = length g.edges in
    record g {
      edges_from = entry_push rel.from idx g.edges_from;
      edges_to = entry_push rel.to idx g.edges_to;
      edges = g.edges ++ rel ∷ [];
    }

-- The loop of `rebuild_indices` over the edges that are left, from position `idx` on. The loop of
-- `validate` builds its expected indexes in the same way.
unfoldable pub index_edges : ℕ → List Relation → EdgeIndex → EdgeIndex → EdgeIndex × EdgeIndex
index_edges idx [] by_from by_to = (by_from, by_to)
index_edges idx (rel ∷ edges) by_from by_to =
    index_edges (suc idx) edges (entry_push rel.from idx by_from) (entry_push rel.to idx by_to)

-- `rebuild_indices`
unfoldable pub rebuild_indices : AtomGraph → AtomGraph
rebuild_indices g =
    let r = index_edges 0 g.edges [] [] in record g { edges_from = r.0; edges_to = r.1 }

-- What `Relation::validate` and `AtomGraph::validate` report; the source formats them as messages.
pub data GraphViolation : Type 0 where
  key_differs_from_id : Text → Text → GraphViolation
  empty_identity : Text → GraphViolation
  missing_source missing_target : ℕ → Text → GraphViolation
  empty_topic : ℕ → GraphViolation
  ru_original_empty en_original_empty : Relation → GraphViolation
  edges_from_mismatch edges_to_mismatch : GraphViolation

-- `Relation::validate`
unfoldable pub validate_relation : Relation → Result GraphViolation (Unit {0})
validate_relation rel =
    if is_blank rel.ru_original
    then err (ru_original_empty rel)
    else if is_blank rel.en_original
    then err (en_original_empty rel)
    else ok tt

-- `if bad { violations.push(v); }`
abbrev pub report : Bool → GraphViolation → List GraphViolation
report true v = v ∷ []
report false v = []

abbrev pub report_err : Result GraphViolation (Unit {0}) → List GraphViolation
report_err (ok u) = []
report_err (err v) = v ∷ []

-- What the loop of `validate` over the atoms reports.
unfoldable pub check_atoms : List (Text × Atom) → List GraphViolation
check_atoms [] = []
check_atoms ((key, atom) ∷ atoms) =
    report (not (text_eq key atom.id)) (key_differs_from_id key atom.id)
    ++ (report (is_blank key || is_blank atom.display) (empty_identity key) ++ check_atoms atoms)

-- What one turn of the loop over the edges reports.
unfoldable pub check_edge : List (Text × Atom) → ℕ → Relation → List GraphViolation
check_edge atoms index rel =
    report (not (contains_key rel.from atoms)) (missing_source index rel.from)
    ++ (report (not (contains_key rel.to atoms)) (missing_target index rel.to)
        ++ (report (is_blank rel.topic) (empty_topic index) ++ report_err (validate_relation rel)))

unfoldable pub check_edges : List (Text × Atom) → ℕ → List Relation → List GraphViolation
check_edges atoms index [] = []
check_edges atoms index (rel ∷ edges) =
    check_edge atoms index rel ++ check_edges atoms (suc index) edges

-- Equality of the lists of positions, and of indexes, as `BTreeMap` and `Vec` compare.
unfoldable pub positions_eq : List ℕ → List ℕ → Bool
positions_eq [] [] = true
positions_eq [] (j ∷ js) = false
positions_eq (i ∷ is) [] = false
positions_eq (i ∷ is) (j ∷ js) = (i == j) && positions_eq is js

unfoldable pub index_eq : EdgeIndex → EdgeIndex → Bool
index_eq [] [] = true
index_eq [] (b ∷ bs) = false
index_eq (a ∷ as') [] = false
index_eq ((k, is) ∷ as') ((l, js) ∷ bs) = text_eq k l && (positions_eq is js && index_eq as' bs)

-- `AtomGraph::validate`
abbrev outcome : List GraphViolation → Result (List GraphViolation) (Unit {0})
outcome [] = ok tt
outcome (v ∷ vs) = err (v ∷ vs)

unfoldable pub violations_of : AtomGraph → List GraphViolation
violations_of g =
    let expected = index_edges 0 g.edges [] [] in
    check_atoms g.atoms
    ++ (check_edges g.atoms 0 g.edges
        ++ (report (not (index_eq g.edges_from expected.0)) edges_from_mismatch
            ++ report (not (index_eq g.edges_to expected.1)) edges_to_mismatch))

unfoldable pub validate : AtomGraph → Result (List GraphViolation) (Unit {0})
validate g = outcome (violations_of g)
