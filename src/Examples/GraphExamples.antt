-- ===== src/Examples/GraphExamples.antt =====
-- The semantic graph at concrete atoms and edges.
use qx_fx0rust.Base.{inl, inr, ◌≡◌, refl, ◌⊎◌, ◌≢◌, none, [], ◌∷◌, filter, ok, err}
use qx_fx0rust.Base.Text.{Text, codes, text_eq, trim}
use qx_fx0rust.Base.OrdMap.{contains_key}
use qx_fx0rust.Graph.{
  Atom, cat_topic, Relation, case_genitive, curated, AtomGraph, empty_graph, relations_from,
  relations_to, add_relation, validate, violations_of, index_edges,
}
use qx_fx0rust.Graph.Relations.{rel_requires}
use qx_fx0rust.Graph.Index.{relations-filter, add_all, add_all-relations}
use qx_fx0rust.Graph.Validate.{IsValid, EdgeIsSound, validate-IsValid, add_relation-validate}

abbrev atom : Text → Atom
atom name = record { id = name; display = name; category = cat_topic }

abbrev requires : Text → Text → Relation
requires a b = record {
  from = a;
  to = b;
  rel_type = rel_requires;
  object_case = case_genitive;
  object_text = b;
  verb_override = none;
  ru_original = codes "требует";
  en_original = codes "requires";
  source = curated;
  topic = a;
  rationale = none;
  counter = none;
  synthesis = none;
}

abbrev freedom : Text
freedom = codes "freedom"

abbrev will : Text
will = codes "will"

abbrev graph : AtomGraph
graph = record {
  atoms = (freedom, atom freedom) ∷ (will, atom will) ∷ [];
  edges = [];
  edges_from = [];
  edges_to = [];
}

edge_is_sound : EdgeIsSound graph.atoms (requires freedom will)
unfolding contains_key text_eq trim
edge_is_sound = record {
  source_known = refl;
  target_known = refl;
  has_topic = refl;
  has_ru = refl;
  has_en = refl;
}

graph-IsValid : IsValid graph
unfolding index_edges trim
graph-IsValid = record {
  atoms_filed = ((refl, refl, refl), ((refl, refl, refl), tt));
  edges_sound = tt;
  indexed = record { from_right = refl; to_right = refl };
}

graph_validates : validate graph ≡ ok tt
graph_validates = elim (validate-IsValid graph) [
  | inl (accepted, _) ↦ accepted
  | inr (_, _, not_valid) ↦ absurd (not_valid graph-IsValid)
]

validate-IsValid_example :
    ((validate graph ≡ ok tt) × IsValid graph)
    ⊎ ((validate graph ≡ err (violations_of graph))
        × (violations_of graph ≢ [])
        × (¬ IsValid graph))
validate-IsValid_example = validate-IsValid graph

add_relation-validate_example : validate (add_relation graph (requires freedom will)) ≡ ok tt
add_relation-validate_example =
    add_relation-validate graph (requires freedom will) graph_validates edge_is_sound

relations-filter_example :
    relations_from graph freedom ≡ filter (λ e. text_eq e.from freedom) graph.edges
relations-filter_example = (relations-filter graph freedom graph-IsValid.indexed).0

add_all-relations_example :
    (relations_from (add_all empty_graph (requires freedom will ∷ requires will freedom ∷ [])) will
      ≡ filter (λ e. text_eq e.from will) (requires freedom will ∷ requires will freedom ∷ []))
    × (relations_to (add_all empty_graph (requires freedom will ∷ requires will freedom ∷ [])) will
        ≡ filter (λ e. text_eq e.to will) (requires freedom will ∷ requires will freedom ∷ []))
add_all-relations_example =
    add_all-relations (requires freedom will ∷ requires will freedom ∷ []) will
