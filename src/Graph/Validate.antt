-- ===== src/Graph/Validate.antt =====
-- What `AtomGraph::validate` of qxfx0-types/src/atom.rs accepts, and that growing a graph through
-- `add_relation` stays within it.
use qx_fx0rust.Base.{
  ◌⊎◌, inl, inr, ◌≢◌, ℕ, suc, ◌≡◌, refl, sym, ap, ◌∙◌, ◌↔◌, Bool, true, false, not, List, [], ◌∷◌,
  ◌++◌, ==_iff, All, All-append, append-nil_iff, ok, err, arith,
}
use qx_fx0rust.Base.Text.{Text, text_eq_iff, is_blank}
use qx_fx0rust.Base.Order.{text_ord}
use qx_fx0rust.Base.OrdMap.{contains_key}
use qx_fx0rust.Graph.{
  Atom, Relation, EdgeIndex, AtomGraph, add_relation, index_edges, rebuild_indices, GraphViolation,
  validate_relation, report, report_err, check_atoms, check_edge, check_edges, positions_eq,
  index_eq, violations_of, validate, edges_from_mismatch, edges_to_mismatch, outcome,
}
use qx_fx0rust.Graph.Index.{IsIndexed, add_relation-IsIndexed}

-- An entry of the atoms: filed under its id, with an id and a display that are not blank.
abbrev pub AtomIsFiled : Text × Atom → Type 0
AtomIsFiled (key, atom) = (key ≡ atom.id) × (is_blank key ≡ false) × (is_blank atom.display ≡ false)

-- An edge between atoms of the graph, with a topic and originals that are not blank.
pub record EdgeIsSound (atoms : List (Text × Atom)) (e : Relation) : Type 0 where
  pub source_known : contains_key e.from atoms ≡ true
  pub target_known : contains_key e.to atoms ≡ true
  pub has_topic : is_blank e.topic ≡ false
  pub has_ru : is_blank e.ru_original ≡ false
  pub has_en : is_blank e.en_original ≡ false

-- The graphs that validation is to accept.
pub record IsValid (g : AtomGraph) : Type 0 where
  pub atoms_filed : All AtomIsFiled g.atoms
  pub edges_sound : All (EdgeIsSound g.atoms) g.edges
  pub indexed : IsIndexed g

positions_eq_iff : (is js : List ℕ) → (positions_eq is js ≡ true) ↔ (is ≡ js)
unfolding positions_eq
positions_eq_iff [] [] = (λ _. refl, λ _. refl)
positions_eq_iff [] (j ∷ js) = (λ e. cc, λ e. cc)
positions_eq_iff (i ∷ is) [] = (λ e. cc, λ e. cc)
positions_eq_iff (i ∷ is) (j ∷ js) = ground (arith, ==_iff i j, positions_eq_iff is js)

index_eq_iff : (a b : EdgeIndex) → (index_eq a b ≡ true) ↔ (a ≡ b)
unfolding index_eq
index_eq_iff [] [] = (λ _. refl, λ _. refl)
index_eq_iff [] (y ∷ ys) = (λ e. cc, λ e. cc)
index_eq_iff (x ∷ xs) [] = (λ e. cc, λ e. cc)
index_eq_iff ((k, is) ∷ xs) ((l, js) ∷ ys) =
    ground (arith, text_eq_iff k l, positions_eq_iff is js, index_eq_iff xs ys)

report_nil : (b : Bool) (v : GraphViolation) → (report b v ≡ []) ↔ (b ≡ false)
report_nil b v = ground arith

report_err_nil :
    (e : Relation)
    → (report_err (validate_relation e) ≡ [])
      ↔ ((is_blank e.ru_original ≡ false) × (is_blank e.en_original ≡ false))
unfolding validate_relation
report_err_nil e = ground arith

check_edge_nil :
    (atoms : List (Text × Atom)) (n : ℕ) (e : Relation)
    → (check_edge atoms n e ≡ []) ↔ EdgeIsSound atoms e
unfolding check_edge
check_edge_nil atoms n e = ground (arith, report_err_nil e)

check_edges_nil :
    (atoms : List (Text × Atom)) (n : ℕ) (es : List Relation)
    → (check_edges atoms n es ≡ []) ↔ All (EdgeIsSound atoms) es
unfolding check_edges
check_edges_nil atoms n [] = (λ _. tt, λ _. refl)
check_edges_nil atoms n (e ∷ es) = ground (
  arith,
  append-nil_iff (check_edge atoms n e) (check_edges atoms (suc n) es),
  check_edge_nil atoms n e,
  check_edges_nil atoms (suc n) es,
)

check_atoms_nil : (as' : List (Text × Atom)) → (check_atoms as' ≡ []) ↔ All AtomIsFiled as'
unfolding check_atoms
check_atoms_nil [] = (λ _. tt, λ _. refl)
check_atoms_nil ((key, atom) ∷ as') = ground (arith, text_eq_iff key atom.id, check_atoms_nil as')

violations_nil : (g : AtomGraph) → (violations_of g ≡ []) ↔ IsValid g
unfolding violations_of
violations_nil g =
    let expected = index_edges 0 g.edges [] [] in
    let from_test = report (not (index_eq g.edges_from expected.0)) edges_from_mismatch in
    let to_test = report (not (index_eq g.edges_to expected.1)) edges_to_mismatch in
    ground (
      arith,
      append-nil_iff (check_atoms g.atoms)
          (check_edges g.atoms 0 g.edges ++ (from_test ++ to_test)),
      append-nil_iff (check_edges g.atoms 0 g.edges) (from_test ++ to_test),
      append-nil_iff from_test to_test,
      check_atoms_nil g.atoms,
      check_edges_nil g.atoms 0 g.edges,
      index_eq_iff g.edges_from expected.0,
      index_eq_iff g.edges_to expected.1,
    )

-- Validation accepts a graph exactly if it is valid: every atom is filed under its id and is not
-- blank, every edge runs between atoms of the graph with a topic and with originals that are not
-- blank, and both indexes are those of the edges. What it rejects it gives reasons for.
pub validate-IsValid :
    (g : AtomGraph)
    → ((validate g ≡ ok tt) × IsValid g)
      ⊎ ((validate g ≡ err (violations_of g)) × (violations_of g ≢ []) × (¬ IsValid g))
unfolding validate
validate-IsValid g = decided (violations_of g) refl
  where
    decided :
        (vs : List GraphViolation)
        → violations_of g ≡ vs
        → ((outcome (violations_of g) ≡ ok tt) × IsValid g)
          ⊎ ((outcome (violations_of g) ≡ err (violations_of g))
              × (violations_of g ≢ [])
              × (¬ IsValid g))
    decided [] e = inl (ap outcome e, (violations_nil g).0 e)
    decided (v ∷ vs) e = inr (
      ap outcome e ∙ ap err (sym e),
      (λ none_found. absurd (cc)),
      λ valid. let none_found = (violations_nil g).1 valid in absurd (cc),
    )

-- A valid graph stays valid when an edge between its atoms is added that has a topic and
-- originals that are not blank.
pub add_relation-validate :
    (g : AtomGraph) (r : Relation)
    → validate g ≡ ok tt
    → EdgeIsSound g.atoms r
    → validate (add_relation g r) ≡ ok tt
unfolding add_relation
add_relation-validate g r passes sound = elim (validate-IsValid g) [
  | inr (fails, _, _) ↦ absurd (cc)
  | inl (_, v) ↦
      let grown : IsValid (add_relation g r) = record {
        atoms_filed = v.atoms_filed;
        edges_sound = All-append (EdgeIsSound g.atoms) g.edges (r ∷ []) v.edges_sound (sound, tt);
        indexed = add_relation-IsIndexed g r v.indexed;
      } in
      elim (validate-IsValid (add_relation g r)) [
        | inl (accepted, _) ↦ accepted
        | inr (_, _, not_valid) ↦ absurd (not_valid grown)
      ]
]

-- Rebuilding the indexes mends a graph that has sound atoms and edges, whatever its indexes were.
rebuild_indices-validate :
    (g : AtomGraph)
    → All AtomIsFiled g.atoms
    → All (EdgeIsSound g.atoms) g.edges
    → validate (rebuild_indices g) ≡ ok tt
unfolding rebuild_indices
rebuild_indices-validate g filed sound =
    let mended : IsValid (rebuild_indices g) = record {
      atoms_filed = filed;
      edges_sound = sound;
      indexed = record { from_right = refl; to_right = refl };
    } in
    elim (validate-IsValid (rebuild_indices g)) [
      | inl (accepted, _) ↦ accepted
      | inr (_, _, not_valid) ↦ absurd (not_valid mended)
    ]
