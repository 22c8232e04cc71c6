-- ===== src/Graph/Index.antt =====
-- The two indexes of the graph of qxfx0-types/src/atom.rs against the edges: what they hold, that
-- adding an edge and rebuilding keep them right, and what the lookups through them return.
use qx_fx0rust.Base.{
  inl, inr, ℕ, suc, ◌+◌, ◌≡◌, refl, sym, ap, ◌∙◌, subst, Option, none, some, List, [], ◌∷◌, ◌++◌,
  if◌then◌else◌, length, get_elem?, filter, filter_map, arith, Bool-cases, length-append,
}
use mathlib.Core.List.{append_assoc, append-nil}
use qx_fx0rust.Base.Text.{Text, text_eq, text_eq_iff}
use qx_fx0rust.Base.Order.{text_ord}
use qx_fx0rust.Base.OrdMap.{get, entry_push, or_default, get-entry_push, get-entry_push_same}
use qx_fx0rust.Graph.{
  Relation, EdgeIndex, AtomGraph, empty_graph, edges_at, relations_from, relations_to, add_relation,
  index_edges, rebuild_indices,
}

-- The indexes are those that a rebuilding would give.
pub record IsIndexed (g : AtomGraph) : Type 0 where
  pub from_right : g.edges_from ≡ (index_edges 0 g.edges [] []).0
  pub to_right : g.edges_to ≡ (index_edges 0 g.edges [] []).1

-- One index on its own: the edges from position `n` on, by the atom at one end.
pub index_by : (Relation → Text) → ℕ → List Relation → EdgeIndex → EdgeIndex
index_by end n [] m = m
index_by end n (e ∷ es) m = index_by end (suc n) es (entry_push (end e) n m)

index_edges_lem :
    (n : ℕ) (es : List Relation) (f t : EdgeIndex)
    → index_edges n es f t ≡ (index_by (λ e. e.from) n es f, index_by (λ e. e.to) n es t)
unfolding index_edges index_by
index_edges_lem n [] f t = refl
index_edges_lem n (e ∷ es) f t =
    index_edges_lem (suc n) es (entry_push e.from n f) (entry_push e.to n t)

index_by-append :
    (end : Relation → Text) (n k : ℕ) (es : List Relation) (r : Relation) (m : EdgeIndex)
    → k ≡ n + length es
    → index_by end n (es ++ r ∷ []) m ≡ entry_push (end r) k (index_by end n es m)
unfolding index_by
index_by-append end n k [] r m h =
    let same : n ≡ k = omega arith in ap (λ (j : ℕ). entry_push (end r) j m) same
index_by-append end n k (e ∷ es) r m h =
    index_by-append end (suc n) k es r (entry_push (end e) n m) (omega arith)

-- Adding an edge keeps the indexes right.
pub add_relation-IsIndexed :
    (g : AtomGraph) (r : Relation) → IsIndexed g → IsIndexed (add_relation g r)
unfolding add_relation
add_relation-IsIndexed g r v =
    let n = length g.edges in
    let before = index_edges_lem 0 g.edges [] [] in
    let after = index_edges_lem 0 (g.edges ++ r ∷ []) [] [] in
    record {
      from_right =
          ap (entry_push r.from n) (v.from_right ∙ ap (λ x. x.0) before)
          ∙ sym (index_by-append (λ e. e.from) 0 n g.edges r [] (omega arith))
          ∙ sym (ap (λ x. x.0) after);
      to_right =
          ap (entry_push r.to n) (v.to_right ∙ ap (λ x. x.1) before)
          ∙ sym (index_by-append (λ e. e.to) 0 n g.edges r [] (omega arith))
          ∙ sym (ap (λ x. x.1) after);
    }

-- Rebuilding makes the indexes right, whatever they were.
pub rebuild_indices-IsIndexed : (g : AtomGraph) → IsIndexed (rebuild_indices g)
unfolding rebuild_indices
rebuild_indices-IsIndexed g = record { from_right = refl; to_right = refl }

-- The positions, counted from `n`, of the edges that have the atom at one of their ends.
abbrev positions : (Relation → Text) → Text → ℕ → List Relation → List ℕ
positions end atom n [] = []
positions end atom n (e ∷ es) =
    let rest = positions end atom (suc n) es in if text_eq (end e) atom then n ∷ rest else rest

get-index_by :
    (end : Relation → Text) (atom : Text) (n : ℕ) (es : List Relation) (m : EdgeIndex)
    → or_default (get atom (index_by end n es m))
      ≡ or_default (get atom m) ++ positions end atom n es
unfolding index_by
get-index_by end atom n [] m = sym (append-nil (or_default (get atom m)))
get-index_by end atom n (e ∷ es) m =
    let rest = get-index_by end atom (suc n) es (entry_push (end e) n m) in
    elim (Bool-cases (text_eq (end e) atom)) [
      | inl same ↦
          let here = (text_eq_iff (end e) atom).0 same in
          let pushed : or_default (get atom (entry_push (end e) n m))
              ≡ or_default (get atom m) ++ n ∷ [] =
            subst
              (λ (a : Text).
                or_default (get a (entry_push (end e) n m)) ≡ or_default (get a m) ++ n ∷ [])
              here (ap or_default (get-entry_push_same (end e) n m)) in
          rw same (
            rest
            ∙ ap (λ (l : List ℕ). l ++ positions end atom (suc n) es) pushed
            ∙ append_assoc (or_default (get atom m)) (n ∷ []) (positions end atom (suc n) es))
      | inr other ↦
          let kept : get atom (entry_push (end e) n m) ≡ get atom m =
            ground (arith, other, get-entry_push (end e) atom n m) in
          rw other (
            rest ∙ ap (λ (o : Option (List ℕ)). or_default o ++ positions end atom (suc n) es) kept)
    ]

-- Looking the positions up gives the edges that have the atom at that end.
get_elem?-length :
    (before es : List Relation) (e : Relation)
    → get_elem? (before ++ e ∷ es) (length before) ≡ some e
get_elem?-length [] es e = refl
get_elem?-length (b ∷ before) es e = get_elem?-length before es e

edges_at-positions :
    (end : Relation → Text) (atom : Text) (before es : List Relation) (n : ℕ)
    → n ≡ length before
    → filter_map (λ i. get_elem? (before ++ es) i) (positions end atom n es)
      ≡ filter (λ e. text_eq (end e) atom) es
edges_at-positions end atom before [] n h = refl
edges_at-positions end atom before (e ∷ es) n h =
    let shift : (before ++ e ∷ []) ++ es ≡ before ++ e ∷ es = append_assoc before (e ∷ []) es in
    let rest : filter_map (λ i. get_elem? (before ++ e ∷ es) i) (positions end atom (suc n) es)
        ≡ filter (λ x. text_eq (end x) atom) es =
      subst
        (λ (l : List Relation).
          filter_map (λ i. get_elem? l i) (positions end atom (suc n) es)
          ≡ filter (λ x. text_eq (end x) atom) es)
        shift
        (edges_at-positions end atom (before ++ e ∷ []) es (suc n)
          (omega (arith, length-append before (e ∷ [])))) in
    let found : get_elem? (before ++ e ∷ es) n ≡ some e =
      subst (λ (k : ℕ). get_elem? (before ++ e ∷ es) k ≡ some e) (sym h)
        (get_elem?-length before es e) in
    elim (Bool-cases (text_eq (end e) atom)) [
      | inl same ↦ rw (same, found) (ap (◌∷◌ e) rest)
      | inr other ↦ rw other rest
    ]

edges_at-or_default :
    (edges : List Relation) (o : Option (List ℕ))
    → edges_at edges o ≡ filter_map (λ i. get_elem? edges i) (or_default o)
edges_at-or_default edges none = refl
edges_at-or_default edges (some is) = refl

indexed_edges :
    (end : Relation → Text) (atom : Text) (edges : List Relation) (m : EdgeIndex)
    → m ≡ index_by end 0 edges []
    → edges_at edges (get atom m) ≡ filter (λ e. text_eq (end e) atom) edges
unfolding get
indexed_edges end atom edges m right =
    edges_at-or_default edges (get atom m)
    ∙ ap (λ (x : EdgeIndex). filter_map (λ i. get_elem? edges i) (or_default (get atom x))) right
    ∙ ap (filter_map (λ i. get_elem? edges i)) (get-index_by end atom 0 edges [])
    ∙ edges_at-positions end atom [] edges 0 refl

-- Where the indexes are right, the lookups through them are the searches of the list of edges:
-- the edges that start at the atom, and those that end at it, in the order they were added.
pub relations-filter :
    (g : AtomGraph) (atom : Text)
    → IsIndexed g
    → (relations_from g atom ≡ filter (λ e. text_eq e.from atom) g.edges)
      × (relations_to g atom ≡ filter (λ e. text_eq e.to atom) g.edges)
unfolding relations_from relations_to
relations-filter g atom v =
    let built = index_edges_lem 0 g.edges [] [] in
    (
      indexed_edges (λ e. e.from) atom g.edges g.edges_from (v.from_right ∙ ap (λ x. x.0) built),
      indexed_edges (λ e. e.to) atom g.edges g.edges_to (v.to_right ∙ ap (λ x. x.1) built),
    )

-- A graph that is built by adding edges one by one.
unfoldable pub add_all : AtomGraph → List Relation → AtomGraph
add_all g [] = g
add_all g (r ∷ rs) = add_all (add_relation g r) rs

add_all-IsIndexed : (g : AtomGraph) (rs : List Relation) → IsIndexed g → IsIndexed (add_all g rs)
unfolding add_all
add_all-IsIndexed g [] v = v
add_all-IsIndexed g (r ∷ rs) v =
    add_all-IsIndexed (add_relation g r) rs (add_relation-IsIndexed g r v)

add_all-edges : (g : AtomGraph) (rs : List Relation) → (add_all g rs).edges ≡ g.edges ++ rs
unfolding add_all add_relation
add_all-edges g [] = sym (append-nil g.edges)
add_all-edges g (r ∷ rs) = add_all-edges (add_relation g r) rs ∙ append_assoc g.edges (r ∷ []) rs

-- After edges are added to a new graph, the lookups at an atom return those of the edges that
-- start there, and those that end there, each as often and in the order that it was added.
pub add_all-relations :
    (rs : List Relation) (atom : Text)
    → (relations_from (add_all empty_graph rs) atom ≡ filter (λ e. text_eq e.from atom) rs)
      × (relations_to (add_all empty_graph rs) atom ≡ filter (λ e. text_eq e.to atom) rs)
unfolding index_edges
add_all-relations rs atom =
    let g = add_all empty_graph rs in
    let found =
      relations-filter g atom
        (add_all-IsIndexed empty_graph rs (record { from_right = refl; to_right = refl })) in
    let edges = add_all-edges empty_graph rs in
    (
      found.0 ∙ ap (filter (λ (e : Relation). text_eq e.from atom)) edges,
      found.1 ∙ ap (filter (λ (e : Relation). text_eq e.to atom)) edges,
    )
