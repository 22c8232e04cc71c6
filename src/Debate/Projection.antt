-- ===== src/Debate/Projection.antt =====
-- What the observation of qxfx0-pipeline/src/debate.rs makes of the claims of a plan is well formed.
use qx_fx0rust.Base.{
  ℕ, ◌+◌, ◌^◌, ◌≤◌, ◌≡◌, refl, ap, ◌∙◌, inl, inr, false, Option, none, some, List, [], ◌∷◌, length,
  All, All-imp, filter_map, map, arith, Bool-cases, Option-cases, subst,
}
use qx_fx0rust.Base.Text.{Text, text_eq, text_eq_refl, text_eq_comm}
use qx_fx0rust.Plan.{PlannedClaim}
use qx_fx0rust.Plan.Admit.{ids_of}
use qx_fx0rust.Debate.{ArgumentEdgeKind, supports, counters, entails, ArgumentEdge, is_invalid_id}
use qx_fx0rust.Debate.Structure.{node_ids, Known, IsEdge, IsNumbered}
use qx_fx0rust.Debate.Observe.{
  is_thesis, thesis_of, edge_kind_for, edge_by, edge_of, node_of, ledger_of,
}

pub length-filter_map :
    {A B : Type 0} (f : A → Option B) (xs : List A) → length (filter_map f xs) ≤ length xs
length-filter_map f [] = omega arith
length-filter_map f (x ∷ xs) = elim (Option-cases (f x)) [
  | inl e ↦ rw e (omega (arith, length-filter_map f xs))
  | inr (y, e) ↦ rw e (omega (arith, length-filter_map f xs))
]

pub filter_map-All :
    {A B : Type 0} (P : A → Type 0) (Q : B → Type 0) (f : A → Option B)
    → ((x : A) (y : B) → P x → f x ≡ some y → Q y)
    → (xs : List A) → All P xs
    → All Q (filter_map f xs)
filter_map-All P Q f h [] a = tt
filter_map-All P Q f h (x ∷ xs) a = elim (Option-cases (f x)) [
  | inl e ↦ rw e (filter_map-All P Q f h xs a.1)
  | inr (y, e) ↦ rw e (h x y a.0 e, filter_map-All P Q f h xs a.1)
]

pub node_ids-map : (claims : List PlannedClaim) → node_ids (map node_of claims) ≡ ids_of claims
node_ids-map [] = refl
node_ids-map (c ∷ claims) = ap (◌∷◌ c.id) (node_ids-map claims)

pub named_nodes :
    (claims : List PlannedClaim)
    → All (λ c. is_invalid_id c.id ≡ false) claims
    → All (λ n. is_invalid_id n.id ≡ false) (map node_of claims)
named_nodes [] a = tt
named_nodes (c ∷ claims) a = (a.0, named_nodes claims a.1)

Known-later : (id other : Text) (ids : List Text) → Known ids id → Known (other ∷ ids) id
Known-later id other ids h = ground (arith, h)

-- Every claim is known by its id, and so is the thesis.
pub claims-Known : (claims : List PlannedClaim) → All (λ c. Known (ids_of claims) c.id) claims
claims-Known [] = tt
claims-Known (c ∷ claims) = (
  ground (arith, text_eq_refl c.id),
  All-imp (λ d. Known (ids_of claims) d.id) (λ d. Known (c.id ∷ ids_of claims) d.id)
      (λ d h. Known-later d.id c.id (ids_of claims) h) claims (claims-Known claims),
)

pub thesis-Known :
    (claims : List PlannedClaim) (t : Text) → thesis_of claims ≡ some t → Known (ids_of claims) t
thesis-Known [] t e = absurd (cc)
thesis-Known (c ∷ claims) t e = elim (Bool-cases (is_thesis c.role)) [
  | inl is ↦
      let same : some c.id ≡ some t = rw is at e in
      let id : c.id ≡ t = cc in rw (← id) (ground (arith, text_eq_refl c.id))
  | inr other ↦ Known-later t c.id (ids_of claims) (thesis-Known claims t (rw other at e))
]

pub some-injective : {A : Type 0} {x y : A} → some x ≡ some y → x ≡ y
some-injective h = cc

edge_by-IsEdge :
    (ids : List Text) (t n : Text) (kind : Option ArgumentEdgeKind) (e : ArgumentEdge)
    → Known ids t
    → Known ids n
    → text_eq t n ≡ false
    → edge_by t n kind ≡ some e
    → IsEdge ids e
edge_by-IsEdge ids t n none e ht hn h s = absurd (cc)
edge_by-IsEdge ids t n (some entails) e ht hn h s =
    subst (IsEdge ids) (some-injective s) (ht, hn, h)
edge_by-IsEdge ids t n (some supports) e ht hn h s =
    subst (IsEdge ids) (some-injective s) (hn, ht, text_eq_comm n t ∙ h)
edge_by-IsEdge ids t n (some counters) e ht hn h s =
    subst (IsEdge ids) (some-injective s) (hn, ht, text_eq_comm n t ∙ h)

pub edge_of-IsEdge :
    (ids : List Text) (o : Option Text) (c : PlannedClaim) (e : ArgumentEdge)
    → ((t : Text) → o ≡ some t → Known ids t)
    → Known ids c.id
    → edge_of o c ≡ some e
    → IsEdge ids e
edge_of-IsEdge ids none c e k h s = absurd (cc)
edge_of-IsEdge ids (some t) c e k h s = elim (Bool-cases (text_eq t c.id)) [
  | inl same ↦ absurd (cc (rw same at s))
  | inr other ↦
      edge_by-IsEdge ids t c.id (edge_kind_for c.role) e (k t refl) h other (rw other at s)
]

pub ledger-IsNumbered :
    (ids : List Text) (index : ℕ) (claims : List PlannedClaim)
    → index + length claims ≤ 2 ^ 16
    → All (λ c. Known ids c.id) claims
    → IsNumbered ids index (ledger_of index claims)
ledger-IsNumbered ids index [] h k = tt
ledger-IsNumbered ids index (c ∷ claims) h k =
    (omega arith, k.0, ledger-IsNumbered ids (index + 1) claims (omega arith) k.1)

pub length-ledger_of :
    (index : ℕ) (claims : List PlannedClaim) → length (ledger_of index claims) ≡ length claims
length-ledger_of index [] = refl
length-ledger_of index (c ∷ claims) = omega (arith, length-ledger_of (index + 1) claims)
