-- ===== src/Perspective/Keeps.antt =====
-- Integrating curated claims, as qxfx0-self/src/fact_perspective.rs does it, keeps a perspective
-- valid.
use qx_fx0rust.Base.{
  ℕ, ◌+◌, ◌^◌, ◌≤◌, ◌≡◌, refl, ap, subst, ◌∙◌, inl, inr, Bool, true, false, some, [], ◌∷◌, leb, any,
  is_some, arith, ok, err, Bool-cases, Option-cases,
}
use qx_fx0rust.Base.Text.{Text, text_eq, text_eq_iff}
use qx_fx0rust.Base.Order.{text_ord}
use qx_fx0rust.Base.OrdMap.{get, contains_key, insert, contains_key-get, contains_key-insert}
use qx_fx0rust.Perspective.Facts.{FactRecord}
use qx_fx0rust.Perspective.{
  OpinionCore, FactSet, PerspectiveState, Revised, changed, establish_opinion, qualify_opinion,
  reinforce_opinion, counters_fact, follows_fact,
}
use qx_fx0rust.Perspective.Revise.{IsKept, HasRoom, revised-IsKept, All-get}

-- The state of a result, or the one given where there is none.
abbrev state_of : PerspectiveState → Revised (PerspectiveState × Bool) → PerspectiveState
state_of d (ok r) = r.0
state_of d (err e) = d

changed-ok :
    (r : Revised PerspectiveState) (s' : PerspectiveState) (b : Bool)
    → changed r ≡ ok (s', b)
    → r ≡ ok s'
changed-ok (ok s) s' b e = ap (λ x. ok (state_of s x)) e
changed-ok (err x) s' b e = absurd (cc)

abbrev pair_ok : PerspectiveState → Bool → Revised (PerspectiveState × Bool)
pair_ok s b = ok (s, b)

same_state : (s s' : PerspectiveState) (a b : Bool) → pair_ok s a ≡ pair_ok s' b → s ≡ s'
same_state s s' a b e = ap (state_of s) e

contains_key-one : (k : Text) → contains_key k ((k, tt {0}) ∷ []) ≡ true
unfolding contains_key
contains_key-one k = ground (arith, text_eq_iff k k)

-- An operator that leaves the state as it was, and finds an opinion in it.
IsKept-as_is :
    (s s' : PerspectiveState) (k : Text) (o : OpinionCore)
    → IsKept s
    → get k s.opinions ≡ some o
    → s ≡ s'
    → IsKept s' × (contains_key k s'.opinions ≡ true)
IsKept-as_is s s' k o v found same =
    subst (λ (x : PerspectiveState). IsKept x × (contains_key k x.opinions ≡ true)) same
      (v, contains_key-get k s.opinions ∙ ap is_some found)

pub establish-IsKept :
    (s s' : PerspectiveState) (turn : ℕ) (fact : FactRecord) (b : Bool)
    → IsKept s
    → HasRoom fact.subject s
    → fact.confidence_basis_points ≤ 10000
    → establish_opinion s turn fact ≡ ok (s', b)
    → IsKept s' × (contains_key fact.subject s'.opinions ≡ true)
unfolding establish_opinion
establish-IsKept s s' turn fact b v room rated e =
    elim (Option-cases (get fact.subject s.opinions)) [
      | inl absent ↦
          revised-IsKept s s' fact.subject _ turn _ _ fact.id [] _ v room
            (refl, contains_key-one fact.id, rated) (changed-ok _ s' b (rw absent at e))
      | inr (o, found) ↦ elim (Bool-cases (text_eq o.primary_fact fact.id)) [
        | inl same ↦
            IsKept-as_is s s' fact.subject o v found
              (same_state s s' false b (rw (found, same) at e))
        | inr conflict ↦ absurd (cc (rw (found, conflict) at e))
      ]
    ]

grounded_more :
    (id k : Text) (g : FactSet) → contains_key k g ≡ true → contains_key k (insert id tt g) ≡ true
grounded_more id k g h = ground (arith, contains_key-insert id k (tt {0}) g)

pub qualify-IsKept :
    (s s' : PerspectiveState) (turn : ℕ) (fact : FactRecord) (b : Bool)
    → IsKept s
    → fact.confidence_basis_points ≤ 10000
    → qualify_opinion s turn fact ≡ ok (s', b)
    → IsKept s' × (contains_key fact.subject s'.opinions ≡ true)
unfolding qualify_opinion
qualify-IsKept s s' turn fact b v rated e = elim (Option-cases (get fact.subject s.opinions)) [
  | inl absent ↦ absurd (cc (rw absent at e))
  | inr (o, found) ↦
      let g = All-get fact.subject o s.opinions v.sound.grounded found in
      let there : contains_key fact.subject s.opinions ≡ true =
        contains_key-get fact.subject s.opinions ∙ ap is_some found in
      elim (Bool-cases (any (counters_fact o.primary_fact) fact.conditions)) [
        | inr uncited ↦ absurd (cc (rw (found, uncited) at e))
        | inl cited ↦ elim (Bool-cases (contains_key fact.id o.grounding_facts)) [
          | inl known ↦
              IsKept-as_is s s' fact.subject o v found
                (same_state s s' false b (rw (found, cited, known) at e))
          | inr fresh ↦ elim (Bool-cases (leb (2 ^ 64) (o.revision_seq + 1))) [
            | inl over ↦ absurd (cc (rw (found, cited, fresh, over) at e))
            | inr fits ↦
                revised-IsKept s s' fact.subject _ turn _ _ o.primary_fact (fact.id ∷ []) _ v
                  (inl there)
                  (
                    g.0,
                    grounded_more fact.id o.primary_fact o.grounding_facts g.1,
                    omega (arith, g.2),
                  )
                  (changed-ok _ s' b (rw (found, cited, fresh, fits) at e))
          ]
        ]
      ]
]

pub reinforce-IsKept :
    (s s' : PerspectiveState) (turn : ℕ) (fact : FactRecord) (b : Bool)
    → IsKept s
    → fact.confidence_basis_points ≤ 10000
    → reinforce_opinion s turn fact ≡ ok (s', b)
    → IsKept s' × (contains_key fact.subject s'.opinions ≡ true)
unfolding reinforce_opinion
reinforce-IsKept s s' turn fact b v rated e = elim (Option-cases (get fact.subject s.opinions)) [
  | inl absent ↦ absurd (cc (rw absent at e))
  | inr (o, found) ↦
      let g = All-get fact.subject o s.opinions v.sound.grounded found in
      let there : contains_key fact.subject s.opinions ≡ true =
        contains_key-get fact.subject s.opinions ∙ ap is_some found in
      elim (Bool-cases (any (follows_fact o.primary_fact) fact.conditions)) [
        | inr uncited ↦ absurd (cc (rw (found, uncited) at e))
        | inl cited ↦ elim (Bool-cases (contains_key fact.id o.grounding_facts)) [
          | inl known ↦
              IsKept-as_is s s' fact.subject o v found
                (same_state s s' false b (rw (found, cited, known) at e))
          | inr fresh ↦ elim (Bool-cases (leb (2 ^ 64) (o.revision_seq + 1))) [
            | inl over ↦ absurd (cc (rw (found, cited, fresh, over) at e))
            | inr fits ↦
                revised-IsKept s s' fact.subject _ turn _ _ o.primary_fact (fact.id ∷ []) _ v
                  (inl there)
                  (
                    g.0,
                    grounded_more fact.id o.primary_fact o.grounding_facts g.1,
                    omega (arith, g.2),
                  )
                  (changed-ok _ s' b (rw (found, cited, fresh, fits) at e))
          ]
        ]
      ]
]
