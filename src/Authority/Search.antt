-- ===== src/Authority/Search.antt =====
-- The cycle search of qxfx0-governance/src/lib.rs ends, and decides whether a delegation path
-- leads from one name to another.
use mathlib.Core.Bool.{false≢true}
use qx_fx0rust.Base.{
  ℕ, zero, suc, ◌+◌, ◌≤◌, ◌<◌, ◌≡◌, ◌≢◌, refl, sym, ap, ◌∙◌, subst, ◌↔◌, ◌⊎◌, inl, inr, Bool, true,
  false, Option, none, some, List, [], ◌∷◌, arith, length, In, Bool-cases, if◌then◌else◌,
}
use qx_fx0rust.Base.Text.{Text, text_eq, text_eq_iff, text_eq_comm}
use qx_fx0rust.Authority.{
  DelegationEntry, AuthorityMap, is_visited, push_targets, cycle_loop, would_create_cycle,
}

-- A delegation from `a` to `b`.
abbrev pub Edge : AuthorityMap → Text → Text → Type 0
Edge ds a b = (d : DelegationEntry) × In d ds × (d.from ≡ a) × (d.to ≡ b)

-- A chain of delegations from `a` to `b`.
pub data Delegates (ds : AuthorityMap) (a : Text) : Text → Type 0 where
  here : Delegates ds a a
  step : {b c : Text} → Delegates ds a b → Edge ds b c → Delegates ds a c

pub is_visited_iff : (n : Text) (vs : List Text) → (is_visited n vs ≡ true) ↔ In n vs
is_visited_iff n [] = (λ e. cc, λ m. absurd m)
is_visited_iff n (v ∷ vs) = ground (arith, text_eq_iff v n, is_visited_iff n vs)

-- How many delegations start at a name that is not visited yet.
pub unvisited : List Text → AuthorityMap → ℕ
unvisited vs [] = 0
unvisited vs (d ∷ ds) = (if is_visited d.from vs then 0 else 1) + unvisited vs ds

-- Visiting a new name pushes as many targets as it takes delegations off that count.
push_targets-measure :
    (node : Text) (ds : AuthorityMap) (stack vs : List Text)
    → is_visited node vs ≡ false
    → length (push_targets node ds stack) + unvisited (node ∷ vs) ds
      ≡ length stack + unvisited vs ds
unfolding push_targets unvisited
push_targets-measure node [] stack vs h = refl
push_targets-measure node (d ∷ ds) stack vs h = elim (Bool-cases (text_eq d.from node)) [
  | inl hit ↦
      let same : d.from ≡ node = (text_eq_iff d.from node).0 hit in
      let fresh : is_visited d.from vs ≡ false =
        subst (λ (t : Text). is_visited t vs ≡ false) (sym same) h in
      rw (hit, text_eq_comm node d.from ∙ hit, fresh)
        (omega (arith, push_targets-measure node ds (d.to ∷ stack) vs h))
  | inr miss ↦
      rw (miss, text_eq_comm node d.from ∙ miss)
        (omega (arith, push_targets-measure node ds stack vs h))
]

unvisited-le : (vs : List Text) (ds : AuthorityMap) → unvisited vs ds ≤ length ds
unfolding unvisited
unvisited-le vs [] = omega arith
unvisited-le vs (d ∷ ds) = ground (arith, unvisited-le vs ds)

-- The loop ends within its fuel.
cycle_loop-ends :
    (ds : AuthorityMap) (from : Text) (fuel : ℕ) (stack vs : List Text)
    → length stack + unvisited vs ds < fuel
    → cycle_loop ds from fuel stack vs ≢ none
unfolding cycle_loop
cycle_loop-ends ds from zero stack vs h = absurd (omega arith)
cycle_loop-ends ds from (suc fuel) [] vs h = λ e. cc
cycle_loop-ends ds from (suc fuel) (node ∷ stack) vs h = ground (
  arith,
  push_targets-measure node ds stack vs,
  cycle_loop-ends ds from fuel stack vs,
  cycle_loop-ends ds from fuel (push_targets node ds stack) (node ∷ vs),
)

-- What the loop pushes: the targets of the delegations from the name, above what was there.
pub In-push_targets :
    (node : Text) (ds : AuthorityMap) (stack : List Text) (b : Text)
    → In b (push_targets node ds stack) ↔ (Edge ds node b ⊎ In b stack)
unfolding push_targets
In-push_targets node [] stack b =
    (λ m. inr m, λ c. elim c [ inl (d, m, _, _) ↦ absurd m | inr m ↦ m ])
In-push_targets node (d ∷ ds) stack b = elim (Bool-cases (text_eq d.from node)) [
  | inl hit ↦
      let rest = In-push_targets node ds (d.to ∷ stack) b in
      rw hit (
        λ m. elim (rest.0 m) [
          | inl (x, i, f, t) ↦ inl (x, inr i, f, t)
          | inr (inl t) ↦ inl (d, inl refl, (text_eq_iff d.from node).0 hit, t)
          | inr (inr below) ↦ inr below
        ],
        λ c. elim c [
          | inl (x, inl same, f, t) ↦
              rest.1 (inr (inl (ap (λ (y : DelegationEntry). y.to) same ∙ t)))
          | inl (x, inr i, f, t) ↦ rest.1 (inl (x, i, f, t))
          | inr below ↦ rest.1 (inr (inr below))
        ],
      )
  | inr miss ↦
      let rest = In-push_targets node ds stack b in
      rw miss (
        λ m. elim (rest.0 m) [ inl (x, i, f, t) ↦ inl (x, inr i, f, t) | inr below ↦ inr below ],
        λ c. elim c [
          | inl (x, inl same, f, t) ↦ absurd (
              false≢true (
                sym miss
                ∙ (text_eq_iff d.from node).1 (ap (λ (y : DelegationEntry). y.from) same ∙ f)))
          | inl (x, inr i, f, t) ↦ rest.1 (inl (x, i, f, t))
          | inr below ↦ rest.1 (inr below)
        ],
      )
]

-- A loop that answers `true` has found a path to `from`, if every name on its stack is at the end
-- of one.
cycle_loop-true :
    (ds : AuthorityMap) (from to : Text) (fuel : ℕ) (stack vs : List Text)
    → ((n : Text) → In n stack → Delegates ds to n)
    → cycle_loop ds from fuel stack vs ≡ some true
    → Delegates ds to from
unfolding cycle_loop
cycle_loop-true ds from to zero stack vs r e = absurd (cc)
cycle_loop-true ds from to (suc fuel) [] vs r e = absurd (cc)
cycle_loop-true ds from to (suc fuel) (node ∷ stack) vs r e =
    elim (Bool-cases (is_visited node vs)) [
      | inl old ↦ cycle_loop-true ds from to fuel stack vs (λ n m. r n (inr m)) (rw old at e)
      | inr new ↦ elim (Bool-cases (text_eq node from)) [
        | inl found ↦ subst (Delegates ds to) ((text_eq_iff node from).0 found) (r node (inl refl))
        | inr other ↦
            cycle_loop-true ds from to fuel (push_targets node ds stack) (node ∷ vs)
              (λ n m. elim ((In-push_targets node ds stack n).0 m) [
                | inl edge ↦ step (r node (inl refl)) edge
                | inr below ↦ r n (inr below)
              ])
              (rw other at (rw new at e))
      ]
    ]

-- What the search keeps: the start is seen, a delegation from a visited name leads to a name that
-- is visited or on the stack, and `from` is not visited.
record Swept (ds : AuthorityMap) (from to : Text) (stack vs : List Text) : Type 0 where
  start : In to vs ⊎ In to stack
  closed : (a b : Text) → Edge ds a b → In a vs → In b vs ⊎ In b stack
  absent : ¬ In from vs

seen_again :
    (n b : Text) (stack vs : List Text)
    → In n vs
    → In b vs ⊎ In b (n ∷ stack)
    → In b vs ⊎ In b stack
seen_again n b stack vs m (inl v) = inl v
seen_again n b stack vs m (inr (inl e)) = inl (subst (λ (t : Text). In t vs) e m)
seen_again n b stack vs m (inr (inr s)) = inr s

skip-Swept :
    (ds : AuthorityMap) (from to node : Text) (stack vs : List Text)
    → In node vs
    → Swept ds from to (node ∷ stack) vs
    → Swept ds from to stack vs
skip-Swept ds from to node stack vs m w = record {
  start = seen_again node to stack vs m w.start;
  closed = λ a b edge i. seen_again node b stack vs m (w.closed a b edge i);
  absent = w.absent;
}

moved_down :
    (ds : AuthorityMap) (n b : Text) (stack vs : List Text)
    → In b vs ⊎ In b (n ∷ stack)
    → In b (n ∷ vs) ⊎ In b (push_targets n ds stack)
moved_down ds n b stack vs (inl v) = inl (inr v)
moved_down ds n b stack vs (inr (inl e)) = inl (inl e)
moved_down ds n b stack vs (inr (inr s)) = inr ((In-push_targets n ds stack b).1 (inr s))

visit-Swept :
    (ds : AuthorityMap) (from to node : Text) (stack vs : List Text)
    → node ≢ from
    → Swept ds from to (node ∷ stack) vs
    → Swept ds from to (push_targets node ds stack) (node ∷ vs)
visit-Swept ds from to node stack vs ne w = record {
  start = moved_down ds node to stack vs w.start;
  closed = λ a b edge i. elim i [
    | inl e ↦
        inr (
          (In-push_targets node ds stack b).1
            (inl (subst (λ (t : Text). Edge ds t b) (sym e) edge)))
    | inr old ↦ moved_down ds node b stack vs (w.closed a b edge old)
  ];
  absent = λ i. elim i [ inl e ↦ ne e | inr old ↦ w.absent old ];
}

-- A loop that answers `false` has swept everything that `to` leads to.
cycle_loop-false :
    (ds : AuthorityMap) (from to : Text) (fuel : ℕ) (stack vs : List Text)
    → Swept ds from to stack vs
    → cycle_loop ds from fuel stack vs ≡ some false
    → (ws : List Text) × Swept ds from to [] ws
unfolding cycle_loop
cycle_loop-false ds from to zero stack vs w e = absurd (cc)
cycle_loop-false ds from to (suc fuel) [] vs w e = (vs, w)
cycle_loop-false ds from to (suc fuel) (node ∷ stack) vs w e =
    elim (Bool-cases (is_visited node vs)) [
      | inl old ↦
          cycle_loop-false ds from to fuel stack vs
            (skip-Swept ds from to node stack vs ((is_visited_iff node vs).0 old) w) (rw old at e)
      | inr new ↦ elim (Bool-cases (text_eq node from)) [
        | inl found ↦
            let clash : ◌≡◌ {A = Option Bool} (some true) (some false) =
              rw found at (rw new at e) in
            absurd (cc)
        | inr other ↦
            cycle_loop-false ds from to fuel (push_targets node ds stack) (node ∷ vs)
              (visit-Swept ds from to node stack vs
                (λ s. false≢true (sym other ∙ (text_eq_iff node from).1 s)) w)
              (rw other at (rw new at e))
      ]
    ]

-- Nothing that `to` leads to is missed, once the stack is empty.
Swept-all :
    (ds : AuthorityMap) (from to : Text) (ws : List Text) (b : Text)
    → Swept ds from to [] ws
    → Delegates ds to b
    → In b ws
Swept-all ds from to ws b w here = elim w.start [ inl i ↦ i | inr none_left ↦ absurd none_left ]
Swept-all ds from to ws b w (step {b = a} path edge) =
    elim (w.closed a b edge (Swept-all ds from to ws a w path)) [
      | inl i ↦ i
      | inr none_left ↦ absurd none_left
    ]

-- The cycle check always answers: `true` if a chain of delegations leads from the new delegate
-- back to the delegator, and `false` if none does.
pub would_create_cycle-decides :
    (ds : AuthorityMap) (from to : Text)
    → ((would_create_cycle ds from to ≡ some true) × Delegates ds to from)
      ⊎ ((would_create_cycle ds from to ≡ some false) × (¬ Delegates ds to from))
unfolding would_create_cycle
would_create_cycle-decides ds from to =
    decided (cycle_loop ds from (length ds + 2) (to ∷ []) []) refl
  where
    decided :
        (r : Option Bool)
        → cycle_loop ds from (length ds + 2) (to ∷ []) [] ≡ r
        → ((cycle_loop ds from (length ds + 2) (to ∷ []) [] ≡ some true) × Delegates ds to from)
          ⊎ ((cycle_loop ds from (length ds + 2) (to ∷ []) [] ≡ some false)
              × (¬ Delegates ds to from))
    decided none e =
        absurd (
          cycle_loop-ends ds from (length ds + 2) (to ∷ []) [] (omega (arith, unvisited-le [] ds))
            e)
    decided (some true) e = inl (
      e,
      cycle_loop-true ds from to (length ds + 2) (to ∷ []) []
          (λ n i. elim i [
            | inl same ↦ subst (Delegates ds to) same here
            | inr none_left ↦ absurd none_left
          ])
          e,
    )
    decided (some false) e =
        let r =
          cycle_loop-false ds from to (length ds + 2) (to ∷ []) []
            (record { start = inr (inl refl); closed = λ a b edge i. absurd i; absent = λ i. i })
            e in
        inr (e, λ path. r.1.absent (Swept-all ds from to r.0 from r.1 path))
