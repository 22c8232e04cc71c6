-- ===== src/Authority/Permissions.antt =====
-- The permission search of qxfx0-governance/src/lib.rs: it ends, and follows the delegation
-- chains upward from a principal.
use qx_fx0rust.Base.{
  ℕ, zero, suc, ◌+◌, ◌<◌, ◌≡◌, ◌≢◌, refl, sym, subst, ◌⊎◌, inl, inr, Bool, true, false, Option,
  none, some, List, [], ◌∷◌, arith, length, In, Bool-cases, Option-cases,
}
use qx_fx0rust.Base.Text.{Text}
use qx_fx0rust.Authority.{
  AuthorityMap, is_visited, scan_delegators, permission_loop, has_permission,
}
use qx_fx0rust.Authority.Search.{Edge, Delegates, here, step, is_visited_iff}
use qx_fx0rust.Authority.Cycles.{Delegates-trans}
use qx_fx0rust.Authority.Scan.{
  Grants, Holds, unentered, unentered-le, scan-measure, scan-none, Scanned, scan-some,
}

permission_loop-ends :
    (ds : AuthorityMap) (permission : Text) (fuel : ℕ) (stack vs : List Text)
    → length stack + unentered vs ds < fuel
    → permission_loop ds permission fuel stack vs ≢ none
unfolding permission_loop
permission_loop-ends ds permission zero stack vs h = absurd (omega arith)
permission_loop-ends ds permission (suc fuel) [] vs h = λ e. cc
permission_loop-ends ds permission (suc fuel) (node ∷ stack) vs h =
    elim (Bool-cases (is_visited node vs)) [
      | inl old ↦ rw old (permission_loop-ends ds permission fuel stack vs (omega arith))
      | inr new ↦ elim (Option-cases (scan_delegators permission node ds stack)) [
        | inl stopped ↦ rw (new, stopped) (λ e. cc)
        | inr (stack', through) ↦
            rw (new, through)
              (permission_loop-ends ds permission fuel stack' (node ∷ vs)
                (omega (arith, scan-measure permission node ds stack stack' vs new through)))
      ]
    ]

-- A loop that answers `true` has found a grant, if every name on its stack is at or above the
-- principal.
permission_loop-true :
    (ds : AuthorityMap) (principal permission : Text) (fuel : ℕ) (stack vs : List Text)
    → ((n : Text) → In n stack → Delegates ds n principal)
    → permission_loop ds permission fuel stack vs ≡ some true
    → Holds ds principal permission
unfolding permission_loop
permission_loop-true ds principal permission zero stack vs r e = absurd (cc)
permission_loop-true ds principal permission (suc fuel) [] vs r e = absurd (cc)
permission_loop-true ds principal permission (suc fuel) (node ∷ stack) vs r e =
    elim (Bool-cases (is_visited node vs)) [
      | inl old ↦
          permission_loop-true ds principal permission fuel stack vs (λ n m. r n (inr m))
            (rw old at e)
      | inr new ↦ elim (Option-cases (scan_delegators permission node ds stack)) [
        | inl stopped ↦ (node, r node (inl refl), scan-none permission node ds stack stopped)
        | inr (stack', through) ↦
            permission_loop-true ds principal permission fuel stack' (node ∷ vs)
              (λ n m. elim (((scan-some permission node ds stack stack' through).1 n).0 m) [
                | inl edge ↦
                    Delegates-trans ds n node principal (step here edge) (r node (inl refl))
                | inr below ↦ r n (inr below)
              ])
              (rw (new, through) at e)
      ]
    ]

-- What the search keeps: the principal is seen, every delegator of a visited name is visited or
-- on the stack, and no visited name was granted the permission.
record Climbed (ds : AuthorityMap) (principal permission : Text) (stack vs : List Text)
    : Type 0 where
  start : In principal vs ⊎ In principal stack
  closed : (a b : Text) → Edge ds a b → In b vs → In a vs ⊎ In a stack
  ungranted : (b : Text) → In b vs → ¬ Grants ds permission b

again :
    (n b : Text) (stack vs : List Text)
    → In n vs
    → In b vs ⊎ In b (n ∷ stack)
    → In b vs ⊎ In b stack
again n b stack vs m (inl v) = inl v
again n b stack vs m (inr (inl e)) = inl (subst (λ (t : Text). In t vs) e m)
again n b stack vs m (inr (inr s)) = inr s

down :
    (ds : AuthorityMap) (permission n b : Text) (stack stack' vs : List Text)
    → Scanned ds permission n stack stack'
    → In b vs ⊎ In b (n ∷ stack)
    → In b (n ∷ vs) ⊎ In b stack'
down ds permission n b stack stack' vs s (inl v) = inl (inr v)
down ds permission n b stack stack' vs s (inr (inl e)) = inl (inl e)
down ds permission n b stack stack' vs s (inr (inr m)) = inr ((s.1 b).1 (inr m))

visit-Climbed :
    (ds : AuthorityMap) (principal permission node : Text) (stack stack' vs : List Text)
    → Scanned ds permission node stack stack'
    → Climbed ds principal permission (node ∷ stack) vs
    → Climbed ds principal permission stack' (node ∷ vs)
visit-Climbed ds principal permission node stack stack' vs s w = record {
  start = down ds permission node principal stack stack' vs s w.start;
  closed = λ a b edge i. elim i [
    | inl e ↦ inr ((s.1 a).1 (inl (subst (Edge ds a) (sym e) edge)))
    | inr old ↦ down ds permission node a stack stack' vs s (w.closed a b edge old)
  ];
  ungranted = λ b i. elim i [
    | inl e ↦ λ g. s.0 (subst (Grants ds permission) (sym e) g)
    | inr old ↦ w.ungranted b old
  ];
}

permission_loop-false :
    (ds : AuthorityMap) (principal permission : Text) (fuel : ℕ) (stack vs : List Text)
    → Climbed ds principal permission stack vs
    → permission_loop ds permission fuel stack vs ≡ some false
    → (ws : List Text) × Climbed ds principal permission [] ws
unfolding permission_loop
permission_loop-false ds principal permission zero stack vs w e = absurd (cc)
permission_loop-false ds principal permission (suc fuel) [] vs w e = (vs, w)
permission_loop-false ds principal permission (suc fuel) (node ∷ stack) vs w e =
    elim (Bool-cases (is_visited node vs)) [
      | inl old ↦
          let m = (is_visited_iff node vs).0 old in
          permission_loop-false ds principal permission fuel stack vs
            (record {
              start = again node principal stack vs m w.start;
              closed = λ a b edge i. again node a stack vs m (w.closed a b edge i);
              ungranted = w.ungranted;
            })
            (rw old at e)
      | inr new ↦ elim (Option-cases (scan_delegators permission node ds stack)) [
        | inl stopped ↦ absurd (cc (rw (new, stopped) at e))
        | inr (stack', through) ↦
            permission_loop-false ds principal permission fuel stack' (node ∷ vs)
              (visit-Climbed ds principal permission node stack stack' vs
                (scan-some permission node ds stack stack' through) w)
              (rw (new, through) at e)
      ]
    ]

-- Every name from which a visited name is reached is visited, once the stack is empty.
Climbed-all :
    (ds : AuthorityMap) (principal permission : Text) (ws : List Text) (a b : Text)
    → Climbed ds principal permission [] ws
    → Delegates ds a b
    → In b ws
    → In a ws
Climbed-all ds principal permission ws a b w here i = i
Climbed-all ds principal permission ws a b w (step {b = m} path edge) i =
    elim (w.closed m b edge i) [
      | inl j ↦ Climbed-all ds principal permission ws a m w path j
      | inr none_left ↦ absurd none_left
    ]

-- The permission search always answers: `true` exactly if the principal, or a name that delegates
-- to it directly or through others, was granted the permission by some delegation.
pub has_permission-decides :
    (ds : AuthorityMap) (principal permission : Text)
    → ((has_permission ds principal permission ≡ some true) × Holds ds principal permission)
      ⊎ ((has_permission ds principal permission ≡ some false) × (¬ Holds ds principal permission))
unfolding has_permission
has_permission-decides ds principal permission =
    decided (permission_loop ds permission (length ds + 2) (principal ∷ []) []) refl
  where
    decided :
        (r : Option Bool)
        → permission_loop ds permission (length ds + 2) (principal ∷ []) [] ≡ r
        → ((permission_loop ds permission (length ds + 2) (principal ∷ []) [] ≡ some true)
            × Holds ds principal permission)
          ⊎ ((permission_loop ds permission (length ds + 2) (principal ∷ []) [] ≡ some false)
              × (¬ Holds ds principal permission))
    decided none e = absurd (
        permission_loop-ends ds permission (length ds + 2) (principal ∷ []) []
          (omega (arith, unentered-le [] ds)) e)
    decided (some true) e = inl (
      e,
      permission_loop-true ds principal permission (length ds + 2) (principal ∷ []) []
          (λ n i. elim i [
            | inl same ↦ subst (λ (t : Text). Delegates ds t principal) same here
            | inr none_left ↦ absurd none_left
          ])
          e,
    )
    decided (some false) e =
        let r =
          permission_loop-false ds principal permission (length ds + 2) (principal ∷ []) []
            (record {
              start = inr (inl refl);
              closed = λ a b edge i. absurd i;
              ungranted = λ b i. absurd i;
            })
            e in
        let seen : In principal r.0 = elim r.1.start [
          | inl i ↦ i
          | inr none_left ↦ absurd none_left
        ] in
        inr (
          e,
          λ h.
              r.1.ungranted h.0 (Climbed-all ds principal permission r.0 h.0 principal r.1 h.1 seen)
                h.2,
        )
