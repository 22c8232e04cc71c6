-- ===== src/Authority/Scan.antt =====
-- The scan over the delegations to one name, in the permission search of
-- qxfx0-governance/src/lib.rs.
use mathlib.Core.Bool.{false≢true}
use qx_fx0rust.Base.{
  ℕ, ◌+◌, ◌≤◌, ◌≡◌, ◌≢◌, refl, sym, ap, ◌∙◌, subst, ◌↔◌, ◌⊎◌, inl, inr, false, none, some, List, [],
  ◌∷◌, arith, length, any, In, Bool-cases, if◌then◌else◌,
}
use qx_fx0rust.Base.Text.{Text, text_eq, text_eq_iff, text_eq_comm}
use qx_fx0rust.Authority.{DelegationEntry, AuthorityMap, is_visited, scan_delegators}
use qx_fx0rust.Authority.Search.{Edge, Delegates, is_visited_iff}

-- Some delegation to `name` names the permission.
abbrev pub Grants : AuthorityMap → Text → Text → Type 0
Grants ds permission name =
    (d : DelegationEntry) × In d ds × (d.to ≡ name) × In permission d.permissions

-- Some name at or above the principal was granted the permission.
abbrev pub Holds : AuthorityMap → Text → Text → Type 0
Holds ds principal permission =
    (name : Text) × Delegates ds name principal × Grants ds permission name

-- How many delegations lead to a name that is not visited yet.
pub unentered : List Text → AuthorityMap → ℕ
unentered vs [] = 0
unentered vs (d ∷ ds) = (if is_visited d.to vs then 0 else 1) + unentered vs ds

pub unentered-le : (vs : List Text) (ds : AuthorityMap) → unentered vs ds ≤ length ds
unfolding unentered
unentered-le vs [] = omega arith
unentered-le vs (d ∷ ds) = ground (arith, unentered-le vs ds)

pub scan-measure :
    (permission node : Text) (ds : AuthorityMap) (stack stack' vs : List Text)
    → is_visited node vs ≡ false
    → scan_delegators permission node ds stack ≡ some stack'
    → length stack' + unentered (node ∷ vs) ds ≡ length stack + unentered vs ds
unfolding scan_delegators unentered
scan-measure permission node [] stack stack' vs h e = ground arith
scan-measure permission node (d ∷ ds) stack stack' vs h e = elim (Bool-cases (text_eq d.to node)) [
  | inl hit ↦
      let fresh : is_visited d.to vs ≡ false =
        subst (λ (t : Text). is_visited t vs ≡ false) (sym ((text_eq_iff d.to node).0 hit)) h in
      elim (Bool-cases (any (λ q. text_eq q permission) d.permissions)) [
        | inl granted ↦ absurd (cc (rw (hit, granted) at e))
        | inr not_here ↦
            rw (text_eq_comm node d.to ∙ hit, fresh)
              (omega (
                arith,
                scan-measure permission node ds (d.from ∷ stack) stack' vs h
                    (rw (hit, not_here) at e),
              ))
      ]
  | inr miss ↦
      rw (text_eq_comm node d.to ∙ miss)
        (omega (arith, scan-measure permission node ds stack stack' vs h (rw miss at e)))
]

-- A scan that stops has found a grant.
pub scan-none :
    (permission node : Text) (ds : AuthorityMap) (stack : List Text)
    → scan_delegators permission node ds stack ≡ none
    → Grants ds permission node
unfolding scan_delegators
scan-none permission node [] stack e = absurd (cc)
scan-none permission node (d ∷ ds) stack e = elim (Bool-cases (text_eq d.to node)) [
  | inl hit ↦ elim (Bool-cases (any (λ q. text_eq q permission) d.permissions)) [
    | inl granted ↦ (
      d,
      inl refl,
      (text_eq_iff d.to node).0 hit,
      (is_visited_iff permission d.permissions).0 granted,
    )
    | inr not_here ↦
        let (x, m, t, g) =
          scan-none permission node ds (d.from ∷ stack) (rw (hit, not_here) at e) in
        (x, inr m, t, g)
  ]
  | inr miss ↦
      let (x, m, t, g) = scan-none permission node ds stack (rw miss at e) in (x, inr m, t, g)
]

-- A scan that runs through has found no grant, and pushes the delegators of the name.
abbrev pub Scanned : AuthorityMap → Text → Text → List Text → List Text → Type 0
Scanned ds permission node stack stack' =
    (¬ Grants ds permission node) × ((b : Text) → In b stack' ↔ (Edge ds b node ⊎ In b stack))

pass_by :
    (permission node : Text) (d : DelegationEntry) (ds : AuthorityMap) (stack stack' : List Text)
    → d.to ≢ node
    → Scanned ds permission node stack stack'
    → Scanned (d ∷ ds) permission node stack stack'
pass_by permission node d ds stack stack' ne (no_grant, shape) = (
  λ (x, i, t, m). elim i [
    | inl same ↦ ne (ap (λ (y : DelegationEntry). y.to) same ∙ t)
    | inr j ↦ no_grant (x, j, t, m)
  ],
  λ b. (
    λ i. elim ((shape b).0 i) [ inl (x, j, f, t) ↦ inl (x, inr j, f, t) | inr below ↦ inr below ],
    λ c. elim c [
      | inl (x, inl same, f, t) ↦ absurd (ne (ap (λ (y : DelegationEntry). y.to) same ∙ t))
      | inl (x, inr j, f, t) ↦ (shape b).1 (inl (x, j, f, t))
      | inr below ↦ (shape b).1 (inr below)
    ],
  ),
)

push_delegator :
    (permission node : Text) (d : DelegationEntry) (ds : AuthorityMap) (stack stack' : List Text)
    → d.to ≡ node
    → ¬ In permission d.permissions
    → Scanned ds permission node (d.from ∷ stack) stack'
    → Scanned (d ∷ ds) permission node stack stack'
push_delegator permission node d ds stack stack' to_node not_here (no_grant, shape) = (
  λ (x, i, t, m). elim i [
    | inl same ↦
        not_here (subst (λ (y : DelegationEntry). In permission y.permissions) (sym same) m)
    | inr j ↦ no_grant (x, j, t, m)
  ],
  λ b. (
    λ i. elim ((shape b).0 i) [
      | inl (x, j, f, t) ↦ inl (x, inr j, f, t)
      | inr (inl from_d) ↦ inl (d, inl refl, from_d, to_node)
      | inr (inr below) ↦ inr below
    ],
    λ c. elim c [
      | inl (x, inl same, f, t) ↦
          (shape b).1 (inr (inl (ap (λ (y : DelegationEntry). y.from) same ∙ f)))
      | inl (x, inr j, f, t) ↦ (shape b).1 (inl (x, j, f, t))
      | inr below ↦ (shape b).1 (inr (inr below))
    ],
  ),
)

pub scan-some :
    (permission node : Text) (ds : AuthorityMap) (stack stack' : List Text)
    → scan_delegators permission node ds stack ≡ some stack'
    → Scanned ds permission node stack stack'
unfolding scan_delegators
scan-some permission node [] stack stack' e =
    let same : stack ≡ stack' = cc in
    (
      λ g. g.1,
      λ b. (
        λ i. inr (subst (In b) (sym same) i),
        λ c. elim c [ inl (x, j, _, _) ↦ absurd j | inr below ↦ subst (In b) same below ],
      ),
    )
scan-some permission node (d ∷ ds) stack stack' e = elim (Bool-cases (text_eq d.to node)) [
  | inl hit ↦ elim (Bool-cases (any (λ q. text_eq q permission) d.permissions)) [
    | inl granted ↦ absurd (cc (rw (hit, granted) at e))
    | inr not_here ↦
        push_delegator permission node d ds stack stack' ((text_eq_iff d.to node).0 hit)
          (λ m. false≢true (sym not_here ∙ (is_visited_iff permission d.permissions).1 m))
          (scan-some permission node ds (d.from ∷ stack) stack' (rw (hit, not_here) at e))
  ]
  | inr miss ↦
      pass_by permission node d ds stack stack'
        (λ t. false≢true (sym miss ∙ (text_eq_iff d.to node).1 t))
        (scan-some permission node ds stack stack' (rw miss at e))
]
