-- ===== src/Authority/Cycles.antt =====
-- Delegation in qxfx0-governance/src/lib.rs never makes a cycle.
use mathlib.Core.Bool.{false≢true}
use qx_fx0rust.Base.{
  ℕ, ◌≡◌, ◌≢◌, sym, ap, ◌∙◌, subst, ◌⊎◌, inl, inr, List, [], ◌∷◌, ◌++◌, In-append_cases, Bool-cases,
  Result, ok, err,
}
use qx_fx0rust.Base.Text.{Text, text_eq, text_eq_iff}
use qx_fx0rust.Authority.{
  DelegationEntry, AuthorityMap, delegate, DelegateError, self_delegation, escalation_prevented,
}
use qx_fx0rust.Authority.Search.{Edge, Delegates, here, step, would_create_cycle-decides}

-- No name is reached back from a name that it delegates to.
abbrev pub IsAcyclic : AuthorityMap → Type 0
IsAcyclic ds = (a b : Text) → Edge ds a b → ¬ Delegates ds b a

abbrev pub entry : Text → Text → List Text → ℕ → DelegationEntry
entry from to permissions turn = record {
  from = from;
  to = to;
  permissions = permissions;
  turn = turn;
}

-- `delegate` fails on a self-delegation and on a delegation that would close a cycle, and on no
-- other; it then appends the entry, and changes nothing else.
delegate-cases :
    (ds : AuthorityMap) (from to : Text) (permissions : List Text) (turn : ℕ)
    → ((from ≡ to) × (delegate ds from to permissions turn ≡ err self_delegation))
      ⊎ ((from ≢ to)
          × Delegates ds to from
          × (delegate ds from to permissions turn ≡ err (escalation_prevented from to)))
      ⊎ ((from ≢ to)
          × (¬ Delegates ds to from)
          × (delegate ds from to permissions turn ≡ ok (ds ++ entry from to permissions turn ∷ [])))
unfolding delegate
delegate-cases ds from to permissions turn = elim (Bool-cases (text_eq from to)) [
  | inl same ↦ inl ((text_eq_iff from to).0 same, rw same)
  | inr other ↦
      let ne : from ≢ to = λ e. false≢true (sym other ∙ (text_eq_iff from to).1 e) in
      elim (would_create_cycle-decides ds from to) [
        | inl (answer, path) ↦ inr (inl (ne, path, rw (other, answer)))
        | inr (answer, no_path) ↦ inr (inr (ne, no_path, rw (other, answer)))
      ]
]

Edge-append :
    (ds : AuthorityMap) (e : DelegationEntry) (a b : Text)
    → Edge (ds ++ e ∷ []) a b
    → Edge ds a b ⊎ ((e.from ≡ a) × (e.to ≡ b))
Edge-append ds e a b (d, m, f, t) = elim (In-append_cases d ds (e ∷ []) m) [
  | inl old ↦ inl (d, old, f, t)
  | inr (inl same) ↦
      inr
        (ap (λ (x : DelegationEntry). x.from) same ∙ f, ap (λ (x : DelegationEntry). x.to) same ∙ t)
  | inr (inr none_left) ↦ absurd none_left
]

pub Delegates-trans :
    (ds : AuthorityMap) (a b c : Text) → Delegates ds a b → Delegates ds b c → Delegates ds a c
Delegates-trans ds a b c p here = p
Delegates-trans ds a b c p (step {b = m} q edge) = step (Delegates-trans ds a b m p q) edge

-- A path over one entry more is an old path, or runs through the new entry.
Delegates-append :
    (ds : AuthorityMap) (e : DelegationEntry) (a b : Text)
    → Delegates (ds ++ e ∷ []) a b
    → Delegates ds a b ⊎ (Delegates ds a e.from × Delegates ds e.to b)
Delegates-append ds e a b here = inl here
Delegates-append ds e a b (step {b = m} p edge) = elim (Delegates-append ds e a m p) [
  | inl old ↦ elim (Edge-append ds e m b edge) [
    | inl known ↦ inl (step old known)
    | inr (f, t) ↦ inr (subst (Delegates ds a) (sym f) old, subst (Delegates ds e.to) t here)
  ]
  | inr (before, after) ↦ elim (Edge-append ds e m b edge) [
    | inl known ↦ inr (before, step after known)
    | inr (f, t) ↦ inr (before, subst (Delegates ds e.to) t here)
  ]
]

-- An entry whose target does not lead back to its source closes no cycle.
append-IsAcyclic :
    (ds : AuthorityMap) (e : DelegationEntry)
    → IsAcyclic ds
    → ¬ Delegates ds e.to e.from
    → IsAcyclic (ds ++ e ∷ [])
append-IsAcyclic ds e safe no_path a b edge path = elim (Edge-append ds e a b edge) [
  | inl known ↦ elim (Delegates-append ds e b a path) [
    | inl old ↦ safe a b known old
    | inr (before, after) ↦ no_path (Delegates-trans ds e.to b e.from (step after known) before)
  ]
  | inr (f, t) ↦ elim (Delegates-append ds e b a path) [
    | inl old ↦
        no_path
          (subst (λ (x : Text). Delegates ds x e.from) (sym t) (subst (Delegates ds b) (sym f) old))
    | inr (before, after) ↦ no_path (subst (λ (x : Text). Delegates ds x e.from) (sym t) before)
  ]
]

-- A request to delegate; one that is refused leaves the map as it was.
pub record Request : Type 0 where
  pub from : Text
  pub to : Text
  pub permissions : List Text
  pub turn : ℕ

abbrev pub after : AuthorityMap → Result DelegateError AuthorityMap → AuthorityMap
after ds (ok ds') = ds'
after ds (err e) = ds

unfoldable pub delegate_all : AuthorityMap → List Request → AuthorityMap
delegate_all ds [] = ds
delegate_all ds (r ∷ rs) = delegate_all (after ds (delegate ds r.from r.to r.permissions r.turn)) rs

delegate-IsAcyclic :
    (ds : AuthorityMap) (r : Request)
    → IsAcyclic ds
    → IsAcyclic (after ds (delegate ds r.from r.to r.permissions r.turn))
delegate-IsAcyclic ds r safe = elim (delegate-cases ds r.from r.to r.permissions r.turn) [
  | inl (_, e) ↦ rw e safe
  | inr (inl (_, _, e)) ↦ rw e safe
  | inr (inr (_, no_path, e)) ↦
      rw e (append-IsAcyclic ds (entry r.from r.to r.permissions r.turn) safe no_path)
]

delegate_all-keeps :
    (ds : AuthorityMap) (rs : List Request) → IsAcyclic ds → IsAcyclic (delegate_all ds rs)
unfolding delegate_all
delegate_all-keeps ds [] safe = safe
delegate_all-keeps ds (r ∷ rs) safe =
    delegate_all-keeps (after ds (delegate ds r.from r.to r.permissions r.turn)) rs
      (delegate-IsAcyclic ds r safe)

-- Whatever is requested of a new map, its delegations have no cycle of any length: no name that a
-- name delegates to leads back to it.
pub delegate_all-IsAcyclic :
    (rs : List Request) (a b : Text)
    → Edge (delegate_all [] rs) a b
    → ¬ Delegates (delegate_all [] rs) b a
delegate_all-IsAcyclic rs = delegate_all-keeps [] rs (λ a b edge path. edge.1)
