-- ===== src/Perspective/Sound.antt =====
-- `integrate_curated_claims` of qxfx0-self/src/fact_perspective.rs keeps a perspective valid.
use qx_fx0rust.Base.{
  ℕ, suc, ◌≤◌, ◌≡◌, refl, sym, ap, subst, ◌⊎◌, inl, inr, Bool, true, false, Option, none, some,
  List, [], ◌∷◌, All, arith, Result, ok, err, if◌then◌else◌, Bool-cases, Option-cases,
}
use qx_fx0rust.Base.Text.{Text, text_eq_iff}
use qx_fx0rust.Base.Order.{text_ord}
use qx_fx0rust.Base.OrdMap.{get, contains_key, IsSorted}
use qx_fx0rust.Perspective.Facts.{FactRecord, FactRegistry, select}
use qx_fx0rust.Perspective.{
  PerspectiveState, Revised, ClaimRole, thesis, support, counterpoint, consequence, dialogue_act,
  validate_perspective,
}
use qx_fx0rust.Perspective.Integrate.{
  is_dialogue_act, is_other_subject, select_claims, apply_claim, apply_claims, PerspectiveUpdate,
  is_full_for, integrate_curated_claims,
}
use qx_fx0rust.Perspective.Validate.{validate_perspective-IsSound}
use qx_fx0rust.Perspective.Revise.{IsKept, HasRoom}
use qx_fx0rust.Perspective.Keeps.{establish-IsKept, qualify-IsKept, reinforce-IsKept}

-- Facts of at most 10000 basis points, as the loading of a registry admits them.
abbrev pub IsRated : Text × FactRecord → Type 0
IsRated (id, fact) = fact.confidence_basis_points ≤ 10000

get-IsRated :
    (id : Text) (fact : FactRecord) (facts : FactRegistry)
    → All IsRated facts
    → get id facts ≡ some fact
    → fact.confidence_basis_points ≤ 10000
unfolding get
get-IsRated id fact [] a e = absurd (cc)
get-IsRated id fact ((j, q) ∷ facts) a e = ground (arith, get-IsRated id fact facts a.1)

select-IsRated :
    (id : Text) (fact : FactRecord) (facts : FactRegistry)
    → All IsRated facts
    → select facts id ≡ ok fact
    → fact.confidence_basis_points ≤ 10000
unfolding select
select-IsRated id fact facts a e = elim (Option-cases (get id facts)) [
  | inl absent ↦ absurd (cc (rw absent at e))
  | inr (r, found) ↦ ground (arith, found, get-IsRated id r facts a found)
]

-- A fact of the subject, of at most 10000 basis points.
abbrev IsFor : Option Text → ClaimRole × FactRecord → Type 0
IsFor topic (role, fact) = (topic ≡ some fact.subject) × (fact.confidence_basis_points ≤ 10000)

Result-cases : {E A : Type 0} (r : Result E A) → ((a : A) × (r ≡ ok a)) ⊎ ((e : E) × (r ≡ err e))
Result-cases (ok a) = inl (a, refl)
Result-cases (err e) = inr (e, refl)

-- What a selection yields, or what is given where it fails.
abbrev Selection : Type 0
Selection = Option Text × List (ClaimRole × FactRecord)

abbrev selection_of : Selection → Revised Selection → Selection
selection_of d (ok r) = r
selection_of d (err e) = d

abbrev IsAllFor : Text → Selection → Type 0
IsAllFor q r = (r.0 ≡ some q) × All (IsFor (some q)) r.1

-- The selection goes on with one claim where it may.
select_one :
    (facts : FactRegistry) (topic : Option Text) (role : ClaimRole) (id : Text)
    (claims : List (ClaimRole × Text)) (r : Selection)
    → All IsRated facts
    → select_claims facts topic ((role, id) ∷ claims) ≡ ok r
    → (fact : FactRecord) × (rest : Selection) × (fact.confidence_basis_points ≤ 10000)
      × (is_other_subject topic fact ≡ false)
      × (select_claims facts (some fact.subject) claims ≡ ok rest)
      × ((rest.0, (role, fact) ∷ rest.1) ≡ r)
unfolding select_claims
select_one facts topic role id claims r rated e = elim (Bool-cases (is_dialogue_act role)) [
  | inl act ↦ absurd (cc (rw act at e))
  | inr claim ↦ elim (Result-cases (select facts id)) [
    | inr (x, fails) ↦ absurd (cc (rw (claim, fails) at e))
    | inl (fact, found) ↦ elim (Bool-cases (is_other_subject topic fact)) [
      | inl other ↦ absurd (cc (rw (claim, found, other) at e))
      | inr same ↦ elim (Result-cases (select_claims facts (some fact.subject) claims)) [
        | inr (x, fails) ↦ absurd (cc (rw (claim, found, same, fails) at e))
        | inl (rest, done) ↦ (
          fact,
          rest,
          select-IsRated id fact facts rated found,
          same,
          done,
          ap (selection_of r) (rw (claim, found, same, done) at e),
        )
      ]
    ]
  ]
]

select_claims-IsFor :
    (facts : FactRegistry) (q : Text) (claims : List (ClaimRole × Text)) (r : Selection)
    → All IsRated facts
    → select_claims facts (some q) claims ≡ ok r
    → IsAllFor q r
unfolding select_claims
select_claims-IsFor facts q [] r rated e = subst (IsAllFor q) (ap (selection_of r) e) (refl, tt)
select_claims-IsFor facts q ((role, id) ∷ claims) r rated e =
    let (fact, rest, low, subject, done, same) =
      select_one facts (some q) role id claims r rated e in
    let here : q ≡ fact.subject = ground (arith, subject, text_eq_iff q fact.subject) in
    let later =
      select_claims-IsFor facts q claims rest rated
        (subst (λ (k : Text). select_claims facts (some k) claims ≡ ok rest) (sym here) done) in
    subst (IsAllFor q) same (later.0, ((ap some here, low), later.1))

apply_claim-IsKept :
    (turn : ℕ) (role : ClaimRole) (fact : FactRecord) (s s' : PerspectiveState) (b : Bool)
    → IsKept s
    → HasRoom fact.subject s
    → fact.confidence_basis_points ≤ 10000
    → apply_claim turn role fact s ≡ ok (s', b)
    → IsKept s' × (contains_key fact.subject s'.opinions ≡ true)
unfolding apply_claim
apply_claim-IsKept turn thesis fact s s' b v room rated e =
    establish-IsKept s s' turn fact b v room rated e
apply_claim-IsKept turn counterpoint fact s s' b v room rated e =
    qualify-IsKept s s' turn fact b v rated e
apply_claim-IsKept turn consequence fact s s' b v room rated e =
    reinforce-IsKept s s' turn fact b v rated e
apply_claim-IsKept turn support fact s s' b v room rated e =
    reinforce-IsKept s s' turn fact b v rated e
apply_claim-IsKept turn dialogue_act fact s s' b v room rated e = absurd (cc)

abbrev applied_of : PerspectiveState × ℕ → Revised (PerspectiveState × ℕ) → PerspectiveState
applied_of d (ok r) = r.0
applied_of d (err e) = d.0

apply_claims-IsKept :
    (turn : ℕ) (topic : Text) (selected : List (ClaimRole × FactRecord)) (s s' : PerspectiveState)
    (added total : ℕ)
    → IsKept s
    → HasRoom topic s
    → All (IsFor (some topic)) selected
    → apply_claims turn selected s added ≡ ok (s', total)
    → IsKept s'
unfolding apply_claims
apply_claims-IsKept turn topic [] s s' added total v room all e =
    subst IsKept (ap (applied_of (s, added)) e) v
apply_claims-IsKept turn topic ((role, fact) ∷ selected) s s' added total v room all e =
    elim (Result-cases (apply_claim turn role fact s)) [
      | inr (x, fails) ↦ absurd (cc (rw fails at e))
      | inl ((s1, b), done) ↦
          let same : topic ≡ fact.subject = cc (all.0.0) in
          let one =
            apply_claim-IsKept turn role fact s s1 b v (subst (λ (k : Text). HasRoom k s) same room)
              all.0.1 done in
          let there : contains_key topic s1.opinions ≡ true =
            subst (λ (k : Text). contains_key k s1.opinions ≡ true) (sym same) one.1 in
          apply_claims-IsKept turn topic selected s1 s' (if b then suc added else added) total one.0
            (inl there) all.1 (rw done at e)
    ]

abbrev integrated_of :
    PerspectiveState → Revised (PerspectiveState × PerspectiveUpdate) → PerspectiveState
integrated_of d (ok r) = r.0
integrated_of d (err e) = d

integrated :
    (s s' : PerspectiveState) (turn : ℕ) (claims : List (ClaimRole × Text)) (facts : FactRegistry)
    (u : PerspectiveUpdate)
    → All IsRated facts
    → IsKept s
    → integrate_curated_claims s turn claims facts ≡ ok (s', u)
    → IsKept s'
unfolding integrate_curated_claims
integrated s s' turn [] facts u rated v e = subst IsKept (ap (integrated_of s) e) v
integrated s s' turn ((role, id) ∷ claims) facts u rated v e =
    elim (Result-cases (select_claims facts none ((role, id) ∷ claims))) [
      | inr (x, fails) ↦ absurd (cc (rw fails at e))
      | inl (r, chosen) ↦
          let (fact, rest, low, _, done, same) =
            select_one facts none role id claims r rated chosen in
          let later = select_claims-IsFor facts fact.subject claims rest rated done in
          let all : IsAllFor fact.subject r =
            subst (IsAllFor fact.subject) same (later.0, ((refl, low), later.1)) in
          elim (Bool-cases (is_full_for s r.0)) [
            | inl full ↦ absurd (cc (rw (chosen, full) at e))
            | inr free ↦ elim (Result-cases (apply_claims turn r.1 s 0)) [
              | inr (x, fails) ↦ absurd (cc (rw (chosen, free, fails) at e))
              | inl ((next, total), applied) ↦
                  let room : HasRoom fact.subject s =
                    ground (arith, free, ap (is_full_for s) all.0) in
                  subst IsKept (ap (integrated_of s) (rw (chosen, free, applied) at e))
                    (apply_claims-IsKept turn fact.subject r.1 s next 0 total v room all.1 applied)
            ]
          ]
    ]

-- Integrating claims keeps a perspective valid. Where it returns a state, from a valid one with a
-- registry whose facts have at most 10000 basis points each, that state is valid too; the opinions
-- stay sorted.
pub integrate_curated_claims-IsKept :
    (s s' : PerspectiveState) (turn : ℕ) (claims : List (ClaimRole × Text)) (facts : FactRegistry)
    (u : PerspectiveUpdate)
    → All IsRated facts
    → IsSorted text_ord s.opinions
    → validate_perspective s ≡ []
    → integrate_curated_claims s turn claims facts ≡ ok (s', u)
    → (validate_perspective s' ≡ []) × IsSorted text_ord s'.opinions
integrate_curated_claims-IsKept s s' turn claims facts u rated sorted valid e =
    let v : IsKept s = record {
      sound = (validate_perspective-IsSound s).0 valid;
      sorted = sorted;
    } in
    let kept : IsKept s' = integrated s s' turn claims facts u rated v e in
    ((validate_perspective-IsSound s').1 kept.sound, kept.sorted)
