-- ===== src/Plan/Admit.antt =====
-- What `ReadyResponsePlan::validate` of qxfx0-semantic/src/response_plan.rs admits.
use qx_fx0rust.Base.{
  ◌≤◌, ◌≡◌, ◌↔◌, true, false, not, ◌&&◌, Option, none, some, List, [], ◌∷◌, ltb, length, any, All,
  is_some, ok, arith, guard_iff, step_iff, ltb_iff,
}
use qx_fx0rust.Base.Text.{Text, text_eq, text_eq_comm, is_blank}
use qx_fx0rust.Base.Distinct.{
  contains, fresh, Distinct, fresh-Distinct, insert_all, contains-insert_all, any-false,
}
use qx_fx0rust.Perspective.{ClaimRole, dialogue_act}
use qx_fx0rust.Plan.{
  iter, PlannedClaim, DialogueObligation, check_agreement, continue_contact, DerivationStep,
  ReadyResponsePlan, is_dialogue, check_claims, foreign_derivation, foreign_obligation,
  too_many_steps, too_many_claims, is_foreign_obligation, validate_plan, max_basis_points,
}

-- A dialogue act cites no fact, and every other claim does.
abbrev pub CitesFact : ClaimRole → Option Text → Type 0
CitesFact dialogue_act fact_id = fact_id ≡ none
CitesFact other fact_id = is_some fact_id ≡ true

pub record IsClaim (c : PlannedClaim) : Type 0 where
  pub named : is_blank c.id ≡ false
  pub predicates : All (λ r. is_blank r ≡ false) (iter c.predicate_refs)
  pub confident : c.confidence ≤ max_basis_points
  pub cites : CitesFact c.role c.fact_id

abbrev pub ids_of : List PlannedClaim → List Text
ids_of [] = []
ids_of (c ∷ claims) = c.id ∷ ids_of claims

abbrev pub claim_ids : ReadyResponsePlan → List Text
claim_ids p = ids_of (iter p.claims)

abbrev pub Obliges : List Text → Option DialogueObligation → Type 0
Obliges ids (some (check_agreement id)) = contains text_eq ids id ≡ true
Obliges ids (some continue_contact) = Unit
Obliges ids none = Unit

-- The plans that validation is to admit.
pub record IsAdmitted (p : ReadyResponsePlan) : Type 0 where
  pub few_claims : length (iter p.claims) ≤ 3
  pub claims : All IsClaim (iter p.claims)
  pub distinct : Distinct text_eq (claim_ids p)
  pub few_steps : length p.derivation ≤ 8
  pub derived : All (λ step. contains text_eq (claim_ids p) step.claim_id ≡ true) p.derivation
  pub obliged : Obliges (claim_ids p) p.obligation

cites_iff :
    (role : ClaimRole) (fact_id : Option Text)
    → (((not (is_dialogue role) && not (is_some fact_id)) ≡ false)
        × ((is_dialogue role && is_some fact_id) ≡ false))
      ↔ CitesFact role fact_id
cites_iff role none = ground arith
cites_iff role (some id) = ground arith

check_claims-ok :
    (seen : List Text) (claims : List PlannedClaim) (ids : List Text)
    → (check_claims seen claims ≡ ok ids) ↔ (
        (All IsClaim claims × (fresh text_eq seen (ids_of claims) ≡ true))
        × (ids ≡ insert_all text_eq seen (ids_of claims)))
unfolding check_claims
check_claims-ok seen [] ids = ground arith
check_claims-ok seen (c ∷ claims) ids = ground (
  arith,
  check_claims-ok (c.id ∷ seen) claims ids,
  any-false is_blank (iter c.predicate_refs),
  cites_iff c.role c.fact_id,
)

derived_iff :
    (ids : List Text) (steps : List DerivationStep)
    → (any (λ step. not (contains text_eq (insert_all text_eq [] ids) step.claim_id)) steps ≡ false)
      ↔ All (λ step. contains text_eq ids step.claim_id ≡ true) steps
derived_iff ids [] = ground arith
derived_iff ids (d ∷ steps) =
    ground (arith, derived_iff ids steps, contains-insert_all text_eq [] ids d.claim_id)

obliged_iff :
    (ids : List Text) (o : Option DialogueObligation)
    → (is_foreign_obligation (insert_all text_eq [] ids) o ≡ false) ↔ Obliges ids o
obliged_iff ids none = ground arith
obliged_iff ids (some continue_contact) = ground arith
obliged_iff ids (some (check_agreement id)) = ground (arith, contains-insert_all text_eq [] ids id)

-- A ready plan validates exactly if it has at most three claims, each with a name, named predicates,
-- a confidence of at most 10000 basis points, and a fact exactly if it is no dialogue act; if no
-- claim id comes twice; and if its derivation has at most eight steps, which are about claims of the
-- plan, as is the claim of an agreement to check.
pub validate_plan-IsAdmitted : (p : ReadyResponsePlan) → (validate_plan p ≡ ok tt) ↔ IsAdmitted p
unfolding validate_plan
validate_plan-IsAdmitted p =
    let claims = iter p.claims in
    let ids = claim_ids p in
    let all_ids = insert_all text_eq [] ids in
    let foreign = any (λ step. not (contains text_eq all_ids step.claim_id)) p.derivation in
    let distinct = fresh-Distinct text_eq text_eq_comm ids in
    let obliged =
      guard_iff (Obliges ids p.obligation) (Unit {0}) (is_foreign_obligation all_ids p.obligation)
        foreign_obligation (ok tt) tt (obliged_iff ids p.obligation) (ground arith) in
    let derived =
      guard_iff (All (λ step. contains text_eq ids step.claim_id ≡ true) p.derivation) _ foreign
        foreign_derivation _ tt (derived_iff ids p.derivation) obliged in
    let steps =
      guard_iff (length p.derivation ≤ 8) _ (ltb 8 (length p.derivation)) too_many_steps _ tt
        (ltb_iff 8 (length p.derivation)) derived in
    let checked =
      step_iff (All IsClaim claims × (fresh text_eq [] ids ≡ true)) _ (check_claims [] claims) _
        all_ids tt (check_claims-ok [] claims) steps in
    let whole =
      guard_iff (length claims ≤ 3) _ (ltb 3 (length claims)) too_many_claims _ tt
        (ltb_iff 3 (length claims)) checked in
    (
      λ h.
          let w = whole.0 h in
          record {
            few_claims = w.0;
            claims = w.1.0.0;
            distinct = distinct.0 w.1.0.1;
            few_steps = w.1.1.0;
            derived = w.1.1.1.0;
            obliged = w.1.1.1.1.0;
          },
      λ a. whole.1 (
        a.few_claims,
        ((a.claims, distinct.1 a.distinct), (a.few_steps, (a.derived, (a.obliged, tt)))),
      ),
    )
