-- ===== src/Perspective/Renderable.antt =====
-- A perspective that the curated facts validate is fit to be rendered:
-- `validate_perspective_against_pack` and `resolve_render_stance` of
-- qxfx0-self/src/fact_perspective.rs.
use qx_fx0rust.Base.{
  subst, ◌≡◌, ◌≢◌, refl, sym, ap, ◌∙◌, inl, inr, Bool, true, false, not, ◌&&◌, Option, some, List,
  [], ◌∷◌, ◌++◌, All, Result, ok, err, arith, append-nil_iff, Bool-cases, ◌==◌,
}
use qx_fx0rust.Base.Text.{Text, text_eq, text_eq_iff}
use qx_fx0rust.Base.Order.{text_ord}
use qx_fx0rust.Base.OrdMap.{get}
use qx_fx0rust.Perspective.Facts.{FactRecord, FactRegistry, FactRegistryError, select}
use qx_fx0rust.Perspective.{
  BeliefPolarity, affirmed, qualified, opposed, FactSet, OpinionCore, Opinions, PerspectiveState,
  PerspectiveViolation, validate_perspective,
}
use qx_fx0rust.Perspective.Validate.{IsGrounded, validate_perspective-IsSound}
use qx_fx0rust.Perspective.Render.{
  PerspectiveRenderStance, render_neutral, render_affirmed, render_qualified, resolve_render_stance,
}
use qx_fx0rust.Perspective.Shown.{
  IsAbout, Agrees, Shows, has_counterpoint, counters_in, fact_of, resolve_render_stance-ok,
}
use qx_fx0rust.Perspective.Pack.{
  PackViolation, flag, of_states, check_subject, is_fact_with, counters_primary, check_facts,
  any_counterpoint, check_polarity, check_authority, fact_of_other_topic, invalid_fact,
  primary_of_other_topic, invalid_primary, zero_revision,
}
use qx_fx0rust.Perspective.History.{
  check_history, check_latest, history_after, no_history, validate_perspective_against_pack,
}

pub flag-nil : (b : Bool) (v : PackViolation) → flag b v ≡ [] → b ≡ false
flag-nil true v h = absurd (cc)
flag-nil false v h = refl

of_states-nil : (vs : List PerspectiveViolation) → of_states vs ≡ [] → vs ≡ []
of_states-nil [] h = refl
of_states-nil (v ∷ vs) h = absurd (cc)

subject-nil :
    (topic : Text) (other invalid : PackViolation) (r : Result FactRegistryError FactRecord)
    → check_subject topic other invalid r ≡ []
    → (fact : FactRecord) × (r ≡ ok fact) × (fact.subject ≡ topic)
subject-nil topic other invalid (ok fact) h = (
  fact,
  refl,
  ground
      (arith, flag-nil (not (text_eq fact.subject topic)) other h, text_eq_iff fact.subject topic),
)
subject-nil topic other invalid (err e) h = absurd (cc)

facts-nil :
    (facts : FactRegistry) (topic : Text) (g : FactSet)
    → check_facts facts topic g ≡ []
    → All (λ e. IsAbout facts topic e.0) g
unfolding check_facts
facts-nil facts topic [] h = tt
facts-nil facts topic ((id, u) ∷ g) h =
    let here =
      check_subject topic (fact_of_other_topic id) (invalid_fact topic) (select facts id) in
    let parts = (append-nil_iff here (check_facts facts topic g)).0 h in
    (
      subject-nil topic (fact_of_other_topic id) (invalid_fact topic) (select facts id) parts.0,
      facts-nil facts topic g parts.1,
    )

-- For a fact about the topic, both loops ask the same.
same_test :
    (topic primary : Text) (r : Result FactRegistryError FactRecord)
    → ((fact : FactRecord) × (r ≡ ok fact) × (fact.subject ≡ topic))
    → is_fact_with topic (counters_primary primary) r ≡ counters_in primary r
same_test topic primary (err e) a = refl
same_test topic primary (ok fact) (other, same, about) =
    let subjects : fact.subject ≡ other.subject = ap (λ r. (fact_of fact r).subject) same in
    let fits = (text_eq_iff fact.subject topic).1 (subjects ∙ about) in rw fits refl

counterpoint-same :
    (facts : FactRegistry) (topic primary : Text) (g : FactSet)
    → All (λ e. IsAbout facts topic e.0) g
    → any_counterpoint facts topic primary g ≡ has_counterpoint facts primary g
counterpoint-same facts topic primary [] a = refl
counterpoint-same facts topic primary ((id, u) ∷ g) a =
    rw (same_test topic primary (select facts id) a.0, counterpoint-same facts topic primary g a.1)
      refl

-- A stance that is not the neutral one.
abbrev Speaks : BeliefPolarity → Bool → Type 0
Speaks p counterpoint =
    (r : PerspectiveRenderStance) × (r ≢ render_neutral) × Agrees p counterpoint r

polarity-nil :
    (topic : Text) (p : BeliefPolarity) (counterpoint : Bool)
    → check_polarity topic p counterpoint ≡ []
    → Speaks p counterpoint
polarity-nil topic affirmed true h = absurd (cc)
polarity-nil topic affirmed false h = (render_affirmed, λ e. absurd (cc), (refl, refl))
polarity-nil topic qualified true h = (render_qualified, λ e. absurd (cc), (refl, refl))
polarity-nil topic qualified false h = absurd (cc)
polarity-nil topic opposed counterpoint h = absurd (cc)

-- What the first loop makes sure of, for one opinion.
abbrev IsAuthorized : FactRegistry → Text × OpinionCore → Type 0
IsAuthorized facts (topic, o) =
    IsAbout facts topic o.primary_fact
    × All (λ e. IsAbout facts topic e.0) o.grounding_facts
    × Speaks o.polarity (has_counterpoint facts o.primary_fact o.grounding_facts)

authority-nil :
    (facts : FactRegistry) (os : Opinions)
    → check_authority facts os ≡ []
    → All (IsAuthorized facts) os
unfolding check_authority
authority-nil facts [] h = tt
authority-nil facts ((topic, o) ∷ os) h =
    let primary = select facts o.primary_fact in
    let counterpoint = any_counterpoint facts topic o.primary_fact o.grounding_facts in
    let a =
      check_subject topic (primary_of_other_topic o.primary_fact) (invalid_primary topic) primary in
    let b = check_facts facts topic o.grounding_facts in
    let c = check_polarity topic o.polarity counterpoint in
    let d =
      flag (is_fact_with topic (λ _. true) primary && (o.revision_seq == 0))
        (zero_revision topic) in
    let rest = check_authority facts os in
    let first = (append-nil_iff a (b ++ (c ++ (d ++ rest)))).0 h in
    let second = (append-nil_iff b (c ++ (d ++ rest))).0 first.1 in
    let third = (append-nil_iff c (d ++ rest)).0 second.1 in
    let fourth = (append-nil_iff d rest).0 third.1 in
    let grounded = facts-nil facts topic o.grounding_facts second.0 in
    (
      (
        subject-nil topic (primary_of_other_topic o.primary_fact) (invalid_primary topic) primary
            first.0,
        grounded,
        subst (λ (v : Bool). Speaks o.polarity v)
            (counterpoint-same facts topic o.primary_fact o.grounding_facts grounded)
            (polarity-nil topic o.polarity counterpoint third.0),
      ),
      authority-nil facts os fourth.1,
    )

pub All-get :
    (P : Text × OpinionCore → Type 0) (os : Opinions) (topic : Text) (o : OpinionCore)
    → All P os
    → get topic os ≡ some o
    → P (topic, o)
unfolding get
All-get P [] topic o a h = absurd (cc)
All-get P ((k, v) ∷ os) topic o a h = elim (Bool-cases (text_eq k topic)) [
  | inl same ↦
      let held : some v ≡ some o = rw same at h in
      subst P (cc (held, (text_eq_iff k topic).0 same)) a.0
  | inr other ↦ All-get P os topic o a.1 (rw other at h)
]

-- In a state that the curated facts validate, the stance of every opinion resolves: for its topic
-- and its primary fact there is a stance to render, and it is not the neutral one.
pub validated-renderable :
    (s : PerspectiveState) (facts : FactRegistry) (topic : Text) (o : OpinionCore)
    → validate_perspective_against_pack s facts ≡ []
    → get topic s.opinions ≡ some o
    → (r : PerspectiveRenderStance) × (resolve_render_stance s topic o.primary_fact facts ≡ ok r)
      × (r ≢ render_neutral)
unfolding validate_perspective_against_pack
validated-renderable s facts topic o h held =
    let authority = check_authority facts s.opinions in
    let history = check_history facts s.opinions no_history s.episodes in
    let latest = check_latest (history_after s.opinions no_history s.episodes) s.opinions in
    let first =
      (append-nil_iff (of_states (validate_perspective s)) (authority ++ (history ++ latest))).0
        h in
    let second = (append-nil_iff authority (history ++ latest)).0 first.1 in
    let sound =
      (validate_perspective-IsSound s).0 (of_states-nil (validate_perspective s) first.0) in
    let grounded = All-get IsGrounded s.opinions topic o sound.grounded held in
    let (about, all, (r, speaks, agrees)) =
      All-get (IsAuthorized facts) s.opinions topic o (authority-nil facts s.opinions second.0)
        held in
    let shown : Shows facts topic o.primary_fact (some o) r =
      ((sym grounded.0, refl, grounded.1, all), agrees) in
    (
      r,
      (resolve_render_stance-ok s topic o.primary_fact facts r).1 (
        about,
        subst (λ (v : Option OpinionCore). Shows facts topic o.primary_fact v r) (sym held) shown,
      ),
      speaks,
    )
