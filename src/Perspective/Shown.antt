-- ===== src/Perspective/Shown.antt =====
-- When a renderer may show a stance: `resolve_render_stance` of
-- qxfx0-self/src/fact_perspective.rs, decided.
use qx_fx0rust.Base.{
  subst, ◌≡◌, refl, sym, ap, ◌∙◌, ◌↔◌, ◌⊎◌, inl, inr, Bool, true, false, not, ◌||◌, Option, none,
  some, [], ◌∷◌, All, any, Result, ok, err, ◌>>=◌, ◌>>◌, fail_if, arith, Bool-cases,
}
use qx_fx0rust.Base.Text.{Text, text_eq, text_eq_iff}
use qx_fx0rust.Base.Order.{text_ord}
use qx_fx0rust.Base.OrdMap.{get, contains_key}
use qx_fx0rust.Perspective.Facts.{FactRecord, FactRegistry, FactRegistryError, select}
use qx_fx0rust.Perspective.{
  BeliefPolarity, affirmed, qualified, opposed, FactSet, OpinionCore, PerspectiveState,
  counters_fact,
}
use qx_fx0rust.Perspective.Render.{
  PerspectiveRenderStance, render_neutral, render_affirmed, render_qualified, RenderError,
  key_differs, primary_differs, omits_thesis, Resolved, check_grounding, stance_of, resolve_by,
  resolve_render_stance,
}

-- A fact that the registry selects, about the topic.
abbrev pub IsAbout : FactRegistry → Text → Text → Type 0
IsAbout facts topic id = (fact : FactRecord) × (select facts id ≡ ok fact) × (fact.subject ≡ topic)

-- Whether a fact of the grounding counters the thesis.
abbrev pub counters_in : Text → Result FactRegistryError FactRecord → Bool
counters_in thesis (ok fact) = any (counters_fact thesis) fact.conditions
counters_in thesis (err e) = false

abbrev pub counters_thesis : FactRegistry → Text → Text → Bool
counters_thesis facts thesis id = counters_in thesis (select facts id)

abbrev pub has_counterpoint : FactRegistry → Text → FactSet → Bool
has_counterpoint facts thesis = any (λ e. counters_thesis facts thesis e.0)

Selected-cases :
    {A : Type 0} (r : Result FactRegistryError A)
    → ((a : A) × (r ≡ ok a)) ⊎ ((e : FactRegistryError) × (r ≡ err e))
Selected-cases (ok a) = inl (a, refl)
Selected-cases (err e) = inr (e, refl)

Resolved-cases :
    {A : Type 0} (r : Resolved A) → ((a : A) × (r ≡ ok a)) ⊎ ((e : RenderError) × (r ≡ err e))
Resolved-cases (ok a) = inl (a, refl)
Resolved-cases (err e) = inr (e, refl)

or_assoc : (a b c : Bool) → ((a || b) || c) ≡ (a || (b || c))
or_assoc a b c = ground arith

counters_thesis-found :
    (facts : FactRegistry) (thesis id : Text) (fact : FactRecord)
    → select facts id ≡ ok fact
    → counters_thesis facts thesis id ≡ any (counters_fact thesis) fact.conditions
counters_thesis-found facts thesis id fact e = ap (counters_in thesis) e

abbrev pub fact_of : FactRecord → Result FactRegistryError FactRecord → FactRecord
fact_of d (ok fact) = fact
fact_of d (err e) = d

same_fact :
    (facts : FactRegistry) (id : Text) (a b : FactRecord)
    → select facts id ≡ ok a
    → select facts id ≡ ok b
    → a ≡ b
same_fact facts id a b p q = ap (λ r. fact_of a r) (sym p ∙ q)

-- The answer with one fact more in front.
with_first :
    (facts : FactRegistry) (thesis id : Text) (fact : FactRecord) (g : FactSet) (before : Bool)
    → select facts id ≡ ok fact
    → ((before || any (counters_fact thesis) fact.conditions) || has_counterpoint facts thesis g)
      ≡ (before || (counters_thesis facts thesis id || has_counterpoint facts thesis g))
with_first facts thesis id fact g before found =
    or_assoc before (any (counters_fact thesis) fact.conditions) (has_counterpoint facts thesis g)
    ∙ ap (λ (b : Bool). before || (b || has_counterpoint facts thesis g))
        (sym (counters_thesis-found facts thesis id fact found))

check_grounding-ok :
    (facts : FactRegistry) (topic thesis : Text) (g : FactSet) (before after : Bool)
    → (check_grounding facts topic thesis g before ≡ ok after) ↔ (
        All (λ e. IsAbout facts topic e.0) g
        × (after ≡ (before || has_counterpoint facts thesis g)))
unfolding check_grounding
check_grounding-ok facts topic thesis [] before after = ground arith
check_grounding-ok facts topic thesis ((id, u) ∷ g) before after =
    elim (Selected-cases (select facts id)) [
      | inr (e, fails) ↦
          (λ h. absurd (cc (rw fails at h)), λ h. let chosen = h.0.0.1 in absurd (cc))
      | inl (fact, found) ↦
          let now = before || any (counters_fact thesis) fact.conditions in
          let rest = check_grounding-ok facts topic thesis g now after in
          elim (Bool-cases (text_eq fact.subject topic)) [
            | inr other ↦ (
              λ h. absurd (cc (rw (found, other) at h)),
              λ h.
                  let same = same_fact facts id fact h.0.0.0 found h.0.0.1 in
                  let about = ap (λ (f : FactRecord). f.subject) same ∙ h.0.0.2 in
                  absurd (cc ((text_eq_iff fact.subject topic).1 about)),
            )
            | inl same ↦ (
              λ h.
                  let r = rest.0 (rw (found, same) at h) in
                  (
                    ((fact, found, (text_eq_iff fact.subject topic).0 same), r.0),
                    r.1 ∙ with_first facts thesis id fact g before found,
                  ),
              λ h.
                  rw (found, same)
                    (rest.1 (h.0.1, h.1 ∙ sym (with_first facts thesis id fact g before found))),
            )
          ]
    ]

-- What lets a renderer show a stance on the topic for a thesis: the thesis is a selected fact
-- about the topic, and either there is no opinion on it, or the opinion is on that topic with that
-- thesis as its primary fact, all of its grounding is selected and about the topic, and its
-- polarity agrees with whether a fact of the grounding counters the thesis.
abbrev pub Supports : FactRegistry → Text → Text → OpinionCore → Type 0
Supports facts topic thesis o =
    (o.topic ≡ topic)
    × (o.primary_fact ≡ thesis)
    × (contains_key thesis o.grounding_facts ≡ true)
    × All (λ e. IsAbout facts topic e.0) o.grounding_facts

abbrev pub Agrees : BeliefPolarity → Bool → PerspectiveRenderStance → Type 0
Agrees affirmed counterpoint stance = (counterpoint ≡ false) × (stance ≡ render_affirmed)
Agrees qualified counterpoint stance = (counterpoint ≡ true) × (stance ≡ render_qualified)
Agrees opposed counterpoint stance = ⊥

abbrev pub Shows :
    FactRegistry → Text → Text → Option OpinionCore → PerspectiveRenderStance → Type 0
Shows facts topic thesis none stance = stance ≡ render_neutral
Shows facts topic thesis (some o) stance =
    Supports facts topic thesis o
    × Agrees o.polarity (has_counterpoint facts thesis o.grounding_facts) stance

stance_of-ok :
    (p : BeliefPolarity) (b : Bool) (r : PerspectiveRenderStance)
    → (stance_of p b ≡ ok r) ↔ Agrees p b r
unfolding stance_of
stance_of-ok affirmed b r = ground arith
stance_of-ok qualified b r = ground arith
stance_of-ok opposed b r = (λ e. absurd (cc), λ e. absurd e)

-- A guard in front of a result.
fail_if-ok :
    {A : Type 0} (c : Bool) (x : RenderError) (r : Resolved A) (a : A)
    → ((fail_if (not c) x >> r) ≡ ok a) ↔ ((c ≡ true) × (r ≡ ok a))
fail_if-ok true x r a = (λ e. (refl, e), λ h. h.1)
fail_if-ok false x r a = (λ e. absurd (cc), λ h. absurd (cc (h.0)))

stance-ok :
    (o : OpinionCore) (counter : Bool) (checked : Resolved Bool) (all : Type 0)
    (r : PerspectiveRenderStance)
    → ((b : Bool) → (checked ≡ ok b) ↔ (all × (b ≡ counter)))
    → ((checked >>= stance_of o.polarity) ≡ ok r) ↔ (all × Agrees o.polarity counter r)
stance-ok o counter (err x) all r h =
    (λ e. absurd (cc), λ a. absurd (cc ((h counter).1 (a.0, refl))))
stance-ok o counter (ok b) all r h =
    let found = (h b).0 refl in
    (
      λ e. (
        found.0,
        subst (λ (v : Bool). Agrees o.polarity v r) found.1 ((stance_of-ok o.polarity b r).0 e),
      ),
      λ a.
          (stance_of-ok o.polarity b r).1
            (subst (λ (v : Bool). Agrees o.polarity v r) (sym found.1) a.1),
    )

resolve_by-ok :
    (facts : FactRegistry) (topic thesis : Text) (o : Option OpinionCore)
    (r : PerspectiveRenderStance)
    → (resolve_by facts topic thesis o ≡ ok r) ↔ Shows facts topic thesis o r
resolve_by-ok facts topic thesis none r = ground arith
resolve_by-ok facts topic thesis (some o) r =
    let grounding = check_grounding facts topic thesis o.grounding_facts false in
    let last = grounding >>= stance_of o.polarity in
    let third = fail_if (not (contains_key thesis o.grounding_facts)) omits_thesis >> last in
    let second = fail_if (not (text_eq o.primary_fact thesis)) primary_differs >> third in
    let g1 = fail_if-ok (text_eq o.topic topic) key_differs second r in
    let g2 = fail_if-ok (text_eq o.primary_fact thesis) primary_differs third r in
    let g3 = fail_if-ok (contains_key thesis o.grounding_facts) omits_thesis last r in
    let g4 =
      stance-ok o (has_counterpoint facts thesis o.grounding_facts) grounding
        (All (λ e. IsAbout facts topic e.0) o.grounding_facts) r
        (check_grounding-ok facts topic thesis o.grounding_facts false) in
    let same_topic = text_eq_iff o.topic topic in
    let same_thesis = text_eq_iff o.primary_fact thesis in
    (
      λ h.
          let a = g1.0 h in
          let b = g2.0 a.1 in
          let c = g3.0 b.1 in
          let d = g4.0 c.1 in ((same_topic.0 a.0, same_thesis.0 b.0, c.0, d.0), d.1),
      λ h. g1.1 (same_topic.1 h.0.0, g2.1 (same_thesis.1 h.0.1, g3.1 (h.0.2, g4.1 (h.0.3, h.1)))),
    )

-- A stance may be shown exactly if the thesis is a selected fact about the topic and the opinion on
-- the topic supports the stance: neutral if there is none; affirmed or qualified if all of its
-- grounding is selected and about the topic and its polarity agrees with whether a fact of the
-- grounding counters the thesis. In every other case the resolution fails.
pub resolve_render_stance-ok :
    (s : PerspectiveState) (topic thesis : Text) (facts : FactRegistry)
    (r : PerspectiveRenderStance)
    → (resolve_render_stance s topic thesis facts ≡ ok r)
      ↔ (IsAbout facts topic thesis × Shows facts topic thesis (get topic s.opinions) r)
unfolding resolve_render_stance
resolve_render_stance-ok s topic thesis facts r =
    let by = resolve_by-ok facts topic thesis (get topic s.opinions) r in
    (
      λ h. elim (Selected-cases (select facts thesis)) [
        | inr (e, fails) ↦ absurd (cc (rw fails at h))
        | inl (fact, found) ↦ elim (Bool-cases (text_eq fact.subject topic)) [
          | inr other ↦ absurd (cc (rw (found, other) at h))
          | inl same ↦
              ((fact, found, (text_eq_iff fact.subject topic).0 same), by.0 (rw (found, same) at h))
        ]
      ],
      λ h. rw (h.0.1, (text_eq_iff h.0.0.subject topic).1 h.0.2) (by.1 h.1),
    )
