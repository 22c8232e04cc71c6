-- ===== src/Stance/Contradiction.antt =====
-- Temporal contradictions of qxfx0-types/src/stance.rs against their description.
use mathlib.Core.List.{reverse, reverse-append, reverse-reverse, reverse-cons, append_assoc}
use mathlib.Core.Bool.{false≢true}
use qx_fx0rust.Base.{
  ◌<◌, ◌≡◌, ◌≢◌, refl, sym, ap, ◌∙◌, ◌↔◌, ◌⊎◌, inl, inr, Bool, true, false, none, some, List, [],
  ◌∷◌, ◌++◌, arith, find, All, In, All-imp, In-append_right, All-reverse, subst, Bool-cases,
  Option-cases,
}
use qx_fx0rust.Base.Text.{text_eq_iff}
use qx_fx0rust.Stance.{
  StanceObservation, BoundedStanceProvenance, TemporalStanceContradiction, StanceSource,
  system_decision, user_input, external_reference, is_system_decision, polarity_eq, contradicts,
  detect_temporal_contradiction,
}

-- A past system decision of the other polarity on the same topic.
abbrev pub Contradicts : StanceObservation → StanceObservation → Type 0
Contradicts current h =
    (h.source ≡ system_decision)
    × (h.turn < current.turn)
    × (h.topic.as_str ≡ current.topic.as_str)
    × (h.polarity ≢ current.polarity)

contradicts_iff :
    (current h : StanceObservation) → (contradicts current h ≡ true) ↔ Contradicts current h
unfolding contradicts is_system_decision polarity_eq
contradicts_iff current h = ground (arith, text_eq_iff h.topic.as_str current.topic.as_str)

-- What `find` returns is the first element that passes; when it returns nothing, none does.
find-some {ℓ} :
    {A : Type ℓ} (p : A → Bool) (xs : List A) (y : A)
    → find p xs ≡ some y
    → (before : List A) × (after : List A) × (xs ≡ before ++ y ∷ after)
      × (p y ≡ true)
      × All (λ x. p x ≡ false) before
find-some p [] y e = cc
find-some p (x ∷ xs) y e = elim (Bool-cases (p x)) [
  | inl pass ↦
      let same : x ≡ y = ground arith in
      ([], xs, ap (λ z. z ∷ xs) same, subst (λ z. p z ≡ true) same pass, tt)
  | inr skip ↦
      let rest = find-some p xs y (rw skip at e) in
      (x ∷ rest.0, rest.1, ap (◌∷◌ x) rest.2, rest.3, (skip, rest.4))
]

find-none {ℓ} :
    {A : Type ℓ} (p : A → Bool) (xs : List A) → find p xs ≡ none → All (λ x. p x ≡ false) xs
find-none p [] e = tt
find-none p (x ∷ xs) e = elim (Bool-cases (p x)) [
  | inl pass ↦ ground arith
  | inr skip ↦ (skip, find-none p xs (rw skip at e))
]

-- The newest contradiction of the history.
abbrev pub Newest : List StanceObservation → StanceObservation → StanceObservation → Type 0
Newest observations current h =
    (older : List StanceObservation) × (newer : List StanceObservation) × (observations
      ≡ older ++ h ∷ newer)
    × All (λ x. ¬ Contradicts current x) newer

not_contradicts :
    (current : StanceObservation) (xs : List StanceObservation)
    → All (λ x. contradicts current x ≡ false) xs
    → All (λ x. ¬ Contradicts current x) xs
not_contradicts current xs =
    All-imp _ _ (λ x f c. false≢true (sym f ∙ (contradicts_iff current x).1 c)) xs

-- The first hit from the end of a list, seen from its start.
Newest-of_find :
    (current h : StanceObservation) (xs : List StanceObservation)
    → find (contradicts current) (reverse xs) ≡ some h
    → Contradicts current h × Newest xs current h
Newest-of_find current h xs e =
    let r = find-some (contradicts current) (reverse xs) h e in
    (
      (contradicts_iff current h).0 r.3,
      (
        reverse r.1,
        reverse r.0,
        sym (reverse-reverse xs)
            ∙ ap reverse r.2
            ∙ reverse-append r.0 (h ∷ r.1)
            ∙ ap (λ z. z ++ reverse r.0) (reverse-cons h r.1)
            ∙ append_assoc (reverse r.1) (h ∷ []) (reverse r.0),
        not_contradicts current (reverse r.0)
            (All-reverse (λ x. contradicts current x ≡ false) r.0 r.4),
      ),
    )

none_of_find :
    (current : StanceObservation) (xs : List StanceObservation)
    → find (contradicts current) (reverse xs) ≡ none
    → All (λ x. ¬ Contradicts current x) xs
none_of_find current xs e = subst (All (λ x. ¬ Contradicts current x)) (reverse-reverse xs) (
    All-reverse (λ x. ¬ Contradicts current x) (reverse xs)
      (not_contradicts current (reverse xs) (find-none (contradicts current) (reverse xs) e)))

Newest-In :
    (xs : List StanceObservation) (current h : StanceObservation) → Newest xs current h → In h xs
Newest-In xs current h (older, newer, e, _) =
    subst (In h) (sym e) (In-append_right h older (h ∷ newer) (inl refl))

source_cases :
    (r : StanceSource)
    → (r ≡ system_decision) ⊎ ((r ≢ system_decision) × (is_system_decision r ≡ false))
unfolding is_system_decision
source_cases system_decision = inl refl
source_cases user_input = inr (λ e. cc, refl)
source_cases external_reference = inr (λ e. cc, refl)

-- Detection reports nothing if the current observation is no system decision, or if no
-- observation of the history contradicts it; otherwise it reports the newest one that does.
pub detect_temporal_contradiction-Newest :
    (s : BoundedStanceProvenance) (current : StanceObservation)
    → ((current.source ≢ system_decision) × (detect_temporal_contradiction s current ≡ none))
      ⊎ ((current.source ≡ system_decision)
          × (detect_temporal_contradiction s current ≡ none)
          × All (λ x. ¬ Contradicts current x) s.observations)
      ⊎ ((h : StanceObservation) × (current.source ≡ system_decision)
          × (detect_temporal_contradiction s current
              ≡ some (record { current = current; historical = h }))
          × Contradicts current h
          × Newest s.observations current h)
unfolding detect_temporal_contradiction
detect_temporal_contradiction-Newest s current = elim (source_cases current.source) [
  | inr (other, test) ↦ inl (other, rw test)
  | inl system ↦
      let test : is_system_decision current.source ≡ true =
        ap is_system_decision system ∙ (unfold is_system_decision in refl) in
      elim (Option-cases (find (contradicts current) (reverse s.observations))) [
        | inl miss ↦ inr (inl (system, rw (test, miss), none_of_find current s.observations miss))
        | inr (h, hit) ↦
            let r = Newest-of_find current h s.observations hit in
            inr (inr (h, system, rw (test, hit), r.0, r.1))
      ]
]

-- What a reported contradiction is made of.
pub detect_temporal_contradiction-some :
    (s : BoundedStanceProvenance) (current : StanceObservation) (c : TemporalStanceContradiction)
    → detect_temporal_contradiction s current ≡ some c
    → (c.current ≡ current) × (current.source ≡ system_decision) × Contradicts current c.historical
detect_temporal_contradiction-some s current c f =
    elim (detect_temporal_contradiction-Newest s current) [
      | inl (other, e) ↦ absurd (cc)
      | inr (inl (system, e, none_does)) ↦ absurd (cc)
      | inr (inr (h, system, e, holds, newest)) ↦
          let same : record { current = current; historical = h } ≡ c = cc in
          (
            sym (ap (λ (x : TemporalStanceContradiction). x.current) same),
            system,
            subst (Contradicts current)
                (ap (λ (x : TemporalStanceContradiction). x.historical) same) holds,
          )
    ]
