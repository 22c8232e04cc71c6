-- ===== src/Perspective/Latest.antt =====
-- The episodes of a perspective that the curated facts validate, and its opinions:
-- `validate_perspective_against_pack` of qxfx0-self/src/fact_perspective.rs.
use qx_fx0rust.Base.{
  ℕ, ◌+◌, ◌≤◌, ◌≡◌, refl, sym, ap, ◌∙◌, true, false, Option, none, some, List, [], ◌∷◌, ◌++◌, All,
  is_some, if◌then◌else◌, arith, append-nil_iff, Bool-cases, ◌==◌, inl, inr,
}
use qx_fx0rust.Base.Text.{Text, text_eq, text_eq_iff}
use qx_fx0rust.Base.Order.{text_ord}
use qx_fx0rust.Base.OrdMap.{get, insert, get-insert}
use qx_fx0rust.Perspective.Facts.{FactRegistry}
use qx_fx0rust.Perspective.{
  BeliefPolarity, affirmed, qualified, opposed, OpinionCore, Opinions, PerspectiveEpisode,
  PerspectiveState, validate_perspective,
}
use qx_fx0rust.Perspective.Pack.{
  flag, of_states, zero_turn, turns_not_monotonic, check_authority, polarity_differs,
}
use qx_fx0rust.Perspective.History.{
  belief_eq, is_other_belief, or_zero, History, no_history, is_before, check_transition,
  record_transition, check_history, history_after, check_latest, check_count,
  validate_perspective_against_pack,
}
use qx_fx0rust.Perspective.Renderable.{flag-nil, All-get}

-- The number of episodes on a topic.
abbrev pub count_on : Text → List PerspectiveEpisode → ℕ
count_on topic [] = 0
count_on topic (e ∷ es) = (if text_eq e.topic topic then 1 else 0) + count_on topic es

-- The polarity that results from the last episode on a topic, after what there was before.
abbrev pub latest : Text → Option BeliefPolarity → List PerspectiveEpisode → Option BeliefPolarity
latest topic before [] = before
latest topic before (e ∷ es) =
    latest topic (if text_eq e.topic topic then some e.resulting_polarity else before) es

abbrev HasOpinion : Opinions → PerspectiveEpisode → Type 0
HasOpinion os e = is_some (get e.topic os) ≡ true

transition-HasOpinion :
    (facts : FactRegistry) (h : History) (e : PerspectiveEpisode) (o : Option OpinionCore)
    → check_transition facts h e o ≡ []
    → is_some o ≡ true
transition-HasOpinion facts h e none n = absurd (cc)
transition-HasOpinion facts h e (some o) n = refl

history-HasOpinion :
    (facts : FactRegistry) (os : Opinions) (h : History) (es : List PerspectiveEpisode)
    → check_history facts os h es ≡ []
    → All (HasOpinion os) es
unfolding check_history
history-HasOpinion facts os h [] n = tt
history-HasOpinion facts os h (e ∷ es) n =
    let opinion = get e.topic os in
    let a = flag (e.turn_seq == 0) (zero_turn e.id) in
    let b = flag (is_before e.turn_seq h.previous_turn) turns_not_monotonic in
    let c = check_transition facts h e opinion in
    let rest = check_history facts os (record_transition h e opinion) es in
    let first = (append-nil_iff a (b ++ (c ++ rest))).0 n in
    let second = (append-nil_iff b (c ++ rest)).0 first.1 in
    let third = (append-nil_iff c rest).0 second.1 in
    (
      transition-HasOpinion facts h e opinion third.0,
      history-HasOpinion facts os (record_transition h e opinion) es third.1,
    )

polarity_after :
    (topic : Text) (h : History) (e : PerspectiveEpisode) (o : Option OpinionCore)
    → is_some o ≡ true
    → get topic (record_transition h e o).topic_polarity
      ≡ (if text_eq e.topic topic then some e.resulting_polarity else get topic h.topic_polarity)
polarity_after topic h e none n = absurd (cc)
polarity_after topic h e (some o) n = get-insert e.topic topic e.resulting_polarity h.topic_polarity

history_polarity :
    (os : Opinions) (topic : Text) (h : History) (es : List PerspectiveEpisode)
    → All (HasOpinion os) es
    → get topic (history_after os h es).topic_polarity
      ≡ latest topic (get topic h.topic_polarity) es
unfolding history_after
history_polarity os topic h [] a = refl
history_polarity os topic h (e ∷ es) a =
    let after = record_transition h e (get e.topic os) in
    history_polarity os topic after es a.1
    ∙ ap (λ p. latest topic p es) (polarity_after topic h e (get e.topic os) a.0)

same_count :
    (e topic : Text) (m : List (Text × ℕ))
    → or_zero (get topic (insert e (or_zero (get e m) + 1) m))
      ≡ (if text_eq e topic then 1 else 0) + or_zero (get topic m)
same_count e topic m = elim (Bool-cases (text_eq e topic)) [
  | inl same ↦
      let is = (text_eq_iff e topic).0 same in
      rw (get-insert e topic (or_zero (get e m) + 1) m, same)
        (omega (arith, ap (λ k. or_zero (get k m)) is))
  | inr other ↦ rw (get-insert e topic (or_zero (get e m) + 1) m, other) (omega arith)
]

count_after :
    (topic : Text) (h : History) (e : PerspectiveEpisode) (o : Option OpinionCore)
    → is_some o ≡ true
    → or_zero (get topic (record_transition h e o).topic_episode_count)
      ≡ (if text_eq e.topic topic then 1 else 0) + or_zero (get topic h.topic_episode_count)
count_after topic h e none n = absurd (cc)
count_after topic h e (some o) n = same_count e.topic topic h.topic_episode_count

history_count :
    (os : Opinions) (topic : Text) (h : History) (es : List PerspectiveEpisode)
    → All (HasOpinion os) es
    → or_zero (get topic (history_after os h es).topic_episode_count)
      ≡ or_zero (get topic h.topic_episode_count) + count_on topic es
unfolding history_after
history_count os topic h [] a = omega arith
history_count os topic h (e ∷ es) a =
    let opinion = get e.topic os in
    omega (
      arith,
      history_count os topic (record_transition h e opinion) es a.1,
      count_after topic h e opinion a.0,
    )

latest-after_some :
    (topic : Text) (p : BeliefPolarity) (es : List PerspectiveEpisode)
    → is_some (latest topic (some p) es) ≡ true
latest-after_some topic p [] = refl
latest-after_some topic p (e ∷ es) = elim (Bool-cases (text_eq e.topic topic)) [
  | inl same ↦ rw same (latest-after_some topic e.resulting_polarity es)
  | inr other ↦ rw other (latest-after_some topic p es)
]

latest-is_some :
    (topic : Text) (before : Option BeliefPolarity) (es : List PerspectiveEpisode)
    → 1 ≤ count_on topic es
    → is_some (latest topic before es) ≡ true
latest-is_some topic before [] h = absurd (omega (arith, h))
latest-is_some topic before (e ∷ es) h = elim (Bool-cases (text_eq e.topic topic)) [
  | inl same ↦ rw same (latest-after_some topic e.resulting_polarity es)
  | inr other ↦
      let rest : 1 ≤ count_on topic es = ground (arith, other, h) in
      rw other (latest-is_some topic before es rest)
]

belief_eq-same : (p q : BeliefPolarity) → belief_eq p q ≡ true → p ≡ q
belief_eq-same affirmed affirmed h = refl
belief_eq-same qualified qualified h = refl
belief_eq-same opposed opposed h = refl
belief_eq-same affirmed qualified h = absurd (cc)
belief_eq-same affirmed opposed h = absurd (cc)
belief_eq-same qualified affirmed h = absurd (cc)
belief_eq-same qualified opposed h = absurd (cc)
belief_eq-same opposed affirmed h = absurd (cc)
belief_eq-same opposed qualified h = absurd (cc)

-- What the last loop makes sure of, for one opinion.
abbrev IsLatest : History → Text × OpinionCore → Type 0
IsLatest h (topic, o) =
    (1 ≤ or_zero (get topic h.topic_episode_count))
    × (or_zero (get topic h.topic_episode_count) ≤ o.revision_seq)
    × (is_other_belief (get topic h.topic_polarity) o.polarity ≡ false)

count-nil :
    (topic : Text) (revisions count : ℕ)
    → check_count topic revisions count ≡ []
    → (1 ≤ count) × (count ≤ revisions)
count-nil topic revisions count h = ground arith

check_latest-IsLatest : (h : History) (os : Opinions) → check_latest h os ≡ [] → All (IsLatest h) os
unfolding check_latest
check_latest-IsLatest h [] n = tt
check_latest-IsLatest h ((topic, o) ∷ os) n =
    let count = or_zero (get topic h.topic_episode_count) in
    let a = check_count topic o.revision_seq count in
    let b =
      flag (is_other_belief (get topic h.topic_polarity) o.polarity) (polarity_differs topic) in
    let rest = check_latest h os in
    let first = (append-nil_iff a (b ++ rest)).0 n in
    let second = (append-nil_iff b rest).0 first.1 in
    let counted = count-nil topic o.revision_seq count first.0 in
    (
      (
        counted.0,
        counted.1,
        flag-nil (is_other_belief (get topic h.topic_polarity) o.polarity) (polarity_differs topic)
            second.0,
      ),
      check_latest-IsLatest h os second.1,
    )

other_belief :
    (p : Option BeliefPolarity) (q : BeliefPolarity)
    → is_some p ≡ true
    → is_other_belief p q ≡ false
    → p ≡ some q
other_belief none q s h = absurd (cc)
other_belief (some p) q s h = ap (λ r. some r) (belief_eq-same p q (ground arith))

-- In a state that the curated facts validate, every opinion has an episode on its topic, it has at
-- least as many revisions as there are such episodes, and its polarity is the one that results from
-- the last of them.
pub validated-latest :
    (s : PerspectiveState) (facts : FactRegistry) (topic : Text) (o : OpinionCore)
    → validate_perspective_against_pack s facts ≡ []
    → get topic s.opinions ≡ some o
    → (1 ≤ count_on topic s.episodes)
      × (count_on topic s.episodes ≤ o.revision_seq)
      × (latest topic none s.episodes ≡ some o.polarity)
unfolding validate_perspective_against_pack get
validated-latest s facts topic o h held =
    let authority = check_authority facts s.opinions in
    let history = check_history facts s.opinions no_history s.episodes in
    let after = history_after s.opinions no_history s.episodes in
    let last = check_latest after s.opinions in
    let first =
      (append-nil_iff (of_states (validate_perspective s)) (authority ++ (history ++ last))).0 h in
    let second = (append-nil_iff authority (history ++ last)).0 first.1 in
    let third = (append-nil_iff history last).0 second.1 in
    let owned = history-HasOpinion facts s.opinions no_history s.episodes third.0 in
    let found =
      All-get (IsLatest after) s.opinions topic o (check_latest-IsLatest after s.opinions third.1)
        held in
    let count = history_count s.opinions topic no_history s.episodes owned in
    let some_episode : 1 ≤ count_on topic s.episodes = omega (arith, count, found.0) in
    (
      some_episode,
      omega (arith, count, found.1),
      other_belief (latest topic none s.episodes) o.polarity
          (latest-is_some topic none s.episodes some_episode)
          (ap (λ p. is_other_belief p o.polarity)
              (sym (history_polarity s.opinions topic no_history s.episodes owned))
            ∙ found.2),
    )
