-- ===== src/Perspective/Validate.antt =====
-- What `PerspectiveState::validate` of qxfx0-types/src/perspective.rs accepts.
use qx_fx0rust.Base.{
  ℕ, ◌≤◌, ◌<◌, ◌≡◌, refl, ◌↔◌, true, false, Option, none, some, List, [], ◌∷◌, length, All,
  append-nil_iff, is_empty, arith,
}
use qx_fx0rust.Base.Text.{Text, text_eq_iff}
use qx_fx0rust.Base.Order.{text_ord}
use qx_fx0rust.Base.OrdMap.{contains_key}
use qx_fx0rust.Perspective.{
  OpinionCore, Opinions, PerspectiveEpisode, PerspectiveState, check_opinions, check_episodes,
  validate_perspective, is_not_above, max_perspective_opinions, max_perspective_episodes,
}

-- An opinion that is filed under its topic, is grounded in its primary fact, and has a confidence
-- of at most 10000 basis points.
abbrev pub IsGrounded : Text × OpinionCore → Type 0
IsGrounded (topic, o) =
    (topic ≡ o.topic)
    × (contains_key o.primary_fact o.grounding_facts ≡ true)
    × (o.confidence_basis_points ≤ 10000)

abbrev pub Above : Option ℕ → ℕ → Type 0
Above none id = Unit {0}
Above (some previous) id = previous < id

-- Episodes with increasing ids below `next`, each with a fact that it cites.
abbrev pub Recorded : ℕ → Option ℕ → List PerspectiveEpisode → Type 0
Recorded next previous [] = Unit {0}
Recorded next previous (e ∷ es) =
    (is_empty e.cited_facts ≡ false)
    × (e.id < next)
    × Above previous e.id
    × Recorded next (some e.id) es

-- The states that validation is to accept.
pub record IsSound (s : PerspectiveState) : Type 0 where
  pub few_opinions : length s.opinions ≤ max_perspective_opinions
  pub few_episodes : length s.episodes ≤ max_perspective_episodes
  pub grounded : All IsGrounded s.opinions
  pub recorded : Recorded s.next_episode_id none s.episodes

contains_key-not_empty :
    (k : Text) (g : List (Text × Unit {0})) → contains_key k g ≡ true → is_empty g ≡ false
unfolding contains_key
contains_key-not_empty k [] h = cc
contains_key-not_empty k (x ∷ g) h = refl

check_opinions_nil : (os : Opinions) → (check_opinions os ≡ []) ↔ All IsGrounded os
unfolding check_opinions
check_opinions_nil [] = (λ _. tt, λ _. refl)
check_opinions_nil ((topic, o) ∷ os) = ground (
  arith,
  text_eq_iff topic o.topic,
  contains_key-not_empty o.primary_fact o.grounding_facts,
  check_opinions_nil os,
)

is_not_above_iff : (p : Option ℕ) (id : ℕ) → (is_not_above p id ≡ false) ↔ Above p id
is_not_above_iff none id = (λ _. tt, λ _. refl)
is_not_above_iff (some p) id = ground arith

check_episodes_nil :
    (next : ℕ) (p : Option ℕ) (es : List PerspectiveEpisode)
    → (check_episodes next p es ≡ []) ↔ Recorded next p es
unfolding check_episodes
check_episodes_nil next p [] = (λ _. tt, λ _. refl)
check_episodes_nil next p (e ∷ es) =
    ground (arith, is_not_above_iff p e.id, check_episodes_nil next (some e.id) es)

-- Validation reports nothing exactly if a state holds at most 1024 opinions and 2048 episodes,
-- every opinion is filed under its topic, grounded in its primary fact and of at most 10000 basis
-- points, and the episodes have increasing ids below the next one and cite facts.
pub validate_perspective-IsSound :
    (s : PerspectiveState) → (validate_perspective s ≡ []) ↔ IsSound s
unfolding validate_perspective
validate_perspective-IsSound s =
    let opinions = check_opinions s.opinions in
    let episodes = check_episodes s.next_episode_id none s.episodes in
    ground (
      arith,
      append-nil_iff opinions episodes,
      check_opinions_nil s.opinions,
      check_episodes_nil s.next_episode_id none s.episodes,
    )
