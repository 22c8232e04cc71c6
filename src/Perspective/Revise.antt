-- ===== src/Perspective/Revise.antt =====
-- The revisions of one opinion in qxfx0-self/src/fact_perspective.rs keep a state valid.
use qx_fx0rust.Base.{
  ℕ, suc, zero, ◌+◌, ◌-◌, ◌^◌, ◌≤◌, ◌<◌, ◌≡◌, refl, subst, ◌⊎◌, inl, inr, true, false, Option, none,
  some, List, [], ◌∷◌, ◌++◌, leb, length, drop, All, is_empty, arith, ok, Bool-cases, length-drop,
}
use qx_fx0rust.Base.Text.{Text, text_eq_iff}
use qx_fx0rust.Base.Order.{text_ord}
use qx_fx0rust.Base.OrdMap.{
  get, contains_key, insert, IsSorted, contains_key-insert, insert-IsSorted, length-insert-new,
  length-insert-old,
}
use qx_fx0rust.Perspective.{
  BeliefPolarity, OpinionCore, Opinions, PerspectiveEpisode, PerspectiveRevisionReason,
  PerspectiveState, append_episode, max_perspective_opinions, max_perspective_episodes,
}
use qx_fx0rust.Perspective.Validate.{IsGrounded, Above, Recorded, IsSound}

-- A sound state whose opinions are sorted, as the map of the code keeps them.
pub record IsKept (s : PerspectiveState) : Type 0 where
  pub sound : IsSound s
  pub sorted : IsSorted text_ord s.opinions

-- The state has an opinion on the topic, or room for one.
abbrev pub HasRoom : Text → PerspectiveState → Type 0
HasRoom topic s =
    (contains_key topic s.opinions ≡ true) ⊎ (length s.opinions < max_perspective_opinions)

Recorded-weaken :
    (n : ℕ) (p : Option ℕ) (es : List PerspectiveEpisode) → Recorded n p es → Recorded n none es
Recorded-weaken n p [] r = tt
Recorded-weaken n p (e ∷ es) r = (r.0, r.1, tt, r.3)

Recorded-drop :
    (k n : ℕ) (p : Option ℕ) (es : List PerspectiveEpisode)
    → Recorded n p es
    → Recorded n none (drop k es)
Recorded-drop zero n p es r = Recorded-weaken n p es r
Recorded-drop (suc k) n p [] r = tt
Recorded-drop (suc k) n p (e ∷ es) r = Recorded-drop k n (some e.id) es r.3

Recorded-push :
    (n : ℕ) (p : Option ℕ) (es : List PerspectiveEpisode) (e : PerspectiveEpisode)
    → Recorded n p es
    → Above p n
    → e.id ≡ n
    → is_empty e.cited_facts ≡ false
    → Recorded (n + 1) p (es ++ e ∷ [])
Recorded-push n none [] e r a h c = (c, omega arith, tt, tt)
Recorded-push n (some q) [] e r a h c = (c, omega arith, omega arith, tt)
Recorded-push n p (x ∷ es) e r a h c =
    let low = r.1 in (r.0, omega arith, r.2, Recorded-push n (some x.id) es e r.3 low h c)

pub All-get :
    (k : Text) (o : OpinionCore) (os : Opinions)
    → All IsGrounded os
    → get k os ≡ some o
    → IsGrounded (k, o)
unfolding get
All-get k o [] a e = absurd (cc)
All-get k o ((j, q) ∷ os) a e = ground (arith, text_eq_iff j k, All-get k o os a.1)

All-insert :
    (k : Text) (o : OpinionCore) (os : Opinions)
    → All IsGrounded os
    → IsGrounded (k, o)
    → All IsGrounded (insert k o os)
unfolding insert
All-insert k o [] a g = (g, tt)
All-insert k o ((j, q) ∷ os) a g = ground (arith, All-insert k o os a.1 g)

append_episode-Recorded :
    (s s' : PerspectiveState) (turn : ℕ) (topic : Text) (previous : Option BeliefPolarity)
    (resulting : BeliefPolarity) (fact : Text) (cited : List Text)
    (reason : PerspectiveRevisionReason)
    → Recorded s.next_episode_id none s.episodes
    → append_episode s turn topic previous resulting (fact ∷ cited) reason ≡ ok s'
    → Recorded s'.next_episode_id none s'.episodes
      × (length s'.episodes ≤ max_perspective_episodes)
      × (s'.opinions ≡ s.opinions)
unfolding append_episode
append_episode-Recorded s s' turn topic previous resulting fact cited reason r e =
    elim (Bool-cases (leb (2 ^ 64) (s.next_episode_id + 1))) [
      | inl over ↦ absurd (cc (rw over at e))
      | inr room ↦
          let episode : PerspectiveEpisode = record {
            id = s.next_episode_id;
            turn_seq = turn;
            topic = topic;
            previous_polarity = previous;
            resulting_polarity = resulting;
            cited_facts = fact ∷ cited;
            reason = reason;
          } in
          let all = s.episodes ++ episode ∷ [] in
          let kept : PerspectiveState = record s {
            next_episode_id = s.next_episode_id + 1;
            episodes = drop (length all - max_perspective_episodes) all;
          } in
          let same : kept ≡ s' = cc (rw room at e) in
          subst
            (λ (x : PerspectiveState).
              Recorded x.next_episode_id none x.episodes
              × (length x.episodes ≤ max_perspective_episodes)
              × (x.opinions ≡ s.opinions))
            same
            (
              Recorded-drop (length all - max_perspective_episodes) (s.next_episode_id + 1) none all
                  (Recorded-push s.next_episode_id none s.episodes episode r tt refl refl),
              omega (arith, length-drop (length all - max_perspective_episodes) all),
              refl,
            )
    ]

-- A new version of one opinion, with its episode.
pub revised-IsKept :
    (s s' : PerspectiveState) (k : Text) (o : OpinionCore) (turn : ℕ)
    (previous : Option BeliefPolarity) (resulting : BeliefPolarity) (fact : Text)
    (cited : List Text) (reason : PerspectiveRevisionReason)
    → IsKept s
    → HasRoom k s
    → IsGrounded (k, o)
    → append_episode
        (record s { opinions = insert k o s.opinions })
        turn
        k
        previous
        resulting
        (fact ∷ cited)
        reason
      ≡ ok s'
    → IsKept s' × (contains_key k s'.opinions ≡ true)
revised-IsKept s s' k o turn previous resulting fact cited reason v room g e =
    let inserted : PerspectiveState = record s { opinions = insert k o s.opinions } in
    let (recorded, few, same) =
      append_episode-Recorded inserted s' turn k previous resulting fact cited reason
        v.sound.recorded e in
    let size : length (insert k o s.opinions) ≤ max_perspective_opinions =
      elim (Bool-cases (contains_key k s.opinions)) [
        | inl there ↦
            let bound = v.sound.few_opinions in
            omega (arith, length-insert-old k o s.opinions v.sorted there)
        | inr absent ↦ elim room [
          | inl there ↦ absurd (cc)
          | inr free ↦ omega (arith, length-insert-new k o s.opinions absent)
        ]
      ] in
    (
      record {
        sound = record {
          few_opinions = rw same size;
          few_episodes = few;
          grounded = rw same (All-insert k o s.opinions v.sound.grounded g);
          recorded = recorded;
        };
        sorted = rw same (insert-IsSorted k o s.opinions v.sorted);
      },
      rw same (ground (arith, contains_key-insert k k o s.opinions, text_eq_iff k k)),
    )
