-- ===== src/Commitment/Promote.antt =====
-- `promote_matching_quarantine` of qxfx0-commitment/src/lib.rs, against its description by ids.
use qx_fx0rust.Base.{
  ℕ, ◌≡◌, refl, ◌∙◌, ap, inl, inr, Bool, true, false, Option, none, some, List, [], ◌∷◌, arith, any,
  ◌==◌, ==_iff, if◌then◌else◌, Option-cases, Bool-cases, is_some,
}
use qx_fx0rust.Base.Text.{Text, text_eq}
use qx_fx0rust.Base.Order.{nat_ord}
use qx_fx0rust.Base.OrdMap.{
  get, contains_key, remove, get-insert, contains_key-insert, contains_key-get, insert-IsSorted,
  remove-IsSorted, get-remove, length-insert-new, length-remove, IsSorted, Above,
  entry_push-IsSorted, contains_key-entry_push,
}
use qx_fx0rust.Commitment.{
  SemanticCommitmentStore, Held, Claims, promoted, promote_one, promote_all, to_promote,
  promote_matching_quarantine,
}
use qx_fx0rust.Commitment.Store.{WellFormed, held}

abbrev is_among : ℕ → List ℕ → Bool
is_among i = any (λ j. j == i)

contains_key-remove :
    {F : Type 0} (k j : ℕ) (es : Claims F)
    → IsSorted nat_ord es
    → contains_key j (remove k es) ≡ (if k == j then false else contains_key j es)
contains_key-remove k j es sorted =
    ground
      (arith, contains_key-get j (remove k es), contains_key-get j es, get-remove k j es sorted)

-- The removal of a claim from quarantine, as the loop does it.
pub promote_one-WellFormed :
    {F : Type 0} (turn cid : ℕ) (s : SemanticCommitmentStore F)
    → WellFormed s
    → let s' = promote_one turn cid s (get cid s.quarantine) in
      WellFormed s' × (held s' ≡ held s) × (s'.next_id ≡ s.next_id)
promote_one-WellFormed turn cid s v = elim (Option-cases (get cid s.quarantine)) [
  | inl missing ↦ rw missing (v, refl, refl)
  | inr ((payload, old_turn), found) ↦
      let there : contains_key cid s.quarantine ≡ true =
        contains_key-get cid s.quarantine ∙ ap is_some found in
      let low = v.quarantine_below cid there in
      let absent : contains_key cid s.active ≡ false = ground (arith, v.apart cid) in
      rw found (
        record {
          active_sorted = insert-IsSorted cid (payload, turn) s.active v.active_sorted;
          quarantine_sorted = remove-IsSorted cid s.quarantine v.quarantine_sorted;
          lineage_sorted = entry_push-IsSorted cid (promoted turn) s.lineage v.lineage_sorted;
          active_below = λ i c. ground (
            arith,
            contains_key-insert cid i (payload, turn) s.active,
            ==_iff cid i,
            v.active_below i,
          );
          quarantine_below = λ i c. ground (
            arith,
            contains_key-remove cid i s.quarantine v.quarantine_sorted,
            v.quarantine_below i,
          );
          lineage_below = λ i c. ground (
            arith,
            contains_key-entry_push cid i (promoted turn) s.lineage,
            ==_iff cid i,
            v.lineage_below i,
          );
          apart = λ i c. ground (
            arith,
            contains_key-insert cid i (payload, turn) s.active,
            contains_key-remove cid i s.quarantine v.quarantine_sorted,
            ==_iff cid i,
            v.apart i,
          );
        },
        omega (
          arith,
          length-insert-new cid (payload, turn) s.active absent,
          length-remove cid s.quarantine there,
        ),
        refl,
      )
]

promote_all-WellFormed :
    {F : Type 0} (turn : ℕ) (cids : List ℕ) (s : SemanticCommitmentStore F)
    → WellFormed s
    → let s' = promote_all turn cids s in
      WellFormed s' × (held s' ≡ held s) × (s'.next_id ≡ s.next_id)
unfolding promote_all
promote_all-WellFormed turn [] s v = (v, refl, refl)
promote_all-WellFormed turn (cid ∷ cids) s v =
    let one = promote_one-WellFormed turn cid s v in
    let rest =
      promote_all-WellFormed turn cids (promote_one turn cid s (get cid s.quarantine)) one.0 in
    (rest.0, rest.1 ∙ one.1, rest.2 ∙ one.2)

-- What the loop makes of one id: those of the list leave quarantine, and are active with the
-- turn of the promotion.
abbrev pub moved : {F : Type 0} → ℕ → Option (Held F) → Option (Held F) → Option (Held F)
moved turn none old = old
moved turn (some (payload, old_turn)) old = some (payload, turn)

promote_one-get :
    {F : Type 0} (turn cid i : ℕ) (s : SemanticCommitmentStore F)
    → WellFormed s
    → let s' = promote_one turn cid s (get cid s.quarantine) in
      (get i s'.quarantine ≡ (if cid == i then none else get i s.quarantine))
      × (get i s'.active
          ≡ (if cid == i then moved turn (get i s.quarantine) (get i s.active) else get i s.active))
promote_one-get turn cid i s v = elim (Option-cases (get cid s.quarantine)) [
  | inl missing ↦
      rw missing (ground (arith, missing, ==_iff cid i), ground (arith, missing, ==_iff cid i))
  | inr ((payload, old_turn), found) ↦ rw found (
    get-remove cid i s.quarantine v.quarantine_sorted,
    ground (arith, found, ==_iff cid i, get-insert cid i (payload, turn) s.active),
  )
]

promote_all-get :
    {F : Type 0} (turn : ℕ) (cids : List ℕ) (i : ℕ) (s : SemanticCommitmentStore F)
    → WellFormed s
    → let s' = promote_all turn cids s in
      (get i s'.quarantine ≡ (if is_among i cids then none else get i s.quarantine))
      × (get i s'.active ≡ (
          if is_among i cids
          then moved turn (get i s.quarantine) (get i s.active)
          else get i s.active))
unfolding promote_all
promote_all-get turn [] i s v = (refl, refl)
promote_all-get turn (cid ∷ cids) i s v =
    let s1 = promote_one turn cid s (get cid s.quarantine) in
    let one = promote_one-get turn cid i s v in
    let rest = promote_all-get turn cids i s1 (promote_one-WellFormed turn cid s v).0 in
    elim (Bool-cases (cid == i)) [
      | inl here ↦ (ground (arith, rest.0, one.0, here), ground (arith, rest.1, one.0, one.1, here))
      | inr other ↦
          (ground (arith, rest.0, one.0, other), ground (arith, rest.1, one.0, one.1, other))
    ]

-- Whether an entry of the quarantine is one on the topic.
abbrev pub is_on : {F : Type 0} → Text → Option (Held F) → Bool
is_on topic none = false
is_on topic (some (payload, turn)) = text_eq payload.topic topic

to_promote-Above :
    {F : Type 0} (topic : Text) (k : ℕ) (es : Claims F)
    → Above nat_ord k es
    → is_among k (to_promote topic es) ≡ false
unfolding to_promote
to_promote-Above topic k [] a = refl
to_promote-Above topic k ((j, c) ∷ es) a = ground (arith, to_promote-Above topic k es a.1)

is_among-to_promote :
    {F : Type 0} (topic : Text) (i : ℕ) (es : Claims F)
    → IsSorted nat_ord es
    → is_among i (to_promote topic es) ≡ is_on topic (get i es)
unfolding to_promote get
is_among-to_promote topic i [] sorted = refl
is_among-to_promote topic i ((j, (payload, turn)) ∷ es) sorted = ground (
  arith,
  ==_iff j i,
  to_promote-Above topic j es sorted.0,
  is_among-to_promote topic i es sorted.1,
)

pub promote_matching-keeps :
    {F : Type 0} (s : SemanticCommitmentStore F) (topic : Text) (turn : ℕ)
    → WellFormed s
    → let s' = promote_matching_quarantine s topic turn in
      WellFormed s' × (held s' ≡ held s) × (s'.next_id ≡ s.next_id)
unfolding promote_matching_quarantine
promote_matching-keeps s topic turn = promote_all-WellFormed turn (to_promote topic s.quarantine) s

-- Promotion moves exactly the quarantined claims on the topic: each leaves quarantine and is
-- active under its id with the turn of the promotion, and every other id has the claims that it
-- had. The store stays well formed and holds as many claims as before.
pub promote_matching-moves :
    {F : Type 0} (s : SemanticCommitmentStore F) (topic : Text) (turn i : ℕ)
    → WellFormed s
    → let s' = promote_matching_quarantine s topic turn in
      let on = is_on topic (get i s.quarantine) in
      WellFormed s'
      × (held s' ≡ held s)
      × (get i s'.quarantine ≡ (if on then none else get i s.quarantine))
      × (get i s'.active
          ≡ (if on then moved turn (get i s.quarantine) (get i s.active) else get i s.active))
unfolding promote_matching_quarantine
promote_matching-moves s topic turn i v =
    let kept = promote_all-WellFormed turn (to_promote topic s.quarantine) s v in
    let seen = promote_all-get turn (to_promote topic s.quarantine) i s v in
    let same = is_among-to_promote topic i s.quarantine v.quarantine_sorted in
    (kept.0, kept.1, rw same at seen.0, rw same at seen.1)
