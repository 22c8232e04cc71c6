-- ===== src/Commitment/Commit.antt =====
-- Committing, quarantining and revising in qxfx0-commitment/src/lib.rs, branch by branch.
use qx_fx0rust.Base.{
  ℕ, ◌+◌, ◌≤◌, ◌<◌, ◌^◌, ◌≡◌, refl, ◌⊎◌, inl, inr, true, false, none, some, [], ◌∷◌, ◌++◌, arith,
  leb, ◌==◌, ==_iff, ok, err, if◌then◌else◌, Bool-cases, Option,
}
use qx_fx0rust.Base.Text.{Text}
use qx_fx0rust.Base.Order.{nat_ord}
use qx_fx0rust.Base.OrdMap.{
  get, contains_key, insert, get-insert, contains_key-insert, insert-IsSorted, length-insert-new,
  length-insert-old, entry_push-IsSorted, entry_push, or_default, get-entry_push_same,
  contains_key-entry_push,
}
use qx_fx0rust.Commitment.{
  FactualClaimPayload, SemanticCommitmentStore, new, duplicate, capacity_reached, Held, next_usize,
  CommitResult, unless_duplicate, commit, find_duplicate, max_commitments, commit_observation,
  quarantine_observation, revise, revised,
}
use qx_fx0rust.Commitment.Store.{
  WellFormed, held, with_claim, with_claim-WellFormed, insert_new-fresh, fresh_active,
  fresh_quarantine, next_usize_lem, below_insert,
}

held-with_claim :
    {F : Type 0} (payload : FactualClaimPayload F) (turn : ℕ) (s : SemanticCommitmentStore F)
    → WellFormed s
    → held (with_claim payload turn s) ≡ held s + 1
held-with_claim payload turn s v =
    omega (arith, length-insert-new s.next_id (payload, turn) s.active (fresh_active s v))

-- What `commit` and `commit_observation` have in common, for the turn that they write.
abbrev pub Committed :
    {F : Type 0}
    → Option ℕ
    → FactualClaimPayload F
    → ℕ
    → SemanticCommitmentStore F
    → SemanticCommitmentStore F × CommitResult
    → Type 0
Committed found payload turn s r =
    ((i : ℕ) × (found ≡ some i) × (r ≡ (s, duplicate i)))
    ⊎ ((found ≡ none) × (max_commitments ≤ held s) × (r ≡ (s, capacity_reached)))
    ⊎ ((found ≡ none)
        × (held s < max_commitments)
        × (r ≡ (with_claim payload turn s, new s.next_id))
        × WellFormed r.0
        × (held r.0 ≡ held s + 1)
        × (contains_key s.next_id s.active ≡ false)
        × (contains_key s.next_id s.quarantine ≡ false))

unless_duplicate-Committed :
    {F : Type 0} (to_lowercase : Text → Text) (payload : FactualClaimPayload F) (turn : ℕ)
    (s : SemanticCommitmentStore F) (found : Option ℕ)
    → WellFormed s
    → s.next_id + 1 < 2 ^ 64
    → Committed found payload turn s (unless_duplicate to_lowercase payload turn s found)
unless_duplicate-Committed to_lowercase payload turn s (some i) v room = inl (i, refl, refl)
unless_duplicate-Committed to_lowercase payload turn s none v room =
    elim (Bool-cases (leb max_commitments (held s))) [
      | inl full ↦ inr (inl (refl, ground arith, rw full refl))
      | inr free ↦
          let fresh = insert_new-fresh to_lowercase payload turn s v in
          inr (
            inr (
              rw (free, fresh)
                (
                  refl,
                  ground arith,
                  refl,
                  with_claim-WellFormed payload turn s v room,
                  held-with_claim payload turn s v,
                  fresh_active s v,
                  fresh_quarantine s v,
                )))
    ]

-- Committing an observation has three outcomes. A claim that the store holds already is reported
-- as its duplicate; otherwise a store of 1024 claims is full; and otherwise the claim becomes
-- active under the next id, which then is that of no earlier claim, for the turn it was observed
-- in. The first two change nothing. The store stays well formed, as long as the ids do not run out.
pub commit_observation-cases :
    {F : Type 0} (to_lowercase : Text → Text) (payload : FactualClaimPayload F)
    (s : SemanticCommitmentStore F)
    → WellFormed s
    → s.next_id + 1 < 2 ^ 64
    → let r = commit_observation to_lowercase payload s in
      ((i : ℕ) × (find_duplicate to_lowercase payload s ≡ some i) × (r ≡ (s, duplicate i)))
      ⊎ ((find_duplicate to_lowercase payload s ≡ none)
          × (max_commitments ≤ held s)
          × (r ≡ (s, capacity_reached)))
      ⊎ ((find_duplicate to_lowercase payload s ≡ none)
          × (held s < max_commitments)
          × (r ≡ (with_claim payload payload.turn_seq s, new s.next_id))
          × WellFormed r.0
          × (held r.0 ≡ held s + 1)
          × (contains_key s.next_id s.active ≡ false)
          × (contains_key s.next_id s.quarantine ≡ false))
unfolding commit_observation
commit_observation-cases to_lowercase payload s v room =
    unless_duplicate-Committed to_lowercase payload payload.turn_seq s
      (find_duplicate to_lowercase payload s) v room

-- Committing without a turn has the same outcomes, and writes the turn 0.
pub commit-Committed :
    {F : Type 0} (to_lowercase : Text → Text) (payload : FactualClaimPayload F)
    (s : SemanticCommitmentStore F)
    → WellFormed s
    → s.next_id + 1 < 2 ^ 64
    → Committed (find_duplicate to_lowercase payload s) payload 0 s (commit to_lowercase payload s)
unfolding commit
commit-Committed to_lowercase payload s v room =
    unless_duplicate-Committed to_lowercase payload 0 s (find_duplicate to_lowercase payload s) v
      room

-- A claim put in quarantine takes the next id, and the store stays well formed. No bound is
-- tested: the store grows by one whatever it holds.
pub quarantine_observation-cases :
    {F : Type 0} (payload : FactualClaimPayload F) (s : SemanticCommitmentStore F)
    → WellFormed s
    → s.next_id + 1 < 2 ^ 64
    → WellFormed (quarantine_observation payload s).0
      × ((quarantine_observation payload s).1 ≡ s.next_id)
      × (held (quarantine_observation payload s).0 ≡ held s + 1)
      × ((quarantine_observation payload s).0.next_id ≡ s.next_id + 1)
      × ((i : ℕ)
          → get i (quarantine_observation payload s).0.quarantine
            ≡ (if s.next_id == i then some (payload, payload.turn_seq) else get i s.quarantine))
unfolding quarantine_observation
quarantine_observation-cases payload s v room =
    let next = next_usize_lem s.next_id room in
    let claim : Held _ = (payload, payload.turn_seq) in
    let none_active = fresh_active s v in
    let absent = fresh_quarantine s v in
    (
      record {
        active_sorted = v.active_sorted;
        quarantine_sorted = insert-IsSorted s.next_id claim s.quarantine v.quarantine_sorted;
        lineage_sorted = v.lineage_sorted;
        active_below = λ i c. let low = v.active_below i c in omega arith;
        quarantine_below = λ i.
            below_insert s.next_id (next_usize s.next_id) i claim s.quarantine next
              v.quarantine_below;
        lineage_below = λ i c. let low = v.lineage_below i c in omega arith;
        apart = λ i c. ground (
          arith,
          contains_key-insert s.next_id i claim s.quarantine,
          ==_iff s.next_id i,
          v.active_below i c,
          v.apart i c,
        );
      },
      refl,
      omega (arith, length-insert-new s.next_id claim s.quarantine absent),
      next,
      λ i. get-insert s.next_id i claim s.quarantine,
    )

-- The store with a claim put in place of that of an active id.
abbrev pub with_revision :
    {F : Type 0}
    → ℕ
    → FactualClaimPayload F
    → ℕ
    → SemanticCommitmentStore F
    → SemanticCommitmentStore F
with_revision cid payload turn s = record s {
  active = insert cid (payload, turn) s.active;
  lineage = entry_push cid (revised turn) s.lineage;
}

with_revision-WellFormed :
    {F : Type 0} (cid : ℕ) (payload : FactualClaimPayload F) (turn : ℕ)
    (s : SemanticCommitmentStore F)
    → WellFormed s
    → contains_key cid s.active ≡ true
    → WellFormed (with_revision cid payload turn s)
with_revision-WellFormed cid payload turn s v there = record {
  active_sorted = insert-IsSorted cid (payload, turn) s.active v.active_sorted;
  quarantine_sorted = v.quarantine_sorted;
  lineage_sorted = entry_push-IsSorted cid (revised turn) s.lineage v.lineage_sorted;
  active_below = λ i c. ground (
    arith,
    contains_key-insert cid i (payload, turn) s.active,
    ==_iff cid i,
    v.active_below i,
    v.active_below cid there,
  );
  quarantine_below = v.quarantine_below;
  lineage_below = λ i c. ground (
    arith,
    contains_key-entry_push cid i (revised turn) s.lineage,
    ==_iff cid i,
    v.lineage_below i,
    v.active_below cid there,
  );
  apart = λ i c. ground (
    arith,
    contains_key-insert cid i (payload, turn) s.active,
    ==_iff cid i,
    v.apart i,
    v.apart cid there,
  );
}

-- A revision fails exactly on an id that is not active, and then names it. Otherwise the claim of
-- that id, and of no other, is replaced, the revision is the last event of its lineage, and the
-- store stays well formed.
pub revise-cases :
    {F : Type 0} (cid : ℕ) (payload : FactualClaimPayload F) (turn : ℕ)
    (s : SemanticCommitmentStore F)
    → WellFormed s
    → ((contains_key cid s.active ≡ false) × (revise cid payload turn s ≡ err cid))
      ⊎ ((contains_key cid s.active ≡ true)
          × (revise cid payload turn s ≡ ok (with_revision cid payload turn s))
          × WellFormed (with_revision cid payload turn s)
          × (held (with_revision cid payload turn s) ≡ held s)
          × ((i : ℕ)
              → get i (with_revision cid payload turn s).active
                ≡ (if cid == i then some (payload, turn) else get i s.active))
          × (get cid (with_revision cid payload turn s).lineage
              ≡ some (or_default (get cid s.lineage) ++ revised turn ∷ [])))
unfolding revise
revise-cases cid payload turn s v = elim (Bool-cases (contains_key cid s.active)) [
  | inl there ↦ inr (
    there,
    rw there refl,
    with_revision-WellFormed cid payload turn s v there,
    omega (arith, length-insert-old cid (payload, turn) s.active v.active_sorted there),
    λ i. get-insert cid i (payload, turn) s.active,
    get-entry_push_same cid (revised turn) s.lineage,
  )
  | inr missing ↦ inl (missing, rw missing refl)
]
