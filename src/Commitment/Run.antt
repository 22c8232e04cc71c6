-- ===== src/Commitment/Run.antt =====
-- Sequences of the operations of qxfx0-commitment/src/lib.rs on one store.
use qx_fx0rust.Base.{
  ℕ, ◌+◌, ◌≤◌, ◌<◌, ◌^◌, ◌≡◌, sym, ap, subst, ◌∙◌, inl, inr, Option, List, [], ◌∷◌, arith, length,
  Result, ok, err,
}
use qx_fx0rust.Base.Text.{Text}
use qx_fx0rust.Commitment.{
  CommitResult, commit, find_duplicate, FactualClaimPayload, SemanticCommitmentStore,
  ContradictionKind, empty_store, commit_observation, quarantine_observation, revise, contradict,
  promote_matching_quarantine, max_commitments,
}
use qx_fx0rust.Commitment.Store.{WellFormed, held, empty_store-WellFormed, next_usize_lem}
use qx_fx0rust.Commitment.Commit.{
  Committed, commit-Committed, commit_observation-cases, quarantine_observation-cases, revise-cases,
}
use qx_fx0rust.Commitment.Repeat.{commit_again}
use qx_fx0rust.Commitment.Promote.{promote_matching-keeps}

-- The operations with their arguments.
pub data StoreOperation (F : Type 0) : Type 0 where
  commits observes quarantines : FactualClaimPayload F → StoreOperation F
  revises : ℕ → FactualClaimPayload F → ℕ → StoreOperation F
  contradicts : ℕ → ℕ → ContradictionKind → ℕ → StoreOperation F
  promotes : Text → ℕ → StoreOperation F

-- A revision that fails leaves the store.
abbrev or_else :
    {F : Type 0}
    → SemanticCommitmentStore F
    → Result ℕ (SemanticCommitmentStore F)
    → SemanticCommitmentStore F
or_else s (ok s') = s'
or_else s (err e) = s

unfoldable pub step :
    {F : Type 0}
    → (Text → Text)
    → SemanticCommitmentStore F
    → StoreOperation F
    → SemanticCommitmentStore F
step to_lowercase s (commits payload) = (commit to_lowercase payload s).0
step to_lowercase s (observes payload) = (commit_observation to_lowercase payload s).0
step to_lowercase s (quarantines payload) = (quarantine_observation payload s).0
step to_lowercase s (revises cid payload turn) = or_else s (revise cid payload turn s)
step to_lowercase s (contradicts l r kind turn) = contradict l r kind turn s
step to_lowercase s (promotes topic turn) = promote_matching_quarantine s topic turn

unfoldable pub run :
    {F : Type 0}
    → (Text → Text)
    → SemanticCommitmentStore F
    → List (StoreOperation F)
    → SemanticCommitmentStore F
run to_lowercase s [] = s
run to_lowercase s (op ∷ ops) = run to_lowercase (step to_lowercase s op) ops

-- How many claims a sequence puts in quarantine.
abbrev quarantining : {F : Type 0} → StoreOperation F → ℕ
quarantining (quarantines payload) = 1
quarantining other = 0

abbrev pub quarantined : {F : Type 0} → List (StoreOperation F) → ℕ
quarantined [] = 0
quarantined (op ∷ ops) = quarantining op + quarantined ops

-- A well-formed store with bounds on its next id and on its claims.
pub record Within {F : Type 0} (ids claims : ℕ) (s : SemanticCommitmentStore F) : Type 0 where
  pub well_formed : WellFormed s
  pub ids_left : s.next_id ≤ ids
  pub claims_left : held s ≤ claims

Within-grows :
    {F : Type 0} (ids claims : ℕ) (s s' : SemanticCommitmentStore F)
    → Within ids claims s
    → s' ≡ s
    → Within (ids + 1) (claims + 0) s'
Within-grows ids claims s s' w e = subst (Within (ids + 1) (claims + 0)) (sym e) (record {
  well_formed = w.well_formed;
  ids_left = let low = w.ids_left in omega arith;
  claims_left = let few = w.claims_left in omega arith;
})

Committed-Within :
    {F : Type 0} (found : Option ℕ) (payload : FactualClaimPayload F) (turn ids claims : ℕ)
    (s : SemanticCommitmentStore F) (r : SemanticCommitmentStore F × CommitResult)
    → Within ids claims s
    → ids + 1 < 2 ^ 64
    → max_commitments ≤ claims
    → Committed found payload turn s r
    → Within (ids + 1) (claims + 0) r.0
Committed-Within found payload turn ids claims s r w room limit outcome =
    let low = w.ids_left in
    elim outcome [
      | inl (i, hit, e) ↦ Within-grows ids claims s _ w (ap (λ r. r.0) e)
      | inr (inl (miss, full, e)) ↦ Within-grows ids claims s _ w (ap (λ r. r.0) e)
      | inr (inr (miss, free, e, v, more, _, _)) ↦
          let next = next_usize_lem s.next_id (omega arith) in
          record {
            well_formed = v;
            ids_left = omega (arith, ap (λ r. r.0.next_id) e ∙ next);
            claims_left = omega (arith, more);
          }
    ]

step-Within :
    {F : Type 0} (to_lowercase : Text → Text) (ids claims : ℕ) (s : SemanticCommitmentStore F)
    (op : StoreOperation F)
    → Within ids claims s
    → ids + 1 < 2 ^ 64
    → max_commitments ≤ claims
    → Within (ids + 1) (claims + quarantining op) (step to_lowercase s op)
unfolding step
step-Within to_lowercase ids claims s (commits payload) w room limit =
    let low = w.ids_left in
    Committed-Within (find_duplicate to_lowercase payload s) payload 0 ids claims s _ w room limit
      (commit-Committed to_lowercase payload s w.well_formed (omega arith))
step-Within to_lowercase ids claims s (observes payload) w room limit =
    let low = w.ids_left in
    Committed-Within (find_duplicate to_lowercase payload s) payload payload.turn_seq ids claims s _
      w room limit (commit_observation-cases to_lowercase payload s w.well_formed (omega arith))
step-Within to_lowercase ids claims s (quarantines payload) w room limit =
    let low = w.ids_left in
    let few = w.claims_left in
    let r = quarantine_observation-cases payload s w.well_formed (omega arith) in
    record { well_formed = r.0; ids_left = omega (arith, r.3); claims_left = omega (arith, r.2) }
step-Within to_lowercase ids claims s (revises cid payload turn) w room limit =
    let low = w.ids_left in
    let few = w.claims_left in
    elim (revise-cases cid payload turn s w.well_formed) [
      | inl (missing, e) ↦ Within-grows ids claims s _ w (ap (or_else s) e)
      | inr (there, e, v, same, _, _) ↦
          subst (Within (ids + 1) (claims + 0)) (sym (ap (or_else s) e))
            (record { well_formed = v; ids_left = omega arith; claims_left = omega (arith, same) })
    ]
step-Within to_lowercase ids claims s (contradicts l r kind turn) w room limit =
    let low = w.ids_left in
    let few = w.claims_left in
    unfold contradict in
    record {
      well_formed = record {
        active_sorted = w.well_formed.active_sorted;
        quarantine_sorted = w.well_formed.quarantine_sorted;
        lineage_sorted = w.well_formed.lineage_sorted;
        active_below = w.well_formed.active_below;
        quarantine_below = w.well_formed.quarantine_below;
        lineage_below = w.well_formed.lineage_below;
        apart = w.well_formed.apart;
      };
      ids_left = omega arith;
      claims_left = omega arith;
    }
step-Within to_lowercase ids claims s (promotes topic turn) w room limit =
    let low = w.ids_left in
    let few = w.claims_left in
    let (v, same, next) = promote_matching-keeps s topic turn w.well_formed in
    record { well_formed = v; ids_left = omega (arith, next); claims_left = omega (arith, same) }

run-Within :
    {F : Type 0} (to_lowercase : Text → Text) (ids claims : ℕ) (s : SemanticCommitmentStore F)
    (ops : List (StoreOperation F))
    → Within ids claims s
    → ids + length ops < 2 ^ 64
    → max_commitments ≤ claims
    → Within (ids + length ops) (claims + quarantined ops) (run to_lowercase s ops)
unfolding run
run-Within to_lowercase ids claims s [] w room limit = record {
  well_formed = w.well_formed;
  ids_left = let low = w.ids_left in omega arith;
  claims_left = let few = w.claims_left in omega arith;
}
run-Within to_lowercase ids claims s (op ∷ ops) w room limit =
    let one = step-Within to_lowercase ids claims s op w (omega arith) limit in
    let rest =
      run-Within to_lowercase (ids + 1) (claims + quarantining op) (step to_lowercase s op) ops one
        (omega arith) (omega arith) in
    record {
      well_formed = rest.well_formed;
      ids_left = let low = rest.ids_left in omega arith;
      claims_left = let few = rest.claims_left in omega arith;
    }

-- An operation that does nothing right after another.
abbrev pub Idle :
    {F : Type 0}
    → (Text → Text)
    → SemanticCommitmentStore F
    → StoreOperation F
    → StoreOperation F
    → Type 0
Idle to_lowercase s op later =
    step to_lowercase (step to_lowercase s op) later ≡ step to_lowercase s op

step-Idle :
    {F : Type 0} (to_lowercase : Text → Text) (payload : FactualClaimPayload F)
    (s : SemanticCommitmentStore F)
    → Idle to_lowercase s (commits payload) (commits payload)
      × Idle to_lowercase s (commits payload) (observes payload)
      × Idle to_lowercase s (observes payload) (commits payload)
      × Idle to_lowercase s (observes payload) (observes payload)
unfolding step commit commit_observation
step-Idle to_lowercase payload s = (
  commit_again to_lowercase payload 0 0 s,
  commit_again to_lowercase payload 0 payload.turn_seq s,
  commit_again to_lowercase payload payload.turn_seq 0 s,
  commit_again to_lowercase payload payload.turn_seq payload.turn_seq s,
)

-- Whatever operations are run on a new store, fewer than 2^64 of them, it stays well formed: its
-- maps are sorted, every id is below the next one, and no id is both active and in quarantine. It
-- holds at most 1024 claims and those that were put in quarantine, and has handed out at most one
-- id for each operation. After a claim is committed there, by either of the two operations that
-- do, to commit it again by either of them leaves the store as it is.
pub run-WellFormed :
    {F : Type 0} (to_lowercase : Text → Text) (ops : List (StoreOperation F))
    (payload : FactualClaimPayload F)
    → length ops < 2 ^ 64
    → let s = run to_lowercase (empty_store F) ops in
      WellFormed s
      × (held s ≤ max_commitments + quarantined ops)
      × (s.next_id ≤ length ops)
      × (Idle to_lowercase s (commits payload) (commits payload)
          × Idle to_lowercase s (commits payload) (observes payload)
          × Idle to_lowercase s (observes payload) (commits payload)
          × Idle to_lowercase s (observes payload) (observes payload))
run-WellFormed {F = F} to_lowercase ops payload few =
    let w =
      run-Within to_lowercase 0 max_commitments (empty_store F) ops
        (record {
          well_formed = empty_store-WellFormed F;
          ids_left = omega arith;
          claims_left = omega arith;
        })
        (omega arith) (omega arith) in
    (
      w.well_formed,
      w.claims_left,
      let low = w.ids_left in omega arith,
      step-Idle to_lowercase payload (run to_lowercase (empty_store F) ops),
    )
