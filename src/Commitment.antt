-- ===== src/Commitment.antt =====
-- The store of semantic commitments: the types of qxfx0-types/src/system_state.rs and the
-- operations of qxfx0-commitment/src/lib.rs. The operations return a new store; here too.
pub mod Store
pub mod Commit
pub mod Promote
pub mod Repeat
pub mod Run
use qx_fx0rust.Base.{
  ℕ, ◌+◌, ◌%◌, ◌^◌, Bool, ◌&&◌, ◌||◌, Option, none, some, List, [], ◌∷◌, ◌++◌, map, if◌then◌else◌,
  leb, find, filter, length, Result, ok, err,
}
use qx_fx0rust.Base.Text.{Text, text_eq, split_whitespace, join_spaces}
use qx_fx0rust.Base.Order.{nat_ord}
use qx_fx0rust.Base.OrdMap.{get, contains_key, insert, remove, entry_push}

-- `CommitmentOrigin`
pub data CommitmentOrigin : Type 0 where
  origin_parser : Text → CommitmentOrigin
  origin_dialogue_outcome origin_manual origin_synthetic : CommitmentOrigin

-- `FactualClaimPayload`; its confidence is a float. A commitment id is the number in it.
pub record FactualClaimPayload (F : Type 0) : Type 0 where
  pub statement : Text
  pub confidence : F
  pub origin : CommitmentOrigin
  pub turn_seq : ℕ
  pub deps : List ℕ
  pub topic : Text

-- `RetractionReason`
pub data RetractionReason : Type 0 where
  user_denied parser_contradiction out_of_scope superseded : RetractionReason

-- `LineageEvent`
pub data LineageEvent : Type 0 where
  committed revised promoted : ℕ → LineageEvent
  retracted : ℕ → RetractionReason → LineageEvent

-- `ContradictionKind`
pub data ContradictionKind : Type 0 where
  contradiction_statement contradiction_scope : ContradictionKind

-- `ContradictionEvent`
pub record ContradictionEvent : Type 0 where
  pub left : ℕ
  pub right : ℕ
  pub kind : ContradictionKind
  pub turn : ℕ

-- A claim and the turn it was held, and the ordered maps of these.
abbrev pub Held : Type 0 → Type 0
Held F = FactualClaimPayload F × ℕ

abbrev pub Claims : Type 0 → Type 0
Claims F = List (ℕ × Held F)

-- `SemanticCommitmentStore`
pub record SemanticCommitmentStore (F : Type 0) : Type 0 where
  pub active : Claims F
  pub quarantine : Claims F
  pub lineage : List (ℕ × List LineageEvent)
  pub contradictions : List ContradictionEvent
  pub next_id : ℕ

-- `CommitResult`
pub data CommitResult : Type 0 where
  new : ℕ → CommitResult
  duplicate : ℕ → CommitResult
  capacity_reached : CommitResult

-- `MAX_COMMITMENTS`
abbrev pub max_commitments : ℕ
max_commitments = 1024

-- `next_id + 1` on a 64-bit `usize`
unfoldable pub next_usize : ℕ → ℕ
next_usize n = (n + 1) % (2 ^ 64)

-- `SemanticCommitmentStore::default`
abbrev pub empty_store : (F : Type 0) → SemanticCommitmentStore F
empty_store F = record {
  active = [];
  quarantine = [];
  lineage = [];
  contradictions = [];
  next_id = 0;
}

-- The operations; `str::to_lowercase` is a parameter.
-- The statement as `find_duplicate` compares it.
abbrev pub normalized : (Text → Text) → Text → Text
normalized to_lowercase statement = to_lowercase (join_spaces (split_whitespace statement))

module _ {F : Type 0} (to_lowercase : Text → Text) where
  unfoldable pub is_same_claim : FactualClaimPayload F → FactualClaimPayload F → Bool
  is_same_claim payload existing =
      text_eq (to_lowercase existing.topic) (to_lowercase payload.topic)
      && text_eq (normalized to_lowercase existing.statement)
          (normalized to_lowercase payload.statement)

  abbrev pub id_of : Option (ℕ × Held F) → Option ℕ
  id_of none = none
  id_of (some e) = some e.0

  -- `find_duplicate`
  unfoldable pub find_duplicate : FactualClaimPayload F → SemanticCommitmentStore F → Option ℕ
  find_duplicate payload store =
      id_of (find (λ e. is_same_claim payload e.1.0) (store.active ++ store.quarantine))

  -- What `commit` and `commit_observation` share: they differ in the turn that they write.
  abbrev pub insert_new :
      FactualClaimPayload F
      → ℕ
      → SemanticCommitmentStore F
      → SemanticCommitmentStore F × CommitResult
  insert_new payload turn store =
      let cid = store.next_id in
      if contains_key cid store.active || contains_key cid store.quarantine
      then (store, duplicate cid)
      else (
        record store {
          next_id = next_usize store.next_id;
          active = insert cid (payload, turn) store.active;
          lineage = insert cid (committed turn ∷ []) store.lineage;
        },
        new cid,
      )

  abbrev pub unless_duplicate :
      FactualClaimPayload F
      → ℕ
      → SemanticCommitmentStore F
      → Option ℕ
      → SemanticCommitmentStore F × CommitResult
  unless_duplicate payload turn store (some existing) = (store, duplicate existing)
  unless_duplicate payload turn store none =
      if leb max_commitments (length store.active + length store.quarantine)
      then (store, capacity_reached)
      else insert_new payload turn store

  -- `commit`
  unfoldable pub commit :
      FactualClaimPayload F → SemanticCommitmentStore F → SemanticCommitmentStore F × CommitResult
  commit payload store = unless_duplicate payload 0 store (find_duplicate payload store)

  -- `commit_observation`
  unfoldable pub commit_observation :
      FactualClaimPayload F → SemanticCommitmentStore F → SemanticCommitmentStore F × CommitResult
  commit_observation payload store =
      unless_duplicate payload payload.turn_seq store (find_duplicate payload store)

module _ {F : Type 0} where
  -- `quarantine_observation`
  unfoldable pub quarantine_observation :
      FactualClaimPayload F → SemanticCommitmentStore F → SemanticCommitmentStore F × ℕ
  quarantine_observation payload store = (
    record store {
      next_id = next_usize store.next_id;
      quarantine = insert store.next_id (payload, payload.turn_seq) store.quarantine;
    },
    store.next_id,
  )

  -- `revise`; the error names the id.
  unfoldable pub revise :
      ℕ
      → FactualClaimPayload F
      → ℕ
      → SemanticCommitmentStore F
      → Result ℕ (SemanticCommitmentStore F)
  revise cid new_payload turn store =
      if contains_key cid store.active
      then ok (record store {
        active = insert cid (new_payload, turn) store.active;
        lineage = entry_push cid (revised turn) store.lineage;
      })
      else err cid

  -- `contradict`
  unfoldable pub contradict :
      ℕ → ℕ → ContradictionKind → ℕ → SemanticCommitmentStore F → SemanticCommitmentStore F
  contradict l r kind turn store = record store {
    contradictions =
        store.contradictions ++ record { left = l; right = r; kind = kind; turn = turn } ∷ [];
  }

  -- One step of the loop of `promote_matching_quarantine`, by what the removal returned.
  abbrev promote_one :
      ℕ → ℕ → SemanticCommitmentStore F → Option (Held F) → SemanticCommitmentStore F
  promote_one turn cid store none = store
  promote_one turn cid store (some (payload, old_turn)) = record store {
    quarantine = remove cid store.quarantine;
    active = insert cid (payload, turn) store.active;
    lineage = entry_push cid (promoted turn) store.lineage;
  }

  unfoldable pub promote_all : ℕ → List ℕ → SemanticCommitmentStore F → SemanticCommitmentStore F
  promote_all turn [] store = store
  promote_all turn (cid ∷ cids) store =
      promote_all turn cids (promote_one turn cid store (get cid store.quarantine))

  unfoldable pub to_promote : Text → Claims F → List ℕ
  to_promote topic quarantine = map (λ e. e.0) (filter (λ e. text_eq e.1.0.topic topic) quarantine)

  -- `promote_matching_quarantine`
  unfoldable pub promote_matching_quarantine :
      SemanticCommitmentStore F → Text → ℕ → SemanticCommitmentStore F
  promote_matching_quarantine store topic turn =
      promote_all turn (to_promote topic store.quarantine) store
