-- ===== src/Commitment/Store.antt =====
-- The commitment store of qxfx0-commitment/src/lib.rs stays well formed: the invariant, and what
-- committing, quarantining and revising do on each branch.
use qx_fx0rust.Base.{
  ℕ, ◌+◌, ◌<◌, ◌^◌, ◌≡◌, refl, inl, inr, true, false, List, [], ◌∷◌, arith, length, ==_iff,
  Bool-cases,
}
use qx_fx0rust.Base.Text.{Text}
use qx_fx0rust.Base.Order.{nat_ord}
use qx_fx0rust.Base.OrdMap.{contains_key, insert, IsSorted, contains_key-insert, insert-IsSorted}
use qx_fx0rust.Commitment.{
  FactualClaimPayload, SemanticCommitmentStore, new, next_usize, empty_store, insert_new, committed,
}

-- Sorted maps, every id below the next one, and no id both active and in quarantine.
pub record WellFormed {F : Type 0} (s : SemanticCommitmentStore F) : Type 0 where
  pub active_sorted : IsSorted nat_ord s.active
  pub quarantine_sorted : IsSorted nat_ord s.quarantine
  pub lineage_sorted : IsSorted nat_ord s.lineage
  pub active_below : (i : ℕ) → contains_key i s.active ≡ true → i < s.next_id
  pub quarantine_below : (i : ℕ) → contains_key i s.quarantine ≡ true → i < s.next_id
  pub lineage_below : (i : ℕ) → contains_key i s.lineage ≡ true → i < s.next_id
  pub apart : (i : ℕ) → contains_key i s.active ≡ true → contains_key i s.quarantine ≡ false

-- The number of claims that the store holds.
abbrev pub held : {F : Type 0} → SemanticCommitmentStore F → ℕ
held s = length s.active + length s.quarantine

pub empty_store-WellFormed : (F : Type 0) → WellFormed (empty_store F)
unfolding contains_key
empty_store-WellFormed F = record {
  active_sorted = tt;
  quarantine_sorted = tt;
  lineage_sorted = tt;
  active_below = λ i e. cc;
  quarantine_below = λ i e. cc;
  lineage_below = λ i e. cc;
  apart = λ i e. cc;
}

-- The id that is handed out next is in neither map.
pub fresh_active :
    {F : Type 0} (s : SemanticCommitmentStore F)
    → WellFormed s
    → contains_key s.next_id s.active ≡ false
fresh_active s v = elim (Bool-cases (contains_key s.next_id s.active)) [
  | inl there ↦ let low = v.active_below s.next_id there in absurd (omega arith)
  | inr absent ↦ absent
]

pub fresh_quarantine :
    {F : Type 0} (s : SemanticCommitmentStore F)
    → WellFormed s
    → contains_key s.next_id s.quarantine ≡ false
fresh_quarantine s v = elim (Bool-cases (contains_key s.next_id s.quarantine)) [
  | inl there ↦ let low = v.quarantine_below s.next_id there in absurd (omega arith)
  | inr absent ↦ absent
]

pub next_usize_lem : (n : ℕ) → n + 1 < 2 ^ 64 → next_usize n ≡ n + 1
unfolding next_usize
next_usize_lem n h = ground arith

-- A key of a map with one more entry is that of the entry, or an old one.
pub below_insert {κ} :
    {V : Type κ} (n m i : ℕ) (v : V) (es : List (ℕ × V))
    → m ≡ n + 1
    → ((i : ℕ) → contains_key i es ≡ true → i < n)
    → contains_key i (insert n v es) ≡ true
    → i < m
below_insert n m i v es e h c = ground (arith, contains_key-insert n i v es, ==_iff n i, h i)

-- The store with one more active claim.
abbrev pub with_claim :
    {F : Type 0} → FactualClaimPayload F → ℕ → SemanticCommitmentStore F → SemanticCommitmentStore F
with_claim payload turn s = record s {
  next_id = next_usize s.next_id;
  active = insert s.next_id (payload, turn) s.active;
  lineage = insert s.next_id (committed turn ∷ []) s.lineage;
}

pub with_claim-WellFormed :
    {F : Type 0} (payload : FactualClaimPayload F) (turn : ℕ) (s : SemanticCommitmentStore F)
    → WellFormed s
    → s.next_id + 1 < 2 ^ 64
    → WellFormed (with_claim payload turn s)
with_claim-WellFormed payload turn s v room =
    let next = next_usize_lem s.next_id room in
    record {
      active_sorted = insert-IsSorted s.next_id (payload, turn) s.active v.active_sorted;
      quarantine_sorted = v.quarantine_sorted;
      lineage_sorted = insert-IsSorted s.next_id (committed turn ∷ []) s.lineage v.lineage_sorted;
      active_below = λ i.
          below_insert s.next_id (next_usize s.next_id) i (payload, turn) s.active next
            v.active_below;
      quarantine_below = λ i c. let low = v.quarantine_below i c in omega arith;
      lineage_below = λ i.
          below_insert s.next_id (next_usize s.next_id) i (committed turn ∷ []) s.lineage next
            v.lineage_below;
      apart = λ i c. ground (
        arith,
        contains_key-insert s.next_id i (payload, turn) s.active,
        ==_iff s.next_id i,
        fresh_quarantine s v,
        v.apart i,
      );
    }

pub insert_new-fresh :
    {F : Type 0} (to_lowercase : Text → Text) (payload : FactualClaimPayload F) (turn : ℕ)
    (s : SemanticCommitmentStore F)
    → WellFormed s
    → insert_new to_lowercase payload turn s ≡ (with_claim payload turn s, new s.next_id)
insert_new-fresh to_lowercase payload turn s v = rw (fresh_active s v, fresh_quarantine s v) refl
