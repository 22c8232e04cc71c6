-- ===== src/Commitment/Repeat.antt =====
-- Committing a claim a second time in qxfx0-commitment/src/lib.rs.
use qx_fx0rust.Base.{
  ℕ, ◌≡◌, refl, ◌+◌, ◌||◌, true, Bool, Option, none, some, List, [], ◌∷◌, ◌++◌, arith, is_some,
  find, leb, length, inl, inr, Bool-cases, Option-cases,
}
use qx_fx0rust.Base.Text.{Text, text_eq_refl}
use qx_fx0rust.Base.Order.{nat_ord}
use qx_fx0rust.Base.OrdMap.{insert, contains_key}
use qx_fx0rust.Commitment.{
  id_of, normalized, FactualClaimPayload, SemanticCommitmentStore, Held, is_same_claim,
  find_duplicate, unless_duplicate, max_commitments,
}
use qx_fx0rust.Commitment.Store.{with_claim}

is_some-find-insert :
    {V : Type 0} (q : ℕ × V → Bool) (k : ℕ) (v : V) (m rest : List (ℕ × V))
    → q (k, v) ≡ true
    → is_some (find q (insert k v m ++ rest)) ≡ true
unfolding insert
is_some-find-insert q k v [] rest h = ground arith
is_some-find-insert q k v ((j, w) ∷ m) rest h = ground (arith, is_some-find-insert q k v m rest h)

is_some-id_of :
    {F : Type 0} (to_lowercase : Text → Text) (o : Option (ℕ × Held F))
    → is_some o ≡ true
    → (i : ℕ) × (id_of to_lowercase o ≡ some i)
is_some-id_of to_lowercase none h = absurd (cc)
is_some-id_of to_lowercase (some e) h = (e.0, refl)

module _ {F : Type 0} (to_lowercase : Text → Text) (payload : FactualClaimPayload F) where
  is_same_claim_refl : is_same_claim to_lowercase payload payload ≡ true
  unfolding is_same_claim
  is_same_claim_refl =
      let topics = text_eq_refl (to_lowercase payload.topic) in
      let statements = text_eq_refl (normalized to_lowercase payload.statement) in
      ground (arith, topics, statements)

  -- A claim that was committed is its own duplicate.
  find_duplicate-with_claim :
      (turn : ℕ) (s : SemanticCommitmentStore F)
      → (i : ℕ) × (find_duplicate to_lowercase payload (with_claim payload turn s) ≡ some i)
  unfolding find_duplicate
  find_duplicate-with_claim turn s =
      let q =
        is_some-find-insert (λ e. is_same_claim to_lowercase payload e.1.0) s.next_id
          (payload, turn) s.active s.quarantine is_same_claim_refl in
      is_some-id_of to_lowercase _ q

  -- What is left of a store on which a claim was committed is left as it is by committing it again.
  pub commit_again :
      (turn later : ℕ) (s : SemanticCommitmentStore F)
      → let once =
          (unless_duplicate to_lowercase payload turn s
            (find_duplicate to_lowercase payload s)).0 in
        (unless_duplicate to_lowercase payload later once
          (find_duplicate to_lowercase payload once)).0
        ≡ once
  commit_again turn later s =
      let (i, again) = find_duplicate-with_claim turn s in
      elim (Option-cases (find_duplicate to_lowercase payload s)) [
        | inr (j, hit) ↦ rw (hit, hit) refl
        | inl miss ↦
            elim (Bool-cases (leb max_commitments (length s.active + length s.quarantine))) [
              | inl full ↦ rw (miss, full, miss, full) refl
              | inr free ↦
                  elim (Bool-cases
                    (contains_key s.next_id s.active || contains_key s.next_id s.quarantine)) [
                      | inl there ↦ rw (miss, free, there, miss, free, there) refl
                      | inr absent ↦ rw (miss, free, absent, again) refl
                    ]
            ]
      ]
