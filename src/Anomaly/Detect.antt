-- ===== src/Anomaly/Detect.antt =====
-- `detect_anomaly` of qxfx0-self/src/anomaly.rs: what it admits, and what its keys identify.
use qx_fx0rust.Base.{
  ◌⊎◌, inl, inr, Bool-cases, not, ◌&&◌, ℕ, ◌≡◌, refl, sym, ap, ◌∙◌, ◌↔◌, Bool, true, false, none,
  some, [], ◌∷◌, ◌++◌, arith, get_or, drop, if◌then◌else◌, subst,
}
use qx_fx0rust.Base.Text.{Text, codes}
use qx_fx0rust.Base.Decimal.{decimal, decimal-injective, decimal-IsDigit, digits-colon_split}
use qx_fx0rust.Anomaly.{
  Platform, AnomalyKind, self_referential_collapse, temporal, unclassifiable, anti_conatus,
  AnomalyRecoveryStrategy, reset_essence, restrict_route, request_revision, AnomalyRecoveryResult,
  essence_reset, route_restricted, revision_requested, AnomalyEvidence, self_reference,
  conatus_evidence, temporal_evidence, AnomalyRecoveryDecision, detect_anomaly, is_self_reference,
}

-- The kinds with their strategies and results.
abbrev pub Admitted : AnomalyKind → AnomalyRecoveryStrategy → AnomalyRecoveryResult → Type 0
Admitted self_referential_collapse s r = (s ≡ reset_essence) × (r ≡ essence_reset)
Admitted temporal s r = (s ≡ request_revision) × (r ≡ revision_requested)
Admitted anti_conatus s r = (s ≡ restrict_route) × (r ≡ route_restricted)
Admitted unclassifiable s r = ⊥

-- The kind under which evidence may be admitted, and its turn.
abbrev pub kind_of : {F : Type 0} → AnomalyEvidence F → AnomalyKind
kind_of (self_reference turn subject angst witness_count) = self_referential_collapse
kind_of (conatus_evidence turn a b c d) = anti_conatus
kind_of (temporal_evidence turn a b) = temporal

abbrev pub turn_of : {F : Type 0} → AnomalyEvidence F → ℕ
turn_of (self_reference turn subject angst witness_count) = turn
turn_of (conatus_evidence turn a b c d) = turn
turn_of (temporal_evidence turn a b) = turn

then_case {ℓ} : {A : Type ℓ} (b : Bool) (x y : A) → b ≡ true → (if b then x else y) ≡ x
then_case b x y e = rw e refl

some_injective {ℓ} : {A : Type ℓ} (a b : A) → some a ≡ some b → a ≡ b
some_injective a b e = cc

-- What holds of the value holds of the result, where a test guards it.
guarded_some {ℓ κ} :
    {A : Type ℓ} (P : A → Type κ) (b : Bool) (r d : A)
    → P r
    → (if b then some r else none) ≡ some d
    → P d
guarded_some P true r d h e = subst P (some_injective r d e) h
guarded_some P false r d h e = absurd (cc)

-- A decision on the evidence, in the terms of its kind.
abbrev pub DecidedOn : {F : Type 0} → AnomalyEvidence F → AnomalyRecoveryDecision F → Type 0
DecidedOn e d =
    (d.evidence ≡ e)
    × (d.kind ≡ kind_of e)
    × Admitted d.kind d.strategy d.outcome
    × (d.max_retries ≡ 0)

module _ (p : Platform) where
  open p use {F64, above_0_9, at_least_0_9, at_least_0_8, at_most_3_0}

  -- What evidence must show to be admitted.
  abbrev pub Qualifies : AnomalyEvidence F64 → Type 0
  Qualifies (self_reference turn subject angst witness_count) =
      (above_0_9 angst ≡ true) × (is_self_reference p subject ≡ true)
  Qualifies (conatus_evidence turn confidence consistent angst conatus) =
      (at_least_0_8 confidence ≡ true)
      × (consistent ≡ false)
      × (at_least_0_9 angst ≡ true)
      × (at_most_3_0 conatus ≡ true)
  Qualifies (temporal_evidence turn current historical) = Unit {0}

  -- A decision is made exactly on evidence that qualifies. It carries the evidence, its kind with
  -- the strategy and the result admitted for that kind, and no retries.
  pub detect_anomaly-admits :
      (e : AnomalyEvidence F64)
      → ((¬ Qualifies e) × (detect_anomaly p e ≡ none))
        ⊎ (Qualifies e
            × (d : AnomalyRecoveryDecision F64) × (detect_anomaly p e ≡ some d)
            × DecidedOn e d)
  unfolding detect_anomaly
  detect_anomaly-admits (self_reference turn subject angst witness_count) =
      elim (Bool-cases (above_0_9 angst && is_self_reference p subject)) [
        | inl shown ↦ inr (ground arith, _, then_case _ _ _ shown, (refl, refl, (refl, refl), refl))
        | inr not_shown ↦ inl (ground arith, rw not_shown refl)
      ]
  detect_anomaly-admits (conatus_evidence turn confidence consistent angst conatus) =
      elim (Bool-cases (
        at_least_0_8 confidence
        && (not consistent && (at_least_0_9 angst && at_most_3_0 conatus)))) [
          | inl shown ↦
              inr (ground arith, _, then_case _ _ _ shown, (refl, refl, (refl, refl), refl))
          | inr not_shown ↦ inl (ground arith, rw not_shown refl)
        ]
  detect_anomaly-admits (temporal_evidence turn current historical) =
      inr (tt, _, refl, (refl, refl, (refl, refl), refl))

-- The key that a kind and a turn are given.
abbrev key_suffix : AnomalyKind → Text
key_suffix self_referential_collapse = codes "self-referential-collapse"
key_suffix temporal = codes "temporal-contradiction"
key_suffix anti_conatus = codes "anti-conatus"
key_suffix unclassifiable = []

abbrev key_of : AnomalyKind → ℕ → Text
key_of kind turn = codes "turn:" ++ (decimal turn ++ 58 ∷ key_suffix kind)

key_suffix-injective : (j k : AnomalyKind) → key_suffix j ≡ key_suffix k → j ≡ k
key_suffix-injective self_referential_collapse self_referential_collapse e = refl
key_suffix-injective temporal temporal e = refl
key_suffix-injective anti_conatus anti_conatus e = refl
key_suffix-injective unclassifiable unclassifiable e = refl
key_suffix-injective self_referential_collapse _ e =
    absurd (omega (arith, ap (λ (t : Text). get_or t 0 0) e))
key_suffix-injective temporal _ e = absurd (omega (arith, ap (λ (t : Text). get_or t 0 0) e))
key_suffix-injective anti_conatus _ e = absurd (omega (arith, ap (λ (t : Text). get_or t 0 0) e))
key_suffix-injective unclassifiable _ e = absurd (omega (arith, ap (λ (t : Text). get_or t 0 0) e))

key_of-injective : (j k : AnomalyKind) (m n : ℕ) → key_of j m ≡ key_of k n → (j ≡ k) × (m ≡ n)
key_of-injective j k m n e =
    let r =
      digits-colon_split (decimal m) (decimal n) (key_suffix j) (key_suffix k) (decimal-IsDigit m)
        (decimal-IsDigit n) (ap (drop 5) e) in
    (key_suffix-injective j k r.1, decimal-injective m n r.0)

module _ (p : Platform) where
  open p use {F64}

  decision_key :
      (e : AnomalyEvidence F64) (d : AnomalyRecoveryDecision F64)
      → detect_anomaly p e ≡ some d
      → d.idempotency_key ≡ key_of (kind_of e) (turn_of e)
  unfolding detect_anomaly
  decision_key (self_reference turn subject angst witness_count) d =
      guarded_some (λ x. x.idempotency_key ≡ key_of self_referential_collapse turn) _ _ d refl
  decision_key (conatus_evidence turn confidence consistent angst conatus) d =
      guarded_some (λ x. x.idempotency_key ≡ key_of anti_conatus turn) _ _ d refl
  decision_key (temporal_evidence turn current historical) d =
      guarded_some (λ x. x.idempotency_key ≡ key_of temporal turn) true _ d refl

  -- Two decisions have the same idempotency key exactly if their evidence is of the same kind and
  -- of the same turn.
  pub detect_anomaly-keys :
      (e f : AnomalyEvidence F64) (c d : AnomalyRecoveryDecision F64)
      → detect_anomaly p e ≡ some c
      → detect_anomaly p f ≡ some d
      → (c.idempotency_key ≡ d.idempotency_key)
        ↔ ((kind_of e ≡ kind_of f) × (turn_of e ≡ turn_of f))
  detect_anomaly-keys e f c d he hf = (
    λ k.
        key_of-injective (kind_of e) (kind_of f) (turn_of e) (turn_of f)
          (sym (decision_key e c he) ∙ k ∙ decision_key f d hf),
    λ same. decision_key e c he ∙ (λ i. key_of (same.0 i) (same.1 i)) ∙ sym (decision_key f d hf),
  )
