-- ===== src/Anomaly.antt =====
-- Anomaly recovery of qxfx0-self/src/anomaly.rs, with the evidence of qxfx0-types/src/anomaly.rs.
-- Floats and `to_lowercase` are those of the standard library and enter as an interface: the
-- comparisons that the detector makes, at the constants that it names.
pub mod Ledger
pub mod Detect
use qx_fx0rust.Base.{
  ℕ, Bool, true, false, ◌&&◌, ◌||◌, not, Option, none, some, if◌then◌else◌, List, [], ◌∷◌, ◌++◌,
  max, length, any,
}
use qx_fx0rust.Base.Text.{Text, codes, text_eq, trim}
use qx_fx0rust.Base.Decimal.{decimal}
use qx_fx0rust.Base.Ring.{pop_excess}
use qx_fx0rust.Stance.{TemporalStanceContradiction, polarity_str}

-- What the detector uses of `f64` and of `str::to_lowercase`.
pub record Platform : Type 1 where
  pub F64 : Type 0
  pub above_0_9 : F64 → Bool
  pub at_least_0_9 : F64 → Bool
  pub at_least_0_8 : F64 → Bool
  pub at_most_3_0 : F64 → Bool
  pub to_lowercase : Text → Text

-- `AnomalyKind`
pub data AnomalyKind : Type 0 where
  self_referential_collapse temporal unclassifiable anti_conatus : AnomalyKind

-- `AnomalyRecoveryStrategy`
pub data AnomalyRecoveryStrategy : Type 0 where
  reset_essence restrict_route request_revision : AnomalyRecoveryStrategy

-- `AnomalyRecoveryResult`
pub data AnomalyRecoveryResult : Type 0 where
  essence_reset route_restricted revision_requested : AnomalyRecoveryResult

-- `AnomalyEvidence`
pub data AnomalyEvidence (F : Type 0) : Type 0 where
  self_reference : (turn : ℕ) (subject : Text) (angst : F) (witness_count : ℕ) → AnomalyEvidence F
  conatus_evidence :
      (turn : ℕ) (stance_confidence : F) (stance_consistent : Bool) (angst : F) (conatus : F)
      → AnomalyEvidence F
  temporal_evidence :
      (turn : ℕ) (current_stance : Text) (historical_stance : Text) → AnomalyEvidence F

-- `AnomalyRecoveryDecision`
pub record AnomalyRecoveryDecision (F : Type 0) : Type 0 where
  pub kind : AnomalyKind
  pub evidence : AnomalyEvidence F
  pub strategy : AnomalyRecoveryStrategy
  pub outcome : AnomalyRecoveryResult
  pub idempotency_key : Text
  pub max_retries : ℕ

-- `AnomalyRecoveryTrace`
pub record AnomalyRecoveryTrace (F : Type 0) : Type 0 where
  pub kind : AnomalyKind
  pub evidence : AnomalyEvidence F
  pub strategy : AnomalyRecoveryStrategy
  pub outcome : AnomalyRecoveryResult
  pub idempotency_key : Text
  pub state_digest : Text

-- `AnomalyReplayOutcome`
pub data AnomalyReplayOutcome (F : Type 0) : Type 0 where
  proposed : AnomalyRecoveryTrace F → AnomalyReplayOutcome F
  no_state_transition : AnomalyRecoveryTrace F → AnomalyReplayOutcome F

-- `AnomalyRecoveryLedger`
pub record AnomalyRecoveryLedger : Type 0 where
  pub capacity : ℕ
  pub keys : List Text

-- `AnomalyRecoveryLedger::new`
unfoldable pub new_ledger : ℕ → AnomalyRecoveryLedger
new_ledger capacity = record { capacity = max capacity 1; keys = [] }

-- The trace that `record` builds.
unfoldable pub trace_of : {F : Type 0} → AnomalyRecoveryDecision F → Text → AnomalyRecoveryTrace F
trace_of d state_digest = record {
  kind = d.kind;
  evidence = d.evidence;
  strategy = d.strategy;
  outcome = d.outcome;
  idempotency_key = d.idempotency_key;
  state_digest = state_digest;
}

-- `AnomalyRecoveryLedger::record`
unfoldable pub record_decision :
    {F : Type 0}
    → AnomalyRecoveryLedger
    → AnomalyRecoveryDecision F
    → Text
    → AnomalyRecoveryLedger × AnomalyReplayOutcome F
record_decision ledger d state_digest =
    if any (λ key. text_eq key d.idempotency_key) ledger.keys
    then (ledger, no_state_transition (trace_of d state_digest))
    else (
      record ledger { keys = pop_excess ledger.capacity (ledger.keys ++ d.idempotency_key ∷ []) },
      proposed (trace_of d state_digest),
    )

-- `TemporalStanceContradiction::to_anomaly_evidence` of qxfx0-types/src/stance.rs
unfoldable pub to_anomaly_evidence : {F : Type 0} → TemporalStanceContradiction → AnomalyEvidence F
to_anomaly_evidence c =
    temporal_evidence c.current.turn (polarity_str c.current.polarity)
      (polarity_str c.historical.polarity)

module _ (p : Platform) where
  open p use {F64, above_0_9, at_least_0_9, at_least_0_8, at_most_3_0, to_lowercase}

  -- `is_self_reference`
  unfoldable pub is_self_reference : Text → Bool
  is_self_reference subject =
      let s = to_lowercase (trim subject) in
      text_eq s (codes "я")
      || text_eq s (codes "ты")
      || text_eq s (codes "qxfx0")
      || text_eq s (codes "система")

  -- `detect_anomaly`
  unfoldable pub detect_anomaly : AnomalyEvidence F64 → Option (AnomalyRecoveryDecision F64)
  detect_anomaly (self_reference turn subject angst witness_count) =
      if above_0_9 angst && is_self_reference subject
      then some (record {
        kind = self_referential_collapse;
        evidence = self_reference turn subject angst witness_count;
        strategy = reset_essence;
        outcome = essence_reset;
        idempotency_key = codes "turn:" ++ (decimal turn ++ codes ":self-referential-collapse");
        max_retries = 0;
      })
      else none
  detect_anomaly (conatus_evidence turn stance_confidence stance_consistent angst conatus) =
      if at_least_0_8 stance_confidence
        && (not stance_consistent && (at_least_0_9 angst && at_most_3_0 conatus))
      then some (record {
        kind = anti_conatus;
        evidence = conatus_evidence turn stance_confidence stance_consistent angst conatus;
        strategy = restrict_route;
        outcome = route_restricted;
        idempotency_key = codes "turn:" ++ (decimal turn ++ codes ":anti-conatus");
        max_retries = 0;
      })
      else none
  detect_anomaly (temporal_evidence turn current_stance historical_stance) = some (record {
    kind = temporal;
    evidence = temporal_evidence turn current_stance historical_stance;
    strategy = request_revision;
    outcome = revision_requested;
    idempotency_key = codes "turn:" ++ (decimal turn ++ codes ":temporal-contradiction");
    max_retries = 0;
  })
