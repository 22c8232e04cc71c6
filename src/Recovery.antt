-- ===== src/Recovery.antt =====
-- The temporal recovery gate of qxfx0-self/src/temporal_recovery.rs.
pub mod Gate
pub mod Chain
use qx_fx0rust.Base.{
  ℕ, ◌<◌, Bool, true, false, ◌&&◌, ◌||◌, not, Option, none, some, if◌then◌else◌, List, [], ◌∷◌,
  ◌++◌, ltb, leb, ◌==◌, all, length, Result, ok, err, ◌>>=◌, ◌>>◌, fail_if,
}
use qx_fx0rust.Base.Text.{Text, codes, text_eq, is_blank, has_control, byte_len}
use qx_fx0rust.Stance.{
  StanceTopic, TemporalStanceContradiction, StancePolarity, affirmed, rejected, StanceSource,
  is_system_decision, polarity_eq, polarity_str,
}
use qx_fx0rust.Anomaly.{
  AnomalyKind, temporal, AnomalyRecoveryStrategy, request_revision, AnomalyRecoveryResult,
  revision_requested, AnomalyEvidence, temporal_evidence, AnomalyRecoveryDecision,
}

-- `TemporalRecoveryMode`
pub data TemporalRecoveryMode : Type 0 where
  disabled shadow_only limited_non_production : TemporalRecoveryMode

-- `TemporalRecoveryEnvironment`
pub data TemporalRecoveryEnvironment : Type 0 where
  non_production production : TemporalRecoveryEnvironment

-- The fields of `VerifiedSignedIssuer`.
pub record SignedIssuer : Type 0 where
  pub issuer_id : Text
  pub key_id : Text
  pub decision_id_hex : Text
  pub signed_payload_fingerprint_hex : Text

-- `TemporalRecoveryAuthority`
pub data TemporalRecoveryAuthority : Type 0 where
  unavailable : TemporalRecoveryAuthority
  verified_signed_issuer : SignedIssuer → TemporalRecoveryAuthority

-- `TemporalRecoveryEligibilityContext`
pub record EligibilityContext : Type 0 where
  pub mode : TemporalRecoveryMode
  pub environment : TemporalRecoveryEnvironment
  pub session_id : Text
  pub session_allowlisted : Bool
  pub window_id : Text
  pub authority : TemporalRecoveryAuthority
  pub turn_blocked : Bool
  pub provenance_fresh : Bool
  pub replay_consistent : Bool
  pub audit_ready : Bool
  pub prior_requests_for_topic_in_window : ℕ

-- `TemporalRecoveryDenialReason`
pub data DenialReason : Type 0 where
  mode_disabled only_shadow production_forbidden session_not_allowlisted : DenialReason
  authority_unavailable invalid_authority_proof strategy_not_permitted : DenialReason
  evidence_mismatch topic_mismatch turn_blocked stale_provenance replay_mismatch : DenialReason
  audit_unavailable already_requested invalid_scope : DenialReason

-- `TemporalRecoveryPermit`
pub record Permit : Type 0 where
  pub session_id : Text
  pub topic : StanceTopic
  pub window_id : Text
  pub strategy : AnomalyRecoveryStrategy
  pub outcome : AnomalyRecoveryResult
  pub issuer_id : Text
  pub key_id : Text
  pub decision_id_hex : Text
  pub signed_payload_fingerprint_hex : Text
  pub max_requests_for_topic_in_window : ℕ
  pub idempotency_key : Text

-- `TemporalRecoveryEligibility`: `Denied` is the error, `Eligible` the value.
abbrev pub Eligibility : Type 0
Eligibility = Result DenialReason Permit

-- `is_lower_hex_len`, on the code points of the text: those of several bytes are no hex digits.
unfoldable pub is_lower_hex_len : Text → ℕ → Bool
is_lower_hex_len value len =
    (byte_len value == len)
    && all (λ c. (leb b'0' c && leb c b'9') || (leb b'a' c && leb c b'f')) value

-- The tests `!=` of the gate, as the derived equalities compute them.
abbrev is_temporal : AnomalyKind → Bool
is_temporal temporal = true
is_temporal other = false

abbrev is_request_revision : AnomalyRecoveryStrategy → Bool
is_request_revision request_revision = true
is_request_revision other = false

abbrev is_revision_requested : AnomalyRecoveryResult → Bool
is_revision_requested revision_requested = true
is_revision_requested other = false

-- `decision.evidence == contradiction.to_anomaly_evidence()`: the right side is a temporal one.
abbrev pub evidence_matches : {F : Type 0} → AnomalyEvidence F → TemporalStanceContradiction → Bool
evidence_matches (temporal_evidence turn current historical) c =
    (turn == c.current.turn)
    && (text_eq current (polarity_str c.current.polarity)
        && text_eq historical (polarity_str c.historical.polarity))
evidence_matches other c = false

abbrev mode_gate : TemporalRecoveryMode → Result DenialReason (Unit {0})
mode_gate disabled = err mode_disabled
mode_gate shadow_only = err only_shadow
mode_gate limited_non_production = ok tt

abbrev is_production : TemporalRecoveryEnvironment → Bool
is_production production = true
is_production non_production = false

abbrev authority_gate : TemporalRecoveryAuthority → Result DenialReason SignedIssuer
authority_gate unavailable = err authority_unavailable
authority_gate (verified_signed_issuer s) = ok s

-- The idempotency key of a permit.
unfoldable pub permit_key : EligibilityContext → TemporalStanceContradiction → Text → Text
permit_key context c decision_id_hex =
    codes "session:"
    ++ (context.session_id
        ++ (codes ":window:"
            ++ (context.window_id
                ++ (codes ":topic:"
                    ++ (c.current.topic.as_str
                        ++ (codes ":decision:"
                            ++ (decision_id_hex ++ codes ":request-revision")))))))

-- The scope tests at the end of the gate.
unfoldable pub is_invalid_scope : Text → Text → Bool
is_invalid_scope session_id window_id =
    is_blank session_id
    || (ltb 128 (length session_id)
        || (has_control session_id
            || (is_blank window_id || (ltb 64 (length window_id) || has_control window_id))))

-- `evaluate_temporal_recovery_eligibility`
unfoldable pub evaluate_eligibility :
    {F : Type 0}
    → AnomalyRecoveryDecision F
    → TemporalStanceContradiction
    → EligibilityContext
    → Eligibility
evaluate_eligibility decision c context = do
  mode_gate context.mode
  fail_if (is_production context.environment) production_forbidden
  fail_if (not context.session_allowlisted) session_not_allowlisted
  issuer ← authority_gate context.authority
  fail_if
      (is_blank issuer.issuer_id
        || (is_blank issuer.key_id
            || (not (is_lower_hex_len issuer.decision_id_hex 32)
                || not (is_lower_hex_len issuer.signed_payload_fingerprint_hex 64))))
      invalid_authority_proof
  fail_if
      (not (is_temporal decision.kind)
        || (not (is_request_revision decision.strategy)
            || (not (is_revision_requested decision.outcome) || not (decision.max_retries == 0))))
      strategy_not_permitted
  fail_if
      (not (evidence_matches decision.evidence c)
        || (not (polarity_eq c.current.polarity affirmed)
            || (not (polarity_eq c.historical.polarity rejected)
                || (not (is_system_decision c.current.source)
                    || not (is_system_decision c.historical.source)))))
      evidence_mismatch
  fail_if (not (text_eq c.current.topic.as_str c.historical.topic.as_str)) topic_mismatch
  fail_if context.turn_blocked turn_blocked
  fail_if (not context.provenance_fresh) stale_provenance
  fail_if (not context.replay_consistent) replay_mismatch
  fail_if (not context.audit_ready) audit_unavailable
  fail_if (ltb 0 context.prior_requests_for_topic_in_window) already_requested
  fail_if (is_invalid_scope context.session_id context.window_id) invalid_scope
  ok (record {
    session_id = context.session_id;
    topic = c.current.topic;
    window_id = context.window_id;
    strategy = decision.strategy;
    outcome = decision.outcome;
    issuer_id = issuer.issuer_id;
    key_id = issuer.key_id;
    decision_id_hex = issuer.decision_id_hex;
    signed_payload_fingerprint_hex = issuer.signed_payload_fingerprint_hex;
    max_requests_for_topic_in_window = 1;
    idempotency_key = permit_key context c issuer.decision_id_hex;
  })
