-- ===== src/Examples/RecoveryExamples.antt =====
-- Anomaly detection, the recovery ledger and the recovery gate at concrete evidence.
use qx_fx0rust.Base.{
  ◌⊎◌, ℕ, ◌≡◌, ◌≢◌, refl, true, false, none, some, [], ◌∷◌, arith, leb, ltb, ok, err,
}
use qx_fx0rust.Base.Text.{codes, text_eq, trim, byte_len}
use qx_fx0rust.Base.Decimal.{decimal}
use qx_fx0rust.Stance.{
  StanceObservation, StancePolarity, affirmed, rejected, system_decision, BoundedStanceProvenance,
  TemporalStanceContradiction, detect_temporal_contradiction, contradicts, is_system_decision,
  polarity_eq,
}
use qx_fx0rust.Anomaly.{
  Platform, AnomalyEvidence, conatus_evidence, AnomalyRecoveryDecision, AnomalyRecoveryLedger,
  temporal, request_revision, revision_requested, anti_conatus, restrict_route, route_restricted,
  record_decision, to_anomaly_evidence, detect_anomaly,
}
use qx_fx0rust.Anomaly.Ledger.{IsLedger, record_decision-IsLedger}
use qx_fx0rust.Anomaly.Detect.{Qualifies, DecidedOn, detect_anomaly-admits}
use qx_fx0rust.Recovery.{
  limited_non_production, non_production, verified_signed_issuer, SignedIssuer, EligibilityContext,
  strategy_not_permitted, evaluate_eligibility, is_lower_hex_len,
}
use qx_fx0rust.Recovery.Gate.{MayRecover, permit_for, evaluate_eligibility-permits}
use qx_fx0rust.Recovery.Chain.{detected-consistent}

-- Tenths in place of floats, and names that have no capitals.
abbrev tenths : Platform
tenths = record {
  F64 = ℕ;
  above_0_9 = λ x. ltb 9 x;
  at_least_0_9 = λ x. leb 9 x;
  at_least_0_8 = λ x. leb 8 x;
  at_most_3_0 = λ x. leb x 30;
  to_lowercase = λ s. s;
}

abbrev evidence : AnomalyEvidence ℕ
evidence = conatus_evidence 7 8 false 9 30

detect_anomaly-admits_example :
    ((¬ Qualifies tenths evidence) × (detect_anomaly tenths evidence ≡ none))
    ⊎ (Qualifies tenths evidence
        × (d : AnomalyRecoveryDecision ℕ) × (detect_anomaly tenths evidence ≡ some d)
        × DecidedOn evidence d)
detect_anomaly-admits_example = detect_anomaly-admits tenths evidence

abbrev decided : AnomalyRecoveryDecision ℕ
decided = record {
  kind = anti_conatus;
  evidence = evidence;
  strategy = restrict_route;
  outcome = route_restricted;
  idempotency_key = codes "turn:7:anti-conatus";
  max_retries = 0;
}

abbrev ledger : AnomalyRecoveryLedger
ledger = record { capacity = 64; keys = decided.idempotency_key ∷ [] }

record_decision-IsLedger_example : IsLedger (record_decision ledger decided []).0
record_decision-IsLedger_example =
    (record_decision-IsLedger ledger decided []
      (record { room = omega arith; bounded = omega arith; distinct = (tt, tt) })).0

abbrev on_freedom : ℕ → StancePolarity → StanceObservation
on_freedom n p = record {
  turn = n;
  topic = record { as_str = codes "freedom" };
  polarity = p;
  source = system_decision;
}

abbrev contradiction : TemporalStanceContradiction
contradiction = record { current = on_freedom 4 affirmed; historical = on_freedom 1 rejected }

abbrev past : BoundedStanceProvenance
past = record { version = 1; capacity = 1; observations = on_freedom 1 rejected ∷ [] }

detected : detect_temporal_contradiction past (on_freedom 4 affirmed) ≡ some contradiction
unfolding detect_temporal_contradiction contradicts is_system_decision polarity_eq text_eq
detected = refl

abbrev revision : AnomalyRecoveryDecision ℕ
revision = record {
  kind = temporal;
  evidence = to_anomaly_evidence contradiction;
  strategy = request_revision;
  outcome = revision_requested;
  idempotency_key = codes "turn:4:temporal-contradiction";
  max_retries = 0;
}

abbrev issuer : SignedIssuer
issuer = record {
  issuer_id = codes "issuer";
  key_id = codes "k1";
  decision_id_hex = codes "0123456789abcdef0123456789abcdef";
  signed_payload_fingerprint_hex =
      codes "0123456789abcdef0123456789abcdef0123456789abcdef0123456789abcdef";
}

abbrev context : EligibilityContext
context = record {
  mode = limited_non_production;
  environment = non_production;
  session_id = codes "session";
  session_allowlisted = true;
  window_id = codes "w1";
  authority = verified_signed_issuer issuer;
  turn_blocked = false;
  provenance_fresh = true;
  replay_consistent = true;
  audit_ready = true;
  prior_requests_for_topic_in_window = 0;
}

granted : MayRecover revision contradiction context issuer
unfolding is_lower_hex_len byte_len trim
granted = record {
  mode = refl;
  environment = refl;
  allowlisted = refl;
  authority = refl;
  issuer = refl;
  key = refl;
  decision_id = refl;
  fingerprint = refl;
  kind = refl;
  strategy = refl;
  outcome = refl;
  retries = refl;
  evidence = refl;
  current = refl;
  historical = refl;
  current_source = refl;
  historical_source = refl;
  topic = refl;
  unblocked = refl;
  fresh = refl;
  replayed = refl;
  audited = refl;
  first_request = refl;
  session = (refl, omega arith, refl);
  window = (refl, omega arith, refl);
}

evaluate_eligibility-permits_example :
    evaluate_eligibility revision contradiction context
    ≡ ok (permit_for revision contradiction context issuer)
evaluate_eligibility-permits_example =
    (evaluate_eligibility-permits revision contradiction context
        (permit_for revision contradiction context issuer)).1
      (issuer, granted, refl)

detected-consistent_example :
    evaluate_eligibility revision contradiction context ≢ err strategy_not_permitted
unfolding detect_anomaly to_anomaly_evidence decimal
detected-consistent_example =
    (detected-consistent tenths past (on_freedom 4 affirmed) contradiction revision context detected
      refl refl).0
