-- ===== src/Recovery/Chain.antt =====
-- The recovery gate behind the detectors: qxfx0-types/src/stance.rs, qxfx0-self/src/anomaly.rs
-- and qxfx0-self/src/temporal_recovery.rs together.
use qx_fx0rust.Base.{◌≡◌, ◌≢◌, sym, ap, ◌∙◌, some, arith, err}
use qx_fx0rust.Base.Text.{text_eq_iff}
use qx_fx0rust.Stance.{
  BoundedStanceProvenance, StanceObservation, TemporalStanceContradiction, StancePolarity, affirmed,
  rejected, system_decision, polarity_eq, is_system_decision, detect_temporal_contradiction,
}
use qx_fx0rust.Stance.Contradiction.{detect_temporal_contradiction-some}
use qx_fx0rust.Anomaly.{
  Platform, AnomalyRecoveryDecision, temporal, request_revision, revision_requested,
  to_anomaly_evidence, detect_anomaly,
}
use qx_fx0rust.Recovery.{
  EligibilityContext, evaluate_eligibility, strategy_not_permitted, evidence_mismatch,
  topic_mismatch,
}
use qx_fx0rust.Recovery.Gate.{evidence_matches_iff}

other_polarity : (p q : StancePolarity) → p ≡ affirmed → q ≢ p → q ≡ rejected
other_polarity p q e n = ground arith

-- The gate past its first conditions, on a decision for the contradiction itself.
consistent_decision :
    {F : Type 0} (d : AnomalyRecoveryDecision F) (c : TemporalStanceContradiction)
    (x : EligibilityContext)
    → d.kind ≡ temporal
    → d.strategy ≡ request_revision
    → d.outcome ≡ revision_requested
    → d.max_retries ≡ 0
    → d.evidence ≡ to_anomaly_evidence c
    → c.current.polarity ≡ affirmed
    → c.historical.polarity ≡ rejected
    → c.current.source ≡ system_decision
    → c.historical.source ≡ system_decision
    → c.current.topic.as_str ≡ c.historical.topic.as_str
    → (evaluate_eligibility d c x ≢ err strategy_not_permitted)
      × (evaluate_eligibility d c x ≢ err evidence_mismatch)
      × (evaluate_eligibility d c x ≢ err topic_mismatch)
unfolding evaluate_eligibility polarity_eq is_system_decision
consistent_decision d c x k s o r e p q u v t = ground (
  arith,
  evidence_matches_iff d.evidence c,
  text_eq_iff c.current.topic.as_str c.historical.topic.as_str,
)

detected_decision :
    (p : Platform) (c : TemporalStanceContradiction) (d : AnomalyRecoveryDecision p.F64)
    → detect_anomaly p (to_anomaly_evidence c) ≡ some d
    → (d.kind ≡ temporal)
      × (d.strategy ≡ request_revision)
      × (d.outcome ≡ revision_requested)
      × (d.max_retries ≡ 0)
      × (d.evidence ≡ to_anomaly_evidence c)
unfolding detect_anomaly to_anomaly_evidence
detected_decision p c d e = ground arith

-- A contradiction that the detector finds for an affirmed stance, taken through anomaly
-- detection, is never denied for its strategy, its evidence or its topic.
pub detected-consistent :
    (p : Platform) (s : BoundedStanceProvenance) (current : StanceObservation)
    (c : TemporalStanceContradiction) (d : AnomalyRecoveryDecision p.F64) (x : EligibilityContext)
    → detect_temporal_contradiction s current ≡ some c
    → current.polarity ≡ affirmed
    → detect_anomaly p (to_anomaly_evidence c) ≡ some d
    → (evaluate_eligibility d c x ≢ err strategy_not_permitted)
      × (evaluate_eligibility d c x ≢ err evidence_mismatch)
      × (evaluate_eligibility d c x ≢ err topic_mismatch)
detected-consistent p s current c d x found affirms decided =
    let (same, system, past) = detect_temporal_contradiction-some s current c found in
    let (kind, strategy, outcome, retries, evidence) = detected_decision p c d decided in
    let polarity = ap (λ (o : StanceObservation). o.polarity) same in
    consistent_decision d c x kind strategy outcome retries evidence (polarity ∙ affirms)
      (other_polarity current.polarity c.historical.polarity affirms past.3)
      (ap (λ (o : StanceObservation). o.source) same ∙ system) past.0
      (ap (λ (o : StanceObservation). o.topic.as_str) same ∙ sym past.2)
