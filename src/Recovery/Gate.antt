-- ===== src/Recovery/Gate.antt =====
-- When the recovery gate of qxfx0-self/src/temporal_recovery.rs grants a permit.
use qx_fx0rust.Base.{
  ℕ, ◌≤◌, ◌≡◌, ◌≢◌, refl, sym, ap, ◌∙◌, ◌↔◌, ◌⊎◌, inl, inr, true, false, arith, length, ok,
}
use qx_fx0rust.Base.Text.{Text, text_eq_iff, is_blank, has_control}
use qx_fx0rust.Stance.{
  TemporalStanceContradiction, affirmed, rejected, system_decision, polarity_str, polarity_eq,
  is_system_decision,
}
use qx_fx0rust.Anomaly.{
  temporal, request_revision, revision_requested, AnomalyEvidence, AnomalyRecoveryDecision,
  to_anomaly_evidence, temporal_evidence, self_reference, conatus_evidence,
}
use qx_fx0rust.Recovery.{
  TemporalRecoveryAuthority, unavailable, limited_non_production, non_production,
  verified_signed_issuer, SignedIssuer, EligibilityContext, Permit, is_lower_hex_len,
  evidence_matches, permit_key, is_invalid_scope, evaluate_eligibility,
}

-- A name that a scope accepts: not blank, of at most `limit` characters, none of them a control.
abbrev pub IsScope : ℕ → Text → Type 0
IsScope limit s = (is_blank s ≡ false) × (length s ≤ limit) × (has_control s ≡ false)

-- Everything that a permit rests on.
pub record MayRecover {F : Type 0} (d : AnomalyRecoveryDecision F) (c : TemporalStanceContradiction)
    (x : EligibilityContext) (i : SignedIssuer) : Type 0 where
  pub mode : x.mode ≡ limited_non_production
  pub environment : x.environment ≡ non_production
  pub allowlisted : x.session_allowlisted ≡ true
  pub authority : x.authority ≡ verified_signed_issuer i
  pub issuer : is_blank i.issuer_id ≡ false
  pub key : is_blank i.key_id ≡ false
  pub decision_id : is_lower_hex_len i.decision_id_hex 32 ≡ true
  pub fingerprint : is_lower_hex_len i.signed_payload_fingerprint_hex 64 ≡ true
  pub kind : d.kind ≡ temporal
  pub strategy : d.strategy ≡ request_revision
  pub outcome : d.outcome ≡ revision_requested
  pub retries : d.max_retries ≡ 0
  pub evidence : d.evidence ≡ to_anomaly_evidence c
  pub current : c.current.polarity ≡ affirmed
  pub historical : c.historical.polarity ≡ rejected
  pub current_source : c.current.source ≡ system_decision
  pub historical_source : c.historical.source ≡ system_decision
  pub topic : c.current.topic.as_str ≡ c.historical.topic.as_str
  pub unblocked : x.turn_blocked ≡ false
  pub fresh : x.provenance_fresh ≡ true
  pub replayed : x.replay_consistent ≡ true
  pub audited : x.audit_ready ≡ true
  pub first_request : x.prior_requests_for_topic_in_window ≡ 0
  pub session : IsScope 128 x.session_id
  pub window : IsScope 64 x.window_id

-- The permit that the gate then writes.
abbrev pub permit_for :
    {F : Type 0}
    → AnomalyRecoveryDecision F
    → TemporalStanceContradiction
    → EligibilityContext
    → SignedIssuer
    → Permit
permit_for d c x i = record {
  session_id = x.session_id;
  topic = c.current.topic;
  window_id = x.window_id;
  strategy = d.strategy;
  outcome = d.outcome;
  issuer_id = i.issuer_id;
  key_id = i.key_id;
  decision_id_hex = i.decision_id_hex;
  signed_payload_fingerprint_hex = i.signed_payload_fingerprint_hex;
  max_requests_for_topic_in_window = 1;
  idempotency_key = permit_key x c i.decision_id_hex;
}

pub evidence_matches_iff :
    {F : Type 0} (e : AnomalyEvidence F) (c : TemporalStanceContradiction)
    → (evidence_matches e c ≡ true) ↔ (e ≡ to_anomaly_evidence c)
unfolding to_anomaly_evidence
evidence_matches_iff (self_reference t s a w) c = (λ e. cc, λ e. cc)
evidence_matches_iff (conatus_evidence t k s a n) c = (λ e. cc, λ e. cc)
evidence_matches_iff (temporal_evidence t p h) c = ground (
  arith,
  text_eq_iff p (polarity_str c.current.polarity),
  text_eq_iff h (polarity_str c.historical.polarity),
)

IsScope-iff : (s w : Text) → (is_invalid_scope s w ≡ false) ↔ (IsScope 128 s × IsScope 64 w)
unfolding is_invalid_scope
IsScope-iff s w = ground arith

evaluate_grants :
    {F : Type 0} (d : AnomalyRecoveryDecision F) (c : TemporalStanceContradiction)
    (x : EligibilityContext) (i : SignedIssuer)
    → MayRecover d c x i
    → evaluate_eligibility d c x ≡ ok (permit_for d c x i)
unfolding evaluate_eligibility polarity_eq is_system_decision
evaluate_grants d c x i m = ground (
  arith,
  evidence_matches_iff d.evidence c,
  text_eq_iff c.current.topic.as_str c.historical.topic.as_str,
  IsScope-iff x.session_id x.window_id,
)

authority_cases :
    (a : TemporalRecoveryAuthority)
    → (a ≡ unavailable) ⊎ ((i : SignedIssuer) × (a ≡ verified_signed_issuer i))
authority_cases unavailable = inl refl
authority_cases (verified_signed_issuer i) = inr (i, refl)

granted :
    {F : Type 0} (d : AnomalyRecoveryDecision F) (c : TemporalStanceContradiction)
    (x : EligibilityContext) (i : SignedIssuer) (permit : Permit)
    → x.authority ≡ verified_signed_issuer i
    → evaluate_eligibility d c x ≡ ok permit
    → MayRecover d c x i × (permit ≡ permit_for d c x i)
unfolding evaluate_eligibility polarity_eq is_system_decision
granted d c x i permit a e = ground (
  arith,
  evidence_matches_iff d.evidence c,
  text_eq_iff c.current.topic.as_str c.historical.topic.as_str,
  IsScope-iff x.session_id x.window_id,
)

not_granted :
    {F : Type 0} (d : AnomalyRecoveryDecision F) (c : TemporalStanceContradiction)
    (x : EligibilityContext) (permit : Permit)
    → x.authority ≡ unavailable
    → evaluate_eligibility d c x ≢ ok permit
unfolding evaluate_eligibility
not_granted d c x permit a = ground arith

-- The gate grants a permit exactly if, for the issuer that vouches for the decision, every
-- condition of the policy holds: limited rollout outside production, an allowlisted session, a
-- well-formed signed authority, a temporal anomaly with its strategy, evidence of the very
-- contradiction between two system decisions on one topic, an unblocked turn with fresh, replayed
-- and auditable provenance, no earlier request in the window, and valid scopes. The permit names
-- that session, window, topic and issuer.
pub evaluate_eligibility-permits :
    {F : Type 0} (d : AnomalyRecoveryDecision F) (c : TemporalStanceContradiction)
    (x : EligibilityContext) (permit : Permit)
    → (evaluate_eligibility d c x ≡ ok permit)
      ↔ ((i : SignedIssuer) × MayRecover d c x i × (permit ≡ permit_for d c x i))
evaluate_eligibility-permits d c x permit = (
  λ e. elim (authority_cases x.authority) [
    | inl none_given ↦ absurd (not_granted d c x permit none_given e)
    | inr (i, given) ↦ let r = granted d c x i permit given e in (i, r.0, r.1)
  ],
  λ g. evaluate_grants d c x g.0 g.1 ∙ ap ok (sym g.2),
)
