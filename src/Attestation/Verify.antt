-- ===== src/Attestation/Verify.antt =====
-- When `verify_signed_stance_decision` of qxfx0-types/src/stance_authority.rs accepts a decision.
use qx_fx0rust.Base.{
  ℕ, ◌≡◌, refl, ◌↔◌, true, false, some, List, ==_iff, ok, arith, Option-cases, inl, inr,
}
use qx_fx0rust.Base.Text.{Text, text_eq_iff}
use qx_fx0rust.Base.Integers.{pos, ltℤ, ◌-ℤ◌}
use qx_fx0rust.Attestation.{
  StanceDecisionAttestation, SignedStanceDecision, StanceVerificationContext,
  VerifiedStanceDecision, SignatureVerifier, Ed25519, PublicKeys, key_bytes, verify_signature,
  payload_bytes, canonical_bytes, verify_signed_stance_decision,
}
use qx_fx0rust.Attestation.Canonical.{Validates, validate_attestation_iff}

-- What binds a signed decision to the turn: the attestation is valid and is that of the audience,
-- the session, the turn and the request; the time is within its window, which is no longer than
-- the policy allows; and the signature covers its canonical bytes.
pub record Binds (verifier : SignatureVerifier) (a : StanceDecisionAttestation) (signature : List ℕ)
    (c : StanceVerificationContext) : Type 0 where
  pub valid : Validates a
  pub audience : a.audience ≡ c.audience
  pub session : a.session_id ≡ c.session_id
  pub turn : a.expected_pre_turn ≡ c.expected_pre_turn
  pub request : a.request_digest ≡ c.request_digest
  pub started : ltℤ c.verification_time_unix_seconds a.issued_at_unix_seconds ≡ false
  pub not_over : ltℤ a.expires_at_unix_seconds c.verification_time_unix_seconds ≡ false
  pub policy : ltℤ c.max_validity_seconds (pos 0) ≡ false
  pub lifetime :
      ltℤ c.max_validity_seconds (a.expires_at_unix_seconds -ℤ a.issued_at_unix_seconds) ≡ false
  pub signed : verifier a.issuer_id a.key_id (payload_bytes a) signature ≡ ok tt

-- The decision that is passed on.
abbrev pub decision_of : StanceDecisionAttestation → VerifiedStanceDecision
decision_of a = record {
  decision = record { topic = a.topic; polarity = a.polarity };
  decision_id = a.decision_id;
  issuer_id = a.issuer_id;
}

-- A signed decision is accepted exactly if it is bound to the turn in every respect, and what is
-- accepted then is the decision that was signed, with its identifier and its issuer.
pub verify_signed-accepts :
    (verifier : SignatureVerifier) (s : SignedStanceDecision) (c : StanceVerificationContext)
    (d : VerifiedStanceDecision)
    → (verify_signed_stance_decision verifier s c ≡ ok d)
      ↔ (Binds verifier s.attestation s.signature c × (d ≡ decision_of s.attestation))
unfolding verify_signed_stance_decision canonical_bytes
verify_signed-accepts verifier s c d = ground (
  arith,
  validate_attestation_iff s.attestation,
  text_eq_iff s.attestation.audience c.audience,
  text_eq_iff s.attestation.session_id c.session_id,
  text_eq_iff s.attestation.request_digest c.request_digest,
  ==_iff s.attestation.expected_pre_turn c.expected_pre_turn,
)

-- The static verifier accepts a signature exactly if a key is configured for the issuer and the
-- key id, it is a public key, and the signature is one of the payload under it.
verify_signature-accepts :
    (e : Ed25519) (keys : PublicKeys) (issuer_id key_id : Text) (payload signature : List ℕ)
    → (verify_signature e keys issuer_id key_id payload signature ≡ ok tt) ↔ (
        (bytes : List ℕ) × (key : e.VerifyingKey) × (key_bytes issuer_id key_id keys ≡ some bytes)
        × (e.from_bytes bytes ≡ some key)
        × (e.verify key payload signature ≡ true))
unfolding verify_signature
verify_signature-accepts e keys issuer_id key_id payload signature = (
  λ h. elim (Option-cases (key_bytes issuer_id key_id keys)) [
    | inl unknown ↦ absurd (cc (rw unknown at h))
    | inr (bytes, known) ↦ elim (Option-cases (e.from_bytes bytes)) [
      | inl bad ↦ absurd (cc (rw (known, bad) at h))
      | inr (key, parsed) ↦ (bytes, key, known, parsed, ground (arith, rw (known, parsed) at h))
    ]
  ],
  λ (bytes, key, known, parsed, good). rw (known, parsed, good) refl,
)
