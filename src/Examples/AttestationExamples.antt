-- ===== src/Examples/AttestationExamples.antt =====
-- Signed stance decisions at a concrete attestation.
use qx_fx0rust.Base.{ℕ, zero, suc, ◌≡◌, refl, ◌↔◌, true, some, List, [], ◌∷◌, arith, ok}
use qx_fx0rust.Base.Text.{codes, trim, byte_len}
use qx_fx0rust.Base.Integers.{pos}
use qx_fx0rust.Stance.{affirmed}
use qx_fx0rust.Attestation.{
  StanceDecisionAttestation, SignedStanceDecision, StanceVerificationContext, SignatureVerifier,
  Ed25519, PublicKeys, payload_bytes, canonical_bytes, verify_signed_stance_decision,
  is_invalid_text,
}
use qx_fx0rust.Attestation.Canonical.{
  Validates, IsTyped, validate_attestation_iff, canonical_bytes-injective,
}
use qx_fx0rust.Attestation.Verify.{Binds, decision_of, verify_signed-accepts}

abbrev zeros : ℕ → List ℕ
zeros zero = []
zeros (suc n) = 0 ∷ zeros n

abbrev attestation : StanceDecisionAttestation
attestation = record {
  version = 1;
  issuer_id = codes "issuer";
  key_id = codes "k1";
  audience = codes "qxfx0";
  session_id = codes "session";
  expected_pre_turn = 3;
  topic = record { as_str = codes "freedom" };
  polarity = affirmed;
  request_digest = zeros 32;
  decision_id = zeros 16;
  issued_at_unix_seconds = pos 100;
  expires_at_unix_seconds = pos 160;
}

attestation-Validates : Validates attestation
unfolding is_invalid_text trim byte_len
attestation-Validates = record {
  version = refl;
  issuer = refl;
  key = refl;
  audience = refl;
  session = refl;
  issued = refl;
  window = refl;
}

attestation-IsTyped : IsTyped attestation
attestation-IsTyped = record {
  turn = omega arith;
  topic = omega arith;
  digest = refl;
  decision = refl;
  issued = omega arith;
  expires = omega arith;
}

canonical : canonical_bytes attestation ≡ ok (payload_bytes attestation)
unfolding canonical_bytes
canonical = rw ((validate_attestation_iff attestation).1 attestation-Validates) refl

canonical_bytes-injective_example :
    (payload_bytes attestation ≡ payload_bytes attestation) ↔ (attestation ≡ attestation)
canonical_bytes-injective_example =
    canonical_bytes-injective attestation attestation (payload_bytes attestation)
      (payload_bytes attestation) attestation-IsTyped attestation-IsTyped canonical canonical

-- A primitive under which every key parses and signs everything.
abbrev lenient : Ed25519
lenient = record {
  VerifyingKey = List ℕ;
  from_bytes = λ bytes. some bytes;
  verify = λ key payload signature. true;
}

abbrev keys : PublicKeys
keys = ((codes "issuer", codes "k1"), zeros 32) ∷ []

abbrev signed : SignedStanceDecision
signed = record { attestation = attestation; signature = zeros 64 }

abbrev context : StanceVerificationContext
context = record {
  audience = codes "qxfx0";
  session_id = codes "session";
  expected_pre_turn = 3;
  request_digest = zeros 32;
  verification_time_unix_seconds = pos 130;
  max_validity_seconds = pos 60;
}

abbrev accepts_all : SignatureVerifier
accepts_all issuer_id key_id payload signature = ok tt

binds : Binds accepts_all attestation (zeros 64) context
binds = record {
  valid = attestation-Validates;
  audience = refl;
  session = refl;
  turn = refl;
  request = refl;
  started = refl;
  not_over = refl;
  policy = refl;
  lifetime = refl;
  signed = refl;
}

verify_signed-accepts_example :
    verify_signed_stance_decision accepts_all signed context ≡ ok (decision_of attestation)
verify_signed-accepts_example =
    (verify_signed-accepts accepts_all signed context (decision_of attestation)).1 (binds, refl)
