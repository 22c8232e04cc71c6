-- ===== src/Attestation.antt =====
-- Signed stance decisions: qxfx0-types/src/stance_authority.rs. The hash and the Ed25519
-- primitives are parameters.
pub mod Canonical
pub mod Verify
use qx_fx0rust.Base.{
  ℕ, suc, ◌+◌, ◌-◌, ◌%◌, ◌^◌, Bool, true, false, not, ◌&&◌, ◌||◌, Option, none, some, List, [], ◌∷◌,
  ◌++◌, if◌then◌else◌, ltb, ◌==◌, length, Result, ok, err, ◌>>=◌, ◌>>◌, fail_if,
}
use qx_fx0rust.Base.Text.{Text, codes, text_eq, is_blank, has_control, byte_len}
use qx_fx0rust.Base.Bytes.{be_bytes, as_bytes}
use qx_fx0rust.Base.Integers.{ℤ, pos, negsuc, ltℤ, ◌-ℤ◌}
use qx_fx0rust.Stance.{StanceTopic, StancePolarity, affirmed, rejected, SystemStanceDecision}

-- `StanceDecisionAttestation`; the byte arrays are lists.
pub record StanceDecisionAttestation : Type 0 where
  pub version : ℕ
  pub issuer_id : Text
  pub key_id : Text
  pub audience : Text
  pub session_id : Text
  pub expected_pre_turn : ℕ
  pub topic : StanceTopic
  pub polarity : StancePolarity
  pub request_digest : List ℕ
  pub decision_id : List ℕ
  pub issued_at_unix_seconds : ℤ
  pub expires_at_unix_seconds : ℤ

-- `SignedStanceDecision`
pub record SignedStanceDecision : Type 0 where
  pub attestation : StanceDecisionAttestation
  pub signature : List ℕ

-- `StanceVerificationContext`
pub record StanceVerificationContext : Type 0 where
  pub audience : Text
  pub session_id : Text
  pub expected_pre_turn : ℕ
  pub request_digest : List ℕ
  pub verification_time_unix_seconds : ℤ
  pub max_validity_seconds : ℤ

-- `VerifiedStanceDecision`
pub record VerifiedStanceDecision : Type 0 where
  pub decision : SystemStanceDecision
  pub decision_id : List ℕ
  pub issuer_id : Text

-- The text fields that validation names.
pub data TextField : Type 0 where
  field_issuer_id field_key_id field_audience field_session_id : TextField

-- `StanceVerificationError`
pub data StanceVerificationError : Type 0 where
  unsupported_version : ℕ → StanceVerificationError
  invalid_text_field : TextField → StanceVerificationError
  invalid_validity_window audience_mismatch session_mismatch : StanceVerificationError
  turn_mismatch request_digest_mismatch not_yet_valid expired : StanceVerificationError
  validity_window_too_long invalid_maximum_validity : StanceVerificationError
  unknown_issuer_key : Text → Text → StanceVerificationError
  invalid_public_key invalid_signature : StanceVerificationError

abbrev pub Checked : Type 0 → Type 0
Checked A = Result StanceVerificationError A

-- `STANCE_ATTESTATION_VERSION`, `MAX_TEXT_FIELD_BYTES` and `MAX_SESSION_ID_BYTES`
abbrev pub stance_attestation_version : ℕ
stance_attestation_version = 1

abbrev pub max_text_field_bytes : ℕ
max_text_field_bytes = 128

abbrev pub max_session_id_bytes : ℕ
max_session_id_bytes = 256

-- `ATTESTATION_DOMAIN` and `REQUEST_DIGEST_DOMAIN`, each with its final zero byte
abbrev pub attestation_domain : List ℕ
attestation_domain = codes "qxfx0.stance-attestation.v1" ++ 0 ∷ []

abbrev pub request_digest_domain : List ℕ
request_digest_domain = codes "qxfx0.stance-request-digest.v1" ++ 0 ∷ []

-- `validate_text`
unfoldable pub is_invalid_text : Text → ℕ → Bool
is_invalid_text value max_bytes =
    is_blank value || (ltb max_bytes (byte_len value) || has_control value)

unfoldable pub validate_text : TextField → Text → ℕ → Checked (Unit {0})
validate_text field value max_bytes =
    fail_if (is_invalid_text value max_bytes) (invalid_text_field field)

-- `StanceDecisionAttestation::validate`
unfoldable pub validate_attestation : StanceDecisionAttestation → Checked (Unit {0})
unfolding validate_text
validate_attestation a = do
  fail_if (not (a.version == stance_attestation_version)) (unsupported_version a.version)
  validate_text field_issuer_id a.issuer_id max_text_field_bytes
  validate_text field_key_id a.key_id max_text_field_bytes
  validate_text field_audience a.audience max_text_field_bytes
  validate_text field_session_id a.session_id max_session_id_bytes
  fail_if
      (ltℤ a.issued_at_unix_seconds (pos 0)
        || ltℤ a.expires_at_unix_seconds a.issued_at_unix_seconds)
      invalid_validity_window
  ok tt

-- `push_vec`: the length as a `u32`, then the bytes.
unfoldable pub push_vec : List ℕ → List ℕ
push_vec value = be_bytes 4 (length value % 2 ^ 32) ++ value

-- `push_bytes`: the length as a `u64`, then the bytes.
unfoldable pub push_bytes : List ℕ → List ℕ
push_bytes value = be_bytes 8 (length value) ++ value

unfoldable pub polarity_byte : StancePolarity → ℕ
polarity_byte affirmed = 1
polarity_byte rejected = 2

-- `i64::to_be_bytes`, in two's complement
unfoldable pub i64_bytes : ℤ → List ℕ
i64_bytes (pos n) = be_bytes 8 n
i64_bytes (negsuc n) = be_bytes 8 (2 ^ 64 - suc n)

-- The bytes that `canonical_bytes` writes once the attestation is valid.
unfoldable pub payload_bytes : StanceDecisionAttestation → List ℕ
payload_bytes a =
    attestation_domain
    ++ (a.version
        ∷ (push_vec (as_bytes a.issuer_id)
            ++ (push_vec (as_bytes a.key_id)
                ++ (push_vec (as_bytes a.audience)
                    ++ (push_vec (as_bytes a.session_id)
                        ++ (be_bytes 8 a.expected_pre_turn
                            ++ (push_vec (as_bytes a.topic.as_str)
                                ++ (polarity_byte a.polarity
                                    ∷ (a.request_digest
                                        ++ (a.decision_id
                                            ++ (i64_bytes a.issued_at_unix_seconds
                                                ++ i64_bytes a.expires_at_unix_seconds)))))))))))

-- `StanceDecisionAttestation::canonical_bytes`
unfoldable pub canonical_bytes : StanceDecisionAttestation → Checked (List ℕ)
canonical_bytes a = do validate_attestation a; ok (payload_bytes a)

-- The bytes that `calculate_stance_request_digest` hashes, and the digest by a hash function.
unfoldable pub request_preimage : Text → Text → List ℕ
request_preimage session_id raw_text =
    request_digest_domain ++ (push_bytes (as_bytes session_id) ++ push_bytes (as_bytes raw_text))

unfoldable pub calculate_stance_request_digest : (List ℕ → List ℕ) → Text → Text → List ℕ
calculate_stance_request_digest sha256 session_id raw_text =
    sha256 (request_preimage session_id raw_text)

-- `StanceDecisionSignatureVerifier::verify_signature`
abbrev pub SignatureVerifier : Type 0
SignatureVerifier = Text → Text → List ℕ → List ℕ → Checked (Unit {0})

-- `verify_signed_stance_decision`
unfoldable pub verify_signed_stance_decision :
    SignatureVerifier
    → SignedStanceDecision
    → StanceVerificationContext
    → Checked VerifiedStanceDecision
verify_signed_stance_decision verifier signed context = do
  validate_attestation signed.attestation
  fail_if (not (text_eq signed.attestation.audience context.audience)) audience_mismatch
  fail_if (not (text_eq signed.attestation.session_id context.session_id)) session_mismatch
  fail_if (not (signed.attestation.expected_pre_turn == context.expected_pre_turn)) turn_mismatch
  fail_if (not (text_eq signed.attestation.request_digest context.request_digest))
      request_digest_mismatch
  fail_if (ltℤ context.verification_time_unix_seconds signed.attestation.issued_at_unix_seconds)
      not_yet_valid
  fail_if (ltℤ signed.attestation.expires_at_unix_seconds context.verification_time_unix_seconds)
      expired
  fail_if (ltℤ context.max_validity_seconds (pos 0)) invalid_maximum_validity
  fail_if
      (ltℤ context.max_validity_seconds
        (signed.attestation.expires_at_unix_seconds -ℤ signed.attestation.issued_at_unix_seconds))
      validity_window_too_long
  canonical ← canonical_bytes signed.attestation
  verifier signed.attestation.issuer_id signed.attestation.key_id canonical signed.signature
  ok (record {
    decision = record { topic = signed.attestation.topic; polarity = signed.attestation.polarity };
    decision_id = signed.attestation.decision_id;
    issuer_id = signed.attestation.issuer_id;
  })

-- What `ed25519_dalek` gives: parsing a public key, and the check of a signature.
pub record Ed25519 : Type 1 where
  pub VerifyingKey : Type 0
  pub from_bytes : List ℕ → Option VerifyingKey
  pub verify : VerifyingKey → List ℕ → List ℕ → Bool

abbrev with_key : (e : Ed25519) → List ℕ → List ℕ → Option (e.VerifyingKey) → Checked (Unit {0})
with_key e payload signature none = err invalid_public_key
with_key e payload signature (some key) =
    if e.verify key payload signature then ok tt else err invalid_signature

-- The configured keys, by issuer and key id.
abbrev pub PublicKeys : Type 0
PublicKeys = List ((Text × Text) × List ℕ)

unfoldable pub key_bytes : Text → Text → PublicKeys → Option (List ℕ)
key_bytes issuer_id key_id [] = none
key_bytes issuer_id key_id (((issuer, key), bytes) ∷ keys) =
    if text_eq issuer issuer_id && text_eq key key_id
    then some bytes
    else key_bytes issuer_id key_id keys

abbrev with_bytes : Ed25519 → Text → Text → List ℕ → List ℕ → Option (List ℕ) → Checked (Unit {0})
with_bytes e issuer_id key_id payload signature none = err (unknown_issuer_key issuer_id key_id)
with_bytes e issuer_id key_id payload signature (some bytes) =
    with_key e payload signature (e.from_bytes bytes)

-- `Ed25519StanceDecisionVerifier::verify_signature`
unfoldable pub verify_signature : Ed25519 → PublicKeys → SignatureVerifier
verify_signature e keys issuer_id key_id payload signature =
    with_bytes e issuer_id key_id payload signature (key_bytes issuer_id key_id keys)
