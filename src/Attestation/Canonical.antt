-- ===== src/Attestation/Canonical.antt =====
-- The canonical bytes of qxfx0-types/src/stance_authority.rs determine what is signed.
use qx_fx0rust.Base.{
  ℕ, ◌*◌, ◌%◌, ◌^◌, ◌≤◌, ◌<◌, ◌≡◌, refl, sym, ap, ◌∙◌, ◌↔◌, false, List, [], ◌∷◌, ◌++◌, ==_iff,
  length, ok, arith,
}
use mathlib.Core.List.{append_assoc}
use qx_fx0rust.Base.Text.{Text, byte_len}
use qx_fx0rust.Base.Bytes.{
  append-split, be_bytes, length-be_bytes, be_bytes-injective, as_bytes, length-as_bytes,
  as_bytes-injective,
}
use qx_fx0rust.Base.Integers.{ℤ, pos, negsuc, ltℤ}
use qx_fx0rust.Stance.{StancePolarity}
use qx_fx0rust.Attestation.{
  StanceDecisionAttestation, is_invalid_text, validate_text, validate_attestation, push_vec,
  push_bytes, polarity_byte, i64_bytes, payload_bytes, canonical_bytes, request_preimage,
  attestation_domain, request_digest_domain,
}

-- What validation asks of an attestation.
pub record Validates (a : StanceDecisionAttestation) : Type 0 where
  pub version : a.version ≡ 1
  pub issuer : is_invalid_text a.issuer_id 128 ≡ false
  pub key : is_invalid_text a.key_id 128 ≡ false
  pub audience : is_invalid_text a.audience 128 ≡ false
  pub session : is_invalid_text a.session_id 256 ≡ false
  pub issued : ltℤ a.issued_at_unix_seconds (pos 0) ≡ false
  pub window : ltℤ a.expires_at_unix_seconds a.issued_at_unix_seconds ≡ false

pub validate_attestation_iff :
    (a : StanceDecisionAttestation) → (validate_attestation a ≡ ok tt) ↔ Validates a
unfolding validate_attestation validate_text
validate_attestation_iff a = ground (arith, ==_iff a.version 1)

-- What the types of the code say of an attestation: a 64-bit turn, a topic of at most 128
-- characters, digests of 32 and of 16 bytes, and times that an `i64` holds.
abbrev FitsI64 : ℤ → Type 0
FitsI64 (pos n) = n < 2 ^ 63
FitsI64 (negsuc n) = n < 2 ^ 63

pub record IsTyped (a : StanceDecisionAttestation) : Type 0 where
  pub turn : a.expected_pre_turn < 2 ^ 64
  pub topic : length a.topic.as_str ≤ 128
  pub digest : length a.request_digest ≡ 32
  pub decision : length a.decision_id ≡ 16
  pub issued : FitsI64 a.issued_at_unix_seconds
  pub expires : FitsI64 a.expires_at_unix_seconds

byte_len-le : (t : Text) → byte_len t ≤ 4 * length t
unfolding byte_len
byte_len-le [] = omega arith
byte_len-le (c ∷ t) = ground (arith, byte_len-le t)

valid_byte_len : (t : Text) (n : ℕ) → is_invalid_text t n ≡ false → byte_len t ≤ n
unfolding is_invalid_text
valid_byte_len t n e = ground arith

-- A field behind its length is read back, and so is what follows it.
push_vec-split :
    (v w s t : List ℕ)
    → length v < 2 ^ 32
    → length w < 2 ^ 32
    → push_vec v ++ s ≡ push_vec w ++ t
    → (v ≡ w) × (s ≡ t)
unfolding push_vec
push_vec-split v w s t hv hw e =
    let m = length v % 2 ^ 32 in
    let n = length w % 2 ^ 32 in
    let parts =
      append-split (be_bytes 4 m) (be_bytes 4 n) (v ++ s) (w ++ t)
        (length-be_bytes 4 m ∙ sym (length-be_bytes 4 n))
        (sym (append_assoc (be_bytes 4 m) v s) ∙ e ∙ append_assoc (be_bytes 4 n) w t) in
    let same : m ≡ n = be_bytes-injective 4 m n (omega arith) (omega arith) parts.0 in
    append-split v w s t (omega arith) parts.1

text-split :
    (x y : Text) (s t : List ℕ)
    → byte_len x ≤ 512
    → byte_len y ≤ 512
    → push_vec (as_bytes x) ++ s ≡ push_vec (as_bytes y) ++ t
    → (x ≡ y) × (s ≡ t)
text-split x y s t hx hy e =
    let parts =
      push_vec-split (as_bytes x) (as_bytes y) s t (omega (arith, length-as_bytes x))
        (omega (arith, length-as_bytes y)) e in
    (as_bytes-injective x y parts.0, parts.1)

be_bytes-split :
    (m n : ℕ) (s t : List ℕ)
    → m < 2 ^ 64
    → n < 2 ^ 64
    → be_bytes 8 m ++ s ≡ be_bytes 8 n ++ t
    → (m ≡ n) × (s ≡ t)
be_bytes-split m n s t hm hn e =
    let parts =
      append-split (be_bytes 8 m) (be_bytes 8 n) s t
        (length-be_bytes 8 m ∙ sym (length-be_bytes 8 n)) e in
    (be_bytes-injective 8 m n (omega arith) (omega arith) parts.0, parts.1)

-- A time that validation accepts is not negative.
i64_bytes-split :
    (x y : ℤ) (s t : List ℕ)
    → FitsI64 x
    → FitsI64 y
    → ltℤ x (pos 0) ≡ false
    → ltℤ y (pos 0) ≡ false
    → i64_bytes x ++ s ≡ i64_bytes y ++ t
    → (x ≡ y) × (s ≡ t)
unfolding i64_bytes
i64_bytes-split (pos m) (pos n) s t hx hy px py e =
    let parts = be_bytes-split m n s t (omega arith) (omega arith) e in (ap pos parts.0, parts.1)
i64_bytes-split (pos m) (negsuc n) s t hx hy px py e = absurd (cc)
i64_bytes-split (negsuc m) y s t hx hy px py e = absurd (cc)

polarity_byte-split :
    (p q : StancePolarity) (s t : List ℕ)
    → polarity_byte p ∷ s ≡ polarity_byte q ∷ t
    → (p ≡ q) × (s ≡ t)
unfolding polarity_byte
polarity_byte-split p q s t e = ground arith

not_before_issued : (i x : ℤ) → ltℤ i (pos 0) ≡ false → ltℤ x i ≡ false → ltℤ x (pos 0) ≡ false
not_before_issued (pos i) (pos x) hi hx = ground arith
not_before_issued (pos i) (negsuc x) hi hx = absurd (cc)
not_before_issued (negsuc i) x hi hx = absurd (cc)

same_attestation :
    (a b : StanceDecisionAttestation)
    → a.version ≡ b.version
    → a.issuer_id ≡ b.issuer_id
    → a.key_id ≡ b.key_id
    → a.audience ≡ b.audience
    → a.session_id ≡ b.session_id
    → a.expected_pre_turn ≡ b.expected_pre_turn
    → a.topic.as_str ≡ b.topic.as_str
    → a.polarity ≡ b.polarity
    → a.request_digest ≡ b.request_digest
    → a.decision_id ≡ b.decision_id
    → a.issued_at_unix_seconds ≡ b.issued_at_unix_seconds
    → a.expires_at_unix_seconds ≡ b.expires_at_unix_seconds
    → a ≡ b
same_attestation a b e1 e2 e3 e4 e5 e6 e7 e8 e9 e10 e11 e12 =
    rw (e1, e2, e3, e4, e5, e6, e7, e8, e9, e10, e11, e12) refl

payload_bytes-injective :
    (a b : StanceDecisionAttestation)
    → IsTyped a
    → IsTyped b
    → Validates a
    → Validates b
    → payload_bytes a ≡ payload_bytes b
    → a ≡ b
unfolding payload_bytes
payload_bytes-injective a b ta tb va vb e =
    let small : (t : Text) → length t ≤ 128 → byte_len t ≤ 512 =
      λ t h. omega (arith, byte_len-le t) in
    let text : (t : Text) (n : ℕ) → n ≤ 512 → is_invalid_text t n ≡ false → byte_len t ≤ 512 =
      λ t n h v. omega (arith, valid_byte_len t n v) in
    let body = append-split attestation_domain attestation_domain _ _ refl e in
    let version : a.version ≡ b.version = va.version ∙ sym vb.version in
    let after_version = append-split (a.version ∷ []) (b.version ∷ []) _ _ refl body.1 in
    let issuer =
      text-split a.issuer_id b.issuer_id _ _ (text a.issuer_id 128 (omega arith) va.issuer)
        (text b.issuer_id 128 (omega arith) vb.issuer) after_version.1 in
    let key =
      text-split a.key_id b.key_id _ _ (text a.key_id 128 (omega arith) va.key)
        (text b.key_id 128 (omega arith) vb.key) issuer.1 in
    let audience =
      text-split a.audience b.audience _ _ (text a.audience 128 (omega arith) va.audience)
        (text b.audience 128 (omega arith) vb.audience) key.1 in
    let session =
      text-split a.session_id b.session_id _ _ (text a.session_id 256 (omega arith) va.session)
        (text b.session_id 256 (omega arith) vb.session) audience.1 in
    let turn =
      be_bytes-split a.expected_pre_turn b.expected_pre_turn _ _ ta.turn tb.turn session.1 in
    let topic =
      text-split a.topic.as_str b.topic.as_str _ _ (small a.topic.as_str ta.topic)
        (small b.topic.as_str tb.topic) turn.1 in
    let polarity = polarity_byte-split a.polarity b.polarity _ _ topic.1 in
    let digest =
      append-split a.request_digest b.request_digest _ _ (ta.digest ∙ sym tb.digest) polarity.1 in
    let decision =
      append-split a.decision_id b.decision_id _ _ (ta.decision ∙ sym tb.decision) digest.1 in
    let issued =
      i64_bytes-split a.issued_at_unix_seconds b.issued_at_unix_seconds _ _ ta.issued tb.issued
        va.issued vb.issued decision.1 in
    let expires =
      i64_bytes-split a.expires_at_unix_seconds b.expires_at_unix_seconds [] [] ta.expires
        tb.expires (not_before_issued a.issued_at_unix_seconds _ va.issued va.window)
        (not_before_issued b.issued_at_unix_seconds _ vb.issued vb.window)
        (ap (λ (l : List ℕ). l ++ []) issued.1) in
    same_attestation a b version issuer.0 key.0 audience.0 session.0 turn.0 topic.0 polarity.0
      digest.0 decision.0 issued.0 expires.0

canonical_bytes-ok :
    (a : StanceDecisionAttestation) (bytes : List ℕ)
    → canonical_bytes a ≡ ok bytes
    → (validate_attestation a ≡ ok tt) × (bytes ≡ payload_bytes a)
unfolding canonical_bytes
canonical_bytes-ok a bytes e = ground arith

-- Two attestations that have canonical bytes have the same ones exactly if they are equal, field
-- by field: what a signature covers leaves nothing of the decision open.
pub canonical_bytes-injective :
    (a b : StanceDecisionAttestation) (x y : List ℕ)
    → IsTyped a
    → IsTyped b
    → canonical_bytes a ≡ ok x
    → canonical_bytes b ≡ ok y
    → (x ≡ y) ↔ (a ≡ b)
canonical_bytes-injective a b x y ta tb ha hb =
    let pa = canonical_bytes-ok a x ha in
    let pb = canonical_bytes-ok b y hb in
    (
      λ e.
          payload_bytes-injective a b ta tb ((validate_attestation_iff a).0 pa.0)
            ((validate_attestation_iff b).0 pb.0) (sym pa.1 ∙ e ∙ pb.1),
      λ e. pa.1 ∙ ap payload_bytes e ∙ sym pb.1,
    )

push_bytes-split :
    (v w s t : List ℕ)
    → length v < 2 ^ 64
    → length w < 2 ^ 64
    → push_bytes v ++ s ≡ push_bytes w ++ t
    → (v ≡ w) × (s ≡ t)
unfolding push_bytes
push_bytes-split v w s t hv hw e =
    let parts = be_bytes-split (length v) (length w) (v ++ s) (w ++ t) hv hw (
      sym (append_assoc (be_bytes 8 (length v)) v s)
      ∙ e
      ∙ append_assoc (be_bytes 8 (length w)) w t) in
    append-split v w s t parts.0 parts.1

-- The bytes that a request digest hashes determine the session and the text of the request: no
-- text can pass a part of itself off as the session, whatever characters either has.
request_preimage-injective :
    (s t raw other : Text)
    → byte_len s < 2 ^ 64
    → byte_len t < 2 ^ 64
    → byte_len raw < 2 ^ 64
    → byte_len other < 2 ^ 64
    → (request_preimage s raw ≡ request_preimage t other) ↔ ((s ≡ t) × (raw ≡ other))
unfolding request_preimage
request_preimage-injective s t raw other hs ht hraw hother = (
  λ e.
      let body = append-split request_digest_domain request_digest_domain _ _ refl e in
      let session =
        push_bytes-split (as_bytes s) (as_bytes t) _ _ (omega (arith, length-as_bytes s))
          (omega (arith, length-as_bytes t)) body.1 in
      let text =
        push_bytes-split (as_bytes raw) (as_bytes other) [] [] (omega (arith, length-as_bytes raw))
          (omega (arith, length-as_bytes other)) (ap (λ (l : List ℕ). l ++ []) session.1) in
      (as_bytes-injective s t session.0, as_bytes-injective raw other text.0),
  λ e. rw (e.0, e.1) refl,
)
