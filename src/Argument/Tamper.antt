-- ===== src/Argument/Tamper.antt =====
-- The digest of qxfx0-types/src/user_argument.rs covers all of a parse receipt, and `new` and
-- `validate` agree.
use qx_fx0rust.Base.{ℕ, ◌≡◌, refl, sym, ap, ◌↔◌, List, [], ◌∷◌, ok}
use qx_fx0rust.Base.Bytes.{append-split}
use qx_fx0rust.Base.Sealing.{Sealing, is_sealed-sealed}
use qx_fx0rust.Base.Encoding.{put_list-Splits}
use qx_fx0rust.Argument.{UserArgumentValidationError, digest_mismatch, node_data}
use qx_fx0rust.Argument.Receipt.{
  UserArgumentParseReceipt, user_argument_parse_version, validate_argument,
}
use qx_fx0rust.Argument.Structure.{validate_argument-IsArgument}
use qx_fx0rust.Argument.Bytes.{
  IsTypedNode, IsTypedRelation, TypedOmission, IsTypedArgument, disposition-split,
  put_argument_node-Splits, put_relation-Splits, put_omission-Splits,
}
use qx_fx0rust.Argument.Digest.{
  argument_domain, put_argument_node, put_relation, put_omission, argument_preimage,
  argument_digest, new_argument, validate_argument_receipt,
}
use qx_fx0rust.Debate.Digest.{zero_bytes}

-- Two parse receipts are hashed from the same bytes exactly if they agree in all but their digest.
pub argument_preimage-injective :
    (r q : UserArgumentParseReceipt)
    → IsTypedArgument r
    → IsTypedArgument q
    → (argument_preimage r ≡ argument_preimage q) ↔ (record r { digest = q.digest } ≡ q)
unfolding argument_preimage
argument_preimage-injective r q tr tq = (
  λ e.
      let body = append-split argument_domain argument_domain _ _ refl e in
      let version : r.version ≡ q.version = cc in
      let after = (append-split (r.version ∷ []) (q.version ∷ []) _ _ refl body.1).1 in
      let disposition = disposition-split r.disposition q.disposition _ _ after in
      let nodes =
        put_list-Splits (λ n. IsTypedNode (node_data n)) put_argument_node put_argument_node-Splits
          r.nodes q.nodes _ _ tr.nodes tq.nodes disposition.1 in
      let relations =
        put_list-Splits IsTypedRelation put_relation put_relation-Splits r.relations q.relations _ _
          tr.relations tq.relations nodes.1 in
      let omissions =
        put_list-Splits TypedOmission put_omission put_omission-Splits r.omissions q.omissions [] []
          tr.omissions tq.omissions relations.1 in
      rw (version, disposition.0, nodes.0, relations.0, omissions.0) refl,
  λ e. ap argument_preimage e,
)

-- The structure checks and the hash do not read the digest.
same_structure :
    (d : List ℕ) (r : UserArgumentParseReceipt)
    → validate_argument (record r { digest = d }) ≡ validate_argument r
unfolding validate_argument
same_structure d r = refl

same_hash :
    (sha256 : List ℕ → List ℕ) (d : List ℕ) (r : UserArgumentParseReceipt)
    → argument_digest sha256 (record r { digest = d }) ≡ argument_digest sha256 r
unfolding argument_digest argument_preimage
same_hash sha256 d r = refl

abbrev argument_sealing :
    (List ℕ → List ℕ) → Sealing UserArgumentValidationError UserArgumentParseReceipt
argument_sealing sha256 = record {
  check = validate_argument;
  hash = argument_digest sha256;
  digest = λ r. r.digest;
  seal = λ d r. record r { digest = d };
  check-seal = same_structure;
  hash-seal = same_hash sha256;
  seal-seal = λ d c r. refl;
  digest-seal = λ d r. refl;
  seal-digest = λ r. refl;
}

-- The receipt before its digest is filled in.
abbrev bare : UserArgumentParseReceipt → UserArgumentParseReceipt
bare r = record r { version = user_argument_parse_version; digest = zero_bytes 32 }

bare_of :
    (r : UserArgumentParseReceipt)
    → r.version ≡ user_argument_parse_version
    → bare r ≡ record r { digest = zero_bytes 32 }
bare_of r v = rw v refl

-- A parse receipt validates exactly if it is the one that `new` makes of its disposition, nodes,
-- relations and omissions.
pub validate_argument_receipt-new :
    (sha256 : List ℕ → List ℕ) (r : UserArgumentParseReceipt)
    → (validate_argument_receipt sha256 r ≡ ok tt)
      ↔ (new_argument sha256 r.disposition r.nodes r.relations r.omissions ≡ ok r)
unfolding validate_argument_receipt new_argument
validate_argument_receipt-new sha256 r =
    is_sealed-sealed (argument_sealing sha256) digest_mismatch (zero_bytes 32) (bare r) r
      (λ h. bare_of r (((validate_argument-IsArgument r).0 h).version))
      (λ e. bare_of r (sym (ap (λ (q : UserArgumentParseReceipt). q.version) e)))
