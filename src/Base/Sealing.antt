-- ===== src/Base/Sealing.antt =====
-- Records sealed with a digest of their other fields: what `new` and `validate` of a sealed record
-- have in common, whatever is hashed and however the structure is checked.
use Prim.Native.Nat.{ℕ}
use mathlib.Core.Path.{◌≡◌, sym, ap, ◌∙◌}
use mathlib.Core.Logic.{◌↔◌}
use mathlib.Core.Bool.{not}
use mathlib.Core.List.{List}
use native.Mathlib.Omega.{arith}
use qx_fx0rust.Base.Results.{Result, ok, ◌>>◌, fail_if, guard_iff, both_iff}
use qx_fx0rust.Base.Text.{text_eq, text_eq_iff}

-- The checks and the hash of a record, neither of which reads the digest.
pub record Sealing (E : Type 0) (R : Type 0) : Type 0 where
  pub check : R → Result E (Unit {0})
  pub hash : R → List ℕ
  pub digest : R → List ℕ
  pub seal : List ℕ → R → R
  pub check-seal : (d : List ℕ) (r : R) → check (seal d r) ≡ check r
  pub hash-seal : (d : List ℕ) (r : R) → hash (seal d r) ≡ hash r
  pub seal-seal : (d c : List ℕ) (r : R) → seal d (seal c r) ≡ seal d r
  pub digest-seal : (d : List ℕ) (r : R) → digest (seal d r) ≡ d
  pub seal-digest : (r : R) → seal (digest r) r ≡ r

module _ {E R : Type 0} (s : Sealing E R) where
  -- A record passes if its structure does and its digest is the hash of it; a record is made by
  -- checking its structure and filling in the digest.
  abbrev pub is_sealed : E → R → Result E (Unit {0})
  is_sealed mismatch r =
      s.check r >> (fail_if (not (text_eq (s.digest r) (s.hash r))) mismatch >> ok tt)

  abbrev pub sealed : R → Result E R
  sealed bare = s.check bare >> ok (s.seal (s.hash bare) bare)

  is_sealed-parts :
      (mismatch : E) (r : R)
      → (is_sealed mismatch r ≡ ok tt) ↔ ((s.check r ≡ ok tt) × (s.digest r ≡ s.hash r))
  is_sealed-parts mismatch r =
      let tail =
        guard_iff (s.digest r ≡ s.hash r) (Unit {0}) (not (text_eq (s.digest r) (s.hash r)))
          mismatch (ok tt) tt (ground (arith, text_eq_iff (s.digest r) (s.hash r)))
          (ground arith) in
      let whole = both_iff (s.check r ≡ ok tt) _ (s.check r) _ tt (λ h. h, λ h. h) tail in
      (λ h. let w = whole.0 h in (w.0, w.1.0), λ h. whole.1 (h.0, (h.1, tt)))

  sealed-parts :
      (bare r : R)
      → (sealed bare ≡ ok r) ↔ ((s.check bare ≡ ok tt) × (s.seal (s.hash bare) bare ≡ r))
  sealed-parts bare r =
      both_iff (s.check bare ≡ ok tt) (s.seal (s.hash bare) bare ≡ r) (s.check bare) _ r
        (λ h. h, λ h. h) (ground arith)

  -- A record passes exactly if it is the one made of its other fields.
  pub is_sealed-sealed :
      (mismatch : E) (blank : List ℕ) (bare r : R)
      → (s.check r ≡ ok tt → bare ≡ s.seal blank r)
      → (s.seal (s.hash bare) bare ≡ r → bare ≡ s.seal blank r)
      → (is_sealed mismatch r ≡ ok tt) ↔ (sealed bare ≡ ok r)
  is_sealed-sealed mismatch blank bare r passes made =
      let parts = is_sealed-parts mismatch r in
      let whole = sealed-parts bare r in
      let checks : bare ≡ s.seal blank r → s.check bare ≡ s.check r =
        λ e. ap s.check e ∙ s.check-seal blank r in
      let hashes : bare ≡ s.seal blank r → s.hash bare ≡ s.hash r =
        λ e. ap s.hash e ∙ s.hash-seal blank r in
      (
        λ h.
            let p = parts.0 h in
            let e = passes p.0 in
            whole.1 (
              checks e ∙ p.0,
              ap (λ d. s.seal d bare) (hashes e ∙ sym p.1)
                  ∙ ap (s.seal (s.digest r)) e
                  ∙ s.seal-seal (s.digest r) blank r
                  ∙ s.seal-digest r,
            ),
        λ h.
            let m = whole.0 h in
            let e = made m.1 in
            parts.1 (
              sym (checks e) ∙ m.0,
              ap s.digest (sym m.1) ∙ s.digest-seal (s.hash bare) bare ∙ hashes e,
            ),
      )
