-- ===== src/Base/Results.antt =====
-- `Result<T, E>`, with the `?` operator as a bind.
use mathlib.Core.Path.{◌≡◌, refl, sym, ap, ◌∙◌}
use mathlib.Core.Logic.{◌↔◌}
use mathlib.Core.Bool.{Bool, true, false, not}
use Prim.Native.Nat.{ℕ, ◌≤◌}
use qx_fx0rust.Base.Tests.{ltb, ◌==◌, ltb_iff, not_eq_iff}

pub data Result {ℓ κ} (E : Type ℓ) (A : Type κ) : Type (ℓ ⊔ κ) where
  ok : A → Result E A
  err : E → Result E A

infixl 5 ◌>>=◌ ◌>>◌
abbrev pub ◌>>=◌ {ℓ κ μ} :
    {E : Type ℓ} {A : Type κ} {B : Type μ} → Result E A → (A → Result E B) → Result E B
ok a >>= f = f a
err e >>= f = err e

abbrev pub ◌>>◌ {ℓ κ} : {E : Type ℓ} {B : Type κ} → Result E (Unit {0}) → Result E B → Result E B
m >> k = m >>= λ _. k

-- `if bad { return Err(e); }`
abbrev pub fail_if {ℓ} : {E : Type ℓ} → Bool → E → Result E (Unit {0})
fail_if true e = err e
fail_if false e = ok tt

module _ {E A : Type 0} where
  -- A guard lets a result pass exactly if its test fails, so that a chain of guards is read as the
  -- conjunction of what they ask.
  pub guard_iff :
      (P Q : Type 0) (c : Bool) (e : E) (r : Result E A) (a : A)
      → ((c ≡ false) ↔ P)
      → ((r ≡ ok a) ↔ Q)
      → ((fail_if c e >> r) ≡ ok a) ↔ (P × Q)
  guard_iff P Q true e r a hp hq = (λ h. absurd (cc), λ h. absurd (cc (hp.1 h.0)))
  guard_iff P Q false e r a hp hq = (λ h. (hp.0 refl, hq.0 h), λ h. hq.1 h.1)

  -- The guard of a bound, `if n > limit { return Err(e); }`.
  pub limit_iff :
      (n limit : ℕ) (Q : Type 0) (e : E) (r : Result E A) (a : A)
      → ((r ≡ ok a) ↔ Q)
      → ((fail_if (ltb limit n) e >> r) ≡ ok a) ↔ ((n ≤ limit) × Q)
  limit_iff n limit Q e r a hq = guard_iff (n ≤ limit) Q (ltb limit n) e r a (ltb_iff limit n) hq

  -- The guard of a version, `if n != known { return Err(e); }`.
  pub version_iff :
      (n known : ℕ) (Q : Type 0) (e : E) (r : Result E A) (a : A)
      → ((r ≡ ok a) ↔ Q)
      → ((fail_if (not (n == known)) e >> r) ≡ ok a) ↔ ((n ≡ known) × Q)
  version_iff n known Q e r a hq =
      guard_iff (n ≡ known) Q (not (n == known)) e r a (not_eq_iff n known) hq

  -- A step that can only give one value, if it gives any.
  pub step_iff :
      {B : Type 0} (P Q : Type 0) (r : Result E B) (k : B → Result E A) (v : B) (a : A)
      → ((x : B) → (r ≡ ok x) ↔ (P × (x ≡ v)))
      → ((k v ≡ ok a) ↔ Q)
      → ((r >>= k) ≡ ok a) ↔ (P × Q)
  step_iff P Q (ok x) k v a hp hq =
      let found = (hp x).0 refl in
      (λ h. (found.0, hq.0 (sym (ap k found.1) ∙ h)), λ h. ap k found.1 ∙ hq.1 h.1)
  step_iff P Q (err e) k v a hp hq = (λ h. absurd (cc), λ h. absurd (cc ((hp v).1 (h.0, refl))))

  -- A check that gives no value, and what comes after it.
  pub both_iff :
      (P Q : Type 0) (r : Result E (Unit {0})) (s : Result E A) (a : A)
      → ((r ≡ ok tt) ↔ P)
      → ((s ≡ ok a) ↔ Q)
      → ((r >> s) ≡ ok a) ↔ (P × Q)
  both_iff P Q (ok u) s a hp hq = (λ h. (hp.0 refl, hq.0 h), λ h. hq.1 h.1)
  both_iff P Q (err e) s a hp hq = (λ h. absurd (cc), λ h. absurd (cc (hp.1 h.0)))

-- A result that is good comes of good steps.
pub bind_ok :
    {E A B : Type 0} (r : Result E A) (k : A → Result E B) (b : B)
    → (r >>= k) ≡ ok b
    → (a : A) × (r ≡ ok a) × (k a ≡ ok b)
bind_ok (ok a) k b h = (a, refl, h)
bind_ok (err e) k b h = absurd (cc)
