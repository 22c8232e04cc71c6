-- ===== src/Base/Encoding.antt =====
-- Bytes written one field after the other, as the code feeds them to a hash: a writer puts the
-- bytes of a value in front of those that follow, and what it writes can be read back.
use Prim.Native.Nat.{ℕ, ◌^◌, ◌<◌}
use mathlib.Core.Path.{◌≡◌, refl, sym, ap, ◌∙◌}
use mathlib.Core.Option.{Option, none, some}
use mathlib.Core.List.{List, [], ◌∷◌, ◌++◌}
use native.Mathlib.Omega.{arith}
use qx_fx0rust.Base.Lists.{length, All}
use qx_fx0rust.Base.Text.{Text, byte_len}
use qx_fx0rust.Base.Bytes.{
  append-split, be_bytes, length-be_bytes, be_bytes-injective, bytes_limit, as_bytes,
  length-as_bytes, as_bytes-injective,
}

abbrev pub Writer {ℓ} : Type ℓ → Type ℓ
Writer A = A → List ℕ → List ℕ

-- Where two values in a range are written alike in front of something, they are one value.
abbrev pub Splits {ℓ κ} : {A : Type ℓ} → (A → Type κ) → Writer A → Type (ℓ ⊔ κ)
Splits {A = A} P w = (x y : A) (s t : List ℕ) → P x → P y → w x s ≡ w y t → (x ≡ y) × (s ≡ t)

-- `update(n.to_be_bytes())` on two and on eight bytes
abbrev pub put_u16 : Writer ℕ
put_u16 n rest = be_bytes 2 n ++ rest

abbrev pub put_u64 : Writer ℕ
put_u64 n rest = be_bytes 8 n ++ rest

-- The length as eight bytes, then the bytes.
abbrev pub put_bytes : Writer (List ℕ)
put_bytes v rest = put_u64 (length v) (v ++ rest)

abbrev pub put_text : Writer Text
put_text t = put_bytes (as_bytes t)

abbrev pub FitsU64 : Text → Type 0
FitsU64 t = byte_len t < 2 ^ 64

put_be-Splits : (k : ℕ) → Splits (λ n. n < bytes_limit k) (λ n rest. be_bytes k n ++ rest)
put_be-Splits k m n s t hm hn e =
    let parts =
      append-split (be_bytes k m) (be_bytes k n) s t
        (length-be_bytes k m ∙ sym (length-be_bytes k n)) e in
    (be_bytes-injective k m n hm hn parts.0, parts.1)

pub put_u16-Splits : Splits (λ n. n < 2 ^ 16) put_u16
put_u16-Splits m n s t hm hn e = put_be-Splits 2 m n s t (omega arith) (omega arith) e

pub put_u64-Splits : Splits (λ n. n < 2 ^ 64) put_u64
put_u64-Splits m n s t hm hn e = put_be-Splits 8 m n s t (omega arith) (omega arith) e

pub put_bytes-Splits : Splits (λ v. length v < 2 ^ 64) put_bytes
put_bytes-Splits v w s t hv hw e =
    let parts = put_u64-Splits (length v) (length w) (v ++ s) (w ++ t) hv hw e in
    append-split v w s t parts.0 parts.1

pub put_text-Splits : Splits FitsU64 put_text
put_text-Splits x y s t hx hy e =
    let parts =
      put_bytes-Splits (as_bytes x) (as_bytes y) s t (omega (arith, length-as_bytes x))
        (omega (arith, length-as_bytes y)) e in
    (as_bytes-injective x y parts.0, parts.1)

module _ {ℓ} {A : Type ℓ} where
  -- One value after the other.
  abbrev pub put_each : Writer A → Writer (List A)
  put_each w [] rest = rest
  put_each w (x ∷ xs) rest = w x (put_each w xs rest)

  -- The number of values as eight bytes, then the values.
  abbrev pub put_list : Writer A → Writer (List A)
  put_list w xs rest = put_u64 (length xs) (put_each w xs rest)

  -- A byte for whether there is a value, then the value.
  abbrev pub put_option : Writer A → Writer (Option A)
  put_option w none rest = 0 ∷ rest
  put_option w (some x) rest = 1 ∷ w x rest

  abbrev pub AllSome {κ} : (A → Type κ) → Option A → Type κ
  AllSome P none = Unit
  AllSome P (some x) = P x

  pub put_each-Splits {κ} :
      (P : A → Type κ) (w : Writer A)
      → Splits P w
      → (xs ys : List A) (s t : List ℕ) → length xs ≡ length ys
      → All P xs
      → All P ys
      → put_each w xs s ≡ put_each w ys t
      → (xs ≡ ys) × (s ≡ t)
  put_each-Splits P w split [] [] s t h px py e = (refl, e)
  put_each-Splits P w split [] (y ∷ ys) s t h px py e = absurd (omega arith)
  put_each-Splits P w split (x ∷ xs) [] s t h px py e = absurd (omega arith)
  put_each-Splits P w split (x ∷ xs) (y ∷ ys) s t h px py e =
      let head = split x y (put_each w xs s) (put_each w ys t) px.0 py.0 e in
      let tail = put_each-Splits P w split xs ys s t (omega arith) px.1 py.1 head.1 in
      (ap (λ z. z ∷ xs) head.0 ∙ ap (◌∷◌ y) tail.0, tail.1)

  pub put_list-Splits {κ} :
      (P : A → Type κ) (w : Writer A)
      → Splits P w
      → Splits (λ xs. (length xs < 2 ^ 64) × All P xs) (put_list w)
  put_list-Splits P w split xs ys s t hx hy e =
      let parts =
        put_u64-Splits (length xs) (length ys) (put_each w xs s) (put_each w ys t) hx.0 hy.0 e in
      put_each-Splits P w split xs ys s t parts.0 hx.1 hy.1 parts.1

  pub put_option-Splits {κ} :
      (P : A → Type κ) (w : Writer A) → Splits P w → Splits (AllSome P) (put_option w)
  put_option-Splits P w split none none s t hx hy e = (refl, cc)
  put_option-Splits P w split none (some y) s t hx hy e = absurd (cc)
  put_option-Splits P w split (some x) none s t hx hy e = absurd (cc)
  put_option-Splits P w split (some x) (some y) s t hx hy e =
      let parts = split x y s t hx hy (cc) in (ap some parts.0, parts.1)
