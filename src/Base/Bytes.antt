-- ===== src/Base/Bytes.antt =====
-- Bytes: `to_be_bytes`, and the UTF-8 encoding that `as_bytes` shows. Both can be read back.
use Prim.Native.Nat.{ℕ, zero, suc, ◌+◌, ◌*◌, ◌/◌, ◌%◌, ◌<◌}
use mathlib.Core.Path.{◌≡◌, refl, sym, ap, ◌∙◌}
use mathlib.Core.List.{List, [], ◌∷◌, ◌++◌}
use native.Mathlib.Omega.{arith}
use qx_fx0rust.Base.Tests.{ltb, if◌then◌else◌}
use qx_fx0rust.Base.Lists.{length, length-append}
use qx_fx0rust.Base.Text.{Text, utf8_len, byte_len}

-- Two lists that agree and are cut at one length agree in both parts.
pub append-split {ℓ} :
    {A : Type ℓ} (xs ys s t : List A)
    → length xs ≡ length ys
    → xs ++ s ≡ ys ++ t
    → (xs ≡ ys) × (s ≡ t)
append-split [] [] s t h e = (refl, e)
append-split [] (y ∷ ys) s t h e = absurd (omega arith)
append-split (x ∷ xs) [] s t h e = absurd (omega arith)
append-split (x ∷ xs) (y ∷ ys) s t h e =
    let head : x ≡ y = cc in
    let tail : xs ++ s ≡ ys ++ t = cc in
    let rest = append-split xs ys s t (omega arith) tail in
    (ap (λ z. z ∷ xs) head ∙ ap (◌∷◌ y) rest.0, rest.1)

-- `to_be_bytes` on `k` bytes
unfoldable pub be_bytes : ℕ → ℕ → List ℕ
be_bytes zero n = []
be_bytes (suc k) n = be_bytes k (n / 256) ++ n % 256 ∷ []

-- How many numbers `k` bytes can hold.
abbrev pub bytes_limit : ℕ → ℕ
bytes_limit zero = 1
bytes_limit (suc k) = 256 * bytes_limit k

pub length-be_bytes : (k n : ℕ) → length (be_bytes k n) ≡ k
unfolding be_bytes
length-be_bytes zero n = refl
length-be_bytes (suc k) n =
    omega (arith, length-append (be_bytes k (n / 256)) (n % 256 ∷ []), length-be_bytes k (n / 256))

pub be_bytes-injective :
    (k m n : ℕ) → m < bytes_limit k → n < bytes_limit k → be_bytes k m ≡ be_bytes k n → m ≡ n
unfolding be_bytes
be_bytes-injective zero m n hm hn e = omega arith
be_bytes-injective (suc k) m n hm hn e =
    let parts =
      append-split (be_bytes k (m / 256)) (be_bytes k (n / 256)) (m % 256 ∷ []) (n % 256 ∷ [])
        (length-be_bytes k (m / 256) ∙ sym (length-be_bytes k (n / 256))) e in
    let high : m / 256 ≡ n / 256 =
      be_bytes-injective k (m / 256) (n / 256) (omega arith) (omega arith) parts.0 in
    let low : m % 256 ≡ n % 256 = cc in omega arith

-- The UTF-8 encoding of a code point, and of a string.
unfoldable pub utf8 : ℕ → List ℕ
utf8 c =
    if ltb c 128
    then c ∷ []
    else if ltb c 2048
    then (192 + c / 64) ∷ (128 + c % 64) ∷ []
    else if ltb c 65536
    then (224 + c / 4096) ∷ (128 + (c / 64) % 64) ∷ (128 + c % 64) ∷ []
    else (240 + c / 262144) ∷ (128 + (c / 4096) % 64) ∷ (128 + (c / 64) % 64) ∷ (128 + c % 64) ∷ []

unfoldable pub as_bytes : Text → List ℕ
as_bytes [] = []
as_bytes (c ∷ t) = utf8 c ++ as_bytes t

pub length-utf8 : (c : ℕ) → length (utf8 c) ≡ utf8_len c
unfolding utf8
length-utf8 c = ground arith

pub length-as_bytes : (t : Text) → length (as_bytes t) ≡ byte_len t
unfolding as_bytes byte_len
length-as_bytes [] = refl
length-as_bytes (c ∷ t) =
    omega (arith, length-append (utf8 c) (as_bytes t), length-utf8 c, length-as_bytes t)

-- The first bytes of an encoded string are those of its first character.
utf8-split : (c d : ℕ) (s t : List ℕ) → utf8 c ++ s ≡ utf8 d ++ t → (c ≡ d) × (s ≡ t)
unfolding utf8
utf8-split c d s t e = ground arith

pub as_bytes-injective : (s t : Text) → as_bytes s ≡ as_bytes t → s ≡ t
unfolding as_bytes
as_bytes-injective [] [] e = refl
as_bytes-injective [] (d ∷ t) e =
    absurd (ground (arith, ap length e, length-append (utf8 d) (as_bytes t), length-utf8 d))
as_bytes-injective (c ∷ s) [] e =
    absurd (ground (arith, ap length e, length-append (utf8 c) (as_bytes s), length-utf8 c))
as_bytes-injective (c ∷ s) (d ∷ t) e =
    let parts = utf8-split c d (as_bytes s) (as_bytes t) e in
    ap (λ x. x ∷ s) parts.0 ∙ ap (◌∷◌ d) (as_bytes-injective s t parts.1)
