-- ===== src/Base/Decimal.antt =====
-- Numbers as the decimal text that `format!("{}")` prints.
use Prim.Native.Nat.{ℕ, zero, suc, ◌+◌, ◌-◌, ◌*◌, ◌/◌, ◌%◌, ◌≤◌, ◌<◌}
use mathlib.Core.Path.{◌≡◌, refl, sym, ap, ◌∙◌}
use mathlib.Core.List.{[], ◌∷◌, ◌++◌, reverse, reverse-reverse}
use native.Mathlib.Omega.{arith}
use qx_fx0rust.Base.Tests.{ltb, if◌then◌else◌}
use qx_fx0rust.Base.Lists.{All, All-reverse}
use qx_fx0rust.Base.Text.{Text}

-- The digits, the last one first. The fuel bounds how many there are.
digits_rev : ℕ → ℕ → Text
digits_rev zero n = []
digits_rev (suc fuel) n =
    let rest = digits_rev fuel (n / 10) in if ltb n 10 then (48 + n) ∷ [] else (48 + n % 10) ∷ rest

-- A number is at most as long as its successor is large.
unfoldable pub decimal : ℕ → Text
unfolding digits_rev
decimal n = reverse (digits_rev (suc n) n)

value_rev : Text → ℕ
value_rev [] = 0
value_rev (d ∷ ds) = (d - 48) + 10 * value_rev ds

value_rev-digits_rev : (fuel n : ℕ) → n < fuel → value_rev (digits_rev fuel n) ≡ n
unfolding value_rev digits_rev
value_rev-digits_rev zero n h = elim h [ ]
value_rev-digits_rev (suc fuel) n h = ground (arith, value_rev-digits_rev fuel (n / 10))

-- Two numbers that print alike are equal.
pub decimal-injective : (m n : ℕ) → decimal m ≡ decimal n → m ≡ n
unfolding decimal
decimal-injective m n e =
    let same : digits_rev (suc m) m ≡ digits_rev (suc n) n =
      sym (reverse-reverse (digits_rev (suc m) m))
      ∙ ap reverse e
      ∙ reverse-reverse (digits_rev (suc n) n) in
    omega (arith, value_rev-digits_rev (suc m) m, value_rev-digits_rev (suc n) n, ap value_rev same)

-- An ASCII digit.
abbrev pub IsDigit : ℕ → Type 0
IsDigit c = (48 ≤ c) × (c ≤ 57)

digits_rev-IsDigit : (fuel n : ℕ) → All IsDigit (digits_rev fuel n)
unfolding digits_rev
digits_rev-IsDigit zero n = tt
digits_rev-IsDigit (suc fuel) n = ground (arith, digits_rev-IsDigit fuel (n / 10))

pub decimal-IsDigit : (n : ℕ) → All IsDigit (decimal n)
unfolding decimal
decimal-IsDigit n = All-reverse IsDigit (digits_rev (suc n) n) (digits_rev-IsDigit (suc n) n)

-- A number followed by a colon is read off a text in one way.
pub digits-colon_split :
    (xs ys s t : Text)
    → All IsDigit xs
    → All IsDigit ys
    → xs ++ 58 ∷ s ≡ ys ++ 58 ∷ t
    → (xs ≡ ys) × (s ≡ t)
digits-colon_split [] [] s t hx hy e = ground arith
digits-colon_split [] (y ∷ ys) s t hx hy e = ground arith
digits-colon_split (x ∷ xs) [] s t hx hy e = ground arith
digits-colon_split (x ∷ xs) (y ∷ ys) s t hx hy e =
    ground (arith, digits-colon_split xs ys s t hx.1 hy.1)

decimal_small : decimal 1024 ≡ 49 ∷ 48 ∷ 50 ∷ 52 ∷ []
unfolding decimal
decimal_small = refl
