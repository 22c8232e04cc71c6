-- ===== src/Base/Order.antt =====
-- Total orders with Boolean tests: the keys of the program's ordered maps and sets.
use Prim.Native.Nat.{ℕ}
use mathlib.Core.Path.{◌≡◌, refl}
use mathlib.Core.Logic.{◌↔◌}
use mathlib.Core.Bool.{Bool, true, false, ◌&&◌, ◌||◌}
use mathlib.Core.List.{[], ◌∷◌}
use native.Mathlib.Omega.{arith}
use qx_fx0rust.Base.Tests.{ltb, ◌==◌, ==_iff}
use qx_fx0rust.Base.Text.{Text, text_eq, text_eq_iff}

-- A total order with a Boolean test for `<` and for `==`.
pub record Ord {ℓ} (K : Type ℓ) : Type ℓ where
  pub eq : K → K → Bool
  pub lt : K → K → Bool
  pub eq_iff : (a b : K) → (eq a b ≡ true) ↔ (a ≡ b)
  pub lt_irrefl : (a : K) → lt a a ≡ false
  pub lt_trans : (a b c : K) → lt a b ≡ true → lt b c ≡ true → lt a c ≡ true
  pub lt_total : (a b : K) → lt a b ≡ false → eq a b ≡ false → lt b a ≡ true

pub ltb_irrefl : (a : ℕ) → ltb a a ≡ false
ltb_irrefl a = ground arith

pub ltb_trans : (a b c : ℕ) → ltb a b ≡ true → ltb b c ≡ true → ltb a c ≡ true
ltb_trans a b c p q = ground arith

pub ltb_total : (a b : ℕ) → ltb a b ≡ false → (a == b) ≡ false → ltb b a ≡ true
ltb_total a b p q = ground arith

instance abbrev pub nat_ord : Ord ℕ
nat_ord = record {
  eq = ◌==◌;
  lt = ltb;
  eq_iff = ==_iff;
  lt_irrefl = ltb_irrefl;
  lt_trans = ltb_trans;
  lt_total = ltb_total;
}

-- Strings are compared by their bytes, which for UTF-8 is the order of the code points.
unfoldable pub text_lt : Text → Text → Bool
text_lt [] [] = false
text_lt [] (d ∷ t) = true
text_lt (c ∷ s) [] = false
text_lt (c ∷ s) (d ∷ t) = ltb c d || ((c == d) && text_lt s t)

pub text_lt_irrefl : (s : Text) → text_lt s s ≡ false
unfolding text_lt
text_lt_irrefl [] = refl
text_lt_irrefl (c ∷ s) = ground (arith, text_lt_irrefl s)

pub text_lt_trans : (r s t : Text) → text_lt r s ≡ true → text_lt s t ≡ true → text_lt r t ≡ true
unfolding text_lt
text_lt_trans [] [] t p q = cc
text_lt_trans [] (d ∷ s) [] p q = cc
text_lt_trans [] (d ∷ s) (e ∷ t) p q = refl
text_lt_trans (c ∷ r) [] t p q = cc
text_lt_trans (c ∷ r) (d ∷ s) [] p q = cc
text_lt_trans (c ∷ r) (d ∷ s) (e ∷ t) p q = ground (arith, text_lt_trans r s t)

pub text_lt_total : (s t : Text) → text_lt s t ≡ false → text_eq s t ≡ false → text_lt t s ≡ true
unfolding text_lt text_eq
text_lt_total [] [] p q = cc
text_lt_total [] (d ∷ t) p q = cc
text_lt_total (c ∷ s) [] p q = refl
text_lt_total (c ∷ s) (d ∷ t) p q = ground (arith, text_lt_total s t)

instance abbrev pub text_ord : Ord Text
text_ord = record {
  eq = text_eq;
  lt = text_lt;
  eq_iff = text_eq_iff;
  lt_irrefl = text_lt_irrefl;
  lt_trans = text_lt_trans;
  lt_total = text_lt_total;
}
