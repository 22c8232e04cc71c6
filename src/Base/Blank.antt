-- ===== src/Base/Blank.antt =====
-- Blank strings: what `trim().is_empty()` says of a string.
use mathlib.Core.Path.{◌≡◌, refl, sym, ap, ◌∙◌}
use mathlib.Core.Bool.{Bool, true, false, ◌&&◌}
use mathlib.Core.List.{List, [], ◌∷◌, ◌++◌, reverse, reverse-cons}
use native.Mathlib.Omega.{arith}
use Prim.Native.Nat.{ℕ}
use qx_fx0rust.Base.Tests.{if◌then◌else◌}
use qx_fx0rust.Base.Lists.{all, is_empty}
use qx_fx0rust.Base.Text.{Text, is_whitespace, trim_start, trim, is_blank}

all-append : (p : ℕ → Bool) (s t : List ℕ) → all p (s ++ t) ≡ (all p s && all p t)
all-append p [] t = refl
all-append p (c ∷ s) t = ground (arith, all-append p s t)

all-reverse : (p : ℕ → Bool) (s : List ℕ) → all p (reverse s) ≡ all p s
all-reverse p [] = refl
all-reverse p (c ∷ s) =
    rw (reverse-cons c s) (ground (arith, all-append p (reverse s) (c ∷ []), all-reverse p s))

is_empty-append_one : (s : List ℕ) (c : ℕ) → is_empty (s ++ c ∷ []) ≡ false
is_empty-append_one [] c = refl
is_empty-append_one (d ∷ s) c = refl

is_empty-reverse : (s : List ℕ) → is_empty (reverse s) ≡ is_empty s
is_empty-reverse [] = refl
is_empty-reverse (c ∷ s) = rw (reverse-cons c s) (is_empty-append_one (reverse s) c)

is_empty-if :
    (b v : Bool) (t u : Text)
    → is_empty t ≡ v
    → is_empty u ≡ false
    → is_empty (if b then t else u) ≡ (b && v)
is_empty-if true v t u ht hu = ht
is_empty-if false v t u ht hu = hu

all-if :
    (p : ℕ → Bool) (b v : Bool) (t u : Text)
    → all p t ≡ v
    → all p u ≡ (b && v)
    → all p (if b then t else u) ≡ (b && v)
all-if p true v t u ht hu = ht
all-if p false v t u ht hu = hu

is_empty-trim_start : (s : Text) → is_empty (trim_start s) ≡ all is_whitespace s
unfolding trim_start
is_empty-trim_start [] = refl
is_empty-trim_start (c ∷ s) =
    is_empty-if (is_whitespace c) (all is_whitespace s) (trim_start s) (c ∷ s)
      (is_empty-trim_start s) refl

all-trim_start : (s : Text) → all is_whitespace (trim_start s) ≡ all is_whitespace s
unfolding trim_start
all-trim_start [] = refl
all-trim_start (c ∷ s) =
    all-if is_whitespace (is_whitespace c) (all is_whitespace s) (trim_start s) (c ∷ s)
      (all-trim_start s) refl

-- A string is blank exactly if all of its characters are whitespace.
pub is_blank-all : (s : Text) → is_blank s ≡ all is_whitespace s
unfolding trim
is_blank-all s =
    is_empty-reverse (trim_start (reverse (trim_start s)))
    ∙ is_empty-trim_start (reverse (trim_start s))
    ∙ all-reverse is_whitespace (trim_start s)
    ∙ all-trim_start s

and_false : (b : Bool) → (b && false) ≡ false
and_false true = refl
and_false false = refl

-- What a string ends in keeps it from being blank.
pub is_blank-append : (s t : Text) → is_blank t ≡ false → is_blank (s ++ t) ≡ false
is_blank-append s t h =
    let end : all is_whitespace t ≡ false = sym (is_blank-all t) ∙ h in
    is_blank-all (s ++ t)
    ∙ all-append is_whitespace s t
    ∙ ap (λ b. all is_whitespace s && b) end
    ∙ and_false (all is_whitespace s)
