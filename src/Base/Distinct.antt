-- ===== src/Base/Distinct.antt =====
-- Sets that a loop fills and asks for membership: a `BTreeSet` of which the code uses no order is
-- the list of what was inserted.
use mathlib.Core.Path.{◌≡◌, refl}
use mathlib.Core.Logic.{◌↔◌}
use mathlib.Core.Bool.{Bool, true, false, not, ◌&&◌, ◌||◌}
use mathlib.Core.List.{List, [], ◌∷◌}
use native.Mathlib.Omega.{arith}
use qx_fx0rust.Base.Tests.{if◌then◌else◌}
use qx_fx0rust.Base.Lists.{any, All}

module _ {A : Type 0} (eq : A → A → Bool) where
  -- `contains`
  abbrev pub contains : List A → A → Bool
  contains seen a = any (eq a) seen

  -- Whether every `insert` of the loop is the first of its value.
  abbrev pub fresh : List A → List A → Bool
  fresh seen [] = true
  fresh seen (a ∷ as_) = not (contains seen a) && fresh (a ∷ seen) as_

  -- No value twice.
  abbrev pub Distinct : List A → Type 0
  Distinct [] = Unit {0}
  Distinct (a ∷ as_) = (contains as_ a ≡ false) × Distinct as_

  abbrev Apart : List A → List A → Type 0
  Apart seen = All (λ a. contains seen a ≡ false)

module _ {A : Type 0} (eq : A → A → Bool) (eq_comm : (a b : A) → eq a b ≡ eq b a) where
  Apart-cons :
      (a : A) (seen as_ : List A)
      → Apart eq (a ∷ seen) as_ ↔ ((contains eq as_ a ≡ false) × Apart eq seen as_)
  Apart-cons a seen [] = ground arith
  Apart-cons a seen (b ∷ as_) = ground (arith, eq_comm a b, Apart-cons a seen as_)

  fresh-Apart :
      (seen as_ : List A) → (fresh eq seen as_ ≡ true) ↔ (Apart eq seen as_ × Distinct eq as_)
  fresh-Apart seen [] = ground arith
  fresh-Apart seen (a ∷ as_) = ground (arith, fresh-Apart (a ∷ seen) as_, Apart-cons a seen as_)

  Apart-none : (as_ : List A) → Apart eq [] as_
  Apart-none [] = tt
  Apart-none (a ∷ as_) = (refl, Apart-none as_)

  -- Every insertion into an empty set is the first of its value exactly if no value comes twice.
  pub fresh-Distinct : (as_ : List A) → (fresh eq [] as_ ≡ true) ↔ Distinct eq as_
  fresh-Distinct as_ =
      (λ e. ((fresh-Apart [] as_).0 e).1, λ d. (fresh-Apart [] as_).1 (Apart-none as_, d))

module _ {A : Type 0} (eq : A → A → Bool) where
  -- The set after the values were inserted one by one.
  abbrev pub insert_all : List A → List A → List A
  insert_all seen [] = seen
  insert_all seen (a ∷ as_) = insert_all (a ∷ seen) as_

  pub contains-insert_all :
      (seen as_ : List A) (a : A)
      → contains eq (insert_all seen as_) a ≡ (contains eq as_ a || contains eq seen a)
  contains-insert_all seen [] a = refl
  contains-insert_all seen (b ∷ as_) a = ground (arith, contains-insert_all (b ∷ seen) as_ a)

pub any-false {ℓ} :
    {A : Type ℓ} (p : A → Bool) (xs : List A) → (any p xs ≡ false) ↔ All (λ x. p x ≡ false) xs
any-false p [] = ground arith
any-false p (x ∷ xs) = ground (arith, any-false p xs)

pub any-not {ℓ} :
    {A : Type ℓ} (p : A → Bool) (xs : List A)
    → (any (λ x. not (p x)) xs ≡ false) ↔ All (λ x. p x ≡ true) xs
any-not p [] = ground arith
any-not p (x ∷ xs) = ground (arith, any-not p xs)

-- The set that `extend` makes of a list: each value once.
module _ {A : Type 0} (eq : A → A → Bool) where
  abbrev pub to_set : List A → List A → List A
  to_set seen [] = seen
  to_set seen (a ∷ as_) = to_set (if contains eq seen a then seen else a ∷ seen) as_
