-- ===== src/Base/Ring.antt =====
-- A bounded `VecDeque`, oldest first: `push_back`, then `while len > capacity { pop_front }`.
use qx_fx0rust.Base.Tests.{ltb, if◌then◌else◌, Bool-cases}
use mathlib.Core.Logic.{inl, inr, ◌≢◌}
use qx_fx0rust.Base.Lists.{length, drop, All, All-append, In, length-append, length-drop}
use Prim.Native.Nat.{ℕ, zero, suc, ◌+◌, ◌-◌, ◌≤◌, min}
use mathlib.Core.Path.{sym, ap, subst, ◌∙◌, ◌≡◌, refl}
use mathlib.Core.List.{List, [], ◌∷◌, ◌++◌, append_assoc}
use native.Mathlib.Omega.{arith}

module _ {ℓ} {A : Type ℓ} where
  -- The loop recurs on the list: each round takes one entry off the front.
  unfoldable pub pop_excess : ℕ → List A → List A
  pop_excess cap [] = []
  pop_excess cap (x ∷ xs) =
      let rest = pop_excess cap xs in if ltb cap (length (x ∷ xs)) then rest else x ∷ xs

  drop-nil : (n : ℕ) → drop {A = A} n [] ≡ []
  drop-nil zero = refl
  drop-nil (suc n) = refl

  -- The loop drops exactly the excess.
  pub pop_excess-drop : (cap : ℕ) (xs : List A) → pop_excess cap xs ≡ drop (length xs - cap) xs
  unfolding pop_excess
  pop_excess-drop cap [] = ground (arith, drop-nil (0 - cap))
  pop_excess-drop cap (x ∷ xs) = elim (Bool-cases (ltb cap (suc (length xs)))) [
    | inl more ↦
        let e : suc (length xs) - cap ≡ suc (length xs - cap) = ground arith in
        rw (more, e) (pop_excess-drop cap xs)
    | inr done ↦ let e : suc (length xs) - cap ≡ 0 = ground arith in rw (done, e)
  ]

  pub length-pop_excess : (cap : ℕ) (xs : List A) → length (pop_excess cap xs) ≡ min cap (length xs)
  unfolding pop_excess
  length-pop_excess cap [] = omega arith
  length-pop_excess cap (x ∷ xs) = ground (arith, length-pop_excess cap xs)

  pub pop_excess-of_le : (cap : ℕ) (xs : List A) → length xs ≤ cap → pop_excess cap xs ≡ xs
  unfolding pop_excess
  pop_excess-of_le cap [] h = refl
  pop_excess-of_le cap (x ∷ xs) h = ground arith

  pub All-pop_excess {κ} :
      (P : A → Type κ) (cap : ℕ) (xs : List A) → All P xs → All P (pop_excess cap xs)
  unfolding pop_excess
  All-pop_excess P cap [] h = h
  All-pop_excess P cap (x ∷ xs) h = elim (Bool-cases (ltb cap (suc (length xs)))) [
    | inl more ↦ rw more (All-pop_excess P cap xs h.1)
    | inr done ↦ rw done h
  ]

-- The entries are pairwise different.
abbrev pub Distinct : {A : Type 0} → List A → Type 0
Distinct [] = Unit {0}
Distinct (o ∷ os) = All (λ x. o ≢ x) os × Distinct os

Distinct-append :
    {A : Type 0} (os : List A) (o : A) → Distinct os → ¬ In o os → Distinct (os ++ o ∷ [])
Distinct-append [] o d h = (tt, tt)
Distinct-append (x ∷ os) o d h = (
  All-append (λ y. x ≢ y) os (o ∷ []) d.0 (λ e. h (inl e), tt),
  Distinct-append os o d.1 (λ m. h (inr m)),
)

Distinct-drop : {A : Type 0} (n : ℕ) (os : List A) → Distinct os → Distinct (drop n os)
Distinct-drop zero os d = d
Distinct-drop (suc n) [] d = d
Distinct-drop (suc n) (o ∷ os) d = Distinct-drop n os d.1

-- What `push_back` and the loop do to a queue: the new entry is the last, and the oldest entries
-- go that do not fit.
pub push-drop {ℓ} :
    {A : Type ℓ} (cap : ℕ) (xs : List A) (x : A)
    → pop_excess cap (xs ++ x ∷ []) ≡ drop (length xs + 1 - cap) (xs ++ x ∷ [])
push-drop cap xs x =
    pop_excess-drop cap (xs ++ x ∷ [])
    ∙ ap (λ (n : ℕ). drop (n - cap) (xs ++ x ∷ [])) (length-append xs (x ∷ []))

pub push-Distinct :
    {A : Type 0} (cap : ℕ) (xs : List A) (x : A)
    → Distinct xs
    → ¬ In x xs
    → Distinct (pop_excess cap (xs ++ x ∷ []))
push-Distinct cap xs x d new =
    subst Distinct (sym (pop_excess-drop cap (xs ++ x ∷ [])))
      (Distinct-drop (length (xs ++ x ∷ []) - cap) (xs ++ x ∷ []) (Distinct-append xs x d new))

drop-append {ℓ} :
    {A : Type ℓ} (k : ℕ) (xs ys : List A) → k ≤ length xs → drop k xs ++ ys ≡ drop k (xs ++ ys)
drop-append zero xs ys h = refl
drop-append (suc k) [] ys h = absurd (omega arith)
drop-append (suc k) (x ∷ xs) ys h = drop-append k xs ys (omega arith)

zero_plus : (j : ℕ) → j ≡ 0 + j
zero_plus j = omega arith

suc_plus : (k j : ℕ) → suc (k + j) ≡ suc k + j
suc_plus k j = omega arith

drop-drop {ℓ} : {A : Type ℓ} (j k : ℕ) (xs : List A) → drop j (drop k xs) ≡ drop (k + j) xs
drop-drop j zero xs = ap (λ (n : ℕ). drop n xs) (zero_plus j)
drop-drop j (suc k) [] = drop-nil j ∙ sym (drop-nil (suc k + j))
drop-drop j (suc k) (x ∷ xs) = drop-drop j k xs ∙ ap (λ (n : ℕ). drop n (x ∷ xs)) (suc_plus k j)

-- Two entries pushed one after the other to a bounded queue are the newest, and the excess goes.
pub push-push {ℓ} :
    {A : Type ℓ} (cap : ℕ) (xs : List A) (x y : A)
    → let once = drop (length (xs ++ x ∷ []) - cap) (xs ++ x ∷ []) in
      drop (length (once ++ y ∷ []) - cap) (once ++ y ∷ [])
      ≡ drop (length xs + 2 - cap) (xs ++ x ∷ y ∷ [])
push-push {A = A} cap xs x y =
    let once = xs ++ x ∷ [] in
    let k = length once - cap in
    let n : length once ≡ length xs + 1 = length-append xs (x ∷ []) in
    let both : drop k once ++ y ∷ [] ≡ drop k (once ++ y ∷ []) =
      drop-append k once (y ∷ []) (omega arith) in
    let len : length (drop k (once ++ y ∷ [])) ≡ length xs + 2 - k =
      length-drop k (once ++ y ∷ [])
      ∙ ap (λ (m : ℕ). m - k) (omega (arith, length-append once (y ∷ []), n)) in
    let cut : k + (length xs + 2 - k - cap) ≡ length xs + 2 - cap = omega (arith, n) in
    ap (λ (l : List A). drop (length l - cap) l) both
    ∙ ap (λ (m : ℕ). drop (m - cap) (drop k (once ++ y ∷ []))) len
    ∙ drop-drop (length xs + 2 - k - cap) k (once ++ y ∷ [])
    ∙ ap (λ (m : ℕ). drop m (once ++ y ∷ [])) cut
    ∙ ap (drop (length xs + 2 - cap)) (append_assoc xs (x ∷ []) (y ∷ []))
