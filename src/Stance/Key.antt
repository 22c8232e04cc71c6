-- ===== src/Stance/Key.antt =====
-- The idempotency keys of qxfx0-types/src/stance.rs identify observations, though topics may hold
-- any text.
use mathlib.Core.List.{reverse, reverse-append, append_cancel_right}
use qx_fx0rust.Base.{ℕ, ◌≡◌, refl, sym, ap, ◌∙◌, ◌↔◌, ◌++◌, get_or, drop, arith, subst}
use qx_fx0rust.Base.Text.{Text, codes}
use qx_fx0rust.Base.Decimal.{decimal, decimal-injective, decimal-IsDigit, digits-colon_split}
use qx_fx0rust.Stance.{
  StanceObservation, StancePolarity, StanceSource, affirmed, rejected, system_decision, user_input,
  external_reference, polarity_str, source_str, idempotency_key,
}

-- What stands behind the topic in a key.
abbrev key_suffix : StancePolarity → StanceSource → Text
key_suffix p s = codes ":polarity:" ++ (polarity_str p ++ (codes ":source:" ++ source_str s))

-- Read from its end, a key shows its source in the first letter.
suffix_source :
    (p q : StancePolarity) (s r : StanceSource) (xs ys : Text)
    → get_or (reverse (key_suffix p s) ++ xs) 0 0 ≡ get_or (reverse (key_suffix q r) ++ ys) 0 0
    → s ≡ r
unfolding polarity_str source_str
suffix_source p q system_decision system_decision xs ys e = refl
suffix_source p q user_input user_input xs ys e = refl
suffix_source p q external_reference external_reference xs ys e = refl
suffix_source affirmed affirmed _ _ xs ys e = absurd (omega arith)
suffix_source affirmed rejected _ _ xs ys e = absurd (omega arith)
suffix_source rejected affirmed _ _ xs ys e = absurd (omega arith)
suffix_source rejected rejected _ _ xs ys e = absurd (omega arith)

-- Where the third letter of the polarity stands, from the end.
abbrev polarity_place : StanceSource → ℕ
polarity_place system_decision = 25
polarity_place user_input = 20
polarity_place external_reference = 28

suffix_polarity :
    (p q : StancePolarity) (s : StanceSource) (xs ys : Text)
    → get_or (reverse (key_suffix p s) ++ xs) (polarity_place s) 0
      ≡ get_or (reverse (key_suffix q s) ++ ys) (polarity_place s) 0
    → p ≡ q
unfolding polarity_str source_str
suffix_polarity affirmed affirmed s xs ys e = refl
suffix_polarity rejected rejected s xs ys e = refl
suffix_polarity affirmed rejected system_decision xs ys e = absurd (omega arith)
suffix_polarity rejected affirmed system_decision xs ys e = absurd (omega arith)
suffix_polarity _ _ _ xs ys e = absurd (omega arith)

suffix_reversed :
    (p q : StancePolarity) (s r : StanceSource) (xs ys : Text)
    → reverse (key_suffix p s) ++ xs ≡ reverse (key_suffix q r) ++ ys
    → (p ≡ q) × (s ≡ r)
suffix_reversed p q s r xs ys e =
    let same : s ≡ r = suffix_source p q s r xs ys (ap (λ (t : Text). get_or t 0 0) e) in
    let e' : reverse (key_suffix p s) ++ xs ≡ reverse (key_suffix q s) ++ ys =
      subst (λ (t : StanceSource). reverse (key_suffix p s) ++ xs ≡ reverse (key_suffix q t) ++ ys)
        (sym same) e in
    (suffix_polarity p q s xs ys (ap (λ (t : Text). get_or t (polarity_place s) 0) e'), same)

key_suffix-injective :
    (p q : StancePolarity) (s r : StanceSource) (xs ys : Text)
    → xs ++ key_suffix p s ≡ ys ++ key_suffix q r
    → (p ≡ q) × (s ≡ r) × (xs ≡ ys)
key_suffix-injective p q s r xs ys e =
    let back : reverse (key_suffix p s) ++ reverse xs ≡ reverse (key_suffix q r) ++ reverse ys =
      sym (reverse-append xs (key_suffix p s))
      ∙ ap reverse e
      ∙ reverse-append ys (key_suffix q r) in
    let same = suffix_reversed p q s r (reverse xs) (reverse ys) back in
    (
      same.0,
      same.1,
      append_cancel_right xs ys (key_suffix p s)
          (e ∙ ap (λ (t : Text). ys ++ t) (sym (λ i. key_suffix (same.0 i) (same.1 i)))),
    )

-- What stands behind the turn and its colon in a key.
abbrev behind_turn : StanceObservation → Text
behind_turn o = codes "topic:" ++ (o.topic.as_str ++ key_suffix o.polarity o.source)

same_fields :
    (a b : StanceObservation)
    → a.turn ≡ b.turn
    → a.topic.as_str ≡ b.topic.as_str
    → a.polarity ≡ b.polarity
    → a.source ≡ b.source
    → a ≡ b
same_fields a b t u p s =
    λ i. record { turn = t i; topic = record { as_str = u i }; polarity = p i; source = s i }

-- Two observations have the same idempotency key exactly if they are the same observation.
pub idempotency_key-injective :
    (a b : StanceObservation) → (idempotency_key a ≡ idempotency_key b) ↔ (a ≡ b)
idempotency_key-injective a b = (
  λ e.
      let numbers =
        digits-colon_split (decimal a.turn) (decimal b.turn) (behind_turn a) (behind_turn b)
          (decimal-IsDigit a.turn) (decimal-IsDigit b.turn)
          (unfold idempotency_key in ap (drop 5) e) in
      let texts =
        key_suffix-injective a.polarity b.polarity a.source b.source a.topic.as_str b.topic.as_str
          (ap (drop 6) numbers.1) in
      same_fields a b (decimal-injective a.turn b.turn numbers.0) texts.2 texts.0 texts.1,
  λ e. ap idempotency_key e,
)
