-- ===== src/Argument/Parsed.antt =====
-- Every text is read as an argument that validates, and as one only where a reviewed rule says so:
-- `parse` of qxfx0-pipeline/src/user_argument.rs.
use qx_fx0rust.Base.{
  ℕ, ◌≡◌, ◌⊎◌, inl, inr, refl, sym, ap, subst, Bool, Bool-cases, true, false, none, some, List, [],
  ◌∷◌, all, In, Result, ok, err, arith,
}
use qx_fx0rust.Base.Text.{Text, text_eq, text_eq_iff, trim, byte_len}
use qx_fx0rust.Base.Decimal.{decimal}
use qx_fx0rust.Argument.{
  Accepted, validate_rule, validate_proposition, validate_subject, validate_object, validate_node,
  validate_argument_relation, validate_omission, is_bad_id, is_disallowed_id_char,
}
use qx_fx0rust.Argument.Receipt.{
  UserArgumentParseReceipt, validate_argument, check_argument_nodes, check_argument_relations,
  check_omissions,
}
use qx_fx0rust.Argument.Spec.{RuleSpec}
use qx_fx0rust.Argument.Rules.{reviewed_rules, unmatched_rule}
use qx_fx0rust.Argument.Parse.{
  build_node, build_relation, new_omission, build_receipt, rule_among, rule_for, rule_or,
  parse_argument,
}
use qx_fx0rust.Argument.Digest.{new_argument, validate_argument_receipt}
use qx_fx0rust.Argument.Follows.{Pairwise, rule_of, ReadsNode, Follows, build_receipt-Follows}

abbrev is_ok : {E A : Type 0} → Result E A → Bool
is_ok (ok a) = true
is_ok (err e) = false

rules_build :
    (sha256 : List ℕ → List ℕ) → all (λ r. is_ok (build_receipt sha256 r.1)) reviewed_rules ≡ true
unfolding reviewed_rules build_receipt build_node build_relation new_omission new_argument
    validate_argument validate_rule validate_proposition validate_subject validate_object
    validate_node validate_argument_relation validate_omission check_argument_nodes
    check_argument_relations check_omissions is_bad_id is_disallowed_id_char byte_len text_eq
    decimal
rules_build sha256 = refl

unmatched_builds : (sha256 : List ℕ → List ℕ) → is_ok (build_receipt sha256 unmatched_rule) ≡ true
unfolding build_receipt build_node build_relation new_omission new_argument validate_argument
    validate_rule validate_omission check_argument_nodes check_argument_relations check_omissions
    is_bad_id is_disallowed_id_char byte_len text_eq
unmatched_builds sha256 = refl

is_ok-value : {A : Type 0} (m : Accepted A) → is_ok m ≡ true → (a : A) × (m ≡ ok a)
is_ok-value (ok a) h = (a, refl)
is_ok-value (err e) h = absurd (cc)

-- A text with a rule has it among the rules, and all that holds of the rules holds of it.
rule_among-In :
    (input : Text) (rules : List (Text × RuleSpec)) (test : RuleSpec → Bool)
    → all (λ r. test r.1) rules ≡ true
    → (rule_among input rules ≡ none)
      ⊎ ((spec : RuleSpec) × (rule_among input rules ≡ some spec)
          × In (input, spec) rules
          × (test spec ≡ true))
rule_among-In input [] test h = inl refl
rule_among-In input (r ∷ rules) test h = elim (Bool-cases (text_eq input r.0)) [
  | inl e ↦
      inr
        (r.1, rw e refl, inl (ap (λ t. (t, r.1)) (sym ((text_eq_iff input r.0).0 e))), ground arith)
  | inr e ↦ ground (arith, rule_among-In input rules test)
]

Pairwise-none : {A B : Type 0} (R : ℕ → A → B → Type 0) (ys : List B) → Pairwise R 0 [] ys → ys ≡ []
Pairwise-none R [] h = refl
Pairwise-none R (y ∷ ys) h = absurd h

-- What a rule is read as, for an input that has the rule or for one that has none.
abbrev Read : (List ℕ → List ℕ) → Text → RuleSpec → Type 0
Read sha256 input spec =
    (r : UserArgumentParseReceipt) × (build_receipt sha256 spec ≡ ok r)
    × (validate_argument_receipt sha256 r ≡ ok tt)
    × Follows spec r
    × (In (input, spec) reviewed_rules ⊎ (r.nodes ≡ []))

matched-Read :
    (sha256 : List ℕ → List ℕ) (input : Text) (spec : RuleSpec)
    → is_ok (build_receipt sha256 spec) ≡ true
    → In (input, spec) reviewed_rules
    → Read sha256 input spec
matched-Read sha256 input spec h among =
    let (r, e) = is_ok-value (build_receipt sha256 spec) h in
    let f = build_receipt-Follows sha256 spec r e in (r, e, f.0, f.1, inl among)

unmatched-Read : (sha256 : List ℕ → List ℕ) (input : Text) → Read sha256 input unmatched_rule
unmatched-Read sha256 input =
    let (r, e) = is_ok-value (build_receipt sha256 unmatched_rule) (unmatched_builds sha256) in
    let f = build_receipt-Follows sha256 unmatched_rule r e in
    (
      r,
      e,
      f.0,
      f.1,
      inr (Pairwise-none (λ i. ReadsNode (rule_of unmatched_rule)) r.nodes f.1.nodes),
    )

-- Every text is read as an argument that validates and that is, part by part, what the rule for the
-- text describes; without a rule for its formulation it is read as one without nodes.
pub parse_argument-Follows :
    (sha256 : List ℕ → List ℕ) (to_lowercase : Text → Text) (raw_text : Text)
    → (r : UserArgumentParseReceipt) × (parse_argument sha256 to_lowercase raw_text ≡ ok r)
      × (validate_argument_receipt sha256 r ≡ ok tt)
      × Follows (rule_for (to_lowercase (trim raw_text))) r
      × (In (to_lowercase (trim raw_text), rule_for (to_lowercase (trim raw_text))) reviewed_rules
          ⊎ (r.nodes ≡ []))
unfolding parse_argument
parse_argument-Follows sha256 to_lowercase raw_text =
    let input = to_lowercase (trim raw_text) in
    elim (rule_among-In input reviewed_rules (λ spec. is_ok (build_receipt sha256 spec))
      (rules_build sha256)) [
        | inl e ↦
            subst (Read sha256 input) (sym (ap (rule_or unmatched_rule) e))
              (unmatched-Read sha256 input)
        | inr (spec, e, among, h) ↦
            subst (Read sha256 input) (sym (ap (rule_or unmatched_rule) e))
              (matched-Read sha256 input spec h among)
      ]
