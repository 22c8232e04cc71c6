-- ===== src/Plan/Argued.antt =====
-- The plan that `build_argued_plan` of qxfx0-pipeline/src/shadow_plan.rs makes about an admitted
-- topic.
use qx_fx0rust.Base.{◌≡◌, refl, false, Option, none, some, [], ◌∷◌, ◌++◌, ok, arith}
use qx_fx0rust.Base.Text.{Text, codes, text_eq, text_eq_refl, is_blank, trim, trim_start}
use qx_fx0rust.Base.Blank.{is_blank-append}
use qx_fx0rust.Base.Order.{text_ord}
use qx_fx0rust.Perspective.Facts.{FactRegistry, FactRecord, select}
use qx_fx0rust.Perspective.{thesis, counterpoint, consequence}
use qx_fx0rust.Plan.{
  ResponseGoal, content_v1, topic, one, push, PlannedClaim, counters_predicate, follows_predicate,
  by_counterpoint, two_sentences, three_sentences, check_agreement, selected_admitted_predicate,
  added_counterpoint, added_consequence, ReadyResponsePlan, try_new,
}
use qx_fx0rust.Plan.Admit.{IsClaim, IsAdmitted}
use qx_fx0rust.Plan.Build.{AdmittedStatement, ArguedTopic, curated_claim, step_of, refs_of, Argued}

-- What the loading of the registry makes sure of: a topic has a primary reference, and each of its
-- statements a reference and a fact that can be selected.
abbrev pub IsStatement : FactRegistry → AdmittedStatement → Type 0
IsStatement facts s =
    (is_blank s.predicate_ref ≡ false) × (fact : FactRecord) × (select facts s.fact_id ≡ ok fact)

pub record IsCurated (facts : FactRegistry) (t : ArguedTopic) : Type 0 where
  pub named : is_blank t.primary_predicate_ref ≡ false
  pub thesis_ok : IsStatement facts t.thesis_statement
  pub counterpoint_ok : IsStatement facts t.counterpoint_statement
  pub consequence_ok :
      (s : AdmittedStatement) → t.consequence_statement ≡ some s → IsStatement facts s

pub text_eq-append : (a s t : Text) → text_eq (a ++ s) (a ++ t) ≡ text_eq s t
unfolding text_eq
text_eq-append [] s t = refl
text_eq-append (c ∷ a) s t = ground (arith, text_eq-append a s t)

pub try_new-named : (t : Text) → is_blank t ≡ false → try_new t ≡ ok t
unfolding try_new
try_new-named t h = rw h

-- The ids of the claims of an argued plan.
abbrev pub thesis_id : ArguedTopic → Text
thesis_id t = t.primary_predicate_ref ++ codes ".thesis"

abbrev pub counter_id : ArguedTopic → Text
counter_id t = t.primary_predicate_ref ++ codes ".counterpoint"

abbrev pub consequence_id : ArguedTopic → Text
consequence_id t = t.primary_predicate_ref ++ codes ".consequence"

pub thesis_id-named : (t : ArguedTopic) → is_blank (thesis_id t) ≡ false
unfolding trim trim_start
thesis_id-named t = is_blank-append t.primary_predicate_ref (codes ".thesis") refl

pub counter_id-named : (t : ArguedTopic) → is_blank (counter_id t) ≡ false
unfolding trim trim_start
counter_id-named t = is_blank-append t.primary_predicate_ref (codes ".counterpoint") refl

pub consequence_id-named : (t : ArguedTopic) → is_blank (consequence_id t) ≡ false
unfolding trim trim_start
consequence_id-named t = is_blank-append t.primary_predicate_ref (codes ".consequence") refl

abbrev pub thesis_claim : ArguedTopic → PlannedClaim
thesis_claim t =
    curated_claim (thesis_id t) thesis t.thesis_statement t.primary_proposition
      (one t.primary_predicate_ref) t.evidence_record 9500

abbrev pub counter_claim : ArguedTopic → PlannedClaim
counter_claim t =
    curated_claim (counter_id t) counterpoint t.counterpoint_statement
      (counters_predicate t.counterpoint_statement.predicate_ref t.primary_predicate_ref)
      (refs_of t t.counterpoint_statement) t.evidence_record 9000

abbrev pub consequence_claim : ArguedTopic → AdmittedStatement → PlannedClaim
consequence_claim t s =
    curated_claim (consequence_id t) consequence s
      (follows_predicate s.predicate_ref t.primary_predicate_ref) (refs_of t s) t.evidence_record
      9000

-- What an argued plan says: the thesis, the counterpoint, and the consequence if there is one.
abbrev pub argued_of : ArguedTopic → Option AdmittedStatement → Argued
argued_of t none = record {
  claims = push (one (thesis_claim t)) (counter_claim t);
  sentence_budget = two_sentences;
  derivation =
      step_of (thesis_id t) (one t.primary_predicate_ref) selected_admitted_predicate
      ∷ step_of (counter_id t) (refs_of t t.counterpoint_statement) added_counterpoint
      ∷ [];
}
argued_of t (some s) = record {
  claims = push (push (one (thesis_claim t)) (counter_claim t)) (consequence_claim t s);
  sentence_budget = three_sentences;
  derivation =
      step_of (thesis_id t) (one t.primary_predicate_ref) selected_admitted_predicate
      ∷ step_of (counter_id t) (refs_of t t.counterpoint_statement) added_counterpoint
      ∷ step_of (consequence_id t) (refs_of t s) added_consequence
      ∷ [];
}

abbrev pub argued_plan : ResponseGoal → ArguedTopic → Option AdmittedStatement → ReadyResponsePlan
argued_plan goal t o = record {
  version = content_v1;
  goal = goal;
  subject = topic t.topic_id;
  claims = (argued_of t o).claims;
  discourse = record {
    relation = by_counterpoint;
    sentence_budget = (argued_of t o).sentence_budget;
  };
  obligation = some (check_agreement (thesis_id t));
  derivation = (argued_of t o).derivation;
}

thesis-IsClaim :
    (facts : FactRegistry) (t : ArguedTopic) → IsCurated facts t → IsClaim (thesis_claim t)
thesis-IsClaim facts t k = record {
  named = thesis_id-named t;
  predicates = (k.named, tt);
  confident = omega arith;
  cites = refl;
}

counter-IsClaim :
    (facts : FactRegistry) (t : ArguedTopic) → IsCurated facts t → IsClaim (counter_claim t)
counter-IsClaim facts t k = record {
  named = counter_id-named t;
  predicates = (k.counterpoint_ok.0, (k.named, tt));
  confident = omega arith;
  cites = refl;
}

consequence-IsClaim :
    (facts : FactRegistry) (t : ArguedTopic) (s : AdmittedStatement)
    → IsCurated facts t
    → IsStatement facts s
    → IsClaim (consequence_claim t s)
consequence-IsClaim facts t s k h = record {
  named = consequence_id-named t;
  predicates = (h.0, (k.named, tt));
  confident = omega arith;
  cites = refl;
}

-- The ids of one plan differ behind the reference that they share.
thesis-ne-counter : (t : ArguedTopic) → text_eq (thesis_id t) (counter_id t) ≡ false
unfolding text_eq
thesis-ne-counter t =
    text_eq-append t.primary_predicate_ref (codes ".thesis") (codes ".counterpoint")

thesis-ne-consequence : (t : ArguedTopic) → text_eq (thesis_id t) (consequence_id t) ≡ false
unfolding text_eq
thesis-ne-consequence t =
    text_eq-append t.primary_predicate_ref (codes ".thesis") (codes ".consequence")

counter-ne-consequence : (t : ArguedTopic) → text_eq (counter_id t) (consequence_id t) ≡ false
unfolding text_eq
counter-ne-consequence t =
    text_eq-append t.primary_predicate_ref (codes ".counterpoint") (codes ".consequence")

pub argued_plan-IsAdmitted :
    (facts : FactRegistry) (goal : ResponseGoal) (t : ArguedTopic) (o : Option AdmittedStatement)
    → IsCurated facts t
    → ((s : AdmittedStatement) → o ≡ some s → IsStatement facts s)
    → IsAdmitted (argued_plan goal t o)
argued_plan-IsAdmitted facts goal t none k h = record {
  few_claims = omega arith;
  claims = (thesis-IsClaim facts t k, (counter-IsClaim facts t k, tt));
  distinct = (rw (thesis-ne-counter t) refl, (refl, tt));
  few_steps = omega arith;
  derived = (
    ground (arith, text_eq_refl (thesis_id t)),
    (ground (arith, text_eq_refl (counter_id t)), tt),
  );
  obliged = ground (arith, text_eq_refl (thesis_id t));
}
argued_plan-IsAdmitted facts goal t (some s) k h = record {
  few_claims = omega arith;
  claims = (
    thesis-IsClaim facts t k,
    (counter-IsClaim facts t k, (consequence-IsClaim facts t s k (h s refl), tt)),
  );
  distinct = (
    rw (thesis-ne-counter t, thesis-ne-consequence t) refl,
    (rw (counter-ne-consequence t) refl, (refl, tt)),
  );
  few_steps = omega arith;
  derived = (
    ground (arith, text_eq_refl (thesis_id t)),
    (
      ground (arith, text_eq_refl (counter_id t)),
      (ground (arith, text_eq_refl (consequence_id t)), tt),
    ),
  );
  obliged = ground (arith, text_eq_refl (thesis_id t));
}
