-- ===== src/Argument/Rules.antt =====
-- The reviewed formulations of qxfx0-pipeline/src/user_argument.rs and the arguments that they are
-- read as.
use qx_fx0rust.Base.{List, [], ◌∷◌}
use qx_fx0rust.Base.Text.{Text, codes}
use qx_fx0rust.Argument.Spec.{
  as_claim, as_premise, as_conclusion, as_qualifier, as_counterclaim, about_topic, about_unresolved,
  about_external, to_nothing, to_topic, to_evidence, to_definition, NodeSpec, RelationSpec,
  RuleSpec, node_spec, relation_spec, rule_spec,
}
use qx_fx0rust.Argument.{
  direct, quoted, reported, hypothetical, unknown_source, affirmed, negated, unknown_polarity, is_a,
  defines, has_property, prevents, requires, permits, values, justifies, follows_from,
  needs_evidence, needs_definition, supports, attacks, qualifies, rebuts, undercuts, entails,
  contradicts_node, requests_evidence, requests_definition, parsed, partial, abstained,
  ParseOmissionReason, unresolved_proposition, insufficient_evidence,
}

-- The tables of the source, under their names there.
abbrev no_relations : List RelationSpec
no_relations = []

abbrev no_omissions : List ParseOmissionReason
no_omissions = []

abbrev clean_support_nodes : List NodeSpec
clean_support_nodes =
    node_spec (codes "clean.premise") as_premise (about_topic (codes "ответственность"))
      follows_from (to_topic (codes "свобода")) direct affirmed 7500
    ∷ node_spec (codes "clean.conclusion") as_conclusion (about_topic (codes "свобода")) requires
        (to_topic (codes "ответственность")) direct affirmed 8000
    ∷ []

abbrev clean_support_relations : List RelationSpec
clean_support_relations =
    relation_spec (codes "clean.premise") (codes "clean.conclusion") supports 7500 ∷ []

abbrev enthymeme_nodes : List NodeSpec
enthymeme_nodes =
    node_spec (codes "enthymeme.premise") as_premise (about_topic (codes "свобода")) requires
      (to_topic (codes "ответственность")) direct affirmed 7000
    ∷ node_spec (codes "enthymeme.conclusion") as_conclusion (about_topic (codes "ответственность"))
        follows_from (to_topic (codes "свобода")) direct affirmed 7500
    ∷ []

abbrev enthymeme_relations : List RelationSpec
enthymeme_relations =
    relation_spec (codes "enthymeme.premise") (codes "enthymeme.conclusion") entails 7000 ∷ []

abbrev unsupported_nodes : List NodeSpec
unsupported_nodes =
    node_spec (codes "unsupported.claim") as_claim (about_topic (codes "свобода")) has_property
      to_nothing direct affirmed 8500
    ∷ []

abbrev counterexample_nodes : List NodeSpec
counterexample_nodes =
    node_spec (codes "counterexample.target") as_claim (about_topic (codes "свобода")) has_property
      to_nothing reported unknown_polarity 7000
    ∷ node_spec (codes "counterexample.counterclaim") as_counterclaim
        (about_topic (codes "свобода")) requires (to_topic (codes "ответственность")) direct
        affirmed 6500
    ∷ []

abbrev counterexample_relations : List RelationSpec
counterexample_relations =
    relation_spec (codes "counterexample.counterclaim") (codes "counterexample.target") rebuts 6500
    ∷ []

abbrev concession_nodes : List NodeSpec
concession_nodes =
    node_spec (codes "concession.claim") as_claim (about_topic (codes "свобода")) values
      (to_topic (codes "ответственность")) direct affirmed 8000
    ∷ node_spec (codes "concession.qualifier") as_qualifier (about_topic (codes "свобода")) requires
        (to_topic (codes "ответственность")) direct affirmed 6500
    ∷ []

abbrev concession_relations : List RelationSpec
concession_relations =
    relation_spec (codes "concession.qualifier") (codes "concession.claim") qualifies 6500 ∷ []

abbrev revision_nodes : List NodeSpec
revision_nodes =
    node_spec (codes "revision.old") as_claim (about_topic (codes "свобода")) is_a
      (to_topic (codes "произвол")) reported affirmed 8000
    ∷ node_spec (codes "revision.new") as_counterclaim (about_topic (codes "свобода")) is_a
        (to_topic (codes "произвол")) direct negated 8000
    ∷ []

abbrev revision_relations : List RelationSpec
revision_relations =
    relation_spec (codes "revision.new") (codes "revision.old") contradicts_node 8000 ∷ []

abbrev contradiction_nodes : List NodeSpec
contradiction_nodes =
    node_spec (codes "contradiction.claim") as_claim (about_topic (codes "свобода")) prevents
      (to_topic (codes "ответственность")) direct affirmed 8000
    ∷ node_spec (codes "contradiction.counterclaim") as_counterclaim
        (about_topic (codes "ответственность")) prevents (to_topic (codes "свобода")) direct
        affirmed 8000
    ∷ []

abbrev contradiction_relations : List RelationSpec
contradiction_relations =
    relation_spec (codes "contradiction.counterclaim") (codes "contradiction.claim") attacks 7000
    ∷ []

abbrev evidence_request_nodes : List NodeSpec
evidence_request_nodes =
    node_spec (codes "evidence.target") as_claim (about_topic (codes "свобода")) requires
      (to_topic (codes "ответственность")) quoted unknown_polarity 8000
    ∷ node_spec (codes "evidence.request") as_claim (about_topic (codes "свобода")) needs_evidence
        to_evidence direct affirmed 8500
    ∷ []

abbrev evidence_request_relations : List RelationSpec
evidence_request_relations =
    relation_spec (codes "evidence.request") (codes "evidence.target") requests_evidence 8500 ∷ []

abbrev definition_request_nodes : List NodeSpec
definition_request_nodes =
    node_spec (codes "definition.target") as_claim (about_topic (codes "свобода")) defines
      to_definition unknown_source unknown_polarity 7000
    ∷ node_spec (codes "definition.request") as_claim (about_topic (codes "свобода"))
        needs_definition to_definition direct affirmed 9000
    ∷ []

abbrev definition_request_relations : List RelationSpec
definition_request_relations =
    relation_spec (codes "definition.request") (codes "definition.target") requests_definition 8500
    ∷ []

abbrev quotation_nodes : List NodeSpec
quotation_nodes =
    node_spec (codes "quotation.claim") as_claim (about_topic (codes "свобода")) values
      (to_topic (codes "ответственность")) quoted unknown_polarity 8500
    ∷ []

abbrev hypothetical_nodes : List NodeSpec
hypothetical_nodes =
    node_spec (codes "hypothetical.claim") as_claim (about_topic (codes "свобода")) requires
      (to_topic (codes "ответственность")) hypothetical negated 8000
    ∷ []

abbrev negation_nodes : List NodeSpec
negation_nodes =
    node_spec (codes "negation.claim") as_claim (about_topic (codes "свобода")) permits
      (to_topic (codes "произвол")) direct negated 8500
    ∷ []

abbrev external_nodes : List NodeSpec
external_nodes =
    node_spec (codes "external.claim") as_claim about_external values (to_topic (codes "свобода"))
      reported unknown_polarity 7500
    ∷ []

abbrev unknown_nodes : List NodeSpec
unknown_nodes =
    node_spec (codes "unknown.claim") as_claim about_unresolved justifies
      (to_topic (codes "свобода")) direct affirmed 5000
    ∷ []

abbrev unknown_omissions : List ParseOmissionReason
unknown_omissions = unresolved_proposition ∷ []

abbrev undercut_nodes : List NodeSpec
undercut_nodes =
    node_spec (codes "undercut.warrant") as_premise (about_topic (codes "ответственность"))
      follows_from (to_topic (codes "свобода")) quoted affirmed 7000
    ∷ node_spec (codes "undercut.conclusion") as_conclusion (about_topic (codes "свобода")) requires
        (to_topic (codes "ответственность")) quoted affirmed 7000
    ∷ node_spec (codes "undercut.counterclaim") as_counterclaim
        (about_topic (codes "ответственность")) follows_from (to_topic (codes "свобода")) direct
        negated 7500
    ∷ []

abbrev undercut_relations : List RelationSpec
undercut_relations =
    relation_spec (codes "undercut.counterclaim") (codes "undercut.warrant") undercuts 7000 ∷ []

-- The closure `parsed` of `reviewed_rule`
abbrev reviewed : Text → List NodeSpec → List RelationSpec → RuleSpec
reviewed id nodes relations = rule_spec id parsed nodes relations no_omissions

-- The arms of `reviewed_rule`, in order.
unfoldable pub reviewed_rules : List (Text × RuleSpec)
reviewed_rules =
    (
      codes "свобода требует ответственности, потому что выбор имеет последствия.",
      reviewed (codes "argument.explicit_support") clean_support_nodes clean_support_relations,
    )
    ∷ (
      codes "если поступок свободен, за него отвечают; значит, свобода влечёт ответственность.",
      reviewed (codes "argument.conditional_entailment") enthymeme_nodes enthymeme_relations,
    )
    ∷ (
      codes "свобода всегда полезна.",
      reviewed (codes "argument.unsupported_assertion") unsupported_nodes no_relations,
    )
    ∷ (
      codes "свобода якобы всегда полезна, но безответственный выбор причиняет вред.",
      reviewed (codes "argument.explicit_counterexample") counterexample_nodes
          counterexample_relations,
    )
    ∷ (
      codes "свобода важна, хотя её следует ограничивать там, где начинается вред.",
      reviewed (codes "argument.explicit_concession") concession_nodes concession_relations,
    )
    ∷ (
      codes "раньше я считал свободу произволом, но теперь различаю их.",
      reviewed (codes "argument.explicit_revision") revision_nodes revision_relations,
    )
    ∷ (
      codes "свобода исключает ответственность, а ответственность ограничивает свободу.",
      reviewed (codes "argument.parallel_contradiction") contradiction_nodes
          contradiction_relations,
    )
    ∷ (
      codes "какие основания подтверждают, что свобода требует ответственности?",
      reviewed (codes "argument.evidence_request") evidence_request_nodes
          evidence_request_relations,
    )
    ∷ (
      codes "что именно означает свобода?",
      reviewed (codes "argument.definition_request") definition_request_nodes
          definition_request_relations,
    )
    ∷ (
      codes "он сказал: «свобода важнее ответственности».",
      reviewed (codes "argument.explicit_quotation") quotation_nodes no_relations,
    )
    ∷ (
      codes "если бы свобода не требовала ответственности, выбор не имел бы последствий.",
      reviewed (codes "argument.hypothetical_negation") hypothetical_nodes no_relations,
    )
    ∷ (
      codes "я не утверждаю, что свобода разрешает произвол.",
      reviewed (codes "argument.explicit_negation") negation_nodes no_relations,
    )
    ∷ (
      codes "ну да, конечно, любая свобода автоматически делает всех ответственными.",
      rule_spec (codes "argument.sarcasm_abstention") abstained [] no_relations
          (insufficient_evidence ∷ []),
    )
    ∷ (
      codes "свобода потому что значит однако.",
      rule_spec (codes "argument.malformed_abstention") abstained [] no_relations
          (unresolved_proposition ∷ []),
    )
    ∷ (
      codes "господин икс утверждает, что свобода важнее ответственности.",
      reviewed (codes "argument.external_subject") external_nodes no_relations,
    )
    ∷ (
      codes "кванточайник обосновывает свободу.",
      rule_spec (codes "argument.unknown_subject") partial unknown_nodes no_relations
          unknown_omissions,
    )
    ∷ (
      codes "то, что выбор имеет последствия, не доказывает, что свобода требует ответственности.",
      reviewed (codes "argument.explicit_undercut") undercut_nodes undercut_relations,
    )
    ∷ []

-- The rule for a text that no arm matches.
abbrev pub unmatched_rule : RuleSpec
unmatched_rule =
    rule_spec (codes "argument.unmatched_input") abstained [] no_relations
      (insufficient_evidence ∷ [])
