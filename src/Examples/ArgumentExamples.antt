-- ===== src/Examples/ArgumentExamples.antt =====
-- A parse receipt of a user's argument at a concrete input.
use qx_fx0rust.Base.{ℕ, ◌≡◌, refl, ◌↔◌, ◌⊎◌, In, none, some, List, [], ◌∷◌, arith, ok}
use qx_fx0rust.Base.Text.{Text, codes, byte_len, trim}
use qx_fx0rust.Argument.{
  ParserRuleId, direct, affirmed, requires, subject_topic, object_topic, reviewed_gold, claim,
  premise, supports, partial, ambiguous_attachment,
}
use qx_fx0rust.Argument.Receipt.{UserArgumentParseReceipt}
use qx_fx0rust.Argument.Digest.{argument_preimage, new_argument, validate_argument_receipt}
use qx_fx0rust.Argument.Bytes.{IsTypedArgument}
use qx_fx0rust.Argument.Tamper.{argument_preimage-injective, validate_argument_receipt-new}
use qx_fx0rust.Argument.Rules.{reviewed_rules}
use qx_fx0rust.Argument.Parse.{rule_for, parse_argument}
use qx_fx0rust.Argument.Follows.{Follows}
use qx_fx0rust.Argument.Parsed.{parse_argument-Follows}
use qx_fx0rust.Debate.Digest.{zero_bytes}

abbrev as_they_are : List ℕ → List ℕ
as_they_are bytes = bytes

abbrev rule : ParserRuleId
rule = record { id = codes "rule"; version = 1 }

abbrev parse : UserArgumentParseReceipt
parse = record {
  version = 1;
  disposition = partial;
  nodes =
      claim (record {
        id = codes "n1";
        proposition = record {
          subject = subject_topic (codes "freedom");
          predicate = requires;
          object = some (object_topic (codes "duty"));
        };
        source = direct;
        polarity = affirmed;
        confidence = 9000;
        parser_rule = rule;
        span_digest = some (record { scope = reviewed_gold; digest = 7 ∷ zero_bytes 31 });
      })
      ∷ premise (record {
        id = codes "n2";
        proposition = record {
          subject = subject_topic (codes "duty");
          predicate = requires;
          object = none;
        };
        source = direct;
        polarity = affirmed;
        confidence = 10000;
        parser_rule = rule;
        span_digest = none;
      })
      ∷ [];
  relations =
      record {
        id = codes "r1";
        from = codes "n2";
        to = codes "n1";
        kind = supports;
        confidence = 9000;
        parser_rule = rule;
      }
      ∷ [];
  omissions = record { reason = ambiguous_attachment; parser_rule = none } ∷ [];
  digest = zero_bytes 32;
}

validate_argument_receipt-new_example : (validate_argument_receipt as_they_are parse ≡ ok tt) ↔ (
    new_argument as_they_are parse.disposition parse.nodes parse.relations parse.omissions
    ≡ ok parse)
validate_argument_receipt-new_example = validate_argument_receipt-new as_they_are parse

parse-IsTypedArgument : IsTypedArgument parse
unfolding byte_len
parse-IsTypedArgument = record {
  nodes = (
    omega arith,
    (
      record {
        id = omega arith;
        proposition = (omega arith, omega arith);
        confidence = omega arith;
        rule = (omega arith, omega arith);
        span = refl;
      },
      (
        record {
          id = omega arith;
          proposition = (omega arith, tt);
          confidence = omega arith;
          rule = (omega arith, omega arith);
          span = tt;
        },
        tt,
      ),
    ),
  );
  relations = (
    omega arith,
    (
      record {
        id = omega arith;
        from_id = omega arith;
        to_id = omega arith;
        confidence = omega arith;
        rule = (omega arith, omega arith);
      },
      tt,
    ),
  );
  omissions = (omega arith, (tt, tt));
}

argument_preimage-injective_example :
    (argument_preimage parse ≡ argument_preimage parse)
    ↔ (record parse { digest = parse.digest } ≡ parse)
argument_preimage-injective_example =
    argument_preimage-injective parse parse parse-IsTypedArgument parse-IsTypedArgument

abbrev same_text : Text → Text
same_text t = t

parse_argument-Follows_example :
    (r : UserArgumentParseReceipt) × (parse_argument as_they_are same_text
        (codes " свобода всегда полезна. ")
      ≡ ok r)
    × (validate_argument_receipt as_they_are r ≡ ok tt)
    × Follows (rule_for (trim (codes " свобода всегда полезна. "))) r
    × (In
          (
            trim (codes " свобода всегда полезна. "),
            rule_for (trim (codes " свобода всегда полезна. ")),
          )
          reviewed_rules
        ⊎ (r.nodes ≡ []))
parse_argument-Follows_example =
    parse_argument-Follows as_they_are same_text (codes " свобода всегда полезна. ")
