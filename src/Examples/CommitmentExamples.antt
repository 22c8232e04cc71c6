-- ===== src/Examples/CommitmentExamples.antt =====
-- The commitment store at concrete claims.
use qx_fx0rust.Base.{ℕ, List, [], ◌∷◌, arith}
use qx_fx0rust.Base.Text.{Text, codes}
use qx_fx0rust.Base.Order.{nat_ord}
use qx_fx0rust.Commitment.{
  FactualClaimPayload, SemanticCommitmentStore, origin_manual, empty_store, quarantine_observation,
  promote_matching_quarantine,
}
use qx_fx0rust.Commitment.Store.{WellFormed, empty_store-WellFormed}
use qx_fx0rust.Commitment.Commit.{quarantine_observation-cases}
use qx_fx0rust.Commitment.Promote.{promote_matching-moves}
use qx_fx0rust.Commitment.Run.{
  StoreOperation, commits, observes, quarantines, promotes, run, run-WellFormed,
}

abbrev claim : FactualClaimPayload ℕ
claim = record {
  statement = codes "freedom is a task";
  confidence = 5;
  origin = origin_manual;
  turn_seq = 3;
  deps = [];
  topic = codes "freedom";
}

-- Names that have no capitals.
abbrev lower : Text → Text
lower s = s

abbrev one_quarantined : SemanticCommitmentStore ℕ
one_quarantined = (quarantine_observation claim (empty_store ℕ)).0

one_quarantined-WellFormed : WellFormed one_quarantined
one_quarantined-WellFormed =
    (quarantine_observation-cases claim (empty_store ℕ) (empty_store-WellFormed ℕ) (omega arith)).0

promote_matching-moves_example :
    WellFormed (promote_matching_quarantine one_quarantined (codes "freedom") 5)
promote_matching-moves_example =
    (promote_matching-moves one_quarantined (codes "freedom") 5 0 one_quarantined-WellFormed).0

abbrev operations : List (StoreOperation ℕ)
operations = commits claim ∷ observes claim ∷ quarantines claim ∷ promotes (codes "freedom") 5 ∷ []

run-WellFormed_example : WellFormed (run lower (empty_store ℕ) operations)
run-WellFormed_example = (run-WellFormed lower operations claim (omega arith)).0
