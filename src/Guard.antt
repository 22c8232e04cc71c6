-- ===== src/Guard.antt =====
-- The guard stage of qxfx0-pipeline/src/stages.rs. The two content gates of qxfx0-guard/src/lib.rs
-- enter by their outcomes: the safety status and the quality verdict are arguments.
use qx_fx0rust.Base.{ℕ, Bool, true, false, ◌||◌, some, if◌then◌else◌, ltb, length, ◌≡◌, arith}
use qx_fx0rust.Base.Text.{Text, codes, is_blank}
use qx_fx0rust.Moves.{CanonicalMoveFamily, cm_repair, if_assert}
use qx_fx0rust.Governance.{
  GuardStatus, invariant_block, blocked, allowed, TurnDecision, is_block_status, is_warn_status,
  decision_status,
}

-- `QualityVerdict` of qxfx0-guard/src/lib.rs
pub data QualityVerdict : Type 0 where
  pass : QualityVerdict
  block : Text → QualityVerdict

-- The float constants 0.0 and 1.0 that the stage writes.
pub record Legitimacy (F : Type 0) : Type 0 where
  pub lowest : F
  pub highest : F

abbrev is_quality_block : QualityVerdict → Bool
is_quality_block pass = false
is_quality_block (block reason) = true

-- What the stage leaves: the decision in the state, and the fields of `GuardedTurnContext` that
-- the persist stage reads.
pub record Guarded (F : Type 0) : Type 0 where
  pub last_turn_decision : TurnDecision F
  pub family : CanonicalMoveFamily
  pub status : GuardStatus
  pub was_blocked : Bool

abbrev refused : {F : Type 0} → Legitimacy F → GuardStatus → Guarded F
refused l status = record {
  last_turn_decision = record {
    family = cm_repair;
    force = if_assert;
    guard_status = status;
    legitimacy = l.lowest;
  };
  family = cm_repair;
  status = status;
  was_blocked = true;
}

-- `matches!(status, InvariantBlock(_))`
abbrev is_invariant_block : GuardStatus → Bool
is_invariant_block (invariant_block reason) = true
is_invariant_block other = false

abbrev by_verdict :
    {F : Type 0} → Legitimacy F → GuardStatus → CanonicalMoveFamily → QualityVerdict → Guarded F
by_verdict l safety family (block reason) = refused l (blocked reason)
by_verdict l safety family pass =
    let status = if is_warn_status safety then safety else allowed in
    record {
      last_turn_decision = record {
        family = family;
        force = if_assert;
        guard_status = status;
        legitimacy = l.highest;
      };
      family = family;
      status = status;
      was_blocked = false;
    }

-- `guard_stage`: input checks, the safety status of the response, then its quality verdict.
unfoldable pub guard_stage :
    {F : Type 0}
    → Legitimacy F
    → ℕ
    → Text
    → GuardStatus
    → QualityVerdict
    → CanonicalMoveFamily
    → Guarded F
guard_stage l max_input_length raw_input safety verdict family =
    if is_blank raw_input || ltb max_input_length (length raw_input)
    then refused l (
        invariant_block
          (if is_blank raw_input then codes "пустой ввод" else codes "слишком длинный ввод"))
    else if is_invariant_block safety
    then refused l safety
    else by_verdict l safety family verdict

-- The stage blocks the turn exactly if the input is blank or too long, the safety status is a
-- block, or the quality gate blocks; and it blocks exactly if the status that it stores in the
-- decision is a blocking one, in which case the family is that of a repair.
pub guard_stage-blocks :
    {F : Type 0} (l : Legitimacy F) (max_input_length : ℕ) (raw_input : Text) (safety : GuardStatus)
    (verdict : QualityVerdict) (family : CanonicalMoveFamily)
    → let g = guard_stage l max_input_length raw_input safety verdict family in
      (is_block_status (decision_status (some g.last_turn_decision)) ≡ g.was_blocked)
      × (g.last_turn_decision.family ≡ g.family)
      × (g.family ≡ (if g.was_blocked then cm_repair else family))
      × (g.was_blocked ≡ (
          is_blank raw_input
          || ltb max_input_length (length raw_input)
          || is_invariant_block safety
          || is_quality_block verdict))
unfolding guard_stage is_block_status decision_status is_warn_status
guard_stage-blocks l max_input_length raw_input safety verdict family = ground arith
