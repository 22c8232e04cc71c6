-- ===== src/Examples/GovernanceExamples.antt =====
-- The governance log and the guard stage at concrete events.
use qx_fx0rust.Base.{ℕ, ◌≡◌, refl, ◌↔◌, Bool, true, false, none, some, [], ◌∷◌, arith, All}
use qx_fx0rust.Base.Text.{codes, trim}
use qx_fx0rust.Moves.{cm_define}
use qx_fx0rust.Governance.{
  GovernanceEvent, GovernanceLog, turn_completed, invariant_ok, replay_check, turn_regression,
  persist_stage, is_block_status, is_guard_blocked, decision_status, replay_from, check_turn,
  check_status, TurnDecision,
}
use qx_fx0rust.Governance.Replay.{IsGuarded, Ordered, replay_check_sound}
use qx_fx0rust.Governance.Trim.{guard-persist-clean}
use qx_fx0rust.Guard.{Legitimacy, pass, guard_stage}

abbrev event : ℕ → GovernanceEvent
event n = record {
  turn = n;
  event_type = turn_completed;
  family = cm_define;
  guard_status = invariant_ok;
  timestamp = codes "turn";
}

abbrev history : GovernanceLog
history = event 1 ∷ event 2 ∷ []

abbrev bits : Legitimacy Bool
bits = record { lowest = false; highest = true }

-- A turn that falls is reported at its place.
regression : replay_check (event 3 ∷ event 2 ∷ []) ≡ turn_regression 1 2 3 ∷ []
unfolding replay_check replay_from check_turn check_status is_guard_blocked
regression = refl

history_clean : replay_check history ≡ []
unfolding replay_check replay_from check_turn check_status is_guard_blocked
history_clean = refl

replay_check_sound_example :
    (replay_check history ≡ []) ↔ (Ordered none history × All IsGuarded history)
replay_check_sound_example = replay_check_sound history

abbrev blocked_decision : TurnDecision Bool
blocked_decision = (guard_stage bits 10 [] invariant_ok pass cm_define).last_turn_decision

blocked_by_guard : is_block_status (decision_status (some blocked_decision)) ≡ true
unfolding guard_stage decision_status is_block_status trim
blocked_by_guard = refl

guard-persist-clean_example :
    let g = guard_stage bits 8 (codes "what is freedom?") invariant_ok pass cm_define in
    replay_check (persist_stage 2 (some g.last_turn_decision) g.was_blocked g.family history) ≡ []
guard-persist-clean_example =
    (guard-persist-clean bits 8 (codes "what is freedom?") invariant_ok pass cm_define 2 history
      history_clean (omega arith)).0
