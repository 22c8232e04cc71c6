-- ===== src/Examples/FsmExamples.antt =====
-- The conversation state machine at concrete turns.
use qx_fx0rust.Base.{◌≡◌, refl, ◌∷◌, true, false, none, []}
use qx_fx0rust.Moves.{PropositionMode, define, reflect}
use qx_fx0rust.Fsm.{
  information_gathering, concluding, user_message, ready_to_reason, start_conversation,
  end_conversation, transition, initial_state, fsm_state_discriminant, restore,
  proposition_to_event, RouteInput, route_stage, route_all,
}

full_flow :
    transition
      (transition
        (transition (transition initial_state start_conversation) user_message)
        ready_to_reason)
      end_conversation
    ≡ concluding
unfolding transition initial_state
full_flow = refl

abbrev asks : RouteInput
asks = record { mode = define; has_enough = true; apply_clarification = true }

-- A second greeting does not move a session that has begun.
routed_twice :
    restore (
      route_all none (
        record { mode = PropositionMode.greeting; has_enough = true; apply_clarification = false }
        ∷ record { mode = reflect; has_enough = false; apply_clarification = false }
        ∷ record { mode = PropositionMode.greeting; has_enough = true; apply_clarification = false }
        ∷ []))
    ≡ information_gathering
unfolding route_all route_stage restore transition proposition_to_event fsm_state_discriminant
    initial_state
routed_twice = refl
