-- ===== src/Fsm.antt =====
-- The conversation state machine of qxfx0-pipeline/src/conversation_fsm.rs, and the routing stage
-- of qxfx0-pipeline/src/stages.rs that drives it and persists its state.
pub mod Codec
pub mod Reach
use qx_fx0rust.Base.{
  ℕ, zero, suc, Bool, true, false, Option, none, some, if◌then◌else◌, List, [], ◌∷◌, ◌≡◌, ◌≤◌,
}
use qx_fx0rust.Moves.{
  PropositionMode, define, assert, challenge, connect, reflect, purpose, world_cause,
  CanonicalMoveFamily, cm_clarify, family_for_mode,
}

-- `ConversationState`
pub data ConversationState : Type 0 where
  idle active greeting information_gathering : ConversationState
  reasoning clarifying reflecting concluding : ConversationState

-- `ConversationEvent`
pub data ConversationEvent : Type 0 where
  start_conversation user_message insufficient_info ready_to_reason : ConversationEvent
  needs_more_context challenge_received reflect_request end_conversation : ConversationEvent

-- `initial_state`
unfoldable pub initial_state : ConversationState
initial_state = idle

-- `transition`: a pair with no row leaves the state alone.
unfoldable pub transition : ConversationState → ConversationEvent → ConversationState
transition idle start_conversation = greeting
transition idle user_message = greeting
transition idle ready_to_reason = reasoning
transition idle challenge_received = reasoning
transition idle insufficient_info = clarifying
transition idle reflect_request = reflecting
transition greeting user_message = information_gathering
transition greeting reflect_request = reflecting
transition information_gathering insufficient_info = clarifying
transition clarifying user_message = information_gathering
transition information_gathering ready_to_reason = reasoning
transition reasoning needs_more_context = information_gathering
transition reasoning challenge_received = reasoning
transition reasoning reflect_request = reflecting
transition reflecting user_message = information_gathering
transition reflecting reflect_request = reflecting
transition reasoning end_conversation = concluding
transition active end_conversation = concluding
transition concluding start_conversation = greeting
transition state event = state

-- `is_active`
unfoldable pub is_active : ConversationState → Bool
is_active active = true
is_active greeting = true
is_active information_gathering = true
is_active reasoning = true
is_active clarifying = true
is_active reflecting = true
is_active state = false

-- `proposition_to_event`
unfoldable pub proposition_to_event : PropositionMode → Bool → ConversationEvent
proposition_to_event challenge has_enough_info = challenge_received
proposition_to_event reflect true = reflect_request
proposition_to_event reflect false = user_message
proposition_to_event define true = ready_to_reason
proposition_to_event connect true = ready_to_reason
proposition_to_event define false = user_message
proposition_to_event connect false = user_message
proposition_to_event assert true = ready_to_reason
proposition_to_event purpose true = ready_to_reason
proposition_to_event world_cause true = ready_to_reason
proposition_to_event PropositionMode.greeting has_enough_info = start_conversation
proposition_to_event purpose false = user_message
proposition_to_event world_cause false = user_message
proposition_to_event assert false = user_message

-- `fsm_state_discriminant`
unfoldable pub fsm_state_discriminant : ConversationState → ℕ
fsm_state_discriminant idle = 0
fsm_state_discriminant active = 1
fsm_state_discriminant greeting = 2
fsm_state_discriminant information_gathering = 3
fsm_state_discriminant reasoning = 4
fsm_state_discriminant clarifying = 5
fsm_state_discriminant reflecting = 6
fsm_state_discriminant concluding = 7

-- `fsm_state_from_discriminant`
unfoldable pub fsm_state_from_discriminant : ℕ → Option ConversationState
fsm_state_from_discriminant zero = some idle
fsm_state_from_discriminant (suc zero) = some active
fsm_state_from_discriminant (suc (suc zero)) = some greeting
fsm_state_from_discriminant (suc (suc (suc zero))) = some information_gathering
fsm_state_from_discriminant (suc (suc (suc (suc zero)))) = some reasoning
fsm_state_from_discriminant (suc (suc (suc (suc (suc zero))))) = some clarifying
fsm_state_from_discriminant (suc (suc (suc (suc (suc (suc zero)))))) = some reflecting
fsm_state_from_discriminant (suc (suc (suc (suc (suc (suc (suc zero))))))) = some concluding
fsm_state_from_discriminant (suc (suc (suc (suc (suc (suc (suc (suc d)))))))) = none

-- The state that `route_stage` restores from the persisted field; an unknown discriminant is
-- reported and reset. The warning that the stage logs is left out.
unfoldable pub restore : Option ℕ → ConversationState
unfolding initial_state fsm_state_from_discriminant
restore none = initial_state
restore (some d) = elim (fsm_state_from_discriminant d) [ some s ↦ s | none ↦ initial_state ]

-- One turn as `route_stage` sees it: the mode, whether the subject is known, and whether the
-- caller asks for a clarification.
pub record RouteInput : Type 0 where
  pub mode : PropositionMode
  pub has_enough : Bool
  pub apply_clarification : Bool

-- `route_stage`: the new persisted discriminant, the family and the next state.
pub record Routed : Type 0 where
  pub conversation_state : Option ℕ
  pub family : CanonicalMoveFamily
  pub next : ConversationState

unfoldable pub route_stage : Option ℕ → RouteInput → Routed
route_stage conversation_state i =
    let event = proposition_to_event i.mode i.has_enough in
    let current = restore conversation_state in
    let next = if i.apply_clarification then clarifying else transition current event in
    record {
      conversation_state = some (fsm_state_discriminant next);
      family = if i.apply_clarification then cm_clarify else family_for_mode i.mode;
      next = next;
    }

-- The turns of a session, each from the state that the turn before it persisted.
unfoldable pub route_all : Option ℕ → List RouteInput → Option ℕ
route_all persisted [] = persisted
route_all persisted (i ∷ is) = route_all (route_stage persisted i).conversation_state is
