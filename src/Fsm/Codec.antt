-- ===== src/Fsm/Codec.antt =====
-- The persisted form of the conversation state: the discriminants of
-- qxfx0-pipeline/src/conversation_fsm.rs.
use qx_fx0rust.Base.{◌≡◌, some, arith}
use qx_fx0rust.Fsm.{ConversationState, fsm_state_discriminant, restore}

-- What `route_stage` restores from the discriminant of a state is that state.
pub restore-discriminant : (s : ConversationState) → restore (some (fsm_state_discriminant s)) ≡ s
unfolding restore fsm_state_discriminant
restore-discriminant s = ground arith
