-- ===== src/Fsm/Reach.antt =====
-- Which conversation states the routing stage can persist.
use qx_fx0rust.Base.{ℕ, ◌≡◌, ◌≢◌, ◌⊎◌, true, false, Option, List, [], ◌∷◌, arith}
use qx_fx0rust.Moves.{PropositionMode, define, cm_clarify, reflect, family_for_mode}
use qx_fx0rust.Fsm.Codec.{restore-discriminant}
use qx_fx0rust.Fsm.{
  ConversationState, ConversationEvent, idle, information_gathering, reasoning, reflecting, active,
  concluding, clarifying, greeting, start_conversation, end_conversation, transition, restore,
  RouteInput, route_stage, proposition_to_event,
}

-- The machine never enters `active` and never returns to `idle`; it enters `concluding` only by
-- `end_conversation`, and leaves it only by `start_conversation`, into `greeting`.
pub transition-graph :
    (s : ConversationState) (e : ConversationEvent)
    → (transition s e ≡ idle → s ≡ idle)
      × (transition s e ≡ active → s ≡ active)
      × (transition s e ≡ concluding → (s ≡ concluding) ⊎ (e ≡ end_conversation))
      × (s ≡ concluding
          → (transition s e ≡ concluding)
            ⊎ ((e ≡ start_conversation) × (transition s e ≡ greeting)))
unfolding transition
transition-graph s e = ground arith

-- The persisted discriminant stands for the next state: a later turn restores what this turn
-- chose. With a clarification that is `clarifying` under `cm_clarify`, whatever the state was, and
-- without one the transition of the restored state by the event of the proposition.
route_stage-restore :
    (d : Option ℕ) (i : RouteInput)
    → (restore (route_stage d i).conversation_state ≡ (route_stage d i).next)
      × (((i.apply_clarification ≡ true)
            × ((route_stage d i).next ≡ clarifying)
            × ((route_stage d i).family ≡ cm_clarify))
          ⊎ ((i.apply_clarification ≡ false)
              × ((route_stage d i).next
                  ≡ transition (restore d) (proposition_to_event i.mode i.has_enough))
              × ((route_stage d i).family ≡ family_for_mode i.mode)))
unfolding route_stage
route_stage-restore d i = ground (arith, restore-discriminant (route_stage d i).next)

-- A discriminant that stands for a state other than `active` and `concluding`.
abbrev IsRouted : Option ℕ → Type 0
IsRouted d = (restore d ≢ active) × (restore d ≢ concluding)

-- Turns that lead from a new session to each working state.
abbrev plain : PropositionMode → RouteInput
plain m = record { mode = m; has_enough = true; apply_clarification = false }

abbrev path_to : ConversationState → List RouteInput
path_to greeting = plain PropositionMode.greeting ∷ []
path_to reasoning = plain define ∷ []
path_to reflecting = plain reflect ∷ []
path_to clarifying = record { mode = define; has_enough = true; apply_clarification = true } ∷ []
path_to information_gathering =
    plain reflect ∷ record { mode = define; has_enough = false; apply_clarification = false } ∷ []
path_to s = []
