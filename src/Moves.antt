-- ===== src/Moves.antt =====
-- The enumerations that the stages of a turn share: `PropositionMode` of
-- qxfx0-semantic/src/composer.rs, `CanonicalMoveFamily` and `IllocutionaryForce` of
-- qxfx0-types/src, and the routing table of qxfx0-pipeline/src/stages.rs.

-- `PropositionMode`
pub data PropositionMode : Type 0 where
  define assert challenge connect reflect greeting purpose world_cause : PropositionMode

-- `CanonicalMoveFamily`
pub data CanonicalMoveFamily : Type 0 where
  cm_define cm_distinguish cm_ground cm_reflect cm_describe : CanonicalMoveFamily
  cm_purpose cm_hypothesis cm_repair cm_contact cm_connect : CanonicalMoveFamily
  cm_confront cm_deepen cm_next_step cm_clarify cm_anchor : CanonicalMoveFamily

-- `IllocutionaryForce`
pub data IllocutionaryForce : Type 0 where
  if_assert if_offer if_ask if_confront if_contact : IllocutionaryForce

-- `family_for_mode`
unfoldable pub family_for_mode : PropositionMode → CanonicalMoveFamily
family_for_mode challenge = cm_repair
family_for_mode define = cm_define
family_for_mode connect = cm_connect
family_for_mode assert = cm_ground
family_for_mode reflect = cm_reflect
family_for_mode greeting = cm_contact
family_for_mode purpose = cm_purpose
family_for_mode world_cause = cm_hypothesis
