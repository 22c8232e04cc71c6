-- ===== src/Lib.antt =====
-- qxfx0: a dialogue engine that answers turn by turn over a persisted session state. This library
-- models the parts of it that decide: what state a conversation is in, what a turn may record, who
-- may do what, and when a contradiction may lead to a revision.
--
-- The parts and how they meet. A turn is routed, rendered, guarded and persisted. Routing drives
-- the conversation state machine and picks the move family. The guard stage turns the outcomes of
-- the content gates into a status; the persist stage writes the turn with that status to the
-- governance log, which the replay gate checks. An explicit stance of the system, where it is
-- allowed, goes to a bounded history; a contradiction within that history becomes evidence of an
-- anomaly, the anomaly a recovery decision, and the recovery gate decides on a permit for it.
-- A decision that an outside issuer signs is verified against the turn before it is recorded.
-- Claims of the dialogue live in a store of commitments, delegations of authority in a map, and
-- what the engine knows in a graph of atoms and typed edges with an index at either end.
-- Curated facts make the opinions of a session's perspective, each revision with an episode. A turn
-- is planned: a plan that is ready claims curated facts and argues from them, and where none can be
-- had the plan is a fallback. The plan is observed as a debate of nodes, edges and a ledger, and an
-- argument of the user as a graph of nodes and relations; both receipts are sealed with a digest.
--
-- Which file models which part:
--   Base and its children    the Rust standard library as far as the code uses it: lists, results,
--                            strings as lists of code points, ordered maps, bounded queues,
--                            decimal numerals, bytes and UTF-8, signed integers
--   Moves                    qxfx0-types/src/move_family.rs, illocutionary_force.rs, the modes of
--                            qxfx0-semantic/src/composer.rs, `family_for_mode`
--   Fsm, Fsm/Codec, Reach    qxfx0-pipeline/src/conversation_fsm.rs and `route_stage` of
--                            qxfx0-pipeline/src/stages.rs
--   Governance, its children qxfx0-types/src/governance.rs and `persist_stage` of
--                            qxfx0-pipeline/src/stages.rs
--   Guard                    `guard_stage` of qxfx0-pipeline/src/stages.rs
--   Authority, its children  `AuthorityMap` of qxfx0-governance/src/lib.rs
--   Stance, its children     qxfx0-types/src/stance.rs and the function of
--                            qxfx0-pipeline/src/lib.rs that records an explicit decision
--   Anomaly, its children    qxfx0-self/src/anomaly.rs, qxfx0-types/src/anomaly.rs
--   Recovery, its children   qxfx0-self/src/temporal_recovery.rs
--   Commitment, its children qxfx0-commitment/src/lib.rs and its types in
--                            qxfx0-types/src/system_state.rs
--   Graph, its children      the graph of qxfx0-types/src/atom.rs and
--                            qxfx0-types/src/relation_type.rs
--   Attestation, children    qxfx0-types/src/stance_authority.rs
--   Perspective, children    qxfx0-types/src/perspective.rs, qxfx0-self/src/fact_perspective.rs, and
--                            the facts of qxfx0-semantic/src/fact_model.rs
--   Plan, its children       qxfx0-semantic/src/response_plan.rs, qxfx0-pipeline/src/shadow_plan.rs
--                            and the topics of qxfx0-semantic/src/argued_topics.rs
--   Debate, its children     qxfx0-types/src/debate.rs, qxfx0-pipeline/src/debate.rs
--   Argument, its children   qxfx0-types/src/user_argument.rs, qxfx0-pipeline/src/user_argument.rs
--   Examples and children    the theorems at concrete inputs
--
-- State is passed explicitly: a `&mut self` method is a function that returns the new value with
-- the result of the method. An error that the code formats as a message is a value of an error
-- type. `BTreeMap` is an association list whose keys increase, `VecDeque` and `Vec` are lists. A
-- `usize` that counts turns or entries is a natural number; the next id of the commitment store
-- wraps at 2^64, and its theorems say where that is out of reach; the ids and revisions of a
-- perspective are checked against 2^64, as in the code.
--
-- Bounds and fuel. The two searches of Authority pop names from a stack and skip those that they
-- have visited. They run on fuel `length ds + 2` for a map of `length ds` delegations: a step
-- either pops a name that was visited or visits a new one, and what it pushes is paid for by
-- delegations whose source has not been visited, so the sum of the stack and of the delegations
-- still to be pushed falls with every step. That the searches answer is a part of their theorems.
--
-- Parameters. Floats enter by the comparisons that the code makes of them (Anomaly.Platform) or as
-- a type that no operation reads. Lowercasing is a parameter, and so are SHA-256 and the Ed25519
-- primitives. The outcomes of the content gates are arguments of the guard stage.
--
-- Not modelled: the composition, morphology and rendering of texts, the code registry, the
-- persistence layer and the command line, which are data, text and input and output; timestamps,
-- traces and log messages; sense vectors, the doubt and the deliberation of the engine.
mod Base
pub mod Moves
pub mod Fsm
pub mod Governance
pub mod Authority
pub mod Guard
pub mod Stance
pub mod Anomaly
pub mod Recovery
pub mod Commitment
pub mod Graph
pub mod Attestation
pub mod Perspective
pub mod Plan
pub mod Debate
pub mod Argument
mod Examples
