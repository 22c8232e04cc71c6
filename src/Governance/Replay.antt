-- ===== src/Governance/Replay.antt =====
-- `replay_check` of qxfx0-types/src/governance.rs against what it is to verify.
use qx_fx0rust.Base.{
  append-nil_iff, ℕ, suc, ◌≤◌, ◌≡◌, refl, ◌↔◌, true, Option, none, some, List, [], ◌∷◌, ◌++◌, arith,
  All,
}
use qx_fx0rust.Governance.{
  GovernanceEvent, GovernanceLog, is_guard_blocked, is_block_status, check_turn, check_status,
  replay_from, replay_check,
}

-- A blocking event carries a blocking status.
abbrev pub IsGuarded : GovernanceEvent → Type 0
IsGuarded e = is_guard_blocked e.event_type ≡ true → is_block_status e.guard_status ≡ true

-- The turns never fall from one event to the next.
abbrev pub Ordered : Option GovernanceEvent → GovernanceLog → Type 0
Ordered previous [] = Unit {0}
Ordered none (e ∷ es) = Ordered (some e) es
Ordered (some p) (e ∷ es) = (p.turn ≤ e.turn) × Ordered (some e) es

append-eq-nil {ℓ} : {A : Type ℓ} (xs ys : List A) → xs ++ ys ≡ [] → (xs ≡ []) × (ys ≡ [])
append-eq-nil [] ys h = (refl, h)
append-eq-nil (x ∷ xs) ys h = cc

check_status_nil : (i : ℕ) (e : GovernanceEvent) → (check_status i e ≡ []) ↔ IsGuarded e
unfolding check_status
check_status_nil i e = ground arith

check_turn_nil :
    (i : ℕ) (p e : GovernanceEvent) → (check_turn i (some p) e ≡ []) ↔ (p.turn ≤ e.turn)
unfolding check_turn
check_turn_nil i p e = ground arith

pub replay_from_nil :
    (i : ℕ) (p : Option GovernanceEvent) (log : GovernanceLog)
    → (replay_from i p log ≡ []) ↔ (Ordered p log × All IsGuarded log)
unfolding replay_from check_turn
replay_from_nil i none [] = (λ _. (tt, tt), λ _. refl)
replay_from_nil i (some p) [] = (λ _. (tt, tt), λ _. refl)
replay_from_nil i none (e ∷ es) = (
  λ h.
      let parts = (append-nil_iff (check_status i e) (replay_from (suc i) (some e) es)).0 h in
      let rest = (replay_from_nil (suc i) (some e) es).0 parts.1 in
      (rest.0, ((check_status_nil i e).0 parts.0, rest.1)),
  λ h.
      (append-nil_iff (check_status i e) (replay_from (suc i) (some e) es)).1
        ((check_status_nil i e).1 h.1.0, (replay_from_nil (suc i) (some e) es).1 (h.0, h.1.1)),
)
replay_from_nil i (some p) (e ∷ es) =
    let rest = check_status i e ++ replay_from (suc i) (some e) es in
    (
      λ h.
          let outer = (append-nil_iff (check_turn i (some p) e) rest).0 h in
          let parts =
            (append-nil_iff (check_status i e) (replay_from (suc i) (some e) es)).0 outer.1 in
          let later = (replay_from_nil (suc i) (some e) es).0 parts.1 in
          (
            ((check_turn_nil i p e).0 outer.0, later.0),
            ((check_status_nil i e).0 parts.0, later.1),
          ),
      λ h. (append-nil_iff (check_turn i (some p) e) rest).1 (
        (check_turn_nil i p e).1 h.0.0,
        (append-nil_iff (check_status i e) (replay_from (suc i) (some e) es)).1 (
          (check_status_nil i e).1 h.1.0,
          (replay_from_nil (suc i) (some e) es).1 (h.0.1, h.1.1),
        ),
      ),
    )

-- The replay gate reports nothing exactly if the turns never fall along the log and every
-- `GuardBlocked` event has a blocking status.
pub replay_check_sound :
    (log : GovernanceLog) → (replay_check log ≡ []) ↔ (Ordered none log × All IsGuarded log)
unfolding replay_check
replay_check_sound log = replay_from_nil 0 none log
