-- ===== src/Governance/Trim.antt =====
-- What trimming and the persist stage do to a governance log (qxfx0-types/src/governance.rs and
-- qxfx0-pipeline/src/stages.rs).
use qx_fx0rust.Base.{
  ℕ, zero, suc, ◌+◌, ◌-◌, ◌≤◌, ◌≡◌, refl, Bool, true, Option, none, some, List, [], ◌∷◌, ◌++◌,
  arith, All, All-append, All-drop, length, drop, length-append, length-drop, min, ap, sym, ◌∙◌,
  ◌<◌, ltb, Bool-cases, inl, inr,
}
use qx_fx0rust.Base.Text.{Text}
use qx_fx0rust.Moves.{CanonicalMoveFamily}
use qx_fx0rust.Governance.{
  GovernanceEvent, GovernanceLog, GuardStatus, TurnDecision, persisted_event, append, trim, recent,
  replay_check, persist_stage, persisted_type, decision_status, is_block_status, is_warn_status,
  is_guard_blocked,
}
use qx_fx0rust.Guard.{Legitimacy, QualityVerdict, guard_stage, guard_stage-blocks}
use qx_fx0rust.Governance.Replay.{IsGuarded, Ordered, replay_check_sound}

trim-drop : (log : GovernanceLog) (cap : ℕ) → trim log cap ≡ drop (length log - cap) log
unfolding trim
trim-drop log cap = elim (Bool-cases (ltb cap (length log))) [
  | inl more ↦ rw more
  | inr fits ↦ let e : length log - cap ≡ 0 = ground arith in rw (fits, e)
]

drop-suffix {ℓ} : {A : Type ℓ} (n : ℕ) (xs : List A) → (old : List A) × (old ++ drop n xs ≡ xs)
drop-suffix zero xs = ([], refl)
drop-suffix (suc n) [] = ([], refl)
drop-suffix (suc n) (x ∷ xs) = let rest = drop-suffix n xs in (x ∷ rest.0, ap (◌∷◌ x) rest.1)

-- Trimming keeps the most recent entries: the log is what was dropped followed by the result,
-- which has the length of the log or the cap, whichever is less, and is what `recent` returns.
trim-keeps_recent :
    (log : GovernanceLog) (cap : ℕ)
    → (length (trim log cap) ≡ min cap (length log))
      × (trim log cap ≡ recent log cap)
      × ((old : GovernanceLog) × (old ++ trim log cap ≡ log))
trim-keeps_recent log cap = rw (trim-drop log cap) (
  omega (arith, length-drop (length log - cap) log),
  unfold recent in refl,
  drop-suffix (length log - cap) log,
)

-- Every event of the log is of turn `n` at most.
abbrev pub UpTo : ℕ → GovernanceLog → Type 0
UpTo n = All (λ e. e.turn ≤ n)

Ordered-weaken :
    (p : Option GovernanceEvent) (log : GovernanceLog) → Ordered p log → Ordered none log
Ordered-weaken none [] h = tt
Ordered-weaken (some p) [] h = tt
Ordered-weaken none (e ∷ es) h = h
Ordered-weaken (some p) (e ∷ es) h = h.1

Ordered-drop :
    (n : ℕ) (p : Option GovernanceEvent) (log : GovernanceLog)
    → Ordered p log
    → Ordered none (drop n log)
Ordered-drop zero p log h = Ordered-weaken p log h
Ordered-drop (suc n) p [] h = tt
Ordered-drop (suc n) none (e ∷ es) h = Ordered-drop n (some e) es h
Ordered-drop (suc n) (some p) (e ∷ es) h = Ordered-drop n (some e) es h.1

Ordered-append :
    (p : Option GovernanceEvent) (log : GovernanceLog) (e : GovernanceEvent)
    → Ordered p log
    → UpTo e.turn log
    → Ordered p (e ∷ [])
    → Ordered p (append log e)
unfolding append
Ordered-append p [] e h u b = b
Ordered-append none (q ∷ qs) e h u b = Ordered-append (some q) qs e h u.1 (u.0, tt)
Ordered-append (some p) (q ∷ qs) e h u b = (h.0, Ordered-append (some q) qs e h.1 u.1 (u.0, tt))

persisted_type_blocks : (b w : Bool) → is_guard_blocked (persisted_type b w) ≡ b
unfolding is_guard_blocked persisted_type
persisted_type_blocks b w = ground arith

-- What appending a guarded event of the newest turn does to a clean log.
append_clean :
    (log : GovernanceLog) (e : GovernanceEvent) (cap : ℕ)
    → replay_check log ≡ []
    → UpTo e.turn log
    → IsGuarded e
    → (replay_check (trim (append log e) cap) ≡ []) × UpTo e.turn (trim (append log e) cap)
append_clean log e cap clean u g =
    let facts = (replay_check_sound log).0 clean in
    let longer = append log e in
    let cut = length longer - cap in
    let guarded : All IsGuarded longer =
      unfold append in All-append IsGuarded log (e ∷ []) facts.1 (g, tt) in
    let upto : UpTo e.turn longer =
      unfold append in All-append (λ x. x.turn ≤ e.turn) log (e ∷ []) u (omega arith, tt) in
    rw (trim-drop longer cap) (
      (replay_check_sound (drop cut longer)).1 (
        Ordered-drop cut none longer (Ordered-append none log e facts.0 u tt),
        All-drop IsGuarded cut longer guarded,
      ),
      All-drop (λ x. x.turn ≤ e.turn) cut longer upto,
    )

drop_last {ℓ} :
    {A : Type ℓ} (n : ℕ) (xs : List A) (a : A)
    → n ≤ length xs
    → (old : List A) × (drop n (xs ++ a ∷ []) ≡ old ++ a ∷ [])
drop_last zero xs a h = (xs, refl)
drop_last (suc n) [] a h = absurd (omega arith)
drop_last (suc n) (x ∷ xs) a h = drop_last n xs a (omega arith)

trim-append_last :
    (log : GovernanceLog) (e : GovernanceEvent) (cap : ℕ)
    → 0 < cap
    → (old : GovernanceLog) × (trim (append log e) cap ≡ old ++ e ∷ [])
unfolding append
trim-append_last log e cap h =
    rw (trim-drop (log ++ e ∷ []) cap)
      (drop_last (length (log ++ e ∷ []) - cap) log e (omega (arith, length-append log (e ∷ []))))

-- A clean log whose turns do not pass the next turn stays clean, and within 10000 events, through
-- the persist stage, if the guard reports a blocking status whenever it blocks the turn. The last
-- event is that of the turn, and is `GuardBlocked` exactly if the turn was blocked.
persist_stage-clean :
    {F : Type 0} (turn_count : ℕ) (decision : Option (TurnDecision F)) (was_blocked : Bool)
    (family : CanonicalMoveFamily) (log : GovernanceLog)
    → replay_check log ≡ []
    → UpTo (turn_count + 1) log
    → (was_blocked ≡ true → is_block_status (decision_status decision) ≡ true)
    → let log' = persist_stage turn_count decision was_blocked family log in
      let e = persisted_event turn_count decision was_blocked family in
      (replay_check log' ≡ [])
      × UpTo (turn_count + 1) log'
      × (length log' ≤ 10000)
      × ((old : GovernanceLog) × (log' ≡ old ++ e ∷ []))
      × (e.turn ≡ turn_count + 1)
      × (is_guard_blocked e.event_type ≡ was_blocked)
unfolding persist_stage persisted_event
persist_stage-clean turn_count decision was_blocked family log clean upto blocks =
    let e = persisted_event turn_count decision was_blocked family in
    let is = persisted_type_blocks was_blocked (is_warn_status (decision_status decision)) in
    let kept = append_clean log e 10000 clean upto (λ b. blocks (sym is ∙ b)) in
    (
      kept.0,
      kept.1,
      omega (arith, (trim-keeps_recent (append log e) 10000).0),
      trim-append_last log e 10000 (omega arith),
      refl,
      is,
    )

-- On a clean log whose events are of turns up to the next one, `turn_count + 1`, the guard stage
-- followed by the persist stage leaves a clean log, again with turns up to that one, and of at most
-- 10000 events, whatever the gates report.
pub guard-persist-clean :
    {F : Type 0} (l : Legitimacy F) (max_input_length : ℕ) (raw_input : Text) (safety : GuardStatus)
    (verdict : QualityVerdict) (family : CanonicalMoveFamily) (turn_count : ℕ) (log : GovernanceLog)
    → replay_check log ≡ []
    → UpTo (turn_count + 1) log
    → let g = guard_stage l max_input_length raw_input safety verdict family in
      let log' = persist_stage turn_count (some g.last_turn_decision) g.was_blocked g.family log in
      (replay_check log' ≡ []) × UpTo (turn_count + 1) log' × (length log' ≤ 10000)
guard-persist-clean l limit raw safety verdict family turn_count log clean upto =
    let g = guard_stage l limit raw safety verdict family in
    let r =
      persist_stage-clean turn_count (some g.last_turn_decision) g.was_blocked g.family log clean
        upto (λ b. (guard_stage-blocks l limit raw safety verdict family).0 ∙ b) in
    (r.0, r.1, r.2)
