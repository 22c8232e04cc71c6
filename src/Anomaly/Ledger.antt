-- ===== src/Anomaly/Ledger.antt =====
-- The recovery ledger and the keys of qxfx0-self/src/anomaly.rs.
use mathlib.Core.Bool.{false≢true}
use qx_fx0rust.Base.{
  ◌⊎◌, ℕ, ◌+◌, ◌-◌, ◌≤◌, ◌≡◌, refl, sym, ◌∙◌, ◌↔◌, inl, inr, true, List, [], ◌∷◌, ◌++◌, arith,
  length, drop, any, In, Bool-cases,
}
use qx_fx0rust.Base.Text.{Text, text_eq, text_eq_iff}
use qx_fx0rust.Base.Ring.{Distinct, push-drop, push-Distinct, length-pop_excess, pop_excess}
use qx_fx0rust.Anomaly.{
  AnomalyRecoveryDecision, AnomalyRecoveryLedger, proposed, no_state_transition, new_ledger,
  trace_of, record_decision,
}

-- At most `capacity` distinct keys, for at least one.
pub record IsLedger (l : AnomalyRecoveryLedger) : Type 0 where
  pub room : 1 ≤ l.capacity
  pub bounded : length l.keys ≤ l.capacity
  pub distinct : Distinct l.keys

known_iff : (k : Text) (ks : List Text) → (any (λ j. text_eq j k) ks ≡ true) ↔ In k ks
known_iff k [] = (λ e. cc, λ m. absurd m)
known_iff k (j ∷ ks) = ground (arith, text_eq_iff j k, known_iff k ks)

pub new_ledger-IsLedger : (capacity : ℕ) → IsLedger (new_ledger capacity)
unfolding new_ledger
new_ledger-IsLedger capacity = record { room = omega arith; bounded = omega arith; distinct = tt }

-- Recording a decision keeps the ledger bounded, its keys distinct. A key that the ledger holds
-- gives `NoStateTransition` and changes nothing; any other gives `Proposed`, becomes the newest
-- key, and the oldest key goes exactly if the ledger was full. Either way the trace is that of
-- the decision.
pub record_decision-IsLedger :
    {F : Type 0} (l : AnomalyRecoveryLedger) (d : AnomalyRecoveryDecision F) (digest : Text)
    → IsLedger l
    → IsLedger (record_decision l d digest).0
      × ((In d.idempotency_key l.keys
            × (record_decision l d digest ≡ (l, no_state_transition (trace_of d digest))))
          ⊎ ((¬ In d.idempotency_key l.keys)
              × ((record_decision l d digest).1 ≡ proposed (trace_of d digest))
              × ((record_decision l d digest).0.keys
                  ≡ drop (length l.keys + 1 - l.capacity) (l.keys ++ d.idempotency_key ∷ []))))
unfolding record_decision
record_decision-IsLedger l d digest v =
    elim (Bool-cases (any (λ j. text_eq j d.idempotency_key) l.keys)) [
      | inl known ↦ rw known (v, inl ((known_iff d.idempotency_key l.keys).0 known, refl))
      | inr fresh ↦
          let new : ¬ In d.idempotency_key l.keys =
            λ m. false≢true (sym fresh ∙ (known_iff d.idempotency_key l.keys).1 m) in
          let inv : IsLedger
              (record l { keys = pop_excess l.capacity (l.keys ++ d.idempotency_key ∷ []) }) =
            record {
              room = v.room;
              bounded =
                  omega (arith, length-pop_excess l.capacity (l.keys ++ d.idempotency_key ∷ []));
              distinct = push-Distinct l.capacity l.keys d.idempotency_key v.distinct new;
            } in
          rw fresh (inv, inr (new, refl, push-drop l.capacity l.keys d.idempotency_key))
    ]
