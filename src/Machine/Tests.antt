-- ===== src/Machine/Tests.antt =====
-- The theorems on machines, at the account's phase; the world counts the calls of listeners.
use ironstate.Prelude.{
  ℕ, ◌+◌, ◌*◌, ◌≡◌, refl, true, false, [], ◌∷◌, some, ok, err, value, failure, is_some,
}
use ironstate.Machine.{
  Machine, TransitionRecord, TransitionError, no_transition, add_transition_listener,
  add_rejection_listener, apply, could_apply, why_not, peek_transition, kind_ok, fire_transition,
  into_event, error_state,
}
use ironstate.Machine.Probes.{apply-probes, apply-ok, apply-err}
use ironstate.Examples.Ledger.{
  AccountPhase, PhaseStep, open_phase, frozen_phase, freeze_step, unfreeze_step, account_machine,
  transition,
}

-- An instant is the number of calls so far; each listener adds one, and the second of two adds ten.
abbrev watched : Machine AccountPhase PhaseStep ℕ ℕ
watched = record {
  state = open_phase;
  on_transition = (λ r w. w + 1) ∷ (λ r w. w + 10) ∷ [];
  on_rejection = (λ e w. w + 100) ∷ [];
  clock = λ w. (w, w);
}

frozen_now : (apply account_machine watched freeze_step 0).2 ≡ ok frozen_phase
unfolding apply transition
frozen_now = refl

told : (apply account_machine watched freeze_step 0).1 ≡ 11
unfolding apply transition fire_transition
told = refl

refused_now :
    (apply account_machine watched unfreeze_step 0).2 ≡ err (no_transition open_phase unfreeze_step)
unfolding apply transition
refused_now = refl

apply-probes_example :
    (peek_transition account_machine watched freeze_step
      ≡ value (apply account_machine watched freeze_step 0).2)
    × (why_not account_machine watched freeze_step
        ≡ failure (apply account_machine watched freeze_step 0).2)
    × (could_apply account_machine watched freeze_step
        ≡ is_some (value (apply account_machine watched freeze_step 0).2))
apply-probes_example = apply-probes account_machine watched freeze_step 0

-- A further listener of transitions doubles the count and adds the time, one of rejections triples.
abbrev note : TransitionRecord AccountPhase PhaseStep ℕ → ℕ → ℕ
note r w = w * 2 + r.timestamp

abbrev note_error : TransitionError AccountPhase PhaseStep → ℕ → ℕ
note_error x w = w * 3

apply-ok_example :
    (account_machine.is_terminal open_phase ≡ false)
    × (kind_ok account_machine (account_machine.restriction open_phase) freeze_step ≡ true)
    × (account_machine.transition open_phase freeze_step ≡ some frozen_phase)
    × ((apply account_machine watched freeze_step 0).0 ≡ record watched { state = frozen_phase })
    × ((apply account_machine (record watched { on_transition = [] }) freeze_step 0).1 ≡ 0)
    × ((apply account_machine (add_transition_listener watched note) freeze_step 0).1
        ≡ note
            (record {
              from_state = open_phase;
              event = freeze_step;
              to_state = frozen_phase;
              timestamp = 0;
            })
            (apply account_machine watched freeze_step 0).1)
    × ((apply account_machine (add_rejection_listener watched note_error) freeze_step 0).1
        ≡ (apply account_machine watched freeze_step 0).1)
apply-ok_example =
    apply-ok account_machine watched freeze_step 0 frozen_phase note note_error frozen_now

apply-err_example :
    ((apply account_machine watched unfreeze_step 0).0 ≡ watched)
    × (into_event (no_transition open_phase unfreeze_step) ≡ unfreeze_step)
    × (error_state (no_transition open_phase unfreeze_step) ≡ open_phase)
    × ((apply account_machine (record watched { on_rejection = [] }) unfreeze_step 0).1 ≡ 0)
    × ((apply account_machine (add_rejection_listener watched note_error) unfreeze_step 0).1
        ≡ note_error
            (no_transition open_phase unfreeze_step)
            (apply account_machine watched unfreeze_step 0).1)
    × ((apply account_machine (add_transition_listener watched note) unfreeze_step 0).1
        ≡ (apply account_machine watched unfreeze_step 0).1)
apply-err_example =
    apply-err account_machine watched unfreeze_step 0 (no_transition open_phase unfreeze_step)
      note_error note refused_now
