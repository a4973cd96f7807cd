-- ===== src/Metadata/Tests.antt =====
-- The transitions of the account's phase.
use mathlib.Core.List.{Memᴰ}
use ironstate.Prelude.{ℕ, ◌≡◌, ◌↔◌, refl, [], ◌∷◌, ok}
use ironstate.Metadata.{build, edge, edges_of, edges_from}
use ironstate.Machine.{Machine, apply, kind_ok}
use ironstate.Metadata.Legal.{build-apply}
use ironstate.Examples.Ledger.{
  AccountPhase, PhaseStep, open_phase, frozen_phase, closed_phase, freeze_step, unfreeze_step,
  close_step, account_machine, transition,
}

account_transitions :
    (build account_machine).transitions
    ≡ (open_phase, freeze_step, frozen_phase)
      ∷ (open_phase, close_step, closed_phase)
      ∷ (frozen_phase, unfreeze_step, open_phase)
      ∷ (frozen_phase, close_step, closed_phase)
      ∷ []
unfolding build edge edges_of edges_from kind_ok transition
account_transitions = refl

abbrev unwatched : Machine AccountPhase PhaseStep ℕ ℕ
unwatched = record {
  state = frozen_phase;
  on_transition = [];
  on_rejection = [];
  clock = λ w. (w, w);
}

build-apply_example :
    Memᴰ (frozen_phase, close_step, closed_phase) (build account_machine).transitions ↔ (
      Memᴰ frozen_phase account_machine.state_variants
      × Memᴰ close_step account_machine.event_kind.event_variants
      × ((apply account_machine unwatched close_step 0).2 ≡ ok closed_phase))
build-apply_example = build-apply account_machine unwatched close_step 0 closed_phase
