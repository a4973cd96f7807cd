-- ===== src/Sim/Runs.antt =====
-- A whole run of the simulation: faults are invisible to outcomes.
use ironstate.Prelude.{
  ℕ, zero, suc, ◌+◌, ◌≡◌, refl, Bool, true, false, inl, inr, List, [], ◌∷◌, Option, some,
  Bool-cases,
}
use ironstate.Aggregate.{AggregateRules, Aggregate, new as new_aggregate, from_state}
use ironstate.Entropy.Seeded.{Seed}
use ironstate.Memory.{MemoryJournal, new as new_memory}
use ironstate.Replay.InSync.{new-InSync}
use ironstate.Sim.{
  Harness, FaultSchedule, fault_at, new, scenario, record_loop, faulted_loop, record_run,
  run_faulted, recorded_from, faulted_from,
}
use ironstate.Sim.Steps.{IsLive, faulted_step-IsLive}

module _ {R : AggregateRules} {Rng Digest Runner : Type 0} (h : Harness R Rng Digest Runner)
    (seed : Seed) (same : (d : Digest) → h.same_digest d d ≡ true) where
  -- The commands that a loop records take a faulted loop to the same aggregate.
  loops :
      (n : ℕ) (runner : Runner) (j : MemoryJournal R) (a : Aggregate R)
      → IsLive j a
      → (commands : List R.Command) × (last : Aggregate R) × (record_loop h seed n runner j a
          ≡ some (commands, last))
        × ((schedule : FaultSchedule) (step : ℕ)
            → faulted_loop h seed schedule step commands (new j) a ≡ some last)
  unfolding record_loop faulted_loop
  loops zero runner j a live = ([], a, refl, λ schedule step. refl)
  loops (suc n) runner j a live = elim (Bool-cases (R.machine.is_terminal (R.phase a.state))) [
    | inl ended ↦ ([], a, rw (ended, record_loop) refl, λ schedule step. refl)
    | inr going ↦
        let cmd = (h.sample a.state runner).0 in
        let (k, b, r, mem, live', faulted) = faulted_step-IsLive h seed same j a cmd live in
        let (commands, last, recorded, same_last) = loops n (h.sample a.state runner).1 k b live' in
        (
          cmd ∷ commands,
          last,
          rw (going, record_loop) (rw (mem, record_loop) (rw (recorded, record_loop) refl)),
          λ schedule step.
              rw (going, faulted_loop)
                (rw (faulted (fault_at schedule step), faulted_loop)
                  (same_last schedule (step + 1))),
        )
  ]

  genesis-IsLive : (genesis : R.State) → IsLive {R = R} (new_memory genesis) (from_state genesis)
  unfolding new_memory ironstate.Memory.stream_mut ironstate.Prelude.Map.get
  genesis-IsLive genesis = record { in_sync = new-InSync genesis scenario; undiscarded = refl }

  -- When digests equal themselves and the genesis state is in the initial phase, the run
  -- without faults, of any length, returns commands and a digest, and under every fault
  -- schedule the faulted run of those commands returns that digest: no failed append, crash or
  -- fork is visible in the outcome, and nothing panics.
  pub run_faulted-record_run :
      (genesis : R.State) (runner : Runner) (max_steps : ℕ)
      → R.machine.eq (R.phase genesis) R.machine.initial ≡ true
      → (commands : List R.Command) × (digest : Digest) × (record_run h seed genesis runner
            max_steps
          ≡ some (commands, digest))
        × ((schedule : FaultSchedule) → run_faulted h seed genesis commands schedule ≡ some digest)
  unfolding record_run run_faulted recorded_from faulted_from new_aggregate
  run_faulted-record_run genesis runner max_steps initial =
      let (commands, last, recorded, same_last) =
        loops max_steps runner (new_memory genesis) (from_state genesis) (genesis-IsLive genesis) in
      (
        commands,
        h.digest last.state,
        rw (initial, recorded_from) (rw (recorded, recorded_from) refl),
        λ schedule. rw (initial, faulted_from) (rw (same_last schedule 0, faulted_from) refl),
      )
