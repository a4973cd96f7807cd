-- ===== src/Sim.antt =====
-- Deterministic simulation with faults (app/crates/ironstate-journal/src/sim.rs).
-- A panic (`expect`, `assert_eq`) is `none`. The sampled commands, the digest and the context that
-- an aggregate makes for a test are parameters.
pub mod Steps
pub mod Runs
mod Tests
use ironstate.Prelude.{
  ℕ, zero, suc, ◌+◌, Bool, true, false, List, [], ◌∷◌, Option, none, some, Result, ok, err,
  if◌then◌else◌, get_elem?, String,
}
use ironstate.Aggregate.{AggregateRules, Aggregate, InitError, new as new_aggregate}
use ironstate.Entropy.{CtxEntropy}
use ironstate.Entropy.Seeded.{Seed, ChaCha, SeededEntropy, seeded_at}
use ironstate.Journal.{
  Seq, DrawPos, StreamId, Snapshot, JournalError, storage, ExecuteError, rejected, journal, Journal,
  ForkableJournal,
}
use ironstate.Memory.{MemoryJournal, memory, memory_forkable, new as new_memory}
use ironstate.Replay.{head_pos, execute, resume, ResumeError}

pub data Fault : Type 0 where
  append_failure : Fault
  duplicate_delivery : Seq → Fault
  reorder_delivery : (window : ℕ) → Fault
  crash_resume : Seq → Fault
  fork_continue : Seq → Fault
  plant_old_version : (version : ℕ) → Fault

pub record FaultSchedule : Type 0 where
  pub per_step : List (Option Fault)

flat : Option (Option Fault) → Option Fault
flat none = none
flat (some f) = f

-- `FaultSchedule::at`
unfoldable pub fault_at : FaultSchedule → ℕ → Option Fault
unfolding flat
fault_at schedule step = flat (get_elem? schedule.per_step step)

pub record FaultInjector (J : Type 0) : Type 0 where
  pub inner : J
  pub fail_next_append : Bool

module _ {J : Type 0} where
  abbrev pub new : J → FaultInjector J
  new inner = record { inner = inner; fail_next_append = false }

  abbrev pub arm_append_failure : FaultInjector J → FaultInjector J
  arm_append_failure f = record f { fail_next_append = true }

  abbrev pub disarm : FaultInjector J → FaultInjector J
  disarm f = record f { fail_next_append = false }

module _ {R : AggregateRules} {J Tx : Type 0} where
  unfoldable pub injected_append :
      Journal R J Tx
      → FaultInjector J
      → Tx
      → StreamId
      → List R.Event
      → DrawPos
      → FaultInjector J × Tx × Result Seq JournalError
  injected_append jr f tx id events pos =
      if f.fail_next_append
      then (record f { fail_next_append = false }, tx, err (storage "injected append failure"))
      else let (j, tx', r) = jr.append_in f.inner tx id events pos in
        (record f { inner = j }, tx', r)

  -- `impl Journal for FaultInjector`
  abbrev pub injector : Journal R J Tx → Journal R (FaultInjector J) Tx
  injector jr = record {
    append_in = injected_append jr;
    snapshot_in = λ f tx id s.
        let (j, tx', r) = jr.snapshot_in f.inner tx id s in (record f { inner = j }, tx', r);
    entropy_pos = λ f id at. jr.entropy_pos f.inner id at;
    head = λ f id. jr.head f.inner id;
    events_since = λ f id at. jr.events_since f.inner id at;
    latest_snapshot = λ f id. jr.latest_snapshot f.inner id;
  }

  -- `impl ForkableJournal for FaultInjector`
  abbrev pub injected_fork :
      ForkableJournal R J Tx
      → FaultInjector J
      → StreamId
      → Seq
      → Result (FaultInjector J) JournalError
  injected_fork jr f id at = elim (jr.fork f.inner id at) [ ok j ↦ ok (new j) | err e ↦ err e ]

-- What the simulation takes of an aggregate and of foreign code: the context for a test, the digest
-- of a state with its equality, and the command that the runner samples in a state.
pub record Harness (R : AggregateRules) (Rng Digest Runner : Type 0) : Type 0 where
  pub chacha : ChaCha Rng
  pub ctx_entropy : CtxEntropy R.Ctx (SeededEntropy Rng)
  pub test_ctx : SeededEntropy Rng → ℕ → R.Ctx
  pub digest : R.State → Digest
  pub same_digest : Digest → Digest → Bool
  pub sample : R.State → Runner → R.Command × Runner

abbrev pub scenario : StreamId
scenario = "scenario"

module _ {R : AggregateRules} {Rng Digest Runner : Type 0} (h : Harness R Rng Digest Runner)
    (seed : Seed) where
  module _ {J : Type 0} (jr : Journal R J (Unit {0})) where
    -- A context at the position of the head; reading it must not fail.
    step_at :
        J
        → Aggregate R
        → R.Command
        → Result DrawPos JournalError
        → Option (J × Aggregate R × Result Seq (ExecuteError R))
    step_at j a cmd (err e) = none
    step_at j a cmd (ok pos) =
        let ctx = h.test_ctx (seeded_at h.chacha seed pos) 0 in
        let (j', a', ctx', r) = execute jr h.ctx_entropy j scenario a cmd ctx in some (j', a', r)

    unfoldable pub exec_step :
        J → Aggregate R → R.Command → Option (J × Aggregate R × Result Seq (ExecuteError R))
    unfolding step_at
    exec_step j a cmd = step_at j a cmd (head_pos jr j scenario)

  -- `for _ in 0..max_steps` of `ReferenceRun::record`: the commands, and the final state.
  unfoldable pub record_loop :
      ℕ → Runner → MemoryJournal R → Aggregate R → Option (List R.Command × Aggregate R)
  record_loop zero runner j a = some ([], a)
  record_loop (suc n) runner j a = elim (R.machine.is_terminal (R.phase a.state)) [
    | true ↦ some ([], a)
    | false ↦
        let (cmd, runner') = h.sample a.state runner in
        elim (exec_step (memory R) j a cmd) [
          | none ↦ none
          | some (j', a', r) ↦ elim (record_loop n runner' j' a') [
            | none ↦ none
            | some (cmds, last) ↦ some (cmd ∷ cmds, last)
          ]
        ]
  ]

  abbrev Injected : Type 0
  Injected = FaultInjector (MemoryJournal R)

  -- After the armed attempt: a failed append is retried, anything else disarms.
  retried :
      R.Command
      → Option (Injected × Aggregate R × Result Seq (ExecuteError R))
      → Option (Injected × Aggregate R)
  retried cmd none = none
  retried cmd (some (f, a, err (journal e))) = elim (exec_step (injector (memory R)) f a cmd) [
    | none ↦ none
    | some (f', a', r) ↦ some (f', a')
  ]
  retried cmd (some (f, a, err (rejected x))) = some (disarm f, a)
  retried cmd (some (f, a, ok seq)) = some (disarm f, a)

  crashed :
      Option (Injected × Aggregate R × Result Seq (ExecuteError R))
      → Option (Injected × Aggregate R)
  crashed none = none
  crashed (some (f, a, r)) = elim (resume (injector (memory R)) h.chacha f scenario seed) [
    | ok (resumed, entropy) ↦ some (f, resumed)
    | err e ↦ none
  ]

  -- The branch must reproduce the live state.
  compared : Injected → Aggregate R → Result Injected JournalError → Option (Injected × Aggregate R)
  compared f a (err e) = none
  compared f a (ok branch) = elim (resume (injector (memory R)) h.chacha branch scenario seed) [
    | ok (forked, entropy) ↦
        if h.same_digest (h.digest forked.state) (h.digest a.state) then some (f, a) else none
    | err e ↦ none
  ]

  branched : Injected → Aggregate R → Option Seq → Option (Injected × Aggregate R)
  unfolding compared
  branched f a none = some (f, a)
  branched f a (some head) = compared f a (injected_fork (memory_forkable R) f scenario head)

  forked_off :
      Option (Injected × Aggregate R × Result Seq (ExecuteError R))
      → Option (Injected × Aggregate R)
  unfolding branched
  forked_off none = none
  forked_off (some (f, a, r)) = branched f a ((injector (memory R)).head f scenario)

  plain :
      Option (Injected × Aggregate R × Result Seq (ExecuteError R))
      → Option (Injected × Aggregate R)
  plain none = none
  plain (some (f, a, r)) = some (f, a)

  -- One command under one fault.
  unfoldable pub faulted_step :
      Option Fault → R.Command → Injected → Aggregate R → Option (Injected × Aggregate R)
  unfolding retried crashed forked_off plain
  faulted_step (some append_failure) cmd f a =
      retried cmd (exec_step (injector (memory R)) (arm_append_failure f) a cmd)
  faulted_step (some (crash_resume at)) cmd f a = crashed (exec_step (injector (memory R)) f a cmd)
  faulted_step (some (fork_continue at)) cmd f a =
      forked_off (exec_step (injector (memory R)) f a cmd)
  faulted_step _ cmd f a = plain (exec_step (injector (memory R)) f a cmd)

  -- The loop over the numbered commands.
  unfoldable pub faulted_loop :
      FaultSchedule → ℕ → List R.Command → Injected → Aggregate R → Option (Aggregate R)
  faulted_loop schedule step [] f a = some a
  faulted_loop schedule step (cmd ∷ cmds) f a = elim (R.machine.is_terminal (R.phase a.state)) [
    | true ↦ some a
    | false ↦ elim (faulted_step (fault_at schedule step) cmd f a) [
      | none ↦ none
      | some (f', a') ↦ faulted_loop schedule (step + 1) cmds f' a'
    ]
  ]

  -- `Aggregate::new(genesis).expect("initial")` and what follows it in `run_faulted`.
  faulted_from :
      R.State → List R.Command → FaultSchedule → Result (Aggregate R) (InitError R) → Option Digest
  faulted_from genesis commands schedule (err e) = none
  faulted_from genesis commands schedule (ok a) =
      elim (faulted_loop schedule 0 commands (new (new_memory genesis)) a) [
        | none ↦ none
        | some last ↦ some (h.digest last.state)
      ]

  unfoldable pub run_faulted : R.State → List R.Command → FaultSchedule → Option Digest
  unfolding faulted_from
  run_faulted genesis commands schedule =
      faulted_from genesis commands schedule (new_aggregate genesis)

  recorded_from :
      R.State → Runner → ℕ → Result (Aggregate R) (InitError R) → Option (List R.Command × Digest)
  recorded_from genesis runner max_steps (err e) = none
  recorded_from genesis runner max_steps (ok a) =
      elim (record_loop max_steps runner (new_memory genesis) a) [
        | none ↦ none
        | some (commands, last) ↦ some (commands, h.digest last.state)
      ]

  -- `ReferenceRun::record`
  unfoldable pub record_run : R.State → Runner → ℕ → Option (List R.Command × Digest)
  unfolding recorded_from
  record_run genesis runner max_steps =
      recorded_from genesis runner max_steps (new_aggregate genesis)
