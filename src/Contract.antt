-- ===== src/Contract.antt =====
-- The conformance suite for journals (app/crates/ironstate-journal/src/contract.rs): what it takes,
-- the driver, and the wrapper that fails an append. A panic is `err` with the start of its message.
pub mod Checks
pub mod Suites
pub mod Driven
pub mod Recorded
pub mod Answers
pub mod Passed
pub mod Forked
pub mod Isolated
pub mod Truncated
pub mod Runs
pub mod Sound
mod Tests
use ironstate.Prelude.{
  ℕ, zero, suc, ◌+◌, Bool, true, false, List, [], ◌∷◌, ◌++◌, none, some, Result, ok, err, ◌>>=◌,
  map_err, if◌then◌else◌, String,
}
use ironstate.Aggregate.{AggregateRules, Aggregate, new as new_aggregate}
use ironstate.Entropy.Seeded.{Seed, seeded_at}
use ironstate.Journal.{
  Seq, DrawPos, StreamId, Snapshot, JournalError, storage, ExecuteError, Journal,
}
use ironstate.Memory.{MemoryJournal, memory, new as new_memory}
use ironstate.Replay.{execute}
use ironstate.Sim.{Harness}
use ironstate.StableHash.{to_le_bytes}

abbrev pub Panic : Type 0
Panic = String

-- `r.expect(message)`
abbrev pub expect : {A E : Type 0} → Result A E → Panic → Result A Panic
expect r message = map_err (λ e. message) r

-- `assert!(passed, message)`
abbrev pub assert : Bool → Panic → Result (Unit {0}) Panic
assert passed message = if passed then ok tt else err message

-- The trait `ContractJournal`.
pub record ContractJournal (R : AggregateRules) (J : Type 0) : Type 0 where
  pub journal : Journal R J (Unit {0})
  pub fresh : R.State → J

abbrev pub memory_contract : (R : AggregateRules) → ContractJournal R (MemoryJournal R)
memory_contract R = record { journal = memory R; fresh = new_memory }

-- What the suite takes of an aggregate and of foreign code: that of the simulation, the states that
-- the runner samples, and the runner of the crate `proptest` for a seed.
pub record Strategies (R : AggregateRules) (Rng Digest Runner : Type 0) : Type 0 where
  pub harness : Harness R Rng Digest Runner
  pub initial : Runner → R.State × Runner
  pub runner : List ℕ → Runner

-- `let mut bytes = [0u8; n]`
abbrev pub zeros : ℕ → List ℕ
zeros zero = []
zeros (suc n) = 0 ∷ zeros n

abbrev pub seed_bytes : ℕ → List ℕ
seed_bytes seed = to_le_bytes 8 seed ++ zeros 24

abbrev pub run_seed : ℕ → ℕ → Seed
run_seed seed case = to_le_bytes 8 seed ++ (to_le_bytes 4 case ++ zeros 20)

abbrev pub test_stream : StreamId
test_stream = "contract"

abbrev pub other_stream : StreamId
other_stream = "contract-other"

unfoldable pub genesis_snapshot : {R : AggregateRules} → R.State → Snapshot R
genesis_snapshot state = record { state = state; schema_version = 0; at = 0; entropy_pos = 0 }

module _ {R : AggregateRules} {Rng Digest Runner : Type 0}
    (s : Strategies R Rng Digest Runner) where
  abbrev pub seeded_runner : ℕ → Runner
  seeded_runner seed = s.runner (seed_bytes seed)

  module _ {J : Type 0} (jr : Journal R J (Unit {0})) where
    unfoldable pub head_pos : J → StreamId → Result DrawPos Panic
    head_pos j id = elim (jr.head j id) [
      | none ↦ ok 0
      | some head ↦ expect (jr.entropy_pos j id head) "position at head"
    ]

    -- One command of the loops: sampled, and executed in a context at the head.
    unfoldable pub turn :
        Seed
        → ℕ
        → R.Command
        → J
        → Aggregate R
        → Result (J × Aggregate R × Result Seq (ExecuteError R)) Panic
    unfolding head_pos
    turn seed step cmd j a = do
      pos ← head_pos j test_stream
      let ctx = s.harness.test_ctx (seeded_at s.harness.chacha seed pos) step
      let (j', a', ctx', r) = execute jr s.harness.ctx_entropy j test_stream a cmd ctx
      ok (j', a', r)

    -- `if let Ok(seq) = ... { steps.push((seq, digest128(aggregate.state()))) }`
    pub recorded :
        List (Seq × Digest) → Result Seq (ExecuteError R) → Aggregate R → List (Seq × Digest)
    recorded steps (ok seq) a = steps ++ ((seq, s.harness.digest a.state) ∷ [])
    recorded steps (err e) a = steps

    -- `for step in 0..max_steps` of `drive`, from `step`, with the steps left.
    unfoldable pub drive_loop :
        Seed
        → ℕ
        → ℕ
        → Runner
        → J
        → Aggregate R
        → List (Seq × Digest)
        → Result (J × Aggregate R × List (Seq × Digest) × Runner) Panic
    unfolding turn recorded
    drive_loop seed zero step runner j a steps = ok (j, a, steps, runner)
    drive_loop seed (suc n) step runner j a steps = elim (R.machine.is_terminal (R.phase a.state)) [
      | true ↦ ok (j, a, steps, runner)
      | false ↦
          let (cmd, runner') = s.harness.sample a.state runner in
          turn seed step cmd j a >>= λ t.
          drive_loop seed n (step + 1) runner' t.0 t.1 (recorded steps t.2 t.1)
    ]

  unfoldable pub drive :
      {J : Type 0}
      → ContractJournal R J
      → R.State
      → Seed
      → Runner
      → ℕ
      → Result (J × Aggregate R × List (Seq × Digest) × Runner) Panic
  unfolding drive_loop
  drive cj genesis seed runner max_steps = do
    a ← expect (new_aggregate genesis) "a sampled initial state is in its initial phase"
    drive_loop cj.journal seed max_steps 0 runner (cj.fresh genesis) a []

pub record FailNextAppend (J : Type 0) : Type 0 where
  pub inner : J
  pub armed : Bool

module _ {R : AggregateRules} {J Tx : Type 0} where
  unfoldable pub failing_append :
      Journal R J Tx
      → FailNextAppend J
      → Tx
      → StreamId
      → List R.Event
      → DrawPos
      → FailNextAppend J × Tx × Result Seq JournalError
  failing_append jr f tx id events pos =
      if f.armed
      then (record f { armed = false }, tx, err (storage "injected append failure"))
      else let (j, tx', r) = jr.append_in f.inner tx id events pos in
        (record f { inner = j }, tx', r)

  -- `impl Journal for FailNextAppend`
  abbrev pub failing : Journal R J Tx → Journal R (FailNextAppend J) Tx
  failing jr = record {
    append_in = failing_append jr;
    snapshot_in = λ f tx id snap.
        let (j, tx', r) = jr.snapshot_in f.inner tx id snap in (record f { inner = j }, tx', r);
    entropy_pos = λ f id at. jr.entropy_pos f.inner id at;
    head = λ f id. jr.head f.inner id;
    events_since = λ f id at. jr.events_since f.inner id at;
    latest_snapshot = λ f id. jr.latest_snapshot f.inner id;
  }
