-- ===== src/Sim/Tests.antt =====
-- The simulation at an account of two deposits, a withdrawal and a close that is refused.
use ironstate.Prelude.{
  ℕ, zero, suc, ◌+◌, ◌-◌, ◌==◌, ◌≡◌, refl, Bool, true, arith, List, [], ◌∷◌, some, String,
}
use ironstate.Aggregate.{AggregateRules}
use ironstate.Entropy.Seeded.{SeededEntropy}
use ironstate.Examples.Fixtures.{counter, ctx_entropy, rules, seed}
use ironstate.Examples.Ledger.{Account, Command, deposit, withdraw, close, open_account}
use ironstate.Sim.{
  Harness, FaultSchedule, append_failure, crash_resume, fork_continue, record_run, run_faulted,
}
use ironstate.Sim.Runs.{run_faulted-record_run}

-- The runner counts down the deposits that are left.
sampled : ℕ → Command
sampled zero = close
sampled (suc zero) = withdraw 5
sampled (suc (suc n)) = deposit 5

abbrev harness : Harness rules ℕ ℕ ℕ
harness = record {
  chacha = counter;
  ctx_entropy = ctx_entropy;
  test_ctx = λ entropy now. record { entropy = entropy; actor = 1; now = now };
  digest = λ s. s.balance_cents;
  same_digest = ◌==◌;
  sample = λ s runner. (sampled runner, runner - 1);
}

same : (d : ℕ) → harness.same_digest d d ≡ true
same d = ground arith

run_faulted-record_run_example :
    (commands : List Command) × (digest : ℕ) × (record_run harness seed open_account 3 4
      ≡ some (commands, digest))
    × ((schedule : FaultSchedule)
        → run_faulted harness seed open_account commands schedule ≡ some digest)
run_faulted-record_run_example = run_faulted-record_run harness seed same open_account 3 4 refl

faults : FaultSchedule
faults = record {
  per_step = some append_failure ∷ some (crash_resume 1) ∷ some (fork_continue 1) ∷ [];
}

-- The last command is refused, since the account is not empty.
faulted_run :
    run_faulted harness seed open_account (deposit 5 ∷ deposit 5 ∷ withdraw 5 ∷ close ∷ []) faults
    ≡ some 5
unfolding run_faulted ironstate.Aggregate.new ironstate.Sim.faulted_loop ironstate.Sim.faulted_step
    ironstate.Sim.fault_at faults ironstate.Sim.exec_step ironstate.Replay.head_pos
    ironstate.Memory.head ironstate.Prelude.Map.get ironstate.Memory.new ironstate.Replay.execute
    ironstate.Replay.execute_in ironstate.Replay.prepare ironstate.Aggregate.decide_only
    ironstate.Aggregate.structural_check ironstate.Examples.Ledger.decide ironstate.Aggregate.evolve
    ironstate.Aggregate.kinds_intersect ironstate.Aggregate.kinds_match
    ironstate.Entropy.Seeded.seeded_at ironstate.Memory.append ironstate.Memory.entropy_pos
    ironstate.Memory.events_in ironstate.Memory.events_since ironstate.Memory.fork
    ironstate.Memory.genesis_snapshot ironstate.Memory.head_of ironstate.Memory.latest_in
    ironstate.Memory.latest_snapshot ironstate.Memory.max_by_at ironstate.Memory.position_in
    ironstate.Memory.put_stream ironstate.Memory.snapshot ironstate.Memory.stamp
    ironstate.Memory.stamp_all ironstate.Memory.stream_head ironstate.Memory.stream_mut
    ironstate.Prelude.Map.insert ironstate.Replay.abort ironstate.Replay.base_of
    ironstate.Replay.commit ironstate.Replay.commit_pending ironstate.Replay.draws_or
    ironstate.Replay.replay ironstate.Replay.resume ironstate.Replay.resume_pos
    ironstate.Replay.rewind ironstate.Sim.branched ironstate.Sim.compared ironstate.Sim.crashed
    ironstate.Sim.faulted_from ironstate.Sim.flat ironstate.Sim.forked_off
    ironstate.Sim.injected_append ironstate.Sim.plain ironstate.Sim.retried ironstate.Sim.step_at
    ironstate.Examples.Ledger.evolve
faulted_run = refl
