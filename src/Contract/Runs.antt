-- ===== src/Contract/Runs.antt =====
-- The whole suite over the in-memory journal.
use ironstate.Prelude.{ℕ, zero, suc, ◌+◌, ◌*◌, ◌<◌, ◌^◌, ◌≡◌, refl, true, ok, arith}
use ironstate.Aggregate.{AggregateRules}
use ironstate.Entropy.Seeded.{Seed}
use ironstate.Memory.{memory_retainable, new as new_memory, fork}
use ironstate.Contract.{Strategies, memory_contract, test_stream, run_seed, seeded_runner}
use ironstate.Contract.Suites.{
  case_of, cases_loop, run_contract, forkable_loop, run_contract_forkable, retainable_loop,
  run_contract_retainable,
}
use ironstate.Contract.Driven.{Lawful}
use ironstate.Contract.Recorded.{Drove, drive-Drove}
use ironstate.Contract.Answers.{events_since-none, property_7-memory}
use ironstate.Contract.Passed.{
  property_1-IsDriven, property_2-IsDriven, property_3-IsDriven, property_5-IsDriven,
  property_9-IsDriven,
}
use ironstate.Contract.Forked.{property_1_at_each_step-IsDriven, property_4-IsDriven}
use ironstate.Contract.Isolated.{property_6-memory, property_8-memory}
use ironstate.Contract.Truncated.{property_10-IsDriven}

module _ {R : AggregateRules} {Rng Digest Runner : Type 0} (s : Strategies R Rng Digest Runner)
    {spread : ℕ} (laws : Lawful s spread) (max_steps : ℕ) (room : max_steps + 2 ^ 32 < 2 ^ 64)
    (space : max_steps * spread < 2 ^ 64) where
  -- The properties of one case, on what the driver returned.
  case_of-Drove :
      (genesis : R.State) (seed : Seed)
      → R.machine.eq (R.phase genesis) R.machine.initial ≡ true
      → {r : _} (d : Drove s genesis max_steps r)
      → (next : Runner) × (case_of s
            (memory_contract R)
            genesis
            seed
            max_steps
            (d.journal, d.aggregate, d.steps, d.runner)
          ≡ ok next)
  unfolding case_of
  case_of-Drove genesis seed initial d =
      let h = d.driven in
      let (stored, read, same) = events_since-none h.represents h.undiscarded in
      let (after_3, third) = property_3-IsDriven h s laws seed d.runner in
      let (after_6, sixth) = property_6-memory s laws seed after_3 in
      let (after_8, eighth) =
        property_8-memory s laws seed genesis after_6 max_steps space initial in
      (
        after_8,
        rw (property_2-IsDriven h) (
            rw (property_1-IsDriven h s laws seed d.steps d.recorded) (
              rw (property_7-memory laws.named d.journal test_stream stored read) (
                rw third (
                  rw (property_5-IsDriven h s laws seed) (
                    rw (property_9-IsDriven h (omega (arith, d.bounded, room)))
                      (rw sixth eighth)))))),
      )

  cases_loop-memory :
      (n case seed_base : ℕ) (runner : Runner)
      → cases_loop s (memory_contract R) n case max_steps seed_base runner ≡ ok tt
  unfolding cases_loop
  cases_loop-memory zero case seed_base runner = refl
  cases_loop-memory (suc n) case seed_base runner =
      let genesis = (s.initial runner).0 in
      let seed = run_seed seed_base case in
      let initial = laws.starts runner in
      let d = drive-Drove s laws seed genesis (s.initial runner).1 max_steps space initial in
      let (next, passed) = case_of-Drove genesis seed initial d in
      rw (d.returned) (rw passed (cases_loop-memory n (case + 1) seed_base next))

  forkable_loop-memory :
      (n case seed_base : ℕ) (runner : Runner)
      → forkable_loop s (memory_contract R) fork n case max_steps seed_base runner ≡ ok tt
  unfolding forkable_loop
  forkable_loop-memory zero case seed_base runner = refl
  forkable_loop-memory (suc n) case seed_base runner =
      let genesis = (s.initial runner).0 in
      let seed = run_seed seed_base case in
      let initial = laws.starts runner in
      let d = drive-Drove s laws seed genesis (s.initial runner).1 max_steps space initial in
      let (next, passed) = case_of-Drove genesis seed initial d in
      rw (d.returned) (
        rw passed (
          rw (property_1_at_each_step-IsDriven d.driven s laws d.steps d.recorded) (
            rw (property_4-IsDriven d.driven s laws)
              (forkable_loop-memory n (case + 1) seed_base next))))

  retainable_loop-memory :
      (n case seed_base : ℕ) (runner : Runner)
      → retainable_loop s (memory_retainable R) new_memory n case max_steps seed_base runner ≡ ok tt
  unfolding retainable_loop
  retainable_loop-memory zero case seed_base runner = refl
  retainable_loop-memory (suc n) case seed_base runner =
      let genesis = (s.initial runner).0 in
      let seed = run_seed seed_base case in
      let d =
        drive-Drove s laws seed genesis (s.initial runner).1 max_steps space (laws.starts runner) in
      let (l, passed) = property_10-IsDriven d.driven s laws seed in
      rw (d.returned) (rw passed (retainable_loop-memory n (case + 1) seed_base d.runner))

  -- Under the laws on what is sampled (see `Lawful`: among them that a decision draws at most `spread`
  -- words and never moves the position back while there is room for that), with max_steps * spread
  -- and max_steps + 2^32 below 2^64, the suite for
  -- every journal runs over the in-memory journal to its end without a panic.
  pub run_contract-memory :
      (cases seed_base : ℕ) → run_contract s (memory_contract R) cases max_steps seed_base ≡ ok tt
  unfolding run_contract
  run_contract-memory cases seed_base =
      cases_loop-memory cases 0 seed_base (seeded_runner s seed_base)

  -- For sampled commands and states whose initial states are in the initial phase, whose
  -- digests equal themselves, whose contexts and generator keep to their interfaces, whose
  -- event type has a name, and whose decisions draw at most `spread` words and never move the
  -- position back while the 64-bit position has room for that, when max_steps * spread and
  -- max_steps + 2^32 are below 2^64: the whole conformance suite for journals that fork, of any
  -- number of cases and any seed, runs over the in-memory journal to its end without a panic.
  pub run_contract_forkable-memory :
      (cases seed_base : ℕ)
      → run_contract_forkable s (memory_contract R) fork cases max_steps seed_base ≡ ok tt
  unfolding run_contract_forkable
  run_contract_forkable-memory cases seed_base =
      forkable_loop-memory cases 0 seed_base (seeded_runner s seed_base)

  -- For sampled commands and states whose initial states are in the initial phase, whose
  -- digests equal themselves, whose contexts and generator keep to their interfaces, whose
  -- event type has a name, and whose decisions draw at most `spread` words and never move the
  -- position back while the 64-bit position has room for that, when max_steps * spread and
  -- max_steps + 2^32 are below 2^64: the suite on truncation, of any number of cases and any
  -- seed, runs over the in-memory journal to its end without a panic.
  pub run_contract_retainable-memory :
      (cases seed_base : ℕ)
      → run_contract_retainable s (memory_retainable R) new_memory cases max_steps seed_base ≡ ok tt
  unfolding run_contract_retainable
  run_contract_retainable-memory cases seed_base =
      retainable_loop-memory cases 0 seed_base (seeded_runner s seed_base)
