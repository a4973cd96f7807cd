-- ===== src/Contract/Suites.antt =====
-- The properties for which the suite drives a journal of its own, and the entry points
-- (app/crates/ironstate-journal/src/contract.rs).
use ironstate.Prelude.{
  ℕ, zero, suc, ◌+◌, ◌-◌, Bool, true, false, ◌&&◌, List, Option, none, some, Result, ok, err, ◌>>=◌,
  ◌==◌, length,
}
use ironstate.Aggregate.{AggregateRules, Aggregate, new as new_aggregate}
use ironstate.Entropy.Seeded.{Seed, seeded_at, draws}
use ironstate.Journal.{
  Seq, DrawPos, StreamId, Snapshot, JournalError, unknown_seq, ExecuteError, rejected, journal,
  RetainableJournal,
}
use ironstate.Replay.{execute, resume, draws_or}
use ironstate.Contract.{
  Panic, expect, assert, ContractJournal, Strategies, turn, drive, run_seed, seeded_runner,
  test_stream, other_stream, FailNextAppend, failing,
}
use ironstate.Contract.Checks.{
  midpoint, positions, property_1, property_1_at_each_step, property_2, property_3, property_4,
  property_5, property_7, property_9,
}

-- `head == before_head`
abbrev pub same_head : Option Seq → Option Seq → Bool
same_head none none = true
same_head (some a) (some b) = a == b
same_head _ _ = false

-- `.map(|s| (s.at, s.entropy_pos))`, compared.
abbrev pub same_mark : {R : AggregateRules} → Option (Snapshot R) → Option (Snapshot R) → Bool
same_mark none none = true
same_mark (some a) (some b) = (a.at == b.at) && (a.entropy_pos == b.entropy_pos)
same_mark _ _ = false

abbrev pub is_unknown : Result DrawPos JournalError → Bool
is_unknown (err (unknown_seq at)) = true
is_unknown _ = false

module _ {R : AggregateRules} {Rng Digest Runner : Type 0}
    (s : Strategies R Rng Digest Runner) where
  abbrev now : Seed → ℕ → R.Ctx
  now seed pos = s.harness.test_ctx (seeded_at s.harness.chacha seed pos) 0

  module _ {J : Type 0} (cj : ContractJournal R J) where
    -- What an attempt of property 6 ended in: `none` to try again.
    unfoldable pub attempted :
        Digest
        → FailNextAppend J × Aggregate R × R.Ctx × Result Seq (ExecuteError R)
        → Result (Option (FailNextAppend J × Aggregate R)) Panic
    attempted before (f, a, ctx, err (journal e)) = do
      _ ←
          assert (same_head ((failing cj.journal).head f test_stream) none)
            "[proven] property 6: a failed append journaled something"
      _ ←
          assert (s.harness.same_digest (s.harness.digest a.state) before)
            "[proven] property 6: a failed append mutated the state"
      _ ←
          assert (draws_or s.harness.ctx_entropy 0 ctx == 0)
            "[proven] property 6: a failed append left the entropy advanced"
      ok none
    attempted before (f, a, ctx, err (rejected x)) = ok (some (f, a))
    attempted before (f, a, ctx, ok seq) = err "FailNextAppend was armed"

    -- `for _ in 0..8`
    unfoldable pub attempts :
        Seed → ℕ → Digest → FailNextAppend J → Aggregate R → Runner → Result Runner Panic
    unfolding attempted
    attempts seed zero before f a runner = ok runner
    attempts seed (suc n) before f a runner = elim (R.machine.is_terminal (R.phase a.state)) [
      | true ↦ ok runner
      | false ↦
          let (cmd, runner') = s.harness.sample a.state runner in
          attempted before
            (execute (failing cj.journal) s.harness.ctx_entropy f test_stream a cmd (now seed 0))
          >>= λ o. elim o [
            | none ↦ ok runner'
            | some (f', a') ↦ attempts seed n before f' a' runner'
          ]
    ]

    unfoldable pub property_6 : Seed → Runner → Result Runner Panic
    unfolding attempts
    property_6 seed runner = do
      let (genesis, runner') = s.initial runner
      a ← expect (new_aggregate genesis) "initial"
      let f : FailNextAppend J = record { inner = cj.fresh genesis; armed = true }
      attempts seed 8 (s.harness.digest a.state) f a runner'

    -- `for step in 0..max_steps` of property 8.
    unfoldable pub undisturbed :
        Seed → ℕ → ℕ → Option Seq → J → Aggregate R → Runner → Result (J × Runner) Panic
    undisturbed seed zero step before j a runner = ok (j, runner)
    undisturbed seed (suc n) step before j a runner =
        elim (R.machine.is_terminal (R.phase a.state)) [
          | true ↦ ok (j, runner)
          | false ↦
              let (cmd, runner') = s.harness.sample a.state runner in
              turn s cj.journal seed step cmd j a >>= λ t.
              assert (same_head (cj.journal.head t.0 other_stream) before)
                "[proven] property 8: an append to one stream moved another's head"
              >>= λ _. undisturbed seed n (step + 1) before t.0 t.1 runner'
        ]

    unfoldable pub property_8 : R.State → Seed → Runner → ℕ → Result Runner Panic
    unfolding undisturbed
    property_8 genesis seed runner max_steps = do
      a ← expect (new_aggregate genesis) "a sampled initial state is in its initial phase"
      let j = cj.fresh genesis
      let jr = cj.journal
      before_events ← expect (jr.events_since j other_stream none) "events"
      before_snapshot ← expect (jr.latest_snapshot j other_stream) "snapshot"
      (j', runner') ← undisturbed seed max_steps 0 (jr.head j other_stream) j a runner
      events ← expect (jr.events_since j' other_stream none) "events"
      _ ←
          assert (length events == length before_events)
            "[proven] property 8: an append to one stream added events to another"
      pos ← expect (jr.entropy_pos j' other_stream 0) "genesis position"
      _ ← assert (pos == 0) "[proven] property 8: an append to one stream moved another's entropy"
      snapshot ← expect (jr.latest_snapshot j' other_stream) "snapshot"
      _ ←
          assert (same_mark snapshot before_snapshot)
            "[proven] property 8: an append to one stream moved another's snapshot"
      ok runner'

    -- The properties of one case that both entry points check, in order.
    unfoldable pub case_of :
        R.State → Seed → ℕ → J × Aggregate R × List (Seq × Digest) × Runner → Result Runner Panic
    case_of genesis seed max_steps (j, live, steps, runner) = do
      _ ← property_2 cj.journal j test_stream
      _ ← property_1 s cj.journal j test_stream genesis steps
      _ ← property_7 cj.journal j test_stream
      runner' ← property_3 s cj.journal j test_stream live seed runner
      _ ← property_5 s cj.journal j test_stream seed
      _ ← property_9 cj.journal j test_stream
      runner'' ← property_6 seed runner'
      property_8 genesis seed runner'' max_steps

    -- `for case in 0..cases`
    unfoldable pub cases_loop : ℕ → ℕ → ℕ → ℕ → Runner → Result (Unit {0}) Panic
    unfolding case_of
    cases_loop zero case max_steps seed_base runner = ok tt
    cases_loop (suc n) case max_steps seed_base runner =
        let (genesis, runner') = s.initial runner in
        let seed = run_seed seed_base case in
        drive s cj genesis seed runner' max_steps >>= λ d.
        case_of genesis seed max_steps d >>= λ r. cases_loop n (case + 1) max_steps seed_base r

    unfoldable pub run_contract : ℕ → ℕ → ℕ → Result (Unit {0}) Panic
    unfolding cases_loop
    run_contract cases max_steps seed_base =
        cases_loop cases 0 max_steps seed_base (seeded_runner s seed_base)

    unfoldable pub forkable_loop :
        (J → StreamId → Seq → Result J JournalError)
        → ℕ
        → ℕ
        → ℕ
        → ℕ
        → Runner
        → Result (Unit {0}) Panic
    unfolding case_of
    forkable_loop fork zero case max_steps seed_base runner = ok tt
    forkable_loop fork (suc n) case max_steps seed_base runner =
        let (genesis, runner') = s.initial runner in
        let seed = run_seed seed_base case in
        drive s cj genesis seed runner' max_steps >>= λ d. case_of genesis seed max_steps d >>= λ r.
        property_1_at_each_step s cj.journal fork d.0 test_stream genesis d.2 >>= λ _.
        property_4 s cj.journal fork d.0 test_stream >>= λ _.
        forkable_loop fork n (case + 1) max_steps seed_base r

    unfoldable pub run_contract_forkable :
        (J → StreamId → Seq → Result J JournalError) → ℕ → ℕ → ℕ → Result (Unit {0}) Panic
    unfolding forkable_loop
    run_contract_forkable fork cases max_steps seed_base =
        forkable_loop fork cases 0 max_steps seed_base (seeded_runner s seed_base)

  module _ {J : Type 0} (rj : RetainableJournal R J (Unit {0})) where
    -- `for gone in 1..horizon`: discarded sequences are unknown.
    unfoldable pub forgotten : J → StreamId → ℕ → Seq → Result (Unit {0}) Panic
    forgotten j id zero gone = ok tt
    forgotten j id (suc n) gone = do
      _ ←
          assert (is_unknown (rj.journal.entropy_pos j id gone))
            "[proven] property 10: truncated Seq must be UnknownSeq"
      forgotten j id n (gone + 1)

    -- What is checked after the truncation.
    unfoldable pub truncated_well :
        J → StreamId → Seed → Seq → Seq → Aggregate R → DrawPos → Result (Unit {0}) Panic
    unfolding forgotten
    truncated_well j id seed head at before pos_before = do
      let horizon = rj.retained_from j id
      _ ←
          positions rj.journal "[proven] property 10: entropy_pos" j id (head + 1 - horizon) horizon
            0
      _ ← forgotten j id (horizon - 1) 1
      (after, entropy_after) ← expect (resume rj.journal s.harness.chacha j id seed) "resume after"
      _ ←
          assert
            (s.harness.same_digest (s.harness.digest after.state) (s.harness.digest before.state))
            "[proven] property 10: truncation changed what the stream resumes to"
      _ ←
          assert (draws s.harness.chacha entropy_after == pos_before)
            "[proven] property 10: truncation moved the resume entropy position"
      assert (rj.retained_from j id == at)
          "[proven] property 10: retained_from must report the new horizon"

    unfoldable pub property_10 : J → StreamId → Seed → Result J Panic
    unfolding truncated_well
    property_10 j id seed = elim (rj.journal.head j id) [
      | none ↦ ok j
      | some head ↦ elim (resume rj.journal s.harness.chacha j id seed) [
        | err e ↦ ok j
        | ok (before, entropy_before) ↦ do
          let snapshot : Snapshot R = record {
            state = before.state;
            schema_version = 0;
            at = head;
            entropy_pos = draws s.harness.chacha entropy_before;
          }
          let (k, tx, stored) = rj.journal.snapshot_in j tt id snapshot
          _ ← expect stored "snapshot"
          let at = midpoint head
          let (l, done) = rj.truncate_before k id at
          _ ← expect done "truncating below a snapshot taken at the head must be allowed"
          _ ← truncated_well l id seed head at before (draws s.harness.chacha entropy_before)
          ok l
      ]
    ]

    unfoldable pub retainable_loop :
        (R.State → J) → ℕ → ℕ → ℕ → ℕ → Runner → Result (Unit {0}) Panic
    unfolding property_10
    retainable_loop fresh zero case max_steps seed_base runner = ok tt
    retainable_loop fresh (suc n) case max_steps seed_base runner =
        let (genesis, runner') = s.initial runner in
        let seed = run_seed seed_base case in
        drive s (record { journal = rj.journal; fresh = fresh }) genesis seed runner' max_steps
        >>= λ d. property_10 d.0 test_stream seed >>= λ _.
            retainable_loop fresh n (case + 1) max_steps seed_base d.3

    unfoldable pub run_contract_retainable : (R.State → J) → ℕ → ℕ → ℕ → Result (Unit {0}) Panic
    unfolding retainable_loop
    run_contract_retainable fresh cases max_steps seed_base =
        retainable_loop fresh cases 0 max_steps seed_base (seeded_runner s seed_base)
