-- ===== src/Contract/Isolated.antt =====
-- Fresh in-memory journals pass the properties on failed appends and on other streams.
use ironstate.Prelude.{
  ℕ, zero, suc, ◌+◌, ◌*◌, ◌^◌, ◌<◌, ◌≡◌, refl, sym, subst, ap, true, inl, inr, List, [], none, some,
  ok, arith, Bool-cases, Result-cases, length,
}
use ironstate.Prelude.Map.{get}
use ironstate.Aggregate.{AggregateRules, Aggregate, new as new_aggregate, from_state, decide_only}
use ironstate.Entropy.Seeded.{Seed, seeded_at}
use ironstate.Journal.{storage}
use ironstate.Memory.{
  Record, MemoryJournal, memory, genesis_snapshot, new as new_memory, head, events_since,
  entropy_pos, latest_snapshot,
}
use ironstate.Replay.{head_pos as journal_head_pos}
use ironstate.Replay.Execute.{draws_or-rewind, execute-rejected, execute-failed}
use ironstate.Contract.{
  Strategies, FailNextAppend, failing, failing_append, memory_contract, test_stream, other_stream,
}
use ironstate.Contract.Suites.{property_6, attempts, attempted, property_8, undisturbed}
use ironstate.Memory.History.{pos_at}
use ironstate.Contract.Driven.{
  Lawful, IsDriven, new-IsDriven, append-IsDriven, turn-IsDriven, room_left, room_now, newest_pos,
}

module _ (R : AggregateRules) (genesis : R.State) where
  abbrev fresh : FailNextAppend (MemoryJournal R)
  fresh = record { inner = new_memory genesis; armed = true }

  head_pos-fresh : journal_head_pos (failing (memory R)) fresh test_stream ≡ ok 0
  unfolding journal_head_pos head new_memory get
  head_pos-fresh = refl

  head-fresh : head (new_memory {R = R} genesis) test_stream ≡ none
  unfolding head new_memory get
  head-fresh = refl

module _ {R : AggregateRules} {Rng Digest Runner : Type 0} (s : Strategies R Rng Digest Runner)
    {spread : ℕ} (laws : Lawful s spread) (seed : Seed) where
  -- No attempt panics: a rejection leaves everything, and the failed append is as it should be.
  attempts-fresh :
      (n : ℕ) (genesis : R.State) (runner : Runner)
      → (next : Runner) × (attempts s
            (memory_contract R)
            seed
            n
            (s.harness.digest genesis)
            (fresh R genesis)
            (from_state genesis)
            runner
          ≡ ok next)
  unfolding attempts attempted failing_append
  attempts-fresh zero genesis runner = (runner, refl)
  attempts-fresh (suc n) genesis runner =
      elim (Bool-cases (R.machine.is_terminal (R.phase genesis))) [
        | inl ended ↦ (runner, rw (ended, attempts) refl)
        | inr going ↦
            let c = s.harness.ctx_entropy in
            let a : Aggregate R = from_state genesis in
            let cmd = (s.harness.sample genesis runner).0 in
            let next = (s.harness.sample genesis runner).1 in
            let ctx = s.harness.test_ctx (seeded_at s.harness.chacha seed 0) 0 in
            let jr = failing (memory R) in
            elim (Result-cases (decide_only a cmd ctx).0) [
              | inr (x, refused) ↦
                  let (last, done) = attempts-fresh n genesis next in
                  (
                    last,
                    rw (going, attempts)
                        (rw
                          (
                            execute-rejected jr c (fresh R genesis) test_stream a cmd ctx 0 x
                                (head_pos-fresh R genesis) refused,
                            attempts,
                          )
                          done),
                  )
              | inl (events, accepted) ↦ (
                next,
                rw (going, attempts)
                    (rw
                      (
                        execute-failed jr c (fresh R genesis) test_stream a cmd ctx 0 events
                            (storage "injected append failure") (head_pos-fresh R genesis) accepted
                            refl,
                        attempts,
                      )
                      (rw (head-fresh R genesis) (
                        rw (laws.same (s.harness.digest genesis)) (
                          rw
                            (draws_or-rewind laws.context (decide_only a cmd ctx).1 0 (omega arith))
                            refl)))),
              )
            ]
      ]

  pub property_6-memory :
      (runner : Runner) → (next : Runner) × (property_6 s (memory_contract R) seed runner ≡ ok next)
  unfolding property_6 new_aggregate
  property_6-memory runner =
      let (next, done) = attempts-fresh 8 (s.initial runner).0 (s.initial runner).1 in
      (next, rw (laws.starts runner) done)

module _ {R : AggregateRules} {genesis : R.State} {full : List (Record R)} {j : MemoryJournal R}
    {a : Aggregate R} (h : IsDriven genesis full j a) where
  -- The other stream reads as one that was never touched.
  head-other : head j other_stream ≡ none
  unfolding head
  head-other = rw h.apart refl

  events_since-other : events_since j other_stream none ≡ ok []
  unfolding events_since
  events_since-other = rw h.apart refl

  entropy_pos-other : entropy_pos j other_stream 0 ≡ ok 0
  unfolding entropy_pos
  entropy_pos-other = rw h.apart refl

  latest_snapshot-other : latest_snapshot j other_stream ≡ some (genesis_snapshot genesis)
  unfolding latest_snapshot
  latest_snapshot-other = rw h.apart (ap (λ (g : R.State). some (genesis_snapshot g)) h.origin)

module _ {R : AggregateRules} {Rng Digest Runner : Type 0} (s : Strategies R Rng Digest Runner)
    {spread : ℕ} (laws : Lawful s spread) (seed : Seed) (genesis : R.State) where
  undisturbed-IsDriven :
      (n step : ℕ) (j : MemoryJournal R) (a : Aggregate R) (runner : Runner)
      (full : List (Record R))
      → IsDriven genesis full j a
      → pos_at full (length full) + n * spread < 2 ^ 64
      → (k : MemoryJournal R) × (next : Runner) × (b : Aggregate R) × (later : List (Record R))
        × (undisturbed s (memory_contract R) seed n step none j a runner ≡ ok (k, next))
        × IsDriven genesis later k b
  unfolding undisturbed
  undisturbed-IsDriven zero step j a runner full h space = (j, runner, a, full, refl, h)
  undisturbed-IsDriven (suc n) step j a runner full h space =
      elim (Bool-cases (R.machine.is_terminal (R.phase a.state))) [
        | inl ended ↦ (j, runner, a, full, rw (ended, undisturbed) refl, h)
        | inr going ↦
            let cmd = (s.harness.sample a.state runner).0 in
            let after = (s.harness.sample a.state runner).1 in
            elim (turn-IsDriven s laws seed step cmd j a h (room_now spread n _ space)) [
              | inl (x, done) ↦
                  let (k, next, b, later, rest, driven) =
                    undisturbed-IsDriven n (step + 1) j a after full h
                      (room_left spread n _ _ space (omega arith)) in
                  (
                    k,
                    next,
                    b,
                    later,
                    rw (going, undisturbed)
                        (rw (done, undisturbed) (rw (head-other h, undisturbed) rest)),
                    driven,
                  )
              | inr (events, pos, up, word, done) ↦
                  let left = room_left spread n pos _ space word in
                  let h' = append-IsDriven j a h events pos up (omega arith) in
                  let (k, next, b, later, rest, driven) =
                    undisturbed-IsDriven n (step + 1) _ _ after _ h' (
                      subst (λ p. p + n * spread < 2 ^ 64) (sym (newest_pos full events pos))
                        left) in
                  (
                    k,
                    next,
                    b,
                    later,
                    rw (going, undisturbed)
                        (rw (done, undisturbed) (rw (head-other h', undisturbed) rest)),
                    driven,
                  )
            ]
      ]

  pub property_8-memory :
      (runner : Runner) (max_steps : ℕ)
      → max_steps * spread < 2 ^ 64
      → R.machine.eq (R.phase genesis) R.machine.initial ≡ true
      → (next : Runner) × (property_8 s (memory_contract R) genesis seed runner max_steps ≡ ok next)
  unfolding property_8 new_aggregate genesis_snapshot pos_at
  property_8-memory runner max_steps room initial =
      let h = new-IsDriven genesis in
      let (k, next, b, later, done, driven) =
        undisturbed-IsDriven max_steps 0 (new_memory genesis) (from_state genesis) runner [] h
          (omega arith) in
      (
        next,
        rw initial (
            rw (events_since-other h) (
              rw (latest_snapshot-other h) (
                rw (head-other h) (
                  rw done (
                    rw (events_since-other driven)
                      (rw (entropy_pos-other driven) (rw (latest_snapshot-other driven) refl))))))),
      )
