-- ===== src/Testkit/Driven.antt =====
-- When `run_test` passes: exactly what it checks of the accepted events, and that checking is enough.
use ironstate.Prelude.{
  ℕ, zero, suc, ◌+◌, ◌≡◌, refl, ◌↔◌, inl, inr, Bool, true, false, List, [], ◌∷◌, Result, ok, err,
  ◌>>=◌, All, Bool-cases, Result-cases,
}
use ironstate.Aggregate.{AggregateRules, Aggregate, new, handle}
use ironstate.Entropy.Seeded.{Seed, seeded_at}
use ironstate.Journal.{DrawPos}
use ironstate.Replay.{draws_or}
use ironstate.Contract.Checks.{last}
use ironstate.Contract.{Panic, assert, Strategies, seeded_runner, run_seed}
use ironstate.Testkit.{
  DriveParams, AggregateInvariant, legal_hop, invariants_hold, check_events, accepted, test_loop,
  test_cases, run_test, same_digests, determinism_cases, run_determinism, one_run,
}

-- An assertion before the rest.
assert-bind :
    (b : Bool) (message : Panic) (rest : Result (Unit {0}) Panic)
    → ((assert b message >>= λ _. rest) ≡ ok tt) ↔ ((b ≡ true) × (rest ≡ ok tt))
assert-bind true message rest = (λ h. (refl, h), λ h. h.1)
assert-bind false message rest = (λ h. cc, λ h. absurd (let bad = h.0 in cc))

unit-bind :
    (first rest : Result (Unit {0}) Panic)
    → ((first >>= λ _. rest) ≡ ok tt) ↔ ((first ≡ ok tt) × (rest ≡ ok tt))
unit-bind (ok t) rest = (λ h. (refl, h), λ h. h.1)
unit-bind (err e) rest = (λ h. cc, λ h. absurd (let bad = h.0 in cc))

module _ {R : AggregateRules} (invariants : List (AggregateInvariant R)) where
  -- Every event, in order, makes a legal hop of the phase machine and keeps the invariants.
  abbrev pub IsChecked : R.State → List R.Event → Type 0
  IsChecked s [] = Unit
  IsChecked s (event ∷ events) =
      (legal_hop R (R.phase s) (R.phase (R.evolve s event)) ≡ true)
      × All (λ i. i.holds s event (R.evolve s event) ≡ true) invariants
      × IsChecked (R.evolve s event) events

  invariants_hold-All :
      (is : List (AggregateInvariant R)) (s : R.State) (event : R.Event) (after : R.State)
      → (invariants_hold invariants is s event after ≡ ok tt)
        ↔ All (λ i. i.holds s event after ≡ true) is
  unfolding invariants_hold
  invariants_hold-All [] s event after = (λ h. tt, λ h. refl)
  invariants_hold-All (i ∷ is) s event after =
      let rest = invariants_hold-All is s event after in
      let here = assert-bind (i.holds s event after) "aggregate invariant violated" _ in
      (λ h. ((here.0 h).0, rest.0 (here.0 h).1), λ h. here.1 (h.0, rest.1 h.1))

  -- The checks pass exactly if the events are as they should be.
  pub check_events-IsChecked :
      (s : R.State) (events : List R.Event)
      → (check_events invariants s events ≡ ok tt) ↔ IsChecked s events
  unfolding check_events
  check_events-IsChecked s [] = (λ h. tt, λ h. refl)
  check_events-IsChecked s (event ∷ events) =
      let after = R.evolve s event in
      let hop = assert-bind (legal_hop R (R.phase s) (R.phase after)) "illegal phase hop" _ in
      let kept = unit-bind (invariants_hold invariants invariants s event after) _ in
      let all = invariants_hold-All invariants s event after in
      let rest = check_events-IsChecked after events in
      (
        λ h. let later = kept.0 (hop.0 h).1 in ((hop.0 h).0, all.0 later.0, rest.0 later.1),
        λ h. hop.1 (h.0, kept.1 (all.1 h.1, rest.1 h.2)),
      )

module _ {R : AggregateRules} {Rng Digest Runner : Type 0} (s : Strategies R Rng Digest Runner)
    (invariants : List (AggregateInvariant R))
    (lawful : (a : Aggregate R) (cmd : R.Command) (ctx : R.Ctx) (events : List R.Event)
      → (handle a cmd ctx).2 ≡ ok events
      → IsChecked invariants a.state events) where
  test_loop-passes :
      (seed : Seed) (n step : ℕ) (pos : DrawPos) (a : Aggregate R) (runner : Runner)
      → (next : Runner) × (test_loop s invariants seed n step pos a runner ≡ ok next)
  unfolding test_loop accepted
  test_loop-passes seed zero step pos a runner = (runner, refl)
  test_loop-passes seed (suc n) step pos a runner =
      elim (Bool-cases (R.machine.is_terminal (R.phase a.state))) [
        | inl ended ↦ (runner, rw (ended, test_loop) refl)
        | inr going ↦
            let cmd = (s.harness.sample a.state runner).0 in
            let next = (s.harness.sample a.state runner).1 in
            let ctx = s.harness.test_ctx (seeded_at s.harness.chacha seed pos) step in
            let out = handle a cmd ctx in
            elim (Result-cases out.2) [
              | inr (x, refused) ↦
                  let (last, rest) = test_loop-passes seed n (step + 1) pos out.0 next in
                  (last, rw (going, test_loop) (rw (refused, accepted) rest))
              | inl (events, done) ↦
                  let passed =
                    (check_events-IsChecked invariants a.state events).1
                      (lawful a cmd ctx events done) in
                  let (last, rest) =
                    test_loop-passes seed n (step + 1) (draws_or s.harness.ctx_entropy pos out.1)
                      out.0 next in
                  (last, rw (going, test_loop) (rw (done, accepted) (rw (passed) rest)))
            ]
      ]

  test_cases-passes :
      (params : DriveParams) (n case : ℕ) (runner : Runner)
      → test_cases s params invariants n case runner ≡ ok tt
  unfolding test_cases
  test_cases-passes params zero case runner = refl
  test_cases-passes params (suc n) case runner =
      elim (Result-cases (new {R = R} (s.initial runner).0)) [
        | inr (e, skipped) ↦
            rw (skipped, test_cases) (test_cases-passes params n (case + 1) (s.initial runner).1)
        | inl (a, started) ↦
            let (last, done) =
              test_loop-passes (run_seed params.seed case) params.max_steps 0 0 a
                (s.initial runner).1 in
            rw (started, test_cases) (rw (done) (test_cases-passes params n (case + 1) last))
      ]

  -- When the events of every command that handle accepts make legal hops of the phase machine,
  -- one after the other, and keep the declared invariants, run_test runs to its end without a
  -- panic, whatever states and commands are sampled.
  pub run_test-passes : (params : DriveParams) → run_test s params invariants ≡ ok tt
  unfolding run_test
  run_test-passes params = test_cases-passes params params.cases 0 (seeded_runner s params.seed)

module _ {R : AggregateRules} {Rng Digest Runner : Type 0} (s : Strategies R Rng Digest Runner)
    (same : (d : Digest) → s.harness.same_digest d d ≡ true) where
  same_digests_self : (ds : List Digest) → same_digests s ds ds ≡ true
  unfolding same_digests
  same_digests_self [] = refl
  same_digests_self (d ∷ ds) = rw (same d) (same_digests_self ds)

  determinism_cases-passes :
      (params : DriveParams) (n case : ℕ) → determinism_cases s params n case ≡ ok tt
  unfolding determinism_cases
  determinism_cases-passes params zero case = refl
  determinism_cases-passes params (suc n) case =
      rw (same_digests_self (one_run s params.seed case params.max_steps))
        (determinism_cases-passes params n (case + 1))

  -- Decisions that are functions are never found to be nondeterministic.
  pub run_determinism-passes :
      (params : DriveParams)
      → run_determinism s params ≡ ok (last (one_run s params.seed 0 params.max_steps))
  unfolding run_determinism
  run_determinism-passes params = rw (determinism_cases-passes params params.cases 0) refl
