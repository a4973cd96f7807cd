-- ===== src/Testkit.antt =====
-- The property-test drivers (app/crates/ironstate-aggregate/src/testkit.rs). A panic is `err` with the
-- start of its message; the runner of the crate `proptest` and the strategies are parameters.
pub mod Driven
pub mod Faults
pub mod Leaks
mod Tests
use ironstate.Prelude.{
  ℕ, zero, suc, ◌+◌, ◌%◌, ◌^◌, Bool, true, false, ◌&&◌, List, [], ◌∷◌, Option, none, some, Result,
  ok, err, ◌>>=◌, if◌then◌else◌, any, str_eq, String,
}
use ironstate.Aggregate.{AggregateRules, Aggregate, Rejection, new, handle}
use ironstate.Entropy.Seeded.{Seed, SeededEntropy, seeded_at}
use ironstate.Journal.{DrawPos}
use ironstate.Replay.{draws_or}
use ironstate.Contract.Checks.{last}
use ironstate.Contract.{Panic, assert, Strategies, seeded_runner, run_seed}

pub record DriveParams : Type 0 where
  pub cases : ℕ
  pub max_steps : ℕ
  pub seed : ℕ

-- `DriveParams::new`
abbrev pub default_params : DriveParams
default_params = record { cases = 256; max_steps = 64; seed = 1378942 }

pub record AggregateInvariant (R : AggregateRules) : Type 0 where
  pub description : String
  pub holds : R.State → R.Event → R.State → Bool

-- `old.transition(event).as_ref() == Some(new)`
abbrev pub is_target : {S : Type 0} → (S → S → Bool) → Option S → S → Bool
is_target eq none new_phase = false
is_target eq (some target) new_phase = eq target new_phase

unfoldable pub legal_hop : (R : AggregateRules) → R.Phase → R.Phase → Bool
legal_hop R old new_phase =
    if R.machine.eq old new_phase
    then true
    else any (λ event. is_target R.machine.eq (R.machine.transition old event) new_phase)
        R.machine.event_kind.event_variants

module _ {R : AggregateRules} (invariants : List (AggregateInvariant R)) where
  -- `for invariant in &invariants`
  unfoldable pub invariants_hold :
      List (AggregateInvariant R) → R.State → R.Event → R.State → Result (Unit {0}) Panic
  invariants_hold [] before event after = ok tt
  invariants_hold (i ∷ is) before event after = do
    _ ← assert (i.holds before event after) "aggregate invariant violated"
    invariants_hold is before event after

  -- `for event in &events`, from the state of the probe.
  unfoldable pub check_events : R.State → List R.Event → Result (Unit {0}) Panic
  unfolding invariants_hold
  check_events probe [] = ok tt
  check_events probe (event ∷ events) = do
    let after = R.evolve probe event
    _ ← assert (legal_hop R (R.phase probe) (R.phase after)) "illegal phase hop"
    _ ← invariants_hold invariants probe event after
    check_events after events

module _ {R : AggregateRules} {Rng Digest Runner : Type 0}
    (s : Strategies R Rng Digest Runner) where
  -- One command of the drivers, in a context at the position.
  abbrev pub stepped :
      Seed
      → ℕ
      → DrawPos
      → R.Command
      → Aggregate R
      → Aggregate R × R.Ctx × Result (List R.Event) (Rejection R)
  stepped seed step pos cmd a =
      handle a cmd (s.harness.test_ctx (seeded_at s.harness.chacha seed pos) step)

  -- `if let Ok(events) = ... { ... }` of `run_test`: the checks, and the position after.
  unfoldable pub accepted :
      List (AggregateInvariant R)
      → R.State
      → DrawPos
      → R.Ctx
      → Result (List R.Event) (Rejection R)
      → Result DrawPos Panic
  unfolding check_events
  accepted invariants before pos ctx (err x) = ok pos
  accepted invariants before pos ctx (ok events) = do
    _ ← check_events invariants before events
    ok (draws_or s.harness.ctx_entropy pos ctx)

  -- `for step in 0..params.max_steps` of `run_test`, with the steps left.
  unfoldable pub test_loop :
      List (AggregateInvariant R)
      → Seed
      → ℕ
      → ℕ
      → DrawPos
      → Aggregate R
      → Runner
      → Result Runner Panic
  unfolding accepted
  test_loop invariants seed zero step pos a runner = ok runner
  test_loop invariants seed (suc n) step pos a runner =
      elim (R.machine.is_terminal (R.phase a.state)) [
        | true ↦ ok runner
        | false ↦
            let (cmd, runner') = s.harness.sample a.state runner in
            let (a', ctx, r) = stepped seed step pos cmd a in
            accepted invariants a.state pos ctx r >>= λ pos'.
            test_loop invariants seed n (step + 1) pos' a' runner'
      ]

  -- `for case in 0..params.cases`; a state that is not in the initial phase is passed over.
  unfoldable pub test_cases :
      DriveParams → List (AggregateInvariant R) → ℕ → ℕ → Runner → Result (Unit {0}) Panic
  unfolding test_loop
  test_cases params invariants zero case runner = ok tt
  test_cases params invariants (suc n) case runner =
      let (initial, runner') = s.initial runner in
      elim (new initial) [
        | err e ↦ test_cases params invariants n (case + 1) runner'
        | ok a ↦
            test_loop invariants (run_seed params.seed case) params.max_steps 0 0 a runner'
            >>= λ runner''. test_cases params invariants n (case + 1) runner''
      ]

  unfoldable pub run_test : DriveParams → List (AggregateInvariant R) → Result (Unit {0}) Panic
  unfolding test_cases
  run_test params invariants =
      test_cases params invariants params.cases 0 (seeded_runner s params.seed)

  -- The digest, if the command was accepted.
  unfoldable pub noted :
      Aggregate R → Result (List R.Event) (Rejection R) → List Digest → List Digest
  noted a (err x) rest = rest
  noted a (ok events) rest = s.harness.digest a.state ∷ rest

  unfoldable pub pos_after : DrawPos → R.Ctx → Result (List R.Event) (Rejection R) → DrawPos
  pos_after pos ctx (err x) = pos
  pos_after pos ctx (ok events) = draws_or s.harness.ctx_entropy pos ctx

  -- The loop of `one_run`.
  unfoldable pub digests_loop : Seed → ℕ → ℕ → DrawPos → Aggregate R → Runner → List Digest
  unfolding noted pos_after
  digests_loop seed zero step pos a runner = []
  digests_loop seed (suc n) step pos a runner = elim (R.machine.is_terminal (R.phase a.state)) [
    | true ↦ []
    | false ↦
        let (cmd, runner') = s.harness.sample a.state runner in
        let (a', ctx, r) = stepped seed step pos cmd a in
        noted a' r (digests_loop seed n (step + 1) (pos_after pos ctx r) a' runner')
  ]

  unfoldable pub one_run : ℕ → ℕ → ℕ → List Digest
  unfolding digests_loop
  one_run seed case max_steps =
      let runner = seeded_runner s ((seed + case + 1) % 2 ^ 64) in
      let (initial, runner') = s.initial runner in
      elim (new initial) [
        | err e ↦ []
        | ok a ↦ digests_loop (run_seed seed case) max_steps 0 0 a runner'
      ]

  -- `digests_a == digests_b`
  unfoldable pub same_digests : List Digest → List Digest → Bool
  same_digests [] [] = true
  same_digests (a ∷ rest_a) (b ∷ rest_b) = s.harness.same_digest a b && same_digests rest_a rest_b
  same_digests _ _ = false

  unfoldable pub determinism_cases : DriveParams → ℕ → ℕ → Result (Unit {0}) Panic
  unfolding one_run same_digests
  determinism_cases params zero case = ok tt
  determinism_cases params (suc n) case = do
    _ ←
        assert
          (same_digests (one_run params.seed case params.max_steps)
            (one_run params.seed case params.max_steps))
          "nondeterminism detected"
    determinism_cases params n (case + 1)

  -- The digest that the pinned run writes to a file.
  unfoldable pub run_determinism : DriveParams → Result (Option Digest) Panic
  unfolding determinism_cases one_run
  run_determinism params = do
    _ ← determinism_cases params params.cases 0
    ok (last (one_run params.seed 0 params.max_steps))

-- The trait `LeakTestable`, and the view with its equality.
pub record LeakTestable (R : AggregateRules) (Rng Principal Output : Type 0) : Type 0 where
  pub principals : R.State → List Principal
  pub same_principal : Principal → Principal → Bool
  pub resample_hidden : R.State → Principal → SeededEntropy Rng → R.State
  pub view_for : R.State → Principal → Output
  pub same_view : Output → Output → Bool

module _ {R : AggregateRules} {Rng Digest Runner Principal Output : Type 0}
    (s : Strategies R Rng Digest Runner) (l : LeakTestable R Rng Principal Output)
    (excluding : List String) where
  unfoldable pub assert_views_equal :
      Aggregate R → Aggregate R → Principal → Result (Unit {0}) Panic
  assert_views_equal base sibling viewer =
      assert (l.same_view (l.view_for base.state viewer) (l.view_for sibling.state viewer))
        "[sampled] leak"

  abbrev pub is_excluded : R.Command → Bool
  is_excluded cmd = any (λ name. str_eq name (R.command_kind.variant_name cmd)) excluding

  -- `for step in 0..params.max_steps` of `run_leak`.
  unfoldable pub leak_loop :
      Principal → Seed → ℕ → ℕ → DrawPos → Aggregate R → Aggregate R → Runner → Result Runner Panic
  unfolding assert_views_equal
  leak_loop q seed zero step pos base sibling runner = ok runner
  leak_loop q seed (suc n) step pos base sibling runner =
      elim (R.machine.is_terminal (R.phase base.state)) [
        | true ↦ ok runner
        | false ↦
            let (cmd, runner') = s.harness.sample base.state runner in
            elim (is_excluded cmd) [
              | true ↦ leak_loop q seed n (step + 1) pos base sibling runner'
              | false ↦
                  let (base', ctx, r) = stepped s seed step pos cmd base in
                  let (sibling', ctx_s, r_s) = stepped s seed step pos cmd sibling in
                  assert_views_equal base' sibling' q >>= λ _.
                  leak_loop q seed n (step + 1) (draws_or s.harness.ctx_entropy pos ctx) base'
                    sibling' runner'
            ]
      ]

  -- The body of the loops over the pairs of principals.
  unfoldable pub leak_pair :
      DriveParams → Seed → R.State → Principal → Principal → Runner → Result Runner Panic
  unfolding leak_loop
  leak_pair params seed base_state p q runner =
      if l.same_principal p q then ok runner else elim (new base_state) [
        | err e ↦ ok runner
        | ok base ↦
            elim (new (l.resample_hidden base_state p (seeded_at s.harness.chacha seed 0))) [
              | err e ↦ ok runner
              | ok sibling ↦ assert_views_equal base sibling q >>= λ _.
                  leak_loop q seed params.max_steps 0 0 base sibling runner
            ]
      ]

  unfoldable pub leak_viewers :
      DriveParams → Seed → R.State → Principal → List Principal → Runner → Result Runner Panic
  unfolding leak_pair
  leak_viewers params seed base_state p [] runner = ok runner
  leak_viewers params seed base_state p (q ∷ qs) runner =
      leak_pair params seed base_state p q runner >>= λ runner'.
      leak_viewers params seed base_state p qs runner'

  unfoldable pub leak_principals :
      DriveParams → Seed → R.State → List Principal → List Principal → Runner → Result Runner Panic
  unfolding leak_viewers
  leak_principals params seed base_state all [] runner = ok runner
  leak_principals params seed base_state all (p ∷ ps) runner =
      leak_viewers params seed base_state p all runner >>= λ runner'.
      leak_principals params seed base_state all ps runner'

  unfoldable pub leak_cases : DriveParams → ℕ → ℕ → Runner → Result (Unit {0}) Panic
  unfolding leak_principals
  leak_cases params zero case runner = ok tt
  leak_cases params (suc n) case runner =
      let (base_state, runner') = s.initial runner in
      let principals = l.principals base_state in
      leak_principals params (run_seed params.seed case) base_state principals principals runner'
      >>= λ runner''. leak_cases params n (case + 1) runner''

  unfoldable pub run_leak : DriveParams → Result (Unit {0}) Panic
  unfolding leak_cases
  run_leak params = leak_cases params params.cases 0 (seeded_runner s params.seed)
