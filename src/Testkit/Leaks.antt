-- ===== src/Testkit/Leaks.antt =====
-- When `run_leak` passes: a relation that hidden values cannot break is enough.
use ironstate.Prelude.{
  ℕ, zero, suc, ◌+◌, ◌≡◌, refl, sym, subst, inl, inr, true, false, List, [], ◌∷◌, ok, Bool-cases,
  Result-cases, arith, String,
}
use ironstate.Aggregate.{AggregateRules, Aggregate, new, handle}
use ironstate.Entropy.Seeded.{Seed, SeededEntropy, seeded_at}
use ironstate.Journal.{DrawPos}
use ironstate.Replay.{draws_or}
use ironstate.Contract.{Strategies, seeded_runner, run_seed}
use ironstate.Testkit.{
  DriveParams, LeakTestable, is_excluded, assert_views_equal, leak_loop, leak_pair, leak_viewers,
  leak_principals, leak_cases, run_leak,
}

module _ {R : AggregateRules} {Rng Digest Runner Principal Output : Type 0}
    (s : Strategies R Rng Digest Runner) (l : LeakTestable R Rng Principal Output)
    (excluding : List String) where
  -- States that differ in the hidden values of a principal: resampling gives such a state, every
  -- command that is not excluded keeps the relation, and no other principal sees the difference.
  pub record Unwinds (Alike : Principal → R.State → R.State → Type 0) : Type 0 where
    pub hidden :
        (p : Principal) (t : R.State) (entropy : SeededEntropy Rng)
        → Alike p t (l.resample_hidden t p entropy)
    pub kept :
        (p : Principal) (a b : Aggregate R) (cmd : R.Command) (ctx : R.Ctx)
        → is_excluded s l excluding cmd ≡ false
        → Alike p a.state b.state
        → Alike p (handle a cmd ctx).0.state (handle b cmd ctx).0.state
    pub unseen :
        (p q : Principal) (t u : R.State)
        → l.same_principal p q ≡ false
        → Alike p t u
        → l.same_view (l.view_for t q) (l.view_for u q) ≡ true

  module _ (Alike : Principal → R.State → R.State → Type 0) (u : Unwinds Alike) where
    assert_views_equal-Alike :
        (p q : Principal) (a b : Aggregate R)
        → l.same_principal p q ≡ false
        → Alike p a.state b.state
        → assert_views_equal s l excluding a b q ≡ ok tt
    unfolding assert_views_equal
    assert_views_equal-Alike p q a b other alike =
        rw (u.unseen p q a.state b.state other alike) refl

    leak_loop-passes :
        (p q : Principal)
        → l.same_principal p q ≡ false
        → (seed : Seed) (n step : ℕ) (pos : DrawPos) (a b : Aggregate R) (runner : Runner)
        → Alike p a.state b.state
        → (next : Runner) × (leak_loop s l excluding q seed n step pos a b runner ≡ ok next)
    unfolding leak_loop
    leak_loop-passes p q other seed zero step pos a b runner alike = (runner, refl)
    leak_loop-passes p q other seed (suc n) step pos a b runner alike =
        elim (Bool-cases (R.machine.is_terminal (R.phase a.state))) [
          | inl ended ↦ (runner, rw (ended, leak_loop) refl)
          | inr going ↦
              let cmd = (s.harness.sample a.state runner).0 in
              let next = (s.harness.sample a.state runner).1 in
              let ctx = s.harness.test_ctx (seeded_at s.harness.chacha seed pos) step in
              elim (Bool-cases (is_excluded s l excluding cmd)) [
                | inl passed_over ↦
                    let (last, rest) =
                      leak_loop-passes p q other seed n (step + 1) pos a b next alike in
                    (last, rw (going, leak_loop) (rw (passed_over, leak_loop) rest))
                | inr driven ↦
                    let a' = (handle a cmd ctx).0 in
                    let b' = (handle b cmd ctx).0 in
                    let alike' = u.kept p a b cmd ctx driven alike in
                    let (last, rest) =
                      leak_loop-passes p q other seed n (step + 1)
                        (draws_or s.harness.ctx_entropy pos (handle a cmd ctx).1) a' b' next
                        alike' in
                    (
                      last,
                      rw (going, leak_loop)
                          (rw (driven, leak_loop)
                            (rw (assert_views_equal-Alike p q a' b' other alike') rest)),
                    )
              ]
        ]

    new-state : (t : R.State) (a : Aggregate R) → new {R = R} t ≡ ok a → a.state ≡ t
    unfolding new
    new-state t a h = ground arith

    leak_pair-passes :
        (params : DriveParams) (seed : Seed) (t : R.State) (p q : Principal) (runner : Runner)
        → (next : Runner) × (leak_pair s l excluding params seed t p q runner ≡ ok next)
    unfolding leak_pair
    leak_pair-passes params seed t p q runner = elim (Bool-cases (l.same_principal p q)) [
      | inl same ↦ (runner, rw (same, leak_pair) refl)
      | inr other ↦
          let sibling = l.resample_hidden t p (seeded_at s.harness.chacha seed 0) in
          elim (Result-cases (new {R = R} t)) [
            | inr (e, refused) ↦ (runner, rw (other, leak_pair) (rw (refused, leak_pair) refl))
            | inl (a, started) ↦ elim (Result-cases (new {R = R} sibling)) [
              | inr (e, refused) ↦ (
                runner,
                rw (other, leak_pair) (rw (started, leak_pair) (rw (refused, leak_pair) refl)),
              )
              | inl (b, too) ↦
                  let alike : Alike p a.state b.state =
                    subst (λ x. Alike p x b.state) (sym (new-state t a started))
                      (subst (λ x. Alike p t x) (sym (new-state sibling b too))
                        (u.hidden p t (seeded_at s.harness.chacha seed 0))) in
                  let (next, done) =
                    leak_loop-passes p q other seed params.max_steps 0 0 a b runner alike in
                  (
                    next,
                    rw (other, leak_pair)
                        (rw (started, leak_pair)
                          (rw (too, leak_pair)
                            (rw (assert_views_equal-Alike p q a b other alike) done))),
                  )
            ]
          ]
    ]

    leak_viewers-passes :
        (params : DriveParams) (seed : Seed) (t : R.State) (p : Principal) (qs : List Principal)
        (runner : Runner)
        → (next : Runner) × (leak_viewers s l excluding params seed t p qs runner ≡ ok next)
    unfolding leak_viewers
    leak_viewers-passes params seed t p [] runner = (runner, refl)
    leak_viewers-passes params seed t p (q ∷ qs) runner =
        let (next, done) = leak_pair-passes params seed t p q runner in
        let (last, rest) = leak_viewers-passes params seed t p qs next in (last, rw done rest)

    leak_principals-passes :
        (params : DriveParams) (seed : Seed) (t : R.State) (all ps : List Principal)
        (runner : Runner)
        → (next : Runner) × (leak_principals s l excluding params seed t all ps runner ≡ ok next)
    unfolding leak_principals
    leak_principals-passes params seed t all [] runner = (runner, refl)
    leak_principals-passes params seed t all (p ∷ ps) runner =
        let (next, done) = leak_viewers-passes params seed t p all runner in
        let (last, rest) = leak_principals-passes params seed t all ps next in (last, rw done rest)

    leak_cases-passes :
        (params : DriveParams) (n case : ℕ) (runner : Runner)
        → leak_cases s l excluding params n case runner ≡ ok tt
    unfolding leak_cases
    leak_cases-passes params zero case runner = refl
    leak_cases-passes params (suc n) case runner =
        let t = (s.initial runner).0 in
        let (next, done) =
          leak_principals-passes params (run_seed params.seed case) t (l.principals t)
            (l.principals t) (s.initial runner).1 in
        rw done (leak_cases-passes params n (case + 1) next)

    -- When a relation on states holds between a state and its resampled siblings, is kept by
    -- every command that is not excluded, and makes the views of every other principal equal,
    -- run_leak runs to its end without a panic, whatever states and commands are sampled.
    pub run_leak-passes : (params : DriveParams) → run_leak s l excluding params ≡ ok tt
    unfolding run_leak
    run_leak-passes params = leak_cases-passes params params.cases 0 (seeded_runner s params.seed)
