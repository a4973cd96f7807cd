-- ===== src/Contract/Recorded.antt =====
-- The driver over the in-memory journal: it returns, and its steps are what the history says.
use ironstate.Prelude.{
  ℕ, zero, suc, ◌+◌, ◌*◌, ◌^◌, ◌<◌, ◌≤◌, ◌≡◌, refl, sym, ◌∙◌, ap, subst, true, inl, inr, List, [],
  ◌∷◌, ◌++◌, some, Result, ok, arith, length, foldl, Bool-cases, All, All-map, All-append,
  length-append,
}
use ironstate.Aggregate.{AggregateRules, Aggregate, new as new_aggregate, from_state, evolve}
use ironstate.Entropy.Seeded.{Seed}
use ironstate.Journal.{Seq}
use ironstate.Memory.{Record, MemoryJournal, memory, new as new_memory, append}
use ironstate.Memory.History.{pos_at, state_at, state_at-append}
use ironstate.Memory.Represents.{appended}
use ironstate.Contract.{Panic, Strategies, recorded, drive_loop, drive, memory_contract}
use ironstate.Contract.Checks.{last}
use ironstate.Contract.Driven.{
  Lawful, IsDriven, new-IsDriven, append-IsDriven, turn-IsDriven, room_left, room_now, newest_pos,
}

-- Each step is a sequence of the history with the digest of the state there, the last that of the
-- live state.
pub record IsRecorded {R : AggregateRules} {Digest : Type 0} (digest : R.State → Digest)
    (genesis : R.State) (full : List (Record R)) (steps : List (Seq × Digest)) : Type 0 where
  pub each :
      All
        (λ (t : Seq × Digest).
          (1 ≤ t.0) × (t.0 ≤ length full) × (t.1 ≡ digest (state_at genesis full t.0)))
        steps
  pub newest :
      (t : Seq × Digest) → last steps ≡ some t → t.1 ≡ digest (state_at genesis full (length full))

last-snoc : {A : Type 0} (xs : List A) (x : A) → last (xs ++ (x ∷ [])) ≡ some x
unfolding last
last-snoc [] x = refl
last-snoc (y ∷ []) x = refl
last-snoc (y ∷ z ∷ xs) x = last-snoc (z ∷ xs) x

-- A record more, and the step that it is recorded as.
snoc-IsRecorded :
    {R : AggregateRules} {Digest : Type 0} (digest : R.State → Digest) (genesis : R.State)
    (full : List (Record R)) (r : Record R) (state : R.State) (steps : List (Seq × Digest))
    → state ≡ state_at genesis (full ++ (r ∷ [])) (length (full ++ (r ∷ [])))
    → IsRecorded digest genesis full steps
    → IsRecorded digest genesis
        (full ++ (r ∷ []))
        (steps ++ ((suc (length full), digest state) ∷ []))
snoc-IsRecorded digest genesis full r state steps current h =
    let size : length (full ++ (r ∷ [])) ≡ suc (length full) =
      omega (arith, length-append {0} full (r ∷ [])) in
    let newest_state = current ∙ ap (state_at genesis (full ++ (r ∷ []))) size in
    record {
      each =
          All-append _ steps ((suc (length full), digest state) ∷ [])
            (All-map _ _ steps
              (λ t old. (
                old.0,
                omega (arith, old.1, size),
                old.2 ∙ ap digest (sym (state_at-append genesis full (r ∷ []) t.0 old.1)),
              ))
              h.each)
            ((omega arith, omega (arith, size), ap digest newest_state), tt);
      newest = λ t e.
          let same : some (suc (length full), digest state) ≡ some t =
            sym (last-snoc steps (suc (length full), digest state)) ∙ e in
          let eq : (suc (length full), digest state) ≡ t = cc same in
          ap (λ u. u.1) (sym eq) ∙ ap digest current;
    }

module _ {R : AggregateRules} {Rng Digest Runner : Type 0} (s : Strategies R Rng Digest Runner)
    (genesis : R.State) (limit : ℕ) where
  -- What a driver that returned has: a driven journal of at most `limit` records, and its steps.
  pub record Drove (r : Result (MemoryJournal R × Aggregate R × List (Seq × Digest) × Runner) Panic)
      : Type 0 where
    pub journal : MemoryJournal R
    pub aggregate : Aggregate R
    pub steps : List (Seq × Digest)
    pub runner : Runner
    pub returned : r ≡ ok (journal, aggregate, steps, runner)
    pub full : List (Record R)
    pub driven : IsDriven genesis full journal aggregate
    pub recorded : IsRecorded s.harness.digest genesis full steps
    pub bounded : length full ≤ limit

module _ {R : AggregateRules} {Rng Digest Runner : Type 0} (s : Strategies R Rng Digest Runner)
    {spread : ℕ} (laws : Lawful s spread) (seed : Seed) (genesis : R.State) where
  drive_loop-Drove :
      (n step limit : ℕ) (runner : Runner) (j : MemoryJournal R) (a : Aggregate R)
      (steps : List (Seq × Digest)) (full : List (Record R))
      → IsDriven genesis full j a
      → IsRecorded s.harness.digest genesis full steps
      → length full + n ≤ limit
      → pos_at full (length full) + n * spread < 2 ^ 64
      → Drove s genesis limit (drive_loop s (memory R) seed n step runner j a steps)
  unfolding drive_loop recorded
  drive_loop-Drove zero step limit runner j a steps full h rec room space = record {
    journal = j;
    aggregate = a;
    steps = steps;
    runner = runner;
    returned = refl;
    full = full;
    driven = h;
    recorded = rec;
    bounded = omega arith;
  }
  drive_loop-Drove (suc n) step limit runner j a steps full h rec room space =
      elim (Bool-cases (R.machine.is_terminal (R.phase a.state))) [
        | inl ended ↦ record {
          journal = j;
          aggregate = a;
          steps = steps;
          runner = runner;
          returned = rw (ended, drive_loop) refl;
          full = full;
          driven = h;
          recorded = rec;
          bounded = omega arith;
        }
        | inr going ↦
            let cmd = (s.harness.sample a.state runner).0 in
            let next = (s.harness.sample a.state runner).1 in
            elim (turn-IsDriven s laws seed step cmd j a h (room_now spread n _ space)) [
              | inl (x, done) ↦
                  rw (going, drive_loop)
                    (rw (done, drive_loop, recorded)
                      (drive_loop-Drove n (step + 1) limit next j a steps full h rec (omega arith)
                        (room_left spread n _ _ space (omega arith))))
              | inr (events, pos, after, word, done) ↦
                  let r : Record R = appended events pos in
                  let left = room_left spread n pos _ space word in
                  let k = (append j ironstate.Contract.test_stream events pos).0 in
                  let b = foldl evolve a events in
                  let h' = append-IsDriven j a h events pos after (omega arith) in
                  rw (going, drive_loop)
                    (rw (done, drive_loop, recorded)
                      (drive_loop-Drove n (step + 1) limit next k b _ (full ++ (r ∷ [])) h'
                        (snoc-IsRecorded s.harness.digest genesis full r b.state steps h'.current
                          rec)
                        (omega (arith, length-append {0} full (r ∷ [])))
                        (subst (λ p. p + n * spread < 2 ^ 64) (sym (newest_pos full events pos))
                          left)))
            ]
      ]

  -- From a genesis in the initial phase the driver returns, whatever commands are sampled.
  pub drive-Drove :
      (runner : Runner) (max_steps : ℕ)
      → max_steps * spread < 2 ^ 64
      → R.machine.eq (R.phase genesis) R.machine.initial ≡ true
      → Drove s genesis max_steps (drive s (memory_contract R) genesis seed runner max_steps)
  unfolding drive new_aggregate last pos_at
  drive-Drove runner max_steps room initial = rw initial (
      drive_loop-Drove max_steps 0 max_steps runner (new_memory genesis) (from_state genesis) [] []
        (new-IsDriven genesis) (record { each = tt; newest = λ t e. cc }) (omega arith)
        (omega arith))
