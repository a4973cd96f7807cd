-- ===== src/Contract/Passed.antt =====
-- A driven in-memory journal passes the properties that read it.
use native.Mathlib.Nat.{mod-eq_of_lt}
use ironstate.Prelude.{
  ℕ, zero, suc, ◌+◌, ◌-◌, ◌*◌, ◌≤◌, ◌<◌, ◌^◌, ◌%◌, ◌≡◌, refl, sym, ◌∙◌, ap, subst, Bool, true,
  false, ◌||◌, inl, inr, List, [], ◌∷◌, none, some, Result, ok, err, arith, length, All, ltb, leb,
  ◌==◌, if◌then◌else◌, Bool-cases, Option-cases,
}
use ironstate.Aggregate.{AggregateRules, Aggregate, from_state}
use ironstate.Entropy.Seeded.{Seed, ChaCha, seeded_at, draws}
use ironstate.Journal.{Seq, DrawPos, StreamId, unknown_seq}
use ironstate.Memory.{
  Record, MemoryJournal, memory, genesis_snapshot, stream_mut, head, entropy_pos, count,
}
use ironstate.Memory.History.{pos_at, state_at}
use ironstate.Memory.Range.{position-unknown}
use ironstate.Memory.Represents.{Represents}
use ironstate.Memory.Streams.{entropy_pos-stream}
use ironstate.Replay.{resume}
use ironstate.Replay.Resume.{head-history, count-length, resume-history}
use ironstate.Contract.{Panic, Strategies, test_stream}
use ironstate.Contract.Checks.{
  positions, property_1, property_2, property_3, property_5, property_9, probed, probe_all, add_u64,
  last, replays_to,
}
use ironstate.Contract.Driven.{Lawful, IsAscending, IsDriven, head_pos-IsDriven}
use ironstate.Contract.Recorded.{IsRecorded}
use ironstate.Contract.Answers.{entropy_pos-history, replays_to-history, head_or-history}

add_u64-small : (a b : ℕ) → a + b < 2 ^ 64 → add_u64 a b ≡ a + b
add_u64-small a b h = mod-eq_of_lt h

module _ {R : AggregateRules} {full : List (Record R)} (up : IsAscending full) (message : Panic)
    (j : MemoryJournal R) (id : StreamId) (from : Seq)
    (defined : (at : Seq)
      → from ≤ at
      → at ≤ length full
      → entropy_pos j id at ≡ ok (pos_at full at)) where
  -- The positions from a point on are defined and never decrease.
  pub positions-history :
      (n m : ℕ) (previous : DrawPos)
      → from ≤ suc m
      → m + n ≤ length full
      → (0 < n → previous ≤ pos_at full (suc m))
      → positions (memory R) message j id n (suc m) previous ≡ ok tt
  unfolding positions
  positions-history zero m previous low room start = refl
  positions-history (suc n) m previous low room start =
      let there : entropy_pos j id (suc m) ≡ ok (pos_at full (suc m)) =
        defined (suc m) low (omega arith) in
      let grown : leb previous (pos_at full (suc m)) ≡ true =
        ironstate.Prelude.le→leb _ _ (start (omega arith)) in
      rw (there) (
        rw (grown) (
          positions-history n (suc m) (pos_at full (suc m)) (omega arith) (omega arith)
            (λ more. up.ascending (suc m) (omega arith))))

-- Entropy opened at a position is at that position.
pub draws-seeded_at :
    {R : AggregateRules} {Rng Digest Runner : Type 0} (s : Strategies R Rng Digest Runner)
    {spread : ℕ} (laws : Lawful s spread) (seed : Seed) (pos : DrawPos)
    → pos < 2 ^ 64
    → draws s.harness.chacha (seeded_at s.harness.chacha seed pos) ≡ pos
unfolding draws seeded_at
draws-seeded_at s laws seed pos word =
    ap (λ p. p % 2 ^ 64) (laws.seeks pos _ word) ∙ mod-eq_of_lt word

-- Whatever represents the history resumes to its end.
pub resume-current :
    {R : AggregateRules} {genesis : R.State} {full : List (Record R)} {j : MemoryJournal R}
    {id : StreamId} (a : Aggregate R) {Rng : Type 0} (chacha : ChaCha Rng) (seed : Seed)
    → Represents j id full
    → j.genesis ≡ genesis
    → a.state ≡ state_at genesis full (length full)
    → resume (memory R) chacha j id seed ≡ ok (a, seeded_at chacha seed (pos_at full (length full)))
resume-current {R} {full = full} a chacha seed r origin current =
    let entropy = seeded_at chacha seed (pos_at full (length full)) in
    resume-history r chacha seed
    ∙ ap (λ (g : R.State). ok (from_state (state_at g full (length full)), entropy)) origin
    ∙ ap (λ (t : R.State). ok (from_state t, entropy)) (sym current)

module _ {R : AggregateRules} {genesis : R.State} {full : List (Record R)} {j : MemoryJournal R}
    {a : Aggregate R} (h : IsDriven genesis full j a) where
  -- Past the head a driven journal knows no sequence.
  pub entropy_pos-past :
      (at : Seq) → length full < at → entropy_pos j test_stream at ≡ err (unknown_seq at)
  unfolding genesis_snapshot
  entropy_pos-past at past =
      let nonzero : (0 == at) ≡ false = ground arith in
      let beyond : (leb at (stream_mut j test_stream).truncated
            || ltb (count (stream_mut j test_stream)) at)
          ≡ true =
        ground (arith, count-length h.represents) in
      entropy_pos-stream j test_stream at
      ∙ position-unknown (stream_mut j test_stream) at
          (subst (All (λ s. (s.at == at) ≡ false)) (sym h.based) (nonzero, tt)) (omega arith) beyond

  pub property_2-IsDriven : property_2 (memory R) j test_stream ≡ ok tt
  unfolding property_2
  property_2-IsDriven = elim (Bool-cases (ltb 0 (length full))) [
    | inr empty ↦ rw (head-history h.represents, property_2) (rw (empty, property_2) refl)
    | inl more ↦
        rw (head-history h.represents, property_2)
          (rw (more, property_2)
            (positions-history h.positions "[proven] property 2: entropy_pos" j test_stream 1
              (λ at lo hi. entropy_pos-history h.represents h.undiscarded at lo hi) (length full) 0
              0 (omega arith) (omega arith) (λ some_left. omega arith)))
  ]

  probed-past : (at : Seq) → length full < at → probed at (entropy_pos j test_stream at) ≡ ok tt
  unfolding probed
  probed-past at past =
      let same : (at == at) ≡ true = ground arith in
      rw (entropy_pos-past at past, probed) (rw same refl)

  -- Out of range, provided the head is far below 2^64.
  pub property_9-IsDriven :
      length full + 2 ^ 32 < 2 ^ 64 → property_9 (memory R) j test_stream ≡ ok tt
  unfolding property_9 probe_all
  property_9-IsDriven room =
      let n = length full in
      let sum : add_u64 (2 ^ 32 - 1) n ≡ 2 ^ 32 - 1 + n = add_u64-small _ _ (omega arith) in
      let first : n < add_u64 n 1 = omega (arith, add_u64-small n 1 (omega arith)) in
      let second : n < add_u64 n 2 = omega (arith, add_u64-small n 2 (omega arith)) in
      let third : n < add_u64 (add_u64 (2 ^ 32 - 1) n) 1 =
        subst (λ (k : ℕ). n < add_u64 k 1) (sym sum)
          (omega (arith, add_u64-small (2 ^ 32 - 1 + n) 1 (omega arith))) in
      rw (head_or-history h.represents) (
        rw (probed-past _ first) (
          rw (probed-past _ second)
            (rw (probed-past _ third) (rw (probed-past (2 ^ 64 - 1) (omega arith)) refl))))

  -- Resuming gives the live aggregate, and the entropy at the head.
  pub resume-IsDriven :
      {Rng : Type 0} (chacha : ChaCha Rng) (seed : Seed)
      → resume (memory R) chacha j test_stream seed
        ≡ ok (a, seeded_at chacha seed (pos_at full (length full)))
  resume-IsDriven chacha seed = resume-current a chacha seed h.represents h.origin h.current

  module _ {Rng Digest Runner : Type 0} (s : Strategies R Rng Digest Runner) {spread : ℕ}
      (laws : Lawful s spread) (seed : Seed) where
    pub property_1-IsDriven :
        (steps : List (Seq × Digest))
        → IsRecorded s.harness.digest genesis full steps
        → property_1 s (memory R) j test_stream genesis steps ≡ ok tt
    unfolding property_1
    property_1-IsDriven steps rec = elim (Option-cases (last steps)) [
      | inl nothing ↦ rw (nothing, property_1) refl
      | inr (t, final) ↦
          rw (final, property_1)
            (subst (λ g. replays_to s (memory R) j test_stream g t.1 "[proven] property 1" ≡ ok tt)
              h.origin
              (replays_to-history h.represents h.undiscarded s laws.same t.1 "[proven] property 1" (
                rec.newest t final
                ∙ ap (λ g. s.harness.digest (state_at g full (length full))) (sym h.origin))))
    ]

    pub property_3-IsDriven :
        (runner : Runner)
        → (next : Runner) × (property_3 s (memory R) j test_stream a seed runner ≡ ok next)
    unfolding property_3
    property_3-IsDriven runner = elim (Option-cases (head j test_stream)) [
      | inl empty ↦ (runner, rw (empty, property_3) refl)
      | inr (at, there) ↦ (
        (s.harness.sample a.state runner).1,
        rw (there, property_3)
            (rw (head_pos-IsDriven s h)
              (rw (resume-IsDriven s.harness.chacha seed) (rw (laws.same _) refl))),
      )
    ]

    pub property_5-IsDriven : property_5 s (memory R) j test_stream seed ≡ ok tt
    unfolding property_5
    property_5-IsDriven = elim (Option-cases (head j test_stream)) [
      | inl empty ↦ rw (empty, property_5) refl
      | inr (at, there) ↦
          let p = pos_at full (length full) in
          let same : (p == p) ≡ true = ground arith in
          rw (there, property_5)
            (rw (head_pos-IsDriven s h) (
              rw (resume-IsDriven s.harness.chacha seed) (
                rw (draws-seeded_at s laws seed p (h.positions.small (length full) (omega arith)))
                  (rw same refl))))
    ]
