-- ===== src/Contract/Forked.antt =====
-- A driven in-memory journal passes the properties that fork it.
use ironstate.Prelude.{
  ℕ, ◌≤◌, ◌<◌, ◌≡◌, ◌≢◌, refl, sym, ◌∙◌, ap, subst, true, inl, inr, List, [], ◌∷◌, none, some, ok,
  arith, length, take, length-take, All, retain, ltb, leb, ◌==◌, Bool-cases, if◌then◌else◌,
  take-append-drop, drop,
}
use ironstate.Aggregate.{AggregateRules, Aggregate}
use ironstate.Journal.{Seq, Snapshot}
use ironstate.Memory.{
  Record, MemoryJournal, memory, genesis_snapshot, stream_mut, head, fork, entropy_pos,
}
use ironstate.Memory.History.{state_at, pos_at, state_at-append, pos_at-append}
use ironstate.Memory.Represents.{Represents}
use ironstate.Memory.Branch.{fork-Represents, fork-within_ok, fork-genesis, fork-undiscarded}
use ironstate.Replay.Resume.{head-history, count-length}
use ironstate.Contract.{Strategies, test_stream}
use ironstate.Contract.Checks.{property_1_at_each_step, property_4, midpoint, replays_to}
use ironstate.Contract.Driven.{Lawful, IsDriven}
use ironstate.Contract.Recorded.{IsRecorded}
use ironstate.Contract.Answers.{replays_to-history, entropy_pos-history}

module _ {R : AggregateRules} {genesis : R.State} {full : List (Record R)} {j : MemoryJournal R}
    {a : Aggregate R} (h : IsDriven genesis full j a) where
  -- What a branch of a driven journal is.
  record IsBranch (at : Seq) (b : MemoryJournal R) : Type 0 where
    forked : fork j test_stream at ≡ ok b
    represents : Represents b test_stream (take at full)
    undiscarded : (stream_mut b test_stream).truncated ≡ 0
    origin : b.genesis ≡ genesis
    size : length (take at full) ≡ at

  branched : (at : Seq) → 0 < at → at ≤ length full → (b : MemoryJournal R) × IsBranch at b
  unfolding genesis_snapshot
  branched at lo hi =
      let kept : leb 0 at ≡ true = ground arith in
      let based : retain (λ (s : Snapshot R). leb s.at at) (genesis_snapshot genesis ∷ []) ≢ [] =
        rw kept (λ e. cc) in
      let (b, forked) =
        fork-within_ok j test_stream at (omega (arith, count-length h.represents))
          (omega (arith, h.undiscarded))
          (subst (λ ss. retain (λ (s : Snapshot R). leb s.at at) ss ≢ []) (sym h.based) based) in
      (
        b,
        record {
          forked = forked;
          represents = fork-Represents j b test_stream at h.represents forked;
          undiscarded = fork-undiscarded j b test_stream at forked h.undiscarded;
          origin = fork-genesis j test_stream at b forked ∙ h.origin;
          size = length-take at full hi;
        },
      )

  state_at-take :
      (at : Seq) → at ≤ length full → state_at genesis (take at full) at ≡ state_at genesis full at
  state_at-take at hi =
      sym (
        state_at-append genesis (take at full) (drop at full) at
          (omega (arith, length-take at full hi)))
      ∙ ap (λ l. state_at genesis l at) (take-append-drop at full)

  pos_at-take : (at : Seq) → at ≤ length full → pos_at (take at full) at ≡ pos_at full at
  pos_at-take at hi =
      sym (pos_at-append (take at full) (drop at full) at (omega (arith, length-take at full hi)))
      ∙ ap (λ l. pos_at l at) (take-append-drop at full)

  module _ {Rng Digest Runner : Type 0} (s : Strategies R Rng Digest Runner) {spread : ℕ}
      (laws : Lawful s spread) where
    replays_to-branch :
        (at : Seq) (b : MemoryJournal R) (d : Digest)
        → IsBranch at b
        → at ≤ length full
        → d ≡ s.harness.digest (state_at genesis full at)
        → replays_to s (memory R) b test_stream genesis d "[proven] property 1b" ≡ ok tt
    replays_to-branch at b d br hi e =
        subst (λ g. replays_to s (memory R) b test_stream g d "[proven] property 1b" ≡ ok tt)
          br.origin
          (replays_to-history br.represents br.undiscarded s laws.same d "[proven] property 1b" (
            e
            ∙ ap s.harness.digest (sym (state_at-take at hi))
            ∙ ap (λ k. s.harness.digest (state_at genesis (take at full) k)) (sym br.size)
            ∙ ap (λ g. s.harness.digest (state_at g (take at full) (length (take at full))))
                (sym br.origin)))

    each_step :
        (steps : List (Seq × Digest))
        → All
            (λ (t : Seq × Digest).
              (1 ≤ t.0)
              × (t.0 ≤ length full)
              × (t.1 ≡ s.harness.digest (state_at genesis full t.0)))
            steps
        → property_1_at_each_step s (memory R) fork j test_stream genesis steps ≡ ok tt
    unfolding property_1_at_each_step
    each_step [] all = refl
    each_step ((at, d) ∷ steps) all =
        let (lo, hi, e) = all.0 in
        let (b, br) = branched at (omega (arith, lo)) hi in
        rw (br.forked) (rw (replays_to-branch at b d br hi e) (each_step steps all.1))

    pub property_1_at_each_step-IsDriven :
        (steps : List (Seq × Digest))
        → IsRecorded s.harness.digest genesis full steps
        → property_1_at_each_step s (memory R) fork j test_stream genesis steps ≡ ok tt
    property_1_at_each_step-IsDriven steps rec = each_step steps rec.each

    midpoint-within : (n : Seq) → 0 < n → (0 < midpoint n) × (midpoint n ≤ n)
    midpoint-within n h = (ground arith, ground arith)

    pub property_4-IsDriven : property_4 s (memory R) fork j test_stream ≡ ok tt
    unfolding property_4
    property_4-IsDriven = elim (Bool-cases (ltb 0 (length full))) [
      | inr empty ↦ rw (head-history h.represents, property_4) (rw (empty, property_4) refl)
      | inl more ↦
          let n = length full in
          let at = midpoint n in
          let (lo, hi) = midpoint-within n (ground arith) in
          let (b, br) = branched at lo hi in
          let p = pos_at full at in
          let there : entropy_pos b test_stream at ≡ ok p =
            entropy_pos-history br.represents br.undiscarded at lo (omega (arith, br.size))
            ∙ ap ok (pos_at-take at hi) in
          let here : entropy_pos j test_stream at ≡ ok p =
            entropy_pos-history h.represents h.undiscarded at lo hi in
          let top : head b test_stream ≡ some at =
            head-history br.represents
            ∙ ap (λ k. if ltb 0 k then some k else none) br.size
            ∙ ground arith in
          let same : (p == p) ≡ true = ground arith in
          let same_at : (at == at) ≡ true = ground arith in
          rw (head-history h.represents, property_4)
            (rw (more, property_4)
              (rw (br.forked) (rw there (rw here (rw same (rw top (rw same_at refl)))))))
    ]
