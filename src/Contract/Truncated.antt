-- ===== src/Contract/Truncated.antt =====
-- A driven in-memory journal passes the property on truncation.
use ironstate.Prelude.{
  ℕ, zero, suc, ◌+◌, ◌-◌, ◌≤◌, ◌<◌, ◌≡◌, ◌⊎◌, refl, sym, ◌∙◌, ap, subst, true, false, ◌||◌, inl,
  inr, List, [], ◌∷◌, ◌++◌, ok, err, arith, length, All, All-map, All-retain, ltb, leb, leb→le,
  ◌==◌, Bool-cases,
}
use ironstate.Aggregate.{AggregateRules, Aggregate}
use ironstate.Entropy.Seeded.{Seed}
use ironstate.Journal.{Seq, Snapshot, unknown_seq}
use ironstate.Memory.{
  Record, MemoryJournal, memory, memory_retainable, genesis_snapshot, snapshot, stream_mut,
  put_stream, truncate_before, retained_from, entropy_pos, cut, count, max, latest_snapshot_at,
  uncovered,
}
use ironstate.Memory.History.{pos_at, state_at}
use ironstate.Memory.Read.{position-history}
use ironstate.Memory.Range.{position-unknown}
use ironstate.Memory.Write.{cut-IsFaithful}
use ironstate.Memory.Streams.{entropy_pos-stream}
use ironstate.Memory.Represents.{Represents, put-Represents, snapshot-Represents, stream_mut_self}
use ironstate.Memory.Retention.{truncate_before-within, retained_from-truncate_before}
use ironstate.Replay.Resume.{head-history, count-length}
use ironstate.Contract.{Panic, Strategies, test_stream}
use ironstate.Contract.Checks.{midpoint, positions}
use ironstate.Contract.Suites.{forgotten, truncated_well, property_10}
use ironstate.Contract.Driven.{Lawful, IsAscending, IsDriven}
use ironstate.Contract.Passed.{positions-history, resume-current, resume-IsDriven, draws-seeded_at}

-- A journal cut at `at`, of which every snapshot left is at the start or the head.
record IsCut {R : AggregateRules} (genesis : R.State) (full : List (Record R)) (at : Seq)
    (l : MemoryJournal R) : Type 0 where
  represents : Represents l test_stream full
  origin : l.genesis ≡ genesis
  horizon : (stream_mut l test_stream).truncated + 1 ≡ at
  retained : retained_from l test_stream ≡ at
  ends :
      All
        (λ s. ((s.at ≡ 0) ⊎ (s.at ≡ length full)) × (at ≤ s.at + 1))
        (stream_mut l test_stream).snapshots

module _ {R : AggregateRules} {genesis : R.State} {full : List (Record R)} {at : Seq}
    {l : MemoryJournal R} (c : IsCut genesis full at l) (within : at ≤ length full) where
  -- What is retained is answered, and what was discarded is not.
  entropy_pos-retained :
      (n : Seq) → at ≤ n → n ≤ length full → entropy_pos l test_stream n ≡ ok (pos_at full n)
  entropy_pos-retained n lo hi =
      entropy_pos-stream l test_stream n
      ∙ position-history c.represents.faithful n (omega (arith, c.horizon))
          (omega (arith, count-length c.represents))
      ∙ ap (λ f. ok (pos_at f n)) c.represents.whole

  entropy_pos-gone : (n : Seq) → 0 < n → n < at → entropy_pos l test_stream n ≡ err (unknown_seq n)
  entropy_pos-gone n lo hi =
      let st = stream_mut l test_stream in
      let below : (leb n st.truncated || ltb (count st) n) ≡ true = ground (arith, c.horizon) in
      entropy_pos-stream l test_stream n
      ∙ position-unknown st n
          (All-map _ _ st.snapshots
            (λ s k. elim k.0 [
              | inl start ↦ ground (arith, start, k.1)
              | inr end ↦ ground (arith, end, k.1)
            ])
            c.ends)
          lo below

  module _ {Rng Digest Runner : Type 0} (s : Strategies R Rng Digest Runner) {spread : ℕ}
      (laws : Lawful s spread) (seed : Seed) where
    forgotten-gone :
        (n gone : ℕ)
        → 0 < gone
        → gone + n ≤ at
        → forgotten s (memory_retainable R) l test_stream n gone ≡ ok tt
    unfolding forgotten
    forgotten-gone zero gone lo hi = refl
    forgotten-gone (suc n) gone lo hi =
        rw (entropy_pos-gone gone lo (omega arith))
          (forgotten-gone n (gone + 1) (omega arith) (omega arith))

    truncated_well-IsCut :
        (a : Aggregate R)
        → IsAscending full
        → 0 < at
        → a.state ≡ state_at genesis full (length full)
        → truncated_well s
            (memory_retainable R)
            l
            test_stream
            seed
            (length full)
            at
            a
            (pos_at full (length full))
          ≡ ok tt
    unfolding truncated_well
    truncated_well-IsCut a up positive current =
        let p = pos_at full (length full) in
        let msg : Panic = "[proven] property 10: entropy_pos" in
        let step : suc (at - 1) ≡ at = omega arith in
        let climbing : positions (memory R) msg l test_stream (length full + 1 - at) at 0 ≡ ok tt =
          subst
            (λ (k : ℕ). positions (memory R) msg l test_stream (length full + 1 - at) k 0 ≡ ok tt)
            step
            (positions-history up msg l test_stream at entropy_pos-retained (length full + 1 - at)
              (at - 1) 0 (omega arith) (omega arith) (λ more. omega arith)) in
        let same_p : (p == p) ≡ true = ground arith in
        let same_at : (at == at) ≡ true = ground arith in
        rw (c.retained) (
          rw climbing (
            rw (forgotten-gone (at - 1) 1 (omega arith) (omega arith)) (
              rw (resume-current a s.harness.chacha seed c.represents c.origin current) (
                rw (laws.same (s.harness.digest a.state)) (
                  rw (draws-seeded_at s laws seed p (up.small (length full) (omega arith)))
                    (rw same_p (rw same_at refl)))))))

module _ {R : AggregateRules} {genesis : R.State} {full : List (Record R)} {j : MemoryJournal R}
    {a : Aggregate R} (h : IsDriven genesis full j a) where
  -- The snapshot that is taken at the head.
  abbrev at_head : Snapshot R
  at_head = record {
    state = a.state;
    schema_version = 0;
    at = length full;
    entropy_pos = pos_at full (length full);
  }

  abbrev checkpointed : MemoryJournal R
  checkpointed = snapshot j test_stream at_head

  snapshots-checkpointed :
      stream_mut checkpointed test_stream
      ≡ record (stream_mut j test_stream) { snapshots = genesis_snapshot genesis ∷ at_head ∷ [] }
  unfolding snapshot
  snapshots-checkpointed =
      stream_mut_self j test_stream _
      ∙ ap (λ ss. record (stream_mut j test_stream) { snapshots = ss ++ (at_head ∷ []) }) h.based

  checkpointed-Represents : Represents checkpointed test_stream full
  checkpointed-Represents = snapshot-Represents j test_stream at_head h.represents (record {
    within = omega arith;
    retained = omega (arith, h.undiscarded);
    state = h.current ∙ ap (λ g. state_at g full (length full)) (sym h.origin);
    pos = refl;
  })

  -- The snapshot at the head covers every truncation.
  covered :
      (at : Seq)
      → 0 < length full
      → at ≤ length full
      → uncovered (latest_snapshot_at (stream_mut checkpointed test_stream)) (at - 1) ≡ false
  unfolding latest_snapshot_at max genesis_snapshot
  covered at more within =
      let st = stream_mut j test_stream in
      let size : st.truncated + length st.records ≡ length full = count-length h.represents in
      let first : leb 0 (st.truncated + length st.records) ≡ true = ground arith in
      let second : leb (length full) (st.truncated + length st.records) ≡ true = ground arith in
      let larger : ltb (length full) 0 ≡ false = ground arith in
      let reached : ltb (length full) (at - 1) ≡ false = ground arith in
      rw snapshots-checkpointed (rw first (rw second (rw larger reached)))

  -- What a cut leaves of its snapshots is at the start or the head.
  ends-cut :
      (at : Seq)
      → (cut (stream_mut checkpointed test_stream) at).truncated + 1 ≡ at
      → All
          (λ s. ((s.at ≡ 0) ⊎ (s.at ≡ length full)) × (at ≤ s.at + 1))
          (cut (stream_mut checkpointed test_stream) at).snapshots
  unfolding cut genesis_snapshot
  ends-cut at horizon =
      let st = stream_mut checkpointed test_stream in
      let IsEnd = λ (s : Snapshot R). (s.at ≡ 0) ⊎ (s.at ≡ length full) in
      let all : All IsEnd st.snapshots =
        subst (λ t. All IsEnd t.snapshots) (sym snapshots-checkpointed)
          (inl refl, (inr refl, tt)) in
      All-map _ _ (cut st at).snapshots
        (λ s k. (k.0, omega (arith, leb→le (cut st at).truncated s.at k.1, horizon)))
        (All-retain IsEnd (λ s. leb (cut st at).truncated s.at) st.snapshots all)

  truncated-IsCut :
      (at : Seq)
      → 0 < at
      → at ≤ length full
      → (l : MemoryJournal R) × (truncate_before checkpointed test_stream at ≡ (l, ok tt))
        × IsCut genesis full at l
  unfolding put_stream snapshot
  truncated-IsCut at positive within =
      let r = checkpointed-Represents in
      let st = stream_mut checkpointed test_stream in
      let whole : st.truncated ≡ 0 = ap (λ t. t.truncated) snapshots-checkpointed ∙ h.undiscarded in
      let size = count-length r in
      let cover = covered at (omega arith) within in
      let lower : st.truncated < at = omega (arith, whole) in
      let upper : at ≤ count st + 1 = omega (arith, size) in
      let done =
        truncate_before-within checkpointed test_stream at (omega (arith, size)) lower upper
          cover in
      let (faithful, same, horizon) = cut-IsFaithful at r.faithful lower upper cover in
      let l = put_stream checkpointed test_stream (cut st at) in
      let back : stream_mut l test_stream ≡ cut st at =
        stream_mut_self checkpointed test_stream (cut st at) in
      (
        l,
        done,
        record {
          represents =
              put-Represents checkpointed test_stream (cut st at) _ faithful (same ∙ r.whole);
          origin = h.origin;
          horizon = ap (λ t. t.truncated + 1) back ∙ horizon;
          retained =
              ap (λ t. retained_from t.0 test_stream) (sym done)
              ∙ retained_from-truncate_before checkpointed test_stream at r (ap (λ t. t.1) done);
          ends =
              subst
                (λ t. All (λ s. ((s.at ≡ 0) ⊎ (s.at ≡ length full)) × (at ≤ s.at + 1)) t.snapshots)
                (sym back) (ends-cut at horizon);
        },
      )

  module _ {Rng Digest Runner : Type 0} (s : Strategies R Rng Digest Runner) {spread : ℕ}
      (laws : Lawful s spread) (seed : Seed) where
    pub property_10-IsDriven :
        (l : MemoryJournal R) × (property_10 s (memory_retainable R) j test_stream seed ≡ ok l)
    unfolding property_10
    property_10-IsDriven = elim (Bool-cases (ltb 0 (length full))) [
      | inr empty ↦ (j, rw (head-history h.represents, property_10) (rw (empty, property_10) refl))
      | inl more ↦
          let n = length full in
          let p = pos_at full n in
          let at = midpoint n in
          let positive : 0 < at = ground arith in
          let within : at ≤ n = ground arith in
          let (l, done, c) = truncated-IsCut at positive within in
          (
            l,
            rw (head-history h.represents, property_10)
                (rw (more, property_10)
                  (rw (resume-IsDriven h s.harness.chacha seed, property_10)
                    (rw (draws-seeded_at s laws seed p (h.positions.small n (omega arith))) (
                      rw done (
                        rw
                          (truncated_well-IsCut c within s laws seed a h.positions positive
                            h.current)
                          refl))))),
          )
    ]
