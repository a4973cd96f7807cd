-- ===== src/Memory/Retention.antt =====
-- Truncation: what it refuses, what it discards, and that it never loses the way back.
use ironstate.Prelude.{
  ◌+◌, ◌-◌, ◌≤◌, ◌<◌, ◌≡◌, ◌≢◌, sym, ◌∙◌, ap, subst, false, inl, inr, List, ok, err, arith,
  Result-cases,
}
use ironstate.Aggregate.{AggregateRules}
use ironstate.Journal.{Seq, StreamId, JournalError}
use ironstate.Memory.{
  Record, MemoryJournal, stream_or_new, stream_mut, put_stream, truncate_before, cut, count,
  latest_snapshot_at, uncovered, retained_from, retained_of, stream_retained_from,
}
use ironstate.Memory.Write.{cut-IsFaithful}
use ironstate.Memory.Represents.{Represents, put-Represents, put-Represents_other, stream_mut_self}

module _ {R : AggregateRules} (j : MemoryJournal R) (id : StreamId) (at : Seq) where
  -- A truncation that is refused leaves the journal exactly as it was, the set of its streams
  -- included.
  pub truncate_before-err :
      (e : JournalError) → (truncate_before j id at).1 ≡ err e → (truncate_before j id at).0 ≡ j
  unfolding truncate_before
  truncate_before-err e h = ground arith

  -- A truncation that succeeds passed every check.
  truncate_before-ok :
      (truncate_before j id at).1 ≡ ok tt
      → ((truncate_before j id at).0 ≡ put_stream j id (cut (stream_mut j id) at))
        × ((stream_mut j id).truncated < at)
        × (at ≤ count (stream_mut j id) + 1)
        × (uncovered (latest_snapshot_at (stream_mut j id)) (at - 1) ≡ false)
  unfolding truncate_before stream_mut
  truncate_before-ok h = ground arith

  -- A truncation of a stream with records that passes every check succeeds.
  pub truncate_before-within :
      0 < count (stream_mut j id)
      → (stream_mut j id).truncated < at
      → at ≤ count (stream_mut j id) + 1
      → uncovered (latest_snapshot_at (stream_mut j id)) (at - 1) ≡ false
      → truncate_before j id at ≡ (put_stream j id (cut (stream_mut j id) at), ok tt)
  unfolding truncate_before stream_mut
  truncate_before-within some_left lower upper cover = ground arith

  -- A truncation, accepted or refused, keeps the represented history of its stream: what every
  -- retained snapshot and record stands for is unchanged, and at least one snapshot at or above
  -- the horizon survives.
  pub truncate_before-Represents :
      {full : List (Record R)}
      → Represents j id full
      → Represents (truncate_before j id at).0 id full
  truncate_before-Represents {full} r = elim (Result-cases (truncate_before j id at).1) [
    | inl (tt, h) ↦
        let (same, lower, upper, cover) = truncate_before-ok h in
        let (faithful, whole, horizon) = cut-IsFaithful at r.faithful lower upper cover in
        subst (λ k. Represents k id full) (sym same)
          (put-Represents j id (cut (stream_mut j id) at) _ faithful (whole ∙ r.whole))
    | inr (e, h) ↦ subst (λ k. Represents k id full) (sym (truncate_before-err e h)) r
  ]

  pub truncate_before-Represents_other :
      (k : StreamId) {full : List (Record R)}
      → id ≢ k
      → Represents j k full
      → Represents (truncate_before j id at).0 k full
  truncate_before-Represents_other k {full} n r = elim (Result-cases (truncate_before j id at).1) [
    | inl (tt, h) ↦
        subst (λ l. Represents l k full) (sym ((truncate_before-ok h).0))
          (put-Represents_other j id k _ n r)
    | inr (e, h) ↦ subst (λ l. Represents l k full) (sym (truncate_before-err e h)) r
  ]

  retained_from-stream :
      (l : MemoryJournal R) → retained_from l id ≡ (stream_mut l id).truncated + 1
  unfolding retained_from retained_of stream_retained_from stream_mut stream_or_new
  retained_from-stream l = ground arith

  -- After a truncation that succeeded, the earliest sequence retained is the one asked for.
  pub retained_from-truncate_before :
      {full : List (Record R)}
      → Represents j id full
      → (truncate_before j id at).1 ≡ ok tt
      → retained_from (truncate_before j id at).0 id ≡ at
  retained_from-truncate_before r h =
      let (same, lower, upper, cover) = truncate_before-ok h in
      let (faithful, whole, horizon) = cut-IsFaithful at r.faithful lower upper cover in
      ap (λ l. retained_from l id) same
      ∙ retained_from-stream (put_stream j id (cut (stream_mut j id) at))
      ∙ ap (λ st. st.truncated + 1) (stream_mut_self j id (cut (stream_mut j id) at))
      ∙ horizon

  pub truncate_before-genesis : (truncate_before j id at).0.genesis ≡ j.genesis
  unfolding put_stream
  truncate_before-genesis = elim (Result-cases (truncate_before j id at).1) [
    | inl (tt, h) ↦ ap (λ l. l.genesis) ((truncate_before-ok h).0)
    | inr (e, h) ↦ ap (λ l. l.genesis) (truncate_before-err e h)
  ]
