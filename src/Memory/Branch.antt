-- ===== src/Memory/Branch.antt =====
-- Forking: the branch has the history of its stream up to the fork point.
use ironstate.Prelude.{
  ◌-◌, ◌≤◌, ◌<◌, ◌≡◌, ◌≢◌, ◌⊎◌, take-append-drop, refl, sym, ◌∙◌, ap, subst, false, ◌&&◌, inl, inr,
  List, [], ◌∷◌, ◌++◌, Option, none, some, ok, arith, length, take, drop, append_assoc,
  take-append_past, length-append, length-take, retain, All-map, All-retain, ltb, leb, leb→le,
  le→leb,
}
use ironstate.Prelude.Map.{get}
use ironstate.Aggregate.{AggregateRules}
use ironstate.Journal.{Seq, StreamId, Snapshot}
use ironstate.Memory.{
  Record, Stream, MemoryJournal, new, stream_or_new, stream_mut, put_stream, fork, fork_of,
  fork_with, count,
}
use ironstate.Memory.History.{IsSound, IsFaithful, state_at, pos_at, state_at-append, pos_at-append}
use ironstate.Memory.Read.{count-history, retain-eq}
use ironstate.Memory.Represents.{Represents, put-Represents, new-Represents, stream_mut_self}

module _ {R : AggregateRules} where
  -- The stream of the branch.
  abbrev branch : Stream R → Seq → List (Snapshot R) → Stream R
  branch source at base = record {
    truncated = source.truncated;
    records = take (at - source.truncated) source.records;
    snapshots = base;
  }

  module _ (j b : MemoryJournal R) (id : StreamId) (at : Seq) where
    -- A fork that succeeds is of a fresh stream at its genesis, or passed every check.
    fork-ok :
        fork j id at ≡ ok b
        → ((at ≡ 0) × (b ≡ new j.genesis) × (get j.streams id ≡ none))
          ⊎ ((at ≤ count (stream_mut j id))
              × ((stream_mut j id).truncated ≤ at)
              × (retain (λ s. leb s.at at) (stream_mut j id).snapshots ≢ [])
              × (b
                  ≡ put_stream (new j.genesis) id (
                      branch
                        (stream_mut j id)
                        at
                        (retain (λ s. leb s.at at) (stream_mut j id).snapshots))))
    unfolding fork stream_mut put_stream
    fork-ok h = ground arith

  -- The branch of a faithful stream is faithful to the history up to the fork point.
  branch-IsFaithful :
      {genesis : R.State} {gone : List (Record R)} {st : Stream R} (at : Seq)
      → IsFaithful genesis gone st
      → at ≤ count st
      → st.truncated ≤ at
      → retain (λ s. leb s.at at) st.snapshots ≢ []
      → IsFaithful genesis gone (branch st at (retain (λ s. leb s.at at) st.snapshots))
        × (gone ++ take (at - st.truncated) st.records ≡ take at (gone ++ st.records))
  branch-IsFaithful {genesis} {gone} {st} at f upper lower based =
      let kept : List (Record R) = gone ++ take (at - st.truncated) st.records in
      let later : List (Record R) = drop (at - st.truncated) st.records in
      let whole : kept ++ later ≡ gone ++ st.records =
        append_assoc gone (take (at - st.truncated) st.records) later
        ∙ ap (λ l. gone ++ l) (take-append-drop (at - st.truncated) st.records) in
      let size : length kept ≡ at = omega (
        arith,
        length-append {0} gone (take (at - st.truncated) st.records),
        length-take {0} (at - st.truncated) st.records (omega arith),
        f.counted,
      ) in
      (
        record {
          counted = f.counted;
          based = based;
          sound =
              All-map _ _ (retain (λ s. leb s.at at) st.snapshots)
                (λ s h.
                  let within : s.at ≤ length kept = omega (arith, leb→le s.at at h.1, size) in
                  record {
                    within = within;
                    retained = h.0.retained;
                    state =
                        h.0.state
                        ∙ ap (λ l. state_at genesis l s.at) (sym whole)
                        ∙ state_at-append genesis kept later s.at within;
                    pos =
                        h.0.pos
                        ∙ ap (λ l. pos_at l s.at) (sym whole)
                        ∙ pos_at-append kept later s.at within;
                  })
                (All-retain _ (λ s. leb s.at at) st.snapshots f.sound);
        },
        sym (
            take-append_past at gone st.records (omega (arith, f.counted))
            ∙ ap (λ k. gone ++ take (at - k) st.records) f.counted),
      )

  -- A fork that succeeds is a journal whose stream represents exactly the source history up to
  -- the fork point.
  pub fork-Represents :
      (j b : MemoryJournal R) (id : StreamId) (at : Seq) {full : List (Record R)}
      → Represents j id full
      → fork j id at ≡ ok b
      → Represents b id (take at full)
  fork-Represents j b id at {full} r h = elim (fork-ok j b id at h) [
    | inl (origin, fresh, absent) ↦
        subst (λ l. Represents l id (take at full)) (sym fresh)
          (subst (λ k. Represents (new j.genesis) id (take k full)) (sym origin)
            (new-Represents j.genesis id))
    | inr (upper, lower, based, same) ↦
        let (faithful, whole) = branch-IsFaithful at r.faithful upper lower based in
        subst (λ l. Represents l id (take at full)) (sym same)
          (put-Represents (new j.genesis) id _ r.gone (unfold new in faithful)
            (whole ∙ ap (take at) r.whole))
  ]

  branched :
      (genesis : R.State) (id : StreamId) (at : Seq) (source : Stream R) (base : List (Snapshot R))
      → base ≢ []
      → (b : MemoryJournal R) × (fork_with genesis id at source base ≡ ok b)
  unfolding fork_with
  branched genesis id at source [] n = absurd (n refl)
  branched genesis id at source (s ∷ base) n = (_, refl)

  fork_of-within :
      (genesis : R.State) (id : StreamId) (o : Option (Stream R)) (at : Seq)
      → at ≤ count (stream_or_new genesis o)
      → (stream_or_new genesis o).truncated < at
      → retain (λ s. leb s.at at) (stream_or_new genesis o).snapshots ≢ []
      → (b : MemoryJournal R) × (fork_of genesis id at o ≡ ok b)
  unfolding fork_of stream_or_new
  fork_of-within genesis id none at size h based = absurd (omega arith)
  fork_of-within genesis id (some st) at size h based =
      let inside : ltb (count st) at ≡ false = ground arith in
      let above : (ltb 0 st.truncated && leb at st.truncated) ≡ false = ground arith in
      rw (inside, above) (branched genesis id at st (retain (λ s. leb s.at at) st.snapshots) based)

  -- A fork at a retained sequence succeeds if a snapshot is at or below it.
  pub fork-within_ok :
      (j : MemoryJournal R) (id : StreamId) (at : Seq)
      → at ≤ count (stream_mut j id)
      → (stream_mut j id).truncated < at
      → retain (λ s. leb s.at at) (stream_mut j id).snapshots ≢ []
      → (b : MemoryJournal R) × (fork j id at ≡ ok b)
  unfolding fork stream_mut
  fork-within_ok j id at = fork_of-within j.genesis id (get j.streams id) at

  -- A fork at the head of a stream with a represented history succeeds, unless all its records
  -- have been discarded.
  pub fork-head_ok :
      (j : MemoryJournal R) (id : StreamId) {full : List (Record R)}
      → Represents j id full
      → (stream_mut j id).truncated < length full
      → (b : MemoryJournal R) × (fork j id (length full) ≡ ok b)
  fork-head_ok j id {full} r h =
      let f = r.faithful in
      let st = stream_mut j id in
      let size : count st ≡ length full = count-history f ∙ ap length r.whole in
      let all : retain (λ s. leb s.at (length full)) st.snapshots ≡ st.snapshots =
        retain-eq (λ s. leb s.at (length full)) st.snapshots
          (All-map _ _ st.snapshots
            (λ s (t : IsSound j.genesis (r.gone ++ st.records) st.truncated s).
              le→leb _ _ (omega (arith, t.within, ap length r.whole)))
            f.sound) in
      fork-within_ok j id (length full) (omega (arith, size)) h (λ e. f.based (sym all ∙ e))

  -- A branch of a stream of which nothing was discarded is one too.
  pub fork-undiscarded :
      (j b : MemoryJournal R) (id : StreamId) (at : Seq)
      → fork j id at ≡ ok b
      → (stream_mut j id).truncated ≡ 0
      → (stream_mut b id).truncated ≡ 0
  unfolding new stream_mut get stream_or_new ironstate.Memory.new_stream
  fork-undiscarded j b id at h none_gone = elim (fork-ok j b id at h) [
    | inl (origin, fresh, absent) ↦ ap (λ l. (stream_mut l id).truncated) fresh
    | inr (upper, lower, based, same) ↦
        ap (λ l. (stream_mut l id).truncated) same
        ∙ ap (λ st. st.truncated) (stream_mut_self (new j.genesis) id _)
        ∙ none_gone
  ]

  pub fork-genesis :
      (j : MemoryJournal R) (id : StreamId) (at : Seq) (b : MemoryJournal R)
      → fork j id at ≡ ok b
      → b.genesis ≡ j.genesis
  unfolding put_stream new
  fork-genesis j id at b h = elim (fork-ok j b id at h) [
    | inl (origin, fresh, absent) ↦ ap (λ l. l.genesis) fresh
    | inr (upper, lower, based, same) ↦ ap (λ l. l.genesis) same
  ]
