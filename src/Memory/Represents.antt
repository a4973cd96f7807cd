-- ===== src/Memory/Represents.antt =====
-- The journal refines an append-only log: each operation, on one stream, extends the history of
-- that stream or leaves it, and no operation touches another stream's.
use ironstate.Prelude.{
  suc, ◌+◌, ◌≡◌, ◌≢◌, refl, sym, ◌∙◌, ap, subst, inl, inr, List, [], ◌∷◌, ◌++◌, arith, length,
  Bool-cases, str_eq, eq_iff, length-append, append_assoc,
}
use ironstate.Prelude.Map.{get}
use ironstate.Aggregate.{AggregateRules}
use ironstate.Journal.{DrawPos, StreamId, Snapshot}
use ironstate.Memory.{
  Record, Stream, MemoryJournal, new, new_stream, stream_or_new, stream_mut, put_stream, append,
  snapshot,
}
use ironstate.Memory.History.{IsSound, IsFaithful, new_stream-IsFaithful}
use ironstate.Memory.Write.{append-IsFaithful, snapshot-IsFaithful}
use ironstate.Memory.Streams.{stream_mut-put_stream}

module _ {R : AggregateRules} where
  -- The history of the stream `id` in the journal, with the records discarded since.
  pub record Represents (j : MemoryJournal R) (id : StreamId) (full : List (Record R))
      : Type 0 where
    pub gone : List (Record R)
    pub faithful : IsFaithful j.genesis gone (stream_mut j id)
    pub whole : gone ++ (stream_mut j id).records ≡ full

  pub new-Represents : (genesis : R.State) (id : StreamId) → Represents (new genesis) id []
  unfolding new stream_mut stream_or_new new_stream get
  new-Represents genesis id = record {
    gone = [];
    faithful = new_stream-IsFaithful genesis;
    whole = refl;
  }

  -- The stream written to, read back.
  pub stream_mut_self :
      (j : MemoryJournal R) (id : StreamId) (st : Stream R)
      → stream_mut (put_stream j id st) id ≡ st
  stream_mut_self j id st = stream_mut-put_stream j id st id ∙ rw ((eq_iff id id).1 refl)

  pub stream_mut_other :
      (j : MemoryJournal R) (id k : StreamId) (st : Stream R)
      → id ≢ k
      → stream_mut (put_stream j id st) k ≡ stream_mut j k
  stream_mut_other j id k st n = elim (Bool-cases (str_eq id k)) [
    | inl same ↦ absurd (n ((eq_iff id k).0 same))
    | inr other ↦ stream_mut-put_stream j id st k ∙ rw other
  ]

  -- A write of a stream that is faithful to `full`.
  pub put-Represents :
      (j : MemoryJournal R) (id : StreamId) (st : Stream R) {full : List (Record R)}
      (gone : List (Record R))
      → IsFaithful j.genesis gone st
      → gone ++ st.records ≡ full
      → Represents (put_stream j id st) id full
  unfolding put_stream
  put-Represents j id st gone f w = record {
    gone = gone;
    faithful = subst (IsFaithful j.genesis gone) (sym (stream_mut_self j id st)) f;
    whole = ap (λ t. gone ++ t.records) (stream_mut_self j id st) ∙ w;
  }

  -- A write to another stream.
  pub put-Represents_other :
      (j : MemoryJournal R) (id k : StreamId) (st : Stream R) {full : List (Record R)}
      → id ≢ k
      → Represents j k full
      → Represents (put_stream j id st) k full
  unfolding put_stream
  put-Represents_other j id k st n r = record {
    gone = r.gone;
    faithful = subst (IsFaithful j.genesis r.gone) (sym (stream_mut_other j id k st n)) r.faithful;
    whole = ap (λ t. r.gone ++ t.records) (stream_mut_other j id k st n) ∙ r.whole;
  }

  -- The record that an append stores.
  abbrev pub appended : List R.Event → DrawPos → Record R
  appended events pos = record { events = events; entropy_pos = pos }

  -- An append extends the represented history of its stream by exactly the record given, and
  -- returns the number of records appended so far as its sequence.
  pub append-Represents :
      (j : MemoryJournal R) (id : StreamId) (events : List R.Event) (pos : DrawPos)
      {full : List (Record R)}
      → Represents j id full
      → Represents (append j id events pos).0 id (full ++ (appended events pos ∷ []))
        × ((append j id events pos).1 ≡ suc (length full))
  unfolding append
  append-Represents j id events pos {full} r =
      let st = stream_mut j id in
      let same : length r.gone + length st.records ≡ length full =
        sym (length-append r.gone st.records) ∙ ap length r.whole in
      (
        put-Represents j id (record st { records = st.records ++ (appended events pos ∷ []) })
            r.gone (append-IsFaithful (appended events pos) r.faithful)
            (sym (append_assoc r.gone st.records (appended events pos ∷ []))
              ∙ ap (λ l. l ++ (appended events pos ∷ [])) r.whole),
        omega (
          arith,
          same,
          r.faithful.counted,
          length-append {0} st.records (appended events pos ∷ []),
        ),
      )

  -- An append to one stream leaves the represented history of every other stream.
  pub append-Represents_other :
      (j : MemoryJournal R) (id k : StreamId) (events : List R.Event) (pos : DrawPos)
      {full : List (Record R)}
      → id ≢ k
      → Represents j k full
      → Represents (append j id events pos).0 k full
  unfolding append
  append-Represents_other j id k events pos n r = put-Represents_other j id k _ n r

  -- A snapshot of what the history determines at a retained sequence leaves the history.
  pub snapshot-Represents :
      (j : MemoryJournal R) (id : StreamId) (s : Snapshot R) {full : List (Record R)}
      (r : Represents j id full)
      → IsSound j.genesis full (stream_mut j id).truncated s
      → Represents (snapshot j id s) id full
  unfolding snapshot
  snapshot-Represents j id s r h =
      let st = stream_mut j id in
      put-Represents j id (record st { snapshots = st.snapshots ++ (s ∷ []) }) r.gone
        (snapshot-IsFaithful s (subst (λ l. IsSound j.genesis l st.truncated s) (sym r.whole) h)
          r.faithful)
        r.whole

  pub snapshot-Represents_other :
      (j : MemoryJournal R) (id k : StreamId) (s : Snapshot R) {full : List (Record R)}
      → id ≢ k
      → Represents j k full
      → Represents (snapshot j id s) k full
  unfolding snapshot
  snapshot-Represents_other j id k s n r = put-Represents_other j id k _ n r

  pub append-genesis :
      (j : MemoryJournal R) (id : StreamId) (events : List R.Event) (pos : DrawPos)
      → (append j id events pos).0.genesis ≡ j.genesis
  unfolding append put_stream
  append-genesis j id events pos = refl

  pub snapshot-genesis :
      (j : MemoryJournal R) (id : StreamId) (s : Snapshot R) → (snapshot j id s).genesis ≡ j.genesis
  unfolding snapshot put_stream
  snapshot-genesis j id s = refl
