-- ===== src/Memory.antt =====
-- The reference in-memory journal (app/crates/ironstate-journal/src/memory.rs).
-- `Vec::len` and the count of dropped records are numbers: a stream of 2^64 records cannot be
-- stored, so the sums of the two never wrap.
pub mod History
pub mod Read
pub mod Write
pub mod Streams
pub mod Represents
pub mod Retention
pub mod Branch
pub mod Range
mod Tests
use ironstate.Prelude.{
  ℕ, suc, ◌+◌, ◌-◌, min, Bool, true, false, ◌&&◌, ◌||◌, List, [], ◌∷◌, ◌++◌, map, Option, none,
  some, Result, ok, err, ◌>>=◌, if◌then◌else◌, ltb, leb, ◌==◌, length, get_elem?, take, drop,
  retain, find, enumerate,
}
use ironstate.Prelude.Map.{Map, get, insert, keys}
use ironstate.Aggregate.{AggregateRules}
use ironstate.Journal.{
  Seq, DrawPos, StreamId, Snapshot, VersionedEvent, JournalError, unknown_seq, no_base_for_fork,
  no_snapshot_for_truncation, storage, Journal, ForkableJournal, RetainableJournal,
}

pub record Record (R : AggregateRules) : Type 0 where
  pub events : List R.Event
  pub entropy_pos : DrawPos

-- `records[i]` has the sequence `truncated + i + 1`.
pub record Stream (R : AggregateRules) : Type 0 where
  pub records : List (Record R)
  pub snapshots : List (Snapshot R)
  pub truncated : ℕ

pub record MemoryJournal (R : AggregateRules) : Type 0 where
  pub genesis : R.State
  pub streams : Map (Stream R)

-- `iter().max()`
unfoldable pub max : List Seq → Option Seq
max [] = none
max (x ∷ xs) = elim (max xs) [ none ↦ some x | some y ↦ some (if ltb y x then x else y) ]

-- `after.map_or(0, |s| s.0)`
abbrev pub from_seq : Option Seq → Seq
from_seq none = 0
from_seq (some s) = s

-- `latest_snapshot.is_none_or(|s| s.0 < needed)`
abbrev pub uncovered : Option Seq → Seq → Bool
uncovered none needed = true
uncovered (some s) needed = ltb s needed

module _ {R : AggregateRules} where
  -- `Stream::new`
  unfoldable pub new_stream : Snapshot R → Stream R
  new_stream genesis = record { records = []; snapshots = genesis ∷ []; truncated = 0 }

  -- `self.truncated + self.records.len() as u64`
  abbrev pub count : Stream R → ℕ
  count st = st.truncated + length st.records

  -- `Stream::head`
  unfoldable pub stream_head : Stream R → Option Seq
  stream_head st = if ltb 0 (count st) then some (count st) else none

  -- `Stream::retained_from`
  unfoldable pub stream_retained_from : Stream R → Seq
  stream_retained_from st = st.truncated + 1

  -- `records[i]`; out of bounds it would panic.
  pub index : Option (Record R) → Result (Record R) JournalError
  index none = err (storage "index out of bounds")
  index (some r) = ok r

  unfoldable pub record_at : Stream R → Seq → Result (Record R) JournalError
  unfolding index
  record_at st at =
      if leb at st.truncated || ltb (count st) at
      then err (unknown_seq at)
      else index (get_elem? st.records (at - st.truncated - 1))

  unfoldable pub latest_snapshot_at : Stream R → Option Seq
  unfolding max
  latest_snapshot_at st = max (retain (λ at. leb at (count st)) (map (λ s. s.at) st.snapshots))

  -- `max_by_key(|s| s.at)`, which gives the last of several greatest.
  unfoldable pub max_by_at : List (Snapshot R) → Option (Snapshot R)
  max_by_at [] = none
  max_by_at (s ∷ ss) = elim (max_by_at ss) [
    | none ↦ some s
    | some t ↦ some (if ltb t.at s.at then s else t)
  ]

  unfoldable pub new : R.State → MemoryJournal R
  new genesis = record { genesis = genesis; streams = [] }

  unfoldable pub genesis_snapshot : R.State → Snapshot R
  genesis_snapshot genesis = record { state = genesis; schema_version = 0; at = 0; entropy_pos = 0 }

  -- The stream, or the one that `or_insert_with` makes.
  pub stream_or_new : R.State → Option (Stream R) → Stream R
  unfolding new_stream genesis_snapshot
  stream_or_new genesis none = new_stream (genesis_snapshot genesis)
  stream_or_new genesis (some st) = st

  -- What `stream_mut` borrows; the caller writes the stream back by `put_stream`.
  unfoldable pub stream_mut : MemoryJournal R → StreamId → Stream R
  unfolding stream_or_new
  stream_mut j id = stream_or_new j.genesis (get j.streams id)

  unfoldable pub put_stream : MemoryJournal R → StreamId → Stream R → MemoryJournal R
  put_stream j id st = record j { streams = insert id st j.streams }

  -- `append_in`; its unit of work is `()`.
  unfoldable pub append :
      MemoryJournal R → StreamId → List R.Event → DrawPos → MemoryJournal R × Seq
  append j id events pos =
      let st = stream_mut j id in
      let r : Record R = record { events = events; entropy_pos = pos } in
      let st' = record st { records = st.records ++ (r ∷ []) } in (put_stream j id st', count st')

  unfoldable pub snapshot : MemoryJournal R → StreamId → Snapshot R → MemoryJournal R
  snapshot j id s =
      let st = stream_mut j id in
      put_stream j id (record st { snapshots = st.snapshots ++ (s ∷ []) })

  pub position : Stream R → Seq → Option (Snapshot R) → Result DrawPos JournalError
  unfolding record_at
  position st at (some s) = ok s.entropy_pos
  position st at none =
      if at == 0
      then (if ltb 0 st.truncated then err (unknown_seq at) else ok 0)
      else (record_at st at >>= λ r. ok r.entropy_pos)

  unfoldable pub position_in : Option (Stream R) → Seq → Result DrawPos JournalError
  unfolding position
  position_in none at = if at == 0 then ok 0 else err (unknown_seq at)
  position_in (some st) at = position st at (find (λ s. s.at == at) st.snapshots)

  unfoldable pub entropy_pos : MemoryJournal R → StreamId → Seq → Result DrawPos JournalError
  unfolding position_in
  entropy_pos j id at = position_in (get j.streams id) at

  unfoldable pub head_of : Option (Stream R) → Option Seq
  unfolding stream_head
  head_of none = none
  head_of (some st) = stream_head st

  unfoldable pub head : MemoryJournal R → StreamId → Option Seq
  unfolding head_of
  head j id = head_of (get j.streams id)

  -- The events of one record, each with that record's sequence.
  unfoldable pub stamp : Seq → List R.Event → List (VersionedEvent R)
  stamp seq [] = []
  stamp seq (e ∷ es) =
      record { event = e; seq = seq; type_name = R.event_type; version = 1 } ∷ stamp seq es

  -- The `flat_map` over the numbered records, and the `map` after it.
  unfoldable pub stamp_all : ℕ → List (ℕ × Record R) → List (VersionedEvent R)
  unfolding stamp
  stamp_all truncated [] = []
  stamp_all truncated ((i, r) ∷ rest) =
      stamp (truncated + i + 1) r.events ++ stamp_all truncated rest

  unfoldable pub events_in :
      Option (Stream R) → Option Seq → Result (List (VersionedEvent R)) JournalError
  unfolding stamp_all
  events_in none after = ok []
  events_in (some st) after =
      let from = from_seq after in
      if ltb from st.truncated
      then err (unknown_seq from)
      else ok (stamp_all st.truncated (drop (from - st.truncated) (enumerate 0 st.records)))

  unfoldable pub events_since :
      MemoryJournal R → StreamId → Option Seq → Result (List (VersionedEvent R)) JournalError
  unfolding events_in
  events_since j id after = events_in (get j.streams id) after

  unfoldable pub latest_in : R.State → Option (Stream R) → Option (Snapshot R)
  unfolding max_by_at genesis_snapshot
  latest_in genesis none = some (genesis_snapshot genesis)
  latest_in genesis (some st) = max_by_at (retain (λ s. leb s.at (count st)) st.snapshots)

  unfoldable pub latest_snapshot : MemoryJournal R → StreamId → Option (Snapshot R)
  unfolding latest_in
  latest_snapshot j id = latest_in j.genesis (get j.streams id)

  -- The branch of a fork that passed the checks on the fork point.
  pub fork_with :
      R.State
      → StreamId
      → Seq
      → Stream R
      → List (Snapshot R)
      → Result (MemoryJournal R) JournalError
  fork_with genesis id at source [] = err (no_base_for_fork at)
  fork_with genesis id at source (s ∷ base) =
      let branch : Stream R = record {
        truncated = source.truncated;
        records = take (at - source.truncated) source.records;
        snapshots = s ∷ base;
      } in
      ok (record { genesis = genesis; streams = insert id branch [] })

  pub fork_of : R.State → StreamId → Seq → Option (Stream R) → Result (MemoryJournal R) JournalError
  unfolding fork_with new
  fork_of genesis id at none = if at == 0 then ok (new genesis) else err (unknown_seq at)
  fork_of genesis id at (some source) =
      if ltb (count source) at || (ltb 0 source.truncated && leb at source.truncated)
      then err (unknown_seq at)
      else fork_with genesis id at source (retain (λ s. leb s.at at) source.snapshots)

  unfoldable pub fork : MemoryJournal R → StreamId → Seq → Result (MemoryJournal R) JournalError
  unfolding fork_of
  fork j id at = fork_of j.genesis id at (get j.streams id)

  -- The records dropped, and the snapshots below the new horizon.
  unfoldable pub cut : Stream R → Seq → Stream R
  cut st at =
      let drop_count = min (at - 1 - st.truncated) (length st.records) in
      let horizon = st.truncated + drop_count in
      record {
        records = drop drop_count st.records;
        truncated = horizon;
        snapshots = retain (λ s. leb horizon s.at) st.snapshots;
      }

  pub truncate_in :
      MemoryJournal R
      → StreamId
      → Seq
      → Option (Stream R)
      → MemoryJournal R × Result (Unit {0}) JournalError
  truncate_in j id at none = (j, err (unknown_seq at))
  truncate_in j id at (some st) =
      if leb at st.truncated || ltb (count st + 1) at
      then (j, err (unknown_seq at))
      else if uncovered (latest_snapshot_at st) (at - 1)
      then (j, err (no_snapshot_for_truncation at (latest_snapshot_at st)))
      else (put_stream j id (cut st at), ok tt)

  unfoldable pub truncate_before :
      MemoryJournal R → StreamId → Seq → MemoryJournal R × Result (Unit {0}) JournalError
  unfolding truncate_in
  truncate_before j id at = truncate_in j id at (get j.streams id)

  pub retained_of : Option (Stream R) → Seq
  unfolding stream_retained_from
  retained_of none = 1
  retained_of (some st) = stream_retained_from st

  unfoldable pub retained_from : MemoryJournal R → StreamId → Seq
  unfolding retained_of
  retained_from j id = retained_of (get j.streams id)

  unfoldable pub streams : MemoryJournal R → Result (List StreamId) JournalError
  streams j = ok (keys j.streams)

-- `impl Journal for MemoryJournal`, and the two capabilities.
abbrev pub memory : (R : AggregateRules) → Journal R (MemoryJournal R) (Unit {0})
memory R = record {
  append_in = λ j tx id events pos. let (j', seq) = append j id events pos in (j', tx, ok seq);
  snapshot_in = λ j tx id s. (snapshot j id s, tx, ok tt);
  entropy_pos = entropy_pos;
  head = head;
  events_since = events_since;
  latest_snapshot = λ j id. ok (latest_snapshot j id);
}

abbrev pub memory_forkable : (R : AggregateRules) → ForkableJournal R (MemoryJournal R) (Unit {0})
memory_forkable R = record { journal = memory R; fork = fork }

abbrev pub memory_retainable :
    (R : AggregateRules) → RetainableJournal R (MemoryJournal R) (Unit {0})
memory_retainable R = record {
  journal = memory R;
  truncate_before = truncate_before;
  retained_from = retained_from;
  streams = streams;
}
