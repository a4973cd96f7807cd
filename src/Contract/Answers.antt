-- ===== src/Contract/Answers.antt =====
-- What a driven journal answers to the reads of the suite.
use ironstate.Prelude.{
  ℕ, ◌+◌, ◌-◌, ◌≤◌, ◌<◌, ◌≡◌, refl, sym, ◌∙◌, ap, subst, true, false, inl, inr, List, [], ◌∷◌, ◌++◌,
  none, some, ok, err, arith, length, drop, enumerate, Option, Bool-cases, ltb, str_eq,
}
use ironstate.Prelude.Map.{get}
use ironstate.Aggregate.{AggregateRules}
use ironstate.Journal.{Seq, StreamId, VersionedEvent, unknown_seq}
use ironstate.Memory.{
  Record, Stream, MemoryJournal, memory, stream_mut, head, entropy_pos, events_since, events_in,
  stamp, stamp_all, from_seq,
}
use ironstate.Memory.History.{pos_at, state_at, events_of}
use ironstate.Memory.Read.{events_only, position-history}
use ironstate.Memory.Represents.{Represents}
use ironstate.Memory.Streams.{entropy_pos-stream}
use ironstate.Replay.Resume.{head-history, count-length, events_since-history, rebuilt}
use ironstate.Contract.{Strategies, genesis_snapshot}
use ironstate.Contract.Checks.{replays_to, tagged, property_7, head_or}

module _ {R : AggregateRules} {j : MemoryJournal R} {id : StreamId} {full : List (Record R)}
    (r : Represents j id full) (whole : (stream_mut j id).truncated ≡ 0) where
  -- The position of every record.
  pub entropy_pos-history :
      (at : Seq) → 0 < at → at ≤ length full → entropy_pos j id at ≡ ok (pos_at full at)
  entropy_pos-history at lo hi =
      entropy_pos-stream j id at
      ∙ position-history r.faithful at (omega (arith, whole)) (omega (arith, count-length r))
      ∙ ap (λ l. ok (pos_at l at)) r.whole

  -- Read from the beginning, the events are those of the history.
  pub events_since-none :
      (stored : List (VersionedEvent R)) × (events_since j id none ≡ ok stored)
      × (events_only stored ≡ events_of full)
  unfolding events_since events_in
  events_since-none =
      let (stored, read, same) = events_since-history r 0 (omega (arith, whole)) in
      let start : events_since j id none ≡ events_since j id (some 0) = ground arith in
      (stored, start ∙ read, same)

  -- Replay from the genesis reproduces the state at the end.
  pub replays_to-history :
      {Rng Digest Runner : Type 0} (s : Strategies R Rng Digest Runner)
      (same : (d : Digest) → s.harness.same_digest d d ≡ true) (live_digest : Digest)
      (message : ironstate.Contract.Panic)
      → live_digest ≡ s.harness.digest (state_at j.genesis full (length full))
      → replays_to s (memory R) j id j.genesis live_digest message ≡ ok tt
  unfolding replays_to genesis_snapshot state_at
  replays_to-history s same live_digest message e =
      let (stored, read, events) = events_since-none in
      rw (read) (
        rw (rebuilt r (genesis_snapshot j.genesis) stored refl events)
          (rw (sym e) (rw (same live_digest) refl)))

module _ {R : AggregateRules} (named : str_eq R.event_type "" ≡ false) where
  tagged-stamp :
      (seq : Seq) (es : List R.Event) (rest : List (VersionedEvent R))
      → tagged rest ≡ ok tt
      → tagged (stamp seq es ++ rest) ≡ ok tt
  unfolding tagged stamp
  tagged-stamp seq [] rest h = h
  tagged-stamp seq (e ∷ es) rest h = rw named (tagged-stamp seq es rest h)

  tagged-stamp_all :
      (truncated : ℕ) (rs : List (ℕ × Record R)) → tagged (stamp_all truncated rs) ≡ ok tt
  unfolding tagged stamp_all
  tagged-stamp_all truncated [] = refl
  tagged-stamp_all truncated ((i, r) ∷ rest) =
      tagged-stamp (truncated + i + 1) r.events _ (tagged-stamp_all truncated rest)

  tagged-events_in :
      (o : Option (Stream R)) (after : Option Seq) (stored : List (VersionedEvent R))
      → events_in o after ≡ ok stored
      → tagged stored ≡ ok tt
  unfolding tagged events_in
  tagged-events_in none after stored h =
      let nothing : [] ≡ stored = cc h in subst (λ l. tagged {R = R} l ≡ ok tt) nothing refl
  tagged-events_in (some st) after stored h =
      elim (Bool-cases (ltb (from_seq after) st.truncated)) [
        | inl below ↦
            let refused : err (unknown_seq (from_seq after)) ≡ ok stored = rw below at h in cc
        | inr shown ↦
            let kept = drop (from_seq after - st.truncated) (enumerate 0 st.records) in
            let read : ok (stamp_all st.truncated kept) ≡ ok stored = rw shown at h in
            let same : stamp_all st.truncated kept ≡ stored = cc read in
            subst (λ l. tagged l ≡ ok tt) same (tagged-stamp_all st.truncated kept)
      ]

  -- Every stored event has a type name and a version.
  pub property_7-memory :
      (j : MemoryJournal R) (id : StreamId) (stored : List (VersionedEvent R))
      → events_since j id none ≡ ok stored
      → property_7 (memory R) j id ≡ ok tt
  unfolding property_7 events_since
  property_7-memory j id stored h = rw h (tagged-events_in (get j.streams id) none stored h)

-- The head of a driven journal, as a number.
pub head_or-history :
    {R : AggregateRules} {j : MemoryJournal R} {id : StreamId} {full : List (Record R)}
    → Represents j id full
    → head_or (head j id) ≡ length full
head_or-history {full = full} r = elim (Bool-cases (ltb 0 (length full))) [
  | inl more ↦ rw (head-history r, head_or) (rw (more, head_or) refl)
  | inr empty ↦ rw (head-history r, head_or) (rw (empty, head_or) (ground arith))
]
