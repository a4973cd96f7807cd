-- ===== src/Replay/Resume.antt =====
-- Resuming from the in-memory journal rebuilds what the whole history determines.
use ironstate.Prelude.{
  ◌≤◌, ◌≡◌, refl, ◌∙◌, ap, subst, inl, inr, List, [], ◌∷◌, none, some, ok, arith, foldl, length,
  drop, Bool-cases, ltb, if◌then◌else◌,
}
use ironstate.Aggregate.{AggregateRules, Aggregate, from_state, evolve}
use ironstate.Entropy.Seeded.{Seed, ChaCha, seeded_at}
use ironstate.Journal.{Seq, StreamId, Snapshot, VersionedEvent}
use ironstate.Memory.{
  Record, MemoryJournal, memory, stream_mut, count, position_in, head, head_of, stream_head,
  events_since, latest_snapshot, entropy_pos,
}
use ironstate.Memory.History.{pos_at, state_at, events_of, state_at-drop, IsSound}
use ironstate.Memory.Read.{
  events_only, latest_in-IsSound, events_in-history, position-head, count-history,
}
use ironstate.Memory.Streams.{
  head-stream, events_since-stream, latest_snapshot-stream, entropy_pos-stream,
}
use ironstate.Memory.Represents.{Represents}
use ironstate.Replay.{replay, resume, base_of, resume_pos}

-- The fold over the stored events is that over the events themselves.
replay-events :
    {R : AggregateRules} (state : R.State) (stored : List (VersionedEvent R))
    → foldl (λ (a : Aggregate R) stored. evolve a stored.event) (from_state state) stored
      ≡ from_state (foldl R.evolve state (events_only stored))
unfolding evolve
replay-events state [] = refl
replay-events {R} state (e ∷ es) = replay-events (R.evolve state e.event) es

module _ {R : AggregateRules} {j : MemoryJournal R} {id : StreamId} {full : List (Record R)}
    (r : Represents j id full) where
  pub count-length : count (stream_mut j id) ≡ length full
  count-length = count-history r.faithful ∙ ap length r.whole

  pub head-history : head j id ≡ (if ltb 0 (length full) then some (length full) else none)
  unfolding head_of stream_head
  head-history = head-stream j id ∙ ap (λ n. if ltb 0 n then some n else none) count-length

  -- The position recorded at the head.
  pub entropy_pos-head : entropy_pos j id (length full) ≡ ok (pos_at full (length full))
  entropy_pos-head =
      entropy_pos-stream j id (length full)
      ∙ subst (λ n. position_in (some (stream_mut j id)) n ≡ ok (pos_at full n)) count-length
          (position-head r.faithful ∙ ap (λ l. ok (pos_at l (count (stream_mut j id)))) r.whole)

  latest :
      (s : Snapshot R) × (latest_snapshot j id ≡ some s)
      × IsSound j.genesis full (stream_mut j id).truncated s
  latest =
      let (s, e, h) = latest_in-IsSound r.faithful in
      (
        s,
        latest_snapshot-stream j id ∙ e,
        subst (λ l. IsSound j.genesis l (stream_mut j id).truncated s) r.whole h,
      )

  -- The events read from a point that is not below the horizon are those of the history after it.
  pub events_since-history :
      (at : Seq)
      → (stream_mut j id).truncated ≤ at
      → (stored : List (VersionedEvent R)) × (events_since j id (some at) ≡ ok stored)
        × (events_only stored ≡ events_of (drop at full))
  events_since-history at h =
      let (stored, e, same) = events_in-history r.faithful at h in
      (stored, events_since-stream j id at ∙ e, same ∙ ap (λ l. events_of (drop at l)) r.whole)

  -- They take the state that a base stands for to that at the end.
  pub rebuilt :
      (s : Snapshot R) (stored : List (VersionedEvent R))
      → s.state ≡ state_at j.genesis full s.at
      → events_only stored ≡ events_of (drop s.at full)
      → replay s stored ≡ ok (from_state (state_at j.genesis full (length full)))
  unfolding replay
  rebuilt s stored same events = ap ok (
      replay-events s.state stored
      ∙ ap (λ (t : R.State). from_state (foldl R.evolve t (events_only stored))) same
      ∙ ap (λ l. from_state (foldl R.evolve (state_at j.genesis full s.at) l)) events
      ∙ ap (λ (t : R.State). from_state t) (state_at-drop j.genesis full s.at))

  reopened :
      {Rng : Type 0} (chacha : ChaCha Rng) (s : Snapshot R)
      → IsSound j.genesis full (stream_mut j id).truncated s
      → resume_pos (memory R) chacha j id s.entropy_pos (head j id) ≡ ok (pos_at full (length full))
  unfolding resume_pos
  reopened chacha s h = elim (Bool-cases (ltb 0 (length full))) [
    | inl more ↦ rw (head-history, resume_pos) (rw (more, resume_pos) (rw entropy_pos-head))
    | inr empty ↦
        let none_left : length full ≡ 0 = ground arith in
        let at_start : s.at ≡ length full = omega (arith, h.within) in
        rw (head-history, resume_pos)
          (rw (empty, resume_pos) (ap ok (h.pos ∙ ap (pos_at full) at_start)))
  ]

  -- Resuming rebuilds the state that the whole history leads to, discarded records included, and
  -- reopens the entropy at the position recorded at the head.
  pub resume-history :
      {Rng : Type 0} (chacha : ChaCha Rng) (seed : Seed)
      → resume (memory R) chacha j id seed
        ≡ ok (
          from_state (state_at j.genesis full (length full)),
          seeded_at chacha seed (pos_at full (length full)),
        )
  unfolding resume base_of
  resume-history chacha seed =
      let (s, e, h) = latest in
      let (stored, read, same) = events_since-history s.at h.retained in
      rw e (rw read (rw (rebuilt s stored h.state same) (rw (reopened chacha s h))))
