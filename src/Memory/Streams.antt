-- ===== src/Memory/Streams.antt =====
-- The journal as its streams: a stream that was never touched reads as a fresh one does, and a
-- write to one stream is seen in that stream only.
use ironstate.Prelude.{
  ℕ, zero, suc, ◌-◌, ◌≡◌, refl, sym, ap, [], drop, false, Option, none, some, ok, arith,
  if◌then◌else◌, str_eq, ltb,
}
use ironstate.Prelude.Map.{get, get-insert}
use ironstate.Aggregate.{AggregateRules}
use ironstate.Journal.{Seq, StreamId}
use ironstate.Memory.{
  Stream, MemoryJournal, stream_or_new, stream_mut, put_stream, head, head_of, stream_head,
  events_since, events_in, stamp_all, latest_snapshot, latest_in, entropy_pos, position_in,
  position, record_at,
}

drop-nil {ℓ} : {A : Type ℓ} (n : ℕ) → drop {A = A} n [] ≡ []
drop-nil zero = refl
drop-nil (suc n) = refl

events_in-fresh :
    {R : AggregateRules} (genesis : R.State) (o : Option (Stream R)) (at : Seq)
    → events_in o (some at) ≡ events_in (some (stream_or_new genesis o)) (some at)
unfolding events_in stream_or_new stamp_all
events_in-fresh {R} genesis none at =
    let below : ltb at 0 ≡ false = ground arith in
    rw below (ap (λ rest. ok (stamp_all {R = R} 0 rest)) (sym (drop-nil (at - 0))))
events_in-fresh genesis (some st) at = refl

module _ {R : AggregateRules} (genesis : R.State) (o : Option (Stream R)) where
  head_of-fresh : head_of o ≡ head_of (some (stream_or_new genesis o))
  unfolding head_of stream_head stream_or_new
  head_of-fresh = ground arith

  latest_in-fresh : latest_in genesis o ≡ latest_in genesis (some (stream_or_new genesis o))
  unfolding latest_in stream_or_new
  latest_in-fresh = ground arith

  position_in-fresh :
      (at : Seq) → position_in o at ≡ position_in (some (stream_or_new genesis o)) at
  unfolding position_in position record_at stream_or_new
  position_in-fresh at = ground arith

module _ {R : AggregateRules} (j : MemoryJournal R) (id : StreamId) where
  pub head-stream : head j id ≡ head_of (some (stream_mut j id))
  unfolding head stream_mut
  head-stream = head_of-fresh j.genesis (get j.streams id)

  pub events_since-stream :
      (at : Seq) → events_since j id (some at) ≡ events_in (some (stream_mut j id)) (some at)
  unfolding events_since stream_mut
  events_since-stream at = events_in-fresh j.genesis (get j.streams id) at

  pub latest_snapshot-stream : latest_snapshot j id ≡ latest_in j.genesis (some (stream_mut j id))
  unfolding latest_snapshot stream_mut
  latest_snapshot-stream = latest_in-fresh j.genesis (get j.streams id)

  pub entropy_pos-stream :
      (at : Seq) → entropy_pos j id at ≡ position_in (some (stream_mut j id)) at
  unfolding entropy_pos stream_mut
  entropy_pos-stream at = position_in-fresh j.genesis (get j.streams id) at

  pub stream_mut-put_stream :
      (st : Stream R) (k : StreamId)
      → stream_mut (put_stream j id st) k ≡ (if str_eq id k then st else stream_mut j k)
  unfolding stream_mut put_stream stream_or_new
  stream_mut-put_stream st k = ground (arith, get-insert id k st j.streams)
