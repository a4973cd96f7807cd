-- ===== src/Replay.antt =====
-- Replay, resume and the persistent loop (app/crates/ironstate-journal/src/replay.rs), over any
-- journal, any context and the seeded entropy.
pub mod Resume
pub mod Execute
pub mod InSync
pub mod Session
mod Tests
use ironstate.Prelude.{ℕ, List, [], ◌∷◌, Option, none, some, Result, ok, err, ◌>>=◌, map_err, foldl}
use ironstate.Aggregate.{AggregateRules, Aggregate, Rejection, from_state, evolve, decide_only}
use ironstate.Entropy.{CtxEntropy}
use ironstate.Entropy.Seeded.{Seed, ChaCha, SeededEntropy, seeded_at}
use ironstate.Restore.{RestoreError}
use ironstate.Journal.{
  Seq, DrawPos, StreamId, Snapshot, VersionedEvent, JournalError, ExecuteError, rejected, journal,
  Journal,
}

pub data ResumeError : Type 0 where
  journal_failed : JournalError → ResumeError
  restore_failed : RestoreError → ResumeError
  no_base : ResumeError

pub record Prepared (R : AggregateRules) : Type 0 where
  pub events : List R.Event
  pub draws : DrawPos
  pub head_pos : DrawPos

pub record Pending (R : AggregateRules) : Type 0 where
  pub seq : Seq
  pub prepared : Prepared R

module _ {R : AggregateRules} where
  -- It never fails: the stored events are of the current type.
  unfoldable pub replay : Snapshot R → List (VersionedEvent R) → Result (Aggregate R) RestoreError
  unfolding evolve
  replay s events =
      ok (foldl (λ aggregate stored. evolve aggregate stored.event) (from_state s.state) events)

  -- `.ok_or(ResumeError::NoBase)`
  unfoldable pub base_of : Option (Snapshot R) → Result (Snapshot R) ResumeError
  base_of none = err no_base
  base_of (some s) = ok s

  -- `Prepared::commit`
  unfoldable pub commit : Prepared R → Aggregate R → Aggregate R
  unfolding evolve
  commit p a = foldl evolve a p.events

  -- `Pending::commit`
  unfoldable pub commit_pending : Pending R → Aggregate R → Aggregate R × Seq
  unfolding commit
  commit_pending p a = (commit p.prepared a, p.seq)

module _ {Ctx Source : Type 0} (c : CtxEntropy Ctx Source) where
  rewind_in : Ctx → DrawPos → Option Source → Ctx
  rewind_in ctx pos none = ctx
  rewind_in ctx pos (some entropy) = c.with_entropy (c.source.seek pos entropy) ctx

  unfoldable pub rewind : Ctx → DrawPos → Ctx
  unfolding rewind_in
  rewind ctx pos = rewind_in ctx pos (c.entropy ctx)

  draws_of : DrawPos → Option Source → DrawPos
  draws_of head none = head
  draws_of head (some entropy) = c.source.draws entropy

  -- `ctx.entropy_mut().map_or(head, |entropy| entropy.draws())`
  unfoldable pub draws_or : DrawPos → Ctx → DrawPos
  unfolding draws_of
  draws_or head ctx = draws_of head (c.entropy ctx)

module _ {R : AggregateRules} {Source : Type 0} (c : CtxEntropy R.Ctx Source) where
  -- `Prepared::abort`, and `Pending::abort`
  unfoldable pub abort : Prepared R → R.Ctx → R.Ctx
  abort p ctx = rewind c ctx p.head_pos

  prepare_decided :
      DrawPos
      → Result (List R.Event) (Rejection R) × R.Ctx
      → Result (Prepared R) (Rejection R) × R.Ctx
  prepare_decided head (err rejection, ctx) = (err rejection, rewind c ctx head)
  prepare_decided head (ok events, ctx) =
      (ok (record { events = events; draws = draws_or c head ctx; head_pos = head }), ctx)

  unfoldable pub prepare :
      Aggregate R → R.Command → R.Ctx → DrawPos → Result (Prepared R) (Rejection R) × R.Ctx
  unfolding prepare_decided
  prepare a cmd ctx head = prepare_decided head (decide_only a cmd ctx)

module _ {R : AggregateRules} {J Tx : Type 0} (jr : Journal R J Tx) where
  head_pos_at : J → StreamId → Option Seq → Result DrawPos JournalError
  head_pos_at j id none = ok 0
  head_pos_at j id (some head) = jr.entropy_pos j id head

  unfoldable pub head_pos : J → StreamId → Result DrawPos JournalError
  unfolding head_pos_at
  head_pos j id = head_pos_at j id (jr.head j id)

module _ {R : AggregateRules} {J Tx Source : Type 0} (jr : Journal R J Tx)
    (c : CtxEntropy R.Ctx Source) where
  appended :
      Prepared R
      → R.Ctx
      → J × Tx × Result Seq JournalError
      → J × Tx × R.Ctx × Result (Pending R) (ExecuteError R)
  unfolding abort
  appended p ctx (j, tx, ok seq) = (j, tx, ctx, ok (record { seq = seq; prepared = p }))
  appended p ctx (j, tx, err e) = (j, tx, abort c p ctx, err (journal e))

  execute_prepared :
      J
      → Tx
      → StreamId
      → Result (Prepared R) (Rejection R) × R.Ctx
      → J × Tx × R.Ctx × Result (Pending R) (ExecuteError R)
  unfolding appended
  execute_prepared j tx id (err rejection, ctx) = (j, tx, ctx, err (rejected rejection))
  execute_prepared j tx id (ok p, ctx) = appended p ctx (jr.append_in j tx id p.events p.draws)

  execute_from :
      J
      → Tx
      → StreamId
      → Aggregate R
      → R.Command
      → R.Ctx
      → Result DrawPos JournalError
      → J × Tx × R.Ctx × Result (Pending R) (ExecuteError R)
  unfolding execute_prepared
  execute_from j tx id a cmd ctx (err e) = (j, tx, ctx, err (journal e))
  execute_from j tx id a cmd ctx (ok head) = execute_prepared j tx id (prepare c a cmd ctx head)

  unfoldable pub execute_in :
      J
      → Tx
      → StreamId
      → Aggregate R
      → R.Command
      → R.Ctx
      → J × Tx × R.Ctx × Result (Pending R) (ExecuteError R)
  unfolding execute_from
  execute_in j tx id a cmd ctx = execute_from j tx id a cmd ctx (head_pos jr j id)

module _ {R : AggregateRules} {J Source : Type 0} (jr : Journal R J (Unit {0}))
    (c : CtxEntropy R.Ctx Source) where
  committed :
      Aggregate R
      → J × Unit {0} × R.Ctx × Result (Pending R) (ExecuteError R)
      → J × Aggregate R × R.Ctx × Result Seq (ExecuteError R)
  unfolding commit_pending
  committed a (j, tx, ctx, err e) = (j, a, ctx, err e)
  committed a (j, tx, ctx, ok p) = let (a', seq) = commit_pending p a in (j, a', ctx, ok seq)

  unfoldable pub execute :
      J
      → StreamId
      → Aggregate R
      → R.Command
      → R.Ctx
      → J × Aggregate R × R.Ctx × Result Seq (ExecuteError R)
  unfolding committed
  execute j id a cmd ctx = committed a (execute_in jr c j tt id a cmd ctx)

module _ {R : AggregateRules} {J Tx Rng : Type 0} (jr : Journal R J Tx) (chacha : ChaCha Rng) where
  unfoldable pub resume_pos : J → StreamId → DrawPos → Option Seq → Result DrawPos ResumeError
  resume_pos j id snapshot_pos none = ok snapshot_pos
  resume_pos j id snapshot_pos (some head) = map_err journal_failed (jr.entropy_pos j id head)

  unfoldable pub resume : J → StreamId → Seed → Result (Aggregate R × SeededEntropy Rng) ResumeError
  unfolding base_of resume_pos
  resume j id seed = do
    latest ← map_err journal_failed (jr.latest_snapshot j id)
    s ← base_of latest
    events ← map_err journal_failed (jr.events_since j id (some s.at))
    aggregate ← map_err restore_failed (replay s events)
    pos ← resume_pos j id s.entropy_pos (jr.head j id)
    ok (aggregate, seeded_at chacha seed pos)
