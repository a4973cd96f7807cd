-- ===== src/Subscription.antt =====
-- Subscriptions (app/crates/ironstate-journal/src/subscription.rs): a source's events turned into
-- commands of a target, with a high-water mark for each source stream.
pub mod Marks
pub mod Targets
mod Tests
use ironstate.Prelude.{
  ℕ, Bool, true, false, List, [], ◌∷◌, Option, none, some, Result, ok, err, if◌then◌else◌, leb,
}
use ironstate.Prelude.Map.{Map, get, insert}
use ironstate.Aggregate.{AggregateRules, Aggregate}
use ironstate.Entropy.{CtxEntropy}
use ironstate.Journal.{Seq, StreamId, ExecuteError, Journal}
use ironstate.Replay.{execute}

pub record SourceEvent (F : AggregateRules) : Type 0 where
  pub stream : StreamId
  pub at : Seq
  pub event : F.Event

pub data Delivered : Type 0 where
  applied duplicate : Delivered

-- The trait `React` of a target over a source.
pub record React (F T : AggregateRules) : Type 0 where
  pub react : T.State → F.Event → Seq → List T.Command

pub record Subscription : Type 0 where
  pub marks : Map Seq

abbrev pub new : Subscription
new = record { marks = [] }

unfoldable pub mark : Subscription → StreamId → Option Seq
mark sub stream = get sub.marks stream

-- `let Some(mark) = …  && at <= *mark`
unfoldable pub is_seen : Option Seq → Seq → Bool
is_seen none at = false
is_seen (some m) at = leb at m

module _ {T : AggregateRules} {J Source : Type 0} (jr : Journal T J (Unit {0}))
    (c : CtxEntropy T.Ctx Source) (target_stream : StreamId) where
  -- The loop over the commands; the first that fails ends it.
  unfoldable pub execute_all :
      List T.Command
      → J
      → Aggregate T
      → T.Ctx
      → J × Aggregate T × T.Ctx × Result (Unit {0}) (ExecuteError T)
  execute_all [] j a ctx = (j, a, ctx, ok tt)
  execute_all (cmd ∷ cmds) j a ctx =
      let (j', a', ctx', r) = execute jr c j target_stream a cmd ctx in
      elim r [ ok seq ↦ execute_all cmds j' a' ctx' | err e ↦ (j', a', ctx', err e) ]

  -- The mark moves when all commands have committed.
  unfoldable pub finish :
      Subscription
      → StreamId
      → Seq
      → J × Aggregate T × T.Ctx × Result (Unit {0}) (ExecuteError T)
      → Subscription × J × Aggregate T × T.Ctx × Result Delivered (ExecuteError T)
  finish sub stream at (j, a, ctx, ok done) =
      (record sub { marks = insert stream at sub.marks }, j, a, ctx, ok applied)
  finish sub stream at (j, a, ctx, err e) = (sub, j, a, ctx, err e)

  unfoldable pub deliver :
      {F : AggregateRules}
      → React F T
      → Subscription
      → SourceEvent F
      → Aggregate T
      → T.Ctx
      → J
      → Subscription × J × Aggregate T × T.Ctx × Result Delivered (ExecuteError T)
  unfolding mark is_seen finish
  deliver r sub source target ctx j =
      if is_seen (mark sub source.stream) source.at
      then (sub, j, target, ctx, ok duplicate)
      else finish sub source.stream source.at
          (execute_all (r.react target.state source.event source.at) j target ctx)
