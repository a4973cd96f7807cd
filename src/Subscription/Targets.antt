-- ===== src/Subscription/Targets.antt =====
-- The target of a subscription over the in-memory journal.
use mathlib.Core.Path.{subst₂}
use ironstate.Prelude.{
  ◌∙◌, List, [], ◌∷◌, Result, ok, err, ◌≡◌, refl, ap, sym, inl, inr, Bool-cases, Result-cases,
}
use ironstate.Aggregate.{AggregateRules, Aggregate}
use ironstate.Entropy.{CtxEntropy}
use ironstate.Journal.{Seq, StreamId, ExecuteError}
use ironstate.Memory.{MemoryJournal, memory}
use ironstate.Replay.{execute}
use ironstate.Replay.InSync.{InSync, execute-InSync}
use ironstate.Subscription.{
  SourceEvent, React, Subscription, duplicate, deliver, is_seen, mark, finish, execute_all,
}

module _ {T : AggregateRules} {Source : Type 0} (c : CtxEntropy T.Ctx Source) (id : StreamId) where
  execute_all-InSync :
      (cmds : List T.Command) (j : MemoryJournal T) (a : Aggregate T) (ctx : T.Ctx)
      → InSync j id a
      → InSync
          (execute_all (memory T) c id cmds j a ctx).0
          id
          (execute_all (memory T) c id cmds j a ctx).1
  unfolding execute_all
  execute_all-InSync [] j a ctx h = h
  execute_all-InSync (cmd ∷ cmds) j a ctx h =
      let out = execute (memory T) c j id a cmd ctx in
      let step = execute-InSync c j id a cmd ctx h in
      elim (Result-cases out.3) [
        | inl (seq, e) ↦ rw (e, execute_all) (execute_all-InSync cmds out.0 out.1 out.2 step)
        | inr (x, e) ↦ rw (e, execute_all) step
      ]

  finish-target :
      (sub : Subscription) (stream : StreamId) (at : Seq)
      (t : MemoryJournal T × Aggregate T × T.Ctx × Result (Unit {0}) (ExecuteError T))
      → ((finish (memory T) c id sub stream at t).1 ≡ t.0)
        × ((finish (memory T) c id sub stream at t).2 ≡ t.1)
  unfolding finish
  finish-target sub stream at (j, a, ctx, ok done) = (refl, refl)
  finish-target sub stream at (j, a, ctx, err e) = (refl, refl)

  -- A delivery, whatever its outcome, keeps the target in step with its journal.
  pub deliver-InSync :
      {F : AggregateRules} (r : React F T) (sub : Subscription) (source : SourceEvent F)
      (a : Aggregate T) (ctx : T.Ctx) (j : MemoryJournal T)
      → InSync j id a
      → InSync
          (deliver (memory T) c id r sub source a ctx j).1
          id
          (deliver (memory T) c id r sub source a ctx j).2
  deliver-InSync r sub source a ctx j h =
      let cmds = r.react a.state source.event source.at in
      let out = execute_all (memory T) c id cmds j a ctx in
      elim (Bool-cases (is_seen (mark sub source.stream) source.at)) [
        | inl seen ↦
            let whole : deliver (memory T) c id r sub source a ctx j
                ≡ (sub, j, a, ctx, ok duplicate) =
              unfold deliver in rw seen in
            subst₂ (λ k b. InSync k id b) (ap (λ t. t.1) (sym whole)) (ap (λ t. t.2) (sym whole)) h
        | inr fresh ↦
            let whole : deliver (memory T) c id r sub source a ctx j
                ≡ finish (memory T) c id sub source.stream source.at out =
              unfold deliver in rw fresh in
            let (same_j, same_a) = finish-target sub source.stream source.at out in
            subst₂ (λ k b. InSync k id b) (sym (ap (λ t. t.1) whole ∙ same_j))
              (sym (ap (λ t. t.2) whole ∙ same_a)) (execute_all-InSync cmds j a ctx h)
      ]
