-- ===== src/Aggregate/Handle.antt =====
-- The ways into an aggregate agree with one another.
use ironstate.Kind.{Kind}
use ironstate.Prelude.{
  ◌⊎◌, ◌≡◌, refl, ap, ◌∙◌, List, [], ◌∷◌, foldl, Result, ok, err, some, arith, failure, true,
}
use ironstate.Aggregate.{
  AggregateRules, Aggregate, Rejection, evolve, evolve_all, from_state, handle, decide_only,
  why_not, structural_check,
}

-- What `handle` makes of the outcome of `decide_only`: the first event is applied by the public
-- `evolve`, then the others to what that gave; a rejection leaves the aggregate.
abbrev pub settled :
    {R : AggregateRules}
    → Aggregate R
    → Result (List R.Event) (Rejection R) × R.Ctx
    → Aggregate R × R.Ctx × Result (List R.Event) (Rejection R)
settled a (ok events, ctx) = (foldl evolve a events, ctx, ok events)
settled a (err x, ctx) = (a, ctx, err x)

evolve_all-evolve :
    {R : AggregateRules} (s : R.State) (events : List R.Event)
    → record { state = evolve_all R s events } ≡ foldl evolve (from_state {R = R} s) events
unfolding evolve_all evolve
evolve_all-evolve s [] = refl
evolve_all-evolve {R} s (event ∷ events) = evolve_all-evolve {R = R} (R.evolve s event) events

-- The same with the loop over the states.
abbrev settled_states :
    {R : AggregateRules}
    → Aggregate R
    → Result (List R.Event) (Rejection R) × R.Ctx
    → Aggregate R × R.Ctx × Result (List R.Event) (Rejection R)
settled_states {R} a (ok events, ctx) =
    (record { state = evolve_all R a.state events }, ctx, ok events)
settled_states a (err x, ctx) = (a, ctx, err x)

settled_states-settled :
    {R : AggregateRules} (a : Aggregate R) (out : Result (List R.Event) (Rejection R) × R.Ctx)
    → settled_states a out ≡ settled a out
settled_states-settled {R} a (ok events, ctx) =
    ap (λ (b : Aggregate R). (b, ctx, ok events)) (evolve_all-evolve {R = R} a.state events)
settled_states-settled a (err x, ctx) = refl

module _ {R : AggregateRules} (a : Aggregate R) (cmd : R.Command) (ctx : R.Ctx) where
  handle-states : handle a cmd ctx ≡ settled_states a (decide_only a cmd ctx)
  unfolding decide_only handle
  handle-states = ground arith

  -- `handle` is `decide_only` followed by `Aggregate::evolve` with each event that it gave, in
  -- order: a rejection leaves the aggregate as it was, and both leave the same context.
  pub handle-decide_only : handle a cmd ctx ≡ settled a (decide_only a cmd ctx)
  handle-decide_only = handle-states ∙ settled_states-settled a (decide_only a cmd ctx)

  -- `why_not` is the rejection of `decide_only`, with the same context left.
  pub why_not-decide_only :
      why_not a cmd ctx ≡ (failure (decide_only a cmd ctx).0, (decide_only a cmd ctx).1)
  unfolding decide_only why_not
  why_not-decide_only = ground arith

  -- A command that the structure rejects never reaches `decide`: the context is untouched, and the
  -- phase is terminal or restricts the kinds of commands.
  pub decide_only-structural :
      (x : Rejection R)
      → structural_check a cmd ≡ some x
      → (decide_only a cmd ctx ≡ (err x, ctx))
        × ((R.machine.is_terminal (R.phase a.state) ≡ true)
            ⊎ ((expected : List Kind) × (R.machine.restriction (R.phase a.state) ≡ some expected)))
  unfolding decide_only structural_check
  decide_only-structural x h = ground arith
