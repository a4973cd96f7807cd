-- ===== src/Aggregate.antt =====
-- Aggregates: decide and evolve under structural enforcement
-- (app/crates/ironstate-aggregate/src/rules.rs).
pub mod Handle
mod Tests
use ironstate.Prelude.{
  String, Bool, true, false, List, [], ◌∷◌, Option, none, some, Result, ok, err, if◌then◌else◌,
  foldl, map_err, any,
}
use ironstate.Kind.{Kind, contains}
use ironstate.Machine.{EventKind, StateMachine}

-- The trait `AggregateRules` with its associated types. `decide` has the context by `&mut`, so it
-- returns the new one; `event_type` is the compiler's `type_name` of the event type.
pub record AggregateRules : Type 1 where
  pub State : Type 0
  pub Phase : Type 0
  pub PhaseEvent : Type 0
  pub Command : Type 0
  pub Event : Type 0
  pub Error : Type 0
  pub Ctx : Type 0
  pub machine : StateMachine Phase PhaseEvent
  pub command_kind : EventKind Command
  pub phase : State → Phase
  pub decide : State → Command → Ctx → Result (List Event) Error × Ctx
  pub evolve : State → Event → State
  pub event_type : String

pub data Rejection (R : AggregateRules) : Type 0 where
  terminal_phase : R.Phase → Rejection R
  command_kind_rejected : R.Phase → List Kind → Rejection R
  domain : R.Error → Rejection R

pub data InitError (R : AggregateRules) : Type 0 where
  not_initial_phase : R.Phase → InitError R

pub record Aggregate (R : AggregateRules) : Type 0 where
  pub state : R.State

unfoldable pub kinds_intersect : List Kind → List Kind → Bool
kinds_intersect expected command = any (λ kind. contains command kind) expected

-- `matches!(cmd.kinds(), Some(kinds) if kinds_intersect(expected, kinds))`
unfoldable pub kinds_match : List Kind → Option (List Kind) → Bool
unfolding kinds_intersect
kinds_match expected none = false
kinds_match expected (some kinds) = kinds_intersect expected kinds

-- The events of a list applied in order.
unfoldable pub evolve_all : (R : AggregateRules) → R.State → List R.Event → R.State
evolve_all R s events = foldl R.evolve s events

module _ {R : AggregateRules} where
  unfoldable pub new : R.State → Result (Aggregate R) (InitError R)
  new s =
      if R.machine.eq (R.phase s) R.machine.initial
      then ok (record { state = s })
      else err (not_initial_phase (R.phase s))

  abbrev pub from_state : R.State → Aggregate R
  from_state s = record { state = s }

  check_kind : R.Phase → Option (List Kind) → Option (List Kind) → Option (Rejection R)
  unfolding kinds_match
  check_kind phase none kinds = none
  check_kind phase (some expected) kinds =
      if kinds_match expected kinds then none else some (command_kind_rejected phase expected)

  unfoldable pub structural_check : Aggregate R → R.Command → Option (Rejection R)
  unfolding check_kind
  structural_check a cmd =
      let phase = R.phase a.state in
      if R.machine.is_terminal phase
      then some (terminal_phase phase)
      else check_kind phase (R.machine.restriction phase) (R.command_kind.kinds cmd)

  -- What follows the structural check: `decide`, its error wrapped.
  decide_checked :
      Aggregate R
      → R.Command
      → R.Ctx
      → Option (Rejection R)
      → Result (List R.Event) (Rejection R) × R.Ctx
  decide_checked a cmd ctx (some rejection) = (err rejection, ctx)
  decide_checked a cmd ctx none =
      let (r, ctx') = R.decide a.state cmd ctx in (map_err domain r, ctx')

  unfoldable pub decide_only :
      Aggregate R → R.Command → R.Ctx → Result (List R.Event) (Rejection R) × R.Ctx
  unfolding decide_checked
  decide_only a cmd ctx = decide_checked a cmd ctx (structural_check a cmd)

  unfoldable pub evolve : Aggregate R → R.Event → Aggregate R
  evolve a event = record { state = R.evolve a.state event }

  -- `for event in &events { self.state.evolve(event) }`
  handle_decided :
      Aggregate R
      → Result (List R.Event) R.Error × R.Ctx
      → Aggregate R × R.Ctx × Result (List R.Event) (Rejection R)
  unfolding evolve_all
  handle_decided a (err e, ctx) = (a, ctx, err (domain e))
  handle_decided a (ok events, ctx) =
      (record { state = evolve_all R a.state events }, ctx, ok events)

  handle_checked :
      Aggregate R
      → R.Command
      → R.Ctx
      → Option (Rejection R)
      → Aggregate R × R.Ctx × Result (List R.Event) (Rejection R)
  unfolding handle_decided
  handle_checked a cmd ctx (some rejection) = (a, ctx, err rejection)
  handle_checked a cmd ctx none = handle_decided a (R.decide a.state cmd ctx)

  unfoldable pub handle :
      Aggregate R → R.Command → R.Ctx → Aggregate R × R.Ctx × Result (List R.Event) (Rejection R)
  unfolding handle_checked
  handle a cmd ctx = handle_checked a cmd ctx (structural_check a cmd)

  why_not_decided : Result (List R.Event) R.Error × R.Ctx → Option (Rejection R) × R.Ctx
  why_not_decided (ok events, ctx) = (none, ctx)
  why_not_decided (err e, ctx) = (some (domain e), ctx)

  why_not_checked :
      Aggregate R → R.Command → R.Ctx → Option (Rejection R) → Option (Rejection R) × R.Ctx
  unfolding why_not_decided
  why_not_checked a cmd ctx (some rejection) = (some rejection, ctx)
  why_not_checked a cmd ctx none = why_not_decided (R.decide a.state cmd ctx)

  unfoldable pub why_not : Aggregate R → R.Command → R.Ctx → Option (Rejection R) × R.Ctx
  unfolding why_not_checked
  why_not a cmd ctx = why_not_checked a cmd ctx (structural_check a cmd)
