-- ===== src/Machine.antt =====
-- The runtime machine (app/crates/ironstate/src/machine.rs, with the errors of error.rs, the
-- listeners of listener.rs and the graph description of metadata.rs).
-- A trait is a record of its functions. `&mut self` returns the new machine. A listener and the
-- clock are closures with effects: they act on a world `W`, which the machine never reads.
pub mod Probes
mod Tests
use ironstate.Prelude.{
  String, Bool, true, false, not, List, [], ◌∷◌, ◌++◌, Option, none, some, Result, ok, err,
  if◌then◌else◌, foldl, is_some,
}
use ironstate.Kind.{Kind, accepts}

-- What `#[derive(Event)]` generates; `kinds` is `none` for the implicit default kind.
pub record EventKind (E : Type 0) : Type 0 where
  pub kinds : E → Option (List Kind)
  pub variant_name : E → String
  pub event_variants : List E

-- The traits `TransitionRules` and `StateMachine`; `eq` is `PartialEq`.
pub record StateMachine (S E : Type 0) : Type 0 where
  pub event_kind : EventKind E
  pub transition : S → E → Option S
  pub initial : S
  pub is_terminal : S → Bool
  pub restriction : S → Option (List Kind)
  pub state_variants : List S
  pub variant_name : S → String
  pub eq : S → S → Bool

pub data TransitionError (S E : Type 0) : Type 0 where
  terminal_state : S → E → TransitionError S E
  event_kind_rejected : S → E → List Kind → Option (List Kind) → TransitionError S E
  no_transition : S → E → TransitionError S E

module _ {S E : Type 0} where
  -- `TransitionError::state`
  unfoldable pub error_state : TransitionError S E → S
  error_state (terminal_state s e) = s
  error_state (event_kind_rejected s e expected kinds) = s
  error_state (no_transition s e) = s

  -- `TransitionError::event`, and by value `into_event`
  unfoldable pub into_event : TransitionError S E → E
  into_event (terminal_state s e) = e
  into_event (event_kind_rejected s e expected kinds) = e
  into_event (no_transition s e) = e

  -- Whether a state's restriction lets the event through.
  unfoldable pub kind_ok : StateMachine S E → Option (List Kind) → E → Bool
  kind_ok sm none e = true
  kind_ok sm (some expected) e = accepts expected (sm.event_kind.kinds e)

pub record TransitionRecord (S E Instant : Type 0) : Type 0 where
  pub from_state : S
  pub event : E
  pub to_state : S
  pub timestamp : Instant

pub record Machine (S E Instant W : Type 0) : Type 0 where
  pub state : S
  pub on_transition : List (TransitionRecord S E Instant → W → W)
  pub on_rejection : List (TransitionError S E → W → W)
  pub clock : W → Instant × W

module _ {S E Instant W : Type 0} where
  -- `restore`; the parameter is `default_clock`, the system's clock.
  unfoldable pub restore : (W → Instant × W) → S → Machine S E Instant W
  restore default_clock s = record {
    state = s;
    on_transition = [];
    on_rejection = [];
    clock = default_clock;
  }

  unfoldable pub new : StateMachine S E → (W → Instant × W) → Machine S E Instant W
  new sm default_clock = record {
    state = sm.initial;
    on_transition = [];
    on_rejection = [];
    clock = default_clock;
  }

  -- `Machine::on_transition`
  unfoldable pub add_transition_listener :
      Machine S E Instant W → (TransitionRecord S E Instant → W → W) → Machine S E Instant W
  add_transition_listener m listener = record m {
    on_transition = m.on_transition ++ (listener ∷ []);
  }

  -- `Machine::on_rejection`
  unfoldable pub add_rejection_listener :
      Machine S E Instant W → (TransitionError S E → W → W) → Machine S E Instant W
  add_rejection_listener m listener = record m { on_rejection = m.on_rejection ++ (listener ∷ []) }

  unfoldable pub set_clock : Machine S E Instant W → (W → Instant × W) → Machine S E Instant W
  set_clock m clock = record m { clock = clock }

  unfoldable pub fire_transition : Machine S E Instant W → TransitionRecord S E Instant → W → W
  fire_transition m r w = foldl (λ world listener. listener r world) w m.on_transition

  unfoldable pub fire_rejection : Machine S E Instant W → TransitionError S E → W → W
  fire_rejection m e w = foldl (λ world listener. listener e world) w m.on_rejection

  -- A rejection: the listeners hear of it, and the error is returned.
  reject :
      Machine S E Instant W
      → TransitionError S E
      → W
      → Machine S E Instant W × W × Result S (TransitionError S E)
  reject m e w = (m, fire_rejection m e w, err e)

  -- The `match` on the transition function's answer.
  commit :
      Machine S E Instant W
      → E
      → Option S
      → W
      → Machine S E Instant W × W × Result S (TransitionError S E)
  unfolding reject
  commit m e none w = reject m (no_transition m.state e) w
  commit m e (some next) w =
      let m' = record m { state = next } in
      let (now, w') = m'.clock w in
      let r : TransitionRecord S E Instant = record {
        from_state = m.state;
        event = e;
        to_state = next;
        timestamp = now;
      } in
      (m', fire_transition m' r w', ok next)

  -- The check of a restricted state, and what follows it.
  gate :
      StateMachine S E
      → Machine S E Instant W
      → E
      → Option (List Kind)
      → W
      → Machine S E Instant W × W × Result S (TransitionError S E)
  unfolding reject commit
  gate sm m e none w = commit m e (sm.transition m.state e) w
  gate sm m e (some expected) w =
      let event_kind = sm.event_kind.kinds e in
      if accepts expected event_kind
      then commit m e (sm.transition m.state e) w
      else reject m (event_kind_rejected m.state e expected event_kind) w

  unfoldable pub apply :
      StateMachine S E
      → Machine S E Instant W
      → E
      → W
      → Machine S E Instant W × W × Result S (TransitionError S E)
  unfolding gate
  apply sm m e w =
      if sm.is_terminal m.state
      then reject m (terminal_state m.state e) w
      else gate sm m e (sm.restriction m.state) w

  unfoldable pub could_apply : StateMachine S E → Machine S E Instant W → E → Bool
  unfolding kind_ok
  could_apply sm m e =
      if sm.is_terminal m.state
      then false
      else if not (kind_ok sm (sm.restriction m.state) e)
      then false
      else is_some (sm.transition m.state e)

  no_target : Machine S E Instant W → E → Option S → Option (TransitionError S E)
  no_target m e none = some (no_transition m.state e)
  no_target m e (some next) = none

  why_not_gate :
      StateMachine S E
      → Machine S E Instant W
      → E
      → Option (List Kind)
      → Option (TransitionError S E)
  unfolding no_target
  why_not_gate sm m e none = no_target m e (sm.transition m.state e)
  why_not_gate sm m e (some expected) =
      let event_kind = sm.event_kind.kinds e in
      if not (accepts expected event_kind)
      then some (event_kind_rejected m.state e expected event_kind)
      else no_target m e (sm.transition m.state e)

  unfoldable pub why_not :
      StateMachine S E → Machine S E Instant W → E → Option (TransitionError S E)
  unfolding why_not_gate
  why_not sm m e =
      if sm.is_terminal m.state
      then some (terminal_state m.state e)
      else why_not_gate sm m e (sm.restriction m.state)

  unfoldable pub peek_transition : StateMachine S E → Machine S E Instant W → E → Option S
  unfolding could_apply
  peek_transition sm m e = if not (could_apply sm m e) then none else sm.transition m.state e
