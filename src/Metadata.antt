-- ===== src/Metadata.antt =====
-- The description of a machine's state graph (app/crates/ironstate/src/metadata.rs).
pub mod Legal
mod Tests
use ironstate.Prelude.{
  Bool, true, false, List, [], ◌∷◌, ◌++◌, Option, none, some, retain, if◌then◌else◌,
}
use ironstate.Kind.{Kind}
use ironstate.Machine.{StateMachine, kind_ok}

pub record MachineMetadata (S E : Type 0) : Type 0 where
  pub initial_state : S
  pub all_states : List S
  pub terminal_states : List S
  pub transitions : List (S × E × S)

module _ {S E : Type 0} where
  -- The body of the inner loop: whether the event is accepted, its target, and what follows.
  unfoldable pub edge : S → E → Bool → Option S → List (S × E × S) → List (S × E × S)
  edge s e false target rest = rest
  edge s e true none rest = rest
  edge s e true (some target) rest = (s, e, target) ∷ rest

  -- `for event in &events`
  unfoldable pub edges_of : StateMachine S E → S → Option (List Kind) → List E → List (S × E × S)
  edges_of sm s restriction [] = []
  edges_of sm s restriction (e ∷ events) =
      edge s e (kind_ok sm restriction e) (sm.transition s e) (edges_of sm s restriction events)

  -- `for state in &all_states`
  unfoldable pub edges_from : StateMachine S E → List E → List S → List (S × E × S)
  edges_from sm events [] = []
  edges_from sm events (s ∷ states) =
      let rest = edges_from sm events states in
      if sm.is_terminal s then rest else edges_of sm s (sm.restriction s) events ++ rest

  unfoldable pub build : StateMachine S E → MachineMetadata S E
  build sm = record {
    initial_state = sm.initial;
    all_states = sm.state_variants;
    terminal_states = retain sm.is_terminal sm.state_variants;
    transitions = edges_from sm sm.event_kind.event_variants sm.state_variants;
  }
