-- ===== src/Testing.antt =====
-- The runtime of `test!` for machines (app/crates/ironstate/src/testing.rs, with the invariants of
-- invariant.rs). A panic is `err` with its message; the runner of the crate `proptest`, which samples
-- the sequences of event indices, is a parameter.
pub mod Kept
mod Tests
use ironstate.Prelude.{
  ℕ, Bool, true, false, List, [], ◌∷◌, Option, none, some, Result, ok, err, ◌>>=◌, if◌then◌else◌,
  get_elem?, length, value, String,
}
use ironstate.Machine.{StateMachine, Machine, new, apply}

pub record Invariant (S E : Type 0) : Type 0 where
  pub description : String
  pub holds : S → E → Option S → Bool

-- `Invariant::custom(description).assert(check)`
abbrev pub custom : {S E : Type 0} → String → (S → E → Option S → Bool) → Invariant S E
custom description check = record { description = description; holds = check }

pub record TestParams : Type 0 where
  pub cases : ℕ
  pub max_steps : ℕ
  pub seed : Option ℕ

-- `TestParams::new`
abbrev pub default_params : TestParams
default_params = record { cases = 500; max_steps = 100; seed = none }

module _ {S E Instant W : Type 0} (sm : StateMachine S E) (default_clock : W → Instant × W)
    (invariants : List (Invariant S E)) where
  -- `for invariant in &invariants`: the description of the first that fails.
  unfoldable pub violated : List (Invariant S E) → S → E → Option S → Option String
  violated [] before event after = none
  violated (i ∷ is) before event after =
      if i.holds before event after then violated is before event after else some i.description

  -- `for idx in indices`; the world is the clock's.
  unfoldable pub run_steps : List ℕ → Machine S E Instant W → W → Result W String
  unfolding violated
  run_steps [] m w = ok w
  run_steps (i ∷ indices) m w = elim (get_elem? sm.event_kind.event_variants i) [
    | none ↦ err "index out of bounds"
    | some event ↦
        let (m', w', r) = apply sm m event w in
        elim (violated invariants m.state event (value r)) [
          | some description ↦ err description
          | none ↦ run_steps indices m' w'
        ]
  ]

  -- The cases of `runner.run`, up to the first that fails.
  unfoldable pub run_cases : List (List ℕ) → W → Result W String
  unfolding run_steps
  run_cases [] w = ok w
  run_cases (indices ∷ cases) w = run_steps indices (new sm default_clock) w >>= run_cases cases

  -- The sequences are sampled for the number of events and the parameters.
  unfoldable pub run : (ℕ → TestParams → List (List ℕ)) → TestParams → W → Result W String
  unfolding run_cases
  run sequences params w = elim sm.event_kind.event_variants [
    | [] ↦ err "no event variants to drive testing"
    | e ∷ events ↦ run_cases (sequences (length (e ∷ events)) params) w
  ]
