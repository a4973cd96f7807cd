-- ===== src/Examples/Ledger.antt =====
-- The account of the ledger example (app/crates/examples/ledger/src/main.rs), an aggregate over a
-- lifecycle machine. A balance is a 64-bit word.
use ironstate.Prelude.{
  ℕ, ◌+◌, ◌-◌, ◌%◌, ◌^◌, ◌==◌, ltb, not, Bool, true, false, List, [], ◌∷◌, Option, none, some,
  Result, ok, err, if◌then◌else◌, String,
}
use ironstate.Machine.{EventKind, StateMachine}
use ironstate.Aggregate.{AggregateRules}
use ironstate.Entropy.{DeterministicCtx}

pub data AccountPhase : Type 0 where
  open_phase frozen_phase closed_phase : AccountPhase

pub data PhaseStep : Type 0 where
  freeze_step unfreeze_step close_step : PhaseStep

-- `TransitionRules::transition` of the phase.
unfoldable pub transition : AccountPhase → PhaseStep → Option AccountPhase
transition open_phase freeze_step = some frozen_phase
transition frozen_phase unfreeze_step = some open_phase
transition open_phase close_step = some closed_phase
transition frozen_phase close_step = some closed_phase
transition _ _ = none

abbrev pub phase_eq : AccountPhase → AccountPhase → Bool
phase_eq open_phase open_phase = true
phase_eq frozen_phase frozen_phase = true
phase_eq closed_phase closed_phase = true
phase_eq _ _ = false

abbrev pub phase_name : AccountPhase → String
phase_name open_phase = "Open"
phase_name frozen_phase = "Frozen"
phase_name closed_phase = "Closed"

abbrev pub step_name : PhaseStep → String
step_name freeze_step = "Freeze"
step_name unfreeze_step = "Unfreeze"
step_name close_step = "Close"

-- What the two derives generate: the initial phase is open, the terminal one closed.
abbrev pub step_kind : EventKind PhaseStep
step_kind = record {
  kinds = λ e. none;
  variant_name = step_name;
  event_variants = freeze_step ∷ unfreeze_step ∷ close_step ∷ [];
}

abbrev pub account_machine : StateMachine AccountPhase PhaseStep
account_machine = record {
  event_kind = step_kind;
  transition = transition;
  initial = open_phase;
  is_terminal = λ s. phase_eq s closed_phase;
  restriction = λ s. none;
  state_variants = open_phase ∷ frozen_phase ∷ closed_phase ∷ [];
  variant_name = phase_name;
  eq = phase_eq;
}

pub data Command : Type 0 where
  deposit withdraw : ℕ → Command
  freeze unfreeze close : Command

pub data LedgerEvent : Type 0 where
  deposited withdrawn : ℕ → LedgerEvent
  frozen unfrozen closed : LedgerEvent

pub data LedgerError : Type 0 where
  account_closed account_frozen overdraft must_be_empty invalid_transition : LedgerError

pub record Account : Type 0 where
  pub phase : AccountPhase
  pub balance_cents : ℕ

-- `Account::open`
abbrev pub open_account : Account
open_account = record { phase = open_phase; balance_cents = 0 }

decide_open : Account → Command → Result (List LedgerEvent) LedgerError
decide_open a (deposit cents) =
    if phase_eq a.phase frozen_phase then err account_frozen else ok (deposited cents ∷ [])
decide_open a (withdraw cents) =
    if phase_eq a.phase frozen_phase
    then err account_frozen
    else if ltb a.balance_cents cents
    then err overdraft
    else ok (withdrawn cents ∷ [])
decide_open a freeze =
    if phase_eq a.phase open_phase then ok (frozen ∷ []) else err invalid_transition
decide_open a unfreeze =
    if phase_eq a.phase frozen_phase then ok (unfrozen ∷ []) else err invalid_transition
decide_open a close = if not (a.balance_cents == 0) then err must_be_empty else ok (closed ∷ [])

unfoldable pub decide : Account → Command → Result (List LedgerEvent) LedgerError
unfolding decide_open
decide a cmd = if phase_eq a.phase closed_phase then err account_closed else decide_open a cmd

-- `+=` and `-=` wrap in a release build; a debug build panics instead.
unfoldable pub evolve : Account → LedgerEvent → Account
evolve a (deposited cents) = record a { balance_cents = (a.balance_cents + cents) % 2 ^ 64 }
evolve a (withdrawn cents) = record a {
  balance_cents = (a.balance_cents + 2 ^ 64 - cents) % 2 ^ 64;
}
evolve a frozen = record a { phase = frozen_phase }
evolve a unfrozen = record a { phase = open_phase }
evolve a closed = record a { phase = closed_phase }

abbrev pub command_name : Command → String
command_name (deposit n) = "Deposit"
command_name (withdraw n) = "Withdraw"
command_name freeze = "Freeze"
command_name unfreeze = "Unfreeze"
command_name close = "Close"

abbrev pub command_kind : EventKind Command
command_kind = record {
  kinds = λ e. none;
  variant_name = command_name;
  event_variants = deposit 0 ∷ withdraw 0 ∷ freeze ∷ unfreeze ∷ close ∷ [];
}

-- `impl AggregateRules for Account`; `decide` does not touch its context.
abbrev pub account : Type 0 → AggregateRules
account Source = record {
  State = Account;
  Phase = AccountPhase;
  PhaseEvent = PhaseStep;
  Command = Command;
  Event = LedgerEvent;
  Error = LedgerError;
  Ctx = DeterministicCtx Source ℕ;
  machine = account_machine;
  command_kind = command_kind;
  phase = λ a. a.phase;
  decide = λ a cmd ctx. (decide a cmd, ctx);
  evolve = evolve;
  event_type = "ledger::LedgerEvent";
}
