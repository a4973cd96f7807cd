-- ===== src/Examples/Counter.antt =====
-- The counter of the suite's own test (app/crates/ironstate-journal/tests/contract.rs): a tick draws a
-- die from the entropy, and a close ends the counter. The generator is the fixtures' counter.
use ironstate.Prelude.{
  ℕ, zero, suc, ◌+◌, ◌-◌, ◌%◌, ◌^◌, ◌≤◌, ◌<◌, ◌==◌, ◌≡◌, refl, Bool, true, false, List, [], ◌∷◌,
  Option, none, some, Result, ok, err, String, arith, if◌then◌else◌, is_some,
}
use ironstate.Machine.{StateMachine}
use ironstate.Aggregate.{AggregateRules}
use ironstate.Entropy.{DeterministicCtx}
use ironstate.Entropy.Seeded.{seeded, draws, draw_u64, seeded_at}
use ironstate.Entropy.Draws.{draw_range, sample}
use ironstate.Replay.{draws_or}
use ironstate.Examples.Fixtures.{Entropy, counter, ctx_entropy, ctx-laws}
use ironstate.Contract.{Strategies}
use ironstate.Contract.Driven.{Lawful}

pub data Phase : Type 0 where
  open_counter closed_counter : Phase

pub data Step : Type 0 where
  close_step : Step

abbrev phase_eq : Phase → Phase → Bool
phase_eq open_counter open_counter = true
phase_eq closed_counter closed_counter = true
phase_eq _ _ = false

abbrev phase_name : Phase → String
phase_name open_counter = "Open"
phase_name closed_counter = "Closed"

abbrev transition : Phase → Step → Option Phase
transition open_counter step = some closed_counter
transition closed_counter step = none

abbrev phase_machine : StateMachine Phase Step
phase_machine = record {
  event_kind = record {
    kinds = λ e. none;
    variant_name = λ e. "Close";
    event_variants = close_step ∷ [];
  };
  transition = transition;
  initial = open_counter;
  is_terminal = λ s. phase_eq s closed_counter;
  restriction = λ s. none;
  state_variants = open_counter ∷ closed_counter ∷ [];
  variant_name = phase_name;
  eq = phase_eq;
}

pub data Command : Type 0 where
  tick close : Command

pub data CounterEvent : Type 0 where
  rolled : ℕ → CounterEvent
  closed : CounterEvent

pub data ClosedError : Type 0 where
  closed_error : ClosedError

pub record Counter : Type 0 where
  pub phase : Phase
  pub total : ℕ

abbrev command_name : Command → String
command_name tick = "Tick"
command_name close = "Close"

-- The die, from the draws that are left. With this generator two words are always enough.
abbrev roll :
    DeterministicCtx Entropy ℕ
    → Option (ℕ × Entropy)
    → Result (List CounterEvent) ClosedError × DeterministicCtx Entropy ℕ
roll ctx none = (err closed_error, ctx)
roll ctx (some (die, entropy)) = (ok (rolled (die % 2 ^ 8) ∷ []), record ctx { entropy = entropy })

abbrev decide_open :
    Command
    → DeterministicCtx Entropy ℕ
    → Result (List CounterEvent) ClosedError × DeterministicCtx Entropy ℕ
decide_open tick ctx = roll ctx (draw_range (seeded counter) 2 1 7 ctx.entropy)
decide_open close ctx = (ok (closed ∷ []), ctx)

unfoldable pub decide :
    Counter
    → Command
    → DeterministicCtx Entropy ℕ
    → Result (List CounterEvent) ClosedError × DeterministicCtx Entropy ℕ
decide c cmd ctx =
    if phase_eq c.phase open_counter then decide_open cmd ctx else (err closed_error, ctx)

abbrev evolve : Counter → CounterEvent → Counter
evolve c (rolled n) = record c { total = (c.total + n) % 2 ^ 32 }
evolve c closed = record c { phase = closed_counter }

abbrev pub counter_rules : AggregateRules
counter_rules = record {
  State = Counter;
  Phase = Phase;
  PhaseEvent = Step;
  Command = Command;
  Event = CounterEvent;
  Error = ClosedError;
  Ctx = DeterministicCtx Entropy ℕ;
  machine = phase_machine;
  command_kind = record {
    kinds = λ e. none;
    variant_name = command_name;
    event_variants = tick ∷ close ∷ [];
  };
  phase = λ c. c.phase;
  decide = decide;
  evolve = evolve;
  event_type = "Ev";
}

abbrev pub new_counter : Counter
new_counter = record { phase = open_counter; total = 0 }

-- The runner counts down the ticks that are left, and closes after the last.
abbrev pub sampled : ℕ → Command
sampled zero = close
sampled (suc n) = tick

abbrev pub counters : Strategies counter_rules ℕ ℕ ℕ
counters = record {
  harness = record {
    chacha = counter;
    ctx_entropy = ctx_entropy;
    test_ctx = λ entropy now. record { entropy = entropy; actor = 0; now = now };
    digest = λ c. c.total;
    same_digest = ◌==◌;
    sample = λ c runner. (sampled runner, runner - 1);
  };
  initial = λ runner. (new_counter, 3);
  runner = λ bytes. 3;
}

-- The context of a decision at a position.
abbrev at : ℕ → DeterministicCtx Entropy ℕ
at pos = record { entropy = record { rng = pos; seed = [] }; actor = 0; now = 0 }

-- A decision of the counter moves the position on by four words at most.
decide_forwards :
    (c : Counter) (cmd : Command) (ctx : DeterministicCtx Entropy ℕ) (head : ℕ)
    → ctx.entropy.rng + 4 < 2 ^ 64
    → (ctx.entropy.rng ≤ draws_or ctx_entropy head (decide c cmd ctx).1)
      × (draws_or ctx_entropy head (decide c cmd ctx).1 ≤ ctx.entropy.rng + 4)
unfolding decide draws_or draws draw_range sample draw_u64
decide_forwards c cmd ctx head h = ground arith

pub counters-Lawful : Lawful counters 4
unfolding seeded_at
counters-Lawful = record {
  same = λ d. ground arith;
  starts = λ runner. refl;
  context = ctx-laws;
  seeks = λ pos rng h. refl;
  forwards = λ c cmd s pos now h.
      decide_forwards c cmd (record { entropy = seeded_at counter s pos; actor = 0; now = now }) pos
        h;
  named = refl;
}

-- Two ticks draw: the second reads its die after a word that is not accepted.
first_draw : draws_or ctx_entropy 0 (decide new_counter tick (at 0)).1 ≡ 2
unfolding decide draws_or draws draw_range sample draw_u64
first_draw = refl

second_draw : draws_or ctx_entropy 2 (decide new_counter tick (at 2)).1 ≡ 6
unfolding decide draws_or draws draw_range sample draw_u64
second_draw = refl

-- Two words are always enough for a die.
rolls : (e : Entropy) → is_some (draw_range (seeded counter) 2 1 7 e) ≡ true
unfolding draw_range sample draw_u64
rolls e = ground arith
