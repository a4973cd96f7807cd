-- ===== src/Examples/Fixtures.antt =====
-- Concrete inputs: a counter in place of the generator, and journals of the ledger's accounts.
use ironstate.Prelude.{ℕ, ◌+◌, ◌*◌, ◌%◌, ◌^◌, refl, [], ◌∷◌}
use native.Mathlib.Nat.{mod-eq_of_lt}
use ironstate.Aggregate.{AggregateRules, Aggregate}
use ironstate.Entropy.{CtxEntropy, DeterministicCtx, deterministic}
use ironstate.Entropy.Seeded.{Seed, ChaCha, SeededEntropy, seeded, draws, seek}
use ironstate.Journal.{StreamId}
use ironstate.Memory.{MemoryJournal, memory, new}
use ironstate.Replay.Execute.{CtxLaws, AppendAtomic}
use ironstate.Replay.{execute}
use ironstate.Examples.Ledger.{Command, account, open_account}

-- A generator whose state is its position.
abbrev pub counter : ChaCha ℕ
counter = record {
  from_seed = λ seed. 0;
  set_word_pos = λ pos rng. pos;
  get_word_pos = λ rng. rng;
  next_u64 = λ rng. ((rng * 7) % 2 ^ 64, rng + 2);
}

abbrev pub Entropy : Type 0
Entropy = SeededEntropy ℕ

abbrev pub rules : AggregateRules
rules = account Entropy

abbrev pub seed : Seed
seed = 1 ∷ 2 ∷ []

abbrev pub ctx_entropy : CtxEntropy (DeterministicCtx Entropy ℕ) Entropy
ctx_entropy = deterministic (seeded counter)

abbrev pub ctx_at : ℕ → DeterministicCtx Entropy ℕ
ctx_at pos = record { entropy = record { rng = pos; seed = seed }; actor = 1; now = 0 }

pub ctx-laws : CtxLaws ctx_entropy
unfolding draws seek
ctx-laws = record { read_back = λ s ctx. refl; draws-seek = λ p s h. mod-eq_of_lt h }

pub memory-atomic : {R : AggregateRules} → AppendAtomic (memory R)
memory-atomic = record { unchanged = λ j tx id events pos e h. cc }

abbrev pub id : StreamId
id = "account"

abbrev pub empty : MemoryJournal rules
unfolding new
empty = new open_account

-- One turn of the loop in a fresh context.
abbrev pub after :
    MemoryJournal rules → Aggregate rules → Command → MemoryJournal rules × Aggregate rules
after j a cmd =
    let (j', a', ctx, r) = execute (memory rules) ctx_entropy j id a cmd (ctx_at 4) in (j', a')
