-- ===== src/Examples/Accounts.antt =====
-- Sampled accounts for the test suites, with a counter in place of the generator and of the runner.
use native.Mathlib.Nat.{mod-eq_of_lt}
use ironstate.Prelude.{ℕ, zero, suc, ◌-◌, ◌%◌, ◌^◌, ◌==◌, ◌≡◌, refl, arith}
use ironstate.Entropy.Seeded.{draws, seeded_at}
use ironstate.Replay.{draws_or}
use ironstate.Examples.Fixtures.{counter, ctx_entropy, ctx-laws, rules}
use ironstate.Examples.Ledger.{Command, deposit, withdraw, close, open_account, decide}
use ironstate.Contract.{Strategies}
use ironstate.Contract.Driven.{Lawful}

-- The command for what is left of the runner.
abbrev pub sampled : ℕ → Command
sampled zero = close
sampled (suc zero) = withdraw 5
sampled (suc (suc n)) = deposit 5

-- The runner counts down the deposits that are left, and starts a case with four.
abbrev pub accounts : Strategies rules ℕ ℕ ℕ
accounts = record {
  harness = record {
    chacha = counter;
    ctx_entropy = ctx_entropy;
    test_ctx = λ entropy now. record { entropy = entropy; actor = 1; now = now };
    digest = λ s. s.balance_cents;
    same_digest = ◌==◌;
    sample = λ s runner. (sampled runner, runner - 1);
  };
  initial = λ runner. (open_account, 4);
  runner = λ bytes. 4;
}

pub accounts-Lawful : Lawful accounts 0
unfolding decide draws_or draws seeded_at
accounts-Lawful = record {
  same = λ d. ground arith;
  starts = λ runner. refl;
  context = ctx-laws;
  seeks = λ pos rng h. refl;
  forwards = λ state cmd s pos now h.
      let kept : pos % 2 ^ 64 ≡ pos = mod-eq_of_lt (omega arith) in
      (omega (arith, kept), omega (arith, kept));
  named = refl;
}
