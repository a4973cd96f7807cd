-- ===== src/Aggregate/Tests.antt =====
-- The theorems on aggregates, at an account of the ledger.
use ironstate.Prelude.{◌≡◌, refl, [], ◌∷◌, failure, ok}
use ironstate.Aggregate.{Aggregate, handle, decide_only, why_not, structural_check}
use ironstate.Aggregate.Handle.{settled, handle-decide_only, why_not-decide_only}
use ironstate.Examples.Ledger.{open_phase, deposit, withdraw, deposited, decide, evolve}
use ironstate.Examples.Fixtures.{rules, ctx_at}

abbrev held_3 : Aggregate rules
held_3 = record { state = record { phase = open_phase; balance_cents = 3 } }

handle-decide_only_example :
    handle held_3 (deposit 4) (ctx_at 0)
    ≡ settled held_3 (decide_only held_3 (deposit 4) (ctx_at 0))
handle-decide_only_example = handle-decide_only held_3 (deposit 4) (ctx_at 0)

why_not-decide_only_example : why_not held_3 (withdraw 4) (ctx_at 0) ≡ (
  failure (decide_only held_3 (withdraw 4) (ctx_at 0)).0,
  (decide_only held_3 (withdraw 4) (ctx_at 0)).1,
)
why_not-decide_only_example = why_not-decide_only held_3 (withdraw 4) (ctx_at 0)

deposit_4 : handle held_3 (deposit 4) (ctx_at 0) ≡ (
  record { state = record { phase = open_phase; balance_cents = 7 } },
  ctx_at 0,
  ok (deposited 4 ∷ []),
)
unfolding handle structural_check decide evolve
deposit_4 = refl
