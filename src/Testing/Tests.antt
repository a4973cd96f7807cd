-- ===== src/Testing/Tests.antt =====
-- The runtime at the account's phase.
use ironstate.Prelude.{
  ℕ, zero, suc, ◌+◌, ◌<◌, ◌≡◌, ◌≢◌, refl, Bool, true, false, List, [], ◌∷◌, Option, none, some, ok,
  err, arith, All,
}
use ironstate.Machine.{peek_transition, restore, kind_ok, apply}
use ironstate.Examples.Ledger.{
  AccountPhase, PhaseStep, open_phase, frozen_phase, closed_phase, account_machine, transition,
}
use ironstate.Testing.{Invariant, custom, TestParams, run, run_cases, run_steps, violated}
use ironstate.Testing.Kept.{AreKept, run-AreKept}

-- A closed account is left by no event.
abbrev stays : AccountPhase → Option AccountPhase → Bool
stays closed_phase none = true
stays closed_phase (some t) = false
stays _ after = true

abbrev stays_closed : Invariant AccountPhase PhaseStep
stays_closed = custom "stays closed" (λ before event after. stays before after)

abbrev not_frozen : Option AccountPhase → Bool
not_frozen (some frozen_phase) = false
not_frozen _ = true

abbrev ticking : ℕ → ℕ × ℕ
ticking n = (n, n + 1)

holds_at :
    (s : AccountPhase) (e : PhaseStep)
    → stays s (peek_transition account_machine (restore {Instant = ℕ} {W = ℕ} ticking s) e) ≡ true
unfolding peek_transition ironstate.Machine.could_apply restore transition
holds_at open_phase e = refl
holds_at frozen_phase e = refl
holds_at closed_phase e = refl

kept : AreKept account_machine ticking (stays_closed ∷ [])
kept s e r = (holds_at s e, tt)

abbrev params : TestParams
params = record { cases = 1; max_steps = 2; seed = none }

-- The first index twice, if there is one.
abbrev sequences : ℕ → TestParams → List (List ℕ)
sequences zero p = []
sequences (suc n) p = (0 ∷ 0 ∷ []) ∷ []

in_bounds : (n : ℕ) → All (All (λ i. i < n)) (sequences n params)
in_bounds zero = tt
in_bounds (suc n) = ((omega arith, (omega arith, tt)), tt)

some_event : account_machine.event_kind.event_variants ≢ []
some_event e = cc

run-AreKept_example :
    (last : ℕ) × (run account_machine ticking (stays_closed ∷ []) sequences params 7 ≡ ok last)
run-AreKept_example =
    run-AreKept account_machine ticking (stays_closed ∷ []) kept sequences params 7 some_event
      in_bounds

-- An invariant that does not hold is reported.
abbrev never_frozen : Invariant AccountPhase PhaseStep
never_frozen = custom "never frozen" (λ before event after. not_frozen after)

reported : run account_machine ticking (never_frozen ∷ []) sequences params 7 ≡ err "never frozen"
unfolding run run_cases run_steps violated ironstate.Machine.new apply transition
reported = refl
