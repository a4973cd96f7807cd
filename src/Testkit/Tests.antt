-- ===== src/Testkit/Tests.antt =====
-- The drivers at the ledger's account.
use ironstate.Prelude.{
  ℕ, ◌+◌, ◌==◌, ◌≡◌, ◌↔◌, refl, subst, inl, inr, true, false, List, [], ◌∷◌, ok, err, arith,
  Bool-cases, ltb, if◌then◌else◌,
}
use ironstate.Aggregate.{Aggregate, from_state, handle}
use ironstate.Examples.Fixtures.{rules}
use ironstate.Examples.Accounts.{accounts}
use ironstate.Examples.Ledger.{
  Account, AccountPhase, open_phase, frozen_phase, closed_phase, phase_eq, Command, deposit,
  withdraw, freeze, unfreeze, close, LedgerEvent, deposited, withdrawn, frozen, unfrozen, closed,
  decide, evolve,
}
use ironstate.Testkit.{
  DriveParams, AggregateInvariant, legal_hop, check_events, run_test, LeakTestable, is_excluded,
  run_leak,
}
use ironstate.Testkit.Driven.{IsChecked, run_test-passes}
use ironstate.Testkit.Faults.{Fault, check_events-panics}
use ironstate.Contract.{Panic}
use ironstate.Testkit.Leaks.{Unwinds, run_leak-passes}

-- A frozen account keeps its balance.
abbrev frozen_funds : AggregateInvariant rules
frozen_funds = record {
  description = "frozen funds stay";
  holds = λ before event after.
      if phase_eq before.phase frozen_phase
      then before.balance_cents == after.balance_cents
      else true;
}

abbrev held : AccountPhase → ℕ → Account
held phase cents = record { phase = phase; balance_cents = cents }

-- One event that makes a legal hop and keeps frozen funds.
settled :
    (a : Account) (event : LedgerEvent) (events : List LedgerEvent)
    → event ∷ [] ≡ events
    → legal_hop rules a.phase (evolve a event).phase ≡ true
    → frozen_funds.holds a event (evolve a event) ≡ true
    → IsChecked {R = rules} (frozen_funds ∷ []) a events
settled a event events same hop kept =
    subst (IsChecked {R = rules} (frozen_funds ∷ []) a) same (hop, (kept, tt), tt)

kept_funds : (cents : ℕ) → (cents == cents) ≡ true
kept_funds cents = ground arith

checked :
    (phase : AccountPhase) (cents : ℕ) (cmd : Command) (ctx : rules.Ctx) (events : List LedgerEvent)
    → (handle {R = rules} (from_state (held phase cents)) cmd ctx).2 ≡ ok events
    → IsChecked {R = rules} (frozen_funds ∷ []) (held phase cents) events
unfolding handle decide evolve legal_hop ironstate.Aggregate.structural_check
    ironstate.Examples.Ledger.transition
checked open_phase cents (deposit n) ctx events h =
    settled (held open_phase cents) (deposited n) events (cc h) refl refl
checked open_phase cents (withdraw n) ctx events h = elim (Bool-cases (ltb cents n)) [
  | inl short ↦ let bad = rw short at h in absurd (cc)
  | inr enough ↦
      settled (held open_phase cents) (withdrawn n) events (cc (rw enough at h)) refl refl
]
checked open_phase cents freeze ctx events h =
    settled (held open_phase cents) frozen events (cc h) refl refl
checked open_phase cents unfreeze ctx events h = absurd (cc)
checked open_phase cents close ctx events h = elim (Bool-cases (cents == 0)) [
  | inl empty ↦ settled (held open_phase cents) closed events (cc (rw empty at h)) refl refl
  | inr funded ↦ let bad = rw funded at h in absurd (cc)
]
checked frozen_phase cents (deposit n) ctx events h = absurd (cc)
checked frozen_phase cents (withdraw n) ctx events h = absurd (cc)
checked frozen_phase cents freeze ctx events h = absurd (cc)
checked frozen_phase cents unfreeze ctx events h =
    settled (held frozen_phase cents) unfrozen events (cc h) refl (kept_funds cents)
checked frozen_phase cents close ctx events h = elim (Bool-cases (cents == 0)) [
  | inl empty ↦
      settled (held frozen_phase cents) closed events (cc (rw empty at h)) refl (kept_funds cents)
  | inr funded ↦ let bad = rw funded at h in absurd (cc)
]
checked closed_phase cents cmd ctx events h = absurd (cc)

account-IsChecked :
    (a : Aggregate rules) (cmd : Command) (ctx : rules.Ctx) (events : List LedgerEvent)
    → (handle a cmd ctx).2 ≡ ok events
    → IsChecked {R = rules} (frozen_funds ∷ []) a.state events
account-IsChecked a = checked a.state.phase a.state.balance_cents

abbrev params : DriveParams
params = record { cases = 2; max_steps = 5; seed = 7 }

run_test-passes_example : run_test accounts params (frozen_funds ∷ []) ≡ ok tt
run_test-passes_example = run_test-passes accounts (frozen_funds ∷ []) account-IsChecked params

-- Two principals that see only the phase; the balance is hidden.
abbrev hidden_balance : LeakTestable rules ℕ ℕ AccountPhase
hidden_balance = record {
  principals = λ a. 1 ∷ 2 ∷ [];
  same_principal = ◌==◌;
  resample_hidden = λ a p entropy. record a { balance_cents = a.balance_cents + 3 };
  view_for = λ a q. a.phase;
  same_view = phase_eq;
}

abbrev Alike : ℕ → Account → Account → Type 0
Alike p a b = a.phase ≡ b.phase

phase_eq_refl : (p : AccountPhase) → phase_eq p p ≡ true
phase_eq_refl open_phase = refl
phase_eq_refl frozen_phase = refl
phase_eq_refl closed_phase = refl

-- The phase after a command other than the close is determined by the phase before.
phase_after :
    (phase : AccountPhase) (m n : ℕ) (cmd : Command) (ctx : rules.Ctx)
    → is_excluded accounts hidden_balance ("Close" ∷ []) cmd ≡ false
    → (handle {R = rules} (from_state (held phase m)) cmd ctx).0.state.phase
      ≡ (handle {R = rules} (from_state (held phase n)) cmd ctx).0.state.phase
unfolding handle decide evolve legal_hop ironstate.Aggregate.structural_check
    ironstate.Examples.Ledger.transition
phase_after open_phase m n (deposit k) ctx h = refl
phase_after open_phase m n (withdraw k) ctx h = ground arith
phase_after open_phase m n freeze ctx h = refl
phase_after open_phase m n unfreeze ctx h = refl
phase_after open_phase m n close ctx h = cc
phase_after frozen_phase m n (deposit k) ctx h = refl
phase_after frozen_phase m n (withdraw k) ctx h = refl
phase_after frozen_phase m n freeze ctx h = refl
phase_after frozen_phase m n unfreeze ctx h = refl
phase_after frozen_phase m n close ctx h = cc
phase_after closed_phase m n cmd ctx h = refl

unwinds : Unwinds accounts hidden_balance ("Close" ∷ []) Alike
unwinds = record {
  hidden = λ p t entropy. refl;
  kept = λ p a b cmd ctx shown same.
      subst
        (λ x.
          (handle {R = rules} a cmd ctx).0.state.phase
          ≡ (handle {R = rules} (from_state (held x b.state.balance_cents)) cmd ctx).0.state.phase)
        same (phase_after a.state.phase a.state.balance_cents b.state.balance_cents cmd ctx shown);
  unseen =
      λ p q t u other same. subst (λ x. phase_eq t.phase x ≡ true) same (phase_eq_refl t.phase);
}

run_leak-passes_example : run_leak accounts hidden_balance ("Close" ∷ []) params ≡ ok tt
run_leak-passes_example =
    run_leak-passes accounts hidden_balance ("Close" ∷ []) Alike unwinds params

phase_eq-path : (p q : AccountPhase) → phase_eq p q ≡ true → p ≡ q
phase_eq-path open_phase open_phase h = refl
phase_eq-path frozen_phase frozen_phase h = refl
phase_eq-path closed_phase closed_phase h = refl
phase_eq-path _ _ h = absurd cc

phase_eq-exact : (p q : AccountPhase) → (phase_eq p q ≡ true) ↔ (p ≡ q)
phase_eq-exact p q =
    (λ h. phase_eq-path p q h, λ e. subst (λ r. phase_eq p r ≡ true) e (phase_eq_refl p))

-- A closed account does not open again.
check_events-panics_example :
    ((x : Panic) × (check_events {R = rules}
          (frozen_funds ∷ [])
          (held open_phase 0)
          (closed ∷ unfrozen ∷ [])
        ≡ err x))
    ↔ Fault rules (frozen_funds ∷ []) (held open_phase 0) (closed ∷ unfrozen ∷ [])
check_events-panics_example =
    check_events-panics rules phase_eq-exact (frozen_funds ∷ []) (held open_phase 0)
      (closed ∷ unfrozen ∷ [])

reopened :
    check_events {R = rules} (frozen_funds ∷ []) (held open_phase 0) (closed ∷ unfrozen ∷ [])
    ≡ err "illegal phase hop"
unfolding check_events legal_hop evolve ironstate.Examples.Ledger.transition
reopened = refl
