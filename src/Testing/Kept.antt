-- ===== src/Testing/Kept.antt =====
-- When `run` passes: invariants that hold at every reachable state are never reported.
use ironstate.Prelude.{
  ℕ, zero, suc, ◌<◌, ◌≡◌, ◌≢◌, refl, sym, subst, inl, inr, true, false, List, [], ◌∷◌, Option, none,
  some, ok, arith, get_elem?, length, value, All, Result-cases,
}
use ironstate.Machine.{StateMachine, Machine, new, restore, apply, peek_transition, kind_ok}
use ironstate.Machine.Probes.{apply-probes, apply-committed, apply-refused}
use ironstate.Testing.{Invariant, TestParams, violated, run_steps, run_cases, run}

module _ {S E Instant W : Type 0} (sm : StateMachine S E) (default_clock : W → Instant × W)
    (invariants : List (Invariant S E)) where
  -- The states that accepted events lead to from the initial one.
  pub data Reached : S → Type 0 where
    start : Reached sm.initial
    onward :
        {s t : S} (e : E)
        → Reached s
        → sm.is_terminal s ≡ false
        → kind_ok sm (sm.restriction s) e ≡ true
        → sm.transition s e ≡ some t
        → Reached t

  -- Every invariant holds of every event at every state reached, with the state after, if any.
  abbrev pub AreKept : Type 0
  AreKept =
      (s : S) (e : E)
      → Reached s
      → All (λ i. i.holds s e (peek_transition sm (restore default_clock s) e) ≡ true) invariants

  violated-none :
      (is : List (Invariant S E)) (s : S) (e : E) (after : Option S)
      → All (λ i. i.holds s e after ≡ true) is
      → violated sm default_clock invariants is s e after ≡ none
  unfolding violated
  violated-none [] s e after h = refl
  violated-none (i ∷ is) s e after h = rw (h.0) (violated-none is s e after h.1)

  -- What `apply` returns is what the probe says of a machine in the same state.
  value-peek :
      (m : Machine S E Instant W) (e : E) (w : W)
      → peek_transition sm (restore default_clock m.state) e ≡ value (apply sm m e w).2
  unfolding peek_transition ironstate.Machine.could_apply restore
  value-peek m e w = (apply-probes sm m e w).0

  -- The state after one event is reached too.
  apply-Reached :
      (m : Machine S E Instant W) (e : E) (w : W)
      → Reached m.state
      → Reached (apply sm m e w).0.state
  apply-Reached m e w r = elim (Result-cases (apply sm m e w).2) [
    | inl (t, done) ↦
        let (live, kind, target, after, told) = apply-committed sm m e w t done in
        subst (λ k. Reached k.state) (sym after) (Reached.onward e r live kind target)
    | inr (x, refused) ↦ subst (λ k. Reached k.state) (sym (apply-refused sm m e w x refused).0) r
  ]

  event_at : (events : List E) (i : ℕ) → i < length events → (e : E) × (get_elem? events i ≡ some e)
  event_at [] i h = absurd (omega arith)
  event_at (e ∷ events) zero h = (e, refl)
  event_at (e ∷ events) (suc i) h = event_at events i (omega arith)

  first_event : (es : List E) → es ≢ [] → (e : E) × (events : List E) × (es ≡ e ∷ events)
  first_event [] h = absurd (h refl)
  first_event (e ∷ events) h = (e, events, refl)

  -- A sequence of indices that are in bounds is run to its end.
  run_steps-AreKept :
      AreKept
      → (indices : List ℕ) (m : Machine S E Instant W) (w : W)
      → All (λ i. i < length sm.event_kind.event_variants) indices
      → Reached m.state
      → (last : W) × (run_steps sm default_clock invariants indices m w ≡ ok last)
  unfolding run_steps
  run_steps-AreKept kept [] m w bounds r = (w, refl)
  run_steps-AreKept kept (i ∷ indices) m w bounds r =
      let (e, found) = event_at sm.event_kind.event_variants i bounds.0 in
      let after = value (apply sm m e w).2 in
      let held : All (λ v. v.holds m.state e after ≡ true) invariants =
        subst (λ o. All (λ v. v.holds m.state e o ≡ true) invariants) (value-peek m e w)
          (kept m.state e r) in
      let (last, rest) =
        run_steps-AreKept kept indices (apply sm m e w).0 (apply sm m e w).1 bounds.1
          (apply-Reached m e w r) in
      (
        last,
        rw (found, run_steps) (rw (violated-none invariants m.state e after held, run_steps) rest),
      )

  run_cases-AreKept :
      AreKept
      → (cases : List (List ℕ)) (w : W)
      → All (All (λ i. i < length sm.event_kind.event_variants)) cases
      → (last : W) × (run_cases sm default_clock invariants cases w ≡ ok last)
  unfolding run_cases new
  run_cases-AreKept kept [] w bounds = (w, refl)
  run_cases-AreKept kept (indices ∷ cases) w bounds =
      let (mid, done) =
        run_steps-AreKept kept indices (new sm default_clock) w bounds.0 Reached.start in
      let (last, rest) = run_cases-AreKept kept cases mid bounds.1 in (last, rw (done) rest)

  -- When every declared invariant holds of every event at every state that accepted events
  -- reach from the initial one, and the sampler keeps indices in bounds, the run of test! on a
  -- machine with some event ends without reporting a violation, whatever sequences are sampled.
  pub run-AreKept :
      AreKept
      → (sequences : ℕ → TestParams → List (List ℕ)) (params : TestParams) (w : W)
      → sm.event_kind.event_variants ≢ []
      → ((n : ℕ) → All (All (λ i. i < n)) (sequences n params))
      → (last : W) × (run sm default_clock invariants sequences params w ≡ ok last)
  unfolding run
  run-AreKept kept sequences params w some_event bounds =
      let n = length sm.event_kind.event_variants in
      let (last, done) = run_cases-AreKept kept (sequences n params) w (bounds n) in
      let (e, events, same) = first_event sm.event_kind.event_variants some_event in
      (
        last,
        rw (same, run)
            (subst
              (λ es.
                run_cases sm default_clock invariants (sequences (length es) params) w ≡ ok last)
              same done),
      )
