-- ===== src/Testkit/Faults.antt =====
-- What makes the checks of `run_test` panic (app/crates/ironstate-aggregate/src/testkit.rs).
use mathlib.Core.List.{Memᴰ}
use mathlib.Core.List.Memᴰ
use ironstate.Prelude.{
  ◌≡◌, refl, sym, ap, subst, ◌∙◌, ◌↔◌, ◌⊎◌, inl, inr, true, false, List, [], ◌∷◌, ◌++◌, Option,
  none, some, err, any, foldl, All, Bool-cases, Result-cases, false≢true,
}
use ironstate.Aggregate.{AggregateRules}
use ironstate.Contract.{Panic}
use ironstate.Testkit.{AggregateInvariant, is_target, legal_hop, invariants_hold, check_events}
use ironstate.Testkit.Driven.{IsChecked, check_events-IsChecked}

All-Memᴰ : {A : Type 0} (P : A → Type 0) (xs : List A) (x : A) → All P xs → Memᴰ x xs → P x
All-Memᴰ P [] x h m = elim m [ ]
All-Memᴰ P (y ∷ xs) x h m = elim (Memᴰ.cases_cons m) [
  | inl same ↦ subst P (sym same) h.0
  | inr later ↦ All-Memᴰ P xs x h.1 later
]

module _ (R : AggregateRules) where
  -- A phase stays, or one of the declared events of the machine leads to the next.
  abbrev pub Hops : R.Phase → R.Phase → Type 0
  Hops p q =
      (p ≡ q)
      ⊎ ((e : R.PhaseEvent) × Memᴰ e R.machine.event_kind.event_variants
          × (R.machine.transition p e ≡ some q))

  -- Some event of the list, applied where those before it lead, makes a hop that is none, or
  -- breaks an invariant.
  abbrev pub Fault : List (AggregateInvariant R) → R.State → List R.Event → Type 0
  Fault invariants s events =
      (before : List R.Event) × (event : R.Event) × (later : List R.Event) × (events
        ≡ before ++ (event ∷ later))
      × ((¬ Hops (R.phase (foldl R.evolve s before))
            (R.phase (R.evolve (foldl R.evolve s before) event)))
          ⊎ ((i : AggregateInvariant R) × Memᴰ i invariants
              × (i.holds (foldl R.evolve s before) event (R.evolve (foldl R.evolve s before) event)
                  ≡ false)))

  module _ (exact : (p q : R.Phase) → (R.machine.eq p q ≡ true) ↔ (p ≡ q)) where
    is_target-some :
        (o : Option R.Phase) (q : R.Phase) → (is_target R.machine.eq o q ≡ true) ↔ (o ≡ some q)
    is_target-some none q = (λ h. absurd (false≢true h), λ h. cc)
    is_target-some (some p) q = (
      λ h. ap some ((exact p q).0 h),
      λ h. (exact p q).1 (mathlib.Core.Option.some-injective p q h),
    )

    any-target :
        (es : List R.PhaseEvent) (p q : R.Phase)
        → (any (λ e. is_target R.machine.eq (R.machine.transition p e) q) es ≡ true)
          ↔ ((e : R.PhaseEvent) × Memᴰ e es × (R.machine.transition p e ≡ some q))
    any-target [] p q = (λ h. absurd (false≢true h), λ (e, m, t). elim m [ ])
    any-target (e ∷ es) p q =
        let here = is_target-some (R.machine.transition p e) q in
        let rest = any-target es p q in
        (
          λ h. elim (Bool-cases (is_target R.machine.eq (R.machine.transition p e) q)) [
            | inl hit ↦ (e, Memᴰ.head refl, here.0 hit)
            | inr miss ↦ let (f, m, t) = rest.0 (rw miss at h) in (f, Memᴰ.tail m, t)
          ],
          λ (f, m, t). elim (Memᴰ.cases_cons m) [
            | inl same ↦ rw (here.1 (subst (λ g. R.machine.transition p g ≡ some q) same t)) refl
            | inr later ↦ elim (Bool-cases (is_target R.machine.eq (R.machine.transition p e) q)) [
              | inl hit ↦ rw hit refl
              | inr miss ↦ rw miss (rest.1 (f, later, t))
            ]
          ],
        )

    legal_hop-Hops : (p q : R.Phase) → (legal_hop R p q ≡ true) ↔ Hops p q
    unfolding legal_hop
    legal_hop-Hops p q =
        let made = any-target R.machine.event_kind.event_variants p q in
        elim (Bool-cases (R.machine.eq p q)) [
          | inl same ↦ rw same (λ h. inl ((exact p q).0 same), λ h. refl)
          | inr other ↦ (
            λ h. inr (made.0 (rw other at h)),
            λ h. rw other (elim h [
              | inl same ↦ absurd (false≢true (sym other ∙ (exact p q).1 same))
              | inr hop ↦ made.1 hop
            ]),
          )
        ]

    module _ (invariants : List (AggregateInvariant R)) where
      invariants_hold-broken :
          (is : List (AggregateInvariant R)) (s : R.State) (event : R.Event) (after : R.State)
          (x : Panic)
          → invariants_hold invariants is s event after ≡ err x
          → (i : AggregateInvariant R) × Memᴰ i is × (i.holds s event after ≡ false)
      unfolding invariants_hold
      invariants_hold-broken [] s event after x h = absurd cc
      invariants_hold-broken (i ∷ is) s event after x h =
          elim (Bool-cases (i.holds s event after)) [
            | inr broken ↦ (i, Memᴰ.head refl, broken)
            | inl kept ↦
                let (j, m, broken) = invariants_hold-broken is s event after x (rw kept at h) in
                (j, Memᴰ.tail m, broken)
          ]

      later_fault :
          (s : R.State) (event : R.Event) (events : List R.Event)
          → Fault invariants (R.evolve s event) events
          → Fault invariants s (event ∷ events)
      later_fault s event events (before, bad, later, split, why) =
          (event ∷ before, bad, later, ap (λ es. event ∷ es) split, why)

      check_events-Fault :
          (s : R.State) (events : List R.Event) (x : Panic)
          → check_events invariants s events ≡ err x
          → Fault invariants s events
      unfolding check_events
      check_events-Fault s [] x h = absurd cc
      check_events-Fault s (event ∷ events) x h =
          let after = R.evolve s event in
          elim (Bool-cases (legal_hop R (R.phase s) (R.phase after))) [
            | inr illegal ↦ (
              [],
              event,
              events,
              refl,
              inl (λ hop.
                  false≢true (sym illegal ∙ (legal_hop-Hops (R.phase s) (R.phase after)).1 hop)),
            )
            | inl legal ↦
                elim (Result-cases (invariants_hold invariants invariants s event after)) [
                  | inr (y, broken) ↦ (
                    [],
                    event,
                    events,
                    refl,
                    inr (invariants_hold-broken invariants s event after y broken),
                  )
                  | inl (t, kept) ↦
                      later_fault s event events
                        (check_events-Fault after events x (rw kept at (rw legal at h)))
                ]
          ]

      Fault-IsChecked :
          (before : List R.Event) (s : R.State) (event : R.Event) (later : List R.Event)
          → IsChecked {R = R} invariants s (before ++ (event ∷ later))
          → (legal_hop R
                (R.phase (foldl R.evolve s before))
                (R.phase (R.evolve (foldl R.evolve s before) event))
              ≡ true)
            × All
                (λ i.
                  i.holds (foldl R.evolve s before) event (R.evolve (foldl R.evolve s before) event)
                  ≡ true)
                invariants
      Fault-IsChecked [] s event later h = (h.0, h.1)
      Fault-IsChecked (e ∷ before) s event later h =
          Fault-IsChecked before (R.evolve s e) event later h.2

      -- When the phases' equality decides equality: the checks of `run_test` panic on a list of events
      -- exactly if some event of it, applied to the state where those before it lead, changes the
      -- phase in a way that no declared event of the machine does, or breaks a declared invariant.
      pub check_events-panics :
          (s : R.State) (events : List R.Event)
          → ((x : Panic) × (check_events invariants s events ≡ err x)) ↔ Fault invariants s events
      check_events-panics s events = (
        λ (x, h). check_events-Fault s events x h,
        λ (before, event, later, split, why).
            elim (Result-cases (check_events invariants s events)) [
              | inr failed ↦ failed
              | inl (t, passed) ↦
                  let at = foldl R.evolve s before in
                  let checked = Fault-IsChecked before s event later (
                    subst (IsChecked {R = R} invariants s) split
                      ((check_events-IsChecked invariants s events).0 passed)) in
                  absurd (elim why [
                    | inl no_hop ↦ no_hop ((legal_hop-Hops (R.phase at) _).0 checked.0)
                    | inr (i, m, broken) ↦ false≢true (
                        sym broken
                        ∙ All-Memᴰ (λ j. j.holds at event (R.evolve at event) ≡ true) invariants i
                            checked.1 m)
                  ])
            ],
      )
