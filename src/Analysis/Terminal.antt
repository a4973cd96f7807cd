-- ===== src/Analysis/Terminal.antt =====
-- `reaches_terminal` against the paths that lead to a terminal state.
use mathlib.Core.List.{Memᴰ}
use ironstate.Prelude.{
  ℕ, zero, suc, ◌<◌, ◌≡◌, sym, ◌∙◌, subst, ◌↔◌, inl, inr, Bool, false, List, [], some, arith,
  length, get_elem?,
}
use ironstate.Analysis.{filled, reaches_terminal}
use ironstate.Analysis.Marking.{IsSeen, get_elem?-lt}
use ironstate.Analysis.Search.{Reach, AreInRange, search-Reach}
use ironstate.Analysis.Reachable.{length-filled, unseen-filled, unseen_filled}
use ironstate.Analysis.Stacking.{mark_terminals-AllStacked, first_state}
use ironstate.Analysis.Reversed.{Edge, Edge-get_elem?, get_elem?-Edge, push_edges-Extends}

-- A path over the edges to a terminal state.
pub data Leads (edges : List (List ℕ)) (terminal : List Bool) : ℕ → Type 0 where
  ended : {i : ℕ} → IsSeen terminal i → Leads edges terminal i
  onward :
      {i j : ℕ} {outs : List ℕ}
      → get_elem? edges i ≡ some outs
      → Memᴰ j outs
      → Leads edges terminal j
      → Leads edges terminal i

unconnected : (n i j : ℕ) → Edge (filled [] n) i j → ⊥
unconnected zero i j h = h
unconnected (suc n) zero j h = elim h [ ]
unconnected (suc n) (suc i) j h = unconnected n i j h

module _ (edges : List (List ℕ)) (terminal : List Bool) where
  reversed_Reach :
      (rev : List (List ℕ))
      → ((k a : ℕ) → Edge rev k a → Edge edges a k)
      → (i : ℕ) → Reach rev (IsSeen terminal) i
      → Leads edges terminal i
  reversed_Reach rev turned i (Reach.here h) = Leads.ended h
  reversed_Reach rev turned j (Reach.along {i} {outs = outs} r found target) =
      let (outs', found', target') =
        Edge-get_elem? edges j i (turned i j (get_elem?-Edge rev i j outs found target)) in
      Leads.onward found' target' (reversed_Reach rev turned i r)

  Leads-Reach :
      (rev : List (List ℕ))
      → ((k a : ℕ) → Edge edges a k → Edge rev k a)
      → (i : ℕ) → Leads edges terminal i
      → Reach rev (IsSeen terminal) i
  Leads-Reach rev turned i (Leads.ended h) = Reach.here h
  Leads-Reach rev turned i (Leads.onward {j = j} {outs} found target path) =
      let (outs', found', target') =
        Edge-get_elem? rev j i (turned j i (get_elem?-Edge edges i j outs found target)) in
      Reach.along (Leads-Reach rev turned j path) found' target'

  -- Over edges that lead to states, and a table of terminal states with one entry for each state, the
  -- search ends without a panic and marks exactly the states from which a path leads to a terminal one.
  pub reaches_terminal-Leads :
      length terminal ≡ length edges
      → AreInRange edges
      → (can : List Bool) × (reaches_terminal edges terminal (length edges) ≡ some can)
        × (length can ≡ length edges)
        × ((i : ℕ) → IsSeen can i ↔ Leads edges terminal i)
  unfolding reaches_terminal
  reaches_terminal-Leads sizes range =
      let n = length edges in
      let empty = length-filled {A = List ℕ} [] n in
      let unmarked = length-filled false n in
      let (rev, pushed, e) = push_edges-Extends 0 edges (filled [] n) (λ d j h.
        let (outs, found, target) = Edge-get_elem? edges d j h in
        subst (λ m. j < m) (sym empty) (range d j outs found target)) in
      let turned : (k a : ℕ) → Edge rev k a → Edge edges a k = λ k a h. elim (e.only k a h) [
        | inl before ↦ absurd (unconnected n k a before)
        | inr (d, at, edge) ↦ subst (λ x. Edge edges x k) (omega (arith, at)) edge
      ] in
      let back : (k a : ℕ) → Edge edges a k → Edge rev k a =
        λ k a h. e.new k a (a, omega arith, h) in
      let t =
        mark_terminals-AllStacked 0 terminal (filled false n) [] (omega (arith, sizes, unmarked))
          (first_state n) in
      let rev_size : length rev ≡ n = e.size ∙ empty in
      let (can, result, size, exact) =
        search-Reach rev (IsSeen terminal)
          (λ i j outs found target.
            let (outs', found', target') =
              Edge-get_elem? edges j i (turned i j (get_elem?-Edge rev i j outs found target)) in
            subst (λ m. j < m) (sym rev_size) (get_elem?-lt edges j outs' found'))
          n t.can' t.stack' (t.size ∙ unmarked ∙ sym rev_size)
          (λ i. (
            λ seen. subst (IsSeen t.can') (omega arith) (t.new i seen),
            λ seen. elim (t.only i seen) [
              | inl before ↦ absurd (unseen_filled n i before)
              | inr (d, at, found) ↦ subst (IsSeen terminal) (omega (arith, at)) found
            ],
          ))
          t.stacked (omega (arith, t.balance, unseen-filled n)) in
      (
        can,
        rw (pushed, reaches_terminal) (rw (t.result, reaches_terminal) result),
        size ∙ rev_size,
        λ i. (
          λ h. reversed_Reach rev turned i ((exact i).0 h),
          λ h. (exact i).1 (Leads-Reach rev back i h),
        ),
      )
