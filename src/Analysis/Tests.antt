-- ===== src/Analysis/Tests.antt =====
-- The searches on three graphs of three states.
use mathlib.Core.List.Memᴰ
use ironstate.Prelude.{
  ℕ, suc, zero, ◌↔◌, ◌<◌, List, length, Bool, arith, inl, inr, ◌≡◌, refl, true, false, [], ◌∷◌,
  some, none,
}
use mathlib.Core.List.{Memᴰ}
use ironstate.Examples.Ledger.{account_machine}
use ironstate.Analysis.Report.{Report, analyze, has_errors}
use ironstate.Analysis.Clean.{IsClean, analyze-IsClean}
use ironstate.Analysis.Marking.{IsSeen}
use ironstate.Analysis.Search.{AreInRange, Reach}
use ironstate.Analysis.Reachable.{reachable_from-Reach}
use ironstate.Analysis.Reversed.{Edge, get_elem?-Edge}
use ironstate.Analysis.Terminal.{Leads, reaches_terminal-Leads}
use ironstate.Analysis.{
  reachable_from, reaches_terminal, search, mark_outs, push_at, push_outs, push_edges,
  mark_terminals,
}

two_of_three :
    reachable_from 0 ((1 ∷ 0 ∷ []) ∷ (0 ∷ []) ∷ (0 ∷ []) ∷ []) 3 ≡ some (true ∷ true ∷ false ∷ [])
unfolding reachable_from search mark_outs
two_of_three = refl

two_of_three_end :
    reaches_terminal ((1 ∷ []) ∷ [] ∷ (2 ∷ []) ∷ []) (false ∷ true ∷ false ∷ []) 3
    ≡ some (true ∷ true ∷ false ∷ [])
unfolding reaches_terminal push_at push_outs push_edges mark_terminals search mark_outs
two_of_three_end = refl

out_of_range : reachable_from 0 ((3 ∷ []) ∷ [] ∷ [] ∷ []) 3 ≡ none
unfolding reachable_from search mark_outs
out_of_range = refl

abbrev ring : List (List ℕ)
ring = (1 ∷ 0 ∷ []) ∷ (0 ∷ []) ∷ (0 ∷ []) ∷ []

ring-AreInRange : AreInRange ring
ring-AreInRange i j outs found target = targets i (get_elem?-Edge ring i j outs found target)
  where
    targets : (i : ℕ) → Edge ring i j → j < length ring
    targets zero h = elim (Memᴰ.cases_cons h) [
      | inl one ↦ omega arith
      | inr rest ↦ (let same = Memᴰ.eq_of_singleton rest in omega arith)
    ]
    targets (suc zero) h = let same = Memᴰ.eq_of_singleton h in omega arith
    targets (suc (suc zero)) h = let same = Memᴰ.eq_of_singleton h in omega arith
    targets (suc (suc (suc i))) h = absurd h

reachable_from-Reach_example :
    (seen : List Bool) × (reachable_from 0 ring 3 ≡ some seen)
    × (length seen ≡ 3)
    × ((i : ℕ) → IsSeen seen i ↔ Reach ring (λ k. k ≡ 0) i)
reachable_from-Reach_example = reachable_from-Reach 0 ring (omega arith) ring-AreInRange

reaches_terminal-Leads_example :
    (can : List Bool) × (reaches_terminal ring (false ∷ true ∷ false ∷ []) 3 ≡ some can)
    × (length can ≡ 3)
    × ((i : ℕ) → IsSeen can i ↔ Leads ring (false ∷ true ∷ false ∷ []) i)
reaches_terminal-Leads_example =
    reaches_terminal-Leads ring (false ∷ true ∷ false ∷ []) refl ring-AreInRange

-- The report of the ledger's account machine.
analyze-IsClean_example :
    (r : Report) × (analyze account_machine ≡ some r)
    × ((has_errors r ≡ false) ↔ IsClean account_machine)
analyze-IsClean_example = analyze-IsClean account_machine
