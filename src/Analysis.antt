-- ===== src/Analysis.antt =====
-- The structural analysis of a machine's state graph (app/crates/ironstate/src/analysis.rs): the two
-- searches over its edges. An index out of range, at which the code panics, is `none`; so is a
-- search that its fuel does not carry to the end.
pub mod Marking
pub mod Search
pub mod Reachable
pub mod Reversed
pub mod Stacking
pub mod Terminal
pub mod Report
pub mod Edges
pub mod Verdict
pub mod Clean
mod Tests
use ironstate.Prelude.{
  ℕ, zero, suc, ◌+◌, Bool, true, false, List, [], ◌∷◌, ◌++◌, Option, none, some, if◌then◌else◌,
  get_elem?, ltb,
}

-- `vec![value; n]`
abbrev pub filled : {A : Type 0} → A → ℕ → List A
filled value zero = []
filled value (suc n) = value ∷ filled value n

-- `seen[j] = true`
abbrev pub set : List Bool → ℕ → List Bool
set [] j = []
set (x ∷ xs) zero = true ∷ xs
set (x ∷ xs) (suc j) = x ∷ set xs j

-- `for &j in &edges[i]`; the top of the stack is the head of the list.
unfoldable pub mark_outs : List ℕ → List Bool → List ℕ → Option (List Bool × List ℕ)
mark_outs [] seen stack = some (seen, stack)
mark_outs (j ∷ outs) seen stack = elim (get_elem? seen j) [
  | none ↦ none
  | some true ↦ mark_outs outs seen stack
  | some false ↦ mark_outs outs (set seen j) (j ∷ stack)
]

-- `while let Some(i) = stack.pop()`
unfoldable pub search : ℕ → List (List ℕ) → List Bool → List ℕ → Option (List Bool)
search fuel edges seen [] = some seen
search zero edges seen (i ∷ stack) = none
search (suc fuel) edges seen (i ∷ stack) = elim (get_elem? edges i) [
  | none ↦ none
  | some outs ↦ elim (mark_outs outs seen stack) [
    | none ↦ none
    | some (seen', stack') ↦ search fuel edges seen' stack'
  ]
]

unfoldable pub reachable_from : ℕ → List (List ℕ) → ℕ → Option (List Bool)
reachable_from start edges zero = some []
reachable_from start edges (suc n) =
    if ltb start (suc n)
    then search (suc n) edges (set (filled false (suc n)) start) (start ∷ [])
    else none

-- `rev[j].push(i)`
unfoldable pub push_at : List (List ℕ) → ℕ → ℕ → Option (List (List ℕ))
push_at [] j i = none
push_at (x ∷ rev) zero i = some ((x ++ (i ∷ [])) ∷ rev)
push_at (x ∷ rev) (suc j) i = elim (push_at rev j i) [ none ↦ none | some rest ↦ some (x ∷ rest) ]

-- `for &j in outs`
unfoldable pub push_outs : ℕ → List ℕ → List (List ℕ) → Option (List (List ℕ))
push_outs i [] rev = some rev
push_outs i (j ∷ outs) rev = elim (push_at rev j i) [
  | none ↦ none
  | some rev' ↦ push_outs i outs rev'
]

-- `for (i, outs) in edges.iter().enumerate()`, from `i`
unfoldable pub push_edges : ℕ → List (List ℕ) → List (List ℕ) → Option (List (List ℕ))
push_edges i [] rev = some rev
push_edges i (outs ∷ edges) rev = elim (push_outs i outs rev) [
  | none ↦ none
  | some rev' ↦ push_edges (i + 1) edges rev'
]

-- The loop over `0..n` that marks and stacks the terminal states, from `i`.
unfoldable pub mark_terminals : ℕ → List Bool → List Bool → List ℕ → List Bool × List ℕ
mark_terminals i [] can stack = (can, stack)
mark_terminals i (true ∷ terminal) can stack =
    mark_terminals (i + 1) terminal (set can i) (i ∷ stack)
mark_terminals i (false ∷ terminal) can stack = mark_terminals (i + 1) terminal can stack

-- The table of terminal states has one entry for each state.
unfoldable pub reaches_terminal : List (List ℕ) → List Bool → ℕ → Option (List Bool)
reaches_terminal edges terminal n = elim (push_edges 0 edges (filled [] n)) [
  | none ↦ none
  | some rev ↦
      let (can, stack) = mark_terminals 0 terminal (filled false n) [] in search n rev can stack
]
