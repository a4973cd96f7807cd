-- ===== src/Analysis/Stacking.antt =====
-- The loop that marks and stacks the terminal states.
use mathlib.Core.List.{Memᴰ}
use mathlib.Core.List.Memᴰ
use ironstate.Prelude.{
  ℕ, zero, suc, ◌+◌, ◌<◌, ◌≤◌, ◌≡◌, refl, sym, ◌∙◌, subst, ◌↔◌, ◌⊎◌, inl, inr, Bool, true, false,
  List, [], ◌∷◌, some, arith, length, get_elem?,
}
use ironstate.Analysis.{filled, set, mark_terminals}
use ironstate.Analysis.Marking.{
  IsSeen, unseen, set-IsSeen_self, set-IsSeen, IsSeen-set, unseen-set, length-set,
}
use ironstate.Analysis.Reachable.{length-filled, get_elem?-filled, unseen_filled}

get_elem?-set_other :
    (seen : List Bool) (j k : ℕ) → j < k → get_elem? (set seen j) k ≡ get_elem? seen k
get_elem?-set_other [] j k h = refl
get_elem?-set_other (x ∷ xs) zero zero h = absurd (omega arith)
get_elem?-set_other (x ∷ xs) zero (suc k) h = refl
get_elem?-set_other (x ∷ xs) (suc j) zero h = absurd (omega arith)
get_elem?-set_other (x ∷ xs) (suc j) (suc k) h = get_elem?-set_other xs j k (omega arith)

-- From the state `i` on nothing is marked, and what is marked is what is stacked.
pub record Ready (i : ℕ) (can : List Bool) (stack : List ℕ) : Type 0 where
  pub fresh : (k : ℕ) → i ≤ k → k < length can → get_elem? can k ≡ some false
  pub stacked : (k : ℕ) → IsSeen can k ↔ Memᴰ k stack

-- The terminal states from `i` on are marked and stacked.
pub record AllStacked (i : ℕ) (terminal can : List Bool) (stack : List ℕ) : Type 0 where
  pub can' : List Bool
  pub stack' : List ℕ
  pub result : mark_terminals i terminal can stack ≡ (can', stack')
  pub size : length can' ≡ length can
  pub stacked : (k : ℕ) → IsSeen can' k ↔ Memᴰ k stack'
  pub old : (k : ℕ) → IsSeen can k → IsSeen can' k
  pub new : (d : ℕ) → IsSeen terminal d → IsSeen can' (i + d)
  pub only : (k : ℕ) → IsSeen can' k → IsSeen can k ⊎ ((d : ℕ) × (k ≡ i + d) × IsSeen terminal d)
  pub balance : unseen can' + length stack' ≡ unseen can + length stack

next_state :
    (i : ℕ) (can : List Bool) (stack : List ℕ)
    → i < length can
    → Ready i can stack
    → Ready (i + 1) (set can i) (i ∷ stack)
next_state i can stack h r = record {
  fresh = λ k above below.
      get_elem?-set_other can i k (omega arith)
      ∙ r.fresh k (omega arith) (subst (λ n. k < n) (length-set can i) below);
  stacked = λ k. (
    λ seen. elim (IsSeen-set can i k seen) [
      | inl same ↦ Memᴰ.head same
      | inr before ↦ Memᴰ.tail ((r.stacked k).0 before)
    ],
    λ mem. elim (Memᴰ.cases_cons mem) [
      | inl same ↦ subst (IsSeen (set can i)) (sym same) (set-IsSeen_self can i h)
      | inr below ↦ set-IsSeen can i k ((r.stacked k).1 below)
    ],
  );
}

pub mark_terminals-AllStacked :
    (i : ℕ) (terminal can : List Bool) (stack : List ℕ)
    → i + length terminal ≤ length can
    → Ready i can stack
    → AllStacked i terminal can stack
unfolding mark_terminals
mark_terminals-AllStacked i [] can stack h r = record {
  can' = can;
  stack' = stack;
  result = refl;
  size = refl;
  stacked = r.stacked;
  old = λ k seen. seen;
  new = λ d seen. absurd (cc);
  only = λ k seen. inl seen;
  balance = refl;
}
mark_terminals-AllStacked i (false ∷ terminal) can stack h r =
    let t =
      mark_terminals-AllStacked (i + 1) terminal can stack (omega arith)
        (record { fresh = λ k above below. r.fresh k (omega arith) below; stacked = r.stacked }) in
    record {
      can' = t.can';
      stack' = t.stack';
      result = t.result;
      size = t.size;
      stacked = t.stacked;
      old = t.old;
      new = new_states t;
      only = λ k seen. elim (t.only k seen) [
        | inl before ↦ inl before
        | inr (d, at, found) ↦ inr (suc d, omega arith, found)
      ];
      balance = t.balance;
    }
  where
    new_states :
        (t : AllStacked (i + 1) terminal can stack) (d : ℕ)
        → IsSeen (false ∷ terminal) d
        → IsSeen t.can' (i + d)
    new_states t zero seen = absurd (cc)
    new_states t (suc d) seen = subst (IsSeen t.can') (omega arith) (t.new d seen)
mark_terminals-AllStacked i (true ∷ terminal) can stack h r =
    let below : i < length can = omega arith in
    let t =
      mark_terminals-AllStacked (i + 1) terminal (set can i) (i ∷ stack)
        (omega (arith, length-set can i)) (next_state i can stack below r) in
    record {
      can' = t.can';
      stack' = t.stack';
      result = t.result;
      size = t.size ∙ length-set can i;
      stacked = t.stacked;
      old = λ k seen. t.old k (set-IsSeen can i k seen);
      new = new_states t (t.old i (set-IsSeen_self can i below));
      only = λ k seen. elim (t.only k seen) [
        | inl marked ↦ elim (IsSeen-set can i k marked) [
          | inl same ↦ inr (zero, omega arith, refl)
          | inr before ↦ inl before
        ]
        | inr (d, at, found) ↦ inr (suc d, omega arith, found)
      ];
      balance = omega (arith, t.balance, unseen-set can i (r.fresh i (omega arith) below));
    }
  where
    new_states :
        (t : AllStacked (i + 1) terminal (set can i) (i ∷ stack))
        → IsSeen t.can' i
        → (d : ℕ) → IsSeen (true ∷ terminal) d
        → IsSeen t.can' (i + d)
    new_states t here zero seen = subst (IsSeen t.can') (omega arith) here
    new_states t here (suc d) seen = subst (IsSeen t.can') (omega arith) (t.new d seen)

pub first_state : (n : ℕ) → Ready 0 (filled false n) []
first_state n = record {
  fresh = λ k above below. get_elem?-filled n k (subst (λ m. k < m) (length-filled false n) below);
  stacked = λ k. (λ seen. absurd (unseen_filled n k seen), λ mem. elim mem [ ]);
}
