-- ===== src/Analysis/Reachable.antt =====
-- `reachable_from` and `reaches_terminal` against reachability as a relation.
use mathlib.Core.List.{Memᴰ}
use mathlib.Core.List.Memᴰ
use ironstate.Prelude.{
  ℕ, zero, suc, ◌<◌, ◌≡◌, refl, sym, ◌∙◌, ap, subst, ◌↔◌, inl, inr, Bool, true, false, List, [],
  ◌∷◌, some, arith, length, get_elem?, ltb,
}
use ironstate.Analysis.{filled, set, reachable_from}
use ironstate.Analysis.Marking.{IsSeen, unseen, set-IsSeen_self, IsSeen-set, unseen-set, length-set}
use ironstate.Analysis.Search.{Reach, AreInRange, search-Reach}

pub length-filled : {A : Type 0} (value : A) (n : ℕ) → length (filled value n) ≡ n
length-filled value zero = refl
length-filled value (suc n) = ap suc (length-filled value n)

pub unseen-filled : (n : ℕ) → unseen (filled false n) ≡ n
unseen-filled zero = refl
unseen-filled (suc n) = ap suc (unseen-filled n)

pub get_elem?-filled : (n i : ℕ) → i < n → get_elem? (filled false n) i ≡ some false
get_elem?-filled zero i h = absurd (omega arith)
get_elem?-filled (suc n) zero h = refl
get_elem?-filled (suc n) (suc i) h = get_elem?-filled n i (omega arith)

pub unseen_filled : (n i : ℕ) → IsSeen (filled false n) i → ⊥
unseen_filled zero i h = absurd (cc)
unseen_filled (suc n) zero h = absurd (cc)
unseen_filled (suc n) (suc i) h = unseen_filled n i h

-- From a start among the states, over edges that lead to states, the search ends without a panic and
-- marks exactly the states that the edges reach from the start.
pub reachable_from-Reach :
    (start : ℕ) (edges : List (List ℕ))
    → start < length edges
    → AreInRange edges
    → (seen : List Bool) × (reachable_from start edges (length edges) ≡ some seen)
      × (length seen ≡ length edges)
      × ((i : ℕ) → IsSeen seen i ↔ Reach edges (λ k. k ≡ start) i)
unfolding reachable_from
reachable_from-Reach start [] below range = absurd (omega arith)
reachable_from-Reach start (outs ∷ rest) below range =
    let n = length (outs ∷ rest) in
    let none_seen = filled false n in
    let in_range : start < length none_seen =
      subst (λ k. start < k) (sym (length-filled false n)) below in
    let marked : IsSeen (set none_seen start) start = set-IsSeen_self none_seen start in_range in
    let only : (i : ℕ) → IsSeen (set none_seen start) i → i ≡ start = λ i h.
      elim (IsSeen-set none_seen start i h) [
        | inl same ↦ same
        | inr old ↦ absurd (unseen_filled n i old)
      ] in
    let fuel = unseen-set none_seen start (get_elem?-filled n start below) ∙ unseen-filled n in
    let test : ltb start n ≡ true = ground arith in
    let (seen, result, size, exact) =
      search-Reach (outs ∷ rest) (λ k. k ≡ start) range n (set none_seen start) (start ∷ [])
        (length-set none_seen start ∙ length-filled false n)
        (λ i. (λ same. subst (IsSeen (set none_seen start)) (sym same) marked, only i))
        (λ i. (
          λ h. Memᴰ.head (only i h),
          λ h. subst (IsSeen (set none_seen start)) (sym (Memᴰ.eq_of_singleton h)) marked,
        ))
        (omega (arith, fuel)) in
    (seen, rw (test) result, size, exact)
