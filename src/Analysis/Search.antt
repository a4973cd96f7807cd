-- ===== src/Analysis/Search.antt =====
-- The search with enough fuel ends, and marks exactly what can be reached.
use mathlib.Core.List.{Memᴰ}
use mathlib.Core.List.Memᴰ
use mathlib.Core.Option.{some-injective}
use ironstate.Prelude.{
  ℕ, zero, suc, ◌+◌, ◌<◌, ◌≤◌, ◌≡◌, refl, sym, ◌∙◌, ap, subst, ◌↔◌, ◌⊎◌, inl, inr, Bool, true, List,
  [], ◌∷◌, some, arith, length, get_elem?,
}
use ironstate.Analysis.{search}
use ironstate.Analysis.Marking.{
  IsSeen, unseen, get_elem?-total, get_elem?-lt, Marked, mark_outs-Marked,
}

-- What the edges reach from a set of starts.
pub data Reach (edges : List (List ℕ)) (Start : ℕ → Type 0) : ℕ → Type 0 where
  here : {i : ℕ} → Start i → Reach edges Start i
  along :
      {i j : ℕ} {outs : List ℕ}
      → Reach edges Start i
      → get_elem? edges i ≡ some outs
      → Memᴰ j outs
      → Reach edges Start j

-- Every edge leads to a state.
abbrev pub AreInRange : List (List ℕ) → Type 0
AreInRange edges =
    (i j : ℕ) (outs : List ℕ) → get_elem? edges i ≡ some outs → Memᴰ j outs → j < length edges

module _ (edges : List (List ℕ)) (Start : ℕ → Type 0) where
  -- All targets of a state are seen.
  abbrev pub IsDone : List Bool → ℕ → Type 0
  IsDone seen i =
      (outs : List ℕ) → get_elem? edges i ≡ some outs → (j : ℕ) → Memᴰ j outs → IsSeen seen j

  -- In the middle of a search: what is seen is reached, and its targets are seen or it is stacked.
  pub record Progress (seen : List Bool) (stack : List ℕ) : Type 0 where
    pub size : length seen ≡ length edges
    pub starts : (i : ℕ) → Start i → IsSeen seen i
    pub sound : (i : ℕ) → IsSeen seen i → Reach edges Start i
    pub stacked : (i : ℕ) → Memᴰ i stack → IsSeen seen i
    pub pending : (i : ℕ) → IsSeen seen i → Memᴰ i stack ⊎ IsDone seen i

  module _ (range : AreInRange edges) where
    advance :
        (i : ℕ) (seen : List Bool) (stack outs : List ℕ)
        → get_elem? edges i ≡ some outs
        → Progress seen (i ∷ stack)
        → (m : Marked outs seen stack) → Progress m.seen' m.stack'
    advance i seen stack outs found p m = record {
      size = m.size ∙ p.size;
      starts = λ k h. m.still_seen k (p.starts k h);
      sound = λ k h. elim (m.seen_before k h) [
        | inl old ↦ p.sound k old
        | inr (on_stack, target) ↦
            Reach.along (p.sound i (p.stacked i (Memᴰ.head refl))) found target
      ];
      stacked = λ k h. elim (m.stacked_before k h) [
        | inl old ↦ m.still_seen k (p.stacked k (Memᴰ.tail old))
        | inr seen_now ↦ seen_now
      ];
      pending = λ k h. elim (m.seen_before k h) [
        | inl old ↦ elim (p.pending k old) [
          | inl on_stack ↦ elim (Memᴰ.cases_cons on_stack) [
            | inl same ↦ inr (λ outs' found' j target.
                let same_outs : some outs' ≡ some outs =
                  sym found' ∙ ap (get_elem? edges) same ∙ found in
                m.outs_seen j (subst (Memᴰ j) (some-injective outs' outs same_outs) target))
            | inr below ↦ inl (m.still_stacked k below)
          ]
          | inr done ↦ inr (λ outs' found' j target. m.still_seen j (done outs' found' j target))
        ]
        | inr (on_stack, target) ↦ inl on_stack
      ];
    }

    search-Progress :
        (fuel : ℕ) (seen : List Bool) (stack : List ℕ)
        → Progress seen stack
        → unseen seen + length stack ≤ fuel
        → (seen' : List Bool) × (search fuel edges seen stack ≡ some seen') × Progress seen' []
    unfolding search
    search-Progress fuel seen [] p enough = (seen, refl, p)
    search-Progress zero seen (i ∷ stack) p enough = absurd (omega arith)
    search-Progress (suc fuel) seen (i ∷ stack) p enough =
        let in_range : i < length edges =
          subst (λ n. i < n) p.size (get_elem?-lt seen i true (p.stacked i (Memᴰ.head refl))) in
        let (outs, found) = get_elem?-total edges i in_range in
        let m =
          mark_outs-Marked outs seen stack
            (λ j target. subst (λ n. j < n) (sym p.size) (range i j outs found target)) in
        let (seen', result, done) =
          search-Progress fuel m.seen' m.stack' (advance i seen stack outs found p m)
            (omega (arith, m.balance)) in
        (seen', rw (found, search) (rw (m.result, search) result), done)

    complete : (seen : List Bool) → Progress seen [] → (i : ℕ) → Reach edges Start i → IsSeen seen i
    complete seen p i (Reach.here h) = p.starts i h
    complete seen p j (Reach.along {i} {outs = outs} r found target) =
        elim (p.pending i (complete seen p i r)) [
          | inl on_stack ↦ elim on_stack [ ]
          | inr done ↦ done outs found j target
        ]

    -- With fuel for all that is unseen or stacked, a search that starts with the starts marked and
    -- stacked ends, and has marked exactly what the edges reach.
    pub search-Reach :
        (fuel : ℕ) (seen : List Bool) (stack : List ℕ)
        → length seen ≡ length edges
        → ((i : ℕ) → Start i ↔ IsSeen seen i)
        → ((i : ℕ) → IsSeen seen i ↔ Memᴰ i stack)
        → unseen seen + length stack ≤ fuel
        → (seen' : List Bool) × (search fuel edges seen stack ≡ some seen')
          × (length seen' ≡ length edges)
          × ((i : ℕ) → IsSeen seen' i ↔ Reach edges Start i)
    search-Reach fuel seen stack size starts stacked enough =
        let (seen', result, p) =
          search-Progress fuel seen stack
            (record {
              size = size;
              starts = λ i h. (starts i).0 h;
              sound = λ i h. Reach.here ((starts i).1 h);
              stacked = λ i h. (stacked i).1 h;
              pending = λ i h. inl ((stacked i).0 h);
            })
            enough in
        (seen', result, p.size, λ i. (p.sound i, complete seen' p i))
