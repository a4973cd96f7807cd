-- ===== src/Analysis/Reversed.antt =====
-- The reversed edges that `reaches_terminal` builds.
use mathlib.Core.List.{Memᴰ}
use mathlib.Core.List.Memᴰ
use mathlib.Core.Option.{some-injective}
use ironstate.Prelude.{
  ℕ, zero, suc, ◌+◌, ◌<◌, ◌≡◌, refl, sym, ◌∙◌, ap, subst, ◌⊎◌, inl, inr, List, [], ◌∷◌, ◌++◌, some,
  arith, length, get_elem?,
}
use ironstate.Analysis.{push_at, push_outs, push_edges}

-- An edge from one state to another.
abbrev pub Edge : List (List ℕ) → ℕ → ℕ → Type 0
Edge [] i j = ⊥
Edge (outs ∷ edges) zero j = Memᴰ j outs
Edge (outs ∷ edges) (suc i) j = Edge edges i j

pub Edge-get_elem? :
    (edges : List (List ℕ)) (i j : ℕ)
    → Edge edges i j
    → (outs : List ℕ) × (get_elem? edges i ≡ some outs) × Memᴰ j outs
Edge-get_elem? [] i j h = absurd h
Edge-get_elem? (outs ∷ edges) zero j h = (outs, refl, h)
Edge-get_elem? (outs ∷ edges) (suc i) j h = Edge-get_elem? edges i j h

pub get_elem?-Edge :
    (edges : List (List ℕ)) (i j : ℕ) (outs : List ℕ)
    → get_elem? edges i ≡ some outs
    → Memᴰ j outs
    → Edge edges i j
get_elem?-Edge [] i j outs h mem = absurd (cc)
get_elem?-Edge (x ∷ edges) zero j outs h mem = subst (Memᴰ j) (sym (some-injective x outs h)) mem
get_elem?-Edge (x ∷ edges) (suc i) j outs h mem = get_elem?-Edge edges i j outs h mem

-- The same states, the edges there were, and the new ones.
pub record Extends (rev rev' : List (List ℕ)) (New : ℕ → ℕ → Type 0) : Type 0 where
  pub size : length rev' ≡ length rev
  pub old : (k a : ℕ) → Edge rev k a → Edge rev' k a
  pub new : (k a : ℕ) → New k a → Edge rev' k a
  pub only : (k a : ℕ) → Edge rev' k a → Edge rev k a ⊎ New k a

push_at-here :
    (outs : List ℕ) (rev : List (List ℕ)) (i : ℕ)
    → Extends (outs ∷ rev) ((outs ++ (i ∷ [])) ∷ rev) (λ k a. (k ≡ zero) × (a ≡ i))
push_at-here outs rev i = record {
  size = refl;
  old = old_edges;
  new = λ k a (at, same).
      subst (λ x. Edge ((outs ++ (i ∷ [])) ∷ rev) x a) (sym at)
        (Memᴰ.append_right outs (Memᴰ.head same));
  only = only_edges;
}
  where
    old_edges : (k a : ℕ) → Edge (outs ∷ rev) k a → Edge ((outs ++ (i ∷ [])) ∷ rev) k a
    old_edges zero a h = Memᴰ.append_left (i ∷ []) h
    old_edges (suc k) a h = h

    only_edges :
        (k a : ℕ)
        → Edge ((outs ++ (i ∷ [])) ∷ rev) k a
        → Edge (outs ∷ rev) k a ⊎ ((k ≡ zero) × (a ≡ i))
    only_edges zero a h = elim (Memᴰ.append_cases outs h) [
      | inl before ↦ inl before
      | inr added ↦ inr (refl, Memᴰ.eq_of_singleton added)
    ]
    only_edges (suc k) a h = inl h

push_at-below :
    (outs : List ℕ) (rev rev' : List (List ℕ)) (j i : ℕ)
    → Extends rev rev' (λ k a. (k ≡ j) × (a ≡ i))
    → Extends (outs ∷ rev) (outs ∷ rev') (λ k a. (k ≡ suc j) × (a ≡ i))
push_at-below outs rev rev' j i e = record {
  size = ap suc e.size;
  old = old_edges;
  new = new_edges;
  only = only_edges;
}
  where
    old_edges : (k a : ℕ) → Edge (outs ∷ rev) k a → Edge (outs ∷ rev') k a
    old_edges zero a h = h
    old_edges (suc k) a h = e.old k a h

    new_edges : (k a : ℕ) → (k ≡ suc j) × (a ≡ i) → Edge (outs ∷ rev') k a
    new_edges zero a (at, same) = absurd (omega arith)
    new_edges (suc k) a (at, same) = e.new k a (omega arith, same)

    only_edges :
        (k a : ℕ) → Edge (outs ∷ rev') k a → Edge (outs ∷ rev) k a ⊎ ((k ≡ suc j) × (a ≡ i))
    only_edges zero a h = inl h
    only_edges (suc k) a h = elim (e.only k a h) [
      | inl before ↦ inl before
      | inr added ↦ inr (ap suc added.0, added.1)
    ]

push_at-Extends :
    (rev : List (List ℕ)) (j i : ℕ)
    → j < length rev
    → (rev' : List (List ℕ)) × (push_at rev j i ≡ some rev')
      × Extends rev rev' (λ k a. (k ≡ j) × (a ≡ i))
unfolding push_at
push_at-Extends [] j i h = absurd (omega arith)
push_at-Extends (outs ∷ rev) zero i h = ((outs ++ (i ∷ [])) ∷ rev, refl, push_at-here outs rev i)
push_at-Extends (outs ∷ rev) (suc j) i h =
    let (rev', result, e) = push_at-Extends rev j i (omega arith) in
    (outs ∷ rev', rw (result, push_at) refl, push_at-below outs rev rev' j i e)

-- Two extensions in a row.
extends_both :
    {rev mid rev' : List (List ℕ)} {First Second : ℕ → ℕ → Type 0} (New : ℕ → ℕ → Type 0)
    → Extends rev mid First
    → Extends mid rev' Second
    → ((k a : ℕ) → New k a → First k a ⊎ Second k a)
    → ((k a : ℕ) → First k a ⊎ Second k a → New k a)
    → Extends rev rev' New
extends_both New e f apart together = record {
  size = f.size ∙ e.size;
  old = λ k a h. f.old k a (e.old k a h);
  new = λ k a h. elim (apart k a h) [
    | inl first ↦ f.old k a (e.new k a first)
    | inr second ↦ f.new k a second
  ];
  only = λ k a h. elim (f.only k a h) [
    | inl middle ↦ elim (e.only k a middle) [
      | inl before ↦ inl before
      | inr first ↦ inr (together k a (inl first))
    ]
    | inr second ↦ inr (together k a (inr second))
  ];
}

push_outs-Extends :
    (i : ℕ) (outs : List ℕ) (rev : List (List ℕ))
    → ((j : ℕ) → Memᴰ j outs → j < length rev)
    → (rev' : List (List ℕ)) × (push_outs i outs rev ≡ some rev')
      × Extends rev rev' (λ k a. Memᴰ k outs × (a ≡ i))
unfolding push_outs
push_outs-Extends i [] rev range = (
  rev,
  refl,
  record {
    size = refl;
    old = λ k a h. h;
    new = λ k a (mem, same). elim mem [ ];
    only = λ k a h. inl h;
  },
)
push_outs-Extends i (j ∷ outs) rev range =
    let (mid, pushed, e) = push_at-Extends rev j i (range j (Memᴰ.head refl)) in
    let (rev', result, f) =
      push_outs-Extends i outs mid
        (λ k mem. subst (λ n. k < n) (sym e.size) (range k (Memᴰ.tail mem))) in
    (
      rev',
      rw (pushed, push_outs) result,
      extends_both (λ k a. Memᴰ k (j ∷ outs) × (a ≡ i)) e f
          (λ k a (mem, same). elim (Memᴰ.cases_cons mem) [
            | inl at ↦ inl (at, same)
            | inr later ↦ inr (later, same)
          ])
          (λ k a either. elim either [
            | inl first ↦ (Memᴰ.head first.0, first.1)
            | inr second ↦ (Memᴰ.tail second.0, second.1)
          ]),
    )

-- The reversed edges of all states, from the state `i` on.
abbrev pub Reversed : ℕ → List (List ℕ) → ℕ → ℕ → Type 0
Reversed i edges k a = (d : ℕ) × (a ≡ i + d) × Edge edges d k

pub push_edges-Extends :
    (i : ℕ) (edges rev : List (List ℕ))
    → ((d j : ℕ) → Edge edges d j → j < length rev)
    → (rev' : List (List ℕ)) × (push_edges i edges rev ≡ some rev')
      × Extends rev rev' (Reversed i edges)
unfolding push_edges
push_edges-Extends i [] rev range = (
  rev,
  refl,
  record { size = refl; old = λ k a h. h; new = λ k a (d, at, h). absurd h; only = λ k a h. inl h },
)
push_edges-Extends i (outs ∷ edges) rev range =
    let (mid, pushed, e) = push_outs-Extends i outs rev (λ j mem. range zero j mem) in
    let (rev', result, f) =
      push_edges-Extends (i + 1) edges mid
        (λ d j h. subst (λ n. j < n) (sym e.size) (range (suc d) j h)) in
    (
      rev',
      rw (pushed, push_edges) result,
      extends_both (Reversed i (outs ∷ edges)) e f apart together,
    )
  where
    apart :
        (k a : ℕ)
        → Reversed i (outs ∷ edges) k a
        → (Memᴰ k outs × (a ≡ i)) ⊎ Reversed (i + 1) edges k a
    apart k a (zero, at, h) = inl (h, omega arith)
    apart k a (suc d, at, h) = inr (d, omega arith, h)

    together :
        (k a : ℕ)
        → (Memᴰ k outs × (a ≡ i)) ⊎ Reversed (i + 1) edges k a
        → Reversed i (outs ∷ edges) k a
    together k a (inl (mem, same)) = (zero, omega arith, mem)
    together k a (inr (d, at, h)) = (suc d, omega arith, h)
