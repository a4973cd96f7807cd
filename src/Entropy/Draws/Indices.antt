-- ===== src/Entropy/Draws/Indices.antt =====
-- Shuffling a slice and shuffling its indices are one algorithm.
use ironstate.Prelude.{
  ℕ, zero, suc, ◌+◌, ◌-◌, ◌≡◌, refl, sym, ◌∙◌, ap, inl, inr, List, [], ◌∷◌, Option, none, some, map,
  arith, length, get_elem?, Option-cases,
}
use ironstate.Entropy.{EntropySource}
use ironstate.Entropy.Draws.{
  set_at, swapped, swap, draw_range, shuffle_loop, shuffle, shuffle_len, upto,
}

-- Every element of what a loop gave, replaced.
abbrev pub mapped {ℓ} :
    {A B : Type 0} {S : Type ℓ} → (A → B) → Option (List A × S) → Option (List B × S)
mapped f none = none
mapped f (some (xs, s)) = some (map f xs, s)

module _ {A B : Type 0} (f : A → B) where
  replaced : Option A → Option B
  replaced none = none
  replaced (some x) = some (f x)

  replaced_list : Option (List A) → Option (List B)
  replaced_list none = none
  replaced_list (some xs) = some (map f xs)

  get_elem?-map : (xs : List A) (i : ℕ) → get_elem? (map f xs) i ≡ replaced (get_elem? xs i)
  unfolding replaced
  get_elem?-map [] i = refl
  get_elem?-map (x ∷ xs) zero = refl
  get_elem?-map (x ∷ xs) (suc i) = get_elem?-map xs i

  set_at-map : (xs : List A) (i : ℕ) (y : A) → set_at (map f xs) i (f y) ≡ map f (set_at xs i y)
  set_at-map [] i y = refl
  set_at-map (x ∷ xs) zero y = refl
  set_at-map (x ∷ xs) (suc i) y = ap (λ l. f x ∷ l) (set_at-map xs i y)

  swapped-map :
      (xs : List A) (i j : ℕ) (a b : Option A)
      → swapped (map f xs) i j (replaced a) (replaced b) ≡ replaced_list (swapped xs i j a b)
  unfolding swapped replaced replaced_list
  swapped-map xs i j none b = refl
  swapped-map xs i j (some a) none = refl
  swapped-map xs i j (some a) (some b) =
      rw (set_at-map xs i b) (ap some (set_at-map (set_at xs i b) j a))

  swap-map : (xs : List A) (i j : ℕ) → swap (map f xs) i j ≡ replaced_list (swap xs i j)
  unfolding swap
  swap-map xs i j =
      rw (get_elem?-map xs i, get_elem?-map xs j)
        (swapped-map xs i j (get_elem? xs i) (get_elem? xs j))

  shuffle_loop-map :
      {Source : Type 0} (e : EntropySource Source) (fuel i : ℕ) (xs : List A) (s : Source)
      → shuffle_loop e fuel i (map f xs) s ≡ mapped f (shuffle_loop e fuel i xs s)
  unfolding shuffle_loop replaced_list
  shuffle_loop-map e fuel zero xs s = refl
  shuffle_loop-map e fuel (suc i) xs s = elim (Option-cases (draw_range e fuel 0 (suc i + 1) s)) [
    | inl rejected ↦ rw (rejected, shuffle_loop) refl
    | inr (drawn, eq) ↦ elim (Option-cases (swap xs (suc i) (drawn.0))) [
      | inl out ↦
          rw (eq, shuffle_loop)
            (rw (swap-map xs (suc i) drawn.0, shuffle_loop) (rw (out, shuffle_loop) refl))
      | inr (ys, exchanged) ↦
          rw (eq, shuffle_loop)
            (rw (swap-map xs (suc i) drawn.0, shuffle_loop)
              (rw (exchanged, shuffle_loop) (shuffle_loop-map e fuel i ys drawn.1)))
    ]
  ]

upto-suc : (i n : ℕ) → upto (i + 1) n ≡ map suc (upto i n)
unfolding upto
upto-suc i zero = refl
upto-suc i (suc n) = rw (upto-suc (i + 1) n) (ap (λ k. k ∷ map suc (upto (i + 1) n)) (omega arith))

get_elem?-shifted :
    {A : Type 0} (x : A) (xs : List A) (is : List ℕ)
    → map (get_elem? (x ∷ xs)) (map suc is) ≡ map (get_elem? xs) is
get_elem?-shifted x xs [] = refl
get_elem?-shifted x xs (i ∷ is) = ap (λ l. get_elem? xs i ∷ l) (get_elem?-shifted x xs is)

-- A list is what is found at its indices.
get_elem?-upto : {A : Type 0} (xs : List A) → map (get_elem? xs) (upto 0 (length xs)) ≡ map some xs
unfolding upto
get_elem?-upto [] = refl
get_elem?-upto (x ∷ xs) =
    ap (λ l. some x ∷ l)
      (ap (map (get_elem? (x ∷ xs))) (upto-suc 0 (length xs))
        ∙ get_elem?-shifted x xs (upto 0 (length xs))
        ∙ get_elem?-upto xs)

-- From the same source, shuffling a slice gives its elements in the order of the indices that
-- `shuffle_len` gives for its length, and both leave the same source; when one does not return,
-- neither does the other.
pub shuffle-shuffle_len :
    {Source A : Type 0} (e : EntropySource Source) (fuel : ℕ) (xs : List A) (s : Source)
    → mapped some (shuffle e fuel xs s) ≡ mapped (get_elem? xs) (shuffle_len e fuel (length xs) s)
unfolding shuffle shuffle_len
shuffle-shuffle_len e fuel xs s =
    let n = length xs in
    sym (shuffle_loop-map some e fuel (n - 1) xs s)
    ∙ sym (ap (λ l. shuffle_loop e fuel (n - 1) l s) (get_elem?-upto xs))
    ∙ shuffle_loop-map (get_elem? xs) e fuel (n - 1) (upto 0 n) s
