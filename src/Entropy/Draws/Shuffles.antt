-- ===== src/Entropy/Draws/Shuffles.antt =====
-- A shuffle permutes.
use mathlib.Core.List.{Perm}
use mathlib.Core.List.Perm
use mathlib.Core.Option.{some-injective}
use mathlib.Core.List.{Permᴰ, perm-cons}
use ironstate.Prelude.{
  ℕ, zero, suc, ◌+◌, ◌-◌, ◌^◌, ◌<◌, ◌≤◌, ◌≡◌, refl, ◌∙◌, ap, ◌⊎◌, inl, inr, List, [], ◌∷◌, some,
  arith, length, get_elem?,
}
use ironstate.Entropy.{EntropySource}
use ironstate.Entropy.Draws.Ranges.{draw_range-bounds}
use ironstate.Entropy.Draws.{set_at, swap, draw_range, shuffle_loop, shuffle}

module _ {A : Type 0} where
  -- Writing exchanges the element written for the one that was there.
  set_at-Permᴰ :
      (xs : List A) (i : ℕ) (a b : A) → get_elem? xs i ≡ some a → Permᴰ (b ∷ xs) (a ∷ set_at xs i b)
  set_at-Permᴰ [] i a b h = absurd (cc)
  set_at-Permᴰ (x ∷ xs) zero a b h = Permᴰ.swap refl (some-injective x a h)
  set_at-Permᴰ (x ∷ xs) (suc i) a b h =
      Permᴰ.trans (Permᴰ.swap refl refl)
        (Permᴰ.trans (Permᴰ.cons refl (set_at-Permᴰ xs i a b h)) (Permᴰ.swap refl refl))

  length-set_at : (xs : List A) (i : ℕ) (b : A) → length (set_at xs i b) ≡ length xs
  length-set_at [] i b = refl
  length-set_at (x ∷ xs) zero b = refl
  length-set_at (x ∷ xs) (suc i) b = ap suc (length-set_at xs i b)

  -- What is found at a place is still there when it is also written elsewhere.
  get_elem?-set_at :
      (xs : List A) (i j : ℕ) (b : A)
      → get_elem? xs j ≡ some b
      → get_elem? (set_at xs i b) j ≡ some b
  get_elem?-set_at [] i j b h = h
  get_elem?-set_at (x ∷ xs) zero zero b h = refl
  get_elem?-set_at (x ∷ xs) zero (suc j) b h = h
  get_elem?-set_at (x ∷ xs) (suc i) zero b h = h
  get_elem?-set_at (x ∷ xs) (suc i) (suc j) b h = get_elem?-set_at xs i j b h

  get_elem?-total : (xs : List A) (i : ℕ) → i < length xs → (x : A) × (get_elem? xs i ≡ some x)
  get_elem?-total [] i h = absurd (omega arith)
  get_elem?-total (x ∷ xs) zero h = (x, refl)
  get_elem?-total (x ∷ xs) (suc i) h = get_elem?-total xs i (omega arith)

  -- A swap within the slice permutes it.
  swap-Perm :
      (xs : List A) (i j : ℕ)
      → i < length xs
      → j < length xs
      → (ys : List A) × (swap xs i j ≡ some ys) × Perm ys xs × (length ys ≡ length xs)
  unfolding swap
  swap-Perm xs i j hi hj =
      let (a, at_i) = get_elem?-total xs i hi in
      let (b, at_j) = get_elem?-total xs j hj in
      let ys = set_at xs i b in
      let once = set_at-Permᴰ xs i a b at_i in
      let twice = set_at-Permᴰ ys j b a (get_elem?-set_at xs i j b at_j) in
      let both : Perm (b ∷ xs) (b ∷ set_at ys j a) = ∣ Permᴰ.trans once twice ∣₁ in
      (
        set_at ys j a,
        rw (at_i, swap) (rw (at_j, swap) refl),
        Perm.symm ((perm-cons b).0 both),
        length-set_at ys j a ∙ length-set_at xs i b,
      )

last_index : (n : ℕ) → (n - 1 ≡ 0) ⊎ (n - 1 < n)
last_index zero = inl (omega arith)
last_index (suc n) = inr (omega arith)

module _ {Source : Type 0} (e : EntropySource Source) where
  -- Within the fuel every range of words that is not empty has a draw that is accepted.
  abbrev pub IsGenerous : ℕ → Type 0
  IsGenerous fuel =
      (s : Source) (span : ℕ)
      → 0 < span
      → span ≤ 2 ^ 64
      → (x : ℕ) × (s' : Source) × (draw_range e fuel 0 span s ≡ some (x, s'))

module _ {Source A : Type 0} (e : EntropySource Source) where
  shuffle_loop-Perm :
      (fuel i : ℕ) (xs : List A) (s : Source)
      → IsGenerous e fuel
      → (i ≡ 0) ⊎ (i < length xs)
      → length xs ≤ 2 ^ 64
      → (ys : List A) × (s' : Source) × (shuffle_loop e fuel i xs s ≡ some (ys, s')) × Perm ys xs
  unfolding shuffle_loop
  shuffle_loop-Perm fuel zero xs s generous below short = (xs, s, refl, Perm.refl xs)
  shuffle_loop-Perm fuel (suc i) xs s generous below short =
      let inside : suc i < length xs = omega (arith, below) in
      let (j, mid, drawn) = generous s (suc i + 1) (omega arith) (omega arith) in
      let (zs, exchanged, perm, size) =
        swap-Perm xs (suc i) j inside
          (omega (arith, draw_range-bounds e fuel 0 (suc i + 1) s mid j drawn)) in
      let (ys, s', result, rest) =
        shuffle_loop-Perm fuel i zs mid generous (inr (omega (arith, size)))
          (omega (arith, size)) in
      (
        ys,
        s',
        rw (drawn, shuffle_loop) (rw (exchanged, shuffle_loop) result),
        Perm.trans {l₁ = ys} {l₂ = zs} rest perm,
      )

  -- When within the fuel every range of words that is not empty has a draw that is accepted, a
  -- shuffle of at most 2^64 elements ends without a panic and gives a permutation of the slice.
  pub shuffle-Perm :
      (fuel : ℕ) (xs : List A) (s : Source)
      → IsGenerous e fuel
      → length xs ≤ 2 ^ 64
      → (ys : List A) × (s' : Source) × (shuffle e fuel xs s ≡ some (ys, s')) × Perm ys xs
  unfolding shuffle
  shuffle-Perm fuel xs s generous short =
      shuffle_loop-Perm fuel (length xs - 1) xs s generous (last_index (length xs)) short
