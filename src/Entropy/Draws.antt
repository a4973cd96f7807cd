-- ===== src/Entropy/Draws.antt =====
-- The draws that every source shares (app/crates/ironstate-aggregate/src/entropy.rs). A panic is
-- `none`, and so is a draw that is not accepted within the fuel.
pub mod Ranges
pub mod Shuffles
pub mod Indices
mod Tests
use ironstate.Prelude.{
  ℕ, zero, suc, ◌+◌, ◌-◌, ◌/◌, ◌%◌, ◌^◌, Bool, true, false, not, List, [], ◌∷◌, Option, none, some,
  if◌then◌else◌, get_elem?, ltb, leb, length, ◌==◌,
}
use ironstate.Entropy.{EntropySource}

-- `u64::BITS - n.leading_zeros()`, for a word of as many bits as there is fuel.
abbrev pub bit_length : ℕ → ℕ → ℕ
bit_length zero n = 0
bit_length (suc fuel) n = let rest = bit_length fuel (n / 2) in if n == 0 then 0 else suc rest

-- `word & mask`; a mask of `bits` ones keeps the remainder.
abbrev pub masked : ℕ → ℕ → ℕ
masked bits word = if leb 64 bits then word % 2 ^ 64 else word % 2 ^ bits

-- `xs[i] = x`
abbrev pub set_at : {A : Type 0} → List A → ℕ → A → List A
set_at [] i y = []
set_at (x ∷ xs) zero y = y ∷ xs
set_at (x ∷ xs) (suc i) y = x ∷ set_at xs i y

swapped : {A : Type 0} → List A → ℕ → ℕ → Option A → Option A → Option (List A)
swapped xs i j none b = none
swapped xs i j (some a) none = none
swapped xs i j (some a) (some b) = some (set_at (set_at xs i b) j a)

-- `slice.swap(i, j)`
unfoldable pub swap : {A : Type 0} → List A → ℕ → ℕ → Option (List A)
unfolding swapped
swap xs i j = swapped xs i j (get_elem? xs i) (get_elem? xs j)

-- `(0..n).collect()`, from `i`.
upto : ℕ → ℕ → List ℕ
upto i zero = []
upto i (suc n) = i ∷ upto (i + 1) n

module _ {Source : Type 0} (e : EntropySource Source) where
  -- The loop of `draw_range`.
  unfoldable pub sample : ℕ → ℕ → ℕ → ℕ → Source → Option (ℕ × Source)
  sample zero start span bits s = none
  sample (suc fuel) start span bits s =
      let (word, s') = e.draw_u64 s in
      let again = sample fuel start span bits s' in
      let candidate = masked bits word in
      if ltb candidate span then some (start + candidate, s') else again

  unfoldable pub draw_range : ℕ → ℕ → ℕ → Source → Option (ℕ × Source)
  draw_range fuel start end s =
      if leb end start
      then none
      else (let span = end - start in sample fuel start span (bit_length 64 (span - 1)) s)

  unfoldable pub draw_below : ℕ → ℕ → ℕ → Source → Option (Bool × Source)
  draw_below fuel num den s =
      if den == 0
      then none
      else if not (leb num den)
      then none
      else elim (draw_range fuel 0 den s) [ none ↦ none | some (x, s') ↦ some (ltb x num, s') ]

  -- `for i in (1..n).rev()`, from `i` down.
  unfoldable pub shuffle_loop : {A : Type 0} → ℕ → ℕ → List A → Source → Option (List A × Source)
  shuffle_loop fuel zero xs s = some (xs, s)
  shuffle_loop fuel (suc i) xs s = elim (draw_range fuel 0 (suc i + 1) s) [
    | none ↦ none
    | some (j, s') ↦ elim (swap xs (suc i) j) [ none ↦ none | some ys ↦ shuffle_loop fuel i ys s' ]
  ]

  -- `EntropySourceExt::shuffle`
  unfoldable pub shuffle : {A : Type 0} → ℕ → List A → Source → Option (List A × Source)
  shuffle fuel xs s = shuffle_loop fuel (length xs - 1) xs s

  unfoldable pub shuffle_len : ℕ → ℕ → Source → Option (List ℕ × Source)
  unfolding upto
  shuffle_len fuel len s = shuffle_loop fuel (len - 1) (upto 0 len) s
