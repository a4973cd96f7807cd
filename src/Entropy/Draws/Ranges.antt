-- ===== src/Entropy/Draws/Ranges.antt =====
-- What a draw from a range gives.
use ironstate.Prelude.{
  ℕ, zero, suc, ◌+◌, ◌-◌, ◌/◌, ◌^◌, ◌<◌, ◌≤◌, ◌≡◌, refl, inl, inr, true, false, some, arith,
  Bool-cases, ltb, leb, ◌==◌,
}
use native.Mathlib.Nat.{pow-suc, mod-eq_of_lt}
use ironstate.Entropy.{EntropySource}
use ironstate.Entropy.Draws.{bit_length, masked, sample, draw_range}

module _ {Source : Type 0} (e : EntropySource Source) where
  sample-bounds :
      (fuel start span bits : ℕ) (s s' : Source) (x : ℕ)
      → sample e fuel start span bits s ≡ some (x, s')
      → (start ≤ x) × (x < start + span)
  unfolding sample
  sample-bounds zero start span bits s s' x h = absurd (cc)
  sample-bounds (suc fuel) start span bits s s' x h =
      ground (arith, sample-bounds fuel start span bits (e.draw_u64 s).1 s' x)

  -- A draw that ends is in its range.
  pub draw_range-bounds :
      (fuel start end : ℕ) (s s' : Source) (x : ℕ)
      → draw_range e fuel start end s ≡ some (x, s')
      → (start ≤ x) × (x < end)
  unfolding draw_range
  draw_range-bounds fuel start end s s' x h =
      ground
        (arith, sample-bounds fuel start (end - start) (bit_length 64 (end - start - 1)) s s' x)

pub bit_length-covers : (fuel n : ℕ) → n < 2 ^ fuel → n < 2 ^ bit_length fuel n
bit_length-covers zero n h = h
bit_length-covers (suc fuel) n h =
    let half = bit_length-covers fuel (n / 2) (omega (arith, pow-suc 2 fuel)) in
    elim (Bool-cases (n == 0)) [
      | inl none_left ↦ rw (none_left) (ground (arith))
      | inr more ↦ rw (more) (omega (arith, half, pow-suc 2 (bit_length fuel (n / 2))))
    ]

module _ {Source : Type 0} (e : EntropySource Source) where
  -- A value below the span is under the mask.
  masked-small : (span x : ℕ) → x < span → span ≤ 2 ^ 64 → masked (bit_length 64 (span - 1)) x ≡ x
  masked-small span x below word =
      let covers = bit_length-covers 64 (span - 1) (omega arith) in
      elim (Bool-cases (leb 64 (bit_length 64 (span - 1)))) [
        | inl wide ↦ rw (wide) (mod-eq_of_lt (omega arith))
        | inr narrow ↦ rw (narrow) (mod-eq_of_lt (omega (arith, covers)))
      ]

  -- No value of the range is left out: the word that is its distance from the start is accepted, and
  -- gives it.
  pub draw_range-onto :
      (fuel start end x : ℕ) (s s' : Source)
      → start ≤ x
      → x < end
      → end ≤ 2 ^ 64
      → e.draw_u64 s ≡ (x - start, s')
      → draw_range e (suc fuel) start end s ≡ some (x, s')
  unfolding draw_range sample
  draw_range-onto fuel start end x s s' above below word drawn =
      let span = end - start in
      let filled : leb end start ≡ false = ground arith in
      let kept : masked (bit_length 64 (span - 1)) (x - start) ≡ x - start =
        masked-small span (x - start) (omega arith) (omega arith) in
      let accepted : ltb (x - start) span ≡ true = ground arith in
      let sum : start + (x - start) ≡ x = omega arith in
      rw (filled) (rw (drawn, sample) (rw (kept) (rw (accepted) (rw (sum) refl))))
