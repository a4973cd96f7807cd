-- ===== src/Entropy/Draws/Tests.antt =====
-- Draws from two sources: one of zeros, and one that counts down.
use mathlib.Core.List.{Perm}
use ironstate.Prelude.{get_elem?, ℕ, ◌+◌, ◌-◌, ◌≡◌, refl, true, List, [], ◌∷◌, some, none, arith}
use ironstate.Entropy.{EntropySource}
use ironstate.Entropy.Draws.{
  shuffle_len, sample, draw_range, draw_below, swap, shuffle_loop, shuffle,
}
use ironstate.Entropy.Draws.Ranges.{draw_range-onto}
use ironstate.Entropy.Draws.Indices.{mapped, shuffle-shuffle_len}
use ironstate.Entropy.Draws.Shuffles.{IsGenerous, shuffle-Perm}

-- The state counts the draws.
abbrev zeros : EntropySource ℕ
zeros = record { draw_u64 = λ s. (0, s + 1); seek = λ p s. p; draws = λ s. s; probe = λ s. s }

abbrev countdown : EntropySource ℕ
countdown = record { draw_u64 = λ s. (s, s - 1); seek = λ p s. p; draws = λ s. s; probe = λ s. s }

-- The word 7 is over the span and is drawn again.
drawn_twice : draw_range countdown 3 10 17 7 ≡ some (16, 5)
unfolding draw_range sample
drawn_twice = refl

empty_range : draw_range countdown 3 10 10 7 ≡ none
unfolding draw_range
empty_range = refl

below : draw_below countdown 1 3 4 2 ≡ some (true, 1)
unfolding draw_below draw_range sample
below = refl

abbrev three : List ℕ
three = 5 ∷ 6 ∷ 7 ∷ []

abbrev rotated_three : List ℕ
rotated_three = 6 ∷ 7 ∷ 5 ∷ []

rotated : shuffle zeros 1 three 0 ≡ some (rotated_three, 2)
unfolding shuffle shuffle_loop draw_range sample swap
rotated = refl

zeros-IsGenerous : IsGenerous zeros 1
zeros-IsGenerous s span more word =
    (0, s + 1, draw_range-onto zeros 0 0 span 0 s (s + 1) (omega arith) more word refl)

shuffle-Perm_example :
    (ys : List ℕ) × (s' : ℕ) × (shuffle zeros 1 three 0 ≡ some (ys, s')) × Perm ys three
shuffle-Perm_example = shuffle-Perm zeros 1 three 0 zeros-IsGenerous (omega arith)

draw_range-onto_example : draw_range countdown 3 10 17 6 ≡ some (16, 5)
draw_range-onto_example =
    draw_range-onto countdown 2 10 17 16 6 5 (omega arith) (omega arith) (omega arith) refl

shuffle-shuffle_len_example :
    mapped some (shuffle zeros 1 three 0) ≡ mapped (get_elem? three) (shuffle_len zeros 1 3 0)
shuffle-shuffle_len_example = shuffle-shuffle_len zeros 1 three 0
