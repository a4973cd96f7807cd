-- ===== src/StableHash/Words.antt =====
-- Little-endian words: as many bytes as the width, and the number is read back from them.
use native.Mathlib.Nat.{pow-suc}
use ironstate.Prelude.{
  ℕ, zero, suc, ◌+◌, ◌-◌, ◌*◌, ◌/◌, ◌^◌, ◌<◌, ◌≡◌, refl, List, [], ◌∷◌, ◌++◌, Option, none, some,
  arith, length, ltb, if◌then◌else◌, ap,
}
use ironstate.StableHash.{to_le_bytes, ℤ, pos, negsuc, pattern_of}

-- The number of which these are the bytes.
abbrev pub from_le_bytes : List ℕ → ℕ
from_le_bytes [] = 0
from_le_bytes (b ∷ bytes) = b + 256 * from_le_bytes bytes

-- The first `n` bytes, and the rest.
unfoldable pub read_bytes : ℕ → List ℕ → Option (List ℕ × List ℕ)
read_bytes zero bytes = some ([], bytes)
read_bytes (suc n) [] = none
read_bytes (suc n) (b ∷ bytes) = elim (read_bytes n bytes) [
  | none ↦ none
  | some (front, rest) ↦ some (b ∷ front, rest)
]

-- The integer of a bit pattern.
abbrev pub signed : ℕ → ℕ → ℤ
signed w n = if ltb (2 * n) (256 ^ w) then pos n else negsuc (256 ^ w - 1 - n)

-- What `w` bytes hold.
abbrev pub IsWord : ℕ → ℕ → Type 0
IsWord w n = n < 256 ^ w

abbrev pub IsSigned : ℕ → ℤ → Type 0
IsSigned w (pos n) = 2 * n < 256 ^ w
IsSigned w (negsuc n) = 2 * n + 1 < 256 ^ w

pub length-to_le_bytes : (w n : ℕ) → length (to_le_bytes w n) ≡ w
unfolding to_le_bytes
length-to_le_bytes zero n = refl
length-to_le_bytes (suc w) n = ap suc (length-to_le_bytes w (n / 256))

pub from_le_bytes-to_le_bytes : (w n : ℕ) → IsWord w n → from_le_bytes (to_le_bytes w n) ≡ n
unfolding to_le_bytes
from_le_bytes-to_le_bytes zero n h = omega arith
from_le_bytes-to_le_bytes (suc w) n h =
    let rest = from_le_bytes-to_le_bytes w (n / 256) (omega (arith, pow-suc 256 w)) in
    omega (arith, rest)

pub read_bytes-append :
    (front rest : List ℕ) → read_bytes (length front) (front ++ rest) ≡ some (front, rest)
unfolding read_bytes
read_bytes-append [] rest = refl
read_bytes-append (b ∷ front) rest = rw (read_bytes-append front rest, read_bytes) refl

pub read_bytes-to_le_bytes :
    (w n : ℕ) (rest : List ℕ)
    → read_bytes w (to_le_bytes w n ++ rest) ≡ some (to_le_bytes w n, rest)
read_bytes-to_le_bytes w n rest =
    rw (ap (λ k. read_bytes k (to_le_bytes w n ++ rest)) (length-to_le_bytes w n)) at
      (read_bytes-append (to_le_bytes w n) rest)

pub signed-pattern_of : (w : ℕ) (z : ℤ) → IsSigned w z → signed w (pattern_of w z) ≡ z
signed-pattern_of w (pos n) h = ground arith
signed-pattern_of w (negsuc n) h = ground arith

pub pattern_of-IsWord : (w : ℕ) (z : ℤ) → IsSigned w z → IsWord w (pattern_of w z)
pattern_of-IsWord w (pos n) h = omega arith
pattern_of-IsWord w (negsuc n) h = omega arith
