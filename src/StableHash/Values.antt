-- ===== src/StableHash/Values.antt =====
-- The encodings of numbers, truth values and texts read back.
use ironstate.Prelude.{
  ℕ, ◌<◌, ◌^◌, ◌≡◌, ◌==◌, refl, sym, Bool, true, false, List, [], ◌∷◌, ◌++◌, none, some, length,
  append_assoc, append-nil,
}
use ironstate.StableHash.{to_le_bytes, uint, sint, bool, char, str, unit, ℤ, pattern_of}
use ironstate.StableHash.Words.{
  IsWord, IsSigned, from_le_bytes, read_bytes, signed, from_le_bytes-to_le_bytes,
  read_bytes-to_le_bytes, read_bytes-append, signed-pattern_of, pattern_of-IsWord,
}
use ironstate.StableHash.ReadBack.{Reader, IsReadBack}

unfoldable pub read_uint : ℕ → Reader ℕ
read_uint w bytes = elim (read_bytes w bytes) [
  | none ↦ none
  | some (front, rest) ↦ some (from_le_bytes front, rest)
]

unfoldable pub read_sint : ℕ → Reader ℤ
read_sint w bytes = elim (read_uint w bytes) [
  | none ↦ none
  | some (n, rest) ↦ some (signed w n, rest)
]

unfoldable pub read_bool : Reader Bool
read_bool [] = none
read_bool (b ∷ rest) = some (b == 1, rest)

-- A length, and that many bytes.
unfoldable pub read_str : Reader (List ℕ)
read_str bytes = elim (read_uint 8 bytes) [ none ↦ none | some (n, rest) ↦ read_bytes n rest ]

abbrev pub IsShort : {A : Type 0} → List A → Type 0
IsShort xs = length xs < 256 ^ 8

pub read_uint-to_le_bytes :
    (w n : ℕ) (rest : List ℕ) → IsWord w n → read_uint w (to_le_bytes w n ++ rest) ≡ some (n, rest)
unfolding read_uint
read_uint-to_le_bytes w n rest h =
    rw (read_bytes-to_le_bytes w n rest, read_uint) (rw (from_le_bytes-to_le_bytes w n h) refl)

pub uint-IsReadBack : (w : ℕ) → IsReadBack (uint w) (read_uint w) (IsWord w)
uint-IsReadBack w n h = (to_le_bytes w n, λ enc. refl, λ rest. read_uint-to_le_bytes w n rest h)

pub sint-IsReadBack : (w : ℕ) → IsReadBack (sint w) (read_sint w) (IsSigned w)
unfolding read_sint
sint-IsReadBack w z h = (
  to_le_bytes w (pattern_of w z),
  λ enc. refl,
  λ rest.
      rw (read_uint-to_le_bytes w (pattern_of w z) rest (pattern_of-IsWord w z h), read_sint)
        (rw (signed-pattern_of w z h) refl),
)

pub bool-IsReadBack : IsReadBack bool read_bool (λ b. Unit)
unfolding read_bool
bool-IsReadBack true h = (1 ∷ [], λ enc. refl, λ rest. refl)
bool-IsReadBack false h = (0 ∷ [], λ enc. refl, λ rest. refl)

pub char-IsReadBack : IsReadBack char (read_uint 4) (IsWord 4)
char-IsReadBack c h = (to_le_bytes 4 c, λ enc. refl, λ rest. read_uint-to_le_bytes 4 c rest h)

pub unit-IsReadBack : IsReadBack unit (λ bytes. some (tt, bytes)) (λ x. Unit)
unit-IsReadBack x h = ([], λ enc. sym (append-nil enc.buf), λ rest. refl)

pub str-IsReadBack : IsReadBack str read_str IsShort
unfolding read_str
str-IsReadBack s h = (
  to_le_bytes 8 (length s) ++ s,
  λ enc. append_assoc enc.buf (to_le_bytes 8 (length s)) s,
  λ rest.
      rw (append_assoc (to_le_bytes 8 (length s)) s rest) (
        rw (read_uint-to_le_bytes 8 (length s) (s ++ rest) h, read_str) (read_bytes-append s rest)),
)
