-- ===== src/StableHash/ReadBack.antt =====
-- What it means that an encoding can be read back.
use ironstate.Prelude.{ℕ, ◌≡◌, List, ◌++◌, Option, some}
use ironstate.StableHash.{StableHash, CanonicalEncoder}

-- A reader takes a value off the front of the bytes.
abbrev pub Reader : Type 0 → Type 0
Reader T = List ℕ → Option (T × List ℕ)

-- On every value in range the encoder only appends, and the reader takes the value off what it
-- appended, whatever follows.
abbrev pub IsReadBack : {T : Type 0} → StableHash T → Reader T → (T → Type 0) → Type 0
IsReadBack {T} t read Fits =
    (x : T)
    → Fits x
    → (bytes : List ℕ) × ((enc : CanonicalEncoder) → (t.encode x enc).buf ≡ enc.buf ++ bytes)
      × ((rest : List ℕ) → read (bytes ++ rest) ≡ some (x, rest))
