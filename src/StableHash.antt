-- ===== src/StableHash.antt =====
-- Canonical encodings (app/crates/ironstate-aggregate/src/stablehash.rs). A byte is a number; an
-- integer type of `w` bytes is a number, signed ones are ℤ; the hash engines are parameters.
pub mod Words
pub mod ReadBack
pub mod Values
pub mod Containers
pub mod Digests
mod Tests
use ironstate.Prelude.{
  ℕ, zero, suc, ◌+◌, ◌-◌, ◌*◌, ◌/◌, ◌%◌, ◌^◌, Bool, true, false, List, [], ◌∷◌, ◌++◌, Option, none,
  some, Result, ok, err, length, ltb, if◌then◌else◌,
}

-- `negsuc n` is -(n + 1).
pub data ℤ : Type 0 where
  pos : ℕ → ℤ
  negsuc : ℕ → ℤ

-- `n.to_le_bytes()` at `w` bytes.
unfoldable pub to_le_bytes : ℕ → ℕ → List ℕ
to_le_bytes zero n = []
to_le_bytes (suc w) n = n % 256 ∷ to_le_bytes w (n / 256)

-- The two's complement at `w` bytes.
abbrev pub pattern_of : ℕ → ℤ → ℕ
pattern_of w (pos n) = n
pattern_of w (negsuc n) = 256 ^ w - 1 - n

pub record CanonicalEncoder : Type 0 where
  pub buf : List ℕ

abbrev pub new : CanonicalEncoder
new = record { buf = [] }

abbrev pub into_bytes : CanonicalEncoder → List ℕ
into_bytes enc = enc.buf

abbrev pub write_raw : List ℕ → CanonicalEncoder → CanonicalEncoder
write_raw bytes enc = record { buf = enc.buf ++ bytes }

abbrev pub write_len : ℕ → CanonicalEncoder → CanonicalEncoder
write_len len enc = record { buf = enc.buf ++ to_le_bytes 8 len }

abbrev pub write_discriminant : ℕ → CanonicalEncoder → CanonicalEncoder
write_discriminant discriminant enc = record { buf = enc.buf ++ to_le_bytes 4 discriminant }

-- The trait `StableHash`.
pub record StableHash (T : Type 0) : Type 0 where
  pub encode : T → CanonicalEncoder → CanonicalEncoder

-- `u8` to `u128`, and `usize` at 8 bytes.
abbrev pub uint : ℕ → StableHash ℕ
uint w = record { encode = λ n enc. write_raw (to_le_bytes w n) enc }

-- `i8` to `i128`, and `isize` at 8 bytes.
abbrev pub sint : ℕ → StableHash ℤ
sint w = record { encode = λ z enc. write_raw (to_le_bytes w (pattern_of w z)) enc }

abbrev pub bool : StableHash Bool
bool = record { encode = λ b enc. write_raw ((if b then 1 else 0) ∷ []) enc }

-- A `char` is its scalar value.
abbrev pub char : StableHash ℕ
char = record { encode = λ c enc. write_raw (to_le_bytes 4 c) enc }

-- A text is its bytes.
abbrev pub str : StableHash (List ℕ)
str = record { encode = λ s enc. write_raw s (write_len (length s) enc) }

abbrev pub unit : StableHash (Unit {0})
unit = record { encode = λ x enc. enc }

module _ {T : Type 0} (t : StableHash T) where
  -- `for item in self`
  unfoldable pub encode_items : List T → CanonicalEncoder → CanonicalEncoder
  encode_items [] enc = enc
  encode_items (item ∷ items) enc = encode_items items (t.encode item enc)

  -- `[T]`, `Vec<T>`, and `BTreeSet<T>` in the order of its elements.
  abbrev pub slice : StableHash (List T)
  slice = record { encode = λ xs enc. encode_items xs (write_len (length xs) enc) }

  -- `[T; N]`
  abbrev pub array : ℕ → StableHash (List T)
  array n = record { encode = λ xs enc. encode_items xs (write_len n enc) }

  encode_option : Option T → CanonicalEncoder → CanonicalEncoder
  encode_option none enc = write_discriminant 0 enc
  encode_option (some value) enc = t.encode value (write_discriminant 1 enc)

  abbrev pub option : StableHash (Option T)
  unfolding encode_option
  option = record { encode = encode_option }

module _ {K V : Type 0} (k : StableHash K) (v : StableHash V) where
  encode_result : Result K V → CanonicalEncoder → CanonicalEncoder
  encode_result (ok value) enc = k.encode value (write_discriminant 0 enc)
  encode_result (err error) enc = v.encode error (write_discriminant 1 enc)

  abbrev pub result : StableHash (Result K V)
  unfolding encode_result
  result = record { encode = encode_result }

  -- `for (key, value) in self`
  unfoldable pub encode_entries : List (K × V) → CanonicalEncoder → CanonicalEncoder
  encode_entries [] enc = enc
  encode_entries ((key, value) ∷ entries) enc =
      encode_entries entries (v.encode value (k.encode key enc))

  -- `BTreeMap<K, V>` in the order of its keys.
  abbrev pub map : StableHash (List (K × V))
  map = record { encode = λ m enc. encode_entries m (write_len (length m) enc) }

  -- `(A, B)`; longer tuples write their components in order too.
  abbrev pub tuple2 : StableHash (K × V)
  tuple2 = record { encode = λ p enc. v.encode p.1 (k.encode p.0 enc) }

-- `Digest128`, its 16 bytes.
pub record Digest128 : Type 0 where
  pub bytes : List ℕ

-- What is fed to the engine.
unfoldable pub canonical_bytes : {T : Type 0} → StableHash T → T → List ℕ
canonical_bytes t x = into_bytes (t.encode x new)

-- The engine gives two 64-bit words.
unfoldable pub digest128 : {T : Type 0} → (List ℕ → ℕ × ℕ) → StableHash T → T → Digest128
unfolding canonical_bytes
digest128 sip t x =
    let words = sip (canonical_bytes t x) in
    record { bytes = to_le_bytes 8 words.0 ++ to_le_bytes 8 words.1 }

-- A hexadecimal digit, as a code point.
abbrev pub hex_digit : ℕ → ℕ
hex_digit d = if ltb d 10 then d + 48 else d + 87

-- `format!("{b:02x}")` of each byte.
unfoldable pub to_hex : List ℕ → List ℕ
to_hex [] = []
to_hex (b ∷ bytes) = hex_digit (b / 16) ∷ hex_digit (b % 16) ∷ to_hex bytes
