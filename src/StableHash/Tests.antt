-- ===== src/StableHash/Tests.antt =====
-- Encodings of concrete values.
use ironstate.Prelude.{
  ◌↔◌, ◌%◌, ℕ, ◌^◌, ◌≡◌, refl, List, [], ◌∷◌, Option, some, none, arith, length, All,
}
use ironstate.StableHash.{
  ℤ, negsuc, to_le_bytes, canonical_bytes, uint, sint, str, slice, option, map, encode_items,
  encode_option, encode_entries, to_hex, digest128, StableHash,
}
use ironstate.StableHash.Words.{from_le_bytes, IsWord, IsSigned}
use ironstate.StableHash.ReadBack.{IsReadBack}
use ironstate.StableHash.Values.{read_sint, read_str, IsShort, sint-IsReadBack, str-IsReadBack}
use ironstate.StableHash.Containers.{
  read_slice, read_option, read_tuple2, OptionFits, slice-IsReadBack, option-IsReadBack,
  map-IsReadBack,
}
use ironstate.StableHash.Digests.{to_hex-digest128}

-- A map from texts to lists of optional 16-bit integers.
abbrev Table : Type 0
Table = List (List ℕ × List (Option ℤ))

abbrev values : StableHash (List (Option ℤ))
values = slice (option (sint 2))

abbrev ValuesFit : List (Option ℤ) → Type 0
ValuesFit xs = IsShort xs × All (OptionFits (IsSigned 2)) xs

abbrev table : StableHash Table
table = map str values

abbrev TableFits : Table → Type 0
TableFits m = IsShort m × All (λ p. IsShort p.0 × ValuesFit p.1) m

values-IsReadBack : IsReadBack values (read_slice (read_option (read_sint 2))) ValuesFit
values-IsReadBack =
    slice-IsReadBack (option (sint 2)) (read_option (read_sint 2)) (OptionFits (IsSigned 2))
      (option-IsReadBack (sint 2) (read_sint 2) (IsSigned 2) (sint-IsReadBack 2))

map-IsReadBack_example :
    IsReadBack table
      (read_slice (read_tuple2 read_str (read_slice (read_option (read_sint 2)))))
      TableFits
map-IsReadBack_example =
    map-IsReadBack str values read_str (read_slice (read_option (read_sint 2))) IsShort ValuesFit
      str-IsReadBack values-IsReadBack

abbrev sample_table : Table
sample_table = (104 ∷ 105 ∷ [], some (negsuc 1) ∷ none ∷ []) ∷ []

sample_bytes :
    canonical_bytes table sample_table
    ≡ 1 ∷ 0 ∷ 0 ∷ 0 ∷ 0 ∷ 0 ∷ 0 ∷ 0 ∷ 2 ∷ 0 ∷ 0 ∷ 0 ∷ 0 ∷ 0 ∷ 0 ∷ 0 ∷ 104 ∷ 105 ∷ 2 ∷ 0 ∷ 0 ∷ 0 ∷ 0
      ∷ 0 ∷ 0 ∷ 0 ∷ 1 ∷ 0 ∷ 0 ∷ 0 ∷ 254 ∷ 255 ∷ 0 ∷ 0 ∷ 0 ∷ 0 ∷ []
unfolding canonical_bytes encode_entries encode_items encode_option to_le_bytes
sample_bytes = refl

-- An engine that counts the bytes and adds them up.
abbrev engine : List ℕ → ℕ × ℕ
engine bytes = (length bytes % 2 ^ 64, from_le_bytes bytes % 2 ^ 64)

engine_words : (bytes : List ℕ) → IsWord 8 (engine bytes).0 × IsWord 8 (engine bytes).1
engine_words bytes = omega arith

to_hex-digest128_example :
    (length (to_hex (digest128 engine (uint 8) 300).bytes) ≡ 32)
    × ((to_hex (digest128 engine (uint 8) 300).bytes ≡ to_hex (digest128 engine (uint 8) 301).bytes)
        ↔ (engine (canonical_bytes (uint 8) 300) ≡ engine (canonical_bytes (uint 8) 301)))
to_hex-digest128_example = to_hex-digest128 engine (uint 8) engine_words 300 301

hex : to_hex (171 ∷ 5 ∷ []) ≡ 97 ∷ 98 ∷ 48 ∷ 53 ∷ []
unfolding to_hex
hex = refl
