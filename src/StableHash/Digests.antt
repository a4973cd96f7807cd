-- ===== src/StableHash/Digests.antt =====
-- The text of a digest (`Digest128` of app/crates/ironstate-stable-hash) keeps what the engine gave.
use mathlib.Core.Option.{some-injective}
use ironstate.Prelude.{
  ℕ, zero, suc, ◌↔◌, ◌+◌, ◌-◌, ◌*◌, ◌/◌, ◌%◌, ◌<◌, ◌≡◌, refl, sym, ◌∙◌, ap, List, [], ◌∷◌, ◌++◌,
  arith, length, ltb, if◌then◌else◌, All, All-append, length-append,
}
use ironstate.StableHash.{StableHash, to_le_bytes, canonical_bytes, digest128, hex_digit, to_hex}
use ironstate.StableHash.Words.{
  IsWord, from_le_bytes, from_le_bytes-to_le_bytes, length-to_le_bytes,
}
use ironstate.StableHash.Values.{read_uint, read_uint-to_le_bytes}

abbrev hex_value : ℕ → ℕ
hex_value c = if ltb c 97 then c - 48 else c - 87

-- Two digits for each byte.
unfoldable pub from_hex : List ℕ → List ℕ
from_hex [] = []
from_hex (c ∷ []) = []
from_hex (c ∷ d ∷ rest) = (16 * hex_value c + hex_value d) ∷ from_hex rest

-- The hexadecimal text of bytes reads back as the bytes, and has two digits for each.
pub from_hex-to_hex :
    (bytes : List ℕ)
    → All (λ b. b < 256) bytes
    → (from_hex (to_hex bytes) ≡ bytes) × (length (to_hex bytes) ≡ 2 * length bytes)
unfolding from_hex to_hex
from_hex-to_hex [] h = (refl, refl)
from_hex-to_hex (b ∷ bytes) (hb, h) =
    let (same, size) = from_hex-to_hex bytes h in
    let byte : 16 * hex_value (hex_digit (b / 16)) + hex_value (hex_digit (b % 16)) ≡ b =
      ground arith in
    (rw (byte, same) refl, omega (arith, size))

to_le_bytes-bytes : (w n : ℕ) → All (λ b. b < 256) (to_le_bytes w n)
unfolding to_le_bytes
to_le_bytes-bytes zero n = tt
to_le_bytes-bytes (suc w) n = (omega arith, to_le_bytes-bytes w (n / 256))

two_words-bytes : (a b : ℕ) → All (λ c. c < 256) (to_le_bytes 8 a ++ to_le_bytes 8 b)
two_words-bytes a b =
    All-append (λ c. c < 256) (to_le_bytes 8 a) (to_le_bytes 8 b) (to_le_bytes-bytes 8 a)
      (to_le_bytes-bytes 8 b)

length-two_words : (a b : ℕ) → length (to_le_bytes 8 a ++ to_le_bytes 8 b) ≡ 16
length-two_words a b = omega (
  arith,
  length-append {0} (to_le_bytes 8 a) (to_le_bytes 8 b),
  length-to_le_bytes 8 a,
  length-to_le_bytes 8 b,
)

-- Two words in a row tell both.
words_apart :
    (a b c d : ℕ)
    → IsWord 8 a
    → IsWord 8 b
    → IsWord 8 c
    → IsWord 8 d
    → to_le_bytes 8 a ++ to_le_bytes 8 b ≡ to_le_bytes 8 c ++ to_le_bytes 8 d
    → (a ≡ c) × (b ≡ d)
words_apart a b c d ha hb hc hd same =
    let firsts =
      some-injective (a, to_le_bytes 8 b) (c, to_le_bytes 8 d)
        (sym (read_uint-to_le_bytes 8 a (to_le_bytes 8 b) ha)
          ∙ ap (read_uint 8) same
          ∙ read_uint-to_le_bytes 8 c (to_le_bytes 8 d) hc) in
    (
      ap (λ p. p.0) firsts,
      sym (from_le_bytes-to_le_bytes 8 b hb)
          ∙ ap from_le_bytes (ap (λ p. p.1) firsts)
          ∙ from_le_bytes-to_le_bytes 8 d hd,
    )

-- When the engine gives 64-bit words, the text of a digest has 32 digits, and two texts are the same
-- exactly if the engine gives the two encodings the same words.
pub to_hex-digest128 :
    {T : Type 0} (sip : List ℕ → ℕ × ℕ) (t : StableHash T)
    → ((bytes : List ℕ) → IsWord 8 (sip bytes).0 × IsWord 8 (sip bytes).1)
    → (x y : T)
    → (length (to_hex (digest128 sip t x).bytes) ≡ 32)
      × ((to_hex (digest128 sip t x).bytes ≡ to_hex (digest128 sip t y).bytes)
          ↔ (sip (canonical_bytes t x) ≡ sip (canonical_bytes t y)))
unfolding digest128
to_hex-digest128 sip t words x y =
    let a = sip (canonical_bytes t x) in
    let b = sip (canonical_bytes t y) in
    let wa = words (canonical_bytes t x) in
    let wb = words (canonical_bytes t y) in
    let (read_x, size_x) = from_hex-to_hex _ (two_words-bytes a.0 a.1) in
    let (read_y, size_y) = from_hex-to_hex _ (two_words-bytes b.0 b.1) in
    (
      size_x ∙ ap (λ n. 2 * n) (length-two_words a.0 a.1),
      (
        λ same.
            let (first, second) =
              words_apart a.0 a.1 b.0 b.1 wa.0 wa.1 wb.0 wb.1
                (sym read_x ∙ ap from_hex same ∙ read_y) in
            (λ i. (first i, second i)),
        λ same. ap (λ (p : ℕ × ℕ). to_hex (to_le_bytes 8 p.0 ++ to_le_bytes 8 p.1)) same,
      ),
    )
