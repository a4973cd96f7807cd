-- ===== src/StableHash/Containers.antt =====
-- The encodings of sequences, options, results, maps and tuples read back when those of their
-- elements do.
use ironstate.Prelude.{
  ℕ, zero, suc, ◌≡◌, ◌==◌, refl, sym, ◌∙◌, ap, List, [], ◌∷◌, ◌++◌, Option, none, some, arith,
  length, if◌then◌else◌, append_assoc, append-nil, All, Result, ok, err,
}
use ironstate.StableHash.{
  StableHash, CanonicalEncoder, to_le_bytes, write_len, write_discriminant, encode_items, slice,
  array, option, encode_option, result, encode_result, encode_entries, map, tuple2,
}
use ironstate.StableHash.ReadBack.{Reader, IsReadBack}
use ironstate.StableHash.Values.{read_uint, read_uint-to_le_bytes, IsShort}

module _ {T : Type 0} (read : Reader T) where
  unfoldable pub read_items : ℕ → Reader (List T)
  read_items zero bytes = some ([], bytes)
  read_items (suc n) bytes = elim (read bytes) [
    | none ↦ none
    | some (x, rest) ↦ elim (read_items n rest) [
      | none ↦ none
      | some (xs, rest') ↦ some (x ∷ xs, rest')
    ]
  ]

  -- A length, and that many elements.
  unfoldable pub read_slice : Reader (List T)
  read_slice bytes = elim (read_uint 8 bytes) [ none ↦ none | some (n, rest) ↦ read_items n rest ]

  unfoldable pub read_option : Reader (Option T)
  read_option bytes = elim (read_uint 4 bytes) [
    | none ↦ none
    | some (n, rest) ↦
        if n == 0
        then some (none, rest)
        else elim (read rest) [ none ↦ none | some (x, rest') ↦ some (some x, rest') ]
  ]

module _ {K V : Type 0} (read_k : Reader K) (read_v : Reader V) where
  unfoldable pub read_tuple2 : Reader (K × V)
  read_tuple2 bytes = elim (read_k bytes) [
    | none ↦ none
    | some (k, rest) ↦ elim (read_v rest) [ none ↦ none | some (v, rest') ↦ some ((k, v), rest') ]
  ]

  unfoldable pub read_result : Reader (Result K V)
  read_result bytes = elim (read_uint 4 bytes) [
    | none ↦ none
    | some (n, rest) ↦
        if n == 0
        then elim (read_k rest) [ none ↦ none | some (x, rest') ↦ some (ok x, rest') ]
        else elim (read_v rest) [ none ↦ none | some (x, rest') ↦ some (err x, rest') ]
  ]

abbrev pub OptionFits : {T : Type 0} → (T → Type 0) → Option T → Type 0
OptionFits Fits none = Unit
OptionFits Fits (some x) = Fits x

abbrev pub ResultFits : {K V : Type 0} → (K → Type 0) → (V → Type 0) → Result K V → Type 0
ResultFits FitsK FitsV (ok x) = FitsK x
ResultFits FitsK FitsV (err x) = FitsV x

module _ {T : Type 0} (t : StableHash T) (read : Reader T) (Fits : T → Type 0)
    (back : IsReadBack t read Fits) where
  items_back :
      (xs : List T)
      → All Fits xs
      → (bytes : List ℕ) × ((enc : CanonicalEncoder)
          → (encode_items t xs enc).buf ≡ enc.buf ++ bytes)
        × ((rest : List ℕ) → read_items read (length xs) (bytes ++ rest) ≡ some (xs, rest))
  unfolding encode_items read_items
  items_back [] h = ([], λ enc. sym (append-nil enc.buf), λ rest. refl)
  items_back (x ∷ xs) (hx, hxs) =
      let (first, appends, reads) = back x hx in
      let (others, appends', reads') = items_back xs hxs in
      (
        first ++ others,
        λ enc.
            appends' (t.encode x enc)
            ∙ ap (λ b. b ++ others) (appends enc)
            ∙ append_assoc enc.buf first others,
        λ rest.
            rw (append_assoc first others rest)
              (rw (reads (others ++ rest), read_items) (rw (reads' rest, read_items) refl)),
      )

  prefixed :
      (xs : List T)
      → IsShort xs
      → All Fits xs
      → (bytes : List ℕ) × ((enc : CanonicalEncoder)
          → (encode_items t xs (write_len (length xs) enc)).buf ≡ enc.buf ++ bytes)
        × ((rest : List ℕ) → read_slice read (bytes ++ rest) ≡ some (xs, rest))
  unfolding read_slice
  prefixed xs short h =
      let len = to_le_bytes 8 (length xs) in
      let (bytes, appends, reads) = items_back xs h in
      (
        len ++ bytes,
        λ enc. appends (write_len (length xs) enc) ∙ append_assoc enc.buf len bytes,
        λ rest. rw (append_assoc len bytes rest) (
            rw (read_uint-to_le_bytes 8 (length xs) (bytes ++ rest) short, read_slice)
              (reads rest)),
      )

  -- A sequence reads back when its elements do and its length is a 64-bit word.
  pub slice-IsReadBack : IsReadBack (slice t) (read_slice read) (λ xs. IsShort xs × All Fits xs)
  slice-IsReadBack xs (short, h) = prefixed xs short h

  pub array-IsReadBack :
      (n : ℕ)
      → IsReadBack (array t n) (read_slice read) (λ xs. (length xs ≡ n) × IsShort xs × All Fits xs)
  array-IsReadBack n xs (size, short, h) = rw (sym size) (prefixed xs short h)

  pub option-IsReadBack : IsReadBack (option t) (read_option read) (OptionFits Fits)
  unfolding encode_option read_option
  option-IsReadBack none h = (
    to_le_bytes 4 0,
    λ enc. refl,
    λ rest. rw (read_uint-to_le_bytes 4 0 rest (omega arith), read_option) refl,
  )
  option-IsReadBack (some x) h =
      let (bytes, appends, reads) = back x h in
      let tag = to_le_bytes 4 1 in
      (
        tag ++ bytes,
        λ enc. appends (write_discriminant 1 enc) ∙ append_assoc enc.buf tag bytes,
        λ rest. rw (append_assoc tag bytes rest) (
            rw (read_uint-to_le_bytes 4 1 (bytes ++ rest) (omega arith), read_option)
              (rw (reads rest, read_option) refl)),
      )

module _ {K V : Type 0} (k : StableHash K) (v : StableHash V) (read_k : Reader K)
    (read_v : Reader V) (FitsK : K → Type 0) (FitsV : V → Type 0)
    (back_k : IsReadBack k read_k FitsK) (back_v : IsReadBack v read_v FitsV) where
  pub tuple2-IsReadBack :
      IsReadBack (tuple2 k v) (read_tuple2 read_k read_v) (λ p. FitsK p.0 × FitsV p.1)
  unfolding read_tuple2
  tuple2-IsReadBack (x, y) (hx, hy) =
      let (first, appends, reads) = back_k x hx in
      let (second, appends', reads') = back_v y hy in
      (
        first ++ second,
        λ enc.
            appends' (k.encode x enc)
            ∙ ap (λ b. b ++ second) (appends enc)
            ∙ append_assoc enc.buf first second,
        λ rest.
            rw (append_assoc first second rest)
              (rw (reads (second ++ rest), read_tuple2) (rw (reads' rest, read_tuple2) refl)),
      )

  pub result-IsReadBack :
      IsReadBack (result k v) (read_result read_k read_v) (ResultFits FitsK FitsV)
  unfolding encode_result read_result
  result-IsReadBack (ok x) h =
      let (bytes, appends, reads) = back_k x h in
      let tag = to_le_bytes 4 0 in
      (
        tag ++ bytes,
        λ enc. appends (write_discriminant 0 enc) ∙ append_assoc enc.buf tag bytes,
        λ rest. rw (append_assoc tag bytes rest) (
            rw (read_uint-to_le_bytes 4 0 (bytes ++ rest) (omega arith), read_result)
              (rw (reads rest, read_result) refl)),
      )
  result-IsReadBack (err x) h =
      let (bytes, appends, reads) = back_v x h in
      let tag = to_le_bytes 4 1 in
      (
        tag ++ bytes,
        λ enc. appends (write_discriminant 1 enc) ∙ append_assoc enc.buf tag bytes,
        λ rest. rw (append_assoc tag bytes rest) (
            rw (read_uint-to_le_bytes 4 1 (bytes ++ rest) (omega arith), read_result)
              (rw (reads rest, read_result) refl)),
      )

  -- A map writes its entries as a sequence of pairs.
  encode_entries-encode_items :
      (m : List (K × V)) (enc : CanonicalEncoder)
      → encode_entries k v m enc ≡ encode_items (tuple2 k v) m enc
  unfolding encode_entries encode_items
  encode_entries-encode_items [] enc = refl
  encode_entries-encode_items ((x, y) ∷ m) enc =
      encode_entries-encode_items m (v.encode y (k.encode x enc))

  -- When the encodings of keys and values read back on values in range, so does that of an
  -- ordered map of at most 2^64 - 1 entries: the encoder only appends, and the reader takes the
  -- map, entry by entry in key order, off what was appended, whatever follows.
  pub map-IsReadBack :
      IsReadBack
        (map k v)
        (read_slice (read_tuple2 read_k read_v))
        (λ m. IsShort m × All (λ p. FitsK p.0 × FitsV p.1) m)
  map-IsReadBack m h =
      let (bytes, appends, reads) =
        slice-IsReadBack (tuple2 k v) (read_tuple2 read_k read_v) (λ p. FitsK p.0 × FitsV p.1)
          tuple2-IsReadBack m h in
      (
        bytes,
        λ enc.
            ap (λ e. e.buf) (encode_entries-encode_items m (write_len (length m) enc))
            ∙ appends enc,
        reads,
      )
