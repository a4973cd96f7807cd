-- ===== src/Memory/Range.antt =====
-- Addressing a stream out of its range.
use ironstate.Prelude.{
  ◌<◌, ◌≡◌, refl, Bool, true, false, ◌||◌, List, [], ◌∷◌, none, some, err, arith, find, All, ltb,
  leb, ◌==◌,
}
use ironstate.Aggregate.{AggregateRules}
use ironstate.Journal.{Seq, unknown_seq}
use ironstate.Memory.{Stream, count, position_in, position, record_at}

find-none : {A : Type 0} (p : A → Bool) (xs : List A) → All (λ x. p x ≡ false) xs → find p xs ≡ none
find-none p [] h = refl
find-none p (x ∷ xs) h = rw h.0 (find-none p xs h.1)

-- A sequence at or below the horizon or past the head is unknown, unless a snapshot is there.
pub position-unknown :
    {R : AggregateRules} (st : Stream R) (at : Seq)
    → All (λ s. (s.at == at) ≡ false) st.snapshots
    → 0 < at
    → (leb at st.truncated || ltb (count st) at) ≡ true
    → position_in (some st) at ≡ err (unknown_seq at)
unfolding position_in position record_at
position-unknown st at absent positive outside =
    let nonzero : (at == 0) ≡ false = ground arith in
    rw (find-none (λ s. s.at == at) st.snapshots absent, position) (rw nonzero (rw outside refl))
