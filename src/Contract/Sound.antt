-- ===== src/Contract/Sound.antt =====
-- What a journal that passes a property of the suite has shown.
use ironstate.Prelude.{
  ℕ, zero, suc, ◌+◌, ◌≤◌, ◌<◌, ◌≡◌, sym, ◌∙◌, ap, inl, inr, some, ok, err, arith, Result-cases,
  Bool-cases, leb, leb→le, ltb,
}
use ironstate.Aggregate.{AggregateRules}
use ironstate.Journal.{Seq, DrawPos, StreamId, Journal}
use ironstate.Contract.{Panic}
use ironstate.Contract.Checks.{positions, property_2}

module _ {R : AggregateRules} {J : Type 0} (jr : Journal R J (Unit {0})) (j : J)
    (id : StreamId) where
  -- The positions of two sequences are defined, the second no less than the first.
  pub record IsAscent (previous : DrawPos) (a b : Seq) : Type 0 where
    pub first : DrawPos
    pub second : DrawPos
    pub defined_first : jr.entropy_pos j id a ≡ ok first
    pub defined_second : jr.entropy_pos j id b ≡ ok second
    pub after : previous ≤ first
    pub ascending : first ≤ second

  -- One step of a loop that passed.
  passed :
      (message : Panic) (n : ℕ) (seq : Seq) (previous : DrawPos)
      → positions jr message j id (suc n) seq previous ≡ ok tt
      → (pos : DrawPos) × (jr.entropy_pos j id seq ≡ ok pos)
        × (previous ≤ pos)
        × (positions jr message j id n (suc seq) pos ≡ ok tt)
  unfolding positions
  passed message n seq previous h = elim (Result-cases (jr.entropy_pos j id seq)) [
    | inr (e, missing) ↦ let bad : err message ≡ ok tt = rw (missing) at h in cc
    | inl (pos, there) ↦ elim (Bool-cases (leb previous pos)) [
      | inl up ↦ (pos, there, leb→le previous pos up, rw (up) at (rw (there) at h))
      | inr down ↦ let bad : err message ≡ ok tt = rw (down) at (rw (there) at h) in cc
    ]
  ]

  pub positions-ascending :
      (message : Panic) (n : ℕ) (seq : Seq) (previous : DrawPos)
      → positions jr message j id n seq previous ≡ ok tt
      → (a b : Seq) → seq ≤ a
      → a ≤ b
      → b < seq + n
      → IsAscent previous a b
  positions-ascending message zero seq previous h a b lo mid hi = absurd (omega arith)
  positions-ascending message (suc n) seq previous h a b lo mid hi =
      let (pos, there, up, rest) = passed message n seq previous h in
      elim (Bool-cases (ltb seq a)) [
        | inl later ↦
            let t =
              positions-ascending message n (suc seq) pos rest a b (ground arith) mid
                (omega arith) in
            record {
              first = t.first;
              second = t.second;
              defined_first = t.defined_first;
              defined_second = t.defined_second;
              after = omega (arith, t.after);
              ascending = t.ascending;
            }
        | inr here ↦
            let same : seq ≡ a = ground arith in
            let at_a : jr.entropy_pos j id a ≡ ok pos =
              ap (jr.entropy_pos j id) (sym same) ∙ there in
            elim (Bool-cases (ltb a b)) [
              | inl more ↦
                  let t =
                    positions-ascending message n (suc seq) pos rest b b (ground arith)
                      (omega arith) (omega arith) in
                  record {
                    first = pos;
                    second = t.second;
                    defined_first = at_a;
                    defined_second = t.defined_second;
                    after = up;
                    ascending = omega (arith, t.after, t.ascending);
                  }
              | inr ends ↦
                  let equal : a ≡ b = ground arith in
                  record {
                    first = pos;
                    second = pos;
                    defined_first = at_a;
                    defined_second = ap (jr.entropy_pos j id) (sym equal) ∙ at_a;
                    after = up;
                    ascending = omega arith;
                  }
            ]
      ]

  -- A journal that passes property 2 of the suite on a stream with a head has a position at
  -- every sequence from 1 to the head, and of two such sequences the later never has the
  -- smaller position.
  pub property_2-ascending :
      (head : Seq)
      → jr.head j id ≡ some head
      → property_2 jr j id ≡ ok tt
      → (a b : Seq) → 1 ≤ a
      → a ≤ b
      → b ≤ head
      → IsAscent 0 a b
  unfolding property_2
  property_2-ascending head top h a b lo mid hi =
      positions-ascending "[proven] property 2: entropy_pos" head 1 0 (rw (top, property_2) at h) a
        b lo mid (omega arith)
