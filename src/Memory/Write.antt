-- ===== src/Memory/Write.antt =====
-- What the writes do to a faithful stream: each keeps it faithful to the history it extends.
use ironstate.Prelude.{
  ℕ, ◌+◌, ◌-◌, ◌≤◌, ◌<◌, ◌≡◌, ◌≢◌, sym, ◌∙◌, ap, subst, min, Bool, true, false, inl, inr, List, [],
  ◌∷◌, ◌++◌, map, some, arith, length, take, drop, retain, All-map, All-append, All-retain,
  Option-cases, leb, ltb, leb→le, length-append, length-take, take-append-drop, append_assoc,
}
use ironstate.Aggregate.{AggregateRules}
use ironstate.Journal.{Seq, Snapshot}
use ironstate.Memory.{Record, Stream, count, max, latest_snapshot_at, uncovered, cut}
use ironstate.Memory.History.{IsSound, IsFaithful, IsSound-append, state_at, pos_at}

-- One more record extends the history by it.
pub append-IsFaithful :
    {R : AggregateRules} {genesis : R.State} {gone : List (Record R)} {st : Stream R} (r : Record R)
    → IsFaithful genesis gone st
    → IsFaithful genesis gone (record st { records = st.records ++ (r ∷ []) })
append-IsFaithful {genesis = genesis} {gone = gone} {st = st} r f = record {
  counted = f.counted;
  based = f.based;
  sound =
      All-map _ _ st.snapshots
        (λ s h.
          subst (λ full. IsSound genesis full st.truncated s)
            (append_assoc gone st.records (r ∷ []))
            (IsSound-append genesis (gone ++ st.records) (r ∷ []) st.truncated s h))
        f.sound;
}

snoc≢nil {ℓ} : {A : Type ℓ} (xs : List A) (x : A) → (xs ++ (x ∷ [])) ≢ []
snoc≢nil [] x e = cc
snoc≢nil (y ∷ ys) x e = cc

-- A sound snapshot may be added.
pub snapshot-IsFaithful :
    {R : AggregateRules} {genesis : R.State} {gone : List (Record R)} {st : Stream R}
    (s : Snapshot R)
    → IsSound genesis (gone ++ st.records) st.truncated s
    → IsFaithful genesis gone st
    → IsFaithful genesis gone (record st { snapshots = st.snapshots ++ (s ∷ []) })
snapshot-IsFaithful {st = st} s h f = record {
  counted = f.counted;
  based = snoc≢nil st.snapshots s;
  sound = All-append _ st.snapshots (s ∷ []) f.sound (h, tt);
}

module _ {R : AggregateRules} where
  -- The greatest sequence is that of a snapshot, which a retention up to it keeps.
  covered :
      (p : Seq → Bool) (h m : Seq) (ss : List (Snapshot R))
      → max (retain p (map (λ s. s.at) ss)) ≡ some m
      → h ≤ m
      → retain (λ s. leb h s.at) ss ≢ []
  unfolding max
  covered p h m [] e le = cc
  covered p h m (s ∷ ss) e le = ground (arith, covered p h m ss)

module _ {R : AggregateRules} {genesis : R.State} {gone : List (Record R)} {st : Stream R}
    (at : Seq) (f : IsFaithful genesis gone st) (lower : st.truncated < at)
    (upper : at ≤ count st + 1) (cover : uncovered (latest_snapshot_at st) (at - 1) ≡ false) where
  -- The stream that is left: records `d` on, with the horizon `h`.
  abbrev left_after : ℕ → ℕ → Stream R
  left_after d h = record {
    records = drop d st.records;
    truncated = h;
    snapshots = retain (λ s. leb h s.at) st.snapshots;
  }

  abbrev dropped : ℕ
  dropped = at - 1 - st.truncated

  pub cut-eq : cut st at ≡ left_after dropped (at - 1)
  unfolding cut
  cut-eq =
      let all : min dropped (length st.records) ≡ dropped = omega arith in
      let horizon : st.truncated + dropped ≡ at - 1 = omega arith in
      ap (λ d. left_after d (st.truncated + d)) all ∙ ap (left_after dropped) horizon

  history_kept : (gone ++ take dropped st.records) ++ drop dropped st.records ≡ gone ++ st.records
  history_kept =
      append_assoc gone (take dropped st.records) (drop dropped st.records)
      ∙ ap (λ l. gone ++ l) (take-append-drop dropped st.records)

  some_left : retain (λ s. leb (at - 1) s.at) st.snapshots ≢ []
  unfolding latest_snapshot_at
  some_left = elim (Option-cases (latest_snapshot_at st)) [
    | inl absent ↦ let c : true ≡ false = rw absent at cover in cc
    | inr (m, found) ↦
        let c : ltb m (at - 1) ≡ false = rw found at cover in
        covered (λ s. leb s (count st)) (at - 1) m st.snapshots found (ground arith)
  ]

  left-IsFaithful :
      IsFaithful genesis (gone ++ take dropped st.records) (left_after dropped (at - 1))
  left-IsFaithful = record {
    counted = omega (
      arith,
      length-append {0} gone (take dropped st.records),
      length-take {0} dropped st.records (omega arith),
      f.counted,
    );
    based = some_left;
    sound =
        All-map _ _ (retain (λ s. leb (at - 1) s.at) st.snapshots)
          (λ s h. record {
            within = subst (λ full. s.at ≤ length full) (sym history_kept) (h.0.within);
            retained = leb→le _ _ h.1;
            state = h.0.state ∙ ap (λ full. state_at genesis full s.at) (sym history_kept);
            pos = h.0.pos ∙ ap (λ full. pos_at full s.at) (sym history_kept);
          })
          (All-retain _ (λ s. leb (at - 1) s.at) st.snapshots f.sound);
  }

  -- A truncation that is not refused keeps the history, and discards it up to the record asked for.
  pub cut-IsFaithful :
      IsFaithful genesis (gone ++ take dropped st.records) (cut st at)
      × ((gone ++ take dropped st.records) ++ (cut st at).records ≡ gone ++ st.records)
      × ((cut st at).truncated + 1 ≡ at)
  cut-IsFaithful =
      subst
        (λ left.
          IsFaithful genesis (gone ++ take dropped st.records) left
          × ((gone ++ take dropped st.records) ++ left.records ≡ gone ++ st.records)
          × (left.truncated + 1 ≡ at))
        (sym cut-eq) (left-IsFaithful, history_kept, omega arith)
