-- ===== src/Memory/Read.antt =====
-- What the reads of a faithful stream answer.
use ironstate.Prelude.{
  ℕ, zero, suc, ◌+◌, ◌-◌, ◌≤◌, ◌<◌, ◌≡◌, ◌≢◌, refl, sym, ◌∙◌, ap, subst, Bool, true, false, inl,
  inr, List, [], ◌∷◌, ◌++◌, map, none, some, ok, arith, length, drop, get_elem?, find, enumerate,
  retain, All, All-map, Bool-cases, Option-cases, leb, ltb, le→leb, ◌==◌, length-append,
  drop-append,
}
use ironstate.Aggregate.{AggregateRules}
use ironstate.Journal.{Seq, Snapshot, VersionedEvent}
use ironstate.Memory.{
  Record, Stream, count, position_in, position, record_at, index, events_in, stamp, stamp_all,
  latest_in, max_by_at,
}
use ironstate.Memory.History.{events_of, pos_or, pos_at, get_elem?-append_past, IsSound, IsFaithful}

module _ {ℓ} {A : Type ℓ} where
  -- A test that all elements pass keeps them all.
  pub retain-eq : (p : A → Bool) (xs : List A) → All (λ x. p x ≡ true) xs → retain p xs ≡ xs
  retain-eq p [] h = refl
  retain-eq p (x ∷ xs) h = rw h.0 (ap (λ l. x ∷ l) (retain-eq p xs h.1))

module _ {R : AggregateRules} where
  -- The chosen snapshot is one of the list.
  pub max_by_at-All :
      (P : Snapshot R → Type 0) (ss : List (Snapshot R))
      → ss ≢ []
      → All P ss
      → (s : Snapshot R) × (max_by_at ss ≡ some s) × P s
  unfolding max_by_at
  max_by_at-All P [] n h = absurd (n refl)
  max_by_at-All P (s ∷ []) n h = (s, refl, h.0)
  max_by_at-All P (s ∷ t ∷ ss) n h =
      let (m, e, hm) = max_by_at-All P (t ∷ ss) (λ e. cc) h.1 in
      elim (Bool-cases (ltb m.at s.at)) [
        | inl lt ↦ (s, rw (e, max_by_at) (rw lt), h.0)
        | inr ge ↦ (m, rw (e, max_by_at) (rw ge), hm)
      ]

  abbrev pub events_only : List (VersionedEvent R) → List R.Event
  events_only = map (λ stored. stored.event)

  events_only-stamp :
      (seq : Seq) (es : List R.Event) (rest : List (VersionedEvent R))
      → events_only (stamp seq es ++ rest) ≡ es ++ events_only rest
  unfolding stamp
  events_only-stamp seq [] rest = refl
  events_only-stamp seq (e ∷ es) rest = ap (λ l. e ∷ l) (events_only-stamp seq es rest)

  events_only-stamp_all :
      (truncated i k : ℕ) (rs : List (Record R))
      → events_only (stamp_all truncated (drop k (enumerate i rs))) ≡ events_of (drop k rs)
  unfolding stamp_all events_of
  events_only-stamp_all truncated i zero [] = refl
  events_only-stamp_all truncated i zero (r ∷ rs) =
      events_only-stamp (truncated + i + 1) r.events _
      ∙ ap (λ l. r.events ++ l) (events_only-stamp_all truncated (i + 1) zero rs)
  events_only-stamp_all truncated i (suc k) [] = refl
  events_only-stamp_all truncated i (suc k) (r ∷ rs) = events_only-stamp_all truncated (i + 1) k rs

  get_elem?-some :
      (rs : List (Record R)) (i : ℕ) → i < length rs → (r : Record R) × (get_elem? rs i ≡ some r)
  get_elem?-some [] i h = absurd (omega arith)
  get_elem?-some (r ∷ rs) zero h = (r, refl)
  get_elem?-some (r ∷ rs) (suc i) h = get_elem?-some rs i (omega arith)

  find-All :
      (P : Snapshot R → Type 0) (at : Seq) (ss : List (Snapshot R))
      → All P ss
      → (s : Snapshot R) → find (λ t. t.at == at) ss ≡ some s
      → P s × (s.at ≡ at)
  find-All P at [] h s e = cc
  find-All P at (t ∷ ss) h s e = elim (Bool-cases (t.at == at)) [
    | inl same ↦
        let found : some t ≡ some s = rw same at e in
        let eq : t ≡ s = cc found in (subst P eq h.0, ap (λ u. u.at) (sym eq) ∙ ground arith)
    | inr other ↦ find-All P at ss h.1 s (rw other at e)
  ]

module _ {R : AggregateRules} {genesis : R.State} {gone : List (Record R)} {st : Stream R}
    (f : IsFaithful genesis gone st) where
  pub count-history : count st ≡ length (gone ++ st.records)
  count-history = omega (arith, length-append {0} gone st.records, f.counted)

  -- The latest snapshot is one of the sound ones.
  pub latest_in-IsSound :
      (s : Snapshot R) × (latest_in genesis (some st) ≡ some s)
      × IsSound genesis (gone ++ st.records) st.truncated s
  unfolding latest_in
  latest_in-IsSound =
      rw
        (retain-eq (λ s. leb s.at (count st)) st.snapshots
          (All-map _ _ st.snapshots
            (λ s (h : IsSound genesis (gone ++ st.records) st.truncated s).
              le→leb _ _ (omega (arith, h.within, count-history)))
            f.sound))
        (max_by_at-All _ st.snapshots f.based f.sound)

  -- Read from a point that is not below the horizon, the events are those of the history after it.
  pub events_in-history :
      (at : Seq)
      → st.truncated ≤ at
      → (stored : List (VersionedEvent R)) × (events_in (some st) (some at) ≡ ok stored)
        × (events_only stored ≡ events_of (drop at (gone ++ st.records)))
  unfolding events_in
  events_in-history at h =
      let shown : ltb at st.truncated ≡ false = ground arith in
      (
        stamp_all st.truncated (drop (at - st.truncated) (enumerate 0 st.records)),
        rw shown,
        events_only-stamp_all st.truncated 0 (at - st.truncated) st.records
            ∙ ap events_of (
                ap (λ k. drop (at - k) st.records) (sym f.counted)
                ∙ sym (drop-append at gone st.records (omega (arith, f.counted)))),
      )

  record_pos :
      (at : Seq)
      → st.truncated < at
      → at ≤ count st
      → (r : Record R) × (record_at st at ≡ ok r) × (pos_at (gone ++ st.records) at ≡ r.entropy_pos)
  unfolding record_at index pos_at
  record_pos zero lo hi = absurd (omega arith)
  record_pos (suc n) lo hi =
      let (r, e) = get_elem?-some st.records (n - length gone) (omega (arith, f.counted)) in
      let there : get_elem? st.records (suc n - st.truncated - 1) ≡ some r =
        subst (λ (k : ℕ). get_elem? st.records k ≡ some r) (omega (arith, f.counted)) e in
      let lower : leb (suc n) st.truncated ≡ false = ground arith in
      let upper : ltb (count st) (suc n) ≡ false = ground arith in
      (
        r,
        rw (lower, upper) (rw there refl),
        ap pos_or (get_elem?-append_past gone st.records n (omega (arith, f.counted)) ∙ e),
      )

  -- At every sequence above the horizon up to the head, the position recorded is that of the history.
  pub position-history :
      (at : Seq)
      → st.truncated < at
      → at ≤ count st
      → position_in (some st) at ≡ ok (pos_at (gone ++ st.records) at)
  unfolding position_in position
  position-history at lo hi = elim (Option-cases (find (λ s. s.at == at) st.snapshots)) [
    | inl absent ↦
        let (r, there, same) = record_pos at lo hi in
        let positive : (at == 0) ≡ false = ground arith in
        rw (absent, position) (rw positive (rw there (ap ok (sym same))))
    | inr (s, present) ↦
        let (h, same) = find-All _ at st.snapshots f.sound s present in
        rw (present, position) (ap ok (h.pos ∙ ap (pos_at (gone ++ st.records)) same))
  ]

  found_at :
      (P : Snapshot R → Type 0) (at : Seq) (ss : List (Snapshot R))
      → ss ≢ []
      → All P ss
      → ((s : Snapshot R) → P s → s.at ≡ at)
      → find (λ s. s.at == at) ss ≢ none
  found_at P at [] n h all e = n refl
  found_at P at (s ∷ ss) n h all e =
      let same : s.at ≡ at = all s h.0 in
      let passed : (s.at == at) ≡ true = ground arith in
      let c : some s ≡ none = rw passed at e in cc

  -- So it is at the head, also when every record has been discarded.
  pub position-head : position_in (some st) (count st) ≡ ok (pos_at (gone ++ st.records) (count st))
  unfolding position_in position
  position-head = elim (Bool-cases (ltb st.truncated (count st))) [
    | inl more ↦ position-history (count st) (ground arith) (omega arith)
    | inr all ↦ elim (Option-cases (find (λ s. s.at == count st) st.snapshots)) [
      | inl absent ↦ absurd (
          found_at _ (count st) st.snapshots f.based f.sound
            (λ s (h : IsSound genesis (gone ++ st.records) st.truncated s).
              let empty : count st ≤ st.truncated = ground arith in
              omega (arith, empty, h.within, h.retained, count-history))
            absent)
      | inr (s, present) ↦
          let (h, same) = find-All _ (count st) st.snapshots f.sound s present in
          rw (present, position) (ap ok (h.pos ∙ ap (pos_at (gone ++ st.records)) same))
    ]
  ]
