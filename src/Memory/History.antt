-- ===== src/Memory/History.antt =====
-- The history of a stream as it was appended, records discarded since included, and what it
-- determines at each sequence: the state, the entropy position, the events.
use ironstate.Prelude.{
  ℕ, zero, suc, ◌-◌, ◌≤◌, ◌<◌, ◌≡◌, ◌≢◌, refl, sym, ◌∙◌, ap, List, [], ◌∷◌, ◌++◌, Option, none,
  some, append_assoc, append-nil, foldl, arith, length, take, drop, get_elem?, take-append-drop,
  take-append, take-length, length-append, All,
}
use mathlib.Core.List.{foldl-append}
use ironstate.Aggregate.{AggregateRules}
use ironstate.Journal.{Seq, DrawPos, Snapshot}
use ironstate.Memory.{Record, Stream, new_stream, genesis_snapshot}

module _ {R : AggregateRules} where
  -- The events of the records, in order.
  unfoldable pub events_of : List (Record R) → List R.Event
  events_of [] = []
  events_of (r ∷ rs) = r.events ++ events_of rs

  abbrev pub pos_or : Option (Record R) → DrawPos
  pos_or none = 0
  pos_or (some r) = r.entropy_pos

  -- The entropy position after the first `at` records.
  unfoldable pub pos_at : List (Record R) → Seq → DrawPos
  pos_at full zero = 0
  pos_at full (suc n) = pos_or (get_elem? full n)

  -- The state after the first `at` records.
  unfoldable pub state_at : R.State → List (Record R) → Seq → R.State
  unfolding events_of
  state_at genesis full at = foldl R.evolve genesis (events_of (take at full))

  pub events_of-append :
      (xs ys : List (Record R)) → events_of (xs ++ ys) ≡ events_of xs ++ events_of ys
  unfolding events_of
  events_of-append [] ys = refl
  events_of-append (x ∷ xs) ys =
      ap (λ l. x.events ++ l) (events_of-append xs ys) ∙ sym (append_assoc x.events _ _)

  -- From any point on, the events that follow lead to the state at the end.
  pub state_at-drop :
      (genesis : R.State) (full : List (Record R)) (at : Seq)
      → foldl R.evolve (state_at genesis full at) (events_of (drop at full))
        ≡ state_at genesis full (length full)
  unfolding state_at
  state_at-drop genesis full at =
      sym (foldl-append R.evolve genesis (events_of (take at full)) (events_of (drop at full)))
      ∙ ap (foldl R.evolve genesis) (sym (events_of-append (take at full) (drop at full)))
      ∙ ap (λ l. foldl R.evolve genesis (events_of l))
          (take-append-drop at full ∙ sym (take-length full))

  -- Records added later change nothing before them.
  pub state_at-append :
      (genesis : R.State) (full later : List (Record R)) (at : Seq)
      → at ≤ length full
      → state_at genesis (full ++ later) at ≡ state_at genesis full at
  unfolding state_at
  state_at-append genesis full later at h =
      ap (λ l. foldl R.evolve genesis (events_of l)) (take-append at full later h)

  get_elem?-append :
      (xs ys : List (Record R)) (i : ℕ) → i < length xs → get_elem? (xs ++ ys) i ≡ get_elem? xs i
  get_elem?-append [] ys i h = absurd (omega arith)
  get_elem?-append (x ∷ xs) ys zero h = refl
  get_elem?-append (x ∷ xs) ys (suc i) h = get_elem?-append xs ys i (omega arith)

  pub get_elem?-append_past :
      (xs ys : List (Record R)) (i : ℕ)
      → length xs ≤ i
      → get_elem? (xs ++ ys) i ≡ get_elem? ys (i - length xs)
  get_elem?-append_past [] ys i h = ap (get_elem? ys) (omega arith)
  get_elem?-append_past (x ∷ xs) ys zero h = absurd (omega arith)
  get_elem?-append_past (x ∷ xs) ys (suc i) h =
      get_elem?-append_past xs ys i (omega arith) ∙ ap (get_elem? ys) (omega arith)

  pub pos_at-append :
      (full later : List (Record R)) (at : Seq)
      → at ≤ length full
      → pos_at (full ++ later) at ≡ pos_at full at
  unfolding pos_at
  pos_at-append full later zero h = refl
  pos_at-append full later (suc n) h = ap pos_or (get_elem?-append full later n (omega arith))

  get_elem?-snoc :
      (xs : List (Record R)) (r : Record R) → get_elem? (xs ++ (r ∷ [])) (length xs) ≡ some r
  get_elem?-snoc [] r = refl
  get_elem?-snoc (x ∷ xs) r = get_elem?-snoc xs r

  take-snoc :
      (xs : List (Record R)) (r : Record R)
      → take (suc (length xs)) (xs ++ (r ∷ [])) ≡ xs ++ (r ∷ [])
  take-snoc [] r = refl
  take-snoc (x ∷ xs) r = ap (λ l. x ∷ l) (take-snoc xs r)

  pub pos_at-snoc :
      (full : List (Record R)) (r : Record R)
      → pos_at (full ++ (r ∷ [])) (suc (length full)) ≡ r.entropy_pos
  unfolding pos_at
  pos_at-snoc full r = ap pos_or (get_elem?-snoc full r)

  pub state_at-snoc :
      (genesis : R.State) (full : List (Record R)) (r : Record R)
      → state_at genesis (full ++ (r ∷ [])) (suc (length full))
        ≡ foldl R.evolve (state_at genesis full (length full)) r.events
  unfolding state_at
  state_at-snoc genesis full r =
      ap (λ l. foldl R.evolve genesis (events_of l))
        (take-snoc full r ∙ ap (λ l. l ++ (r ∷ [])) (sym (take-length full)))
      ∙ ap (foldl R.evolve genesis) (events_of-append (take (length full) full) (r ∷ []))
      ∙ foldl-append R.evolve genesis (events_of (take (length full) full)) (r.events ++ [])
      ∙ ap (foldl R.evolve (foldl R.evolve genesis (events_of (take (length full) full))))
          (append-nil r.events)

  -- A snapshot that the journal may hold: it has what the history determines at its sequence, which
  -- is neither past the head nor below the horizon.
  pub record IsSound (genesis : R.State) (full : List (Record R)) (horizon : ℕ) (s : Snapshot R)
      : Type 0 where
    pub within : s.at ≤ length full
    pub retained : horizon ≤ s.at
    pub state : s.state ≡ state_at genesis full s.at
    pub pos : s.entropy_pos ≡ pos_at full s.at

  -- The stream represents a history of which the records `gone` have been discarded.
  pub record IsFaithful (genesis : R.State) (gone : List (Record R)) (st : Stream R) : Type 0 where
    pub counted : length gone ≡ st.truncated
    pub based : st.snapshots ≢ []
    pub sound : All (IsSound genesis (gone ++ st.records) st.truncated) st.snapshots

  pub IsSound-append :
      (genesis : R.State) (full later : List (Record R)) (horizon : ℕ) (s : Snapshot R)
      → IsSound genesis full horizon s
      → IsSound genesis (full ++ later) horizon s
  IsSound-append genesis full later horizon s h = record {
    within = omega (arith, length-append {0} full later, h.within);
    retained = h.retained;
    state = h.state ∙ sym (state_at-append genesis full later s.at h.within);
    pos = h.pos ∙ sym (pos_at-append full later s.at h.within);
  }

  pub new_stream-IsFaithful :
      (genesis : R.State) → IsFaithful genesis [] (new_stream (genesis_snapshot genesis))
  unfolding new_stream genesis_snapshot state_at pos_at
  new_stream-IsFaithful genesis = record {
    counted = refl;
    based = λ e. cc;
    sound = (record { within = omega arith; retained = omega arith; state = refl; pos = refl }, tt);
  }
