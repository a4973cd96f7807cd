-- ===== src/Contract/Driven.antt =====
-- What driving the in-memory journal with sampled commands keeps.
use native.Mathlib.Nat.{suc-mul}
use ironstate.Prelude.{
  ℕ, zero, suc, ◌+◌, ◌*◌, ◌≤◌, ◌<◌, ◌^◌, ◌≡◌, ◌≢◌, refl, sym, ◌∙◌, ap, subst, Bool, true, false,
  inl, inr, ◌⊎◌, List, [], ◌∷◌, ◌++◌, Option, none, some, Result, ok, err, ◌>>=◌, arith, foldl,
  length, Result-cases, Option-cases, Bool-cases, if◌then◌else◌, str_eq, eq_iff, false≢true, All,
  All-map, All-append, length-append,
}
use ironstate.Prelude.Map.{get, get-insert}
use ironstate.Aggregate.{AggregateRules, Aggregate, evolve, decide_only, from_state}
use ironstate.Entropy.Seeded.{Seed, seeded_at}
use ironstate.Journal.{Seq, DrawPos, StreamId, ExecuteError, rejected}
use ironstate.Memory.{
  Record, MemoryJournal, memory, new as new_memory, append, stream_mut, put_stream, new_stream,
  genesis_snapshot,
}
use ironstate.Memory.History.{pos_at, state_at, pos_at-append, pos_at-snoc}
use ironstate.Memory.Represents.{
  Represents, new-Represents, append-Represents, appended, stream_mut_self,
}
use ironstate.Replay.{head_pos as journal_head_pos, draws_or}
use ironstate.Replay.Execute.{CtxLaws, execute-rejected, execute-ok}
use ironstate.Replay.InSync.{InSync, head_pos-history, evolve-appended}
use ironstate.Contract.{Strategies, head_pos, turn, test_stream, other_stream}

-- What is asked of the sampled commands and states, the digest and the context: states are sampled
-- in the initial phase, the digest's equality holds of a digest and itself, contexts and generator
-- keep to their interfaces, a decision draws at most `spread` words and never moves the position back
-- while the 64-bit position has room for them, and the event type has a name.
pub record Lawful {R : AggregateRules} {Rng Digest Runner : Type 0}
    (s : Strategies R Rng Digest Runner) (spread : ℕ) : Type 0 where
  pub same : (d : Digest) → s.harness.same_digest d d ≡ true
  pub starts :
      (runner : Runner) → R.machine.eq (R.phase (s.initial runner).0) R.machine.initial ≡ true
  pub context : CtxLaws s.harness.ctx_entropy
  pub seeks :
      (pos : DrawPos) (rng : Rng)
      → pos < 2 ^ 64
      → s.harness.chacha.get_word_pos (s.harness.chacha.set_word_pos pos rng) ≡ pos
  pub forwards :
      (state : R.State) (cmd : R.Command) (seed : Seed) (pos : DrawPos) (now : ℕ)
      → pos + spread < 2 ^ 64
      → (pos
          ≤ draws_or s.harness.ctx_entropy pos
              (R.decide state cmd (s.harness.test_ctx (seeded_at s.harness.chacha seed pos) now)).1)
        × (draws_or s.harness.ctx_entropy pos
              (R.decide state cmd (s.harness.test_ctx (seeded_at s.harness.chacha seed pos) now)).1
            ≤ pos + spread)
  pub named : str_eq R.event_type "" ≡ false

-- The history's positions never decrease and are 64-bit words.
pub record IsAscending {R : AggregateRules} (full : List (Record R)) : Type 0 where
  pub ascending : (n : ℕ) → n < length full → pos_at full n ≤ pos_at full (suc n)
  pub small : (n : ℕ) → n ≤ length full → pos_at full n < 2 ^ 64

pub record IsDriven {R : AggregateRules} (genesis : R.State) (full : List (Record R))
    (j : MemoryJournal R) (a : Aggregate R) : Type 0 where
  pub represents : Represents j test_stream full
  pub current : a.state ≡ state_at genesis full (length full)
  pub origin : j.genesis ≡ genesis
  pub undiscarded : (stream_mut j test_stream).truncated ≡ 0
  pub based : (stream_mut j test_stream).snapshots ≡ genesis_snapshot genesis ∷ []
  pub apart : get j.streams other_stream ≡ none
  pub positions : IsAscending full

snoc-IsAscending :
    {R : AggregateRules} {full : List (Record R)} (events : List R.Event) (pos : DrawPos)
    → IsAscending full
    → pos_at full (length full) ≤ pos
    → pos < 2 ^ 64
    → IsAscending (full ++ (appended {R = R} events pos ∷ []))
snoc-IsAscending {R} {full} events pos h after word =
    let r : Record R = appended events pos in
    let size : length (full ++ (r ∷ [])) ≡ length full + 1 = length-append {0} full (r ∷ []) in
    let newest = pos_at-snoc full r in
    record {
      ascending = λ n below. elim (Bool-cases (ironstate.Prelude.ltb n (length full))) [
        | inl inside ↦
            let small : suc n ≤ length full = ground arith in
            omega (
              arith,
              h.ascending n (omega (arith, small)),
              pos_at-append full (r ∷ []) n (omega (arith, small)),
              pos_at-append full (r ∷ []) (suc n) small,
            )
        | inr outside ↦
            let end : n ≡ length full = ground (arith, size) in
            omega (
              arith,
              after,
              newest,
              ap (λ k. pos_at (full ++ (r ∷ [])) (suc k)) end,
              ap (pos_at (full ++ (r ∷ []))) end,
              pos_at-append full (r ∷ []) (length full) (omega arith),
            )
      ];
      small = λ n below. elim (Bool-cases (ironstate.Prelude.leb n (length full))) [
        | inl inside ↦
            let small : n ≤ length full = ground arith in
            subst (λ k. k < 2 ^ 64) (sym (pos_at-append full (r ∷ []) n small)) (h.small n small)
        | inr outside ↦
            let end : n ≡ suc (length full) = ground (arith, size) in
            subst (λ k. k < 2 ^ 64) (sym (ap (pos_at (full ++ (r ∷ []))) end ∙ newest)) word
      ];
    }

apart-streams : test_stream ≢ other_stream
apart-streams e = false≢true ((eq_iff test_stream other_stream).1 e)

pub IsDriven-InSync :
    {R : AggregateRules} {genesis : R.State} {full : List (Record R)} {j : MemoryJournal R}
    {a : Aggregate R}
    → IsDriven genesis full j a
    → InSync j test_stream a
IsDriven-InSync {full = full} h = record {
  full = full;
  represents = h.represents;
  current = h.current ∙ ap (λ g. state_at g full (length full)) (sym h.origin);
}

pub new-IsDriven :
    {R : AggregateRules} (genesis : R.State)
    → IsDriven {R = R} genesis [] (new_memory genesis) (from_state genesis)
unfolding new_memory stream_mut get new_stream pos_at state_at
new-IsDriven {R} genesis = record {
  represents = new-Represents genesis test_stream;
  current = refl;
  origin = refl;
  undiscarded = refl;
  based = refl;
  apart = refl;
  positions = record {
    ascending = λ n h. absurd (omega arith);
    small = λ n h.
        let start : 0 ≡ n = omega (arith, h) in
        subst (λ k. pos_at {R = R} [] k < 2 ^ 64) start (omega arith);
  };
}

pub append-IsDriven :
    {R : AggregateRules} {genesis : R.State} {full : List (Record R)} (j : MemoryJournal R)
    (a : Aggregate R) (h : IsDriven genesis full j a) (events : List R.Event) (pos : DrawPos)
    → pos_at full (length full) ≤ pos
    → pos < 2 ^ 64
    → IsDriven genesis
        (full ++ (appended events pos ∷ []))
        (append j test_stream events pos).0
        (foldl evolve a events)
unfolding append put_stream
append-IsDriven {genesis = genesis} {full} j a h events pos after word = record {
  represents = (append-Represents j test_stream events pos h.represents).0;
  current = evolve-appended genesis full a events pos h.current;
  origin = h.origin;
  undiscarded = ap (λ st. st.truncated) (stream_mut_self j test_stream _) ∙ h.undiscarded;
  based = ap (λ st. st.snapshots) (stream_mut_self j test_stream _) ∙ h.based;
  apart = get-insert test_stream other_stream _ j.streams ∙ h.apart;
  positions = snoc-IsAscending events pos h.positions after word;
}

-- The room for the draws of the steps that are left, after one of them.
pub room_left :
    (spread n pos old : ℕ)
    → old + suc n * spread < 2 ^ 64
    → pos ≤ old + spread
    → pos + n * spread < 2 ^ 64
room_left spread n pos old h up = omega (arith, suc-mul n spread)

pub room_now : (spread n pos : ℕ) → pos + suc n * spread < 2 ^ 64 → pos + spread < 2 ^ 64
room_now spread n pos h = omega (arith, suc-mul n spread)

pub newest_pos :
    {R : AggregateRules} (full : List (Record R)) (events : List R.Event) (pos : DrawPos)
    → pos_at
        (full ++ (appended {R = R} events pos ∷ []))
        (length (full ++ (appended {R = R} events pos ∷ [])))
      ≡ pos
newest_pos {R} full events pos =
    let r : Record R = appended events pos in
    let size : length (full ++ (r ∷ [])) ≡ suc (length full) =
      omega (arith, length-append {0} full (r ∷ [])) in
    ap (pos_at (full ++ (r ∷ []))) size ∙ pos_at-snoc full r

module _ {R : AggregateRules} {Rng Digest Runner : Type 0}
    (s : Strategies R Rng Digest Runner) where
  pub head_pos-contract :
      {J : Type 0} (jr : ironstate.Journal.Journal R J (Unit {0})) (j : J) (id : StreamId)
      (pos : DrawPos)
      → journal_head_pos jr j id ≡ ok pos
      → head_pos s jr j id ≡ ok pos
  unfolding head_pos journal_head_pos
  head_pos-contract jr j id pos h = ground arith

  -- The position at the head of a driven journal.
  pub head_pos-IsDriven :
      {genesis : R.State} {full : List (Record R)} {j : MemoryJournal R} {a : Aggregate R}
      (h : IsDriven genesis full j a)
      → head_pos s (memory R) j test_stream ≡ ok (pos_at full (length full))
  head_pos-IsDriven {j = j} h =
      head_pos-contract (memory R) j test_stream _ (head_pos-history h.represents)

  decided_ctx :
      (a : Aggregate R) (cmd : R.Command) (ctx : R.Ctx) (events : List R.Event)
      → (decide_only a cmd ctx).0 ≡ ok events
      → (decide_only a cmd ctx).1 ≡ (R.decide a.state cmd ctx).1
  unfolding decide_only
  decided_ctx a cmd ctx events h = ground arith

  module _ {spread : ℕ} (laws : Lawful s spread) (seed : Seed) (step : ℕ) (cmd : R.Command)
      {genesis : R.State} {full : List (Record R)} (j : MemoryJournal R) (a : Aggregate R)
      (h : IsDriven genesis full j a) (space : pos_at full (length full) + spread < 2 ^ 64) where
    -- A turn is refused and leaves everything, or appends what was decided, at a position that is
    -- later by at most the spread.
    pub turn-IsDriven :
        ((x : ExecuteError R) × (turn s (memory R) seed step cmd j a ≡ ok (j, a, err x)))
        ⊎ ((events : List R.Event) × (pos : DrawPos) × (pos_at full (length full) ≤ pos)
            × (pos ≤ pos_at full (length full) + spread)
            × (turn s (memory R) seed step cmd j a
                ≡ ok (
                  (append j test_stream events pos).0,
                  foldl evolve a events,
                  ok (suc (length full)),
                )))
    unfolding turn
    turn-IsDriven =
        let pos = pos_at full (length full) in
        let c = s.harness.ctx_entropy in
        let ctx = s.harness.test_ctx (seeded_at s.harness.chacha seed pos) step in
        let readable = head_pos-history h.represents in
        let start = head_pos-IsDriven h in
        elim (Result-cases (decide_only a cmd ctx).0) [
          | inr (x, refused) ↦ inl (
            rejected x,
            rw start (
                ap (λ t. ok (t.0, t.1, t.3))
                  (execute-rejected (memory R) c j test_stream a cmd ctx pos x readable refused)),
          )
          | inl (events, accepted) ↦
              let after = draws_or c pos (decide_only a cmd ctx).1 in
              let there : after ≡ draws_or c pos (R.decide a.state cmd ctx).1 =
                ap (draws_or c pos) (decided_ctx a cmd ctx events accepted) in
              let law = laws.forwards a.state cmd seed pos step space in
              let (extended, numbered) =
                append-Represents j test_stream events after h.represents in
              inr (
                events,
                after,
                subst (λ p. pos ≤ p) (sym there) law.0,
                subst (λ p. p ≤ pos + spread) (sym there) law.1,
                rw start (
                    ap (λ t. ok (t.0, t.1, t.3))
                      (execute-ok (memory R) c j test_stream a cmd ctx pos events
                        (append j test_stream events after).1 readable accepted refl)
                    ∙ ap
                        (λ n.
                          ok ((append j test_stream events after).0, foldl evolve a events, ok n))
                        numbered),
              )
        ]
