-- ===== src/Replay/InSync.antt =====
-- The live aggregate and the in-memory journal stay in step: what is resumed is what is live.
use mathlib.Core.Path.{subst₂}
use ironstate.Prelude.{
  suc, ◌≡◌, refl, sym, ◌∙◌, ap, true, inl, inr, ◌⊎◌, List, [], ◌∷◌, ◌++◌, ok, err, arith, foldl,
  length, Result-cases, ltb,
}
use ironstate.Aggregate.{AggregateRules, Aggregate, from_state, evolve, decide_only}
use ironstate.Entropy.{CtxEntropy}
use ironstate.Entropy.Seeded.{Seed, ChaCha, seeded_at}
use ironstate.Journal.{DrawPos, StreamId, ExecuteError, rejected}
use ironstate.Memory.{Record, MemoryJournal, memory, new, append, put_stream}
use ironstate.Memory.History.{pos_at, state_at, state_at-snoc}
use ironstate.Memory.Represents.{Represents, new-Represents, append-Represents, appended}
use ironstate.Replay.{head_pos, head_pos_at, draws_or, execute, resume}
use ironstate.Replay.Execute.{execute-rejected, execute-ok}
use ironstate.Replay.Resume.{head-history, entropy_pos-head, resume-history}

-- The aggregate is what the history of its stream leads to.
pub record InSync {R : AggregateRules} (j : MemoryJournal R) (id : StreamId) (a : Aggregate R)
    : Type 0 where
  pub full : List (Record R)
  pub represents : Represents j id full
  pub current : a.state ≡ state_at j.genesis full (length full)

pub new-InSync :
    {R : AggregateRules} (genesis : R.State) (id : StreamId)
    → InSync (new {R = R} genesis) id (from_state genesis)
unfolding state_at new
new-InSync genesis id = record { full = []; represents = new-Represents genesis id; current = refl }

module _ {R : AggregateRules} {j : MemoryJournal R} {id : StreamId} where
  pub head_pos-history :
      {full : List (Record R)}
      → Represents j id full
      → head_pos (memory R) j id ≡ ok (pos_at full (length full))
  unfolding head_pos pos_at
  head_pos-history {full = []} r = rw (head-history r, head_pos_at)
  head_pos-history {full = x ∷ xs} r =
      let more : ltb 0 (length (x ∷ xs)) ≡ true = ground arith in
      rw (head-history r, head_pos_at) (rw (more, head_pos_at) (entropy_pos-head r))

  -- Resuming gives the live aggregate, and the entropy at the position recorded at the head.
  pub resume-InSync :
      {Rng : Type 0} (chacha : ChaCha Rng) (seed : Seed) (a : Aggregate R)
      → InSync j id a
      → (pos : DrawPos) × (head_pos (memory R) j id ≡ ok pos)
        × (resume (memory R) chacha j id seed ≡ ok (a, seeded_at chacha seed pos))
  resume-InSync chacha seed a h = (
    pos_at h.full (length h.full),
    head_pos-history h.represents,
    resume-history h.represents chacha seed
        ∙ ap (λ s. ok (from_state s, seeded_at chacha seed (pos_at h.full (length h.full))))
            (sym h.current),
  )

length-snoc {ℓ} : {A : Type ℓ} (xs : List A) (x : A) → length (xs ++ (x ∷ [])) ≡ suc (length xs)
length-snoc [] x = refl
length-snoc (y ∷ ys) x = ap suc (length-snoc ys x)

evolves :
    {R : AggregateRules} (a : Aggregate R) (events : List R.Event)
    → (foldl evolve a events).state ≡ foldl R.evolve a.state events
unfolding evolve
evolves a [] = refl
evolves a (e ∷ es) = evolves (evolve a e) es

-- The events applied to the live state lead where the history with their record leads.
pub evolve-appended :
    {R : AggregateRules} (genesis : R.State) (full : List (Record R)) (a : Aggregate R)
    (events : List R.Event) (pos : DrawPos)
    → a.state ≡ state_at genesis full (length full)
    → (foldl evolve a events).state
      ≡ state_at genesis
          (full ++ (appended events pos ∷ []))
          (length (full ++ (appended events pos ∷ [])))
evolve-appended {R} genesis full a events pos current =
    evolves a events
    ∙ ap (λ s. foldl R.evolve s events) current
    ∙ sym (state_at-snoc genesis full (appended events pos))
    ∙ ap (state_at genesis (full ++ (appended events pos ∷ [])))
        (sym (length-snoc full (appended events pos)))

module _ {R : AggregateRules} {Source : Type 0} (c : CtxEntropy R.Ctx Source) (j : MemoryJournal R)
    (id : StreamId) (a : Aggregate R) (cmd : R.Command) (ctx : R.Ctx) where
  -- The two ways in which a turn over this journal, which never fails to append, can end.
  pub execute-memory :
      InSync j id a
      → ((x : ExecuteError R) × ((execute (memory R) c j id a cmd ctx).3 ≡ err x)
          × ((execute (memory R) c j id a cmd ctx).0 ≡ j)
          × ((execute (memory R) c j id a cmd ctx).1 ≡ a))
        ⊎ ((events : List R.Event) × (pos : DrawPos) × ((execute (memory R) c j id a cmd ctx).0
              ≡ (append j id events pos).0)
            × ((execute (memory R) c j id a cmd ctx).1 ≡ foldl evolve a events)
            × ((execute (memory R) c j id a cmd ctx).3 ≡ ok (append j id events pos).1))
  execute-memory h =
      let readable = head_pos-history h.represents in
      let head = pos_at h.full (length h.full) in
      elim (Result-cases (decide_only a cmd ctx).0) [
        | inr (x, refused) ↦
            let out = execute-rejected (memory R) c j id a cmd ctx head x readable refused in
            inl (rejected x, ap (λ t. t.3) out, ap (λ t. t.0) out, ap (λ t. t.1) out)
        | inl (events, accepted) ↦
            let pos = draws_or c head (decide_only a cmd ctx).1 in
            let out =
              execute-ok (memory R) c j id a cmd ctx head events (append j id events pos).1 readable
                accepted refl in
            inr (events, pos, ap (λ t. t.0) out, ap (λ t. t.1) out, ap (λ t. t.3) out)
      ]

  pub append-InSync :
      (events : List R.Event) (pos : DrawPos)
      → InSync j id a
      → InSync (append j id events pos).0 id (foldl evolve a events)
  unfolding append put_stream
  append-InSync events pos h = record {
    full = h.full ++ (appended events pos ∷ []);
    represents = (append-Represents j id events pos h.represents).0;
    current = evolve-appended j.genesis h.full a events pos h.current;
  }

  -- A turn keeps the aggregate and the journal in step, whether it succeeds or fails.
  pub execute-InSync :
      InSync j id a
      → InSync (execute (memory R) c j id a cmd ctx).0 id (execute (memory R) c j id a cmd ctx).1
  execute-InSync h = elim (execute-memory h) [
    | inl (x, failed, same_j, same_a) ↦ subst₂ (λ k b. InSync k id b) (sym same_j) (sym same_a) h
    | inr (events, pos, next_j, next_a, done) ↦
        subst₂ (λ k b. InSync k id b) (sym next_j) (sym next_a) (append-InSync events pos h)
  ]
