-- ===== src/Replay/Session.antt =====
-- Everything that can happen to a stream and its live aggregate, as a step relation: turns of the
-- loop that succeed or fail, snapshots, truncations accepted or refused, branches taken at the head,
-- restarts, and writes to the other streams of the journal.
use mathlib.Core.Path.{subst₂}
use ironstate.Prelude.{
  take, take-length, ℕ, ◌≡◌, ◌≢◌, refl, sym, ◌∙◌, ap, subst, List, some, ok, length, arith,
  Bool-cases, ltb, inl, inr,
}
use ironstate.Aggregate.{AggregateRules, Aggregate, from_state}
use ironstate.Entropy.{CtxEntropy}
use ironstate.Entropy.Seeded.{Seed, ChaCha, SeededEntropy, seeded_at}
use ironstate.Journal.{Seq, DrawPos, StreamId, Snapshot}
use ironstate.Memory.{
  MemoryJournal, memory, new, append, snapshot, truncate_before, fork, head, from_seq,
}
use ironstate.Replay.{head_pos, execute, resume}
use ironstate.Memory.History.{state_at, pos_at}
use ironstate.Memory.Represents.{
  Represents, append-Represents_other, snapshot-Represents, snapshot-Represents_other,
  append-genesis, snapshot-genesis,
}
use ironstate.Memory.Retention.{
  truncate_before-Represents, truncate_before-Represents_other, truncate_before-genesis,
}
use ironstate.Memory.Branch.{fork-Represents, fork-genesis}
use ironstate.Replay.Resume.{head-history, count-length}
use ironstate.Replay.InSync.{InSync, new-InSync, head_pos-history, execute-InSync, resume-InSync}

pub record Session (R : AggregateRules) : Type 0 where
  pub journal : MemoryJournal R
  pub aggregate : Aggregate R

module _ {R : AggregateRules} {Source Rng : Type 0} (c : CtxEntropy R.Ctx Source)
    (chacha : ChaCha Rng) (seed : Seed) (id : StreamId) where
  pub data Step (s t : Session R) : Type 0 where
    turn :
        (cmd : R.Command) (ctx : R.Ctx)
        → t.journal ≡ (execute (memory R) c s.journal id s.aggregate cmd ctx).0
        → t.aggregate ≡ (execute (memory R) c s.journal id s.aggregate cmd ctx).1
        → Step s t
    -- A snapshot of the live state at the head, with the position recorded there.
    checkpoint :
        (version : ℕ) (pos : DrawPos)
        → head_pos (memory R) s.journal id ≡ ok pos
        → t.journal
          ≡ snapshot s.journal id (record {
            state = s.aggregate.state;
            schema_version = version;
            at = from_seq (head s.journal id);
            entropy_pos = pos;
          })
        → t.aggregate ≡ s.aggregate
        → Step s t
    truncation :
        (at : Seq)
        → t.journal ≡ (truncate_before s.journal id at).0
        → t.aggregate ≡ s.aggregate
        → Step s t
    branch :
        (at : Seq)
        → head s.journal id ≡ some at
        → fork s.journal id at ≡ ok t.journal
        → t.aggregate ≡ s.aggregate
        → Step s t
    restart :
        (entropy : SeededEntropy Rng)
        → t.journal ≡ s.journal
        → resume (memory R) chacha s.journal id seed ≡ ok (t.aggregate, entropy)
        → Step s t
    append_elsewhere :
        (other : StreamId) (events : List R.Event) (pos : DrawPos)
        → other ≢ id
        → t.journal ≡ (append s.journal other events pos).0
        → t.aggregate ≡ s.aggregate
        → Step s t
    snapshot_elsewhere :
        (other : StreamId) (any : Snapshot R)
        → other ≢ id
        → t.journal ≡ snapshot s.journal other any
        → t.aggregate ≡ s.aggregate
        → Step s t
    truncation_elsewhere :
        (other : StreamId) (at : Seq)
        → other ≢ id
        → t.journal ≡ (truncate_before s.journal other at).0
        → t.aggregate ≡ s.aggregate
        → Step s t

  pub data Reach (s : Session R) : Session R → Type 0 where
    here : Reach s s
    next : {t u : Session R} → Reach s t → Step t u → Reach s u

module _ {R : AggregateRules} {j : MemoryJournal R} {id : StreamId} {a : Aggregate R} where
  -- A write that keeps the history and the genesis keeps the two in step.
  kept :
      (k : MemoryJournal R) (h : InSync j id a)
      → k.genesis ≡ j.genesis
      → Represents k id h.full
      → InSync k id a
  kept k h same r = record {
    full = h.full;
    represents = r;
    current = h.current ∙ ap (λ g. state_at g h.full (length h.full)) (sym same);
  }

  pub head-length : (h : InSync j id a) → from_seq (head j id) ≡ length h.full
  head-length h = elim (Bool-cases (ltb 0 (length h.full))) [
    | inl more ↦ rw (head-history h.represents, from_seq) (rw (more, from_seq))
    | inr empty ↦ rw (head-history h.represents, from_seq) (rw (empty, from_seq) (ground arith))
  ]

  snapshot-InSync :
      (s : Snapshot R) (h : InSync j id a)
      → s.state ≡ a.state
      → s.at ≡ from_seq (head j id)
      → head_pos (memory R) j id ≡ ok s.entropy_pos
      → InSync (snapshot j id s) id a
  snapshot-InSync s h same_state same_at same_pos =
      let at_end : s.at ≡ length h.full = same_at ∙ head-length h in
      let recorded : ok s.entropy_pos ≡ ok (pos_at h.full (length h.full)) =
        sym same_pos ∙ head_pos-history h.represents in
      let pos : s.entropy_pos ≡ pos_at h.full (length h.full) = cc recorded in
      kept (snapshot j id s) h (snapshot-genesis j id s) (
        snapshot-Represents j id s h.represents (record {
          within = omega (arith, at_end);
          retained = omega (arith, at_end, count-length h.represents);
          state = same_state ∙ h.current ∙ ap (state_at j.genesis h.full) (sym at_end);
          pos = pos ∙ ap (pos_at h.full) (sym at_end);
        }))

  pub fork-InSync :
      (b : MemoryJournal R) (at : Seq) (h : InSync j id a)
      → head j id ≡ some at
      → fork j id at ≡ ok b
      → InSync b id a
  fork-InSync b at h top forked =
      let at_end : at ≡ length h.full = ap from_seq (sym top) ∙ head-length h in
      kept b h (fork-genesis j id at b forked) (
        subst (Represents b id) (ap (λ n. take n h.full) at_end ∙ take-length h.full)
          (fork-Represents j b id at h.represents forked))

-- A step keeps the two in step.
Step-InSync :
    {R : AggregateRules} {Source Rng : Type 0} {c : CtxEntropy R.Ctx Source} {chacha : ChaCha Rng}
    {seed : Seed} {id : StreamId} {s t : Session R}
    → Step c chacha seed id s t
    → InSync s.journal id s.aggregate
    → InSync t.journal id t.aggregate
Step-InSync {c = c} {id = id} {s = s} (turn cmd ctx ej ea) h =
    subst₂ (λ k b. InSync k id b) (sym ej) (sym ea)
      (execute-InSync c s.journal id s.aggregate cmd ctx h)
Step-InSync {id = id} {s = s} (checkpoint version pos p ej ea) h =
    subst₂ (λ k b. InSync k id b) (sym ej) (sym ea) (snapshot-InSync _ h refl refl p)
Step-InSync {id = id} {s = s} (truncation at ej ea) h =
    subst₂ (λ k b. InSync k id b) (sym ej) (sym ea)
      (kept _ h (truncate_before-genesis s.journal id at)
        (truncate_before-Represents s.journal id at h.represents))
Step-InSync {id = id} {s = s} {t = t} (branch at top forked ea) h =
    subst (λ b. InSync t.journal id b) (sym ea) (fork-InSync t.journal at h top forked)
Step-InSync {chacha = chacha} {seed = seed} {id = id} {s = s} {t = t} (restart entropy ej again) h =
    let (pos, p, resumed) = resume-InSync chacha seed s.aggregate h in
    let same : ok (s.aggregate, seeded_at chacha seed pos) ≡ ok (t.aggregate, entropy) =
      sym resumed ∙ again in
    let ea : s.aggregate ≡ t.aggregate = cc same in subst₂ (λ k b. InSync k id b) (sym ej) ea h
Step-InSync {id = id} {s = s} (append_elsewhere other events pos n ej ea) h =
    subst₂ (λ k b. InSync k id b) (sym ej) (sym ea)
      (kept _ h (append-genesis s.journal other events pos)
        (append-Represents_other s.journal other id events pos n h.represents))
Step-InSync {id = id} {s = s} (snapshot_elsewhere other any n ej ea) h =
    subst₂ (λ k b. InSync k id b) (sym ej) (sym ea)
      (kept _ h (snapshot-genesis s.journal other any)
        (snapshot-Represents_other s.journal other id any n h.represents))
Step-InSync {id = id} {s = s} (truncation_elsewhere other at n ej ea) h =
    subst₂ (λ k b. InSync k id b) (sym ej) (sym ea)
      (kept _ h (truncate_before-genesis s.journal other at)
        (truncate_before-Represents_other s.journal other at id n h.represents))

Reach-InSync :
    {R : AggregateRules} {Source Rng : Type 0} {c : CtxEntropy R.Ctx Source} {chacha : ChaCha Rng}
    {seed : Seed} {id : StreamId} {s t : Session R}
    → InSync s.journal id s.aggregate
    → Reach c chacha seed id s t
    → InSync t.journal id t.aggregate
Reach-InSync h here = h
Reach-InSync h (next r st) = Step-InSync st (Reach-InSync h r)

-- From a new journal over a genesis state and an aggregate in it, after any sequence of turns
-- of the loop (successful or failed), snapshots of the live state at the head, truncations
-- (accepted or refused), forks at the head, restarts, and any writes to other streams of the
-- same journal, resuming succeeds and gives exactly the live aggregate, with the entropy at the
-- position recorded at the head.
pub resume-Reach :
    {R : AggregateRules} {Source Rng : Type 0} (c : CtxEntropy R.Ctx Source) (chacha : ChaCha Rng)
    (seed : Seed) (id : StreamId) (genesis : R.State) (t : Session R)
    → Reach c chacha seed id (record { journal = new genesis; aggregate = from_state genesis }) t
    → (pos : DrawPos) × (head_pos (memory R) t.journal id ≡ ok pos)
      × (resume (memory R) chacha t.journal id seed ≡ ok (t.aggregate, seeded_at chacha seed pos))
resume-Reach c chacha seed id genesis t r =
    resume-InSync chacha seed t.aggregate (Reach-InSync (new-InSync genesis id) r)
