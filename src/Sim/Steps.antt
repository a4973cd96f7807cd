-- ===== src/Sim/Steps.antt =====
-- One command of the simulation, under each fault: it does what it does without faults.
use ironstate.Prelude.{
  ℕ, ◌<◌, ◌≡◌, refl, sym, ◌∙◌, ap, subst, Bool, true, false, inl, inr, ◌⊎◌, List, [], ◌∷◌, ◌++◌,
  Option, none, some, Result, ok, err, arith, foldl, Result-cases, Option-cases, Bool-cases, ltb,
  length, if◌then◌else◌,
}
use ironstate.Aggregate.{AggregateRules, Aggregate, Rejection, evolve, decide_only}
use ironstate.Entropy.Seeded.{Seed, ChaCha, seeded_at}
use ironstate.Journal.{
  Seq, DrawPos, StreamId, JournalError, storage, ExecuteError, rejected, journal, Journal,
}
use ironstate.Memory.{MemoryJournal, memory, append, stream_mut, head, fork, from_seq}
use ironstate.Memory.Branch.{fork-head_ok}
use ironstate.Replay.Resume.{head-history}
use ironstate.Replay.Session.{head-length, fork-InSync}
use ironstate.Memory.History.{pos_at}
use ironstate.Memory.Represents.{stream_mut_self}
use ironstate.Replay.{head_pos, execute, resume, draws_or}
use ironstate.Replay.Execute.{execute-rejected, execute-failed, execute-ok}
use ironstate.Replay.InSync.{InSync, head_pos-history, append-InSync, resume-InSync}
use ironstate.Sim.{
  Harness, FaultInjector, new, arm_append_failure, injector, injected_append, scenario, exec_step,
  step_at, retried, crashed, compared, branched, forked_off, plain, faulted_step, Fault,
  append_failure, crash_resume, fork_continue, duplicate_delivery, reorder_delivery,
  plant_old_version,
}

module _ {R : AggregateRules} {J Tx : Type 0} (jr : Journal R J Tx) (f : FaultInjector J)
    (id : StreamId) where
  -- The injector reads as the journal inside it does.
  pub head_pos-injector : head_pos (injector jr) f id ≡ head_pos jr f.inner id
  unfolding head_pos
  head_pos-injector = ground arith

  pub resume-injector :
      {Rng : Type 0} (chacha : ChaCha Rng) (seed : Seed)
      → resume (injector jr) chacha f id seed ≡ resume jr chacha f.inner id seed
  unfolding resume
  resume-injector chacha seed = ground arith

-- The live aggregate is in step with its journal, and nothing was discarded.
pub record IsLive {R : AggregateRules} (j : MemoryJournal R) (a : Aggregate R) : Type 0 where
  pub in_sync : InSync j scenario a
  pub undiscarded : (stream_mut j scenario).truncated ≡ 0

append-undiscarded :
    {R : AggregateRules} (j : MemoryJournal R) (events : List R.Event) (pos : DrawPos)
    → (stream_mut (append j scenario events pos).0 scenario).truncated
      ≡ (stream_mut j scenario).truncated
unfolding append
append-undiscarded j events pos = ap (λ st. st.truncated) (stream_mut_self j scenario _)

-- A step whose head can be read is a turn of the loop in the context made for it.
stepped :
    {R : AggregateRules} {Rng Digest Runner J : Type 0} (h : Harness R Rng Digest Runner)
    (seed : Seed) (jr : Journal R J (Unit {0})) (j j' : J) (a a' : Aggregate R) (cmd : R.Command)
    (pos : DrawPos) (ctx : R.Ctx) (r : Result Seq (ExecuteError R))
    → head_pos jr j scenario ≡ ok pos
    → execute jr h.ctx_entropy j scenario a cmd (h.test_ctx (seeded_at h.chacha seed pos) 0)
      ≡ (j', a', ctx, r)
    → exec_step h seed jr j a cmd ≡ some (j', a', r)
unfolding exec_step
stepped h seed jr j j' a a' cmd pos ctx r readable done =
    rw (readable, step_at) (ap (λ t. some (t.0, t.1, t.3)) done)

module _ {R : AggregateRules} {Rng Digest Runner : Type 0} (h : Harness R Rng Digest Runner)
    (seed : Seed) (j : MemoryJournal R) (a : Aggregate R) (cmd : R.Command) where
  -- How one command ends without faults, through the journal and through the injector, armed or not.
  pub data Outcome : Type 0 where
    refused :
        (x : Rejection R)
        → exec_step h seed (memory R) j a cmd ≡ some (j, a, err (rejected x))
        → exec_step h seed (injector (memory R)) (new j) a cmd ≡ some (new j, a, err (rejected x))
        → exec_step h seed (injector (memory R)) (arm_append_failure (new j)) a cmd
          ≡ some (arm_append_failure (new j), a, err (rejected x))
        → Outcome
    committed :
        (k : MemoryJournal R) (b : Aggregate R) (seq : Seq) (e : JournalError)
        → IsLive k b
        → exec_step h seed (memory R) j a cmd ≡ some (k, b, ok seq)
        → exec_step h seed (injector (memory R)) (new j) a cmd ≡ some (new k, b, ok seq)
        → exec_step h seed (injector (memory R)) (arm_append_failure (new j)) a cmd
          ≡ some (new j, a, err (journal e))
        → Outcome

  pub outcome : IsLive j a → Outcome
  unfolding injected_append
  outcome live =
      let full = live.in_sync.full in
      let pos = pos_at full (length full) in
      let readable = head_pos-history live.in_sync.represents in
      let injected = head_pos-injector (memory R) (new j) scenario ∙ readable in
      let armed = head_pos-injector (memory R) (arm_append_failure (new j)) scenario ∙ readable in
      let ctx = h.test_ctx (seeded_at h.chacha seed pos) 0 in
      let c = h.ctx_entropy in
      let mem = memory R in
      let inj = injector (memory R) in
      elim (Result-cases (decide_only a cmd ctx).0) [
        | inr (x, no_events) ↦
            refused x
              (stepped h seed mem j j a a cmd pos _ _ readable
                (execute-rejected mem c j scenario a cmd ctx pos x readable no_events))
              (stepped h seed inj (new j) (new j) a a cmd pos _ _ injected
                (execute-rejected inj c (new j) scenario a cmd ctx pos x injected no_events))
              (stepped h seed inj (arm_append_failure (new j)) (arm_append_failure (new j)) a a cmd
                pos _ _ armed
                (execute-rejected inj c (arm_append_failure (new j)) scenario a cmd ctx pos x armed
                  no_events))
        | inl (events, decided) ↦
            let draws = draws_or c pos (decide_only a cmd ctx).1 in
            let k = (append j scenario events draws).0 in
            let seq = (append j scenario events draws).1 in
            committed k (foldl evolve a events) seq (storage "injected append failure")
              (record {
                in_sync = append-InSync c j scenario a cmd ctx events draws live.in_sync;
                undiscarded = append-undiscarded j events draws ∙ live.undiscarded;
              })
              (stepped h seed mem j k a (foldl evolve a events) cmd pos _ _ readable
                (execute-ok mem c j scenario a cmd ctx pos events seq readable decided refl))
              (stepped h seed inj (new j) (new k) a (foldl evolve a events) cmd pos _ _ injected
                (execute-ok inj c (new j) scenario a cmd ctx pos events seq injected decided refl))
              (stepped h seed inj (arm_append_failure (new j)) (new j) a a cmd pos _ _ armed (
                execute-failed inj c (arm_append_failure (new j)) scenario a cmd ctx pos events
                  (storage "injected append failure") armed decided refl))
      ]

module _ {R : AggregateRules} {Rng Digest Runner : Type 0} (h : Harness R Rng Digest Runner)
    (seed : Seed) (same : (d : Digest) → h.same_digest d d ≡ true) where
  -- A crash and a resume give back the live aggregate.
  crashed_live :
      (k : MemoryJournal R) (b : Aggregate R) (r : Result Seq (ExecuteError R))
      → IsLive k b
      → crashed h seed (some (new k, b, r)) ≡ some (new k, b)
  unfolding crashed
  crashed_live k b r live =
      let (pos, p, resumed) = resume-InSync h.chacha seed b live.in_sync in
      rw (resume-injector (memory R) (new k) scenario h.chacha seed, resumed, crashed) refl

  compared_live :
      (k branch : MemoryJournal R) (b : Aggregate R)
      → InSync branch scenario b
      → compared h seed (new k) b (ok (new branch)) ≡ some (new k, b)
  unfolding compared
  compared_live k branch b sync =
      let (pos, p, resumed) = resume-InSync h.chacha seed b sync in
      rw
        (
          resume-injector (memory R) (new branch) scenario h.chacha seed,
          resumed,
          same (h.digest b.state),
          compared,
        )
        refl

  -- The branch at the head can be taken, and reproduces the live state.
  forked_live :
      (k : MemoryJournal R) (b : Aggregate R) (r : Result Seq (ExecuteError R))
      → IsLive k b
      → forked_off h seed (some (new k, b, r)) ≡ some (new k, b)
  unfolding forked_off branched fork ironstate.Prelude.Map.get
  forked_live k b r live = elim (Option-cases (head k scenario)) [
    | inl empty ↦ rw (empty, branched)
    | inr (at, top) ↦
        let full = live.in_sync.full in
        let at_end : at ≡ length full = ap from_seq (sym top) ∙ head-length live.in_sync in
        let shown : some at ≡ (if ltb 0 (length full) then some (length full) else none) =
          sym top ∙ head-history live.in_sync.represents in
        let more : (stream_mut k scenario).truncated < length full =
          ground (arith, live.undiscarded) in
        let (branch, forked) = fork-head_ok k scenario live.in_sync.represents more in
        let at_head : fork k scenario at ≡ ok branch = ap (fork k scenario) at_end ∙ forked in
        rw (top, branched)
          (rw (at_head, branched)
            (compared_live k branch b (fork-InSync branch at live.in_sync top at_head)))
  ]

  refused_faulted :
      (j : MemoryJournal R) (a : Aggregate R) (cmd : R.Command) (x : Rejection R)
      → IsLive j a
      → exec_step h seed (injector (memory R)) (new j) a cmd ≡ some (new j, a, err (rejected x))
      → exec_step h seed (injector (memory R)) (arm_append_failure (new j)) a cmd
        ≡ some (arm_append_failure (new j), a, err (rejected x))
      → (fault : Option Fault) → faulted_step h seed fault cmd (new j) a ≡ some (new j, a)
  unfolding faulted_step retried plain
  refused_faulted j a cmd x live inj armed (some append_failure) = rw (armed) refl
  refused_faulted j a cmd x live inj armed (some (crash_resume at)) =
      rw (inj) (crashed_live j a (err (rejected x)) live)
  refused_faulted j a cmd x live inj armed (some (fork_continue at)) =
      rw (inj) (forked_live j a (err (rejected x)) live)
  refused_faulted j a cmd x live inj armed (some (duplicate_delivery at)) = rw (inj) refl
  refused_faulted j a cmd x live inj armed (some (reorder_delivery w)) = rw (inj) refl
  refused_faulted j a cmd x live inj armed (some (plant_old_version v)) = rw (inj) refl
  refused_faulted j a cmd x live inj armed none = rw (inj) refl

  committed_faulted :
      (j k : MemoryJournal R) (a b : Aggregate R) (cmd : R.Command) (seq : Seq) (e : JournalError)
      → IsLive k b
      → exec_step h seed (injector (memory R)) (new j) a cmd ≡ some (new k, b, ok seq)
      → exec_step h seed (injector (memory R)) (arm_append_failure (new j)) a cmd
        ≡ some (new j, a, err (journal e))
      → (fault : Option Fault) → faulted_step h seed fault cmd (new j) a ≡ some (new k, b)
  unfolding faulted_step retried plain
  committed_faulted j k a b cmd seq e live inj armed (some append_failure) =
      rw (armed, retried) (rw (inj, retried) refl)
  committed_faulted j k a b cmd seq e live inj armed (some (crash_resume at)) =
      rw (inj) (crashed_live k b (ok seq) live)
  committed_faulted j k a b cmd seq e live inj armed (some (fork_continue at)) =
      rw (inj) (forked_live k b (ok seq) live)
  committed_faulted j k a b cmd seq e live inj armed (some (duplicate_delivery at)) = rw (inj) refl
  committed_faulted j k a b cmd seq e live inj armed (some (reorder_delivery w)) = rw (inj) refl
  committed_faulted j k a b cmd seq e live inj armed (some (plant_old_version v)) = rw (inj) refl
  committed_faulted j k a b cmd seq e live inj armed none = rw (inj) refl

  -- Under every fault a command ends as it does without, and nothing panics.
  pub faulted_step-IsLive :
      (j : MemoryJournal R) (a : Aggregate R) (cmd : R.Command)
      → IsLive j a
      → (k : MemoryJournal R) × (b : Aggregate R) × (r : Result Seq (ExecuteError R)) × (exec_step h
            seed
            (memory R)
            j
            a
            cmd
          ≡ some (k, b, r))
        × IsLive k b
        × ((fault : Option Fault) → faulted_step h seed fault cmd (new j) a ≡ some (new k, b))
  faulted_step-IsLive j a cmd live = elim (outcome h seed j a cmd live) [
    | refused x mem inj armed ↦
        (j, a, err (rejected x), mem, live, refused_faulted j a cmd x live inj armed)
    | committed k b seq e live' mem inj armed ↦
        (k, b, ok seq, mem, live', committed_faulted j k a b cmd seq e live' inj armed)
  ]
