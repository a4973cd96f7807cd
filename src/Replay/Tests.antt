-- ===== src/Replay/Tests.antt =====
-- The theorems on the persistent loop, at an account of the ledger.
use ironstate.Prelude.{◌<◌, ◌^◌, ◌≡◌, refl, ok, err}
use ironstate.Prelude.Map.{get, insert}
use ironstate.Aggregate.{from_state, decide_only, structural_check, domain, evolve}
use ironstate.Entropy.Seeded.{seeded_at, draws}
use ironstate.Journal.{DrawPos, JournalError, rejected}
use ironstate.Memory.{
  memory, new, append, snapshot, truncate_before, head, entropy_pos, from_seq, stream_mut,
  put_stream, stream_head, record_at, new_stream, genesis_snapshot, cut, latest_snapshot_at, max,
  events_since, stamp_all, stamp, latest_snapshot, max_by_at,
}
use ironstate.Replay.{
  head_pos, execute, resume, draws_or, prepare, commit_pending, execute_in, base_of, resume_pos,
  replay, commit,
}
use ironstate.Replay.Execute.{execute-err}
use ironstate.Replay.Session.{
  Session, Reach, turn, checkpoint, truncation, here, next, resume-Reach,
}
use ironstate.Examples.Ledger
use ironstate.Examples.Ledger.{open_phase, deposit, withdraw, open_account, decide, overdraft}
use ironstate.Examples.Fixtures.{
  rules, counter, seed, ctx_entropy, ctx_at, ctx-laws, memory-atomic, id, after,
}

abbrev start : Session rules
start = record { journal = new open_account; aggregate = from_state open_account }

abbrev deposited_5 : Session rules
deposited_5 =
    let (j, a) = after start.journal start.aggregate (deposit 5) in
    record { journal = j; aggregate = a }

-- The position that the deposit recorded: the context's, which nothing was drawn from.
head_pos_5 : head_pos (memory rules) deposited_5.journal id ≡ ok 4
unfolding execute execute_in prepare commit_pending decide_only structural_check decide append
    stream_mut put_stream insert get new head entropy_pos stream_head record_at head_pos draws_or
    draws new_stream genesis_snapshot
head_pos_5 = refl

abbrev checkpointed : Session rules
checkpointed = record deposited_5 {
  journal = snapshot deposited_5.journal id (record {
    state = deposited_5.aggregate.state;
    schema_version = 1;
    at = from_seq (head deposited_5.journal id);
    entropy_pos = 4;
  });
}

-- Every record is discarded.
abbrev cut_off : Session rules
cut_off = record checkpointed { journal = (truncate_before checkpointed.journal id 2).0 }

abbrev withdrawn_2 : Session rules
withdrawn_2 =
    let (j, a) = after cut_off.journal cut_off.aggregate (withdraw 2) in
    record { journal = j; aggregate = a }

trace : Reach ctx_entropy counter seed id start withdrawn_2
trace =
    next
      (next
        (next (next here (turn (deposit 5) (ctx_at 4) refl refl))
          (checkpoint 1 4 head_pos_5 refl refl))
        (truncation 2 refl refl))
      (turn (withdraw 2) (ctx_at 4) refl refl)

-- After a deposit, a snapshot, a truncation of everything and a withdrawal.
resume-Reach_example :
    (pos : DrawPos) × (head_pos (memory rules) withdrawn_2.journal id ≡ ok pos)
    × (resume (memory rules) counter withdrawn_2.journal id seed
        ≡ ok (withdrawn_2.aggregate, seeded_at counter seed pos))
resume-Reach_example = resume-Reach ctx_entropy counter seed id open_account withdrawn_2 trace

-- What the same run computes to.
resumed_balance :
    resume (memory rules) counter withdrawn_2.journal id seed
    ≡ ok (
      record { state = record { phase = open_phase; balance_cents = 3 } },
      record { rng = 4; seed = seed },
    )
unfolding execute execute_in prepare commit_pending decide_only structural_check decide append
    stream_mut put_stream insert get new head entropy_pos stream_head record_at head_pos draws_or
    draws new_stream genesis_snapshot snapshot truncate_before cut latest_snapshot_at max resume
    base_of resume_pos replay evolve Ledger.evolve seeded_at events_since stamp_all stamp
    latest_snapshot max_by_at commit
resumed_balance = refl

overdrawn :
    (execute (memory rules) ctx_entropy start.journal id start.aggregate (withdraw 1) (ctx_at 0)).3
    ≡ err (rejected (domain overdraft))
unfolding execute execute_in prepare decide_only structural_check decide new head head_pos get
overdrawn = refl

-- A withdrawal from the empty account.
execute-err_example :
    let out =
      execute (memory rules) ctx_entropy start.journal id start.aggregate (withdraw 1) (ctx_at 0) in
    (out.0 ≡ start.journal)
    × (out.1 ≡ start.aggregate)
    × ((at : DrawPos)
        → head_pos (memory rules) start.journal id ≡ ok at
        → at < 2 ^ 64
        → draws_or ctx_entropy at out.2 ≡ at)
    × ((e : JournalError) → head_pos (memory rules) start.journal id ≡ err e → out.2 ≡ ctx_at 0)
execute-err_example =
    execute-err (memory rules) ctx_entropy start.journal id start.aggregate (withdraw 1) (ctx_at 0)
      ctx-laws memory-atomic (rejected (domain overdraft)) overdrawn
