-- ===== src/Subscription/Tests.antt =====
-- The theorems on subscriptions, at an account that mirrors another's deposits.
use ironstate.Prelude.{ℕ, ◌≤◌, ◌≡◌, refl, [], ◌∷◌, List, some, Result, ok, arith}
use ironstate.Prelude.Map.{get}
use ironstate.Aggregate.{Aggregate, from_state, decide_only, structural_check}
use ironstate.Entropy.{DeterministicCtx}
use ironstate.Journal.{Seq, ExecuteError}
use ironstate.Memory.{MemoryJournal, memory, new, append, head, stream_mut, put_stream}
use ironstate.Replay.{execute, execute_in, prepare, commit_pending, head_pos, draws_or}
use ironstate.Replay.InSync.{InSync, new-InSync}
use ironstate.Entropy.Seeded.{draws}
use ironstate.Subscription.{
  SourceEvent, React, Subscription, applied, duplicate, new as no_marks, mark, deliver, execute_all,
  Delivered,
}
use ironstate.Subscription.Marks.{deliver_again, deliver_mono}
use ironstate.Subscription.Targets.{deliver-InSync}
use ironstate.Examples.Ledger.{Command, LedgerEvent, deposited, deposit, open_account, decide}
use ironstate.Examples.Fixtures.{Entropy, rules, ctx_entropy, ctx_at, id}

mirror : LedgerEvent → List Command
mirror (deposited cents) = deposit cents ∷ []
mirror _ = []

abbrev mirroring : React rules rules
mirroring = record { react = λ a e at. mirror e }

-- Two events of one record: both have its sequence.
abbrev first_of_record : SourceEvent rules
first_of_record = record { stream = "source"; at = 1; event = deposited 5 }

abbrev second_of_record : SourceEvent rules
second_of_record = record { stream = "source"; at = 1; event = deposited 7 }

abbrev delivered :
    Subscription
    × MemoryJournal rules
    × Aggregate rules
    × DeterministicCtx Entropy ℕ
    × Result Delivered (ExecuteError rules)
delivered =
    deliver (memory rules) ctx_entropy id mirroring no_marks first_of_record
      (from_state open_account) (ctx_at 0) (new open_account)

first_applied : delivered.4 ≡ ok applied
unfolding deliver execute_all mirror execute execute_in prepare commit_pending decide_only
    structural_check decide append stream_mut put_stream get new head head_pos draws_or draws
first_applied = refl

deliver_again_example :
    deliver
      (memory rules)
      ctx_entropy
      id
      mirroring
      delivered.0
      second_of_record
      delivered.2
      (ctx_at 0)
      delivered.1
    ≡ (delivered.0, delivered.1, delivered.2, ctx_at 0, ok duplicate)
deliver_again_example =
    deliver_again (memory rules) ctx_entropy id mirroring no_marks first_of_record
      (from_state open_account) (ctx_at 0) (new open_account) first_applied second_of_record
      delivered.2 (ctx_at 0) delivered.1 refl (omega arith)

abbrev marked : Subscription
marked = record { marks = ("source", 1) ∷ [] }

deliver_mono_example :
    (m : Seq) × (mark
        (deliver
          (memory rules)
          ctx_entropy
          id
          mirroring
          marked
          (record { stream = "source"; at = 3; event = deposited 5 })
          (from_state open_account)
          (ctx_at 0)
          (new open_account)).0
        "source"
      ≡ some m)
    × (1 ≤ m)
deliver_mono_example =
    deliver_mono (memory rules) ctx_entropy id mirroring marked
      (record { stream = "source"; at = 3; event = deposited 5 }) (from_state open_account)
      (ctx_at 0) (new open_account) "source" 1 (unfold mark get in refl)

deliver-InSync_example : InSync delivered.1 id delivered.2
deliver-InSync_example =
    deliver-InSync ctx_entropy id mirroring no_marks first_of_record (from_state open_account)
      (ctx_at 0) (new open_account) (new-InSync open_account id)
