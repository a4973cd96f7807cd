-- ===== src/Memory/Tests.antt =====
-- The theorems on the in-memory journal, at histories of an account.
use ironstate.Prelude.{◌<◌, ◌≡◌, ◌≢◌, refl, [], ◌∷◌, some, ok, err, arith, false≢true, eq_iff}
use ironstate.Prelude.Map.{get, insert}
use ironstate.Journal.{no_snapshot_for_truncation}
use ironstate.Memory.{
  Record, MemoryJournal, new, append, snapshot, fork, truncate_before, retained_from, stream_mut,
  put_stream, new_stream, genesis_snapshot, latest_snapshot_at, max,
}
use ironstate.Memory.History.{state_at, pos_at, events_of}
use ironstate.Memory.Represents.{
  Represents, new-Represents, append-Represents, append-Represents_other, snapshot-Represents,
  appended,
}
use ironstate.Memory.Retention.{
  truncate_before-err, truncate_before-Represents, retained_from-truncate_before,
}
use ironstate.Memory.Branch.{fork-Represents, fork-head_ok}
use ironstate.Examples.Ledger.{deposited, withdrawn, open_account, evolve, open_phase}
use ironstate.Examples.Fixtures.{rules, id}

abbrev first : Record rules
first = appended (deposited 5 ∷ deposited 1 ∷ []) 4

abbrev second : Record rules
second = appended (withdrawn 2 ∷ []) 6

abbrev one : MemoryJournal rules
one = (append (new open_account) id first.events first.entropy_pos).0

abbrev two : MemoryJournal rules
two = (append one id second.events second.entropy_pos).0

one-Represents : Represents one id (first ∷ [])
one-Represents =
    (append-Represents (new open_account) id first.events first.entropy_pos
      (new-Represents open_account id)).0

two-Represents : Represents two id (first ∷ second ∷ [])
two-Represents = (append-Represents one id second.events second.entropy_pos one-Represents).0

append-Represents_example :
    Represents (append one id second.events second.entropy_pos).0 id (first ∷ second ∷ [])
    × ((append one id second.events second.entropy_pos).1 ≡ 2)
append-Represents_example = append-Represents one id second.events second.entropy_pos one-Represents

other-id : "rent" ≢ id
other-id e = false≢true ((eq_iff "rent" id).1 e)

append-Represents_other_example :
    Represents (append one "rent" second.events second.entropy_pos).0 id (first ∷ [])
append-Represents_other_example =
    append-Represents_other one "rent" id second.events second.entropy_pos other-id one-Represents

-- Only the genesis snapshot is there.
uncovered_cut : (truncate_before two id 2).1 ≡ err (no_snapshot_for_truncation 2 (some 0))
unfolding truncate_before append stream_mut put_stream insert get new new_stream genesis_snapshot
    latest_snapshot_at max
uncovered_cut = refl

truncate_before-err_example : (truncate_before two id 2).0 ≡ two
truncate_before-err_example =
    truncate_before-err two id 2 (no_snapshot_for_truncation 2 (some 0)) uncovered_cut

-- A snapshot of the balance of 4 at the second record.
abbrev covered_two : MemoryJournal rules
covered_two = snapshot two id (record {
  state = record { phase = open_phase; balance_cents = 4 };
  schema_version = 1;
  at = 2;
  entropy_pos = 6;
})

covered_two-Represents : Represents covered_two id (first ∷ second ∷ [])
unfolding append stream_mut put_stream insert get new new_stream genesis_snapshot state_at events_of
    pos_at evolve
covered_two-Represents =
    snapshot-Represents two id _ two-Represents
      (record { within = omega arith; retained = omega arith; state = refl; pos = refl })

truncate_before-Represents_example :
    Represents (truncate_before covered_two id 3).0 id (first ∷ second ∷ [])
truncate_before-Represents_example =
    truncate_before-Represents covered_two id 3 covered_two-Represents

discarded : (truncate_before covered_two id 3).1 ≡ ok tt
unfolding truncate_before append snapshot stream_mut put_stream insert get new new_stream
    genesis_snapshot latest_snapshot_at max
discarded = refl

retained_from-truncate_before_example : retained_from (truncate_before covered_two id 3).0 id ≡ 3
retained_from-truncate_before_example =
    retained_from-truncate_before covered_two id 3 covered_two-Represents discarded

-- The branch at the first record.
abbrev branch_1 : MemoryJournal rules
branch_1 = record {
  genesis = open_account;
  streams =
      (
        id,
        record {
          truncated = 0;
          records = first ∷ [];
          snapshots = genesis_snapshot open_account ∷ [];
        },
      )
      ∷ [];
}

forked : fork two id 1 ≡ ok branch_1
unfolding fork append stream_mut put_stream insert get new new_stream genesis_snapshot
forked = refl

fork-Represents_example : Represents branch_1 id (first ∷ [])
fork-Represents_example = fork-Represents two branch_1 id 1 two-Represents forked

kept_two : (stream_mut two id).truncated < 2
unfolding append stream_mut put_stream insert get new new_stream
kept_two = omega arith

fork-head_ok_example : (b : MemoryJournal rules) × (fork two id 2 ≡ ok b)
fork-head_ok_example = fork-head_ok two id two-Represents kept_two
