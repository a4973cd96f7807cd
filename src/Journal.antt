-- ===== src/Journal.antt =====
-- The journal's interface and the records it stores
-- (app/crates/ironstate-journal/src/journal.rs). A `Seq` and a `DrawPos` are numbers.
use ironstate.Prelude.{ℕ, String, List, Option, Result}
use ironstate.Aggregate.{AggregateRules, Rejection}

abbrev pub Seq : Type 0
Seq = ℕ

abbrev pub DrawPos : Type 0
DrawPos = ℕ

-- A newtype over a string.
abbrev pub StreamId : Type 0
StreamId = String

pub record Snapshot (R : AggregateRules) : Type 0 where
  pub state : R.State
  pub schema_version : ℕ
  pub at : Seq
  pub entropy_pos : DrawPos

pub record VersionedEvent (R : AggregateRules) : Type 0 where
  pub event : R.Event
  pub seq : Seq
  pub type_name : String
  pub version : ℕ

-- `storage` has the message of the boxed error.
pub data JournalError : Type 0 where
  storage : String → JournalError
  unknown_seq : Seq → JournalError
  no_base_for_fork : Seq → JournalError
  no_snapshot_for_truncation : Seq → Option Seq → JournalError

pub data ExecuteError (R : AggregateRules) : Type 0 where
  rejected : Rejection R → ExecuteError R
  journal : JournalError → ExecuteError R

-- The trait `Journal`, for a journal of type `J` and a unit of work of type `Tx`; `&mut self` and
-- `&mut tx` are returned anew.
pub record Journal (R : AggregateRules) (J Tx : Type 0) : Type 0 where
  pub append_in : J → Tx → StreamId → List R.Event → DrawPos → J × Tx × Result Seq JournalError
  pub snapshot_in : J → Tx → StreamId → Snapshot R → J × Tx × Result (Unit {0}) JournalError
  pub entropy_pos : J → StreamId → Seq → Result DrawPos JournalError
  pub head : J → StreamId → Option Seq
  pub events_since : J → StreamId → Option Seq → Result (List (VersionedEvent R)) JournalError
  pub latest_snapshot : J → StreamId → Result (Option (Snapshot R)) JournalError

-- The trait `ForkableJournal`.
pub record ForkableJournal (R : AggregateRules) (J Tx : Type 0) : Type 0 where
  pub journal : Journal R J Tx
  pub fork : J → StreamId → Seq → Result J JournalError

-- The trait `RetainableJournal`.
pub record RetainableJournal (R : AggregateRules) (J Tx : Type 0) : Type 0 where
  pub journal : Journal R J Tx
  pub truncate_before : J → StreamId → Seq → J × Result (Unit {0}) JournalError
  pub retained_from : J → StreamId → Seq
  pub streams : J → Result (List StreamId) JournalError
