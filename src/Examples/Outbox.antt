-- ===== src/Examples/Outbox.antt =====
-- The outbox example (app/crates/examples/outbox/src/main.rs): orders whose journal joins the
-- caller's transaction.
use ironstate.Prelude.{
  ℕ, ◌+◌, ◌-◌, ◌==◌, ltb, Bool, true, false, List, [], ◌∷◌, ◌++◌, Option, none, some, Result, ok,
  err, if◌then◌else◌, length, get_elem?, drop, enumerate, retain, str_eq, String,
}
use ironstate.Prelude.Map.{Map, get, insert}
use ironstate.Machine.{StateMachine}
use ironstate.Aggregate.{AggregateRules, Aggregate}
use ironstate.Entropy.{DeterministicCtx, CtxEntropy}
use ironstate.Journal.{
  Seq, DrawPos, StreamId, VersionedEvent, JournalError, unknown_seq, storage, Journal, ExecuteError,
}
use ironstate.Replay.{Pending, execute_in, commit_pending, abort}

pub data Phase : Type 0 where
  placed_phase shipped_phase delivered_phase cancelled_phase : Phase

pub data Step : Type 0 where
  ship_step deliver_step cancel_step : Step

-- `TransitionRules::transition`
unfoldable pub transition : Phase → Step → Option Phase
transition placed_phase ship_step = some shipped_phase
transition placed_phase cancel_step = some cancelled_phase
transition shipped_phase deliver_step = some delivered_phase
transition _ _ = none

abbrev pub phase_eq : Phase → Phase → Bool
phase_eq placed_phase placed_phase = true
phase_eq shipped_phase shipped_phase = true
phase_eq delivered_phase delivered_phase = true
phase_eq cancelled_phase cancelled_phase = true
phase_eq _ _ = false

abbrev pub is_terminal : Phase → Bool
is_terminal delivered_phase = true
is_terminal cancelled_phase = true
is_terminal _ = false

abbrev pub phase_name : Phase → String
phase_name placed_phase = "Placed"
phase_name shipped_phase = "Shipped"
phase_name delivered_phase = "Delivered"
phase_name cancelled_phase = "Cancelled"

abbrev pub step_name : Step → String
step_name ship_step = "Ship"
step_name deliver_step = "Deliver"
step_name cancel_step = "Cancel"

-- What the two derives generate.
abbrev pub order_machine : StateMachine Phase Step
order_machine = record {
  event_kind = record {
    kinds = λ e. none;
    variant_name = step_name;
    event_variants = ship_step ∷ deliver_step ∷ cancel_step ∷ [];
  };
  transition = transition;
  initial = placed_phase;
  is_terminal = is_terminal;
  restriction = λ s. none;
  state_variants = placed_phase ∷ shipped_phase ∷ delivered_phase ∷ cancelled_phase ∷ [];
  variant_name = phase_name;
  eq = phase_eq;
}

pub data Command : Type 0 where
  ship_command : (carrier : String) → Command
  deliver_command : Command

pub data Event : Type 0 where
  shipped : (carrier : String) → Event
  delivered : Event

pub data OrderError : Type 0 where
  not_shippable : Phase → OrderError

pub record Order : Type 0 where
  pub phase : Phase
  pub carrier : Option String

-- `Order::placed`
abbrev pub placed : Order
placed = record { phase = placed_phase; carrier = none }

unfoldable pub decide : Order → Command → Result (List Event) OrderError
decide o (ship_command carrier) =
    if phase_eq o.phase placed_phase then ok (shipped carrier ∷ []) else err (not_shippable o.phase)
decide o deliver_command = ok (delivered ∷ [])

unfoldable pub evolve : Order → Event → Order
evolve o (shipped carrier) = record { phase = shipped_phase; carrier = some carrier }
evolve o delivered = record o { phase = delivered_phase }

abbrev pub command_name : Command → String
command_name (ship_command carrier) = "Ship"
command_name deliver_command = "Deliver"

-- `impl AggregateRules for Order`; `decide` does not touch its context.
abbrev pub order : Type 0 → AggregateRules
order Source = record {
  State = Order;
  Phase = Phase;
  PhaseEvent = Step;
  Command = Command;
  Event = Event;
  Error = OrderError;
  Ctx = DeterministicCtx Source ℕ;
  machine = order_machine;
  command_kind = record {
    kinds = λ c. none;
    variant_name = command_name;
    event_variants = ship_command "" ∷ deliver_command ∷ [];
  };
  phase = λ o. o.phase;
  decide = λ o cmd ctx. (decide o cmd, ctx);
  evolve = evolve;
  event_type = "outbox::Event";
}

pub record Record : Type 0 where
  pub events : List Event
  pub entropy_pos : DrawPos

pub record OrderRow : Type 0 where
  pub status : String
  pub carrier : Option String

pub data Job : Type 0 where
  shipment_confirmation : (order : String) → (carrier : String) → Job

pub record Transaction : Type 0 where
  pub appends : List (StreamId × Record)
  pub read_model : List (String × OrderRow)
  pub outbox : List Job

abbrev pub upsert_read_model : Transaction → String → OrderRow → Transaction
upsert_read_model tx order row = record tx { read_model = tx.read_model ++ ((order, row) ∷ []) }

abbrev pub enqueue : Transaction → Job → Transaction
enqueue tx job = record tx { outbox = tx.outbox ++ (job ∷ []) }

pub record Store : Type 0 where
  pub records : Map (List Record)
  pub read_model : Map OrderRow
  pub outbox : List Job

-- `Store::begin`
abbrev pub begin : Store → Transaction
begin store = record { appends = []; read_model = []; outbox = [] }

abbrev pub or_empty : Option (List Record) → List Record
or_empty none = []
or_empty (some rs) = rs

-- `Store::records`
unfoldable pub records_of : Store → StreamId → List Record
records_of store stream = or_empty (get store.records stream)

-- The three loops of `Store::commit`.
unfoldable pub commit_appends : List (StreamId × Record) → Map (List Record) → Map (List Record)
commit_appends [] records = records
commit_appends ((stream, r) ∷ appends) records =
    commit_appends appends (insert stream (or_empty (get records stream) ++ (r ∷ [])) records)

unfoldable pub commit_rows : List (String × OrderRow) → Map OrderRow → Map OrderRow
commit_rows [] rows = rows
commit_rows ((order, row) ∷ rest) rows = commit_rows rest (insert order row rows)

unfoldable pub commit : Store → Transaction → Store
unfolding commit_appends commit_rows
commit store tx = record {
  records = commit_appends tx.appends store.records;
  read_model = commit_rows tx.read_model store.read_model;
  outbox = store.outbox ++ tx.outbox;
}

abbrev pub staged : StreamId → List (StreamId × Record) → ℕ
staged stream appends = length (retain (λ a. str_eq a.0 stream) appends)

-- `append_in`, into the caller's transaction.
unfoldable pub append_in :
    Store
    → Transaction
    → StreamId
    → List Event
    → DrawPos
    → Store × Transaction × Result Seq JournalError
append_in store tx stream events pos =
    let r : Record = record { events = events; entropy_pos = pos } in
    let tx' = record tx { appends = tx.appends ++ ((stream, r) ∷ []) } in
    (store, tx', ok (length (records_of store stream) + staged stream tx'.appends))

-- `records[i].entropy_pos`; out of bounds it would panic.
abbrev pub indexed_pos : Option Record → Result DrawPos JournalError
indexed_pos none = err (storage "index out of bounds")
indexed_pos (some r) = ok r.entropy_pos

unfoldable pub entropy_pos : Store → StreamId → Seq → Result DrawPos JournalError
entropy_pos store stream at =
    if at == 0
    then ok 0
    else if ltb (length (records_of store stream)) at
    then err (unknown_seq at)
    else indexed_pos (get_elem? (records_of store stream) (at - 1))

unfoldable pub head : Store → StreamId → Option Seq
head store stream = let n = length (records_of store stream) in if n == 0 then none else some n

-- `after.map_or(0, ...)`
abbrev pub start_of : Option Seq → ℕ
start_of none = 0
start_of (some s) = s

module _ {Source : Type 0} where
  unfoldable pub stamp : Seq → List Event → List (VersionedEvent (order Source))
  stamp seq [] = []
  stamp seq (e ∷ es) =
      record { event = e; seq = seq; type_name = "outbox::Event"; version = 1 } ∷ stamp seq es

  unfoldable pub stamp_all : List (ℕ × Record) → List (VersionedEvent (order Source))
  unfolding stamp
  stamp_all [] = []
  stamp_all ((i, r) ∷ rest) = stamp (i + 1) r.events ++ stamp_all rest

  unfoldable pub events_since :
      Store → StreamId → Option Seq → Result (List (VersionedEvent (order Source))) JournalError
  unfolding stamp_all
  events_since store stream after =
      ok (stamp_all (drop (start_of after) (enumerate 0 (records_of store stream))))

  -- `impl Journal for Store`; snapshots are not kept.
  abbrev pub outbox_journal : Journal (order Source) Store Transaction
  outbox_journal = record {
    append_in = append_in;
    snapshot_in = λ store tx stream s. (store, tx, ok tt);
    entropy_pos = entropy_pos;
    head = head;
    events_since = events_since;
    latest_snapshot = λ store stream.
        ok (some (record { state = placed; schema_version = 0; at = 0; entropy_pos = 0 }));
  }

  -- The caller's writes, and the resolution of the transaction.
  unfoldable pub resolved :
      CtxEntropy (DeterministicCtx Source ℕ) Source
      → Aggregate (order Source)
      → String
      → String
      → Bool
      → Store
        × Transaction
        × DeterministicCtx Source ℕ
        × Result (Pending (order Source)) (ExecuteError (order Source))
      → Store
        × Aggregate (order Source)
        × DeterministicCtx Source ℕ
        × Result (Option Seq) (ExecuteError (order Source))
  resolved c a id carrier fails (store, tx, ctx, err e) = (store, a, ctx, err e)
  resolved c a id carrier fails (store, tx, ctx, ok pending) =
      let row : OrderRow = record { status = "shipped"; carrier = some carrier } in
      let tx' = enqueue (upsert_read_model tx id row) (shipment_confirmation id carrier) in
      if fails
      then (store, a, abort c pending.prepared ctx, ok none)
      else let (a', seq) = commit_pending pending a in (commit store tx', a', ctx, ok (some seq))

  unfoldable pub ship :
      CtxEntropy (DeterministicCtx Source ℕ) Source
      → Store
      → StreamId
      → Aggregate (order Source)
      → String
      → String
      → DeterministicCtx Source ℕ
      → Bool
      → Store
        × Aggregate (order Source)
        × DeterministicCtx Source ℕ
        × Result (Option Seq) (ExecuteError (order Source))
  unfolding resolved
  ship c store stream a id carrier ctx fails =
      resolved c a id carrier fails
        (execute_in outbox_journal c store (begin store) stream a (ship_command carrier) ctx)
