-- ===== src/Examples/Shipping.antt =====
-- Shipping in the outbox example is all or nothing.
use ironstate.Prelude.{
  ℕ, ◌+◌, ◌≡◌, refl, ap, inl, inr, ◌⊎◌, Bool, true, false, List, [], ◌∷◌, ◌++◌, Option, none, some,
  Result, ok, err, arith, foldl, length, Result-cases, String,
}
use ironstate.Prelude.Map.{insert}
use ironstate.Aggregate.{Aggregate, Rejection, evolve, decide_only}
use ironstate.Entropy.{DeterministicCtx, CtxEntropy}
use ironstate.Journal.{Seq, DrawPos, StreamId, JournalError, ExecuteError, rejected, journal}
use ironstate.Replay.{
  head_pos, execute_in, prepare, rewind, draws_or, abort, commit_pending, commit as commit_prepared,
}
use ironstate.Examples.Outbox.{
  order, Store, Record, OrderRow, shipment_confirmation, records_of, outbox_journal, append_in,
  commit, commit_appends, commit_rows, staged, resolved, ship, ship_command, Event,
}

module _ {Source : Type 0} (c : CtxEntropy (DeterministicCtx Source ℕ) Source) (store : Store)
    (stream : StreamId) (a : Aggregate (order Source)) (id carrier : String)
    (ctx : DeterministicCtx Source ℕ) where
  abbrev pub shipped_by :
      Bool
      → Store
        × Aggregate (order Source)
        × DeterministicCtx Source ℕ
        × Result (Option Seq) (ExecuteError (order Source))
  shipped_by fails = ship c store stream a id carrier ctx fails

  abbrev pub decision : Result (List Event) (Rejection (order Source)) × DeterministicCtx Source ℕ
  decision = decide_only a (ship_command carrier) ctx

  -- The store with the record, the row and the job of a shipment.
  abbrev pub landed : List Event → DrawPos → Store
  landed events pos =
      let r : Record = record { events = events; entropy_pos = pos } in
      let row : OrderRow = record { status = "shipped"; carrier = some carrier } in
      record {
        records = insert stream (records_of store stream ++ (r ∷ [])) store.records;
        read_model = insert id row store.read_model;
        outbox = store.outbox ++ (shipment_confirmation id carrier ∷ []);
      }

  -- Nothing is left of the shipment and its result says so, or all of it has landed.
  abbrev pub IsAtomic : Bool → Type 0
  IsAtomic fails =
      ((shipped_by fails).0 ≡ store)
        × ((shipped_by fails).1 ≡ a)
        × (((x : ExecuteError (order Source)) × ((shipped_by fails).3 ≡ err x))
            ⊎ ((fails ≡ true) × ((shipped_by fails).3 ≡ ok none)))
      ⊎ ((events : List Event) × (pos : DrawPos) × (seq : Seq) × (fails ≡ false)
          × (decision.0 ≡ ok events)
          × ((shipped_by fails).0 ≡ landed events pos)
          × ((shipped_by fails).1 ≡ foldl evolve a events)
          × ((shipped_by fails).3 ≡ ok (some seq)))

  ship-unreadable :
      (fails : Bool) (e : JournalError)
      → head_pos (outbox_journal {Source = Source}) store stream ≡ err e
      → shipped_by fails ≡ (store, a, ctx, err (journal e))
  unfolding ship execute_in resolved
  ship-unreadable fails e h = ground arith

  ship-rejected :
      (fails : Bool) (pos : DrawPos) (x : Rejection (order Source))
      → head_pos (outbox_journal {Source = Source}) store stream ≡ ok pos
      → decision.0 ≡ err x
      → shipped_by fails ≡ (store, a, rewind c decision.1 pos, err (rejected x))
  unfolding ship execute_in resolved prepare
  ship-rejected fails pos x h d = ground arith

  ship-failed :
      (pos : DrawPos) (events : List Event)
      → head_pos (outbox_journal {Source = Source}) store stream ≡ ok pos
      → decision.0 ≡ ok events
      → shipped_by true ≡ (store, a, rewind c decision.1 pos, ok none)
  unfolding ship execute_in resolved prepare append_in abort
  ship-failed pos events h d = ground arith

  ship-committed :
      (pos : DrawPos) (events : List Event)
      → head_pos (outbox_journal {Source = Source}) store stream ≡ ok pos
      → decision.0 ≡ ok events
      → (seq : Seq) × (shipped_by false ≡ (
        landed events (draws_or c pos decision.1),
        foldl evolve a events,
        decision.1,
        ok (some seq),
      ))
  unfolding ship execute_in resolved prepare append_in commit commit_appends commit_rows records_of
      commit_pending commit_prepared
  ship-committed pos events h d = (
    length (records_of store stream)
        + staged stream
            ((stream, record { events = events; entropy_pos = draws_or c pos decision.1 }) ∷ []),
    ground arith,
  )

  resolved-IsAtomic :
      (fails : Bool) (pos : DrawPos) (events : List Event)
      → head_pos (outbox_journal {Source = Source}) store stream ≡ ok pos
      → decision.0 ≡ ok events
      → IsAtomic fails
  resolved-IsAtomic true pos events readable decided =
      let out = ship-failed pos events readable decided in
      inl (ap (λ t. t.0) out, ap (λ t. t.1) out, inr (refl, ap (λ t. t.3) out))
  resolved-IsAtomic false pos events readable decided =
      let (seq, out) = ship-committed pos events readable decided in
      inr (
        events,
        draws_or c pos decision.1,
        seq,
        refl,
        decided,
        ap (λ t. t.0) out,
        ap (λ t. t.1) out,
        ap (λ t. t.3) out,
      )

  -- In the outbox example, over any store, any order and any context: a shipment either leaves
  -- the store and the order as they were, and its result is an error or, if the transaction was
  -- to fail, no sequence; or the transaction was not to fail, the events decided are appended
  -- to the stream, the row is written and the job is queued together, the order has the events,
  -- and the result is a sequence.
  pub ship-IsAtomic : (fails : Bool) → IsAtomic fails
  ship-IsAtomic fails =
      elim (Result-cases (head_pos (outbox_journal {Source = Source}) store stream)) [
        | inr (e, unreadable) ↦
            let out = ship-unreadable fails e unreadable in
            inl (ap (λ t. t.0) out, ap (λ t. t.1) out, inl (journal e, ap (λ t. t.3) out))
        | inl (pos, readable) ↦ elim (Result-cases decision.0) [
          | inr (x, refused) ↦
              let out = ship-rejected fails pos x readable refused in
              inl (ap (λ t. t.0) out, ap (λ t. t.1) out, inl (rejected x, ap (λ t. t.3) out))
          | inl (events, decided) ↦ resolved-IsAtomic fails pos events readable decided
        ]
      ]
