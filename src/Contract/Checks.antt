-- ===== src/Contract/Checks.antt =====
-- The properties that the suite checks on a journal it has driven
-- (app/crates/ironstate-journal/src/contract.rs).
use ironstate.Prelude.{
  ℕ, zero, suc, ◌+◌, ◌-◌, ◌/◌, ◌%◌, ◌^◌, Bool, false, not, List, [], ◌∷◌, Option, none, some,
  Result, ok, err, ◌>>=◌, if◌then◌else◌, ◌==◌, leb, str_eq,
}
use ironstate.Aggregate.{AggregateRules, Aggregate, handle}
use ironstate.Entropy.Seeded.{Seed, seeded_at, draws}
use ironstate.Journal.{Seq, DrawPos, StreamId, JournalError, unknown_seq, VersionedEvent, Journal}
use ironstate.Replay.{replay, resume}
use ironstate.Contract.{Panic, expect, assert, Strategies, head_pos, genesis_snapshot}

-- `steps.last()`
unfoldable pub last : {A : Type 0} → List A → Option A
last [] = none
last (x ∷ []) = some x
last (x ∷ y ∷ xs) = last (y ∷ xs)

-- `head.div_ceil(2).max(1)`
abbrev pub midpoint : Seq → Seq
midpoint head = let half = head / 2 + head % 2 in if leb 1 half then half else 1

-- `a + b` in 64 bits.
abbrev pub add_u64 : ℕ → ℕ → ℕ
add_u64 a b = (a + b) % 2 ^ 64

-- `head.map_or(0, |h| h.0)`
abbrev pub head_or : Option Seq → Seq
head_or none = 0
head_or (some h) = h

-- `head == Some(at)`
abbrev pub is_at : Seq → Option Seq → Bool
is_at at none = false
is_at at (some h) = h == at

-- The loop over the events.
unfoldable pub tagged : {R : AggregateRules} → List (VersionedEvent R) → Result (Unit {0}) Panic
tagged [] = ok tt
tagged (e ∷ es) = do
  _ ← assert (not (str_eq e.type_name "")) "[proven] property 7: a record is missing its type name"
  _ ← assert (leb 1 e.version) "[proven] property 7: a record is missing its version"
  tagged es

unfoldable pub probed : Seq → Result DrawPos JournalError → Result (Unit {0}) Panic
probed probe (err (unknown_seq at)) =
    assert (at == probe) "[proven] property 9: UnknownSeq reported the wrong Seq"
probed probe (err e) = err "[proven] property 9: out-of-range Seq gave another error"
probed probe (ok pos) = err "[proven] property 9: out-of-range Seq returned a position"

module _ {R : AggregateRules} {J : Type 0} (jr : Journal R J (Unit {0})) where
  -- `for seq in from..from + count`: positions are defined and never decrease.
  unfoldable pub positions : Panic → J → StreamId → ℕ → Seq → DrawPos → Result (Unit {0}) Panic
  positions message j id zero seq previous = ok tt
  positions message j id (suc n) seq previous = do
    pos ← expect (jr.entropy_pos j id seq) message
    _ ← assert (leb previous pos) message
    positions message j id n (suc seq) pos

  unfoldable pub property_2 : J → StreamId → Result (Unit {0}) Panic
  unfolding positions
  property_2 j id = elim (jr.head j id) [
    | none ↦ ok tt
    | some head ↦ positions "[proven] property 2: entropy_pos" j id head 1 0
  ]

  unfoldable pub property_7 : J → StreamId → Result (Unit {0}) Panic
  unfolding tagged
  property_7 j id = expect (jr.events_since j id none) "events" >>= tagged

  unfoldable pub probe_all : J → StreamId → List Seq → Result (Unit {0}) Panic
  unfolding probed
  probe_all j id [] = ok tt
  probe_all j id (probe ∷ probes) = do
    _ ← probed probe (jr.entropy_pos j id probe)
    probe_all j id probes

  unfoldable pub property_9 : J → StreamId → Result (Unit {0}) Panic
  unfolding probe_all
  property_9 j id =
      let head = head_or (jr.head j id) in
      probe_all j id (
        add_u64 head 1 ∷ add_u64 head 2 ∷ add_u64 (add_u64 (2 ^ 32 - 1) head) 1 ∷ (2 ^ 64 - 1) ∷ [])

module _ {R : AggregateRules} {Rng Digest Runner : Type 0} (s : Strategies R Rng Digest Runner)
    {J : Type 0} (jr : Journal R J (Unit {0})) where
  -- Replaying the events of the stream from the genesis gives the digest.
  unfoldable pub replays_to : J → StreamId → R.State → Digest → Panic → Result (Unit {0}) Panic
  unfolding genesis_snapshot
  replays_to j id genesis live_digest message = do
    events ← expect (jr.events_since j id none) "events"
    rebuilt ← expect (replay (genesis_snapshot genesis) events) "replay"
    assert (s.harness.same_digest (s.harness.digest rebuilt.state) live_digest) message

  unfoldable pub property_1 : J → StreamId → R.State → List (Seq × Digest) → Result (Unit {0}) Panic
  unfolding replays_to
  property_1 j id genesis steps = elim (last steps) [
    | none ↦ ok tt
    | some (seq, live_digest) ↦ replays_to j id genesis live_digest "[proven] property 1"
  ]

  -- Property 1 at each step, on a branch.
  unfoldable pub property_1_at_each_step :
      (J → StreamId → Seq → Result J JournalError)
      → J
      → StreamId
      → R.State
      → List (Seq × Digest)
      → Result (Unit {0}) Panic
  unfolding replays_to
  property_1_at_each_step fork j id genesis [] = ok tt
  property_1_at_each_step fork j id genesis ((seq, live_digest) ∷ steps) = do
    branch ← expect (fork j id seq) "fork at a recorded Seq"
    _ ← replays_to branch id genesis live_digest "[proven] property 1b"
    property_1_at_each_step fork j id genesis steps

  -- Resumed and live handle one more command alike.
  unfoldable pub property_3 : J → StreamId → Aggregate R → Seed → Runner → Result Runner Panic
  unfolding head_pos
  property_3 j id live seed runner = elim (jr.head j id) [
    | none ↦ ok runner
    | some head ↦ do
      pos ← head_pos s jr j id
      let (cmd, runner') = s.harness.sample live.state runner
      (resumed, entropy) ← expect (resume jr s.harness.chacha j id seed) "resume"
      let ctx = s.harness.test_ctx (seeded_at s.harness.chacha seed pos) 0
      let (resumed', ctx_r, r) = handle resumed cmd ctx
      let (live', ctx_l, l) = handle live cmd ctx
      _ ←
          assert
            (s.harness.same_digest (s.harness.digest resumed'.state) (s.harness.digest live'.state))
            "[proven] property 3"
      ok runner'
  ]

  unfoldable pub property_4 :
      (J → StreamId → Seq → Result J JournalError) → J → StreamId → Result (Unit {0}) Panic
  property_4 fork j id = elim (jr.head j id) [
    | none ↦ ok tt
    | some head ↦ do
      let at = midpoint head
      branch ← expect (fork j id at) "fork"
      there ← expect (jr.entropy_pos branch id at) "branch position"
      here ← expect (jr.entropy_pos j id at) "main position"
      _ ← assert (there == here) "[proven] property 4: entropy_pos disagreed"
      assert (is_at at (jr.head branch id)) "[proven] property 4: a fork's head"
  ]

  unfoldable pub property_5 : J → StreamId → Seed → Result (Unit {0}) Panic
  unfolding head_pos
  property_5 j id seed = elim (jr.head j id) [
    | none ↦ ok tt
    | some head ↦ do
      pos ← head_pos s jr j id
      (resumed, entropy) ← expect (resume jr s.harness.chacha j id seed) "resume"
      assert (draws s.harness.chacha entropy == pos) "[proven] property 5"
  ]
