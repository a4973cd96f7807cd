-- ===== src/Lib.antt =====
-- Verification of the ironstate crates: lifecycle machines, deterministic aggregates and the event
-- journal (Rust, under app/crates).
--
-- How the parts interact. A lifecycle machine is an enum of states with a transition function; the
-- runtime enforces the declared structure before it calls that function. An aggregate is a state
-- with `decide`, which may draw entropy and gives events, and `evolve`, which applies them; its phase
-- is a lifecycle machine. The journal stores the events of many streams, each append with the
-- entropy position after it. The persistent loop decides, appends, then evolves, and on a failure
-- rewinds the entropy; resuming rebuilds the aggregate from the latest snapshot and the events after
-- it, and reopens the entropy at the position recorded at the head.
--
-- Where each part is modelled. A trait is a record of its functions; `&mut` arguments are returned
-- anew; a `match` on a computed value is a helper by clauses that stands above its caller.
--   Kind      app/crates/ironstate/src/kind.rs
--   Machine   app/crates/ironstate/src/machine.rs, with error.rs and listener.rs beside it: `apply`,
--             `could_apply`, `why_not`, `peek_transition` under their names. Machine/Probes relates
--             them. Listeners and the clock act on a world, which the machine does not read.
--   Testing   app/crates/ironstate/src/testing.rs and invariant.rs; Testing/Kept is when a run passes
--   Metadata  app/crates/ironstate/src/metadata.rs; Metadata/Legal relates its transitions to `apply`
--   Analysis  app/crates/ironstate/src/analysis.rs: the searches; Analysis/Marking is one state's
--             targets, Analysis/Search the loop, Analysis/Reversed and Analysis/Stacking what
--             `reaches_terminal` builds before it, Analysis/Report is `analyze`, Analysis/Edges its
--             edges, Analysis/Verdict and Analysis/Clean what a report without errors means
--   Restore   the restore errors of app/crates/ironstate/src/error.rs
--   Entropy   app/crates/ironstate-aggregate/src/entropy.rs; Entropy/Seeded is the source over
--             ChaCha12, the generator being a parameter, and Entropy/Draws the draws from ranges
--             and the shuffles
--   Aggregate app/crates/ironstate-aggregate/src/rules.rs; Aggregate/Handle relates the entry points
--   Journal   app/crates/ironstate-journal/src/journal.rs: the traits and the stored records
--   Memory    app/crates/ironstate-journal/src/memory.rs. Memory/History says what a history
--             determines, Memory/Read and Memory/Write what one stream answers and how writes change
--             it, Memory/Streams how the journal is its streams; Memory/Represents, Memory/Retention
--             and Memory/Branch refine the journal to append-only histories.
--   Replay    app/crates/ironstate-journal/src/replay.rs over any journal; Replay/Execute is one turn
--             of the loop, Replay/Resume and Replay/InSync the in-memory journal, Replay/Session every
--             sequence of steps
--   StableHash  app/crates/ironstate-aggregate/src/stablehash.rs; StableHash/Words, Values and
--             Containers are readers of the encodings, StableHash/ReadBack what a reader is,
--             StableHash/Digests the text of a digest
--   Redaction app/crates/ironstate-aggregate/src/redaction.rs; Redaction/Views is what a view holds,
--             Redaction/Secrecy what it does not depend on
--   Examples  the account of app/crates/examples/ledger/src/main.rs, the orders and the store of
--             app/crates/examples/outbox/src/main.rs with Examples/Shipping on its transactions, the
--             counter of app/crates/ironstate-journal/tests/contract.rs, and concrete inputs
--   Testkit   app/crates/ironstate-aggregate/src/testkit.rs; Testkit/Driven is when run_test passes,
--             Testkit/Faults when its checks panic, Testkit/Leaks when run_leak passes
--   Contract  app/crates/ironstate-journal/src/contract.rs; Contract/Checks and Suites are the suite's
--             properties, Contract/Driven and Recorded what the driver keeps, Contract/Answers,
--             Passed, Forked, Isolated and Truncated that each property passes, Contract/Runs the
--             whole suite, Contract/Sound what a pass shows
--   Subscription  app/crates/ironstate-journal/src/subscription.rs; Subscription/Marks is what is
--             delivered and what is dropped, Subscription/Targets the target's journal
--   Sim       app/crates/ironstate-journal/src/sim.rs: the fault injector, the run without faults and
--             the run with them; Sim/Steps is one command, Sim/Runs the whole run
--
-- Bounds. A sequence, an entropy position and a count of records is an unbounded number: each counts
-- appends or draws, which do not reach 2^64 (app/Cargo.toml relies on the same). The position read
-- from the generator is cast to 64 bits, and balances of the ledger wrap at 2^64. The searches of the
-- analysis run on fuel, one for each state: a step takes a state off the stack, and each is stacked at
-- most once. A draw from a range runs on fuel for the words it may reject: no bound is enough for every
-- source, so the fuel is an argument. Every other loop of the code is over a list.
--
-- Not modelled: text output (Display, Debug), the derive macros and the test macros, the sampling and
-- shrinking of proptest, the examples but the two named, and foreign code (the generator, serde, the
-- hash functions).
pub mod Prelude
pub mod Kind
pub mod Machine
pub mod Testing
pub mod Restore
pub mod Entropy
pub mod Aggregate
pub mod Journal
pub mod Memory
pub mod Replay
pub mod Contract
pub mod Testkit
pub mod Subscription
pub mod Sim
pub mod Metadata
pub mod Analysis
pub mod StableHash
pub mod Redaction
pub mod Examples
