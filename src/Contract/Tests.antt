-- ===== src/Contract/Tests.antt =====
-- The suite at accounts of deposits, withdrawals and a close that is refused, and at counters that
-- draw.
use ironstate.Prelude.{ℕ, ◌*◌, ◌≡◌, refl, arith, [], ok, err, none, some}
use ironstate.Memory.{memory_retainable, new as new_memory, fork}
use ironstate.Examples.Accounts.{accounts, accounts-Lawful}
use ironstate.Examples.Counter.{counter_rules, counters, counters-Lawful}
use ironstate.Examples.Fixtures.{rules}
use ironstate.Journal.{Journal}
use ironstate.Contract.{memory_contract, test_stream}
use ironstate.Contract.Checks.{property_2, property_9, probe_all, probed, positions}
use ironstate.Contract.Sound.{IsAscent, property_2-ascending}
use ironstate.Contract.Suites.{run_contract, run_contract_forkable, run_contract_retainable}
use ironstate.Contract.Runs.{
  run_contract-memory, run_contract_forkable-memory, run_contract_retainable-memory,
}

run_contract-memory_example : run_contract accounts (memory_contract rules) 2 5 7 ≡ ok tt
run_contract-memory_example =
    run_contract-memory accounts accounts-Lawful 5 (omega arith) (omega arith) 2 7

run_contract_forkable-memory_example :
    run_contract_forkable counters (memory_contract counter_rules) fork 2 5 7 ≡ ok tt
run_contract_forkable-memory_example =
    run_contract_forkable-memory counters counters-Lawful 5 (omega arith) (omega arith) 2 7

run_contract_retainable-memory_example :
    run_contract_retainable counters (memory_retainable counter_rules) new_memory 2 5 7 ≡ ok tt
run_contract_retainable-memory_example =
    run_contract_retainable-memory counters counters-Lawful 5 (omega arith) (omega arith) 2 7

-- A journal that answers every sequence is caught.
abbrev answers_all : Journal rules ℕ (Unit {0})
answers_all = record {
  append_in = λ j tx id events pos. (j, tx, ok 1);
  snapshot_in = λ j tx id s. (j, tx, ok tt);
  entropy_pos = λ j id at. ok 0;
  head = λ j id. none;
  events_since = λ j id after. ok [];
  latest_snapshot = λ j id. ok none;
}

caught :
    property_9 answers_all 0 test_stream
    ≡ err "[proven] property 9: out-of-range Seq returned a position"
unfolding property_9 probe_all probed
caught = refl

-- Positions that grow by two.
abbrev climbing : Journal rules ℕ (Unit {0})
climbing = record {
  append_in = λ j tx id events pos. (j, tx, ok 1);
  snapshot_in = λ j tx id s. (j, tx, ok tt);
  entropy_pos = λ j id at. ok (at * 2);
  head = λ j id. some 3;
  events_since = λ j id after. ok [];
  latest_snapshot = λ j id. ok none;
}

climbs : property_2 climbing 0 test_stream ≡ ok tt
unfolding property_2 positions
climbs = refl

property_2-ascending_example : IsAscent climbing 0 test_stream 0 1 3
property_2-ascending_example =
    property_2-ascending climbing 0 test_stream 3 refl climbs 1 3 (omega arith) (omega arith)
      (omega arith)
