-- ===== src/Analysis/Report.antt =====
-- `analyze` (app/crates/ironstate/src/analysis.rs): the edges over variant names and the claims of a
-- report. The text of a claim is its message as data.
use ironstate.Prelude.{
  ℕ, suc, ◌+◌, ◌*◌, ◌^◌, min, ◌-◌, Bool, true, false, not, ◌&&◌, List, [], ◌∷◌, ◌++◌, map, any,
  retain, Option, none, some, if◌then◌else◌, length, str_eq, String,
}
use ironstate.Machine.{StateMachine, kind_ok}
use ironstate.Analysis.{reachable_from, reaches_terminal}

pub data Confidence : Type 0 where
  proven_by_construction sampled : Confidence

-- The two ways in which enforcement blocks a transition.
pub data Why : Type 0 where
  source_is_terminal kind_not_accepted : Why

pub data Message : Type 0 where
  all_reachable : ℕ → String → Message
  unreachable_state deadlock inescapable : String → Message
  dead_transition : String → String → String → Why → Message
  no_dead_transitions : Message
  unused_events : List String → Message
  coverage : ℕ → ℕ → Message

pub record Claim : Type 0 where
  pub confidence : Confidence
  pub is_error : Bool
  pub message : Message

abbrev pub proven : Bool → Message → Claim
proven is_error message = record {
  confidence = proven_by_construction;
  is_error = is_error;
  message = message;
}

pub record Report : Type 0 where
  pub claims : List Claim

unfoldable pub has_errors : Report → Bool
has_errors r = any (λ c. c.is_error) r.claims

-- `names.iter().position(|n| *n == name)`
unfoldable pub index_of : List String → String → Option ℕ
index_of [] name = none
index_of (n ∷ names) name =
    let rest = index_of names name in
    if str_eq n name then some 0 else elim rest [ none ↦ none | some i ↦ some (suc i) ]

-- What the loop over the events finds for one state: its row of edges, the blocked transitions, and
-- the names of the events used.
pub record Node : Type 0 where
  pub name : String
  pub terminal : Bool
  pub outs : List ℕ
  pub dead : List Message
  pub used : List String

unfoldable pub indexed : String → Option ℕ → Node → Node
indexed event none node = node
indexed event (some j) node = record node { outs = j ∷ node.outs; used = event ∷ node.used }

module _ {S E : Type 0} (sm : StateMachine S E) where
  -- `!terminal[i] && kind_ok`
  unfoldable pub structurally_allowed : S → E → Bool
  structurally_allowed s e = not (sm.is_terminal s) && kind_ok sm (sm.restriction s) e

  abbrev pub why : S → Why
  why s = if sm.is_terminal s then source_is_terminal else kind_not_accepted

  -- The body of the inner loop, before what the later events add.
  unfoldable pub visited : List String → S → E → Option S → Node → Node
  unfolding indexed
  visited names s e none node = node
  visited names s e (some target) node =
      if structurally_allowed s e
      then indexed (sm.event_kind.variant_name e) (index_of names (sm.variant_name target)) node
      else record node {
        dead =
            dead_transition (sm.variant_name s) (sm.event_kind.variant_name e)
              (sm.variant_name target) (why s)
            ∷ node.dead;
      }

  -- `for event in &events`
  unfoldable pub node_of : List String → S → List E → Node
  unfolding visited
  node_of names s [] = record {
    name = sm.variant_name s;
    terminal = sm.is_terminal s;
    outs = [];
    dead = [];
    used = [];
  }
  node_of names s (e ∷ events) = visited names s e (sm.transition s e) (node_of names s events)

  -- `for (i, state) in states.iter().enumerate()`
  unfoldable pub nodes : List Node
  nodes =
      map (λ s. node_of (map sm.variant_name sm.state_variants) s sm.event_kind.event_variants)
        sm.state_variants

-- `(0..n).filter(|&i| !reachable[i]).map(|i| names[i])`
unfoldable pub unreachable : List Node → List Bool → List String
unreachable [] reachable = []
unreachable (node ∷ ns) [] = []
unreachable (node ∷ ns) (true ∷ reachable) = unreachable ns reachable
unreachable (node ∷ ns) (false ∷ reachable) = node.name ∷ unreachable ns reachable

unfoldable pub reach_claims : ℕ → String → List String → List Claim
reach_claims n initial [] = proven false (all_reachable n initial) ∷ []
reach_claims n initial (name ∷ names) = map (λ x. proven true (unreachable_state x)) (name ∷ names)

abbrev pub is_empty : List ℕ → Bool
is_empty [] = true
is_empty (x ∷ xs) = false

-- `for i in 0..n`, the deadlocks.
unfoldable pub deadlocks : List Node → List Claim
deadlocks [] = []
deadlocks (node ∷ ns) =
    let rest = deadlocks ns in
    if not node.terminal && is_empty node.outs
    then proven true (deadlock node.name) ∷ rest
    else rest

-- `for i in 0..n`, the states that no path leads out of to a terminal one.
unfoldable pub inescapables : List Node → List Bool → List Claim
inescapables [] can = []
inescapables (node ∷ ns) [] = []
inescapables (node ∷ ns) (c ∷ can) =
    let rest = inescapables ns can in
    if not node.terminal && (not c && not (is_empty node.outs))
    then proven true (inescapable node.name) ∷ rest
    else rest

unfoldable pub dead_of : List Node → List Message
dead_of [] = []
dead_of (node ∷ ns) = node.dead ++ dead_of ns

unfoldable pub dead_claims : List Message → List Claim
dead_claims [] = proven false no_dead_transitions ∷ []
dead_claims (d ∷ ds) = map (proven true) (d ∷ ds)

-- `used_event.contains(name)`, over the sets of all states.
unfoldable pub is_used : List Node → String → Bool
is_used ns name = any (λ node. any (λ x. str_eq x name) node.used) ns

unfoldable pub unused_claims : List String → List Claim
unused_claims [] = []
unused_claims (name ∷ names) = proven false (unused_events (name ∷ names)) ∷ []

abbrev pub sum_outs : List Node → ℕ
sum_outs [] = 0
sum_outs (node ∷ ns) = length node.outs + sum_outs ns

-- `unwrap_or(0)`
abbrev pub or_zero : Option ℕ → ℕ
or_zero none = 0
or_zero (some i) = i

module _ {S E : Type 0} (sm : StateMachine S E) where
  abbrev pub edges : List (List ℕ)
  edges = map (λ node. node.outs) (nodes sm)

  abbrev pub terminals : List Bool
  terminals = map (λ node. node.terminal) (nodes sm)

  abbrev pub start : ℕ
  start = or_zero (index_of (map sm.variant_name sm.state_variants) (sm.variant_name sm.initial))

  abbrev pub unused : List String
  unused =
      retain (λ name. not (is_used (nodes sm) name))
        (map sm.event_kind.variant_name sm.event_kind.event_variants)

  -- `saturating_mul` of 64 bits.
  abbrev pub coverage_claim : Claim
  coverage_claim = record {
    confidence = sampled;
    is_error = false;
    message =
        coverage (sum_outs (nodes sm))
          (min (length sm.state_variants * length sm.event_kind.event_variants) (2 ^ 64 - 1));
  }

  -- The claims, in report order.
  unfoldable pub claims_of : List Bool → List Bool → List Claim
  claims_of reachable can =
      reach_claims (length sm.state_variants) (sm.variant_name sm.initial)
        (unreachable (nodes sm) reachable)
      ++ deadlocks (nodes sm)
      ++ inescapables (nodes sm) can
      ++ dead_claims (dead_of (nodes sm))
      ++ unused_claims unused
      ++ (coverage_claim ∷ [])

  unfoldable pub analyze : Option Report
  unfolding claims_of
  analyze = elim (reachable_from start edges (length sm.state_variants)) [
    | none ↦ none
    | some reachable ↦ elim (reaches_terminal edges terminals (length sm.state_variants)) [
      | none ↦ none
      | some can ↦ some (record { claims = claims_of reachable can })
    ]
  ]
