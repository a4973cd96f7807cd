-- ===== src/Analysis/Clean.antt =====
-- The report of `analyze` has no errors exactly if the machine's graph is as it should be.
use mathlib.Core.List.{Memᴰ}
use ironstate.Prelude.{
  ℕ, zero, suc, ◌<◌, ◌≡◌, refl, sym, ◌∙◌, ap, subst, ◌↔◌, ◌⊎◌, inl, inr, All-map, Bool, true, false,
  List, [], ◌∷◌, ◌++◌, map, none, some, arith, length, get_elem?, All, Option-cases, retain, not,
}
use ironstate.Machine.{StateMachine}
use ironstate.Analysis.{reachable_from, reaches_terminal}
use ironstate.Analysis.Report.{
  index_of, Node, Claim, node_of, nodes, dead_of, dead_claims, Report, has_errors, unreachable,
  reach_claims, deadlocks, inescapables, unused_claims, is_empty, edges, terminals, start, or_zero,
  claims_of, analyze, unused, coverage_claim,
}
use ironstate.Analysis.Edges.{index_of-bound, outs-Fires, dead-IsUnblocked, IsUnblocked}
use ironstate.Analysis.Marking.{IsSeen}
use ironstate.Analysis.Search.{AreInRange, Reach}
use ironstate.Analysis.Reachable.{reachable_from-Reach}
use ironstate.Analysis.Terminal.{Leads, reaches_terminal-Leads}
use ironstate.Analysis.Verdict.{
  IsQuiet, append-IsQuiet, length-map, get_elem?-map, map-get_elem?, unreachable-nil,
  reach_claims-IsQuiet, dead_claims-IsQuiet, unused_claims-IsQuiet, Escapes, AllEscape, escapes,
}

-- `reachable_from`, of no states too.
reachable_from-total :
    (from : ℕ) (rows : List (List ℕ))
    → (0 < length rows → from < length rows)
    → AreInRange rows
    → (seen : List Bool) × (reachable_from from rows (length rows) ≡ some seen)
      × (length seen ≡ length rows)
      × ((i : ℕ) → i < length rows → IsSeen seen i ↔ Reach rows (λ k. k ≡ from) i)
unfolding reachable_from
reachable_from-total from [] below range = ([], refl, refl, λ i lt. absurd (omega arith))
reachable_from-total from (row ∷ rows) below range =
    let (seen, done, size, exact) =
      reachable_from-Reach from (row ∷ rows) (below (omega arith)) range in
    (seen, done, size, λ i lt. exact i)

-- A state's row is not empty where an edge leaves it.
not_empty : (outs : List ℕ) (j : ℕ) → Memᴰ j outs → is_empty outs ≡ false
not_empty [] j h = elim h [ ]
not_empty (x ∷ outs) j h = refl

AllEscape-at :
    (ns : List Node) (can : List Bool)
    → AllEscape ns can
    → (i : ℕ) (node : Node) → get_elem? ns i ≡ some node
    → (c : Bool) × (get_elem? can i ≡ some c) × Escapes node c
AllEscape-at [] can h i node e = absurd (cc)
AllEscape-at (n ∷ ns) [] h i node e = absurd (h)
AllEscape-at (n ∷ ns) (c ∷ can) h zero node e =
    let same : n ≡ node = cc e in (c, refl, subst (λ m. Escapes m c) same h.0)
AllEscape-at (n ∷ ns) (c ∷ can) h (suc i) node e = AllEscape-at ns can h.1 i node e

at-AllEscape :
    (ns : List Node) (can : List Bool)
    → length can ≡ length ns
    → ((i : ℕ) (node : Node) (c : Bool)
        → get_elem? ns i ≡ some node
        → get_elem? can i ≡ some c
        → Escapes node c)
    → AllEscape ns can
at-AllEscape [] can size h = tt
at-AllEscape (n ∷ ns) [] size h = absurd (omega (arith, size))
at-AllEscape (n ∷ ns) (c ∷ can) size h =
    (h 0 n c refl refl, at-AllEscape ns can (omega (arith, size)) (λ i. h (suc i)))

append-nil_both : {A : Type 0} (xs ys : List A) → ((xs ++ ys) ≡ []) ↔ ((xs ≡ []) × (ys ≡ []))
append-nil_both [] ys = (λ h. (refl, h), λ h. h.1)
append-nil_both (x ∷ xs) ys = (λ h. cc, λ h. absurd (let bad = h.0 in cc))

dead_of-nil :
    {S : Type 0} (f : S → Node) (states : List S)
    → (dead_of (map f states) ≡ []) ↔ All (λ s. (f s).dead ≡ []) states
unfolding dead_of
dead_of-nil f [] = (λ h. tt, λ h. refl)
dead_of-nil f (s ∷ states) =
    let both = append-nil_both (f s).dead (dead_of (map f states)) in
    let rest = dead_of-nil f states in
    (λ h. ((both.0 h).0, rest.0 (both.0 h).1), λ h. both.1 (h.0, rest.1 h.1))

get_elem?-bound :
    {A : Type 0} (xs : List A) (i : ℕ) → i < length xs → (x : A) × (get_elem? xs i ≡ some x)
get_elem?-bound [] i h = absurd (omega arith)
get_elem?-bound (x ∷ xs) zero h = (x, refl)
get_elem?-bound (x ∷ xs) (suc i) h = get_elem?-bound xs i (omega arith)

lt-get_elem? : {A : Type 0} (xs : List A) (i : ℕ) (x : A) → get_elem? xs i ≡ some x → i < length xs
lt-get_elem? [] i x h = absurd (cc)
lt-get_elem? (y ∷ xs) zero x h = omega arith
lt-get_elem? (y ∷ xs) (suc i) x h = omega (arith, lt-get_elem? xs i x h)

report-IsQuiet :
    (a b c d e f : List Claim)
    → IsQuiet e
    → IsQuiet f
    → IsQuiet (a ++ b ++ c ++ d ++ e ++ f) ↔ (IsQuiet a × IsQuiet b × IsQuiet c × IsQuiet d)
report-IsQuiet a b c d e f he hf =
    let lb = append-IsQuiet a b in
    let lc = append-IsQuiet (a ++ b) c in
    let ld = append-IsQuiet (a ++ b ++ c) d in
    let le = append-IsQuiet (a ++ b ++ c ++ d) e in
    let lf = append-IsQuiet (a ++ b ++ c ++ d ++ e) f in
    (
      λ h.
          let hd = (le.0 (lf.0 h).0).0 in
          let hc = (ld.0 hd).0 in
          let hb = (lc.0 hc).0 in ((lb.0 hb).0, (lb.0 hb).1, (lc.0 hc).1, (ld.0 hd).1),
      λ h. lf.1 (le.1 (ld.1 (lc.1 (lb.1 (h.0, h.1), h.2), h.3), he), hf),
    )

module _ {S E : Type 0} (sm : StateMachine S E) where
  abbrev names : List ironstate.Prelude.String
  names = map sm.variant_name sm.state_variants

  -- Every variant is reachable over the edges from the initial one, from every variant they lead to a
  -- terminal one, and no transition that is defined is blocked.
  pub record IsClean : Type 0 where
    pub reached : (i : ℕ) → i < length sm.state_variants → Reach (edges sm) (λ k. k ≡ start sm) i
    pub leading : (i : ℕ) → i < length sm.state_variants → Leads (edges sm) (terminals sm) i
    pub unblocked :
        All (λ s. All (IsUnblocked sm names s) sm.event_kind.event_variants) sm.state_variants

  length-nodes : length (nodes sm) ≡ length sm.state_variants
  unfolding nodes
  length-nodes = length-map _ sm.state_variants

  length-edges : length (edges sm) ≡ length sm.state_variants
  length-edges = length-map _ (nodes sm) ∙ length-nodes

  edges-AreInRange : AreInRange (edges sm)
  unfolding nodes
  edges-AreInRange i j outs found target =
      let (node, at, same) = get_elem?-map (λ node. node.outs) (nodes sm) i outs found in
      let (s, there, made) = get_elem?-map _ sm.state_variants i node at in
      let m : Memᴰ j (node_of sm names s sm.event_kind.event_variants).outs =
        subst (Memᴰ j) (sym (ap (λ n. n.outs) made ∙ same)) target in
      let (e, listed, fires) = (outs-Fires sm names s sm.event_kind.event_variants j).0 m in
      let below = index_of-bound names (sm.variant_name fires.target) j fires.placed in
      omega (arith, below, length-map sm.variant_name sm.state_variants, length-edges)

  start-bound : 0 < length (edges sm) → start sm < length (edges sm)
  start-bound h = elim (Option-cases (index_of names (sm.variant_name sm.initial))) [
    | inl absent ↦ subst (λ o. or_zero o < length (edges sm)) (sym absent) h
    | inr (k, placed) ↦
        let below = index_of-bound names (sm.variant_name sm.initial) k placed in
        let inside : k < length (edges sm) =
          omega (arith, below, length-map sm.variant_name sm.state_variants, length-edges) in
        subst (λ o. or_zero o < length (edges sm)) (sym placed) inside
  ]

  Leads-onward :
      (i : ℕ) (node : Node)
      → get_elem? (nodes sm) i ≡ some node
      → Leads (edges sm) (terminals sm) i
      → (node.terminal ≡ true) ⊎ (is_empty node.outs ≡ false)
  Leads-onward i node at (Leads.ended h) =
      let same : some node.terminal ≡ some true =
        sym (map-get_elem? (λ n. n.terminal) (nodes sm) i node at) ∙ h in
      inl (cc)
  Leads-onward i node at (Leads.onward {j = j} {outs} found m path) =
      let same : some node.outs ≡ some outs =
        sym (map-get_elem? (λ n. n.outs) (nodes sm) i node at) ∙ found in
      let eq : node.outs ≡ outs = cc same in inr (not_empty node.outs j (subst (Memᴰ j) (sym eq) m))

  leading-AllEscape :
      (can : List Bool)
      → length can ≡ length (edges sm)
      → ((i : ℕ) → IsSeen can i ↔ Leads (edges sm) (terminals sm) i)
      → AllEscape (nodes sm) can
        ↔ ((i : ℕ) → i < length sm.state_variants → Leads (edges sm) (terminals sm) i)
  leading-AllEscape can size exact = (
    (λ all i lt.
        let (node, at) = get_elem?-bound (nodes sm) i (omega (arith, lt, length-nodes)) in
        let (c, found, escape) = AllEscape-at (nodes sm) can all i node at in
        elim escape [
          | inl ends ↦
              Leads.ended (map-get_elem? (λ n. n.terminal) (nodes sm) i node at ∙ ap some ends)
          | inr (leaves, seen) ↦ (exact i).0 (found ∙ ap some seen)
        ]),
    (λ all.
        at-AllEscape (nodes sm) can (omega (arith, size, length-edges, length-nodes))
          (λ i node c at found.
            let lt = lt-get_elem? (nodes sm) i node at in
            let path = all i (omega (arith, lt, length-nodes)) in
            let seen : some c ≡ some true = sym found ∙ (exact i).1 path in
            let marked : c ≡ true = cc seen in
            elim (Leads-onward i node at path) [
              | inl ends ↦ inl ends
              | inr leaves ↦ inr (leaves, marked)
            ])),
  )

  dead_of-IsUnblocked :
      (dead_of (nodes sm) ≡ [])
      ↔ All (λ s. All (IsUnblocked sm names s) sm.event_kind.event_variants) sm.state_variants
  unfolding nodes
  dead_of-IsUnblocked =
      let events = sm.event_kind.event_variants in
      let all = dead_of-nil (λ s. node_of sm names s events) sm.state_variants in
      (
        λ h.
            All-map _ _ sm.state_variants (λ s d. (dead-IsUnblocked sm names s events).0 d)
              (all.0 h),
        λ h.
            all.1
              (All-map _ _ sm.state_variants (λ s d. (dead-IsUnblocked sm names s events).1 d) h),
      )

  -- The claims are free of errors exactly if each part is.
  claims_of-IsQuiet :
      (reachable can : List Bool)
      → IsQuiet (claims_of sm reachable can) ↔ (
          (unreachable (nodes sm) reachable ≡ [])
          × (IsQuiet (deadlocks (nodes sm)) × IsQuiet (inescapables (nodes sm) can))
          × (dead_of (nodes sm) ≡ []))
  unfolding claims_of
  claims_of-IsQuiet reachable can =
      let ns = nodes sm in
      let first =
        reach_claims-IsQuiet (length sm.state_variants) (sm.variant_name sm.initial)
          (unreachable ns reachable) in
      let fourth = dead_claims-IsQuiet (dead_of ns) in
      let parts =
        report-IsQuiet
          (reach_claims (length sm.state_variants) (sm.variant_name sm.initial)
            (unreachable ns reachable))
          (deadlocks ns) (inescapables ns can) (dead_claims (dead_of ns))
          (unused_claims (unused sm)) (coverage_claim sm ∷ []) (unused_claims-IsQuiet (unused sm))
          refl in
      (
        λ h. let q = parts.0 h in (first.0 q.0, (q.1, q.2), fourth.0 q.3),
        λ h. parts.1 (first.1 h.0, h.1.0, h.1.1, fourth.1 h.2),
      )

  -- For every machine analyze gives a report without a panic, and the report has no errors
  -- exactly if over the edges that it built every variant is reachable from the initial one and
  -- a path leads from every variant to a terminal one, and no transition defined between the
  -- variants is blocked by enforcement.
  pub analyze-IsClean : (r : Report) × (analyze sm ≡ some r) × ((has_errors r ≡ false) ↔ IsClean)
  unfolding analyze has_errors
  analyze-IsClean =
      let n = length sm.state_variants in
      let (seen, reach, seen_size, reached) =
        reachable_from-total (start sm) (edges sm) start-bound edges-AreInRange in
      let same_size : length (terminals sm) ≡ length (edges sm) =
        length-map _ (nodes sm) ∙ length-nodes ∙ sym length-edges in
      let (can, lead, can_size, leads) =
        reaches_terminal-Leads (edges sm) (terminals sm) same_size edges-AreInRange in
      let reach_n : reachable_from (start sm) (edges sm) n ≡ some seen =
        subst (λ k. reachable_from (start sm) (edges sm) k ≡ some seen) length-edges reach in
      let lead_n : reaches_terminal (edges sm) (terminals sm) n ≡ some can =
        subst (λ k. reaches_terminal (edges sm) (terminals sm) k ≡ some can) length-edges lead in
      let quiet = claims_of-IsQuiet seen can in
      let marked =
        unreachable-nil (nodes sm) seen (omega (arith, seen_size, length-edges, length-nodes)) in
      let escaping = escapes (nodes sm) can (omega (arith, can_size, length-edges, length-nodes)) in
      let led = leading-AllEscape can can_size leads in
      (
        record { claims = claims_of sm seen can },
        rw (reach_n, analyze) (rw (lead_n, analyze) refl),
        (
          λ h. record {
            reached = λ i lt.
                (reached i (omega (arith, lt, length-edges))).0
                  (marked.0 (quiet.0 h).0 i (omega (arith, lt, length-nodes)));
            leading = led.0 (escaping.0 (quiet.0 h).1);
            unblocked = dead_of-IsUnblocked.0 (quiet.0 h).2;
          },
          λ c. quiet.1 (
            marked.1 (λ i lt.
                (reached i (omega (arith, lt, length-edges, length-nodes))).1
                  (c.reached i (omega (arith, lt, length-nodes)))),
            escaping.1 (led.1 c.leading),
            dead_of-IsUnblocked.1 c.unblocked,
          ),
        ),
      )
