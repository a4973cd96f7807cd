-- ===== src/Analysis/Edges.antt =====
-- The edges and the blocked transitions that `analyze` finds, against the machine.
use mathlib.Core.List.{Memᴰ}
use mathlib.Core.List.Memᴰ
use ironstate.Prelude.{
  ℕ, suc, ◌<◌, ◌≡◌, refl, sym, ◌∙◌, ap, subst, ◌↔◌, inl, inr, true, false, List, [], ◌∷◌, none,
  some, arith, length, Option, Option-cases, Bool-cases, All, String, str_eq,
}
use ironstate.Machine.{StateMachine}
use ironstate.Analysis.Report.{index_of, Node, indexed, structurally_allowed, visited, node_of}

pub index_of-bound :
    (names : List String) (name : String) (i : ℕ) → index_of names name ≡ some i → i < length names
unfolding index_of
index_of-bound [] name i h = absurd (cc)
index_of-bound (n ∷ names) name i h = elim (Bool-cases (str_eq n name)) [
  | inl here ↦
      let at : some 0 ≡ some i = rw here at h in let eq : 0 ≡ i = cc at in omega (arith, eq)
  | inr later ↦ elim (Option-cases (index_of names name)) [
    | inl absent ↦ let bad : none ≡ some i = rw absent at (rw later at h) in cc
    | inr (k, found) ↦
        let at : some (suc k) ≡ some i = rw found at (rw later at h) in
        let eq : suc k ≡ i = cc at in omega (arith, eq, index_of-bound names name k found)
  ]
]

module _ {S E : Type 0} (sm : StateMachine S E) (names : List String) (s : S) where
  -- An event takes the state to a variant of that index, and enforcement lets it.
  pub record Fires (e : E) (j : ℕ) : Type 0 where
    pub target : S
    pub defined : sm.transition s e ≡ some target
    pub allowed : structurally_allowed sm s e ≡ true
    pub placed : index_of names (sm.variant_name target) ≡ some j

  -- Every transition that is defined is let through.
  abbrev pub IsUnblocked : E → Type 0
  IsUnblocked e = (t : S) → sm.transition s e ≡ some t → structurally_allowed sm s e ≡ true

  node_of-Fires :
      (events : List E) (j : ℕ)
      → Memᴰ j (node_of sm names s events).outs
      → (e : E) × Memᴰ e events × Fires e j
  unfolding node_of visited indexed
  node_of-Fires [] j h = elim h [ ]
  node_of-Fires (e ∷ events) j h =
      let later : Memᴰ j (node_of sm names s events).outs
          → (e' : E) × Memᴰ e' (e ∷ events) × Fires e' j =
        λ m. (
          (node_of-Fires events j m).0,
          Memᴰ.tail (node_of-Fires events j m).1,
          (node_of-Fires events j m).2,
        ) in
      elim (Option-cases (sm.transition s e)) [
        | inl undefined ↦ later (rw undefined at h)
        | inr (t, defined) ↦ elim (Bool-cases (structurally_allowed sm s e)) [
          | inr blocked ↦ later (rw blocked at (rw (defined, visited) at h))
          | inl allowed ↦ elim (Option-cases (index_of names (sm.variant_name t))) [
            | inl unplaced ↦ later (rw unplaced at (rw allowed at (rw (defined, visited) at h)))
            | inr (k, placed) ↦
                let m : Memᴰ j (k ∷ (node_of sm names s events).outs) =
                  rw placed at (rw allowed at (rw (defined, visited) at h)) in
                elim (Memᴰ.cases_cons m) [
                  | inl same ↦ (
                    e,
                    Memᴰ.head refl,
                    record {
                      target = t;
                      defined = defined;
                      allowed = allowed;
                      placed = placed ∙ ap some (sym same);
                    },
                  )
                  | inr rest ↦ later rest
                ]
          ]
        ]
      ]

  visited-Memᴰ :
      (e : E) (o : Option S) (node : Node) (j : ℕ)
      → Memᴰ j node.outs
      → Memᴰ j (visited sm names s e o node).outs
  unfolding visited indexed
  visited-Memᴰ e none node j h = h
  visited-Memᴰ e (some t) node j h = elim (Bool-cases (structurally_allowed sm s e)) [
    | inr blocked ↦ rw (blocked, visited) h
    | inl allowed ↦ elim (Option-cases (index_of names (sm.variant_name t))) [
      | inl unplaced ↦ rw (allowed, visited) (rw (unplaced, indexed) h)
      | inr (k, placed) ↦ rw (allowed, visited) (rw (placed, indexed) (Memᴰ.tail h))
    ]
  ]

  Fires-node_of :
      (events : List E) (j : ℕ) (e : E)
      → Memᴰ e events
      → Fires e j
      → Memᴰ j (node_of sm names s events).outs
  unfolding node_of visited indexed
  Fires-node_of [] j e h f = elim h [ ]
  Fires-node_of (e' ∷ events) j e h f = elim (Memᴰ.cases_cons h) [
    | inr later ↦
        visited-Memᴰ e' (sm.transition s e') (node_of sm names s events) j
          (Fires-node_of events j e later f)
    | inl same ↦
        subst (λ x. Memᴰ j (node_of sm names s (x ∷ events)).outs) same
          (rw (f.defined, visited)
            (rw (f.allowed, visited) (rw (f.placed, indexed) (Memᴰ.head refl))))
  ]

  pub outs-Fires :
      (events : List E) (j : ℕ)
      → Memᴰ j (node_of sm names s events).outs ↔ ((e : E) × Memᴰ e events × Fires e j)
  outs-Fires events j = (node_of-Fires events j, λ t. Fires-node_of events j t.0 t.1 t.2)

  indexed-dead :
      (event : String) (o : Option ℕ) (node : Node) → (indexed event o node).dead ≡ node.dead
  unfolding indexed
  indexed-dead event none node = refl
  indexed-dead event (some k) node = refl

  visited-dead :
      (e : E) (o : Option S) (node : Node)
      → (visited sm names s e o node).dead ≡ []
        ↔ (((t : S) → o ≡ some t → structurally_allowed sm s e ≡ true) × (node.dead ≡ []))
  unfolding visited
  visited-dead e none node = (λ h. (λ t absent. cc, h), λ h. h.1)
  visited-dead e (some t) node = elim (Bool-cases (structurally_allowed sm s e)) [
    | inr blocked ↦ (
      λ h.
          let bad : (visited sm names s e (some t) node).dead ≡ [] = h in
          let worse = rw blocked at bad in absurd (cc),
      λ h. let bad : false ≡ true = sym blocked ∙ h.0 t refl in cc,
    )
    | inl allowed ↦
        let same : (visited sm names s e (some t) node).dead ≡ node.dead =
          rw (allowed, visited) (indexed-dead (sm.event_kind.variant_name e) _ node) in
        (λ h. (λ u there. allowed, sym same ∙ h), λ h. same ∙ h.1)
  ]

  -- No transition of the state is reported exactly if none is blocked.
  pub dead-IsUnblocked :
      (events : List E) → (node_of sm names s events).dead ≡ [] ↔ All IsUnblocked events
  unfolding node_of
  dead-IsUnblocked [] = (λ h. tt, λ h. refl)
  dead-IsUnblocked (e ∷ events) =
      let here = visited-dead e (sm.transition s e) (node_of sm names s events) in
      let rest = dead-IsUnblocked events in
      (λ h. ((here.0 h).0, rest.0 (here.0 h).1), λ h. here.1 (h.0, rest.1 h.1))
