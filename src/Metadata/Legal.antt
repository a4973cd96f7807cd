-- ===== src/Metadata/Legal.antt =====
-- The transitions that the metadata lists are those that a machine can take.
use mathlib.Core.List.{Memᴰ}
use mathlib.Core.List.Memᴰ
use ironstate.Prelude.{
  ◌≡◌, refl, sym, ◌∙◌, ap, subst, ◌↔◌, ◌⊎◌, inl, inr, Bool, true, false, List, [], ◌∷◌, ◌++◌,
  Option, none, some, ok, arith, Bool-cases, if◌then◌else◌,
}
use ironstate.Kind.{Kind}
use ironstate.Machine.{StateMachine, Machine, apply, kind_ok}
use ironstate.Machine.Probes.{apply-committed}
use ironstate.Metadata.{build, edge, edges_of, edges_from}

module _ {S E : Type 0} (sm : StateMachine S E) where
  -- What structural enforcement and the transition function let through.
  abbrev pub IsLegal : S → E → S → Type 0
  IsLegal s e t =
      (sm.is_terminal s ≡ false)
      × (kind_ok sm (sm.restriction s) e ≡ true)
      × (sm.transition s e ≡ some t)

  edge-cases :
      (s : S) (e : E) (accepted : Bool) (target : Option S) (rest : List (S × E × S)) (s' : S)
      (e' : E) (t : S)
      → Memᴰ (s', e', t) (edge s e accepted target rest)
      → ((s' ≡ s) × (e' ≡ e) × (accepted ≡ true) × (target ≡ some t)) ⊎ Memᴰ (s', e', t) rest
  unfolding edge
  edge-cases s e false target rest s' e' t h = inr h
  edge-cases s e true none rest s' e' t h = inr h
  edge-cases s e true (some x) rest s' e' t (Memᴰ.head same) =
      inl (ap (λ p. p.0) same, ap (λ p. p.1) same, refl, ap (λ p. some p.2) (sym same))
  edge-cases s e true (some x) rest s' e' t (Memᴰ.tail h) = inr h

  edge-rest :
      (s : S) (e : E) (accepted : Bool) (target : Option S) (rest : List (S × E × S))
      (p : S × E × S)
      → Memᴰ p rest
      → Memᴰ p (edge s e accepted target rest)
  unfolding edge
  edge-rest s e false target rest p h = h
  edge-rest s e true none rest p h = h
  edge-rest s e true (some x) rest p h = Memᴰ.tail h

  edges_of-Mem :
      (s : S) (r : Option (List Kind)) (events : List E) (s' : S) (e' : E) (t : S)
      → Memᴰ (s', e', t) (edges_of sm s r events)
      → (s' ≡ s) × Memᴰ e' events × (kind_ok sm r e' ≡ true) × (sm.transition s e' ≡ some t)
  unfolding edges_of
  edges_of-Mem s r [] s' e' t h = absurd (Memᴰ.not-nil h)
  edges_of-Mem s r (e ∷ events) s' e' t h =
      elim (edge-cases s e (kind_ok sm r e) (sm.transition s e) (edges_of sm s r events) s' e' t
        h) [
          | inl (same_s, same_e, accepted, target) ↦ (
            same_s,
            Memᴰ.head same_e,
            ap (kind_ok sm r) same_e ∙ accepted,
            ap (sm.transition s) same_e ∙ target,
          )
          | inr later ↦
              let (same_s, mem, accepted, target) = edges_of-Mem s r events s' e' t later in
              (same_s, Memᴰ.tail mem, accepted, target)
        ]

  Mem-edges_of :
      (s : S) (r : Option (List Kind)) (events : List E) (e' : E) (t : S)
      → Memᴰ e' events
      → kind_ok sm r e' ≡ true
      → sm.transition s e' ≡ some t
      → Memᴰ (s, e', t) (edges_of sm s r events)
  unfolding edges_of edge
  Mem-edges_of s r [] e' t h accepted target = elim h [ ]
  Mem-edges_of s r (e ∷ events) e' t (Memᴰ.head same) accepted target =
      rw (sym (ap (kind_ok sm r) same) ∙ accepted, sym (ap (sm.transition s) same) ∙ target)
        (Memᴰ.head (ap (λ x. (s, x, t)) same))
  Mem-edges_of s r (e ∷ events) e' t (Memᴰ.tail h) accepted target =
      edge-rest s e (kind_ok sm r e) (sm.transition s e) (edges_of sm s r events) (s, e', t)
        (Mem-edges_of s r events e' t h accepted target)

  edges_from-Mem :
      (events : List E) (states : List S) (s : S) (e : E) (t : S)
      → Memᴰ (s, e, t) (edges_from sm events states)
      → Memᴰ s states × Memᴰ e events × IsLegal s e t
  unfolding edges_from
  edges_from-Mem events [] s e t h = elim h [ ]
  edges_from-Mem events (x ∷ states) s e t h =
      let below : Memᴰ (s, e, t) (edges_from sm events states)
          → Memᴰ s (x ∷ states) × Memᴰ e events × IsLegal s e t =
        λ later.
          let (m, mem, legal) = edges_from-Mem events states s e t later in
          (Memᴰ.tail m, mem, legal) in
      elim (Bool-cases (sm.is_terminal x)) [
        | inl ended ↦ below (
            subst
              (λ b.
                Memᴰ (s, e, t)
                  (if b
                    then edges_from sm events states
                    else edges_of sm x (sm.restriction x) events ++ edges_from sm events states))
              ended h)
        | inr going ↦
            let either =
              subst
                (λ b.
                  Memᴰ (s, e, t)
                    (if b
                      then edges_from sm events states
                      else edges_of sm x (sm.restriction x) events ++ edges_from sm events states))
                going h in
            elim (Memᴰ.append_cases (edges_of sm x (sm.restriction x) events) either) [
              | inl here ↦
                  let (same, mem, accepted, target) =
                    edges_of-Mem x (sm.restriction x) events s e t here in
                  (
                    Memᴰ.head same,
                    mem,
                    (
                      ap sm.is_terminal same ∙ going,
                      ap (λ y. kind_ok sm (sm.restriction y) e) same ∙ accepted,
                      ap (λ y. sm.transition y e) same ∙ target,
                    ),
                  )
              | inr later ↦ below later
            ]
      ]

  Mem-edges_from :
      (events : List E) (states : List S) (s : S) (e : E) (t : S)
      → Memᴰ s states
      → Memᴰ e events
      → IsLegal s e t
      → Memᴰ (s, e, t) (edges_from sm events states)
  unfolding edges_from
  Mem-edges_from events [] s e t h mem legal = elim h [ ]
  Mem-edges_from events (x ∷ states) s e t (Memᴰ.head same) mem (going, accepted, target) =
      subst
        (λ y.
          Memᴰ (s, e, t)
            (if sm.is_terminal y
              then edges_from sm events states
              else edges_of sm y (sm.restriction y) events ++ edges_from sm events states))
        same
        (rw (going) (
          Memᴰ.append_left (edges_from sm events states)
            (Mem-edges_of s (sm.restriction s) events e t mem accepted target)))
  Mem-edges_from events (x ∷ states) s e t (Memᴰ.tail h) mem legal =
      let rest = Mem-edges_from events states s e t h mem legal in
      elim (Bool-cases (sm.is_terminal x)) [
        | inl ended ↦ rw (ended) rest
        | inr going ↦ rw (going) (Memᴰ.append_right (edges_of sm x (sm.restriction x) events) rest)
      ]

  apply-legal :
      {Instant W : Type 0} (m : Machine S E Instant W) (e : E) (w : W) (t : S)
      → IsLegal m.state e t
      → (apply sm m e w).2 ≡ ok t
  unfolding apply kind_ok
  apply-legal m e w t (going, accepted, target) = ground arith

  -- The metadata lists a transition out of a machine's state exactly when the state and the event
  -- are among the variants and the machine, in any world, takes it.
  pub build-apply :
      {Instant W : Type 0} (m : Machine S E Instant W) (e : E) (w : W) (t : S)
      → Memᴰ (m.state, e, t) (build sm).transitions ↔ (
          Memᴰ m.state sm.state_variants
          × Memᴰ e sm.event_kind.event_variants
          × ((apply sm m e w).2 ≡ ok t))
  unfolding build
  build-apply m e w t =
      let events = sm.event_kind.event_variants in
      (
        λ h.
            let (state, event, legal) = edges_from-Mem events sm.state_variants m.state e t h in
            (state, event, apply-legal m e w t legal),
        λ (state, event, taken).
            let (going, accepted, target, after, heard) = apply-committed sm m e w t taken in
            Mem-edges_from events sm.state_variants m.state e t state event
              (going, accepted, target),
      )
