-- ===== src/Machine/Probes.antt =====
-- `apply` and the three probes agree, and what one `apply` may change.
use mathlib.Core.List.{foldl-append}
use ironstate.Prelude.{
  ◌≡◌, refl, sym, ap, ◌∙◌, true, false, [], ◌∷◌, some, ok, err, arith, is_some, value, failure,
}
use ironstate.Machine.{
  StateMachine, Machine, TransitionRecord, TransitionError, apply, could_apply, why_not,
  peek_transition, kind_ok, error_state, into_event, fire_transition, fire_rejection,
  add_transition_listener, add_rejection_listener,
}

module _ {S E Instant W : Type 0} (sm : StateMachine S E) (m : Machine S E Instant W) (e : E) where
  -- Each probe says of `apply` what it promises, in any world: `peek_transition` is the state that
  -- `apply` returns, `why_not` is the error that it returns, and `could_apply` is whether it succeeds.
  pub apply-probes :
      (w : W)
      → (peek_transition sm m e ≡ value (apply sm m e w).2)
        × (why_not sm m e ≡ failure (apply sm m e w).2)
        × (could_apply sm m e ≡ is_some (value (apply sm m e w).2))
  unfolding peek_transition why_not apply
  apply-probes w = ground arith

  -- What an `apply` that succeeds, and one that fails, returns.
  pub apply-committed :
      (w : W) (s : S)
      → (apply sm m e w).2 ≡ ok s
      → (sm.is_terminal m.state ≡ false)
        × (kind_ok sm (sm.restriction m.state) e ≡ true)
        × (sm.transition m.state e ≡ some s)
        × ((apply sm m e w).0 ≡ record m { state = s })
        × ((apply sm m e w).1
            ≡ fire_transition m
                (record {
                  from_state = m.state;
                  event = e;
                  to_state = s;
                  timestamp = (m.clock w).0;
                })
                (m.clock w).1)
  unfolding apply kind_ok fire_transition
  apply-committed w s h = ground arith

  pub apply-refused :
      (w : W) (x : TransitionError S E)
      → (apply sm m e w).2 ≡ err x
      → ((apply sm m e w).0 ≡ m)
        × ((apply sm m e w).1 ≡ fire_rejection m x w)
        × (into_event x ≡ e)
        × (error_state x ≡ m.state)
  unfolding apply into_event error_state
  apply-refused w x h = ground arith

module _ {S E Instant W : Type 0} (sm : StateMachine S E) (m m' : Machine S E Instant W)
    (state : m'.state ≡ m.state) (e : E) where
  -- Listeners and clocks have no say in the result.
  apply-same : (w : W) → (apply sm m' e w).2 ≡ (apply sm m e w).2
  unfolding apply
  apply-same w = ground arith

module _ {S E Instant W : Type 0} (sm : StateMachine S E) (m : Machine S E Instant W) (e : E) where
  -- An `apply` that succeeds left a state that is not terminal, by an event that the state's
  -- restriction accepts, to the target of the transition function, which is the new state. Without
  -- listeners of transitions it only reads the clock; a listener added last is called once, after
  -- all else, with the record of the hop; a listener of rejections is not called.
  pub apply-ok :
      (w : W) (s : S) (l : TransitionRecord S E Instant → W → W) (k : TransitionError S E → W → W)
      → (apply sm m e w).2 ≡ ok s
      → (sm.is_terminal m.state ≡ false)
        × (kind_ok sm (sm.restriction m.state) e ≡ true)
        × (sm.transition m.state e ≡ some s)
        × ((apply sm m e w).0 ≡ record m { state = s })
        × ((apply sm (record m { on_transition = [] }) e w).1 ≡ (m.clock w).1)
        × ((apply sm (add_transition_listener m l) e w).1
            ≡ l
                (record {
                  from_state = m.state;
                  event = e;
                  to_state = s;
                  timestamp = (m.clock w).0;
                })
                (apply sm m e w).1)
        × ((apply sm (add_rejection_listener m k) e w).1 ≡ (apply sm m e w).1)
  unfolding add_transition_listener add_rejection_listener fire_transition
  apply-ok w s l k h =
      let (live, kind, target, after, heard) = apply-committed sm m e w s h in
      let bare = record m { on_transition = [] } in
      let more = add_transition_listener m l in
      let other = add_rejection_listener m k in
      (
        live,
        kind,
        target,
        after,
        (apply-committed sm bare e w s (apply-same sm m bare refl e w ∙ h)).4,
        (apply-committed sm more e w s (apply-same sm m more refl e w ∙ h)).4
            ∙ foldl-append _ (m.clock w).1 m.on_transition (l ∷ [])
            ∙ ap (l _) (sym heard),
        (apply-committed sm other e w s (apply-same sm m other refl e w ∙ h)).4 ∙ sym heard,
      )

  -- An `apply` that fails leaves the machine as it was and gives the event and the state back in the
  -- error. Without listeners of rejections it leaves the world, so that the clock is not read; a
  -- listener added last is called once, after all else, with the error; a listener of transitions is
  -- not called.
  pub apply-err :
      (w : W) (x : TransitionError S E) (l : TransitionError S E → W → W)
      (k : TransitionRecord S E Instant → W → W)
      → (apply sm m e w).2 ≡ err x
      → ((apply sm m e w).0 ≡ m)
        × (into_event x ≡ e)
        × (error_state x ≡ m.state)
        × ((apply sm (record m { on_rejection = [] }) e w).1 ≡ w)
        × ((apply sm (add_rejection_listener m l) e w).1 ≡ l x (apply sm m e w).1)
        × ((apply sm (add_transition_listener m k) e w).1 ≡ (apply sm m e w).1)
  unfolding add_transition_listener add_rejection_listener fire_rejection
  apply-err w x l k h =
      let (same, heard, event, state) = apply-refused sm m e w x h in
      let bare = record m { on_rejection = [] } in
      let more = add_rejection_listener m l in
      let other = add_transition_listener m k in
      (
        same,
        event,
        state,
        (apply-refused sm bare e w x (apply-same sm m bare refl e w ∙ h)).1,
        (apply-refused sm more e w x (apply-same sm m more refl e w ∙ h)).1
            ∙ foldl-append _ w m.on_rejection (l ∷ [])
            ∙ ap (l x) (sym heard),
        (apply-refused sm other e w x (apply-same sm m other refl e w ∙ h)).1 ∙ sym heard,
      )
