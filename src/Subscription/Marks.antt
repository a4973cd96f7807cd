-- ===== src/Subscription/Marks.antt =====
-- The high-water marks: when they move, and what they keep out.
use ironstate.Prelude.{
  ◌≤◌, ◌≡◌, refl, ◌∙◌, ap, true, false, inl, inr, some, ok, err, arith, Bool-cases, Result-cases,
  if◌then◌else◌, str_eq, eq_iff,
}
use ironstate.Prelude.Map.{get-insert}
use ironstate.Aggregate.{AggregateRules, Aggregate}
use ironstate.Entropy.{CtxEntropy}
use ironstate.Journal.{Seq, StreamId, ExecuteError, Journal}
use ironstate.Subscription.{
  SourceEvent, React, Subscription, applied, duplicate, mark, is_seen, deliver,
}

-- An event at or below the mark of its stream is dropped.
dropped :
    {F T : AggregateRules} {J Source : Type 0} (jr : Journal T J (Unit {0}))
    (c : CtxEntropy T.Ctx Source) (target_stream : StreamId) (r : React F T) (sub : Subscription)
    (source : SourceEvent F) (target : Aggregate T) (ctx : T.Ctx) (j : J) (m : Seq)
    → mark sub source.stream ≡ some m
    → source.at ≤ m
    → deliver jr c target_stream r sub source target ctx j ≡ (sub, j, target, ctx, ok duplicate)
unfolding deliver
dropped jr c target_stream r sub source target ctx j m h below = ground arith

module _ {F T : AggregateRules} {J Source : Type 0} (jr : Journal T J (Unit {0}))
    (c : CtxEntropy T.Ctx Source) (target_stream : StreamId) (r : React F T) (sub : Subscription)
    (source : SourceEvent F) (target : Aggregate T) (ctx : T.Ctx) (j : J) where
  -- An event was dropped as a duplicate exactly when its sequence is at or below the mark of its
  -- stream, and then nothing has changed.
  pub deliver-duplicate :
      (deliver jr c target_stream r sub source target ctx j).4 ≡ ok duplicate
      → (is_seen (mark sub source.stream) source.at ≡ true)
        × (deliver jr c target_stream r sub source target ctx j
            ≡ (sub, j, target, ctx, ok duplicate))
  unfolding deliver
  deliver-duplicate h = ground arith

  -- After an event was applied its sequence is the mark of its stream, and no other mark moved.
  pub deliver-applied :
      (k : StreamId)
      → (deliver jr c target_stream r sub source target ctx j).4 ≡ ok applied
      → (is_seen (mark sub source.stream) source.at ≡ false)
        × (mark (deliver jr c target_stream r sub source target ctx j).0 k
            ≡ (if str_eq source.stream k then some source.at else mark sub k))
  unfolding deliver
  deliver-applied k h = ground (arith, get-insert source.stream k source.at sub.marks)

  -- A delivery that fails leaves every mark.
  pub deliver-err :
      (e : ExecuteError T)
      → (deliver jr c target_stream r sub source target ctx j).4 ≡ err e
      → (deliver jr c target_stream r sub source target ctx j).0 ≡ sub
  unfolding deliver
  deliver-err e h = ground arith

  -- Marks never move back: whatever a delivery answers, a stream that had a mark has one that is no
  -- lower.
  pub deliver_mono :
      (k : StreamId) (m : Seq)
      → mark sub k ≡ some m
      → (m' : Seq) × (mark (deliver jr c target_stream r sub source target ctx j).0 k ≡ some m')
        × (m ≤ m')
  deliver_mono k m h =
      elim (Result-cases (deliver jr c target_stream r sub source target ctx j).4) [
        | inl (duplicate, e) ↦ (m, ap (λ t. mark t.0 k) (deliver-duplicate e).1 ∙ h, omega arith)
        | inl (applied, e) ↦
            let (fresh, moved) = deliver-applied k e in
            elim (Bool-cases (str_eq source.stream k)) [
              | inl same ↦
                  let here : mark sub source.stream ≡ some m =
                    ap (mark sub) ((eq_iff source.stream k).0 same) ∙ h in
                  let above : is_seen (some m) source.at ≡ false = rw here at fresh in
                  (source.at, moved ∙ rw same, unfold is_seen in ground arith)
              | inr other ↦ (m, moved ∙ rw other h, omega arith)
            ]
        | inr (x, e) ↦ (m, ap (λ t. mark t k) (deliver-err x e) ∙ h, omega arith)
      ]

  -- After a delivery that was applied, every further event of the same source at the same or a
  -- lower sequence is dropped as a duplicate, and nothing changes; the other events of the same
  -- record are among them.
  pub deliver_again :
      (deliver jr c target_stream r sub source target ctx j).4 ≡ ok applied
      → (again : SourceEvent F) (target' : Aggregate T) (ctx' : T.Ctx) (j' : J)
      → again.stream ≡ source.stream
      → again.at ≤ source.at
      → deliver jr c target_stream r
          (deliver jr c target_stream r sub source target ctx j).0
          again
          target'
          ctx'
          j'
        ≡ (
          (deliver jr c target_stream r sub source target ctx j).0,
          j',
          target',
          ctx',
          ok duplicate,
        )
  deliver_again h again target' ctx' j' same below =
      let sub' = (deliver jr c target_stream r sub source target ctx j).0 in
      let own : mark sub' source.stream ≡ some source.at =
        (deliver-applied source.stream h).1 ∙ rw ((eq_iff source.stream source.stream).1 refl) in
      let there : mark sub' again.stream ≡ some source.at = ap (mark sub') same ∙ own in
      dropped jr c target_stream r sub' again target' ctx' j' source.at there below
