-- ===== src/Replay/Execute.antt =====
-- One turn of the persistent loop, over any journal: what a failure leaves behind.
use ironstate.Prelude.{
  ◌<◌, ◌^◌, ◌≡◌, sym, ◌∙◌, ap, inl, inr, List, some, Result, ok, err, arith, foldl, Result-cases,
  Option-cases,
}
use ironstate.Aggregate.{AggregateRules, Aggregate, Rejection, evolve, decide_only}
use ironstate.Entropy.{CtxEntropy}
use ironstate.Journal.{
  Seq, DrawPos, StreamId, JournalError, ExecuteError, rejected, journal, Journal,
}
use ironstate.Replay.{
  commit, commit_pending, rewind, rewind_in, draws_or, draws_of, prepare, head_pos, execute_in,
  execute,
}

-- What the interface of the entropy promises: a context gives back the source put into it, and a
-- source that was moved to a 64-bit position is at that position.
pub record CtxLaws {Ctx Source : Type 0} (c : CtxEntropy Ctx Source) : Type 0 where
  pub read_back : (s : Source) (ctx : Ctx) → c.entropy (c.with_entropy s ctx) ≡ some s
  pub draws-seek : (p : DrawPos) (s : Source) → p < 2 ^ 64 → c.source.draws (c.source.seek p s) ≡ p

-- What the interface of the journal promises of an append that fails: nothing landed.
pub record AppendAtomic {R : AggregateRules} {J Tx : Type 0} (jr : Journal R J Tx) : Type 0 where
  pub unchanged :
      (j : J) (tx : Tx) (id : StreamId) (events : List R.Event) (pos : DrawPos) (e : JournalError)
      → (jr.append_in j tx id events pos).2 ≡ err e
      → (jr.append_in j tx id events pos).0 ≡ j

-- A rewound context is at the position that it was rewound to, if it has an entropy at all.
pub draws_or-rewind :
    {Ctx Source : Type 0} {c : CtxEntropy Ctx Source} (laws : CtxLaws c) (ctx : Ctx) (pos : DrawPos)
    → pos < 2 ^ 64
    → draws_or c pos (rewind c ctx pos) ≡ pos
unfolding draws_or rewind
draws_or-rewind {c = c} laws ctx pos h = elim (Option-cases (c.entropy ctx)) [
  | inl absent ↦ rw (absent, rewind_in) (rw (absent, draws_of))
  | inr (s, present) ↦
      rw (present, rewind_in)
        (rw (laws.read_back (c.source.seek pos s) ctx, draws_of) (laws.draws-seek pos s h))
]

module _ {R : AggregateRules} {J Source : Type 0} (jr : Journal R J (Unit {0}))
    (c : CtxEntropy R.Ctx Source) (j : J) (id : StreamId) (a : Aggregate R) (cmd : R.Command)
    (ctx : R.Ctx) where
  -- The context that `decide` leaves.
  abbrev decided : R.Ctx
  decided = (decide_only a cmd ctx).1

  abbrev append_of : List R.Event → DrawPos → J × Unit {0} × Result Seq JournalError
  append_of events head = jr.append_in j tt id events (draws_or c head decided)

  -- The journal cannot tell its head: nothing runs.
  pub execute-unreadable :
      (e : JournalError)
      → head_pos jr j id ≡ err e
      → execute jr c j id a cmd ctx ≡ (j, a, ctx, err (journal e))
  unfolding execute execute_in
  execute-unreadable e h = ground arith

  pub execute-rejected :
      (head : DrawPos) (x : Rejection R)
      → head_pos jr j id ≡ ok head
      → (decide_only a cmd ctx).0 ≡ err x
      → execute jr c j id a cmd ctx ≡ (j, a, rewind c decided head, err (rejected x))
  unfolding execute execute_in prepare
  execute-rejected head x h d = ground arith

  pub execute-failed :
      (head : DrawPos) (events : List R.Event) (e : JournalError)
      → head_pos jr j id ≡ ok head
      → (decide_only a cmd ctx).0 ≡ ok events
      → (append_of events head).2 ≡ err e
      → execute jr c j id a cmd ctx
        ≡ ((append_of events head).0, a, rewind c decided head, err (journal e))
  unfolding execute execute_in prepare
  execute-failed head events e h d f = ground arith

  pub execute-ok :
      (head : DrawPos) (events : List R.Event) (seq : Seq)
      → head_pos jr j id ≡ ok head
      → (decide_only a cmd ctx).0 ≡ ok events
      → (append_of events head).2 ≡ ok seq
      → execute jr c j id a cmd ctx
        ≡ ((append_of events head).0, foldl evolve a events, decided, ok seq)
  unfolding execute execute_in prepare commit_pending commit
  execute-ok head events seq h d f = ground arith

  -- Over any journal whose failed appends land nothing and any context that gives back its
  -- entropy: when execute returns an error, the journal and the aggregate are as they were, the
  -- entropy stands at the position recorded at the head (if that is a 64-bit position), and if
  -- the head could not be read the context was not touched.
  pub execute-err :
      CtxLaws c
      → AppendAtomic jr
      → (x : ExecuteError R) → (execute jr c j id a cmd ctx).3 ≡ err x
      → ((execute jr c j id a cmd ctx).0 ≡ j)
        × ((execute jr c j id a cmd ctx).1 ≡ a)
        × ((head : DrawPos)
            → head_pos jr j id ≡ ok head
            → head < 2 ^ 64
            → draws_or c head (execute jr c j id a cmd ctx).2 ≡ head)
        × ((e : JournalError) → head_pos jr j id ≡ err e → (execute jr c j id a cmd ctx).2 ≡ ctx)
  execute-err laws atomic x h = elim (Result-cases (head_pos jr j id)) [
    | inr (e, unreadable) ↦
        let out = execute-unreadable e unreadable in
        (ap (λ t. t.0) out, ap (λ t. t.1) out, λ head p small. cc, λ e' p. ap (λ t. t.2) out)
    | inl (head, readable) ↦
        let at_head = λ (g : DrawPos) (p : head_pos jr j id ≡ ok g).
          let same : ok head ≡ ok g = sym readable ∙ p in let eq : head ≡ g = cc same in eq in
        elim (Result-cases (decide_only a cmd ctx).0) [
          | inr (y, refused) ↦
              let out = execute-rejected head y readable refused in
              (
                ap (λ t. t.0) out,
                ap (λ t. t.1) out,
                (λ g p small.
                    ap (λ t. draws_or c g t.2) out
                    ∙ ap (λ k. draws_or c g (rewind c decided k)) (at_head g p)
                    ∙ draws_or-rewind laws decided g small),
                λ e p. cc,
              )
          | inl (events, accepted) ↦ elim (Result-cases (append_of events head).2) [
            | inr (e, failed) ↦
                let out = execute-failed head events e readable accepted failed in
                (
                  ap (λ t. t.0) out ∙ atomic.unchanged j tt id events _ e failed,
                  ap (λ t. t.1) out,
                  (λ g p small.
                      ap (λ t. draws_or c g t.2) out
                      ∙ ap (λ k. draws_or c g (rewind c decided k)) (at_head g p)
                      ∙ draws_or-rewind laws decided g small),
                  λ e' p. cc,
                )
            | inl (seq, stored) ↦
                let good : ok seq ≡ err x =
                  sym (ap (λ t. t.3) (execute-ok head events seq readable accepted stored)) ∙ h in
                cc
          ]
        ]
  ]
