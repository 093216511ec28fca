-- ===== src/Projection/Progress.antt =====
-- runner.go: a poll moves the saved cursor on.
use harness_ai.Prelude.{
  ℕ, suc, refl, [], ◌∷◌, arith, List, Option, ◌≡◌, sym, ap, ◌∙◌, Bool, true, some, none,
  if◌then◌else◌,
}
use harness_ai.Projection.{
  Cursor, Among, less, EventRow, Codec, Weather, is_executed, is_effective, executed,
}
use harness_ai.Projection.Cost.{rollup_fold, project}
use harness_ai.Projection.Runner.{
  has_rows, is_settled, fetch_batch, State, save_cursor, after_project, fold_and_advance, poll,
}
use harness_ai.Projection.Order.{self_not_less, end_of, fetch_batch-advance, fetch_batch_ahead}

module _ (w : Codec) (env : Weather) (n : ℕ) (st : State) where
  -- The rows of the poll.
  abbrev pub batch_of : List EventRow
  batch_of = fetch_batch st.events st.xmin st.cursor (suc n)

  if_true : (b : Bool) (x y : State) → b ≡ true → (if b then x else y) ≡ x
  if_true b x y h = ap (λ c. if c then x else y) h

  has_rows-end_of :
      (rows : List EventRow) → less st.cursor (end_of st.cursor rows) ≡ true → has_rows rows ≡ true
  has_rows-end_of [] h = ground (arith, h, self_not_less st.cursor)
  has_rows-end_of (r ∷ rows) h = refl

  abbrev written : State
  written = record st {
    totals = (rollup_fold w st.totals batch_of).1;
    models = (project w env st.events st.models st.costs batch_of).1;
    costs = (project w env st.events st.models st.costs batch_of).2;
  }

  abbrev advanced : Option Cursor → State
  advanced o = elim o [ none ↦ written | some c ↦ save_cursor env c written ]

  -- The state behind a poll in which all goes through.
  poll-save_cursor :
      env.fetch_up ≡ true
      → has_rows batch_of ≡ true
      → (rollup_fold w st.totals batch_of).0 ≡ true
      → (project w env st.events st.models st.costs batch_of).0 ≡ true
      → env.other_sinks batch_of ≡ true
      → poll w env (suc n) st ≡ save_cursor env (end_of st.cursor batch_of) written
  unfolding poll fold_and_advance after_project
  poll-save_cursor up some_rows folded projected sinks =
      if_true env.fetch_up _ st up
      ∙ if_true (has_rows batch_of) _ st some_rows
      ∙ if_true (rollup_fold w st.totals batch_of).0 _ _ folded
      ∙ if_true (project w env st.events st.models st.costs batch_of).0 _ written projected
      ∙ if_true (env.other_sinks batch_of) _ written sinks
      ∙ ap advanced (fetch_batch-advance st.events st.xmin (suc n) st.cursor)

  -- If an event is settled behind the cursor of the worker, and a poll reads, decodes and writes its rows, the other sinks
  -- take them and the cursor is saved, then the saved cursor has moved on, and the worker's with it. Advance never
  -- panics on the rows of a read.
  pub poll_progress :
      (e : EventRow)
      → Among e st.events
      → is_settled st.xmin st.cursor e ≡ true
      → env.fetch_up ≡ true
      → (rollup_fold w st.totals batch_of).0 ≡ true
      → (project w env st.events st.models st.costs batch_of).0 ≡ true
      → env.other_sinks batch_of ≡ true
      → env.save ≡ executed
      → (less st.cursor (poll w env (suc n) st).saved ≡ true)
        × ((poll w env (suc n) st).cursor ≡ (poll w env (suc n) st).saved)
  poll_progress e m t up folded projected sinks saved =
      let ahead = fetch_batch_ahead st.events st.xmin n st.cursor e m t in
      let moved = poll-save_cursor up (has_rows-end_of batch_of ahead) folded projected sinks in
      let at_end : (poll w env (suc n) st).saved ≡ end_of st.cursor batch_of =
        ap (λ su. su.saved) moved
        ∙ ap (λ r. if is_effective r then end_of st.cursor batch_of else st.saved) saved in
      (
        ap (less st.cursor) at_end ∙ ahead,
        ap (λ su. su.cursor) moved
            ∙ ap (λ r. if is_executed r then end_of st.cursor batch_of else st.cursor) saved
            ∙ sym at_end,
      )
