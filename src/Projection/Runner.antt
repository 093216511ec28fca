-- ===== src/Projection/Runner.antt =====
-- source.go and runner.go: the read behind the cursor, the fold of a batch, and the runs of the worker.
use harness_ai.Prelude.{
  ℕ, zero, suc, ◌≤◌, ◌==◌, ◌≡◌, ltb, Bool, true, false, ◌&&◌, Option, none, some, List, [], ◌∷◌,
  any, map, if◌then◌else◌,
}
use harness_ai.Projection.{
  Cursor, less, advance, EventRow, row_cursor, CostRow, is_executed, is_effective, Codec, Weather,
}
use harness_ai.Projection.Cost.{Totals, rollup_fold, Models, project}

-- fetchBatchSQL, its WHERE: behind the cursor, and of a transaction below the xmin of the snapshot.
unfoldable pub is_settled : ℕ → Cursor → EventRow → Bool
unfolding less
is_settled xmin c r = less c (row_cursor r) && ltb r.transaction_id xmin

abbrev pub lesser : Option EventRow → EventRow → Bool
lesser none r = true
lesser (some best) r = less (row_cursor r) (row_cursor best)

-- Its ORDER BY: the least of the rows that it admits.
unfoldable pub least : ℕ → Cursor → Option EventRow → List EventRow → Option EventRow
unfolding is_settled
least xmin c best [] = best
least xmin c best (r ∷ events) =
    least xmin c (if is_settled xmin c r && lesser best r then some r else best) events

-- Its LIMIT: `FetchBatch`.
unfoldable pub fetch_batch : List EventRow → ℕ → Cursor → ℕ → List EventRow
unfolding least
fetch_batch events xmin c zero = []
fetch_batch events xmin c (suc n) = elim (least xmin c none events) [
  | none ↦ []
  | some r ↦ r ∷ fetch_batch events xmin (row_cursor r) n
]

-- The database, with the log, the saved cursor and the cost rows; and the worker's memory.
pub record State : Type 0 where
  pub events : List EventRow
  pub xmin : ℕ
  pub saved : Cursor
  pub costs : List CostRow
  pub cursor : Cursor
  pub totals : Totals
  pub models : Models

-- `SaveCursor`, and the cursor of the worker behind it.
abbrev pub save_cursor : Weather → Cursor → State → State
save_cursor env c st = record st {
  saved = if is_effective env.save then c else st.saved;
  cursor = if is_executed env.save then c else st.cursor;
}

-- `foldAndAdvance`. A panic of `Advance` ends the process before the cursor is saved.
unfoldable pub after_project : Weather → List EventRow → State → State
unfolding advance
after_project env rows st =
    if env.other_sinks rows
    then elim (advance st.cursor (map row_cursor rows)) [
      | none ↦ st
      | some c ↦ save_cursor env c st
    ]
    else st

unfoldable pub fold_and_advance : Codec → Weather → List EventRow → State → State
unfolding rollup_fold project after_project
fold_and_advance w env rows st =
    let folded = rollup_fold w st.totals rows in
    let projected = project w env st.events st.models st.costs rows in
    let counted = record st { totals = folded.1 } in
    let written = record counted { models = projected.1; costs = projected.2 } in
    if folded.0 then if projected.0 then after_project env rows written else written else counted

abbrev pub has_rows : List EventRow → Bool
has_rows [] = false
has_rows (r ∷ rows) = true

-- One round of `catchUp`.
unfoldable pub poll : Codec → Weather → ℕ → State → State
unfolding fetch_batch fold_and_advance
poll w env size st =
    let rows = fetch_batch st.events st.xmin st.cursor size in
    if env.fetch_up then if has_rows rows then fold_and_advance w env rows st else st else st

-- A new process: `NewRunner` and the `LoadCursor` of `Run`.
unfoldable pub restart : State → State
restart st = record st { cursor = st.saved; totals = λ t s. none; models = λ s t. none }

-- What may happen: an event commits, in a transaction that was not below the xmin of any snapshot yet; the xmin of new
-- snapshots moves on; the worker polls; a process starts.
pub data Step (w : Codec) (st : State) : State → Type 0 where
  commit_step :
      (r : EventRow)
      → st.xmin ≤ r.transaction_id
      → any (λ e. e.global_id == r.global_id) st.events ≡ false
      → Step w st (record st { events = r ∷ st.events })
  xmin_step : (x : ℕ) → st.xmin ≤ x → Step w st (record st { xmin = x })
  poll_step : (env : Weather) (size : ℕ) → Step w st (poll w env size st)
  restart_step : Step w st (restart st)

-- The empty log, with the cursor at zero; transaction ids start above.
abbrev pub new_state : State
new_state = record {
  events = [];
  xmin = 1;
  saved = record { transaction_id = 0; global_id = 0 };
  costs = [];
  cursor = record { transaction_id = 0; global_id = 0 };
  totals = λ t s. none;
  models = λ s t. none;
}

pub data Reachable (w : Codec) : State → Type 0 where
  start : Reachable w new_state
  next : {st su : State} → Reachable w st → Step w st su → Reachable w su
