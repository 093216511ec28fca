-- ===== src/Projection/Examples.antt =====
-- Tests of the projection, and the theorems at a run with a lost answer and a crash.
use harness_ai.Prelude.{ℕ, ◌≡◌, refl, String, true, none, some, [], ◌∷◌, map, ◌+◌, arith}
use harness_ai.Llm.{zero_usage}
use harness_ai.Projection.{here, there, less, EventRow, executed, refused, lost, Codec, Weather}
use harness_ai.Projection.Cost.{
  event_turn_started, event_turn_finished, terminal_cost, rollup_fold, project, resolve_model,
  write_rows, write_cost_row,
}
use harness_ai.Projection.Runner.{
  is_settled, State, poll, restart, fold_and_advance, new_state, commit_step, xmin_step, poll_step,
  restart_step, Reachable, start, next,
}
use harness_ai.Projection.Exact.{ExactlyOnce, Reachable-ExactlyOnce}
use harness_ai.Projection.Progress.{poll_progress}

abbrev codec : Codec
codec = record {
  started = λ p. some ("t1", p);
  finished = λ p. some ("t1", 5, zero_usage);
  aborted = λ p. none;
  model_field = λ p. some p;
  add_cost = λ a b. a + b;
}

abbrev began : EventRow
began = record {
  transaction_id = 7;
  global_id = 1;
  seq = 1;
  tenant_id = "acme";
  session_id = "s";
  event_type = event_turn_started;
  payload = "opus";
}

abbrev ended : EventRow
ended = record began {
  transaction_id = 9;
  global_id = 2;
  seq = 2;
  event_type = event_turn_finished;
}

-- An event whose transaction has the lower id and commits later.
abbrev late : EventRow
late = record began {
  transaction_id = 8;
  global_id = 3;
  session_id = "r";
  event_type = event_turn_finished;
}

abbrev calm : Weather
calm = record {
  fetch_up = true;
  lookup_up = λ g. true;
  insert = λ g. executed;
  other_sinks = λ rows. true;
  save = executed;
}

-- The insert of the cost row has its effect, and its answer is lost.
abbrev stormy : Weather
stormy = record calm { insert = λ g. lost }

abbrev log : State
log = record new_state { events = late ∷ ended ∷ began ∷ []; xmin = 10 }

abbrev crashed : State
crashed = restart (poll codec stormy 2 log)

log-Reachable : Reachable codec log
log-Reachable =
    next
      (next
        (next (next (next start (xmin_step 7 (omega arith))) (commit_step began (omega arith) refl))
          (commit_step ended (omega arith) refl))
        (commit_step late (omega arith) refl))
      (xmin_step 10 (omega arith))

crashed-Reachable : Reachable codec crashed
crashed-Reachable = next (next log-Reachable (poll_step stormy 2)) restart_step

-- The poll reads the rows in the order of their transactions, and stops behind a row that is written.
table_crashed : map (λ c. c.global_id) crashed.costs ≡ 3 ∷ []
unfolding poll restart fold_and_advance write_rows write_cost_row terminal_cost
table_crashed = refl

-- The next process reads the same rows, and records none of them twice.
table_calm :
    map {B = ℕ × String} (λ c. (c.global_id, c.model)) (poll codec calm 5 crashed).costs
    ≡ (2, "opus") ∷ (3, "") ∷ []
unfolding poll restart fold_and_advance write_rows write_cost_row terminal_cost resolve_model
table_calm = refl

Reachable-ExactlyOnce_example : ExactlyOnce codec (poll codec calm 5 crashed)
Reachable-ExactlyOnce_example = Reachable-ExactlyOnce (next crashed-Reachable (poll_step calm 5))

poll_progress_example :
    (less crashed.cursor (poll codec calm 5 crashed).saved ≡ true)
    × ((poll codec calm 5 crashed).cursor ≡ (poll codec calm 5 crashed).saved)
unfolding poll restart fold_and_advance is_settled rollup_fold project
poll_progress_example =
    poll_progress codec calm 4 crashed ended (there (here refl)) refl refl refl refl refl refl

-- A poll whose cursor is not saved is repeated in the same process, and its turns are counted twice in memory.
abbrev unsaved : State
unsaved = poll codec (record calm { save = refused }) 5 log

turns_twice :
    map {B = ℕ}
      (λ t. elim t [ none ↦ 0 | some c ↦ c.turns ])
      (unsaved.totals "acme" "s" ∷ (poll codec calm 5 unsaved).totals "acme" "s" ∷ [])
    ≡ 1 ∷ 2 ∷ []
unfolding poll fold_and_advance rollup_fold
turns_twice = refl
