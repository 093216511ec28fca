-- ===== src/Projection/Exact.antt =====
-- runner.go: the cost table behind the saved cursor, whatever has happened.
use mathlib.Core.Path.{subst}
use harness_ai.Prelude.{
  ℕ, ◌<◌, ◌≤◌, ◌==◌, ◌≡◌, refl, sym, ap, ◌∙◌, Bool, true, false, Bool-cases, Option-cases, inl, inr,
  Option, none, some, List, [], ◌∷◌, any, map, All, All-map, if◌then◌else◌, arith,
}
use harness_ai.Projection.{
  Among, here, there, Cursor, less, advance, EventRow, row_cursor, TerminalRow, CostRow, Codec,
  Weather, is_executed, is_effective,
}
use harness_ai.Projection.Cost.{Totals, Models, terminal_cost, rollup_fold, project}
use harness_ai.Projection.Runner.{
  has_rows, fetch_batch, State, save_cursor, after_project, fold_and_advance, poll, restart, Step,
  commit_step, xmin_step, poll_step, restart_step, Reachable, start, next,
}
use harness_ai.Projection.Order.{
  less_or_not, not_less-transaction_id, end_of, advance-end_of, Unique, fetch_batch-Among,
  fetch_batch_below, fetch_batch_complete,
}
use harness_ai.Projection.Written.{
  Recorded, NoTwice, Traced, traced, Sound, Grown, Done, kept-Recorded, project-Done,
}

-- Each end of a turn in the log that does not stand behind a cursor has its cost row.
pub Complete : Codec → List EventRow → List CostRow → Cursor → Type 0
Complete w events costs c =
    (e : EventRow) (ct : TerminalRow)
    → Among e events
    → less c (row_cursor e) ≡ false
    → terminal_cost w e ≡ some (some ct)
    → Recorded w costs e

-- The cost table counts each event once: no two rows with one global id, each row from an event of the log, and a row for
-- each end of a turn that the saved cursor has passed.
pub record ExactlyOnce (w : Codec) (st : State) : Type 0 where
  pub no_twice : NoTwice st.costs
  pub all_traced : All (Traced w st.events) st.costs
  pub all_recorded : Complete w st.events st.costs st.saved

record Kept (w : Codec) (st : State) : Type 0 where
  unique : Unique st.events
  sound : Sound w st.events unique st.costs
  saved_below : st.saved.transaction_id < st.xmin
  cursor_below : st.cursor.transaction_id < st.xmin
  saved_complete : Complete w st.events st.costs st.saved
  cursor_complete : Complete w st.events st.costs st.cursor

module _ (w : Codec) (st : State) (k : Kept w st) where
  fresh_apart :
      (events : List EventRow) (r e : EventRow)
      → any (λ x. x.global_id == r.global_id) events ≡ false
      → Among e events
      → e.global_id ≡ r.global_id
      → ⊥
  fresh_apart [] r e h m q = elim m [ ]
  fresh_apart (x ∷ events) r e h (here p) q =
      let same : x.global_id ≡ r.global_id = sym (ap (λ y. y.global_id) p) ∙ q in
      less_or_not (ground (arith, same, h))
  fresh_apart (x ∷ events) r e h (there m) q = fresh_apart events r e (ground (arith, h)) m q

  later-Traced : (r : EventRow) (c : CostRow) → Traced w st.events c → Traced w (r ∷ st.events) c
  later-Traced r c (traced e m i) = traced e (there m) i

  -- A commit stands behind the cursor.
  commit-Complete :
      (r : EventRow) (c : Cursor)
      → st.xmin ≤ r.transaction_id
      → c.transaction_id < st.xmin
      → Complete w st.events st.costs c
      → Complete w (r ∷ st.events) st.costs c
  unfolding Complete
  commit-Complete r c x b f e ct (here p) l t =
      let below = not_less-transaction_id c (row_cursor e) l st.xmin b in
      let same : e.transaction_id ≡ r.transaction_id = ap (λ y. y.transaction_id) p in
      absurd (omega (arith, below, same, x))
  commit-Complete r c x b f e ct (there m) l t = f e ct m l t

  commit-Unique :
      (r : EventRow)
      → any (λ x. x.global_id == r.global_id) st.events ≡ false
      → Unique (r ∷ st.events)
  commit-Unique r h e f (here p) (here q) i = p ∙ sym q
  commit-Unique r h e f (here p) (there n) i =
      absurd (fresh_apart st.events r f h n (sym i ∙ ap (λ y. y.global_id) p))
  commit-Unique r h e f (there m) (here q) i =
      absurd (fresh_apart st.events r e h m (i ∙ ap (λ y. y.global_id) q))
  commit-Unique r h e f (there m) (there n) i = k.unique e f m n i

  commit-Kept :
      (r : EventRow)
      → st.xmin ≤ r.transaction_id
      → any (λ x. x.global_id == r.global_id) st.events ≡ false
      → Kept w (record st { events = r ∷ st.events })
  commit-Kept r x h = record {
    unique = commit-Unique r h;
    sound = record {
      no_twice = k.sound.no_twice;
      all_traced = All-map (later-Traced r) st.costs k.sound.all_traced;
    };
    saved_below = k.saved_below;
    cursor_below = k.cursor_below;
    saved_complete = commit-Complete r st.saved x k.saved_below k.saved_complete;
    cursor_complete = commit-Complete r st.cursor x k.cursor_below k.cursor_complete;
  }

  xmin-Kept : (x : ℕ) → st.xmin ≤ x → Kept w (record st { xmin = x })
  xmin-Kept x h = record {
    unique = k.unique;
    sound = k.sound;
    saved_below = let l = k.saved_below in omega (arith, l, h);
    cursor_below = let l = k.cursor_below in omega (arith, l, h);
    saved_complete = k.saved_complete;
    cursor_complete = k.cursor_complete;
  }

  restart-Kept : Kept w (restart st)
  unfolding restart
  restart-Kept = record {
    unique = k.unique;
    sound = k.sound;
    saved_below = k.saved_below;
    cursor_below = k.saved_below;
    saved_complete = k.saved_complete;
    cursor_complete = k.saved_complete;
  }

  grown-Complete :
      (later : List CostRow) (c : Cursor)
      → Grown w st.events k.unique st.costs later
      → Complete w st.events st.costs c
      → Complete w st.events later c
  unfolding Complete
  grown-Complete later c g f e ct m l t =
      kept-Recorded w st.events k.unique st.costs later e g (f e ct m l t)

  -- Whatever part of a batch was written.
  written-Kept :
      (t : Totals) (m : Models) (later : List CostRow)
      → Grown w st.events k.unique st.costs later
      → Kept w (record st { totals = t; models = m; costs = later })
  written-Kept t m later g = record {
    unique = k.unique;
    sound = g.sound;
    saved_below = k.saved_below;
    cursor_below = k.cursor_below;
    saved_complete = grown-Complete later st.saved g k.saved_complete;
    cursor_complete = grown-Complete later st.cursor g k.cursor_complete;
  }

  save_cursor-Kept :
      (env : Weather) (c : Cursor)
      → c.transaction_id < st.xmin
      → Complete w st.events st.costs c
      → Kept w (save_cursor env c st)
  save_cursor-Kept env c l f = record {
    unique = k.unique;
    sound = k.sound;
    saved_below = either (λ d. d.transaction_id < st.xmin) (is_effective env.save) l k.saved_below;
    cursor_below = either (λ d. d.transaction_id < st.xmin) (is_executed env.save) l k.cursor_below;
    saved_complete =
        either (Complete w st.events st.costs) (is_effective env.save) f k.saved_complete;
    cursor_complete =
        either (Complete w st.events st.costs) (is_executed env.save) f k.cursor_complete;
  }
    where
      either : (P : Cursor → Type 0) (b : Bool) {d : Cursor} → P c → P d → P (if b then c else d)
      either P true x y = x
      either P false x y = y

  after_project-Kept :
      (env : Weather) (rows : List EventRow)
      → (end_of st.cursor rows).transaction_id < st.xmin
      → Complete w st.events st.costs (end_of st.cursor rows)
      → Kept w (after_project env rows st)
  unfolding after_project
  after_project-Kept env rows l f = elim (Bool-cases (env.other_sinks rows)) [
    | inl o ↦
        subst (λ b. Kept w (if b then advanced (advance st.cursor (map row_cursor rows)) else st))
          (sym o)
          (elim (Option-cases (advance st.cursor (map row_cursor rows))) [
            | inl h ↦ subst (λ a. Kept w (advanced a)) (sym h) k
            | inr (c, h) ↦
                let at_end = advance-end_of st.cursor c rows h in
                subst (λ a. Kept w (advanced a)) (sym h)
                  (subst (λ d. Kept w (save_cursor env d st)) (sym at_end)
                    (save_cursor-Kept env (end_of st.cursor rows) l f))
          ])
    | inr o ↦
        subst (λ b. Kept w (if b then advanced (advance st.cursor (map row_cursor rows)) else st))
          (sym o) k
  ]
    where
      advanced : Option Cursor → State
      advanced o = elim o [ none ↦ st | some c ↦ save_cursor env c st ]

module _ (w : Codec) (st : State) (k : Kept w st) (env : Weather) (size : ℕ) where
  abbrev batch : List EventRow
  batch = fetch_batch st.events st.xmin st.cursor size

  abbrev projected : Bool × Models × List CostRow
  projected = project w env st.events st.models st.costs batch

  batch-Done : Done w st.events k.unique st.costs batch projected
  batch-Done =
      project-Done w st.events k.unique env st.models st.costs batch
        (fetch_batch-Among st.events st.xmin size st.cursor) k.sound

  batch-Complete : projected.0 ≡ true → Complete w st.events projected.2 (end_of st.cursor batch)
  unfolding Complete
  batch-Complete ok e ct m l t = elim (Bool-cases (less st.cursor (row_cursor e))) [
    | inl a ↦
        let below =
          not_less-transaction_id _ (row_cursor e) l st.xmin
            (fetch_batch_below st.events st.xmin size st.cursor k.cursor_below) in
        batch-Done.recorded_all ok e ct
          (fetch_batch_complete st.events st.xmin k.unique size st.cursor e m below a l) t
    | inr a ↦
        grown-Complete w st k projected.2 st.cursor batch-Done.grown k.cursor_complete e ct m a t
  ]

  -- The memory and the table behind the writes.
  abbrev counted : State
  counted = record st { totals = (rollup_fold w st.totals batch).1 }

  abbrev written : State
  written = record counted { models = projected.1; costs = projected.2 }

  counted-Kept : Kept w counted
  counted-Kept =
      written-Kept w st k counted.totals st.models st.costs
        (record { sound = k.sound; kept = λ c m. m })

  written_all-Kept : Kept w written
  written_all-Kept = written-Kept w st k counted.totals projected.1 projected.2 batch-Done.grown

  if-Kept :
      (b : Bool) (x y : State) → (b ≡ true → Kept w x) → Kept w y → Kept w (if b then x else y)
  if-Kept true x y f g = f refl
  if-Kept false x y f g = g

  poll-Kept : Kept w (poll w env size st)
  unfolding poll fold_and_advance
  poll-Kept =
      if-Kept env.fetch_up _ st
        (λ _.
          if-Kept (has_rows batch) _ st
            (λ _.
              if-Kept (rollup_fold w st.totals batch).0 _ counted
                (λ _.
                  if-Kept projected.0 (after_project env batch written) written
                    (λ ok.
                      after_project-Kept w written written_all-Kept env batch
                        (fetch_batch_below st.events st.xmin size st.cursor k.cursor_below)
                        (batch-Complete ok))
                    written_all-Kept)
                counted-Kept)
            k)
        k

Step-Kept : (w : Codec) (st su : State) → Kept w st → Step w st su → Kept w su
Step-Kept w st su k (commit_step r x h) = commit-Kept w st k r x h
Step-Kept w st su k (xmin_step x h) = xmin-Kept w st k x h
Step-Kept w st su k (poll_step env size) = poll-Kept w st k env size
Step-Kept w st su k restart_step = restart-Kept w st k

Reachable-Kept : {w : Codec} {st : State} → Reachable w st → Kept w st
unfolding Complete
Reachable-Kept start = record {
  unique = λ e f m n i. elim m [ ];
  sound = record { no_twice = tt; all_traced = tt };
  saved_below = omega arith;
  cursor_below = omega arith;
  saved_complete = λ e ct m l t. elim m [ ];
  cursor_complete = λ e ct m l t. elim m [ ];
}
Reachable-Kept (next r st) = Step-Kept _ _ _ (Reachable-Kept r) st

-- Each event is counted exactly once. However commits, polls and crashes follow each other, whichever statements fail or
-- lose their answers, and however late a transaction with a low id commits: the cost table has no two rows with one global id,
-- each of its rows is that of an event of the log, and each end of a turn that the saved cursor has passed is in it.
pub Reachable-ExactlyOnce : {w : Codec} {st : State} → Reachable w st → ExactlyOnce w st
Reachable-ExactlyOnce r =
    let k = Reachable-Kept r in
    record {
      no_twice = k.sound.no_twice;
      all_traced = k.sound.all_traced;
      all_recorded = k.saved_complete;
    }
