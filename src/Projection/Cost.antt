-- ===== src/Projection/Cost.antt =====
-- cost.go and cost_projector.go: the rollup in memory, and the cost rows in the database.
use harness_ai.Prelude.{
  ℕ, ◌+◌, ◌==◌, ltb, Bool, true, false, ◌&&◌, String, str_eq, Option, none, some, List, [], ◌∷◌,
  any, if◌then◌else◌,
}
use harness_ai.Llm.{Usage, F64, zero_usage, add_usage}
use harness_ai.Projection.{
  EventRow, TerminalRow, CostRow, Reply, is_executed, is_effective, Codec, Weather,
}

abbrev pub event_turn_started : String
event_turn_started = "TurnStarted"

abbrev pub event_turn_finished : String
event_turn_finished = "TurnFinished"

abbrev pub event_turn_aborted : String
event_turn_aborted = "TurnAborted"

abbrev terminal_row : String → Option (String × F64 × Usage) → Option (Option TerminalRow)
terminal_row ty none = none
terminal_row ty (some (t, c, u)) =
    some (some (record { turn_id = t; event_type = ty; cost = c; usage = u }))

-- `terminalCost`, and `turnCost` with its fields: the outer `none` is the error.
unfoldable pub terminal_cost : Codec → EventRow → Option (Option TerminalRow)
terminal_cost w r =
    if str_eq r.event_type event_turn_finished
    then terminal_row event_turn_finished (w.finished r.payload)
    else if str_eq r.event_type event_turn_aborted
    then terminal_row event_turn_aborted (w.aborted r.payload)
    else some none

pub record CostTotals : Type 0 where
  pub cost_usd : F64
  pub usage : Usage
  pub turns : ℕ

-- The map of the rollup, by tenant and session.
abbrev pub Totals : Type 0
Totals = String → String → Option CostTotals

abbrev pub set_totals : Totals → EventRow → CostTotals → Totals
set_totals m r t tenant session =
    if str_eq r.tenant_id tenant && str_eq r.session_id session then some t else m tenant session

abbrev totals_or_new : Option CostTotals → CostTotals
totals_or_new none = record { cost_usd = 0; usage = zero_usage; turns = 0 }
totals_or_new (some t) = t

unfoldable add_row : Codec → Totals → EventRow → TerminalRow → Totals
unfolding add_usage
add_row w m r ct =
    let t = totals_or_new (m r.tenant_id r.session_id) in
    set_totals m r (record {
      cost_usd = w.add_cost t.cost_usd ct.cost;
      usage = add_usage t.usage ct.usage;
      turns = t.turns + 1;
    })

-- `RollupFold`: whether it goes through, and the map.
unfoldable pub rollup_fold : Codec → Totals → List EventRow → Bool × Totals
unfolding terminal_cost add_row
rollup_fold w m [] = (true, m)
rollup_fold w m (r ∷ rows) = elim (terminal_cost w r) [
  | none ↦ (false, m)
  | some none ↦ rollup_fold w m rows
  | some (some ct) ↦ rollup_fold w (add_row w m r ct) rows
]

-- `modelByTurn`, by session and turn.
abbrev pub Models : Type 0
Models = String → String → Option String

abbrev pub set_model : Models → String → String → Option String → Models
set_model m s t v session turn = if str_eq s session && str_eq t turn then v else m session turn

-- The first pass of `Project`.
unfoldable pub record_models : Codec → Models → List EventRow → Bool × Models
record_models w m [] = (true, m)
record_models w m (r ∷ rows) =
    if str_eq r.event_type event_turn_started
    then elim (w.started r.payload) [
      | none ↦ (false, m)
      | some (t, model) ↦ record_models w (set_model m r.session_id t (some model)) rows
    ]
    else record_models w m rows

-- recoverModelSQL: the latest start of a turn of the session before a sequence number.
abbrev is_later : EventRow → Option EventRow → Bool
is_later r none = true
is_later r (some best) = ltb best.seq r.seq

unfoldable pub latest_started : String → ℕ → Option EventRow → List EventRow → Option EventRow
latest_started session n best [] = best
latest_started session n best (r ∷ events) =
    latest_started session n
      (if str_eq r.session_id session
          && (str_eq r.event_type event_turn_started && (ltb r.seq n && is_later r best))
        then some r
        else best)
      events

abbrev pub or_unknown : Option String → String
or_unknown none = ""
or_unknown (some model) = model

abbrev pub recovered_model : Codec → Option EventRow → String
recovered_model w none = ""
recovered_model w (some r) = or_unknown (w.model_field r.payload)

-- `resolveModel`
unfoldable pub resolve_model : Codec → Weather → Models → List EventRow → EventRow → String → String
unfolding latest_started
resolve_model w env m events r turn = elim (m r.session_id turn) [
  | some model ↦ model
  | none ↦
      if env.lookup_up r.global_id
      then recovered_model w (latest_started r.session_id r.seq none events)
      else ""
]

abbrev pub cost_row : EventRow → String → TerminalRow → CostRow
cost_row r model ct = record {
  global_id = r.global_id;
  tenant_id = r.tenant_id;
  session_id = r.session_id;
  model = model;
  event_type = ct.event_type;
  cost_usd = ct.cost;
  usage = ct.usage;
}

-- Whether the table has a row of a global id.
abbrev pub has_row : List CostRow → ℕ → Bool
has_row costs g = any (λ c. c.global_id == g) costs

-- insertCostEventSQL: ON CONFLICT (global_id) DO NOTHING.
unfoldable pub insert_cost_event : List CostRow → CostRow → List CostRow
insert_cost_event costs c = if has_row costs c.global_id then costs else c ∷ costs

-- `writeCostRow`: whether it goes through, and the table.
unfoldable pub write_cost_row : Reply → List CostRow → CostRow → Bool × List CostRow
unfolding insert_cost_event
write_cost_row reply costs c =
    (is_executed reply, if is_effective reply then insert_cost_event costs c else costs)

-- The second pass of `Project`.
unfoldable pub write_rows :
    Codec
    → Weather
    → List EventRow
    → Models
    → List CostRow
    → List EventRow
    → Bool × Models × List CostRow
unfolding terminal_cost resolve_model write_cost_row
write_rows w env events m costs [] = (true, m, costs)
write_rows w env events m costs (r ∷ rows) = elim (terminal_cost w r) [
  | none ↦ (false, m, costs)
  | some none ↦ write_rows w env events m costs rows
  | some (some ct) ↦
      let written =
        write_cost_row (env.insert r.global_id) costs
          (cost_row r (resolve_model w env m events r ct.turn_id) ct) in
      let rest =
        write_rows w env events (set_model m r.session_id ct.turn_id none) written.1 rows in
      if written.0 then rest else (false, m, written.1)
]

-- `Project`
unfoldable pub project :
    Codec
    → Weather
    → List EventRow
    → Models
    → List CostRow
    → List EventRow
    → Bool × Models × List CostRow
unfolding record_models write_rows
project w env events m costs rows =
    let recorded = record_models w m rows in
    if recorded.0 then write_rows w env events recorded.1 costs rows else (false, recorded.1, costs)
