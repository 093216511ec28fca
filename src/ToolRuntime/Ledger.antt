-- ===== src/ToolRuntime/Ledger.antt =====
-- adapter/outbound/dedup/store.go: the ledger of tool executions.
use harness_ai.Prelude.{String, ◌&&◌, Option, none, some, str_eq, if◌then◌else◌}
use harness_ai.ToolRuntime.{started, ExecutionRecord, Ledger, World}

-- A write of the row of a record's key.
abbrev pub put_record : Ledger → ExecutionRecord → Ledger
put_record ledger r t s k =
    if str_eq r.tenant_id t && str_eq r.session_id s && str_eq r.idempotency_key k
    then some r
    else ledger t s k

abbrev pub read : Ledger → ExecutionRecord → Option ExecutionRecord
read ledger r = ledger r.tenant_id r.session_id r.idempotency_key

-- `Begin`: the record that is there, or a new one; `none` for an error.
unfoldable pub begin : World → ExecutionRecord → Ledger → Option (ExecutionRecord × Ledger)
begin w r ledger =
    if str_eq r.tenant_id ""
    then none
    else if w.begin_up
    then elim (read ledger r) [
      | some existing ↦ some (existing, ledger)
      | none ↦
          some (record r { status = started }, put_record ledger (record r { status = started }))
    ]
    else none

-- `Complete`: the ledger behind it; an error changes nothing.
unfoldable pub complete : World → ExecutionRecord → Ledger → Ledger
complete w r ledger =
    if str_eq r.tenant_id ""
    then ledger
    else if w.complete_up
    then elim (read ledger r) [ none ↦ ledger | some _ ↦ put_record ledger r ]
    else ledger

-- `Lookup`
unfoldable pub lookup : String → String → String → Ledger → Option ExecutionRecord
lookup tenant session key ledger = if str_eq tenant "" then none else ledger tenant session key
