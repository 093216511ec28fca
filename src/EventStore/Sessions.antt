-- ===== src/EventStore/Sessions.antt =====
-- sessions.go, queries.go: the other transactions of the store.
use harness_ai.Prelude.{
  ℕ, String, ◌&&◌, Option, none, some, List, take, put, str_eq, ◌==◌, leb, ltb, if◌then◌else◌,
}
use harness_ai.Domain.{PermissionMode, or_default, EventEnvelope}
use harness_ai.EventStore.{
  Commit, unique_violation, other_error, SessionStatus, active, SessionRow, Db, no_tenant,
  session_not_active, conflict, session_exists, status_not_terminal, Result, err, Env, Tenant,
  visible,
}
use harness_ai.EventStore.Append.{select, classify_append_failure, finish, finish_read}

-- Only an append reclassifies the error of its COMMIT.
abbrev pub wrapped : Commit → Commit
wrapped unique_violation = other_error
wrapped c = c

abbrev pub new_row : String → PermissionMode → SessionRow
new_row tenant mode = record {
  tenant_id = tenant;
  parent_id = none;
  forked_from_seq = none;
  status = active;
  mode = or_default mode;
  head_seq = 0;
  lease_epoch = 0;
  chain_head = none;
}

-- The primary key of `sessions` refuses an id that any tenant holds.
unfoldable pub create_session : Env → Tenant → String → PermissionMode → Db → Result SessionRow × Db
unfolding finish
create_session env none session mode db = (err no_tenant, db)
create_session env (some tenant) session mode db = elim (db.sessions session) [
  | some _ ↦ (err session_exists, db)
  | none ↦
      let row = new_row tenant mode in
      finish (wrapped env.commit) row (record db { sessions = put db.sessions session row }) db
]

abbrev pub set_status_of :
    Option SessionRow → Env → String → ℕ → SessionStatus → Db → Result (Unit {0}) × Db
set_status_of none env session epoch status db = (err (classify_append_failure none epoch), db)
set_status_of (some row) env session epoch status db =
    if row.lease_epoch == epoch
    then finish (wrapped env.commit) tt
        (record db { sessions = put db.sessions session (record row { status = status }) }) db
    else (err (classify_append_failure (some row) epoch), db)

unfoldable pub set_session_status :
    Env → Tenant → String → ℕ → SessionStatus → Db → Result (Unit {0}) × Db
unfolding finish classify_append_failure visible
set_session_status env tenant session epoch active db = (err status_not_terminal, db)
set_session_status env none session epoch _ db = (err no_tenant, db)
set_session_status env (some tenant) session epoch status db =
    set_status_of (visible tenant (db.sessions session)) env session epoch status db

-- `LoadSession`
unfoldable pub load_session : Env → Tenant → String → Db → Result SessionRow
unfolding visible finish_read
load_session env none session db = err no_tenant
load_session env (some tenant) session db = elim (visible tenant (db.sessions session)) [
  | none ↦ err session_not_active
  | some row ↦ finish_read env.commit row
]

abbrev pub child_row : String → String → ℕ → SessionRow → SessionRow
child_row tenant parent at parent_row = record {
  tenant_id = tenant;
  parent_id = some parent;
  forked_from_seq = some at;
  status = active;
  mode = or_default parent_row.mode;
  head_seq = at;
  lease_epoch = 0;
  chain_head = none;
}

-- `Fork`; a negative sequence number, which it refuses too, is no value of the model.
unfoldable pub fork : Env → Tenant → String → ℕ → String → Db → Result SessionRow × Db
unfolding finish visible
fork env none parent at child db = (err no_tenant, db)
fork env (some tenant) parent at child db = elim (visible tenant (db.sessions parent)) [
  | none ↦ (err session_not_active, db)
  | some parent_row ↦
      if ltb parent_row.head_seq at then (err conflict, db) else elim (db.sessions child) [
        | some _ ↦ (err session_exists, db)
        | none ↦
            let row = child_row tenant parent at parent_row in
            finish (wrapped env.commit) row (record db { sessions = put db.sessions child row }) db
      ]
]

-- `Load`
unfoldable pub load : Env → Tenant → String → ℕ → Db → Result (List EventEnvelope)
unfolding select finish_read
load env none session from db = err no_tenant
load env (some tenant) session from db =
    finish_read env.commit
      (select (λ r. leb from r.seq && str_eq r.tenant_id tenant) (db.events session))

-- `LoadRange`: a page of the rows behind a cursor.
unfoldable pub load_range : Env → Tenant → String → ℕ → ℕ → Db → Result (List EventEnvelope)
unfolding select finish_read
load_range env none session after limit db = err no_tenant
load_range env (some tenant) session after limit db =
    finish_read env.commit
      (take limit (select (λ r. ltb after r.seq && str_eq r.tenant_id tenant) (db.events session)))

-- `LoadUpTo`
unfoldable pub load_up_to : Env → Tenant → String → ℕ → Db → Result (List EventEnvelope)
unfolding select finish_read
load_up_to env none session at db = err no_tenant
load_up_to env (some tenant) session at db =
    finish_read env.commit
      (select (λ r. leb r.seq at && str_eq r.tenant_id tenant) (db.events session))
