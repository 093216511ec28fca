-- ===== src/ToolRuntime.antt =====
-- internal/toolruntime: the words of the execution service and its ledger of executions.
pub mod Ledger
pub mod Execute
pub mod Answered
pub mod Once
pub mod Egress
pub mod Broker
pub mod Listed
mod Examples
use harness_ai.Prelude.{ℕ, String, Bool, Option}
use harness_ai.Llm.{Args}
use harness_ai.Domain.{EgressClass}

-- domain/tool.go
pub record Observation : Type 0 where
  pub content : String
  pub is_error : Bool
  pub truncated : Bool
  pub blob_ref : String

-- app/ports.go
pub data ExecutionStatus : Type 0 where
  started completed failed unknown : ExecutionStatus

pub record ExecutionRecord : Type 0 where
  pub tenant_id : String
  pub session_id : String
  pub idempotency_key : String
  pub status : ExecutionStatus
  pub result : Observation

-- The table `tool_executions` by its primary key.
abbrev pub Ledger : Type 0
Ledger = String → String → String → Option ExecutionRecord

-- What a tool answers: an observation, or an error of the runtime by its text.
pub data Ran : Type 0 where
  ran : Observation → Ran
  crashed : (text : String) → Ran

-- A resolved tool: its spec, and its own declaration of the host that it contacts, if it has one.
pub record Tool : Type 0 where
  pub name : String
  pub egress_class : EgressClass
  pub target : Option (Args → Option String)
  pub run : String → Args → Ran

-- The answer of the registry.
pub data Resolved : Type 0 where
  found : Tool → Resolved
  not_found : Resolved
  broken : Resolved

-- The answer of the egress broker.
pub data EgressAnswer : Type 0 where
  answer : Bool → EgressAnswer
  failure : (text : String) → EgressAnswer

pub record Request : Type 0 where
  pub tenant_id : String
  pub session_id : String
  pub call_id : String
  pub tool_name : String
  pub args : Args
  pub idempotency_key : String

-- The collaborators of the service, and the functions of the standard library that it uses. The
-- database answers to Begin and Complete by `begin_up` and `complete_up`; `put_blob` gives the size that it has stored.
pub record World : Type 0 where
  pub registry : String → Resolved
  pub allow : String → String → EgressAnswer
  pub progress_ok : Bool
  pub begin_up : Bool
  pub complete_up : Bool
  pub mask : String → String
  pub put_blob : String → String → String → Option ℕ
  pub threshold : ℕ
  pub sha_hex : String → String
  pub head_bytes : ℕ → String → String
  pub decimal : ℕ → String
  pub quote : String → String
  pub url_hostname : String → Option String
