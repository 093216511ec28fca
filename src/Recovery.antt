-- ===== src/Recovery.antt =====
-- internal/orchestrator/app/recovery/recovery.go: the state of the fold over a session's log, and
-- the plan that comes out of it.
pub mod Fold
pub mod Collect
pub mod Spec
pub mod Keys
pub mod Order
pub mod Turns
pub mod Executions
pub mod Suspended
pub mod Resume
mod Examples
use harness_ai.Prelude.{String, Bool, List, Map}
use harness_ai.Llm.{Usage, ProviderRaw, Args}
use harness_ai.Domain.{SideEffect}

pub record OpenTurn : Type 0 where
  pub turn_id : String
  pub recovered_usage : Usage
  pub last_provider_raw : ProviderRaw

pub record UnknownExecution : Type 0 where
  pub call_id : String
  pub tool_name : String
  pub idempotency_key : String
  pub side_effect : SideEffect
  pub re_dispatchable : Bool

pub record SuspendedApproval : Type 0 where
  pub turn_id : String
  pub call_id : String
  pub tool_name : String
  pub reason : String
  pub args : Args

pub record Plan : Type 0 where
  pub open_turns : List OpenTurn
  pub unknown_executions : List UnknownExecution
  pub suspended_approvals : List SuspendedApproval

pub record TurnState : Type 0 where
  pub turn_id : String
  pub recovered_usage : Usage
  pub last_provider_raw : ProviderRaw
  pub closed : Bool
  pub terminated : Bool

pub record ExecState : Type 0 where
  pub call_id : String
  pub tool_name : String
  pub idempotency_key : String
  pub closed : Bool

pub record ApprovalState : Type 0 where
  pub turn_id : String
  pub call_id : String
  pub tool_name : String
  pub reason : String
  pub args : Args
  pub resolved : Bool

-- The three maps of `Analyze`, each with the order in which its keys came.
pub record FoldState : Type 0 where
  pub turns : Map TurnState
  pub turn_order : List String
  pub execs : Map ExecState
  pub exec_order : List String
  pub approvals : Map ApprovalState
  pub approval_order : List String
