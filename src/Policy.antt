-- ===== src/Policy.antt =====
-- internal/orchestrator/policy/policy.go: the words of the permission pipeline.
pub mod Match
pub mod Engine
pub mod Gates
pub mod Taint
pub mod Order
mod Examples
use harness_ai.Prelude.{String, Bool, List}
use harness_ai.Llm.{Args}
use harness_ai.Domain.{SideEffect, EgressClass, PermissionDecision}

pub data Decision : Type 0 where
  allow deny ask : Decision

-- `ToPersisted`
unfoldable pub to_persisted : Decision → PermissionDecision
to_persisted allow = PermissionDecision.allow
to_persisted deny = PermissionDecision.deny
to_persisted ask = PermissionDecision.ask

-- A string type: what is none of the constants falls into the switch's default.
pub data Mode : Type 0 where
  default accept_edits plan bypass : Mode
  unrecognized : String → Mode

pub data RuleEffect : Type 0 where
  deny allow : RuleEffect
  invalid : String → RuleEffect

pub record Rule : Type 0 where
  pub id : String
  pub effect : RuleEffect
  pub tool_name : String
  pub arg_match : String

abbrev pub RuleSet : Type 0
RuleSet = List Rule

pub record Input : Type 0 where
  pub session_id : String
  pub call_id : String
  pub tool_name : String
  pub tool_args : Args
  pub side_effect : SideEffect
  pub egress_class : EgressClass
  pub mode : Mode
  pub tainted : Bool

pub record Result : Type 0 where
  pub decision : Decision
  pub rule_id : String
  pub reason : String
