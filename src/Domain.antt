-- ===== src/Domain.antt =====
-- internal/orchestrator/domain: the events of a session's log and the words they carry.
pub mod HashChain
pub mod Checkpoint
use harness_ai.Prelude.{ℕ, String, Bool, true, false, Option, List, if◌then◌else◌}
use harness_ai.Llm.{Usage, F64, Word, ProviderRaw, Args, Message, StopReason}

-- toolclass.go. Each is a string type: what is none of the constants is kept, and the empty text is
-- a constructor of its own.
pub data SideEffect : Type 0 where
  read_only mutating unset : SideEffect
  unrecognized : String → SideEffect

pub data EgressClass : Type 0 where
  none internal external unset : EgressClass
  unrecognized : String → EgressClass

-- turn.go
pub data TerminationReason : Type 0 where
  success error_max_turns error_max_budget_usd error_during_execution : TerminationReason
  error_max_structured_output_retries refusal error_doom_loop : TerminationReason

-- Everything but success is an error; a refusal counts as one.
unfoldable pub is_error : TerminationReason → Bool
is_error success = false
is_error _ = true

pub data PermissionDecision : Type 0 where
  allow deny ask : PermissionDecision

pub data AskResolution : Type 0 where
  unresolved allowed denied : AskResolution

pub data PermissionMode : Type 0 where
  unset default accept_edits plan bypass : PermissionMode

-- `OrDefault` of session.go
unfoldable pub or_default : PermissionMode → PermissionMode
or_default PermissionMode.unset = PermissionMode.default
or_default m = m

pub data Actor : Type 0 where
  user assistant tool system : Actor

pub record PlanItem : Type 0 where
  pub content : String
  pub status : String

-- event.go: the payload of each event type, its fields in the order of the struct.
pub data Event : Type 0 where
  session_started : (parent_id : String) (forked_from_seq : ℕ) (system_prompt : String) → Event
  message_appended : (message : Message) → Event
  turn_started : (turn_id model : String) → Event
  assistant_message_delta :
      (turn_id text_so_far : String) (usage_so_far : Usage) (provider_raw : ProviderRaw) → Event
  assistant_message :
      (turn_id : String) (message : Message) (stop_reason : StopReason) (raw_stop_reason : String)
      (usage : Usage) (cost_usd : F64) (provider_raw : ProviderRaw)
      → Event
  tool_execution_started : (call_id tool_name idempotency_key : String) → Event
  tool_result : (call_id result : String) (is_error truncated : Bool) (blob_ref : String) → Event
  tool_result_cleared : (cleared_session_id : String) (cleared_seq : ℕ) (reason : String) → Event
  turn_aborted :
      (turn_id : String) (reason : TerminationReason) (usage_so_far : Usage) (cost_usd : F64)
      → Event
  turn_finished :
      (turn_id : String) (reason : TerminationReason) (usage : Usage) (cost_usd : F64)
      (num_turns : ℕ)
      → Event
  compaction_performed : (before_tokens after_tokens : Word) (reason : String) → Event
  permission_decided :
      (call_id tool_name : String) (decision : PermissionDecision) (resolved : AskResolution)
      (rule_id reason : String)
      → Event
  workspace_reset : (reason : String) → Event
  bypass_mode_activated :
      (principal : String) (prior_mode new_mode : PermissionMode) (reason : String) → Event
  mcp_tool_approval_requested :
      (server_name server_version tool_name untrusted_description : String) → Event
  mcp_tool_approval_resolved : (server_name tool_name : String) (granted : Bool) → Event
  plan_updated : (turn_id : String) (items : List PlanItem) → Event
  approval_requested : (turn_id call_id tool_name reason : String) (args : Args) → Event

-- An event with what the store knows of it. `none` stands for a nil hash or a nil payload; the
-- times are Unix nanoseconds.
pub record EventEnvelope : Type 0 where
  pub seq : ℕ
  pub session_id : String
  pub tenant_id : String
  pub request_id : String
  pub schema_version : ℕ
  pub actor : Actor
  pub created_at : ℕ
  pub event : Event
  pub payload_canonical : Option (List ℕ)
  pub content_hash : Option (List ℕ)
  pub chain_hash : Option (List ℕ)
