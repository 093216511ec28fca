-- ===== src/Gateway/Registry.antt =====
-- internal/modelgateway/app/capabilities/capabilities.go: what a model on an endpoint can do.
use harness_ai.Prelude.{
  ◌≡◌, refl, sym, ◌∙◌, String, false, Option, none, some, List, [], ◌∷◌, Map, put, str_eq, eq_refl,
  if◌then◌else◌,
}
use harness_ai.Llm.{Capabilities}
use harness_ai.Gateway.Builtin.{builtin_caps}
use harness_ai.Gateway.Outbound.{no_capabilities, normalize_capabilities}
use harness_ai.Gateway.Inbound.{to_gen_capabilities}

-- A nil map of models is one without entries; an entry may be a nil pointer.
pub record EndpointOverride : Type 0 where
  pub all_models : Option Capabilities
  pub per_model : Map (Option Capabilities)

-- `NewRegistry`: the overrides by endpoint.
abbrev pub Registry : Type 0
Registry = Map EndpointOverride

-- `SetEndpointOverride`
unfoldable pub set_endpoint_override : Registry → String → EndpointOverride → Registry
set_endpoint_override r endpoint o = put r endpoint o

unfoldable pub builtin_or_default : List (String × Capabilities) → String → Capabilities
builtin_or_default [] model = no_capabilities
builtin_or_default ((name, caps) ∷ rest) model =
    if str_eq name model then caps else builtin_or_default rest model

-- Behind the per-model override.
abbrev all_models_or : Option Capabilities → String → Capabilities
all_models_or none model = builtin_or_default builtin_caps model
all_models_or (some caps) model = caps

unfoldable pub overridden : EndpointOverride → String → Capabilities
unfolding builtin_or_default builtin_caps
overridden o model = elim (o.per_model model) [
  | none ↦ all_models_or o.all_models model
  | some entry ↦ elim entry [ none ↦ all_models_or o.all_models model | some caps ↦ caps ]
]

-- `Resolve`
unfoldable pub resolve_capabilities : Registry → String → String → Capabilities
unfolding overridden builtin_or_default builtin_caps
resolve_capabilities r endpoint model = elim (r endpoint) [
  | none ↦ builtin_or_default builtin_caps model
  | some o ↦ overridden o model
]

-- What the orchestrator is told of a model: GetCapabilities of the gateway's server, and the adapter.
unfoldable pub remote_capabilities : Registry → String → String → Capabilities
unfolding resolve_capabilities normalize_capabilities to_gen_capabilities
remote_capabilities r endpoint model =
    normalize_capabilities (some (to_gen_capabilities (resolve_capabilities r endpoint model)))

capabilities-back : (c : Capabilities) → normalize_capabilities (some (to_gen_capabilities c)) ≡ c
unfolding normalize_capabilities to_gen_capabilities
capabilities-back c = refl

resolve_capabilities-same :
    (r : Registry) (endpoint model : String) (o : EndpointOverride)
    → resolve_capabilities (set_endpoint_override r endpoint o) endpoint model ≡ overridden o model
unfolding resolve_capabilities set_endpoint_override
resolve_capabilities-same r endpoint model o = rw (eq_refl endpoint, resolve_capabilities) refl

resolve_capabilities-else :
    (r : Registry) (endpoint elsewhere model : String) (o : EndpointOverride)
    → str_eq endpoint elsewhere ≡ false
    → resolve_capabilities (set_endpoint_override r endpoint o) elsewhere model
      ≡ resolve_capabilities r elsewhere model
unfolding resolve_capabilities set_endpoint_override
resolve_capabilities-else r endpoint elsewhere model o e = rw (e, resolve_capabilities) refl

-- The override of an endpoint. Once it is set, the orchestrator is told of a model on that endpoint what the override
-- gives for it (its own entry first, then that for all models, then the table), and of a model on any other
-- endpoint what it was told before.
pub remote_capabilities-set_endpoint_override :
    (r : Registry) (endpoint elsewhere model : String) (o : EndpointOverride)
    → (remote_capabilities (set_endpoint_override r endpoint o) endpoint model ≡ overridden o model)
      × (str_eq endpoint elsewhere ≡ false
          → remote_capabilities (set_endpoint_override r endpoint o) elsewhere model
            ≡ remote_capabilities r elsewhere model)
unfolding remote_capabilities
remote_capabilities-set_endpoint_override r endpoint elsewhere model o = (
  capabilities-back _ ∙ resolve_capabilities-same r endpoint model o,
  λ e.
      capabilities-back _
      ∙ resolve_capabilities-else r endpoint elsewhere model o e
      ∙ sym (capabilities-back _),
)
