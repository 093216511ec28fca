-- ===== src/ToolRuntime/Broker.antt =====
-- internal/toolruntime/adapter/outbound/egress/broker.go: the hosts that a session may reach.
use Prim.Native.String.{◌++◌ as ◌<>◌}
use harness_ai.Prelude.{
  String, Bool, true, false, not, Option, none, some, List, [], ◌∷◌, ◌++◌, Map, empty_map, put,
  str_eq, if◌then◌else◌,
}
use harness_ai.Prelude.Text.{cut_prefix, contains}
use harness_ai.ToolRuntime.{EgressAnswer, answer}

-- app/ports.go: `EgressPolicy`
pub record EgressPolicy : Type 0 where
  pub session_id : String
  pub allowed_hosts : List String

-- `Decision`, without its time.
pub record EgressDecision : Type 0 where
  pub session_id : String
  pub host : String
  pub allowed : Bool

pub record Broker : Type 0 where
  pub policies : Map EgressPolicy
  pub decisions : Map (List EgressDecision)
  pub default_hosts : List String

-- `New`
abbrev pub new_broker : List String → Broker
new_broker hosts = record { policies = empty_map; decisions = empty_map; default_hosts = hosts }

-- What stands before a suffix: the slice that is left of the text without it.
unfoldable pub before_suffix : String → String → Option String
before_suffix String.[] t = if str_eq "" t then some "" else none
before_suffix (String.◌∷◌ c s) t =
    let rest = before_suffix s t in
    if str_eq (String.◌∷◌ c s) t
    then some ""
    else elim rest [ none ↦ none | some p ↦ some (String.◌∷◌ c p) ]

-- `matchEntry`
unfoldable pub match_entry : String → String → Bool
unfolding cut_prefix contains before_suffix
match_entry host entry = elim (cut_prefix entry "*.") [
  | none ↦ str_eq host entry
  | some suffix ↦ elim (before_suffix host ("." <> suffix)) [
    | none ↦ false
    | some label ↦ not (contains label ".")
  ]
]

-- `matchesPolicy`
unfoldable pub matches_policy : String → List String → Bool
unfolding match_entry
matches_policy host [] = false
matches_policy host (entry ∷ entries) =
    if match_entry host entry then true else matches_policy host entries

-- The hosts that govern a session.
abbrev pub hosts_of : Broker → String → List String
hosts_of b session = elim (b.policies session) [ none ↦ b.default_hosts | some p ↦ p.allowed_hosts ]

abbrev pub decisions_of : Broker → String → List EgressDecision
decisions_of b session = elim (b.decisions session) [ none ↦ [] | some ds ↦ ds ]

-- `Allow`: the answer, and the broker with the decision recorded.
unfoldable pub allow : Broker → String → String → Bool × Broker
unfolding matches_policy
allow b session host =
    let allowed = matches_policy host (hosts_of b session) in
    (
      allowed,
      record b {
        decisions = put b.decisions session (
            decisions_of b session
            ++ (record { session_id = session; host = host; allowed = allowed } ∷ []));
      },
    )

-- `SetPolicy`
unfoldable pub set_policy : Broker → EgressPolicy → Broker
set_policy b p = record b { policies = put b.policies p.session_id p }

-- The answers of a broker, as the execution service asks for them.
unfoldable pub answers_of : Broker → String → String → EgressAnswer
unfolding allow
answers_of b session host = answer (allow b session host).0
