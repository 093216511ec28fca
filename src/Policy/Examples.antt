-- ===== src/Policy/Examples.antt =====
-- Tests of the policy engine, and its theorems at inputs that meet their hypotheses.
use mathlib.Core.List.Perm
use harness_ai.Prelude.{◌≤◌, ◌≡◌, refl, true, false, some, [], ◌∷◌}
use harness_ai.Prelude.Text.{to_lower}
use harness_ai.Llm.{str, Args}
use harness_ai.Domain.{SideEffect, EgressClass}
use harness_ai.Policy.{Decision, Mode, RuleEffect, Rule, Input}
use harness_ai.Policy.Match.{GoText, rule_matches, arg_matches, host_matches, target_host}
use harness_ai.Policy.Engine.{Config, Engine, new_engine, first_match, evaluate}
use harness_ai.Policy.Gates.{decision, decided, decision-evaluate}
use harness_ai.Policy.Taint.{strictness, with_taint, strictness-evaluate}
use harness_ai.Policy.Order.{decision-evaluate-perm}

-- A text library for inputs in lower case, with one known URL.
abbrev plain : GoText
plain = record { lower = λ c. c; url_hostname = λ _. some "evil-example.com" }

abbrev fetch_rule : Rule
fetch_rule = record {
  id = "r1";
  effect = RuleEffect.allow;
  tool_name = "webfetch";
  arg_match = "host:example.com";
}

abbrev rm_rule : Rule
rm_rule = record { id = "r2"; effect = RuleEffect.deny; tool_name = ""; arg_match = "rm -rf*" }

abbrev two_rules : Config
two_rules = record { rule_set = fetch_rule ∷ rm_rule ∷ []; edit_tools = [] }

abbrev swapped_rules : Config
swapped_rules = record { rule_set = rm_rule ∷ fetch_rule ∷ []; edit_tools = [] }

abbrev two_rule_engine : Engine
two_rule_engine = record {
  deny_rules = rm_rule ∷ [];
  allow_rules = fetch_rule ∷ [];
  edit_tools = "edit" ∷ "write" ∷ [];
}

two_rules_build : new_engine two_rules ≡ some two_rule_engine
unfolding new_engine
two_rules_build = refl

swapped_rules_build : new_engine swapped_rules ≡ some two_rule_engine
unfolding new_engine
swapped_rules_build = refl

abbrev fetch : Input
fetch = record {
  session_id = "s";
  call_id = "c";
  tool_name = "webfetch";
  tool_args = ("host", str "api.example.com") ∷ [];
  side_effect = SideEffect.read_only;
  egress_class = EgressClass.external;
  mode = Mode.default;
  tainted = false;
}

abbrev wipe : Input
wipe = record fetch {
  tool_name = "bash";
  tool_args = ("cmd", str "rm -rf /") ∷ [];
  mode = Mode.bypass;
}

fetch_allowed : decision (evaluate plain two_rule_engine fetch) ≡ some Decision.allow
unfolding evaluate first_match rule_matches arg_matches host_matches to_lower target_host
fetch_allowed = refl

fetch_asks_tainted :
    decision (evaluate plain two_rule_engine (with_taint fetch true)) ≡ some Decision.ask
unfolding evaluate first_match rule_matches arg_matches host_matches to_lower target_host
fetch_asks_tainted = refl

wipe_denied : decision (evaluate plain two_rule_engine wipe) ≡ some Decision.deny
unfolding evaluate first_match rule_matches arg_matches host_matches to_lower target_host
wipe_denied = refl

decision-evaluate_example :
    decision (evaluate plain two_rule_engine wipe) ≡ decided plain two_rules wipe
decision-evaluate_example = decision-evaluate plain two_rules two_rule_engine wipe two_rules_build

strictness-evaluate_example :
    strictness (decision (evaluate plain two_rule_engine (with_taint fetch false)))
    ≤ strictness (decision (evaluate plain two_rule_engine (with_taint fetch true)))
strictness-evaluate_example =
    strictness-evaluate plain two_rules two_rule_engine fetch two_rules_build

decision-evaluate-perm_example :
    decision (evaluate plain two_rule_engine fetch)
    ≡ decision (evaluate plain two_rule_engine fetch)
decision-evaluate-perm_example =
    decision-evaluate-perm plain two_rules swapped_rules two_rule_engine two_rule_engine fetch
      (Perm.swap rm_rule fetch_rule []) refl two_rules_build swapped_rules_build

abbrev evil_url : Args
evil_url = ("url", str "http://evil-example.com/") ∷ []

abbrev api_host : Args
api_host = ("host", str "api.example.com") ∷ []

look_alike : host_matches plain "example.com" evil_url ≡ false
unfolding host_matches target_host to_lower
look_alike = refl
