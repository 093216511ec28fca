-- ===== src/Policy/Match.antt =====
-- engine.go: whether a rule applies to a dispatch, and the grammar of its argument predicate.
use Prim.Native.Char.{Char}
use Prim.Native.String.{◌++◌}
use harness_ai.Prelude.{
  String, Bool, true, false, not, ◌&&◌, ◌||◌, Option, none, some, [], ◌∷◌, str_eq, if◌then◌else◌,
}
use harness_ai.Prelude.Text.{
  cut_prefix, has_prefix, has_suffix, contains, cut_last, trim_space, to_lower,
}
use harness_ai.Llm.{ArgValue, str, other, Args}
use harness_ai.Domain.{EgressClass}
use harness_ai.Policy.{Rule, Input}

-- What the engine takes of the standard library: `unicode.ToLower`, and the host name of a URL,
-- `none` where `url.Parse` fails.
pub record GoText : Type 0 where
  pub lower : Char → Char
  pub url_hostname : String → Option String

-- `args[key]` of a map
unfoldable pub get_arg : Args → String → Option ArgValue
get_arg [] key = none
get_arg ((k, v) ∷ args) key = if str_eq k key then some v else get_arg args key

unfoldable pub string_arg : Args → String → Option String
unfolding get_arg
string_arg args key = elim (get_arg args key) [
  | none ↦ none
  | some v ↦ elim v [ str s ↦ some s | other _ ↦ none ]
]

-- The range over the map stops at the first hit, so its order does not matter.
unfoldable pub any_string_arg : Args → (String → Bool) → Bool
any_string_arg [] pred = false
any_string_arg ((k, str s) ∷ args) pred = pred s || any_string_arg args pred
any_string_arg ((k, other _) ∷ args) pred = any_string_arg args pred

-- A present, non-empty text argument.
abbrev non_empty : Option String → Option String
non_empty none = none
non_empty (some s) = if str_eq s "" then none else some s

module _ (go : GoText) where
  open go use {lower, url_hostname}

  abbrev from_url : Option String → String
  from_url none = ""
  from_url (some raw) = elim (non_empty (url_hostname raw)) [
    | none ↦ ""
    | some host ↦ to_lower lower host
  ]

  unfoldable pub target_host : Args → String
  unfolding string_arg to_lower
  target_host args = elim (non_empty (string_arg args "host")) [
    | none ↦ from_url (non_empty (string_arg args "url"))
    | some h ↦ to_lower lower h
  ]

  unfoldable pub host_matches : String → Args → Bool
  unfolding has_suffix trim_space
  host_matches raw args =
      let want = to_lower lower (trim_space raw) in
      let got = target_host args in
      if str_eq want ""
      then false
      else if str_eq got ""
      then false
      else str_eq got want || has_suffix got ("." ++ want)

  unfoldable pub arg_matches : String → Args → Bool
  unfolding cut_prefix cut_last contains has_prefix any_string_arg
  arg_matches expr args = elim (cut_prefix expr "host:") [
    | some host ↦ host_matches host args
    | none ↦ elim (cut_last expr "*") [
      | some prefix ↦ any_string_arg args (λ v. has_prefix v prefix)
      | none ↦ any_string_arg args (λ v. contains v expr)
    ]
  ]

  unfoldable pub rule_matches : Rule → Input → Bool
  rule_matches r inp =
      if not (str_eq r.tool_name "") && not (str_eq r.tool_name inp.tool_name)
      then false
      else if str_eq r.arg_match ""
      then true
      else arg_matches r.arg_match inp.tool_args

-- Only an explicit none or internal class is exempt from the egress gate.
unfoldable pub is_external : Input → Bool
is_external inp = elim inp.egress_class [
  | EgressClass.none ↦ false
  | EgressClass.internal ↦ false
  | _ ↦ true
]
