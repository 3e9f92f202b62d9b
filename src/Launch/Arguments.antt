-- ===== src/Launch/Arguments.antt =====
-- src/domain/launch-arguments.ts: the provider's arguments and prompt.
pub mod Bypass
use codevo_runner.Prelude.{
  ℕ, Bool, true, false, not, ◌&&◌, ◌||◌, Option, none, some, List, [], ◌∷◌, ◌++◌, map, leb, ◌==◌,
  if◌then◌else◌, length, take, any, all, keep, Text, codes, text_eq,
}
use codevo_runner.Prelude.Spaces.{is_space, trim_start, trim}
use codevo_runner.Launch.{
  claude_code, codex, PermissionMode, CodexEffort, ClaudeEffort, Context, ClaudeLaunchOptions,
  CodexLaunchOptions, LaunchOptions, mode_default, plan, supervised, accept_edits, mode_auto,
  bypass_permissions, effort_default, none_effort, minimal, low, medium, high, xhigh, effort_max,
  ultra, execution_default, read_only, danger_full_access, claude_default, claude_low,
  claude_medium, claude_high, claude_xhigh, claude_max, ultracode, ultrathink, context_1m,
}

abbrev effort_text : CodexEffort → Text
effort_text effort_default = codes "default"
effort_text none_effort = codes "none"
effort_text minimal = codes "minimal"
effort_text low = codes "low"
effort_text medium = codes "medium"
effort_text high = codes "high"
effort_text xhigh = codes "xhigh"
effort_text effort_max = codes "max"
effort_text ultra = codes "ultra"

abbrev quoted : Text → Text → Text
quoted key value = key ++ codes "=" ++ (34 ∷ value ++ 34 ∷ [])

abbrev effort_args : Option CodexEffort → List Text
effort_args none = []
effort_args (some effort_default) = []
effort_args (some e) = codes "-c" ∷ quoted (codes "model_reasoning_effort") (effort_text e) ∷ []

abbrev sandbox_args : Text → Bool → List Text
sandbox_args sandbox resumed =
    if resumed
    then codes "-c" ∷ quoted (codes "sandbox_mode") sandbox ∷ []
    else codes "--sandbox" ∷ sandbox ∷ []

abbrev model_args : Text → Text → List Text
model_args option model = if text_eq model (codes "default") then [] else option ∷ model ∷ []

codex_arguments : CodexLaunchOptions → Bool → List Text
codex_arguments o resumed =
    let model = model_args (codes "-m") o.model in
    elim o.mode [
      | execution_default ↦ model ++ effort_args o.effort
      | danger_full_access ↦
          model ++ codes "--dangerously-bypass-approvals-and-sandbox" ∷ effort_args o.effort
      | read_only ↦ model ++ sandbox_args (codes "read-only") resumed ++ effort_args o.effort
      | _ ↦ model ++ sandbox_args (codes "workspace-write") resumed ++ effort_args o.effort
    ]

abbrev fixed_context : Text → Bool
fixed_context model =
    any (λ m. text_eq m model)
      (codes "claude-opus-4-8"
        ∷ codes "claude-opus-4-7"
        ∷ codes "claude-opus-4-5"
        ∷ codes "claude-haiku-4-5"
        ∷ [])

abbrev is_1m : Option Context → Bool
is_1m (some context_1m) = true
is_1m _ = false

claude_model : ClaudeLaunchOptions → List Text
claude_model o =
    if text_eq o.model (codes "default")
    then []
    else codes "--model"
      ∷ (o.model ++ (if is_1m o.context && not (fixed_context o.model) then codes "[1m]" else []))
      ∷ []

claude_mode : PermissionMode → List Text
claude_mode mode_default = []
claude_mode bypass_permissions = codes "--dangerously-skip-permissions" ∷ []
claude_mode supervised = codes "--permission-mode" ∷ codes "default" ∷ []
claude_mode plan = codes "--permission-mode" ∷ codes "plan" ∷ []
claude_mode accept_edits = codes "--permission-mode" ∷ codes "acceptEdits" ∷ []
claude_mode mode_auto = codes "--permission-mode" ∷ codes "auto" ∷ []

claude_effort : ClaudeEffort → List Text
claude_effort claude_default = []
claude_effort ultrathink = []
claude_effort ultracode = codes "--effort" ∷ codes "xhigh" ∷ []
claude_effort claude_low = codes "--effort" ∷ codes "low" ∷ []
claude_effort claude_medium = codes "--effort" ∷ codes "medium" ∷ []
claude_effort claude_high = codes "--effort" ∷ codes "high" ∷ []
claude_effort claude_xhigh = codes "--effort" ∷ codes "xhigh" ∷ []
claude_effort claude_max = codes "--effort" ∷ codes "max" ∷ []

abbrev truthy : Option Bool → Bool
truthy (some true) = true
truthy _ = false

abbrev is_ultracode : ClaudeEffort → Bool
is_ultracode ultracode = true
is_ultracode _ = false

-- `JSON.stringify` of an object of flags.
abbrev members : List (Text × Bool) → Text
members [] = codes "}"
members ((k, b) ∷ []) =
    34 ∷ k ++ codes "\":" ++ (if b then codes "true" else codes "false") ++ codes "}"
members ((k, b) ∷ more) =
    34 ∷ k
    ++ codes "\":"
    ++ (if b then codes "true" else codes "false")
    ++ codes ","
    ++ members more

abbrev stringify : List (Text × Bool) → Text
stringify flags = codes "{" ++ members flags

abbrev flag_if : Bool → Text → List (Text × Bool)
flag_if b k = if b then (k, true) ∷ [] else []

abbrev settings_args : List (Text × Bool) → List Text
settings_args [] = []
settings_args (f ∷ fs) = codes "--settings" ∷ stringify (f ∷ fs) ∷ []

claude_settings : ClaudeLaunchOptions → List Text
claude_settings o =
    if text_eq o.model (codes "claude-haiku-4-5")
    then codes "--settings"
      ∷ stringify ((codes "alwaysThinkingEnabled", truthy o.thinking_mode) ∷ [])
      ∷ []
    else settings_args (
        flag_if (truthy o.fast_mode) (codes "fastMode")
        ++ flag_if (is_ultracode o.effort) (codes "ultracode")
        ++ flag_if (truthy o.thinking_mode) (codes "alwaysThinkingEnabled"))

-- `launchArguments`.
unfoldable pub launch_arguments : LaunchOptions → Bool → List Text
unfolding codex_arguments claude_model claude_mode claude_effort claude_settings
launch_arguments (codex o) resumed = codex_arguments o resumed
launch_arguments (claude_code o) resumed =
    claude_model o ++ claude_mode o.mode ++ claude_effort o.effort ++ claude_settings o

abbrev max_preapproved_mcp_servers : ℕ
max_preapproved_mcp_servers = 96

abbrev name_start : ℕ → Bool
name_start c =
    (leb b'A' c && leb c b'Z')
    || (leb b'a' c && leb c b'z')
    || (leb b'0' c && leb c b'9')
    || c == b'_'

-- `isConfigurableMcpServerName` of src/domain/mcp-server-management.ts.
is_configurable : Text → Bool
is_configurable [] = false
is_configurable (c ∷ cs) =
    name_start c && leb (length cs) 63 && all (λ d. name_start d || d == b'-') cs

abbrev has_double_underscore : Text → Bool
has_double_underscore [] = false
has_double_underscore (c ∷ []) = false
has_double_underscore (c ∷ d ∷ s) =
    let rest = has_double_underscore (d ∷ s) in (c == b'_' && d == b'_') || rest

abbrev starts_with : Text → Text → Bool
starts_with [] s = true
starts_with (p ∷ ps) [] = false
starts_with (p ∷ ps) (c ∷ s) = elim (p == c) [ true ↦ starts_with ps s | false ↦ false ]

-- `isPreapprovableMcpServerName`.
unfoldable pub is_preapprovable : Text → Bool
unfolding is_configurable
is_preapprovable name =
    is_configurable name && not (has_double_underscore name) && not (starts_with (codes "_") name)

-- The distinct names, in the order of their first occurrence.
distinct_after : List Text → List Text → List Text
distinct_after seen [] = []
distinct_after seen (n ∷ ns) = elim (any (λ m. text_eq m n) seen) [
  | true ↦ distinct_after seen ns
  | false ↦ n ∷ distinct_after (n ∷ seen) ns
]

unfoldable pub preapproved_tools : List Text → List Text
unfolding distinct_after
preapproved_tools servers =
    map (λ name. codes "mcp__" ++ name)
      (take max_preapproved_mcp_servers (distinct_after [] (keep is_preapprovable servers)))

abbrev join_commas : List Text → Text
join_commas [] = []
join_commas (t ∷ []) = t
join_commas (t ∷ ts) = t ++ codes "," ++ join_commas ts

abbrev allowed_tools : Text
allowed_tools = codes "--allowedTools"

-- The arguments with the tools added to the value after the first `--allowedTools`; `none` where
-- there is no such value.
extend_allowed : List Text → List Text → Option (List Text)
extend_allowed tools [] = none
extend_allowed tools (a ∷ []) = none
extend_allowed tools (a ∷ b ∷ rest) =
    let more = extend_allowed tools (b ∷ rest) in
    if text_eq a allowed_tools
    then some (a ∷ join_commas (b ∷ tools) ∷ rest)
    else elim more [ none ↦ none | some args ↦ some (a ∷ args) ]

abbrev pub needs_no_approval : Option LaunchOptions → Bool
needs_no_approval none = false
needs_no_approval (some (codex o)) = true
needs_no_approval (some (claude_code o)) = elim o.mode [ bypass_permissions ↦ true | _ ↦ false ]

with_tools : List Text → List Text → List Text
unfolding extend_allowed
with_tools args [] = args
with_tools args (t ∷ ts) = elim (extend_allowed (t ∷ ts) args) [
  | none ↦ args ++ allowed_tools ∷ join_commas (t ∷ ts) ∷ []
  | some extended ↦ extended
]

-- `withMcpServerPreapproval`.
unfoldable pub with_mcp_server_preapproval :
    List Text → Option LaunchOptions → List Text → List Text
unfolding with_tools
with_mcp_server_preapproval args launch servers =
    if needs_no_approval launch then args else with_tools args (preapproved_tools servers)

abbrev until_space : Text → Text
until_space [] = []
until_space (c ∷ s) = let rest = until_space s in if is_space c then [] else c ∷ rest

-- The first word after a leading slash.
abbrev command_token : Text → Text
command_token [] = []
command_token (c ∷ s) = if c == b'/' then until_space (trim_start s) else []

abbrev is_command : Text → Bool
is_command [] = false
is_command (c ∷ token) = not (any (λ d. d == b'/') (c ∷ token))

ultrathink_prompt : Text → Text
ultrathink_prompt trimmed =
    if starts_with (codes "Ultrathink:") trimmed || is_command (command_token trimmed)
    then trimmed
    else codes "Ultrathink:" ++ 10 ∷ trimmed

-- `launchPrompt`.
unfoldable pub launch_prompt : LaunchOptions → Text → Text
unfolding ultrathink_prompt
launch_prompt (codex o) prompt = prompt
launch_prompt (claude_code o) prompt = elim o.effort [
  | ultrathink ↦ ultrathink_prompt (trim prompt)
  | _ ↦ prompt
]
