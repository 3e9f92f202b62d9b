-- ===== src/Launch.antt =====
-- src/domain/launch.ts: the launch choices of a task and their parser.
pub mod Arguments
pub mod Parsing
use codevo_runner.Prelude.{
  ℕ, Bool, true, false, ◌&&◌, ◌||◌, Option, none, some, List, [], ◌∷◌, leb, ◌==◌, if◌then◌else◌,
  length, all, Text, codes, text_eq,
}
use codevo_runner.Json.{Value, Fields, keys, lookup, includes, is_text, bool, str, obj}
use codevo_runner.Contracts.{Result, ◌>>=◌, ◌>>◌, guard, invalid_input, ok, err}

pub data Provider : Type 0 where
  provider_claude provider_codex : Provider

pub data PermissionMode : Type 0 where
  mode_default plan supervised accept_edits mode_auto bypass_permissions : PermissionMode

pub data CodexEffort : Type 0 where
  effort_default none_effort minimal low medium high xhigh effort_max ultra : CodexEffort

pub data ExecutionMode : Type 0 where
  execution_default read_only workspace_write execution_auto danger_full_access : ExecutionMode

pub data ClaudeEffort : Type 0 where
  claude_default claude_low claude_medium claude_high claude_xhigh claude_max : ClaudeEffort
  ultracode ultrathink : ClaudeEffort

pub data Context : Type 0 where
  context_200k context_1m : Context

pub record ClaudeLaunchOptions : Type 0 where
  pub model : Text
  pub mode : PermissionMode
  pub effort : ClaudeEffort
  pub context : Option Context
  pub fast_mode : Option Bool
  pub thinking_mode : Option Bool

pub record CodexLaunchOptions : Type 0 where
  pub model : Text
  pub mode : ExecutionMode
  pub effort : Option CodexEffort

pub data LaunchOptions : Type 0 where
  claude_code : ClaudeLaunchOptions → LaunchOptions
  codex : CodexLaunchOptions → LaunchOptions

-- The texts of the choices; `member` finds a choice by its text.
abbrev permission_modes : List (Text × PermissionMode)
permission_modes =
    (codes "default", mode_default)
    ∷ (codes "plan", plan)
    ∷ (codes "supervised", supervised)
    ∷ (codes "acceptEdits", accept_edits)
    ∷ (codes "auto", mode_auto)
    ∷ (codes "bypassPermissions", bypass_permissions)
    ∷ []

abbrev codex_effort_choices : List (Text × CodexEffort)
codex_effort_choices =
    (codes "default", effort_default)
    ∷ (codes "none", none_effort)
    ∷ (codes "minimal", minimal)
    ∷ (codes "low", low)
    ∷ (codes "medium", medium)
    ∷ (codes "high", high)
    ∷ (codes "xhigh", xhigh)
    ∷ (codes "max", effort_max)
    ∷ (codes "ultra", ultra)
    ∷ []

abbrev execution_modes : List (Text × ExecutionMode)
execution_modes =
    (codes "default", execution_default)
    ∷ (codes "readOnly", read_only)
    ∷ (codes "workspaceWrite", workspace_write)
    ∷ (codes "auto", execution_auto)
    ∷ (codes "dangerFullAccess", danger_full_access)
    ∷ []

abbrev claude_effort_choices : List (Text × ClaudeEffort)
claude_effort_choices =
    (codes "default", claude_default)
    ∷ (codes "low", claude_low)
    ∷ (codes "medium", claude_medium)
    ∷ (codes "high", claude_high)
    ∷ (codes "xhigh", claude_xhigh)
    ∷ (codes "max", claude_max)
    ∷ (codes "ultracode", ultracode)
    ∷ (codes "ultrathink", ultrathink)
    ∷ []

abbrev context_choices : List (Text × Context)
context_choices = (codes "200k", context_200k) ∷ (codes "1m", context_1m) ∷ []

find_choice : {A : Type 0} → Text → List (Text × A) → Result A
find_choice s [] = err invalid_input
find_choice s ((t, a) ∷ choices) = elim (text_eq t s) [
  | true ↦ ok a
  | false ↦ find_choice s choices
]

member : {A : Type 0} → Option Value → List (Text × A) → Result A
unfolding find_choice
member (some (str s)) choices = find_choice s choices
member _ choices = err invalid_input

abbrev alphanumeric : ℕ → Bool
alphanumeric c = (leb b'a' c && leb c b'z') || (leb b'0' c && leb c b'9')

unfoldable pub is_model_id : Text → Bool
is_model_id [] = false
is_model_id (c ∷ cs) =
    alphanumeric c
    && leb (length cs) 95
    && all (λ d. alphanumeric d || d == b'.' || d == b'_' || d == b'-') cs

-- `modelId`.
unfoldable pub model_id : Option Value → Result Text
model_id (some (str s)) = if is_model_id s then ok s else err invalid_input
model_id _ = err invalid_input

flag : Option Value → Result Bool
flag none = ok false
flag (some (bool b)) = ok b
flag (some _) = err invalid_input

provider_of : Option Value → Result Provider
provider_of v =
    if is_text v (codes "claudeCode")
    then ok provider_claude
    else if is_text v (codes "codex")
    then ok provider_codex
    else err invalid_input

abbrev pub same_provider : Provider → Provider → Bool
same_provider provider_claude provider_claude = true
same_provider provider_codex provider_codex = true
same_provider _ _ = false

abbrev expected : Option Provider → Provider → Bool
expected none found = true
expected (some p) found = same_provider found p

abbrev pub launch_keys : Provider → List Text
launch_keys provider_codex = codes "provider" ∷ codes "model" ∷ codes "mode" ∷ codes "effort" ∷ []
launch_keys provider_claude =
    codes "provider"
    ∷ codes "model"
    ∷ codes "mode"
    ∷ codes "effort"
    ∷ codes "context"
    ∷ codes "fastMode"
    ∷ codes "thinkingMode"
    ∷ []

abbrev set_effort : CodexEffort → Option CodexEffort
set_effort effort_default = none
set_effort e = some e

abbrev codex_effort : Option Value → Result CodexEffort
codex_effort none = ok effort_default
codex_effort (some v) = member (some v) codex_effort_choices

abbrev context_of : Option Value → Result (Option Context)
context_of none = ok none
context_of (some v) = do c ← member (some v) context_choices; ok (some c)

parse_fields : Provider → Fields → Result LaunchOptions
unfolding member flag lookup
parse_fields provider_codex fs = do
  effort ← codex_effort (lookup (codes "effort") fs)
  model ← model_id (lookup (codes "model") fs)
  mode ← member (lookup (codes "mode") fs) execution_modes
  ok (codex (record { model = model; mode = mode; effort = set_effort effort }))
parse_fields provider_claude fs = do
  model ← model_id (lookup (codes "model") fs)
  mode ← member (lookup (codes "mode") fs) permission_modes
  effort ← member (lookup (codes "effort") fs) claude_effort_choices
  context ← context_of (lookup (codes "context") fs)
  fast ← flag (lookup (codes "fastMode") fs)
  thinking ← flag (lookup (codes "thinkingMode") fs)
  ok (
      claude_code (record {
        model = model;
        mode = mode;
        effort = effort;
        context = context;
        fast_mode = some fast;
        thinking_mode = some thinking;
      }))

-- `parseLaunchOptions`.
unfoldable pub parse_launch_options : Value → Option Provider → Result LaunchOptions
unfolding parse_fields provider_of
parse_launch_options (obj fs) provider = do
  found ← provider_of (lookup (codes "provider") fs)
  guard (expected provider found) invalid_input
  guard (all (λ k. includes (launch_keys found) k) (keys fs)) invalid_input
  parse_fields found fs
parse_launch_options _ provider = err invalid_input

abbrev or_200k : Option Context → Context
or_200k none = context_200k
or_200k (some c) = c

-- `launchIdentity`.
unfoldable pub launch_identity : LaunchOptions → LaunchOptions
launch_identity (codex o) = codex o
launch_identity (claude_code o) = claude_code (record o { context = some (or_200k o.context) })
