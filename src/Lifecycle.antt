-- ===== src/Lifecycle.antt =====
-- src/domain/subagent-lifecycle.ts: the events of a turn, the retained entries and the limits. The
-- operations and their proofs are in the modules below.
pub mod Aliases
pub mod Clip
pub mod Events
pub mod Parse
pub mod Retain
use codevo_runner.Prelude.{
  ℕ, Bool, true, false, not, ◌&&◌, ◌||◌, Option, none, some, List, [], ◌∷◌, ◌++◌, leb,
  if◌then◌else◌, length, take, Text, codes, text_eq,
}
use codevo_runner.Prelude.Utf8.{encode, cut}
use codevo_runner.Prelude.Spaces.{trim, collapse}

abbrev pub max_retained_subagents : ℕ
max_retained_subagents = 32

abbrev pub max_subagent_task_title_characters : ℕ
max_subagent_task_title_characters = 120

abbrev pub max_subagent_nested_count : ℕ
max_subagent_nested_count = 999

abbrev pub max_subagent_counted_nested_ids : ℕ
max_subagent_counted_nested_ids = 32

abbrev pub max_nested_ancestor_depth : ℕ
max_nested_ancestor_depth = 8

-- `AgentSubagentLifecycleState`.
pub data State : Type 0 where
  running completed failed interrupted : State

-- The status of a `subagent` event: `starting`, or a state.
pub data Status : Type 0 where
  starting : Status
  in_state : State → Status

pub data Activity : Type 0 where
  activity_started activity_interacted activity_interrupted activity_completed : Activity

pub record ToolCall : Type 0 where
  pub tool_id : Text
  pub name : Text
  pub description : Option Text
  pub input_summary : Text
  pub parent_tool_id : Option Text

pub record Subagent : Type 0 where
  pub tool_id : Option Text
  pub task_id : Option Text
  pub status : Status
  pub subagent_type : Option Text
  pub description : Option Text
  pub duration_ms : Option ℕ
  pub total_tokens : Option ℕ
  pub tool_uses : Option ℕ
  pub last_tool_name : Option Text

-- `AgentTurnEvent`.
pub data Event : Type 0 where
  tool_call : ToolCall → Event
  tool_result : Text → Bool → Option Text → Event
  assistant_text : Text → Option Text → Event
  user_message : Event
  result : Event
  subagent : Subagent → Event
  subagent_activity : Text → Text → Activity → Event
  subagent_turn_done : Text → Option ℕ → Bool → Event

-- `SubagentEventIdentity`.
pub record Identity : Type 0 where
  pub tool_id : Option Text
  pub task_id : Option Text
  pub agent_thread_id : Option Text

-- `AgentSubagentLifecycleEntry`; `result_state` is only ever completed or failed.
pub record Entry : Type 0 where
  pub id : Text
  pub tool_id : Option Text
  pub task_id : Option Text
  pub agent_thread_id : Option Text
  pub name : Text
  pub description : Text
  pub state : State
  pub telemetry_state : Option State
  pub result_state : Option State
  pub duration_ms : Option ℕ
  pub total_tokens : Option ℕ
  pub steps : Option ℕ
  pub last_tool_name : Option Text
  pub task_title : Option Text
  pub batch_key : Option Text
  pub nested_count : Option ℕ
  pub parent_tool_id : Option Text

-- `AgentSubagentLifecycle`.
pub record Lifecycle : Type 0 where
  pub entries : List Entry
  pub truncated : Bool
  pub open_batch_key : Option Text
  pub counted_nested_tool_ids : List Text

-- `a ?? b`.
abbrev pub or_else {ℓ} : {A : Type ℓ} → Option A → Option A → Option A
or_else none b = b
or_else (some a) b = some a

abbrev pub or_value {ℓ} : {A : Type ℓ} → Option A → A → A
or_value none b = b
or_value (some a) b = a

abbrev pub is_some {ℓ} : {A : Type ℓ} → Option A → Bool
is_some none = false
is_some (some a) = true

-- `a === b` of optional texts.
abbrev pub same_option : Option Text → Option Text → Bool
same_option none none = true
same_option (some a) (some b) = text_eq a b
same_option _ _ = false

-- `a !== undefined && b === a`.
abbrev pub defined_and_same : Option Text → Option Text → Bool
defined_and_same none b = false
defined_and_same (some a) none = false
defined_and_same (some a) (some b) = text_eq a b

unfoldable pub clip : Text → ℕ → Text
clip value bytes = if leb (length (encode value)) bytes then value else cut (encode value) bytes

abbrev is_empty {ℓ} : {A : Type ℓ} → List A → Bool
is_empty [] = true
is_empty (_ ∷ _) = false

unfoldable pub valid_id : Text → Bool
valid_id s = not (is_empty s) && leb (length (encode s)) 256

abbrev pub valid_option : Option Text → Bool
valid_option none = false
valid_option (some s) = valid_id s

unfoldable pub spawn : Text → Bool
spawn name =
    text_eq name (codes "Task")
    || text_eq name (codes "Agent")
    || text_eq name (codes "SpawnAgent")
    || text_eq name (codes "spawn_agent")

-- The two names that Codex gives its spawn tool.
unfoldable pub codex_spawn : Text → Bool
codex_spawn name = text_eq name (codes "spawn_agent") || text_eq name (codes "SpawnAgent")

unfoldable pub spawn_batch_key : Text → Option Text
spawn_batch_key tool_id = if valid_id tool_id then some (codes "spawn:" ++ tool_id) else none

title_of_line : Text → Option Text
title_of_line [] = none
title_of_line (c ∷ s) = some (take max_subagent_task_title_characters (c ∷ s))

-- `taskTitleOf`.
unfoldable pub task_title_of : Option Text → Option Text
unfolding title_of_line
task_title_of none = none
task_title_of (some value) = title_of_line (collapse (trim value))

-- `closesSpawnBatch`.
unfoldable pub closes_spawn_batch : Event → Bool
closes_spawn_batch (tool_call e) = not (is_some e.parent_tool_id) && not (spawn e.name)
closes_spawn_batch (assistant_text text parent) =
    not (is_some parent) && elim (trim text) [ [] ↦ false | _ ∷ _ ↦ true ]
closes_spawn_batch (tool_result tool_id is_error parent) = not (is_some parent)
closes_spawn_batch user_message = true
closes_spawn_batch result = true
closes_spawn_batch _ = false

abbrev of_tool : Text → Option Identity
of_tool tool_id = some (record { tool_id = some tool_id; task_id = none; agent_thread_id = none })

abbrev of_thread : Text → Option Identity
of_thread thread = some (record { tool_id = none; task_id = none; agent_thread_id = some thread })

-- `subagentEventIdentity`.
unfoldable pub event_identity : Event → Option Identity
event_identity (tool_call e) =
    if not (is_some e.parent_tool_id) && spawn e.name then of_tool e.tool_id else none
event_identity (tool_result tool_id is_error parent) =
    if is_some parent then none else of_tool tool_id
event_identity (subagent e) =
    some (record { tool_id = e.tool_id; task_id = e.task_id; agent_thread_id = none })
event_identity (subagent_activity thread path activity) = of_thread thread
event_identity (subagent_turn_done thread duration is_error) = of_thread thread
event_identity _ = none
