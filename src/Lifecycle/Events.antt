-- ===== src/Lifecycle/Events.antt =====
-- src/domain/subagent-lifecycle.ts: what one event writes into the entry that it is about, from the
-- loop of `retainAgentSubagentLifecycle`.
pub mod Sticky
use codevo_runner.Lifecycle.Aliases.{is_state, or_text}
use codevo_runner.Prelude.{
  ℕ, Bool, true, false, ◌||◌, Option, none, some, if◌then◌else◌, Text, codes,
}
use codevo_runner.Lifecycle.{
  starting, in_state, tool_call, tool_result, subagent, subagent_activity, subagent_turn_done,
  State, Status, Activity, ToolCall, Subagent, Event, Identity, Entry, or_else, or_value, is_some,
  clip, valid_id, spawn_batch_key, task_title_of, running, completed, failed, interrupted,
  activity_interacted, activity_interrupted, activity_completed,
}

-- `{ ...entry, ...(validId(toolId) ? { toolId } : {}), … }`.
abbrev valid_or : Option Text → Option Text → Option Text
valid_or none b = b
valid_or (some s) b = if valid_id s then some s else b

unfoldable pub with_identity : Identity → Entry → Entry
with_identity i e = record e {
  tool_id = valid_or i.tool_id e.tool_id;
  task_id = valid_or i.task_id e.task_id;
  agent_thread_id = valid_or i.agent_thread_id e.agent_thread_id;
}

-- A tool call writes the name, the description, a first title, and the open batch; the second part
-- is the batch that is open after it.
unfoldable pub on_tool_call : ToolCall → Option Text → Entry → Entry × Option Text
on_tool_call t batch e =
    let text : Text = or_value t.description t.input_summary in
    let batch' : Option Text =
      if is_some e.batch_key then batch else or_else batch (spawn_batch_key t.tool_id) in
    (
      record e {
        name = clip t.name 128;
        description = clip text 512;
        task_title = or_else e.task_title (task_title_of (some text));
        batch_key = or_else e.batch_key batch';
      },
      batch',
    )

unfoldable pub on_tool_result : Bool → Entry → Entry
on_tool_result is_error e = record e {
  result_state = or_else e.result_state (some (if is_error then failed else completed));
}

abbrev pub state_of : Status → State
state_of starting = running
state_of (in_state s) = s

-- Telemetry never leaves `failed`, and goes back to `running` from no other end.
unfoldable pub next_telemetry : Option State → State → State
next_telemetry (some failed) next = failed
next_telemetry (some completed) running = completed
next_telemetry (some interrupted) running = interrupted
next_telemetry _ next = next

abbrev clip_option : Option Text → ℕ → Option Text
clip_option none n = none
clip_option (some s) n = some (clip s n)

abbrev starting_title : Status → Option Text → Option Text → Option Text
starting_title starting title description = or_else title (task_title_of description)
starting_title (in_state s) title description = title

unfoldable pub on_subagent : Subagent → Entry → Entry
unfolding next_telemetry
on_subagent s e = record e {
  task_title = starting_title s.status e.task_title s.description;
  telemetry_state = some (next_telemetry e.telemetry_state (state_of s.status));
  name = or_value (clip_option s.subagent_type 128) e.name;
  description = or_value (clip_option s.description 512) e.description;
  duration_ms = or_else s.duration_ms e.duration_ms;
  total_tokens = or_else s.total_tokens e.total_tokens;
  steps = or_else s.tool_uses e.steps;
  last_tool_name = or_else (clip_option s.last_tool_name 128) e.last_tool_name;
}

abbrev pub activity_state : Activity → State
activity_state activity_completed = completed
activity_state activity_interrupted = interrupted
activity_state _ = running

abbrev takes_activity : Activity → Option State → Bool
takes_activity activity_interacted t = true
takes_activity _ none = true
takes_activity _ (some running) = true
takes_activity _ (some _) = false

unfoldable pub on_activity : Text → Activity → Entry → Entry
on_activity path activity e = record e {
  telemetry_state =
      if takes_activity activity e.telemetry_state
      then some (activity_state activity)
      else e.telemetry_state;
  name = clip (or_text path (codes "subagent")) 128;
}

unfoldable pub on_turn_done : Option ℕ → Bool → Entry → Entry
on_turn_done duration is_error e = record e {
  telemetry_state = some (if is_error then failed else completed);
  duration_ms = or_else duration e.duration_ms;
}

-- The displayed state: a failure of either kind, else the telemetry, else the result.
unfoldable pub displayed : Option State → Option State → State
displayed telemetry outcome =
    if is_state failed outcome || is_state failed telemetry
    then failed
    else or_value (or_else telemetry outcome) running

-- All that an event writes, the displayed state included.
write : Event → Option Text → Entry → Entry × Option Text
unfolding on_tool_call on_tool_result on_subagent on_activity on_turn_done
write (tool_call t) batch e = on_tool_call t batch e
write (tool_result tool_id is_error parent) batch e = (on_tool_result is_error e, batch)
write (subagent s) batch e = (on_subagent s e, batch)
write (subagent_activity thread path activity) batch e = (on_activity path activity e, batch)
write (subagent_turn_done thread duration is_error) batch e =
    (on_turn_done duration is_error e, batch)
write _ batch e = (e, batch)

unfoldable pub apply_event : Event → Identity → Option Text → Entry → Entry × Option Text
unfolding with_identity write displayed
apply_event event i batch e =
    let (e', batch') = write event batch (with_identity i e) in
    (record e' { state = displayed e'.telemetry_state e'.result_state }, batch')
