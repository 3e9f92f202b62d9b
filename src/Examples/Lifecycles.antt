-- ===== src/Examples/Lifecycles.antt =====
-- src/domain/subagent-lifecycle.ts at concrete inputs.
use codevo_runner.Lifecycle.Aliases.{merge_aliases, is_alias, absorb, resolve_alias}
use codevo_runner.Prelude.{
  ◌≤◌, ◌≡◌, refl, ◌≢◌, ◌⊎◌, true, false, none, some, [], ◌∷◌, arith, leb, if◌then◌else◌, length,
  keep, Any, codes, text_eq,
}
use codevo_runner.Prelude.Utf8.{encode, strip_bom, fitting}
use codevo_runner.Json.{bool, arr, obj, nil, end, field}
use codevo_runner.Lifecycle.Parse.{read}
use codevo_runner.Lifecycle.Parse.Parsed.{read-Fits}
use codevo_runner.Lifecycle.{
  Subagent, Event, Identity, Entry, clip, running, completed, failed, in_state, tool_call,
  tool_result, subagent,
}
use codevo_runner.Lifecycle.Clip.{clip_lem}
use codevo_runner.Lifecycle.Events.{displayed, apply_event}
use codevo_runner.Lifecycle.Events.Sticky.{
  HasFailed, first_result_kept, failed_sticks, ended_stays_ended,
}
use codevo_runner.Lifecycle.Retain.{retain}
use codevo_runner.Lifecycle.Retain.Bounds.{Fits, retain-Fits}

abbrev spawned : Event
spawned = tool_call (record {
  tool_id = codes "toolu_1";
  name = codes "Task";
  description = some (codes "look around");
  input_summary = [];
  parent_tool_id = none;
})

retain-Fits_example : Fits (retain none (spawned ∷ tool_result (codes "toolu_1") true none ∷ []))
retain-Fits_example = retain-Fits none (spawned ∷ tool_result (codes "toolu_1") true none ∷ []) tt

clip_lem_example :
    (clip (codes "abc") 2 ≡ (
      if leb (length (encode (codes "abc"))) 2
      then codes "abc"
      else strip_bom (fitting 2 (codes "abc"))))
    × (length (encode (clip (codes "abc") 2)) ≤ 2)
clip_lem_example = clip_lem (codes "abc") 2 (ground arith)

abbrev of_tool_1 : Identity
of_tool_1 = record { tool_id = some (codes "toolu_1"); task_id = none; agent_thread_id = none }

abbrev failed_entry : Entry
failed_entry = record {
  id = codes "tool:toolu_1";
  tool_id = some (codes "toolu_1");
  task_id = none;
  agent_thread_id = none;
  name = codes "Explore";
  description = [];
  state = failed;
  telemetry_state = some completed;
  result_state = some failed;
  duration_ms = none;
  total_tokens = none;
  steps = none;
  last_tool_name = none;
  task_title = some (codes "look around");
  batch_key = none;
  nested_count = none;
  parent_tool_id = none;
}

abbrev late_running : Subagent
late_running = record {
  tool_id = some (codes "toolu_1");
  task_id = none;
  status = in_state running;
  subagent_type = none;
  description = none;
  duration_ms = some 5;
  total_tokens = none;
  tool_uses = none;
  last_tool_name = none;
}

-- Two entries of one agent, the first with a result that is no failure.
abbrev by_task : Entry
by_task = record failed_entry { id = codes "task:1"; result_state = some completed }

abbrev merged_entry : Entry
merged_entry = merge_aliases by_task failed_entry

both_aliases : keep (is_alias of_tool_1) (by_task ∷ failed_entry ∷ []) ≡ by_task ∷ failed_entry ∷ []
unfolding is_alias text_eq
both_aliases = refl

resolved : (resolve_alias of_tool_1 (by_task ∷ failed_entry ∷ [])).0 ≡ some merged_entry
unfolding resolve_alias is_alias text_eq absorb
resolved = refl

first_result_kept_example :
    let e' =
      (apply_event (tool_result (codes "toolu_1") false none) of_tool_1 none merged_entry).0 in
    ((e'.result_state ≡ some completed) ⊎ (HasFailed e' × Any HasFailed (failed_entry ∷ [])))
    × ((e'.result_state ≢ some failed) ⊎ (e'.state ≡ failed))
first_result_kept_example =
    first_result_kept (tool_result (codes "toolu_1") false none) of_tool_1 none by_task merged_entry
      (failed_entry ∷ []) (by_task ∷ failed_entry ∷ []) completed both_aliases resolved refl

is_shown_failed : displayed (some completed) (some failed) ≡ failed
unfolding displayed
is_shown_failed = refl

failed_sticks_example :
    (apply_event (subagent late_running) of_tool_1 none failed_entry).0.state ≡ failed
failed_sticks_example =
    failed_sticks (subagent late_running) of_tool_1 none failed_entry is_shown_failed refl

ended_stays_ended_example :
    (apply_event (subagent late_running) of_tool_1 none failed_entry).0.state ≢ running
ended_stays_ended_example =
    ended_stays_ended late_running of_tool_1 none failed_entry completed refl (λ e. cc)

read-Fits_example : Fits (
    read
      (some (obj (field (codes "entries") (arr nil) (field (codes "truncated") (bool false) end)))))
read-Fits_example =
    read-Fits
      (some (obj (field (codes "entries") (arr nil) (field (codes "truncated") (bool false) end))))
