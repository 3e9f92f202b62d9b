-- ===== src/Lifecycle/Retain.antt =====
-- src/domain/subagent-lifecycle.ts: `retainAgentSubagentLifecycle`, its nested spawns, and
-- `legacyAgentSubagentLifecycle`.
mod Sizes
pub mod Bounds
use codevo_runner.Prelude.{
  ℕ, zero, suc, ◌+◌, ◌-◌, min, Bool, true, false, not, ◌&&◌, ◌||◌, Option, none, some, List, [],
  ◌∷◌, ◌++◌, map, leb, ◌==◌, if◌then◌else◌, length, drop, any, find, keep, Text, codes, text_eq,
}
use codevo_runner.Lifecycle.{
  tool_call, tool_result, subagent, subagent_activity, subagent_turn_done, max_retained_subagents,
  max_subagent_nested_count, max_subagent_counted_nested_ids, max_nested_ancestor_depth, ToolCall,
  Event, Identity, Entry, Lifecycle, or_else, or_value, is_some, defined_and_same, clip, valid_id,
  valid_option, spawn, codex_spawn, task_title_of, closes_spawn_batch, event_identity, running,
}
use codevo_runner.Lifecycle.Aliases.{put, map_of, or_text, resolve_alias}
use codevo_runner.Lifecycle.Events.{apply_event}

-- The variables of the loop over the events.
pub record Loop : Type 0 where
  pub entries : List Entry
  pub counted : List Text
  pub truncated : Bool
  pub open_batch_key : Option Text
  pub changed : Bool

-- `nestedRoot`: the ancestor without a parent, at most so many steps up.
nested_root_from : ℕ → List Entry → Option Text → Option Entry
nested_root_from zero entries tool_id = none
nested_root_from (suc depth) entries none = none
nested_root_from (suc depth) entries (some tool_id) =
    elim (find (λ e. defined_and_same (some tool_id) e.tool_id) entries) [
      | none ↦ none
      | some parent ↦ elim parent.parent_tool_id [
        | none ↦ some parent
        | some up ↦ nested_root_from depth entries (some up)
      ]
    ]

unfoldable pub nested_root : List Entry → Text → Option Entry
unfolding nested_root_from
nested_root entries parent_tool_id =
    nested_root_from max_nested_ancestor_depth entries (some parent_tool_id)

-- `rememberCountedNested`: the newest identifiers, oldest first.
unfoldable pub remember_counted : Text → List Text → List Text
remember_counted tool_id counted =
    let grown : List Text =
      if any (λ c. text_eq c tool_id) counted then counted else counted ++ tool_id ∷ [] in
    drop (length grown - max_subagent_counted_nested_ids) grown

-- What a nested spawn leaves; the flag says `truncated`.
pub record Nested : Type 0 where
  pub entries : List Entry
  pub counted : List Text
  pub is_truncated : Bool

abbrev add_nested : Entry → Entry
add_nested root = record root {
  nested_count = some (min max_subagent_nested_count (or_value root.nested_count 0 + 1));
}

nested_entry : ToolCall → Text → Entry
nested_entry t parent =
    let text : Text = or_value t.description t.input_summary in
    record {
      id = codes "tool:" ++ t.tool_id;
      tool_id = some t.tool_id;
      task_id = none;
      agent_thread_id = none;
      name = clip t.name 128;
      description = clip text 512;
      state = running;
      telemetry_state = none;
      result_state = none;
      duration_ms = none;
      total_tokens = none;
      steps = none;
      last_tool_name = none;
      task_title = task_title_of (some text);
      batch_key = none;
      nested_count = none;
      parent_tool_id = some parent;
    }

-- The rest of `retainNestedSpawn` once the root is counted.
retain_counted : ToolCall → Text → Option Entry → List Entry → List Text → Nested
unfolding nested_entry
retain_counted t parent (some existing) entries counted =
    let text : Text = or_value t.description t.input_summary in
    record {
      entries =
          put
            (record existing {
              parent_tool_id = some parent;
              description = or_text existing.description (clip text 512);
              task_title = or_else existing.task_title (task_title_of (some text));
            })
            entries;
      counted = counted;
      is_truncated = false;
    }
retain_counted t parent none entries counted =
    if leb max_retained_subagents (length entries)
    then record {
      entries = entries;
      counted = remember_counted t.tool_id counted;
      is_truncated = true;
    }
    else record {
      entries = put (nested_entry t parent) entries;
      counted = counted;
      is_truncated = false;
    }

abbrev has_parent : Option Entry → Bool
has_parent none = false
has_parent (some e) = is_some e.parent_tool_id

abbrev is_entry : Option Entry → Entry → Bool
is_entry none root = false
is_entry (some e) root = text_eq e.id root.id

retain_under : ToolCall → Text → Option Entry → Option Entry → List Entry → List Text → Nested
unfolding retain_counted
retain_under t parent existing none entries counted = record {
  entries = entries;
  counted = counted;
  is_truncated = true;
}
retain_under t parent existing (some root) entries counted =
    if is_entry existing root
    then record { entries = entries; counted = counted; is_truncated = false }
    else retain_counted t parent existing (put (add_nested root) entries) counted

-- `retainNestedSpawn`.
unfoldable pub retain_nested : ToolCall → Text → List Entry → List Text → Nested
unfolding retain_under nested_root
retain_nested t parent entries counted =
    if not (valid_id t.tool_id) || not (valid_id parent)
    then record { entries = entries; counted = counted; is_truncated = true }
    else (let i : Identity = record {
      tool_id = some t.tool_id;
      task_id = none;
      agent_thread_id = none;
    } in
        let (existing, found) = resolve_alias i entries in
        if has_parent existing || any (λ c. text_eq c t.tool_id) counted
        then record { entries = found; counted = counted; is_truncated = false }
        else retain_under t parent existing (nested_root found parent) found counted)

-- The start of the loop's body: an event may close the open batch.
close_batch : Event → Loop → Loop
close_batch event s =
    if is_some s.open_batch_key && closes_spawn_batch event
    then record s { open_batch_key = none; changed = true }
    else s

-- Telemetry of child threads drops the entries of spawn acknowledgements.
drop_acknowledged : Event → List Entry → List Entry
drop_acknowledged (subagent_activity thread path activity) entries =
    keep (λ e. not (codex_spawn e.name)) entries
drop_acknowledged (subagent_turn_done thread duration is_error) entries =
    keep (λ e. not (codex_spawn e.name)) entries
drop_acknowledged _ entries = entries

-- A Codex spawn call is passed over once child threads are known.
abbrev is_redundant : Event → List Entry → Bool
is_redundant (tool_call t) entries =
    codex_spawn t.name && any (λ e. is_some e.agent_thread_id) entries
is_redundant _ entries = false

-- The key of a new entry.
unfoldable pub new_key : Identity → Option Text
new_key i =
    if valid_option i.tool_id
    then some (codes "tool:" ++ or_value i.tool_id [])
    else if valid_option i.task_id
    then some (codes "task:" ++ or_value i.task_id [])
    else if valid_option i.agent_thread_id
    then some (codes "thread:" ++ or_value i.agent_thread_id [])
    else none

unfoldable pub blank_entry : Text → Entry
blank_entry key = record {
  id = key;
  tool_id = none;
  task_id = none;
  agent_thread_id = none;
  name = codes "subagent";
  description = [];
  state = running;
  telemetry_state = none;
  result_state = none;
  duration_ms = none;
  total_tokens = none;
  steps = none;
  last_tool_name = none;
  task_title = none;
  batch_key = none;
  nested_count = none;
  parent_tool_id = none;
}

-- The event is written into the entry.
store : Event → Identity → Entry → Loop → Loop
store event i e s =
    let (e', batch) = apply_event event i s.open_batch_key e in
    record s { entries = put e' s.entries; open_batch_key = batch; changed = true }

abbrev skip_truncated : Loop → Loop
skip_truncated s = record s { truncated = true; changed = true }

store_new : Event → Identity → Option Text → Loop → Loop
unfolding store blank_entry
store_new event i none s = skip_truncated s
store_new event i (some key) s =
    if leb max_retained_subagents (length s.entries)
    then skip_truncated s
    else store event i (blank_entry key) s

abbrev is_tool_result : Event → Bool
is_tool_result (tool_result _ _ _) = true
is_tool_result _ = false

store_found : Event → Identity → Option Entry → Loop → Loop
unfolding store_new store
store_found event i (some e) s = store event i e s
store_found event i none s = if is_tool_result event then s else store_new event i (new_key i) s

identified : Event → Option Identity → Loop → Loop
unfolding store_found
identified event none s = s
identified event (some i) s =
    let (found, entries) = resolve_alias i s.entries in
    store_found event i found (record s { entries = entries })

-- The rest of the body, for an event that is no nested spawn.
retain_top : Event → Loop → Loop
unfolding identified drop_acknowledged
retain_top event s =
    let s' = record s { entries = drop_acknowledged event s.entries } in
    if is_redundant event s'.entries then s' else identified event (event_identity event) s'

retain_spawn : ToolCall → Option Text → Loop → Loop
unfolding retain_top
retain_spawn t none s = retain_top (tool_call t) s
retain_spawn t (some parent) s =
    if spawn t.name
    then (let n = retain_nested t parent s.entries s.counted in
        record s {
          entries = n.entries;
          counted = n.counted;
          truncated = s.truncated || n.is_truncated;
          changed = true;
        })
    else retain_top (tool_call t) s

retain_event : Event → Loop → Loop
unfolding retain_spawn retain_top
retain_event (tool_call t) s = retain_spawn t t.parent_tool_id s
retain_event event s = retain_top event s

unfoldable pub step : Event → Loop → Loop
unfolding close_batch retain_event
step event s = retain_event event (close_batch event s)

unfoldable pub steps_of : List Event → Loop → Loop
steps_of [] s = s
steps_of (event ∷ events) s = steps_of events (step event s)

-- `new Set(ids)`, in order of insertion.
unfoldable pub set_of : List Text → List Text → List Text
set_of acc [] = acc
set_of acc (s ∷ ss) = set_of (if any (λ c. text_eq c s) acc then acc else acc ++ s ∷ []) ss

unfoldable pub start : Option Lifecycle → Loop
unfolding set_of
start none = record {
  entries = [];
  counted = [];
  truncated = false;
  open_batch_key = none;
  changed = false;
}
start (some l) = record {
  entries = map_of [] l.entries;
  counted = set_of [] l.counted_nested_tool_ids;
  truncated = l.truncated;
  open_batch_key = l.open_batch_key;
  changed = false;
}

lifecycle_of : Loop → Lifecycle
lifecycle_of s = record {
  entries = s.entries;
  truncated = s.truncated;
  open_batch_key = s.open_batch_key;
  counted_nested_tool_ids = s.counted;
}

-- `retainAgentSubagentLifecycle`.
unfoldable pub retain : Option Lifecycle → List Event → Option Lifecycle
unfolding start lifecycle_of steps_of
retain previous events =
    let s = steps_of events (start previous) in
    if s.changed then some (lifecycle_of s) else previous

-- `legacyAgentSubagentLifecycle`.
unfoldable pub legacy : Lifecycle → Lifecycle
legacy l =
    let kept : List Entry = keep (λ e. not (is_some e.parent_tool_id)) l.entries in
    record {
      entries =
          map {A = Entry}
            (λ (e : Entry). record e {
              task_title = none;
              batch_key = none;
              nested_count = none;
              parent_tool_id = none;
            })
            kept;
      truncated = l.truncated || not (length kept == length l.entries);
      open_batch_key = none;
      counted_nested_tool_ids = [];
    }
