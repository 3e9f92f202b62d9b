-- ===== src/Lifecycle/Aliases.antt =====
-- src/domain/subagent-lifecycle.ts: the entries as a `Map` in order of insertion, the merge of two
-- entries for one agent, and the lookup by any of an agent's identities.
use codevo_runner.Prelude.{
  Bool, true, false, ◌||◌, Option, none, some, List, [], ◌∷◌, if◌then◌else◌, keep, Text, text_eq,
}
use codevo_runner.Lifecycle.{
  State, Identity, Entry, or_else, same_option, defined_and_same, running, completed, failed,
  interrupted,
}

-- `entries.set(entry.id, entry)`.
unfoldable pub put : Entry → List Entry → List Entry
put e [] = e ∷ []
put e (x ∷ xs) = elim (text_eq x.id e.id) [ true ↦ e ∷ xs | false ↦ x ∷ put e xs ]

-- `entries.delete(id)`.
unfoldable pub delete : Text → List Entry → List Entry
delete i [] = []
delete i (x ∷ xs) = elim (text_eq x.id i) [ true ↦ xs | false ↦ x ∷ delete i xs ]

-- `new Map(entries.map(entry => [entry.id, entry]))`.
unfoldable pub map_of : List Entry → List Entry → List Entry
map_of acc [] = acc
map_of acc (e ∷ es) = map_of (put e acc) es

-- `terminal` of `mergeAliases`.
abbrev pub is_state : State → Option State → Bool
is_state s none = false
is_state failed (some failed) = true
is_state interrupted (some interrupted) = true
is_state completed (some completed) = true
is_state running (some running) = true
is_state _ (some _) = false

unfoldable pub terminal : Option State → Option State → Option State
terminal a b =
    if is_state failed a || is_state failed b
    then some failed
    else if is_state interrupted a || is_state interrupted b
    then some interrupted
    else if is_state completed a || is_state completed b
    then some completed
    else or_else a b

unfoldable pub merged_result : Option State → Option State → Option State
merged_result a b = if is_state failed a || is_state failed b then some failed else or_else a b

abbrev pub or_text : Text → Text → Text
or_text [] b = b
or_text (c ∷ s) b = c ∷ s

-- `mergeAliases`.
unfoldable pub merge_aliases : Entry → Entry → Entry
unfolding terminal merged_result
merge_aliases first second = record {
  id = first.id;
  tool_id = or_else first.tool_id second.tool_id;
  task_id = or_else first.task_id second.task_id;
  agent_thread_id = or_else first.agent_thread_id second.agent_thread_id;
  name = first.name;
  description = or_text first.description second.description;
  state = first.state;
  telemetry_state = terminal first.telemetry_state second.telemetry_state;
  result_state = merged_result first.result_state second.result_state;
  duration_ms = or_else first.duration_ms second.duration_ms;
  total_tokens = or_else first.total_tokens second.total_tokens;
  steps = or_else first.steps second.steps;
  last_tool_name = or_else first.last_tool_name second.last_tool_name;
  task_title = or_else first.task_title second.task_title;
  batch_key = or_else first.batch_key second.batch_key;
  nested_count = or_else first.nested_count second.nested_count;
  parent_tool_id =
      if same_option first.parent_tool_id second.parent_tool_id then first.parent_tool_id else none;
}

-- Whether the entry has one of the identities.
unfoldable pub is_alias : Identity → Entry → Bool
is_alias i e =
    defined_and_same i.tool_id e.tool_id
    || defined_and_same i.task_id e.task_id
    || defined_and_same i.agent_thread_id e.agent_thread_id

-- The loop over the further aliases.
unfoldable pub absorb : Entry → List Entry → List Entry → Entry × List Entry
absorb found [] entries = (found, entries)
absorb found (alias ∷ aliases) entries =
    absorb (merge_aliases found alias) aliases (delete alias.id entries)

unfoldable pub resolve : List Entry → List Entry → Option Entry × List Entry
resolve [] entries = (none, entries)
resolve (first ∷ aliases) entries =
    let (found, rest) = absorb first aliases entries in (some found, put found rest)

-- `resolveAlias`: the entry that it finds, and the entries that it leaves.
unfoldable pub resolve_alias : Identity → List Entry → Option Entry × List Entry
unfolding resolve
resolve_alias i entries = resolve (keep (is_alias i) entries) entries
