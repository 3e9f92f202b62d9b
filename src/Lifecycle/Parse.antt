-- ===== src/Lifecycle/Parse.antt =====
-- src/domain/subagent-lifecycle.ts: `parseAgentSubagentLifecycle`, the reader of stored lifecycles.
-- `none` is the thrown `TypeError`.
pub mod Parsed
use codevo_runner.Prelude.{
  ℕ, Bool, true, false, not, ◌&&◌, ◌||◌, Option, none, some, List, [], ◌∷◌, ◌++◌, ltb, leb,
  if◌then◌else◌, length, any, all, Text, codes, text_eq,
}
use codevo_runner.Prelude.Utf8.{encode}
use codevo_runner.Json.{Value, Fields, items, keys, lookup, includes, bool, num, str, arr, obj}
use codevo_runner.Lifecycle.{
  max_retained_subagents, max_subagent_nested_count, max_subagent_counted_nested_ids, State,
  Identity, Entry, Lifecycle, is_some, running, completed, failed, interrupted,
}

infixl 5 ◌>>=◌ ◌>>◌
abbrev pub ◌>>=◌ : {A B : Type 0} → Option A → (A → Option B) → Option B
none >>= f = none
some a >>= f = f a

abbrev pub ◌>>◌ : {B : Type 0} → Option (Unit {0}) → Option B → Option B
m >> k = m >>= λ _. k

abbrev pub check : Bool → Option (Unit {0})
check true = some tt
check false = none

-- `object`.
unfoldable pub object : Value → Option Fields
object (obj fs) = some fs
object _ = none

-- `text`.
unfoldable pub text : ℕ → Option Value → Option Text
text max (some (str s)) = if ltb max (length (encode s)) then none else some s
text max _ = none

-- `presentText`.
unfoldable pub present_text : ℕ → Option Value → Option Text
unfolding text
present_text max v = do s ← text max v; check (not (text_eq s [])); some s

abbrev state_named : Text → Option State
state_named s =
    if text_eq s (codes "running")
    then some running
    else if text_eq s (codes "completed")
    then some completed
    else if text_eq s (codes "failed")
    then some failed
    else if text_eq s (codes "interrupted")
    then some interrupted
    else none

-- `state`.
unfoldable pub state : Option Value → Option State
state (some (str s)) = state_named s
state _ = none

abbrev max_safe_integer : ℕ
max_safe_integer = 9007199254740991

-- A safe integer of at least `least` and at most `most`.
unfoldable pub integer : ℕ → ℕ → Option Value → Option ℕ
integer least most (some (num n)) = if leb least n && leb n most then some n else none
integer least most _ = none

-- What is `undefined`, or else is read.
abbrev pub optional : {A : Type 0} → (Option Value → Option A) → Option Value → Option (Option A)
optional read none = some none
optional read (some v) = do a ← read (some v); some (some a)

abbrev contains : Text → List Text → Bool
contains s ss = any (λ t. text_eq t s) ss

-- `new Set(ids).size === ids.length`.
abbrev distinct : List Text → Bool
distinct [] = true
distinct (s ∷ ss) = let rest = distinct ss in not (contains s ss) && rest

unfoldable pub present_texts : ℕ → List Value → Option (List Text)
present_texts max [] = some []
present_texts max (v ∷ vs) = do
  s ← present_text max (some v)
  ss ← present_texts max vs
  some (s ∷ ss)

-- `countedIds`.
unfoldable pub counted_ids : Option Value → Option (List Text)
counted_ids (some (arr xs)) = do
  check (ltb 0 (length (items xs)) && leb (length (items xs)) max_subagent_counted_nested_ids)
  ids ← present_texts 256 (items xs)
  check (distinct ids)
  some ids
counted_ids _ = none

abbrev entry_fields : List Text
entry_fields =
    codes "id"
    ∷ codes "toolId"
    ∷ codes "taskId"
    ∷ codes "agentThreadId"
    ∷ codes "name"
    ∷ codes "description"
    ∷ codes "state"
    ∷ codes "telemetryState"
    ∷ codes "resultState"
    ∷ codes "durationMs"
    ∷ codes "totalTokens"
    ∷ codes "steps"
    ∷ codes "lastToolName"
    ∷ codes "taskTitle"
    ∷ codes "batchKey"
    ∷ codes "nestedCount"
    ∷ codes "parentToolId"
    ∷ []

abbrev only_keys : List Text → Fields → Bool
only_keys allowed fs = all (λ k. includes allowed k) (keys fs)

abbrev identity_of : Option Text → Option Text → Option Text → Identity
identity_of tool task thread = record { tool_id = tool; task_id = task; agent_thread_id = thread }

-- One identity of an entry, and the aliases with it.
unfoldable pub read_alias : Text → Fields → List Text → Option (Option Text × List Text)
read_alias key fs aliases = do
  v ← optional (text 256) (lookup key fs)
  elim v [
    | none ↦ some (none, aliases)
    | some s ↦ do
      check (not (text_eq s []) && not (contains (key ++ codes ":" ++ s) aliases))
      some (some s, (key ++ codes ":" ++ s) ∷ aliases)
  ]

abbrev is_final : Option State → Bool
is_final (some running) = false
is_final (some interrupted) = false
is_final _ = true

-- The state that an entry must have.
unfoldable pub expected_state : Option State → Option State → State
expected_state telemetry (some failed) = failed
expected_state (some t) outcome = t
expected_state none (some r) = r
expected_state none none = running

abbrev same_state : State → State → Bool
same_state running running = true
same_state completed completed = true
same_state failed failed = true
same_state interrupted interrupted = true
same_state _ _ = false

-- The entry of `raw`, after the keys in `seen` and the aliases so far; the aliases with its own.
unfoldable pub parse_entry : List Text → List Text → Value → Option (Entry × List Text)
parse_entry seen aliases raw = do
  fs ← object raw
  check (only_keys entry_fields fs)
  id ← present_text 272 (lookup (codes "id") fs)
  check (not (contains id seen))
  tool ← read_alias (codes "toolId") fs aliases
  task ← read_alias (codes "taskId") fs tool.1
  thread ← read_alias (codes "agentThreadId") fs task.1
  check (is_some tool.0 || is_some task.0 || is_some thread.0)
  duration ← optional (integer 0 max_safe_integer) (lookup (codes "durationMs") fs)
  tokens ← optional (integer 0 max_safe_integer) (lookup (codes "totalTokens") fs)
  steps ← optional (integer 0 max_safe_integer) (lookup (codes "steps") fs)
  nested ← optional (integer 1 max_subagent_nested_count) (lookup (codes "nestedCount") fs)
  telemetry ← optional state (lookup (codes "telemetryState") fs)
  outcome ← optional state (lookup (codes "resultState") fs)
  check (is_final outcome)
  shown ← state (lookup (codes "state") fs)
  check (same_state shown (expected_state telemetry outcome))
  name ← text 128 (lookup (codes "name") fs)
  description ← text 512 (lookup (codes "description") fs)
  last_tool_name ← optional (text 128) (lookup (codes "lastToolName") fs)
  task_title ← optional (present_text 480) (lookup (codes "taskTitle") fs)
  batch_key ← optional (present_text 272) (lookup (codes "batchKey") fs)
  parent_tool_id ← optional (present_text 256) (lookup (codes "parentToolId") fs)
  some (
    record {
      id = id;
      tool_id = tool.0;
      task_id = task.0;
      agent_thread_id = thread.0;
      name = name;
      description = description;
      state = expected_state telemetry outcome;
      telemetry_state = telemetry;
      result_state = outcome;
      duration_ms = duration;
      total_tokens = tokens;
      steps = steps;
      last_tool_name = last_tool_name;
      task_title = task_title;
      batch_key = batch_key;
      nested_count = nested;
      parent_tool_id = parent_tool_id;
    },
    thread.1,
  )

unfoldable pub parse_entries : List Text → List Text → List Value → Option (List Entry)
parse_entries seen aliases [] = some []
parse_entries seen aliases (raw ∷ raws) = do
  found ← parse_entry seen aliases raw
  rest ← parse_entries (found.0.id ∷ seen) found.1 raws
  some (found.0 ∷ rest)

abbrev root_fields : List Text
root_fields =
    codes "entries" ∷ codes "truncated" ∷ codes "openBatchKey" ∷ codes "countedNestedToolIds" ∷ []

unfoldable pub bool_of : Option Value → Option Bool
bool_of (some (bool b)) = some b
bool_of _ = none

unfoldable pub entries_of : Option Value → Option (List Value)
entries_of (some (arr xs)) =
    if ltb max_retained_subagents (length (items xs)) then none else some (items xs)
entries_of _ = none

abbrev or_nil : Option (List Text) → List Text
or_nil none = []
or_nil (some ids) = ids

unfoldable pub parse_record : Value → Option Lifecycle
parse_record v = do
  fs ← object v
  check (only_keys root_fields fs)
  truncated ← bool_of (lookup (codes "truncated") fs)
  raws ← entries_of (lookup (codes "entries") fs)
  entries ← parse_entries [] [] raws
  open_batch_key ← optional (present_text 272) (lookup (codes "openBatchKey") fs)
  counted ← optional counted_ids (lookup (codes "countedNestedToolIds") fs)
  some (record {
    entries = entries;
    truncated = truncated;
    open_batch_key = open_batch_key;
    counted_nested_tool_ids = or_nil counted;
  })

-- `parseAgentSubagentLifecycle`.
unfoldable pub parse : Option Value → Option (Option Lifecycle)
parse v = optional (λ u. elim u [ none ↦ none | some w ↦ parse_record w ]) v

-- `readAgentSubagentLifecycle`.
unfoldable pub read : Option Value → Option Lifecycle
read v = elim (parse v) [ none ↦ none | some l ↦ l ]
