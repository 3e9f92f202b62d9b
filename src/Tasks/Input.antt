-- ===== src/Tasks/Input.antt =====
-- src/domain/task-input.ts: `parseTaskInput`.
pub mod Bounds
use codevo_runner.Prelude.{
  ℕ, ◌+◌, Bool, true, false, not, ◌||◌, Option, none, some, List, [], ◌∷◌, ◌++◌, ltb, leb,
  if◌then◌else◌, length, any, Text, codes, text_eq,
}
use codevo_runner.Prelude.Utf8.{encode, string_length}
use codevo_runner.Prelude.Spaces.{trim, is_blank}
use codevo_runner.Json.{Value, Fields, items, lookup, has_own, is_text, str, arr, obj}
use codevo_runner.Contracts.{Result, guard, ◌>>=◌, ◌>>◌, is_id, invalid_input, too_large, ok, err}
use codevo_runner.Launch.{
  Provider, LaunchOptions, parse_launch_options, provider_claude, provider_codex, codex,
}
use codevo_runner.Delivery.{Part, Snapshot, text_part, attachment_part}
use codevo_runner.Tasks.Instructions.{exact, string_of, parse_snapshot}

-- `LIMITS`.
abbrev pub text_bytes : ℕ
text_bytes = 48000

abbrev pub max_parts : ℕ
max_parts = 16

abbrev pub attachments_per_task : ℕ
attachments_per_task = 8

pub record CreateTask : Type 0 where
  pub worktree : Option Bool
  pub instructions : Option Snapshot
  pub idempotency_key : Text
  pub provider : Provider
  pub parts : List Part
  pub launch : Option LaunchOptions

-- `textBytes` and `attachments`.
pub record Read : Type 0 where
  pub bytes : ℕ
  pub attachments : List Text

abbrev pub part_type : Value → Option Value
part_type (obj fs) = lookup (codes "type") fs
part_type _ = none

-- A part of type `text`.
unfoldable pub parse_text : Value → Read → Result (Part × Read)
unfolding exact trim
parse_text v read = do
  fs ← exact v (codes "type" ∷ codes "text" ∷ [])
  s ← string_of (lookup (codes "text") fs)
  _ ← guard (not (ltb text_bytes (string_length s))) too_large
  _ ← guard (not (is_blank s)) invalid_input
  _ ← guard (leb (read.bytes + length (encode s)) text_bytes) too_large
  ok (text_part s, record read { bytes = read.bytes + length (encode s) })

abbrev pub id_of : Option Value → Result Text
id_of (some (str s)) = if is_id s then ok s else err invalid_input
id_of _ = err invalid_input

-- A part of type `attachment`.
unfoldable pub parse_attachment : Value → Read → Result (Part × Read)
unfolding exact
parse_attachment v read = do
  fs ← exact v (codes "type" ∷ codes "attachmentId" ∷ [])
  id ← id_of (lookup (codes "attachmentId") fs)
  _ ← guard (not (any (λ a. text_eq a id) read.attachments)) invalid_input
  _ ← guard (leb (length (id ∷ read.attachments)) attachments_per_task) too_large
  ok (attachment_part id, record read { attachments = id ∷ read.attachments })

unfoldable pub parse_part : Value → Read → Result (Part × Read)
unfolding parse_text parse_attachment
parse_part v read =
    if is_text (part_type v) (codes "text")
    then parse_text v read
    else if is_text (part_type v) (codes "attachment")
    then parse_attachment v read
    else err invalid_input

unfoldable pub parse_parts : List Value → Read → Result (List Part × Read)
unfolding parse_part
parse_parts [] read = ok ([], read)
parse_parts (v ∷ vs) read = do
  (p, read1) ← parse_part v read
  (ps, read2) ← parse_parts vs read1
  ok (p ∷ ps, read2)

abbrev pub part_values : Option Value → Result (List Value)
part_values (some (arr vs)) =
    if ltb (length (items vs)) 1 || ltb max_parts (length (items vs))
    then err invalid_input
    else ok (items vs)
part_values _ = err invalid_input

abbrev pub provider_from : Option Value → Result Provider
provider_from (some (str s)) =
    if text_eq s (codes "codex")
    then ok provider_codex
    else if text_eq s (codes "claude")
    then ok provider_claude
    else err invalid_input
provider_from _ = err invalid_input

abbrev pub isolation_of : Option Value → Result (Option Bool)
isolation_of none = ok none
isolation_of (some (str s)) =
    if text_eq s (codes "in-place")
    then ok (some false)
    else if text_eq s (codes "worktree")
    then ok (some true)
    else err invalid_input
isolation_of (some _) = err invalid_input

abbrev pub optional_key : Text → Fields → List Text
optional_key k fs = if has_own k fs then k ∷ [] else []

abbrev pub task_keys : Fields → List Text
task_keys fs =
    codes "idempotencyKey"
    ∷ codes "provider"
    ∷ codes "parts"
    ∷ (optional_key (codes "isolation") fs
        ++ optional_key (codes "launch") fs
        ++ optional_key (codes "instructions") fs)

abbrev pub object_of : Value → Result Fields
object_of (obj fs) = ok fs
object_of _ = err invalid_input

module _ (normalize lower : Text → Text) where
  abbrev pub instructions_of : Option Value → Result (Option Snapshot)
  instructions_of none = ok none
  instructions_of (some v) = do s ← parse_snapshot normalize lower v; ok (some s)

  abbrev pub launch_from : Option Value → Provider → Result (Option LaunchOptions)
  launch_from none p = ok none
  launch_from (some v) p = do l ← parse_launch_options v (some p); ok (some l)

  -- `parseTaskInput`.
  unfoldable pub parse_task_input : Value → Result CreateTask
  unfolding parse_parts exact
  parse_task_input v = do
    given ← object_of v
    fs ← exact v (task_keys given)
    isolation ← isolation_of (lookup (codes "isolation") fs)
    key ← id_of (lookup (codes "idempotencyKey") fs)
    provider ← provider_from (lookup (codes "provider") fs)
    vs ← part_values (lookup (codes "parts") fs)
    (parts, read) ← parse_parts vs (record { bytes = 0; attachments = [] })
    instructions ← instructions_of (lookup (codes "instructions") fs)
    launch ← launch_from (lookup (codes "launch") fs) provider
    ok (record {
      worktree = isolation;
      instructions = instructions;
      idempotency_key = key;
      provider = provider;
      parts = parts;
      launch = launch;
    })
