-- ===== src/Tasks/Continue.antt =====
-- src/domain/task-resume.ts and steering.ts: `parseContinueTask` and `parseSteerInput`.
use codevo_runner.Prelude.{
  ℕ, ◌+◌, Bool, true, false, ◌&&◌, Option, none, some, ◌==◌, length, Text, codes,
}
use codevo_runner.Json.{Value, Fields, keys, lookup, has_own, str, obj, end, field}
use codevo_runner.Contracts.{Result, guard, ◌>>=◌, invalid_input, ok, err}
use codevo_runner.Launch.{LaunchOptions, parse_launch_options, claude_code}
use codevo_runner.Delivery.{ContinueTask}
use codevo_runner.Tasks.Input.{parse_task_input}

abbrev count_of : Bool → ℕ
count_of true = 1
count_of false = 0

-- `{ ...input, provider }`; an accepted input has no provider of its own.
abbrev with_provider : Text → Fields → Fields
with_provider p end = field (codes "provider") (str p) end
with_provider p (field k v fs) = field k v (with_provider p fs)

abbrev any_launch : Option Value → Result (Option LaunchOptions)
any_launch none = ok none
any_launch (some v) = do l ← parse_launch_options v none; ok (some l)

-- `launch?.provider === 'claudeCode' ? 'claude' : 'codex'`.
abbrev provider_name : Option LaunchOptions → Text
provider_name (some (claude_code o)) = codes "claude"
provider_name _ = codes "codex"

module _ (normalize lower : Text → Text) where
  -- `parseContinueTask`.
  unfoldable pub parse_continue_task : Value → Result ContinueTask
  unfolding parse_task_input
  parse_continue_task (obj fs) = do
    _ ←
        guard
          (length (keys fs)
              == 2
                + count_of (has_own (codes "launch") fs)
                + count_of (has_own (codes "instructions") fs)
            && has_own (codes "idempotencyKey") fs
            && has_own (codes "parts") fs)
          invalid_input
    launch ← any_launch (lookup (codes "launch") fs)
    parsed ← parse_task_input normalize lower (obj (with_provider (provider_name launch) fs))
    ok (record {
      instructions = parsed.instructions;
      idempotency_key = parsed.idempotency_key;
      launch = launch;
      parts = parsed.parts;
    })
  parse_continue_task _ = err invalid_input

  -- `parseSteerInput`.
  unfoldable pub parse_steer_input : Value → Result ContinueTask
  unfolding parse_continue_task
  parse_steer_input (obj fs) = do
    _ ← guard (length (keys fs) == 2) invalid_input
    input ← parse_continue_task (obj fs)
    ok (record {
      instructions = none;
      idempotency_key = input.idempotency_key;
      launch = none;
      parts = input.parts;
    })
  parse_steer_input _ = err invalid_input
