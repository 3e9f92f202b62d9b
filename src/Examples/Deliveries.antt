-- ===== src/Examples/Deliveries.antt =====
-- The message tables of src/infrastructure/sqlite at concrete inputs.
use codevo_runner.Delivery.Calls.{Op, empty, step, run, enqueue, remove, promote}
use codevo_runner.Delivery.Rows.{lookup}
use codevo_runner.Delivery.Claims.{Inv}
use codevo_runner.Delivery.Once.{delivery_run-Inv, dispatched_once}
use codevo_runner.Delivery.Again.{queued_in, enqueue_again, enqueue-Bounds}
use codevo_runner.Contracts.{not_found}
use codevo_runner.Prelude.{
  ◌≤◌, ◌≡◌, refl, true, false, none, some, List, [], ◌∷◌, length, find, keep, Text, text_eq,
}
use codevo_runner.Sqlite.{Outcome, refuse, after, done}
use codevo_runner.Launch.{provider_codex}
use codevo_runner.Delivery.{
  Task, ContinueTask, Message, Row, Db, Dependencies, per_conversation, retained, is_claimed,
  set_payload, succeeded, text_part, queued,
}
use codevo_runner.Delivery.Pending.{shown, same_key, root, enqueue_pending}
use codevo_runner.Delivery.Promotion.{promote_one, promote_all, promote_pending}
use codevo_runner.Delivery.Oldest.{sent, HandedOver, promote_oldest}

-- A conversation whose only turn has succeeded.
abbrev turn : Task
turn = record {
  id = b'A' ∷ [];
  provider = provider_codex;
  launch = none;
  status = succeeded;
  project_id = some (b'P' ∷ []);
  conversation_id = none;
  instructions = none;
}

abbrev next_turn : Task
next_turn = record turn { id = b'B' ∷ []; conversation_id = some (b'A' ∷ []) }

abbrev find_task : List Task → Text → Outcome Task
find_task ts id = elim (find (λ t. text_eq t.id id) ts) [
  | none ↦ refuse not_found
  | some t ↦ done t
]

abbrev tasks_only : Dependencies (List Task)
tasks_only = record {
  get_task = find_task;
  latest_id = λ ts root. none;
  require_capacity = λ ts. done tt;
  get_attachment = λ ts id. done tt;
  resume_available = λ ts id. done true;
  continue_task = λ ts id input approvals. done (next_turn, next_turn ∷ ts);
  input_event = λ ts id message_id parts. ts;
  stringify = λ f. f.root;
  stringify_steer = λ id parts. id;
  stringify_launch = λ l. [];
  stringify_instructions = λ i. [];
}

abbrev hello : ContinueTask
hello = record {
  instructions = none;
  idempotency_key = b'K' ∷ [];
  launch = none;
  parts = text_part (b'h' ∷ b'i' ∷ []) ∷ [];
}

abbrev message : Message
message = record {
  instructions = none;
  id = b'M' ∷ [];
  conversation_id = b'A' ∷ [];
  status = queued;
  parts = text_part (b'h' ∷ b'i' ∷ []) ∷ [];
  launch = none;
  created_at = b'T' ∷ [];
  task_id = none;
}

abbrev row : Row
row = record {
  sequence = 1;
  id = b'M' ∷ [];
  root_id = b'A' ∷ [];
  key = b'K' ∷ [];
  fingerprint = b'A' ∷ [];
  dispatch_key = b'D' ∷ [];
  payload = message;
  approvals = false;
}

abbrev one_queued : Db (List Task)
one_queued = record {
  world = turn ∷ [];
  queues = record { root_id = b'A' ∷ []; paused = false; allow_terminal = false } ∷ [];
  messages = row ∷ [];
  last_sequence = 1;
  attachments = [];
  steering = [];
}

abbrev one_dispatched : Db (List Task)
one_dispatched = record one_queued {
  world = next_turn ∷ turn ∷ [];
  messages = record row { payload = sent message next_turn } ∷ [];
}

abbrev enqueue_hello : Op (List Task)
enqueue_hello = enqueue (b'A' ∷ []) hello (b'M' ∷ []) (b'D' ∷ []) (b'T' ∷ []) false

enqueued :
    enqueue_pending tasks_only
      (b'A' ∷ [])
      hello
      (b'M' ∷ [])
      (b'D' ∷ [])
      (b'T' ∷ [])
      false
      (empty (turn ∷ []))
    ≡ done ((message, true), one_queued)
unfolding enqueue_pending text_eq shown
enqueued = refl

promoted : promote_pending tasks_only one_queued ≡ done (some next_turn, one_dispatched)
unfolding promote_pending promote_all promote_one text_eq shown is_claimed set_payload
promoted = refl

promote_oldest_example : HandedOver tasks_only one_queued.queues next_turn one_queued one_dispatched
promote_oldest_example =
    promote_oldest tasks_only (some next_turn) one_queued one_dispatched promoted

delivery_run-Inv_example :
    Inv
      (run tasks_only (enqueue_hello ∷ promote ∷ []) (empty (turn ∷ []))).messages
      (run tasks_only (enqueue_hello ∷ promote ∷ []) (empty (turn ∷ []))).steering
delivery_run-Inv_example = delivery_run-Inv tasks_only (turn ∷ []) (enqueue_hello ∷ promote ∷ [])

dispatched :
    lookup (b'M' ∷ []) (run tasks_only (enqueue_hello ∷ promote ∷ []) (empty (turn ∷ []))).messages
    ≡ some (sent message next_turn)
unfolding run step after enqueue_pending promote_pending promote_all promote_one text_eq shown
    is_claimed set_payload lookup
dispatched = refl

abbrev remove_and_promote : List (Op (List Task))
remove_and_promote = remove (b'A' ∷ []) (b'M' ∷ []) ∷ promote ∷ []

dispatched_once_example :
    lookup
      (b'M' ∷ [])
      (run tasks_only remove_and_promote
        (run tasks_only (enqueue_hello ∷ promote ∷ []) (empty (turn ∷ [])))).messages
    ≡ some (sent message next_turn)
dispatched_once_example =
    dispatched_once tasks_only (turn ∷ []) (enqueue_hello ∷ promote ∷ []) remove_and_promote
      (b'M' ∷ []) (sent message next_turn) dispatched refl

enqueue_again_example :
    (row : Row) × (find (same_key hello.idempotency_key) one_queued.messages ≡ some row)
    × (enqueue_pending tasks_only
          (b'A' ∷ [])
          hello
          (b'N' ∷ [])
          (b'E' ∷ [])
          (b'T' ∷ [])
          true
          one_queued
        ≡ done ((shown [] one_queued.queues row.payload, false), one_queued))
enqueue_again_example =
    enqueue_again tasks_only (b'A' ∷ []) hello (b'M' ∷ []) (b'D' ∷ []) (b'T' ∷ []) false
      (message, true) (empty (turn ∷ [])) one_queued (b'N' ∷ []) (b'E' ∷ []) (b'T' ∷ []) true
      enqueued

enqueue-Bounds_example :
    (r : Text) × (root tasks_only (b'A' ∷ []) (empty (turn ∷ [])) ≡ done r)
    × (length one_queued.messages ≤ retained)
    × (length (keep (queued_in r) one_queued.messages) ≤ per_conversation)
enqueue-Bounds_example =
    enqueue-Bounds tasks_only (b'A' ∷ []) hello (b'M' ∷ []) (b'D' ∷ []) (b'T' ∷ []) false message
      (empty (turn ∷ [])) one_queued enqueued
