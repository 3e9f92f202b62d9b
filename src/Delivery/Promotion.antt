-- ===== src/Delivery/Promotion.antt =====
-- src/infrastructure/sqlite/pending-database.ts: `promotePending`, which turns the oldest message of a
-- conversation whose turn is over into its next turn.
use codevo_runner.Prelude.{
  ℕ, Bool, true, false, ◌||◌, Option, none, some, List, [], ◌∷◌, map, ltb, if◌then◌else◌, take,
  text_eq,
}
use codevo_runner.Sqlite.{Failure, Outcome, ◌>>=◌, runner, other, done, failed}
use codevo_runner.Contracts.{not_found, conflict, quota_exceeded}
use codevo_runner.Delivery.{
  TaskStatus, Task, ContinueTask, Message, Queue, Row, Db, Dependencies, retained, first_due,
  set_payload, waiting, running, succeeded, dispatched,
}
use codevo_runner.Delivery.Pending.{shown, latest, pause_task}

abbrev pub is_active : TaskStatus → Bool
is_active waiting = true
is_active running = true
is_active _ = false

abbrev pub is_succeeded : TaskStatus → Bool
is_succeeded succeeded = true
is_succeeded _ = false

module _ {W : Type 0} (deps : Dependencies W) where
  -- The first query of `promotePending`: the queues that are not paused and have a message that is
  -- due, by the sequence of the first such message.
  abbrev pub insert_queue : ℕ × Queue → List (ℕ × Queue) → List (ℕ × Queue)
  insert_queue q [] = q ∷ []
  insert_queue q (p ∷ ps) =
      let rest = insert_queue q ps in if ltb q.0 p.0 then q ∷ p ∷ ps else p ∷ rest

  abbrev pub due_queues : Db W → List Queue → List (ℕ × Queue)
  due_queues db [] = []
  due_queues db (q ∷ qs) =
      let rest = due_queues db qs in
      if q.paused then rest else elim (first_due db.steering q.root_id db.messages) [
        | none ↦ rest
        | some row ↦ insert_queue (row.sequence, q) rest
      ]

  -- The codes that the `catch` takes.
  abbrev pub pauses : Failure → Bool
  pauses (runner quota_exceeded) = true
  pauses (runner conflict) = true
  pauses (runner not_found) = true
  pauses _ = false

  abbrev pub Promoted : Type 0
  Promoted = Outcome (Option Task × Db W)

  -- What follows `continueTask` in its savepoint.
  unfoldable pub finish :
      Row → Message → Task → Outcome (Task × W) → (Db W → Promoted) → Db W → Promoted
  unfolding pause_task
  finish row m task (failed e) rest db = elim (pauses e) [
    | true ↦ pause_task deps task.id db >>= rest
    | false ↦ failed e
  ]
  finish row m task (done (made, w)) rest db = done (
    some made,
    record db {
      world = w;
      messages =
          set_payload (record m { status = dispatched; task_id = some made.id }) m.id db.messages;
      queues =
          map
            (λ q. if text_eq q.root_id row.root_id then record q { allow_terminal = false } else q)
            db.queues;
    },
  )

  abbrev pub input_of : Row → Message → ContinueTask
  input_of row m = record {
    instructions = m.instructions;
    idempotency_key = row.dispatch_key;
    launch = m.launch;
    parts = m.parts;
  }

  -- The conversation's oldest message that is due.
  unfoldable pub hand_over : Task → Option Row → (Db W → Promoted) → Db W → Promoted
  unfolding shown finish
  hand_over task none rest db = failed other
  hand_over task (some row) rest db =
      let m : Message = shown db.steering db.queues row.payload in
      finish row m task (deps.continue_task db.world task.id (input_of row m) row.approvals) rest db

  -- `resumeState`, which is not asked for a turn that has not succeeded without leave.
  abbrev pub may_resume : Queue → Task → Db W → Outcome Bool
  may_resume q task db = elim (is_succeeded task.status || q.allow_terminal) [
    | true ↦ deps.resume_available db.world task.id
    | false ↦ done false
  ]

  unfoldable pub promote_if : Bool → Queue → Task → (Db W → Promoted) → Db W → Promoted
  unfolding hand_over pause_task
  promote_if false q task rest db = pause_task deps task.id db >>= rest
  promote_if true q task rest db =
      hand_over task (first_due db.steering q.root_id db.messages) rest db

  -- One pass of the loop; `rest` is the remaining passes.
  unfoldable pub promote_one : Queue → (Db W → Promoted) → Db W → Promoted
  unfolding promote_if
  promote_one q rest db = do
    task ← latest deps q.root_id db
    elim (is_active task.status) [
      | true ↦ rest db
      | false ↦ do available ← may_resume q task db; promote_if available q task rest db
    ]

  unfoldable pub promote_all : List Queue → Db W → Promoted
  promote_all [] db = done (none, db)
  promote_all (q ∷ qs) db = promote_one q (λ d. promote_all qs d) db

  -- `promotePending`.
  unfoldable pub promote_pending : Db W → Promoted
  promote_pending db = promote_all (map (λ p. p.1) (take retained (due_queues db db.queues))) db
