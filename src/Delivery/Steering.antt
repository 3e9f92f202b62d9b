-- ===== src/Delivery/Steering.antt =====
-- src/infrastructure/sqlite/steering-database.ts: `SteeringDatabase`, after `parseSteerInput`. A
-- `ContinueTask` stands for a `SteerInput`, which has its key and its parts.
use codevo_runner.Prelude.{
  Bool, true, false, ◌&&◌, ◌||◌, Option, none, some, List, [], ◌∷◌, ◌++◌, ltb, if◌then◌else◌,
  length, any, find, keep, Text, text_eq,
}
use codevo_runner.Sqlite.{Outcome, ◌>>=◌, refuse, require, other, done, failed}
use codevo_runner.Contracts.{ErrorCode, delivery_uncertain, not_found, conflict, quota_exceeded}
use codevo_runner.Launch.{LaunchOptions, launch_identity}
use codevo_runner.Delivery.{
  text_part, attachment_part, TaskStatus, Part, Task, ContinueTask, Message, Row, SteerRow, Db,
  Dependencies, is_queued, root_of, is_for, due, is_paused, latest_or, running,
}

pub record SteerClaim : Type 0 where
  pub task_id : Text
  pub message_id : Text
  pub parts : List Part
  pub accepted : Bool

pub record SteerReceipt : Type 0 where
  pub task_id : Text
  pub message_id : Text

-- `claim`: a claim that was never accepted must not be sent again.
unfoldable pub claim : SteerRow → Outcome SteerClaim
claim s =
    if s.accepted
    then done (record { task_id = s.task_id; message_id = s.id; parts = s.parts; accepted = true })
    else refuse delivery_uncertain

abbrev receipt_of : SteerClaim → SteerReceipt
receipt_of c = record { task_id = c.task_id; message_id = c.message_id }

abbrev pub steer_collides : Text → Text → Option Text → SteerRow → Bool
steer_collides id key pending_id s =
    text_eq s.id id
    || text_eq s.key key
    || elim pending_id [ none ↦ false | some p ↦ is_for p s.pending_id ]

abbrev pub is_running : TaskStatus → Bool
is_running running = true
is_running _ = false

-- The identifier, if the test `if (pendingId)` holds of it.
abbrev pub given : Option Text → Option Text
given (some []) = none
given pending_id = pending_id

module _ {W : Type 0} (deps : Dependencies W) where
  -- `active`.
  unfoldable pub active : Text → Db W → Outcome Task
  active id db = do
    task ← deps.get_task db.world id
    _ ←
        require (is_running task.status && text_eq (latest_or deps db.world (root_of task)) id)
          conflict
    done task

  abbrev pub steer_of : Outcome (Unit {0}) → SteerRow → Outcome (Option SteerReceipt)
  steer_of checked s = do _ ← checked; c ← claim s; done (some (receipt_of c))

  abbrev pub found_steer : Text → ContinueTask → Option SteerRow → Outcome (Option SteerReceipt)
  found_steer id input none = done none
  found_steer id input (some s) =
      steer_of (require (text_eq s.fingerprint (deps.stringify_steer id input.parts)) conflict) s

  -- `findSteer`.
  unfoldable pub find_steer : Text → ContinueTask → Db W → Outcome (Option SteerReceipt)
  unfolding claim
  find_steer id input db =
      found_steer id input (find (λ s. text_eq s.key input.idempotency_key) db.steering)

  abbrev pub found_pending : Text → Option SteerRow → Outcome (Option SteerReceipt)
  found_pending id none = done none
  found_pending id (some s) = steer_of (require (text_eq s.task_id id) conflict) s

  -- `findPendingSteer`.
  unfoldable pub find_pending_steer : Text → Text → Db W → Outcome (Option SteerReceipt)
  unfolding claim
  find_pending_steer id pending_id db =
      found_pending id (find (λ s. is_for pending_id s.pending_id) db.steering)

  abbrev pub check_parts : List Part → W → Outcome (Unit {0})
  check_parts [] w = done tt
  check_parts (text_part t ∷ parts) w = check_parts parts w
  check_parts (attachment_part a ∷ parts) w = do _ ← deps.get_attachment w a; check_parts parts w

  abbrev pub of_task : Text → SteerRow → Bool
  of_task id s = text_eq s.task_id id

  abbrev pub row_of : Text → Text → List Part → Option Text → SteerRow
  row_of id key parts pending_id = record {
    id = elim pending_id [ none ↦ key | some p ↦ p ];
    task_id = id;
    key = key;
    fingerprint = deps.stringify_steer id parts;
    parts = parts;
    accepted = false;
    pending_id = pending_id;
  }

  -- `INSERT INTO steering_messages`, which the UNIQUE columns may refuse.
  unfoldable pub add_claim : SteerRow → Db W → Outcome (Db W)
  add_claim s db =
      if any (steer_collides s.id s.key s.pending_id) db.steering
      then failed other
      else done (record db { steering = db.steering ++ s ∷ [] })

  -- `insert`.
  unfoldable pub insert : Text → Text → List Part → Option Text → Db W → Outcome (SteerClaim × Db W)
  unfolding add_claim
  insert id key parts pending_id db = do
    _ ← deps.require_capacity db.world
    _ ←
        require (ltb (length db.steering) 1000 && ltb (length (keep (of_task id) db.steering)) 32)
          quota_exceeded
    _ ← check_parts parts db.world
    db1 ← add_claim (row_of id key parts pending_id) db
    _ ← deps.require_capacity db1.world
    done (
      record {
        task_id = id;
        message_id = (row_of id key parts pending_id).id;
        parts = parts;
        accepted = false;
      },
      db1,
    )

  unfoldable pub claim_new :
      Text → ContinueTask → Option SteerReceipt → Db W → Outcome (SteerClaim × Db W)
  unfolding active insert
  claim_new id input (some r) db = done (
    record { task_id = r.task_id; message_id = r.message_id; parts = input.parts; accepted = true },
    db,
  )
  claim_new id input none db = do
    _ ← active id db
    insert id input.idempotency_key input.parts none db

  -- `claimSteer`.
  unfoldable pub claim_steer : Text → ContinueTask → Db W → Outcome (SteerClaim × Db W)
  unfolding find_steer claim_new
  claim_steer id input db = do previous ← find_steer id input db; claim_new id input previous db

  abbrev pub same_launch : Message → Task → Bool
  same_launch m task =
      text_eq (deps.stringify_launch (identity m.launch))
        (deps.stringify_launch (identity task.launch))
    where
      identity : Option LaunchOptions → Option LaunchOptions
      identity none = none
      identity (some l) = some (launch_identity l)

  abbrev pub same_instructions : Message → Task → Bool
  same_instructions m task =
      text_eq (deps.stringify_instructions m.instructions)
        (deps.stringify_instructions task.instructions)

  -- `if (pendingId) throw ...; return null`.
  abbrev pub give_up : Option Text → ErrorCode → Db W → Outcome (Option SteerClaim × Db W)
  give_up none code db = done (none, db)
  give_up (some p) code db = refuse code

  -- The row that a claim is for.
  abbrev pub wanted : Option Text → Text → Db W → Option Row
  wanted (some p) root db = find (λ row. text_eq row.root_id root && text_eq row.id p) db.messages
  wanted none root db = find (due db.steering root) db.messages

  abbrev pub same_turn : Message → Task → Bool
  same_turn m task = same_launch m task && same_instructions m task

  -- `claimPendingSteer` from the read of the row on.
  unfoldable pub claim_row :
      Text → Option Text → Task → Option Row → Db W → Outcome (Option SteerClaim × Db W)
  unfolding insert
  claim_row id pending_id task none db = give_up pending_id not_found db
  claim_row id pending_id task (some row) db = do
    _ ← require (is_queued row.payload.status) conflict
    elim (same_turn row.payload task) [
      | true ↦ do
        made ← insert id row.dispatch_key row.payload.parts (some row.payload.id) db
        done (some made.0, made.1)
      | false ↦ give_up pending_id conflict db
    ]

  unfoldable pub claim_due : Text → Option Text → Db W → Outcome (Option SteerClaim × Db W)
  unfolding claim_row active
  claim_due id pending_id db = do
    task ← active id db
    elim (is_paused db.queues (root_of task)) [
      | true ↦ give_up pending_id conflict db
      | false ↦ claim_row id pending_id task (wanted pending_id (root_of task) db) db
    ]

  -- The claim that there is.
  abbrev pub claim_again : Option SteerRow → Db W → Outcome (Option SteerClaim × Db W)
  claim_again none db = failed other
  claim_again (some s) db = do c ← claim s; done (some c, db)

  unfoldable pub claim_found :
      Text → Text → Option SteerReceipt → Db W → Outcome (Option SteerClaim × Db W)
  unfolding claim_due claim
  claim_found id p none db = claim_due id (some p) db
  claim_found id p (some r) db = claim_again (find (λ s. text_eq s.id r.message_id) db.steering) db

  -- `claimPendingSteer`, of the identifier that counts as given.
  unfoldable pub claim_given : Text → Option Text → Db W → Outcome (Option SteerClaim × Db W)
  unfolding find_pending_steer claim_found
  claim_given id none db = claim_due id none db
  claim_given id (some p) db = do
    previous ← find_pending_steer id p db
    claim_found id p previous db

  unfoldable pub claim_pending_steer :
      Text → Option Text → Db W → Outcome (Option SteerClaim × Db W)
  unfolding claim_given
  claim_pending_steer id pending_id db = claim_given id (given pending_id) db
