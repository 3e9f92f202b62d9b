-- ===== src/Delivery/Pending.antt =====
-- src/infrastructure/sqlite/pending-database.ts: `PendingDatabase`. Fresh identifiers and the time come
-- in as arguments.
use codevo_runner.Prelude.{
  ◌+◌, Bool, true, false, not, ◌&&◌, ◌||◌, Option, none, some, List, [], ◌∷◌, ◌++◌, map, ltb,
  if◌then◌else◌, length, take, any, find, keep, Text, text_eq,
}
use codevo_runner.Sqlite.{Outcome, ◌>>=◌, refuse, require, other, done, failed}
use codevo_runner.Contracts.{invalid_input, not_found, conflict, quota_exceeded}
use codevo_runner.Launch.{Provider, LaunchOptions, same_provider, launch_identity}
use codevo_runner.Launch.Parsing.{launch_provider}
use codevo_runner.Delivery.{
  text_part, attachment_part, TaskStatus, Part, Task, ContinueTask, Message, Queue, Row, SteerRow,
  Db, Dependencies, per_conversation, retained, is_queued, is_dispatched, root_of, is_for,
  set_payload, is_paused, latest_or, draft, unsuccessful, interrupted, withdrawn, queued, paused,
  uncertain, cancelled,
}

abbrev pub has_project : Task → Bool
has_project t = elim t.project_id [ none ↦ false | some [] ↦ false | some (_ ∷ _) ↦ true ]

abbrev pub is_draft : TaskStatus → Bool
is_draft draft = true
is_draft _ = false

-- `['failed', 'cancelled', 'interrupted'].includes(status)`.
abbrev pub stops_queue : TaskStatus → Bool
stops_queue unsuccessful = true
stops_queue withdrawn = true
stops_queue interrupted = true
stops_queue _ = false

abbrev pub is_set {ℓ} : {A : Type ℓ} → Option A → Bool
is_set none = false
is_set (some a) = true

-- `record`.
unfoldable pub shown : List SteerRow → List Queue → Message → Message
shown steering queues m =
    if is_queued m.status && any (λ s. is_for m.id s.pending_id && not s.accepted) steering
    then record m { status = uncertain }
    else if is_queued m.status && is_paused queues m.conversation_id
    then record m { status = paused }
    else m

-- The attachments of a message, each once.
abbrev pub refs : List Part → List Text
refs [] = []
refs (text_part t ∷ parts) = refs parts
refs (attachment_part a ∷ parts) = a ∷ keep (λ b. not (text_eq b a)) (refs parts)

-- What `parseLaunchOptions` does with choices that it has parsed before.
abbrev pub launch_for : LaunchOptions → Provider → Outcome LaunchOptions
launch_for l p = if same_provider (launch_provider l) p then done l else refuse invalid_input

-- `paused` of a queue that exists is never cleared by an insertion.
abbrev pub upsert : Text → Bool → List Queue → List Queue
upsert root stop [] = record { root_id = root; paused = stop; allow_terminal = false } ∷ []
upsert root stop (q ∷ qs) =
    let rest = upsert root stop qs in
    if text_eq q.root_id root then record q { paused = q.paused || stop } ∷ qs else q ∷ rest

-- The three UNIQUE columns.
abbrev pub collides : Text → Text → Text → Row → Bool
collides id key dispatch_key r =
    text_eq r.id id || text_eq r.key key || text_eq r.dispatch_key dispatch_key

-- `UPDATE pending_queues SET paused=1,allow_terminal=0 WHERE root_id=?`.
unfoldable pub stop_queue : Text → List Queue → List Queue
stop_queue root queues =
    map
      (λ q.
        if text_eq q.root_id root then record q { paused = true; allow_terminal = false } else q)
      queues

abbrev pub is_message : Text → Text → Row → Bool
is_message id r row = text_eq row.id id && text_eq row.root_id r

abbrev pub same_key : Text → Row → Bool
same_key key row = text_eq row.key key

module _ {W : Type 0} (deps : Dependencies W) where
  -- `root`.
  unfoldable pub root : Text → Db W → Outcome Text
  root id db = do
    task ← deps.get_task db.world id
    _ ← require (has_project task && not (is_draft task.status)) conflict
    done (root_of task)

  abbrev pub latest : Text → Db W → Outcome Task
  latest r db = deps.get_task db.world (latest_or deps db.world r)

  unfoldable pub list_pending : Text → Db W → Outcome (List Message)
  unfolding root
  list_pending id db = do
    r ← root id db
    done (
        map (λ row. shown db.steering db.queues row.payload)
          (take per_conversation
            (keep (λ row. text_eq row.root_id r && is_queued row.payload.status) db.messages)))

  -- `for (const ref of refs) this.dependencies.getAttachment(ref)`.
  abbrev pub get_all : List Text → W → Outcome (Unit {0})
  get_all [] w = done tt
  get_all (a ∷ ids) w = do _ ← deps.get_attachment w a; get_all ids w

  abbrev pub fingerprint_of : Text → ContinueTask → Text
  fingerprint_of r input = deps.stringify (record {
    instructions = input.instructions;
    root = r;
    parts = input.parts;
    launch = elim input.launch [ none ↦ none | some l ↦ some (launch_identity l) ];
  })

  abbrev pub launch_of : ContinueTask → Task → Outcome (Option LaunchOptions)
  launch_of input task = elim input.launch [
    | none ↦ done task.launch
    | some l ↦ do found ← launch_for l task.provider; done (some found)
  ]

  abbrev pub new_row : Text → Text → Text → Bool → Message → Db W → Row
  new_row key fingerprint dispatch_key approvals m db = record {
    sequence = db.last_sequence + 1;
    id = m.id;
    root_id = m.conversation_id;
    key = key;
    fingerprint = fingerprint;
    dispatch_key = dispatch_key;
    payload = m;
    approvals = approvals;
  }

  -- A new row of `pending_messages`, which gets the next sequence; the columns that are UNIQUE
  -- refuse it otherwise.
  unfoldable pub insert_message : Text → Text → Text → Bool → Message → Db W → Outcome (Db W)
  insert_message key fingerprint dispatch_key approvals m db =
      if any (λ row. collides m.id key dispatch_key row) db.messages
      then failed other
      else done (record db {
        last_sequence = db.last_sequence + 1;
        messages = db.messages ++ new_row key fingerprint dispatch_key approvals m db ∷ [];
        attachments = db.attachments ++ map (λ a. (m.id, a)) (refs m.parts);
      })

  abbrev pub new_message : Text → ContinueTask → Option LaunchOptions → Text → Text → Message
  new_message r input launch pending_id now = record {
    instructions = input.instructions;
    id = pending_id;
    conversation_id = r;
    status = queued;
    parts = input.parts;
    launch = launch;
    created_at = now;
    task_id = none;
  }

  abbrev pub open_queue : Text → Task → Db W → Db W
  open_queue r task db = record db { queues = upsert r (stops_queue task.status) db.queues }

  -- `enqueuePending` from `requireCapacity` on.
  unfoldable pub admit :
      Text
      → Text
      → ContinueTask
      → Option LaunchOptions
      → Task
      → Text
      → Text
      → Text
      → Bool
      → Db W
      → Outcome ((Message × Bool) × Db W)
  unfolding insert_message list_pending
  admit id r input launch task pending_id dispatch_key now approvals db = do
    _ ← deps.require_capacity db.world
    _ ← require (ltb (length db.messages) retained) quota_exceeded
    listed ← list_pending id db
    _ ← require (ltb (length listed) per_conversation) quota_exceeded
    _ ← get_all (refs input.parts) db.world
    db1 ←
        insert_message input.idempotency_key (fingerprint_of r input) dispatch_key approvals
          (new_message r input launch pending_id now) (open_queue r task db)
    _ ← deps.require_capacity db1.world
    done ((shown db1.steering db1.queues (new_message r input launch pending_id now), true), db1)

  -- `enqueuePending` after the read of the row with the key.
  unfoldable pub enqueue_for :
      Text
      → Text
      → ContinueTask
      → Option LaunchOptions
      → Task
      → Text
      → Text
      → Text
      → Bool
      → Option Row
      → Db W
      → Outcome ((Message × Bool) × Db W)
  unfolding admit shown
  enqueue_for id r input launch task pending_id dispatch_key now approvals (some row) db =
      if text_eq row.fingerprint (fingerprint_of r input)
      then done ((shown db.steering db.queues row.payload, false), db)
      else refuse conflict
  enqueue_for id r input launch task pending_id dispatch_key now approvals none db =
      if is_set task.instructions && not (is_set input.instructions)
      then refuse invalid_input
      else admit id r input launch task pending_id dispatch_key now approvals db

  -- `enqueuePending`, of an input that `parseContinueTask` has returned; the flag is `created`.
  unfoldable pub enqueue_pending :
      Text → ContinueTask → Text → Text → Text → Bool → Db W → Outcome ((Message × Bool) × Db W)
  unfolding enqueue_for root
  enqueue_pending id input pending_id dispatch_key now approvals db = do
    r ← root id db
    task ← latest r db
    launch ← launch_of input task
    enqueue_for id r input launch task pending_id dispatch_key now approvals
        (find (same_key input.idempotency_key) db.messages) db

  -- `removePending` after the read of the row.
  unfoldable pub remove_row : Text → Option Row → Db W → Outcome (Message × Db W)
  unfolding shown
  remove_row pending_id none db = refuse not_found
  remove_row pending_id (some row) db =
      let current : Message = shown db.steering db.queues row.payload in
      let m : Message = record current { status = cancelled } in
      if is_dispatched current.status
      then refuse conflict
      else done (m, record db { messages = set_payload m pending_id db.messages })

  -- `removePending`.
  unfoldable pub remove_pending : Text → Text → Db W → Outcome (Message × Db W)
  unfolding remove_row
  remove_pending id pending_id db = do
    task ← deps.get_task db.world id
    remove_row pending_id (find (is_message pending_id (root_of task)) db.messages) db

  abbrev pub resumed : Text → Db W → Db W
  resumed r db = record db {
    queues =
        map
          (λ q.
            if text_eq q.root_id r then record q { paused = false; allow_terminal = true } else q)
          db.queues;
  }

  -- `resumePending`.
  unfoldable pub resume_pending : Text → Db W → Outcome (List Message × Db W)
  unfolding root list_pending
  resume_pending id db = do
    r ← root id db
    task ← latest r db
    available ← deps.resume_available db.world task.id
    _ ← require available conflict
    listed ← list_pending id (resumed r db)
    done (listed, resumed r db)

  -- `pauseTask`.
  unfoldable pub pause_task : Text → Db W → Outcome (Db W)
  pause_task id db = do
    task ← deps.get_task db.world id
    done (record db { queues = stop_queue (root_of task) db.queues })

  -- `pauseOutstanding`.
  abbrev pub paused_if_queued : List Row → Queue → Queue
  paused_if_queued rows q = record q {
    allow_terminal = false;
    paused = any (λ row. text_eq row.root_id q.root_id && is_queued row.payload.status) rows;
  }

  unfoldable pub pause_outstanding : Db W → Db W
  pause_outstanding db = record db { queues = map (paused_if_queued db.messages) db.queues }
