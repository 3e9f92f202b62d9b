-- ===== src/Delivery.antt =====
-- src/infrastructure/sqlite/pending-database.ts and steering-database.ts: the tables of the messages
-- that wait for a conversation's turn and of those that are handed to the running one. Rows stand in
-- the order of their sequence, a JSON payload is the record it was written from, and SQL's 0 and 1 are
-- Booleans. The tables of tasks, conversations, attachments and events are a type `W` that the
-- dependencies read and change.
pub mod Pending
pub mod Promotion
pub mod Calls
pub mod Rows
pub mod Claims
pub mod Settling
pub mod Accepted
pub mod Preserve
pub mod Steered
pub mod Once
pub mod Again
pub mod Admission
pub mod Oldest
pub mod Steering
use codevo_runner.Prelude.{
  ℕ, Bool, true, false, not, ◌&&◌, Option, none, some, List, [], ◌∷◌, if◌then◌else◌, any, find,
  Text, text_eq,
}
use codevo_runner.Sqlite.{Outcome}
use codevo_runner.Launch.{Provider, LaunchOptions}

pub data TaskStatus : Type 0 where
  draft waiting running succeeded unsuccessful interrupted withdrawn : TaskStatus

pub data Part : Type 0 where
  text_part : Text → Part
  attachment_part : Text → Part

pub record InstructionFile : Type 0 where
  pub project_scope : Bool
  pub path : Text
  pub content : Text

pub record Snapshot : Type 0 where
  pub files : List InstructionFile

pub record Task : Type 0 where
  pub id : Text
  pub provider : Provider
  pub launch : Option LaunchOptions
  pub status : TaskStatus
  pub project_id : Option Text
  pub conversation_id : Option Text
  pub instructions : Option Snapshot

pub record ContinueTask : Type 0 where
  pub instructions : Option Snapshot
  pub idempotency_key : Text
  pub launch : Option LaunchOptions
  pub parts : List Part

pub data Status : Type 0 where
  queued paused uncertain dispatched cancelled : Status

pub record Message : Type 0 where
  pub instructions : Option Snapshot
  pub id : Text
  pub conversation_id : Text
  pub status : Status
  pub parts : List Part
  pub launch : Option LaunchOptions
  pub created_at : Text
  pub task_id : Option Text

-- A row of `pending_queues`.
pub record Queue : Type 0 where
  pub root_id : Text
  pub paused : Bool
  pub allow_terminal : Bool

-- A row of `pending_messages`.
pub record Row : Type 0 where
  pub sequence : ℕ
  pub id : Text
  pub root_id : Text
  pub key : Text
  pub fingerprint : Text
  pub dispatch_key : Text
  pub payload : Message
  pub approvals : Bool

-- A row of `steering_messages`.
pub record SteerRow : Type 0 where
  pub id : Text
  pub task_id : Text
  pub key : Text
  pub fingerprint : Text
  pub parts : List Part
  pub accepted : Bool
  pub pending_id : Option Text

pub record Fingerprint : Type 0 where
  pub instructions : Option Snapshot
  pub root : Text
  pub parts : List Part
  pub launch : Option LaunchOptions

pub record Db (W : Type 0) : Type 0 where
  pub world : W
  pub queues : List Queue
  pub messages : List Row
  pub last_sequence : ℕ
  pub attachments : List (Text × Text)
  pub steering : List SteerRow

-- What the two classes are given, the read of `conversations`, the insertion into `events`, and
-- `JSON.stringify` of what is compared as text.
pub record Dependencies (W : Type 0) : Type 0 where
  pub get_task : W → Text → Outcome Task
  pub latest_id : W → Text → Option Text
  pub require_capacity : W → Outcome (Unit {0})
  pub get_attachment : W → Text → Outcome (Unit {0})
  pub resume_available : W → Text → Outcome Bool
  pub continue_task : W → Text → ContinueTask → Bool → Outcome (Task × W)
  pub input_event : W → Text → Text → List Part → W
  pub stringify : Fingerprint → Text
  pub stringify_steer : Text → List Part → Text
  pub stringify_launch : Option LaunchOptions → Text
  pub stringify_instructions : Option Snapshot → Text

-- `PENDING_LIMITS`.
abbrev pub per_conversation : ℕ
per_conversation = 16

abbrev pub retained : ℕ
retained = 1000

abbrev pub is_queued : Status → Bool
is_queued queued = true
is_queued _ = false

abbrev pub is_dispatched : Status → Bool
is_dispatched dispatched = true
is_dispatched _ = false

-- `task.conversationId ?? task.id`.
abbrev pub root_of : Task → Text
root_of t = elim t.conversation_id [ none ↦ t.id | some c ↦ c ]

abbrev pub is_for : Text → Option Text → Bool
is_for id none = false
is_for id (some p) = text_eq p id

-- `id IN (SELECT pending_id FROM steering_messages ...)`.
unfoldable pub is_claimed : List SteerRow → Text → Bool
is_claimed steering id = any (λ s. is_for id s.pending_id) steering

-- The queued messages of a conversation that no claim has, in the order of their sequence.
abbrev pub due : List SteerRow → Text → Row → Bool
due steering root r =
    text_eq r.root_id root && is_queued r.payload.status && not (is_claimed steering r.id)

abbrev pub first_due : List SteerRow → Text → List Row → Option Row
first_due steering root rows = find (due steering root) rows

-- `UPDATE pending_messages SET payload=? WHERE id=?`.
unfoldable pub set_payload : Message → Text → List Row → List Row
set_payload m id [] = []
set_payload m id (r ∷ rows) =
    let rest = set_payload m id rows in
    if text_eq r.id id then record r { payload = m } ∷ rest else r ∷ rest

abbrev pub is_paused : List Queue → Text → Bool
is_paused queues root = any (λ q. text_eq q.root_id root && q.paused) queues

-- The task of the conversation's latest turn: `latest` of `PendingDatabase`.
module _ {W : Type 0} (deps : Dependencies W) where
  abbrev pub latest_or : W → Text → Text
  latest_or w root = elim (deps.latest_id w root) [ none ↦ root | some id ↦ id ]
