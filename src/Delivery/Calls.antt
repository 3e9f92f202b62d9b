-- ===== src/Delivery/Calls.antt =====
-- Sequences of calls of src/infrastructure/sqlite/pending-database.ts and steering-database.ts.
use codevo_runner.Prelude.{Bool, Option, List, [], ◌∷◌, Text}
use codevo_runner.Sqlite.{Outcome, after, done, failed}
use codevo_runner.Delivery.{ContinueTask, Db, Dependencies}
use codevo_runner.Delivery.Pending.{
  enqueue_pending, remove_pending, resume_pending, pause_task, pause_outstanding,
}
use codevo_runner.Delivery.Promotion.{promote_pending}
use codevo_runner.Delivery.Steering.{claim_steer, claim_pending_steer}
use codevo_runner.Delivery.Settling.{release_steer, accept_steer}

-- A call, with the fresh identifiers and the time it draws; `elsewhere` is any change of the other
-- tables.
pub data Op (W : Type 0) : Type 0 where
  enqueue : Text → ContinueTask → Text → Text → Text → Bool → Op W
  remove : Text → Text → Op W
  resume : Text → Op W
  pause : Text → Op W
  pause_all : Op W
  promote : Op W
  claim_input : Text → ContinueTask → Op W
  claim_message : Text → Option Text → Op W
  release : Text → Text → Op W
  accept : Text → Text → Op W
  elsewhere : W → Op W

abbrev pub empty : {W : Type 0} → W → Db W
empty w = record {
  world = w;
  queues = [];
  messages = [];
  last_sequence = 0;
  attachments = [];
  steering = [];
}

abbrev pub next : {W : Type 0} → Outcome (Db W) → Db W → Db W
next (done db) old = db
next (failed e) old = old

module _ {W : Type 0} (deps : Dependencies W) where
  unfoldable pub step : Op W → Db W → Db W
  unfolding after enqueue_pending remove_pending resume_pending pause_task pause_outstanding
      promote_pending claim_steer claim_pending_steer release_steer accept_steer
  step (enqueue id input pending_id dispatch_key now approvals) db =
      after (enqueue_pending deps id input pending_id dispatch_key now approvals db) db
  step (remove id pending_id) db = after (remove_pending deps id pending_id db) db
  step (resume id) db = after (resume_pending deps id db) db
  step (pause id) db = next (pause_task deps id db) db
  step pause_all db = pause_outstanding deps db
  step promote db = after (promote_pending deps db) db
  step (claim_input id input) db = after (claim_steer deps id input db) db
  step (claim_message id pending_id) db = after (claim_pending_steer deps id pending_id db) db
  step (release id message_id) db = after (release_steer deps id message_id db) db
  step (accept id message_id) db = after (accept_steer deps id message_id db) db
  step (elsewhere w) db = record db { world = w }

  unfoldable pub run : List (Op W) → Db W → Db W
  run [] db = db
  run (op ∷ ops) db = run ops (step op db)
