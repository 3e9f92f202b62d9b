-- ===== src/Delivery/Settling.antt =====
-- src/infrastructure/sqlite/steering-database.ts: how a claim ends, `releaseSteer` and `acceptSteer`.
use codevo_runner.Prelude.{
  Bool, true, not, ◌&&◌, Option, none, some, List, [], ◌∷◌, if◌then◌else◌, find, keep, Text,
  text_eq,
}
use codevo_runner.Sqlite.{Outcome, ◌>>=◌, refuse, other, done, failed}
use codevo_runner.Contracts.{not_found, conflict}
use codevo_runner.Delivery.{Row, SteerRow, Db, Dependencies, set_payload, dispatched}
use codevo_runner.Delivery.Steering.{SteerReceipt}

abbrev pub is_claim : Text → Text → SteerRow → Bool
is_claim id message_id s = text_eq s.task_id id && text_eq s.id message_id

-- `UPDATE steering_messages SET accepted=1 WHERE id=?`.
unfoldable pub set_accepted : Text → List SteerRow → List SteerRow
set_accepted message_id [] = []
set_accepted message_id (s ∷ rows) =
    let rest = set_accepted message_id rows in
    if text_eq s.id message_id then record s { accepted = true } ∷ rest else s ∷ rest

module _ {W : Type 0} (deps : Dependencies W) where
  unfoldable pub release_row : Text → Text → Option SteerRow → Db W → Outcome (Unit {0} × Db W)
  release_row id message_id none db = done (tt, db)
  release_row id message_id (some s) db =
      if s.accepted
      then refuse conflict
      else done (
        tt,
        record db {
          steering = keep (λ r. not (is_claim id message_id r && not r.accepted)) db.steering;
        },
      )

  -- `releaseSteer`.
  unfoldable pub release_steer : Text → Text → Db W → Outcome (Unit {0} × Db W)
  unfolding release_row
  release_steer id message_id db =
      release_row id message_id (find (is_claim id message_id) db.steering) db

  -- The message that an accepted claim was for; the read of its row throws if it is not there.
  unfoldable pub deliver_row : Text → Option Row → Db W → Outcome (Db W)
  deliver_row id none db = failed other
  deliver_row id (some row) db = done (record db {
    messages =
        set_payload (record row.payload { status = dispatched; task_id = some id }) row.payload.id
          db.messages;
  })

  unfoldable pub deliver : Text → Option Text → Db W → Outcome (Db W)
  unfolding deliver_row
  deliver id none db = done db
  deliver id (some p) db = deliver_row id (find (λ row. text_eq row.id p) db.messages) db

  unfoldable pub accept_row : Text → Text → Option SteerRow → Db W → Outcome (SteerReceipt × Db W)
  unfolding set_accepted deliver
  accept_row id message_id none db = refuse not_found
  accept_row id message_id (some s) db = do
    db1 ← deliver id s.pending_id (record db {
      world = if s.accepted then db.world else deps.input_event db.world id message_id s.parts;
      steering = set_accepted message_id db.steering;
    })
    done (record { task_id = id; message_id = message_id }, db1)

  -- `acceptSteer`.
  unfoldable pub accept_steer : Text → Text → Db W → Outcome (SteerReceipt × Db W)
  unfolding accept_row
  accept_steer id message_id db =
      accept_row id message_id (find (is_claim id message_id) db.steering) db
