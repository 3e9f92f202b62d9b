-- ===== src/Delivery/Admission.antt =====
-- What `enqueuePending` of src/infrastructure/sqlite/pending-database.ts has done when it succeeds.
use codevo_runner.Delivery.Pending.{latest}
use codevo_runner.Delivery.Pending.{root}
use codevo_runner.Delivery.Pending.{
  is_set, refs, same_key, list_pending, get_all, fingerprint_of, launch_of, insert_message,
  new_message, open_queue, admit, enqueue_for, enqueue_pending,
}
use codevo_runner.Prelude.{
  ◌≡◌, refl, ap, ◌∙◌, ◌⊎◌, inl, inr, Bool, true, false, not, ◌&&◌, Option, none, some, List, arith,
  ltb, Bool-cases, length, find, Text, text_eq,
}
use codevo_runner.Sqlite.{require, bind-done, require-done, done}
use codevo_runner.Contracts.{quota_exceeded}
use codevo_runner.Launch.{LaunchOptions}
use codevo_runner.Delivery.{
  Task, ContinueTask, Message, Row, Db, Dependencies, per_conversation, retained,
}

module _ {W : Type 0} (deps : Dependencies W) where
  -- The message is new, and there was room for it.
  pub record Admitted (id r : Text) (input : ContinueTask) (launch : Option LaunchOptions)
      (task : Task) (pending_id dispatch_key now : Text) (approvals : Bool) (m : Message × Bool)
      (db db1 : Db W) : Type 0 where
    pub listed : List Message
    pub room : ltb (length db.messages) retained ≡ true
    pub list : list_pending deps id db ≡ done listed
    pub short : ltb (length listed) per_conversation ≡ true
    pub inserted :
        insert_message deps input.idempotency_key
          (fingerprint_of deps r input)
          dispatch_key
          approvals
          (new_message deps r input launch pending_id now)
          (open_queue deps r task db)
        ≡ done db1

  admit-Admitted :
      (id r : Text) (input : ContinueTask) (launch : Option LaunchOptions) (task : Task)
      (pending_id dispatch_key now : Text) (approvals : Bool) (m : Message × Bool) (db db1 : Db W)
      → admit deps id r input launch task pending_id dispatch_key now approvals db ≡ done (m, db1)
      → Admitted id r input launch task pending_id dispatch_key now approvals m db db1
  unfolding admit
  admit-Admitted id r input launch task pending_id dispatch_key now approvals m db db1 e =
      let (u0, k0, e0) = bind-done (deps.require_capacity db.world) _ (m, db1) e in
      let (u1, k1, e1) =
        bind-done (require (ltb (length db.messages) retained) quota_exceeded) _ (m, db1) e0 in
      let (listed, k2, e2) = bind-done (list_pending deps id db) _ (m, db1) e1 in
      let (u3, k3, e3) =
        bind-done (require (ltb (length listed) per_conversation) quota_exceeded) _ (m, db1) e2 in
      let (u4, k4, e4) = bind-done (get_all deps (refs input.parts) db.world) _ (m, db1) e3 in
      let (db2, k5, e5) =
        bind-done
          (insert_message deps input.idempotency_key (fingerprint_of deps r input) dispatch_key
            approvals (new_message deps r input launch pending_id now) (open_queue deps r task db))
          _ (m, db1) e4 in
      let (u6, k6, e6) = bind-done (deps.require_capacity db2.world) _ (m, db1) e5 in
      let same : db2 ≡ db1 = ground (arith, e6) in
      record {
        listed = listed;
        room = require-done (ltb (length db.messages) retained) quota_exceeded u1 k1;
        list = k2;
        short = require-done (ltb (length listed) per_conversation) quota_exceeded u3 k3;
        inserted = k5 ∙ ap done same;
      }

  -- The key was known, with the same contents, or the message was admitted.
  pub data Enqueued (id r : Text) (input : ContinueTask) (launch : Option LaunchOptions)
      (task : Task) (pending_id dispatch_key now : Text) (approvals : Bool) (m : Message × Bool)
      (db db1 : Db W) : Type 0 where
    known :
        (row : Row)
        → find (same_key input.idempotency_key) db.messages ≡ some row
        → text_eq row.fingerprint (fingerprint_of deps r input) ≡ true
        → db1 ≡ db
        → m.1 ≡ false
        → Enqueued id r input launch task pending_id dispatch_key now approvals m db db1
    admitted :
        find (same_key input.idempotency_key) db.messages ≡ none
        → Admitted id r input launch task pending_id dispatch_key now approvals m db db1
        → Enqueued id r input launch task pending_id dispatch_key now approvals m db db1

  enqueue_for-Enqueued :
      (id r : Text) (input : ContinueTask) (launch : Option LaunchOptions) (task : Task)
      (pending_id dispatch_key now : Text) (approvals : Bool) (o : Option Row) (m : Message × Bool)
      (db db1 : Db W)
      → find (same_key input.idempotency_key) db.messages ≡ o
      → enqueue_for deps id r input launch task pending_id dispatch_key now approvals o db
        ≡ done (m, db1)
      → Enqueued id r input launch task pending_id dispatch_key now approvals m db db1
  unfolding enqueue_for
  enqueue_for-Enqueued id r input launch task pending_id dispatch_key now approvals (some row) m db
        db1 f e =
      go (Bool-cases (text_eq row.fingerprint (fingerprint_of deps r input))) e
    where
      go :
          (text_eq row.fingerprint (fingerprint_of deps r input) ≡ true)
            ⊎ (text_eq row.fingerprint (fingerprint_of deps r input) ≡ false)
          → enqueue_for deps id r input launch task pending_id dispatch_key now approvals
              (some row)
              db
            ≡ done (m, db1)
          → Enqueued id r input launch task pending_id dispatch_key now approvals m db db1
      go (inl t) e = known row f t (ground (arith, e)) (ground (arith, e))
      go (inr t) e = absurd (ground (arith, e))
  enqueue_for-Enqueued id r input launch task pending_id dispatch_key now approvals none m db db1 f
        e =
      go (Bool-cases (is_set task.instructions && not (is_set input.instructions))) e
    where
      go :
          ((is_set task.instructions && not (is_set input.instructions)) ≡ true)
            ⊎ ((is_set task.instructions && not (is_set input.instructions)) ≡ false)
          → enqueue_for deps id r input launch task pending_id dispatch_key now approvals none db
            ≡ done (m, db1)
          → Enqueued id r input launch task pending_id dispatch_key now approvals m db db1
      go (inl t) e = absurd (ground (arith, e))
      go (inr t) e = admitted f (
          admit-Admitted id r input launch task pending_id dispatch_key now approvals m db db1
            (rw t at e))

  -- What an input that was taken has gone through.
  pub record Taken (id : Text) (input : ContinueTask) (pending_id dispatch_key now : Text)
      (approvals : Bool) (m : Message × Bool) (db db1 : Db W) : Type 0 where
    pub r : Text
    pub task : Task
    pub launch : Option LaunchOptions
    pub root : root deps id db ≡ done r
    pub latest : latest deps r db ≡ done task
    pub launched : launch_of deps input task ≡ done launch
    pub how : Enqueued id r input launch task pending_id dispatch_key now approvals m db db1

  pub enqueue-Taken :
      (id : Text) (input : ContinueTask) (pending_id dispatch_key now : Text) (approvals : Bool)
      (m : Message × Bool) (db db1 : Db W)
      → enqueue_pending deps id input pending_id dispatch_key now approvals db ≡ done (m, db1)
      → Taken id input pending_id dispatch_key now approvals m db db1
  unfolding enqueue_pending
  enqueue-Taken id input pending_id dispatch_key now approvals m db db1 e =
      let (r, k0, e0) = bind-done (root deps id db) _ (m, db1) e in
      let (task, k1, e1) = bind-done (latest deps r db) _ (m, db1) e0 in
      let (launch, k2, e2) = bind-done (launch_of deps input task) _ (m, db1) e1 in
      record {
        r = r;
        task = task;
        launch = launch;
        root = k0;
        latest = k1;
        launched = k2;
        how =
            enqueue_for-Enqueued id r input launch task pending_id dispatch_key now approvals
              (find (same_key input.idempotency_key) db.messages) m db db1 refl e2;
      }
