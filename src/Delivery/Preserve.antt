-- ===== src/Delivery/Preserve.antt =====
-- What the operations of src/infrastructure/sqlite/pending-database.ts keep.
use codevo_runner.Delivery.Admission.{admitted}
use codevo_runner.Delivery.Admission.{known}
use codevo_runner.Delivery.Admission.{Enqueued, enqueue-Taken}
use codevo_runner.Prelude.{
  ◌≡◌, refl, sym, ap, ◌∙◌, ◌⊎◌, inl, inr, Bool, true, false, Option, none, some, List, [], ◌∷◌,
  ◌++◌, arith, Bool-cases, any, find, Text, text_eq, eq_of_text_eq,
}
use codevo_runner.Contracts.{conflict}
use codevo_runner.Delivery.Promotion.{promote_pending}
use codevo_runner.Delivery.{
  Task, ContinueTask, Status, Message, Queue, Row, SteerRow, Db, Dependencies, is_queued,
  is_dispatched, root_of, is_claimed, due, set_payload, queued, paused, uncertain, dispatched,
  cancelled,
}
use codevo_runner.Delivery.Oldest.{sent, shown-id, Handed, promote_oldest}
use codevo_runner.Launch.{LaunchOptions}
use codevo_runner.Delivery.Rows.{lookup-find, find-true}
use mathlib.Core.Path.{subst}
use codevo_runner.Sqlite.{require, bind-done, done}
use codevo_runner.Delivery.Pending.{
  shown, collides, is_message, root, latest, list_pending, fingerprint_of, new_row, insert_message,
  new_message, open_queue, enqueue_pending, remove_row, remove_pending, resumed, resume_pending,
  pause_task,
}
use codevo_runner.Delivery.Claims.{Inv, Good, unchanged, append-Good, write-Good}

-- The tables after a call, which may have left them alone.
abbrev pub Fine : {W : Type 0} → Db W → Db W → Type 0
Fine db db1 = Good db.messages db1.messages db1.steering

abbrev pub IsValid : {W : Type 0} → Db W → Type 0
IsValid db = Inv db.messages db.steering

shown-dispatched :
    (steering : List SteerRow) (qs : List Queue) (m : Message)
    → is_dispatched (shown steering qs m).status ≡ is_dispatched m.status
unfolding shown
shown-dispatched steering qs m = go m.status refl
  where
    go :
        (s : Status)
        → m.status ≡ s
        → is_dispatched (shown steering qs m).status ≡ is_dispatched m.status
    go queued e = ground arith
    go paused e = ground arith
    go uncertain e = ground arith
    go dispatched e = ground arith
    go cancelled e = ground arith

pub queued-not_dispatched : (s : Status) → is_queued s ≡ true → is_dispatched s ≡ false
queued-not_dispatched queued q = refl
queued-not_dispatched paused q = refl
queued-not_dispatched uncertain q = refl
queued-not_dispatched dispatched q = cc
queued-not_dispatched cancelled q = refl

module _ {W : Type 0} (deps : Dependencies W) where
  insert_message-Fine :
      (key print dispatch_key : Text) (approvals : Bool) (m : Message) (db db1 : Db W)
      → insert_message deps key print dispatch_key approvals m db ≡ done db1
      → IsValid db
      → Fine db db1
  unfolding insert_message
  insert_message-Fine key print dispatch_key approvals m db db1 e h = go (Bool-cases taken) e
    where
      taken : Bool
      taken = any (λ row. collides m.id key dispatch_key row) db.messages

      fresh :
          (rows : List Row)
          → any (λ row. collides m.id key dispatch_key row) rows ≡ false
          → any (λ q. text_eq q.id m.id) rows ≡ false
      fresh [] n = refl
      fresh (r ∷ rows) n = ground (arith, fresh rows)

      go :
          (taken ≡ true) ⊎ (taken ≡ false)
          → insert_message deps key print dispatch_key approvals m db ≡ done db1
          → Fine db db1
      go (inl t) e = ground arith
      go (inr t) e =
          let row : Row = new_row deps key print dispatch_key approvals m db in
          let e1 : db1.messages ≡ db.messages ++ row ∷ [] = ground (arith, e) in
          let e2 : db1.steering ≡ db.steering = ground (arith, e) in
          rw (e1, e2) (append-Good db.messages db.steering row (fresh db.messages t) refl h)

  -- A row that a query finds is written.
  pub write_row :
      (rows : List Row) (steering : List SteerRow) (p : Row → Bool) (row : Row) (m : Message)
      → find p rows ≡ some row
      → m.id ≡ row.payload.id
      → is_dispatched row.payload.status ≡ false
      → (is_dispatched m.status ≡ false) ⊎ (is_claimed steering row.id ≡ false)
      → Inv rows steering
      → Good rows (set_payload m m.id rows) steering
  write_row rows steering p row m f i d c h =
      let (l, j) = lookup-find p rows row f h.unique in
      let k : m.id ≡ row.id = i ∙ j in
      write-Good rows steering m row.payload (rw k l) d
        (subst (λ i. (is_dispatched m.status ≡ false) ⊎ (is_claimed steering i ≡ false)) (sym k) c)
        h

  remove_row-Fine :
      (pending_id r : Text) (o : Option Row) (m : Message) (db db1 : Db W)
      → find (is_message pending_id r) db.messages ≡ o
      → remove_row deps pending_id o db ≡ done (m, db1)
      → IsValid db
      → Fine db db1
  unfolding remove_row
  remove_row-Fine pending_id r none m db db1 f e h = cc
  remove_row-Fine pending_id r (some row) m db db1 f e h =
      go (Bool-cases (is_dispatched row.payload.status)) e
    where
      seen : Message
      seen = shown db.steering db.queues row.payload

      gone : Message
      gone = record seen { status = cancelled }

      go :
          (is_dispatched row.payload.status ≡ true) ⊎ (is_dispatched row.payload.status ≡ false)
          → remove_row deps pending_id (some row) db ≡ done (m, db1)
          → Fine db db1
      go (inl t) e =
          let t1 : is_dispatched seen.status ≡ true =
            shown-dispatched db.steering db.queues row.payload ∙ t in
          ground arith
      go (inr t) e =
          let t1 : is_dispatched seen.status ≡ false =
            shown-dispatched db.steering db.queues row.payload ∙ t in
          let hit : is_message pending_id r row ≡ true =
            find-true (is_message pending_id r) db.messages row f in
          let i : gone.id ≡ row.payload.id = shown-id db.steering db.queues row.payload in
          let j : row.id ≡ pending_id = eq_of_text_eq row.id pending_id (ground arith) in
          let k : pending_id ≡ gone.id =
            sym (i ∙ (lookup-find (is_message pending_id r) db.messages row f h.unique).1 ∙ j) in
          let e1 : db1.messages ≡ set_payload gone pending_id db.messages = ground (arith, e) in
          let e2 : db1.steering ≡ db.steering = ground (arith, e) in
          rw (e1, e2, k)
            (write_row db.messages db.steering (is_message pending_id r) row gone f i t (inl refl)
              h)

  pub remove-Fine :
      (id pending_id : Text) (m : Message) (db db1 : Db W)
      → remove_pending deps id pending_id db ≡ done (m, db1)
      → IsValid db
      → Fine db db1
  unfolding remove_pending
  remove-Fine id pending_id m db db1 e h =
      let (task, e0, e1) = bind-done (deps.get_task db.world id) _ (m, db1) e in
      remove_row-Fine pending_id (root_of task)
        (find (is_message pending_id (root_of task)) db.messages) m db db1 refl e1 h

  pub same-Fine :
      (db db1 : Db W)
      → db1.messages ≡ db.messages
      → db1.steering ≡ db.steering
      → IsValid db
      → Fine db db1
  same-Fine db db1 e f h = rw (e, f) (unchanged h)

  pub enqueue-Fine :
      (id : Text) (input : ContinueTask) (pending_id dispatch_key now : Text) (approvals : Bool)
      (m : Message × Bool) (db db1 : Db W)
      → enqueue_pending deps id input pending_id dispatch_key now approvals db ≡ done (m, db1)
      → IsValid db
      → Fine db db1
  enqueue-Fine id input pending_id dispatch_key now approvals m db db1 e h =
      let t = enqueue-Taken deps id input pending_id dispatch_key now approvals m db db1 e in
      go t.r t.launch t.task t.how
    where
      go :
          (r : Text) (launch : Option LaunchOptions) (task : Task)
          → Enqueued deps id r input launch task pending_id dispatch_key now approvals m db db1
          → Fine db db1
      go r launch task (known row f t k c) =
          same-Fine db db1 (ap (λ d. d.messages) k) (ap (λ d. d.steering) k) h
      go r launch task (admitted f a) =
          insert_message-Fine input.idempotency_key (fingerprint_of deps r input) dispatch_key
            approvals (new_message deps r input launch pending_id now) (open_queue deps r task db)
            db1 a.inserted h

  pub resume-Fine :
      (id : Text) (listed : List Message) (db db1 : Db W)
      → resume_pending deps id db ≡ done (listed, db1)
      → IsValid db
      → Fine db db1
  unfolding resume_pending
  resume-Fine id listed db db1 e h =
      let (r, k0, e0) = bind-done (root deps id db) _ (listed, db1) e in
      let (task, k1, e1) = bind-done (latest deps r db) _ (listed, db1) e0 in
      let (b, k2, e2) = bind-done (deps.resume_available db.world task.id) _ (listed, db1) e1 in
      let (u, k3, e3) = bind-done (require b conflict) _ (listed, db1) e2 in
      let (l, k4, e4) = bind-done (list_pending deps id (resumed deps r db)) _ (listed, db1) e3 in
      same-Fine db db1 (ground (arith, e4)) (ground (arith, e4)) h

  pub pause-Fine :
      (id : Text) (db db1 : Db W) → pause_task deps id db ≡ done db1 → IsValid db → Fine db db1
  unfolding pause_task
  pause-Fine id db db1 e h =
      let (task, k0, e0) = bind-done (deps.get_task db.world id) _ db1 e in
      same-Fine db db1 (ground (arith, e0)) (ground (arith, e0)) h

  pub promote-Fine :
      (t : Option Task) (db db1 : Db W)
      → promote_pending deps db ≡ done (t, db1)
      → IsValid db
      → Fine db db1
  promote-Fine t db db1 e h = go t (promote_oldest deps t db db1 e)
    where
      go : (t : Option Task) → Handed deps db.queues t db db1 → Fine db db1
      go none k = same-Fine db db1 k.0 k.1 h
      go (some made) k =
          let hit : due db.steering k.root k.row ≡ true =
            find-true (due db.steering k.root) db.messages k.row k.oldest in
          rw (k.messages, k.steering)
            (write_row db.messages db.steering (due db.steering k.root) k.row
              (sent k.row.payload made) k.oldest refl
              (queued-not_dispatched k.row.payload.status (ground arith)) (inr (ground arith)) h)
