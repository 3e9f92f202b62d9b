-- ===== src/Delivery/Oldest.antt =====
-- What `promotePending` of src/infrastructure/sqlite/pending-database.ts turns into a turn.
use codevo_runner.Delivery.Pending.{latest}
use codevo_runner.Delivery.Pending.{shown, stop_queue, pause_task}
use codevo_runner.Prelude.{
  ℕ, zero, suc, ◌≡◌, refl, sym, ap, ◌∙◌, ◌⊎◌, inl, inr, Bool, true, false, not, ◌&&◌, Option, none,
  some, List, [], ◌∷◌, map, arith, ltb, if◌then◌else◌, Bool-cases, take, any, All, Text, text_eq,
  text_eq_refl,
}
use codevo_runner.Sqlite.{Outcome, ◌>>=◌, bind-done, done, failed}
use codevo_runner.Delivery.{
  Task, Message, Queue, Row, SteerRow, Db, Dependencies, retained, root_of, first_due, set_payload,
  dispatched,
}
use codevo_runner.Delivery.Promotion.{
  is_active, insert_queue, due_queues, pauses, Promoted, finish, input_of, hand_over, may_resume,
  promote_if, promote_one, promote_all, promote_pending,
}

abbrev pub sent : Message → Task → Message
sent m made = record m { status = dispatched; task_id = some made.id }

-- A message is shown with its own contents.
shown-sent :
    (steering : List SteerRow) (queues : List Queue) (m : Message) (made : Task)
    → sent (shown steering queues m) made ≡ sent m made
unfolding shown
shown-sent steering queues m made = ground arith

pub shown-id :
    (steering : List SteerRow) (queues : List Queue) (m : Message)
    → (shown steering queues m).id ≡ m.id
unfolding shown
shown-id steering queues m = ground arith

abbrev pub is_open : List Queue → Text → Bool
is_open queues root = any (λ q. text_eq q.root_id root && not q.paused) queues

module _ {W : Type 0} (deps : Dependencies W) where
  shown-input :
      (steering : List SteerRow) (queues : List Queue) (row : Row)
      → input_of deps row (shown steering queues row.payload) ≡ input_of deps row row.payload
  unfolding shown
  shown-input steering queues row = ground arith

  -- The message of `row` has become the turn `made`, and no other message has changed.
  pub record HandedOver (queues : List Queue) (made : Task) (db db1 : Db W) : Type 0 where
    pub root : Text
    pub task : Task
    pub row : Row
    pub unpaused : is_open queues root ≡ true
    pub latest : latest deps root db ≡ done task
    pub finished : is_active task.status ≡ false
    pub oldest : first_due db.steering root db.messages ≡ some row
    pub continued :
        deps.continue_task db.world task.id (input_of deps row row.payload) row.approvals
        ≡ done (made, db1.world)
    pub messages : db1.messages ≡ set_payload (sent row.payload made) row.payload.id db.messages
    pub steering : db1.steering ≡ db.steering

  abbrev pub Handed : List Queue → Option Task → Db W → Db W → Type 0
  Handed queues none db db1 = (db1.messages ≡ db.messages) × (db1.steering ≡ db.steering)
  Handed queues (some made) db db1 = HandedOver queues made db db1

  -- What the remaining passes do, from any state that differs in the queues.
  abbrev Rest : List Queue → Option Task → Db W → (Db W → Promoted deps) → Db W → Type 0
  Rest queues t db1 rest db =
      (qs : List Queue) → rest (record db { queues = qs }) ≡ done (t, db1) → Handed queues t db db1

  paused-Handed :
      (queues : List Queue) (t : Option Task) (id : Text) (rest : Db W → Promoted deps)
      (db db1 : Db W)
      → Rest queues t db1 rest db
      → (pause_task deps id db >>= rest) ≡ done (t, db1)
      → Handed queues t db db1
  unfolding pause_task
  paused-Handed queues t id rest db db1 r e =
      let (db2, e0, e1) = bind-done (pause_task deps id db) rest (t, db1) e in
      let (task, e2, e3) = bind-done (deps.get_task db.world id) _ db2 e0 in
      let same : record db { queues = stop_queue (root_of task) db.queues } ≡ db2 =
        ground (arith, e3) in
      r (stop_queue (root_of task) db.queues) (rw same e1)

  finish-Handed :
      (queues : List Queue) (t : Option Task) (root : Text) (task : Task) (row : Row)
      (o : Outcome (Task × W)) (rest : Db W → Promoted deps) (db db1 : Db W)
      → deps.continue_task db.world task.id
          (input_of deps row (shown db.steering db.queues row.payload))
          row.approvals
        ≡ o
      → is_open queues root ≡ true
      → latest deps root db ≡ done task
      → is_active task.status ≡ false
      → first_due db.steering root db.messages ≡ some row
      → Rest queues t db1 rest db
      → finish deps row (shown db.steering db.queues row.payload) task o rest db ≡ done (t, db1)
      → Handed queues t db db1
  unfolding finish
  finish-Handed queues t root task row (failed x) rest db db1 c p l a f r e =
      go (Bool-cases (pauses deps x))
    where
      go : (pauses deps x ≡ true) ⊎ (pauses deps x ≡ false) → Handed queues t db db1
      go (inl k) = paused-Handed queues t task.id rest db db1 r (ground (arith, e))
      go (inr k) = ground arith
  finish-Handed queues none root task row (done made) rest db db1 c p l a f r e = ground arith
  finish-Handed queues (some t) root task row (done (made, w)) rest db db1 c p l a f r e =
      let seen : Message = shown db.steering db.queues row.payload in
      let m1 : made ≡ t = ground (arith, e) in
      let w1 : w ≡ db1.world = ground (arith, e) in
      let e1 : db1.messages ≡ set_payload (sent seen made) seen.id db.messages =
        ground (arith, e) in
      record {
        root = root;
        task = task;
        row = row;
        unpaused = p;
        latest = l;
        finished = a;
        oldest = f;
        continued =
            ap (λ i. deps.continue_task db.world task.id i row.approvals)
              (sym (shown-input db.steering db.queues row))
            ∙ c
            ∙ ap (λ m. done (m, w)) m1
            ∙ ap (λ v. done (t, v)) w1;
        messages =
            e1
            ∙ ap (λ i. set_payload (sent seen made) i db.messages)
                (shown-id db.steering db.queues row.payload)
            ∙ ap (λ m. set_payload m row.payload.id db.messages)
                (shown-sent db.steering db.queues row.payload made)
            ∙ ap (λ k. set_payload (sent row.payload k) row.payload.id db.messages) m1;
        steering = ground (arith, e);
      }

  hand_over-Handed :
      (queues : List Queue) (t : Option Task) (root : Text) (task : Task) (o : Option Row)
      (rest : Db W → Promoted deps) (db db1 : Db W)
      → first_due db.steering root db.messages ≡ o
      → is_open queues root ≡ true
      → latest deps root db ≡ done task
      → is_active task.status ≡ false
      → Rest queues t db1 rest db
      → hand_over deps task o rest db ≡ done (t, db1)
      → Handed queues t db db1
  unfolding hand_over
  hand_over-Handed queues t root task none rest db db1 f p l a r e = ground arith
  hand_over-Handed queues t root task (some row) rest db db1 f p l a r e =
      finish-Handed queues t root task row
        (deps.continue_task db.world task.id
          (input_of deps row (shown db.steering db.queues row.payload)) row.approvals)
        rest db db1 refl p l a f r e

  promote_if-Handed :
      (queues : List Queue) (t : Option Task) (b : Bool) (q : Queue) (task : Task)
      (rest : Db W → Promoted deps) (db db1 : Db W)
      → is_open queues q.root_id ≡ true
      → latest deps q.root_id db ≡ done task
      → is_active task.status ≡ false
      → Rest queues t db1 rest db
      → promote_if deps b q task rest db ≡ done (t, db1)
      → Handed queues t db db1
  unfolding promote_if
  promote_if-Handed queues t false q task rest db db1 p l a r e =
      paused-Handed queues t task.id rest db db1 r e
  promote_if-Handed queues t true q task rest db db1 p l a r e =
      hand_over-Handed queues t q.root_id task (first_due db.steering q.root_id db.messages) rest db
        db1 refl p l a r e

  promote_one-Handed :
      (queues : List Queue) (t : Option Task) (q : Queue) (rest : Db W → Promoted deps)
      (db db1 : Db W)
      → is_open queues q.root_id ≡ true
      → Rest queues t db1 rest db
      → promote_one deps q rest db ≡ done (t, db1)
      → Handed queues t db db1
  unfolding promote_one
  promote_one-Handed queues t q rest db db1 p r e =
      let (task, l, e1) = bind-done (latest deps q.root_id db) _ (t, db1) e in
      go task l (Bool-cases (is_active task.status)) e1
    where
      go :
          (task : Task)
          → latest deps q.root_id db ≡ done task
          → (is_active task.status ≡ true) ⊎ (is_active task.status ≡ false)
          → elim (is_active task.status) [
            | true ↦ rest db
            | false ↦ may_resume deps q task db >>= λ b. promote_if deps b q task rest db
          ]
            ≡ done (t, db1)
          → Handed queues t db db1
      go task l (inl k) e = r db.queues (ground (arith, e))
      go task l (inr k) e =
          let e1 : (may_resume deps q task db >>= λ b. promote_if deps b q task rest db)
              ≡ done (t, db1) =
            rw k at e in
          let (b, e2, e3) = bind-done (may_resume deps q task db) _ (t, db1) e1 in
          promote_if-Handed queues t b q task rest db db1 p l k r e3

  abbrev Open : List Queue → Queue → Type 0
  Open queues q = is_open queues q.root_id ≡ true

  -- Which queues are paused by now does not matter.
  Handed-queues :
      (queues : List Queue) (t : Option Task) (qs : List Queue) (db db1 : Db W)
      → Handed queues t (record db { queues = qs }) db1
      → Handed queues t db db1
  Handed-queues queues none qs db db1 h = h
  Handed-queues queues (some t) qs db db1 h = record {
    root = h.root;
    task = h.task;
    row = h.row;
    unpaused = h.unpaused;
    latest = h.latest;
    finished = h.finished;
    oldest = h.oldest;
    continued = h.continued;
    messages = h.messages;
    steering = h.steering;
  }

  promote_all-Handed :
      (queues : List Queue) (t : Option Task) (qs : List Queue) (db db1 : Db W)
      → All (Open queues) qs
      → promote_all deps qs db ≡ done (t, db1)
      → Handed queues t db db1
  unfolding promote_all
  promote_all-Handed queues none [] db db1 h e = (ground (arith, e), ground (arith, e))
  promote_all-Handed queues (some t) [] db db1 h e = ground arith
  promote_all-Handed queues t (q ∷ qs) db db1 h e =
      promote_one-Handed queues t q (λ d. promote_all deps qs d) db db1 h.0
        (λ ps f.
          Handed-queues queues t ps db db1
            (promote_all-Handed queues t qs (record db { queues = ps }) db1 h.1 f))
        e

  insert-Open :
      (P : ℕ × Queue → Type 0) (q : ℕ × Queue) (ps : List (ℕ × Queue))
      → P q
      → All P ps
      → All P (insert_queue deps q ps)
  insert-Open P q [] k h = (k, tt)
  insert-Open P q (p ∷ ps) k h = go (ltb q.0 p.0) (insert-Open P q ps k h.1)
    where
      go :
          (b : Bool)
          → All P (insert_queue deps q ps)
          → All P (if b then q ∷ p ∷ ps else p ∷ insert_queue deps q ps)
      go true i = (k, h)
      go false i = (h.0, i)

  due-Open :
      (queues : List Queue) (db : Db W) (qs : List Queue)
      → ((q : Queue)
          → any (λ x. text_eq x.root_id q.root_id && not x.paused) qs ≡ true
          → Open queues q)
      → All (λ p. Open queues p.1) (due_queues deps db qs)
  due-Open queues db [] f = tt
  due-Open queues db (q ∷ qs) f =
      go q.paused refl (first_due db.steering q.root_id db.messages)
        (due-Open queues db qs (λ x k. f x (ground (arith, k))))
    where
      go :
          (b : Bool)
          → q.paused ≡ b
          → (o : Option Row) → All (λ p. Open queues p.1) (due_queues deps db qs)
          → All
              (λ p. Open queues p.1)
              (if b then due_queues deps db qs else elim o [
                | none ↦ due_queues deps db qs
                | some row ↦ insert_queue deps (row.sequence, q) (due_queues deps db qs)
              ])
      go true e o h = h
      go false e none h = h
      go false e (some row) h =
          insert-Open (λ p. Open queues p.1) (row.sequence, q) (due_queues deps db qs)
            (f q (ground (arith, text_eq_refl q.root_id))) h

  taken-Open :
      (queues : List Queue) (n : ℕ) (ps : List (ℕ × Queue))
      → All (λ p. Open queues p.1) ps
      → All (Open queues) (map (λ p. p.1) (take n ps))
  taken-Open queues zero ps h = tt
  taken-Open queues (suc n) [] h = tt
  taken-Open queues (suc n) (p ∷ ps) h = (h.0, taken-Open queues n ps h.1)

  -- If a promotion makes a turn, it does so by `continueTask` with the contents of one message: the
  -- oldest of a conversation that is queued and not claimed, where the conversation's queue is not
  -- paused and its latest turn neither waits nor runs. That message, and no other, is marked as
  -- dispatched to the turn. If it makes none, no message changes.
  pub promote_oldest :
      (t : Option Task) (db db1 : Db W)
      → promote_pending deps db ≡ done (t, db1)
      → Handed db.queues t db db1
  unfolding promote_pending
  promote_oldest t db db1 e =
      promote_all-Handed db.queues t (map (λ p. p.1) (take retained (due_queues deps db db.queues)))
        db db1
        (taken-Open db.queues retained (due_queues deps db db.queues)
          (due-Open db.queues db db.queues (λ q k. k)))
        e
