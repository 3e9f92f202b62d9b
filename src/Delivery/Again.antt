-- ===== src/Delivery/Again.antt =====
-- src/infrastructure/sqlite/pending-database.ts: sending an input again to `enqueuePending`, and its
-- quotas.
use codevo_runner.Delivery.Admission.{admitted}
use codevo_runner.Delivery.Admission.{known}
use codevo_runner.Delivery.Admission.{Enqueued, enqueue-Taken}
use codevo_runner.Prelude.{
  suc, ◌≤◌, ◌<◌, min, ◌≡◌, refl, ap, ◌∙◌, ◌⊎◌, inl, inr, Bool, true, false, ◌&&◌, Option, none,
  some, List, [], ◌∷◌, ◌++◌, map, arith, ltb→lt, Bool-cases, length, take, length-append,
  length-map, length-take, any, find, keep, Text, text_eq, text_eq_refl,
}
use codevo_runner.Sqlite.{◌>>=◌, done}
use codevo_runner.Launch.{LaunchOptions}
use codevo_runner.Delivery.{
  Task, ContinueTask, Message, Row, Db, Dependencies, per_conversation, retained, is_queued,
  latest_or,
}
use codevo_runner.Delivery.Pending.{
  shown, collides, same_key, root, latest, list_pending, fingerprint_of, launch_of, new_row,
  insert_message, new_message, open_queue, enqueue_for, enqueue_pending,
}

find-append :
    {A : Type 0} (p : A → Bool) (xs : List A) (x : A)
    → find p xs ≡ none
    → p x ≡ true
    → find p (xs ++ x ∷ []) ≡ some x
find-append p [] x n t = ground arith
find-append p (y ∷ xs) x n t = ground (arith, find-append p xs x)

-- The queued messages of a conversation.
abbrev pub queued_in : Text → Row → Bool
queued_in r row = text_eq row.root_id r && is_queued row.payload.status

length-keep_snoc :
    {A : Type 0} (p : A → Bool) (xs : List A) (x : A)
    → length (keep p (xs ++ x ∷ [])) ≤ suc (length (keep p xs))
length-keep_snoc p [] x = ground arith
length-keep_snoc p (y ∷ xs) x = ground (arith, length-keep_snoc p xs x)

module _ {W : Type 0} (deps : Dependencies W) where
  -- An input with a known key and the same contents.
  enqueue-known :
      (id : Text) (input : ContinueTask) (pending_id dispatch_key now : Text) (approvals : Bool)
      (db : Db W) (r : Text) (task : Task) (launch : Option LaunchOptions) (row : Row)
      → root deps id db ≡ done r
      → latest deps r db ≡ done task
      → launch_of deps input task ≡ done launch
      → find (same_key input.idempotency_key) db.messages ≡ some row
      → text_eq row.fingerprint (fingerprint_of deps r input) ≡ true
      → enqueue_pending deps id input pending_id dispatch_key now approvals db
        ≡ done ((shown db.steering db.queues row.payload, false), db)
  unfolding enqueue_pending enqueue_for
  enqueue-known id input pending_id dispatch_key now approvals db r task launch row k0 k1 k2 f t =
      rw (k0, k1, k2, f, t) refl

  inserted-known :
      (key print dispatch_key : Text) (approvals : Bool) (m : Message) (db db1 : Db W)
      → find (same_key key) db.messages ≡ none
      → insert_message deps key print dispatch_key approvals m db ≡ done db1
      → (db1.messages ≡ db.messages ++ new_row deps key print dispatch_key approvals m db ∷ [])
        × (db1.world ≡ db.world)
  unfolding insert_message
  inserted-known key print dispatch_key approvals m db db1 f e = go (Bool-cases taken) e
    where
      taken : Bool
      taken = any (λ row. collides m.id key dispatch_key row) db.messages

      go :
          (taken ≡ true) ⊎ (taken ≡ false)
          → insert_message deps key print dispatch_key approvals m db ≡ done db1
          → (db1.messages ≡ db.messages ++ new_row deps key print dispatch_key approvals m db ∷ [])
            × (db1.world ≡ db.world)
      go (inl t) e = absurd (ground (arith, e))
      go (inr t) e = (ground (arith, e), ground (arith, e))

  -- An input that was taken has its row, whose fingerprint is the input's.
  taken-known :
      (id : Text) (input : ContinueTask) (pending_id dispatch_key now : Text) (approvals : Bool)
      (m : Message × Bool) (db db1 : Db W) (r : Text) (launch : Option LaunchOptions) (task : Task)
      → Enqueued deps id r input launch task pending_id dispatch_key now approvals m db db1
      → (row : Row) × (find (same_key input.idempotency_key) db1.messages ≡ some row)
        × (text_eq row.fingerprint (fingerprint_of deps r input) ≡ true)
        × (db1.world ≡ db.world)
  taken-known id input pending_id dispatch_key now approvals m db db1 r launch task
        (known row f t k c) =
      (
        row,
        ap (λ d. find (same_key input.idempotency_key) d.messages) k ∙ f,
        t,
        ap (λ d. d.world) k,
      )
  taken-known id input pending_id dispatch_key now approvals m db db1 r launch task (admitted f a) =
      let print : Text = fingerprint_of deps r input in
      let fresh : Message = new_message deps r input launch pending_id now in
      let row : Row =
        new_row deps input.idempotency_key print dispatch_key approvals fresh
          (open_queue deps r task db) in
      let (e, w) =
        inserted-known input.idempotency_key print dispatch_key approvals fresh
          (open_queue deps r task db) db1 f a.inserted in
      (
        row,
        ap (find (same_key input.idempotency_key)) e
            ∙ find-append (same_key input.idempotency_key) db.messages row f
                (text_eq_refl input.idempotency_key),
        text_eq_refl print,
        w,
      )

  root-world :
      (id : Text) (db db1 : Db W) → db1.world ≡ db.world → root deps id db1 ≡ root deps id db
  unfolding root
  root-world id db db1 w = rw w refl

  -- An input that was taken may be sent again, with any other fresh identifiers: it changes nothing,
  -- and the answer is the message that its key has, which is not new.
  pub enqueue_again :
      (id : Text) (input : ContinueTask) (pending_id dispatch_key now : Text) (approvals : Bool)
      (m : Message × Bool) (db db1 : Db W) (pending_id1 dispatch_key1 now1 : Text)
      (approvals1 : Bool)
      → enqueue_pending deps id input pending_id dispatch_key now approvals db ≡ done (m, db1)
      → (row : Row) × (find (same_key input.idempotency_key) db1.messages ≡ some row)
        × (enqueue_pending deps id input pending_id1 dispatch_key1 now1 approvals1 db1
            ≡ done ((shown db1.steering db1.queues row.payload, false), db1))
  enqueue_again id input pending_id dispatch_key now approvals m db db1 pending_id1 dispatch_key1
        now1 approvals1 e =
      let t = enqueue-Taken deps id input pending_id dispatch_key now approvals m db db1 e in
      let (row, f, p, w) =
        taken-known id input pending_id dispatch_key now approvals m db db1 t.r t.launch t.task
          t.how in
      (
        row,
        f,
        enqueue-known id input pending_id1 dispatch_key1 now1 approvals1 db1 t.r t.task t.launch row
            (root-world id db db1 w ∙ t.root)
            (ap (λ v. deps.get_task v (latest_or deps v t.r)) w ∙ t.latest) t.launched f p,
      )

  listed-length :
      (id r : Text) (db : Db W) (listed : List Message)
      → root deps id db ≡ done r
      → list_pending deps id db ≡ done listed
      → length listed ≡ min per_conversation (length (keep (queued_in r) db.messages))
  unfolding list_pending
  listed-length id r db listed k e =
      let rows : List Row = take per_conversation (keep (queued_in r) db.messages) in
      let e1 : (root deps id db >>= λ r. done (
            map (λ row. shown db.steering db.queues row.payload)
              (take per_conversation (keep (queued_in r) db.messages))))
          ≡ done listed =
        e in
      let e2 : done (map (λ row. shown db.steering db.queues row.payload) rows) ≡ done listed =
        rw k at e1 in
      let same : listed ≡ map (λ row. shown db.steering db.queues row.payload) rows =
        ground (arith, e2) in
      rw same (
        length-map (λ row. shown db.steering db.queues row.payload) rows
        ∙ length-take per_conversation (keep (queued_in r) db.messages))

  admitted-Bounds :
      (id : Text) (input : ContinueTask) (pending_id dispatch_key now : Text) (approvals : Bool)
      (m : Message × Bool) (db db1 : Db W) (r : Text) (launch : Option LaunchOptions) (task : Task)
      → root deps id db ≡ done r
      → m.1 ≡ true
      → Enqueued deps id r input launch task pending_id dispatch_key now approvals m db db1
      → (length db1.messages ≤ retained)
        × (length (keep (queued_in r) db1.messages) ≤ per_conversation)
  admitted-Bounds id input pending_id dispatch_key now approvals m db db1 r launch task k c
        (known row f t s d) =
      absurd (ground arith)
  admitted-Bounds id input pending_id dispatch_key now approvals m db db1 r launch task k c
        (admitted f a) =
      let print : Text = fingerprint_of deps r input in
      let fresh : Message = new_message deps r input launch pending_id now in
      let row : Row =
        new_row deps input.idempotency_key print dispatch_key approvals fresh
          (open_queue deps r task db) in
      let (e, w) =
        inserted-known input.idempotency_key print dispatch_key approvals fresh
          (open_queue deps r task db) db1 f a.inserted in
      let room : length db.messages < retained = ltb→lt (length db.messages) retained a.room in
      let short : length a.listed < per_conversation =
        ltb→lt (length a.listed) per_conversation a.short in
      let many = listed-length id r db a.listed k a.list in
      rw e (
        omega (arith, length-append db.messages (row ∷ []), room),
        omega (arith, length-keep_snoc (queued_in r) db.messages row, many, short),
      )

  -- After a call that has created a message for a conversation, at most 1000 messages are stored, and
  -- at most 16 of the conversation are queued.
  pub enqueue-Bounds :
      (id : Text) (input : ContinueTask) (pending_id dispatch_key now : Text) (approvals : Bool)
      (m : Message) (db db1 : Db W)
      → enqueue_pending deps id input pending_id dispatch_key now approvals db
        ≡ done ((m, true), db1)
      → (r : Text) × (root deps id db ≡ done r)
        × (length db1.messages ≤ retained)
        × (length (keep (queued_in r) db1.messages) ≤ per_conversation)
  enqueue-Bounds id input pending_id dispatch_key now approvals m db db1 e =
      let t =
        enqueue-Taken deps id input pending_id dispatch_key now approvals (m, true) db db1 e in
      let (a, b) =
        admitted-Bounds id input pending_id dispatch_key now approvals (m, true) db db1 t.r t.launch
          t.task t.root refl t.how in
      (t.r, t.root, a, b)
