-- ===== src/Delivery/Once.antt =====
-- The message tables of src/infrastructure/sqlite: a message that has been dispatched stays as it is,
-- whatever is called.
use mathlib.Core.Path.{subst}
use codevo_runner.Prelude.{
  ◌≡◌, refl, sym, ap, ◌∙◌, ◌⊎◌, inl, inr, Bool, true, false, not, ◌&&◌, Option, none, some, List,
  [], ◌∷◌, arith, if◌then◌else◌, Bool-cases, find, keep, Text, text_eq, eq_of_text_eq,
}
use codevo_runner.Sqlite.{Outcome, after, bind-done, done, failed}
use codevo_runner.Delivery.{Message, Row, SteerRow, Db, Dependencies, set_payload, dispatched}
use codevo_runner.Delivery.Pending.{
  enqueue_pending, remove_pending, resume_pending, pause_task, pause_outstanding,
}
use codevo_runner.Delivery.Promotion.{promote_pending}
use codevo_runner.Delivery.Steering.{SteerReceipt, claim_steer, claim_pending_steer}
use codevo_runner.Delivery.Settling.{
  is_claim, set_accepted, release_row, release_steer, deliver_row, deliver, accept_row,
  accept_steer,
}
use codevo_runner.Delivery.Rows.{lookup, lookup-find, find-true}
use codevo_runner.Delivery.Claims.{Inv, unchanged, keep-Good}
use codevo_runner.Delivery.Accepted.{written, accept_input-Good, accept_message-Good}
use codevo_runner.Delivery.Preserve.{
  Fine, IsValid, remove-Fine, same-Fine, enqueue-Fine, resume-Fine, pause-Fine, promote-Fine,
}
use codevo_runner.Delivery.Steered.{claim_steer-Fine, claim_pending-Fine}
use codevo_runner.Delivery.Calls.{
  Op, empty, next, step, run, enqueue, remove, resume, pause, pause_all, promote, claim_input,
  claim_message, release, accept, elsewhere,
}

module _ {W : Type 0} (deps : Dependencies W) where
  release-Fine :
      (id message_id : Text) (u : Unit {0}) (db db1 : Db W)
      → release_steer deps id message_id db ≡ done (u, db1)
      → IsValid db
      → Fine db db1
  unfolding release_steer release_row
  release-Fine id message_id u db db1 e h = go (find (is_claim id message_id) db.steering) e
    where
      go : (o : Option SteerRow) → release_row deps id message_id o db ≡ done (u, db1) → Fine db db1
      go none e = same-Fine deps db db1 (ground (arith, e)) (ground (arith, e)) h
      go (some s) e = part (Bool-cases s.accepted) e
        where
          q : SteerRow → Bool
          q r = not (is_claim id message_id r && not r.accepted)

          part :
              (s.accepted ≡ true) ⊎ (s.accepted ≡ false)
              → release_row deps id message_id (some s) db ≡ done (u, db1)
              → Fine db db1
          part (inl t) e = absurd (ground arith)
          part (inr t) e =
              let e1 : db1.messages ≡ db.messages = ground (arith, e) in
              let e2 : db1.steering ≡ keep q db.steering = ground (arith, e) in
              rw (e1, e2) (keep-Good db.messages db.steering q h)

  -- The message of an accepted claim is written.
  deliver_row-Fine :
      (id p : Text) (s : SteerRow) (o : Option Row) (db db1 : Db W) (w : W)
      → find (is_claim id s.id) db.steering ≡ some s
      → s.pending_id ≡ some p
      → find (λ row. text_eq row.id p) db.messages ≡ o
      → deliver_row deps id o (record db { world = w; steering = set_accepted s.id db.steering })
        ≡ done db1
      → IsValid db
      → Fine db db1
  unfolding deliver_row
  deliver_row-Fine id p s none db db1 w f i g e h = absurd (ground arith)
  deliver_row-Fine id p s (some row) db db1 w f i g e h =
      let (l, j) = lookup-find (λ row. text_eq row.id p) db.messages row g h.unique in
      let hit : is_claim id s.id s ≡ true = find-true (is_claim id s.id) db.steering s f in
      let mine : s.task_id ≡ id = eq_of_text_eq s.task_id id (ground arith) in
      let own : row.id ≡ p =
        eq_of_text_eq row.id p (find-true (λ row. text_eq row.id p) db.messages row g) in
      let e1 : db1.messages ≡ set_payload (written row.payload id) row.payload.id db.messages =
        ground (arith, e) in
      let e2 : db1.steering ≡ set_accepted s.id db.steering = ground (arith, e) in
      rw (e1, e2)
        (accept_message-Good db.messages id s db.steering row.payload f mine
          (i ∙ ap some (sym (j ∙ own))) (ap (λ i. lookup i db.messages) j ∙ l) h)

  deliver-Fine :
      (id : Text) (s : SteerRow) (p : Option Text) (db db1 : Db W) (w : W)
      → find (is_claim id s.id) db.steering ≡ some s
      → s.pending_id ≡ p
      → deliver deps id p (record db { world = w; steering = set_accepted s.id db.steering })
        ≡ done db1
      → IsValid db
      → Fine db db1
  unfolding deliver
  deliver-Fine id s none db db1 w f i e h =
      let e1 : db1.messages ≡ db.messages = ground (arith, e) in
      let e2 : db1.steering ≡ set_accepted s.id db.steering = ground (arith, e) in
      rw (e1, e2) (accept_input-Good db.messages id s db.steering f i h)
  deliver-Fine id s (some p) db db1 w f i e h =
      deliver_row-Fine id p s (find (λ row. text_eq row.id p) db.messages) db db1 w f i refl e h

  accept_row-Fine :
      (id message_id : Text) (o : Option SteerRow) (r : SteerReceipt) (db db1 : Db W)
      → find (is_claim id message_id) db.steering ≡ o
      → accept_row deps id message_id o db ≡ done (r, db1)
      → IsValid db
      → Fine db db1
  unfolding accept_row
  accept_row-Fine id message_id none r db db1 f e h = absurd (ground arith)
  accept_row-Fine id message_id (some s) r db db1 f e h =
      let hit : is_claim id message_id s ≡ true =
        find-true (is_claim id message_id) db.steering s f in
      let same : message_id ≡ s.id = sym (eq_of_text_eq s.id message_id (ground arith)) in
      let w : W =
        if s.accepted then db.world else deps.input_event db.world id message_id s.parts in
      let (db2, k0, e0) =
        bind-done
          (deliver deps id s.pending_id
            (record db { world = w; steering = set_accepted message_id db.steering }))
          _ (r, db1) e in
      let e1 : db2 ≡ db1 = ground (arith, e0) in
      subst (λ d. Fine db d) e1
        (deliver-Fine id s s.pending_id db db2 w
          (ap (λ i. find (is_claim id i) db.steering) (sym same) ∙ f) refl
          (ap
              (λ i.
                deliver deps id s.pending_id
                  (record db { world = w; steering = set_accepted i db.steering }))
              (sym same)
            ∙ k0)
          h)

  after-Fine :
      {A : Type 0} (o : Outcome (A × Db W)) (db : Db W)
      → ((a : A) (db1 : Db W) → o ≡ done (a, db1) → Fine db db1)
      → IsValid db
      → Fine db (after o db)
  unfolding after
  after-Fine (done (a, db1)) db f h = f a db1 refl
  after-Fine (failed x) db f h = unchanged h

  next-Fine :
      (o : Outcome (Db W)) (db : Db W)
      → ((db1 : Db W) → o ≡ done db1 → Fine db db1)
      → IsValid db
      → Fine db (next o db)
  next-Fine (done db1) db f h = f db1 refl
  next-Fine (failed x) db f h = unchanged h

  step-Fine : (op : Op W) (db : Db W) → IsValid db → Fine db (step deps op db)
  unfolding step accept_steer
  step-Fine (enqueue id input pending_id dispatch_key now approvals) db h =
      after-Fine (enqueue_pending deps id input pending_id dispatch_key now approvals db) db
        (λ m db1 e. enqueue-Fine deps id input pending_id dispatch_key now approvals m db db1 e h) h
  step-Fine (remove id pending_id) db h =
      after-Fine (remove_pending deps id pending_id db) db
        (λ m db1 e. remove-Fine deps id pending_id m db db1 e h) h
  step-Fine (resume id) db h =
      after-Fine (resume_pending deps id db) db (λ m db1 e. resume-Fine deps id m db db1 e h) h
  step-Fine (pause id) db h =
      next-Fine (pause_task deps id db) db (λ db1 e. pause-Fine deps id db db1 e h) h
  step-Fine pause_all db h = unfold pause_outstanding in unchanged h
  step-Fine promote db h =
      after-Fine (promote_pending deps db) db (λ t db1 e. promote-Fine deps t db db1 e h) h
  step-Fine (claim_input id input) db h =
      after-Fine (claim_steer deps id input db) db
        (λ c db1 e. claim_steer-Fine deps id input c db db1 e h) h
  step-Fine (claim_message id p) db h =
      after-Fine (claim_pending_steer deps id p db) db
        (λ c db1 e. claim_pending-Fine deps id p c db db1 e h) h
  step-Fine (release id message_id) db h =
      after-Fine (release_steer deps id message_id db) db
        (λ u db1 e. release-Fine id message_id u db db1 e h) h
  step-Fine (accept id message_id) db h =
      after-Fine (accept_steer deps id message_id db) db
        (λ r db1 e.
          accept_row-Fine id message_id (find (is_claim id message_id) db.steering) r db db1 refl e
            h)
        h
  step-Fine (elsewhere w) db h = unchanged h

  run-Fine : (ops : List (Op W)) (db : Db W) → IsValid db → Fine db (run deps ops db)
  unfolding run
  run-Fine [] db h = unchanged h
  run-Fine (op ∷ ops) db h =
      let (valid, kept) = step-Fine op db h in
      let (valid1, kept1) = run-Fine ops (step deps op db) valid in
      (valid1, λ p m e d. kept1 p m (kept p m e d) d)

  -- From empty tables, whatever is called: ids stay unique, claims are for different messages, a
  -- claim that was accepted is for a message that was dispatched to the claim's task, and one that
  -- was not is for a message that has not been dispatched.
  pub delivery_run-Inv :
      (w : W) (ops : List (Op W))
      → Inv (run deps ops (empty w)).messages (run deps ops (empty w)).steering
  delivery_run-Inv w ops =
      (run-Fine ops (empty w) (record { unique = tt; distinct = tt; claims = tt })).0

  -- Once a message has been dispatched, to a new turn or to the running one, no later sequence of
  -- calls changes its row: it is not handed over again, and its task stays what it was.
  pub dispatched_once :
      (w : W) (ops later : List (Op W)) (p : Text) (m : Message)
      → lookup p (run deps ops (empty w)).messages ≡ some m
      → m.status ≡ dispatched
      → lookup p (run deps later (run deps ops (empty w))).messages ≡ some m
  dispatched_once w ops later p m e d =
      (run-Fine later (run deps ops (empty w)) (delivery_run-Inv w ops)).1 p m e d
