-- ===== src/Delivery/Steered.antt =====
-- What the operations of src/infrastructure/sqlite/steering-database.ts keep.
use mathlib.Core.Path.{subst}
use codevo_runner.Prelude.{
  ◌≡◌, refl, ap, ◌∙◌, ◌⊎◌, inl, inr, Bool, true, false, ◌&&◌, Option, none, some, List, [], ◌∷◌,
  ◌++◌, arith, ltb, Bool-cases, length, any, find, keep, Text, text_eq,
}
use codevo_runner.Sqlite.{◌>>=◌, require, bind-done, require-done, done}
use codevo_runner.Contracts.{ErrorCode, not_found, conflict, quota_exceeded}
use codevo_runner.Delivery.{
  Part, Task, ContinueTask, Message, Row, SteerRow, Db, Dependencies, is_queued, root_of, due,
  is_paused,
}
use codevo_runner.Delivery.Steering.{
  SteerClaim, SteerReceipt, claim, given, active, find_steer, find_pending_steer, check_parts,
  of_task, row_of, add_claim, insert, claim_new, claim_steer, give_up, wanted, same_turn, claim_row,
  claim_due, claim_again, claim_found, claim_given, claim_pending_steer,
}
use codevo_runner.Delivery.Rows.{lookup, lookup-find}
use codevo_runner.Delivery.Claims.{HasClaim, ClaimOf, collide, claim-Good}
use codevo_runner.Delivery.Preserve.{Fine, IsValid, queued-not_dispatched, same-Fine}

module _ {W : Type 0} (deps : Dependencies W) where
  insert-Fine :
      (id key : Text) (parts : List Part) (p : Option Text) (c : SteerClaim) (db db1 : Db W)
      → insert deps id key parts p db ≡ done (c, db1)
      → ClaimOf p false id db.messages
      → IsValid db
      → Fine db db1
  unfolding insert add_claim
  insert-Fine id key parts p c db db1 e k h =
      let (u0, k0, e0) = bind-done (deps.require_capacity db.world) _ (c, db1) e in
      let (u1, k1, e1) =
        bind-done
          (require
            (ltb (length db.steering) 1000 && ltb (length (keep (of_task deps id) db.steering)) 32)
            quota_exceeded)
          _ (c, db1) e0 in
      let (u2, k2, e2) = bind-done (check_parts deps parts db.world) _ (c, db1) e1 in
      let (db2, k3, e3) =
        bind-done (add_claim deps (row_of deps id key parts p) db) _ (c, db1) e2 in
      let (u4, k4, e4) = bind-done (deps.require_capacity db2.world) _ (c, db1) e3 in
      let same : db2 ≡ db1 = ground (arith, e4) in
      subst (λ d. Fine db d) same (go db2 (Bool-cases taken) k3)
    where
      s : SteerRow
      s = row_of deps id key parts p

      taken : Bool
      taken = any (collide s) db.steering

      go :
          (db2 : Db W)
          → (taken ≡ true) ⊎ (taken ≡ false)
          → add_claim deps s db ≡ done db2
          → Fine db db2
      go db2 (inl t) e = absurd (ground arith)
      go db2 (inr t) e =
          let e1 : db2.messages ≡ db.messages = ground (arith, e) in
          let e2 : db2.steering ≡ db.steering ++ s ∷ [] = ground (arith, e) in
          rw (e1, e2) (claim-Good db.messages db.steering s t k h)

  pub claim_steer-Fine :
      (id : Text) (input : ContinueTask) (c : SteerClaim) (db db1 : Db W)
      → claim_steer deps id input db ≡ done (c, db1)
      → IsValid db
      → Fine db db1
  unfolding claim_steer claim_new
  claim_steer-Fine id input c db db1 e h =
      let (o, k0, e0) = bind-done (find_steer deps id input db) _ (c, db1) e in go o e0
    where
      go : (o : Option SteerReceipt) → claim_new deps id input o db ≡ done (c, db1) → Fine db db1
      go (some r) e = same-Fine deps db db1 (ground (arith, e)) (ground (arith, e)) h
      go none e =
          let (task, k0, e0) = bind-done (active deps id db) _ (c, db1) e in
          insert-Fine id input.idempotency_key input.parts none c db db1 e0 tt h

  give_up-Fine :
      (p : Option Text) (code : ErrorCode) (c : Option SteerClaim) (db db1 : Db W)
      → give_up deps p code db ≡ done (c, db1)
      → IsValid db
      → Fine db db1
  give_up-Fine none code c db db1 e h =
      same-Fine deps db db1 (ground (arith, e)) (ground (arith, e)) h
  give_up-Fine (some p) code c db db1 e h = absurd (ground arith)

  claim_row-Fine :
      (id : Text) (p : Option Text) (q : Row → Bool) (task : Task) (o : Option Row)
      (c : Option SteerClaim) (db db1 : Db W)
      → find q db.messages ≡ o
      → claim_row deps id p task o db ≡ done (c, db1)
      → IsValid db
      → Fine db db1
  unfolding claim_row
  claim_row-Fine id p q task none c db db1 f e h = give_up-Fine p not_found c db db1 e h
  claim_row-Fine id p q task (some row) c db db1 f e h =
      let (u, k0, e0) = bind-done (require (is_queued row.payload.status) conflict) _ (c, db1) e in
      go (same_turn deps row.payload task)
        (require-done (is_queued row.payload.status) conflict u k0) e0
    where
      claimable :
          (o : Option Message)
          → o ≡ some row.payload
          → is_queued row.payload.status ≡ true
          → HasClaim o false id
      claimable none g k = absurd (ground arith)
      claimable (some m) g k =
          let same : m ≡ row.payload = ground (arith, g) in
          rw same (queued-not_dispatched row.payload.status k)

      go :
          (b : Bool)
          → is_queued row.payload.status ≡ true
          → elim b [
            | true ↦
                insert deps id row.dispatch_key row.payload.parts (some row.payload.id) db
                >>= λ made. done (some made.0, made.1)
            | false ↦ give_up deps p conflict db
          ]
            ≡ done (c, db1)
          → Fine db db1
      go false k e = give_up-Fine p conflict c db db1 e h
      go true k e =
          let (made, k1, e1) =
            bind-done (insert deps id row.dispatch_key row.payload.parts (some row.payload.id) db) _
              (c, db1) e in
          let (l, i) = lookup-find q db.messages row f h.unique in
          let same : made.1 ≡ db1 = ground (arith, e1) in
          subst (λ d. Fine db d) same
            (insert-Fine id row.dispatch_key row.payload.parts (some row.payload.id) made.0 db
              made.1 k1
              (claimable (lookup row.payload.id db.messages) (ap (λ i. lookup i db.messages) i ∙ l)
                k)
              h)

  claim_due-Fine :
      (id : Text) (p : Option Text) (c : Option SteerClaim) (db db1 : Db W)
      → claim_due deps id p db ≡ done (c, db1)
      → IsValid db
      → Fine db db1
  unfolding claim_due
  claim_due-Fine id p c db db1 e h =
      let (task, k0, e0) = bind-done (active deps id db) _ (c, db1) e in
      go task (is_paused db.queues (root_of task)) e0
    where
      row-Fine :
          (task : Task) (p : Option Text)
          → claim_row deps id p task (wanted deps p (root_of task) db) db ≡ done (c, db1)
          → Fine db db1
      row-Fine task none e =
          claim_row-Fine id none (due db.steering (root_of task)) task
            (wanted deps none (root_of task) db) c db db1 refl e h
      row-Fine task (some p) e =
          claim_row-Fine id (some p) (λ row. text_eq row.root_id (root_of task) && text_eq row.id p)
            task (wanted deps (some p) (root_of task) db) c db db1 refl e h

      go :
          (task : Task) (b : Bool)
          → elim b [
            | true ↦ give_up deps p conflict db
            | false ↦ claim_row deps id p task (wanted deps p (root_of task) db) db
          ]
            ≡ done (c, db1)
          → Fine db db1
      go task true e = give_up-Fine p conflict c db db1 e h
      go task false e = row-Fine task p e

  claim_found-Fine :
      (id p : Text) (o : Option SteerReceipt) (c : Option SteerClaim) (db db1 : Db W)
      → claim_found deps id p o db ≡ done (c, db1)
      → IsValid db
      → Fine db db1
  unfolding claim_found
  claim_found-Fine id p none c db db1 e h = claim_due-Fine id (some p) c db db1 e h
  claim_found-Fine id p (some r) c db db1 e h =
      go (find (λ s. text_eq s.id r.message_id) db.steering) e
    where
      go : (o : Option SteerRow) → claim_again deps o db ≡ done (c, db1) → Fine db db1
      go none e = absurd (ground arith)
      go (some s) e =
          let (k, k0, e0) = bind-done (claim s) _ (c, db1) e in
          same-Fine deps db db1 (ground (arith, e0)) (ground (arith, e0)) h

  claim_given-Fine :
      (id : Text) (p : Option Text) (c : Option SteerClaim) (db db1 : Db W)
      → claim_given deps id p db ≡ done (c, db1)
      → IsValid db
      → Fine db db1
  unfolding claim_given
  claim_given-Fine id none c db db1 e h = claim_due-Fine id none c db db1 e h
  claim_given-Fine id (some p) c db db1 e h =
      let (o, k0, e0) = bind-done (find_pending_steer deps id p db) _ (c, db1) e in
      claim_found-Fine id p o c db db1 e0 h

  pub claim_pending-Fine :
      (id : Text) (p : Option Text) (c : Option SteerClaim) (db db1 : Db W)
      → claim_pending_steer deps id p db ≡ done (c, db1)
      → IsValid db
      → Fine db db1
  unfolding claim_pending_steer
  claim_pending-Fine id p c db db1 e h = claim_given-Fine id (given p) c db db1 e h
