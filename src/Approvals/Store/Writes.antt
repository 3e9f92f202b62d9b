-- ===== src/Approvals/Store/Writes.antt =====
-- What `createApproval` and `answerApproval` of src/infrastructure/sqlite/approval-database.ts write.
use codevo_runner.Prelude.{
  ◌<◌, ◌≡◌, refl, sym, ◌∙◌, ◌⊎◌, inl, inr, Bool, true, false, ◌&&◌, Option, none, some, List, [],
  ◌∷◌, ◌++◌, arith, ltb, if◌then◌else◌, ltb→lt, length, any, find, Text, codes, text_eq,
}
use codevo_runner.Json.{str, obj, end, field}
use codevo_runner.Sqlite.{
  ◌>>=◌, require, lift, bind-done, require-done, lift-done, other, done, failed,
}
use codevo_runner.Contracts.{invalid_input, conflict, quota_exceeded, ok}
use codevo_runner.Approvals.{
  Decision, Status, Request, parse_request, parse_answer, settled_approval, allow_once,
  allow_for_session, deny,
}
use codevo_runner.Approvals.Stored.{decision_text, print}
use codevo_runner.Approvals.Store.{
  max_pending, Row, Dependencies, is_pending, is_waiting, count, evict_settled, settle_rows, is_row,
  provider_of_task, same_provider_name, task_runs, settled_by, make_room, insert_row, store_request,
  create_approval, settle_answer, answer_row, answer_approval,
}
use codevo_runner.Delivery.{Task}

module _ (deps : Dependencies) where
  -- The rows that a new request is inserted after.
  pub record Stored (r : Request) (rows rows1 : List Row) : Type 0 where
    pub kept : List Row
    pub room :
        make_room deps
          (length (evict_settled r.task_id rows))
          r.task_id
          (deps.payload_bytes r)
          (evict_settled r.task_id rows)
        ≡ done kept
    pub absent : any (λ q. text_eq q.id r.id) kept ≡ false
    pub inserted :
        rows1
        ≡ kept ++ record { id = r.id; task_id = r.task_id; status = r.status; payload = r } ∷ []

  insert_row-done :
      (r : Request) (rows rows1 : List Row)
      → insert_row deps r rows ≡ done rows1
      → (any (λ q. text_eq q.id r.id) rows ≡ false)
        × (rows1
            ≡ rows
              ++ record { id = r.id; task_id = r.task_id; status = r.status; payload = r } ∷ [])
  unfolding insert_row
  insert_row-done r rows rows1 e = go (any (λ q. text_eq q.id r.id) rows) refl e
    where
      go :
          (b : Bool)
          → any (λ q. text_eq q.id r.id) rows ≡ b
          → (if b
              then failed other
              else done (
                  rows
                  ++ record { id = r.id; task_id = r.task_id; status = r.status; payload = r }
                    ∷ []))
            ≡ done rows1
          → (any (λ q. text_eq q.id r.id) rows ≡ false)
            × (rows1
                ≡ rows
                  ++ record { id = r.id; task_id = r.task_id; status = r.status; payload = r } ∷ [])
      go true q e = absurd (ground (arith, e))
      go false q e = (q, ground (arith, e))

  store-Stored :
      (r s : Request) (rows rows1 : List Row)
      → store_request deps r rows ≡ done (s, rows1)
      → Stored r rows rows1
  unfolding store_request
  store-Stored r s rows rows1 e =
      let (kept, k0, e0) =
        bind-done
          (make_room deps (length (evict_settled r.task_id rows)) r.task_id (deps.payload_bytes r)
            (evict_settled r.task_id rows))
          _ (s, rows1) e in
      let (u1, k1, e1) = bind-done deps.require_capacity _ (s, rows1) e0 in
      let (rows2, k2, e2) = bind-done (insert_row deps r kept) _ (s, rows1) e1 in
      let (u3, k3, e3) = bind-done deps.require_capacity _ (s, rows1) e2 in
      let same : rows2 ≡ rows1 = ground (arith, e3) in
      let (absent, inserted) = insert_row-done r kept rows2 k2 in
      record { kept = kept; room = k0; absent = absent; inserted = sym same ∙ inserted }

  pub create-Stored :
      (input s : Request) (rows rows1 : List Row)
      → create_approval deps input rows ≡ done (s, rows1)
      → (r : Request) × (parse_request (print input) ≡ ok r)
        × (is_pending r.status ≡ true)
        × (count (is_waiting r.task_id) rows < max_pending)
        × Stored r rows rows1
  unfolding create_approval
  create-Stored input s rows rows1 e =
      let (r, k0, e0) = bind-done (lift (parse_request (print input))) _ (s, rows1) e in
      let (u1, k1, e1) = bind-done (require (is_pending r.status) invalid_input) _ (s, rows1) e0 in
      let (t, k2, e2) = bind-done (deps.get_task r.task_id) _ (s, rows1) e1 in
      let (u3, k3, e3) =
        bind-done
          (require (task_runs t.status && same_provider_name (provider_of_task t) r.provider)
            conflict)
          _ (s, rows1) e2 in
      let (u4, k4, e4) =
        bind-done (require (ltb (count (is_waiting r.task_id) rows) max_pending) quota_exceeded) _
          (s, rows1) e3 in
      (
        r,
        lift-done (parse_request (print input)) r k0,
        require-done (is_pending r.status) invalid_input u1 k1,
        ltb→lt (count (is_waiting r.task_id) rows) max_pending (
            require-done (ltb (count (is_waiting r.task_id) rows) max_pending) quota_exceeded u4
              k4),
        store-Stored r s rows rows1 e4,
      )

  abbrev Settles : Text → Text → List Row → List Row → Type 0
  Settles task id rows rows1 =
      (rows1 ≡ rows)
      ⊎ ((s : Status) × (is_pending s ≡ false) × (rows1 ≡ settle_rows (is_row task id) s rows))

  settled-not_pending :
      (q : Request) (d : Decision) → is_pending (settled_approval q d).status ≡ false
  unfolding settled_approval
  settled-not_pending q allow_once = refl
  settled-not_pending q allow_for_session = refl
  settled-not_pending q deny = refl

  settle_answer-Settles :
      (task id : Text) (q r : Request) (d : Decision) (rows rows1 : List Row)
      → settle_answer deps task id q d rows ≡ done (r, rows1)
      → Settles task id rows rows1
  unfolding settle_answer
  settle_answer-Settles task id q r d rows rows1 e =
      let (u1, k1, e1) = bind-done deps.require_capacity _ (r, rows1) e in
      let (u2, k2, e2) = bind-done deps.require_capacity _ (r, rows1) e1 in
      inr ((settled_approval q d).status, settled-not_pending q d, ground (arith, e2))

  answer_row-Settles :
      (task id : Text) (input : Decision) (t : Task) (o : Option Row) (r : Request)
      (rows rows1 : List Row)
      → answer_row deps task id input t o rows ≡ done (r, rows1)
      → Settles task id rows rows1
  unfolding answer_row
  answer_row-Settles task id input t none r rows rows1 e = absurd (ground (arith, e))
  answer_row-Settles task id input t (some q) r rows rows1 e =
      let (d, k, e1) =
        bind-done
          (lift (
            parse_answer (obj (field (codes "decision") (str (decision_text input)) end))
              q.payload))
          _ (r, rows1) e in
      go d (settled_by q.payload.status d) e1
    where
      go :
          (d : Decision) (b : Bool)
          → elim b [
            | true ↦ done (q.payload, rows)
            | false ↦ require (task_runs t.status && is_pending q.payload.status) conflict >>= λ _.
                settle_answer deps task id q.payload d rows
          ]
            ≡ done (r, rows1)
          → Settles task id rows rows1
      go d true e = inl (ground (arith, e))
      go d false e =
          let (u, k, e1) =
            bind-done (require (task_runs t.status && is_pending q.payload.status) conflict) _
              (r, rows1) e in
          settle_answer-Settles task id q.payload r d rows rows1 e1

  -- An answer settles pending rows with one id, or leaves all as they are.
  pub answer-Settles :
      (task id : Text) (input : Decision) (r : Request) (rows rows1 : List Row)
      → answer_approval deps task id input rows ≡ done (r, rows1)
      → (rows1 ≡ rows)
        ⊎ ((s : Status) × (is_pending s ≡ false) × (rows1 ≡ settle_rows (is_row task id) s rows))
  unfolding answer_approval
  answer-Settles task id input r rows rows1 e =
      let (t, k0, e0) = bind-done (deps.get_task task) _ (r, rows1) e in
      answer_row-Settles task id input t (find (is_row task id) rows) r rows rows1 e0
