-- ===== src/Approvals/Store.antt =====
-- src/infrastructure/sqlite/approval-database.ts: `ApprovalDatabase`. Rows stand in the order of their
-- rowid. A payload is the request that was written; what is read back of it is that request. The
-- bytes that `JSON.stringify` makes of a request are a parameter.
pub mod Counts
pub mod Writes
pub mod Bounds
pub mod Evicts
pub mod Settled
use codevo_runner.Prelude.{
  ℕ, zero, suc, ◌+◌, ◌*◌, Bool, true, false, not, ◌&&◌, Option, none, some, List, [], ◌∷◌, ◌++◌,
  map, ltb, leb, if◌then◌else◌, length, take, any, find, keep, Text, codes, text_eq,
}
use codevo_runner.Json.{str, obj, end, field}
use codevo_runner.Sqlite.{Outcome, ◌>>=◌, refuse, require, lift, after, other, done, failed}
use codevo_runner.Contracts.{◌>>◌, invalid_input, not_found, conflict, quota_exceeded}
use codevo_runner.Approvals.{
  unanswered, approved, denied, Decision, Provider, Unanswered, Status, Request, same_decision,
  parse_request, parse_answer, settled_approval, deny, codex, claude_code, pending, expired,
}
use codevo_runner.Launch.{provider_claude, provider_codex}
use codevo_runner.Delivery.{TaskStatus, Task, running}
use codevo_runner.Approvals.Stored.{decision_text, print}

-- `APPROVAL_LIMITS.pending` and `.retained`.
abbrev pub max_pending : ℕ
max_pending = 16

abbrev pub max_settled : ℕ
max_settled = 32

abbrev pub listed_approvals : ℕ
listed_approvals = 48

-- `MAX_TASK_APPROVAL_BYTES`.
abbrev pub max_bytes : ℕ
max_bytes = 2097152

pub record Row : Type 0 where
  pub id : Text
  pub task_id : Text
  pub status : Status
  pub payload : Request

-- What the class is given: the task, the check of the capacity, and the size of a payload.
pub record Dependencies : Type 0 where
  pub get_task : Text → Outcome Task
  pub require_capacity : Outcome (Unit {0})
  pub payload_bytes : Request → ℕ

abbrev pub is_pending : Status → Bool
is_pending (unanswered pending) = true
is_pending _ = false

abbrev pub of_task : Text → Row → Bool
of_task task r = text_eq r.task_id task

abbrev pub is_waiting : Text → Row → Bool
is_waiting task r = text_eq r.task_id task && is_pending r.status

abbrev pub is_settled : Text → Row → Bool
is_settled task r = text_eq r.task_id task && not (is_pending r.status)

-- `count(*)`.
abbrev pub count : (Row → Bool) → List Row → ℕ
count p rows = length (keep p rows)

-- `evictSettled`: a settled row with 32 settled ones after it is deleted.
unfoldable pub evict_settled : Text → List Row → List Row
evict_settled task [] = []
evict_settled task (r ∷ rows) =
    let rest = evict_settled task rows in
    if is_settled task r && leb max_settled (count (is_settled task) rows) then rest else r ∷ rest

-- `evictOldestSettled`; `none` if nothing was deleted.
unfoldable pub evict_oldest : Text → List Row → Option (List Row)
evict_oldest task [] = none
evict_oldest task (r ∷ rows) =
    let rest = evict_oldest task rows in
    if is_settled task r then some rows else elim rest [ none ↦ none | some kept ↦ some (r ∷ kept) ]

-- `UPDATE ... SET status, payload`, of the pending rows that are meant.
unfoldable pub settle_rows : (Row → Bool) → Status → List Row → List Row
settle_rows p s [] = []
settle_rows p s (r ∷ rows) =
    let rest = settle_rows p s rows in
    if p r && is_pending r.status
    then record r { status = s; payload = record r.payload { status = s } } ∷ rest
    else r ∷ rest

abbrev pub is_row : Text → Text → Row → Bool
is_row task id r = text_eq r.task_id task && text_eq r.id id

-- `providerOf`.
abbrev pub provider_of_task : Task → Provider
provider_of_task t = elim t.provider [ provider_claude ↦ claude_code | provider_codex ↦ codex ]

abbrev pub same_provider_name : Provider → Provider → Bool
same_provider_name codex codex = true
same_provider_name claude_code claude_code = true
same_provider_name _ _ = false

abbrev pub task_runs : TaskStatus → Bool
task_runs running = true
task_runs _ = false

-- `settledBy(request) === decision`.
abbrev pub settled_by : Status → Decision → Bool
settled_by (approved e) d = same_decision e d
settled_by denied deny = true
settled_by _ d = false

module _ (deps : Dependencies) where
  -- `storedBytes`.
  abbrev pub stored_bytes : Text → List Row → ℕ
  stored_bytes task [] = 0
  stored_bytes task (r ∷ rows) =
      let rest = stored_bytes task rows in
      if of_task task r then deps.payload_bytes r.payload + rest else rest

  -- One pass of the loop of `makeRoom`, over what the remaining passes do.
  abbrev pub pass : (List Row → Outcome (List Row)) → Text → ℕ → List Row → Outcome (List Row)
  pass again task extra rows = elim (ltb max_bytes (stored_bytes task rows + extra)) [
    | false ↦ done rows
    | true ↦ elim (evict_oldest task rows) [ none ↦ refuse quota_exceeded | some kept ↦ again kept ]
  ]

  -- `makeRoom`, on fuel: each pass deletes a row.
  unfoldable pub make_room : ℕ → Text → ℕ → List Row → Outcome (List Row)
  make_room zero task extra rows = pass (λ kept. failed other) task extra rows
  make_room (suc n) task extra rows = pass (λ kept. make_room n task extra kept) task extra rows

  -- `listApprovals`.
  unfoldable pub list_approvals : Text → List Row → Outcome (List Request)
  list_approvals task rows = do
    _ ← deps.get_task task
    done (map (λ r. r.payload) (take listed_approvals (keep (of_task task) rows)))

  -- The row of a request; the ids are a PRIMARY KEY.
  unfoldable pub insert_row : Request → List Row → Outcome (List Row)
  insert_row r rows =
      if any (λ q. text_eq q.id r.id) rows
      then failed other
      else done
          (rows ++ record { id = r.id; task_id = r.task_id; status = r.status; payload = r } ∷ [])

  -- `createApproval` after the checks.
  unfoldable pub store_request : Request → List Row → Outcome (Request × List Row)
  unfolding make_room insert_row evict_settled
  store_request r rows =
      let kept : List Row = evict_settled r.task_id rows in
      do
        room ← make_room (length kept) r.task_id (deps.payload_bytes r) kept
        _ ← deps.require_capacity
        rows1 ← insert_row r room
        _ ← deps.require_capacity
        done (r, rows1)

  -- `createApproval`.
  unfoldable pub create_approval : Request → List Row → Outcome (Request × List Row)
  unfolding store_request
  create_approval input rows = do
    r ← lift (parse_request (print input))
    _ ← require (is_pending r.status) invalid_input
    task ← deps.get_task r.task_id
    _ ←
        require (task_runs task.status && same_provider_name (provider_of_task task) r.provider)
          conflict
    _ ← require (ltb (count (is_waiting r.task_id) rows) max_pending) quota_exceeded
    store_request r rows

  -- The row of a pending request is answered.
  unfoldable pub settle_answer :
      Text → Text → Request → Decision → List Row → Outcome (Request × List Row)
  unfolding settle_rows
  settle_answer task id previous d rows = do
    _ ← deps.require_capacity
    _ ← deps.require_capacity
    done (
      settled_approval previous d,
      settle_rows (is_row task id) (settled_approval previous d).status rows,
    )

  -- `answerApproval` after the read of the row.
  unfoldable pub answer_row :
      Text → Text → Decision → Task → Option Row → List Row → Outcome (Request × List Row)
  unfolding settle_answer
  answer_row task id input t none rows = refuse not_found
  answer_row task id input t (some row) rows = do
    d ←
        lift (
          parse_answer (obj (field (codes "decision") (str (decision_text input)) end)) row.payload)
    elim (settled_by row.payload.status d) [
      | true ↦ done (row.payload, rows)
      | false ↦ do
        _ ← require (task_runs t.status && is_pending row.payload.status) conflict
        settle_answer task id row.payload d rows
    ]

  -- `answerApproval`.
  unfoldable pub answer_approval : Text → Text → Decision → List Row → Outcome (Request × List Row)
  unfolding answer_row
  answer_approval task id input rows = do
    t ← deps.get_task task
    answer_row task id input t (find (is_row task id) rows) rows

  -- `timeoutApproval` and `settleApproval`, by `settleOne`; the flag says that a row has changed.
  unfoldable pub settle_one : Text → Text → Unanswered → List Row → Bool × List Row
  unfolding settle_rows
  settle_one task id s rows = (
    any (λ r. is_row task id r && is_pending r.status) rows,
    settle_rows (is_row task id) (unanswered s) rows,
  )

  abbrev pub is_meant : Option Text → Row → Bool
  is_meant none r = true
  is_meant (some task) r = of_task task r

  abbrev pub check_task : Option Text → Outcome (Unit {0})
  check_task none = done tt
  check_task (some task) = do _ ← deps.get_task task; done tt

  -- `settlePending`.
  unfoldable pub settle_pending : Option Text → Unanswered → List Row → List Row
  unfolding settle_rows
  settle_pending task s rows = settle_rows (is_meant task) (unanswered s) rows

  -- `expireApprovals`.
  unfoldable pub expire_approvals : Option Text → List Row → Outcome (Unit {0} × List Row)
  unfolding settle_pending
  expire_approvals task rows = do _ ← check_task task; done (tt, settle_pending task expired rows)

  -- `hasPending`.
  unfoldable pub has_pending : Text → List Row → Bool
  has_pending task rows = any (is_waiting task) rows
