-- ===== src/Approvals/Store/Bounds.antt =====
-- src/infrastructure/sqlite/approval-database.ts: how many approvals a task has stored.
use mathlib.Core.Path.{subst}
use codevo_runner.Prelude.{
  ◌≤◌, ◌<◌, ◌≡◌, refl, sym, ◌⊎◌, inl, inr, Bool, true, false, Option, List, [], ◌∷◌, ◌++◌, arith,
  Bool-cases, length, Text, text_eq, eq_of_text_eq,
}
use codevo_runner.Sqlite.{Outcome, after, bind-done, done, failed}
use codevo_runner.Approvals.{unanswered, Decision, Status, Request, cancelled, expired, timed_out}
use codevo_runner.Approvals.Store.{
  max_pending, max_settled, listed_approvals, Row, Dependencies, is_pending, of_task, is_waiting,
  is_settled, count, evict_settled, settle_rows, is_row, create_approval, answer_approval,
  settle_one, is_meant, check_task, settle_pending, expire_approvals,
}
use codevo_runner.Approvals.Store.Counts.{
  count-split, count-evict_settled, evict_settled-few, count-settle_rows, count-snoc,
  count-make_room,
}
use codevo_runner.Approvals.Store.Writes.{Stored, create-Stored, answer-Settles}

-- The calls that write.
pub data Call : Type 0 where
  create : Request → Call
  answer : Text → Text → Decision → Call
  time_out cancel : Text → Text → Call
  expire : Option Text → Call
  settle_all : Option Text → Call

-- What each task has.
abbrev pub Fit : List Row → Type 0
Fit rows =
    (task : Text)
    → (count (is_waiting task) rows ≤ max_pending) × (count (of_task task) rows ≤ listed_approvals)

settle-Fit :
    (q : Row → Bool) (s : Status) (rows : List Row)
    → is_pending s ≡ false
    → Fit rows
    → Fit (settle_rows q s rows)
settle-Fit q s rows h fit task =
    let (a, b) = fit task in
    let (c, d) = count-settle_rows q s task rows h in (omega (arith, a, d), omega (arith, b, c))

module _ (deps : Dependencies) where
  unfoldable pub step : Call → List Row → List Row
  unfolding after create_approval answer_approval settle_one expire_approvals settle_pending
  step (create r) rows = after (create_approval deps r rows) rows
  step (answer task id d) rows = after (answer_approval deps task id d rows) rows
  step (time_out task id) rows = (settle_one deps task id timed_out rows).1
  step (cancel task id) rows = (settle_one deps task id cancelled rows).1
  step (expire task) rows = after (expire_approvals deps task rows) rows
  step (settle_all task) rows = settle_pending deps task cancelled rows

  unfoldable pub run : List Call → List Row → List Row
  run [] rows = rows
  run (c ∷ calls) rows = run calls (step c rows)

  Stored-Fit :
      (r : Request) (rows rows1 : List Row)
      → count (is_waiting r.task_id) rows < max_pending
      → Stored deps r rows rows1
      → Fit rows
      → Fit rows1
  Stored-Fit r rows rows1 few st fit task =
      rw (st.inserted) (go (Bool-cases (text_eq r.task_id task)))
    where
      row : Row
      row = record { id = r.id; task_id = r.task_id; status = r.status; payload = r }

      left : List Row
      left = evict_settled r.task_id rows

      fewer : (p : Row → Bool) → count p st.kept ≤ count p rows
      fewer p = omega (
        arith,
        count-make_room deps p (length left) r.task_id (deps.payload_bytes r) left st.kept st.room,
        count-evict_settled p r.task_id rows,
      )

      go :
          (text_eq r.task_id task ≡ true) ⊎ (text_eq r.task_id task ≡ false)
          → (count (is_waiting task) (st.kept ++ row ∷ []) ≤ max_pending)
            × (count (of_task task) (st.kept ++ row ∷ []) ≤ listed_approvals)
      go (inr t) =
          let (a, b) = fit task in
          (
            ground (arith, count-snoc (is_waiting task) st.kept row, fewer (is_waiting task), a, t),
            ground (arith, count-snoc (of_task task) st.kept row, fewer (of_task task), b, t),
          )
      go (inl t) =
          subst
            (λ task.
              (count (is_waiting task) (st.kept ++ row ∷ []) ≤ max_pending)
              × (count (of_task task) (st.kept ++ row ∷ []) ≤ listed_approvals))
            (eq_of_text_eq r.task_id task t) own
        where
          settled : count (is_settled r.task_id) st.kept ≤ max_settled
          settled = omega (
            arith,
            count-make_room deps (is_settled r.task_id) (length left) r.task_id
                (deps.payload_bytes r) left st.kept st.room,
            evict_settled-few r.task_id rows,
          )

          own :
              (count (is_waiting r.task_id) (st.kept ++ row ∷ []) ≤ max_pending)
              × (count (of_task r.task_id) (st.kept ++ row ∷ []) ≤ listed_approvals)
          own = (
            ground (
              arith,
              count-snoc (is_waiting r.task_id) st.kept row,
              fewer (is_waiting r.task_id),
              few,
            ),
            ground (
              arith,
              count-snoc (of_task r.task_id) st.kept row,
              count-split r.task_id st.kept,
              fewer (is_waiting r.task_id),
              few,
              settled,
            ),
          )

  after-Fit :
      {A : Type 0} (o : Outcome (A × List Row)) (rows : List Row)
      → ((a : A) (rows1 : List Row) → o ≡ done (a, rows1) → Fit rows1)
      → Fit rows
      → Fit (after o rows)
  unfolding after
  after-Fit (done (a, rows1)) rows f h = f a rows1 refl
  after-Fit (failed x) rows f h = h

  step-Fit : (c : Call) (rows : List Row) → Fit rows → Fit (step c rows)
  unfolding step settle_one settle_pending expire_approvals
  step-Fit (create r) rows h =
      after-Fit (create_approval deps r rows) rows
        (λ s rows1 e.
          let (q, read, p, few, st) = create-Stored deps r s rows rows1 e in
          Stored-Fit q rows rows1 few st h)
        h
  step-Fit (answer task id d) rows h =
      after-Fit (answer_approval deps task id d rows) rows
        (λ r rows1 e. elim (answer-Settles deps task id d r rows rows1 e) [
          | inl same ↦ subst Fit (sym same) h
          | inr w ↦ subst Fit (sym w.2) (settle-Fit (is_row task id) w.0 rows w.1 h)
        ])
        h
  step-Fit (time_out task id) rows h =
      settle-Fit (is_row task id) (unanswered timed_out) rows refl h
  step-Fit (cancel task id) rows h = settle-Fit (is_row task id) (unanswered cancelled) rows refl h
  step-Fit (settle_all task) rows h =
      settle-Fit (is_meant deps task) (unanswered cancelled) rows refl h
  step-Fit (expire task) rows h =
      after-Fit (expire_approvals deps task rows) rows
        (λ u rows1 e.
          let (v, k, e1) = bind-done (check_task deps task) _ (u, rows1) e in
          let same : settle_rows (is_meant deps task) (unanswered expired) rows ≡ rows1 =
            ground (arith, e1) in
          subst Fit same (settle-Fit (is_meant deps task) (unanswered expired) rows refl h))
        h

  run-Fit : (calls : List Call) (rows : List Row) → Fit rows → Fit (run calls rows)
  unfolding run
  run-Fit [] rows h = h
  run-Fit (c ∷ calls) rows h = run-Fit calls (step c rows) (step-Fit c rows h)

  -- Whatever calls are made on an empty table, a task has at most 16 pending approvals, and at most
  -- as many rows as `listApprovals` reads, 48.
  pub approvals_run-Fit :
      (calls : List Call) (task : Text)
      → (count (is_waiting task) (run calls []) ≤ max_pending)
        × (count (of_task task) (run calls []) ≤ listed_approvals)
  approvals_run-Fit calls = run-Fit calls [] (λ task. (omega arith, omega arith))
