-- ===== src/Approvals/Store/Settled.antt =====
-- src/infrastructure/sqlite/approval-database.ts: what each call may change.
use codevo_runner.Approvals.Stored.{print}
use codevo_runner.Approvals.Store.{
  Row, Dependencies, is_pending, evict_settled, settle_rows, is_row, create_approval,
  answer_approval, settle_one, is_meant, check_task, settle_pending, expire_approvals,
}
use mathlib.Core.Path.{subst}
use codevo_runner.Prelude.{
  ◌≡◌, refl, sym, ◌≢◌, ◌⊎◌, inl, inr, Bool, true, false, ◌&&◌, List, [], ◌∷◌, ◌++◌, arith,
  if◌then◌else◌, length, All, All-any, text_eq, text_eq_iff,
}
use codevo_runner.Sqlite.{Outcome, after, bind-done, done, failed}
use codevo_runner.Contracts.{ok}
use codevo_runner.Approvals.{
  unanswered, Status, Request, parse_request, cancelled, expired, timed_out,
}
use codevo_runner.Approvals.Store.Evicts.{
  Evicts, Evicts-trans, evict_settled-Evicts, make_room-Evicts,
}
use codevo_runner.Approvals.Store.Writes.{create-Stored, answer-Settles}
use codevo_runner.Approvals.Store.Bounds.{
  Call, step, create, answer, time_out, cancel, expire, settle_all,
}

-- Row by row and in order, the rows as they were, or, of rows that are meant and were pending, with
-- another status, which is not pending, and nothing else changed.
abbrev pub SettlesTo : (Row → Bool) → (Status → Type 0) → List Row → List Row → Type 0
SettlesTo p S [] [] = Unit
SettlesTo p S (was ∷ rows) (now ∷ rows1) =
    ((now ≡ was)
      ⊎ ((p was ≡ true)
          × (is_pending was.status ≡ true)
          × (is_pending now.status ≡ false)
          × S now.status
          × (now ≡ record was {
            status = now.status;
            payload = record was.payload { status = now.status };
          })))
    × SettlesTo p S rows rows1
SettlesTo p S _ _ = ⊥

SettlesTo-refl : (p : Row → Bool) (S : Status → Type 0) (rows : List Row) → SettlesTo p S rows rows
SettlesTo-refl p S [] = tt
SettlesTo-refl p S (r ∷ rows) = (inl refl, SettlesTo-refl p S rows)

settle_rows-SettlesTo :
    (p : Row → Bool) (S : Status → Type 0) (s : Status) (rows : List Row)
    → is_pending s ≡ false
    → S s
    → SettlesTo p S rows (settle_rows p s rows)
unfolding settle_rows
settle_rows-SettlesTo p S s [] n h = tt
settle_rows-SettlesTo p S s (r ∷ rows) n h =
    go (p r) refl (is_pending r.status) refl (settle_rows-SettlesTo p S s rows n h)
  where
    go :
        (a : Bool)
        → p r ≡ a
        → (b : Bool) → is_pending r.status ≡ b
        → SettlesTo p S rows (settle_rows p s rows)
        → SettlesTo p S (r ∷ rows) (
            if a && b
            then record r { status = s; payload = record r.payload { status = s } }
              ∷ settle_rows p s rows
            else r ∷ settle_rows p s rows)
    go false e b f k = (inl refl, k)
    go true e false f k = (inl refl, k)
    go true e true f k = (inr (e, f, n, h, refl), k)

after-keeps :
    {A : Type 0} (P : List Row → Type 0) (o : Outcome (A × List Row)) (rows : List Row)
    → P rows
    → ((a : A) (rows1 : List Row) → o ≡ done (a, rows1) → P rows1)
    → P (after o rows)
unfolding after
after-keeps P (done (a, rows1)) rows h f = f a rows1 refl
after-keeps P (failed x) rows h f = h

-- The request as it is parsed is a new pending row, the last, with an id that no row left has; of the
-- rows there were, some of its task that were not pending are gone.
pub record Creates (input : Request) (rows rows1 : List Row) : Type 0 where
  pub request : Request
  pub parsed : parse_request (print input) ≡ ok request
  pub pending : is_pending request.status ≡ true
  pub kept : List Row
  pub evicted : Evicts request.task_id rows kept
  pub absent : All (λ q. q.id ≢ request.id) kept
  pub inserted :
      rows1
      ≡ kept
        ++ record {
          id = request.id;
          task_id = request.task_id;
          status = request.status;
          payload = request;
        }
          ∷ []

module _ (deps : Dependencies) where
  create-Creates :
      (input s : Request) (rows rows1 : List Row)
      → create_approval deps input rows ≡ done (s, rows1)
      → Creates input rows rows1
  create-Creates input s rows rows1 e =
      let (q, read, p, few, st) = create-Stored deps input s rows rows1 e in
      let left = evict_settled q.task_id rows in
      record {
        request = q;
        parsed = read;
        pending = p;
        kept = st.kept;
        evicted = Evicts-trans q.task_id rows left st.kept (evict_settled-Evicts q.task_id rows) (
            make_room-Evicts deps (length left) q.task_id (deps.payload_bytes q) left st.kept
              st.room);
        absent =
            All-any (λ r. text_eq r.id q.id) (λ r. r.id ≢ q.id) st.kept
              (λ r n same. ground (arith, text_eq_iff r.id q.id)) st.absent;
        inserted = st.inserted;
      }

  -- What a call may do to the rows.
  abbrev pub Changes : Call → List Row → List Row → Type 0
  Changes (create input) rows rows1 = (rows1 ≡ rows) ⊎ Creates input rows rows1
  Changes (answer task id d) rows rows1 = SettlesTo (is_row task id) (λ s. Unit) rows rows1
  Changes (time_out task id) rows rows1 =
      SettlesTo (is_row task id) (λ s. s ≡ unanswered timed_out) rows rows1
  Changes (cancel task id) rows rows1 =
      SettlesTo (is_row task id) (λ s. s ≡ unanswered cancelled) rows rows1
  Changes (settle_all task) rows rows1 =
      SettlesTo (is_meant deps task) (λ s. s ≡ unanswered cancelled) rows rows1
  Changes (expire task) rows rows1 =
      SettlesTo (is_meant deps task) (λ s. s ≡ unanswered expired) rows rows1

  -- A call leaves every row as it is and in its place, with two exceptions. A call that answers or
  -- settles may give rows that it means and that were pending another status, which is not pending
  -- (that of the time-out, the cancellation or the expiry, where it is one), and it changes nothing
  -- else of them. A creation may add the request that it parses, as a pending row after the others
  -- whose id none of them has, and may delete rows of that task that were not pending.
  pub settled_kept : (c : Call) (rows : List Row) → Changes c rows (step deps c rows)
  unfolding step settle_one settle_pending expire_approvals
  settled_kept (create input) rows =
      after-keeps (λ l. (l ≡ rows) ⊎ Creates input rows l) (create_approval deps input rows) rows
        (inl refl) (λ s rows1 e. inr (create-Creates input s rows rows1 e))
  settled_kept (answer task id d) rows =
      let none_changed = SettlesTo-refl (is_row task id) (λ s. Unit) rows in
      after-keeps (SettlesTo (is_row task id) (λ s. Unit) rows)
        (answer_approval deps task id d rows) rows none_changed
        (λ r rows1 e. elim (answer-Settles deps task id d r rows rows1 e) [
          | inl same ↦ subst (SettlesTo (is_row task id) (λ s. Unit) rows) (sym same) none_changed
          | inr w ↦
              subst (SettlesTo (is_row task id) (λ s. Unit) rows) (sym w.2)
                (settle_rows-SettlesTo (is_row task id) (λ s. Unit) w.0 rows w.1 tt)
        ])
  settled_kept (time_out task id) rows =
      settle_rows-SettlesTo (is_row task id) (λ s. s ≡ unanswered timed_out) (unanswered timed_out)
        rows refl refl
  settled_kept (cancel task id) rows =
      settle_rows-SettlesTo (is_row task id) (λ s. s ≡ unanswered cancelled) (unanswered cancelled)
        rows refl refl
  settled_kept (settle_all task) rows =
      settle_rows-SettlesTo (is_meant deps task) (λ s. s ≡ unanswered cancelled)
        (unanswered cancelled) rows refl refl
  settled_kept (expire task) rows =
      let S : Status → Type 0 = λ s. s ≡ unanswered expired in
      after-keeps (SettlesTo (is_meant deps task) S rows) (expire_approvals deps task rows) rows
        (SettlesTo-refl (is_meant deps task) S rows)
        (λ u rows1 e.
          let (v, k, e1) = bind-done (check_task deps task) _ (u, rows1) e in
          let same : settle_rows (is_meant deps task) (unanswered expired) rows ≡ rows1 =
            ground (arith, e1) in
          subst (SettlesTo (is_meant deps task) S rows) same
            (settle_rows-SettlesTo (is_meant deps task) S (unanswered expired) rows refl refl))
