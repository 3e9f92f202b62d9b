-- ===== src/Examples/Approvals.antt =====
-- The approval table of src/infrastructure/sqlite/approval-database.ts at concrete inputs.
use codevo_runner.Prelude.{◌≤◌, false, none, List, [], ◌∷◌, Text, codes}
use codevo_runner.Sqlite.{done}
use codevo_runner.Launch.{provider_codex}
use codevo_runner.Delivery as delivery
use codevo_runner.Approvals as approvals
use codevo_runner.Approvals.Store.{
  max_pending, listed_approvals, Row, Dependencies, of_task, is_waiting, count,
}
use codevo_runner.Approvals.Store.Bounds.{
  Call, step, run, approvals_run-Fit, create, answer, expire,
}
use codevo_runner.Approvals.Store.Settled.{Changes, settled_kept}

abbrev id : Text
id = codes "0f8fad5b-d9cb-4a69-a165-70867728950e"

abbrev asked : approvals.Request
asked = record {
  id = id;
  task_id = id;
  provider = approvals.codex;
  input = record {
    kind = approvals.command;
    title = codes "run";
    detail = [];
    detail_truncated = false;
    facts = [];
    decisions = approvals.allow_once ∷ approvals.deny ∷ [];
  };
  status = approvals.unanswered approvals.pending;
  expires_at = codes "2024-02-29T23:59:59.000Z";
}

abbrev running_task : Dependencies
running_task = record {
  get_task = λ id. done (record {
    id = id;
    provider = provider_codex;
    launch = none;
    status = delivery.running;
    project_id = none;
    conversation_id = none;
    instructions = none;
  });
  require_capacity = done tt;
  payload_bytes = λ r. 512;
}

abbrev asked_and_answered : List Call
asked_and_answered = create asked ∷ answer id id approvals.allow_once ∷ expire none ∷ []

approvals_run-Fit_example :
    (count (is_waiting id) (run running_task asked_and_answered []) ≤ max_pending)
    × (count (of_task id) (run running_task asked_and_answered []) ≤ listed_approvals)
approvals_run-Fit_example = approvals_run-Fit running_task asked_and_answered id

abbrev one_row : List Row
one_row =
    record {
      id = id;
      task_id = id;
      status = approvals.unanswered approvals.pending;
      payload = asked;
    }
    ∷ []

settled_kept_example :
    Changes running_task
      (answer id id approvals.allow_once)
      one_row
      (step running_task (answer id id approvals.allow_once) one_row)
settled_kept_example = settled_kept running_task (answer id id approvals.allow_once) one_row
