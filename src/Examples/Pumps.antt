-- ===== src/Examples/Pumps.antt =====
-- The pump of src/application/execution-service.ts at concrete inputs.
use codevo_runner.Prelude.{
  ◌≤◌, ◌≡◌, refl, ◌⊎◌, true, false, none, some, List, [], ◌∷◌, length, All, Text, codes,
}
use codevo_runner.Execution.Pump.{
  active_tasks, Service, Task, new, has_worker, wake, promoted, claimed, settled, close, no_worker,
}
use codevo_runner.Execution.Pump.Bounds.{
  Event, step, run, concurrency_bound, closing_aborts, woken, promotion, claim, settlement, closure,
}
use codevo_runner.Execution.Pump.Wakes.{no_lost_wake}

abbrev task : Text → Task
task id = record { id = id; conversation_id = none }

abbrev one_at_a_time : Service
one_at_a_time = record {
  concurrency = 1;
  closing = false;
  worker = no_worker;
  active = [];
  wake_requested = false;
  worker_failure = false;
  launches = 0;
}

is_new : new 1 ≡ some one_at_a_time
unfolding new
is_new = refl

abbrev one_task : List Event
one_task =
    woken false
    ∷ promotion false
    ∷ claim (some (task (codes "a"))) false
    ∷ woken false
    ∷ settlement false
    ∷ []

concurrency_bound_example :
    (length (run one_task one_at_a_time).active ≤ 1) × (1 ≤ 1) × (1 ≤ active_tasks)
concurrency_bound_example = concurrency_bound 1 one_at_a_time one_task is_new

is_closing : (run (closure ∷ one_task) one_at_a_time).closing ≡ true
unfolding run step wake promoted claimed settled close
is_closing = refl

closing_aborts_example : All (λ a. a.aborted ≡ true) (run (closure ∷ one_task) one_at_a_time).active
closing_aborts_example = closing_aborts 1 one_at_a_time (closure ∷ one_task) is_new is_closing

is_idle : has_worker (run one_task one_at_a_time).worker ≡ false
unfolding run step wake promoted claimed settled
is_idle = refl

is_requested : (run one_task one_at_a_time).wake_requested ≡ true
unfolding run step wake promoted claimed settled
is_requested = refl

no_lost_wake_example :
    ((run one_task one_at_a_time).closing ≡ true)
    ⊎ ((run one_task one_at_a_time).worker_failure ≡ true)
    ⊎ ((run one_task one_at_a_time).concurrency ≤ length (run one_task one_at_a_time).active)
no_lost_wake_example =
    no_lost_wake 1 one_at_a_time one_task is_new (refl, (refl, (refl, (refl, (refl, tt))))) is_idle
      is_requested
