-- ===== src/Execution/Pump.antt =====
-- src/application/execution-service.ts: the admission pump of `ExecutionService` (`wake`, `drain`,
-- `launch`), `cancel` and `close`. What happens between two awaits is one event; the repository's
-- answers and what `fenced` reads come with the event. A completion is known by a number that counts
-- launches.
pub mod Bounds
pub mod Wakes
use codevo_runner.Prelude.{
  ℕ, ◌+◌, Bool, true, false, not, ◌&&◌, ◌||◌, Option, none, some, List, [], ◌∷◌, map, ltb, ◌==◌,
  if◌then◌else◌, length, any, keep, Text, text_eq,
}

abbrev pub active_tasks : ℕ
active_tasks = 64

-- Where the worker stands: it has none; it awaits `promotePending` or `claimNextTask`; it has
-- thrown; or it is done and its `finally` has not run.
pub data Worker : Type 0 where
  no_worker promoting claiming thrown settling : Worker

pub record Active : Type 0 where
  pub task_id : Text
  pub conversation_id : Text
  pub aborted : Bool
  pub launch : ℕ
  pub predecessors : List ℕ
  pub running : Bool

pub record Service : Type 0 where
  pub concurrency : ℕ
  pub closing : Bool
  pub worker : Worker
  pub active : List Active
  pub wake_requested : Bool
  pub worker_failure : Bool
  pub launches : ℕ

pub record Task : Type 0 where
  pub id : Text
  pub conversation_id : Option Text

-- The constructor, which throws on a concurrency that is out of bounds.
unfoldable pub new : ℕ → Option Service
new concurrency =
    if ltb concurrency 1 || ltb active_tasks concurrency
    then none
    else some (record {
      concurrency = concurrency;
      closing = false;
      worker = no_worker;
      active = [];
      wake_requested = false;
      worker_failure = false;
      launches = 0;
    })

abbrev pub has_worker : Worker → Bool
has_worker no_worker = false
has_worker _ = true

-- `working`.
unfoldable pub working : Service → Bool
working s = ltb 0 (length s.active) || has_worker s.worker

-- The head of the loop of `drain`, and what it does up to its first await.
drain_head : Bool → Service → Service
drain_head fenced s =
    if not s.closing && not s.worker_failure && not fenced && ltb (length s.active) s.concurrency
    then record s { wake_requested = false; worker = promoting }
    else record s { worker = settling }

-- `wake`.
unfoldable pub wake : Bool → Service → Service
unfolding drain_head
wake fenced s =
    let s1 : Service = record s { wake_requested = true } in
    if has_worker s.worker || s.closing || s.worker_failure || fenced
    then s1
    else drain_head fenced s1

abbrev conversation_of : Task → Text
conversation_of t = elim t.conversation_id [ none ↦ t.id | some c ↦ c ]

abbrev entry_of : Task → Service → Active
entry_of t s = record {
  task_id = t.id;
  conversation_id = conversation_of t;
  aborted = s.closing || s.worker_failure;
  launch = s.launches;
  predecessors =
      map (λ a. a.launch) (keep (λ a. text_eq a.conversation_id (conversation_of t)) s.active);
  running = false;
}

-- `Map.set` by the task's id.
abbrev put : Active → List Active → List Active
put e [] = e ∷ []
put e (a ∷ xs) = let rest = put e xs in if text_eq a.task_id e.task_id then e ∷ xs else a ∷ rest

-- `launch`.
unfoldable pub launch_task : Task → Service → Service
launch_task t s = record s { active = put (entry_of t s) s.active; launches = s.launches + 1 }

abbrev abort_entry : Active → Active
abort_entry a = record a { aborted = true }

abbrev abort_all : List Active → List Active
abort_all xs = map abort_entry xs

abbrev update : (Active → Active) → Text → List Active → List Active
update f id [] = []
update f id (a ∷ xs) =
    let rest = update f id xs in if text_eq a.task_id id then f a ∷ xs else a ∷ rest

-- `Map.delete`.
abbrev delete : Text → List Active → List Active
delete id xs = keep (λ a. not (text_eq a.task_id id)) xs

-- `promotePending` has returned.
unfoldable pub promoted : Bool → Service → Service
promoted fenced s = elim s.worker [
  | promoting ↦
      if s.closing || s.worker_failure || fenced
      then record s { worker = settling }
      else record s { worker = claiming }
  | _ ↦ s
]

-- `claimNextTask` has returned.
unfoldable pub claimed : Option Task → Bool → Service → Service
unfolding drain_head launch_task
claimed t fenced s = elim s.worker [
  | claiming ↦ elim t [
    | none ↦ record s { worker = settling }
    | some task ↦ drain_head fenced (launch_task task s)
  ]
  | _ ↦ s
]

-- One of the two has thrown.
unfoldable pub threw : Service → Service
threw s = elim s.worker [
  | promoting ↦ record s { worker = thrown }
  | claiming ↦ record s { worker = thrown }
  | _ ↦ s
]

-- The `catch` of the worker.
unfoldable pub caught : Service → Service
caught s = elim s.worker [ thrown ↦ record s { worker_failure = true; worker = settling } | _ ↦ s ]

-- The `finally` of the worker.
unfoldable pub settled : Bool → Service → Service
settled fenced s = elim s.worker [
  | settling ↦
      let s1 : Service = record s { worker = no_worker } in
      if s.wake_requested
        && not s.closing
        && not s.worker_failure
        && ltb (length s.active) s.concurrency
      then wake fenced s1
      else s1
  | _ ↦ s
]

abbrev still_active : List Active → ℕ → Bool
still_active xs launch = any (λ a. a.launch == launch) xs

-- A task's `run` starts once the completions before it have settled, which they do after they have
-- left `active`.
unfoldable pub begin_run : Text → Service → Service
begin_run id s = record s {
  active =
      update
        (λ a.
          if any (λ p. still_active s.active p) a.predecessors
          then a
          else record a { running = true })
        id s.active;
}

-- The `catch` of a completion.
unfoldable pub run_failed : Service → Service
run_failed s = record s { worker_failure = true }

-- The `finally` of a completion.
unfoldable pub completed : Text → Bool → Service → Service
completed id fenced s = wake fenced (record s { active = delete id s.active })

-- `cancel`, when the repository has cancelled the task.
unfoldable pub cancel : Text → Service → Service
cancel id s = record s { active = update abort_entry id s.active }

-- `close`, up to its await.
unfoldable pub close : Service → Service
close s = record s { closing = true; active = abort_all s.active }
