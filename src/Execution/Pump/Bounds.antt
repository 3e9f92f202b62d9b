-- ===== src/Execution/Pump/Bounds.antt =====
-- What holds of the pump however its events are ordered.
use codevo_runner.Prelude.{
  ℕ, ◌+◌, ◌≤◌, ◌<◌, ◌≡◌, refl, ◌∙◌, Bool, true, false, not, Option, none, some, List, [], ◌∷◌,
  arith, length, keep, length-keep, All, Text, text_eq,
}
use codevo_runner.Execution.Pump.{
  drain_head, entry_of, put, abort_entry, abort_all, update, delete, active_tasks, Worker, Active,
  Service, Task, new, wake, launch_task, promoted, claimed, threw, caught, settled, begin_run,
  run_failed, completed, cancel, close, no_worker, promoting, claiming, thrown, settling,
}

pub data Event : Type 0 where
  woken : Bool → Event
  promotion : Bool → Event
  claim : Option Task → Bool → Event
  throw catch : Event
  settlement : Bool → Event
  begin : Text → Event
  failure : Event
  completion : Text → Bool → Event
  cancellation : Text → Event
  closure : Event

unfoldable pub step : Event → Service → Service
step (woken b) s = wake b s
step (promotion b) s = promoted b s
step (claim t b) s = claimed t b s
step throw s = threw s
step catch s = caught s
step (settlement b) s = settled b s
step (begin id) s = begin_run id s
step failure s = run_failed s
step (completion id b) s = completed id b s
step (cancellation id) s = cancel id s
step closure s = close s

unfoldable pub run : List Event → Service → Service
run [] s = s
run (e ∷ es) s = run es (step e s)

-- Whether the worker has checked that there is room and has not launched since.
abbrev reserves : Worker → Bool
reserves promoting = true
reserves claiming = true
reserves _ = false

pub record InBounds (s : Service) : Type 0 where
  pub size : length s.active ≤ s.concurrency
  pub room : reserves s.worker ≡ true → length s.active < s.concurrency
  pub closed : s.closing ≡ true → All (λ a. a.aborted ≡ true) s.active

length-put : (e : Active) (xs : List Active) → length (put e xs) ≤ length xs + 1
length-put e [] = omega arith
length-put e (a ∷ xs) = ground (arith, length-put e xs)

pub length-update :
    (f : Active → Active) (id : Text) (xs : List Active) → length (update f id xs) ≡ length xs
length-update f id [] = omega arith
length-update f id (a ∷ xs) = ground (arith, length-update f id xs)

length-abort_all : (xs : List Active) → length (abort_all xs) ≡ length xs
length-abort_all [] = omega arith
length-abort_all (a ∷ xs) = omega (arith, length-abort_all xs)

abort_all-All : (xs : List Active) → All (λ a. a.aborted ≡ true) (abort_all xs)
abort_all-All [] = tt
abort_all-All (a ∷ xs) = (refl, abort_all-All xs)

put-All :
    (e : Active) (xs : List Active)
    → e.aborted ≡ true
    → All (λ a. a.aborted ≡ true) xs
    → All (λ a. a.aborted ≡ true) (put e xs)
put-All e [] h hs = (h, tt)
put-All e (a ∷ xs) h hs = ground (arith, put-All e xs h hs.1)

keep-All :
    (p : Active → Bool) (xs : List Active)
    → All (λ a. a.aborted ≡ true) xs
    → All (λ a. a.aborted ≡ true) (keep p xs)
keep-All p [] hs = tt
keep-All p (a ∷ xs) hs = ground (arith, keep-All p xs hs.1)

update-All :
    (f : Active → Active) (id : Text) (xs : List Active)
    → ((a : Active) → a.aborted ≡ true → (f a).aborted ≡ true)
    → All (λ a. a.aborted ≡ true) xs
    → All (λ a. a.aborted ≡ true) (update f id xs)
update-All f id [] hf hs = tt
update-All f id (a ∷ xs) hf hs = ground (arith, hf a hs.0, update-All f id xs hf hs.1)

wake-InBounds : (b : Bool) (s : Service) → InBounds s → InBounds (wake b s)
unfolding wake drain_head
wake-InBounds b s h = ground (arith, h.size, h.room, h.closed)

delete-InBounds :
    (id : Text) (s : Service) → InBounds s → InBounds (record s { active = delete id s.active })
delete-InBounds id s h =
    let le = length-keep (λ a. not (text_eq a.task_id id)) s.active in
    record {
      size = omega (arith, le, h.size);
      room = λ r. omega (arith, le, h.room r);
      closed = λ c. keep-All (λ a. not (text_eq a.task_id id)) s.active (h.closed c);
    }

update-InBounds :
    (f : Active → Active) (id : Text) (s : Service)
    → ((a : Active) → a.aborted ≡ true → (f a).aborted ≡ true)
    → InBounds s
    → InBounds (record s { active = update f id s.active })
update-InBounds f id s hf h =
    let e = length-update f id s.active in
    record {
      size = omega (arith, e, h.size);
      room = λ r. omega (arith, e, h.room r);
      closed = λ c. update-All f id s.active hf (h.closed c);
    }

launch-InBounds :
    (t : Task) (s : Service)
    → InBounds s
    → s.worker ≡ claiming
    → InBounds (record (launch_task t s) { worker = settling })
unfolding launch_task
launch-InBounds t s h e =
    let le = length-put (entry_of t s) s.active in
    record {
      size = omega (arith, le, h.room (ground arith));
      room = λ r. ground arith;
      closed = λ c. put-All (entry_of t s) s.active (ground arith) (h.closed c);
    }

head-InBounds :
    (b : Bool) (s : Service)
    → length s.active ≤ s.concurrency
    → (s.closing ≡ true → All (λ a. a.aborted ≡ true) s.active)
    → InBounds (drain_head b s)
unfolding drain_head
head-InBounds b s h k = ground (arith, h, k)

claimed-InBounds :
    (t : Option Task) (b : Bool) (s : Service) → InBounds s → InBounds (claimed t b s)
unfolding claimed
claimed-InBounds t b s h = go s.worker refl t
  where
    go : (w : Worker) → s.worker ≡ w → (o : Option Task) → InBounds (claimed o b s)
    go claiming e none = ground (arith, h.size, h.closed)
    go claiming e (some task) =
        let k = launch-InBounds task s h e in
        rw e (
          head-InBounds b (launch_task task s) (unfold launch_task in k.size)
            (unfold launch_task in k.closed))
    go no_worker e o = ground (arith, e, h.size, h.room, h.closed)
    go promoting e o = ground (arith, e, h.size, h.room, h.closed)
    go thrown e o = ground (arith, e, h.size, h.room, h.closed)
    go settling e o = ground (arith, e, h.size, h.room, h.closed)

close-InBounds : (s : Service) → InBounds s → InBounds (close s)
unfolding close
close-InBounds s h =
    let e = length-abort_all s.active in
    record {
      size = omega (arith, e, h.size);
      room = λ r. omega (arith, e, h.room r);
      closed = λ c. abort_all-All s.active;
    }

settled-InBounds : (b : Bool) (s : Service) → InBounds s → InBounds (settled b s)
unfolding settled
settled-InBounds b s h = go s.worker refl
  where
    s1 : Service
    s1 = record s { worker = no_worker }

    idle : InBounds s1
    idle = record { size = h.size; room = λ r. ground arith; closed = h.closed }

    go : (w : Worker) → s.worker ≡ w → InBounds (settled b s)
    go settling e = ground (arith, e, idle, wake-InBounds b s1 idle)
    go claiming e = ground (arith, e, h.size, h.room, h.closed)
    go no_worker e = ground (arith, e, h.size, h.room, h.closed)
    go promoting e = ground (arith, e, h.size, h.room, h.closed)
    go thrown e = ground (arith, e, h.size, h.room, h.closed)

step-InBounds : (e : Event) (s : Service) → InBounds s → InBounds (step e s)
unfolding step promoted threw caught begin_run run_failed completed cancel
step-InBounds (woken b) s h = wake-InBounds b s h
step-InBounds (promotion b) s h = ground (arith, h.size, h.room, h.closed)
step-InBounds (claim t b) s h = claimed-InBounds t b s h
step-InBounds throw s h = ground (arith, h.size, h.room, h.closed)
step-InBounds catch s h = ground (arith, h.size, h.room, h.closed)
step-InBounds (settlement b) s h = settled-InBounds b s h
step-InBounds (begin id) s h = update-InBounds _ id s (λ a ha. ground arith) h
step-InBounds failure s h = record { size = h.size; room = h.room; closed = h.closed }
step-InBounds (completion id b) s h =
    wake-InBounds b (record s { active = delete id s.active }) (delete-InBounds id s h)
step-InBounds (cancellation id) s h = update-InBounds abort_entry id s (λ a ha. refl) h
step-InBounds closure s h = close-InBounds s h

run-InBounds : (es : List Event) (s : Service) → InBounds s → InBounds (run es s)
unfolding run
run-InBounds [] s h = h
run-InBounds (e ∷ es) s h = run-InBounds es (step e s) (step-InBounds e s h)

new-InBounds : (n : ℕ) (s : Service) → new n ≡ some s → InBounds s
unfolding new
new-InBounds n s h = record {
  size = ground arith;
  room = λ r. ground arith;
  closed = λ c. ground arith;
}

step-concurrency : (e : Event) (s : Service) → (step e s).concurrency ≡ s.concurrency
unfolding step wake drain_head launch_task promoted claimed threw caught settled begin_run
    run_failed completed cancel close
step-concurrency (woken b) s = ground arith
step-concurrency (promotion b) s = ground arith
step-concurrency (claim none b) s = ground arith
step-concurrency (claim (some t) b) s = ground arith
step-concurrency throw s = ground arith
step-concurrency catch s = ground arith
step-concurrency (settlement b) s = ground arith
step-concurrency (begin id) s = refl
step-concurrency failure s = refl
step-concurrency (completion id b) s = ground arith
step-concurrency (cancellation id) s = refl
step-concurrency closure s = refl

run-concurrency : (es : List Event) (s : Service) → (run es s).concurrency ≡ s.concurrency
unfolding run
run-concurrency [] s = refl
run-concurrency (e ∷ es) s = run-concurrency es (step e s) ∙ step-concurrency e s

-- Whatever happens to a service that was constructed for a concurrency of `n`, and in whatever
-- order, at most `n` tasks are active, and `n` is from 1 to 64.
pub concurrency_bound :
    (n : ℕ) (s : Service) (es : List Event)
    → new n ≡ some s
    → (length (run es s).active ≤ n) × (1 ≤ n) × (n ≤ active_tasks)
concurrency_bound n s es h =
    let done = run-InBounds es s (new-InBounds n s h) in
    unfold new in ground (arith, h, done.size, run-concurrency es s)

-- Once a service is closing, every task that is active is aborted, those that it launches later too.
pub closing_aborts :
    (n : ℕ) (s : Service) (es : List Event)
    → new n ≡ some s
    → (run es s).closing ≡ true
    → All (λ a. a.aborted ≡ true) (run es s).active
closing_aborts n s es h c = (run-InBounds es s (new-InBounds n s h)).closed c
