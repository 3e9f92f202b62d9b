-- ===== src/Execution/Pump/Wakes.antt =====
-- No wake of the pump is lost while nothing fences admission.
use codevo_runner.Prelude.{
  ℕ, ◌≤◌, ◌≡◌, refl, ◌⊎◌, inl, Bool, true, false, some, List, [], ◌∷◌, arith, if◌then◌else◌, length,
  any, All,
}
use codevo_runner.Execution.Pump.{
  drain_head, abort_entry, delete, still_active, Service, new, has_worker, wake, launch_task,
  promoted, claimed, threw, caught, settled, begin_run, run_failed, completed, cancel, close,
  no_worker,
}
use codevo_runner.Execution.Pump.Bounds.{
  Event, step, run, length-update, woken, promotion, claim, throw, catch, settlement, begin,
  failure, completion, cancellation, closure,
}

abbrev pub Unfenced : Event → Type 0
Unfenced (woken b) = b ≡ false
Unfenced (promotion b) = b ≡ false
Unfenced (claim t b) = b ≡ false
Unfenced (settlement b) = b ≡ false
Unfenced (completion id b) = b ≡ false
Unfenced _ = Unit

-- A wake that was asked for and has no worker has a reason to wait.
abbrev pub Attended : Service → Type 0
Attended s =
    has_worker s.worker ≡ false
    → s.wake_requested ≡ true
    → (s.closing ≡ true) ⊎ (s.worker_failure ≡ true) ⊎ (s.concurrency ≤ length s.active)

wake-Attended : (b : Bool) (s : Service) → b ≡ false → Attended (wake b s)
unfolding wake drain_head
wake-Attended b s u h k = ground (arith, u, h, k)

step-Attended : (e : Event) (s : Service) → Unfenced e → Attended s → Attended (step e s)
unfolding step promoted threw caught begin_run run_failed completed cancel
step-Attended (woken b) s u h = wake-Attended b s u
step-Attended (promotion b) s u h = λ p q. ground (arith, h)
step-Attended (claim t b) s u h = λ p q. unfold claimed drain_head launch_task in ground (arith, h)
step-Attended throw s u h = λ p q. ground (arith, h)
step-Attended catch s u h = λ p q. ground (arith, h)
step-Attended (settlement b) s u h =
    let s1 : Service = record s { worker = no_worker } in
    λ p q. unfold settled in ground (arith, h, wake-Attended b s1 u)
step-Attended (begin id) s u h = λ p q. ground (
  arith,
  h,
  length-update
      (λ a.
        if any (λ p'. still_active s.active p') a.predecessors
        then a
        else record a { running = true })
      id s.active,
)
step-Attended failure s u h = λ p q. ground (arith, h)
step-Attended (completion id b) s u h = wake-Attended b (record s { active = delete id s.active }) u
step-Attended (cancellation id) s u h =
    λ p q. ground (arith, h, length-update abort_entry id s.active)
step-Attended closure s u h = λ p q. unfold close in inl refl

run-Attended : (es : List Event) (s : Service) → All Unfenced es → Attended s → Attended (run es s)
unfolding run
run-Attended [] s u h = h
run-Attended (e ∷ es) s u h = run-Attended es (step e s) u.1 (step-Attended e s u.0 h)

-- After any events during which admission is not fenced, a service that has no worker although a wake
-- was asked for is closing, has failed, or has as many active tasks as its concurrency allows.
pub no_lost_wake :
    (n : ℕ) (s : Service) (es : List Event)
    → new n ≡ some s
    → All Unfenced es
    → has_worker (run es s).worker ≡ false
    → (run es s).wake_requested ≡ true
    → ((run es s).closing ≡ true)
      ⊎ ((run es s).worker_failure ≡ true)
      ⊎ ((run es s).concurrency ≤ length (run es s).active)
unfolding new
no_lost_wake n s es h u = run-Attended es s u (λ p q. ground (arith, h, q))
