-- ===== src/Maintenance/Service/Probed.antt =====
-- How the probe decides a `prepare` of src/application/maintenance-service.ts.
use codevo_runner.Maintenance.Service.{Value}
use codevo_runner.Maintenance.Service.{
  probe, confirm_probed, parse_prepare, prepare_claim, Times, Wait, prepare,
}
use codevo_runner.Maintenance.Lease.Fence.{Spares, Holds, run-Holds}
use codevo_runner.Maintenance.Lease.{
  maintenance_lease_ms, FencedState, Lease, deadline, current, claim, confirm, abandon, probing,
  free,
}
use codevo_runner.Prelude.{
  ℕ, ◌<◌, ◌≡◌, refl, ◌≢◌, Bool, true, false, Option, none, some, arith, All, Text,
}
use codevo_runner.Contracts.{ok}
use codevo_runner.Maintenance.Lease.Invariant.{run}

abbrev pub reservation_of : Text → ℕ → ℕ → FencedState
reservation_of lease_id now mark = record {
  kind = probing;
  lease_id = lease_id;
  expires_at = deadline now;
  mark = mark;
}

-- The claim that starts a `prepare`, on a lease that is free.
claimed_free :
    (runner_id lease_id : Text) (t now scheduled : ℕ) (l : Lease)
    → l.closed ≡ false
    → (current t l).state ≡ free
    → l.in_flight ≡ 0
    → let r = reservation_of lease_id now l.next_mark in
      ((prepare_claim runner_id lease_id t now scheduled l).1 ≡ ok (probe r))
      × Holds r (deadline scheduled) (prepare_claim runner_id lease_id t now scheduled l).0
unfolding prepare_claim claim current
claimed_free runner_id lease_id t now scheduled l c f n = ground arith

probe_decides :
    (runner_id : Text) (r : FencedState) (probed : Option Bool) (t now scheduled due : ℕ)
    (l : Lease)
    → Holds r due l
    → l.closed ≡ false
    → t < r.expires_at
    → (probed ≡ some true
        → (confirm_probed runner_id r probed t now scheduled l).1
          ≡ ok (record {
            lease_id = r.lease_id;
            runner_id = runner_id;
            expires_in_ms = maintenance_lease_ms;
          }))
      × (probed ≢ some true → (confirm_probed runner_id r probed t now scheduled l).0.state ≡ free)
unfolding confirm_probed confirm abandon current
probe_decides runner_id r none t now scheduled due l h c lt = (λ e. cc, λ e. ground arith)
probe_decides runner_id r (some false) t now scheduled due l h c lt = (λ e. cc, λ e. ground arith)
probe_decides runner_id r (some true) t now scheduled due l h c lt =
    (λ e. ground arith, λ e. absurd (e refl))

-- Both outcomes of a `prepare` whose reservation still stands when the probe answers.
prepare_follows_probe :
    (runner_id : Text) (input : Value) (t : Times) (w : Wait) (u : Times) (l : Lease)
    (lease_id : Text)
    → parse_prepare input ≡ ok lease_id
    → l.closed ≡ false
    → (current t.current l).state ≡ free
    → l.in_flight ≡ 0
    → All (Spares (reservation_of lease_id t.deadline l.next_mark) (deadline t.schedule)) w.between
    → (run w.between (prepare_claim runner_id lease_id t.current t.deadline t.schedule l).0).closed
      ≡ false
    → u.current < deadline t.deadline
    → (w.probed ≡ some true
        → (prepare runner_id input t w u l).1
          ≡ ok (record {
            lease_id = lease_id;
            runner_id = runner_id;
            expires_in_ms = maintenance_lease_ms;
          }))
      × (w.probed ≢ some true → (prepare runner_id input t w u l).0.state ≡ free)
prepare_follows_probe runner_id input t w u l lease_id p c f n spare c' lt =
    let r : FencedState = reservation_of lease_id t.deadline l.next_mark in
    let l' : Lease = (prepare_claim runner_id lease_id t.current t.deadline t.schedule l).0 in
    let is_claimed = claimed_free runner_id lease_id t.current t.deadline t.schedule l c f n in
    let holds = run-Holds r (deadline t.schedule) w.between l' is_claimed.1 spare in
    unfold prepare in
    rw p (
      rw is_claimed.0 (
        probe_decides runner_id r w.probed u.current u.deadline u.schedule (deadline t.schedule)
          (run w.between l') holds c' lt))

-- With a valid input, an object that is not closed, no lease standing and no request in flight, and
-- other calls that leave the reservation alone while the probe runs and do not close the object:
-- a `prepare` that ends before the reservation does grants the lease if the probe answers that the
-- runner is idle.
pub prepare_idle_grants :
    (runner_id : Text) (input : Value) (t : Times) (w : Wait) (u : Times) (l : Lease)
    (lease_id : Text)
    → parse_prepare input ≡ ok lease_id
    → l.closed ≡ false
    → (current t.current l).state ≡ free
    → l.in_flight ≡ 0
    → All (Spares (reservation_of lease_id t.deadline l.next_mark) (deadline t.schedule)) w.between
    → (run w.between (prepare_claim runner_id lease_id t.current t.deadline t.schedule l).0).closed
      ≡ false
    → u.current < deadline t.deadline
    → w.probed ≡ some true
    → (prepare runner_id input t w u l).1
      ≡ ok (record {
        lease_id = lease_id;
        runner_id = runner_id;
        expires_in_ms = maintenance_lease_ms;
      })
prepare_idle_grants runner_id input t w u l lease_id p c f n spare c' lt =
    (prepare_follows_probe runner_id input t w u l lease_id p c f n spare c' lt).0

-- With a valid input, an object that is not closed, no lease standing and no request in flight, and
-- other calls that leave the reservation alone while the probe runs and do not close the object:
-- a `prepare` that ends before the reservation does opens the lease again if the probe finds the
-- runner busy or fails.
pub prepare_busy_reopens :
    (runner_id : Text) (input : Value) (t : Times) (w : Wait) (u : Times) (l : Lease)
    (lease_id : Text)
    → parse_prepare input ≡ ok lease_id
    → l.closed ≡ false
    → (current t.current l).state ≡ free
    → l.in_flight ≡ 0
    → All (Spares (reservation_of lease_id t.deadline l.next_mark) (deadline t.schedule)) w.between
    → (run w.between (prepare_claim runner_id lease_id t.current t.deadline t.schedule l).0).closed
      ≡ false
    → u.current < deadline t.deadline
    → w.probed ≢ some true
    → (prepare runner_id input t w u l).0.state ≡ free
prepare_busy_reopens runner_id input t w u l lease_id p c f n spare c' lt =
    (prepare_follows_probe runner_id input t w u l lease_id p c f n spare c' lt).1
