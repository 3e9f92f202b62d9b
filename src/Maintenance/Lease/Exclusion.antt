-- ===== src/Maintenance/Lease/Exclusion.antt =====
-- Who gets through the fence of `MaintenanceLease`, and when it opens.
use codevo_runner.Prelude.{ℕ, ◌+◌, ◌<◌, ◌≡◌, false, arith, Text}
use codevo_runner.Maintenance.Lease.{
  Lease, FencedState, free, fenced, probing, admit, claim, current, deadline, refused,
  claim_refused, reserved, maintenance_lease_ms,
}

-- A claim reserves the lease if the object is not closed, no other lease stands at that
-- time, and no admitted request is in flight.
pub claim_reserves :
    (lease_id : Text) (t now scheduled : ℕ) (l : Lease)
    → l.closed ≡ false
    → (current t l).state ≡ free
    → l.in_flight ≡ 0
    → (claim lease_id t now scheduled l).1
      ≡ reserved (record {
        kind = probing;
        lease_id = lease_id;
        expires_at = deadline now;
        mark = l.next_mark;
      })
unfolding claim current
claim_reserves lease_id t now scheduled l c f n = ground arith

pub claim_reserved_only :
    (lease_id : Text) (t now scheduled : ℕ) (l : Lease) (r : FencedState)
    → (claim lease_id t now scheduled l).1 ≡ reserved r
    → (l.closed ≡ false)
      × ((current t l).state ≡ free)
      × (l.in_flight ≡ 0)
      × ((claim lease_id t now scheduled l).0.state ≡ fenced r)
unfolding claim current
claim_reserved_only lease_id t now scheduled l r h = ground arith

-- Until a reservation expires no request is admitted, and no claim of any lease gets through.
pub reserved_excludes :
    (lease_id other : Text) (t now scheduled u n' s' : ℕ) (l : Lease) (r : FencedState)
    → (claim lease_id t now scheduled l).1 ≡ reserved r
    → u < now + maintenance_lease_ms
    → let l' = (claim lease_id t now scheduled l).0 in
      ((admit u l').1 ≡ refused) × ((claim other u n' s' l').1 ≡ claim_refused)
unfolding claim current admit
reserved_excludes lease_id other t now scheduled u n' s' l r h lt = ground arith
