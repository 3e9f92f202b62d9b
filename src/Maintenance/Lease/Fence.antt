-- ===== src/Maintenance/Lease/Fence.antt =====
-- How long a lease keeps the fence of `MaintenanceLease` shut.
use codevo_runner.Prelude.{
  ℕ, ◌+◌, ◌<◌, ◌≡◌, ◌⊎◌, false, none, some, List, [], ◌∷◌, arith, ◌==◌, All, Text, text_eq,
}
use codevo_runner.Maintenance.Lease.{
  fenced, reserved, claim_refused, refused, maintenance_lease_ms, FencedState, Lease, deadline,
  current, admit, release_request, claim, confirm, abandon, release, close, on_open, off_open,
  expire, announce, probing, held,
}
use codevo_runner.Maintenance.Lease.Invariant.{
  Op, step, run, admit_op, release_request_op, claim_op, confirm_op, abandon_op, release_op,
  close_op, on_open_op, off_open_op, expire_op, announce_op,
}

-- What leaves the fenced state `f` with a timer due at `due` alone: every reading of the clock is
-- before the end, and the operation neither releases `f` nor enters a state in its place.
abbrev pub Spares : FencedState → ℕ → Op → Type 0
Spares f due (admit_op now) = now < f.expires_at
Spares f due (release_request_op token) = Unit
Spares f due (claim_op lease_id t now scheduled) =
    (t < f.expires_at) × (f.kind ≡ held → text_eq f.lease_id lease_id ≡ false)
Spares f due (confirm_op r t now scheduled) = (t < f.expires_at) × ((f.mark == r.mark) ≡ false)
Spares f due (abandon_op r t) = (t < f.expires_at) × ((f.mark == r.mark) ≡ false)
Spares f due (release_op lease_id t) = (t < f.expires_at) × (text_eq f.lease_id lease_id ≡ false)
Spares f due close_op = Unit
Spares f due (on_open_op k) = Unit
Spares f due (off_open_op k) = Unit
Spares f due (expire_op now) = now < due
Spares f due announce_op = Unit

-- `f` stands, and its timer, unless it is cancelled, is due at `due`.
pub record Holds (f : FencedState) (due : ℕ) (l : Lease) : Type 0 where
  pub stands : l.state ≡ fenced f
  pub waits :
      (l.cancel_expiry ≡ none) ⊎ (l.cancel_expiry ≡ some (record { mark = f.mark; due = due }))

step-Holds :
    (f : FencedState) (due : ℕ) (op : Op) (l : Lease)
    → Holds f due l
    → Spares f due op
    → Holds f due (step op l)
unfolding step admit release_request claim confirm abandon release close on_open off_open expire
    announce current
step-Holds f due (admit_op now) l h s = ground arith
step-Holds f due (release_request_op token) l h s = ground arith
step-Holds f due (claim_op lease_id t now scheduled) l h s = ground arith
step-Holds f due (confirm_op r t now scheduled) l h s = ground arith
step-Holds f due (abandon_op r t) l h s = ground arith
step-Holds f due (release_op lease_id t) l h s = ground arith
step-Holds f due close_op l h s = ground arith
step-Holds f due (on_open_op k) l h s = ground arith
step-Holds f due (off_open_op k) l h s = ground arith
step-Holds f due (expire_op now) l h s = ground arith
step-Holds f due announce_op l h s = ground arith

pub run-Holds :
    (f : FencedState) (due : ℕ) (ops : List Op) (l : Lease)
    → Holds f due l
    → All (Spares f due) ops
    → Holds f due (run ops l)
unfolding run
run-Holds f due [] l h s = h
run-Holds f due (op ∷ ops) l h s = run-Holds f due ops (step op l) (step-Holds f due op l h s.0) s.1

-- From the claim that reserves a lease on, whatever operations follow that leave the reservation
-- alone (they neither release, abandon nor confirm it, and each reads a clock before its end), the
-- reservation still stands, and no request is admitted and no other claim gets through.
pub reserved_fences :
    (lease_id other : Text) (t now scheduled u n' s' : ℕ) (l : Lease) (r : FencedState)
    (ops : List Op)
    → (claim lease_id t now scheduled l).1 ≡ reserved r
    → All (Spares r (deadline scheduled)) ops
    → u < now + maintenance_lease_ms
    → let l' = run ops (claim lease_id t now scheduled l).0 in
      (l'.state ≡ fenced r)
      × ((admit u l').1 ≡ refused)
      × ((claim other u n' s' l').1 ≡ claim_refused)
reserved_fences lease_id other t now scheduled u n' s' l r ops h spare lt =
    closing (run ops (claim lease_id t now scheduled l).0) expiry
      (run-Holds r (deadline scheduled) ops (claim lease_id t now scheduled l).0 begins spare)
  where
    expiry : (r.expires_at ≡ now + maintenance_lease_ms) × (r.kind ≡ probing)
    expiry = unfold claim current in ground arith

    begins : Holds r (deadline scheduled) (claim lease_id t now scheduled l).0
    begins = unfold claim current in ground arith

    closing :
        (k : Lease)
        → (r.expires_at ≡ now + maintenance_lease_ms) × (r.kind ≡ probing)
        → Holds r (deadline scheduled) k
        → (k.state ≡ fenced r)
          × ((admit u k).1 ≡ refused)
          × ((claim other u n' s' k).1 ≡ claim_refused)
    closing k e holds = unfold claim admit current in ground arith
