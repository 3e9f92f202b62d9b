-- ===== src/Maintenance/Lease/Stale.antt =====
-- A reservation of `MaintenanceLease` that has been used, abandoned or expired is never good again.
use codevo_runner.Prelude.{ℕ, ◌<◌, ◌≡◌, false, List, [], ◌∷◌, arith, ◌==◌}
use codevo_runner.Maintenance.Lease.{
  FencedState, LeaseState, Lease, current, admit, release_request, claim, confirm, abandon, release,
  close, on_open, off_open, expire, announce, free, fenced, confirmed, lost,
}
use codevo_runner.Maintenance.Lease.Invariant.{
  Op, step, run, Inv, admit_op, release_request_op, claim_op, confirm_op, abandon_op, release_op,
  close_op, on_open_op, off_open_op, expire_op, announce_op,
}

abbrev pub IsOther : LeaseState → ℕ → Type 0
IsOther free mark = Unit
IsOther (fenced f) mark = (f.mark == mark) ≡ false

-- The object with that mark is not the current state, and no later state can be it.
pub record IsSpent (mark : ℕ) (l : Lease) : Type 0 where
  pub drawn : mark < l.next_mark
  pub other : IsOther l.state mark

step-IsSpent : (mark : ℕ) (op : Op) (l : Lease) → IsSpent mark l → IsSpent mark (step op l)
unfolding step admit release_request claim confirm abandon release close on_open off_open expire
    announce current
step-IsSpent mark (admit_op now) l h = ground arith
step-IsSpent mark (release_request_op token) l h = ground arith
step-IsSpent mark (claim_op lease_id t now scheduled) l h = ground arith
step-IsSpent mark (confirm_op r t now scheduled) l h = ground arith
step-IsSpent mark (abandon_op r t) l h = ground arith
step-IsSpent mark (release_op lease_id t) l h = ground arith
step-IsSpent mark close_op l h = ground arith
step-IsSpent mark (on_open_op k) l h = ground arith
step-IsSpent mark (off_open_op k) l h = ground arith
step-IsSpent mark (expire_op now) l h = ground arith
step-IsSpent mark announce_op l h = ground arith

run-IsSpent : (mark : ℕ) (ops : List Op) (l : Lease) → IsSpent mark l → IsSpent mark (run ops l)
unfolding run
run-IsSpent mark [] l h = h
run-IsSpent mark (op ∷ ops) l h = run-IsSpent mark ops (step op l) (step-IsSpent mark op l h)

confirm_spent :
    (r : FencedState) (t now scheduled : ℕ) (l : Lease)
    → IsSpent r.mark l
    → (confirm r t now scheduled l).1 ≡ lost
unfolding confirm current
confirm_spent r t now scheduled l h = ground arith

IsSpent-by_confirm :
    (r : FencedState) (t now scheduled : ℕ) (l : Lease) {k : ℕ}
    → Inv l
    → (confirm r t now scheduled l).1 ≡ confirmed k
    → IsSpent r.mark (confirm r t now scheduled l).0
unfolding confirm current
IsSpent-by_confirm r t now scheduled l inv h = ground arith

IsSpent-by_abandon :
    (r : FencedState) (t : ℕ) (l : Lease) → r.mark < l.next_mark → IsSpent r.mark (abandon r t l)
unfolding abandon current
IsSpent-by_abandon r t l h = ground arith

-- On a lease whose invariant holds, a reservation is confirmed at most once: after a confirmation that succeeded, whatever operations
-- follow, the same reservation is lost.
pub confirm_once :
    (r : FencedState) (t now scheduled t' now' scheduled' : ℕ) (l : Lease) (ops : List Op) {k : ℕ}
    → Inv l
    → (confirm r t now scheduled l).1 ≡ confirmed k
    → (confirm r t' now' scheduled' (run ops (confirm r t now scheduled l).0)).1 ≡ lost
confirm_once r t now scheduled t' now' scheduled' l ops inv h =
    confirm_spent r t' now' scheduled' (run ops (confirm r t now scheduled l).0) (
      run-IsSpent r.mark ops (confirm r t now scheduled l).0
        (IsSpent-by_confirm r t now scheduled l inv h))

-- After a reservation that the object has made is abandoned, whatever operations follow, confirming it answers `lost`.
pub abandoned_lost :
    (r : FencedState) (t t' now' scheduled' : ℕ) (l : Lease) (ops : List Op)
    → r.mark < l.next_mark
    → (confirm r t' now' scheduled' (run ops (abandon r t l))).1 ≡ lost
abandoned_lost r t t' now' scheduled' l ops h =
    confirm_spent r t' now' scheduled' (run ops (abandon r t l))
      (run-IsSpent r.mark ops (abandon r t l) (IsSpent-by_abandon r t l h))
