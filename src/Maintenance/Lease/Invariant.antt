-- ===== src/Maintenance/Lease/Invariant.antt =====
-- What holds of a `MaintenanceLease` between two of its operations, whatever they are.
use codevo_runner.Prelude.{
  ℕ, ◌<◌, ◌≡◌, Bool, true, false, Option, none, some, List, [], ◌∷◌, arith, live, live-append,
  live-set, Text,
}
use codevo_runner.Maintenance.Lease.{
  free, fenced, FencedState, LeaseState, Timer, Lease, new, current, admit, release_request, claim,
  confirm, abandon, release, close, on_open, off_open, expire, announce,
}

-- An operation of the object, with the values that it reads from its clock.
pub data Op : Type 0 where
  admit_op : ℕ → Op
  release_request_op : ℕ → Op
  claim_op : Text → ℕ → ℕ → ℕ → Op
  confirm_op : FencedState → ℕ → ℕ → ℕ → Op
  abandon_op : FencedState → ℕ → Op
  release_op : Text → ℕ → Op
  close_op : Op
  on_open_op : ℕ → Op
  off_open_op : ℕ → Op
  expire_op : ℕ → Op
  announce_op : Op

unfoldable pub step : Op → Lease → Lease
step (admit_op now) l = (admit now l).0
step (release_request_op token) l = release_request token l
step (claim_op lease_id t now scheduled) l = (claim lease_id t now scheduled l).0
step (confirm_op r t now scheduled) l = (confirm r t now scheduled l).0
step (abandon_op r t) l = abandon r t l
step (release_op lease_id t) l = (release lease_id t l).0
step close_op l = close l
step (on_open_op k) l = on_open k l
step (off_open_op k) l = off_open k l
step (expire_op now) l = expire now l
step announce_op l = (announce l).0

unfoldable pub run : List Op → Lease → Lease
run [] l = l
run (op ∷ ops) l = run ops (step op l)

abbrev pub IsExclusive : LeaseState → ℕ → Type 0
IsExclusive free n = Unit
IsExclusive (fenced f) n = n ≡ 0

abbrev pub IsMarked : LeaseState → ℕ → Type 0
IsMarked free n = Unit
IsMarked (fenced f) n = f.mark < n

-- A fenced state of an object that is not closed has its own timer pending.
abbrev pub IsTimed : LeaseState → Bool → Option Timer → Type 0
IsTimed free closed timer = Unit
IsTimed (fenced f) true timer = Unit
IsTimed (fenced f) false none = ⊥
IsTimed (fenced f) false (some timer) = timer.mark ≡ f.mark

pub record Inv (l : Lease) : Type 0 where
  pub counted : l.in_flight ≡ live l.released
  pub exclusive : IsExclusive l.state l.in_flight
  pub marked : IsMarked l.state l.next_mark
  pub timed : IsTimed l.state l.closed l.cancel_expiry

pub new-Inv : (start : Option Text) (now : ℕ) → Inv (new start now)
unfolding new
new-Inv none now = ground arith
new-Inv (some lease_id) now = ground arith

pub current-Inv : (now : ℕ) (l : Lease) → Inv l → Inv (current now l)
unfolding current
current-Inv now l h = ground arith

step_admit : (now : ℕ) (l : Lease) → Inv l → Inv (admit now l).0
unfolding admit
step_admit now l h = ground (arith, current-Inv now l h, live-append (current now l).released)

step_release_request : (token : ℕ) (l : Lease) → Inv l → Inv (release_request token l)
unfolding release_request
step_release_request token l h = ground (arith, live-set l.released token)

step_claim :
    (lease_id : Text) (t now scheduled : ℕ) (l : Lease)
    → Inv l
    → Inv (claim lease_id t now scheduled l).0
unfolding claim
step_claim lease_id t now scheduled l h = ground (arith, current-Inv t l h)

step_confirm :
    (r : FencedState) (t now scheduled : ℕ) (l : Lease)
    → Inv l
    → Inv (confirm r t now scheduled l).0
unfolding confirm
step_confirm r t now scheduled l h = ground (arith, current-Inv t l h)

step_abandon : (r : FencedState) (t : ℕ) (l : Lease) → Inv l → Inv (abandon r t l)
unfolding abandon
step_abandon r t l h = ground (arith, current-Inv t l h)

step_release : (lease_id : Text) (t : ℕ) (l : Lease) → Inv l → Inv (release lease_id t l).0
unfolding release
step_release lease_id t l h = ground (arith, current-Inv t l h)

-- Every operation keeps the invariant.
pub step-Inv : (op : Op) (l : Lease) → Inv l → Inv (step op l)
unfolding step close on_open off_open expire announce
step-Inv (admit_op now) l h = step_admit now l h
step-Inv (release_request_op token) l h = step_release_request token l h
step-Inv (claim_op lease_id t now scheduled) l h = step_claim lease_id t now scheduled l h
step-Inv (confirm_op r t now scheduled) l h = step_confirm r t now scheduled l h
step-Inv (abandon_op r t) l h = step_abandon r t l h
step-Inv (release_op lease_id t) l h = step_release lease_id t l h
step-Inv close_op l h = ground arith
step-Inv (on_open_op k) l h = ground arith
step-Inv (off_open_op k) l h = ground arith
step-Inv (expire_op now) l h = ground arith
step-Inv announce_op l h = ground arith

pub run-Inv-from : (ops : List Op) (l : Lease) → Inv l → Inv (run ops l)
unfolding run
run-Inv-from [] l h = h
run-Inv-from (op ∷ ops) l h = run-Inv-from ops (step op l) (step-Inv op l h)

-- After any sequence of operations on a new lease, whatever the clock shows: the counter of requests
-- in flight is the number of admissions whose `release` has not run, it is 0 while the lease is
-- fenced, every fenced state is older than the next one, and a fenced lease that is not closed has
-- the timer of exactly that state pending.
pub lease_run-Inv : (start : Option Text) (now : ℕ) (ops : List Op) → Inv (run ops (new start now))
lease_run-Inv start now ops = run-Inv-from ops (new start now) (new-Inv start now)
