-- ===== src/Maintenance/Lease.antt =====
-- src/application/maintenance-lease.ts: the class `MaintenanceLease`. A method that mutates the
-- object returns the new state; a read of the clock is an argument, one for each read. What the code
-- compares by object identity, a fenced state, carries a `mark` that is drawn afresh when the object
-- is made. A `release` closure is the index of its flag; microtasks and the timer are events.
pub mod Invariant
pub mod Exclusion
pub mod Fence
pub mod Stale
use codevo_runner.Prelude.{
  ℕ, suc, ◌+◌, ◌-◌, ◌∷◌, ◌++◌, Bool, true, false, ◌&&◌, not, Option, none, some, List, [], leb, ltb,
  ◌==◌, if◌then◌else◌, length, get_elem?, set, keep, Text, text_eq,
}

abbrev pub maintenance_lease_ms : ℕ
maintenance_lease_ms = 30000

pub data Kind : Type 0 where
  probing held : Kind

pub record FencedState : Type 0 where
  pub kind : Kind
  pub lease_id : Text
  pub expires_at : ℕ
  pub mark : ℕ

pub data LeaseState : Type 0 where
  free : LeaseState
  fenced : FencedState → LeaseState

-- `cancelExpiry` is the pending timer, with the state that it would open and its due time.
pub record Timer : Type 0 where
  pub mark : ℕ
  pub due : ℕ

pub record Lease : Type 0 where
  pub state : LeaseState
  pub in_flight : ℕ
  pub closed : Bool
  pub cancel_expiry : Option Timer
  pub listeners : List ℕ
  pub released : List Bool
  pub announcements : ℕ
  pub next_mark : ℕ

pub data LeaseClaim : Type 0 where
  renewed : ℕ → LeaseClaim
  reserved : FencedState → LeaseClaim
  claim_refused : LeaseClaim

pub data LeaseConfirmation : Type 0 where
  confirmed : ℕ → LeaseConfirmation
  lost : LeaseConfirmation

-- `admitted` carries the index of the flag of its `release` closure.
pub data RequestAdmission : Type 0 where
  admitted : ℕ → RequestAdmission
  refused : RequestAdmission

abbrev pub deadline : ℕ → ℕ
deadline now = now + maintenance_lease_ms

-- `open`: the timer is cancelled and a microtask will announce.
unfoldable pub open_lease : Lease → Lease
open_lease l = record l { state = free; cancel_expiry = none; announcements = l.announcements + 1 }

-- `enter`: the timer is due one lease after the clock's value at `schedule`.
unfoldable pub enter : Kind → Text → ℕ → ℕ → Lease → Lease
enter kind lease_id expires_at scheduled l = record l {
  state =
      fenced
        (record { kind = kind; lease_id = lease_id; expires_at = expires_at; mark = l.next_mark });
  cancel_expiry = some (record { mark = l.next_mark; due = deadline scheduled });
  next_mark = l.next_mark + 1;
}

abbrev pub fresh : Lease
fresh = record {
  state = free;
  in_flight = 0;
  closed = false;
  cancel_expiry = none;
  listeners = [];
  released = [];
  announcements = 0;
  next_mark = 0;
}

-- The constructor.
unfoldable pub new : Option Text → ℕ → Lease
unfolding enter
new none now = fresh
new (some lease_id) now = enter held lease_id (deadline now) now fresh

-- `current`: an expired state is opened before it is returned.
current_of : LeaseState → ℕ → Lease → Lease
unfolding open_lease
current_of free now l = l
current_of (fenced f) now l = if not l.closed && leb f.expires_at now then open_lease l else l

unfoldable pub current : ℕ → Lease → Lease
unfolding current_of
current now l = current_of l.state now l

abbrev pub is_free : LeaseState → Bool
is_free free = true
is_free (fenced _) = false

-- The getter `fenced`.
abbrev pub is_fenced : ℕ → Lease → Bool
is_fenced now l = not (is_free (current now l).state)

-- `admit`.
admit_in : Bool → Lease → Lease × RequestAdmission
admit_in false l = (l, refused)
admit_in true l = (
  record l { in_flight = l.in_flight + 1; released = l.released ++ false ∷ [] },
  admitted (length l.released),
)

unfoldable pub admit : ℕ → Lease → Lease × RequestAdmission
unfolding admit_in
admit now l = let c = current now l in admit_in (is_free c.state) c

-- The `release` closure that `admit` returned.
release_flag : Option Bool → ℕ → Lease → Lease
release_flag (some false) token l = record l {
  in_flight = l.in_flight - 1;
  released = set l.released token true;
}
release_flag _ token l = l

unfoldable pub release_request : ℕ → Lease → Lease
unfolding release_flag
release_request token l = release_flag (get_elem? l.released token) token l

-- `hold`, with the clock's value for the deadline and at `schedule`.
unfoldable pub hold : Text → ℕ → ℕ → Lease → Lease
unfolding enter
hold lease_id now scheduled l = enter held lease_id (deadline now) scheduled l

-- The `switch` of `claim`, after `current`.
claim_state : LeaseState → Text → ℕ → ℕ → Lease → Lease × LeaseClaim
unfolding enter hold
claim_state free lease_id now scheduled l = if ltb 0 l.in_flight then (l, claim_refused) else (
  enter probing lease_id (deadline now) scheduled l,
  reserved (record {
    kind = probing;
    lease_id = lease_id;
    expires_at = deadline now;
    mark = l.next_mark;
  }),
)
claim_state (fenced f) lease_id now scheduled l = elim f.kind [
  | probing ↦ (l, claim_refused)
  | held ↦
      if text_eq f.lease_id lease_id
      then (hold lease_id now scheduled l, renewed maintenance_lease_ms)
      else (l, claim_refused)
]

-- `claim`, with the clock's values in `current`, `deadline` and `schedule`.
unfoldable pub claim : Text → ℕ → ℕ → ℕ → Lease → Lease × LeaseClaim
unfolding claim_state current
claim lease_id t now scheduled l =
    if l.closed
    then (l, claim_refused)
    else (let c = current t l in claim_state c.state lease_id now scheduled c)

-- `this.current() === reservation`.
abbrev pub is_reservation : LeaseState → FencedState → Bool
is_reservation free r = false
is_reservation (fenced f) r = f.mark == r.mark

-- `confirm`.
unfoldable pub confirm : FencedState → ℕ → ℕ → ℕ → Lease → Lease × LeaseConfirmation
unfolding current hold
confirm r t now scheduled l =
    if l.closed
    then (l, lost)
    else (let c = current t l in
        if is_reservation c.state r
        then (hold r.lease_id now scheduled c, confirmed maintenance_lease_ms)
        else (c, lost))

-- `abandon`.
unfoldable pub abandon : FencedState → ℕ → Lease → Lease
unfolding current open_lease
abandon r t l = let c = current t l in if is_reservation c.state r then open_lease c else c

-- `release`.
release_state : LeaseState → Text → Lease → Lease × Bool
unfolding open_lease
release_state free lease_id l = (l, false)
release_state (fenced f) lease_id l =
    if text_eq f.lease_id lease_id then (open_lease l, true) else (l, false)

unfoldable pub release : Text → ℕ → Lease → Lease × Bool
unfolding release_state current
release lease_id t l = let c = current t l in release_state c.state lease_id c

-- `close`.
unfoldable pub close : Lease → Lease
close l = record l { closed = true; cancel_expiry = none; listeners = [] }

-- `onOpen` and the function that it returns; a listener is its identity in the `Set`.
unfoldable pub on_open : ℕ → Lease → Lease
on_open listener l = record l {
  listeners = keep (λ k. not (k == listener)) l.listeners ++ listener ∷ [];
}

unfoldable pub off_open : ℕ → Lease → Lease
off_open listener l = record l { listeners = keep (λ k. not (k == listener)) l.listeners }

-- The callback of `schedule`, run once the timer is due.
expire_timer : Option Timer → ℕ → Lease → Lease
unfolding open_lease
expire_timer none now l = l
expire_timer (some timer) now l =
    if leb timer.due now
    then (if elim l.state [ free ↦ false | fenced f ↦ f.mark == timer.mark ]
        then open_lease l
        else record l { cancel_expiry = none })
    else l

unfoldable pub expire : ℕ → Lease → Lease
unfolding expire_timer
expire now l = expire_timer l.cancel_expiry now l

-- The microtask that `open` queued; the listeners that it calls are returned.
announce_state : LeaseState → Lease → Lease × List ℕ
announce_state free l = (record l { announcements = l.announcements - 1 }, l.listeners)
announce_state (fenced f) l = (record l { announcements = l.announcements - 1 }, [])

unfoldable pub announce : Lease → Lease × List ℕ
unfolding announce_state
announce l = announce_state l.state l
