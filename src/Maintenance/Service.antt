-- ===== src/Maintenance/Service.antt =====
-- src/application/maintenance-service.ts: `MaintenanceService` and `RunnerIdleProbe`, and the
-- parsers of src/domain/maintenance.ts. `prepare` waits for the probe once; what other calls do to
-- the lease meanwhile is an explicit sequence of its operations.
pub mod Grants
pub mod Probed
use codevo_runner.Prelude.{
  ℕ, Bool, true, false, not, ◌||◌, Option, none, some, List, [], ltb, ◌==◌, if◌then◌else◌, length,
  any, Text, codes,
}
use codevo_runner.Json.{Value, keys, lookup, str, obj}
use codevo_runner.Contracts.{
  Result, ◌>>=◌, ◌>>◌, is_id, invalid_input, conflict, storage_unavailable, ok, err,
}
use codevo_runner.Maintenance.Lease.{
  FencedState, Lease, LeaseClaim, LeaseConfirmation, claim, confirm, abandon, release, renewed,
  reserved, claim_refused, confirmed, lost,
}
use codevo_runner.Maintenance.Lease.Invariant.{Op, run}

pub record RunnerActivity : Type 0 where
  pub active_tasks : ℕ
  pub active_clones : ℕ
  pub queued_pending_messages : ℕ

pub record Grant : Type 0 where
  pub lease_id : Text
  pub runner_id : Text
  pub expires_in_ms : ℕ

pub record Release : Type 0 where
  pub lease_id : Text
  pub released : Bool

-- `isId(value)` and the string that it finds.
id_of : Option Value → Result Text
id_of (some (str s)) = if is_id s then ok s else err invalid_input
id_of _ = err invalid_input

unfoldable pub parse_prepare : Value → Result Text
unfolding id_of lookup
parse_prepare (obj fs) =
    if length (keys fs) == 1 then id_of (lookup (codes "leaseId") fs) else err invalid_input
parse_prepare _ = err invalid_input

unfoldable pub parse_lease_id : Value → Result Text
unfolding id_of
parse_lease_id v = id_of (some v)

unfoldable pub is_runner_active : RunnerActivity → Bool
is_runner_active a =
    ltb 0 a.active_tasks || ltb 0 a.active_clones || ltb 0 a.queued_pending_messages

-- `working`: some source works.
abbrev pub working : List Bool → Bool
working sources = any (λ w. w) sources

-- `RunnerIdleProbe.idle`: the sources before and after the wait for the repository, whose failure is
-- `none`.
unfoldable pub idle : List Bool → Option RunnerActivity → List Bool → Option Bool
unfolding is_runner_active
idle before activity after = if working before then some false else elim activity [
  | none ↦ none
  | some a ↦ some (if is_runner_active a then false else not (working after))
]

abbrev grant : Text → Text → ℕ → Grant
grant runner_id lease_id ms = record {
  lease_id = lease_id;
  runner_id = runner_id;
  expires_in_ms = ms;
}

-- `prepare` up to the probe: a renewed lease is granted at once, a reserved one goes on.
pub data Prepared : Type 0 where
  granted : Grant → Prepared
  probe : FencedState → Prepared

prepared_of : Text → Text → LeaseClaim → Result Prepared
prepared_of runner_id lease_id claim_refused = err conflict
prepared_of runner_id lease_id (renewed ms) = ok (granted (grant runner_id lease_id ms))
prepared_of runner_id lease_id (reserved r) = ok (probe r)

unfoldable pub prepare_claim : Text → Text → ℕ → ℕ → ℕ → Lease → Lease × Result Prepared
unfolding prepared_of
prepare_claim runner_id lease_id t now scheduled l =
    let (l', c) = claim lease_id t now scheduled l in (l', prepared_of runner_id lease_id c)

confirmation_of : Text → Text → LeaseConfirmation → Result Grant
confirmation_of runner_id lease_id lost = err conflict
confirmation_of runner_id lease_id (confirmed ms) = ok (grant runner_id lease_id ms)

-- `confirm`, after the probe; a failure of the probe is rethrown as itself, here as the error that
-- storage failures have.
confirm_probed : Text → FencedState → Option Bool → ℕ → ℕ → ℕ → Lease → Lease × Result Grant
unfolding confirmation_of
confirm_probed runner_id r none t now scheduled l = (abandon r t l, err storage_unavailable)
confirm_probed runner_id r (some false) t now scheduled l = (abandon r t l, err conflict)
confirm_probed runner_id r (some true) t now scheduled l =
    let (l', c) = confirm r t now scheduled l in (l', confirmation_of runner_id r.lease_id c)

-- A reading of the clock in each of `current`, `deadline` and `schedule`.
pub record Times : Type 0 where
  pub current : ℕ
  pub deadline : ℕ
  pub schedule : ℕ

-- What happens while `prepare` waits, and what the probe answers.
pub record Wait : Type 0 where
  pub between : List Op
  pub probed : Option Bool

prepare_rest : Text → Result Prepared → Wait → Times → Lease → Lease × Result Grant
unfolding confirm_probed
prepare_rest runner_id (err e) w u l = (l, err e)
prepare_rest runner_id (ok (granted g)) w u l = (l, ok g)
prepare_rest runner_id (ok (probe r)) w u l =
    confirm_probed runner_id r w.probed u.current u.deadline u.schedule (run w.between l)

prepare_parsed : Text → Result Text → Times → Wait → Times → Lease → Lease × Result Grant
unfolding prepare_claim prepare_rest
prepare_parsed runner_id (err e) t w u l = (l, err e)
prepare_parsed runner_id (ok lease_id) t w u l =
    let (l', p) = prepare_claim runner_id lease_id t.current t.deadline t.schedule l in
    prepare_rest runner_id p w u l'

-- `prepare`.
unfoldable pub prepare : Text → Value → Times → Wait → Times → Lease → Lease × Result Grant
unfolding prepare_parsed
prepare runner_id input t w u l = prepare_parsed runner_id (parse_prepare input) t w u l

release_parsed : Result Text → ℕ → Lease → Lease × Result Release
release_parsed (err e) t l = (l, err e)
release_parsed (ok lease_id) t l =
    let (l', done) = release lease_id t l in
    (l', ok (record { lease_id = lease_id; released = done }))

-- `release`.
unfoldable pub release_lease : Value → ℕ → Lease → Lease × Result Release
unfolding release_parsed
release_lease input t l = release_parsed (parse_lease_id input) t l
