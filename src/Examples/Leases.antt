-- ===== src/Examples/Leases.antt =====
-- src/application/maintenance-lease.ts and maintenance-service.ts at concrete inputs.
use codevo_runner.Prelude.{
  ℕ, ◌<◌, ◌≡◌, refl, true, false, none, some, List, [], ◌∷◌, arith, All, Text, codes, text_eq,
}
use codevo_runner.Json.{Value, lookup, str, obj, end, field}
use codevo_runner.Contracts.{is_id, ok}
use codevo_runner.Maintenance.Lease.{
  maintenance_lease_ms, FencedState, Lease, deadline, new, current, admit, claim, confirm, abandon,
  probing, free, fenced, reserved, claim_refused, confirmed, lost, refused,
}
use codevo_runner.Maintenance.Lease.Invariant.{
  Op, step, run, Inv, new-Inv, lease_run-Inv, admit_op, release_request_op, claim_op, release_op,
}
use codevo_runner.Maintenance.Lease.Fence.{Spares, reserved_fences}
use codevo_runner.Maintenance.Lease.Stale.{confirm_once, abandoned_lost}
use codevo_runner.Maintenance.Service.{Grant, parse_prepare, prepare_claim, Times, Wait, prepare}
use codevo_runner.Maintenance.Service.Probed.{
  reservation_of, prepare_idle_grants, prepare_busy_reopens,
}
use codevo_runner.Maintenance.Service.Grants.{IsHeldBy, RunsInFull, prepare_grants_exclusive}

abbrev lease : Text
lease = codes "0f8fad5b-d9cb-4a69-a165-70867728950e"

abbrev other_lease : Text
other_lease = codes "7c9e6679-7425-40de-944b-e07fc1f90ae7"

abbrev busy_then_idle : List Op
busy_then_idle =
    admit_op 1 ∷ claim_op lease 2 2 2 ∷ release_request_op 0 ∷ claim_op lease 3 3 3 ∷ []

lease_run-Inv_example : Inv (run busy_then_idle (new none 0))
lease_run-Inv_example = lease_run-Inv none 0 busy_then_idle

abbrev reservation : FencedState
reservation = record { kind = probing; lease_id = lease; expires_at = deadline 5; mark = 0 }

abbrev claimed : Lease
claimed = (claim lease 5 5 5 (new none 0)).0

is_reserved : (claim lease 5 5 5 (new none 0)).1 ≡ reserved reservation
unfolding claim new current
is_reserved = refl

spared : All (Spares reservation (deadline 5)) (admit_op 6 ∷ claim_op other_lease 7 7 7 ∷ [])
spared = ground arith

reserved_fences_example :
    let l' = run (admit_op 6 ∷ claim_op other_lease 7 7 7 ∷ []) claimed in
    (l'.state ≡ fenced reservation)
    × ((admit 8 l').1 ≡ refused)
    × ((claim other_lease 8 8 8 l').1 ≡ claim_refused)
reserved_fences_example =
    reserved_fences lease other_lease 5 5 5 8 8 8 (new none 0) reservation
      (admit_op 6 ∷ claim_op other_lease 7 7 7 ∷ []) is_reserved spared (omega arith)

abbrev reserved_lease : Lease
reserved_lease = run (claim_op lease 5 5 5 ∷ []) (new none 0)

is_confirmed : (confirm reservation 6 6 6 reserved_lease).1 ≡ confirmed maintenance_lease_ms
unfolding run step claim new current confirm
is_confirmed = refl

confirm_once_example :
    (confirm reservation 9 9 9
      (run (release_op lease 8 ∷ []) (confirm reservation 6 6 6 reserved_lease).0)).1
    ≡ lost
confirm_once_example =
    confirm_once reservation 6 6 6 9 9 9 reserved_lease (release_op lease 8 ∷ [])
      (lease_run-Inv none 0 (claim_op lease 5 5 5 ∷ [])) is_confirmed

is_drawn : reservation.mark < reserved_lease.next_mark
unfolding run step claim new current
is_drawn = omega arith

abandoned_lost_example :
    (confirm reservation 9 9 9
      (run (claim_op lease 8 8 8 ∷ []) (abandon reservation 7 reserved_lease))).1
    ≡ lost
abandoned_lost_example =
    abandoned_lost reservation 7 9 9 9 reserved_lease (claim_op lease 8 8 8 ∷ []) is_drawn

abbrev input : Value
input = obj (field (codes "leaseId") (str lease) end)

abbrev at : ℕ → Times
at t = record { current = t; deadline = t; schedule = t }

abbrev idle_probe : Wait
idle_probe = record { between = admit_op 6 ∷ []; probed = some true }

abbrev busy_probe : Wait
busy_probe = record { between = admit_op 6 ∷ []; probed = some false }

abbrev runner : Text
runner = codes "runner"

abbrev granted_lease : Grant
granted_lease = record {
  lease_id = lease;
  runner_id = runner;
  expires_in_ms = maintenance_lease_ms;
}

is_parsed : parse_prepare input ≡ ok lease
unfolding parse_prepare text_eq is_id lookup
is_parsed = refl

is_new_free : (current 5 (new none 0)).state ≡ free
unfolding new current
is_new_free = refl

still_open :
    (run (admit_op 6 ∷ []) (prepare_claim runner lease 5 5 5 (new none 0)).0).closed ≡ false
unfolding run step admit prepare_claim claim new current
still_open = refl

spared_wait :
    All (Spares (reservation_of lease 5 (new none 0).next_mark) (deadline 5)) (admit_op 6 ∷ [])
spared_wait = ground arith

prepare_idle_grants_example :
    (prepare runner input (at 5) idle_probe (at 7) (new none 0)).1 ≡ ok granted_lease
prepare_idle_grants_example =
    prepare_idle_grants runner input (at 5) idle_probe (at 7) (new none 0) lease is_parsed
      (unfold new in refl) is_new_free (unfold new in refl) spared_wait still_open (omega arith)
      refl

prepare_busy_reopens_example :
    (prepare runner input (at 5) busy_probe (at 7) (new none 0)).0.state ≡ free
prepare_busy_reopens_example =
    prepare_busy_reopens runner input (at 5) busy_probe (at 7) (new none 0) lease is_parsed
      (unfold new in refl) is_new_free (unfold new in refl) spared_wait still_open (omega arith)
      (λ e. cc)

prepare_grants_exclusive_example :
    (parse_prepare input ≡ ok lease)
    × (maintenance_lease_ms ≡ maintenance_lease_ms)
    × IsHeldBy lease (prepare runner input (at 5) idle_probe (at 7) (new none 0)).0.state
    × ((prepare runner input (at 5) idle_probe (at 7) (new none 0)).0.in_flight ≡ 0)
    × RunsInFull
        (at 5)
        (at 7)
        maintenance_lease_ms
        (prepare runner input (at 5) idle_probe (at 7) (new none 0)).0
prepare_grants_exclusive_example =
    prepare_grants_exclusive runner input (at 5) idle_probe (at 7) (new none 0) granted_lease
      (new-Inv none 0) prepare_idle_grants_example
