-- ===== src/Maintenance/Service/Grants.antt =====
-- src/application/maintenance-service.ts: what a grant of `prepare` promises, and when a lease is granted.
use codevo_runner.Json.{Value}
use codevo_runner.Maintenance.Service.{
  granted, probe, confirm_probed, prepare_rest, prepare_parsed, Grant, parse_prepare, Prepared,
  prepare_claim, Times, Wait, prepare,
}
use mathlib.Core.Path.{subst}
use codevo_runner.Maintenance.Lease.{
  maintenance_lease_ms, FencedState, LeaseState, Timer, Lease, LeaseConfirmation, current, claim,
  confirm, held, free, fenced, confirmed, lost,
}
use codevo_runner.Prelude.{
  ℕ, ◌+◌, ◌≡◌, refl, sym, ◌∙◌, ◌⊎◌, inl, inr, Bool, true, false, Option, none, some, arith, Text,
  text_eq_iff,
}
use codevo_runner.Contracts.{Result, ok, err}
use codevo_runner.Maintenance.Lease.Invariant.{
  step, run, Inv, step-Inv, run-Inv-from, claim_op, confirm_op, abandon_op,
}

-- The fenced state in which a grant leaves the lease.
abbrev pub IsHeldBy : Text → LeaseState → Type 0
IsHeldBy lease_id free = ⊥
IsHeldBy lease_id (fenced f) = (f.kind ≡ held) × (f.lease_id ≡ lease_id)

-- The lease runs out `ms` after the clock's reading `now`, and its timer is due `ms` after the
-- reading `scheduled`.
abbrev pub RunsFor : ℕ → ℕ → ℕ → LeaseState → Option Timer → Type 0
RunsFor ms now scheduled free timer = ⊥
RunsFor ms now scheduled (fenced f) timer =
    (f.expires_at ≡ now + ms) × (timer ≡ some (record { mark = f.mark; due = scheduled + ms }))

held_no_flight : (lease_id : Text) (l : Lease) → Inv l → IsHeldBy lease_id l.state → l.in_flight ≡ 0
held_no_flight lease_id l inv h = ground arith

prepare_claim_granted :
    (runner_id lease_id : Text) (t now scheduled : ℕ) (l : Lease) (g : Grant)
    → (prepare_claim runner_id lease_id t now scheduled l).1 ≡ ok (granted g)
    → (g ≡ record {
      lease_id = lease_id;
      runner_id = runner_id;
      expires_in_ms = maintenance_lease_ms;
    })
      × IsHeldBy lease_id (prepare_claim runner_id lease_id t now scheduled l).0.state
      × RunsFor maintenance_lease_ms now scheduled
          (prepare_claim runner_id lease_id t now scheduled l).0.state
          (prepare_claim runner_id lease_id t now scheduled l).0.cancel_expiry
unfolding prepare_claim claim current
prepare_claim_granted runner_id lease_id t now scheduled l g h =
    ground (arith, λ (f : FencedState). text_eq_iff f.lease_id lease_id)

prepare_claim_probe :
    (runner_id lease_id : Text) (t now scheduled : ℕ) (l : Lease) (r : FencedState)
    → (prepare_claim runner_id lease_id t now scheduled l).1 ≡ ok (probe r)
    → r.lease_id ≡ lease_id
unfolding prepare_claim claim current
prepare_claim_probe runner_id lease_id t now scheduled l r h = ground arith

abbrev IsConfirmation : FencedState → ℕ → ℕ → LeaseConfirmation → Lease → Type 0
IsConfirmation r now scheduled lost l = Unit
IsConfirmation r now scheduled (confirmed ms) l =
    (ms ≡ maintenance_lease_ms)
    × IsHeldBy r.lease_id l.state
    × RunsFor maintenance_lease_ms now scheduled l.state l.cancel_expiry

confirm_held :
    (r : FencedState) (t now scheduled : ℕ) (l : Lease)
    → IsConfirmation r now scheduled (confirm r t now scheduled l).1 (confirm r t now scheduled l).0
unfolding confirm current
confirm_held r t now scheduled l = ground arith

-- What `prepare` answers and leaves, when it grants the lease `lease_id`.
abbrev pub IsGranted : Text → Text → Grant → Lease → Type 0
IsGranted runner_id lease_id g l =
    (g
      ≡ record { lease_id = lease_id; runner_id = runner_id; expires_in_ms = maintenance_lease_ms })
    × IsHeldBy lease_id l.state

confirm_probed-IsGranted :
    (runner_id : Text) (r : FencedState) (probed : Option Bool) (t now scheduled : ℕ) (l : Lease)
    (g : Grant)
    → (confirm_probed runner_id r probed t now scheduled l).1 ≡ ok g
    → (probed ≡ some true)
      × IsGranted runner_id r.lease_id g (confirm_probed runner_id r probed t now scheduled l).0
      × RunsFor maintenance_lease_ms now scheduled
          (confirm_probed runner_id r probed t now scheduled l).0.state
          (confirm_probed runner_id r probed t now scheduled l).0.cancel_expiry
unfolding confirm_probed
confirm_probed-IsGranted runner_id r none t now scheduled l g h = cc
confirm_probed-IsGranted runner_id r (some false) t now scheduled l g h = cc
confirm_probed-IsGranted runner_id r (some true) t now scheduled l g h =
    ground (arith, confirm_held r t now scheduled l)

-- The lease runs for the full time from a reading before the wait or from one after it.
abbrev pub RunsInFull : Times → Times → ℕ → Lease → Type 0
RunsInFull t u ms l =
    RunsFor ms t.deadline t.schedule l.state l.cancel_expiry
    ⊎ RunsFor ms u.deadline u.schedule l.state l.cancel_expiry

prepare_rest-IsGranted :
    (runner_id lease_id : Text) (t : Times) (w : Wait) (u : Times) (l : Lease) (g : Grant)
    (p : Result Prepared)
    → (prepare_claim runner_id lease_id t.current t.deadline t.schedule l).1 ≡ p
    → let l' = (prepare_claim runner_id lease_id t.current t.deadline t.schedule l).0 in
      (prepare_rest runner_id p w u l').1 ≡ ok g
      → IsGranted runner_id lease_id g (prepare_rest runner_id p w u l').0
        × RunsInFull t u maintenance_lease_ms (prepare_rest runner_id p w u l').0
unfolding prepare_rest
prepare_rest-IsGranted runner_id lease_id t w u l g (err e) q h = cc
prepare_rest-IsGranted runner_id lease_id t w u l g (ok (granted g')) q h =
    let same : g' ≡ g = ground (arith, h) in
    let (a, b, c) =
      prepare_claim_granted runner_id lease_id t.current t.deadline t.schedule l g' q in
    ((sym same ∙ a, b), inl c)
prepare_rest-IsGranted runner_id lease_id t w u l g (ok (probe r)) q h =
    let claimed = prepare_claim runner_id lease_id t.current t.deadline t.schedule l in
    let (found_idle, by, full) =
      confirm_probed-IsGranted runner_id r w.probed u.current u.deadline u.schedule
        (run w.between claimed.0) g h in
    (
      subst (λ i. IsGranted runner_id i g (prepare_rest runner_id (ok (probe r)) w u claimed.0).0)
          (prepare_claim_probe runner_id lease_id t.current t.deadline t.schedule l r q) by,
      inr full,
    )

prepare_claim-Inv :
    (runner_id lease_id : Text) (t now scheduled : ℕ) (l : Lease)
    → Inv l
    → Inv (prepare_claim runner_id lease_id t now scheduled l).0
unfolding prepare_claim step
prepare_claim-Inv runner_id lease_id t now scheduled l h =
    step-Inv (claim_op lease_id t now scheduled) l h

confirm_probed-Inv :
    (runner_id : Text) (r : FencedState) (probed : Option Bool) (t now scheduled : ℕ) (l : Lease)
    → Inv l
    → Inv (confirm_probed runner_id r probed t now scheduled l).0
unfolding confirm_probed step
confirm_probed-Inv runner_id r none t now scheduled l h = step-Inv (abandon_op r t) l h
confirm_probed-Inv runner_id r (some false) t now scheduled l h = step-Inv (abandon_op r t) l h
confirm_probed-Inv runner_id r (some true) t now scheduled l h =
    step-Inv (confirm_op r t now scheduled) l h

prepare_rest-Inv :
    (runner_id : Text) (p : Result Prepared) (w : Wait) (u : Times) (l : Lease)
    → Inv l
    → Inv (prepare_rest runner_id p w u l).0
unfolding prepare_rest
prepare_rest-Inv runner_id (err e) w u l h = h
prepare_rest-Inv runner_id (ok (granted g)) w u l h = h
prepare_rest-Inv runner_id (ok (probe r)) w u l h =
    confirm_probed-Inv runner_id r w.probed u.current u.deadline u.schedule (run w.between l)
      (run-Inv-from w.between l h)

-- When `prepare` on a lease whose invariant holds grants it, then, whatever other calls did while it
-- waited for the probe: the grant is of the lease id that the input holds and for the full lease
-- time, the lease is held by that id, no admitted request is in flight, and the lease runs for all of
-- that time, from the clock's readings before the wait or from those after it: its end is the time
-- granted after the reading for the deadline, and its own timer is due the time granted after the
-- reading at `schedule`.
pub prepare_grants_exclusive :
    (runner_id : Text) (input : Value) (t : Times) (w : Wait) (u : Times) (l : Lease) (g : Grant)
    → Inv l
    → (prepare runner_id input t w u l).1 ≡ ok g
    → (parse_prepare input ≡ ok g.lease_id)
      × (g.expires_in_ms ≡ maintenance_lease_ms)
      × IsHeldBy g.lease_id (prepare runner_id input t w u l).0.state
      × ((prepare runner_id input t w u l).0.in_flight ≡ 0)
      × RunsInFull t u g.expires_in_ms (prepare runner_id input t w u l).0
unfolding prepare
prepare_grants_exclusive runner_id input t w u l g inv h = go (parse_prepare input) h
  where
    go :
        (p : Result Text)
        → (prepare_parsed runner_id p t w u l).1 ≡ ok g
        → (p ≡ ok g.lease_id)
          × (g.expires_in_ms ≡ maintenance_lease_ms)
          × IsHeldBy g.lease_id (prepare_parsed runner_id p t w u l).0.state
          × ((prepare_parsed runner_id p t w u l).0.in_flight ≡ 0)
          × RunsInFull t u g.expires_in_ms (prepare_parsed runner_id p t w u l).0
    go (err e) k = cc
    go (ok lease_id) k =
        let claimed = prepare_claim runner_id lease_id t.current t.deadline t.schedule l in
        let (is_granted, full) =
          prepare_rest-IsGranted runner_id lease_id t w u l g claimed.1 refl k in
        let inv' =
          prepare_rest-Inv runner_id claimed.1 w u claimed.0
            (prepare_claim-Inv runner_id lease_id t.current t.deadline t.schedule l inv) in
        rw is_granted.0
          (refl, refl, is_granted.1, held_no_flight lease_id _ inv' is_granted.1, full)
