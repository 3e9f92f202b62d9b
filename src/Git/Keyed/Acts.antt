-- ===== src/Git/Keyed/Acts.antt =====
-- `KeyedGate` of src/application/git-coordination.ts: a release and a cancellation of one gate, as
-- actions on a mutex.
use codevo_runner.Prelude.{
  ℕ, zero, suc, ◌-◌, ◌≤◌, ◌≡◌, refl, ap, ◌∙◌, Bool, true, false, Option, none, some, List, [], ◌∷◌,
  arith, ◌==◌, if◌then◌else◌, get_elem?, set, any, live,
}
use codevo_runner.Git.Gate.{Gate, grant, acquire, shift, release_flag, release, without, cancel}
use codevo_runner.Git.Gate.Laws.{Inv, release-Inv, cancel-Inv}
use codevo_runner.Git.Keyed.{Entry, clean, leave, give_up}
use codevo_runner.Git.Keyed.Spec.{
  unheld, apply, of_gate, release_action, leave_action, give_up_action, lock, drop_out, nothing,
}
use codevo_runner.Git.Keyed.Quiet.{Acts, clean-Sound}

capacity-shift : (ws : List ℕ) (g : Gate) → (shift ws g).capacity ≡ g.capacity
unfolding shift grant
capacity-shift [] g = refl
capacity-shift (w ∷ ws) g = refl

capacity-release : (token : ℕ) (g : Gate) → (release token g).capacity ≡ g.capacity
unfolding release release_flag
capacity-release token g = ground (
  arith,
  capacity-shift g.waiters
      (record g { active = g.active - 1; released = set g.released token true }),
)

live-some : (flags : List Bool) (i : ℕ) → get_elem? flags i ≡ some false → 1 ≤ live flags
live-some [] i h = absurd (ground arith)
live-some (false ∷ flags) i h = ground arith
live-some (true ∷ flags) zero h = absurd (ground arith)
live-some (true ∷ flags) (suc i) h = omega (arith, live-some flags i h)

release-effect :
    (token : ℕ) (g : Gate)
    → g.capacity ≡ 1
    → Inv g
    → of_gate (release token g) ≡ apply (release_action (get_elem? g.released token)) (of_gate g)
unfolding release release_flag shift grant
release-effect token g c v = go (get_elem? g.released token) refl g.waiters refl
  where
    go :
        (o : Option Bool)
        → get_elem? g.released token ≡ o
        → (ws : List ℕ) → g.waiters ≡ ws
        → of_gate (release_flag o token g) ≡ apply (release_action o) (of_gate g)
    go none e ws f = refl
    go (some true) e ws f = refl
    go (some false) e [] f =
        let b : 1 ≤ live g.released = live-some g.released token e in
        let n : g.active ≡ 1 = omega (arith, b, v.counted, v.bounded, c) in ground (arith, f, n)
    go (some false) e (w ∷ ws) f =
        let b : 1 ≤ live g.released = live-some g.released token e in
        let n : g.active ≡ 1 = omega (arith, b, v.counted, v.bounded, c) in ground (arith, f, n)

without-absent : (w : ℕ) (ws : List ℕ) → any (λ v. v == w) ws ≡ false → without w ws ≡ ws
unfolding without
without-absent w [] h = refl
without-absent w (v ∷ vs) h = ground (arith, without-absent w vs)

give_up-effect : (w : ℕ) (g : Gate) → of_gate (cancel w g) ≡ apply (give_up_action w g) (of_gate g)
unfolding cancel
give_up-effect w g = go (any (λ v. v == w) g.waiters) refl
  where
    go :
        (b : Bool)
        → any (λ v. v == w) g.waiters ≡ b
        → of_gate (cancel w g) ≡ apply (if b then drop_out w else nothing) (of_gate g)
    go true e = refl
    go false e = ap (λ ws. record { held = g.active; queue = ws }) (without-absent w g.waiters e)

pub acquire-effect :
    (w : ℕ) (g : Gate) → g.capacity ≡ 1 → of_gate (acquire w false g).0 ≡ apply (lock w) (of_gate g)
unfolding acquire grant
acquire-effect w g c = ground arith

pub give_up-Acts : (w : ℕ) → Acts (give_up w) (give_up_action w)
unfolding give_up
give_up-Acts w = record {
  key = λ e. refl;
  sound = λ e h. record {
    one = unfold cancel in h.one;
    valid = cancel-Inv w e.gate h.valid;
    quiet = λ n. give_up-effect w e.gate ∙ still e.gate (h.quiet n);
  };
  unmapped = λ e n. n;
  effect = λ e h. give_up-effect w e.gate;
  idle_nothing = λ e h i. none_waits e.gate i;
}
  where
    none_waits : (g : Gate) → of_gate g ≡ unheld → give_up_action w g ≡ nothing
    none_waits g i = let q : g.waiters ≡ [] = ap (λ m. m.queue) i in rw q refl

    still : (g : Gate) → of_gate g ≡ unheld → apply (give_up_action w g) (of_gate g) ≡ unheld
    still g i = ap (λ a. apply a (of_gate g)) (none_waits g i) ∙ i

-- A gate with nobody in it has no release that acts.
idle-release :
    (token : ℕ) (g : Gate)
    → Inv g
    → of_gate g ≡ unheld
    → release_action (get_elem? g.released token) ≡ nothing
idle-release token g v i = go (get_elem? g.released token) refl
  where
    go : (o : Option Bool) → get_elem? g.released token ≡ o → release_action o ≡ nothing
    go none e = refl
    go (some true) e = refl
    go (some false) e =
        let n : g.active ≡ 0 = ap (λ m. m.held) i in
        absurd (omega (arith, live-some g.released token e, v.counted, n))

clean-unmapped : (e : Entry) → e.mapped ≡ false → (clean e).mapped ≡ false
unfolding clean
clean-unmapped e n = rw n refl

pub leave-Acts : (token : Option ℕ) → Acts (leave token) (leave_action token)
unfolding leave
leave-Acts none = record {
  key = λ e. unfold clean in refl;
  sound = λ e h. clean-Sound e h.one h.valid h.quiet;
  unmapped = λ e n. clean-unmapped e n;
  effect = λ e h. unfold clean in refl;
  idle_nothing = λ e h i. refl;
}
leave-Acts (some token) = record {
  key = λ e. unfold clean in refl;
  sound = λ e h.
      clean-Sound (record e { gate = release token e.gate }) (capacity-release token e.gate ∙ h.one)
        (release-Inv token e.gate h.valid)
        (λ n.
          release-effect token e.gate h.one h.valid
          ∙ ap (λ a. apply a (of_gate e.gate)) (idle-release token e.gate h.valid (h.quiet n))
          ∙ h.quiet n);
  unmapped = λ e n. clean-unmapped (record e { gate = release token e.gate }) n;
  effect = λ e h. unfold clean in release-effect token e.gate h.one h.valid;
  idle_nothing = λ e h i. idle-release token e.gate h.valid i;
}
