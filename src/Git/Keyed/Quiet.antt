-- ===== src/Git/Keyed/Quiet.antt =====
-- `KeyedGate` of src/application/git-coordination.ts: the gates that are not mapped are idle.
use mathlib.Core.List.{append-nil}
use codevo_runner.Prelude.{
  ℕ, ◌≡◌, refl, ap, ◌∙◌, ◌⊎◌, inl, inr, Bool, true, false, not, ◌&&◌, List, [], ◌∷◌, arith,
  if◌then◌else◌, Bool-cases, any, All, Text, text_eq,
}
use codevo_runner.Git.Gate.{Gate, idle}
use codevo_runner.Git.Gate.Laws.{Inv}
use codevo_runner.Git.Keyed.{Entry, holds, clean}
use codevo_runner.Git.Keyed.Spec.{Mutex, unheld, Action, apply, of_gate, merge, view, nothing}

pub record Sound (e : Entry) : Type 0 where
  pub one : e.gate.capacity ≡ 1
  pub valid : Inv e.gate
  pub quiet : e.mapped ≡ false → of_gate e.gate ≡ unheld

abbrev pub Alone : List Entry → Type 0
Alone [] = Unit
Alone (e ∷ es) = (e.mapped ≡ true → any (holds e.key) es ≡ false) × Alone es

-- What an operation on one gate must do.
pub record Acts (f : Entry → Entry) (a : Gate → Action) : Type 0 where
  pub key : (e : Entry) → (f e).key ≡ e.key
  pub sound : (e : Entry) → Sound e → Sound (f e)
  pub unmapped : (e : Entry) → e.mapped ≡ false → (f e).mapped ≡ false
  pub effect : (e : Entry) → Sound e → of_gate (f e).gate ≡ apply (a e.gate) (of_gate e.gate)
  pub idle_nothing : (e : Entry) → Sound e → of_gate e.gate ≡ unheld → a e.gate ≡ nothing

pub merge-unheld : (m : Mutex) → merge m unheld ≡ m
merge-unheld m = ground (arith, append-nil m.queue)

pub unheld-merge : (m : Mutex) → merge unheld m ≡ m
unheld-merge m = ground arith

pub view-quiet :
    (es : List Entry) (k : Text) → All Sound es → any (holds k) es ≡ false → view es k ≡ unheld
view-quiet [] k h n = refl
view-quiet (e ∷ es) k h n = go (text_eq e.key k) e.mapped refl refl (view-quiet es k h.1)
  where
    go :
        (b m : Bool)
        → text_eq e.key k ≡ b
        → e.mapped ≡ m
        → (any (holds k) es ≡ false → view es k ≡ unheld)
        → (if b then merge (of_gate e.gate) (view es k) else view es k) ≡ unheld
    go false m p q ih = ih (ground arith)
    go true true p q ih = absurd (ground arith)
    go true false p q ih =
        let i : view es k ≡ unheld = ih (ground arith) in
        let g : of_gate e.gate ≡ unheld = h.0.quiet q in
        ap (λ m. merge m (view es k)) g ∙ unheld-merge (view es k) ∙ i

idle-unheld : (g : Gate) → idle g ≡ true → of_gate g ≡ unheld
idle-unheld g h = go g.waiters refl
  where
    go : (ws : List ℕ) → g.waiters ≡ ws → of_gate g ≡ unheld
    go [] e = ground arith
    go (w ∷ ws) e = absurd (ground arith)

pub clean-Sound :
    (e : Entry)
    → e.gate.capacity ≡ 1
    → Inv e.gate
    → (e.mapped ≡ false → of_gate e.gate ≡ unheld)
    → Sound (clean e)
unfolding clean
clean-Sound e c v q = record {
  one = c;
  valid = v;
  quiet = λ n. go e.mapped refl (Bool-cases (idle e.gate)) n;
}
  where
    go :
        (m : Bool)
        → e.mapped ≡ m
        → (idle e.gate ≡ true) ⊎ (idle e.gate ≡ false)
        → (m && not (idle e.gate)) ≡ false
        → of_gate e.gate ≡ unheld
    go false p i n = q p
    go true p (inl i) n = idle-unheld e.gate i
    go true p (inr i) n = absurd (ground arith)
