-- ===== src/Git/Gate/Laws.antt =====
-- src/application/git-coordination.ts: a `Gate` never admits more than its capacity, wastes none of it, and admits in order of arrival.
use mathlib.Core.Path.{subst}
use mathlib.Core.List.{append-nil, append_assoc}
use codevo_runner.Prelude.{
  ℕ, ◌+◌, ◌-◌, ◌≤◌, ◌≡◌, refl, sym, ap, ◌∙◌, Bool, true, false, List, [], ◌∷◌, ◌++◌, arith, length,
  set, take, drop, length-append, live, live-append, live-set, length-set, All, spent, length-live,
  take-append_self, drop-append_self, take-all, drop-all,
}
use codevo_runner.Git.Gate.{Gate, new, acquire, shift, release, without, cancel}

pub data Op : Type 0 where
  acquire_op : ℕ → Bool → Op
  release_op : ℕ → Op
  cancel_op : ℕ → Op

unfoldable pub step : Op → Gate → Gate
step (acquire_op w aborted) g = (acquire w aborted g).0
step (release_op token) g = release token g
step (cancel_op w) g = cancel w g

unfoldable pub run : List Op → Gate → Gate
run [] g = g
run (op ∷ ops) g = run ops (step op g)

abbrev pub IsFull : List ℕ → ℕ → ℕ → Type 0
IsFull [] active capacity = Unit
IsFull (w ∷ ws) active capacity = active ≡ capacity

pub record Inv (g : Gate) : Type 0 where
  pub counted : g.active ≡ live g.released
  pub bounded : g.active ≤ g.capacity
  pub conserving : IsFull g.waiters g.active g.capacity

IsFull-append :
    (ws : List ℕ) (w active capacity : ℕ)
    → active ≡ capacity
    → IsFull (ws ++ w ∷ []) active capacity
IsFull-append [] w active capacity e = e
IsFull-append (v ∷ ws) w active capacity e = e

IsFull-without :
    (ws : List ℕ) (w active capacity : ℕ)
    → IsFull ws active capacity
    → IsFull (without w ws) active capacity
unfolding without
IsFull-without [] w active capacity h = tt
IsFull-without (v ∷ []) w active capacity h = ground arith
IsFull-without (v ∷ u ∷ ws) w active capacity h = ground arith

pub step-Inv : (op : Op) (g : Gate) → Inv g → Inv (step op g)
unfolding step acquire release cancel
step-Inv (acquire_op w aborted) g h =
    ground (arith, live-append g.released, IsFull-append g.waiters w g.active g.capacity)
step-Inv (release_op token) g h =
    ground (arith, live-set g.released token, live-append (set g.released token true))
step-Inv (cancel_op w) g h = record {
  counted = h.counted;
  bounded = h.bounded;
  conserving = IsFull-without g.waiters w g.active g.capacity h.conserving;
}

pub acquire-Inv : (w : ℕ) (aborted : Bool) (g : Gate) → Inv g → Inv (acquire w aborted g).0
unfolding step
acquire-Inv w aborted g h = step-Inv (acquire_op w aborted) g h

pub release-Inv : (token : ℕ) (g : Gate) → Inv g → Inv (release token g)
unfolding step
release-Inv token g h = step-Inv (release_op token) g h

pub cancel-Inv : (w : ℕ) (g : Gate) → Inv g → Inv (cancel w g)
unfolding step
cancel-Inv w g h = step-Inv (cancel_op w) g h

run-Inv-from : (ops : List Op) (g : Gate) → Inv g → Inv (run ops g)
unfolding run
run-Inv-from [] g h = h
run-Inv-from (op ∷ ops) g h = run-Inv-from ops (step op g) (step-Inv op g h)

-- After any sequence of acquisitions, releases (repeated ones too) and cancellations, `active` is
-- the number of holders that have not released, it is at most the capacity, and whoever waits does
-- so only while every place is taken.
pub gate_run-Inv : (capacity : ℕ) (ops : List Op) → Inv (run ops (new capacity))
gate_run-Inv capacity ops = run-Inv-from ops (new capacity) (omega arith)

-- Who asked, in order; an acquisition whose signal is aborted asks nothing.
abbrev pub asked : List Op → List ℕ
asked [] = []
asked (acquire_op w false ∷ ops) = w ∷ asked ops
asked (_ ∷ ops) = asked ops

abbrev pub NoCancel : Op → Type 0
NoCancel (cancel_op w) = ⊥
NoCancel _ = Unit

abbrev queue : Gate → List ℕ
queue g = g.holders ++ g.waiters

queue-acquire : (w : ℕ) (g : Gate) → Inv g → queue (acquire w false g).0 ≡ queue g ++ w ∷ []
unfolding acquire
queue-acquire w g h = ground (
  arith,
  append-nil g.holders,
  append-nil (g.holders ++ w ∷ []),
  append_assoc g.holders g.waiters (w ∷ []),
)

queue-shift : (ws : List ℕ) (g : Gate) → g.waiters ≡ ws → queue (shift ws g) ≡ queue g
unfolding shift
queue-shift [] g e = refl
queue-shift (w ∷ ws) g e = rw e (append_assoc g.holders (w ∷ []) ws)

queue-release : (token : ℕ) (g : Gate) → queue (release token g) ≡ queue g
unfolding release
queue-release token g = ground (
  arith,
  queue-shift g.waiters (record g { active = g.active - 1; released = set g.released token true }),
)

step-order :
    (op : Op) (ops : List Op) (g : Gate)
    → NoCancel op
    → Inv g
    → queue (step op g) ++ asked ops ≡ queue g ++ asked (op ∷ ops)
unfolding step
step-order (acquire_op w true) ops g n h = unfold acquire in refl
step-order (acquire_op w false) ops g n h =
    rw (queue-acquire w g h) (append_assoc (queue g) (w ∷ []) (asked ops))
step-order (release_op token) ops g n h = rw (queue-release token g)
step-order (cancel_op w) ops g n h = absurd n

run-order :
    (ops : List Op) (g : Gate) → All NoCancel ops → Inv g → queue (run ops g) ≡ queue g ++ asked ops
unfolding run
run-order [] g n h = sym (append-nil (queue g))
run-order (op ∷ ops) g n h =
    run-order ops (step op g) n.1 (step-Inv op g h) ∙ step-order op ops g n.0 h

-- Each admission has a flag.
abbrev Flagged : Gate → Type 0
Flagged g = length g.holders ≡ length g.released

shift-Flagged : (ws : List ℕ) (g : Gate) → Flagged g → Flagged (shift ws g)
unfolding shift
shift-Flagged [] g h = h
shift-Flagged (w ∷ ws) g h =
    omega (arith, length-append g.holders (w ∷ []), length-append g.released (false ∷ []))

step-Flagged : (op : Op) (g : Gate) → Flagged g → Flagged (step op g)
unfolding step acquire release
step-Flagged (acquire_op w aborted) g h =
    ground (arith, length-append g.holders (w ∷ []), length-append g.released (false ∷ []))
step-Flagged (release_op token) g h = ground (
  arith,
  length-set g.released token true,
  shift-Flagged g.waiters
      (record g { active = g.active - 1; released = set g.released token true }),
)
step-Flagged (cancel_op w) g h = unfold cancel in h

run-Flagged : (ops : List Op) (g : Gate) → Flagged g → Flagged (run ops g)
unfolding run
run-Flagged [] g h = h
run-Flagged (op ∷ ops) g h = run-Flagged ops (step op g) (step-Flagged op g h)

run-capacity : (ops : List Op) (g : Gate) → (run ops g).capacity ≡ g.capacity
unfolding run step acquire release cancel
run-capacity [] g = refl
run-capacity (acquire_op w aborted ∷ ops) g =
    run-capacity ops (step (acquire_op w aborted) g) ∙ ground arith
run-capacity (release_op token ∷ ops) g =
    run-capacity ops (step (release_op token) g) ∙ ground arith
run-capacity (cancel_op w ∷ ops) g = run-capacity ops (step (cancel_op w) g)

admitted_first :
    (g : Gate) (ws askers : List ℕ) (places : ℕ)
    → g.waiters ≡ ws
    → Inv g
    → Flagged g
    → g.capacity + spent g.released ≡ places
    → g.holders ++ ws ≡ askers
    → (g.holders ≡ take places askers) × (ws ≡ drop places askers)
admitted_first g [] askers places e inv flagged p h =
    let few : length askers ≤ places = omega (
      arith,
      ap length h,
      length-append g.holders [],
      length-live g.released,
      inv.counted,
      inv.bounded,
    ) in
    (
      sym (append-nil g.holders) ∙ h ∙ sym (take-all places askers few),
      sym (drop-all places askers few),
    )
admitted_first g (w ∷ ws) askers places e inv flagged p h =
    let full : g.active ≡ g.capacity = subst (λ v. IsFull v g.active g.capacity) e inv.conserving in
    let size : length g.holders ≡ places = omega (arith, length-live g.released, inv.counted) in
    (
      sym (take-append_self places g.holders (w ∷ ws) size) ∙ ap (take places) h,
      sym (drop-append_self places g.holders (w ∷ ws) size) ∙ ap (drop places) h,
    )

-- As long as nobody gives up waiting, those admitted, in order, are exactly the first of those who
-- asked, as many as the gate has places and has got back by a release, and the rest wait, in the
-- order in which they asked.
pub run_first_come :
    (capacity : ℕ) (ops : List Op)
    → All NoCancel ops
    → let g = run ops (new capacity) in
      let places = capacity + spent g.released in
      (g.holders ≡ take places (asked ops)) × (g.waiters ≡ drop places (asked ops))
run_first_come capacity ops n =
    let g = run ops (new capacity) in
    admitted_first g g.waiters (asked ops) (capacity + spent g.released) refl
      (gate_run-Inv capacity ops) (run-Flagged ops (new capacity) refl)
      (ap (λ c. c + spent g.released) (run-capacity ops (new capacity)))
      (run-order ops (new capacity) n (omega arith))
