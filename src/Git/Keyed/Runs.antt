-- ===== src/Git/Keyed/Runs.antt =====
-- The runs of a `KeyedGate` of src/application/git-coordination.ts.
use mathlib.Core.Path.{subst}
use codevo_runner.Prelude.{
  ℕ, ◌≤◌, ◌≡◌, refl, sym, ap, ◌∙◌, Bool, true, false, List, [], ◌∷◌, arith, if◌then◌else◌, All,
  Text, text_eq,
}
use codevo_runner.Git.Keyed.{enter_op, leave_op, give_up_op, Entry, Op, step, run}
use codevo_runner.Git.Keyed.Spec.{
  Mutex, unheld, Action, unlocked, apply, perform, view, action_of, replay, lock, drop_out, unlock,
  nothing,
}
use codevo_runner.Git.Keyed.Quiet.{Sound, Alone}
use codevo_runner.Git.Keyed.Acts.{give_up-Acts, leave-Acts}
use codevo_runner.Git.Keyed.Refines.{update-Sound, update-Alone, update-view}
use codevo_runner.Git.Keyed.Entering.{enter_action, enter-Sound, enter-Alone, enter-view}

abbrev pub Valid : List Entry → Type 0
Valid es = All Sound es × Alone es

step-Valid : (op : Op) (es : List Entry) → Valid es → Valid (step op es)
unfolding step
step-Valid (enter_op key w aborted) es h =
    (enter-Sound key w aborted es h.0, enter-Alone key w aborted es h.1)
step-Valid (leave_op i token) es h =
    (update-Sound (leave-Acts token) i es h.0, update-Alone (leave-Acts token) i es h.1)
step-Valid (give_up_op i w) es h =
    (update-Sound (give_up-Acts w) i es h.0, update-Alone (give_up-Acts w) i es h.1)

step-view :
    (op : Op) (es : List Entry) (k : Text)
    → Valid es
    → view (step op es) k ≡ perform (action_of op es).0 (action_of op es).1 (view es) k
unfolding step action_of enter_action
step-view (enter_op key w true) es k h = enter-view key w true es k h.0 h.1
step-view (enter_op key w false) es k h = enter-view key w false es k h.0 h.1
step-view (leave_op i token) es k h = update-view (leave-Acts token) i es k h.0 h.1
step-view (give_up_op i w) es k h = update-view (give_up-Acts w) i es k h.0 h.1

-- The actions depend on what a key looks like, and on nothing else.
replay-same :
    (ops : List Op) (es : List Entry) (ms ns : Text → Mutex) (k : Text)
    → ((k : Text) → ms k ≡ ns k)
    → replay ops es ms k ≡ replay ops es ns k
unfolding replay
replay-same [] es ms ns k h = h k
replay-same (op ∷ ops) es ms ns k h =
    replay-same ops (step op es) (perform (action_of op es).0 (action_of op es).1 ms)
      (perform (action_of op es).0 (action_of op es).1 ns) k
      (λ j.
        ap (λ m. if text_eq (action_of op es).0 j then apply (action_of op es).1 m else m) (h j))

run-view :
    (ops : List Op) (es : List Entry) (k : Text)
    → Valid es
    → view (run ops es) k ≡ replay ops es (view es) k
unfolding run replay
run-view [] es k h = refl
run-view (op ∷ ops) es k h =
    run-view ops (step op es) k (step-Valid op es h)
    ∙ replay-same ops (step op es) (view (step op es))
        (perform (action_of op es).0 (action_of op es).1 (view es)) k (λ j. step-view op es j h)

apply-one : (a : Action) (m : Mutex) → m.held ≤ 1 → (apply a m).held ≤ 1
apply-one nothing m h = h
apply-one (drop_out w) m h = h
apply-one (lock w) m h = ground arith
apply-one unlock m h = go m.queue
  where
    go : (ws : List ℕ) → (unlocked ws).held ≤ 1
    go [] = omega arith
    go (w ∷ ws) = omega arith

replay-one :
    (ops : List Op) (es : List Entry) (ms : Text → Mutex) (k : Text)
    → ((k : Text) → (ms k).held ≤ 1)
    → (replay ops es ms k).held ≤ 1
unfolding replay
replay-one [] es ms k h = h k
replay-one (op ∷ ops) es ms k h =
    replay-one ops (step op es) (perform (action_of op es).0 (action_of op es).1 ms) k
      (λ j. go (text_eq (action_of op es).0 j) j)
  where
    go : (b : Bool) (j : Text) → (if b then apply (action_of op es).1 (ms j) else ms j).held ≤ 1
    go true j = apply-one (action_of op es).1 (ms j) (h j)
    go false j = h j

-- A keyed gate is a mutex for each key: after any runs, their ends (repeated ones too) and
-- cancellations, with gates made on demand and dropped when they are idle, what is held and who
-- waits under a key is what the same actions make of one mutex per key, which is handed on in the
-- order of arrival; and no key is held twice.
pub keyed_refines :
    (ops : List Op) (k : Text)
    → (view (run ops []) k ≡ replay ops [] (λ k. unheld) k) × ((view (run ops []) k).held ≤ 1)
keyed_refines ops k =
    let e : view (run ops []) k ≡ replay ops [] (λ k. unheld) k = run-view ops [] k (tt, tt) in
    (e, subst (λ m. m.held ≤ 1) (sym e) (replay-one ops [] (λ k. unheld) k (λ j. omega arith)))
