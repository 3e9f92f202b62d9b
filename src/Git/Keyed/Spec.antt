-- ===== src/Git/Keyed/Spec.antt =====
-- The contract of `KeyedGate` of src/application/git-coordination.ts: a mutex for each key, with a
-- queue in the order of arrival.
use codevo_runner.Prelude.{
  ℕ, zero, suc, ◌+◌, Bool, true, false, Option, none, some, List, [], ◌∷◌, ◌++◌, ◌==◌,
  if◌then◌else◌, get_elem?, any, Text, text_eq,
}
use codevo_runner.Git.Gate.{Gate, without}
use codevo_runner.Git.Keyed.{enter_op, leave_op, give_up_op, Entry, Op, step}

pub record Mutex : Type 0 where
  pub held : ℕ
  pub queue : List ℕ

abbrev pub unheld : Mutex
unheld = record { held = 0; queue = [] }

pub data Action : Type 0 where
  lock drop_out : ℕ → Action
  unlock nothing : Action

abbrev pub unlocked : List ℕ → Mutex
unlocked [] = unheld
unlocked (w ∷ ws) = record { held = 1; queue = ws }

-- A mutex is handed to the first in its queue.
abbrev pub apply : Action → Mutex → Mutex
apply nothing m = m
apply (lock w) m =
    if m.held == 0
    then record { held = 1; queue = m.queue }
    else record { held = m.held; queue = m.queue ++ w ∷ [] }
apply (drop_out w) m = record { held = m.held; queue = without w m.queue }
apply unlock m = unlocked m.queue

abbrev pub perform : Text → Action → (Text → Mutex) → Text → Mutex
perform key a ms k = if text_eq key k then apply a (ms k) else ms k

-- What a gate looks like.
abbrev pub of_gate : Gate → Mutex
of_gate g = record { held = g.active; queue = g.waiters }

abbrev pub merge : Mutex → Mutex → Mutex
merge m n = record { held = m.held + n.held; queue = m.queue ++ n.queue }

-- What a key looks like: all gates that were made for it.
abbrev pub view : List Entry → Text → Mutex
view [] k = unheld
view (e ∷ es) k =
    let rest = view es k in if text_eq e.key k then merge (of_gate e.gate) rest else rest

-- What a call does: a release acts once, and a cancellation acts on one who waits.
abbrev pub release_action : Option Bool → Action
release_action (some false) = unlock
release_action _ = nothing

abbrev pub leave_action : Option ℕ → Gate → Action
leave_action none g = nothing
leave_action (some token) g = release_action (get_elem? g.released token)

abbrev pub give_up_action : ℕ → Gate → Action
give_up_action w g = if any (λ v. v == w) g.waiters then drop_out w else nothing

abbrev pub at : ℕ → (Gate → Action) → List Entry → Text × Action
at i f [] = ([], nothing)
at zero f (e ∷ es) = (e.key, f e.gate)
at (suc i) f (e ∷ es) = at i f es

unfoldable pub action_of : Op → List Entry → Text × Action
action_of (enter_op key w true) es = (key, nothing)
action_of (enter_op key w false) es = (key, lock w)
action_of (leave_op i token) es = at i (leave_action token) es
action_of (give_up_op i w) es = at i (give_up_action w) es

-- The actions of a sequence of calls.
unfoldable pub replay : List Op → List Entry → (Text → Mutex) → Text → Mutex
unfolding action_of
replay [] es ms = ms
replay (op ∷ ops) es ms =
    let (key, a) = action_of op es in replay ops (step op es) (perform key a ms)
