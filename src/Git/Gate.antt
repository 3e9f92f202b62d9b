-- ===== src/Git/Gate.antt =====
-- src/application/git-coordination.ts: the class `Gate`, a counting semaphore with a queue. A waiter
-- is a number; a `Release` closure is the index of its flag in `released`; `holders` logs, in order,
-- who was admitted. An `abort` listener is removed by `grant`, so a cancel acts on waiters only.
pub mod Laws
use codevo_runner.Prelude.{
  ℕ, ◌+◌, ◌-◌, Bool, true, false, ◌&&◌, Option, some, List, [], ◌∷◌, ◌++◌, ltb, ◌==◌, if◌then◌else◌,
  length, get_elem?, set,
}

pub record Gate : Type 0 where
  pub capacity : ℕ
  pub active : ℕ
  pub waiters : List ℕ
  pub released : List Bool
  pub holders : List ℕ

pub data Acquired : Type 0 where
  throws : Acquired
  granted : ℕ → Acquired
  waits : Acquired

abbrev pub new : ℕ → Gate
new capacity = record { capacity = capacity; active = 0; waiters = []; released = []; holders = [] }

-- The getter `idle`.
abbrev pub idle : Gate → Bool
idle g = g.active == 0 && elim g.waiters [ [] ↦ true | _ ∷ _ ↦ false ]

-- `this.active++` and a new `releaser` for that waiter.
unfoldable pub grant : ℕ → Gate → Gate
grant waiter g = record g {
  active = g.active + 1;
  released = g.released ++ false ∷ [];
  holders = g.holders ++ waiter ∷ [];
}

-- `acquire`; `aborted` is the state of the signal.
unfoldable pub acquire : ℕ → Bool → Gate → Gate × Acquired
unfolding grant
acquire waiter aborted g =
    if aborted
    then (g, throws)
    else if ltb g.active g.capacity
    then (grant waiter g, granted (length g.released))
    else (record g { waiters = g.waiters ++ waiter ∷ [] }, waits)

-- `this.waiters.shift()?.()`.
unfoldable pub shift : List ℕ → Gate → Gate
unfolding grant
shift [] g = g
shift (w ∷ ws) g = grant w (record g { waiters = ws })

-- The function that `releaser` returns.
unfoldable pub release_flag : Option Bool → ℕ → Gate → Gate
unfolding shift
release_flag (some false) token g =
    shift g.waiters (record g { active = g.active - 1; released = set g.released token true })
release_flag _ token g = g

unfoldable pub release : ℕ → Gate → Gate
unfolding release_flag
release token g = release_flag (get_elem? g.released token) token g

-- `waiters.splice(waiters.indexOf(grant), 1)`.
unfoldable pub without : ℕ → List ℕ → List ℕ
without w [] = []
without w (v ∷ vs) = elim (v == w) [ true ↦ vs | false ↦ v ∷ without w vs ]

-- The listener `cancel`.
unfoldable pub cancel : ℕ → Gate → Gate
unfolding without
cancel w g = record g { waiters = without w g.waiters }
