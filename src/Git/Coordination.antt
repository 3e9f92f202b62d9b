-- ===== src/Git/Coordination.antt =====
-- src/application/git-coordination.ts: `GitCoordination`. Its calls come as what happens between two
-- awaits; `toISOString` of the times it answers with is left to the caller.
use codevo_runner.Prelude.{
  ℕ, ◌+◌, ◌≡◌, refl, Bool, true, false, not, ◌&&◌, Option, none, some, List, [], ◌∷◌, ◌++◌, arith,
  ltb, if◌then◌else◌, Text, codes, text_eq, text_eq_refl,
}
use codevo_runner.Git.Gate.{Gate, new}
use codevo_runner.Git.Keyed.{Entry}

-- `GitCoordinationOptions`, less the clock and the time to wait for a workspace, which is a timer.
pub record Options : Type 0 where
  pub network_operations : Option ℕ
  pub fetch_coalesce_ms : Option ℕ

pub data LeaseMode : Type 0 where
  worktree in_place : LeaseMode

-- `gitLeaseKey`.
unfoldable pub lease_key : LeaseMode → Text → Text → Text
lease_key in_place project_id workspace_task_id = codes "project:" ++ project_id
lease_key worktree project_id workspace_task_id = codes "task:" ++ workspace_task_id

pub record Coordination : Type 0 where
  pub projects : List Entry
  pub workspaces : List Entry
  pub network : Gate
  pub fetches : List (Text × ℕ)
  pub fetch_coalesce_ms : ℕ

abbrev or_default : Option ℕ → ℕ → ℕ
or_default none d = d
or_default (some n) d = n

-- The constructor.
unfoldable pub new_coordination : Options → Coordination
new_coordination o = record {
  projects = [];
  workspaces = [];
  network = new (or_default o.network_operations 2);
  fetches = [];
  fetch_coalesce_ms = or_default o.fetch_coalesce_ms 15000;
}

-- `fetches.get`, which `fetchedAt` answers from.
unfoldable pub fetched_at : Text → List (Text × ℕ) → Option ℕ
fetched_at id [] = none
fetched_at id ((k, t) ∷ rest) = elim (text_eq k id) [ true ↦ some t | false ↦ fetched_at id rest ]

-- `fetches.set`.
unfoldable pub set_fetched : Text → ℕ → List (Text × ℕ) → List (Text × ℕ)
set_fetched id t [] = (id, t) ∷ []
set_fetched id t ((k, u) ∷ rest) = elim (text_eq k id) [
  | true ↦ (k, t) ∷ rest
  | false ↦ (k, u) ∷ set_fetched id t rest
]

-- `fetchHeld` up to its await: a fetch that is recent enough is the answer.
unfoldable pub coalesced : Text → ℕ → Bool → Coordination → Option ℕ
unfolding fetched_at
coalesced id now coalesce c = elim (fetched_at id c.fetches) [
  | none ↦ none
  | some previous ↦
      if coalesce && ltb now (previous + c.fetch_coalesce_ms) then some previous else none
]

-- `fetchHeld` after its await, if the fetch has not thrown.
unfoldable pub fetch_completed : Text → ℕ → Coordination → Coordination
unfolding set_fetched
fetch_completed id completed c = record c { fetches = set_fetched id completed c.fetches }

-- The `catch` of `withWorkspace`.
pub data WorkspaceError : Type 0 where
  reason_of_signal busy_error same_error : WorkspaceError

unfoldable pub workspace_error : Bool → Bool → Bool → WorkspaceError
workspace_error signal_aborted admitted wait_aborted =
    if signal_aborted
    then reason_of_signal
    else if not admitted && wait_aborted
    then busy_error
    else same_error

fetched-set :
    (id : Text) (t : ℕ) (fs : List (Text × ℕ)) → fetched_at id (set_fetched id t fs) ≡ some t
unfolding fetched_at set_fetched
fetched-set id t [] = ground (arith, text_eq_refl id)
fetched-set id t ((k, u) ∷ fs) = ground (arith, fetched-set id t fs)

-- A fetch that comes within the time after a completed one of the same project is answered with the
-- time of that one; later ones fetch again.
pub coalesced-fetch_completed :
    (id : Text) (completed now : ℕ) (c : Coordination)
    → coalesced id now true (fetch_completed id completed c)
      ≡ (if ltb now (completed + c.fetch_coalesce_ms) then some completed else none)
unfolding coalesced fetch_completed
coalesced-fetch_completed id completed now c =
    rw (coalesced, fetched-set id completed c.fetches) refl
