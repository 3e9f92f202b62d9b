-- ===== src/Git/Keyed.antt =====
-- src/application/git-coordination.ts: the class `KeyedGate`. The gates that it has made stand in a
-- list, in which an index is a gate's identity; `mapped` says that `gates` has the gate under its
-- key. A gate is made for one key, the one that the `run` which owns it was called with.
pub mod Spec
pub mod Quiet
pub mod Acts
pub mod Refines
pub mod Entering
pub mod Runs
use codevo_runner.Prelude.{
  ℕ, zero, suc, Bool, true, not, ◌&&◌, Option, none, some, List, [], ◌∷◌, if◌then◌else◌, Text,
  text_eq,
}
use codevo_runner.Git.Gate.{Gate, new, idle, acquire, release, cancel, throws}

pub record Entry : Type 0 where
  pub key : Text
  pub gate : Gate
  pub mapped : Bool

abbrev pub holds : Text → Entry → Bool
holds key e = text_eq e.key key && e.mapped

-- The last line of the `finally`.
unfoldable pub clean : Entry → Entry
clean e = record e { mapped = e.mapped && not (idle e.gate) }

-- The `acquire` of a run; a signal that is aborted throws at once, into the `finally`.
unfoldable pub admit : ℕ → Bool → Entry → Entry
unfolding clean
admit waiter aborted e =
    let e1 : Entry = record e { gate = (acquire waiter aborted e.gate).0 } in
    if aborted then clean e1 else e1

-- `run`, up to its await.
unfoldable pub enter : Text → ℕ → Bool → List Entry → List Entry
unfolding admit
enter key waiter aborted [] =
    admit waiter aborted (record { key = key; gate = new 1; mapped = true }) ∷ []
enter key waiter aborted (e ∷ es) =
    let rest = enter key waiter aborted es in
    if holds key e then admit waiter aborted e ∷ es else e ∷ rest

-- The `finally` of a run, with the release that it has got, if it has one.
unfoldable pub leave : Option ℕ → Entry → Entry
unfolding clean
leave none e = clean e
leave (some token) e = clean (record e { gate = release token e.gate })

-- The signal of a waiting run is aborted; its `finally` follows by itself.
unfoldable pub give_up : ℕ → Entry → Entry
give_up waiter e = record e { gate = cancel waiter e.gate }

abbrev pub update : ℕ → (Entry → Entry) → List Entry → List Entry
update i f [] = []
update zero f (e ∷ es) = f e ∷ es
update (suc i) f (e ∷ es) = e ∷ update i f es

pub data Op : Type 0 where
  enter_op : Text → ℕ → Bool → Op
  leave_op : ℕ → Option ℕ → Op
  give_up_op : ℕ → ℕ → Op

unfoldable pub step : Op → List Entry → List Entry
unfolding enter leave give_up
step (enter_op key waiter aborted) es = enter key waiter aborted es
step (leave_op i token) es = update i (leave token) es
step (give_up_op i waiter) es = update i (give_up waiter) es

unfoldable pub run : List Op → List Entry → List Entry
run [] es = es
run (op ∷ ops) es = run ops (step op es)
