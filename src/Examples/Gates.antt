-- ===== src/Examples/Gates.antt =====
-- The gate of src/application/git-coordination.ts at a concrete input.
use codevo_runner.Prelude.{◌+◌, ◌≤◌, ◌≡◌, false, some, List, [], ◌∷◌, take, drop, spent}
use codevo_runner.Git.Gate.{new}
use codevo_runner.Git.Gate.Laws.{
  Op, run, Inv, gate_run-Inv, asked, run_first_come, acquire_op, release_op,
}
use codevo_runner.Git.Keyed as keyed
use codevo_runner.Git.Keyed.Spec.{unheld, view, replay}
use codevo_runner.Git.Keyed.Runs.{keyed_refines}

abbrev three_ask : List Op
three_ask =
    acquire_op 1 false ∷ acquire_op 2 false ∷ acquire_op 3 false ∷ release_op 0 ∷ release_op 0 ∷ []

gate_run-Inv_example : Inv (run three_ask (new 2))
gate_run-Inv_example = gate_run-Inv 2 three_ask

run_first_come_example :
    let g = run three_ask (new 2) in
    let places = 2 + spent g.released in
    (g.holders ≡ take places (asked three_ask)) × (g.waiters ≡ drop places (asked three_ask))
run_first_come_example = run_first_come 2 three_ask (tt, (tt, (tt, (tt, (tt, tt)))))

-- Two runs of one key, one of another; the first ends, and its gate goes to the second.
abbrev two_keys : List keyed.Op
two_keys =
    keyed.enter_op (b'p' ∷ []) 1 false
    ∷ keyed.enter_op (b'p' ∷ []) 2 false
    ∷ keyed.enter_op (b'q' ∷ []) 3 false
    ∷ keyed.leave_op 0 (some 0)
    ∷ keyed.give_up_op 0 2
    ∷ []

keyed_refines_example :
    (view (keyed.run two_keys []) (b'p' ∷ []) ≡ replay two_keys [] (λ k. unheld) (b'p' ∷ []))
    × ((view (keyed.run two_keys []) (b'p' ∷ [])).held ≤ 1)
keyed_refines_example = keyed_refines two_keys (b'p' ∷ [])
