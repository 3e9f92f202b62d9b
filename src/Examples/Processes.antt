-- ===== src/Examples/Processes.antt =====
-- src/domain/process-observation.ts and process-ownership.ts at concrete inputs.
use codevo_runner.Prelude.{
  ◌≤◌, ◌≡◌, true, not, Option, none, some, List, [], ◌∷◌, arith, length, all, All, codes,
}
use codevo_runner.Process.Observation.{observation_start, Thrown, track}
use codevo_runner.Process.Observation.Budget.{ticks, Within, ticks-Within}
use codevo_runner.Process.Ownership as ownership
use codevo_runner.Process.Ownership.Collect as owned_trees

abbrev gone : Option (Option Thrown)
gone = some (some (record { message = []; name = codes "Error"; code = some (codes "ESRCH") }))

track-Within : Within track
unfolding track observation_start
track-Within = omega arith

ticks-Within_example : Within (ticks (gone ∷ gone ∷ none ∷ some none ∷ gone ∷ []) track)
ticks-Within_example = ticks-Within (gone ∷ gone ∷ none ∷ some none ∷ gone ∷ []) track track-Within

abbrev scope : ownership.Scope
scope = record {
  conversation_id = codes "c";
  project_id = codes "p";
  isolation = ownership.in_place;
}

abbrev two_leases : List owned_trees.Op
two_leases =
    owned_trees.op_open scope
    ∷ owned_trees.op_open scope
    ∷ owned_trees.op_attach 0 7
    ∷ owned_trees.op_attach 1 8
    ∷ owned_trees.op_release 0
    ∷ []

collect-owned_example :
    let r = owned_trees.run two_leases ownership.empty in
    ((ownership.collect (λ s. true) r).trees
      ≡ ownership.all_trees (owned_trees.owned (λ s. true) r.heap))
    × ((ownership.collect (λ s. true) r).complete
        ≡ all (λ l. not l.overflow) (owned_trees.owned (λ s. true) r.heap))
    × All (λ l. length l.trees ≤ 4) r.heap
collect-owned_example = owned_trees.collect-owned two_leases (λ s. true)
