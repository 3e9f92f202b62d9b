-- ===== src/Lifecycle/Events/Sticky.antt =====
-- src/domain/subagent-lifecycle.ts: what one event leaves of the result and the displayed state of an
-- entry.
use mathlib.Core.Path.{subst}
use codevo_runner.Lifecycle.Aliases.{
  delete, merged_result, merge_aliases, is_alias, absorb, resolve, resolve_alias,
}
use codevo_runner.Prelude.{
  ◌≡◌, ◌≢◌, ◌⊎◌, inl, inr, Bool, true, false, Option, some, List, [], ◌∷◌, arith, keep, Any, Text,
}
use codevo_runner.Lifecycle.{
  tool_call, tool_result, subagent, subagent_activity, subagent_turn_done, State, Subagent, Event,
  Identity, Entry, running, failed,
}
use codevo_runner.Lifecycle.Events.{displayed, apply_event}

-- Telemetry of a Codex child thread, which may start an agent again.
abbrev pub is_thread_event : Event → Bool
is_thread_event (subagent_activity _ _ _) = true
is_thread_event (subagent_turn_done _ _ _) = true
is_thread_event _ = false

-- One event keeps a result that is there, and shows a failed one.
apply_event-result :
    (event : Event) (i : Identity) (batch : Option Text) (e : Entry) (r : State)
    → e.result_state ≡ some r
    → let e' = (apply_event event i batch e).0 in
      (e'.result_state ≡ some r) × ((r ≢ failed) ⊎ (e'.state ≡ failed))
unfolding apply_event
apply_event-result (tool_call t) i batch e r h = ground arith
apply_event-result (tool_result _ b _) i batch e r h = ground arith
apply_event-result (subagent s) i batch e r h = ground arith
apply_event-result (subagent_activity _ _ a) i batch e r h = ground arith
apply_event-result (subagent_turn_done _ _ b) i batch e r h = ground arith
apply_event-result _ i batch e r h = ground arith

abbrev pub HasFailed : Entry → Type 0
HasFailed e = e.result_state ≡ some failed

merge-result :
    (first second : Entry) (r : State)
    → first.result_state ≡ some r
    → let merged = merge_aliases first second in
      (merged.result_state ≡ some r) ⊎ (HasFailed merged × HasFailed second)
unfolding merge_aliases merged_result
merge-result first second r h = ground arith

absorb-failed :
    (first : Entry) (aliases entries : List Entry)
    → HasFailed first
    → HasFailed (absorb first aliases entries).0
unfolding absorb
absorb-failed first [] entries h = h
absorb-failed first (a ∷ aliases) entries h =
    absorb-failed (merge_aliases first a) aliases (delete a.id entries)
      (elim (merge-result first a failed h) [ inl e ↦ e | inr e ↦ e.0 ])

absorb-result :
    (first : Entry) (aliases entries : List Entry) (r : State)
    → first.result_state ≡ some r
    → let found = (absorb first aliases entries).0 in
      (found.result_state ≡ some r) ⊎ (HasFailed found × Any HasFailed aliases)
unfolding absorb
absorb-result first [] entries r h = inl h
absorb-result first (a ∷ aliases) entries r h =
    let merged = merge_aliases first a in
    elim (merge-result first a r h) [
      | inl e ↦ elim (absorb-result merged aliases (delete a.id entries) r e) [
        | inl k ↦ inl k
        | inr k ↦ inr (k.0, inr k.1)
      ]
      | inr e ↦ inr (absorb-failed merged aliases (delete a.id entries) e.0, inl e.1)
    ]

-- What one event writes into the first of the entries that have one of its identities, the others
-- merged into it: if the first had a result, the entry that is written has the same one, or else one
-- of the others had a failed result, and it has that; and if its result is a failure, it is shown as
-- failed.
pub first_result_kept :
    (event : Event) (i : Identity) (batch : Option Text) (first found : Entry)
    (aliases entries : List Entry) (r : State)
    → keep (is_alias i) entries ≡ first ∷ aliases
    → (resolve_alias i entries).0 ≡ some found
    → first.result_state ≡ some r
    → let e' = (apply_event event i batch found).0 in
      ((e'.result_state ≡ some r) ⊎ (HasFailed e' × Any HasFailed aliases))
      × ((e'.result_state ≢ some failed) ⊎ (e'.state ≡ failed))
unfolding resolve_alias resolve
first_result_kept event i batch first found aliases entries r k f h =
    let same : (absorb first aliases entries).0 ≡ found = ground (arith, rw k at f) in
    let merged : (found.result_state ≡ some r) ⊎ (HasFailed found × Any HasFailed aliases) =
      subst (λ e. (e.result_state ≡ some r) ⊎ (HasFailed e × Any HasFailed aliases)) same
        (absorb-result first aliases entries r h) in
    elim merged [
      | inl e ↦
          let (a, b) = apply_event-result event i batch found r e in (inl a, ground (arith, a, b))
      | inr e ↦
          let (a, b) = apply_event-result event i batch found failed e.0 in
          (inr (a, e.1), ground (arith, a, b))
    ]

-- An agent shown as failed stays so under every event that is not telemetry of a Codex child thread.
pub failed_sticks :
    (event : Event) (i : Identity) (batch : Option Text) (e : Entry)
    → displayed e.telemetry_state e.result_state ≡ failed
    → is_thread_event event ≡ false
    → (apply_event event i batch e).0.state ≡ failed
unfolding apply_event
failed_sticks (tool_call t) i batch e h n = ground arith
failed_sticks (tool_result _ b _) i batch e h n = ground arith
failed_sticks (subagent s) i batch e h n = ground arith
failed_sticks (subagent_activity _ _ a) i batch e h n = cc
failed_sticks (subagent_turn_done _ _ b) i batch e h n = cc
failed_sticks _ i batch e h n = ground arith

-- An agent that a `subagent` event ended is shown as ended after any further `subagent` event, its
-- late `running` and `starting` frames included.
pub ended_stays_ended :
    (s : Subagent) (i : Identity) (batch : Option Text) (e : Entry) (t : State)
    → e.telemetry_state ≡ some t
    → t ≢ running
    → (apply_event (subagent s) i batch e).0.state ≢ running
unfolding apply_event
ended_stays_ended s i batch e t h n = ground arith
