-- ===== src/Lifecycle/Retain/Bounds.antt =====
-- The retained lifecycle stays within its limits, whatever the events.
use codevo_runner.Prelude.{
  ◌+◌, ◌≤◌, ◌≡◌, ◌⊎◌, inl, inr, Bool, true, false, not, ◌&&◌, ◌||◌, Option, none, some, List, [],
  ◌∷◌, ◌++◌, arith, leb, if◌then◌else◌, Bool-cases, length, length-append, any, length-keep, Text,
  text_eq,
}
use codevo_runner.Lifecycle.{
  tool_call, subagent_activity, subagent_turn_done, max_retained_subagents,
  max_subagent_counted_nested_ids, ToolCall, Event, Identity, Entry, Lifecycle, or_else, or_value,
  is_some, clip, valid_id, spawn, codex_spawn, task_title_of, closes_spawn_batch, event_identity,
}
use codevo_runner.Lifecycle.Aliases.{put, map_of, or_text, resolve_alias}
use codevo_runner.Lifecycle.Events.{apply_event}
use codevo_runner.Lifecycle.Retain.{
  add_nested, nested_entry, retain_counted, has_parent, is_entry, retain_under, close_batch,
  drop_acknowledged, is_redundant, store, store_new, is_tool_result, store_found, identified,
  retain_top, retain_spawn, retain_event, lifecycle_of, Loop, nested_root, Nested, retain_nested,
  new_key, blank_entry, step, steps_of, set_of, start, retain,
}
use codevo_runner.Lifecycle.Retain.Sizes.{
  has_id, length-put-le, length-put, has_id-put, IsIn, length-resolve_alias, resolve_alias-IsIn,
  id-apply_event, length-remember_counted, nested_root-IsIn',
}

pub record IsBounded (s : Loop) : Type 0 where
  pub entries : length s.entries ≤ max_retained_subagents
  pub counted : length s.counted ≤ max_subagent_counted_nested_ids

-- Both limits, of a nested spawn's result.
abbrev NestedIsBounded : Nested → Type 0
NestedIsBounded n =
    (length n.entries ≤ max_retained_subagents)
    × (length n.counted ≤ max_subagent_counted_nested_ids)

module _ (t : ToolCall) (parent : Text) (counted : List Text)
    (few : length counted ≤ max_subagent_counted_nested_ids) where
  retain_counted-IsBounded :
      (existing : Option Entry) (entries : List Entry)
      → IsIn existing entries
      → length entries ≤ max_retained_subagents
      → NestedIsBounded (retain_counted t parent existing entries counted)
  unfolding retain_counted
  retain_counted-IsBounded none entries h le = ground (
    arith,
    length-remember_counted t.tool_id counted,
    length-put-le (nested_entry t parent) entries,
  )
  retain_counted-IsBounded (some e) entries h le =
      let text : Text = or_value t.description t.input_summary in
      let e' : Entry = record e {
        parent_tool_id = some parent;
        description = or_text e.description (clip text 512);
        task_title = or_else e.task_title (task_title_of (some text));
      } in
      (omega (arith, length-put e' entries h), few)

  retain_under-IsBounded :
      (existing root : Option Entry) (entries : List Entry)
      → IsIn existing entries
      → IsIn root entries
      → length entries ≤ max_retained_subagents
      → NestedIsBounded (retain_under t parent existing root entries counted)
  unfolding retain_under
  retain_under-IsBounded existing none entries h r le = (le, few)
  retain_under-IsBounded existing (some root) entries h r le =
      elim (Bool-cases (is_entry existing root)) [
        | inl e ↦ rw e (le, few)
        | inr e ↦ rw e (
            retain_counted-IsBounded existing (put (add_nested root) entries) (still existing h)
              (omega (arith, length-put (add_nested root) entries r)))
      ]
    where
      still : (o : Option Entry) → IsIn o entries → IsIn o (put (add_nested root) entries)
      still none h = tt
      still (some e) h = has_id-put e.id (add_nested root) entries h

  retain_nested-IsBounded :
      (entries : List Entry)
      → length entries ≤ max_retained_subagents
      → NestedIsBounded (retain_nested t parent entries counted)
  unfolding retain_nested
  retain_nested-IsBounded entries le =
      let i : Identity = record {
        tool_id = some t.tool_id;
        task_id = none;
        agent_thread_id = none;
      } in
      let found = resolve_alias i entries in
      let le' : length found.1 ≤ max_retained_subagents =
        omega (arith, length-resolve_alias i entries) in
      elim (Bool-cases (not (valid_id t.tool_id) || not (valid_id parent))) [
        | inl e ↦ rw e (le, few)
        | inr e ↦
            rw e (elim (Bool-cases (has_parent found.0 || any (λ c. text_eq c t.tool_id) counted)) [
              | inl f ↦ rw f (le', few)
              | inr f ↦ rw f (
                  retain_under-IsBounded found.0 (nested_root found.1 parent) found.1
                    (resolve_alias-IsIn i entries) (nested_root-IsIn' found.1 parent) le')
            ])
      ]

put_found-IsBounded :
    (event : Event) (i : Identity) (e : Entry) (s : Loop)
    → has_id e.id s.entries ≡ true
    → IsBounded s
    → IsBounded (store event i e s)
unfolding store
put_found-IsBounded event i e s h b =
    let e' = (apply_event event i s.open_batch_key e).0 in
    let same : e'.id ≡ e.id = id-apply_event event i s.open_batch_key e in
    let h' : has_id e'.id s.entries ≡ true = rw same h in
    record { entries = omega (arith, length-put e' s.entries h', b.entries); counted = b.counted }

store_new-IsBounded :
    (event : Event) (i : Identity) (key : Option Text) (s : Loop)
    → IsBounded s
    → IsBounded (store_new event i key s)
unfolding store_new
store_new-IsBounded event i none s b = record { entries = b.entries; counted = b.counted }
store_new-IsBounded event i (some key) s b =
    elim (Bool-cases (leb max_retained_subagents (length s.entries))) [
      | inl full ↦ rw full (record { entries = b.entries; counted = b.counted })
      | inr room ↦
          let e' = (apply_event event i s.open_batch_key (blank_entry key)).0 in
          rw room
            (record { entries = ground (arith, length-put-le e' s.entries); counted = b.counted })
    ]

store_found-IsBounded :
    (event : Event) (i : Identity) (found : Option Entry) (s : Loop)
    → IsIn found s.entries
    → IsBounded s
    → IsBounded (store_found event i found s)
unfolding store_found
store_found-IsBounded event i (some e) s h b = put_found-IsBounded event i e s h b
store_found-IsBounded event i none s h b = elim (Bool-cases (is_tool_result event)) [
  | inl e ↦ rw e b
  | inr e ↦ rw e (store_new-IsBounded event i (new_key i) s b)
]

identified-IsBounded :
    (event : Event) (o : Option Identity) (s : Loop)
    → IsBounded s
    → IsBounded (identified event o s)
unfolding identified
identified-IsBounded event none s b = b
identified-IsBounded event (some i) s b =
    let found = resolve_alias i s.entries in
    store_found-IsBounded event i found.0 (record s { entries = found.1 })
      (resolve_alias-IsIn i s.entries)
      (record {
        entries = omega (arith, length-resolve_alias i s.entries, b.entries);
        counted = b.counted;
      })

length-drop_acknowledged :
    (event : Event) (entries : List Entry)
    → length (drop_acknowledged event entries) ≤ length entries
unfolding drop_acknowledged
length-drop_acknowledged (subagent_activity _ _ _) entries =
    length-keep (λ e. not (codex_spawn e.name)) entries
length-drop_acknowledged (subagent_turn_done _ _ _) entries =
    length-keep (λ e. not (codex_spawn e.name)) entries
length-drop_acknowledged _ entries = omega arith

retain_top-IsBounded : (event : Event) (s : Loop) → IsBounded s → IsBounded (retain_top event s)
unfolding retain_top
retain_top-IsBounded event s b =
    let s' : Loop = record s { entries = drop_acknowledged event s.entries } in
    let b' : IsBounded s' = record {
      entries = omega (arith, length-drop_acknowledged event s.entries, b.entries);
      counted = b.counted;
    } in
    elim (Bool-cases (is_redundant event s'.entries)) [
      | inl e ↦ rw e b'
      | inr e ↦ rw e (identified-IsBounded event (event_identity event) s' b')
    ]

retain_event-IsBounded : (event : Event) (s : Loop) → IsBounded s → IsBounded (retain_event event s)
unfolding retain_event retain_spawn
retain_event-IsBounded (tool_call t) s b = go t.parent_tool_id (Bool-cases (spawn t.name))
  where
    go :
        (parent : Option Text)
        → (spawn t.name ≡ true) ⊎ (spawn t.name ≡ false)
        → IsBounded (retain_spawn t parent s)
    go none _ = retain_top-IsBounded (tool_call t) s b
    go (some parent) (inl e) =
        let n = retain_nested-IsBounded t parent s.counted b.counted s.entries b.entries in
        rw e (record { entries = n.0; counted = n.1 })
    go (some parent) (inr e) = rw e (retain_top-IsBounded (tool_call t) s b)
retain_event-IsBounded event s b = retain_top-IsBounded event s b

close_batch-IsBounded : (event : Event) (s : Loop) → IsBounded s → IsBounded (close_batch event s)
unfolding close_batch
close_batch-IsBounded event s b =
    elim (Bool-cases (is_some s.open_batch_key && closes_spawn_batch event)) [
      | inl e ↦ rw e (record { entries = b.entries; counted = b.counted })
      | inr e ↦ rw e b
    ]

pub step-IsBounded : (event : Event) (s : Loop) → IsBounded s → IsBounded (step event s)
unfolding step
step-IsBounded event s b =
    retain_event-IsBounded event (close_batch event s) (close_batch-IsBounded event s b)

steps-IsBounded : (events : List Event) (s : Loop) → IsBounded s → IsBounded (steps_of events s)
unfolding steps_of
steps-IsBounded [] s b = b
steps-IsBounded (event ∷ events) s b =
    steps-IsBounded events (step event s) (step-IsBounded event s b)

-- Within the limits, of a lifecycle, if there is one.
abbrev pub Fits : Option Lifecycle → Type 0
Fits none = Unit
Fits (some l) =
    (length l.entries ≤ max_retained_subagents)
    × (length l.counted_nested_tool_ids ≤ max_subagent_counted_nested_ids)

length-map_of : (acc es : List Entry) → length (map_of acc es) ≤ length acc + length es
unfolding map_of
length-map_of acc [] = omega arith
length-map_of acc (e ∷ es) = omega (arith, length-map_of (put e acc) es, length-put-le e acc)

length-set_of : (acc ss : List Text) → length (set_of acc ss) ≤ length acc + length ss
unfolding set_of
length-set_of acc [] = omega arith
length-set_of acc (s ∷ ss) =
    go (any (λ c. text_eq c s) acc) (length-set_of acc ss) (length-set_of (acc ++ s ∷ []) ss)
  where
    go :
        (b : Bool)
        → length (set_of acc ss) ≤ length acc + length ss
        → length (set_of (acc ++ s ∷ []) ss) ≤ length (acc ++ s ∷ []) + length ss
        → length (set_of (if b then acc else acc ++ s ∷ []) ss) ≤ length acc + length (s ∷ ss)
    go true h k = omega arith
    go false h k = omega (arith, length-append acc (s ∷ []))

start-IsBounded : (previous : Option Lifecycle) → Fits previous → IsBounded (start previous)
unfolding start
start-IsBounded none h = omega arith
start-IsBounded (some l) h = record {
  entries = omega (arith, length-map_of [] l.entries, h.0);
  counted = omega (arith, length-set_of [] l.counted_nested_tool_ids, h.1);
}

-- Whatever events a turn sends, a lifecycle that holds at most 32 entries and at most 32 counted
-- nested identifiers is retained as one that does.
pub retain-Fits :
    (previous : Option Lifecycle) (events : List Event)
    → Fits previous
    → Fits (retain previous events)
unfolding retain lifecycle_of
retain-Fits previous events h =
    go (steps_of events (start previous))
      (steps-IsBounded events (start previous) (start-IsBounded previous h))
  where
    go : (s : Loop) → IsBounded s → Fits (if s.changed then some (lifecycle_of s) else previous)
    go s b = elim (Bool-cases s.changed) [ inl e ↦ rw e (b.entries, b.counted) | inr e ↦ rw e h ]
