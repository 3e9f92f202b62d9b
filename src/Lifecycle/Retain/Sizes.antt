-- ===== src/Lifecycle/Retain/Sizes.antt =====
-- How the operations on the retained entries change how many there are.
use codevo_runner.Prelude.{
  ℕ, zero, suc, ◌+◌, ◌-◌, ◌≤◌, ◌≡◌, refl, Bool, true, false, Option, none, some, List, [], ◌∷◌,
  ◌++◌, arith, length, length-drop, find, keep, All, Text, text_eq, text_eq_refl, text_eq_iff,
}
use codevo_runner.Lifecycle.{
  tool_call, tool_result, subagent, subagent_activity, subagent_turn_done,
  max_nested_ancestor_depth, Event, Identity, Entry, defined_and_same,
}
use codevo_runner.Lifecycle.Aliases.{
  put, delete, merge_aliases, is_alias, absorb, resolve, resolve_alias,
}
use codevo_runner.Lifecycle.Events.{apply_event}
use codevo_runner.Lifecycle.Retain.{nested_root_from, nested_root, remember_counted}

abbrev pub has_id : Text → List Entry → Bool
has_id i [] = false
has_id i (x ∷ xs) = elim (text_eq x.id i) [ true ↦ true | false ↦ has_id i xs ]

pub length-put-le : (e : Entry) (xs : List Entry) → length (put e xs) ≤ length xs + 1
unfolding put
length-put-le e [] = omega arith
length-put-le e (x ∷ xs) = ground (arith, length-put-le e xs)

pub length-put :
    (e : Entry) (xs : List Entry) → has_id e.id xs ≡ true → length (put e xs) ≡ length xs
unfolding put
length-put e [] h = cc
length-put e (x ∷ xs) h = ground (arith, length-put e xs)

pub has_id-put_self : (e : Entry) (xs : List Entry) → has_id e.id (put e xs) ≡ true
unfolding put
has_id-put_self e [] = ground (arith, text_eq_refl e.id)
has_id-put_self e (x ∷ xs) = ground (arith, text_eq_refl e.id, has_id-put_self e xs)

pub has_id-put :
    (i : Text) (e : Entry) (xs : List Entry) → has_id i xs ≡ true → has_id i (put e xs) ≡ true
unfolding put
has_id-put i e [] h = cc
has_id-put i e (x ∷ xs) h =
    ground (arith, has_id-put i e xs, text_eq_iff x.id e.id, text_eq_iff x.id i, text_eq_iff e.id i)

length-delete-le : (i : Text) (xs : List Entry) → length (delete i xs) ≤ length xs
unfolding delete
length-delete-le i [] = omega arith
length-delete-le i (x ∷ xs) = ground (arith, length-delete-le i xs)

length-delete :
    (i : Text) (xs : List Entry) → has_id i xs ≡ true → length (delete i xs) + 1 ≡ length xs
unfolding delete
length-delete i [] h = cc
length-delete i (x ∷ xs) h = ground (arith, length-delete i xs)

length-absorb :
    (found : Entry) (aliases xs : List Entry) → length (absorb found aliases xs).1 ≤ length xs
unfolding absorb
length-absorb found [] xs = omega arith
length-absorb found (a ∷ aliases) xs = omega (
  arith,
  length-absorb (merge_aliases found a) aliases (delete a.id xs),
  length-delete-le a.id xs,
)

-- The entries of a filter of `xs` are in `xs`.
AllIn : List Entry → List Entry → Type 0
AllIn ys xs = All (λ y. has_id y.id xs ≡ true) ys

AllIn-cons : (x : Entry) (ys xs : List Entry) → AllIn ys xs → AllIn ys (x ∷ xs)
unfolding AllIn
AllIn-cons x [] xs h = tt
AllIn-cons x (y ∷ ys) xs h = (ground (arith, h.0), AllIn-cons x ys xs h.1)

AllIn-keep : (p : Entry → Bool) (xs : List Entry) → AllIn (keep p xs) xs
unfolding AllIn
AllIn-keep p [] = tt
AllIn-keep p (x ∷ xs) = go (AllIn-cons x (keep p xs) xs (AllIn-keep p xs)) (p x)
  where
    go :
        AllIn (keep p xs) (x ∷ xs)
        → (b : Bool) → AllIn (elim b [ true ↦ x ∷ keep p xs | false ↦ keep p xs ]) (x ∷ xs)
    go rest true = (ground (arith, text_eq_refl x.id), rest)
    go rest false = rest

-- `resolveAlias` leaves no more entries than it was given, and what it finds is one of them.
length-resolve : (ys xs : List Entry) → AllIn ys xs → length (resolve ys xs).1 ≤ length xs
unfolding resolve absorb AllIn
length-resolve [] xs h = omega arith
length-resolve (y ∷ []) xs h = omega (arith, length-put y xs h.0)
length-resolve (y ∷ a ∷ ys) xs h =
    let (found, rest) = absorb (merge_aliases y a) ys (delete a.id xs) in
    omega (
      arith,
      length-put-le found rest,
      length-absorb (merge_aliases y a) ys (delete a.id xs),
      length-delete a.id xs h.1.0,
    )

abbrev pub IsIn : Option Entry → List Entry → Type 0
IsIn none xs = Unit
IsIn (some e) xs = has_id e.id xs ≡ true

resolve-IsIn : (ys xs : List Entry) → IsIn (resolve ys xs).0 (resolve ys xs).1
unfolding resolve
resolve-IsIn [] xs = tt
resolve-IsIn (y ∷ ys) xs = let (found, rest) = absorb y ys xs in has_id-put_self found rest

pub length-resolve_alias :
    (i : Identity) (xs : List Entry) → length (resolve_alias i xs).1 ≤ length xs
unfolding resolve_alias
length-resolve_alias i xs = length-resolve (keep (is_alias i) xs) xs (AllIn-keep (is_alias i) xs)

pub resolve_alias-IsIn :
    (i : Identity) (xs : List Entry) → IsIn (resolve_alias i xs).0 (resolve_alias i xs).1
unfolding resolve_alias
resolve_alias-IsIn i xs = resolve-IsIn (keep (is_alias i) xs) xs

find-has_id : (p : Entry → Bool) (xs : List Entry) → IsIn (find p xs) xs
find-has_id p [] = tt
find-has_id p (x ∷ xs) = ground (arith, find-has_id p xs, text_eq_refl x.id)

pub id-apply_event :
    (event : Event) (i : Identity) (batch : Option Text) (e : Entry)
    → (apply_event event i batch e).0.id ≡ e.id
unfolding apply_event
id-apply_event (tool_call t) i batch e = refl
id-apply_event (tool_result _ _ _) i batch e = refl
id-apply_event (subagent s) i batch e = refl
id-apply_event (subagent_activity _ _ _) i batch e = refl
id-apply_event (subagent_turn_done _ _ _) i batch e = refl
id-apply_event _ i batch e = refl

pub length-remember_counted :
    (i : Text) (counted : List Text) → length (remember_counted i counted) ≤ 32
unfolding remember_counted
length-remember_counted i counted = ground (
  arith,
  length-drop (length counted - 32) counted,
  length-drop (length (counted ++ i ∷ []) - 32) (counted ++ i ∷ []),
)

nested_root-IsIn :
    (depth : ℕ) (entries : List Entry) (t : Option Text)
    → IsIn (nested_root_from depth entries t) entries
unfolding nested_root_from
nested_root-IsIn zero entries t = tt
nested_root-IsIn (suc depth) entries none = tt
nested_root-IsIn (suc depth) entries (some t) =
    go (λ up. nested_root-IsIn depth entries (some up))
      (find (λ e. defined_and_same (some t) e.tool_id) entries)
      (find-has_id (λ e. defined_and_same (some t) e.tool_id) entries)
  where
    above :
        ((up : Text) → IsIn (nested_root_from depth entries (some up)) entries)
        → (parent : Entry) → has_id parent.id entries ≡ true
        → (p : Option Text)
        → IsIn
            (elim p [ none ↦ some parent | some up ↦ nested_root_from depth entries (some up) ])
            entries
    above rec parent h none = h
    above rec parent h (some up) = rec up

    go :
        ((up : Text) → IsIn (nested_root_from depth entries (some up)) entries)
        → (o : Option Entry) → IsIn o entries
        → IsIn
            (elim o [
              | none ↦ none
              | some parent ↦ elim parent.parent_tool_id [
                | none ↦ some parent
                | some up ↦ nested_root_from depth entries (some up)
              ]
            ])
            entries
    go rec none h = tt
    go rec (some parent) h = above rec parent h parent.parent_tool_id

pub nested_root-IsIn' :
    (entries : List Entry) (parent : Text) → IsIn (nested_root entries parent) entries
unfolding nested_root
nested_root-IsIn' entries parent = nested_root-IsIn max_nested_ancestor_depth entries (some parent)
