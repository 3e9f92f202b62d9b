-- ===== src/Lifecycle/Parse/Parsed.antt =====
-- What a stored lifecycle that is read says.
use mathlib.Core.Path.{subst}
use codevo_runner.Prelude.{
  ℕ, ◌≤◌, ◌≡◌, refl, Bool, true, false, ◌&&◌, Option, none, some, List, [], ◌∷◌, arith, ltb, leb,
  length, Text, codes,
}
use codevo_runner.Json.{Value, items, lookup, null, bool, num, other_num, str, arr, obj}
use codevo_runner.Lifecycle.{Entry, Lifecycle}
use codevo_runner.Lifecycle.Retain.Bounds.{Fits}
use codevo_runner.Lifecycle.Parse.{
  distinct, only_keys, root_fields, or_nil, ◌>>=◌, check, object, present_text, optional,
  present_texts, counted_ids, parse_entry, parse_entries, bool_of, entries_of, parse_record, parse,
  read,
}

bind-some :
    {A B : Type 0} (m : Option A) (f : A → Option B) (b : B)
    → (m >>= f) ≡ some b
    → (a : A) × (m ≡ some a) × (f a ≡ some b)
bind-some (some a) f b h = (a, refl, h)
bind-some none f b h = cc

check-some : (b : Bool) (u : Unit {0}) → check b ≡ some u → b ≡ true
check-some true u h = refl
check-some false u h = cc

parse_entries-length :
    (seen aliases : List Text) (raws : List Value) (es : List Entry)
    → parse_entries seen aliases raws ≡ some es
    → length es ≡ length raws
unfolding parse_entries
parse_entries-length seen aliases [] es h = ground arith
parse_entries-length seen aliases (raw ∷ raws) es h =
    let (found, e, h1) = bind-some (parse_entry seen aliases raw) _ es h in
    let (rest, e1, h2) = bind-some (parse_entries (found.0.id ∷ seen) found.1 raws) _ es h1 in
    ground (arith, parse_entries-length (found.0.id ∷ seen) found.1 raws rest e1, h2)

entries_of-length : (v : Option Value) (xs : List Value) → entries_of v ≡ some xs → length xs ≤ 32
unfolding entries_of
entries_of-length (some (arr ys)) xs h = ground arith
entries_of-length none xs h = ground arith
entries_of-length (some null) xs h = ground arith
entries_of-length (some (bool b)) xs h = ground arith
entries_of-length (some (num n)) xs h = ground arith
entries_of-length (some other_num) xs h = ground arith
entries_of-length (some (str s)) xs h = ground arith
entries_of-length (some (obj fs)) xs h = ground arith

present_texts-length :
    (max : ℕ) (vs : List Value) (ss : List Text)
    → present_texts max vs ≡ some ss
    → length ss ≡ length vs
unfolding present_texts
present_texts-length max [] ss h = ground arith
present_texts-length max (v ∷ vs) ss h =
    let (t, e, h1) = bind-some (present_text max (some v)) _ ss h in
    let (ts, e1, h2) = bind-some (present_texts max vs) _ ss h1 in
    ground (arith, present_texts-length max vs ts e1, h2)

counted_ids-length :
    (v : Option Value) (ids : List Text) → counted_ids v ≡ some ids → length ids ≤ 32
unfolding counted_ids
counted_ids-length (some (arr xs)) ids h =
    let (u, e, h1) =
      bind-some (check (ltb 0 (length (items xs)) && leb (length (items xs)) 32)) _ ids h in
    let (ss, e1, h2) = bind-some (present_texts 256 (items xs)) _ ids h1 in
    let (w, e2, h3) = bind-some (check (distinct ss)) _ ids h2 in
    ground (
      arith,
      present_texts-length 256 (items xs) ss e1,
      h3,
      check-some (ltb 0 (length (items xs)) && leb (length (items xs)) 32) u e,
    )
counted_ids-length none ids h = ground arith
counted_ids-length (some null) ids h = ground arith
counted_ids-length (some (bool b)) ids h = ground arith
counted_ids-length (some (num n)) ids h = ground arith
counted_ids-length (some other_num) ids h = ground arith
counted_ids-length (some (str s)) ids h = ground arith
counted_ids-length (some (obj fs)) ids h = ground arith

optional_counted :
    (v : Option Value) (ids : Option (List Text))
    → optional counted_ids v ≡ some ids
    → length (or_nil ids) ≤ 32
optional_counted none ids h = ground arith
optional_counted (some v) ids h =
    let (found, e, h1) = bind-some (counted_ids (some v)) _ ids h in
    ground (arith, counted_ids-length (some v) found e, h1)

record-Fits : (v : Value) (l : Lifecycle) → parse_record v ≡ some l → Fits (some l)
unfolding parse_record
record-Fits v l h =
    let (fs, e0, h1) = bind-some (object v) _ l h in
    let (u, e1, h2) = bind-some (check (only_keys root_fields fs)) _ l h1 in
    let (b, e2, h3) = bind-some (bool_of (lookup (codes "truncated") fs)) _ l h2 in
    let (raws, e3, h4) = bind-some (entries_of (lookup (codes "entries") fs)) _ l h3 in
    let (es, e4, h5) = bind-some (parse_entries [] [] raws) _ l h4 in
    let (key, e5, h6) =
      bind-some (optional (present_text 272) (lookup (codes "openBatchKey") fs)) _ l h5 in
    let (ids, e6, h7) =
      bind-some (optional counted_ids (lookup (codes "countedNestedToolIds") fs)) _ l h6 in
    let made : Lifecycle = record {
      entries = es;
      truncated = b;
      open_batch_key = key;
      counted_nested_tool_ids = or_nil ids;
    } in
    let same : made ≡ l = ground (arith, h7) in
    subst (λ m. Fits (some m)) same
      (
        omega (
          arith,
          parse_entries-length [] [] raws es e4,
          entries_of-length (lookup (codes "entries") fs) raws e3,
        ),
        optional_counted (lookup (codes "countedNestedToolIds") fs) ids e6,
      )

-- Whatever is stored, a lifecycle that is read back holds at most 32 entries and at most 32 counted
-- nested identifiers.
pub read-Fits : (v : Option Value) → Fits (read v)
unfolding read parse
read-Fits none = tt
read-Fits (some v) = go (parse_record v) refl
  where
    go :
        (o : Option Lifecycle)
        → parse_record v ≡ o
        → Fits (elim (o >>= λ l. some (some l)) as (λ _. Option Lifecycle) [
          | none ↦ none
          | some l ↦ l
        ])
    go none e = tt
    go (some l) e = record-Fits v l e
