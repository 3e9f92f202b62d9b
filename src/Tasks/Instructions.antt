-- ===== src/Tasks/Instructions.antt =====
-- src/domain/instructions.ts: `parseInstructionSnapshot`. `normalize('NFC')` and `toLowerCase`, which
-- stand on the tables of Unicode, are parameters.
pub mod Bounds
use codevo_runner.Prelude.{
  ℕ, ◌+◌, ◌-◌, ◌/◌, ◌%◌, Bool, true, false, not, ◌&&◌, ◌||◌, Option, some, List, [], ◌∷◌, ◌++◌, ltb,
  leb, ◌==◌, if◌then◌else◌, length, drop, any, all, Text, codes, text_eq,
}
use codevo_runner.Prelude.Utf8.{encode, string_length}
use codevo_runner.Json.{Value, Fields, items, keys, lookup, includes, num, str, arr, obj}
use codevo_runner.Contracts.{Result, guard, ◌>>=◌, ◌>>◌, invalid_input, too_large, ok, err}
use codevo_runner.Delivery.{InstructionFile, Snapshot}

abbrev pub max_files : ℕ
max_files = 128

abbrev pub file_bytes : ℕ
file_bytes = 65536

abbrev pub total_bytes : ℕ
total_bytes = 524288

abbrev pub path_bytes : ℕ
path_bytes = 512

abbrev pub depth : ℕ
depth = 32

-- `record`: an object with these keys and no other.
unfoldable pub exact : Value → List Text → Result Fields
exact (obj fs) ks =
    if length (keys fs) == length ks && all (λ k. includes ks k) (keys fs)
    then ok fs
    else err invalid_input
exact _ ks = err invalid_input

-- `path.split('/')`.
abbrev pub split : Text → Text × List Text
split [] = ([], [])
split (c ∷ s) =
    let (part, parts) = split s in if c == b'/' then ([], part ∷ parts) else (c ∷ part, parts)

abbrev pub segments : Text → List Text
segments s = let (part, parts) = split s in part ∷ parts

abbrev pub last_is : ℕ → Text → Bool
last_is c [] = false
last_is c (d ∷ []) = c == d
last_is c (d ∷ e ∷ s) = last_is c (e ∷ s)

abbrev pub bad_segment : Text → Bool
bad_segment [] = true
bad_segment s = text_eq s (codes ".") || text_eq s (codes "..") || last_is b'.' s || last_is b' ' s

-- The class of the regular expression.
abbrev pub bad_character : ℕ → Bool
bad_character c = c == b'\\' || leb c 0x1F || c == 0x7F || c == b':'

abbrev pub starts_with : Text → Text → Bool
starts_with [] s = true
starts_with (c ∷ p) [] = false
starts_with (c ∷ p) (d ∷ s) = let rest = starts_with p s in c == d && rest

abbrev pub ends_with_md : Text → Bool
ends_with_md s = starts_with (codes ".md") (drop (length s - 3) s)

abbrev pub scope_of : Option Value → Result Bool
scope_of (some (str s)) =
    if text_eq s (codes "global")
    then ok false
    else if text_eq s (codes "project")
    then ok true
    else err invalid_input
scope_of _ = err invalid_input

abbrev pub string_of : Option Value → Result Text
string_of (some (str s)) = ok s
string_of _ = err invalid_input

abbrev pub scope_text : Bool → Text
scope_text false = codes "global"
scope_text true = codes "project"

-- `paths` and `total`.
pub record Seen : Type 0 where
  pub paths : List Text
  pub total : ℕ

abbrev pub overlaps : Text → Text → Bool
overlaps key path =
    text_eq path key || starts_with (key ++ b'/' ∷ []) path || starts_with (path ++ b'/' ∷ []) key

-- UTF-16 code units, by which JavaScript compares strings.
abbrev pub units : Text → List ℕ
units [] = []
units (c ∷ s) =
    let rest = units s in
    if ltb c 0x10000
    then c ∷ rest
    else (0xD800 + (c - 0x10000) / 0x400) ∷ (0xDC00 + (c - 0x10000) % 0x400) ∷ rest

abbrev pub less_units : List ℕ → List ℕ → Bool
less_units [] [] = false
less_units [] (d ∷ t) = true
less_units (c ∷ s) [] = false
less_units (c ∷ s) (d ∷ t) = let rest = less_units s t in if c == d then rest else ltb c d

-- The comparison of the sort; files of one scope and path are not accepted.
abbrev pub after_file : InstructionFile → InstructionFile → Bool
after_file f g =
    if f.project_scope
    then not g.project_scope || less_units (units g.path) (units f.path)
    else not g.project_scope && less_units (units g.path) (units f.path)

abbrev pub insert_file : InstructionFile → List InstructionFile → List InstructionFile
insert_file f [] = f ∷ []
insert_file f (g ∷ gs) =
    let rest = insert_file f gs in if after_file f g then g ∷ rest else f ∷ g ∷ gs

-- `files.sort`.
unfoldable pub sort_files : List InstructionFile → List InstructionFile
sort_files [] = []
sort_files (f ∷ fs) = insert_file f (sort_files fs)

module _ (normalize lower : Text → Text) where
  abbrev pub bad_path : Text → Bool
  bad_path [] = true
  bad_path path =
      any bad_character path || not (ends_with_md (lower path)) || any bad_segment (segments path)

  abbrev pub long_path : Text → Bool
  long_path path =
      ltb path_bytes (string_length path)
      || ltb path_bytes (length (encode path))
      || ltb depth (length (segments path))

  -- The size of a file, which is added to the total.
  abbrev pub sized : Text → Seen → Result ℕ
  sized content seen =
      if ltb file_bytes (string_length content)
        || ltb file_bytes (length (encode content))
        || ltb total_bytes (seen.total + length (encode content))
      then err too_large
      else ok (seen.total + length (encode content))

  unfoldable pub parse_file : Value → Seen → Result (InstructionFile × Seen)
  unfolding exact
  parse_file v seen = do
    fs ← exact v (codes "scope" ∷ codes "path" ∷ codes "content" ∷ [])
    project ← scope_of (lookup (codes "scope") fs)
    path ← string_of (lookup (codes "path") fs)
    content ← string_of (lookup (codes "content") fs)
    _ ← guard (not (bad_path path)) invalid_input
    _ ← guard (not (long_path path)) too_large
    let key : Text = scope_text project ++ b'/' ∷ lower (normalize path) in
        do
          _ ← guard (not (any (overlaps key) seen.paths)) invalid_input
          total ← sized content seen
          ok (
            record { project_scope = project; path = path; content = content },
            record { paths = key ∷ seen.paths; total = total },
          )

  unfoldable pub parse_files : List Value → Seen → Result (List InstructionFile × Seen)
  unfolding parse_file
  parse_files [] seen = ok ([], seen)
  parse_files (v ∷ vs) seen = do
    (f, seen1) ← parse_file v seen
    (fs, seen2) ← parse_files vs seen1
    ok (f ∷ fs, seen2)

  abbrev pub is_one : Option Value → Bool
  is_one (some (num n)) = n == 1
  is_one _ = false

  abbrev pub file_values : Option Value → Result (List Value)
  file_values (some (arr vs)) =
      if ltb max_files (length (items vs)) then err too_large else ok (items vs)
  file_values _ = err invalid_input

  -- `parseInstructionSnapshot`.
  unfoldable pub parse_snapshot : Value → Result Snapshot
  unfolding parse_files sort_files exact
  parse_snapshot v = do
    fs ← exact v (codes "version" ∷ codes "files" ∷ [])
    _ ← guard (is_one (lookup (codes "version") fs)) invalid_input
    vs ← file_values (lookup (codes "files") fs)
    (files, seen) ← parse_files vs (record { paths = []; total = 0 })
    ok (record { files = sort_files files })
