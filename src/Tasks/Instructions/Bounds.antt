-- ===== src/Tasks/Instructions/Bounds.antt =====
-- The limits that an accepted snapshot of src/domain/instructions.ts keeps.
use mathlib.Core.Path.{subst}
use codevo_runner.Prelude.{
  ℕ, suc, ◌+◌, ◌≤◌, ◌≡◌, refl, Bool, true, false, not, Option, none, some, List, [], ◌∷◌, ◌++◌,
  arith, if◌then◌else◌, length, any, Text, codes,
}
use codevo_runner.Prelude.Utf8.{encode}
use codevo_runner.Json.{Value, lookup, null, bool, num, other_num, str, arr, obj}
use codevo_runner.Contracts.{guard, bind-ok, invalid_input, too_large, ok}
use codevo_runner.Delivery.{InstructionFile, Snapshot}
use codevo_runner.Tasks.Instructions.{
  max_files, total_bytes, exact, scope_of, string_of, scope_text, Seen, overlaps, after_file,
  insert_file, sort_files, bad_path, long_path, sized, parse_file, parse_files, is_one, file_values,
  parse_snapshot,
}

abbrev pub content_total : List InstructionFile → ℕ
content_total [] = 0
content_total (f ∷ fs) = length (encode f.content) + content_total fs

insert_file-total :
    (f : InstructionFile) (fs : List InstructionFile)
    → (content_total (insert_file f fs) ≡ content_total (f ∷ fs))
      × (length (insert_file f fs) ≡ suc (length fs))
insert_file-total f [] = (refl, refl)
insert_file-total f (g ∷ gs) = go (after_file f g) (insert_file-total f gs)
  where
    go :
        (b : Bool)
        → (content_total (insert_file f gs) ≡ content_total (f ∷ gs))
          × (length (insert_file f gs) ≡ suc (length gs))
        → (content_total (if b then g ∷ insert_file f gs else f ∷ g ∷ gs)
            ≡ content_total (f ∷ g ∷ gs))
          × (length (if b then g ∷ insert_file f gs else f ∷ g ∷ gs) ≡ suc (suc (length gs)))
    go true ih = (omega (arith, ih.0), omega (arith, ih.1))
    go false ih = (refl, refl)

sort_files-total :
    (fs : List InstructionFile)
    → (content_total (sort_files fs) ≡ content_total fs) × (length (sort_files fs) ≡ length fs)
unfolding sort_files
sort_files-total [] = (refl, refl)
sort_files-total (f ∷ fs) =
    let (a, b) = sort_files-total fs in
    let (c, d) = insert_file-total f (sort_files fs) in (omega (arith, a, c), omega (arith, b, d))

module _ (normalize lower : Text → Text) where
  abbrev Added : InstructionFile → Seen → Seen → Type 0
  Added f seen seen1 =
      (seen1.total ≡ seen.total + length (encode f.content)) × (seen1.total ≤ total_bytes)

  sized-Added :
      (content : Text) (seen : Seen) (n : ℕ)
      → sized normalize lower content seen ≡ ok n
      → (n ≡ seen.total + length (encode content)) × (n ≤ total_bytes)
  sized-Added content seen n e = ground (arith, e)

  file-Added :
      (v : Value) (seen : Seen) (r : InstructionFile × Seen)
      → parse_file normalize lower v seen ≡ ok r
      → Added r.0 seen r.1
  unfolding parse_file
  file-Added v seen r e =
      let (fs, k0, e0) =
        bind-ok (exact v (codes "scope" ∷ codes "path" ∷ codes "content" ∷ [])) _ r e in
      let (p, k1, e1) = bind-ok (scope_of (lookup (codes "scope") fs)) _ r e0 in
      let (path, k2, e2) = bind-ok (string_of (lookup (codes "path") fs)) _ r e1 in
      let (content, k3, e3) = bind-ok (string_of (lookup (codes "content") fs)) _ r e2 in
      let (u4, k4, e4) =
        bind-ok (guard (not (bad_path normalize lower path)) invalid_input) _ r e3 in
      let (u5, k5, e5) = bind-ok (guard (not (long_path normalize lower path)) too_large) _ r e4 in
      let (u6, k6, e6) =
        bind-ok
          (guard (not (any (overlaps (scope_text p ++ b'/' ∷ lower (normalize path))) seen.paths))
            invalid_input)
          _ r e5 in
      let (n, k7, e7) = bind-ok (sized normalize lower content seen) _ r e6 in
      let (a, b) = sized-Added content seen n k7 in
      let same : (
        record { project_scope = p; path = path; content = content },
        record { paths = (scope_text p ++ b'/' ∷ lower (normalize path)) ∷ seen.paths; total = n },
      )
          ≡ r =
        ground (arith, e7) in
      subst (λ r. Added r.0 seen r.1) same (a, b)

  files-Added :
      (vs : List Value) (seen : Seen) (r : List InstructionFile × Seen)
      → parse_files normalize lower vs seen ≡ ok r
      → seen.total ≤ total_bytes
      → (r.1.total ≡ seen.total + content_total r.0)
        × (r.1.total ≤ total_bytes)
        × (length r.0 ≡ length vs)
  unfolding parse_files
  files-Added [] seen r e h =
      let same : ([], seen) ≡ r = ground (arith, e) in
      subst
        (λ r.
          (r.1.total ≡ seen.total + content_total r.0)
          × (r.1.total ≤ total_bytes)
          × (length r.0 ≡ 0))
        same (omega arith, h, refl)
  files-Added (v ∷ vs) seen r e h =
      let (f, k0, e0) = bind-ok (parse_file normalize lower v seen) _ r e in
      let (fs, k1, e1) = bind-ok (parse_files normalize lower vs f.1) _ r e0 in
      let (a, b) = file-Added v seen f k0 in
      let (c, d, n) = files-Added vs f.1 fs k1 b in
      let same : (f.0 ∷ fs.0, fs.1) ≡ r = ground (arith, e1) in
      subst
        (λ r.
          (r.1.total ≡ seen.total + content_total r.0)
          × (r.1.total ≤ total_bytes)
          × (length r.0 ≡ suc (length vs)))
        same (omega (arith, a, c), d, omega (arith, n))

  file_values-few :
      (v : Option Value) (vs : List Value)
      → file_values normalize lower v ≡ ok vs
      → length vs ≤ max_files
  file_values-few (some (arr xs)) vs h = ground arith
  file_values-few none vs h = absurd (ground (arith, h))
  file_values-few (some null) vs h = absurd (ground (arith, h))
  file_values-few (some (bool b)) vs h = absurd (ground (arith, h))
  file_values-few (some (num n)) vs h = absurd (ground (arith, h))
  file_values-few (some other_num) vs h = absurd (ground (arith, h))
  file_values-few (some (str s)) vs h = absurd (ground (arith, h))
  file_values-few (some (obj fs)) vs h = absurd (ground (arith, h))

  -- An accepted snapshot has at most 128 files, whose contents have at most 524288 bytes together.
  pub parse_snapshot-Fits :
      (v : Value) (s : Snapshot)
      → parse_snapshot normalize lower v ≡ ok s
      → (length s.files ≤ max_files) × (content_total s.files ≤ total_bytes)
  unfolding parse_snapshot
  parse_snapshot-Fits v s e =
      let start : Seen = record { paths = []; total = 0 } in
      let (fs, k0, e0) = bind-ok (exact v (codes "version" ∷ codes "files" ∷ [])) _ s e in
      let (u, k1, e1) =
        bind-ok (guard (is_one normalize lower (lookup (codes "version") fs)) invalid_input) _ s
          e0 in
      let (vs, k2, e2) = bind-ok (file_values normalize lower (lookup (codes "files") fs)) _ s e1 in
      let (r, k3, e3) = bind-ok (parse_files normalize lower vs start) _ s e2 in
      let (a, b, n) = files-Added vs start r k3 (omega arith) in
      let (c, d) = sort_files-total r.0 in
      let few : length vs ≤ max_files = file_values-few (lookup (codes "files") fs) vs k2 in
      let same : sort_files r.0 ≡ s.files = ground (arith, e3) in
      subst (λ fs. (length fs ≤ max_files) × (content_total fs ≤ total_bytes)) same
        (omega (arith, d, n, few), omega (arith, a, b, c))
