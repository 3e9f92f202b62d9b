-- ===== src/Tasks/Input/Bounds.antt =====
-- The limits that an accepted input of src/domain/task-input.ts keeps.
use mathlib.Core.Path.{subst}
use codevo_runner.Prelude.{
  ℕ, ◌+◌, ◌≤◌, ◌≡◌, refl, sym, ap, ◌∙◌, Bool, true, false, not, Option, none, some, List, [], ◌∷◌,
  arith, ltb, leb, if◌then◌else◌, leb→le, length, any, Text, codes, text_eq,
}
use codevo_runner.Prelude.Utf8.{encode, string_length}
use codevo_runner.Prelude.Spaces.{is_blank}
use codevo_runner.Json.{Value, lookup, is_text, null, bool, num, other_num, str, arr, obj}
use codevo_runner.Contracts.{guard, bind-ok, guard-true, invalid_input, too_large, ok, err}
use codevo_runner.Inputs.{distinct}
use codevo_runner.Delivery.{Part, text_part, attachment_part}
use codevo_runner.Tasks.Instructions.{exact, string_of}
use codevo_runner.Tasks.Input.{
  text_bytes, max_parts, attachments_per_task, CreateTask, Read, part_type, parse_text, id_of,
  parse_attachment, parse_part, parse_parts, part_values, provider_from, isolation_of, task_keys,
  object_of, instructions_of, launch_from, parse_task_input,
}

abbrev pub text_total : List Part → ℕ
text_total [] = 0
text_total (text_part s ∷ ps) = length (encode s) + text_total ps
text_total (attachment_part a ∷ ps) = text_total ps

-- The attachments, the last one first, in front of those that were read before.
abbrev pub gathered : List Part → List Text → List Text
gathered [] ids = ids
gathered (text_part s ∷ ps) ids = gathered ps ids
gathered (attachment_part a ∷ ps) ids = gathered ps (a ∷ ids)

-- What has been read so far keeps the limits.
abbrev pub Fits : Read → Type 0
Fits read =
    (read.bytes ≤ text_bytes)
    × (length read.attachments ≤ attachments_per_task)
    × (distinct read.attachments ≡ true)

-- One more part.
abbrev Step : Part → Read → Read → Type 0
Step p read read1 =
    Fits read1
    × (read1.bytes ≡ read.bytes + text_total (p ∷ []))
    × (read1.attachments ≡ gathered (p ∷ []) read.attachments)

text-Step :
    (v : Value) (read read1 : Read) (p : Part)
    → parse_text v read ≡ ok (p, read1)
    → Fits read
    → Step p read read1
unfolding parse_text
text-Step v read read1 p e h =
    let (fs, k0, e0) = bind-ok (exact v (codes "type" ∷ codes "text" ∷ [])) _ (p, read1) e in
    let (s, k1, e1) = bind-ok (string_of (lookup (codes "text") fs)) _ (p, read1) e0 in
    let (u2, k2, e2) =
      bind-ok (guard (not (ltb text_bytes (string_length s))) too_large) _ (p, read1) e1 in
    let (u3, k3, e3) = bind-ok (guard (not (is_blank s)) invalid_input) _ (p, read1) e2 in
    let (u4, k4, e4) =
      bind-ok (guard (leb (read.bytes + length (encode s)) text_bytes) too_large) _ (p, read1) e3 in
    let room : leb (read.bytes + length (encode s)) text_bytes ≡ true =
      guard-true (leb (read.bytes + length (encode s)) text_bytes) too_large u4 k4 in
    let q : text_part s ≡ p = ground (arith, e4) in
    let r : record read { bytes = read.bytes + length (encode s) } ≡ read1 = ground (arith, e4) in
    subst (λ p. Step p read read1) q
      (subst (Step (text_part s) read) r
        ((leb→le (read.bytes + length (encode s)) text_bytes room, h.1, h.2), omega arith, refl))

attachment-Step :
    (v : Value) (read read1 : Read) (p : Part)
    → parse_attachment v read ≡ ok (p, read1)
    → Fits read
    → Step p read read1
unfolding parse_attachment
attachment-Step v read read1 p e h =
    let (fs, k0, e0) =
      bind-ok (exact v (codes "type" ∷ codes "attachmentId" ∷ [])) _ (p, read1) e in
    let (a, k1, e1) = bind-ok (id_of (lookup (codes "attachmentId") fs)) _ (p, read1) e0 in
    let (u2, k2, e2) =
      bind-ok (guard (not (any (λ b. text_eq b a) read.attachments)) invalid_input) _ (p, read1)
        e1 in
    let (u3, k3, e3) =
      bind-ok (guard (leb (length (a ∷ read.attachments)) attachments_per_task) too_large) _
        (p, read1) e2 in
    let fresh : not (any (λ b. text_eq b a) read.attachments) ≡ true =
      guard-true (not (any (λ b. text_eq b a) read.attachments)) invalid_input u2 k2 in
    let room : leb (length (a ∷ read.attachments)) attachments_per_task ≡ true =
      guard-true (leb (length (a ∷ read.attachments)) attachments_per_task) too_large u3 k3 in
    let q : attachment_part a ≡ p = ground (arith, e3) in
    let r : record read { attachments = a ∷ read.attachments } ≡ read1 = ground (arith, e3) in
    subst (λ p. Step p read read1) q
      (subst (Step (attachment_part a) read) r (
        (
          h.0,
          leb→le (length (a ∷ read.attachments)) attachments_per_task room,
          rw (fresh, h.2) refl,
        ),
        omega arith,
        refl,
      ))

part-Step :
    (v : Value) (read read1 : Read) (p : Part)
    → parse_part v read ≡ ok (p, read1)
    → Fits read
    → Step p read read1
unfolding parse_part
part-Step v read read1 p e h =
    go (is_text (part_type v) (codes "text")) (is_text (part_type v) (codes "attachment")) e
  where
    go :
        (b c : Bool)
        → (if b
            then parse_text v read
            else if c
            then parse_attachment v read
            else err invalid_input)
          ≡ ok (p, read1)
        → Step p read read1
    go true c e = text-Step v read read1 p e h
    go false true e = attachment-Step v read read1 p e h
    go false false e = absurd (ground (arith, e))

text_total-cons :
    (p : Part) (ps : List Part) → text_total (p ∷ ps) ≡ text_total (p ∷ []) + text_total ps
text_total-cons (text_part s) ps = omega arith
text_total-cons (attachment_part a) ps = omega arith

gathered-cons :
    (p : Part) (ps : List Part) (ids : List Text)
    → gathered (p ∷ ps) ids ≡ gathered ps (gathered (p ∷ []) ids)
gathered-cons (text_part s) ps ids = refl
gathered-cons (attachment_part a) ps ids = refl

abbrev Parsed : List Value → Read → List Part → Read → Type 0
Parsed vs read ps read1 =
    Fits read1
    × (read1.bytes ≡ read.bytes + text_total ps)
    × (read1.attachments ≡ gathered ps read.attachments)
    × (length ps ≡ length vs)

-- All parts: the limits are kept, and they are limits on what the parts say.
pub parts-Fit :
    (vs : List Value) (read read1 : Read) (ps : List Part)
    → parse_parts vs read ≡ ok (ps, read1)
    → Fits read
    → Fits read1
      × (read1.bytes ≡ read.bytes + text_total ps)
      × (read1.attachments ≡ gathered ps read.attachments)
      × (length ps ≡ length vs)
unfolding parse_parts
parts-Fit [] read read1 ps e h =
    let q : [] ≡ ps = ground (arith, e) in
    let r : read ≡ read1 = ground (arith, e) in
    subst (λ ps. Parsed [] read ps read1) q
      (subst (Parsed [] read []) r (h, omega arith, refl, refl))
parts-Fit (v ∷ vs) read read1 ps e h =
    let (pr, k0, e0) = bind-ok (parse_part v read) _ (ps, read1) e in
    let (rest, k1, e1) = bind-ok (parse_parts vs pr.1) _ (ps, read1) e0 in
    let (fit, more, got) = part-Step v read pr.1 pr.0 k0 h in
    let (fit2, more2, got2, many) = parts-Fit vs pr.1 rest.1 rest.0 k1 fit in
    let q : pr.0 ∷ rest.0 ≡ ps = ground (arith, e1) in
    let r : rest.1 ≡ read1 = ground (arith, e1) in
    subst (λ ps. Parsed (v ∷ vs) read ps read1) q
      (subst (Parsed (v ∷ vs) read (pr.0 ∷ rest.0)) r (
        fit2,
        omega (arith, more2, more, text_total-cons pr.0 rest.0),
        got2 ∙ ap (gathered rest.0) got ∙ sym (gathered-cons pr.0 rest.0 read.attachments),
        omega (arith, many),
      ))

part_values-few :
    (v : Option Value) (vs : List Value)
    → part_values v ≡ ok vs
    → (1 ≤ length vs) × (length vs ≤ max_parts)
part_values-few (some (arr xs)) vs h = ground arith
part_values-few none vs h = absurd (ground (arith, h))
part_values-few (some null) vs h = absurd (ground (arith, h))
part_values-few (some (bool b)) vs h = absurd (ground (arith, h))
part_values-few (some (num n)) vs h = absurd (ground (arith, h))
part_values-few (some other_num) vs h = absurd (ground (arith, h))
part_values-few (some (str s)) vs h = absurd (ground (arith, h))
part_values-few (some (obj fs)) vs h = absurd (ground (arith, h))

-- An accepted input has from 1 to 16 parts, at most 48000 bytes of text in all of them, and at most 8
-- attachments, which are different ones.
pub parse_task_input-Fits :
    (normalize lower : Text → Text) (v : Value) (c : CreateTask)
    → parse_task_input normalize lower v ≡ ok c
    → (1 ≤ length c.parts)
      × (length c.parts ≤ max_parts)
      × (text_total c.parts ≤ text_bytes)
      × (length (gathered c.parts []) ≤ attachments_per_task)
      × (distinct (gathered c.parts []) ≡ true)
unfolding parse_task_input
parse_task_input-Fits normalize lower v c e =
    let (given, k0, e0) = bind-ok (object_of v) _ c e in
    let (fs, k1, e1) = bind-ok (exact v (task_keys given)) _ c e0 in
    let (i, k2, e2) = bind-ok (isolation_of (lookup (codes "isolation") fs)) _ c e1 in
    let (key, k3, e3) = bind-ok (id_of (lookup (codes "idempotencyKey") fs)) _ c e2 in
    let (p, k4, e4) = bind-ok (provider_from (lookup (codes "provider") fs)) _ c e3 in
    let (vs, k5, e5) = bind-ok (part_values (lookup (codes "parts") fs)) _ c e4 in
    let start : Read = record { bytes = 0; attachments = [] } in
    let (read, k6, e6) = bind-ok (parse_parts vs start) _ c e5 in
    let (s, k7, e7) =
      bind-ok (instructions_of normalize lower (lookup (codes "instructions") fs)) _ c e6 in
    let (l, k8, e8) = bind-ok (launch_from normalize lower (lookup (codes "launch") fs) p) _ c e7 in
    let (least, most) = part_values-few (lookup (codes "parts") fs) vs k5 in
    let (fit, bytes, ids, many) =
      parts-Fit vs start read.1 read.0 k6 (omega arith, omega arith, refl) in
    let same : read.0 ≡ c.parts = ground (arith, e8) in
    subst
      (λ ps.
        (1 ≤ length ps)
        × (length ps ≤ max_parts)
        × (text_total ps ≤ text_bytes)
        × (length (gathered ps []) ≤ attachments_per_task)
        × (distinct (gathered ps []) ≡ true))
      same
      (
        omega (arith, many, least),
        omega (arith, many, most),
        omega (arith, fit.0, bytes),
        subst (λ a. length a ≤ attachments_per_task) ids fit.1,
        subst (λ a. distinct a ≡ true) ids fit.2,
      )
