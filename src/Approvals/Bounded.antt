-- ===== src/Approvals/Bounded.antt =====
-- `boundedApprovalText` of src/domain/approvals.ts.
use codevo_runner.Prelude.{
  ℕ, ◌≤◌, ◌≡◌, refl, ◌⊎◌, true, not, [], ◌∷◌, arith, ◌==◌, length, keep, Text,
}
use codevo_runner.Prelude.Utf8.{
  encode, string_length, strip_bom, IsText, fitting, cut-encode, length-encode-fitting,
  length-strip_bom,
}
use codevo_runner.Approvals.{bounded_approval_text}

abbrev pub cleaned : Text → Text
cleaned value = keep (λ c. not (c == 0)) value

cleaned-IsText : (value : Text) → IsText value → IsText (cleaned value)
cleaned-IsText [] h = tt
cleaned-IsText (c ∷ s) h = ground (arith, cleaned-IsText s h.1)

string_length-cleaned : (value : Text) → string_length (cleaned value) ≤ string_length value
unfolding string_length
string_length-cleaned [] = omega arith
string_length-cleaned (c ∷ s) = ground (arith, string_length-cleaned s)

clean : (value : Text) → string_length (cleaned value) ≡ string_length value → cleaned value ≡ value
unfolding string_length
clean [] h = refl
clean (c ∷ s) h = ground (arith, clean s, string_length-cleaned s)

-- For a well-formed text: what is kept fits the bound; it is the text without its NUL characters, cut if need be to
-- the longest prefix that fits; and it is said to be truncated unless it is the text itself.
pub bounded_approval_text_lem :
    (value : Text) (max_bytes : ℕ)
    → IsText value
    → let r = bounded_approval_text value max_bytes in
      (length (encode r.0) ≤ max_bytes)
      × ((r.0 ≡ cleaned value) ⊎ (r.0 ≡ strip_bom (fitting max_bytes (cleaned value))))
      × ((r.1 ≡ true) ⊎ (r.0 ≡ value))
unfolding bounded_approval_text
bounded_approval_text_lem value max_bytes h = ground (
  arith,
  clean value,
  cut-encode (cleaned value) max_bytes (cleaned-IsText value h),
  length-strip_bom (fitting max_bytes (cleaned value)),
  length-encode-fitting max_bytes (cleaned value),
)
