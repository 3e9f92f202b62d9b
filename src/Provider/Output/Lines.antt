-- ===== src/Provider/Output/Lines.antt =====
-- The lines of a chunk, and the bytes of a text, for the stream of src/domain/provider-output.ts.
use codevo_runner.Prelude.{
  ℕ, ◌+◌, ◌≤◌, compare, Ordering, ◌≡◌, refl, ap, false, List, [], ◌∷◌, ◌++◌, arith, ltb, ◌==◌,
  if◌then◌else◌, length, length-append, All, Text, lines, add_char,
}
use codevo_runner.Prelude.Utf8.{utf8, encode, string_length}

-- `lines` and its inverse.
abbrev pub join : List Text → Text → Text
join [] t = t
join (l ∷ ls) t = l ++ (10 ∷ join ls t)

abbrev pub NoFeed : Text → Type 0
NoFeed s = All (λ c. (c == 10) ≡ false) s

abbrev pub IsSplit : Text → List Text × Text → Type 0
IsSplit s (ls, t) = (join ls t ≡ s) × All NoFeed ls × NoFeed t

add_char-IsSplit :
    (c : ℕ) (s : Text) (r : List Text × Text)
    → (c == 10) ≡ false
    → IsSplit s r
    → IsSplit (c ∷ s) (add_char c r)
add_char-IsSplit c s ([], t) n h = (ap (λ r. c ∷ r) h.0, tt, (n, h.2))
add_char-IsSplit c s (l ∷ ls, t) n h = (ap (λ r. c ∷ r) h.0, ((n, h.1.0), h.1.1), h.2)

pub lines-IsSplit : (s : Text) → IsSplit s (lines s)
unfolding lines
lines-IsSplit [] = (refl, tt, tt)
lines-IsSplit (c ∷ s) = go (lines s) (lines-IsSplit s) (compare c 10) refl
  where
    go :
        (r : List Text × Text)
        → IsSplit s r
        → (o : Ordering) → compare c 10 ≡ o
        → IsSplit
            (c ∷ s)
            (elim o [ Ordering.eq ↦ let (ls, t) = r in ([] ∷ ls, t) | _ ↦ add_char c r ])
    go (ls, t) h Ordering.eq e = (ground arith, (tt, h.1), h.2)
    go r h Ordering.lt e = add_char-IsSplit c s r (ground arith) h
    go r h Ordering.gt e = add_char-IsSplit c s r (ground arith) h

length-utf8 : (c : ℕ) → 1 ≤ length (utf8 c) × ((if ltb c 0x10000 then 1 else 2) ≤ length (utf8 c))
unfolding utf8
length-utf8 c = ground arith

pub string_length-le : (s : Text) → string_length s ≤ length (encode s)
unfolding string_length encode
string_length-le [] = omega arith
string_length-le (c ∷ s) =
    omega (arith, string_length-le s, length-utf8 c, length-append (utf8 c) (encode s))

pub length-encode-append :
    (s t : Text) → length (encode (s ++ t)) ≡ length (encode s) + length (encode t)
unfolding encode
length-encode-append [] t = omega arith
length-encode-append (c ∷ s) t = omega (
  arith,
  length-encode-append s t,
  length-append (utf8 c) (encode s),
  length-append (utf8 c) (encode (s ++ t)),
)
