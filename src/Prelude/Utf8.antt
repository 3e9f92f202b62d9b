-- ===== src/Prelude/Utf8.antt =====
-- What `TextEncoder` and `TextDecoder` do to well-formed strings, and `String.length`. The decoder
-- writes U+FFFD for a sequence that is cut short or has no lead byte, and drops a byte order mark at
-- the start; the code never hands it the former.
use mathlib.Core.Logic.{inr}
use mathlib.Core.Logic.{inl}
use Prim.Native.Nat.{◌≤◌}
use mathlib.Core.Logic.{◌⊎◌}
use mathlib.Core.Path.{subst, sym}
use codevo_runner.Prelude.Tests.{ltb, leb, ◌==◌, if◌then◌else◌, Bool-cases}
use codevo_runner.Prelude.Lists.{length, take, drop, length-append, All}
use codevo_runner.Prelude.Texts.{Text}
use Prim.Native.Nat.{ℕ, zero, suc, ◌+◌, ◌-◌, ◌*◌, ◌/◌, ◌%◌, ◌<◌}
use mathlib.Core.Path.{subst, ◌≡◌, refl, ap, ◌∙◌}
use mathlib.Core.Bool.{Bool, true, false}
use mathlib.Core.List.{List, [], ◌∷◌, ◌++◌}
use native.Mathlib.Nat.{add-suc, add-zero, zero-add, suc-add}
use native.Mathlib.Omega.{arith}

-- The UTF-8 bytes of a code point.
unfoldable pub utf8 : ℕ → List ℕ
utf8 c =
    if ltb c 0x80
    then c ∷ []
    else if ltb c 0x800
    then (0xC0 + c / 64) ∷ (0x80 + c % 64) ∷ []
    else if ltb c 0x10000
    then (0xE0 + c / 4096) ∷ (0x80 + c / 64 % 64) ∷ (0x80 + c % 64) ∷ []
    else (0xF0 + c / 262144) ∷ (0x80 + c / 4096 % 64) ∷ (0x80 + c / 64 % 64) ∷ (0x80 + c % 64) ∷ []

unfoldable pub encode : Text → List ℕ
encode [] = []
encode (c ∷ s) = utf8 c ++ encode s

-- `String.length`, in UTF-16 code units.
unfoldable pub string_length : Text → ℕ
string_length [] = 0
string_length (c ∷ s) = (if ltb c 0x10000 then 1 else 2) + string_length s

-- `(byte & 0xc0) === 0x80`.
abbrev pub is_continuation : ℕ → Bool
is_continuation b = b / 64 % 4 == 2

-- What a decoder does at a byte that starts a sequence: `rest n v` reads `n` more bytes.
lead : ℕ → (ℕ → ℕ → Text) → Text
lead b rest =
    if ltb b 0x80
    then b ∷ rest 0 0
    else if ltb b 0xC0
    then 0xFFFD ∷ rest 0 0
    else if ltb b 0xE0
    then rest 1 (b - 0xC0)
    else if ltb b 0xF0
    then rest 2 (b - 0xE0)
    else rest 3 (b - 0xF0)

continue : ℕ → ℕ → ℕ → (ℕ → ℕ → Text) → Text
unfolding lead
continue n acc b rest =
    if is_continuation b
    then (if n == 0 then (acc * 64 + (b - 0x80)) ∷ rest 0 0 else rest n (acc * 64 + (b - 0x80)))
    else 0xFFFD ∷ lead b rest

decode_from : ℕ → ℕ → List ℕ → Text
decode_from zero acc [] = []
decode_from (suc n) acc [] = 0xFFFD ∷ []
decode_from zero acc (b ∷ bs) = lead b (λ n v. decode_from n v bs)
decode_from (suc n) acc (b ∷ bs) = continue n acc b (λ m v. decode_from m v bs)

-- `decode` drops a leading byte order mark.
unfoldable pub strip_bom : Text → Text
strip_bom [] = []
strip_bom (c ∷ s) = if c == 0xFEFF then s else c ∷ s

unfoldable pub decode : List ℕ → Text
unfolding lead continue decode_from strip_bom
decode bytes = strip_bom (decode_from 0 0 bytes)

-- The range of code points.
abbrev pub IsText : Text → Type 0
IsText s = All (λ c. c < 0x110000) s

decode_from-utf8 :
    (c : ℕ) (r : List ℕ) → c < 0x110000 → decode_from 0 0 (utf8 c ++ r) ≡ c ∷ decode_from 0 0 r
unfolding utf8 decode_from lead continue
decode_from-utf8 c r h = ground arith

decode_from-encode : (s : Text) → IsText s → decode_from 0 0 (encode s) ≡ s
unfolding encode
decode_from-encode [] h = unfold decode_from in refl
decode_from-encode (c ∷ s) h =
    decode_from-utf8 c (encode s) h.0 ∙ ap (λ t. c ∷ t) (decode_from-encode s h.1)

abbrev starts_continuation : List ℕ → Bool
starts_continuation [] = false
starts_continuation (b ∷ bs) = is_continuation b

-- `while (end > 0 && (encoded[end] & 0xc0) === 0x80) end -= 1`, for an end inside the bytes.
unfoldable pub back_off : List ℕ → ℕ → ℕ
back_off bytes zero = zero
back_off bytes (suc n) = elim (starts_continuation (drop (suc n) bytes)) [
  | true ↦ back_off bytes n
  | false ↦ suc n
]

-- Clipping to a number of bytes, at the boundary of a code point: `clip` of
-- src/domain/subagent-lifecycle.ts, and the cut of `boundedApprovalText` in src/domain/approvals.ts.
unfoldable pub cut : List ℕ → ℕ → Text
cut bytes n = decode (take (back_off bytes n) bytes)

-- The longest prefix whose bytes fit.
unfoldable pub fitting : ℕ → Text → Text
fitting n [] = []
fitting n (c ∷ s) = if leb (length (utf8 c)) n then c ∷ fitting (n - length (utf8 c)) s else []

take-append-length : (u r : List ℕ) (k : ℕ) → take (length u + k) (u ++ r) ≡ u ++ take k r
take-append-length [] r k = rw (zero-add k)
take-append-length (b ∷ u) r k = rw (suc-add (length u) k) (rw (take-append-length u r k))

drop-append-length : (u r : List ℕ) (k : ℕ) → drop (length u + k) (u ++ r) ≡ drop k r
drop-append-length [] r k = rw (zero-add k)
drop-append-length (b ∷ u) r k = rw (suc-add (length u) k) (drop-append-length u r k)

back_off-stop :
    (bytes : List ℕ) (n : ℕ)
    → starts_continuation (drop (suc n) bytes) ≡ false
    → back_off bytes (suc n) ≡ suc n
unfolding back_off
back_off-stop bytes n h = ground arith

-- One step of the loop on both sides.
back_off-same :
    (bytes r : List ℕ) (k m : ℕ)
    → drop (suc (k + m)) bytes ≡ drop (suc m) r
    → back_off bytes (k + m) ≡ k + back_off r m
    → back_off bytes (suc (k + m)) ≡ k + back_off r (suc m)
unfolding back_off
back_off-same bytes r k m e ih = go (starts_continuation (drop (suc m) r)) refl
  where
    go :
        (t : Bool)
        → starts_continuation (drop (suc m) r) ≡ t
        → back_off bytes (suc (k + m)) ≡ k + back_off r (suc m)
    go true p = ground (arith, ap starts_continuation e)
    go false p = ground (arith, ap starts_continuation e)

back_off-append :
    (u r : List ℕ) (m : ℕ)
    → starts_continuation r ≡ false
    → back_off (u ++ r) (length u + m) ≡ length u + back_off r m
unfolding back_off
back_off-append [] r m h = rw (zero-add m, zero-add (back_off r m))
back_off-append (b ∷ u) r zero h =
    ap (back_off (b ∷ u ++ r)) (add-zero (suc (length u)))
    ∙ back_off-stop (b ∷ u ++ r) (length u) (
        subst (λ k. starts_continuation (drop k (u ++ r)) ≡ false) (add-zero (length u))
          (rw (drop-append-length u r 0) h))
    ∙ sym (add-zero (suc (length u)))
back_off-append (b ∷ u) r (suc m) h =
    ap (back_off (b ∷ u ++ r)) (add-suc (suc (length u)) m)
    ∙ back_off-same (b ∷ u ++ r) r (suc (length u)) m
        (subst (λ k. drop k (b ∷ u ++ r) ≡ drop (suc m) r) (add-suc (suc (length u)) m)
          (drop-append-length (b ∷ u) r (suc m)))
        (back_off-append (b ∷ u) r m h)

starts-encode : (s : Text) → IsText s → starts_continuation (encode s) ≡ false
unfolding encode utf8
starts-encode [] h = refl
starts-encode (c ∷ s) h = ground arith

back_off-short :
    (c : ℕ) (r : List ℕ) (n : ℕ) → c < 0x110000 → n < length (utf8 c) → back_off (utf8 c ++ r) n ≡ 0
unfolding utf8 back_off
back_off-short c r zero h lt = refl
back_off-short c r (suc zero) h lt = ground arith
back_off-short c r (suc (suc zero)) h lt = ground arith
back_off-short c r (suc (suc (suc zero))) h lt = ground arith
back_off-short c r (suc (suc (suc (suc n)))) h lt = absurd (ground arith)

take-fitting :
    (n : ℕ) (s : Text) → IsText s → take (back_off (encode s) n) (encode s) ≡ encode (fitting n s)
unfolding encode fitting
take-fitting n [] h = go (back_off [] n)
  where
    go : (k : ℕ) → take {A = ℕ} k [] ≡ []
    go zero = refl
    go (suc k) = refl
take-fitting n (c ∷ s) h =
    go (take-fitting (n - length (utf8 c)) s h.1) (Bool-cases (leb (length (utf8 c)) n))
  where
    u : List ℕ
    u = utf8 c

    go :
        take (back_off (encode s) (n - length u)) (encode s) ≡ encode (fitting (n - length u) s)
        → (leb (length u) n ≡ true) ⊎ (leb (length u) n ≡ false)
        → take (back_off (u ++ encode s) n) (u ++ encode s)
          ≡ encode (if leb (length u) n then c ∷ fitting (n - length u) s else [])
    go ih (inl e) =
        let le : length u + (n - length u) ≡ n = ground arith in
        rw e (
          subst
            (λ k.
              take (back_off (u ++ encode s) k) (u ++ encode s)
              ≡ u ++ encode (fitting (n - length u) s))
            le
            (rw (back_off-append u (encode s) (n - length u) (starts-encode s h.1))
              (rw (take-append-length u (encode s) (back_off (encode s) (n - length u))) (rw ih))))
    go ih (inr e) = rw e (rw (back_off-short c (encode s) n h.0 (ground arith)))

fitting-IsText : (n : ℕ) (s : Text) → IsText s → IsText (fitting n s)
unfolding fitting
fitting-IsText n [] h = tt
fitting-IsText n (c ∷ s) h = ground (arith, fitting-IsText (n - length (utf8 c)) s)

-- The cut of a text's bytes is the longest prefix that fits, less a leading byte order mark.
pub cut-encode : (s : Text) (n : ℕ) → IsText s → cut (encode s) n ≡ strip_bom (fitting n s)
unfolding cut decode
cut-encode s n h =
    rw (take-fitting n s h) (ap strip_bom (decode_from-encode (fitting n s) (fitting-IsText n s h)))

pub length-encode-fitting : (n : ℕ) (s : Text) → length (encode (fitting n s)) ≤ n
unfolding encode fitting
length-encode-fitting n [] = omega arith
length-encode-fitting n (c ∷ s) = ground (
  arith,
  length-append (utf8 c) (encode (fitting (n - length (utf8 c)) s)),
  length-encode-fitting (n - length (utf8 c)) s,
)

pub length-strip_bom : (s : Text) → length (encode (strip_bom s)) ≤ length (encode s)
unfolding strip_bom encode
length-strip_bom [] = omega arith
length-strip_bom (c ∷ s) = ground (arith, length-append (utf8 c) (encode s))
