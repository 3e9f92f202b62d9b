-- ===== src/Image/Png/Layout.antt =====
-- src/infrastructure/files/image-preflight.ts: what the buffers that `png` accepts look like.
use mathlib.Core.List.{append-nil, append_assoc}
use codevo_runner.Prelude.{
  ℕ, zero, suc, ◌-◌, ◌*◌, ◌≤◌, ◌<◌, ◌≡◌, refl, sym, ap, ◌∙◌, ◌≢◌, Bool, true, false, not, List, [],
  ◌∷◌, ◌++◌, arith, length, take, drop, length-take, length-drop, take-append-drop, drop-drop, All,
  codes, text_eq, eq_of_text_eq, text_eq_iff,
}
use codevo_runner.Contracts.{Result, guard, ◌>>=◌, ◌>>◌, unsupported_media, ok, err}
use codevo_runner.Image.{max_segments, read_u32, dimensions, Inflate}
use codevo_runner.Image.Png.{
  finished, go_on, start, png_signature, Chunk, read_chunk, Scan, Step, scan_chunk, is_nil,
  scan_chunks, header_chunk, png,
}

-- The bytes of a chunk.
abbrev pub print : Chunk → List ℕ
print c = c.size ++ (c.type ++ (c.payload ++ c.crc))

abbrev pub print_all : List Chunk → List ℕ
print_all [] = []
print_all (c ∷ cs) = print c ++ print_all cs

-- The size, the type and the checksum are of four bytes, and the size is that of the payload.
abbrev pub IsSized : Chunk → Type 0
IsSized c =
    (length c.size ≡ 4)
    × (length c.type ≡ 4)
    × (length c.payload ≡ read_u32 0 c.size)
    × (length c.crc ≡ 4)

print-append : (a b c d r : List ℕ) → (a ++ (b ++ (c ++ d))) ++ r ≡ a ++ (b ++ (c ++ (d ++ r)))
print-append a b c d r = simp append_assoc

read_chunk-print :
    (rest : List ℕ) (c : Chunk) (r : List ℕ) → read_chunk rest ≡ ok (c, r) → print c ++ r ≡ rest
unfolding read_chunk
read_chunk-print rest c r h = let n = read_u32 0 rest in ground (arith, whole n)
  where
    whole :
        (n : ℕ)
        → (take 4 rest
              ++ (take 4 (drop 4 rest) ++ (take n (drop 8 rest) ++ take 4 (drop n (drop 8 rest)))))
            ++ drop 4 (drop n (drop 8 rest))
          ≡ rest
    whole n =
        print-append (take 4 rest) (take 4 (drop 4 rest)) (take n (drop 8 rest))
          (take 4 (drop n (drop 8 rest))) (drop 4 (drop n (drop 8 rest)))
        ∙ simp take-append-drop (rw (sym (drop-drop 4 4 rest)) (simp take-append-drop))

read_chunk-IsSized :
    (rest : List ℕ) (c : Chunk) (r : List ℕ) → read_chunk rest ≡ ok (c, r) → IsSized c
unfolding read_chunk
read_chunk-IsSized (a ∷ b ∷ x ∷ d ∷ rest) c r h =
    let n = read_u32 0 (a ∷ b ∷ x ∷ d ∷ rest) in
    ground (
      arith,
      length-take 4 rest,
      length-take n (drop 4 rest),
      length-drop 4 rest,
      length-take 4 (drop n (drop 4 rest)),
      length-drop n (drop 4 rest),
    )
read_chunk-IsSized [] c r h = absurd (ground arith)
read_chunk-IsSized (a ∷ []) c r h = absurd (ground arith)
read_chunk-IsSized (a ∷ b ∷ []) c r h = absurd (ground arith)
read_chunk-IsSized (a ∷ b ∷ x ∷ []) c r h = absurd (ground arith)

-- The last chunk is an empty `IEND`.
abbrev pub IsLast : Chunk → Type 0
IsLast c = IsSized c × (c.type ≡ codes "IEND") × (length c.payload ≡ 0)

-- A chunk in the middle is no end.
abbrev pub IsMiddle : Chunk → Type 0
IsMiddle c = IsSized c × (c.type ≢ codes "IEND")

scan_finished :
    (inflate : Inflate) (c : Chunk) (at_end : Bool) (s : Scan)
    → scan_chunk inflate c at_end s ≡ ok finished
    → (c.type ≡ codes "IEND") × (length c.payload ≡ 0) × (at_end ≡ true)
unfolding scan_chunk
scan_finished inflate c at_end s h = ground (arith, text_eq_iff c.type (codes "IEND"))

scan_goes_on :
    (inflate : Inflate) (c : Chunk) (at_end : Bool) (s s' : Scan)
    → scan_chunk inflate c at_end s ≡ ok (go_on s')
    → c.type ≢ codes "IEND"
unfolding scan_chunk
scan_goes_on inflate c at_end s s' h e =
    ground (arith, text_eq_iff c.type (codes "IEND"), text_eq_iff c.type (codes "IDAT"))

-- A row of chunks that ends with the last one.
pub record Row (left : ℕ) (bytes : List ℕ) : Type 0 where
  pub middle : List Chunk
  pub last : Chunk
  pub printed : print_all middle ++ print last ≡ bytes
  pub few : length middle < left
  pub all_middle : All IsMiddle middle
  pub is_last : IsLast last

is_nil→≡ : (xs : List ℕ) → is_nil xs ≡ true → xs ≡ []
is_nil→≡ [] h = refl
is_nil→≡ (x ∷ xs) h = cc

scan_chunks-Row :
    (inflate : Inflate) (left : ℕ) (s : Scan) (bytes : List ℕ)
    → scan_chunks inflate left s bytes ≡ ok tt
    → Row left bytes
unfolding scan_chunks
scan_chunks-Row inflate left s [] h = absurd (ground arith)
scan_chunks-Row inflate zero s (b ∷ bs) h = absurd (ground arith)
scan_chunks-Row inflate (suc left) s (b ∷ bs) h =
    go (read_chunk (b ∷ bs)) refl h (λ s' rest. scan_chunks-Row inflate left s' rest)
  where
    found :
        (c : Chunk) (rest : List ℕ)
        → read_chunk (b ∷ bs) ≡ ok (c, rest)
        → (st : Result Step) → scan_chunk inflate c (is_nil rest) s ≡ st
        → (elim st as (λ _. Result (Unit {0})) [
          | err e ↦ err e
          | ok finished ↦ ok tt
          | ok (go_on s') ↦ scan_chunks inflate left s' rest
        ])
          ≡ ok tt
        → ((s' : Scan) (r : List ℕ) → scan_chunks inflate left s' r ≡ ok tt → Row left r)
        → Row (suc left) (b ∷ bs)
    found c rest q (err e) p k ih = absurd (ground arith)
    found c rest q (ok finished) p k ih =
        let ends = scan_finished inflate c (is_nil rest) s p in
        record {
          middle = [];
          last = c;
          printed =
              sym (append-nil (print c))
              ∙ ap (λ r. print c ++ r) (sym (is_nil→≡ rest ends.2))
              ∙ read_chunk-print (b ∷ bs) c rest q;
          few = omega arith;
          all_middle = tt;
          is_last = (read_chunk-IsSized (b ∷ bs) c rest q, ends.0, ends.1);
        }
    found c rest q (ok (go_on s')) p k ih =
        let row = ih s' rest k in
        record {
          middle = c ∷ row.middle;
          last = row.last;
          printed =
              append_assoc (print c) (print_all row.middle) (print row.last)
              ∙ ap (λ r. print c ++ r) row.printed
              ∙ read_chunk-print (b ∷ bs) c rest q;
          few = omega (arith, row.few);
          all_middle = (
            (read_chunk-IsSized (b ∷ bs) c rest q, scan_goes_on inflate c (is_nil rest) s s' p),
            row.all_middle,
          );
          is_last = row.is_last;
        }

    go :
        (o : Result (Chunk × List ℕ))
        → read_chunk (b ∷ bs) ≡ o
        → (elim o as (λ _. Result (Unit {0})) [
          | err e ↦ err e
          | ok (c, rest) ↦ elim (scan_chunk inflate c (is_nil rest) s) as (λ _. Result (Unit {0})) [
            | err e ↦ err e
            | ok finished ↦ ok tt
            | ok (go_on s') ↦ scan_chunks inflate left s' rest
          ]
        ])
          ≡ ok tt
        → ((s' : Scan) (r : List ℕ) → scan_chunks inflate left s' r ≡ ok tt → Row left r)
        → Row (suc left) (b ∷ bs)
    go (err e) q k ih = absurd (ground arith)
    go (ok (c, rest)) q k ih = found c rest q (scan_chunk inflate c (is_nil rest) s) refl k ih

-- A width and a height within the limits.
abbrev pub IsDimension : ℕ → ℕ → Type 0
IsDimension w h = (0 < w) × (0 < h) × (w ≤ 8192) × (h ≤ 8192) × (w * h ≤ 16000000)

pub dimensions-IsDimension : (w h : ℕ) → dimensions w h ≡ ok tt → IsDimension w h
unfolding dimensions
dimensions-IsDimension w h e = ground arith

-- The buffer is the signature, an `IHDR` chunk of 13 bytes whose dimensions are within the limits,
-- fewer than 1023 further chunks, none of them an end, and one empty `IEND` chunk; nothing follows.
pub record IsPng (bytes : List ℕ) : Type 0 where
  pub header : Chunk
  pub after : List ℕ
  pub row : Row 1023 after
  pub printed : png_signature ++ (print header ++ after) ≡ bytes
  pub sized : IsSized header
  pub is_header : header.type ≡ codes "IHDR"
  pub thirteen : length header.payload ≡ 13
  pub fits : IsDimension (read_u32 0 header.payload) (read_u32 4 header.payload)

header_fits :
    (c : Chunk)
    → header_chunk c ≡ ok tt
    → (c.type ≡ codes "IHDR")
      × (length c.payload ≡ 13)
      × IsDimension (read_u32 0 c.payload) (read_u32 4 c.payload)
unfolding header_chunk
header_fits c h = ground (
  arith,
  text_eq_iff c.type (codes "IHDR"),
  dimensions-IsDimension (read_u32 0 c.payload) (read_u32 4 c.payload),
)

-- What a run of the steps of `png` that succeeds went through.
png_steps :
    (signed some_left : Bool) (first : Result (Chunk × List ℕ)) (head : Chunk → Result (Unit {0}))
    (scan : List ℕ → Result (Unit {0}))
    → (guard signed unsupported_media
        >> (guard some_left unsupported_media >> (first >>= λ r. (head r.0 >> scan r.1))))
      ≡ ok tt
    → (signed ≡ true)
      × ((c : Chunk) × (rest : List ℕ) × (first ≡ ok (c, rest))
          × (head c ≡ ok tt)
          × (scan rest ≡ ok tt))
png_steps false some_left first head scan h = absurd (ground arith)
png_steps true false first head scan h = absurd (ground arith)
png_steps true true (err e) head scan h = absurd (ground arith)
png_steps true true (ok (c, rest)) head scan h = (refl, (c, rest, refl, ground arith, ground arith))

-- A buffer that `png` accepts, whatever `inflateSync` answers, is laid out as `IsPng` says: the
-- signature, an `IHDR` chunk of 13 bytes with a width and a height from 1 to 8192 and at most
-- 16,000,000 pixels, fewer than 1023 chunks that are no end, and an empty `IEND` chunk whose checksum
-- is the last four bytes; each chunk is a size, a type and a checksum of four bytes and a payload of
-- the size announced.
pub png-IsPng : (inflate : Inflate) (bytes : List ℕ) → png inflate bytes ≡ ok tt → IsPng bytes
unfolding png
png-IsPng inflate bytes h =
    let (signed, rest) =
      png_steps (text_eq (take 8 bytes) png_signature) (not (is_nil (drop 8 bytes)))
        (read_chunk (drop 8 bytes)) header_chunk (scan_chunks inflate (max_segments - 1) start) h in
    let (c, after, q, k, t) = rest in
    let fit = header_fits c k in
    record {
      header = c;
      after = after;
      row = scan_chunks-Row inflate (max_segments - 1) start after t;
      printed =
          ap (λ r. png_signature ++ r) (read_chunk-print (drop 8 bytes) c after q)
          ∙ ap (λ r. r ++ drop 8 bytes) (sym (eq_of_text_eq (take 8 bytes) png_signature signed))
          ∙ take-append-drop 8 bytes;
      sized = read_chunk-IsSized (drop 8 bytes) c after q;
      is_header = fit.0;
      thirteen = fit.1;
      fits = fit.2;
    }
