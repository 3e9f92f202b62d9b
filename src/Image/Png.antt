-- ===== src/Image/Png.antt =====
-- src/infrastructure/files/image-preflight.ts: `png`, the chunks of a PNG file, and the metadata
-- that a compressed chunk inflates to.
pub mod Layout
use codevo_runner.Prelude.{
  ℕ, zero, suc, ◌+◌, ◌-◌, ◌%◌, String, Bool, true, false, not, ◌&&◌, ◌||◌, Option, none, some, List,
  [], ◌∷◌, ltb, leb, ◌==◌, if◌then◌else◌, length, get_elem?, take, drop, Text, codes, text_eq,
}
use codevo_runner.Contracts.{
  Result, ◌>>=◌, ◌>>◌, guard, matches, unsupported_media, too_large, ok, err,
}
use codevo_runner.Image.{
  metadata_bytes, max_segments, read_u32, dimensions, Inflate, inflated_size, index_of_zero,
}

abbrev pub png_signature : List ℕ
png_signature = 137 ∷ 80 ∷ 78 ∷ 71 ∷ 13 ∷ 10 ∷ 26 ∷ 10 ∷ []

pub record Chunk : Type 0 where
  pub size : List ℕ
  pub type : Text
  pub payload : List ℕ
  pub crc : List ℕ

abbrev is_upper : ℕ → Bool
is_upper c = leb b'A' c && leb c b'Z'

abbrev is_lower : ℕ → Bool
is_lower c = leb b'a' c && leb c b'z'

abbrev is_letter : ℕ → Bool
is_letter c = is_upper c || is_lower c

-- `/^[A-Za-z]{2}[A-Z][A-Za-z]$/`.
abbrev pub type_shape : List (ℕ → Bool)
type_shape = is_letter ∷ is_letter ∷ is_upper ∷ is_letter ∷ []

chunk_of : List ℕ → Chunk
chunk_of rest =
    let n = read_u32 0 rest in
    record {
      size = take 4 rest;
      type = take 4 (drop 4 rest);
      payload = take n (drop 8 rest);
      crc = take 4 (drop n (drop 8 rest));
    }

-- One chunk and the rest of the buffer after it.
unfoldable pub read_chunk : List ℕ → Result (Chunk × List ℕ)
unfolding chunk_of
read_chunk rest =
    if ltb (length rest) 12
    then err unsupported_media
    else if ltb (length rest - 12) (read_u32 0 rest)
    then err unsupported_media
    else if not (matches type_shape (take 4 (drop 4 rest)))
    then err unsupported_media
    else ok (chunk_of rest, drop 4 (drop (read_u32 0 rest) (drop 8 rest)))

-- A keyword byte that `keywordEnd` refuses, with the byte before it (0 at the start).
abbrev bad_keyword_byte : ℕ → ℕ → Bool
bad_keyword_byte before b =
    ltb b 32 || (ltb 126 b && ltb b 161) || (b == 32 && (before == 0 || before == 32))

-- The loop of `keywordEnd`, over the bytes before `end`.
keyword_ok : ℕ → List ℕ → Bool
keyword_ok before [] = not (before == 32)
keyword_ok before (b ∷ bs) = elim (bad_keyword_byte before b) [
  | true ↦ false
  | false ↦ keyword_ok b bs
]

-- `keywordEnd`.
unfoldable pub keyword_end : List ℕ → Result ℕ
unfolding keyword_ok
keyword_end bytes = elim (index_of_zero bytes) [
  | none ↦ err unsupported_media
  | some end ↦
      if ltb end 1 || ltb 79 end
      then err unsupported_media
      else if keyword_ok 0 (take end bytes)
      then ok end
      else err unsupported_media
]

abbrev pub is_type : Text → String → Bool
is_type type name = text_eq type (codes name)

abbrev at_zero : ℕ → List ℕ → Bool
at_zero i bytes = elim (get_elem? bytes i) [ none ↦ false | some b ↦ b == 0 ]

-- The language tag and the translated keyword of an `iTXt` chunk, from `from` on.
text_body : List ℕ → ℕ → Option (List ℕ)
text_body bytes from = elim (index_of_zero (drop from bytes)) [
  | none ↦ none
  | some language ↦ elim (index_of_zero (drop (from + language + 1) bytes)) [
    | none ↦ none
    | some translated ↦ some (drop (from + language + 1 + translated + 1) bytes)
  ]
]

compressed_after : Inflate → Text → List ℕ → ℕ → Result ℕ
unfolding text_body
compressed_after inflate type bytes end =
    if not (is_type type "iTXt")
    then (if at_zero (end + 1) bytes
        then inflated_size inflate (drop (end + 2) bytes)
        else err unsupported_media)
    else elim (get_elem? bytes (end + 1)) [
      | none ↦ err unsupported_media
      | some flag ↦
          if ltb 1 flag || not (at_zero (end + 2) bytes)
          then err unsupported_media
          else elim (text_body bytes (end + 3)) [
            | none ↦ err unsupported_media
            | some body ↦ if flag == 1 then inflated_size inflate body else ok 0
          ]
    ]

-- `compressedMetadata`.
unfoldable pub compressed_metadata : Inflate → Text → List ℕ → Result ℕ
unfolding compressed_after keyword_end
compressed_metadata inflate type bytes = do
  end ← keyword_end bytes
  compressed_after inflate type bytes end

-- The variables of the loop of `png` after the first chunk.
pub record Scan : Type 0 where
  pub metadata : ℕ
  pub has_data : Bool
  pub data_ended : Bool
  pub has_palette : Bool

pub data Step : Type 0 where
  finished : Step
  go_on : Scan → Step

abbrev is_compressed : Text → Bool
is_compressed type = is_type type "zTXt" || is_type type "iCCP" || is_type type "iTXt"

abbrev is_animation : Text → Bool
is_animation type = is_type type "acTL" || is_type type "fcTL" || is_type type "fdAT"

abbrev starts_lower : Text → Bool
starts_lower [] = false
starts_lower (c ∷ s) = is_lower c

abbrev within : ℕ → Result ℕ
within n = if ltb metadata_bytes n then err too_large else ok n

-- What the metadata count becomes after an ancillary chunk.
unfoldable pub count_metadata : Inflate → Chunk → ℕ → Result ℕ
count_metadata inflate c metadata = do
  own ← within (metadata + length c.payload)
  guard (starts_lower c.type && not (is_animation c.type)) unsupported_media
  extra ← if is_compressed c.type then compressed_metadata inflate c.type c.payload else ok 0
  within (own + extra)

-- The body of the loop for a chunk after the first; `at_end` says that nothing follows it.
unfoldable pub scan_chunk : Inflate → Chunk → Bool → Scan → Result Step
unfolding count_metadata
scan_chunk inflate c at_end s =
    if is_type c.type "IDAT"
    then (if s.data_ended then err unsupported_media else ok (go_on (record s { has_data = true })))
    else (let s' : Scan = record s { data_ended = s.data_ended || s.has_data } in
        if is_type c.type "IEND"
        then (if length c.payload == 0 && s'.has_data && at_end
            then ok finished
            else err unsupported_media)
        else if is_type c.type "PLTE"
        then (if s'.has_palette
              || s'.has_data
              || length c.payload == 0
              || ltb 768 (length c.payload)
              || not (length c.payload % 3 == 0)
            then err unsupported_media
            else ok (go_on (record s' { has_palette = true })))
        else do n ← count_metadata inflate c s'.metadata; ok (go_on (record s' { metadata = n })))

abbrev pub is_nil : List ℕ → Bool
is_nil [] = true
is_nil (_ ∷ _) = false

-- The loop of `png` after the first chunk, with the number of chunks that the limit leaves.
unfoldable pub scan_chunks : Inflate → ℕ → Scan → List ℕ → Result (Unit {0})
scan_chunks inflate left s [] = err unsupported_media
scan_chunks inflate zero s (b ∷ bs) = err too_large
scan_chunks inflate (suc left) s (b ∷ bs) = elim (read_chunk (b ∷ bs)) [
  | err e ↦ err e
  | ok (c, rest) ↦ elim (scan_chunk inflate c (is_nil rest) s) [
    | err e ↦ err e
    | ok finished ↦ ok tt
    | ok (go_on s') ↦ scan_chunks inflate left s' rest
  ]
]

abbrev start : Scan
start = record { metadata = 0; has_data = false; data_ended = false; has_palette = false }

-- The first chunk.
unfoldable pub header_chunk : Chunk → Result (Unit {0})
header_chunk c =
    if is_type c.type "IHDR" && length c.payload == 13
    then dimensions (read_u32 0 c.payload) (read_u32 4 c.payload)
    else err unsupported_media

-- `png`.
unfoldable pub png : Inflate → List ℕ → Result (Unit {0})
unfolding header_chunk scan_chunks
png inflate bytes = do
  guard (text_eq (take 8 bytes) png_signature) unsupported_media
  guard (not (is_nil (drop 8 bytes))) unsupported_media
  (c, rest) ← read_chunk (drop 8 bytes)
  header_chunk c
  scan_chunks inflate (max_segments - 1) start rest
