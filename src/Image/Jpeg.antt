-- ===== src/Image/Jpeg.antt =====
-- src/infrastructure/files/image-preflight.ts: `jpeg`, the segments of a JPEG file.
pub mod Total
use codevo_runner.Prelude.{
  ℕ, zero, suc, ◌+◌, ◌-◌, Bool, true, false, not, ◌&&◌, ◌||◌, Option, none, some, List, [], ◌∷◌,
  ltb, leb, ◌==◌, if◌then◌else◌, length, drop,
}
use codevo_runner.Contracts.{Result, ◌>>=◌, ◌>>◌, unsupported_media, too_large, ok, err}
use codevo_runner.Image.{metadata_bytes, max_segments, read_u16, dimensions}

-- The variables of the loop; `left` is the number of markers that the limit leaves.
pub record Scan : Type 0 where
  pub left : ℕ
  pub metadata : ℕ
  pub scanning : Bool
  pub has_frame : Bool
  pub has_scan : Bool

pub data Step : Type 0 where
  finished : Step
  go_on : Scan → List ℕ → Step

-- `while (offset < bytes.length && bytes[offset] !== 0xff) offset++`.
unfoldable pub skip_data : List ℕ → List ℕ
skip_data [] = []
skip_data (b ∷ bs) = elim (b == 0xFF) [ true ↦ b ∷ bs | false ↦ skip_data bs ]

-- `while (bytes[offset] === 0xff) offset++`.
unfoldable pub skip_fill : List ℕ → List ℕ
skip_fill [] = []
skip_fill (b ∷ bs) = elim (b == 0xFF) [ true ↦ skip_fill bs | false ↦ b ∷ bs ]

abbrev pub is_restart : ℕ → Bool
is_restart marker = leb 0xD0 marker && leb marker 0xD7

-- What a segment with a length adds to the variables.
unfoldable pub segment : ℕ → ℕ → List ℕ → Scan → Result Scan
segment marker size rest s =
    if (leb 0xE0 marker && leb marker 0xEF) || marker == 0xFE
    then (if ltb metadata_bytes (s.metadata + (size - 2))
        then err too_large
        else ok (record s { metadata = s.metadata + (size - 2) }))
    else if marker == 0xC0 || marker == 0xC1 || marker == 0xC2
    then (if s.has_frame || ltb size 8
        then err unsupported_media
        else do dimensions (read_u16 5 rest) (read_u16 3 rest); ok (record s { has_frame = true }))
    else if marker == 0xDA
    then (if not s.has_frame || ltb size 6
        then err unsupported_media
        else ok (record s { scanning = true; has_scan = true }))
    else if not (marker == 0xC4) && not (marker == 0xDB) && not (marker == 0xDD)
    then err unsupported_media
    else ok s

-- A segment from its length on.
unfoldable pub sized_segment : ℕ → List ℕ → Scan → Result Step
unfolding segment
sized_segment marker rest s =
    if ltb (length rest) 2
    then err unsupported_media
    else (let size = read_u16 0 rest in
        if ltb size 2 || ltb (length rest) size
        then err unsupported_media
        else do s' ← segment marker size rest s; ok (go_on s' (drop size rest)))

-- The body of the loop from the count of the markers on.
counted_marker : ℕ → ℕ → List ℕ → Scan → Result Step
unfolding sized_segment
counted_marker zero marker rest s = err too_large
counted_marker (suc left) marker rest s =
    if is_restart marker && s.scanning
    then ok (go_on (record s { left = left }) rest)
    else if marker == 0xD9
    then (if s.has_frame && s.has_scan && elim rest [ [] ↦ true | _ ∷ _ ↦ false ]
        then ok finished
        else err unsupported_media)
    else if marker == 0 || marker == 0xD8 || marker == 1 || is_restart marker
    then err unsupported_media
    else sized_segment marker rest (record s { left = left; scanning = false })

at_marker : List ℕ → Scan → Result Step
unfolding counted_marker
at_marker [] s = err unsupported_media
at_marker (marker ∷ rest) s =
    if marker == 0 && s.scanning then ok (go_on s rest) else counted_marker s.left marker rest s

after_prefix : List ℕ → Scan → Result Step
unfolding at_marker
after_prefix [] s = err unsupported_media
after_prefix (b ∷ bs) s = if b == 0xFF then at_marker (skip_fill bs) s else err unsupported_media

-- The body of the loop.
unfoldable pub body : List ℕ → Scan → Result Step
unfolding after_prefix
body rest s = after_prefix (if s.scanning then skip_data rest else rest) s

-- The loop, on fuel; `none` means that the fuel ran out.
unfoldable pub loop : ℕ → List ℕ → Scan → Option (Result (Unit {0}))
loop fuel [] s = some (err unsupported_media)
loop zero (b ∷ bs) s = none
loop (suc fuel) (b ∷ bs) s = elim (body (b ∷ bs) s) [
  | err e ↦ some (err e)
  | ok finished ↦ some (ok tt)
  | ok (go_on s' rest) ↦ loop fuel rest s'
]

abbrev start : Scan
start = record {
  left = max_segments;
  metadata = 0;
  scanning = false;
  has_frame = false;
  has_scan = false;
}

jpeg_from : List ℕ → Option (Result (Unit {0}))
unfolding loop
jpeg_from (a ∷ b ∷ rest) =
    if a == 0xFF && b == 0xD8 then loop (length rest) rest start else some (err unsupported_media)
jpeg_from _ = some (err unsupported_media)

-- `jpeg`.
unfoldable pub jpeg : List ℕ → Option (Result (Unit {0}))
unfolding jpeg_from
jpeg bytes = jpeg_from bytes
