-- ===== src/Image.antt =====
-- src/infrastructure/files/image-preflight.ts: the resource envelope of an uploaded image. A buffer
-- is the list of its bytes; a loop's offset is the rest of the buffer from there on.
pub mod Png
pub mod Jpeg
pub mod Envelope
use codevo_runner.Prelude.{
  ℕ, zero, suc, ◌+◌, ◌*◌, true, false, ◌||◌, Option, none, some, List, [], ◌∷◌, ltb, ◌==◌,
  if◌then◌else◌, length, any,
}
use codevo_runner.Contracts.{
  Result, image_pixels, image_dimension, unsupported_media, too_large, ok, err,
}

abbrev pub metadata_bytes : ℕ
metadata_bytes = 262144

abbrev pub inflated_chunk_bytes : ℕ
inflated_chunk_bytes = 65536

abbrev pub max_segments : ℕ
max_segments = 1024

-- `bytes[index]`, for an index that the code has checked.
abbrev pub byte_at : ℕ → List ℕ → ℕ
byte_at i [] = 0
byte_at zero (b ∷ bs) = b
byte_at (suc i) (b ∷ bs) = byte_at i bs

-- `readUInt16BE` and `readUInt32BE`.
abbrev pub read_u16 : ℕ → List ℕ → ℕ
read_u16 i bytes = byte_at i bytes * 256 + byte_at (i + 1) bytes

abbrev pub read_u32 : ℕ → List ℕ → ℕ
read_u32 i bytes = read_u16 i bytes * 65536 + read_u16 (i + 2) bytes

-- `dimensions`.
unfoldable pub dimensions : ℕ → ℕ → Result (Unit {0})
dimensions width height =
    if width == 0 || height == 0
    then err unsupported_media
    else if ltb image_dimension width
        || ltb image_dimension height
        || ltb image_pixels (width * height)
    then err too_large
    else ok tt

-- `inflateSync`, as the code uses it: the length of the output, the error for a longer one than
-- allowed, or any other error.
pub data Inflated : Type 0 where
  inflated : ℕ → Inflated
  buffer_too_large : Inflated
  inflate_failed : Inflated

abbrev pub Inflate : Type 0
Inflate = List ℕ → ℕ → Inflated

size_of : Inflated → Result ℕ
size_of (inflated n) = ok n
size_of buffer_too_large = err too_large
size_of inflate_failed = err unsupported_media

-- `inflatedSize`.
unfoldable pub inflated_size : Inflate → List ℕ → Result ℕ
unfolding size_of
inflated_size inflate [] = err unsupported_media
inflated_size inflate (b ∷ bs) = size_of (inflate (b ∷ bs) inflated_chunk_bytes)

-- `data.indexOf(0)`.
unfoldable pub index_of_zero : List ℕ → Option ℕ
index_of_zero [] = none
index_of_zero (b ∷ bs) = elim (b == 0) [
  | true ↦ some 0
  | false ↦ elim (index_of_zero bs) [ none ↦ none | some i ↦ some (i + 1) ]
]
