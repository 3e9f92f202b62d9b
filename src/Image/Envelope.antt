-- ===== src/Image/Envelope.antt =====
-- src/infrastructure/files/image-preflight.ts: `validateImageEnvelope`.
use codevo_runner.Prelude.{ℕ, Option, some, List, ltb, if◌then◌else◌, length}
use codevo_runner.Contracts.{Result, attachment_bytes, unsupported_media, too_large, err}
use codevo_runner.Image.{Inflate}
use codevo_runner.Image.Png.{png}
use codevo_runner.Image.Jpeg.{jpeg}

-- `MediaType`.
pub data MediaType : Type 0 where
  image_png image_jpeg text_plain : MediaType

unfoldable pub validate_image_envelope : Inflate → List ℕ → MediaType → Option (Result (Unit {0}))
validate_image_envelope inflate bytes media_type =
    if ltb attachment_bytes (length bytes) then some (err too_large) else elim media_type [
      | image_png ↦ some (png inflate bytes)
      | image_jpeg ↦ jpeg bytes
      | text_plain ↦ some (err unsupported_media)
    ]
