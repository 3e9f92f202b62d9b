-- ===== src/Examples/Images.antt =====
-- src/infrastructure/files/image-preflight.ts at concrete inputs.
use codevo_runner.Prelude.{ℕ, ◌≡◌, refl, some, List, [], ◌∷◌, ◌++◌, codes, text_eq}
use codevo_runner.Contracts.{Result, ok}
use codevo_runner.Image.{dimensions, Inflate, inflate_failed}
use codevo_runner.Image.Png.{png_signature, read_chunk, scan_chunk, png}
use codevo_runner.Image.Png.Layout.{IsPng, png-IsPng}
use codevo_runner.Image.Jpeg.{jpeg}
use codevo_runner.Image.Jpeg.Total.{jpeg_total}

abbrev none_inflates : Inflate
none_inflates bytes limit = inflate_failed

-- A grey image of one pixel.
abbrev grey : List ℕ
grey =
    png_signature
    ++ (0 ∷ 0 ∷ 0 ∷ 13 ∷ codes "IHDR")
    ++ (0 ∷ 0 ∷ 0 ∷ 1 ∷ 0 ∷ 0 ∷ 0 ∷ 1 ∷ 8 ∷ 0 ∷ 0 ∷ 0 ∷ 0 ∷ 1 ∷ 2 ∷ 3 ∷ 4 ∷ [])
    ++ (0 ∷ 0 ∷ 0 ∷ 1 ∷ codes "IDAT")
    ++ (7 ∷ 1 ∷ 2 ∷ 3 ∷ 4 ∷ [])
    ++ (0 ∷ 0 ∷ 0 ∷ 0 ∷ codes "IEND")
    ++ (1 ∷ 2 ∷ 3 ∷ 4 ∷ [])

grey_accepted : png none_inflates grey ≡ ok tt
unfolding png text_eq read_chunk dimensions scan_chunk
grey_accepted = refl

png-IsPng_example : IsPng grey
png-IsPng_example = png-IsPng none_inflates grey grey_accepted

jpeg_total_example : (r : Result (Unit {0})) × (jpeg (0xFF ∷ 0xD8 ∷ 0xFF ∷ 0xD9 ∷ []) ≡ some r)
jpeg_total_example = jpeg_total (0xFF ∷ 0xD8 ∷ 0xFF ∷ 0xD9 ∷ [])
