-- ===== src/Lifecycle/Clip.antt =====
-- `clip` of src/domain/subagent-lifecycle.ts against the longest prefix that fits.
use codevo_runner.Prelude.{ℕ, ◌≤◌, ◌≡◌, arith, leb, if◌then◌else◌, length, Text}
use codevo_runner.Prelude.Utf8.{
  encode, strip_bom, IsText, fitting, cut-encode, length-encode-fitting, length-strip_bom,
}
use codevo_runner.Lifecycle.{clip}

-- A well-formed text that fits is kept whole. One that does not is cut to the longest prefix whose UTF-8 bytes
-- fit, never inside a character (the decoder drops a byte order mark at its start); what `clip`
-- returns always fits.
pub clip_lem :
    (value : Text) (bytes : ℕ)
    → IsText value
    → (clip value bytes
        ≡ (if leb (length (encode value)) bytes then value else strip_bom (fitting bytes value)))
      × (length (encode (clip value bytes)) ≤ bytes)
unfolding clip
clip_lem value bytes h = (
  ground (arith, cut-encode value bytes h),
  ground (
    arith,
    cut-encode value bytes h,
    length-strip_bom (fitting bytes value),
    length-encode-fitting bytes value,
  ),
)
