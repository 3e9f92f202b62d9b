-- ===== src/Contracts.antt =====
-- src/domain/contracts.ts: the limits, the error codes and identifiers; a function that may throw a
-- `RunnerError` returns a `Result`.
use codevo_runner.Prelude.{
  ℕ, zero, suc, ◌≡◌, refl, Bool, true, false, ◌&&◌, ◌||◌, List, [], ◌∷◌, leb, ◌==◌, Text,
}

pub data ErrorCode : Type 0 where
  delivery_uncertain invalid_input not_found conflict quota_exceeded unsupported_media : ErrorCode
  too_large busy storage_unavailable request_timeout : ErrorCode
  git_remote_unavailable git_auth_failed git_timeout git_no_remote git_remote_unsupported :
      ErrorCode
  git_branch_not_found git_detached_head git_no_upstream git_dirty git_diverged : ErrorCode
  git_operation_in_progress git_rejected_non_fast_forward git_rejected : ErrorCode
  git_nothing_to_commit git_identity_missing git_not_repository speech_unavailable : ErrorCode
  mcp_server_exists mcp_server_not_found mcp_change_unsupported : ErrorCode
  mcp_login_unsupported mcp_login_inactive mcp_callback_rejected : ErrorCode

pub data Result {ℓ} (A : Type ℓ) : Type ℓ where
  ok : A → Result A
  err : ErrorCode → Result A

-- `if (!test) throw new RunnerError(code)`.
abbrev pub guard : Bool → ErrorCode → Result (Unit {0})
guard true e = ok tt
guard false e = err e

-- What follows a call runs only if the call does not throw.
infixl 5 ◌>>=◌ ◌>>◌
abbrev pub ◌>>=◌ {ℓ κ} : {A : Type ℓ} {B : Type κ} → Result A → (A → Result B) → Result B
err e >>= f = err e
ok a >>= f = f a

abbrev pub ◌>>◌ {ℓ} : {B : Type ℓ} → Result (Unit {0}) → Result B → Result B
m >> k = m >>= λ _. k

-- What a chain that succeeds has gone through.
pub bind-ok {ℓ κ} :
    {A : Type ℓ} {B : Type κ} (m : Result A) (f : A → Result B) (b : B)
    → (m >>= f) ≡ ok b
    → (a : A) × (m ≡ ok a) × (f a ≡ ok b)
bind-ok (ok a) f b h = (a, refl, h)
bind-ok (err e) f b h = cc

pub guard-true : (b : Bool) (e : ErrorCode) (u : Unit {0}) → guard b e ≡ ok u → b ≡ true
guard-true true e u h = refl
guard-true false e u h = cc

-- `LIMITS`.
abbrev pub attachment_bytes : ℕ
attachment_bytes = 8388608

abbrev pub image_pixels : ℕ
image_pixels = 16000000

abbrev pub image_dimension : ℕ
image_dimension = 8192

-- A regular expression that is a row of character classes, anchored at both ends.
abbrev pub matches : List (ℕ → Bool) → Text → Bool
matches [] [] = true
matches (p ∷ ps) (c ∷ cs) = elim (p c) [ true ↦ matches ps cs | false ↦ false ]
matches _ _ = false

abbrev pub times : ℕ → (ℕ → Bool) → List (ℕ → Bool) → List (ℕ → Bool)
times zero p ps = ps
times (suc n) p ps = p ∷ times n p ps

abbrev hex : ℕ → Bool
hex c = (leb b'0' c && leb c b'9') || (leb b'a' c && leb c b'f')

abbrev dash : ℕ → Bool
dash c = c == b'-'

abbrev version : ℕ → Bool
version c = c == b'4'

abbrev variant : ℕ → Bool
variant c = c == b'8' || c == b'9' || c == b'a' || c == b'b'

abbrev id_shape : List (ℕ → Bool)
id_shape = times 8 hex (
    dash
    ∷ times 4 hex
        (dash ∷ version ∷ times 3 hex (dash ∷ variant ∷ times 3 hex (dash ∷ times 12 hex []))))

-- `isId` of a string: a lower-case UUID of version 4.
unfoldable pub is_id : Text → Bool
is_id s = matches id_shape s
