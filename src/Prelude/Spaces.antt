-- ===== src/Prelude/Spaces.antt =====
-- White space as `\s`, `String.trim` and `trimStart` know it.
use codevo_runner.Prelude.Tests.{leb, ◌==◌, if◌then◌else◌}
use codevo_runner.Prelude.Texts.{Text}
use Prim.Native.Nat.{ℕ}
use mathlib.Core.Bool.{Bool, true, false, not, ◌&&◌, ◌||◌}
use mathlib.Core.List.{[], ◌∷◌}
use mathlib.Core.Path.{◌≡◌, refl}
use mathlib.Core.Logic.{◌⊎◌, inl, inr}
use native.Mathlib.Omega.{arith}
use codevo_runner.Prelude.Lists.{Any}

unfoldable pub is_space : ℕ → Bool
is_space c =
    (leb 9 c && leb c 13)
    || c == 32
    || c == 160
    || c == 0x1680
    || (leb 0x2000 c && leb c 0x200A)
    || c == 0x2028
    || c == 0x2029
    || c == 0x202F
    || c == 0x205F
    || c == 0x3000
    || c == 0xFEFF

unfoldable pub trim_start : Text → Text
trim_start [] = []
trim_start (c ∷ s) = elim (is_space c) [ true ↦ trim_start s | false ↦ c ∷ s ]

abbrev trim_cons : ℕ → Text → Text
trim_cons c [] = if is_space c then [] else c ∷ []
trim_cons c (d ∷ s) = c ∷ d ∷ s

unfoldable pub trim_end : Text → Text
trim_end [] = []
trim_end (c ∷ s) = trim_cons c (trim_end s)

unfoldable pub trim : Text → Text
unfolding is_space trim_start trim_end
trim s = trim_end (trim_start s)

-- `replace(/\s+/gu, ' ')`; the flag says that the character before was a space.
collapse_from : Bool → Text → Text
collapse_from after [] = []
collapse_from after (c ∷ s) = elim (is_space c) [
  | true ↦ elim after [ true ↦ collapse_from true s | false ↦ 32 ∷ collapse_from true s ]
  | false ↦ c ∷ collapse_from false s
]

unfoldable pub collapse : Text → Text
unfolding collapse_from is_space
collapse s = collapse_from false s

-- `text.trim() === ''`.
abbrev pub is_blank : Text → Bool
is_blank s = elim (trim s) [ [] ↦ true | _ ∷ _ ↦ false ]

trim_start-space : (s : Text) → (trim_start s ≡ []) ⊎ Any (λ c. is_space c ≡ false) s
unfolding trim_start
trim_start-space [] = inl refl
trim_start-space (c ∷ s) = go (is_space c) refl (trim_start-space s)
  where
    go :
        (b : Bool)
        → is_space c ≡ b
        → (trim_start s ≡ []) ⊎ Any (λ c. is_space c ≡ false) s
        → (elim b [ true ↦ trim_start s | false ↦ c ∷ s ] ≡ [])
          ⊎ Any (λ c. is_space c ≡ false) (c ∷ s)
    go true e (inl h) = inl h
    go true e (inr h) = inr (inr h)
    go false e h = inr (inl e)

-- A text that is not blank has a character that is no space.
pub not_blank : (s : Text) → not (is_blank s) ≡ true → Any (λ c. is_space c ≡ false) s
unfolding trim trim_end
not_blank s h = elim (trim_start-space s) [ inl e ↦ absurd (blank e h) | inr a ↦ a ]
  where
    blank : trim_start s ≡ [] → not (is_blank s) ≡ true → ⊥
    blank e k = ground arith
