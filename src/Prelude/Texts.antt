-- ===== src/Prelude/Texts.antt =====
-- Texts as lists of code points. A JavaScript string is taken to be well-formed UTF-16, so it is
-- the list of its code points; `String.length` and `TextEncoder.encode` are computed from those.
use Prim.Native.Nat.{ℕ, compare, Ordering}
use Prim.Native.Char.{code}
use Prim.Native.String.{String}
use mathlib.Core.Path.{◌≡◌, refl}
use mathlib.Core.Logic.{◌↔◌}
use mathlib.Core.Bool.{Bool, true, false}
use mathlib.Core.List.{List, [], ◌∷◌}
use native.Mathlib.Omega.{arith}

abbrev pub Text : Type 0
Text = List ℕ

abbrev pub codes : String → Text
codes String.[] = []
codes (String.◌∷◌ c s) = code c ∷ codes s

-- `a === b` on strings.
unfoldable pub text_eq : Text → Text → Bool
text_eq [] [] = true
text_eq (a ∷ s) (b ∷ t) = elim (compare a b) [ Ordering.eq ↦ text_eq s t | _ ↦ false ]
text_eq _ _ = false

pub text_eq_refl : (s : Text) → text_eq s s ≡ true
unfolding text_eq
text_eq_refl [] = refl
text_eq_refl (a ∷ s) = ground (arith, text_eq_refl s)

pub eq_of_text_eq : (s t : Text) → text_eq s t ≡ true → s ≡ t
unfolding text_eq
eq_of_text_eq [] [] h = refl
eq_of_text_eq [] (b ∷ t) h = cc
eq_of_text_eq (a ∷ s) [] h = cc
eq_of_text_eq (a ∷ s) (b ∷ t) h = ground (arith, eq_of_text_eq s t)

pub text_eq_iff : (s t : Text) → (text_eq s t ≡ true) ↔ (s ≡ t)
text_eq_iff s t = (eq_of_text_eq s t, λ e. rw e (text_eq_refl t))

pub text_eq_sym : (s t : Text) → text_eq s t ≡ text_eq t s
unfolding text_eq
text_eq_sym [] [] = refl
text_eq_sym [] (b ∷ t) = refl
text_eq_sym (a ∷ s) [] = refl
text_eq_sym (a ∷ s) (b ∷ t) = ground (arith, text_eq_sym s t)

abbrev pub add_char : ℕ → List Text × Text → List Text × Text
add_char c ([], t) = ([], c ∷ t)
add_char c (l ∷ ls, t) = ((c ∷ l) ∷ ls, t)

-- A chunk of output as its complete lines, without their line feeds, and what follows the last one.
unfoldable pub lines : Text → List Text × Text
lines [] = ([], [])
lines (c ∷ s) = elim (compare c 10) [
  | Ordering.eq ↦ let (ls, t) = lines s in ([] ∷ ls, t)
  | _ ↦ add_char c (lines s)
]
