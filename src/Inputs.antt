-- ===== src/Inputs.antt =====
-- The input checks that src/domain/approvals.ts and src/domain/questions.ts both write out.
use mathlib.Core.Path.{subst}
use codevo_runner.Prelude.{
  ℕ, ◌≤◌, ◌≡◌, refl, ◌≢◌, Bool, true, false, not, ◌&&◌, ◌||◌, Option, none, some, List, [], ◌∷◌,
  arith, ltb, ◌==◌, if◌then◌else◌, length, any, all, All, All-any, Text, text_eq, text_eq_iff,
}
use codevo_runner.Prelude.Utf8.{encode, string_length}
use codevo_runner.Prelude.Spaces.{is_blank}
use codevo_runner.Json.{
  Value, Fields, items, keys, has_own, null, bool, num, other_num, str, arr, obj,
}
use codevo_runner.Contracts.{Result, ◌>>=◌, bind-ok, invalid_input, ok, err}

-- `record`: an object with exactly these fields.
unfoldable pub record_of : Value → List Text → Result Fields
record_of (obj fs) fields =
    if length (keys fs) == length fields && all (λ f. has_own f fs) fields
    then ok fs
    else err invalid_input
record_of _ fields = err invalid_input

-- `text`.
unfoldable pub text_of : Option Value → ℕ → Bool → Result Text
text_of (some (str s)) max_bytes blank =
    if ltb max_bytes (string_length s)
      || any (λ c. c == 0) s
      || (not blank && is_blank s)
      || ltb max_bytes (length (encode s))
    then err invalid_input
    else ok s
text_of _ max_bytes blank = err invalid_input

abbrev pub choose : {A : Type 0} → Text → List (Text × A) → Result A
choose s [] = err invalid_input
choose s ((t, a) ∷ choices) = elim (text_eq t s) [ true ↦ ok a | false ↦ choose s choices ]

-- `member`, over the choices and what they stand for.
abbrev pub member : {A : Type 0} → Option Value → List (Text × A) → Result A
member (some (str s)) choices = choose s choices
member _ choices = err invalid_input

-- An array of at most `max` values.
abbrev pub array_of : Option Value → ℕ → Result (List Value)
array_of (some (arr xs)) max =
    if ltb max (length (items xs)) then err invalid_input else ok (items xs)
array_of _ max = err invalid_input

-- `values.map(f)` where `f` may throw.
abbrev pub each : {A B : Type 0} → (A → Result B) → List A → Result (List B)
each f [] = ok []
each f (x ∷ xs) = do y ← f x; ys ← each f xs; ok (y ∷ ys)

-- `new Set(values).size === values.length`.
abbrev pub distinct : List Text → Bool
distinct [] = true
distinct (s ∷ ss) = let rest = distinct ss in not (any (λ t. text_eq t s) ss) && rest

pub text_of-fits :
    (v : Option Value) (max : ℕ) (blank : Bool) (s : Text)
    → text_of v max blank ≡ ok s
    → (length (encode s) ≤ max) × (any (λ c. c == 0) s ≡ false)
unfolding text_of
text_of-fits (some (str s)) max blank t h = ground arith
text_of-fits none max blank t h = ground arith
text_of-fits (some null) max blank t h = ground arith
text_of-fits (some (bool b)) max blank t h = ground arith
text_of-fits (some (num n)) max blank t h = ground arith
text_of-fits (some other_num) max blank t h = ground arith
text_of-fits (some (arr xs)) max blank t h = ground arith
text_of-fits (some (obj fs)) max blank t h = ground arith

pub length-each :
    {A B : Type 0} (f : A → Result B) (xs : List A) (ys : List B)
    → each f xs ≡ ok ys
    → length ys ≡ length xs
length-each f [] ys h = ground arith
length-each f (x ∷ xs) ys h =
    let (y, e, h1) = bind-ok (f x) _ ys h in
    let (zs, e1, h2) = bind-ok (each f xs) _ ys h1 in ground (arith, length-each f xs zs e1, h2)

-- Each result has what `f` gives its results.
pub each-All :
    {A B : Type 0} (P : B → Type 0) (f : A → Result B) (xs : List A) (ys : List B)
    → ((x : A) (y : B) → f x ≡ ok y → P y)
    → each f xs ≡ ok ys
    → All P ys
each-All P f [] ys hf h = let q : [] ≡ ys = ground arith in subst (All P) q tt
each-All P f (x ∷ xs) ys hf h =
    let (y, e, h1) = bind-ok (f x) _ ys h in
    let (zs, e1, h2) = bind-ok (each f xs) _ ys h1 in
    let q : y ∷ zs ≡ ys = ground (arith, h2) in subst (All P) q (hf x y e, each-All P f xs zs hf e1)

pub array_of-length :
    (v : Option Value) (max : ℕ) (xs : List Value) → array_of v max ≡ ok xs → length xs ≤ max
array_of-length (some (arr ys)) max xs h = ground arith
array_of-length none max xs h = ground arith
array_of-length (some null) max xs h = ground arith
array_of-length (some (bool b)) max xs h = ground arith
array_of-length (some (num n)) max xs h = ground arith
array_of-length (some other_num) max xs h = ground arith
array_of-length (some (str s)) max xs h = ground arith
array_of-length (some (obj fs)) max xs h = ground arith

-- No text stands twice.
abbrev pub NoRepeat : List Text → Type 0
NoRepeat [] = Unit
NoRepeat (s ∷ ss) = All (λ t. t ≢ s) ss × NoRepeat ss

pub NoRepeat-distinct : (ss : List Text) → distinct ss ≡ true → NoRepeat ss
NoRepeat-distinct [] h = tt
NoRepeat-distinct (s ∷ ss) h =
    go (any (λ t. text_eq t s) ss) refl (distinct ss) (NoRepeat-distinct ss) h
  where
    go :
        (b : Bool)
        → any (λ t. text_eq t s) ss ≡ b
        → (d : Bool) → (d ≡ true → NoRepeat ss)
        → (not b && d) ≡ true
        → All (λ t. t ≢ s) ss × NoRepeat ss
    go true e d ih k = cc
    go false e d ih k = (
      All-any (λ t. text_eq t s) (λ t. t ≢ s) ss (λ t n same. ground (arith, text_eq_iff t s)) e,
      ih k,
    )
