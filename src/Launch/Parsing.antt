-- ===== src/Launch/Parsing.antt =====
-- What `parseLaunchOptions` of src/domain/launch.ts accepts.
use mathlib.Core.Path.{subst}
use codevo_runner.Prelude.{
  ℕ, ◌≤◌, ◌≡◌, refl, sym, ◌⊎◌, inl, inr, Bool, true, false, ◌&&◌, ◌||◌, Option, none, some, [], ◌∷◌,
  arith, leb, ◌==◌, if◌then◌else◌, leb→le, &&-both, length, all, All, Any, Any-any, All-all, Text,
  codes, text_eq, eq_of_text_eq, text_eq_iff,
}
use codevo_runner.Json.{
  Value, Fields, keys, lookup, includes, null, bool, num, other_num, str, arr, obj,
}
use codevo_runner.Contracts.{guard, bind-ok, guard-true, invalid_input, ok, err}
use codevo_runner.Launch.{
  claude_code, codex, permission_modes, execution_modes, claude_effort_choices, member,
  alphanumeric, flag, provider_of, expected, set_effort, codex_effort, context_of, parse_fields,
  Provider, LaunchOptions, is_model_id, model_id, launch_keys, parse_launch_options,
  provider_claude, provider_codex,
}

abbrev pub model_of : LaunchOptions → Text
model_of (claude_code o) = o.model
model_of (codex o) = o.model

abbrev pub launch_provider : LaunchOptions → Provider
launch_provider (claude_code o) = provider_claude
launch_provider (codex o) = provider_codex

-- A digit or a small letter.
abbrev IsStart : ℕ → Type 0
IsStart c = ((b'a' ≤ c) × (c ≤ b'z')) ⊎ ((b'0' ≤ c) × (c ≤ b'9'))

-- A digit or a small letter, then at most 95 of these, full stops, underscores and dashes.
abbrev pub IsModelId : Text → Type 0
IsModelId [] = ⊥
IsModelId (c ∷ cs) =
    IsStart c
    × (length cs ≤ 95)
    × All (λ d. IsStart d ⊎ ((d ≡ b'.') ⊎ ((d ≡ b'_') ⊎ (d ≡ b'-')))) cs

-- The value of the field `provider`.
abbrev pub provider_text : Provider → Text
provider_text provider_claude = codes "claudeCode"
provider_text provider_codex = codes "codex"

abbrev pub IsKey : Provider → Text → Type 0
IsKey provider_codex k =
    Any (λ j. j ≡ k) (codes "provider" ∷ codes "model" ∷ codes "mode" ∷ codes "effort" ∷ [])
IsKey provider_claude k =
    Any (λ j. j ≡ k)
      (codes "provider"
        ∷ codes "model"
        ∷ codes "mode"
        ∷ codes "effort"
        ∷ codes "context"
        ∷ codes "fastMode"
        ∷ codes "thinkingMode"
        ∷ [])

pub record IsParsed (p : Option Provider) (fs : Fields) (o : LaunchOptions) : Type 0 where
  pub expected_one : (p ≡ none) ⊎ (p ≡ some (launch_provider o))
  pub named : lookup (codes "provider") fs ≡ some (str (provider_text (launch_provider o)))
  pub model : lookup (codes "model") fs ≡ some (str (model_of o))
  pub is_model : IsModelId (model_of o)
  pub known : All (IsKey (launch_provider o)) (keys fs)

abbrev model_rest : ℕ → Bool
model_rest d = alphanumeric d || d == b'.' || d == b'_' || d == b'-'

is_model_id-IsModelId : (m : Text) → is_model_id m ≡ true → IsModelId m
unfolding is_model_id
is_model_id-IsModelId [] h = cc
is_model_id-IsModelId (c ∷ cs) h =
    let (h1, rest) = &&-both (alphanumeric c && leb (length cs) 95) (all model_rest cs) h in
    let (first, few) = &&-both (alphanumeric c) (leb (length cs) 95) h1 in
    (
      ground arith,
      leb→le (length cs) 95 few,
      All-all model_rest (λ d. IsStart d ⊎ ((d ≡ b'.') ⊎ ((d ≡ b'_') ⊎ (d ≡ b'-')))) cs
          (λ d k. ground (arith, k)) rest,
    )

abbrev IsRead : Option Value → Text → Type 0
IsRead v m = (v ≡ some (str m)) × (is_model_id m ≡ true)

model_id-ok : (v : Option Value) (m : Text) → model_id v ≡ ok m → IsRead v m
unfolding model_id
model_id-ok (some (str s)) m h = go (is_model_id s) refl h
  where
    go :
        (b : Bool)
        → is_model_id s ≡ b
        → (if b then ok s else err invalid_input) ≡ ok m
        → IsRead (some (str s)) m
    go true e k =
        let same : s ≡ m = ground (arith, k) in subst (IsRead (some (str s))) same (refl, e)
    go false e k = absurd (ground (arith, k))
model_id-ok none m h = ground arith
model_id-ok (some null) m h = ground arith
model_id-ok (some (bool b)) m h = ground arith
model_id-ok (some (num n)) m h = ground arith
model_id-ok (some other_num) m h = ground arith
model_id-ok (some (arr xs)) m h = ground arith
model_id-ok (some (obj fs)) m h = ground arith

fields-provider :
    (p : Provider) (fs : Fields) (o : LaunchOptions)
    → parse_fields p fs ≡ ok o
    → IsRead (lookup (codes "model") fs) (model_of o) × (launch_provider o ≡ p)
unfolding parse_fields
fields-provider provider_codex fs o h =
    let (effort, e0, h1) = bind-ok (codex_effort (lookup (codes "effort") fs)) _ o h in
    let (m, e, h2) = bind-ok (model_id (lookup (codes "model") fs)) _ o h1 in
    let (mode, e2, h3) = bind-ok (member (lookup (codes "mode") fs) execution_modes) _ o h2 in
    let same : codex (record { model = m; mode = mode; effort = set_effort effort }) ≡ o =
      ground (arith, h3) in
    subst
      (λ o. IsRead (lookup (codes "model") fs) (model_of o) × (launch_provider o ≡ provider_codex))
      same (model_id-ok (lookup (codes "model") fs) m e, refl)
fields-provider provider_claude fs o h =
    let (m, e, h1) = bind-ok (model_id (lookup (codes "model") fs)) _ o h in
    let (mode, e1, h2) = bind-ok (member (lookup (codes "mode") fs) permission_modes) _ o h1 in
    let (effort, e2, h3) =
      bind-ok (member (lookup (codes "effort") fs) claude_effort_choices) _ o h2 in
    let (context, e3, h4) = bind-ok (context_of (lookup (codes "context") fs)) _ o h3 in
    let (fast, e4, h5) = bind-ok (flag (lookup (codes "fastMode") fs)) _ o h4 in
    let (thinking, e5, h6) = bind-ok (flag (lookup (codes "thinkingMode") fs)) _ o h5 in
    let same : claude_code (record {
      model = m;
      mode = mode;
      effort = effort;
      context = context;
      fast_mode = some fast;
      thinking_mode = some thinking;
    })
        ≡ o =
      ground (arith, h6) in
    subst
      (λ o. IsRead (lookup (codes "model") fs) (model_of o) × (launch_provider o ≡ provider_claude))
      same (model_id-ok (lookup (codes "model") fs) m e, refl)

provider_of-named :
    (v : Option Value) (f : Provider) → provider_of v ≡ ok f → v ≡ some (str (provider_text f))
unfolding provider_of
provider_of-named (some (str s)) f h =
    ground (arith, text_eq_iff s (codes "claudeCode"), text_eq_iff s (codes "codex"))
provider_of-named none f h = absurd (ground arith)
provider_of-named (some null) f h = absurd (ground arith)
provider_of-named (some (bool b)) f h = absurd (ground arith)
provider_of-named (some (num n)) f h = absurd (ground arith)
provider_of-named (some other_num) f h = absurd (ground arith)
provider_of-named (some (arr xs)) f h = absurd (ground arith)
provider_of-named (some (obj fs)) f h = absurd (ground arith)

expected-one :
    (p : Option Provider) (f : Provider) → expected p f ≡ true → (p ≡ none) ⊎ (p ≡ some f)
expected-one none f h = inl refl
expected-one (some provider_claude) provider_claude h = inr refl
expected-one (some provider_codex) provider_codex h = inr refl
expected-one (some provider_claude) provider_codex h = cc
expected-one (some provider_codex) provider_claude h = cc

includes-IsKey : (f : Provider) (k : Text) → includes (launch_keys f) k ≡ true → IsKey f k
includes-IsKey provider_codex k h =
    Any-any (λ c. text_eq c k) (λ c. c ≡ k) (launch_keys provider_codex) (λ c. eq_of_text_eq c k) h
includes-IsKey provider_claude k h =
    Any-any (λ c. text_eq c k) (λ c. c ≡ k) (launch_keys provider_claude) (λ c. eq_of_text_eq c k) h

pub parse_launch_options-model :
    (fs : Fields) (p : Option Provider) (o : LaunchOptions)
    → parse_launch_options (obj fs) p ≡ ok o
    → is_model_id (model_of o) ≡ true
unfolding parse_launch_options
parse_launch_options-model fs p o h =
    let (f, e0, h1) = bind-ok (provider_of (lookup (codes "provider") fs)) _ o h in
    let (u, e1, h2) = bind-ok (guard (expected p f) invalid_input) _ o h1 in
    let (v, e2, h3) =
      bind-ok (guard (all (λ k. includes (launch_keys f) k) (keys fs)) invalid_input) _ o h2 in
    (fields-provider f fs o h3).0.1

-- What is parsed is of the provider that the field `provider` names, which is the expected one if one
-- was expected; the field `model` is its model and a model id (at most 96 small letters, digits, full
-- stops, underscores and dashes, the first a letter or a digit); and every key of the input is
-- `provider`, `model`, `mode`, `effort` or, of Claude, `context`, `fastMode` or `thinkingMode`.
pub parse_launch_options-IsParsed :
    (fs : Fields) (p : Option Provider) (o : LaunchOptions)
    → parse_launch_options (obj fs) p ≡ ok o
    → IsParsed p fs o
unfolding parse_launch_options
parse_launch_options-IsParsed fs p o h =
    let (f, e0, h1) = bind-ok (provider_of (lookup (codes "provider") fs)) _ o h in
    let (u, e1, h2) = bind-ok (guard (expected p f) invalid_input) _ o h1 in
    let (v, e2, h3) =
      bind-ok (guard (all (λ k. includes (launch_keys f) k) (keys fs)) invalid_input) _ o h2 in
    let (read, same) = fields-provider f fs o h3 in
    record {
      expected_one =
          subst (λ g. (p ≡ none) ⊎ (p ≡ some g)) (sym same)
            (expected-one p f (guard-true (expected p f) invalid_input u e1));
      named =
          subst (λ g. lookup (codes "provider") fs ≡ some (str (provider_text g))) (sym same)
            (provider_of-named (lookup (codes "provider") fs) f e0);
      model = read.0;
      is_model = is_model_id-IsModelId (model_of o) read.1;
      known =
          subst (λ g. All (IsKey g) (keys fs)) (sym same)
            (All-all (λ k. includes (launch_keys f) k) (IsKey f) (keys fs) (includes-IsKey f)
              (guard-true (all (λ k. includes (launch_keys f) k) (keys fs)) invalid_input v e2));
    }
