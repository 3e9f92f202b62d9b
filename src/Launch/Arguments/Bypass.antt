-- ===== src/Launch/Arguments/Bypass.antt =====
-- Which launch arguments drop the provider's own protection.
use codevo_runner.Launch.{ok}
use codevo_runner.Launch.{obj}
use codevo_runner.Launch.{Fields}
use codevo_runner.Launch.{
  claude_code, codex, or_200k, Provider, PermissionMode, CodexEffort, ExecutionMode, ClaudeEffort,
  Context, ClaudeLaunchOptions, CodexLaunchOptions, LaunchOptions, is_model_id,
  parse_launch_options, launch_identity, mode_default, plan, supervised, accept_edits, mode_auto,
  bypass_permissions, effort_default, none_effort, minimal, low, medium, high, xhigh, effort_max,
  ultra, execution_default, read_only, workspace_write, execution_auto, danger_full_access,
  claude_default, claude_low, claude_medium, claude_high, claude_xhigh, claude_max, ultracode,
  ultrathink,
}
use codevo_runner.Launch.Parsing.{parse_launch_options-model}
use mathlib.Core.List.{append-nil}
use codevo_runner.Prelude.{
  ◌≡◌, refl, ap, ◌∙◌, Bool, true, false, not, ◌&&◌, ◌||◌, Option, none, some, List, [], ◌∷◌, ◌++◌,
  arith, if◌then◌else◌, any, Text, codes, text_eq,
}
use codevo_runner.Launch.Arguments.{
  effort_args, sandbox_args, model_args, codex_arguments, fixed_context, is_1m, claude_model,
  claude_mode, claude_effort, settings_args, claude_settings, launch_arguments,
}

-- The identity of launch options, in which an omitted Claude context is `200k`, launches with the
-- same arguments as the options, and is its own identity.
pub identity_launches :
    (o : LaunchOptions) (resumed : Bool)
    → (launch_arguments (launch_identity o) resumed ≡ launch_arguments o resumed)
      × (launch_identity (launch_identity o) ≡ launch_identity o)
unfolding launch_identity launch_arguments claude_model claude_settings
identity_launches (codex o) resumed = (refl, refl)
identity_launches (claude_code o) resumed = (
  ap
      (λ b.
        (if text_eq o.model (codes "default")
          then []
          else codes "--model"
            ∷ (o.model ++ (if b && not (fixed_context o.model) then codes "[1m]" else []))
            ∷ [])
        ++ claude_mode o.mode
        ++ claude_effort o.effort
        ++ claude_settings o)
      (same o.context),
  refl,
)
  where
    same : (c : Option Context) → is_1m (some (or_200k c)) ≡ is_1m c
    same none = refl
    same (some c) = refl

abbrev pub dangerous : Text → Bool
dangerous a =
    text_eq a (codes "--dangerously-skip-permissions")
    || text_eq a (codes "--dangerously-bypass-approvals-and-sandbox")

abbrev pub is_bypass : LaunchOptions → Bool
is_bypass (claude_code o) = elim o.mode [ bypass_permissions ↦ true | _ ↦ false ]
is_bypass (codex o) = elim o.mode [ danger_full_access ↦ true | _ ↦ false ]

any-append : (p : Text → Bool) (xs ys : List Text) → any p (xs ++ ys) ≡ (any p xs || any p ys)
any-append p [] ys = refl
any-append p (x ∷ xs) ys = ground (arith, any-append p xs ys)

-- A model id starts with no dash.
model-safe : (m s : Text) → is_model_id m ≡ true → dangerous (m ++ s) ≡ false
unfolding is_model_id text_eq
model-safe [] s h = ground arith
model-safe (c ∷ m) s h = ground arith

if-safe :
    (b : Bool) (xs ys : List Text)
    → any dangerous xs ≡ false
    → any dangerous ys ≡ false
    → any dangerous (if b then xs else ys) ≡ false
if-safe true xs ys h k = h
if-safe false xs ys h k = k

option-safe :
    (m s : Text) → is_model_id m ≡ true → any dangerous (codes "--model" ∷ (m ++ s) ∷ []) ≡ false
unfolding text_eq
option-safe m s h = ground (arith, model-safe m s h)

claude_model-safe :
    (o : ClaudeLaunchOptions) → is_model_id o.model ≡ true → any dangerous (claude_model o) ≡ false
unfolding claude_model
claude_model-safe o h =
    if-safe (text_eq o.model (codes "default")) [] _ refl (option-safe o.model _ h)

claude_effort-safe : (e : ClaudeEffort) → any dangerous (claude_effort e) ≡ false
unfolding claude_effort text_eq
claude_effort-safe claude_default = refl
claude_effort-safe ultrathink = refl
claude_effort-safe ultracode = refl
claude_effort-safe claude_low = refl
claude_effort-safe claude_medium = refl
claude_effort-safe claude_high = refl
claude_effort-safe claude_xhigh = refl
claude_effort-safe claude_max = refl

claude_mode-any :
    (m : PermissionMode)
    → any dangerous (claude_mode m)
      ≡ (elim m as (λ _. Bool) [ bypass_permissions ↦ true | _ ↦ false ])
unfolding claude_mode text_eq
claude_mode-any mode_default = refl
claude_mode-any plan = refl
claude_mode-any supervised = refl
claude_mode-any accept_edits = refl
claude_mode-any mode_auto = refl
claude_mode-any bypass_permissions = refl

settings-safe : (flags : List (Text × Bool)) → any dangerous (settings_args flags) ≡ false
unfolding text_eq
settings-safe [] = refl
settings-safe (f ∷ fs) = refl

claude_settings-safe : (o : ClaudeLaunchOptions) → any dangerous (claude_settings o) ≡ false
unfolding claude_settings text_eq
claude_settings-safe o =
    if-safe (text_eq o.model (codes "claude-haiku-4-5")) _ _ refl (settings-safe _)

claude-bypass :
    (o : ClaudeLaunchOptions) (resumed : Bool)
    → is_model_id o.model ≡ true
    → any dangerous (launch_arguments (claude_code o) resumed) ≡ is_bypass (claude_code o)
unfolding launch_arguments
claude-bypass o resumed h =
    let rest = claude_effort o.effort ++ claude_settings o in
    ground (
      arith,
      claude_model-safe o h,
      claude_mode-any o.mode,
      claude_effort-safe o.effort,
      claude_settings-safe o,
      any-append dangerous (claude_model o) (claude_mode o.mode ++ rest),
      any-append dangerous (claude_mode o.mode) rest,
      any-append dangerous (claude_effort o.effort) (claude_settings o),
    )

model_args-safe :
    (m : Text) → is_model_id m ≡ true → any dangerous (model_args (codes "-m") m) ≡ false
unfolding text_eq
model_args-safe m h =
    if-safe (text_eq m (codes "default")) [] _ refl
      (ground (arith, model-safe m [] h, append-nil m))

effort_args-safe : (e : Option CodexEffort) → any dangerous (effort_args e) ≡ false
unfolding text_eq
effort_args-safe none = refl
effort_args-safe (some effort_default) = refl
effort_args-safe (some none_effort) = refl
effort_args-safe (some minimal) = refl
effort_args-safe (some low) = refl
effort_args-safe (some medium) = refl
effort_args-safe (some high) = refl
effort_args-safe (some xhigh) = refl
effort_args-safe (some effort_max) = refl
effort_args-safe (some ultra) = refl

sandbox_args-safe :
    (resumed : Bool)
    → (any dangerous (sandbox_args (codes "read-only") resumed) ≡ false)
      × (any dangerous (sandbox_args (codes "workspace-write") resumed) ≡ false)
unfolding text_eq
sandbox_args-safe true = (refl, refl)
sandbox_args-safe false = (refl, refl)

codex-bypass :
    (o : CodexLaunchOptions) (resumed : Bool)
    → is_model_id o.model ≡ true
    → any dangerous (launch_arguments (codex o) resumed) ≡ is_bypass (codex o)
unfolding launch_arguments codex_arguments
codex-bypass o resumed h = go o.mode refl
  where
    model : List Text
    model = model_args (codes "-m") o.model

    effort : List Text
    effort = effort_args o.effort

    plain : any dangerous (model ++ effort) ≡ false
    plain =
        any-append dangerous model effort
        ∙ ground (arith, model_args-safe o.model h, effort_args-safe o.effort)

    boxed :
        (args : List Text)
        → any dangerous args ≡ false
        → any dangerous (model ++ args ++ effort) ≡ false
    boxed args e = ground (
      arith,
      any-append dangerous model (args ++ effort),
      any-append dangerous args effort,
      model_args-safe o.model h,
      effort_args-safe o.effort,
    )

    open_box :
        any dangerous (model ++ codes "--dangerously-bypass-approvals-and-sandbox" ∷ effort) ≡ true
    open_box =
        unfold text_eq in
        ground (
          arith,
          any-append dangerous model (codes "--dangerously-bypass-approvals-and-sandbox" ∷ effort),
          model_args-safe o.model h,
        )

    go :
        (m : ExecutionMode)
        → o.mode ≡ m
        → any dangerous (codex_arguments o resumed) ≡ is_bypass (codex o)
    go execution_default e = rw e plain
    go danger_full_access e = rw e open_box
    go read_only e =
        rw e (boxed (sandbox_args (codes "read-only") resumed) (sandbox_args-safe resumed).0)
    go workspace_write e =
        rw e (boxed (sandbox_args (codes "workspace-write") resumed) (sandbox_args-safe resumed).1)
    go execution_auto e =
        rw e (boxed (sandbox_args (codes "workspace-write") resumed) (sandbox_args-safe resumed).1)

-- Options that were parsed launch with an argument that drops the provider's protection exactly when
-- their mode is the one that asks for it, whatever their model id is.
pub parsed_bypass :
    (fs : Fields) (p : Option Provider) (o : LaunchOptions) (resumed : Bool)
    → parse_launch_options (obj fs) p ≡ ok o
    → any dangerous (launch_arguments o resumed) ≡ is_bypass o
parsed_bypass fs p (claude_code o) resumed h =
    claude-bypass o resumed (parse_launch_options-model fs p (claude_code o) h)
parsed_bypass fs p (codex o) resumed h =
    codex-bypass o resumed (parse_launch_options-model fs p (codex o) h)
