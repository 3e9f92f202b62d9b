-- ===== src/Process/Observation.antt =====
-- src/domain/process-observation.ts: a failed look at a process tree is tolerated, reported, or ends
-- the observation. A thrown value is an `Error` with its message, its name and its code where that
-- is a string, or anything else (`none`); `report` and `fail` append to a log.
pub mod Budget
use codevo_runner.Prelude.{
  ℕ, ◌+◌, Bool, true, false, not, ◌&&◌, ◌||◌, Option, none, some, List, [], ◌∷◌, ◌++◌, ltb, leb,
  ◌==◌, if◌then◌else◌, length, any, all, Text, codes, text_eq,
}

abbrev pub observation_failure_limit : ℕ
observation_failure_limit = 50

abbrev pub observation_failure_budget : ℕ
observation_failure_budget = 600

abbrev pub observation_diagnostic_limit : ℕ
observation_diagnostic_limit = 8

abbrev process_tree_limit : Text
process_tree_limit = codes "process_tree_limit"

abbrev permanent_errnos : List Text
permanent_errnos =
    codes "EACCES" ∷ codes "EPERM" ∷ codes "ENOTDIR" ∷ codes "ELOOP" ∷ codes "ENAMETOOLONG" ∷ []

pub data FailureKind : Type 0 where
  transient permanent limit unexpected : FailureKind

pub record ProcessFailure : Type 0 where
  pub kind : FailureKind
  pub cause : Text

pub data Phase : Type 0 where
  attach observe kill : Phase

pub data Outcome : Type 0 where
  retrying failed exhausted : Outcome

pub record ProcessDiagnostic : Type 0 where
  pub phase : Phase
  pub cause : Text
  pub outcome : Outcome
  pub consecutive : ℕ
  pub total : ℕ

pub record ObservationState : Type 0 where
  pub streak : ℕ
  pub failed : ℕ
  pub reported : ℕ

pub data ObservationDecision : Type 0 where
  healthy : ObservationState → ObservationDecision
  tolerated : ObservationState → Option ProcessDiagnostic → ObservationDecision
  fatal : ProcessDiagnostic → ObservationDecision

unfoldable pub observation_start : ObservationState
observation_start = record { streak = 0; failed = 0; reported = 0 }

-- What is thrown, as far as the code looks at it.
pub record Thrown : Type 0 where
  pub message : Text
  pub name : Text
  pub code : Option Text

abbrev upper : ℕ → Bool
upper c = leb b'A' c && leb c b'Z'

abbrev lower : ℕ → Bool
lower c = leb b'a' c && leb c b'z'

abbrev digit : ℕ → Bool
digit c = leb b'0' c && leb c b'9'

-- `ERRNO`.
is_errno : Text → Bool
is_errno [] = false
is_errno (c ∷ cs) =
    c == b'E' && leb 1 (length cs) && leb (length cs) 15 && all (λ d. upper d || digit d) cs

-- `LABEL`.
is_label : Text → Bool
is_label [] = false
is_label (c ∷ cs) =
    (upper c || lower c)
    && leb (length cs) 47
    && all (λ d. upper d || lower d || digit d || d == b'_') cs

failure : FailureKind → Text → ProcessFailure
failure kind cause = record { kind = kind; cause = cause }

abbrev named : Thrown → ProcessFailure
named e =
    if is_label e.name then failure unexpected e.name else failure unexpected (codes "unknown")

-- `classifyProcessFailure`.
unfoldable pub classify : Option Thrown → ProcessFailure
unfolding failure is_errno is_label
classify none = failure unexpected (codes "unknown")
classify (some e) =
    if text_eq e.message process_tree_limit then failure limit process_tree_limit else elim e.code [
      | none ↦ named e
      | some code ↦
          if any (λ p. text_eq p code) permanent_errnos
          then failure permanent code
          else if is_errno code
          then failure transient code
          else if is_label code
          then failure unexpected code
          else named e
    ]

abbrev is_transient : FailureKind → Bool
is_transient transient = true
is_transient _ = false

-- `outranksProcessFailure`.
unfoldable pub outranks : Option Thrown → Option Thrown → Bool
outranks candidate current =
    not (is_transient (classify candidate).kind) && is_transient (classify current).kind

abbrev diagnostic : Text → Outcome → ℕ → ℕ → ProcessDiagnostic
diagnostic cause outcome consecutive total = record {
  phase = observe;
  cause = cause;
  outcome = outcome;
  consecutive = consecutive;
  total = total;
}

decide_transient : ObservationState → Text → ObservationDecision
decide_transient s cause =
    let consecutive = s.streak + 1 in
    let total = s.failed + 1 in
    let next : ObservationState = record s { streak = consecutive; failed = total } in
    if leb observation_failure_limit consecutive
    then fatal (diagnostic cause failed consecutive total)
    else if leb observation_failure_budget total
    then fatal (diagnostic cause exhausted consecutive total)
    else if ltb 1 consecutive || leb observation_diagnostic_limit s.reported
    then tolerated next none
    else tolerated (record next { reported = s.reported + 1 })
        (some (diagnostic cause retrying consecutive total))

-- `decideObservation`.
unfoldable pub decide : ObservationState → Option ProcessFailure → ObservationDecision
unfolding decide_transient
decide s none = healthy (record s { streak = 0 })
decide s (some f) = elim f.kind [
  | transient ↦ decide_transient s f.cause
  | _ ↦ fatal (diagnostic f.cause failed (s.streak + 1) (s.failed + 1))
]

-- The closure of `trackObservation`: its state, the diagnostics that it has reported, and how often
-- it has called `fail`.
pub record Tracker : Type 0 where
  pub state : Option ObservationState
  pub reports : List ProcessDiagnostic
  pub fails : ℕ

unfoldable pub track : Tracker
unfolding observation_start
track = record { state = some observation_start; reports = []; fails = 0 }

abbrev report : Option ProcessDiagnostic → List ProcessDiagnostic → List ProcessDiagnostic
report none log = log
report (some d) log = log ++ d ∷ []

decided : ObservationDecision → Tracker → Tracker
decided (healthy next) t = record t { state = some next }
decided (tolerated next d) t = record t { state = some next; reports = report d t.reports }
decided (fatal d) t = record { state = none; reports = t.reports ++ d ∷ []; fails = t.fails + 1 }

-- One call of the closure, where `observe` has thrown `e`, or nothing.
unfoldable pub tick : Option (Option Thrown) → Tracker → Tracker
unfolding decided
tick seen t = elim t.state [
  | none ↦ t
  | some s ↦ decided (decide s (elim seen [ none ↦ none | some e ↦ some (classify e) ])) t
]

-- `cleanupDiagnostic`.
unfoldable pub cleanup_diagnostic : Phase → Option Thrown → ProcessDiagnostic
cleanup_diagnostic phase e = record {
  phase = phase;
  cause = (classify e).cause;
  outcome = failed;
  consecutive = 1;
  total = 1;
}

abbrev is_kill : Phase → Bool
is_kill kill = true
is_kill _ = false

-- The sink of `processDiagnosticNotes`: whether a kill was reported, and the diagnostics whose notes
-- were emitted.
pub record Notes : Type 0 where
  pub kill_reported : Bool
  pub emitted : List ProcessDiagnostic

unfoldable pub note : Bool → ProcessDiagnostic → Notes → Notes
note open_now d n =
    if not open_now then n else if is_kill d.phase && n.kill_reported then n else record {
      kill_reported = n.kill_reported || is_kill d.phase;
      emitted = n.emitted ++ d ∷ [];
    }
