-- ===== src/Approvals.antt =====
-- src/domain/approvals.ts: approval requests, their parsers and how a decision settles them. A
-- request's status carries the decision that an approved one has.
pub mod Dates
pub mod Valid
pub mod Bounded
pub mod Stored
pub mod Store
use codevo_runner.Prelude.{
  ℕ, Bool, true, false, not, ◌&&◌, ◌||◌, Option, some, List, [], ◌∷◌, ◌++◌, ltb, leb, ◌==◌,
  if◌then◌else◌, length, any, keep, Text, codes,
}
use codevo_runner.Prelude.Utf8.{encode, string_length, cut}
use codevo_runner.Json.{Value, Fields, lookup, is_text, bool, str, obj}
use codevo_runner.Contracts.{Result, guard, ◌>>=◌, ◌>>◌, is_id, invalid_input, ok, err}
use codevo_runner.Inputs.{record_of, text_of, member, array_of, each}
use codevo_runner.Approvals.Dates.{is_timestamp}

pub data Kind : Type 0 where
  command file_change tool plan : Kind

pub data Decision : Type 0 where
  allow_once allow_for_session deny : Decision

pub data Provider : Type 0 where
  codex claude_code : Provider

-- The statuses that carry no decision.
pub data Unanswered : Type 0 where
  pending cancelled expired timed_out : Unanswered

pub data Status : Type 0 where
  unanswered : Unanswered → Status
  approved : Decision → Status
  denied : Status

pub record Fact : Type 0 where
  pub label : Text
  pub value : Text

pub record Input : Type 0 where
  pub kind : Kind
  pub title : Text
  pub detail : Text
  pub detail_truncated : Bool
  pub facts : List Fact
  pub decisions : List Decision

pub record Request : Type 0 where
  pub id : Text
  pub task_id : Text
  pub provider : Provider
  pub input : Input
  pub status : Status
  pub expires_at : Text

abbrev pub kinds : List (Text × Kind)
kinds =
    (codes "command", command)
    ∷ (codes "fileChange", file_change)
    ∷ (codes "tool", tool)
    ∷ (codes "plan", plan)
    ∷ []

abbrev pub all_decisions : List (Text × Decision)
all_decisions =
    (codes "allowOnce", allow_once)
    ∷ (codes "allowForSession", allow_for_session)
    ∷ (codes "deny", deny)
    ∷ []

abbrev pub allowing_decisions : List (Text × Decision)
allowing_decisions =
    (codes "allowOnce", allow_once) ∷ (codes "allowForSession", allow_for_session) ∷ []

abbrev pub providers : List (Text × Provider)
providers = (codes "codex", codex) ∷ (codes "claudeCode", claude_code) ∷ []

-- What a status text says before the decision is read.
pub data StatusText : Type 0 where
  is_unanswered : Unanswered → StatusText
  is_approved is_denied : StatusText

abbrev pub statuses : List (Text × StatusText)
statuses =
    (codes "pending", is_unanswered pending)
    ∷ (codes "approved", is_approved)
    ∷ (codes "denied", is_denied)
    ∷ (codes "cancelled", is_unanswered cancelled)
    ∷ (codes "expired", is_unanswered expired)
    ∷ (codes "timedOut", is_unanswered timed_out)
    ∷ []

abbrev pub request_fields : List Text
request_fields =
    codes "id"
    ∷ codes "taskId"
    ∷ codes "provider"
    ∷ codes "kind"
    ∷ codes "title"
    ∷ codes "detail"
    ∷ codes "detailTruncated"
    ∷ codes "facts"
    ∷ codes "decisions"
    ∷ codes "status"
    ∷ codes "expiresAt"
    ∷ []

abbrev pub fields_of : StatusText → List Text
fields_of (is_unanswered s) = request_fields
fields_of _ = request_fields ++ codes "decision" ∷ []

abbrev pub same_decision : Decision → Decision → Bool
same_decision allow_once allow_once = true
same_decision allow_for_session allow_for_session = true
same_decision deny deny = true
same_decision _ _ = false

abbrev pub offers : List Decision → Decision → Bool
offers ds d = any (λ e. same_decision e d) ds

abbrev pub distinct_decisions : List Decision → Bool
distinct_decisions [] = true
distinct_decisions (d ∷ ds) = let rest = distinct_decisions ds in not (offers ds d) && rest

unfoldable pub identifier : Option Value → Result Text
identifier (some (str s)) = if is_id s then ok s else err invalid_input
identifier _ = err invalid_input

unfoldable pub timestamp : Option Value → Result Text
timestamp (some (str s)) = if is_timestamp s then ok s else err invalid_input
timestamp _ = err invalid_input

unfoldable pub bool_of : Option Value → Result Bool
bool_of (some (bool b)) = ok b
bool_of _ = err invalid_input

-- `parseFact`.
unfoldable pub parse_fact : Value → Result Fact
parse_fact v = do
  fs ← record_of v (codes "label" ∷ codes "value" ∷ [])
  label ← text_of (lookup (codes "label") fs) 64 false
  value ← text_of (lookup (codes "value") fs) 2048 true
  ok (record { label = label; value = value })

-- `parseDecisions`.
unfoldable pub parse_decisions : Option Value → Result (List Decision)
parse_decisions v = do
  raw ← array_of v 3
  guard (ltb 0 (length raw)) invalid_input
  ds ← each (λ item. member (some item) all_decisions) raw
  guard (distinct_decisions ds && offers ds deny) invalid_input
  ok ds

-- `parseInput`, with `parseFacts`.
unfoldable pub parse_input : Fields → Result Input
parse_input fs = do
  truncated ← bool_of (lookup (codes "detailTruncated") fs)
  kind ← member (lookup (codes "kind") fs) kinds
  title ← text_of (lookup (codes "title") fs) 256 false
  detail ← text_of (lookup (codes "detail") fs) 16384 true
  raw ← array_of (lookup (codes "facts") fs) 8
  facts ← each parse_fact raw
  decisions ← parse_decisions (lookup (codes "decisions") fs)
  ok (record {
    kind = kind;
    title = title;
    detail = detail;
    detail_truncated = truncated;
    facts = facts;
    decisions = decisions;
  })

-- `parseSettlement`, after the time.
unfoldable pub parse_status : Fields → StatusText → List Decision → Result Status
parse_status fs (is_unanswered s) ds = ok (unanswered s)
parse_status fs is_approved ds = do
  d ← member (lookup (codes "decision") fs) allowing_decisions
  guard (offers ds d) invalid_input
  ok (approved d)
parse_status fs is_denied ds =
    if is_text (lookup (codes "decision") fs) (codes "deny") then ok denied else err invalid_input

-- `parseAgentApprovalRequest`.
unfoldable pub parse_request : Value → Result Request
parse_request (obj item) = do
  status ← member (lookup (codes "status") item) statuses
  fs ← record_of (obj item) (fields_of status)
  input ← parse_input fs
  id ← identifier (lookup (codes "id") fs)
  task_id ← identifier (lookup (codes "taskId") fs)
  provider ← member (lookup (codes "provider") fs) providers
  expires_at ← timestamp (lookup (codes "expiresAt") fs)
  settled ← parse_status fs status input.decisions
  ok (record {
    id = id;
    task_id = task_id;
    provider = provider;
    input = input;
    status = settled;
    expires_at = expires_at;
  })
parse_request _ = err invalid_input

-- `parseAgentApprovalAnswer`.
unfoldable pub parse_answer : Value → Request → Result Decision
parse_answer v r = do
  fs ← record_of v (codes "decision" ∷ [])
  d ← member (lookup (codes "decision") fs) all_decisions
  guard (offers r.input.decisions d) invalid_input
  ok d

-- `settledApproval`.
unfoldable pub settled_approval : Request → Decision → Request
settled_approval r deny = record r { status = denied }
settled_approval r d = record r { status = approved d }

-- `boundedApprovalText`.
unfoldable pub bounded_approval_text : Text → ℕ → Text × Bool
bounded_approval_text value max_bytes =
    let cleaned = keep (λ c. not (c == 0)) value in
    if leb (length (encode cleaned)) max_bytes
    then (cleaned, not (string_length cleaned == string_length value))
    else (cut (encode cleaned) max_bytes, true)

-- `hasControlCharacter`.
unfoldable pub has_control_character : Text → Bool
has_control_character value =
    any (λ c. leb c 0x1F || (leb 0x7F c && leb c 0x9F) || c == 0x2028 || c == 0x2029) value
