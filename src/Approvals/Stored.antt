-- ===== src/Approvals/Stored.antt =====
-- How src/infrastructure/sqlite/approval-database.ts writes a request: `JSON.stringify` of what
-- `parseAgentApprovalRequest` of src/domain/approvals.ts returns, with the fields in that order.
pub mod Reading
use codevo_runner.Prelude.{◌≡◌, refl, true, false, some, List, [], ◌∷◌, map, Text, codes, text_eq}
use codevo_runner.Json.{Value, Items, Fields, lookup, bool, str, arr, obj, nil, cons, end, field}
use codevo_runner.Contracts.{ok}
use codevo_runner.Inputs.{record_of, text_of, member, array_of, each}
use codevo_runner.Approvals.Valid.{Agrees}
use codevo_runner.Approvals.{
  unanswered, approved, denied, is_unanswered, Kind, Decision, Provider, Status, Fact, Request,
  kinds, providers, StatusText, statuses, fields_of, offers, identifier, timestamp, bool_of,
  parse_fact, parse_decisions, parse_input, parse_status, parse_request, command, file_change, tool,
  plan, allow_once, allow_for_session, deny, codex, claude_code, pending, cancelled, expired,
  timed_out, is_approved, is_denied,
}

abbrev pub to_items : List Value → Items
to_items [] = nil
to_items (v ∷ vs) = cons v (to_items vs)

abbrev pub kind_text : Kind → Text
kind_text command = codes "command"
kind_text file_change = codes "fileChange"
kind_text tool = codes "tool"
kind_text plan = codes "plan"

abbrev pub decision_text : Decision → Text
decision_text allow_once = codes "allowOnce"
decision_text allow_for_session = codes "allowForSession"
decision_text deny = codes "deny"

abbrev pub provider_text : Provider → Text
provider_text codex = codes "codex"
provider_text claude_code = codes "claudeCode"

abbrev pub status_text : Status → Text
status_text (unanswered pending) = codes "pending"
status_text (unanswered cancelled) = codes "cancelled"
status_text (unanswered expired) = codes "expired"
status_text (unanswered timed_out) = codes "timedOut"
status_text (approved d) = codes "approved"
status_text denied = codes "denied"

-- The decision of a settled request.
abbrev pub decision_fields : Status → Fields
decision_fields (unanswered u) = end
decision_fields (approved d) = field (codes "decision") (str (decision_text d)) end
decision_fields denied = field (codes "decision") (str (codes "deny")) end

abbrev pub print_fact : Fact → Value
print_fact f = obj (field (codes "label") (str f.label) (field (codes "value") (str f.value) end))

abbrev pub print_decision : Decision → Value
print_decision d = str (decision_text d)

unfoldable pub printed : Request → Fields
printed r = field (codes "id") (str r.id) (
    field (codes "taskId") (str r.task_id) (
      field (codes "provider") (str (provider_text r.provider)) (
        field (codes "kind") (str (kind_text r.input.kind)) (
          field (codes "title") (str r.input.title) (
            field (codes "detail") (str r.input.detail) (
              field (codes "detailTruncated") (bool r.input.detail_truncated) (
                field (codes "facts") (arr (to_items (map print_fact r.input.facts))) (
                  field (codes "decisions") (arr (to_items (map print_decision r.input.decisions)))
                    (field (codes "status") (str (status_text r.status)) (
                      field (codes "expiresAt") (str r.expires_at)
                        (decision_fields r.status)))))))))))

-- The value that `JSON.stringify` writes.
unfoldable pub print : Request → Value
unfolding printed
print r = obj (printed r)

-- What reading back the parts of a request gives.
pub record Reads (r : Request) : Type 0 where
  pub id : identifier (some (str r.id)) ≡ ok r.id
  pub task_id : identifier (some (str r.task_id)) ≡ ok r.task_id
  pub expires_at : timestamp (some (str r.expires_at)) ≡ ok r.expires_at
  pub title : text_of (some (str r.input.title)) 256 false ≡ ok r.input.title
  pub detail : text_of (some (str r.input.detail)) 16384 true ≡ ok r.input.detail
  pub few :
      array_of (some (arr (to_items (map print_fact r.input.facts)))) 8
      ≡ ok (map print_fact r.input.facts)
  pub facts : each parse_fact (map print_fact r.input.facts) ≡ ok r.input.facts
  pub decisions :
      parse_decisions (some (arr (to_items (map print_decision r.input.decisions))))
      ≡ ok r.input.decisions

member-kind : (k : Kind) → member (some (str (kind_text k))) kinds ≡ ok k
unfolding text_eq
member-kind command = refl
member-kind file_change = refl
member-kind tool = refl
member-kind plan = refl

member-provider : (p : Provider) → member (some (str (provider_text p))) providers ≡ ok p
unfolding text_eq
member-provider codex = refl
member-provider claude_code = refl

parse-printed_input : (r : Request) → Reads r → parse_input (printed r) ≡ ok r.input
unfolding printed parse_input lookup text_eq bool_of
parse-printed_input r h =
    rw (member-kind r.input.kind, h.title, h.detail, h.few, h.facts, h.decisions) refl

-- The status, as the parser reads it first.
abbrev pub text_of_status : Status → StatusText
text_of_status (unanswered u) = is_unanswered u
text_of_status (approved d) = is_approved
text_of_status denied = is_denied

member-status : (s : Status) → member (some (str (status_text s))) statuses ≡ ok (text_of_status s)
unfolding text_eq
member-status (unanswered pending) = refl
member-status (unanswered cancelled) = refl
member-status (unanswered expired) = refl
member-status (unanswered timed_out) = refl
member-status (approved d) = refl
member-status denied = refl

record_of-printed :
    (r : Request)
    → record_of (obj (printed r)) (fields_of (text_of_status r.status)) ≡ ok (printed r)
unfolding printed record_of text_eq
record_of-printed r = go r.status
  where
    go :
        (s : Status)
        → record_of (obj (printed (record r { status = s }))) (fields_of (text_of_status s))
          ≡ ok (printed (record r { status = s }))
    go (unanswered u) = refl
    go (approved d) = refl
    go denied = refl

-- A decision that the request offers is read back.
parse-printed_status :
    (r : Request)
    → Agrees r.input.decisions r.status
    → parse_status (printed r) (text_of_status r.status) r.input.decisions ≡ ok r.status
unfolding printed parse_status lookup text_eq
parse-printed_status r h = go r.status h
  where
    go :
        (s : Status)
        → Agrees r.input.decisions s
        → parse_status (printed (record r { status = s })) (text_of_status s) r.input.decisions
          ≡ ok s
    go (unanswered u) h = refl
    go (approved allow_once) h = rw h refl
    go (approved allow_for_session) h = rw h refl
    go (approved deny) h = absurd h
    go denied h = refl

-- A request whose parts are read back is read back.
pub parse_request-print :
    (r : Request) → Reads r → Agrees r.input.decisions r.status → parse_request (print r) ≡ ok r
unfolding print parse_request
parse_request-print r h a =
    let l0 : lookup (codes "status") (printed r) ≡ some (str (status_text r.status)) =
      unfold printed lookup text_eq in refl in
    let l1 : lookup (codes "id") (printed r) ≡ some (str r.id) =
      unfold printed lookup text_eq in refl in
    let l2 : lookup (codes "taskId") (printed r) ≡ some (str r.task_id) =
      unfold printed lookup text_eq in refl in
    let l3 : lookup (codes "provider") (printed r) ≡ some (str (provider_text r.provider)) =
      unfold printed lookup text_eq in refl in
    let l4 : lookup (codes "expiresAt") (printed r) ≡ some (str r.expires_at) =
      unfold printed lookup text_eq in refl in
    rw
      (
        l0,
        member-status r.status,
        record_of-printed r,
        parse-printed_input r h,
        l1,
        h.id,
        l2,
        h.task_id,
        l3,
        member-provider r.provider,
        l4,
        h.expires_at,
        parse-printed_status r a,
      )
      refl
