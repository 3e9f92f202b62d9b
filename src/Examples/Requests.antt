-- ===== src/Examples/Requests.antt =====
-- src/domain/approvals.ts and questions.ts at concrete inputs.
use codevo_runner.Approvals.Dates.{is_timestamp}
use codevo_runner.Prelude.Spaces.{trim}
use codevo_runner.Inputs.{record_of, text_of}
use codevo_runner.Prelude.{
  ◌≤◌, ◌≡◌, refl, ◌⊎◌, true, false, [], ◌∷◌, arith, length, Text, codes, text_eq,
}
use codevo_runner.Prelude.Utf8.{utf8, encode, string_length, strip_bom, fitting}
use codevo_runner.Json.{Value, Fields, lookup, bool, str, arr, obj, nil, cons, end, field}
use codevo_runner.Contracts.{is_id, ok}
use codevo_runner.Approvals.Bounded.{cleaned, bounded_approval_text_lem}
use codevo_runner.Approvals.Valid.{IsRequest, parse_request-IsRequest, answered-IsRequest}
use codevo_runner.Approvals as approvals
use codevo_runner.Approvals.Stored.{print}
use codevo_runner.Approvals.Stored.Reading.{stored_again}
use codevo_runner.Questions as questions
use codevo_runner.Questions.Answers.{AnswersAll, response-AnswersAll}

abbrev id : Text
id = codes "0f8fad5b-d9cb-4a69-a165-70867728950e"

abbrev time : Text
time = codes "2024-02-29T23:59:59.000Z"

abbrev asked : Fields
asked = field (codes "id") (str id) (
    field (codes "taskId") (str id) (
      field (codes "provider") (str (codes "codex")) (
        field (codes "kind") (str (codes "command")) (
          field (codes "title") (str (codes "run")) (
            field (codes "detail") (str []) (
              field (codes "detailTruncated") (bool false) (
                field (codes "facts") (arr nil) (
                  field (codes "decisions")
                    (arr (cons (str (codes "allowOnce")) (cons (str (codes "deny")) nil)))
                    (field (codes "status") (str (codes "pending"))
                      (field (codes "expiresAt") (str time) end))))))))))

abbrev approval : approvals.Request
approval = record {
  id = id;
  task_id = id;
  provider = approvals.codex;
  input = record {
    kind = approvals.command;
    title = codes "run";
    detail = [];
    detail_truncated = false;
    facts = [];
    decisions = approvals.allow_once ∷ approvals.deny ∷ [];
  };
  status = approvals.unanswered approvals.pending;
  expires_at = time;
}

approval_parses : approvals.parse_request (obj asked) ≡ ok approval
unfolding approvals.parse_request approvals.parse_input approvals.identifier approvals.timestamp
    approvals.parse_status approvals.bool_of approvals.parse_decisions record_of text_of text_eq
    lookup is_id is_timestamp string_length encode trim utf8
approval_parses = refl

parse_request-IsRequest_example : IsRequest approval
parse_request-IsRequest_example = parse_request-IsRequest asked approval approval_parses

abbrev denial : Value
denial = obj (field (codes "decision") (str (codes "deny")) end)

denial_parses : approvals.parse_answer denial approval ≡ ok approvals.deny
unfolding approvals.parse_answer record_of text_eq lookup
denial_parses = refl

answered-IsRequest_example :
    IsRequest (approvals.settled_approval approval approvals.deny)
    × (record approval { status = (approvals.settled_approval approval approvals.deny).status }
        ≡ approvals.settled_approval approval approvals.deny)
answered-IsRequest_example =
    answered-IsRequest denial approval approvals.deny
      (parse_request-IsRequest asked approval approval_parses) denial_parses

stored_again_example :
    (approvals.parse_request (print approval) ≡ ok approval)
    × (approvals.parse_request (print (approvals.settled_approval approval approvals.deny))
        ≡ ok (approvals.settled_approval approval approvals.deny))
stored_again_example =
    stored_again asked denial approval approvals.deny approval_parses denial_parses

bounded_approval_text_lem_example :
    let r = approvals.bounded_approval_text (codes "abc") 2 in
    (length (encode r.0) ≤ 2)
    × ((r.0 ≡ cleaned (codes "abc")) ⊎ (r.0 ≡ strip_bom (fitting 2 (cleaned (codes "abc")))))
    × ((r.1 ≡ true) ⊎ (r.0 ≡ codes "abc"))
bounded_approval_text_lem_example = bounded_approval_text_lem (codes "abc") 2 (ground arith)

abbrev question : questions.Question
question = record {
  id = codes "q1";
  header = [];
  prompt = codes "which";
  options = record { id = codes "a"; label = codes "A"; description = [] } ∷ [];
  multiple = false;
  allow_custom = false;
}

abbrev reply : Value
reply = obj (
    field (codes "answers")
      (arr (
        cons
          (obj (
            field (codes "questionId") (str (codes "q1")) (
              field (codes "optionIds") (arr (cons (str (codes "a")) nil))
                (field (codes "text") (str []) end))))
          nil))
      end)

abbrev answer : questions.Answer
answer = record { question_id = codes "q1"; option_ids = codes "a" ∷ []; text = [] }

reply_parses : questions.parse_response reply (question ∷ []) ≡ ok (answer ∷ [])
unfolding questions.parse_response questions.parse_answer questions.id_of questions.fits_question
    record_of text_of text_eq lookup string_length encode trim utf8
reply_parses = refl

response-AnswersAll_example : AnswersAll (question ∷ []) (answer ∷ [])
response-AnswersAll_example = response-AnswersAll reply (question ∷ []) (answer ∷ []) reply_parses
