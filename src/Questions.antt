-- ===== src/Questions.antt =====
-- src/domain/questions.ts: the questions of an agent, and the parsers of the request and its answers.
pub mod Answers
use codevo_runner.Prelude.{
  ℕ, Bool, true, false, not, ◌&&◌, ◌||◌, Option, none, some, List, [], ◌∷◌, ◌++◌, map, ltb, leb,
  ◌==◌, if◌then◌else◌, length, any, all, find, Text, codes, text_eq,
}
use codevo_runner.Prelude.Spaces.{is_blank}
use codevo_runner.Json.{Value, Fields, lookup, bool, str, obj}
use codevo_runner.Contracts.{Result, ◌>>=◌, ◌>>◌, guard, invalid_input, ok, err}
use codevo_runner.Inputs.{record_of, text_of, member, array_of, each, distinct}

pub record QuestionOption : Type 0 where
  pub id : Text
  pub label : Text
  pub description : Text

pub record Question : Type 0 where
  pub id : Text
  pub header : Text
  pub prompt : Text
  pub options : List QuestionOption
  pub multiple : Bool
  pub allow_custom : Bool

pub record Answer : Type 0 where
  pub question_id : Text
  pub option_ids : List Text
  pub text : Text

pub data CliKind : Type 0 where
  codex_cli claude_code_cli : CliKind

-- The status of a request; the answers are those of an answered one.
pub data Status : Type 0 where
  pending cancelled expired : Status
  answered : List Answer → Status

pub record Request : Type 0 where
  pub id : Text
  pub task_id : Text
  pub provider : CliKind
  pub questions : List Question
  pub status : Status

abbrev max_agent_questions : ℕ
max_agent_questions = 4

abbrev max_agent_question_options : ℕ
max_agent_question_options = 12

abbrev max_agent_question_text_bytes : ℕ
max_agent_question_text_bytes = 8192

abbrev letter_or_digit : ℕ → Bool
letter_or_digit c =
    (leb b'A' c && leb c b'Z') || (leb b'a' c && leb c b'z') || (leb b'0' c && leb c b'9')

abbrev id_rest : ℕ → Bool
id_rest c = letter_or_digit c || c == b'_' || c == b'.' || c == b':' || c == b'-'

is_question_id : Text → Bool
is_question_id [] = false
is_question_id (c ∷ cs) = letter_or_digit c && leb (length cs) 127 && all id_rest cs

-- `id`.
unfoldable pub id_of : Option Value → Result Text
unfolding is_question_id
id_of (some (str s)) = if is_question_id s then ok s else err invalid_input
id_of _ = err invalid_input

bool_of : Option Value → Result Bool
bool_of (some (bool b)) = ok b
bool_of _ = err invalid_input

abbrev parse_option : Value → Result QuestionOption
parse_option v = do
  fs ← record_of v (codes "id" ∷ codes "label" ∷ codes "description" ∷ [])
  id ← id_of (lookup (codes "id") fs)
  label ← text_of (lookup (codes "label") fs) 512 false
  description ← text_of (lookup (codes "description") fs) 2048 true
  ok (record { id = id; label = label; description = description })

abbrev question_fields : List Text
question_fields =
    codes "id"
    ∷ codes "header"
    ∷ codes "prompt"
    ∷ codes "options"
    ∷ codes "multiple"
    ∷ codes "allowCustom"
    ∷ []

-- `parseQuestion`.
unfoldable pub parse_question : Value → Result Question
unfolding lookup text_of id_of bool_of record_of
parse_question v = do
  fs ← record_of v question_fields
  multiple ← bool_of (lookup (codes "multiple") fs)
  allow_custom ← bool_of (lookup (codes "allowCustom") fs)
  raw ← array_of (lookup (codes "options") fs) max_agent_question_options
  options ← each parse_option raw
  guard (distinct (map (λ o. o.id) options)) invalid_input
  guard (ltb 0 (length options) || allow_custom) invalid_input
  id ← id_of (lookup (codes "id") fs)
  header ← text_of (lookup (codes "header") fs) 128 true
  prompt ← text_of (lookup (codes "prompt") fs) max_agent_question_text_bytes false
  ok (record {
    id = id;
    header = header;
    prompt = prompt;
    options = options;
    multiple = multiple;
    allow_custom = allow_custom;
  })

abbrev pub find_question : Text → List Question → Result Question
find_question id questions = elim (find (λ q. text_eq q.id id) questions) [
  | none ↦ err invalid_input
  | some q ↦ ok q
]

-- The tests of one answer against its question.
unfoldable pub fits_question : Question → List Text → Text → Bool
fits_question q ids text =
    distinct ids
    && (q.multiple || leb (length ids) 1)
    && all (λ id. any (λ o. text_eq o.id id) q.options) ids
    && (q.allow_custom || text_eq text [])
    && (ltb 0 (length ids) || not (is_blank text))

unfoldable pub parse_answer : List Question → Value → Result Answer
parse_answer questions v = do
  fs ← record_of v (codes "questionId" ∷ codes "optionIds" ∷ codes "text" ∷ [])
  question_id ← id_of (lookup (codes "questionId") fs)
  question ← find_question question_id questions
  raw ← array_of (lookup (codes "optionIds") fs) max_agent_question_options
  option_ids ← each (λ v. id_of (some v)) raw
  text ← text_of (lookup (codes "text") fs) max_agent_question_text_bytes true
  guard (fits_question question option_ids text) invalid_input
  ok (record { question_id = question_id; option_ids = option_ids; text = text })

unfoldable pub parse_answers : Option Value → List Question → Result (List Answer)
parse_answers v questions = do
  raw ← array_of v max_agent_questions
  answers ← each (parse_answer questions) raw
  guard (distinct (map (λ a. a.question_id) answers)) invalid_input
  guard (length answers == length questions) invalid_input
  ok answers

-- `parseAgentQuestionResponse`.
unfoldable pub parse_response : Value → List Question → Result (List Answer)
unfolding parse_answers
parse_response v questions = do
  fs ← record_of v (codes "answers" ∷ [])
  parse_answers (lookup (codes "answers") fs) questions

-- What a status text says before the answers are read.
pub data StatusText : Type 0 where
  unanswered : Status → StatusText
  has_answers : StatusText

abbrev statuses : List (Text × StatusText)
statuses =
    (codes "pending", unanswered pending)
    ∷ (codes "answered", has_answers)
    ∷ (codes "cancelled", unanswered cancelled)
    ∷ (codes "expired", unanswered expired)
    ∷ []

abbrev providers : List (Text × CliKind)
providers = (codes "codex", codex_cli) ∷ (codes "claudeCode", claude_code_cli) ∷ []

abbrev request_fields : List Text
request_fields =
    codes "id" ∷ codes "taskId" ∷ codes "provider" ∷ codes "questions" ∷ codes "status" ∷ []

abbrev fields_of : StatusText → List Text
fields_of (unanswered s) = request_fields
fields_of has_answers = request_fields ++ codes "answers" ∷ []

unfoldable pub settle_status : StatusText → Fields → List Question → Result Status
settle_status (unanswered s) fs questions = ok s
settle_status has_answers fs questions = do
  answers ← parse_answers (lookup (codes "answers") fs) questions
  ok (answered answers)

-- `parseAgentQuestionRequest`.
unfoldable pub parse_request : Value → Result Request
parse_request (obj item) = do
  status ← member (lookup (codes "status") item) statuses
  fs ← record_of (obj item) (fields_of status)
  provider ← member (lookup (codes "provider") fs) providers
  raw ← array_of (lookup (codes "questions") fs) max_agent_questions
  questions ← each parse_question raw
  guard (ltb 0 (length questions)) invalid_input
  guard (distinct (map (λ q. q.id) questions)) invalid_input
  id ← id_of (lookup (codes "id") fs)
  task_id ← id_of (lookup (codes "taskId") fs)
  settled ← settle_status status fs questions
  ok (record {
    id = id;
    task_id = task_id;
    provider = provider;
    questions = questions;
    status = settled;
  })
parse_request _ = err invalid_input
