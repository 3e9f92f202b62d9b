-- ===== src/Provider/Output.antt =====
-- src/domain/provider-output.ts: `ProviderOutputParser`. `JSON.parse` is the parameter `parse_json`,
-- with `none` for an input that it throws on. The loop of `push` is over the chunk's lines.
mod Keeps
mod Lines
pub mod Stream
use codevo_runner.Prelude.{
  ℕ, ◌+◌, Bool, true, false, not, ◌&&◌, ◌||◌, Option, none, some, List, [], ◌∷◌, ◌++◌, ltb, leb,
  ◌==◌, if◌then◌else◌, length, Text, codes, text_eq, lines,
}
use codevo_runner.Prelude.Utf8.{encode, string_length}
use codevo_runner.Prelude.Spaces.{is_blank}
use codevo_runner.Json.{Value, Fields, lookup, is_text, bool, str, obj, end}
use codevo_runner.Contracts.{matches, times}

abbrev pub max_line_bytes : ℕ
max_line_bytes = 65536

pub data Provider : Type 0 where
  codex claude : Provider

pub data OutputError : Type 0 where
  provider_session_invalid provider_session_mismatch provider_session_missing : OutputError
  provider_output_limit_exceeded provider_output_invalid : OutputError
  provider_reported_failure provider_result_missing : OutputError

pub record Parser : Type 0 where
  pub provider : Provider
  pub expected_session_id : Option Text
  pub pending : Text
  pub session_id : Option Text
  pub error : Option OutputError
  pub succeeded : Bool
  pub finished : Bool

pub record OutputResult : Type 0 where
  pub session_id : Option Text
  pub error : Option OutputError

abbrev any_hex : ℕ → Bool
any_hex c = (leb b'0' c && leb c b'9') || (leb b'a' c && leb c b'f') || (leb b'A' c && leb c b'F')

abbrev any_dash : ℕ → Bool
any_dash c = c == b'-'

abbrev session_shape : List (ℕ → Bool)
session_shape = times 8 any_hex (
    any_dash
    ∷ times 4 any_hex
        (any_dash ∷ times 4 any_hex (any_dash ∷ times 4 any_hex (any_dash ∷ times 12 any_hex []))))

-- `isProviderSessionId` of a string.
unfoldable pub is_provider_session_id : Text → Bool
is_provider_session_id s = matches session_shape s

abbrev pub is_set {ℓ} : {A : Type ℓ} → Option A → Bool
is_set none = false
is_set (some a) = true

abbrev invalid_expectation : Option Text → Option OutputError
invalid_expectation none = none
invalid_expectation (some s) =
    if is_provider_session_id s then none else some provider_session_invalid

-- The constructor.
unfoldable pub new : Provider → Option Text → Parser
new provider expected = record {
  provider = provider;
  expected_session_id = expected;
  pending = [];
  session_id = none;
  error = invalid_expectation expected;
  succeeded = false;
  finished = false;
}

abbrev fail : OutputError → Parser → Parser
fail e p = record p { error = some e }

abbrev differs : Option Text → Text → Bool
differs none s = false
differs (some t) s = not (text_eq t s)

-- `acceptSession`.
unfoldable pub accept_session : Option Value → Parser → Parser
accept_session (some (str s)) p =
    if not (is_provider_session_id s)
    then fail provider_session_invalid p
    else if differs p.session_id s || differs p.expected_session_id s
    then fail provider_session_mismatch p
    else record p { session_id = some s }
accept_session _ p = fail provider_session_invalid p

codex_event : Text → Fields → Parser → Parser
codex_event type fs p =
    let p1 : Parser =
      if text_eq type (codes "thread.started")
      then accept_session (lookup (codes "thread_id") fs) p
      else p in
    let p2 : Parser =
      if text_eq type (codes "turn.completed") then record p1 { succeeded = true } else p1 in
    if text_eq type (codes "turn.failed") || text_eq type (codes "error")
    then fail provider_reported_failure p2
    else p2

abbrev is_false : Option Value → Bool
is_false (some (bool false)) = true
is_false _ = false

claude_verdict : Fields → Parser → Parser
claude_verdict fs p =
    if is_set p.error
    then p
    else if not (is_false (lookup (codes "is_error") fs))
        || not (is_text (lookup (codes "subtype") fs) (codes "success"))
    then fail provider_reported_failure p
    else record p { succeeded = true }

claude_result : Fields → Parser → Parser
unfolding claude_verdict
claude_result fs p =
    if not (is_set p.session_id)
    then fail provider_session_missing p
    else claude_verdict fs (accept_session (lookup (codes "session_id") fs) p)

claude_event : Text → Fields → Parser → Parser
unfolding claude_result
claude_event type fs p =
    let p1 : Parser =
      if text_eq type (codes "system") && is_text (lookup (codes "subtype") fs) (codes "init")
      then accept_session (lookup (codes "session_id") fs) p
      else p in
    if text_eq type (codes "result") then claude_result fs p1 else p1

event_of : Provider → Text → Fields → Parser → Parser
unfolding codex_event claude_event
event_of codex type fs p = codex_event type fs p
event_of claude type fs p = claude_event type fs p

typed_event : Option Value → Fields → Parser → Parser
unfolding event_of
typed_event (some (str type)) fs p = event_of p.provider type fs p
typed_event _ fs p = fail provider_output_invalid p

unfoldable pub parsed : Option Value → Parser → Parser
unfolding typed_event
parsed (some (obj fs)) p = typed_event (lookup (codes "type") fs) fs p
parsed _ p = fail provider_output_invalid p

module _ (parse_json : Text → Option Value) where
  -- `parseLine`.
  unfoldable pub parse_line : Text → Parser → Parser
  unfolding parsed
  parse_line line p = if is_blank line then p else parsed (parse_json line) p

  -- A fragment of a line: `none` if it was too long, else the parser with it pending.
  unfoldable pub take_fragment : Text → Parser → Option Parser
  take_fragment fragment p =
      if ltb max_line_bytes (string_length fragment)
        || ltb max_line_bytes (length (encode p.pending) + length (encode fragment))
      then none
      else some (record p { pending = p.pending ++ fragment })

  abbrev over_limit : Parser → Parser
  over_limit p = record p { error = some provider_output_limit_exceeded; pending = [] }

  -- The end of a line: it is parsed, and nothing is pending.
  abbrev end_line : Parser → Parser
  end_line p = let q = parse_line p.pending p in record q { pending = [] }

  -- The loop of `push`, over the complete lines and then what is left.
  unfoldable pub push_lines : List Text → Text → Parser → Parser
  push_lines [] [] p = p
  push_lines [] (c ∷ t) p = elim (take_fragment (c ∷ t) p) [ none ↦ over_limit p | some q ↦ q ]
  push_lines (l ∷ ls) t p = elim (take_fragment l p) [
    | none ↦ over_limit p
    | some q ↦ elim (is_set (end_line q).error) [
      | true ↦ end_line q
      | false ↦ push_lines ls t (end_line q)
    ]
  ]

  -- `push`.
  unfoldable pub push : Text → Parser → Parser
  push text p =
      if p.finished || is_set p.error then p else push_lines (lines text).0 (lines text).1 p

  abbrev result_of : Parser → OutputResult
  result_of p = elim p.error [
    | some provider_reported_failure ↦ record {
      session_id = p.session_id;
      error = some provider_reported_failure;
    }
    | some e ↦ record { session_id = none; error = some e }
    | none ↦
        if not (is_set p.session_id)
        then record { session_id = none; error = some provider_session_missing }
        else if not p.succeeded
        then record { session_id = p.session_id; error = some provider_result_missing }
        else record { session_id = p.session_id; error = none }
  ]

  -- `finish`.
  unfoldable pub finish : Parser → Parser × OutputResult
  finish p =
      let q =
        if not p.finished && not (is_set p.error) && not (is_blank p.pending)
        then parse_line p.pending p
        else p in
      (record q { pending = []; finished = true }, result_of q)

-- `currentSessionId`.
unfoldable pub current_session_id : Parser → Option Text
current_session_id p = elim p.error [
  | none ↦ p.session_id
  | some provider_reported_failure ↦ p.session_id
  | some _ ↦ none
]
