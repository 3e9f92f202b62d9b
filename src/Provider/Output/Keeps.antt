-- ===== src/Provider/Output/Keeps.antt =====
-- What handling one event leaves alone in the parser.
use codevo_runner.Prelude.{◌≡◌, true, false, Option, none, some, arith, Text, codes}
use codevo_runner.Json.{Value, Fields, lookup, null, bool, num, other_num, str, arr, obj}
use codevo_runner.Provider.Output.{
  differs, codex_event, claude_result, claude_event, event_of, typed_event, Provider, Parser,
  is_provider_session_id, accept_session, parsed, codex, claude,
}

-- A session that is held is well-formed, and the expected one if one is expected.
abbrev pub IsAuthentic : Option Text → Option Text → Type 0
IsAuthentic none expected = Unit
IsAuthentic (some s) expected = (is_provider_session_id s ≡ true) × (differs expected s ≡ false)

pub record Keeps (p q : Parser) : Type 0 where
  pub finished : q.finished ≡ p.finished
  pub expected : q.expected_session_id ≡ p.expected_session_id
  pub authentic :
      IsAuthentic p.session_id p.expected_session_id
      → IsAuthentic q.session_id q.expected_session_id

Keeps-accept_session : (v : Option Value) (p : Parser) → Keeps p (accept_session v p)
unfolding accept_session
Keeps-accept_session (some (str s)) p = ground arith
Keeps-accept_session none p = ground arith
Keeps-accept_session (some null) p = ground arith
Keeps-accept_session (some (bool b)) p = ground arith
Keeps-accept_session (some (num k)) p = ground arith
Keeps-accept_session (some other_num) p = ground arith
Keeps-accept_session (some (arr xs)) p = ground arith
Keeps-accept_session (some (obj gs)) p = ground arith

Keeps-codex : (type : Text) (fs : Fields) (p : Parser) → Keeps p (codex_event type fs p)
unfolding codex_event
Keeps-codex type fs p = ground (arith, Keeps-accept_session (lookup (codes "thread_id") fs) p)

Keeps-result : (fs : Fields) (p : Parser) → Keeps p (claude_result fs p)
unfolding claude_result
Keeps-result fs p = ground (arith, Keeps-accept_session (lookup (codes "session_id") fs) p)

Keeps-claude : (type : Text) (fs : Fields) (p : Parser) → Keeps p (claude_event type fs p)
unfolding claude_event
Keeps-claude type fs p =
    let q = accept_session (lookup (codes "session_id") fs) p in
    ground (
      arith,
      Keeps-accept_session (lookup (codes "session_id") fs) p,
      Keeps-result fs q,
      Keeps-result fs p,
    )

pub Keeps-parsed : (v : Option Value) (p : Parser) → Keeps p (parsed v p)
unfolding parsed
Keeps-parsed (some (obj fs)) p = go (lookup (codes "type") fs)
  where
    event : (o : Provider) (type : Text) → Keeps p (event_of o type fs p)
    event codex type = Keeps-codex type fs p
    event claude type = Keeps-claude type fs p

    go : (t : Option Value) → Keeps p (typed_event t fs p)
    go (some (str type)) = event p.provider type
    go none = ground arith
    go (some null) = ground arith
    go (some (bool b)) = ground arith
    go (some (num k)) = ground arith
    go (some other_num) = ground arith
    go (some (arr xs)) = ground arith
    go (some (obj gs)) = ground arith
Keeps-parsed none p = ground arith
Keeps-parsed (some null) p = ground arith
Keeps-parsed (some (bool b)) p = ground arith
Keeps-parsed (some (num k)) p = ground arith
Keeps-parsed (some other_num) p = ground arith
Keeps-parsed (some (arr xs)) p = ground arith
Keeps-parsed (some (str s)) p = ground arith
