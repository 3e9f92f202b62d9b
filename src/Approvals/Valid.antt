-- ===== src/Approvals/Valid.antt =====
-- What an accepted approval request says, and that settling it keeps that.
use mathlib.Core.Path.{subst}
use codevo_runner.Prelude.{
  ◌≤◌, ◌≡◌, refl, true, false, ◌&&◌, Option, none, some, List, [], ◌∷◌, arith, ltb, length, All,
  Text, codes,
}
use codevo_runner.Prelude.Utf8.{encode}
use codevo_runner.Json.{Value, Fields, lookup, null, bool, num, other_num, str, arr, obj}
use codevo_runner.Contracts.{guard, bind-ok, guard-true, is_id, invalid_input, ok}
use codevo_runner.Inputs.{
  record_of, text_of, choose, member, array_of, each, text_of-fits, length-each, each-All,
  array_of-length,
}
use codevo_runner.Approvals.{
  unanswered, approved, denied, is_unanswered, Decision, Status, Fact, Input, Request, kinds,
  all_decisions, allowing_decisions, providers, StatusText, statuses, fields_of, offers,
  distinct_decisions, identifier, timestamp, bool_of, parse_fact, parse_decisions, parse_input,
  parse_status, parse_request, parse_answer, settled_approval, allow_once, allow_for_session, deny,
  is_approved, is_denied,
}
use codevo_runner.Approvals.Dates.{is_timestamp}

abbrev pub Agrees : List Decision → Status → Type 0
Agrees ds (approved deny) = ⊥
Agrees ds (approved d) = offers ds d ≡ true
Agrees ds denied = offers ds deny ≡ true
Agrees ds _ = Unit

pub record IsInput (i : Input) : Type 0 where
  pub title : length (encode i.title) ≤ 256
  pub detail : length (encode i.detail) ≤ 16384
  pub facts : length i.facts ≤ 8
  pub labels : All (λ f. (length (encode f.label) ≤ 64) × (length (encode f.value) ≤ 2048)) i.facts
  pub decisions : distinct_decisions i.decisions ≡ true
  pub deniable : offers i.decisions deny ≡ true

pub record IsRequest (r : Request) : Type 0 where
  pub input : IsInput r.input
  pub id : is_id r.id ≡ true
  pub task_id : is_id r.task_id ≡ true
  pub expires_at : is_timestamp r.expires_at ≡ true
  pub agrees : Agrees r.input.decisions r.status

identifier-ok : (v : Option Value) (s : Text) → identifier v ≡ ok s → is_id s ≡ true
unfolding identifier
identifier-ok (some (str t)) s h = ground arith
identifier-ok none s h = ground arith
identifier-ok (some null) s h = ground arith
identifier-ok (some (bool b)) s h = ground arith
identifier-ok (some (num n)) s h = ground arith
identifier-ok (some other_num) s h = ground arith
identifier-ok (some (arr xs)) s h = ground arith
identifier-ok (some (obj fs)) s h = ground arith

timestamp-ok : (v : Option Value) (s : Text) → timestamp v ≡ ok s → is_timestamp s ≡ true
unfolding timestamp
timestamp-ok (some (str t)) s h = ground arith
timestamp-ok none s h = ground arith
timestamp-ok (some null) s h = ground arith
timestamp-ok (some (bool b)) s h = ground arith
timestamp-ok (some (num n)) s h = ground arith
timestamp-ok (some other_num) s h = ground arith
timestamp-ok (some (arr xs)) s h = ground arith
timestamp-ok (some (obj fs)) s h = ground arith

fact-ok :
    (v : Value) (f : Fact)
    → parse_fact v ≡ ok f
    → (length (encode f.label) ≤ 64) × (length (encode f.value) ≤ 2048)
unfolding parse_fact
fact-ok v f h =
    let (fs, e0, h1) = bind-ok (record_of v (codes "label" ∷ codes "value" ∷ [])) _ f h in
    let (l, e1, h2) = bind-ok (text_of (lookup (codes "label") fs) 64 false) _ f h1 in
    let (w, e2, h3) = bind-ok (text_of (lookup (codes "value") fs) 2048 true) _ f h2 in
    ground (
      arith,
      h3,
      text_of-fits (lookup (codes "label") fs) 64 false l e1,
      text_of-fits (lookup (codes "value") fs) 2048 true w e2,
    )

decisions-ok :
    (v : Option Value) (ds : List Decision)
    → parse_decisions v ≡ ok ds
    → (distinct_decisions ds ≡ true) × (offers ds deny ≡ true)
unfolding parse_decisions
decisions-ok v ds h =
    let (raw, e0, h1) = bind-ok (array_of v 3) _ ds h in
    let (u, e1, h2) = bind-ok (guard (ltb 0 (length raw)) invalid_input) _ ds h1 in
    let (es, e2, h3) = bind-ok (each (λ item. member (some item) all_decisions) raw) _ ds h2 in
    let (w, e3, h4) =
      bind-ok (guard (distinct_decisions es && offers es deny) invalid_input) _ ds h3 in
    let same : es ≡ ds = ground (arith, h4) in
    subst (λ ds. (distinct_decisions ds ≡ true) × (offers ds deny ≡ true)) same
      (ground (arith, guard-true (distinct_decisions es && offers es deny) invalid_input w e3))

input-IsInput : (fs : Fields) (i : Input) → parse_input fs ≡ ok i → IsInput i
unfolding parse_input
input-IsInput fs i h =
    let (b, e0, h1) = bind-ok (bool_of (lookup (codes "detailTruncated") fs)) _ i h in
    let (k, e1, h2) = bind-ok (member (lookup (codes "kind") fs) kinds) _ i h1 in
    let (t, e2, h3) = bind-ok (text_of (lookup (codes "title") fs) 256 false) _ i h2 in
    let (d, e3, h4) = bind-ok (text_of (lookup (codes "detail") fs) 16384 true) _ i h3 in
    let (raw, e4, h5) = bind-ok (array_of (lookup (codes "facts") fs) 8) _ i h4 in
    let (facts, e5, h6) = bind-ok (each parse_fact raw) _ i h5 in
    let (ds, e6, h7) = bind-ok (parse_decisions (lookup (codes "decisions") fs)) _ i h6 in
    let made : Input = record {
      kind = k;
      title = t;
      detail = d;
      detail_truncated = b;
      facts = facts;
      decisions = ds;
    } in
    let same : made ≡ i = ground (arith, h7) in
    let offered = decisions-ok (lookup (codes "decisions") fs) ds e6 in
    subst IsInput same (record {
      title = (text_of-fits (lookup (codes "title") fs) 256 false t e2).0;
      detail = (text_of-fits (lookup (codes "detail") fs) 16384 true d e3).0;
      facts = omega (
        arith,
        length-each parse_fact raw facts e5,
        array_of-length (lookup (codes "facts") fs) 8 raw e4,
      );
      labels =
          each-All (λ f. (length (encode f.label) ≤ 64) × (length (encode f.value) ≤ 2048))
            parse_fact raw facts fact-ok e5;
      decisions = offered.0;
      deniable = offered.1;
    })

allowing-offered :
    (ds : List Decision) (d : Decision) (s : Text)
    → choose s allowing_decisions ≡ ok d
    → offers ds d ≡ true
    → Agrees ds (approved d)
allowing-offered ds allow_once s h o = o
allowing-offered ds allow_for_session s h o = o
allowing-offered ds deny s h o = ground arith

allowing-Agrees :
    (v : Option Value) (ds : List Decision) (d : Decision)
    → member v allowing_decisions ≡ ok d
    → offers ds d ≡ true
    → Agrees ds (approved d)
allowing-Agrees (some (str s)) ds d h o = allowing-offered ds d s h o
allowing-Agrees none ds d h o = ground arith
allowing-Agrees (some null) ds d h o = ground arith
allowing-Agrees (some (bool b)) ds d h o = ground arith
allowing-Agrees (some (num n)) ds d h o = ground arith
allowing-Agrees (some other_num) ds d h o = ground arith
allowing-Agrees (some (arr xs)) ds d h o = ground arith
allowing-Agrees (some (obj fs)) ds d h o = ground arith

status-Agrees :
    (fs : Fields) (t : StatusText) (ds : List Decision) (s : Status)
    → offers ds deny ≡ true
    → parse_status fs t ds ≡ ok s
    → Agrees ds s
unfolding parse_status
status-Agrees fs (is_unanswered u) ds s o h =
    let same : unanswered u ≡ s = ground (arith, h) in subst (Agrees ds) same tt
status-Agrees fs is_approved ds s o h =
    let (d, e0, h1) = bind-ok (member (lookup (codes "decision") fs) allowing_decisions) _ s h in
    let (w, e1, h2) = bind-ok (guard (offers ds d) invalid_input) _ s h1 in
    let same : approved d ≡ s = ground (arith, h2) in
    subst (Agrees ds) same (
      allowing-Agrees (lookup (codes "decision") fs) ds d e0
        (guard-true (offers ds d) invalid_input w e1))
status-Agrees fs is_denied ds s o h =
    let same : denied ≡ s = ground (arith, h) in subst (Agrees ds) same o

-- An accepted request keeps every limit, its decisions are distinct and have `deny` among them, its
-- ids and time are well-formed, and a decision that its status carries is one that it offers,
-- which is not `deny` if it is approved.
pub parse_request-IsRequest :
    (item : Fields) (r : Request) → parse_request (obj item) ≡ ok r → IsRequest r
unfolding parse_request
parse_request-IsRequest item r h =
    let (t, e0, h1) = bind-ok (member (lookup (codes "status") item) statuses) _ r h in
    let (fs, e1, h2) = bind-ok (record_of (obj item) (fields_of t)) _ r h1 in
    let (i, e2, h3) = bind-ok (parse_input fs) _ r h2 in
    let (id, e3, h4) = bind-ok (identifier (lookup (codes "id") fs)) _ r h3 in
    let (task, e4, h5) = bind-ok (identifier (lookup (codes "taskId") fs)) _ r h4 in
    let (p, e5, h6) = bind-ok (member (lookup (codes "provider") fs) providers) _ r h5 in
    let (x, e6, h7) = bind-ok (timestamp (lookup (codes "expiresAt") fs)) _ r h6 in
    let (s, e7, h8) = bind-ok (parse_status fs t i.decisions) _ r h7 in
    let made : Request = record {
      id = id;
      task_id = task;
      provider = p;
      input = i;
      status = s;
      expires_at = x;
    } in
    let same : made ≡ r = ground (arith, h8) in
    let valid = input-IsInput fs i e2 in
    subst IsRequest same (record {
      input = valid;
      id = identifier-ok (lookup (codes "id") fs) id e3;
      task_id = identifier-ok (lookup (codes "taskId") fs) task e4;
      expires_at = timestamp-ok (lookup (codes "expiresAt") fs) x e6;
      agrees = status-Agrees fs t i.decisions s valid.deniable e7;
    })

abbrev Settles : Request → Decision → Type 0
Settles r d =
    IsRequest (settled_approval r d)
    × (record r { status = (settled_approval r d).status } ≡ settled_approval r d)

settled :
    {r : Request} {s : Status}
    → IsRequest r
    → Agrees r.input.decisions s
    → IsRequest (record r { status = s })
settled w h = record {
  input = w.input;
  id = w.id;
  task_id = w.task_id;
  expires_at = w.expires_at;
  agrees = h;
}

settled-Settles :
    (r : Request) (d : Decision) → IsRequest r → offers r.input.decisions d ≡ true → Settles r d
unfolding settled_approval
settled-Settles r allow_once w h = (settled w h, refl)
settled-Settles r allow_for_session w h = (settled w h, refl)
settled-Settles r deny w h = (settled w h, refl)

-- The answer to a well-formed request settles it as a well-formed request, with nothing but the
-- status changed.
pub answered-IsRequest :
    (v : Value) (r : Request) (d : Decision)
    → IsRequest r
    → parse_answer v r ≡ ok d
    → IsRequest (settled_approval r d)
      × (record r { status = (settled_approval r d).status } ≡ settled_approval r d)
unfolding parse_answer
answered-IsRequest v r d w h =
    let (fs, e0, h1) = bind-ok (record_of v (codes "decision" ∷ [])) _ d h in
    let (e, e1, h2) = bind-ok (member (lookup (codes "decision") fs) all_decisions) _ d h1 in
    let (u, e2, h3) = bind-ok (guard (offers r.input.decisions e) invalid_input) _ d h2 in
    let same : e ≡ d = ground (arith, h3) in
    subst (Settles r) same
      (settled-Settles r e w (guard-true (offers r.input.decisions e) invalid_input u e2))
