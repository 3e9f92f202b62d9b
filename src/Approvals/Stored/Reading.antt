-- ===== src/Approvals/Stored/Reading.antt =====
-- src/domain/approvals.ts: reading back what src/infrastructure/sqlite/approval-database.ts has written.
use codevo_runner.Approvals.Valid.{parse_request-IsRequest, answered-IsRequest}
use mathlib.Core.Path.{subst}
use codevo_runner.Prelude.{
  ℕ, ◌≤◌, ◌≡◌, refl, ap, ◌∙◌, Bool, true, false, ◌&&◌, Option, none, some, List, [], ◌∷◌, map,
  arith, ltb, length, length-map, Text, codes, text_eq,
}
use codevo_runner.Json.{Value, Fields, items, lookup, null, bool, num, other_num, str, arr, obj}
use codevo_runner.Contracts.{guard, bind-ok, guard-true, invalid_input, ok}
use codevo_runner.Inputs.{record_of, text_of, member, array_of, each, length-each, array_of-length}
use codevo_runner.Approvals.{
  Decision, Fact, Input, Request, kinds, all_decisions, providers, statuses, fields_of, offers,
  distinct_decisions, identifier, timestamp, bool_of, parse_fact, parse_decisions, parse_input,
  parse_status, parse_request, parse_answer, settled_approval, allow_once, allow_for_session, deny,
}
use codevo_runner.Approvals.Stored.{
  to_items, decision_text, print_fact, print_decision, print, Reads, parse_request-print,
}

identifier-again :
    (v : Option Value) (s : Text) → identifier v ≡ ok s → identifier (some (str s)) ≡ ok s
unfolding identifier
identifier-again (some (str t)) s h = ground arith
identifier-again none s h = ground arith
identifier-again (some null) s h = ground arith
identifier-again (some (bool b)) s h = ground arith
identifier-again (some (num n)) s h = ground arith
identifier-again (some other_num) s h = ground arith
identifier-again (some (arr xs)) s h = ground arith
identifier-again (some (obj fs)) s h = ground arith

timestamp-again :
    (v : Option Value) (s : Text) → timestamp v ≡ ok s → timestamp (some (str s)) ≡ ok s
unfolding timestamp
timestamp-again (some (str t)) s h = ground arith
timestamp-again none s h = ground arith
timestamp-again (some null) s h = ground arith
timestamp-again (some (bool b)) s h = ground arith
timestamp-again (some (num n)) s h = ground arith
timestamp-again (some other_num) s h = ground arith
timestamp-again (some (arr xs)) s h = ground arith
timestamp-again (some (obj fs)) s h = ground arith

text_of-again :
    (v : Option Value) (max : ℕ) (blank : Bool) (s : Text)
    → text_of v max blank ≡ ok s
    → text_of (some (str s)) max blank ≡ ok s
unfolding text_of
text_of-again (some (str t)) max blank s h = ground arith
text_of-again none max blank s h = ground arith
text_of-again (some null) max blank s h = ground arith
text_of-again (some (bool b)) max blank s h = ground arith
text_of-again (some (num n)) max blank s h = ground arith
text_of-again (some other_num) max blank s h = ground arith
text_of-again (some (arr xs)) max blank s h = ground arith
text_of-again (some (obj fs)) max blank s h = ground arith

items-to_items : (vs : List Value) → items (to_items vs) ≡ vs
items-to_items [] = refl
items-to_items (v ∷ vs) = ap (λ r. v ∷ r) (items-to_items vs)

array_of-to_items :
    (vs : List Value) (max : ℕ) → length vs ≤ max → array_of (some (arr (to_items vs))) max ≡ ok vs
array_of-to_items vs max h = rw (items-to_items vs) (ground arith)

fact-again : (v : Value) (f : Fact) → parse_fact v ≡ ok f → parse_fact (print_fact f) ≡ ok f
unfolding parse_fact
fact-again v f h =
    let (fs, e0, h1) = bind-ok (record_of v (codes "label" ∷ codes "value" ∷ [])) _ f h in
    let (l, e1, h2) = bind-ok (text_of (lookup (codes "label") fs) 64 false) _ f h1 in
    let (w, e2, h3) = bind-ok (text_of (lookup (codes "value") fs) 2048 true) _ f h2 in
    let made : Fact = record { label = l; value = w } in
    let same : made ≡ f = ground (arith, h3) in
    subst (λ f. parse_fact (print_fact f) ≡ ok f) same
      (unfold record_of lookup text_eq in
        rw
          (
            text_of-again (lookup (codes "label") fs) 64 false l e1,
            text_of-again (lookup (codes "value") fs) 2048 true w e2,
          )
          refl)

facts-again :
    (vs : List Value) (fs : List Fact)
    → each parse_fact vs ≡ ok fs
    → each parse_fact (map print_fact fs) ≡ ok fs
facts-again [] fs h =
    let same : [] ≡ fs = ground arith in
    subst (λ fs. each parse_fact (map print_fact fs) ≡ ok fs) same refl
facts-again (v ∷ vs) fs h =
    let (f, e0, h1) = bind-ok (parse_fact v) _ fs h in
    let (rest, e1, h2) = bind-ok (each parse_fact vs) _ fs h1 in
    let same : f ∷ rest ≡ fs = ground (arith, h2) in
    subst (λ fs. each parse_fact (map print_fact fs) ≡ ok fs) same
      (rw (fact-again v f e0, facts-again vs rest e1) refl)

member-decision : (d : Decision) → member (some (str (decision_text d))) all_decisions ≡ ok d
unfolding text_eq
member-decision allow_once = refl
member-decision allow_for_session = refl
member-decision deny = refl

each-decisions :
    (ds : List Decision)
    → each (λ item. member (some item) all_decisions) (map print_decision ds) ≡ ok ds
each-decisions [] = refl
each-decisions (d ∷ ds) = rw (member-decision d, each-decisions ds) refl

decisions-again :
    (v : Option Value) (ds : List Decision)
    → parse_decisions v ≡ ok ds
    → parse_decisions (some (arr (to_items (map print_decision ds)))) ≡ ok ds
unfolding parse_decisions
decisions-again v ds h =
    let (raw, e0, h1) = bind-ok (array_of v 3) _ ds h in
    let (u, e1, h2) = bind-ok (guard (ltb 0 (length raw)) invalid_input) _ ds h1 in
    let (es, e2, h3) = bind-ok (each (λ item. member (some item) all_decisions) raw) _ ds h2 in
    let (w, e3, h4) =
      bind-ok (guard (distinct_decisions es && offers es deny) invalid_input) _ ds h3 in
    let same : es ≡ ds = ground (arith, h4) in
    let many : length (map print_decision es) ≡ length raw =
      length-map print_decision es
      ∙ length-each (λ item. member (some item) all_decisions) raw es e2 in
    let most : length raw ≤ 3 = array_of-length v 3 raw e0 in
    let least : ltb 0 (length raw) ≡ true = guard-true (ltb 0 (length raw)) invalid_input u e1 in
    let good : (distinct_decisions es && offers es deny) ≡ true =
      guard-true (distinct_decisions es && offers es deny) invalid_input w e3 in
    subst (λ ds. parse_decisions (some (arr (to_items (map print_decision ds)))) ≡ ok ds) same
      (rw
        (
          array_of-to_items (map print_decision es) 3 (omega (arith, many, most)),
          many,
          least,
          each-decisions es,
          good,
        )
        refl)

input-Reads :
    (fs : Fields) (i : Input) (r : Request)
    → parse_input fs ≡ ok i
    → r.input ≡ i
    → identifier (some (str r.id)) ≡ ok r.id
    → identifier (some (str r.task_id)) ≡ ok r.task_id
    → timestamp (some (str r.expires_at)) ≡ ok r.expires_at
    → Reads r
unfolding parse_input
input-Reads fs i r h q a b c =
    let (t, e0, h1) = bind-ok (bool_of (lookup (codes "detailTruncated") fs)) _ i h in
    let (k, e1, h2) = bind-ok (member (lookup (codes "kind") fs) kinds) _ i h1 in
    let (title, e2, h3) = bind-ok (text_of (lookup (codes "title") fs) 256 false) _ i h2 in
    let (detail, e3, h4) = bind-ok (text_of (lookup (codes "detail") fs) 16384 true) _ i h3 in
    let (raw, e4, h5) = bind-ok (array_of (lookup (codes "facts") fs) 8) _ i h4 in
    let (facts, e5, h6) = bind-ok (each parse_fact raw) _ i h5 in
    let (ds, e6, h7) = bind-ok (parse_decisions (lookup (codes "decisions") fs)) _ i h6 in
    let made : Input = record {
      kind = k;
      title = title;
      detail = detail;
      detail_truncated = t;
      facts = facts;
      decisions = ds;
    } in
    let same : made ≡ r.input = ground (arith, h7, q) in
    let many : length (map print_fact facts) ≤ 8 = omega (
      arith,
      length-map print_fact facts,
      length-each parse_fact raw facts e5,
      array_of-length (lookup (codes "facts") fs) 8 raw e4,
    ) in
    record {
      id = a;
      task_id = b;
      expires_at = c;
      title =
          subst (λ i. text_of (some (str i.title)) 256 false ≡ ok i.title) same
            (text_of-again (lookup (codes "title") fs) 256 false title e2);
      detail =
          subst (λ i. text_of (some (str i.detail)) 16384 true ≡ ok i.detail) same
            (text_of-again (lookup (codes "detail") fs) 16384 true detail e3);
      few =
          subst
            (λ i.
              array_of (some (arr (to_items (map print_fact i.facts)))) 8
              ≡ ok (map print_fact i.facts))
            same (array_of-to_items (map print_fact facts) 8 many);
      facts =
          subst (λ i. each parse_fact (map print_fact i.facts) ≡ ok i.facts) same
            (facts-again raw facts e5);
      decisions =
          subst
            (λ i.
              parse_decisions (some (arr (to_items (map print_decision i.decisions))))
              ≡ ok i.decisions)
            same (decisions-again (lookup (codes "decisions") fs) ds e6);
    }

-- What was accepted has parts that are read back.
pub request-Reads : (item : Fields) (r : Request) → parse_request (obj item) ≡ ok r → Reads r
unfolding parse_request
request-Reads item r h =
    let (t, e0, h1) = bind-ok (member (lookup (codes "status") item) statuses) _ r h in
    let (fs, e1, h2) = bind-ok (record_of (obj item) (fields_of t)) _ r h1 in
    let (i, e2, h3) = bind-ok (parse_input fs) _ r h2 in
    let (id, e3, h4) = bind-ok (identifier (lookup (codes "id") fs)) _ r h3 in
    let (task, e4, h5) = bind-ok (identifier (lookup (codes "taskId") fs)) _ r h4 in
    let (p, e5, h6) = bind-ok (member (lookup (codes "provider") fs) providers) _ r h5 in
    let (x, e6, h7) = bind-ok (timestamp (lookup (codes "expiresAt") fs)) _ r h6 in
    let (s, e7, h8) = bind-ok (parse_status fs t i.decisions) _ r h7 in
    let made : Request = record {
      id = id;
      task_id = task;
      provider = p;
      input = i;
      status = s;
      expires_at = x;
    } in
    let same : made ≡ r = ground (arith, h8) in
    subst Reads same (
      input-Reads fs i made e2 refl (identifier-again (lookup (codes "id") fs) id e3)
        (identifier-again (lookup (codes "taskId") fs) task e4)
        (timestamp-again (lookup (codes "expiresAt") fs) x e6))

-- A request that was accepted is read back as it is from what is written of it, and so is the request
-- that any answer to it settles.
pub stored_again :
    (item : Fields) (w : Value) (r : Request) (d : Decision)
    → parse_request (obj item) ≡ ok r
    → parse_answer w r ≡ ok d
    → (parse_request (print r) ≡ ok r)
      × (parse_request (print (settled_approval r d)) ≡ ok (settled_approval r d))
stored_again item w r d h a =
    let valid = parse_request-IsRequest item r h in
    let (kept, same) = answered-IsRequest w r d valid a in
    let reads = request-Reads item r h in
    let reads1 : Reads (record r { status = (settled_approval r d).status }) = record {
      id = reads.id;
      task_id = reads.task_id;
      expires_at = reads.expires_at;
      title = reads.title;
      detail = reads.detail;
      few = reads.few;
      facts = reads.facts;
      decisions = reads.decisions;
    } in
    (
      parse_request-print r reads valid.agrees,
      parse_request-print (settled_approval r d) (subst Reads same reads1) kept.agrees,
    )
