-- ===== src/Questions/Answers.antt =====
-- src/domain/questions.ts: what an accepted response answers.
use codevo_runner.Prelude.Spaces.{is_space, is_blank, not_blank}
use codevo_runner.Questions.{
  Question, Answer, id_of, find_question, fits_question, parse_answer, parse_answers,
  parse_response,
}
use mathlib.Core.Path.{subst}
use codevo_runner.Prelude.{
  ◌≤◌, ◌<◌, ◌≡◌, refl, sym, ap, ◌∙◌, ◌⊎◌, inl, inr, Bool, true, false, not, ◌&&◌, ◌||◌, Option,
  some, List, [], ◌∷◌, map, arith, ltb, leb, ◌==◌, ltb→lt, &&-both, ||-either, length, any, all,
  find, All, Any, Any-any, All-all, Text, codes, text_eq, eq_of_text_eq,
}
use codevo_runner.Json.{Value, lookup}
use codevo_runner.Contracts.{guard, bind-ok, guard-true, invalid_input, ok}
use codevo_runner.Inputs.{
  record_of, text_of, array_of, each, distinct, length-each, each-All, array_of-length, NoRepeat,
  NoRepeat-distinct,
}

-- What a question allows: options of its own, each at most once, several only if it is multiple, a
-- text only if it allows one, and an option or a text with a character that is no space.
pub record Allows (q : Question) (option_ids : List Text) (text : Text) : Type 0 where
  pub offered : All (λ id. Any (λ o. o.id ≡ id) q.options) option_ids
  pub unrepeated : NoRepeat option_ids
  pub single : (q.multiple ≡ true) ⊎ (length option_ids ≤ 1)
  pub custom : (q.allow_custom ≡ true) ⊎ (text ≡ [])
  pub said : (0 < length option_ids) ⊎ Any (λ c. is_space c ≡ false) text

-- An answer to one of the questions, as that question allows it.
pub record IsAnswerTo (questions : List Question) (a : Answer) : Type 0 where
  pub question : Question
  pub among : Any (λ q. q ≡ question) questions
  pub named : question.id ≡ a.question_id
  pub allowed : Allows question a.option_ids a.text

abbrev pub AnswersAll : List Question → List Answer → Type 0
AnswersAll questions answers =
    All (IsAnswerTo questions) answers
    × NoRepeat (map (λ a. a.question_id) answers)
    × (length answers ≡ length questions)
    × (length answers ≤ 4)

find-found :
    (id : Text) (questions : List Question) (q : Question)
    → find (λ r. text_eq r.id id) questions ≡ some q
    → Any (λ r. r ≡ q) questions × (q.id ≡ id)
find-found id [] q h = cc
find-found id (r ∷ questions) q h = go (text_eq r.id id) refl (find-found id questions q) h
  where
    go :
        (b : Bool)
        → text_eq r.id id ≡ b
        → (find (λ r. text_eq r.id id) questions ≡ some q
            → Any (λ r. r ≡ q) questions × (q.id ≡ id))
        → elim b [ true ↦ some r | false ↦ find (λ r. text_eq r.id id) questions ] ≡ some q
        → Any (λ r. r ≡ q) (r ∷ questions) × (q.id ≡ id)
    go true e ih k =
        let same : r ≡ q = ground (arith, k) in
        (inl same, ap (λ (s : Question). s.id) (sym same) ∙ eq_of_text_eq r.id id e)
    go false e ih k = let (a, b) = ih k in (inr a, b)

find_question-found :
    (id : Text) (questions : List Question) (q : Question)
    → find_question id questions ≡ ok q
    → Any (λ r. r ≡ q) questions × (q.id ≡ id)
find_question-found id questions q h = find-found id questions q (ground (arith, h))

fits_question-Allows :
    (q : Question) (ids : List Text) (text : Text)
    → fits_question q ids text ≡ true
    → Allows q ids text
unfolding fits_question
fits_question-Allows q ids text h =
    let unique = distinct ids in
    let few = q.multiple || leb (length ids) 1 in
    let known = all (λ id. any (λ o. text_eq o.id id) q.options) ids in
    let allowed = q.allow_custom || text_eq text [] in
    let full = ltb 0 (length ids) || not (is_blank text) in
    let (h1, e) = &&-both (unique && few && known && allowed) full h in
    let (h2, d) = &&-both (unique && few && known) allowed h1 in
    let (h3, c) = &&-both (unique && few) known h2 in
    let (a, b) = &&-both unique few h3 in
    record {
      offered =
          All-all (λ id. any (λ o. text_eq o.id id) q.options)
            (λ id. Any (λ o. o.id ≡ id) q.options) ids
            (λ id.
              Any-any (λ o. text_eq o.id id) (λ o. o.id ≡ id) q.options
                (λ o. eq_of_text_eq o.id id))
            c;
      unrepeated = NoRepeat-distinct ids a;
      single = ground (arith, ||-either q.multiple (leb (length ids) 1) b);
      custom = elim (||-either q.allow_custom (text_eq text []) d) [
        | inl t ↦ inl t
        | inr t ↦ inr (eq_of_text_eq text [] t)
      ];
      said = elim (||-either (ltb 0 (length ids)) (not (is_blank text)) e) [
        | inl t ↦ inl (ltb→lt 0 (length ids) t)
        | inr t ↦ inr (not_blank text t)
      ];
    }

answer-IsAnswerTo :
    (questions : List Question) (v : Value) (a : Answer)
    → parse_answer questions v ≡ ok a
    → IsAnswerTo questions a
unfolding parse_answer
answer-IsAnswerTo questions v a h =
    let (fs, e0, h1) =
      bind-ok (record_of v (codes "questionId" ∷ codes "optionIds" ∷ codes "text" ∷ [])) _ a h in
    let (id, e1, h2) = bind-ok (id_of (lookup (codes "questionId") fs)) _ a h1 in
    let (q, e2, h3) = bind-ok (find_question id questions) _ a h2 in
    let (raw, e3, h4) = bind-ok (array_of (lookup (codes "optionIds") fs) 12) _ a h3 in
    let (ids, e4, h5) = bind-ok (each (λ v. id_of (some v)) raw) _ a h4 in
    let (text, e5, h6) = bind-ok (text_of (lookup (codes "text") fs) 8192 true) _ a h5 in
    let (u, e6, h7) = bind-ok (guard (fits_question q ids text) invalid_input) _ a h6 in
    let same : record { question_id = id; option_ids = ids; text = text } ≡ a =
      ground (arith, h7) in
    subst (IsAnswerTo questions) same (record {
      question = q;
      among = (find_question-found id questions q e2).0;
      named = (find_question-found id questions q e2).1;
      allowed =
          fits_question-Allows q ids text
            (guard-true (fits_question q ids text) invalid_input u e6);
    })

answers-AnswersAll :
    (v : Option Value) (questions : List Question) (answers : List Answer)
    → parse_answers v questions ≡ ok answers
    → AnswersAll questions answers
unfolding parse_answers
answers-AnswersAll v questions answers h =
    let (raw, e0, h1) = bind-ok (array_of v 4) _ answers h in
    let (given, e1, h2) = bind-ok (each (parse_answer questions) raw) _ answers h1 in
    let (u, e2, h3) =
      bind-ok (guard (distinct (map (λ a. a.question_id) given)) invalid_input) _ answers h2 in
    let (w, e3, h4) =
      bind-ok (guard (length given == length questions) invalid_input) _ answers h3 in
    let same : given ≡ answers = ground (arith, h4) in
    subst (AnswersAll questions) same (
      each-All (IsAnswerTo questions) (parse_answer questions) raw given
          (answer-IsAnswerTo questions) e1,
      NoRepeat-distinct (map (λ a. a.question_id) given)
          (guard-true (distinct (map (λ a. a.question_id) given)) invalid_input u e2),
      ground (arith, guard-true (length given == length questions) invalid_input w e3),
      omega (arith, length-each (parse_answer questions) raw given e1, array_of-length v 4 raw e0),
    )

-- An accepted response answers as many questions as were asked, at most 4 and no id twice: every
-- answer names a question that was asked, picks options of that question, none twice and more than
-- one only if it is multiple, has a text of its own only if it allows one, and picks an option or has
-- a character that is no space.
pub response-AnswersAll :
    (v : Value) (questions : List Question) (answers : List Answer)
    → parse_response v questions ≡ ok answers
    → AnswersAll questions answers
unfolding parse_response
response-AnswersAll v questions answers h =
    let (fs, e0, h1) = bind-ok (record_of v (codes "answers" ∷ [])) _ answers h in
    answers-AnswersAll (lookup (codes "answers") fs) questions answers h1
