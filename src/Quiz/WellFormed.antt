-- ===== src/Quiz/WellFormed.antt =====
-- What parse_structured_quiz guarantees about the quizzes that it accepts.
use onboard_ai.Common.{
  ℕ, suc, ◌≤◌, ◌≡◌, refl, arith, Bool, true, false, ◌||◌, not, List, [], ◌∷◌, map, all, All, length,
  leb, leb→le, ok, validation, >>=-ok, require-ok, given-ok, ok-injective, subst,
}
use onboard_ai.Common.Text.{Text, codes, text_eq_sym}
use onboard_ai.Common.Json.{Json, get, has_key, is_object, as_list, filled, as_filled}
use onboard_ai.Quiz.{
  max_questions, max_options, question_text_max, QuestionType, single_choice, multiple_choice,
  QuizOption, StructuredQuestion, StructuredQuiz, is_in, distinct, option_ids, question_ids,
  parse_option, parse_options, parse_ids, is_empty, parse_correct, parse_type, parse_explanation,
  has_right_count, parse_structured_question, parse_questions, parse_structured_quiz,
  is_structured_question, is_pass_mark, passing_score,
}

-- No identifier of the list is one of `seen`.
abbrev pub apart : List Text → List Text → Bool
apart seen ids = all (λ id. not (is_in id seen)) ids

apart-cons :
    (id : Text) (seen ids : List Text)
    → apart (id ∷ seen) ids ≡ true
    → (is_in id ids ≡ false) × (apart seen ids ≡ true)
apart-cons id seen [] h = (refl, refl)
apart-cons id seen (x ∷ xs) h = ground (arith, text_eq_sym x id, apart-cons id seen xs)

-- One more identifier in front of the distinct others that were read with it seen.
pub distinct-cons :
    (id : Text) (seen ids : List Text)
    → not (is_in id seen) ≡ true
    → apart (id ∷ seen) ids ≡ true
    → distinct ids ≡ true
    → (distinct (id ∷ ids) ≡ true) × (apart seen (id ∷ ids) ≡ true)
unfolding distinct
distinct-cons id seen ids new h others =
    let split = apart-cons id seen ids h in rw (split.0, new, split.1, others) (refl, refl)

module _ (show : Json → Text) where
  parse_option-fresh :
      (index : ℕ) (seen : List Text) (item : Json) {o : QuizOption}
      → parse_option show index seen item ≡ ok o
      → not (is_in o.id seen) ≡ true
  unfolding parse_option
  parse_option-fresh index seen item {o = o} h = ground arith

  parse_options-distinct :
      (index : ℕ) (seen : List Text) (raw : List Json) {os : List QuizOption}
      → parse_options show index seen raw ≡ ok os
      → (length os ≡ length raw)
        × (distinct (map (λ (o : QuizOption). o.id) os) ≡ true)
        × (apart seen (map (λ (o : QuizOption). o.id) os) ≡ true)
  unfolding parse_options distinct
  parse_options-distinct index seen [] {os = os} h = ground arith
  parse_options-distinct index seen (item ∷ raw) {os = os} h =
      let (o, first, more) = >>=-ok (parse_option show index seen item) _ h in
      let (rest, others, last) = >>=-ok (parse_options show (suc index) (o.id ∷ seen) raw) _ more in
      let new = parse_option-fresh index seen item first in
      let ih = parse_options-distinct (suc index) (o.id ∷ seen) raw others in
      let distinct_ids =
        distinct-cons o.id seen (map (λ (o : QuizOption). o.id) rest) new ih.2 ih.1 in
      ground (arith, last, ih.0, distinct_ids)

parse_ids-length :
    (raw : List Json) {ids : List Text} → parse_ids raw ≡ ok ids → length ids ≡ length raw
unfolding parse_ids
parse_ids-length [] h = ground arith
parse_ids-length (r ∷ raw) h =
    let (id, first, more) = given-ok validation (as_filled r) _ h in
    let (rest, others, last) = >>=-ok (parse_ids raw) _ more in
    ground (arith, last, parse_ids-length raw others)

-- The right options of a question are some of its options, each named once.
abbrev pub IsKey : QuestionType → List QuizOption → List Text → Type 0
IsKey kind options ids =
    (1 ≤ length ids)
    × (distinct ids ≡ true)
    × (all (λ id. is_in id (map (λ (o : QuizOption). o.id) options)) ids ≡ true)
    × (kind ≡ single_choice → length ids ≡ 1)

right_count :
    (kind : QuestionType) (ids : List Text)
    → has_right_count kind ids ≡ true
    → kind ≡ single_choice
    → length ids ≡ 1
unfolding has_right_count
right_count single_choice ids h k = ground arith
right_count multiple_choice ids h k = cc

is_empty-length : (raw : List Json) → not (is_empty raw) ≡ true → 1 ≤ length raw
unfolding is_empty
is_empty-length [] h = cc
is_empty-length (r ∷ raw) h = omega arith

parse_correct-IsKey :
    (kind : QuestionType) (options : List QuizOption) (raw : Json) {ids : List Text}
    → parse_correct kind options raw ≡ ok ids
    → IsKey kind options ids
unfolding parse_correct
parse_correct-IsKey kind options raw {ids = ids} h =
    let (listed, _, some_listed) = given-ok validation (as_list raw) _ h in
    let (filled, more) = require-ok (not (is_empty listed)) validation _ some_listed in
    let (read, reading, checks) = >>=-ok (parse_ids listed) _ more in
    ground (
      arith,
      checks,
      filled,
      is_empty-length listed,
      parse_ids-length listed reading,
      right_count kind read,
    )

-- A question that can be answered: two to twelve options with different ids, and a key among them.
abbrev pub IsWellFormed : StructuredQuestion → Type 0
IsWellFormed q =
    (length q.label ≤ question_text_max)
    × (2 ≤ length q.options)
    × (length q.options ≤ max_options)
    × (distinct (option_ids q) ≡ true)
    × IsKey q.kind q.options q.correct_option_ids

module _ (show : Json → Text) where
  parse_structured_question-IsWellFormed :
      (index : ℕ) (item : Json) {q : StructuredQuestion}
      → parse_structured_question show index item ≡ ok q
      → IsWellFormed q
  unfolding parse_structured_question
  parse_structured_question-IsWellFormed index item {q = q} h =
      let (kind, typed, h1) = >>=-ok (parse_type (get (codes "type") item)) _ h in
      let (label, named, h2) = given-ok validation (as_filled (get (codes "text") item)) _ h1 in
      let (short, h3) = require-ok (leb (length label) question_text_max) validation _ h2 in
      let (raw, listed, h4) = given-ok validation (as_list (get (codes "options") item)) _ h3 in
      let (two, h5) = require-ok (leb 2 (length raw)) validation _ h4 in
      let (twelve, h6) = require-ok (leb (length raw) max_options) validation _ h5 in
      let (options, parsed, h7) = >>=-ok (parse_options show 0 [] raw) _ h6 in
      let (correct, keyed, h8) =
        >>=-ok (parse_correct kind options (get (codes "correct_option_ids") item)) _ h7 in
      let (explanation, explained, h9) =
        >>=-ok (parse_explanation (get (codes "explanation") item)) _ h8 in
      let size = parse_options-distinct show 0 [] raw parsed in
      let key = parse_correct-IsKey kind options (get (codes "correct_option_ids") item) keyed in
      let (plain, last) =
        require-ok (not (has_key (codes "correct") item || has_key (codes "answer") item))
          validation _ h9 in
      subst IsWellFormed (ok-injective last)
        (leb→le _ _ short, ground (arith, two, size.0), ground (arith, twelve, size.0), size.1, key)

  parse_questions-IsWellFormed :
      (index : ℕ) (seen : List Text) (raw : List Json) {qs : List StructuredQuestion}
      → parse_questions show index seen raw ≡ ok qs
      → (length qs ≡ length raw)
        × (distinct (question_ids qs) ≡ true)
        × (apart seen (question_ids qs) ≡ true)
        × All IsWellFormed qs
  unfolding parse_questions
  parse_questions-IsWellFormed index seen [] {qs = qs} h =
      subst
        (λ qs.
          (length qs ≡ 0)
          × (distinct (question_ids qs) ≡ true)
          × (apart seen (question_ids qs) ≡ true)
          × All IsWellFormed qs)
        (ok-injective h) (refl, refl, refl, tt)
  parse_questions-IsWellFormed index seen (item ∷ raw) h =
      let (object, h1) = require-ok (is_object item) validation _ h in
      let (q, first, h2) = >>=-ok (parse_structured_question show index item) _ h1 in
      let (new, h3) = require-ok (not (is_in q.id seen)) validation _ h2 in
      let (rest, others, last) = >>=-ok (parse_questions show (suc index) (q.id ∷ seen) raw) _ h3 in
      let ih = parse_questions-IsWellFormed (suc index) (q.id ∷ seen) raw others in
      let ids = distinct-cons q.id seen (question_ids rest) new ih.2 ih.1 in
      subst
        (λ qs.
          (length qs ≡ suc (length raw))
          × (distinct (question_ids qs) ≡ true)
          × (apart seen (question_ids qs) ≡ true)
          × All IsWellFormed qs)
        (ok-injective last)
        (
          omega (arith, ih.0),
          ids.0,
          ids.1,
          (parse_structured_question-IsWellFormed index item first, ih.3),
        )

-- The quizzes that are accepted have one to twenty questions with different ids, all well formed, and
-- the fixed pass mark.
abbrev pub IsWellFormedQuiz : StructuredQuiz → Type 0
IsWellFormedQuiz quiz =
    (1 ≤ length quiz.questions)
    × (length quiz.questions ≤ max_questions)
    × (distinct (question_ids quiz.questions) ≡ true)
    × All IsWellFormed quiz.questions
    × (quiz.pass_mark ≡ passing_score)

-- Whatever the content is, if it parses as a structured quiz then it has one to twenty questions with
-- different ids, each with two to twelve options of different ids, its correct options are among
-- them, at least one, no one twice, and exactly one where the question has a single choice.
pub parsed_well :
    (show : Json → Text) (content : Json) (quiz : StructuredQuiz)
    → parse_structured_quiz show content ≡ ok quiz
    → IsWellFormedQuiz quiz
unfolding parse_structured_quiz
parsed_well show content quiz h =
    let (object, h1) = require-ok (is_object content) validation _ h in
    let (raw, listed, h2) = given-ok validation (as_list (get (codes "questions") content)) _ h1 in
    let (filled, h3) = require-ok (not (is_empty raw)) validation _ h2 in
    let (few, h4) = require-ok (leb (length raw) max_questions) validation _ h3 in
    let (structured, h5) = require-ok (all is_structured_question raw) validation _ h4 in
    let (mark, h6) =
      require-ok (is_pass_mark (get (codes "passing_score") content)) validation _ h5 in
    let (questions, parsed, last) = >>=-ok (parse_questions show 0 [] raw) _ h6 in
    let (size, ids, _, each) = parse_questions-IsWellFormed show 0 [] raw parsed in
    subst IsWellFormedQuiz (ok-injective last)
      (omega (arith, size, is_empty-length raw filled), ground (arith, size, few), ids, each, refl)
