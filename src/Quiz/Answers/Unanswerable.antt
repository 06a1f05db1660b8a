-- ===== src/Quiz/Answers/Unanswerable.antt =====
-- Identifiers that no answer can name: validate_quiz_answers strips the identifiers that it reads,
-- and those of the questions are cut after they are stripped.
use onboard_ai.Common.{
  ◌≡◌, ◌≢◌, refl, sym, subst, inl, inr, arith, Bool, true, some, List, [], ◌∷◌, all, All, Error, ok,
  err, validation, Result-cases, Bool-cases, >>=-ok, require-ok, given-ok, ok-injective,
}
use onboard_ai.Common.Text.{Text, codes, text_eq, text_eq_sound, strip, strip-strip}
use onboard_ai.Common.Json.{
  Json, null, boolean, number, real, text, array, object, get, is_object, as_list, filled,
  as_filled,
}
use onboard_ai.Quiz.{StructuredQuiz, is_in, question_ids, parse_structured_quiz}
use onboard_ai.Quiz.Answers.{
  Selected, selected_ids, read_answer, read_answers, validate_quiz_answers, score_structured_quiz,
}

filled_same : (s : Text) {id : Text} → filled s ≡ some id → s ≡ id
filled_same [] h = cc
filled_same (c ∷ cs) h = cc

as_filled-strip : (v : Json) {id : Text} → as_filled v ≡ some id → strip id ≡ id
unfolding as_filled
as_filled-strip (text s) {id = id} h =
    subst (λ t. strip t ≡ t) (filled_same (strip s) h) (strip-strip s)
as_filled-strip null h = cc
as_filled-strip (boolean b) h = cc
as_filled-strip (number z) h = cc
as_filled-strip (real r) h = cc
as_filled-strip (array xs) h = cc
as_filled-strip (object fs) h = cc

read_answer-strip :
    (known seen : List Text) (item : Json) {s : Selected}
    → read_answer known seen item ≡ ok s
    → strip s.question_id ≡ s.question_id
unfolding read_answer
read_answer-strip known seen item {s = s} h =
    let (dict, h1) = require-ok (is_object item) validation _ h in
    let (id, named, h2) = given-ok validation (as_filled (get (codes "question_id") item)) _ h1 in
    let same : id ≡ s.question_id = ground arith in
    subst (λ t. strip t ≡ t) same (as_filled-strip (get (codes "question_id") item) named)

read_answers-strip :
    (known seen : List Text) (raw : List Json) {ss : List Selected}
    → read_answers known seen raw ≡ ok ss
    → All (λ id. strip id ≡ id) (selected_ids ss)
unfolding read_answers
read_answers-strip known seen [] {ss = ss} h =
    subst (λ ss. All (λ id. strip id ≡ id) (selected_ids ss)) (ok-injective h) tt
read_answers-strip known seen (item ∷ raw) h =
    let (s, first, h1) = >>=-ok (read_answer known seen item) _ h in
    let (rest, others, last) = >>=-ok (read_answers known (s.question_id ∷ seen) raw) _ h1 in
    subst (λ ss. All (λ id. strip id ≡ id) (selected_ids ss)) (ok-injective last)
      (
        read_answer-strip known seen item first,
        read_answers-strip known (s.question_id ∷ seen) raw others,
      )

-- What is in a list has what all its elements have.
All-is_in :
    (P : Text → Type 0) (id : Text) (ids : List Text) → All P ids → is_in id ids ≡ true → P id
All-is_in P id [] h e = cc
All-is_in P id (x ∷ xs) h e = elim (Bool-cases (text_eq id x)) [
  | inl same ↦ subst P (sym (text_eq_sound id x same)) h.0
  | inr other ↦ All-is_in P id xs h.1 (rw other at e)
]

all-is_in :
    (p : Text → Bool) (id : Text) (ids : List Text)
    → all p ids ≡ true
    → is_in id ids ≡ true
    → p id ≡ true
all-is_in p id [] h e = cc
all-is_in p id (x ∷ xs) h e = elim (Bool-cases (text_eq id x)) [
  | inl same ↦ subst (λ t. p t ≡ true) (sym (text_eq_sound id x same)) (ground arith)
  | inr other ↦ all-is_in p id xs (ground arith) (rw other at e)
]

answered_stripped :
    (quiz : StructuredQuiz) (id : Text) (answers : Json) {ss : List Selected}
    → validate_quiz_answers quiz answers ≡ ok ss
    → is_in id (question_ids quiz.questions) ≡ true
    → strip id ≡ id
unfolding validate_quiz_answers
answered_stripped quiz id answers h asked =
    let (raw, listed, h1) = given-ok validation (as_list answers) _ h in
    let (selected, read, h2) = >>=-ok (read_answers (question_ids quiz.questions) [] raw) _ h1 in
    let (answered, h3) =
      require-ok (all (λ id. is_in id (selected_ids selected)) (question_ids quiz.questions))
        validation _ h2 in
    All-is_in (λ t. strip t ≡ t) id (selected_ids selected)
      (read_answers-strip (question_ids quiz.questions) [] raw read)
      (all-is_in (λ id. is_in id (selected_ids selected)) id (question_ids quiz.questions) answered
        asked)

-- A quiz with a question whose id has space at its ends accepts no answers, whatever they are: the
-- scoring always ends in an error.
pub unanswerable :
    (show : Json → Text) (content : Json) (quiz : StructuredQuiz) (id : Text) (answers : Json)
    → parse_structured_quiz show content ≡ ok quiz
    → is_in id (question_ids quiz.questions) ≡ true
    → strip id ≢ id
    → (e : Error) × (score_structured_quiz show content answers ≡ err e)
unfolding score_structured_quiz
unanswerable show content quiz id answers parsed asked spaced =
    elim (Result-cases (validate_quiz_answers quiz answers)) [
      | inl (e, failed) ↦ (e, rw (parsed, failed) refl)
      | inr (ss, validated) ↦ absurd (spaced (answered_stripped quiz id answers validated asked))
    ]
