-- ===== src/Quiz/Answers.antt =====
-- Answers to a structured quiz, their score and the summary of an attempt: validate_quiz_answers,
-- score_percentage, score_structured_quiz and apply_quiz_attempt. The score is rounded exactly; with
-- at most twenty questions the source's floats round the same way.
pub mod Scores
pub mod Right
pub mod Unanswerable
use onboard_ai.Common.{
  ℕ, zero, suc, ◌+◌, ◌*◌, ◌/◌, ◌%◌, max, Bool, true, false, ◌&&◌, ◌||◌, not, Option, none, some,
  List, [], ◌∷◌, map, any, all, find, length, leb, ltb, ◌==◌, if◌then◌else◌, Result, ok, err,
  validation, ◌>>=◌, ◌>>◌, require, given, ℤ, pos, negsuc,
}
use onboard_ai.Common.Text.{Text, codes, text_eq}
use onboard_ai.Common.Json.{
  Json, null, boolean, number, text, object, Fields, end, field, get, is_object, as_list, as_filled,
  as_int,
}
use onboard_ai.Quiz.{
  QuestionType, single_choice, multiple_choice, StructuredQuestion, StructuredQuiz, is_in, distinct,
  option_ids, question_ids, parse_ids, parse_structured_quiz,
}

-- One entry of the mapping from questions to chosen options.
pub record Selected : Type 0 where
  pub question_id : Text
  pub chosen : List Text

abbrev pub selected_ids : List Selected → List Text
selected_ids ss = map (λ (s : Selected). s.question_id) ss

pub read_answer : List Text → List Text → Json → Result Selected
unfolding parse_ids distinct
read_answer known seen item = do
  require (is_object item) validation
  id ← given validation (as_filled (get (codes "question_id") item))
  require (is_in id known) validation
  require (not (is_in id seen)) validation
  raw ← given validation (as_list (get (codes "selected_option_ids") item))
  ids ← parse_ids raw
  require (distinct ids) validation
  ok (record { question_id = id; chosen = ids })

pub read_answers : List Text → List Text → List Json → Result (List Selected)
unfolding read_answer
read_answers known seen [] = ok []
read_answers known seen (item ∷ raw) = do
  s ← read_answer known seen item
  rest ← read_answers known (s.question_id ∷ seen) raw
  ok (s ∷ rest)

pub is_chosen_well : QuestionType → List Text → Bool
is_chosen_well single_choice chosen = length chosen == 1
is_chosen_well multiple_choice chosen = leb 1 (length chosen)

pub question_of : List StructuredQuestion → Text → Option StructuredQuestion
question_of qs id = find (λ (q : StructuredQuestion). text_eq q.id id) qs

-- The check of one entry against its question, which is there.
pub fits : List StructuredQuestion → Selected → Bool
unfolding is_chosen_well question_of
fits qs s = elim (question_of qs s.question_id) [
  | none ↦ false
  | some q ↦ all (λ id. is_in id (option_ids q)) s.chosen && is_chosen_well q.kind s.chosen
]

unfoldable pub validate_quiz_answers : StructuredQuiz → Json → Result (List Selected)
unfolding read_answers fits
validate_quiz_answers quiz answers = do
  raw ← given validation (as_list answers)
  selected ← read_answers (question_ids quiz.questions) [] raw
  require (all (λ id. is_in id (selected_ids selected)) (question_ids quiz.questions)) validation
  require (all (fits quiz.questions) selected) validation
  ok selected

-- `round` of n / d: to the nearest, and to the even one half-way.
pub round_half_even : ℕ → ℕ → ℕ
round_half_even n d =
    let q = n / d in
    if ltb (2 * (n % d)) d then q else if ltb d (2 * (n % d)) then q + 1 else q + q % 2

unfoldable pub score_percentage : ℕ → ℕ → ℕ
unfolding round_half_even
score_percentage correct_count total =
    if total == 0 then 0 else round_half_even (100 * correct_count) total

-- `chosen == correct_option_ids`, as sets.
pub same_set : List Text → List Text → Bool
same_set xs ys = all (λ x. is_in x ys) xs && all (λ y. is_in y xs) ys

pub chosen_for : List Selected → Text → List Text
chosen_for ss id = elim (find (λ (s : Selected). text_eq s.question_id id) ss) [
  | none ↦ []
  | some s ↦ s.chosen
]

pub is_correct : List Selected → StructuredQuestion → Bool
unfolding chosen_for same_set
is_correct selected q = same_set (chosen_for selected q.id) q.correct_option_ids

pub count_correct : List Selected → List StructuredQuestion → ℕ
unfolding is_correct
count_correct selected [] = 0
count_correct selected (q ∷ qs) =
    let rest = count_correct selected qs in if is_correct selected q then suc rest else rest

pub record QuizScoreResult : Type 0 where
  pub correct_count : ℕ
  pub total : ℕ
  pub score : ℕ
  pub passed : Bool
  pub pass_mark : ℕ

pub score_selected : StructuredQuiz → List Selected → QuizScoreResult
unfolding count_correct score_percentage
score_selected quiz selected =
    let correct_count = count_correct selected quiz.questions in
    let total = length quiz.questions in
    let score = score_percentage correct_count total in
    record {
      correct_count = correct_count;
      total = total;
      score = score;
      passed = leb quiz.pass_mark score;
      pass_mark = quiz.pass_mark;
    }

unfoldable pub score_structured_quiz : (Json → Text) → Json → Json → Result QuizScoreResult
unfolding score_selected
score_structured_quiz show content answers = do
  quiz ← parse_structured_quiz show content
  selected ← validate_quiz_answers quiz answers
  ok (score_selected quiz selected)

-- `n + 1`
unfoldable pub next_int : ℤ → ℤ
next_int (pos n) = pos (suc n)
next_int (negsuc zero) = pos 0
next_int (negsuc (suc n)) = negsuc n

-- `max(z, n)`
pub max_int : ℤ → ℕ → ℤ
max_int (pos m) n = pos (max m n)
max_int (negsuc m) n = pos n

abbrev pub or_zero : Option ℤ → ℤ
or_zero none = pos 0
or_zero (some z) = z

abbrev best_of : Option ℤ → ℕ → ℤ
best_of none n = pos n
best_of (some z) n = max_int z n

abbrev score_object : QuizScoreResult → Json
score_object r = object (
    field (codes "correct_count") (number (pos r.correct_count)) (
      field (codes "total") (number (pos r.total)) (
        field (codes "score") (number (pos r.score)) (
          field (codes "passed") (boolean r.passed)
            (field (codes "passing_score") (number (pos r.pass_mark)) end)))))

-- `timestamp` is the time of the attempt as a text.
unfoldable pub apply_quiz_attempt : Json → QuizScoreResult → Text → Fields
unfolding next_int max_int
apply_quiz_attempt existing r timestamp =
    field (codes "attempt_count")
      (number (next_int (or_zero (as_int (get (codes "attempt_count") existing)))))
      (field (codes "last_score") (number (pos r.score)) (
        field (codes "best_score")
          (number (best_of (as_int (get (codes "best_score") existing)) r.score))
          (field (codes "last_attempt_at") (text timestamp) (
            field (codes "passed") (boolean r.passed)
              (field (codes "quiz_score") (score_object r) end)))))
