-- ===== src/Quiz/Answers/Scores.antt =====
-- What validated answers and scores satisfy, for validate_quiz_answers and score_structured_quiz.
use onboard_ai.Common.{
  ℕ, zero, suc, ◌*◌, ◌≤◌, ◌<◌, ◌≡◌, ◌↔◌, refl, subst, inl, inr, arith, Bool, true, false, ◌&&◌,
  ◌||◌, not, List, [], ◌∷◌, all, length, leb, ltb, ◌==◌, Bool-cases, ok, validation, >>=-ok,
  require-ok, given-ok, ok-injective,
}
use onboard_ai.Common.Text.{Text}
use onboard_ai.Common.Json.{Json, as_list}
use onboard_ai.Quiz.{
  max_questions, passing_score, StructuredQuestion, StructuredQuiz, is_in, distinct, question_ids,
  parse_structured_quiz,
}
use onboard_ai.Quiz.WellFormed.{IsWellFormedQuiz, apart, distinct-cons, parsed_well}
use onboard_ai.Quiz.Answers.{
  Selected, selected_ids, read_answer, read_answers, fits, validate_quiz_answers, round_half_even,
  score_percentage, count_correct, QuizScoreResult, score_selected, score_structured_quiz,
}

-- `p` holds of every number below `n`, found by trying them all.
all_below : (ℕ → Bool) → ℕ → Bool
all_below p zero = true
all_below p (suc n) = p n && all_below p n

all_below-lt : (p : ℕ → Bool) (n k : ℕ) → all_below p n ≡ true → k < n → p k ≡ true
unfolding all_below
all_below-lt p zero k h below = ground arith
all_below-lt p (suc n) k h below = elim (Bool-cases (k == n)) [
  | inl last ↦ let same : n ≡ k = ground arith in subst (λ j. p j ≡ true) same (ground arith)
  | inr before ↦ all_below-lt p n k (ground arith) (ground arith)
]

agree : Bool → Bool → Bool
agree true b = b
agree false b = not b

agree_iff : (a b : Bool) → agree a b ≡ true → (a ≡ true) ↔ (b ≡ true)
unfolding agree
agree_iff true b h = (λ _. h, λ _. refl)
agree_iff false true h = cc
agree_iff false false h = (λ k. k, λ k. k)

-- The score of `c` right answers of `t` is at most 100, and passes where c / t is at least 4 / 5.
well_scored : ℕ → ℕ → Bool
well_scored t c =
    t == 0
    || ltb t c
    || (leb (score_percentage c t) 100
        && agree (leb passing_score (score_percentage c t)) (leb (4 * t) (5 * c)))

all_well_scored : all_below (λ t. all_below (well_scored t) 21) 21 ≡ true
unfolding all_below well_scored score_percentage round_half_even agree
all_well_scored = refl

score_percentage-pass :
    (c t : ℕ)
    → 1 ≤ t
    → t ≤ max_questions
    → c ≤ t
    → (score_percentage c t ≤ 100)
      × ((leb passing_score (score_percentage c t) ≡ true) ↔ (4 * t ≤ 5 * c))
unfolding well_scored agree
score_percentage-pass c t some_questions few right =
    let each =
      all_below-lt (λ t. all_below (well_scored t) 21) 21 t all_well_scored (omega arith) in
    let one = all_below-lt (well_scored t) 21 c each (omega arith) in
    ground (arith, one, agree_iff (leb passing_score (score_percentage c t)) (leb (4 * t) (5 * c)))

count_correct-le :
    (selected : List Selected) (qs : List StructuredQuestion)
    → count_correct selected qs ≤ length qs
unfolding count_correct
count_correct-le selected [] = omega arith
count_correct-le selected (q ∷ qs) = ground (arith, count_correct-le selected qs)

abbrev pub IsFair : QuizScoreResult → Type 0
IsFair r =
    (1 ≤ r.total)
    × (r.total ≤ max_questions)
    × (r.correct_count ≤ r.total)
    × (r.score ≤ 100)
    × ((r.passed ≡ true) ↔ (4 * r.total ≤ 5 * r.correct_count))

score_selected-IsFair :
    (quiz : StructuredQuiz) (selected : List Selected)
    → IsWellFormedQuiz quiz
    → IsFair (score_selected quiz selected)
unfolding score_selected
score_selected-IsFair quiz selected (some_questions, few, _, _, mark) =
    let right = count_correct-le selected quiz.questions in
    let (score, pass) =
      score_percentage-pass (count_correct selected quiz.questions) (length quiz.questions)
        some_questions few right in
    (some_questions, few, right, score, rw mark pass)

-- Whatever the quiz's content and the answers are, if the answers are scored then there are one to
-- twenty questions, no more right answers than questions, a score of at most 100, and the quiz is
-- passed exactly where at least four fifths of the answers are right.
pub scored_fairly :
    (show : Json → Text) (content answers : Json) (r : QuizScoreResult)
    → score_structured_quiz show content answers ≡ ok r
    → IsFair r
unfolding score_structured_quiz
scored_fairly show content answers r h =
    let (quiz, parsed, h1) = >>=-ok (parse_structured_quiz show content) _ h in
    let (selected, _, last) = >>=-ok (validate_quiz_answers quiz answers) _ h1 in
    subst IsFair (ok-injective last)
      (score_selected-IsFair quiz selected (parsed_well show content quiz parsed))

read_answer_lem :
    (known seen : List Text) (item : Json) {s : Selected}
    → read_answer known seen item ≡ ok s
    → (not (is_in s.question_id seen) ≡ true)
      × (is_in s.question_id known ≡ true)
      × (distinct s.chosen ≡ true)
unfolding read_answer
read_answer_lem known seen item h = ground arith

read_answers-distinct :
    (known seen : List Text) (raw : List Json) {ss : List Selected}
    → read_answers known seen raw ≡ ok ss
    → (distinct (selected_ids ss) ≡ true)
      × (apart seen (selected_ids ss) ≡ true)
      × (all (λ id. is_in id known) (selected_ids ss) ≡ true)
      × (all (λ (s : Selected). distinct s.chosen) ss ≡ true)
unfolding read_answers
read_answers-distinct known seen [] h = ground arith
read_answers-distinct known seen (item ∷ raw) h =
    let (s, first, h1) = >>=-ok (read_answer known seen item) _ h in
    let (rest, others, last) = >>=-ok (read_answers known (s.question_id ∷ seen) raw) _ h1 in
    let ih = read_answers-distinct known (s.question_id ∷ seen) raw others in
    let one = read_answer_lem known seen item first in
    let ids = distinct-cons s.question_id seen (selected_ids rest) one.0 ih.1 ih.0 in
    ground (arith, ok-injective last, ih, one, ids)

-- What a mapping from questions to options must have to be scored.
abbrev pub IsComplete : StructuredQuiz → List Selected → Type 0
IsComplete quiz ss =
    (distinct (selected_ids ss) ≡ true)
    × (all (λ id. is_in id (question_ids quiz.questions)) (selected_ids ss) ≡ true)
    × (all (λ id. is_in id (selected_ids ss)) (question_ids quiz.questions) ≡ true)
    × (all (λ (s : Selected). distinct s.chosen) ss ≡ true)
    × (all (fits quiz.questions) ss ≡ true)

-- Whatever the answers are, if they are accepted for a quiz then each question of it is answered once,
-- nothing else is, and every answer names options of its question, no one twice, exactly one of them
-- where the question has a single choice and at least one where it has several.
pub validate_quiz_answers-IsComplete :
    (quiz : StructuredQuiz) (answers : Json) (ss : List Selected)
    → validate_quiz_answers quiz answers ≡ ok ss
    → IsComplete quiz ss
unfolding validate_quiz_answers
validate_quiz_answers-IsComplete quiz answers ss h =
    let (raw, listed, h1) = given-ok validation (as_list answers) _ h in
    let (selected, read, h2) = >>=-ok (read_answers (question_ids quiz.questions) [] raw) _ h1 in
    let (answered, h3) =
      require-ok (all (λ id. is_in id (selected_ids selected)) (question_ids quiz.questions))
        validation _ h2 in
    let (fitting, last) = require-ok (all (fits quiz.questions) selected) validation _ h3 in
    let (once, _, known, chosen) =
      read_answers-distinct (question_ids quiz.questions) [] raw read in
    subst (IsComplete quiz) (ok-injective last) (once, known, answered, chosen, fitting)
