-- ===== src/Quiz/Answers/Right.antt =====
-- Which answers of a structured quiz are right: the chosen options are the correct ones, no more and no
-- fewer.
use onboard_ai.Common.{
  ℕ, suc, ◌≡◌, ◌↔◌, ◌∙◌, refl, ap, sym, subst, inl, inr, arith, Bool, true, some, List, [], ◌∷◌,
  all, find, length, Bool-cases, clash, ok, >>=-ok, ok-injective,
}
use onboard_ai.Common.Text.{Text, text_eq, text_eq_refl, text_eq_sound, text_eq_sym}
use onboard_ai.Common.Json.{Json}
use onboard_ai.Quiz.{StructuredQuestion, StructuredQuiz, is_in, question_ids, parse_structured_quiz}
use onboard_ai.Quiz.Answers.{
  Selected, selected_ids, validate_quiz_answers, same_set, chosen_for, is_correct, count_correct,
  QuizScoreResult, score_selected, score_structured_quiz,
}
use onboard_ai.Quiz.Answers.Scores.{validate_quiz_answers-IsComplete}

-- The answer to a question chooses exactly its correct options.
abbrev pub IsRight : List Selected → StructuredQuestion → Type 0
IsRight ss q =
    (s : Selected) × (find (λ (x : Selected). text_eq x.question_id q.id) ss ≡ some s)
    × ((id : Text) → (is_in id s.chosen ≡ true) ↔ (is_in id q.correct_option_ids ≡ true))

-- So many of the questions are answered rightly.
pub data Rights (ss : List Selected) : List StructuredQuestion → ℕ → Type 0 where
  finished : Rights ss [] 0
  right :
      {q : StructuredQuestion} {qs : List StructuredQuestion} {n : ℕ}
      → IsRight ss q
      → Rights ss qs n
      → Rights ss (q ∷ qs) (suc n)
  wrong :
      {q : StructuredQuestion} {qs : List StructuredQuestion} {n : ℕ}
      → ¬ IsRight ss q
      → Rights ss qs n
      → Rights ss (q ∷ qs) n

all-in :
    (p : Text → Bool) (xs : List Text) (id : Text)
    → all p xs ≡ true
    → is_in id xs ≡ true
    → p id ≡ true
all-in p [] id h i = cc
all-in p (x ∷ xs) id h i = elim (Bool-cases (text_eq id x)) [
  | inl same ↦ subst (λ y. p y ≡ true) (sym (text_eq_sound id x same)) (ground (arith, h))
  | inr other ↦ all-in p xs id (ground (arith, h)) (ground (arith, i, other))
]

in-all :
    (p : Text → Bool) (xs : List Text)
    → ((id : Text) → is_in id xs ≡ true → p id ≡ true)
    → all p xs ≡ true
in-all p [] each = refl
in-all p (x ∷ xs) each =
    let first : p x ≡ true = each x (ground (arith, text_eq_refl x)) in
    let rest : all p xs ≡ true = in-all p xs (λ id h. each id (ground (arith, h))) in
    ground (arith, first, rest)

same_set_iff :
    (xs ys : List Text)
    → (same_set xs ys ≡ true) ↔ ((id : Text) → (is_in id xs ≡ true) ↔ (is_in id ys ≡ true))
unfolding same_set
same_set_iff xs ys = (
  λ h id. (
    all-in (λ x. is_in x ys) xs id (ground (arith, h)),
    all-in (λ y. is_in y xs) ys id (ground (arith, h)),
  ),
  λ each.
      let there = in-all (λ x. is_in x ys) xs (λ id. (each id).0) in
      let back = in-all (λ y. is_in y xs) ys (λ id. (each id).1) in ground (arith, there, back),
)

-- A question that is answered has an entry.
answered :
    (id : Text) (ss : List Selected)
    → is_in id (selected_ids ss) ≡ true
    → (s : Selected) × (find (λ (x : Selected). text_eq x.question_id id) ss ≡ some s)
answered id [] h = cc
answered id (s ∷ ss) h = elim (Bool-cases (text_eq s.question_id id)) [
  | inl own ↦ (s, rw own refl)
  | inr other ↦
      let (found, at) = answered id ss (ground (arith, h, text_eq_sym id s.question_id, other)) in
      (found, rw other at)
]

chosen_for_found :
    (ss : List Selected) (id : Text) {s : Selected}
    → find (λ (x : Selected). text_eq x.question_id id) ss ≡ some s
    → chosen_for ss id ≡ s.chosen
unfolding chosen_for
chosen_for_found ss id at = rw (at, chosen_for) refl

is_correct_iff :
    (ss : List Selected) (q : StructuredQuestion)
    → is_in q.id (selected_ids ss) ≡ true
    → (is_correct ss q ≡ true) ↔ IsRight ss q
unfolding is_correct
is_correct_iff ss q h =
    let (s, at) = answered q.id ss h in
    (
      λ e. (
        s,
        at,
        (same_set_iff s.chosen q.correct_option_ids).0
            (ap (λ c. same_set c q.correct_option_ids) (sym (chosen_for_found ss q.id at)) ∙ e),
      ),
      λ k.
          ap (λ c. same_set c q.correct_option_ids) (chosen_for_found ss q.id k.1)
          ∙ (same_set_iff k.0.chosen q.correct_option_ids).1 k.2,
    )

count_correct-Rights :
    (ss : List Selected) (qs : List StructuredQuestion)
    → all (λ id. is_in id (selected_ids ss)) (question_ids qs) ≡ true
    → Rights ss qs (count_correct ss qs)
unfolding count_correct
count_correct-Rights ss [] h = finished
count_correct-Rights ss (q ∷ qs) h =
    let means = is_correct_iff ss q (ground (arith, h)) in
    let rest = count_correct-Rights ss qs (ground (arith, h)) in
    elim (Bool-cases (is_correct ss q)) [
      | inl held ↦ rw held (right (means.0 held) rest)
      | inr not_held ↦ rw not_held (wrong (λ k. clash not_held (means.1 k)) rest)
    ]

-- The quiz and the answers behind a score, which counts the right answers.
abbrev pub IsCountOf : (Json → Text) → Json → Json → QuizScoreResult → Type 0
IsCountOf show content answers r =
    (quiz : StructuredQuiz) × (selected : List Selected) × (parse_structured_quiz show content
      ≡ ok quiz)
    × (validate_quiz_answers quiz answers ≡ ok selected)
    × (r.total ≡ length quiz.questions)
    × Rights selected quiz.questions r.correct_count

pub score_structured_quiz-IsCountOf :
    (show : Json → Text) (content answers : Json) (r : QuizScoreResult)
    → score_structured_quiz show content answers ≡ ok r
    → IsCountOf show content answers r
unfolding score_structured_quiz score_selected
score_structured_quiz-IsCountOf show content answers r h =
    let (quiz, parsed, h1) = >>=-ok (parse_structured_quiz show content) _ h in
    let (selected, valid, last) = >>=-ok (validate_quiz_answers quiz answers) _ h1 in
    let complete = validate_quiz_answers-IsComplete quiz answers selected valid in
    subst (IsCountOf show content answers) (ok-injective last)
      (quiz, selected, parsed, valid, refl, count_correct-Rights selected quiz.questions complete.2)
