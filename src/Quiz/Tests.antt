-- ===== src/Quiz/Tests.antt =====
-- Runs of the parser, the scoring and the employees' view on a small quiz.
use onboard_ai.Common.{◌≡◌, ◌≢◌, refl, subst, clash, true, false, some, ◌++◌, Error, ok, err, pos}
use onboard_ai.Common.Text.{Text, codes, strip, text_eq, text_eq_refl}
use onboard_ai.Common.Json.{
  Json, number, text, array, object, nil, cons, Fields, end, field, lookup, get, has_key, is_object,
  as_filled, select_keys, set_key,
}
use onboard_ai.Quiz.{is_in, is_structured_quiz, is_legacy_quiz, question_ids, parse_structured_quiz}
use onboard_ai.Quiz.Sample.{
  shown, a_option, content_of, the_content, answers_with, a_quiz, the_selected, passed_result,
}
use onboard_ai.Quiz.WellFormed.{IsWellFormedQuiz, parsed_well}
use onboard_ai.Quiz.Answers.{
  validate_quiz_answers, score_percentage, score_structured_quiz, apply_quiz_attempt,
}
use onboard_ai.Quiz.Answers.Unanswerable.{unanswerable}
use onboard_ai.Quiz.Public.{public_quiz_content}
use onboard_ai.Quiz.Public.Hidden.{AllBare, answers_hidden}

parses : parse_structured_quiz shown the_content ≡ ok (a_quiz (codes "floor"))
unfolding parse_structured_quiz is_object get text_eq as_filled strip has_key
parses = refl

validates :
    validate_quiz_answers (a_quiz (codes "floor")) (answers_with (codes "b")) ≡ ok the_selected
unfolding validate_quiz_answers is_object get text_eq as_filled strip
validates = refl

rounds :
    (score_percentage 7 8 ≡ 88)
    × (score_percentage 1 8 ≡ 12)
    × (score_percentage 2 3 ≡ 67)
    × (score_percentage 0 0 ≡ 0)
unfolding score_percentage
rounds = (refl, refl, refl, refl)

kinds : (is_structured_quiz the_content ≡ true) × (is_legacy_quiz the_content ≡ false)
unfolding is_structured_quiz is_legacy_quiz is_object get text_eq as_filled strip
kinds = (refl, refl)

attempt :
    lookup (codes "attempt_count") (
      apply_quiz_attempt
        (object (field (codes "attempt_count") (number (pos 2)) end))
        passed_result
        (codes "now"))
    ≡ some (number (pos 3))
unfolding apply_quiz_attempt lookup get text_eq
attempt = refl

parsed_well_example : IsWellFormedQuiz (a_quiz (codes "floor"))
parsed_well_example = parsed_well shown the_content (a_quiz (codes "floor")) parses

-- An id of 65 characters, the next to last a space, is cut after the space.
abbrev sixty : Text
sixty = codes "a question whose identifier is a whole sentence, far too long"

abbrev cut_id : Text
cut_id = sixty ++ codes "er "

cut : parse_structured_quiz shown (content_of (sixty ++ codes "er still")) ≡ ok (a_quiz cut_id)
unfolding parse_structured_quiz is_object get text_eq as_filled strip has_key
cut = refl

cut_asked : is_in cut_id (question_ids (a_quiz cut_id).questions) ≡ true
unfolding text_eq
cut_asked = refl

cut_spaced : strip cut_id ≢ cut_id
unfolding text_eq strip
cut_spaced e =
    clash {b = text_eq (strip cut_id) cut_id} refl
      (subst (λ t. text_eq (strip cut_id) t ≡ true) e (text_eq_refl (strip cut_id)))

unanswerable_example :
    (e : Error) × (score_structured_quiz shown
        (content_of (sixty ++ codes "er still"))
        (answers_with (codes "b"))
      ≡ err e)
unanswerable_example =
    unanswerable shown (content_of (sixty ++ codes "er still")) (a_quiz cut_id) cut_id
      (answers_with (codes "b")) cut cut_asked cut_spaced

abbrev bare_question : Json
bare_question = object (
    field (codes "type") (text (codes "single_choice")) (
      field (codes "id") (text (codes "floor")) (
        field (codes "text") (text (codes "Which floor?")) (
          field (codes "options")
            (array (
              cons (a_option (codes "a") (codes "Third"))
                (cons (a_option (codes "b") (codes "Fifth")) nil)))
            end))))

shows :
    lookup (codes "questions") (public_quiz_content the_content)
    ≡ some (array (cons bare_question nil))
unfolding public_quiz_content lookup text_eq select_keys set_key
shows = refl

answers_hidden_example : AllBare (cons bare_question nil)
answers_hidden_example = answers_hidden the_content (cons bare_question nil) shows

abbrev stored : Fields
stored =
    field (codes "answers") (array nil)
      (field (codes "quiz_score") (object (field (codes "results") (array nil) end)) end)
