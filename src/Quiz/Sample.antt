-- ===== src/Quiz/Sample.antt =====
-- A small quiz, for tests.
use onboard_ai.Common.{◌≡◌, refl, true, some, List, [], ◌∷◌, ok}
use onboard_ai.Common.Text.{Text, codes, strip, text_eq}
use onboard_ai.Common.Json.{
  Json, text, array, object, nil, cons, end, field, get, has_key, is_object, as_filled,
}
use onboard_ai.Quiz.{StructuredQuiz, single_choice, parse_structured_quiz}
use onboard_ai.Quiz.Answers.{
  Selected, QuizScoreResult, validate_quiz_answers, score_percentage, score_structured_quiz,
}

abbrev pub shown : Json → Text
shown v = codes "?"

abbrev pub a_option : Text → Text → Json
a_option id label = object (field (codes "id") (text id) (field (codes "text") (text label) end))

abbrev pub a_question : Text → Json
a_question id = object (
    field (codes "type") (text (codes "single_choice")) (
      field (codes "id") (text id) (
        field (codes "text") (text (codes "Which floor?")) (
          field (codes "options")
            (array (
              cons (a_option (codes "a") (codes "Third"))
                (cons (a_option (codes "b") (codes "Fifth")) nil)))
            (field (codes "correct_option_ids") (array (cons (text (codes "b")) nil))
              (field (codes "explanation") (text (codes "See the map.")) end))))))

abbrev pub content_of : Text → Json
content_of id = object (
    field (codes "title") (text (codes "Office"))
      (field (codes "questions") (array (cons (a_question id) nil)) end))

abbrev pub the_content : Json
the_content = content_of (codes "floor")

abbrev pub answers_with : Text → Json
answers_with choice = array (
    cons
      (object (
        field (codes "question_id") (text (codes " floor "))
          (field (codes "selected_option_ids") (array (cons (text choice) nil)) end)))
      nil)

abbrev pub a_quiz : Text → StructuredQuiz
a_quiz id = record {
  questions =
      record {
        id = id;
        kind = single_choice;
        label = codes "Which floor?";
        options =
            record { id = codes "a"; label = codes "Third" }
            ∷ record { id = codes "b"; label = codes "Fifth" }
            ∷ [];
        correct_option_ids = codes "b" ∷ [];
        explanation = some (codes "See the map.");
      }
      ∷ [];
  pass_mark = 80;
}

abbrev pub the_selected : List Selected
the_selected = record { question_id = codes "floor"; chosen = codes "b" ∷ [] } ∷ []

abbrev pub passed_result : QuizScoreResult
passed_result = record { correct_count = 1; total = 1; score = 100; passed = true; pass_mark = 80 }

pub scores : score_structured_quiz shown the_content (answers_with (codes "b")) ≡ ok passed_result
unfolding score_structured_quiz parse_structured_quiz validate_quiz_answers score_percentage
    is_object get text_eq as_filled strip has_key
scores = refl
