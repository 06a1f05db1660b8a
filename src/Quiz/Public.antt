-- ===== src/Quiz/Public.antt =====
-- What employees see of a quiz and of their attempts: public_quiz_content and
-- public_progress_payload of app/services/assessment.py.
pub mod Hidden
use onboard_ai.Common.{
  Bool, true, false, ◌||◌, not, Option, none, some, List, [], ◌∷◌, any, if◌then◌else◌,
}
use onboard_ai.Common.Text.{Text, codes, text_eq}
use onboard_ai.Common.Json.{
  Json, object, array, Items, nil, cons, Fields, end, field, lookup, select_keys, set_key,
}
use onboard_ai.Quiz.{is_in}

-- `ANSWER_KEY_FIELDS`, and the explanation.
abbrev pub hidden_keys : List Text
hidden_keys =
    codes "correct" ∷ codes "answer" ∷ codes "correct_option_ids" ∷ codes "explanation" ∷ []

pub public_question : Json → Json
unfolding select_keys
public_question (object fs) = object (select_keys (λ k. not (is_in k hidden_keys)) fs)
public_question v = v

pub public_questions : Items → Items
unfolding public_question
public_questions nil = nil
public_questions (cons x xs) = cons (public_question x) (public_questions xs)

-- `out["questions"] = cleaned`, where the questions are a list.
pub clean_questions : Option Json → Fields → Fields
unfolding public_questions set_key
clean_questions (some (array xs)) fs = set_key (codes "questions") (array (public_questions xs)) fs
clean_questions other fs = fs

-- Anything but an object becomes the empty one.
unfoldable pub public_quiz_content : Json → Fields
unfolding clean_questions lookup
public_quiz_content (object fs) = clean_questions (lookup (codes "questions") fs) fs
public_quiz_content v = end

pub clean_score : Option Json → Fields → Fields
unfolding select_keys set_key
clean_score (some (object score)) fs =
    set_key (codes "quiz_score")
      (object (select_keys (λ k. not (text_eq k (codes "results"))) score)) fs
clean_score other fs = fs

unfoldable pub public_progress_payload : Json → Fields
unfolding clean_score lookup select_keys
public_progress_payload (object fs) =
    let out = select_keys (λ k. not (text_eq k (codes "answers"))) fs in
    clean_score (lookup (codes "quiz_score") out) out
public_progress_payload v = end
