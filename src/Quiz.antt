-- ===== src/Quiz.antt =====
-- Structured quizzes: app/services/assessment.py. A quiz's definition and an employee's answers are
-- JSON that the code does not trust. `show` is Python's `str` on values that are not texts. All
-- refusals are ValidationErrors; their messages are left out.
pub mod Answers
pub mod Public
pub mod WellFormed
pub mod Sample
mod Tests
use onboard_ai.Common.{
  ℕ, suc, ◌+◌, ◌*◌, ◌/◌, ◌%◌, Bool, true, false, ◌&&◌, ◌||◌, not, Option, none, some, List, [], ◌∷◌,
  map, any, all, length, take, leb, ltb, ◌==◌, is_some, if◌then◌else◌, Result, ok, err, validation,
  ◌>>=◌, ◌>>◌, require, given, ℤ, pos,
}
use onboard_ai.Common.Text.{Text, codes, text_eq, strip}
use onboard_ai.Common.Json.{
  Json, null, boolean, number, real, text, array, object, get, has_key, is_object, as_list, as_text,
  filled, as_filled,
}
use onboard_ai.Common.Decimal.{decimal}

abbrev pub passing_score : ℕ
passing_score = 80

abbrev pub question_id_max : ℕ
question_id_max = 64

abbrev pub option_id_max : ℕ
option_id_max = 64

abbrev pub question_text_max : ℕ
question_text_max = 500

abbrev pub option_text_max : ℕ
option_text_max = 500

abbrev pub explanation_max : ℕ
explanation_max = 1000

abbrev pub max_questions : ℕ
max_questions = 20

abbrev pub max_options : ℕ
max_options = 12

pub data QuestionType : Type 0 where
  single_choice multiple_choice : QuestionType

pub record QuizOption : Type 0 where
  pub id : Text
  pub label : Text

-- The set of correct options is a list without repetition.
pub record StructuredQuestion : Type 0 where
  pub id : Text
  pub kind : QuestionType
  pub label : Text
  pub options : List QuizOption
  pub correct_option_ids : List Text
  pub explanation : Option Text

pub record StructuredQuiz : Type 0 where
  pub questions : List StructuredQuestion
  pub pass_mark : ℕ

-- `x in xs`
abbrev pub is_in : Text → List Text → Bool
is_in x xs = any (text_eq x) xs

-- `len(xs) == len(set(xs))`
pub distinct : List Text → Bool
distinct [] = true
distinct (x ∷ xs) = not (is_in x xs) && distinct xs

abbrev pub option_ids : StructuredQuestion → List Text
option_ids q = map (λ (o : QuizOption). o.id) q.options

abbrev pub question_ids : List StructuredQuestion → List Text
question_ids qs = map (λ (q : StructuredQuestion). q.id) qs

-- `_raw_questions`
pub raw_questions : Json → List Json
raw_questions content = elim (as_list (get (codes "questions") content)) [
  | none ↦ []
  | some raw ↦ raw
]

pub is_structured_question : Json → Bool
is_structured_question item =
    is_object item
    && (is_some (as_filled (get (codes "type") item))
        || (is_some (as_list (get (codes "options") item))
            || is_some (as_list (get (codes "correct_option_ids") item))))

unfoldable pub is_structured_quiz : Json → Bool
unfolding raw_questions is_structured_question
is_structured_quiz content = any is_structured_question (raw_questions content)

pub is_empty : List Json → Bool
is_empty [] = true
is_empty (x ∷ xs) = false

unfoldable pub is_legacy_quiz : Json → Bool
unfolding raw_questions is_structured_question is_empty
is_legacy_quiz content =
    if is_empty (raw_questions content)
    then false
    else not (any is_structured_question (raw_questions content))

module _ (show : Json → Text) where
  -- `str(raw).strip()` of what is not None, if anything is left.
  pub printed : Json → Option Text
  printed null = none
  printed (text s) = filled (strip s)
  printed (boolean b) = filled (strip (show (boolean b)))
  printed (number z) = filled (strip (show (number z)))
  printed (real r) = filled (strip (show (real r)))
  printed (array xs) = filled (strip (show (array xs)))
  printed (object fs) = filled (strip (show (object fs)))

  -- An identifier is cut to a length; a missing one is made up.
  unfoldable pub identifier : ℕ → Text → Json → Text
  unfolding printed
  identifier most other raw = elim (printed raw) [ none ↦ other | some s ↦ take most s ]

  pub parse_option : ℕ → List Text → Json → Result QuizOption
  unfolding identifier
  parse_option index seen item = do
    require (is_object item) validation
    let id = identifier option_id_max ((97 + index) ∷ []) (get (codes "id") item)
    require (not (is_in id seen)) validation
    label ← given validation (as_filled (get (codes "text") item))
    require (leb (length label) option_text_max) validation
    ok (record { id = id; label = label })

  pub parse_options : ℕ → List Text → List Json → Result (List QuizOption)
  unfolding parse_option
  parse_options index seen [] = ok []
  parse_options index seen (item ∷ raw) = do
    o ← parse_option index seen item
    rest ← parse_options (suc index) (o.id ∷ seen) raw
    ok (o ∷ rest)

-- A list of filled texts, each stripped.
pub parse_ids : List Json → Result (List Text)
parse_ids [] = ok []
parse_ids (raw ∷ raws) = do
  id ← given validation (as_filled raw)
  rest ← parse_ids raws
  ok (id ∷ rest)

pub parse_type : Json → Result QuestionType
parse_type raw = do
  s ← given validation (as_text raw)
  if text_eq (strip s) (codes "single_choice")
      then ok single_choice
      else (if text_eq (strip s) (codes "multiple_choice")
          then ok multiple_choice
          else err validation)

pub parse_explanation : Json → Result (Option Text)
parse_explanation null = ok none
parse_explanation (text s) = ok (filled (take explanation_max (strip s)))
parse_explanation v = err validation

-- `len(set(ids)) == 1` where one option is right; the ids are distinct.
pub has_right_count : QuestionType → List Text → Bool
has_right_count single_choice ids = length ids == 1
has_right_count multiple_choice ids = true

-- The correct options of a question with these options.
pub parse_correct : QuestionType → List QuizOption → Json → Result (List Text)
unfolding parse_ids distinct has_right_count is_empty
parse_correct kind options raw = do
  listed ← given validation (as_list raw)
  require (not (is_empty listed)) validation
  ids ← parse_ids listed
  require (distinct ids) validation
  require (all (λ id. is_in id (map (λ (o : QuizOption). o.id) options)) ids) validation
  require (has_right_count kind ids) validation
  ok ids

-- The pass mark may be left out, and may not be changed.
pub is_pass_mark : Json → Bool
is_pass_mark null = true
is_pass_mark (number (pos n)) = n == passing_score
is_pass_mark v = false

module _ (show : Json → Text) where
  -- `_parse_structured_question`
  pub parse_structured_question : ℕ → Json → Result StructuredQuestion
  unfolding identifier parse_options parse_type parse_correct parse_explanation decimal
  parse_structured_question index item = do
    kind ← parse_type (get (codes "type") item)
    label ← given validation (as_filled (get (codes "text") item))
    require (leb (length label) question_text_max) validation
    let id = identifier show question_id_max (b'q' ∷ decimal (index + 1)) (get (codes "id") item)
    raw ← given validation (as_list (get (codes "options") item))
    require (leb 2 (length raw)) validation
    require (leb (length raw) max_options) validation
    options ← parse_options show 0 [] raw
    correct ← parse_correct kind options (get (codes "correct_option_ids") item)
    explanation ← parse_explanation (get (codes "explanation") item)
    require (not (has_key (codes "correct") item || has_key (codes "answer") item)) validation
    ok (record {
      id = id;
      kind = kind;
      label = label;
      options = options;
      correct_option_ids = correct;
      explanation = explanation;
    })

  pub parse_questions : ℕ → List Text → List Json → Result (List StructuredQuestion)
  unfolding parse_structured_question
  parse_questions index seen [] = ok []
  parse_questions index seen (item ∷ raw) = do
    require (is_object item) validation
    q ← parse_structured_question index item
    require (not (is_in q.id seen)) validation
    rest ← parse_questions (suc index) (q.id ∷ seen) raw
    ok (q ∷ rest)

  unfoldable pub parse_structured_quiz : Json → Result StructuredQuiz
  unfolding parse_questions is_structured_question is_empty is_pass_mark
  parse_structured_quiz content = do
    require (is_object content) validation
    raw ← given validation (as_list (get (codes "questions") content))
    require (not (is_empty raw)) validation
    require (leb (length raw) max_questions) validation
    require (all is_structured_question raw) validation
    require (is_pass_mark (get (codes "passing_score") content)) validation
    questions ← parse_questions 0 [] raw
    ok (record { questions = questions; pass_mark = passing_score })
