-- ===== src/Course/Content.antt =====
-- What a step shows and what completes it: app/services/step_content.py, without the scoring of
-- legacy quizzes. `show` is Python's `str` on values that are not texts.
use onboard_ai.Common.{
  ◌++◌, ℕ, zero, suc, ◌+◌, Bool, true, false, ◌&&◌, Option, none, some, List, [], ◌∷◌, all, length,
  take, leb, is_some, if◌then◌else◌, Result, ok, validation, ◌>>=◌, ◌>>◌, require, given,
}
use onboard_ai.Common.Text.{Text, codes, text_eq}
use onboard_ai.Common.Json.{
  Json, null, boolean, text, object, get, has_key, is_object, as_list, as_text, as_filled, or_else,
}
use onboard_ai.Common.Decimal.{decimal}
use onboard_ai.Quiz.{
  question_id_max, question_text_max, max_questions, identifier, is_structured_quiz,
  parse_structured_quiz,
}
use onboard_ai.Quiz.Answers.{validate_quiz_answers}

abbrev pub answer_max : ℕ
answer_max = 2000

abbrev pub max_content_blocks : ℕ
max_content_blocks = 100

abbrev pub block_text_max : ℕ
block_text_max = 20000

abbrev pub block_id_max : ℕ
block_id_max = 64

-- A legacy question: its id and its text.
pub record Question : Type 0 where
  pub id : Text
  pub label : Text

pub record ContentBlock : Type 0 where
  pub id : Text
  pub kind : Text
  pub body : Text

-- `_raw` of the questions, and a name from the index.
abbrev numbered : Text → ℕ → Text
numbered prefix index = prefix ++ decimal (index + 1)

-- `isinstance(v, dict) and v`, else `{}`: of both the code reads only values by key.
pub is_allowed_type : Json → Bool
is_allowed_type (text s) = text_eq s (codes "text")
is_allowed_type v = false

-- The text of a block: `text`, or `body` where there is no `text`.
pub block_text : Json → Json
block_text item = elim (get (codes "text") item) [ null ↦ get (codes "body") item | v ↦ v ]

module _ (show : Json → Text) where
  -- One question of a legacy quiz; an item of another shape is skipped.
  pub parse_question : ℕ → Json → Option Question
  unfolding identifier decimal
  parse_question index (text s) = elim (as_filled (text s)) [
    | none ↦ none
    | some label ↦
        some record { id = numbered (codes "q") index; label = take question_text_max label }
  ]
  parse_question index (object fs) =
      let item = object fs in
      elim (as_filled (
        or_else (get (codes "text") item)
          (or_else (get (codes "prompt") item) (get (codes "question") item)))) [
            | none ↦ none
            | some label ↦ some record {
              id =
                  identifier show question_id_max (numbered (codes "q") index)
                    (get (codes "id") item);
              label = take question_text_max label;
            }
          ]
  parse_question index item = none

  -- At most `room` questions.
  pub collect_questions : ℕ → ℕ → List Json → List Question
  unfolding parse_question
  collect_questions room index [] = []
  collect_questions zero index (item ∷ raw) = []
  collect_questions (suc room) index (item ∷ raw) = elim (parse_question index item) [
    | none ↦ collect_questions (suc room) (suc index) raw
    | some q ↦ q ∷ collect_questions room (suc index) raw
  ]

  -- `parse_questions`
  unfoldable pub legacy_questions : Json → List Question
  unfolding collect_questions
  legacy_questions content = elim (as_list (get (codes "questions") content)) [
    | none ↦ []
    | some raw ↦ collect_questions max_questions 0 raw
  ]

  pub parse_block_item : ℕ → Json → Option ContentBlock
  unfolding identifier decimal is_allowed_type block_text
  parse_block_item index item =
      if is_object item && is_allowed_type (or_else (get (codes "type") item) (text (codes "text")))
      then elim (as_text (block_text item)) [
        | none ↦ none
        | some body ↦ some record {
          id =
              identifier show block_id_max (numbered (codes "block-") index)
                (get (codes "id") item);
          kind = codes "text";
          body = take block_text_max body;
        }
      ]
      else none

  pub collect_blocks : ℕ → ℕ → List Json → List ContentBlock
  unfolding parse_block_item
  collect_blocks room index [] = []
  collect_blocks zero index (item ∷ raw) = []
  collect_blocks (suc room) index (item ∷ raw) = elim (parse_block_item index item) [
    | none ↦ collect_blocks (suc room) (suc index) raw
    | some b ↦ b ∷ collect_blocks room (suc index) raw
  ]

  abbrev legacy_block : Text → List ContentBlock
  legacy_block body = record { id = codes "legacy-body"; kind = codes "text"; body = body } ∷ []

  -- The old contents, of one text.
  pub legacy_body : Json → List ContentBlock
  legacy_body content = elim (as_filled (get (codes "body") content)) [
    | some body ↦ legacy_block body
    | none ↦ elim (as_filled (get (codes "text") content)) [
      | some body ↦ legacy_block body
      | none ↦ []
    ]
  ]

  abbrev listed_blocks : Option (List Json) → List ContentBlock
  listed_blocks none = []
  listed_blocks (some raw) = collect_blocks max_content_blocks 0 raw

  unfoldable pub normalize_step_content : Json → List ContentBlock
  unfolding collect_blocks legacy_body
  normalize_step_content content = elim (listed_blocks (as_list (get (codes "blocks") content))) [
    | [] ↦ legacy_body content
    | b ∷ bs ↦ b ∷ bs
  ]

  -- An answer that a legacy quiz asks for.
  pub is_answered : Json → Question → Bool
  is_answered answers q = elim (get q.id answers) [
    | text s ↦ is_some (as_filled (text s)) && leb (length s) answer_max
    | _ ↦ false
  ]

  abbrev pub is_true : Json → Bool
  is_true (boolean true) = true
  is_true v = false

  pub validate_quiz_payload : Json → Json → Result (Unit {0})
  unfolding is_answered
  validate_quiz_payload content body =
      if is_structured_quiz content
      then (do
        quiz ← parse_structured_quiz show content
        selected ← validate_quiz_answers quiz (get (codes "answers") body)
        ok tt)
      else (do
        require (leb 1 (length (legacy_questions content))) validation
        require (is_object (get (codes "answers") body)) validation
        require (all (is_answered (get (codes "answers") body)) (legacy_questions content))
            validation)

  unfoldable pub validate_completion_payload : Text → Json → Json → Result (Unit {0})
  unfolding validate_quiz_payload
  validate_completion_payload step_type content body =
      if text_eq step_type (codes "ack")
      then require (is_true (get (codes "ack") body)) validation
      else (if text_eq step_type (codes "quiz") then validate_quiz_payload content body else ok tt)

-- One block of a content that an author saves.
pub is_valid_block : Json → Bool
unfolding is_allowed_type block_text
is_valid_block item =
    is_object item
    && ((if has_key (codes "type") item then is_allowed_type (get (codes "type") item) else true)
        && ((elim (as_text (block_text item)) [
          | none ↦ false
          | some body ↦ leb (length body) block_text_max
        ])
            && (elim (get (codes "id") item) [ null ↦ true | text s ↦ true | _ ↦ false ])))

pub validate_content_blocks : Json → Result (Unit {0})
unfolding is_valid_block
validate_content_blocks content =
    if has_key (codes "blocks") content
    then (do
      raw ← given validation (as_list (get (codes "blocks") content))
      require (leb (length raw) max_content_blocks) validation
      require (all is_valid_block raw) validation)
    else ok tt

pub is_url : Json → Bool
is_url null = true
is_url (text s) = true
is_url v = false

-- `validate_step_content`
unfoldable pub validate_step_content : (Json → Text) → Text → Json → Result (Unit {0})
unfolding validate_content_blocks is_url
validate_step_content show step_type content = do
  validate_content_blocks content
  (if text_eq step_type (codes "quiz")
      then (if is_structured_quiz content
          then (parse_structured_quiz show content >>= λ quiz. ok tt)
          else require (leb 1 (length (legacy_questions show content))) validation)
      else ok tt)
  (if text_eq step_type (codes "task")
      then require (is_url (or_else (get (codes "url") content) (get (codes "link") content)))
          validation
      else ok tt)
