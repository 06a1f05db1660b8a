-- ===== src/Course/Answers.antt =====
-- The scoring of legacy quizzes and the cursor of app/services/step_content.py. `casefold` is Python's
-- method, `four_places` prints the float `round(n / d, 4)`, and `digits_value` is the value of a text
-- that `isdigit` accepts.
use onboard_ai.Common.{
  ℕ, suc, ◌+◌, Bool, true, Option, none, some, List, [], ◌∷◌, ◌++◌, ◌==◌, take, if◌then◌else◌, pos,
}
use onboard_ai.Common.Text.{Text, codes, text_eq, strip, is_space}
use onboard_ai.Common.Json.{
  Json, null, boolean, number, real, text, array, object, Items, nil, cons, Fields, end, field,
  lookup, set_key, get, is_object, as_list, as_filled, as_int, or_else,
}
use onboard_ai.Common.Decimal.{decimal}
use onboard_ai.Quiz.{identifier, question_id_max}
use onboard_ai.Course.Content.{Question, legacy_questions}

abbrev pub correct_max : ℕ
correct_max = 500

abbrev drop_empty : Text → List Text → List Text
drop_empty [] words = words
drop_empty (c ∷ cs) words = (c ∷ cs) ∷ words

-- One more letter or space in front of a text that is split into its first word and the others.
pub push_char : ℕ → Text × List Text → Text × List Text
push_char c (word, words) = if is_space c then ([], drop_empty word words) else (c ∷ word, words)

pub split_first : Text → Text × List Text
unfolding push_char
split_first [] = ([], [])
split_first (c ∷ cs) = push_char c (split_first cs)

-- `s.split()`
pub split_words : Text → List Text
unfolding split_first
split_words s = let (word, words) = split_first s in drop_empty word words

-- `" ".join(words)`
pub join_words : List Text → Text
join_words [] = []
join_words (w ∷ []) = w
join_words (w ∷ v ∷ ws) = w ++ 32 ∷ join_words (v ∷ ws)

module _ (show : Json → Text) (casefold : Text → Text) where
  -- `_normalize_answer`
  pub normalize_answer : Text → Text
  unfolding split_words join_words
  normalize_answer s = take correct_max (join_words (split_words (casefold (strip s))))

  -- The answers by the ids of their questions; the last one of an id stands.
  pub collect_key : ℕ → Fields → List Json → Fields
  unfolding identifier normalize_answer decimal set_key
  collect_key index key [] = key
  collect_key index key (item ∷ raw) =
      let id =
        identifier show question_id_max (codes "q" ++ decimal (index + 1))
          (get (codes "id") item) in
      let correct = or_else (get (codes "correct") item) (get (codes "answer") item) in
      let more : Fields = elim (as_correct (is_object item) correct) [
        | none ↦ key
        | some s ↦ set_key id (text (normalize_answer s)) key
      ] in
      collect_key (suc index) more raw
    where
      as_correct : Bool → Json → Option Text
      as_correct true (text s) = elim (as_filled (text s)) [ none ↦ none | some t ↦ some s ]
      as_correct b v = none

  pub parse_answer_key : Json → Fields
  unfolding collect_key
  parse_answer_key content = elim (as_list (get (codes "questions") content)) [
    | none ↦ end
    | some raw ↦ collect_key 0 end raw
  ]

  -- The normalized text of an answer, or the empty text.
  abbrev actual_answer : Json → Text
  actual_answer (text s) = normalize_answer s
  actual_answer v = []

  -- Whether the answer is right, where the question has one.
  pub is_right : Fields → Json → Question → Option Bool
  unfolding normalize_answer lookup get
  is_right key answers q = elim (lookup q.id key) [
    | some (text expected) ↦ some (text_eq (actual_answer (get q.id answers)) expected)
    | _ ↦ none
  ]

  abbrev as_json : Option Bool → Json
  as_json none = null
  as_json (some b) = boolean b

  pub results : Fields → Json → List Question → Items
  unfolding is_right
  results key answers [] = nil
  results key answers (q ∷ qs) =
      cons
        (object (
          field (codes "id") (text q.id)
            (field (codes "is_correct") (as_json (is_right key answers q)) end)))
        (results key answers qs)

  pub count_right : Fields → Json → List Question → ℕ
  unfolding is_right
  count_right key answers [] = 0
  count_right key answers (q ∷ qs) =
      let rest = count_right key answers qs in
      elim (is_right key answers q) [ some true ↦ suc rest | _ ↦ rest ]

  pub size : Fields → ℕ
  size end = 0
  size (field k v fs) = suc (size fs)

  -- `score_quiz`: nothing where no question has an answer.
  unfoldable pub score_quiz : (ℕ → ℕ → Text) → Json → Json → Option Json
  unfolding parse_answer_key results count_right size
  score_quiz four_places content answers =
      let key = parse_answer_key content in
      let correct_count = count_right key answers (legacy_questions show content) in
      let total = size key in
      if total == 0
      then none
      else some (
          object (
            field (codes "correct_count") (number (pos correct_count)) (
              field (codes "total") (number (pos total)) (
                field (codes "score") (real (four_places correct_count total)) (
                  field (codes "results")
                    (array (results key answers (legacy_questions show content))) end)))))

-- `payload_block_index`
unfoldable pub payload_block_index : (Text → Option ℕ) → Json → Option ℕ
unfolding get
payload_block_index digits_value payload = elim (get (codes "block_index") payload) [
  | text s ↦ digits_value s
  | raw ↦ elim (as_int raw) [ some (pos n) ↦ some n | _ ↦ none ]
]

-- `current_block_index`
unfoldable pub current_block_index : (Text → Option ℕ) → Json → ℕ
unfolding payload_block_index
current_block_index digits_value payload = elim (payload_block_index digits_value payload) [
  | none ↦ 0
  | some n ↦ n
]
