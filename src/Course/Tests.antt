-- ===== src/Course/Tests.antt =====
-- Runs of the sample course, and of quizzes.
use onboard_ai.Common.{
  if◌then◌else◌, ◌+◌, ◌≤◌, ◌≡◌, refl, arith, true, none, some, [], ◌∷◌, ok, pos,
}
use onboard_ai.Common.Text.{codes, text_eq, strip, is_space}
use onboard_ai.Common.Json.{
  Json, null, boolean, number, real, text, array, object, nil, cons, end, field, get, lookup,
  is_object, has_key, as_filled, select_keys, set_key, truthy,
}
use onboard_ai.Store.Memory.{memory}
use onboard_ai.Quiz.Sample.{the_content, answers_with, passed_result}
use onboard_ai.Quiz.{parse_structured_quiz, is_structured_quiz}
use onboard_ai.Quiz.Answers.{
  QuizScoreResult, score_structured_quiz, validate_quiz_answers, score_percentage,
  apply_quiz_attempt,
}
use onboard_ai.Quiz.Answers.Right.{IsCountOf}
use onboard_ai.Reminders
use onboard_ai.Course.Answers.{current_block_index}
use onboard_ai.Course.{
  get_progress, in_progress, completed, Progress, Assignment, Step, is_cancelled, is_completed,
  is_step_completed, is_done,
}
use onboard_ai.Course.Samples.{
  read_one, env, two_blocks, reading, course, assigned, signing, studied, Store, before, signed,
  after,
}
use onboard_ai.Course.Content.{
  normalize_step_content, legacy_questions, validate_completion_payload,
}
use onboard_ai.Course.Answers.{score_quiz, payload_block_index, current_block_index}
use onboard_ai.Course.Snapshot.{as_dict, build_structure_snapshot, resolve_progress_step_fields}
use onboard_ai.Course.Snapshot.History.{resolve-build}
use onboard_ai.Course.Steps.{completion, complete_step}
use onboard_ai.Course.Steps.Attempts.{IsRecorded, completion-IsRecorded}
use onboard_ai.Course.Steps.Finished.{IsSettled, complete_step-IsSettled}
use onboard_ai.Course.Blocks.{
  Loaded, is_final_block, is_not_started, load_mutable, advance_block, complete_content_block,
  resolve_resume_item,
}
use onboard_ai.Course.Blocks.Last.{completed_at_last}
use onboard_ai.Course.Blocks.Cursor.{HasMoved, advance_once}

completes :
    complete_step
      (memory Assignment)
      (memory Step)
      (memory Progress)
      env
      70
      1
      12
      9
      signed.payload
      before
    ≡ ok (after, signed)
unfolding complete_step is_cancelled validate_completion_payload text_eq is_step_completed
    is_completed completion is_done
completes = refl

resolve-build_example :
    resolve_progress_step_fields env.show read_one 11 none
      (build_structure_snapshot (λ k. k ∷ []) 3 course)
    ≡ some record { step_type = codes "content"; content = two_blocks }
unfolding as_dict truthy
resolve-build_example =
    resolve-build env.show read_one (λ k. k ∷ []) (λ k. refl) 3 11 course reading none
      ((λ e. omega (arith, e), tt), (tt, tt)) refl refl

complete_step-IsSettled_example :
    IsSettled (memory Assignment) (memory Step) (memory Progress) 1 after
complete_step-IsSettled_example =
    complete_step-IsSettled (memory Assignment) (memory Step) (memory Progress) env 70 1 12 9
      signed.payload before after signed completes

-- The blocks of the step that is read.
abbrev begun : Progress
begun = record signing { id = 23; step_id = 11; status = in_progress; started_at = some 60 }

abbrev reading_store : Store
reading_store = record { assignments = assigned ∷ []; steps = course; progress = begun ∷ [] }

abbrev first_block : Loaded
first_block = record {
  row = begun;
  assignment = assigned;
  step_type = codes "content";
  block_count = 2;
}

loads :
    load_mutable (memory Assignment) (memory Step) (memory Progress) env 23 9 reading_store
    ≡ ok first_block
unfolding load_mutable is_cancelled is_completed is_step_completed resolve_progress_step_fields
    normalize_step_content as_dict get lookup text_eq is_object truthy
loads = refl

advance_once_example :
    (s' : Store) × (q : Progress) × (advance_block
        (memory Assignment)
        (memory Step)
        (memory Progress)
        env
        70
        23
        9
        (pos 0)
        reading_store
      ≡ ok (s', q))
    × (advance_block (memory Assignment) (memory Step) (memory Progress) env 80 23 9 (pos 0) s'
        ≡ ok (s', q))
    × (get_progress (memory Assignment) (memory Step) (memory Progress) 23 s' ≡ some q)
    × HasMoved env 0 first_block q
unfolding text_eq is_not_started
advance_once_example =
    advance_once (memory Assignment) (memory Step) (memory Progress) env 70 80 23 9 0 reading_store
      first_block loads refl refl

abbrev at_last : Progress
at_last = record begun { payload = object (field (codes "block_index") (number (pos 1)) end) }

abbrev last_store : Store
last_store = record reading_store { progress = at_last ∷ [] }

abbrev last_block : Loaded
last_block = record first_block { row = at_last }

loads_last :
    load_mutable (memory Assignment) (memory Step) (memory Progress) env 23 9 last_store
    ≡ ok last_block
unfolding load_mutable is_cancelled is_completed is_step_completed resolve_progress_step_fields
    normalize_step_content as_dict get lookup text_eq is_object truthy
loads_last = refl

abbrev read_through : Progress
read_through = record at_last {
  status = completed;
  completed_at = some 90;
  payload = object (
      field (codes "block_index") (number (pos 1))
        (field (codes "content_started") (boolean true) end));
}

abbrev read_store : Store
read_store = record {
  assignments =
      record assigned { status = Reminders.completed; started_at = some 90; completed_at = some 90 }
      ∷ [];
  steps = course;
  progress = read_through ∷ [];
}

finishes :
    complete_content_block
      (memory Assignment)
      (memory Step)
      (memory Progress)
      env
      90
      23
      9
      (pos 1)
      last_store
    ≡ ok (read_store, read_through)
unfolding complete_content_block complete_step load_mutable is_cancelled is_completed
    is_step_completed is_not_started is_final_block resolve_progress_step_fields
    normalize_step_content as_dict get lookup text_eq is_object truthy validate_completion_payload
    completion is_done set_key payload_block_index current_block_index
finishes = refl

completed_at_last_example :
    (1 ≡ (
      if is_not_started at_last.status
      then 0
      else current_block_index env.digits_value at_last.payload))
    × (2 ≤ 1 + 1)
unfolding is_step_completed
completed_at_last_example =
    completed_at_last (memory Assignment) (memory Step) (memory Progress) env 90 23 9 1 last_store
      read_store last_block read_through loads_last finishes refl

abbrev handed_in : Json
handed_in = object (field (codes "answers") (answers_with (codes "b")) end)

abbrev quizzed : Progress
quizzed = record signing {
  status = completed;
  started_at = some 70;
  completed_at = some 70;
  payload = object (apply_quiz_attempt null passed_result (codes "now"));
}

attempts : completion env 70 (codes "quiz") the_content handed_in signing ≡ ok quizzed
unfolding completion is_structured_quiz score_structured_quiz parse_structured_quiz
    validate_quiz_answers score_percentage apply_quiz_attempt is_object get lookup text_eq as_filled
    strip has_key select_keys set_key
attempts = refl

completion-IsRecorded_example :
    (r : QuizScoreResult) × (score_structured_quiz env.show the_content
        (get (codes "answers") handed_in)
      ≡ ok r)
    × IsCountOf env.show the_content (get (codes "answers") handed_in) r
    × IsRecorded signing r quizzed
unfolding is_structured_quiz is_object get text_eq as_filled strip
completion-IsRecorded_example =
    completion-IsRecorded env 70 the_content handed_in signing quizzed refl attempts

-- A quiz of the old kind: one of its two questions has an answer.
abbrev old_quiz : Json
old_quiz = object (
    field (codes "questions")
      (array (
        cons (text (codes " Why? ")) (
          cons
            (object (
              field (codes "prompt") (text (codes "Where?"))
                (field (codes "correct") (text (codes " the  office ")) end)))
            nil)))
      end)

scores_old :
    score_quiz env.show env.casefold env.four_places old_quiz
      (object (field (codes "q2") (text (codes "the office")) end))
    ≡ some (
        object (
          field (codes "correct_count") (number (pos 1)) (
            field (codes "total") (number (pos 1)) (
              field (codes "score") (real (codes "0.5")) (
                field
                  (codes "results")
                  (array (
                    cons
                      (object (
                        field
                          (codes "id")
                          (text (codes "q1"))
                          (field (codes "is_correct") null end)))
                      (cons
                        (object (
                          field
                            (codes "id")
                            (text (codes "q2"))
                            (field (codes "is_correct") (boolean true) end)))
                        nil)))
                  end)))))
unfolding score_quiz legacy_questions get lookup text_eq set_key truthy as_filled strip is_space
    is_object
scores_old = refl

resumes : resolve_resume_item (studied ∷ signing ∷ begun ∷ []) ≡ some begun
unfolding resolve_resume_item is_done
resumes = refl
