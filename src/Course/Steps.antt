-- ===== src/Course/Steps.antt =====
-- ProgressService of app/services/progress.py over the tables of assignments, steps and progress rows:
-- complete_step, called with no employee to notify, complete_by_progress_id and get_progress. An
-- error rolls the transaction back, so that the state is the one before the call. `env` holds
-- the Python functions that are parameters; `stamp` prints the time.
pub mod Required
pub mod Finished
pub mod Attempts
use onboard_ai.Common.{
  ℕ, Bool, true, false, ◌&&◌, ◌||◌, not, Option, none, some, List, [], ◌∷◌, all, find, ◌==◌,
  is_some, holds, if◌then◌else◌, Result, ok, err, not_found, conflict, validation, ◌>>=◌, ◌>>◌,
  require, given,
}
use onboard_ai.Common.Text.{Text, codes, text_eq}
use onboard_ai.Common.Json.{Json, null, object, Fields, end, field, get, select_keys, set_key}
use onboard_ai.Store.{Table}
use onboard_ai.Quiz.{is_structured_quiz}
use onboard_ai.Quiz.Answers.{QuizScoreResult, score_structured_quiz, apply_quiz_attempt}
use onboard_ai.Reminders.{AssignmentStatus}
use onboard_ai.Reminders
use onboard_ai.Course.{
  ProgressStatus, in_progress, completed, is_done, is_cancelled, is_completed, is_step_completed,
  start_at, Progress, Assignment, Step, State, get_assignment, get_step, get_progress, get_by_step,
  records_of, steps_of, put_progress, start_assignment,
}
use onboard_ai.Course.Content.{validate_completion_payload}
use onboard_ai.Course.Answers.{score_quiz}
use onboard_ai.Course.Snapshot.{Resolved, as_dict, resolve_progress_step_fields}

pub record Env : Type 0 where
  pub show : Json → Text
  pub read_uuid : Text → Option ℕ
  pub casefold : Text → Text
  pub four_places : ℕ → ℕ → Text
  pub stamp : ℕ → Text
  pub digits_value : Text → Option ℕ

-- `dict.update`
pub update_keys : Fields → Fields → Fields
unfolding set_key
update_keys fs end = fs
update_keys fs (field k v more) = update_keys (set_key k v fs) more

abbrev pub fields_of : Json → Fields
fields_of (object fs) = fs
fields_of v = end

-- The attempt's summary over the stored payload, whose answers go.
pub attempt_fields : Env → ℕ → QuizScoreResult → Json → Fields
unfolding update_keys select_keys apply_quiz_attempt
attempt_fields env now r payload =
    update_keys (select_keys (λ k. not (text_eq k (codes "answers"))) (fields_of payload))
      (apply_quiz_attempt payload r (env.stamp now))

-- A structured quiz is completed where it is passed.
pub record_attempt : Env → ℕ → QuizScoreResult → Progress → Progress
unfolding attempt_fields start_at
record_attempt env now r p = record p {
  payload = object (attempt_fields env now r p.payload);
  status = if r.passed then completed else in_progress;
  completed_at = if r.passed then some now else p.completed_at;
  started_at = start_at now p.started_at;
}

-- A legacy quiz stores its score with the payload; another step stores a payload that is there.
pub stored_payload : Env → Text → Json → Json → Json → Json
unfolding score_quiz set_key
stored_payload env step_type content payload before =
    if text_eq step_type (codes "quiz")
    then elim (score_quiz env.show env.casefold env.four_places content
        (get (codes "answers") payload)) [
          | none ↦ object (fields_of payload)
          | some score ↦ object (set_key (codes "quiz_score") score (fields_of payload))
        ]
    else elim payload [ null ↦ before | v ↦ v ]

pub finish_step : Env → ℕ → Text → Json → Json → Progress → Progress
unfolding stored_payload start_at
finish_step env now step_type content payload p = record p {
  payload = stored_payload env step_type content payload p.payload;
  status = completed;
  completed_at = some now;
  started_at = start_at now p.started_at;
}

-- The row as the completion leaves it.
unfoldable pub completion : Env → ℕ → Text → Json → Json → Progress → Result Progress
unfolding record_attempt finish_step
completion env now step_type content payload p =
    if text_eq step_type (codes "quiz") && is_structured_quiz content
    then (score_structured_quiz env.show content (get (codes "answers") payload) >>= λ r.
        ok (record_attempt env now r p))
    else ok (finish_step env now step_type content payload p)

-- A record of a required step of the program must be done; one of no step is passed over.
pub is_record_done : List Step → Progress → Bool
is_record_done steps r = elim (find (λ (s : Step). s.id == r.step_id) steps) [
  | none ↦ true
  | some step ↦ not step.is_required || is_done r.status
]

pub has_required : List Step → Bool
has_required [] = false
has_required (s ∷ steps) = s.is_required || has_required steps

unfoldable pub all_required_done : List Progress → List Step → Bool
unfolding is_record_done has_required
all_required_done records steps =
    all (is_record_done steps) records
    && (has_required steps || all (λ (r : Progress). is_done r.status) records)

module _ (ta : Table Assignment) (ts : Table Step) (tp : Table Progress) where
  pub finish_assignment : ℕ → Assignment → State ta ts tp → State ta ts tp
  unfolding records_of steps_of all_required_done
  finish_assignment now a s =
      if all_required_done (records_of ta ts tp a.id s) (steps_of ta ts tp a.program_id s)
      then record s {
        assignments =
            (ta.update (λ x. x.id == a.id)
              (λ x. record x { status = Reminders.completed; completed_at = some now })
              s.assignments).0;
      }
      else s

  -- The type and the content that the employee answers for.
  pub step_fields : Env → Assignment → Step → Resolved
  unfolding resolve_progress_step_fields as_dict
  step_fields env a step =
      elim (resolve_progress_step_fields env.show env.read_uuid step.id (some step)
        a.structure_snapshot) [
          | some r ↦ r
          | none ↦ record { step_type = step.step_type; content = as_dict step.content }
        ]

  pub complete_found :
      Env → ℕ → Assignment → Step → Json → State ta ts tp → Result (State ta ts tp × Progress)
  unfolding get_by_step put_progress start_assignment finish_assignment step_fields
  complete_found env now a step payload s = do
    let fields = step_fields env a step
    validate_completion_payload env.show fields.step_type fields.content payload
    p ← given not_found (get_by_step ta ts tp a.id step.id s)
    require (not (is_step_completed p.status)) conflict
    require (not (is_completed a.status)) validation
    q ← completion env now fields.step_type fields.content payload p
    ok (finish_assignment now a (start_assignment ta ts tp now a (put_progress ta ts tp q s)), q)

  unfoldable pub complete_step :
      Env → ℕ → ℕ → ℕ → ℕ → Json → State ta ts tp → Result (State ta ts tp × Progress)
  unfolding complete_found get_assignment get_step
  complete_step env now assignment_id step_id company_id payload s = do
    a ← given not_found (get_assignment ta ts tp assignment_id s)
    require (a.company_id == company_id) not_found
    require (not (is_cancelled a.status)) validation
    step ← given not_found (get_step ta ts tp step_id s)
    require (holds a.program_id step.program_id) validation
    complete_found env now a step payload s

  -- The row and its assignment, of the company that asks.
  unfoldable pub get_progress_by_id : ℕ → ℕ → State ta ts tp → Result Progress
  unfolding get_progress get_assignment
  get_progress_by_id progress_id company_id s = do
    p ← given not_found (get_progress ta ts tp progress_id s)
    a ← given not_found (get_assignment ta ts tp p.assignment_id s)
    require (a.company_id == company_id) not_found
    ok p

  unfoldable pub complete_by_progress_id :
      Env → ℕ → ℕ → ℕ → Json → State ta ts tp → Result (State ta ts tp × Progress)
  unfolding complete_step get_progress_by_id
  complete_by_progress_id env now progress_id company_id payload s = do
    p ← get_progress_by_id progress_id company_id s
    complete_step env now p.assignment_id p.step_id company_id payload s
