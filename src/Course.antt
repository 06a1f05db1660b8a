-- ===== src/Course.antt =====
-- An employee's way through a course: app/services/step_content.py, course_snapshot.py, progress.py
-- and learning_progress.py. Python functions on texts and floats that the code calls are parameters.
pub mod Content
pub mod Answers
pub mod Snapshot
pub mod Steps
pub mod Blocks
mod Samples
mod Tests
use onboard_ai.Common.{
  ℕ, Bool, true, false, ◌&&◌, Option, none, some, List, ◌==◌, if◌then◌else◌, take, holds,
}
use onboard_ai.Common.Text.{Text}
use onboard_ai.Common.Json.{Json}
use onboard_ai.Reminders.{AssignmentStatus}
use onboard_ai.Store.{Table}
use onboard_ai.Reminders

pub data ProgressStatus : Type 0 where
  not_started in_progress completed skipped : ProgressStatus

-- `_DONE_STATUSES`
unfoldable pub is_done : ProgressStatus → Bool
is_done not_started = false
is_done in_progress = false
is_done completed = true
is_done skipped = true

pub record Progress : Type 0 where
  pub id : ℕ
  pub assignment_id : ℕ
  pub step_id : ℕ
  pub status : ProgressStatus
  pub started_at : Option ℕ
  pub completed_at : Option ℕ
  pub payload : Json

-- The columns of an assignment and of a step that progress reads or writes.
pub record Assignment : Type 0 where
  pub id : ℕ
  pub company_id : ℕ
  pub program_id : Option ℕ
  pub status : AssignmentStatus
  pub started_at : Option ℕ
  pub completed_at : Option ℕ
  pub structure_snapshot : Json

pub record Step : Type 0 where
  pub id : ℕ
  pub program_id : ℕ
  pub title : Text
  pub description : Option Text
  pub step_type : Text
  pub position : ℕ
  pub is_required : Bool
  pub estimated_minutes : Option ℕ
  pub content : Json

unfoldable pub is_cancelled : AssignmentStatus → Bool
is_cancelled Reminders.pending = false
is_cancelled Reminders.in_progress = false
is_cancelled Reminders.completed = false
is_cancelled Reminders.cancelled = true

unfoldable pub is_completed : AssignmentStatus → Bool
is_completed Reminders.pending = false
is_completed Reminders.in_progress = false
is_completed Reminders.completed = true
is_completed Reminders.cancelled = false

unfoldable pub is_pending : AssignmentStatus → Bool
is_pending Reminders.pending = true
is_pending Reminders.in_progress = false
is_pending Reminders.completed = false
is_pending Reminders.cancelled = false

unfoldable pub is_step_completed : ProgressStatus → Bool
is_step_completed completed = true
is_step_completed other = false

-- `started_at` is set once.
pub start_at : ℕ → Option ℕ → Option ℕ
start_at now none = some now
start_at now (some at) = some at

-- The columns that progress writes.
pub written : Progress → Progress → Progress
written p x = record x {
  status = p.status;
  started_at = p.started_at;
  completed_at = p.completed_at;
  payload = p.payload;
}

-- The rows that a listing gives at most.
abbrev pub list_limit : ℕ
list_limit = 1000

module _ (ta : Table Assignment) (ts : Table Step) (tp : Table Progress) where
  pub record State : Type 0 where
    pub assignments : ta.Db
    pub steps : ts.Db
    pub progress : tp.Db

  pub get_assignment : ℕ → State → Option Assignment
  get_assignment k s = ta.first (λ a. a.id == k) s.assignments

  pub get_step : ℕ → State → Option Step
  get_step k s = ts.first (λ x. x.id == k) s.steps

  pub get_progress : ℕ → State → Option Progress
  get_progress k s = tp.first (λ p. p.id == k) s.progress

  -- `get_by_assignment_and_step`
  pub get_by_step : ℕ → ℕ → State → Option Progress
  get_by_step assignment_id step_id s =
      tp.first (λ p. p.assignment_id == assignment_id && p.step_id == step_id) s.progress

  pub records_of : ℕ → State → List Progress
  records_of k s = take list_limit (tp.select (λ p. p.assignment_id == k) s.progress)

  pub steps_of : Option ℕ → State → List Step
  steps_of k s = take list_limit (ts.select (λ x. holds k x.program_id) s.steps)

  -- `uow.progress.update(progress.id, ...)`
  pub put_progress : Progress → State → State
  unfolding written
  put_progress p s = record s {
    progress = (tp.update (λ x. x.id == p.id) (written p) s.progress).0;
  }

  pub start_assignment : ℕ → Assignment → State → State
  unfolding is_pending
  start_assignment now a s =
      if is_pending a.status
      then record s {
        assignments =
            (ta.update (λ x. x.id == a.id)
              (λ x. record x { status = Reminders.in_progress; started_at = some now })
              s.assignments).0;
      }
      else s
