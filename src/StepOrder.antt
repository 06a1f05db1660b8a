-- ===== src/StepOrder.antt =====
-- The steps of a course: reorder_steps and delete_step of app/services/step.py (create_step and
-- update_step are in Editing) with app/services/course_edit_policy.py, over the tables of programs, steps and assignments. Steps
-- that progress refers to (a foreign key) are an argument of the deletion.
pub mod Places
pub mod Listing
pub mod Phases
pub mod Reorder
pub mod Editing
mod Tests
use onboard_ai.Common.{
  ℕ, zero, suc, ◌+◌, max, Bool, true, false, ◌&&◌, ◌||◌, not, Option, none, some, List, [], ◌∷◌,
  ◌++◌, map, any, all, length, take, ◌==◌, holds, if◌then◌else◌, Result, ok, err, not_found,
  conflict, validation, ◌>>=◌, ◌>>◌, require, given,
}
use onboard_ai.Store.{Table}
use onboard_ai.Reminders.{is_active}
use onboard_ai.Course.{Assignment, Step, list_limit}
use onboard_ai.Course.Snapshot.{sort_steps}

-- The columns of a program that the editing of steps reads or writes.
pub record Program : Type 0 where
  pub id : ℕ
  pub company_id : ℕ
  pub revision : ℕ

abbrev pub is_listed : ℕ → List ℕ → Bool
is_listed k ids = any (λ j. k == j) ids

-- `len(ids) == len(set(ids))`
unfoldable pub has_distinct : List ℕ → Bool
has_distinct [] = true
has_distinct (k ∷ ids) = not (is_listed k ids) && has_distinct ids

-- `set(xs) == set(ys)`
unfoldable pub same_ids : List ℕ → List ℕ → Bool
same_ids xs ys = all (λ x. is_listed x ys) xs && all (λ y. is_listed y xs) ys

pub same_list : List ℕ → List ℕ → Bool
same_list [] [] = true
same_list [] (y ∷ ys) = false
same_list (x ∷ xs) [] = false
same_list (x ∷ xs) (y ∷ ys) = (x == y) && same_list xs ys

-- `max(positions, default=-1) + 1`
pub above_all : List Step → ℕ
above_all [] = 0
above_all (s ∷ steps) = max (suc s.position) (above_all steps)

pub moved_to : ℕ → Step → Step
moved_to position s = record s { position = position }

abbrev pub ids_of : List Step → List ℕ
ids_of steps = map (λ (s : Step). s.id) steps

-- The ids, each with its position from a first one on: the loop of one phase.
pub updates_from : ℕ → List ℕ → List (ℕ × ℕ)
updates_from start [] = []
updates_from start (k ∷ ids) = (k, start) ∷ updates_from (start + 1) ids

-- Both phases: to positions that no step has, and then to 0, 1, 2 and so on.
pub phase_updates : List Step → List ℕ → List (ℕ × ℕ)
unfolding above_all updates_from
phase_updates existing ids =
    updates_from (above_all existing + length existing) ids ++ updates_from 0 ids

module _ (ts : Table Step) where
  -- `list_by_program_id`, in the order of the positions.
  pub list_by_program_id : ℕ → ts.Db → List Step
  unfolding sort_steps
  list_by_program_id k db = take list_limit (sort_steps (ts.select (λ x. x.program_id == k) db))

  -- One update for each id, in turn.
  pub run_updates : List (ℕ × ℕ) → ts.Db → ts.Db
  unfolding moved_to
  run_updates [] db = db
  run_updates ((k, position) ∷ updates) db =
      run_updates updates (ts.update (λ x. x.id == k) (moved_to position) db).0

  pub two_phases : List Step → List ℕ → ts.Db → ts.Db
  unfolding phase_updates run_updates
  two_phases existing ids db = run_updates (phase_updates existing ids) db

module _ (tp : Table Program) (ts : Table Step) (ta : Table Assignment) where
  pub record State : Type 0 where
    pub programs : tp.Db
    pub steps : ts.Db
    pub assignments : ta.Db

  pub get_program : ℕ → State → Option Program
  get_program k s = tp.first (λ p. p.id == k) s.programs

  pub get_step : ℕ → State → Option Step
  get_step k s = ts.first (λ x. x.id == k) s.steps

  pub has_active_assignments : ℕ → State → Bool
  unfolding is_active
  has_active_assignments k s =
      any (λ (a : Assignment). holds a.program_id k && is_active a.status) (ta.rows s.assignments)

  pub bump_program_revision : ℕ → State → State
  bump_program_revision k s = record s {
    programs =
        (tp.update (λ p. p.id == k) (λ p. record p { revision = p.revision + 1 }) s.programs).0;
  }

  pub reorder_found : ℕ → List ℕ → State → Result State
  unfolding list_by_program_id same_ids same_list has_active_assignments two_phases
      bump_program_revision
  reorder_found program_id step_ids s = do
    let existing = list_by_program_id ts program_id s.steps
    require (same_ids step_ids (ids_of existing)) validation
    (if same_list step_ids (ids_of existing) then ok s else (do
      require (not (has_active_assignments program_id s)) conflict
      ok (
          bump_program_revision program_id
            (record s { steps = two_phases ts existing step_ids s.steps }))))

  -- The program, which is of the company that asks.
  pub require_program : ℕ → ℕ → State → Result Program
  unfolding get_program
  require_program program_id company_id s = do
    p ← given not_found (get_program program_id s)
    require (p.company_id == company_id) not_found
    ok p

  unfoldable pub reorder_steps : ℕ → List ℕ → ℕ → State → Result State
  unfolding has_distinct require_program reorder_found
  reorder_steps program_id step_ids company_id s = do
    require (not (length step_ids == 0)) validation
    require (has_distinct step_ids) validation
    p ← require_program program_id company_id s
    reorder_found program_id step_ids s

  unfoldable pub delete_step : (ℕ → Bool) → ℕ → ℕ → State → Result State
  unfolding require_program get_step has_active_assignments list_by_program_id two_phases
      bump_program_revision
  delete_step is_referenced step_id company_id s = do
    step ← given not_found (get_step step_id s)
    p ← require_program step.program_id company_id s
    require (not (has_active_assignments step.program_id s)) conflict
    require (not (is_referenced step_id)) conflict
    let (db, deleted) = ts.delete (λ x. x.id == step_id) s.steps
    require (not (deleted == 0)) not_found
    let remaining = list_by_program_id ts step.program_id db
    ok (
        bump_program_revision step.program_id
          (record s { steps = two_phases ts remaining (ids_of remaining) db }))
