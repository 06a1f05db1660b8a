-- ===== src/StepOrder/Editing.antt =====
-- create_step and update_step of app/services/step.py. The ids of new steps and the values that
-- a change names are arguments; show is str(...) of a JSON value, as in Course.Content.
pub mod Revision
use onboard_ai.Common.{
  ℕ, suc, ◌+◌, Bool, true, false, ◌&&◌, ◌||◌, not, Option, none, some, List, [], ◌∷◌, any, length,
  ◌==◌, is_some, Result, ok, err, not_found, conflict, validation, ◌>>=◌, ◌>>◌, require, given, ℤ,
  pos, negsuc, if◌then◌else◌,
}
use mathlib.Core.Option
use onboard_ai.Common.Text.{Text, codes, text_eq}
use onboard_ai.Common.Json.{Json, object, end}
use onboard_ai.Store.{Table}
use onboard_ai.Course.{Assignment, Step}
use onboard_ai.Course.Content.{validate_step_content}
use onboard_ai.StepOrder.{
  Program, State, get_step, require_program, has_active_assignments, bump_program_revision,
  above_all,
}

-- The arguments of create_step; a position and a time may be negative.
pub record NewStep : Type 0 where
  pub id : ℕ
  pub program_id : ℕ
  pub title : Text
  pub description : Option Text
  pub step_type : Text
  pub position : Option ℤ
  pub content : Option Json
  pub is_required : Bool
  pub estimated_minutes : Option ℤ

-- The values that update_step is given, and the names of the other keys among them.
pub record StepValues : Type 0 where
  pub title : Option Text
  pub description : Option (Option Text)
  pub step_type : Option Text
  pub content : Option Json
  pub is_required : Option Bool
  pub estimated_minutes : Option (Option ℤ)
  pub other_keys : List Text

unfoldable pub is_step_type : Text → Bool
is_step_type t = any (text_eq t) (codes "content" ∷ codes "task" ∷ codes "quiz" ∷ codes "ack" ∷ [])

unfoldable pub is_forbidden_key : Text → Bool
is_forbidden_key t =
    any (text_eq t) (codes "id" ∷ codes "program_id" ∷ codes "created_at" ∷ codes "position" ∷ [])

-- `if minutes is not None and minutes < 0: raise`
pub checked_minutes : Option ℤ → Result (Option ℕ)
checked_minutes none = ok none
checked_minutes (some (pos n)) = ok (some n)
checked_minutes (some (negsuc n)) = err validation

pub checked_values : Option (Option ℤ) → Result (Option (Option ℕ))
unfolding checked_minutes
checked_values none = ok none
checked_values (some minutes) = checked_minutes minutes >>= λ n. ok (some n)

-- The position that is asked for, or the one after the last.
pub new_position : List Step → Option ℤ → Result ℕ
unfolding above_all
new_position steps none = ok (above_all steps)
new_position steps (some (pos n)) = ok n
new_position steps (some (negsuc n)) = err validation

-- `values.get(key, old)`
abbrev pub or_old : {A : Type 0} → Option A → A → A
or_old none old = old
or_old (some new) old = new

-- `step_update_touches_structure`
unfoldable pub touches_structure : StepValues → Bool
touches_structure v = is_some v.step_type || is_some v.is_required || is_some v.content

pub set_values : StepValues → Option (Option ℕ) → Step → Step
set_values v minutes s = record s {
  title = or_old v.title s.title;
  description = or_old v.description s.description;
  step_type = or_old v.step_type s.step_type;
  content = or_old v.content s.content;
  is_required = or_old v.is_required s.is_required;
  estimated_minutes = or_old minutes s.estimated_minutes;
}

module _ (show : Json → Text) (tp : Table Program) (ts : Table Step) (ta : Table Assignment) where
  -- Once the arguments are checked: a course with an open assignment is locked, and a position is taken once.
  pub insert_step_row : NewStep → Option ℕ → State tp ts ta → Result (State tp ts ta)
  unfolding new_position bump_program_revision
  insert_step_row n minutes s = do
    position ← new_position (ts.select (λ x. x.program_id == n.program_id) s.steps) n.position
    require (not (has_active_assignments tp ts ta n.program_id s)) conflict
    let (db, created) =
        ts.insert (λ x. (x.program_id == n.program_id) && (x.position == position))
          (record {
            id = n.id;
            program_id = n.program_id;
            title = n.title;
            description = n.description;
            step_type = n.step_type;
            position = position;
            is_required = n.is_required;
            estimated_minutes = minutes;
            content = or_old n.content (object end);
          })
          s.steps
    require (is_some created) conflict
    ok (bump_program_revision tp ts ta n.program_id (record s { steps = db }))

  unfoldable pub create_step : NewStep → ℕ → State tp ts ta → Result (State tp ts ta)
  unfolding insert_step_row is_step_type checked_minutes
  create_step n company_id s = do
    require (is_step_type n.step_type) validation
    minutes ← checked_minutes n.estimated_minutes
    validate_step_content show n.step_type (or_old n.content (object end))
    p ← require_program tp ts ta n.program_id company_id s
    insert_step_row n minutes s

  -- Once the step is found: only a change of its structure is locked, and counted.
  pub put_values : StepValues → Option (Option ℕ) → Step → State tp ts ta → Result (State tp ts ta)
  unfolding bump_program_revision set_values touches_structure
  put_values v minutes step s = do
    require (not (touches_structure v && has_active_assignments tp ts ta step.program_id s))
        conflict
    let (db, updated) = ts.update (λ x. x.id == step.id) (set_values v minutes) s.steps
    require (not (length updated == 0)) not_found
    (if touches_structure v
        then ok (bump_program_revision tp ts ta step.program_id (record s { steps = db }))
        else ok (record s { steps = db }))

  unfoldable pub update_step : ℕ → StepValues → ℕ → State tp ts ta → Result (State tp ts ta)
  unfolding put_values checked_values is_step_type is_forbidden_key
  update_step step_id v company_id s = do
    require (not (any is_forbidden_key v.other_keys)) validation
    require (or_old (Option.map is_step_type v.step_type) true) validation
    minutes ← checked_values v.estimated_minutes
    step ← given not_found (get_step tp ts ta step_id s)
    p ← require_program tp ts ta step.program_id company_id s
    validate_step_content show (or_old v.step_type step.step_type) (or_old v.content step.content)
    put_values v minutes step s
