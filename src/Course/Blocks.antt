-- ===== src/Course/Blocks.antt =====
-- The content-block cursor: app/services/learning_progress.py. A call that raises, or that leaves its
-- transaction without a commit, changes nothing.
pub mod Loading
pub mod Last
pub mod Cursor
use onboard_ai.Common.{
  ℕ, zero, suc, ◌+◌, ◌-◌, Bool, true, false, ◌&&◌, ◌||◌, not, Option, none, some, List, [], ◌∷◌,
  length, leb, ◌==◌, if◌then◌else◌, Result, ok, err, not_found, conflict, validation, ◌>>=◌, ◌>>◌,
  require, given, ℤ, pos, negsuc,
}
use onboard_ai.Common.Text.{Text, codes, text_eq}
use onboard_ai.Common.Json.{Json, null, boolean, number, object, Fields, field, set_key}
use onboard_ai.Store.{Table}
use onboard_ai.Course.{
  ProgressStatus, not_started, in_progress, completed, skipped, is_done, is_cancelled, is_completed,
  is_step_completed, start_at, Progress, Assignment, Step, State, get_assignment, get_step,
  get_progress, put_progress, start_assignment,
}
use onboard_ai.Course.Content.{normalize_step_content}
use onboard_ai.Course.Answers.{current_block_index}
use onboard_ai.Course.Snapshot.{Resolved, resolve_progress_step_fields}
use onboard_ai.Course.Steps.{Env, fields_of, complete_step}

unfoldable pub is_final_block : ℕ → ℕ → Bool
is_final_block block_index zero = true
is_final_block block_index (suc n) = leb n block_index

-- The first row in progress, or else the first that is not done.
pub find_in_progress : List Progress → Option Progress
find_in_progress [] = none
find_in_progress (p ∷ ps) = elim p.status [ in_progress ↦ some p | _ ↦ find_in_progress ps ]

pub find_open : List Progress → Option Progress
find_open [] = none
find_open (p ∷ ps) = if is_done p.status then find_open ps else some p

unfoldable pub resolve_resume_item : List Progress → Option Progress
unfolding find_in_progress find_open
resolve_resume_item ps = elim (find_in_progress ps) [ some p ↦ some p | none ↦ find_open ps ]

-- `merge_learning_payload` with the cursor.
pub merge_learning_payload : Json → ℕ → Json
unfolding set_key
merge_learning_payload existing index = object (
    set_key (codes "content_started") (boolean true)
      (set_key (codes "block_index") (number (pos index)) (fields_of existing)))

pub started_row : ℕ → Progress → Progress
unfolding merge_learning_payload start_at
started_row now p = record p {
  status = in_progress;
  payload = merge_learning_payload p.payload 0;
  started_at = start_at now p.started_at;
}

pub advanced_row : ℕ → Progress → Progress
unfolding merge_learning_payload
advanced_row index p = record p { payload = merge_learning_payload p.payload index }

-- What a call of the employee works on.
pub record Loaded : Type 0 where
  pub row : Progress
  pub assignment : Assignment
  pub step_type : Text
  pub block_count : ℕ

unfoldable pub is_not_started : ProgressStatus → Bool
is_not_started not_started = true
is_not_started other = false

-- Whether the block that the employee has read is the current one and not the last.
pub may_advance : ℕ → ℕ → ℕ → Bool
may_advance expected current block_count =
    (expected == current) && not (is_final_block current block_count)

-- Whether the call completes the step.
pub may_complete : Bool → ℕ → ℕ → ℕ → Bool
may_complete just_started expected current block_count =
    (just_started && (expected == 0 && is_final_block 0 block_count))
    || ((expected == current) && is_final_block current block_count)

module _ (ta : Table Assignment) (ts : Table Step) (tp : Table Progress) where
  -- The checks on a row that is there.
  pub load_row : Env → ℕ → Progress → State ta ts tp → Result Loaded
  unfolding get_assignment get_step
  load_row env company_id p s = do
    a ← given not_found (get_assignment ta ts tp p.assignment_id s)
    require (a.company_id == company_id) not_found
    require (not (is_step_completed p.status)) conflict
    require (not (is_cancelled a.status)) validation
    require (not (is_completed a.status)) validation
    r ← given validation (
        resolve_progress_step_fields env.show env.read_uuid p.step_id
          (get_step ta ts tp p.step_id s) a.structure_snapshot)
    ok (record {
      row = p;
      assignment = a;
      step_type = r.step_type;
      block_count = length (normalize_step_content env.show r.content);
    })

  unfoldable pub load_mutable : Env → ℕ → ℕ → State ta ts tp → Result Loaded
  unfolding get_progress load_row
  load_mutable env progress_id company_id s = do
    p ← given not_found (get_progress ta ts tp progress_id s)
    load_row env company_id p s

  -- `_ensure_started`: the state, the row as it now stands, and whether it was started.
  pub ensure_started : ℕ → Loaded → State ta ts tp → State ta ts tp × Progress × Bool
  unfolding started_row put_progress start_assignment
  ensure_started now l s =
      if is_not_started l.row.status
      then (
        start_assignment ta ts tp now l.assignment
            (put_progress ta ts tp (started_row now l.row) s),
        started_row now l.row,
        true,
      )
      else (s, l.row, false)

  unfoldable pub start_or_resume :
      Env → ℕ → ℕ → ℕ → State ta ts tp → Result (State ta ts tp × Progress)
  unfolding ensure_started
  start_or_resume env now progress_id company_id s = do
    l ← load_mutable env progress_id company_id s
    let (s1, p, just_started) = ensure_started now l s
    ok (s1, p)

  pub advance_row : Env → ℕ → ℕ → Progress → State ta ts tp → State ta ts tp × Progress
  unfolding may_advance advanced_row put_progress
  advance_row env block_count expected p s =
      let current = current_block_index env.digits_value p.payload in
      if may_advance expected current block_count
      then (put_progress ta ts tp (advanced_row (current + 1) p) s, advanced_row (current + 1) p)
      else (s, p)

  -- A negative index is refused before anything is read.
  unfoldable pub advance_block :
      Env → ℕ → ℕ → ℕ → ℤ → State ta ts tp → Result (State ta ts tp × Progress)
  unfolding ensure_started advance_row
  advance_block env now progress_id company_id (negsuc n) s = err validation
  advance_block env now progress_id company_id (pos expected) s = do
    l ← load_mutable env progress_id company_id s
    require (text_eq l.step_type (codes "content")) validation
    let (s1, p, just_started) = ensure_started now l s
    ok (if just_started then (s1, p) else advance_row env l.block_count expected p s1)

  -- The call on a loaded row. Where it completes the step, what was written before is rolled back.
  pub finish_block : Env → ℕ → ℕ → ℕ → Loaded → State ta ts tp → Result (State ta ts tp × Progress)
  unfolding ensure_started may_complete merge_learning_payload
  finish_block env now company_id expected l s =
      let (s1, p, just_started) = ensure_started now l s in
      let current = current_block_index env.digits_value p.payload in
      if may_complete just_started expected current l.block_count
      then complete_step ta ts tp env now p.assignment_id p.step_id company_id
          (merge_learning_payload p.payload current) s
      else ok (s1, p)

  unfoldable pub complete_content_block :
      Env → ℕ → ℕ → ℕ → ℤ → State ta ts tp → Result (State ta ts tp × Progress)
  unfolding finish_block
  complete_content_block env now progress_id company_id (negsuc n) s = err validation
  complete_content_block env now progress_id company_id (pos expected) s = do
    l ← load_mutable env progress_id company_id s
    require (text_eq l.step_type (codes "content")) validation
    finish_block env now company_id expected l s
