-- ===== src/Assignments.antt =====
-- Assignments: acknowledge_item and cancel_assignment of app/services/assignment.py, over the tables
-- of assignments, acknowledgement items and progress rows. Company audits are left out; identifiers
-- are numbers and the clock is an argument. Objects that SQLAlchemy refreshes are the rows as they
-- stand after the update.
pub mod Cases
pub mod Closed
pub mod Completion
pub mod Effects
mod Tests
use onboard_ai.Common.{
  ℕ, Bool, true, false, ◌&&◌, ◌||◌, not, Option, none, some, List, [], ◌∷◌, ◌==◌, all, is_some,
  Result, ok, err, not_found, validation, if◌then◌else◌,
}
use onboard_ai.Store.{Table}
use onboard_ai.Reminders.{AssignmentStatus, pending, in_progress, completed, cancelled}

pub record Assignment : Type 0 where
  pub id : ℕ
  pub company_id : ℕ
  pub employee_id : ℕ
  pub is_acknowledgement : Bool
  pub status : AssignmentStatus
  pub started_at : Option ℕ
  pub completed_at : Option ℕ

pub record Item : Type 0 where
  pub id : ℕ
  pub assignment_id : ℕ
  pub company_id : ℕ
  pub is_required : Bool
  pub acknowledged_at : Option ℕ

-- The columns of a progress row that cancelling reads.
pub record Progress : Type 0 where
  pub id : ℕ
  pub assignment_id : ℕ

-- `_OPEN_STATUSES`
pub is_open : AssignmentStatus → Bool
is_open pending = true
is_open in_progress = true
is_open completed = false
is_open cancelled = false

pub started : ℕ → Assignment → Assignment
started now a = record a {
  status = in_progress;
  started_at = elim a.started_at [ none ↦ some now | some at ↦ some at ];
}

pub finished : ℕ → Assignment → Assignment
finished now a = record a { status = completed; completed_at = some now }

pub withdrawn : Assignment → Assignment
withdrawn a = record a { status = cancelled }

pub acknowledge : ℕ → Item → Item
acknowledge now i = record i { acknowledged_at = some now }

-- `row.acknowledged_at is not None`, for a required row.
pub is_settled : Item → Bool
is_settled i = not i.is_required || is_some i.acknowledged_at

module _ (ta : Table Assignment) (ti : Table Item) (tp : Table Progress) where
  pub record State : Type 0 where
    pub assignments : ta.Db
    pub items : ti.Db
    pub progress : tp.Db

  pub get_assignment : ℕ → State → Option Assignment
  get_assignment k s = ta.first (λ a. a.id == k) s.assignments

  pub get_item : ℕ → State → Option Item
  get_item k s = ti.first (λ i. i.id == k) s.items

  pub items_of : ℕ → State → List Item
  items_of k s = ti.select (λ i. i.assignment_id == k) s.items

  -- `uow.assignments.update(assignment_id, ...)`
  pub update_assignment : (Assignment → Assignment) → ℕ → State → State
  update_assignment f k s = record s {
    assignments = (ta.update (λ a. a.id == k) f s.assignments).0;
  }

  pub update_item : (Item → Item) → ℕ → State → State
  update_item f k s = record s { items = (ti.update (λ i. i.id == k) f s.items).0 }

  -- `_mark_in_progress`
  pub mark_in_progress : ℕ → Assignment → State → State × Assignment
  unfolding update_assignment started
  mark_in_progress now a s = elim a.status [
    | pending ↦ (update_assignment (started now) a.id s, started now a)
    | _ ↦ (s, a)
  ]

  pub acknowledge_row : ℕ → Item → State → State × Item
  unfolding update_item acknowledge
  acknowledge_row now i s =
      if is_some i.acknowledged_at
      then (s, i)
      else (update_item (acknowledge now) i.id s, acknowledge now i)

  -- The assignment is completed with its last required item.
  pub complete_if_done : ℕ → Assignment → State → State × Assignment
  unfolding update_assignment finished items_of is_settled
  complete_if_done now a s =
      if all is_settled (items_of a.id s)
      then (update_assignment (finished now) a.id s, finished now a)
      else (s, a)

  -- The open branch of `acknowledge_item`.
  pub acknowledge_open : ℕ → Assignment → Item → State → State × (Assignment × Item)
  unfolding mark_in_progress acknowledge_row complete_if_done
  acknowledge_open now a i s =
      let (s1, a1) = mark_in_progress now a s in
      let (s2, i1) = acknowledge_row now i s1 in
      let (s3, a2) = complete_if_done now a1 s2 in (s3, (a2, i1))

  -- `_require_acknowledgement_assignment`, and the test of the employee.
  pub require_assignment : ℕ → ℕ → ℕ → State → Result Assignment
  unfolding get_assignment
  require_assignment assignment_id company_id employee_id s =
      elim (get_assignment assignment_id s) [
        | none ↦ err not_found
        | some a ↦
            if not (a.company_id == company_id)
            then err not_found
            else (if not a.is_acknowledgement
                then err validation
                else (if not (a.employee_id == employee_id) then err not_found else ok a))
      ]

  -- `_require_item`
  pub require_item : Assignment → ℕ → State → Result Item
  unfolding get_item
  require_item a item_id s = elim (get_item item_id s) [
    | none ↦ err not_found
    | some i ↦
        if not (i.assignment_id == a.id)
        then err not_found
        else (if not (i.company_id == a.company_id) then err not_found else ok i)
  ]

  pub acknowledge_found : ℕ → Assignment → Item → State → State × Result (Assignment × Item)
  unfolding acknowledge_open
  acknowledge_found now a i s = elim a.status [
    | cancelled ↦ (s, err validation)
    | completed ↦ (s, if is_some i.acknowledged_at then ok (a, i) else err validation)
    | _ ↦ (let (s', answer) = acknowledge_open now a i s in (s', ok answer))
  ]

  pub acknowledge_item : ℕ → ℕ → ℕ → ℕ → ℕ → State → State × Result (Assignment × Item)
  unfolding require_assignment require_item acknowledge_found
  acknowledge_item assignment_id item_id company_id employee_id now s =
      elim (require_assignment assignment_id company_id employee_id s) [
        | err e ↦ (s, err e)
        | ok a ↦ elim (require_item a item_id s) [
          | err e ↦ (s, err e)
          | ok i ↦ acknowledge_found now a i s
        ]
      ]

  -- `delete_by_assignment_id`
  pub delete_progress : ℕ → State → State
  delete_progress k s = record s { progress = (tp.delete (λ p. p.assignment_id == k) s.progress).0 }

  pub cancel_found : Assignment → State → State × Result Assignment
  unfolding update_assignment withdrawn delete_progress
  cancel_found a s = elim a.status [
    | cancelled ↦ (s, err validation)
    | completed ↦ (s, err validation)
    | _ ↦ (update_assignment withdrawn a.id (delete_progress a.id s), ok (withdrawn a))
  ]

  pub cancel_assignment : ℕ → ℕ → State → State × Result Assignment
  unfolding get_assignment cancel_found
  cancel_assignment assignment_id company_id s = elim (get_assignment assignment_id s) [
    | none ↦ (s, err not_found)
    | some a ↦ if not (a.company_id == company_id) then (s, err not_found) else cancel_found a s
  ]
