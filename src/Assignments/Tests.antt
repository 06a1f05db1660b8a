-- ===== src/Assignments/Tests.antt =====
-- Runs of the assignments on tables in memory.
use onboard_ai.Common.{◌≡◌, refl, true, none, some, [], ◌∷◌}
use onboard_ai.Store.Memory.{memory}
use onboard_ai.Reminders.{pending, cancelled}
use onboard_ai.Assignments.{
  Assignment, Item, Progress, is_open, State, get_assignment, acknowledge_item,
}
use onboard_ai.Assignments.Cases.{here, next, acknowledges}
use onboard_ai.Assignments.Closed.{closed_is_final}
use onboard_ai.Assignments.Completion.{IsHonest, Reach-IsHonest}

abbrev policies : Assignment
policies = record {
  id = 1;
  company_id = 9;
  employee_id = 5;
  is_acknowledgement = true;
  status = pending;
  started_at = none;
  completed_at = none;
}

abbrev stopped : Assignment
stopped = record policies { status = cancelled }

abbrev read_me : Item
read_me = record {
  id = 3;
  assignment_id = 1;
  company_id = 9;
  is_required = true;
  acknowledged_at = none;
}

abbrev Store : Type 0
Store = State (memory Assignment) (memory Item) (memory Progress)

abbrev state : Store
state = record { assignments = policies ∷ []; items = read_me ∷ []; progress = [] }

abbrev halted : Store
halted = record { assignments = stopped ∷ []; items = read_me ∷ []; progress = [] }

abbrev acknowledged : Store
acknowledged =
    (acknowledge_item (memory Assignment) (memory Item) (memory Progress) 1 3 9 5 70 state).0

closed_is_final_example :
    get_assignment
      (memory Assignment)
      (memory Item)
      (memory Progress)
      1
      (acknowledge_item (memory Assignment) (memory Item) (memory Progress) 1 3 9 5 70 halted).0
    ≡ some stopped
unfolding get_assignment is_open
closed_is_final_example =
    closed_is_final (memory Assignment) (memory Item) (memory Progress) 1 stopped refl refl
      (next here (acknowledges 1 3 9 5 70 halted))

state-IsHonest : IsHonest (memory Assignment) (memory Item) (memory Progress) state
state-IsHonest = (λ e. cc, tt)

Reach-IsHonest_example : IsHonest (memory Assignment) (memory Item) (memory Progress) acknowledged
Reach-IsHonest_example =
    Reach-IsHonest (memory Assignment) (memory Item) (memory Progress) state-IsHonest
      (next here (acknowledges 1 3 9 5 70 state))
