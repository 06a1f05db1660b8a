-- ===== src/Organisation.antt =====
-- The chain of managers: manager_assignment_would_cycle of app/services/org_validation.py, and the
-- assignment of a manager that it guards. `employees` is what `uow.employees.get_by_id` finds: no row,
-- or the manager of the row; identifiers are numbers.
pub mod Chain
pub mod Race
mod Tests
use onboard_ai.Common.{
  ℕ, zero, suc, Bool, true, false, Option, none, some, List, [], ◌∷◌, ◌==◌, any, if◌then◌else◌,
  Result, ok, err, validation,
}

abbrev pub Employees : Type 0
Employees = ℕ → Option (Option ℕ)

abbrev pub max_manager_chain_depth : ℕ
max_manager_chain_depth = 256

-- `current in seen`
abbrev pub is_seen : ℕ → List ℕ → Bool
is_seen current seen = any (λ x. x == current) seen

module _ (employees : Employees) where
  -- The loop: `depth` rounds are left, and running out of them counts as a cycle.
  pub walk : ℕ → List ℕ → Option ℕ → Bool
  walk zero seen current = true
  walk (suc depth) seen none = false
  walk (suc depth) seen (some current) =
      if is_seen current seen then true else elim (employees current) [
        | none ↦ false
        | some manager ↦ walk depth (current ∷ seen) manager
      ]

  unfoldable pub manager_assignment_would_cycle : ℕ → ℕ → Bool
  manager_assignment_would_cycle employee_id manager_id =
      if employee_id == manager_id
      then true
      else walk max_manager_chain_depth (employee_id ∷ []) (some manager_id)

-- The row of the employee after `manager_id` is set.
pub set_manager : ℕ → ℕ → Employees → Employees
set_manager employee_id manager_id employees k =
    if k == employee_id then some (some manager_id) else employees k
