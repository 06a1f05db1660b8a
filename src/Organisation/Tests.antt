-- ===== src/Organisation/Tests.antt =====
-- Runs of the check on the managers.
use onboard_ai.Common.{ℕ, ◌≡◌, refl, false, none, some, ◌==◌, if◌then◌else◌, Bool-cases, inl, inr}
use onboard_ai.Organisation.{Employees, manager_assignment_would_cycle, set_manager}
use onboard_ai.Organisation.Chain.{IsAcyclic, Ends, top, gone, up, manager_assignment-IsAcyclic}
use onboard_ai.Organisation.Race.{crossed_managers}

-- Employee 2 reports to employee 1, who reports to nobody; 3 has no manager yet.
abbrev staff : Employees
staff k =
    if k == 2
    then some (some 1)
    else if k == 3
    then some none
    else if k == 1
    then some none
    else none

nobody-Ends : (k : ℕ) → (k == 2) ≡ false → (k == 3) ≡ false → Ends staff (some k)
nobody-Ends k not_two not_three = elim (Bool-cases (k == 1)) [
  | inl one ↦ up (rw (not_two, not_three, one) refl) top
  | inr other ↦ gone (rw (not_two, not_three, other) refl)
]

staff-IsAcyclic : IsAcyclic staff
staff-IsAcyclic k = elim (Bool-cases (k == 2)) [
  | inl two ↦ up (rw two refl) (nobody-Ends 1 refl refl)
  | inr not_two ↦ elim (Bool-cases (k == 3)) [
    | inl three ↦ up (rw (not_two, three) refl) top
    | inr not_three ↦ nobody-Ends k not_two not_three
  ]
]

manager_assignment-IsAcyclic_example : IsAcyclic (set_manager 3 2 staff)
unfolding manager_assignment_would_cycle onboard_ai.Organisation.walk
manager_assignment-IsAcyclic_example = manager_assignment-IsAcyclic staff 3 2 staff-IsAcyclic refl

crossed_managers_example :
    (manager_assignment_would_cycle staff 1 3 ≡ false)
    × (manager_assignment_would_cycle staff 3 1 ≡ false)
    × (IsAcyclic (set_manager 1 3 (set_manager 3 1 staff)) → ⊥)
crossed_managers_example = crossed_managers staff 1 3 refl refl refl
