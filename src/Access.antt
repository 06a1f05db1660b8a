-- ===== src/Access.antt =====
-- Who may see what: app/core/capabilities.py, and what a subscription allows:
-- app/services/subscription_guard.py (in the child module).
pub mod Subscription
pub mod Scope
mod Tests
use onboard_ai.Common.{
  ℕ, Bool, true, false, ◌&&◌, ◌||◌, not, Option, none, some, List, [], ◌∷◌, any, ◌==◌, is_some,
  holds, same_option, if◌then◌else◌,
}

pub data Role : Type 0 where
  employee hr admin unknown : Role

pub data Capability : Type 0 where
  employees_view employees_manage departments_view departments_manage courses_view courses_create :
      Capability
  courses_edit courses_assign assignments_view_all assignments_view_department
        assignments_view_own :
      Capability
  assignments_manage deadlines_manage progress_view_all progress_view_department progress_view_own :
      Capability
  knowledge_view knowledge_manage responsibilities_view responsibilities_manage analytics_view :
      Capability
  company_settings_manage : Capability

pub data VisibilityScope : Type 0 where
  nothing own department everything : VisibilityScope

pub record Employee : Type 0 where
  pub id : ℕ
  pub company_id : ℕ
  pub department_id : Option ℕ
  pub role : Role

-- A set of capabilities is its test for membership.
abbrev pub Capabilities : Type 0
Capabilities = Capability → Bool

-- `_HR_CAPABILITIES`
pub hr_capabilities : Capabilities
hr_capabilities assignments_view_department = false
hr_capabilities assignments_view_own = false
hr_capabilities progress_view_department = false
hr_capabilities progress_view_own = false
hr_capabilities company_settings_manage = false
hr_capabilities c = true

pub employee_capabilities : Capabilities
employee_capabilities assignments_view_own = true
employee_capabilities progress_view_own = true
employee_capabilities knowledge_view = true
employee_capabilities c = false

pub capabilities_for_role : Role → Capabilities
unfolding hr_capabilities employee_capabilities
capabilities_for_role admin c = true
capabilities_for_role hr c = hr_capabilities c
capabilities_for_role employee c = employee_capabilities c
capabilities_for_role unknown c = false

pub has_capability : Employee → Capability → Bool
unfolding capabilities_for_role
has_capability e c = capabilities_for_role e.role c

pub visibility_scope : Capabilities → Capability → Capability → Capability → VisibilityScope
visibility_scope capabilities all_cap department_cap own_cap =
    if capabilities all_cap
    then everything
    else (if capabilities department_cap
        then department
        else (if capabilities own_cap then own else nothing))

pub assignment_visibility_scope : Employee → VisibilityScope
unfolding visibility_scope capabilities_for_role
assignment_visibility_scope e =
    visibility_scope (capabilities_for_role e.role) assignments_view_all assignments_view_department
      assignments_view_own

pub progress_visibility_scope : Employee → VisibilityScope
unfolding visibility_scope capabilities_for_role
progress_visibility_scope e =
    visibility_scope (capabilities_for_role e.role) progress_view_all progress_view_department
      progress_view_own

pub analytics_visibility_scope : Employee → VisibilityScope
unfolding progress_visibility_scope has_capability
analytics_visibility_scope e =
    if not (has_capability e analytics_view) then nothing else progress_visibility_scope e

-- `ScopeDeniedError`, or the department to filter by.
pub data Filter : Type 0 where
  denied : Filter
  filter_by : Option ℕ → Filter

-- `requested is not None and requested != department_id`
abbrev pub outside : Option ℕ → Option ℕ → Bool
outside none dept = false
outside (some d) dept = not (holds dept d)

pub scoped_department_id : Employee → VisibilityScope → Option ℕ → Filter
scoped_department_id e everything requested = filter_by requested
scoped_department_id e department requested =
    if outside requested e.department_id then denied else filter_by e.department_id
scoped_department_id e own requested = if is_some requested then denied else filter_by none
scoped_department_id e nothing requested = if is_some requested then denied else filter_by none

-- `actor.department_id is not None and other == actor.department_id`
abbrev pub shares_department : Option ℕ → Option ℕ → Bool
shares_department mine other = is_some mine && same_option other mine

pub employee_in_scope : Employee → Employee → VisibilityScope → Bool
employee_in_scope actor target everything = target.company_id == actor.company_id
employee_in_scope actor target department =
    if target.id == actor.id
    then true
    else shares_department actor.department_id target.department_id
      && (target.company_id == actor.company_id)
employee_in_scope actor target own = target.id == actor.id
employee_in_scope actor target nothing = false

-- The company of the assignee is checked only in the widest scope, and only where it is given.
pub in_resolved_scope : Employee → ℕ → Option ℕ → Option ℕ → VisibilityScope → Bool
in_resolved_scope actor assignment_employee_id dept company everything =
    if is_some company && not (holds company actor.company_id) then false else true
in_resolved_scope actor assignment_employee_id dept company department =
    if assignment_employee_id == actor.id then true else shares_department actor.department_id dept
in_resolved_scope actor assignment_employee_id dept company own = assignment_employee_id == actor.id
in_resolved_scope actor assignment_employee_id dept company nothing = false

pub assignment_in_scope : Employee → ℕ → Option ℕ → Option ℕ → Option VisibilityScope → Bool
unfolding in_resolved_scope assignment_visibility_scope
assignment_in_scope actor assignment_employee_id dept company none =
    in_resolved_scope actor assignment_employee_id dept company (assignment_visibility_scope actor)
assignment_in_scope actor assignment_employee_id dept company (some scope) =
    in_resolved_scope actor assignment_employee_id dept company scope
