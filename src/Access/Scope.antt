-- ===== src/Access/Scope.antt =====
-- What the scopes let an actor see.
use onboard_ai.Common.{
  ℕ, ap, sym, ◌∙◌, clash, none≢some, ==_refl, Bool-cases, ◌≡◌, ◌≢◌, ◌≤◌, ◌⊎◌, inl, inr, ◌↔◌, refl,
  arith, true, false, Option, none, some, ◌==◌, holds,
}
use onboard_ai.Access.{
  employee, hr, admin, unknown, VisibilityScope, nothing, own, department, everything, Employee,
  visibility_scope, capabilities_for_role, hr_capabilities, employee_capabilities,
  assignment_visibility_scope, Filter, denied, filter_by, scoped_department_id, employee_in_scope,
  in_resolved_scope, assignment_in_scope,
}

-- An employee in the scope of an actor is the actor, or works in the same company: no scope reaches
-- into another company.
scope_stays_in_company :
    (actor target : Employee) (scope : VisibilityScope)
    → employee_in_scope actor target scope ≡ true
    → (target.id ≡ actor.id) ⊎ (target.company_id ≡ actor.company_id)
unfolding employee_in_scope
scope_stays_in_company actor target everything e = inr (ground arith)
scope_stays_in_company actor target department e = ground arith
scope_stays_in_company actor target own e = inl (ground arith)
scope_stays_in_company actor target nothing e = cc

abbrev rank : VisibilityScope → ℕ
rank nothing = 0
rank own = 1
rank department = 2
rank everything = 3

-- A wider scope shows no fewer employees, where an id stands for one employee.
scope_monotone :
    (actor target : Employee) (narrow wide : VisibilityScope)
    → (target.id ≡ actor.id → target.company_id ≡ actor.company_id)
    → rank narrow ≤ rank wide
    → employee_in_scope actor target narrow ≡ true
    → employee_in_scope actor target wide ≡ true
unfolding employee_in_scope
scope_monotone actor target nothing wide one le e = cc
scope_monotone actor target own nothing one le e = ground arith
scope_monotone actor target own own one le e = e
scope_monotone actor target own department one le e = ground arith
scope_monotone actor target own everything one le e = ground (arith, one)
scope_monotone actor target department nothing one le e = ground arith
scope_monotone actor target department own one le e = ground arith
scope_monotone actor target department department one le e = e
scope_monotone actor target department everything one le e = ground (arith, one)
scope_monotone actor target everything nothing one le e = ground arith
scope_monotone actor target everything own one le e = ground arith
scope_monotone actor target everything department one le e = ground arith
scope_monotone actor target everything everything one le e = e

-- What each role sees of the assignments, where the company of the assignee is given: an employee
-- exactly the own ones, HR and admins exactly those of their company, an unknown role none.
roles_see :
    (actor : Employee) (assignee company : ℕ) (dept : Option ℕ)
    → (actor.role ≡ employee
        → assignment_in_scope actor assignee dept (some company) none ≡ (assignee == actor.id))
      × (actor.role ≡ hr
          → assignment_in_scope actor assignee dept (some company) none
            ≡ (company == actor.company_id))
      × (actor.role ≡ admin
          → assignment_in_scope actor assignee dept (some company) none
            ≡ (company == actor.company_id))
      × (actor.role ≡ unknown → assignment_in_scope actor assignee dept (some company) none ≡ false)
unfolding assignment_in_scope in_resolved_scope assignment_visibility_scope visibility_scope
    capabilities_for_role hr_capabilities employee_capabilities
roles_see actor assignee company dept = (
  λ is_role. rw is_role refl,
  λ is_role. rw is_role (ground arith),
  λ is_role. rw is_role (ground arith),
  λ is_role. rw is_role refl,
)

abbrev chosen : Option ℕ → Filter → Option ℕ
chosen other denied = other
chosen other (filter_by d) = d

holds_sound : (o : Option ℕ) (d : ℕ) → holds o d ≡ true → o ≡ some d
holds_sound none d e = cc
holds_sound (some x) d e = ground arith

-- The filter by department: in the department scope it is the actor's own department whatever was
-- asked for, or a refusal, which comes exactly when another department was asked for; so an actor
-- who has no department and asks for none is let through with no filter at all.
department_filter :
    (actor : Employee) (requested : Option ℕ)
    → ((scoped_department_id actor department requested ≡ denied)
        ↔ ((d : ℕ) × (requested ≡ some d) × (actor.department_id ≢ some d)))
      × ((filter : Option ℕ)
          → scoped_department_id actor department requested ≡ filter_by filter
          → filter ≡ actor.department_id)
unfolding scoped_department_id
department_filter actor none =
    ((λ e. cc, λ (d, e, miss). absurd (none≢some e)), λ filter e. ap (chosen none) (sym e))
department_filter actor (some d) = elim (Bool-cases (holds actor.department_id d)) [
  | inl mine ↦ rw mine (
    (λ e. cc, λ (x, e, miss). absurd (miss (holds_sound actor.department_id d mine ∙ e))),
    λ filter e. ap (chosen none) (sym e),
  )
  | inr other ↦
      rw other
        ((λ e. (d, refl, λ here. clash other (rw here (==_refl d))), λ h. refl), λ filter e. cc)
]
