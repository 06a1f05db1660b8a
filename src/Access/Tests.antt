-- ===== src/Access/Tests.antt =====
-- Runs of the scopes and of the subscription checks.
use onboard_ai.Common.{some}
use onboard_ai.Access.{employee, hr, Employee}
use onboard_ai.Access.Subscription.{CompanySubscription, active}

abbrev lead : Employee
lead = record { id = 1; company_id = 9; department_id = some 4; role = hr }

abbrev member : Employee
member = record { id = 2; company_id = 9; department_id = some 4; role = employee }

abbrev paid : CompanySubscription
paid = record { status = active; ends_at = some 100; employee_limit = 10; program_limit = 3 }
