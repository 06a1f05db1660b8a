-- ===== src/Access/Subscription.antt =====
-- Subscription entitlement: app/services/subscription_guard.py. The current subscription of the
-- company and the counts of its rows are reads of the database, and arguments here.
use onboard_ai.Common.{
  ℕ, ◌+◌, ◌≡◌, ◌≤◌, ◌<◌, ◌↔◌, refl, arith, Bool, true, false, not, Option, none, some, leb, Result,
  ok, err, forbidden, validation, if◌then◌else◌,
}

pub data SubscriptionStatus : Type 0 where
  trial active suspended expired blocked : SubscriptionStatus

pub record CompanySubscription : Type 0 where
  pub status : SubscriptionStatus
  pub ends_at : Option ℕ
  pub employee_limit : ℕ
  pub program_limit : ℕ

pub is_allowed : SubscriptionStatus → Bool
is_allowed trial = true
is_allowed active = true
is_allowed suspended = false
is_allowed expired = false
is_allowed blocked = false

-- `ends_at is not None and ends_at <= now`
abbrev pub has_ended : Option ℕ → ℕ → Bool
has_ended none now = false
has_ended (some end) now = leb end now

unfoldable pub subscription_grants_access : Option CompanySubscription → ℕ → Bool → Bool
unfolding is_allowed
subscription_grants_access none now fail_closed_when_missing = not fail_closed_when_missing
subscription_grants_access (some s) now fail_closed_when_missing =
    if not (is_allowed s.status) then false else (if has_ended s.ends_at now then false else true)

unfoldable pub ensure_subscription_allows_access :
    Bool → Option CompanySubscription → ℕ → Result {0} Unit
ensure_subscription_allows_access is_production subscription now =
    if not (subscription_grants_access subscription now is_production) then err forbidden else ok tt

-- The check of a limit, once there is a subscription.
pub within_limit : Bool → CompanySubscription → ℕ → ℕ → ℕ → Result {0} Unit
within_limit is_production s now count limit =
    elim (ensure_subscription_allows_access is_production (some s) now) [
      | err e ↦ err e
      | ok done ↦ if leb limit count then err validation else ok tt
    ]

unfoldable pub ensure_employee_limit : Bool → Option CompanySubscription → ℕ → ℕ → Result {0} Unit
unfolding within_limit
ensure_employee_limit is_production none now count = ok tt
ensure_employee_limit is_production (some s) now count =
    within_limit is_production s now count s.employee_limit

unfoldable pub ensure_program_limit : Bool → Option CompanySubscription → ℕ → ℕ → Result {0} Unit
unfolding within_limit
ensure_program_limit is_production none now count = ok tt
ensure_program_limit is_production (some s) now count =
    within_limit is_production s now count s.program_limit

ended : (o : Option ℕ) (now : ℕ) → ((end : ℕ) → o ≡ some end → now < end) → has_ended o now ≡ false
ended none now h = refl
ended (some end) now h = let still = h end refl in ground arith

-- A subscription lets its company in exactly while it is on trial or active and its end, if it has
-- one, is still ahead; where there is none, exactly outside production.
access_iff :
    (s : CompanySubscription) (now : ℕ) (is_production : Bool)
    → ((ensure_subscription_allows_access is_production (some s) now ≡ ok tt)
        ↔ ((is_allowed s.status ≡ true) × ((end : ℕ) → s.ends_at ≡ some end → now < end)))
      × ((ensure_subscription_allows_access is_production none now ≡ ok tt)
          ↔ (is_production ≡ false))
unfolding ensure_subscription_allows_access subscription_grants_access
access_iff s now is_production = (
  (
    λ e. (ground arith, λ end at_end. ground (arith, at_end)),
    λ h. let open_end = ended s.ends_at now h.1 in ground (arith, h.0, open_end),
  ),
  ground arith,
)

-- Under a subscription, the check lets one more employee in exactly if the company has access and
-- its number is under the limit, so that the limit holds after the addition too; the check of the
-- programs does the same with theirs.
limits_hold :
    (s : CompanySubscription) (now count : ℕ) (is_production : Bool)
    → ((ensure_employee_limit is_production (some s) now count ≡ ok tt) ↔ (
        (ensure_subscription_allows_access is_production (some s) now ≡ ok tt)
        × (count + 1 ≤ s.employee_limit)))
      × ((ensure_program_limit is_production (some s) now count ≡ ok tt) ↔ (
          (ensure_subscription_allows_access is_production (some s) now ≡ ok tt)
          × (count + 1 ≤ s.program_limit)))
unfolding ensure_employee_limit ensure_program_limit within_limit ensure_subscription_allows_access
limits_hold s now count is_production = ground arith
