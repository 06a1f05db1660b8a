-- ===== src/Reminders.antt =====
-- Reminder policy: app/services/reminder_policy.py. Instants are microseconds (UTC), a time of day
-- is the microseconds since midnight and a date its ordinal. The local date and time of an instant
-- in the company's zone are a parameter, `company_local`, which zoneinfo computes.
pub mod Windows
pub mod Decision
pub mod Daily
mod Tests
use onboard_ai.Common.{
  ℕ, ◌+◌, ◌*◌, ◌/◌, Bool, true, false, ◌&&◌, ◌||◌, not, Option, none, some, List, [], ◌∷◌, leb, ltb,
  ◌==◌, any, if◌then◌else◌,
}

abbrev pub minute : ℕ
minute = 60000000

abbrev pub automated_spacing : ℕ
automated_spacing = 180 * minute

abbrev pub manual_cooldown : ℕ
manual_cooldown = 10 * minute

pub data AssignmentStatus : Type 0 where
  pending in_progress completed cancelled : AssignmentStatus

pub data Priority : Type 0 where
  normal important critical : Priority

pub data ReminderMode : Type 0 where
  default reduced disabled : ReminderMode

pub data Reason : Type 0 where
  assignment_closed is_disabled acknowledged_today outside_window no_slots reduced_interval spacing
        fine slot_already_sent :
      Reason

pub record ReminderDecision : Type 0 where
  pub eligible : Bool
  pub slot : Option ℕ
  pub reason : Reason

pub record NotificationSettings : Type 0 where
  pub window_start : ℕ
  pub window_end : ℕ
  pub quiet_hours_start : Option ℕ
  pub quiet_hours_end : Option ℕ

pub record LocalTime : Type 0 where
  pub date : ℕ
  pub time : ℕ

-- `current.replace(second=0, microsecond=0)`
pub whole_minute : ℕ → ℕ
whole_minute current = current / minute * minute

pub in_half_open_window : ℕ → ℕ → ℕ → Bool
unfolding whole_minute
in_half_open_window current start end =
    if start == end
    then false
    else (if ltb start end
        then leb start (whole_minute current) && ltb (whole_minute current) end
        else leb start (whole_minute current) || ltb (whole_minute current) end)

pub in_quiet_hours : ℕ → NotificationSettings → Bool
unfolding in_half_open_window
in_quiet_hours current settings = elim settings.quiet_hours_start [
  | none ↦ false
  | some start ↦ elim settings.quiet_hours_end [
    | none ↦ false
    | some end ↦ in_half_open_window current start end
  ]
]

pub in_notification_window : ℕ → NotificationSettings → Bool
in_notification_window current settings =
    if not (in_half_open_window current settings.window_start settings.window_end)
    then false
    else not (in_quiet_hours current settings)

pub window_midpoint : NotificationSettings → ℕ
window_midpoint settings =
    (settings.window_start / minute + settings.window_end / minute) / 2 * minute

-- In ascending order, as the caller sorts them.
pub open_slots : LocalTime → NotificationSettings → List ℕ
unfolding in_notification_window window_midpoint
open_slots local settings =
    if not (in_notification_window local.time settings)
    then []
    else (if leb (window_midpoint settings) local.time then 1 ∷ 2 ∷ [] else 1 ∷ [])

pub max_daily_slots : Priority → ReminderMode → ℕ
max_daily_slots priority disabled = 0
max_daily_slots priority reduced = 1
max_daily_slots normal default = 1
max_daily_slots important default = 2
max_daily_slots critical default = 2

unfoldable pub is_active : AssignmentStatus → Bool
is_active pending = true
is_active in_progress = true
is_active completed = false
is_active cancelled = false

-- `mode == "reduced" and priority == "normal"`
pub is_sparse : Priority → ReminderMode → Bool
is_sparse normal reduced = true
is_sparse important reduced = false
is_sparse critical reduced = false
is_sparse priority default = false
is_sparse priority disabled = false

pub manual_remind_blocked : ReminderMode → Bool
manual_remind_blocked default = false
manual_remind_blocked reduced = false
manual_remind_blocked disabled = true

pub refuse : Reason → ReminderDecision
refuse reason = record { eligible = false; slot = none; reason = reason }

-- `acknowledged_until_date is not None and acknowledged_until_date >= local_today`
abbrev pub acknowledged : Option ℕ → ℕ → Bool
acknowledged none today = false
acknowledged (some until) today = leb today until

-- `now - last < span`, which also holds where `last` is ahead of `now`.
pub sooner_than : ℕ → Option ℕ → ℕ → Bool
sooner_than span none now = false
sooner_than span (some last) now = ltb now (last + span)

abbrev pub mem : ℕ → List ℕ → Bool
mem slot sent = any (λ s. s == slot) sent

-- The loop over the open slots.
pub choose_slot : ℕ → List ℕ → Bool → List ℕ → ReminderDecision
unfolding refuse
choose_slot allowed sent too_soon [] = refuse slot_already_sent
choose_slot allowed sent too_soon (slot ∷ slots) =
    let rest = choose_slot allowed sent too_soon slots in
    if ltb allowed slot
    then rest
    else (if mem slot sent
        then rest
        else (if too_soon
            then refuse spacing
            else record { eligible = true; slot = some slot; reason = fine }))

pub manual_cooldown_active : ℕ → Option ℕ → Bool
unfolding sooner_than
manual_cooldown_active now last_manual_at = sooner_than manual_cooldown last_manual_at now

module _ (company_local : ℕ → LocalTime) where
  -- `last_local >= local_today - timedelta(days=1)`
  pub reduced_normal_blocks_today : Option ℕ → ℕ → Bool
  reduced_normal_blocks_today none local_today = false
  reduced_normal_blocks_today (some last) local_today =
      leb local_today ((company_local last).date + 1)

  pub decide_automated_slot :
      ℕ
      → NotificationSettings
      → AssignmentStatus
      → Priority
      → ReminderMode
      → Option ℕ
      → Option ℕ
      → List ℕ
      → ReminderDecision
  unfolding choose_slot refuse is_active is_sparse reduced_normal_blocks_today open_slots
      in_notification_window sooner_than max_daily_slots manual_remind_blocked
  decide_automated_slot now settings status priority mode acknowledged_until last_automated_at
        sent_slots_today =
      if not (is_active status)
      then refuse assignment_closed
      else (if manual_remind_blocked mode
          then refuse is_disabled
          else (if acknowledged acknowledged_until (company_local now).date
              then refuse acknowledged_today
              else (if not (in_notification_window (company_local now).time settings)
                  then refuse outside_window
                  else (if leb (max_daily_slots priority mode) 0
                      then refuse no_slots
                      else (if is_sparse priority mode
                            && reduced_normal_blocks_today last_automated_at
                                (company_local now).date
                          then refuse reduced_interval
                          else choose_slot (max_daily_slots priority mode) sent_slots_today
                              (sooner_than automated_spacing last_automated_at now)
                              (open_slots (company_local now) settings))))))
