-- ===== src/Reminders/Tests.antt =====
-- Runs of the reminder policy; the company's zone is UTC here, and a day is 1440 minutes.
use onboard_ai.Common.{ℕ, ◌/◌, ◌%◌, refl, none, some, [], ◌∷◌}
use onboard_ai.Reminders.{
  in_progress, important, default, NotificationSettings, LocalTime, in_half_open_window,
  in_quiet_hours, decide_automated_slot,
}
use onboard_ai.Reminders.Daily.{starts, sends, IsCapped, daily_cap}

abbrev utc : ℕ → LocalTime
utc now = record { date = now / 86400000000; time = now % 86400000000 }

-- Nine to six, with a quiet hour at noon.
abbrev settings : NotificationSettings
settings = record {
  window_start = 32400000000;
  window_end = 64800000000;
  quiet_hours_start = some 43200000000;
  quiet_hours_end = some 46800000000;
}

-- Ten in the morning of day 5, and four in the afternoon.
abbrev morning : ℕ
morning = 468000000000

abbrev afternoon : ℕ
afternoon = 489600000000

abbrev second : ℕ
second = 2

daily_cap_example : IsCapped important default 2
unfolding decide_automated_slot in_half_open_window in_quiet_hours
daily_cap_example = daily_cap utc settings important default (
    sends afternoon in_progress none (some morning) (1 ∷ []) 2
      (sends morning in_progress none none [] 1 starts refl) refl)
