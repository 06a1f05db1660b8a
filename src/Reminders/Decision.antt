-- ===== src/Reminders/Decision.antt =====
-- What the decision on an automated reminder promises.
use onboard_ai.Common.{ℕ, ◌≡◌, ◌≤◌, Bool, true, false, ◌&&◌, Option, some, List, [], ◌∷◌, arith}
use onboard_ai.Reminders.{
  automated_spacing, AssignmentStatus, Priority, ReminderMode, NotificationSettings, LocalTime,
  in_notification_window, window_midpoint, open_slots, max_daily_slots, is_active, is_sparse,
  manual_remind_blocked, refuse, acknowledged, sooner_than, mem, choose_slot,
  reduced_normal_blocks_today, decide_automated_slot, fine, normal, important, critical, reduced,
  default, disabled,
}

-- What a chosen slot is.
choose_slot_sound :
    (allowed : ℕ) (sent : List ℕ) (too_soon : Bool) (slots : List ℕ) {s : ℕ}
    → (choose_slot allowed sent too_soon slots).slot ≡ some s
    → (too_soon ≡ false) × (s ≤ allowed) × (mem s sent ≡ false) × (mem s slots ≡ true)
unfolding choose_slot refuse
choose_slot_sound allowed sent too_soon [] e = cc
choose_slot_sound allowed sent too_soon (x ∷ xs) {s = s} e =
    ground (arith, choose_slot_sound allowed sent too_soon xs {s = s})

-- The first slot comes first, where it is open, unsent and not too soon.
choose_slot_first :
    (allowed : ℕ) (sent : List ℕ) (slots : List ℕ)
    → 1 ≤ allowed
    → mem 1 sent ≡ false
    → choose_slot allowed sent false (1 ∷ slots)
      ≡ record { eligible = true; slot = some 1; reason = fine }
unfolding choose_slot
choose_slot_first allowed sent slots some_slot unsent = ground arith

slots_allowed :
    (priority : Priority) (mode : ReminderMode)
    → manual_remind_blocked mode ≡ false
    → 1 ≤ max_daily_slots priority mode
unfolding max_daily_slots manual_remind_blocked
slots_allowed normal reduced on = omega arith
slots_allowed important reduced on = omega arith
slots_allowed critical reduced on = omega arith
slots_allowed normal default on = omega arith
slots_allowed important default on = omega arith
slots_allowed critical default on = omega arith
slots_allowed priority disabled on = cc

module _ (company_local : ℕ → LocalTime) (settings : NotificationSettings) where
  -- A reminder that the policy lets through has an open assignment, reminders that are not
  -- switched off, no acknowledgement for the local day, a local time inside the window and outside
  -- the quiet hours, a slot of the day that is allowed and unsent, three hours since the last
  -- reminder, and, for a normal assignment in the reduced mode, a last reminder two local days ago
  -- or more; the second slot comes after the middle of the window only.
  pub decide_automated_slot_sound :
      (now : ℕ) (status : AssignmentStatus) (priority : Priority) (mode : ReminderMode)
      (until last : Option ℕ) (sent : List ℕ) {s : ℕ}
      → (decide_automated_slot company_local now settings status priority mode until last sent).slot
        ≡ some s
      → (is_active status ≡ true)
        × (manual_remind_blocked mode ≡ false)
        × (acknowledged until (company_local now).date ≡ false)
        × (in_notification_window (company_local now).time settings ≡ true)
        × ((1 ≤ s) × (s ≤ max_daily_slots priority mode) × (mem s sent ≡ false))
        × (sooner_than automated_spacing last now ≡ false)
        × (is_sparse priority mode ≡ true
            → reduced_normal_blocks_today company_local last (company_local now).date ≡ false)
        × (s ≡ 2 → window_midpoint settings ≤ (company_local now).time)
  unfolding decide_automated_slot refuse open_slots
  decide_automated_slot_sound now status priority mode until last sent {s = s} e = ground (
    arith,
    choose_slot_sound (max_daily_slots priority mode) sent (sooner_than automated_spacing last now)
        (open_slots (company_local now) settings) {s = s},
  )

  -- A first reminder of the day is not held back: with an open assignment, reminders on, no
  -- acknowledgement, a time in the window, three hours since the last one and no reduced interval,
  -- slot 1 is let through whenever it is unsent.
  decide_automated_slot_due :
      (now : ℕ) (status : AssignmentStatus) (priority : Priority) (mode : ReminderMode)
      (until last : Option ℕ) (sent : List ℕ)
      → is_active status ≡ true
      → manual_remind_blocked mode ≡ false
      → acknowledged until (company_local now).date ≡ false
      → in_notification_window (company_local now).time settings ≡ true
      → sooner_than automated_spacing last now ≡ false
      → is_sparse priority mode
          && reduced_normal_blocks_today company_local last (company_local now).date
        ≡ false
      → mem 1 sent ≡ false
      → decide_automated_slot company_local now settings status priority mode until last sent
        ≡ record { eligible = true; slot = some 1; reason = fine }
  unfolding decide_automated_slot open_slots
  decide_automated_slot_due now status priority mode until last sent active on unread inside rested
        apart unsent =
      rw (active, on, unread, rested, apart)
        (ground (
          arith,
          inside,
          unsent,
          slots_allowed priority mode on,
          choose_slot_first (max_daily_slots priority mode) sent,
        ))
