-- ===== src/Reminders/Daily.antt =====
-- How many automated reminders one assignment gets on one day.
use onboard_ai.Common.{
  ℕ, ◌+◌, ◌≡◌, ◌≤◌, ◌≢◌, ◌⊎◌, inl, inr, refl, Bool, true, Option, some, List, [], ◌∷◌,
  if◌then◌else◌, arith, length,
}
use onboard_ai.Reminders.{
  AssignmentStatus, Priority, ReminderMode, NotificationSettings, LocalTime, max_daily_slots, mem,
  decide_automated_slot, normal, important, critical, reduced, default, disabled,
}
use onboard_ai.Reminders.Decision.{decide_automated_slot_sound}

slots_below : (priority : Priority) (mode : ReminderMode) → max_daily_slots priority mode ≤ 2
unfolding max_daily_slots
slots_below normal reduced = omega arith
slots_below important reduced = omega arith
slots_below critical reduced = omega arith
slots_below normal default = omega arith
slots_below important default = omega arith
slots_below critical default = omega arith
slots_below priority disabled = omega arith

-- How many reminders of one day an assignment may get.
abbrev pub IsCapped : Priority → ReminderMode → ℕ → Type 0
IsCapped priority mode n =
    ((mode ≡ disabled) × (n ≡ 0))
    ⊎ (((mode ≡ reduced) × (n ≤ 1))
        ⊎ (((mode ≡ default) × (priority ≡ normal) × (n ≤ 1))
            ⊎ ((mode ≡ default) × (n ≤ 2) × (priority ≢ normal))))

within :
    (priority : Priority) (mode : ReminderMode) (n : ℕ)
    → n ≤ max_daily_slots priority mode
    → IsCapped priority mode n
unfolding max_daily_slots
within priority reduced n h = inr (inl (refl, h))
within normal default n h = inr (inr (inl (refl, refl, h)))
within important default n h = inr (inr (inr (refl, h, λ e. cc)))
within critical default n h = inr (inr (inr (refl, h, λ e. cc)))
within priority disabled n h = inl (refl, omega (arith, h))

module _ (company_local : ℕ → LocalTime) (settings : NotificationSettings) (priority : Priority)
    (mode : ReminderMode) where
  -- The slots that the scans of one local day have sent, latest first. A scan runs at any time, for
  -- an assignment in any state.
  pub data Day : List ℕ → Type 0 where
    starts : Day []
    sends :
        (now : ℕ) (status : AssignmentStatus) (until last : Option ℕ) (sent : List ℕ) (s : ℕ)
        → Day sent
        → (decide_automated_slot company_local now settings status priority mode until last
            sent).slot
          ≡ some s
        → Day (s ∷ sent)

  abbrev count : Bool → ℕ
  count b = if b then 1 else 0

  -- The slots sent are the two slots at most, each once, and each is allowed.
  record IsCounted (sent : List ℕ) : Type 0 where
    counted : length sent ≤ count (mem 1 sent) + count (mem 2 sent)
    first_allowed : mem 1 sent ≡ true → 1 ≤ max_daily_slots priority mode
    second_allowed : mem 2 sent ≡ true → 2 ≤ max_daily_slots priority mode

  Day-IsCounted : {sent : List ℕ} → Day sent → IsCounted sent
  Day-IsCounted starts = record {
    counted = ground arith;
    first_allowed = ground arith;
    second_allowed = ground arith;
  }
  Day-IsCounted (sends now status until last sent s day e) =
      let known =
        decide_automated_slot_sound company_local settings now status priority mode until last sent
          e in
      let before = Day-IsCounted day in
      record {
        counted = ground (arith, known, before.counted, slots_below priority mode);
        first_allowed = ground (arith, known, before.first_allowed);
        second_allowed = ground (arith, known, before.second_allowed);
      }

  counted_slots : {sent : List ℕ} → Day sent → length sent ≤ max_daily_slots priority mode
  counted_slots {sent = sent} day =
      let known = Day-IsCounted day in
      ground (arith, known.counted, known.first_allowed, known.second_allowed)

  -- Whatever the scans of a local day are, they send no reminder for an assignment in the disabled
  -- mode, one at most in the reduced mode, and in the default mode one at most where the assignment
  -- has the normal priority and two at most where it has another.
  pub daily_cap : {sent : List ℕ} → Day sent → IsCapped priority mode (length sent)
  daily_cap {sent = sent} day = within priority mode (length sent) (counted_slots day)
