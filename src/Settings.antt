-- ===== src/Settings.antt =====
-- The notification settings of a company: app/services/notification_settings.py, without the time
-- zones. `to_int` is Python's `int` of a text, none where it raises.
pub mod RoundTrip
mod Tests
use onboard_ai.Common.{
  ℕ, zero, suc, ◌+◌, ◌*◌, ◌/◌, ◌%◌, Bool, true, false, ◌&&◌, ◌||◌, not, Option, none, some, List,
  [], ◌∷◌, leb, ltb, ◌==◌, is_some, if◌then◌else◌, Result, ok, err, validation, ◌>>=◌, ◌>>◌,
  require, given, ℤ, pos, negsuc,
}
use onboard_ai.Common.Text.{Text, codes, text_eq, strip}
use onboard_ai.Common.Json.{
  Json, null, text, object, Fields, end, field, lookup, get, has_key, as_text, set_key,
}

pub record Time : Type 0 where
  pub hour : ℕ
  pub minute : ℕ

abbrev pub default_window_start : Time
default_window_start = record { hour = 9; minute = 0 }

abbrev pub default_window_end : Time
default_window_end = record { hour = 18; minute = 0 }

pub record NotificationSettings : Type 0 where
  pub window_start : Time
  pub window_end : Time
  pub quiet_hours_start : Option Time
  pub quiet_hours_end : Option Time

pub has_colon : Text → Bool
has_colon [] = false
has_colon (d ∷ ds) = d == 58 || has_colon ds

-- The two parts of a text with one colon: `split(":")`, where that gives two.
pub split_colon : Text → Option (Text × Text)
unfolding has_colon
split_colon [] = none
split_colon (c ∷ cs) =
    if c == 58
    then (if has_colon cs then none else some ([], cs))
    else elim (split_colon cs) [ none ↦ none | some (a, b) ↦ some (c ∷ a, b) ]

-- A number from 0 up to `most`.
abbrev pub up_to : ℕ → ℤ → Result ℕ
up_to most (pos n) = if leb n most then ok n else err validation
up_to most (negsuc n) = err validation

unfoldable pub parse_hhmm : (Text → Option ℤ) → Json → Result Time
unfolding split_colon
parse_hhmm to_int raw = do
  s ← given validation (as_text raw)
  parts ← given validation (split_colon (strip s))
  h ← given validation (to_int parts.0)
  m ← given validation (to_int parts.1)
  hour ← up_to 23 h
  minute ← up_to 59 m
  ok (record { hour = hour; minute = minute })

-- `None` and the empty text.
unfoldable pub is_unset : Json → Bool
is_unset null = true
is_unset (text []) = true
is_unset v = false

unfoldable pub optional_hhmm : (Text → Option ℤ) → Json → Result (Option Time)
unfolding is_unset parse_hhmm
optional_hhmm to_int raw =
    if is_unset raw then ok none else (parse_hhmm to_int raw >>= λ t. ok (some t))

-- `f"{n:02d}"` of a number below a hundred.
abbrev two_digits : ℕ → Text
two_digits n = (48 + n / 10) ∷ (48 + n % 10) ∷ []

unfoldable pub format_hhmm : Option Time → Json
format_hhmm none = null
format_hhmm (some t) = text ((48 + t.hour / 10) ∷ (48 + t.hour % 10) ∷ 58 ∷ two_digits t.minute)

-- `a >= b` on times.
unfoldable pub not_before : Time → Time → Bool
not_before a b = ltb b.hour a.hour || (a.hour == b.hour && leb b.minute a.minute)

abbrev pub or_default : Time → Option Time → Time
or_default t none = t
or_default t (some u) = u

unfoldable pub parse_notification_settings : (Text → Option ℤ) → Json → Result NotificationSettings
unfolding optional_hhmm not_before get
parse_notification_settings to_int settings = do
  let blob = get (codes "notifications") settings
  start ← optional_hhmm to_int (get (codes "window_start") blob)
  stop ← optional_hhmm to_int (get (codes "window_end") blob)
  require
      (not
        (not_before (or_default default_window_start start) (or_default default_window_end stop)))
      validation
  quiet_start ← optional_hhmm to_int (get (codes "quiet_hours_start") blob)
  quiet_end ← optional_hhmm to_int (get (codes "quiet_hours_end") blob)
  require (if is_some quiet_start then is_some quiet_end else not (is_some quiet_end)) validation
  ok (record {
    window_start = or_default default_window_start start;
    window_end = or_default default_window_end stop;
    quiet_hours_start = quiet_start;
    quiet_hours_end = quiet_end;
  })

unfoldable pub notification_settings_payload : NotificationSettings → Json
unfolding format_hhmm
notification_settings_payload parsed = object (
    field (codes "window_start") (format_hhmm (some parsed.window_start)) (
      field (codes "window_end") (format_hhmm (some parsed.window_end)) (
        field (codes "quiet_hours_start") (format_hhmm parsed.quiet_hours_start)
          (field (codes "quiet_hours_end") (format_hhmm parsed.quiet_hours_end) end))))

-- The settings that replace those of a company; `existing` is only checked.
unfoldable pub merge_company_settings : (Text → Option ℤ) → Json → Fields → Result Fields
unfolding parse_notification_settings notification_settings_payload lookup has_key set_key
merge_company_settings to_int existing incoming =
    if is_some (lookup (codes "notifications") incoming)
    then (do
      parsed ← parse_notification_settings to_int (object incoming)
      ok (set_key (codes "notifications") (notification_settings_payload parsed) incoming))
    else (if has_key (codes "notifications") existing
        then (parse_notification_settings to_int existing >>= λ parsed. ok incoming)
        else ok incoming)
