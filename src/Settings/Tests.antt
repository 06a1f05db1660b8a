-- ===== src/Settings/Tests.antt =====
-- Runs of the settings with numbers of two digits.
use onboard_ai.Common.{
  ◌+◌, ◌-◌, ◌*◌, ◌≡◌, refl, ap, arith, Option, none, some, [], ◌∷◌, ok, err, validation, ℤ, pos,
}
use onboard_ai.Common.Text.{Text, codes, text_eq, strip}
use onboard_ai.Common.Json.{null, text, object, Fields, end, field, lookup, get}
use onboard_ai.Settings.{
  NotificationSettings, default_window_end, is_unset, parse_notification_settings,
  notification_settings_payload, merge_company_settings,
}
use onboard_ai.Settings.RoundTrip.{ReadsDigits, settings_round_trip}

abbrev read_two : Text → Option ℤ
read_two (c ∷ d ∷ []) = some (pos (10 * (c - 48) + (d - 48)))
read_two other = none

read_two-ReadsDigits : ReadsDigits read_two
read_two-ReadsDigits a b ha hb =
    let whole : 10 * ((48 + a) - 48) + ((48 + b) - 48) ≡ 10 * a + b = omega arith in
    ap (λ n. some (pos n)) whole

abbrev early : NotificationSettings
early = record {
  window_start = record { hour = 8; minute = 30 };
  window_end = default_window_end;
  quiet_hours_start = none;
  quiet_hours_end = none;
}

abbrev wanted : Fields
wanted =
    field (codes "notifications")
      (object (field (codes "window_start") (text (codes " 08:30")) end)) end

reads : parse_notification_settings read_two (object wanted) ≡ ok early
unfolding parse_notification_settings get lookup text_eq strip is_unset
reads = refl

refuses :
    parse_notification_settings read_two (
      object (
        field
          (codes "notifications")
          (object (field (codes "window_start") (text (codes "18:00")) end))
          end))
    ≡ err validation
unfolding parse_notification_settings get lookup text_eq strip is_unset
refuses = refl

merges :
    merge_company_settings read_two null wanted
    ≡ ok (field (codes "notifications") (notification_settings_payload early) end)
unfolding merge_company_settings text_eq strip
merges = refl

settings_round_trip_example :
    parse_notification_settings read_two
      (object (field (codes "notifications") (notification_settings_payload early) end))
    ≡ ok early
settings_round_trip_example =
    settings_round_trip read_two read_two-ReadsDigits (object wanted) early reads
