-- ===== src/Settings/RoundTrip.antt =====
-- Settings that are written read back as they were.
use onboard_ai.Common.{
  ℕ, ◌+◌, ◌*◌, ◌/◌, ◌%◌, ◌≤◌, ◌≡◌, refl, inl, inr, arith, Bool, true, false, not, Option, none,
  some, [], ◌∷◌, ◌==◌, is_some, Bool-cases, le→leb, if◌then◌else◌, ok, validation, >>=-ok,
  require-ok, given-ok, ok-injective, subst, not-true, ℤ, pos, negsuc,
}
use onboard_ai.Common.Text.{Text, codes, text_eq, strip, is_space}
use onboard_ai.Common.Json.{Json, as_text, object, end, field, lookup, get}
use onboard_ai.Settings.{
  Time, NotificationSettings, default_window_start, default_window_end, or_default, has_colon,
  split_colon, up_to, parse_hhmm, is_unset, optional_hhmm, format_hhmm, not_before,
  parse_notification_settings, notification_settings_payload,
}

abbrev pub IsTime : Time → Type 0
IsTime t = (t.hour ≤ 23) × (t.minute ≤ 59)

-- `int` of two digits is their number.
abbrev pub ReadsDigits : (Text → Option ℤ) → Type 0
ReadsDigits to_int =
    (a b : ℕ) → a ≤ 9 → b ≤ 9 → to_int ((48 + a) ∷ (48 + b) ∷ []) ≡ some (pos (10 * a + b))

is_space-digit : (a : ℕ) → a ≤ 9 → is_space (48 + a) ≡ false
unfolding is_space
is_space-digit a h = ground (arith, h)

digit_no_colon : (a : ℕ) → a ≤ 9 → (48 + a == 58) ≡ false
digit_no_colon a h = ground (arith, h)

strip-clock :
    (a b c d : ℕ)
    → a ≤ 9
    → d ≤ 9
    → strip ((48 + a) ∷ (48 + b) ∷ 58 ∷ (48 + c) ∷ (48 + d) ∷ [])
      ≡ (48 + a) ∷ (48 + b) ∷ 58 ∷ (48 + c) ∷ (48 + d) ∷ []
unfolding strip
strip-clock a b c d ha hd = rw (is_space-digit a ha, is_space-digit d hd) refl

split_colon-clock :
    (a b c d : ℕ)
    → a ≤ 9
    → b ≤ 9
    → c ≤ 9
    → d ≤ 9
    → split_colon ((48 + a) ∷ (48 + b) ∷ 58 ∷ (48 + c) ∷ (48 + d) ∷ [])
      ≡ some ((48 + a) ∷ (48 + b) ∷ [], (48 + c) ∷ (48 + d) ∷ [])
unfolding split_colon has_colon
split_colon-clock a b c d ha hb hc hd =
    rw (digit_no_colon a ha, digit_no_colon b hb, digit_no_colon c hc, digit_no_colon d hd) refl

up_to-le : (most : ℕ) (z : ℤ) {n : ℕ} → up_to most z ≡ ok n → n ≤ most
up_to-le most (pos m) h = ground (arith, h)
up_to-le most (negsuc m) h = cc

module _ (to_int : Text → Option ℤ) (reads : ReadsDigits to_int) where
  reads_number : (n : ℕ) → n ≤ 99 → to_int ((48 + n / 10) ∷ (48 + n % 10) ∷ []) ≡ some (pos n)
  reads_number n h =
      let whole : 10 * (n / 10) + n % 10 ≡ n = omega arith in
      rw (reads (n / 10) (n % 10) (omega (arith, h)) (omega arith), whole) refl

  -- A time that is written reads back.
  parse_hhmm-format_hhmm : (t : Time) → IsTime t → parse_hhmm to_int (format_hhmm (some t)) ≡ ok t
  unfolding parse_hhmm format_hhmm
  parse_hhmm-format_hhmm t h =
      rw
        (
          strip-clock (t.hour / 10) (t.hour % 10) (t.minute / 10) (t.minute % 10)
              (omega (arith, h.0)) (omega arith),
          split_colon-clock (t.hour / 10) (t.hour % 10) (t.minute / 10) (t.minute % 10)
              (omega (arith, h.0)) (omega arith) (omega (arith, h.1)) (omega arith),
          reads_number t.hour (omega (arith, h.0)),
          reads_number t.minute (omega (arith, h.1)),
          le→leb t.hour 23 h.0,
          le→leb t.minute 59 h.1,
        )
        refl

  parse_hhmm-IsTime : (raw : Json) {t : Time} → parse_hhmm to_int raw ≡ ok t → IsTime t
  unfolding parse_hhmm
  parse_hhmm-IsTime raw {t = t} h =
      let (s, _, h1) = given-ok validation (as_text raw) _ h in
      let (parts, _, h2) = given-ok validation (split_colon (strip s)) _ h1 in
      let (z, _, h3) = given-ok validation (to_int parts.0) _ h2 in
      let (y, _, h4) = given-ok validation (to_int parts.1) _ h3 in
      let (hour, early, h5) = >>=-ok (up_to 23 z) _ h4 in
      let (minute, small, last) = >>=-ok (up_to 59 y) _ h5 in
      subst IsTime (ok-injective last) (up_to-le 23 z early, up_to-le 59 y small)

  abbrev IsOptional : Option Time → Type 0
  IsOptional none = Unit
  IsOptional (some t) = IsTime t

  optional_hhmm-IsTime :
      (raw : Json) {o : Option Time} → optional_hhmm to_int raw ≡ ok o → IsOptional o
  unfolding optional_hhmm
  optional_hhmm-IsTime raw h = elim (Bool-cases (is_unset raw)) [
    | inl unset ↦ subst IsOptional (ok-injective (rw unset at h)) tt
    | inr set ↦
        let (t, parsed, last) = >>=-ok (parse_hhmm to_int raw) (λ t. ok (some t)) (rw set at h) in
        subst IsOptional (ok-injective last) (parse_hhmm-IsTime raw parsed)
  ]

  optional_hhmm-format_hhmm :
      (o : Option Time) → IsOptional o → optional_hhmm to_int (format_hhmm o) ≡ ok o
  unfolding optional_hhmm format_hhmm is_unset
  optional_hhmm-format_hhmm none h = refl
  optional_hhmm-format_hhmm (some t) h = rw (parse_hhmm-format_hhmm t h) refl

  -- Settings that make sense: a window of positive length, and quiet hours with both ends.
  abbrev pub AreSettings : NotificationSettings → Type 0
  AreSettings p =
      IsTime p.window_start
      × IsTime p.window_end
      × IsOptional p.quiet_hours_start
      × IsOptional p.quiet_hours_end
      × (not_before p.window_start p.window_end ≡ false)
      × (is_some p.quiet_hours_start ≡ is_some p.quiet_hours_end)

  both : (a b : Bool) → (if a then b else not b) ≡ true → a ≡ b
  both true true h = refl
  both true false h = cc
  both false true h = cc
  both false false h = refl

  or_default-IsTime :
      (t : Time) (o : Option Time) → IsTime t → IsOptional o → IsTime (or_default t o)
  or_default-IsTime t none h k = h
  or_default-IsTime t (some u) h k = k

  parsed-AreSettings :
      (settings : Json) {p : NotificationSettings}
      → parse_notification_settings to_int settings ≡ ok p
      → AreSettings p
  unfolding parse_notification_settings
  parsed-AreSettings settings h =
      let blob = get (codes "notifications") settings in
      let (start, a, h1) = >>=-ok (optional_hhmm to_int (get (codes "window_start") blob)) _ h in
      let (stop, b, h2) = >>=-ok (optional_hhmm to_int (get (codes "window_end") blob)) _ h1 in
      let (ordered, h3) =
        require-ok
          (not (
            not_before (or_default default_window_start start)
              (or_default default_window_end stop)))
          validation _ h2 in
      let (quiet_start, c, h4) =
        >>=-ok (optional_hhmm to_int (get (codes "quiet_hours_start") blob)) _ h3 in
      let (quiet_end, d, h5) =
        >>=-ok (optional_hhmm to_int (get (codes "quiet_hours_end") blob)) _ h4 in
      let (paired, last) =
        require-ok (if is_some quiet_start then is_some quiet_end else not (is_some quiet_end))
          validation _ h5 in
      subst AreSettings (ok-injective last) (
        or_default-IsTime default_window_start start (omega arith, omega arith)
            (optional_hhmm-IsTime _ a),
        or_default-IsTime default_window_end stop (omega arith, omega arith)
            (optional_hhmm-IsTime _ b),
        optional_hhmm-IsTime _ c,
        optional_hhmm-IsTime _ d,
        not-true _ ordered,
        both (is_some quiet_start) (is_some quiet_end) paired,
      )

  abbrev stored : NotificationSettings → Json
  stored p = object (field (codes "notifications") (notification_settings_payload p) end)

  both_refl : (a : Bool) → (if a then a else not a) ≡ true
  both_refl true = refl
  both_refl false = refl

  parse-payload :
      (p : NotificationSettings)
      → AreSettings p
      → parse_notification_settings to_int (stored p) ≡ ok p
  unfolding parse_notification_settings notification_settings_payload get lookup text_eq
  parse-payload p h =
      rw
        (
          optional_hhmm-format_hhmm (some p.window_start) h.0,
          optional_hhmm-format_hhmm (some p.window_end) h.1,
          h.4,
          optional_hhmm-format_hhmm p.quiet_hours_start h.2,
          optional_hhmm-format_hhmm p.quiet_hours_end h.3,
          h.5,
          both_refl (is_some p.quiet_hours_end),
        )
        refl

  -- Settings that were accepted in whatever form read back as the same settings once they are written
  -- in the form in which they are stored.
  pub settings_round_trip :
      (settings : Json) (p : NotificationSettings)
      → parse_notification_settings to_int settings ≡ ok p
      → parse_notification_settings to_int
          (object (field (codes "notifications") (notification_settings_payload p) end))
        ≡ ok p
  settings_round_trip settings p h = parse-payload p (parsed-AreSettings settings h)
