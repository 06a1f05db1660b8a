-- ===== src/Outbox/Service.antt =====
-- class TelegramOutboundService of app/services/telegram_outbound.py. A method takes the clock and
-- the fresh identifiers that it draws as arguments. It is one transaction: what it raises leaves
-- the table as it was. Logging and metrics are left out.
pub mod Cases
use onboard_ai.Common.{
  ℕ, ◌+◌, ◌*◌, ◌^◌, ◌-◌, min, max, Bool, true, false, ◌&&◌, ◌||◌, not, List, [], ◌∷◌, map, Option,
  none, some, ltb, leb, ◌==◌, any, all, length, Result, ok, err, validation, conflict,
  if◌then◌else◌, ℤ, nonneg,
}
use onboard_ai.Common.Text.{Text, text_eq, codes, strip, lower}
use onboard_ai.Store.{Table}
use onboard_ai.Outbox
use onboard_ai.Outbox.{
  Status, pending, sending, sent, failed, Message, ClaimState, acquired, not_found, existing,
  Picker, get_by_id, enqueue, expire_exhausted_stale,
}

-- The constants; one second is a million ticks.
abbrev pub seconds : ℕ → ℕ
seconds n = n * 1000000

abbrev pub lease_seconds : ℕ
lease_seconds = 120

abbrev pub max_attempts : ℕ
max_attempts = 8

abbrev pub batch_size : ℕ
batch_size = 20

abbrev pub base_backoff_seconds : ℕ
base_backoff_seconds = 2

abbrev pub max_backoff_seconds : ℕ
max_backoff_seconds = 300

abbrev pub max_retry_after_seconds : ℕ
max_retry_after_seconds = 3600

abbrev pub source_types : List Text
source_types = map codes (
    "ai_chat" ∷ "quiz_result" ∷ "assignment_initial" ∷ "assignment_reminder"
    ∷ "assignment_manual_reminder" ∷ [])

-- `[A-Za-z0-9:_-]`
pub is_key_char : ℕ → Bool
is_key_char c =
    (leb b'A' c && leb c b'Z')
    || (leb b'a' c && leb c b'z')
    || (leb b'0' c && leb c b'9')
    || c == b':'
    || c == b'_'
    || c == b'-'

-- `[a-z0-9_]`
pub is_category_char : ℕ → Bool
is_category_char c = (leb b'a' c && leb c b'z') || (leb b'0' c && leb c b'9') || c == b'_'

-- `re.fullmatch("[class]{lo,hi}")`
pub matches_class : (ℕ → Bool) → ℕ → ℕ → Text → Bool
matches_class class lo hi s = leb lo (length s) && leb (length s) hi && all class s

unfoldable pub validate_source : Text → Text → Result (Text × Text)
unfolding matches_class is_key_char
validate_source source_type source_key =
    let kind = lower (strip source_type) in
    let key = strip source_key in
    if not (any (text_eq kind) source_types)
    then err validation
    else if not (matches_class is_key_char 1 128 key)
    then err validation
    else ok (kind, key)

is_parse_mode : Option Text → Bool
is_parse_mode none = true
is_parse_mode (some mode) = text_eq mode (codes "HTML")

pub record Outgoing : Type 0 where
  pub source_type : Text
  pub source_key : Text
  pub body : Text
  pub parse_mode : Option Text

unfoldable pub check_content : Text × Text → Text → Option Text → Result Outgoing
unfolding is_parse_mode
check_content (kind, key) body parse_mode =
    if (length body == 0) || ltb 4096 (length body)
    then err validation
    else (if is_parse_mode parse_mode
        then ok
            (record { source_type = kind; source_key = key; body = body; parse_mode = parse_mode })
        else err validation)

unfoldable pub validate_outbound : Text → Text → Text → Option Text → Result Outgoing
unfolding check_content
validate_outbound source_type source_key body parse_mode =
    elim (validate_source source_type source_key) [
      | err e ↦ err e
      | ok source ↦ check_content source (strip body) parse_mode
    ]

-- `_retry_delay_seconds`
unfoldable pub retry_delay_seconds : ℕ → Option ℤ → ℕ
retry_delay_seconds attempt_count retry_after_seconds =
    let exponent = min (attempt_count - 1) 20 in
    let backoff = min (base_backoff_seconds * 2 ^ exponent) max_backoff_seconds in
    elim retry_after_seconds [
      | none ↦ backoff
      | some wait ↦ max backoff (min (nonneg wait) max_retry_after_seconds)
    ]

-- `OutboundDelivery`: what a worker is handed.
pub record Delivery : Type 0 where
  pub state : ClaimState
  pub message : Option Message
  pub owner_token : Option ℕ

abbrev pub is_acquired : ClaimState → Bool
is_acquired acquired = true
is_acquired not_found = false
is_acquired (existing s) = false

unfoldable pub same_text_option : Option Text → Option Text → Bool
same_text_option none none = true
same_text_option none (some b) = false
same_text_option (some a) none = false
same_text_option (some a) (some b) = text_eq a b

-- The stored row holds what this call asked for.
unfoldable pub same_content : ℕ → ℕ → ℕ → Outgoing → Message → Bool
unfolding same_text_option
same_content company_id employee_id chat_id o m =
    (m.company_id == company_id)
    && ((m.employee_id == employee_id)
        && ((m.chat_id == chat_id)
            && (text_eq m.body o.body && same_text_option m.parse_mode o.parse_mode)))

unfoldable pub new_message : ℕ → ℕ → ℕ → ℕ → ℕ → Outgoing → Message
new_message id company_id employee_id chat_id now o = record {
  id = id;
  company_id = company_id;
  employee_id = employee_id;
  chat_id = chat_id;
  source_type = o.source_type;
  source_key = o.source_key;
  body = o.body;
  parse_mode = o.parse_mode;
  status = pending;
  attempt_count = 0;
  next_attempt_at = now;
  last_attempt_at = none;
  sent_at = none;
  telegram_message_id = none;
  last_error_category = none;
  owner_token = none;
  lease_expires_at = none;
}

-- A category that passes `_ERROR_CATEGORY_RE`.
unfoldable pub valid_category : Text → Bool
unfolding matches_class is_category_char
valid_category = matches_class is_category_char 1 32

unfoldable pub should_retry : Bool → Message → Bool
should_retry retryable m = retryable && ltb m.attempt_count max_attempts

module _ (t : Table Message) where
  open t use {Db}

  unfoldable pub store_new : ℕ → ℕ → ℕ → ℕ → ℕ → Outgoing → Db → Db × Result Message
  unfolding same_content new_message
  store_new id company_id employee_id chat_id now o db =
      let (db', stored) = enqueue t (new_message id company_id employee_id chat_id now o) db in
      elim stored [
        | err e ↦ (db, err e)
        | ok m ↦
            if same_content company_id employee_id chat_id o m
            then (db', ok m)
            else (db, err conflict)
      ]

  unfoldable pub enqueue_in_uow :
      ℕ → ℕ → ℕ → ℕ → ℕ → Text → Text → Text → Option Text → Db → Db × Result Message
  unfolding store_new
  enqueue_in_uow id company_id employee_id chat_id now source_type source_key body parse_mode db =
      elim (validate_outbound source_type source_key body parse_mode) [
        | err e ↦ (db, err e)
        | ok o ↦ store_new id company_id employee_id chat_id now o db
      ]

  -- The row is looked up under the text that was passed in, not under its normal form.
  unfoldable pub claim_source : Text → Text → ℕ → ℕ → Db → Db × Result Delivery
  claim_source source_type source_key owner_token now db =
      elim (validate_source source_type source_key) [
        | err e ↦ (db, err e)
        | ok _ ↦
            let swept = expire_exhausted_stale t now max_attempts db in
            let (db', claim) =
              Outbox.claim_source t source_type source_key owner_token now
                (now + seconds lease_seconds) max_attempts swept in
            (
              db',
              ok (record {
                state = claim.state;
                message = claim.message;
                owner_token = if is_acquired claim.state then some owner_token else none;
              }),
            )
      ]

  unfoldable pub claim_due_batch : Picker t → ℤ → ℕ → ℕ → Db → Db × List Message
  claim_due_batch w limit owner_token now db =
      let swept = expire_exhausted_stale t now max_attempts db in
      Outbox.claim_due_batch t w owner_token now (now + seconds lease_seconds) max_attempts
        (max 1 (min (nonneg limit) batch_size)) swept

  unfoldable pub mark_sent : ℕ → ℕ → ℕ → ℕ → Db → Db × Option Message
  mark_sent message_id owner_token telegram_message_id now db =
      Outbox.mark_sent t message_id owner_token telegram_message_id now db

  -- The row after a failure of the worker's attempt on `m`.
  unfoldable pub settle_failure :
      Message → ℕ → ℕ → Bool → Text → Option ℤ → ℕ → Db → Db × Option Message
  unfolding should_retry
  settle_failure m message_id owner_token retryable category retry_after_seconds now db =
      Outbox.mark_failed t message_id owner_token (should_retry retryable m)
        (now + seconds (retry_delay_seconds m.attempt_count retry_after_seconds)) category db

  unfoldable pub mark_failed :
      ℕ → ℕ → Bool → Text → Option ℤ → ℕ → Db → Db × Result (Option Message)
  unfolding settle_failure valid_category
  mark_failed message_id owner_token retryable error_category retry_after_seconds now db =
      let category = lower (strip error_category) in
      if not (valid_category category)
      then (db, err validation)
      else elim (get_by_id t message_id db) [
        | none ↦ (db, ok none)
        | some current ↦
            let (db', row) =
              settle_failure current message_id owner_token retryable category retry_after_seconds
                now db in
            (db', ok row)
      ]
