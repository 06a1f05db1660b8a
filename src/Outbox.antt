-- ===== src/Outbox.antt =====
-- The Telegram outbox: app/db/models/telegram_outbound_message.py and the statements of
-- app/repositories/telegram_outbound.py, over the table interface. Identifiers and tokens are
-- only compared, so they are numbers; times are whole microseconds. The columns created_at and
-- updated_at are left out: they only take part in the order of a batch, which is a parameter.
pub mod Service
pub mod Sound
pub mod Lifecycle
pub mod Delivery
pub mod Phases
pub mod Refinement
pub mod Backoff
pub mod Claims
pub mod Enqueue
pub mod Normal
mod Tests
use onboard_ai.Common.{
  ℕ, ◌+◌, ◌≡◌, Bool, true, false, ◌&&◌, ◌||◌, List, [], ◌∷◌, Option, none, some, ltb, leb, ◌==◌,
  holds, before, any, Result, ok, err, runtime, refl, if◌then◌else◌,
}
use onboard_ai.Common.Text.{Text, text_eq, codes}
use onboard_ai.Store.{Table}

pub data Status : Type 0 where
  pending sending sent failed : Status

pub is_pending : Status → Bool
is_pending pending = true
is_pending _ = false

pub is_sending : Status → Bool
is_sending sending = true
is_sending _ = false

pub record Message : Type 0 where
  pub id : ℕ
  pub company_id : ℕ
  pub employee_id : ℕ
  pub chat_id : ℕ
  pub source_type : Text
  pub source_key : Text
  pub body : Text
  pub parse_mode : Option Text
  pub status : Status
  pub attempt_count : ℕ
  pub next_attempt_at : ℕ
  pub last_attempt_at : Option ℕ
  pub sent_at : Option ℕ
  pub telegram_message_id : Option ℕ
  pub last_error_category : Option Text
  pub owner_token : Option ℕ
  pub lease_expires_at : Option ℕ

-- Equality on the unique key `uq_telegram_outbound_source`.
pub same_source : Text → Text → Message → Bool
same_source source_type source_key m =
    text_eq m.source_type source_type && text_eq m.source_key source_key

-- The condition `claimable`, which two statements share.
pub claimable : ℕ → ℕ → Message → Bool
unfolding is_pending is_sending
claimable now max_attempts m =
    ltb m.attempt_count max_attempts
    && ((is_pending m.status && leb m.next_attempt_at now)
        || (is_sending m.status && before m.lease_expires_at now))

-- The values that both claims set.
pub claimed_by : ℕ → ℕ → ℕ → Message → Message
claimed_by owner_token now lease_expires_at m = record m {
  status = sending;
  owner_token = some owner_token;
  lease_expires_at = some lease_expires_at;
  last_attempt_at = some now;
  attempt_count = m.attempt_count + 1;
  last_error_category = none;
}

-- The rows that `mark_sent` and `mark_failed` touch: still sending, and leased to the caller.
pub is_owned : ℕ → ℕ → Message → Bool
unfolding is_sending
is_owned message_id owner_token m =
    (m.id == message_id) && (is_sending m.status && holds m.owner_token owner_token)

pub sent_values : ℕ → ℕ → Message → Message
sent_values telegram_message_id sent_at m = record m {
  status = sent;
  owner_token = none;
  lease_expires_at = none;
  sent_at = some sent_at;
  telegram_message_id = some telegram_message_id;
  last_error_category = none;
}

pub failed_values : Bool → ℕ → Text → Message → Message
failed_values retryable next_attempt_at error_category m = record m {
  status = if retryable then pending else failed;
  owner_token = none;
  lease_expires_at = none;
  next_attempt_at = next_attempt_at;
  last_error_category = some error_category;
}

-- The rows that `expire_exhausted_stale` gives up.
pub exhausted_stale : ℕ → ℕ → Message → Bool
unfolding is_sending
exhausted_stale now max_attempts m =
    is_sending m.status && (before m.lease_expires_at now && leb max_attempts m.attempt_count)

pub exhausted_values : Message → Message
exhausted_values m = record m {
  status = failed;
  owner_token = none;
  lease_expires_at = none;
  last_error_category = some (codes "attempts_exhausted");
}

-- `OutboundClaim`: the state that the caller sees, and the row.
pub data ClaimState : Type 0 where
  acquired not_found : ClaimState
  existing : Status → ClaimState

pub record OutboundClaim : Type 0 where
  pub state : ClaimState
  pub message : Option Message

-- How a worker picks a batch: `SELECT id ... ORDER BY ... FOR UPDATE SKIP LOCKED LIMIT n`. Which
-- rows other workers hold locked, and so skipped, is not known here: what comes back are ids of rows that
-- pass.
pub record Picker (t : Table Message) : Type 0 where
  pub pick : (Message → Bool) → ℕ → t.Db → List ℕ
  pub pick_passes :
      (p : Message → Bool) (n : ℕ) (db : t.Db) (i : ℕ)
      → any (λ j. j == i) (pick p n db) ≡ true
      → any (λ m. m.id == i && p m) (t.rows db) ≡ true

first_of_list : List Message → Option Message
first_of_list [] = none
first_of_list (m ∷ ms) = some m

-- class TelegramOutboundRepository
module _ (t : Table Message) where
  open t use {Db, select, first, update, insert}

  pub get_by_source : Text → Text → Db → Option Message
  get_by_source source_type source_key db = first (same_source source_type source_key) db

  pub get_by_id : ℕ → Db → Option Message
  get_by_id message_id db = first (λ m. m.id == message_id) db

  pub enqueue : Message → Db → Db × Result Message
  unfolding get_by_source
  enqueue m db =
      let (db', inserted) = insert (same_source m.source_type m.source_key) m db in
      let stored : Option Message = get_by_source m.source_type m.source_key db' in
      elim inserted [
        | some row ↦ (db', ok row)
        | none ↦ (db', elim stored [ none ↦ err runtime | some row ↦ ok row ])
      ]

  pub claim_source : Text → Text → ℕ → ℕ → ℕ → ℕ → Db → Db × OutboundClaim
  unfolding get_by_source first_of_list
  claim_source source_type source_key owner_token now lease_expires_at max_attempts db =
      let (db', claimed) =
        update (λ m. same_source source_type source_key m && claimable now max_attempts m)
          (claimed_by owner_token now lease_expires_at) db in
      let stored : Option Message = get_by_source source_type source_key db' in
      let missed : OutboundClaim = elim stored [
        | none ↦ record { state = not_found; message = none }
        | some m ↦ record { state = existing m.status; message = some m }
      ] in
      elim (first_of_list claimed) [
        | some m ↦ (db', record { state = acquired; message = some m })
        | none ↦ (db', missed)
      ]

  pub claim_due_batch : Picker t → ℕ → ℕ → ℕ → ℕ → ℕ → Db → Db × List Message
  claim_due_batch w owner_token now lease_expires_at max_attempts limit db =
      let picked = w.pick (claimable now max_attempts) limit db in
      update (λ m. any (λ j. j == m.id) picked) (claimed_by owner_token now lease_expires_at) db

  pub expire_exhausted_stale : ℕ → ℕ → Db → Db
  expire_exhausted_stale now max_attempts db =
      (update (exhausted_stale now max_attempts) exhausted_values db).0

  pub mark_sent : ℕ → ℕ → ℕ → ℕ → Db → Db × Option Message
  unfolding first_of_list
  mark_sent message_id owner_token telegram_message_id sent_at db =
      let (db', rows) =
        update (is_owned message_id owner_token) (sent_values telegram_message_id sent_at) db in
      (db', first_of_list rows)

  pub mark_failed : ℕ → ℕ → Bool → ℕ → Text → Db → Db × Option Message
  unfolding first_of_list
  mark_failed message_id owner_token retryable next_attempt_at error_category db =
      let (db', rows) =
        update (is_owned message_id owner_token)
          (failed_values retryable next_attempt_at error_category) db in
      (db', first_of_list rows)
