-- ===== src/Receipts.antt =====
-- Durable idempotency receipts: app/db/models/idempotency_receipt.py, the statements of
-- app/repositories/idempotency_receipt.py, and the transitions of app/services/idempotency.py, over
-- the table interface. Digests, identifiers and tokens are only compared, so they are numbers. A
-- stored response is a value of a type that is a parameter, since no code looks into it.
pub mod Lifecycle
pub mod Ownership
pub mod Kept
pub mod Claims
mod Tests
use onboard_ai.Common.{
  ℕ, ◌+◌, ◌*◌, Bool, true, false, ◌&&◌, ◌||◌, List, [], ◌∷◌, Option, none, some, ◌==◌, holds,
  before, same_option, max, Result, ok, err, conflict, runtime, validation, if◌then◌else◌, leb, all,
  length, not, is_some,
}
use onboard_ai.Common.Text.{Text, text_eq, codes, strip}
use onboard_ai.Store.{Table}

pub data Status : Type 0 where
  processing completed failed : Status

pub is_processing : Status → Bool
is_processing processing = true
is_processing _ = false

pub is_completed : Status → Bool
is_completed completed = true
is_completed _ = false

pub is_failed : Status → Bool
is_failed failed = true
is_failed _ = false

pub record Receipt (Json : Type 0) : Type 0 where
  pub id : ℕ
  pub scope : Text
  pub operation : Text
  pub idempotency_key : Text
  pub request_hash : Option ℕ
  pub status : Status
  pub owner_token : Option ℕ
  pub company_id : Option ℕ
  pub employee_id : Option ℕ
  pub response : Option Json
  pub lease_expires_at : Option ℕ
  pub completed_at : Option ℕ

-- What identifies an operation: the unique key of the table.
pub record Key : Type 0 where
  pub scope : Text
  pub operation : Text
  pub idempotency_key : Text

pub data ClaimState : Type 0 where
  acquired completed processing : ClaimState

-- `^[A-Za-z0-9:_-]{8,128}$`
is_key_char : ℕ → Bool
is_key_char c =
    (leb b'A' c && leb c b'Z')
    || (leb b'a' c && leb c b'z')
    || (leb b'0' c && leb c b'9')
    || c == b':'
    || c == b'_'
    || c == b'-'

unfoldable pub validate_idempotency_key : Text → Result Text
unfolding is_key_char
validate_idempotency_key value =
    let normalized = strip value in
    if leb 8 (length normalized) && leb (length normalized) 128 && all is_key_char normalized
    then ok normalized
    else err validation

module _ (Json : Type 0) where
  pub record ReceiptClaim : Type 0 where
    pub state : ClaimState
    pub receipt : Receipt Json

  -- What the service hands its caller.
  pub record IdempotencyClaim : Type 0 where
    pub state : ClaimState
    pub receipt_id : ℕ
    pub owner_token : Option ℕ
    pub response : Option Json

module _ {Json : Type 0} where
  -- Equality on `uq_idempotency_receipts_scope_operation_key`.
  pub same_key : Key → Receipt Json → Bool
  same_key k r =
      text_eq r.scope k.scope
      && (text_eq r.operation k.operation && text_eq r.idempotency_key k.idempotency_key)

  -- The condition under which a conflicting receipt is taken over.
  pub reclaimable : Option ℕ → ℕ → Receipt Json → Bool
  unfolding is_failed is_processing
  reclaimable request_hash db_now r =
      same_option r.request_hash request_hash
      && (is_failed r.status || (is_processing r.status && before r.lease_expires_at db_now))

  pub reclaimed : ℕ → ℕ → Receipt Json → Receipt Json
  reclaimed owner_token lease_expires_at r = record r {
    status = processing;
    owner_token = some owner_token;
    lease_expires_at = some lease_expires_at;
    completed_at = none;
    response = none;
  }

  pub new_receipt : ℕ → Key → Option ℕ → ℕ → ℕ → Option ℕ → Option ℕ → Receipt Json
  new_receipt receipt_id k request_hash owner_token lease_expires_at company_id employee_id =
      record {
        id = receipt_id;
        scope = k.scope;
        operation = k.operation;
        idempotency_key = k.idempotency_key;
        request_hash = request_hash;
        status = processing;
        owner_token = some owner_token;
        company_id = company_id;
        employee_id = employee_id;
        response = none;
        lease_expires_at = some lease_expires_at;
        completed_at = none;
      }

  -- The receipts that `complete` and `fail` touch.
  pub is_owned : ℕ → ℕ → Receipt Json → Bool
  unfolding is_processing
  is_owned receipt_id owner_token r =
      (r.id == receipt_id) && (is_processing r.status && holds r.owner_token owner_token)

  -- The identity is filled in only if both halves of it are given.
  pub completed_values : ℕ → Option Json → Option ℕ → Option ℕ → Receipt Json → Receipt Json
  completed_values completed_at response company_id employee_id r =
      let known = is_some company_id && is_some employee_id in
      record r {
        status = completed;
        owner_token = none;
        lease_expires_at = none;
        completed_at = some completed_at;
        response = response;
        company_id = if known then company_id else r.company_id;
        employee_id = if known then employee_id else r.employee_id;
      }

  pub failed_values : Receipt Json → Receipt Json
  failed_values r = record r { status = failed; owner_token = none; lease_expires_at = none }

  pub first_receipt : List (Receipt Json) → Option (Receipt Json)
  first_receipt [] = none
  first_receipt (r ∷ rs) = some r

-- class IdempotencyReceiptRepository, and the service above it
module _ {Json : Type 0} (t : Table (Receipt Json)) where
  open t use {Db, first, update, upsert}

  pub get_scoped : Key → Db → Option (Receipt Json)
  get_scoped k db = first (same_key k) db

  pub duplicate : Receipt Json → ReceiptClaim Json
  unfolding is_completed
  duplicate r = record {
    state = if is_completed r.status then ClaimState.completed else ClaimState.processing;
    receipt = r;
  }

  pub claim :
      ℕ → Key → Option ℕ → ℕ → ℕ → ℕ → Option ℕ → Option ℕ → Db → Db × Result (ReceiptClaim Json)
  unfolding get_scoped duplicate
  claim receipt_id k request_hash owner_token lease_expires_at db_now company_id employee_id db =
      let (db', claimed) =
        upsert (same_key k) (reclaimable request_hash db_now)
          (reclaimed owner_token lease_expires_at)
          (new_receipt receipt_id k request_hash owner_token lease_expires_at company_id
            employee_id)
          db in
      let stored : Option (Receipt Json) = get_scoped k db' in
      elim claimed [
        | some r ↦ (db', ok (record { state = acquired; receipt = r }))
        | none ↦ (db', elim stored [ none ↦ err runtime | some r ↦ ok (duplicate r) ])
      ]

  pub complete : ℕ → ℕ → ℕ → Option Json → Option ℕ → Option ℕ → Db → Db × Option (Receipt Json)
  unfolding first_receipt
  complete receipt_id owner_token completed_at response company_id employee_id db =
      let (db', rows) =
        update (is_owned receipt_id owner_token)
          (completed_values completed_at response company_id employee_id) db in
      (db', first_receipt rows)

  pub fail : ℕ → ℕ → Db → Db × Option (Receipt Json)
  unfolding first_receipt
  fail receipt_id owner_token db =
      let (db', rows) = update (is_owned receipt_id owner_token) failed_values db in
      (db', first_receipt rows)

  pub answer : ℕ → ReceiptClaim Json → IdempotencyClaim Json
  answer owner_token c = elim c.state [
    | acquired ↦ record {
      state = acquired;
      receipt_id = c.receipt.id;
      owner_token = some owner_token;
      response = none;
    }
    | _ ↦ record {
      state = c.state;
      receipt_id = c.receipt.id;
      owner_token = none;
      response = c.receipt.response;
    }
  ]

  -- A receipt of another request under the same key is a conflict, and rolls back.
  checked : ℕ → Option ℕ → Db → Db → ReceiptClaim Json → Db × Result (IdempotencyClaim Json)
  unfolding answer
  checked owner_token request_hash db db' c =
      if same_option c.receipt.request_hash request_hash
      then (db', ok (answer owner_token c))
      else (db, err conflict)

  -- `IdempotencyService._claim`
  pub claim_operation :
      ℕ
      → Key
      → Option ℕ
      → ℕ
      → ℕ
      → ℕ
      → ℕ
      → Option ℕ
      → Option ℕ
      → Db
      → Db × Result (IdempotencyClaim Json)
  unfolding checked
  claim_operation receipt_id k request_hash owner_token now lease_seconds db_now company_id
        employee_id db =
      let (db', result) =
        claim receipt_id k request_hash owner_token (now + lease_seconds * 1000000) db_now
          company_id employee_id db in
      elim result [ err e ↦ (db, err e) | ok c ↦ checked owner_token request_hash db db' c ]

  -- `complete_telegram_update` and `_fail`: whether the caller still owned the receipt.
  pub complete_telegram_update : ℕ → ℕ → ℕ → Db → Db × Bool
  complete_telegram_update receipt_id owner_token now db =
      let (db', row) = complete receipt_id owner_token now none none none db in (db', is_some row)

  pub fail_operation : ℕ → ℕ → Db → Db × Bool
  fail_operation receipt_id owner_token db =
      let (db', row) = fail receipt_id owner_token db in (db', is_some row)

  abbrev pub telegram_lease_seconds : ℕ
  telegram_lease_seconds = 300

  -- `claim_ai_turn`, after its key is validated; `timeout` is `ai_chat_timeout_seconds`.
  pub claim_ai_turn :
      ℕ → ℕ → ℕ → Text → Text → ℕ → ℕ → ℕ → ℕ → ℕ → Db → Db × Result (IdempotencyClaim Json)
  unfolding claim_operation
  claim_ai_turn receipt_id company_id employee_id scope raw_key request_hash owner_token now timeout
        db_now db =
      elim (validate_idempotency_key raw_key) [
        | err e ↦ (db, err e)
        | ok key ↦
            claim_operation receipt_id
              (record { scope = scope; operation = codes "ai-chat"; idempotency_key = key })
              (some request_hash) owner_token now (max 120 (timeout + 30)) db_now (some company_id)
              (some employee_id) db
      ]
