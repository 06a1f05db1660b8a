-- ===== src/Outbox/Service/Cases.antt =====
-- The ways in which a method of the service may leave the table: as it was, or as one statement of
-- the repository leaves it.
use onboard_ai.Common.{ℕ, ◌+◌, Bool, Option, Result-cases, Option-cases, Bool-cases, inl, inr, ℤ}
use onboard_ai.Common.Text.{Text, lower, strip}
use onboard_ai.Store.{Table}
use onboard_ai.Outbox
use onboard_ai.Outbox.{Message}
use onboard_ai.Outbox.Service.{
  Outgoing, seconds, lease_seconds, max_attempts, validate_source, validate_outbound, same_content,
  new_message, should_retry, retry_delay_seconds, valid_category, store_new, enqueue_in_uow,
  claim_source, mark_failed,
}

module _ {ℓ} (t : Table Message) (P : t.Db → Type ℓ) where
  open t use {Db}

  pub store_new_cases :
      (id company employee chat now : ℕ) (o : Outgoing) (db : Db)
      → P db
      → P (Outbox.enqueue t (new_message id company employee chat now o) db).0
      → P (store_new t id company employee chat now o db).0
  unfolding store_new
  store_new_cases id company employee chat now o db kept stored =
      elim (Result-cases (Outbox.enqueue t (new_message id company employee chat now o) db).1) [
        | inl (e, raised) ↦ rw (raised, store_new) kept
        | inr (m, done) ↦ elim (Bool-cases (same_content company employee chat o m)) [
          | inl same ↦ rw (done, store_new) (rw same stored)
          | inr other ↦ rw (done, store_new) (rw other kept)
        ]
      ]

  pub enqueue_cases :
      (id company employee chat now : ℕ) (kind key body : Text) (mode : Option Text) (db : Db)
      → P db
      → ((o : Outgoing) → P (store_new t id company employee chat now o db).0)
      → P (enqueue_in_uow t id company employee chat now kind key body mode db).0
  unfolding enqueue_in_uow
  enqueue_cases id company employee chat now kind key body mode db kept stored =
      elim (Result-cases (validate_outbound kind key body mode)) [
        | inl (e, raised) ↦ rw (raised, enqueue_in_uow) kept
        | inr (o, done) ↦ rw (done, enqueue_in_uow) (stored o)
      ]

  pub claim_source_cases :
      (kind key : Text) (token now : ℕ) (db : Db)
      → P db
      → P
          (Outbox.claim_source t kind key token now
            (now + seconds lease_seconds)
            max_attempts
            (Outbox.expire_exhausted_stale t now max_attempts db)).0
      → P (claim_source t kind key token now db).0
  unfolding claim_source
  claim_source_cases kind key token now db kept claimed =
      elim (Result-cases (validate_source kind key)) [
        | inl (e, raised) ↦ rw (raised, claim_source) kept
        | inr (s, done) ↦ rw (done, claim_source) claimed
      ]

  pub mark_failed_cases :
      (id token : ℕ) (again : Bool) (category : Text) (wait : Option ℤ) (now : ℕ) (db : Db)
      → P db
      → ((m : Message)
          → P
              (Outbox.mark_failed t id token
                (should_retry again m)
                (now + seconds (retry_delay_seconds m.attempt_count wait))
                (lower (strip category))
                db).0)
      → P (mark_failed t id token again category wait now db).0
  unfolding mark_failed
  mark_failed_cases id token again category wait now db kept settled =
      elim (Bool-cases (valid_category (lower (strip category)))) [
        | inr bad ↦ rw bad kept
        | inl good ↦ rw good (elim (Option-cases (Outbox.get_by_id t id db)) [
          | inl missing ↦ rw (missing, mark_failed) kept
          | inr (m, found) ↦ rw (found, mark_failed) (settled m)
        ])
      ]
