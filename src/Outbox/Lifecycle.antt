-- ===== src/Outbox/Lifecycle.antt =====
-- The life of an outbox row under every method of the service, by any number of workers.
use onboard_ai.Common.{ℕ, ◌≡◌, refl, Bool, false, ◌&&◌, Option, arith, ◌==◌, any, ℤ}
use onboard_ai.Common.Text.{Text}
use onboard_ai.Store.{Table}
use onboard_ai.Store.Laws.{All-update_zip}
use onboard_ai.Outbox
use onboard_ai.Outbox.{
  Status, sending, sent, Message, Picker, is_sending, claimable, claimed_by, is_owned, sent_values,
  failed_values, exhausted_stale, exhausted_values,
}
use onboard_ai.Outbox.Sound.{
  IsSound, IsSoundDb, claimed_by-IsSound, sent_values-IsSound, failed_values-IsSound,
  exhausted_values-IsSound, update-distinct, update-IsSoundDb, insert-IsSoundDb, picked_passes,
}
use onboard_ai.Outbox.Service.{
  max_attempts, Outgoing, enqueue_in_uow, claim_source, claim_due_batch, mark_sent, mark_failed,
  store_new, new_message,
}
use onboard_ai.Outbox.Service.Cases.{
  store_new_cases, enqueue_cases, claim_source_cases, mark_failed_cases,
}

module _ (t : Table Message) where
  open t use {Db, rows, update, insert}

  pub sweep-IsSoundDb :
      (now : ℕ) (db : Db)
      → IsSoundDb t db
      → IsSoundDb t (Outbox.expire_exhausted_stale t now max_attempts db)
  unfolding Outbox.expire_exhausted_stale
  sweep-IsSoundDb now db h =
      update-IsSoundDb t _ _ db (λ m. unfold exhausted_values in refl)
        (λ m k c. exhausted_values-IsSound now m k c) h

  -- Whether or not the row was there to claim, the table after the claim is the updated one.
  pub claim_source_db :
      (kind key : Text) (token now lease most : ℕ) (db : Db)
      → (Outbox.claim_source t kind key token now lease most db).0
        ≡ (update
            (λ m. Outbox.same_source kind key m && claimable now most m)
            (claimed_by token now lease)
            db).0
  unfolding Outbox.claim_source
  claim_source_db kind key token now lease most db = ground arith

  pub enqueue_db :
      (m : Message) (db : Db)
      → (Outbox.enqueue t m db).0 ≡ (insert (Outbox.same_source m.source_type m.source_key) m db).0
  unfolding Outbox.enqueue
  enqueue_db m db = ground arith

  new_message-IsSound :
      (id company employee chat now : ℕ) (o : Outgoing)
      → IsSound (new_message id company employee chat now o)
  unfolding new_message is_sending
  new_message-IsSound id company employee chat now o = ground arith

  inserted-IsSoundDb :
      (id company employee chat now : ℕ) (o : Outgoing) (db : Db)
      → any (λ r. r.id == id) (rows db) ≡ false
      → IsSoundDb t db
      → IsSoundDb t (Outbox.enqueue t (new_message id company employee chat now o) db).0
  unfolding Outbox.enqueue new_message
  inserted-IsSoundDb id company employee chat now o db fresh h =
      rw (enqueue_db (new_message id company employee chat now o) db) (
        insert-IsSoundDb t _ (new_message id company employee chat now o) db
          (new_message-IsSound id company employee chat now o) fresh h)

  store_new-IsSoundDb :
      (id company employee chat now : ℕ) (o : Outgoing) (db : Db)
      → any (λ r. r.id == id) (rows db) ≡ false
      → IsSoundDb t db
      → IsSoundDb t (store_new t id company employee chat now o db).0
  unfolding store_new
  store_new-IsSoundDb id company employee chat now o db fresh h =
      store_new_cases t (IsSoundDb t) id company employee chat now o db h
        (inserted-IsSoundDb id company employee chat now o db fresh h)

  enqueue-IsSoundDb :
      (id company employee chat now : ℕ) (kind key body : Text) (mode : Option Text) (db : Db)
      → any (λ r. r.id == id) (rows db) ≡ false
      → IsSoundDb t db
      → IsSoundDb t (enqueue_in_uow t id company employee chat now kind key body mode db).0
  enqueue-IsSoundDb id company employee chat now kind key body mode db fresh h =
      enqueue_cases t (IsSoundDb t) id company employee chat now kind key body mode db h
        λ o. store_new-IsSoundDb id company employee chat now o db fresh h

  claim_source-IsSoundDb :
      (kind key : Text) (token now : ℕ) (db : Db)
      → IsSoundDb t db
      → IsSoundDb t (claim_source t kind key token now db).0
  claim_source-IsSoundDb kind key token now db h =
      claim_source_cases t (IsSoundDb t) kind key token now db h (
        rw (claim_source_db kind key token now _ _ _) (
          update-IsSoundDb t _ _ _ (λ m. unfold claimed_by in refl)
            (λ m k c. claimed_by-IsSound token now _ m k (ground arith))
            (sweep-IsSoundDb now db h)))

  mark_sent-IsSoundDb :
      (id token telegram now : ℕ) (db : Db)
      → IsSoundDb t db
      → IsSoundDb t (mark_sent t id token telegram now db).0
  unfolding mark_sent Outbox.mark_sent
  mark_sent-IsSoundDb id token telegram now db h =
      update-IsSoundDb t _ _ db (λ m. unfold sent_values in refl)
        (λ m k c. sent_values-IsSound id token telegram now m k c) h

  mark_failed-IsSoundDb :
      (id token : ℕ) (again : Bool) (category : Text) (wait : Option ℤ) (now : ℕ) (db : Db)
      → IsSoundDb t db
      → IsSoundDb t (mark_failed t id token again category wait now db).0
  unfolding Outbox.mark_failed
  mark_failed-IsSoundDb id token again category wait now db h =
      mark_failed_cases t (IsSoundDb t) id token again category wait now db h λ m.
        update-IsSoundDb t _ _ db (λ m. unfold failed_values in refl)
          (λ m k c. failed_values-IsSound id token _ _ _ m k c) h

  batch-IsSoundDb :
      (w : Picker t) (token now lease limit : ℕ) (db : Db)
      → IsSoundDb t db
      → IsSoundDb t (Outbox.claim_due_batch t w token now lease max_attempts limit db).0
  unfolding Outbox.claim_due_batch
  batch-IsSoundDb w token now lease limit db h = record {
    sound =
        All-update_zip t IsSound _ _ _ db
          (λ m k c hit. claimed_by-IsSound token now lease m k (c hit)) h.sound
          (picked_passes t w (claimable now max_attempts) limit db h.distinct);
    distinct = update-distinct t _ _ db (λ m. unfold claimed_by in refl) h.distinct;
  }

  claim_due_batch-IsSoundDb :
      (w : Picker t) (limit : ℤ) (token now : ℕ) (db : Db)
      → IsSoundDb t db
      → IsSoundDb t (claim_due_batch t w limit token now db).0
  unfolding claim_due_batch
  claim_due_batch-IsSoundDb w limit token now db h =
      batch-IsSoundDb w token now _ _ _ (sweep-IsSoundDb now db h)

  -- The service as its workers and tenants use it: any method, at any time, with any arguments.
  -- A new row comes with an id that no row has (`uuid4`).
  pub data Step : Db → Db → Type 0 where
    enqueues :
        (id company employee chat now : ℕ) (kind key body : Text) (mode : Option Text) (db : Db)
        → any (λ r. r.id == id) (rows db) ≡ false
        → Step db (enqueue_in_uow t id company employee chat now kind key body mode db).0
    claims :
        (kind key : Text) (token now : ℕ) (db : Db)
        → Step db (claim_source t kind key token now db).0
    claims_batch :
        (w : Picker t) (limit : ℤ) (token now : ℕ) (db : Db)
        → Step db (claim_due_batch t w limit token now db).0
    sends : (id token telegram now : ℕ) (db : Db) → Step db (mark_sent t id token telegram now db).0
    fails :
        (id token : ℕ) (again : Bool) (category : Text) (wait : Option ℤ) (now : ℕ) (db : Db)
        → Step db (mark_failed t id token again category wait now db).0

  pub data Reach (start : Db) : Db → Type 0 where
    here : Reach start start
    next : {db db' : Db} → Reach start db → Step db db' → Reach start db'

  pub Step-IsSoundDb : {db db' : Db} → Step db db' → IsSoundDb t db → IsSoundDb t db'
  Step-IsSoundDb (enqueues id company employee chat now kind key body mode db fresh) h =
      enqueue-IsSoundDb id company employee chat now kind key body mode db fresh h
  Step-IsSoundDb (claims kind key token now db) h = claim_source-IsSoundDb kind key token now db h
  Step-IsSoundDb (claims_batch w limit token now db) h =
      claim_due_batch-IsSoundDb w limit token now db h
  Step-IsSoundDb (sends id token telegram now db) h = mark_sent-IsSoundDb id token telegram now db h
  Step-IsSoundDb (fails id token again category wait now db) h =
      mark_failed-IsSoundDb id token again category wait now db h

  -- After any sequence of calls from a sound table, every row has made at most eight attempts, a
  -- row has an owner and a lease exactly while it is being sent, and a delivery time and a Telegram
  -- message id exactly once it is sent; and the ids stay distinct.
  pub Reach-IsSoundDb : {start db : Db} → IsSoundDb t start → Reach start db → IsSoundDb t db
  Reach-IsSoundDb h here = h
  Reach-IsSoundDb h (next r s) = Step-IsSoundDb s (Reach-IsSoundDb h r)
