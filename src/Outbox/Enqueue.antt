-- ===== src/Outbox/Enqueue.antt =====
-- What `enqueue_in_uow` stores, once and again, and under which texts a row can be claimed.
use onboard_ai.Common.{
  ℕ, ◌≡◌, refl, true, Option, none, some, arith, ==_refl, [], ◌∷◌, ◌++◌, ok, err, conflict,
  if◌then◌else◌,
}
use onboard_ai.Common.Text.{Text, text_eq_refl}
use onboard_ai.Store.{Table}
use onboard_ai.Store.Laws.{any-find, not_any-find}
use onboard_ai.Outbox
use onboard_ai.Outbox.{
  Message, same_source, get_by_source, not_found, exhausted_stale, exhausted_values, claimed_by,
}
use onboard_ai.Outbox.Service
use onboard_ai.Outbox.Service.{
  max_attempts, seconds, lease_seconds, source_types, matches_class, is_key_char, Outgoing,
  validate_source, check_content, validate_outbound, same_content, new_message, store_new,
  enqueue_in_uow, claim_source, Delivery,
}

module _ (t : Table Message) where
  open t use {Db, rows, first, insert, update, first_lem, insert_fresh, insert_conflict}

  enqueued_new :
      (m : Message) (db : Db)
      → first (same_source m.source_type m.source_key) db ≡ none
      → (rows (Outbox.enqueue t m db).0 ≡ rows db ++ m ∷ []) × ((Outbox.enqueue t m db).1 ≡ ok m)
  unfolding Outbox.enqueue
  enqueued_new m db free =
      let new =
        insert_fresh (same_source m.source_type m.source_key) m db
          (not_any-find t _ (rows db) (rw first_lem at free)) in
      (rw (new.1, Outbox.enqueue) new.0, rw (new.1, Outbox.enqueue))

  enqueued_again :
      (m : Message) (db : Db) {old : Message}
      → first (same_source m.source_type m.source_key) db ≡ some old
      → (rows (Outbox.enqueue t m db).0 ≡ rows db) × ((Outbox.enqueue t m db).1 ≡ ok old)
  unfolding Outbox.enqueue get_by_source
  enqueued_again m db taken =
      let was = rw first_lem at taken in
      let old =
        insert_conflict (same_source m.source_type m.source_key) m db
          (any-find t _ (rows db) was) in
      (rw (old.1, Outbox.enqueue) old.0, rw (old.1, Outbox.enqueue) (rw (first_lem, old.0, was)))

  same_content_new :
      (id company employee chat now : ℕ) (o : Outgoing)
      → same_content company employee chat o (new_message id company employee chat now o) ≡ true
  unfolding same_content new_message Service.same_text_option
  same_content_new id company employee chat now o =
      rw (==_refl company, ==_refl employee, ==_refl chat, text_eq_refl o.body) (mode o.parse_mode)
    where
      mode : (p : Option Text) → Service.same_text_option p p ≡ true
      mode none = refl
      mode (some s) = text_eq_refl s

  -- A source that no row has yet: one pending row is added, with the normalised texts and no
  -- attempts, and it is what the caller gets.
  enqueue_new :
      (id company employee chat now : ℕ) (kind key body : Text) (mode : Option Text) (db : Db)
      (o : Outgoing)
      → validate_outbound kind key body mode ≡ ok o
      → first (same_source o.source_type o.source_key) db ≡ none
      → let m = new_message id company employee chat now o in
        let (db', stored) = enqueue_in_uow t id company employee chat now kind key body mode db in
        (rows db' ≡ rows db ++ m ∷ []) × (stored ≡ ok m)
  unfolding enqueue_in_uow
  enqueue_new id company employee chat now kind key body mode db o valid free =
      rw (valid, enqueue_in_uow) (added (enqueued_new m db (unfold new_message in free)))
    where
      m : Message
      m = new_message id company employee chat now o

      added :
          (rows (Outbox.enqueue t m db).0 ≡ rows db ++ m ∷ []) × ((Outbox.enqueue t m db).1 ≡ ok m)
          → (rows (store_new t id company employee chat now o db).0 ≡ rows db ++ m ∷ [])
            × ((store_new t id company employee chat now o db).1 ≡ ok m)
      added (more, done) =
          unfold store_new in
          ground (arith, more, done, same_content_new id company employee chat now o)

  -- A source that a row has already: the table stays as it was. The caller gets that row if it
  -- holds the same recipient, body and parse mode, and a conflict if it does not.
  enqueue_again :
      (id company employee chat now : ℕ) (kind key body : Text) (mode : Option Text) (db : Db)
      (o : Outgoing) (old : Message)
      → validate_outbound kind key body mode ≡ ok o
      → first (same_source o.source_type o.source_key) db ≡ some old
      → let (db', stored) = enqueue_in_uow t id company employee chat now kind key body mode db in
        (rows db' ≡ rows db)
        × (stored ≡ (if same_content company employee chat o old then ok old else err conflict))
  unfolding enqueue_in_uow
  enqueue_again id company employee chat now kind key body mode db o old valid taken =
      rw (valid, enqueue_in_uow) (kept (enqueued_again m db (unfold new_message in taken)))
    where
      m : Message
      m = new_message id company employee chat now o

      kept :
          (rows (Outbox.enqueue t m db).0 ≡ rows db) × ((Outbox.enqueue t m db).1 ≡ ok old)
          → (rows (store_new t id company employee chat now o db).0 ≡ rows db)
            × ((store_new t id company employee chat now o db).1
                ≡ (if same_content company employee chat o old then ok old else err conflict))
      kept (same, done) = unfold store_new in ground (arith, same, done)
