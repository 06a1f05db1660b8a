-- ===== src/Outbox/Claims.antt =====
-- What a claim and a report of the owner achieve.
use mathlib.Core.Option
use onboard_ai.Common.{
  All-true, ==_iff, ltb, if◌then◌else◌, ℕ, ◌+◌, ◌<◌, ◌≤◌, ◌⊎◌, inl, inr, ◌≡◌, refl, ap, ◌∙◌, Bool,
  true, ◌&&◌, Option, none, some, arith, find, List, [], ◌∷◌, ok, ℤ,
}
use onboard_ai.Common.Text.{Text, strip, lower}
use onboard_ai.Store.{Table, set_if}
use onboard_ai.Store.Laws.{
  All-first, first_passes, first-update_miss, first-update, first_returned, find_both,
}
use onboard_ai.Outbox
use onboard_ai.Outbox.{
  sending, pending, failed, sent, Message, acquired, get_by_id, is_sending, is_pending, same_source,
  claimable, claimed_by, is_owned, sent_values, failed_values, exhausted_stale, exhausted_values,
  first_of_list,
}
use onboard_ai.Outbox.Lifecycle.{claim_source_db}
use onboard_ai.Outbox.Service.{
  seconds, max_attempts, validate_source, retry_delay_seconds, claim_source, mark_sent, mark_failed,
  valid_category, should_retry,
}

-- A row that is due, or whose lease has run out, after fewer than eight attempts.
abbrev pub IsDue : ℕ → Message → Type 0
IsDue now m =
    (m.attempt_count < 8)
    × (((m.status ≡ pending) × (m.next_attempt_at ≤ now))
        ⊎ ((deadline : ℕ) × (m.status ≡ sending)
            × (m.lease_expires_at ≡ some deadline)
            × (deadline < now)))

IsDue-claimable : (now : ℕ) (m : Message) → IsDue now m → claimable now max_attempts m ≡ true
unfolding claimable is_pending is_sending
IsDue-claimable now m (few, inl (waits, past)) = ground (arith, few, waits, past)
IsDue-claimable now m (few, inr (deadline, works, lease, over)) =
    ground (arith, few, works, lease, over)

-- The row in the hands of the owner of a token.
abbrev pub in_hand : ℕ → ℕ → Message → Message
in_hand token now m = record m {
  status = sending;
  owner_token = some token;
  lease_expires_at = some (now + 120000000);
  last_attempt_at = some now;
  attempt_count = m.attempt_count + 1;
  last_error_category = none;
}

module _ (t : Table Message) where
  open t use {Db, rows, first, update, first_lem, update_rows, update_returning}

  -- The first row that an update returns is the changed first row that it matched.
  first_of_list-find : (xs : List Message) → first_of_list xs ≡ find (λ m. true) xs
  unfolding first_of_list
  first_of_list-find [] = refl
  first_of_list-find (m ∷ ms) = refl

  returned :
      (p : Message → Bool) (f : Message → Message) (db : Db) {m : Message}
      → find p (rows db) ≡ some m
      → first_of_list (update p f db).1 ≡ some (f m)
  returned p f db found =
      rw (first_of_list-find, update_returning, first_returned t p f (rows db), found)

  is_owned-true :
      (id token : ℕ) (m : Message)
      → m.id ≡ id
      → m.status ≡ sending
      → m.owner_token ≡ some token
      → is_owned id token m ≡ true
  unfolding is_owned is_sending
  is_owned-true id token m i e o = ground arith

  All-first-id : (id : ℕ) (db : Db) {m : Message} → get_by_id t id db ≡ some m → m.id ≡ id
  unfolding get_by_id
  All-first-id id db {m = m} found =
      (==_iff m.id id).0 (All-first t (λ r. Unit {0}) _ db (All-true _ (rows db) (λ r. tt)) found).1

  claimed :
      (kind key : Text) (token now lease : ℕ) (db : Db) {m : Message}
      → first (same_source kind key) db ≡ some m
      → claimable now max_attempts m ≡ true
      → (Outbox.claim_source t kind key token now lease max_attempts db).1
        ≡ record { state = acquired; message = some (claimed_by token now lease m) }
  unfolding Outbox.claim_source
  claimed kind key token now lease db found due = rw (
    returned _ (claimed_by token now lease) db (
        find_both t (same_source kind key) (claimable now max_attempts) (rows db)
          (rw first_lem at found) due),
    Outbox.claim_source,
  )

  unswept :
      (kind key : Text) (now : ℕ) (db : Db) {m : Message}
      → first (same_source kind key) db ≡ some m
      → claimable now max_attempts m ≡ true
      → first (same_source kind key) (Outbox.expire_exhausted_stale t now max_attempts db) ≡ some m
  unfolding Outbox.expire_exhausted_stale same_source exhausted_values exhausted_stale claimable
  unswept kind key now db found due = first-update_miss t _ _ _ db (λ r. refl) found (ground arith)

  stored :
      (kind key : Text) (token now lease : ℕ) (db : Db) {m : Message}
      → first (same_source kind key) db ≡ some m
      → claimable now max_attempts m ≡ true
      → first
          (same_source kind key)
          (Outbox.claim_source t kind key token now lease max_attempts db).0
        ≡ some (claimed_by token now lease m)
  unfolding same_source claimed_by
  stored kind key token now lease db {m = m} found due =
      let mine = first_passes t (same_source kind key) db found in
      rw
        (
          claim_source_db t kind key token now lease max_attempts db,
          first-update t (same_source kind key)
              (λ r. same_source kind key r && claimable now max_attempts r)
              (claimed_by token now lease) db (λ r. refl),
          found,
          mine,
          due,
        )
        refl

  -- A claim of a row that is due, or whose lease has run out, and that has made fewer than eight
  -- attempts succeeds: the worker gets the row under its token, one attempt on, tried now and leased
  -- for two minutes, and the row is stored so.
  pub claim_source_acquires :
      (kind key : Text) (token now : ℕ) (db : Db) (m : Message) {s : Text × Text}
      → validate_source kind key ≡ ok s
      → first (same_source kind key) db ≡ some m
      → IsDue now m
      → let (db', answered) = claim_source t kind key token now db in
        (answered
          ≡ ok (record {
            state = acquired;
            message = some (in_hand token now m);
            owner_token = some token;
          }))
        × (first (same_source kind key) db' ≡ some (in_hand token now m))
  unfolding claim_source claimed_by
  claim_source_acquires kind key token now db m valid found is_due =
      let due = IsDue-claimable now m is_due in
      let swept = unswept kind key now db found due in
      rw (valid, claim_source)
        (
          rw (claimed kind key token now _ _ swept due) refl,
          stored kind key token now _ _ swept due,
        )

  -- The row found after a report of its owner.
  settled :
      (id token : ℕ) (f : Message → Message) (db : Db) (m : Message)
      → ((r : Message) → (f r).id ≡ r.id)
      → get_by_id t id db ≡ some m
      → m.status ≡ sending
      → m.owner_token ≡ some token
      → get_by_id t id (update (is_owned id token) f db).0 ≡ some (f m)
  unfolding get_by_id
  settled id token f db m same found e o =
      first-update t _ (is_owned id token) f db (λ r. rw (same r))
      ∙ ap (Option.map (set_if (is_owned id token) f)) found
      ∙ rw (is_owned-true id token m (All-first-id id db found) e o)

  -- The owner's report of a success takes effect: the row is found sent, with the time and the
  -- Telegram id of the report.
  mark_sent_settles :
      (id token telegram now : ℕ) (db : Db) (m : Message)
      → get_by_id t id db ≡ some m
      → m.status ≡ sending
      → m.owner_token ≡ some token
      → get_by_id t id (mark_sent t id token telegram now db).0 ≡ some (sent_values telegram now m)
  unfolding mark_sent Outbox.mark_sent
  mark_sent_settles id token telegram now db m found e o =
      settled id token (sent_values telegram now) db m (λ r. unfold sent_values in refl) found e o

  -- The owner's report of a failure takes effect: the row waits for its next attempt if the failure
  -- is retryable and fewer than eight attempts were made, and has failed for good otherwise.
  mark_failed_settles :
      (id token : ℕ) (again : Bool) (category : Text) (wait : Option ℤ) (now : ℕ) (db : Db)
      (m : Message)
      → valid_category (lower (strip category)) ≡ true
      → get_by_id t id db ≡ some m
      → m.status ≡ sending
      → m.owner_token ≡ some token
      → get_by_id t id (mark_failed t id token again category wait now db).0
        ≡ some (record m {
          status = if again && ltb m.attempt_count max_attempts then pending else failed;
          owner_token = none;
          lease_expires_at = none;
          next_attempt_at = now + seconds (retry_delay_seconds m.attempt_count wait);
          last_error_category = some (lower (strip category));
        })
  unfolding mark_failed Outbox.mark_failed
  mark_failed_settles id token again category wait now db m valid found e o = rw valid (
      rw (found, mark_failed)
        (settled id token
            (failed_values (should_retry again m)
              (now + seconds (retry_delay_seconds m.attempt_count wait)) (lower (strip category)))
            db m (λ r. unfold failed_values in refl) found e o
          ∙ unfold failed_values should_retry in refl))
