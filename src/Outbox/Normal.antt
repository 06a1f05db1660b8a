-- ===== src/Outbox/Normal.antt =====
-- The texts under which rows are stored, and under which they can be claimed.
use onboard_ai.Common.{
  ℕ, ◌≡◌, ◌≢◌, refl, subst, Bool, false, ◌&&◌, Option, none, arith, find, List, [], ◌∷◌, ok,
  Bool-cases, inl, inr, Result-cases, All, All-weaken, keep_none,
}
use onboard_ai.Common.Text.{Text, text_eq, text_eq_sound, strip, strip-strip}
use onboard_ai.Store.{Table}
use onboard_ai.Store.Laws.{All-update, All-insert}
use onboard_ai.Outbox
use onboard_ai.Outbox.{
  Message, same_source, get_by_source, not_found, exhausted_stale, exhausted_values, claimed_by,
  claimable, sent_values, failed_values, first_of_list,
}
use onboard_ai.Outbox.Service.{
  max_attempts, Outgoing, validate_source, check_content, validate_outbound, new_message,
  claim_source, claim_due_batch, mark_sent, enqueue_in_uow,
}
use onboard_ai.Outbox.Service.Cases.{store_new_cases, claim_source_cases, mark_failed_cases}
use onboard_ai.Outbox.Lifecycle.{
  Step, enqueues, claims, claims_batch, sends, fails, Reach, here, next, enqueue_db,
  claim_source_db,
}

-- The key is stored in normal form.
abbrev pub IsNormal : Message → Type 0
IsNormal m = strip m.source_key ≡ m.source_key

-- What validation lets through is normal.
validate_source_normal :
    (kind key : Text) {s : Text × Text} → validate_source kind key ≡ ok s → strip s.1 ≡ s.1
unfolding validate_source
validate_source_normal kind key {s = s} h = ground (arith, strip-strip key)

check_content_key :
    (s : Text × Text) (body : Text) (mode : Option Text) {o : Outgoing}
    → check_content s body mode ≡ ok o
    → o.source_key ≡ s.1
unfolding check_content
check_content_key (kind, key) body mode {o = o} h = ground arith

validate_outbound_normal :
    (kind key body : Text) (mode : Option Text) {o : Outgoing}
    → validate_outbound kind key body mode ≡ ok o
    → strip o.source_key ≡ o.source_key
unfolding validate_outbound
validate_outbound_normal kind key body mode {o = o} h =
    elim (Result-cases (validate_source kind key)) [
      | inl (e, raised) ↦ ground (arith, raised)
      | inr (s, done) ↦
          let checked : check_content s (strip body) mode ≡ ok o = ground (arith, done) in
          rw (check_content_key s (strip body) mode checked) (validate_source_normal kind key done)
    ]

module _ (t : Table Message) where
  open t use {Db, rows, first, update, insert, first_lem, update_returning}

  abbrev pub AllNormal : Db → Type 0
  AllNormal db = All IsNormal (rows db)

  enqueue-AllNormal :
      (id company employee chat now : ℕ) (kind key body : Text) (mode : Option Text) (db : Db)
      → AllNormal db
      → AllNormal (enqueue_in_uow t id company employee chat now kind key body mode db).0
  unfolding enqueue_in_uow
  enqueue-AllNormal id company employee chat now kind key body mode db h =
      elim (Result-cases (validate_outbound kind key body mode)) [
        | inl (e, raised) ↦ rw (raised, enqueue_in_uow) h
        | inr (o, done) ↦
            rw (done, enqueue_in_uow)
              (store_new_cases t AllNormal id company employee chat now o db h (
                rw (enqueue_db t (new_message id company employee chat now o) db) (
                  All-insert t IsNormal _ _ db
                    (unfold new_message in validate_outbound_normal kind key body mode done) h)))
      ]

  sweep-AllNormal :
      (now : ℕ) (db : Db)
      → AllNormal db
      → AllNormal (Outbox.expire_exhausted_stale t now max_attempts db)
  unfolding Outbox.expire_exhausted_stale exhausted_values
  sweep-AllNormal now db h = All-update t IsNormal _ _ db (λ m k c. k) h

  Step-AllNormal : {db db' : Db} → Step t db db' → AllNormal db → AllNormal db'
  Step-AllNormal (enqueues id company employee chat now kind key body mode db fresh) h =
      enqueue-AllNormal id company employee chat now kind key body mode db h
  Step-AllNormal (claims kind key token now db) h =
      claim_source_cases t AllNormal kind key token now db h (
        rw (claim_source_db t kind key token now _ _ _) (
          unfold claimed_by in All-update t IsNormal _ _ _ (λ m k c. k) (sweep-AllNormal now db h)))
  Step-AllNormal (claims_batch w limit token now db) h =
      unfold claim_due_batch Outbox.claim_due_batch claimed_by in
      All-update t IsNormal _ _ _ (λ m k c. k) (sweep-AllNormal now db h)
  Step-AllNormal (sends id token telegram now db) h =
      unfold mark_sent Outbox.mark_sent sent_values in All-update t IsNormal _ _ db (λ m k c. k) h
  Step-AllNormal (fails id token again category wait now db) h =
      mark_failed_cases t AllNormal id token again category wait now db h
        λ c. unfold Outbox.mark_failed failed_values in All-update t IsNormal _ _ db (λ m k c. k) h

  Reach-AllNormal : {start db : Db} → AllNormal start → Reach t start db → AllNormal db
  Reach-AllNormal h here = h
  Reach-AllNormal h (next r s) = Step-AllNormal s (Reach-AllNormal h r)

  not_same :
      (kind key : Text) (m : Message)
      → strip key ≢ key
      → IsNormal m
      → same_source kind key m ≡ false
  unfolding same_source
  not_same kind key m odd normal = elim (Bool-cases (text_eq m.source_key key)) [
    | inl same ↦
        absurd (odd (subst (λ k. strip k ≡ k) (text_eq_sound m.source_key key same) normal))
    | inr other ↦ ground (arith, other)
  ]

  find_nothing :
      (p : Message → Bool) (xs : List Message) → All (λ m. p m ≡ false) xs → find p xs ≡ none
  find_nothing p [] h = refl
  find_nothing p (x ∷ xs) h = ground (arith, h.0, find_nothing p xs h.1)

  nothing_returned :
      (p : Message → Bool) (f : Message → Message) (db : Db)
      → All (λ m. p m ≡ false) (rows db)
      → first_of_list (update p f db).1 ≡ none
  unfolding first_of_list
  nothing_returned p f db h = rw (update_returning, keep_none p (rows db) h)

  nothing_claimed :
      (kind key : Text) (token now lease : ℕ) (db : Db)
      → strip key ≢ key
      → AllNormal db
      → (Outbox.claim_source t kind key token now lease max_attempts db).1
        ≡ record { state = not_found; message = none }
  unfolding Outbox.claim_source
  nothing_claimed kind key token now lease db odd h =
      rw (nothing_returned _ (claimed_by token now lease) db unmatched, Outbox.claim_source)
        (rw (unfound, Outbox.claim_source))
    where
      unmatched :
          All (λ m. (same_source kind key m && claimable now max_attempts m) ≡ false) (rows db)
      unmatched = All-weaken IsNormal _ (rows db) (λ m k. rw (not_same kind key m odd k)) h

      after : Db
      after =
          (update (λ m. same_source kind key m && claimable now max_attempts m)
            (claimed_by token now lease) db).0

      normal : AllNormal after
      normal = unfold claimed_by in All-update t IsNormal _ _ db (λ m k c. k) h

      unfound : get_by_source t kind key after ≡ none
      unfound =
          unfold get_by_source in
          rw first_lem (
            find_nothing _ (rows after)
              (All-weaken IsNormal _ (rows after) (λ m k. not_same kind key m odd k) normal))

  -- A key with spaces at an end passes the validation of `claim_source`, which strips it, but finds
  -- no row, although the outbox holds the message that was queued under the same text: the row is
  -- stored under the stripped key and looked up under the raw one.
  pub claim_source_unstripped :
      (kind key : Text) (token now : ℕ) {start db : Db} {s : Text × Text}
      → AllNormal start
      → Reach t start db
      → validate_source kind key ≡ ok s
      → strip key ≢ key
      → (claim_source t kind key token now db).1
        ≡ ok (record { state = not_found; message = none; owner_token = none })
  unfolding claim_source
  claim_source_unstripped kind key token now {db = db} h r valid odd =
      rw (valid, claim_source)
        (rw (
          nothing_claimed kind key token now _ _ odd
            (sweep-AllNormal now db (Reach-AllNormal h r))))
