-- ===== src/Outbox/Delivery.antt =====
-- Who may change a row of the outbox: a sent row nobody, and a leased row only its owner while the
-- lease runs.
use onboard_ai.Common.{
  ℕ, ◌≤◌, ◌≡◌, ◌≢◌, refl, true, false, some, arith, ◌==◌, any, clash, Bool-cases, inl, inr,
}
use onboard_ai.Common.Text.{Text}
use onboard_ai.Store.{Table}
use onboard_ai.Store.Laws.{All-first, first-update_miss, first-insert}
use onboard_ai.Outbox
use onboard_ai.Outbox.{
  sending, sent, Message, Picker, get_by_id, is_sending, is_pending, claimable, claimed_by,
  is_owned, sent_values, failed_values, exhausted_stale, exhausted_values,
}
use onboard_ai.Outbox.Service.{max_attempts, new_message, claim_due_batch, mark_sent}
use onboard_ai.Outbox.Service.Cases.{
  store_new_cases, enqueue_cases, claim_source_cases, mark_failed_cases,
}
use onboard_ai.Outbox.Sound.{IsSoundDb, picked_passes}
use onboard_ai.Outbox.Lifecycle.{
  Step, enqueues, claims, claims_batch, sends, fails, Reach, here, next, Reach-IsSoundDb,
  enqueue_db, claim_source_db, sweep-IsSoundDb,
}

module _ (t : Table Message) where
  open t use {Db, rows, update}

  -- The calls that leave a row alone, if the row resists them: what a call would have to find true
  -- of the row in order to change it is false.
  abbrev Resists : Message → {db db' : Db} → Step t db db' → Type 0
  Resists m (enqueues id company employee chat now kind key body mode db fresh) = Unit
  Resists m (claims kind key token now db) =
      (claimable now max_attempts m ≡ false) × (exhausted_stale now max_attempts m ≡ false)
  Resists m (claims_batch w limit token now db) =
      (claimable now max_attempts m ≡ false) × (exhausted_stale now max_attempts m ≡ false)
  Resists m (sends id token telegram now db) = is_owned id token m ≡ false
  Resists m (fails id token again category wait now db) = is_owned id token m ≡ false

  swept :
      (i now : ℕ) (db : Db) {m : Message}
      → exhausted_stale now max_attempts m ≡ false
      → get_by_id t i db ≡ some m
      → get_by_id t i (Outbox.expire_exhausted_stale t now max_attempts db) ≡ some m
  unfolding get_by_id Outbox.expire_exhausted_stale exhausted_values
  swept i now db miss found = first-update_miss t _ _ _ db (λ r. refl) found miss

  enqueued :
      (i : ℕ) (new : Message) (db : Db) {m : Message}
      → get_by_id t i db ≡ some m
      → get_by_id t i (Outbox.enqueue t new db).0 ≡ some m
  unfolding get_by_id
  enqueued i new db found = rw (enqueue_db t new db) (first-insert t _ _ new db found)

  not_claimed :
      (i : ℕ) (kind key : Text) (token now lease : ℕ) (db : Db) {m : Message}
      → claimable now max_attempts m ≡ false
      → get_by_id t i db ≡ some m
      → get_by_id t i (Outbox.claim_source t kind key token now lease max_attempts db).0 ≡ some m
  unfolding get_by_id claimed_by
  not_claimed i kind key token now lease db miss found =
      rw (claim_source_db t kind key token now lease max_attempts db)
        (first-update_miss t _ _ _ db (λ r. refl) found (ground (arith, miss)))

  not_picked :
      (i : ℕ) (w : Picker t) (token now lease limit : ℕ) (db : Db) {m : Message}
      → IsSoundDb t db
      → claimable now max_attempts m ≡ false
      → get_by_id t i db ≡ some m
      → get_by_id t i (Outbox.claim_due_batch t w token now lease max_attempts limit db).0 ≡ some m
  unfolding get_by_id claimed_by Outbox.claim_due_batch
  not_picked i w token now lease limit db {m = m} h miss found =
      first-update_miss t _ _ _ db (λ r. refl) found unpicked
    where
      passes :
          any (λ j. j == m.id) (w.pick (claimable now max_attempts) limit db) ≡ true
          → claimable now max_attempts m ≡ true
      passes =
          (All-first t _ _ db (picked_passes t w (claimable now max_attempts) limit db h.distinct)
            found).0

      unpicked : any (λ j. j == m.id) (w.pick (claimable now max_attempts) limit db) ≡ false
      unpicked =
          elim (Bool-cases (any (λ j. j == m.id) (w.pick (claimable now max_attempts) limit db))) [
            | inl hit ↦ absurd (clash miss (passes hit))
            | inr gone ↦ gone
          ]

  Step-Resists :
      (i : ℕ) {db db' : Db} {m : Message} (s : Step t db db')
      → IsSoundDb t db
      → Resists m s
      → get_by_id t i db ≡ some m
      → get_by_id t i db' ≡ some m
  Step-Resists i {m = m} (enqueues id company employee chat now kind key body mode db fresh) h r
        found =
      enqueue_cases t (λ d. get_by_id t i d ≡ some m) id company employee chat now kind key body
        mode db found
        λ o.
          store_new_cases t (λ d. get_by_id t i d ≡ some m) id company employee chat now o db found
            (enqueued i (new_message id company employee chat now o) db found)
  Step-Resists i {m = m} (claims kind key token now db) h r found =
      claim_source_cases t (λ d. get_by_id t i d ≡ some m) kind key token now db found
        (not_claimed i kind key token now _ _ r.0 (swept i now db r.1 found))
  Step-Resists i {m = m} (claims_batch w limit token now db) h r found =
      unfold claim_due_batch in
      not_picked i w token now _ _ _ (sweep-IsSoundDb t now db h) r.0 (swept i now db r.1 found)
  Step-Resists i {m = m} (sends id token telegram now db) h r found =
      unfold mark_sent Outbox.mark_sent get_by_id sent_values in
      first-update_miss t _ _ _ db (λ r. refl) found r
  Step-Resists i {m = m} (fails id token again category wait now db) h r found =
      mark_failed_cases t (λ d. get_by_id t i d ≡ some m) id token again category wait now db found
        λ c.
          unfold Outbox.mark_failed get_by_id failed_values in
          first-update_miss t _ _ _ db (λ r. refl) found r

  sent-Resists : {db db' : Db} (m : Message) (s : Step t db db') → m.status ≡ sent → Resists m s
  unfolding claimable exhausted_stale is_owned is_sending is_pending
  sent-Resists m (enqueues id company employee chat now kind key body mode db fresh) e = tt
  sent-Resists m (claims kind key token now db) e = ground arith
  sent-Resists m (claims_batch w limit token now db) e = ground arith
  sent-Resists m (sends id token telegram now db) e = ground arith
  sent-Resists m (fails id token again category wait now db) e = ground arith

  -- A row that has been sent stays exactly as it is, whatever calls follow: it is never claimed
  -- again, and neither a success nor a failure can be recorded on it.
  pub sent_is_final :
      (i : ℕ) (m : Message) {start db : Db}
      → IsSoundDb t start
      → get_by_id t i start ≡ some m
      → m.status ≡ sent
      → Reach t start db
      → get_by_id t i db ≡ some m
  sent_is_final i m h found e here = found
  sent_is_final i m h found e (next r s) =
      Step-Resists i s (Reach-IsSoundDb t h r) (sent-Resists m s e) (sent_is_final i m h found e r)

  -- Calls of others while a lease runs: a claim that starts no later than the deadline, a result
  -- reported under another token, and any new message.
  abbrev pub IsOutside : ℕ → ℕ → {db db' : Db} → Step t db db' → Type 0
  IsOutside owner deadline (enqueues id company employee chat now kind key body mode db fresh) =
      Unit
  IsOutside owner deadline (claims kind key token now db) = now ≤ deadline
  IsOutside owner deadline (claims_batch w limit token now db) = now ≤ deadline
  IsOutside owner deadline (sends id token telegram now db) = token ≢ owner
  IsOutside owner deadline (fails id token again category wait now db) = token ≢ owner

  leased-Resists :
      {db db' : Db} (owner deadline : ℕ) (m : Message) (s : Step t db db')
      → m.status ≡ sending
      → m.owner_token ≡ some owner
      → m.lease_expires_at ≡ some deadline
      → IsOutside owner deadline s
      → Resists m s
  unfolding claimable exhausted_stale is_owned is_sending is_pending
  leased-Resists owner deadline m
        (enqueues id company employee chat now kind key body mode db fresh) e o l q =
      tt
  leased-Resists owner deadline m (claims kind key token now db) e o l q = ground arith
  leased-Resists owner deadline m (claims_batch w limit token now db) e o l q = ground arith
  leased-Resists owner deadline m (sends id token telegram now db) e o l q = ground arith
  leased-Resists owner deadline m (fails id token again category wait now db) e o l q = ground arith

  -- Sequences of such calls.
  pub data Meanwhile (owner deadline : ℕ) (start : Db) : Db → Type 0 where
    idle : Meanwhile owner deadline start start
    other :
        {db db' : Db}
        → Meanwhile owner deadline start db
        → (s : Step t db db') → IsOutside owner deadline s
        → Meanwhile owner deadline start db'

  Meanwhile-Reach :
      {owner deadline : ℕ} {start db : Db} → Meanwhile owner deadline start db → Reach t start db
  Meanwhile-Reach idle = here
  Meanwhile-Reach (other r s q) = next (Meanwhile-Reach r) s

  -- While a lease runs, no call but its owner's changes the row: no other worker claims it, sweeps
  -- it, or reports a result on it.
  pub lease_is_exclusive :
      (i owner deadline : ℕ) (m : Message) {start db : Db}
      → IsSoundDb t start
      → get_by_id t i start ≡ some m
      → m.status ≡ sending
      → m.owner_token ≡ some owner
      → m.lease_expires_at ≡ some deadline
      → Meanwhile owner deadline start db
      → get_by_id t i db ≡ some m
  lease_is_exclusive i owner deadline m h found e o l idle = found
  lease_is_exclusive i owner deadline m h found e o l (other r s q) =
      Step-Resists i s (Reach-IsSoundDb t h (Meanwhile-Reach r))
        (leased-Resists owner deadline m s e o l q)
        (lease_is_exclusive i owner deadline m h found e o l r)
