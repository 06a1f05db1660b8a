-- ===== src/Outbox/Tests.antt =====
-- Runs of the outbox on a table in memory.
use onboard_ai.Common.{
  ℕ, zero, suc, ◌≡◌, refl, Bool, true, ◌&&◌, none, some, arith, ◌==◌, any, keep, take, map, List,
  [], ◌∷◌, ok, pos, Bool-cases, inl, inr,
}
use onboard_ai.Common.Text.{codes, text_eq, strip, lower}
use onboard_ai.Store.Memory.{memory}
use onboard_ai.Outbox
use onboard_ai.Outbox.{
  Message, Picker, sending, sent, pending, failed, acquired, not_found, get_by_id, claimable,
  claimed_by, sent_values,
}
use onboard_ai.Outbox.Service.{
  new_message, Outgoing, validate_source, validate_outbound, same_content, enqueue_in_uow,
  claim_source, claim_due_batch, mark_sent,
}
use onboard_ai.Outbox.Sound.{IsSoundDb}
use onboard_ai.Outbox.Lifecycle.{here, next, claims, claims_batch, sends, Reach-IsSoundDb}
use onboard_ai.Outbox.Delivery.{idle, other, sent_is_final, lease_is_exclusive}
use onboard_ai.Outbox.Claims.{in_hand, claim_source_acquires}
use onboard_ai.Outbox.Normal.{claim_source_unstripped}

any-take :
    (i n : ℕ) (p : Message → Bool) (xs : List Message)
    → any (λ j. j == i) (take n (map (λ m. m.id) (keep p xs))) ≡ true
    → any (λ m. m.id == i && p m) xs ≡ true
any-take i zero p xs h = cc
any-take i (suc n) p [] h = cc
any-take i (suc n) p (x ∷ xs) h = elim (Bool-cases (p x)) [
  | inl hit ↦ ground (arith, any-take i n p xs)
  | inr miss ↦ ground (arith, any-take i (suc n) p xs)
]

abbrev ready : Outgoing
ready = record {
  source_type = codes "ai_chat";
  source_key = codes "k:1";
  body = codes "hi";
  parse_mode = none;
}

-- One message, queued at time 5.
abbrev queued : Message
queued = record {
  id = 1;
  company_id = 2;
  employee_id = 3;
  chat_id = 4;
  source_type = codes "ai_chat";
  source_key = codes "k:1";
  body = codes "hi";
  parse_mode = none;
  status = pending;
  attempt_count = 0;
  next_attempt_at = 5;
  last_attempt_at = none;
  sent_at = none;
  telegram_message_id = none;
  last_error_category = none;
  owner_token = none;
  lease_expires_at = none;
}

abbrev leased : Message
leased = record queued {
  status = sending;
  attempt_count = 1;
  last_attempt_at = some 10;
  owner_token = some 77;
  lease_expires_at = some 120000010;
}

abbrev done : Message
done = record queued {
  status = sent;
  attempt_count = 1;
  sent_at = some 20;
  telegram_message_id = some 900;
}

-- A worker that skips no row.
abbrev unlocked : Picker (memory Message)
unlocked = record {
  pick = λ p n xs. take n (map (λ m. m.id) (keep p xs));
  pick_passes = λ p n xs i. any-take i n p xs;
}

queued-IsSoundDb : IsSoundDb (memory Message) (queued ∷ [])
unfolding Outbox.is_sending
queued-IsSoundDb = record { sound = ground arith; distinct = ground arith }

leased-IsSoundDb : IsSoundDb (memory Message) (leased ∷ [])
unfolding Outbox.is_sending
leased-IsSoundDb = record { sound = ground arith; distinct = ground arith }

done-IsSoundDb : IsSoundDb (memory Message) (done ∷ [])
unfolding Outbox.is_sending
done-IsSoundDb = record { sound = ground arith; distinct = ground arith }

enqueue_run :
    enqueue_in_uow
      (memory Message)
      1
      2
      3
      4
      5
      (codes " AI_chat")
      (codes "k:1 ")
      (codes "hi\n")
      none
      []
    ≡ (queued ∷ [], ok queued)
unfolding enqueue_in_uow validate_outbound validate_source new_message Outbox.enqueue same_content
    strip lower text_eq
enqueue_run = refl

claim_run :
    claim_source (memory Message) (codes "ai_chat") (codes "k:1") 77 10 (queued ∷ [])
    ≡ (leased ∷ [], ok (record { state = acquired; message = some leased; owner_token = some 77 }))
unfolding claim_source validate_source Outbox.claim_source Outbox.expire_exhausted_stale strip lower
    text_eq Outbox.exhausted_stale Outbox.same_source claimable claimed_by Outbox.is_sending
    Outbox.is_pending
claim_run = refl

valid_source : validate_source (codes "ai_chat") (codes "k:1") ≡ ok (codes "ai_chat", codes "k:1")
unfolding validate_source strip lower text_eq
valid_source = refl

valid_ready : validate_outbound (codes "ai_chat") (codes "k:1") (codes "hi") none ≡ ok ready
unfolding validate_outbound validate_source strip lower text_eq
valid_ready = refl

Reach-IsSoundDb_example :
    IsSoundDb
      (memory Message)
      (claim_due_batch
        (memory Message)
        unlocked
        (pos 5)
        78
        200000000
        (claim_source (memory Message) (codes "ai_chat") (codes "k:1") 77 10 (queued ∷ [])).0).0
Reach-IsSoundDb_example = Reach-IsSoundDb (memory Message) queued-IsSoundDb (
    next (next here (claims (codes "ai_chat") (codes "k:1") 77 10 (queued ∷ [])))
      (claims_batch unlocked (pos 5) 78 200000000 _))

sent_is_final_example :
    get_by_id
      (memory Message)
      1
      (claim_due_batch (memory Message) unlocked (pos 5) 78 200000000 (done ∷ [])).0
    ≡ some done
unfolding get_by_id
sent_is_final_example =
    sent_is_final (memory Message) 1 done done-IsSoundDb refl refl
      (next here (claims_batch unlocked (pos 5) 78 200000000 (done ∷ [])))

lease_is_exclusive_example :
    get_by_id (memory Message) 1 (mark_sent (memory Message) 1 78 901 30 (leased ∷ [])).0
    ≡ some leased
unfolding get_by_id
lease_is_exclusive_example =
    lease_is_exclusive (memory Message) 1 77 120000010 leased leased-IsSoundDb refl refl refl refl
      (other idle (sends 1 78 901 30 (leased ∷ [])) (omega arith))

claim_source_acquires_example :
    let (db', answered) =
      claim_source (memory Message) (codes "ai_chat") (codes "k:1") 77 10 (queued ∷ []) in
    (answered
      ≡ ok (record {
        state = acquired;
        message = some (in_hand 77 10 queued);
        owner_token = some 77;
      }))
    × ((memory Message).first (Outbox.same_source (codes "ai_chat") (codes "k:1")) db'
        ≡ some (in_hand 77 10 queued))
unfolding Outbox.same_source text_eq
claim_source_acquires_example =
    claim_source_acquires (memory Message) (codes "ai_chat") (codes "k:1") 77 10 (queued ∷ [])
      queued valid_source refl (omega arith, inl (refl, omega arith))

claim_source_unstripped_example :
    (claim_source (memory Message) (codes "ai_chat") (codes "k:1 ") 77 10 (queued ∷ [])).1
    ≡ ok (record { state = not_found; message = none; owner_token = none })
unfolding validate_source strip lower text_eq
claim_source_unstripped_example =
    claim_source_unstripped (memory Message) (codes "ai_chat") (codes "k:1 ") 77 10 (refl, tt) here
      refl (λ e. cc)
