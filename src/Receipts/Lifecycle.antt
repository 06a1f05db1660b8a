-- ===== src/Receipts/Lifecycle.antt =====
-- The life of a receipt under every method, by any number of workers.
use onboard_ai.Common.{
  ℕ, ◌+◌, ◌*◌, ◌≡◌, refl, ◌∙◌, Bool, true, false, ◌&&◌, List, [], ◌∷◌, Option, none, arith, any,
  All, is_some, Bool-cases, inl, inr, Result-cases, same_option, AtMostOne, AtMostOne-map,
  AtMostOne-snoc,
}
use onboard_ai.Common.Text.{text_eq_sound}
use onboard_ai.Store.{Table, set_if}
use onboard_ai.Store.Laws.{All-update, All-upsert}
use onboard_ai.Receipts.{
  Receipt, Key, is_processing, is_completed, same_key, reclaimable, reclaimed, new_receipt,
  is_owned, completed_values, failed_values, claim, complete, fail, claim_operation, fail_operation,
  checked,
}

module _ {Json : Type 0} where
  -- What holds of a receipt between two transactions.
  pub record IsSound (r : Receipt Json) : Type 0 where
    pub owned : is_some r.owner_token ≡ is_processing r.status
    pub leased : is_some r.lease_expires_at ≡ is_processing r.status
    pub stamped : is_some r.completed_at ≡ is_completed r.status
    pub answered : is_completed r.status ≡ false → r.response ≡ none
    pub paired : is_some r.company_id ≡ is_some r.employee_id

  new_receipt-IsSound :
      (id : ℕ) (k : Key) (hash : Option ℕ) (token lease : ℕ) (company employee : Option ℕ)
      → is_some company ≡ is_some employee
      → IsSound (new_receipt id k hash token lease company employee)
  unfolding new_receipt is_processing is_completed
  new_receipt-IsSound id k hash token lease company employee pair = ground arith

  reclaimed-IsSound :
      (token lease : ℕ) (r : Receipt Json) → IsSound r → IsSound (reclaimed token lease r)
  unfolding reclaimed is_processing is_completed
  reclaimed-IsSound token lease r h = ground arith

  completed_values-IsSound :
      (at : ℕ) (response : Option Json) (company employee : Option ℕ) (r : Receipt Json)
      → IsSound r
      → IsSound (completed_values at response company employee r)
  unfolding completed_values is_processing is_completed
  completed_values-IsSound at response company employee r h = ground arith

  failed_values-IsSound :
      (id token : ℕ) (r : Receipt Json)
      → IsSound r
      → is_owned id token r ≡ true
      → IsSound (failed_values r)
  unfolding failed_values is_owned is_processing is_completed
  failed_values-IsSound id token r h c = ground arith

  -- Two keys that one receipt has are the same test.
  same_key_new :
      (k k' : Key) (id : ℕ) (hash : Option ℕ) (token lease : ℕ) (company employee : Option ℕ)
      (r : Receipt Json)
      → same_key k' (new_receipt {Json = Json} id k hash token lease company employee) ≡ true
      → same_key k' r ≡ same_key k r
  unfolding same_key new_receipt
  same_key_new k k' id hash token lease company employee r e = ground (
    arith,
    text_eq_sound k.scope k'.scope,
    text_eq_sound k.operation k'.operation,
    text_eq_sound k.idempotency_key k'.idempotency_key,
  )

  any_same :
      (p q : Receipt Json → Bool) (xs : List (Receipt Json))
      → ((r : Receipt Json) → p r ≡ q r)
      → any p xs ≡ any q xs
  any_same p q [] same = refl
  any_same p q (x ∷ xs) same = ground (arith, same x, any_same p q xs same)

module _ {Json : Type 0} (t : Table (Receipt Json)) where
  open t use {Db, rows, update, upsert, update_rows, upsert_fresh, upsert_conflict}

  -- Every receipt is sound, and no key has two receipts.
  pub record IsKeptDb (db : Db) : Type 0 where
    pub sound : All IsSound (rows db)
    pub keyed : (k : Key) → AtMostOne (same_key k) (rows db)

  set_if-key :
      (k : Key) (q : Receipt Json → Bool) (f : Receipt Json → Receipt Json)
      → ((r : Receipt Json) → same_key k (f r) ≡ same_key k r)
      → (r : Receipt Json) → same_key k (set_if q f r) ≡ same_key k r
  set_if-key k q f same r = elim (Bool-cases (q r)) [
    | inl hit ↦ rw hit (same r)
    | inr miss ↦ rw miss refl
  ]

  update-IsKeptDb :
      (q : Receipt Json → Bool) (f : Receipt Json → Receipt Json) (db : Db)
      → ((k : Key) (r : Receipt Json) → same_key k (f r) ≡ same_key k r)
      → ((r : Receipt Json) → IsSound r → q r ≡ true → IsSound (f r))
      → IsKeptDb db
      → IsKeptDb (update q f db).0
  update-IsKeptDb q f db same step h = record {
    sound = All-update t IsSound q f db step h.sound;
    keyed = λ k.
        rw (update_rows q f db) (
          AtMostOne-map (same_key k) (set_if q f) (rows db) (set_if-key k q f (same k))
            (h.keyed k));
  }

  upsert-keyed :
      (k : Key) (q : Receipt Json → Bool) (f : Receipt Json → Receipt Json) (id : ℕ)
      (hash : Option ℕ) (token lease : ℕ) (company employee : Option ℕ) (db : Db)
      → ((k : Key) (r : Receipt Json) → same_key k (f r) ≡ same_key k r)
      → ((k : Key) → AtMostOne (same_key k) (rows db))
      → (k' : Key)
      → AtMostOne
          (same_key k')
          (rows (upsert (same_key k) q f (new_receipt id k hash token lease company employee) db).0)
  upsert-keyed k q f id hash token lease company employee db same h k' =
      elim (Bool-cases (any (same_key k) (rows db))) [
        | inl taken ↦
            rw
              ((upsert_conflict (same_key k) q f
                (new_receipt id k hash token lease company employee) db taken).0)
              (AtMostOne-map (same_key k') (set_if (λ x. same_key k x && q x) f) (rows db)
                (set_if-key k' (λ x. same_key k x && q x) f (same k')) (h k'))
        | inr fresh ↦
            rw
              ((upsert_fresh (same_key k) q f (new_receipt id k hash token lease company employee)
                db fresh).0)
              (AtMostOne-snoc (same_key k') (rows db)
                (new_receipt id k hash token lease company employee)
                (λ e.
                  any_same (same_key k') (same_key k) (rows db)
                    (λ r. same_key_new k k' id hash token lease company employee r e)
                  ∙ fresh)
                (h k'))
      ]

  pub claim_db :
      (id : ℕ) (k : Key) (hash : Option ℕ) (token lease db_now : ℕ) (company employee : Option ℕ)
      (db : Db)
      → (claim t id k hash token lease db_now company employee db).0
        ≡ (upsert
            (same_key k)
            (reclaimable hash db_now)
            (reclaimed token lease)
            (new_receipt id k hash token lease company employee)
            db).0
  unfolding claim
  claim_db id k hash token lease db_now company employee db = ground arith

  claim-IsKeptDb :
      (id : ℕ) (k : Key) (hash : Option ℕ) (token lease db_now : ℕ) (company employee : Option ℕ)
      (db : Db)
      → is_some company ≡ is_some employee
      → IsKeptDb db
      → IsKeptDb (claim t id k hash token lease db_now company employee db).0
  claim-IsKeptDb id k hash token lease db_now company employee db pair h =
      rw (claim_db id k hash token lease db_now company employee db) (record {
        sound =
            All-upsert t IsSound _ _ _ _ db
              (new_receipt-IsSound id k hash token lease company employee pair)
              (λ r s c. reclaimed-IsSound token lease r s) h.sound;
        keyed =
            upsert-keyed k _ _ id hash token lease company employee db
              (λ k' r. unfold same_key reclaimed in refl) h.keyed;
      })

  -- A claim leaves the table as it was, or as the statement of the repository leaves it.
  pub claim_operation_cases {ℓ} :
      (P : Db → Type ℓ) (id : ℕ) (k : Key) (hash : Option ℕ) (token now lease db_now : ℕ)
      (company employee : Option ℕ) (db : Db)
      → P db
      → P (claim t id k hash token (now + lease * 1000000) db_now company employee db).0
      → P (claim_operation t id k hash token now lease db_now company employee db).0
  unfolding claim_operation checked
  claim_operation_cases P id k hash token now lease db_now company employee db kept claimed =
      elim (Result-cases
        (claim t id k hash token (now + lease * 1000000) db_now company employee db).1) [
          | inl (e, raised) ↦ rw (raised, claim_operation) kept
          | inr (c, done) ↦ elim (Bool-cases (same_option c.receipt.request_hash hash)) [
            | inl same ↦ rw (done, claim_operation) (rw same claimed)
            | inr other ↦ rw (done, claim_operation) (rw other kept)
          ]
        ]

  -- The service as its callers use it, at any time and with any arguments.
  pub data Step : Db → Db → Type 0 where
    claims :
        (id : ℕ) (k : Key) (hash : Option ℕ) (token now lease db_now : ℕ)
        (company employee : Option ℕ) (db : Db)
        → is_some company ≡ is_some employee
        → Step db (claim_operation t id k hash token now lease db_now company employee db).0
    completes :
        (id token at : ℕ) (response : Option Json) (company employee : Option ℕ) (db : Db)
        → Step db (complete t id token at response company employee db).0
    fails : (id token : ℕ) (db : Db) → Step db (fail_operation t id token db).0

  pub data Reach (start : Db) : Db → Type 0 where
    here : Reach start start
    next : {db db' : Db} → Reach start db → Step db db' → Reach start db'

  Step-IsKeptDb : {db db' : Db} → Step db db' → IsKeptDb db → IsKeptDb db'
  Step-IsKeptDb (claims id k hash token now lease db_now company employee db pair) h =
      claim_operation_cases IsKeptDb id k hash token now lease db_now company employee db h
        (claim-IsKeptDb id k hash token _ db_now company employee db pair h)
  Step-IsKeptDb (completes id token at response company employee db) h =
      unfold complete in
      update-IsKeptDb _ _ db (λ k r. unfold same_key completed_values in refl)
        (λ r s c. completed_values-IsSound at response company employee r s) h
  Step-IsKeptDb (fails id token db) h =
      unfold fail_operation fail in
      update-IsKeptDb _ _ db (λ k r. unfold same_key failed_values in refl)
        (λ r s c. failed_values-IsSound id token r s c) h

  -- After any sequence of calls from a sound table, a receipt has an owner and a lease exactly
  -- while it is processing, a completion time exactly once it is completed, a stored response only
  -- then, and both halves of an identity or none; and no key has two receipts.
  pub Reach-IsKeptDb : {start db : Db} → IsKeptDb start → Reach start db → IsKeptDb db
  Reach-IsKeptDb h here = h
  Reach-IsKeptDb h (next r s) = Step-IsKeptDb s (Reach-IsKeptDb h r)
