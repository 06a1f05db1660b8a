-- ===== src/Receipts/Claims.antt =====
-- What a claim answers, by the receipt that it meets.
use mathlib.Core.Option
use onboard_ai.Common.{
  ℕ, ◌+◌, ◌*◌, ◌≡◌, refl, ap, ◌∙◌, true, false, ◌&&◌, Option, none, some, arith, find, map, [], ◌∷◌,
  ◌++◌, ok, err, conflict, same_option, same_option_iff, if◌then◌else◌,
}
use onboard_ai.Store.{Table, set_if}
use onboard_ai.Store.Laws.{any-find, not_any-find, find_both, first-upsert_hit}
use onboard_ai.Receipts.{
  Receipt, Key, ClaimState, acquired, is_completed, same_key, reclaimable, reclaimed, new_receipt,
  get_scoped, claim, claim_operation, checked, answer, duplicate,
}
use onboard_ai.Receipts.Kept.{claim_kept, answer-duplicate, same_hash}
use onboard_ai.Receipts.Lifecycle.{IsKeptDb, claim_db}

module _ {Json : Type 0} (t : Table (Receipt Json)) where
  open t use {Db, rows, first, upsert, first_lem, upsert_fresh, upsert_conflict}

  module _ (id : ℕ) (k : Key) (hash : Option ℕ) (token now lease db_now : ℕ)
      (company employee : Option ℕ) where
    hash_same :
        (r : Receipt Json)
        → reclaimable hash db_now r ≡ true
        → same_option r.request_hash hash ≡ true
    unfolding reclaimable
    hash_same r e = ground arith

    -- The same request again, while it is being worked on or after it is done: the caller does not
    -- get the work, but the state and, once the receipt is completed, the stored response.
    claim_duplicate :
        (db : Db) (r : Receipt Json)
        → IsKeptDb t db
        → get_scoped t k db ≡ some r
        → same_option r.request_hash hash ≡ true
        → reclaimable hash db_now r ≡ false
        → (claim_operation t id k hash token now lease db_now company employee db).1
          ≡ ok (record {
            state = if is_completed r.status then ClaimState.completed else ClaimState.processing;
            receipt_id = r.id;
            owner_token = none;
            response = r.response;
          })
    unfolding claim_operation duplicate
    claim_duplicate db r h found same miss =
        rw
          (
            claim_kept t id k hash token now (now + lease * 1000000) db_now company employee db r h
                found miss,
            claim_operation,
          )
          (rw (same, checked)
            (ap ok (answer-duplicate t id k hash token now lease db_now company employee token r)))

    -- Another request under a key that is taken is a conflict, and the table stays as it was.
    claim_conflicts :
        (db : Db) (r : Receipt Json)
        → IsKeptDb t db
        → get_scoped t k db ≡ some r
        → same_option r.request_hash hash ≡ false
        → claim_operation t id k hash token now lease db_now company employee db
          ≡ (db, err conflict)
    unfolding claim_operation duplicate
    claim_conflicts db r h found differ =
        rw
          (
            claim_kept t id k hash token now (now + lease * 1000000) db_now company employee db r h
                found (same_hash t id k hash token now lease db_now company employee r differ),
            claim_operation,
          )
          (rw differ)

    granted :
        (db : Db) (r : Receipt Json)
        → (claim t id k hash token (now + lease * 1000000) db_now company employee db).1
          ≡ ok (record { state = acquired; receipt = r })
        → same_option r.request_hash hash ≡ true
        → claim_operation t id k hash token now lease db_now company employee db ≡ (
          (claim t id k hash token (now + lease * 1000000) db_now company employee db).0,
          ok (record {
            state = acquired;
            receipt_id = r.id;
            owner_token = some token;
            response = none;
          }),
        )
    unfolding claim_operation
    granted db r done same = rw (done, claim_operation) (rw (same, checked) (unfold answer in refl))

    -- The same request after a failure, or after the lease of an earlier attempt has run out: the
    -- caller gets the work, under the id of the receipt that is there, which is now its own.
    claim_takes_over :
        (db : Db) (r : Receipt Json)
        → get_scoped t k db ≡ some r
        → reclaimable hash db_now r ≡ true
        → let (db', answered) =
            claim_operation t id k hash token now lease db_now company employee db in
          (answered
            ≡ ok (record {
              state = acquired;
              receipt_id = r.id;
              owner_token = some token;
              response = none;
            }))
          × (get_scoped t k db' ≡ some (reclaimed token (now + lease * 1000000) r))
    unfolding get_scoped
    claim_takes_over db r found due =
        rw
          (granted db (reclaimed token (now + lease * 1000000) r) taken
            (unfold reclaimed in hash_same r due))
          (
            unfold reclaimed in refl,
            rw (claim_db t id k hash token (now + lease * 1000000) db_now company employee db) held,
          )
      where
        was : find (same_key k) (rows db) ≡ some r
        was = rw first_lem at found

        moved :
            (rows
                (upsert
                  (same_key k)
                  (reclaimable hash db_now)
                  (reclaimed token (now + lease * 1000000))
                  (new_receipt id k hash token (now + lease * 1000000) company employee)
                  db).0
              ≡ map
                  (set_if
                    (λ x. same_key k x && reclaimable hash db_now x)
                    (reclaimed token (now + lease * 1000000)))
                  (rows db))
            × ((upsert
                  (same_key k)
                  (reclaimable hash db_now)
                  (reclaimed token (now + lease * 1000000))
                  (new_receipt id k hash token (now + lease * 1000000) company employee)
                  db).1
                ≡ Option.map
                    (reclaimed token (now + lease * 1000000))
                    (find (λ x. same_key k x && reclaimable hash db_now x) (rows db)))
        moved = upsert_conflict _ _ _ _ db (any-find t _ (rows db) was)

        taken :
            (claim t id k hash token (now + lease * 1000000) db_now company employee db).1
            ≡ ok (record { state = acquired; receipt = reclaimed token (now + lease * 1000000) r })
        taken =
            unfold claim in
            rw (
              moved.1
                  ∙ ap (Option.map (reclaimed token (now + lease * 1000000)))
                      (find_both t (same_key k) (reclaimable hash db_now) (rows db) was due),
              claim,
            )

        held :
            first
              (same_key k)
              (upsert
                (same_key k)
                (reclaimable hash db_now)
                (reclaimed token (now + lease * 1000000))
                (new_receipt id k hash token (now + lease * 1000000) company employee)
                db).0
            ≡ some (reclaimed token (now + lease * 1000000) r)
        held = unfold reclaimed same_key in first-upsert_hit t _ _ _ _ db (λ x. refl) found due

    -- The first request under a key: the caller gets the work, and one receipt is added for it.
    claim_fresh :
        (db : Db)
        → get_scoped t k db ≡ none
        → let (db', answered) =
            claim_operation t id k hash token now lease db_now company employee db in
          (answered
            ≡ ok (record {
              state = acquired;
              receipt_id = id;
              owner_token = some token;
              response = none;
            }))
          × (rows db'
              ≡ rows db
                ++ new_receipt id k hash token (now + lease * 1000000) company employee ∷ [])
    unfolding get_scoped
    claim_fresh db free =
        rw (granted db r taken (unfold new_receipt in (same_option_iff hash hash).1 refl)) (
          unfold new_receipt in refl,
          rw (claim_db t id k hash token (now + lease * 1000000) db_now company employee db)
              (added.0),
        )
      where
        r : Receipt Json
        r = new_receipt id k hash token (now + lease * 1000000) company employee

        added :
            (rows
                (upsert
                  (same_key k)
                  (reclaimable hash db_now)
                  (reclaimed token (now + lease * 1000000))
                  r
                  db).0
              ≡ rows db ++ r ∷ [])
            × ((upsert
                  (same_key k)
                  (reclaimable hash db_now)
                  (reclaimed token (now + lease * 1000000))
                  r
                  db).1
                ≡ some r)
        added = upsert_fresh _ _ _ r db (not_any-find t _ (rows db) (rw first_lem at free))

        taken :
            (claim t id k hash token (now + lease * 1000000) db_now company employee db).1
            ≡ ok (record { state = acquired; receipt = r })
        taken = unfold claim in rw (added.1, claim)
