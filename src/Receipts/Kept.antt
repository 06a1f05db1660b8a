-- ===== src/Receipts/Kept.antt =====
-- A claim of a receipt that may not be taken over.
use mathlib.Core.Option
use onboard_ai.Common.{
  ℕ, ◌≡◌, refl, ap, ◌∙◌, false, Option, none, some, arith, find, ok, same_option, find_both_none,
  if◌then◌else◌,
}
use onboard_ai.Store.{Table}
use onboard_ai.Store.Laws.{any-find, first-upsert_miss}
use onboard_ai.Receipts.{
  Receipt, Key, ClaimState, is_completed, same_key, reclaimable, reclaimed, new_receipt, get_scoped,
  claim, answer, duplicate,
}
use onboard_ai.Receipts.Lifecycle.{IsKeptDb}

module _ {Json : Type 0} (t : Table (Receipt Json)) where
  open t use {Db, rows, first, upsert, first_lem, upsert_fresh, upsert_conflict}

  module _ (id : ℕ) (k : Key) (hash : Option ℕ) (token now lease db_now : ℕ)
      (company employee : Option ℕ) where
    -- The claim of a receipt that may not be taken over finds it as it is.
    pub claim_kept :
        (db : Db) (r : Receipt Json)
        → IsKeptDb t db
        → get_scoped t k db ≡ some r
        → reclaimable hash db_now r ≡ false
        → (claim t id k hash token lease db_now company employee db).1 ≡ ok (duplicate t r)
    unfolding claim get_scoped
    claim_kept db r h found miss = rw (unclaimed, claim) (rw stored)
      where
        was : find (same_key k) (rows db) ≡ some r
        was = rw first_lem at found

        unclaimed :
            (upsert
              (same_key k)
              (reclaimable hash db_now)
              (reclaimed token lease)
              (new_receipt id k hash token lease company employee)
              db).1
            ≡ none
        unclaimed =
            (upsert_conflict _ _ _ _ db (any-find t _ (rows db) was)).1
            ∙ ap (Option.map (reclaimed token lease)) (
                find_both_none (same_key k) (reclaimable hash db_now) (rows db) (h.keyed k) was
                  miss)

        stored :
            first
              (same_key k)
              (upsert
                (same_key k)
                (reclaimable hash db_now)
                (reclaimed token lease)
                (new_receipt id k hash token lease company employee)
                db).0
            ≡ some r
        stored =
            unfold reclaimed same_key in
            first-upsert_miss t _ _ _ _ _ db (λ x. refl) found (ground (arith, miss))

    pub answer-duplicate :
        (token : ℕ) (r : Receipt Json)
        → answer t token (duplicate t r) ≡ record {
          state = if is_completed r.status then ClaimState.completed else ClaimState.processing;
          receipt_id = r.id;
          owner_token = none;
          response = r.response;
        }
    unfolding answer duplicate is_completed
    answer-duplicate token r = ground arith

    pub same_hash :
        (r : Receipt Json)
        → same_option r.request_hash hash ≡ false
        → reclaimable hash db_now r ≡ false
    unfolding reclaimable
    same_hash r e = rw e
