-- ===== src/Receipts/Ownership.antt =====
-- Who may change a receipt: a completed one nobody, and a processing one only its owner while the
-- lease runs.
use onboard_ai.Common.{ℕ, ◌≤◌, ◌≡◌, ◌≢◌, refl, false, some, arith}
use onboard_ai.Store.{Table}
use onboard_ai.Store.Laws.{first-update_miss, first-upsert_miss}
use onboard_ai.Receipts.{
  Receipt, Key, processing, completed, is_processing, is_failed, same_key, reclaimable, reclaimed,
  is_owned, completed_values, failed_values, get_scoped, complete, fail, fail_operation,
}
use onboard_ai.Receipts.Lifecycle.{
  Step, claims, completes, fails, Reach, here, next, claim_db, claim_operation_cases,
}

module _ {Json : Type 0} (t : Table (Receipt Json)) where
  open t use {Db, rows}

  -- What a call would have to find true of the receipt in order to change it is false.
  abbrev Resists : Receipt Json → {db db' : Db} → Step t db db' → Type 0
  Resists r (claims id k hash token now lease db_now company employee db pair) =
      reclaimable hash db_now r ≡ false
  Resists r (completes id token at response company employee db) = is_owned id token r ≡ false
  Resists r (fails id token db) = is_owned id token r ≡ false

  Step-Resists :
      (k : Key) {db db' : Db} {r : Receipt Json} (s : Step t db db')
      → Resists r s
      → get_scoped t k db ≡ some r
      → get_scoped t k db' ≡ some r
  Step-Resists k {r = r} (claims id j hash token now lease db_now company employee db pair) miss
        found =
      claim_operation_cases t (λ d. get_scoped t k d ≡ some r) id j hash token now lease db_now
        company employee db found
        (rw (claim_db t id j hash token _ db_now company employee db) (
          unfold get_scoped reclaimed same_key in
          first-upsert_miss t _ _ _ _ _ db (λ x. refl) found (ground (arith, miss))))
  Step-Resists k (completes id token at response company employee db) miss found =
      unfold get_scoped complete completed_values same_key in
      first-update_miss t _ _ _ db (λ x. refl) found miss
  Step-Resists k (fails id token db) miss found =
      unfold get_scoped fail_operation fail failed_values same_key in
      first-update_miss t _ _ _ db (λ x. refl) found miss

  completed-Resists :
      {db db' : Db} (r : Receipt Json) (s : Step t db db') → r.status ≡ completed → Resists r s
  unfolding reclaimable is_owned is_processing is_failed
  completed-Resists r (claims id k hash token now lease db_now company employee db pair) e =
      ground arith
  completed-Resists r (completes id token at response company employee db) e = ground arith
  completed-Resists r (fails id token db) e = ground arith

  -- A completed receipt, its stored response included, stays exactly as it is, whatever calls
  -- follow.
  pub completed_is_final :
      (k : Key) (r : Receipt Json) {start db : Db}
      → get_scoped t k start ≡ some r
      → r.status ≡ completed
      → Reach t start db
      → get_scoped t k db ≡ some r
  completed_is_final k r found e here = found
  completed_is_final k r found e (next path s) =
      Step-Resists k s (completed-Resists r s e) (completed_is_final k r found e path)

  -- Calls of others while a lease runs: a claim no later than the deadline, and a result reported
  -- under another token.
  abbrev pub IsOutside : ℕ → ℕ → {db db' : Db} → Step t db db' → Type 0
  IsOutside owner deadline (claims id k hash token now lease db_now company employee db pair) =
      db_now ≤ deadline
  IsOutside owner deadline (completes id token at response company employee db) = token ≢ owner
  IsOutside owner deadline (fails id token db) = token ≢ owner

  leased-Resists :
      {db db' : Db} (owner deadline : ℕ) (r : Receipt Json) (s : Step t db db')
      → r.status ≡ processing
      → r.owner_token ≡ some owner
      → r.lease_expires_at ≡ some deadline
      → IsOutside owner deadline s
      → Resists r s
  unfolding reclaimable is_owned is_processing is_failed
  leased-Resists owner deadline r (claims id k hash token now lease db_now company employee db pair)
        e o l q =
      ground arith
  leased-Resists owner deadline r (completes id token at response company employee db) e o l q =
      ground arith
  leased-Resists owner deadline r (fails id token db) e o l q = ground arith

  -- Sequences of such calls.
  pub data Meanwhile (owner deadline : ℕ) (start : Db) : Db → Type 0 where
    idle : Meanwhile owner deadline start start
    other :
        {db db' : Db}
        → Meanwhile owner deadline start db
        → (s : Step t db db') → IsOutside owner deadline s
        → Meanwhile owner deadline start db'

  -- While a lease runs, no call but its owner's changes the receipt: a retry of the same request
  -- cannot take it over, and no other token can complete or fail it.
  processing_is_exclusive :
      (k : Key) (owner deadline : ℕ) (r : Receipt Json) {start db : Db}
      → get_scoped t k start ≡ some r
      → r.status ≡ processing
      → r.owner_token ≡ some owner
      → r.lease_expires_at ≡ some deadline
      → Meanwhile owner deadline start db
      → get_scoped t k db ≡ some r
  processing_is_exclusive k owner deadline r found e o l idle = found
  processing_is_exclusive k owner deadline r found e o l (other path s q) =
      Step-Resists k s (leased-Resists owner deadline r s e o l q)
        (processing_is_exclusive k owner deadline r found e o l path)
