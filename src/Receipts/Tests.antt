-- ===== src/Receipts/Tests.antt =====
-- Runs of the receipts on a table in memory; a stored response is a number here.
use onboard_ai.Common.{ℕ, ◌≡◌, refl, none, some, arith, [], ◌∷◌}
use onboard_ai.Common.Text.{codes, text_eq}
use onboard_ai.Store.Memory.{memory}
use onboard_ai.Receipts.{
  Receipt, Key, ClaimState, acquired, processing, completed, failed, reclaimed, new_receipt,
  get_scoped, complete, claim_operation, fail_operation, same_key, reclaimable, is_processing,
  is_completed, is_failed, validate_idempotency_key,
}
use onboard_ai.Receipts.Lifecycle.{IsKeptDb, here, next, claims, completes, fails, Reach-IsKeptDb}
use onboard_ai.Receipts.Ownership.{completed_is_final}

abbrev key : Key
key = record { scope = codes "s"; operation = codes "o"; idempotency_key = codes "k" }

abbrev working : Receipt ℕ
working = record {
  id = 1;
  scope = codes "s";
  operation = codes "o";
  idempotency_key = codes "k";
  request_hash = some 5;
  status = processing;
  owner_token = some 70;
  company_id = none;
  employee_id = none;
  response = none;
  lease_expires_at = some 120000010;
  completed_at = none;
}

abbrev finished : Receipt ℕ
finished = record working {
  status = completed;
  owner_token = none;
  lease_expires_at = none;
  response = some 42;
  completed_at = some 30;
}

abbrev given_up : Receipt ℕ
given_up = record working { status = failed; owner_token = none; lease_expires_at = none }

finished-IsKeptDb : IsKeptDb (memory (Receipt ℕ)) (finished ∷ [])
unfolding is_processing is_completed
finished-IsKeptDb = record { sound = ground arith; keyed = λ k. (λ e. refl, tt) }

working-IsKeptDb : IsKeptDb (memory (Receipt ℕ)) (working ∷ [])
unfolding is_processing is_completed
working-IsKeptDb = record { sound = ground arith; keyed = λ k. (λ e. refl, tt) }

complete_run :
    complete (memory (Receipt ℕ)) 1 70 30 (some 42) none none (working ∷ [])
    ≡ (finished ∷ [], some finished)
unfolding complete onboard_ai.Receipts.is_owned onboard_ai.Receipts.completed_values is_processing
complete_run = refl

Reach-IsKeptDb_example :
    IsKeptDb
      (memory (Receipt ℕ))
      (complete
        (memory (Receipt ℕ))
        1
        70
        30
        (some 42)
        none
        none
        (claim_operation
          (memory (Receipt ℕ))
          2
          key
          (some 5)
          71
          20
          120
          20
          none
          none
          (working ∷ [])).0).0
Reach-IsKeptDb_example = Reach-IsKeptDb (memory (Receipt ℕ)) working-IsKeptDb (
    next (next here (claims 2 key (some 5) 71 20 120 20 none none (working ∷ []) refl))
      (completes 1 70 30 (some 42) none none _))

completed_is_final_example :
    get_scoped (memory (Receipt ℕ)) key (fail_operation (memory (Receipt ℕ)) 1 70 (finished ∷ [])).0
    ≡ some finished
unfolding get_scoped same_key text_eq
completed_is_final_example =
    completed_is_final (memory (Receipt ℕ)) key finished refl refl
      (next here (fails 1 70 (finished ∷ [])))
