-- ===== src/Assignments/Completion.antt =====
-- A completed acknowledgement has all its required items.
use onboard_ai.Common.{ℕ, ◌≡◌, arith, true, List, [], ◌∷◌, ◌==◌, ==_iff, all, keep, All, All-weaken}
use onboard_ai.Store.{Table}
use onboard_ai.Store.Laws.{All-update}
use onboard_ai.Reminders.{completed}
use onboard_ai.Assignments.{
  Assignment, Item, Progress, started, finished, withdrawn, acknowledge, is_settled, State,
  items_of, update_assignment, update_item, delete_progress,
}
use onboard_ai.Assignments.Cases.{
  Step, acknowledges, cancels, Reach, here, next, acknowledge_item_cases, cancel_assignment_cases,
  acknowledge_open_cases,
}

module _ (ta : Table Assignment) (ti : Table Item) (tp : Table Progress) where
  -- The required items of the assignment are acknowledged.
  abbrev pub IsDone : State ta ti tp → ℕ → Type 0
  IsDone s k = All (λ i. i.assignment_id ≡ k → is_settled i ≡ true) (ti.rows s.items)

  -- Every completed assignment has its required items acknowledged.
  abbrev pub IsHonest : State ta ti tp → Type 0
  IsHonest s = All (λ a. a.status ≡ completed → IsDone s a.id) (ta.rows s.assignments)

  all_kept :
      (k : ℕ) (xs : List Item)
      → all is_settled (keep (λ i. i.assignment_id == k) xs) ≡ true
      → All (λ i. i.assignment_id ≡ k → is_settled i ≡ true) xs
  all_kept k [] h = tt
  all_kept k (x ∷ xs) h = (λ e. ground arith, all_kept k xs (ground arith))

  items_of-IsDone :
      (k : ℕ) (s : State ta ti tp) → all is_settled (items_of ta ti tp k s) ≡ true → IsDone s k
  unfolding items_of
  items_of-IsDone k s h =
      all_kept k (ti.rows s.items) (rw (ti.select_lem (λ i. i.assignment_id == k) s.items) at h)

  acknowledge-IsDone :
      (now j k : ℕ) (s : State ta ti tp)
      → IsDone s k
      → IsDone (update_item ta ti tp (acknowledge now) j s) k
  unfolding update_item acknowledge is_settled
  acknowledge-IsDone now j k s h =
      All-update ti (λ i. i.assignment_id ≡ k → is_settled i ≡ true) (λ i. i.id == j)
        (acknowledge now) s.items (λ i before hit mine. ground arith) h

  open-IsHonest :
      (f : Assignment → Assignment) (j : ℕ) (s : State ta ti tp)
      → ((a : Assignment) → (f a).status ≡ completed → ⊥)
      → IsHonest s
      → IsHonest (update_assignment ta ti tp f j s)
  unfolding update_assignment
  open-IsHonest f j s never h =
      All-update ta (λ a. a.status ≡ completed → IsDone s a.id) (λ a. a.id == j) f s.assignments
        (λ a before hit e. absurd (never a e)) h

  finished-IsHonest :
      (now j : ℕ) (s : State ta ti tp)
      → IsDone s j
      → IsHonest s
      → IsHonest (update_assignment ta ti tp (finished now) j s)
  unfolding update_assignment finished
  finished-IsHonest now j s done h =
      All-update ta (λ a. a.status ≡ completed → IsDone s a.id) (λ a. a.id == j) (finished now)
        s.assignments (λ a before hit e. rw ((==_iff a.id j).0 hit) done) h

  Step-IsHonest : {s s' : State ta ti tp} → Step ta ti tp s s' → IsHonest s → IsHonest s'
  unfolding started withdrawn
  Step-IsHonest (acknowledges assignment_id item_id company_id employee_id now s) h =
      acknowledge_item_cases ta ti tp IsHonest assignment_id item_id company_id employee_id now s h
        λ a i found live.
          acknowledge_open_cases ta ti tp IsHonest now a i s h
            (λ s' k. open-IsHonest (started now) a.id s' (λ b e. cc) k)
            (λ s' k.
              unfold update_item in
              All-weaken _ _ (ta.rows s'.assignments)
                (λ b before e. unfold update_item in acknowledge-IsDone now i.id b.id s' (before e))
                k)
            (λ s' k done. finished-IsHonest now a.id s' (items_of-IsDone a.id s' done) k)
  Step-IsHonest (cancels assignment_id company_id s) h =
      cancel_assignment_cases ta ti tp IsHonest assignment_id company_id s h λ a found live.
        open-IsHonest withdrawn a.id (delete_progress ta ti tp a.id s) (λ b e. cc)
          (unfold delete_progress in h)

  -- Where every completed assignment has its required items acknowledged, it stays so, whatever
  -- acknowledgements and cancellations follow.
  pub Reach-IsHonest : {s s' : State ta ti tp} → IsHonest s → Reach ta ti tp s s' → IsHonest s'
  Reach-IsHonest h here = h
  Reach-IsHonest h (next r step) = Step-IsHonest step (Reach-IsHonest h r)
