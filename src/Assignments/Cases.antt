-- ===== src/Assignments/Cases.antt =====
-- What a call does to the tables, for the properties that follow them through any calls.
use onboard_ai.Common.{
  ℕ, ◌≡◌, ◌⊎◌, inl, inr, refl, arith, true, some, ◌==◌, all, is_some, ok, Bool-cases, Option-cases,
  Result-cases,
}
use onboard_ai.Store.{Table}
use onboard_ai.Reminders.{AssignmentStatus, pending, in_progress, completed, cancelled}
use onboard_ai.Assignments.{
  items_of, is_settled, acknowledge, is_open, Assignment, Item, Progress, started, finished,
  withdrawn, State, get_assignment, update_assignment, update_item, mark_in_progress,
  acknowledge_row, complete_if_done, acknowledge_open, require_assignment, require_item,
  acknowledge_found, acknowledge_item, delete_progress, cancel_found, cancel_assignment,
}

pub Status-cases :
    (st : AssignmentStatus)
    → (st ≡ pending) ⊎ (st ≡ in_progress) ⊎ (st ≡ completed) ⊎ (st ≡ cancelled)
Status-cases pending = inl refl
Status-cases in_progress = inr (inl refl)
Status-cases completed = inr (inr (inl refl))
Status-cases cancelled = inr (inr (inr refl))

module _ (ta : Table Assignment) (ti : Table Item) (tp : Table Progress) where
  -- The calls of the service, at any time and with any arguments.
  pub data Step : State ta ti tp → State ta ti tp → Type 0 where
    acknowledges :
        (assignment_id item_id company_id employee_id now : ℕ) (s : State ta ti tp)
        → Step s (acknowledge_item ta ti tp assignment_id item_id company_id employee_id now s).0
    cancels :
        (assignment_id company_id : ℕ) (s : State ta ti tp)
        → Step s (cancel_assignment ta ti tp assignment_id company_id s).0

  pub data Reach (start : State ta ti tp) : State ta ti tp → Type 0 where
    here : Reach start start
    next : {s s' : State ta ti tp} → Reach start s → Step s s' → Reach start s'

  require_assignment-found :
      (assignment_id company_id employee_id : ℕ) (s : State ta ti tp) {a : Assignment}
      → require_assignment ta ti tp assignment_id company_id employee_id s ≡ ok a
      → get_assignment ta ti tp assignment_id s ≡ some a
  unfolding require_assignment
  require_assignment-found assignment_id company_id employee_id s e =
      elim (Option-cases (get_assignment ta ti tp assignment_id s)) [
        | inl missing ↦ absurd (ground (arith, missing))
        | inr (b, found) ↦ ground (arith, found)
      ]

  -- A call leaves the state as it was, or does what it does to an assignment that it found open.
  pub acknowledge_item_cases {ℓ} :
      (P : State ta ti tp → Type ℓ) (assignment_id item_id company_id employee_id now : ℕ)
      (s : State ta ti tp)
      → P s
      → ((a : Assignment) (i : Item)
          → get_assignment ta ti tp assignment_id s ≡ some a
          → is_open a.status ≡ true
          → P (acknowledge_open ta ti tp now a i s).0)
      → P (acknowledge_item ta ti tp assignment_id item_id company_id employee_id now s).0
  unfolding acknowledge_item require_assignment acknowledge_found is_open
  acknowledge_item_cases P assignment_id item_id company_id employee_id now s kept acts =
      elim (Option-cases (get_assignment ta ti tp assignment_id s)) [
        | inl missing ↦ rw (missing, acknowledge_item, require_assignment) kept
        | inr (a, found) ↦
            elim (Result-cases
              (require_assignment ta ti tp assignment_id company_id employee_id s)) [
                | inl (e, refused) ↦ rw (refused, acknowledge_item) kept
                | inr (a', granted) ↦
                    rw (granted, acknowledge_item)
                      (elim (Result-cases (require_item ta ti tp a' item_id s)) [
                        | inl (e, refused) ↦ rw refused kept
                        | inr (i, given) ↦ rw given (
                            on_status a' i kept (
                              acts a' i (
                                require_assignment-found assignment_id company_id employee_id s
                                  granted)))
                      ])
              ]
      ]
    where
      on_status :
          (a : Assignment) (i : Item)
          → P s
          → (is_open a.status ≡ true → P (acknowledge_open ta ti tp now a i s).0)
          → P (acknowledge_found ta ti tp now a i s).0
      on_status a i kept acts = elim (Status-cases a.status) [
        | inl e ↦ rw (e, acknowledge_found) (acts (rw e refl))
        | inr (inl e) ↦ rw (e, acknowledge_found) (acts (rw e refl))
        | inr (inr (inl e)) ↦ rw (e, acknowledge_found) kept
        | inr (inr (inr e)) ↦ rw (e, acknowledge_found) kept
      ]

  pub cancel_assignment_cases {ℓ} :
      (P : State ta ti tp → Type ℓ) (assignment_id company_id : ℕ) (s : State ta ti tp)
      → P s
      → ((a : Assignment)
          → get_assignment ta ti tp assignment_id s ≡ some a
          → is_open a.status ≡ true
          → P (update_assignment ta ti tp withdrawn a.id (delete_progress ta ti tp a.id s)))
      → P (cancel_assignment ta ti tp assignment_id company_id s).0
  unfolding cancel_assignment cancel_found is_open
  cancel_assignment_cases P assignment_id company_id s kept acts =
      elim (Option-cases (get_assignment ta ti tp assignment_id s)) [
        | inl missing ↦ rw (missing, cancel_assignment) kept
        | inr (a, found) ↦
            rw (found, cancel_assignment)
              (elim (Bool-cases (a.company_id == company_id)) [
                | inr other ↦ rw other kept
                | inl same ↦ rw same (on_status a kept (acts a found))
              ])
      ]
    where
      on_status :
          (a : Assignment)
          → P s
          → (is_open a.status ≡ true
              → P (update_assignment ta ti tp withdrawn a.id (delete_progress ta ti tp a.id s)))
          → P (cancel_found ta ti tp a s).0
      on_status a kept acts = elim (Status-cases a.status) [
        | inl e ↦ rw (e, cancel_found) (acts (rw e refl))
        | inr (inl e) ↦ rw (e, cancel_found) (acts (rw e refl))
        | inr (inr (inl e)) ↦ rw (e, cancel_found) kept
        | inr (inr (inr e)) ↦ rw (e, cancel_found) kept
      ]

  -- The three writes of an acknowledgement, each of which may be left out.
  pub acknowledge_open_cases {ℓ} :
      (P : State ta ti tp → Type ℓ) (now : ℕ) (a : Assignment) (i : Item) (s : State ta ti tp)
      → P s
      → ((s : State ta ti tp) → P s → P (update_assignment ta ti tp (started now) a.id s))
      → ((s : State ta ti tp) → P s → P (update_item ta ti tp (acknowledge now) i.id s))
      → ((s : State ta ti tp)
          → P s
          → all is_settled (items_of ta ti tp a.id s) ≡ true
          → P (update_assignment ta ti tp (finished now) a.id s))
      → P (acknowledge_open ta ti tp now a i s).0
  unfolding acknowledge_open
  acknowledge_open_cases P now a i s h begins marks finishes =
      finish (mark_in_progress ta ti tp now a s).1 (same a) _ (row _ (mark a))
    where
      mark : (a' : Assignment) → P (mark_in_progress ta ti tp now a s).0
      mark a' = elim (Status-cases a.status) [
        | inl e ↦ rw (e, mark_in_progress) (begins s h)
        | inr (inl e) ↦ rw (e, mark_in_progress) h
        | inr (inr (inl e)) ↦ rw (e, mark_in_progress) h
        | inr (inr (inr e)) ↦ rw (e, mark_in_progress) h
      ]

      same : (a' : Assignment) → (mark_in_progress ta ti tp now a s).1.id ≡ a.id
      same a' = elim (Status-cases a.status) [
        | inl e ↦ rw (e, mark_in_progress) (unfold started in refl)
        | inr (inl e) ↦ rw (e, mark_in_progress) refl
        | inr (inr (inl e)) ↦ rw (e, mark_in_progress) refl
        | inr (inr (inr e)) ↦ rw (e, mark_in_progress) refl
      ]

      row : (s : State ta ti tp) → P s → P (acknowledge_row ta ti tp now i s).0
      row s k = elim (Bool-cases (is_some i.acknowledged_at)) [
        | inl was ↦ rw (was, acknowledge_row) k
        | inr not_yet ↦ rw (not_yet, acknowledge_row) (marks s k)
      ]

      finish :
          (b : Assignment)
          → b.id ≡ a.id
          → (s : State ta ti tp) → P s
          → P (complete_if_done ta ti tp now b s).0
      finish b e s k = elim (Bool-cases (all is_settled (items_of ta ti tp b.id s))) [
        | inl was ↦ rw (was, complete_if_done) (rw e (finishes s k (rw e at was)))
        | inr not_yet ↦ rw (not_yet, complete_if_done) k
      ]
