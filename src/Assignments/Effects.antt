-- ===== src/Assignments/Effects.antt =====
-- What an acknowledgement and a cancellation do.
use mathlib.Core.Option
use onboard_ai.Common.{
  subst, ℕ, ◌≡◌, ◌↔◌, inl, inr, refl, sym, ap, ◌∙◌, arith, true, not, some, keep, ◌==◌, ==_refl,
  all, is_some, ok, Bool-cases, clash,
}
use onboard_ai.Store.{Table, set_if}
use onboard_ai.Store.Laws.{first-update}
use onboard_ai.Reminders.{in_progress, completed}
use onboard_ai.Assignments.{
  is_open, Assignment, Item, Progress, started, finished, withdrawn, acknowledge, is_settled, State,
  get_assignment, get_item, items_of, update_assignment, update_item, mark_in_progress,
  acknowledge_row, complete_if_done, acknowledge_open, require_assignment, require_item,
  acknowledge_found, acknowledge_item, delete_progress, cancel_found, cancel_assignment,
}
use onboard_ai.Assignments.Cases.{Status-cases}

module _ (ta : Table Assignment) (ti : Table Item) (tp : Table Progress) where
  -- A found row is found again, changed.
  get_assignment-update :
      (f : Assignment → Assignment) (k : ℕ) (s : State ta ti tp) {a : Assignment}
      → ((a : Assignment) → (f a).id ≡ a.id)
      → get_assignment ta ti tp k s ≡ some a
      → get_assignment ta ti tp k (update_assignment ta ti tp f a.id s) ≡ some (f a)
  unfolding get_assignment update_assignment
  get_assignment-update f k s {a = a} same found =
      first-update ta _ _ f s.assignments (λ r. rw (same r) refl)
      ∙ ap (Option.map (set_if (λ r. r.id == a.id) f)) found
      ∙ rw (==_refl a.id) refl

  mark_in_progress-found :
      (now k : ℕ) (a : Assignment) (s : State ta ti tp)
      → get_assignment ta ti tp k s ≡ some a
      → is_open a.status ≡ true
      → (get_assignment ta ti tp k (mark_in_progress ta ti tp now a s).0
          ≡ some (mark_in_progress ta ti tp now a s).1)
        × ((mark_in_progress ta ti tp now a s).0.items ≡ s.items)
        × ((mark_in_progress ta ti tp now a s).1.status ≡ in_progress)
        × ((mark_in_progress ta ti tp now a s).1.id ≡ a.id)
  unfolding started is_open mark_in_progress update_assignment
  mark_in_progress-found now k a s found live = elim (Status-cases a.status) [
    | inl e ↦
        rw (e, mark_in_progress)
          (
            get_assignment-update (started now) k s (λ r. refl) found,
            unfold update_assignment in refl,
            refl,
            refl,
          )
    | inr (inl e) ↦ rw (e, mark_in_progress) (found, refl, e, refl)
    | inr (inr (inl e)) ↦ absurd (clash (rw e refl) live)
    | inr (inr (inr e)) ↦ absurd (clash (rw e refl) live)
  ]

  acknowledge_row-found :
      (now k : ℕ) (i : Item) (s : State ta ti tp)
      → get_item ta ti tp k s ≡ some i
      → (get_item ta ti tp k (acknowledge_row ta ti tp now i s).0
          ≡ some (acknowledge_row ta ti tp now i s).1)
        × ((acknowledge_row ta ti tp now i s).0.assignments ≡ s.assignments)
        × (is_some (acknowledge_row ta ti tp now i s).1.acknowledged_at ≡ true)
  unfolding get_item update_item acknowledge acknowledge_row
  acknowledge_row-found now k i s found = elim (Bool-cases (is_some i.acknowledged_at)) [
    | inl was ↦ rw (was, acknowledge_row) (found, refl, was)
    | inr not_yet ↦
        rw (not_yet, acknowledge_row)
          (
            first-update ti _ _ (acknowledge now) s.items (λ r. refl)
                ∙ ap (Option.map (set_if (λ r. r.id == i.id) (acknowledge now))) found
                ∙ rw (==_refl i.id) refl,
            refl,
            refl,
          )
  ]

  complete_if_done-found :
      (now k : ℕ) (a : Assignment) (s : State ta ti tp)
      → get_assignment ta ti tp k s ≡ some a
      → a.status ≡ in_progress
      → (get_assignment ta ti tp k (complete_if_done ta ti tp now a s).0
          ≡ some (complete_if_done ta ti tp now a s).1)
        × ((complete_if_done ta ti tp now a s).0.items ≡ s.items)
        × (((complete_if_done ta ti tp now a s).1.status ≡ completed)
            ↔ (all is_settled (items_of ta ti tp a.id s) ≡ true))
  unfolding finished complete_if_done update_assignment
  complete_if_done-found now k a s found open_still =
      elim (Bool-cases (all is_settled (items_of ta ti tp a.id s))) [
        | inl done ↦
            rw (done, complete_if_done)
              (
                get_assignment-update (finished now) k s (λ r. refl) found,
                unfold update_assignment in refl,
                ground arith,
              )
        | inr left ↦
            rw (left, complete_if_done)
              (found, refl, (λ e. absurd (busy (sym open_still ∙ e)), λ e. cc))
      ]
    where
      busy : in_progress ≡ completed → ⊥
      busy e = cc

  item_in :
      (s s' : State ta ti tp) (k : ℕ) {i : Item}
      → s'.items ≡ s.items
      → get_item ta ti tp k s ≡ some i
      → get_item ta ti tp k s' ≡ some i
  unfolding get_item
  item_in s s' k same found = ap (ti.first (λ i. i.id == k)) same ∙ found

  assignment_in :
      (s s' : State ta ti tp) (k : ℕ) {a : Assignment}
      → s'.assignments ≡ s.assignments
      → get_assignment ta ti tp k s ≡ some a
      → get_assignment ta ti tp k s' ≡ some a
  unfolding get_assignment
  assignment_in s s' k same found = ap (ta.first (λ a. a.id == k)) same ∙ found

  require_assignment-ok :
      (assignment_id : ℕ) (s : State ta ti tp) (a : Assignment)
      → get_assignment ta ti tp assignment_id s ≡ some a
      → a.is_acknowledgement ≡ true
      → require_assignment ta ti tp assignment_id a.company_id a.employee_id s ≡ ok a
  unfolding require_assignment
  require_assignment-ok assignment_id s a found kind = ground (arith, found, kind)

  require_item-ok :
      (item_id : ℕ) (s : State ta ti tp) (a : Assignment) (i : Item)
      → get_item ta ti tp item_id s ≡ some i
      → i.assignment_id ≡ a.id
      → i.company_id ≡ a.company_id
      → require_item ta ti tp a item_id s ≡ ok i
  unfolding require_item
  require_item-ok item_id s a i given inside company = ground (arith, given, inside, company)

  acknowledge_found-open :
      (now : ℕ) (a : Assignment) (i : Item) (s : State ta ti tp)
      → is_open a.status ≡ true
      → acknowledge_found ta ti tp now a i s
        ≡ ((acknowledge_open ta ti tp now a i s).0, ok (acknowledge_open ta ti tp now a i s).1)
  unfolding acknowledge_found is_open
  acknowledge_found-open now a i s live = ground (arith, live)

  acknowledge_item-open :
      (assignment_id item_id now : ℕ) (s : State ta ti tp) (a : Assignment) (i : Item)
      → get_assignment ta ti tp assignment_id s ≡ some a
      → get_item ta ti tp item_id s ≡ some i
      → a.is_acknowledgement ≡ true
      → i.assignment_id ≡ a.id
      → i.company_id ≡ a.company_id
      → is_open a.status ≡ true
      → acknowledge_item ta ti tp assignment_id item_id a.company_id a.employee_id now s
        ≡ ((acknowledge_open ta ti tp now a i s).0, ok (acknowledge_open ta ti tp now a i s).1)
  unfolding acknowledge_item
  acknowledge_item-open assignment_id item_id now s a i found given kind inside company live =
      let granted = require_assignment-ok assignment_id s a found kind in
      let admitted = require_item-ok item_id s a i given inside company in
      rw (granted, acknowledge_item) (rw admitted (acknowledge_found-open now a i s live))

  items_of-same :
      (s s' : State ta ti tp) (j k : ℕ)
      → j ≡ k
      → s'.items ≡ s.items
      → items_of ta ti tp j s ≡ items_of ta ti tp k s'
  unfolding items_of
  items_of-same s s' j k one same =
      ap (λ x. ti.select (λ i. i.assignment_id == x) s.items) one
      ∙ ap (ti.select (λ i. i.assignment_id == k)) (sym same)

  -- An acknowledgement of an open assignment's item, by its employee, takes effect: the item is
  -- found acknowledged, and the assignment is found as it is answered, completed exactly if all its
  -- required items are acknowledged now.
  acknowledge_item_ok :
      (assignment_id item_id now : ℕ) (s : State ta ti tp) (a : Assignment) (i : Item)
      → get_assignment ta ti tp assignment_id s ≡ some a
      → get_item ta ti tp item_id s ≡ some i
      → a.is_acknowledgement ≡ true
      → i.assignment_id ≡ a.id
      → i.company_id ≡ a.company_id
      → is_open a.status ≡ true
      → let (s', answer) =
          acknowledge_item ta ti tp assignment_id item_id a.company_id a.employee_id now s in
        (b : Assignment) × (j : Item) × (answer ≡ ok (b, j))
        × (get_assignment ta ti tp assignment_id s' ≡ some b)
        × (get_item ta ti tp item_id s' ≡ some j)
        × (is_some j.acknowledged_at ≡ true)
        × ((b.status ≡ completed) ↔ (all is_settled (items_of ta ti tp a.id s') ≡ true))
  unfolding acknowledge_item require_assignment require_item acknowledge_open
  acknowledge_item_ok assignment_id item_id now s a i found given kind inside company live =
      let marked = mark_in_progress-found now assignment_id a s found live in
      let s1 = (mark_in_progress ta ti tp now a s).0 in
      let row = acknowledge_row-found now item_id i s1 (item_in s s1 item_id marked.1 given) in
      let s2 = (acknowledge_row ta ti tp now i s1).0 in
      let ended =
        complete_if_done-found now assignment_id (mark_in_progress ta ti tp now a s).1 s2
          (assignment_in s1 s2 assignment_id row.1 marked.0) marked.2 in
      let s3 = (complete_if_done ta ti tp now (mark_in_progress ta ti tp now a s).1 s2).0 in
      let run =
        acknowledge_item-open assignment_id item_id now s a i found given kind inside company
          live in
      rw run (
        (complete_if_done ta ti tp now (mark_in_progress ta ti tp now a s).1 s2).1,
        (acknowledge_row ta ti tp now i s1).1,
        refl,
        ended.0,
        item_in s2 s3 item_id ended.1 row.0,
        row.2,
        subst
            (λ b.
              ((complete_if_done ta ti tp now (mark_in_progress ta ti tp now a s).1 s2).1.status
                ≡ completed)
              ↔ (b ≡ true))
            (ap (all is_settled) (items_of-same s2 s3 _ a.id marked.3 ended.1)) ended.2,
      )

  cancel_found-open :
      (a : Assignment) (s : State ta ti tp)
      → is_open a.status ≡ true
      → cancel_found ta ti tp a s ≡ (
        update_assignment ta ti tp withdrawn a.id (delete_progress ta ti tp a.id s),
        ok (withdrawn a),
      )
  unfolding cancel_found is_open
  cancel_found-open a s live = ground (arith, live)

  -- Cancelling an open assignment of the company withdraws it, removes its progress rows, keeps
  -- those of the others, and leaves the acknowledgement items as they are.
  cancel_assignment_ok :
      (assignment_id : ℕ) (s : State ta ti tp) (a : Assignment)
      → get_assignment ta ti tp assignment_id s ≡ some a
      → is_open a.status ≡ true
      → let (s', answer) = cancel_assignment ta ti tp assignment_id a.company_id s in
        (answer ≡ ok (withdrawn a))
        × (get_assignment ta ti tp assignment_id s' ≡ some (withdrawn a))
        × (tp.rows s'.progress ≡ keep (λ p. not (p.assignment_id == a.id)) (tp.rows s.progress))
        × (s'.items ≡ s.items)
  unfolding cancel_assignment
  cancel_assignment_ok assignment_id s a found live =
      rw (found, cancel_assignment)
        (rw (==_refl a.company_id) (
          rw (cancel_found-open a s live) (
            refl,
            get_assignment-update withdrawn assignment_id (delete_progress ta ti tp a.id s)
                (λ r. unfold withdrawn in refl) (unfold get_assignment delete_progress in found),
            unfold update_assignment delete_progress in
                tp.delete_rows (λ p. p.assignment_id == a.id) s.progress,
            unfold update_assignment delete_progress in refl,
          )))
