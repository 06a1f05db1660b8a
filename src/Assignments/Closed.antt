-- ===== src/Assignments/Closed.antt =====
-- Assignments that are closed.
use onboard_ai.Common.{
  ℕ, ◌≡◌, inl, inr, refl, sym, ap, ◌∙◌, Bool, true, false, Option, none, some, ◌==◌, ==_iff,
  Bool-cases, clash,
}
use onboard_ai.Store.{Table}
use onboard_ai.Store.Laws.{first-update_miss, first_passes}
use onboard_ai.Assignments.{
  is_open, Assignment, Item, Progress, started, finished, withdrawn, State, get_assignment,
  update_assignment, update_item, delete_progress,
}
use onboard_ai.Assignments.Cases.{
  Step, acknowledges, cancels, Reach, here, next, acknowledge_item_cases, cancel_assignment_cases,
  acknowledge_open_cases,
}

abbrev is_open_option : Option Assignment → Bool
is_open_option none = false
is_open_option (some a) = is_open a.status

module _ (ta : Table Assignment) (ti : Table Item) (tp : Table Progress) (k : ℕ)
    (m : Assignment) where
  abbrev IsFound : State ta ti tp → Type 0
  IsFound s = get_assignment ta ti tp k s ≡ some m

  -- An update of another assignment.
  update_other :
      (f : Assignment → Assignment) (j : ℕ) (s : State ta ti tp)
      → ((a : Assignment) → (f a).id ≡ a.id)
      → (m.id == j) ≡ false
      → IsFound s
      → IsFound (update_assignment ta ti tp f j s)
  unfolding get_assignment update_assignment
  update_other f j s same other h =
      first-update_miss ta _ _ f s.assignments (λ a. rw (same a) refl) h other

  -- An open assignment is another one than the closed one.
  apart :
      (j : ℕ) {a : Assignment} (s : State ta ti tp)
      → is_open m.status ≡ false
      → IsFound s
      → get_assignment ta ti tp j s ≡ some a
      → is_open a.status ≡ true
      → (m.id == a.id) ≡ false
  unfolding get_assignment
  apart j {a = a} s closed h found live = elim (Bool-cases (m.id == a.id)) [
    | inr other ↦ other
    | inl same ↦
        let at_k : m.id ≡ k =
          (==_iff m.id k).0 (first_passes ta (λ r. r.id == k) s.assignments h) in
        let at_j : a.id ≡ j =
          (==_iff a.id j).0 (first_passes ta (λ r. r.id == j) s.assignments found) in
        let one : k ≡ j = sym at_k ∙ (==_iff m.id a.id).0 same ∙ at_j in
        let twice : some m ≡ some a =
          sym h ∙ ap (λ x. ta.first (λ r. r.id == x) s.assignments) one ∙ found in
        absurd (clash closed (ap is_open_option twice ∙ live))
  ]

  Step-IsFound :
      {s s' : State ta ti tp}
      → is_open m.status ≡ false
      → Step ta ti tp s s'
      → IsFound s
      → IsFound s'
  unfolding started finished withdrawn
  Step-IsFound closed (acknowledges assignment_id item_id company_id employee_id now s) h =
      acknowledge_item_cases ta ti tp IsFound assignment_id item_id company_id employee_id now s h
        λ a i found live.
          let other = apart assignment_id s closed h found live in
          acknowledge_open_cases ta ti tp IsFound now a i s h
            (λ s' h'. update_other (started now) a.id s' (λ r. refl) other h')
            (λ s' h'. unfold get_assignment update_item in h')
            (λ s' h' done. update_other (finished now) a.id s' (λ r. refl) other h')
  Step-IsFound closed (cancels assignment_id company_id s) h =
      cancel_assignment_cases ta ti tp IsFound assignment_id company_id s h λ a found live.
        update_other withdrawn a.id (delete_progress ta ti tp a.id s) (λ r. refl)
          (apart assignment_id s closed h found live) (unfold get_assignment delete_progress in h)

  -- An assignment that is completed or cancelled stays exactly as it is, whatever calls follow: it
  -- is neither acknowledged again, nor reopened, nor cancelled.
  pub closed_is_final :
      {s s' : State ta ti tp}
      → is_open m.status ≡ false
      → get_assignment ta ti tp k s ≡ some m
      → Reach ta ti tp s s'
      → get_assignment ta ti tp k s' ≡ some m
  closed_is_final closed h here = h
  closed_is_final closed h (next r step) = Step-IsFound closed step (closed_is_final closed h r)
